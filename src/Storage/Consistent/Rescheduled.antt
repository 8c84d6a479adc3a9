-- ===== src/Storage/Consistent/Rescheduled.antt =====
-- The change of a schedule (`update_schedule_at` of storage.rs) keeps the tables consistent.
use sync_plus.Base.{
  ℕ, Bool, Option, none, some, List, Text, nat_eq, bool_eq, ◌==◌, if◌then◌else◌, Result, ok, err,
  panicked, require, ◌≡◌, refl, arith, bind_ok, require_ok, inr, subst,
}
use mathlib.Core.Option.{some-injective}
use sync_plus.Base.Int.{ℤ}
use sync_plus.Base.Order.{nat_ord}
use sync_plus.Base.Tree.{map_get, map_get-map_insert, map_get-map_remove}
use sync_plus.Schedule.{ScheduleDefinition, InvalidSchedule, schedule_error}
use sync_plus.Storage.{Store, ProfileRow, PersistedSyncProfile, ApplicationMode, existing_profile}
use sync_plus.Storage.Checks.{StorageError}
use sync_plus.Storage.Consistent.{IsConsistent}
use sync_plus.Storage.Consistent.Kept.{replaced-IsConsistent, below, entry_of}
use sync_plus.Storage.Profiles.{revision_after}
use sync_plus.Storage.Schedules.{
  optional_started, schedule_refusal, schedule_error_refusal, with_schedule, rescheduled_row,
  reschedule_found, negative_error, reschedule_in_transaction, reschedule_finished,
  update_schedule_at,
}

map_get-with_schedule :
    (id j : ℕ) (schedule : Option ScheduleDefinition) (schedules : List (ℕ × ScheduleDefinition))
    → map_get j (with_schedule id schedule schedules)
      ≡ (if id == j then schedule else map_get j schedules)
map_get-with_schedule id j none schedules = map_get-map_remove id j schedules
map_get-with_schedule id j (some s) schedules = map_get-map_insert id j s schedules

-- A schedule that is not refused is valid.
accepted :
    (e : Option InvalidSchedule) (mode : ApplicationMode) (existing : PersistedSyncProfile)
    (s : ScheduleDefinition)
    → schedule_error_refusal mode existing s e ≡ none
    → e ≡ none
accepted none mode existing s h = refl
accepted (some e) mode existing s h = ground arith

schedule_refusal-valid :
    (mode : ApplicationMode) (existing : PersistedSyncProfile)
    (schedule : Option ScheduleDefinition)
    → schedule_refusal mode existing schedule ≡ none
    → (s : ScheduleDefinition) → schedule ≡ some s
    → schedule_error s ≡ none
schedule_refusal-valid mode existing none h s e = ground (arith, e)
schedule_refusal-valid mode existing (some t) h s e =
    subst (λ s. schedule_error s ≡ none) (some-injective t s e)
      (accepted (schedule_error t) mode existing t h)

reschedule_found_ok :
    (store : Store) (id : ℕ) (existing : PersistedSyncProfile)
    (schedule : Option ScheduleDefinition) (revision : ℕ) (found : Option ProfileRow)
    {after : Store}
    → reschedule_found store id existing schedule revision found ≡ ok after
    → (row : ProfileRow) × (found ≡ some row)
      × (rescheduled_row store id row schedule revision ≡ after)
reschedule_found_ok store id existing schedule revision none h = ground arith
reschedule_found_ok store id existing schedule revision (some row) h = (row, refl, ground arith)

module _ (is_dir : Text → Bool) where
  rescheduled_row-IsConsistent :
      (store : Store) (id : ℕ) (row : ProfileRow) (schedule : Option ScheduleDefinition)
      (revision : ℕ)
      → IsConsistent is_dir store
      → map_get id store.profiles ≡ some row
      → ((s : ScheduleDefinition) → schedule ≡ some s → schedule_error s ≡ none)
      → IsConsistent is_dir (rescheduled_row store id row schedule revision)
  rescheduled_row-IsConsistent store id row schedule revision c found valid =
      let old = map_get id store.schedules in
      let entry = entry_of is_dir row (map_get id store.profiles) old found (c.entries id) in
      replaced-IsConsistent is_dir store (rescheduled_row store id row schedule revision) id _
        schedule c (λ j. map_get-map_insert id j _ store.profiles)
        (λ j. map_get-with_schedule id j schedule store.schedules)
        (record {
          profile = entry.profile;
          decoded = entry.decoded;
          authorizations = entry.authorizations;
          enabled = refl;
          schedule_valid = valid;
        })
        (omega arith) (inr (below is_dir store id c found))

  reschedule_in_transaction-IsConsistent :
      (store after : Store) (id : ℕ) (wanted : Option ScheduleDefinition) (mode : ApplicationMode)
      (now : ℤ)
      → IsConsistent is_dir store
      → reschedule_in_transaction is_dir id wanted mode now store ≡ ok after
      → IsConsistent is_dir after
  reschedule_in_transaction-IsConsistent store after id wanted mode now c h =
      let (_, _, h1) = bind_ok (require (negative_error now)) _ h in
      let (schedule, _, h2) = bind_ok (optional_started now wanted) _ h1 in
      let (existing, _, h3) = bind_ok (existing_profile is_dir store id) _ h2 in
      let (_, e4, h4) = bind_ok (require (schedule_refusal mode existing schedule)) _ h3 in
      let (revision, _, h5) = bind_ok (revision_after existing.revision) _ h4 in
      let (row, found, made) =
        reschedule_found_ok store id existing schedule revision (map_get id store.profiles) h5 in
      subst (IsConsistent is_dir) made (
        rescheduled_row-IsConsistent store id row schedule revision c found
          (schedule_refusal-valid mode existing schedule (require_ok _ e4)))

  finished-IsConsistent :
      (store : Store) (id : ℕ) (wanted : Option ScheduleDefinition) (mode : ApplicationMode)
      (now : ℤ) (r : Result StorageError Store)
      → IsConsistent is_dir store
      → reschedule_in_transaction is_dir id wanted mode now store ≡ r
      → IsConsistent is_dir (reschedule_finished is_dir id store r).0
  finished-IsConsistent store id wanted mode now (ok after) c h =
      reschedule_in_transaction-IsConsistent store after id wanted mode now c h
  finished-IsConsistent store id wanted mode now (err e) c h = c
  finished-IsConsistent store id wanted mode now panicked c h = c

  pub update_schedule-IsConsistent :
      (store : Store) (id : ℕ) (wanted : Option ScheduleDefinition) (mode : ApplicationMode)
      (now : ℤ)
      → IsConsistent is_dir store
      → IsConsistent is_dir (update_schedule_at is_dir id wanted mode now store).0
  unfolding update_schedule_at
  update_schedule-IsConsistent store id wanted mode now c =
      finished-IsConsistent store id wanted mode now _ c refl
