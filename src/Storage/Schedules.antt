-- ===== src/Storage/Schedules.antt =====
-- The change of a profile's schedule (`update_schedule_at` of storage.rs).
use sync_plus.Base.{
  ℕ, Bool, true, false, ◌&&◌, not, Option, none, some, List, if◌then◌else◌, ◌/=◌, is_none, Result,
  ok, err, panicked, ◌>>=◌, ◌>>◌, require, option_eq, nat_eq, text_eq, Text,
}
use sync_plus.Base.Int.{ℤ}
use sync_plus.Base.Int64.{is_negative}
use sync_plus.Base.Order.{nat_ord}
use sync_plus.Base.Tree.{map_get, map_insert, map_remove}
use sync_plus.Schedule.{
  ScheduleDefinition, InvalidSchedule, current_time_nonnegative, deletion_method_needed,
  schedule_error, started,
}
use sync_plus.Storage.{
  ApplicationMode, advanced, simple, ProfileRow, PersistedSyncProfile, Store, Operation,
  load_profile, existing_profile, is_enabled,
}
use sync_plus.Storage.Checks.{
  StorageError, invalid_schedule, schedule_requires_advanced, concurrent_profile_update, map_error,
}
use sync_plus.Storage.Profiles.{revision_after}

abbrev is_advanced : ApplicationMode → Bool
is_advanced advanced = true
is_advanced simple = false

abbrev pub optional_started :
    ℤ → Option ScheduleDefinition → Result StorageError (Option ScheduleDefinition)
optional_started now none = ok none
optional_started now (some schedule) =
    map_error invalid_schedule (started schedule now) >>= λ s. ok (some s)

-- What the change of a schedule checks against the profile.
abbrev pub schedule_error_refusal :
    ApplicationMode
    → PersistedSyncProfile
    → ScheduleDefinition
    → Option InvalidSchedule
    → Option StorageError
schedule_error_refusal mode existing s (some e) = some (invalid_schedule e)
schedule_error_refusal mode existing s none =
    if s.enabled && not (is_advanced mode)
    then some schedule_requires_advanced
    else if s.enabled
        && existing.profile.options.safe_delete
        && is_none existing.profile.options.deletion_method
    then some (invalid_schedule deletion_method_needed)
    else none

abbrev pub schedule_refusal :
    ApplicationMode → PersistedSyncProfile → Option ScheduleDefinition → Option StorageError
schedule_refusal mode existing none = none
schedule_refusal mode existing (some s) = schedule_error_refusal mode existing s (schedule_error s)

abbrev pub with_schedule :
    ℕ → Option ScheduleDefinition → List (ℕ × ScheduleDefinition) → List (ℕ × ScheduleDefinition)
with_schedule id none schedules = map_remove id schedules
with_schedule id (some s) schedules = map_insert id s schedules

abbrev pub rescheduled_row : Store → ℕ → ProfileRow → Option ScheduleDefinition → ℕ → Store
rescheduled_row store id row schedule revision = record store {
  profiles =
      map_insert id
        (record row { schedule_enabled = is_enabled schedule; profile_revision = revision })
        store.profiles;
  schedules = with_schedule id schedule store.schedules;
}

abbrev pub reschedule_found :
    Store
    → ℕ
    → PersistedSyncProfile
    → Option ScheduleDefinition
    → ℕ
    → Option ProfileRow
    → Result StorageError Store
reschedule_found store id existing schedule revision none = err concurrent_profile_update
reschedule_found store id existing schedule revision (some row) =
    if row.profile_revision /= existing.revision
    then err concurrent_profile_update
    else ok (rescheduled_row store id row schedule revision)

abbrev pub reschedule_row :
    Store → ℕ → PersistedSyncProfile → Option ScheduleDefinition → ℕ → Result StorageError Store
reschedule_row store id existing schedule revision =
    reschedule_found store id existing schedule revision (map_get id store.profiles)

abbrev pub negative_error : ℤ → Option StorageError
negative_error now =
    if is_negative now then some (invalid_schedule current_time_nonnegative) else none

module _ (is_dir : Text → Bool) where
  -- The checks and the transaction of `update_schedule_at`.
  abbrev pub reschedule_in_transaction :
      ℕ → Option ScheduleDefinition → ApplicationMode → ℤ → Store → Result StorageError Store
  reschedule_in_transaction id wanted mode now store = do
    require (negative_error now)
    schedule ← optional_started now wanted
    existing ← existing_profile is_dir store id
    require (schedule_refusal mode existing schedule)
    revision ← revision_after existing.revision
    reschedule_row store id existing schedule revision

  -- The profile is read again after the commit.
  abbrev pub reschedule_finished :
      ℕ → Store → Result StorageError Store → Store × Result StorageError PersistedSyncProfile
  reschedule_finished id store (err e) = (store, err e)
  reschedule_finished id store panicked = (store, panicked)
  reschedule_finished id store (ok after) = (after, existing_profile is_dir after id)

  unfoldable pub update_schedule_at :
      ℕ → Option ScheduleDefinition → ApplicationMode → ℤ → Operation PersistedSyncProfile
  unfolding load_profile map_insert map_remove map_get schedule_error started
  update_schedule_at id wanted mode now store =
      reschedule_finished id store (reschedule_in_transaction id wanted mode now store)
