-- ===== src/Storage/Claim.antt =====
-- Claiming a due occurrence (`claim_due_schedule` of storage.rs, and the run numbers of evidence.rs).
-- The profile is read before the transaction starts, so another process may change the tables in
-- between: the reading and the transaction are two steps, on two states of the tables.
pub mod Effect
pub mod Once
pub mod Numbers
use sync_plus.Base.{
  ℕ, suc, ◌+◌, ◌^◌, max, Bool, true, false, ◌&&◌, ◌||◌, not, Option, none, some, List, [], ◌∷◌,
  ◌++◌, if◌then◌else◌, ◌==◌, ◌/=◌, ltb, is_none, Result, ok, err, panicked, ◌>>=◌, ◌>>◌, require,
  option_eq, nat_eq, Text,
}
use sync_plus.Base.Int.{ℤ, int_eq}
use sync_plus.Base.Int64.{is_negative}
use sync_plus.Base.Order.{nat_ord}
use sync_plus.Base.Tree.{map_get, map_insert}
use sync_plus.Base.Strings.{codes}
use sync_plus.Model.{DeletionMethod, permanent_removal, method_eq, SyncOptions}
use sync_plus.Profile.{SyncProfile, AuthorizationSnapshot}
use sync_plus.Process.Specification.{ProcessSpecification, from_profile_for_run}
use sync_plus.Schedule.{
  ScheduleDefinition, current_time_nonnegative, due_at, next_occurrence, with_next_run_at,
}
use sync_plus.Storage.{
  ProfileRow, PersistedSyncProfile, RunSnapshot, SchedulerEventKind, scheduled_run_claimed,
  SchedulerEvent, Store, Operation, value_as_i64, existing_profile, load_profile,
}
use sync_plus.Storage.Checks.{
  StorageError, query_returned_no_rows, invalid_profile, invalid_schedule, invalid_snapshot,
  invalid_event, map_error,
}

pub record ClaimedScheduledRun : Type 0 where
  pub profile_id : ℕ
  pub run_id : ℕ
  pub scheduled_at_unix_seconds : ℤ
  pub snapshot : RunSnapshot

-- What is known before the transaction: the profile as it was read, the due occurrence, the next.
pub record Draft : Type 0 where
  pub existing : PersistedSyncProfile
  pub scheduled_at : ℤ
  pub next_run : ℤ

-- The largest number of a snapshot, or 0.
abbrev pub highest_existing : List RunSnapshot → ℕ
highest_existing [] = 0
highest_existing (s ∷ snapshots) = max s.run_id (highest_existing snapshots)

abbrev run_id_exhausted : StorageError
run_id_exhausted = invalid_snapshot (codes "run identifier is exhausted")

abbrev in_i64 : ℕ → Result StorageError ℕ
in_i64 n = if ltb n (2 ^ 63) then ok n else err run_id_exhausted

-- `allocate_run_id_in_transaction`: the tables with the sequence moved on, and the number.
unfoldable pub allocate_run_id_in_transaction : Store → Result StorageError (Store × ℕ)
allocate_run_id_in_transaction store = do
  highest ← in_i64 (highest_existing store.snapshots + 1)
  let next = max store.next_run_id highest
  following ← in_i64 (next + 1)
  ok (record store { next_run_id = following }, next)

abbrev notice_range_error : Option ℕ → Option StorageError
notice_range_error none = none
notice_range_error (some id) =
    if ltb id (2 ^ 63)
    then none
    else some (invalid_event (codes "scheduler notice identifier is out of range"))

abbrev pub insert_scheduler_event_in_transaction :
    Store → SchedulerEvent → Result StorageError Store
insert_scheduler_event_in_transaction store event = do
  value_as_i64 event.profile_id
  require (
      if ltb event.run_id (2 ^ 63)
      then none
      else some (invalid_event (codes "scheduler run identifier is out of range")))
  require (
      if is_negative event.created_at_unix_seconds
      then some (invalid_event (codes "scheduler event time must be nonnegative"))
      else none)
  require (notice_range_error event.missed_notice_id)
  ok (record store { events = store.events ++ (event ∷ []) })

-- `begin_run_in_transaction` keeps the sequence above the run's number.
abbrev begin_run_in_transaction : Store → RunSnapshot → Result StorageError Store
begin_run_in_transaction store snapshot =
    if ltb (snapshot.run_id + 1) (2 ^ 63)
    then ok (record store {
      next_run_id = max store.next_run_id (snapshot.run_id + 1);
      snapshots = store.snapshots ++ (snapshot ∷ []);
    })
    else err (invalid_snapshot (codes "run identifier is out of range"))

abbrev claim_event : ℕ → ℕ → ℤ → SchedulerEvent
claim_event id run_id now = record {
  profile_id = id;
  run_id = run_id;
  kind = scheduled_run_claimed;
  created_at_unix_seconds = now;
  missed_notice_id = none;
  retry_count = none;
}

-- `WHERE profile_id = … AND enabled = 1 AND next_run_at_unix_seconds = …`.
abbrev pub is_still_due : Option ScheduleDefinition → ℤ → Bool
is_still_due none scheduled_at = false
is_still_due (some s) scheduled_at = s.enabled && s.next_run_at_unix_seconds == some scheduled_at

abbrev pub advance_schedule :
    List (ℕ × ScheduleDefinition)
    → ℕ
    → Option ScheduleDefinition
    → ℤ
    → List (ℕ × ScheduleDefinition)
advance_schedule schedules id none next_run = schedules
advance_schedule schedules id (some s) next_run =
    map_insert id (with_next_run_at s (some next_run)) schedules

abbrev advance_row : Store → ℕ → ℤ → Store
advance_row store id next_run = record store {
  schedules = advance_schedule store.schedules id (map_get id store.schedules) next_run;
}

-- The end of the transaction, and what it claimed.
abbrev finished :
    Store
    → Result StorageError (Store × Option ClaimedScheduledRun)
    → Store × Result StorageError (Option ClaimedScheduledRun)
finished store (err e) = (store, err e)
finished store panicked = (store, panicked)
finished store (ok (after, claimed)) = (after, ok claimed)

abbrev pub claimed_of :
    Result StorageError (Option ClaimedScheduledRun) → Option ClaimedScheduledRun
claimed_of (ok claimed) = claimed
claimed_of _ = none

abbrev pub snapshot_error : SyncOptions → AuthorizationSnapshot → Option StorageError
snapshot_error o authorizations =
    if authorizations.allow_unattended_permanent_removal
      && (o.deletion_method /= some permanent_removal || not o.safe_delete)
    then some (
        invalid_snapshot (
          codes
            "unattended permanent removal requires Safe Delete with Permanent Removal selected"))
    else none

abbrev pub time_error : ℤ → Option StorageError
time_error now = if is_negative now then some (invalid_schedule current_time_nonnegative) else none

abbrev draft_at :
    PersistedSyncProfile → ScheduleDefinition → ℤ → Option ℤ → Result StorageError (Option Draft)
draft_at existing s now none = ok none
draft_at existing s now (some scheduled_at) = do
  next_run ← map_error invalid_schedule (next_occurrence s scheduled_at now)
  ok (some (record { existing = existing; scheduled_at = scheduled_at; next_run = next_run }))

abbrev draft_of :
    PersistedSyncProfile → ℤ → Option ScheduleDefinition → Result StorageError (Option Draft)
draft_of existing now none = ok none
draft_of existing now (some s) = draft_at existing s now (due_at s now)

abbrev claimed_run : ℕ → Draft → RunSnapshot → ClaimedScheduledRun
claimed_run id d snapshot = record {
  profile_id = id;
  run_id = snapshot.run_id;
  scheduled_at_unix_seconds = d.scheduled_at;
  snapshot = snapshot;
}

-- The update of the schedule, the run's snapshot and the event.
abbrev claim_due_row :
    ℕ → Draft → ℤ → Store → RunSnapshot → Result StorageError (Store × Option ClaimedScheduledRun)
claim_due_row id d now store snapshot = do
  begun ← begin_run_in_transaction (advance_row store id d.next_run) snapshot
  after ← insert_scheduler_event_in_transaction begun (claim_event id snapshot.run_id now)
  ok (after, some (claimed_run id d snapshot))

-- If the occurrence is no longer the next, the transaction ends with the run's number used up.
abbrev claim_row :
    ℕ → Draft → ℤ → Store → RunSnapshot → Result StorageError (Store × Option ClaimedScheduledRun)
claim_row id d now store snapshot =
    let claim = claim_due_row id d now store snapshot in
    if is_still_due (map_get id store.schedules) d.scheduled_at then claim else ok (store, none)

module _ (is_dir : Text → Bool) where
  abbrev run_specification : SyncProfile → Result StorageError ProcessSpecification
  run_specification profile = map_error invalid_profile (from_profile_for_run is_dir profile)

  -- `RunSnapshot::from_profile`, at the time that the clock shows.
  abbrev snapshot_from_profile :
      ℕ → SyncProfile → AuthorizationSnapshot → ℤ → Result StorageError RunSnapshot
  snapshot_from_profile run_id profile authorizations created_at = do
    specification ← run_specification profile
    require (snapshot_error specification.options authorizations)
    ok record {
      run_id = run_id;
      created_at_unix_seconds = created_at;
      profile = profile;
      validated_options = specification.options;
      authorizations = authorizations;
    }

  -- The part of `claim_due_schedule` before the transaction.
  unfoldable pub draft : Store → ℕ → ℤ → Result StorageError (Option Draft)
  unfolding load_profile next_occurrence
  draft store id now = do
    require (time_error now)
    existing ← existing_profile is_dir store id
    draft_of existing now existing.schedule

  -- The profile is still the one that was read.
  abbrev claim_of_current :
      Draft → ℤ → ℤ → Store → Result StorageError (Store × Option ClaimedScheduledRun)
  claim_of_current d now created_at store = do
    (allocated, run_id) ← allocate_run_id_in_transaction store
    snapshot ← snapshot_from_profile run_id d.existing.profile d.existing.authorizations created_at
    claim_row d.existing.id d now allocated snapshot

  abbrev claim_against :
      Draft
      → ℤ
      → ℤ
      → Store
      → Option ProfileRow
      → Result StorageError (Store × Option ClaimedScheduledRun)
  claim_against d now created_at store none = err query_returned_no_rows
  claim_against d now created_at store (some row) =
      let claim = claim_of_current d now created_at store in
      if row.profile_revision /= d.existing.revision then ok (store, none) else claim

  abbrev claim_in_transaction :
      Draft → ℤ → ℤ → Store → Result StorageError (Store × Option ClaimedScheduledRun)
  claim_in_transaction d now created_at store =
      claim_against d now created_at store (map_get d.existing.id store.profiles)

  -- The transaction of `claim_due_schedule`.
  unfoldable pub claim : Draft → ℤ → ℤ → Operation (Option ClaimedScheduledRun)
  unfolding map_get map_insert allocate_run_id_in_transaction from_profile_for_run
  claim d now created_at store = finished store (claim_in_transaction d now created_at store)

  -- `claim_due_schedule` with nothing in between.
  unfoldable pub claim_due_schedule : ℕ → ℤ → ℤ → Operation (Option ClaimedScheduledRun)
  unfolding draft claim
  claim_due_schedule id now created_at store = elim (draft store id now) [
    | err e ↦ (store, err e)
    | panicked ↦ (store, panicked)
    | ok none ↦ (store, ok none)
    | ok (some d) ↦ claim d now created_at store
  ]
