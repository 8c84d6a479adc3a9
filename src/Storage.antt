-- ===== src/Storage.antt =====
-- The application database of storage.rs: its tables as a value, and what reading a profile checks.
-- A profile's row is kept as its columns, which a read decodes; the other rows are kept as what they
-- decode to. A table is a map from its primary key. A transaction that returns an error leaves the
-- tables as they were.
pub mod Checks
pub mod Profiles
pub mod Schedules
pub mod Columns
pub mod Encoding
pub mod Missed
pub mod Consistent
pub mod Loaded
pub mod Claim
use mathlib.Core.Option
use sync_plus.Base.{
  ℕ, ◌+◌, ◌^◌, Bool, true, false, ◌&&◌, ◌||◌, not, Option, none, some, List, [], ◌∷◌, map, Text,
  if◌then◌else◌, ◌==◌, ◌/=◌, any, all, ltb, length, is_some_and, is_none, Result, ok, err, panicked,
  ◌>>=◌, ◌>>◌, require, option_eq, nat_eq, bool_eq, texts_eq,
}
use sync_plus.Base.Int.{ℤ}
use sync_plus.Base.Order.{nat_ord}
use sync_plus.Base.Tree.{map_get, map_insert}
use sync_plus.Base.Strings.{codes, is_blank, contains_nul}
use sync_plus.Path.{FilePath}
use sync_plus.Model.{SyncOptions, permanent_removal, method_eq, mode_eq, side_eq, options_eq}
use sync_plus.Profile.{SyncProfile, Peer, AuthorizationSnapshot, same_peer}
use sync_plus.Process.{ProcessSpecError}
use sync_plus.Process.Specification.{ProcessSpecification, from_profile}
use sync_plus.ScopeLock.{same_endpoint}
use sync_plus.Schedule.{ScheduleDefinition, InvalidSchedule, new_with_next_run_at, schedule_error}
use sync_plus.Parser.Bytes.{is_utf8}
use sync_plus.Storage.Checks.{
  MissedScheduleDecision, StorageError, duplicate_endpoint_pair, invalid_authorization,
  invalid_schedule, profile_not_found, corrupt_evidence, map_error, validate_profile,
}
use sync_plus.Storage.Encoding.{RawProfile, into_profile, row_of}

pub data ApplicationMode : Type 0 where
  simple advanced : ApplicationMode

-- A row of `sync_profiles`: the columns of the profile, and the rows of its exclusions in order.
pub record ProfileRow : Type 0 where
  pub columns : RawProfile
  pub exclusions : List Text
  pub schedule_enabled : Bool
  pub authorizations : AuthorizationSnapshot
  pub profile_revision : ℕ

pub record PersistedSyncProfile : Type 0 where
  pub id : ℕ
  pub profile : SyncProfile
  pub schedule_enabled : Bool
  pub schedule : Option ScheduleDefinition
  pub revision : ℕ
  pub authorizations : AuthorizationSnapshot

pub record RunSnapshot : Type 0 where
  pub run_id : ℕ
  pub created_at_unix_seconds : ℤ
  pub profile : SyncProfile
  pub validated_options : SyncOptions
  pub authorizations : AuthorizationSnapshot

pub data SchedulerEventKind : Type 0 where
  scheduled_run_claimed completed failed cancelled interrupted pending_review : SchedulerEventKind
  review_cleared missed skipped_overlap blocked_preflight retry retry_exhausted : SchedulerEventKind

pub record SchedulerEvent : Type 0 where
  pub profile_id : ℕ
  pub run_id : ℕ
  pub kind : SchedulerEventKind
  pub created_at_unix_seconds : ℤ
  pub missed_notice_id : Option ℕ
  pub retry_count : Option ℕ

pub record MissedScheduleNotice : Type 0 where
  pub notice_id : ℕ
  pub profile_id : ℕ
  pub run_id : ℕ
  pub first_scheduled_at_unix_seconds : ℤ
  pub latest_scheduled_at_unix_seconds : ℤ
  pub reason : Text
  pub decision : MissedScheduleDecision
  pub missed_count : ℕ

-- The events, snapshots and notices in the order of their insertion. `next_profile_id` is the number
-- that AUTOINCREMENT gives to the next profile, and so is `next_notice_id`.
pub record Store : Type 0 where
  pub next_profile_id : ℕ
  pub next_notice_id : ℕ
  pub profiles : List (ℕ × ProfileRow)
  pub schedules : List (ℕ × ScheduleDefinition)
  pub next_run_id : ℕ
  pub snapshots : List RunSnapshot
  pub events : List SchedulerEvent
  pub notices : List MissedScheduleNotice

-- The tables of a new database.
abbrev pub new_store : Store
new_store = record {
  profiles = [];
  next_profile_id = 1;
  schedules = [];
  next_run_id = 1;
  snapshots = [];
  events = [];
  notices = [];
  next_notice_id = 1;
}

-- An operation: its result, and the tables after it.
abbrev pub Operation : Type 0 → Type 0
Operation A = Store → Store × Result StorageError A

abbrev pub authorization_error : SyncProfile → AuthorizationSnapshot → Option StorageError
authorization_error profile authorizations =
    let o = profile.options in
    if authorizations.allow_unattended_destructive && not o.safe_delete && not o.destination_cleanup
    then some (
        invalid_authorization (
          codes "unattended destructive authorization requires Safe Delete or Destination Cleanup"))
    else if authorizations.allow_unattended_permanent_removal
        && (not o.safe_delete || o.deletion_method /= some permanent_removal)
    then some (
        invalid_authorization (
          codes
            "unattended Permanent Removal requires Safe Delete with Permanent Removal selected"))
    else none

abbrev pub validate_authorizations :
    SyncProfile → AuthorizationSnapshot → Result StorageError (Unit {0})
validate_authorizations profile authorizations =
    require (authorization_error profile authorizations)

-- What an unattended run may do is tied to these parts of the profile.
unfoldable pub unattended_authorization_scope_changed : SyncProfile → SyncProfile → Bool
unattended_authorization_scope_changed before after =
    not (same_peer before.peer_a after.peer_a)
    || not (same_peer before.peer_b after.peer_b)
    || before.mode /= after.mode
    || before.source /= after.source
    || before.options /= after.options
    || before.exclusions /= after.exclusions

-- `SyncProfileId::value_as_i64`.
abbrev pub value_as_i64 : ℕ → Result StorageError ℕ
value_as_i64 id =
    if ltb id (2 ^ 63)
    then ok id
    else err (corrupt_evidence (codes "profile identifier is out of range"))

-- `load_schedule`: the row of a schedule is checked again.
abbrev pub load_schedule :
    Option ScheduleDefinition → Result StorageError (Option ScheduleDefinition)
load_schedule none = ok none
load_schedule (some row) =
    map_error invalid_schedule (
      new_with_next_run_at row.interval_minutes row.timezone row.enabled
        row.next_run_at_unix_seconds)
    >>= λ schedule. ok (some schedule)

abbrev pub is_enabled : Option ScheduleDefinition → Bool
is_enabled schedule = is_some_and schedule (λ s. s.enabled)

abbrev pub mismatch_error : Option ScheduleDefinition → ProfileRow → Option StorageError
mismatch_error schedule row =
    if is_enabled schedule /= row.schedule_enabled
    then some
        (corrupt_evidence (codes "profile schedule enabled state differs from its definition"))
    else none

abbrev pub found_or_error :
    ℕ → Option PersistedSyncProfile → Result StorageError PersistedSyncProfile
found_or_error id none = err (profile_not_found id)
found_or_error id (some profile) = ok profile

module _ (is_dir : Text → Bool) where
  unfoldable pub materialize_profile :
      ℕ → ProfileRow → Option ScheduleDefinition → Result StorageError PersistedSyncProfile
  unfolding into_profile
  materialize_profile id row schedule_row = do
    schedule ← load_schedule schedule_row
    require (mismatch_error schedule row)
    profile ← into_profile is_dir is_utf8 row.columns row.exclusions
    validate_authorizations profile row.authorizations
    ok record {
      id = id;
      profile = profile;
      schedule_enabled = row.schedule_enabled;
      schedule = schedule;
      revision = row.profile_revision;
      authorizations = row.authorizations;
    }

  abbrev pub materialize_found :
      Store → ℕ → Option ProfileRow → Result StorageError (Option PersistedSyncProfile)
  materialize_found store id none = ok none
  materialize_found store id (some row) =
      materialize_profile id row (map_get id store.schedules) >>= λ profile. ok (some profile)

  unfoldable pub load_profile : Store → ℕ → Result StorageError (Option PersistedSyncProfile)
  unfolding materialize_profile map_get
  load_profile store id = do
    key ← value_as_i64 id
    materialize_found store key (map_get key store.profiles)

  -- `load_profile` where a missing profile is an error.
  abbrev pub existing_profile : Store → ℕ → Result StorageError PersistedSyncProfile
  existing_profile store id = load_profile store id >>= found_or_error id

  abbrev materialize_all :
      Store → List (ℕ × ProfileRow) → Result StorageError (List PersistedSyncProfile)
  materialize_all store [] = ok []
  materialize_all store ((id, row) ∷ rows) = do
    profile ← materialize_profile id row (map_get id store.schedules)
    rest ← materialize_all store rows
    ok (profile ∷ rest)

  -- In the order of the identifiers.
  unfoldable pub list_profiles : Store → Result StorageError (List PersistedSyncProfile)
  unfolding materialize_profile map_get
  list_profiles store = materialize_all store store.profiles
