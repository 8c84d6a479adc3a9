-- ===== src/Storage/Checks.antt =====
-- The errors of storage.rs, and the checks of a profile that is written or read.
use sync_plus.Base.{
  ℕ, Bool, ◌||◌, Text, if◌then◌else◌, ltb, length, Result, ok, err, panicked, ◌>>◌,
}
use sync_plus.Base.Strings.{is_blank, contains_nul}
use sync_plus.Profile.{SyncProfile}
use sync_plus.Process.{ProcessSpecError}
use sync_plus.Process.Specification.{from_profile}
use sync_plus.Schedule.{InvalidSchedule}

pub data MissedScheduleDecision : Type 0 where
  pending run_now not_now : MissedScheduleDecision

-- The first two are SQLite's: an empty result of `query_row`, and a name that is not unique.
pub data StorageError : Type 0 where
  query_returned_no_rows constraint_violation : StorageError
  invalid_profile : ProcessSpecError → StorageError
  invalid_profile_name invalid_peer_name duplicate_endpoint_pair : StorageError
  invalid_authorization : Text → StorageError
  invalid_schedule : InvalidSchedule → StorageError
  schedule_requires_advanced concurrent_profile_update : StorageError
  profile_not_found missed_schedule_not_found : ℕ → StorageError
  missed_schedule_already_decided : ℕ → MissedScheduleDecision → StorageError
  invalid_snapshot invalid_event corrupt_evidence : Text → StorageError

abbrev pub map_error {ℓ κ μ} :
    {E : Type ℓ} {F : Type κ} {A : Type μ} → (E → F) → Result E A → Result F A
map_error f (ok a) = ok a
map_error f (err e) = err (f e)
map_error f panicked = panicked

-- A name: not blank, at most 255 bytes, and without NUL.
abbrev pub is_bad_name : Text → Bool
is_bad_name name = is_blank name || ltb 255 (length name) || contains_nul name

module _ (is_dir : Text → Bool) where
  unfoldable pub validate_profile : SyncProfile → Result StorageError (Unit {0})
  validate_profile profile =
      if is_bad_name profile.name
      then err invalid_profile_name
      else if is_bad_name profile.peer_a.name || is_bad_name profile.peer_b.name
      then err invalid_peer_name
      else map_error invalid_profile (from_profile is_dir profile) >> ok tt
