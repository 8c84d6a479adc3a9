-- ===== src/Storage/Consistent.antt =====
-- The tables of storage.rs stay consistent: each row passes the checks that reading it makes.
pub mod Kept
pub mod Rescheduled
pub mod Claimed
pub mod Operations
pub mod Reachable
use sync_plus.Base.{
  ℕ, suc, ◌^◌, ◌*◌, ◌≤◌, ◌<◌, Bool, true, false, not, Option, none, some, List, [], ◌∷◌, Text,
  nat_eq, bool_eq, ◌==◌, ◌/=◌, if◌then◌else◌, Result, ok, err, ◌>>=◌, is_some, ◌>>◌, require, ◌≡◌,
  refl, arith, bind_ok, ◌⊎◌, inl, inr, sym, ap, ◌∙◌,
}
use sync_plus.Base.Order.{nat_ord}
use sync_plus.Base.Tree.{map_get}
use sync_plus.Schedule.{ScheduleDefinition, schedule_error, new_with_next_run_at}
use sync_plus.Profile.{SyncProfile, AuthorizationSnapshot}
use sync_plus.Parser.Bytes.{is_utf8}
use sync_plus.Storage.Encoding.{into_profile, row_of}
use sync_plus.Storage.Encoding.Restored.{IsMade, into_profile-row_of}
use sync_plus.Storage.{
  Store, ProfileRow, PersistedSyncProfile, authorization_error, is_enabled, load_profile,
  load_schedule, value_as_i64, materialize_found, materialize_profile, mismatch_error,
}
use sync_plus.Storage.Checks.{StorageError, validate_profile, map_error}

-- What the program keeps of a profile whole: its peers are as the program makes them, and its retry
-- delay is a whole number of milliseconds.
pub record IsStorable (profile : SyncProfile) : Type 0 where
  pub made_a : IsMade is_utf8 profile.peer_a.endpoint
  pub made_b : IsMade is_utf8 profile.peer_b.endpoint
  pub millis : ℕ
  pub whole : profile.options.retry_policy.initial_delay ≡ millis * 1_000_000

value_as_i64-small : (id : ℕ) → id < 2 ^ 63 → value_as_i64 id ≡ ok id
value_as_i64-small id h = ground arith

module _ (is_dir : Text → Bool) where
  -- A profile's row, which is decoded to a profile that may have its authorizations, against the row
  -- of its schedule.
  pub record IsValidRow (row : ProfileRow) (schedule : Option ScheduleDefinition) : Type 0 where
    pub profile : SyncProfile
    pub decoded : into_profile is_dir is_utf8 row.columns row.exclusions ≡ ok profile
    pub authorizations : authorization_error profile row.authorizations ≡ none
    pub enabled : is_enabled schedule ≡ row.schedule_enabled
    pub schedule_valid : (s : ScheduleDefinition) → schedule ≡ some s → schedule_error s ≡ none

  -- A schedule belongs to a profile.
  abbrev pub IsEntry : Option ProfileRow → Option ScheduleDefinition → Type 0
  IsEntry none none = Unit
  IsEntry none (some s) = ⊥
  IsEntry (some row) schedule = IsValidRow row schedule

  -- The numbers of profiles are below the next one.
  pub record IsConsistent (store : Store) : Type 0 where
    pub entries : (id : ℕ) → IsEntry (map_get id store.profiles) (map_get id store.schedules)
    pub bounded : (id : ℕ) → store.next_profile_id ≤ id → map_get id store.profiles ≡ none

  -- A row that is written of an accepted profile.
  pub row_of-IsValidRow :
      (profile : SyncProfile) (authorizations : AuthorizationSnapshot) (enabled : Bool)
      (revision : ℕ) (schedule : Option ScheduleDefinition)
      → IsStorable profile
      → validate_profile is_dir profile ≡ ok tt
      → authorization_error profile authorizations ≡ none
      → is_enabled schedule ≡ enabled
      → ((s : ScheduleDefinition) → schedule ≡ some s → schedule_error s ≡ none)
      → IsValidRow
          (record {
            columns = row_of profile;
            exclusions = profile.exclusions;
            schedule_enabled = enabled;
            authorizations = authorizations;
            profile_revision = revision;
          })
          schedule
  row_of-IsValidRow profile authorizations enabled revision schedule storable valid allowed same
        schedule_valid =
      record {
        profile = profile;
        decoded =
            into_profile-row_of is_dir is_utf8 profile storable.millis valid storable.made_a
              storable.made_b storable.whole;
        authorizations = allowed;
        enabled = same;
        schedule_valid = schedule_valid;
      }

  load_schedule-valid :
      (schedule : Option ScheduleDefinition)
      → ((s : ScheduleDefinition) → schedule ≡ some s → schedule_error s ≡ none)
      → load_schedule schedule ≡ ok schedule
  unfolding new_with_next_run_at
  load_schedule-valid none valid = refl
  load_schedule-valid (some s) valid = ground (arith, valid s refl)

  no_mismatch :
      (row : ProfileRow) (schedule : Option ScheduleDefinition)
      → is_enabled schedule ≡ row.schedule_enabled
      → mismatch_error schedule row ≡ none
  no_mismatch row schedule e = ground (arith, e)

  -- A valid row is read.
  pub materialize_profile-IsValidRow :
      (id : ℕ) (row : ProfileRow) (schedule : Option ScheduleDefinition)
      → (v : IsValidRow row schedule)
      → materialize_profile is_dir id row schedule
        ≡ ok (record {
          id = id;
          profile = v.profile;
          schedule_enabled = row.schedule_enabled;
          schedule = schedule;
          revision = row.profile_revision;
          authorizations = row.authorizations;
        })
  unfolding materialize_profile
  materialize_profile-IsValidRow id row schedule v =
      rw
        (
          load_schedule-valid schedule v.schedule_valid,
          no_mismatch row schedule v.enabled,
          v.decoded,
          v.authorizations,
        )
        refl

  -- Reading any profile of consistent tables succeeds, whether it is there or not: nothing is found
  -- corrupt.
  pub load_profile-IsConsistent :
      (store : Store)
      → IsConsistent store
      → (id : ℕ) → id < 2 ^ 63
      → (found : Option PersistedSyncProfile) × (load_profile is_dir store id ≡ ok found)
        × (is_some found ≡ is_some (map_get id store.profiles))
  unfolding load_profile
  load_profile-IsConsistent store consistent id small =
      let (found, e, there) = read (map_get id store.profiles) (consistent.entries id) in
      (found, rw (value_as_i64-small id small) e, there)
    where
      read :
          (row : Option ProfileRow)
          → IsEntry row (map_get id store.schedules)
          → (found : Option PersistedSyncProfile) × (materialize_found is_dir store id row
              ≡ ok found)
            × (is_some found ≡ is_some row)
      read none entry = (none, refl, refl)
      read (some row) entry = (
        _,
        ap (λ r. r >>= λ profile. ok (some profile))
            (materialize_profile-IsValidRow id row (map_get id store.schedules) entry),
        refl,
      )
