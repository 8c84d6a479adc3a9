-- ===== src/Storage/Profiles.antt =====
-- The operations on profiles of storage.rs: creation, update under a revision, and removal.
use sync_plus.Base.{
  ℕ, suc, ◌+◌, ◌^◌, Bool, false, ◌&&◌, Option, none, some, if◌then◌else◌, ◌==◌, ◌/=◌, any, ltb,
  ◌||◌, contains, List, [], ◌∷◌, Result, ok, err, panicked, ◌>>=◌, ◌>>◌, require, option_eq, nat_eq,
  text_eq, Text, is_some,
}
use sync_plus.Base.Order.{nat_ord}
use sync_plus.Base.Tree.{map_get, map_insert, map_remove}
use sync_plus.Base.Strings.{codes}
use sync_plus.Path.{FilePath}
use sync_plus.Profile.{SyncProfile, AuthorizationSnapshot, no_authorizations}
use sync_plus.ScopeLock.{same_endpoint}
use sync_plus.Storage.{
  ProfileRow, PersistedSyncProfile, Store, Operation, validate_authorizations,
  unattended_authorization_scope_changed, value_as_i64, load_profile, existing_profile,
  list_profiles,
}
use sync_plus.Storage.Encoding.{row_of}
use sync_plus.Storage.Checks.{
  StorageError, constraint_violation, duplicate_endpoint_pair, concurrent_profile_update,
  corrupt_evidence, validate_profile,
}

-- The end of a transaction: its tables are kept if it succeeds.
abbrev pub commit :
    {A : Type 0} → Store → Result StorageError (Store × A) → Store × Result StorageError A
commit store (ok (after, a)) = (after, ok a)
commit store (err e) = (store, err e)
commit store panicked = (store, panicked)

-- The unique name of `sync_profiles`.
abbrev name_taken : Store → Option ℕ → Text → Bool
name_taken store except name =
    any (λ (entry : ℕ × ProfileRow). some entry.0 /= except && entry.1.columns.name == name)
      store.profiles

-- The unique patterns of one profile in `sync_profile_exclusions`: the first pattern that stands
-- there already is refused.
abbrev pub has_repeated : List Text → Bool
has_repeated [] = false
has_repeated (pattern ∷ patterns) = contains patterns pattern || has_repeated patterns

-- `insert_exclusions`, where the profile has no exclusions yet.
abbrev pub exclusions_error : SyncProfile → Option StorageError
exclusions_error profile =
    if has_repeated profile.exclusions then some constraint_violation else none

abbrev pub revision_error : ℕ → ℕ → Option StorageError
revision_error revision expected_revision =
    if revision /= expected_revision then some concurrent_profile_update else none

abbrev pub name_error : Store → Option ℕ → Text → Option StorageError
name_error store except name =
    if name_taken store except name then some constraint_violation else none

abbrev pub revision_after : ℕ → Result StorageError ℕ
revision_after revision =
    if ltb (revision + 1) (2 ^ 64)
    then ok (revision + 1)
    else err (corrupt_evidence (codes "profile revision is exhausted"))

abbrev pub inserted : Store → SyncProfile → AuthorizationSnapshot → Store
inserted store profile authorizations = record store {
  next_profile_id = suc store.next_profile_id;
  profiles =
      map_insert store.next_profile_id
        (record {
          columns = row_of profile;
          exclusions = profile.exclusions;
          schedule_enabled = false;
          authorizations = authorizations;
          profile_revision = 0;
        })
        store.profiles;
}

abbrev pub updated_row : Store → ℕ → ProfileRow → SyncProfile → AuthorizationSnapshot → Store
updated_row store id row profile authorizations = record store {
  profiles =
      map_insert id
        (record row {
          columns = row_of profile;
          exclusions = profile.exclusions;
          authorizations = authorizations;
          profile_revision = suc row.profile_revision;
        })
        store.profiles;
}

abbrev pub update_found :
    Store
    → ℕ
    → SyncProfile
    → AuthorizationSnapshot
    → ℕ
    → Option ProfileRow
    → Result StorageError Store
update_found store id profile authorizations expected_revision none = err concurrent_profile_update
update_found store id profile authorizations expected_revision (some row) =
    if row.profile_revision /= expected_revision
    then err concurrent_profile_update
    else if name_taken store (some id) profile.name
    then err constraint_violation
    else ok (updated_row store id row profile authorizations)

-- `update_profile_row`: `WHERE profile_id = … AND profile_revision = …`.
abbrev pub update_profile_row :
    Store → ℕ → SyncProfile → AuthorizationSnapshot → ℕ → Result StorageError Store
update_profile_row store id profile authorizations expected_revision =
    update_found store id profile authorizations expected_revision (map_get id store.profiles)

-- A change of the scope withdraws the unattended authorizations.
abbrev pub kept_authorizations :
    SyncProfile → SyncProfile → AuthorizationSnapshot → AuthorizationSnapshot
kept_authorizations before profile authorizations =
    if unattended_authorization_scope_changed before profile
    then no_authorizations
    else authorizations

abbrev updated :
    ℕ → SyncProfile → AuthorizationSnapshot → PersistedSyncProfile → ℕ → PersistedSyncProfile
updated id profile authorizations existing revision = record {
  id = id;
  profile = profile;
  schedule_enabled = existing.schedule_enabled;
  schedule = existing.schedule;
  revision = revision;
  authorizations = authorizations;
}

-- After the commit, the revision that is returned may be out of range.
abbrev pub update_finished :
    ℕ
    → SyncProfile
    → Store
    → Result StorageError (Store × PersistedSyncProfile × AuthorizationSnapshot)
    → Store × Result StorageError PersistedSyncProfile
update_finished id profile store (err e) = (store, err e)
update_finished id profile store panicked = (store, panicked)
update_finished id profile store (ok (after, existing, kept)) = (
  after,
  revision_after existing.revision >>= λ revision. ok (updated id profile kept existing revision),
)

module _ (is_dir : Text → Bool) (current_dir : Option FilePath) where
  abbrev pub reject_duplicate_endpoint_pair :
      Store → SyncProfile → Option ℕ → Result StorageError (Unit {0})
  reject_duplicate_endpoint_pair store profile excluded_id = do
    profiles ← list_profiles is_dir store
    require (
        if any
          (λ (persisted : PersistedSyncProfile).
            some persisted.id /= excluded_id
            && same_endpoint current_dir persisted.profile.peer_a profile.peer_a
            && same_endpoint current_dir persisted.profile.peer_b profile.peer_b)
          profiles
        then some duplicate_endpoint_pair
        else none)

  -- The checks and the transaction of `create_profile_with_authorizations`.
  abbrev pub create_in_transaction :
      SyncProfile
      → AuthorizationSnapshot
      → Store
      → Result StorageError (Store × PersistedSyncProfile)
  create_in_transaction profile authorizations store = do
    validate_profile is_dir profile
    validate_authorizations profile authorizations
    reject_duplicate_endpoint_pair store profile none
    require (name_error store none profile.name)
    require (exclusions_error profile)
    ok (
      inserted store profile authorizations,
      record {
        id = store.next_profile_id;
        profile = profile;
        schedule_enabled = false;
        schedule = none;
        revision = 0;
        authorizations = authorizations;
      },
    )

  unfoldable pub create_profile_with_authorizations :
      SyncProfile → AuthorizationSnapshot → Operation PersistedSyncProfile
  unfolding validate_profile list_profiles map_insert
  create_profile_with_authorizations profile authorizations store =
      commit store (create_in_transaction profile authorizations store)

  -- The checks and the transaction of `update_profile_with_authorizations_if_revision`.
  abbrev pub update_in_transaction :
      ℕ
      → SyncProfile
      → AuthorizationSnapshot
      → ℕ
      → Store
      → Result StorageError (Store × PersistedSyncProfile × AuthorizationSnapshot)
  update_in_transaction id profile authorizations expected_revision store = do
    validate_profile is_dir profile
    existing ← existing_profile is_dir store id
    require (revision_error existing.revision expected_revision)
    reject_duplicate_endpoint_pair store profile (some id)
    let kept = kept_authorizations existing.profile profile authorizations
    validate_authorizations profile kept
    after ← update_profile_row store id profile kept expected_revision
    require (exclusions_error profile)
    ok (after, existing, kept)

  unfoldable pub update_profile_with_authorizations_if_revision :
      ℕ → SyncProfile → AuthorizationSnapshot → ℕ → Operation PersistedSyncProfile
  unfolding validate_profile load_profile list_profiles map_insert map_get
  update_profile_with_authorizations_if_revision id profile authorizations expected_revision store =
      update_finished id profile store
        (update_in_transaction id profile authorizations expected_revision store)

  unfoldable pub update_profile_with_authorizations :
      ℕ → SyncProfile → AuthorizationSnapshot → Operation PersistedSyncProfile
  unfolding update_profile_with_authorizations_if_revision
  update_profile_with_authorizations id profile authorizations store =
      elim (validate_profile is_dir profile >> existing_profile is_dir store id) [
        | err e ↦ (store, err e)
        | panicked ↦ (store, panicked)
        | ok existing ↦
            update_profile_with_authorizations_if_revision id profile authorizations
              existing.revision store
      ]

  unfoldable pub update_profile : ℕ → SyncProfile → Operation PersistedSyncProfile
  unfolding update_profile_with_authorizations_if_revision
  update_profile id profile store = elim (existing_profile is_dir store id) [
    | err e ↦ (store, err e)
    | panicked ↦ (store, panicked)
    | ok existing ↦
        update_profile_with_authorizations_if_revision id profile existing.authorizations
          existing.revision store
  ]

-- Deleting a profile deletes its schedule.
abbrev pub removed : Store → ℕ → Store
removed store key = record store {
  profiles = map_remove key store.profiles;
  schedules = map_remove key store.schedules;
}

abbrev pub remove_in_transaction : ℕ → Store → Result StorageError (Store × Bool)
remove_in_transaction id store = do
  key ← value_as_i64 id
  ok (removed store key, is_some (map_get key store.profiles))

unfoldable pub remove_profile : ℕ → Operation Bool
unfolding map_remove map_get
remove_profile id store = commit store (remove_in_transaction id store)
