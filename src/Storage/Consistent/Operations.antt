-- ===== src/Storage/Consistent/Operations.antt =====
-- The operations of storage.rs one by one, and in any order.
use sync_plus.Base.{
  ℕ, Bool, Option, some, Text, nat_eq, bool_eq, Result, ok, err, panicked, require, ◌≡◌, refl,
  bind_ok, require_ok, ok-injective, ap, subst,
}
use sync_plus.Base.Order.{nat_ord}
use sync_plus.Path.{FilePath}
use sync_plus.Profile.{SyncProfile, AuthorizationSnapshot}
use sync_plus.Storage.{Store, PersistedSyncProfile, validate_authorizations, existing_profile}
use sync_plus.Storage.Checks.{StorageError, validate_profile}
use sync_plus.Storage.Consistent.{IsConsistent, IsStorable}
use sync_plus.Storage.Consistent.Kept.{update_profile_row-IsConsistent}
use sync_plus.Storage.Profiles.{
  reject_duplicate_endpoint_pair, update_profile_row, kept_authorizations, update_in_transaction,
  update_finished, update_profile_with_authorizations_if_revision, revision_error, exclusions_error,
}

module _ (is_dir : Text → Bool) where
  module _ (current_dir : Option FilePath) where
    update_in_transaction-IsConsistent :
        (store after : Store) (id : ℕ) (profile : SyncProfile)
        (authorizations : AuthorizationSnapshot) (expected : ℕ) (existing : PersistedSyncProfile)
        (kept : AuthorizationSnapshot)
        → IsConsistent is_dir store
        → IsStorable profile
        → update_in_transaction is_dir current_dir id profile authorizations expected store
          ≡ ok (after, existing, kept)
        → IsConsistent is_dir after
    update_in_transaction-IsConsistent store after id profile authorizations expected existing kept
          c storable h =
        let (_, e1, h1) = bind_ok (validate_profile is_dir profile) _ h in
        let (old, _, h2) = bind_ok (existing_profile is_dir store id) _ h1 in
        let (_, _, h3) = bind_ok (require (revision_error old.revision expected)) _ h2 in
        let (_, _, h4) =
          bind_ok (reject_duplicate_endpoint_pair is_dir current_dir store profile (some id)) _
            h3 in
        let allowed = kept_authorizations old.profile profile authorizations in
        let (_, e5, h5) = bind_ok (validate_authorizations profile allowed) _ h4 in
        let (made, e6, h6) = bind_ok (update_profile_row store id profile allowed expected) _ h5 in
        let (_, _, h7) = bind_ok (require (exclusions_error profile)) _ h6 in
        subst (IsConsistent is_dir)
          (ap (λ (p : Store × PersistedSyncProfile × AuthorizationSnapshot). p.0) (ok-injective h7))
          (update_profile_row-IsConsistent is_dir store made id profile allowed expected c storable
            e1 (require_ok _ e5) e6)

    finished-IsConsistent :
        (store : Store) (id : ℕ) (profile : SyncProfile) (authorizations : AuthorizationSnapshot)
        (expected : ℕ)
        (r : Result StorageError (Store × PersistedSyncProfile × AuthorizationSnapshot))
        → IsConsistent is_dir store
        → IsStorable profile
        → update_in_transaction is_dir current_dir id profile authorizations expected store ≡ r
        → IsConsistent is_dir (update_finished id profile store r).0
    finished-IsConsistent store id profile authorizations expected (ok (after, existing, kept)) c
          storable h =
        update_in_transaction-IsConsistent store after id profile authorizations expected existing
          kept c storable h
    finished-IsConsistent store id profile authorizations expected (err e) c storable h = c
    finished-IsConsistent store id profile authorizations expected panicked c storable h = c

    pub update_profile-IsConsistent :
        (store : Store) (id : ℕ) (profile : SyncProfile) (authorizations : AuthorizationSnapshot)
        (expected : ℕ)
        → IsConsistent is_dir store
        → IsStorable profile
        → IsConsistent is_dir
            (update_profile_with_authorizations_if_revision is_dir current_dir id profile
              authorizations expected store).0
    unfolding update_profile_with_authorizations_if_revision
    update_profile-IsConsistent store id profile authorizations expected c storable =
        finished-IsConsistent store id profile authorizations expected _ c storable refl
