-- ===== src/Storage/Consistent/Reachable.antt =====
-- The tables of storage.rs after any operations on profiles and schedules, in any order.
use sync_plus.Base.{ℕ, ◌^◌, ◌<◌, Bool, Option, is_some, Text, ok, ◌≡◌, refl, nat_eq}
use sync_plus.Base.Int.{ℤ}
use sync_plus.Base.Order.{nat_ord}
use sync_plus.Base.Tree.{map_get}
use sync_plus.Path.{FilePath}
use sync_plus.Profile.{SyncProfile, AuthorizationSnapshot}
use sync_plus.Schedule.{ScheduleDefinition}
use sync_plus.Storage.{new_store, Store, PersistedSyncProfile, ApplicationMode, load_profile}
use sync_plus.Storage.Profiles.{
  create_profile_with_authorizations, update_profile_with_authorizations_if_revision,
  remove_profile,
}
use sync_plus.Storage.Schedules.{update_schedule_at}
use sync_plus.Storage.Claim.{Draft, claim}
use sync_plus.Storage.Claim.Once.{IsDrafted}
use sync_plus.Storage.Consistent.{IsConsistent, IsStorable, load_profile-IsConsistent}
use sync_plus.Storage.Consistent.Kept.{create_profile-IsConsistent, remove_profile-IsConsistent}
use sync_plus.Storage.Consistent.Operations.{update_profile-IsConsistent}
use sync_plus.Storage.Consistent.Rescheduled.{update_schedule-IsConsistent}
use sync_plus.Storage.Consistent.Claimed.{claim-IsConsistent}

module _ (is_dir : Text → Bool) (current_dir : Option FilePath) where
  -- The tables that some sequence of operations leads to, each with its arguments and whether it
  -- succeeds or fails. A claim may use a draft that was read from other tables.
  pub data IsReachable : Store → Type 0 where
    start : IsReachable new_store
    created :
        {store : Store}
        → IsReachable store
        → (profile : SyncProfile) (authorizations : AuthorizationSnapshot) → IsStorable profile
        → IsReachable
            (create_profile_with_authorizations is_dir current_dir profile authorizations store).0
    updated :
        {store : Store}
        → IsReachable store
        → (id : ℕ) (profile : SyncProfile) (authorizations : AuthorizationSnapshot) (expected : ℕ)
        → IsStorable profile
        → IsReachable
            (update_profile_with_authorizations_if_revision is_dir current_dir id profile
              authorizations expected store).0
    removed :
        {store : Store} → IsReachable store → (id : ℕ) → IsReachable (remove_profile id store).0
    rescheduled :
        {store : Store}
        → IsReachable store
        → (id : ℕ) (wanted : Option ScheduleDefinition) (mode : ApplicationMode) (now : ℤ)
        → IsReachable (update_schedule_at is_dir id wanted mode now store).0
    claimed :
        {store : Store}
        → IsReachable store
        → (d : Draft) (now created_at : ℤ) → IsDrafted is_dir d
        → IsReachable (claim is_dir d now created_at store).0

  new_store-IsConsistent : IsConsistent is_dir new_store
  unfolding map_get
  new_store-IsConsistent = record { entries = λ id. tt; bounded = λ id h. refl }

  IsReachable-IsConsistent : (store : Store) → IsReachable store → IsConsistent is_dir store
  IsReachable-IsConsistent _ start = new_store-IsConsistent
  IsReachable-IsConsistent _ (created {store} r profile authorizations storable) =
      create_profile-IsConsistent is_dir current_dir store profile authorizations
        (IsReachable-IsConsistent store r) storable
  IsReachable-IsConsistent _ (updated {store} r id profile authorizations expected storable) =
      update_profile-IsConsistent is_dir current_dir store id profile authorizations expected
        (IsReachable-IsConsistent store r) storable
  IsReachable-IsConsistent _ (removed {store} r id) =
      remove_profile-IsConsistent is_dir store id (IsReachable-IsConsistent store r)
  IsReachable-IsConsistent _ (rescheduled {store} r id wanted mode now) =
      update_schedule-IsConsistent is_dir store id wanted mode now
        (IsReachable-IsConsistent store r)
  IsReachable-IsConsistent _ (claimed {store} r d now created_at drafted) =
      claim-IsConsistent is_dir d now created_at store drafted (IsReachable-IsConsistent store r)

  -- In the tables that any creations, updates, removals, reschedulings and claims have led to from
  -- a new database on, failed ones included, reading a profile whose number fits `i64` succeeds:
  -- the columns are decoded, every check of the read passes, and a profile is found exactly if it
  -- has a row. The profiles given to creations and updates have peers that the program made and a
  -- retry delay of whole milliseconds, a claim's draft was read from some tables, and the
  -- filesystem says of the same paths that they are folders throughout.
  pub load_profile-IsReachable :
      (store : Store)
      → IsReachable store
      → (id : ℕ) → id < 2 ^ 63
      → (found : Option PersistedSyncProfile) × (load_profile is_dir store id ≡ ok found)
        × (is_some found ≡ is_some (map_get id store.profiles))
  load_profile-IsReachable store r id small =
      load_profile-IsConsistent is_dir store (IsReachable-IsConsistent store r) id small
