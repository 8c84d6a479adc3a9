-- ===== src/Storage/Consistent/Kept.antt =====
-- Every operation of storage.rs on profiles and schedules keeps the tables consistent.
use sync_plus.Base.{
  ℕ, suc, ◌≤◌, ◌<◌, Bool, true, false, Option, none, some, List, Text, nat_eq, bool_eq, ◌==◌,
  if◌then◌else◌, Bool-cases, Result, ok, err, panicked, require, ◌≡◌, refl, arith, bind_ok,
  require_ok, ok-injective, ◌⊎◌, inl, inr, ap, subst,
}
use mathlib.Core.Option.{some-injective}
use sync_plus.Base.Order.{nat_ord}
use sync_plus.Base.Tree.{map_get, map_get-map_insert, map_get-map_remove}
use sync_plus.Path.{FilePath}
use sync_plus.Profile.{SyncProfile, AuthorizationSnapshot}
use sync_plus.Schedule.{ScheduleDefinition}
use sync_plus.Storage.{
  Store, ProfileRow, PersistedSyncProfile, authorization_error, validate_authorizations,
  value_as_i64,
}
use sync_plus.Storage.Checks.{StorageError, validate_profile}
use sync_plus.Storage.Consistent.{IsValidRow, IsEntry, IsConsistent, IsStorable, row_of-IsValidRow}
use sync_plus.Storage.Profiles.{
  commit, exclusions_error, inserted, name_error, reject_duplicate_endpoint_pair,
  create_profile_with_authorizations, create_in_transaction, removed, remove_in_transaction,
  remove_profile, updated_row, update_found, update_profile_row,
}

-- The tables after a transaction that is kept only if it succeeds.
commit_kept :
    {A : Type 0} (P : Store → Type 0) (store : Store) (r : Result StorageError (Store × A))
    → P store
    → ((after : Store) (a : A) → r ≡ ok (after, a) → P after)
    → P (commit store r).0
commit_kept P store (ok (after, a)) kept h = h after a refl
commit_kept P store (err e) kept h = kept
commit_kept P store panicked kept h = kept

-- The update of a row finds it, at the expected revision.
update_found_ok :
    (store : Store) (id : ℕ) (profile : SyncProfile) (authorizations : AuthorizationSnapshot)
    (expected_revision : ℕ) (found : Option ProfileRow) {after : Store}
    → update_found store id profile authorizations expected_revision found ≡ ok after
    → (row : ProfileRow) × (found ≡ some row)
      × (updated_row store id row profile authorizations ≡ after)
update_found_ok store id profile authorizations expected none h = ground arith
update_found_ok store id profile authorizations expected (some row) h = (row, refl, ground arith)

update_profile_row_ok :
    (store : Store) (id : ℕ) (profile : SyncProfile) (authorizations : AuthorizationSnapshot)
    (expected_revision : ℕ) {after : Store}
    → update_profile_row store id profile authorizations expected_revision ≡ ok after
    → (row : ProfileRow) × (map_get id store.profiles ≡ some row)
      × (updated_row store id row profile authorizations ≡ after)
update_profile_row_ok store id profile authorizations expected h =
    update_found_ok store id profile authorizations expected (map_get id store.profiles) h

module _ (is_dir : Text → Bool) where
  -- One profile's rows are replaced.
  pub replaced-IsConsistent :
      (store after : Store) (id : ℕ) (row : Option ProfileRow)
      (schedule : Option ScheduleDefinition)
      → IsConsistent is_dir store
      → ((j : ℕ) → map_get j after.profiles ≡ (if id == j then row else map_get j store.profiles))
      → ((j : ℕ)
          → map_get j after.schedules ≡ (if id == j then schedule else map_get j store.schedules))
      → IsEntry is_dir row schedule
      → store.next_profile_id ≤ after.next_profile_id
      → ((row ≡ none) ⊎ (id < after.next_profile_id))
      → IsConsistent is_dir after
  replaced-IsConsistent store after id row schedule c profiles schedules entry le small = record {
    entries = λ j. elim (Bool-cases (id == j)) [
      | inl e ↦ rw (profiles j, schedules j, e) entry
      | inr e ↦ rw (profiles j, schedules j, e) (c.entries j)
    ];
    bounded = λ j h. elim (Bool-cases (id == j)) [
      | inl e ↦ rw (profiles j, e) (gone j e h)
      | inr e ↦ rw (profiles j, e) (c.bounded j (omega (arith, le, h)))
    ];
  }
    where
      gone : (j : ℕ) → (id == j) ≡ true → after.next_profile_id ≤ j → row ≡ none
      gone j e h = elim small [
        | inl none_row ↦ none_row
        | inr lt ↦ absurd (ground (arith, e, lt, h))
      ]

  -- A profile that is there has a number below the next.
  pub below :
      (store : Store) (id : ℕ) {row : ProfileRow}
      → IsConsistent is_dir store
      → map_get id store.profiles ≡ some row
      → id < store.next_profile_id
  below store id c e = ground (arith, c.bounded id, e)

  no_schedule :
      (row : Option ProfileRow) (schedule : Option ScheduleDefinition)
      → row ≡ none
      → IsEntry is_dir row schedule
      → schedule ≡ none
  no_schedule none none e entry = refl
  no_schedule none (some s) e entry = elim entry [ ]
  no_schedule (some r) schedule e entry = ground (arith, e)

  -- The rows of one profile, where only the other table changes.
  pub same_at :
      {V : Type 0} (id : ℕ) (value : Option V) (m : List (ℕ × V))
      → map_get id m ≡ value
      → (j : ℕ) → map_get j m ≡ (if id == j then value else map_get j m)
  same_at id value m e j = elim (Bool-cases (id == j)) [
    | inl same ↦
        rw same
          (let at_j : id ≡ j = ground (arith, same) in subst (λ k. map_get k m ≡ value) at_j e)
    | inr other ↦ rw other refl
  ]

  inserted-IsConsistent :
      (store : Store) (profile : SyncProfile) (authorizations : AuthorizationSnapshot)
      → IsConsistent is_dir store
      → IsStorable profile
      → validate_profile is_dir profile ≡ ok tt
      → authorization_error profile authorizations ≡ none
      → IsConsistent is_dir (inserted store profile authorizations)
  inserted-IsConsistent store profile authorizations c storable valid allowed =
      let id = store.next_profile_id in
      let row =
        row_of-IsValidRow is_dir profile authorizations false 0 none storable valid allowed refl
          (λ s e. cc) in
      let unused = c.bounded id (omega arith) in
      replaced-IsConsistent store (inserted store profile authorizations) id _ none c
        (λ j. map_get-map_insert id j _ store.profiles)
        (same_at id none store.schedules (
          no_schedule (map_get id store.profiles) (map_get id store.schedules) unused
            (c.entries id)))
        row (omega arith) (inr (omega arith))

  module _ (current_dir : Option FilePath) where
    pub create_profile-IsConsistent :
        (store : Store) (profile : SyncProfile) (authorizations : AuthorizationSnapshot)
        → IsConsistent is_dir store
        → IsStorable profile
        → IsConsistent is_dir
            (create_profile_with_authorizations is_dir current_dir profile authorizations store).0
    unfolding create_profile_with_authorizations
    create_profile-IsConsistent store profile authorizations c storable =
        commit_kept (IsConsistent is_dir) store
          (create_in_transaction is_dir current_dir profile authorizations store) c
          λ after a h.
            let (_, e1, h1) = bind_ok (validate_profile is_dir profile) _ h in
            let (_, e2, h2) = bind_ok (validate_authorizations profile authorizations) _ h1 in
            let (_, _, h3) =
              bind_ok (reject_duplicate_endpoint_pair is_dir current_dir store profile none) _ h2 in
            let (_, _, h4) = bind_ok (require (name_error store none profile.name)) _ h3 in
            let (_, _, h5) = bind_ok (require (exclusions_error profile)) _ h4 in
            subst (IsConsistent is_dir)
              (ap (λ (p : Store × PersistedSyncProfile). p.0) (ok-injective h5))
              (inserted-IsConsistent store profile authorizations c storable e1 (require_ok _ e2))

  removed-IsConsistent :
      (store : Store) (id : ℕ) → IsConsistent is_dir store → IsConsistent is_dir (removed store id)
  removed-IsConsistent store id c =
      replaced-IsConsistent store (removed store id) id none none c
        (λ j. map_get-map_remove id j store.profiles) (λ j. map_get-map_remove id j store.schedules)
        tt (omega arith) (inl refl)

  pub remove_profile-IsConsistent :
      (store : Store) (id : ℕ)
      → IsConsistent is_dir store
      → IsConsistent is_dir (remove_profile id store).0
  unfolding remove_profile
  remove_profile-IsConsistent store id c =
      commit_kept (IsConsistent is_dir) store (remove_in_transaction id store) c λ after a h.
        let (key, _, h1) = bind_ok (value_as_i64 id) _ h in
        subst (IsConsistent is_dir) (ap (λ (p : Store × Bool). p.0) (ok-injective h1))
          (removed-IsConsistent store key c)

  pub entry_of :
      (row : ProfileRow) (found : Option ProfileRow) (schedule : Option ScheduleDefinition)
      → found ≡ some row
      → IsEntry is_dir found schedule
      → IsValidRow is_dir row schedule
  entry_of row none schedule e entry = ground (arith, e)
  entry_of row (some r) schedule e entry =
      subst (λ r. IsValidRow is_dir r schedule) (some-injective r row e) entry

  updated_row-IsConsistent :
      (store : Store) (id : ℕ) (row : ProfileRow) (profile : SyncProfile)
      (authorizations : AuthorizationSnapshot)
      → IsConsistent is_dir store
      → map_get id store.profiles ≡ some row
      → IsStorable profile
      → validate_profile is_dir profile ≡ ok tt
      → authorization_error profile authorizations ≡ none
      → IsConsistent is_dir (updated_row store id row profile authorizations)
  updated_row-IsConsistent store id row profile authorizations c found storable valid allowed =
      let schedule = map_get id store.schedules in
      let entry = entry_of row (map_get id store.profiles) schedule found (c.entries id) in
      replaced-IsConsistent store (updated_row store id row profile authorizations) id _ schedule c
        (λ j. map_get-map_insert id j _ store.profiles) (same_at id schedule store.schedules refl)
        (row_of-IsValidRow is_dir profile authorizations row.schedule_enabled
          (suc row.profile_revision) schedule storable valid allowed entry.enabled
          entry.schedule_valid)
        (omega arith) (inr (below store id c found))

  pub update_profile_row-IsConsistent :
      (store after : Store) (id : ℕ) (profile : SyncProfile)
      (authorizations : AuthorizationSnapshot) (expected_revision : ℕ)
      → IsConsistent is_dir store
      → IsStorable profile
      → validate_profile is_dir profile ≡ ok tt
      → authorization_error profile authorizations ≡ none
      → update_profile_row store id profile authorizations expected_revision ≡ ok after
      → IsConsistent is_dir after
  update_profile_row-IsConsistent store after id profile authorizations expected c storable valid
        allowed h =
      let (row, found, made) = update_profile_row_ok store id profile authorizations expected h in
      subst (IsConsistent is_dir) made (
        updated_row-IsConsistent store id row profile authorizations c found storable valid allowed)
