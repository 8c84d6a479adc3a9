-- ===== src/Storage/Loaded.antt =====
-- What a profile that is read from the tables of storage.rs satisfies.
use sync_plus.Base.{
  ℕ, Bool, Option, none, some, ok, require, ◌≡◌, arith, ap, sym, subst, nat_eq, ◌∙◌, bind_ok,
  ok-injective, Option-cases, inl, inr, Text,
}
use mathlib.Core.Option.{some-injective}
use sync_plus.Base.Tree.{map_get}
use sync_plus.Base.Order.{nat_ord}
use sync_plus.Schedule.{ScheduleDefinition, schedule_error, new_with_next_run_at}
use sync_plus.Parser.Bytes.{is_utf8}
use sync_plus.Storage.Encoding.{into_profile}
use sync_plus.Storage.{
  ProfileRow, PersistedSyncProfile, Store, load_schedule, materialize_profile, materialize_found,
  mismatch_error, load_profile, found_or_error, existing_profile, validate_authorizations,
  value_as_i64,
}

-- A stored schedule that passes the checks is read as it is.
pub load_schedule_ok :
    (row : Option ScheduleDefinition) {read : Option ScheduleDefinition}
    → load_schedule row ≡ ok read
    → (read ≡ row) × ((s : ScheduleDefinition) → row ≡ some s → schedule_error s ≡ none)
unfolding new_with_next_run_at
load_schedule_ok none h = (sym (ok-injective h), λ s e. cc)
load_schedule_ok (some s) h = elim (Option-cases (schedule_error s)) [
  | inl e ↦ (ground (arith, e), λ t same. ground (arith, e))
  | inr (x, e) ↦ ground (arith, e)
]

module _ (is_dir : Text → Bool) where
  pub record IsLoaded (id : ℕ) (p : PersistedSyncProfile) : Type 0 where
    pub same_id : p.id ≡ id
    pub schedule_valid : (s : ScheduleDefinition) → p.schedule ≡ some s → schedule_error s ≡ none

  materialize_profile-IsLoaded :
      (id : ℕ) (row : ProfileRow) (schedule_row : Option ScheduleDefinition)
      {p : PersistedSyncProfile}
      → materialize_profile is_dir id row schedule_row ≡ ok p
      → IsLoaded id p
  unfolding materialize_profile
  materialize_profile-IsLoaded id row schedule_row {p} h =
      let (read, e1, h1) = bind_ok (load_schedule schedule_row) _ h in
      let (same, valid) = load_schedule_ok schedule_row e1 in
      let (_, _, h2) = bind_ok (require (mismatch_error read row)) _ h1 in
      let (profile, _, h3) =
        bind_ok (into_profile is_dir is_utf8 row.columns row.exclusions) _ h2 in
      let (_, _, h4) = bind_ok (validate_authorizations profile row.authorizations) _ h3 in
      let loaded = ok-injective h4 in
      record {
        same_id = sym (ap (λ (p : PersistedSyncProfile). p.id) loaded);
        schedule_valid =
            λ s e. valid s (sym same ∙ ap (λ (p : PersistedSyncProfile). p.schedule) loaded ∙ e);
      }

  materialize_found-IsLoaded :
      (store : Store) (id : ℕ) (row : Option ProfileRow) {p : PersistedSyncProfile}
      → materialize_found is_dir store id row ≡ ok (some p)
      → IsLoaded id p
  materialize_found-IsLoaded store id none h = ground arith
  materialize_found-IsLoaded store id (some row) {p} h =
      let (q, e, h1) =
        bind_ok (materialize_profile is_dir id row (map_get id store.schedules)) _ h in
      materialize_profile-IsLoaded id row (map_get id store.schedules)
        (rw (some-injective q p (ok-injective h1)) at e)

  value_as_i64_ok : (id : ℕ) {key : ℕ} → value_as_i64 id ≡ ok key → key ≡ id
  value_as_i64_ok id h = ground arith

  load_profile-IsLoaded :
      (store : Store) (id : ℕ) {p : PersistedSyncProfile}
      → load_profile is_dir store id ≡ ok (some p)
      → IsLoaded id p
  unfolding load_profile
  load_profile-IsLoaded store id {p} h =
      let (key, same, h1) = bind_ok (value_as_i64 id) _ h in
      subst (λ k. IsLoaded k p) (value_as_i64_ok id same)
        (materialize_found-IsLoaded store key (map_get key store.profiles) h1)

  found_or_error_ok :
      (id : ℕ) (found : Option PersistedSyncProfile) {p : PersistedSyncProfile}
      → found_or_error id found ≡ ok p
      → found ≡ some p
  found_or_error_ok id none h = cc
  found_or_error_ok id (some q) h = ap some (ok-injective h)

  pub existing_profile-IsLoaded :
      (store : Store) (id : ℕ) {p : PersistedSyncProfile}
      → existing_profile is_dir store id ≡ ok p
      → IsLoaded id p
  existing_profile-IsLoaded store id h =
      let (found, e, h1) = bind_ok (load_profile is_dir store id) (found_or_error id) h in
      load_profile-IsLoaded store id (e ∙ ap ok (found_or_error_ok id found h1))
