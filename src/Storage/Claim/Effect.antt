-- ===== src/Storage/Claim/Effect.antt =====
-- What the transaction of a claim does to the tables: nothing that matters, or one claim.
use sync_plus.Base.{
  ℕ, ◌+◌, ◌<◌, max, Bool, true, Option, none, some, List, [], ◌∷◌, ◌++◌, ◌/=◌, Text, nat_eq, Result,
  ok, err, panicked, require, ◌≡◌, refl, arith, bind_ok, Bool-cases, inl, inr, sym, ap, subst, ◌∙◌,
  ok-injective,
}
use sync_plus.Base.Int.{ℤ}
use sync_plus.Base.Order.{nat_ord}
use sync_plus.Base.Tree.{map_get}
use sync_plus.Storage.{Store, ProfileRow, RunSnapshot, SchedulerEvent}
use sync_plus.Storage.Checks.{StorageError}
use sync_plus.Storage.Claim.{
  ClaimedScheduledRun, Draft, claim, claim_in_transaction, is_still_due, advance_row,
  advance_schedule, claim_row, claim_due_row, allocate_run_id_in_transaction, highest_existing,
  begin_run_in_transaction, insert_scheduler_event_in_transaction, claim_event, claimed_run,
  snapshot_from_profile, in_i64, run_specification, snapshot_error, claim_of_current, claim_against,
  finished, claimed_of,
}

-- The table of profiles stays.
abbrev pub IsSameProfiles : Store → Store → Type 0
IsSameProfiles store after =
    (after.profiles ≡ store.profiles) × (after.next_profile_id ≡ store.next_profile_id)

IsSameProfiles-trans :
    (a b c : Store) → IsSameProfiles a b → IsSameProfiles b c → IsSameProfiles a c
IsSameProfiles-trans a b c (p, n) (q, m) = (q ∙ p, m ∙ n)

IsSameProfiles-of : (a : Store) {b c : Store} → b ≡ c → IsSameProfiles a b → IsSameProfiles a c
IsSameProfiles-of a e h = subst (IsSameProfiles a) e h

-- A claim: the occurrence was still the next, and is so no more; the run's number is new, and its
-- snapshot is stored.
pub record IsClaim (d : Draft) (store after : Store) (c : ClaimedScheduledRun) : Type 0 where
  pub same_profile : c.profile_id ≡ d.existing.id
  pub same_time : c.scheduled_at_unix_seconds ≡ d.scheduled_at
  pub was_due : is_still_due (map_get d.existing.id store.schedules) d.scheduled_at ≡ true
  pub moved : after.schedules ≡ (advance_row store d.existing.id d.next_run).schedules
  pub fresh : highest_existing store.snapshots < c.run_id
  pub stored : after.snapshots ≡ store.snapshots ++ (c.snapshot ∷ [])
  pub numbered : c.snapshot.run_id ≡ c.run_id
  pub profiles : IsSameProfiles store after

-- The tables stay, except for a used run number.
pub record IsQuiet (store after : Store) : Type 0 where
  pub schedules : after.schedules ≡ store.schedules
  pub snapshots : after.snapshots ≡ store.snapshots
  pub profiles : IsSameProfiles store after

unfoldable pub IsEffect : Draft → Store → Store → Option ClaimedScheduledRun → Type 0
IsEffect d store after none = IsQuiet store after
IsEffect d store after (some c) = IsClaim d store after c

in_i64_ok : (n : ℕ) {m : ℕ} → in_i64 n ≡ ok m → m ≡ n
in_i64_ok n h = ground arith

allocate_ok :
    (store : Store) {after : Store} {run_id : ℕ}
    → allocate_run_id_in_transaction store ≡ ok (after, run_id)
    → (after.schedules ≡ store.schedules)
      × (after.snapshots ≡ store.snapshots)
      × (highest_existing store.snapshots < run_id)
      × IsSameProfiles store after
unfolding allocate_run_id_in_transaction
allocate_ok store {after} {run_id} h =
    let (highest, e, h1) = bind_ok (in_i64 (highest_existing store.snapshots + 1)) _ h in
    let (following, _, h2) = bind_ok (in_i64 (max store.next_run_id highest + 1)) _ h1 in
    let same = in_i64_ok (highest_existing store.snapshots + 1) e in
    let made = ok-injective h2 in
    (
      ap (λ (p : Store × ℕ). p.0.schedules) (sym made),
      ap (λ (p : Store × ℕ). p.0.snapshots) (sym made),
      subst (λ n. highest_existing store.snapshots < n) (ap (λ (p : Store × ℕ). p.1) made)
          (omega (arith, same)),
      IsSameProfiles-of store (ap (λ (p : Store × ℕ). p.0) made) (refl, refl),
    )

begin_run_ok :
    (store : Store) (snapshot : RunSnapshot) {begun : Store}
    → begin_run_in_transaction store snapshot ≡ ok begun
    → (begun.schedules ≡ store.schedules)
      × (begun.snapshots ≡ store.snapshots ++ (snapshot ∷ []))
      × IsSameProfiles store begun
begin_run_ok store snapshot {begun} h = ground arith

insert_scheduler_event_ok :
    (store : Store) (event : SchedulerEvent) {after : Store}
    → insert_scheduler_event_in_transaction store event ≡ ok after
    → (after.schedules ≡ store.schedules)
      × (after.snapshots ≡ store.snapshots)
      × IsSameProfiles store after
insert_scheduler_event_ok store event {after} h = ground arith

-- The tables after the claimed occurrence's row, snapshot and event.
claim_due_row_ok :
    (id : ℕ) (d : Draft) (now : ℤ) (store after : Store) (snapshot : RunSnapshot)
    (claimed : Option ClaimedScheduledRun)
    → claim_due_row id d now store snapshot ≡ ok (after, claimed)
    → (claimed ≡ some (claimed_run id d snapshot))
      × (after.schedules ≡ (advance_row store id d.next_run).schedules)
      × (after.snapshots ≡ store.snapshots ++ (snapshot ∷ []))
      × IsSameProfiles store after
claim_due_row_ok id d now store after snapshot claimed h =
    let moved = advance_row store id d.next_run in
    let (begun, e, h1) = bind_ok (begin_run_in_transaction moved snapshot) _ h in
    let (ended, e1, h2) =
      bind_ok (insert_scheduler_event_in_transaction begun (claim_event id snapshot.run_id now)) _
        h1 in
    let made = ok-injective h2 in
    let (schedules, snapshots, profiles) = begin_run_ok moved snapshot e in
    let (schedules1, snapshots1, profiles1) =
      insert_scheduler_event_ok begun (claim_event id snapshot.run_id now) e1 in
    (
      ap (λ (p : Store × Option ClaimedScheduledRun). p.1) (sym made),
      ap (λ (p : Store × Option ClaimedScheduledRun). p.0.schedules) (sym made)
          ∙ schedules1
          ∙ schedules,
      ap (λ (p : Store × Option ClaimedScheduledRun). p.0.snapshots) (sym made)
          ∙ snapshots1
          ∙ snapshots,
      IsSameProfiles-of store (ap (λ (p : Store × Option ClaimedScheduledRun). p.0) made) (
          IsSameProfiles-trans store begun ended
            (IsSameProfiles-trans store moved begun (refl, refl) profiles) profiles1),
    )

claim_row-IsEffect :
    (d : Draft) (now : ℤ) (store allocated after : Store) (snapshot : RunSnapshot)
    (claimed : Option ClaimedScheduledRun)
    → allocated.schedules ≡ store.schedules
    → allocated.snapshots ≡ store.snapshots
    → highest_existing store.snapshots < snapshot.run_id
    → IsSameProfiles store allocated
    → claim_row d.existing.id d now allocated snapshot ≡ ok (after, claimed)
    → IsEffect d store after claimed
unfolding IsEffect
claim_row-IsEffect d now store allocated after snapshot claimed schedules snapshots fresh profiles
      h =
    elim (Bool-cases (is_still_due (map_get id allocated.schedules) d.scheduled_at)) [
      | inr e ↦
          let made = ok-injective {a = (allocated, none)} (rw e at h) in
          subst (IsEffect d store after) (ap (λ (p : Store × Option ClaimedScheduledRun). p.1) made)
            (record {
              schedules =
                  ap (λ (p : Store × Option ClaimedScheduledRun). p.0.schedules) (sym made)
                  ∙ schedules;
              snapshots =
                  ap (λ (p : Store × Option ClaimedScheduledRun). p.0.snapshots) (sym made)
                  ∙ snapshots;
              profiles =
                  IsSameProfiles-of store
                    (ap (λ (p : Store × Option ClaimedScheduledRun). p.0) made) profiles;
            })
      | inl e ↦
          let (same, moved, stored, profiles1) =
            claim_due_row_ok id d now allocated after snapshot claimed (rw e at h) in
          subst (IsEffect d store after) (sym same) (record {
            same_profile = refl;
            same_time = refl;
            was_due = subst (λ ss. is_still_due (map_get id ss) d.scheduled_at ≡ true) schedules e;
            moved = moved ∙ ap (λ ss. advance_schedule ss id (map_get id ss) d.next_run) schedules;
            fresh = fresh;
            stored = stored ∙ ap (λ (xs : List RunSnapshot). xs ++ (snapshot ∷ [])) snapshots;
            numbered = refl;
            profiles = IsSameProfiles-trans store allocated after profiles profiles1;
          })
    ]
  where
    id : ℕ
    id = d.existing.id

module _ (is_dir : Text → Bool) (d : Draft) (now created_at : ℤ) (store : Store) where
  numbered_snapshot :
      (run_id : ℕ) {snapshot : RunSnapshot}
      → snapshot_from_profile is_dir run_id d.existing.profile d.existing.authorizations created_at
        ≡ ok snapshot
      → snapshot.run_id ≡ run_id
  numbered_snapshot run_id h =
      let (specification, _, h1) = bind_ok (run_specification is_dir d.existing.profile) _ h in
      let (_, _, h2) =
        bind_ok (require (snapshot_error specification.options d.existing.authorizations)) _ h1 in
      ap (λ (s : RunSnapshot). s.run_id) (sym (ok-injective h2))

  claim_of_current-IsEffect :
      (after : Store) (claimed : Option ClaimedScheduledRun)
      → claim_of_current is_dir d now created_at store ≡ ok (after, claimed)
      → IsEffect d store after claimed
  claim_of_current-IsEffect after claimed h =
      let ((allocated, run_id), e, h1) = bind_ok (allocate_run_id_in_transaction store) _ h in
      let (snapshot, e1, h2) =
        bind_ok
          (snapshot_from_profile is_dir run_id d.existing.profile d.existing.authorizations
            created_at)
          _ h1 in
      let (schedules, snapshots, fresh, profiles) = allocate_ok store e in
      claim_row-IsEffect d now store allocated after snapshot claimed schedules snapshots
        (subst (λ n. highest_existing store.snapshots < n) (sym (numbered_snapshot run_id e1))
          fresh)
        profiles h2

  quiet :
      (after : Store) (claimed : Option ClaimedScheduledRun)
      → ◌≡◌ {A = Result StorageError (Store × Option ClaimedScheduledRun)}
          (ok (store, none))
          (ok (after, claimed))
      → IsEffect d store after claimed
  unfolding IsEffect
  quiet after claimed h =
      let made = ok-injective h in
      subst (IsEffect d store after) (ap (λ (p : Store × Option ClaimedScheduledRun). p.1) made)
        (record {
          schedules = ap (λ (p : Store × Option ClaimedScheduledRun). p.0.schedules) (sym made);
          snapshots = ap (λ (p : Store × Option ClaimedScheduledRun). p.0.snapshots) (sym made);
          profiles =
              IsSameProfiles-of store (ap (λ (p : Store × Option ClaimedScheduledRun). p.0) made)
                (refl, refl);
        })

  claim_against-IsEffect :
      (row : Option ProfileRow) (after : Store) (claimed : Option ClaimedScheduledRun)
      → claim_against is_dir d now created_at store row ≡ ok (after, claimed)
      → IsEffect d store after claimed
  claim_against-IsEffect none after claimed h = ground arith
  claim_against-IsEffect (some row) after claimed h =
      elim (Bool-cases (row.profile_revision /= d.existing.revision)) [
        | inl e ↦ quiet after claimed (rw e at h)
        | inr e ↦ claim_of_current-IsEffect after claimed (rw e at h)
      ]

  finished-IsEffect :
      (r : Result StorageError (Store × Option ClaimedScheduledRun))
      → claim_in_transaction is_dir d now created_at store ≡ r
      → IsEffect d store (finished store r).0 (claimed_of (finished store r).1)
  unfolding IsEffect
  finished-IsEffect (ok (after, claimed)) h =
      claim_against-IsEffect (map_get d.existing.id store.profiles) after claimed h
  finished-IsEffect (err e) h = record {
    schedules = refl;
    snapshots = refl;
    profiles = (refl, refl);
  }
  finished-IsEffect panicked h = record {
    schedules = refl;
    snapshots = refl;
    profiles = (refl, refl);
  }

  -- A transaction claims one occurrence, or leaves the schedules and the snapshots as they were.
  pub claim-IsEffect :
      IsEffect d store
        (claim is_dir d now created_at store).0
        (claimed_of (claim is_dir d now created_at store).1)
  unfolding claim
  claim-IsEffect = finished-IsEffect (claim_in_transaction is_dir d now created_at store) refl
