-- ===== src/Storage/Claim/Once.antt =====
-- No occurrence is claimed twice, in any interleaving of pollers: every transaction may use a draft
-- that was read from any earlier state of the tables, at any time.
use sync_plus.Base.{
  ℕ, Bool, true, false, Option, none, some, List, [], ◌∷◌, if◌then◌else◌, ◌==◌, Text, nat_eq,
  Result, ok, err, panicked, require, ◌≡◌, refl, arith, bind_ok, Bool-cases, inl, inr, sym, ap,
  subst, ◌∙◌, ok-injective, All,
}
use mathlib.Core.Option.{some-injective}
use sync_plus.Base.Int.{ℤ}
use sync_plus.Base.Int64.{int_lt, is_negative}
use sync_plus.Base.Order.{nat_ord}
use sync_plus.Base.Tree.{map_get, map_get-map_insert}
use sync_plus.Schedule.{
  with_next_run_at, ScheduleDefinition, schedule_error, due_at, next_occurrence,
}
use sync_plus.Schedule.Due.{next_occurrence-after}
use sync_plus.Storage.{Store, PersistedSyncProfile, existing_profile}
use sync_plus.Storage.Checks.{invalid_schedule, map_error}
use sync_plus.Storage.Loaded.{existing_profile-IsLoaded}
use sync_plus.Storage.Claim.{
  ClaimedScheduledRun, Draft, draft, draft_of, draft_at, time_error, claim, claimed_of,
  is_still_due, advance_schedule,
}
use sync_plus.Storage.Claim.Effect.{IsEffect, claim-IsEffect}

map_error_ok :
    {E F A : Type 0} (f : E → F) {r : Result E A} {a : A} → map_error f r ≡ ok a → r ≡ ok a
map_error_ok f {r = ok b} h = ap ok (ok-injective h)
map_error_ok f {r = err e} h = cc
map_error_ok f {r = panicked} h = cc

module _ (is_dir : Text → Bool) where
  -- A draft that some poller read from some state of the tables, at some time.
  pub record IsDrafted (d : Draft) : Type 0 where
    pub store : Store
    pub id : ℕ
    pub now : ℤ
    pub read : draft is_dir store id now ≡ ok (some d)

  draft_at-after :
      (p : PersistedSyncProfile) (s : ScheduleDefinition) (now : ℤ) (due : Option ℤ) {d : Draft}
      → schedule_error s ≡ none
      → due_at s now ≡ due
      → draft_at p s now due ≡ ok (some d)
      → (int_lt d.scheduled_at d.next_run ≡ true) × (is_negative d.next_run ≡ false)
  draft_at-after p s now none valid e h = ground (arith, h)
  draft_at-after p s now (some t) {d} valid e h =
      let (next, computed, h1) =
        bind_ok (map_error invalid_schedule (next_occurrence s t now)) _ h in
      let made = some-injective _ d (ok-injective h1) in
      let after = next_occurrence-after s t now next valid e (map_error_ok _ computed) in
      (
        subst (λ (d : Draft). int_lt d.scheduled_at d.next_run ≡ true) made after.0,
        subst (λ (d : Draft). is_negative d.next_run ≡ false) made after.2,
      )

  draft_of-after :
      (p : PersistedSyncProfile) (now : ℤ) (schedule : Option ScheduleDefinition) {d : Draft}
      → ((s : ScheduleDefinition) → schedule ≡ some s → schedule_error s ≡ none)
      → draft_of p now schedule ≡ ok (some d)
      → (int_lt d.scheduled_at d.next_run ≡ true) × (is_negative d.next_run ≡ false)
  draft_of-after p now none valid h = ground (arith, h)
  draft_of-after p now (some s) valid h =
      draft_at-after p s now (due_at s now) (valid s refl) refl h

  -- The occurrence after the drafted one is later, and nonnegative.
  pub IsDrafted-after :
      (d : Draft)
      → IsDrafted d
      → (int_lt d.scheduled_at d.next_run ≡ true) × (is_negative d.next_run ≡ false)
  unfolding draft
  IsDrafted-after d drafted =
      let (_, _, h1) = bind_ok (require (time_error drafted.now)) _ drafted.read in
      let (p, e, h2) = bind_ok (existing_profile is_dir drafted.store drafted.id) _ h1 in
      let loaded = existing_profile-IsLoaded is_dir drafted.store drafted.id e in
      draft_of-after p drafted.now p.schedule loaded.schedule_valid h2

-- One poller's transaction: the draft that it read, the time it had then, and its clock.
pub record Attempt : Type 0 where
  pub drafted : Draft
  pub now : ℤ
  pub created_at : ℤ

-- The occurrence of a profile that is the next to be claimed.
abbrev next_run_of : Option ScheduleDefinition → Option ℤ
next_run_of none = none
next_run_of (some s) = s.next_run_at_unix_seconds

abbrev next_run : ℕ → Store → Option ℤ
next_run id store = next_run_of (map_get id store.schedules)

-- Strictly increasing, from a time on.
abbrev pub IsAfter : ℤ → List ℤ → Type 0
IsAfter t [] = Unit
IsAfter t (u ∷ us) = (int_lt t u ≡ true) × IsAfter u us

abbrev pub IsIncreasing : List ℤ → Type 0
IsIncreasing [] = Unit
IsIncreasing (t ∷ ts) = IsAfter t ts

-- The times claimed start with the next occurrence, if there is one.
abbrev StartsAt : Option ℤ → List ℤ → Type 0
StartsAt next [] = Unit
StartsAt next (t ∷ ts) = (next ≡ some t) × IsAfter t ts

module _ (is_dir : Text → Bool) where
  -- The claims of a sequence of transactions, in their order.
  unfoldable pub claims : List Attempt → Store → List ClaimedScheduledRun
  unfolding claim
  claims [] store = []
  claims (a ∷ attempts) store =
      let (after, result) = claim is_dir a.drafted a.now a.created_at store in
      let rest = claims attempts after in
      elim (claimed_of result) [ none ↦ rest | some c ↦ c ∷ rest ]

  abbrev pub claimed_times : ℕ → List ClaimedScheduledRun → List ℤ
  claimed_times id [] = []
  claimed_times id (c ∷ cs) =
      let rest = claimed_times id cs in
      if c.profile_id == id then c.scheduled_at_unix_seconds ∷ rest else rest

  due_next :
      (row : Option ScheduleDefinition) (t : ℤ)
      → is_still_due row t ≡ true
      → next_run_of row ≡ some t
  due_next none t h = ground arith
  due_next (some s) t h = ground arith

  -- After a claim the profile's next occurrence is the drafted one, and the others' stay.
  next_run-moved :
      (id j : ℕ) (schedules : List (ℕ × ScheduleDefinition)) (row : Option ScheduleDefinition)
      (t u : ℤ)
      → is_still_due row t ≡ true
      → next_run_of (map_get j (advance_schedule schedules id row u))
        ≡ (if id == j then some u else next_run_of (map_get j schedules))
  next_run-moved id j schedules none t u h = ground arith
  next_run-moved id j schedules (some s) t u h =
      ground (arith, map_get-map_insert id j (with_next_run_at s (some u)) schedules)

  StartsAt-IsAfter :
      (t u : ℤ) (ts : List ℤ) → int_lt t u ≡ true → StartsAt (some u) ts → IsAfter t ts
  StartsAt-IsAfter t u [] h s = tt
  StartsAt-IsAfter t u (v ∷ ts) h s = ground (arith, h, s.0, s.1)

  abbrev times_after : ℕ → Option ClaimedScheduledRun → List ClaimedScheduledRun → List ℤ
  times_after id claimed rest = claimed_times id (elim claimed [ none ↦ rest | some c ↦ c ∷ rest ])

  -- What the claim adds in front of the later ones.
  step-StartsAt :
      (id : ℕ) (d : Draft) (store after : Store) (claimed : Option ClaimedScheduledRun)
      (rest : List ClaimedScheduledRun)
      → int_lt d.scheduled_at d.next_run ≡ true
      → IsEffect d store after claimed
      → StartsAt (next_run id after) (claimed_times id rest)
      → StartsAt (next_run id store) (times_after id claimed rest)
  unfolding IsEffect
  step-StartsAt id d store after none rest later quiet later_claims =
      subst (λ ss. StartsAt (next_run_of (map_get id ss)) (claimed_times id rest)) quiet.schedules
        later_claims
  step-StartsAt id d store after (some c) rest later claimed later_claims =
      elim (Bool-cases (c.profile_id == id)) [
        | inl e ↦ rw e (own e)
        | inr e ↦
            rw e (subst (λ next. StartsAt next (claimed_times id rest)) (others e) later_claims)
      ]
    where
      open claimed use {same_profile, same_time, was_due, moved}

      after_claim :
          next_run id after ≡ (if d.existing.id == id then some d.next_run else next_run id store)
      after_claim =
          ap (λ ss. next_run_of (map_get id ss)) moved
          ∙ next_run-moved d.existing.id id store.schedules (map_get d.existing.id store.schedules)
              d.scheduled_at d.next_run was_due

      own :
          (c.profile_id == id) ≡ true
          → (next_run id store ≡ some c.scheduled_at_unix_seconds)
            × IsAfter c.scheduled_at_unix_seconds (claimed_times id rest)
      own e =
          let same : d.existing.id ≡ id = ground (arith, e, same_profile) in
          let next : next_run id after ≡ some d.next_run = ground (arith, after_claim, same) in
          (
            subst (λ j. next_run j store ≡ some c.scheduled_at_unix_seconds) same
                (due_next (map_get d.existing.id store.schedules) d.scheduled_at was_due
                  ∙ ap some (sym same_time)),
            subst (λ t. IsAfter t (claimed_times id rest)) (sym same_time)
                (StartsAt-IsAfter d.scheduled_at d.next_run (claimed_times id rest) later
                  (subst (λ next. StartsAt next (claimed_times id rest)) next later_claims)),
          )

      others : (c.profile_id == id) ≡ false → next_run id after ≡ next_run id store
      others e = ground (arith, after_claim, same_profile, e)

  claims-StartsAt :
      (attempts : List Attempt)
      → All (λ (a : Attempt). IsDrafted is_dir a.drafted) attempts
      → (store : Store) (id : ℕ)
      → StartsAt (next_run id store) (claimed_times id (claims attempts store))
  unfolding claims
  claims-StartsAt [] drafted store id = tt
  claims-StartsAt (a ∷ attempts) drafted store id =
      let (after, result) = claim is_dir a.drafted a.now a.created_at store in
      step-StartsAt id a.drafted store after (claimed_of result) (claims attempts after)
        (IsDrafted-after is_dir a.drafted drafted.0).0
        (claim-IsEffect is_dir a.drafted a.now a.created_at store)
        (claims-StartsAt attempts drafted.1 after id)

  -- Whatever drafts the pollers read, from whatever states of the tables, and in whatever order
  -- their transactions run: the occurrences that are claimed of one profile are strictly increasing,
  -- so none is claimed twice.
  pub claims-IsIncreasing :
      (attempts : List Attempt)
      → All (λ (a : Attempt). IsDrafted is_dir a.drafted) attempts
      → (store : Store) (id : ℕ) → IsIncreasing (claimed_times id (claims attempts store))
  claims-IsIncreasing attempts drafted store id =
      started (next_run id store) (claimed_times id (claims attempts store))
        (claims-StartsAt attempts drafted store id)
    where
      started : (next : Option ℤ) (ts : List ℤ) → StartsAt next ts → IsIncreasing ts
      started next [] h = tt
      started next (t ∷ ts) h = h.1
