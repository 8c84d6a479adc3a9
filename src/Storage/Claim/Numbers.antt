-- ===== src/Storage/Claim/Numbers.antt =====
-- The run numbers that claims take (storage.rs, evidence.rs).
use sync_plus.Base.{
  ℕ, ◌<◌, max, Option, none, some, List, [], ◌∷◌, ◌++◌, Text, Bool, ◌≡◌, arith, ap, ◌∙◌, subst,
}
use sync_plus.Storage.{Store, RunSnapshot}
use sync_plus.Storage.Claim.{ClaimedScheduledRun, Draft, highest_existing, claim, claimed_of}
use sync_plus.Storage.Claim.Effect.{IsEffect, claim-IsEffect}
use sync_plus.Storage.Claim.Once.{Attempt, claims}

highest_existing-append :
    (snapshots : List RunSnapshot) (s : RunSnapshot)
    → highest_existing (snapshots ++ (s ∷ [])) ≡ max (highest_existing snapshots) s.run_id
highest_existing-append [] s = omega arith
highest_existing-append (t ∷ snapshots) s = omega (arith, highest_existing-append snapshots s)

-- Every run's number is larger than those before it.
abbrev pub IsNumberedFrom : ℕ → List ClaimedScheduledRun → Type 0
IsNumberedFrom n [] = Unit
IsNumberedFrom n (c ∷ cs) = (n < c.run_id) × IsNumberedFrom c.run_id cs

abbrev with_claimed :
    Option ClaimedScheduledRun → List ClaimedScheduledRun → List ClaimedScheduledRun
with_claimed claimed rest = elim claimed [ none ↦ rest | some c ↦ c ∷ rest ]

step-IsNumberedFrom :
    (d : Draft) (store after : Store) (claimed : Option ClaimedScheduledRun)
    (rest : List ClaimedScheduledRun)
    → IsEffect d store after claimed
    → IsNumberedFrom (highest_existing after.snapshots) rest
    → IsNumberedFrom (highest_existing store.snapshots) (with_claimed claimed rest)
unfolding IsEffect
step-IsNumberedFrom d store after none rest quiet numbered =
    subst (λ ss. IsNumberedFrom (highest_existing ss) rest) quiet.snapshots numbered
step-IsNumberedFrom d store after (some c) rest claimed numbered =
    (fresh, subst (λ n. IsNumberedFrom n rest) highest numbered)
  where
    open claimed use {fresh, stored}

    highest : highest_existing after.snapshots ≡ c.run_id
    highest =
        ap highest_existing stored
        ∙ highest_existing-append store.snapshots c.snapshot
        ∙ omega (arith, fresh, claimed.numbered)

-- The runs that any transactions claim have new, increasing numbers: above every stored snapshot's
-- and above those of the runs claimed before.
pub claims-IsNumberedFrom :
    (is_dir : Text → Bool) (attempts : List Attempt) (store : Store)
    → IsNumberedFrom (highest_existing store.snapshots) (claims is_dir attempts store)
unfolding claims
claims-IsNumberedFrom is_dir [] store = tt
claims-IsNumberedFrom is_dir (a ∷ attempts) store =
    let (after, result) = claim is_dir a.drafted a.now a.created_at store in
    step-IsNumberedFrom a.drafted store after (claimed_of result) (claims is_dir attempts after)
      (claim-IsEffect is_dir a.drafted a.now a.created_at store)
      (claims-IsNumberedFrom is_dir attempts after)
