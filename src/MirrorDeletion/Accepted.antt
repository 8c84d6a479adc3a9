-- ===== src/MirrorDeletion/Accepted.antt =====
-- What the loop of `MirrorDeletionReview::resolve` (mirror_deletion.rs) accepts.
use sync_plus.Base.{
  ◌≡◌, ◌≢◌, refl, sym, ◌∙◌, ap, subst, true, false, ◌||◌, some, List, [], ◌∷◌, ◌++◌, map, arith,
  contains, Elem, inl, inr, ◌⊎◌, Bool-cases, Option-cases, ok, panicked, Elem-append, is_some,
}
use sync_plus.Base.Keyed.{IsDistinct}
use sync_plus.Base.Tree.{set_insert, contains-set_insert}
use sync_plus.Path.{FilePath, path_eq, path_ord}
use sync_plus.MirrorDeletion.{
  MirrorDeletionDecision, MirrorDeletionCandidate, MirrorDeletionAction, candidate_for,
  resolve_loop,
}

abbrev pub decision_path : MirrorDeletionDecision → FilePath
decision_path decision = decision.relative_path

module _ (candidates : List MirrorDeletionCandidate) (expected : List FilePath) where
  abbrev pub Loop : Type 0
  Loop = List FilePath × List MirrorDeletionAction

  -- What a loop that ends well says of its decisions.
  pub record Accepted (seen : List FilePath) (actions : List MirrorDeletionAction)
      (decisions : List MirrorDeletionDecision) (end : Loop) : Type 0 where
    pub distinct : IsDistinct decision_path decisions
    pub known :
        (p : FilePath)
        → contains (map decision_path decisions) p ≡ true
        → contains expected p ≡ true
    pub fresh :
        (p : FilePath) → contains (map decision_path decisions) p ≡ true → contains seen p ≡ false
    pub covered :
        (p : FilePath)
        → contains end.0 p ≡ (contains (map decision_path decisions) p || contains seen p)
    pub chosen :
        (x : MirrorDeletionAction)
        → Elem x end.1
        → Elem x actions
          ⊎ ((d : MirrorDeletionDecision) × Elem d decisions
              × (candidate_for candidates d.relative_path ≡ some x.candidate)
              × (d.choice ≡ x.choice))

  abbrev act : MirrorDeletionDecision → MirrorDeletionCandidate → MirrorDeletionAction
  act decision candidate = record { candidate = candidate; choice = decision.choice }

  Accepted-step :
      (seen : List FilePath) (actions : List MirrorDeletionAction) (d : MirrorDeletionDecision)
      (c : MirrorDeletionCandidate) (ds : List MirrorDeletionDecision) (end : Loop)
      → contains expected d.relative_path ≡ true
      → contains seen d.relative_path ≡ false
      → candidate_for candidates d.relative_path ≡ some c
      → Accepted (set_insert d.relative_path seen) (actions ++ (act d c ∷ [])) ds end
      → Accepted seen actions (d ∷ ds) end
  Accepted-step seen actions d c ds end known new found r = record {
    distinct = ground (
      arith,
      r.distinct,
      Bool-cases (contains (map decision_path ds) d.relative_path),
      r.fresh d.relative_path,
      contains-set_insert d.relative_path d.relative_path seen,
    );
    known = λ p h. ground (arith, r.known p);
    fresh = λ p h. ground (arith, r.fresh p, contains-set_insert d.relative_path p seen);
    covered = λ p. ground (arith, r.covered p, contains-set_insert d.relative_path p seen);
    chosen = λ x h. chosen x (r.chosen x h);
  }
    where
      chosen :
          (x : MirrorDeletionAction)
          → Elem x (actions ++ (act d c ∷ []))
            ⊎ ((e : MirrorDeletionDecision) × Elem e ds
                × (candidate_for candidates e.relative_path ≡ some x.candidate)
                × (e.choice ≡ x.choice))
          → Elem x actions
            ⊎ ((e : MirrorDeletionDecision) × Elem e (d ∷ ds)
                × (candidate_for candidates e.relative_path ≡ some x.candidate)
                × (e.choice ≡ x.choice))
      chosen x (inr (e, k, found', same)) = inr (e, inr k, found', same)
      chosen x (inl k) = elim (Elem-append x actions (act d c ∷ []) k) [
        | inl old ↦ inl old
        | inr (inl same) ↦ inr (
          d,
          inl refl,
          found ∙ ap (λ (y : MirrorDeletionAction). some y.candidate) same,
          ap (λ (y : MirrorDeletionAction). y.choice) same,
        )
        | inr (inr none') ↦ absurd none'
      ]

  pub resolve_loop-Accepted :
      (seen : List FilePath) (actions : List MirrorDeletionAction)
      (ds : List MirrorDeletionDecision) (end : Loop)
      → resolve_loop candidates expected seen actions ds ≡ ok end
      → Accepted seen actions ds end
  unfolding resolve_loop
  resolve_loop-Accepted seen actions [] end h = record {
    distinct = tt;
    known = λ p k. cc;
    fresh = λ p k. cc;
    covered = λ p. ground (arith, h);
    chosen =
        λ x k. let same : actions ≡ end.1 = ground (arith, h) in inl (subst (Elem x) (sym same) k);
  }
  resolve_loop-Accepted seen actions (d ∷ ds) end h =
      elim (Bool-cases (contains expected d.relative_path)) [
        | inr e ↦ absurd (ground (arith, h, e))
        | inl known ↦ elim (Bool-cases (contains seen d.relative_path)) [
          | inl e ↦ absurd (ground (arith, h, known, e))
          | inr new ↦ elim (Option-cases (candidate_for candidates d.relative_path)) [
            | inl e ↦ absurd (ground (arith, h, known, new, e))
            | inr (c, found) ↦ Accepted-step seen actions d c ds end known new found (
                resolve_loop-Accepted (set_insert d.relative_path seen) (actions ++ (act d c ∷ []))
                  ds end (ground (arith, h, known, new, found)))
          ]
        ]
      ]

  -- A loop over known decisions that are new and distinct ends well.
  pub resolve_loop-ends :
      ((p : FilePath) → contains expected p ≡ true → is_some (candidate_for candidates p) ≡ true)
      → (seen : List FilePath) (actions : List MirrorDeletionAction)
        (ds : List MirrorDeletionDecision)
      → IsDistinct decision_path ds
      → ((p : FilePath) → contains (map decision_path ds) p ≡ true → contains expected p ≡ true)
      → ((p : FilePath) → contains (map decision_path ds) p ≡ true → contains seen p ≡ false)
      → (end : Loop) × (resolve_loop candidates expected seen actions ds ≡ ok end)
  unfolding resolve_loop
  resolve_loop-ends has seen actions [] u known new = ((seen, actions), refl)
  resolve_loop-ends has seen actions (d ∷ ds) u known new =
      let p = d.relative_path in
      elim (Option-cases (candidate_for candidates p)) [
        | inl e ↦ absurd (ground (arith, e, has p, known p))
        | inr (c, found) ↦
            let (end, rest) =
              resolve_loop-ends has (set_insert p seen) (actions ++ (act d c ∷ [])) ds u.1
                (λ q h. known q (ground (arith, h)))
                (λ q h. ground (arith, h, new q, u.0, contains-set_insert p q seen)) in
            (end, ground (arith, found, rest, known p, new p))
      ]

  pub resolve_loop-ne-panicked :
      ((p : FilePath) → contains expected p ≡ true → is_some (candidate_for candidates p) ≡ true)
      → (seen : List FilePath) (actions : List MirrorDeletionAction)
        (ds : List MirrorDeletionDecision)
      → resolve_loop candidates expected seen actions ds ≢ panicked
  unfolding resolve_loop
  resolve_loop-ne-panicked has seen actions [] h = cc
  resolve_loop-ne-panicked has seen actions (d ∷ ds) h =
      elim (Option-cases (candidate_for candidates d.relative_path)) [
        | inl e ↦ ground (arith, e, h, has d.relative_path)
        | inr (c, found) ↦ ground (
          arith,
          found,
          h,
          resolve_loop-ne-panicked has (set_insert d.relative_path seen) (actions ++ (act d c ∷ []))
              ds,
        )
      ]
