-- ===== src/MirrorDeletion/Resolve.antt =====
-- Which decisions `MirrorDeletionReview::resolve` accepts, and what its plan holds.
use sync_plus.Base.{
  ◌≡◌, ◌≢◌, ◌↔◌, refl, sym, ◌∙◌, subst, true, not, none, some, List, [], map, arith, find, contains,
  Elem, inl, inr, Bool-cases, Option-cases, ok, panicked, Result-cases, Elem-sort_by, contains-Elem,
  contains_of-Elem, not-Elem_of_find, Elem-find, is_some,
}
use sync_plus.Base.Keyed.{IsDistinct, is_some-find_key}
use sync_plus.Base.Order.{sort_by}
use sync_plus.Base.Tree.{set_extend, contains-set_extend}
use sync_plus.Path.{FilePath, path_eq, path_ord}
use sync_plus.MirrorDeletion.{
  MirrorDeletionDecision, MirrorDeletionCandidate, MirrorDeletionAction, candidate_path,
  action_path, candidate_for, resolve_loop, resolve,
}
use sync_plus.MirrorDeletion.Accepted.{
  decision_path, resolve_loop-Accepted, resolve_loop-ends, resolve_loop-ne-panicked,
}

module _ (candidates : List MirrorDeletionCandidate) where
  abbrev expected_paths : List FilePath
  expected_paths = set_extend [] (map candidate_path candidates)

  contains-expected :
      (p : FilePath) → contains expected_paths p ≡ contains (map candidate_path candidates) p
  contains-expected p = ground (arith, contains-set_extend [] (map candidate_path candidates) p)

  expected-has :
      (p : FilePath)
      → contains expected_paths p ≡ true
      → is_some (candidate_for candidates p) ≡ true
  expected-has p h = is_some-find_key candidate_path p candidates ∙ sym (contains-expected p) ∙ h

  -- The decisions name every candidate once and nothing else.
  pub record IsComplete (decisions : List MirrorDeletionDecision) : Type 0 where
    pub distinct : IsDistinct decision_path decisions
    pub covers :
        (p : FilePath)
        → contains (map decision_path decisions) p ≡ contains (map candidate_path candidates) p

  resolve-inverse :
      (decisions : List MirrorDeletionDecision) (plan : List MirrorDeletionAction)
      → resolve candidates decisions ≡ ok plan
      → (end : List FilePath × List MirrorDeletionAction) × (resolve_loop candidates expected_paths
            [] [] decisions
          ≡ ok end)
        × (find (λ path. not (contains end.0 path)) expected_paths ≡ none)
        × (plan ≡ sort_by action_path end.1)
  unfolding resolve
  resolve-inverse decisions plan h =
      elim (Result-cases (resolve_loop candidates expected_paths [] [] decisions)) [
        | inr (inl (x, e)) ↦ absurd (ground (arith, h, e))
        | inr (inr e) ↦ absurd (ground (arith, h, e))
        | inl (end, e) ↦
            elim (Option-cases (find (λ path. not (contains end.0 path)) expected_paths)) [
              | inr (p, missing) ↦ absurd (ground (arith, h, e, missing))
              | inl all ↦ (end, e, all, ground (arith, h, e, all))
            ]
      ]

  covered_of_find :
      (seen : List FilePath) (p : FilePath)
      → find (λ path. not (contains seen path)) expected_paths ≡ none
      → contains expected_paths p ≡ true
      → contains seen p ≡ true
  covered_of_find seen p all h = ground (
    arith,
    not-Elem_of_find (λ path. not (contains seen path)) expected_paths all p
        (contains-Elem p expected_paths h),
  )

  resolve-IsComplete :
      (decisions : List MirrorDeletionDecision) (plan : List MirrorDeletionAction)
      → resolve candidates decisions ≡ ok plan
      → IsComplete decisions
  resolve-IsComplete decisions plan h =
      let (end, loop, all, _) = resolve-inverse decisions plan h in
      let r = resolve_loop-Accepted candidates expected_paths [] [] decisions end loop in
      record {
        distinct = r.distinct;
        covers = λ p. ground (
          arith,
          r.known p,
          r.covered p,
          covered_of_find end.0 p all,
          contains-expected p,
          Bool-cases (contains (map decision_path decisions) p),
        );
      }

  resolve_of-IsComplete :
      (decisions : List MirrorDeletionDecision)
      → IsComplete decisions
      → (plan : List MirrorDeletionAction) × (resolve candidates decisions ≡ ok plan)
  unfolding resolve
  resolve_of-IsComplete decisions c =
      let (end, loop) =
        resolve_loop-ends candidates expected_paths expected-has [] [] decisions c.distinct
          (λ p h. contains-expected p ∙ sym (c.covers p) ∙ h) (λ p h. refl) in
      let r = resolve_loop-Accepted candidates expected_paths [] [] decisions end loop in
      elim (Option-cases (find (λ path. not (contains end.0 path)) expected_paths)) [
        | inl all ↦ (sort_by action_path end.1, ground (arith, loop, all))
        | inr (p, missing) ↦
            let found = Elem-find (λ path. not (contains end.0 path)) expected_paths missing in
            absurd (
              ground (
                arith,
                found.1,
                contains_of-Elem p expected_paths found.0,
                contains-expected p,
                c.covers p,
                r.covered p,
              ))
      ]

  -- A resolution succeeds exactly when its decisions name every deletion candidate once and nothing
  -- else, and it never panics on a missing candidate.
  pub resolve_iff :
      (decisions : List MirrorDeletionDecision)
      → (((plan : List MirrorDeletionAction) × (resolve candidates decisions ≡ ok plan))
          ↔ IsComplete decisions)
        × (resolve candidates decisions ≢ panicked)
  unfolding resolve
  resolve_iff decisions = (
    (λ s. resolve-IsComplete decisions s.0 s.1, resolve_of-IsComplete decisions),
    λ h.
        ground (
          arith,
          h,
          resolve_loop-ne-panicked candidates expected_paths expected-has [] [] decisions,
        ),
  )

  -- Every action of a plan comes from a decision for its candidate's path, with the decided choice.
  pub resolve-chosen :
      (decisions : List MirrorDeletionDecision) (plan : List MirrorDeletionAction)
      → resolve candidates decisions ≡ ok plan
      → (x : MirrorDeletionAction) → Elem x plan
      → (d : MirrorDeletionDecision) × Elem d decisions
        × (candidate_for candidates d.relative_path ≡ some x.candidate)
        × (d.choice ≡ x.choice)
  resolve-chosen decisions plan h x k =
      let (end, loop, all, same) = resolve-inverse decisions plan h in
      let r = resolve_loop-Accepted candidates expected_paths [] [] decisions end loop in
      elim (r.chosen x (Elem-sort_by action_path x end.1 (subst (Elem x) same k))) [
        | inl none' ↦ absurd none'
        | inr d ↦ d
      ]
