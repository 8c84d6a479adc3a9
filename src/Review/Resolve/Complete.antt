-- ===== src/Review/Resolve/Complete.antt =====
-- Which decisions `ConflictReview::resolve` accepts, and the plan that it makes of them.
use sync_plus.Base.{
  Bool, true, false, All, not, Option, none, some, List, [], ◌∷◌, map, filter, find, contains, ok,
  ◌≡◌, ◌↔◌, refl, sym, ap, ◌∙◌, arith, Elem, inl, inr, Bool-cases, Option-cases, bind_ok,
  ok-injective, contains-Elem, contains_of-Elem, not-Elem_of_find, Elem-find, nat_eq,
}
use sync_plus.Base.Keyed.{IsDistinct}
use sync_plus.Base.Order.{sort_by}
use sync_plus.Base.Tree.{set_insert, set_extend, contains-set_insert, contains-set_extend}
use sync_plus.Path.{path_ord}
use sync_plus.Conflict.{ConflictEntryKey, resolution_eq}
use sync_plus.Conflict.Key.{key_eq, key_ord}
use sync_plus.Resolution.{ConflictDecision, ConflictResolutionAction, action_from}
use sync_plus.Review.{ConflictEntry, row_key}
use sync_plus.Review.Resolve.{
  decision_key, resolution_path, is_decidable, expected_keys, decisions_loop, first_missing,
  plan_of, resolve_conflicts,
}
use sync_plus.Review.Resolve.Accepted.{
  IsAllowed, AreFresh, end_of, decisions_loop-ends, decisions_loop-accepted,
}

module _ (entries : List ConflictEntry) where
  -- Decisions for rows that differ, none of which has been seen.
  fresh_iff :
      (seen : List ConflictEntryKey) (ds : List ConflictDecision)
      → AreFresh seen ds ↔ (
          IsDistinct decision_key ds
          × ((k : ConflictEntryKey)
              → contains (map decision_key ds) k ≡ true
              → contains seen k ≡ false))
  fresh_iff seen [] = (λ h. (tt, λ k e. cc), λ h. tt)
  fresh_iff seen (d ∷ ds) =
      let k0 = d.entry_key in
      let (to, from) = fresh_iff (set_insert k0 seen) ds in
      (
        λ h.
            let (distinct, new) = to h.1 in
            (
              (
                ground (
                  arith,
                  new k0,
                  contains-set_insert k0 k0 seen,
                  Bool-cases (contains (map decision_key ds) k0),
                ),
                distinct,
              ),
              λ k e. ground (arith, e, h.0, new k, contains-set_insert k0 k seen),
            ),
        λ h. (
          h.1 k0 (ground arith),
          from (h.0.1, λ k e. ground (arith, e, h.0.0, h.1 k, contains-set_insert k0 k seen)),
        ),
      )

  -- The decisions name rows that differ, each with a resolution that its row offers, and every row
  -- that offers any.
  pub record IsComplete (ds : List ConflictDecision) : Type 0 where
    pub distinct : IsDistinct decision_key ds
    pub allowed : All (IsAllowed entries) ds
    pub covers :
        (k : ConflictEntryKey)
        → contains (map row_key (filter is_decidable entries)) k ≡ true
        → contains (map decision_key ds) k ≡ true

  expected-contains :
      (k : ConflictEntryKey)
      → contains (expected_keys entries) k ≡ contains (map row_key (filter is_decidable entries)) k
  expected-contains k =
      ground (arith, contains-set_extend [] (map row_key (filter is_decidable entries)) k)

  seen-contains :
      (ds : List ConflictDecision) (k : ConflictEntryKey)
      → contains (set_extend [] (map decision_key ds)) k ≡ contains (map decision_key ds) k
  seen-contains ds k = ground (arith, contains-set_extend [] (map decision_key ds) k)

  none_missing_iff :
      (ds : List ConflictDecision)
      → (first_missing entries (set_extend [] (map decision_key ds)) ≡ none) ↔ (
          (k : ConflictEntryKey)
          → contains (map row_key (filter is_decidable entries)) k ≡ true
          → contains (map decision_key ds) k ≡ true)
  none_missing_iff ds = (
    λ h k e.
        let known : Elem k (expected_keys entries) =
          contains-Elem k (expected_keys entries) (expected-contains k ∙ e) in
        ground (
          arith,
          not-Elem_of_find is_missing (expected_keys entries) h k known,
          seen-contains ds k,
        ),
    λ covers. elim (Option-cases (find is_missing (expected_keys entries))) [
      | inl all ↦ all
      | inr (k, found_one) ↦
          let r = Elem-find is_missing (expected_keys entries) found_one in
          absurd (
            ground (
              arith,
              r.1,
              seen-contains ds k,
              covers k,
              expected-contains k,
              contains_of-Elem k (expected_keys entries) r.0,
            ))
    ],
  )
    where
      is_missing : ConflictEntryKey → Bool
      is_missing k = not (contains (set_extend [] (map decision_key ds)) k)

  plan_ok :
      (actions : List ConflictResolutionAction) (missing : Option ConflictEntryKey)
      {plan : List ConflictResolutionAction}
      → plan_of entries actions missing ≡ ok plan
      → (missing ≡ none) × (plan ≡ sort_by resolution_path actions)
  plan_ok actions none h = (refl, sym (ok-injective h))
  plan_ok actions (some k) h = ground arith

  resolve_conflicts_accepted :
      (ds : List ConflictDecision) (plan : List ConflictResolutionAction)
      → resolve_conflicts entries ds ≡ ok plan
      → IsComplete ds × (plan ≡ sort_by resolution_path (map action_from ds))
  unfolding resolve_conflicts
  resolve_conflicts_accepted ds plan h =
      let (end, e, h1) = bind_ok (decisions_loop entries [] [] ds) _ h in
      let (allowed, fresh) = decisions_loop-accepted entries [] [] ds e in
      let same : end_of entries [] [] ds ≡ end =
        ok-injective (sym (decisions_loop-ends entries [] [] ds allowed fresh) ∙ e) in
      let (all, made) = plan_ok end.1 (first_missing entries end.0) h1 in
      (
        record {
          distinct = ((fresh_iff [] ds).0 fresh).0;
          allowed = allowed;
          covers = (none_missing_iff ds).0 (
              ap
                (λ (x : List ConflictEntryKey × List ConflictResolutionAction).
                  first_missing entries x.0)
                same
              ∙ all);
        },
        made
            ∙ ap
                (λ (x : List ConflictEntryKey × List ConflictResolutionAction).
                  sort_by resolution_path x.1)
                (sym same),
      )

  resolve_conflicts_complete :
      (ds : List ConflictDecision)
      → IsComplete ds
      → resolve_conflicts entries ds ≡ ok (sort_by resolution_path (map action_from ds))
  unfolding resolve_conflicts
  resolve_conflicts_complete ds c =
      rw
        (
          decisions_loop-ends entries [] [] ds c.allowed
              ((fresh_iff [] ds).1 (c.distinct, λ k e. refl)),
          (none_missing_iff ds).1 c.covers,
        )
        refl

  -- A resolution of the conflicts succeeds exactly when its decisions are for distinct rows of the
  -- review, choose what the row's kind offers, and leave out no row that offers anything. The plan
  -- then holds the action of each decision, sorted by path.
  pub resolve_conflicts_iff :
      (ds : List ConflictDecision) (plan : List ConflictResolutionAction)
      → (resolve_conflicts entries ds ≡ ok plan)
        ↔ (IsComplete ds × (plan ≡ sort_by resolution_path (map action_from ds)))
  resolve_conflicts_iff ds plan =
      (resolve_conflicts_accepted ds plan, λ h. resolve_conflicts_complete ds h.0 ∙ ap ok (sym h.1))
