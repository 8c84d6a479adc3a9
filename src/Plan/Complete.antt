-- ===== src/Plan/Complete.antt =====
-- Each action that has a reason stands in the plan (`build_plan` of analysis.rs).
use sync_plus.Base.{
  contains-append, ◌≡◌, refl, sym, ◌∙◌, ap, subst, ℕ, suc, true, ◌||◌, Option, none, some, List, [],
  ◌∷◌, ◌++◌, is_some, contains, contains-Elem, Elem, Elem-append_left, Elem-append_right,
  Elem-filter_of, inl, inr, arith, ok, ok-injective,
}
use sync_plus.Base.Tree.{map_get, set_extend, contains-set_extend}
use sync_plus.Path.{FilePath, path_eq, path_ord}
use sync_plus.Model.{
  SyncMode, one_way, mirror, PeerSide, peer_a, peer_b, PlanActionKind, copy_to_destination,
  overwrite_destination, remove_destination, remove_source_after_verification, type_eq, outcome_eq,
}
use sync_plus.Inventory.{
  InventoryItem, SourceInventory, inventory_item, included_items, is_eligible,
}
use sync_plus.Plan.{
  ProcessSpecification, Proposal, PlanAction, by_path, map_keys, proposal_of, item_proposals,
  source_proposals, one_way_proposals, mirror_proposal, mirror_loop, mirror_proposals, numbered,
  data_size,
}
use sync_plus.Plan.Check.{build_plan, OneWayPlan, proposals, proposed_plan}
use sync_plus.Plan.Reasons.{
  HasUniquePaths, map_get-by_path, IsIncludedAt, IsReason, IsFirstCopy, IsPlanned,
}
use sync_plus.Plan.Valid.{build_plan_ok}
use sync_plus.Plan.Proposed.{
  one-Elem, IsProposed, transfer-Elem, removal-Elem, source-Elem, cleanup-Elem,
}

module _ (spec : ProcessSpecification) (source destination : SourceInventory) where
  module _ (us : HasUniquePaths source) (ud : HasUniquePaths destination) where
    of_source :
        (x : InventoryItem) (kind : PlanActionKind) (path : FilePath) (y : Option InventoryItem)
        → IsIncludedAt source path x
        → inventory_item destination path ≡ y
        → Elem (proposal_of spec.source x kind) (item_proposals spec x y)
        → IsProposed spec source destination kind path spec.source
            (one_way_proposals spec source destination)
    unfolding one_way_proposals
    of_source x kind path y i e h =
        let at : map_get x.relative_path (by_path destination) ≡ y =
          ap (λ p. map_get p (by_path destination)) i.at_path
          ∙ map_get-by_path destination path ud
          ∙ e in
        let listed = Elem-filter_of is_eligible x source.items i.held i.inside in
        (
          proposal_of spec.source x kind,
          Elem-append_left _ (source_proposals spec (by_path destination) (included_items source)) _
              (source-Elem spec source destination (included_items source) x _ listed (
                subst (λ o. Elem (proposal_of spec.source x kind) (item_proposals spec x o))
                  (sym at) h)),
          refl,
          i.at_path,
          refl,
        )

    of_cleanup :
        (x : InventoryItem) (path : FilePath)
        → spec.options.destination_cleanup ≡ true
        → IsIncludedAt destination path x
        → inventory_item source path ≡ none
        → IsProposed spec source destination remove_destination path spec.source
            (one_way_proposals spec source destination)
    unfolding one_way_proposals
    of_cleanup x path on i e =
        let at : map_get x.relative_path (by_path source) ≡ none =
          ap (λ p. map_get p (by_path source)) i.at_path ∙ map_get-by_path source path us ∙ e in
        let listed = Elem-filter_of is_eligible x destination.items i.held i.inside in
        (
          proposal_of spec.source x remove_destination,
          Elem-append_right _ (source_proposals spec (by_path destination) (included_items source))
              _
              (rw on
                (cleanup-Elem spec source destination (included_items destination) x listed at)),
          refl,
          i.at_path,
          refl,
        )

    reason-IsProposed :
        (kind : PlanActionKind) (path : FilePath)
        → IsReason spec source destination kind path
        → IsProposed spec source destination kind path spec.source
            (one_way_proposals spec source destination)
    reason-IsProposed copy_to_destination path (x, i, e) =
        of_source x copy_to_destination path none i e
          (transfer-Elem spec source destination x none copy_to_destination refl)
    reason-IsProposed overwrite_destination path (x, y, i, e, inside, other) =
        of_source x overwrite_destination path (some y) i e (
          transfer-Elem spec source destination x (some y) overwrite_destination
            (ground (arith, inside, other)))
    reason-IsProposed remove_source_after_verification path (on, x, i, type, inl e) =
        of_source x remove_source_after_verification path none i e
          (removal-Elem spec source destination x none (ground (arith, on, type)))
    reason-IsProposed remove_source_after_verification path (on, x, i, type, inr (y, e, inside)) =
        of_source x remove_source_after_verification path (some y) i e
          (removal-Elem spec source destination x (some y) (ground (arith, on, type, inside)))
    reason-IsProposed remove_destination path (on, y, i, e) = of_cleanup y path on i e

    contains-map_keys :
        (path : FilePath) (m : List (FilePath × InventoryItem))
        → contains (map_keys m) path ≡ is_some (map_get path m)
    unfolding map_get
    contains-map_keys path [] = refl
    contains-map_keys path ((j, x) ∷ m) = ground (arith, contains-map_keys path m)

    mirror-Elem :
        (paths : List FilePath) (path : FilePath) (p : Proposal)
        → Elem path paths
        → Elem p (
            mirror_proposal path
              (map_get path (by_path source))
              (map_get path (by_path destination)))
        → Elem p (mirror_loop (by_path source) (by_path destination) paths)
    unfolding mirror_loop
    mirror-Elem [] path p k h = elim k [ ]
    mirror-Elem (q ∷ paths) path p (inl e) h =
        Elem-append_left p
          (mirror_proposal q (map_get q (by_path source)) (map_get q (by_path destination))) _
          (subst
            (λ r.
              Elem p
                (mirror_proposal r (map_get r (by_path source)) (map_get r (by_path destination))))
            (sym e) h)
    mirror-Elem (q ∷ paths) path p (inr k) h =
        Elem-append_right p
          (mirror_proposal q (map_get q (by_path source)) (map_get q (by_path destination))) _
          (mirror-Elem paths path p k h)

    -- A path that one of the two inventories lists, with what it proposes.
    of_mirror :
        (path : FilePath) (x y : Option InventoryItem) (p : Proposal)
        → inventory_item source path ≡ x
        → inventory_item destination path ≡ y
        → (is_some x || is_some y) ≡ true
        → Elem p (mirror_proposal path x y)
        → Elem p (mirror_proposals source destination)
    unfolding mirror_proposals
    of_mirror path x y p e f h k =
        let at_a = map_get-by_path source path us ∙ e in
        let at_b = map_get-by_path destination path ud ∙ f in
        let keys = map_keys (by_path source) ++ map_keys (by_path destination) in
        let listed : contains (set_extend [] keys) path ≡ true = ground (
          arith,
          h,
          at_a,
          at_b,
          contains-set_extend [] keys path,
          contains-append path (map_keys (by_path source)) (map_keys (by_path destination)),
          contains-map_keys path (by_path source),
          contains-map_keys path (by_path destination),
        ) in
        mirror-Elem (set_extend [] keys) path p (contains-Elem path (set_extend [] keys) listed)
          (rw (at_a, at_b) k)

    abbrev copied : PeerSide → FilePath → InventoryItem → Proposal
    copied side path x = record {
      relative_path = path;
      kind = copy_to_destination;
      source_side = side;
      size = data_size x;
    }

    first_copy-IsProposed :
        (side : PeerSide) (p : Proposal)
        → p.source_side ≡ side
        → IsFirstCopy spec source destination p
        → IsProposed spec source destination p.kind p.relative_path p.source_side
            (mirror_proposals source destination)
    first_copy-IsProposed peer_a p at (kind, x, e, inside, f) = (
      copied peer_a p.relative_path x,
      of_mirror p.relative_path (some x) none _ (rw at at e) (rw at at f) refl
          (one-Elem (copied peer_a p.relative_path x) (is_eligible x) inside),
      sym kind,
      refl,
      sym at,
    )
    first_copy-IsProposed peer_b p at (kind, x, e, inside, f) = (
      copied peer_b p.relative_path x,
      of_mirror p.relative_path none (some x) _ (rw at at f) (rw at at e) refl
          (one-Elem (copied peer_b p.relative_path x) (is_eligible x) inside),
      sym kind,
      refl,
      sym at,
    )

    planned-IsProposed :
        (mode : SyncMode) (p : Proposal)
        → IsPlanned spec source destination p mode
        → IsProposed spec source destination p.kind p.relative_path p.source_side (elim mode [
          | mirror ↦ mirror_proposals source destination
          | one_way ↦ one_way_proposals spec source destination
        ])
    planned-IsProposed one_way p (at, r) =
        subst
          (λ s.
            IsProposed spec source destination p.kind p.relative_path s
              (one_way_proposals spec source destination))
          (sym at) (reason-IsProposed p.kind p.relative_path r)
    planned-IsProposed mirror p c = first_copy-IsProposed p.source_side p refl c

    numbered-Elem :
        (next : ℕ) (ps : List Proposal) (p : Proposal)
        → Elem p ps
        → (a : PlanAction) × Elem a (numbered next ps) × (a.proposal ≡ p)
    numbered-Elem next [] p h = elim h [ ]
    numbered-Elem next (q ∷ ps) p (inl e) = (record { action_id = next; proposal = q }, inl refl, e)
    numbered-Elem next (q ∷ ps) p (inr h) =
        let (a, k, e) = numbered-Elem (suc next) ps p h in (a, inr k, e)

    -- A built plan leaves nothing out: wherever there is a reason for an action of some kind at a
    -- path and from a side, the plan has that action. Neither inventory lists a path twice.
    pub build_plan-IsComplete :
        (plan : OneWayPlan) (p : Proposal)
        → build_plan spec source destination ≡ ok plan
        → IsPlanned spec source destination p spec.mode
        → (a : PlanAction) × Elem a plan.actions
          × (a.proposal.kind ≡ p.kind)
          × (a.proposal.relative_path ≡ p.relative_path)
          × (a.proposal.source_side ≡ p.source_side)
    build_plan-IsComplete plan p h r =
        let is : proposed_plan spec source destination ≡ plan =
          ok-injective (sym (build_plan_ok spec source destination us ud) ∙ h) in
        let (q, k, kind, path, side) = planned-IsProposed spec.mode p r in
        let (a, l, e) = numbered-Elem 1 (proposals spec source destination) q k in
        (
          a,
          subst (Elem a) (ap (λ (x : OneWayPlan). x.actions) is) l,
          ap (λ (x : Proposal). x.kind) e ∙ kind,
          ap (λ (x : Proposal). x.relative_path) e ∙ path,
          ap (λ (x : Proposal). x.source_side) e ∙ side,
        )
