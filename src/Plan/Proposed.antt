-- ===== src/Plan/Proposed.antt =====
-- Which proposals the loops of `build_plan` (analysis.rs) push.
use mathlib.Core.Option.{some-injective}
use sync_plus.Base.{
  ◌≡◌, refl, sym, ap, subst, Bool, true, false, Option, none, some, List, [], ◌∷◌, if◌then◌else◌,
  Elem, Elem-append_left, Elem-append_right, inl, inr,
}
use sync_plus.Base.Tree.{map_get}
use sync_plus.Path.{FilePath, path_eq, path_ord}
use sync_plus.Model.{
  PeerSide, PlanActionKind, remove_destination, remove_source_after_verification, type_eq,
  outcome_eq,
}
use sync_plus.Inventory.{InventoryItem, SourceInventory}
use sync_plus.Plan.{
  ProcessSpecification, Proposal, by_path, transfer_kind, removal_allowed, proposal_of,
  item_proposals, source_proposals, cleanup_proposals,
}

pub one-Elem : (p : Proposal) (b : Bool) → b ≡ true → Elem p (if b then p ∷ [] else [])
one-Elem p true h = inl refl
one-Elem p false h = cc

module _ (spec : ProcessSpecification) (source destination : SourceInventory) where
  -- A proposal of the given kind, path and side, whatever its size.
  abbrev pub IsProposed : PlanActionKind → FilePath → PeerSide → List Proposal → Type 0
  IsProposed kind path side ps =
      (p : Proposal) × Elem p ps
      × (p.kind ≡ kind)
      × (p.relative_path ≡ path)
      × (p.source_side ≡ side)

  first-Elem :
      (x : InventoryItem) (o : Option PlanActionKind) (kind : PlanActionKind)
      (removal : List Proposal)
      → o ≡ some kind
      → Elem
          (proposal_of spec.source x kind)
          (elim o [ none ↦ removal | some k ↦ proposal_of spec.source x k ∷ removal ])
  first-Elem x none kind removal h = cc
  first-Elem x (some k) kind removal h =
      inl (ap (proposal_of spec.source x) (some-injective k kind h))

  rest-Elem :
      (x : InventoryItem) (o : Option PlanActionKind) (p : Proposal) (removal : List Proposal)
      → Elem p removal
      → Elem p (elim o [ none ↦ removal | some k ↦ proposal_of spec.source x k ∷ removal ])
  rest-Elem x none p removal h = h
  rest-Elem x (some k) p removal h = inr h

  pub transfer-Elem :
      (x : InventoryItem) (y : Option InventoryItem) (kind : PlanActionKind)
      → transfer_kind spec.options.metadata x y ≡ some kind
      → Elem (proposal_of spec.source x kind) (item_proposals spec x y)
  unfolding item_proposals
  transfer-Elem x y kind h = first-Elem x (transfer_kind spec.options.metadata x y) kind _ h

  pub removal-Elem :
      (x : InventoryItem) (y : Option InventoryItem)
      → removal_allowed spec.options x y ≡ true
      → Elem (proposal_of spec.source x remove_source_after_verification) (item_proposals spec x y)
  unfolding item_proposals
  removal-Elem x y h = rest-Elem x (transfer_kind spec.options.metadata x y) _ _ (
      one-Elem (proposal_of spec.source x remove_source_after_verification)
        (removal_allowed spec.options x y) h)

  gone-Elem :
      (p : Proposal) (o : Option InventoryItem) (rest : List Proposal)
      → o ≡ none
      → Elem p (elim o [ some _ ↦ rest | none ↦ p ∷ rest ])
  gone-Elem p none rest h = inl refl
  gone-Elem p (some _) rest h = cc

  later-Elem :
      (p q : Proposal) (o : Option InventoryItem) (rest : List Proposal)
      → Elem p rest
      → Elem p (elim o [ some _ ↦ rest | none ↦ q ∷ rest ])
  later-Elem p q none rest h = inr h
  later-Elem p q (some _) rest h = h

  pub source-Elem :
      (items : List InventoryItem) (x : InventoryItem) (p : Proposal)
      → Elem x items
      → Elem p (item_proposals spec x (map_get x.relative_path (by_path destination)))
      → Elem p (source_proposals spec (by_path destination) items)
  unfolding source_proposals
  source-Elem [] x p k h = elim k [ ]
  source-Elem (y ∷ items) x p (inl e) h =
      Elem-append_left p (item_proposals spec y (map_get y.relative_path (by_path destination))) _ (
        subst (λ z. Elem p (item_proposals spec z (map_get z.relative_path (by_path destination))))
          (sym e) h)
  source-Elem (y ∷ items) x p (inr k) h =
      Elem-append_right p (item_proposals spec y (map_get y.relative_path (by_path destination))) _
        (source-Elem items x p k h)

  pub cleanup-Elem :
      (items : List InventoryItem) (x : InventoryItem)
      → Elem x items
      → map_get x.relative_path (by_path source) ≡ none
      → Elem
          (proposal_of spec.source x remove_destination)
          (cleanup_proposals spec (by_path source) items)
  unfolding cleanup_proposals
  cleanup-Elem [] x k h = elim k [ ]
  cleanup-Elem (y ∷ items) x (inl e) h =
      subst
        (λ z.
          Elem (proposal_of spec.source z remove_destination)
            (cleanup_proposals spec (by_path source) (y ∷ items)))
        e
        (gone-Elem (proposal_of spec.source y remove_destination)
          (map_get y.relative_path (by_path source)) _
          (subst (λ z. map_get z.relative_path (by_path source) ≡ none) (sym e) h))
  cleanup-Elem (y ∷ items) x (inr k) h =
      later-Elem _ _ (map_get y.relative_path (by_path source)) _ (cleanup-Elem items x k h)
