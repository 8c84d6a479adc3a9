-- ===== src/Plan/Sound.antt =====
-- Why each action stands in a plan (`build_plan` of analysis.rs).
use sync_plus.Base.{
  ◌≡◌, refl, sym, ◌∙◌, subst, Bool, true, false, Option, none, some, List, [], ◌∷◌, if◌then◌else◌,
  Elem, Elem-append, Elem-filter, inl, inr, ◌⊎◌, arith, Bool-cases,
}
use sync_plus.Base.Tree.{map_get}
use sync_plus.Path.{FilePath, path_eq, path_ord}
use sync_plus.Model.{
  SyncMode, one_way, mirror, PeerSide, peer_a, peer_b, PlanActionKind, copy_to_destination,
  overwrite_destination, remove_destination, remove_source_after_verification, type_eq, outcome_eq,
}
use sync_plus.Inventory.{
  InventoryItem, SourceInventory, inventory_item, included_items, is_eligible,
}
use sync_plus.MirrorEquality.{equal_inventory}
use sync_plus.Plan.{
  ProcessSpecification, Proposal, by_path, transfer_kind, removal_allowed, proposal_of,
  item_proposals, source_proposals, cleanup_proposals, one_way_proposals, mirror_copy,
  mirror_proposal, mirror_loop, mirror_proposals,
}
use sync_plus.Plan.Check.{proposals}
use sync_plus.Plan.Reasons.{HasUniquePaths, map_get-by_path, IsIncludedAt, IsReason, IsPlanned}

module _ (spec : ProcessSpecification) (source destination : SourceInventory) where
  module _ (us : HasUniquePaths source) (ud : HasUniquePaths destination) where
    proposed :
        (x : InventoryItem) (kind : PlanActionKind) (p : Proposal)
        → IsReason spec source destination kind x.relative_path
        → proposal_of spec.source x kind ≡ p
        → IsPlanned spec source destination p one_way
    proposed x kind p r e = subst (λ q. IsPlanned spec source destination q one_way) e (refl, r)

    transfer-IsReason :
        (x : InventoryItem) (kind : PlanActionKind) (y : Option InventoryItem)
        → IsIncludedAt source x.relative_path x
        → inventory_item destination x.relative_path ≡ y
        → transfer_kind spec.options.metadata x y ≡ some kind
        → IsReason spec source destination kind x.relative_path
    transfer-IsReason x kind none i e h =
        let is : copy_to_destination ≡ kind = ground (arith, h) in
        subst (λ k. IsReason spec source destination k x.relative_path) is (x, i, e)
    transfer-IsReason x kind (some y) i e h =
        let inside : is_eligible y ≡ true = ground (arith, h) in
        let other : equal_inventory spec.options.metadata x y ≡ false = ground (arith, h) in
        let is : overwrite_destination ≡ kind = ground (arith, h) in
        subst (λ k. IsReason spec source destination k x.relative_path) is
          (x, y, i, e, inside, other)

    removal-IsReason :
        (x : InventoryItem) (y : Option InventoryItem)
        → IsIncludedAt source x.relative_path x
        → inventory_item destination x.relative_path ≡ y
        → removal_allowed spec.options x y ≡ true
        → IsReason spec source destination remove_source_after_verification x.relative_path
    removal-IsReason x none i e h = (ground (arith, h), x, i, ground (arith, h), inl e)
    removal-IsReason x (some y) i e h =
        (ground (arith, h), x, i, ground (arith, h), inr (y, e, ground (arith, h)))

    removal-IsPlanned :
        (x : InventoryItem) (y : Option InventoryItem) (p : Proposal)
        → IsIncludedAt source x.relative_path x
        → inventory_item destination x.relative_path ≡ y
        → Elem p (
            if removal_allowed spec.options x y
            then proposal_of spec.source x remove_source_after_verification ∷ []
            else [])
        → IsPlanned spec source destination p one_way
    removal-IsPlanned x y p i e h = elim (Bool-cases (removal_allowed spec.options x y)) [
      | inl allowed ↦
          let is : proposal_of spec.source x remove_source_after_verification ≡ p =
            ground (arith, h, allowed) in
          proposed x remove_source_after_verification p (removal-IsReason x y i e allowed) is
      | inr refused ↦ absurd (ground (arith, h, refused))
    ]

    Elem-transfer :
        (x : InventoryItem) (p : Proposal) (transfer : Option PlanActionKind)
        (removal : List Proposal)
        → Elem p (elim transfer [
          | none ↦ removal
          | some kind ↦ proposal_of spec.source x kind ∷ removal
        ])
        → ((kind : PlanActionKind) × (transfer ≡ some kind) × (proposal_of spec.source x kind ≡ p))
          ⊎ Elem p removal
    Elem-transfer x p none removal h = inr h
    Elem-transfer x p (some kind) removal (inl e) = inl (kind, refl, e)
    Elem-transfer x p (some kind) removal (inr h) = inr h

    item-IsPlanned :
        (x : InventoryItem) (y : Option InventoryItem) (p : Proposal)
        → IsIncludedAt source x.relative_path x
        → inventory_item destination x.relative_path ≡ y
        → Elem p (item_proposals spec x y)
        → IsPlanned spec source destination p one_way
    unfolding item_proposals
    item-IsPlanned x y p i e h =
        elim (Elem-transfer x p (transfer_kind spec.options.metadata x y) _ h) [
          | inl (kind, k, is) ↦ proposed x kind p (transfer-IsReason x kind y i e k) is
          | inr rest ↦ removal-IsPlanned x y p i e rest
        ]

    source-IsPlanned :
        (items : List InventoryItem) (p : Proposal)
        → ((x : InventoryItem) → Elem x items → IsIncludedAt source x.relative_path x)
        → Elem p (source_proposals spec (by_path destination) items)
        → IsPlanned spec source destination p one_way
    unfolding source_proposals
    source-IsPlanned [] p within h = elim h [ ]
    source-IsPlanned (x ∷ items) p within h =
        elim (Elem-append p (item_proposals spec x (map_get x.relative_path (by_path destination)))
          _ h) [
            | inl here ↦
                item-IsPlanned x (map_get x.relative_path (by_path destination)) p
                  (within x (inl refl)) (sym (map_get-by_path destination x.relative_path ud)) here
            | inr rest ↦ source-IsPlanned items p (λ y k. within y (inr k)) rest
          ]

    Elem-cleanup :
        (x : InventoryItem) (p : Proposal) (other : Option InventoryItem) (rest : List Proposal)
        → Elem p (elim other [
          | some _ ↦ rest
          | none ↦ proposal_of spec.source x remove_destination ∷ rest
        ])
        → ((other ≡ none) × (proposal_of spec.source x remove_destination ≡ p)) ⊎ Elem p rest
    Elem-cleanup x p none rest (inl e) = inl (refl, e)
    Elem-cleanup x p none rest (inr h) = inr h
    Elem-cleanup x p (some _) rest h = inr h

    cleanup-IsPlanned :
        (items : List InventoryItem) (p : Proposal)
        → spec.options.destination_cleanup ≡ true
        → ((x : InventoryItem) → Elem x items → IsIncludedAt destination x.relative_path x)
        → Elem p (cleanup_proposals spec (by_path source) items)
        → IsPlanned spec source destination p one_way
    unfolding cleanup_proposals
    cleanup-IsPlanned [] p on within h = elim h [ ]
    cleanup-IsPlanned (x ∷ items) p on within h =
        elim (Elem-cleanup x p (map_get x.relative_path (by_path source)) _ h) [
          | inl (gone, is) ↦
              proposed x remove_destination p
                (on, x, within x (inl refl), sym (map_get-by_path source x.relative_path us) ∙ gone)
                is
          | inr rest ↦ cleanup-IsPlanned items p on (λ y k. within y (inr k)) rest
        ]

    included_items-IsIncludedAt :
        (inventory : SourceInventory) (x : InventoryItem)
        → Elem x (included_items inventory)
        → IsIncludedAt inventory x.relative_path x
    included_items-IsIncludedAt inventory x h =
        let (held, inside) = Elem-filter is_eligible x inventory.items h in
        record { held = held; at_path = refl; inside = inside }

    cleanup_if-IsPlanned :
        (on : Bool) (p : Proposal)
        → spec.options.destination_cleanup ≡ on
        → Elem p (
            if on then cleanup_proposals spec (by_path source) (included_items destination) else [])
        → IsPlanned spec source destination p one_way
    cleanup_if-IsPlanned true p e h =
        cleanup-IsPlanned (included_items destination) p e (included_items-IsIncludedAt destination)
          h
    cleanup_if-IsPlanned false p e h = elim h [ ]

    one_way-IsPlanned :
        (p : Proposal)
        → Elem p (one_way_proposals spec source destination)
        → IsPlanned spec source destination p one_way
    unfolding one_way_proposals
    one_way-IsPlanned p h =
        elim (Elem-append p (source_proposals spec (by_path destination) (included_items source)) _
          h) [
            | inl of_source ↦
                source-IsPlanned (included_items source) p (included_items-IsIncludedAt source)
                  of_source
            | inr of_cleanup ↦
                cleanup_if-IsPlanned spec.options.destination_cleanup p refl of_cleanup
          ]

    Elem-mirror_copy :
        (side : PeerSide) (path : FilePath) (x : InventoryItem) (p : Proposal)
        → Elem p (mirror_copy side path x)
        → (is_eligible x ≡ true)
          × (p.source_side ≡ side)
          × (p.relative_path ≡ path)
          × (p.kind ≡ copy_to_destination)
    Elem-mirror_copy side path x p h = elim (Bool-cases (is_eligible x)) [
      | inl inside ↦
          (inside, ground (arith, h, inside), ground (arith, h, inside), ground (arith, h, inside))
      | inr outside ↦ absurd (ground (arith, h, outside))
    ]

    mirror_proposal-IsPlanned :
        (path : FilePath) (x y : Option InventoryItem) (p : Proposal)
        → inventory_item source path ≡ x
        → inventory_item destination path ≡ y
        → Elem p (mirror_proposal path x y)
        → IsPlanned spec source destination p mirror
    mirror_proposal-IsPlanned path (some x) none p e f h =
        let (inside, side, at, kind) = Elem-mirror_copy peer_a path x p h in
        (kind, x, rw (side, at) e, inside, rw (side, at) f)
    mirror_proposal-IsPlanned path none (some y) p e f h =
        let (inside, side, at, kind) = Elem-mirror_copy peer_b path y p h in
        (kind, y, rw (side, at) f, inside, rw (side, at) e)
    mirror_proposal-IsPlanned path none none p e f h = elim h [ ]
    mirror_proposal-IsPlanned path (some x) (some y) p e f h = elim h [ ]

    mirror_loop-IsPlanned :
        (paths : List FilePath) (p : Proposal)
        → Elem p (mirror_loop (by_path source) (by_path destination) paths)
        → IsPlanned spec source destination p mirror
    unfolding mirror_loop
    mirror_loop-IsPlanned [] p h = elim h [ ]
    mirror_loop-IsPlanned (path ∷ paths) p h =
        elim (Elem-append p
          (mirror_proposal path (map_get path (by_path source))
            (map_get path (by_path destination)))
          _ h) [
            | inl here ↦
                mirror_proposal-IsPlanned path (map_get path (by_path source))
                  (map_get path (by_path destination)) p (sym (map_get-by_path source path us))
                  (sym (map_get-by_path destination path ud)) here
            | inr rest ↦ mirror_loop-IsPlanned paths p rest
          ]

    mirror-IsPlanned :
        (p : Proposal)
        → Elem p (mirror_proposals source destination)
        → IsPlanned spec source destination p mirror
    unfolding mirror_proposals
    mirror-IsPlanned p h = mirror_loop-IsPlanned _ p h

    -- Every proposal has its reason.
    pub proposals-IsPlanned :
        (p : Proposal)
        → Elem p (proposals spec source destination)
        → IsPlanned spec source destination p spec.mode
    proposals-IsPlanned p h = go spec.mode h
      where
        go :
            (mode : SyncMode)
            → Elem p (elim mode [
              | mirror ↦ mirror_proposals source destination
              | one_way ↦ one_way_proposals spec source destination
            ])
            → IsPlanned spec source destination p mode
        go one_way k = one_way-IsPlanned p k
        go mirror k = mirror-IsPlanned p k
