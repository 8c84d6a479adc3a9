-- ===== src/Plan/Valid.antt =====
-- A built plan passes its own validation, and what each of its actions rests on (analysis.rs).
use sync_plus.Base.{
  ◌≡◌, refl, sym, ◌∙◌, ap, subst, ℕ, suc, Bool, true, false, ◌&&◌, ◌||◌, not, Option, none, some,
  List, [], ◌∷◌, is_some_and, contains, map, contains_of-Elem, Elem-map_of, if◌then◌else◌, ◌==◌,
  ◌/=◌, Elem, inl, inr, ◌⊎◌, arith, Result, ok, err, panicked, ◌>>=◌, ok-injective,
}
use sync_plus.Base.Keyed.{IsDistinct}
use sync_plus.Path.{FilePath, path_eq}
use sync_plus.Model.{
  SyncMode, one_way, mirror, PeerSide, peer_a, peer_b, PlanActionKind, copy_to_destination,
  overwrite_destination, remove_destination, remove_source_after_verification, outcome_eq,
}
use sync_plus.Inventory.{InventoryItem, SourceInventory, inventory_item, is_eligible}
use sync_plus.Plan.{ProcessSpecification, Proposal, PlanAction, plan_path, numbered}
use sync_plus.Plan.Check.{
  build_plan, OneWayPlan, PlanError, proposals, proposed_plan, checked_inventory, is_forbidden,
  action_error, first_error, expected_summary, summary_eq, validate, PlanSummary,
}
use sync_plus.Plan.Reasons.{HasUniquePaths, IsIncludedAt, IsReason, IsPlanned}
use sync_plus.Plan.Sound.{proposals-IsPlanned}

pub find_of-Elem :
    (items : List InventoryItem) (x : InventoryItem)
    → IsDistinct plan_path items
    → Elem x items
    → sync_plus.Base.find (λ item. item.relative_path == x.relative_path) items ≡ some x
find_of-Elem [] x u k = elim k [ ]
find_of-Elem (y ∷ items) x u (inl e) =
    subst
      (λ z.
        sync_plus.Base.find (λ item. item.relative_path == z.relative_path) (y ∷ items) ≡ some z)
      e (ground arith)
find_of-Elem (y ∷ items) x u (inr k) =
    let listed =
      contains_of-Elem x.relative_path (map plan_path items) (Elem-map_of plan_path x items k) in
    ground (arith, u.0, listed, find_of-Elem items x u.1 k)

-- The item of an included path is found there.
found-included :
    (inventory : SourceInventory) (path : FilePath) (x : InventoryItem)
    → HasUniquePaths inventory
    → IsIncludedAt inventory path x
    → inventory_item inventory path ≡ some x
found-included inventory path x u i =
    subst (λ p. inventory_item inventory p ≡ some x) i.at_path
      (find_of-Elem inventory.items x u i.held)

abbrev is_outside : SourceInventory → FilePath → Bool
is_outside inventory path =
    is_some_and (inventory_item inventory path) (λ item. not (is_eligible item))

inside-found :
    (inventory : SourceInventory) (path : FilePath) (x : InventoryItem)
    → inventory_item inventory path ≡ some x
    → is_eligible x ≡ true
    → is_outside inventory path ≡ false
inside-found inventory path x e h = rw (e, h) refl

inside-absent :
    (inventory : SourceInventory) (path : FilePath)
    → inventory_item inventory path ≡ none
    → is_outside inventory path ≡ false
inside-absent inventory path e = rw e refl

pub validate_ok :
    (plan : OneWayPlan)
    → first_error plan plan.actions ≡ none
    → (expected_summary plan /= plan.summary) ≡ false
    → validate plan ≡ ok tt
unfolding validate
validate_ok plan h k = ground (arith, h, k)

-- The ids count up.
abbrev pub IsNumbered : ℕ → List PlanAction → Type 0
IsNumbered next [] = Unit
IsNumbered next (a ∷ actions) = (a.action_id ≡ next) × IsNumbered (suc next) actions

module _ (spec : ProcessSpecification) (source destination : SourceInventory)
    (us : HasUniquePaths source) (ud : HasUniquePaths destination) where
  abbrev built : OneWayPlan
  built = proposed_plan spec source destination

  reason-allowed :
      (kind : PlanActionKind) (path : FilePath)
      → IsReason spec source destination kind path
      → (is_outside source path ≡ false) × (is_forbidden spec.options kind ≡ false)
  reason-allowed copy_to_destination path (x, i, _) =
      (inside-found source path x (found-included source path x us i) i.inside, refl)
  reason-allowed overwrite_destination path (x, y, i, _, _, _) =
      (inside-found source path x (found-included source path x us i) i.inside, refl)
  reason-allowed remove_source_after_verification path (on, x, i, _, _) =
      (inside-found source path x (found-included source path x us i) i.inside, ground (arith, on))
  reason-allowed remove_destination path (on, y, i, gone) =
      (inside-absent source path gone, ground (arith, on))

  -- The inventory that `validate` looks an action up in.
  abbrev looked_up : SyncMode → PeerSide → SourceInventory
  looked_up one_way side = source
  looked_up mirror peer_a = source
  looked_up mirror peer_b = destination

  planned-allowed :
      (mode : SyncMode) (side : PeerSide) (p : Proposal)
      → p.source_side ≡ side
      → IsPlanned spec source destination p mode
      → (is_outside (looked_up mode side) p.relative_path ≡ false)
        × (is_forbidden spec.options p.kind ≡ false)
  planned-allowed one_way side p at (_, r) = reason-allowed p.kind p.relative_path r
  planned-allowed mirror peer_a p at (kind, x, e, inside, _) =
      (inside-found source p.relative_path x (rw at at e) inside, rw kind refl)
  planned-allowed mirror peer_b p at (kind, x, e, inside, _) =
      (inside-found destination p.relative_path x (rw at at e) inside, rw kind refl)

  checked-inventory :
      (a : PlanAction) → checked_inventory built a ≡ looked_up spec.mode a.proposal.source_side
  checked-inventory a = ground arith

  action_error-none :
      (a : PlanAction)
      → IsPlanned spec source destination a.proposal spec.mode
      → action_error built a ≡ none
  unfolding action_error
  action_error-none a h =
      let (inside, allowed) = planned-allowed spec.mode a.proposal.source_side a.proposal refl h in
      rw (checked-inventory a, inside, allowed) refl

  first_error-none :
      (next : ℕ) (ps : List Proposal)
      → ((p : Proposal) → Elem p ps → IsPlanned spec source destination p spec.mode)
      → first_error built (numbered next ps) ≡ none
  unfolding first_error
  first_error-none next [] h = refl
  first_error-none next (p ∷ ps) h =
      rw (action_error-none (record { action_id = next; proposal = p }) (h p (inl refl)))
        (first_error-none (suc next) ps (λ q k. h q (inr k)))

  same_summary : (s : PlanSummary) → (s /= s) ≡ false
  same_summary s = ground arith

  -- Building a plan never fails: whatever the two inventories are, the proposed actions pass the
  -- plan's own validation, if neither inventory lists a path twice.
  pub build_plan_ok :
      build_plan spec source destination ≡ ok (proposed_plan spec source destination)
  unfolding build_plan
  build_plan_ok =
      ap (λ (r : Result PlanError (Unit {0})). r >>= λ _. ok built)
        (validate_ok built
          (first_error-none 1 (proposals spec source destination)
            (proposals-IsPlanned spec source destination us ud))
          (same_summary built.summary))

  numbered-IsNumbered : (next : ℕ) (ps : List Proposal) → IsNumbered next (numbered next ps)
  numbered-IsNumbered next [] = tt
  numbered-IsNumbered next (p ∷ ps) = (refl, numbered-IsNumbered (suc next) ps)

  Elem-numbered :
      (next : ℕ) (ps : List Proposal) (a : PlanAction)
      → Elem a (numbered next ps)
      → Elem a.proposal ps
  Elem-numbered next [] a h = elim h [ ]
  Elem-numbered next (p ∷ ps) a (inl e) = inl (ap (λ (x : PlanAction). x.proposal) e)
  Elem-numbered next (p ∷ ps) a (inr h) = inr (Elem-numbered (suc next) ps a h)

  -- Every action of a built plan has its reason. A One-Way plan copies an included source item that
  -- the destination does not list, overwrites an included destination item that differs from it,
  -- removes a source file or symlink only under Safe Delete and where the destination's item is
  -- included or absent, and removes an included destination item only under cleanup and where the
  -- source lists nothing. A Mirror plan only copies, from the peer that includes an item to the one
  -- that lists nothing there. The ids count up from 1. Neither inventory lists a path twice.
  pub build_plan-IsPlanned :
      (plan : OneWayPlan)
      → build_plan spec source destination ≡ ok plan
      → IsNumbered 1 plan.actions
        × ((a : PlanAction)
            → Elem a plan.actions
            → IsPlanned spec source destination a.proposal spec.mode)
  build_plan-IsPlanned plan h =
      let is : built ≡ plan = ok-injective (sym build_plan_ok ∙ h) in
      let actions : built.actions ≡ plan.actions = ap (λ (p : OneWayPlan). p.actions) is in
      (
        subst (IsNumbered 1) actions (numbered-IsNumbered 1 (proposals spec source destination)),
        λ a k. proposals-IsPlanned spec source destination us ud a.proposal (
            Elem-numbered 1 (proposals spec source destination) a (subst (Elem a) (sym actions) k)),
      )
