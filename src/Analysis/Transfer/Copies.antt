-- ===== src/Analysis/Transfer/Copies.antt =====
-- What a resolution's transfer plan copies, and when there is one.
use sync_plus.Base.{
  ℕ, false, none, List, [], ◌∷◌, Elem, All, inl, inr, ◌≡◌, ◌↔◌, refl, sym, subst, arith, ◌/=◌, ok,
  map_err, bind_ok, ok-injective,
}
use sync_plus.Path.{FilePath}
use sync_plus.Model.{mirror, PeerSide, peer_a, peer_b}
use sync_plus.Inventory.{InventoryItem}
use sync_plus.Resolution.{ConflictResolutionAction}
use sync_plus.Plan.{PlanAction}
use sync_plus.Plan.Check.{
  OneWayPlan, PlanSummary, summary_eq, validate, action_error, first_error, checked_inventory,
  expected_summary,
}
use sync_plus.Plan.Valid.{validate_ok}
use sync_plus.Analysis.{plan_error}
use sync_plus.Analysis.Fresh.{FreshAnalysis}
use sync_plus.Analysis.Transfer.Steps.{
  HasItem, CanCopy, IsTransfer, transfers_if, transfers_only, transfers-IsTransfer,
}
use sync_plus.Analysis.Transfer.{
  inventory_on, transfer_of, transfers, transfer_plan, resolution_transfer_plan,
}

no_difference : (s : PlanSummary) → (s /= s) ≡ false
no_difference s = ground arith

module _ (analysis : FreshAnalysis) where
  checked_inventory-on :
      (found : List PlanAction) (id : ℕ) (path : FilePath) (side : PeerSide) (item : InventoryItem)
      → analysis.specification.mode ≡ mirror
      → checked_inventory (transfer_plan analysis found) (transfer_of id path side item)
        ≡ inventory_on analysis side
  checked_inventory-on found id path peer_a item m = rw m refl
  checked_inventory-on found id path peer_b item m = rw m refl

  -- The plan's validation accepts transfers.
  action_error-transfer_of :
      (found : List PlanAction) (id : ℕ) (path : FilePath) (side : PeerSide) (item : InventoryItem)
      → analysis.specification.mode ≡ mirror
      → HasItem analysis path side item
      → action_error (transfer_plan analysis found) (transfer_of id path side item) ≡ none
  unfolding action_error
  action_error-transfer_of found id path side item m (at, eligible) =
      rw (checked_inventory-on found id path side item m, at, eligible) refl

  first_error-none :
      (found xs : List PlanAction)
      → analysis.specification.mode ≡ mirror
      → ((x : PlanAction)
          → Elem x xs
          → (action : ConflictResolutionAction) × IsTransfer analysis action x)
      → first_error (transfer_plan analysis found) xs ≡ none
  unfolding first_error
  first_error-none found [] m h = refl
  first_error-none found (x ∷ xs) m h =
      let is = (h x (inl refl)).1 in
      let accepted : action_error (transfer_plan analysis found) x ≡ none =
        subst (λ y. action_error (transfer_plan analysis found) y ≡ none) (sym is.planned)
          (action_error-transfer_of found x.action_id _ is.side is.item m
            (is.found, is.eligible)) in
      rw (first_error, accepted) (first_error-none found xs m (λ y k. h y (inr k)))

  same_summary :
      (found : List PlanAction)
      → analysis.specification.mode ≡ mirror
      → (expected_summary (transfer_plan analysis found) /= (transfer_plan analysis found).summary)
        ≡ false
  same_summary found m = rw m (no_difference (transfer_plan analysis found).summary)

  -- Every action of a resolution's transfer plan comes from a whole-file copy of the resolution, and
  -- copies the item that the action's side includes at the action's path.
  resolution_transfer_plan-IsTransfer :
      (actions : List ConflictResolutionAction) (plan : OneWayPlan)
      → resolution_transfer_plan analysis actions ≡ ok plan
      → (x : PlanAction) → Elem x plan.actions
      → (action : ConflictResolutionAction) × Elem action actions × IsTransfer analysis action x
  unfolding resolution_transfer_plan
  resolution_transfer_plan-IsTransfer actions plan h x k =
      let (found, transferred, h1) = bind_ok (transfers analysis 0 actions) _ h in
      let (t, valid, made) =
        bind_ok (map_err plan_error (validate (transfer_plan analysis found))) _ h1 in
      transfers-IsTransfer analysis 0 actions found transferred x
        (subst (λ (p : OneWayPlan). Elem x p.actions) (sym (ok-injective made)) k)

  -- A Mirror resolution has a transfer plan exactly if each of its whole-file copies names a side that
  -- includes an item at its path: the plan's own validation never refuses it.
  pub resolution_transfer_plan_iff :
      (actions : List ConflictResolutionAction)
      → analysis.specification.mode ≡ mirror
      → ((plan : OneWayPlan) × (resolution_transfer_plan analysis actions ≡ ok plan))
        ↔ All (CanCopy analysis) actions
  unfolding resolution_transfer_plan
  resolution_transfer_plan_iff actions m = (
    λ (plan, h).
        let (found, transferred, h1) = bind_ok (transfers analysis 0 actions) _ h in
        transfers_only analysis 0 actions found transferred,
    λ can.
        let (found, transferred) = transfers_if analysis 0 actions can in
        let valid : validate (transfer_plan analysis found) ≡ ok tt =
          validate_ok (transfer_plan analysis found)
            (first_error-none found found m (λ x k.
              let (action, there, is) =
                transfers-IsTransfer analysis 0 actions found transferred x k in
              (action, is)))
            (same_summary found m) in
        (transfer_plan analysis found, rw (transferred, valid) refl),
  )
