-- ===== src/Analysis/Transfer/Steps.antt =====
-- What each step of a resolution's transfer gives.
use sync_plus.Base.{
  ℕ, suc, true, Option, none, some, List, [], ◌∷◌, ◌++◌, Elem, Elem-append, All, inl, inr, ◌≡◌, ◌≢◌,
  ◌⊎◌, refl, sym, subst, arith, Bool-cases, ok, bind_ok, ok-injective,
}
use sync_plus.Path.{FilePath}
use sync_plus.Model.{PeerSide}
use sync_plus.Inventory.{InventoryItem, inventory_item, is_eligible}
use sync_plus.Resolution.{
  ConflictResolutionAction, ResolutionOperation, copy_whole_file, keep_both, rename_for_review,
  deferred,
}
use sync_plus.Plan.{PlanAction}
use sync_plus.Plan.Check.{summary_eq}
use sync_plus.Analysis.Fresh.{FreshAnalysis}
use sync_plus.Analysis.Transfer.{
  inventory_on, transfer_of, item_transfer, side_transfer, operation_transfer, transfer_step,
  transfers,
}

pub copying : (op : ResolutionOperation) → (op ≡ copy_whole_file) ⊎ (op ≢ copy_whole_file)
copying copy_whole_file = inl refl
copying keep_both = inr (λ e. cc)
copying rename_for_review = inr (λ e. cc)
copying deferred = inr (λ e. cc)

only_element : {A : Type 0} (t x : A) (xs : List A) → xs ≡ t ∷ [] → Elem x xs → t ≡ x
only_element t x xs same k = elim (subst (Elem x) same k) [ inl e ↦ e | inr absent ↦ absurd absent ]

module _ (analysis : FreshAnalysis) where
  -- The side includes an item at the path.
  abbrev pub HasItem : FilePath → PeerSide → InventoryItem → Type 0
  HasItem path side item =
      (inventory_item (inventory_on analysis side) path ≡ some item) × (is_eligible item ≡ true)

  abbrev IsCopyable : FilePath → Option PeerSide → Type 0
  IsCopyable path source_side =
      (side : PeerSide) × (source_side ≡ some side)
      × ((item : InventoryItem) × HasItem path side item)

  -- A whole-file copy names a side that includes an item at its path.
  abbrev pub CanCopy : ConflictResolutionAction → Type 0
  CanCopy action =
      action.operation ≡ copy_whole_file → IsCopyable action.relative_path action.source_side

  -- The planned action copies the item of the action's side at its path.
  pub record IsTransfer (action : ConflictResolutionAction) (x : PlanAction) : Type 0 where
    pub copies : action.operation ≡ copy_whole_file
    pub side : PeerSide
    from_side : action.source_side ≡ some side
    pub item : InventoryItem
    pub found : inventory_item (inventory_on analysis side) action.relative_path ≡ some item
    pub eligible : is_eligible item ≡ true
    pub planned : x ≡ transfer_of x.action_id action.relative_path side item

  -- What a step that succeeds gives.
  abbrev StepIs : ℕ → FilePath → Option PeerSide → List PlanAction → Type 0
  StepIs action_id path source_side step =
      (side : PeerSide) × (source_side ≡ some side)
      × ((item : InventoryItem) × HasItem path side item
          × (step ≡ transfer_of action_id path side item ∷ []))

  item_transfer_ok :
      (action_id : ℕ) (path : FilePath) (side : PeerSide) (o : Option InventoryItem)
      (step : List PlanAction)
      → item_transfer action_id path side o ≡ ok step
      → (item : InventoryItem) × (o ≡ some item)
        × (is_eligible item ≡ true)
        × (step ≡ transfer_of action_id path side item ∷ [])
  item_transfer_ok action_id path side none step h = absurd (cc)
  item_transfer_ok action_id path side (some item) step h = elim (Bool-cases (is_eligible item)) [
    | inl e ↦ (item, refl, e, sym (ok-injective (rw e at h)))
    | inr e ↦ absurd (ground (arith, e))
  ]

  side_transfer_ok :
      (action_id : ℕ) (path : FilePath) (source_side : Option PeerSide) (step : List PlanAction)
      → side_transfer analysis action_id path source_side ≡ ok step
      → StepIs action_id path source_side step
  side_transfer_ok action_id path none step h = absurd (cc)
  side_transfer_ok action_id path (some side) step h =
      let (item, found, eligible, same) =
        item_transfer_ok action_id path side (inventory_item (inventory_on analysis side) path) step
          h in
      (side, refl, (item, (found, eligible), same))

  side_transfer_if :
      (action_id : ℕ) (path : FilePath) (source_side : Option PeerSide)
      → IsCopyable path source_side
      → (step : List PlanAction) × (side_transfer analysis action_id path source_side ≡ ok step)
  side_transfer_if action_id path source_side (side, named, (item, (found, eligible))) =
      (transfer_of action_id path side item ∷ [], rw (named, found, eligible) refl)

  operation_transfer_ok :
      (action_id : ℕ) (operation : ResolutionOperation) (path : FilePath)
      (source_side : Option PeerSide) (step : List PlanAction)
      → operation_transfer analysis action_id operation path source_side ≡ ok step
      → (operation ≡ copy_whole_file → StepIs action_id path source_side step)
        × (operation ≢ copy_whole_file → step ≡ [])
  operation_transfer_ok action_id copy_whole_file path source_side step h =
      (λ e. side_transfer_ok action_id path source_side step h, λ n. absurd (n refl))
  operation_transfer_ok action_id keep_both path source_side step h =
      (λ e. absurd (cc), λ n. sym (ok-injective h))
  operation_transfer_ok action_id rename_for_review path source_side step h =
      (λ e. absurd (cc), λ n. sym (ok-injective h))
  operation_transfer_ok action_id deferred path source_side step h =
      (λ e. absurd (cc), λ n. sym (ok-injective h))

  operation_transfer_if :
      (action_id : ℕ) (operation : ResolutionOperation) (path : FilePath)
      (source_side : Option PeerSide)
      → (operation ≡ copy_whole_file → IsCopyable path source_side)
      → (step : List PlanAction) × (operation_transfer analysis action_id operation path source_side
          ≡ ok step)
  operation_transfer_if action_id copy_whole_file path source_side h =
      side_transfer_if action_id path source_side (h refl)
  operation_transfer_if action_id keep_both path source_side h = ([], refl)
  operation_transfer_if action_id rename_for_review path source_side h = ([], refl)
  operation_transfer_if action_id deferred path source_side h = ([], refl)

  pub transfers_if :
      (index : ℕ) (actions : List ConflictResolutionAction)
      → All CanCopy actions
      → (found : List PlanAction) × (transfers analysis index actions ≡ ok found)
  unfolding transfers
  transfers_if index [] h = ([], refl)
  transfers_if index (action ∷ actions) (h, hs) =
      let (step, stepped) =
        operation_transfer_if (suc index) action.operation action.relative_path action.source_side
          h in
      let (rest, rested) = transfers_if (suc index) actions hs in
      (step ++ rest, rw (stepped, rested) refl)

  pub transfers_only :
      (index : ℕ) (actions : List ConflictResolutionAction) (found : List PlanAction)
      → transfers analysis index actions ≡ ok found
      → All CanCopy actions
  unfolding transfers
  transfers_only index [] found h = tt
  transfers_only index (action ∷ actions) found h =
      let (step, stepped, h1) = bind_ok (transfer_step analysis index action) _ h in
      let (rest, rested, h2) = bind_ok (transfers analysis (suc index) actions) _ h1 in
      let is =
        operation_transfer_ok (suc index) action.operation action.relative_path action.source_side
          step stepped in
      (
        λ e. let (side, named, (item, has, same)) = is.0 e in (side, named, (item, has)),
        transfers_only (suc index) actions rest rested,
      )

  step-IsTransfer :
      (index : ℕ) (action : ConflictResolutionAction) (step : List PlanAction)
      → transfer_step analysis index action ≡ ok step
      → (x : PlanAction) → Elem x step
      → IsTransfer action x
  step-IsTransfer index action step h x k =
      let is =
        operation_transfer_ok (suc index) action.operation action.relative_path action.source_side
          step h in
      elim (copying action.operation) [
        | inr n ↦ absurd (subst (Elem x) (is.1 n) k)
        | inl e ↦
            let (side, named, (item, (found, eligible), same)) = is.0 e in
            let t : transfer_of (suc index) action.relative_path side item ≡ x =
              only_element _ x step same k in
            record {
              copies = e;
              side = side;
              from_side = named;
              item = item;
              found = found;
              eligible = eligible;
              planned =
                  subst (λ y. y ≡ transfer_of y.action_id action.relative_path side item) t refl;
            }
      ]

  pub transfers-IsTransfer :
      (index : ℕ) (actions : List ConflictResolutionAction) (found : List PlanAction)
      → transfers analysis index actions ≡ ok found
      → (x : PlanAction) → Elem x found
      → (action : ConflictResolutionAction) × Elem action actions × IsTransfer action x
  unfolding transfers
  transfers-IsTransfer index [] found h x k = absurd (subst (Elem x) (sym (ok-injective h)) k)
  transfers-IsTransfer index (action ∷ actions) found h x k =
      let (step, stepped, h1) = bind_ok (transfer_step analysis index action) _ h in
      let (rest, rested, h2) = bind_ok (transfers analysis (suc index) actions) _ h1 in
      elim (Elem-append x step rest (subst (Elem x) (sym (ok-injective h2)) k)) [
        | inl in_step ↦ (action, inl refl, step-IsTransfer index action step stepped x in_step)
        | inr in_rest ↦
            let (other, there, is) =
              transfers-IsTransfer (suc index) actions rest rested x in_rest in
            (other, inr there, is)
      ]
