-- ===== src/Analysis/Transfer.antt =====
-- The transfer plan of a conflict resolution (`resolution_transfer_plan` of analysis.rs).
pub mod Steps
pub mod Copies
use sync_plus.Base.{
  ℕ, suc, Bool, true, false, Option, none, some, List, [], ◌∷◌, ◌++◌, if◌then◌else◌, Result, ok,
  err, panicked, map_err, ◌>>=◌, ◌>>◌,
}
use sync_plus.Path.{FilePath, path_eq}
use sync_plus.Model.{PeerSide, peer_a, peer_b, copy_to_destination}
use sync_plus.Inventory.{InventoryItem, SourceInventory, inventory_item, is_eligible}
use sync_plus.Resolution.{ConflictResolutionAction, ResolutionOperation, copy_whole_file}
use sync_plus.Plan.{PlanAction, data_size}
use sync_plus.Plan.Check.{
  OneWayPlan, action_not_in_plan, action_outside_approved_scope, mirror_approved_scope,
  mirror_summary_for, validate,
}
use sync_plus.Analysis.{AnalysisError, plan_error}
use sync_plus.Analysis.Fresh.{FreshAnalysis, plan_specification}

abbrev pub inventory_on : FreshAnalysis → PeerSide → SourceInventory
inventory_on analysis peer_a = analysis.source_inventory
inventory_on analysis peer_b = analysis.destination_inventory

abbrev pub transfer_of : ℕ → FilePath → PeerSide → InventoryItem → PlanAction
transfer_of action_id path side item = record {
  action_id = action_id;
  proposal = record {
    relative_path = path;
    kind = copy_to_destination;
    source_side = side;
    size = data_size item;
  };
}

-- The copy of the item that the side has at the path, if it was included.
abbrev pub item_transfer :
    ℕ → FilePath → PeerSide → Option InventoryItem → Result AnalysisError (List PlanAction)
item_transfer action_id path side none = err (plan_error (action_not_in_plan path))
item_transfer action_id path side (some item) =
    if is_eligible item
    then ok (transfer_of action_id path side item ∷ [])
    else err (plan_error (action_outside_approved_scope path))

abbrev pub side_transfer :
    FreshAnalysis → ℕ → FilePath → Option PeerSide → Result AnalysisError (List PlanAction)
side_transfer analysis action_id path none = err (plan_error (action_not_in_plan path))
side_transfer analysis action_id path (some side) =
    item_transfer action_id path side (inventory_item (inventory_on analysis side) path)

-- Only whole-file copies are transferred.
abbrev pub operation_transfer :
    FreshAnalysis
    → ℕ
    → ResolutionOperation
    → FilePath
    → Option PeerSide
    → Result AnalysisError (List PlanAction)
operation_transfer analysis action_id copy_whole_file path source_side =
    side_transfer analysis action_id path source_side
operation_transfer analysis action_id _ path source_side = ok []

-- The body of the loop.
abbrev pub transfer_step :
    FreshAnalysis → ℕ → ConflictResolutionAction → Result AnalysisError (List PlanAction)
transfer_step analysis index action =
    operation_transfer analysis (suc index) action.operation action.relative_path action.source_side

unfoldable pub transfers :
    FreshAnalysis → ℕ → List ConflictResolutionAction → Result AnalysisError (List PlanAction)
transfers analysis index [] = ok []
transfers analysis index (action ∷ actions) = do
  step ← transfer_step analysis index action
  rest ← transfers analysis (suc index) actions
  ok (step ++ rest)

abbrev pub transfer_plan : FreshAnalysis → List PlanAction → OneWayPlan
transfer_plan analysis actions =
    let source = analysis.source_inventory in
    let destination = analysis.destination_inventory in
    record {
      specification = plan_specification analysis.specification;
      source_inventory = source;
      destination_inventory = destination;
      approved_scope = mirror_approved_scope source destination;
      actions = actions;
      summary = mirror_summary_for actions source destination;
    }

unfoldable pub resolution_transfer_plan :
    FreshAnalysis → List ConflictResolutionAction → Result AnalysisError OneWayPlan
unfolding transfers validate mirror_approved_scope mirror_summary_for
resolution_transfer_plan analysis actions = do
  plan_actions ← transfers analysis 0 actions
  map_err plan_error (validate (transfer_plan analysis plan_actions))
  ok (transfer_plan analysis plan_actions)
