-- ===== src/Plan/Check.antt =====
-- The summary of a plan of analysis.rs, its validation, and `build_plan`.
use native.Mathlib.Decide.{ℕ_discrete}
use sync_plus.Base.{
  ℕ, suc, ◌+◌, ◌%◌, ◌^◌, Bool, false, not, Option, none, some, List, [], ◌∷◌, ◌++◌, map, filter,
  contains, length, is_some_and, if◌then◌else◌, ◌==◌, ◌/=◌, Eq, Result, ok, err, ◌>>=◌, nat_eq,
}
use mathlib.Core.Option
use sync_plus.Base.Tree.{set_extend}
use sync_plus.Path.{FilePath, path_eq, path_ord}
use sync_plus.Model.{
  one_way, mirror, peer_a, peer_b, PlanActionKind, copy_to_destination, overwrite_destination,
  remove_destination, remove_source_after_verification, SyncOptions, type_eq, included, excluded,
  outcome_eq,
}
use sync_plus.Inventory.{
  InventoryItem, SourceInventory, ApprovedSyncScope, inventory_item, is_eligible,
}
use sync_plus.Plan.{
  ProcessSpecification, Proposal, PlanAction, plan_path, numbered, one_way_proposals,
  mirror_proposals,
}

pub record PlanSummary : Type 0 where
  pub considered_count : ℕ
  pub included_count : ℕ
  pub excluded_count : ℕ
  pub copy_count : ℕ
  pub overwrite_count : ℕ
  pub destination_removal_count : ℕ
  pub source_removal_count : ℕ
  pub copy_bytes : ℕ
  pub overwrite_bytes : ℕ
  pub destination_removal_bytes : ℕ
  pub source_removal_bytes : ℕ

PlanSummary-discrete : Discrete PlanSummary
PlanSummary-discrete = hlevel ℕ_discrete

instance unfoldable pub summary_eq : Eq PlanSummary
unfolding PlanSummary-discrete
summary_eq = record { dec = PlanSummary-discrete }

pub record OneWayPlan : Type 0 where
  pub specification : ProcessSpecification
  pub source_inventory : SourceInventory
  pub destination_inventory : SourceInventory
  pub approved_scope : ApprovedSyncScope
  pub actions : List PlanAction
  pub summary : PlanSummary

pub data PlanError : Type 0 where
  action_outside_approved_scope action_not_in_plan : FilePath → PlanError
  action_not_allowed : PlanActionKind → PlanError
  summary_mismatch : PlanError

abbrev pub add_bytes : ℕ → Option ℕ → ℕ
add_bytes bytes size = (bytes + Option.get_or size 0) % 2 ^ 64

abbrev pub count_action : PlanSummary → PlanActionKind → Option ℕ → PlanSummary
count_action s copy_to_destination size = record s {
  copy_count = suc s.copy_count;
  copy_bytes = add_bytes s.copy_bytes size;
}
count_action s overwrite_destination size = record s {
  overwrite_count = suc s.overwrite_count;
  overwrite_bytes = add_bytes s.overwrite_bytes size;
}
count_action s remove_destination size = record s {
  destination_removal_count = suc s.destination_removal_count;
  destination_removal_bytes = add_bytes s.destination_removal_bytes size;
}
count_action s remove_source_after_verification size = record s {
  source_removal_count = suc s.source_removal_count;
  source_removal_bytes = add_bytes s.source_removal_bytes size;
}

abbrev pub count_actions : PlanSummary → List PlanAction → PlanSummary
count_actions s [] = s
count_actions s (a ∷ actions) =
    count_actions (count_action s a.proposal.kind a.proposal.size) actions

abbrev pub empty_summary : ℕ → ApprovedSyncScope → PlanSummary
empty_summary considered scope = record {
  considered_count = considered;
  included_count = length scope.included_paths;
  excluded_count = length scope.excluded_paths;
  copy_count = 0;
  overwrite_count = 0;
  destination_removal_count = 0;
  source_removal_count = 0;
  copy_bytes = 0;
  overwrite_bytes = 0;
  destination_removal_bytes = 0;
  source_removal_bytes = 0;
}

unfoldable pub summary_for : List PlanAction → SourceInventory → PlanSummary
summary_for actions source =
    count_actions (empty_summary (length source.items) source.approved_scope) actions

abbrev outcome_paths : SourceInventory → SourceInventory → (InventoryItem → Bool) → List FilePath
outcome_paths a b p =
    set_extend (set_extend [] (map plan_path (filter p a.items))) (map plan_path (filter p b.items))

unfoldable pub mirror_approved_scope : SourceInventory → SourceInventory → ApprovedSyncScope
mirror_approved_scope a b =
    let included_paths = outcome_paths a b (λ item. item.outcome == included) in
    record {
      included_paths = included_paths;
      excluded_paths =
          filter (λ path. not (contains included_paths path))
            (outcome_paths a b (λ item. item.outcome == excluded));
    }

unfoldable pub mirror_summary_for :
    List PlanAction → SourceInventory → SourceInventory → PlanSummary
unfolding mirror_approved_scope
mirror_summary_for actions a b =
    count_actions
      (empty_summary (length (set_extend [] (map plan_path a.items ++ map plan_path b.items)))
        (mirror_approved_scope a b))
      actions

abbrev pub checked_inventory : OneWayPlan → PlanAction → SourceInventory
checked_inventory plan action = elim plan.specification.mode [
  | one_way ↦ plan.source_inventory
  | mirror ↦ elim action.proposal.source_side [
    | peer_a ↦ plan.source_inventory
    | peer_b ↦ plan.destination_inventory
  ]
]

abbrev pub is_forbidden : SyncOptions → PlanActionKind → Bool
is_forbidden options remove_destination = not options.destination_cleanup
is_forbidden options remove_source_after_verification = not options.safe_delete
is_forbidden options _ = false

-- The body of the loop of `validate`.
unfoldable pub action_error : OneWayPlan → PlanAction → Option PlanError
action_error plan action =
    if is_some_and (inventory_item (checked_inventory plan action) action.proposal.relative_path)
      (λ item. not (is_eligible item))
    then some (action_outside_approved_scope action.proposal.relative_path)
    else if is_forbidden plan.specification.options action.proposal.kind
    then some (action_not_allowed action.proposal.kind)
    else none

unfoldable pub first_error : OneWayPlan → List PlanAction → Option PlanError
unfolding action_error
first_error plan [] = none
first_error plan (a ∷ actions) = elim (action_error plan a) [
  | some e ↦ some e
  | none ↦ first_error plan actions
]

abbrev pub expected_summary : OneWayPlan → PlanSummary
expected_summary plan = elim plan.specification.mode [
  | mirror ↦ mirror_summary_for plan.actions plan.source_inventory plan.destination_inventory
  | one_way ↦ summary_for plan.actions plan.source_inventory
]

unfoldable pub validate : OneWayPlan → Result PlanError (Unit {0})
unfolding first_error summary_for mirror_summary_for
validate plan = elim (first_error plan plan.actions) [
  | some e ↦ err e
  | none ↦ if expected_summary plan /= plan.summary then err summary_mismatch else ok tt
]

abbrev pub proposals : ProcessSpecification → SourceInventory → SourceInventory → List Proposal
proposals spec source destination = elim spec.mode [
  | mirror ↦ mirror_proposals source destination
  | one_way ↦ one_way_proposals spec source destination
]

abbrev pub proposed_plan : ProcessSpecification → SourceInventory → SourceInventory → OneWayPlan
proposed_plan spec source destination =
    let actions = numbered 1 (proposals spec source destination) in
    record {
      specification = spec;
      source_inventory = source;
      destination_inventory = destination;
      approved_scope = elim spec.mode [
        | mirror ↦ mirror_approved_scope source destination
        | one_way ↦ source.approved_scope
      ];
      actions = actions;
      summary = elim spec.mode [
        | mirror ↦ mirror_summary_for actions source destination
        | one_way ↦ summary_for actions source
      ];
    }

unfoldable pub build_plan :
    ProcessSpecification → SourceInventory → SourceInventory → Result PlanError OneWayPlan
unfolding validate one_way_proposals mirror_proposals
build_plan spec source destination =
    let plan = proposed_plan spec source destination in validate plan >>= λ _. ok plan
