-- ===== src/MirrorDeletion.antt =====
-- Deletion in a Mirror (mirror_deletion.rs): candidates from a two-sided baseline, one reviewed
-- decision for each, a final confirmation, and the outcome of each action.
pub mod Candidates
pub mod Accepted
pub mod Resolve
pub mod Authorized
use sync_plus.Base.{
  Bool, true, false, ◌&&◌, ◌||◌, not, Option, none, some, List, [], ◌∷◌, ◌++◌, map, filter, find,
  any, contains, if◌then◌else◌, ◌==◌, Result, ok, err, panicked,
}
use sync_plus.Base.Keyed.{collect_by}
use sync_plus.Base.Order.{sort_by}
use sync_plus.Base.Tree.{map_get, set_extend, set_insert}
use sync_plus.Path.{FilePath, path_eq, path_ord}
use sync_plus.Model.{PeerSide, peer_a, peer_b, included, outcome_eq, MetadataRequirements}
use sync_plus.Inventory.{InventorySnapshotItem, SourceInventorySnapshot}
use sync_plus.Baseline.{
  SyncBaselineItemState, from_snapshot, state_equal, SyncBaselineItem, SyncBaseline,
}
use sync_plus.Baseline.Recorded.{snapshot_path}

pub data MirrorDeletionChoice : Type 0 where
  delete_counterpart preserve_remaining defer : MirrorDeletionChoice

pub record MirrorDeletionDecision : Type 0 where
  pub relative_path : FilePath
  pub choice : MirrorDeletionChoice

pub record MirrorDeletionEvidence : Type 0 where
  pub baseline_missing_state : SyncBaselineItemState
  pub baseline_remaining_state : SyncBaselineItemState
  pub current_remaining_state : SyncBaselineItemState

pub record MirrorDeletionCandidate : Type 0 where
  pub relative_path : FilePath
  pub missing_peer : PeerSide
  pub affected_peer : PeerSide
  pub evidence : MirrorDeletionEvidence

pub data MirrorDeletionError : Type 0 where
  missing_decision unknown_candidate duplicate_decision : FilePath → MirrorDeletionError
  final_confirmation_required : MirrorDeletionError

-- `current_items`: every item by path, whatever its outcome.
abbrev pub current_items : SourceInventorySnapshot → List (FilePath × InventorySnapshotItem)
current_items peer = collect_by snapshot_path peer.items []

-- The `match (item_a, item_b)` of `deletion_candidates`.
unfoldable pub candidate_between :
    MetadataRequirements
    → FilePath
    → SyncBaselineItemState
    → SyncBaselineItemState
    → Option InventorySnapshotItem
    → Option InventorySnapshotItem
    → Option MirrorDeletionCandidate
candidate_between m path base_a base_b none (some b) =
    if b.outcome == included && state_equal m base_b (from_snapshot b)
    then some (record {
      relative_path = path;
      missing_peer = peer_a;
      affected_peer = peer_b;
      evidence = record {
        baseline_missing_state = base_a;
        baseline_remaining_state = base_b;
        current_remaining_state = from_snapshot b;
      };
    })
    else none
candidate_between m path base_a base_b (some a) none =
    if a.outcome == included && state_equal m base_a (from_snapshot a)
    then some (record {
      relative_path = path;
      missing_peer = peer_b;
      affected_peer = peer_a;
      evidence = record {
        baseline_missing_state = base_b;
        baseline_remaining_state = base_a;
        current_remaining_state = from_snapshot a;
      };
    })
    else none
candidate_between m path base_a base_b _ _ = none

-- The body of the loop over the baseline's items.
unfoldable pub candidate_of :
    MetadataRequirements
    → List (FilePath × InventorySnapshotItem)
    → List (FilePath × InventorySnapshotItem)
    → SyncBaselineItem
    → Option MirrorDeletionCandidate
unfolding candidate_between
candidate_of m current_a current_b item = elim item.peer_a [
  | none ↦ none
  | some base_a ↦ elim item.peer_b [
    | none ↦ none
    | some base_b ↦
        if state_equal m base_a base_b
        then candidate_between m item.relative_path base_a base_b
            (map_get item.relative_path current_a) (map_get item.relative_path current_b)
        else none
  ]
]

unfoldable pub candidates_from :
    MetadataRequirements
    → List (FilePath × InventorySnapshotItem)
    → List (FilePath × InventorySnapshotItem)
    → List SyncBaselineItem
    → List MirrorDeletionCandidate
unfolding candidate_of
candidates_from m current_a current_b [] = []
candidates_from m current_a current_b (item ∷ items) =
    let rest = candidates_from m current_a current_b items in
    elim (candidate_of m current_a current_b item) [ none ↦ rest | some c ↦ c ∷ rest ]

-- `deletion_candidates`, and `deletion_review`, which wraps them.
unfoldable pub deletion_candidates :
    SyncBaseline → SourceInventorySnapshot → SourceInventorySnapshot → List MirrorDeletionCandidate
unfolding candidates_from
deletion_candidates baseline a b =
    candidates_from baseline.metadata (current_items a) (current_items b) baseline.items

pub data MirrorDeletionOutcome : Type 0 where
  completed failed_preserved deferred : MirrorDeletionOutcome

pub record MirrorDeletionResult : Type 0 where
  pub relative_path : FilePath
  pub affected_peer : PeerSide
  pub outcome : MirrorDeletionOutcome
  pub preserves_remaining_copy : Bool
  pub mirror_invariant_restored : Bool

-- `MirrorDeletionResult::requires_review`.
abbrev pub result_requires_review : MirrorDeletionResult → Bool
result_requires_review result = not result.mirror_invariant_restored

pub record MirrorDeletionAction : Type 0 where
  pub candidate : MirrorDeletionCandidate
  pub choice : MirrorDeletionChoice

abbrev pub mutates_files : MirrorDeletionAction → Bool
mutates_files action = elim action.choice [ delete_counterpart ↦ true | _ ↦ false ]

unfoldable pub failed_preserving_remaining : MirrorDeletionAction → MirrorDeletionResult
failed_preserving_remaining action = record {
  relative_path = action.candidate.relative_path;
  affected_peer = action.candidate.affected_peer;
  outcome = failed_preserved;
  preserves_remaining_copy = true;
  mirror_invariant_restored = false;
}

-- `MirrorDeletionAction::completed`.
unfoldable pub complete : MirrorDeletionAction → MirrorDeletionResult
complete action =
    if not (mutates_files action)
    then record {
      relative_path = action.candidate.relative_path;
      affected_peer = action.candidate.affected_peer;
      outcome = deferred;
      preserves_remaining_copy = true;
      mirror_invariant_restored = false;
    }
    else record {
      relative_path = action.candidate.relative_path;
      affected_peer = action.candidate.affected_peer;
      outcome = completed;
      preserves_remaining_copy = false;
      mirror_invariant_restored = true;
    }

abbrev pub action_path : MirrorDeletionAction → FilePath
action_path action = action.candidate.relative_path

abbrev pub candidate_path : MirrorDeletionCandidate → FilePath
candidate_path candidate = candidate.relative_path

abbrev pub candidate_for : List MirrorDeletionCandidate → FilePath → Option MirrorDeletionCandidate
candidate_for candidates path = find (λ candidate. candidate.relative_path == path) candidates

-- The loop of `resolve` over the decisions, with the set `seen` and the actions so far.
unfoldable pub resolve_loop :
    List MirrorDeletionCandidate
    → List FilePath
    → List FilePath
    → List MirrorDeletionAction
    → List MirrorDeletionDecision
    → Result MirrorDeletionError (List FilePath × List MirrorDeletionAction)
resolve_loop candidates expected seen actions [] = ok (seen, actions)
resolve_loop candidates expected seen actions (decision ∷ decisions) =
    if not (contains expected decision.relative_path)
    then err (unknown_candidate decision.relative_path)
    else if contains seen decision.relative_path
    then err (duplicate_decision decision.relative_path)
    else elim (candidate_for candidates decision.relative_path) [
      | none ↦ panicked
      | some candidate ↦
          resolve_loop candidates expected (set_insert decision.relative_path seen)
            (actions ++ (record { candidate = candidate; choice = decision.choice } ∷ [])) decisions
    ]

-- `MirrorDeletionReview::resolve`: the actions of the plan.
unfoldable pub resolve :
    List MirrorDeletionCandidate
    → List MirrorDeletionDecision
    → Result MirrorDeletionError (List MirrorDeletionAction)
unfolding resolve_loop
resolve candidates decisions =
    let expected = set_extend [] (map candidate_path candidates) in
    elim (resolve_loop candidates expected [] [] decisions) [
      | err e ↦ err e
      | panicked ↦ panicked
      | ok (seen, actions) ↦ elim (find (λ path. not (contains seen path)) expected) [
        | some path ↦ err (missing_decision path)
        | none ↦ ok (sort_by action_path actions)
      ]
    ]

-- `MirrorDeletionPlan::confirm`: the same actions behind the confirmation.
unfoldable pub confirm :
    List MirrorDeletionAction → Bool → Result MirrorDeletionError (List MirrorDeletionAction)
confirm actions final_confirmation =
    if not final_confirmation then err final_confirmation_required else ok actions

abbrev pub deletion_actions : List MirrorDeletionAction → List MirrorDeletionAction
deletion_actions = filter mutates_files

abbrev pub plan_requires_review : List MirrorDeletionAction → Bool
plan_requires_review = any (λ action. not (mutates_files action))
