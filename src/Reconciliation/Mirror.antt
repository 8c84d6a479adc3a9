-- ===== src/Reconciliation/Mirror.antt =====
-- Completion Reconciliation of a Mirror run (reconciliation.rs): every path of the two frozen
-- inventories, under the reviewed resolutions and deletions, and every path that is there now.
pub mod Invariant
use sync_plus.Base.{
  Bool, true, false, ◌&&◌, ◌||◌, not, Option, none, some, List, [], ◌∷◌, ◌++◌, map, find, any,
  is_some, is_some_and, if◌then◌else◌, ◌==◌, option_eq,
}
use sync_plus.Base.Tree.{set_extend}
use sync_plus.Path.{FilePath, path_eq, path_ord}
use sync_plus.Model.{
  SyncOptions, MetadataRequirements, AnalysisOutcome, excluded, unsupported, outcome_eq,
}
use sync_plus.Inventory.{
  InventoryItem, SourceInventory, inventory_item, InventorySnapshotItem, SourceInventorySnapshot,
  snapshot_lookup,
}
use sync_plus.MirrorEquality.{equal}
use sync_plus.Journal.{ActionJournalEntry}
use sync_plus.Finding.{
  ReconciliationReason, excluded_item, changed, unverifiable, Findings, push_reason, journal_reason,
  CompletionReconciliation, not_applicable,
}
use sync_plus.Conflict.{keep_peer_a, keep_peer_b}
use sync_plus.Resolution.{ConflictResolutionAction}
use sync_plus.MirrorDeletion.{
  MirrorDeletionResult, MirrorDeletionOutcome, completed, result_requires_review,
}
use sync_plus.Reconciliation.{FreshAnalysis, mirror_item_matches, path_journal, reconcile_new}

-- The first resolution of the path, whatever conflict entry it answers.
abbrev pub reviewed_resolution :
    List ConflictResolutionAction → FilePath → Option ConflictResolutionAction
reviewed_resolution resolutions path = find (λ action. action.relative_path == path) resolutions

-- `peer_a_expected`: a kept Peer B is what Peer A should hold now.
abbrev pub expected_a :
    Option ConflictResolutionAction
    → SourceInventorySnapshot
    → SourceInventorySnapshot
    → FilePath
    → Option InventorySnapshotItem
expected_a none a b path = snapshot_lookup a path
expected_a (some action) a b path = elim action.resolution [
  | keep_peer_b ↦ snapshot_lookup b path
  | _ ↦ snapshot_lookup a path
]

abbrev pub expected_b :
    Option ConflictResolutionAction
    → SourceInventorySnapshot
    → SourceInventorySnapshot
    → FilePath
    → Option InventorySnapshotItem
expected_b none a b path = snapshot_lookup b path
expected_b (some action) a b path = elim action.resolution [
  | keep_peer_a ↦ snapshot_lookup a path
  | _ ↦ snapshot_lookup b path
]

abbrev is_completed_deletion : MirrorDeletionOutcome → Bool
is_completed_deletion completed = true
is_completed_deletion _ = false

abbrev pub is_deleted : List MirrorDeletionResult → FilePath → Bool
is_deleted deletions path =
    any
      (λ result.
        result.relative_path == path
        && is_completed_deletion result.outcome
        && not (result_requires_review result))
      deletions

abbrev has_outcome : AnalysisOutcome → Option InventorySnapshotItem → Bool
has_outcome outcome item = is_some_and item (λ item. item.outcome == outcome)

-- The `match (peer_a_expected, peer_b_expected)`, given what the peers hold now.
unfoldable pub pair_reason :
    MetadataRequirements
    → Option InventorySnapshotItem
    → Option InventorySnapshotItem
    → Option InventoryItem
    → Option InventoryItem
    → Option ReconciliationReason
pair_reason m (some a) (some b) current_a current_b =
    let stable =
      is_some_and current_a (mirror_item_matches m a)
      && is_some_and current_b (mirror_item_matches m b) in
    if not stable || not (equal m a b) then some changed else none
pair_reason m (some a) none current_a current_b =
    let source_stable = is_some_and current_a (mirror_item_matches m a) in
    let destination_verified = is_some_and current_b (mirror_item_matches m a) in
    if not source_stable || not destination_verified then some unverifiable else none
pair_reason m none (some b) current_a current_b =
    let source_stable = is_some_and current_b (mirror_item_matches m b) in
    let destination_verified = is_some_and current_a (mirror_item_matches m b) in
    if not source_stable || not destination_verified then some unverifiable else none
pair_reason m none none current_a current_b = none

-- The body of the loop over the expected paths, from the values that it binds first.
unfoldable pub mirror_reason :
    MetadataRequirements
    → List ActionJournalEntry
    → Bool
    → Option InventorySnapshotItem
    → Option InventorySnapshotItem
    → Option InventoryItem
    → Option InventoryItem
    → Option ReconciliationReason
unfolding pair_reason
mirror_reason m entries deleted a b current_a current_b =
    if deleted
    then if is_some current_a || is_some current_b then some changed else none
    else if has_outcome excluded a || has_outcome excluded b
    then some excluded_item
    else if has_outcome unsupported a || has_outcome unsupported b
    then some unverifiable
    else elim (journal_reason entries) [
      | some reason ↦ some reason
      | none ↦ pair_reason m a b current_a current_b
    ]

module _ (m : MetadataRequirements) (a b : SourceInventorySnapshot) (current : FreshAnalysis)
    (journal : List ActionJournalEntry) (resolutions : List ConflictResolutionAction)
    (deletions : List MirrorDeletionResult) where
  unfoldable pub path_reason : FilePath → Option ReconciliationReason
  unfolding mirror_reason
  path_reason path =
      let reviewed = reviewed_resolution resolutions path in
      mirror_reason m (path_journal journal path) (is_deleted deletions path)
        (expected_a reviewed a b path) (expected_b reviewed a b path)
        (inventory_item current.source_inventory path)
        (inventory_item current.destination_inventory path)

  unfoldable pub reconcile_paths : List FilePath → Findings → Findings
  unfolding path_reason
  reconcile_paths [] findings = findings
  reconcile_paths (path ∷ paths) findings =
      reconcile_paths paths (push_reason findings path (path_reason path))

  abbrev pub all_paths : List FilePath
  all_paths = set_extend [] (
      map (λ (item : InventorySnapshotItem). item.relative_path) a.items
      ++ map (λ (item : InventorySnapshotItem). item.relative_path) b.items)

  -- `reconcile_mirror_with_resolutions_and_deletions`.
  unfoldable pub reconcile_mirror : CompletionReconciliation
  unfolding reconcile_paths reconcile_new
  reconcile_mirror = record {
    source_drain_status = not_applicable;
    findings =
        reconcile_new all_paths
          (current.source_inventory.items ++ current.destination_inventory.items)
          (reconcile_paths all_paths []);
  }
