-- ===== src/Reconciliation.antt =====
-- Completion Reconciliation of a One-Way run (reconciliation.rs): each item of the frozen inventory
-- and each item that is there now is settled or becomes a finding.
pub mod Drain
pub mod Drained
pub mod Mirror
use sync_plus.Base.{
  Bool, true, false, ◌&&◌, ◌||◌, not, Option, none, some, List, [], ◌∷◌, map, filter, any, contains,
  is_none, is_some, is_some_and, is_empty, if◌then◌else◌, ◌==◌, ◌/=◌, nat_eq, text_eq, option_eq,
  bool_eq,
}
use sync_plus.Base.Int.{int_eq}
use sync_plus.Base.Tree.{set_extend}
use sync_plus.Path.{FilePath, path_eq, path_ord}
use sync_plus.Model.{
  SyncOptions, MetadataRequirements, ItemType, regular_file, symlink, type_eq, included, excluded,
  unsupported, outcome_eq, remove_source_after_verification, remove_destination, action_kind_eq,
}
use sync_plus.Inventory.{
  InventoryItem, SourceInventory, inventory_item, InventorySnapshotItem, SourceInventorySnapshot,
  executable_bits, unix_nanos, snapshot_item,
}
use sync_plus.MirrorEquality.{equal}
use sync_plus.Journal.{ActionJournalEntry, RecoveryEvidence, is_completed}
use sync_plus.Finding.{
  ReconciliationReason, unexplained, excluded_item, newly_appeared, changed, unavailable,
  unverifiable, Findings, push_reason, push_unique, journal_reason, CompletionReconciliation,
  SourceDrainStatus, not_applicable, drained, not_empty,
}

-- The two inventories of a `FreshAnalysis`; its plan and its revision play no part here.
pub record FreshAnalysis : Type 0 where
  pub source_inventory : SourceInventory
  pub destination_inventory : SourceInventory

unfoldable pub source_matches_snapshot :
    MetadataRequirements → InventorySnapshotItem → InventoryItem → Bool
source_matches_snapshot m expected current =
    if expected.item_type /= current.item_type
      || expected.outcome /= current.outcome
      || expected.size /= current.metadata.size
      || expected.readonly /= current.metadata.readonly
      || executable_bits expected.permissions /= executable_bits current.metadata.permissions
      || expected.symlink_target /= current.metadata.symlink_target
      || expected.content_fingerprint /= current.content_fingerprint
    then false
    else if m.timestamps
    then expected.modified_at_unix_nanos == unix_nanos current.metadata.modified_at
    else true

-- `mirror_item_matches`, which `destination_matches_source` calls.
abbrev pub mirror_item_matches : MetadataRequirements → InventorySnapshotItem → InventoryItem → Bool
mirror_item_matches m expected current = equal m expected (snapshot_item current)

unfoldable pub removal_evidence_matches : InventorySnapshotItem → RecoveryEvidence → Bool
removal_evidence_matches expected evidence =
    evidence.destination_present
    && evidence.destination_size == some expected.size
    && (is_none expected.content_fingerprint
        || evidence.destination_sha256 == expected.content_fingerprint)

abbrev pub path_journal : List ActionJournalEntry → FilePath → List ActionJournalEntry
path_journal journal path = filter (λ entry. entry.plan.relative_path == path) journal

-- The test of `removal_verified`, on one entry.
abbrev pub proves_removal : InventorySnapshotItem → ActionJournalEntry → Bool
proves_removal expected entry =
    entry.plan.operation == remove_source_after_verification
    && is_completed entry.outcome
    && is_some_and entry.removal_result
        (λ result. removal_evidence_matches expected result.evidence)

abbrev pub removal_required : ItemType → Bool
removal_required item_type = item_type == regular_file || item_type == symlink

-- The end of the loop's body, after the checks that `continue`.
unfoldable pub settled_reason :
    SyncOptions → ItemType → Bool → Bool → Bool → Option ReconciliationReason
settled_reason options item_type source_here destination_verified removal_verified =
    if options.safe_delete
    then if removal_required item_type && source_here
        || not destination_verified
        || removal_required item_type && not removal_verified
      then some unverifiable
      else none
    else if not source_here || not destination_verified
    then some unverifiable
    else none

-- The body of the loop over the frozen inventory.
unfoldable pub item_reason :
    SyncOptions
    → FreshAnalysis
    → List ActionJournalEntry
    → InventorySnapshotItem
    → Option ReconciliationReason
unfolding settled_reason
item_reason options current journal expected =
    let path = expected.relative_path in
    let source = inventory_item current.source_inventory path in
    let destination = inventory_item current.destination_inventory path in
    let entries = path_journal journal path in
    let destination_verified =
      is_some_and destination (mirror_item_matches options.metadata expected) in
    let removal_verified = any (proves_removal expected) entries in
    if expected.outcome == excluded
    then some excluded_item
    else if expected.outcome == unsupported
    then some unverifiable
    else if is_some_and source
        (λ item. not (source_matches_snapshot options.metadata expected item))
    then some changed
    else elim (journal_reason entries) [
      | some reason ↦ some reason
      | none ↦
          if is_none source && not removal_verified
          then some (if is_empty entries then unexplained else unverifiable)
          else settled_reason options expected.item_type (is_some source) destination_verified
              removal_verified
    ]

unfoldable pub reconcile_items :
    SyncOptions
    → FreshAnalysis
    → List ActionJournalEntry
    → List InventorySnapshotItem
    → Findings
    → Findings
unfolding item_reason
reconcile_items options current journal [] findings = findings
reconcile_items options current journal (expected ∷ items) findings =
    reconcile_items options current journal items
      (push_reason findings expected.relative_path (item_reason options current journal expected))

-- The loop over the items that are there now: those of no frozen path are findings.
unfoldable pub reconcile_new : List FilePath → List InventoryItem → Findings → Findings
reconcile_new expected_paths [] findings = findings
reconcile_new expected_paths (item ∷ items) findings = reconcile_new expected_paths items (
    if contains expected_paths item.relative_path
    then findings
    else push_unique findings item.relative_path
        (if item.outcome == excluded then excluded_item else newly_appeared))

-- The reason in the loop of `destination_cleanup`.
unfoldable pub cleanup_reason : List ActionJournalEntry → FilePath → ReconciliationReason
cleanup_reason journal path =
    if any
      (λ entry.
        entry.plan.relative_path == path
        && entry.plan.operation == remove_destination
        && is_completed entry.outcome)
      journal
    then unverifiable
    else elim (journal_reason (path_journal journal path)) [
      | none ↦ unexplained
      | some reason ↦ reason
    ]

unfoldable pub reconcile_cleanup :
    List FilePath → List ActionJournalEntry → List InventoryItem → Findings → Findings
unfolding cleanup_reason
reconcile_cleanup expected_paths journal [] findings = findings
reconcile_cleanup expected_paths journal (item ∷ items) findings =
    reconcile_cleanup expected_paths journal items (
      if item.outcome /= included || contains expected_paths item.relative_path
      then findings
      else push_unique findings item.relative_path (cleanup_reason journal item.relative_path))

abbrev pub frozen_paths : List InventorySnapshotItem → List FilePath
frozen_paths items =
    set_extend [] (map (λ (item : InventorySnapshotItem). item.relative_path) items)

-- `CompletionReconciliation::reconcile`.
unfoldable pub reconcile :
    SyncOptions
    → SourceInventorySnapshot
    → FreshAnalysis
    → List ActionJournalEntry
    → CompletionReconciliation
unfolding reconcile_items reconcile_new reconcile_cleanup
reconcile options inventory current journal =
    let expected_paths = frozen_paths inventory.items in
    let of_items = reconcile_items options current journal inventory.items [] in
    let of_new = reconcile_new expected_paths current.source_inventory.items of_items in
    let findings =
      if options.destination_cleanup
      then reconcile_cleanup expected_paths journal current.destination_inventory.items of_new
      else of_new in
    record {
      source_drain_status =
          if options.safe_delete
          then if is_empty findings then drained else not_empty
          else not_applicable;
      findings = findings;
    }
