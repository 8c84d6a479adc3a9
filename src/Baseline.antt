-- ===== src/Baseline.antt =====
-- The Sync Baseline (baseline.rs): the last agreed state of a peer pair, what it takes from two
-- inventories, how it is merged, and the comparison of a later pair of inventories with it.
pub mod Compare
pub mod Merge
pub mod Recorded
pub mod Settled
use sync_plus.Base.{
  ◌≡◌, ℕ, Bool, true, false, ◌&&◌, ◌||◌, not, Option, none, some, List, [], ◌∷◌, ◌++◌, map, Text,
  filter, find, any, contains, if◌then◌else◌, ◌==◌, ◌/=◌, text_eq,
}
use mathlib.Core.Option
use sync_plus.Base.Int.{ℤ}
use sync_plus.Base.Tree.{map_insert, map_get, set_extend}
use sync_plus.Path.{FilePath, path_eq, path_ord}
use sync_plus.Model.{ItemType, MetadataRequirements}
use sync_plus.Inventory.{
  Digest, InventorySnapshotItem, SourceInventorySnapshot, snapshot_lookup, executable_bits,
  is_included,
}
use sync_plus.MirrorEquality.{Parts, equal_parts, equal}
use sync_plus.Journal.{ActionJournalEntry, is_completed}
use sync_plus.Finding.{CompletionReconciliation, is_flagged}

pub record SyncBaselineItemState : Type 0 where
  pub item_type : ItemType
  pub size : ℕ
  pub modified_at_unix_nanos : Option ℤ
  pub readonly : Bool
  pub executable_permissions : Option ℕ
  pub symlink_target : Option FilePath
  pub content_fingerprint : Option Digest

abbrev pub from_snapshot : InventorySnapshotItem → SyncBaselineItemState
from_snapshot item = record {
  item_type = item.item_type;
  size = item.size;
  modified_at_unix_nanos = item.modified_at_unix_nanos;
  readonly = item.readonly;
  executable_permissions = executable_bits item.permissions;
  symlink_target = item.symlink_target;
  content_fingerprint = item.content_fingerprint;
}

abbrev pub state_parts : SyncBaselineItemState → Parts
state_parts state = record {
  item_type = state.item_type;
  size = state.size;
  modified_at = state.modified_at_unix_nanos;
  executable_permissions = state.executable_permissions;
  symlink_target = state.symlink_target;
  content = state.content_fingerprint;
}

-- `SyncBaselineItemState::equal`, and `equal_state`, which calls it.
abbrev pub state_equal : MetadataRequirements → SyncBaselineItemState → SyncBaselineItemState → Bool
state_equal m left right = equal_parts m (state_parts left) (state_parts right)

pub record SyncBaselineItem : Type 0 where
  pub relative_path : FilePath
  pub peer_a : Option SyncBaselineItemState
  pub peer_b : Option SyncBaselineItemState

pub data SyncBaselineItemStatus : Type 0 where
  unchanged new changed absent : SyncBaselineItemStatus

pub record SyncBaselineComparison : Type 0 where
  pub relative_path : FilePath
  pub peer_a : SyncBaselineItemStatus
  pub peer_b : SyncBaselineItemStatus

pub record SyncBaseline : Type 0 where
  pub profile_name : Text
  pub peer_a_name : Text
  pub peer_a_root : FilePath
  pub peer_b_name : Text
  pub peer_b_root : FilePath
  pub metadata : MetadataRequirements
  pub items : List SyncBaselineItem

-- `SyncBaseline::item`.
abbrev pub baseline_item : SyncBaseline → FilePath → Option SyncBaselineItem
baseline_item baseline path = find (λ item. item.relative_path == path) baseline.items

-- The two sides that `from_inventories` collects for a path.
abbrev pub Sides : Type 0
Sides = Option SyncBaselineItemState × Option SyncBaselineItemState

-- `entry(path).or_default()`.
abbrev pub sides_at : FilePath → List (FilePath × Sides) → Sides
sides_at path by_path = Option.get_or (map_get path by_path) (none, none)

unfoldable pub record_a :
    List InventorySnapshotItem → List (FilePath × Sides) → List (FilePath × Sides)
record_a [] by_path = by_path
record_a (item ∷ items) by_path =
    let path = item.relative_path in
    record_a items (map_insert path (some (from_snapshot item), (sides_at path by_path).1) by_path)

unfoldable pub record_b :
    List InventorySnapshotItem → List (FilePath × Sides) → List (FilePath × Sides)
record_b [] by_path = by_path
record_b (item ∷ items) by_path =
    let path = item.relative_path in
    record_b items (map_insert path ((sides_at path by_path).0, some (from_snapshot item)) by_path)

abbrev pub item_of_sides : FilePath × Sides → SyncBaselineItem
item_of_sides (path, sides) = record { relative_path = path; peer_a = sides.0; peer_b = sides.1 }

unfoldable pub from_inventories :
    Text → SourceInventorySnapshot → SourceInventorySnapshot → MetadataRequirements → SyncBaseline
unfolding record_a record_b
from_inventories profile_name peer_a peer_b metadata =
    let with_a = record_a (filter is_included peer_a.items) [] in
    let by_path = record_b (filter is_included peer_b.items) with_a in
    record {
      profile_name = profile_name;
      peer_a_name = peer_a.peer_name;
      peer_a_root = peer_a.root;
      peer_b_name = peer_b.peer_name;
      peer_b_root = peer_b.root;
      metadata = metadata;
      items = map item_of_sides by_path;
    }

-- A journal entry of the path that did not complete (`journal_blocked`).
abbrev pub journal_blocked : List ActionJournalEntry → FilePath → Bool
journal_blocked journal path =
    any (λ entry. entry.plan.relative_path == path && not (is_completed entry.outcome)) journal

-- The body of the loop over all paths: the pair that the path settles, if it settles.
unfoldable pub settled_pair :
    SourceInventorySnapshot
    → SourceInventorySnapshot
    → List ActionJournalEntry
    → CompletionReconciliation
    → MetadataRequirements
    → FilePath
    → Option (InventorySnapshotItem × InventorySnapshotItem)
settled_pair peer_a peer_b journal reconciliation metadata path =
    if is_flagged path reconciliation.findings || journal_blocked journal path
    then none
    else elim (snapshot_lookup peer_a path) [
      | none ↦ none
      | some left ↦ elim (snapshot_lookup peer_b path) [
        | none ↦ none
        | some right ↦ if equal metadata left right then some (left, right) else none
      ]
    ]

abbrev pub SettledPairs : Type 0
SettledPairs = List InventorySnapshotItem × List InventorySnapshotItem

abbrev pub push_pair :
    Option (InventorySnapshotItem × InventorySnapshotItem) → SettledPairs → SettledPairs
push_pair none pairs = pairs
push_pair (some (left, right)) pairs = (left ∷ pairs.0, right ∷ pairs.1)

abbrev pub item_paths : SourceInventorySnapshot → List FilePath
item_paths peer = map (λ (item : InventorySnapshotItem). item.relative_path) peer.items

-- The loop over the paths.
unfoldable pub settle :
    SourceInventorySnapshot
    → SourceInventorySnapshot
    → List ActionJournalEntry
    → CompletionReconciliation
    → MetadataRequirements
    → List FilePath
    → SettledPairs
unfolding settled_pair
settle peer_a peer_b journal reconciliation metadata [] = ([], [])
settle peer_a peer_b journal reconciliation metadata (path ∷ paths) =
    push_pair (settled_pair peer_a peer_b journal reconciliation metadata path)
      (settle peer_a peer_b journal reconciliation metadata paths)

unfoldable pub from_reconciled_inventories :
    Text
    → SourceInventorySnapshot
    → SourceInventorySnapshot
    → List ActionJournalEntry
    → CompletionReconciliation
    → MetadataRequirements
    → SyncBaseline
unfolding settle from_inventories
from_reconciled_inventories profile_name peer_a peer_b journal reconciliation metadata =
    let paths = set_extend [] (item_paths peer_a ++ item_paths peer_b) in
    let settled = settle peer_a peer_b journal reconciliation metadata paths in
    from_inventories profile_name (record peer_a { items = settled.0 })
      (record peer_b { items = settled.1 }) metadata
