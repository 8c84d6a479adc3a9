-- ===== src/Inventory.antt =====
-- What an analysis records of one peer: analysis.rs (`InventoryItem`, `SourceInventory`) and the
-- frozen form that reconciliation.rs keeps (`InventorySnapshotItem`, `SourceInventorySnapshot`).
use Prim.Native.Nat.{bit_and}
use mathlib.Core.Option
use sync_plus.Base.{
  ℕ, ◌^◌, ◌+◌, Bool, Option, none, some, List, map, Text, filter, find, ltb, if◌then◌else◌, ◌==◌,
}
use sync_plus.Base.Int.{ℤ, pos, negsuc}
use sync_plus.Base.Order.{sort_by}
use sync_plus.Path.{FilePath, path_eq, path_ord}
use sync_plus.Model.{ItemType, AnalysisOutcome, included, excluded, outcome_eq}

-- A digest of 32 bytes.
abbrev pub Digest : Type 0
Digest = Text

-- A `SystemTime` by its distance from the Unix epoch in nanoseconds: `pos d` where `duration_since`
-- returns `Ok(d)`, `negsuc d` where it returns an error with the duration `d + 1`.
abbrev pub SystemTime : Type 0
SystemTime = ℤ

pub record ItemMetadata : Type 0 where
  pub size : ℕ
  pub modified_at : Option SystemTime
  pub readonly : Bool
  pub permissions : Option ℕ
  pub symlink_target : Option FilePath

pub record InventoryItem : Type 0 where
  pub relative_path : FilePath
  pub item_type : ItemType
  pub metadata : ItemMetadata
  pub outcome : AnalysisOutcome
  pub content_fingerprint : Option Digest

abbrev pub executable_bits : Option ℕ → Option ℕ
executable_bits = Option.map (λ permissions. bit_and permissions 0o111)

abbrev pub is_eligible : InventoryItem → Bool
is_eligible item = item.outcome == included

pub record ApprovedSyncScope : Type 0 where
  pub included_paths : List FilePath
  pub excluded_paths : List FilePath

pub record SourceInventory : Type 0 where
  pub peer_name : Text
  pub root : FilePath
  pub items : List InventoryItem
  pub approved_scope : ApprovedSyncScope

abbrev pub path_of : InventoryItem → FilePath
path_of item = item.relative_path

unfoldable pub from_items : Text → FilePath → List InventoryItem → SourceInventory
unfolding sort_by
from_items peer_name root unsorted =
    let items = sort_by path_of unsorted in
    record {
      peer_name = peer_name;
      root = root;
      items = items;
      approved_scope = record {
        included_paths = map path_of (filter (λ item. item.outcome == included) items);
        excluded_paths = map path_of (filter (λ item. item.outcome == excluded) items);
      };
    }

-- `SourceInventory::item`.
abbrev pub inventory_item : SourceInventory → FilePath → Option InventoryItem
inventory_item inventory path = find (λ item. item.relative_path == path) inventory.items

-- `SourceInventory::included_items`.
abbrev pub included_items : SourceInventory → List InventoryItem
included_items inventory = filter is_eligible inventory.items

pub record InventorySnapshotItem : Type 0 where
  pub relative_path : FilePath
  pub item_type : ItemType
  pub outcome : AnalysisOutcome
  pub size : ℕ
  pub modified_at_unix_nanos : Option ℤ
  pub readonly : Bool
  pub permissions : Option ℕ
  pub symlink_target : Option FilePath
  pub content_fingerprint : Option Digest

abbrev pub i64_limit : ℕ
i64_limit = 2 ^ 63

-- `unix_nanos` of reconciliation.rs: `i64::try_from` of the distance, then `checked_neg`.
unfoldable pub unix_nanos : Option SystemTime → Option ℤ
unix_nanos none = none
unix_nanos (some (pos d)) = if ltb d i64_limit then some (pos d) else none
unix_nanos (some (negsuc d)) = if ltb (d + 1) i64_limit then some (negsuc d) else none

unfoldable pub snapshot_item : InventoryItem → InventorySnapshotItem
snapshot_item item = record {
  relative_path = item.relative_path;
  item_type = item.item_type;
  outcome = item.outcome;
  size = item.metadata.size;
  modified_at_unix_nanos = unix_nanos item.metadata.modified_at;
  readonly = item.metadata.readonly;
  permissions = item.metadata.permissions;
  symlink_target = item.metadata.symlink_target;
  content_fingerprint = item.content_fingerprint;
}

pub record SourceInventorySnapshot : Type 0 where
  pub peer_name : Text
  pub root : FilePath
  pub items : List InventorySnapshotItem

-- `SourceInventorySnapshot::from_inventory`.
abbrev pub snapshot : SourceInventory → SourceInventorySnapshot
snapshot inventory = record {
  peer_name = inventory.peer_name;
  root = inventory.root;
  items = map snapshot_item inventory.items;
}

-- `SourceInventorySnapshot::item`.
abbrev pub snapshot_lookup : SourceInventorySnapshot → FilePath → Option InventorySnapshotItem
snapshot_lookup inventory path = find (λ item. item.relative_path == path) inventory.items

abbrev pub is_included : InventorySnapshotItem → Bool
is_included item = item.outcome == included
