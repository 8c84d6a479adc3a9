-- ===== src/MirrorEquality.antt =====
-- When two sides of a Mirror path count as equal: `MirrorEquality` of baseline.rs, and the
-- `MirrorReviewEquality` that conflict.rs keeps for the review.
pub mod Agreement
pub mod Clocks
use sync_plus.Base.{
  ℕ, ◌+◌, Bool, true, false, ◌&&◌, ◌||◌, Option, none, some, if◌then◌else◌, ◌==◌, ◌/=◌, leb, ltb,
  is_none, nat_eq, text_eq, option_eq,
}
use sync_plus.Base.Int.{ℤ, pos, negsuc, int_eq}
use sync_plus.Path.{FilePath, path_eq}
use sync_plus.Model.{
  ItemType, regular_file, type_eq, included, outcome_eq, MetadataRequirements, any_specialist,
}
use sync_plus.Inventory.{
  Digest, SystemTime, InventoryItem, InventorySnapshotItem, executable_bits, i64_limit,
}

-- The six arguments that `equal_parts` takes of each side; the time is already normalised.
pub record Parts : Type 0 where
  pub item_type : ItemType
  pub size : ℕ
  pub modified_at : Option ℤ
  pub executable_permissions : Option ℕ
  pub symlink_target : Option FilePath
  pub content : Option Digest

-- `into_unix_nanos` of a `SystemTime`: `i64::try_from` of the signed distance.
unfoldable pub into_unix_nanos : SystemTime → Option ℤ
into_unix_nanos (pos d) = if ltb d i64_limit then some (pos d) else none
into_unix_nanos (negsuc d) = if leb (d + 1) i64_limit then some (negsuc d) else none

unfoldable pub normalize_modified_at : Option SystemTime → Option ℤ
unfolding into_unix_nanos
normalize_modified_at none = none
normalize_modified_at (some t) = into_unix_nanos t

unfoldable pub equal_parts : MetadataRequirements → Parts → Parts → Bool
equal_parts m left right =
    if left.item_type /= right.item_type
    then false
    else if any_specialist m.specialist
    then false
    else if left.item_type == regular_file
        && (left.size /= right.size || is_none left.content || left.content /= right.content)
    then false
    else if m.executable_permissions && left.executable_permissions /= right.executable_permissions
    then false
    else if m.symlink_targets && left.symlink_target /= right.symlink_target
    then false
    else if m.timestamps && left.modified_at /= right.modified_at
    then false
    else true

abbrev pub snapshot_parts : InventorySnapshotItem → Parts
snapshot_parts item = record {
  item_type = item.item_type;
  size = item.size;
  modified_at = item.modified_at_unix_nanos;
  executable_permissions = executable_bits item.permissions;
  symlink_target = item.symlink_target;
  content = item.content_fingerprint;
}

abbrev pub inventory_parts : InventoryItem → Parts
inventory_parts item = record {
  item_type = item.item_type;
  size = item.metadata.size;
  modified_at = normalize_modified_at item.metadata.modified_at;
  executable_permissions = executable_bits item.metadata.permissions;
  symlink_target = item.metadata.symlink_target;
  content = item.content_fingerprint;
}

-- `MirrorEquality::equal`.
unfoldable pub equal : MetadataRequirements → InventorySnapshotItem → InventorySnapshotItem → Bool
equal m left right =
    if left.outcome /= included || right.outcome /= included
    then false
    else equal_parts m (snapshot_parts left) (snapshot_parts right)

-- `MirrorEquality::equal_inventory`.
unfoldable pub equal_inventory : MetadataRequirements → InventoryItem → InventoryItem → Bool
equal_inventory m left right =
    if left.outcome /= included || right.outcome /= included
    then false
    else equal_parts m (inventory_parts left) (inventory_parts right)

-- `MirrorReviewEquality::equal`, which does not look at the outcomes.
unfoldable pub review_equal :
    MetadataRequirements → InventorySnapshotItem → InventorySnapshotItem → Bool
review_equal m left right =
    if left.item_type /= right.item_type
    then false
    else if any_specialist m.specialist
    then false
    else if left.item_type == regular_file
        && (left.size /= right.size
            || is_none left.content_fingerprint
            || left.content_fingerprint /= right.content_fingerprint)
    then false
    else if m.executable_permissions
        && executable_bits left.permissions /= executable_bits right.permissions
    then false
    else if m.symlink_targets && left.symlink_target /= right.symlink_target
    then false
    else if m.timestamps
    then left.modified_at_unix_nanos == right.modified_at_unix_nanos
    else true
