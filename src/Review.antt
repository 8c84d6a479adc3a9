-- ===== src/Review.antt =====
-- The Conflict Review (conflict.rs): its rows, and how two inventories give them. The bytes of a
-- file and the check of UTF-8 are parameters.
pub mod Rows
pub mod Resolve
use sync_plus.Base.{
  ℕ, suc, ◌+◌, ◌^◌, max, Bool, true, false, ◌&&◌, ◌||◌, not, Option, none, some, List, [], ◌∷◌,
  ◌++◌, map, filter, if◌then◌else◌, ◌==◌, ◌/=◌, ltb, is_none, contains, length, Text, nat_eq,
  text_eq,
}
use sync_plus.Base.Int.{ℤ}
use sync_plus.Base.Order.{nat_ord, sort_by}
use sync_plus.Base.Tree.{set_extend}
use sync_plus.Path.{FilePath, path_eq, path_ord}
use sync_plus.Model.{
  PeerSide, peer_a, peer_b, ItemType, regular_file, type_eq, MetadataRequirements,
}
use sync_plus.Inventory.{
  Digest, InventorySnapshotItem, SourceInventorySnapshot, snapshot_lookup, is_included,
}
use sync_plus.MirrorEquality.{review_equal}
use sync_plus.Conflict.{
  ConflictKind, same_path, possible_duplicate_or_rename, destination_compatibility,
  ConflictEntryKey,
}
use sync_plus.Conflict.Key.{row_ord}

pub data FileReviewClassification : Type 0 where
  text_file binary_file large_file unreadable_file non_regular : FileReviewClassification

pub record ConflictEvidence : Type 0 where
  pub side : PeerSide
  pub relative_path : FilePath
  pub item_type : ItemType
  pub size : ℕ
  pub modified_at_unix_nanos : Option ℤ
  pub readonly : Bool
  pub permissions : Option ℕ
  pub symlink_target : Option FilePath
  pub sha256 : Option Digest
  pub classification : FileReviewClassification

-- precheck.rs.
pub data NamingRule : Type 0 where
  case_insensitive_collision unicode_normalization_collision reserved_name invalid_character :
      NamingRule
  component_too_long path_too_long trailing_dot_or_space : NamingRule

pub record NamingConflict : Type 0 where
  pub source_path : FilePath
  pub destination_path : FilePath
  pub related_path : Option FilePath
  pub rule : NamingRule

pub record ConflictEntry : Type 0 where
  pub kind : ConflictKind
  pub relative_path : FilePath
  pub related_path : Option FilePath
  pub destination_path : Option FilePath
  pub compatibility_rule : Option NamingRule
  pub evidence : List ConflictEvidence

-- `ConflictEntry::key`.
abbrev pub row_key : ConflictEntry → ConflictEntryKey
row_key entry = record {
  kind = entry.kind;
  relative_path = entry.relative_path;
  related_path = entry.related_path;
  destination_path = entry.destination_path;
}

-- What `from_inventories_with_limit` sorts: the hash, the side, the path and the evidence.
pub record Location : Type 0 where
  pub hash : Digest
  pub side : PeerSide
  pub path : FilePath
  pub evidence : ConflictEvidence

-- `saturating_add(1)` of a `u64`.
abbrev saturating_succ : ℕ → ℕ
saturating_succ n = if ltb (n + 1) (2 ^ 64) then n + 1 else n

abbrev side_rank : PeerSide → ℕ
side_rank peer_a = 0
side_rank peer_b = 1

abbrev pub same_path_entry : FilePath → List ConflictEvidence → ConflictEntry
same_path_entry path evidence = record {
  kind = same_path;
  relative_path = path;
  related_path = none;
  destination_path = none;
  compatibility_rule = none;
  evidence = evidence;
}

abbrev pub duplicate_entry : Location → Location → ConflictEntry
duplicate_entry l other = record {
  kind = possible_duplicate_or_rename;
  relative_path = l.path;
  related_path = some other.path;
  destination_path = none;
  compatibility_rule = none;
  evidence = l.evidence ∷ other.evidence ∷ [];
}

-- The rows of one location against the later ones.
abbrev pub duplicates_of : Location → List Location → List ConflictEntry
duplicates_of l [] = []
duplicates_of l (other ∷ others) =
    let rest = duplicates_of l others in
    if l.hash /= other.hash || l.path == other.path then rest else duplicate_entry l other ∷ rest

abbrev pub duplicates : List Location → List ConflictEntry
duplicates [] = []
duplicates (l ∷ ls) = duplicates_of l ls ++ duplicates ls

abbrev pub included_items_paths : SourceInventorySnapshot → List FilePath
included_items_paths inventory =
    map (λ item. item.relative_path) (filter is_included inventory.items)

-- `add_compatibility_conflicts`.
abbrev compatibility_entry : NamingConflict → ConflictEntry
compatibility_entry conflict = record {
  kind = destination_compatibility;
  relative_path = conflict.source_path;
  related_path = conflict.related_path;
  destination_path = some conflict.destination_path;
  compatibility_rule = some conflict.rule;
  evidence = [];
}

abbrev row_order : ConflictEntry → FilePath × ConflictKind
row_order entry = (entry.relative_path, entry.kind)

abbrev pub add_compatibility_conflicts :
    List ConflictEntry → List NamingConflict → List ConflictEntry
add_compatibility_conflicts entries conflicts =
    sort_by row_order (entries ++ map compatibility_entry conflicts)

-- `read` gives the first bytes of the file at a path below a root, at most as many as it is asked for,
-- or an error of `open` or `read_to_end`.
module _ (read : FilePath → FilePath → ℕ → Option (List ℕ)) (is_utf8 : List ℕ → Bool) where
  abbrev classify_bytes : ℕ → Option (List ℕ) → FileReviewClassification
  classify_bytes limit none = unreadable_file
  classify_bytes limit (some bytes) =
      if ltb limit (length bytes)
      then large_file
      else if contains bytes 0 || not (is_utf8 bytes)
      then binary_file
      else text_file

  abbrev classify_file : FilePath → FilePath → ℕ → FileReviewClassification
  classify_file root path limit = classify_bytes limit (read root path (saturating_succ limit))

  abbrev review_evidence :
      SourceInventorySnapshot → PeerSide → InventorySnapshotItem → ℕ → ConflictEvidence
  review_evidence inventory side item limit = record {
    side = side;
    relative_path = item.relative_path;
    item_type = item.item_type;
    size = item.size;
    modified_at_unix_nanos = item.modified_at_unix_nanos;
    readonly = item.readonly;
    permissions = item.permissions;
    symlink_target = item.symlink_target;
    sha256 = item.content_fingerprint;
    classification =
        if item.item_type /= regular_file
        then non_regular
        else if is_none item.content_fingerprint
        then unreadable_file
        else if ltb limit item.size
        then large_file
        else classify_file inventory.root item.relative_path limit;
  }

  -- The locations of one side's regular files.
  abbrev locations_of :
      SourceInventorySnapshot → PeerSide → ℕ → List InventorySnapshotItem → List Location
  locations_of inventory side limit [] = []
  locations_of inventory side limit (item ∷ items) =
      let rest = locations_of inventory side limit items in
      if is_included item && item.item_type == regular_file
      then elim item.content_fingerprint [
        | none ↦ rest
        | some hash ↦
            record {
              hash = hash;
              side = side;
              path = item.relative_path;
              evidence = review_evidence inventory side item limit;
            }
            ∷ rest
      ]
      else rest

  module _ (a b : SourceInventorySnapshot) (metadata : MetadataRequirements) (limit : ℕ) where
    abbrev pub same_path_row :
        FilePath → Option InventorySnapshotItem → Option InventorySnapshotItem → List ConflictEntry
    same_path_row path (some left) (some right) =
        if review_equal metadata left right
        then []
        else same_path_entry path
            (review_evidence a peer_a left limit ∷ review_evidence b peer_b right limit ∷ [])
          ∷ []
    same_path_row path _ _ = []

    abbrev pub same_path_rows : List FilePath → List ConflictEntry
    same_path_rows [] = []
    same_path_rows (path ∷ paths) =
        same_path_row path (snapshot_lookup a path) (snapshot_lookup b path) ++ same_path_rows paths

    abbrev pub review_paths : List FilePath
    review_paths = set_extend (set_extend [] (included_items_paths a)) (included_items_paths b)

    -- The paths first, then stably the sides: the order of the sides, and of the paths within one.
    abbrev pub sorted_locations : List Location
    sorted_locations =
        sort_by (λ (l : Location). side_rank l.side)
          (sort_by (λ (l : Location). l.path)
            (locations_of a peer_a limit a.items ++ locations_of b peer_b limit b.items))

    unfoldable pub from_inventories_with_limit : List ConflictEntry
    unfolding set_extend sort_by review_equal
    from_inventories_with_limit = same_path_rows review_paths ++ duplicates sorted_locations
