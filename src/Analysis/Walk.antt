-- ===== src/Analysis/Walk.antt =====
-- The walk over a peer's files (`collect_inventory` and `walk_directory` of analysis.rs). The files
-- are an argument: a tree, with what the filesystem answers at each place.
pub mod Results
pub mod Along
pub mod Listed
pub mod Distinct
pub mod Unique
pub mod Reference
pub mod Found
pub mod Exact
pub mod Refined
use Prim.Native.Nat.{bit_and}
use sync_plus.Base.{
  ℕ, Bool, true, false, ◌||◌, Option, none, some, List, [], ◌∷◌, ◌++◌, map, Text, any,
  if◌then◌else◌, ◌==◌, ◌&&◌, Result, ok, err, panicked, map_err, ◌>>=◌, text_eq,
}
use sync_plus.Base.Order.{sort_by, text_ord}
use sync_plus.Path.{Component, normal, FilePath}
use sync_plus.Model.{
  ItemType, regular_file, directory, symlink, unsupported_type, AnalysisOutcome, included, excluded,
  unsupported, type_eq, outcome_eq,
}
use sync_plus.Inventory.{
  Digest, SystemTime, ItemMetadata, InventoryItem, SourceInventory, from_items,
}
use sync_plus.Analysis.{
  AnalysisError, root_unavailable, root_not_directory, read_directory, read_metadata,
}
use sync_plus.Analysis.Exclusion.{matches_exclusion, is_syncplus_internal_artifact}

pub data FileType : Type 0 where
  file dir link other : FileType

-- What `symlink_metadata` returns.
pub record Metadata : Type 0 where
  pub file_type : FileType
  pub len : ℕ
  pub modified : Option SystemTime
  pub readonly : Bool
  pub mode : ℕ

-- What the filesystem answers about an entry: its metadata, where its link leads, the digest of its
-- bytes; nothing where the call fails.
pub record EntryState : Type 0 where
  pub metadata : Option Metadata
  pub link_target : Option FilePath
  pub sha256 : Option Digest

mutual
  pub data Entry : Type 0 where
    entry : Text → EntryState → Listing → Entry

  -- What `read_dir` yields; `unreadable` where it, or one of its entries, fails.
  pub data Listing : Type 0 where
    no_more : Listing
    unreadable : Listing
    listed : Entry → Listing → Listing

abbrev pub item_type_of : FileType → ItemType
item_type_of file = regular_file
item_type_of dir = directory
item_type_of link = symlink
item_type_of other = unsupported_type

abbrev target_of_link : FileType → Option FilePath → Result (Unit {0}) (Option FilePath)
target_of_link link none = err tt
target_of_link link (some target) = ok (some target)
target_of_link _ target = ok none

abbrev pub metadata_snapshot : Metadata → Option FilePath → Result (Unit {0}) ItemMetadata
metadata_snapshot metadata link_target = do
  target ← target_of_link metadata.file_type link_target
  ok (record {
    size = metadata.len;
    modified_at = metadata.modified;
    readonly = metadata.readonly;
    permissions = some (bit_and metadata.mode 0o7777);
    symlink_target = target;
  })

abbrev pub outcome_of : Bool → ItemType → AnalysisOutcome
outcome_of excluded_here type =
    if excluded_here then excluded else if type == unsupported_type then unsupported else included

abbrev is_readable : AnalysisOutcome → ItemType → Bool
is_readable outcome type = outcome == included && type == regular_file

-- `join` of a name.
abbrev pub at_name : FilePath → Text → FilePath
at_name path name = record { components = path.components ++ (normal name ∷ []) }

-- The results of the entries in their order; the first error ends the walk.
unfoldable pub in_order :
    List (Text × Result AnalysisError (List InventoryItem))
    → Result AnalysisError (List InventoryItem)
in_order [] = ok []
in_order ((name, result) ∷ results) = do items ← result; rest ← in_order results; ok (items ++ rest)

abbrev pub entry_name : Text × Result AnalysisError (List InventoryItem) → Text
entry_name (name, result) = name

-- An item with those below it, if it is a folder.
abbrev pub with_below :
    Result AnalysisError InventoryItem
    → ItemType
    → Result AnalysisError (List InventoryItem)
    → Result AnalysisError (List InventoryItem)
with_below item type below = do
  found ← item
  items ← if type == directory then below else ok []
  ok (found ∷ items)

abbrev pub is_excluded : List Text → FilePath → ItemType → Bool
is_excluded exclusions path type = any (matches_exclusion path type) exclusions

-- The item that is pushed, with its metadata.
abbrev pub item_with : FilePath → Bool → EntryState → Metadata → ItemMetadata → InventoryItem
item_with relative_path excluded_here state metadata snapshot =
    let type = item_type_of metadata.file_type in
    let outcome = outcome_of excluded_here type in
    record {
      relative_path = relative_path;
      item_type = type;
      metadata = snapshot;
      outcome = outcome;
      content_fingerprint = if is_readable outcome type then state.sha256 else none;
    }

module _ (peer : Text) (exclusions : List Text) where
  -- The item of an entry.
  unfoldable pub item_of :
      FilePath → Bool → EntryState → Metadata → Result AnalysisError InventoryItem
  item_of relative_path excluded_here state metadata = do
    snapshot ←
        map_err (λ _. read_metadata peer relative_path)
          (metadata_snapshot metadata state.link_target)
    ok (item_with relative_path excluded_here state metadata snapshot)

  -- SyncPlus's own files are passed over, and what cannot be inspected is an error.
  abbrev pub entry_result :
      Bool
      → Option Metadata
      → FilePath
      → (Metadata → Result AnalysisError (List InventoryItem))
      → Result AnalysisError (List InventoryItem)
  entry_result true metadata path visit = ok []
  entry_result false none path visit = err (read_metadata peer path)
  entry_result false (some metadata) path visit = visit metadata

  -- The end of `walk_directory`, on what its entries give: sorted by name, one after another.
  unfoldable pub by_name :
      FilePath
      → Option (List (Text × Result AnalysisError (List InventoryItem)))
      → Result AnalysisError (List InventoryItem)
  unfolding in_order sort_by
  by_name absolute none = err (read_directory peer absolute)
  by_name absolute (some results) = in_order (sort_by entry_name results)

  unfoldable mutual
    unfolding by_name item_of

    -- What each entry gives, under its name; the loop goes through them by name.
    pub walk_entries :
        FilePath
        → FilePath
        → Bool
        → Listing
        → Option (List (Text × Result AnalysisError (List InventoryItem)))
    walk_entries absolute relative inherited no_more = some []
    walk_entries absolute relative inherited unreadable = none
    walk_entries absolute relative inherited (listed e rest) =
        elim (walk_entries absolute relative inherited rest) [
          | none ↦ none
          | some results ↦ some (walk_entry absolute relative inherited e ∷ results)
        ]

    pub walk_entry :
        FilePath → FilePath → Bool → Entry → Text × Result AnalysisError (List InventoryItem)
    walk_entry absolute relative inherited (entry name state below) = (
      name,
      entry_result (is_syncplus_internal_artifact name) state.metadata (at_name relative name)
          (λ metadata.
            let path = at_name relative name in
            let type = item_type_of metadata.file_type in
            let excluded_here = inherited || is_excluded exclusions path type in
            with_below (item_of path excluded_here state metadata) type (
              by_name (at_name absolute name)
                (walk_entries (at_name absolute name) path excluded_here below))),
    )

  unfoldable pub walk_directory :
      FilePath → FilePath → Bool → Listing → Result AnalysisError (List InventoryItem)
  unfolding walk_entries
  walk_directory absolute relative inherited listing =
      by_name absolute (walk_entries absolute relative inherited listing)

  -- `collect_inventory`, on what stands at the peer's root.
  unfoldable pub collect_inventory :
      FilePath → Option Metadata → Listing → Result AnalysisError SourceInventory
  unfolding walk_directory from_items
  collect_inventory root none listing = err (root_unavailable peer root)
  collect_inventory root (some metadata) listing =
      if item_type_of metadata.file_type == directory
      then walk_directory root (record { components = [] }) false listing
        >>= (λ items. ok (from_items peer root items))
      else err (root_not_directory peer root)
