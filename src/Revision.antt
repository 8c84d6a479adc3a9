-- ===== src/Revision.antt =====
-- When an analysis is stale: `AnalysisRevision` of analysis.rs, which a later analysis is compared
-- with before its plan is confirmed.
pub mod Changed
use native.Mathlib.Decide.{ℕ_discrete}
use sync_plus.Base.{
  ℕ, Bool, true, false, not, Option, none, some, List, [], ◌∷◌, ◌++◌, map, filter, if◌then◌else◌,
  ◌==◌, ◌/=◌, Eq, option_eq,
}
use sync_plus.Base.Tree.{map_insert, map_get, set_extend}
use sync_plus.Path.{FilePath, path_eq, path_ord}
use sync_plus.Model.{ItemType, AnalysisOutcome}
use sync_plus.Inventory.{Digest, ItemMetadata, InventoryItem, SourceInventory}

pub record RevisionItem : Type 0 where
  pub relative_path : FilePath
  pub item_type : ItemType
  pub metadata : ItemMetadata
  pub outcome : AnalysisOutcome
  pub content_fingerprint : Option Digest

pub record AnalysisRevision : Type 0 where
  pub source : List RevisionItem
  pub destination : List RevisionItem

abbrev pub from_item : InventoryItem → RevisionItem
from_item item = record {
  relative_path = item.relative_path;
  item_type = item.item_type;
  metadata = item.metadata;
  outcome = item.outcome;
  content_fingerprint = item.content_fingerprint;
}

-- `AnalysisRevision::from_inventories`.
abbrev pub revision_of : SourceInventory → SourceInventory → AnalysisRevision
revision_of source destination = record {
  source = map from_item source.items;
  destination = map from_item destination.items;
}

-- The values of a `revision_map`.
pub record RevisionState : Type 0 where
  pub item_type : ItemType
  pub metadata : ItemMetadata
  pub outcome : AnalysisOutcome

RevisionState-discrete : Discrete RevisionState
RevisionState-discrete = hlevel ℕ_discrete

instance unfoldable pub revision_state_eq : Eq RevisionState
unfolding RevisionState-discrete
revision_state_eq = record { dec = RevisionState-discrete }

abbrev pub RevisionMap : Type 0
RevisionMap = List (FilePath × RevisionState)

RevisionMap-discrete : Discrete RevisionMap
RevisionMap-discrete = hlevel ℕ_discrete

instance unfoldable pub revision_map_eq : Eq RevisionMap
unfolding RevisionMap-discrete
revision_map_eq = record { dec = RevisionMap-discrete }

abbrev pub state_of : RevisionItem → RevisionState
state_of item = record {
  item_type = item.item_type;
  metadata = item.metadata;
  outcome = item.outcome;
}

unfoldable pub collect_states : List RevisionItem → RevisionMap → RevisionMap
collect_states [] m = m
collect_states (item ∷ items) m =
    collect_states items (map_insert item.relative_path (state_of item) m)

abbrev pub revision_map : List RevisionItem → RevisionMap
revision_map items = collect_states items []

abbrev pub revision_keys : RevisionMap → List FilePath
revision_keys [] = []
revision_keys ((path, state) ∷ m) = path ∷ revision_keys m

abbrev pub differs : RevisionMap → RevisionMap → FilePath → Bool
differs left right path = map_get path left /= map_get path right

abbrev pub changed_paths_for : RevisionMap → RevisionMap → List FilePath
changed_paths_for left right =
    set_extend [] (filter (differs left right) (revision_keys left ++ revision_keys right))

abbrev pub changed_in : List RevisionItem → List RevisionItem → List FilePath
changed_in left right =
    if revision_map left /= revision_map right
    then changed_paths_for (revision_map left) (revision_map right)
    else []

-- `AnalysisRevision::changed_paths`.
unfoldable pub changed_paths : AnalysisRevision → AnalysisRevision → List FilePath
changed_paths r s =
    set_extend (set_extend [] (changed_in r.source s.source))
      (changed_in r.destination s.destination)
