-- ===== src/Plan.antt =====
-- The actions of a plan of analysis.rs: what `build_plan` proposes. The texts of the consequences
-- are left out.
pub mod Check
pub mod Reasons
pub mod Sound
pub mod Proposed
pub mod Complete
pub mod Valid
use native.Mathlib.Decide.{ℕ_discrete}
use sync_plus.Base.{
  ℕ, suc, ◌+◌, ◌%◌, ◌^◌, Bool, true, false, ◌&&◌, ◌||◌, not, Option, none, some, List, [], ◌∷◌,
  ◌++◌, map, filter, contains, length, is_none, is_some_and, if◌then◌else◌, ◌==◌, ◌/=◌, Eq, Result,
  ok, err, panicked, ◌>>=◌, nat_eq,
}
use mathlib.Core.Option
use sync_plus.Base.Keyed.{collect_by}
use sync_plus.Base.Tree.{map_get, set_extend}
use sync_plus.Path.{FilePath, path_eq, path_ord}
use sync_plus.Model.{
  SyncMode, one_way, mirror, PeerSide, peer_a, peer_b, PlanActionKind, copy_to_destination,
  overwrite_destination, remove_destination, remove_source_after_verification, SyncOptions,
  ItemType, regular_file, symlink, type_eq, included, excluded, outcome_eq, MetadataRequirements,
}
use sync_plus.Inventory.{
  InventoryItem, SourceInventory, ApprovedSyncScope, inventory_item, included_items, is_eligible,
}
use sync_plus.MirrorEquality.{equal_inventory}

-- What the plan reads of a `ProcessSpecification`: the mode, the source side and the
-- validated options.
pub record ProcessSpecification : Type 0 where
  pub mode : SyncMode
  pub source : PeerSide
  pub options : SyncOptions

-- An action before it is numbered.
pub record Proposal : Type 0 where
  pub relative_path : FilePath
  pub kind : PlanActionKind
  pub source_side : PeerSide
  pub size : Option ℕ

pub record PlanAction : Type 0 where
  pub action_id : ℕ
  pub proposal : Proposal

abbrev pub data_size : InventoryItem → Option ℕ
data_size item = if item.item_type == regular_file then some item.metadata.size else none

abbrev pub plan_path : InventoryItem → FilePath
plan_path item = item.relative_path

-- `source_by_path` and `destination_by_path`.
abbrev pub by_path : SourceInventory → List (FilePath × InventoryItem)
by_path inventory = collect_by plan_path inventory.items []

abbrev pub transfer_kind :
    MetadataRequirements → InventoryItem → Option InventoryItem → Option PlanActionKind
transfer_kind m source none = some copy_to_destination
transfer_kind m source (some destination) =
    if not (is_eligible destination)
    then none
    else if not (equal_inventory m source destination)
    then some overwrite_destination
    else none

abbrev pub removal_allowed : SyncOptions → InventoryItem → Option InventoryItem → Bool
removal_allowed options source destination =
    options.safe_delete
    && (is_none destination || is_some_and destination is_eligible)
    && (source.item_type == regular_file || source.item_type == symlink)

abbrev pub proposal_of : PeerSide → InventoryItem → PlanActionKind → Proposal
proposal_of side item kind = record {
  relative_path = item.relative_path;
  kind = kind;
  source_side = side;
  size = data_size item;
}

-- The body of the loop over the included source items: a transfer, then a removal.
unfoldable pub item_proposals :
    ProcessSpecification → InventoryItem → Option InventoryItem → List Proposal
item_proposals spec source destination =
    let removal =
      if removal_allowed spec.options source destination
      then proposal_of spec.source source remove_source_after_verification ∷ []
      else [] in
    elim (transfer_kind spec.options.metadata source destination) [
      | none ↦ removal
      | some kind ↦ proposal_of spec.source source kind ∷ removal
    ]

unfoldable pub source_proposals :
    ProcessSpecification → List (FilePath × InventoryItem) → List InventoryItem → List Proposal
unfolding item_proposals
source_proposals spec destination_by_path [] = []
source_proposals spec destination_by_path (item ∷ items) =
    item_proposals spec item (map_get item.relative_path destination_by_path)
    ++ source_proposals spec destination_by_path items

-- The loop of `destination_cleanup`.
unfoldable pub cleanup_proposals :
    ProcessSpecification → List (FilePath × InventoryItem) → List InventoryItem → List Proposal
cleanup_proposals spec source_by_path [] = []
cleanup_proposals spec source_by_path (item ∷ items) =
    let rest = cleanup_proposals spec source_by_path items in
    elim (map_get item.relative_path source_by_path) [
      | some other ↦ rest
      | none ↦ proposal_of spec.source item remove_destination ∷ rest
    ]

unfoldable pub one_way_proposals :
    ProcessSpecification → SourceInventory → SourceInventory → List Proposal
unfolding source_proposals cleanup_proposals
one_way_proposals spec source destination =
    source_proposals spec (by_path destination) (included_items source)
    ++ (if spec.options.destination_cleanup
        then cleanup_proposals spec (by_path source) (included_items destination)
        else [])

abbrev pub mirror_copy : PeerSide → FilePath → InventoryItem → List Proposal
mirror_copy side path item =
    if is_eligible item
    then record {
      relative_path = path;
      kind = copy_to_destination;
      source_side = side;
      size = data_size item;
    }
      ∷ []
    else []

-- The `match` of the Mirror loop.
abbrev pub mirror_proposal : FilePath → Option InventoryItem → Option InventoryItem → List Proposal
mirror_proposal path (some item) none = mirror_copy peer_a path item
mirror_proposal path none (some item) = mirror_copy peer_b path item
mirror_proposal path _ _ = []

unfoldable pub mirror_loop :
    List (FilePath × InventoryItem)
    → List (FilePath × InventoryItem)
    → List FilePath
    → List Proposal
mirror_loop a b [] = []
mirror_loop a b (path ∷ paths) =
    mirror_proposal path (map_get path a) (map_get path b) ++ mirror_loop a b paths

abbrev pub map_keys : List (FilePath × InventoryItem) → List FilePath
map_keys [] = []
map_keys ((path, item) ∷ m) = path ∷ map_keys m

unfoldable pub mirror_proposals : SourceInventory → SourceInventory → List Proposal
unfolding mirror_loop
mirror_proposals a b =
    mirror_loop (by_path a) (by_path b)
      (set_extend [] (map_keys (by_path a) ++ map_keys (by_path b)))

-- Every push takes the counter and raises it by one.
abbrev pub numbered : ℕ → List Proposal → List PlanAction
numbered next [] = []
numbered next (p ∷ ps) = record { action_id = next; proposal = p } ∷ numbered (suc next) ps
