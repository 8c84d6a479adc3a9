-- ===== src/Plan/Reasons.antt =====
-- What an action of a plan needs as its reason (`build_plan` of analysis.rs).
use mathlib.Core.Option.{or_else}
use sync_plus.Base.{◌≡◌, refl, ◌∙◌, true, false, Option, none, some, [], Elem, ◌⊎◌}
use sync_plus.Base.Keyed.{IsDistinct, map_get-collect_by}
use sync_plus.Base.Tree.{map_get}
use sync_plus.Path.{FilePath, path_eq, path_ord}
use sync_plus.Model.{
  SyncMode, one_way, mirror, opposite, PlanActionKind, copy_to_destination, overwrite_destination,
  remove_destination, remove_source_after_verification, regular_file, symlink, type_eq, outcome_eq,
}
use sync_plus.Inventory.{InventoryItem, SourceInventory, inventory_item, is_eligible}
use sync_plus.MirrorEquality.{equal_inventory}
use sync_plus.MirrorDeletion.Candidates.{peer_of}
use sync_plus.Plan.{ProcessSpecification, Proposal, plan_path, by_path}

-- No path is listed twice by an inventory.
abbrev pub HasUniquePaths : SourceInventory → Type 0
HasUniquePaths inventory = IsDistinct plan_path inventory.items

or_else-none : {A : Type 0} (x : Option A) → or_else x none ≡ x
unfolding or_else
or_else-none none = refl
or_else-none (some a) = refl

pub map_get-by_path :
    (inventory : SourceInventory) (path : FilePath)
    → HasUniquePaths inventory
    → map_get path (by_path inventory) ≡ inventory_item inventory path
unfolding map_get
map_get-by_path inventory path u =
    map_get-collect_by plan_path path inventory.items [] u ∙ or_else-none _

-- An item that the inventory lists and the analysis included.
pub record IsIncludedAt (inventory : SourceInventory) (path : FilePath) (x : InventoryItem)
    : Type 0 where
  pub held : Elem x inventory.items
  pub at_path : x.relative_path ≡ path
  pub inside : is_eligible x ≡ true

module _ (spec : ProcessSpecification) (source destination : SourceInventory) where
  -- The reason for an action of a One-Way plan, by its kind.
  abbrev pub IsReason : PlanActionKind → FilePath → Type 0
  IsReason copy_to_destination path =
      (x : InventoryItem) × IsIncludedAt source path x × (inventory_item destination path ≡ none)
  IsReason overwrite_destination path =
      (x : InventoryItem) × (y : InventoryItem) × IsIncludedAt source path x
      × (inventory_item destination path ≡ some y)
      × (is_eligible y ≡ true)
      × (equal_inventory spec.options.metadata x y ≡ false)
  IsReason remove_source_after_verification path =
      (spec.options.safe_delete ≡ true)
      × (x : InventoryItem) × IsIncludedAt source path x
      × ((x.item_type ≡ regular_file) ⊎ (x.item_type ≡ symlink))
      × ((inventory_item destination path ≡ none)
          ⊎ ((y : InventoryItem) × (inventory_item destination path ≡ some y)
              × (is_eligible y ≡ true)))
  IsReason remove_destination path =
      (spec.options.destination_cleanup ≡ true)
      × (y : InventoryItem) × IsIncludedAt destination path y
      × (inventory_item source path ≡ none)

  -- The reason for a copy of a Mirror plan: one peer includes an item at a path that the other
  -- peer does not list.
  abbrev pub IsFirstCopy : Proposal → Type 0
  IsFirstCopy p =
      (p.kind ≡ copy_to_destination)
      × (x : InventoryItem) × (inventory_item (peer_of p.source_side source destination)
            p.relative_path
          ≡ some x)
      × (is_eligible x ≡ true)
      × (inventory_item (peer_of (opposite p.source_side) source destination) p.relative_path
          ≡ none)

  abbrev pub IsPlanned : Proposal → SyncMode → Type 0
  IsPlanned p one_way = (p.source_side ≡ spec.source) × IsReason p.kind p.relative_path
  IsPlanned p mirror = IsFirstCopy p
