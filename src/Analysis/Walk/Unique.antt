-- ===== src/Analysis/Walk/Unique.antt =====
-- No walk lists a path twice, since the names in a folder are distinct.
use sync_plus.Base.{
  Bool, true, false, ◌||◌, ◌&&◌, not, Option, none, some, List, [], ◌∷◌, map, Text, All, contains,
  ◌≡◌, if◌then◌else◌, refl, ap, ◌∙◌, subst, arith, ◌==◌, Result, map_err, ok, err, panicked,
  text_eq,
}
use sync_plus.Base.Keyed.{IsDistinct, sort_by-IsDistinct}
use sync_plus.Base.Order.{sort_by, text_ord}
use sync_plus.Path.{FilePath, path_eq, path_ord}
use sync_plus.Inventory.{InventoryItem, SourceInventory, path_of, from_items}
use sync_plus.Plan.Reasons.{HasUniquePaths}
use sync_plus.Model.{ItemType, directory, type_eq}
use sync_plus.Analysis.Exclusion.{is_syncplus_internal_artifact}
use sync_plus.Analysis.{AnalysisError, read_metadata}
use sync_plus.Analysis.Walk.{
  entry, Listing, no_more, unreadable, listed, at_name, entry_name, EntryState, Metadata, by_name,
  walk_entries, walk_directory, with_below, item_of, item_with, metadata_snapshot, entry_result,
  item_type_of, is_excluded, collect_inventory,
}
use sync_plus.Analysis.Walk.Along.{along-below}
use sync_plus.Analysis.Walk.Distinct.{
  IsUnder, IsBelow, IsBelow, AreUnique, EntryUnique, in_order-AreUnique,
}
use sync_plus.Analysis.Walk.Results.{
  OptionAll, ResultAll-any, ResultAll-if, collect_inventory_ok, All-sort_by, ResultAll,
  ResultAll-bind, All-mono,
}

abbrev pub has_name : Text → Listing → Bool
has_name name no_more = false
has_name name unreadable = false
has_name name (listed (entry other state below) rest) = other == name || has_name name rest

-- In every folder the names are distinct, as a filesystem has them.
abbrev pub has_unique_names : Listing → Bool
has_unique_names no_more = true
has_unique_names unreadable = true
has_unique_names (listed (entry name state below) rest) =
    not (has_name name rest) && has_unique_names below && has_unique_names rest

pub parts : (a b c : Bool) → (not a && b && c) ≡ true → (a ≡ false) × (b ≡ true) × (c ≡ true)
parts false true true h = (refl, refl, refl)
parts false true false h = cc
parts false false c h = cc
parts true b c h = cc

module _ (peer : Text) (exclusions : List Text) where
  -- The results of a folder's entries, by their names.
  abbrev AreEntries :
      FilePath → Listing → List (Text × Result AnalysisError (List InventoryItem)) → Type 0
  AreEntries base listing results =
      All (EntryUnique base) results
      × IsDistinct entry_name results
      × ((name : Text) → contains (map entry_name results) name ≡ has_name name listing)

  added-AreEntries :
      (base : FilePath) (name : Text) (state : EntryState) (below rest : Listing)
      (o : Option (List (Text × Result AnalysisError (List InventoryItem))))
      (result : Result AnalysisError (List InventoryItem))
      → has_name name rest ≡ false
      → ResultAll (AreUnique (IsUnder base name)) result
      → OptionAll (AreEntries base rest) o
      → OptionAll
          (AreEntries base (listed (entry name state below) rest))
          (elim o [ none ↦ none | some results ↦ some ((name, result) ∷ results) ])
  added-AreEntries base name state below rest none result d h k = tt
  added-AreEntries base name state below rest (some results) result d h (all_unique, u, same) = (
    (h, all_unique),
    (same name ∙ d, u),
    λ other. ap (λ (b : Bool). name == other || b) (same other),
  )

  by_name-AreUnique :
      (absolute base : FilePath) (listing : Listing)
      (o : Option (List (Text × Result AnalysisError (List InventoryItem))))
      → OptionAll (AreEntries base listing) o
      → ResultAll (AreUnique (IsBelow base)) (by_name peer exclusions absolute o)
  unfolding by_name
  by_name-AreUnique absolute base listing none h = tt
  by_name-AreUnique absolute base listing (some results) (all_unique, u, same) =
      in_order-AreUnique base (sort_by entry_name results)
        (All-sort_by entry_name (EntryUnique base) results all_unique)
        (sort_by-IsDistinct entry_name results u)

  -- No item below a folder has the folder's path.
  not-contains_below :
      (base : FilePath) (name : Text) (items : List InventoryItem)
      → All (IsBelow (at_name base name)) items
      → contains (map path_of items) (at_name base name) ≡ false
  not-contains_below base name [] h = refl
  not-contains_below base name (x ∷ items) ((m, (names, at)), hs) =
      ground
        (arith, at, along-below (at_name base name) m names, not-contains_below base name items hs)

  -- A folder's own item before what stands below it.
  folder-AreUnique :
      (base : FilePath) (name : Text) (found : InventoryItem) (items : List InventoryItem)
      → found.relative_path ≡ at_name base name
      → AreUnique (IsBelow (at_name base name)) items
      → AreUnique (IsUnder base name) (found ∷ items)
  folder-AreUnique base name found items at (h, u) = (
    (
      ([], at),
      All-mono (IsBelow (at_name base name)) (IsUnder base name) items
          (λ item (m, (names, at_names)). (m ∷ names, at_names)) h,
    ),
    (rw at (not-contains_below base name items h), u),
  )

  with_below-AreUnique :
      (base : FilePath) (name : Text) (item : Result AnalysisError InventoryItem) (type : ItemType)
      (below : Result AnalysisError (List InventoryItem))
      → ResultAll (λ found. found.relative_path ≡ at_name base name) item
      → ResultAll (AreUnique (IsBelow (at_name base name))) below
      → ResultAll (AreUnique (IsUnder base name)) (with_below item type below)
  with_below-AreUnique base name (err e) type below h k = tt
  with_below-AreUnique base name panicked type below h k = tt
  with_below-AreUnique base name (ok found) type below h k =
      let P = AreUnique (IsBelow (at_name base name)) in
      ResultAll-bind P (AreUnique (IsUnder base name)) (if type == directory then below else ok [])
        (λ items. ok (found ∷ items)) (ResultAll-if P (type == directory) below (ok []) k (tt, tt))
        (λ items u. folder-AreUnique base name found items h u)

  pub item_of-path :
      (path : FilePath) (here : Bool) (state : EntryState) (metadata : Metadata)
      → ResultAll
          (λ found. found.relative_path ≡ path)
          (item_of peer exclusions path here state metadata)
  unfolding item_of
  item_of-path path here state metadata =
      ResultAll-bind (λ _. Unit) (λ found. found.relative_path ≡ path)
        (map_err (λ _. read_metadata peer path) (metadata_snapshot metadata state.link_target))
        (λ snapshot. ok (item_with path here state metadata snapshot)) (ResultAll-any _)
        (λ snapshot q. refl)

  entry_result-AreUnique :
      (base : FilePath) (name : Text) (own : Bool) (metadata : Option Metadata)
      (visit : Metadata → Result AnalysisError (List InventoryItem))
      → ((m : Metadata) → ResultAll (AreUnique (IsUnder base name)) (visit m))
      → ResultAll
          (AreUnique (IsUnder base name))
          (entry_result peer exclusions own metadata (at_name base name) visit)
  entry_result-AreUnique base name true metadata visit h = (tt, tt)
  entry_result-AreUnique base name false none visit h = tt
  entry_result-AreUnique base name false (some m) visit h = h m

  entries-AreEntries :
      (absolute base : FilePath) (inherited : Bool) (listing : Listing)
      → has_unique_names listing ≡ true
      → OptionAll
          (AreEntries base listing)
          (walk_entries peer exclusions absolute base inherited listing)
  unfolding walk_entries
  entries-AreEntries absolute base inherited no_more h = (tt, tt, λ name. refl)
  entries-AreEntries absolute base inherited unreadable h = tt
  entries-AreEntries absolute base inherited (listed (entry name state below) rest) h =
      let (new, inside, after) =
        parts (has_name name rest) (has_unique_names below) (has_unique_names rest) h in
      added-AreEntries base name state below rest
        (walk_entries peer exclusions absolute base inherited rest) _ new
        (entry_result-AreUnique base name (is_syncplus_internal_artifact name) state.metadata _
          (λ metadata.
            let type = item_type_of metadata.file_type in
            let here = inherited || is_excluded exclusions (at_name base name) type in
            with_below-AreUnique base name _ type _
              (item_of-path (at_name base name) here state metadata)
              (by_name-AreUnique (at_name absolute name) (at_name base name) below _ (
                entries-AreEntries (at_name absolute name) (at_name base name) here below inside))))
        (entries-AreEntries absolute base inherited rest after)

  -- No inventory that is collected lists a path twice, since no folder has two entries of one name.
  pub collect_inventory-HasUniquePaths :
      (root : FilePath) (metadata : Option Metadata) (listing : Listing)
      (inventory : SourceInventory)
      → has_unique_names listing ≡ true
      → collect_inventory peer exclusions root metadata listing ≡ ok inventory
      → HasUniquePaths inventory
  unfolding walk_directory from_items
  collect_inventory-HasUniquePaths root metadata listing inventory u h =
      let (items, walked, made) =
        collect_inventory_ok peer exclusions root metadata listing inventory h in
      let P = AreUnique (IsBelow (record { components = [] })) in
      let good : ResultAll {E = AnalysisError} P (ok items) = subst (ResultAll P) walked (
        by_name-AreUnique root (record { components = [] }) listing _
          (entries-AreEntries root (record { components = [] }) false listing u)) in
      subst HasUniquePaths made (sort_by-IsDistinct path_of items good.1)
