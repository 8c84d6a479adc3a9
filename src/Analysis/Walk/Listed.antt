-- ===== src/Analysis/Walk/Listed.antt =====
-- What a walk lists, and which of it is excluded.
use sync_plus.Base.{
  Bool, true, false, ◌||◌, Option, none, some, List, [], ◌∷◌, Text, any, All, Elem, subst, sym,
  is_empty, ◌≡◌, refl, arith, ◌==◌, Result, map_err, ok,
}
use sync_plus.Path.{FilePath}
use sync_plus.Model.{ItemType, directory, excluded, outcome_eq, type_eq}
use sync_plus.Inventory.{InventoryItem, SourceInventory}
use sync_plus.Analysis.{AnalysisError, read_metadata}
use sync_plus.Analysis.Exclusion.{is_syncplus_internal_artifact}
use sync_plus.Analysis.Walk.{
  Metadata, EntryState, Entry, entry, Listing, no_more, unreadable, listed, item_type_of, at_name,
  outcome_of, is_excluded, item_with, item_of, by_name, walk_entries, walk_entry, walk_directory,
  collect_inventory, metadata_snapshot,
}
use sync_plus.Analysis.Walk.Along.{along}
use sync_plus.Analysis.Walk.Results.{
  ResultAll, ResultAll-bind, ResultAll-any, OptionAll, EntryAll, by_name-All, with_below-All,
  ResultAll-mono, All-Elem, Elem-from_items, collect_inventory_ok, All-mono, All-Elem,
  Elem-from_items, collect_inventory_ok, entry_result-All,
}

module _ (peer : Text) (exclusions : List Text) where
  -- An exclusion matches what stands at the names, or a folder on the way there.
  abbrev is_shut : FilePath → List Text → ItemType → Bool
  is_shut base [] type = false
  is_shut base (name ∷ []) type = is_excluded exclusions (at_name base name) type
  is_shut base (name ∷ next ∷ names) type =
      is_excluded exclusions (at_name base name) directory
      || is_shut (at_name base name) (next ∷ names) type

  abbrev pub IsListed : FilePath → Bool → InventoryItem → Type 0
  IsListed base inherited item =
      (names : List Text) × (is_empty names ≡ false)
      × (item.relative_path ≡ along base names)
      × (any is_syncplus_internal_artifact names ≡ false)
      × ((item.outcome == excluded) ≡ (inherited || is_shut base names item.item_type))

  outcome_of-excluded : (here : Bool) (type : ItemType) → (outcome_of here type == excluded) ≡ here
  unfolding outcome_eq
  outcome_of-excluded true type = refl
  outcome_of-excluded false type = ground arith

  item_of-IsListed :
      (base : FilePath) (inherited : Bool) (name : Text) (state : EntryState) (metadata : Metadata)
      → is_syncplus_internal_artifact name ≡ false
      → ResultAll (IsListed base inherited) (
          item_of peer exclusions
            (at_name base name)
            (inherited
              || is_excluded exclusions (at_name base name) (item_type_of metadata.file_type))
            state
            metadata)
  unfolding item_of
  item_of-IsListed base inherited name state metadata n =
      ResultAll-bind (λ _. Unit) (IsListed base inherited)
        (map_err (λ _. read_metadata peer (at_name base name))
          (metadata_snapshot metadata state.link_target))
        (λ snapshot. ok (item_with (at_name base name) here state metadata snapshot))
        (ResultAll-any _)
        (λ snapshot q. (
          name ∷ [],
          refl,
          refl,
          ground (arith, n),
          outcome_of-excluded here (item_type_of metadata.file_type),
        ))
    where
      here : Bool
      here =
          inherited || is_excluded exclusions (at_name base name) (item_type_of metadata.file_type)

  -- What stands below a folder stands below the base.
  below-IsListed :
      (base : FilePath) (inherited : Bool) (name : Text) (type : ItemType) (item : InventoryItem)
      → is_syncplus_internal_artifact name ≡ false
      → type ≡ directory
      → IsListed
          (at_name base name)
          (inherited || is_excluded exclusions (at_name base name) type)
          item
      → IsListed base inherited item
  below-IsListed base inherited name type item n d ([], some_name, at, own, shut) = absurd (cc)
  below-IsListed base inherited name type item n d (next ∷ names, some_name, at, own, shut) =
      let shut' : (item.outcome == excluded) ≡ (
          (inherited || is_excluded exclusions (at_name base name) directory)
          || is_shut (at_name base name) (next ∷ names) item.item_type) =
        rw (← d) shut in
      (name ∷ next ∷ names, refl, at, ground (arith, own), ground (arith, shut'))

  added-IsListed :
      (base : FilePath) (inherited : Bool)
      (o : Option (List (Text × Result AnalysisError (List InventoryItem))))
      (found : Text × Result AnalysisError (List InventoryItem))
      → EntryAll (IsListed base inherited) found
      → OptionAll (All (EntryAll (IsListed base inherited))) o
      → OptionAll
          (All (EntryAll (IsListed base inherited)))
          (elim o [ none ↦ none | some results ↦ some (found ∷ results) ])
  added-IsListed base inherited none found h k = tt
  added-IsListed base inherited (some results) found h k = (h, k)

  mutual
    unfolding walk_entries

    entries-IsListed :
        (absolute base : FilePath) (inherited : Bool) (listing : Listing)
        → OptionAll
            (All (EntryAll (IsListed base inherited)))
            (walk_entries peer exclusions absolute base inherited listing)
    entries-IsListed absolute base inherited no_more = tt
    entries-IsListed absolute base inherited unreadable = tt
    entries-IsListed absolute base inherited (listed e rest) =
        added-IsListed base inherited (walk_entries peer exclusions absolute base inherited rest) _
          (entry-IsListed absolute base inherited e) (entries-IsListed absolute base inherited rest)

    entry-IsListed :
        (absolute base : FilePath) (inherited : Bool) (e : Entry)
        → EntryAll (IsListed base inherited) (walk_entry peer exclusions absolute base inherited e)
    entry-IsListed absolute base inherited (entry name state below) =
        entry_result-All (IsListed base inherited) peer exclusions
          (is_syncplus_internal_artifact name) state.metadata (at_name base name) _
          (λ metadata own known.
            let type = item_type_of metadata.file_type in
            let here = inherited || is_excluded exclusions (at_name base name) type in
            with_below-All (IsListed base inherited)
              (item_of peer exclusions (at_name base name) here state metadata) type
              (by_name peer exclusions (at_name absolute name) (
                walk_entries peer exclusions (at_name absolute name) (at_name base name) here
                  below))
              (item_of-IsListed base inherited name state metadata own)
              (λ is_folder.
                let inner = IsListed (at_name base name) here in
                ResultAll-mono (All inner) (All (IsListed base inherited)) _
                  (λ items.
                    All-mono inner (IsListed base inherited) items
                      (λ item. below-IsListed base inherited name type item own is_folder))
                  (by_name-All inner peer exclusions (at_name absolute name)
                    (walk_entries peer exclusions (at_name absolute name) (at_name base name) here
                      below)
                    (entries-IsListed (at_name absolute name) (at_name base name) here below))))

  walk_directory-IsListed :
      (absolute base : FilePath) (inherited : Bool) (listing : Listing)
      → ResultAll
          (All (IsListed base inherited))
          (walk_directory peer exclusions absolute base inherited listing)
  unfolding walk_directory
  walk_directory-IsListed absolute base inherited listing =
      by_name-All (IsListed base inherited) peer exclusions absolute
        (walk_entries peer exclusions absolute base inherited listing)
        (entries-IsListed absolute base inherited listing)

  -- What an analysis lists of a peer stands at names from the root on, none of which belongs to
  -- SyncPlus itself, and is excluded exactly when an exclusion matches it, or matches a folder that it
  -- stands in.
  pub collect_inventory-IsListed :
      (root : FilePath) (metadata : Option Metadata) (listing : Listing)
      (inventory : SourceInventory)
      → collect_inventory peer exclusions root metadata listing ≡ ok inventory
      → (item : InventoryItem) → Elem item inventory.items
      → IsListed (record { components = [] }) false item
  collect_inventory-IsListed root metadata listing inventory h item k =
      let (items, walked, made) =
        collect_inventory_ok peer exclusions root metadata listing inventory h in
      let P = IsListed (record { components = [] }) false in
      let all_listed : ResultAll {E = AnalysisError} (All P) (ok items) =
        subst (ResultAll (All P)) walked
          (walk_directory-IsListed root (record { components = [] }) false listing) in
      All-Elem P items all_listed (
        Elem-from_items peer root item items
          (subst (λ (i : SourceInventory). Elem item i.items) (sym made) k))
