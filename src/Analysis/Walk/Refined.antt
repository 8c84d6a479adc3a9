-- ===== src/Analysis/Walk/Refined.antt =====
-- A collected inventory looks up what stands in the tree.
use sync_plus.Base.{
  true, false, Option, some, List, [], ◌∷◌, map, Text, All, Elem, Elem-find, Elem-sort_by_of, ◌≡◌,
  refl, sym, ap, ◌∙◌, subst, arith, Option-cases, inl, inr, ok, ◌==◌,
}
use sync_plus.Path.{normal, FilePath, path_eq, path_ord}
use sync_plus.Inventory.{InventoryItem, SourceInventory, from_items, inventory_item, path_of}
use sync_plus.Plan.Valid.{find_of-Elem}
use sync_plus.Analysis.{AnalysisError}
use sync_plus.Analysis.Walk.{Metadata, Listing, walk_directory, collect_inventory}
use sync_plus.Analysis.Walk.Results.{ResultAll, All-Elem, Elem-from_items, collect_inventory_ok}
use sync_plus.Analysis.Walk.Along.{along, components-along, cancelled}
use sync_plus.Analysis.Walk.Unique.{has_unique_names, collect_inventory-HasUniquePaths}
use sync_plus.Analysis.Walk.Reference.{item_at}
use sync_plus.Analysis.Walk.Found.{Elem-item_at, item_at-along}
use sync_plus.Analysis.Walk.Exact.{IsAt, walked-IsAt}

names-injective : (ns ms : List Text) → map normal ns ≡ map normal ms → ns ≡ ms
names-injective [] [] h = refl
names-injective [] (m ∷ ms) h = cc
names-injective (n ∷ ns) [] h = cc
names-injective (n ∷ ns) (m ∷ ms) h = ground (arith, names-injective ns ms, h)

along-names : (base : FilePath) (ns ms : List Text) → along base ns ≡ along base ms → ns ≡ ms
along-names base ns ms h = names-injective ns ms (
    cancelled base.components _ _ (
      sym (components-along base ns)
      ∙ ap (λ (p : FilePath). p.components) h
      ∙ components-along base ms))

same_path : (p q : FilePath) → (p == q) ≡ true → p ≡ q
same_path p q h = ground (arith, h)

abbrev pub top : FilePath
top = record { components = [] }

module _ (peer : Text) (exclusions : List Text) (root : FilePath) (metadata : Option Metadata)
    (listing : Listing) (inventory : SourceInventory) (unique : has_unique_names listing ≡ true)
    (collected : collect_inventory peer exclusions root metadata listing ≡ ok inventory) where
  held :
      (item : InventoryItem)
      → Elem item inventory.items
      → IsAt peer exclusions top false listing item
  held item k =
      let (items, walked, made) =
        collect_inventory_ok peer exclusions root metadata listing inventory collected in
      let P = IsAt peer exclusions top false listing in
      let all_at : ResultAll {E = AnalysisError} (All P) (ok items) =
        subst (ResultAll (All P)) walked
          (walked-IsAt peer exclusions root top false listing unique) in
      All-Elem P items all_at (
        Elem-from_items peer root item items
          (subst (λ (i : SourceInventory). Elem item i.items) (sym made) k))

  listed_there :
      (names : List Text) (item : InventoryItem)
      → item_at peer exclusions top false names listing ≡ some item
      → Elem item inventory.items
  unfolding walk_directory from_items
  listed_there names item f =
      let (items, walked, made) =
        collect_inventory_ok peer exclusions root metadata listing inventory collected in
      subst (λ (i : SourceInventory). Elem item i.items) made
        (Elem-sort_by_of path_of item items
          (Elem-item_at peer exclusions root top false names listing walked f))

  -- A collected inventory is the tree's own answer at every path of names: it gives the item that
  -- following the names leads to, with the type, the metadata and the outcome that it has there, and
  -- nothing where they lead nowhere or through one of SyncPlus's own files. No folder has two entries
  -- of one name.
  pub inventory_item-collect_inventory :
      (names : List Text)
      → inventory_item inventory (along top names) ≡ item_at peer exclusions top false names listing
  inventory_item-collect_inventory names =
      elim (Option-cases (item_at peer exclusions top false names listing)) [
        | inr (item, f) ↦
            let placed = item_at-along peer exclusions top false names listing item f in
            subst
              (λ p. inventory_item inventory p ≡ item_at peer exclusions top false names listing)
              placed
              (find_of-Elem inventory.items item
                  (collect_inventory-HasUniquePaths peer exclusions root metadata listing inventory
                    unique collected)
                  (listed_there names item f)
                ∙ sym f)
        | inl absent ↦ elim (Option-cases (inventory_item inventory (along top names))) [
          | inl e ↦ e ∙ sym absent
          | inr (x, e) ↦
              let (k, p) = Elem-find _ inventory.items e in
              let (ns, placed, there) = held x k in
              let same : ns ≡ names = along-names top ns names (sym placed ∙ same_path _ _ p) in
              e ∙ sym (subst (λ n. item_at peer exclusions top false n listing ≡ some x) same there)
        ]
      ]
