-- ===== src/Analysis/Walk/Exact.antt =====
-- Every item that a walk lists stands in the tree, at its path.
use mathlib.Core.Option.{none-ne-some}
use sync_plus.Base.{
  Bool, true, false, ◌||◌, Option, none, some, List, [], ◌∷◌, Text, All, ◌≡◌, refl, ap, ◌∙◌, arith,
  ◌==◌, if◌then◌else◌, Result, ok, text_eq,
}
use sync_plus.Path.{FilePath}
use sync_plus.Model.{ItemType, directory, type_eq}
use sync_plus.Inventory.{InventoryItem}
use sync_plus.Analysis.{AnalysisError}
use sync_plus.Analysis.Exclusion.{is_syncplus_internal_artifact}
use sync_plus.Analysis.Walk.{
  Metadata, EntryState, entry, Listing, no_more, unreadable, listed, item_type_of, at_name,
  is_excluded, item_of, walk_entries, walk_directory,
}
use sync_plus.Analysis.Walk.Results.{
  ResultAll, ResultAll-self, ResultAll-mono, ResultAll-and, OptionAll, EntryAll, All-mono,
  by_name-All, with_below-All, entry_result-All,
}
use sync_plus.Analysis.Walk.Along.{along}
use sync_plus.Analysis.Walk.Unique.{has_name, has_unique_names, parts, item_of-path}
use sync_plus.Analysis.Walk.Reference.{find_entry, value_of, here_or_deeper, item_at}

found-has_name :
    (name : Text) (listing : Listing) {place : EntryState × Listing}
    → find_entry name listing ≡ some place
    → has_name name listing ≡ true
found-has_name name no_more h = absurd (none-ne-some _ h)
found-has_name name unreadable h = absurd (none-ne-some _ h)
found-has_name name (listed (entry other state below) rest) {place} h =
    ground (arith, found-has_name name rest {place = place})

other_name :
    (name other : Text) (rest : Listing)
    → has_name name rest ≡ false
    → has_name other rest ≡ true
    → (name == other) ≡ false
other_name name other rest h k = ground (arith, h, k)

deeper_if :
    (type : ItemType) (own : Result AnalysisError InventoryItem) (deeper : Option InventoryItem)
    (next : Text) (names : List Text) {item : InventoryItem}
    → type ≡ directory
    → deeper ≡ some item
    → here_or_deeper (next ∷ names) type own deeper ≡ some item
deeper_if type own deeper next names d h = ground (arith, d, h)

-- A name that is not the first entry's is looked up in the rest.
passed :
    (same : Bool) (first : EntryState × Listing) {o : Option (EntryState × Listing)}
    {place : EntryState × Listing}
    → same ≡ false
    → o ≡ some place
    → (if same then some first else o) ≡ some place
passed same first e f = rw e f

added-All :
    {A : Type 0} (P : A → Type 0) (o : Option (List A)) (x : A)
    → P x
    → OptionAll (All P) o
    → OptionAll (All P) (elim o [ none ↦ none | some xs ↦ some (x ∷ xs) ])
added-All P none x h k = tt
added-All P (some xs) x h k = (h, k)

module _ (peer : Text) (exclusions : List Text) where
  abbrev pub IsAt : FilePath → Bool → Listing → InventoryItem → Type 0
  IsAt base inherited listing item =
      (names : List Text) × (item.relative_path ≡ along base names)
      × (item_at peer exclusions base inherited names listing ≡ some item)

  module _ (base : FilePath) (inherited : Bool) (whole : Listing) (name : Text) (state : EntryState)
      (below : Listing) (metadata : Metadata) (at : find_entry name whole ≡ some (state, below))
      (own : is_syncplus_internal_artifact name ≡ false)
      (known : state.metadata ≡ some metadata) where
    abbrev here : Bool
    here = inherited || is_excluded exclusions (at_name base name) (item_type_of metadata.file_type)

    abbrev own_item : Result AnalysisError InventoryItem
    own_item = item_of peer exclusions (at_name base name) here state metadata

    item_at-step :
        (names : List Text)
        → item_at peer exclusions base inherited (name ∷ names) whole
          ≡ here_or_deeper names
              (item_type_of metadata.file_type)
              own_item
              (item_at peer exclusions (at_name base name) here names below)
    unfolding item_at
    item_at-step names = rw (at, own, known) refl

    own_item-IsAt : ResultAll (IsAt base inherited whole) own_item
    own_item-IsAt =
        ResultAll-mono (λ a. (own_item ≡ ok a) × (a.relative_path ≡ at_name base name))
          (IsAt base inherited whole) own_item
          (λ a (is, placed). (name ∷ [], placed, item_at-step [] ∙ ap value_of is))
          (ResultAll-and (λ a. own_item ≡ ok a) (λ a. a.relative_path ≡ at_name base name) own_item
            (ResultAll-self own_item)
            (item_of-path peer exclusions (at_name base name) here state metadata))

    deeper-IsAt :
        item_type_of metadata.file_type ≡ directory
        → (item : InventoryItem) → IsAt (at_name base name) here below item
        → IsAt base inherited whole item
    unfolding item_at
    deeper-IsAt d item ([], placed, there) = absurd (none-ne-some _ there)
    deeper-IsAt d item (next ∷ names, placed, there) = (
      name ∷ next ∷ names,
      placed,
      item_at-step (next ∷ names)
          ∙ deeper_if (item_type_of metadata.file_type) own_item _ next names d there,
    )

  -- The entries of a suffix of the listing, each found in the whole.
  IsWithin : Listing → Listing → Type 0
  IsWithin suffix whole =
      (name : Text) (place : EntryState × Listing)
      → find_entry name suffix ≡ some place
      → find_entry name whole ≡ some place

  rest-IsWithin :
      (name : Text) (state : EntryState) (below rest whole : Listing)
      → has_name name rest ≡ false
      → IsWithin (listed (entry name state below) rest) whole
      → IsWithin rest whole
  unfolding IsWithin
  rest-IsWithin name state below rest whole new h other place f = h other place (
      passed (name == other) (state, below)
        (other_name name other rest new (found-has_name other rest f)) f)

  entries-IsAt :
      (absolute base : FilePath) (inherited : Bool) (whole suffix : Listing)
      → IsWithin suffix whole
      → has_unique_names suffix ≡ true
      → OptionAll
          (All (EntryAll (IsAt base inherited whole)))
          (walk_entries peer exclusions absolute base inherited suffix)
  unfolding walk_entries IsWithin
  entries-IsAt absolute base inherited whole no_more h u = tt
  entries-IsAt absolute base inherited whole unreadable h u = tt
  entries-IsAt absolute base inherited whole (listed (entry name state below) rest) h u =
      let (new, inside, after) =
        parts (has_name name rest) (has_unique_names below) (has_unique_names rest) u in
      let at : find_entry name whole ≡ some (state, below) = h name (state, below) (ground arith) in
      let P = IsAt base inherited whole in
      added-All (EntryAll P) (walk_entries peer exclusions absolute base inherited rest) _
        (entry_result-All P peer exclusions (is_syncplus_internal_artifact name) state.metadata
          (at_name base name) _
          (λ metadata own known.
            let type = item_type_of metadata.file_type in
            let below_here = inherited || is_excluded exclusions (at_name base name) type in
            let Q = IsAt (at_name base name) below_here below in
            with_below-All P _ type _
              (own_item-IsAt base inherited whole name state below metadata at own known)
              (λ d.
                ResultAll-mono (All Q) (All P) _
                  (λ items.
                    All-mono Q P items
                      (deeper-IsAt base inherited whole name state below metadata at own known d))
                  (by_name-All Q peer exclusions (at_name absolute name) _ (
                    entries-IsAt (at_name absolute name) (at_name base name) below_here below below
                      (λ n p f. f) inside)))))
        (entries-IsAt absolute base inherited whole rest
          (rest-IsWithin name state below rest whole new h) after)

  -- Every item that a walk lists is the one that stands at its path.
  pub walked-IsAt :
      (absolute base : FilePath) (inherited : Bool) (listing : Listing)
      → has_unique_names listing ≡ true
      → ResultAll
          (All (IsAt base inherited listing))
          (walk_directory peer exclusions absolute base inherited listing)
  unfolding walk_directory IsWithin
  walked-IsAt absolute base inherited listing u =
      by_name-All (IsAt base inherited listing) peer exclusions absolute _
        (entries-IsAt absolute base inherited listing listing (λ n p f. f) u)
