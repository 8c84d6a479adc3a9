-- ===== src/Analysis/Walk/Found.antt =====
-- What stands at a path of names is listed there.
use mathlib.Core.Option.{none-ne-some, some-injective}
use sync_plus.Base.{
  Bool, true, false, Option, none, some, List, [], ◌∷◌, ◌++◌, Text, Elem, Elem-append_left,
  Elem-append_right, Elem-sort_by_of, inl, inr, ◌≡◌, refl, sym, ap, ◌∙◌, subst, arith, ◌==◌,
  if◌then◌else◌, Result, ok, err, panicked, bind_ok, ok-injective, Bool-cases, text_eq,
}
use sync_plus.Base.Order.{sort_by, text_ord}
use sync_plus.Path.{FilePath}
use sync_plus.Model.{ItemType, directory, type_eq}
use sync_plus.Inventory.{InventoryItem}
use sync_plus.Analysis.{AnalysisError}
use sync_plus.Analysis.Exclusion.{is_syncplus_internal_artifact}
use sync_plus.Analysis.Walk.Along.{along}
use sync_plus.Analysis.Walk.Reference.{
  find_entry, value_of, here_or_deeper, seen, in_entry, item_at,
}
use sync_plus.Analysis.Walk.Results.{ResultAll}
use sync_plus.Analysis.Walk.Unique.{item_of-path}
use sync_plus.Analysis.Walk.{
  Metadata, EntryState, entry, Listing, no_more, unreadable, listed, item_type_of, at_name,
  entry_name, in_order, by_name, with_below, entry_result, walk_entries, walk_entry,
}

added_some :
    {A : Type 0} (o : Option (List A)) (x : A) {results : List A}
    → elim o [ none ↦ none | some xs ↦ some (x ∷ xs) ] ≡ some results
    → (xs : List A) × (o ≡ some xs) × (x ∷ xs ≡ results)
added_some none x h = absurd (none-ne-some _ h)
added_some (some xs) x h = (xs, refl, some-injective _ _ h)

in_entry-some :
    (o : Option (EntryState × Listing)) (visit : EntryState → Listing → Option InventoryItem)
    {item : InventoryItem}
    → in_entry o visit ≡ some item
    → (state : EntryState) × (below : Listing) × (o ≡ some (state, below))
      × (visit state below ≡ some item)
in_entry-some none visit h = absurd (none-ne-some _ h)
in_entry-some (some (state, below)) visit h = (state, below, refl, h)

seen-some :
    (own : Bool) (metadata : Option Metadata) (visit : Metadata → Option InventoryItem)
    {item : InventoryItem}
    → seen own metadata visit ≡ some item
    → (m : Metadata) × (own ≡ false) × (metadata ≡ some m) × (visit m ≡ some item)
seen-some true metadata visit h = absurd (none-ne-some _ h)
seen-some false none visit h = absurd (none-ne-some _ h)
seen-some false (some m) visit h = (m, refl, refl, h)

if_folder :
    (folder : Bool) {deeper : Option InventoryItem} {item : InventoryItem}
    {below : Result AnalysisError (List InventoryItem)} {its : List InventoryItem}
    → (if folder then deeper else none) ≡ some item
    → (if folder then below else ok []) ≡ ok its
    → (deeper ≡ some item) × (below ≡ ok its)
if_folder true f under = (f, under)
if_folder false f under = absurd (none-ne-some _ f)

-- A folder's results hold the folder and what is found deeper.
Elem-with_below :
    (names : List Text) (type : ItemType) (here : Result AnalysisError InventoryItem)
    (below : Result AnalysisError (List InventoryItem)) (deeper : Option InventoryItem)
    {own : List InventoryItem} {item : InventoryItem}
    → with_below here type below ≡ ok own
    → here_or_deeper names type here deeper ≡ some item
    → ((its : List InventoryItem) → below ≡ ok its → deeper ≡ some item → Elem item its)
    → Elem item own
Elem-with_below [] type here below deeper {item = item} w f h =
    let (found, is, w1) = bind_ok here _ w in
    let (its, under, w2) = bind_ok (if type == directory then below else ok []) _ w1 in
    let same : found ≡ item = some-injective _ _ (ap value_of (sym is) ∙ f) in
    subst (Elem item) (ok-injective w2) (inl same)
Elem-with_below (name ∷ names) type here below deeper {item = item} w f h =
    let (found, is, w1) = bind_ok here _ w in
    let (its, under, w2) = bind_ok (if type == directory then below else ok []) _ w1 in
    let (deeper_some, below_ok) = if_folder (type == directory) f under in
    subst (Elem item) (ok-injective w2) (inr (h its below_ok deeper_some))

value_of-all :
    (P : InventoryItem → Type 0) (r : Result AnalysisError InventoryItem) {item : InventoryItem}
    → ResultAll P r
    → value_of r ≡ some item
    → P item
value_of-all P (ok found) h e = subst P (some-injective _ _ e) h
value_of-all P (err x) h e = absurd (none-ne-some _ e)
value_of-all P panicked h e = absurd (none-ne-some _ e)

if_some :
    (folder : Bool) {deeper : Option InventoryItem} {item : InventoryItem}
    → (if folder then deeper else none) ≡ some item
    → deeper ≡ some item
if_some true f = f
if_some false f = absurd (none-ne-some _ f)

module _ (peer : Text) (exclusions : List Text) where
  -- The entry's result is among the results.
  Elem-walk_entries :
      (absolute base : FilePath) (inherited : Bool) (name : Text) (state : EntryState)
      (below listing : Listing) {results : List (Text × Result AnalysisError (List InventoryItem))}
      → walk_entries peer exclusions absolute base inherited listing ≡ some results
      → find_entry name listing ≡ some (state, below)
      → Elem (walk_entry peer exclusions absolute base inherited (entry name state below)) results
  unfolding walk_entries
  Elem-walk_entries absolute base inherited name state below no_more w f = absurd (cc)
  Elem-walk_entries absolute base inherited name state below unreadable w f = absurd (cc)
  Elem-walk_entries absolute base inherited name state below (listed (entry other s b) rest) w f =
      let (others, rested, whole) =
        added_some (walk_entries peer exclusions absolute base inherited rest) _ w in
      elim (Bool-cases (other == name)) [
        | inl e ↦
            let named : other ≡ name = ground (arith, e) in
            let at : (s, b) ≡ (state, below) = some-injective _ _ (rw e at f) in
            let same : entry other s b ≡ entry name state below =
              ap (λ (p : EntryState × Listing). entry other p.0 p.1) at
              ∙ ap (λ (n : Text). entry n state below) named in
            subst
              (Elem (walk_entry peer exclusions absolute base inherited (entry name state below)))
              whole (inl (ap (walk_entry peer exclusions absolute base inherited) same))
        | inr e ↦
            subst
              (Elem (walk_entry peer exclusions absolute base inherited (entry name state below)))
              whole
              (inr (
                Elem-walk_entries absolute base inherited name state below rest rested (rw e at f)))
      ]

  -- All of what an entry gives is given.
  Elem-in_order :
      (name : Text) (result : Result AnalysisError (List InventoryItem))
      (results : List (Text × Result AnalysisError (List InventoryItem)))
      (items : List InventoryItem)
      → in_order results ≡ ok items
      → Elem (name, result) results
      → (own : List InventoryItem) × (result ≡ ok own)
        × ((x : InventoryItem) → Elem x own → Elem x items)
  unfolding in_order
  Elem-in_order name result [] items h k = absurd k
  Elem-in_order name result ((other, r) ∷ results) items h k =
      let (own, owned, h1) = bind_ok r _ h in
      let (rest, rested, h2) = bind_ok (in_order results) _ h1 in
      let whole : own ++ rest ≡ items = ok-injective h2 in
      elim k [
        | inl same ↦ (
          own,
          sym (ap (λ (p : Text × Result AnalysisError (List InventoryItem)). p.1) same) ∙ owned,
          λ x q. subst (Elem x) whole (Elem-append_left x own rest q),
        )
        | inr there ↦
            let (mine, is, inside) = Elem-in_order name result results rest rested there in
            (mine, is, λ x q. subst (Elem x) whole (Elem-append_right x own rest (inside x q)))
      ]

  by_name_ok :
      (absolute : FilePath) (o : Option (List (Text × Result AnalysisError (List InventoryItem))))
      {items : List InventoryItem}
      → by_name peer exclusions absolute o ≡ ok items
      → (results : List (Text × Result AnalysisError (List InventoryItem))) × (o ≡ some results)
        × (in_order (sort_by entry_name results) ≡ ok items)
  unfolding by_name
  by_name_ok absolute none h = absurd (cc)
  by_name_ok absolute (some results) h = (results, refl, h)

  entry_visited :
      (own : Bool) (metadata : Option Metadata) (path : FilePath)
      (visit : Metadata → Result AnalysisError (List InventoryItem)) {m : Metadata}
      → own ≡ false
      → metadata ≡ some m
      → entry_result peer exclusions own metadata path visit ≡ visit m
  entry_visited own metadata path visit h k = rw (h, k) refl

  -- What stands at the names is listed.
  pub Elem-item_at :
      (absolute base : FilePath) (inherited : Bool) (names : List Text) (listing : Listing)
      {items : List InventoryItem} {item : InventoryItem}
      → by_name peer exclusions absolute
          (walk_entries peer exclusions absolute base inherited listing)
        ≡ ok items
      → item_at peer exclusions base inherited names listing ≡ some item
      → Elem item items
  unfolding item_at walk_entries
  Elem-item_at absolute base inherited [] listing w f = absurd (cc)
  Elem-item_at absolute base inherited (name ∷ names) listing {items} {item} w f =
      let (state, below, at, f1) = in_entry-some (find_entry name listing) _ f in
      let (metadata, own, known, f2) =
        seen-some (is_syncplus_internal_artifact name) state.metadata _ f1 in
      let (results, entries, ordered) =
        by_name_ok absolute (walk_entries peer exclusions absolute base inherited listing) w in
      let there = Elem-walk_entries absolute base inherited name state below listing entries at in
      let (mine, is, inside) =
        Elem-in_order name _ (sort_by entry_name results) items ordered
          (Elem-sort_by_of entry_name _ results there) in
      inside item (
        Elem-with_below names (item_type_of metadata.file_type) _ _ _
          (sym (entry_visited _ _ (at_name base name) _ own known) ∙ is) f2
          (λ its deeper_ok deeper_some.
            Elem-item_at (at_name absolute name) (at_name base name) _ names below deeper_ok
              deeper_some))

  pub item_at-along :
      (base : FilePath) (inherited : Bool) (names : List Text) (listing : Listing)
      (item : InventoryItem)
      → item_at peer exclusions base inherited names listing ≡ some item
      → item.relative_path ≡ along base names
  unfolding item_at
  item_at-along base inherited [] listing item f = absurd (none-ne-some _ f)
  item_at-along base inherited (name ∷ []) listing item f =
      let (state, below, at, f1) = in_entry-some (find_entry name listing) _ f in
      let (metadata, own, known, f2) =
        seen-some (is_syncplus_internal_artifact name) state.metadata _ f1 in
      value_of-all (λ a. a.relative_path ≡ at_name base name) _
        (item_of-path peer exclusions (at_name base name) _ state metadata) f2
  item_at-along base inherited (name ∷ next ∷ names) listing item f =
      let (state, below, at, f1) = in_entry-some (find_entry name listing) _ f in
      let (metadata, own, known, f2) =
        seen-some (is_syncplus_internal_artifact name) state.metadata _ f1 in
      item_at-along (at_name base name) _ (next ∷ names) below item
        (if_some (item_type_of metadata.file_type == directory) f2)
