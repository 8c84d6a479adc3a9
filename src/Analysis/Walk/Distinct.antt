-- ===== src/Analysis/Walk/Distinct.antt =====
-- Lists of items with distinct paths, and that joining the entries' results keeps them distinct.
use sync_plus.Base.{
  false, ◌||◌, List, [], ◌∷◌, ◌++◌, map, Text, All, All-append, contains, ◌≡◌, refl, ◌∙◌, arith,
  ◌==◌, Result, ok, err, panicked, text_eq,
}
use sync_plus.Base.Keyed.{IsDistinct}
use sync_plus.Base.Order.{text_ord}
use sync_plus.Path.{FilePath, path_eq, path_ord}
use sync_plus.Inventory.{InventoryItem, path_of}
use sync_plus.Model.{type_eq}
use sync_plus.Analysis.{AnalysisError}
use sync_plus.Analysis.Walk.{at_name, entry_name, in_order}
use sync_plus.Analysis.Walk.Along.{along, along-apart}
use sync_plus.Analysis.Walk.Results.{
  ResultAll, ResultAll-bind, ResultAll-mono, ResultAll-and, All-mono, EntryAll, in_order-All,
}

abbrev pub IsUnder : FilePath → Text → InventoryItem → Type 0
IsUnder base name item =
    (names : List Text) × (item.relative_path ≡ along (at_name base name) names)

-- Under a name of the folder, or under one that is not the given name.
abbrev pub IsBelow : FilePath → InventoryItem → Type 0
IsBelow base item = (name : Text) × IsUnder base name item

abbrev pub IsOther : FilePath → Text → InventoryItem → Type 0
IsOther base name item = (other : Text) × ((other == name) ≡ false) × IsUnder base other item

abbrev pub AreUnique : (InventoryItem → Type 0) → List InventoryItem → Type 0
AreUnique P items = All P items × IsDistinct path_of items

abbrev pub EntryUnique : FilePath → Text × Result AnalysisError (List InventoryItem) → Type 0
EntryUnique base (name, result) = ResultAll (AreUnique (IsUnder base name)) result

pub not-contains :
    (base : FilePath) (name : Text) (names : List Text) (items : List InventoryItem)
    → All (IsOther base name) items
    → contains (map path_of items) (along (at_name base name) names) ≡ false
not-contains base name names [] h = refl
not-contains base name names (x ∷ items) ((other, d, (ns, at)), hs) =
    ground
      (arith, at, along-apart base name other names ns d, not-contains base name names items hs)

pub contains-paths :
    (path : FilePath) (xs ys : List InventoryItem)
    → contains (map path_of (xs ++ ys)) path
      ≡ (contains (map path_of xs) path || contains (map path_of ys) path)
contains-paths path [] ys = refl
contains-paths path (x ∷ xs) ys = ground (arith, contains-paths path xs ys)

pub append-IsDistinct :
    (base : FilePath) (name : Text) (items rest : List InventoryItem)
    → AreUnique (IsUnder base name) items
    → All (IsOther base name) rest
    → IsDistinct path_of rest
    → IsDistinct path_of (items ++ rest)
append-IsDistinct base name [] rest (h, u) k v = v
append-IsDistinct base name (x ∷ items) rest ((at, h), (d, u)) k v =
    let names = at.0 in
    let new : contains (map path_of rest) x.relative_path ≡ false =
      rw at.1 (not-contains base name names rest k) in
    (
      contains-paths x.relative_path items rest ∙ ground (arith, d, new),
      append-IsDistinct base name items rest (h, u) k v,
    )

-- The results of other names hold nothing under the name.
pub others :
    (base : FilePath) (name : Text)
    (results : List (Text × Result AnalysisError (List InventoryItem)))
    → All (EntryUnique base) results
    → contains (map entry_name results) name ≡ false
    → All (EntryAll (IsOther base name)) results
others base name [] h d = tt
others base name ((other, result) ∷ results) h d =
    let apart : (other == name) ≡ false = ground arith in
    (
      ResultAll-mono (AreUnique (IsUnder base other)) (All (IsOther base name)) result
          (λ items u.
            All-mono (IsUnder base other) (IsOther base name) items (λ item at. (other, apart, at))
              u.0)
          h.0,
      others base name results h.1 (ground arith),
    )

pub in_order-AreUnique :
    (base : FilePath) (results : List (Text × Result AnalysisError (List InventoryItem)))
    → All (EntryUnique base) results
    → IsDistinct entry_name results
    → ResultAll (AreUnique (IsBelow base)) (in_order results)
unfolding in_order
in_order-AreUnique base [] h u = (tt, tt)
in_order-AreUnique base ((name, err e) ∷ results) h u = tt
in_order-AreUnique base ((name, panicked) ∷ results) h u = tt
in_order-AreUnique base ((name, ok items) ∷ results) h u =
    ResultAll-bind (λ rest. AreUnique (IsBelow base) rest × All (IsOther base name) rest)
      (AreUnique (IsBelow base)) (in_order results) (λ rest. ok (items ++ rest))
      (ResultAll-and (AreUnique (IsBelow base)) (All (IsOther base name)) (in_order results)
        (in_order-AreUnique base results h.1 u.1)
        (in_order-All (IsOther base name) results (others base name results h.1 u.0)))
      (λ rest k. (
        All-append (IsBelow base) items rest
            (All-mono (IsUnder base name) (IsBelow base) items (λ item at. (name, at)) h.0.0) k.0.0,
        append-IsDistinct base name items rest h.0 k.1 k.0.1,
      ))
