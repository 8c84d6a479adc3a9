-- ===== src/Analysis/Walk/Results.antt =====
-- Predicates on what a walk gives, and that sorting and joining the entries' results keep them.
use Prim.Native.Nat.Ordering.{lt, eq, gt}
use sync_plus.Base.{
  Bool, true, false, Option, none, some, List, [], ◌∷◌, ◌++◌, Text, All, All-append, ◌≡◌, refl,
  Result, ok, err, panicked, bind_ok, ok-injective, Bool-cases, inl, inr, Elem, subst, Elem-sort_by,
  ◌>>=◌, if◌then◌else◌, ◌==◌, arith,
}
use sync_plus.Base.Order.{Ord, insert_by, sort_by, text_ord}
use sync_plus.Path.{FilePath, path_ord}
use sync_plus.Model.{ItemType, regular_file, directory, symlink, unsupported_type, type_eq}
use sync_plus.Inventory.{InventoryItem, SourceInventory, from_items, path_of}
use sync_plus.Analysis.{AnalysisError}
use sync_plus.Analysis.Walk.{
  Metadata, Listing, item_type_of, walk_directory, collect_inventory, entry_result, in_order,
  by_name, with_below, entry_name,
}

-- Of each value that is there.
abbrev pub ResultAll : {E A : Type 0} → (A → Type 0) → Result E A → Type 0
ResultAll P (ok a) = P a
ResultAll P (err e) = Unit
ResultAll P panicked = Unit

abbrev pub OptionAll : {A : Type 0} → (A → Type 0) → Option A → Type 0
OptionAll P none = Unit
OptionAll P (some a) = P a

pub ResultAll-bind :
    {E A B : Type 0} (P : A → Type 0) (Q : B → Type 0) (r : Result E A) (f : A → Result E B)
    → ResultAll P r
    → ((a : A) → P a → ResultAll Q (f a))
    → ResultAll Q (r >>= f)
ResultAll-bind P Q (ok a) f h k = k a h
ResultAll-bind P Q (err e) f h k = tt
ResultAll-bind P Q panicked f h k = tt

pub ResultAll-any : {E A : Type 0} (r : Result E A) → ResultAll (λ _. Unit) r
ResultAll-any (ok a) = tt
ResultAll-any (err e) = tt
ResultAll-any panicked = tt

pub ResultAll-self : {E A : Type 0} (r : Result E A) → ResultAll (λ a. r ≡ ok a) r
ResultAll-self (ok a) = refl
ResultAll-self (err e) = tt
ResultAll-self panicked = tt

pub ResultAll-mono :
    {E A : Type 0} (P Q : A → Type 0) (r : Result E A)
    → ((a : A) → P a → Q a)
    → ResultAll P r
    → ResultAll Q r
ResultAll-mono P Q (ok a) f h = f a h
ResultAll-mono P Q (err e) f h = tt
ResultAll-mono P Q panicked f h = tt

pub ResultAll-and :
    {E A : Type 0} (P Q : A → Type 0) (r : Result E A)
    → ResultAll P r
    → ResultAll Q r
    → ResultAll (λ a. P a × Q a) r
ResultAll-and P Q (ok a) h k = (h, k)
ResultAll-and P Q (err e) h k = tt
ResultAll-and P Q panicked h k = tt

pub ResultAll-if :
    {E A : Type 0} (P : A → Type 0) (b : Bool) (x y : Result E A)
    → ResultAll P x
    → ResultAll P y
    → ResultAll P (if b then x else y)
ResultAll-if P true x y h k = h
ResultAll-if P false x y h k = k

pub All-mono :
    {A : Type 0} (P Q : A → Type 0) (xs : List A) → ((a : A) → P a → Q a) → All P xs → All Q xs
All-mono P Q [] f h = tt
All-mono P Q (x ∷ xs) f h = (f x h.0, All-mono P Q xs f h.1)

pub All-Elem : {A : Type 0} (P : A → Type 0) (xs : List A) {a : A} → All P xs → Elem a xs → P a
All-Elem P [] h k = absurd k
All-Elem P (x ∷ xs) h (inl e) = subst P e h.0
All-Elem P (x ∷ xs) h (inr k) = All-Elem P xs h.1 k

module _ {A K : Type 0} ⦃o : Ord K⦄ (key : A → K) (P : A → Type 0) where
  All-insert_by : (a : A) (xs : List A) → P a → All P xs → All P (insert_by key a xs)
  All-insert_by a [] h k = (h, tt)
  All-insert_by a (b ∷ xs) h k =
      elim (o.cmp (key a) (key b))
        as (λ x. All P (elim x [ gt ↦ b ∷ insert_by key a xs | _ ↦ a ∷ b ∷ xs ])) [
          | gt ↦ (k.0, All-insert_by a xs h k.1)
          | lt ↦ (h, k)
          | eq ↦ (h, k)
        ]

  pub All-sort_by : (xs : List A) → All P xs → All P (sort_by key xs)
  unfolding sort_by
  All-sort_by [] h = tt
  All-sort_by (x ∷ xs) h = All-insert_by x (sort_by key xs) h.0 (All-sort_by xs h.1)

module _ (P : InventoryItem → Type 0) where
  -- Of each item that an entry gives.
  abbrev pub EntryAll : Text × Result AnalysisError (List InventoryItem) → Type 0
  EntryAll entry = ResultAll (All P) entry.1

  pub in_order-All :
      (results : List (Text × Result AnalysisError (List InventoryItem)))
      → All EntryAll results
      → ResultAll (All P) (in_order results)
  unfolding in_order
  in_order-All [] h = tt
  in_order-All ((name, ok items) ∷ results) h =
      ResultAll-bind (All P) (All P) (in_order results) (λ rest. ok (items ++ rest))
        (in_order-All results h.1) (λ rest k. All-append P items rest h.0 k)
  in_order-All ((name, err e) ∷ results) h = tt
  in_order-All ((name, panicked) ∷ results) h = tt

  pub by_name-All :
      (peer : Text) (exclusions : List Text) (absolute : FilePath)
      (o : Option (List (Text × Result AnalysisError (List InventoryItem))))
      → OptionAll (All EntryAll) o
      → ResultAll (All P) (by_name peer exclusions absolute o)
  unfolding by_name
  by_name-All peer exclusions absolute none h = tt
  by_name-All peer exclusions absolute (some results) h =
      in_order-All (sort_by entry_name results) (All-sort_by entry_name EntryAll results h)

  below-All :
      (type : ItemType) (below : Result AnalysisError (List InventoryItem))
      → (type ≡ directory → ResultAll (All P) below)
      → ResultAll (All P) (if type == directory then below else ok [])
  unfolding type_eq
  below-All directory below k = k refl
  below-All regular_file below k = tt
  below-All symlink below k = tt
  below-All unsupported_type below k = tt

  pub with_below-All :
      (item : Result AnalysisError InventoryItem) (type : ItemType)
      (below : Result AnalysisError (List InventoryItem))
      → ResultAll P item
      → (type ≡ directory → ResultAll (All P) below)
      → ResultAll (All P) (with_below item type below)
  with_below-All (ok found) type below h k =
      ResultAll-bind (All P) (All P) (if type == directory then below else ok [])
        (λ items. ok (found ∷ items)) (below-All type below k) (λ items q. (h, q))
  with_below-All (err e) type below h k = tt
  with_below-All panicked type below h k = tt

  pub entry_result-All :
      (peer : Text) (exclusions : List Text) (own : Bool) (metadata : Option Metadata)
      (path : FilePath) (visit : Metadata → Result AnalysisError (List InventoryItem))
      → ((m : Metadata) → own ≡ false → metadata ≡ some m → ResultAll (All P) (visit m))
      → ResultAll (All P) (entry_result peer exclusions own metadata path visit)
  entry_result-All peer exclusions true metadata path visit h = tt
  entry_result-All peer exclusions false none path visit h = tt
  entry_result-All peer exclusions false (some m) path visit h = h m refl refl

pub Elem-from_items :
    (peer : Text) (root : FilePath) (item : InventoryItem) (items : List InventoryItem)
    → Elem item (from_items peer root items).items
    → Elem item items
unfolding from_items
Elem-from_items peer root item items h = Elem-sort_by path_of item items h

-- An inventory that was collected holds what the walk gave, sorted by path.
pub collect_inventory_ok :
    (peer : Text) (exclusions : List Text) (root : FilePath) (metadata : Option Metadata)
    (listing : Listing) (inventory : SourceInventory)
    → collect_inventory peer exclusions root metadata listing ≡ ok inventory
    → (items : List InventoryItem) × (walk_directory peer exclusions root
          (record { components = [] })
          false
          listing
        ≡ ok items)
      × (from_items peer root items ≡ inventory)
unfolding collect_inventory
collect_inventory_ok peer exclusions root none listing inventory h = absurd (cc)
collect_inventory_ok peer exclusions root (some metadata) listing inventory h =
    elim (Bool-cases (item_type_of metadata.file_type == directory)) [
      | inl e ↦
          let (items, walked, made) =
            bind_ok (walk_directory peer exclusions root (record { components = [] }) false listing)
              (λ items. ok (from_items peer root items)) (rw e at h) in
          (items, walked, ok-injective made)
      | inr e ↦ absurd (ground (arith, e))
    ]
