-- ===== src/Base/Keyed.antt =====
-- Lists whose elements carry a key: search by key, and collection into a map. A later element
-- replaces an earlier one of its key; where the keys are distinct this is the same search.
use mathlib.Core.Path.{◌≡◌, refl, ◌∙◌, ap}
use mathlib.Core.Bool.{Bool, false, ◌||◌}
use mathlib.Core.Option.{Option, none, some, or_else}
use mathlib.Core.List.{List, [], ◌∷◌, map}
use native.Mathlib.Omega.{arith}
use sync_plus.Base.Equality.{Eq, ◌==◌, contains, if◌then◌else◌}
use sync_plus.Base.Lists.{find, filter, All, is_some, any}
use sync_plus.Base.Order.{Ord, insert_by, sort_by}
use sync_plus.Base.Tree.{map_insert, map_get, map_get-map_insert}

module _ {A K : Type 0} ⦃e : Eq K⦄ (key : A → K) where
  abbrev pub find_key : K → List A → Option A
  find_key k = find (λ x. key x == k)

  abbrev pub IsDistinct : List A → Type 0
  IsDistinct [] = Unit
  IsDistinct (x ∷ xs) = (contains (map key xs) (key x) ≡ false) × IsDistinct xs

  -- The last element with the key.
  abbrev latest : K → List A → Option A
  latest k [] = none
  latest k (x ∷ xs) = or_else (latest k xs) (if key x == k then some x else none)

  pub contains-map : (k : K) (xs : List A) → contains (map key xs) k ≡ any (λ x. key x == k) xs
  contains-map k [] = refl
  contains-map k (x ∷ xs) = ap (λ (b : Bool). key x == k || b) (contains-map k xs)

  pub find_key-none : (k : K) (xs : List A) → contains (map key xs) k ≡ false → find_key k xs ≡ none
  find_key-none k [] h = refl
  find_key-none k (x ∷ xs) h = ground (arith, find_key-none k xs)

  pub is_some-find_key : (k : K) (xs : List A) → is_some (find_key k xs) ≡ contains (map key xs) k
  is_some-find_key k [] = refl
  is_some-find_key k (x ∷ xs) = ground (arith, is_some-find_key k xs)

  -- What a search finds has the key.
  pub key-find_key : (k : K) (xs : List A) {x : A} → find_key k xs ≡ some x → key x ≡ k
  key-find_key k [] h = cc
  key-find_key k (y ∷ xs) {x} h = ground (arith, key-find_key k xs {x = x})

  latest-eq-find_key : (k : K) (xs : List A) → IsDistinct xs → latest k xs ≡ find_key k xs
  unfolding or_else
  latest-eq-find_key k [] u = refl
  latest-eq-find_key k (x ∷ xs) u = ground (arith, latest-eq-find_key k xs u.1, find_key-none k xs)

  -- Restricting the list to a test commutes with the search, if the keys are distinct.
  pub find_key-filter :
      (p : A → Bool) (k : K) (xs : List A)
      → IsDistinct xs
      → find_key k (filter p xs)
        ≡ elim (find_key k xs) [ none ↦ none | some x ↦ if p x then some x else none ]
  find_key-filter p k [] u = refl
  find_key-filter p k (x ∷ xs) u = ground (arith, find_key-filter p k xs u.1, find_key-none k xs)

  contains-filter :
      (p : A → Bool) (k : K) (xs : List A)
      → contains (map key xs) k ≡ false
      → contains (map key (filter p xs)) k ≡ false
  contains-filter p k [] h = refl
  contains-filter p k (x ∷ xs) h = ground (arith, contains-filter p k xs)

  pub filter-IsDistinct : (p : A → Bool) (xs : List A) → IsDistinct xs → IsDistinct (filter p xs)
  filter-IsDistinct p [] u = tt
  filter-IsDistinct p (x ∷ xs) u =
      ground (arith, filter-IsDistinct p xs u.1, contains-filter p (key x) xs)

  module _ ⦃o : Ord K⦄ where
    -- `collect` into a `BTreeMap` from keys to elements.
    unfoldable pub collect_by : List A → List (K × A) → List (K × A)
    collect_by [] m = m
    collect_by (x ∷ xs) m = collect_by xs (map_insert (key x) x m)

    map_get-collect_by-latest :
        (k : K) (xs : List A) (m : List (K × A))
        → map_get k (collect_by xs m) ≡ or_else (latest k xs) (map_get k m)
    unfolding collect_by or_else
    map_get-collect_by-latest k [] m = refl
    map_get-collect_by-latest k (x ∷ xs) m =
        map_get-collect_by-latest k xs (map_insert (key x) x m)
        ∙ ground (arith, map_get-map_insert (key x) k x m)

    pub map_get-collect_by :
        (k : K) (xs : List A) (m : List (K × A))
        → IsDistinct xs
        → map_get k (collect_by xs m) ≡ or_else (find_key k xs) (map_get k m)
    map_get-collect_by k xs m u =
        map_get-collect_by-latest k xs m
        ∙ ap (λ (x : Option A). or_else x (map_get k m)) (latest-eq-find_key k xs u)

    -- `into_values`.
    abbrev pub values : List (K × A) → List A
    values [] = []
    values ((k, x) ∷ m) = x ∷ values m

    abbrev pub IsKeyed : List (K × A) → Type 0
    IsKeyed = All (λ entry. key entry.1 ≡ entry.0)

    map_insert-IsKeyed : (x : A) (m : List (K × A)) → IsKeyed m → IsKeyed (map_insert (key x) x m)
    unfolding map_insert
    map_insert-IsKeyed x [] u = (refl, tt)
    map_insert-IsKeyed x ((j, y) ∷ m) u = ground (arith, map_insert-IsKeyed x m u.1)

    pub collect_by-IsKeyed :
        (xs : List A) (m : List (K × A)) → IsKeyed m → IsKeyed (collect_by xs m)
    unfolding collect_by
    collect_by-IsKeyed [] m u = u
    collect_by-IsKeyed (x ∷ xs) m u =
        collect_by-IsKeyed xs (map_insert (key x) x m) (map_insert-IsKeyed x m u)

    pub find_key-values :
        (k : K) (m : List (K × A)) → IsKeyed m → find_key k (values m) ≡ map_get k m
    unfolding map_get
    find_key-values k [] u = refl
    find_key-values k ((j, x) ∷ m) u = ground (arith, find_key-values k m u.1)

    or_else-none : (o : Option A) → or_else o none ≡ o
    unfolding or_else
    or_else-none none = refl
    or_else-none (some x) = refl

    -- Two lists merged through a map, the second on top of the first.
    pub find_key-merged :
        (k : K) (xs ys : List A)
        → IsDistinct xs
        → IsDistinct ys
        → find_key k (values (collect_by ys (collect_by xs [])))
          ≡ or_else (find_key k ys) (find_key k xs)
    unfolding map_get
    find_key-merged k xs ys ux uy =
        find_key-values k (collect_by ys (collect_by xs []))
          (collect_by-IsKeyed ys (collect_by xs []) (collect_by-IsKeyed xs [] tt))
        ∙ map_get-collect_by k ys (collect_by xs []) uy
        ∙ ap (or_else (find_key k ys)) (map_get-collect_by k xs [] ux ∙ or_else-none _)

    contains-insert_by :
        (k : K) (a : A) (xs : List A)
        → contains (map key (insert_by key a xs)) k ≡ (key a == k || contains (map key xs) k)
    contains-insert_by k a [] = refl
    contains-insert_by k a (x ∷ xs) = ground (arith, contains-insert_by k a xs)

    contains-sort_by :
        (k : K) (xs : List A) → contains (map key (sort_by key xs)) k ≡ contains (map key xs) k
    unfolding sort_by
    contains-sort_by k [] = refl
    contains-sort_by k (x ∷ xs) =
        contains-insert_by k x (sort_by key xs)
        ∙ ap (λ (b : Bool). key x == k || b) (contains-sort_by k xs)

    insert_by-IsDistinct :
        (a : A) (xs : List A)
        → contains (map key xs) (key a) ≡ false
        → IsDistinct xs
        → IsDistinct (insert_by key a xs)
    insert_by-IsDistinct a [] h u = (refl, tt)
    insert_by-IsDistinct a (x ∷ xs) h u =
        ground (arith, contains-insert_by (key x) a xs, insert_by-IsDistinct a xs)

    pub sort_by-IsDistinct : (xs : List A) → IsDistinct xs → IsDistinct (sort_by key xs)
    unfolding sort_by
    sort_by-IsDistinct [] u = tt
    sort_by-IsDistinct (x ∷ xs) u =
        insert_by-IsDistinct x (sort_by key xs) (contains-sort_by (key x) xs ∙ u.0)
          (sort_by-IsDistinct xs u.1)
