-- ===== src/Base/Membership.antt =====
-- Which elements a list has after the list functions, and what a search finds.
use mathlib.Core.Path.{◌≡◌, refl, ap, ◌∙◌}
use mathlib.Core.Bool.{Bool, true, false, ◌||◌}
use mathlib.Core.Logic.{◌⊎◌, inl, inr}
use mathlib.Core.Option.{none, some}
use mathlib.Core.List.{List, [], ◌∷◌, ◌++◌, map}
use native.Mathlib.Omega.{arith}
use sync_plus.Base.Equality.{if◌then◌else◌, Bool-cases, Eq, contains}
use sync_plus.Base.Lists.{Elem, filter, find, any}
use sync_plus.Base.Order.{Ord, insert_by, sort_by}

module _ {A : Type 0} where
  pub Elem-append : (a : A) (xs ys : List A) → Elem a (xs ++ ys) → Elem a xs ⊎ Elem a ys
  Elem-append a [] ys h = inr h
  Elem-append a (x ∷ xs) ys (inl e) = inl (inl e)
  Elem-append a (x ∷ xs) ys (inr h) = elim (Elem-append a xs ys h) [
    | inl k ↦ inl (inr k)
    | inr k ↦ inr k
  ]

  pub Elem-append_left : (a : A) (xs ys : List A) → Elem a xs → Elem a (xs ++ ys)
  Elem-append_left a [] ys h = elim h [ ]
  Elem-append_left a (x ∷ xs) ys (inl e) = inl e
  Elem-append_left a (x ∷ xs) ys (inr h) = inr (Elem-append_left a xs ys h)

  pub Elem-append_right : (a : A) (xs ys : List A) → Elem a ys → Elem a (xs ++ ys)
  Elem-append_right a [] ys h = h
  Elem-append_right a (x ∷ xs) ys h = inr (Elem-append_right a xs ys h)

  -- What a filter keeps is in the list and passes the test.
  pub Elem-filter :
      (p : A → Bool) (a : A) (xs : List A) → Elem a (filter p xs) → Elem a xs × (p a ≡ true)
  Elem-filter p a [] h = elim h [ ]
  Elem-filter p a (x ∷ xs) h = elim (Bool-cases (p x)) [
    | inl e ↦ elim (kept e h) [
      | inl same ↦ (inl same, rw (← same) e)
      | inr k ↦ let r = Elem-filter p a xs k in (inr r.0, r.1)
    ]
    | inr e ↦ let r = Elem-filter p a xs (dropped e h) in (inr r.0, r.1)
  ]
    where
      kept :
          p x ≡ true
          → Elem a (if p x then x ∷ filter p xs else filter p xs)
          → Elem a (x ∷ filter p xs)
      kept e k = rw e at k

      dropped :
          p x ≡ false → Elem a (if p x then x ∷ filter p xs else filter p xs) → Elem a (filter p xs)
      dropped e k = rw e at k

  pub Elem-filter_of :
      (p : A → Bool) (a : A) (xs : List A) → Elem a xs → p a ≡ true → Elem a (filter p xs)
  Elem-filter_of p a [] k h = elim k [ ]
  Elem-filter_of p a (x ∷ xs) (inl e) h = rw (ap p e ∙ h) (inl e)
  Elem-filter_of p a (x ∷ xs) (inr k) h = elim (Bool-cases (p x)) [
    | inl e ↦ rw e (inr (Elem-filter_of p a xs k h))
    | inr e ↦ rw e (Elem-filter_of p a xs k h)
  ]

  -- A search succeeds with an element that passes the test.
  pub Elem-find :
      (p : A → Bool) (xs : List A) {a : A} → find p xs ≡ some a → Elem a xs × (p a ≡ true)
  Elem-find p [] h = cc
  Elem-find p (x ∷ xs) {a} h = elim (Bool-cases (p x)) [
    | inl e ↦ let same : x ≡ a = ground (arith, e) in (inl same, rw (← same) e)
    | inr e ↦ let r = Elem-find p xs {a = a} (ground (arith, e)) in (inr r.0, r.1)
  ]

  -- A search fails exactly on a list with no element that passes.
  pub not-Elem_of_find :
      (p : A → Bool) (xs : List A) → find p xs ≡ none → (a : A) → Elem a xs → p a ≡ false
  not-Elem_of_find p [] h a k = elim k [ ]
  not-Elem_of_find p (x ∷ xs) h a (inl e) = rw (← e) (ground arith)
  not-Elem_of_find p (x ∷ xs) h a (inr k) = not-Elem_of_find p xs (ground arith) a k

  pub Elem-any : (p : A → Bool) (xs : List A) → any p xs ≡ true → (a : A) × Elem a xs × (p a ≡ true)
  Elem-any p [] h = cc
  Elem-any p (x ∷ xs) h = elim (Bool-cases (p x)) [
    | inl e ↦ (x, inl refl, e)
    | inr e ↦ let (a, k, q) = Elem-any p xs (ground (arith, e)) in (a, inr k, q)
  ]

  pub any_of-Elem : (p : A → Bool) (a : A) (xs : List A) → Elem a xs → p a ≡ true → any p xs ≡ true
  any_of-Elem p a [] k h = elim k [ ]
  any_of-Elem p a (x ∷ xs) (inl e) h = let same : p x ≡ true = ap p e ∙ h in ground (arith, same)
  any_of-Elem p a (x ∷ xs) (inr k) h = ground (arith, any_of-Elem p a xs k h)

module _ {A B : Type 0} (f : A → B) where
  pub Elem-map : (b : B) (xs : List A) → Elem b (map f xs) → (a : A) × Elem a xs × (f a ≡ b)
  Elem-map b [] h = elim h [ ]
  Elem-map b (x ∷ xs) (inl e) = (x, inl refl, e)
  Elem-map b (x ∷ xs) (inr h) = let (a, k, e) = Elem-map b xs h in (a, inr k, e)

  pub Elem-map_of : (a : A) (xs : List A) → Elem a xs → Elem (f a) (map f xs)
  Elem-map_of a [] h = elim h [ ]
  Elem-map_of a (x ∷ xs) (inl e) = inl (ap f e)
  Elem-map_of a (x ∷ xs) (inr h) = inr (Elem-map_of a xs h)

-- Sorting keeps the elements.
module _ {A K : Type 0} ⦃o : Ord K⦄ (key : A → K) where
  Elem-insert_by : (x a : A) (xs : List A) → Elem a (insert_by key x xs) → (x ≡ a) ⊎ Elem a xs
  Elem-insert_by x a [] h = h
  Elem-insert_by x a (y ∷ xs) h = ground (arith, Elem-insert_by x a xs)

  Elem-insert_by_of : (x a : A) (xs : List A) → (x ≡ a) ⊎ Elem a xs → Elem a (insert_by key x xs)
  Elem-insert_by_of x a [] h = h
  Elem-insert_by_of x a (y ∷ xs) h = ground (arith, Elem-insert_by_of x a xs)

  pub Elem-sort_by : (a : A) (xs : List A) → Elem a (sort_by key xs) → Elem a xs
  unfolding sort_by
  Elem-sort_by a [] h = h
  Elem-sort_by a (x ∷ xs) h = elim (Elem-insert_by x a (sort_by key xs) h) [
    | inl e ↦ inl e
    | inr k ↦ inr (Elem-sort_by a xs k)
  ]

  pub Elem-sort_by_of : (a : A) (xs : List A) → Elem a xs → Elem a (sort_by key xs)
  unfolding sort_by
  Elem-sort_by_of a [] h = h
  Elem-sort_by_of a (x ∷ xs) (inl e) = Elem-insert_by_of x a (sort_by key xs) (inl e)
  Elem-sort_by_of a (x ∷ xs) (inr h) =
      Elem-insert_by_of x a (sort_by key xs) (inr (Elem-sort_by_of a xs h))

module _ {K : Type 0} ⦃e : Eq K⦄ where
  pub contains-Elem : (k : K) (ks : List K) → contains ks k ≡ true → Elem k ks
  contains-Elem k [] h = cc
  contains-Elem k (j ∷ ks) h = ground (arith, contains-Elem k ks)

  pub contains_of-Elem : (k : K) (ks : List K) → Elem k ks → contains ks k ≡ true
  contains_of-Elem k [] h = elim h [ ]
  contains_of-Elem k (j ∷ ks) h = ground (arith, contains_of-Elem k ks)

  pub contains-append :
      (k : K) (xs ys : List K) → contains (xs ++ ys) k ≡ (contains xs k || contains ys k)
  contains-append k [] ys = refl
  contains-append k (x ∷ xs) ys = ground (arith, contains-append k xs ys)
