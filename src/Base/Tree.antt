-- ===== src/Base/Tree.antt =====
-- `BTreeMap` and `BTreeSet`: sorted lists with insertion by the key's order.
use Prim.Native.Nat.Ordering.{lt, eq, gt}
use mathlib.Core.Path.{◌≡◌, refl, ◌∙◌}
use mathlib.Core.Bool.{false, ◌||◌}
use mathlib.Core.Option.{Option, none, some}
use mathlib.Core.List.{List, [], ◌∷◌}
use native.Mathlib.Omega.{arith}
use sync_plus.Base.Equality.{Eq, ◌==◌, contains, if◌then◌else◌}
use sync_plus.Base.Lists.{All}
use sync_plus.Base.Order.{Ord}

module _ {K : Type 0} ⦃e : Eq K⦄ ⦃o : Ord K⦄ where
  -- Strictly increasing: every key stands below all that follow it.
  abbrev pub IsIncreasing : List K → Type 0
  IsIncreasing [] = Unit
  IsIncreasing (k ∷ ks) = All (λ j. o.cmp k j ≡ lt) ks × IsIncreasing ks

  module _ {V : Type 0} where
    unfoldable pub map_insert : K → V → List (K × V) → List (K × V)
    map_insert k v [] = (k, v) ∷ []
    map_insert k v ((j, w) ∷ m) = elim (o.cmp k j) [
      | lt ↦ (k, v) ∷ (j, w) ∷ m
      | eq ↦ (k, v) ∷ m
      | gt ↦ (j, w) ∷ map_insert k v m
    ]

    unfoldable pub map_get : K → List (K × V) → Option V
    map_get k [] = none
    map_get k ((j, w) ∷ m) = if j == k then some w else map_get k m

    pub map_get-map_insert :
        (k j : K) (v : V) (m : List (K × V))
        → map_get j (map_insert k v m) ≡ (if k == j then some v else map_get j m)
    unfolding map_get map_insert
    map_get-map_insert k j v [] = refl
    map_get-map_insert k j v ((i, w) ∷ m) =
        ground (arith, o.cmp_eq k i, o.cmp_self k, map_get-map_insert k j v m)

    unfoldable pub map_remove : K → List (K × V) → List (K × V)
    map_remove k [] = []
    map_remove k ((j, w) ∷ m) = let rest = map_remove k m in if j == k then rest else (j, w) ∷ rest

    pub map_get-map_remove :
        (k j : K) (m : List (K × V))
        → map_get j (map_remove k m) ≡ (if k == j then none else map_get j m)
    unfolding map_get map_remove
    map_get-map_remove k j [] = ground arith
    map_get-map_remove k j ((i, w) ∷ m) = ground (arith, map_get-map_remove k j m)

  -- A set's insertion leaves a set that holds the key as it is.
  unfoldable pub set_insert : K → List K → List K
  set_insert k [] = k ∷ []
  set_insert k (j ∷ s) = elim (o.cmp k j) [ lt ↦ k ∷ j ∷ s | eq ↦ j ∷ s | gt ↦ j ∷ set_insert k s ]

  -- `extend`, and `collect` from the empty set.
  unfoldable pub set_extend : List K → List K → List K
  set_extend s [] = s
  set_extend s (k ∷ ks) = set_extend (set_insert k s) ks

  pub contains-set_insert :
      (k j : K) (s : List K) → contains (set_insert k s) j ≡ (k == j || contains s j)
  unfolding set_insert
  contains-set_insert k j [] = refl
  contains-set_insert k j (i ∷ s) =
      ground (arith, o.cmp_eq k i, o.cmp_self k, contains-set_insert k j s)

  pub contains-set_extend :
      (s ks : List K) (j : K) → contains (set_extend s ks) j ≡ (contains ks j || contains s j)
  unfolding set_extend
  contains-set_extend s [] j = refl
  contains-set_extend s (k ∷ ks) j =
      contains-set_extend (set_insert k s) ks j ∙ ground (arith, contains-set_insert k j s)

  above-set_insert :
      (i k : K) (s : List K)
      → o.cmp i k ≡ lt
      → All (λ j. o.cmp i j ≡ lt) s
      → All (λ j. o.cmp i j ≡ lt) (set_insert k s)
  unfolding set_insert
  above-set_insert i k [] h a = (h, tt)
  above-set_insert i k (j ∷ s) h a = ground (arith, above-set_insert i k s h a.1)

  above_trans :
      (i k : K) (s : List K)
      → o.cmp i k ≡ lt
      → All (λ j. o.cmp k j ≡ lt) s
      → All (λ j. o.cmp i j ≡ lt) s
  above_trans i k [] h a = tt
  above_trans i k (j ∷ s) h a = (o.cmp_trans i k j h a.0, above_trans i k s h a.1)

  pub set_insert-IsIncreasing :
      (k : K) (s : List K) → IsIncreasing s → IsIncreasing (set_insert k s)
  unfolding set_insert
  set_insert-IsIncreasing k [] u = (tt, tt)
  set_insert-IsIncreasing k (j ∷ s) u = ground (
    arith,
    o.cmp_gt k j,
    above_trans k j s,
    above-set_insert j k s,
    set_insert-IsIncreasing k s u.1,
  )

  pub set_extend-IsIncreasing : (s ks : List K) → IsIncreasing s → IsIncreasing (set_extend s ks)
  unfolding set_extend
  set_extend-IsIncreasing s [] u = u
  set_extend-IsIncreasing s (k ∷ ks) u =
      set_extend-IsIncreasing (set_insert k s) ks (set_insert-IsIncreasing k s u)

  -- What stands above all of a list is not in it.
  pub contains-above : (k : K) (ks : List K) → All (λ j. o.cmp k j ≡ lt) ks → contains ks k ≡ false
  contains-above k [] a = refl
  contains-above k (j ∷ ks) a = ground (arith, o.cmp_self k, contains-above k ks a.1)
