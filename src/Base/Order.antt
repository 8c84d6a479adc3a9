-- ===== src/Base/Order.antt =====
-- Rust's `Ord`: a comparison with the laws that the trait asks for, its derived instances, and the
-- stable sort `sort_by`.
use Prim.Native.Nat.{ℕ, compare, Ordering}
use Prim.Native.Nat.Ordering.{lt, eq, gt}
use mathlib.Core.Path.{◌≡◌, refl}
use mathlib.Core.Option.{Option, none, some}
use mathlib.Core.List.{List, [], ◌∷◌}
use native.Mathlib.Omega.{arith}

pub record IsOrder {ℓ} {A : Type ℓ} (cmp : A → A → Ordering) : Type ℓ where
  pub cmp_self : (a : A) → cmp a a ≡ eq
  pub cmp_eq : (a b : A) → cmp a b ≡ eq → a ≡ b
  pub cmp_gt : (a b : A) → cmp a b ≡ gt → cmp b a ≡ lt
  pub cmp_lt : (a b : A) → cmp a b ≡ lt → cmp b a ≡ gt
  pub cmp_trans : (a b c : A) → cmp a b ≡ lt → cmp b c ≡ lt → cmp a c ≡ lt

pub record Ord {ℓ} (A : Type ℓ) : Type ℓ where
  pub cmp : A → A → Ordering
  pub laws : IsOrder cmp
  pub open laws use *

pub compare-IsOrder : IsOrder compare
compare-IsOrder = ground arith

instance unfoldable pub nat_ord : Ord ℕ
nat_ord = record { cmp = compare; laws = compare-IsOrder }

-- The first comparison decides unless it finds the two equal (`Ordering::then_with`).
abbrev pub then_with : Ordering → Ordering → Ordering
then_with lt next = lt
then_with eq next = next
then_with gt next = gt

module _ {ℓ} {A : Type ℓ} ⦃o : Ord A⦄ where
  -- Slices compare lexicographically.
  abbrev pub list_cmp : List A → List A → Ordering
  list_cmp [] [] = eq
  list_cmp [] (b ∷ bs) = lt
  list_cmp (a ∷ as') [] = gt
  list_cmp (a ∷ as') (b ∷ bs) = then_with (o.cmp a b) (list_cmp as' bs)

  list_cmp_self : (as' : List A) → list_cmp as' as' ≡ eq
  list_cmp_self [] = refl
  list_cmp_self (a ∷ as') = ground (arith, o.cmp_self a, list_cmp_self as')

  list_cmp-eq : (as' bs : List A) → list_cmp as' bs ≡ eq → as' ≡ bs
  list_cmp-eq [] [] h = refl
  list_cmp-eq [] (b ∷ bs) h = cc
  list_cmp-eq (a ∷ as') [] h = cc
  list_cmp-eq (a ∷ as') (b ∷ bs) h = ground (arith, o.cmp_eq a b, list_cmp-eq as' bs)

  list_cmp-gt : (as' bs : List A) → list_cmp as' bs ≡ gt → list_cmp bs as' ≡ lt
  list_cmp-gt [] [] h = cc
  list_cmp-gt [] (b ∷ bs) h = cc
  list_cmp-gt (a ∷ as') [] h = refl
  list_cmp-gt (a ∷ as') (b ∷ bs) h =
      ground (arith, o.cmp_eq a b, o.cmp_gt a b, o.cmp_self a, list_cmp-gt as' bs)

  list_cmp-lt : (as' bs : List A) → list_cmp as' bs ≡ lt → list_cmp bs as' ≡ gt
  list_cmp-lt [] [] h = cc
  list_cmp-lt [] (b ∷ bs) h = refl
  list_cmp-lt (a ∷ as') [] h = cc
  list_cmp-lt (a ∷ as') (b ∷ bs) h =
      ground (arith, o.cmp_eq a b, o.cmp_lt a b, o.cmp_self a, list_cmp-lt as' bs)

  list_cmp_trans :
      (as' bs cs : List A) → list_cmp as' bs ≡ lt → list_cmp bs cs ≡ lt → list_cmp as' cs ≡ lt
  list_cmp_trans [] [] cs h k = k
  list_cmp_trans [] (b ∷ bs) [] h k = cc
  list_cmp_trans [] (b ∷ bs) (c ∷ cs) h k = refl
  list_cmp_trans (a ∷ as') [] cs h k = cc
  list_cmp_trans (a ∷ as') (b ∷ bs) [] h k = cc
  list_cmp_trans (a ∷ as') (b ∷ bs) (c ∷ cs) h k = ground (
    arith,
    o.cmp_eq a b,
    o.cmp_eq b c,
    o.cmp_self a,
    o.cmp_self b,
    o.cmp_trans a b c,
    list_cmp_trans as' bs cs,
  )

  pub list_cmp-IsOrder : IsOrder list_cmp
  list_cmp-IsOrder = record {
    cmp_self = list_cmp_self;
    cmp_eq = list_cmp-eq;
    cmp_gt = list_cmp-gt;
    cmp_lt = list_cmp-lt;
    cmp_trans = list_cmp_trans;
  }

-- `None` comes before every `Some`.
module _ {ℓ} {A : Type ℓ} ⦃o : Ord A⦄ where
  abbrev pub option_cmp : Option A → Option A → Ordering
  option_cmp none none = eq
  option_cmp none (some b) = lt
  option_cmp (some a) none = gt
  option_cmp (some a) (some b) = o.cmp a b

  pub option_cmp-IsOrder : IsOrder option_cmp
  option_cmp-IsOrder = record {
    cmp_self = λ x. elim x as (λ x. option_cmp x x ≡ eq) [ none ↦ refl | some a ↦ o.cmp_self a ];
    cmp_eq = λ x y. grind (arith, o.cmp_eq);
    cmp_gt = λ x y. grind (arith, o.cmp_gt);
    cmp_lt = λ x y. grind (arith, o.cmp_lt);
    cmp_trans = λ x y z. grind (arith, o.cmp_trans);
  }

-- Sorting by a key with a stable insertion sort, as `slice::sort_by` is stable.
module _ {ℓ κ} {A : Type ℓ} {K : Type κ} ⦃o : Ord K⦄ (key : A → K) where
  abbrev pub insert_by : A → List A → List A
  insert_by a [] = a ∷ []
  insert_by a (b ∷ bs) =
      let rest = insert_by a bs in elim (o.cmp (key a) (key b)) [ gt ↦ b ∷ rest | _ ↦ a ∷ b ∷ bs ]

  unfoldable pub sort_by : List A → List A
  sort_by [] = []
  sort_by (a ∷ as') = insert_by a (sort_by as')

instance unfoldable pub text_ord : Ord (List ℕ)
text_ord = record { cmp = list_cmp; laws = list_cmp-IsOrder }
