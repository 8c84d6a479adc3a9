-- ===== src/Conflict/Key.antt =====
-- The derived equality and order of the identity of a review row (`ConflictEntryKey` of conflict.rs).
use Prim.Native.Nat.{Ordering}
use Prim.Native.Nat.Ordering.{lt, eq, gt}
use native.Mathlib.Decide.{ℕ_discrete}
use sync_plus.Base.{Option, Eq, option_eq, ◌≡◌, arith, nat_eq}
use sync_plus.Base.Order.{Ord, IsOrder, then_with, nat_ord, option_cmp, option_cmp-IsOrder}
use sync_plus.Path.{FilePath, path_eq, path_ord}
use sync_plus.Conflict.{
  ConflictKind, same_path, possible_duplicate_or_rename, destination_compatibility,
  ConflictEntryKey,
}

pub ConflictKind-discrete : Discrete ConflictKind
ConflictKind-discrete = hlevel

instance unfoldable pub kind_eq : Eq ConflictKind
unfolding ConflictKind-discrete
kind_eq = record { dec = ConflictKind-discrete }

pub ConflictEntryKey-discrete : Discrete ConflictEntryKey
ConflictEntryKey-discrete = hlevel (ℕ_discrete)

instance unfoldable pub key_eq : Eq ConflictEntryKey
unfolding ConflictEntryKey-discrete
key_eq = record { dec = ConflictEntryKey-discrete }

abbrev kind_cmp : ConflictKind → ConflictKind → Ordering
kind_cmp same_path same_path = eq
kind_cmp same_path _ = lt
kind_cmp possible_duplicate_or_rename same_path = gt
kind_cmp possible_duplicate_or_rename possible_duplicate_or_rename = eq
kind_cmp possible_duplicate_or_rename destination_compatibility = lt
kind_cmp destination_compatibility destination_compatibility = eq
kind_cmp destination_compatibility _ = gt

pub kind_cmp-IsOrder : IsOrder kind_cmp
kind_cmp-IsOrder = ground arith

instance unfoldable pub kind_ord : Ord ConflictKind
kind_ord = record { cmp = kind_cmp; laws = kind_cmp-IsOrder }

-- The first comparison that decides.
module _ {A B : Type 0} (f : A → A → Ordering) (g : B → B → Ordering) where
  abbrev pub pair_cmp : A × B → A × B → Ordering
  pair_cmp (a, b) (c, d) = then_with (f a c) (g b d)

  module _ (l : IsOrder f) (m : IsOrder g) where
    pub pair_cmp-IsOrder : IsOrder pair_cmp
    pair_cmp-IsOrder = record {
      cmp_self = λ x. ground (arith, l.cmp_self x.0, m.cmp_self x.1);
      cmp_eq = λ x y. ground (arith, l.cmp_eq x.0 y.0, m.cmp_eq x.1 y.1);
      cmp_gt = λ x y.
          ground (arith, l.cmp_eq x.0 y.0, l.cmp_gt x.0 y.0, l.cmp_self x.0, m.cmp_gt x.1 y.1);
      cmp_lt = λ x y.
          ground (arith, l.cmp_eq x.0 y.0, l.cmp_lt x.0 y.0, l.cmp_self x.0, m.cmp_lt x.1 y.1);
      cmp_trans = λ x y z. ground (
        arith,
        l.cmp_eq x.0 y.0,
        l.cmp_eq y.0 z.0,
        l.cmp_self x.0,
        l.cmp_trans x.0 y.0 z.0,
        m.cmp_trans x.1 y.1 z.1,
      );
    }

-- An order read through a function with distinct values.
module _ {A B : Type 0} (f : A → B) (g : B → B → Ordering) (m : IsOrder g)
    (injective : (a b : A) → f a ≡ f b → a ≡ b) where
  pub on_cmp-IsOrder : IsOrder (λ a b. g (f a) (f b))
  on_cmp-IsOrder = record {
    cmp_self = λ a. m.cmp_self (f a);
    cmp_eq = λ a b h. injective a b (m.cmp_eq (f a) (f b) h);
    cmp_gt = λ a b. m.cmp_gt (f a) (f b);
    cmp_lt = λ a b. m.cmp_lt (f a) (f b);
    cmp_trans = λ a b c. m.cmp_trans (f a) (f b) (f c);
  }

abbrev Front : Type 0
Front = ConflictKind × FilePath

abbrev Back : Type 0
Back = Option FilePath × Option FilePath

abbrev front_cmp : Front → Front → Ordering
front_cmp = pair_cmp kind_cmp path_ord.cmp

abbrev back_cmp : Back → Back → Ordering
back_cmp = pair_cmp option_cmp option_cmp

abbrev key_parts : ConflictEntryKey → Front × Back
key_parts k = ((k.kind, k.relative_path), (k.related_path, k.destination_path))

abbrev parts_cmp : Front × Back → Front × Back → Ordering
parts_cmp = pair_cmp front_cmp back_cmp

parts_cmp-IsOrder : IsOrder parts_cmp
parts_cmp-IsOrder =
    pair_cmp-IsOrder front_cmp back_cmp
      (pair_cmp-IsOrder kind_cmp path_ord.cmp kind_cmp-IsOrder path_ord.laws)
      (pair_cmp-IsOrder option_cmp option_cmp option_cmp-IsOrder option_cmp-IsOrder)

-- The fields are compared in their order.
abbrev key_cmp : ConflictEntryKey → ConflictEntryKey → Ordering
key_cmp a b = parts_cmp (key_parts a) (key_parts b)

key_parts-injective : (a b : ConflictEntryKey) → key_parts a ≡ key_parts b → a ≡ b
key_parts-injective a b h = ground arith

pub key_cmp-IsOrder : IsOrder key_cmp
key_cmp-IsOrder = on_cmp-IsOrder key_parts parts_cmp parts_cmp-IsOrder key_parts-injective

instance unfoldable pub key_ord : Ord ConflictEntryKey
key_ord = record { cmp = key_cmp; laws = key_cmp-IsOrder }

-- The order of `add_compatibility_conflicts`: the path, then the kind.
abbrev row_cmp : FilePath × ConflictKind → FilePath × ConflictKind → Ordering
row_cmp = pair_cmp path_ord.cmp kind_cmp

pub row_cmp-IsOrder : IsOrder row_cmp
row_cmp-IsOrder = pair_cmp-IsOrder path_ord.cmp kind_cmp path_ord.laws kind_cmp-IsOrder

instance unfoldable pub row_ord : Ord (FilePath × ConflictKind)
row_ord = record { cmp = row_cmp; laws = row_cmp-IsOrder }
