-- ===== src/Path.antt =====
-- `std::path` as the program uses it: a path is compared, ordered and joined by its components.
-- The components are those that `Path::components` yields on Unix.
pub mod Parse
use Prim.Native.Nat.{Ordering}
use Prim.Native.Nat.Ordering.{lt, eq, gt}
use native.Mathlib.Decide.{ℕ_discrete}
use sync_plus.Base.{refl, ap, List, Text, Eq, arith}
use sync_plus.Base.Order.{Ord, IsOrder, text_ord, list_cmp, list_cmp-IsOrder}

pub data Component : Type 0 where
  root_dir cur_dir parent_dir : Component
  normal : Text → Component

pub record FilePath : Type 0 where
  pub components : List Component

pub Component-discrete : Discrete Component
Component-discrete = hlevel ℕ_discrete

pub FilePath-discrete : Discrete FilePath
unfolding Component-discrete
FilePath-discrete = hlevel ℕ_discrete

instance unfoldable pub component_eq : Eq Component
unfolding Component-discrete
component_eq = record { dec = Component-discrete }

instance unfoldable pub path_eq : Eq FilePath
unfolding FilePath-discrete
path_eq = record { dec = FilePath-discrete }

-- The derived order of `Component`: by constructor, then by the name's bytes.
abbrev pub component_cmp : Component → Component → Ordering
component_cmp root_dir root_dir = eq
component_cmp root_dir _ = lt
component_cmp cur_dir root_dir = gt
component_cmp cur_dir cur_dir = eq
component_cmp cur_dir _ = lt
component_cmp parent_dir root_dir = gt
component_cmp parent_dir cur_dir = gt
component_cmp parent_dir parent_dir = eq
component_cmp parent_dir (normal b) = lt
component_cmp (normal a) (normal b) = text_ord.cmp a b
component_cmp (normal a) _ = gt

pub component_cmp-IsOrder : IsOrder component_cmp
component_cmp-IsOrder = record {
  cmp_self = elim [
    | root_dir ↦ refl
    | cur_dir ↦ refl
    | parent_dir ↦ refl
    | normal a ↦ text_ord.cmp_self a
  ];
  cmp_eq = λ x y. grind (arith, text_ord.cmp_eq);
  cmp_gt = λ x y. grind (arith, text_ord.cmp_gt);
  cmp_lt = λ x y. grind (arith, text_ord.cmp_lt);
  cmp_trans = λ x y z. grind (arith, text_ord.cmp_trans);
}

instance unfoldable pub component_ord : Ord Component
component_ord = record { cmp = component_cmp; laws = component_cmp-IsOrder }

abbrev pub path_cmp : FilePath → FilePath → Ordering
path_cmp p q = list_cmp ⦃o = component_ord⦄ p.components q.components

pub path_cmp-IsOrder : IsOrder path_cmp
path_cmp-IsOrder = record {
  cmp_self = λ p. laws.cmp_self p.components;
  cmp_eq = λ p q h. ap (λ (cs : List Component). record { components = cs }) (laws.cmp_eq _ _ h);
  cmp_gt = λ p q. laws.cmp_gt p.components q.components;
  cmp_lt = λ p q. laws.cmp_lt p.components q.components;
  cmp_trans = λ p q r. laws.cmp_trans p.components q.components r.components;
}
  where
    laws : IsOrder (list_cmp ⦃o = component_ord⦄)
    laws = list_cmp-IsOrder

instance unfoldable pub path_ord : Ord FilePath
path_ord = record { cmp = path_cmp; laws = path_cmp-IsOrder }
