-- ===== src/Analysis/Walk/Along.antt =====
-- The paths that names lead to from a folder.
use mathlib.Core.List.{append_assoc, append-nil}
use sync_plus.Base.{false, List, [], ◌∷◌, ◌++◌, map, Text, ◌≡◌, sym, ap, ◌∙◌, arith, ◌==◌, text_eq}
use sync_plus.Base.Order.{text_ord}
use sync_plus.Path.{normal, FilePath, path_eq, path_ord}
use sync_plus.Model.{type_eq}
use sync_plus.Analysis.Walk.{at_name}

-- The path that the names lead to.
abbrev pub along : FilePath → List Text → FilePath
along base [] = base
along base (name ∷ names) = along (at_name base name) names

pub components-along :
    (base : FilePath) (names : List Text)
    → (along base names).components ≡ base.components ++ map normal names
components-along base [] = sym (append-nil base.components)
components-along base (name ∷ names) =
    components-along (at_name base name) names
    ∙ append_assoc base.components (normal name ∷ []) (map normal names)

pub cancelled : {A : Type 0} (xs ys zs : List A) → xs ++ ys ≡ xs ++ zs → ys ≡ zs
cancelled [] ys zs h = h
cancelled (x ∷ xs) ys zs h = cancelled xs ys zs (ground (arith, h))

-- Paths through different names of a folder differ.
pub along-injective :
    (base : FilePath) (n m : Text) (ns ms : List Text)
    → along (at_name base n) ns ≡ along (at_name base m) ms
    → n ≡ m
along-injective base n m ns ms h =
    let same : normal n ∷ map normal ns ≡ normal m ∷ map normal ms = cancelled base.components _ _ (
      sym (components-along base (n ∷ ns))
      ∙ ap (λ (p : FilePath). p.components) h
      ∙ components-along base (m ∷ ms)) in
    ground (arith, same)

pub along-apart :
    (base : FilePath) (n m : Text) (ns ms : List Text)
    → (m == n) ≡ false
    → (along (at_name base m) ms == along (at_name base n) ns) ≡ false
along-apart base n m ns ms d = ground (arith, along-injective base m n ms ns)

-- What stands below a folder is not the folder.
pub along-below :
    (base : FilePath) (name : Text) (names : List Text)
    → (along base (name ∷ names) == base) ≡ false
along-below base name names = ground (
  arith,
  λ (h : along base (name ∷ names) ≡ base).
      cancelled base.components (normal name ∷ map normal names) [] (
        sym (components-along base (name ∷ names))
        ∙ ap (λ (p : FilePath). p.components) h
        ∙ sym (append-nil base.components)),
)
