-- ===== src/Review/Rows.antt =====
-- Which rows a Conflict Review has (`from_inventories_with_limit` of conflict.rs).
use sync_plus.Base.{
  ℕ, Bool, false, ◌&&◌, ◌||◌, not, Option, none, some, List, [], ◌∷◌, ◌++◌, map, contains, ◌==◌,
  ◌≡◌, refl, ap, ◌∙◌, arith, nat_eq, Bool-cases, inl, inr,
}
use sync_plus.Base.Tree.{set_extend, contains-set_extend}
use sync_plus.Path.{FilePath, path_eq, path_ord}
use sync_plus.Model.{MetadataRequirements}
use sync_plus.Inventory.{InventorySnapshotItem, SourceInventorySnapshot, snapshot_lookup}
use sync_plus.MirrorEquality.{review_equal}
use sync_plus.Conflict.{ConflictEntryKey, same_path_key}
use sync_plus.Conflict.Key.{key_eq}
use sync_plus.Review.{
  ConflictEntry, row_key, Location, duplicates_of, duplicates, included_items_paths, same_path_row,
  same_path_rows, review_paths, sorted_locations, from_inventories_with_limit,
}

-- Both peers have the path, and the items are not equal.
abbrev pub differs :
    MetadataRequirements → Option InventorySnapshotItem → Option InventorySnapshotItem → Bool
differs metadata (some left) (some right) = not (review_equal metadata left right)
differs metadata _ _ = false

same_path_key-eq : (q p : FilePath) → (same_path_key q == same_path_key p) ≡ (q == p)
same_path_key-eq q p = ground arith

duplicates_of-other :
    (l : Location) (ls : List Location) (p : FilePath)
    → contains (map row_key (duplicates_of l ls)) (same_path_key p) ≡ false
duplicates_of-other l [] p = refl
duplicates_of-other l (other ∷ ls) p = ground (arith, duplicates_of-other l ls p)

contains_of-append :
    (k : ConflictEntryKey) (xs ys : List ConflictEntry)
    → contains (map row_key (xs ++ ys)) k
      ≡ (contains (map row_key xs) k || contains (map row_key ys) k)
contains_of-append k [] ys = refl
contains_of-append k (x ∷ xs) ys = ground (arith, contains_of-append k xs ys)

duplicates-other :
    (ls : List Location) (p : FilePath)
    → contains (map row_key (duplicates ls)) (same_path_key p) ≡ false
duplicates-other [] p = refl
duplicates-other (l ∷ ls) p = ground (
  arith,
  contains_of-append (same_path_key p) (duplicates_of l ls) (duplicates ls),
  duplicates_of-other l ls p,
  duplicates-other ls p,
)

module _ (read : FilePath → FilePath → ℕ → Option (List ℕ)) (is_utf8 : List ℕ → Bool)
    (a b : SourceInventorySnapshot) (metadata : MetadataRequirements) (limit : ℕ) where
  same_path_row-contains :
      (q p : FilePath) (left right : Option InventorySnapshotItem)
      → contains
          (map row_key (same_path_row read is_utf8 a b metadata limit q left right))
          (same_path_key p)
        ≡ (q == p && differs metadata left right)
  same_path_row-contains q p none right = ground arith
  same_path_row-contains q p (some left) none = ground arith
  same_path_row-contains q p (some left) (some right) = ground (arith, same_path_key-eq q p)

  abbrev differs_at : FilePath → Bool
  differs_at p = differs metadata (snapshot_lookup a p) (snapshot_lookup b p)

  same_path_rows-contains :
      (paths : List FilePath) (p : FilePath)
      → contains
          (map row_key (same_path_rows read is_utf8 a b metadata limit paths))
          (same_path_key p)
        ≡ (contains paths p && differs_at p)
  same_path_rows-contains [] p = refl
  same_path_rows-contains (q ∷ paths) p =
      contains_of-append (same_path_key p)
        (same_path_row read is_utf8 a b metadata limit q (snapshot_lookup a q)
          (snapshot_lookup b q))
        (same_path_rows read is_utf8 a b metadata limit paths)
      ∙ elim (Bool-cases (q == p)) [
        | inl e ↦
            let same : q ≡ p = ground (arith, e) in
            let at : differs_at q ≡ differs_at p = ap differs_at same in
            ground (
              arith,
              e,
              at,
              same_path_row-contains q p (snapshot_lookup a q) (snapshot_lookup b q),
              same_path_rows-contains paths p,
            )
        | inr e ↦ ground (
          arith,
          e,
          same_path_row-contains q p (snapshot_lookup a q) (snapshot_lookup b q),
          same_path_rows-contains paths p,
        )
      ]

  review_paths-contains :
      (p : FilePath)
      → contains (review_paths read is_utf8 a b metadata limit) p
        ≡ (contains (included_items_paths a) p || contains (included_items_paths b) p)
  review_paths-contains p = ground (
    arith,
    contains-set_extend (set_extend [] (included_items_paths a)) (included_items_paths b) p,
    contains-set_extend [] (included_items_paths a) p,
  )

  -- A review has a same-path row for exactly the paths that either peer includes, that both peers
  -- have, and whose items are not equal.
  pub from_inventories-same_path :
      (p : FilePath)
      → contains
          (map row_key (from_inventories_with_limit read is_utf8 a b metadata limit))
          (same_path_key p)
        ≡ ((contains (included_items_paths a) p || contains (included_items_paths b) p)
            && differs metadata (snapshot_lookup a p) (snapshot_lookup b p))
  unfolding from_inventories_with_limit
  from_inventories-same_path p = ground (
    arith,
    contains_of-append (same_path_key p)
        (same_path_rows read is_utf8 a b metadata limit
          (review_paths read is_utf8 a b metadata limit))
        (duplicates (sorted_locations read is_utf8 a b metadata limit)),
    same_path_rows-contains (review_paths read is_utf8 a b metadata limit) p,
    review_paths-contains p,
    duplicates-other (sorted_locations read is_utf8 a b metadata limit) p,
  )
