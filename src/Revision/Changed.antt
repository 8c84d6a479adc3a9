-- ===== src/Revision/Changed.antt =====
-- Which paths `AnalysisRevision::changed_paths` of analysis.rs reports.
use mathlib.Core.Option
use sync_plus.Base.{
  contains-append, ◌≡◌, refl, ◌∙◌, ap, Bool, ◌&&◌, ◌||◌, Option, none, some, List, [], ◌∷◌, ◌++◌,
  map, filter, contains, is_some, ◌/=◌, arith, Bool-cases, inl, inr, option_eq,
}
use sync_plus.Base.Tree.{map_insert, map_get, map_get-map_insert, set_extend, contains-set_extend}
use sync_plus.Base.Keyed.{IsDistinct, find_key, find_key-none}
use sync_plus.Path.{FilePath, path_eq, path_ord}
use sync_plus.Inventory.{InventoryItem, SourceInventory, inventory_item}
use sync_plus.Plan.{plan_path}
use sync_plus.Plan.Reasons.{HasUniquePaths}
use sync_plus.Revision.{
  RevisionItem, from_item, revision_of, RevisionState, revision_state_eq, RevisionMap,
  revision_map_eq, state_of, collect_states, revision_map, revision_keys, differs, changed_in,
  changed_paths,
}

contains-revision_keys :
    (path : FilePath) (m : RevisionMap) → contains (revision_keys m) path ≡ is_some (map_get path m)
unfolding map_get
contains-revision_keys path [] = refl
contains-revision_keys path ((j, s) ∷ m) = ground (arith, contains-revision_keys path m)

contains-filter :
    (p : FilePath → Bool) (path : FilePath) (xs : List FilePath)
    → contains (filter p xs) path ≡ (contains xs path && p path)
contains-filter p path [] = refl
contains-filter p path (x ∷ xs) = ground (arith, contains-filter p path xs)

listed_or_same : (x y : Option RevisionState) → (((is_some x || is_some y) && (x /= y)) ≡ (x /= y))
listed_or_same none none = ground arith
listed_or_same none (some b) = ground arith
listed_or_same (some a) y = ground arith

contains-changed_in :
    (left right : List RevisionItem) (path : FilePath)
    → contains (changed_in left right) path ≡ differs (revision_map left) (revision_map right) path
contains-changed_in left right path =
    let l = revision_map left in
    let r = revision_map right in
    elim (Bool-cases (l /= r)) [
      | inl other ↦ rw other (
          contains-set_extend [] (filter (differs l r) (revision_keys l ++ revision_keys r)) path
          ∙ ground (
            arith,
            contains-filter (differs l r) path (revision_keys l ++ revision_keys r),
            contains-append path (revision_keys l) (revision_keys r),
            contains-revision_keys path l,
            contains-revision_keys path r,
            listed_or_same (map_get path l) (map_get path r),
          ))
      | inr same ↦
          let maps : l ≡ r = ground (arith, same) in
          let states : map_get path l ≡ map_get path r = ap (map_get path) maps in
          rw same (ground (arith, states))
    ]

map_get-collect_states :
    (path : FilePath) (items : List InventoryItem) (m : RevisionMap)
    → IsDistinct plan_path items
    → map_get path (collect_states (map from_item items) m) ≡ elim (find_key plan_path path items) [
      | none ↦ map_get path m
      | some x ↦ some (state_of (from_item x))
    ]
unfolding collect_states
map_get-collect_states path [] m u = refl
map_get-collect_states path (x ∷ items) m u =
    map_get-collect_states path items (map_insert x.relative_path (state_of (from_item x)) m) u.1
    ∙ ground (
      arith,
      map_get-map_insert x.relative_path path (state_of (from_item x)) m,
      find_key-none plan_path path items,
    )

-- What a revision keeps of an item: its type, its metadata and its outcome.
abbrev pub kept_state : SourceInventory → FilePath → Option RevisionState
kept_state inventory path = Option.map (λ x. state_of (from_item x)) (inventory_item inventory path)

map_get-revision_map :
    (inventory : SourceInventory) (path : FilePath)
    → HasUniquePaths inventory
    → map_get path (revision_map (map from_item inventory.items)) ≡ kept_state inventory path
unfolding map_get
map_get-revision_map inventory path u =
    map_get-collect_states path inventory.items [] u ∙ ground arith

pub contains-changed_paths :
    (source destination source' destination' : SourceInventory) (path : FilePath)
    → HasUniquePaths source
    → HasUniquePaths destination
    → HasUniquePaths source'
    → HasUniquePaths destination'
    → contains
        (changed_paths (revision_of source destination) (revision_of source' destination'))
        path
      ≡ ((kept_state source path /= kept_state source' path)
          || (kept_state destination path /= kept_state destination' path))
unfolding changed_paths
contains-changed_paths source destination source' destination' path us ud us' ud' =
    let r = revision_of source destination in
    let s = revision_of source' destination' in
    ground (
      arith,
      contains-set_extend (set_extend [] (changed_in r.source s.source))
          (changed_in r.destination s.destination) path,
      contains-set_extend [] (changed_in r.source s.source) path,
      contains-changed_in r.source s.source path,
      contains-changed_in r.destination s.destination path,
      map_get-revision_map source path us,
      map_get-revision_map destination path ud,
      map_get-revision_map source' path us',
      map_get-revision_map destination' path ud',
    )
