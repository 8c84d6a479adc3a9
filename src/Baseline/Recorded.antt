-- ===== src/Baseline/Recorded.antt =====
-- What `from_inventories` records: for each path the included items of both peers.
use mathlib.Core.Option
use sync_plus.Base.{
  ◌≡◌, refl, ◌∙◌, Option, none, some, List, [], ◌∷◌, map, Text, arith, if◌then◌else◌, ◌==◌, filter,
  find,
}
use sync_plus.Base.Keyed.{IsDistinct, find_key, find_key-none, find_key-filter, filter-IsDistinct}
use sync_plus.Base.Tree.{map_get, map_insert, map_get-map_insert}
use sync_plus.Path.{FilePath, path_eq, path_ord}
use sync_plus.Model.{MetadataRequirements}
use sync_plus.Inventory.{
  InventorySnapshotItem, SourceInventorySnapshot, snapshot_lookup, is_included,
}
use sync_plus.Baseline.{
  SyncBaselineItem, from_snapshot, baseline_item, Sides, sides_at, record_a, record_b,
  item_of_sides, from_inventories,
}

abbrev pub snapshot_path : InventorySnapshotItem → FilePath
snapshot_path item = item.relative_path

-- No path is listed twice by a peer's inventory.
abbrev pub HasDistinctPaths : SourceInventorySnapshot → Type 0
HasDistinctPaths peer = IsDistinct snapshot_path peer.items

-- The item at a path, if the peer has one and the analysis included it.
abbrev pub included_at : SourceInventorySnapshot → FilePath → Option InventorySnapshotItem
included_at peer path = elim (snapshot_lookup peer path) [
  | none ↦ none
  | some item ↦ if is_included item then some item else none
]

find-item_of_sides :
    (path : FilePath) (m : List (FilePath × Sides))
    → find (λ item. item.relative_path == path) (map item_of_sides m)
      ≡ Option.map (λ (s : Sides). item_of_sides (path, s)) (map_get path m)
unfolding map_get
find-item_of_sides path [] = refl
find-item_of_sides path ((j, s) ∷ m) = ground (arith, find-item_of_sides path m)

map_get-record_a :
    (path : FilePath) (xs : List InventorySnapshotItem) (m : List (FilePath × Sides))
    → IsDistinct snapshot_path xs
    → map_get path (record_a xs m) ≡ elim (find_key snapshot_path path xs) [
      | none ↦ map_get path m
      | some x ↦ some (some (from_snapshot x), (sides_at path m).1)
    ]
unfolding record_a
map_get-record_a path [] m u = refl
map_get-record_a path (x ∷ xs) m u =
    let sides : Sides = (some (from_snapshot x), (sides_at x.relative_path m).1) in
    map_get-record_a path xs (map_insert x.relative_path sides m) u.1
    ∙ ground (
      arith,
      map_get-map_insert x.relative_path path sides m,
      find_key-none snapshot_path path xs,
    )

map_get-record_b :
    (path : FilePath) (xs : List InventorySnapshotItem) (m : List (FilePath × Sides))
    → IsDistinct snapshot_path xs
    → map_get path (record_b xs m) ≡ elim (find_key snapshot_path path xs) [
      | none ↦ map_get path m
      | some x ↦ some ((sides_at path m).0, some (from_snapshot x))
    ]
unfolding record_b
map_get-record_b path [] m u = refl
map_get-record_b path (x ∷ xs) m u =
    let sides : Sides = ((sides_at x.relative_path m).0, some (from_snapshot x)) in
    map_get-record_b path xs (map_insert x.relative_path sides m) u.1
    ∙ ground (
      arith,
      map_get-map_insert x.relative_path path sides m,
      find_key-none snapshot_path path xs,
    )

pub included_at-find_key :
    (peer : SourceInventorySnapshot) (path : FilePath)
    → HasDistinctPaths peer
    → find_key snapshot_path path (filter is_included peer.items) ≡ included_at peer path
included_at-find_key peer path u = find_key-filter snapshot_path is_included path peer.items u

-- The entry of a path that holds what the two peers have there, if one of them has something.
abbrev pub recorded :
    FilePath → Option InventorySnapshotItem → Option InventorySnapshotItem → Option SyncBaselineItem
recorded path none none = none
recorded path (some a) none =
    some (record { relative_path = path; peer_a = some (from_snapshot a); peer_b = none })
recorded path none (some b) =
    some (record { relative_path = path; peer_a = none; peer_b = some (from_snapshot b) })
recorded path (some a) (some b) = some (record {
  relative_path = path;
  peer_a = some (from_snapshot a);
  peer_b = some (from_snapshot b);
})

-- A recorded baseline has an entry for exactly the paths that one of the inventories includes, and
-- the entry holds the state of each side that includes the path, and no other.
pub baseline_item-from_inventories :
    (name : Text) (a b : SourceInventorySnapshot) (m : MetadataRequirements) (path : FilePath)
    → HasDistinctPaths a
    → HasDistinctPaths b
    → baseline_item (from_inventories name a b m) path
      ≡ recorded path (included_at a path) (included_at b path)
unfolding from_inventories map_get
baseline_item-from_inventories name a b m path ua ub =
    let items_a = filter is_included a.items in
    let items_b = filter is_included b.items in
    find-item_of_sides path (record_b items_b (record_a items_a []))
    ∙ ground (
      arith,
      map_get-record_b path items_b (record_a items_a [])
          (filter-IsDistinct snapshot_path is_included b.items ub),
      map_get-record_a path items_a [] (filter-IsDistinct snapshot_path is_included a.items ua),
      included_at-find_key a path ua,
      included_at-find_key b path ub,
    )
