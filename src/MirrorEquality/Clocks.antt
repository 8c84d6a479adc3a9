-- ===== src/MirrorEquality/Clocks.antt =====
-- Two conversions of a clock reading to nanoseconds, `into_unix_nanos` of baseline.rs and
-- `unix_nanos` of reconciliation.rs, and the two equality tests that rest on them.
use sync_plus.Base.{◌≡◌, ◌≢◌, ◌↔◌, ◌-◌, refl, Option, none, some, arith, nat_eq, text_eq, option_eq}
use sync_plus.Base.Int.{pos, negsuc, int_eq}
use sync_plus.Path.{path_eq}
use sync_plus.Model.{type_eq, outcome_eq, MetadataRequirements}
use sync_plus.Inventory.{SystemTime, InventoryItem, snapshot_item, unix_nanos, i64_limit}
use sync_plus.MirrorEquality.{normalize_modified_at, equal, equal_inventory}

-- The one reading on which they differ, -2^63 nanoseconds.
abbrev pub earliest : SystemTime
earliest = negsuc (i64_limit - 1)

-- The two conversions agree on every reading but the earliest, and differ there.
pub normalize_modified_at-unix_nanos :
    (t : Option SystemTime) → (normalize_modified_at t ≡ unix_nanos t) ↔ (t ≢ some earliest)
unfolding normalize_modified_at unix_nanos
normalize_modified_at-unix_nanos none = (λ _ e. cc, λ _. refl)
normalize_modified_at-unix_nanos (some (pos d)) = (λ _ e. cc, λ _. refl)
normalize_modified_at-unix_nanos (some (negsuc d)) = (λ h. ground arith, λ h. ground arith)

-- Comparing two live items is comparing their frozen snapshots, if neither was modified at the
-- earliest reading.
pub equal_inventory-snapshot_item :
    (m : MetadataRequirements) (l r : InventoryItem)
    → l.metadata.modified_at ≢ some earliest
    → r.metadata.modified_at ≢ some earliest
    → equal_inventory m l r ≡ equal m (snapshot_item l) (snapshot_item r)
unfolding equal_inventory equal snapshot_item
equal_inventory-snapshot_item m l r hl hr = rw (
  (normalize_modified_at-unix_nanos l.metadata.modified_at).1 hl,
  (normalize_modified_at-unix_nanos r.metadata.modified_at).1 hr,
)
