-- ===== src/MirrorEquality/Agreement.antt =====
-- What `MirrorEquality` decides, and that it is a partial equivalence (baseline.rs).
use sync_plus.Base.{
  ◌≡◌, ◌↔◌, ◌≢◌, ◌∙◌, sym, true, false, none, arith, Bool-cases, inl, inr, option_eq, text_eq,
  nat_eq,
}
use sync_plus.Base.Int.{int_eq}
use sync_plus.Path.{path_eq}
use sync_plus.Model.{
  regular_file, included, type_eq, outcome_eq, MetadataRequirements, any_specialist,
}
use sync_plus.Inventory.{InventorySnapshotItem}
use sync_plus.MirrorEquality.{Parts, equal_parts, snapshot_parts, equal, review_equal}

-- The fields agree that the requirements name. Type and, of a regular file, size and content are
-- always named; content must be known on both sides.
pub record Agrees (m : MetadataRequirements) (left right : Parts) : Type 0 where
  pub supported : any_specialist m.specialist ≡ false
  pub same_type : left.item_type ≡ right.item_type
  pub same_size : left.item_type ≡ regular_file → left.size ≡ right.size
  pub known : left.item_type ≡ regular_file → left.content ≢ none
  pub same_content : left.item_type ≡ regular_file → left.content ≡ right.content
  pub same_permissions :
      m.executable_permissions ≡ true → left.executable_permissions ≡ right.executable_permissions
  pub same_target : m.symlink_targets ≡ true → left.symlink_target ≡ right.symlink_target
  pub same_time : m.timestamps ≡ true → left.modified_at ≡ right.modified_at

pub equal_parts-Agrees :
    (m : MetadataRequirements) (l r : Parts) → equal_parts m l r ≡ true → Agrees m l r
unfolding equal_parts
equal_parts-Agrees m l r h = ground arith

pub equal_parts_of-Agrees :
    (m : MetadataRequirements) (l r : Parts) → Agrees m l r → equal_parts m l r ≡ true
unfolding equal_parts
equal_parts_of-Agrees m l r a = ground arith

-- What `equal` accepts: two included items whose named fields agree.
pub record Settles (m : MetadataRequirements) (l r : InventorySnapshotItem) : Type 0 where
  pub left_included : l.outcome ≡ included
  pub right_included : r.outcome ≡ included
  pub agrees : Agrees m (snapshot_parts l) (snapshot_parts r)

pub equal_iff :
    (m : MetadataRequirements) (l r : InventorySnapshotItem) → (equal m l r ≡ true) ↔ Settles m l r
unfolding equal
equal_iff m l r = (
  λ h. record {
    left_included = ground arith;
    right_included = ground arith;
    agrees = equal_parts-Agrees m _ _ (ground arith);
  },
  λ s. ground (arith, s.left_included, s.right_included, equal_parts_of-Agrees m _ _ s.agrees),
)

Agrees-symm : (m : MetadataRequirements) {l r : Parts} → Agrees m l r → Agrees m r l
Agrees-symm m a = ground arith

Agrees-trans :
    (m : MetadataRequirements) {l r s : Parts} → Agrees m l r → Agrees m r s → Agrees m l s
Agrees-trans m a b = ground arith

-- An item that equality can settle at all: it is included, its requirements can be checked, and
-- the content of a regular file was read.
pub record IsObserved (m : MetadataRequirements) (l : InventorySnapshotItem) : Type 0 where
  pub inside : l.outcome ≡ included
  pub supported : any_specialist m.specialist ≡ false
  pub known : l.item_type ≡ regular_file → l.content_fingerprint ≢ none

Settles-symm :
    (m : MetadataRequirements) {l r : InventorySnapshotItem} → Settles m l r → Settles m r l
Settles-symm m s = record {
  left_included = s.right_included;
  right_included = s.left_included;
  agrees = Agrees-symm m s.agrees;
}

-- `equal` does not depend on which peer is named first.
pub equal_symm :
    (m : MetadataRequirements) (l r : InventorySnapshotItem) → equal m l r ≡ equal m r l
equal_symm m l r = elim (Bool-cases (equal m l r)) [
  | inl h ↦ h ∙ sym ((equal_iff m r l).1 (Settles-symm m ((equal_iff m l r).0 h)))
  | inr h ↦ elim (Bool-cases (equal m r l)) [
    | inl k ↦ (equal_iff m l r).1 (Settles-symm m ((equal_iff m r l).0 k)) ∙ sym k
    | inr k ↦ h ∙ sym k
  ]
]

pub equal_trans :
    (m : MetadataRequirements) (l r s : InventorySnapshotItem)
    → equal m l r ≡ true
    → equal m r s ≡ true
    → equal m l s ≡ true
equal_trans m l r s h k =
    let a = (equal_iff m l r).0 h in
    let b = (equal_iff m r s).0 k in
    (equal_iff m l s).1 (record {
      left_included = a.left_included;
      right_included = b.right_included;
      agrees = Agrees-trans m a.agrees b.agrees;
    })

-- An item equals itself exactly when it was observed.
pub equal_self :
    (m : MetadataRequirements) (l : InventorySnapshotItem) → (equal m l l ≡ true) ↔ IsObserved m l
unfolding equal equal_parts
equal_self m l = (λ h. ground arith, λ o. ground (arith, o.inside, o.supported, o.known))

-- Mirror equality is an equivalence on the items that were observed: an item equals itself exactly
-- when it was, the order of the peers does not matter, and two items that equal a third are equal.
pub equal_equivalence :
    (m : MetadataRequirements) (l r s : InventorySnapshotItem)
    → ((equal m l l ≡ true) ↔ IsObserved m l)
      × (equal m l r ≡ equal m r l)
      × (equal m l r ≡ true → equal m r s ≡ true → equal m l s ≡ true)
equal_equivalence m l r s = (equal_self m l, equal_symm m l r, equal_trans m l r s)

-- On two included items the review's equality and the one that settles a path are the same.
pub review_equal-equal :
    (m : MetadataRequirements) (l r : InventorySnapshotItem)
    → l.outcome ≡ included
    → r.outcome ≡ included
    → review_equal m l r ≡ equal m l r
unfolding review_equal equal equal_parts
review_equal-equal m l r hl hr = ground arith

-- The requirements `m` name everything that `n` names.
pub record Covers (m n : MetadataRequirements) : Type 0 where
  pub permissions : n.executable_permissions ≡ true → m.executable_permissions ≡ true
  pub targets : n.symlink_targets ≡ true → m.symlink_targets ≡ true
  pub times : n.timestamps ≡ true → m.timestamps ≡ true
  pub specialist : any_specialist n.specialist ≡ true → any_specialist m.specialist ≡ true

Agrees-mono : {m n : MetadataRequirements} {l r : Parts} → Covers m n → Agrees m l r → Agrees n l r
Agrees-mono {m} {n} c a = record {
  supported = elim (Bool-cases (any_specialist n.specialist)) [
    | inl h ↦ cc (c.specialist h, a.supported)
    | inr h ↦ h
  ];
  same_type = a.same_type;
  same_size = a.same_size;
  known = a.known;
  same_content = a.same_content;
  same_permissions = λ h. a.same_permissions (c.permissions h);
  same_target = λ h. a.same_target (c.targets h);
  same_time = λ h. a.same_time (c.times h);
}

-- Asking for more never settles more: what is equal under the stricter requirements is equal
-- under the weaker ones.
pub equal_mono :
    (m n : MetadataRequirements) (l r : InventorySnapshotItem)
    → Covers m n
    → equal m l r ≡ true
    → equal n l r ≡ true
equal_mono m n l r c h =
    let s = (equal_iff m l r).0 h in
    (equal_iff n l r).1 (record {
      left_included = s.left_included;
      right_included = s.right_included;
      agrees = Agrees-mono c s.agrees;
    })
