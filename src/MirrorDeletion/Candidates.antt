-- ===== src/MirrorDeletion/Candidates.antt =====
-- What makes a path a deletion candidate (`deletion_candidates` of mirror_deletion.rs).
use mathlib.Core.Option.{or_else}
use sync_plus.Base.{
  ◌≡◌, refl, ◌∙◌, ap, true, none, some, List, [], ◌∷◌, arith, Elem, inl, inr, ◌⊎◌, Option-cases,
}
use sync_plus.Base.Keyed.{map_get-collect_by}
use sync_plus.Base.Tree.{map_get}
use sync_plus.Path.{FilePath, path_eq, path_ord}
use sync_plus.Model.{PeerSide, peer_a, peer_b, opposite, included, outcome_eq, MetadataRequirements}
use sync_plus.Inventory.{InventorySnapshotItem, SourceInventorySnapshot, snapshot_lookup}
use sync_plus.Baseline.{
  SyncBaselineItemState, from_snapshot, state_equal, SyncBaselineItem, SyncBaseline,
}
use sync_plus.Baseline.Recorded.{snapshot_path, HasDistinctPaths}
use sync_plus.MirrorDeletion.{
  MirrorDeletionCandidate, current_items, candidate_of, candidates_from, deletion_candidates,
}

abbrev pub peer_of {ℓ} : {A : Type ℓ} → PeerSide → A → A → A
peer_of peer_a a b = a
peer_of peer_b a b = b

-- The evidence that a candidate rests on. The baseline holds the path on both sides and they
-- agreed; the missing peer has no item of any outcome there; the other peer includes an item that
-- still equals its side of the baseline.
pub record IsJustified (baseline : SyncBaseline) (a b : SourceInventorySnapshot)
    (c : MirrorDeletionCandidate) : Type 0 where
  pub entry : SyncBaselineItem
  pub base_a : SyncBaselineItemState
  pub base_b : SyncBaselineItemState
  pub item : InventorySnapshotItem
  pub held : Elem entry baseline.items
  pub at_path : entry.relative_path ≡ c.relative_path
  pub on_a : entry.peer_a ≡ some base_a
  pub on_b : entry.peer_b ≡ some base_b
  pub agreed : state_equal baseline.metadata base_a base_b ≡ true
  pub other : c.affected_peer ≡ opposite c.missing_peer
  pub gone : snapshot_lookup (peer_of c.missing_peer a b) c.relative_path ≡ none
  pub left : snapshot_lookup (peer_of c.affected_peer a b) c.relative_path ≡ some item
  pub inside : item.outcome ≡ included
  pub untouched :
      state_equal baseline.metadata (peer_of c.affected_peer base_a base_b) (from_snapshot item)
      ≡ true
  pub shown : c.evidence.current_remaining_state ≡ from_snapshot item

module _ (m : MetadataRequirements)
    (current_a current_b : List (FilePath × InventorySnapshotItem)) where
  Elem-candidates_from :
      (c : MirrorDeletionCandidate) (items : List SyncBaselineItem)
      → Elem c (candidates_from m current_a current_b items)
      → (item : SyncBaselineItem) × Elem item items
        × (candidate_of m current_a current_b item ≡ some c)
  unfolding candidates_from
  Elem-candidates_from c [] h = elim h [ ]
  Elem-candidates_from c (item ∷ items) h =
      elim (Option-cases (candidate_of m current_a current_b item)) [
        | inl e ↦
            let (x, k, same) = Elem-candidates_from c items (ground (arith, e)) in (x, inr k, same)
        | inr (d, e) ↦ elim (shown d e) [
          | inl same ↦ (item, inl refl, e ∙ ap some same)
          | inr k ↦ let (x, k', same) = Elem-candidates_from c items k in (x, inr k', same)
        ]
      ]
    where
      shown :
          (d : MirrorDeletionCandidate)
          → candidate_of m current_a current_b item ≡ some d
          → (d ≡ c) ⊎ Elem c (candidates_from m current_a current_b items)
      shown d e = ground (arith, e)

current_items-snapshot_lookup :
    (peer : SourceInventorySnapshot) (path : FilePath)
    → HasDistinctPaths peer
    → map_get path (current_items peer) ≡ snapshot_lookup peer path
unfolding map_get or_else
current_items-snapshot_lookup peer path u =
    map_get-collect_by snapshot_path path peer.items [] u
    ∙ elim (snapshot_lookup peer path) as (λ x. or_else x none ≡ x) [ none ↦ refl | some x ↦ refl ]

module _ (baseline : SyncBaseline) (a b : SourceInventorySnapshot) (ua : HasDistinctPaths a)
    (ub : HasDistinctPaths b) where
  module _ (c : MirrorDeletionCandidate) (entry : SyncBaselineItem)
      (base_a base_b : SyncBaselineItemState) (held : Elem entry baseline.items)
      (h : candidate_of baseline.metadata (current_items a) (current_items b) entry ≡ some c)
      (on_a : entry.peer_a ≡ some base_a) (on_b : entry.peer_b ≡ some base_b) where
    at_a : map_get entry.relative_path (current_items a) ≡ snapshot_lookup a entry.relative_path
    at_a = current_items-snapshot_lookup a entry.relative_path ua

    at_b : map_get entry.relative_path (current_items b) ≡ snapshot_lookup b entry.relative_path
    at_b = current_items-snapshot_lookup b entry.relative_path ub

    IsJustified-a :
        (item : InventorySnapshotItem)
        → snapshot_lookup a entry.relative_path ≡ some item
        → snapshot_lookup b entry.relative_path ≡ none
        → IsJustified baseline a b c
    unfolding candidate_of
    IsJustified-a item la lb = record {
      entry = entry;
      base_a = base_a;
      base_b = base_b;
      item = item;
      held = held;
      at_path = ground (arith, h, on_a, on_b, at_a, at_b);
      on_a = on_a;
      on_b = on_b;
      agreed = ground (arith, h, on_a, on_b);
      other = ground (arith, h, on_a, on_b, at_a, at_b);
      gone = ground (arith, h, on_a, on_b, at_a, at_b);
      left = ground (arith, h, on_a, on_b, at_a, at_b);
      inside = ground (arith, h, on_a, on_b, at_a, at_b);
      untouched = ground (arith, h, on_a, on_b, at_a, at_b);
      shown = ground (arith, h, on_a, on_b, at_a, at_b);
    }

    IsJustified-b :
        (item : InventorySnapshotItem)
        → snapshot_lookup a entry.relative_path ≡ none
        → snapshot_lookup b entry.relative_path ≡ some item
        → IsJustified baseline a b c
    unfolding candidate_of
    IsJustified-b item la lb = record {
      entry = entry;
      base_a = base_a;
      base_b = base_b;
      item = item;
      held = held;
      at_path = ground (arith, h, on_a, on_b, at_a, at_b);
      on_a = on_a;
      on_b = on_b;
      agreed = ground (arith, h, on_a, on_b);
      other = ground (arith, h, on_a, on_b, at_a, at_b);
      gone = ground (arith, h, on_a, on_b, at_a, at_b);
      left = ground (arith, h, on_a, on_b, at_a, at_b);
      inside = ground (arith, h, on_a, on_b, at_a, at_b);
      untouched = ground (arith, h, on_a, on_b, at_a, at_b);
      shown = ground (arith, h, on_a, on_b, at_a, at_b);
    }

    -- On both peers, or on neither, there is no candidate.
    justified : IsJustified baseline a b c
    unfolding candidate_of
    justified = elim (Option-cases (snapshot_lookup a entry.relative_path)) [
      | inl la ↦ elim (Option-cases (snapshot_lookup b entry.relative_path)) [
        | inl lb ↦ absurd (ground (arith, h, on_a, on_b, at_a, at_b))
        | inr (item, lb) ↦ IsJustified-b item la lb
      ]
      | inr (item, la) ↦ elim (Option-cases (snapshot_lookup b entry.relative_path)) [
        | inl lb ↦ IsJustified-a item la lb
        | inr (other, lb) ↦ absurd (ground (arith, h, on_a, on_b, at_a, at_b))
      ]
    ]

  candidate_of-IsJustified :
      (c : MirrorDeletionCandidate) (entry : SyncBaselineItem)
      → Elem entry baseline.items
      → candidate_of baseline.metadata (current_items a) (current_items b) entry ≡ some c
      → IsJustified baseline a b c
  unfolding candidate_of
  candidate_of-IsJustified c entry k h = elim (Option-cases entry.peer_a) [
    | inl ea ↦ absurd (ground (arith, h, ea))
    | inr (base_a, ea) ↦ elim (Option-cases entry.peer_b) [
      | inl eb ↦ absurd (ground (arith, h, ea, eb))
      | inr (base_b, eb) ↦ justified c entry base_a base_b k h ea eb
    ]
  ]

  -- A deletion candidate arises only from a path on which the baseline agreed, that one peer no
  -- longer has at all, and that the other peer still holds, included and equal to the baseline. The
  -- candidate names that other peer and shows its current state. Neither of the two current inventories
  -- lists a path twice.
  pub deletion_candidates-IsJustified :
      (c : MirrorDeletionCandidate)
      → Elem c (deletion_candidates baseline a b)
      → IsJustified baseline a b c
  unfolding deletion_candidates
  deletion_candidates-IsJustified c h =
      let (entry, k, e) =
        Elem-candidates_from baseline.metadata (current_items a) (current_items b) c baseline.items
          h in
      candidate_of-IsJustified c entry k e
