-- ===== src/Reconciliation/Drained.antt =====
-- What a Safe Delete run has shown when its reconciliation reports the source drained.
use sync_plus.Base.{
  ◌≡◌, true, false, none, some, List, [], map, any, contains, is_empty, ◌==◌, Elem, inl, inr, ◌⊎◌,
  arith, Bool-cases, Option-cases, Elem-filter, Elem-filter_of, Elem-any, Elem-map, contains-Elem,
  not-Elem_of_find, option_eq, text_eq, nat_eq,
}
use sync_plus.Base.Tree.{contains-set_extend}
use sync_plus.Path.{FilePath, path_eq, path_ord}
use sync_plus.Model.{
  SyncOptions, included, outcome_eq, remove_source_after_verification, action_kind_eq,
}
use sync_plus.Inventory.{
  InventoryItem, inventory_item, InventorySnapshotItem, SourceInventorySnapshot, snapshot_item,
}
use sync_plus.Journal.{ActionJournalEntry, RemovalResult, completed}
use sync_plus.Finding.{Findings, journal_reason, drained}
use sync_plus.MirrorEquality.{equal}
use sync_plus.Reconciliation.{
  FreshAnalysis, path_journal, proves_removal, removal_required, item_reason, reconcile_items,
  reconcile_new, reconcile_cleanup, frozen_paths, reconcile, removal_evidence_matches,
}
use sync_plus.Reconciliation.Drain.{
  journal_reason-none, reconcile_items-settled, reconcile_new-settled, reconcile_cleanup-settled,
}

-- A completed Safe Delete entry of the item's path, whose evidence shows the item's size and
-- content at the destination.
pub record IsRemoved (journal : List ActionJournalEntry) (x : InventorySnapshotItem) : Type 0 where
  pub entry : ActionJournalEntry
  pub result : RemovalResult
  pub listed : Elem entry journal
  pub at_path : entry.plan.relative_path ≡ x.relative_path
  pub operation : entry.plan.operation ≡ remove_source_after_verification
  pub done : entry.outcome ≡ completed
  pub recorded : entry.removal_result ≡ some result
  pub present : result.evidence.destination_present ≡ true
  pub same_size : result.evidence.destination_size ≡ some x.size
  pub same_content :
      (x.content_fingerprint ≡ none) ⊎ (result.evidence.destination_sha256 ≡ x.content_fingerprint)

-- A frozen item that the run has dealt with.
pub record IsDrainedItem (options : SyncOptions) (current : FreshAnalysis)
    (journal : List ActionJournalEntry) (x : InventorySnapshotItem) : Type 0 where
  pub copy : InventoryItem
  pub inside : x.outcome ≡ included
  pub all_done :
      (e : ActionJournalEntry)
      → Elem e journal
      → e.plan.relative_path ≡ x.relative_path
      → e.outcome ≡ completed
  pub copied : inventory_item current.destination_inventory x.relative_path ≡ some copy
  pub same_copy : equal options.metadata x (snapshot_item copy) ≡ true
  pub gone :
      removal_required x.item_type ≡ true
      → inventory_item current.source_inventory x.relative_path ≡ none
  pub removed : removal_required x.item_type ≡ true → IsRemoved journal x

entry_at :
    (e : ActionJournalEntry) {path : FilePath}
    → (e.plan.relative_path == path) ≡ true
    → e.plan.relative_path ≡ path
entry_at e h = ground arith

module _ (journal : List ActionJournalEntry) (x : InventorySnapshotItem) where
  proves_removal-IsRemoved :
      (e : ActionJournalEntry)
      → Elem e journal
      → e.plan.relative_path ≡ x.relative_path
      → proves_removal x e ≡ true
      → IsRemoved journal x
  unfolding removal_evidence_matches
  proves_removal-IsRemoved e k at h = elim (Option-cases e.removal_result) [
    | inl none' ↦ absurd (ground (arith, h, none'))
    | inr (result, r) ↦ record {
      entry = e;
      result = result;
      listed = k;
      at_path = at;
      operation = ground (arith, h);
      done = ground (arith, h);
      recorded = r;
      present = ground (arith, h, r);
      same_size = ground (arith, h, r);
      same_content = ground (arith, h, r);
    }
  ]

  removal-IsRemoved :
      any (proves_removal x) (path_journal journal x.relative_path) ≡ true → IsRemoved journal x
  removal-IsRemoved h =
      let (e, k, p) = Elem-any (proves_removal x) (path_journal journal x.relative_path) h in
      let (k', at) = Elem-filter (λ e. e.plan.relative_path == x.relative_path) e journal k in
      proves_removal-IsRemoved e k' (entry_at e at) p

  path_journal-completed :
      journal_reason (path_journal journal x.relative_path) ≡ none
      → (e : ActionJournalEntry) → Elem e journal
      → e.plan.relative_path ≡ x.relative_path
      → e.outcome ≡ completed
  path_journal-completed h e k at = journal_reason-none (path_journal journal x.relative_path) h e (
      Elem-filter_of (λ e. e.plan.relative_path == x.relative_path) e journal k
        (ground (arith, at)))

module _ (options : SyncOptions) (current : FreshAnalysis) (journal : List ActionJournalEntry) where
  item_reason-IsDrainedItem :
      (x : InventorySnapshotItem)
      → options.safe_delete ≡ true
      → item_reason options current journal x ≡ none
      → IsDrainedItem options current journal x
  unfolding item_reason
  item_reason-IsDrainedItem x safe h =
      elim (Option-cases (inventory_item current.destination_inventory x.relative_path)) [
        | inl e ↦ absurd (ground (arith, h, safe, e))
        | inr (copy, e) ↦ record {
          copy = copy;
          inside = ground (arith, h);
          all_done = path_journal-completed journal x (ground (arith, h));
          copied = e;
          same_copy = ground (arith, h, safe, e);
          gone = λ r. ground (arith, h, safe, r);
          removed = λ r. removal-IsRemoved journal x (ground (arith, h, safe, r));
        }
      ]

-- The frozen inventory has an item at the path.
pub record IsFrozen (inventory : SourceInventorySnapshot) (path : FilePath) : Type 0 where
  pub item : InventorySnapshotItem
  pub held : Elem item inventory.items
  pub at_path : item.relative_path ≡ path

pub record IsDrained (options : SyncOptions) (inventory : SourceInventorySnapshot)
    (current : FreshAnalysis) (journal : List ActionJournalEntry) : Type 0 where
  pub asked : options.safe_delete ≡ true
  pub items :
      (x : InventorySnapshotItem) → Elem x inventory.items → IsDrainedItem options current journal x
  pub remains :
      (y : InventoryItem)
      → Elem y current.source_inventory.items
      → (f : IsFrozen inventory y.relative_path) × (removal_required f.item.item_type ≡ false)
  pub cleaned :
      options.destination_cleanup ≡ true
      → (y : InventoryItem) → Elem y current.destination_inventory.items
      → y.outcome ≡ included
      → IsFrozen inventory y.relative_path

frozen_paths-IsFrozen :
    (inventory : SourceInventorySnapshot) (path : FilePath)
    → contains (frozen_paths inventory.items) path ≡ true
    → IsFrozen inventory path
frozen_paths-IsFrozen inventory path h =
    let paths = map (λ (item : InventorySnapshotItem). item.relative_path) inventory.items in
    let listed : contains paths path ≡ true =
      ground (arith, h, contains-set_extend [] paths path) in
    let (item, held, at) =
      Elem-map (λ (item : InventorySnapshotItem). item.relative_path) path inventory.items
        (contains-Elem path paths listed) in
    record { item = item; held = held; at_path = at }

module _ (options : SyncOptions) (inventory : SourceInventorySnapshot) (current : FreshAnalysis)
    (journal : List ActionJournalEntry)
    (h : (reconcile options inventory current journal).source_drain_status ≡ drained) where
  abbrev expected_paths : List FilePath
  expected_paths = frozen_paths inventory.items

  abbrev of_items : Findings
  of_items = reconcile_items options current journal inventory.items []

  abbrev of_new : Findings
  of_new = reconcile_new expected_paths current.source_inventory.items of_items

  abbrev of_cleanup : Findings
  of_cleanup = reconcile_cleanup expected_paths journal current.destination_inventory.items of_new

  asked_safe : options.safe_delete ≡ true
  unfolding reconcile
  asked_safe = ground (arith, h)

  cleanup-settled :
      options.destination_cleanup ≡ true
      → (is_empty of_new ≡ true)
        × ((y : InventoryItem)
            → Elem y current.destination_inventory.items
            → y.outcome ≡ included
            → contains expected_paths y.relative_path ≡ true)
  unfolding reconcile
  cleanup-settled on =
      reconcile_cleanup-settled expected_paths journal current.destination_inventory.items of_new
        (ground (arith, h, on))

  new-empty : is_empty of_new ≡ true
  unfolding reconcile
  new-empty = elim (Bool-cases options.destination_cleanup) [
    | inl on ↦ (cleanup-settled on).0
    | inr off ↦ ground (arith, h, off)
  ]

  items-settled :
      (x : InventorySnapshotItem) → Elem x inventory.items → IsDrainedItem options current journal x
  items-settled x k =
      let (before, _) =
        reconcile_new-settled expected_paths current.source_inventory.items of_items new-empty in
      item_reason-IsDrainedItem options current journal x asked_safe
        ((reconcile_items-settled options current journal inventory.items [] before).1 x k)

  remains-settled :
      (y : InventoryItem)
      → Elem y current.source_inventory.items
      → (f : IsFrozen inventory y.relative_path) × (removal_required f.item.item_type ≡ false)
  remains-settled y k =
      let (_, known) =
        reconcile_new-settled expected_paths current.source_inventory.items of_items new-empty in
      let f = frozen_paths-IsFrozen inventory y.relative_path (known y k) in
      elim (Bool-cases (removal_required f.item.item_type)) [
        | inr e ↦ (f, e)
        | inl e ↦
            let gone = (items-settled f.item f.held).gone e in
            let missed =
              not-Elem_of_find (λ item. item.relative_path == f.item.relative_path)
                current.source_inventory.items gone y k in
            absurd (ground (arith, missed, f.at_path))
      ]

  -- A source that is reported drained was asked to be, and is. Every frozen item was included, all
  -- its journal entries completed, and the destination holds an item equal to it. A regular file or
  -- a symlink is gone from the source, and a completed removal recorded its size and content at the
  -- destination. What remains at the source stands at a frozen path of neither kind, and with
  -- cleanup every included destination item stands at a frozen path.
  pub reconcile-IsDrained : IsDrained options inventory current journal
  reconcile-IsDrained = record {
    asked = asked_safe;
    items = items-settled;
    remains = remains-settled;
    cleaned = λ on y k inside.
        frozen_paths-IsFrozen inventory y.relative_path ((cleanup-settled on).1 y k inside);
  }
