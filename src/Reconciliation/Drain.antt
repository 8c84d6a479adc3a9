-- ===== src/Reconciliation/Drain.antt =====
-- A reconciliation without findings settled every item that its loops read (reconciliation.rs).
use sync_plus.Base.{
  ◌≡◌, refl, sym, ◌∙◌, ap, subst, true, false, ◌||◌, Option, none, some, List, [], ◌∷◌, contains,
  is_empty, if◌then◌else◌, ◌==◌, ◌/=◌, Elem, inl, inr, arith, Bool-cases, option_eq, text_eq,
  nat_eq,
}
use sync_plus.Path.{FilePath, path_eq, path_ord}
use sync_plus.Model.{SyncOptions, included, excluded, outcome_eq, action_kind_eq}
use sync_plus.Inventory.{InventoryItem, InventorySnapshotItem}
use sync_plus.Journal.{ActionJournalEntry, completed}
use sync_plus.Finding.{
  ReconciliationReason, excluded_item, newly_appeared, Findings, push_reason, push_unique,
  journal_reason,
}
use sync_plus.Reconciliation.{
  FreshAnalysis, item_reason, reconcile_items, reconcile_new, cleanup_reason, reconcile_cleanup,
}

pub is_empty-push_unique :
    (fs : Findings) (path : FilePath) (reason : ReconciliationReason)
    → is_empty (push_unique fs path reason) ≡ false
unfolding push_unique
is_empty-push_unique [] path reason = refl
is_empty-push_unique (f ∷ fs) path reason = ground arith

pub is_empty-push_reason :
    (fs : Findings) (path : FilePath) (reason : Option ReconciliationReason)
    → is_empty (push_reason fs path reason) ≡ true
    → (is_empty fs ≡ true) × (reason ≡ none)
is_empty-push_reason fs path none h = (h, refl)
is_empty-push_reason fs path (some reason) h =
    absurd (ground (arith, h, is_empty-push_unique fs path reason))

-- A journal gives no reason only where every entry completed.
pub journal_reason-none :
    (entries : List ActionJournalEntry)
    → journal_reason entries ≡ none
    → (e : ActionJournalEntry) → Elem e entries
    → e.outcome ≡ completed
unfolding journal_reason
journal_reason-none [] h e k = elim k [ ]
journal_reason-none (x ∷ xs) h e (inl same) =
    ap (λ (y : ActionJournalEntry). y.outcome) (sym same) ∙ ground (arith, h)
journal_reason-none (x ∷ xs) h e (inr k) = journal_reason-none xs (ground (arith, h)) e k

module _ (options : SyncOptions) (current : FreshAnalysis) (journal : List ActionJournalEntry) where
  pub reconcile_items-settled :
      (items : List InventorySnapshotItem) (fs : Findings)
      → is_empty (reconcile_items options current journal items fs) ≡ true
      → (is_empty fs ≡ true)
        × ((x : InventorySnapshotItem)
            → Elem x items
            → item_reason options current journal x ≡ none)
  unfolding reconcile_items
  reconcile_items-settled [] fs h = (h, λ x k. absurd k)
  reconcile_items-settled (y ∷ items) fs h =
      let reason = item_reason options current journal y in
      let (pushed, rest) =
        reconcile_items-settled items (push_reason fs y.relative_path reason) h in
      let (before, settled) = is_empty-push_reason fs y.relative_path reason pushed in
      (
        before,
        λ x k. elim k [
          | inl same ↦
              subst (λ (z : InventorySnapshotItem). item_reason options current journal z ≡ none)
                same settled
          | inr k ↦ rest x k
        ],
      )

pub reconcile_new-settled :
    (paths : List FilePath) (items : List InventoryItem) (fs : Findings)
    → is_empty (reconcile_new paths items fs) ≡ true
    → (is_empty fs ≡ true)
      × ((x : InventoryItem) → Elem x items → contains paths x.relative_path ≡ true)
unfolding reconcile_new
reconcile_new-settled paths [] fs h = (h, λ x k. absurd k)
reconcile_new-settled paths (y ∷ items) fs h = elim (Bool-cases (contains paths y.relative_path)) [
  | inl e ↦
      let (before, rest) = reconcile_new-settled paths items fs (ground (arith, h, e)) in
      (
        before,
        λ x k. elim k [
          | inl same ↦ ap (λ (z : InventoryItem). contains paths z.relative_path) (sym same) ∙ e
          | inr k ↦ rest x k
        ],
      )
  | inr e ↦
      let reason = if y.outcome == excluded then excluded_item else newly_appeared in
      let (pushed, rest) =
        reconcile_new-settled paths items (push_unique fs y.relative_path reason)
          (ground (arith, h, e)) in
      absurd (ground (arith, pushed, is_empty-push_unique fs y.relative_path reason))
]

pub reconcile_cleanup-settled :
    (paths : List FilePath) (journal : List ActionJournalEntry) (items : List InventoryItem)
    (fs : Findings)
    → is_empty (reconcile_cleanup paths journal items fs) ≡ true
    → (is_empty fs ≡ true)
      × ((x : InventoryItem)
          → Elem x items
          → x.outcome ≡ included
          → contains paths x.relative_path ≡ true)
unfolding reconcile_cleanup
reconcile_cleanup-settled paths journal [] fs h = (h, λ x k. absurd k)
reconcile_cleanup-settled paths journal (y ∷ items) fs h =
    elim (Bool-cases (y.outcome /= included || contains paths y.relative_path)) [
      | inl e ↦
          let (before, rest) =
            reconcile_cleanup-settled paths journal items fs (ground (arith, h, e)) in
          (
            before,
            λ x k inside. elim k [
              | inl same ↦
                  let at_y : y.outcome ≡ included =
                    ap (λ (z : InventoryItem). z.outcome) same ∙ inside in
                  ap (λ (z : InventoryItem). contains paths z.relative_path) (sym same)
                  ∙ ground (arith, e, at_y)
              | inr k ↦ rest x k inside
            ],
          )
      | inr e ↦
          let reason = cleanup_reason journal y.relative_path in
          let (pushed, rest) =
            reconcile_cleanup-settled paths journal items (push_unique fs y.relative_path reason)
              (ground (arith, h, e)) in
          absurd (ground (arith, pushed, is_empty-push_unique fs y.relative_path reason))
    ]
