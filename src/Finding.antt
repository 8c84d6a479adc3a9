-- ===== src/Finding.antt =====
-- The findings of a Completion Reconciliation (reconciliation.rs): a path with the reason for which
-- it is not settled, each pair listed once.
use sync_plus.Base.{
  ◌≡◌, refl, Bool, true, false, ◌&&◌, not, Option, none, some, List, [], ◌∷◌, ◌++◌, arith,
  if◌then◌else◌, ◌==◌, any, is_empty, is_some, Eq, ◌∙◌, ◌||◌,
}
use sync_plus.Path.{FilePath, path_eq}
use sync_plus.Journal.{
  ActionReason, destination_unavailable, action_reason_eq, ActionOutcome, in_progress, completed,
  cancelled, interrupted, deferred, failed, unresolved, recovery_review, ActionJournalEntry,
}

pub data ReconciliationReason : Type 0 where
  unexplained excluded_item newly_appeared changed : ReconciliationReason
  failed_action : ActionReason → ReconciliationReason
  unavailable unverifiable : ReconciliationReason

pub ReconciliationReason-discrete : Discrete ReconciliationReason
ReconciliationReason-discrete = hlevel

instance unfoldable pub reason_eq : Eq ReconciliationReason
unfolding ReconciliationReason-discrete
reason_eq = record { dec = ReconciliationReason-discrete }

pub data SourceDrainStatus : Type 0 where
  not_applicable drained not_empty : SourceDrainStatus

pub record ReconciliationFinding : Type 0 where
  pub relative_path : FilePath
  pub reason : ReconciliationReason

pub record CompletionReconciliation : Type 0 where
  pub source_drain_status : SourceDrainStatus
  pub findings : List ReconciliationFinding

abbrev pub requires_review : CompletionReconciliation → Bool
requires_review r = not (is_empty r.findings)

abbrev pub Findings : Type 0
Findings = List ReconciliationFinding

unfoldable pub push_unique : Findings → FilePath → ReconciliationReason → Findings
push_unique findings path reason =
    if any (λ finding. finding.relative_path == path && finding.reason == reason) findings
    then findings
    else findings ++ (record { relative_path = path; reason = reason } ∷ [])

-- The reason of an entry that did not complete; the outcome decides alone.
unfoldable pub outcome_reason : ActionOutcome → Option ReconciliationReason
outcome_reason (failed reason) =
    some (if reason == destination_unavailable then unavailable else failed_action reason)
outcome_reason (unresolved reason) =
    some (if reason == destination_unavailable then unavailable else failed_action reason)
outcome_reason (recovery_review reason) = some unverifiable
outcome_reason cancelled = some unverifiable
outcome_reason interrupted = some unverifiable
outcome_reason deferred = some unverifiable
outcome_reason in_progress = some unverifiable
outcome_reason completed = none

-- `entries.iter().find_map(…)`
unfoldable pub journal_reason : List ActionJournalEntry → Option ReconciliationReason
unfolding outcome_reason
journal_reason [] = none
journal_reason (entry ∷ entries) = elim (outcome_reason entry.outcome) [
  | none ↦ journal_reason entries
  | some reason ↦ some reason
]

-- `push_unique` where a step has a reason to give.
abbrev pub push_reason : Findings → FilePath → Option ReconciliationReason → Findings
push_reason findings path none = findings
push_reason findings path (some reason) = push_unique findings path reason

abbrev pub is_flagged : FilePath → Findings → Bool
is_flagged p = any (λ finding. finding.relative_path == p)

any-append :
    (p : FilePath) (fs gs : Findings)
    → is_flagged p (fs ++ gs) ≡ (is_flagged p fs || is_flagged p gs)
any-append p [] gs = refl
any-append p (f ∷ fs) gs = ground (arith, any-append p fs gs)

-- A pair that is listed flags its path.
listed-is_flagged :
    (fs : Findings) (path : FilePath) (reason : ReconciliationReason)
    → any (λ finding. finding.relative_path == path && finding.reason == reason) fs ≡ true
    → is_flagged path fs ≡ true
listed-is_flagged [] path reason h = h
listed-is_flagged (f ∷ fs) path reason h = ground (arith, listed-is_flagged fs path reason)

-- After a push exactly one more path may be flagged, the one that was pushed.
pub is_flagged-push_unique :
    (p path : FilePath) (reason : ReconciliationReason) (fs : Findings)
    → is_flagged p (push_unique fs path reason) ≡ (path == p || is_flagged p fs)
unfolding push_unique
is_flagged-push_unique p path reason fs = ground (
  arith,
  listed-is_flagged fs path reason,
  any-append p fs (record { relative_path = path; reason = reason } ∷ []),
)

pub is_flagged-push_reason :
    (p path : FilePath) (reason : Option ReconciliationReason) (fs : Findings)
    → is_flagged p (push_reason fs path reason) ≡ (path == p && is_some reason || is_flagged p fs)
is_flagged-push_reason p path none fs = ground arith
is_flagged-push_reason p path (some reason) fs =
    is_flagged-push_unique p path reason fs ∙ ground arith

-- No pair of a path and a reason stands twice.
abbrev pub IsUnique : Findings → Type 0
IsUnique [] = Unit
IsUnique (f ∷ fs) =
    (any (λ g. g.relative_path == f.relative_path && g.reason == f.reason) fs ≡ false) × IsUnique fs

fresh-append :
    (f g : ReconciliationFinding) (fs : Findings)
    → any (λ x. x.relative_path == f.relative_path && x.reason == f.reason) (fs ++ (g ∷ [])) ≡ (
        any (λ x. x.relative_path == f.relative_path && x.reason == f.reason) fs
        || (g.relative_path == f.relative_path && g.reason == f.reason))
fresh-append f g [] = ground arith
fresh-append f g (x ∷ fs) = ground (arith, fresh-append f g fs)

append-IsUnique :
    (g : ReconciliationFinding) (fs : Findings)
    → any (λ x. x.relative_path == g.relative_path && x.reason == g.reason) fs ≡ false
    → IsUnique fs
    → IsUnique (fs ++ (g ∷ []))
append-IsUnique g [] new u = (refl, tt)
append-IsUnique g (f ∷ fs) new u = ground (arith, fresh-append f g fs, append-IsUnique g fs)

-- Pushing a finding keeps a list in which no pair of a path and a reason stands twice.
pub push_unique-IsUnique :
    (fs : Findings) (path : FilePath) (reason : ReconciliationReason)
    → IsUnique fs
    → IsUnique (push_unique fs path reason)
unfolding push_unique
push_unique-IsUnique fs path reason u =
    ground (arith, append-IsUnique (record { relative_path = path; reason = reason }) fs)

pub push_reason-IsUnique :
    (fs : Findings) (path : FilePath) (reason : Option ReconciliationReason)
    → IsUnique fs
    → IsUnique (push_reason fs path reason)
push_reason-IsUnique fs path none u = u
push_reason-IsUnique fs path (some reason) u = push_unique-IsUnique fs path reason u
