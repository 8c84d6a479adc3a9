-- ===== src/Storage/Missed/Pending.antt =====
-- A profile has at most one pending notice, and a decision on a notice stands.
use sync_plus.Base.{
  ℕ, ◌^◌, ◌≤◌, Bool, true, false, Option, none, some, List, [], ◌∷◌, ◌++◌, Text, if◌then◌else◌,
  ◌==◌, ltb, find, Result, ok, err, panicked, require, nat_eq, ◌≡◌, refl, sym, ap, ◌∙◌, arith,
  subst, bind_ok,
}
use sync_plus.Base.Int.{ℤ}
use sync_plus.Storage.{MissedScheduleNotice, Store, new_store, value_as_i64}
use sync_plus.Storage.Checks.{StorageError, MissedScheduleDecision, pending, run_now, not_now}
use sync_plus.Storage.Profiles.{commit}
use sync_plus.Storage.Missed.{
  decision_eq, is_pending_of, with_occurrence, update_notice, decide, new_notice, noticed,
  notice_in, occurrence_error, run_range_error, missed_in_transaction, record_missed_schedule,
  decided, mark_missed_schedule_decision,
}
use sync_plus.Storage.Missed.Count.{
  pending_count, IsSingle, pending_count-decide, noticed-IsSingle, with_missed_event-notices,
}

-- The decision on a notice, if there is such a notice.
abbrev pub decision_of : ℕ → List MissedScheduleNotice → Option MissedScheduleDecision
decision_of id [] = none
decision_of id (n ∷ ns) =
    let rest = decision_of id ns in if n.notice_id == id then some n.decision else rest

-- The notices have at most one pending of each profile, and keep every decision of the earlier ones.
pub record IsSettled (before after : List MissedScheduleNotice) : Type 0 where
  pub single : IsSingle before → IsSingle after
  pub stands :
      (id : ℕ) (d : MissedScheduleDecision)
      → (d == pending) ≡ false
      → decision_of id before ≡ some d
      → decision_of id after ≡ some d

same-IsSettled :
    (before after : List MissedScheduleNotice) → after ≡ before → IsSettled before after
same-IsSettled before after e = record {
  single = λ h id. rw e (h id);
  stands = λ id d h k. ap (decision_of id) e ∙ k;
}

decision_of-append :
    (id : ℕ) (ns ms : List MissedScheduleNotice) (d : MissedScheduleDecision)
    → decision_of id ns ≡ some d
    → decision_of id (ns ++ ms) ≡ some d
decision_of-append id [] ms d h = ground arith
decision_of-append id (n ∷ ns) ms d h = ground (arith, h, decision_of-append id ns ms d)

decision_of-with_occurrence :
    (id notice : ℕ) (t : ℤ) (reason : Text) (ns : List MissedScheduleNotice)
    → decision_of id (update_notice notice (with_occurrence t reason) ns) ≡ decision_of id ns
decision_of-with_occurrence id notice t reason [] = refl
decision_of-with_occurrence id notice t reason (n ∷ ns) =
    ground (arith, decision_of-with_occurrence id notice t reason ns)

decision_of-decide :
    (id notice : ℕ) (e d : MissedScheduleDecision) (ns : List MissedScheduleNotice)
    → (d == pending) ≡ false
    → decision_of id ns ≡ some d
    → decision_of id (update_notice notice (decide e) ns) ≡ some d
decision_of-decide id notice e d [] h k = ground arith
decision_of-decide id notice e d (n ∷ ns) h k =
    ground (arith, h, k, decision_of-decide id notice e d ns h)

noticed-stands :
    (profile_id run_id : ℕ) (t : ℤ) (reason : Text) (store : Store)
    (own waiting : Option MissedScheduleNotice) (id : ℕ) (d : MissedScheduleDecision)
    → decision_of id store.notices ≡ some d
    → decision_of id (noticed profile_id run_id t reason store own waiting).0.notices ≡ some d
noticed-stands profile_id run_id t reason store (some own) waiting id d h = h
noticed-stands profile_id run_id t reason store none (some waiting) id d h =
    decision_of-with_occurrence id waiting.notice_id t reason store.notices ∙ h
noticed-stands profile_id run_id t reason store none none id d h =
    decision_of-append id store.notices
      (new_notice store.next_notice_id profile_id run_id t reason ∷ []) d h

notice_in-IsSettled :
    (store : Store) (profile_id run_id : ℕ) (t : ℤ) (reason : Text)
    → IsSettled store.notices (notice_in store profile_id run_id t reason).0.notices
notice_in-IsSettled store profile_id run_id t reason =
    let own = find (λ (n : MissedScheduleNotice). n.run_id == run_id) store.notices in
    let waiting = find (is_pending_of profile_id) store.notices in
    record {
      single = noticed-IsSingle profile_id run_id t reason store own waiting refl;
      stands = λ id d h. noticed-stands profile_id run_id t reason store own waiting id d;
    }

missed_in_transaction-IsSettled :
    (profile_id run_id : ℕ) (t : ℤ) (reason : Text) (now : ℤ) (store : Store) {after : Store × ℕ}
    → missed_in_transaction profile_id run_id t reason now store ≡ ok after
    → IsSettled store.notices after.0.notices
missed_in_transaction-IsSettled profile_id run_id t reason now store {after} h =
    let (_, _, h1) = bind_ok (require (occurrence_error t reason)) _ h in
    let (_, _, h2) = bind_ok (value_as_i64 profile_id) _ h1 in
    let (_, _, h3) = bind_ok (require (run_range_error run_id)) _ h2 in
    let (noted, id) = notice_in store profile_id run_id t reason in
    subst (IsSettled store.notices)
      (sym (with_missed_event-notices profile_id run_id now noted id {after = after} h3))
      (notice_in-IsSettled store profile_id run_id t reason)

committed-IsSettled :
    (store : Store) (r : Result StorageError (Store × ℕ))
    → ((after : Store × ℕ) → r ≡ ok after → IsSettled store.notices after.0.notices)
    → IsSettled store.notices (commit store r).0.notices
committed-IsSettled store (ok after) h = h after refl
committed-IsSettled store (err e) h = same-IsSettled store.notices store.notices refl
committed-IsSettled store panicked h = same-IsSettled store.notices store.notices refl

record_missed_schedule-IsSettled :
    (profile_id run_id : ℕ) (t : ℤ) (reason : Text) (now : ℤ) (store : Store)
    → IsSettled store.notices
        (record_missed_schedule profile_id run_id t reason now store).0.notices
unfolding record_missed_schedule
record_missed_schedule-IsSettled profile_id run_id t reason now store =
    committed-IsSettled store (missed_in_transaction profile_id run_id t reason now store)
      λ after h.
        missed_in_transaction-IsSettled profile_id run_id t reason now store {after = after} h

decided-IsSettled :
    (id : ℕ) (e : MissedScheduleDecision) (store : Store)
    → (e == pending) ≡ false
    → IsSettled store.notices (decided id e store).notices
decided-IsSettled id e store h = record {
  single = λ single j. ground (arith, pending_count-decide j id e store.notices h, single j);
  stands = λ j d k. decision_of-decide j id e d store.notices k;
}

-- A number that is out of range changes nothing.
marked-IsSettled :
    (small : Bool) (id : ℕ) (e : MissedScheduleDecision) (store : Store)
    (r q : Result StorageError MissedScheduleNotice)
    → (e == pending) ≡ false
    → IsSettled store.notices
        (if◌then◌else◌ {A = Store × Result StorageError MissedScheduleNotice} small
          (decided id e store, r)
          (store, q)).0.notices
marked-IsSettled true id e store r q h = decided-IsSettled id e store h
marked-IsSettled false id e store r q h = same-IsSettled store.notices store.notices refl

mark-IsSettled :
    (id : ℕ) (e : MissedScheduleDecision) (store : Store)
    → IsSettled store.notices (mark_missed_schedule_decision id e store).0.notices
unfolding mark_missed_schedule_decision
mark-IsSettled id pending store = same-IsSettled store.notices store.notices refl
mark-IsSettled id run_now store =
    marked-IsSettled (ltb id (2 ^ 63)) id run_now store _ _ (ground arith)
mark-IsSettled id not_now store =
    marked-IsSettled (ltb id (2 ^ 63)) id not_now store _ _ (ground arith)

-- A change of the notices: a missed occurrence, with the time of the clock, or a decision.
pub data NoticeChange : Type 0 where
  missed_occurrence :
      (profile_id run_id : ℕ) (scheduled_at : ℤ) (reason : Text) (now : ℤ) → NoticeChange
  choice : (notice_id : ℕ) (decision : MissedScheduleDecision) → NoticeChange

abbrev pub apply_change : NoticeChange → Store → Store
apply_change (missed_occurrence profile_id run_id t reason now) store =
    (record_missed_schedule profile_id run_id t reason now store).0
apply_change (choice id decision) store = (mark_missed_schedule_decision id decision store).0

abbrev pub apply_changes : List NoticeChange → Store → Store
apply_changes [] store = store
apply_changes (c ∷ changes) store = apply_changes changes (apply_change c store)

apply_change-IsSettled :
    (c : NoticeChange) (store : Store) → IsSettled store.notices (apply_change c store).notices
apply_change-IsSettled (missed_occurrence profile_id run_id t reason now) store =
    record_missed_schedule-IsSettled profile_id run_id t reason now store
apply_change-IsSettled (choice id decision) store = mark-IsSettled id decision store

apply_changes-IsSettled :
    (changes : List NoticeChange) (store : Store)
    → IsSettled store.notices (apply_changes changes store).notices
apply_changes-IsSettled [] store = same-IsSettled store.notices store.notices refl
apply_changes-IsSettled (c ∷ changes) store =
    let step = apply_change-IsSettled c store in
    let rest = apply_changes-IsSettled changes (apply_change c store) in
    record {
      single = λ h. rest.single (step.single h);
      stands = λ id d h k. rest.stands id d h (step.stands id d h k);
    }

-- Whatever missed occurrences are recorded and whatever choices are made from a new database on, in
-- any order and whether they succeed or fail: a profile has at most one pending notice.
pub apply_changes-pending_count :
    (changes : List NoticeChange) (id : ℕ)
    → pending_count id (apply_changes changes new_store).notices ≤ 1
apply_changes-pending_count changes id =
    (apply_changes-IsSettled changes new_store).single (λ j. omega arith) id

-- A notice that was decided keeps its decision, whatever is recorded and chosen later.
pub apply_changes-decision_of :
    (changes : List NoticeChange) (store : Store) (id : ℕ) (d : MissedScheduleDecision)
    → (d == pending) ≡ false
    → decision_of id store.notices ≡ some d
    → decision_of id (apply_changes changes store).notices ≡ some d
apply_changes-decision_of changes store id d h k =
    (apply_changes-IsSettled changes store).stands id d h k
