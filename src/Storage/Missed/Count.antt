-- ===== src/Storage/Missed/Count.antt =====
-- How many notices of a profile are pending, before and after a change.
use sync_plus.Base.{
  ℕ, suc, ◌+◌, ◌≤◌, false, Option, none, some, List, [], ◌∷◌, ◌++◌, Text, if◌then◌else◌, ◌==◌, any,
  find, ok, nat_eq, ◌≡◌, refl, sym, ap, ◌∙◌, arith, bind_ok, ok-injective, Bool-cases, inl, inr,
}
use sync_plus.Base.Int.{ℤ}
use sync_plus.Storage.{MissedScheduleNotice, Store}
use sync_plus.Storage.Checks.{MissedScheduleDecision, pending}
use sync_plus.Storage.Claim.{insert_scheduler_event_in_transaction}
use sync_plus.Storage.Missed.{
  decision_eq, is_pending_of, with_occurrence, update_notice, decide, new_notice, is_missed_event,
  missed_event, noticed, with_missed_event,
}

-- How many notices of a profile wait for a decision.
abbrev pub pending_count : ℕ → List MissedScheduleNotice → ℕ
pending_count id [] = 0
pending_count id (n ∷ ns) =
    let rest = pending_count id ns in if is_pending_of id n then suc rest else rest

abbrev pub IsSingle : List MissedScheduleNotice → Type 0
IsSingle ns = (id : ℕ) → pending_count id ns ≤ 1

pending_count-append :
    (id : ℕ) (ns : List MissedScheduleNotice) (n : MissedScheduleNotice)
    → pending_count id (ns ++ (n ∷ [])) ≡ pending_count id ns + pending_count id (n ∷ [])
pending_count-append id [] n = ground arith
pending_count-append id (m ∷ ns) n = ground (arith, pending_count-append id ns n)

pending_count-none :
    (id : ℕ) (ns : List MissedScheduleNotice)
    → find (is_pending_of id) ns ≡ none
    → pending_count id ns ≡ 0
pending_count-none id [] h = refl
pending_count-none id (n ∷ ns) h = ground (arith, pending_count-none id ns)

-- Another occurrence on a notice leaves it pending, or not.
pending_count-with_occurrence :
    (id notice : ℕ) (t : ℤ) (reason : Text) (ns : List MissedScheduleNotice)
    → pending_count id (update_notice notice (with_occurrence t reason) ns) ≡ pending_count id ns
pending_count-with_occurrence id notice t reason [] = refl
pending_count-with_occurrence id notice t reason (n ∷ ns) =
    ground (arith, pending_count-with_occurrence id notice t reason ns)

pending_of-decide :
    (id : ℕ) (d : MissedScheduleDecision) (n : MissedScheduleNotice)
    → (d == pending) ≡ false
    → is_pending_of id (decide d n) ≡ false
pending_of-decide id d n h = ground (arith, h)

pub pending_count-decide :
    (id notice : ℕ) (d : MissedScheduleDecision) (ns : List MissedScheduleNotice)
    → (d == pending) ≡ false
    → pending_count id (update_notice notice (decide d) ns) ≤ pending_count id ns
pending_count-decide id notice d [] h = omega arith
pending_count-decide id notice d (n ∷ ns) h =
    ground (arith, pending_count-decide id notice d ns h, pending_of-decide id d n h)

pub noticed-IsSingle :
    (profile_id run_id : ℕ) (t : ℤ) (reason : Text) (store : Store)
    (own waiting : Option MissedScheduleNotice)
    → find (is_pending_of profile_id) store.notices ≡ waiting
    → IsSingle store.notices
    → IsSingle (noticed profile_id run_id t reason store own waiting).0.notices
noticed-IsSingle profile_id run_id t reason store (some own) waiting e single = single
noticed-IsSingle profile_id run_id t reason store none (some waiting) e single =
    λ id. rw (pending_count-with_occurrence id waiting.notice_id t reason store.notices) (single id)
noticed-IsSingle profile_id run_id t reason store none none e single = λ id. ground (
  arith,
  pending_count-append id store.notices
      (new_notice store.next_notice_id profile_id run_id t reason),
  pending_count-none profile_id store.notices e,
  single id,
)

insert_event-notices :
    (store : Store) (event : _) {after : Store}
    → insert_scheduler_event_in_transaction store event ≡ ok after
    → after.notices ≡ store.notices
insert_event-notices store event h = ground arith

pub with_missed_event-notices :
    (profile_id run_id : ℕ) (now : ℤ) (store : Store) (id : ℕ) {after : Store × ℕ}
    → with_missed_event profile_id run_id now (store, id) ≡ ok after
    → after.0.notices ≡ store.notices
with_missed_event-notices profile_id run_id now store id {after} h =
    elim (Bool-cases (any (is_missed_event run_id) store.events)) [
      | inl e ↦
          ap (λ (p : Store × ℕ). p.0.notices) (sym (ok-injective {a = (store, id)} (rw e at h)))
      | inr e ↦
          let (written, e1, h1) =
            bind_ok
              (insert_scheduler_event_in_transaction store (missed_event profile_id run_id now id))
              _ (rw e at h) in
          ap (λ (p : Store × ℕ). p.0.notices) (sym (ok-injective h1))
          ∙ insert_event-notices store (missed_event profile_id run_id now id) e1
    ]
