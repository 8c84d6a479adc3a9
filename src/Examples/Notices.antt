-- ===== src/Examples/Notices.antt =====
-- Two missed occurrences of one profile, and a choice.
use sync_plus.Base.{
  ◌≡◌, ◌≤◌, ◌==◌, false, arith, refl, Option, none, some, List, [], ◌∷◌, nat_eq, text_eq,
}
use sync_plus.Base.Int.{pos}
use sync_plus.Base.Strings.{codes}
use sync_plus.Storage.Checks.{pending, not_now, run_now}
use sync_plus.Storage.{new_store}
use sync_plus.Storage.Missed.{decision_eq}
use sync_plus.Storage.Missed.Count.{pending_count}
use sync_plus.Storage.Missed.Pending.{
  NoticeChange, missed_occurrence, choice, apply_changes, apply_changes-pending_count,
  apply_changes-decision_of, decision_of,
}

abbrev changes : List NoticeChange
changes =
    missed_occurrence 1 1 (pos 100) (codes "offline") (pos 101)
    ∷ missed_occurrence 1 2 (pos 200) (codes "offline") (pos 201)
    ∷ choice 1 not_now
    ∷ choice 1 run_now
    ∷ []

apply_changes-pending_count_example : pending_count 1 (apply_changes changes new_store).notices ≤ 1
apply_changes-pending_count_example = apply_changes-pending_count changes 1

chosen : decision_of 1 (apply_changes changes new_store).notices ≡ some not_now
unfolding sync_plus.Storage.Missed.mark_missed_schedule_decision
    sync_plus.Storage.Missed.record_missed_schedule sync_plus.Base.Strings.is_blank nat_eq
    sync_plus.Storage.Missed.decision_eq
chosen = refl

apply_changes-decision_of_example :
    decision_of 1 (apply_changes (choice 1 run_now ∷ []) (apply_changes changes new_store)).notices
    ≡ some not_now
apply_changes-decision_of_example =
    apply_changes-decision_of (choice 1 run_now ∷ []) (apply_changes changes new_store) 1 not_now
      settled chosen
  where
    settled : (not_now == pending) ≡ false
    settled = ground arith
