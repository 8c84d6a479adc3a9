-- ===== src/Schedule/Due.antt =====
-- What a claim takes: a due occurrence comes no later than now, and the next comes after now.
use sync_plus.Base.{
  ℕ, ◌+◌, ◌*◌, ◌-◌, ◌/◌, ◌^◌, ◌≤◌, ◌<◌, true, false, none, some, ok, ◌≡◌, refl, arith, Option-cases,
  inl, inr,
}
use sync_plus.Base.Int.{ℤ, pos, negsuc}
use sync_plus.Base.Int64.{int_le, is_negative, int_lt, int_lt-pos}
use sync_plus.Schedule.{ScheduleDefinition, schedule_error, due_at, next_occurrence}
use sync_plus.Schedule.Next.{
  next_time, next_time-after, next_time-le, next_occurrence-pos, next_occurrence-exact,
}

interval_positive : (s : ScheduleDefinition) → schedule_error s ≡ none → 0 < s.interval_minutes
unfolding schedule_error
interval_positive s h = ground (arith, h)

nonnegative :
    (s : ScheduleDefinition) {t : ℤ}
    → schedule_error s ≡ none
    → s.next_run_at_unix_seconds ≡ some t
    → is_negative t ≡ false
unfolding schedule_error
nonnegative s {t} h e = ground (arith, h, e)

due_at_ok :
    (s : ScheduleDefinition) (now : ℤ) {t : ℤ}
    → due_at s now ≡ some t
    → (s.next_run_at_unix_seconds ≡ some t) × (int_le t now ≡ true) × (s.enabled ≡ true)
due_at_ok s now {t} h = elim (Option-cases s.next_run_at_unix_seconds) [
  | inl e ↦ ground (arith, e)
  | inr (x, e) ↦ ground (arith, e)
]

-- The occurrence after a claimed one is later than it and than the time of the claim, and nonnegative.
pub next_occurrence-after :
    (s : ScheduleDefinition) (t now next : ℤ)
    → schedule_error s ≡ none
    → due_at s now ≡ some t
    → next_occurrence s t now ≡ ok next
    → (int_lt t next ≡ true) × (int_lt now next ≡ true) × (is_negative next ≡ false)
next_occurrence-after s (pos a) (pos b) next valid due h =
    let (_, le, _) = due_at_ok s (pos b) due in
    let a_le : a ≤ b = ground (arith, le) in
    let positive = interval_positive s valid in
    let exact = next_occurrence-exact s a b a_le h in
    let after : b < next_time (s.interval_minutes * 60) a b =
      next_time-after (s.interval_minutes * 60) a b (omega (arith, positive)) a_le in
    let a_lt : a < next_time (s.interval_minutes * 60) a b = omega (arith, after, a_le) in
    rw exact (int_lt-pos a _ a_lt, int_lt-pos b _ after, refl)
next_occurrence-after s (pos a) (negsuc b) next valid due h =
    let (_, le, _) = due_at_ok s (negsuc b) due in ground (arith, le)
next_occurrence-after s (negsuc a) now next valid due h =
    let (e, _, _) = due_at_ok s now due in let n = nonnegative s valid e in ground (arith, n)

-- A valid schedule whose next occurrence at time `a` is due at time `b` always has a next one, if
-- `b` and an interval fit in `i64`: it is a whole number of intervals after `a`, after `b`, and at most an
-- interval after `b`. So it is the first of the schedule's times that is still to come.
pub next_occurrence_ok :
    (s : ScheduleDefinition) (a b : ℕ)
    → schedule_error s ≡ none
    → a ≤ b
    → b + s.interval_minutes * 60 < 2 ^ 63
    → (n : ℕ) × (occurrences : ℕ) × (next_occurrence s (pos a) (pos b) ≡ ok (pos n))
      × (n ≡ a + s.interval_minutes * 60 * occurrences)
      × (b < n)
      × (n ≤ b + s.interval_minutes * 60)
next_occurrence_ok s a b valid due fits =
    let positive = interval_positive s valid in
    let interval = s.interval_minutes * 60 in
    (
      next_time interval a b,
      ((b - a) / interval + 1),
      next_occurrence-pos s a b positive due fits,
      refl,
      next_time-after interval a b (omega (arith, positive)) due,
      next_time-le interval a b (omega (arith, positive)) due,
    )
