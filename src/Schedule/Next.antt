-- ===== src/Schedule/Next.antt =====
-- Which occurrence comes after a claim: the first of the schedule's times that is still to come.
use native.Mathlib.Nat.{div-add-mod, mod-lt, div-le_self}
use sync_plus.Base.{
  ◌%◌, ℕ, ◌+◌, ◌-◌, ◌*◌, ◌/◌, ◌^◌, ◌≤◌, ◌<◌, some, none, ok, ◌>>=◌, ◌≡◌, refl, arith, Result,
  ok-injective, ap, sym, ◌∙◌, Option,
}
use sync_plus.Base.Int.{ℤ, pos}
use sync_plus.Base.Int64.{
  checked_add-pos, checked_sub-pos, checked_mul-pos, checked_div-pos, checked_add-exact,
  checked_sub-exact, checked_mul-exact, checked_div-exact,
}
use sync_plus.Schedule.{ScheduleDefinition, InvalidSchedule, next_occurrence, ok_or}

-- The time reached after the occurrences until `now` are passed.
abbrev pub next_time : ℕ → ℕ → ℕ → ℕ
next_time interval scheduled_at now =
    scheduled_at + interval * ((now - scheduled_at) / interval + 1)

module _ (interval scheduled_at now : ℕ) (positive : 0 < interval) (due : scheduled_at ≤ now) where
  elapsed : ℕ
  elapsed = now - scheduled_at

  whole : interval * (elapsed / interval) + elapsed % interval ≡ elapsed
  whole = div-add-mod elapsed interval

  small : elapsed % interval < interval
  small = mod-lt elapsed positive

  step : interval * (elapsed / interval + 1) ≡ interval * (elapsed / interval) + interval
  step = omega arith

  pub next_time-after : now < next_time interval scheduled_at now
  unfolding elapsed
  next_time-after = omega (arith, whole, small, step)

  pub next_time-le : next_time interval scheduled_at now ≤ now + interval
  unfolding elapsed
  next_time-le = omega (arith, whole, small, step)

-- The computation in `i64` has this result unless it leaves the range.
pub next_occurrence-pos :
    (s : ScheduleDefinition) (scheduled_at now : ℕ)
    → 0 < s.interval_minutes
    → scheduled_at ≤ now
    → now + s.interval_minutes * 60 < 2 ^ 63
    → next_occurrence s (pos scheduled_at) (pos now)
      ≡ ok (pos (next_time (s.interval_minutes * 60) scheduled_at now))
unfolding next_occurrence
next_occurrence-pos s scheduled_at now positive due fits =
    rw
      (
        checked_mul-pos s.interval_minutes 60 (omega arith),
        checked_sub-pos now scheduled_at due (omega arith),
        checked_div-pos (now - scheduled_at) (s.interval_minutes * 60) (omega arith) (omega arith),
        checked_add-pos ((now - scheduled_at) / (s.interval_minutes * 60)) 1
            (omega (arith, div-le_self (now - scheduled_at) (s.interval_minutes * 60))),
        checked_mul-pos (s.interval_minutes * 60)
            ((now - scheduled_at) / (s.interval_minutes * 60) + 1) (omega (arith, bound)),
        checked_add-pos scheduled_at
            (s.interval_minutes * 60 * ((now - scheduled_at) / (s.interval_minutes * 60) + 1))
            (omega (arith, bound)),
      )
      refl
  where
    bound : next_time (s.interval_minutes * 60) scheduled_at now ≤ now + s.interval_minutes * 60
    bound = next_time-le (s.interval_minutes * 60) scheduled_at now (omega arith) due

ok_or_ok : (e : InvalidSchedule) (o : Option ℤ) {v : ℤ} → ok_or e o ≡ ok v → o ≡ some v
ok_or_ok e none h = cc
ok_or_ok e (some a) h = ap some (ok-injective h)

-- A step whose result is exact goes on with that result.
step_exact :
    (e : InvalidSchedule) (o : Option ℤ) (f : ℤ → Result InvalidSchedule ℤ) (x : ℤ) {b : ℤ}
    → ((y : ℤ) → o ≡ some y → y ≡ x)
    → (ok_or e o >>= f) ≡ ok b
    → f x ≡ ok b
step_exact e none f x exact h = cc
step_exact e (some y) f x exact h = ap f (sym (exact y refl)) ∙ h

-- Where the computation succeeds, the result is exact.
pub next_occurrence-exact :
    (s : ScheduleDefinition) (scheduled_at now : ℕ) {next : ℤ}
    → scheduled_at ≤ now
    → next_occurrence s (pos scheduled_at) (pos now) ≡ ok next
    → next ≡ pos (next_time (s.interval_minutes * 60) scheduled_at now)
unfolding next_occurrence
next_occurrence-exact s scheduled_at now {next} due h0 =
    let interval = s.interval_minutes * 60 in
    let passed = (now - scheduled_at) / interval in
    let h1 = step_exact _ _ _ (pos interval) (λ y. checked_mul-exact s.interval_minutes 60) h0 in
    let h2 =
      step_exact _ _ _ (pos (now - scheduled_at)) (λ y. checked_sub-exact now scheduled_at due)
        h1 in
    let h3 =
      step_exact _ _ _ (pos passed) (λ y. checked_div-exact (now - scheduled_at) interval) h2 in
    let h4 = step_exact _ _ _ (pos (passed + 1)) (λ y. checked_add-exact passed 1) h3 in
    let h5 =
      step_exact _ _ _ (pos (interval * (passed + 1)))
        (λ y. checked_mul-exact interval (passed + 1)) h4 in
    checked_add-exact scheduled_at (interval * (passed + 1)) (ok_or_ok _ _ h5)
