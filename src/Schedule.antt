-- ===== src/Schedule.antt =====
-- The recurring schedule of a profile (storage.rs): its definition and checks, and the occurrences
-- that a claim computes. Times are seconds since the Unix epoch, in the arithmetic of `i64`.
pub mod Next
pub mod Due
use sync_plus.Base.{
  ℕ, ◌*◌, Bool, true, false, ◌&&◌, ◌||◌, not, Option, none, some, Text, if◌then◌else◌, ◌==◌, leb,
  ltb, length, is_some, is_some_and, is_none, Result, ok, err, ◌>>=◌, require,
}
use sync_plus.Base.Int.{ℤ, pos, negsuc}
use sync_plus.Base.Int64.{checked_add, checked_sub, checked_mul, checked_div, is_negative, int_le}
use sync_plus.Base.Strings.{is_blank, contains_nul}

pub record ScheduleDefinition : Type 0 where
  pub interval_minutes : ℕ
  pub timezone : Text
  pub enabled : Bool
  pub next_run_at_unix_seconds : Option ℤ

-- The reasons of `StorageError::InvalidSchedule`.
pub data InvalidSchedule : Type 0 where
  interval_between timezone_nonempty next_run_nonnegative disabled_with_next_run : InvalidSchedule
  interval_out_of_range schedule_time_out_of_range next_run_out_of_range : InvalidSchedule
  current_time_nonnegative deletion_method_needed : InvalidSchedule

-- `ScheduleDefinition::validate`: the first check that fails.
unfoldable pub schedule_error : ScheduleDefinition → Option InvalidSchedule
schedule_error s =
    if not (leb 1 s.interval_minutes && leb s.interval_minutes 10_080)
    then some interval_between
    else if is_blank s.timezone || ltb 128 (length s.timezone) || contains_nul s.timezone
    then some timezone_nonempty
    else if is_some_and s.next_run_at_unix_seconds is_negative
    then some next_run_nonnegative
    else if not s.enabled && is_some s.next_run_at_unix_seconds
    then some disabled_with_next_run
    else none

-- `ScheduleDefinition::new_with_next_run_at`.
unfoldable pub new_with_next_run_at :
    ℕ → Text → Bool → Option ℤ → Result InvalidSchedule ScheduleDefinition
unfolding schedule_error
new_with_next_run_at interval_minutes timezone enabled next_run =
    let schedule : ScheduleDefinition = record {
      interval_minutes = interval_minutes;
      timezone = timezone;
      enabled = enabled;
      next_run_at_unix_seconds = next_run;
    } in
    elim (schedule_error schedule) [ none ↦ ok schedule | some e ↦ err e ]

-- `ScheduleDefinition::with_enabled`.
abbrev pub with_enabled : ScheduleDefinition → Bool → ScheduleDefinition
with_enabled s enabled = record s {
  enabled = enabled;
  next_run_at_unix_seconds = if enabled then s.next_run_at_unix_seconds else none;
}

abbrev pub with_next_run_at : ScheduleDefinition → Option ℤ → ScheduleDefinition
with_next_run_at s next_run = record s { next_run_at_unix_seconds = next_run }

-- `ok_or_else`.
abbrev pub ok_or {ℓ κ} : {E : Type ℓ} {A : Type κ} → E → Option A → Result E A
ok_or e none = err e
ok_or e (some a) = ok a

abbrev pub interval_seconds : ScheduleDefinition → Result InvalidSchedule ℤ
interval_seconds s = ok_or interval_out_of_range (checked_mul (pos s.interval_minutes) (pos 60))

-- A schedule that is enabled without a next run gets one, an interval from now.
unfoldable pub with_first_run : ScheduleDefinition → ℤ → Result InvalidSchedule ScheduleDefinition
with_first_run s now = do
  interval ← interval_seconds s
  next ← ok_or next_run_out_of_range (checked_add now interval)
  ok (with_next_run_at s (some next))

unfoldable pub started : ScheduleDefinition → ℤ → Result InvalidSchedule ScheduleDefinition
unfolding with_first_run
started s now =
    let first = with_first_run s now in
    if s.enabled && is_none s.next_run_at_unix_seconds then first else ok s

-- The occurrence that a claim takes, if one is due.
abbrev pub due_at : ScheduleDefinition → ℤ → Option ℤ
due_at s now = elim s.next_run_at_unix_seconds [
  | none ↦ none
  | some scheduled_at ↦
      if not s.enabled || not (int_le scheduled_at now) then none else some scheduled_at
]

-- The occurrence after the claimed one: the occurrences missed until now are skipped.
unfoldable pub next_occurrence : ScheduleDefinition → ℤ → ℤ → Result InvalidSchedule ℤ
next_occurrence s scheduled_at now = do
  interval ← interval_seconds s
  elapsed ← ok_or schedule_time_out_of_range (checked_sub now scheduled_at)
  passed ← ok_or next_run_out_of_range (checked_div elapsed interval)
  occurrences ← ok_or next_run_out_of_range (checked_add passed (pos 1))
  step ← ok_or next_run_out_of_range (checked_mul interval occurrences)
  ok_or next_run_out_of_range (checked_add scheduled_at step)
