-- ===== src/Storage/Consistent/Claimed.antt =====
-- The transaction of a claim (`claim_due_schedule` of storage.rs) keeps the tables consistent.
use sync_plus.Base.{
  ℕ, ◌<◌, Bool, true, false, Option, none, some, Text, nat_eq, bool_eq, ◌==◌, if◌then◌else◌,
  Bool-cases, ◌≡◌, refl, arith, inl, inr, ap, ◌∙◌, subst,
}
use mathlib.Core.Option.{some-injective}
use sync_plus.Base.Int.{ℤ}
use sync_plus.Base.Int64.{is_negative}
use sync_plus.Base.Order.{nat_ord}
use sync_plus.Base.Tree.{map_get, map_get-map_insert}
use sync_plus.Schedule.{ScheduleDefinition, schedule_error, with_next_run_at}
use sync_plus.Storage.{Store, ProfileRow}
use sync_plus.Storage.Claim.{ClaimedScheduledRun, Draft, claim, is_still_due, advance_schedule}
use sync_plus.Storage.Claim.Effect.{IsEffect, claim-IsEffect}
use sync_plus.Storage.Claim.Once.{IsDrafted, IsDrafted-after}
use sync_plus.Storage.Consistent.{IsEntry, IsConsistent}
use sync_plus.Storage.Consistent.Kept.{replaced-IsConsistent, below}

-- The schedule after its occurrence is claimed is valid.
schedule_error-moved :
    (s : ScheduleDefinition) (next : ℤ)
    → s.enabled ≡ true
    → is_negative next ≡ false
    → schedule_error s ≡ none
    → schedule_error (with_next_run_at s (some next)) ≡ none
unfolding schedule_error
schedule_error-moved s next enabled nonnegative valid = ground (arith, valid, nonnegative, enabled)

still_enabled : (s : ScheduleDefinition) (t : ℤ) → is_still_due (some s) t ≡ true → s.enabled ≡ true
still_enabled s t due = ground (arith, due)

module _ (is_dir : Text → Bool) where
  moved-IsEntry :
      (row : Option ProfileRow) (s : ScheduleDefinition) (next : ℤ)
      → s.enabled ≡ true
      → is_negative next ≡ false
      → IsEntry is_dir row (some s)
      → IsEntry is_dir row (some (with_next_run_at s (some next)))
  moved-IsEntry none s next enabled nonnegative entry = entry
  moved-IsEntry (some row) s next enabled nonnegative v = record {
    profile = v.profile;
    decoded = v.decoded;
    authorizations = v.authorizations;
    enabled = v.enabled;
    schedule_valid = λ t e.
        subst (λ t. schedule_error t ≡ none) (some-injective _ t e)
          (schedule_error-moved s next enabled nonnegative (v.schedule_valid s refl));
  }

  -- A profile with a schedule is there.
  scheduled_below :
      (store : Store) (id : ℕ) (row : Option ProfileRow) (s : ScheduleDefinition)
      → IsConsistent is_dir store
      → map_get id store.profiles ≡ row
      → IsEntry is_dir row (some s)
      → id < store.next_profile_id
  scheduled_below store id none s c e entry = elim entry [ ]
  scheduled_below store id (some row) s c e entry = below is_dir store id c e

  advanced-IsConsistent :
      (store after : Store) (id : ℕ) (schedule : Option ScheduleDefinition) (t next : ℤ)
      → IsConsistent is_dir store
      → is_negative next ≡ false
      → is_still_due schedule t ≡ true
      → map_get id store.schedules ≡ schedule
      → after.schedules ≡ advance_schedule store.schedules id schedule next
      → after.profiles ≡ store.profiles
      → after.next_profile_id ≡ store.next_profile_id
      → IsConsistent is_dir after
  advanced-IsConsistent store after id none t next c nonnegative due found moved profiles number =
      ground (arith, due)
  advanced-IsConsistent store after id (some s) t next c nonnegative due found moved profiles
        number =
      let row = map_get id store.profiles in
      let entry = subst (IsEntry is_dir row) found (c.entries id) in
      let small = scheduled_below store id row s c refl entry in
      replaced-IsConsistent is_dir store after id row (some (with_next_run_at s (some next))) c
        (λ j. ap (map_get j) profiles ∙ kept_row j)
        (λ j. ap (map_get j) moved ∙ map_get-map_insert id j _ store.schedules)
        (moved-IsEntry row s next (still_enabled s t due) nonnegative entry) (omega (arith, number))
        (inr (omega (arith, number, small)))
    where
      kept_row :
          (j : ℕ)
          → map_get j store.profiles
            ≡ (if id == j then map_get id store.profiles else map_get j store.profiles)
      kept_row j = elim (Bool-cases (id == j)) [
        | inl e ↦ ground (arith, e)
        | inr e ↦ ground (arith, e)
      ]

  effect-IsConsistent :
      (d : Draft) (store after : Store) (claimed : Option ClaimedScheduledRun)
      → IsConsistent is_dir store
      → is_negative d.next_run ≡ false
      → IsEffect d store after claimed
      → IsConsistent is_dir after
  unfolding IsEffect
  effect-IsConsistent d store after none c nonnegative quiet = record {
    entries = λ id. rw (quiet.schedules, quiet.profiles.0) (c.entries id);
    bounded = λ id h. rw quiet.profiles.0 (c.bounded id (omega (arith, h, quiet.profiles.1)));
  }
  effect-IsConsistent d store after (some run) c nonnegative claimed =
      advanced-IsConsistent store after d.existing.id (map_get d.existing.id store.schedules)
        d.scheduled_at d.next_run c nonnegative claimed.was_due refl claimed.moved
        claimed.profiles.0 claimed.profiles.1

  pub claim-IsConsistent :
      (d : Draft) (now created_at : ℤ) (store : Store)
      → IsDrafted is_dir d
      → IsConsistent is_dir store
      → IsConsistent is_dir (claim is_dir d now created_at store).0
  claim-IsConsistent d now created_at store drafted c =
      effect-IsConsistent d store _ _ c (IsDrafted-after is_dir d drafted).1
        (claim-IsEffect is_dir d now created_at store)
