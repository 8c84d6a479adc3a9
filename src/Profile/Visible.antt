-- ===== src/Profile/Visible.antt =====
-- The bounds of `RetryPolicy`, and the options that Simple Mode hides (model.rs).
use sync_plus.Base.{
  ℕ, ◌-◌, ◌*◌, ◌^◌, Bool, false, ◌||◌, not, Option, none, some, Text, ◌==◌, ◌/=◌, leb,
  if◌then◌else◌, is_some, nat_eq, option_eq,
}
use sync_plus.Base.Strings.{codes}
use sync_plus.Model.{RetryPolicy, permanent_removal, cleanup, method_eq, policy_eq, retry_eq}
use sync_plus.Profile.{SyncProfile, Peer, ssh_peer}

-- The longest `Duration`, in nanoseconds.
abbrev pub max_duration : ℕ
max_duration = 2 ^ 64 * 1_000_000_000 - 1

abbrev pub max_attempts : ℕ
max_attempts = 10

-- An hour.
abbrev pub max_initial_delay : ℕ
max_initial_delay = 3_600_000_000_000

-- `RetryPolicy::delay_for_retry`: `checked_mul`, or the longest duration.
unfoldable pub delay_for_retry : RetryPolicy → ℕ → ℕ
delay_for_retry policy retry_number =
    let delay = policy.initial_delay * retry_number in
    if leb delay max_duration then delay else max_duration

-- `RetryPolicy::default`: three attempts, 100 ms.
abbrev pub default_retry_policy : RetryPolicy
default_retry_policy = record { max_attempts = 3; initial_delay = 100_000_000 }

abbrev custom_port : Peer → Bool
custom_port peer = elim (ssh_peer peer) [ none ↦ false | some s ↦ s.port /= 22 ]

-- The first configured option that Simple Mode hides.
unfoldable pub advanced_mode_requirement : SyncProfile → Option Text
advanced_mode_requirement profile =
    let o = profile.options in
    if o.deletion_method == some permanent_removal
    then some (codes "Permanent Removal")
    else if o.destination_cleanup
    then some (codes "Destination Cleanup")
    else if not o.metadata.executable_permissions
    then some (codes "executable-permission comparison")
    else if o.metadata.timestamps
    then some (codes "timestamp preservation")
    else if o.metadata.specialist.ownership
    then some (codes "ownership preservation")
    else if o.metadata.specialist.access_control_lists
    then some (codes "access-control-list preservation")
    else if o.metadata.specialist.extended_attributes
    then some (codes "extended-attribute preservation")
    else if o.partial_transfer_policy /= cleanup
    then some (codes "keeping partial transfers for resume")
    else if o.retry_policy /= default_retry_policy
    then some (codes "custom retry policy")
    else if is_some o.bandwidth_limit_kib_per_second
    then some (codes "bandwidth limiting")
    else if custom_port profile.peer_a || custom_port profile.peer_b
    then some (codes "custom SSH port")
    else none
