-- ===== src/Examples/Stored.antt =====
-- Profiles in the tables, and in the columns of a row.
use sync_plus.Base.{
  ℕ, Bool, true, false, ◌≡◌, ◌<◌, refl, Option, none, some, List, [], ◌∷◌, map, Text, ok, arith,
  nat_eq, text_eq, option_eq, contains, All, ◌⊎◌, is_some, err,
}
use sync_plus.Base.Order.{nat_ord}
use sync_plus.Base.Strings.{codes}
use sync_plus.Model.{mode_eq}
use sync_plus.Profile.{SyncProfile, no_authorizations}
use sync_plus.Process.Specification.{from_profile}
use sync_plus.Base.Tree.{map_get}
use sync_plus.Storage.Consistent.{IsStorable}
use sync_plus.Storage.Checks.{constraint_violation}
use sync_plus.Storage.{load_profile}
use sync_plus.Storage.Profiles.{create_profile_with_authorizations}
use sync_plus.Storage.Consistent.Reachable.{start, created, load_profile-IsReachable}
use sync_plus.Storage.Checks.{validate_profile}
use sync_plus.Profile.{ssh_peer_error}
use sync_plus.Storage.Encoding.{into_profile, row_of}
use sync_plus.Storage.Encoding.Restored.{into_profile-row_of}
use sync_plus.Storage.{Store, PersistedSyncProfile}
use sync_plus.Storage.{new_store}
use sync_plus.Examples.Tables.{server, copying, plain_options, no_folders}

abbrev one_profile : Store
one_profile =
    (create_profile_with_authorizations no_folders none copying no_authorizations new_store).0

abbrev delayed : SyncProfile
delayed = record copying {
  options = record plain_options {
    retry_policy = record { max_attempts = 3; initial_delay = 100_000_000 };
    bandwidth_limit_kib_per_second = some 500;
  };
}

abbrev is_text : Text → Bool
is_text path = true

accepted : validate_profile no_folders delayed ≡ ok tt
unfolding validate_profile sync_plus.Base.Strings.is_blank nat_eq from_profile mode_eq
accepted = refl

made_server : ssh_peer_error server ≡ none
unfolding ssh_peer_error nat_eq
made_server = refl

copying-IsStorable : IsStorable copying
copying-IsStorable = record {
  made_a = tt;
  made_b = (made_server, omega arith, tt, refl);
  millis = 0;
  whole = refl;
}

load_profile-IsReachable_example :
    (found : Option PersistedSyncProfile) × (load_profile no_folders one_profile 1 ≡ ok found)
    × (is_some found ≡ is_some (map_get 1 one_profile.profiles))
load_profile-IsReachable_example =
    load_profile-IsReachable no_folders none one_profile
      (created start copying no_authorizations copying-IsStorable) 1 (omega arith)

-- A repeated exclusion is refused by the table.
refused_repetition :
    (create_profile_with_authorizations no_folders none
      (record copying { exclusions = codes "a" ∷ codes "a" ∷ [] })
      no_authorizations
      new_store).1
    ≡ err constraint_violation
unfolding create_profile_with_authorizations sync_plus.Base.Strings.is_blank nat_eq from_profile
    mode_eq text_eq
refused_repetition = refl

into_profile-row_of_example :
    into_profile no_folders is_text (row_of delayed) delayed.exclusions ≡ ok delayed
into_profile-row_of_example =
    into_profile-row_of no_folders is_text delayed 100 accepted tt
      (made_server, omega arith, tt, refl) refl
