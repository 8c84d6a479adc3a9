-- ===== src/Examples/Tables.antt =====
-- A profile with a schedule, its command, and two pollers that both see it due.
use sync_plus.Base.{
  ℕ, Bool, true, false, ◌≡◌, ◌<◌, refl, Option, none, some, List, [], ◌∷◌, map, Text, ok, arith,
  nat_eq, text_eq, option_eq, contains, All, ◌⊎◌, is_some, err,
}
use sync_plus.Base.Int.{ℤ, pos}
use sync_plus.Base.Order.{nat_ord}
use sync_plus.Base.Strings.{codes}
use sync_plus.Model.{
  SyncMode, one_way, mode_eq, SyncOptions, peer_a, peer_b, default_metadata, copy_to_destination,
  overwrite_destination,
}
use sync_plus.Profile.{SshPeer, agent, local_root, ssh_endpoint, SyncProfile, no_authorizations}
use sync_plus.Examples.Data.{safe_options}
use sync_plus.Process.Specification.{ProcessSpecification, from_profile}
use sync_plus.Process.Invocation.{
  ProcessInvocation, invocation, TransferAction, to_os_string, ssh_item_invocation_to,
}
use sync_plus.Process.{
  flag, archive, itemize_changes, protect_args, end_of_options, ssh_transport, peer_path,
  remote_peer_path,
}
use sync_plus.Process.Specification.{peer_argument}
use sync_plus.Profile.{selected_source, selected_destination, ssh_peer}
use sync_plus.Parser.Bytes.{is_utf8}
use sync_plus.Process.Invocation.Guarded.{options_of, operands_of}
use sync_plus.Process.Invocation.Commands.{target_argument, IsLongOption, invocation-IsGuarded}
use sync_plus.Process.Invocation.Items.{
  source_operand, other_operand, IsNames, ssh_item_invocation_to-IsHarmless,
}
use sync_plus.Process.Shell.{
  to_string_lossy, plain, shell_word, encode_remote_shell_word, shell_word-encode_remote_shell_word,
}
use sync_plus.Storage.Claim.Once.{IsDrafted, IsIncreasing, claims-IsIncreasing}
use sync_plus.Storage.Claim.{highest_existing}
use sync_plus.Storage.Claim.Numbers.{IsNumberedFrom, claims-IsNumberedFrom}
use sync_plus.Storage.Encoding.{into_profile, row_of}
use sync_plus.Schedule.{ScheduleDefinition}
use sync_plus.Storage.{Store}
use sync_plus.Storage.Claim.{Draft, draft}
use sync_plus.Storage.Claim.Once.{Attempt, claims, claimed_times}
use sync_plus.Storage.{new_store}

abbrev pub no_folders : Text → Bool
no_folders path = false

abbrev pub plain_options : SyncOptions
plain_options = record safe_options { safe_delete = false; deletion_method = none }

abbrev pub server : SshPeer
server = record {
  server = codes "h";
  username = codes "u";
  port = 22;
  identity = none;
  authentication = agent;
  remote_path = codes "/b";
}

abbrev pub copying : SyncProfile
copying = record {
  name = codes "copy";
  peer_a = record { name = codes "a"; endpoint = local_root (codes "/a") };
  peer_b = record { name = codes "b"; endpoint = ssh_endpoint server };
  mode = one_way;
  source = peer_a;
  options = plain_options;
  exclusions = [];
}

abbrev hourly : ScheduleDefinition
hourly = record {
  interval_minutes = 60;
  timezone = codes "UTC";
  enabled = true;
  next_run_at_unix_seconds = some (pos 1000);
}

abbrev pub scheduled : Store
scheduled = record new_store {
  next_profile_id = 2;
  profiles =
      (
        1,
        record {
          columns = row_of copying;
          exclusions = [];
          schedule_enabled = true;
          authorizations = no_authorizations;
          profile_revision = 0;
        },
      )
      ∷ [];
  schedules = (1, hourly) ∷ [];
}

abbrev specification : ProcessSpecification
specification = record {
  arguments =
      flag archive
      ∷ flag itemize_changes
      ∷ flag protect_args
      ∷ ssh_transport (record { port = 22; identity = none; authentication = agent })
      ∷ flag end_of_options
      ∷ peer_path (codes "/a")
      ∷ remote_peer_path
          (record { username = codes "u"; server = codes "h"; remote_path = codes "/b" })
      ∷ [];
  options = plain_options;
  source = peer_a;
  source_root = codes "/a";
  destination_root = codes "/b";
  secret_bindings = [];
  mode = one_way;
  peer_a_root = codes "/a";
  peer_b_root = codes "/b";
  transport = some (record { port = 22; identity = none; authentication = agent });
  peer_a_ssh = none;
  peer_b_ssh = some server;
}

specified : from_profile no_folders copying ≡ ok specification
unfolding from_profile mode_eq nat_eq mathlib.Core.Option.or_else sync_plus.Model.side_eq
specified = refl

abbrev command : ProcessInvocation
command = record {
  program = codes "rsync";
  arguments = map to_os_string specification.arguments;
  secret_bindings = [];
}

run : invocation specification ≡ ok command
unfolding invocation mode_eq
run = refl

abbrev copy_report : TransferAction
copy_report = record { kind = copy_to_destination; source_side = peer_a; relative_path = codes "r" }

abbrev copy_command : ProcessInvocation
copy_command = record {
  program = codes "rsync";
  arguments = map to_os_string (
      flag archive
      ∷ flag itemize_changes
      ∷ flag protect_args
      ∷ ssh_transport (record { port = 22; identity = none; authentication = agent })
      ∷ flag end_of_options
      ∷ peer_path (codes "/a/r")
      ∷ remote_peer_path
          (record { username = codes "u"; server = codes "h"; remote_path = codes "/b/.t" })
      ∷ []);
  secret_bindings = [];
}

copied : ssh_item_invocation_to specification copy_report (codes "/b/.t") ≡ ok copy_command
unfolding ssh_item_invocation_to nat_eq sync_plus.Path.Parse.parse_components text_eq
    sync_plus.Path.Parse.join
copied = refl

-- Both pollers read the profile before either claims its occurrence.
abbrev read : Draft
read = record {
  existing = record {
    id = 1;
    profile = copying;
    schedule_enabled = true;
    schedule = some hourly;
    revision = 0;
    authorizations = no_authorizations;
  };
  scheduled_at = pos 1000;
  next_run = pos 4600;
}

drafted : draft no_folders scheduled 1 (pos 1200) ≡ ok (some read)
unfolding draft nat_eq sync_plus.Schedule.new_with_next_run_at sync_plus.Base.Strings.is_blank
    sync_plus.Base.bool_eq from_profile mode_eq row_of into_profile text_eq
    sync_plus.Base.Int.int_eq
drafted = refl

abbrev attempt : Attempt
attempt = record { drafted = read; now = pos 1200; created_at = pos 1201 }

claimed_once :
    claimed_times no_folders 1 (claims no_folders (attempt ∷ attempt ∷ []) scheduled)
    ≡ pos 1000 ∷ []
unfolding claims nat_eq mode_eq option_eq sync_plus.Base.Int.int_eq nat_ord row_of into_profile
    text_eq
claimed_once = refl

invocation-IsGuarded_example :
    (operands_of command.arguments
      ≡ to_os_string (peer_argument (selected_source copying))
        ∷ to_os_string (
            target_argument
              (ssh_peer (selected_destination copying))
              specification.destination_root)
        ∷ [])
    × (contains (options_of command.arguments) (codes "--delete")
        ≡ copying.options.destination_cleanup)
    × All IsLongOption (options_of command.arguments)
    × (copying.mode ≡ one_way)
invocation-IsGuarded_example =
    invocation-IsGuarded no_folders copying {spec = specification} {call = command} specified run

ssh_item_invocation_to-IsHarmless_example :
    (operands_of copy_command.arguments
      ≡ to_os_string (source_operand specification peer_a (codes "r"))
        ∷ to_os_string (other_operand specification peer_a (codes "/b/.t"))
        ∷ [])
    × (contains (options_of copy_command.arguments) (codes "--delete") ≡ false)
    × All IsLongOption (options_of copy_command.arguments)
    × ((copy_report.kind ≡ copy_to_destination) ⊎ (copy_report.kind ≡ overwrite_destination))
    × IsNames (codes "r")
ssh_item_invocation_to-IsHarmless_example =
    ssh_item_invocation_to-IsHarmless specification copy_report (codes "/b/.t")
      {call = copy_command} copied

quoted_name : is_utf8 (codes "it's") ≡ true
unfolding nat_eq
quoted_name = refl

-- A byte that is not UTF-8 is replaced before the path is quoted.
replaced_byte : to_string_lossy (b'a' ∷ 0xFF ∷ []) ≡ b'a' ∷ 0xEF ∷ 0xBF ∷ 0xBD ∷ []
unfolding to_string_lossy nat_eq
replaced_byte = refl

shell_word-encode_remote_shell_word_example :
    shell_word plain (encode_remote_shell_word (codes "it's")) ≡ some (codes "it's")
shell_word-encode_remote_shell_word_example =
    shell_word-encode_remote_shell_word (codes "it's") quoted_name

abbrev reading : IsDrafted no_folders read
reading = record { store = scheduled; id = 1; now = pos 1200; read = drafted }

claims-IsIncreasing_example :
    IsIncreasing (claimed_times no_folders 1 (claims no_folders (attempt ∷ attempt ∷ []) scheduled))
claims-IsIncreasing_example =
    claims-IsIncreasing no_folders (attempt ∷ attempt ∷ []) (reading, (reading, tt)) scheduled 1

claims-IsNumberedFrom_example :
    IsNumberedFrom
      (highest_existing scheduled.snapshots)
      (claims no_folders (attempt ∷ attempt ∷ []) scheduled)
claims-IsNumberedFrom_example = claims-IsNumberedFrom no_folders (attempt ∷ attempt ∷ []) scheduled
