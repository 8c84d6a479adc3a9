-- ===== src/Analysis/Fresh.antt =====
-- A fresh analysis (`FreshAnalysis` of analysis.rs): both peers' inventories, the plan that they
-- give, and the revision that a later analysis is compared with.
pub mod Planned
use sync_plus.Base.{
  Bool, true, false, ◌&&◌, not, Option, none, some, List, [], ◌∷◌, Text, find, if◌then◌else◌, ◌==◌,
  Result, ok, err, panicked, require, ◌>>=◌, ◌>>◌, map_err, text_eq, texts_eq,
}
use sync_plus.Path.{FilePath}
use sync_plus.Path.Parse.{parse_path}
use sync_plus.Model.{SyncMode, mirror, PeerSide, mode_eq, side_eq, options_eq}
use sync_plus.Inventory.{SourceInventory}
use sync_plus.Profile.{
  Peer, local_root, root, is_ssh, SyncProfile, selected_source, selected_destination,
  effective_destination_root, same_peer,
}
use sync_plus.Process.Specification.{ProcessSpecification, from_profile}
use sync_plus.Process.Exclusions.{exclusions}
use sync_plus.Plan
use sync_plus.Plan.Check.{OneWayPlan, build_plan}
use sync_plus.Revision.{AnalysisRevision, revision_of}
use sync_plus.Analysis.{AnalysisError, process_specification, unsupported_remote_peer, plan_error}
use sync_plus.Analysis.Walk.{Metadata, Listing, collect_inventory}

pub record FreshAnalysis : Type 0 where
  pub profile : SyncProfile
  pub specification : ProcessSpecification
  pub source_inventory : SourceInventory
  pub destination_inventory : SourceInventory
  pub plan : OneWayPlan
  pub revision : AnalysisRevision

-- What the plan reads of a specification.
abbrev pub plan_specification : ProcessSpecification → Plan.ProcessSpecification
plan_specification spec = record { mode = spec.mode; source = spec.source; options = spec.options }

-- The derived `PartialEq` of `SyncProfile`.
unfoldable pub equal_profiles : SyncProfile → SyncProfile → Bool
equal_profiles p q =
    p.name == q.name
    && same_peer p.peer_a q.peer_a
    && same_peer p.peer_b q.peer_b
    && p.mode == q.mode
    && p.source == q.source
    && p.options == q.options
    && p.exclusions == q.exclusions

unfoldable pub fresh_from_inventories :
    SyncProfile
    → ProcessSpecification
    → SourceInventory
    → SourceInventory
    → Result AnalysisError FreshAnalysis
unfolding build_plan
fresh_from_inventories profile specification source destination = do
  plan ← map_err plan_error (build_plan (plan_specification specification) source destination)
  ok (record {
    profile = profile;
    specification = specification;
    source_inventory = source;
    destination_inventory = destination;
    plan = plan;
    revision = revision_of source destination;
  })

-- What stands at a local root: its metadata, and what it lists.
pub record Root : Type 0 where
  pub metadata : Option Metadata
  pub listing : Listing

abbrev unsupported_peer_error : Option Peer → Option AnalysisError
unsupported_peer_error none = none
unsupported_peer_error (some peer) = some (unsupported_remote_peer peer.name)

abbrev pub remote_peer_error : SyncProfile → Option AnalysisError
remote_peer_error profile =
    unsupported_peer_error (find is_ssh (profile.peer_a ∷ profile.peer_b ∷ []))

abbrev pub analysis_source_peer : SyncProfile → Peer
analysis_source_peer profile =
    if profile.mode == mirror then profile.peer_a else selected_source profile

-- The local files at the time of the analysis, and which paths are folders.
module _ (is_dir : Text → Bool) (files : Text → Root) where
  abbrev pub analysis_destination_peer : SyncProfile → Peer
  analysis_destination_peer profile =
      let destination = selected_destination profile in
      let effective_root = effective_destination_root profile in
      if profile.mode == mirror
      then profile.peer_b
      else if not (is_ssh destination) && is_dir effective_root
      then record { name = destination.name; endpoint = local_root effective_root }
      else destination

  unfoldable pub collect_local_inventory : Peer → List Text → Result AnalysisError SourceInventory
  unfolding collect_inventory
  collect_local_inventory peer patterns =
      let place = files (root peer) in
      collect_inventory peer.name patterns (parse_path (root peer)) place.metadata place.listing

  unfoldable pub analyze : SyncProfile → Result AnalysisError FreshAnalysis
  unfolding from_profile fresh_from_inventories collect_local_inventory
  analyze profile = do
    specification ← map_err process_specification (from_profile is_dir profile)
    require (remote_peer_error profile)
    let patterns = exclusions specification
    source ← collect_local_inventory (analysis_source_peer profile) patterns
    destination ← collect_local_inventory (analysis_destination_peer profile) patterns
    fresh_from_inventories profile specification source destination
