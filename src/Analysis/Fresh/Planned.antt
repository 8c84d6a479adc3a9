-- ===== src/Analysis/Fresh/Planned.antt =====
-- What a fresh analysis keeps fits together, and its plan is always the proposed one.
use sync_plus.Base.{
  Bool, true, List, Text, ◌≡◌, refl, sym, ◌∙◌, subst, ok, require, bind_ok, ok-injective, map_err,
}
use sync_plus.Path.Parse.{parse_path}
use sync_plus.Profile.{SyncProfile, Peer, root}
use sync_plus.Inventory.{SourceInventory}
use sync_plus.Plan.Reasons.{HasUniquePaths}
use sync_plus.Plan.Check.{proposed_plan}
use sync_plus.Plan.Valid.{build_plan_ok}
use sync_plus.Revision.{revision_of}
use sync_plus.Process.Specification.{ProcessSpecification, from_profile}
use sync_plus.Process.Exclusions.{exclusions}
use sync_plus.Analysis.{process_specification}
use sync_plus.Analysis.Walk.Unique.{has_unique_names, collect_inventory-HasUniquePaths}
use sync_plus.Analysis.Fresh.{
  FreshAnalysis, plan_specification, fresh_from_inventories, Root, collect_local_inventory,
  analysis_source_peer, analysis_destination_peer, remote_peer_error, analyze,
}

pub record IsAnalysis (profile : SyncProfile) (a : FreshAnalysis) : Type 0 where
  pub of_profile : a.profile ≡ profile
  pub unique_source : HasUniquePaths a.source_inventory
  pub unique_destination : HasUniquePaths a.destination_inventory
  pub planned :
      a.plan
      ≡ proposed_plan
          (plan_specification a.specification)
          a.source_inventory
          a.destination_inventory
  pub revised : a.revision ≡ revision_of a.source_inventory a.destination_inventory

abbrev made : SyncProfile → ProcessSpecification → SourceInventory → SourceInventory → FreshAnalysis
made profile specification source destination = record {
  profile = profile;
  specification = specification;
  source_inventory = source;
  destination_inventory = destination;
  plan = proposed_plan (plan_specification specification) source destination;
  revision = revision_of source destination;
}

from_inventories_ok :
    (profile : SyncProfile) (specification : ProcessSpecification)
    (source destination : SourceInventory)
    → HasUniquePaths source
    → HasUniquePaths destination
    → fresh_from_inventories profile specification source destination
      ≡ ok (made profile specification source destination)
unfolding fresh_from_inventories
from_inventories_ok profile specification source destination us ud =
    rw (build_plan_ok (plan_specification specification) source destination us ud) refl

made-IsAnalysis :
    (profile : SyncProfile) (specification : ProcessSpecification)
    (source destination : SourceInventory)
    → HasUniquePaths source
    → HasUniquePaths destination
    → IsAnalysis profile (made profile specification source destination)
made-IsAnalysis profile specification source destination us ud = record {
  of_profile = refl;
  unique_source = us;
  unique_destination = ud;
  planned = refl;
  revised = refl;
}

module _ (is_dir : Text → Bool) (files : Text → Root)
    (unique : (path : Text) → has_unique_names (files path).listing ≡ true) where
  collected-HasUniquePaths :
      (peer : Peer) (patterns : List Text) (inventory : SourceInventory)
      → collect_local_inventory is_dir files peer patterns ≡ ok inventory
      → HasUniquePaths inventory
  unfolding collect_local_inventory
  collected-HasUniquePaths peer patterns inventory h =
      collect_inventory-HasUniquePaths peer.name patterns (parse_path (root peer))
        (files (root peer)).metadata (files (root peer)).listing inventory (unique (root peer)) h

  -- An analysis that succeeds is of the profile, lists no path twice on either side, and holds the
  -- proposed plan and the revision of its inventories, if no folder has two entries of one name.
  pub analyze-IsAnalysis :
      (profile : SyncProfile) (a : FreshAnalysis)
      → analyze is_dir files profile ≡ ok a
      → IsAnalysis profile a
  unfolding analyze
  analyze-IsAnalysis profile a h =
      let (specification, specified, h1) =
        bind_ok (map_err process_specification (from_profile is_dir profile)) _ h in
      let (t, local, h2) = bind_ok (require (remote_peer_error profile)) _ h1 in
      let (source, s, h3) =
        bind_ok
          (collect_local_inventory is_dir files (analysis_source_peer profile)
            (exclusions specification))
          _ h2 in
      let (destination, d, h4) =
        bind_ok
          (collect_local_inventory is_dir files (analysis_destination_peer is_dir files profile)
            (exclusions specification))
          _ h3 in
      let us =
        collected-HasUniquePaths (analysis_source_peer profile) (exclusions specification) source
          s in
      let ud =
        collected-HasUniquePaths (analysis_destination_peer is_dir files profile)
          (exclusions specification) destination d in
      subst (IsAnalysis profile)
        (ok-injective
          (sym (from_inventories_ok profile specification source destination us ud) ∙ h4))
        (made-IsAnalysis profile specification source destination us ud)
