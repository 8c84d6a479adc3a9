-- ===== src/Examples/Analyses.antt =====
-- A peer's files with an excluded folder and an interrupted transfer, walked, and names matched
-- against wildcards.
use sync_plus.Base.{
  ◌≡◌, ◌↔◌, refl, Bool, true, false, ◌||◌, Option, none, some, List, [], ◌∷◌, Text, Elem, inl, inr,
  All, any, is_empty, Result, ok, err, panicked, IsOk, ◌==◌, text_eq,
}
use sync_plus.Base.Int.{pos}
use sync_plus.Base.Strings.{codes}
use sync_plus.Path.{FilePath, normal}
use sync_plus.Model.{peer_a, mirror, regular_file, excluded}
use sync_plus.Inventory.{SourceInventory, InventoryItem, inventory_item}
use sync_plus.Plan.Reasons.{HasUniquePaths}
use sync_plus.Analysis.{AnalysisError}
use sync_plus.Analysis.Wildcard.{wildcard_search, wildcard_match, glob}
use sync_plus.Analysis.Wildcard.Enough.{wildcard_search-wildcard_match}
use sync_plus.Analysis.Wildcard.Glob.{wildcard_match-glob}
use sync_plus.Analysis.Exclusion.{matches_exclusion}
use sync_plus.Analysis.Walk.{
  FileType, file, dir, Metadata, EntryState, entry, Listing, no_more, listed, collect_inventory,
}
use sync_plus.Analysis.Walk.Listed.{IsListed, collect_inventory-IsListed}
use sync_plus.Analysis.Walk.Along.{along}
use sync_plus.Analysis.Walk.Reference.{item_at}
use sync_plus.Analysis.Walk.Refined.{top, inventory_item-collect_inventory}
use sync_plus.Analysis.Walk.Unique.{collect_inventory-HasUniquePaths}

wildcard_search-wildcard_match_example :
    wildcard_search (codes "*.log") (codes "a.log.log")
    ≡ some (wildcard_match (codes "*.log") (codes "a.log.log"))
wildcard_search-wildcard_match_example =
    wildcard_search-wildcard_match (codes "*.log") (codes "a.log.log")

wildcard_match-glob_example :
    wildcard_match (codes "*.log") (codes "a.log.log") ≡ glob (codes "*.log") (codes "a.log.log")
unfolding sync_plus.Base.nat_eq
wildcard_match-glob_example = wildcard_match-glob (codes "*.log") (codes "a.log.log") refl

glob_run : glob (codes "*.log") (codes "a.log.log") ≡ true
unfolding glob sync_plus.Base.nat_eq
glob_run = refl

-- A `*` in the value is compared with the pattern's `*` as a character, and the search then has no
-- place to come back to.
starred_value : wildcard_match (codes "*.log") (codes "*.log.log") ≡ false
unfolding wildcard_match sync_plus.Base.nat_eq
starred_value = refl

abbrev pub stat : FileType → Metadata
stat type = record {
  file_type = type;
  len = 3;
  modified = some (pos 5);
  readonly = false;
  mode = 0o100644;
}

abbrev state : FileType → EntryState
state type = record { metadata = some (stat type); link_target = none; sha256 = some (7 ∷ []) }

abbrev pub notes_and_build : Listing
notes_and_build = listed (entry (codes "notes") (state file) no_more) (
    listed (entry (codes ".syncplus-partial-1") (state file) no_more) (
      listed
        (entry (codes "build") (state dir)
          (listed (entry (codes "a.o") (state file) no_more) no_more))
        no_more))

abbrev pub patterns : List Text
patterns = codes "build/" ∷ []

unfoldable pub unwrap : {E A : Type 0} (r : Result E A) → IsOk r → A
unwrap (ok a) h = a
unwrap (err e) h = absurd h
unwrap panicked h = absurd h

pub unwrap_ok : {E A : Type 0} (r : Result E A) (h : IsOk r) → r ≡ ok (unwrap r h)
unfolding unwrap
unwrap_ok (ok a) h = refl
unwrap_ok (err e) h = absurd h
unwrap_ok panicked h = absurd h

abbrev here : FilePath
here = record { components = [] }

collected : SourceInventory
unfolding collect_inventory unwrap sync_plus.Model.type_eq sync_plus.Base.Order.text_ord
    sync_plus.Base.Order.nat_ord sync_plus.Analysis.Exclusion.is_syncplus_internal_artifact
    sync_plus.Base.nat_eq
collected =
    unwrap (collect_inventory (codes "a") patterns here (some (stat dir)) notes_and_build) tt

is_collected :
    collect_inventory (codes "a") patterns here (some (stat dir)) notes_and_build ≡ ok collected
unfolding collect_inventory collected
is_collected = refl

collect_inventory-HasUniquePaths_example : HasUniquePaths collected
unfolding sync_plus.Base.text_eq native.Mathlib.Decide.ℕ_discrete
collect_inventory-HasUniquePaths_example =
    collect_inventory-HasUniquePaths (codes "a") patterns here (some (stat dir)) notes_and_build
      collected refl is_collected

-- The file in the excluded folder.
abbrev object : InventoryItem
object = record {
  relative_path = record { components = normal (codes "build") ∷ normal (codes "a.o") ∷ [] };
  item_type = regular_file;
  metadata = record {
    size = 3;
    modified_at = some (pos 5);
    readonly = false;
    permissions = some 0o644;
    symlink_target = none;
  };
  outcome = excluded;
  content_fingerprint = none;
}

object_listed : Elem object collected.items
unfolding collect_inventory collected sync_plus.Path.path_ord sync_plus.Path.component_ord
    sync_plus.Analysis.Exclusion.matches_exclusion sync_plus.Model.outcome_eq
object_listed = inr (inl refl)

collect_inventory-IsListed_example : IsListed (codes "a") patterns here false object
collect_inventory-IsListed_example =
    collect_inventory-IsListed (codes "a") patterns here (some (stat dir)) notes_and_build collected
      is_collected object object_listed

inventory_item-collect_inventory_example :
    inventory_item collected (along top (codes "build" ∷ codes "a.o" ∷ []))
    ≡ item_at (codes "a") patterns top false (codes "build" ∷ codes "a.o" ∷ []) notes_and_build
unfolding text_eq native.Mathlib.Decide.ℕ_discrete
inventory_item-collect_inventory_example =
    inventory_item-collect_inventory (codes "a") patterns here (some (stat dir)) notes_and_build
      collected refl is_collected (codes "build" ∷ codes "a.o" ∷ [])

-- A `*` matches across the folders of a path.
across_folders :
    matches_exclusion
      (record {
        components = normal (codes "src") ∷ normal (codes "x") ∷ normal (codes "a.o") ∷ [];
      })
      regular_file
      (codes "src/*.o")
    ≡ true
unfolding matches_exclusion sync_plus.Base.nat_eq
across_folders = refl

-- A pattern with a folder in it is matched from the root on only.
from_root_only :
    matches_exclusion
      (record {
        components = normal (codes "x") ∷ normal (codes "src") ∷ normal (codes "a.o") ∷ [];
      })
      regular_file
      (codes "src/*.o")
    ≡ false
unfolding matches_exclusion sync_plus.Base.nat_eq
from_root_only = refl
