-- ===== src/Examples/Equalities.antt =====
-- Mirror equality on frozen and live items.
use sync_plus.Base.{◌≡◌, ◌≢◌, ◌↔◌, refl, true, some, arith, nat_eq, text_eq, option_eq}
use sync_plus.Base.Int.{pos}
use sync_plus.Path.{path_eq}
use sync_plus.Model.{MetadataRequirements, default_metadata, outcome_eq, type_eq}
use sync_plus.MirrorEquality.{equal, equal_parts}
use sync_plus.MirrorEquality.Agreement.{IsObserved, Covers, equal_equivalence, equal_mono}
use sync_plus.MirrorEquality.Clocks.{earliest}
use sync_plus.Examples.Data.{report, notes, frozen_at}

abbrev strict : MetadataRequirements
strict = record default_metadata { timestamps = true }

equal_equivalence_example :
    ((equal default_metadata (frozen_at report) (frozen_at report) ≡ true)
      ↔ IsObserved default_metadata (frozen_at report))
    × (equal default_metadata (frozen_at report) (frozen_at notes)
        ≡ equal default_metadata (frozen_at notes) (frozen_at report))
    × (equal default_metadata (frozen_at report) (frozen_at notes) ≡ true
        → equal default_metadata (frozen_at notes) (frozen_at report) ≡ true
        → equal default_metadata (frozen_at report) (frozen_at report) ≡ true)
equal_equivalence_example =
    equal_equivalence default_metadata (frozen_at report) (frozen_at notes) (frozen_at report)

strict-Covers : Covers strict default_metadata
strict-Covers = record {
  permissions = λ h. h;
  targets = λ h. h;
  times = λ h. refl;
  specialist = λ h. h;
}

strict-equal : equal strict (frozen_at report) (frozen_at notes) ≡ true
unfolding equal equal_parts path_eq nat_eq text_eq option_eq outcome_eq type_eq
strict-equal = ground arith

equal_mono_example : equal default_metadata (frozen_at report) (frozen_at notes) ≡ true
equal_mono_example =
    equal_mono strict default_metadata (frozen_at report) (frozen_at notes) strict-Covers
      strict-equal

not_earliest : some (pos 5) ≢ some earliest
not_earliest h = cc
