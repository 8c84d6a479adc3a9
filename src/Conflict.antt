-- ===== src/Conflict.antt =====
-- The rows of a Conflict Review (conflict.rs): their identity, and the decisions open to each.
pub mod Key
use sync_plus.Base.{Option, none, List, [], ◌∷◌, Eq, option_eq}
use sync_plus.Path.{FilePath, path_eq, path_ord}

pub data ConflictKind : Type 0 where
  same_path possible_duplicate_or_rename destination_compatibility : ConflictKind

pub record ConflictEntryKey : Type 0 where
  pub kind : ConflictKind
  pub relative_path : FilePath
  pub related_path : Option FilePath
  pub destination_path : Option FilePath

-- `ConflictEntryKey::same_path`.
abbrev pub same_path_key : FilePath → ConflictEntryKey
same_path_key path = record {
  kind = same_path;
  relative_path = path;
  related_path = none;
  destination_path = none;
}

pub data ConflictResolution : Type 0 where
  keep_peer_a keep_peer_b preserve_both rename_preserve_for_review defer : ConflictResolution

pub ConflictResolution-discrete : Discrete ConflictResolution
ConflictResolution-discrete = hlevel

instance unfoldable pub resolution_eq : Eq ConflictResolution
unfolding ConflictResolution-discrete
resolution_eq = record { dec = ConflictResolution-discrete }

-- `ConflictEntry::available_resolutions`, which reads the kind alone.
abbrev pub available_resolutions : ConflictKind → List ConflictResolution
available_resolutions same_path =
    keep_peer_a ∷ keep_peer_b ∷ preserve_both ∷ rename_preserve_for_review ∷ defer ∷ []
available_resolutions possible_duplicate_or_rename =
    preserve_both ∷ rename_preserve_for_review ∷ defer ∷ []
available_resolutions destination_compatibility = []
