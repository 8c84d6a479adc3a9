-- ===== src/Analysis/Walk/Reference.antt =====
-- The tree's own description of what stands at a path.
use sync_plus.Base.{
  Bool, true, false, ◌||◌, Option, none, some, List, [], ◌∷◌, Text, ◌==◌, if◌then◌else◌, Result, ok,
  text_eq,
}
use sync_plus.Base.Order.{text_ord}
use sync_plus.Path.{FilePath}
use sync_plus.Model.{ItemType, directory, type_eq}
use sync_plus.Inventory.{InventoryItem}
use sync_plus.Analysis.{AnalysisError}
use sync_plus.Analysis.Exclusion.{is_syncplus_internal_artifact}
use sync_plus.Analysis.Walk.{
  Metadata, EntryState, entry, Listing, no_more, unreadable, listed, item_type_of, at_name,
  is_excluded, item_of,
}

-- The entry of a name in a folder.
abbrev pub find_entry : Text → Listing → Option (EntryState × Listing)
find_entry name no_more = none
find_entry name unreadable = none
find_entry name (listed (entry other state below) rest) =
    if other == name then some (state, below) else find_entry name rest

abbrev pub value_of : Result AnalysisError InventoryItem → Option InventoryItem
value_of (ok item) = some item
value_of _ = none

-- The item itself, or one that stands deeper, if it is a folder.
abbrev pub here_or_deeper :
    List Text
    → ItemType
    → Result AnalysisError InventoryItem
    → Option InventoryItem
    → Option InventoryItem
here_or_deeper [] type here deeper = value_of here
here_or_deeper (name ∷ names) type here deeper = if type == directory then deeper else none

-- What is seen of an entry.
abbrev pub seen : Bool → Option Metadata → (Metadata → Option InventoryItem) → Option InventoryItem
seen true metadata visit = none
seen false none visit = none
seen false (some metadata) visit = visit metadata

abbrev pub in_entry :
    Option (EntryState × Listing)
    → (EntryState → Listing → Option InventoryItem)
    → Option InventoryItem
in_entry none visit = none
in_entry (some (state, below)) visit = visit state below

module _ (peer : Text) (exclusions : List Text) where
  -- The item at the names below a folder, found by following the names.
  unfoldable pub item_at : FilePath → Bool → List Text → Listing → Option InventoryItem
  item_at base inherited [] listing = none
  item_at base inherited (name ∷ names) listing = in_entry (find_entry name listing) (λ state below.
      seen (is_syncplus_internal_artifact name) state.metadata (λ metadata.
        let type = item_type_of metadata.file_type in
        let here = inherited || is_excluded exclusions (at_name base name) type in
        here_or_deeper names type (item_of peer exclusions (at_name base name) here state metadata)
          (item_at (at_name base name) here names below)))
