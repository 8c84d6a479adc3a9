-- ===== src/Examples/Revisions.antt =====
-- An analysis repeated after a file's content changed, and after a file went.
use sync_plus.Base.{[], ◌∷◌, some, option_eq}
use sync_plus.Path.{path_eq}
use sync_plus.Inventory.{InventoryItem, SourceInventory}
use sync_plus.Revision.{revision_state_eq}
use sync_plus.Examples.Data.{report, file_at, inventory_of}

abbrev rewritten : InventoryItem
rewritten = record (file_at report) { content_fingerprint = some (8 ∷ []) }

abbrev with_report : SourceInventory
with_report = inventory_of (file_at report ∷ [])

abbrev after_rewrite : SourceInventory
after_rewrite = inventory_of (rewritten ∷ [])

abbrev without : SourceInventory
without = inventory_of []
