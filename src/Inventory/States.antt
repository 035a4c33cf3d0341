-- ===== src/Inventory/States.antt =====
-- apps/inventory/services.py: confirming, selling, hiding and archiving a lot that a view has loaded.
use sanga.Common.{ℕ, Option, some, List}
use sanga.Common.Int.{pos}
use sanga.Common.Results.{Result, ◌>>=◌, ◌>>◌}
use sanga.Businesses.Permissions.{inventory_edit, inventory_publish, inventory_confirm}
use sanga.Businesses.{Membership}
use sanga.Inventory.{InventoryLot, sold, hidden, mark_confirmed}
use sanga.Inventory.Table.{InventoryError, require, save_fields, check_lot}

-- `confirm_lot_inventory`; what is written are the columns of the object, not the row's.
unfoldable pub confirm_lot_inventory :
    ℕ
    → InventoryLot
    → Option Membership
    → List InventoryLot
    → Result InventoryError (List InventoryLot)
unfolding mark_confirmed
confirm_lot_inventory now lot m lots = do
  member ← require m inventory_confirm
  check_lot lot member
  save_fields lot.id
      (λ (row : InventoryLot). record row {
        inventory_confirmed_at = (mark_confirmed now lot).inventory_confirmed_at;
        status = (mark_confirmed now lot).status;
      })
      lots

-- `mark_lot_sold`
unfoldable pub mark_lot_sold :
    InventoryLot → Option Membership → List InventoryLot → Result InventoryError (List InventoryLot)
mark_lot_sold lot m lots = do
  member ← require m inventory_edit
  check_lot lot member
  save_fields lot.id (λ (row : InventoryLot). record row { status = sold; available_sqm = pos 0 })
      lots

-- `hide_lot`
unfoldable pub hide_lot :
    InventoryLot → Option Membership → List InventoryLot → Result InventoryError (List InventoryLot)
hide_lot lot m lots = do
  member ← require m inventory_publish
  check_lot lot member
  save_fields lot.id (λ (row : InventoryLot). record row { status = hidden }) lots

-- `archive_lot`, at the time `now`.
unfoldable pub archive_lot :
    ℕ
    → InventoryLot
    → Option Membership
    → List InventoryLot
    → Result InventoryError (List InventoryLot)
archive_lot now lot m lots = do
  member ← require m inventory_edit
  check_lot lot member
  save_fields lot.id
      (λ (row : InventoryLot). record row { archived_at = some now; status = hidden }) lots
