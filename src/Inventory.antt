-- ===== src/Inventory.antt =====
-- apps/inventory: lots and their states (models.py). A quantity is in thousandths of a square
-- metre, a length in hundredths; a time is a number of seconds, a date a number of days.
pub mod Freshness
pub mod Table
pub mod Drafts
pub mod Edits
pub mod States
pub mod Changes
pub mod Writes
pub mod Requests
pub mod Isolation
pub mod Media
pub mod Primary
pub mod Products
pub mod LotPrices
mod RequestTests
mod Tests
use sanga.Common.{ℕ, Bool, true, false, Option, some, if◌then◌else◌}
use sanga.Common.Int.{ℤ}
use sanga.Common.Text.{Text}

-- `InventoryLot.Status`
pub data LotStatus : Type 0 where
  draft available reservation_pending reserved partially_sold : LotStatus
  sold expired hidden needs_confirmation : LotStatus

-- `InventoryLot.Visibility`
pub data Visibility : Type 0 where
  private colleagues public : Visibility

-- The columns of `Product` that the services read or write.
pub record Product : Type 0 where
  pub id : ℕ
  pub business : ℕ
  pub commercial_name : Text
  pub slug : Text
  pub stone_type : Text
  pub quarry_region : Text
  pub primary_color : Text
  pub is_active : Bool

pub record InventoryLot : Type 0 where
  pub id : ℕ
  pub business : ℕ
  pub product : ℕ
  pub warehouse : ℕ
  pub lot_code : Text
  pub status : LotStatus
  pub visibility : Visibility
  pub available_sqm : ℤ
  pub original_sqm : ℤ
  pub slab_count : Option ℕ
  pub bundle_count : Option ℕ
  pub length_cm : Option ℤ
  pub width_cm : Option ℤ
  pub thickness_mm : Option ℤ
  pub grade : Text
  pub processing_type : Text
  pub min_sale_qty : ℤ
  pub ready_for_loading_at : Option ℕ
  pub photographed_at : Option ℕ
  pub inventory_confirmed_at : Option ℕ
  pub offer_expires_at : Option ℕ
  pub description : Text
  pub defect_notes : Text
  pub is_featured : Bool
  pub is_urgent_sale : Bool
  pub archived_at : Option ℕ

abbrev pub is_needs_confirmation : LotStatus → Bool
is_needs_confirmation needs_confirmation = true
is_needs_confirmation _ = false

-- `InventoryLot.mark_confirmed`, at the time `now`.
unfoldable pub mark_confirmed : ℕ → InventoryLot → InventoryLot
mark_confirmed now lot = record lot {
  inventory_confirmed_at = some now;
  status = if is_needs_confirmation lot.status then available else lot.status;
}
