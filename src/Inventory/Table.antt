-- ===== src/Inventory/Table.antt =====
-- The table of lots (apps/inventory/models.py) as the services write it, and what each of the services
-- of apps/inventory/services.py checks first. A service that raises changes nothing: it runs in a
-- transaction. The prices of a lot are left out.
use sanga.Common.{
  if◌then◌else◌, ℕ, ◌^◌, ◌==◌, Bool, true, Option, none, some, List, ◌∷◌, ◌&&◌, not, leb, ltb,
  exists, find_first, update_where, is_none, length,
}
use sanga.Common.Int.{ℤ, is_neg, magnitude}
use sanga.Common.Text.{Text, text_eq}
use sanga.Common.Results.{Result, ok, ◌>>◌, raise_if, or_raise}
use sanga.Businesses.Permissions.{Capability}
use sanga.Businesses.{Membership, lacks_capability}
use sanga.Inventory.{InventoryLot}

-- The messages of `InventoryError`, and the exceptions of the database and of Python that pass
-- through: a constraint, a column that is too narrow, a row that is gone.
pub data InventoryError : Type 0 where
  may_not foreign_lot foreign_product foreign_warehouse : InventoryError
  duplicate_code negative_quantity may_not_change_quantity invalid_visibility : InventoryError
  integrity_error data_error not_updated : InventoryError
  product_not_found name_too_short endless_loop : InventoryError

-- `_require`, with the membership that passed.
unfoldable pub require : Option Membership → Capability → Result InventoryError Membership
unfolding lacks_capability
require m c = do raise_if (lacks_capability m c) may_not; or_raise m may_not

abbrev pub has_lot_id : ℕ → InventoryLot → Bool
has_lot_id i lot = lot.id == i

-- `uniq_lot_code_per_business`
abbrev pub has_lot_code : ℕ → Text → InventoryLot → Bool
has_lot_code business code lot = lot.business == business && text_eq lot.lot_code code

-- `lot_available_sqm_nonnegative` and `lot_original_sqm_nonnegative`
abbrev pub is_counted : InventoryLot → Bool
is_counted lot = not (is_neg lot.available_sqm) && not (is_neg lot.original_sqm)

abbrev pub is_below : ℕ → Option ℤ → Bool
is_below digits none = true
is_below digits (some x) = ltb (magnitude x) (10 ^ digits)

abbrev pub is_small : Option ℕ → Bool
is_small none = true
is_small (some n) = ltb n (2 ^ 31)

-- The widths of the columns.
abbrev pub fits_lot : InventoryLot → Bool
fits_lot lot =
    leb (length lot.lot_code) 64
    && leb (length lot.grade) 50
    && leb (length lot.processing_type) 100
    && is_below 12 (some lot.available_sqm)
    && is_below 12 (some lot.original_sqm)
    && is_below 12 (some lot.min_sale_qty)
    && is_below 8 lot.length_cm
    && is_below 8 lot.width_cm
    && is_below 8 lot.thickness_mm
    && is_small lot.slab_count
    && is_small lot.bundle_count

-- `InventoryLot.objects.create(...)`
unfoldable pub create_lot :
    InventoryLot → List InventoryLot → Result InventoryError (List InventoryLot)
create_lot lot lots = do
  raise_if (not (fits_lot lot)) data_error
  raise_if (exists (has_lot_id lot.id) lots) integrity_error
  raise_if (exists (has_lot_code lot.business lot.lot_code) lots) integrity_error
  raise_if (not (is_counted lot)) integrity_error
  ok (lot ∷ lots)

-- Another row with the code of the lot.
abbrev pub clashes_with : InventoryLot → InventoryLot → Bool
clashes_with lot row = not (row.id == lot.id) && has_lot_code lot.business lot.lot_code row

-- The rows after all columns of a lot are written.
abbrev pub saved_rows : InventoryLot → List InventoryLot → List InventoryLot
saved_rows lot lots =
    if exists (has_lot_id lot.id) lots
    then update_where (has_lot_id lot.id) (λ row. lot) lots
    else lot ∷ lots

-- `lot.save()`: all columns are written, in a new row if there is none with the key.
unfoldable pub save_lot :
    InventoryLot → List InventoryLot → Result InventoryError (List InventoryLot)
save_lot lot lots = do
  raise_if (not (fits_lot lot)) data_error
  raise_if (exists (clashes_with lot) lots) integrity_error
  raise_if (not (is_counted lot)) integrity_error
  ok (saved_rows lot lots)

-- `lot.save(update_fields=[...])`, for columns that are given by a function.
unfoldable pub save_fields :
    ℕ
    → (InventoryLot → InventoryLot)
    → List InventoryLot
    → Result InventoryError (List InventoryLot)
save_fields pk f lots = do
  raise_if (not (exists (has_lot_id pk) lots)) not_updated
  ok (update_where (has_lot_id pk) f lots)

-- `lot.business_id != membership.business_id`
abbrev pub check_lot : InventoryLot → Membership → Result InventoryError (Unit {0})
check_lot lot m = raise_if (not (lot.business == m.business)) foreign_lot

abbrev pub or_else {ℓ} : {A : Type ℓ} → Option A → A → A
or_else none b = b
or_else (some a) b = a

-- `get_business_lot`: a lot of the business that is not archived.
unfoldable pub get_business_lot : ℕ → ℕ → List InventoryLot → Option InventoryLot
get_business_lot business pk =
    find_first (λ (lot : InventoryLot).
      lot.id == pk && (lot.business == business && is_none lot.archived_at))
