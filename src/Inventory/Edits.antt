-- ===== src/Inventory/Edits.antt =====
-- apps/inventory/services.py: changing the fields of a lot, and publishing it. The lot is the object
-- that a view has loaded.
use sanga.Common.{ℕ, ◌==◌, Bool, true, false, Option, none, some, List, ◌&&◌, ◌||◌, not, is_none}
use sanga.Common.Int.{ℤ}
use sanga.Common.Text.{Text}
use sanga.Common.Results.{Result, ◌>>=◌, ◌>>◌, raise_if, or_raise}
use sanga.Businesses.Permissions.{Capability, inventory_edit, inventory_quantity, inventory_publish}
use sanga.Businesses.{Membership, Warehouse, has_capability, lacks_capability}
use sanga.Inventory.{InventoryLot, Visibility, draft, available, private}
use sanga.Inventory.Table.{
  InventoryError, may_not, foreign_warehouse, may_not_change_quantity, invalid_visibility, require,
  save_lot, check_lot, or_else,
}

-- The keyword arguments of `update_lot_fields` that are allowed; `none` is one that is not given.
pub record LotChanges : Type 0 where
  pub grade : Option Text
  pub processing_type : Option Text
  pub description : Option Text
  pub defect_notes : Option Text
  pub available_sqm : Option ℤ
  pub original_sqm : Option ℤ
  pub length_cm : Option (Option ℤ)
  pub width_cm : Option (Option ℤ)
  pub thickness_mm : Option (Option ℤ)
  pub slab_count : Option (Option ℕ)
  pub bundle_count : Option (Option ℕ)
  pub min_sale_qty : Option ℤ
  pub ready_for_loading_at : Option (Option ℕ)
  pub photographed_at : Option (Option ℕ)
  pub offer_expires_at : Option (Option ℕ)
  pub is_featured : Option Bool
  pub is_urgent_sale : Option Bool
  pub warehouse : Option Warehouse

-- `quantity_keys.intersection(fields)`
abbrev pub changes_quantity : LotChanges → Bool
changes_quantity c =
    not (is_none c.available_sqm)
    || not (is_none c.original_sqm)
    || not (is_none c.slab_count)
    || not (is_none c.bundle_count)

abbrev pub is_foreign : Option Warehouse → ℕ → Bool
is_foreign none business = false
is_foreign (some w) business = not (w.business == business)

abbrev pub warehouse_id : Option Warehouse → ℕ → ℕ
warehouse_id none old = old
warehouse_id (some w) old = w.id

-- The loop of `setattr`.
unfoldable pub with_changes : LotChanges → InventoryLot → InventoryLot
with_changes c lot = record lot {
  grade = or_else c.grade lot.grade;
  processing_type = or_else c.processing_type lot.processing_type;
  description = or_else c.description lot.description;
  defect_notes = or_else c.defect_notes lot.defect_notes;
  available_sqm = or_else c.available_sqm lot.available_sqm;
  original_sqm = or_else c.original_sqm lot.original_sqm;
  length_cm = or_else c.length_cm lot.length_cm;
  width_cm = or_else c.width_cm lot.width_cm;
  thickness_mm = or_else c.thickness_mm lot.thickness_mm;
  slab_count = or_else c.slab_count lot.slab_count;
  bundle_count = or_else c.bundle_count lot.bundle_count;
  min_sale_qty = or_else c.min_sale_qty lot.min_sale_qty;
  ready_for_loading_at = or_else c.ready_for_loading_at lot.ready_for_loading_at;
  photographed_at = or_else c.photographed_at lot.photographed_at;
  offer_expires_at = or_else c.offer_expires_at lot.offer_expires_at;
  is_featured = or_else c.is_featured lot.is_featured;
  is_urgent_sale = or_else c.is_urgent_sale lot.is_urgent_sale;
  warehouse = warehouse_id c.warehouse lot.warehouse;
}

-- `update_lot_fields`
unfoldable pub update_lot_fields :
    InventoryLot
    → Option Membership
    → LotChanges
    → List InventoryLot
    → Result InventoryError (List InventoryLot)
update_lot_fields lot m c lots = do
  member ← require m inventory_edit
  check_lot lot member
  raise_if (changes_quantity c && not (has_capability member inventory_quantity))
      may_not_change_quantity
  raise_if (is_foreign c.warehouse lot.business) foreign_warehouse
  save_lot (with_changes c lot) lots

-- Two values of `Visibility`, compared.
abbrev pub same_visibility : Visibility → Visibility → Bool
same_visibility private private = true
same_visibility Visibility.colleagues Visibility.colleagues = true
same_visibility Visibility.public Visibility.public = true
same_visibility _ _ = false

-- A visibility that differs from the lot's; `none` is a text that is none.
abbrev pub is_new_visibility : Option Visibility → Visibility → Bool
is_new_visibility none old = true
is_new_visibility (some v) old = not (same_visibility v old)

-- The lot with its new visibility, published at the time `now` or put back to draft.
unfoldable pub with_visibility :
    ℕ → Visibility → (publish save_as_draft : Bool) → InventoryLot → InventoryLot
with_visibility now v publish true lot = record lot { visibility = v; status = draft }
with_visibility now v false false lot = record lot { visibility = v }
with_visibility now v true false lot = record lot {
  visibility = v;
  status = available;
  inventory_confirmed_at = some (or_else lot.inventory_confirmed_at now);
}

-- The membership that publishing asks for; a caller that changes nothing may have any.
abbrev pub require_if : Bool → Option Membership → Capability → Result InventoryError (Unit {0})
require_if t m c = raise_if (t && lacks_capability m c) may_not

-- `set_visibility_and_status`; a membership is given.
unfoldable pub set_visibility_and_status :
    ℕ
    → InventoryLot
    → Membership
    → Option Visibility
    → (publish save_as_draft : Bool) → List InventoryLot
    → Result InventoryError (List InventoryLot)
set_visibility_and_status now lot m visibility publish save_as_draft lots = do
  require_if (publish || is_new_visibility visibility lot.visibility) (some m) inventory_publish
  check_lot lot m
  v ← or_raise visibility invalid_visibility
  save_lot (with_visibility now v publish save_as_draft lot) lots
