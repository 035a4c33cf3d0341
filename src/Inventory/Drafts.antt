-- ===== src/Inventory/Drafts.antt =====
-- apps/inventory/services.py: creating a draft lot, and a draft that copies a lot.
use sanga.Common.{ℕ, ◌==◌, false, Option, none, List, [], not, exists}
use sanga.Common.Int.{ℤ, pos, is_neg}
use sanga.Common.Text.{Text, strip, or_text}
use sanga.Common.Results.{Result, ◌>>=◌, ◌>>◌, raise_if}
use sanga.Businesses.Permissions.{inventory_create}
use sanga.Businesses.{Membership, Warehouse}
use sanga.Inventory.{InventoryLot, Product, draft, private}
use sanga.Inventory.Table.{
  InventoryError, foreign_product, foreign_warehouse, duplicate_code, negative_quantity, require,
  has_lot_code, create_lot, check_lot, or_else,
}

-- The arguments of `create_draft_lot`.
pub record LotForm : Type 0 where
  pub lot_code : Text
  pub grade : Text
  pub processing_type : Text
  pub description : Text
  pub available_sqm : Option ℤ
  pub original_sqm : Option ℤ
  pub length_cm : Option ℤ
  pub width_cm : Option ℤ
  pub thickness_mm : Option ℤ
  pub slab_count : Option ℕ

-- The row that `create_draft_lot` inserts, for the row's UUID and its code.
abbrev pub draft_lot : ℕ → ℕ → Product → Warehouse → Text → LotForm → InventoryLot
draft_lot uuid business product warehouse code form = record {
  id = uuid;
  business = business;
  product = product.id;
  warehouse = warehouse.id;
  lot_code = code;
  status = draft;
  visibility = private;
  available_sqm = or_else form.available_sqm (pos 0);
  original_sqm = or_else form.original_sqm (or_else form.available_sqm (pos 0));
  slab_count = form.slab_count;
  bundle_count = none;
  length_cm = form.length_cm;
  width_cm = form.width_cm;
  thickness_mm = form.thickness_mm;
  grade = strip form.grade;
  processing_type = strip form.processing_type;
  min_sale_qty = pos 0;
  ready_for_loading_at = none;
  photographed_at = none;
  inventory_confirmed_at = none;
  offer_expires_at = none;
  description = strip form.description;
  defect_notes = [];
  is_featured = false;
  is_urgent_sale = false;
  archived_at = none;
}

-- `create_draft_lot`; `next_code` is what `_next_lot_code` draws.
unfoldable pub create_draft_lot :
    (uuid : ℕ) (next_code : Text) (business : ℕ)
    → Option Membership
    → Product
    → Warehouse
    → LotForm
    → List InventoryLot
    → Result InventoryError (List InventoryLot)
create_draft_lot uuid next_code business m product warehouse form lots = do
  member ← require m inventory_create
  raise_if (not (product.business == business)) foreign_product
  raise_if (not (warehouse.business == business)) foreign_warehouse
  raise_if (exists (has_lot_code business (or_text (strip form.lot_code) next_code)) lots)
      duplicate_code
  raise_if (is_neg (or_else form.available_sqm (pos 0))) negative_quantity
  create_lot
      (draft_lot uuid business product warehouse (or_text (strip form.lot_code) next_code) form)
      lots

-- The copy that `duplicate_lot` inserts.
abbrev pub clone_lot : ℕ → Text → InventoryLot → InventoryLot
clone_lot uuid code lot = record lot {
  id = uuid;
  lot_code = code;
  status = draft;
  visibility = private;
  ready_for_loading_at = none;
  photographed_at = none;
  inventory_confirmed_at = none;
  offer_expires_at = none;
  is_featured = false;
  is_urgent_sale = false;
  archived_at = none;
}

-- `duplicate_lot`; a code that is taken is an `IntegrityError` here.
unfoldable pub duplicate_lot :
    (uuid : ℕ) (next_code : Text)
    → InventoryLot
    → Option Membership
    → List InventoryLot
    → Result InventoryError (List InventoryLot)
duplicate_lot uuid next_code lot m lots = do
  member ← require m inventory_create
  check_lot lot member
  create_lot (clone_lot uuid next_code lot) lots
