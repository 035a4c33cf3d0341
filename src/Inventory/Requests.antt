-- ===== src/Inventory/Requests.antt =====
-- Requests to the services of apps/inventory/services.py, each on a lot as it stands in the table, and
-- the guards that a service for a lot gets past.
use sanga.Common.{
  ℕ, ◌==◌, ◌≡◌, refl, Bool, true, false, Option, none, some, List, not, exists, find_first, arith,
}
use sanga.Common.Text.{Text, strip, or_text}
use sanga.Common.Int.{pos, is_neg}
use sanga.Common.Results.{Result, ok, ◌>>=◌, ◌>>◌, >>=-eq-ok, raise_if-eq-ok}
use sanga.Businesses.{Membership, Warehouse, lacks_capability}
use sanga.Businesses.Permissions.{Capability, inventory_create}
use sanga.Inventory.{InventoryLot, Product, Visibility}
use sanga.Inventory.Table.{
  InventoryError, may_not, foreign_lot, foreign_product, foreign_warehouse, duplicate_code,
  negative_quantity, require, has_lot_code, check_lot, or_else, has_lot_id,
}
use sanga.Inventory.Drafts.{LotForm, draft_lot, create_draft_lot, duplicate_lot}
use sanga.Inventory.Edits.{
  LotChanges, with_changes, update_lot_fields, with_visibility, set_visibility_and_status,
}
use sanga.Inventory.States.{confirm_lot_inventory, mark_lot_sold, hide_lot, archive_lot}
use sanga.Inventory.Changes.{Keeps, Change}
use sanga.Inventory.Writes.{create_lot-Change}

-- A request that succeeds, of a member (or nobody) of whatever business, on any lot as it stands in the
-- table. A new lot is drafted for the business of the call, which the service does not compare with
-- the member's.
pub data Request (business : ℕ) (m : Option Membership) (before : List InventoryLot)
    : List InventoryLot → Type 0 where
  create :
      (uuid : ℕ) (code : Text) (product : Product) (warehouse : Warehouse) (form : LotForm)
      {after : List InventoryLot}
      → create_draft_lot uuid code business m product warehouse form before ≡ ok after
      → Request business m before after
  duplicate :
      (uuid : ℕ) (code : Text) (pk : ℕ) (lot : InventoryLot) {after : List InventoryLot}
      → find_first (has_lot_id pk) before ≡ some lot
      → duplicate_lot uuid code lot m before ≡ ok after
      → Request business m before after
  edit :
      (pk : ℕ) (lot : InventoryLot) (changes : LotChanges) {after : List InventoryLot}
      → find_first (has_lot_id pk) before ≡ some lot
      → update_lot_fields lot m changes before ≡ ok after
      → Request business m before after
  show :
      (now : ℕ) (member : Membership) (pk : ℕ) (lot : InventoryLot) (visibility : Option Visibility)
      (publish save_as_draft : Bool) {after : List InventoryLot}
      → m ≡ some member
      → find_first (has_lot_id pk) before ≡ some lot
      → set_visibility_and_status now lot member visibility publish save_as_draft before ≡ ok after
      → Request business m before after
  confirm :
      (now pk : ℕ) (lot : InventoryLot) {after : List InventoryLot}
      → find_first (has_lot_id pk) before ≡ some lot
      → confirm_lot_inventory now lot m before ≡ ok after
      → Request business m before after
  sell :
      (pk : ℕ) (lot : InventoryLot) {after : List InventoryLot}
      → find_first (has_lot_id pk) before ≡ some lot
      → mark_lot_sold lot m before ≡ ok after
      → Request business m before after
  hide :
      (pk : ℕ) (lot : InventoryLot) {after : List InventoryLot}
      → find_first (has_lot_id pk) before ≡ some lot
      → hide_lot lot m before ≡ ok after
      → Request business m before after
  archive :
      (now pk : ℕ) (lot : InventoryLot) {after : List InventoryLot}
      → find_first (has_lot_id pk) before ≡ some lot
      → archive_lot now lot m before ≡ ok after
      → Request business m before after

require-some :
    (m : Option Membership) (c : Capability) {member : Membership}
    → require m c ≡ ok member
    → m ≡ some member
unfolding require
require-some none c h = absurd (cc)
require-some (some who) c {member} h =
    let (g, h) = raise_if-eq-ok (lacks_capability (some who) c) may_not _ h in cc

pub unnegated : (b : Bool) → not b ≡ false → b ≡ true
unnegated true h = refl
unnegated false h = absurd (cc)

-- A service for a lot that got past its first guards: the lot is of the business of the member.
pub passed {ℓ} :
    {B : Type ℓ} (m : Option Membership) (c : Capability) (lot : InventoryLot)
    (rest : Membership → Result InventoryError B) {b : B}
    → (require m c >>= (λ member. check_lot lot member >> rest member)) ≡ ok b
    → (member : Membership) × (m ≡ some member)
      × (lot.business ≡ member.business)
      × (rest member ≡ ok b)
passed m c lot rest h =
    let (member, required, h) =
      >>=-eq-ok (require m c) (λ member. check_lot lot member >> rest member) h in
    let (own, h) =
      raise_if-eq-ok (not (lot.business == member.business)) foreign_lot (rest member) h in
    let same = unnegated (lot.business == member.business) own in
    (member, require-some m c required, ground arith, h)

pub create_draft_lot-Change :
    (uuid : ℕ) (code : Text) (business : ℕ) (m : Option Membership) (product : Product)
    (warehouse : Warehouse) (form : LotForm) (before : List InventoryLot)
    {after : List InventoryLot}
    → create_draft_lot uuid code business m product warehouse form before ≡ ok after
    → Change business before after
unfolding create_draft_lot
create_draft_lot-Change uuid code business m product warehouse form before h =
    let (member, required, h) = >>=-eq-ok (require m inventory_create) _ h in
    let (g, h) = raise_if-eq-ok (not (product.business == business)) foreign_product _ h in
    let (g, h) = raise_if-eq-ok (not (warehouse.business == business)) foreign_warehouse _ h in
    let (g, h) =
      raise_if-eq-ok (exists (has_lot_code business (or_text (strip form.lot_code) code)) before)
        duplicate_code _ h in
    let (g, h) =
      raise_if-eq-ok (is_neg (or_else form.available_sqm (pos 0))) negative_quantity _ h in
    create_lot-Change
      (draft_lot uuid business product warehouse (or_text (strip form.lot_code) code) form) before h

pub with_changes-Keeps : (c : LotChanges) → Keeps (with_changes c)
unfolding with_changes
with_changes-Keeps c = record { id = λ lot. refl; business = λ lot. refl; lot_code = λ lot. refl }

pub with_visibility-Keeps :
    (now : ℕ) (v : Visibility) (publish save_as_draft : Bool)
    → Keeps (with_visibility now v publish save_as_draft)
unfolding with_visibility
with_visibility-Keeps now v publish true = record {
  id = λ lot. refl;
  business = λ lot. refl;
  lot_code = λ lot. refl;
}
with_visibility-Keeps now v false false = record {
  id = λ lot. refl;
  business = λ lot. refl;
  lot_code = λ lot. refl;
}
with_visibility-Keeps now v true false = record {
  id = λ lot. refl;
  business = λ lot. refl;
  lot_code = λ lot. refl;
}
