-- ===== src/Pricing/Services.antt =====
-- apps/pricing/services.py: setting and removing the price for one contact.
use sanga.Common.{
  ℕ, ◌^◌, ◌==◌, Bool, Option, none, some, List, ◌∷◌, ◌&&◌, not, ltb, leb, length, if◌then◌else◌,
  exists, where_, find_first, update_where,
}
use sanga.Common.Int.{ℤ, pos, is_pos, magnitude}
use sanga.Common.Decimal.{DecimalInput, quantize, hundredths, not_a_number, invalid_operation}
use sanga.Common.Text.{Text, codes, strip, or_text}
use sanga.Common.Results.{Result, ok, err, ◌>>=◌, ◌>>◌, raise_if, or_raise}
use sanga.Businesses.Permissions.{prices_edit}
use sanga.Businesses.{Membership, lacks_capability}
use sanga.Contacts.{Contact}
use sanga.Inventory.{InventoryLot}
use sanga.Pricing.{PriceUnit, ContactPrice, is_inquiry_only}

-- The messages of `PricingError`, and the exceptions of `decimal` and the database that pass through.
pub data PricingError : Type 0 where
  may_not_edit foreign_lot foreign_contact invalid_unit invalid_amount : PricingError
  amount_not_positive not_saved : PricingError
  decimal_invalid_operation data_error : PricingError

-- `_require_price_edit`, with the membership that passed.
unfoldable pub require_price_edit : Option Membership → Result PricingError Membership
unfolding lacks_capability
require_price_edit m = do
  raise_if (lacks_capability m prices_edit) may_not_edit
  or_raise m may_not_edit

-- `_check_ownership`
unfoldable pub check_ownership :
    InventoryLot → Contact → Membership → Result PricingError (Unit {0})
check_ownership lot contact m = do
  raise_if (not (m.business == lot.business)) foreign_lot
  raise_if (not (contact.business == lot.business)) foreign_contact

-- `_quantize_amount(amount)` and the test `amount <= 0`, unless the price is on inquiry only.
unfoldable pub override_amount : PriceUnit → DecimalInput → Result PricingError ℤ
override_amount unit value = if is_inquiry_only unit then ok (pos 0) else elim (quantize value) [
  | hundredths a ↦ if is_pos a then ok a else err amount_not_positive
  | not_a_number ↦ err decimal_invalid_operation
  | invalid_operation ↦ err invalid_amount
]

-- The arguments of `set_contact_price`; a `unit` of `none` is a text that is no unit.
pub record OverrideRequest : Type 0 where
  pub lot : InventoryLot
  pub contact : Contact
  pub membership : Option Membership
  pub amount : DecimalInput
  pub currency : Text
  pub unit : Option PriceUnit

abbrev pub rial : Text
rial = codes "IRR"

-- The row of a contact and a lot, of which `uniq_price_per_contact_lot` leaves one.
abbrev pub is_price_of : ℕ → ℕ → ContactPrice → Bool
is_price_of contact lot p = p.contact == contact && p.lot == lot

-- What `set_contact_price` writes.
pub record OverrideTerms : Type 0 where
  pub amount : ℤ
  pub currency : Text
  pub unit : PriceUnit
  pub user : ℕ

abbrev pub with_override_terms : OverrideTerms → ContactPrice → ContactPrice
with_override_terms t p = record p {
  amount = t.amount;
  currency = t.currency;
  unit = t.unit;
  created_by = t.user;
}

abbrev pub new_override : ℕ → ℕ → ℕ → OverrideTerms → ContactPrice
new_override uuid contact lot t = record {
  id = uuid;
  contact = contact;
  lot = lot;
  amount = t.amount;
  currency = t.currency;
  unit = t.unit;
  created_by = t.user;
}

abbrev pub terms_fit : OverrideTerms → Bool
terms_fit t = ltb (magnitude t.amount) (10 ^ 14) && leb (length t.currency) 3

-- `ContactPrice.objects.update_or_create(contact=..., lot=..., defaults=...)`; a clash of primary
-- keys is the `IntegrityError` that the service turns into its own.
unfoldable pub update_or_create :
    ℕ
    → (contact lot : ℕ) → OverrideTerms
    → List ContactPrice
    → Result PricingError (ContactPrice × List ContactPrice)
update_or_create uuid contact lot t rows =
    if terms_fit t
    then elim (find_first (is_price_of contact lot) rows) [
      | some p ↦ ok (
        with_override_terms t p,
        update_where (λ (r : ContactPrice). r.id == p.id) (with_override_terms t) rows,
      )
      | none ↦
          if exists (λ (r : ContactPrice). r.id == uuid) rows
          then err not_saved
          else ok (new_override uuid contact lot t, new_override uuid contact lot t ∷ rows)
    ]
    else err data_error

-- The guards of `set_contact_price`, and the values it writes.
unfoldable pub check_override : OverrideRequest → Result PricingError OverrideTerms
unfolding require_price_edit
check_override q = do
  m ← require_price_edit q.membership
  check_ownership q.lot q.contact m
  unit ← or_raise q.unit invalid_unit
  amount ← override_amount unit q.amount
  ok (record {
    amount = amount;
    currency = or_text (strip (or_text q.currency rial)) rial;
    unit = unit;
    user = m.user;
  })

-- `set_contact_price`
unfoldable pub set_contact_price :
    ℕ → OverrideRequest → List ContactPrice → Result PricingError (ContactPrice × List ContactPrice)
set_contact_price uuid q rows = do
  t ← check_override q
  update_or_create uuid q.contact.id q.lot.id t rows

-- `remove_contact_price`
unfoldable pub remove_contact_price :
    InventoryLot
    → Contact
    → Option Membership
    → List ContactPrice
    → Result PricingError (List ContactPrice)
unfolding require_price_edit
remove_contact_price lot contact membership rows = do
  m ← require_price_edit membership
  check_ownership lot contact m
  ok (where_ (λ (p : ContactPrice). not (is_price_of contact.id lot.id p)) rows)
