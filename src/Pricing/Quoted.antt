-- ===== src/Pricing/Quoted.antt =====
-- apps/pricing/services.py: what the guards of `set_contact_price` let through, and what it writes then.
use sanga.Common.{
  ℕ, ◌==◌, ◌≡◌, refl, ap, subst, inl, inr, true, false, Option, none, some, not, arith, Bool-cases,
}
use sanga.Common.Int.{ℤ, pos, is_pos}
use sanga.Common.Decimal.{
  DecimalInput, Quantized, hundredths, not_a_number, invalid_operation, quantize,
}
use sanga.Common.Text.{or_text, strip}
use sanga.Common.Results.{Result, ok, >>=-eq-ok, >>-eq-ok, raise_if-eq-ok, or_raise-eq-ok}
use sanga.Businesses.{Membership, lacks_capability}
use sanga.Businesses.Permissions.{prices_edit}
use sanga.Inventory.{InventoryLot}
use sanga.Contacts.{Contact}
use sanga.Pricing.{PriceUnit, per_sqm, per_slab, inquiry_only}
use sanga.Pricing.Services.{
  PricingError, may_not_edit, foreign_lot, invalid_unit, require_price_edit, check_ownership,
  override_amount, OverrideRequest, OverrideTerms, rial, check_override,
}

-- The amount that is stored for what was given: zero on inquiry, and else the amount in hundredths,
-- which is positive.
abbrev pub IsQuotedAmount : PriceUnit → DecimalInput → ℤ → Type 0
IsQuotedAmount inquiry_only value amount = amount ≡ pos 0
IsQuotedAmount _ value amount = (quantize value ≡ hundredths amount) × (is_pos amount ≡ true)

-- A member of the owner of the lot, and of the contact, asked for these terms and may edit prices.
pub record AreQuoted (q : OverrideRequest) (t : OverrideTerms) : Type 0 where
  pub member : Membership
  pub is_member : q.membership ≡ some member
  pub may_edit : lacks_capability q.membership prices_edit ≡ false
  pub of_lot : member.business ≡ q.lot.business
  pub of_contact : q.contact.business ≡ q.lot.business
  pub unit : q.unit ≡ some t.unit
  pub amount : IsQuotedAmount t.unit q.amount t.amount
  pub currency : t.currency ≡ or_text (strip (or_text q.currency rial)) rial
  pub user : t.user ≡ member.user

positive_of :
    (value : DecimalInput) (r : Quantized) {amount : ℤ}
    → quantize value ≡ r
    → override_amount per_sqm value ≡ ok amount
    → (r ≡ hundredths amount) × (is_pos amount ≡ true)
unfolding override_amount
positive_of value (hundredths a) {amount} is_r h = elim (Bool-cases (is_pos a)) [
  | inl above ↦
      let kept : ◌≡◌ {A = Result PricingError ℤ} (ok a) (ok amount) = rw (is_r, above) at h in
      let same : a ≡ amount = cc in (ap hundredths same, subst (λ x. is_pos x ≡ true) same above)
  | inr below ↦ absurd (let e = rw (is_r, below) at h in cc)
]
positive_of value not_a_number is_r h = absurd (let e = rw is_r at h in cc)
positive_of value invalid_operation is_r h = absurd (let e = rw is_r at h in cc)

override_amount-IsQuotedAmount :
    (unit : PriceUnit) (value : DecimalInput) {amount : ℤ}
    → override_amount unit value ≡ ok amount
    → IsQuotedAmount unit value amount
unfolding override_amount
override_amount-IsQuotedAmount inquiry_only value h = cc
override_amount-IsQuotedAmount per_sqm value h = positive_of value (quantize value) refl h
override_amount-IsQuotedAmount per_slab value h = positive_of value (quantize value) refl h

pub require_price_edit-some :
    (m : Option Membership) {member : Membership}
    → require_price_edit m ≡ ok member
    → (m ≡ some member) × (lacks_capability m prices_edit ≡ false)
unfolding require_price_edit
require_price_edit-some none h = absurd (cc)
require_price_edit-some (some who) {member} h =
    let (g, h) = raise_if-eq-ok (lacks_capability (some who) prices_edit) may_not_edit _ h in
    (cc, g)

same_number : (a b : ℕ) → not (a == b) ≡ false → a ≡ b
same_number a b h = elim (Bool-cases (a == b)) [
  | inl same ↦ ground arith
  | inr other ↦ absurd (ground arith)
]

check_ownership-same :
    (lot : InventoryLot) (contact : Contact) (m : Membership) {u : Unit {0}}
    → check_ownership lot contact m ≡ ok u
    → (m.business ≡ lot.business) × (contact.business ≡ lot.business)
unfolding check_ownership
check_ownership-same lot contact m h =
    let (mine, h) = raise_if-eq-ok (not (m.business == lot.business)) foreign_lot _ h in
    elim (Bool-cases (contact.business == lot.business)) [
      | inl same ↦ (same_number m.business lot.business mine, ground arith)
      | inr other ↦ absurd (ground arith)
    ]

pub check_override-AreQuoted :
    (q : OverrideRequest) {t : OverrideTerms} → check_override q ≡ ok t → AreQuoted q t
unfolding check_override
check_override-AreQuoted q {t} h =
    let (member, required, h) = >>=-eq-ok (require_price_edit q.membership) _ h in
    let (is_member, may) = require_price_edit-some q.membership required in
    let (owned, h) = >>-eq-ok (check_ownership q.lot q.contact member) _ h in
    let (of_lot, of_contact) = check_ownership-same q.lot q.contact member owned in
    let (unit, is_unit, h) = or_raise-eq-ok q.unit invalid_unit _ h in
    let (amount, checked, h) = >>=-eq-ok (override_amount unit q.amount) _ h in
    let same : OverrideTerms = record {
      amount = amount;
      currency = or_text (strip (or_text q.currency rial)) rial;
      unit = unit;
      user = member.user;
    } in
    let is_t : same ≡ t = cc in
    subst (AreQuoted q) is_t (record {
      member = member;
      is_member = is_member;
      may_edit = may;
      of_lot = of_lot;
      of_contact = of_contact;
      unit = is_unit;
      amount = override_amount-IsQuotedAmount unit q.amount checked;
      currency = refl;
      user = refl;
    })
