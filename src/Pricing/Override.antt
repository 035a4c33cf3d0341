-- ===== src/Pricing/Override.antt =====
-- apps/pricing/services.py: the price for one contact, in `resolve_contact_price` and `effective_price`.
use sanga.Common.{
  ℕ, ◌≡◌, refl, ◌∙◌, sym, ap, inl, inr, Bool, true, Option, none, some, List, [], ◌∷◌, arith,
  where_, find_first, find_first_sound, Bool-cases, Option-cases, refers_to,
}
use sanga.Common.Text.{Text, text_eq, text_eq_refl}
use sanga.Businesses.{Business}
use sanga.Inventory.{InventoryLot}
use sanga.Pricing.Resolve.{
  Audience, owner_staff, b2b_partner, b2c_public, platform_admin, b2b, contact_tier_code, PriceView,
  Prices, set_price, get_price, TieredPrice, resolve_visible_prices, Override, override_view,
  add_override, is_legitimate, is_queried, resolve_contact_price, resolve_prices_for_viewer,
  contact_price_row, effective_price,
}
use sanga.Pricing.Disclosure.{resolve_visible_prices_hides}

find_first-where_ :
    (lot : InventoryLot) (viewer : Business) (rows : List Override)
    → find_first (is_legitimate lot viewer) (where_ (is_queried viewer) rows)
      ≡ find_first (is_legitimate lot viewer) rows
find_first-where_ lot viewer [] = refl
find_first-where_ lot viewer (o ∷ rows) =
    let rest = find_first-where_ lot viewer rows in
    elim (Bool-cases (is_queried viewer o)) [ inl asked ↦ ground arith | inr other ↦ ground arith ]

-- The rows prefetched and the query give one override, if the same rows are behind them.
pub contact_price_row_prefetched :
    (lot : InventoryLot) (viewer : Business) (rows table : List Override)
    → contact_price_row lot viewer (some rows) table ≡ contact_price_row lot viewer none rows
unfolding contact_price_row
contact_price_row_prefetched lot viewer rows table = sym (find_first-where_ lot viewer rows)

get_price-set_price_same :
    (code : Text) (view : PriceView) (prices : Prices)
    → get_price code (set_price code view prices) ≡ some view
get_price-set_price_same code view [] = let same = text_eq_refl code in ground arith
get_price-set_price_same code view ((c, v) ∷ rest) = elim (Bool-cases (text_eq c code)) [
  | inl here ↦ ground arith
  | inr miss ↦ let more = get_price-set_price_same code view rest in ground arith
]

abbrev pub own_or : Option PriceView → Option PriceView → Option PriceView
own_or (some own) other = some own
own_or none other = other

first_of :
    (o : Option PriceView) (visible : Prices)
    → get_price contact_tier_code visible ≡ none
    → effective_price (add_override o visible) b2b_partner ≡ own_or o (get_price b2b visible)
unfolding effective_price
first_of none visible h = elim (Option-cases (get_price b2b visible)) [
  | inl absent ↦ ground arith
  | inr (v, found) ↦ ground arith
]
first_of (some view) visible h =
    let same = get_price-set_price_same contact_tier_code view visible in ground arith

-- A partner is shown the price for its own contact if there is one, and else the colleagues' price,
-- if that is visible.
pub effective_price_partner :
    (lot : InventoryLot) (rows : List TieredPrice) (viewer : Option Business) (can_view : Bool)
    (prefetched : Option (List Override)) (table : List Override)
    → effective_price
        (resolve_prices_for_viewer lot rows b2b_partner viewer can_view prefetched table)
        b2b_partner
      ≡ own_or
          (resolve_contact_price lot viewer b2b_partner prefetched table)
          (get_price b2b (resolve_visible_prices rows b2b_partner can_view))
unfolding resolve_prices_for_viewer
effective_price_partner lot rows viewer can_view prefetched table =
    first_of (resolve_contact_price lot viewer b2b_partner prefetched table)
      (resolve_visible_prices rows b2b_partner can_view)
      (resolve_visible_prices_hides rows b2b_partner can_view contact_tier_code refl)

-- The rows that the price is looked for in: those prefetched, or else the table.
abbrev pub rows_of : Option (List Override) → List Override → List Override
rows_of none table = table
rows_of (some rows) table = rows

-- The override that a viewer is given.
pub record IsOwn (lot : InventoryLot) (viewer : Option Business) (rows : List Override)
    (view : PriceView) : Type 0 where
  pub business : Business
  pub row : Override
  pub is_viewer : viewer ≡ some business
  pub is_row : find_first (is_legitimate lot business) rows ≡ some row
  pub linked : row.contact.linked_business ≡ some business.id
  pub of_owner : row.contact.business ≡ lot.business
  pub unarchived : row.contact.is_active ≡ true
  pub shown : view ≡ override_view row

view_of : Option Override → Option PriceView
view_of none = none
view_of (some o) = some (override_view o)

refers_to-eq : (o : Option ℕ) (n : ℕ) → refers_to o n ≡ true → o ≡ some n
refers_to-eq none n h = absurd (ground arith)
refers_to-eq (some m) n h = let same : m ≡ n = ground arith in ap some same

find_first-IsOwn :
    (lot : InventoryLot) (v : Business) (rows : List Override) (o : Option Override)
    {view : PriceView}
    → find_first (is_legitimate lot v) rows ≡ o
    → view_of o ≡ some view
    → IsOwn lot (some v) rows view
unfolding view_of
find_first-IsOwn lot v rows none found h = absurd (cc)
find_first-IsOwn lot v rows (some o) found h =
    let passed = find_first_sound (is_legitimate lot v) rows o found in
    record {
      business = v;
      row = o;
      is_viewer = refl;
      is_row = found;
      linked = refers_to-eq o.contact.linked_business v.id (ground arith);
      of_owner = ground arith;
      unarchived = ground arith;
      shown = cc;
    }

row-IsOwn :
    (lot : InventoryLot) (v : Business) (rows : List Override) {view : PriceView}
    → view_of (find_first (is_legitimate lot v) rows) ≡ some view
    → IsOwn lot (some v) rows view
unfolding view_of
row-IsOwn lot v rows h = elim (Option-cases (find_first (is_legitimate lot v) rows)) [
  | inl absent ↦ absurd (ground arith)
  | inr (o, found) ↦ find_first-IsOwn lot v rows (some o) found (ground arith)
]

contact_price_row-find_first :
    (lot : InventoryLot) (v : Business) (prefetched : Option (List Override))
    (table : List Override)
    → contact_price_row lot v prefetched table
      ≡ find_first (is_legitimate lot v) (rows_of prefetched table)
unfolding contact_price_row
contact_price_row-find_first lot v (some rows) table = refl
contact_price_row-find_first lot v none table = find_first-where_ lot v table

-- The view of a row that is found, as the code writes it out.
resolve_contact_price-view_of :
    (lot : InventoryLot) (v : Business) (prefetched : Option (List Override))
    (table : List Override)
    → resolve_contact_price lot (some v) b2b_partner prefetched table
      ≡ view_of (contact_price_row lot v prefetched table)
unfolding resolve_contact_price view_of
resolve_contact_price-view_of lot v prefetched table =
    elim (Option-cases (contact_price_row lot v prefetched table)) [
      | inl absent ↦ ground arith
      | inr (o, found) ↦ ground arith
    ]

-- A price for one contact is shown to a partner only, and is that of a row, prefetched or else in the
-- table, whose contact belongs to the owner of the lot, is not archived and is linked to the partner.
pub resolve_contact_price-IsOwn :
    (lot : InventoryLot) (viewer : Option Business) (a : Audience)
    (prefetched : Option (List Override)) (table : List Override) {view : PriceView}
    → resolve_contact_price lot viewer a prefetched table ≡ some view
    → (a ≡ b2b_partner) × IsOwn lot viewer (rows_of prefetched table) view
unfolding resolve_contact_price
resolve_contact_price-IsOwn lot none a prefetched table h = absurd (cc)
resolve_contact_price-IsOwn lot (some v) owner_staff prefetched table h = absurd (cc)
resolve_contact_price-IsOwn lot (some v) b2c_public prefetched table h = absurd (cc)
resolve_contact_price-IsOwn lot (some v) platform_admin prefetched table h = absurd (cc)
resolve_contact_price-IsOwn lot (some v) b2b_partner prefetched table h = (
  refl,
  row-IsOwn lot v (rows_of prefetched table) (
      ap view_of (sym (contact_price_row-find_first lot v prefetched table))
      ∙ (sym (resolve_contact_price-view_of lot v prefetched table) ∙ h)),
)
