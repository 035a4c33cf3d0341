-- ===== src/Pricing/Resolve.antt =====
-- apps/pricing/services.py: which prices of a lot a viewer is shown. A `dict` of prices is a list of
-- keys and values, with the key set first in front.
use sanga.Common.{
  ◌==◌, Bool, true, false, Option, none, some, List, [], ◌∷◌, ◌&&◌, ◌||◌, if◌then◌else◌, where_,
  find_first, refers_to,
}
use sanga.Common.Int.{ℤ}
use sanga.Common.Text.{Text, codes, text_eq}
use sanga.Contacts.{Contact}
use sanga.Inventory.{InventoryLot}
use sanga.Businesses.{Business}
use sanga.Pricing.{PriceUnit, PriceTier, LotPrice, ContactPrice, is_inquiry_only}

-- `Audience`
pub data Audience : Type 0 where
  owner_staff b2b_partner b2c_public platform_admin : Audience

abbrev pub b2b : Text
b2b = codes "b2b"

abbrev pub b2c : Text
b2c = codes "b2c"

-- `CONTACT_TIER_CODE`
abbrev pub contact_tier_code : Text
contact_tier_code = codes "contact"

pub record PriceView : Type 0 where
  pub tier_code : Text
  pub amount : Option ℤ
  pub currency : Text
  pub unit : PriceUnit
  pub display_as_inquiry : Bool

-- `_AUDIENCE_TIERS`
abbrev pub allowed_tiers_for_audience : Audience → List Text
allowed_tiers_for_audience owner_staff = b2b ∷ b2c ∷ []
allowed_tiers_for_audience b2b_partner = b2b ∷ []
allowed_tiers_for_audience b2c_public = b2c ∷ []
allowed_tiers_for_audience platform_admin = b2b ∷ b2c ∷ []

-- `_OVERRIDE_AUDIENCES`
abbrev pub is_override_audience : Audience → Bool
is_override_audience b2b_partner = true
is_override_audience _ = false

-- `_FALLBACK_ORDER`
abbrev pub fallback_order : Audience → List Text
fallback_order owner_staff = b2b ∷ b2c ∷ []
fallback_order b2b_partner = contact_tier_code ∷ b2b ∷ []
fallback_order b2c_public = b2c ∷ []
fallback_order platform_admin = b2b ∷ b2c ∷ []

abbrev pub in_texts : Text → List Text → Bool
in_texts t [] = false
in_texts t (s ∷ ss) = text_eq t s || in_texts t ss

abbrev pub Prices : Type 0
Prices = List (Text × PriceView)

-- `prices[code] = view`
abbrev pub set_price : Text → PriceView → Prices → Prices
set_price code view [] = (code, view) ∷ []
set_price code view ((c, v) ∷ rest) =
    let more = set_price code view rest in
    if text_eq c code then (c, view) ∷ rest else (c, v) ∷ more

-- `prices.get(code)`
abbrev pub get_price : Text → Prices → Option PriceView
get_price code [] = none
get_price code ((c, v) ∷ rest) =
    let more = get_price code rest in if text_eq c code then some v else more

-- A price of a lot with its tier.
pub record TieredPrice : Type 0 where
  pub price : LotPrice
  pub tier : PriceTier

abbrev pub price_view : Text → ℤ → Text → PriceUnit → PriceView
price_view code amount currency unit = record {
  tier_code = code;
  amount = if is_inquiry_only unit then none else some amount;
  currency = currency;
  unit = unit;
  display_as_inquiry = is_inquiry_only unit;
}

abbrev pub is_candidate : Audience → TieredPrice → Bool
is_candidate audience p =
    in_texts p.tier.code (allowed_tiers_for_audience audience) && p.tier.is_active

-- The loop over the candidates.
abbrev pub collect_prices : List TieredPrice → Prices → Prices
collect_prices [] result = result
collect_prices (p ∷ ps) result = collect_prices ps (
    set_price p.tier.code (price_view p.tier.code p.price.amount p.price.currency p.price.unit)
      result)

-- `resolve_visible_prices`, for the rows of the lot: those prefetched, or those of the table. Both
-- are filtered by the same condition.
unfoldable pub resolve_visible_prices : List TieredPrice → Audience → Bool → Prices
resolve_visible_prices rows owner_staff false = []
resolve_visible_prices rows audience can_view_prices =
    collect_prices (where_ (is_candidate audience) rows) []

-- A price for one contact, with that contact.
pub record Override : Type 0 where
  pub price : ContactPrice
  pub contact : Contact

-- The two facts that make an override legitimate, and that the contact is not archived.
abbrev pub is_legitimate : InventoryLot → Business → Override → Bool
is_legitimate lot viewer o =
    refers_to o.contact.linked_business viewer.id
    && (o.contact.business == lot.business && o.contact.is_active)

-- The filter of the query that is made if the rows are not prefetched.
abbrev pub is_queried : Business → Override → Bool
is_queried viewer o = refers_to o.contact.linked_business viewer.id && o.contact.is_active

-- `_contact_price_row`, for the rows prefetched, if they are, and those of the table.
unfoldable pub contact_price_row :
    InventoryLot
    → Business
    → (prefetched : Option (List Override)) (table : List Override) → Option Override
contact_price_row lot viewer (some rows) table = find_first (is_legitimate lot viewer) rows
contact_price_row lot viewer none table =
    find_first (is_legitimate lot viewer) (where_ (is_queried viewer) table)

abbrev pub override_view : Override → PriceView
override_view o = price_view contact_tier_code o.price.amount o.price.currency o.price.unit

-- `resolve_contact_price`; an anonymous viewer has no business.
unfoldable pub resolve_contact_price :
    InventoryLot
    → Option Business
    → Audience
    → (prefetched : Option (List Override)) (table : List Override) → Option PriceView
unfolding contact_price_row
resolve_contact_price lot none audience prefetched table = none
resolve_contact_price lot (some viewer) audience prefetched table =
    let row = contact_price_row lot viewer prefetched table in
    elim (is_override_audience audience) [
      | false ↦ none
      | true ↦ elim row [ none ↦ none | some o ↦ some (override_view o) ]
    ]

abbrev pub add_override : Option PriceView → Prices → Prices
add_override none visible = visible
add_override (some override) visible = set_price contact_tier_code override visible

-- `resolve_prices_for_viewer`
unfoldable pub resolve_prices_for_viewer :
    InventoryLot
    → List TieredPrice
    → Audience
    → Option Business
    → Bool
    → (prefetched : Option (List Override)) (table : List Override) → Prices
resolve_prices_for_viewer lot rows audience viewer can_view_prices prefetched table =
    add_override (resolve_contact_price lot viewer audience prefetched table)
      (resolve_visible_prices rows audience can_view_prices)

-- The first of the codes that has a price.
abbrev pub first_price : List Text → Prices → Option PriceView
first_price [] prices = none
first_price (c ∷ cs) prices =
    let rest = first_price cs prices in
    elim (get_price c prices) [ some view ↦ some view | none ↦ rest ]

-- `effective_price`
unfoldable pub effective_price : Prices → Audience → Option PriceView
effective_price prices audience = first_price (fallback_order audience) prices
