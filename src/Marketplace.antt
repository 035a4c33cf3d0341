-- ===== src/Marketplace.antt =====
-- apps/marketplace: the lots that a business is shown of its colleagues (selectors.py), their prices and
-- saved searches (services.py). The searches for a text are left out, and saved searches come in the
-- table's order.
mod Storefront
mod Tests
use sanga.Common.{
  ℕ, ◌==◌, Bool, true, false, Option, none, some, List, [], ◌∷◌, ◌&&◌, ◌||◌, not, where_,
  find_first, exists, is_none, length, ltb, if◌then◌else◌,
}
use sanga.Common.Int.{ℤ}
use sanga.Common.Order.{by_flag, by_latest, by_latest_given, order_by}
use sanga.Common.Text.{Text, strip, text_eq}
use sanga.Common.Results.{Result, ok, err, ◌>>=◌, ◌>>◌, raise_if}
use sanga.Businesses.{Business, is_active_business}
use sanga.Inventory.{InventoryLot, Visibility, private}
use sanga.Pricing.{PriceUnit}
use sanga.Pricing.Resolve.{
  PriceView, TieredPrice, Override, Prices, b2b_partner, contact_tier_code,
  resolve_prices_for_viewer, effective_price,
}
use sanga.Catalog.Selectors.{is_on_offer}

abbrev pub is_shared : Visibility → Bool
is_shared private = false
is_shared _ = true

-- The join on the owning business.
abbrev pub owner_is_active : List Business → InventoryLot → Bool
owner_is_active businesses lot =
    exists (λ (b : Business). b.id == lot.business && is_active_business b) businesses

-- The filter of `marketplace_lots_for`.
abbrev pub is_offered_to : ℕ → List Business → InventoryLot → Bool
is_offered_to viewer businesses lot =
    owner_is_active businesses lot
    && (is_none lot.archived_at
        && (is_on_offer lot.status && (is_shared lot.visibility && not (lot.business == viewer))))

-- `order_by("-is_urgent_sale", "-inventory_confirmed_at", "-updated_at")`
abbrev pub is_listed_before : (updated_at : ℕ → ℕ) → InventoryLot → InventoryLot → Bool
is_listed_before updated_at a b = by_flag a.is_urgent_sale b.is_urgent_sale (
    by_latest_given a.inventory_confirmed_at b.inventory_confirmed_at
      (by_latest (updated_at a.id) (updated_at b.id) true))

-- `marketplace_lots_for`, where the database keeps the column `updated_at`, here by the lot's key.
unfoldable pub marketplace_lots_for :
    (ℕ → ℕ) → Option Business → List Business → List InventoryLot → List InventoryLot
marketplace_lots_for updated_at none businesses lots = []
marketplace_lots_for updated_at (some viewer) businesses lots =
    if is_active_business viewer
    then order_by (is_listed_before updated_at) (where_ (is_offered_to viewer.id businesses) lots)
    else []

-- `get_marketplace_lot`
unfoldable pub get_marketplace_lot :
    (ℕ → ℕ) → Option Business → ℕ → List Business → List InventoryLot → Option InventoryLot
unfolding marketplace_lots_for
get_marketplace_lot updated_at viewer pk businesses lots =
    find_first (λ (lot : InventoryLot). lot.id == pk)
      (marketplace_lots_for updated_at viewer businesses lots)

-- What a page shows as the price, without its label.
pub record PartnerPrice : Type 0 where
  pub has_price : Bool
  pub amount : Option ℤ
  pub currency : Option Text
  pub unit : Option PriceUnit
  pub is_partner_price : Bool

abbrev pub no_partner_price : PartnerPrice
no_partner_price = record {
  has_price = false;
  amount = none;
  currency = none;
  unit = none;
  is_partner_price = false;
}

abbrev pub b2b_context : Option PriceView → PartnerPrice
b2b_context none = no_partner_price
b2b_context (some v) =
    if v.display_as_inquiry || is_none v.amount then no_partner_price else record {
      has_price = true;
      amount = v.amount;
      currency = some v.currency;
      unit = some v.unit;
      is_partner_price = text_eq v.tier_code contact_tier_code;
    }

-- `b2b_price_context`, for the prices of the lot and its overrides.
unfoldable pub b2b_price_context :
    InventoryLot
    → List TieredPrice
    → Option Business
    → (prefetched : Option (List Override)) (table : List Override) → PartnerPrice
b2b_price_context lot rows viewer prefetched table = b2b_context (
    effective_price (resolve_prices_for_viewer lot rows b2b_partner viewer true prefetched table)
      b2b_partner)

-- The search that is saved: `SavedSearch`, its query as an opaque text.
pub record SavedSearch : Type 0 where
  pub id : ℕ
  pub business : ℕ
  pub user : ℕ
  pub name : Text
  pub query : Text
  pub notify_enabled : Bool

-- `MarketplaceError`, and the exceptions of the database.
pub data MarketplaceError : Type 0 where
  name_too_short data_error integrity_error : MarketplaceError

abbrev pub new_search : (uuid business user : ℕ) (name query : Text) → Bool → SavedSearch
new_search uuid business user name query notify_enabled = record {
  id = uuid;
  business = business;
  user = user;
  name = name;
  query = query;
  notify_enabled = notify_enabled;
}

-- `save_search`
unfoldable pub save_search :
    (uuid business user : ℕ) (name query : Text) (notify_enabled : Bool)
    → List SavedSearch
    → Result MarketplaceError (List SavedSearch)
save_search uuid business user name query notify_enabled rows = do
  raise_if (ltb (length (strip name)) 2) name_too_short
  raise_if (ltb 150 (length (strip name))) data_error
  raise_if (exists (λ (s : SavedSearch). s.id == uuid) rows) integrity_error
  ok (new_search uuid business user (strip name) query notify_enabled ∷ rows)

-- `saved_searches_for`
unfoldable pub saved_searches_for : ℕ → ℕ → List SavedSearch → List SavedSearch
saved_searches_for business user =
    where_ (λ (s : SavedSearch). s.business == business && s.user == user)
