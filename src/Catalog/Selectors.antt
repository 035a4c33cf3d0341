-- ===== src/Catalog/Selectors.antt =====
-- apps/catalog/selectors.py and the price that a customer is shown (services.py): the storefront of a
-- business. The searches for a text are left out.
use sanga.Common.{
  ℕ, zero, suc, ◌==◌, Bool, true, false, Option, none, some, List, [], ◌∷◌, ◌&&◌, ◌||◌, not, where_,
  find_first, is_none, leb, if◌then◌else◌,
}
use sanga.Common.Int.{ℤ}
use sanga.Common.Order.{by_flag, by_latest, order_by}
use sanga.Common.Text.{Text, text_eq}
use sanga.Inventory.{
  InventoryLot, LotStatus, available, needs_confirmation, partially_sold, Visibility, public,
  Product,
}
use sanga.Pricing.{PriceUnit}
use sanga.Pricing.Resolve.{
  PriceView, TieredPrice, b2c, b2c_public, get_price, resolve_visible_prices,
}
use sanga.Catalog.{CustomCatalog, CustomCatalogItem, is_publicly_accessible}
use sanga.Catalog.Services.{is_item_of}

-- The states of a lot that is on offer.
abbrev pub is_on_offer : LotStatus → Bool
is_on_offer available = true
is_on_offer needs_confirmation = true
is_on_offer partially_sold = true
is_on_offer _ = false

abbrev pub is_public : Visibility → Bool
is_public public = true
is_public _ = false

-- The filter of `public_catalog_lots`.
abbrev pub is_in_storefront : ℕ → InventoryLot → Bool
is_in_storefront business lot =
    lot.business == business
    && (is_none lot.archived_at && (is_on_offer lot.status && is_public lot.visibility))

-- `order_by("-is_urgent_sale", "-updated_at")`
abbrev pub is_shown_before : (updated_at : ℕ → ℕ) → InventoryLot → InventoryLot → Bool
is_shown_before updated_at a b =
    by_flag a.is_urgent_sale b.is_urgent_sale (by_latest (updated_at a.id) (updated_at b.id) true)

-- `public_catalog_lots`, where the database keeps the column `updated_at`, here by the lot's key.
unfoldable pub public_catalog_lots : (ℕ → ℕ) → ℕ → List InventoryLot → List InventoryLot
public_catalog_lots updated_at business lots =
    order_by (is_shown_before updated_at) (where_ (is_in_storefront business) lots)

-- `get_public_lot`
unfoldable pub get_public_lot : (ℕ → ℕ) → ℕ → ℕ → List InventoryLot → Option InventoryLot
unfolding public_catalog_lots
get_public_lot updated_at business pk lots =
    find_first (λ (lot : InventoryLot). lot.id == pk) (public_catalog_lots updated_at business lots)

abbrev pub take_first {ℓ} : {A : Type ℓ} → ℕ → List A → List A
take_first zero xs = []
take_first (suc n) [] = []
take_first (suc n) (x ∷ xs) = x ∷ take_first n xs

-- Another lot of the product, its kind of stone or its colour; the products are joined to the lots.
abbrev pub is_related : (ℕ → Product) → InventoryLot → InventoryLot → Bool
is_related product_of lot other =
    not (other.id == lot.id)
    && (other.product == lot.product
        || (text_eq (product_of other.product).stone_type (product_of lot.product).stone_type
            || text_eq (product_of other.product).primary_color
                (product_of lot.product).primary_color))

-- `related_public_lots`
unfoldable pub related_public_lots :
    (ℕ → ℕ) → (ℕ → Product) → InventoryLot → ℕ → List InventoryLot → List InventoryLot
unfolding public_catalog_lots
related_public_lots updated_at product_of lot limit lots =
    take_first limit
      (where_ (is_related product_of lot) (public_catalog_lots updated_at lot.business lots))

-- `order_by("sort_order")`
abbrev pub is_sorted_before : CustomCatalogItem → CustomCatalogItem → Bool
is_sorted_before a b = leb a.sort_order b.sort_order

-- `get_shareable_catalog`, at the time `now`: the catalog with its items.
unfoldable pub get_shareable_catalog :
    ℕ
    → Text
    → List CustomCatalog
    → List CustomCatalogItem
    → Option (CustomCatalog × List CustomCatalogItem)
get_shareable_catalog now token catalogs items =
    elim (find_first (λ (c : CustomCatalog). text_eq c.share_token token) catalogs) [
      | none ↦ none
      | some c ↦
          if is_publicly_accessible now c
          then some (c, order_by is_sorted_before (where_ (is_item_of c.id) items))
          else none
    ]

-- What a page shows as the price, without its label.
pub record PriceContext : Type 0 where
  pub has_price : Bool
  pub amount : Option ℤ
  pub currency : Option Text
  pub unit : Option PriceUnit

abbrev pub no_price : PriceContext
no_price = record { has_price = false; amount = none; currency = none; unit = none }

abbrev pub b2c_context : Option PriceView → PriceContext
b2c_context none = no_price
b2c_context (some v) = record {
  has_price = not (v.display_as_inquiry || is_none v.amount);
  amount = if v.display_as_inquiry then none else v.amount;
  currency = some v.currency;
  unit = some v.unit;
}

-- `b2c_price_context`, for the prices of the lot.
unfoldable pub b2c_price_context : List TieredPrice → PriceContext
b2c_price_context rows = b2c_context (get_price b2c (resolve_visible_prices rows b2c_public true))
