-- ===== src/Inventory/Products.antt =====
-- `create_or_get_product` (apps/inventory/services.py), with `Product.save` (models.py); `slugify` is a
-- library's. An identifier that is given is a text that is not empty.
use sanga.Common.{
  ℕ, ◌==◌, Bool, true, Option, none, some, List, ◌∷◌, ◌&&◌, not, leb, ltb, map, where_, length,
  exists, find_first,
}
use sanga.Common.Text.{Text, codes, strip}
use sanga.Common.Results.{Result, ok, ◌>>=◌, ◌>>◌, raise_if, or_raise}
use sanga.Slug.{new_slug}
use sanga.Businesses.{Membership}
use sanga.Businesses.Permissions.{inventory_create}
use sanga.Inventory.{Product}
use sanga.Inventory.Table.{
  InventoryError, product_not_found, name_too_short, integrity_error, data_error, endless_loop,
  require,
}

-- The arguments of `create_or_get_product` that describe a new product.
pub record ProductForm : Type 0 where
  pub commercial_name : Text
  pub stone_type : Text
  pub primary_color : Text
  pub quarry_region : Text

abbrev pub is_own_product : ℕ → Product → Bool
is_own_product business p = p.business == business

-- The row that is inserted, for its slug.
abbrev pub new_product : ℕ → ℕ → ProductForm → Text → Product
new_product uuid business form slug = record {
  id = uuid;
  business = business;
  commercial_name = strip form.commercial_name;
  slug = slug;
  stone_type = strip form.stone_type;
  quarry_region = strip form.quarry_region;
  primary_color = strip form.primary_color;
  is_active = true;
}

abbrev pub fits_product : Product → Bool
fits_product p =
    leb (length p.commercial_name) 200
    && leb (length p.slug) 220
    && leb (length p.stone_type) 100
    && leb (length p.quarry_region) 150
    && leb (length p.primary_color) 100

-- `Product.objects.create(...)`
unfoldable pub create_product :
    (Text → Text)
    → ℕ
    → ℕ
    → ProductForm
    → List Product
    → Result InventoryError (Product × List Product)
create_product slugify uuid business form rows = do
  slug ←
      or_raise
        (new_slug (slugify (strip form.commercial_name)) (codes "product")
          (map (λ (p : Product). p.slug) (where_ (is_own_product business) rows)))
        endless_loop
  raise_if (not (fits_product (new_product uuid business form slug))) data_error
  raise_if (exists (λ (p : Product). p.id == uuid) rows) integrity_error
  ok (new_product uuid business form slug, new_product uuid business form slug ∷ rows)

-- The product of an identifier that is given, or a new one.
unfoldable pub get_or_create :
    (Text → Text)
    → ℕ
    → ℕ
    → ProductForm
    → Option ℕ
    → List Product
    → Result InventoryError (Product × List Product)
unfolding create_product
get_or_create slugify uuid business form (some pk) rows = do
  p ←
      or_raise
        (find_first (λ (p : Product). p.id == pk && (is_own_product business p && p.is_active))
          rows)
        product_not_found
  ok (p, rows)
get_or_create slugify uuid business form none rows = do
  raise_if (ltb (length (strip form.commercial_name)) 2) name_too_short
  create_product slugify uuid business form rows

-- `create_or_get_product`
unfoldable pub create_or_get_product :
    (Text → Text)
    → ℕ
    → ℕ
    → Option Membership
    → ProductForm
    → Option ℕ
    → List Product
    → Result InventoryError (Product × List Product)
unfolding get_or_create
create_or_get_product slugify uuid business m form product_id rows = do
  member ← require m inventory_create
  get_or_create slugify uuid business form product_id rows
