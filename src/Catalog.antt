-- ===== src/Catalog.antt =====
-- apps/catalog: the catalogs that a business shares with a customer (models.py), and the storefront
-- (selectors.py). A time is a number of seconds.
pub mod Services
pub mod Selectors
pub mod Items
pub mod Owned
mod Tests
use sanga.Common.{ℕ, Bool, false, Option, none, some, ◌&&◌, not, leb}
use sanga.Common.Text.{Text}

-- `CustomCatalog`
pub record CustomCatalog : Type 0 where
  pub id : ℕ
  pub business : ℕ
  pub title : Text
  pub customer_name : Text
  pub custom_message : Text
  pub share_token : Text
  pub expires_at : Option ℕ
  pub is_active : Bool
  pub view_count : ℕ
  pub first_viewed_at : Option ℕ
  pub last_viewed_at : Option ℕ

-- `CustomCatalogItem`, without its key.
pub record CustomCatalogItem : Type 0 where
  pub catalog : ℕ
  pub lot : ℕ
  pub sort_order : ℕ
  pub note : Text

-- `CustomCatalog.is_expired` and `is_publicly_accessible`, at the time `now`.
abbrev pub is_expired : ℕ → CustomCatalog → Bool
is_expired now c = elim c.expires_at [ none ↦ false | some at ↦ leb at now ]

abbrev pub is_publicly_accessible : ℕ → CustomCatalog → Bool
is_publicly_accessible now c = c.is_active && not (is_expired now c)
