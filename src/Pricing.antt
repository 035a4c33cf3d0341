-- ===== src/Pricing.antt =====
-- apps/pricing: price tiers, the prices of a lot and the prices for one contact (models.py). Money
-- is in hundredths.
pub mod Resolve
pub mod Services
pub mod Disclosure
pub mod Override
pub mod Quoted
pub mod RoundTrip
pub mod Tiers
pub mod Tariff
mod TariffTests
mod Tests
use sanga.Common.{ℕ, Bool, true, false}
use sanga.Common.Int.{ℤ}
use sanga.Common.Text.{Text}

-- `LotPrice.Unit`
pub data PriceUnit : Type 0 where
  per_sqm per_slab inquiry_only : PriceUnit

abbrev pub is_inquiry_only : PriceUnit → Bool
is_inquiry_only inquiry_only = true
is_inquiry_only _ = false

pub record PriceTier : Type 0 where
  pub id : ℕ
  pub code : Text
  pub is_active : Bool

pub record LotPrice : Type 0 where
  pub id : ℕ
  pub lot : ℕ
  pub tier : ℕ
  pub amount : ℤ
  pub currency : Text
  pub unit : PriceUnit

pub record ContactPrice : Type 0 where
  pub id : ℕ
  pub contact : ℕ
  pub lot : ℕ
  pub amount : ℤ
  pub currency : Text
  pub unit : PriceUnit
  pub created_by : ℕ
