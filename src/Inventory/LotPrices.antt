-- ===== src/Inventory/LotPrices.antt =====
-- `update_lot_prices` (apps/inventory/services.py).
use sanga.Common.{ℕ, Option}
use sanga.Common.Int.{ℤ}
use sanga.Common.Text.{Text}
use sanga.Common.Results.{Result, ok, err, ◌>>=◌, ◌>>◌}
use sanga.Businesses.{Membership}
use sanga.Businesses.Permissions.{prices_edit}
use sanga.Inventory.{InventoryLot}
use sanga.Inventory.Table.{InventoryError, require, check_lot}
use sanga.Pricing.{per_sqm}
use sanga.Pricing.Tiers.{TierError, Tariffs, set_lot_prices}

-- An `InventoryError` of the lot, or one with the message of the price.
pub data PriceError : Type 0 where
  of_lot : InventoryError → PriceError
  of_price : TierError → PriceError

abbrev pub lot_checked {ℓ} : {A : Type ℓ} → Result InventoryError A → Result PriceError A
lot_checked (ok a) = ok a
lot_checked (err e) = err (of_lot e)

abbrev pub price_checked {ℓ} : {A : Type ℓ} → Result TierError A → Result PriceError A
price_checked (ok a) = ok a
price_checked (err e) = err (of_price e)

unfoldable pub update_lot_prices :
    (first second uuid uuid' : ℕ)
    → InventoryLot
    → Option Membership
    → (b2b_amount b2c_amount : Option ℤ) → (currency : Text) → Tariffs
    → Result PriceError Tariffs
update_lot_prices first second uuid uuid' lot m b2b_amount b2c_amount currency tables = do
  member ← lot_checked (require m prices_edit)
  lot_checked (check_lot lot member)
  price_checked
      (set_lot_prices first second uuid uuid' lot.id b2b_amount b2c_amount currency per_sqm tables)
