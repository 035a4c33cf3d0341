-- ===== src/Pricing/TariffTests.antt =====
-- The prices of a lot for its tiers, on small tables.
use sanga.Common.{ℕ, ◌≡◌, refl, true, some, none, List, [], ◌∷◌, find_first}
use sanga.Common.Int.{ℤ, pos, negsuc}
use sanga.Common.Text.{Text, codes}
use sanga.Common.Results.{ok, err}
use sanga.Pricing.{PriceUnit, PriceTier, LotPrice, per_sqm, inquiry_only}
use sanga.Pricing.Resolve.{b2b, b2c}
use sanga.Pricing.Tiers.{
  negative_amount, Tariffs, has_tier_code, ensure_default_tiers, write_lot_price, tier_amount,
  set_lot_price, set_lot_prices, copy_prices,
}
use sanga.Pricing.Tariff.{IsAmount, IsPriced, set_lot_price-IsPriced}

abbrev tier : ℕ → Text → PriceTier
tier i code = record { id = i; code = code; is_active = true }

abbrev tiers : List PriceTier
tiers = tier 2 b2c ∷ tier 1 b2b ∷ []

abbrev price : ℕ → ℕ → ℕ → ℤ → PriceUnit → LotPrice
price i lot tier amount unit = record {
  id = i;
  lot = lot;
  tier = tier;
  amount = amount;
  currency = codes "IRR";
  unit = unit;
}

abbrev before : Tariffs
before = record {
  tiers = [];
  prices = price 50 7 1 (pos 300) inquiry_only ∷ price 51 8 1 (pos 900) per_sqm ∷ [];
}

abbrev after : Tariffs
after = record {
  tiers = tiers;
  prices = price 50 7 1 (pos 400) per_sqm ∷ price 51 8 1 (pos 900) per_sqm ∷ [];
}

-- The tiers are made at the first price, and the unit is the default one.
set_again : set_lot_price 1 2 52 7 b2b (some (pos 400)) [] per_sqm before ≡ ok after
unfolding set_lot_price ensure_default_tiers write_lot_price tier_amount
set_again = refl

below_zero : set_lot_price 1 2 52 7 b2b (some (negsuc 3)) [] per_sqm before ≡ err negative_amount
unfolding set_lot_price ensure_default_tiers write_lot_price tier_amount
below_zero = refl

-- The copy of a lot on inquiry has a price of zero for each square metre.
copy_of_an_inquiry :
    copy_prices 1 2 53 54 7 9
      (some (price 50 7 1 (pos 0) inquiry_only))
      none
      (record { tiers = tiers; prices = [] })
    ≡ ok (record { tiers = tiers; prices = price 53 9 1 (pos 0) per_sqm ∷ [] })
unfolding copy_prices set_lot_prices set_lot_price ensure_default_tiers write_lot_price tier_amount
copy_of_an_inquiry = refl

set_lot_price-IsPriced_example :
    (t : PriceTier) × (value : ℤ) × (find_first (has_tier_code b2b) tiers ≡ some t)
    × IsAmount per_sqm (some (pos 400)) value
    × IsPriced 7 t.id
        (record { amount = value; currency = codes "IRR"; unit = per_sqm })
        before.prices
        after.prices
set_lot_price-IsPriced_example =
    set_lot_price-IsPriced 1 2 52 7 b2b (some (pos 400)) [] per_sqm before after (refl, (refl, tt))
      set_again
