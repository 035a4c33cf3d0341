-- ===== src/Pricing/Tiers.antt =====
-- apps/pricing/services.py: the prices of a lot for the tiers of colleagues and customers. An amount is
-- given in hundredths, which is what the forms send.
use sanga.Common.{
  ℕ, ◌^◌, ◌==◌, Bool, true, Option, none, some, List, [], ◌∷◌, ◌&&◌, not, ltb, leb, length,
  if◌then◌else◌, exists, find_first, update_where, has_key,
}
use sanga.Common.Int.{ℤ, pos, is_neg, magnitude}
use sanga.Common.Text.{Text, codes, or_text, text_eq}
use sanga.Common.Results.{Result, ok, err, ◌>>=◌, ◌>>◌, raise_if, or_raise}
use sanga.Pricing.{PriceUnit, per_sqm, PriceTier, LotPrice, is_inquiry_only}
use sanga.Pricing.Resolve.{b2b, b2c, in_texts}

-- The messages of `ValueError`, `PriceTier.DoesNotExist`, and the exceptions of the database.
pub data TierError : Type 0 where
  invalid_tier no_amount negative_amount does_not_exist integrity_error data_error : TierError

pub record Tariffs : Type 0 where
  pub tiers : List PriceTier
  pub prices : List LotPrice

abbrev pub has_tier_code : Text → PriceTier → Bool
has_tier_code code t = text_eq t.code code

-- `PriceTier.objects.get_or_create(code=code)`; `id` is the next number of the table.
abbrev pub get_or_create_tier : ℕ → Text → List PriceTier → List PriceTier
get_or_create_tier id code tiers =
    if exists (has_tier_code code) tiers
    then tiers
    else record { id = id; code = code; is_active = true } ∷ tiers

-- `ensure_default_tiers`
unfoldable pub ensure_default_tiers : ℕ → ℕ → List PriceTier → List PriceTier
ensure_default_tiers first second tiers =
    get_or_create_tier second b2c (get_or_create_tier first b2b tiers)

abbrev pub is_lot_price : ℕ → ℕ → LotPrice → Bool
is_lot_price lot tier p = p.lot == lot && p.tier == tier

abbrev pub price_id : LotPrice → ℕ
price_id p = p.id

-- The columns that `set_lot_price` writes.
pub record LotTerms : Type 0 where
  pub amount : ℤ
  pub currency : Text
  pub unit : PriceUnit

abbrev pub with_lot_terms : LotTerms → LotPrice → LotPrice
with_lot_terms t p = record p { amount = t.amount; currency = t.currency; unit = t.unit }

abbrev pub new_lot_price : ℕ → ℕ → ℕ → LotTerms → LotPrice
new_lot_price uuid lot tier t = record {
  id = uuid;
  lot = lot;
  tier = tier;
  amount = t.amount;
  currency = t.currency;
  unit = t.unit;
}

-- `LotPrice.objects.update_or_create(lot=lot, tier=tier, defaults=...)`
unfoldable pub write_lot_price :
    ℕ → ℕ → ℕ → LotTerms → List LotPrice → Result TierError (List LotPrice)
write_lot_price uuid lot tier t prices =
    if ltb (magnitude t.amount) (10 ^ 14) && leb (length t.currency) 3
    then elim (find_first (is_lot_price lot tier) prices) [
      | some p ↦ ok (update_where (has_key price_id p.id) (with_lot_terms t) prices)
      | none ↦
          if exists (has_key price_id uuid) prices
          then err integrity_error
          else ok (new_lot_price uuid lot tier t ∷ prices)
    ]
    else err data_error

-- The amount that is written.
unfoldable pub tier_amount : PriceUnit → Option ℤ → Result TierError ℤ
tier_amount unit none = if is_inquiry_only unit then ok (pos 0) else err no_amount
tier_amount unit (some a) =
    if is_inquiry_only unit then ok (pos 0) else if is_neg a then err negative_amount else ok a

-- `set_lot_price`, for the numbers that new tiers would get and the UUID of a new price.
unfoldable pub set_lot_price :
    (first second uuid : ℕ)
    → (lot : ℕ) → (tier_code : Text) → Option ℤ
    → (currency : Text) → PriceUnit
    → Tariffs
    → Result TierError Tariffs
set_lot_price first second uuid lot tier_code amount currency unit tables = do
  raise_if (not (in_texts tier_code (b2b ∷ b2c ∷ []))) invalid_tier
  tier ←
      or_raise
        (find_first (has_tier_code tier_code) (ensure_default_tiers first second tables.tiers))
        does_not_exist
  value ← tier_amount unit amount
  prices ←
      write_lot_price uuid lot tier.id
        (record { amount = value; currency = or_text currency (codes "IRR"); unit = unit })
        tables.prices
  ok (record { tiers = ensure_default_tiers first second tables.tiers; prices = prices })

-- A price that is given is set.
abbrev pub set_given :
    (first second uuid : ℕ)
    → (lot : ℕ) → (tier_code : Text) → Option ℤ
    → (currency : Text) → PriceUnit
    → Tariffs
    → Result TierError Tariffs
set_given first second uuid lot tier_code none currency unit tables = ok tables
set_given first second uuid lot tier_code (some a) currency unit tables =
    set_lot_price first second uuid lot tier_code (some a) currency unit tables

-- `set_lot_prices`
unfoldable pub set_lot_prices :
    (first second uuid uuid' : ℕ)
    → (lot : ℕ) → (b2b_amount b2c_amount : Option ℤ) → (currency : Text) → PriceUnit
    → Tariffs
    → Result TierError Tariffs
unfolding set_lot_price
set_lot_prices first second uuid uuid' lot b2b_amount b2c_amount currency unit tables = do
  tables ← set_given first second uuid lot b2b b2b_amount currency unit tables
  set_given first second uuid' lot b2c b2c_amount currency unit tables

-- The end of `duplicate_lot` (apps/inventory/services.py): the amounts of the lot for its copy, by the
-- first price of each tier; the unit is the default one.
unfoldable pub copy_prices :
    (first second uuid uuid' : ℕ)
    → (lot clone : ℕ) → (b2b_price b2c_price : Option LotPrice) → Tariffs
    → Result TierError Tariffs
unfolding set_lot_prices
copy_prices first second uuid uuid' lot clone none none tables = ok tables
copy_prices first second uuid uuid' lot clone (some p) none tables =
    set_lot_prices first second uuid uuid' clone (some p.amount) none p.currency per_sqm tables
copy_prices first second uuid uuid' lot clone none (some p) tables =
    set_lot_prices first second uuid uuid' clone none (some p.amount) p.currency per_sqm tables
copy_prices first second uuid uuid' lot clone (some p) (some p') tables =
    set_lot_prices first second uuid uuid' clone (some p.amount) (some p'.amount) p.currency per_sqm
      tables
