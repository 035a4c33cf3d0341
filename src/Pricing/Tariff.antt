-- ===== src/Pricing/Tariff.antt =====
-- The prices of the lots after `set_lot_price` (apps/pricing/services.py).
use sanga.Common.{
  ℕ, ◌^◌, ◌==◌, ◌≡◌, refl, ◌∙◌, ap, subst, inl, inr, Bool, true, false, Option, none, if◌then◌else◌,
  some, List, [], ◌∷◌, ◌&&◌, not, ltb, leb, length, exists, find_first, update_where, where_,
  has_key, AreKeyed, IsOnly, AreKeyed-IsOnly, arith, All, All-map, Bool-cases, Option-cases,
  ==_refl, find_first_sound, find_first-All,
}
use sanga.Common.Int.{ℤ, pos, magnitude, is_neg}
use sanga.Common.Text.{Text, codes, or_text}
use sanga.Common.Results.{Result, ok, err, >>=-eq-ok, raise_if-eq-ok, or_raise-eq-ok}
use sanga.Pricing.{PriceUnit, per_sqm, per_slab, inquiry_only, PriceTier, LotPrice}
use sanga.Pricing.Resolve.{b2b, b2c, in_texts}
use sanga.Pricing.Tiers.{
  invalid_tier, does_not_exist, negative_amount, TierError, Tariffs, has_tier_code,
  ensure_default_tiers, is_lot_price, price_id, LotTerms, with_lot_terms, new_lot_price,
  write_lot_price, tier_amount, set_lot_price,
}

abbrev pub is_for_other : ℕ → LotPrice → Bool
is_for_other lot p = not (p.lot == lot)

-- What is found after an update of the row that was found.
find_first-update :
    (lot tier : ℕ) (t : LotTerms) (prices : List LotPrice) (p : LotPrice)
    → find_first (is_lot_price lot tier) prices ≡ some p
    → find_first
        (is_lot_price lot tier)
        (update_where (has_key price_id p.id) (with_lot_terms t) prices)
      ≡ some (with_lot_terms t p)
find_first-update lot tier t [] p h = absurd (cc)
find_first-update lot tier t (x ∷ xs) p h = elim (Bool-cases (is_lot_price lot tier x)) [
  | inl here ↦
      let found : some x ≡ some p = rw here at h in
      let same : x ≡ p = cc in
      let keyed : (x.id == p.id) ≡ true =
        subst (λ (y : LotPrice). (x.id == y.id) ≡ true) same (==_refl x.id) in
      rw (keyed, here) (ap (λ y. some (with_lot_terms t y)) same)
  | inr miss ↦
      let found : find_first (is_lot_price lot tier) xs ≡ some p = rw miss at h in
      let rest = find_first-update lot tier t xs p found in
      elim (Bool-cases (x.id == p.id)) [
        | inl hit ↦ rw (hit, miss) rest
        | inr other ↦ rw (other, miss) rest
      ]
]

where_-update_own :
    (lot i : ℕ) (t : LotTerms) (prices : List LotPrice)
    → All (λ (x : LotPrice). (x.id == i) ≡ true → x.lot ≡ lot) prices
    → where_ (is_for_other lot) (update_where (has_key price_id i) (with_lot_terms t) prices)
      ≡ where_ (is_for_other lot) prices
where_-update_own lot i t [] own = refl
where_-update_own lot i t (x ∷ xs) own =
    let rest = where_-update_own lot i t xs own.1 in
    elim (Bool-cases (x.id == i)) [
      | inl hit ↦ rw (hit, own.0 hit, ==_refl lot) rest
      | inr miss ↦ rw (miss, rest) refl
    ]

-- The price of a lot and a tier in the table, and the prices of the other lots.
abbrev pub IsPriced : ℕ → ℕ → LotTerms → List LotPrice → List LotPrice → Type 0
IsPriced lot tier t before after =
    ((p : LotPrice) × (find_first (is_lot_price lot tier) after ≡ some p)
      × (p.amount ≡ t.amount)
      × (p.currency ≡ t.currency)
      × (p.unit ≡ t.unit))
    × (where_ (is_for_other lot) after ≡ where_ (is_for_other lot) before)

write_lot_price-IsPriced :
    (uuid lot tier : ℕ) (t : LotTerms) (before after : List LotPrice)
    → AreKeyed price_id before
    → write_lot_price uuid lot tier t before ≡ ok after
    → IsPriced lot tier t before after
unfolding write_lot_price
write_lot_price-IsPriced uuid lot tier t before after keyed h =
    elim (Bool-cases (ltb (magnitude t.amount) (10 ^ 14) && leb (length t.currency) 3)) [
      | inr wide ↦ absurd (let e = rw (write_lot_price, wide) at h in cc)
      | inl fits ↦ elim (Option-cases (find_first (is_lot_price lot tier) before)) [
        | inr (p, found) ↦
            let own = find_first_sound (is_lot_price lot tier) before p found in
            let only =
              find_first-All (IsOnly price_id before) (is_lot_price lot tier) before p
                (AreKeyed-IsOnly price_id before keyed) found in
            let lots =
              All-map {Q = λ (x : LotPrice). (x.id == p.id) ≡ true → x.lot ≡ lot}
                (λ x same hit. ap (λ (y : LotPrice). y.lot) (same hit) ∙ ground arith) before
                only in
            let written : update_where (has_key price_id p.id) (with_lot_terms t) before ≡ after =
              let e = rw (write_lot_price, fits, found) at h in cc in
            subst (IsPriced lot tier t before) written (
              (with_lot_terms t p, find_first-update lot tier t before p found, refl, refl, refl),
              where_-update_own lot p.id t before lots,
            )
        | inl absent ↦ elim (Bool-cases (exists (has_key price_id uuid) before)) [
          | inl taken ↦ absurd (let e = rw (write_lot_price, fits, absent, taken) at h in cc)
          | inr free ↦
              let written : (new_lot_price uuid lot tier t ∷ before) ≡ after =
                let e = rw (write_lot_price, fits, absent, free) at h in cc in
              subst (IsPriced lot tier t before) written (
                (
                  new_lot_price uuid lot tier t,
                  rw (==_refl lot, ==_refl tier) refl,
                  refl,
                  refl,
                  refl,
                ),
                rw (==_refl lot) refl,
              )
        ]
      ]
    ]

-- What is stored for an amount: zero on inquiry, and else the amount, which is not negative.
abbrev pub IsAmount : PriceUnit → Option ℤ → ℤ → Type 0
IsAmount inquiry_only amount value = value ≡ pos 0
IsAmount _ amount value = (amount ≡ some value) × (is_neg value ≡ false)

stored_amount :
    (a : ℤ) {value : ℤ}
    → ◌≡◌ {A = Result TierError ℤ} (if is_neg a then err negative_amount else ok a) (ok value)
    → (some a ≡ some value) × (is_neg value ≡ false)
stored_amount a {value} h = elim (Bool-cases (is_neg a)) [
  | inl below ↦ absurd (let e = rw below at h in cc)
  | inr above ↦
      let kept : ◌≡◌ {A = Result TierError ℤ} (ok a) (ok value) = rw above at h in
      let same : a ≡ value = cc in (ap some same, subst (λ x. is_neg x ≡ false) same above)
]

tier_amount-IsAmount :
    (unit : PriceUnit) (amount : Option ℤ) {value : ℤ}
    → tier_amount unit amount ≡ ok value
    → IsAmount unit amount value
unfolding tier_amount
tier_amount-IsAmount inquiry_only none h = cc
tier_amount-IsAmount inquiry_only (some a) h = cc
tier_amount-IsAmount per_sqm none h = absurd (cc)
tier_amount-IsAmount per_sqm (some a) h = stored_amount a h
tier_amount-IsAmount per_slab none h = absurd (cc)
tier_amount-IsAmount per_slab (some a) h = stored_amount a h

-- In a table of prices whose keys differ, when `set_lot_price` has returned, the tier is there, the price
-- found for the lot and the tier has the amount that was given, which is not negative (or zero, if the
-- price is on inquiry), the currency that was given (or the default one) and the unit, and the prices
-- of all other lots are as they were.
pub set_lot_price-IsPriced :
    (first second uuid lot : ℕ) (tier_code : Text) (amount : Option ℤ) (currency : Text)
    (unit : PriceUnit) (before after : Tariffs)
    → AreKeyed price_id before.prices
    → set_lot_price first second uuid lot tier_code amount currency unit before ≡ ok after
    → (tier : PriceTier) × (value : ℤ) × (find_first (has_tier_code tier_code) after.tiers
        ≡ some tier)
      × IsAmount unit amount value
      × IsPriced lot tier.id
          (record { amount = value; currency = or_text currency (codes "IRR"); unit = unit })
          before.prices
          after.prices
unfolding set_lot_price
set_lot_price-IsPriced first second uuid lot tier_code amount currency unit before after keyed h =
    let (g, h) = raise_if-eq-ok (not (in_texts tier_code (b2b ∷ b2c ∷ []))) invalid_tier _ h in
    let tiers = ensure_default_tiers first second before.tiers in
    let (tier, found, h) =
      or_raise-eq-ok (find_first (has_tier_code tier_code) tiers) does_not_exist _ h in
    let (value, checked, h) = >>=-eq-ok (tier_amount unit amount) _ h in
    let terms : LotTerms = record {
      amount = value;
      currency = or_text currency (codes "IRR");
      unit = unit;
    } in
    let (prices, written, h) =
      >>=-eq-ok (write_lot_price uuid lot tier.id terms before.prices) _ h in
    let set = write_lot_price-IsPriced uuid lot tier.id terms before.prices prices keyed written in
    let same : ◌≡◌ {A = Tariffs} (record { tiers = tiers; prices = prices }) after = cc in
    (
      tier,
      value,
      subst (λ (x : Tariffs). find_first (has_tier_code tier_code) x.tiers ≡ some tier) same found,
      tier_amount-IsAmount unit amount checked,
      subst (λ (x : Tariffs). IsPriced lot tier.id terms before.prices x.prices) same set,
    )
