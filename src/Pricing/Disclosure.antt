-- ===== src/Pricing/Disclosure.antt =====
-- apps/pricing/services.py: which prices a viewer is given, against who may see what.
use sanga.Common.{
  ◌≡◌, refl, ◌∙◌, ap, inl, inr, Bool, true, false, Option, none, some, List, [], ◌∷◌, ◌||◌, arith,
  exists, where_, Bool-cases,
}
use sanga.Common.Text.{Text, text_eq, text_eq-eq}
use sanga.Businesses.{Business}
use sanga.Inventory.{InventoryLot}
use sanga.Pricing.Resolve.{
  Audience, owner_staff, b2b_partner, b2c_public, platform_admin, b2b, b2c, contact_tier_code,
  PriceView, Prices, set_price, get_price, TieredPrice, price_view, is_candidate, collect_prices,
  in_texts, allowed_tiers_for_audience, resolve_visible_prices, Override, resolve_contact_price,
  resolve_prices_for_viewer, is_override_audience, add_override,
}

-- Who may be shown what: an audience its own tiers, and a partner also a price of its own.
abbrev pub may_see : Audience → Text → Bool
may_see owner_staff code = text_eq code b2b || text_eq code b2c
may_see b2b_partner code = text_eq code b2b || text_eq code contact_tier_code
may_see b2c_public code = text_eq code b2c
may_see platform_admin code = text_eq code b2b || text_eq code b2c

abbrev pub is_some : Option PriceView → Bool
is_some none = false
is_some (some v) = true

-- A key that is set is the one set, or was there.
pub get_price-set_price :
    (code k : Text) (view : PriceView) (prices : Prices)
    → text_eq k code ≡ false
    → get_price code (set_price k view prices) ≡ get_price code prices
get_price-set_price code k view [] h = ground arith
get_price-set_price code k view ((c, v) ∷ rest) h = elim (Bool-cases (text_eq c k)) [
  | inl here ↦ let same = text_eq-eq c k here in ground arith
  | inr miss ↦ let more = get_price-set_price code k view rest h in ground arith
]

abbrev has_code : Text → TieredPrice → Bool
has_code code p = text_eq p.tier.code code

collect_prices-other :
    (code : Text) (ps : List TieredPrice) (result : Prices)
    → exists (has_code code) ps ≡ false
    → get_price code (collect_prices ps result) ≡ get_price code result
collect_prices-other code [] result h = refl
collect_prices-other code (p ∷ ps) result h =
    collect_prices-other code ps
      (set_price p.tier.code (price_view p.tier.code p.price.amount p.price.currency p.price.unit)
        result)
      (ground arith)
    ∙ get_price-set_price code p.tier.code
        (price_view p.tier.code p.price.amount p.price.currency p.price.unit) result (ground arith)

no_candidate :
    (a : Audience) (code : Text) (rows : List TieredPrice)
    → in_texts code (allowed_tiers_for_audience a) ≡ false
    → exists (has_code code) (where_ (is_candidate a) rows) ≡ false
no_candidate a code [] h = refl
no_candidate a code (p ∷ rows) h =
    let rest = no_candidate a code rows h in
    elim (Bool-cases (is_candidate a p)) [
      | inr out ↦ rw out rest
      | inl candidate ↦ rw candidate (elim (Bool-cases (text_eq p.tier.code code)) [
        | inl same ↦
            let equal = text_eq-eq p.tier.code code same in
            let allowed : in_texts p.tier.code (allowed_tiers_for_audience a) ≡ true =
              ground arith in
            (let equal_in = ap (λ t. in_texts t (allowed_tiers_for_audience a)) equal in
              absurd (ground arith))
        | inr other ↦ rw other rest
      ])
    ]

-- A price of a tier that is not the audience's own is not among the visible ones.
pub resolve_visible_prices_hides :
    (rows : List TieredPrice) (a : Audience) (can_view : Bool) (code : Text)
    → in_texts code (allowed_tiers_for_audience a) ≡ false
    → get_price code (resolve_visible_prices rows a can_view) ≡ none
unfolding resolve_visible_prices
resolve_visible_prices_hides rows owner_staff false code h = refl
resolve_visible_prices_hides rows owner_staff true code h =
    collect_prices-other code (where_ (is_candidate owner_staff) rows) []
      (no_candidate owner_staff code rows h)
resolve_visible_prices_hides rows b2b_partner can_view code h =
    collect_prices-other code (where_ (is_candidate b2b_partner) rows) []
      (no_candidate b2b_partner code rows h)
resolve_visible_prices_hides rows b2c_public can_view code h =
    collect_prices-other code (where_ (is_candidate b2c_public) rows) []
      (no_candidate b2c_public code rows h)
resolve_visible_prices_hides rows platform_admin can_view code h =
    collect_prices-other code (where_ (is_candidate platform_admin) rows) []
      (no_candidate platform_admin code rows h)

not_allowed :
    (a : Audience) (code : Text)
    → may_see a code ≡ false
    → in_texts code (allowed_tiers_for_audience a) ≡ false
not_allowed owner_staff code h = ground arith
not_allowed b2b_partner code h = ground arith
not_allowed b2c_public code h = ground arith
not_allowed platform_admin code h = ground arith

resolve_contact_price-none :
    (lot : InventoryLot) (viewer : Option Business) (a : Audience)
    (prefetched : Option (List Override)) (table : List Override)
    → is_override_audience a ≡ false
    → resolve_contact_price lot viewer a prefetched table ≡ none
unfolding resolve_contact_price
resolve_contact_price-none lot none a prefetched table h = refl
resolve_contact_price-none lot (some v) owner_staff prefetched table h = refl
resolve_contact_price-none lot (some v) b2c_public prefetched table h = refl
resolve_contact_price-none lot (some v) platform_admin prefetched table h = refl
resolve_contact_price-none lot (some v) b2b_partner prefetched table h = absurd (ground arith)

add_override_hides :
    (a : Audience) (code : Text) (o : Option PriceView) (visible : Prices)
    → may_see a code ≡ false
    → (is_override_audience a ≡ false → o ≡ none)
    → get_price code visible ≡ none
    → get_price code (add_override o visible) ≡ none
add_override_hides a code none visible h only shut = shut
add_override_hides b2b_partner code (some view) visible h only shut =
    get_price-set_price code contact_tier_code view visible (ground arith) ∙ shut
add_override_hides owner_staff code (some view) visible h only shut =
    absurd (let e = only refl in cc)
add_override_hides b2c_public code (some view) visible h only shut =
    absurd (let e = only refl in cc)
add_override_hides platform_admin code (some view) visible h only shut =
    absurd (let e = only refl in cc)

-- The prices that a viewer is given hold none under a code that its audience may not see: the
-- public sees the consumer price only, and a price for one contact is for partners only.
pub resolve_prices_for_viewer_hides :
    (lot : InventoryLot) (rows : List TieredPrice) (a : Audience) (viewer : Option Business)
    (can_view : Bool) (prefetched : Option (List Override)) (table : List Override) (code : Text)
    → may_see a code ≡ false
    → get_price code (resolve_prices_for_viewer lot rows a viewer can_view prefetched table) ≡ none
unfolding resolve_prices_for_viewer
resolve_prices_for_viewer_hides lot rows a viewer can_view prefetched table code h =
    add_override_hides a code (resolve_contact_price lot viewer a prefetched table)
      (resolve_visible_prices rows a can_view) h
      (resolve_contact_price-none lot viewer a prefetched table)
      (resolve_visible_prices_hides rows a can_view code (not_allowed a code h))
