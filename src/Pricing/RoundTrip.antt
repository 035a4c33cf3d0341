-- ===== src/Pricing/RoundTrip.antt =====
-- apps/pricing/services.py: the price for one contact after `set_contact_price` and `remove_contact_price`.
use sanga.Common.{
  ℕ, ◌≡◌, refl, ◌∙◌, inl, inr, Bool, true, false, Option, none, some, List, [], ◌∷◌, ◌&&◌, ◌==◌,
  not, arith, exists, where_, find_first, find_first-none, update_where, Bool-cases, Option-cases,
  subst,
}
use sanga.Common.Results.{ok, >>=-eq-ok, >>-eq-ok}
use sanga.Businesses.{Membership}
use sanga.Contacts.{Contact}
use sanga.Inventory.{InventoryLot}
use sanga.Pricing.{ContactPrice}
use sanga.Pricing.Quoted.{AreQuoted, check_override-AreQuoted}
use sanga.Pricing.Services.{
  require_price_edit, check_ownership, OverrideRequest, OverrideTerms, is_price_of,
  with_override_terms, new_override, terms_fit, update_or_create, check_override, set_contact_price,
  remove_contact_price,
}

abbrev pub has_price_id : ℕ → ContactPrice → Bool
has_price_id i p = p.id == i

-- Primary keys differ, and so do the pairs of a contact and a lot (`uniq_price_per_contact_lot`).
abbrev pub IsUnique : List ContactPrice → Type 0
IsUnique [] = Unit
IsUnique (p ∷ ps) =
    (exists (has_price_id p.id) ps ≡ false)
    × (exists (is_price_of p.contact p.lot) ps ≡ false)
    × IsUnique ps

-- How a row is written: the one found with new terms, or a new one in front.
pub data Saved (uuid contact lot : ℕ) (t : OverrideTerms) (rows : List ContactPrice)
    (p' : ContactPrice) (rows' : List ContactPrice) : Type 0 where
  updated :
      (p : ContactPrice)
      → find_first (is_price_of contact lot) rows ≡ some p
      → p' ≡ with_override_terms t p
      → rows' ≡ update_where (has_price_id p.id) (with_override_terms t) rows
      → Saved uuid contact lot t rows p' rows'
  inserted :
      exists (is_price_of contact lot) rows ≡ false
      → exists (has_price_id uuid) rows ≡ false
      → p' ≡ new_override uuid contact lot t
      → rows' ≡ new_override uuid contact lot t ∷ rows
      → Saved uuid contact lot t rows p' rows'

update_or_create-Saved :
    (uuid contact lot : ℕ) (t : OverrideTerms) (rows : List ContactPrice) {p' : ContactPrice}
    {rows' : List ContactPrice}
    → update_or_create uuid contact lot t rows ≡ ok (p', rows')
    → Saved uuid contact lot t rows p' rows'
unfolding update_or_create
update_or_create-Saved uuid contact lot t rows h = elim (Bool-cases (terms_fit t)) [
  | inr wide ↦ absurd (ground arith)
  | inl fits ↦ elim (Option-cases (find_first (is_price_of contact lot) rows)) [
    | inr (p, found) ↦ updated p found (ground arith) (ground arith)
    | inl absent ↦ elim (Bool-cases (exists (has_price_id uuid) rows)) [
      | inl taken ↦ absurd (ground arith)
      | inr free ↦
          inserted (find_first-none (is_price_of contact lot) rows absent) free (ground arith)
            (ground arith)
    ]
  ]
]

module _ (t : OverrideTerms) (i : ℕ) where
  abbrev revised : List ContactPrice → List ContactPrice
  revised = update_where (has_price_id i) (with_override_terms t)

  exists-has_price_id-revised :
      (j : ℕ) (ps : List ContactPrice)
      → exists (has_price_id j) (revised ps) ≡ exists (has_price_id j) ps
  exists-has_price_id-revised j [] = refl
  exists-has_price_id-revised j (p ∷ ps) =
      let rest = exists-has_price_id-revised j ps in
      elim (Bool-cases (p.id == i)) [ inl hit ↦ ground arith | inr miss ↦ ground arith ]

  exists-is_price_of-revised :
      (c l : ℕ) (ps : List ContactPrice)
      → exists (is_price_of c l) (revised ps) ≡ exists (is_price_of c l) ps
  exists-is_price_of-revised c l [] = refl
  exists-is_price_of-revised c l (p ∷ ps) =
      let rest = exists-is_price_of-revised c l ps in
      elim (Bool-cases (p.id == i)) [ inl hit ↦ ground arith | inr miss ↦ ground arith ]

  IsUnique-revised : (ps : List ContactPrice) → IsUnique ps → IsUnique (revised ps)
  IsUnique-revised [] v = tt
  IsUnique-revised (p ∷ ps) v =
      let ids = exists-has_price_id-revised p.id ps in
      let pairs = exists-is_price_of-revised p.contact p.lot ps in
      let rest = IsUnique-revised ps v.2 in
      elim (Bool-cases (p.id == i)) [
        | inl hit ↦ rw hit (ids ∙ v.0, pairs ∙ v.1, rest)
        | inr miss ↦ rw miss (ids ∙ v.0, pairs ∙ v.1, rest)
      ]

-- The row found is the one that changes.
find_first-revised :
    (t : OverrideTerms) (c l : ℕ) (ps : List ContactPrice) (p : ContactPrice)
    → find_first (is_price_of c l) ps ≡ some p
    → find_first (is_price_of c l) (revised t p.id ps) ≡ some (with_override_terms t p)
find_first-revised t c l [] p h = absurd (ground arith)
find_first-revised t c l (x ∷ ps) p h = elim (Bool-cases (is_price_of c l x)) [
  | inl here ↦
      let same : x ≡ p = ground arith in
      subst
        (λ (y : ContactPrice).
          find_first (is_price_of c l) (revised t y.id (x ∷ ps)) ≡ some (with_override_terms t y))
        same (ground arith)
  | inr miss ↦
      let rest = find_first-revised t c l ps p (ground arith) in
      elim (Bool-cases (x.id == p.id)) [ inl hit ↦ ground arith | inr other ↦ ground arith ]
]

found_exists :
    (c l : ℕ) (ps : List ContactPrice) (p : ContactPrice)
    → find_first (is_price_of c l) ps ≡ some p
    → exists (has_price_id p.id) ps ≡ true
found_exists c l [] p h = absurd (ground arith)
found_exists c l (x ∷ ps) p h = elim (Bool-cases (is_price_of c l x)) [
  | inl here ↦ let same : x ≡ p = ground arith in ground arith
  | inr miss ↦ let rest = found_exists c l ps p (ground arith) in ground arith
]

revised_absent :
    (t : OverrideTerms) (i : ℕ) (ps : List ContactPrice)
    → exists (has_price_id i) ps ≡ false
    → revised t i ps ≡ ps
revised_absent t i [] h = refl
revised_absent t i (p ∷ ps) h = let rest = revised_absent t i ps (ground arith) in ground arith

-- The prices of other contacts and lots stay.
find_first-revised_other :
    (t : OverrideTerms) (c l c' l' : ℕ) (ps : List ContactPrice) (p : ContactPrice)
    → find_first (is_price_of c l) ps ≡ some p
    → IsUnique ps
    → (c == c' && l == l') ≡ false
    → find_first (is_price_of c' l') (revised t p.id ps) ≡ find_first (is_price_of c' l') ps
find_first-revised_other t c l c' l' [] p h v d = refl
find_first-revised_other t c l c' l' (x ∷ ps) p h v d = elim (Bool-cases (is_price_of c l x)) [
  | inl here ↦
      let same : x ≡ p = ground arith in
      let gone = revised_absent t x.id ps v.0 in
      subst
        (λ (y : ContactPrice).
          find_first (is_price_of c' l') (revised t y.id (x ∷ ps))
          ≡ find_first (is_price_of c' l') (x ∷ ps))
        same (ground arith)
  | inr miss ↦
      let found : find_first (is_price_of c l) ps ≡ some p = ground arith in
      let there = found_exists c l ps p found in
      let rest = find_first-revised_other t c l c' l' ps p found v.2 d in
      elim (Bool-cases (x.id == p.id)) [
        | inl hit ↦
            let equal : x.id ≡ p.id = ground arith in
            let none_left : exists (has_price_id p.id) ps ≡ false =
              subst (λ i. exists (has_price_id i) ps ≡ false) equal v.0 in
            absurd (ground arith)
        | inr other ↦ ground arith
      ]
]

find_first-removed :
    (c l : ℕ) (ps : List ContactPrice)
    → find_first (is_price_of c l) (where_ (λ (p : ContactPrice). not (is_price_of c l p)) ps)
      ≡ none
find_first-removed c l [] = refl
find_first-removed c l (p ∷ ps) =
    let rest = find_first-removed c l ps in
    elim (Bool-cases (is_price_of c l p)) [ inl here ↦ ground arith | inr other ↦ ground arith ]

find_first-removed_other :
    (c l c' l' : ℕ) (ps : List ContactPrice)
    → (c == c' && l == l') ≡ false
    → find_first (is_price_of c' l') (where_ (λ (p : ContactPrice). not (is_price_of c l p)) ps)
      ≡ find_first (is_price_of c' l') ps
find_first-removed_other c l c' l' [] d = refl
find_first-removed_other c l c' l' (p ∷ ps) d =
    let rest = find_first-removed_other c l c' l' ps d in
    elim (Bool-cases (is_price_of c l p)) [ inl here ↦ ground arith | inr other ↦ ground arith ]

set_contact_price-Saved :
    (uuid : ℕ) (q : OverrideRequest) (rows : List ContactPrice) {p : ContactPrice}
    {rows' : List ContactPrice}
    → set_contact_price uuid q rows ≡ ok (p, rows')
    → (t : OverrideTerms) × (check_override q ≡ ok t)
      × Saved uuid q.contact.id q.lot.id t rows p rows'
unfolding set_contact_price
set_contact_price-Saved uuid q rows h =
    let (t, h₁, h₂) = >>=-eq-ok (check_override q) _ h in
    (t, h₁, update_or_create-Saved uuid q.contact.id q.lot.id t rows h₂)

-- A successful `set_contact_price` leaves one price per contact and lot, the price found for its
-- contact and lot is the one it returns, with the unit that was given, the amount (zero on inquiry, else
-- the one given in hundredths, which is positive), the currency (or the default one) and the user of
-- the member, who belongs to the owner of the lot and of the contact and may edit prices; the prices for
-- other contacts and lots are the same as before.
pub set_contact_price_found :
    (uuid : ℕ) (q : OverrideRequest) (rows : List ContactPrice) {p : ContactPrice}
    {rows' : List ContactPrice}
    → IsUnique rows
    → set_contact_price uuid q rows ≡ ok (p, rows')
    → IsUnique rows'
      × (find_first (is_price_of q.contact.id q.lot.id) rows' ≡ some p)
      × ((t : OverrideTerms) × AreQuoted q t
          × (p.amount ≡ t.amount)
          × (p.currency ≡ t.currency)
          × (p.unit ≡ t.unit)
          × (p.created_by ≡ t.user))
      × ((c l : ℕ)
          → (q.contact.id == c && q.lot.id == l) ≡ false
          → find_first (is_price_of c l) rows' ≡ find_first (is_price_of c l) rows)
set_contact_price_found uuid q rows v h =
    let (t, accepted, saved) = set_contact_price-Saved uuid q rows h in
    elim saved [
      | updated old found same after ↦
          rw (after, same)
            (
              IsUnique-revised t old.id rows v,
              find_first-revised t q.contact.id q.lot.id rows old found,
              (t, check_override-AreQuoted q accepted, refl, refl, refl, refl),
              λ c l d. find_first-revised_other t q.contact.id q.lot.id c l rows old found v d,
            )
      | inserted absent fresh same after ↦
          rw (after, same)
            (
              (fresh, absent, v),
              ground arith,
              (t, check_override-AreQuoted q accepted, refl, refl, refl, refl),
              λ c l d. ground arith,
            )
    ]

-- A successful `remove_contact_price` leaves no price for its contact and lot, and the prices for
-- other contacts and lots are the same as before.
pub remove_contact_price_gone :
    (lot : InventoryLot) (contact : Contact) (m : Option Membership) (rows : List ContactPrice)
    {rows' : List ContactPrice}
    → remove_contact_price lot contact m rows ≡ ok rows'
    → (find_first (is_price_of contact.id lot.id) rows' ≡ none)
      × ((c l : ℕ)
          → (contact.id == c && lot.id == l) ≡ false
          → find_first (is_price_of c l) rows' ≡ find_first (is_price_of c l) rows)
unfolding remove_contact_price
remove_contact_price_gone lot contact m rows {rows'} h =
    let (who, h₁, h₂) = >>=-eq-ok (require_price_edit m) _ h in
    let (h₃, h₄) = >>-eq-ok (check_ownership lot contact who) _ h₂ in
    let after : rows' ≡ where_ (λ (p : ContactPrice). not (is_price_of contact.id lot.id p)) rows =
      cc in
    rw after (
      find_first-removed contact.id lot.id rows,
      λ c l d. find_first-removed_other contact.id lot.id c l rows d,
    )
