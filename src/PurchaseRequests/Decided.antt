-- ===== src/PurchaseRequests/Decided.antt =====
-- The tables of offers and requests after a decision, row by row.
use sanga.Common.{
  ℕ, ◌≡◌, refl, ◌∙◌, ap, inl, inr, Bool, true, false, some, List, [], ◌∷◌, ◌&&◌, ◌==◌, not, arith,
  if◌then◌else◌, exists, map, update_where, All, Bool-cases, subst, find_first,
}
use sanga.PurchaseRequests.{submitted, PurchaseRequest, PurchaseOffer, RequestStatus}
use sanga.PurchaseRequests.Offers.{is_over, has_request_id, has_offer_id}
use sanga.PurchaseRequests.Decide.{is_rival, decided, ended, settle_offers, reject_rivals}
use sanga.PurchaseRequests.Valid.{conflicts, IsExclusive, is_live, update_where-eq-map}

-- A row of the table after a decision on the offer `pk` of the request `r`.
abbrev pub decided_row : Bool → ℕ → ℕ → PurchaseOffer → PurchaseOffer
decided_row accept r pk o =
    if o.id == pk
    then decided accept o
    else if accept && is_rival r pk o
    then decided false o
    else o

-- The row decided on, if it is this one, was submitted on that request.
abbrev pub IsTarget : ℕ → ℕ → PurchaseOffer → Type 0
IsTarget r pk o = (o.id == pk) ≡ true → (o.purchase_request ≡ r) × (o.status ≡ submitted)

module _ (accept : Bool) (r pk : ℕ) where
  pub decided_row-conflicts :
      (o f : PurchaseOffer)
      → IsTarget r pk o
      → IsTarget r pk f
      → conflicts o f ≡ false
      → conflicts (decided_row accept r pk o) (decided_row accept r pk f) ≡ false
  decided_row-conflicts o f p q h = elim (Bool-cases (o.id == pk)) [
    | inl here ↦ let (same, unsettled) = p here in ground arith
    | inr miss ↦ elim (Bool-cases (f.id == pk)) [
      | inl here ↦ let (same, unsettled) = q here in ground arith
      | inr other ↦ ground arith
    ]
  ]

pub settle_offers-eq-map :
    (accept : Bool) (r pk : ℕ) (os : List PurchaseOffer)
    → settle_offers accept r pk (update_where (has_offer_id pk) (decided accept) os)
      ≡ map (decided_row accept r pk) os
unfolding settle_offers reject_rivals
settle_offers-eq-map true r pk [] = refl
settle_offers-eq-map true r pk (o ∷ os) = elim (Bool-cases (o.id == pk)) [
  | inl here ↦ rw (here, settle_offers-eq-map true r pk os) (ground arith)
  | inr miss ↦ rw (miss, settle_offers-eq-map true r pk os) (ground arith)
]
settle_offers-eq-map false r pk os = update_where-eq-map (has_offer_id pk) (decided false) os

no_other :
    (r : ℕ) (o : PurchaseOffer) (os : List PurchaseOffer)
    → exists (conflicts o) os ≡ false
    → All (IsTarget r o.id) os
no_other r o [] h = tt
no_other r o (f ∷ os) h = (λ same. absurd (ground arith), no_other r o os (ground arith))

-- The offer that was read is the only row of its key.
pub find_first-IsTarget :
    (o : PurchaseOffer) (os : List PurchaseOffer)
    → find_first (has_offer_id o.id) os ≡ some o
    → o.status ≡ submitted
    → IsExclusive os
    → All (IsTarget o.purchase_request o.id) os
find_first-IsTarget o [] h s v = tt
find_first-IsTarget o (f ∷ os) h s v = elim (Bool-cases (f.id == o.id)) [
  | inl here ↦
      let same : f ≡ o = ground arith in
      (
        λ hit. (
          ap (λ (x : PurchaseOffer). x.purchase_request) same,
          ap (λ (x : PurchaseOffer). x.status) same ∙ s,
        ),
        subst (λ (x : PurchaseOffer). All (IsTarget o.purchase_request x.id) os) same
            (no_other o.purchase_request f os v.0),
      )
  | inr miss ↦ (λ hit. absurd (ground arith), find_first-IsTarget o os (ground arith) s v.1)
]

-- A table of requests in which the rows of one are over.
pub exists-has_request_id-ended :
    (i r now : ℕ) (s : RequestStatus) (rows : List PurchaseRequest)
    → exists (has_request_id i) (update_where (has_request_id r) (ended now s) rows)
      ≡ exists (has_request_id i) rows
exists-has_request_id-ended i r now s [] = refl
exists-has_request_id-ended i r now s (x ∷ rows) =
    let rest = exists-has_request_id-ended i r now s rows in ground arith

pub exists-is_live-ended :
    (i r now : ℕ) (s : RequestStatus) (rows : List PurchaseRequest)
    → is_over s ≡ true
    → exists (is_live i) (update_where (has_request_id r) (ended now s) rows)
      ≡ (not (i == r) && exists (is_live i) rows)
exists-is_live-ended i r now s [] h = ground arith
exists-is_live-ended i r now s (x ∷ rows) h =
    let rest = exists-is_live-ended i r now s rows h in ground arith
