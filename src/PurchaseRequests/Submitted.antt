-- ===== src/PurchaseRequests/Submitted.antt =====
-- The tables of offers and requests after `submit_private_offer`, row by row.
use sanga.Common.{
  ℕ, ◌≡◌, refl, ◌∙◌, inl, inr, true, false, some, List, [], ◌∷◌, ◌==◌, not, arith, if◌then◌else◌,
  exists, map, update_where, All, Bool-cases, Option-cases, find_first, find_first-none,
}
use sanga.Common.Results.{ok, >>=-eq-ok, >>-eq-ok, raise_if-eq-ok}
use sanga.Businesses.{Business}
use sanga.PurchaseRequests.{offered, PurchaseRequest, PurchaseOffer}
use sanga.PurchaseRequests.Tables.{
  Env, require_respond, require_active, get_business, buyer_inactive, seller_inactive, own_request,
  request_over,
}
use sanga.PurchaseRequests.Offers.{
  Quote, is_over, has_request_id, has_offer_id, is_open_offer, with_terms, new_offer, offer_fits,
  check_quote, write_offer,
}
use sanga.PurchaseRequests.Valid.{conflicts, IsPlaced, is_live, update_where-eq-map}

pub check_quote-open :
    (q : Quote) (rows : List Business) {b : Business}
    → check_quote q rows ≡ ok b
    → is_over q.request.status ≡ false
unfolding check_quote
check_quote-open q rows h =
    let (h₁, h₂) = raise_if-eq-ok (not (q.membership.business == q.seller.id)) _ _ h in
    let (h₃, h₄) = >>-eq-ok (require_respond q.membership) _ h₂ in
    let (h₅, h₆) = >>-eq-ok (require_active q.seller seller_inactive) _ h₄ in
    let (buyer, h₇, h₈) = >>=-eq-ok (get_business q.request.business rows) _ h₆ in
    let (h₉, h₁₀) = >>-eq-ok (require_active buyer buyer_inactive) _ h₈ in
    let (h₁₁, h₁₂) = raise_if-eq-ok (q.seller.id == q.request.business) own_request _ h₁₀ in
    (raise_if-eq-ok (is_over q.request.status) request_over _ h₁₂).0

-- The row of the seller's submitted offer `pk` with new terms; the other rows stay.
abbrev pub revised_row : Quote → ℕ → PurchaseOffer → PurchaseOffer
revised_row q pk o = if o.id == pk then with_terms q o else o

-- How the table of offers changes: terms of the submitted offer, or a new one.
pub data Written (env : Env) (q : Quote) (offers : List PurchaseOffer) (o' : PurchaseOffer)
    (offers' : List PurchaseOffer) : Type 0 where
  revised :
      (o : PurchaseOffer)
      → find_first (is_open_offer q.request.id q.seller.id) offers ≡ some o
      → o' ≡ with_terms q o
      → offers' ≡ map (revised_row q o.id) offers
      → Written env q offers o' offers'
  added :
      exists (is_open_offer q.request.id q.seller.id) offers ≡ false
      → exists (has_offer_id env.uuid) offers ≡ false
      → o' ≡ new_offer env q
      → offers' ≡ new_offer env q ∷ offers
      → Written env q offers o' offers'

pub write_offer-Written :
    (env : Env) (q : Quote) (offers : List PurchaseOffer) {o' : PurchaseOffer}
    {offers' : List PurchaseOffer}
    → write_offer env q offers ≡ ok (o', offers')
    → Written env q offers o' offers'
unfolding write_offer
write_offer-Written env q offers {o'} {offers'} h =
    elim (Option-cases (find_first (is_open_offer q.request.id q.seller.id) offers)) [
      | inl absent ↦ elim (Bool-cases (offer_fits (new_offer env q))) [
        | inl fits ↦ elim (Bool-cases (exists (has_offer_id env.uuid) offers)) [
          | inl taken ↦ absurd (ground arith)
          | inr free ↦ added (find_first-none _ offers absent) free (ground arith) (ground arith)
        ]
        | inr wide ↦ absurd (ground arith)
      ]
      | inr (o, found) ↦ elim (Bool-cases (offer_fits (with_terms q o))) [
        | inl fits ↦
            let after : offers' ≡ update_where (has_offer_id o.id) (with_terms q) offers =
              ground arith in
            revised o found (ground arith)
              (after ∙ update_where-eq-map (has_offer_id o.id) (with_terms q) offers)
        | inr wide ↦ absurd (ground arith)
      ]
    ]

pub revised_row-conflicts :
    (q : Quote) (pk : ℕ) (o f : PurchaseOffer)
    → conflicts o f ≡ false
    → conflicts (revised_row q pk o) (revised_row q pk f) ≡ false
revised_row-conflicts q pk o f h = elim (Bool-cases (o.id == pk)) [
  | inl here ↦ elim (Bool-cases (f.id == pk)) [ inl hit ↦ ground arith | inr miss ↦ ground arith ]
  | inr other ↦ elim (Bool-cases (f.id == pk)) [ inl hit ↦ ground arith | inr miss ↦ ground arith ]
]

pub IsPlaced-map-revised :
    (q : Quote) (pk : ℕ) (rows : List PurchaseRequest) (os : List PurchaseOffer)
    → All (IsPlaced rows) os
    → All (IsPlaced rows) (map (revised_row q pk) os)
IsPlaced-map-revised q pk rows [] a = tt
IsPlaced-map-revised q pk rows (o ∷ os) a =
    let rest = IsPlaced-map-revised q pk rows os a.1 in
    elim (Bool-cases (o.id == pk)) [ inl hit ↦ rw hit (a.0, rest) | inr miss ↦ rw miss (a.0, rest) ]

module _ (env : Env) (q : Quote) (rows : List PurchaseRequest)
    (live : exists (is_live q.request.id) rows ≡ true) where
  pub new_offer-conflicts :
      (os : List PurchaseOffer)
      → exists (is_open_offer q.request.id q.seller.id) os ≡ false
      → exists (has_offer_id env.uuid) os ≡ false
      → All (IsPlaced rows) os
      → exists (conflicts (new_offer env q)) os ≡ false
  new_offer-conflicts [] h k a = refl
  new_offer-conflicts (o ∷ os) h k a =
      let rest = new_offer-conflicts os (ground arith) (ground arith) a.1 in
      let (here, over) = a.0 in ground arith

-- The request `r` takes the status `offered`.
abbrev pub offered_rows : ℕ → List PurchaseRequest → List PurchaseRequest
offered_rows r =
    update_where (has_request_id r) (λ (row : PurchaseRequest). record row { status = offered })

pub exists-has_request_id-offered :
    (i r : ℕ) (rows : List PurchaseRequest)
    → exists (has_request_id i) (offered_rows r rows) ≡ exists (has_request_id i) rows
exists-has_request_id-offered i r [] = refl
exists-has_request_id-offered i r (x ∷ rows) =
    let rest = exists-has_request_id-offered i r rows in ground arith

exists-is_live-offered :
    (i r : ℕ) (rows : List PurchaseRequest)
    → (i == r) ≡ false
    → exists (is_live i) (offered_rows r rows) ≡ exists (is_live i) rows
exists-is_live-offered i r [] h = refl
exists-is_live-offered i r (x ∷ rows) h =
    let rest = exists-is_live-offered i r rows h in ground arith

-- A live request stays so, and takes offers.
pub All-IsPlaced-offered :
    (r : ℕ) (rows : List PurchaseRequest)
    → exists (is_live r) rows ≡ true
    → (os : List PurchaseOffer) → All (IsPlaced rows) os
    → All (IsPlaced (offered_rows r rows)) os
All-IsPlaced-offered r rows live [] a = tt
All-IsPlaced-offered r rows live (o ∷ os) a =
    let rest = All-IsPlaced-offered r rows live os a.1 in
    let here = exists-has_request_id-offered o.purchase_request r rows in
    let (there, over) = a.0 in
    elim (Bool-cases (o.purchase_request == r)) [
      | inl same ↦ ((ground arith, ground arith), rest)
      | inr other ↦
          let still = exists-is_live-offered o.purchase_request r rows other in
          ((ground arith, ground arith), rest)
    ]
