-- ===== src/PurchaseRequests/Submission.antt =====
-- `submit_private_offer` as a whole: the tables after it, and the offers of its seller.
use sanga.Common.{
  ℕ, ◌≡◌, refl, sym, ap, inl, inr, ◌⊎◌, true, false, some, List, [], ◌∷◌, ◌==◌, arith, exists, map,
  count_where, All, Bool-cases, subst, find_first, find_first-count_where,
}
use sanga.Common.Results.{ok, >>=-eq-ok, ok-pair}
use sanga.PurchaseRequests.{offered, PurchaseRequest, PurchaseOffer}
use sanga.PurchaseRequests.Tables.{Market, Env}
use sanga.PurchaseRequests.Offers.{
  Quote, is_over, has_request_id, is_open_offer, with_terms, check_quote, write_offer, mark_offered,
  awaits_offers, submit_private_offer,
}
use sanga.PurchaseRequests.Valid.{
  IsExclusive, IsPlaced, is_live, IsValid, IsExclusive-map, count_open,
}
use sanga.PurchaseRequests.Decision.{save_request-eq-ok}
use sanga.PurchaseRequests.Submitted.{
  check_quote-open, revised_row, Written, revised, added, write_offer-Written,
  revised_row-conflicts, IsPlaced-map-revised, new_offer-conflicts, offered_rows,
  All-IsPlaced-offered,
}

mark_offered-eq-ok :
    (r : PurchaseRequest) (rows : List PurchaseRequest) {rows' : List PurchaseRequest}
    → mark_offered r rows ≡ ok rows'
    → (rows' ≡ offered_rows r.id rows) ⊎ (rows' ≡ rows)
unfolding mark_offered
mark_offered-eq-ok r rows h = elim (Bool-cases (awaits_offers r.status)) [
  | inl open_still ↦
      inl
        (save_request-eq-ok r.id (λ (row : PurchaseRequest). record row { status = offered }) rows
          (ground arith)).1
  | inr other ↦ inr (ground arith)
]

-- What a successful `submit_private_offer` has done.
pub record IsSubmitted (env : Env) (q : Quote) (market : Market) (o' : PurchaseOffer)
    (market' : Market) : Type 0 where
  pub unsettled : is_over q.request.status ≡ false
  pub written : Written env q market.offers o' market'.offers
  pub requests :
      (market'.requests ≡ offered_rows q.request.id market.requests)
      ⊎ (market'.requests ≡ market.requests)

pub submit_private_offer-IsSubmitted :
    (env : Env) (q : Quote) (market : Market) {o' : PurchaseOffer} {market' : Market}
    → submit_private_offer env q market ≡ ok (o', market')
    → IsSubmitted env q market o' market'
unfolding submit_private_offer
submit_private_offer-IsSubmitted env q market {o'} {market'} h =
    let (buyer, h₁, h₂) = >>=-eq-ok (check_quote q market.businesses) _ h in
    let ((o, os), h₃, h₄) = >>=-eq-ok (write_offer env q market.offers) _ h₂ in
    let (rows, h₅, h₆) = >>=-eq-ok (mark_offered q.request market.requests) _ h₄ in
    let (same, market_is) = ok-pair h₆ in
    let offers_are = ap (λ (x : Market). x.offers) market_is in
    let rows_are = ap (λ (x : Market). x.requests) market_is in
    record {
      unsettled = check_quote-open q market.businesses h₁;
      written =
          subst (λ x. Written env q market.offers x market'.offers) (sym same)
            (subst (λ x. Written env q market.offers o x) (sym offers_are)
              (write_offer-Written env q market.offers h₃));
      requests =
          subst (λ x. (x ≡ offered_rows q.request.id market.requests) ⊎ (x ≡ market.requests))
            (sym rows_are) (mark_offered-eq-ok q.request market.requests h₅);
    }

find_first-is_live :
    (r : PurchaseRequest) (rows : List PurchaseRequest)
    → find_first (has_request_id r.id) rows ≡ some r
    → is_over r.status ≡ false
    → exists (is_live r.id) rows ≡ true
find_first-is_live r [] h s = absurd (ground arith)
find_first-is_live r (x ∷ rows) h s = elim (Bool-cases (x.id == r.id)) [
  | inl here ↦ let same : x ≡ r = ground arith in ground arith
  | inr miss ↦ let rest = find_first-is_live r rows (ground arith) s in ground arith
]

live_exists :
    (i : ℕ) (rows : List PurchaseRequest)
    → exists (is_live i) rows ≡ true
    → exists (has_request_id i) rows ≡ true
live_exists i [] h = absurd (ground arith)
live_exists i (x ∷ rows) h = elim (Bool-cases (x.id == i)) [
  | inl here ↦ ground arith
  | inr miss ↦ let rest = live_exists i rows (ground arith) in ground arith
]

module _ (env : Env) (q : Quote) (market : Market) (v : IsValid market)
    (live : exists (is_live q.request.id) market.requests ≡ true) where
  Written-IsValid :
      {o' : PurchaseOffer} {offers' : List PurchaseOffer}
      → Written env q market.offers o' offers'
      → IsExclusive offers' × All (IsPlaced market.requests) offers'
  Written-IsValid (revised o found same after) = rw after (
    IsExclusive-map (IsPlaced market.requests) (revised_row q o.id)
        (λ x y p p'. revised_row-conflicts q o.id x y) market.offers v.placed v.exclusive,
    IsPlaced-map-revised q o.id market.requests market.offers v.placed,
  )
  Written-IsValid (added absent fresh same after) = rw after (
    (
      new_offer-conflicts env q market.requests live market.offers absent fresh v.placed,
      v.exclusive,
    ),
    ((live_exists q.request.id market.requests live, refl), v.placed),
  )

-- An offer on a request as it stands in the table keeps the invariant.
pub submit_private_offer-IsValid :
    (env : Env) (q : Quote) (market : Market) {o' : PurchaseOffer} {market' : Market}
    → find_first (has_request_id q.request.id) market.requests ≡ some q.request
    → IsValid market
    → submit_private_offer env q market ≡ ok (o', market')
    → IsValid market'
submit_private_offer-IsValid env q market {o'} {market'} fresh v h =
    let done = submit_private_offer-IsSubmitted env q market h in
    let live = find_first-is_live q.request market.requests fresh done.unsettled in
    let (exclusive, placed) = Written-IsValid env q market v live done.written in
    record {
      exclusive = exclusive;
      placed = elim done.requests [
        | inl marked ↦
            rw marked (All-IsPlaced-offered q.request.id market.requests live market'.offers placed)
        | inr same ↦ rw same placed
      ];
    }

find_first-revised :
    (q : Quote) (o : PurchaseOffer) (os : List PurchaseOffer)
    → find_first (is_open_offer q.request.id q.seller.id) os ≡ some o
    → find_first (is_open_offer q.request.id q.seller.id) (map (revised_row q o.id) os)
      ≡ some (with_terms q o)
find_first-revised q o [] h = absurd (ground arith)
find_first-revised q o (x ∷ os) h = elim (Bool-cases (is_open_offer q.request.id q.seller.id x)) [
  | inl here ↦
      let same : x ≡ o = ground arith in
      subst
        (λ (y : PurchaseOffer).
          find_first (is_open_offer q.request.id q.seller.id) (map (revised_row q y.id) (x ∷ os))
          ≡ some (with_terms q y))
        same (ground arith)
  | inr miss ↦
      let rest = find_first-revised q o os (ground arith) in
      elim (Bool-cases (x.id == o.id)) [ inl hit ↦ ground arith | inr other ↦ ground arith ]
]

Written-find_first :
    (env : Env) (q : Quote) (offers : List PurchaseOffer) {o' : PurchaseOffer}
    {offers' : List PurchaseOffer}
    → Written env q offers o' offers'
    → find_first (is_open_offer q.request.id q.seller.id) offers' ≡ some o'
Written-find_first env q offers (revised o found same after) =
    rw (after, same) (find_first-revised q o offers found)
Written-find_first env q offers (added absent fresh same after) = rw (after, same) (ground arith)

Written-unit_price :
    (env : Env) (q : Quote) (offers : List PurchaseOffer) {o' : PurchaseOffer}
    {offers' : List PurchaseOffer}
    → Written env q offers o' offers'
    → (o'.unit_price ≡ q.unit_price) × (o'.offered_qty_sqm ≡ q.offered_qty_sqm)
Written-unit_price env q offers (revised o found same after) = rw same (refl, refl)
Written-unit_price env q offers (added absent fresh same after) = rw same (refl, refl)

-- After an offer on a request as it stands in a valid table, the seller has one submitted offer
-- on it, which is the one returned, at the price and the quantity of the call: an earlier one has
-- been replaced, not joined.
pub submit_private_offer_replaces :
    (env : Env) (q : Quote) (market : Market) {o' : PurchaseOffer} {market' : Market}
    → find_first (has_request_id q.request.id) market.requests ≡ some q.request
    → IsValid market
    → submit_private_offer env q market ≡ ok (o', market')
    → (count_where (is_open_offer q.request.id q.seller.id) market'.offers ≡ 1)
      × (find_first (is_open_offer q.request.id q.seller.id) market'.offers ≡ some o')
      × (o'.unit_price ≡ q.unit_price)
      × (o'.offered_qty_sqm ≡ q.offered_qty_sqm)
submit_private_offer_replaces env q market {o'} {market'} fresh v h =
    let done = submit_private_offer-IsSubmitted env q market h in
    let valid = submit_private_offer-IsValid env q market fresh v h in
    let found = Written-find_first env q market.offers done.written in
    let (price, quantity) = Written-unit_price env q market.offers done.written in
    let most = count_open q.request.id q.seller.id market'.offers valid.exclusive in
    let least =
      find_first-count_where (is_open_offer q.request.id q.seller.id) market'.offers o' found in
    (omega arith, found, price, quantity)
