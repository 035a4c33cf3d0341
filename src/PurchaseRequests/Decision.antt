-- ===== src/PurchaseRequests/Decision.antt =====
-- `decide_offer` as a whole: the tables after it.
use sanga.Common.{
  ℕ, ◌≡◌, refl, sym, ◌∙◌, ap, inl, inr, Bool, true, false, some, List, [], ◌∷◌, ◌==◌, not, arith,
  exists, map, update_where, All, Bool-cases, subst, find_first, find_first_sound,
}
use sanga.Common.Results.{ok, >>=-eq-ok, >>-eq-ok, raise_if-eq-ok, or_raise-eq-ok, ok-pair}
use sanga.Businesses.{Membership}
use sanga.PurchaseRequests.{closed, submitted, PurchaseRequest, PurchaseOffer, is_submitted}
use sanga.PurchaseRequests.Tables.{
  Market, Env, require_respond, require_active, get_business, buyer_inactive, seller_inactive,
}
use sanga.PurchaseRequests.Offers.{has_request_id, has_offer_id, save_request}
use sanga.PurchaseRequests.Decide.{
  Parties, check_decision, decided, ended, save_decision, settle_request, settle_offers,
  decide_offer,
}
use sanga.PurchaseRequests.Valid.{IsExclusive, IsPlaced, IsValid, IsExclusive-map}
use sanga.PurchaseRequests.Decided.{
  decided_row, IsTarget, decided_row-conflicts, settle_offers-eq-map, find_first-IsTarget,
  exists-has_request_id-ended, exists-is_live-ended,
}

-- The requests after a decision.
abbrev pub settled : ℕ → Bool → ℕ → List PurchaseRequest → List PurchaseRequest
settled now true r rows = update_where (has_request_id r) (ended now closed) rows
settled now false r rows = rows

pub save_request-eq-ok :
    (pk : ℕ) (f : PurchaseRequest → PurchaseRequest) (rows : List PurchaseRequest)
    {rows' : List PurchaseRequest}
    → save_request pk f rows ≡ ok rows'
    → (exists (has_request_id pk) rows ≡ true) × (rows' ≡ update_where (has_request_id pk) f rows)
unfolding save_request
save_request-eq-ok pk f rows h = elim (Bool-cases (exists (has_request_id pk) rows)) [
  | inl here ↦ (here, ground arith)
  | inr gone ↦ absurd (ground arith)
]

settle_request-eq-ok :
    (env : Env) (accept : Bool) (r : ℕ) (rows : List PurchaseRequest) {rows' : List PurchaseRequest}
    → settle_request env accept r rows ≡ ok rows'
    → rows' ≡ settled env.now accept r rows
unfolding settle_request
settle_request-eq-ok env true r rows h = (save_request-eq-ok r (ended env.now closed) rows h).1
settle_request-eq-ok env false r rows h = ground arith

save_decision-eq-ok :
    (pk : ℕ) (accept : Bool) (os : List PurchaseOffer) {os' : List PurchaseOffer}
    → save_decision pk accept os ≡ ok os'
    → os' ≡ update_where (has_offer_id pk) (decided accept) os
unfolding save_decision
save_decision-eq-ok pk accept os h = elim (Bool-cases (exists (has_offer_id pk) os)) [
  | inl here ↦ ground arith
  | inr gone ↦ absurd (ground arith)
]

-- What the guards of `decide_offer` let pass.
check_decision-submitted :
    (o : PurchaseOffer) (m : Membership) (market : Market) {p : Parties}
    → check_decision o m market ≡ ok p
    → (o.status ≡ submitted) × (p.request.id ≡ o.purchase_request)
unfolding check_decision
check_decision-submitted o m market h =
    let (request, h₁, h₂) =
      or_raise-eq-ok (find_first (has_request_id o.purchase_request) market.requests) _ _ h in
    let (h₃, h₄) = raise_if-eq-ok (not (m.business == request.business)) _ _ h₂ in
    let (h₅, h₆) = >>-eq-ok (require_respond m) _ h₄ in
    let (buyer, h₇, h₈) = >>=-eq-ok (get_business request.business market.businesses) _ h₆ in
    let (h₉, h₁₀) = >>-eq-ok (require_active buyer buyer_inactive) _ h₈ in
    let (seller, h₁₁, h₁₂) = >>=-eq-ok (get_business o.seller_business market.businesses) _ h₁₀ in
    let (h₁₃, h₁₄) = >>-eq-ok (require_active seller seller_inactive) _ h₁₂ in
    let (h₁₅, h₁₆) = raise_if-eq-ok (not (is_submitted o.status)) _ _ h₁₄ in
    let found = find_first_sound (has_request_id o.purchase_request) market.requests request h₁ in
    (ground arith, ground arith)

IsPlaced-decided :
    (now : ℕ) (accept : Bool) (r pk : ℕ) (rows : List PurchaseRequest) (o : PurchaseOffer)
    → IsTarget r pk o
    → IsPlaced rows o
    → IsPlaced (settled now accept r rows) (decided_row accept r pk o)
IsPlaced-decided now true r pk rows o t p =
    let here = exists-has_request_id-ended o.purchase_request r now closed rows in
    let live = exists-is_live-ended o.purchase_request r now closed rows refl in
    elim (Bool-cases (o.id == pk)) [
      | inl hit ↦ let (same, unsettled) = t hit in (ground arith, ground arith)
      | inr miss ↦ (ground arith, ground arith)
    ]
IsPlaced-decided now false r pk rows o t p = (ground arith, ground arith)

IsPlaced-map :
    (now : ℕ) (accept : Bool) (r pk : ℕ) (rows : List PurchaseRequest) (os : List PurchaseOffer)
    → All (IsTarget r pk) os
    → All (IsPlaced rows) os
    → All (IsPlaced (settled now accept r rows)) (map (decided_row accept r pk) os)
IsPlaced-map now accept r pk rows [] t p = tt
IsPlaced-map now accept r pk rows (o ∷ os) t p =
    (IsPlaced-decided now accept r pk rows o t.0 p.0, IsPlaced-map now accept r pk rows os t.1 p.1)

offers_after :
    (accept : Bool) (i pk : ℕ) (os : List PurchaseOffer) {r : ℕ} {os' : List PurchaseOffer}
    → i ≡ r
    → os' ≡ update_where (has_offer_id pk) (decided accept) os
    → settle_offers accept i pk os' ≡ map (decided_row accept r pk) os
offers_after accept i pk os {r} at after = rw (at, after) (settle_offers-eq-map accept r pk os)

-- What a successful `decide_offer` has done.
pub record IsDecided (env : Env) (o : PurchaseOffer) (accept : Bool) (market : Market)
    (o' : PurchaseOffer) (market' : Market) : Type 0 where
  pub unsettled : o.status ≡ submitted
  pub same : o' ≡ decided accept o
  pub offers : market'.offers ≡ map (decided_row accept o.purchase_request o.id) market.offers
  pub requests : market'.requests ≡ settled env.now accept o.purchase_request market.requests

pub decide_offer-IsDecided :
    (env : Env) (o : PurchaseOffer) (m : Membership) (accept : Bool) (market : Market)
    {o' : PurchaseOffer} {market' : Market}
    → decide_offer env o m accept market ≡ ok (o', market')
    → IsDecided env o accept market o' market'
unfolding decide_offer
decide_offer-IsDecided env o m accept market h =
    let (p, h₁, h₂) = >>=-eq-ok (check_decision o m market) _ h in
    let (os, h₃, h₄) = >>=-eq-ok (save_decision o.id accept market.offers) _ h₂ in
    let (rows, h₅, h₆) = >>=-eq-ok (settle_request env accept p.request.id market.requests) _ h₄ in
    let (unsettled, r) = check_decision-submitted o m market h₁ in
    let os_are = save_decision-eq-ok o.id accept market.offers h₃ in
    let rows_are = settle_request-eq-ok env accept p.request.id market.requests h₅ in
    let (same, market_is) = ok-pair h₆ in
    record {
      unsettled = unsettled;
      same = same;
      offers =
          ap (λ (x : Market). x.offers) market_is
          ∙ offers_after accept p.request.id o.id market.offers r os_are;
      requests =
          ap (λ (x : Market). x.requests) market_is
          ∙ rows_are
          ∙ ap (λ i. settled env.now accept i market.requests) r;
    }

-- A decision on an offer as it stands in the table keeps the invariant.
pub decide_offer-IsValid :
    (env : Env) (o : PurchaseOffer) (m : Membership) (accept : Bool) (market : Market)
    {o' : PurchaseOffer} {market' : Market}
    → find_first (has_offer_id o.id) market.offers ≡ some o
    → IsValid market
    → decide_offer env o m accept market ≡ ok (o', market')
    → IsValid market'
decide_offer-IsValid env o m accept market fresh v h =
    let done = decide_offer-IsDecided env o m accept market h in
    let t = find_first-IsTarget o market.offers fresh done.unsettled v.exclusive in
    let r = o.purchase_request in
    record {
      exclusive = subst IsExclusive (sym done.offers) (
          IsExclusive-map (IsTarget r o.id) (decided_row accept r o.id)
            (decided_row-conflicts accept r o.id) market.offers t v.exclusive);
      placed =
          rw (done.offers, done.requests)
            (IsPlaced-map env.now accept r o.id market.requests market.offers t v.placed);
    }
