-- ===== src/PurchaseRequests/Acceptance.antt =====
-- Accepted offers, their requests and the other offers on them.
use sanga.Common.{
  ℕ, ◌≤◌, ◌≡◌, refl, true, false, some, List, [], ◌∷◌, ◌&&◌, ◌==◌, arith, exists, map, count_where,
  find_first, All, inl, inr, Bool-cases, subst, exists-count_where,
}
use sanga.Common.Results.{ok}
use sanga.Businesses.{Membership}
use sanga.PurchaseRequests.{PurchaseRequest, PurchaseOffer, is_accepted}
use sanga.PurchaseRequests.Tables.{Market, Env}
use sanga.PurchaseRequests.Offers.{has_offer_id}
use sanga.PurchaseRequests.Decide.{decided, is_rival, decide_offer}
use sanga.PurchaseRequests.Valid.{
  accepted_on, submitted_on, conflicts, IsExclusive, IsPlaced, is_live, IsValid, count_accepted,
}
use sanga.PurchaseRequests.Decided.{decided_row}
use sanga.PurchaseRequests.Decision.{decide_offer-IsDecided, decide_offer-IsValid}
use sanga.PurchaseRequests.Steps.{Reachable, Reachable-IsValid}

-- In every state that the services reach, each called on a request or an offer as it stands in the
-- tables at that moment (not on an object that was read before another change), a request has one
-- accepted offer at most.
pub accepted_at_most_once :
    {market : Market} → Reachable market → (i : ℕ) → count_where (accepted_on i) market.offers ≤ 1
accepted_at_most_once {market} reached i =
    count_accepted i market.offers (Reachable-IsValid reached).exclusive

no_submitted_beside :
    (i : ℕ) (o : PurchaseOffer) (os : List PurchaseOffer)
    → accepted_on i o ≡ true
    → exists (conflicts o) os ≡ false
    → exists (submitted_on i) os ≡ false
no_submitted_beside i o [] a h = refl
no_submitted_beside i o (f ∷ os) a h =
    let rest = no_submitted_beside i o os a (ground arith) in ground arith

no_accepted_beside :
    (i : ℕ) (o : PurchaseOffer) (os : List PurchaseOffer)
    → submitted_on i o ≡ true
    → exists (conflicts o) os ≡ false
    → exists (accepted_on i) os ≡ false
no_accepted_beside i o [] a h = refl
no_accepted_beside i o (f ∷ os) a h =
    let rest = no_accepted_beside i o os a (ground arith) in ground arith

no_submitted :
    (i : ℕ) (os : List PurchaseOffer)
    → IsExclusive os
    → exists (accepted_on i) os ≡ true
    → exists (submitted_on i) os ≡ false
no_submitted i [] v h = refl
no_submitted i (o ∷ os) v h = elim (Bool-cases (accepted_on i o)) [
  | inl here ↦ let rest = no_submitted_beside i o os here v.0 in ground arith
  | inr other ↦ elim (Bool-cases (submitted_on i o)) [
    | inl also ↦ let rest = no_accepted_beside i o os also v.0 in absurd (ground arith)
    | inr neither ↦ let rest = no_submitted i os v.1 (ground arith) in ground arith
  ]
]

over_if_accepted :
    (i : ℕ) (rows : List PurchaseRequest) (os : List PurchaseOffer)
    → All (IsPlaced rows) os
    → exists (accepted_on i) os ≡ true
    → exists (is_live i) rows ≡ false
over_if_accepted i rows [] a h = absurd (ground arith)
over_if_accepted i rows (o ∷ os) a h = elim (Bool-cases (accepted_on i o)) [
  | inl here ↦
      let same : o.purchase_request ≡ i = ground arith in
      let over : (is_accepted o.status && exists (is_live o.purchase_request) rows) ≡ false =
        a.0.1 in
      let it : exists (is_live o.purchase_request) rows ≡ false = ground arith in
      subst (λ j. exists (is_live j) rows ≡ false) same it
  | inr other ↦ over_if_accepted i rows os a.1 (ground arith)
]

-- In every state that the services reach, each called on a request or an offer as it stands in the
-- tables at that moment (not on an object that was read before another change), a request with an
-- accepted offer has no submitted offer left to decide on, and is closed or cancelled.
pub accepted_settles :
    {market : Market}
    → Reachable market
    → (i : ℕ) → exists (accepted_on i) market.offers ≡ true
    → (exists (submitted_on i) market.offers ≡ false) × (exists (is_live i) market.requests ≡ false)
accepted_settles {market} reached i h =
    let v = Reachable-IsValid reached in
    (
      no_submitted i market.offers v.exclusive h,
      over_if_accepted i market.requests market.offers v.placed h,
    )

-- The row decided on becomes an accepted one.
find_first-accepted :
    (o : PurchaseOffer) (os : List PurchaseOffer)
    → find_first (has_offer_id o.id) os ≡ some o
    → exists (accepted_on o.purchase_request) (map (decided_row true o.purchase_request o.id) os)
      ≡ true
find_first-accepted o [] h = absurd (ground arith)
find_first-accepted o (x ∷ os) h = elim (Bool-cases (x.id == o.id)) [
  | inl here ↦ let same : x ≡ o = ground arith in ground arith
  | inr miss ↦ let rest = find_first-accepted o os (ground arith) in ground arith
]

-- The row of the key is the offer with its new status.
find_first-decided :
    (o : PurchaseOffer) (os : List PurchaseOffer)
    → find_first (has_offer_id o.id) os ≡ some o
    → find_first (has_offer_id o.id) (map (decided_row true o.purchase_request o.id) os)
      ≡ some (decided true o)
find_first-decided o [] h = absurd (ground arith)
find_first-decided o (x ∷ os) h = elim (Bool-cases (x.id == o.id)) [
  | inl here ↦ let same : x ≡ o = ground arith in ground arith
  | inr miss ↦
      let rest = find_first-decided o os (ground arith) in
      elim (Bool-cases (is_rival o.purchase_request o.id x)) [
        | inl rival ↦ ground arith
        | inr other ↦ ground arith
      ]
]

-- Accepting an offer as it stands in a valid table: the row of its key is then this offer with its new
-- status, there is one accepted offer on its request, no submitted one is left on it, and the request
-- is over.
pub decide_offer_accepts :
    (env : Env) (o : PurchaseOffer) (m : Membership) (market : Market) {o' : PurchaseOffer}
    {market' : Market}
    → find_first (has_offer_id o.id) market.offers ≡ some o
    → IsValid market
    → decide_offer env o m true market ≡ ok (o', market')
    → (o' ≡ decided true o)
      × (find_first (has_offer_id o.id) market'.offers ≡ some (decided true o))
      × (count_where (accepted_on o.purchase_request) market'.offers ≡ 1)
      × (exists (submitted_on o.purchase_request) market'.offers ≡ false)
      × (exists (is_live o.purchase_request) market'.requests ≡ false)
decide_offer_accepts env o m market {o'} {market'} fresh v h =
    let done = decide_offer-IsDecided env o m true market h in
    let valid = decide_offer-IsValid env o m true market fresh v h in
    let there : exists (accepted_on o.purchase_request) market'.offers ≡ true =
      rw (done.offers) (find_first-accepted o market.offers fresh) in
    let most = count_accepted o.purchase_request market'.offers valid.exclusive in
    let least = exists-count_where (accepted_on o.purchase_request) market'.offers there in
    (
      done.same,
      rw (done.offers) (find_first-decided o market.offers fresh),
      omega arith,
      no_submitted o.purchase_request market'.offers valid.exclusive there,
      over_if_accepted o.purchase_request market'.requests market'.offers valid.placed there,
    )
