-- ===== src/PurchaseRequests/Steps.antt =====
-- The services of apps/purchase_requests one after the other: the steps of the tables, each on
-- objects as they stand in them, and what holds in every state they reach.
use sanga.Common.{
  ℕ, ◌≡◌, refl, ap, Bool, false, some, List, [], ◌∷◌, ◌==◌, not, arith, exists, update_where,
  find_first, All, inl, inr, Bool-cases, subst, sym,
}
use sanga.Common.Int.{is_pos}
use sanga.Common.Results.{ok, >>-eq-ok, >>=-eq-ok, raise_if-eq-ok, or_raise-eq-ok, ok-pair}
use sanga.Businesses.{Business, Membership}
use sanga.PurchaseRequests.{cancelled, PurchaseRequest, PurchaseOffer}
use sanga.PurchaseRequests.Tables.{Market, Env, require_respond, invalid_access}
use sanga.PurchaseRequests.Create.{
  RequestFields, new_request, request_fits, create_purchase_request,
}
use sanga.PurchaseRequests.Offers.{
  Quote, has_request_id, has_offer_id, save_request, submit_private_offer,
}
use sanga.PurchaseRequests.Decide.{ended, decide_offer, close_purchase_request}
use sanga.PurchaseRequests.Valid.{IsPlaced, IsValid}
use sanga.PurchaseRequests.Decided.{exists-has_request_id-ended, exists-is_live-ended}
use sanga.PurchaseRequests.Decision.{save_request-eq-ok, decide_offer-IsValid}
use sanga.PurchaseRequests.Submission.{submit_private_offer-IsValid}

-- What a successful `create_purchase_request` has done.
pub record IsRequested (env : Env) (market : Market) (r : PurchaseRequest) (market' : Market)
    : Type 0 where
  pub key : r.id ≡ env.uuid
  pub fresh : exists (has_request_id env.uuid) market.requests ≡ false
  pub after : market' ≡ record market { requests = r ∷ market.requests }

pub create_purchase_request-IsRequested :
    (env : Env) (b : Business) (m : Membership) (f : RequestFields) (market : Market)
    {r : PurchaseRequest} {market' : Market}
    → create_purchase_request env b m f market ≡ ok (r, market')
    → IsRequested env market r market'
unfolding create_purchase_request
create_purchase_request-IsRequested env b m f market {r} {market'} h =
    let (h₁, h₂) = raise_if-eq-ok (not (m.business == b.id)) _ _ h in
    let (h₃, h₄) = >>-eq-ok (require_respond m) _ h₂ in
    let (h₅, h₆) = raise_if-eq-ok _ _ _ h₄ in
    let (qty, h₇, h₈) = or_raise-eq-ok f.required_qty_sqm _ _ h₆ in
    let (h₉, h₁₀) = raise_if-eq-ok (not (is_pos qty)) _ _ h₈ in
    let (h₁₁, h₁₂) =
      raise_if-eq-ok (not (request_fits (new_request env b.id m.user qty f))) _ _ h₁₀ in
    let (fresh, h₁₃) = raise_if-eq-ok (exists (has_request_id env.uuid) market.requests) _ _ h₁₂ in
    let (same, after) = ok-pair h₁₃ in
    record {
      key = ap (λ (x : PurchaseRequest). x.id) same;
      fresh = fresh;
      after =
          subst
            (λ (x : PurchaseRequest). market' ≡ record market { requests = x ∷ market.requests })
            (sym same) after;
    }

All-IsPlaced-create :
    (r : PurchaseRequest) (rows : List PurchaseRequest) (os : List PurchaseOffer)
    → exists (has_request_id r.id) rows ≡ false
    → All (IsPlaced rows) os
    → All (IsPlaced (r ∷ rows)) os
All-IsPlaced-create r rows [] h a = tt
All-IsPlaced-create r rows (o ∷ os) h a =
    let rest = All-IsPlaced-create r rows os h a.1 in
    let (there, over) = a.0 in
    elim (Bool-cases (r.id == o.purchase_request)) [
      | inl same ↦ absurd (ground arith)
      | inr other ↦ ((ground arith, ground arith), rest)
    ]

All-IsPlaced-ended :
    (now r : ℕ) (rows : List PurchaseRequest) (os : List PurchaseOffer)
    → All (IsPlaced rows) os
    → All (IsPlaced (update_where (has_request_id r) (ended now cancelled) rows)) os
All-IsPlaced-ended now r rows [] a = tt
All-IsPlaced-ended now r rows (o ∷ os) a =
    let rest = All-IsPlaced-ended now r rows os a.1 in
    let here = exists-has_request_id-ended o.purchase_request r now cancelled rows in
    let live = exists-is_live-ended o.purchase_request r now cancelled rows refl in
    let (there, over) = a.0 in ((ground arith, ground arith), rest)

-- A new request keeps the invariant.
pub create_purchase_request-IsValid :
    (env : Env) (b : Business) (m : Membership) (f : RequestFields) (market : Market)
    {r : PurchaseRequest} {market' : Market}
    → IsValid market
    → create_purchase_request env b m f market ≡ ok (r, market')
    → IsValid market'
create_purchase_request-IsValid env b m f market {r} v h =
    let done = create_purchase_request-IsRequested env b m f market h in
    let fresh : exists (has_request_id r.id) market.requests ≡ false = rw (done.key) (done.fresh) in
    rw (done.after) (record {
      exclusive = v.exclusive;
      placed = All-IsPlaced-create r market.requests market.offers fresh v.placed;
    })

-- A cancelled request keeps the invariant.
pub close_purchase_request-IsValid :
    (env : Env) (r : PurchaseRequest) (m : Membership) (market : Market) {r' : PurchaseRequest}
    {market' : Market}
    → IsValid market
    → close_purchase_request env r m market ≡ ok (r', market')
    → IsValid market'
unfolding close_purchase_request
close_purchase_request-IsValid env r m market v h =
    let (h₁, h₂) = raise_if-eq-ok (not (m.business == r.business)) invalid_access _ h in
    let (h₃, h₄) = >>-eq-ok (require_respond m) _ h₂ in
    let (rows, h₅, h₆) =
      >>=-eq-ok (save_request r.id (ended env.now cancelled) market.requests) _ h₄ in
    let (same, after) = ok-pair h₆ in
    let (there, rows_are) = save_request-eq-ok r.id (ended env.now cancelled) market.requests h₅ in
    rw (after, rows_are)
      (record {
        exclusive = v.exclusive;
        placed = All-IsPlaced-ended env.now r.id market.requests market.offers v.placed;
      })

-- One service that succeeds, on a request or an offer as it stands in the table.
pub data Step : Market → Market → Type 0 where
  create :
      (env : Env) (b : Business) (m : Membership) (f : RequestFields) {r : PurchaseRequest}
      {before after : Market}
      → create_purchase_request env b m f before ≡ ok (r, after)
      → Step before after
  submit :
      (env : Env) (q : Quote) {o : PurchaseOffer} {before after : Market}
      → find_first (has_request_id q.request.id) before.requests ≡ some q.request
      → submit_private_offer env q before ≡ ok (o, after)
      → Step before after
  decide :
      (env : Env) (o : PurchaseOffer) (m : Membership) (accept : Bool) {o' : PurchaseOffer}
      {before after : Market}
      → find_first (has_offer_id o.id) before.offers ≡ some o
      → decide_offer env o m accept before ≡ ok (o', after)
      → Step before after
  close :
      (env : Env) (r : PurchaseRequest) (m : Membership) {r' : PurchaseRequest}
      {before after : Market}
      → close_purchase_request env r m before ≡ ok (r', after)
      → Step before after

-- The states that steps reach from a table with no offers.
pub data Reachable : Market → Type 0 where
  start : {market : Market} → market.offers ≡ [] → Reachable market
  step : {before after : Market} → Reachable before → Step before after → Reachable after

Step-IsValid : {before after : Market} → Step before after → IsValid before → IsValid after
Step-IsValid (create env b m f h) v = create_purchase_request-IsValid env b m f _ v h
Step-IsValid (submit env q fresh h) v = submit_private_offer-IsValid env q _ fresh v h
Step-IsValid (decide env o m accept fresh h) v = decide_offer-IsValid env o m accept _ fresh v h
Step-IsValid (close env r m h) v = close_purchase_request-IsValid env r m _ v h

-- Every state that the services reach, each on objects as they stand in the tables, is valid.
pub Reachable-IsValid : {market : Market} → Reachable market → IsValid market
Reachable-IsValid (start none_yet) = record { exclusive = rw none_yet tt; placed = rw none_yet tt }
Reachable-IsValid (step before h) = Step-IsValid h (Reachable-IsValid before)
