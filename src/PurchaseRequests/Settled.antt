-- ===== src/PurchaseRequests/Settled.antt =====
-- Offers that are decided on, through the steps of the tables.
use sanga.Common.{
  ℕ, ◌≡◌, refl, ◌∙◌, ap, inl, inr, Bool, true, false, some, List, [], ◌∷◌, ◌&&◌, ◌==◌, not, arith,
  exists, map, find_first, find_first_sound, Bool-cases, subst,
}
use sanga.Common.Results.{ok, >>=-eq-ok, >>-eq-ok, raise_if-eq-ok, ok-pair}
use sanga.Businesses.{Membership}
use sanga.PurchaseRequests.{submitted, cancelled, PurchaseRequest, PurchaseOffer, is_submitted}
use sanga.PurchaseRequests.Tables.{Market, Env, require_respond, invalid_access}
use sanga.PurchaseRequests.Offers.{Quote, has_offer_id, is_open_offer, save_request}
use sanga.PurchaseRequests.Decide.{is_rival, ended, close_purchase_request}
use sanga.PurchaseRequests.Valid.{conflicts, IsExclusive}
use sanga.PurchaseRequests.Decided.{decided_row}
use sanga.PurchaseRequests.Decision.{decide_offer-IsDecided}
use sanga.PurchaseRequests.Submitted.{revised_row, Written, revised, added}
use sanga.PurchaseRequests.Submission.{submit_private_offer-IsSubmitted}
use sanga.PurchaseRequests.Steps.{
  create_purchase_request-IsRequested, Step, create, submit, decide, close, Reachable,
  Reachable-IsValid,
}

-- A row that the change of the others leaves alone is still found.
find_first-map :
    (g : PurchaseOffer → PurchaseOffer) (i : ℕ) (os : List PurchaseOffer) (p : PurchaseOffer)
    → ((o : PurchaseOffer) → (g o).id ≡ o.id)
    → g p ≡ p
    → find_first (has_offer_id i) os ≡ some p
    → find_first (has_offer_id i) (map g os) ≡ some p
find_first-map g i [] p keys stays h = absurd (ground arith)
find_first-map g i (o ∷ os) p keys stays h =
    let key = keys o in
    elim (Bool-cases (o.id == i)) [
      | inl here ↦
          let same : o ≡ p = ground arith in
          let kept : g o ≡ p = ap g same ∙ stays in
          rw kept (let hit : (p.id == i) ≡ true = ground arith in ground arith)
      | inr miss ↦
          let rest = find_first-map g i os p keys stays (ground arith) in
          let other : ((g o).id == i) ≡ false = rw key miss in rw other rest
    ]

open_exists :
    (r s : ℕ) (os : List PurchaseOffer) (o : PurchaseOffer)
    → find_first (is_open_offer r s) os ≡ some o
    → exists (has_offer_id o.id) os ≡ true
open_exists r s [] o h = absurd (ground arith)
open_exists r s (x ∷ os) o h = elim (Bool-cases (is_open_offer r s x)) [
  | inl here ↦ let same : x ≡ o = ground arith in ground arith
  | inr miss ↦ let rest = open_exists r s os o (ground arith) in ground arith
]

found_there :
    (i : ℕ) (os : List PurchaseOffer) (o : PurchaseOffer)
    → find_first (has_offer_id i) os ≡ some o
    → exists (has_offer_id i) os ≡ true
found_there i [] o h = absurd (ground arith)
found_there i (x ∷ os) o h = let rest = found_there i os o in ground arith

no_key :
    (x : PurchaseOffer) (os : List PurchaseOffer)
    → exists (conflicts x) os ≡ false
    → exists (has_offer_id x.id) os ≡ false
no_key x [] h = refl
no_key x (o ∷ os) h = let rest = no_key x os (ground arith) in ground arith

-- The row of the key of the submitted offer that is found is that offer.
one_row :
    (r s : ℕ) (os : List PurchaseOffer) (o p : PurchaseOffer)
    → IsExclusive os
    → find_first (is_open_offer r s) os ≡ some o
    → find_first (has_offer_id o.id) os ≡ some p
    → p ≡ o
one_row r s [] o p v found h = absurd (ground arith)
one_row r s (x ∷ os) o p v found h = elim (Bool-cases (is_open_offer r s x)) [
  | inl here ↦ let same : x ≡ o = ground arith in ground arith
  | inr miss ↦
      let there = open_exists r s os o (ground arith) in
      elim (Bool-cases (x.id == o.id)) [
        | inl hit ↦
            let equal : x.id ≡ o.id = ground arith in
            let gone : exists (has_offer_id o.id) os ≡ false =
              subst (λ i. exists (has_offer_id i) os ≡ false) equal (no_key x os v.0) in
            absurd (ground arith)
        | inr other ↦ one_row r s os o p v.1 (ground arith) (ground arith)
      ]
]

Written_stays :
    (env : Env) (q : Quote) (i : ℕ) (os : List PurchaseOffer) (p : PurchaseOffer)
    {o' : PurchaseOffer} {os' : List PurchaseOffer}
    → IsExclusive os
    → is_submitted p.status ≡ false
    → Written env q os o' os'
    → find_first (has_offer_id i) os ≡ some p
    → find_first (has_offer_id i) os' ≡ some p
Written_stays env q i os p v settled (revised o found same after) h =
    let key : (p.id == i) ≡ true = find_first_sound (has_offer_id i) os p h in
    rw after (elim (Bool-cases (p.id == o.id)) [
      | inl hit ↦
          let at : find_first (has_offer_id o.id) os ≡ some p =
            subst (λ j. find_first (has_offer_id j) os ≡ some p) (ground arith) h in
          let equal = one_row q.request.id q.seller.id os o p v found at in
          let open_o = find_first_sound (is_open_offer q.request.id q.seller.id) os o found in
          absurd (ground arith)
      | inr other ↦
          find_first-map (revised_row q o.id) i os p
            (λ x. elim (Bool-cases (x.id == o.id)) [ inl a ↦ ground arith | inr b ↦ ground arith ])
            (ground arith) h
    ])
Written_stays env q i os p v settled (added absent fresh same after) h =
    rw after (elim (Bool-cases (env.uuid == i)) [
      | inl hit ↦ absurd (
          let there = found_there i os p h in
          let equal : env.uuid ≡ i = ground arith in
          let gone : exists (has_offer_id i) os ≡ false =
            subst (λ j. exists (has_offer_id j) os ≡ false) equal fresh in
          ground arith)
      | inr other ↦ ground arith
    ])

decided_row_stays :
    (accept : Bool) (r i : ℕ) (o p : PurchaseOffer) (os : List PurchaseOffer)
    → o.status ≡ submitted
    → is_submitted p.status ≡ false
    → find_first (has_offer_id o.id) os ≡ some o
    → find_first (has_offer_id i) os ≡ some p
    → find_first (has_offer_id i) (map (decided_row accept r o.id) os) ≡ some p
decided_row_stays accept r i o p os open_o settled fresh h =
    let key : (p.id == i) ≡ true = find_first_sound (has_offer_id i) os p h in
    elim (Bool-cases (p.id == o.id)) [
      | inl hit ↦
          let at : find_first (has_offer_id o.id) os ≡ some p =
            subst (λ j. find_first (has_offer_id j) os ≡ some p) (ground arith) h in
          absurd (ground arith)
      | inr other ↦
          find_first-map (decided_row accept r o.id) i os p
            (λ x. elim (Bool-cases (x.id == o.id)) [
              | inl a ↦ ground arith
              | inr b ↦ elim (Bool-cases (accept && is_rival r o.id x)) [
                | inl c ↦ ground arith
                | inr d ↦ ground arith
              ]
            ])
            (ground arith) h
    ]

close-offers :
    (env : Env) (r : PurchaseRequest) (m : Membership) (market : Market) {r' : PurchaseRequest}
    {market' : Market}
    → close_purchase_request env r m market ≡ ok (r', market')
    → market'.offers ≡ market.offers
unfolding close_purchase_request
close-offers env r m market h =
    let (h₁, h₂) = raise_if-eq-ok (not (m.business == r.business)) invalid_access _ h in
    let (h₃, h₄) = >>-eq-ok (require_respond m) _ h₂ in
    let (rows, h₅, h₆) =
      >>=-eq-ok (save_request r.id (ended env.now cancelled) market.requests) _ h₄ in
    ap (λ (x : Market). x.offers) (ok-pair h₆).1

-- In a state that the services reach, an offer that is not submitted any more is the same after
-- one more service, where all services are called on a request or an offer as it stands in the tables
-- at that moment (not on an object that was read before another change): what is accepted or rejected
-- stays so.
pub settled_offer_stays :
    {before after : Market} (i : ℕ) (p : PurchaseOffer)
    → Reachable before
    → Step before after
    → is_submitted p.status ≡ false
    → find_first (has_offer_id i) before.offers ≡ some p
    → find_first (has_offer_id i) after.offers ≡ some p
settled_offer_stays i p reached (create env b m f h) settled at =
    let done = create_purchase_request-IsRequested env b m f _ h in rw (done.after) at
settled_offer_stays i p reached (submit env q fresh h) settled at =
    Written_stays env q i _ p (Reachable-IsValid reached).exclusive settled
      (submit_private_offer-IsSubmitted env q _ h).written at
settled_offer_stays i p reached (decide env o m accept fresh h) settled at =
    let done = decide_offer-IsDecided env o m accept _ h in
    rw (done.offers)
      (decided_row_stays accept o.purchase_request i o p _ done.unsettled settled fresh at)
settled_offer_stays i p reached (close env r m h) settled at = rw (close-offers env r m _ h) at
