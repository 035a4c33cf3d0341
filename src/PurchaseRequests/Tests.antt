-- ===== src/PurchaseRequests/Tests.antt =====
-- Runs of the services on a small market, and each theorem at one of them.
use sanga.Common.{
  ◌+◌, ℕ, ◌≤◌, ◌≡◌, refl, true, false, some, none, List, [], ◌∷◌, exists, count_where, find_first,
}
use sanga.Common.Int.{pos}
use sanga.Common.Text.{codes, strip}
use sanga.Common.Results.{ok}
use sanga.Businesses.Permissions.{owner}
use sanga.Businesses.{
  Business, BusinessStatus, Membership, MembershipStatus, has_capability, lacks_capability,
}
use sanga.PurchaseRequests.{PurchaseRequest, PurchaseOffer, offered, closed, cancelled}
use sanga.PurchaseRequests.Tables.{Market, Env, require_respond}
use sanga.PurchaseRequests.Create.{RequestFields, new_request, create_purchase_request}
use sanga.PurchaseRequests.Notify.{notify_all, notify_offer, notify_offer_decision}
use sanga.PurchaseRequests.Offers.{
  has_offer_id, Quote, is_open_offer, with_terms, new_offer, check_quote, write_offer, save_request,
  mark_offered, submit_private_offer,
}
use sanga.PurchaseRequests.Decide.{
  check_decision, decided, ended, save_decision, reject_rivals, settle_request, settle_offers,
  decide_offer, close_purchase_request,
}
use sanga.PurchaseRequests.Valid.{accepted_on, submitted_on, is_live, IsValid}
use sanga.PurchaseRequests.Submission.{submit_private_offer_replaces}
use sanga.PurchaseRequests.Steps.{
  close, create, submit, decide, Reachable, start, step, Reachable-IsValid,
}
use sanga.PurchaseRequests.Settled.{settled_offer_stays}
use sanga.PurchaseRequests.Acceptance.{
  accepted_at_most_once, accepted_settles, decide_offer_accepts,
}

abbrev business : ℕ → Business
business i = record {
  id = i;
  name = [];
  status = BusinessStatus.active;
  phone = [];
  city = [];
  province = [];
  address = [];
  website = [];
  slug = [];
  onboarding_step = 6;
  onboarding_completed_at = none;
}

abbrev boss_of : ℕ → Membership
boss_of i = record {
  id = i;
  user = 10 + i;
  business = i;
  role = owner;
  permissions = [];
  status = MembershipStatus.active;
}

abbrev env : ℕ → Env
env uuid = record { uuid = uuid; note_uuid = λ i. i; now = 5; uuid_text = λ i. [] }

abbrev fields : RequestFields
fields = record {
  title = codes "travertine";
  stone_type = [];
  category = [];
  color = [];
  application = [];
  required_qty_sqm = some (pos 5000);
  thickness_mm = none;
  length_cm = none;
  width_cm = none;
  acceptable_grade = [];
  budget_amount = none;
  budget_currency = [];
  destination_city = [];
  required_by = none;
  similar_accepted = none;
  notes = [];
  is_public_to_network = none;
}

abbrev request : PurchaseRequest
request = new_request (env 30) 1 11 (pos 5000) fields

abbrev quote : ℕ → ℕ → PurchaseRequest → Quote
quote seller price r = record {
  request = r;
  seller = business seller;
  membership = boss_of seller;
  unit_price = pos price;
  offered_qty_sqm = pos 1000;
  message = [];
  lot = none;
}

abbrev market : List PurchaseRequest → List PurchaseOffer → Market
market rs os = record {
  businesses = business 1 ∷ business 2 ∷ business 3 ∷ [];
  memberships = [];
  requests = rs;
  offers = os;
  notifications = [];
}

abbrev offered_request : PurchaseRequest
offered_request = record request { status = offered }

abbrev first_offer : PurchaseOffer
first_offer = new_offer (env 40) (quote 2 900 request)

abbrev second_offer : PurchaseOffer
second_offer = new_offer (env 41) (quote 3 800 offered_request)

abbrev two_offers : Market
two_offers = market (offered_request ∷ []) (second_offer ∷ first_offer ∷ [])

created :
    create_purchase_request (env 30) (business 1) (boss_of 1) fields (market [] [])
    ≡ ok (request, market (request ∷ []) [])
unfolding create_purchase_request require_respond lacks_capability has_capability strip
created = refl

offered_once :
    submit_private_offer (env 40) (quote 2 900 request) (market (request ∷ []) [])
    ≡ ok (first_offer, market (offered_request ∷ []) (first_offer ∷ []))
unfolding submit_private_offer check_quote require_respond lacks_capability has_capability
    write_offer mark_offered save_request notify_offer notify_all strip
offered_once = refl

offered_twice :
    submit_private_offer
      (env 41)
      (quote 3 800 offered_request)
      (market (offered_request ∷ []) (first_offer ∷ []))
    ≡ ok (second_offer, two_offers)
unfolding submit_private_offer check_quote require_respond lacks_capability has_capability
    write_offer mark_offered save_request notify_offer notify_all strip
offered_twice = refl

-- The third seller offers again: the terms of the submitted offer change.
offered_again :
    submit_private_offer (env 42) (quote 3 700 offered_request) two_offers
    ≡ ok (
      with_terms (quote 3 700 offered_request) second_offer,
      market
          (offered_request ∷ [])
          (with_terms (quote 3 700 offered_request) second_offer ∷ first_offer ∷ []),
    )
unfolding submit_private_offer check_quote require_respond lacks_capability has_capability
    write_offer mark_offered save_request notify_offer notify_all strip
offered_again = refl

abbrev after_acceptance : Market
after_acceptance =
    market (ended 5 closed offered_request ∷ [])
      (decided false second_offer ∷ decided true first_offer ∷ [])

accepted_first :
    decide_offer (env 0) first_offer (boss_of 1) true two_offers
    ≡ ok (decided true first_offer, after_acceptance)
unfolding decide_offer check_decision require_respond lacks_capability has_capability save_decision
    settle_request settle_offers reject_rivals save_request notify_offer_decision notify_all
accepted_first = refl

reached_offers : Reachable two_offers
reached_offers =
    step
      (step (step (start refl) (create (env 30) (business 1) (boss_of 1) fields created))
        (submit (env 40) (quote 2 900 request) refl offered_once))
      (submit (env 41) (quote 3 800 offered_request) refl offered_twice)

reached : Reachable after_acceptance
reached = step reached_offers (decide (env 0) first_offer (boss_of 1) true refl accepted_first)

accepted_at_most_once_example : count_where (accepted_on 30) after_acceptance.offers ≤ 1
accepted_at_most_once_example = accepted_at_most_once reached 30

accepted_settles_example :
    (exists (submitted_on 30) after_acceptance.offers ≡ false)
    × (exists (is_live 30) after_acceptance.requests ≡ false)
accepted_settles_example = accepted_settles reached 30 refl

Reachable-IsValid_example : IsValid after_acceptance
Reachable-IsValid_example = Reachable-IsValid reached

submit_private_offer_replaces_example :
    let q = quote 3 700 offered_request in
    let o' = with_terms q second_offer in
    (count_where (is_open_offer 30 3) (o' ∷ first_offer ∷ []) ≡ 1)
    × (find_first (is_open_offer 30 3) (o' ∷ first_offer ∷ []) ≡ some o')
    × (o'.unit_price ≡ pos 700)
    × (o'.offered_qty_sqm ≡ pos 1000)
submit_private_offer_replaces_example =
    submit_private_offer_replaces (env 42) (quote 3 700 offered_request) two_offers refl
      (Reachable-IsValid reached_offers) offered_again

decide_offer_accepts_example :
    (decided true first_offer ≡ decided true first_offer)
    × (find_first (has_offer_id first_offer.id) after_acceptance.offers
        ≡ some (decided true first_offer))
    × (count_where (accepted_on 30) after_acceptance.offers ≡ 1)
    × (exists (submitted_on 30) after_acceptance.offers ≡ false)
    × (exists (is_live 30) after_acceptance.requests ≡ false)
decide_offer_accepts_example =
    decide_offer_accepts (env 0) first_offer (boss_of 1) two_offers refl
      (Reachable-IsValid reached_offers) accepted_first

abbrev after_cancel : Market
after_cancel =
    market (ended 5 cancelled offered_request ∷ [])
      (decided false second_offer ∷ decided true first_offer ∷ [])

-- A closed request can still be cancelled.
cancelled_after_close :
    close_purchase_request (env 0) (ended 5 closed offered_request) (boss_of 1) after_acceptance
    ≡ ok (ended 5 cancelled offered_request, after_cancel)
unfolding close_purchase_request require_respond lacks_capability has_capability save_request
cancelled_after_close = refl

settled_offer_stays_example :
    find_first (has_offer_id 40) after_cancel.offers ≡ some (decided true first_offer)
settled_offer_stays_example =
    settled_offer_stays 40 (decided true first_offer) reached
      (close (env 0) (ended 5 closed offered_request) (boss_of 1) cancelled_after_close) refl refl

-- A cancelled request keeps its submitted offers, and one of them can still be accepted: the request
-- is closed then.
accepted_after_cancel :
    decide_offer
      (env 0)
      first_offer
      (boss_of 1)
      true
      (market (ended 4 cancelled offered_request ∷ []) (first_offer ∷ []))
    ≡ ok (
      decided true first_offer,
      market (ended 5 closed offered_request ∷ []) (decided true first_offer ∷ []),
    )
unfolding decide_offer check_decision require_respond lacks_capability has_capability save_decision
    settle_request settle_offers reject_rivals save_request notify_offer_decision notify_all
accepted_after_cancel = refl

-- A request read before it was closed passes the guard, and the call opens it again.
reopened_by_stale_read :
    submit_private_offer
      (env 41)
      (quote 3 800 request)
      (market (ended 5 closed request ∷ []) (decided true first_offer ∷ []))
    ≡ ok (
      second_offer,
      market
          (record request { status = offered; closed_at = some 5 } ∷ [])
          (second_offer ∷ decided true first_offer ∷ []),
    )
unfolding submit_private_offer check_quote require_respond lacks_capability has_capability
    write_offer mark_offered save_request notify_offer notify_all strip
reopened_by_stale_read = refl
