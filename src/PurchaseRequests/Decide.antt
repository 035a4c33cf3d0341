-- ===== src/PurchaseRequests/Decide.antt =====
-- apps/purchase_requests/services.py: `decide_offer` and `close_purchase_request`.
use sanga.Common.{
  ℕ, ◌==◌, Bool, true, false, some, List, ◌&&◌, not, if◌then◌else◌, exists, update_where,
}
use sanga.Common.Results.{Result, ok, err, ◌>>=◌, ◌>>◌, raise_if}
use sanga.Businesses.{Business, Membership}
use sanga.PurchaseRequests.{
  RequestStatus, closed, cancelled, accepted, rejected, PurchaseRequest, PurchaseOffer,
  is_submitted,
}
use sanga.PurchaseRequests.Tables.{
  PurchaseRequestError, invalid_access, seller_inactive, buyer_inactive, not_decidable,
  no_rows_affected, Market, Env, require_respond, require_active, get_business, get_request,
}
use sanga.PurchaseRequests.Offers.{has_offer_id, save_request}
use sanga.PurchaseRequests.Notify.{notify_offer_decision}

-- What the guards of `decide_offer` have read.
pub record Parties : Type 0 where
  pub request : PurchaseRequest
  pub buyer : Business
  pub seller : Business

-- The guards of `decide_offer`.
unfoldable pub check_decision :
    PurchaseOffer → Membership → Market → Result PurchaseRequestError Parties
unfolding require_respond
check_decision offer m market = do
  request ← get_request offer.purchase_request market.requests
  raise_if (not (m.business == request.business)) invalid_access
  require_respond m
  buyer ← get_business request.business market.businesses
  require_active buyer buyer_inactive
  seller ← get_business offer.seller_business market.businesses
  require_active seller seller_inactive
  raise_if (not (is_submitted offer.status)) not_decidable
  ok (record { request = request; buyer = buyer; seller = seller })

abbrev pub decided : Bool → PurchaseOffer → PurchaseOffer
decided accept o = record o { status = if accept then accepted else rejected }

-- `offer.save(update_fields=["status", ...])`
unfoldable pub save_decision :
    ℕ → Bool → List PurchaseOffer → Result PurchaseRequestError (List PurchaseOffer)
save_decision pk accept offers =
    if exists (has_offer_id pk) offers
    then ok (update_where (has_offer_id pk) (decided accept) offers)
    else err no_rows_affected

-- The other submitted offers on the request.
abbrev pub is_rival : ℕ → ℕ → PurchaseOffer → Bool
is_rival request pk o = o.purchase_request == request && (is_submitted o.status && not (o.id == pk))

unfoldable pub reject_rivals : ℕ → ℕ → List PurchaseOffer → List PurchaseOffer
reject_rivals request pk = update_where (is_rival request pk) (decided false)

-- `pr.status = ...; pr.closed_at = timezone.now()`
abbrev pub ended : ℕ → RequestStatus → PurchaseRequest → PurchaseRequest
ended now status r = record r { status = status; closed_at = some now }

-- The request once an offer is decided on: accepting closes it.
unfoldable pub settle_request :
    Env → Bool → ℕ → List PurchaseRequest → Result PurchaseRequestError (List PurchaseRequest)
settle_request env true request rows = save_request request (ended env.now closed) rows
settle_request env false request rows = ok rows

-- The other offers: accepting one rejects the submitted ones.
unfoldable pub settle_offers : Bool → (request pk : ℕ) → List PurchaseOffer → List PurchaseOffer
unfolding reject_rivals
settle_offers true request pk offers = reject_rivals request pk offers
settle_offers false request pk offers = offers

-- `decide_offer`
unfoldable pub decide_offer :
    Env
    → PurchaseOffer
    → Membership
    → Bool
    → Market
    → Result PurchaseRequestError (PurchaseOffer × Market)
decide_offer env offer m accept market = do
  p ← check_decision offer m market
  offers ← save_decision offer.id accept market.offers
  requests ← settle_request env accept p.request.id market.requests
  let written = record market {
    offers = settle_offers accept p.request.id offer.id offers;
    requests = requests;
  }
  let notes = notify_offer_decision env offer p.request p.buyer accept market
  ok (decided accept offer, record written { notifications = notes })

-- `close_purchase_request`
unfoldable pub close_purchase_request :
    Env
    → PurchaseRequest
    → Membership
    → Market
    → Result PurchaseRequestError (PurchaseRequest × Market)
unfolding require_respond
close_purchase_request env r m market = do
  raise_if (not (m.business == r.business)) invalid_access
  require_respond m
  requests ← save_request r.id (ended env.now cancelled) market.requests
  ok (ended env.now cancelled r, record market { requests = requests })
