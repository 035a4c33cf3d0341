-- ===== src/PurchaseRequests/Offers.antt =====
-- apps/purchase_requests/services.py: `submit_private_offer`.
use sanga.Common.{
  ℕ, ◌==◌, Bool, true, false, Option, none, some, List, ◌∷◌, ◌&&◌, ◌||◌, not, if◌then◌else◌, exists,
  find_first, update_where,
}
use sanga.Common.Int.{ℤ, is_pos, is_neg}
use sanga.Common.Text.{Text, strip}
use sanga.Common.Results.{Result, ok, err, ◌>>=◌, ◌>>◌, raise_if}
use sanga.Businesses.{Business, Membership}
use sanga.Inventory.{InventoryLot}
use sanga.PurchaseRequests.{
  RequestStatus, open_, matching, offered, closed, cancelled, submitted, PurchaseRequest,
  PurchaseOffer, is_submitted,
}
use sanga.PurchaseRequests.Tables.{
  PurchaseRequestError, invalid_access, seller_inactive, buyer_inactive, own_request, request_over,
  invalid_offer, foreign_lot, integrity_error, data_error, no_rows_affected, Market, Env,
  require_respond, require_active, get_business, fits_optional,
}
use sanga.PurchaseRequests.Notify.{notify_offer}

-- `status in {CLOSED, CANCELLED}`
abbrev pub is_over : RequestStatus → Bool
is_over closed = true
is_over cancelled = true
is_over _ = false

-- `status in {OPEN, MATCHING}`
abbrev pub awaits_offers : RequestStatus → Bool
awaits_offers open_ = true
awaits_offers matching = true
awaits_offers _ = false

-- The condition of `uniq_open_offer_per_seller_pr`, and of the query for the offer to replace.
abbrev pub is_open_offer : ℕ → ℕ → PurchaseOffer → Bool
is_open_offer request seller o =
    o.purchase_request == request && (o.seller_business == seller && is_submitted o.status)

abbrev pub lot_of_other : ℕ → Option InventoryLot → Bool
lot_of_other seller none = false
lot_of_other seller (some lot) = not (lot.business == seller)

-- The arguments of `submit_private_offer`.
pub record Quote : Type 0 where
  pub request : PurchaseRequest
  pub seller : Business
  pub membership : Membership
  pub unit_price : ℤ
  pub offered_qty_sqm : ℤ
  pub message : Text
  pub lot : Option InventoryLot

abbrev pub quoted_lot : Option InventoryLot → Option ℕ
quoted_lot none = none
quoted_lot (some lot) = some lot.id

-- The guards of `submit_private_offer`, with the buyer that they read.
unfoldable pub check_quote : Quote → List Business → Result PurchaseRequestError Business
unfolding require_respond
check_quote q rows = do
  raise_if (not (q.membership.business == q.seller.id)) invalid_access
  require_respond q.membership
  require_active q.seller seller_inactive
  buyer ← get_business q.request.business rows
  require_active buyer buyer_inactive
  raise_if (q.seller.id == q.request.business) own_request
  raise_if (is_over q.request.status) request_over
  raise_if (is_neg q.unit_price || not (is_pos q.offered_qty_sqm)) invalid_offer
  raise_if (lot_of_other q.seller.id q.lot) foreign_lot
  ok buyer

-- The offer found, with the new terms.
abbrev pub with_terms : Quote → PurchaseOffer → PurchaseOffer
with_terms q o = record o {
  unit_price = q.unit_price;
  offered_qty_sqm = q.offered_qty_sqm;
  message = strip q.message;
  lot = quoted_lot q.lot;
}

abbrev pub new_offer : Env → Quote → PurchaseOffer
new_offer env q = record {
  id = env.uuid;
  purchase_request = q.request.id;
  seller_business = q.seller.id;
  created_by = q.membership.user;
  lot = quoted_lot q.lot;
  unit_price = q.unit_price;
  offered_qty_sqm = q.offered_qty_sqm;
  message = strip q.message;
  status = submitted;
  created_at = env.now;
}

abbrev pub offer_fits : PurchaseOffer → Bool
offer_fits o = fits_optional 14 (some o.unit_price) && fits_optional 12 (some o.offered_qty_sqm)

abbrev pub has_offer_id : ℕ → PurchaseOffer → Bool
has_offer_id i o = o.id == i

-- The offer written: the seller's submitted one with new terms, or a new row. The constraint
-- leaves one submitted offer at most, so the order of the query is of no matter.
unfoldable pub write_offer :
    Env
    → Quote
    → List PurchaseOffer
    → Result PurchaseRequestError (PurchaseOffer × List PurchaseOffer)
write_offer env q offers = elim (find_first (is_open_offer q.request.id q.seller.id) offers) [
  | some o ↦
      if offer_fits (with_terms q o)
      then ok (with_terms q o, update_where (has_offer_id o.id) (with_terms q) offers)
      else err data_error
  | none ↦
      if offer_fits (new_offer env q)
      then if exists (has_offer_id env.uuid) offers
        then err integrity_error
        else ok (new_offer env q, new_offer env q ∷ offers)
      else err data_error
]

abbrev pub has_request_id : ℕ → PurchaseRequest → Bool
has_request_id i r = r.id == i

-- `save(update_fields=...)` of a request: it raises if the row is gone.
unfoldable pub save_request :
    ℕ
    → (PurchaseRequest → PurchaseRequest)
    → List PurchaseRequest
    → Result PurchaseRequestError (List PurchaseRequest)
save_request pk fields rows =
    if exists (has_request_id pk) rows
    then ok (update_where (has_request_id pk) fields rows)
    else err no_rows_affected

-- The status that an offer moves its request to.
unfoldable pub mark_offered :
    PurchaseRequest → List PurchaseRequest → Result PurchaseRequestError (List PurchaseRequest)
unfolding save_request
mark_offered r rows = elim (awaits_offers r.status) [
  | true ↦ save_request r.id (λ (row : PurchaseRequest). record row { status = offered }) rows
  | false ↦ ok rows
]

-- `submit_private_offer`
unfoldable pub submit_private_offer :
    Env → Quote → Market → Result PurchaseRequestError (PurchaseOffer × Market)
submit_private_offer env q market = do
  buyer ← check_quote q market.businesses
  (offer, offers) ← write_offer env q market.offers
  requests ← mark_offered q.request market.requests
  let written = record market { offers = offers; requests = requests }
  ok (offer, record written { notifications = notify_offer env q.seller q.request market })
