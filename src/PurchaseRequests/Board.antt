-- ===== src/PurchaseRequests/Board.antt =====
-- apps/purchase_requests/selectors.py: whose demand a business sees.
use sanga.Common.{
  ℕ, ◌==◌, Bool, Option, none, some, List, [], ◌&&◌, not, if◌then◌else◌, exists, where_, find_first,
}
use sanga.Businesses.{Business, is_active_business}
use sanga.PurchaseRequests.{PurchaseRequest}
use sanga.PurchaseRequests.Offers.{is_over}

-- The requesting business is there and active, as the join on it wants.
abbrev pub buyer_is_active : List Business → PurchaseRequest → Bool
buyer_is_active rows r = exists (λ (b : Business). b.id == r.business && is_active_business b) rows

-- The filters of `network_purchase_requests`; the three statuses listed are those not over.
abbrev pub on_board : List Business → Business → PurchaseRequest → Bool
on_board rows viewer r =
    buyer_is_active rows r
    && (r.is_public_to_network && (not (is_over r.status) && not (r.business == viewer.id)))

-- `network_purchase_requests`, for a viewer that may be none.
unfoldable pub network_purchase_requests :
    List Business → Option Business → List PurchaseRequest → List PurchaseRequest
network_purchase_requests rows none requests = []
network_purchase_requests rows (some viewer) requests =
    let board = where_ (on_board rows viewer) requests in
    if is_active_business viewer then board else []

-- `my_purchase_requests`
unfoldable pub my_purchase_requests : Business → List PurchaseRequest → List PurchaseRequest
my_purchase_requests business = where_ (λ (r : PurchaseRequest). r.business == business.id)

-- `get_own_request` and `get_network_request`
unfoldable pub get_own_request : Business → ℕ → List PurchaseRequest → Option PurchaseRequest
unfolding my_purchase_requests
get_own_request business pk requests =
    find_first (λ (r : PurchaseRequest). r.id == pk) (my_purchase_requests business requests)

unfoldable pub get_network_request :
    List Business → Option Business → ℕ → List PurchaseRequest → Option PurchaseRequest
unfolding network_purchase_requests
get_network_request rows viewer pk requests =
    find_first (λ (r : PurchaseRequest). r.id == pk)
      (network_purchase_requests rows viewer requests)
