-- ===== src/PurchaseRequests/Tables.antt =====
-- apps/purchase_requests/services.py: its exceptions, the tables it works on, and the checks that its
-- services share. Each service runs in one transaction, so what raises changes nothing. The objects
-- that a service is given were read before and may be stale; the objects that it follows a foreign
-- key to (`purchase_request.business`, `offer.purchase_request`) are read from the tables.
use sanga.Common.{ℕ, ◌^◌, ◌==◌, Bool, true, Option, none, some, List, not, ltb, find_first}
use sanga.Common.Int.{ℤ, magnitude}
use sanga.Common.Text.{Text}
use sanga.Common.Results.{Result, raise_if, or_raise}
use sanga.Businesses.Permissions.{inquiries_respond}
use sanga.Businesses.{Business, Membership, lacks_capability, is_active_business}
use sanga.Notifications.{Notification}
use sanga.PurchaseRequests.{PurchaseRequest, PurchaseOffer}

-- The messages of `PurchaseRequestError`, and the exceptions of the database that can pass through.
pub data PurchaseRequestError : Type 0 where
  invalid_access may_not_respond seller_inactive buyer_inactive : PurchaseRequestError
  title_too_short invalid_quantity own_request request_over : PurchaseRequestError
  invalid_offer foreign_lot not_decidable : PurchaseRequestError
  does_not_exist integrity_error data_error no_rows_affected : PurchaseRequestError

-- The tables that the services use.
pub record Market : Type 0 where
  pub businesses : List Business
  pub memberships : List Membership
  pub requests : List PurchaseRequest
  pub offers : List PurchaseOffer
  pub notifications : List Notification

-- What a call draws from outside: the new row's UUID, those of the notifications, the clock, and
-- the text of a UUID.
pub record Env : Type 0 where
  pub uuid : ℕ
  pub note_uuid : ℕ → ℕ
  pub now : ℕ
  pub uuid_text : ℕ → Text

-- `_require_respond`
unfoldable pub require_respond : Membership → Result PurchaseRequestError (Unit {0})
unfolding lacks_capability
require_respond m = raise_if (lacks_capability (some m) inquiries_respond) may_not_respond

-- `_require_active_network_business`, for a business that is there.
abbrev pub require_active : Business → PurchaseRequestError → Result PurchaseRequestError (Unit {0})
require_active b message = raise_if (not (is_active_business b)) message

-- A foreign key followed: the row of that primary key.
abbrev pub get_business : ℕ → List Business → Result PurchaseRequestError Business
get_business pk rows = or_raise (find_first (λ (b : Business). b.id == pk) rows) does_not_exist

abbrev pub get_request : ℕ → List PurchaseRequest → Result PurchaseRequestError PurchaseRequest
get_request pk rows =
    or_raise (find_first (λ (r : PurchaseRequest). r.id == pk) rows) does_not_exist

-- A number that fits a decimal column of so many digits.
abbrev pub fits_optional : ℕ → Option ℤ → Bool
fits_optional digits none = true
fits_optional digits (some n) = ltb (magnitude n) (10 ^ digits)
