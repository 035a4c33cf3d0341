-- ===== src/PurchaseRequests.antt =====
-- apps/purchase_requests: demand and the private offers on it (models.py). Prices are in hundredths,
-- quantities in thousandths.
pub mod Tables
pub mod Create
pub mod Notify
pub mod Offers
pub mod Decide
pub mod Board
pub mod Valid
pub mod Decided
pub mod Decision
pub mod Submitted
pub mod Submission
pub mod Steps
pub mod Acceptance
pub mod Settled
mod Tests
mod Labels
use sanga.Common.{ℕ, Bool, true, false, Option}
use sanga.Common.Int.{ℤ}
use sanga.Common.Text.{Text}

-- `PurchaseRequest.Status`
pub data RequestStatus : Type 0 where
  open_ matching offered closed cancelled : RequestStatus

-- `PurchaseOffer.Status`
pub data OfferStatus : Type 0 where
  submitted withdrawn accepted rejected : OfferStatus

pub record PurchaseRequest : Type 0 where
  pub id : ℕ
  pub business : ℕ
  pub created_by : ℕ
  pub title : Text
  pub stone_type : Text
  pub category : Text
  pub color : Text
  pub application : Text
  pub required_qty_sqm : ℤ
  pub thickness_mm : Option ℤ
  pub length_cm : Option ℤ
  pub width_cm : Option ℤ
  pub acceptable_grade : Text
  pub budget_amount : Option ℤ
  pub budget_currency : Text
  pub destination_city : Text
  pub required_by : Option ℕ
  pub similar_accepted : Bool
  pub notes : Text
  pub status : RequestStatus
  pub is_public_to_network : Bool
  pub created_at : ℕ
  pub closed_at : Option ℕ

pub record PurchaseOffer : Type 0 where
  pub id : ℕ
  pub purchase_request : ℕ
  pub seller_business : ℕ
  pub created_by : ℕ
  pub lot : Option ℕ
  pub unit_price : ℤ
  pub offered_qty_sqm : ℤ
  pub message : Text
  pub status : OfferStatus
  pub created_at : ℕ

abbrev pub is_submitted : OfferStatus → Bool
is_submitted submitted = true
is_submitted _ = false

abbrev pub is_accepted : OfferStatus → Bool
is_accepted accepted = true
is_accepted _ = false
