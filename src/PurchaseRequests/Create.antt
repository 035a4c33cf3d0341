-- ===== src/PurchaseRequests/Create.antt =====
-- apps/purchase_requests/services.py: `create_purchase_request`.
use sanga.Common.{ℕ, ◌==◌, Bool, true, Option, none, some, ◌∷◌, ◌&&◌, not, ltb, leb, exists, length}
use sanga.Common.Int.{ℤ, is_pos}
use sanga.Common.Text.{Text, codes, strip, or_text}
use sanga.Common.Results.{Result, ok, ◌>>=◌, ◌>>◌, raise_if, or_raise}
use sanga.Businesses.{Business, Membership}
use sanga.PurchaseRequests.{open_, PurchaseRequest}
use sanga.PurchaseRequests.Tables.{
  PurchaseRequestError, invalid_access, title_too_short, invalid_quantity, integrity_error,
  data_error, Market, Env, require_respond, fits_optional,
}

-- The keyword arguments of `create_purchase_request`. An absent text and an empty one are the
-- same to it; an absent flag (`none`) counts as true.
pub record RequestFields : Type 0 where
  pub title : Text
  pub stone_type : Text
  pub category : Text
  pub color : Text
  pub application : Text
  pub required_qty_sqm : Option ℤ
  pub thickness_mm : Option ℤ
  pub length_cm : Option ℤ
  pub width_cm : Option ℤ
  pub acceptable_grade : Text
  pub budget_amount : Option ℤ
  pub budget_currency : Text
  pub destination_city : Text
  pub required_by : Option ℕ
  pub similar_accepted : Option Bool
  pub notes : Text
  pub is_public_to_network : Option Bool

abbrev pub or_true : Option Bool → Bool
or_true none = true
or_true (some b) = b

abbrev pub rial : Text
rial = codes "IRR"

-- The row that `create_purchase_request` builds.
abbrev pub new_request : Env → ℕ → ℕ → ℤ → RequestFields → PurchaseRequest
new_request env business user qty f = record {
  id = env.uuid;
  business = business;
  created_by = user;
  title = strip f.title;
  stone_type = strip f.stone_type;
  category = strip f.category;
  color = strip f.color;
  application = strip f.application;
  required_qty_sqm = qty;
  thickness_mm = f.thickness_mm;
  length_cm = f.length_cm;
  width_cm = f.width_cm;
  acceptable_grade = strip f.acceptable_grade;
  budget_amount = f.budget_amount;
  budget_currency = or_text f.budget_currency rial;
  destination_city = strip f.destination_city;
  required_by = f.required_by;
  similar_accepted = or_true f.similar_accepted;
  notes = strip f.notes;
  status = open_;
  is_public_to_network = or_true f.is_public_to_network;
  created_at = env.now;
  closed_at = none;
}

-- The widths of the columns of `PurchaseRequest`.
abbrev pub request_fits : PurchaseRequest → Bool
request_fits r =
    leb (length r.title) 200
    && (leb (length r.stone_type) 100
        && (leb (length r.category) 100
            && (leb (length r.color) 100
                && (leb (length r.application) 150
                    && (leb (length r.acceptable_grade) 50
                        && (leb (length r.budget_currency) 3
                            && (leb (length r.destination_city) 100
                                && (fits_optional 12 (some r.required_qty_sqm)
                                    && (fits_optional 8 r.thickness_mm
                                        && (fits_optional 8 r.length_cm
                                            && (fits_optional 8 r.width_cm
                                                && fits_optional 14 r.budget_amount)))))))))))

-- `create_purchase_request`
unfoldable pub create_purchase_request :
    Env
    → Business
    → Membership
    → RequestFields
    → Market
    → Result PurchaseRequestError (PurchaseRequest × Market)
unfolding require_respond
create_purchase_request env business m f market = do
  raise_if (not (m.business == business.id)) invalid_access
  require_respond m
  raise_if (ltb (length (strip f.title)) 3) title_too_short
  qty ← or_raise f.required_qty_sqm invalid_quantity
  raise_if (not (is_pos qty)) invalid_quantity
  let row = new_request env business.id m.user qty f
  raise_if (not (request_fits row)) data_error
  raise_if (exists (λ (r : PurchaseRequest). r.id == env.uuid) market.requests) integrity_error
  ok (row, record market { requests = row ∷ market.requests })
