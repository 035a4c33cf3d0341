-- ===== src/Pricing/Tests.antt =====
-- Prices of one lot on small inputs, and each theorem at one of them.
use sanga.Common.{
  ℕ, ◌≡◌, refl, true, false, Option, some, none, List, [], ◌∷◌, find_first, ◌==◌, ◌&&◌,
}
use sanga.Common.Int.{pos}
use sanga.Common.Decimal.{finite, quantize}
use sanga.Common.Text.{strip}
use sanga.Common.Results.{ok}
use sanga.Businesses.Permissions.{owner}
use sanga.Businesses.{
  Business, BusinessStatus, Membership, MembershipStatus, has_capability, lacks_capability,
}
use sanga.Contacts.{Contact}
use sanga.Inventory.{InventoryLot, LotStatus, Visibility}
use sanga.Pricing.{PriceUnit, ContactPrice}
use sanga.Pricing.Resolve.{
  b2b_partner, b2c_public, b2b, b2c, contact_tier_code, TieredPrice, Override, get_price,
  price_view, contact_price_row, resolve_visible_prices, resolve_contact_price,
  resolve_prices_for_viewer, effective_price,
}
use sanga.Pricing.Services.{
  require_price_edit, check_ownership, override_amount, OverrideRequest, OverrideTerms, rial,
  is_price_of, new_override, update_or_create, check_override, set_contact_price,
  remove_contact_price,
}
use sanga.Pricing.Disclosure.{resolve_prices_for_viewer_hides}
use sanga.Pricing.Override.{
  own_or, IsOwn, contact_price_row_prefetched, effective_price_partner, resolve_contact_price-IsOwn,
}
use sanga.Pricing.Quoted.{AreQuoted}
use sanga.Pricing.RoundTrip.{IsUnique, set_contact_price_found, remove_contact_price_gone}

abbrev lot : InventoryLot
lot = record {
  id = 60;
  business = 1;
  product = 1;
  warehouse = 1;
  lot_code = [];
  status = LotStatus.available;
  visibility = Visibility.public;
  available_sqm = pos 1000;
  original_sqm = pos 1000;
  slab_count = none;
  bundle_count = none;
  length_cm = none;
  width_cm = none;
  thickness_mm = none;
  grade = [];
  processing_type = [];
  min_sale_qty = pos 0;
  ready_for_loading_at = none;
  photographed_at = none;
  inventory_confirmed_at = none;
  offer_expires_at = none;
  description = [];
  defect_notes = [];
  is_featured = false;
  is_urgent_sale = false;
  archived_at = none;
}

abbrev partner : Business
partner = record {
  id = 2;
  name = [];
  status = BusinessStatus.active;
  phone = [];
  city = [];
  province = [];
  address = [];
  website = [];
  slug = [];
  onboarding_step = 6;
  onboarding_completed_at = none;
}

abbrev colleague : Contact
colleague = record {
  id = 10;
  business = 1;
  display_name = [];
  phone = [];
  address = [];
  notes = [];
  linked_business = some 2;
  is_active = true;
}

abbrev boss : Option Membership
boss = some (record {
  id = 1;
  user = 7;
  business = 1;
  role = owner;
  permissions = [];
  status = MembershipStatus.active;
})

abbrev lot_prices : List TieredPrice
lot_prices =
    (record {
      price = record {
        id = 1;
        lot = 60;
        tier = 1;
        amount = pos 900;
        currency = rial;
        unit = PriceUnit.per_sqm;
      };
      tier = record { id = 1; code = b2b; is_active = true };
    })
    ∷ (record {
      price = record {
        id = 2;
        lot = 60;
        tier = 2;
        amount = pos 1200;
        currency = rial;
        unit = PriceUnit.per_sqm;
      };
      tier = record { id = 2; code = b2c; is_active = true };
    })
    ∷ []

abbrev terms : OverrideTerms
terms = record { amount = pos 80000; currency = rial; unit = PriceUnit.per_sqm; user = 7 }

abbrev own_price : ContactPrice
own_price = new_override 70 10 60 terms

abbrev overrides : List Override
overrides = (record { price = own_price; contact = colleague }) ∷ []

-- The public sees neither the colleagues' price nor a price for one contact.
resolve_prices_for_viewer_hides_example :
    get_price b2b
      (resolve_prices_for_viewer lot lot_prices b2c_public (some partner) true none overrides)
    ≡ none
resolve_prices_for_viewer_hides_example =
    resolve_prices_for_viewer_hides lot lot_prices b2c_public (some partner) true none overrides b2b
      refl

effective_price_partner_example :
    effective_price
      (resolve_prices_for_viewer lot lot_prices b2b_partner (some partner) true none overrides)
      b2b_partner
    ≡ own_or
        (resolve_contact_price lot (some partner) b2b_partner none overrides)
        (get_price b2b (resolve_visible_prices lot_prices b2b_partner true))
effective_price_partner_example =
    effective_price_partner lot lot_prices (some partner) true none overrides

contact_price_row_prefetched_example :
    contact_price_row lot partner (some overrides) [] ≡ contact_price_row lot partner none overrides
contact_price_row_prefetched_example = contact_price_row_prefetched lot partner overrides []

own_shown :
    resolve_contact_price lot (some partner) b2b_partner none overrides
    ≡ some (price_view contact_tier_code (pos 80000) rial PriceUnit.per_sqm)
unfolding resolve_contact_price contact_price_row
own_shown = refl

own_shown_prefetched :
    resolve_contact_price lot (some partner) b2b_partner (some overrides) []
    ≡ some (price_view contact_tier_code (pos 80000) rial PriceUnit.per_sqm)
unfolding resolve_contact_price contact_price_row
own_shown_prefetched = refl

resolve_contact_price-IsOwn_example :
    (b2b_partner ≡ b2b_partner)
    × IsOwn lot
        (some partner)
        overrides
        (price_view contact_tier_code (pos 80000) rial PriceUnit.per_sqm)
resolve_contact_price-IsOwn_example =
    resolve_contact_price-IsOwn lot (some partner) b2b_partner none overrides own_shown

abbrev override_request : OverrideRequest
override_request = record {
  lot = lot;
  contact = colleague;
  membership = boss;
  amount = finite false 800 (pos 0);
  currency = [];
  unit = some PriceUnit.per_sqm;
}

own_price_set : set_contact_price 70 override_request [] ≡ ok (own_price, own_price ∷ [])
unfolding set_contact_price check_override require_price_edit check_ownership lacks_capability
    has_capability override_amount quantize strip update_or_create
own_price_set = refl

set_contact_price_found_example :
    IsUnique (own_price ∷ [])
    × (find_first (is_price_of 10 60) (own_price ∷ []) ≡ some own_price)
    × ((t : OverrideTerms) × AreQuoted override_request t
        × (own_price.amount ≡ t.amount)
        × (own_price.currency ≡ t.currency)
        × (own_price.unit ≡ t.unit)
        × (own_price.created_by ≡ t.user))
    × ((c l : ℕ)
        → (10 == c && 60 == l) ≡ false
        → find_first (is_price_of c l) (own_price ∷ []) ≡ find_first (is_price_of c l) [])
set_contact_price_found_example = set_contact_price_found 70 override_request [] tt own_price_set

own_price_removed : remove_contact_price lot colleague boss (own_price ∷ []) ≡ ok []
unfolding remove_contact_price require_price_edit check_ownership lacks_capability has_capability
own_price_removed = refl

remove_contact_price_gone_example :
    (find_first (is_price_of 10 60) [] ≡ none)
    × ((c l : ℕ)
        → (10 == c && 60 == l) ≡ false
        → find_first (is_price_of c l) [] ≡ find_first (is_price_of c l) (own_price ∷ []))
remove_contact_price_gone_example =
    remove_contact_price_gone lot colleague boss (own_price ∷ []) own_price_removed
