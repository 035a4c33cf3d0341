-- ===== src/Marketplace/Tests.antt =====
-- A public and a private lot on the marketplace.
use sanga.Common.{
  ℕ, ◌≡◌, refl, true, false, some, none, List, [], ◌∷◌, ◌==◌, ◌&&◌, count_where, if◌then◌else◌,
}
use sanga.Common.Int.{pos}
use sanga.Businesses.{Business, BusinessStatus}
use sanga.Inventory.{InventoryLot, Visibility, available}
use sanga.Catalog.Selectors.{public_catalog_lots}
use sanga.Marketplace.{is_listed_before, marketplace_lots_for}
use sanga.Marketplace.Storefront.{is_public_of, marketplace_lots_for-storefront}

abbrev business : ℕ → BusinessStatus → Business
business i status = record {
  id = i;
  name = [];
  slug = [];
  status = status;
  phone = [];
  city = [];
  province = [];
  address = [];
  website = [];
  onboarding_step = 99;
  onboarding_completed_at = some 1;
}

abbrev lot : ℕ → ℕ → Visibility → InventoryLot
lot i owner visibility = record {
  id = i;
  business = owner;
  product = 1;
  warehouse = 1;
  lot_code = [];
  status = available;
  visibility = visibility;
  available_sqm = pos 1000;
  original_sqm = pos 2000;
  slab_count = none;
  bundle_count = none;
  length_cm = none;
  width_cm = none;
  thickness_mm = none;
  grade = [];
  processing_type = [];
  min_sale_qty = pos 0;
  ready_for_loading_at = none;
  photographed_at = none;
  inventory_confirmed_at = some 0;
  offer_expires_at = none;
  description = [];
  defect_notes = [];
  is_featured = false;
  is_urgent_sale = false;
  archived_at = none;
}

abbrev lots : List InventoryLot
lots =
    lot 1 5 Visibility.public
    ∷ lot 2 5 Visibility.private
    ∷ lot 3 5 Visibility.colleagues
    ∷ lot 4 6 Visibility.public
    ∷ []

abbrev businesses : List Business
businesses = business 5 BusinessStatus.active ∷ business 6 BusinessStatus.active ∷ []

-- The lots were all updated at one time, but the third.
abbrev updated_at : ℕ → ℕ
updated_at i = if i == 3 then 9 else 4

seen_by_a_colleague :
    marketplace_lots_for updated_at (some (business 6 BusinessStatus.active)) businesses lots
    ≡ lot 3 5 Visibility.colleagues ∷ lot 1 5 Visibility.public ∷ []
unfolding marketplace_lots_for
seen_by_a_colleague = refl

-- An urgent sale comes first, and on the marketplace then a lot that was never confirmed.
urgent_first :
    is_listed_before updated_at
      (record (lot 1 5 Visibility.public) { is_urgent_sale = true })
      (lot 3 5 Visibility.public)
    ≡ true
urgent_first = refl

unconfirmed_first :
    is_listed_before updated_at
      (lot 3 5 Visibility.public)
      (record (lot 1 5 Visibility.public) { inventory_confirmed_at = none })
    ≡ false
unconfirmed_first = refl

suspended_sees_nothing :
    marketplace_lots_for updated_at (some (business 6 BusinessStatus.suspended)) businesses lots
    ≡ []
unfolding marketplace_lots_for
suspended_sees_nothing = refl

marketplace_lots_for-storefront_example :
    count_where
      (λ lot. is_public_of 5 lot && lot.id == 1)
      (marketplace_lots_for updated_at (some (business 6 BusinessStatus.active)) businesses lots)
    ≡ count_where (λ (lot : InventoryLot). lot.id == 1) (public_catalog_lots updated_at 5 lots)
marketplace_lots_for-storefront_example =
    marketplace_lots_for-storefront updated_at (business 6 BusinessStatus.active) 5 businesses lots
      refl refl refl (λ lot. lot.id == 1)
