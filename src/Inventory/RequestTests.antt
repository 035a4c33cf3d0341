-- ===== src/Inventory/RequestTests.antt =====
-- Requests on small tables: a lot that is drafted, published, sold and photographed.
use sanga.Common.{arith, ℕ, ◌≡◌, refl, Bool, true, false, some, none, List, [], ◌∷◌, where_}
use sanga.Common.Int.{pos, negsuc}
use sanga.Common.Text.{codes, strip, lstrip}
use sanga.Common.Results.{ok, err}
use sanga.Businesses.Permissions.{owner}
use sanga.Businesses.{Membership, MembershipStatus, Warehouse, lacks_capability, has_capability}
use sanga.Inventory.{InventoryLot, Product, Visibility, sold}
use sanga.Inventory.Table.{
  integrity_error, foreign_lot, not_updated, require, create_lot, save_lot, save_fields,
  get_business_lot,
}
use sanga.Inventory.Drafts.{LotForm, draft_lot, create_draft_lot, duplicate_lot}
use sanga.Inventory.Edits.{
  LotChanges, with_changes, update_lot_fields, with_visibility, set_visibility_and_status,
}
use sanga.Inventory.States.{mark_lot_sold}
use sanga.Inventory.Changes.{IsValid, is_foreign_to}
use sanga.Inventory.Requests.{Request}
use sanga.Inventory.Isolation.{Reachable, lots_stay-IsValid, Request-isolated}
use sanga.Inventory.Media.{
  LotMedia, lot_error, image, Upload, is_allowed, media_kind, settle_primary, new_media,
  mark_photographed, add_lot_media,
}
use sanga.Inventory.Primary.{HasOnePrimary, add_lot_media-HasOnePrimary}

abbrev member : ℕ → Membership
member business = record {
  id = 1;
  user = 7;
  business = business;
  role = owner;
  permissions = [];
  status = MembershipStatus.active;
}

abbrev product : ℕ → Product
product business = record {
  id = 20;
  business = business;
  commercial_name = codes "A1";
  slug = codes "a1";
  stone_type = [];
  quarry_region = [];
  primary_color = [];
  is_active = true;
}

abbrev warehouse : ℕ → Warehouse
warehouse business = record {
  id = 30;
  business = business;
  name = [];
  city = [];
  address = [];
  is_default = true;
}

abbrev form : LotForm
form = record {
  lot_code = codes " L-7 ";
  grade = [];
  processing_type = [];
  description = [];
  available_sqm = some (pos 1500);
  original_sqm = none;
  length_cm = none;
  width_cm = none;
  thickness_mm = none;
  slab_count = none;
}

abbrev lot : ℕ → ℕ → InventoryLot
lot uuid business =
    draft_lot uuid business (product business) (warehouse business) (codes "L-7") form

abbrev two_lots : List InventoryLot
two_lots = lot 2 6 ∷ lot 1 5 ∷ []

drafted :
    create_draft_lot 1 [] 5 (some (member 5)) (product 5) (warehouse 5) form [] ≡ ok (lot 1 5 ∷ [])
unfolding create_draft_lot create_lot require lacks_capability has_capability strip lstrip
drafted = refl

drafted_again :
    create_draft_lot 2 [] 6 (some (member 6)) (product 6) (warehouse 6) form (lot 1 5 ∷ [])
    ≡ ok two_lots
unfolding create_draft_lot create_lot require lacks_capability has_capability strip lstrip
drafted_again = refl

-- The code of a copy is not checked before it is inserted.
duplicate_code_taken :
    duplicate_lot 3 (codes "L-7") (lot 1 5) (some (member 5)) two_lots ≡ err integrity_error
unfolding duplicate_lot create_lot require lacks_capability has_capability strip lstrip
duplicate_code_taken = refl

-- A negative quantity passes the guards of an edit, and stops at the constraint of the column.
abbrev no_changes : LotChanges
no_changes = record {
  grade = none;
  processing_type = none;
  description = none;
  defect_notes = none;
  available_sqm = some (negsuc 0);
  original_sqm = none;
  length_cm = none;
  width_cm = none;
  thickness_mm = none;
  slab_count = none;
  bundle_count = none;
  min_sale_qty = none;
  ready_for_loading_at = none;
  photographed_at = none;
  offer_expires_at = none;
  is_featured = none;
  is_urgent_sale = none;
  warehouse = none;
}

edited_below_zero :
    update_lot_fields (lot 1 5) (some (member 5)) no_changes two_lots ≡ err integrity_error
unfolding update_lot_fields save_lot with_changes require lacks_capability has_capability strip
    lstrip
edited_below_zero = refl

published :
    set_visibility_and_status 100 (lot 1 5) (member 5) (some Visibility.public) true false two_lots
    ≡ ok (lot 2 6 ∷ with_visibility 100 Visibility.public true false (lot 1 5) ∷ [])
unfolding set_visibility_and_status save_lot with_visibility lacks_capability has_capability strip
    lstrip
published = refl

abbrev sold_lot : InventoryLot
sold_lot = record (lot 1 5) { status = sold; available_sqm = pos 0 }

sold_out : mark_lot_sold (lot 1 5) (some (member 5)) two_lots ≡ ok (lot 2 6 ∷ sold_lot ∷ [])
unfolding mark_lot_sold save_fields require lacks_capability has_capability strip lstrip
sold_out = refl

loaded : get_business_lot 5 1 two_lots ≡ some (lot 1 5)
unfolding get_business_lot
loaded = refl

-- The lot of another business does not get past the guard.
sold_by_another : mark_lot_sold (lot 1 5) (some (member 6)) two_lots ≡ err foreign_lot
unfolding mark_lot_sold require lacks_capability has_capability strip lstrip
sold_by_another = refl

abbrev reached : Reachable two_lots
reached =
    Reachable.request 6 (some (member 6))
      (Reachable.request 5 (some (member 5)) Reachable.start
        (Request.create 1 [] (product 5) (warehouse 5) form drafted))
      (Request.create 2 [] (product 6) (warehouse 6) form drafted_again)

lots_stay-IsValid_example : IsValid two_lots
lots_stay-IsValid_example = lots_stay-IsValid reached

Request-isolated_example :
    where_ (is_foreign_to 5) (lot 2 6 ∷ sold_lot ∷ []) ≡ where_ (is_foreign_to 5) two_lots
Request-isolated_example =
    Request-isolated (member 5) reached (Request.sell 1 (lot 1 5) refl sold_out)

abbrev picture : Upload
picture = record { file = 90; name = codes "a.jpg"; content_type = [] }

abbrev media : ℕ → ℕ → Bool → LotMedia
media uuid order is_primary = record {
  id = uuid;
  lot = 1;
  kind = image;
  file = 90;
  caption = [];
  sort_order = order;
  is_primary = is_primary;
}

-- The second picture takes the place of the first as the primary one.
second_picture :
    add_lot_media
      (λ t. t)
      41
      300
      (lot 1 5)
      (some (member 5))
      picture
      true
      []
      (lot 1 5 ∷ [])
      (media 40 0 true ∷ [])
    ≡ ok (
      record (lot 1 5) { photographed_at = some 300 } ∷ [],
      media 41 1 true ∷ media 40 0 false ∷ [],
    )
unfolding add_lot_media require lacks_capability has_capability is_allowed media_kind settle_primary
    new_media mark_photographed save_fields strip lstrip
second_picture = refl

-- The first picture of a lot whose row is gone.
picture_of_no_lot :
    add_lot_media (λ t. t) 41 300 (lot 1 5) (some (member 5)) picture true [] [] []
    ≡ err (lot_error not_updated)
unfolding add_lot_media require lacks_capability has_capability is_allowed media_kind settle_primary
    new_media mark_photographed save_fields strip lstrip
picture_of_no_lot = refl

one_picture : HasOnePrimary (media 40 0 true ∷ [])
one_picture l = ground arith

add_lot_media-HasOnePrimary_example : HasOnePrimary (media 41 1 true ∷ media 40 0 false ∷ [])
add_lot_media-HasOnePrimary_example =
    add_lot_media-HasOnePrimary (λ t. t) 41 300 (lot 1 5) (some (member 5)) picture true []
      (lot 1 5 ∷ []) (media 40 0 true ∷ []) one_picture second_picture
