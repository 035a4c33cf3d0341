-- ===== src/Catalog/Tests.antt =====
-- A catalog of two lots, on small tables.
use sanga.Common.{
  ℕ, ◌≡◌, refl, true, false, Option, some, none, List, [], ◌∷◌, All, AreKeyed, if◌then◌else◌, zero,
  suc, ◌==◌, ◌||◌,
}
use sanga.Common.Int.{pos}
use sanga.Common.Text.{Text, codes}
use sanga.Common.Results.{ok, err}
use sanga.Businesses.Permissions.{owner}
use sanga.Businesses.{Membership, MembershipStatus, lacks_capability, has_capability}
use sanga.Inventory.{InventoryLot, Visibility, available}
use sanga.Catalog.{CustomCatalog, CustomCatalogItem}
use sanga.Catalog.Services.{
  foreign_lot, invalid_lot, Uuid, Catalogs, require_catalog_manage, read_all, owned_lots,
  keep_valid, number_items, replace_items, set_catalog_lots,
}
use sanga.Catalog.Selectors.{get_shareable_catalog}
use sanga.Catalog.Owned.{lots_of, others_of, is_own_lot, set_catalog_lots-is_own_lot}

-- Identifiers that are spelled by as many letters "a"; a capital in front is another spelling.
abbrev spell : ℕ → Text
spell zero = []
spell (suc n) = b'a' ∷ spell n

abbrev count : Text → Option ℕ
count [] = some 0
count (c ∷ s) =
    let rest = count s in
    if c == b'a' || c == b'A' then elim rest [ none ↦ none | some n ↦ some (suc n) ] else none

count-spell : (i : ℕ) → count (spell i) ≡ some i
count-spell zero = refl
count-spell (suc n) = rw (count-spell n) refl

abbrev uuid : Uuid
uuid = record { read = count; show = spell }

abbrev boss : Option Membership
boss = some (record {
  id = 1;
  user = 7;
  business = 5;
  role = owner;
  permissions = [];
  status = MembershipStatus.active;
})

abbrev lot : ℕ → ℕ → InventoryLot
lot i business = record {
  id = i;
  business = business;
  product = 1;
  warehouse = 1;
  lot_code = [];
  status = available;
  visibility = Visibility.public;
  available_sqm = pos 1000;
  original_sqm = pos 2000;
  slab_count = none;
  bundle_count = none;
  length_cm = none;
  width_cm = none;
  thickness_mm = none;
  grade = [];
  processing_type = [];
  min_sale_qty = pos 0;
  ready_for_loading_at = none;
  photographed_at = none;
  inventory_confirmed_at = some 0;
  offer_expires_at = none;
  description = [];
  defect_notes = [];
  is_featured = false;
  is_urgent_sale = false;
  archived_at = none;
}

abbrev lots : List InventoryLot
lots = lot 1 5 ∷ lot 2 5 ∷ lot 3 6 ∷ []

abbrev catalog : CustomCatalog
catalog = record {
  id = 40;
  business = 5;
  title = codes "For you";
  customer_name = [];
  custom_message = [];
  share_token = codes "t0";
  expires_at = some 100;
  is_active = true;
  view_count = 0;
  first_viewed_at = none;
  last_viewed_at = none;
}

abbrev item : ℕ → ℕ → ℕ → CustomCatalogItem
item c i order = record { catalog = c; lot = i; sort_order = order; note = [] }

abbrev before : Catalogs
before = record { catalogs = catalog ∷ []; items = item 40 2 0 ∷ item 41 3 0 ∷ [] }

abbrev after : Catalogs
after = record before { items = item 40 2 0 ∷ item 40 1 1 ∷ item 41 3 0 ∷ [] }

-- The order that was asked for is kept, and a lot that is asked for twice is there once.
two_lots :
    set_catalog_lots uuid catalog boss
      (some (codes "aa") ∷ none ∷ some (codes "a") ∷ some (codes "aa") ∷ [])
      lots
      before
    ≡ ok after
unfolding set_catalog_lots require_catalog_manage lacks_capability has_capability read_all
    owned_lots keep_valid number_items replace_items
two_lots = refl

foreign_is_refused :
    set_catalog_lots uuid catalog boss (some (codes "a") ∷ some (codes "aaa") ∷ []) lots before
    ≡ err foreign_lot
unfolding set_catalog_lots require_catalog_manage lacks_capability has_capability read_all
    owned_lots keep_valid number_items replace_items
foreign_is_refused = refl

malformed_is_refused :
    set_catalog_lots uuid catalog boss (some (codes "b") ∷ []) lots before ≡ err invalid_lot
unfolding set_catalog_lots require_catalog_manage lacks_capability has_capability read_all
malformed_is_refused = refl

-- A lot of the business in another spelling passes the count, and is dropped without an error.
other_spelling_is_dropped :
    set_catalog_lots uuid catalog boss (some (codes "A") ∷ []) lots before
    ≡ ok (record before { items = item 41 3 0 ∷ [] })
unfolding set_catalog_lots require_catalog_manage lacks_capability has_capability read_all
    owned_lots keep_valid number_items replace_items
other_spelling_is_dropped = refl

shared_until_it_expires :
    (get_shareable_catalog 99 (codes "t0") (catalog ∷ []) before.items
      ≡ some (catalog, item 40 2 0 ∷ []))
    × (get_shareable_catalog 100 (codes "t0") (catalog ∷ []) before.items ≡ none)
unfolding get_shareable_catalog
shared_until_it_expires = (refl, refl)

set_catalog_lots-is_own_lot_example :
    All (λ i. is_own_lot 5 lots i ≡ true) (lots_of 40 after.items)
    × AreKeyed (λ (i : ℕ). i) (lots_of 40 after.items)
    × (others_of 40 after.items ≡ others_of 40 before.items)
set_catalog_lots-is_own_lot_example =
    set_catalog_lots-is_own_lot uuid catalog boss
      (some (codes "aa") ∷ none ∷ some (codes "a") ∷ some (codes "aa") ∷ []) lots before after
      count-spell two_lots
