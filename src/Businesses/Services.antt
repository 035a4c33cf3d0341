-- ===== src/Businesses/Services.antt =====
-- apps/businesses/services.py: new businesses, warehouses and the profile, with `Business.save` and
-- `Warehouse.save` (models.py). `slugify` is a library's.
use sanga.Common.{
  ℕ, ◌==◌, Bool, false, none, List, [], ◌∷◌, ◌&&◌, ◌||◌, not, leb, ltb, map, length, if◌then◌else◌,
  exists, update_where,
}
use sanga.Common.Text.{Text, codes, strip, is_empty, or_text, text_eq}
use sanga.Common.Results.{Result, ok, ◌>>=◌, ◌>>◌, raise_if, or_raise}
use sanga.Accounts.{User}
use sanga.Slug.{new_slug}
use sanga.Businesses.{
  Business, BusinessStatus, Membership, MembershipStatus, Warehouse, save_membership,
}
use sanga.Businesses.Permissions.{owner, all_capabilities}

-- The messages of `BusinessServiceError`, and the exceptions of the database that pass through: a key
-- that is taken, a column that is too narrow, a row that is gone. `endless_loop` is a loop of
-- `Business.save` that does not end.
pub data BusinessError : Type 0 where
  name_too_short no_warehouse_name duplicate_warehouse may_not_edit may_not_manage_team :
      BusinessError
  integrity_error data_error not_updated endless_loop : BusinessError

-- The tables that the services use.
pub record Directory : Type 0 where
  pub businesses : List Business
  pub memberships : List Membership
  pub warehouses : List Warehouse

abbrev pub has_business_id : ℕ → Business → Bool
has_business_id i b = b.id == i

abbrev pub slug_of : Business → Text
slug_of b = b.slug

-- The widths of the columns.
abbrev pub fits_business : Business → Bool
fits_business b =
    leb (length b.name) 200
    && leb (length b.slug) 220
    && leb (length b.phone) 20
    && leb (length b.city) 100
    && leb (length b.province) 100
    && leb (length b.website) 200

-- `Business.objects.create(...)`
unfoldable pub create_business :
    (Text → Text) → Business → List Business → Result BusinessError (Business × List Business)
create_business slugify b rows = do
  slug ← or_raise (new_slug (slugify b.name) (codes "business") (map slug_of rows)) endless_loop
  raise_if (not (fits_business (record b { slug = slug }))) data_error
  raise_if (exists (has_business_id b.id) rows) integrity_error
  ok (record b { slug = slug }, record b { slug = slug } ∷ rows)

abbrev pub of_member : ℕ → ℕ → Membership → Bool
of_member user business m = m.user == user && m.business == business

-- `BusinessMembership.objects.create(...)`, with the pair of user and business unique.
unfoldable pub create_membership :
    Membership → List Membership → Result BusinessError (Membership × List Membership)
unfolding save_membership
create_membership m rows = do
  raise_if (exists (λ (row : Membership). row.id == m.id) rows) integrity_error
  raise_if (exists (of_member m.user m.business) rows) integrity_error
  ok (save_membership m, save_membership m ∷ rows)

-- The row that `create_business_for_owner` inserts, without its slug.
abbrev pub business_of : ℕ → User → (name city province phone : Text) → Business
business_of uuid user name city province phone = record {
  id = uuid;
  name = name;
  slug = [];
  status = BusinessStatus.active;
  phone = or_text (strip phone) user.phone;
  city = strip city;
  province = strip province;
  address = [];
  website = [];
  onboarding_step = 2;
  onboarding_completed_at = none;
}

abbrev pub membership_of_owner : ℕ → User → Business → Membership
membership_of_owner uuid user b = record {
  id = uuid;
  user = user.id;
  business = b.id;
  role = owner;
  permissions = all_capabilities;
  status = MembershipStatus.active;
}

-- `create_business_for_owner`
unfoldable pub create_business_for_owner :
    (Text → Text)
    → (uuid membership_uuid : ℕ) → User
    → (name city province phone : Text) → Directory
    → Result BusinessError (Business × Directory)
create_business_for_owner slugify uuid membership_uuid user name city province phone d = do
  raise_if (ltb (length (strip name)) 2) name_too_short
  (b, businesses) ←
      create_business slugify (business_of uuid user (strip name) city province phone) d.businesses
  (m, memberships) ← create_membership (membership_of_owner membership_uuid user b) d.memberships
  ok (b, record d { businesses = businesses; memberships = memberships })

abbrev pub warehouse_of : ℕ → Warehouse → Bool
warehouse_of business w = w.business == business

abbrev pub is_named : ℕ → Text → Warehouse → Bool
is_named business name w = warehouse_of business w && text_eq w.name name

abbrev pub is_default_of : ℕ → Warehouse → Bool
is_default_of business w = warehouse_of business w && w.is_default

-- The end of `Warehouse.save`: no other warehouse of the business stays the default.
unfoldable pub clear_defaults : Warehouse → List Warehouse → List Warehouse
clear_defaults w rows =
    if w.is_default
    then update_where (λ (row : Warehouse). is_default_of w.business row && not (row.id == w.id))
        (λ (row : Warehouse). record row { is_default = false }) rows
    else rows

-- `Warehouse.objects.create(...)`
unfoldable pub create_warehouse : Warehouse → List Warehouse → Result BusinessError (List Warehouse)
unfolding clear_defaults
create_warehouse w rows = do
  raise_if (ltb 150 (length w.name) || ltb 100 (length w.city)) data_error
  raise_if (exists (λ (row : Warehouse). row.id == w.id) rows) integrity_error
  raise_if (exists (is_named w.business w.name) rows) integrity_error
  ok (clear_defaults w (w ∷ rows))

abbrev pub with_step : ℕ → Business → Business
with_step step b = record b { onboarding_step = step }

-- The step of the onboarding that the warehouse completes.
unfoldable pub pass_step : Business → List Business → List Business
pass_step b rows =
    if ltb b.onboarding_step 3 then update_where (has_business_id b.id) (with_step 3) rows else rows

-- The row that `add_warehouse` inserts.
abbrev pub new_warehouse :
    ℕ → Business → (name city address : Text) → Bool → List Warehouse → Warehouse
new_warehouse uuid b name city address is_default rows = record {
  id = uuid;
  business = b.id;
  name = name;
  city = or_text (strip city) b.city;
  address = strip address;
  is_default = is_default || not (exists (warehouse_of b.id) rows);
}

-- `add_warehouse`
unfoldable pub add_warehouse :
    ℕ
    → Business
    → (name city address : Text) → (is_default : Bool) → Directory
    → Result BusinessError Directory
add_warehouse uuid b name city address is_default d = do
  raise_if (is_empty (strip name)) no_warehouse_name
  raise_if (exists (is_named b.id (strip name)) d.warehouses) duplicate_warehouse
  warehouses ←
      create_warehouse (new_warehouse uuid b (strip name) city address is_default d.warehouses)
        d.warehouses
  ok (record d { warehouses = warehouses; businesses = pass_step b d.businesses })
