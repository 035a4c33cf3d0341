-- ===== src/Businesses/Tests.antt =====
-- New members, businesses and warehouses on small tables.
use sanga.Common.{◌≡◌, refl, ℕ, Bool, true, false, some, none, [], ◌∷◌, arith}
use sanga.Common.Text.{Text, codes, strip, lstrip, show_fuel}
use sanga.Common.Results.{ok}
use sanga.Accounts.{User}
use sanga.Slug.{candidate, next_slug, new_slug}
use sanga.Businesses.Permissions.{staff, viewer, inventory_edit, viewer_defaults}
use sanga.Businesses.{
  Business, BusinessStatus, Warehouse, Membership, MembershipStatus, has_capability,
  save_membership,
}
use sanga.Businesses.Services.{
  Directory, create_business, create_membership, membership_of_owner, create_business_for_owner,
  clear_defaults, create_warehouse, with_step, pass_step, add_warehouse,
}
use sanga.Businesses.Members.{
  Profile, with_profile, save_business, update_business_profile, join, invite_member,
}
use sanga.Businesses.Roles.{has_capability-save_membership}
use sanga.Businesses.Owners.{Opened, create_business_for_owner-Opened}
use sanga.Businesses.Defaults.{HasDefaults, add_warehouse-HasDefaults}

abbrev new_staff : Membership
new_staff = record {
  id = 1;
  user = 7;
  business = 1;
  role = staff;
  permissions = [];
  status = MembershipStatus.active;
}

has_capability-save_membership_example :
    has_capability (save_membership new_staff) inventory_edit ≡ true
has_capability-save_membership_example =
    has_capability-save_membership new_staff inventory_edit refl refl

-- A slug of ASCII names in small letters, with nothing else in them.
abbrev slugify : Text → Text
slugify name = name

abbrev user : User
user = record { id = 7; phone = codes "09123456789"; is_active = true; last_login = none }

abbrev stone : ℕ → Text → Business
stone uuid slug = record {
  id = uuid;
  name = codes "sanga";
  slug = slug;
  status = BusinessStatus.active;
  phone = codes "09123456789";
  city = codes "Qom";
  province = [];
  address = [];
  website = [];
  onboarding_step = 2;
  onboarding_completed_at = none;
}

abbrev before : Directory
before = record { businesses = stone 1 (codes "sanga") ∷ []; memberships = []; warehouses = [] }

abbrev opened : Directory
opened = record {
  businesses = stone 2 (codes "sanga-2") ∷ stone 1 (codes "sanga") ∷ [];
  memberships = membership_of_owner 3 user (stone 2 (codes "sanga-2")) ∷ [];
  warehouses = [];
}

second_of_its_name :
    create_business_for_owner slugify 2 3 user (codes " sanga ") (codes "Qom") [] [] before
    ≡ ok (stone 2 (codes "sanga-2"), opened)
unfolding create_business_for_owner create_business create_membership save_membership new_slug
    next_slug candidate show_fuel strip lstrip
second_of_its_name = refl

create_business_for_owner-Opened_example :
    Opened slugify user (codes " sanga ") before (stone 2 (codes "sanga-2"), opened)
create_business_for_owner-Opened_example =
    create_business_for_owner-Opened slugify 2 3 user (codes " sanga ") (codes "Qom") [] [] before
      opened (stone 2 (codes "sanga-2")) second_of_its_name

abbrev warehouse : ℕ → Text → Bool → Warehouse
warehouse uuid name is_default = record {
  id = uuid;
  business = 2;
  name = name;
  city = codes "Qom";
  address = [];
  is_default = is_default;
}

abbrev one_warehouse : Directory
one_warehouse = record opened { warehouses = warehouse 10 (codes "A") true ∷ [] }

abbrev two_warehouses : Directory
two_warehouses = record one_warehouse {
  warehouses = warehouse 11 (codes "B") true ∷ warehouse 10 (codes "A") false ∷ [];
  businesses = with_step 3 (stone 2 (codes "sanga-2")) ∷ stone 1 (codes "sanga") ∷ [];
}

-- A second warehouse that becomes the default.
second_default :
    add_warehouse 11 (stone 2 (codes "sanga-2")) (codes "B") [] [] true one_warehouse
    ≡ ok two_warehouses
unfolding add_warehouse create_warehouse clear_defaults pass_step strip lstrip
second_default = refl

one_default : HasDefaults one_warehouse.warehouses
one_default business = ground arith

add_warehouse-HasDefaults_example : HasDefaults two_warehouses.warehouses
add_warehouse-HasDefaults_example =
    add_warehouse-HasDefaults 11 (stone 2 (codes "sanga-2")) (codes "B") [] [] true one_warehouse
      two_warehouses one_default second_default

-- A suspended member who is invited again gets the role and its defaults.
invited_again :
    invite_member 4 1
      (membership_of_owner 3 user (stone 1 []))
      (record user { id = 9 })
      viewer
      (record new_staff { user = 9; status = MembershipStatus.suspended } ∷ [])
    ≡ ok (
      record new_staff { user = 9; role = viewer; permissions = viewer_defaults },
      record new_staff { user = 9; role = viewer; permissions = viewer_defaults } ∷ [],
    )
unfolding invite_member join save_membership has_capability
invited_again = refl

-- A name of spaces leaves the business without a name.
abbrev no_name : Profile
no_name = record {
  name = some (codes "  ");
  city = none;
  province = none;
  phone = none;
  address = none;
  website = none;
}

name_erased :
    update_business_profile
      (stone 1 [])
      (membership_of_owner 3 user (stone 1 []))
      no_name
      (stone 1 [] ∷ [])
    ≡ ok (record (stone 1 []) { name = [] }, record (stone 1 []) { name = [] } ∷ [])
unfolding update_business_profile save_business with_profile has_capability strip lstrip
name_erased = refl
