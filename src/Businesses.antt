-- ===== src/Businesses.antt =====
-- apps/businesses: roles and capabilities (permissions.py), businesses, memberships and warehouses
-- (models.py). The services are in `Businesses.Services`. Identifiers (UUIDs) are natural numbers.
pub mod Permissions
pub mod Roles
pub mod Services
pub mod Members
pub mod Defaults
pub mod Owners
mod Tests
use sanga.Common.{ℕ, Bool, true, false, Option, none, some, List, [], ◌∷◌, if◌then◌else◌}
use sanga.Common.Text.{Text}
use sanga.Businesses.Permissions.{Capability, Role, owner, staff, defaults_for_role, contains}

-- `Business.Status`
pub data BusinessStatus : Type 0 where
  active suspended : BusinessStatus

-- The columns of `Business` that the modelled code reads or writes.
pub record Business : Type 0 where
  pub id : ℕ
  pub name : Text
  pub slug : Text
  pub status : BusinessStatus
  pub phone : Text
  pub city : Text
  pub province : Text
  pub address : Text
  pub website : Text
  pub onboarding_step : ℕ
  pub onboarding_completed_at : Option ℕ

abbrev pub is_active_business : Business → Bool
is_active_business b = elim b.status [ active ↦ true | suspended ↦ false ]

-- `BusinessMembership.Status`
pub data MembershipStatus : Type 0 where
  invited active suspended : MembershipStatus

pub record Membership : Type 0 where
  pub id : ℕ
  pub user : ℕ
  pub business : ℕ
  pub role : Role
  pub permissions : List Capability
  pub status : MembershipStatus

-- `BusinessMembership.save`: an empty list of permissions is replaced by the role's defaults.
unfoldable pub save_membership : Membership → Membership
save_membership m = record m {
  permissions = elim m.permissions [ [] ↦ defaults_for_role m.role | c ∷ cs ↦ c ∷ cs ];
}

abbrev pub is_active_membership : MembershipStatus → Bool
is_active_membership active = true
is_active_membership _ = false

abbrev pub is_owner : Role → Bool
is_owner owner = true
is_owner _ = false

-- `BusinessMembership.has_capability`
unfoldable pub has_capability : Membership → Capability → Bool
has_capability m c =
    if is_active_membership m.status
    then (if is_owner m.role then true else contains c m.permissions)
    else false

-- `membership is None or not membership.has_capability(capability)`, the test of every `_require…`.
unfoldable pub lacks_capability : Option Membership → Capability → Bool
unfolding has_capability
lacks_capability none c = true
lacks_capability (some m) c = if has_capability m c then false else true

pub record Warehouse : Type 0 where
  pub id : ℕ
  pub business : ℕ
  pub name : Text
  pub city : Text
  pub address : Text
  pub is_default : Bool
