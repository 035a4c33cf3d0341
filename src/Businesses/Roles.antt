-- ===== src/Businesses/Roles.antt =====
-- What a membership may do once it is saved, against the role table of docs/permissions.md.
use sanga.Common.{◌≡◌, Bool, true, false, [], arith, if◌then◌else◌}
use sanga.Businesses.Permissions.{
  Capability, inventory_view, prices_edit, inquiries_view, team_manage, business_settings,
  analytics_view, audit_view, ledger_manage, contains, Role, owner, manager, staff, viewer,
  defaults_for_role,
}
use sanga.Businesses.{Membership, MembershipStatus, has_capability, save_membership}

-- The capabilities that the staff role goes without.
abbrev withheld_from_staff : Capability → Bool
withheld_from_staff prices_edit = true
withheld_from_staff team_manage = true
withheld_from_staff business_settings = true
withheld_from_staff analytics_view = true
withheld_from_staff audit_view = true
withheld_from_staff ledger_manage = true
withheld_from_staff _ = false

-- The role table: owners and managers may do all, viewers three things.
abbrev pub role_allows : Role → Capability → Bool
role_allows owner c = true
role_allows manager c = true
role_allows staff c = if withheld_from_staff c then false else true
role_allows viewer inventory_view = true
role_allows viewer inquiries_view = true
role_allows viewer analytics_view = true
role_allows viewer c = false

contains-defaults_for_role :
    (r : Role) (c : Capability) → contains c (defaults_for_role r) ≡ role_allows r c
contains-defaults_for_role owner c = ground arith
contains-defaults_for_role manager c = ground arith
contains-defaults_for_role staff c = ground arith
contains-defaults_for_role viewer c = ground arith

-- A membership that is saved with no permissions of its own and is active has exactly the
-- capabilities that the role table gives its role.
pub has_capability-save_membership :
    (m : Membership) (c : Capability)
    → m.permissions ≡ []
    → m.status ≡ MembershipStatus.active
    → has_capability (save_membership m) c ≡ role_allows m.role c
unfolding has_capability save_membership
has_capability-save_membership m c e a = ground (arith, contains-defaults_for_role m.role c)
