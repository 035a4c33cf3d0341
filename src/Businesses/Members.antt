-- ===== src/Businesses/Members.antt =====
-- apps/businesses/services.py: the profile of a business, the end of its onboarding, and its members.
use sanga.Common.{
  ◌∷◌, ℕ, ◌==◌, Bool, true, false, Option, none, some, List, not, ◌&&◌, ltb, if◌then◌else◌, exists,
  find_first, update_where,
}
use sanga.Common.Text.{Text, strip, text_eq}
use sanga.Common.Results.{Result, ok, ◌>>=◌, ◌>>◌, raise_if}
use sanga.Accounts.{User}
use sanga.Businesses.{Business, Membership, MembershipStatus, has_capability, save_membership}
use sanga.Businesses.Permissions.{Role, defaults_for_role, business_settings, team_manage}
use sanga.Businesses.Services.{
  BusinessError, may_not_edit, may_not_manage_team, data_error, integrity_error, not_updated,
  has_business_id, fits_business, of_member, create_membership,
}

-- The keyword arguments of `update_business_profile` that are read; one that is missing or `None` is
-- `none`.
pub record Profile : Type 0 where
  pub name : Option Text
  pub city : Option Text
  pub province : Option Text
  pub phone : Option Text
  pub address : Option Text
  pub website : Option Text

abbrev pub stripped_or : Option Text → Text → Text
stripped_or none old = old
stripped_or (some new) old = strip new

-- The business with its new profile.
unfoldable pub with_profile : Profile → Business → Business
with_profile p b = record b {
  name = stripped_or p.name b.name;
  city = stripped_or p.city b.city;
  province = stripped_or p.province b.province;
  phone = stripped_or p.phone b.phone;
  address = stripped_or p.address b.address;
  website = stripped_or p.website b.website;
  onboarding_step = if ltb b.onboarding_step 2 then 2 else b.onboarding_step;
}

-- `business.save()` of a business that has its slug: all columns are written, in a new row if there is
-- none with the key.
unfoldable pub save_business : Business → List Business → Result BusinessError (List Business)
save_business b rows = do
  raise_if (not (fits_business b)) data_error
  raise_if (exists (λ (row : Business). not (row.id == b.id) && text_eq row.slug b.slug) rows)
      integrity_error
  ok (
      if exists (has_business_id b.id) rows
      then update_where (has_business_id b.id) (λ row. b) rows
      else b ∷ rows)

-- `update_business_profile`
unfoldable pub update_business_profile :
    Business
    → Membership
    → Profile
    → List Business
    → Result BusinessError (Business × List Business)
update_business_profile b actor p rows = do
  raise_if (not (has_capability actor business_settings)) may_not_edit
  after ← save_business (with_profile p b) rows
  ok (with_profile p b, after)

-- `complete_onboarding`, at the time `now`.
unfoldable pub complete_onboarding :
    ℕ → Business → List Business → Result BusinessError (List Business)
complete_onboarding now b rows = do
  raise_if (not (exists (has_business_id b.id) rows)) not_updated
  ok (
      update_where (has_business_id b.id)
        (λ (row : Business). record row {
          onboarding_completed_at = some now;
          onboarding_step = 99;
        })
        rows)

abbrev pub is_suspended : MembershipStatus → Bool
is_suspended MembershipStatus.suspended = true
is_suspended _ = false

abbrev pub new_member : ℕ → ℕ → User → Role → Membership
new_member uuid business user role = record {
  id = uuid;
  user = user.id;
  business = business;
  role = role;
  permissions = defaults_for_role role;
  status = MembershipStatus.active;
}

-- A suspended member who is invited again.
abbrev pub reinstated : Role → Membership → Membership
reinstated role m = record m {
  status = MembershipStatus.active;
  role = role;
  permissions = defaults_for_role role;
}

-- What `invite_member` does for the membership that is there.
unfoldable pub join :
    ℕ
    → ℕ
    → User
    → Role
    → Option Membership
    → List Membership
    → Result BusinessError (Membership × List Membership)
unfolding save_membership
join uuid business user role none rows = create_membership (new_member uuid business user role) rows
join uuid business user role (some m) rows =
    if is_suspended m.status
    then ok (
      save_membership (reinstated role m),
      update_where (λ (row : Membership). row.id == m.id)
          (λ row. save_membership (reinstated role m)) rows,
    )
    else ok (m, rows)

-- `invite_member`
unfoldable pub invite_member :
    ℕ
    → ℕ
    → Membership
    → User
    → Role
    → List Membership
    → Result BusinessError (Membership × List Membership)
invite_member uuid business actor user role rows = do
  raise_if (not (has_capability actor team_manage)) may_not_manage_team
  join uuid business user role (find_first (of_member user.id business) rows) rows
