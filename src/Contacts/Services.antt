-- ===== src/Contacts/Services.antt =====
-- apps/contacts/services.py and selectors.py: creating, changing, archiving and restoring a contact. A
-- contact is given as the object that a view has loaded; the search by name is left out.
use sanga.Common.{
  ℕ, ◌==◌, Bool, true, false, Option, none, some, List, [], ◌∷◌, ◌&&◌, ◌||◌, not, leb, ltb, length,
  if◌then◌else◌, exists, update_where, where_, refers_to, has_key,
}
use sanga.Common.Text.{Text, strip}
use sanga.Common.Results.{Result, ok, ◌>>=◌, ◌>>◌, raise_if, or_raise}
use sanga.Businesses.{Business, Membership, lacks_capability, is_active_business}
use sanga.Businesses.Permissions.{customers_manage}
use sanga.Contacts.{Contact}

-- The messages of `ContactError`, and the exceptions of the database that pass through.
pub data ContactError : Type 0 where
  may_not_manage foreign name_too_short own_business not_linkable already_linked link_race :
      ContactError
  data_error not_updated : ContactError

-- `_require_manage`, with the membership that passed.
unfoldable pub require_manage : Option Membership → Result ContactError Membership
unfolding lacks_capability
require_manage m = do
  raise_if (lacks_capability m customers_manage) may_not_manage
  or_raise m may_not_manage

-- `_require_same_business`
abbrev pub require_same_business : Membership → ℕ → Result ContactError (Unit {0})
require_same_business m business = raise_if (not (m.business == business)) foreign

-- `is_linkable_business`
abbrev pub is_linkable_business : ℕ → Business → Bool
is_linkable_business business other = not (other.id == business) && is_active_business other

abbrev pub links_to : ℕ → ℕ → Contact → Bool
links_to business linked c = c.business == business && refers_to c.linked_business linked

abbrev pub contact_id : Contact → ℕ
contact_id c = c.id

-- A contact other than the excluded one.
abbrev pub is_not : Option ℕ → Contact → Bool
is_not excluded c = not (refers_to excluded c.id)

-- `_validate_link`
unfoldable pub validate_link :
    ℕ → Option Business → Option ℕ → List Contact → Result ContactError (Unit {0})
validate_link business none excluded contacts = ok tt
validate_link business (some linked) excluded contacts = do
  raise_if (linked.id == business) own_business
  raise_if (not (is_linkable_business business linked)) not_linkable
  raise_if (exists (λ c. is_not excluded c && links_to business linked.id c) contacts)
      already_linked
  ok tt

abbrev pub id_of : Option Business → Option ℕ
id_of none = none
id_of (some b) = some b.id

-- The arguments of `create_contact` and `update_contact`.
pub record ContactForm : Type 0 where
  pub display_name : Text
  pub phone : Text
  pub address : Text
  pub notes : Text
  pub linked_business : Option Business

-- The contact with the stripped values of a form.
unfoldable pub with_form : ContactForm → Contact → Contact
with_form form c = record c {
  display_name = strip form.display_name;
  phone = strip form.phone;
  address = strip form.address;
  notes = strip form.notes;
  linked_business = id_of form.linked_business;
}

abbrev pub fits_contact : Contact → Bool
fits_contact c = leb (length c.display_name) 200 && leb (length c.phone) 32

-- `uniq_linked_business_per_business`, of a row and those that are not it.
abbrev pub link_taken : Contact → List Contact → Bool
link_taken c contacts = elim c.linked_business [
  | none ↦ false
  | some linked ↦ exists (λ row. is_not (some c.id) row && links_to c.business linked row) contacts
]

abbrev pub blank_contact : ℕ → ℕ → Contact
blank_contact uuid business = record {
  id = uuid;
  business = business;
  display_name = [];
  phone = [];
  address = [];
  notes = [];
  linked_business = none;
  is_active = true;
}

-- `create_contact`
unfoldable pub create_contact :
    ℕ
    → ℕ
    → Option Membership
    → ContactForm
    → List Contact
    → Result ContactError (Contact × List Contact)
unfolding validate_link
create_contact uuid business m form contacts = do
  member ← require_manage m
  require_same_business member business
  raise_if (ltb (length (strip form.display_name)) 2) name_too_short
  validate_link business form.linked_business none contacts
  raise_if (not (fits_contact (with_form form (blank_contact uuid business)))) data_error
  raise_if (exists (has_key contact_id uuid) contacts) link_race
  raise_if (link_taken (with_form form (blank_contact uuid business)) contacts) link_race
  ok (
    with_form form (blank_contact uuid business),
    with_form form (blank_contact uuid business) ∷ contacts,
  )

-- `update_contact`; the columns of the form are written.
unfoldable pub update_contact :
    Contact
    → Option Membership
    → ContactForm
    → List Contact
    → Result ContactError (Contact × List Contact)
unfolding validate_link
update_contact c m form contacts = do
  member ← require_manage m
  require_same_business member c.business
  raise_if (ltb (length (strip form.display_name)) 2) name_too_short
  validate_link c.business form.linked_business (some c.id) contacts
  raise_if (not (fits_contact (with_form form c))) data_error
  raise_if (not (exists (has_key contact_id c.id) contacts)) not_updated
  raise_if (link_taken (with_form form c) contacts) link_race
  ok (with_form form c, update_where (has_key contact_id c.id) (with_form form) contacts)

-- `a == b` on Booleans.
abbrev pub same_flag : Bool → Bool → Bool
same_flag true b = b
same_flag false b = not b

abbrev pub with_active : Bool → Contact → Contact
with_active b c = record c { is_active = b }

-- `archive_contact` and `restore_contact`: the contact becomes `active`, unless it is so already.
unfoldable pub set_active :
    (active : Bool)
    → Contact
    → Option Membership
    → List Contact
    → Result ContactError (Contact × List Contact)
set_active active c m contacts = do
  member ← require_manage m
  require_same_business member c.business
  raise_if (not (same_flag c.is_active active) && not (exists (has_key contact_id c.id) contacts))
      not_updated
  ok (
    with_active active c,
    (if same_flag c.is_active active
        then contacts
        else update_where (has_key contact_id c.id) (with_active active) contacts),
  )

unfoldable pub archive_contact :
    Contact → Option Membership → List Contact → Result ContactError (Contact × List Contact)
unfolding set_active
archive_contact = set_active false

unfoldable pub restore_contact :
    Contact → Option Membership → List Contact → Result ContactError (Contact × List Contact)
unfolding set_active
restore_contact = set_active true

-- `linkable_businesses`
unfoldable pub linkable_businesses : ℕ → List Business → List Business
linkable_businesses business = where_ (is_linkable_business business)

-- `contacts_for_business` without a search term, in the table's order.
unfoldable pub contacts_for_business : ℕ → (include_archived : Bool) → List Contact → List Contact
contacts_for_business business include_archived =
    where_ (λ (c : Contact). c.business == business && (include_archived || c.is_active))
