-- ===== src/Contacts/Tests.antt =====
-- Contacts that are linked to a business, on small tables.
use sanga.Common.{◌≡◌, ◌≤◌, refl, ℕ, true, false, Option, some, none, [], ◌∷◌, count_where}
use sanga.Common.Text.{codes, strip, lstrip}
use sanga.Common.Results.{ok, err}
use sanga.Businesses.Permissions.{owner}
use sanga.Businesses.{
  Business, BusinessStatus, Membership, MembershipStatus, lacks_capability, has_capability,
}
use sanga.Contacts.{Contact, get_contact}
use sanga.Contacts.Services.{
  own_business, already_linked, require_manage, links_to, validate_link, ContactForm, with_form,
  create_contact, update_contact, contacts_for_business,
}
use sanga.Contacts.Requests.{Request, Reachable, links_stay_unique}

abbrev boss : Option Membership
boss = some (record {
  id = 1;
  user = 7;
  business = 5;
  role = owner;
  permissions = [];
  status = MembershipStatus.active;
})

abbrev business : ℕ → Business
business i = record {
  id = i;
  name = [];
  slug = [];
  status = BusinessStatus.active;
  phone = [];
  city = [];
  province = [];
  address = [];
  website = [];
  onboarding_step = 99;
  onboarding_completed_at = some 1;
}

abbrev form : Option Business → ContactForm
form linked = record {
  display_name = codes " Reza ";
  phone = [];
  address = [];
  notes = [];
  linked_business = linked;
}

abbrev contact : ℕ → Option ℕ → Contact
contact uuid linked = record {
  id = uuid;
  business = 5;
  display_name = codes "Reza";
  phone = [];
  address = [];
  notes = [];
  linked_business = linked;
  is_active = true;
}

created :
    create_contact 1 5 boss (form (some (business 6))) []
    ≡ ok (contact 1 (some 6), contact 1 (some 6) ∷ [])
unfolding create_contact validate_link with_form require_manage lacks_capability has_capability
    strip lstrip
created = refl

linked_to_itself : create_contact 1 5 boss (form (some (business 5))) [] ≡ err own_business
unfolding create_contact validate_link with_form require_manage lacks_capability has_capability
    strip lstrip
linked_to_itself = refl

linked_twice :
    create_contact 2 5 boss (form (some (business 6))) (contact 1 (some 6) ∷ [])
    ≡ err already_linked
unfolding create_contact validate_link with_form require_manage lacks_capability has_capability
    strip lstrip
linked_twice = refl

found : get_contact 1 5 (contact 1 (some 6) ∷ []) ≡ some (contact 1 (some 6))
unfolding get_contact
found = refl

-- The contact may keep its own link, or change it.
linked_again :
    update_contact (contact 1 (some 6)) boss (form (some (business 8))) (contact 1 (some 6) ∷ [])
    ≡ ok (contact 1 (some 8), contact 1 (some 8) ∷ [])
unfolding update_contact validate_link with_form require_manage lacks_capability has_capability
    strip lstrip
linked_again = refl

archived_is_hidden :
    contacts_for_business 5 false
      (record (contact 1 none) { is_active = false } ∷ contact 2 none ∷ [])
    ≡ contact 2 none ∷ []
unfolding contacts_for_business
archived_is_hidden = refl

links_stay_unique_example :
    (count_where (links_to 5 8) (contact 1 (some 8) ∷ []) ≤ 1)
    × (count_where (links_to 5 5) (contact 1 (some 8) ∷ []) ≡ 0)
links_stay_unique_example =
    links_stay_unique
      (Reachable.request 5
        (Reachable.request 5 Reachable.start
          (Request.create 1 boss (form (some (business 6))) created))
        (Request.update 1 (contact 1 (some 6)) boss (form (some (business 8))) found linked_again))
      5 8
