-- ===== src/Contacts/Requests.antt =====
-- Requests to the services of apps/contacts/services.py, on contacts that a view loads with
-- `get_contact` (apps/contacts/selectors.py), and the tables that they reach.
use sanga.Common.{
  ℕ, ◌==◌, ◌≡◌, ◌≤◌, refl, ap, sym, subst, inl, inr, Bool, true, false, Option, none, some, List,
  [], ◌&&◌, not, arith, exists, count_where, All, Bool-cases, ltb, length, refers_to, has_key,
  IsOnly, AreKeyed-IsOnly, count_where-All, All-map, find_first-All,
}
use sanga.Common.Text.{strip}
use sanga.Common.Results.{ok, ok-pair, >>=-eq-ok, >>-eq-ok, raise_if-eq-ok}
use sanga.Businesses.{Membership}
use sanga.Contacts.{Contact, get_contact}
use sanga.Contacts.Services.{
  name_too_short, link_race, data_error, not_updated, require_manage, require_same_business,
  links_to, contact_id, validate_link, ContactForm, with_form, fits_contact, link_taken,
  blank_contact, create_contact, update_contact, same_flag, set_active, archive_contact,
  restore_contact,
}
use sanga.Contacts.Links.{
  IsValid, validate_link-MayLink, create-IsValid, update-IsValid, active-IsValid,
}

-- A request of a business that succeeds.
pub data Request (business : ℕ) (before : List Contact) : List Contact → Type 0 where
  create :
      (uuid : ℕ) (m : Option Membership) (form : ContactForm) {row : Contact} {after : List Contact}
      → create_contact uuid business m form before ≡ ok (row, after)
      → Request business before after
  update :
      (pk : ℕ) (c : Contact) (m : Option Membership) (form : ContactForm) {row : Contact}
      {after : List Contact}
      → get_contact pk business before ≡ some c
      → update_contact c m form before ≡ ok (row, after)
      → Request business before after
  archive :
      (pk : ℕ) (c : Contact) (m : Option Membership) {row : Contact} {after : List Contact}
      → get_contact pk business before ≡ some c
      → archive_contact c m before ≡ ok (row, after)
      → Request business before after
  restore :
      (pk : ℕ) (c : Contact) (m : Option Membership) {row : Contact} {after : List Contact}
      → get_contact pk business before ≡ some c
      → restore_contact c m before ≡ ok (row, after)
      → Request business before after

create_contact-IsValid :
    (uuid business : ℕ) (m : Option Membership) (form : ContactForm) (before : List Contact)
    {row : Contact} {after : List Contact}
    → create_contact uuid business m form before ≡ ok (row, after)
    → IsValid before
    → IsValid after
unfolding create_contact
create_contact-IsValid uuid business m form before h v =
    let (member, g, h) = >>=-eq-ok (require_manage m) _ h in
    let (g, h) = >>-eq-ok (require_same_business member business) _ h in
    let (g, h) = raise_if-eq-ok (ltb (length (strip form.display_name)) 2) name_too_short _ h in
    let (linked, h) = >>-eq-ok (validate_link business form.linked_business none before) _ h in
    let (g, h) =
      raise_if-eq-ok (not (fits_contact (with_form form (blank_contact uuid business)))) data_error
        _ h in
    let (fresh, h) = raise_if-eq-ok (exists (has_key contact_id uuid) before) link_race _ h in
    let (g, h) =
      raise_if-eq-ok (link_taken (with_form form (blank_contact uuid business)) before) link_race _
        h in
    subst IsValid (sym (ok-pair h).1) (
      create-IsValid uuid business form before
        (validate_link-MayLink business form.linked_business none before linked) fresh v)

-- The rows with the key of a contact that was loaded are of its business.
loaded_own :
    (pk business : ℕ) (before : List Contact) (c : Contact)
    → IsValid before
    → get_contact pk business before ≡ some c
    → All (λ (row : Contact). (row.id == c.id) ≡ true → row.business ≡ c.business) before
unfolding get_contact
loaded_own pk business before c v found =
    let p = λ (x : Contact). x.id == pk && x.business == business in
    let only =
      find_first-All (IsOnly contact_id before) p before c
        (AreKeyed-IsOnly contact_id before v.keyed) found in
    All-map {Q = λ (row : Contact). (row.id == c.id) ≡ true → row.business ≡ c.business}
      (λ row same hit. ap (λ (x : Contact). x.business) (same hit)) before only

update_contact-IsValid :
    (c : Contact) (m : Option Membership) (form : ContactForm) (before : List Contact)
    {row : Contact} {after : List Contact}
    → update_contact c m form before ≡ ok (row, after)
    → All (λ (row : Contact). (row.id == c.id) ≡ true → row.business ≡ c.business) before
    → IsValid before
    → IsValid after
unfolding update_contact
update_contact-IsValid c m form before h own v =
    let (member, g, h) = >>=-eq-ok (require_manage m) _ h in
    let (g, h) = >>-eq-ok (require_same_business member c.business) _ h in
    let (g, h) = raise_if-eq-ok (ltb (length (strip form.display_name)) 2) name_too_short _ h in
    let (linked, h) =
      >>-eq-ok (validate_link c.business form.linked_business (some c.id) before) _ h in
    let (g, h) = raise_if-eq-ok (not (fits_contact (with_form form c))) data_error _ h in
    let (g, h) = raise_if-eq-ok (not (exists (has_key contact_id c.id) before)) not_updated _ h in
    let (g, h) = raise_if-eq-ok (link_taken (with_form form c) before) link_race _ h in
    subst IsValid (sym (ok-pair h).1) (
      update-IsValid c form before own
        (validate_link-MayLink c.business form.linked_business (some c.id) before linked) v)

set_active-IsValid :
    (active : Bool) (c : Contact) (m : Option Membership) (before : List Contact) {row : Contact}
    {after : List Contact}
    → set_active active c m before ≡ ok (row, after)
    → IsValid before
    → IsValid after
unfolding set_active
set_active-IsValid active c m before h v =
    let (member, g, h) = >>=-eq-ok (require_manage m) _ h in
    let (g, h) = >>-eq-ok (require_same_business member c.business) _ h in
    let (g, h) =
      raise_if-eq-ok
        (not (same_flag c.is_active active) && not (exists (has_key contact_id c.id) before))
        not_updated _ h in
    subst IsValid (sym (ok-pair h).1) (elim (Bool-cases (same_flag c.is_active active)) [
      | inl already ↦ rw already v
      | inr changed ↦ rw changed (active-IsValid c.id active before v)
    ])

-- The tables that requests of any businesses reach from the empty one.
pub data Reachable : List Contact → Type 0 where
  start : Reachable []
  request :
      (business : ℕ) {before after : List Contact}
      → Reachable before
      → Request business before after
      → Reachable after

Request-IsValid :
    (business : ℕ) (before : List Contact) {after : List Contact}
    → Request business before after
    → IsValid before
    → IsValid after
unfolding archive_contact restore_contact
Request-IsValid business before (create uuid m form h) v =
    create_contact-IsValid uuid business m form before h v
Request-IsValid business before (update pk c m form found h) v =
    update_contact-IsValid c m form before h (loaded_own pk business before c v found) v
Request-IsValid business before (archive pk c m found h) v = set_active-IsValid false c m before h v
Request-IsValid business before (restore pk c m found h) v = set_active-IsValid true c m before h v

Reachable-IsValid : {contacts : List Contact} → Reachable contacts → IsValid contacts
Reachable-IsValid start = record { keyed = tt; single = λ b l. omega arith; outward = tt }
Reachable-IsValid (request business {before} reached asked) =
    Request-IsValid business before asked (Reachable-IsValid reached)

-- In every table of contacts that requests of any businesses reach from the empty one, a business has at
-- most one contact, archived ones included, that is linked to any one business, and none that is linked
-- to itself.
pub links_stay_unique :
    {contacts : List Contact}
    → Reachable contacts
    → (business linked : ℕ)
    → (count_where (links_to business linked) contacts ≤ 1)
      × (count_where (links_to business business) contacts ≡ 0)
links_stay_unique {contacts} reached business linked =
    let v = Reachable-IsValid reached in
    (
      v.single business linked,
      count_where-All (links_to business business) contacts (
          All-map {Q = λ c. links_to business business c ≡ false}
            (λ c out. elim (Bool-cases (c.business == business)) [
              | inr miss ↦ rw miss refl
              | inl hit ↦
                  let same : c.business ≡ business = ground arith in
                  rw hit (subst (λ i. refers_to c.linked_business i ≡ false) same out)
            ])
            contacts v.outward),
    )
