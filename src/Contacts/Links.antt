-- ===== src/Contacts/Links.antt =====
-- The links between contacts and businesses in the tables that the services of
-- apps/contacts/services.py reach.
use sanga.Common.{
  ℕ, ◌==◌, ◌≡◌, ◌≤◌, refl, sym, subst, inl, inr, Bool, true, false, Option, none, some, List, ◌∷◌,
  ◌&&◌, not, arith, exists, count_where, update_where, All, Bool-cases, refers_to, ==_refl, has_key,
  AreKeyed, AreKeyed-update, count_where-key, count_where-update_split, count_where-none,
  count_where-All, count_where_mono, All-map, All-update_where, count_where-update_where,
}
use sanga.Common.Results.{ok, raise_if-eq-ok}
use sanga.Businesses.{Business}
use sanga.Contacts.{Contact}
use sanga.Contacts.Services.{
  own_business, not_linkable, already_linked, is_linkable_business, links_to, contact_id, is_not,
  validate_link, id_of, ContactForm, with_form, blank_contact, with_active,
}

-- A contact that is linked to the business it belongs to.
abbrev pub links_to_itself : Contact → Bool
links_to_itself c = refers_to c.linked_business c.business

pub record IsValid (contacts : List Contact) : Type 0 where
  pub keyed : AreKeyed contact_id contacts
  pub single : (business linked : ℕ) → count_where (links_to business linked) contacts ≤ 1
  pub outward : All (λ c. links_to_itself c ≡ false) contacts

-- What `_validate_link` has checked of the business that a form links to.
abbrev pub MayLink : ℕ → Option Business → Option ℕ → List Contact → Type 0
MayLink business linked excluded contacts =
    (l : ℕ)
    → refers_to (id_of linked) l ≡ true
    → ((l == business) ≡ false)
      × (exists (λ c. is_not excluded c && links_to business l c) contacts ≡ false)

pub validate_link-MayLink :
    (business : ℕ) (linked : Option Business) (excluded : Option ℕ) (contacts : List Contact)
    → validate_link business linked excluded contacts ≡ ok tt
    → MayLink business linked excluded contacts
unfolding validate_link
validate_link-MayLink business none excluded contacts h l refers = absurd (cc)
validate_link-MayLink business (some b) excluded contacts h l refers =
    let (own, h) = raise_if-eq-ok (b.id == business) own_business _ h in
    let (g, h) = raise_if-eq-ok (not (is_linkable_business business b)) not_linkable _ h in
    let (free, h) =
      raise_if-eq-ok (exists (λ c. is_not excluded c && links_to business b.id c) contacts)
        already_linked _ h in
    let same : b.id ≡ l = ground arith in
    subst
      (λ i.
        ((i == business) ≡ false)
        × (exists (λ c. is_not excluded c && links_to business i c) contacts ≡ false))
      same (own, free)

outward-MayLink :
    (business : ℕ) (linked : Option Business) (excluded : Option ℕ) (contacts : List Contact)
    → MayLink business linked excluded contacts
    → refers_to (id_of linked) business ≡ false
outward-MayLink business linked excluded contacts may =
    elim (Bool-cases (refers_to (id_of linked) business)) [
      | inr other ↦ other
      | inl own ↦ absurd (let no = (may business own).0 in let yes = ==_refl business in cc)
    ]

-- A contact in front of a table that has no such link.
pub create-IsValid :
    (uuid business : ℕ) (form : ContactForm) (contacts : List Contact)
    → MayLink business form.linked_business none contacts
    → exists (has_key contact_id uuid) contacts ≡ false
    → IsValid contacts
    → IsValid (with_form form (blank_contact uuid business) ∷ contacts)
unfolding with_form
create-IsValid uuid business form contacts may fresh v = record {
  keyed = (fresh, v.keyed);
  single = λ b l. elim (Bool-cases ((business == b) && refers_to (id_of form.linked_business) l)) [
    | inr other ↦ let rest = v.single b l in rw other (omega (arith, rest))
    | inl here ↦
        let same : business ≡ b = ground arith in
        let free = (may l (ground arith)).1 in
        let none_left = count_where-none (links_to business l) contacts free in
        let none_left = subst (λ i. count_where (links_to i l) contacts ≡ 0) same none_left in
        rw (here, none_left) (omega arith)
  ];
  outward = (outward-MayLink business form.linked_business none contacts may, v.outward);
}

module _ (c : Contact) (form : ContactForm) (contacts : List Contact)
    (own : All (λ (row : Contact). (row.id == c.id) ≡ true → row.business ≡ c.business) contacts)
    (may : MayLink c.business form.linked_business (some c.id) contacts)
    (v : IsValid contacts) where
  -- The changed contact gets a link that no other has.
  single-here :
      (b l : ℕ)
      → ((c.business == b) && refers_to (id_of form.linked_business) l) ≡ true
      → count_where
          (links_to b l)
          (update_where (has_key contact_id c.id) (with_form form) contacts)
        ≤ 1
  unfolding with_form
  single-here b l here =
      let split =
        count_where-update_split (links_to b l) (has_key contact_id c.id) (with_form form)
          contacts in
      let same : c.business ≡ b = ground arith in
      let free = (may l (ground arith)).1 in
      let none_left =
        count_where-none (λ (x : Contact). is_not (some c.id) x && links_to c.business l x) contacts
          free in
      let left =
        count_where_mono (λ x. not (has_key contact_id c.id x) && links_to b l x)
          (λ x. is_not (some c.id) x && links_to c.business l x) (λ x h. ground arith) contacts in
      let made =
        count_where_mono (λ x. has_key contact_id c.id x && links_to b l (with_form form x))
          (has_key contact_id c.id) (λ x h. ground arith) contacts in
      let one = count_where-key contact_id c.id contacts v.keyed in
      omega (arith, split, none_left, left, made, one)

  -- A link that the changed contact does not get.
  single-other :
      (b l : ℕ)
      → ((c.business == b) && refers_to (id_of form.linked_business) l) ≡ false
      → count_where
          (links_to b l)
          (update_where (has_key contact_id c.id) (with_form form) contacts)
        ≤ 1
  unfolding with_form
  single-other b l other =
      let split =
        count_where-update_split (links_to b l) (has_key contact_id c.id) (with_form form)
          contacts in
      let Made : Contact → Type 0 =
        λ x. (has_key contact_id c.id x && links_to b l (with_form form x)) ≡ false in
      let none_made : (x : Contact) → ((x.id == c.id) ≡ true → x.business ≡ c.business) → Made x =
        λ x theirs. elim (Bool-cases (x.id == c.id)) [
          | inr miss ↦ rw miss refl
          | inl hit ↦ rw (hit, theirs hit) other
        ] in
      let made =
        count_where-All (λ x. has_key contact_id c.id x && links_to b l (with_form form x)) contacts
          (All-map none_made contacts own) in
      let left =
        count_where_mono (λ x. not (has_key contact_id c.id x) && links_to b l x) (links_to b l)
          (λ x h. ground arith) contacts in
      let before = v.single b l in omega (arith, split, made, left, before)

  pub update-IsValid : IsValid (update_where (has_key contact_id c.id) (with_form form) contacts)
  unfolding with_form
  update-IsValid = record {
    keyed =
        AreKeyed-update contact_id (has_key contact_id c.id) (with_form form) (λ x. refl) contacts
          v.keyed;
    single = λ b l.
        elim (Bool-cases ((c.business == b) && refers_to (id_of form.linked_business) l)) [
          | inl here ↦ single-here b l here
          | inr other ↦ single-other b l other
        ];
    outward =
        All-update_where (λ x. links_to_itself x ≡ false) (has_key contact_id c.id) (with_form form)
          contacts v.outward
          (All-map
            {Q = λ (x : Contact).
              (x.id == c.id) ≡ true → links_to_itself (with_form form x) ≡ false}
            (λ x theirs hit.
              subst (λ i. refers_to (id_of form.linked_business) i ≡ false) (sym (theirs hit))
                (outward-MayLink c.business form.linked_business (some c.id) contacts may))
            contacts own);
  }

pub active-IsValid :
    (pk : ℕ) (active : Bool) (contacts : List Contact)
    → IsValid contacts
    → IsValid (update_where (has_key contact_id pk) (with_active active) contacts)
active-IsValid pk active contacts v = record {
  keyed =
      AreKeyed-update contact_id (has_key contact_id pk) (with_active active) (λ x. refl) contacts
        v.keyed;
  single = λ b l.
      rw
        (count_where-update_where (links_to b l) (has_key contact_id pk) (with_active active)
          (λ x. refl) contacts)
        (v.single b l);
  outward =
      All-update_where (λ x. links_to_itself x ≡ false) (has_key contact_id pk) (with_active active)
        contacts v.outward
        (All-map {Q = λ (x : Contact). (x.id == pk) ≡ true → links_to_itself x ≡ false}
          (λ x out hit. out) contacts v.outward);
}
