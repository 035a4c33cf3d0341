-- ===== src/Businesses/Owners.antt =====
-- What `create_business_for_owner` (apps/businesses/services.py) leaves: the owner's membership and the
-- slug of the business.
use sanga.Common.{
  ℕ, ◌==◌, ◌≡◌, refl, ◌∙◌, ap, sym, subst, true, some, List, ◌∷◌, not, exists, find_first, map, ltb,
  length, ==_refl,
}
use sanga.Common.Text.{Text, codes, strip, or_text}
use sanga.Common.Results.{ok, ok-pair, >>=-eq-ok, raise_if-eq-ok, or_raise-eq-ok}
use sanga.Accounts.{User}
use sanga.Slug.{IsFirst, new_slug, new_slug-IsFirst}
use sanga.Businesses.{Business, Membership, has_capability, save_membership}
use sanga.Businesses.Permissions.{Capability}
use sanga.Businesses.Services.{
  name_too_short, endless_loop, data_error, integrity_error, Directory, has_business_id, slug_of,
  fits_business, create_business, of_member, create_membership, business_of, membership_of_owner,
  create_business_for_owner,
}

-- The slug and the name of a business that was inserted.
create_business-IsFirst :
    (slugify : Text → Text) (b : Business) (rows : List Business) {row : Business}
    {after : List Business}
    → create_business slugify b rows ≡ ok (row, after)
    → IsFirst (or_text (slugify b.name) (codes "business")) 1 (map slug_of rows) row.slug
      × (row.id ≡ b.id)
      × (after ≡ row ∷ rows)
unfolding create_business
create_business-IsFirst slugify b rows {row} {after} h =
    let (slug, found, first) =
      new_slug-IsFirst (slugify b.name) (codes "business") (map slug_of rows) in
    let (named, given, h) =
      or_raise-eq-ok (new_slug (slugify b.name) (codes "business") (map slug_of rows)) endless_loop
        _ h in
    let (g, h) = raise_if-eq-ok (not (fits_business (record b { slug = named }))) data_error _ h in
    let (g, h) = raise_if-eq-ok (exists (has_business_id b.id) rows) integrity_error _ h in
    let both = ok-pair h in
    let same : slug ≡ named = let e = sym found ∙ given in cc in
    let first' =
      subst (IsFirst (or_text (slugify b.name) (codes "business")) 1 (map slug_of rows)) same
        first in
    rw both.0 (first', refl, both.1)

create_membership-ok :
    (m : Membership) (rows : List Membership) {row : Membership} {after : List Membership}
    → create_membership m rows ≡ ok (row, after)
    → (row ≡ save_membership m) × (after ≡ save_membership m ∷ rows)
unfolding create_membership
create_membership-ok m rows h =
    let (g, h) =
      raise_if-eq-ok (exists (λ (row : Membership). row.id == m.id) rows) integrity_error _ h in
    let (g, h) = raise_if-eq-ok (exists (of_member m.user m.business) rows) integrity_error _ h in
    ok-pair h

-- The membership of an owner, as it is stored.
owner_can :
    (uuid : ℕ) (user : User) (b : Business) (c : Capability)
    → has_capability (save_membership (membership_of_owner uuid user b)) c ≡ true
unfolding has_capability save_membership
owner_can uuid user b c = refl

-- A business that was opened: its slug, its place in the table, and what its owner may do.
abbrev pub Opened : (Text → Text) → User → Text → Directory → Business × Directory → Type 0
Opened slugify user name before (b, after) =
    IsFirst (or_text (slugify (strip name)) (codes "business")) 1 (map slug_of before.businesses)
      b.slug
    × (after.businesses ≡ b ∷ before.businesses)
    × ((m : Membership) × (find_first (of_member user.id b.id) after.memberships ≡ some m)
        × ((c : Capability) → has_capability m c ≡ true))

rows-Opened :
    (slugify : Text → Text) (uuid membership_uuid : ℕ) (user : User)
    (name city province phone : Text) (before : Directory) (b : Business)
    (businesses : List Business) (m : Membership) (memberships : List Membership)
    → create_business slugify
        (business_of uuid user (strip name) city province phone)
        before.businesses
      ≡ ok (b, businesses)
    → create_membership (membership_of_owner membership_uuid user b) before.memberships
      ≡ ok (m, memberships)
    → Opened slugify user name before
        (b, record before { businesses = businesses; memberships = memberships })
unfolding save_membership
rows-Opened slugify uuid membership_uuid user name city province phone before b businesses m
      memberships created joined =
    let (first, keyed, inserted) =
      create_business-IsFirst slugify (business_of uuid user (strip name) city province phone)
        before.businesses created in
    let own = membership_of_owner membership_uuid user b in
    let stored = create_membership-ok own before.memberships joined in
    let found : find_first (of_member user.id b.id) (save_membership own ∷ before.memberships)
        ≡ some (save_membership own) =
      rw (==_refl user.id, ==_refl b.id) refl in
    (
      first,
      inserted,
      (
        save_membership own,
        ap (find_first (of_member user.id b.id)) stored.1 ∙ found,
        owner_can membership_uuid user b,
      ),
    )

-- When `create_business_for_owner` has returned a business, its slug is the first of the numbered
-- candidates (of what `slugify` makes of the stripped name, or of "business") that no business had, the
-- business stands before the earlier ones in the table, and the membership that is found for the owner
-- has every capability in it.
pub create_business_for_owner-Opened :
    (slugify : Text → Text) (uuid membership_uuid : ℕ) (user : User)
    (name city province phone : Text) (before after : Directory) (b : Business)
    → create_business_for_owner slugify uuid membership_uuid user name city province phone before
      ≡ ok (b, after)
    → Opened slugify user name before (b, after)
unfolding create_business_for_owner
create_business_for_owner-Opened slugify uuid membership_uuid user name city province phone before
      after b h =
    let (g, h) = raise_if-eq-ok (ltb (length (strip name)) 2) name_too_short _ h in
    let ((row, businesses), created, h) =
      >>=-eq-ok
        (create_business slugify (business_of uuid user (strip name) city province phone)
          before.businesses)
        _ h in
    let ((m, memberships), joined, h) =
      >>=-eq-ok
        (create_membership (membership_of_owner membership_uuid user row) before.memberships) _ h in
    let same : (row, record before { businesses = businesses; memberships = memberships })
        ≡ (b, after) =
      cc in
    subst (Opened slugify user name before) same (
      rows-Opened slugify uuid membership_uuid user name city province phone before row businesses m
        memberships created joined)
