-- ===== src/Inventory/Primary.antt =====
-- The primary media of the lots, in the tables that `add_lot_media` (apps/inventory/services.py) reaches.
use sanga.Common.{
  ℕ, ◌==◌, ◌≡◌, refl, ◌∙◌, ap, sym, subst, inl, inr, Bool, true, false, Option, List, [], ◌∷◌, ◌||◌,
  not, arith, if◌then◌else◌, exists, count_where, Bool-cases, ltb, length, ==_refl,
}
use sanga.Common.Text.{Text, strip}
use sanga.Common.Results.{ok, ok-pair, >>=-eq-ok, >>-eq-ok, raise_if-eq-ok}
use sanga.Businesses.{Membership}
use sanga.Businesses.Permissions.{inventory_media}
use sanga.Inventory.{InventoryLot}
use sanga.Inventory.Table.{require, check_lot}
use sanga.Inventory.Media.{
  mark_photographed, LotMedia, MediaKind, Upload, unsupported, data_error, integrity_error, lift,
  is_allowed, media_kind, of_lot, primary_of, clear_primary, settle_primary, new_media,
  add_lot_media,
}

-- A lot with media has one primary one, and a lot without has none.
abbrev pub HasOneOf : List LotMedia → ℕ → Type 0
HasOneOf media lot =
    count_where (primary_of lot) media ≡ (if exists (of_lot lot) media then 1 else 0)

abbrev pub HasOnePrimary : List LotMedia → Type 0
HasOnePrimary media = (lot : ℕ) → HasOneOf media lot

exists-clear :
    (lot cleared : ℕ) (media : List LotMedia)
    → exists (of_lot lot) (clear_primary cleared media) ≡ exists (of_lot lot) media
exists-clear lot cleared [] = refl
exists-clear lot cleared (m ∷ ms) =
    let rest = exists-clear lot cleared ms in
    elim (Bool-cases (primary_of cleared m)) [
      | inl hit ↦ rw (hit, rest) refl
      | inr miss ↦ rw (miss, rest) refl
    ]

count-clear :
    (lot : ℕ) (media : List LotMedia) → count_where (primary_of lot) (clear_primary lot media) ≡ 0
count-clear lot [] = refl
count-clear lot (m ∷ ms) = ground (arith, count-clear lot ms)

count-clear_other :
    (lot cleared : ℕ) (media : List LotMedia)
    → (cleared == lot) ≡ false
    → count_where (primary_of lot) (clear_primary cleared media)
      ≡ count_where (primary_of lot) media
count-clear_other lot cleared [] other = refl
count-clear_other lot cleared (m ∷ ms) other =
    let rest = count-clear_other lot cleared ms other in ground arith

exists-primary :
    (lot : ℕ) (media : List LotMedia)
    → exists (primary_of lot) media ≡ true
    → exists (of_lot lot) media ≡ true
exists-primary lot [] h = h
exists-primary lot (m ∷ ms) h = ground (arith, exists-primary lot ms)

-- The media of the lot itself, after a new one.
new_media-HasOneOf :
    (uuid : ℕ) (kind : MediaKind) (upload : Upload) (caption : Text) (lot : ℕ) (is_primary : Bool)
    (media : List LotMedia)
    → HasOnePrimary media
    → HasOneOf (new_media uuid kind upload caption lot (settle_primary lot is_primary media)) lot
unfolding new_media settle_primary
new_media-HasOneOf uuid kind upload caption lot is_primary media one =
    elim (Bool-cases (is_primary || not (exists (primary_of lot) media))) [
      | inl first ↦ rw (first, ==_refl lot, count-clear lot media) refl
      | inr more ↦
          let there : exists (primary_of lot) media ≡ true = ground arith in
          let plain : is_primary ≡ false = ground arith in
          let counted = one lot in
          let some_media = exists-primary lot media there in
          let single : count_where (primary_of lot) media ≡ 1 = ground arith in
          rw (plain, there, ==_refl lot, single) refl
    ]

-- The media of another lot.
count-new_media_other :
    (uuid : ℕ) (kind : MediaKind) (upload : Upload) (caption : Text) (lot : ℕ) (is_primary : Bool)
    (media : List LotMedia) (other : ℕ)
    → (lot == other) ≡ false
    → let after = new_media uuid kind upload caption lot (settle_primary lot is_primary media) in
      (count_where (primary_of other) after ≡ count_where (primary_of other) media)
      × (exists (of_lot other) after ≡ exists (of_lot other) media)
unfolding new_media settle_primary
count-new_media_other uuid kind upload caption lot is_primary media other differs =
    elim (Bool-cases (is_primary || not (exists (primary_of lot) media))) [
      | inl first ↦
          rw
            (
              first,
              differs,
              count-clear_other other lot media differs,
              exists-clear other lot media,
            )
            (omega arith, refl)
      | inr more ↦ rw (more, differs) (omega arith, refl)
    ]

-- When each lot with media has exactly one primary media, this is still so after `add_lot_media` has
-- returned, whichever lot it was for and whether or not the new media was asked to be primary.
pub add_lot_media-HasOnePrimary :
    (lower : Text → Text) (uuid today : ℕ) (lot : InventoryLot) (m : Option Membership)
    (upload : Upload) (is_primary : Bool) (caption : Text) (lots : List InventoryLot)
    (media : List LotMedia) {lots' : List InventoryLot} {media' : List LotMedia}
    → HasOnePrimary media
    → add_lot_media lower uuid today lot m upload is_primary caption lots media ≡ ok (lots', media')
    → HasOnePrimary media'
unfolding add_lot_media
add_lot_media-HasOnePrimary lower uuid today lot m upload is_primary caption lots media {lots'}
      {media'} one h =
    let (member, g, h) = >>=-eq-ok (lift (require m inventory_media)) _ h in
    let (g, h) = >>-eq-ok (lift (check_lot lot member)) _ h in
    let (g, h) = raise_if-eq-ok (not (is_allowed lower upload)) unsupported _ h in
    let (g, h) = raise_if-eq-ok (ltb 255 (length (strip caption))) data_error _ h in
    let (g, h) =
      raise_if-eq-ok (exists (λ (row : LotMedia). row.id == uuid) media) integrity_error _ h in
    let (marked, g, h) =
      >>=-eq-ok (lift (mark_photographed today (media_kind lower upload) lot lots)) _ h in
    let after = (ok-pair h).1 in
    subst HasOnePrimary (sym after) (λ l. elim (Bool-cases (lot.id == l)) [
      | inl here ↦
          let same : lot.id ≡ l = ground arith in
          subst
            (HasOneOf (
              new_media uuid (media_kind lower upload) upload caption lot.id
                (settle_primary lot.id is_primary media)))
            same
            (new_media-HasOneOf uuid (media_kind lower upload) upload caption lot.id is_primary
              media one)
      | inr other ↦
          let kept =
            count-new_media_other uuid (media_kind lower upload) upload caption lot.id is_primary
              media l other in
          kept.0 ∙ one l ∙ ap (λ b. if b then 1 else 0) (sym kept.1)
    ])
