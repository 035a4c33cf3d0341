-- ===== src/Inventory/Isolation.antt =====
-- What requests to apps/inventory/services.py leave in the table of lots: the codes and quantities, and
-- the lots of the businesses that did not ask.
use sanga.Common.{
  ℕ, ◌==◌, ◌≡◌, refl, ◌∙◌, ap, subst, arith, find_first, Bool, true, false, Option, some, List, [],
  ◌&&◌, ◌||◌, not, where_,
}
use sanga.Common.Int.{is_neg}
use sanga.Common.Results.{ok, raise_if-eq-ok, or_raise-eq-ok}
use sanga.Businesses.{Membership, lacks_capability, has_capability}
use sanga.Businesses.Permissions.{
  inventory_create, inventory_edit, inventory_publish, inventory_quantity, inventory_confirm,
}
use sanga.Inventory.{InventoryLot}
use sanga.Inventory.Table.{
  foreign_lot, foreign_warehouse, may_not, may_not_change_quantity, invalid_visibility, create_lot,
  save_fields, has_lot_id, is_counted,
}
use sanga.Inventory.Drafts.{clone_lot, duplicate_lot}
use sanga.Inventory.Edits.{
  changes_quantity, is_foreign, with_changes, update_lot_fields, is_new_visibility, with_visibility,
  set_visibility_and_status,
}
use sanga.Inventory.States.{confirm_lot_inventory, mark_lot_sold, hide_lot, archive_lot}
use sanga.Inventory.Changes.{IsValid, Keeps, Change, Change-IsValid, Change-isolated, is_foreign_to}
use sanga.Inventory.Writes.{
  find_first-IsLoaded, create_lot-Change, save_fields-Change, save_lot-Change,
}
use sanga.Inventory.Requests.{
  Request, passed, unnegated, create_draft_lot-Change, with_changes-Keeps, with_visibility-Keeps,
}
use sanga.Inventory.Requests

and-right : (a b : Bool) → (a && b) ≡ true → b ≡ true
and-right true b h = h
and-right false b h = absurd (cc)

-- What a request changes is of one business: the member's, if a new lot is drafted for it.
abbrev OwnChange : ℕ → Option Membership → List InventoryLot → List InventoryLot → Type 0
OwnChange business m before after =
    (b : ℕ) × Change b before after
    × ((who : Membership) → m ≡ some who → business ≡ who.business → b ≡ who.business)

-- The business of the lot is that of the member, whoever the caller takes the member to be.
owned_by_member :
    (business b : ℕ) (m : Option Membership) (member : Membership)
    → m ≡ some member
    → b ≡ member.business
    → (who : Membership) → m ≡ some who
    → business ≡ who.business
    → b ≡ who.business
owned_by_member business b m member is_member own who is_who asked =
    let same : member ≡ who = cc in own ∙ ap (λ (x : Membership). x.business) same

-- A request as a change of the table, case by case.
module _ (business : ℕ) (m : Option Membership) (before : List InventoryLot)
    (v : IsValid before) where
  lot_Change :
      (f : InventoryLot → InventoryLot) (lot : InventoryLot) (pk : ℕ) (member : Membership)
      {after : List InventoryLot}
      → Keeps f
      → (is_counted lot ≡ true → is_counted (f lot) ≡ true)
      → find_first (has_lot_id pk) before ≡ some lot
      → m ≡ some member
      → lot.business ≡ member.business
      → save_fields lot.id f before ≡ ok after
      → OwnChange business m before after
  lot_Change f lot pk member keeps counts found is_member own h =
      let loaded = find_first-IsLoaded (has_lot_id pk) before lot v found in
      (
        lot.business,
        save_fields-Change before lot loaded f keeps (counts loaded.counted) h,
        owned_by_member business lot.business m member is_member own,
      )

  Request-Change :
      {after : List InventoryLot}
      → Request business m before after
      → OwnChange business m before after
  unfolding update_lot_fields set_visibility_and_status duplicate_lot confirm_lot_inventory
      mark_lot_sold hide_lot archive_lot
  Request-Change (Requests.Request.create uuid code product warehouse form h) = (
    business,
    create_draft_lot-Change uuid code business m product warehouse form before h,
    λ who is_who asked. asked,
  )
  Request-Change (Requests.Request.duplicate uuid code pk lot {after} found h) =
      let (member, is_member, own, h) =
        passed m inventory_create lot (λ member. create_lot (clone_lot uuid code lot) before) h in
      (
        lot.business,
        create_lot-Change (clone_lot uuid code lot) before h,
        owned_by_member business lot.business m member is_member own,
      )
  Request-Change (Requests.Request.edit pk lot changes found h) =
      let loaded = find_first-IsLoaded (has_lot_id pk) before lot v found in
      let (member, is_member, own, h) = passed m inventory_edit lot _ h in
      let (g, h) =
        raise_if-eq-ok (changes_quantity changes && not (has_capability member inventory_quantity))
          may_not_change_quantity _ h in
      let (g, h) =
        raise_if-eq-ok (is_foreign changes.warehouse lot.business) foreign_warehouse _ h in
      (
        lot.business,
        save_lot-Change before lot loaded (with_changes changes) (with_changes-Keeps changes) h,
        owned_by_member business lot.business m member is_member own,
      )
  Request-Change
        (Requests.Request.show now member pk lot visibility publish save_as_draft is_member found
          h) =
      let loaded = find_first-IsLoaded (has_lot_id pk) before lot v found in
      let (g, h) =
        raise_if-eq-ok
          ((publish || is_new_visibility visibility lot.visibility)
            && lacks_capability (some member) inventory_publish)
          may_not _ h in
      let (own, h) = raise_if-eq-ok (not (lot.business == member.business)) foreign_lot _ h in
      let same = unnegated (lot.business == member.business) own in
      let (shown, given, h) = or_raise-eq-ok visibility invalid_visibility _ h in
      (
        lot.business,
        save_lot-Change before lot loaded (with_visibility now shown publish save_as_draft)
            (with_visibility-Keeps now shown publish save_as_draft) h,
        owned_by_member business lot.business m member is_member (ground arith),
      )
  Request-Change (Requests.Request.confirm now pk lot found h) =
      let (member, is_member, own, h) = passed m inventory_confirm lot _ h in
      lot_Change _ lot pk member
        (record { id = λ x. refl; business = λ x. refl; lot_code = λ x. refl }) (λ counted. counted)
        found is_member own h
  Request-Change (Requests.Request.sell pk lot found h) =
      let (member, is_member, own, h) = passed m inventory_edit lot _ h in
      lot_Change _ lot pk member
        (record { id = λ x. refl; business = λ x. refl; lot_code = λ x. refl })
        (and-right (not (is_neg lot.available_sqm)) (not (is_neg lot.original_sqm))) found is_member
        own h
  Request-Change (Requests.Request.hide pk lot found h) =
      let (member, is_member, own, h) = passed m inventory_publish lot _ h in
      lot_Change _ lot pk member
        (record { id = λ x. refl; business = λ x. refl; lot_code = λ x. refl }) (λ counted. counted)
        found is_member own h
  Request-Change (Requests.Request.archive now pk lot found h) =
      let (member, is_member, own, h) = passed m inventory_edit lot _ h in
      lot_Change _ lot pk member
        (record { id = λ x. refl; business = λ x. refl; lot_code = λ x. refl }) (λ counted. counted)
        found is_member own h

-- The tables that requests of any members, for any businesses, reach from the empty one.
pub data Reachable : List InventoryLot → Type 0 where
  start : Reachable []
  request :
      (business : ℕ) (m : Option Membership) {before after : List InventoryLot}
      → Reachable before
      → Request business m before after
      → Reachable after

-- In every table that requests of any members, each on a lot as it stands in the table, reach from the
-- empty one, no two lots have one key, no two lots of a business have one code, and no lot has a
-- negative quantity, available or original.
pub lots_stay-IsValid : {lots : List InventoryLot} → Reachable lots → IsValid lots
lots_stay-IsValid start = record { distinct = tt; counted = tt }
lots_stay-IsValid (request business m {before} reached asked) =
    let v = lots_stay-IsValid reached in
    let (b, change, own) = Request-Change business m before v asked in
    Change-IsValid b before change v

-- In every table that requests of any members reach, each on a lot as it stands in the table, a request
-- of a member that succeeds, on any lot of the table, leaves the lots of all businesses but the member's
-- as they are, and in their order; a new lot is to be drafted for the member's business.
pub Request-isolated :
    (member : Membership) {before after : List InventoryLot}
    → Reachable before
    → Request member.business (some member) before after
    → where_ (is_foreign_to member.business) after ≡ where_ (is_foreign_to member.business) before
Request-isolated member {before} {after} reached asked =
    let (b, change, own) =
      Request-Change member.business (some member) before (lots_stay-IsValid reached) asked in
    subst (λ i. where_ (is_foreign_to i) after ≡ where_ (is_foreign_to i) before)
      (own member refl refl) (Change-isolated b before change)
