-- ===== src/Inventory/Writes.antt =====
-- The writes of the services of apps/inventory/services.py as changes of the table, for a lot as it
-- stands in the table.
use sanga.Common.{
  if◌then◌else◌, sym, ==_refl, ◌==◌, ◌≡◌, refl, ◌∙◌, ap, subst, inl, inr, Bool, true, false, some,
  List, [], ◌∷◌, not, exists, update_where, All, Bool-cases, All-map, find_first-All, find_first,
}
use sanga.Common.Results.{ok, raise_if-eq-ok}
use sanga.Inventory.{InventoryLot}
use sanga.Inventory.Table.{
  data_error, not_updated, integrity_error, has_lot_id, has_lot_code, is_counted, fits_lot,
  create_lot, clashes_with, save_lot, saved_rows, save_fields,
}
use sanga.Inventory.Changes.{IsValid, Keeps, Change, touched, added, distinct_one}

-- A lot as it stands in the table.
pub record IsLoaded (lots : List InventoryLot) (lot : InventoryLot) : Type 0 where
  pub only : All (λ (row : InventoryLot). (row.id == lot.id) ≡ true → row ≡ lot) lots
  pub counted : is_counted lot ≡ true
  pub there : exists (has_lot_id lot.id) lots ≡ true

-- Each row is found by its key.
rows_there :
    (lots : List InventoryLot)
    → All (λ (lot : InventoryLot). exists (has_lot_id lot.id) lots ≡ true) lots
rows_there [] = tt
rows_there (lot ∷ lots) =
    let later : (x : InventoryLot)
        → exists (has_lot_id x.id) lots ≡ true
        → exists (has_lot_id x.id) (lot ∷ lots) ≡ true =
      λ x there. elim (Bool-cases (lot.id == x.id)) [
        | inl here ↦ rw here refl
        | inr miss ↦ rw miss there
      ] in
    (rw (==_refl lot.id) refl, All-map later lots (rows_there lots))

pub find_first-IsLoaded :
    (p : InventoryLot → Bool) (lots : List InventoryLot) (lot : InventoryLot)
    → IsValid lots
    → find_first p lots ≡ some lot
    → IsLoaded lots lot
find_first-IsLoaded p lots lot v found = record {
  only =
      find_first-All
        (λ (x : InventoryLot). All (λ (row : InventoryLot). (row.id == x.id) ≡ true → row ≡ x) lots)
        p lots lot (distinct_one lots v.distinct) found;
  counted = find_first-All (λ row. is_counted row ≡ true) p lots lot v.counted found;
  there =
      find_first-All (λ (x : InventoryLot). exists (has_lot_id x.id) lots ≡ true) p lots lot
        (rows_there lots) found;
}

not-false : (b : Bool) → not b ≡ false → b ≡ true
not-false true h = refl
not-false false h = absurd (cc)

pub create_lot-Change :
    (lot : InventoryLot) (lots : List InventoryLot) {after : List InventoryLot}
    → create_lot lot lots ≡ ok after
    → Change lot.business lots after
unfolding create_lot
create_lot-Change lot lots {after} h =
    let (fits, h) = raise_if-eq-ok (not (fits_lot lot)) data_error _ h in
    let (new_id, h) = raise_if-eq-ok (exists (has_lot_id lot.id) lots) integrity_error _ h in
    let (new_code, h) =
      raise_if-eq-ok (exists (has_lot_code lot.business lot.lot_code) lots) integrity_error _ h in
    let (counted, h) = raise_if-eq-ok (not (is_counted lot)) integrity_error _ h in
    let same : (lot ∷ lots) ≡ after = cc in
    subst (Change lot.business lots) same
      (added lot refl new_id new_code (not-false (is_counted lot) counted))

-- Two updates that agree on the rows they touch.
update_where_ext :
    (q : InventoryLot → Bool) (f g : InventoryLot → InventoryLot) (lots : List InventoryLot)
    → All (λ row. q row ≡ true → f row ≡ g row) lots
    → update_where q f lots ≡ update_where q g lots
update_where_ext q f g [] a = refl
update_where_ext q f g (row ∷ rows) a =
    let rest = update_where_ext q f g rows a.1 in
    elim (Bool-cases (q row)) [
      | inl hit ↦ rw (hit, a.0 hit, rest) refl
      | inr miss ↦ rw (miss, rest) refl
    ]

module _ (lots : List InventoryLot) (lot : InventoryLot) (loaded : IsLoaded lots lot) where
  loaded-touched :
      (f : InventoryLot → InventoryLot)
      → Keeps f
      → is_counted (f lot) ≡ true
      → Change lot.business lots (update_where (has_lot_id lot.id) f lots)
  loaded-touched f keeps counted =
      touched lot.id f keeps
        (All-map {Q = λ row. (row.id == lot.id) ≡ true → row.business ≡ lot.business}
          (λ row only hit. ap (λ (x : InventoryLot). x.business) (only hit)) lots loaded.only)
        (All-map {Q = λ row. (row.id == lot.id) ≡ true → is_counted (f row) ≡ true}
          (λ row only hit. ap (λ x. is_counted (f x)) (only hit) ∙ counted) lots loaded.only)

  pub save_fields-Change :
      (f : InventoryLot → InventoryLot) {after : List InventoryLot}
      → Keeps f
      → is_counted (f lot) ≡ true
      → save_fields lot.id f lots ≡ ok after
      → Change lot.business lots after
  unfolding save_fields
  save_fields-Change f {after} keeps counted h =
      let (there, h) = raise_if-eq-ok (not (exists (has_lot_id lot.id) lots)) not_updated _ h in
      let same : update_where (has_lot_id lot.id) f lots ≡ after = cc in
      subst (Change lot.business lots) same (loaded-touched f keeps counted)

  -- Saving all columns of the object with new values, its key, business and code as they were.
  pub save_lot-Change :
      (f : InventoryLot → InventoryLot) {after : List InventoryLot}
      → Keeps f
      → save_lot (f lot) lots ≡ ok after
      → Change lot.business lots after
  unfolding save_lot
  save_lot-Change f {after} keeps h =
      let (fits, h) = raise_if-eq-ok (not (fits_lot (f lot))) data_error _ h in
      let (free, h) = raise_if-eq-ok (exists (clashes_with (f lot)) lots) integrity_error _ h in
      let (counted, h) = raise_if-eq-ok (not (is_counted (f lot))) integrity_error _ h in
      let key = keeps.id lot in
      let written : saved_rows (f lot) lots ≡ after = cc in
      let there = subst (λ i. exists (has_lot_id i) lots ≡ true) (sym key) loaded.there in
      let saved : update_where (has_lot_id (f lot).id) (λ row. f lot) lots ≡ after =
        sym (
          ap
            (λ b.
              if b then update_where (has_lot_id (f lot).id) (λ row. f lot) lots else f lot ∷ lots)
            there)
        ∙ written in
      let saved = subst (λ i. update_where (has_lot_id i) (λ row. f lot) lots ≡ after) key saved in
      let agree =
        update_where_ext (has_lot_id lot.id) f (λ row. f lot) lots
          (All-map {Q = λ row. (row.id == lot.id) ≡ true → f row ≡ f lot}
            (λ row only hit. ap f (only hit)) lots loaded.only) in
      subst (Change lot.business lots) (agree ∙ saved)
        (loaded-touched f keeps (not-false (is_counted (f lot)) counted))
