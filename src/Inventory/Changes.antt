-- ===== src/Inventory/Changes.antt =====
-- The invariant of the table of lots, and the changes that the services make to it.
use sanga.Common.{
  ℕ, ◌==◌, ◌≡◌, refl, ◌∙◌, inl, inr, Bool, true, false, List, [], ◌∷◌, not, arith, exists, where_,
  update_where, All, Bool-cases, ==_refl, All-map, All-both, exists-All, All-update_where,
}
use sanga.Common.Text.{Text}
use sanga.Inventory.{InventoryLot}
use sanga.Inventory.Table.{has_lot_id, has_lot_code, is_counted}

-- No two lots have one key, nor one business and code.
abbrev pub AreDistinct : List InventoryLot → Type 0
AreDistinct [] = Unit
AreDistinct (lot ∷ lots) =
    (exists (has_lot_id lot.id) lots ≡ false)
    × (exists (has_lot_code lot.business lot.lot_code) lots ≡ false)
    × AreDistinct lots

pub record IsValid (lots : List InventoryLot) : Type 0 where
  pub distinct : AreDistinct lots
  pub counted : All (λ lot. is_counted lot ≡ true) lots

-- A change of some columns; the key, the business and the code are not among them.
pub record Keeps (f : InventoryLot → InventoryLot) : Type 0 where
  pub id : (lot : InventoryLot) → (f lot).id ≡ lot.id
  pub business : (lot : InventoryLot) → (f lot).business ≡ lot.business
  pub lot_code : (lot : InventoryLot) → (f lot).lot_code ≡ lot.lot_code

-- What a call for a business does to the table: nothing, a new lot of the business, or new values in
-- a lot of the business.
pub data Change (business : ℕ) (before : List InventoryLot) : List InventoryLot → Type 0 where
  kept : Change business before before
  added :
      (lot : InventoryLot)
      → lot.business ≡ business
      → exists (has_lot_id lot.id) before ≡ false
      → exists (has_lot_code lot.business lot.lot_code) before ≡ false
      → is_counted lot ≡ true
      → Change business before (lot ∷ before)
  touched :
      (pk : ℕ) (f : InventoryLot → InventoryLot)
      → Keeps f
      → All (λ (lot : InventoryLot). (lot.id == pk) ≡ true → lot.business ≡ business) before
      → All (λ (lot : InventoryLot). (lot.id == pk) ≡ true → is_counted (f lot) ≡ true) before
      → Change business before (update_where (has_lot_id pk) f before)

module _ (q : InventoryLot → Bool) (f : InventoryLot → InventoryLot) (keeps : Keeps f) where
  exists-id-update :
      (i : ℕ) (lots : List InventoryLot)
      → exists (has_lot_id i) (update_where q f lots) ≡ exists (has_lot_id i) lots
  exists-id-update i [] = refl
  exists-id-update i (lot ∷ lots) =
      let rest = exists-id-update i lots in
      elim (Bool-cases (q lot)) [
        | inl hit ↦ rw (hit, keeps.id lot, rest) refl
        | inr miss ↦ rw (miss, rest) refl
      ]

  exists-code-update :
      (business : ℕ) (code : Text) (lots : List InventoryLot)
      → exists (has_lot_code business code) (update_where q f lots)
        ≡ exists (has_lot_code business code) lots
  exists-code-update business code [] = refl
  exists-code-update business code (lot ∷ lots) =
      let rest = exists-code-update business code lots in
      elim (Bool-cases (q lot)) [
        | inl hit ↦ rw (hit, keeps.business lot, keeps.lot_code lot, rest) refl
        | inr miss ↦ rw (miss, rest) refl
      ]

  AreDistinct-update :
      (lots : List InventoryLot) → AreDistinct lots → AreDistinct (update_where q f lots)
  AreDistinct-update [] d = tt
  AreDistinct-update (lot ∷ lots) d =
      let rest = AreDistinct-update lots d.2 in
      let ids = exists-id-update lot.id lots ∙ d.0 in
      let codes = exists-code-update lot.business lot.lot_code lots ∙ d.1 in
      elim (Bool-cases (q lot)) [
        | inl hit ↦
            rw (hit, keeps.id lot, keeps.business lot, keeps.lot_code lot) (ids, codes, rest)
        | inr miss ↦ rw miss (ids, codes, rest)
      ]

pub Change-IsValid :
    (business : ℕ) (before : List InventoryLot) {after : List InventoryLot}
    → Change business before after
    → IsValid before
    → IsValid after
Change-IsValid business before kept v = v
Change-IsValid business before (added lot own new_id new_code counted) v = record {
  distinct = (new_id, new_code, v.distinct);
  counted = (counted, v.counted);
}
Change-IsValid business before (touched pk f keeps own counted) v = record {
  distinct = AreDistinct-update (has_lot_id pk) f keeps before v.distinct;
  counted =
      All-update_where (λ lot. is_counted lot ≡ true) (has_lot_id pk) f before v.counted counted;
}

-- The lots of the other businesses.
abbrev pub is_foreign_to : ℕ → InventoryLot → Bool
is_foreign_to business lot = not (lot.business == business)

where_-touched :
    (business pk : ℕ) (f : InventoryLot → InventoryLot)
    → Keeps f
    → (lots : List InventoryLot)
    → All (λ (lot : InventoryLot). (lot.id == pk) ≡ true → lot.business ≡ business) lots
    → where_ (is_foreign_to business) (update_where (has_lot_id pk) f lots)
      ≡ where_ (is_foreign_to business) lots
where_-touched business pk f keeps [] own = refl
where_-touched business pk f keeps (lot ∷ lots) own =
    let rest = where_-touched business pk f keeps lots own.1 in
    elim (Bool-cases (lot.id == pk)) [
      | inl hit ↦ rw (hit, keeps.business lot, own.0 hit, ==_refl business, rest) refl
      | inr miss ↦ rw (miss, rest) refl
    ]

pub Change-isolated :
    (business : ℕ) (before : List InventoryLot) {after : List InventoryLot}
    → Change business before after
    → where_ (is_foreign_to business) after ≡ where_ (is_foreign_to business) before
Change-isolated business before kept = refl
Change-isolated business before (added lot own new_id new_code counted) =
    rw (own, ==_refl business) refl
Change-isolated business before (touched pk f keeps own counted) =
    where_-touched business pk f keeps before own

-- The lot with a key is the only one.
pub distinct_one :
    (lots : List InventoryLot)
    → AreDistinct lots
    → All
        (λ (lot : InventoryLot).
          All (λ (row : InventoryLot). (row.id == lot.id) ≡ true → row ≡ lot) lots)
        lots
distinct_one [] d = tt
distinct_one (lot ∷ lots) d =
    let others = exists-All (has_lot_id lot.id) lots d.0 in
    let here : All (λ (row : InventoryLot). (row.id == lot.id) ≡ true → row ≡ lot) lots =
      All-map (λ row other same. absurd (ground arith)) lots others in
    let Below : InventoryLot → Type 0 =
      λ x. All (λ (row : InventoryLot). (row.id == x.id) ≡ true → row ≡ x) lots in
    let Whole : InventoryLot → Type 0 =
      λ x. All (λ (row : InventoryLot). (row.id == x.id) ≡ true → row ≡ x) (lot ∷ lots) in
    let step : (x : InventoryLot) → ((x.id == lot.id) ≡ false) × Below x → Whole x =
      λ x both. (λ same. absurd (let other = both.0 in ground arith), both.1) in
    (
      (λ same. refl, here),
      All-map step lots (
          All-both (λ (x : InventoryLot). (x.id == lot.id) ≡ false) Below lots others
            (distinct_one lots d.2)),
    )
