-- ===== src/Businesses/Defaults.antt =====
-- The default warehouses of the businesses, in the tables that `add_warehouse`
-- (apps/businesses/services.py) reaches.
use sanga.Common.{
  ℕ, ◌==◌, ◌≡◌, refl, subst, inl, inr, Bool, true, false, List, [], ◌∷◌, ◌&&◌, ◌||◌, not, arith,
  if◌then◌else◌, exists, count_where, update_where, Bool-cases, ltb, length, ==_refl,
}
use sanga.Common.Text.{Text, strip, is_empty}
use sanga.Common.Results.{ok, >>=-eq-ok, raise_if-eq-ok}
use sanga.Businesses.{Business, Warehouse}
use sanga.Businesses.Services.{
  no_warehouse_name, duplicate_warehouse, data_error, integrity_error, Directory, warehouse_of,
  is_named, is_default_of, clear_defaults, create_warehouse, new_warehouse, add_warehouse,
}

-- A business with warehouses has one that is the default.
abbrev pub HasDefaultOf : List Warehouse → ℕ → Type 0
HasDefaultOf rows business =
    count_where (is_default_of business) rows
    ≡ (if exists (warehouse_of business) rows then 1 else 0)

abbrev pub HasDefaults : List Warehouse → Type 0
HasDefaults rows = (business : ℕ) → HasDefaultOf rows business

abbrev pub has_warehouse_id : ℕ → Warehouse → Bool
has_warehouse_id i w = w.id == i

-- The rows that `Warehouse.save` clears.
abbrev is_cleared : Warehouse → Warehouse → Bool
is_cleared w row = is_default_of w.business row && not (row.id == w.id)

abbrev cleared : Warehouse → List Warehouse → List Warehouse
cleared w = update_where (is_cleared w) (λ (row : Warehouse). record row { is_default = false })

exists-cleared :
    (business : ℕ) (w : Warehouse) (rows : List Warehouse)
    → exists (warehouse_of business) (cleared w rows) ≡ exists (warehouse_of business) rows
exists-cleared business w [] = refl
exists-cleared business w (row ∷ rows) =
    let rest = exists-cleared business w rows in
    elim (Bool-cases (is_cleared w row)) [
      | inl hit ↦ rw (hit, rest) refl
      | inr miss ↦ rw (miss, rest) refl
    ]

count-cleared :
    (w : Warehouse) (rows : List Warehouse)
    → exists (has_warehouse_id w.id) rows ≡ false
    → count_where (is_default_of w.business) (cleared w rows) ≡ 0
count-cleared w [] fresh = refl
count-cleared w (row ∷ rows) fresh = let rest = count-cleared w rows (ground arith) in ground arith

count-cleared_other :
    (business : ℕ) (w : Warehouse) (rows : List Warehouse)
    → (w.business == business) ≡ false
    → count_where (is_default_of business) (cleared w rows)
      ≡ count_where (is_default_of business) rows
count-cleared_other business w [] other = refl
count-cleared_other business w (row ∷ rows) other =
    let rest = count-cleared_other business w rows other in ground arith

exists-default :
    (business : ℕ) (rows : List Warehouse)
    → exists (warehouse_of business) rows ≡ false
    → count_where (is_default_of business) rows ≡ 0
exists-default business [] h = refl
exists-default business (row ∷ rows) h = ground (arith, exists-default business rows)

-- The warehouses of the business itself, after a new one.
clear_defaults-HasDefaultOf :
    (w : Warehouse) (rows : List Warehouse)
    → (w.is_default ≡ false → exists (warehouse_of w.business) rows ≡ true)
    → exists (has_warehouse_id w.id) rows ≡ false
    → HasDefaults rows
    → HasDefaultOf (clear_defaults w (w ∷ rows)) w.business
unfolding clear_defaults
clear_defaults-HasDefaultOf w rows others fresh one = elim (Bool-cases w.is_default) [
  | inl first ↦
      rw (first, ==_refl w.id, ==_refl w.business, count-cleared w rows fresh)
        (rw (==_refl w.business) refl)
  | inr more ↦
      let there = others more in
      let before = one w.business in
      let single : count_where (is_default_of w.business) rows ≡ 1 = rw there at before in
      rw (more, ==_refl w.business) (omega (arith, single))
]

clear_defaults-other :
    (w : Warehouse) (rows : List Warehouse) (business : ℕ)
    → (w.business == business) ≡ false
    → HasDefaults rows
    → HasDefaultOf (clear_defaults w (w ∷ rows)) business
unfolding clear_defaults
clear_defaults-other w rows business other one =
    let before = one business in
    elim (Bool-cases w.is_default) [
      | inl first ↦
          rw
            (
              first,
              ==_refl w.id,
              ==_refl w.business,
              other,
              count-cleared_other business w rows other,
              exists-cleared business w rows,
            )
            (omega arith)
      | inr more ↦ rw (more, other) (omega arith)
    ]

or-false : (a b : Bool) → (a || not b) ≡ false → b ≡ true
or-false false true h = refl
or-false false false h = absurd (cc)
or-false true b h = absurd (cc)

-- When each business with warehouses has exactly one default warehouse, this is still so after
-- `add_warehouse` has returned, for the business that it was called for and for all others.
pub add_warehouse-HasDefaults :
    (uuid : ℕ) (b : Business) (name city address : Text) (is_default : Bool)
    (before after : Directory)
    → HasDefaults before.warehouses
    → add_warehouse uuid b name city address is_default before ≡ ok after
    → HasDefaults after.warehouses
unfolding add_warehouse create_warehouse
add_warehouse-HasDefaults uuid b name city address is_default before after one h =
    let rows = before.warehouses in
    let w = new_warehouse uuid b (strip name) city address is_default rows in
    let (g, h) = raise_if-eq-ok (is_empty (strip name)) no_warehouse_name _ h in
    let (g, h) =
      raise_if-eq-ok (exists (is_named b.id (strip name)) rows) duplicate_warehouse _ h in
    let (warehouses, created, h) = >>=-eq-ok (create_warehouse w rows) _ h in
    let (g, c) =
      raise_if-eq-ok (ltb 150 (length w.name) || ltb 100 (length w.city)) data_error _ created in
    let (fresh, c) = raise_if-eq-ok (exists (has_warehouse_id uuid) rows) integrity_error _ c in
    let (g, c) = raise_if-eq-ok (exists (is_named b.id w.name) rows) integrity_error _ c in
    let same : clear_defaults w (w ∷ rows) ≡ after.warehouses = cc in
    subst HasDefaults same (λ business. elim (Bool-cases (b.id == business)) [
      | inl here ↦ subst (HasDefaultOf (clear_defaults w (w ∷ rows))) (ground arith) (
          clear_defaults-HasDefaultOf w rows (or-false is_default (exists (warehouse_of b.id) rows))
            fresh one)
      | inr other ↦ clear_defaults-other w rows business other one
    ])
