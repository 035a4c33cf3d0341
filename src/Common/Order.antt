-- ===== src/Common/Order.antt =====
-- `qs.order_by(...)`: a stable sort. The database leaves open how rows of equal keys come, here in the
-- order of the table.
use Prim.Native.Nat.{ℕ}
use mathlib.Core.Path.{◌≡◌, refl}
use mathlib.Core.Logic.{inl, inr}
use mathlib.Core.Bool.{Bool, true, false}
use mathlib.Core.List.{List, [], ◌∷◌}
use mathlib.Core.Option.{Option, none, some}
use native.Mathlib.Omega.{arith}
use sanga.Common.Tests.{ltb, if◌then◌else◌, Bool-cases}
use sanga.Common.Lists.{count_where}

-- `-flag`, and then the rest of the keys.
abbrev pub by_flag : Bool → Bool → Bool → Bool
by_flag true false later = true
by_flag false true later = false
by_flag a b later = later

-- `-time`, and then the rest of the keys.
abbrev pub by_latest : ℕ → ℕ → Bool → Bool
by_latest a b later = if ltb b a then true else if ltb a b then false else later

-- `-time` of a column that may be empty: PostgreSQL puts the empty ones first.
abbrev pub by_latest_given : Option ℕ → Option ℕ → Bool → Bool
by_latest_given none none later = later
by_latest_given none (some b) later = true
by_latest_given (some a) none later = false
by_latest_given (some a) (some b) later = by_latest a b later

module _ {ℓ} {A : Type ℓ} (not_after : A → A → Bool) where
  abbrev pub insert_by : A → List A → List A
  insert_by x [] = x ∷ []
  insert_by x (y ∷ ys) = let rest = insert_by x ys in if not_after x y then x ∷ y ∷ ys else y ∷ rest

  abbrev pub order_by : List A → List A
  order_by [] = []
  order_by (x ∷ xs) = insert_by x (order_by xs)

  count_where-insert_by :
      (p : A → Bool) (x : A) (xs : List A) → count_where p (insert_by x xs) ≡ count_where p (x ∷ xs)
  count_where-insert_by p x [] = refl
  count_where-insert_by p x (y ∷ ys) =
      let rest = count_where-insert_by p x ys in
      elim (Bool-cases (not_after x y)) [
        | inl here ↦ rw here refl
        | inr past ↦ rw (past, rest) (omega arith)
      ]

  -- A sort loses no row and adds none.
  pub count_where-order_by :
      (p : A → Bool) (xs : List A) → count_where p (order_by xs) ≡ count_where p xs
  count_where-order_by p [] = refl
  count_where-order_by p (x ∷ xs) =
      let rest = count_where-order_by p xs in
      rw (count_where-insert_by p x (order_by xs)) (omega arith)
