-- ===== src/Common/Keys.antt =====
-- Tables whose rows have a key of their own.
use sanga.Common.Tests.{◌==◌, Bool-cases}
use sanga.Common.Lists.{exists, count_where, update_where, All, All-map, All-both, exists-All}
use Prim.Native.Nat.{ℕ, ◌+◌, ◌≤◌}
use mathlib.Core.Path.{◌≡◌, refl, ◌∙◌}
use mathlib.Core.Logic.{inl, inr}
use mathlib.Core.Bool.{Bool, true, false, ◌&&◌, not}
use mathlib.Core.List.{List, [], ◌∷◌}
use native.Mathlib.Omega.{arith}

module _ {ℓ} {A : Type ℓ} where
  -- The rows that match after an update: those that it makes match, and those that it leaves.
  pub count_where-update_split :
      (p q : A → Bool) (f : A → A) (xs : List A)
      → count_where p (update_where q f xs)
        ≡ count_where (λ x. q x && p (f x)) xs + count_where (λ x. not (q x) && p x) xs
  count_where-update_split p q f [] = refl
  count_where-update_split p q f (x ∷ xs) =
      let rest = count_where-update_split p q f xs in
      elim (Bool-cases (q x)) [
        | inl hit ↦ rw (hit, rest) (omega arith)
        | inr miss ↦ rw (miss, rest) (omega arith)
      ]

  pub count_where-none : (p : A → Bool) (xs : List A) → exists p xs ≡ false → count_where p xs ≡ 0
  count_where-none p [] h = refl
  count_where-none p (x ∷ xs) h = ground (arith, count_where-none p xs)

  pub count_where-All :
      (p : A → Bool) (xs : List A) → All (λ x. p x ≡ false) xs → count_where p xs ≡ 0
  count_where-All p [] a = refl
  count_where-All p (x ∷ xs) a = let rest = count_where-All p xs a.1 in rw (a.0, rest) refl

module _ {ℓ} {A : Type ℓ} (key : A → ℕ) where
  abbrev pub has_key : ℕ → A → Bool
  has_key i x = key x == i

  -- No two rows have one key.
  abbrev pub AreKeyed : List A → Type 0
  AreKeyed [] = Unit
  AreKeyed (x ∷ xs) = (exists (has_key (key x)) xs ≡ false) × AreKeyed xs

  -- The row with the key of a row is that row.
  abbrev pub IsOnly : List A → A → Type ℓ
  IsOnly xs x = All (λ y. (key y == key x) ≡ true → y ≡ x) xs

  abbrev IsOther : A → A → Type 0
  IsOther x y = (key y == key x) ≡ false

  pub AreKeyed-IsOnly : (xs : List A) → AreKeyed xs → All (IsOnly xs) xs
  AreKeyed-IsOnly [] k = tt
  AreKeyed-IsOnly (x ∷ xs) k =
      let others = exists-All (has_key (key x)) xs k.0 in
      let here : IsOnly xs x = All-map (λ y other same. absurd (ground arith)) xs others in
      let there : (y : A) → IsOther x y × IsOnly xs y → IsOnly (x ∷ xs) y =
        λ y both. (λ same. absurd (let other = both.0 in ground arith), both.1) in
      (
        (λ same. refl, here),
        All-map there xs (All-both (IsOther x) (IsOnly xs) xs others (AreKeyed-IsOnly xs k.1)),
      )

  exists-key-update :
      (q : A → Bool) (f : A → A)
      → ((x : A) → key (f x) ≡ key x)
      → (i : ℕ) (xs : List A) → exists (has_key i) (update_where q f xs) ≡ exists (has_key i) xs
  exists-key-update q f keep i [] = refl
  exists-key-update q f keep i (x ∷ xs) =
      let rest = exists-key-update q f keep i xs in
      elim (Bool-cases (q x)) [
        | inl hit ↦ rw (hit, keep x, rest) refl
        | inr miss ↦ rw (miss, rest) refl
      ]

  pub AreKeyed-update :
      (q : A → Bool) (f : A → A)
      → ((x : A) → key (f x) ≡ key x)
      → (xs : List A) → AreKeyed xs
      → AreKeyed (update_where q f xs)
  AreKeyed-update q f keep [] k = tt
  AreKeyed-update q f keep (x ∷ xs) k =
      let rest = AreKeyed-update q f keep xs k.1 in
      let fresh = exists-key-update q f keep (key x) xs ∙ k.0 in
      elim (Bool-cases (q x)) [
        | inl hit ↦ rw (hit, keep x) (fresh, rest)
        | inr miss ↦ rw miss (fresh, rest)
      ]

  -- A key stands in the table once at most.
  pub count_where-key : (i : ℕ) (xs : List A) → AreKeyed xs → count_where (has_key i) xs ≤ 1
  count_where-key i [] k = omega arith
  count_where-key i (x ∷ xs) k =
      let rest = count_where-key i xs k.1 in
      elim (Bool-cases (key x == i)) [
        | inr other ↦ rw other (omega (arith, rest))
        | inl here ↦
            let none_left = count_where-none (has_key (key x)) xs k.0 in
            let same : key x ≡ i = ground arith in ground arith
      ]
