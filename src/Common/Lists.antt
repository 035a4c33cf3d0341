-- ===== src/Common/Lists.antt =====
-- Lists under native numbers, and the queries that the selectors make of a table.
use Prim.Native.Nat.{ℕ, suc, ◌+◌, ◌≤◌}
use mathlib.Core.Path.{◌≡◌, refl, subst, ◌∙◌}
use mathlib.Core.Logic.{inl, inr}
use mathlib.Core.Bool.{Bool, true, false, ◌||◌}
use mathlib.Core.List.{List, [], ◌∷◌, ◌++◌}
use mathlib.Core.Option.{Option, none, some}
use native.Mathlib.Omega.{arith}
use sanga.Common.Tests.{leb, if◌then◌else◌, Bool-cases, Option-cases}

module _ {ℓ} {A : Type ℓ} where
  abbrev pub length : List A → ℕ
  length [] = 0
  length (x ∷ xs) = suc (length xs)

  -- `qs.filter(p)`
  abbrev pub where_ : (A → Bool) → List A → List A
  where_ p [] = []
  where_ p (x ∷ xs) = let rest = where_ p xs in if p x then x ∷ rest else rest

  -- `qs.filter(p).exists()`
  abbrev pub exists : (A → Bool) → List A → Bool
  exists p [] = false
  exists p (x ∷ xs) = p x || exists p xs

  -- `qs.filter(p).first()`, in the table's order.
  abbrev pub find_first : (A → Bool) → List A → Option A
  find_first p [] = none
  find_first p (x ∷ xs) = let rest = find_first p xs in if p x then some x else rest

  -- `qs.filter(p).update(...)`
  abbrev pub update_where : (A → Bool) → (A → A) → List A → List A
  update_where p f [] = []
  update_where p f (x ∷ xs) = (if p x then f x else x) ∷ update_where p f xs

  -- `qs.filter(p).count()`
  abbrev pub count_where : (A → Bool) → List A → ℕ
  count_where p [] = 0
  count_where p (x ∷ xs) = (if p x then 1 else 0) + count_where p xs

  -- `qs.order_by("-key").first()`; of rows with one key, the one that the table has in front.
  abbrev pub newest : (A → ℕ) → List A → Option A
  newest key [] = none
  newest key (x ∷ xs) = elim (newest key xs) [
    | none ↦ some x
    | some y ↦ if leb (key y) (key x) then some x else some y
  ]

  -- Every row satisfies the predicate.
  abbrev pub All {κ} : (A → Type κ) → List A → Type κ
  All P [] = Unit
  All P (x ∷ xs) = P x × All P xs

module _ {ℓ} {A : Type ℓ} where
  pub find_first_sound :
      (p : A → Bool) (xs : List A) (x : A) → find_first p xs ≡ some x → p x ≡ true
  find_first_sound p [] x h = ground arith
  find_first_sound p (y ∷ ys) x h = ground (arith, find_first_sound p ys x)

  pub find_first-All {κ} :
      (P : A → Type κ) (p : A → Bool) (xs : List A) (x : A)
      → All P xs
      → find_first p xs ≡ some x
      → P x
  find_first-All P p [] x a h = absurd (ground arith)
  find_first-All P p (y ∷ ys) x a h = elim (Bool-cases (p y)) [
    | inl e ↦ subst P (ground arith) a.0
    | inr e ↦ find_first-All P p ys x a.1 (ground arith)
  ]

  -- Nothing is found where nothing is there, and the other way round.
  pub find_first-none : (p : A → Bool) (xs : List A) → find_first p xs ≡ none → exists p xs ≡ false
  find_first-none p [] h = refl
  find_first-none p (y ∷ ys) h = ground (arith, find_first-none p ys)

  pub where_-append :
      (p : A → Bool) (xs ys : List A) → where_ p (xs ++ ys) ≡ where_ p xs ++ where_ p ys
  where_-append p [] ys = refl
  where_-append p (x ∷ xs) ys = ground (arith, where_-append p xs ys)

  pub All-map {κ μ} :
      {P : A → Type κ} {Q : A → Type μ} (f : (x : A) → P x → Q x) (xs : List A)
      → All P xs
      → All Q xs
  All-map f [] a = tt
  All-map f (x ∷ xs) a = (f x a.0, All-map f xs a.1)

  -- An update that creates no match leaves a table with none.
  pub exists-update_where :
      (p q : A → Bool) (f : A → A)
      → ((x : A) → p (f x) ≡ false)
      → (xs : List A) → exists p xs ≡ false
      → exists p (update_where q f xs) ≡ false
  exists-update_where p q f keep [] h = refl
  exists-update_where p q f keep (x ∷ xs) h = elim (Bool-cases (q x)) [
    | inl hit ↦ rw (hit, keep x) (exists-update_where p q f keep xs (ground arith))
    | inr miss ↦ rw miss (ground (arith, exists-update_where p q f keep xs))
  ]

  -- What is found is there.
  pub find_first-count_where :
      (p : A → Bool) (xs : List A) (x : A) → find_first p xs ≡ some x → 1 ≤ count_where p xs
  find_first-count_where p [] x h = absurd (ground arith)
  find_first-count_where p (y ∷ ys) x h = elim (Bool-cases (p y)) [
    | inl here ↦ ground arith
    | inr miss ↦ let rest = find_first-count_where p ys x (ground arith) in ground arith
  ]

  pub exists-count_where : (p : A → Bool) (xs : List A) → exists p xs ≡ true → 1 ≤ count_where p xs
  exists-count_where p [] h = absurd (ground arith)
  exists-count_where p (y ∷ ys) h = elim (Bool-cases (p y)) [
    | inl here ↦ ground arith
    | inr miss ↦ let rest = exists-count_where p ys (ground arith) in ground arith
  ]

  -- The newest row is one of the table's.
  pub newest-All {κ} :
      (P : A → Type κ) (key : A → ℕ) (xs : List A) (x : A) → All P xs → newest key xs ≡ some x → P x
  newest-All P key [] x a h = absurd (ground arith)
  newest-All P key (y ∷ ys) x a h = elim (Option-cases (newest key ys)) [
    | inl none_left ↦ subst P (ground arith) a.0
    | inr (z, found) ↦ elim (Bool-cases (leb (key z) (key y))) [
      | inl newer ↦ subst P (ground arith) a.0
      | inr older ↦ newest-All P key ys x a.1 (found ∙ ground arith)
    ]
  ]

  pub newest-none {κ} :
      (key : A → ℕ) (xs : List A) (P : A → Type κ) → newest key xs ≡ none → All P xs
  newest-none key [] P h = tt
  newest-none key (y ∷ ys) P h = absurd (ground arith)

  -- No row is newer than it.
  pub newest_max :
      (key : A → ℕ) (xs : List A) (x : A) → newest key xs ≡ some x → All (λ y. key y ≤ key x) xs
  newest_max key [] x h = tt
  newest_max key (y ∷ ys) x h = elim (Option-cases (newest key ys)) [
    | inl none_left ↦
        let same : y ≡ x = ground arith in
        (ground arith, newest-none key ys (λ z. key z ≤ key x) none_left)
    | inr (z, found) ↦
        let rest = newest_max key ys z found in
        elim (Bool-cases (leb (key z) (key y))) [
          | inl newer ↦
              let same : y ≡ x = ground arith in
              (ground arith, All-map (λ w below. ground arith) ys rest)
          | inr older ↦
              let same : z ≡ x = ground arith in
              (ground arith, All-map (λ w below. ground arith) ys rest)
        ]
  ]

  pub where_-All : (p : A → Bool) (xs : List A) → All (λ x. p x ≡ true) (where_ p xs)
  where_-All p [] = tt
  where_-All p (x ∷ xs) = elim (Bool-cases (p x)) [
    | inl here ↦ rw here (here, where_-All p xs)
    | inr miss ↦ rw miss (where_-All p xs)
  ]

  -- What holds of the rows that a filter keeps.
  pub All-where_ {κ} :
      (P : A → Type κ) (p : A → Bool) (xs : List A)
      → All P (where_ p xs)
      → All (λ x. p x ≡ true → P x) xs
  All-where_ P p [] a = tt
  All-where_ P p (x ∷ xs) a = elim (Bool-cases (p x)) [
    | inl here ↦
        let both : P x × All P (where_ p xs) = rw here at a in
        (λ e. both.0, All-where_ P p xs both.1)
    | inr miss ↦
        let rest : All P (where_ p xs) = rw miss at a in
        (λ e. absurd (ground arith), All-where_ P p xs rest)
  ]

  -- A filter keeps what holds of all rows.
  pub where_-keeps-All {κ} :
      (P : A → Type κ) (p : A → Bool) (xs : List A) → All P xs → All P (where_ p xs)
  where_-keeps-All P p [] a = tt
  where_-keeps-All P p (x ∷ xs) a = elim (Bool-cases (p x)) [
    | inl here ↦ rw here (a.0, where_-keeps-All P p xs a.1)
    | inr miss ↦ rw miss (where_-keeps-All P p xs a.1)
  ]

  -- An update that does not touch what a filter reads.
  pub count_where-update_where :
      (p q : A → Bool) (f : A → A)
      → ((x : A) → p (f x) ≡ p x)
      → (xs : List A) → count_where p (update_where q f xs) ≡ count_where p xs
  count_where-update_where p q f keep [] = refl
  count_where-update_where p q f keep (x ∷ xs) =
      let rest = count_where-update_where p q f keep xs in
      elim (Bool-cases (q x)) [
        | inl hit ↦ rw (hit, keep x, rest) refl
        | inr miss ↦ rw (miss, rest) refl
      ]

  pub All-update_where {κ} :
      (P : A → Type κ) (q : A → Bool) (f : A → A) (xs : List A)
      → All P xs
      → All (λ x. q x ≡ true → P (f x)) xs
      → All P (update_where q f xs)
  All-update_where P q f [] a b = tt
  All-update_where P q f (x ∷ xs) a b = elim (Bool-cases (q x)) [
    | inl hit ↦ rw hit (b.0 hit, All-update_where P q f xs a.1 b.1)
    | inr miss ↦ rw miss (a.0, All-update_where P q f xs a.1 b.1)
  ]

  pub count_where_mono :
      (p q : A → Bool)
      → ((x : A) → p x ≡ true → q x ≡ true)
      → (xs : List A) → count_where p xs ≤ count_where q xs
  count_where_mono p q imp [] = omega arith
  count_where_mono p q imp (x ∷ xs) =
      let rest = count_where_mono p q imp xs in
      elim (Bool-cases (p x)) [
        | inl here ↦ let there = imp x here in ground arith
        | inr miss ↦ ground arith
      ]

  pub All-both {κ μ} :
      (P : A → Type κ) (Q : A → Type μ) (xs : List A)
      → All P xs
      → All Q xs
      → All (λ x. P x × Q x) xs
  All-both P Q [] a b = tt
  All-both P Q (x ∷ xs) a b = ((a.0, b.0), All-both P Q xs a.1 b.1)

  pub exists-All : (p : A → Bool) (xs : List A) → exists p xs ≡ false → All (λ x. p x ≡ false) xs
  exists-All p [] h = tt
  exists-All p (x ∷ xs) h = (ground arith, exists-All p xs (ground arith))

  -- What holds of the rows that match holds of all that a filter keeps.
  pub where_-imp {κ} :
      (P : A → Type κ) (p : A → Bool) (xs : List A)
      → All (λ x. p x ≡ true → P x) xs
      → All P (where_ p xs)
  where_-imp P p [] a = tt
  where_-imp P p (x ∷ xs) a = elim (Bool-cases (p x)) [
    | inl here ↦ rw here (a.0 here, where_-imp P p xs a.1)
    | inr miss ↦ rw miss (where_-imp P p xs a.1)
  ]

  -- A row in front that no other is newer than.
  pub newest-front :
      (key : A → ℕ) (x : A) (xs : List A)
      → All (λ y. key y ≤ key x) xs
      → newest key (x ∷ xs) ≡ some x
  newest-front key x xs a = elim (Option-cases (newest key xs)) [
    | inl none_left ↦ rw none_left refl
    | inr (y, found) ↦
        let below = newest-All (λ z. key z ≤ key x) key xs y a found in
        let no_newer : leb (key y) (key x) ≡ true = ground arith in rw (found, no_newer) refl
  ]
