-- ===== src/Catalog/Items.antt =====
-- The items of a catalog after `set_catalog_lots` (apps/catalog/services.py).
use sanga.Common.{
  ℕ, ◌==◌, ◌≡◌, refl, ap, sym, subst, inl, inr, Bool, true, false, some, List, [], ◌∷◌, ◌&&◌, not,
  exists, arith, All, All-map, Bool-cases, Option-cases, ==_refl, AreKeyed, has_key,
}
use sanga.Common.Text.{Text, text_eq, text_eq-eq, text_eq_refl}
use sanga.Catalog.Services.{Uuid, read_all, is_shown, keep_valid}

-- A text with the identifier that it spells.
abbrev pub IsRead : Uuid → Text × ℕ → Type 0
IsRead uuid (t, i) = uuid.read t ≡ some i

the_some {ℓ} : {A : Type ℓ} (a b : A) → some a ≡ some b → a ≡ b
the_some a b h = cc

pub read_all-IsRead :
    (uuid : Uuid) (ts : List Text) (requested : List (Text × ℕ))
    → read_all uuid ts ≡ some requested
    → All (IsRead uuid) requested
unfolding read_all
read_all-IsRead uuid [] requested h = subst (All (IsRead uuid)) (the_some [] requested h) tt
read_all-IsRead uuid (t ∷ ts) requested h = elim (Option-cases (uuid.read t)) [
  | inl bad ↦ absurd (let e = rw (read_all, bad) at h in cc)
  | inr (i, here) ↦ elim (Option-cases (read_all uuid ts)) [
    | inl bad ↦ absurd (let e = rw (read_all, here, bad) at h in cc)
    | inr (rest, there) ↦
        subst (All (IsRead uuid))
          (the_some ((t, i) ∷ rest) requested (rw (read_all, here, there) at h))
          (here, read_all-IsRead uuid ts rest there)
  ]
]

abbrev pub is_owned : List ℕ → ℕ → Bool
is_owned owned i = exists (λ j. j == i) owned

module _ (uuid : Uuid) (reads : (i : ℕ) → uuid.read (uuid.show i) ≡ some i) (owned : List ℕ) where
  -- A text that is printed for an owned lot, and read as an identifier, is that lot's.
  shown_owned :
      (t : Text) (i : ℕ)
      → uuid.read t ≡ some i
      → (ids : List ℕ) → is_shown uuid ids t ≡ true
      → (t ≡ uuid.show i) × (is_owned ids i ≡ true)
  shown_owned t i read [] h = absurd (cc)
  shown_owned t i read (j ∷ ids) h = elim (Bool-cases (text_eq (uuid.show j) t)) [
    | inl here ↦
        let same = text_eq-eq (uuid.show j) t here in
        let spelled = ap uuid.read same in
        let back = reads j in
        let equal : j ≡ i = cc in
        (subst (λ k. t ≡ uuid.show k) equal (sym same), rw equal (rw (==_refl i) refl))
    | inr miss ↦
        let rest = shown_owned t i read ids (rw miss at h) in
        (rest.0, elim (Bool-cases (j == i)) [ inl e ↦ rw e refl | inr e ↦ rw e rest.1 ])
  ]

  pub keep_valid-owned :
      (seen : List Text) (requested : List (Text × ℕ))
      → All (IsRead uuid) requested
      → All (λ i. is_owned owned i ≡ true) (keep_valid uuid owned seen requested)
  unfolding keep_valid
  keep_valid-owned seen [] r = tt
  keep_valid-owned seen ((t, i) ∷ rest) r =
      elim (Bool-cases (is_shown uuid owned t && not (exists (text_eq t) seen))) [
        | inl kept ↦
            rw kept
              ((shown_owned t i r.0 owned (ground arith)).1, keep_valid-owned (t ∷ seen) rest r.1)
        | inr skipped ↦ rw skipped (keep_valid-owned seen rest r.1)
      ]

  -- What is kept was not seen before.
  keep_valid-unseen :
      (seen : List Text) (requested : List (Text × ℕ))
      → All (IsRead uuid) requested
      → All
          (λ i. exists (text_eq (uuid.show i)) seen ≡ false)
          (keep_valid uuid owned seen requested)
  unfolding keep_valid
  keep_valid-unseen seen [] r = tt
  keep_valid-unseen seen ((t, i) ∷ rest) r =
      elim (Bool-cases (is_shown uuid owned t && not (exists (text_eq t) seen))) [
        | inl kept ↦
            let same = (shown_owned t i r.0 owned (ground arith)).0 in
            rw kept (
              subst (λ s. exists (text_eq s) seen ≡ false) same (ground arith),
              All-map (λ j later. ground arith) (keep_valid uuid owned (t ∷ seen) rest)
                  (keep_valid-unseen (t ∷ seen) rest r.1),
            )
        | inr skipped ↦ rw skipped (keep_valid-unseen seen rest r.1)
      ]

  not_among :
      (t : Text) (i : ℕ)
      → t ≡ uuid.show i
      → (seen : List Text) (ids : List ℕ)
      → All (λ j. exists (text_eq (uuid.show j)) (t ∷ seen) ≡ false) ids
      → exists (has_key (λ (j : ℕ). j) i) ids ≡ false
  not_among t i same seen [] a = refl
  not_among t i same seen (j ∷ ids) a = elim (Bool-cases (j == i)) [
    | inr miss ↦ rw miss (not_among t i same seen ids a.1)
    | inl hit ↦ absurd (
        let equal : j ≡ i = ground arith in
        let yes = text_eq_refl (uuid.show i) in
        let no : exists (text_eq (uuid.show i)) (uuid.show i ∷ seen) ≡ false =
          subst (λ s. exists (text_eq (uuid.show i)) (s ∷ seen) ≡ false) same
            (subst (λ k. exists (text_eq (uuid.show k)) (t ∷ seen) ≡ false) equal a.0) in
        let clash = rw yes at no in cc)
  ]

  pub keep_valid-AreKeyed :
      (seen : List Text) (requested : List (Text × ℕ))
      → All (IsRead uuid) requested
      → AreKeyed (λ (i : ℕ). i) (keep_valid uuid owned seen requested)
  unfolding keep_valid
  keep_valid-AreKeyed seen [] r = tt
  keep_valid-AreKeyed seen ((t, i) ∷ rest) r =
      elim (Bool-cases (is_shown uuid owned t && not (exists (text_eq t) seen))) [
        | inl kept ↦
            let same = (shown_owned t i r.0 owned (ground arith)).0 in
            rw kept (
              not_among t i same seen (keep_valid uuid owned (t ∷ seen) rest)
                  (keep_valid-unseen (t ∷ seen) rest r.1),
              keep_valid-AreKeyed (t ∷ seen) rest r.1,
            )
        | inr skipped ↦ rw skipped (keep_valid-AreKeyed seen rest r.1)
      ]
