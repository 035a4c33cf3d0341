-- ===== src/Slug/Termination.antt =====
-- The loop of `Business.save` and `Product.save` over the candidates of a slug comes to an end.
use sanga.Common.{
  ℕ, zero, suc, ◌+◌, ◌==◌, ◌≡◌, ◌≤◌, ◌<◌, refl, sym, ◌∙◌, subst, inl, inr, true, false, some, List,
  [], ◌∷◌, not, arith, length, where_, Bool-cases,
}
use sanga.Common.Text.{Text, text_eq, text_eq-eq, or_text}
use sanga.Slug.Search.{candidate, is_taken, next_slug, new_slug, candidate-eq}

-- The first candidate from an index that no row has.
pub record IsFirst (base : Text) (idx : ℕ) (slugs : List Text) (slug : Text) : Type 0 where
  pub place : ℕ
  pub from : idx ≤ place
  pub named : slug ≡ candidate base place
  pub free : is_taken slug slugs ≡ false
  pub before : (j : ℕ) → idx ≤ j → j < place → is_taken (candidate base j) slugs ≡ true

next_slug-IsFirst :
    (fuel : ℕ) (base : Text) (idx : ℕ) (slugs : List Text) (slug : Text)
    → next_slug fuel base idx slugs ≡ some slug
    → IsFirst base idx slugs slug
unfolding next_slug
next_slug-IsFirst zero base idx slugs slug h = absurd (cc)
next_slug-IsFirst (suc fuel) base idx slugs slug h =
    elim (Bool-cases (is_taken (candidate base idx) slugs)) [
      | inr free ↦
          let found : some (candidate base idx) ≡ some slug = rw free at h in
          let same : candidate base idx ≡ slug = cc in
          record {
            place = idx;
            from = omega arith;
            named = sym same;
            free = subst (λ s. is_taken s slugs ≡ false) same free;
            before = λ j low high. absurd (omega arith);
          }
      | inl taken ↦
          let found : next_slug fuel base (idx + 1) slugs ≡ some slug = rw taken at h in
          let rest = next_slug-IsFirst fuel base (idx + 1) slugs slug found in
          record {
            place = rest.place;
            from = let f = rest.from in omega arith;
            named = rest.named;
            free = rest.free;
            before = λ j low high. elim (Bool-cases (idx == j)) [
              | inl here ↦
                  subst (λ i. is_taken (candidate base i) slugs ≡ true) (ground arith) taken
              | inr later ↦ rest.before j (ground arith) high
            ];
          }
    ]

-- The slugs without a candidate that was tried.
abbrev without : Text → List Text → List Text
without slug = where_ (λ t. not (text_eq slug t))

length-without_le : (slug : Text) (slugs : List Text) → length (without slug slugs) ≤ length slugs
length-without_le slug [] = omega arith
length-without_le slug (t ∷ ts) =
    let rest = length-without_le slug ts in
    elim (Bool-cases (text_eq slug t)) [
      | inl hit ↦ rw hit (omega arith)
      | inr miss ↦ rw miss (omega arith)
    ]

length-without :
    (slug : Text) (slugs : List Text)
    → is_taken slug slugs ≡ true
    → length (without slug slugs) < length slugs
length-without slug [] h = absurd (cc)
length-without slug (t ∷ ts) h = elim (Bool-cases (text_eq slug t)) [
  | inl hit ↦ let rest = length-without_le slug ts in rw hit (omega arith)
  | inr miss ↦ let rest = length-without slug ts (rw miss at h) in rw miss (omega arith)
]

is_taken-without :
    (slug other : Text) (slugs : List Text)
    → text_eq other slug ≡ false
    → is_taken other (without slug slugs) ≡ is_taken other slugs
is_taken-without slug other [] differs = refl
is_taken-without slug other (t ∷ ts) differs =
    let rest = is_taken-without slug other ts differs in
    elim (Bool-cases (text_eq slug t)) [
      | inl hit ↦
          let miss : text_eq other t ≡ false =
            subst (λ s. text_eq other s ≡ false) (text_eq-eq slug t hit) differs in
          rw (hit, miss, rest) refl
      | inr miss ↦ rw (miss, rest) refl
    ]

-- The loop reads no more of the table than whether the later candidates are taken.
next_slug_ext :
    (fuel : ℕ) (base : Text) (idx : ℕ) (a b : List Text)
    → ((j : ℕ) → idx ≤ j → is_taken (candidate base j) a ≡ is_taken (candidate base j) b)
    → next_slug fuel base idx a ≡ next_slug fuel base idx b
unfolding next_slug
next_slug_ext zero base idx a b agree = refl
next_slug_ext (suc fuel) base idx a b agree =
    let here = agree idx (omega arith) in
    let rest = next_slug_ext fuel base (idx + 1) a b (λ j low. agree j (omega arith)) in
    rw (here, rest) refl

text_differ : (s t : Text) → (s ≡ t → ⊥) → text_eq s t ≡ false
text_differ s t differ = elim (Bool-cases (text_eq s t)) [
  | inl same ↦ absurd (differ (text_eq-eq s t same))
  | inr other ↦ other
]

next_slug_enough :
    (fuel : ℕ) (base : Text) (idx : ℕ) (slugs : List Text)
    → length slugs < fuel
    → (slug : Text) × (next_slug fuel base idx slugs ≡ some slug)
unfolding next_slug
next_slug_enough zero base idx slugs h = absurd (omega arith)
next_slug_enough (suc fuel) base idx slugs h =
    elim (Bool-cases (is_taken (candidate base idx) slugs)) [
      | inr free ↦ (candidate base idx, rw free refl)
      | inl taken ↦
          let tried = candidate base idx in
          let fewer = length-without tried slugs taken in
          let (slug, found) =
            next_slug_enough fuel base (idx + 1) (without tried slugs) (omega arith) in
          let same = next_slug_ext fuel base (idx + 1) (without tried slugs) slugs (λ j low.
            is_taken-without tried (candidate base j) slugs (
              text_differ (candidate base j) tried
                (λ eq. let i = candidate-eq base j idx eq in omega arith))) in
          (slug, rw taken (sym same ∙ found))
    ]

-- The loop of `save` ends for every table, name and word that stands for an empty slug: within one
-- round more than there are rows it returns the first of the numbered candidates that no row has.
pub new_slug-IsFirst :
    (slugified fallback : Text) (slugs : List Text)
    → (slug : Text) × (new_slug slugified fallback slugs ≡ some slug)
      × IsFirst (or_text slugified fallback) 1 slugs slug
unfolding new_slug
new_slug-IsFirst slugified fallback slugs =
    let (slug, found) =
      next_slug_enough (suc (length slugs)) (or_text slugified fallback) 1 slugs (omega arith) in
    (
      slug,
      found,
      next_slug-IsFirst (suc (length slugs)) (or_text slugified fallback) 1 slugs slug found,
    )
