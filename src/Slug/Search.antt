-- ===== src/Slug/Search.antt =====
-- The numbered candidates of a slug and the search for one that no row has.
use sanga.Common.{
  ℕ, zero, suc, ◌+◌, ◌*◌, ◌^◌, ◌==◌, ◌≡◌, ◌<◌, sym, ◌∙◌, ap, inl, inr, Bool, Option, none, some,
  List, [], ◌∷◌, ◌++◌, arith, if◌then◌else◌, exists, length, Bool-cases,
}
use native.Mathlib.Nat.{pow-suc}
use sanga.Common.Text.{Text, text_eq, show_fuel, read_digits, read_digits-show_fuel, or_text}

-- `f"{base}-{idx}"`, and the base itself for the first.
unfoldable pub candidate : Text → ℕ → Text
candidate base idx = if idx == 1 then base else base ++ b'-' ∷ show_fuel idx idx

-- `Model.objects.filter(slug=candidate).exists()`; the row that is saved has no slug yet.
abbrev pub is_taken : Text → List Text → Bool
is_taken slug slugs = exists (text_eq slug) slugs

-- The `while` loop, from an index.
unfoldable pub next_slug : (fuel : ℕ) → Text → ℕ → List Text → Option Text
next_slug zero base idx slugs = none
next_slug (suc fuel) base idx slugs =
    let rest = next_slug fuel base (idx + 1) slugs in
    if is_taken (candidate base idx) slugs then rest else some (candidate base idx)

-- `save` on a row without a slug: the slugs of the other rows, what `slugify` returned and the word
-- that stands for an empty one.
unfoldable pub new_slug : Text → Text → List Text → Option Text
new_slug slugified fallback slugs =
    next_slug (suc (length slugs)) (or_text slugified fallback) 1 slugs

below_power : (n : ℕ) → n < 10 ^ n
below_power zero = omega arith
below_power (suc n) =
    let below = below_power n in let e : 10 ^ suc n ≡ 10 ^ n * 10 = pow-suc 10 n in omega arith

-- The digits of two numbers differ.
show_fuel-eq : (i j : ℕ) → show_fuel i i ≡ show_fuel j j → i ≡ j
show_fuel-eq i j same =
    sym (read_digits-show_fuel i i (below_power i))
    ∙ ap (read_digits 0) same
    ∙ read_digits-show_fuel j j (below_power j)

append-cancel : (base s t : Text) → base ++ s ≡ base ++ t → s ≡ t
append-cancel [] s t same = same
append-cancel (c ∷ base) s t same = append-cancel base s t (cc)

length-append : (s t : Text) → length (s ++ t) ≡ length s + length t
length-append [] t = omega arith
length-append (c ∷ s) t = let rest = length-append s t in omega arith

longer : (base s : Text) (c : ℕ) → base ≡ base ++ c ∷ s → ⊥
longer base s c same = let both = ap length same ∙ length-append base (c ∷ s) in omega arith

-- No two indices have one candidate.
pub candidate-eq : (base : Text) (i j : ℕ) → candidate base i ≡ candidate base j → i ≡ j
unfolding candidate
candidate-eq base i j same = elim (Bool-cases (i == 1)) [
  | inl first ↦ elim (Bool-cases (j == 1)) [
    | inl first' ↦ ground arith
    | inr later' ↦ absurd (longer base (show_fuel j j) b'-' (rw (first, later') at same))
  ]
  | inr later ↦ elim (Bool-cases (j == 1)) [
    | inl first' ↦ absurd (longer base (show_fuel i i) b'-' (sym (rw (later, first') at same)))
    | inr later' ↦
        let tails =
          append-cancel base (b'-' ∷ show_fuel i i) (b'-' ∷ show_fuel j j)
            (rw (later, later') at same) in
        show_fuel-eq i j (cc)
  ]
]
