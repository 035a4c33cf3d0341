-- ===== src/Persian/Phone.antt =====
-- `normalize_phone` on what it returned, and the characters it leaves.
use sanga.Common.{
  ◌≡◌, refl, ap, ◌∙◌, true, [], ◌∷◌, ◌&&◌, ◌==◌, arith, map, where_, length, All, Bool-cases, inl,
  inr,
}
use sanga.Common.Text.{Text}
use sanga.Persian.{
  ascii_digit, normalize_digits, is_ascii_digit, drop_country_code, add_leading_zero,
  normalize_phone,
}

abbrev pub AreDigits : Text → Type 0
AreDigits = All (λ c. is_ascii_digit c ≡ true)

where_-AreDigits : (s : Text) → AreDigits (where_ is_ascii_digit s)
where_-AreDigits [] = tt
where_-AreDigits (c ∷ s) = elim (Bool-cases (is_ascii_digit c)) [
  | inl digit ↦ rw digit (digit, where_-AreDigits s)
  | inr other ↦ rw other (where_-AreDigits s)
]

-- Digits pass the translation and the filter as they are.
where_-digits : (s : Text) → AreDigits s → where_ is_ascii_digit (map ascii_digit s) ≡ s
where_-digits [] d = refl
where_-digits (c ∷ s) d =
    let same : ascii_digit c ≡ c = ground arith in let rest = where_-digits s d.1 in ground arith

drop_country_code-AreDigits : (s : Text) → AreDigits s → AreDigits (drop_country_code s)
unfolding drop_country_code
drop_country_code-AreDigits [] d = tt
drop_country_code-AreDigits (c ∷ []) d = d
drop_country_code-AreDigits (c ∷ e ∷ s) d =
    elim (Bool-cases (c == b'9' && (e == b'8' && length s == 10))) [
      | inl code ↦ rw code (refl, d.1.1)
      | inr other ↦ rw other d
    ]

add_leading_zero-AreDigits : (s : Text) → AreDigits s → AreDigits (add_leading_zero s)
unfolding add_leading_zero
add_leading_zero-AreDigits [] d = tt
add_leading_zero-AreDigits (c ∷ s) d = elim (Bool-cases (c == b'9' && length s == 9)) [
  | inl short ↦ rw short (refl, d)
  | inr other ↦ rw other d
]

normal_again :
    (s : Text)
    → let t = add_leading_zero (drop_country_code s) in add_leading_zero (drop_country_code t) ≡ t
unfolding drop_country_code add_leading_zero
normal_again [] = refl
normal_again (c ∷ []) = ground arith
normal_again (c ∷ e ∷ s) = ground arith

-- A normalized phone number has ASCII digits only, and normalizing it again changes nothing.
pub normalize_phone_idem :
    (phone : Text)
    → AreDigits (normalize_phone phone)
      × (normalize_phone (normalize_phone phone) ≡ normalize_phone phone)
unfolding normalize_phone normalize_digits
normalize_phone_idem phone =
    let s = where_ is_ascii_digit (map ascii_digit phone) in
    let digits =
      add_leading_zero-AreDigits (drop_country_code s)
        (drop_country_code-AreDigits s (where_-AreDigits (map ascii_digit phone))) in
    (
      digits,
      ap (λ t. add_leading_zero (drop_country_code t))
            (where_-digits (add_leading_zero (drop_country_code s)) digits)
          ∙ normal_again s,
    )
