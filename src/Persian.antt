-- ===== src/Persian.antt =====
-- apps/core/persian.py: digits, phone numbers and search terms that are typed on Persian keyboards.
pub mod Phone
mod Tests
use sanga.Common.{
  ℕ, ◌+◌, ◌-◌, ◌==◌, Bool, true, false, List, [], ◌∷◌, ◌&&◌, ◌||◌, leb, if◌then◌else◌, map, where_,
  length,
}
use sanga.Common.Text.{Text, strip, is_space}

-- `_DIGIT_TRANSLATION` on one character: Persian and Arabic-Indic digits become ASCII ones.
abbrev pub ascii_digit : ℕ → ℕ
ascii_digit c =
    if leb 0x6f0 c && leb c 0x6f9
    then c - 0x6f0 + 48
    else if leb 0x660 c && leb c 0x669
    then c - 0x660 + 48
    else c

-- `normalize_digits`
unfoldable pub normalize_digits : Text → Text
normalize_digits value = map ascii_digit value

-- A character of `[0-9]`.
abbrev pub is_ascii_digit : ℕ → Bool
is_ascii_digit c = leb b'0' c && leb c b'9'

-- `s.startswith(prefix)`
abbrev pub starts_with : Text → Text → Bool
starts_with [] s = true
starts_with (p ∷ ps) [] = false
starts_with (p ∷ ps) (c ∷ s) = p == c && starts_with ps s

-- The country code `98` of a number of twelve digits becomes a zero.
unfoldable pub drop_country_code : Text → Text
drop_country_code (c ∷ d ∷ s) =
    if c == b'9' && (d == b'8' && length s == 10) then b'0' ∷ s else c ∷ d ∷ s
drop_country_code s = s

-- A number of ten digits that starts with `9` gets its zero.
unfoldable pub add_leading_zero : Text → Text
add_leading_zero (c ∷ s) = if c == b'9' && length s == 9 then b'0' ∷ c ∷ s else c ∷ s
add_leading_zero [] = []

-- `normalize_phone`
unfoldable pub normalize_phone : Text → Text
unfolding normalize_digits
normalize_phone phone =
    add_leading_zero (drop_country_code (where_ is_ascii_digit (normalize_digits phone)))

-- `phone.startswith("09") and len(phone) == 11`
abbrev pub is_mobile : Text → Bool
is_mobile phone = starts_with (b'0' ∷ b'9' ∷ []) phone && length phone == 11

-- One character of the spelling that a search uses: Arabic ye and ke, and the no-break space.
abbrev pub persian_letter : ℕ → ℕ
persian_letter c =
    if c == 0x64a then 0x6cc else if c == 0x643 then 0x6a9 else if c == 0xa0 then 32 else c

-- `re.sub("[...]+", r, text)`: each run of such characters becomes one; the flag tells that the last
-- character belonged to a run.
abbrev pub collapse : (ℕ → Bool) → ℕ → Bool → Text → Text
collapse p r inside [] = []
collapse p r inside (c ∷ s) =
    let within = collapse p r true s in
    let outside = collapse p r false s in
    if p c then (if inside then within else r ∷ within) else c ∷ outside

-- `normalize_persian_text`
unfoldable pub normalize_persian_text : Text → Text
normalize_persian_text value =
    collapse is_space 32 false
      (collapse (λ c. c == 0x200c) 0x200c false (map persian_letter (strip value)))
