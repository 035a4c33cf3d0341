-- ===== src/Common/Text.antt =====
-- Python strings as lists of code points, with `strip` and `isdigit`.
use sanga.Common.Tests.{leb, ◌==◌, if◌then◌else◌, Bool-cases}
use Prim.Native.Nat.{ℕ, zero, suc, ◌+◌, ◌-◌, ◌*◌, ◌/◌, ◌%◌, ◌^◌, ◌<◌}
use Prim.Native.Char.{code}
use Prim.Native.String.{String}
use mathlib.Core.Path.{◌≡◌, refl}
use mathlib.Core.Bool.{Bool, true, false, ◌&&◌, ◌||◌}
use mathlib.Core.List.{List, [], ◌∷◌, ◌++◌, reverse}
use mathlib.Core.Logic.{inl, inr}
use native.Mathlib.Nat.{pow-suc}
use native.Mathlib.Omega.{arith}

abbrev pub Text : Type 0
Text = List ℕ

abbrev pub codes : String → Text
codes String.[] = []
codes (String.◌∷◌ c s) = code c ∷ codes s

-- `str.isspace` of one character.
abbrev pub is_space : ℕ → Bool
is_space c =
    (leb 9 c && leb c 13)
    || (leb 28 c && leb c 32)
    || c == 133
    || c == 160
    || c == 5760
    || (leb 8192 c && leb c 8202)
    || c == 8232
    || c == 8233
    || c == 8239
    || c == 8287
    || c == 12288

unfoldable pub lstrip : Text → Text
lstrip [] = []
lstrip (c ∷ s) = let rest = lstrip s in if is_space c then rest else c ∷ s

unfoldable pub strip : Text → Text
unfolding lstrip
strip s = reverse (lstrip (reverse (lstrip s)))

abbrev pub is_empty : Text → Bool
is_empty [] = true
is_empty (c ∷ s) = false

-- `a or b` on strings.
abbrev pub or_text : Text → Text → Text
or_text [] t = t
or_text (c ∷ s) t = c ∷ s

abbrev pub text_eq : Text → Text → Bool
text_eq [] [] = true
text_eq [] (d ∷ t) = false
text_eq (c ∷ s) [] = false
text_eq (c ∷ s) (d ∷ t) = c == d && text_eq s t

pub text_eq_refl : (s : Text) → text_eq s s ≡ true
text_eq_refl [] = refl
text_eq_refl (c ∷ s) = let rest = text_eq_refl s in ground arith

pub text_eq-eq : (s t : Text) → text_eq s t ≡ true → s ≡ t
text_eq-eq [] [] h = refl
text_eq-eq [] (d ∷ t) h = absurd (ground arith)
text_eq-eq (c ∷ s) [] h = absurd (ground arith)
text_eq-eq (c ∷ s) (d ∷ t) h = let rest = text_eq-eq s t (ground arith) in ground arith

strip_example : strip (codes "  ab c ") ≡ codes "ab c"
unfolding strip
strip_example = refl

abbrev pub digit : ℕ → ℕ
digit d = b'0' + d

-- The decimal digits of a number below 10 ^ fuel.
unfoldable pub show_fuel : ℕ → ℕ → Text
show_fuel zero n = []
show_fuel (suc f) n =
    let rest = show_fuel f (n / 10) in if leb n 9 then digit n ∷ [] else rest ++ digit (n % 10) ∷ []

-- `format(Decimal(q).normalize(), "f")` of a quantity in thousandths, below 10 ^ 21.
unfoldable pub show_thousandths : ℕ → Text
unfolding show_fuel
show_thousandths q =
    let whole = show_fuel 18 (q / 1000) in
    let f = q % 1000 in
    if f == 0
    then whole
    else if f % 100 == 0
    then whole ++ b'.' ∷ digit (f / 100) ∷ []
    else if f % 10 == 0
    then whole ++ b'.' ∷ digit (f / 100) ∷ digit (f / 10 % 10) ∷ []
    else whole ++ b'.' ∷ digit (f / 100) ∷ digit (f / 10 % 10) ∷ digit (f % 10) ∷ []

show_thousandths_example : show_thousandths 102050 ≡ codes "102.05"
unfolding show_thousandths
show_thousandths_example = refl

-- The number that a text of digits spells.
abbrev pub read_digits : ℕ → Text → ℕ
read_digits acc [] = acc
read_digits acc (c ∷ s) = read_digits (acc * 10 + (c - b'0')) s

read_digits-append :
    (s t : Text) (acc : ℕ) → read_digits acc (s ++ t) ≡ read_digits (read_digits acc s) t
read_digits-append [] t acc = refl
read_digits-append (c ∷ s) t acc = read_digits-append s t (acc * 10 + (c - b'0'))

ten_times : (f n : ℕ) → n < 10 ^ suc f → n / 10 < 10 ^ f
ten_times f n h = let e : 10 ^ suc f ≡ 10 ^ f * 10 = pow-suc 10 f in omega arith

-- The fuel is enough: the digits of a number below 10 ^ fuel spell it.
pub read_digits-show_fuel : (f n : ℕ) → n < 10 ^ f → read_digits 0 (show_fuel f n) ≡ n
unfolding show_fuel
read_digits-show_fuel zero n h = omega arith
read_digits-show_fuel (suc f) n h = elim (Bool-cases (leb n 9)) [
  | inl e ↦ rw e (ground arith)
  | inr e ↦
      rw (e, read_digits-append (show_fuel f (n / 10)) (digit (n % 10) ∷ []) 0)
        (rw (read_digits-show_fuel f (n / 10) (ten_times f n h)) (omega arith))
]
