-- ===== src/Common/Decimal.antt =====
-- The parts of Python's `decimal` that the services call: `Decimal(str(value)).quantize(...)` with
-- the default rounding (half to even) and precision of 28 digits, and rounding half up.
use sanga.Common.Tests.{ltb, ◌==◌, if◌then◌else◌}
use sanga.Common.Int.{ℤ, pos, negsuc, sub_ℕ}
use Prim.Native.Nat.{ℕ, suc, ◌+◌, ◌*◌, ◌/◌, ◌%◌, ◌^◌}
use mathlib.Core.Path.{◌≡◌, refl}
use mathlib.Core.Bool.{Bool, true, false}

-- `str(value)` as `Decimal` reads it: (-1)^negative * coefficient * 10^exponent, an infinity, a
-- quiet NaN, or a text that it refuses.
pub data DecimalInput : Type 0 where
  finite : (negative : Bool) → (coefficient : ℕ) → (exponent : ℤ) → DecimalInput
  infinite nan unparsable : DecimalInput

-- n / d, rounded to the nearest, ties to the even one.
unfoldable pub round_half_even : ℕ → ℕ → ℕ
round_half_even n d =
    let q = n / d in
    let r = n % d in
    if ltb (2 * r) d then q else if ltb d (2 * r) then q + 1 else if q % 2 == 0 then q else q + 1

-- n / d, rounded to the nearest, ties up.
unfoldable pub round_half_up : ℕ → ℕ → ℕ
round_half_up n d = (2 * n + d) / (2 * d)

-- The coefficient in hundredths, for an exponent that is two less than the given one.
unfoldable pub rescale : ℕ → ℤ → ℕ
unfolding round_half_even
rescale c (pos k) = c * 10 ^ k
rescale c (negsuc k) = round_half_even c (10 ^ suc k)

abbrev pub precision_limit : ℕ
precision_limit = 10 ^ 28

abbrev pub signed : Bool → ℕ → ℤ
signed true n = sub_ℕ 0 n
signed false n = pos n

-- The outcome of `quantize(Decimal("0.01"))`: a number of hundredths, NaN, or InvalidOperation.
pub data Quantized : Type 0 where
  hundredths : ℤ → Quantized
  not_a_number invalid_operation : Quantized

unfoldable pub quantize : DecimalInput → Quantized
unfolding rescale
quantize (finite s c (pos e)) =
    let n = rescale c (pos (e + 2)) in
    if ltb n precision_limit then hundredths (signed s n) else invalid_operation
quantize (finite s c (negsuc e)) =
    let n = rescale c (sub_ℕ 2 (suc e)) in
    if ltb n precision_limit then hundredths (signed s n) else invalid_operation
quantize nan = not_a_number
quantize infinite = invalid_operation
quantize unparsable = invalid_operation

-- 12.345 and 12.355 are ties: 12.34 and 12.36.
quantize_ties :
    (quantize (finite false 12345 (negsuc 2)) ≡ hundredths (pos 1234))
    × (quantize (finite true 12355 (negsuc 2)) ≡ hundredths (negsuc 1235))
unfolding quantize
quantize_ties = (refl, refl)
