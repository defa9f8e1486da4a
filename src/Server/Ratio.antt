-- ===== src/Server/Ratio.antt =====
-- services/simulation-server/src/decimal_ratio.rs: exact ratios. A `BigUint` is a natural number, and
-- so is a `u128`, whose only operation here is the remainder.
pub mod Rounding
use scrap_monitoring_simulat.Prelude.{
  ℕ, zero, suc, ◌+◌, ◌-◌, ◌*◌, ◌/◌, ◌%◌, ◌^◌, Bool, true, false, ◌&&◌, ◌||◌, not, Option, none,
  some, ◌==◌, if◌then◌else◌, ltb, leb, u64_max,
}

pub record PositiveRatio : Type 0 where
  pub numerator : ℕ
  pub denominator : ℕ

-- The loop; `right` goes down in every round, so `suc right` rounds are enough.
unfoldable pub gcd_loop : ℕ → ℕ → ℕ → ℕ
gcd_loop zero left right = left
gcd_loop (suc fuel) left right =
    let rest = gcd_loop fuel right (left % right) in if right == 0 then left else rest

unfoldable pub gcd : ℕ → ℕ → ℕ
gcd left right = gcd_loop (suc right) left right

-- `u64::try_from`.
unfoldable pub to_u64 : ℕ → Option ℕ
to_u64 n = if leb n u64_max then some n else none

unfoldable pub ceil_quotient : ℕ → ℕ → ℕ
ceil_quotient product denominator =
    if product % denominator == 0 then product / denominator else product / denominator + 1

unfoldable pub ceil_multiple : PositiveRatio → ℕ → Option ℕ
ceil_multiple r multiplier = to_u64 (ceil_quotient (r.numerator * multiplier) r.denominator)

-- A binary shift of the quotient: of the numerator for a positive `binary_shift`, else of the
-- denominator.
pub data Shift : Type 0 where
  up down : ℕ → Shift

abbrev pub scaled : ℕ → ℕ → Shift → ℕ × ℕ
scaled numerator denominator (up n) = (numerator * 2 ^ n, denominator)
scaled numerator denominator (down n) = (numerator, denominator * 2 ^ n)

-- The quotient, rounded to the nearest integer, a tie to the even one.
unfoldable pub rounded_quotient : ℕ → ℕ → ℕ
rounded_quotient numerator denominator =
    let quotient = numerator / denominator in
    let twice_remainder = 2 * (numerator % denominator) in
    if ltb denominator twice_remainder || (twice_remainder == denominator && quotient % 2 == 1)
    then quotient + 1
    else quotient

unfoldable pub rounded_scaled_quotient : ℕ → ℕ → Shift → ℕ
rounded_scaled_quotient numerator denominator binary_shift =
    let (scaled_numerator, scaled_denominator) = scaled numerator denominator binary_shift in
    rounded_quotient scaled_numerator scaled_denominator

-- `BigUint::bits`, the number of binary digits; a number has no more digits than itself.
unfoldable pub digit_count : ℕ → ℕ → ℕ
digit_count zero n = 0
digit_count (suc fuel) n = elim n [ zero ↦ 0 | suc m ↦ digit_count fuel (suc m / 2) + 1 ]

abbrev pub bit_length : ℕ → ℕ
bit_length n = digit_count n n

-- The `exponent` of the source: `up n` is n, and `down n` is -n.
unfoldable pub first_exponent : ℕ → ℕ → Shift
first_exponent numerator denominator =
    let numerator_bits = bit_length numerator in
    let denominator_bits = bit_length denominator in
    if leb denominator_bits numerator_bits
    then up (numerator_bits - denominator_bits)
    else down (denominator_bits - numerator_bits)

abbrev pub decrement : Shift → Shift
decrement (up zero) = down 1
decrement (up (suc n)) = up n
decrement (down n) = down (n + 1)

abbrev pub advance_exponent : Shift → Shift
advance_exponent (up n) = up (n + 1)
advance_exponent (down zero) = up 1
advance_exponent (down (suc n)) = down n

-- One less where the numerator is below the shifted denominator.
unfoldable pub exponent_of : ℕ → ℕ → Shift
exponent_of numerator denominator = elim (first_exponent numerator denominator) [
  | up n ↦ if ltb numerator (denominator * 2 ^ n) then decrement (up n) else up n
  | down n ↦ if ltb (numerator * 2 ^ n) denominator then decrement (down n) else down n
]

-- `52 - exponent`.
abbrev pub significand_shift : Shift → Shift
significand_shift (up n) = if leb n 52 then up (52 - n) else down (n - 52)
significand_shift (down n) = up (52 + n)

abbrev pub biased : Shift → ℕ
biased (up n) = n + 1023
biased (down n) = 1023 - n

-- The bits of a normal number: the biased exponent and the digits behind the first.
unfoldable pub normal_bits : Shift → ℕ → Option ℕ
normal_bits (up n) significand =
    if ltb 1023 n then none else some (biased (up n) * 2 ^ 52 + (significand - 2 ^ 52))
normal_bits (down n) significand = some (biased (down n) * 2 ^ 52 + (significand - 2 ^ 52))

-- A significand of 54 digits was rounded up to the next power of two.
unfoldable pub normal_to_f64 : ℕ → ℕ → Shift → Option ℕ
normal_to_f64 numerator denominator exponent =
    let significand = rounded_scaled_quotient numerator denominator (significand_shift exponent) in
    if bit_length significand == 54
    then normal_bits (advance_exponent exponent) (significand / 2)
    else normal_bits exponent significand

unfoldable pub subnormal_to_f64 : ℕ → ℕ → Option ℕ
subnormal_to_f64 numerator denominator =
    let bits = rounded_scaled_quotient numerator denominator (up 1074) in
    if leb bits (2 ^ 52) then some bits else none

-- The `f64` is given by its bits. The counts of digits are cast to `i32`.
unfoldable pub rational_to_f64 : ℕ → ℕ → Option ℕ
rational_to_f64 numerator denominator =
    if numerator == 0 || denominator == 0
    then (if denominator == 0 then none else some 0)
    else if ltb (2 ^ 31 - 1) (bit_length numerator) || ltb (2 ^ 31 - 1) (bit_length denominator)
    then none
    else elim (exponent_of numerator denominator) [
      | up n ↦ if ltb 1023 n then none else normal_to_f64 numerator denominator (up n)
      | down n ↦
          if ltb 1022 n
          then subnormal_to_f64 numerator denominator
          else normal_to_f64 numerator denominator (down n)
    ]

unfoldable pub multiple_to_f64 : PositiveRatio → ℕ → Option ℕ
multiple_to_f64 r multiplier =
    if multiplier == 0 then some 0 else rational_to_f64 (r.numerator * multiplier) r.denominator

unfoldable pub reciprocal_multiple_to_f64 : PositiveRatio → ℕ → Option ℕ
reciprocal_multiple_to_f64 r multiplier =
    if multiplier == 0 then some 0 else rational_to_f64 (r.denominator * multiplier) r.numerator
