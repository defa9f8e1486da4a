-- ===== src/Server/Ratio/Rounding.antt =====
-- services/simulation-server/src/decimal_ratio.rs: the quotients are the exact ones, rounded.
use native.Mathlib.Nat.{div-add-mod, mod-lt, mul-add}
use scrap_monitoring_simulat.Prelude.{
  ℕ, zero, suc, ◌+◌, ◌*◌, ◌/◌, ◌%◌, ◌≤◌, ◌<◌, ◌≡◌, ◌⊎◌, inl, inr, arith, Bool-cases, false, none,
  some, ◌==◌, leb, u64_max,
}
use scrap_monitoring_simulat.Server.Ratio.{
  PositiveRatio, gcd_loop, to_u64, ceil_quotient, ceil_multiple, Shift, scaled, rounded_quotient,
  rounded_scaled_quotient,
}

-- The least number of denominators that reaches the product.
ceil_quotient_lem :
    (p d : ℕ) → 0 < d → (p ≤ d * ceil_quotient p d) × (d * ceil_quotient p d < p + d)
unfolding ceil_quotient
ceil_quotient_lem p d h = grind (arith, div-add-mod p d, mod-lt p h, mul-add d (p / d) 1)

-- `q` is at most a half away from `p / d`, and even at a half.
pub record IsNearest (p d q : ℕ) : Type 0 where
  pub above : 2 * p ≤ 2 * (d * q) + d
  pub below : 2 * (d * q) ≤ 2 * p + d
  pub even_above : 2 * p ≡ 2 * (d * q) + d → q % 2 ≡ 0
  pub even_below : 2 * (d * q) ≡ 2 * p + d → q % 2 ≡ 0

rounded_quotient_lem : (p d : ℕ) → 0 < d → IsNearest p d (rounded_quotient p d)
unfolding rounded_quotient
rounded_quotient_lem p d h = grind (arith, div-add-mod p d, mod-lt p h, mul-add d (p / d) 1)

-- For a positive denominator, a multiple is the least whole number that is not below the exact
-- multiple of the ratio, and there is none exactly if that number does not fit in 64 bits.
pub ceil_multiple_lem :
    (r : PositiveRatio) (multiplier : ℕ)
    → 0 < r.denominator
    → ((q : ℕ) × (ceil_multiple r multiplier ≡ some q)
        × (r.numerator * multiplier ≤ r.denominator * q)
        × (r.denominator * q < r.numerator * multiplier + r.denominator)
        × (q ≤ u64_max))
      ⊎ ((ceil_multiple r multiplier ≡ none)
          × (u64_max < ceil_quotient (r.numerator * multiplier) r.denominator))
unfolding ceil_multiple to_u64
ceil_multiple_lem r multiplier h =
    elim (Bool-cases (leb (ceil_quotient (r.numerator * multiplier) r.denominator) u64_max)) [
      | inl e ↦ inl (
        ceil_quotient (r.numerator * multiplier) r.denominator,
        ground arith,
        (ceil_quotient_lem (r.numerator * multiplier) r.denominator h).0,
        (ceil_quotient_lem (r.numerator * multiplier) r.denominator h).1,
        ground arith,
      )
      | inr e ↦ inr (ground arith)
    ]

-- The rounds of `gcd` that go beyond `suc right` change nothing.
gcd_loop-enough :
    (m n left right : ℕ) → right < m → right < n → gcd_loop m left right ≡ gcd_loop n left right
unfolding gcd_loop
gcd_loop-enough zero n left right h k = absurd (omega arith)
gcd_loop-enough (suc m) zero left right h k = absurd (omega arith)
gcd_loop-enough (suc m) (suc n) left right h k = elim (Bool-cases (right == 0)) [
  | inl e ↦ ground arith
  | inr e ↦ ground (arith, gcd_loop-enough m n right (left % right), mod-lt left (positive right e))
]
  where
    positive : (x : ℕ) → (x == 0) ≡ false → 0 < x
    positive x e = ground arith

-- For a positive denominator, the quotient of the shifted numbers is the whole number nearest to the
-- exact one, and on a tie the even one.
pub rounded_scaled_quotient_lem :
    (numerator denominator : ℕ) (shift : Shift)
    → 0 < (scaled numerator denominator shift).1
    → IsNearest
        (scaled numerator denominator shift).0
        (scaled numerator denominator shift).1
        (rounded_scaled_quotient numerator denominator shift)
unfolding rounded_scaled_quotient
rounded_scaled_quotient_lem numerator denominator shift h =
    rounded_quotient_lem (scaled numerator denominator shift).0
      (scaled numerator denominator shift).1 h
