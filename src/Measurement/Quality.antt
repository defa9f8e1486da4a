-- ===== src/Measurement/Quality.antt =====
-- services/simulation-server/src/measurement/generation.rs: the distribution of qualities. A `u128` holds
-- every number here but a total of the frequencies, which is checked.
use scrap_monitoring_simulat.Results.{Result, ok, reject_if, ◌>>=◌}
use scrap_monitoring_simulat.Prelude.{
  ℕ, zero, suc, ◌+◌, ◌-◌, ◌*◌, ◌^◌, ◌≤◌, ◌<◌, ◌≡◌, inl, inr, ap, ◌∙◌, arith, Bool-cases, List, [],
  ◌∷◌, map, take, ltb, leb, ◌==◌, if◌then◌else◌,
}
use scrap_monitoring_simulat.Server.Random.{ModelRng, next_u64}

pub data QualityError : Type 0 where
  total_overflow no_frequency : QualityError

pub record QualityDistribution : Type 0 where
  pub thresholds : List ℕ
  pub total : ℕ

-- The loop over the bits of a word: the remainder and the threshold.
unfoldable pub threshold_bits : ℕ → ℕ → ℕ → ℕ → ℕ × ℕ
threshold_bits zero total remainder threshold = (remainder, threshold)
threshold_bits (suc rounds) total remainder threshold =
    if leb (total - remainder) remainder
    then threshold_bits rounds total (remainder - (total - remainder)) (threshold * 2 + 1)
    else threshold_bits rounds total (remainder * 2) (threshold * 2)

unfoldable pub scaled_word_threshold : ℕ → ℕ → ℕ
scaled_word_threshold cumulative total =
    let (remainder, threshold) = threshold_bits 64 total cumulative 0 in
    threshold + (if remainder == 0 then 0 else 1)

-- The sums of the first frequencies.
unfoldable pub cumulate : ℕ → List ℕ → List ℕ
cumulate total [] = []
cumulate total (frequency ∷ frequencies) =
    (total + frequency) ∷ cumulate (total + frequency) frequencies

unfoldable pub total_of : List ℕ → ℕ
total_of [] = 0
total_of (frequency ∷ frequencies) = frequency + total_of frequencies

unfoldable pub new : List ℕ → Result QualityError QualityDistribution
new frequencies = do
  let total = total_of frequencies
  _ ← reject_if (ltb (2 ^ 128 - 1) total) total_overflow
  _ ← reject_if (total == 0) no_frequency
  ok (record {
    thresholds =
        map (λ value. scaled_word_threshold value total) (take 255 (cumulate 0 frequencies));
    total = total;
  })

-- `position`, or 255.
unfoldable pub first_above : ℕ → List ℕ → ℕ → ℕ
first_above draw [] index = 255
first_above draw (threshold ∷ thresholds) index =
    let rest = first_above draw thresholds (suc index) in if ltb draw threshold then index else rest

unfoldable pub sample : QualityDistribution → ModelRng → ℕ × ModelRng
sample q r = let (draw, next) = next_u64 r in (first_above draw q.thresholds 0, next)

-- The threshold and the remainder are the exact multiple.
abbrev IsExact : ℕ → ℕ → ℕ → ℕ × ℕ → Type 0
IsExact rounds total value r = (r.1 * total + r.0 ≡ value * 2 ^ rounds) × (r.0 ≤ total)

twice_odd :
    (threshold total remainder : ℕ)
    → total - remainder ≤ remainder
    → remainder ≤ total
    → (threshold * 2 + 1) * total + (remainder - (total - remainder))
      ≡ (threshold * total + remainder) * 2
twice_odd threshold total remainder h k = omega arith

twice_even :
    (threshold total remainder : ℕ)
    → threshold * 2 * total + remainder * 2 ≡ (threshold * total + remainder) * 2
twice_even threshold total remainder = omega arith

power : (value rounds : ℕ) → value * 2 * 2 ^ rounds ≡ value * 2 ^ suc rounds
power value rounds = grind arith

IsExact-suc :
    (rounds total value double : ℕ) (r : ℕ × ℕ)
    → double ≡ value * 2
    → IsExact rounds total double r
    → IsExact (suc rounds) total value r
IsExact-suc rounds total value double r d (e, h) =
    (e ∙ (ap (λ v. v * 2 ^ rounds) d ∙ power value rounds), h)

threshold_bits-IsExact :
    (rounds total remainder threshold : ℕ)
    → remainder ≤ total
    → IsExact rounds total
        (threshold * total + remainder)
        (threshold_bits rounds total remainder threshold)
unfolding threshold_bits
threshold_bits-IsExact zero total remainder threshold h = (omega arith, h)
threshold_bits-IsExact (suc rounds) total remainder threshold h =
    elim (Bool-cases (leb (total - remainder) remainder)) [
      | inl b ↦ rw b (
          IsExact-suc rounds total (threshold * total + remainder)
            ((threshold * 2 + 1) * total + (remainder - (total - remainder)))
            (threshold_bits rounds total (remainder - (total - remainder)) (threshold * 2 + 1))
            (twice_odd threshold total remainder (ground arith) h)
            (threshold_bits-IsExact rounds total (remainder - (total - remainder))
              (threshold * 2 + 1) (omega arith)))
      | inr b ↦ rw b (
          IsExact-suc rounds total (threshold * total + remainder)
            (threshold * 2 * total + remainder * 2)
            (threshold_bits rounds total (remainder * 2) (threshold * 2))
            (twice_even threshold total remainder)
            (threshold_bits-IsExact rounds total (remainder * 2) (threshold * 2) (ground arith)))
    ]

-- The threshold of a part of a positive total is its share of 2 ^ 64, rounded up.
pub scaled_word_threshold_lem :
    (cumulative total : ℕ)
    → 0 < total
    → cumulative ≤ total
    → (cumulative * 2 ^ 64 ≤ scaled_word_threshold cumulative total * total)
      × (scaled_word_threshold cumulative total * total < cumulative * 2 ^ 64 + total)
unfolding scaled_word_threshold
scaled_word_threshold_lem cumulative total p h =
    let exact = threshold_bits-IsExact 64 total cumulative 0 h in
    elim (Bool-cases ((threshold_bits 64 total cumulative 0).0 == 0)) [
      | inl b ↦ rw b (ground (arith, exact.0, exact.1))
      | inr b ↦ rw b (ground (arith, exact.0, exact.1))
    ]
