-- ===== src/Examples/Server.antt =====
-- services/simulation-server: ratios, units and random streams on small numbers.
use scrap_monitoring_simulat.Results.{ok}
use scrap_monitoring_simulat.Prelude.{
  ℕ, ◌+◌, ◌*◌, ◌^◌, ◌≤◌, ◌<◌, ◌≡◌, ◌⊎◌, refl, none, some, List, [], ◌∷◌, arith, u64_max,
}
use scrap_monitoring_simulat.Server.Ratio.{
  PositiveRatio, ceil_multiple, ceil_quotient, up, rounded_scaled_quotient, rational_to_f64,
}
use scrap_monitoring_simulat.Server.Ratio.Rounding.{
  IsNearest, ceil_multiple_lem, rounded_scaled_quotient_lem,
}
use scrap_monitoring_simulat.Server.Random.{sensor, seed_layout, scope_parts, layout}
use scrap_monitoring_simulat.Server.Ratio
use scrap_monitoring_simulat.Server.Random.Layout.{seed_layout_injective}

abbrev ratio : PositiveRatio
ratio = record { numerator = 3200; denominator = 3 }

ceil_multiple_lem_example :
    ((q : ℕ) × (ceil_multiple ratio 2 ≡ some q)
      × (3200 * 2 ≤ 3 * q)
      × (3 * q < 3200 * 2 + 3)
      × (q ≤ u64_max))
    ⊎ ((ceil_multiple ratio 2 ≡ none) × (u64_max < ceil_quotient (3200 * 2) 3))
ceil_multiple_lem_example = ceil_multiple_lem ratio 2 (omega arith)

rounded_scaled_quotient_lem_example : IsNearest (7 * 2 ^ 3) 6 (rounded_scaled_quotient 7 6 (up 3))
rounded_scaled_quotient_lem_example = rounded_scaled_quotient_lem 7 6 (up 3) (omega arith)

abbrev stream : List ℕ
stream = layout 7 1 (119 ∷ []) (97 ∷ [])

stream-built : seed_layout 7 (sensor (97 ∷ [])) (119 ∷ []) ≡ ok stream
unfolding seed_layout scope_parts
stream-built = refl

seed_layout_injective_example :
    (◌≡◌ {A = ℕ} 7 7)
    × (sensor (97 ∷ []) ≡ sensor (97 ∷ []))
    × (◌≡◌ {A = List ℕ} (119 ∷ []) (119 ∷ []))
seed_layout_injective_example =
    seed_layout_injective 7 7 (sensor (97 ∷ [])) (sensor (97 ∷ [])) (119 ∷ []) (119 ∷ []) stream
      (omega arith) (omega arith) stream-built stream-built

-- The bits of 0.5, of a third, of the least positive number and of an overflow.
half : rational_to_f64 1 2 ≡ some 0x3fe0000000000000
unfolding rational_to_f64 Ratio.exponent_of Ratio.first_exponent Ratio.digit_count
    Ratio.normal_to_f64 Ratio.normal_bits rounded_scaled_quotient Ratio.rounded_quotient
half = refl

third : rational_to_f64 1 3 ≡ some 0x3fd5555555555555
unfolding rational_to_f64 Ratio.exponent_of Ratio.first_exponent Ratio.digit_count
    Ratio.normal_to_f64 Ratio.normal_bits rounded_scaled_quotient Ratio.rounded_quotient
third = refl

least : rational_to_f64 1 (2 ^ 1074) ≡ some 1
unfolding rational_to_f64 Ratio.exponent_of Ratio.first_exponent Ratio.digit_count
    Ratio.subnormal_to_f64 rounded_scaled_quotient Ratio.rounded_quotient
least = refl

overflow : rational_to_f64 (2 ^ 1024) 1 ≡ none
unfolding rational_to_f64 Ratio.exponent_of Ratio.first_exponent Ratio.digit_count
overflow = refl
