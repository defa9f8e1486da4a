-- ===== src/Server/Sdk.antt =====
-- services/simulation-server/src/measurement/sdk.rs: the units of the sensor. Angles and distances
-- that are measured are `f64`.
use scrap_monitoring_simulat.Float.{Float}
use scrap_monitoring_simulat.Results.{Result, ok, err, ◌>>=◌}
use scrap_monitoring_simulat.Prelude.{
  ℕ, ◌+◌, ◌*◌, ◌/◌, ◌%◌, ◌^◌, ◌≤◌, ◌<◌, ◌≡◌, ◌⊎◌, ◌↔◌, arith, ◌&&◌, ◌||◌, not, List, [], ◌∷◌,
  if◌then◌else◌, leb, u32_max,
}

pub data SdkError : Type 0 where
  invalid_angle invalid_distance distance_tick_overflow distance_millimeter_overflow : SdkError

abbrev pub hq_angle_steps_per_rotation : ℕ
hq_angle_steps_per_rotation = 2 ^ 16

-- `decode_hq_angle_mdeg`: the product is below 2 ^ 33, and does not overflow.
unfoldable pub decode_hq_angle_mdeg : ℕ → ℕ
decode_hq_angle_mdeg angle_ticks = (angle_ticks * 90000 + 16384 / 2) / 16384 % 360000

unfoldable pub decode_hq_distance_mm : ℕ → Result SdkError ℕ
decode_hq_distance_mm distance_ticks =
    let distance_mm = distance_ticks / 4 in
    if leb distance_mm u32_max then ok distance_mm else err distance_millimeter_overflow

-- `collect` of a `map` into a `Result`.
unfoldable pub collect {ℓ κ} :
    {A : Type ℓ} {B : Type κ} → (A → Result SdkError B) → List A → Result SdkError (List B)
collect f [] = ok []
collect f (a ∷ values) = do b ← f a; rest ← collect f values; ok (b ∷ rest)

module _ (fl : Float) where
  open fl use {F, literal, is_finite, lt, le, add, mul, div, floor, to_word}

  -- `HQ_ANGLE_STEP_DEG`, which is exact.
  abbrev pub hq_angle_step_deg : F
  hq_angle_step_deg = literal 360 65536

  unfoldable pub quantize_hq_angle_ticks : F → Result SdkError ℕ
  quantize_hq_angle_ticks angle_deg =
      if not (is_finite angle_deg)
        || not (le (literal 0 1) angle_deg && lt angle_deg (literal 360 1))
      then err invalid_angle
      else ok (
          to_word 32 (floor (add (div angle_deg hq_angle_step_deg) (literal 1 2)))
          % hq_angle_steps_per_rotation)

  unfoldable pub quantize_hq_angle_deg : F → Result SdkError F
  quantize_hq_angle_deg angle_deg = do
    ticks ← quantize_hq_angle_ticks angle_deg
    ok (mul (literal ticks 1) hq_angle_step_deg)

  unfoldable pub quantize_hq_angles_deg : List F → Result SdkError (List F)
  quantize_hq_angles_deg angles_deg = collect quantize_hq_angle_deg angles_deg

  unfoldable pub quantize_hq_distance_ticks : F → Result SdkError ℕ
  quantize_hq_distance_ticks distance_m =
      if not (is_finite distance_m) || lt distance_m (literal 0 1)
      then err invalid_distance
      else let rounded = floor (add (mul distance_m (literal 4000 1)) (literal 1 2)) in
        if not (is_finite rounded) || le (literal (2 ^ 64) 1) rounded
        then err distance_tick_overflow
        else ok (to_word 64 rounded)

  unfoldable pub quantize_hq_distance_m : F → Result SdkError F
  quantize_hq_distance_m distance_m = do
    ticks ← quantize_hq_distance_ticks distance_m
    ok (div (literal ticks 1) (literal 4000 1))

  unfoldable pub quantize_hq_distances_m : List F → Result SdkError (List F)
  quantize_hq_distances_m distances_m = collect quantize_hq_distance_m distances_m

-- Whatever the sensor, a tick of angle is decoded to less than a rotation, and to the thousandth of a
-- degree that is nearest to the angle of the tick, where a full rotation counts as zero.
pub decode_hq_angle_mdeg_lem :
    (ticks : ℕ)
    → ticks < hq_angle_steps_per_rotation
    → (decode_hq_angle_mdeg ticks < 360000)
      × (((ticks * 360000 ≤ decode_hq_angle_mdeg ticks * hq_angle_steps_per_rotation + 32768)
            × (decode_hq_angle_mdeg ticks * hq_angle_steps_per_rotation ≤ ticks * 360000 + 32768))
          ⊎ ((decode_hq_angle_mdeg ticks ≡ 0)
              × (360000 * hq_angle_steps_per_rotation ≤ ticks * 360000 + 32768)))
unfolding decode_hq_angle_mdeg
decode_hq_angle_mdeg_lem ticks h = ground arith

-- A distance is decoded exactly if its whole millimetres fit in 32 bits, and to these.
pub decode_hq_distance_mm_iff :
    (ticks mm : ℕ)
    → (decode_hq_distance_mm ticks ≡ ok mm)
      ↔ ((mm * 4 ≤ ticks) × (ticks < mm * 4 + 4) × (mm ≤ u32_max))
unfolding decode_hq_distance_mm
decode_hq_distance_mm_iff ticks mm = ground arith
