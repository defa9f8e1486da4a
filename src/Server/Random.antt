-- ===== src/Server/Random.antt =====
-- services/simulation-server/src/randomness.rs: the random streams. A `u64` is a number below 2 ^ 64,
-- a label the list of its bytes; `sha256` is the digest of the crate `sha2`.
pub mod Layout
pub mod Generator
use scrap_monitoring_simulat.Float.{Float}
use scrap_monitoring_simulat.Results.{Result, ok, err, ◌>>=◌}
use scrap_monitoring_simulat.Prelude.{
  ℕ, ◌+◌, ◌-◌, ◌*◌, ◌/◌, ◌%◌, ◌^◌, Bool, true, false, ◌&&◌, ◌||◌, not, List, [], ◌∷◌, ◌++◌, ◌==◌,
  if◌then◌else◌, ltb, leb, bit_xor, be_bytes, from_be_bytes, slice, length, u32_max,
}

pub data StreamScope : Type 0 where
  global : StreamScope
  sensor : List ℕ → StreamScope

pub data RandomError : Type 0 where
  empty_domain empty_sensor label_too_long invalid_range : RandomError

-- `scrap-lidar-sim\0`
abbrev pub seed_prefix : List ℕ
seed_prefix =
    115 ∷ 99 ∷ 114 ∷ 97 ∷ 112 ∷ 45 ∷ 108 ∷ 105 ∷ 100 ∷ 97 ∷ 114 ∷ 45 ∷ 115 ∷ 105 ∷ 109 ∷ 0 ∷ []

abbrev pub simulation_model_version : ℕ
simulation_model_version = 1

abbrev pub is_empty : List ℕ → Bool
is_empty [] = true
is_empty (b ∷ bytes) = false

-- The tag and the label of a scope.
unfoldable pub scope_parts : StreamScope → Result RandomError (ℕ × List ℕ)
scope_parts global = ok (0, [])
scope_parts (sensor label) = if is_empty label then err empty_sensor else ok (1, label)

-- What is hashed.
unfoldable pub layout : ℕ → ℕ → List ℕ → List ℕ → List ℕ
layout root_seed scope_tag domain label =
    seed_prefix
    ++ be_bytes 4 simulation_model_version
    ++ be_bytes 8 root_seed
    ++ scope_tag ∷ (be_bytes 4 (length domain) ++ (domain ++ (be_bytes 4 (length label) ++ label)))

unfoldable pub seed_layout : ℕ → StreamScope → List ℕ → Result RandomError (List ℕ)
seed_layout root_seed scope domain = if is_empty domain then err empty_domain else (do
  (scope_tag, label) ← scope_parts scope
  if ltb u32_max (length domain) || ltb u32_max (length label)
      then err label_too_long
      else ok (layout root_seed scope_tag domain label))

-- The four words of the generator.
pub record ModelRng : Type 0 where
  pub s0 : ℕ
  pub s1 : ℕ
  pub s2 : ℕ
  pub s3 : ℕ

abbrev pub is_zero : ModelRng → Bool
is_zero r = r.s0 == 0 && r.s1 == 0 && r.s2 == 0 && r.s3 == 0

-- A word of the digest.
abbrev pub word : ℕ → List ℕ → ℕ
word index digest = from_be_bytes (slice (8 * index) 8 digest)

unfoldable pub from_digest : List ℕ → ModelRng
from_digest digest =
    let rng : ModelRng = record {
      s0 = word 0 digest;
      s1 = word 1 digest;
      s2 = word 2 digest;
      s3 = word 3 digest;
    } in
    if is_zero rng then record rng { s0 = 1 } else rng

-- `u64::rotate_left`.
unfoldable pub rotate_left : ℕ → ℕ → ℕ
rotate_left k w = w * 2 ^ k % 2 ^ 64 + w / 2 ^ (64 - k)

-- `<<` on `u64`, which drops the upper bits.
unfoldable pub shift_left : ℕ → ℕ → ℕ
shift_left k w = w * 2 ^ k % 2 ^ 64

unfoldable pub output : ModelRng → ℕ
output r = rotate_left 7 (r.s1 * 5 % 2 ^ 64) * 9 % 2 ^ 64

-- The state behind `next_u64`.
unfoldable pub advance : ModelRng → ModelRng
advance r =
    let third = bit_xor r.s2 r.s0 in
    let fourth = bit_xor r.s3 r.s1 in
    record {
      s0 = bit_xor r.s0 fourth;
      s1 = bit_xor r.s1 third;
      s2 = bit_xor third (shift_left 17 r.s1);
      s3 = rotate_left 45 fourth;
    }

unfoldable pub next_u64 : ModelRng → ℕ × ModelRng
next_u64 r = (output r, advance r)

-- `boolean`: the highest bit.
unfoldable pub boolean : ModelRng → Bool × ModelRng
boolean r = let (value, next) = next_u64 r in (not (value / 2 ^ 63 == 0), next)

module _ (sha256 : List ℕ → List ℕ) where
  unfoldable pub derive_stream_seed : ℕ → StreamScope → List ℕ → Result RandomError (List ℕ)
  derive_stream_seed root_seed scope domain = do
    bytes ← seed_layout root_seed scope domain
    ok (sha256 bytes)

  unfoldable pub new : ℕ → StreamScope → List ℕ → Result RandomError ModelRng
  new root_seed scope domain = do
    digest ← derive_stream_seed root_seed scope domain
    ok (from_digest digest)

module _ (fl : Float) where
  open fl use {F, literal, is_finite, lt, le, add, sub, mul, next_down}

  -- `unit_f64`: the upper 53 bits of a word, scaled to less than one.
  unfoldable pub unit_f64 : ModelRng → F × ModelRng
  unit_f64 r =
      let (value, next) = next_u64 r in
      (mul (literal (value / 2 ^ 11) 1) (literal 1 9007199254740992), next)

  -- What is drawn between two different bounds.
  unfoldable pub drawn : F → F → F → F → F
  drawn lower upper width fraction =
      let value = add lower (mul width fraction) in
      if le upper value then next_down upper else value

  unfoldable pub uniform : F → F → ModelRng → Result RandomError (F × ModelRng)
  uniform lower upper r =
      let width = sub upper lower in
      if not (is_finite lower) || not (is_finite upper) || lt upper lower || not (is_finite width)
      then err invalid_range
      else let (fraction, next) = unit_f64 r in
        ok (
          if le lower upper && le upper lower then lower else drawn lower upper width fraction,
          next,
        )
