-- ===== src/Server/Random/Generator.antt =====
-- services/simulation-server/src/randomness.rs: the generator does not get stuck at zero, and its words
-- stay words.
use scrap_monitoring_simulat.Prelude.{
  ℕ, ◌^◌, ◌<◌, ◌≡◌, sym, ◌∙◌, arith, bit_xor, bit_xor_self, bit_xor_injective, bit_xor-lt,
}
use scrap_monitoring_simulat.Server.Random.{ModelRng, advance, rotate_left, shift_left}

pub record AreWords (r : ModelRng) : Type 0 where
  pub word_0 : r.s0 < 2 ^ 64
  pub word_1 : r.s1 < 2 ^ 64
  pub word_2 : r.s2 < 2 ^ 64
  pub word_3 : r.s3 < 2 ^ 64

rotate_left-lt : (w : ℕ) → w < 2 ^ 64 → rotate_left 45 w < 2 ^ 64
unfolding rotate_left
rotate_left-lt w h = omega arith

shift_left-lt : (w : ℕ) → shift_left 17 w < 2 ^ 64
unfolding shift_left
shift_left-lt w = omega arith

advance-AreWords : (r : ModelRng) → AreWords r → AreWords (advance r)
unfolding advance
advance-AreWords r h = record {
  word_0 =
      bit_xor-lt 64 r.s0 (bit_xor r.s3 r.s1) h.word_0 (bit_xor-lt 64 r.s3 r.s1 h.word_3 h.word_1);
  word_1 =
      bit_xor-lt 64 r.s1 (bit_xor r.s2 r.s0) h.word_1 (bit_xor-lt 64 r.s2 r.s0 h.word_2 h.word_0);
  word_2 =
      bit_xor-lt 64 (bit_xor r.s2 r.s0) (shift_left 17 r.s1)
        (bit_xor-lt 64 r.s2 r.s0 h.word_2 h.word_0) (shift_left-lt r.s1);
  word_3 = rotate_left-lt (bit_xor r.s3 r.s1) (bit_xor-lt 64 r.s3 r.s1 h.word_3 h.word_1);
}

rotate_left-zero : (w : ℕ) → w < 2 ^ 64 → rotate_left 45 w ≡ 0 → w ≡ 0
unfolding rotate_left
rotate_left-zero w h e = omega arith

shift_left-fixed : (w : ℕ) → w < 2 ^ 64 → shift_left 17 w ≡ w → w ≡ 0
unfolding shift_left
shift_left-fixed w h e = omega arith

xor-zero_equal : (a b : ℕ) → bit_xor a b ≡ 0 → b ≡ a
xor-zero_equal a b e = bit_xor_injective a b a (e ∙ sym (bit_xor_self a))

-- The generator is stuck at zero.
pub record IsZero (r : ModelRng) : Type 0 where
  pub zero_0 : r.s0 ≡ 0
  pub zero_1 : r.s1 ≡ 0
  pub zero_2 : r.s2 ≡ 0
  pub zero_3 : r.s3 ≡ 0

advance-IsZero : (r : ModelRng) → AreWords r → IsZero (advance r) → IsZero r
unfolding advance
advance-IsZero r h z =
    let fourth : bit_xor r.s3 r.s1 ≡ 0 =
      rotate_left-zero (bit_xor r.s3 r.s1) (bit_xor-lt 64 r.s3 r.s1 h.word_3 h.word_1) z.zero_3 in
    let third : bit_xor r.s2 r.s0 ≡ r.s1 = xor-zero_equal r.s1 (bit_xor r.s2 r.s0) z.zero_1 in
    let one : r.s1 ≡ 0 =
      shift_left-fixed r.s1 h.word_1
        (xor-zero_equal (bit_xor r.s2 r.s0) (shift_left 17 r.s1) z.zero_2 ∙ third) in
    let zero_0 : r.s0 ≡ 0 = sym (xor-zero_equal r.s0 (bit_xor r.s3 r.s1) z.zero_0) ∙ fourth in
    record {
      zero_0 = zero_0;
      zero_1 = one;
      zero_2 = sym (xor-zero_equal r.s2 r.s0 (third ∙ one)) ∙ zero_0;
      zero_3 = sym (xor-zero_equal r.s3 r.s1 fourth) ∙ one;
    }

-- A state of words is followed by one of words, and only the zero state is followed by the zero state.
pub advance_lem :
    (r : ModelRng) → AreWords r → AreWords (advance r) × (IsZero (advance r) → IsZero r)
advance_lem r h = (advance-AreWords r h, advance-IsZero r h)
