-- ===== src/Examples/Numbers.antt =====
-- Whole numbers in the place of `f64`, so that the examples compute. No code of the repository is
-- modelled here.
use scrap_monitoring_simulat.Float.{Float, IsOrdered}
use scrap_monitoring_simulat.Prelude.{
  ℕ, ◌+◌, ◌-◌, ◌*◌, ◌/◌, ◌%◌, ◌^◌, min, max, arith, true, ltb, leb, ◌==◌, if◌then◌else◌,
}

-- The whole number of which these are the bits as an `f64`.
abbrev decode : ℕ → ℕ
decode b =
    if leb (1023 * 2 ^ 52) b then (2 ^ 52 + b % 2 ^ 52) * 2 ^ (b / 2 ^ 52 - 1023) / 2 ^ 52 else 0

abbrev pub numbers : Float
numbers = record {
  F = ℕ;
  literal = λ n d. n / d;
  is_finite = λ x. true;
  lt = ltb;
  le = leb;
  add = λ x y. x + y;
  sub = λ x y. x - y;
  mul = λ x y. x * y;
  div = λ x y. x / y;
  max_of = max;
  min_of = min;
  abs = λ x. x;
  floor = λ x. x;
  round = λ x. x;
  rem_euclid = λ x y. x % y;
  to_word = λ w x. min x (2 ^ w - 1);
  bits = λ x. x;
  next_down = λ x. x - 1;
  eq = ◌==◌;
  neg = λ x. 0;
  sqrt = λ x. x;
  sin = λ x. 0;
  cos = λ x. 0;
  ln = λ x. 0;
  exp = λ x. 1;
  powi = ◌^◌;
  pi = 3;
  infinity = 2 ^ 1024;
  of_bits = decode;
}

pub numbers-IsOrdered : IsOrdered numbers
numbers-IsOrdered = record {
  le_trans = λ x y z h k. ground arith;
  min_chooses = λ x y. ground arith;
  eq_refl = λ x h. ground arith;
  not_lt_trans = λ x y z f g h i j. ground arith;
  lt_irrefl = λ x. ground arith;
}
