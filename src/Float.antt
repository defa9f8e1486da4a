-- ===== src/Float.antt =====
-- The `f64` of the source, which the language gives and the repository does not implement: a type
-- with the operations that the modelled code calls. Every module that computes with it takes it
-- as a parameter, and names the laws of IEEE arithmetic that a theorem needs as hypotheses.
use scrap_monitoring_simulat.Prelude.{ℕ, Bool, true, false, ◌≡◌, ◌⊎◌}

pub record Float : Type 1 where
  pub F : Type 0
  -- `literal n d` is the constant nearest to n / d, or `n as f64` where d is 1.
  pub literal : ℕ → ℕ → F
  pub is_finite : F → Bool
  pub lt : F → F → Bool
  pub le : F → F → Bool
  pub add : F → F → F
  pub sub : F → F → F
  pub mul : F → F → F
  pub div : F → F → F
  pub max_of : F → F → F
  pub min_of : F → F → F
  pub abs : F → F
  pub floor : F → F
  pub round : F → F
  pub rem_euclid : F → F → F
  -- `to_word w x` is the saturating cast of x to an unsigned integer of w bits.
  pub to_word : ℕ → F → ℕ
  -- `to_bits`.
  pub bits : F → ℕ
  -- `next_down`, the greatest number below.
  pub next_down : F → F
  pub eq : F → F → Bool
  pub neg : F → F
  pub sqrt : F → F
  pub sin : F → F
  pub cos : F → F
  pub ln : F → F
  pub exp : F → F
  pub powi : F → ℕ → F
  pub pi : F
  pub infinity : F
  -- `from_bits`.
  pub of_bits : ℕ → F

-- Laws of IEEE comparison and of `min`, for the theorems that need them.
pub record IsOrdered (fl : Float) : Type 0 where
  pub le_trans : (x y z : fl.F) → fl.le x y ≡ true → fl.le y z ≡ true → fl.le x z ≡ true
  pub min_chooses : (x y : fl.F) → (fl.min_of x y ≡ x) ⊎ (fl.min_of x y ≡ y)
  pub eq_refl : (x : fl.F) → fl.is_finite x ≡ true → fl.eq x x ≡ true
  pub not_lt_trans :
      (x y z : fl.F)
      → fl.is_finite x ≡ true
      → fl.is_finite y ≡ true
      → fl.is_finite z ≡ true
      → fl.lt x y ≡ false
      → fl.lt y z ≡ false
      → fl.lt x z ≡ false
  pub lt_irrefl : (x : fl.F) → fl.lt x x ≡ false
