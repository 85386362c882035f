-- ===== src/Doubles.antt =====
-- The floating-point arithmetic that the program uses, as an interface: `R` stands for `double` and
-- `F` for `float`. Nothing is assumed of the operations here; a theorem that needs a law of them
-- names it.
use upzp_game_process.Prelude.{ℕ, Bool}
use upzp_game_process.Prelude.Int.{ℤ}

pub record Doubles (R F : Type 0) : Type 0 where
  -- The literal with these digits, so many of them behind the point: 13.88 is `literal 1388 2`.
  pub literal : ℕ → ℕ → R
  pub minus_one : R
  pub pi : R
  pub add : R → R → R
  pub sub : R → R → R
  pub mul : R → R → R
  pub div : R → R → R
  pub cos : R → R
  pub sin : R → R
  pub sqrt : R → R
  pub lt : R → R → Bool
  pub ne : R → R → Bool
  -- `std::cos` and `std::sin` at a `float`, widened to `double`.
  pub cos_float : F → R
  pub sin_float : F → R
  pub float_zero : F
  -- The conversion to `int`.
  pub to_int : R → ℤ
