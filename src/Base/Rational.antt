-- ===== src/Base/Rational.antt =====
-- Exact fractions in the place of float64, to run the model on.
use aime.Base.{ℕ, suc, ◌-◌, ◌*◌, ◌+◌, ◌/◌}
use aime.Base.Int.{ℤ, pos, negsuc, ◌+ℤ◌, ◌*ℤ◌, quot, sub_ℕ}
use aime.Base.Float.{Float64}

-- A numerator and a positive denominator.
abbrev Fraction : Type 0
Fraction = ℤ × ℕ

abbrev sign_times : ℤ → ℕ → ℤ
sign_times (pos a) n = pos n
sign_times (negsuc a) n = sub_ℕ 0 n

abbrev magnitude : ℤ → ℕ
magnitude (pos a) = a
magnitude (negsuc a) = suc a

abbrev ceiling : ℤ → ℕ → ℤ
ceiling (pos a) d = pos ((a + d - 1) / d)
ceiling (negsuc a) d = quot (negsuc a) d

abbrev pub fractions : Float64
fractions = record {
  F = Fraction;
  of_int = λ a. (a, 1);
  to_int = λ x. quot x.0 x.1;
  add = λ x y. (x.0 *ℤ pos y.1 +ℤ y.0 *ℤ pos x.1, x.1 * y.1);
  mul = λ x y. (x.0 *ℤ y.0, x.1 * y.1);
  div = λ x y. (x.0 *ℤ sign_times y.0 y.1, x.1 * magnitude y.0);
  ceil = λ x. (ceiling x.0 x.1, 1);
}
