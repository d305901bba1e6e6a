-- ===== src/Base/Float.antt =====
-- Go's float64, as the operations that the backend computes with. The development takes them as a
-- parameter.
use aime.Base.{ℕ}
use aime.Base.Int.{ℤ, pos, quot, rem}

pub record Float64 : Type 1 where
  pub F : Type 0
  pub of_int : ℤ → F
  pub to_int : F → ℤ
  pub add : F → F → F
  pub mul : F → F → F
  pub div : F → F → F
  pub ceil : F → F

-- Nanoseconds of an hour.
abbrev pub hour : ℕ
hour = 3_600_000_000_000

module _ (fl : Float64) where
  open fl use {F, of_int, add, div}

  -- `time.Duration.Hours`
  unfoldable pub hours : ℤ → F
  hours d = add (of_int (quot d hour)) (div (of_int (rem d hour)) (of_int (pos hour)))
