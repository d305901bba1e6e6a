-- ===== src/Base/Decimal.antt =====
-- Decimal numbers as `strconv` reads and writes them.
use Prim.Native.Nat.{◌^◌, ℕ, zero, suc, ◌+◌, ◌-◌, ◌*◌, ◌/◌, ◌%◌, ◌<◌, ◌≤◌}
use mathlib.Core.Path.{◌≡◌, refl, ◌∙◌}
use mathlib.Core.Logic.{inl, inr}
use mathlib.Core.Bool.{Bool, false, ◌&&◌}
use mathlib.Core.Option.{Option, none, some}
use mathlib.Core.List.{[], ◌∷◌}
use native.Mathlib.Omega.{arith}
use aime.Base.Tests.{leb, ltb, if◌then◌else◌, Bool-cases, ◌==◌}
use aime.Base.Bytes.{Bytes}
use aime.Base.Lists.{exists}
use aime.Base.Int.{ℤ, pos, negsuc, sub_ℕ, InInt64}

abbrev pub is_digit : ℕ → Bool
is_digit c = leb 48 c && leb c 57

-- The number that decimal digits write, if there are only digits.
abbrev pub digits : ℕ → Bytes → Option ℕ
digits n [] = some n
digits n (c ∷ cs) = let rest = digits (n * 10 + (c - 48)) cs in if is_digit c then rest else none

abbrev pub unsigned : Bytes → Option ℕ
unsigned [] = none
unsigned (c ∷ cs) = digits 0 (c ∷ cs)

abbrev positive : Option ℕ → Option ℤ
positive none = none
positive (some n) = if ltb n (2 ^ 63) then some (pos n) else none

abbrev negative : Option ℕ → Option ℤ
negative none = none
negative (some n) = if leb n (2 ^ 63) then some (sub_ℕ 0 n) else none

-- `strconv.Atoi` and `strconv.ParseInt` in base 10: a sign, digits, the range of an int64.
unfoldable pub parse_int : Bytes → Option ℤ
parse_int [] = none
parse_int (c ∷ cs) =
    if c == 43
    then positive (unsigned cs)
    else if c == 45
    then negative (unsigned cs)
    else positive (unsigned (c ∷ cs))

-- The digits of `n` before the bytes that follow, the last digit first; a digit for each unit of fuel.
print_digits : ℕ → ℕ → Bytes → Bytes
print_digits zero n rest = rest
print_digits (suc fuel) n rest =
    let more = print_digits fuel (n / 10) ((48 + n % 10) ∷ rest) in
    if ltb n 10 then (48 + n) ∷ rest else more

-- A number has no more digits than its value and one.
unfoldable print_unsigned : ℕ → Bytes
unfolding print_digits
print_unsigned n = print_digits (suc n) n []

-- `strconv.FormatInt` in base 10.
unfoldable pub format_int : ℤ → Bytes
unfolding print_unsigned
format_int (pos n) = print_unsigned n
format_int (negsuc n) = 45 ∷ print_unsigned (suc n)

digits-print_digits :
    (fuel n : ℕ) (rest : Bytes) → n < fuel → digits 0 (print_digits fuel n rest) ≡ digits n rest
unfolding print_digits
digits-print_digits zero n rest h = absurd (omega arith)
digits-print_digits (suc fuel) n rest h = elim (Bool-cases (ltb n 10)) [
  | inl e ↦ rw e (ground arith)
  | inr e ↦
      rw (e, digits-print_digits fuel (n / 10) ((48 + n % 10) ∷ rest) (ground arith)) (ground arith)
]

-- The bytes begin with one that is no sign.
abbrev pub Starts : Bytes → Type 0
Starts bs = (c : ℕ) × (cs : Bytes) × (48 ≤ c) × (bs ≡ c ∷ cs)

-- A byte below the digits.
abbrev pub is_low : ℕ → Bool
is_low c = ltb c 48

print_digits-high :
    (fuel n : ℕ) (rest : Bytes)
    → exists is_low rest ≡ false
    → exists is_low (print_digits fuel n rest) ≡ false
unfolding print_digits
print_digits-high zero n rest h = h
print_digits-high (suc fuel) n rest h = elim (Bool-cases (ltb n 10)) [
  | inl e ↦ rw e (ground (arith, h))
  | inr e ↦ rw e (print_digits-high fuel (n / 10) ((48 + n % 10) ∷ rest) (ground (arith, h)))
]

pub format_int-high : (n : ℕ) → exists is_low (format_int (pos n)) ≡ false
unfolding format_int print_unsigned
format_int-high n = print_digits-high (suc n) n [] refl

print_digits-Starts : (fuel n c : ℕ) (cs : Bytes) → 48 ≤ c → Starts (print_digits fuel n (c ∷ cs))
unfolding print_digits
print_digits-Starts zero n c cs h = (c, cs, h, refl)
print_digits-Starts (suc fuel) n c cs h = elim (Bool-cases (ltb n 10)) [
  | inl e ↦ rw e (48 + n, c ∷ cs, omega arith, refl)
  | inr e ↦ rw e (print_digits-Starts fuel (n / 10) (48 + n % 10) (c ∷ cs) (omega arith))
]

print_unsigned-Starts : (n : ℕ) → Starts (print_unsigned n)
unfolding print_unsigned print_digits
print_unsigned-Starts n = elim (Bool-cases (ltb n 10)) [
  | inl e ↦ rw e (48 + n, [], omega arith, refl)
  | inr e ↦ rw e (print_digits-Starts n (n / 10) (48 + n % 10) [] (omega arith))
]

pub format_int-Starts : (n : ℕ) → Starts (format_int (pos n))
unfolding format_int
format_int-Starts n = print_unsigned-Starts n

unsigned-print_unsigned : (n : ℕ) → unsigned (print_unsigned n) ≡ some n
unfolding print_unsigned
unsigned-print_unsigned n =
    let (c, cs, h, e) = print_unsigned-Starts n in
    unsigned_of (print_unsigned n) c cs e ∙ digits-print_digits (suc n) n [] (omega arith)
  where
    unsigned_of : (bs : Bytes) (c : ℕ) (cs : Bytes) → bs ≡ c ∷ cs → unsigned bs ≡ digits 0 bs
    unsigned_of bs c cs e = rw e refl

parse_int-unsigned : (bs : Bytes) → Starts bs → parse_int bs ≡ positive (unsigned bs)
unfolding parse_int
parse_int-unsigned bs (c, cs, h, e) = rw e (ground arith)

-- `strconv.ParseInt` reads what `strconv.FormatInt` writes.
pub parse_int-format_int : (a : ℤ) → InInt64 a → parse_int (format_int a) ≡ some a
unfolding format_int parse_int
parse_int-format_int (pos n) h =
    rw (parse_int-unsigned (print_unsigned n) (print_unsigned-Starts n), unsigned-print_unsigned n)
      (ground arith)
parse_int-format_int (negsuc n) h = rw (unsigned-print_unsigned (suc n)) (ground arith)
