-- ===== src/Prelude/Int.antt =====
-- int values as integers over the native numbers: output and std::stoi.
pub mod RoundTrip
use Prim.Native.Nat.{ℕ, zero, suc, ◌+◌, ◌-◌, ◌^◌}
use mathlib.Core.Bool.{Bool, true, false}
use mathlib.Core.Option.{Option, none, some}
use mathlib.Core.List.{[], ◌∷◌}
use bn_bserver.Prelude.Tests.{eqb, ltb, if◌then◌else◌}
use bn_bserver.Prelude.Text.{Text}
use bn_bserver.Prelude.Decimal.{to_string, is_digit, read_digits, skip_spaces}

-- `negsuc n` is -(n + 1).
pub data ℤ : Type 0 where
  pos : ℕ → ℤ
  negsuc : ℕ → ℤ

-- std::to_string(int)
unfoldable pub int_string : ℤ → Text
int_string (pos n) = to_string n
int_string (negsuc n) = b'-' ∷ to_string (suc n)

-- The digits behind the sign, as a value of an int: -2^31 to 2^31 - 1.
positive : ℕ × Text → Option ℤ
positive (n, rest) = if ltb n (2 ^ 31) then some (pos n) else none

negative : ℕ × Text → Option ℤ
negative (zero, rest) = some (pos 0)
negative (suc n, rest) = if ltb n (2 ^ 31) then some (negsuc n) else none

abbrev read_int : (ℕ × Text → Option ℤ) → Text → Option ℤ
read_int sign [] = none
read_int sign (c ∷ s) = if is_digit c then sign (read_digits 0 (c ∷ s)) else none

int_behind : Text → Option ℤ
int_behind [] = none
int_behind (c ∷ s) =
    if eqb c b'-'
    then read_int negative s
    else if eqb c b'+'
    then read_int positive s
    else read_int positive (c ∷ s)

-- std::stoi: what follows the number is not looked at; `none` is an exception.
unfoldable pub stoi : Text → Option ℤ
unfolding int_behind positive negative
stoi s = int_behind (skip_spaces s)

-- `x < y` and `x - y` on ints, the latter without its limits.
abbrev pub lt_int : ℤ → ℤ → Bool
lt_int (pos a) (pos b) = ltb a b
lt_int (pos a) (negsuc b) = false
lt_int (negsuc a) (pos b) = true
lt_int (negsuc a) (negsuc b) = ltb b a

abbrev pub difference : ℕ → ℕ → ℤ
difference a b = if ltb a b then negsuc (b - a - 1) else pos (a - b)

unfoldable pub sub_int : ℤ → ℤ → ℤ
sub_int (pos a) (pos b) = difference a b
sub_int (pos a) (negsuc b) = pos (a + b + 1)
sub_int (negsuc a) (pos b) = negsuc (a + b)
sub_int (negsuc a) (negsuc b) = difference b a

-- `x + n`, without the limits of an int.
unfoldable pub add_nat : ℤ → ℕ → ℤ
add_nat (pos a) n = pos (a + n)
add_nat (negsuc a) n = difference n (suc a)
