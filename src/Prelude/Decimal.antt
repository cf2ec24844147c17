-- ===== src/Prelude/Decimal.antt =====
-- Decimal output of unsigned numbers, and std::stoull.
pub mod RoundTrip
use Prim.Native.Nat.{ℕ, zero, suc, ◌+◌, ◌-◌, ◌*◌, ◌/◌, ◌%◌, ◌^◌}
use mathlib.Core.Bool.{Bool, ◌&&◌, ◌||◌}
use mathlib.Core.Option.{Option, none, some}
use mathlib.Core.List.{[], ◌∷◌}
use bn_bserver.Prelude.Tests.{eqb, ltb, leb, if◌then◌else◌}
use bn_bserver.Prelude.Text.{Text}

-- The digits of `n`, in front of `acc`. The fuel counts digits.
unfoldable pub digits_onto : ℕ → ℕ → Text → Text
digits_onto zero n acc = acc
digits_onto (suc f) n acc =
    let d = (48 + n % 10) ∷ acc in
    let rest = digits_onto f (n / 10) d in if ltb n 10 then d else rest

-- `out << n` and std::to_string(n)
unfoldable pub to_string : ℕ → Text
unfolding digits_onto
to_string n = digits_onto (suc n) n []

unfoldable pub is_digit : ℕ → Bool
is_digit c = leb 48 c && leb c 57

unfoldable pub is_space : ℕ → Bool
is_space c = eqb c 32 || (leb 9 c && leb c 13)

-- The longest row of digits as a number, and what follows it.
unfoldable pub read_digits : ℕ → Text → ℕ × Text
unfolding is_digit
read_digits acc [] = (acc, [])
read_digits acc (c ∷ s) =
    let rest = read_digits (acc * 10 + (c - 48)) s in if is_digit c then rest else (acc, c ∷ s)

unfoldable pub skip_spaces : Text → Text
unfolding is_space
skip_spaces [] = []
skip_spaces (c ∷ s) = let rest = skip_spaces s in if is_space c then rest else c ∷ s

-- A value that an unsigned long long holds.
unfoldable pub in_range : ℕ × Text → Option (ℕ × Text)
in_range (n, rest) = if ltb n (2 ^ 64) then some (n, rest) else none

-- The number behind the sign; `none` is std::invalid_argument or std::out_of_range.
unfoldable pub read_unsigned : Text → Option (ℕ × Text)
read_unsigned [] = none
read_unsigned (c ∷ s) = if is_digit c then in_range (read_digits 0 (c ∷ s)) else none

negate : Option (ℕ × Text) → Option (ℕ × Text)
negate none = none
negate (some (n, rest)) = some ((2 ^ 64 - n) % 2 ^ 64, rest)

unfoldable pub read_signed : Text → Option (ℕ × Text)
unfolding negate
read_signed [] = none
read_signed (c ∷ s) =
    if eqb c b'-'
    then negate (read_unsigned s)
    else if eqb c b'+'
    then read_unsigned s
    else read_unsigned (c ∷ s)

-- std::stoull(s, &used): the value and what was not used.
unfoldable pub stoull : Text → Option (ℕ × Text)
stoull s = read_signed (skip_spaces s)
