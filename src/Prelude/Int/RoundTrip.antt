-- ===== src/Prelude/Int/RoundTrip.antt =====
-- What std::to_string writes of an int std::stoi reads back.
use Prim.Native.Nat.{ℕ, suc, ◌^◌, ◌<◌}
use mathlib.Core.Path.{◌≡◌}
use mathlib.Core.Bool.{false}
use mathlib.Core.Option.{some}
use mathlib.Core.List.{[], ◌∷◌}
use native.Mathlib.Omega.{arith}
use bn_bserver.Prelude.Tests.{eqb}
use bn_bserver.Prelude.Text.{Text, has_byte}
use bn_bserver.Prelude.Decimal.{to_string, is_digit, is_space, read_digits, skip_spaces}
use bn_bserver.Prelude.Decimal.RoundTrip.{
  Leads, to_string-Leads, digit-skips, to_string-reads, has_byte-to_string,
}
use bn_bserver.Prelude.Int.{ℤ, pos, negsuc, int_string, stoi, positive, negative, int_behind}

-- The values of an int.
abbrev pub IsInt : ℤ → Type 0
IsInt (pos n) = n < 2 ^ 31
IsInt (negsuc n) = n < 2 ^ 31

stoi-Leads : (s : Text) → Leads s → stoi s ≡ positive (read_digits 0 s)
unfolding stoi skip_spaces int_behind
stoi-Leads [] h = absurd h
stoi-Leads (c ∷ s) h = let k = digit-skips c h in rw (k.0, k.1, k.2, h)

negative-Leads : (s : Text) → Leads s → stoi (b'-' ∷ s) ≡ negative (read_digits 0 s)
unfolding stoi skip_spaces int_behind is_space
negative-Leads [] h = absurd h
negative-Leads (c ∷ s) h = rw h

-- Every int survives.
pub stoi-int_string : (z : ℤ) → IsInt z → stoi (int_string z) ≡ some z
unfolding int_string positive negative
stoi-int_string (pos n) h =
    rw (stoi-Leads (to_string n) (to_string-Leads n), to_string-reads n) (ground arith)
stoi-int_string (negsuc n) h =
    rw (negative-Leads (to_string (suc n)) (to_string-Leads (suc n)), to_string-reads (suc n))
      (ground arith)

-- Only digits and the sign are written.
pub has_byte-int_string :
    (b : ℕ) (z : ℤ) → is_digit b ≡ false → eqb b'-' b ≡ false → has_byte b (int_string z) ≡ false
unfolding int_string has_byte
has_byte-int_string b (pos n) h k = has_byte-to_string b n h
has_byte-int_string b (negsuc n) h k = rw (k, has_byte-to_string b (suc n) h)
