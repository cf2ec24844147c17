-- ===== src/Prelude/Decimal/RoundTrip.antt =====
-- What `to_string` writes `stoull` reads back, using every character.
use Prim.Native.Nat.{ℕ, zero, suc, ◌+◌, ◌-◌, ◌*◌, ◌/◌, ◌%◌, ◌^◌, ◌<◌}
use mathlib.Core.Path.{◌≡◌, refl, ◌∙◌}
use mathlib.Core.Logic.{inl, inr}
use mathlib.Core.Bool.{true, false}
use mathlib.Core.Option.{some}
use mathlib.Core.List.{[], ◌∷◌}
use native.Mathlib.Omega.{arith}
use bn_bserver.Prelude.Tests.{eqb, ltb, Bool-cases}
use bn_bserver.Prelude.Text.{Text, has_byte}
use bn_bserver.Prelude.Decimal.{
  digits_onto, to_string, is_digit, is_space, read_digits, skip_spaces, in_range, read_unsigned,
  read_signed, stoull,
}

is_digit-add : (n : ℕ) → n < 10 → is_digit (48 + n) ≡ true
unfolding is_digit
is_digit-add n h = ground arith

read_digit :
    (a n : ℕ) (acc : Text) → n < 10 → read_digits a ((48 + n) ∷ acc) ≡ read_digits (a * 10 + n) acc
unfolding read_digits
read_digit a n acc h =
    let same : a * 10 + (48 + n - 48) ≡ a * 10 + n = omega arith in rw (is_digit-add n h, same)

-- Reading the digits from 0 gives the number, whatever follows.
pub read_digits-digits_onto :
    (f n : ℕ) (acc : Text) → n < f → read_digits 0 (digits_onto f n acc) ≡ read_digits n acc
unfolding digits_onto
read_digits-digits_onto zero n acc h = absurd (omega arith)
read_digits-digits_onto (suc f) n acc h = elim (Bool-cases (ltb n 10)) [
  | inl small ↦
      let last : n % 10 ≡ n = ground arith in
      rw (small, last, read_digit 0 n acc (ground arith)) (ground arith)
  | inr big ↦
      let whole : n / 10 * 10 + n % 10 ≡ n = omega arith in
      rw (
        big,
        read_digits-digits_onto f (n / 10) ((48 + n % 10) ∷ acc) (ground arith),
        read_digit (n / 10) (n % 10) acc (omega arith),
        whole,
      )
]

-- The text begins with a digit.
abbrev pub Leads : Text → Type 0
Leads [] = ⊥
Leads (c ∷ s) = (is_digit c ≡ true)

digits_onto-Leads : (f n : ℕ) (acc : Text) → Leads (digits_onto (suc f) n acc)
unfolding digits_onto
digits_onto-Leads zero n acc = ground (arith, is_digit-add (n % 10))
digits_onto-Leads (suc f) n acc =
    ground (arith, is_digit-add (n % 10), digits_onto-Leads f (n / 10) ((48 + n % 10) ∷ acc))

pub to_string-Leads : (n : ℕ) → Leads (to_string n)
unfolding to_string
to_string-Leads n = digits_onto-Leads n n []

pub digit-skips :
    (c : ℕ) → is_digit c ≡ true → (is_space c ≡ false) × (eqb c b'-' ≡ false) × (eqb c b'+' ≡ false)
unfolding is_digit is_space
digit-skips c h = (ground arith, ground arith, ground arith)

stoull-Leads : (s : Text) → Leads s → stoull s ≡ read_unsigned s
unfolding stoull skip_spaces read_signed
stoull-Leads [] h = absurd h
stoull-Leads (c ∷ s) h = let k = digit-skips c h in rw (k.0, k.1, k.2)

read_unsigned-Leads :
    (s : Text) (n : ℕ)
    → Leads s
    → read_digits 0 s ≡ (n, [])
    → n < 2 ^ 64
    → read_unsigned s ≡ some (n, [])
unfolding read_unsigned in_range
read_unsigned-Leads [] n h e small = absurd h
read_unsigned-Leads (c ∷ s) n h e small = rw (h, e) (ground arith)

pub to_string-reads : (n : ℕ) → read_digits 0 (to_string n) ≡ (n, [])
unfolding to_string
to_string-reads n =
    read_digits-digits_onto (suc n) n [] (omega arith) ∙ (unfold read_digits in refl)

-- Every size below 2^64 survives, and no character is left over.
pub stoull-to_string : (n : ℕ) → n < 2 ^ 64 → stoull (to_string n) ≡ some (n, [])
stoull-to_string n small =
    stoull-Leads (to_string n) (to_string-Leads n)
    ∙ read_unsigned-Leads (to_string n) n (to_string-Leads n) (to_string-reads n) small

is_digit-ne : (b n : ℕ) → is_digit b ≡ false → eqb (48 + n % 10) b ≡ false
unfolding is_digit
is_digit-ne b n h = ground arith

has_byte-digits_onto :
    (b f n : ℕ) (acc : Text)
    → is_digit b ≡ false
    → has_byte b acc ≡ false
    → has_byte b (digits_onto f n acc) ≡ false
unfolding digits_onto has_byte
has_byte-digits_onto b zero n acc h k = k
has_byte-digits_onto b (suc f) n acc h k =
    ground (arith, is_digit-ne b n h, has_byte-digits_onto b f (n / 10) ((48 + n % 10) ∷ acc))

-- Only digits are written.
pub has_byte-to_string : (b n : ℕ) → is_digit b ≡ false → has_byte b (to_string n) ≡ false
unfolding to_string has_byte
has_byte-to_string b n h = has_byte-digits_onto b (suc n) n [] h refl
