-- ===== src/Prelude/Text.antt =====
-- C++ strings as lists of bytes: equality, order, search and the extraction of lines.
use Prim.Native.Nat.{ℕ}
use Prim.Native.Char.{code}
use Prim.Native.String.{String}
use mathlib.Core.Path.{◌≡◌, refl}
use mathlib.Core.Logic.{◌↔◌}
use mathlib.Core.Bool.{Bool, true, false, ◌&&◌, ◌||◌}
use mathlib.Core.Option.{Option, none, some}
use mathlib.Core.List.{List, [], ◌∷◌, ◌++◌, reverse}
use native.Mathlib.Omega.{arith}
use bn_bserver.Prelude.Tests.{eqb, ltb, if◌then◌else◌}

abbrev pub Text : Type 0
Text = List ℕ

-- The bytes of a literal.
abbrev pub codes : String → Text
codes String.[] = []
codes (String.◌∷◌ c s) = code c ∷ codes s

infix 50 ◌==◌
unfoldable pub ◌==◌ : Text → Text → Bool
[] == [] = true
[] == (d ∷ t) = false
(c ∷ s) == [] = false
(c ∷ s) == (d ∷ t) = eqb c d && (s == t)

pub eq_refl : (s : Text) → (s == s) ≡ true
unfolding ◌==◌
eq_refl [] = refl
eq_refl (c ∷ s) = ground (arith, eq_refl s)

pub eq_sound : (s t : Text) → (s == t) ≡ true → s ≡ t
unfolding ◌==◌
eq_sound [] [] h = refl
eq_sound [] (d ∷ t) h = ground arith
eq_sound (c ∷ s) [] h = ground arith
eq_sound (c ∷ s) (d ∷ t) h = ground (arith, eq_sound s t)

pub eq_iff : (s t : Text) → ((s == t) ≡ true) ↔ (s ≡ t)
eq_iff s t = (eq_sound s t, λ e. rw e (eq_refl t))

-- The lexicographic order of std::string, by which std::map sorts.
unfoldable pub text_lt : Text → Text → Bool
text_lt s [] = false
text_lt [] (d ∷ t) = true
text_lt (c ∷ s) (d ∷ t) = ltb c d || (eqb c d && text_lt s t)

-- `s.find(b) != npos`
unfoldable pub has_byte : ℕ → Text → Bool
has_byte b [] = false
has_byte b (c ∷ s) = eqb c b || has_byte b s

-- What stands before the first `b`, or all, and what stands behind it.
unfoldable pub before_byte : ℕ → Text → Text
before_byte b [] = []
before_byte b (c ∷ s) = if eqb c b then [] else c ∷ before_byte b s

unfoldable pub after_byte : ℕ → Text → Text
after_byte b [] = []
after_byte b (c ∷ s) = if eqb c b then s else after_byte b s

-- std::getline on a string stream: `none` at the end of the stream, otherwise the line and what is
-- left to read. The delimiter is taken and not kept.
unfoldable pub getline : ℕ → Text → Option (Text × Text)
unfolding before_byte after_byte
getline d [] = none
getline d (c ∷ s) = some (before_byte d (c ∷ s), after_byte d (c ∷ s))

pub before_byte-append :
    (d : ℕ) (s t : Text) → has_byte d s ≡ false → before_byte d (s ++ d ∷ t) ≡ s
unfolding has_byte before_byte
before_byte-append d [] t h = ground arith
before_byte-append d (c ∷ s) t h = ground (arith, before_byte-append d s t)

pub after_byte-append : (d : ℕ) (s t : Text) → has_byte d s ≡ false → after_byte d (s ++ d ∷ t) ≡ t
unfolding has_byte after_byte
after_byte-append d [] t h = ground arith
after_byte-append d (c ∷ s) t h = ground (arith, after_byte-append d s t)

-- A line that was written with its delimiter is read back.
pub getline-append :
    (d : ℕ) (s t : Text) → has_byte d s ≡ false → getline d (s ++ d ∷ t) ≡ some (s, t)
unfolding getline has_byte
getline-append d [] t h = ground arith
getline-append d (c ∷ s) t h =
    ground (arith, before_byte-append d (c ∷ s) t, after_byte-append d (c ∷ s) t)

pub has_byte-append :
    (b : ℕ) (s t : Text) → has_byte b s ≡ false → has_byte b t ≡ false → has_byte b (s ++ t) ≡ false
unfolding has_byte
has_byte-append b [] t h k = k
has_byte-append b (c ∷ s) t h k = ground (arith, has_byte-append b s t)

-- `s` without the bytes at its front that Trim takes for white space.
is_blank : ℕ → Bool
is_blank c = eqb c 32 || (eqb c 9 || (eqb c 10 || (eqb c 13 || (eqb c 12 || eqb c 11))))

drop_blanks : Text → Text
drop_blanks [] = []
drop_blanks (c ∷ s) = let rest = drop_blanks s in if is_blank c then rest else c ∷ s

-- Trim (TeamOFYServer/Utils.h)
unfoldable pub trim : Text → Text
unfolding drop_blanks is_blank
trim s = reverse (drop_blanks (reverse (drop_blanks s)))

-- A line that is read into an empty string: it stays empty at the end of the stream.
unfoldable pub line_or_empty : Option (Text × Text) → Text × Text
line_or_empty none = ([], [])
line_or_empty (some (line, rest)) = (line, rest)
