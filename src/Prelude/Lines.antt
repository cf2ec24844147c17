-- ===== src/Prelude/Lines.antt =====
-- Text cut at a delimiter, as a loop of std::getline does it.
use Prim.Native.Nat.{ℕ, zero, suc, ◌<◌}
use mathlib.Core.Path.{◌≡◌, refl, ap}
use mathlib.Core.Bool.{false}
use mathlib.Core.Option.{none, some}
use mathlib.Core.List.{List, [], ◌∷◌, ◌++◌}
use native.Mathlib.Omega.{arith}
use bn_bserver.Prelude.Lists.{length, length-append, All}
use bn_bserver.Prelude.Text.{Text, has_byte, getline, getline-append}

-- What a loop of std::getline with a delimiter yields. Each round takes a byte at least.
unfoldable pub pieces : ℕ → ℕ → Text → List Text
pieces zero d s = []
pieces (suc f) d s = elim (getline d s) [ none ↦ [] | some (piece, rest) ↦ piece ∷ pieces f d rest ]

unfoldable pub split : ℕ → Text → List Text
split d s = pieces (suc (length s)) d s

-- Pieces with the delimiter behind each of them.
unfoldable pub joined_by : ℕ → List Text → Text
joined_by d [] = []
joined_by d (p ∷ ps) = p ++ d ∷ joined_by d ps

abbrev pub Lacks : ℕ → Text → Type 0
Lacks d p = has_byte d p ≡ false

pieces-joined_by :
    (f d : ℕ) (ps : List Text)
    → All (Lacks d) ps
    → length (joined_by d ps) < f
    → pieces f d (joined_by d ps) ≡ ps
unfolding pieces joined_by
pieces-joined_by zero d ps free enough = absurd (omega arith)
pieces-joined_by (suc f) d [] free enough = unfold getline in refl
pieces-joined_by (suc f) d (p ∷ ps) free enough =
    rw (pieces, getline-append d p (joined_by d ps) free.0)
      (ap (λ qs. p ∷ qs)
        (pieces-joined_by f d ps free.1
          (omega (arith, enough, length-append p (d ∷ joined_by d ps)))))

-- Pieces that lack the delimiter are read back.
pub split-joined_by : (d : ℕ) (ps : List Text) → All (Lacks d) ps → split d (joined_by d ps) ≡ ps
unfolding split
split-joined_by d ps free = pieces-joined_by (suc (length (joined_by d ps))) d ps free (omega arith)
