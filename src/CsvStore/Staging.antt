-- ===== src/CsvStore/Staging.antt =====
-- CsvStore::Replace: the contents go to a staging file in pieces, which then takes the place of the
-- file. What the Windows calls answer is an argument. The staging file has a name of its own, and it
-- is gone in the end; `Disk` does not show it.
use bn_bserver.Prelude.{
  ℕ, ◌≤◌, ◌<◌, ◌≡◌, refl, ap, ◌∙◌, Bool, true, false, ◌&&◌, List, [], ◌∷◌, ◌++◌, arith, All, length,
  take, drop, min, length-drop, take-append-drop, append_assoc, append-nil, eqb, Bool-cases, inl,
  inr, ◌⊎◌, if◌then◌else◌,
}
use bn_bserver.Prelude.Text.{Text}
use bn_bserver.CsvStore.{Disk, write}

-- 1024 * 1024
abbrev pub piece : ℕ
piece = 1048576

-- How much one call writes of what is left.
pub step_size : ℕ → Text → ℕ
step_size w s = min w (min (length s) piece)

-- The loop over WriteFile: `ws` are the counts that the calls report, 0 for one that fails, and no
-- call writes more than it is given. The result is what was staged, and whether all of it was.
pub write_pieces : List ℕ → Text → Text → Text × Bool
write_pieces ws [] staged = (staged, true)
write_pieces [] (c ∷ s) staged = (staged, false)
write_pieces (w ∷ ws) (c ∷ s) staged =
    let n = step_size w (c ∷ s) in
    let rest = write_pieces ws (drop n (c ∷ s)) (staged ++ take n (c ∷ s)) in
    if eqb n 0 then (staged, false) else rest

-- The answers of CreateFileA, WriteFile, FlushFileBuffers, CloseHandle and MoveFileExA.
pub record Answers : Type 0 where
  pub created : Bool
  pub written : List ℕ
  pub flushed : Bool
  pub closed : Bool
  pub moved : Bool

pub replace : Answers → Text → Text → Disk → Disk × Bool
replace a path bytes d =
    let (staged, whole) = write_pieces a.written bytes [] in
    if a.created && (whole && (a.flushed && (a.closed && a.moved)))
    then (write path staged d, true)
    else (d, false)

write_pieces-whole :
    (ws : List ℕ) (s staged : Text)
    → (write_pieces ws s staged).1 ≡ true
    → (write_pieces ws s staged).0 ≡ staged ++ s
unfolding write_pieces
write_pieces-whole ws [] staged h = ground (arith, append-nil staged)
write_pieces-whole [] (c ∷ s) staged h = ground arith
write_pieces-whole (w ∷ ws) (c ∷ s) staged h =
    let n : ℕ = step_size w (c ∷ s) in
    elim (Bool-cases (eqb n 0)) [
      | inl stop ↦ absurd (ground arith)
      | inr more ↦ rw more (
          write_pieces-whole ws (drop n (c ∷ s)) (staged ++ take n (c ∷ s)) (rw more at h)
          ∙ append_assoc staged (take n (c ∷ s)) (drop n (c ∷ s))
          ∙ ap (◌++◌ staged) (take-append-drop n (c ∷ s)))
    ]

-- Enough calls that each write something stage everything.
write_pieces-finishes :
    (ws : List ℕ) (s staged : Text)
    → All (λ w. 0 < w) ws
    → length s ≤ length ws
    → (write_pieces ws s staged).1 ≡ true
unfolding write_pieces step_size
write_pieces-finishes ws [] staged pos enough = refl
write_pieces-finishes [] (c ∷ s) staged pos enough = absurd (omega arith)
write_pieces-finishes (w ∷ ws) (c ∷ s) staged pos enough =
    let n : ℕ = step_size w (c ∷ s) in
    let more : eqb n 0 ≡ false = ground arith in
    let left : length (drop n (c ∷ s)) ≤ length ws = omega (arith, length-drop n (c ∷ s)) in
    rw more (write_pieces-finishes ws (drop n (c ∷ s)) (staged ++ take n (c ∷ s)) pos.1 left)

-- Whatever the calls answer, Replace either fails and leaves every file, or succeeds and the file has
-- exactly the given contents, with every other file as it was.
pub replace-cases :
    (a : Answers) (path bytes : Text) (d : Disk)
    → (replace a path bytes d ≡ (d, false)) ⊎ (replace a path bytes d ≡ (write path bytes d, true))
unfolding replace
replace-cases a path bytes d = elim (Bool-cases (write_pieces a.written bytes []).1) [
  | inl whole ↦ ground (arith, write_pieces-whole a.written bytes [] whole)
  | inr partial ↦ ground arith
]

-- If every call succeeds, each write takes a byte at least, and there are as many writes as bytes,
-- Replace succeeds.
pub replace-succeeds :
    (a : Answers) (path bytes : Text) (d : Disk)
    → (a.created ≡ true) × (a.flushed ≡ true) × (a.closed ≡ true) × (a.moved ≡ true)
    → All (λ w. 0 < w) a.written
    → length bytes ≤ length a.written
    → (replace a path bytes d).1 ≡ true
unfolding replace
replace-succeeds a path bytes d yes_all pos enough =
    ground (arith, write_pieces-finishes a.written bytes [] pos enough)
