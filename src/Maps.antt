-- ===== src/Maps.antt =====
-- MapManager (TeamOFYServer/MapManager.cpp): a map is read from a file of comma-separated cells, and
-- the cells that hold -1 are the spawn points. The proofs are in the modules below.
pub mod Spawns
pub mod Tests
use bn_bserver.Prelude.{
  ℕ, zero, suc, Bool, true, false, Option, none, some, List, [], ◌∷◌, ◌++◌, if◌then◌else◌, length,
}
use bn_bserver.Prelude.Text.{Text}
use bn_bserver.Prelude.Lines.{split}
use bn_bserver.Prelude.Int.{ℤ, pos, negsuc, stoi}

-- A cell that std::stoi does not read is 0.
unfoldable pub cell_value : Option ℤ → ℤ
cell_value none = pos 0
cell_value (some value) = value

unfoldable pub is_spawn : ℤ → Bool
is_spawn (pos n) = false
is_spawn (negsuc zero) = true
is_spawn (negsuc (suc n)) = false

-- The cells of a line from column x on, in row y: the row and the spawn points. A spawn point becomes 5.
unfoldable pub load_cells : ℕ → ℕ → List Text → List ℤ × List (ℕ × ℕ)
load_cells x y [] = ([], [])
load_cells x y (cell ∷ cells) =
    let (row, spawns) = load_cells (suc x) y cells in
    let value = cell_value (stoi cell) in
    (
      if is_spawn value then pos 5 ∷ row else value ∷ row,
      if is_spawn value then (x, y) ∷ spawns else spawns,
    )

-- The lines from row y on.
unfoldable pub load_lines : ℕ → List Text → List (List ℤ) × List (ℕ × ℕ)
load_lines y [] = ([], [])
load_lines y (line ∷ lines) =
    let (rows, later) = load_lines (suc y) lines in
    let (row, spawns) = load_cells 0 y (split b',' line) in (row ∷ rows, spawns ++ later)

-- LoadMapByNameWithSpawns; `none` is a file that cannot be opened.
unfoldable pub load_map : Option Text → List (List ℤ) × List (ℕ × ℕ)
load_map none = ([], [])
load_map (some s) = load_lines 0 (split 10 s)
