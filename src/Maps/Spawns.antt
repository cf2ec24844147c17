-- ===== src/Maps/Spawns.antt =====
-- The spawn points of a map are cells of the map.
use bn_bserver.Prelude.{
  ℕ, zero, suc, ◌+◌, ◌≡◌, refl, Bool, true, false, Option, none, some, List, [], ◌∷◌, if◌then◌else◌,
  arith, All, All-append,
}
use bn_bserver.Prelude.Text.{Text}
use bn_bserver.Prelude.Int.{ℤ, pos, stoi}
use bn_bserver.Prelude.Lines.{split}
use bn_bserver.Maps.{cell_value, is_spawn, load_cells, load_lines, load_map}

module _ {ℓ} {A : Type ℓ} where
  unfoldable pub nth : ℕ → List A → Option A
  nth n [] = none
  nth zero (x ∷ xs) = some x
  nth (suc n) (x ∷ xs) = nth n xs

or_empty : Option (List ℤ) → List ℤ
or_empty none = []
or_empty (some row) = row

-- The value of a cell; none outside the map.
unfoldable pub cell_at : ℕ → ℕ → List (List ℤ) → Option ℤ
unfolding or_empty
cell_at x y rows = nth x (or_empty (nth y rows))

-- A spawn point of row y lies in a row whose first column is x, and the cell is 5.
abbrev pub InRow : ℕ → ℕ → List ℤ → ℕ × ℕ → Type 0
InRow x y row (i, j) = (j ≡ y) × ((k : ℕ) × (i ≡ x + k) × (nth k row ≡ some (pos 5)))

later-InRow :
    (x y : ℕ) (v : ℤ) (row : List ℤ) (qs : List (ℕ × ℕ))
    → All (InRow (suc x) y row) qs
    → All (InRow x y (v ∷ row)) qs
unfolding nth
later-InRow x y v row [] h = tt
later-InRow x y v row (q ∷ qs) ((same, (k, at, five)), h) =
    ((same, (suc k, omega (arith, at), five)), later-InRow x y v row qs h)

cells-if :
    (b : Bool) (x y : ℕ) (v : ℤ) (row : List ℤ) (qs : List (ℕ × ℕ))
    → All (InRow (suc x) y row) qs
    → All (InRow x y (if b then pos 5 ∷ row else v ∷ row)) (if b then (x, y) ∷ qs else qs)
unfolding nth
cells-if true x y v row qs h = ((refl, (0, omega arith, refl)), later-InRow x y (pos 5) row qs h)
cells-if false x y v row qs h = later-InRow x y v row qs h

pub load_cells-InRow :
    (x y : ℕ) (cells : List Text)
    → All (InRow x y (load_cells x y cells).0) (load_cells x y cells).1
unfolding load_cells
load_cells-InRow x y [] = tt
load_cells-InRow x y (cell ∷ cells) =
    cells-if (is_spawn (cell_value (stoi cell))) x y (cell_value (stoi cell)) _ _
      (load_cells-InRow (suc x) y cells)

-- A spawn point of rows whose first one is y.
abbrev pub IsSpawn : ℕ → List (List ℤ) → ℕ × ℕ → Type 0
IsSpawn y rows (i, j) = (k : ℕ) × (j ≡ y + k) × (cell_at i k rows ≡ some (pos 5))

first-IsSpawn :
    (y : ℕ) (row : List ℤ) (rows : List (List ℤ)) (qs : List (ℕ × ℕ))
    → All (InRow 0 y row) qs
    → All (IsSpawn y (row ∷ rows)) qs
unfolding cell_at nth
first-IsSpawn y row rows [] h = tt
first-IsSpawn y row rows ((i, j) ∷ qs) ((same, (k, at, five)), h) =
    let column : i ≡ k = omega (arith, at) in
    ((0, omega (arith, same), rw column five), first-IsSpawn y row rows qs h)

later-IsSpawn :
    (y : ℕ) (row : List ℤ) (rows : List (List ℤ)) (qs : List (ℕ × ℕ))
    → All (IsSpawn (suc y) rows) qs
    → All (IsSpawn y (row ∷ rows)) qs
unfolding cell_at nth
later-IsSpawn y row rows [] h = tt
later-IsSpawn y row rows (q ∷ qs) ((k, at, five), h) =
    ((suc k, omega (arith, at), five), later-IsSpawn y row rows qs h)

pub load_lines-IsSpawn :
    (y : ℕ) (lines : List Text) → All (IsSpawn y (load_lines y lines).0) (load_lines y lines).1
unfolding load_lines
load_lines-IsSpawn y [] = tt
load_lines-IsSpawn y (line ∷ lines) =
    All-append _ _ _ (first-IsSpawn y _ _ _ (load_cells-InRow 0 y (split b',' line)))
      (later-IsSpawn y _ _ _ (load_lines-IsSpawn (suc y) lines))

-- Every spawn point of a map, whatever the file holds, is the column and the row of a cell that is
-- inside the map and holds 5.
pub load_map-IsSpawn : (file : Option Text) → All (IsSpawn 0 (load_map file).0) (load_map file).1
unfolding load_map
load_map-IsSpawn none = tt
load_map-IsSpawn (some s) = load_lines-IsSpawn 0 (split 10 s)
