-- ===== src/Maps/Tests.antt =====
-- A small map with two spawn points and a cell that is no number.
use bn_bserver.Prelude.{◌≡◌, refl, some, [], ◌∷◌, All}
use bn_bserver.Prelude.Text.{Text, codes, getline, before_byte, after_byte}
use bn_bserver.Prelude.Int.{pos, stoi}
use bn_bserver.Prelude.Decimal.{skip_spaces, read_digits, is_digit, is_space}
use bn_bserver.Prelude.Lines.{split, pieces}
use bn_bserver.Maps.{load_map, load_lines, load_cells, cell_value, is_spawn}
use bn_bserver.Maps.Spawns.{IsSpawn, load_map-IsSpawn}

abbrev arena : Text
arena = codes "1,-1\n-1,x\n"

load_map-IsSpawn_example : All (IsSpawn 0 (load_map (some arena)).0) (load_map (some arena)).1
load_map-IsSpawn_example = load_map-IsSpawn (some arena)

small_map :
    load_map (some arena) ≡ ((pos 1 ∷ pos 5 ∷ []) ∷ (pos 5 ∷ pos 0 ∷ []) ∷ [], (1, 0) ∷ (0, 1) ∷ [])
unfolding load_map load_lines load_cells split pieces cell_value is_spawn getline before_byte
    after_byte stoi skip_spaces read_digits is_digit is_space
small_map = refl
