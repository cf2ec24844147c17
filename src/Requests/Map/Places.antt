-- ===== src/Requests/Map/Places.antt =====
-- The places where the users of a match start (TeamOFYServer/ClientHandler.cpp, MapManager.cpp).
use bn_bserver.Prelude.{
  ℕ, zero, suc, ◌≤◌, ◌<◌, ◌≡◌, ◌≢◌, refl, sym, ◌∙◌, ap, Bool, true, false, Option, none, some, List,
  [], ◌∷◌, ◌++◌, if◌then◌else◌, ltb, arith, All, All-append, length, map,
}
use mathlib.Core.Option.{some-injective}
use bn_bserver.Prelude.Text.{Text}
use bn_bserver.Prelude.Lines.{split}
use bn_bserver.Prelude.Int.{ℤ, stoi}
use bn_bserver.Rooms.{Room}
use bn_bserver.Rooms.Clients.{Clients}
use bn_bserver.Maps.{cell_value, is_spawn, load_cells, load_lines, load_map}
use bn_bserver.Maps.Spawns.{InRow, IsSpawn, load_cells-InRow, load_lines-IsSpawn, load_map-IsSpawn}
use bn_bserver.Characters.{StatsMap}
use bn_bserver.Requests.Map.{spawn_at, placed, both_sends, map_data, char_info, sent, map_of_room}

-- No value stands twice in a list.
abbrev pub HasNoRepeats {ℓ} : {A : Type ℓ} → List A → Type ℓ
HasNoRepeats [] = Unit
HasNoRepeats (x ∷ xs) = All (λ y. x ≢ y) xs × HasNoRepeats xs

All-weaken {ℓ κ} :
    {A : Type ℓ} (P Q : A → Type κ) (xs : List A) → ((x : A) → P x → Q x) → All P xs → All Q xs
All-weaken P Q [] f h = tt
All-weaken P Q (x ∷ xs) f (p, h) = (f x p, All-weaken P Q xs f h)

cells-HasNoRepeats :
    (b : Bool) (x y : ℕ) (row : List ℤ) (qs : List (ℕ × ℕ))
    → All (InRow (suc x) y row) qs
    → HasNoRepeats qs
    → HasNoRepeats (if b then (x, y) ∷ qs else qs)
cells-HasNoRepeats false x y row qs h apart = apart
cells-HasNoRepeats true x y row qs h apart =
    (All-weaken (InRow (suc x) y row) (λ q. (x, y) ≢ q) qs differs h, apart)
  where
    differs : (q : ℕ × ℕ) → InRow (suc x) y row q → (x, y) ≢ q
    differs (i, j) (same, (k, at, five)) e =
        let column : x ≡ i = ap (λ p. p.0) e in absurd (omega (arith, at, column))

load_cells-HasNoRepeats : (x y : ℕ) (cells : List Text) → HasNoRepeats (load_cells x y cells).1
unfolding load_cells
load_cells-HasNoRepeats x y [] = tt
load_cells-HasNoRepeats x y (cell ∷ cells) =
    cells-HasNoRepeats (is_spawn (cell_value (stoi cell))) x y _ _
      (load_cells-InRow (suc x) y cells) (load_cells-HasNoRepeats (suc x) y cells)

append-HasNoRepeats :
    (y : ℕ) (row : List ℤ) (rows : List (List ℤ)) (ps qs : List (ℕ × ℕ))
    → All (InRow 0 y row) ps
    → All (IsSpawn (suc y) rows) qs
    → HasNoRepeats ps
    → HasNoRepeats qs
    → HasNoRepeats (ps ++ qs)
append-HasNoRepeats y row rows [] qs h k apart apart' = apart'
append-HasNoRepeats y row rows ((i, j) ∷ ps) qs ((same, _), h) k (first, apart) apart' = (
  All-append (λ q. (i, j) ≢ q) ps qs first
      (All-weaken (IsSpawn (suc y) rows) (λ q. (i, j) ≢ q) qs differs k),
  append-HasNoRepeats y row rows ps qs h k apart apart',
)
  where
    differs : (q : ℕ × ℕ) → IsSpawn (suc y) rows q → (i, j) ≢ q
    differs (a, b) (n, at, five) e =
        let line : j ≡ b = ap (λ p. p.1) e in absurd (omega (arith, at, line, same))

load_lines-HasNoRepeats : (y : ℕ) (lines : List Text) → HasNoRepeats (load_lines y lines).1
unfolding load_lines
load_lines-HasNoRepeats y [] = tt
load_lines-HasNoRepeats y (line ∷ lines) =
    append-HasNoRepeats y _ _ _ _ (load_cells-InRow 0 y (split b',' line))
      (load_lines-IsSpawn (suc y) lines) (load_cells-HasNoRepeats 0 y (split b',' line))
      (load_lines-HasNoRepeats (suc y) lines)

load_map-HasNoRepeats : (file : Option Text) → HasNoRepeats (load_map file).1
unfolding load_map
load_map-HasNoRepeats none = tt
load_map-HasNoRepeats (some s) = load_lines-HasNoRepeats 0 (split 10 s)

-- An index inside the list reads a value with the property of all values.
spawn_at-All :
    (P : ℕ × ℕ → Type 0) (n : ℕ) (ps : List (ℕ × ℕ))
    → All P ps
    → n < length ps
    → (p : ℕ × ℕ) × (spawn_at n ps ≡ some p) × P p
unfolding spawn_at
spawn_at-All P n [] h inside = absurd (omega (arith, inside))
spawn_at-All P zero (p ∷ ps) (first, h) inside = (p, refl, first)
spawn_at-All P (suc n) (p ∷ ps) (first, h) inside = spawn_at-All P n ps h (omega (arith, inside))

head-apart :
    (q : ℕ × ℕ) (n : ℕ) (ps : List (ℕ × ℕ))
    → All (λ p. q ≢ p) ps
    → n < length ps
    → some q ≢ spawn_at n ps
head-apart q n ps h inside e =
    let (p, read, differs) = spawn_at-All (λ p. q ≢ p) n ps h inside in
    differs (some-injective _ _ (e ∙ read))

-- Different indices read different spawn points.
spawn_at-apart :
    (m n : ℕ) (ps : List (ℕ × ℕ))
    → HasNoRepeats ps
    → m < length ps
    → n < length ps
    → m ≢ n
    → spawn_at m ps ≢ spawn_at n ps
unfolding spawn_at
spawn_at-apart m n [] apart i j differs e = absurd (omega (arith, i))
spawn_at-apart zero zero (p ∷ ps) apart i j differs e = differs refl
spawn_at-apart zero (suc n) (p ∷ ps) (first, apart) i j differs e =
    head-apart p n ps first (omega (arith, j)) e
spawn_at-apart (suc m) zero (p ∷ ps) (first, apart) i j differs e =
    head-apart p m ps first (omega (arith, i)) (sym e)
spawn_at-apart (suc m) (suc n) (p ∷ ps) (first, apart) i j differs e =
    spawn_at-apart m n ps apart (omega (arith, i)) (omega (arith, j))
      (λ same. differs (ap suc same)) e

-- A user stands on a spawn point of the map.
abbrev pub IsPlace : List (List ℤ) → Text × Option (ℕ × ℕ) → Type 0
IsPlace rows (u, place) = (p : ℕ × ℕ) × (place ≡ some p) × IsSpawn 0 rows p

-- The places of the users: one for each user in order, each a spawn point of the map, none twice.
abbrev pub ArePlaces : List (List ℤ) → List Text → List (Text × Option (ℕ × ℕ)) → Type 0
ArePlaces rows users places =
    (map (λ entry. entry.0) places ≡ users)
    × All (IsPlace rows) places
    × HasNoRepeats (map (λ entry. entry.1) places)

placed-users :
    (spawns : List (ℕ × ℕ)) (is : List ℕ) (us : List Text)
    → map (λ entry. entry.0) (placed spawns is us) ≡ us
unfolding placed
placed-users spawns is [] = refl
placed-users spawns [] (u ∷ us) = ap (λ xs. u ∷ xs) (placed-users spawns [] us)
placed-users spawns (i ∷ is) (u ∷ us) = ap (λ xs. u ∷ xs) (placed-users spawns is us)

placed-All :
    (rows : List (List ℤ)) (spawns : List (ℕ × ℕ)) (is : List ℕ) (us : List Text)
    → All (IsSpawn 0 rows) spawns
    → All (λ i. i < length spawns) is
    → length us ≤ length is
    → All (IsPlace rows) (placed spawns is us)
unfolding placed
placed-All rows spawns is [] on inside enough = tt
placed-All rows spawns [] (u ∷ us) on inside enough = absurd (omega (arith, enough))
placed-All rows spawns (i ∷ is) (u ∷ us) on (first, inside) enough = (
  spawn_at-All (IsSpawn 0 rows) i spawns on first,
  placed-All rows spawns is us on inside (omega (arith, enough)),
)

elsewhere :
    (i : ℕ) (spawns : List (ℕ × ℕ)) (is : List ℕ) (us : List Text)
    → HasNoRepeats spawns
    → i < length spawns
    → All (λ i. i < length spawns) is
    → All (λ j. i ≢ j) is
    → length us ≤ length is
    → All (λ place. spawn_at i spawns ≢ place) (map (λ entry. entry.1) (placed spawns is us))
unfolding placed
elsewhere i spawns is [] apart at inside others enough = tt
elsewhere i spawns [] (u ∷ us) apart at inside others enough = absurd (omega (arith, enough))
elsewhere i spawns (j ∷ is) (u ∷ us) apart at (first, inside) (other, others) enough = (
  spawn_at-apart i j spawns apart at first other,
  elsewhere i spawns is us apart at inside others (omega (arith, enough)),
)

placed-HasNoRepeats :
    (spawns : List (ℕ × ℕ)) (is : List ℕ) (us : List Text)
    → HasNoRepeats spawns
    → All (λ i. i < length spawns) is
    → HasNoRepeats is
    → length us ≤ length is
    → HasNoRepeats (map (λ entry. entry.1) (placed spawns is us))
unfolding placed
placed-HasNoRepeats spawns is [] apart inside shuffled enough = tt
placed-HasNoRepeats spawns [] (u ∷ us) apart inside shuffled enough = absurd (omega (arith, enough))
placed-HasNoRepeats spawns (i ∷ is) (u ∷ us) apart (first, inside) (others, shuffled) enough = (
  elsewhere i spawns is us apart first inside others (omega (arith, enough)),
  placed-HasNoRepeats spawns is us apart inside shuffled (omega (arith, enough)),
)

ltb_not : (m n : ℕ) → n ≤ m → ltb m n ≡ false
ltb_not m n h = ground (arith, h)

-- When the map has a spawn point for each user of the room, and the shuffled indices are as many as the spawn
-- points, below their number and all different, GET_MAP sends each connected user both messages, and the places
-- it writes into them are one for each user in order, each of them a spawn point of the map, none given twice.
pub map_of_room-ArePlaces :
    (cs : Clients) (is : List ℕ) (map_name : Text) (t : StatsMap) (file : Option Text) (r : Room)
    → length r.users ≤ length (load_map file).1
    → length is ≡ length (load_map file).1
    → All (λ i. i < length (load_map file).1) is
    → HasNoRepeats is
    → (map_of_room cs is map_name t (load_map file) (some r)
        ≡ sent (
            both_sends cs
              (map_data cs r map_name (load_map file).0 (placed (load_map file).1 is r.users))
              (char_info cs r t)
              r.users))
      × ArePlaces (load_map file).0 r.users (placed (load_map file).1 is r.users)
unfolding map_of_room
map_of_room-ArePlaces cs is map_name t file r enough all inside shuffled =
    let spawns = (load_map file).1 in
    (
      rw (ltb_not (length spawns) (length r.users) enough) refl,
      (
        placed-users spawns is r.users,
        placed-All _ spawns is r.users (load_map-IsSpawn file) inside (omega (arith, enough, all)),
        placed-HasNoRepeats spawns is r.users (load_map-HasNoRepeats file) inside shuffled
            (omega (arith, enough, all)),
      ),
    )
