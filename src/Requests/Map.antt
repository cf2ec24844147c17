-- ===== src/Requests/Map.antt =====
-- GET_MAP (TeamOFYServer/ClientHandler.cpp): the map, the places where the users start, and their characters.
--
-- The files are looked up by their names, and the shuffled indices of the spawn points are an argument.
pub mod Places
use bn_bserver.Prelude.{
  ℕ, zero, suc, Bool, true, false, Option, none, some, List, [], ◌∷◌, ◌++◌, if◌then◌else◌, ltb,
  length, map,
}
use bn_bserver.Prelude.Text.{Text, codes, getline}
use bn_bserver.Prelude.Decimal.{to_string}
use bn_bserver.Prelude.Int.{ℤ, int_string}
use bn_bserver.Rooms.{Room, Manager, Send, find_room_by_name}
use bn_bserver.Rooms.Clients.{Clients, client_of}
use bn_bserver.Rooms.Messages.{display_name, character_of, joined, add_send}
use bn_bserver.Maps.{load_map}
use bn_bserver.Characters.{CharStats, StatsMap, Loaded, answered, threw, load_from_csv, get_stats}

-- A map as text: cells behind commas, rows behind semicolons.
unfoldable pub map_text : List (List ℤ) → Text
map_text rows = joined (codes ";") (map (λ row. joined (codes ",") (map int_string row)) rows)

-- allSpawnPoints[index]; no place is read outside.
unfoldable pub spawn_at : ℕ → List (ℕ × ℕ) → Option (ℕ × ℕ)
spawn_at n [] = none
spawn_at zero (p ∷ ps) = some p
spawn_at (suc n) (p ∷ ps) = spawn_at n ps

-- The users with their places, by the shuffled indices.
unfoldable pub placed : List (ℕ × ℕ) → List ℕ → List Text → List (Text × Option (ℕ × ℕ))
placed spawns indices [] = []
placed spawns [] (u ∷ us) = (u, none) ∷ placed spawns [] us
placed spawns (i ∷ indices) (u ∷ us) = (u, spawn_at i spawns) ∷ placed spawns indices us

place_text : Option (ℕ × ℕ) → Text
place_text none = []
place_text (some (x, y)) = to_string x ++ b':' ∷ to_string y

place_entry : Clients → Room → Text × Option (ℕ × ℕ) → Text
place_entry cs r (u, place) =
    display_name cs u ++ b':' ∷ (place_text place ++ b':' ∷ int_string (character_of r u))

stats_text : Option CharStats → Text
stats_text none = codes "0,0"
stats_text (some stats) = int_string stats.health ++ b',' ∷ int_string stats.attack

stats_entry : Clients → Room → StatsMap → Text → Text
stats_entry cs r t u =
    display_name cs u
    ++ b',' ∷ (int_string (character_of r u) ++ b',' ∷ stats_text (get_stats (character_of r u) t))

unfoldable pub char_info : Clients → Room → StatsMap → Text
unfolding stats_entry stats_text
char_info cs r t =
    codes "CHAR_INFO|" ++ (joined (codes "|") (map (stats_entry cs r t) r.users) ++ codes "\n")

unfoldable pub map_data :
    Clients → Room → Text → List (List ℤ) → List (Text × Option (ℕ × ℕ)) → Text
unfolding place_entry place_text
map_data cs r map_name rows places =
    codes "MAP_DATA|"
    ++ (map_name
        ++ b'|'
          ∷ (map_text rows
              ++ b'|' ∷ (joined (codes ",") (map (place_entry cs r) places) ++ codes "\n")))

-- Two messages to each user who is connected.
unfoldable pub both_sends : Clients → Text → Text → List Text → List Send
both_sends cs first second [] = []
both_sends cs first second (u ∷ us) =
    add_send first (client_of cs u)
      (add_send second (client_of cs u) (both_sends cs first second us))

-- How the handler ends: it sends, an exception of std::stoi leaves it, or a null pointer is followed.
pub data MapReply : Type 0 where
  sent : List Send → MapReply
  bad_number : MapReply
  crashed : MapReply

unfoldable pub map_of_room :
    Clients → List ℕ → Text → StatsMap → List (List ℤ) × List (ℕ × ℕ) → Option Room → MapReply
map_of_room cs indices map_name t (rows, spawns) none = crashed
map_of_room cs indices map_name t (rows, spawns) (some r) =
    if ltb (length spawns) (length r.users)
    then sent []
    else sent (
        both_sends cs (map_data cs r map_name rows (placed spawns indices r.users))
          (char_info cs r t) r.users)

map_loaded :
    Clients → List ℕ → (Text → Option Text) → Text → Text → Manager → StatsMap × Loaded → MapReply
map_loaded cs indices files room_name map_name m (t, threw) = bad_number
map_loaded cs indices files room_name map_name m (t, answered false) = sent []
map_loaded cs indices files room_name map_name m (t, answered true) =
    map_of_room cs indices map_name t (load_map (files (map_name ++ codes ".csv")))
      (find_room_by_name room_name m)

map_line :
    Clients → List ℕ → (Text → Option Text) → Text → Option (Text × Text) → Manager → MapReply
map_line cs indices files room_name none m = sent []
map_line cs indices files room_name (some (map_name, _)) m =
    map_loaded cs indices files room_name map_name m
      (load_from_csv (files (codes "CharStat.csv")) [])

map_fields : Clients → List ℕ → (Text → Option Text) → Option (Text × Text) → Manager → MapReply
map_fields cs indices files none m = sent []
map_fields cs indices files (some (room_name, rest)) m =
    map_line cs indices files room_name (getline 10 rest) m

-- GET_MAP
unfoldable pub map_request : Clients → List ℕ → (Text → Option Text) → Text → Manager → MapReply
unfolding map_fields map_line map_loaded
map_request cs indices files input m = map_fields cs indices files (getline b'|' input) m
