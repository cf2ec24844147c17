-- ===== src/Requests/Tests.antt =====
-- Messages of two players, ann and bob, about a room and its map.
use bn_bserver.Prelude.{
  ℕ, ◌≡◌, refl, ◌≤◌, ◌<◌, arith, true, false, if◌then◌else◌, Option, none, some, List, [], ◌∷◌, All,
  length,
}
use bn_bserver.Prelude.Text.{Text, codes, ◌==◌, getline, before_byte, after_byte, has_byte}
use bn_bserver.Prelude.Int.{pos, stoi}
use bn_bserver.Prelude.Decimal.{skip_spaces, read_digits, is_digit, is_space}
use bn_bserver.Prelude.Lines.{split, pieces}
use bn_bserver.Users.Load.{body_or_empty}
use bn_bserver.Rooms.{Room, Manager, no_rooms, find_room, find_room_by_name}
use bn_bserver.Rooms.Clients.{Client, Clients}
use bn_bserver.Maps.{load_map, load_lines, load_cells, cell_value, is_spawn}
use bn_bserver.Characters.{
  StatsMap, load_from_csv, stats_rows, stats_row, put_stats, answered, update_player_position,
  get_player_position, threw,
}
use bn_bserver.Requests.Map.{
  both_sends, map_data, char_info, sent, crashed, map_of_room, placed, map_request,
}
use bn_bserver.Requests.Map.Places.{ArePlaces, map_of_room-ArePlaces}
use bn_bserver.Requests.Asking.{
  Message, create_message, enter_message, team_message, exit_message, start_message,
}
use bn_bserver.Rooms.Requests.{Request, team, exit, create, enter}

abbrev ann : Client
ann = record { socket = 7; id = codes "ann"; nickname = codes "Ann" }

abbrev bob : Client
bob = record { socket = 8; id = codes "bob"; nickname = codes "Bob" }

abbrev both : Clients
both = record { clients_map = (codes "ann", ann) ∷ (codes "bob", bob) ∷ []; all = ann ∷ bob ∷ [] }

abbrev hall : Room
hall = record {
  room_name = codes "hall";
  map_name = codes "Forest";
  password = [];
  users = codes "ann" ∷ codes "bob" ∷ [];
  assigned_spawn_positions = [];
  character_selections = [];
  team_assignments = [];
  match_id = 0;
  is_in_game = false;
  is_coop_mode = false;
}

abbrev one_room : Manager
one_room = record { rooms = hall ∷ []; next_match_id = 0; dead = []; ready = []; resolved = [] }

abbrev messages : List Message
messages =
    start_message both bob (codes "pit")
    ∷ team_message both (codes "Bob")
    ∷ exit_message both (codes "hall|Bob")
    ∷ create_message both bob (codes "den|Desert||1")
    ∷ enter_message both ann (codes "den||")
    ∷ []

abbrev requests : List Request
requests =
    team (codes "bob")
    ∷ exit both (codes "hall|Bob")
    ∷ create both bob (codes "den") (codes "Desert") [] true
    ∷ enter both ann (codes "den") []
    ∷ []

abbrev arena : Text
arena = codes "1,-1\n-1,x\n"

abbrev den : Room
den = record {
  room_name = codes "den";
  map_name = codes "Forest";
  password = [];
  users = codes "ann" ∷ codes "bob" ∷ [];
  assigned_spawn_positions = [];
  character_selections = [];
  team_assignments = [];
  match_id = 3;
  is_in_game = true;
  is_coop_mode = false;
}

abbrev one_stats : StatsMap
one_stats = (pos 0, record { health = pos 100; attack = pos 20 }) ∷ []

map_of_room-ArePlaces_example :
    (map_of_room both (1 ∷ 0 ∷ []) (codes "Forest") one_stats (load_map (some arena)) (some den)
      ≡ sent (
          both_sends both
            (map_data both den
              (codes "Forest")
              (load_map (some arena)).0
              (placed (load_map (some arena)).1 (1 ∷ 0 ∷ []) den.users))
            (char_info both den one_stats)
            den.users))
    × ArePlaces
        (load_map (some arena)).0
        den.users
        (placed (load_map (some arena)).1 (1 ∷ 0 ∷ []) den.users)
unfolding load_map load_lines load_cells split pieces cell_value is_spawn getline before_byte
    after_byte stoi skip_spaces read_digits is_digit is_space
map_of_room-ArePlaces_example =
    map_of_room-ArePlaces both (1 ∷ 0 ∷ []) (codes "Forest") one_stats (some arena) den
      (omega arith) refl (omega arith, (omega arith, tt))
      ((λ e. absurd (omega (arith, e)), tt), (tt, tt))

abbrev stats_file : Text
stats_file = codes "index,health,attack\n0,100,20\n"

abbrev files : Text → Option Text
files name = if name == codes "CharStat.csv" then some stats_file else none

stats_loaded : load_from_csv (some stats_file) [] ≡ (one_stats, answered true)
unfolding load_from_csv stats_rows stats_row body_or_empty put_stats split pieces getline
    before_byte after_byte has_byte stoi skip_spaces read_digits is_digit is_space
stats_loaded = refl

stats_unread : (load_from_csv (some (codes "head\n0,x,20\n")) []).1 ≡ threw
unfolding load_from_csv stats_rows stats_row body_or_empty put_stats split pieces getline
    before_byte after_byte has_byte stoi skip_spaces read_digits is_digit is_space
stats_unread = refl

-- A room that is not there.
no_room : map_request both [] files (codes "hall|Forest") no_rooms ≡ crashed
unfolding map_request map_of_room load_from_csv stats_rows stats_row body_or_empty put_stats split
    pieces getline before_byte after_byte has_byte stoi skip_spaces read_digits is_digit is_space
    ◌==◌ find_room find_room_by_name
no_room = refl

moved :
    get_player_position {E = ℕ} 0 (codes "bob") (update_player_position (codes "bob") 3 4 [])
    ≡ (3, 4)
unfolding get_player_position update_player_position bn_bserver.Prelude.Assoc.insert
    bn_bserver.Prelude.Assoc.lookup ◌==◌
moved = refl
