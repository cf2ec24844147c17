-- ===== src/Reward/Sample.antt =====
-- A match of two users, for the tests.
use bn_bserver.Prelude.{
  ℕ, ◌+◌, ◌-◌, refl, Bool, true, false, none, some, [], ◌∷◌, if◌then◌else◌, leb, arith,
}
use bn_bserver.Prelude.Text.{Text, codes, ◌==◌, has_byte}
use bn_bserver.Prelude.Decimal.{to_string, read_digits, digits_onto, is_digit}
use bn_bserver.Prelude.Int.{ℤ, pos, negsuc}
use bn_bserver.CsvStore.{Disk}
use bn_bserver.Rooms.{Room, Manager}
use bn_bserver.Rooms.Clients.{Client, Clients}
use bn_bserver.Users.{
  account_path, profile_path, character_path, emote_path, stats_path, balloon_path, icon_path,
  UserProfile, IntRow, Tables, UserManager,
}
use bn_bserver.Users.Rows.{FloatText, account_text, int_row_text, profile_text, noughts}
use bn_bserver.Users.Loaded.{file_text, IsStored, Mirrors}
use bn_bserver.Users.Sample.{ann, bob, noughts-IsInt}
use bn_bserver.Reward.{FloatMath}

-- Floats without a fraction, and their texts.
abbrev pub point_text : FloatText ℕ
point_text = record {
  float_string = to_string;
  fixed_string = to_string;
  stof = λ s. some (read_digits 0 s).0;
  nought = 0;
}

abbrev add_point : ℕ → ℤ → ℕ
add_point e (pos n) = e + n
add_point e (negsuc n) = e - n - 1

abbrev sub_point : ℕ → ℤ → ℕ
sub_point e (pos n) = e - n
sub_point e (negsuc n) = e + n + 1

abbrev ge_point : ℕ → ℤ → Bool
ge_point e (pos n) = leb n e
ge_point e (negsuc n) = true

abbrev pub points : FloatMath ℕ
points = record { add_int = add_point; sub_int = sub_point; ge_int = ge_point }

abbrev pub player : Text → ℕ → UserProfile ℕ
player id exp = record {
  id = id;
  level = pos 1;
  exp = exp;
  icon = pos 0;
  money0 = pos 100;
  money1 = pos 0;
  emo0 = pos 0;
  emo1 = pos 1;
  emo2 = pos 2;
  emo3 = pos 3;
  balloon = pos 0;
}

abbrev pub games : Text → IntRow
games id = record { id = id; values = noughts 16 }

abbrev pub players : Tables ℕ
players = record {
  users = ann ∷ bob ∷ [];
  profiles = player (codes "ann") 60 ∷ player (codes "bob") 0 ∷ [];
  characters = [];
  emotes = [];
  stats = games (codes "ann") ∷ games (codes "bob") ∷ [];
  balloons = [];
  icons = [];
}

abbrev pub player_files : Disk
player_files p =
    if p == account_path
    then some (file_text account_text (codes "id,pw,nick") players.users)
    else if p == profile_path
    then some (file_text (profile_text point_text) (codes "id,level") players.profiles)
    else if p == stats_path
    then some (file_text int_row_text (codes "id,win") players.stats)
    else if p == character_path
    then some (file_text int_row_text (codes "id") [])
    else if p == emote_path
    then some (file_text int_row_text (codes "id") [])
    else if p == balloon_path
    then some (file_text int_row_text (codes "id") [])
    else if p == icon_path
    then some (file_text int_row_text (codes "id") [])
    else none

abbrev pub arena : UserManager ℕ
arena = record {
  tables = players;
  pending = [];
  active = false;
  committed = false;
  files = player_files;
}

abbrev client : ℕ → Text → Text → Client
client socket id nickname = record { socket = socket; id = id; nickname = nickname }

abbrev pub connected : Clients
connected = record {
  clients_map =
      (codes "ann", client 1 (codes "ann") (codes "Ann"))
      ∷ (codes "bob", client 2 (codes "bob") (codes "Bob"))
      ∷ [];
  all = client 1 (codes "ann") (codes "Ann") ∷ client 2 (codes "bob") (codes "Bob") ∷ [];
}

-- A room of the two in a game, cooperative or not.
abbrev pub room : Bool → Room
room coop = record {
  room_name = codes "r1";
  map_name = codes "m";
  password = [];
  users = codes "ann" ∷ codes "bob" ∷ [];
  assigned_spawn_positions = [];
  character_selections = (codes "bob", pos 3) ∷ [];
  team_assignments = (codes "ann", codes "Blue") ∷ (codes "bob", codes "Red") ∷ [];
  match_id = 1;
  is_in_game = true;
  is_coop_mode = coop;
}

abbrev pub rooms : Bool → Manager
rooms coop = record {
  rooms = room coop ∷ [];
  next_match_id = 1;
  dead = [];
  ready = [];
  resolved = [];
}

pub players-IsStored : IsStored point_text players
unfolding has_byte noughts ◌==◌ to_string digits_onto read_digits is_digit
players-IsStored = record {
  users = (
    ((refl, refl), (refl, refl), (refl, refl), (_, _, refl)),
    (((refl, refl), (refl, refl), (refl, refl), (_, _, refl)), tt),
  );
  profiles = (
    ((refl, refl), omega arith, ((refl, refl), refl), omega arith),
    (((refl, refl), omega arith, ((refl, refl), refl), omega arith), tt),
  );
  characters = tt;
  emotes = tt;
  stats = (((refl, refl), refl, noughts-IsInt 16), (((refl, refl), refl, noughts-IsInt 16), tt));
  balloons = tt;
  icons = tt;
}

unfoldable pub players-Mirrors : Mirrors point_text player_files players
unfolding has_byte ◌==◌
players-Mirrors = record {
  users = (codes "id,pw,nick", refl, refl);
  profiles = (codes "id,level", refl, refl);
  characters = (codes "id", refl, refl);
  emotes = (codes "id", refl, refl);
  stats = (codes "id,win", refl, refl);
  balloons = (codes "id", refl, refl);
  icons = (codes "id", refl, refl);
}
