-- ===== src/Rooms/Tests.antt =====
-- Requests of two players, ann and bob, run through the room manager.
use bn_bserver.Prelude.{
  ℕ, ◌≤◌, ◌<◌, ◌+◌, ◌≡◌, refl, true, false, none, some, List, [], ◌∷◌, arith, map,
}
use bn_bserver.Prelude.Text.{codes, ◌==◌}
use bn_bserver.Prelude.Assoc.{lookup}
use bn_bserver.Rooms.{Room, Manager, no_rooms, find_room, named, member}
use bn_bserver.Rooms.Clients.{Client, Clients}
use bn_bserver.Rooms.Messages.{display_name}
use bn_bserver.Rooms.Match.{try_start_game, record_death, retry_death, noted, next_id}
use bn_bserver.Rooms.Membership.{IsValid, no_rooms-IsValid}
use bn_bserver.Rooms.Counting.{names}
use bn_bserver.Rooms.Requests.{
  Request, create, enter, start, death, exit, serve_all, serve_all-IsValid,
}
use bn_bserver.Rooms.Deaths.{
  decisions, decisions-once, try_start_game-fresh, retry_death-stale, retry_death-undoes,
}

abbrev ann : Client
ann = record { socket = 7; id = codes "ann"; nickname = codes "Ann" }

abbrev bob : Client
bob = record { socket = 8; id = codes "bob"; nickname = codes "Bob" }

abbrev both : Clients
both = record { clients_map = (codes "ann", ann) ∷ (codes "bob", bob) ∷ []; all = ann ∷ bob ∷ [] }

abbrev requests : List Request
requests =
    create both ann (codes "den") (codes "Forest") [] false
    ∷ enter both bob (codes "den") []
    ∷ start both (codes "den")
    ∷ death (codes "bob")
    ∷ exit both (codes "EXIT_ROOM|den|Bob\n")
    ∷ []

serve_all-IsValid_example : IsValid (serve_all requests no_rooms)
serve_all-IsValid_example = serve_all-IsValid requests no_rooms no_rooms-IsValid

abbrev waiting : Room
waiting = record {
  room_name = codes "den";
  map_name = codes "Forest";
  password = [];
  users = codes "ann" ∷ codes "bob" ∷ [];
  assigned_spawn_positions = [];
  character_selections = [];
  team_assignments = [];
  match_id = 3;
  is_in_game = false;
  is_coop_mode = false;
}

-- The room before its fourth match, with what its third one left.
abbrev before : Manager
before = record {
  rooms = waiting ∷ [];
  next_match_id = 3;
  dead = (codes "den", codes "bob" ∷ []) ∷ [];
  ready = [];
  resolved = codes "den" ∷ [];
}

abbrev playing : Manager
playing = record before {
  rooms = record waiting { is_in_game = true; match_id = 4 } ∷ [];
  next_match_id = 4;
  dead = [];
  resolved = [];
}

decisions-once_example :
    decisions (codes "den") (codes "ann" ∷ codes "bob" ∷ codes "ann" ∷ []) playing ≤ 1
decisions-once_example =
    decisions-once (codes "den") (codes "ann" ∷ codes "bob" ∷ codes "ann" ∷ []) playing

try_start_game-fresh_example :
    (find_room (named (codes "den")) (try_start_game both (codes "den") before).0.rooms
      ≡ some (record waiting { is_in_game = true; match_id = next_id before }))
    × (noted (codes "den") (try_start_game both (codes "den") before).0.dead ≡ [])
    × (noted (codes "den") (try_start_game both (codes "den") before).0.ready ≡ [])
    × (member (codes "den") (try_start_game both (codes "den") before).0.resolved ≡ false)
    × ((try_start_game both (codes "den") before).1 ≡ some (map (display_name both) waiting.users))
unfolding find_room ◌==◌
try_start_game-fresh_example =
    try_start_game-fresh both (codes "den") waiting before refl refl (omega arith)

retry_death-stale_example :
    retry_death waiting (codes "bob") (try_start_game both (codes "den") before).0
    ≡ (try_start_game both (codes "den") before).0
unfolding find_room ◌==◌
retry_death-stale_example =
    retry_death-stale both (codes "den") (codes "bob") waiting waiting before refl refl
      (omega arith) refl (omega arith) (omega arith)

abbrev fighting : Room
fighting = record waiting { is_in_game = true; match_id = 4 }

retry_death-undoes_example :
    (noted
        (codes "den")
        (retry_death fighting (codes "bob") (record_death (codes "bob") playing).0).dead
      ≡ noted (codes "den") playing.dead)
    × (member (codes "den") playing.resolved ≡ false)
    × (member
          (codes "den")
          (retry_death fighting (codes "bob") (record_death (codes "bob") playing).0).resolved
        ≡ false)
unfolding names record_death find_room member noted lookup ◌==◌
retry_death-undoes_example = retry_death-undoes (codes "bob") fighting playing (omega arith) refl

-- Two deaths of two players: the first one decides.
decisions_two : decisions (codes "den") (codes "ann" ∷ codes "bob" ∷ []) playing ≡ 1
unfolding decisions record_death find_room member noted lookup ◌==◌ bn_bserver.Rooms.Deaths.decides
    bn_bserver.Rooms.Match.decided bn_bserver.Prelude.Assoc.insert
decisions_two = refl
