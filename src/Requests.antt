-- ===== src/Requests.antt =====
-- Requests about rooms: the handlers CREATE_ROOM, ENTER_ROOM, TEAMCHANGE, START_GAME, GET_MAP and READY_TO_EXIT
-- of TeamOFYServer/ClientHandler.cpp, each behind the head of its message. Between two calls of the room
-- manager nobody else changes the rooms.
pub mod Asking
pub mod Map
pub mod Served
pub mod Tests
use bn_bserver.Prelude.{
  ℕ, ◌+◌, Bool, true, false, not, ◌&&◌, ◌||◌, Option, none, some, List, [], ◌∷◌, ◌++◌,
  if◌then◌else◌, leb, ltb, eqb, length, map,
}
use bn_bserver.Prelude.Text.{Text, codes, ◌==◌, getline, line_or_empty}
use bn_bserver.Prelude.Assoc.{lookup}
use bn_bserver.Prelude.Int.{int_string}
use bn_bserver.Rooms.{
  Room, Manager, Send, find_room_by_name, get_user_room_id, get_user_ids_in_room,
}
use bn_bserver.Rooms.Clients.{Client, Clients, get_id_by_nickname, client_of}
use bn_bserver.Rooms.Messages.{or_none, display_name, character_of, joined, add_send}
use bn_bserver.Rooms.Lobby.{create_room, enter_room}
use bn_bserver.Rooms.Match.{
  Teams, try_start_game, try_start_coop_game, change_team, handle_ready_to_exit,
}
use bn_bserver.Rooms.Relay.{broadcast_to_user_room, send_server_message_to_room}
use bn_bserver.Users.Register.{is_empty}
use bn_bserver.Shop.{user_of, to_client}

-- tolower of the C locale
to_lower : ℕ → ℕ
to_lower c = if leb 65 c && leb c 90 then c + 32 else c

unfoldable pub is_coop : Option (Text × Text) → Bool
unfolding to_lower
is_coop none = false
is_coop (some (word, _)) = map to_lower word == codes "true" || map to_lower word == codes "1"

create_map : Clients → Client → Text → Option (Text × Text) → Manager → Manager × List Send
create_map cs c room_name none m = (m, [])
create_map cs c room_name (some (map_name, rest)) m =
    let (password, rest') = line_or_empty (getline b'|' rest) in
    let (m', sends, _) =
      create_room cs c room_name map_name password (is_coop (getline b'|' rest')) m in
    (m', sends)

create_name : Clients → Client → Option (Text × Text) → Manager → Manager × List Send
create_name cs c none m = (m, [])
create_name cs c (some (room_name, rest)) m = create_map cs c room_name (getline b'|' rest) m

-- CREATE_ROOM. The answer to a message without its fields is set and not sent.
unfoldable pub create_request : Clients → Client → Text → Manager → Manager × List Send
unfolding create_name create_map
create_request cs c input m = create_name cs c (getline b'|' input) m

-- ENTER_ROOM; its third field has no effect.
unfoldable pub enter_request : Clients → Client → Text → Manager → Manager × List Send
enter_request cs c input m =
    let (room_name, rest) = line_or_empty (getline b'|' input) in
    let (password, _) = line_or_empty (getline b'|' rest) in
    let (m', sends, response, _) = enter_room cs c room_name password m in
    (m', sends ++ to_client c response)

-- An entry of REFRESH_ROOM_SUCCESS.
unfoldable pub team_entry : Clients → Room → Text → Text
team_entry cs r u =
    display_name cs u
    ++ b':' ∷ (int_string (character_of r u) ++ b':' ∷ or_none (lookup u r.team_assignments))

unfoldable pub team_changed :
    Clients → Text → Text → Text → Option Room → Manager → Manager × List Send
team_changed cs nickname u n none m = (m, [])
team_changed cs nickname u n (some r) m = (
  m,
  broadcast_to_user_room cs u
        (codes "REFRESH_ROOM_SUCCESS|"
          ++ (r.room_name
              ++ b'|'
                ∷ (r.map_name
                    ++ b'|'
                      ∷ (joined (codes ",") (map (team_entry cs r) (get_user_ids_in_room n m))
                          ++ codes "\n"))))
        m
      ++ send_server_message_to_room cs r.room_name
          (nickname ++ (codes " has been changed to " ++ or_none (lookup u r.team_assignments))) m,
)

-- TEAMCHANGE
unfoldable pub team_request : Clients → Text → Manager → Manager × List Send
team_request cs nickname m =
    let u = get_id_by_nickname cs nickname in
    let n = get_user_room_id u m in
    let (m', changed) = change_team u m in
    if is_empty u || is_empty n then (m, []) else team_changed cs nickname u n changed m'

-- What a failed start answers, by the users that the room manager has listed.
unfoldable pub start_refusal : List Text → Text
start_refusal [] = codes "START_GAME_FAIL|ROOM_NOT_FOUND\n"
start_refusal (u ∷ us) = codes "START_GAME_FAIL|NOT_ENOUGH_PLAYERS\n"

unfoldable pub coop_refusal : List Text → Text
coop_refusal [] = codes "START_GAME_FAIL|ROOM_NOT_FOUND222\n"
coop_refusal (u ∷ us) =
    if ltb (length (u ∷ us)) 4
    then codes "START_GAME_FAIL|NOT_ENOUGH_PLAYERS\n"
    else codes "START_GAME_FAIL|INVALID_TEAM_COMPOSITION\n"

-- What TryStartCoopGame leaves in its list of users when it fails: the users, if it came to their teams.
unfoldable pub listed_users : Clients → Room → List Text
listed_users cs r =
    if r.is_in_game || not (eqb (length r.users) 4) then [] else map (display_name cs) r.users

unfoldable pub start_sends : Clients → Text → List Text → List Send
start_sends cs n [] = []
start_sends cs n (nickname ∷ names) =
    add_send (codes "GAME_START|" ++ (n ++ codes "\n"))
      (client_of cs (get_id_by_nickname cs nickname)) (start_sends cs n names)

-- The end of START_GAME, by the users of a started game or the refusal.
unfoldable pub start_answer :
    Clients → Client → Text → Text → Manager × Option (List Text) → Manager × List Send
start_answer cs c n refusal (m, none) = (m, to_client c refusal)
start_answer cs c n refusal (m, some names) =
    (m, to_client c (codes "START_GAME_SUCCESS|" ++ (n ++ codes "\n")) ++ start_sends cs n names)

abbrev user_lists : Manager × Option Teams → Manager × Option (List Text)
user_lists (m, none) = (m, none)
user_lists (m, some teams) = (m, some teams.user_list)

unfoldable pub start_in : Clients → Client → Text → Option Room → Manager → Manager × List Send
start_in cs c n none m = (m, to_client c (codes "START_GAME_FAIL|ROOM_NOT_FOUND\n"))
start_in cs c n (some r) m =
    if r.is_coop_mode
    then start_answer cs c n (coop_refusal (listed_users cs r))
        (user_lists (try_start_coop_game cs n m))
    else start_answer cs c n (start_refusal []) (try_start_game cs n m)

-- START_GAME
unfoldable pub start_request : Clients → Client → Text → Manager → Manager × List Send
start_request cs c n m = start_in cs c n (find_room_by_name n m) m

-- READY_TO_EXIT
unfoldable pub ready_request : Clients → Text → Manager → Manager × List Send
ready_request cs nickname m =
    let u = user_of cs nickname in
    let n = get_user_room_id u m in
    let (m', sends, _) = handle_ready_to_exit cs u n m in
    if is_empty n then (m, []) else (m', sends)
