-- ===== src/Rooms/Lobby.antt =====
-- Creating, entering and leaving rooms.
use bn_bserver.Prelude.{
  ℕ, ◌%◌, Bool, true, false, ◌&&◌, ◌||◌, not, Option, none, some, List, [], ◌∷◌, ◌++◌, eqb, leb,
  if◌then◌else◌, map, length, drop,
}
use bn_bserver.Prelude.Text.{Text, codes, ◌==◌, trim, getline, line_or_empty}
use bn_bserver.Prelude.Assoc.{insert, erase}
use bn_bserver.Prelude.Int.{int_string}
use bn_bserver.Rooms.{
  Room, Manager, Send, member, without, find_room, replace_room, remove_room, named, holds,
  get_user_ids_in_room,
}
use bn_bserver.Rooms.Clients.{Client, Clients, get_id_by_nickname}
use bn_bserver.Rooms.Messages.{
  is_empty, user_list, joined, display_name, character_of, flag, send_room_list,
  broadcast_message_except, send_to_users,
}

abbrev pub max_users : ℕ
max_users = 4

abbrev send_to : Client → Text → Send
send_to c message = record { socket = c.socket; message = message }

-- The loop in front of CreateRoom: a room of that name, or one that holds the user.
unfoldable pub taken : Text → Text → List Room → Bool
taken room_name id [] = false
taken room_name id (r ∷ rs) = (named room_name r || holds id r) || taken room_name id rs

unfoldable pub new_room : Text → Text → Text → Text → Bool → Room
new_room id room_name map_name password coop = record {
  room_name = room_name;
  map_name = map_name;
  password = password;
  users = id ∷ [];
  assigned_spawn_positions = [];
  character_selections = [];
  team_assignments = if coop then insert id (codes "Blue") [] else [];
  match_id = 0;
  is_in_game = false;
  is_coop_mode = coop;
}

password_word : Text → Text
password_word password = if is_empty password then codes "NO_PASSWORD" else codes "HAS_PASSWORD"

-- The common end of the answers of CreateRoom and EnterRoom.
room_tail : Clients → Room → Text → Text
unfolding password_word
room_tail cs r password =
    user_list cs r
    ++ (codes "|" ++ (password_word password ++ (codes "|" ++ (flag r.is_coop_mode ++ codes "\n"))))

-- CreateRoom: the new state, the messages, and whether it returns true.
unfoldable pub create_room :
    Clients → Client → Text → Text → Text → Bool → Manager → Manager × List Send × Bool
unfolding taken new_room room_tail
create_room cs client room_name map_name password coop m =
    if is_empty client.id
    then (m, send_to client (codes "ERROR|LOGIN_REQUIRED\n") ∷ [], false)
    else if taken room_name client.id m.rooms
    then (m, [], false)
    else (let r = new_room client.id room_name map_name password coop in
        let heading = room_name ++ (codes "|" ++ (map_name ++ codes "|")) in
        (
          record m { rooms = m.rooms ++ r ∷ [] },
          send_to client (
                codes "CREATE_ROOM_SUCCESS|"
                ++ (heading ++ (codes "CREATOR|" ++ room_tail cs r password)))
              ∷ broadcast_message_except client.socket
                  (codes "ROOM_CREATED|" ++ (heading ++ room_tail cs r password)) cs.all,
          true,
        ))

-- The room behind a user's entry. The team goes by the place in the list.
unfoldable pub joined_room : Text → Room → Room
joined_room id r = record r {
  users = r.users ++ id ∷ [];
  team_assignments =
      if r.is_coop_mode
      then insert id (if eqb (length r.users % 2) 0 then codes "Blue" else codes "Red")
          r.team_assignments
      else r.team_assignments;
}

unfoldable pub entered :
    Clients → Client → Text → Room → Manager → Manager × List Send × Text × Bool
unfolding room_tail
entered cs client room_name r m =
    let heading = room_name ++ (codes "|" ++ (r.map_name ++ codes "|")) in
    (
      record m { rooms = replace_room (named room_name) r m.rooms },
      broadcast_message_except client.socket
          (codes "REFRESH_ROOM_SUCCESS|" ++ (heading ++ (user_list cs r ++ codes "\n"))) cs.all,
      codes "ENTER_ROOM_SUCCESS|" ++ (heading ++ room_tail cs r r.password),
      true,
    )

-- EnterRoom behind the search for the room.
unfoldable pub enter_found :
    Clients → Client → Text → Text → Option Room → Manager → Manager × List Send × Text × Bool
enter_found cs client room_name password none m =
    (m, [], codes "ENTER_ROOM_FAILED|ROOM_NOT_FOUND\n", false)
enter_found cs client room_name password (some r) m =
    if not (is_empty r.password) && not (r.password == password)
    then (m, [], codes "ENTER_ROOM_FAILED|WRONG_PASSWORD\n", false)
    else if r.is_in_game
    then (m, [], codes "ENTER_ROOM_FAILED|ALREADY_IN_GAME\n", false)
    else if leb max_users (length r.users)
    then (m, [], codes "ENTER_ROOM_FAIL|ROOM_FULL\n", false)
    else entered cs client room_name (joined_room client.id r) m

abbrev pub is_some : Option Room → Bool
is_some none = false
is_some (some r) = true

-- EnterRoom: the new state, the messages to others, the response and the result.
unfoldable pub enter_room :
    Clients → Client → Text → Text → Manager → Manager × List Send × Text × Bool
unfolding enter_found entered joined_room room_tail
enter_room cs client room_name password m =
    if is_empty client.id
    then (m, [], codes "ERROR|LOGIN_REQUIRED\n", false)
    else if is_some (find_room (holds client.id) m.rooms)
    then (m, [], codes "ENTER_ROOM_FAIL|ALREADY_IN_ROOM\n", false)
    else enter_found cs client room_name password (find_room (named room_name) m.rooms) m

-- An empty room goes, and what was noted of its match.
unfoldable pub delete_room : (Room → Bool) → Text → Manager → Manager
delete_room p room_name m = record m {
  rooms = remove_room p m.rooms;
  dead = erase room_name m.dead;
  ready = erase room_name m.ready;
  resolved = without room_name m.resolved;
}

-- `room.users.empty()`
abbrev pub nobody : List Text → Bool
nobody [] = true
nobody (u ∷ us) = false

-- "nickname:character", without the team
unfoldable pub plain_entry : Clients → Room → Text → Text
plain_entry cs r u = display_name cs u ++ (codes ":" ++ int_string (character_of r u))

abbrev room_lists : Clients → Manager → List Send
room_lists cs m = map (send_room_list m) cs.all

-- ExitRoom behind its parsing: the found room without the user.
unfoldable pub exit_found : Clients → Text → Text → Option Room → Manager → Manager × List Send
exit_found cs room_name user_id none m = (m, [])
exit_found cs room_name user_id (some r) m =
    if member user_id r.users
    then (let r' = record r { users = without user_id r.users } in
        let gone = delete_room (named room_name) r.room_name m in
        if nobody r'.users then (gone, room_lists cs gone) else (
          record m { rooms = replace_room (named room_name) r' m.rooms },
          send_to_users cs
              (codes "REFRESH_ROOM_SUCCESS|"
                ++ (room_name
                    ++ (codes "|"
                        ++ (r'.map_name
                            ++ (codes "|"
                                ++ (joined (codes ",") (map (plain_entry cs r') r'.users)
                                    ++ codes "\n"))))))
              r'.users,
        ))
    else (m, [])

-- ExitRoom("EXIT_ROOM|room|nickname"); the prefix has ten bytes. The user's character and team stay.
unfoldable pub exit_room : Clients → Text → Manager → Manager × List Send
unfolding exit_found delete_room plain_entry
exit_room cs message m =
    let (room_name, rest) = line_or_empty (getline b'|' (drop 10 message)) in
    let (nickname, _) = line_or_empty (getline 10 rest) in
    let user_id = trim (get_id_by_nickname cs nickname) in
    exit_found cs room_name user_id (find_room (named room_name) m.rooms) m

-- The room without a user who is forced out.
unfoldable pub expelled : Text → Room → Room
expelled user_id r = record r {
  users = without user_id r.users;
  character_selections = erase user_id r.character_selections;
  team_assignments = erase user_id r.team_assignments;
}

unfoldable pub force_found : Clients → Text → Option Room → Manager → Manager × List Send
force_found cs user_id none m = (m, [])
force_found cs user_id (some r) m =
    let r' = expelled user_id r in
    let gone = delete_room (holds user_id) r.room_name m in
    let m' = record m { rooms = replace_room (holds user_id) r' m.rooms } in
    if nobody r'.users then (gone, room_lists cs gone) else (
      m',
      send_to_users cs
          (codes "REFRESH_ROOM_SUCCESS|"
            ++ (r.room_name ++ (codes "|" ++ (user_list cs r' ++ codes "\n"))))
          (get_user_ids_in_room r.room_name m'),
    )

-- ForceExitRoomByUserId
unfoldable pub force_exit_room_by_user_id : Clients → Text → Manager → Manager × List Send
unfolding force_found delete_room expelled
force_exit_room_by_user_id cs user_id m =
    force_found cs user_id (find_room (holds user_id) m.rooms) m
