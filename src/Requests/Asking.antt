-- ===== src/Requests/Asking.antt =====
-- Messages about rooms, as TeamOFYServer/ClientHandler.cpp reads them, and what they ask of the room manager.
use bn_bserver.Prelude.{◌≡◌, true, false, none, some, List, [], ◌∷◌, ◌++◌}
use bn_bserver.Prelude.Text.{Text, codes, has_byte}
use bn_bserver.Rooms.{Room, Manager, find_room_by_name, get_user_room_id}
use bn_bserver.Rooms.Clients.{Client, Clients, get_id_by_nickname}
use bn_bserver.Rooms.Requests.{
  Request, create, enter, exit, start, start_coop, ready_to_exit, team, choose, serve,
}
use bn_bserver.Users.Register.{is_empty}
use bn_bserver.Shop.{user_of}

-- A message about rooms, with the clients connected then.
pub data Message : Type 0 where
  create_message : Clients → Client → Text → Message
  enter_message : Clients → Client → Text → Message
  exit_message : Clients → Text → Message
  choose_message : Clients → Text → Message
  team_message : Clients → Text → Message
  start_message : Clients → Client → Text → Message
  ready_message : Clients → Text → Message

-- What a message asks of the room manager: the fields between the bars are its arguments, and START_GAME asks for a
-- start in the mode of the room.
pub data Asks (m : Manager) : Message → Request → Type 0 where
  asks_coop_room :
      (cs : Clients) (c : Client) (n map_name password : Text)
      → has_byte b'|' n ≡ false
      → has_byte b'|' map_name ≡ false
      → has_byte b'|' password ≡ false
      → Asks m
          (create_message cs c (n ++ b'|' ∷ (map_name ++ b'|' ∷ (password ++ b'|' ∷ codes "1"))))
          (create cs c n map_name password true)
  asks_room :
      (cs : Clients) (c : Client) (n map_name password : Text)
      → has_byte b'|' n ≡ false
      → has_byte b'|' map_name ≡ false
      → has_byte b'|' password ≡ false
      → Asks m
          (create_message cs c (n ++ b'|' ∷ (map_name ++ b'|' ∷ (password ++ b'|' ∷ codes "0"))))
          (create cs c n map_name password false)
  asks_enter :
      (cs : Clients) (c : Client) (n password : Text)
      → has_byte b'|' n ≡ false
      → has_byte b'|' password ≡ false
      → Asks m (enter_message cs c (n ++ b'|' ∷ (password ++ codes "|"))) (enter cs c n password)
  asks_exit : (cs : Clients) (input : Text) → Asks m (exit_message cs input) (exit cs input)
  asks_choice : (cs : Clients) (input : Text) → Asks m (choose_message cs input) (choose cs input)
  asks_team :
      (cs : Clients) (nickname : Text)
      → is_empty (get_id_by_nickname cs nickname) ≡ false
      → is_empty (get_user_room_id (get_id_by_nickname cs nickname) m) ≡ false
      → Asks m (team_message cs nickname) (team (get_id_by_nickname cs nickname))
  asks_start :
      (cs : Clients) (c : Client) (n : Text) (r : Room)
      → find_room_by_name n m ≡ some r
      → r.is_coop_mode ≡ false
      → Asks m (start_message cs c n) (start cs n)
  asks_coop_start :
      (cs : Clients) (c : Client) (n : Text) (r : Room)
      → find_room_by_name n m ≡ some r
      → r.is_coop_mode ≡ true
      → Asks m (start_message cs c n) (start_coop cs n)
  asks_ready :
      (cs : Clients) (nickname : Text)
      → is_empty (get_user_room_id (user_of cs nickname) m) ≡ false
      → Asks m
          (ready_message cs nickname)
          (ready_to_exit cs (user_of cs nickname) (get_user_room_id (user_of cs nickname) m))

-- Messages that ask for nothing: CREATE_ROOM with a name alone, TEAMCHANGE for a nickname that nobody has or for a user
-- in no room, START_GAME for a room that is not there, READY_TO_EXIT for a user in no room.
pub data Silent (m : Manager) : Message → Type 0 where
  mapless_room :
      (cs : Clients) (c : Client) (n : Text)
      → has_byte b'|' n ≡ false
      → Silent m (create_message cs c n)
  unknown_user :
      (cs : Clients) (nickname : Text)
      → is_empty (get_id_by_nickname cs nickname) ≡ true
      → Silent m (team_message cs nickname)
  homeless_user :
      (cs : Clients) (nickname : Text)
      → is_empty (get_id_by_nickname cs nickname) ≡ false
      → is_empty (get_user_room_id (get_id_by_nickname cs nickname) m) ≡ true
      → Silent m (team_message cs nickname)
  unknown_room :
      (cs : Clients) (c : Client) (n : Text)
      → find_room_by_name n m ≡ none
      → Silent m (start_message cs c n)
  not_in_room :
      (cs : Clients) (nickname : Text)
      → is_empty (get_user_room_id (user_of cs nickname) m) ≡ true
      → Silent m (ready_message cs nickname)

-- Messages in a row, some silent, each other one asking for the request beside it when the requests before it are served.
pub data AskInTurn : Manager → List Message → List Request → Type 0 where
  asks_nothing : (m : Manager) → AskInTurn m [] []
  keeps_silent :
      (m : Manager) (x : Message) (xs : List Message) (qs : List Request)
      → Silent m x
      → AskInTurn m xs qs
      → AskInTurn m (x ∷ xs) qs
  asks_next :
      (m : Manager) (x : Message) (q : Request) (xs : List Message) (qs : List Request)
      → Asks m x q
      → AskInTurn (serve q m) xs qs
      → AskInTurn m (x ∷ xs) (q ∷ qs)
