-- ===== src/Rooms/Relay.antt =====
-- Chat and other messages that a room passes on to its users (TeamOFYServer/RoomManager.cpp).
use bn_bserver.Prelude.{ℕ, ◌&&◌, Option, none, some, List, [], ◌∷◌, ◌++◌, eqb, if◌then◌else◌, map}
use bn_bserver.Prelude.Text.{Text, codes, has_byte, before_byte, after_byte}
use bn_bserver.Rooms.{Manager, Send, find_room, named, holds, users_or_none}
use bn_bserver.Rooms.Clients.{Client, Clients, client_of}
use bn_bserver.Rooms.Messages.{joined, framed, send_to_users}

chat : Clients → Text → Text → Manager → List Send
chat cs n text m =
    send_to_users cs (codes "ROOM_CHAT|" ++ (n ++ (codes "|" ++ (text ++ codes "\n"))))
      (users_or_none (find_room (named n) m.rooms))

-- HandleRoomChatMessage("room:nickname:text"): nothing without the two colons.
unfoldable pub handle_room_chat_message : Clients → Text → Manager → List Send
unfolding chat
handle_room_chat_message cs input m =
    if has_byte b':' input && has_byte b':' (after_byte b':' input)
    then chat cs (before_byte b':' input) (after_byte b':' input) m
    else []

-- SendServerMessageToRoom
unfoldable pub send_server_message_to_room : Clients → Text → Text → Manager → List Send
unfolding chat
send_server_message_to_room cs n message m = chat cs n (codes "Server:" ++ message) m

with_one : Text → Text
with_one u = u ++ codes ",1"

-- GetGameUserListResponse: the ids of the room's users, each with a 1.
unfoldable pub get_game_user_list_response : Text → Manager → Text
unfolding with_one
get_game_user_list_response n m =
    codes "GAME_USER_LIST|"
    ++ (joined (codes ";") (map with_one (users_or_none (find_room (named n) m.rooms)))
        ++ codes "\n")

-- BroadcastToUserRoom: to the users of the sender's room, the sender with them.
unfoldable pub broadcast_to_user_room : Clients → Text → Text → Manager → List Send
broadcast_to_user_room cs sender message m =
    send_to_users cs message (users_or_none (find_room (holds sender) m.rooms))

unfoldable pub except_send : ℕ → Text → Option Client → List Send → List Send
except_send except message none rest = rest
except_send except message (some c) rest =
    if eqb c.socket except then rest else record { socket = c.socket; message = message } ∷ rest

unfoldable pub send_except : Clients → ℕ → Text → List Text → List Send
send_except cs except message [] = []
send_except cs except message (u ∷ us) =
    except_send except message (client_of cs u) (send_except cs except message us)

-- BroadcastToRoomExcept: to the users of the sender's room, less one socket.
unfoldable pub broadcast_to_room_except : Clients → Text → ℕ → Text → Manager → List Send
unfolding send_except except_send
broadcast_to_room_except cs sender except message m =
    send_except cs except (framed message) (users_or_none (find_room (holds sender) m.rooms))
