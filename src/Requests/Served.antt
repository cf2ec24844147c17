-- ===== src/Requests/Served.antt =====
-- The handlers of TeamOFYServer/ClientHandler.cpp about rooms change the rooms through the room manager.
use bn_bserver.Prelude.{List, [], ◌∷◌}
use bn_bserver.Prelude.Text.{Text}
use bn_bserver.Rooms.{Manager, Send}
use bn_bserver.Rooms.Clients.{Clients}
use bn_bserver.Rooms.Lobby.{exit_room}
use bn_bserver.Rooms.Match.{handle_character_choice}
use bn_bserver.Requests.{create_request, enter_request, team_request, start_request, ready_request}
use bn_bserver.Requests.Asking.{
  Message, create_message, enter_message, exit_message, choose_message, team_message, start_message,
  ready_message,
}

-- The handler of a message: the rooms after it, and what it sends.
unfoldable pub respond : Message → Manager → Manager × List Send
respond (create_message cs c input) m = create_request cs c input m
respond (enter_message cs c input) m = enter_request cs c input m
respond (exit_message cs message) m = exit_room cs message m
respond (choose_message cs input) m = handle_character_choice cs input m
respond (team_message cs nickname) m = team_request cs nickname m
respond (start_message cs c n) m = start_request cs c n m
respond (ready_message cs nickname) m = ready_request cs nickname m

unfoldable pub respond_all : List Message → Manager → Manager
respond_all [] m = m
respond_all (x ∷ xs) m = respond_all xs (respond x m).0
