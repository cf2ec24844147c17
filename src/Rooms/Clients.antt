-- ===== src/Rooms/Clients.antt =====
-- What the room manager reads of the connections: `clientsMap` of the client handler, and the list
-- of clients of the server (TeamOFYServer/ClientHandler.cpp, Server.h). The order of `clients_map`
-- is the order in which the unordered map is walked.
use bn_bserver.Prelude.{ℕ, Option, List, [], ◌∷◌, if◌then◌else◌}
use bn_bserver.Prelude.Text.{Text, ◌==◌, trim}
use bn_bserver.Prelude.Assoc.{lookup}

-- ClientInfo
pub record Client : Type 0 where
  pub socket : ℕ
  pub id : Text
  pub nickname : Text

pub record Clients : Type 0 where
  pub clients_map : List (Text × Client)
  pub all : List Client

nickname_in : Text → Text → List (Text × Client) → Text
nickname_in trimmed default [] = default
nickname_in trimmed default ((k, c) ∷ m) =
    if c.id == trimmed then c.nickname else nickname_in trimmed default m

-- GetNicknameById: the id itself for a user who is not connected.
unfoldable pub get_nickname_by_id : Clients → Text → Text
unfolding nickname_in
get_nickname_by_id cs id = nickname_in (trim id) id cs.clients_map

unfoldable pub id_in : Text → List (Text × Client) → Text
id_in trimmed [] = []
id_in trimmed ((k, c) ∷ m) = if trim c.nickname == trimmed then c.id else id_in trimmed m

-- GetIdByNickname: empty for a nickname that nobody connected has.
unfoldable pub get_id_by_nickname : Clients → Text → Text
unfolding id_in
get_id_by_nickname cs nickname = id_in (trim nickname) cs.clients_map

unfoldable pub client_of : Clients → Text → Option Client
client_of cs id = lookup id cs.clients_map
