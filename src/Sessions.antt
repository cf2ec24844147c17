-- ===== src/Sessions.antt =====
-- Login sessions: LOGIN and the end of a connection in TeamOFYServer/ClientHandler.cpp, LogoutUser in
-- TeamOFYServer/UserManager.cpp and RemoveClient in TeamOFYServer/Server.cpp.
--
-- A ClientInfo is shared by pointers: here by its number in `objects`, with the id and the nickname
-- that the code changes. `clients_map` is clientsMap, `connected` the vector of the server, and
-- `leaving` the variable `userId` of LogoutUser in the thread of each connection, empty outside of it.
-- What a mutex guards is one step. The lists that LogoutUser broadcasts are in the user manager.
pub mod Pairing
pub mod Tests
use bn_bserver.Prelude.{
  ℕ, Bool, true, false, not, ◌||◌, ◌≡◌, ◌++◌, Option, none, some, List, [], ◌∷◌, if◌then◌else◌, eqb,
}
use bn_bserver.Prelude.Text.{
  Text, codes, ◌==◌, has_byte, before_byte, after_byte, getline, line_or_empty, trim,
}
use bn_bserver.Prelude.Assoc.{lookup, insert, erase}
use bn_bserver.Users.{UserAccount}
use bn_bserver.Users.Register.{is_empty}
use bn_bserver.Users.Query.{check_login}

pub record Names : Type 0 where
  pub id : Text
  pub nickname : Text

pub record Sessions : Type 0 where
  pub objects : ℕ → Names
  pub clients_map : List (Text × ℕ)
  pub connected : List ℕ
  pub leaving : ℕ → Text

-- What is assigned to an object.
unfoldable pub assign : {A : Type 0} → ℕ → A → (ℕ → A) → ℕ → A
assign c a f other = if eqb c other then a else f other

-- s.rfind(p, 0) == 0
unfoldable pub starts_with : Text → Text → Bool
starts_with [] s = true
starts_with (p ∷ ps) [] = false
starts_with (p ∷ ps) (c ∷ s) = let rest = starts_with ps s in if eqb p c then rest else false

unfoldable pub is_in : {V : Type 0} → Option V → Bool
is_in none = false
is_in (some v) = true

abbrev pub already : Text
already = codes "ALREADY_LOGGED_IN|\n"

-- Behind an answer of CheckLogin: a success is parsed again and becomes a session.
unfoldable pub open_session : ℕ → Text → Sessions → Sessions × Text
open_session c response s =
    let (id, rest) = line_or_empty (getline b',' (after_byte b'|' response)) in
    let (password, rest') = line_or_empty (getline b',' rest) in
    let (nickname, _) = line_or_empty (getline 10 rest') in
    if starts_with (codes "LOGIN_SUCCESS|") response
    then if not (is_empty (s.objects c).id) || is_in (lookup id s.clients_map)
      then (s, already)
      else (
        record s {
          objects = assign c (record { id = id; nickname = trim nickname }) s.objects;
          clients_map = insert id c s.clients_map;
        },
        response,
      )
    else (s, response)

-- LOGIN, behind its head: the new state and what the client is sent.
unfoldable pub login : List UserAccount → ℕ → Text → Sessions → Sessions × Text
login users c input s =
    let split = has_byte b',' input in
    let id = if split then before_byte b',' input else [] in
    let pw = if split then after_byte b',' input else [] in
    if is_in (lookup id s.clients_map)
    then (s, already)
    else open_session c (check_login id pw users) s

-- The two critical sections of LogoutUser: the id is cleared and kept in `userId`, then the session of
-- that id is removed (RemoveLoginSession).
unfoldable pub clear_id : ℕ → Sessions → Sessions
clear_id c s = record s {
  objects = assign c (record { id = []; nickname = (s.objects c).nickname }) s.objects;
  leaving = assign c (s.objects c).id s.leaving;
}

unfoldable pub remove_login_session : ℕ → Sessions → Sessions
remove_login_session c s = record s {
  clients_map = if is_empty (s.leaving c) then s.clients_map else erase (s.leaving c) s.clients_map;
  leaving = assign c [] s.leaving;
}

-- LogoutUser
unfoldable pub logout_user : ℕ → Sessions → Sessions
logout_user c s = remove_login_session c (clear_id c s)

-- RemoveClient
unfoldable pub remove_all : ℕ → List ℕ → List ℕ
remove_all c [] = []
remove_all c (d ∷ ds) = let rest = remove_all c ds in if eqb d c then rest else d ∷ rest

unfoldable pub remove_client : ℕ → Sessions → Sessions
remove_client c s = record s { connected = remove_all c s.connected }

-- OnClientDisconnected, without the rooms.
unfoldable pub on_client_disconnected : ℕ → Sessions → Sessions
on_client_disconnected c s =
    remove_client c (if is_empty (s.objects c).id then s else logout_user c s)

-- A new connection in the vector of the server.
unfoldable pub accept : ℕ → Sessions → Sessions
accept c s = record s { connected = s.connected ++ c ∷ [] }

-- The steps of the threads, LOGIN also with other steps between its first look at the map and its
-- session, on the accounts of that moment. A ClientInfo without an id is ready for each new
-- connection. A thread logs in only while it is not in LogoutUser.
pub data Step : Sessions → Sessions → Type 0 where
  logs_in :
      (users : List UserAccount) (s : Sessions) (c : ℕ) (input : Text)
      → is_empty (s.leaving c) ≡ true
      → Step s (login users c input s).0
  opens :
      (users : List UserAccount) (s : Sessions) (c : ℕ) (id pw : Text)
      → is_empty (s.leaving c) ≡ true
      → Step s (open_session c (check_login id pw users) s).0
  clears : (s : Sessions) (c : ℕ) → is_empty (s.leaving c) ≡ true → Step s (clear_id c s)
  removes : (s : Sessions) (c : ℕ) → Step s (remove_login_session c s)
  connects : (s : Sessions) (c : ℕ) → Step s (accept c s)
  drops : (s : Sessions) (c : ℕ) → Step s (remove_client c s)

pub data Run : Sessions → Sessions → Type 0 where
  stays : (s : Sessions) → Run s s
  goes : (s t r : Sessions) → Run s t → Step t r → Run s r
