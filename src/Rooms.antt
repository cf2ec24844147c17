-- ===== src/Rooms.antt =====
-- RoomManager (TeamOFYServer/RoomManager.h and .cpp, Room.h): the rooms and the state of their
-- matches. The operations and the proofs are in the modules below.
--
-- Each operation changes the state in one stretch under `roomsMutex`, so an operation is a function
-- from the state to the new state and the messages that it queues, in order: `Send` is a call of
-- QueueSend, whose failure is only logged. Log output is not modelled.
pub mod Clients
pub mod Messages
pub mod Lobby
pub mod Match
pub mod Relay
pub mod Counting
pub mod Membership
pub mod Visits
pub mod Steps
pub mod Requests
pub mod Deaths
pub mod Tests
use bn_bserver.Prelude.{
  ℕ, Bool, true, false, ◌&&◌, ◌||◌, Option, none, some, List, [], ◌∷◌, if◌then◌else◌,
}
use bn_bserver.Prelude.Text.{Text, ◌==◌}
use bn_bserver.Prelude.Int.{ℤ}

pub record Room : Type 0 where
  pub room_name : Text
  pub map_name : Text
  pub password : Text
  pub users : List Text
  pub assigned_spawn_positions : List (ℤ × ℤ)
  pub character_selections : List (Text × ℤ)
  pub team_assignments : List (Text × Text)
  pub match_id : ℕ
  pub is_in_game : Bool
  pub is_coop_mode : Bool

-- `rooms`, `nextMatchId_`, `deadUsersByRoom`, `readyUsersByRoom` and `resolvedRooms_`
pub record Manager : Type 0 where
  pub rooms : List Room
  pub next_match_id : ℕ
  pub dead : List (Text × List Text)
  pub ready : List (Text × List Text)
  pub resolved : List Text

abbrev pub no_rooms : Manager
no_rooms = record { rooms = []; next_match_id = 0; dead = []; ready = []; resolved = [] }

-- QueueSend(socket, message)
pub record Send : Type 0 where
  pub socket : ℕ
  pub message : Text

-- std::find over strings
unfoldable pub member : Text → List Text → Bool
member u [] = false
member u (x ∷ xs) = x == u || member u xs

-- std::remove and erase
unfoldable pub without : Text → List Text → List Text
without u [] = []
without u (x ∷ xs) = let rest = without u xs in if x == u then rest else x ∷ rest

-- The first room that passes the test, the rooms with that one replaced, and without it.
unfoldable pub find_room : (Room → Bool) → List Room → Option Room
find_room p [] = none
find_room p (r ∷ rs) = let rest = find_room p rs in if p r then some r else rest

unfoldable pub replace_room : (Room → Bool) → Room → List Room → List Room
replace_room p r' [] = []
replace_room p r' (r ∷ rs) = let rest = replace_room p r' rs in if p r then r' ∷ rs else r ∷ rest

unfoldable pub remove_room : (Room → Bool) → List Room → List Room
remove_room p [] = []
remove_room p (r ∷ rs) = let rest = remove_room p rs in if p r then rs else r ∷ rest

abbrev pub named : Text → Room → Bool
named n r = r.room_name == n

abbrev pub holds : Text → Room → Bool
holds u r = member u r.users

-- FindRoomByName and FindRoomByName_NoLock
unfoldable pub find_room_by_name : Text → Manager → Option Room
find_room_by_name n m = find_room (named n) m.rooms

-- GetRoomByUserId
unfoldable pub get_room_by_user_id : Text → Manager → Option Room
get_room_by_user_id u m = find_room (holds u) m.rooms

name_or_empty : Option Room → Text
name_or_empty none = []
name_or_empty (some r) = r.room_name

-- GetUserRoomId: empty for a user in no room.
unfoldable pub get_user_room_id : Text → Manager → Text
unfolding name_or_empty
get_user_room_id u m = name_or_empty (find_room (holds u) m.rooms)

pub users_or_none : Option Room → List Text
users_or_none none = []
users_or_none (some r) = r.users

-- GetUserIdsInRoom
unfoldable pub get_user_ids_in_room : Text → Manager → List Text
unfolding users_or_none
get_user_ids_in_room n m = users_or_none (find_room (named n) m.rooms)
