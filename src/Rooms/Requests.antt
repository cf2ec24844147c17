-- ===== src/Rooms/Requests.antt =====
-- Requests to the room manager in a row, and what holds after each of them.
use bn_bserver.Prelude.{refl, Bool, List, [], ◌∷◌}
use bn_bserver.Prelude.Text.{Text, getline}
use bn_bserver.Rooms.{Room, Manager}
use bn_bserver.Rooms.Clients.{Client, Clients}
use bn_bserver.Rooms.Lobby.{create_room, enter_room, exit_room, force_exit_room_by_user_id}
use bn_bserver.Rooms.Match.{
  try_start_game, try_start_coop_game, record_death, retry_death, handle_ready_to_exit, change_team,
  handle_character_choice,
}
use bn_bserver.Rooms.Membership.{IsValid}
use bn_bserver.Rooms.Steps.{
  change_found-IsValid, change_state, choice_room-IsValid, death_found-IsValid, death_state,
  ready_found-IsValid, retry_found-IsValid, start_coop_found-IsValid, start_found-IsValid,
  start_state, team_state, whole,
}
use bn_bserver.Rooms.Visits.{
  answer_state, create_room-IsValid, enter_room-IsValid, exit_found-IsValid, force_found-IsValid,
  sent_state, state_of, valid,
}

-- A request that reaches the room manager, with the clients connected then.
pub data Request : Type 0 where
  create : Clients → Client → Text → Text → Text → Bool → Request
  enter : Clients → Client → Text → Text → Request
  exit : Clients → Text → Request
  force_exit : Clients → Text → Request
  start : Clients → Text → Request
  start_coop : Clients → Text → Request
  death : Text → Request
  retry : Room → Text → Request
  ready_to_exit : Clients → Text → Text → Request
  team : Text → Request
  choose : Clients → Text → Request

unfoldable pub serve : Request → Manager → Manager
serve (create cs c n map_name password coop) m = (create_room cs c n map_name password coop m).0
serve (enter cs c n password) m = (enter_room cs c n password m).0
serve (exit cs message) m = (exit_room cs message m).0
serve (force_exit cs u) m = (force_exit_room_by_user_id cs u m).0
serve (start cs n) m = (try_start_game cs n m).0
serve (start_coop cs n) m = (try_start_coop_game cs n m).0
serve (death u) m = (record_death u m).0
serve (retry snapshot u) m = retry_death snapshot u m
serve (ready_to_exit cs u n) m = (handle_ready_to_exit cs u n m).0
serve (team u) m = (change_team u m).0
serve (choose cs input) m = (handle_character_choice cs input m).0

unfoldable pub serve_all : List Request → Manager → Manager
serve_all [] m = m
serve_all (q ∷ qs) m = serve_all qs (serve q m)

serve-IsValid : (q : Request) (m : Manager) → IsValid m → IsValid (serve q m)
unfolding serve exit_room force_exit_room_by_user_id try_start_game try_start_coop_game record_death
    retry_death handle_ready_to_exit change_team handle_character_choice
serve-IsValid (create cs c n map_name password coop) m v =
    valid state_of _ (create_room-IsValid cs c n map_name password coop m v)
serve-IsValid (enter cs c n password) m v =
    valid answer_state _ (enter_room-IsValid cs c n password m v)
serve-IsValid (exit cs message) m v = valid sent_state _ (exit_found-IsValid cs _ _ _ m refl v)
serve-IsValid (force_exit cs u) m v = valid sent_state _ (force_found-IsValid cs u _ m refl v)
serve-IsValid (start cs n) m v = valid start_state _ (start_found-IsValid cs n _ m refl v)
serve-IsValid (start_coop cs n) m v = valid team_state _ (start_coop_found-IsValid cs n _ m refl v)
serve-IsValid (death u) m v = valid death_state _ (death_found-IsValid u _ m v)
serve-IsValid (retry snapshot u) m v = valid whole _ (retry_found-IsValid snapshot u _ m v)
serve-IsValid (ready_to_exit cs u n) m v = valid state_of _ (ready_found-IsValid cs u n _ m refl v)
serve-IsValid (team u) m v = valid change_state _ (change_found-IsValid u _ m refl v)
serve-IsValid (choose cs input) m v =
    valid sent_state _ (choice_room-IsValid cs (getline b'|' input) m v)

-- Whatever requests follow on valid rooms, the rooms are valid after them: no user is in two rooms
-- or twice in one, no two rooms have the same name, and every room has one to four users.
pub serve_all-IsValid : (qs : List Request) (m : Manager) → IsValid m → IsValid (serve_all qs m)
unfolding serve_all
serve_all-IsValid [] m v = v
serve_all-IsValid (q ∷ qs) m v = serve_all-IsValid qs (serve q m) (serve-IsValid q m v)
