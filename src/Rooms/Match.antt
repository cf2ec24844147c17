-- ===== src/Rooms/Match.antt =====
-- A match of a room: its start, the deaths in it and its end (TeamOFYServer/RoomManager.cpp).
use bn_bserver.Prelude.{
  ℕ, ◌+◌, ◌%◌, ◌^◌, Bool, true, false, ◌&&◌, ◌||◌, not, Option, none, some, List, [], ◌∷◌, ◌++◌,
  eqb, leb, if◌then◌else◌, map, length,
}
use bn_bserver.Prelude.Text.{Text, codes, ◌==◌, trim, getline}
use bn_bserver.Prelude.Assoc.{lookup, insert, erase}
use bn_bserver.Prelude.Int.{ℤ, int_string, stoi}
use bn_bserver.Rooms.{Room, Manager, Send, member, without, find_room, replace_room, named, holds}
use bn_bserver.Rooms.Clients.{Clients, get_id_by_nickname, client_of}
use bn_bserver.Rooms.Messages.{display_name, or_none, send_to_users, add_send}

set_or_empty : Option (List Text) → List Text
set_or_empty none = []
set_or_empty (some us) = us

-- The set of users under a room's name; a missing one is empty.
unfoldable pub noted : Text → List (Text × List Text) → List Text
unfolding set_or_empty
noted n sets = set_or_empty (lookup n sets)

-- The number of a new match. It has 64 bits.
unfoldable pub next_id : Manager → ℕ
next_id m = (m.next_match_id + 1) % 2 ^ 64

unfoldable pub started : Text → Room → Manager → Manager
unfolding next_id
started n r m = record {
  rooms = replace_room (named n) (record r { is_in_game = true; match_id = next_id m }) m.rooms;
  next_match_id = next_id m;
  dead = erase n m.dead;
  ready = erase n m.ready;
  resolved = without n m.resolved;
}

unfoldable pub start_found : Clients → Text → Option Room → Manager → Manager × Option (List Text)
start_found cs n none m = (m, none)
start_found cs n (some r) m =
    if not r.is_in_game && leb 2 (length r.users)
    then (started n r m, some (map (display_name cs) r.users))
    else (m, none)

-- TryStartGame: none for false, else the users' nicknames.
unfoldable pub try_start_game : Clients → Text → Manager → Manager × Option (List Text)
unfolding start_found started
try_start_game cs n m = start_found cs n (find_room (named n) m.rooms) m

-- The nicknames of the users whose team has one of two names.
of_team : Clients → Room → Text → Text → List Text → List Text
of_team cs r a b [] = []
of_team cs r a b (u ∷ us) =
    let rest = of_team cs r a b us in
    let team = or_none (lookup u r.team_assignments) in
    if team == a || team == b then display_name cs u ∷ rest else rest

unfoldable pub blue_team : Clients → Room → List Text
unfolding of_team
blue_team cs r = of_team cs r (codes "Blue") (codes "BLUE") r.users

unfoldable pub red_team : Clients → Room → List Text
unfolding of_team
red_team cs r = of_team cs r (codes "Red") (codes "RED") r.users

pub record Teams : Type 0 where
  pub user_list : List Text
  pub blue : List Text
  pub red : List Text

unfoldable pub start_coop_found : Clients → Text → Option Room → Manager → Manager × Option Teams
start_coop_found cs n none m = (m, none)
start_coop_found cs n (some r) m =
    if r.is_in_game || not (eqb (length r.users) 4)
    then (m, none)
    else if eqb (length (blue_team cs r)) 2 && eqb (length (red_team cs r)) 2
    then (
      started n r m,
      some (record {
        user_list = map (display_name cs) r.users;
        blue = blue_team cs r;
        red = red_team cs r;
      }),
    )
    else (m, none)

-- TryStartCoopGame: none for false. What it leaves in its arguments then is not modelled.
unfoldable pub try_start_coop_game : Clients → Text → Manager → Manager × Option Teams
unfolding start_coop_found started
try_start_coop_game cs n m = start_coop_found cs n (find_room (named n) m.rooms) m

-- DeathResult
pub record DeathResult : Type 0 where
  pub room : Option Room
  pub dead : List Text
  pub resolves_match : Bool

abbrev pub no_result : DeathResult
no_result = record { room = none; dead = []; resolves_match = false }

unfoldable pub survivors : List Text → List Text → List Text
survivors dead [] = []
survivors dead (u ∷ us) = let rest = survivors dead us in if member u dead then rest else u ∷ rest

-- The different teams of some users.
unfoldable pub teams_of : Room → List Text → List Text
teams_of r [] = []
teams_of r (u ∷ us) =
    let rest = teams_of r us in
    let team = or_none (lookup u r.team_assignments) in
    if member team rest then rest else team ∷ rest

-- Whether the match is decided with these dead: one team is left, or one user.
unfoldable pub decided : Room → List Text → Bool
unfolding survivors teams_of
decided r dead =
    if r.is_coop_mode
    then eqb (length (teams_of r (survivors dead r.users))) 1
    else eqb (length (survivors dead r.users)) 1

unfoldable pub death_noted : Text → Room → Manager → Manager × DeathResult
death_noted u r m =
    let dead = u ∷ noted r.room_name m.dead in
    (
      record m {
        dead = insert r.room_name dead m.dead;
        resolved = if decided r dead then r.room_name ∷ m.resolved else m.resolved;
      },
      record { room = some r; dead = dead; resolves_match = decided r dead },
    )

unfoldable pub death_found : Text → Option Room → Manager → Manager × DeathResult
death_found u none m = (m, no_result)
death_found u (some r) m =
    if not r.is_in_game || member r.room_name m.resolved
    then (m, no_result)
    else if member u (noted r.room_name m.dead)
    then (m, no_result)
    else death_noted u r m

-- RecordDeath
unfoldable pub record_death : Text → Manager → Manager × DeathResult
unfolding death_found death_noted
record_death u m = death_found u (find_room (holds u) m.rooms) m

unfoldable pub retry_found : Room → Text → Option Room → Manager → Manager
retry_found snapshot u none m = m
retry_found snapshot u (some r) m =
    if not r.is_in_game || not (eqb r.match_id snapshot.match_id) then m else record m {
      resolved = without r.room_name m.resolved;
      dead = insert r.room_name (without u (noted r.room_name m.dead)) m.dead;
    }

-- RetryDeath
unfoldable pub retry_death : Room → Text → Manager → Manager
unfolding retry_found
retry_death snapshot u m = retry_found snapshot u (find_room (named snapshot.room_name) m.rooms) m

unfoldable pub all_in : List Text → List Text → Bool
all_in set [] = true
all_in set (u ∷ us) = member u set && all_in set us

-- The sends of HandleReadyToExit, member by member.
unfoldable pub exit_sends : Clients → Text → Bool → List Text → List Send
exit_sends cs user all_ready [] = []
exit_sends cs user all_ready (u ∷ us) =
    let rest = exit_sends cs user all_ready us in
    let client = client_of cs u in
    let ending = if all_ready then add_send (codes "GAME_END\n") client rest else rest in
    if u == user
    then ending
    else add_send (codes "READY_TO_EXIT|" ++ (display_name cs user ++ codes "\n")) client ending

unfoldable pub ended : Text → Room → Manager → Manager
ended n r m = record m {
  rooms = replace_room (named n) (record r { is_in_game = false }) m.rooms;
  ready = erase n m.ready;
  dead = erase n m.dead;
  resolved = without n m.resolved;
}

unfoldable pub ready_found :
    Clients → Text → Text → Option Room → Manager → Manager × List Send × Bool
ready_found cs u n none m = (m, [], false)
ready_found cs u n (some r) m =
    if not r.is_in_game || not (member u r.users)
    then (m, [], false)
    else if member u (noted n m.ready)
    then (m, [], false)
    else (let set = u ∷ noted n m.ready in
        let all_ready = all_in set r.users in
        (
          if all_ready then ended n r m else record m { ready = insert n set m.ready },
          exit_sends cs u all_ready r.users,
          all_ready,
        ))

-- HandleReadyToExit
unfoldable pub handle_ready_to_exit : Clients → Text → Text → Manager → Manager × List Send × Bool
unfolding ready_found ended all_in exit_sends
handle_ready_to_exit cs u n m = ready_found cs u n (find_room (named n) m.rooms) m

-- ChangeTeam's room: cooperative, not in a game, with the user.
abbrev pub changeable : Text → Room → Bool
changeable u r = (r.is_coop_mode && not r.is_in_game) && holds u r

unfoldable pub changed : Text → Room → Text → Room
changed u r team = record r {
  team_assignments =
      insert u (if team == codes "Blue" then codes "Red" else codes "Blue") r.team_assignments;
}

unfoldable pub change_in : Text → Room → Option Text → Manager → Manager × Option Room
change_in u r none m = (m, none)
change_in u r (some team) m =
    if team == codes "Blue" || team == codes "Red"
    then (
      record m { rooms = replace_room (changeable u) (changed u r team) m.rooms },
      some (changed u r team),
    )
    else (m, none)

unfoldable pub change_found : Text → Option Room → Manager → Manager × Option Room
change_found u none m = (m, none)
change_found u (some r) m = change_in u r (lookup u r.team_assignments) m

-- ChangeTeam
unfoldable pub change_team : Text → Manager → Manager × Option Room
unfolding change_found change_in changed
change_team u m = change_found u (find_room (changeable u) m.rooms) m

unfoldable pub choice_in : Clients → Text → Text → ℤ → Option Room → Manager → Manager × List Send
choice_in cs n nickname index none m = (m, [])
choice_in cs n nickname index (some r) m =
    let u = trim (get_id_by_nickname cs nickname) in
    if member u r.users
    then (
      record m {
        rooms =
            replace_room (named n)
              (record r { character_selections = insert u index r.character_selections }) m.rooms;
      },
      send_to_users cs
          (codes "UPDATE_CHARACTER|"
            ++ (nickname ++ (codes "|" ++ (int_string index ++ codes "\n"))))
          r.users,
    )
    else (m, [])

unfoldable pub choice_parsed : Clients → Text → Text → Option ℤ → Manager → Manager × List Send
choice_parsed cs n nickname none m = (m, [])
choice_parsed cs n nickname (some index) m =
    choice_in cs n nickname index (find_room (named n) m.rooms) m

unfoldable pub choice_line :
    Clients → Text → Text → Option (Text × Text) → Manager → Manager × List Send
choice_line cs n nickname none m = (m, [])
choice_line cs n nickname (some (digits, _)) m = choice_parsed cs n nickname (stoi digits) m

unfoldable pub choice_nickname :
    Clients → Text → Option (Text × Text) → Manager → Manager × List Send
choice_nickname cs n none m = (m, [])
choice_nickname cs n (some (nickname, rest)) m = choice_line cs n nickname (getline 10 rest) m

unfoldable pub choice_room : Clients → Option (Text × Text) → Manager → Manager × List Send
choice_room cs none m = (m, [])
choice_room cs (some (n, rest)) m = choice_nickname cs n (getline b'|' rest) m

-- HandleCharacterChoice("room|nickname|index")
unfoldable pub handle_character_choice : Clients → Text → Manager → Manager × List Send
unfolding choice_room choice_nickname choice_line choice_parsed choice_in
handle_character_choice cs input m = choice_room cs (getline b'|' input) m
