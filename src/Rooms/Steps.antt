-- ===== src/Rooms/Steps.antt =====
-- Every operation of the room manager keeps the rooms valid (TeamOFYServer/RoomManager.cpp).
use bn_bserver.Prelude.{
  ◌≡◌, refl, ◌&&◌, ◌||◌, not, Option, none, some, List, ◌∷◌, if◌then◌else◌, length, eqb, leb,
}
use bn_bserver.Prelude.Text.{Text, codes, trim, ◌==◌}
use bn_bserver.Prelude.Assoc.{insert}
use bn_bserver.Prelude.Int.{ℤ}
use bn_bserver.Rooms.{Room, Manager, member, find_room, named}
use bn_bserver.Rooms.Clients.{Clients, get_id_by_nickname}
use bn_bserver.Rooms.Match.{
  DeathResult, changeable, started, start_found, start_coop_found, death_noted, death_found,
  retry_found, ended, ready_found, changed, change_in, change_found, choice_in, choice_parsed,
  choice_line, choice_nickname, choice_room, noted, Teams, blue_team, red_team, all_in,
}
use bn_bserver.Rooms.Membership.{IsValid, same-AreValid}
use bn_bserver.Rooms.Visits.{LeavesValid, leaves, sent_state, state_of, valid, valid-if}

abbrev pub Start : Type 0
Start = Manager × Option (List Text)

abbrev pub start_state : Start → Manager
start_state x = x.0

pub start_found-IsValid :
    (cs : Clients) (n : Text) (o : Option Room) (m : Manager)
    → find_room (named n) m.rooms ≡ o
    → IsValid m
    → LeavesValid start_state (start_found cs n o m)
unfolding start_found started
start_found-IsValid cs n none m e v = leaves _ _ v
start_found-IsValid cs n (some r) m e v =
    valid-if _ (not r.is_in_game && leb 2 (length r.users)) _ _
      (λ _. leaves _ _ (same-AreValid (named n) r _ m.rooms v e refl refl)) (λ _. leaves _ _ v)

abbrev pub TeamStart : Type 0
TeamStart = Manager × Option Teams

abbrev pub team_state : TeamStart → Manager
team_state x = x.0

pub start_coop_found-IsValid :
    (cs : Clients) (n : Text) (o : Option Room) (m : Manager)
    → find_room (named n) m.rooms ≡ o
    → IsValid m
    → LeavesValid team_state (start_coop_found cs n o m)
unfolding start_coop_found started
start_coop_found-IsValid cs n none m e v = leaves _ _ v
start_coop_found-IsValid cs n (some r) m e v =
    valid-if _ (r.is_in_game || not (eqb (length r.users) 4)) _ _ (λ _. leaves _ _ v)
      (λ _.
        valid-if _ (eqb (length (blue_team cs r)) 2 && eqb (length (red_team cs r)) 2) _ _
          (λ _. leaves _ _ (same-AreValid (named n) r _ m.rooms v e refl refl)) (λ _. leaves _ _ v))

abbrev pub Death : Type 0
Death = Manager × DeathResult

abbrev pub death_state : Death → Manager
death_state x = x.0

pub death_found-IsValid :
    (u : Text) (o : Option Room) (m : Manager)
    → IsValid m
    → LeavesValid death_state (death_found u o m)
unfolding death_found death_noted
death_found-IsValid u none m v = leaves _ _ v
death_found-IsValid u (some r) m v =
    valid-if _ (not r.is_in_game || member r.room_name m.resolved) _ _ (λ _. leaves _ _ v)
      (λ _.
        valid-if _ (member u (noted r.room_name m.dead)) _ _ (λ _. leaves _ _ v)
          (λ _. leaves _ _ v))

abbrev pub whole : Manager → Manager
whole m = m

pub retry_found-IsValid :
    (snapshot : Room) (u : Text) (o : Option Room) (m : Manager)
    → IsValid m
    → LeavesValid whole (retry_found snapshot u o m)
unfolding retry_found
retry_found-IsValid snapshot u none m v = leaves _ _ v
retry_found-IsValid snapshot u (some r) m v =
    valid-if _ (not r.is_in_game || not (eqb r.match_id snapshot.match_id)) _ _ (λ _. leaves _ _ v)
      (λ _. leaves _ _ v)

pub ready_found-IsValid :
    (cs : Clients) (u n : Text) (o : Option Room) (m : Manager)
    → find_room (named n) m.rooms ≡ o
    → IsValid m
    → LeavesValid state_of (ready_found cs u n o m)
unfolding ready_found ended
ready_found-IsValid cs u n none m e v = leaves _ _ v
ready_found-IsValid cs u n (some r) m e v =
    valid-if _ (not r.is_in_game || not (member u r.users)) _ _ (λ _. leaves _ _ v)
      (λ _.
        valid-if _ (member u (noted n m.ready)) _ _ (λ _. leaves _ _ v)
          (λ _. leaves _ _ (
            valid whole
              (if all_in (u ∷ noted n m.ready) r.users
                then ended n r m
                else record m { ready = insert n (u ∷ noted n m.ready) m.ready })
              (valid-if whole (all_in (u ∷ noted n m.ready) r.users) _ _
                (λ _. leaves _ _ (same-AreValid (named n) r _ m.rooms v e refl refl))
                (λ _. leaves _ _ v)))))

abbrev pub Change : Type 0
Change = Manager × Option Room

abbrev pub change_state : Change → Manager
change_state x = x.0

change_in-IsValid :
    (u : Text) (r : Room) (o : Option Text) (m : Manager)
    → find_room (changeable u) m.rooms ≡ some r
    → IsValid m
    → LeavesValid change_state (change_in u r o m)
unfolding change_in changed
change_in-IsValid u r none m e v = leaves _ _ v
change_in-IsValid u r (some team) m e v =
    valid-if _ (team == codes "Blue" || team == codes "Red") _ _
      (λ _. leaves _ _ (same-AreValid (changeable u) r _ m.rooms v e refl refl)) (λ _. leaves _ _ v)

pub change_found-IsValid :
    (u : Text) (o : Option Room) (m : Manager)
    → find_room (changeable u) m.rooms ≡ o
    → IsValid m
    → LeavesValid change_state (change_found u o m)
unfolding change_found
change_found-IsValid u none m e v = leaves _ _ v
change_found-IsValid u (some r) m e v = change_in-IsValid u r _ m e v

choice_in-IsValid :
    (cs : Clients) (n nickname : Text) (index : ℤ) (o : Option Room) (m : Manager)
    → find_room (named n) m.rooms ≡ o
    → IsValid m
    → LeavesValid sent_state (choice_in cs n nickname index o m)
unfolding choice_in
choice_in-IsValid cs n nickname index none m e v = leaves _ _ v
choice_in-IsValid cs n nickname index (some r) m e v =
    valid-if _ (member (trim (get_id_by_nickname cs nickname)) r.users) _ _
      (λ _. leaves _ _ (same-AreValid (named n) r _ m.rooms v e refl refl)) (λ _. leaves _ _ v)

choice_parsed-IsValid :
    (cs : Clients) (n nickname : Text) (o : Option ℤ) (m : Manager)
    → IsValid m
    → LeavesValid sent_state (choice_parsed cs n nickname o m)
unfolding choice_parsed
choice_parsed-IsValid cs n nickname none m v = leaves _ _ v
choice_parsed-IsValid cs n nickname (some index) m v =
    choice_in-IsValid cs n nickname index _ m refl v

choice_line-IsValid :
    (cs : Clients) (n nickname : Text) (o : Option (Text × Text)) (m : Manager)
    → IsValid m
    → LeavesValid sent_state (choice_line cs n nickname o m)
unfolding choice_line
choice_line-IsValid cs n nickname none m v = leaves _ _ v
choice_line-IsValid cs n nickname (some (digits, _)) m v = choice_parsed-IsValid cs n nickname _ m v

choice_nickname-IsValid :
    (cs : Clients) (n : Text) (o : Option (Text × Text)) (m : Manager)
    → IsValid m
    → LeavesValid sent_state (choice_nickname cs n o m)
unfolding choice_nickname
choice_nickname-IsValid cs n none m v = leaves _ _ v
choice_nickname-IsValid cs n (some (nickname, rest)) m v = choice_line-IsValid cs n nickname _ m v

pub choice_room-IsValid :
    (cs : Clients) (o : Option (Text × Text)) (m : Manager)
    → IsValid m
    → LeavesValid sent_state (choice_room cs o m)
unfolding choice_room
choice_room-IsValid cs none m v = leaves _ _ v
choice_room-IsValid cs (some (n, rest)) m v = choice_nickname-IsValid cs n _ m v
