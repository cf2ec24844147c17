-- ===== src/Rooms/Deaths.antt =====
-- What the deaths of a match decide, and how a death is taken back (RecordDeath and RetryDeath of
-- TeamOFYServer/RoomManager.cpp).
use bn_bserver.Prelude.{
  ℕ, ◌+◌, ◌^◌, ◌≤◌, ◌<◌, ◌≡◌, refl, Bool, true, false, ◌&&◌, Option, none, some, List, [], ◌∷◌,
  if◌then◌else◌, arith, length, map, eqb, le→leb,
}
use bn_bserver.Prelude.Text.{Text, eq_iff, eq_refl}
use bn_bserver.Prelude.Assoc.{insert, erase, lookup-insert, lookup-erase}
use bn_bserver.Rooms.{Room, Manager, member, without, find_room, replace_room, named, holds}
use bn_bserver.Rooms.Clients.{Clients}
use bn_bserver.Rooms.Messages.{display_name}
use bn_bserver.Rooms.Match.{
  try_start_game, record_death, retry_death, DeathResult, started, start_found, death_noted,
  death_found, retry_found, noted, next_id,
}
use bn_bserver.Rooms.Counting.{names}

in_room : Text → Option Room → Bool
in_room n none = false
in_room n (some r) = named n r

-- The death decides the match of a room of this name.
unfoldable pub decides : Text → DeathResult → Bool
unfolding in_room
decides n d = d.resolves_match && in_room n d.room

-- Deaths in a row, and how many of them decide the match of the room.
unfoldable pub decisions : Text → List Text → Manager → ℕ
decisions n [] m = 0
decisions n (u ∷ us) m =
    (if decides n (record_death u m).1 then 1 else 0) + decisions n us (record_death u m).0

noted_once : Text → Manager → ℕ
noted_once n m = if member n m.resolved then 1 else 0

death_found-once :
    (n u : Text) (o : Option Room) (m : Manager)
    → noted_once n m + (if decides n (death_found u o m).1 then 1 else 0)
      ≡ noted_once n (death_found u o m).0
unfolding noted_once decides in_room death_found death_noted member
death_found-once n u none m = ground arith
death_found-once n u (some r) m = ground (arith, eq_iff r.room_name n)

decisions-noted : (n : Text) (us : List Text) (m : Manager) → noted_once n m + decisions n us m ≤ 1
unfolding decisions noted_once record_death
decisions-noted n [] m = ground arith
decisions-noted n (u ∷ us) m = omega (
  arith,
  death_found-once n u (find_room (holds u) m.rooms) m,
  decisions-noted n us (record_death u m).0,
)

-- However many users die in whatever order, no more than one of these deaths decides the match of
-- a room, as long as no death is taken back and no match starts in between.
pub decisions-once : (n : Text) (us : List Text) (m : Manager) → decisions n us m ≤ 1
decisions-once n us m = omega (arith, decisions-noted n us m)

eqb_refl : (n : ℕ) → eqb n n ≡ true
eqb_refl n = ground arith

without-absent : (u : Text) (xs : List Text) → member u xs ≡ false → without u xs ≡ xs
unfolding without member
without-absent u [] h = refl
without-absent u (x ∷ xs) h = ground (arith, without-absent u xs)

member-without : (u : Text) (xs : List Text) → member u (without u xs) ≡ false
unfolding without member
member-without u [] = refl
member-without u (x ∷ xs) = ground (arith, member-without u xs)

find_room-names :
    (p : Room → Bool) (r : Room) (rs : List Room)
    → find_room p rs ≡ some r
    → 1 ≤ names r.room_name rs
unfolding find_room names
find_room-names p r [] h = ground arith
find_room-names p r (s ∷ rs) h =
    ground (arith, find_room-names p r rs, eq_refl s.room_name, eq_iff s.room_name r.room_name)

-- A room that some search finds is found by its name, when no other room has the name.
find_room-name :
    (p : Room → Bool) (r : Room) (rs : List Room)
    → find_room p rs ≡ some r
    → names r.room_name rs ≤ 1
    → find_room (named r.room_name) rs ≡ some r
unfolding find_room names
find_room-name p r [] h one = ground arith
find_room-name p r (s ∷ rs) h one = ground (
  arith,
  find_room-name p r rs,
  find_room-names p r rs,
  eq_refl s.room_name,
  eq_iff s.room_name r.room_name,
)

find_room-replace :
    (n : Text) (r r' : Room) (rs : List Room)
    → find_room (named n) rs ≡ some r
    → r'.room_name ≡ r.room_name
    → find_room (named n) (replace_room (named n) r' rs) ≡ some r'
unfolding find_room replace_room
find_room-replace n r r' [] h e = ground arith
find_room-replace n r r' (s ∷ rs) h e =
    grind (arith, find_room-replace n r r' rs, eq_iff s.room_name n)

noted-erase : (n : Text) (sets : List (Text × List Text)) → noted n (erase n sets) ≡ []
unfolding noted
noted-erase n sets = rw (lookup-erase n n sets, eq_refl n)

try_start_game-started :
    (cs : Clients) (n : Text) (r : Room) (m : Manager)
    → find_room (named n) m.rooms ≡ some r
    → r.is_in_game ≡ false
    → 2 ≤ length r.users
    → try_start_game cs n m ≡ (started n r m, some (map (display_name cs) r.users))
unfolding try_start_game start_found
try_start_game-started cs n r m h idle two = rw (h, idle, le→leb 2 (length r.users) two)

-- A match that starts in the room of a name: it takes a room that is not in a game and has two
-- users at least; then the room is in a game with the next number, nobody of it counts as dead or
-- as ready, the match is not decided, and the answer is the users' nicknames.
pub try_start_game-fresh :
    (cs : Clients) (n : Text) (r : Room) (m : Manager)
    → find_room (named n) m.rooms ≡ some r
    → r.is_in_game ≡ false
    → 2 ≤ length r.users
    → (find_room (named n) (try_start_game cs n m).0.rooms
        ≡ some (record r { is_in_game = true; match_id = next_id m }))
      × (noted n (try_start_game cs n m).0.dead ≡ [])
      × (noted n (try_start_game cs n m).0.ready ≡ [])
      × (member n (try_start_game cs n m).0.resolved ≡ false)
      × ((try_start_game cs n m).1 ≡ some (map (display_name cs) r.users))
unfolding started next_id
try_start_game-fresh cs n r m h idle two = rw (try_start_game-started cs n r m h idle two) (
  find_room-replace n r _ m.rooms h refl,
  noted-erase n m.dead,
  noted-erase n m.ready,
  member-without n m.resolved,
  refl,
)

-- A death of an earlier match that is taken back late does not touch the match that has started
-- since in the room: the numbers of matches that are over are not above the last one given.
pub retry_death-stale :
    (cs : Clients) (n u : Text) (r snapshot : Room) (m : Manager)
    → find_room (named n) m.rooms ≡ some r
    → r.is_in_game ≡ false
    → 2 ≤ length r.users
    → snapshot.room_name ≡ n
    → snapshot.match_id ≤ m.next_match_id
    → m.next_match_id + 1 < 2 ^ 64
    → retry_death snapshot u (try_start_game cs n m).0 ≡ (try_start_game cs n m).0
unfolding retry_death retry_found started next_id
retry_death-stale cs n u r snapshot m h idle two e old small =
    rw
      (
        try_start_game-started cs n r m h idle two,
        e,
        find_room-replace n r (record r { is_in_game = true; match_id = next_id m }) m.rooms h refl,
      )
      (ground arith)

noted-insert :
    (n : Text) (us : List Text) (sets : List (Text × List Text)) → noted n (insert n us sets) ≡ us
unfolding noted
noted-insert n us sets = rw (lookup-insert n n us sets, eq_refl n)

-- A recorded death: the room is in a game that is open, and the user was alive.
death_found-recorded :
    (u : Text) (r s : Room) (m : Manager)
    → (death_found u (some s) m).1.room ≡ some r
    → (s ≡ r)
      × (s.is_in_game ≡ true)
      × (member s.room_name m.resolved ≡ false)
      × (member u (noted s.room_name m.dead) ≡ false)
unfolding death_found death_noted
death_found-recorded u r s m h = (ground arith, ground arith, ground arith, ground arith)

death_found-noted :
    (u : Text) (s : Room) (m : Manager)
    → s.is_in_game ≡ true
    → member s.room_name m.resolved ≡ false
    → member u (noted s.room_name m.dead) ≡ false
    → death_found u (some s) m ≡ death_noted u s m
unfolding death_found
death_found-noted u s m playing isopen alive = rw (playing, isopen, alive)

retry_found-noted :
    (u : Text) (s : Room) (m : Manager)
    → s.is_in_game ≡ true
    → member u (noted s.room_name m.dead) ≡ false
    → (noted s.room_name (retry_found s u (some s) (death_noted u s m).0).dead
        ≡ noted s.room_name m.dead)
      × (member s.room_name (retry_found s u (some s) (death_noted u s m).0).resolved ≡ false)
unfolding retry_found death_noted without
retry_found-noted u s m playing alive =
    rw
      (
        playing,
        eqb_refl s.match_id,
        noted-insert s.room_name _ (insert s.room_name (u ∷ noted s.room_name m.dead) m.dead),
        noted-insert,
        eq_refl u,
        without-absent u (noted s.room_name m.dead) alive,
      )
      (refl, member-without s.room_name _)

death_found-none : (u : Text) (m : Manager) → (death_found u none m).1.room ≡ none
unfolding death_found
death_found-none u m = refl

undone :
    (u : Text) (r : Room) (o : Option Room) (m : Manager)
    → names r.room_name m.rooms ≤ 1
    → find_room (holds u) m.rooms ≡ o
    → (death_found u o m).1.room ≡ some r
    → (noted r.room_name (retry_death r u (death_found u o m).0).dead ≡ noted r.room_name m.dead)
      × (member r.room_name m.resolved ≡ false)
      × (member r.room_name (retry_death r u (death_found u o m).0).resolved ≡ false)
unfolding retry_death death_noted
undone u r none m one e h = ground (arith, death_found-none u m)
undone u r (some s) m one e h =
    let (same, playing, isopen, alive) = death_found-recorded u r s m h in
    rw⁻¹ same (
      rw
        (
          death_found-noted u s m playing isopen alive,
          find_room-name (holds u) s m.rooms e (rw same one),
        )
        (let (dead, resolved) = retry_found-noted u s m playing alive in (dead, isopen, resolved)))

-- A death that could not be told is taken back: the room's set of the dead is what it was before
-- the death, and the match is open as before, also when this death had decided it.
pub retry_death-undoes :
    (u : Text) (r : Room) (m : Manager)
    → names r.room_name m.rooms ≤ 1
    → (record_death u m).1.room ≡ some r
    → (noted r.room_name (retry_death r u (record_death u m).0).dead ≡ noted r.room_name m.dead)
      × (member r.room_name m.resolved ≡ false)
      × (member r.room_name (retry_death r u (record_death u m).0).resolved ≡ false)
unfolding record_death
retry_death-undoes u r m one h = undone u r _ m one refl h
