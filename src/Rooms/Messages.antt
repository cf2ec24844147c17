-- ===== src/Rooms/Messages.antt =====
-- The lists of rooms and of users that the room manager writes, and its ways to send.
use bn_bserver.Prelude.{
  ℕ, Bool, true, false, not, Option, none, some, List, [], ◌∷◌, ◌++◌, eqb, if◌then◌else◌, map,
}
use bn_bserver.Prelude.Text.{Text, codes, trim}
use bn_bserver.Prelude.Assoc.{lookup}
use bn_bserver.Prelude.Int.{ℤ, pos, int_string}
use bn_bserver.Rooms.{Room, Manager, Send}
use bn_bserver.Rooms.Clients.{Client, Clients, get_nickname_by_id, client_of}

abbrev pub is_empty : Text → Bool
is_empty [] = true
is_empty (c ∷ s) = false

or_zero : Option ℤ → ℤ
or_zero none = pos 0
or_zero (some n) = n

-- The character that a user chose, 0 without a choice.
unfoldable pub character_of : Room → Text → ℤ
unfolding or_zero
character_of r u = or_zero (lookup u r.character_selections)

abbrev pub or_none : Option Text → Text
or_none none = codes "None"
or_none (some t) = t

-- The team that a user list shows: only a cooperative room has teams.
unfoldable pub shown_team : Room → Text → Text
shown_team r u = if r.is_coop_mode then or_none (lookup u r.team_assignments) else codes "None"

-- Trim(GetNicknameById(u))
unfoldable pub display_name : Clients → Text → Text
display_name cs u = trim (get_nickname_by_id cs u)

-- "nickname:character:team"
unfoldable pub user_entry : Clients → Room → Text → Text
user_entry cs r u =
    display_name cs u
    ++ (codes ":" ++ (int_string (character_of r u) ++ (codes ":" ++ shown_team r u)))

-- Entries with a separator between them.
unfoldable pub joined : Text → List Text → Text
joined sep [] = []
joined sep (x ∷ []) = x
joined sep (x ∷ y ∷ xs) = x ++ (sep ++ joined sep (y ∷ xs))

unfoldable pub user_list : Clients → Room → Text
user_list cs r = joined (codes ",") (map (user_entry cs r) r.users)

unfoldable pub flag : Bool → Text
flag b = if b then codes "1" else codes "0"

room_entry : Clients → Room → Text
room_entry cs r =
    r.room_name
    ++ (codes ","
        ++ (r.map_name
            ++ (codes ","
                ++ (flag (not (is_empty r.password))
                    ++ (codes "," ++ (flag r.is_coop_mode ++ (codes "," ++ user_list cs r)))))))

-- BroadcastRoomlist: to the one client who asked.
unfoldable pub broadcast_room_list : Clients → Manager → Client → List Send
unfolding room_entry
broadcast_room_list cs m client =
    record {
      socket = client.socket;
      message =
          codes "ROOM_LIST|" ++ (joined (codes "|") (map (room_entry cs) m.rooms) ++ codes "\n");
    }
    ∷ []

short_entry : Room → Text
short_entry r =
    r.room_name ++ (codes "," ++ (r.map_name ++ (codes "," ++ flag (not (is_empty r.password)))))

-- SendRoomList, which shows neither the mode nor the users.
unfoldable pub send_room_list : Manager → Client → Send
unfolding short_entry
send_room_list m client = record {
  socket = client.socket;
  message = codes "ROOM_LIST|" ++ (joined (codes "|") (map short_entry m.rooms) ++ codes "\n");
}

unfoldable pub ends_in_newline : Text → Bool
ends_in_newline [] = false
ends_in_newline (c ∷ []) = eqb c 10
ends_in_newline (c ∷ d ∷ s) = ends_in_newline (d ∷ s)

-- A message that is not empty ends in a line feed.
unfoldable pub framed : Text → Text
unfolding ends_in_newline
framed s = if is_empty s then s else if ends_in_newline s then s else s ++ codes "\n"

-- BroadcastMessageExcept: every client but one.
unfoldable pub broadcast_message_except : ℕ → Text → List Client → List Send
broadcast_message_except except message [] = []
broadcast_message_except except message (c ∷ cs) =
    let rest = broadcast_message_except except message cs in
    if eqb c.socket except
    then rest
    else record { socket = c.socket; message = framed message } ∷ rest

-- One message to those of the users who are connected.
abbrev pub add_send : Text → Option Client → List Send → List Send
add_send message none rest = rest
add_send message (some c) rest = record { socket = c.socket; message = message } ∷ rest

unfoldable pub send_to_users : Clients → Text → List Text → List Send
send_to_users cs message [] = []
send_to_users cs message (u ∷ us) = add_send message (client_of cs u) (send_to_users cs message us)
