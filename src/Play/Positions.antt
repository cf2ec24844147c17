-- ===== src/Play/Positions.antt =====
-- MOVE, PLACE_BALLOON and REMOVE_BALLOON of TeamOFYServer/ClientHandler.cpp, each behind the head of its
-- message. The floats are of any type; their reading, their printing and their arithmetic are parameters. An
-- exception of std::stof or std::stoi sends nothing.
pub mod Tests
use bn_bserver.Prelude.{
  ℕ, Bool, true, false, not, ◌&&◌, ◌||◌, Option, none, some, List, [], ◌∷◌, ◌++◌, if◌then◌else◌,
  eqb, length, map,
}
use bn_bserver.Prelude.Text.{Text, codes, ◌==◌, has_byte, before_byte, after_byte, trim}
use bn_bserver.Prelude.Int.{ℤ, pos, negsuc, int_string, stoi}
use bn_bserver.Rooms.{Manager, Send, get_user_room_id}
use bn_bserver.Rooms.Clients.{Client, Clients, get_id_by_nickname}
use bn_bserver.Rooms.Messages.{joined}
use bn_bserver.Rooms.Relay.{broadcast_to_user_room, broadcast_to_room_except}
use bn_bserver.Users.Register.{is_empty}
use bn_bserver.Characters.{update_player_position}
use bn_bserver.Play.{cut}

-- `stof` gives the float with the number of bytes that it has read, and none for an exception; `shown` is
-- operator<<, `fixed_string` is std::to_string, `round` is std::round, and `plus` adds an int.
pub record Floats {ℓ} (E : Type ℓ) : Type ℓ where
  pub stof : Text → Option (E × ℕ)
  pub is_finite : E → Bool
  pub fixed_string : E → Text
  pub shown : E → Text
  pub hundred : E
  pub times : E → E → E
  pub over : E → E → E
  pub round : E → E
  pub plus : E → ℤ → E

abbrev pub cut_comma : Text → Option (Text × Text)
cut_comma s = if has_byte b',' s then some (before_byte b',' s, after_byte b',' s) else none

module _ {ℓ} {E : Type ℓ} (f : Floats E) where
  -- A float that is finite and takes the whole text.
  unfoldable pub whole_float : Text → Option (E × ℕ) → Option E
  whole_float s none = none
  whole_float s (some (x, n)) = if eqb n (length s) && f.is_finite x then some x else none

  unfoldable pub move_to :
      Clients
      → Client
      → Text
      → Option E
      → Option E
      → List (Text × (E × E))
      → Manager
      → List (Text × (E × E)) × List Send
  move_to cs c name (some x) (some z) positions m = (
    update_player_position name x z positions,
    broadcast_to_room_except cs c.id c.socket
        (codes "MOVE_RESULT|" ++ (name ++ b',' ∷ (f.fixed_string x ++ b',' ∷ f.fixed_string z))) m,
  )
  move_to cs c name _ _ positions m = (positions, [])

  unfoldable pub move_coords :
      Clients
      → Client
      → Text
      → Option (Text × Text)
      → List (Text × (E × E))
      → Manager
      → List (Text × (E × E)) × List Send
  move_coords cs c name none positions m = (positions, [])
  move_coords cs c name (some (xs, zs)) positions m =
      if is_empty c.id || not (name == trim c.nickname) || is_empty (get_user_room_id c.id m)
      then (positions, [])
      else move_to cs c name (whole_float xs (f.stof xs)) (whole_float zs (f.stof zs)) positions m

  unfoldable pub move_fields :
      Clients
      → Client
      → Option (Text × Text)
      → List (Text × (E × E))
      → Manager
      → List (Text × (E × E)) × List Send
  move_fields cs c none positions m = (positions, [])
  move_fields cs c (some (name, coords)) positions m =
      move_coords cs c name (cut_comma coords) positions m

  -- MOVE, with the positions of the players.
  unfoldable pub move :
      Clients → Client → Text → List (Text × (E × E)) → Manager → List (Text × (E × E)) × List Send
  unfolding move_fields move_coords move_to whole_float
  move cs c input positions m = move_fields cs c (cut input) positions m

  -- Two places behind the point.
  cents : E → E
  cents x = f.over (f.round (f.times x f.hundred)) f.hundred

  pair_text : E → E → Text
  pair_text x z = f.shown x ++ b',' ∷ f.shown z

  -- What both messages of balloons hold: the nickname, the rounded place, and the type.
  abbrev placed_at : Text → Option (E × ℕ) → Option (E × ℕ) → Option ℤ → Option (Text × (E × E) × ℤ)
  placed_at name (some (x, _)) (some (z, _)) (some type) = some (name, (cents x, cents z), type)
  placed_at name _ _ _ = none

  balloon_coords : Text → Text → Option (Text × Text) → Option (Text × (E × E) × ℤ)
  balloon_coords name type none = none
  balloon_coords name type (some (xs, zs)) = placed_at name (f.stof xs) (f.stof zs) (stoi type)

  balloon_tail : Text → Option (Text × Text) → Option (Text × (E × E) × ℤ)
  balloon_tail name none = none
  balloon_tail name (some (place, type)) = balloon_coords name type (cut_comma place)

  balloon_fields : Option (Text × Text) → Option (Text × (E × E) × ℤ)
  balloon_fields none = none
  balloon_fields (some (name, rest)) = balloon_tail name (cut rest)

  unfoldable pub balloon_at : Text → Option (Text × (E × E) × ℤ)
  unfolding balloon_fields balloon_tail balloon_coords cents
  balloon_at input = balloon_fields (cut input)

  unfoldable pub place_sends : Clients → Option (Text × (E × E) × ℤ) → Manager → List Send
  unfolding pair_text
  place_sends cs none m = []
  place_sends cs (some (name, (x, z), type)) m =
      broadcast_to_user_room cs (trim (get_id_by_nickname cs name))
        (codes "PLACE_BALLOON_RESULT|"
          ++ (name ++ b'|' ∷ (pair_text x z ++ b'|' ∷ (int_string type ++ codes "\n"))))
        m

  -- PLACE_BALLOON
  unfoldable pub place_balloon : Clients → Text → Manager → List Send
  place_balloon cs input m = place_sends cs (balloon_at input) m

  -- The places that the water reaches: two to each side, then two up and down with the middle.
  unfoldable pub water_spread : E → E → Text
  unfolding pair_text
  water_spread x z = joined (codes ";") (
      map (λ d. pair_text (f.plus x d) z) (negsuc 1 ∷ negsuc 0 ∷ pos 1 ∷ pos 2 ∷ [])
      ++ map (λ d. pair_text x (f.plus z d)) (negsuc 1 ∷ negsuc 0 ∷ pos 0 ∷ pos 1 ∷ pos 2 ∷ []))

  unfoldable pub remove_sends : Clients → Option (Text × (E × E) × ℤ) → Manager → List Send
  unfolding pair_text
  remove_sends cs none m = []
  remove_sends cs (some (name, (x, z), type)) m =
      let sender = trim (get_id_by_nickname cs name) in
      broadcast_to_user_room cs sender
        (codes "REMOVE_BALLOON|" ++ (name ++ b'|' ∷ (pair_text x z ++ codes "\n"))) m
      ++ broadcast_to_user_room cs sender
          (codes "WATER_SPREAD|"
            ++ (name
                ++ b'|'
                  ∷ (pair_text x z
                      ++ b'|' ∷ (int_string type ++ b'|' ∷ (water_spread x z ++ codes "\n")))))
          m

  -- REMOVE_BALLOON
  unfoldable pub remove_balloon : Clients → Text → Manager → List Send
  remove_balloon cs input m = remove_sends cs (balloon_at input) m
