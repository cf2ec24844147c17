-- ===== src/Dispatch.antt =====
-- ProcessMessages (TeamOFYServer/ClientHandler.cpp): how a received text becomes messages, and which
-- handler takes a message. What HandleClient does with an exception of it is here too.
--
-- The handlers are a parameter: each takes the message and a state of any type, and ends in one of
-- the ways of `Ending`. The log lines are not modelled.
pub mod Heads
pub mod Tests
use bn_bserver.Prelude.{
  ℕ, zero, suc, Bool, true, false, ◌&&◌, Option, none, some, List, [], ◌∷◌, if◌then◌else◌, eqb,
  length, drop,
}
use bn_bserver.Prelude.Text.{Text, codes, ◌==◌, has_byte, before_byte, after_byte}
use bn_bserver.Users.Register.{is_empty}

-- How a handler ends: it goes on behind the chain of tests, or returns, or throws std::invalid_argument
-- or std::out_of_range, or throws std::runtime_error.
pub data Ending : Type 0 where
  passed returns bad_argument run_time_error : Ending

-- The handlers, in the order of the tests.
pub data Command : Type 0 where
  login register quit get_user_info get_lobby_user_list get_room_list lobby_message logout getinfo
        get_balloon_info get_emo_info get_icon_info emo_change balloon_change icon_change
        get_char_winloss get_coin get_store_char_list get_store_balloon_list get_store_emo_list
        get_store_icon_list buy_char buy_balloon buy_emo buy_icon create_room enter_room
        room_message exit_room get_character choose_character teamchange start_game get_map
        get_balloon get_emo emo_click move weapon_attack melody_move melody_destroy hitwall
        destroy_spell destroy_block hit melody_spawn place_balloon remove_balloon water_hit dead
        ready_to_exit :
      Command

-- A test: a message that is the head, or a message that starts with it.
pub record Test : Type 0 where
  pub head : Text
  pub whole : Bool
  pub command : Command

abbrev starting : Text → Command → Test
starting head command = record { head = head; whole = false; command = command }

abbrev equal : Text → Command → Test
equal head command = record { head = head; whole = true; command = command }

-- The chain of tests.
abbrev pub tests : List Test
tests =
    starting (codes "LOGIN|") login
    ∷ starting (codes "REGISTER|") register
    ∷ equal (codes "QUIT|") quit
    ∷ starting (codes "GET_USER_INFO|") get_user_info
    ∷ equal (codes "GET_LOBBY_USER_LIST|") get_lobby_user_list
    ∷ equal (codes "GET_ROOM_LIST|") get_room_list
    ∷ starting (codes "LOBBY_MESSAGE|") lobby_message
    ∷ starting (codes "LOGOUT|") logout
    ∷ starting (codes "GETINFO|") getinfo
    ∷ starting (codes "GET_BALLOON_INFO|") get_balloon_info
    ∷ starting (codes "GET_EMO_INFO|") get_emo_info
    ∷ starting (codes "GET_ICON_INFO|") get_icon_info
    ∷ starting (codes "EMO_CHANGE|") emo_change
    ∷ starting (codes "BALLOON_CHANGE|") balloon_change
    ∷ starting (codes "ICON_CHANGE|") icon_change
    ∷ starting (codes "GET_CHAR_WINLOSS|") get_char_winloss
    ∷ starting (codes "GET_COIN|") get_coin
    ∷ starting (codes "GET_STORE_CHAR_LIST|") get_store_char_list
    ∷ starting (codes "GET_STORE_BALLOON_LIST|") get_store_balloon_list
    ∷ starting (codes "GET_STORE_EMO_LIST|") get_store_emo_list
    ∷ starting (codes "GET_STORE_ICON_LIST|") get_store_icon_list
    ∷ starting (codes "BUY_CHAR|") buy_char
    ∷ starting (codes "BUY_BALLOON|") buy_balloon
    ∷ starting (codes "BUY_EMO|") buy_emo
    ∷ starting (codes "BUY_ICON|") buy_icon
    ∷ starting (codes "CREATE_ROOM|") create_room
    ∷ starting (codes "ENTER_ROOM|") enter_room
    ∷ starting (codes "ROOM_MESSAGE|") room_message
    ∷ starting (codes "EXIT_ROOM|") exit_room
    ∷ starting (codes "GET_CHARACTER|") get_character
    ∷ starting (codes "CHOOSE_CHARACTER|") choose_character
    ∷ starting (codes "TEAMCHANGE|") teamchange
    ∷ starting (codes "START_GAME|") start_game
    ∷ starting (codes "GET_MAP|") get_map
    ∷ starting (codes "GET_BALLOON|") get_balloon
    ∷ starting (codes "GET_EMO|") get_emo
    ∷ starting (codes "EMO_CLICK|") emo_click
    ∷ starting (codes "MOVE|") move
    ∷ starting (codes "WEAPON_ATTACK|") weapon_attack
    ∷ starting (codes "MELODY_MOVE|") melody_move
    ∷ starting (codes "MELODY_DESTROY|") melody_destroy
    ∷ starting (codes "HITWALL|") hitwall
    ∷ starting (codes "DESTROY_SPELL|") destroy_spell
    ∷ starting (codes "DESTROY_BLOCK|") destroy_block
    ∷ starting (codes "HIT|") hit
    ∷ starting (codes "MELODY_SPAWN|") melody_spawn
    ∷ starting (codes "PLACE_BALLOON|") place_balloon
    ∷ starting (codes "REMOVE_BALLOON|") remove_balloon
    ∷ starting (codes "WATER_HIT|") water_hit
    ∷ starting (codes "DEAD|") dead
    ∷ starting (codes "READY_TO_EXIT|") ready_to_exit
    ∷ []

-- message.rfind(head, 0) == 0
unfoldable pub has_head : Text → Text → Bool
has_head [] s = true
has_head (c ∷ head) [] = false
has_head (c ∷ head) (d ∷ s) = eqb c d && has_head head s

unfoldable pub holds_for : Test → Text → Bool
unfolding has_head
holds_for t message = if t.whole then message == t.head else has_head t.head message

-- The first test that holds, with what stands behind its head.
unfoldable pub first_test : List Test → Text → Option (Command × Text)
unfolding holds_for
first_test [] message = none
first_test (t ∷ ts) message =
    let rest = first_test ts message in
    if holds_for t message then some (t.command, drop (length t.head) message) else rest

unfoldable pub command_of : Text → Option (Command × Text)
command_of message = first_test tests message

module _ {ℓ} {S : Type ℓ} (handler : Command → Text → S → S × Ending) where
  unfoldable pub handle : Option (Command × Text) → S → S × Ending
  handle none s = (s, passed)
  handle (some (command, rest)) s = handler command rest s

  -- Behind a message: the rest of the text, if there is a line feed and the handler has not returned.
  unfoldable pub go_on : (S → S × Ending) → Bool → S × Ending → S × Ending
  go_on rest more (s, passed) = if more then rest s else (s, passed)
  go_on rest more (s, returns) = (s, returns)
  go_on rest more (s, bad_argument) = (s, bad_argument)
  go_on rest more (s, run_time_error) = (s, run_time_error)

  -- The loop over the messages of a text, up to an empty one. Each round takes a byte at least.
  unfoldable pub process_messages : ℕ → Text → S → S × Ending
  unfolding go_on
  process_messages zero recv s = (s, passed)
  process_messages (suc fuel) recv s =
      if is_empty (before_byte 10 recv)
      then (s, passed)
      else go_on (process_messages fuel (after_byte 10 recv)) (has_byte 10 recv)
          (handle (command_of (before_byte 10 recv)) s)

  module _ (disconnect : S → S) (send_error : S → S) where
    -- What HandleClient does with an exception.
    unfoldable pub caught : S × Ending → S
    caught (s, passed) = s
    caught (s, returns) = s
    caught (s, bad_argument) = disconnect s
    caught (s, run_time_error) = send_error s

    -- The call of HandleClient.
    unfoldable pub process : Text → S → S
    unfolding caught
    process recv s = caught (process_messages (suc (length recv)) recv s)
