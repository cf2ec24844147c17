-- ===== src/Info.antt =====
-- Requests of TeamOFYServer/ClientHandler.cpp that look something up and send it: LOBBY_MESSAGE, REGISTER, GETINFO,
-- GET_BALLOON_INFO, GET_EMO_INFO, GET_ICON_INFO, GET_CHAR_WINLOSS, GET_CHARACTER, GET_BALLOON and GET_EMO, each
-- behind the head of its message, and SendWinRate. GET_USER_INFO, GET_LOBBY_USER_LIST, GET_ROOM_LIST, GET_COIN and
-- the lists of the shop are calls of one function each, which stand in Users, Rooms and Shop.
--
-- The order that std::sort makes of equal totals is a parameter: the sort itself is an argument.
pub mod Tests
use bn_bserver.Prelude.{
  ℕ, suc, ◌+◌, ◌*◌, Bool, Option, none, some, List, [], ◌∷◌, ◌++◌, if◌then◌else◌, take, drop, map,
}
use bn_bserver.Prelude.Text.{Text, codes, has_byte, before_byte, after_byte, getline, trim}
use bn_bserver.Prelude.Decimal.{to_string}
use bn_bserver.Prelude.Int.{ℤ, pos, negsuc, add_nat, difference, int_string}
use bn_bserver.Rooms.{Send}
use bn_bserver.Rooms.Clients.{Client, Clients}
use bn_bserver.Rooms.Messages.{joined}
use bn_bserver.Users.{
  UserAccount, UserProfile, IntRow, Tables, UserManager, Outcome, Action, returned, threw, pure,
  ◌>>=◌,
}
use bn_bserver.Users.Rows.{FloatText, values_text}
use bn_bserver.Users.Register.{is_empty, register_user}
use bn_bserver.Users.Query.{
  get_user_profile_by_id, get_user_win_loss_stats_by_id, get_user_emotes_by_id,
  get_user_ballons_by_id, get_user_icons_by_id, value_at, broadcast_lobby_chat_message,
}
use bn_bserver.Users.Lookup.{
  get_emotions_by_user_id, get_balloon_by_user_id, get_characters_by_user_id,
}
use bn_bserver.Shop.{user_of, to_client}
use bn_bserver.Shop.Equip.{send_set_info, send_user_emotes, send_user_ballons, send_user_icons}

-- The games of a character.
pub record CharWinLose : Type 0 where
  pub index : ℕ
  pub win : ℤ
  pub lose : ℤ
  pub total : ℤ

unfoldable pub sum : ℤ → ℤ → ℤ
sum a (pos n) = add_nat a n
sum (pos a) (negsuc b) = difference a (suc b)
sum (negsuc a) (negsuc b) = negsuc (suc (a + b))

-- charStats, from a character on.
unfoldable pub char_stats : ℕ → List ℕ → List ℤ → List CharWinLose
char_stats i [] vs = []
char_stats i (_ ∷ more) vs =
    let win = value_at (2 + 2 * i) vs in
    let lose = value_at (3 + 2 * i) vs in
    record { index = i; win = win; lose = lose; total = sum win lose } ∷ char_stats (i + 1) more vs

abbrev seven : List ℕ
seven = 0 ∷ 1 ∷ 2 ∷ 3 ∷ 4 ∷ 5 ∷ 6 ∷ []

win_entry : CharWinLose → Text
win_entry s = b',' ∷ (to_string s.index ++ values_text (s.win ∷ s.lose ∷ []))

win_entries : List CharWinLose → Text
unfolding win_entry
win_entries [] = []
win_entries (s ∷ ss) = win_entry s ++ win_entries ss

-- SendWinRate, with the sort by totals, highest first.
unfoldable pub send_win_rate :
    (List CharWinLose → List CharWinLose) → Client → Text → IntRow → List Send
unfolding win_entries
send_win_rate sort c nickname row = to_client c (
    codes "WINRATE|"
    ++ (nickname
        ++ (values_text (take 2 row.values)
            ++ (win_entries (take 3 (sort (char_stats 0 seven row.values))) ++ codes "\n"))))

lobby_message_at : Clients → Option (Text × Text) → List Send
lobby_message_at cs none = []
lobby_message_at cs (some (nickname, message)) = broadcast_lobby_chat_message cs nickname message

-- LOBBY_MESSAGE
unfoldable pub lobby_message : Clients → Text → List Send
unfolding lobby_message_at
lobby_message cs input =
    lobby_message_at cs
      (if has_byte b':' input then some (before_byte b':' input, after_byte b':' input) else none)

module _ {ℓ} {E : Type ℓ} where
  register_account : FloatText E → ℕ → Client → UserAccount → Action E (List Send)
  register_account io k c u = register_user io k u >>= (λ response. pure (to_client c response))

  register_nick :
      FloatText E → ℕ → Client → Text → Text → Option (Text × Text) → Action E (List Send)
  register_nick io k c id pw none = pure (to_client c (codes "REGISTER_ERROR|\n"))
  register_nick io k c id pw (some (nick, _)) =
      register_account io k c (record { id = id; password = pw; nickname = nick })

  register_pw : FloatText E → ℕ → Client → Text → Option (Text × Text) → Action E (List Send)
  register_pw io k c id none = pure (to_client c (codes "REGISTER_ERROR|\n"))
  register_pw io k c id (some (pw, rest)) = register_nick io k c id pw (getline 10 rest)

  register_id : FloatText E → ℕ → Client → Option (Text × Text) → Action E (List Send)
  register_id io k c none = pure (to_client c (codes "REGISTER_ERROR|\n"))
  register_id io k c (some (id, rest)) = register_pw io k c id (getline b',' rest)

  -- REGISTER
  unfoldable pub register : FloatText E → ℕ → Client → Text → Action E (List Send)
  unfolding register_id register_pw register_nick register_account
  register io k c input = register_id io k c (getline b',' input)

  -- The rows of a user, with new ones for those that are missing.
  abbrev with_rows : Text → Tables E → Tables E
  with_rows u t = record t {
    stats = (get_user_win_loss_stats_by_id u t.stats).1;
    emotes = (get_user_emotes_by_id u t.emotes).1;
    balloons = (get_user_ballons_by_id u t.balloons).1;
    icons = (get_user_icons_by_id u t.icons).1;
  }

  info_sends :
      FloatText E
      → (List CharWinLose → List CharWinLose)
      → Clients
      → Client
      → Text
      → UserProfile E
      → IntRow
      → Action E (List Send)
  info_sends io sort cs c nickname p stats = send_user_emotes cs c nickname >>= (λ emotes.
      send_user_ballons cs c nickname >>= (λ balloons. send_user_icons cs c nickname >>= (λ icons.
        pure (
          send_set_info io c nickname p
          ++ (send_win_rate sort c nickname stats ++ (emotes ++ (balloons ++ icons)))))))

  info_of :
      FloatText E
      → (List CharWinLose → List CharWinLose)
      → Clients
      → Client
      → Text
      → Option (UserProfile E)
      → Action E (List Send)
  info_of io sort cs c nickname none m = (returned [], m)
  info_of io sort cs c nickname (some p) m =
      let u = user_of cs nickname in
      info_sends io sort cs c nickname p (get_user_win_loss_stats_by_id u m.tables.stats).0
        (record m { tables = with_rows u m.tables })

  -- GETINFO: a user without a profile is caught, and nothing is sent.
  unfoldable pub get_info :
      FloatText E
      → (List CharWinLose → List CharWinLose)
      → Clients
      → Client
      → Text
      → Action E (List Send)
  unfolding info_of info_sends
  get_info io sort cs c input m =
      let nickname = trim input in
      let u = user_of cs nickname in
      if is_empty u
      then (returned [], m)
      else info_of io sort cs c nickname (get_user_profile_by_id u m.tables) m

  without_throw : Outcome (List Send) × UserManager E → Outcome (List Send) × UserManager E
  without_throw (threw, m) = (returned [], m)
  without_throw (outcome, m) = (outcome, m)

  -- What a try block of a handler leaves.
  unfoldable pub caught_action : Action E (List Send) → Action E (List Send)
  unfolding without_throw
  caught_action f m = without_throw (f m)

  -- GET_BALLOON_INFO, GET_EMO_INFO and GET_ICON_INFO. The function that sends tests for an empty id
  -- and looks the row up again.
  unfoldable pub get_balloon_info : Clients → Client → Text → Action E (List Send)
  get_balloon_info cs c input = send_user_ballons cs c (trim input)

  unfoldable pub get_emo_info : Clients → Client → Text → Action E (List Send)
  get_emo_info cs c input = send_user_emotes cs c (trim input)

  unfoldable pub get_icon_info : Clients → Client → Text → Action E (List Send)
  get_icon_info cs c input = caught_action (send_user_icons cs c (trim input))

  -- GET_CHAR_WINLOSS: the games of the seven characters.
  unfoldable pub get_char_winloss : Clients → Client → Text → Action E (List Send)
  get_char_winloss cs c input m =
      let nickname = trim input in
      let u = user_of cs nickname in
      let (row, rows) = get_user_win_loss_stats_by_id u m.tables.stats in
      if is_empty u then (returned [], m) else (
        returned (
            to_client c (
              codes "CHAR_WINLOSS|"
              ++ (nickname ++ (values_text (drop 2 row.values) ++ codes "\n")))),
        record m { tables = record m.tables { stats = rows } },
      )

list_text : List ℤ → Text
list_text vs = joined (codes ",") (map int_string vs)

characters_sent : Client → Option (List ℤ) → Option (List Send)
characters_sent c none = none
characters_sent c (some []) = some []
characters_sent c (some (v ∷ vs)) =
    some (to_client c (codes "CHARACTER_LIST|" ++ (list_text (v ∷ vs) ++ codes "\n")))

-- GET_CHARACTER, with the file of the characters; none is an exception of std::stoi.
unfoldable pub get_character : Clients → Client → Option Text → Text → Option (List Send)
unfolding characters_sent list_text
get_character cs c file input =
    let u = user_of cs (trim input) in
    if is_empty u then some [] else characters_sent c (get_characters_by_user_id u file)

-- GET_BALLOON and GET_EMO, with the file of the profiles.
unfoldable pub get_balloon : Clients → Client → Option Text → Text → List Send
get_balloon cs c file input =
    let u = user_of cs (trim input) in
    if is_empty u
    then []
    else to_client c
        (codes "BALLOON_LIST|" ++ (int_string (get_balloon_by_user_id u file) ++ codes "\n"))

unfoldable pub get_emo : Clients → Client → Option Text → Text → List Send
unfolding list_text
get_emo cs c file input =
    let u = user_of cs (trim input) in
    if is_empty u
    then []
    else to_client c
        (codes "EMO_LIST|" ++ (list_text (get_emotions_by_user_id u file) ++ codes "\n"))
