-- ===== src/Users/Query.antt =====
-- Login, the lobby, and what the rest of the server reads and counts (TeamOFYServer/UserManager.cpp).
-- An int that passes its limits is undefined in the source; here it goes on.
use bn_bserver.Prelude.{
  ℕ, zero, suc, ◌+◌, ◌*◌, Bool, Option, none, some, List, [], ◌∷◌, ◌++◌, if◌then◌else◌, map,
}
use bn_bserver.Prelude.Text.{Text, codes, ◌==◌}
use bn_bserver.Prelude.Int.{ℤ, pos, negsuc, int_string}
use bn_bserver.Rooms.{Send}
use bn_bserver.Rooms.Clients.{Client, Clients}
use bn_bserver.Users.{UserAccount, UserProfile, IntRow, Tables}
use bn_bserver.Users.Rows.{FloatText, noughts}
use bn_bserver.Users.Save.{find_row}
use bn_bserver.Users.Register.{is_empty, new_characters, new_stats, new_ballons, new_icons}

login_answer : UserAccount → Text → Text
login_answer u pw =
    if u.password == pw
    then codes "LOGIN_SUCCESS|"
      ++ (u.id ++ b',' ∷ (u.password ++ b',' ∷ (u.nickname ++ codes "\n")))
    else codes "WRONG_PASSWORD|\n"

login_found : Option UserAccount → Text → Text
login_found none pw = codes "ID_NOT_FOUND|\n"
login_found (some u) pw = login_answer u pw

-- CheckLogin
unfoldable pub check_login : Text → Text → List UserAccount → Text
unfolding login_found login_answer
check_login id pw users = login_found (find_row UserAccount.id id users) pw

module _ {ℓ} {R : Type ℓ} where
  -- The row of a user, and the vector with a new row at its end if the user has none.
  abbrev found_or_new : R → List R → Option R → R × List R
  found_or_new new rs none = (new, rs ++ new ∷ [])
  found_or_new new rs (some r) = (r, rs)

  unfoldable pub row_by_id : (R → Text) → Text → R → List R → R × List R
  row_by_id id u new rs = found_or_new new rs (find_row id u rs)

-- GetUserWinLossStatsById, GetUserEmotesById, GetUserBallonsById, GetUserIconsById and
-- GetUserCharactersById. A new record of emotes has none here.
unfoldable pub get_user_win_loss_stats_by_id : Text → List IntRow → IntRow × List IntRow
get_user_win_loss_stats_by_id u rs = row_by_id IntRow.id u (new_stats u) rs

unfoldable pub get_user_emotes_by_id : Text → List IntRow → IntRow × List IntRow
get_user_emotes_by_id u rs = row_by_id IntRow.id u (record { id = u; values = noughts 36 }) rs

unfoldable pub get_user_ballons_by_id : Text → List IntRow → IntRow × List IntRow
get_user_ballons_by_id u rs = row_by_id IntRow.id u (new_ballons u) rs

unfoldable pub get_user_icons_by_id : Text → List IntRow → IntRow × List IntRow
get_user_icons_by_id u rs = row_by_id IntRow.id u (new_icons u) rs

unfoldable pub get_user_characters_by_id : Text → List IntRow → IntRow × List IntRow
get_user_characters_by_id u rs = row_by_id IntRow.id u (new_characters u) rs

-- GetUserProfileById throws for a user without a profile.
unfoldable pub get_user_profile_by_id {ℓ} : {E : Type ℓ} → Text → Tables E → Option (UserProfile E)
get_user_profile_by_id u t = find_row UserProfile.id u t.profiles

-- x++
unfoldable pub next_int : ℤ → ℤ
next_int (pos n) = pos (suc n)
next_int (negsuc zero) = pos 0
next_int (negsuc (suc n)) = negsuc n

-- The value at a place; no case of a switch is 0.
unfoldable pub value_at : ℕ → List ℤ → ℤ
value_at n [] = pos 0
value_at zero (v ∷ vs) = v
value_at (suc n) (v ∷ vs) = value_at n vs

unfoldable pub change_at : ℕ → (ℤ → ℤ) → List ℤ → List ℤ
change_at n f [] = []
change_at zero f (v ∷ vs) = f v ∷ vs
change_at (suc n) f (v ∷ vs) = v ∷ change_at n f vs

-- The fields of a UserWinLossStats: winCount, loseCount, then a win and a loss for each character.
-- An index that no case has changes nothing.
unfoldable pub count_game : Bool → ℤ → List ℤ → List ℤ
count_game won (pos c) (wins ∷ losses ∷ vs) =
    if won
    then next_int wins ∷ losses ∷ change_at (2 * c) next_int vs
    else wins ∷ next_int losses ∷ change_at (2 * c + 1) next_int vs
count_game won (negsuc c) (wins ∷ losses ∷ vs) =
    if won then next_int wins ∷ losses ∷ vs else wins ∷ next_int losses ∷ vs
count_game won c vs = vs

-- The first row of a user, changed.
unfoldable pub change_row {ℓ} : {R : Type ℓ} → (R → Text) → Text → (R → R) → List R → List R
change_row id u f [] = []
change_row id u f (r ∷ rs) =
    let rest = change_row id u f rs in if id r == u then f r ∷ rs else r ∷ rest

-- UpdateWinLoss
unfoldable pub update_win_loss {ℓ} : {E : Type ℓ} → Text → Bool → ℤ → Tables E → Tables E
update_win_loss u won c t = record t {
  stats = change_row IntRow.id u (λ r. record r { values = count_game won c r.values }) t.stats;
}

or_nickname : Text → Option UserAccount → Text
or_nickname id none = id
or_nickname id (some u) = u.nickname

level_or_one {ℓ} : {E : Type ℓ} → Option (UserProfile E) → ℤ
level_or_one none = pos 1
level_or_one (some p) = p.level

to_logged_in : Text → List Client → List Send
to_logged_in message [] = []
to_logged_in message (c ∷ cs) =
    let rest = to_logged_in message cs in
    if is_empty c.id then rest else record { socket = c.socket; message = message } ∷ rest

module _ {ℓ} {E : Type ℓ} where
  lobby_entries : Tables E → List Client → Text
  lobby_entries t [] = []
  lobby_entries t (c ∷ cs) =
      let rest = lobby_entries t cs in
      if is_empty c.id
      then rest
      else b'|'
        ∷ (or_nickname c.id (find_row UserAccount.id c.id t.users)
            ++ b',' ∷ (int_string (level_or_one (find_row UserProfile.id c.id t.profiles)) ++ rest))

  -- BroadcastLobbyUserList: to every client with an id, of every client with an id.
  unfoldable pub broadcast_lobby_user_list : Clients → Tables E → List Send
  unfolding lobby_entries to_logged_in or_nickname level_or_one
  broadcast_lobby_user_list cs t =
      to_logged_in (codes "LOBBY_USER_LIST" ++ (lobby_entries t cs.all ++ codes "\n")) cs.all

  user_info : FloatText E → UserAccount → Option (UserProfile E) → Text
  user_info io u none = codes "PROFILE_NOT_FOUND|\n"
  user_info io u (some p) =
      codes "USER_INFO|"
      ++ (u.nickname ++ b',' ∷ (int_string p.level ++ b',' ∷ (io.fixed_string p.exp ++ codes "\n")))

  user_info_of : FloatText E → Tables E → Option UserAccount → Text
  user_info_of io t none = codes "USER_NOT_FOUND|\n"
  user_info_of io t (some u) = user_info io u (find_row UserProfile.id u.id t.profiles)

  -- SendUserInfoByNickname
  unfoldable pub send_user_info_by_nickname : FloatText E → Client → Text → Tables E → List Send
  unfolding user_info_of user_info
  send_user_info_by_nickname io c nickname t =
      record {
        socket = c.socket;
        message = user_info_of io t (find_row UserAccount.nickname nickname t.users);
      }
      ∷ []

-- BroadcastLobbyChatMessage
unfoldable pub broadcast_lobby_chat_message : Clients → Text → Text → List Send
broadcast_lobby_chat_message cs nickname message =
    map
      (λ c. record {
        socket = c.socket;
        message = codes "LOBBY_CHAT|" ++ (nickname ++ b':' ∷ (message ++ codes "\n"));
      })
      cs.all
