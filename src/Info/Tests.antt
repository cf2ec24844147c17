-- ===== src/Info/Tests.antt =====
-- Games of Ann, and what is sent of them.
use bn_bserver.Prelude.{◌≡◌, refl, List, [], ◌∷◌}
use bn_bserver.Prelude.Text.{codes, has_byte, before_byte, after_byte}
use bn_bserver.Prelude.Int.{pos, negsuc, int_string}
use bn_bserver.Prelude.Decimal.{to_string}
use bn_bserver.Rooms.Clients.{Client}
use bn_bserver.Users.{IntRow}
use bn_bserver.Users.Rows.{values_text}
use bn_bserver.Users.Query.{value_at, broadcast_lobby_chat_message}
use bn_bserver.Info.{CharWinLose, char_stats, send_win_rate, sum, lobby_message}

abbrev ann : Client
ann = record { socket = 4; id = codes "ann"; nickname = codes "Ann" }

abbrev games : IntRow
games = record {
  id = codes "ann";
  values =
      pos 5
      ∷ pos 4
      ∷ pos 1
      ∷ pos 0
      ∷ pos 0
      ∷ pos 0
      ∷ pos 0
      ∷ pos 0
      ∷ pos 0
      ∷ pos 0
      ∷ pos 0
      ∷ pos 0
      ∷ pos 0
      ∷ pos 0
      ∷ pos 4
      ∷ pos 4
      ∷ [];
}

-- A sort that puts the last one first.
abbrev last_first : List CharWinLose → List CharWinLose
last_first (a ∷ b ∷ c ∷ d ∷ e ∷ f ∷ g ∷ rest) = g ∷ a ∷ b ∷ c ∷ d ∷ e ∷ f ∷ rest
last_first other = other

win_rate :
    send_win_rate last_first ann (codes "Ann") games
    ≡ record { socket = 4; message = codes "WINRATE|Ann,5,4,6,4,4,0,1,0,1,0,0\n" } ∷ []
unfolding send_win_rate char_stats values_text value_at int_string to_string
win_rate = refl

sums : sum (pos 2) (negsuc 4) ≡ negsuc 2
unfolding sum
sums = refl

chat :
    lobby_message (record { clients_map = []; all = ann ∷ [] }) (codes "Ann:hi")
    ≡ record { socket = 4; message = codes "LOBBY_CHAT|Ann:hi\n" } ∷ []
unfolding lobby_message broadcast_lobby_chat_message has_byte before_byte after_byte
chat = refl
