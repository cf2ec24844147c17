-- ===== src/Reward.antt =====
-- The end of a match: the handler DEAD of TeamOFYServer/ClientHandler.cpp, with the winner, the rewards of
-- the users of the room, their commit, and the death that is taken back when they fail.
--
-- The float `exp` of a profile is of any type `E`, with what the code does with it as parameters. The
-- fuel is that of the loop over the levels: a loop that it does not suffice for counts as a process
-- that does not go on. The rooms do not change while the rewards are given.
pub mod Levels
pub mod Winner
pub mod Players
pub mod Given
pub mod Mirrored
pub mod Settling
pub mod Undoing
pub mod Sample
pub mod Tests
use bn_bserver.Prelude.{
  ℕ, zero, suc, ◌+◌, ◌*◌, Bool, true, false, Option, none, some, List, [], ◌∷◌, ◌++◌, if◌then◌else◌,
}
use bn_bserver.Prelude.Text.{Text, codes, ◌==◌}
use bn_bserver.Prelude.Assoc.{lookup}
use bn_bserver.Prelude.Decimal.{to_string}
use bn_bserver.Prelude.Int.{ℤ, pos, negsuc, int_string, add_nat}
use bn_bserver.Rooms.{Room, Manager, Send, member, get_user_room_id}
use bn_bserver.Rooms.Clients.{Clients}
use bn_bserver.Rooms.Messages.{character_of, or_none, display_name}
use bn_bserver.Rooms.Match.{record_death, retry_death}
use bn_bserver.Rooms.Relay.{broadcast_to_user_room}
use bn_bserver.Users.{
  UserProfile, Tables, UserManager, Outcome, returned, threw, terminated, Action, run_then, pure,
  ◌>>=◌, commit_transaction, in_transaction,
}
use bn_bserver.Users.Rows.{FloatText}
use bn_bserver.Users.Register.{is_empty}
use bn_bserver.Users.Save.{save_user_profile, save_user_win_loss_stats}
use bn_bserver.Users.Query.{get_user_profile_by_id, next_int, change_row, update_win_loss}
use bn_bserver.Shop.{user_of}

-- `e += n`, `e -= n` and `e >= n` for a float `e` and an int `n`.
pub record FloatMath {ℓ} (E : Type ℓ) : Type ℓ where
  pub add_int : E → ℤ → E
  pub sub_int : E → ℤ → E
  pub ge_int : E → ℤ → Bool

-- gainedExp, gainedCoin0 and gainedCoin1
pub record Gains : Type 0 where
  pub exp : ℕ
  pub coin0 : ℕ
  pub coin1 : ℕ

unfoldable pub gains : Bool → Gains
gains won =
    if won
    then record { exp = 50; coin0 = 500; coin1 = 5 }
    else record { exp = 30; coin0 = 200; coin1 = 0 }

-- level * 100
unfoldable pub hundreds : ℤ → ℤ
hundreds (pos n) = pos (n * 100)
hundreds (negsuc n) = negsuc (n * 100 + 99)

-- The team of a user of the room, "None" without one.
abbrev pub team_of : Room → Text → Text
team_of r u = or_none (lookup u r.team_assignments)

module _ {ℓ} {E : Type ℓ} where
  -- while (exp >= level * 100) { exp -= level * 100; level++; }
  unfoldable pub level_up : FloatMath E → ℕ → ℤ → E → Option (ℤ × E)
  level_up fm zero level exp = none
  level_up fm (suc fuel) level exp =
      let rest = level_up fm fuel (next_int level) (fm.sub_int exp (hundreds level)) in
      if fm.ge_int exp (hundreds level) then rest else some (level, exp)

  -- The level and the `exp` of a profile behind its reward.
  unfoldable pub levels_of : FloatMath E → ℕ → Gains → UserProfile E → Option (ℤ × E)
  levels_of fm fuel g p = level_up fm fuel p.level (fm.add_int p.exp (pos g.exp))

  -- A profile behind its reward.
  unfoldable pub rewarded : Gains → ℤ → E → UserProfile E → UserProfile E
  rewarded g level exp p = record p {
    level = level;
    exp = exp;
    money0 = add_nat p.money0 g.coin0;
    money1 = add_nat p.money1 g.coin1;
  }

  -- The tables with the changed profile of a user and its game counted.
  unfoldable pub rewarded_tables : Room → Text → Bool → ℤ → E → Tables E → Tables E
  rewarded_tables r u won level exp t = update_win_loss u won (character_of r u) (record t {
    profiles = change_row UserProfile.id u (rewarded (gains won) level exp) t.profiles;
  })

-- What REWARD_RESULT says of a user.
unfoldable pub reward_text : Text → ℤ → Gains → Text
reward_text nickname level g =
    b'|'
    ∷ (nickname
        ++ (codes ",level:"
            ++ (int_string level
                ++ (codes ",exp:"
                    ++ (to_string g.exp
                        ++ (codes ",money0:"
                            ++ (to_string g.coin0 ++ (codes ",money1:" ++ to_string g.coin1))))))))

module _ {ℓ} {E : Type ℓ} (io : FloatText E) (fm : FloatMath E) (fuel k : ℕ) (cs : Clients)
    (r : Room) where
  unfoldable pub reward_raised : Text → Bool → Option (ℤ × E) → Action E Text
  reward_raised u won none m = (terminated, m)
  reward_raised u won (some (level, exp)) m =
      (save_user_win_loss_stats u >>= (λ _.
          save_user_profile io u
          >>= (λ _. pure (reward_text (display_name cs u) level (gains won)))))
        (record m { tables = rewarded_tables r u won level exp m.tables })

  unfoldable pub reward_found : Text → Bool → Option (UserProfile E) → Action E Text
  reward_found u won none m = (threw, m)
  reward_found u won (some p) m = reward_raised u won (levels_of fm fuel (gains won) p) m

  -- The round of the loop for a user.
  unfoldable pub reward_user : Text → Bool → Action E Text
  reward_user u won m = reward_found u won (get_user_profile_by_id u m.tables) m

  unfoldable pub reward_users : (Text → Bool) → List Text → Action E Text
  reward_users won [] = pure []
  reward_users won (u ∷ us) =
      reward_user u (won u) >>= (λ t. reward_users won us >>= (λ ts. pure (t ++ ts)))

  -- Behind the commit: both messages go to the room of the user who died.
  unfoldable pub reward_sent : Text → Text → Manager → Text → Bool → Action E (List Send)
  reward_sent u message rooms entries true m = (
    returned (
        broadcast_to_user_room cs u message rooms
        ++ broadcast_to_user_room cs u (codes "REWARD_RESULT" ++ (entries ++ codes "\n")) rooms),
    m,
  )
  reward_sent u message rooms entries false m = (threw, m)

  -- The scope of the transaction.
  unfoldable pub give_rewards : (Text → Bool) → Text → Text → Manager → Action E (List Send)
  give_rewards won u message rooms = in_transaction (
      reward_users won r.users
      >>= (λ entries. commit_transaction k >>= reward_sent u message rooms entries))

-- aliveTeams[team].push_back(nickname); a new team stands at the end.
unfoldable pub push_team : Text → Text → List (Text × List Text) → List (Text × List Text)
push_team team name [] = (team, name ∷ []) ∷ []
push_team team name ((t, names) ∷ teams) =
    if t == team then (t, names ++ name ∷ []) ∷ teams else (t, names) ∷ push_team team name teams

unfoldable pub alive_from :
    Clients → Room → List Text → List Text → List (Text × List Text) → List (Text × List Text)
alive_from cs r dead [] teams = teams
alive_from cs r dead (u ∷ us) teams =
    alive_from cs r dead us
      (if member u dead then teams else push_team (team_of r u) (display_name cs u) teams)

-- aliveTeams: the nicknames of the users who are alive, by their teams.
unfoldable pub alive_teams : Clients → Room → List Text → List (Text × List Text)
unfolding alive_from
alive_teams cs r dead = alive_from cs r dead r.users []

-- The one nickname of the first team.
unfoldable pub solo_winner : List (Text × List Text) → Option Text
solo_winner ((team, name ∷ []) ∷ teams) = some name
solo_winner _ = none

-- The one team.
unfoldable pub team_winner : List (Text × List Text) → Option (Text × List Text)
team_winner ((team, names) ∷ []) = some (team, names)
team_winner _ = none

unfoldable pub with_commas : List Text → Text
with_commas [] = []
with_commas (name ∷ names) = b',' ∷ (name ++ with_commas names)

-- What a message does to the rooms and the users, what it sends, and how its handler ends.
pub record Reply {ℓ} (E : Type ℓ) : Type ℓ where
  pub rooms : Manager
  pub users : UserManager E
  pub sends : List Send
  pub outcome : Outcome (Unit {0})

module _ {ℓ} {E : Type ℓ} (io : FloatText E) (fm : FloatMath E) (fuel k : ℕ) (cs : Clients) where
  unfoldable pub solo_end : Room → Text → Manager → Option Text → Action E (List Send)
  solo_end r u rooms none = pure []
  solo_end r u rooms (some winner) =
      give_rewards io fm fuel k cs r (λ v. display_name cs v == winner) u
        (codes "WIN|" ++ (winner ++ codes "\n")) rooms

  unfoldable pub coop_end : Room → Text → Manager → Option (Text × List Text) → Action E (List Send)
  coop_end r u rooms none = pure []
  coop_end r u rooms (some (team, names)) =
      give_rewards io fm fuel k cs r (λ v. team_of r v == team) u
        (codes "TEAM_WIN|" ++ (team ++ (with_commas names ++ codes "\n"))) rooms

  -- The try block.
  unfoldable pub resolve_match : Room → List Text → Text → Manager → Action E (List Send)
  resolve_match r dead u rooms =
      if r.is_coop_mode
      then coop_end r u rooms (team_winner (alive_teams cs r dead))
      else solo_end r u rooms (solo_winner (alive_teams cs r dead))

  -- The catch block takes the death back and throws again.
  unfoldable pub resolved_reply :
      Room → Text → Manager → List Send → Outcome (List Send) × UserManager E → Reply E
  resolved_reply r u rooms sends (returned more, m) = record {
    rooms = rooms;
    users = m;
    sends = sends ++ more;
    outcome = returned tt;
  }
  resolved_reply r u rooms sends (threw, m) = record {
    rooms = retry_death r u rooms;
    users = m;
    sends = sends;
    outcome = threw;
  }
  resolved_reply r u rooms sends (terminated, m) = record {
    rooms = rooms;
    users = m;
    sends = sends;
    outcome = terminated;
  }

  unfoldable pub told_reply :
      Room → List Text → Bool → Text → Manager → List Send → UserManager E → Reply E
  told_reply r dead resolves u rooms sends m =
      if resolves
      then resolved_reply r u rooms sends (resolve_match r dead u rooms m)
      else record { rooms = rooms; users = m; sends = sends; outcome = returned tt }

  unfoldable pub death_reply :
      Text → Text → List Text → Bool → Option Room → Manager → UserManager E → Reply E
  death_reply nickname u dead resolves none rooms m = record {
    rooms = rooms;
    users = m;
    sends = [];
    outcome = returned tt;
  }
  death_reply nickname u dead resolves (some r) rooms m =
      told_reply r dead resolves u rooms
        (broadcast_to_user_room cs u (codes "PLAYER_DEAD|" ++ (nickname ++ codes "\n")) rooms) m

  -- The handler DEAD behind the head of its message.
  unfoldable pub handle_dead : Text → Manager → UserManager E → Reply E
  handle_dead nickname rooms m =
      let u = user_of cs nickname in
      let (rooms', death) = record_death u rooms in
      if is_empty (get_user_room_id u rooms)
      then record { rooms = rooms; users = m; sends = []; outcome = returned tt }
      else death_reply nickname u death.dead death.resolves_match death.room rooms' m
