-- ===== src/Reward/Tests.antt =====
-- Tests of the rewards, and the theorems at concrete inputs.
use bn_bserver.Prelude.{
  ℕ, ◌≤◌, ◌≡◌, refl, Bool, true, false, if◌then◌else◌, some, [], ◌∷◌, ◌++◌, arith, All, length,
}
use bn_bserver.Prelude.Text.{Text, codes, ◌==◌, trim, has_byte}
use bn_bserver.Prelude.Assoc.{lookup}
use bn_bserver.Prelude.Lines.{joined_by}
use bn_bserver.Prelude.Decimal.{to_string, digits_onto, read_digits, is_digit}
use bn_bserver.Prelude.Int.{pos, int_string, add_nat}
use bn_bserver.CsvStore.{Images, max_image, commit}
use bn_bserver.Rooms.{member}
use bn_bserver.Rooms.Clients.{get_nickname_by_id}
use bn_bserver.Rooms.Messages.{display_name, character_of}
use bn_bserver.Rooms.Relay.{broadcast_to_user_room}
use bn_bserver.Users.{UserProfile, IntRow, Tables, returned}
use bn_bserver.Users.Rows.{noughts, values_text, profile_text, int_row_text}
use bn_bserver.Users.Query.{next_int, count_game, change_row, change_at, update_win_loss}
use bn_bserver.Users.Save.{find_row}
use bn_bserver.Users.Tally.{Games, by_character, count_at}
use bn_bserver.Users.Saved.{rows_with}
use bn_bserver.Users.Loaded.{Mirrors, file_text}
use bn_bserver.Reward.{
  gains, hundreds, level_up, levels_of, rewarded, rewarded_tables, give_rewards,
}
use bn_bserver.Reward.Levels.{FloatLaws, IsLevelled, level_up-IsLevelled}
use bn_bserver.Reward.Winner.{AgreeOn, decided-AgreeOn}
use bn_bserver.Reward.Players.{IsPlayer, AreDistinct, granted, all_granted}
use bn_bserver.Reward.Given.{reward_lines}
use bn_bserver.Reward.Mirrored.{
  paid_out, played_row, images, give_rewards-Mirrors, give_rewards-member,
}
use bn_bserver.Reward.Sample.{
  point_text, points, player, games, players, player_files, arena, connected, room, rooms,
  players-IsStored, players-Mirrors,
}

abbrev points-FloatLaws : FloatLaws points
points-FloatLaws = record {
  whole = λ e. e;
  fits = λ e. true;
  compares = λ e n h. refl;
  subtracts = λ e n h le. (refl, refl);
}

-- 350 points of level 1 are two levels and 50 points.
level_up_runs : level_up points 20 (pos 1) 350 ≡ some (pos 3, 50)
unfolding level_up hundreds next_int
level_up_runs = refl

level_up-IsLevelled_example : IsLevelled points points-FloatLaws 1 350 400 350
level_up-IsLevelled_example =
    level_up-IsLevelled points points-FloatLaws 400 1 350 refl (omega arith)

decided-AgreeOn_example : AgreeOn connected (room true) (codes "bob" ∷ [])
decided-AgreeOn_example = decided-AgreeOn connected (room true) (codes "bob" ∷ [])

ann_wins : Text → Bool
ann_wins v = display_name connected v == codes "Ann"

ann_IsPlayer : IsPlayer point_text points 20 (room false) ann_wins players (codes "ann")
unfolding ann_wins display_name get_nickname_by_id trim ◌==◌ find_row rows_with levels_of level_up
    hundreds next_int gains rewarded add_nat count_game change_at noughts character_of lookup
    has_byte to_string digits_onto read_digits is_digit
ann_IsPlayer = record {
  profile = player (codes "ann") 60;
  row = games (codes "ann");
  level = pos 2;
  exp = 10;
  has_profile = refl;
  has_row = refl;
  one_profile = omega arith;
  one_row = omega arith;
  levels = refl;
  writes = ((refl, refl), omega arith, ((refl, refl), refl), omega arith);
  counts = ((refl, refl), refl, omega arith);
}

bob_IsPlayer : IsPlayer point_text points 20 (room false) ann_wins players (codes "bob")
unfolding ann_wins display_name get_nickname_by_id trim ◌==◌ find_row rows_with levels_of level_up
    hundreds next_int gains rewarded add_nat count_game change_at noughts character_of lookup
    has_byte to_string digits_onto read_digits is_digit
bob_IsPlayer = record {
  profile = player (codes "bob") 0;
  row = games (codes "bob");
  level = pos 1;
  exp = 30;
  has_profile = refl;
  has_row = refl;
  one_profile = omega arith;
  one_row = omega arith;
  levels = refl;
  writes = ((refl, refl), omega arith, ((refl, refl), refl), omega arith);
  counts = ((refl, refl), refl, omega arith);
}

two_distinct : AreDistinct (room false).users
unfolding member ◌==◌
two_distinct = (refl, (refl, tt))

abbrev two_players :
    All (IsPlayer point_text points 20 (room false) ann_wins players) (room false).users
two_players = (ann_IsPlayer, (bob_IsPlayer, tt))

abbrev behind : Tables ℕ
behind = all_granted point_text points 20 (room false) ann_wins (room false).users players

small_profiles :
    length (file_text (profile_text point_text) (codes "id,level") behind.profiles) ≤ max_image
unfolding all_granted granted ann_wins display_name get_nickname_by_id trim ◌==◌ find_row levels_of
    level_up hundreds next_int gains rewarded rewarded_tables update_win_loss change_row add_nat
    joined_by profile_text values_text int_string to_string character_of count_game
small_profiles = omega arith

small_stats : length (file_text int_row_text (codes "id,win") behind.stats) ≤ max_image
unfolding all_granted granted ann_wins display_name get_nickname_by_id trim ◌==◌ find_row levels_of
    level_up hundreds next_int gains rewarded rewarded_tables update_win_loss change_row change_at
    add_nat joined_by int_row_text values_text int_string to_string character_of lookup count_game
    noughts
small_stats = omega arith

abbrev batch : Images
batch =
    images point_text points 20 4 connected (room false) ann_wins arena refl players-IsStored
      players-Mirrors (codes "ann") (codes "bob" ∷ []) refl two_distinct two_players

give_rewards-Mirrors_example :
    (give_rewards point_text points 20 4 connected
        (room false)
        ann_wins
        (codes "bob")
        (codes "WIN|Ann\n")
        (rooms false)
        arena
      ≡ (
        returned (
            broadcast_to_user_room connected (codes "bob") (codes "WIN|Ann\n") (rooms false)
            ++ broadcast_to_user_room connected
                (codes "bob")
                (codes "REWARD_RESULT"
                  ++ (reward_lines points 20 ann_wins connected (room false).users players
                      ++ codes "\n"))
                (rooms false)),
        record {
          tables = behind;
          pending = [];
          active = false;
          committed = false;
          files = (commit 4 batch player_files).0;
        },
      ))
    × Mirrors point_text (commit 4 batch player_files).0 behind
unfolding players-Mirrors
give_rewards-Mirrors_example =
    give_rewards-Mirrors point_text points 20 4 connected (room false) ann_wins arena refl
      players-IsStored players-Mirrors (codes "ann") (codes "bob" ∷ []) refl two_distinct
      two_players (omega arith) small_profiles small_stats (codes "bob") (codes "WIN|Ann\n")
      (rooms false)

ann_levels :
    level_up points 20 (pos 1) (points.add_int 60 (pos (if ann_wins (codes "ann") then 50 else 30)))
    ≡ some (pos 2, 10)
unfolding ann_wins display_name get_nickname_by_id trim ◌==◌ level_up hundreds next_int
ann_levels = refl

ann_character : character_of (room false) (codes "ann") ≡ pos 0
unfolding character_of lookup ◌==◌
ann_character = refl

abbrev no_games : Games
no_games = (0, 0) ∷ (0, 0) ∷ (0, 0) ∷ (0, 0) ∷ (0, 0) ∷ (0, 0) ∷ (0, 0) ∷ []

ann_played :
    find_row IntRow.id (codes "ann") players.stats ≡ some (played_row (codes "ann") 0 0 no_games)
unfolding find_row ◌==◌ noughts by_character
ann_played = refl

give_rewards-member_example :
    (find_row UserProfile.id
        (codes "ann")
        (give_rewards point_text points 20 4 connected
          (room false)
          ann_wins
          (codes "bob")
          (codes "WIN|Ann\n")
          (rooms false)
          arena).1.tables.profiles
      ≡ some (paid_out (ann_wins (codes "ann")) (pos 2) 10 (player (codes "ann") 60)))
    × (find_row IntRow.id
          (codes "ann")
          (give_rewards point_text points 20 4 connected
            (room false)
            ann_wins
            (codes "bob")
            (codes "WIN|Ann\n")
            (rooms false)
            arena).1.tables.stats
        ≡ some (
            if ann_wins (codes "ann")
            then played_row (codes "ann") 1 0 (count_at true 0 no_games)
            else played_row (codes "ann") 0 1 (count_at false 0 no_games)))
unfolding players-Mirrors member find_row ◌==◌
give_rewards-member_example =
    give_rewards-member point_text points 20 4 connected (room false) ann_wins arena refl
      players-IsStored players-Mirrors (codes "ann") (codes "bob" ∷ []) refl two_distinct
      two_players (omega arith) small_profiles small_stats (codes "bob") (codes "WIN|Ann\n")
      (rooms false) (codes "ann") (player (codes "ann") 60) 0 0 no_games 0 (pos 2) 10 refl
      ann_character refl ann_played ann_levels
