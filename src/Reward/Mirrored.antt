-- ===== src/Reward/Mirrored.antt =====
-- Rewards that are committed (TeamOFYServer/ClientHandler.cpp): the tables, the files and the messages.
use bn_bserver.Prelude.{
  ℕ, suc, if◌then◌else◌, ◌≤◌, ◌<◌, ◌≡◌, refl, ap, ◌∙◌, Bool, true, false, some, List, [], ◌∷◌, ◌++◌,
  All, length, Option-cases, inl, inr,
}
use bn_bserver.Prelude.Text.{Text, codes, ◌==◌, text_lt}
use bn_bserver.Prelude.Assoc.{lookup}
use bn_bserver.CsvStore.{Images, allowed, max_image, accepted, commit}
use bn_bserver.CsvStore.RoundTrip.{IsSorted, IsImage}
use bn_bserver.CsvStore.Recovery.{commit-accepted}
use bn_bserver.CsvStore.Redo.{Applied}
use bn_bserver.Prelude.Int.{ℤ, pos, add_nat}
use bn_bserver.Rooms.{Room, Manager, member}
use bn_bserver.Rooms.Messages.{character_of}
use bn_bserver.Rooms.Clients.{Clients}
use bn_bserver.Rooms.Relay.{broadcast_to_user_room}
use bn_bserver.Users.{
  profile_path, stats_path, account_path, character_path, emote_path, balloon_path, icon_path,
  UserProfile, IntRow, Tables, UserManager, returned, put_image, commit_answer, commit_transaction,
  in_transaction, leave, end_transaction,
}
use bn_bserver.Users.Rows.{FloatText, profile_text, int_row_text}
use bn_bserver.Users.Save.{find_row}
use bn_bserver.Users.Query.{update_win_loss, next_int, count_game}
use bn_bserver.Users.Tally.{Games, by_character, count_at, change_at-win, change_at-loss}
use bn_bserver.Users.Saved.{file_text-nonempty}
use bn_bserver.Users.Staged.{viewed}
use bn_bserver.Users.Loaded.{file_text, IsStored, Mirrors}
use bn_bserver.Reward.{
  FloatMath, gains, level_up, levels_of, rewarded, rewarded_tables, reward_users, reward_sent,
  give_rewards,
}
use bn_bserver.Reward.Players.{
  AreDistinct, IsPlayer, counted, granted, all_granted, all_granted-member, all_granted-others,
}
use bn_bserver.Reward.Given.{Reads, reward_lines, all_staged, reward_users-staged, all_staged-both}

module _ {ℓ} {E : Type ℓ} (io : FloatText E) (fm : FloatMath E) (fuel : ℕ) (r : Room)
    (won : Text → Bool) where
  -- The tables with other profiles and other records of games.
  abbrev with_tables : Tables E → Tables E → Tables E
  with_tables t t' = record t { profiles = t'.profiles; stats = t'.stats }

  granted-rest :
      (u : Text) (t : Tables E)
      → granted io fm fuel r won u t ≡ with_tables t (granted io fm fuel r won u t)
  unfolding granted rewarded_tables update_win_loss
  granted-rest u t = elim (Option-cases (find_row UserProfile.id u t.profiles)) [
    | inl gone ↦ rw gone refl
    | inr (p, there) ↦ elim (Option-cases (levels_of fm fuel (gains (won u)) p)) [
      | inl none_left ↦ rw (there, none_left) refl
      | inr ((level, exp), levels) ↦ rw (there, levels) refl
    ]
  ]

  all_granted-rest :
      (us : List Text) (t : Tables E)
      → all_granted io fm fuel r won us t ≡ with_tables t (all_granted io fm fuel r won us t)
  unfolding all_granted
  all_granted-rest [] t = refl
  all_granted-rest (u ∷ us) t =
      all_granted-rest us (granted io fm fuel r won u t)
      ∙ ap (λ s. with_tables s (all_granted io fm fuel r won us (granted io fm fuel r won u t)))
          (granted-rest u t)

-- A record of games.
abbrev pub played_row : Text → ℕ → ℕ → Games → IntRow
played_row v wins losses games = record {
  id = v;
  values = pos wins ∷ pos losses ∷ by_character games;
}

counted-played_row :
    (b : Bool) (v : Text) (wins losses : ℕ) (games : Games) (c : ℕ) (d : ℤ)
    → d ≡ pos c
    → counted b d (played_row v wins losses games) ≡ (
        if b
        then played_row v (suc wins) losses (count_at true c games)
        else played_row v wins (suc losses) (count_at false c games))
unfolding count_game next_int
counted-played_row true v wins losses games c d e = rw (e, change_at-win c games) refl
counted-played_row false v wins losses games c d e = rw (e, change_at-loss c games) refl

module _ {ℓ} {E : Type ℓ} where
  -- A profile behind the reward of a winner or of a loser.
  abbrev pub paid_out : Bool → ℤ → E → UserProfile E → UserProfile E
  paid_out b level exp p = record {
    id = p.id;
    level = level;
    exp = exp;
    icon = p.icon;
    money0 = add_nat p.money0 (if b then 500 else 200);
    money1 = add_nat p.money1 (if b then 5 else 0);
    emo0 = p.emo0;
    emo1 = p.emo1;
    emo2 = p.emo2;
    emo3 = p.emo3;
    balloon = p.balloon;
  }

  rewarded-paid_out :
      (b : Bool) (level : ℤ) (exp : E) (p : UserProfile E)
      → rewarded (gains b) level exp p ≡ paid_out b level exp p
  unfolding rewarded gains
  rewarded-paid_out true level exp p = refl
  rewarded-paid_out false level exp p = refl

  levels_of-points :
      (fm : FloatMath E) (fuel : ℕ) (b : Bool) (p : UserProfile E)
      → levels_of fm fuel (gains b) p
        ≡ level_up fm fuel p.level (fm.add_int p.exp (pos (if b then 50 else 30)))
  unfolding levels_of gains
  levels_of-points fm fuel true p = refl
  levels_of-points fm fuel false p = refl

module _ {ℓ} {E : Type ℓ} (io : FloatText E) (fm : FloatMath E) (fuel k : ℕ) (cs : Clients)
    (r : Room) (won : Text → Bool) (m : UserManager E) (idle : m.active ≡ false)
    (stored : IsStored io m.tables) (mirrors : Mirrors io m.files m.tables) (u₀ : Text)
    (us : List Text) (users : r.users ≡ u₀ ∷ us) (distinct : AreDistinct r.users)
    (players : All (IsPlayer io fm fuel r won m.tables) r.users) where
  -- The tables behind the rewards, and the files that are committed.
  abbrev pub tables_after : Tables E
  tables_after = all_granted io fm fuel r won r.users m.tables

  abbrev pub images : Images
  images =
      (profile_path, file_text (profile_text io) mirrors.profiles.0 tables_after.profiles)
      ∷ (stats_path, file_text int_row_text mirrors.stats.0 tables_after.stats)
      ∷ []

  starts :
      Reads io fm fuel k cs r won m.files mirrors.profiles.0 mirrors.stats.0 mirrors.profiles.1
        mirrors.stats.1 m.tables []
  unfolding viewed lookup
  starts = (mirrors.profiles.2, mirrors.stats.2)

  stages :
      all_staged io fm fuel k cs r won m.files mirrors.profiles.0 mirrors.stats.0 mirrors.profiles.1
        mirrors.stats.1 r.users m.tables []
      ≡ images
  unfolding put_image text_lt ◌==◌
  stages = simp users (
      all_staged-both io fm fuel k cs r won m.files mirrors.profiles.0 mirrors.stats.0
        mirrors.profiles.1 mirrors.stats.1 u₀ us m.tables)

  all_saved :
      reward_users io fm fuel k cs r won r.users
        (record m { pending = []; active = true; committed = false })
      ≡ (
        returned (reward_lines fm fuel won cs r.users m.tables),
        record m { tables = tables_after; pending = images; active = true; committed = false },
      )
  all_saved =
      reward_users-staged io fm fuel k cs r won m.files mirrors.profiles.0 mirrors.stats.0
        mirrors.profiles.1 mirrors.stats.1 r.users m.tables [] distinct players stored starts
      ∙ ap
          (λ p. (
            returned (reward_lines fm fuel won cs r.users m.tables),
            record m { tables = tables_after; pending = p; active = true; committed = false },
          ))
          stages

  images-IsSorted : IsSorted images
  unfolding text_lt
  images-IsSorted = ((refl, tt), (tt, tt))

  module _ (enough : 3 < k)
      (small_profiles : length
          (file_text (profile_text io) mirrors.profiles.0 tables_after.profiles)
        ≤ max_image)
      (small_stats : length (file_text int_row_text mirrors.stats.0 tables_after.stats)
        ≤ max_image) where
    images-IsImage : All IsImage images
    unfolding allowed ◌==◌
    images-IsImage = (
      (refl, file_text-nonempty (profile_text io) _ _, small_profiles),
      ((refl, file_text-nonempty int_row_text _ _, small_stats), tt),
    )

    accepts :
        ((commit k images m.files).1 ≡ accepted)
        × Applied images m.files (commit k images m.files).0
    accepts = commit-accepted (profile_path, _) _ m.files k images-IsSorted images-IsImage enough

    commits :
        commit_transaction k
          (record m { tables = tables_after; pending = images; active = true; committed = false })
        ≡ (
          returned true,
          record m {
            tables = tables_after;
            pending = images;
            active = true;
            committed = true;
            files = (commit k images m.files).0;
          },
        )
    unfolding commit_transaction
    commits =
        ap
          (λ a.
            commit_answer
              (record m {
                tables = tables_after;
                pending = images;
                active = true;
                committed = false;
              })
              ((commit k images m.files).0, a))
          accepts.0

    after-Mirrors : Mirrors io (commit k images m.files).0 tables_after
    unfolding lookup ◌==◌
    after-Mirrors =
        let rest = all_granted-rest io fm fuel r won r.users m.tables in
        rw rest (record {
          users = (mirrors.users.0, mirrors.users.1, accepts.1 account_path ∙ mirrors.users.2);
          profiles = (mirrors.profiles.0, mirrors.profiles.1, accepts.1 profile_path);
          characters = (
            mirrors.characters.0,
            mirrors.characters.1,
            accepts.1 character_path ∙ mirrors.characters.2,
          );
          emotes = (mirrors.emotes.0, mirrors.emotes.1, accepts.1 emote_path ∙ mirrors.emotes.2);
          stats = (mirrors.stats.0, mirrors.stats.1, accepts.1 stats_path);
          balloons =
              (mirrors.balloons.0, mirrors.balloons.1, accepts.1 balloon_path ∙ mirrors.balloons.2);
          icons = (mirrors.icons.0, mirrors.icons.1, accepts.1 icon_path ∙ mirrors.icons.2);
        })

    -- done
    pub give_rewards-Mirrors :
        (u message : Text) (rooms : Manager)
        → (give_rewards io fm fuel k cs r won u message rooms m ≡ (
          returned (
              broadcast_to_user_room cs u message rooms
              ++ broadcast_to_user_room cs u
                  (codes "REWARD_RESULT"
                    ++ (reward_lines fm fuel won cs r.users m.tables ++ codes "\n"))
                  rooms),
          record {
            tables = tables_after;
            pending = [];
            active = false;
            committed = false;
            files = (commit k images m.files).0;
          },
        ))
          × Mirrors io (commit k images m.files).0 tables_after
    unfolding give_rewards in_transaction leave end_transaction commit_transaction reward_sent
    give_rewards-Mirrors u message rooms = (rw (idle, all_saved, commits) refl, after-Mirrors)

    -- The rewards of a user, by the functions that give them.
    give_rewards-granted :
        (u message : Text) (rooms : Manager) (v : Text) (p : UserProfile E) (row : IntRow)
        (level : ℤ) (exp : E)
        → member v r.users ≡ true
        → find_row UserProfile.id v m.tables.profiles ≡ some p
        → find_row IntRow.id v m.tables.stats ≡ some row
        → levels_of fm fuel (gains (won v)) p ≡ some (level, exp)
        → (find_row UserProfile.id v
              (give_rewards io fm fuel k cs r won u message rooms m).1.tables.profiles
            ≡ some (rewarded (gains (won v)) level exp p))
          × (find_row IntRow.id v
                (give_rewards io fm fuel k cs r won u message rooms m).1.tables.stats
              ≡ some (counted (won v) (character_of r v) row))
    give_rewards-granted u message rooms v p row level exp inside there played levels =
        rw (give_rewards-Mirrors u message rooms).0 (
          all_granted-member io fm fuel r won r.users v m.tables p row level exp distinct players
            inside there played levels)

    -- Behind the rewards, a user of the room who played the character c has the level and the points that the loop
    -- over the levels makes of its points and 50 more for a winner or 30 more for a loser, 500 coins and 5 cash
    -- more for a winner or 200 coins more for a loser, and the rest of its profile as it was; and its record has one
    -- win or one loss more, in all and with this character.
    pub give_rewards-member :
        (u message : Text) (rooms : Manager) (v : Text) (p : UserProfile E) (wins losses : ℕ)
        (games : Games) (c : ℕ) (level : ℤ) (exp : E)
        → member v r.users ≡ true
        → character_of r v ≡ pos c
        → find_row UserProfile.id v m.tables.profiles ≡ some p
        → find_row IntRow.id v m.tables.stats ≡ some (played_row v wins losses games)
        → level_up fm fuel p.level (fm.add_int p.exp (pos (if won v then 50 else 30)))
          ≡ some (level, exp)
        → (find_row UserProfile.id v
              (give_rewards io fm fuel k cs r won u message rooms m).1.tables.profiles
            ≡ some (paid_out (won v) level exp p))
          × (find_row IntRow.id v
                (give_rewards io fm fuel k cs r won u message rooms m).1.tables.stats
              ≡ some (
                  if won v
                  then played_row v (suc wins) losses (count_at true c games)
                  else played_row v wins (suc losses) (count_at false c games)))
    give_rewards-member u message rooms v p wins losses games c level exp inside chosen there played
          levels =
        let (profile, row) =
          give_rewards-granted u message rooms v p (played_row v wins losses games) level exp inside
            there played (levels_of-points fm fuel (won v) p ∙ levels) in
        (
          profile ∙ ap some (rewarded-paid_out (won v) level exp p),
          row
              ∙ ap some
                  (counted-played_row (won v) v wins losses games c (character_of r v) chosen),
        )

    pub give_rewards-others :
        (u message : Text) (rooms : Manager) (v : Text)
        → member v r.users ≡ false
        → (find_row UserProfile.id v
              (give_rewards io fm fuel k cs r won u message rooms m).1.tables.profiles
            ≡ find_row UserProfile.id v m.tables.profiles)
          × (find_row IntRow.id v
                (give_rewards io fm fuel k cs r won u message rooms m).1.tables.stats
              ≡ find_row IntRow.id v m.tables.stats)
    give_rewards-others u message rooms v out =
        rw (give_rewards-Mirrors u message rooms).0
          (all_granted-others io fm fuel r won r.users v m.tables distinct players out)
