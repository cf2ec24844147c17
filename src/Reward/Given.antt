-- ===== src/Reward/Given.antt =====
-- Rewards that are given (TeamOFYServer/ClientHandler.cpp): the files that are staged for the users of a
-- match, one after the other.
use bn_bserver.Prelude.{
  ℕ, ◌≡◌, refl, ◌∙◌, Bool, true, false, Option, none, some, List, [], ◌∷◌, ◌++◌, All,
}
use bn_bserver.Prelude.Text.{Text, ◌==◌, has_byte, text_lt}
use bn_bserver.Prelude.Int.{ℤ, pos}
use bn_bserver.CsvStore.{Images, Disk}
use bn_bserver.Rooms.{Room, member}
use bn_bserver.Rooms.Clients.{Clients}
use bn_bserver.Rooms.Messages.{character_of, display_name}
use bn_bserver.Users.{
  profile_path, stats_path, UserProfile, IntRow, Tables, UserManager, returned, put_image,
}
use bn_bserver.Users.Rows.{FloatText, profile_text, int_row_text}
use bn_bserver.Users.Loaded.{file_text, All-map, IsStored}
use bn_bserver.Users.Save.{find_row, save_user_profile, save_user_win_loss_stats}
use bn_bserver.Users.Saved.{int_row-IsKeyed, profile-IsKeyed}
use bn_bserver.Users.Staged.{viewed, viewed-put_image, save_lines-viewed}
use bn_bserver.Users.Query.{get_user_profile_by_id, update_win_loss}
use bn_bserver.Reward.{
  FloatMath, gains, levels_of, rewarded, rewarded_tables, reward_text, reward_raised, reward_found,
  reward_user, reward_users,
}
use bn_bserver.Reward.Players.{
  counted, AreDistinct, IsPlayer, granted, all_granted, granted-player, rewarded-id,
  granted-IsStored, granted-IsPlayer, granted-others, not-member-head, not-member-tail,
}

module _ {ℓ} {E : Type ℓ} (fm : FloatMath E) (fuel : ℕ) (won : Text → Bool) where
  abbrev level_or : ℤ → Option (ℤ × E) → ℤ
  level_or before none = before
  level_or before (some (level, exp)) = level

  abbrev level_found : Text → Option (UserProfile E) → ℤ
  level_found u none = pos 0
  level_found u (some p) = level_or p.level (levels_of fm fuel (gains (won u)) p)

  -- The level that a user reaches with its reward.
  unfoldable pub level_in : Text → Tables E → ℤ
  level_in u t = level_found u (find_row UserProfile.id u t.profiles)

  level_in-player :
      (u : Text) (t : Tables E) (p : UserProfile E) (level : ℤ) (exp : E)
      → find_row UserProfile.id u t.profiles ≡ some p
      → levels_of fm fuel (gains (won u)) p ≡ some (level, exp)
      → level_in u t ≡ level
  unfolding level_in
  level_in-player u t p level exp there levels = rw (there, levels) refl

  -- The entries of REWARD_RESULT, from the tables before all rewards.
  unfoldable pub reward_lines : Clients → List Text → Tables E → Text
  reward_lines cs [] t = []
  reward_lines cs (u ∷ us) t =
      reward_text (display_name cs u) (level_in u t) (gains (won u)) ++ reward_lines cs us t

module _ {ℓ} {E : Type ℓ} (io : FloatText E) (fm : FloatMath E) (fuel k : ℕ) (cs : Clients)
    (r : Room) (won : Text → Bool) (d : Disk) (hp hs : Text) (hp_line : has_byte 10 hp ≡ false)
    (hs_line : has_byte 10 hs ≡ false) where
  abbrev pub staged : Tables E → Images → UserManager E
  staged t pending = record {
    tables = t;
    pending = pending;
    active = true;
    committed = false;
    files = d;
  }

  -- The two files of some tables, staged.
  abbrev pub both : Tables E → Images → Images
  both t pending =
      put_image profile_path (file_text (profile_text io) hp t.profiles)
        (put_image stats_path (file_text int_row_text hs t.stats) pending)

  -- Both files read as the tables.
  abbrev pub Reads : Tables E → Images → Type 0
  Reads t pending =
      (viewed profile_path (staged t pending) ≡ some (file_text (profile_text io) hp t.profiles))
      × (viewed stats_path (staged t pending) ≡ some (file_text int_row_text hs t.stats))

  both-Reads : (t : Tables E) (pending : Images) → Reads t (both t pending)
  unfolding ◌==◌
  both-Reads t pending = (
    viewed-put_image profile_path profile_path _
        (staged t (put_image stats_path (file_text int_row_text hs t.stats) pending)),
    viewed-put_image profile_path stats_path _
          (staged t (put_image stats_path (file_text int_row_text hs t.stats) pending))
        ∙ viewed-put_image stats_path stats_path _ (staged t pending),
  )

  rewarded_saved :
      (u : Text) (t : Tables E) (pending : Images) (p : IsPlayer io fm fuel r won t u)
      → IsStored io t
      → Reads t pending
      → reward_raised io fm fuel k cs r u (won u) (some (p.level, p.exp)) (staged t pending) ≡ (
        returned (reward_text (display_name cs u) p.level (gains (won u))),
        staged
            (rewarded_tables r u (won u) p.level p.exp t)
            (both (rewarded_tables r u (won u) p.level p.exp t) pending),
      )
  unfolding reward_raised save_user_win_loss_stats save_user_profile rewarded_tables update_win_loss
      ◌==◌ viewed
  rewarded_saved u t pending p stored (profiles, stats) =
      let t' = rewarded_tables r u (won u) p.level p.exp t in
      let stats_saved =
        save_lines-viewed IntRow.id int_row_text stats_path u hs Tables.stats
          (counted (won u) (character_of r u)) t.stats p.row (staged t' pending) (λ q. refl) hs_line
          (All-map (int_row-IsKeyed 15) t.stats stored.stats) p.one_row p.has_row refl stats refl in
      let staged_stats =
        viewed-put_image stats_path profile_path (file_text int_row_text hs t'.stats)
          (staged t' pending) in
      let profile_saved =
        save_lines-viewed UserProfile.id (profile_text io) profile_path u hp Tables.profiles
          (rewarded (gains (won u)) p.level p.exp) t.profiles p.profile
          (staged t' (put_image stats_path (file_text int_row_text hs t'.stats) pending))
          (rewarded-id io fm fuel r won (gains (won u)) p.level p.exp) hp_line
          (All-map (profile-IsKeyed io) t.profiles stored.profiles) p.one_profile p.has_profile refl
          (staged_stats ∙ profiles) refl in
      rw (stats_saved, profile_saved) refl

  reward_user-staged :
      (u : Text) (t : Tables E) (pending : Images)
      → IsPlayer io fm fuel r won t u
      → IsStored io t
      → Reads t pending
      → reward_user io fm fuel k cs r u (won u) (staged t pending) ≡ (
        returned (reward_text (display_name cs u) (level_in fm fuel won u t) (gains (won u))),
        staged (granted io fm fuel r won u t) (both (granted io fm fuel r won u t) pending),
      )
  unfolding reward_user reward_found get_user_profile_by_id
  reward_user-staged u t pending p stored reads =
      rw
        (
          p.has_profile,
          p.levels,
          level_in-player fm fuel won u t p.profile p.level p.exp p.has_profile p.levels,
          granted-player io fm fuel r won u t p,
        )
        (rewarded_saved u t pending p stored reads)

  -- What is staged behind some users.
  unfoldable pub all_staged : List Text → Tables E → Images → Images
  all_staged [] t pending = pending
  all_staged (u ∷ us) t pending =
      all_staged us (granted io fm fuel r won u t) (both (granted io fm fuel r won u t) pending)

  lines-granted :
      (u : Text) (us : List Text) (t : Tables E)
      → IsPlayer io fm fuel r won t u
      → member u us ≡ false
      → reward_lines fm fuel won cs us (granted io fm fuel r won u t)
        ≡ reward_lines fm fuel won cs us t
  unfolding reward_lines level_in
  lines-granted u [] t p out = refl
  lines-granted u (v ∷ us) t p out =
      let kept =
        granted-others io fm fuel r won u v t p (not-member-head io fm fuel r won u v us out) in
      rw (kept.0, lines-granted u us t p (not-member-tail io fm fuel r won u v us out)) refl

  pub reward_users-staged :
      (us : List Text) (t : Tables E) (pending : Images)
      → AreDistinct us
      → All (IsPlayer io fm fuel r won t) us
      → IsStored io t
      → Reads t pending
      → reward_users io fm fuel k cs r won us (staged t pending) ≡ (
        returned (reward_lines fm fuel won cs us t),
        staged (all_granted io fm fuel r won us t) (all_staged us t pending),
      )
  unfolding reward_users reward_lines all_granted all_staged
  reward_users-staged [] t pending distinct all stored reads = refl
  reward_users-staged (u ∷ us) t pending (new, distinct) (p, all) stored reads =
      let t' = granted io fm fuel r won u t in
      rw
        (
          reward_user-staged u t pending p stored reads,
          reward_users-staged us t' (both t' pending) distinct
              (granted-IsPlayer io fm fuel r won u us t new p all)
              (granted-IsStored io fm fuel r won u t p stored) (both-Reads t' pending),
          lines-granted u us t p new,
        )
        refl

  -- Only two files are staged, with the tables behind all users.
  all_staged-again :
      (us : List Text) (t : Tables E)
      → all_staged us t (both t []) ≡ both (all_granted io fm fuel r won us t) []
  unfolding all_staged all_granted put_image text_lt ◌==◌
  all_staged-again [] t = refl
  all_staged-again (u ∷ us) t = all_staged-again us (granted io fm fuel r won u t)

  pub all_staged-both :
      (u : Text) (us : List Text) (t : Tables E)
      → all_staged (u ∷ us) t [] ≡ both (all_granted io fm fuel r won (u ∷ us) t) []
  unfolding all_staged all_granted
  all_staged-both u us t = all_staged-again us (granted io fm fuel r won u t)
