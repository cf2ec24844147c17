-- ===== src/Reward/Settling.antt =====
-- What is left when the rewards of a match fail (TeamOFYServer/ClientHandler.cpp).
use bn_bserver.Prelude.{
  ℕ, ◌≡◌, ◌⊎◌, inl, inr, refl, ◌∙◌, Bool, true, false, Option, none, some, List, [], ◌∷◌, arith,
  subst, Option-cases,
}
use bn_bserver.Prelude.Text.{Text}
use bn_bserver.CsvStore.{Images, accepted, commit}
use bn_bserver.CsvStore.Reports.{commit-Reports}
use bn_bserver.Rooms.{Room, Manager}
use bn_bserver.Prelude.Int.{ℤ}
use bn_bserver.Rooms.Clients.{Clients}
use bn_bserver.Rooms.Messages.{display_name}
use bn_bserver.Users.{
  profile_path, stats_path, UserProfile, IntRow, Tables, UserManager, Action, pure, Outcome,
  returned, threw, terminated, run_then, ◌>>=◌, commit_transaction, in_transaction, leave,
  end_transaction,
}
use bn_bserver.Users.Rows.{FloatText, profile_text, int_row_text}
use bn_bserver.Users.Save.{find_row, line_of, save_user_profile, save_user_win_loss_stats}
use bn_bserver.Users.Query.{get_user_profile_by_id}
use bn_bserver.Users.Settling.{
  Kept, Keeps, has_stopped, run_then-Kept, run_then-tables, save_lines-Keeps,
}
use bn_bserver.Users.Untouched.{save_lines-Same}
use bn_bserver.Reward.Players.{granted, all_granted}
use bn_bserver.Reward.{
  FloatMath, gains, levels_of, rewarded_tables, reward_text, reward_raised, reward_found,
  reward_user, reward_users, reward_sent, give_rewards,
}

abbrev pub has_thrown {ℓ} : {A : Type ℓ} → Outcome A → Bool
has_thrown (returned a) = false
has_thrown threw = true
has_thrown terminated = false

abbrev pub has_returned {ℓ} : {A : Type ℓ} → Outcome A → Bool
has_returned (returned a) = true
has_returned threw = false
has_returned terminated = false

module _ {ℓ} {E : Type ℓ} where
  -- The user manager outside of a transaction, its tables and files as before.
  abbrev pub closed : UserManager E → UserManager E
  closed m = record m { pending = []; active = false; committed = false }

  -- The user manager in an open transaction.
  abbrev pub opened : UserManager E → UserManager E
  opened m = record m { pending = []; active = true; committed = false }

  -- How the scope of a commit ends: it goes on for ever, or an exception has changed nothing, or a
  -- return has committed a batch and left some tables.
  abbrev pub Fulfils :
      {A : Type 0} → ℕ → Tables E → Images → UserManager E → Outcome A × UserManager E → Type ℓ
  Fulfils k after batch m (o, n) =
      (has_stopped o ≡ true)
      ⊎ (((has_thrown o ≡ true) × (n ≡ closed m))
          ⊎ ((has_returned o ≡ true)
              × (n.active ≡ false)
              × (n.tables ≡ after)
              × (commit k batch m.files ≡ (n.files, accepted))))

  -- An action that leaves some tables if it returns.
  abbrev Leaves : {A : Type 0} → Tables E → Outcome A × UserManager E → Type ℓ
  Leaves t x = (has_returned x.0 ≡ false) ⊎ (x.1.tables ≡ t)

  run_then-Leaves :
      {A B : Type 0} (t t' : Tables E) (x : Outcome A × UserManager E)
      (f : A → UserManager E → Outcome B × UserManager E)
      → Leaves t x
      → ((a : A) (n : UserManager E) → n.tables ≡ t → Leaves t' (f a n))
      → Leaves t' (run_then x f)
  run_then-Leaves t t' (returned a, n) f (inl back) then = absurd (ground arith)
  run_then-Leaves t t' (returned a, n) f (inr same) then = then a n same
  run_then-Leaves t t' (threw, n) f h then = inl refl
  run_then-Leaves t t' (terminated, n) f h then = inl refl

module _ {ℓ} {E : Type ℓ} (io : FloatText E) (fm : FloatMath E) (fuel k : ℕ) (cs : Clients)
    (r : Room) where
  reward_raised-Keeps :
      (u : Text) (won : Bool) (x : Option (ℤ × E)) → Keeps (reward_raised io fm fuel k cs r u won x)
  unfolding reward_raised save_user_profile save_user_win_loss_stats
  reward_raised-Keeps u won none m = inl refl
  reward_raised-Keeps u won (some (level, exp)) m =
      run_then-Kept _ (record m { tables = rewarded_tables r u won level exp m.tables }) _
        (save_lines-Keeps _ _ u _)
        (λ _ n. run_then-Kept _ n _ (save_lines-Keeps _ _ u n) (λ _ o. inr (refl, refl)))

  reward_found-Keeps :
      (u : Text) (won : Bool) (p : Option (UserProfile E))
      → Keeps (reward_found io fm fuel k cs r u won p)
  unfolding reward_found
  reward_found-Keeps u won none m = inr (refl, refl)
  reward_found-Keeps u won (some p) m =
      reward_raised-Keeps u won (levels_of fm fuel (gains won) p) m

  reward_users-Keeps :
      (won : Text → Bool) (us : List Text) → Keeps (reward_users io fm fuel k cs r won us)
  unfolding reward_users reward_user
  reward_users-Keeps won [] m = inr (refl, refl)
  reward_users-Keeps won (u ∷ us) m =
      run_then-Kept _ m _ (reward_found-Keeps u (won u) (get_user_profile_by_id u m.tables) m)
        (λ t n. run_then-Kept _ n _ (reward_users-Keeps won us n) (λ ts o. inr (refl, refl)))

  reward_raised-Leaves :
      (u : Text) (won : Bool) (level : ℤ) (exp : E) (m : UserManager E)
      → Leaves
          (rewarded_tables r u won level exp m.tables)
          (reward_raised io fm fuel k cs r u won (some (level, exp)) m)
  unfolding reward_raised save_user_profile save_user_win_loss_stats
  reward_raised-Leaves u won level exp m =
      let t = rewarded_tables r u won level exp m.tables in
      let stats_lines : Tables E → List Text =
        λ t'. line_of int_row_text (find_row IntRow.id u t'.stats) in
      let profile_lines : Tables E → List Text =
        λ t'. line_of (profile_text io) (find_row UserProfile.id u t'.profiles) in
      let said : Action E Text = pure (reward_text (display_name cs u) level (gains won)) in
      inr (
        run_then-tables t (save_user_win_loss_stats u (record m { tables = t }))
          (λ _. save_user_profile io u >>= (λ _. said))
          (save_lines-Same stats_path stats_lines u (record m { tables = t }))
          (λ _ n e.
            run_then-tables t (save_user_profile io u n) (λ _. said)
              (save_lines-Same profile_path profile_lines u n ∙ e) (λ _ o e'. e')))

  module _ (won : Text → Bool) where
    reward_user-Leaves :
        (u : Text) (m : UserManager E)
        → Leaves (granted io fm fuel r won u m.tables) (reward_user io fm fuel k cs r u (won u) m)
    unfolding reward_user reward_found granted get_user_profile_by_id reward_raised
    reward_user-Leaves u m = elim (Option-cases (find_row UserProfile.id u m.tables.profiles)) [
      | inl gone ↦ rw gone (inl refl)
      | inr (p, there) ↦ elim (Option-cases (levels_of fm fuel (gains (won u)) p)) [
        | inl none_left ↦ rw (there, none_left) (inl refl)
        | inr ((level, exp), levels) ↦
            rw (there, levels) (reward_raised-Leaves u (won u) level exp m)
      ]
    ]

    reward_users-Leaves :
        (us : List Text) (m : UserManager E)
        → Leaves
            (all_granted io fm fuel r won us m.tables)
            (reward_users io fm fuel k cs r won us m)
    unfolding reward_users all_granted
    reward_users-Leaves [] m = inr refl
    reward_users-Leaves (u ∷ us) m =
        let after = all_granted io fm fuel r won (u ∷ us) m.tables in
        run_then-Leaves (granted io fm fuel r won u m.tables) after
          (reward_user io fm fuel k cs r u (won u) m) _ (reward_user-Leaves u m)
          (λ t n same.
            run_then-Leaves after after (reward_users io fm fuel k cs r won us n) _
              (subst
                (λ t'.
                  Leaves (all_granted io fm fuel r won us t')
                    (reward_users io fm fuel k cs r won us n))
                same (reward_users-Leaves us n))
              (λ ts o same'. inr same'))

  commit_sent-Fulfils :
      (after : Tables E) (u message entries : Text) (rooms : Manager) (m n : UserManager E)
      → n.files ≡ m.files
      → n.committed ≡ false
      → n.tables ≡ after
      → Fulfils k after n.pending m (
          leave m.tables (
            run_then
              (commit_transaction k n)
              (reward_sent io fm fuel k cs r u message rooms entries)))
  unfolding leave end_transaction commit_transaction reward_sent
  commit_sent-Fulfils after u message entries rooms m n same idle at =
      elim (commit-Reports k n.pending n.files) [
        | inl (d, e) ↦ simp (idle, e) (inr (inr (refl, refl, at, rw (← same) e)))
        | inr (inl (d, e)) ↦ simp (idle, e) (inl refl)
        | inr (inr (inl e)) ↦ simp (idle, e) (inr (inl (refl, simp same)))
        | inr (inr (inr e)) ↦ simp (idle, e) (inr (inl (refl, simp same)))
      ]

  give_rewards_with-Fulfils :
      (after : Tables E) (u message : Text) (rooms : Manager) (m : UserManager E)
      (x : Outcome Text × UserManager E)
      → Kept (opened m) x
      → Leaves after x
      → Fulfils k after x.1.pending m (
          leave m.tables (
            run_then x (λ entries.
              commit_transaction k >>= reward_sent io fm fuel k cs r u message rooms entries)))
  unfolding leave end_transaction
  give_rewards_with-Fulfils after u message rooms m (returned a, n) (inl stop) left =
      absurd (ground arith)
  give_rewards_with-Fulfils after u message rooms m (returned a, n) (inr (same, idle)) (inl back) =
      absurd (ground arith)
  give_rewards_with-Fulfils after u message rooms m (returned a, n) (inr (same, idle)) (inr at) =
      commit_sent-Fulfils after u message a rooms m n same idle at
  give_rewards_with-Fulfils after u message rooms m (threw, n) (inl stop) left =
      absurd (ground arith)
  give_rewards_with-Fulfils after u message rooms m (threw, n) (inr (same, idle)) left =
      inr (inl (refl, simp (same, idle)))
  give_rewards_with-Fulfils after u message rooms m (terminated, n) h left = inl refl

  -- What the rounds of the loop over the users stage.
  abbrev pub staged_rewards : (Text → Bool) → UserManager E → Images
  staged_rewards won m = (reward_users io fm fuel k cs r won r.users (opened m)).1.pending

  pub give_rewards-Fulfils :
      (won : Text → Bool) (u message : Text) (rooms : Manager) (m : UserManager E)
      → m.active ≡ false
      → Fulfils k
          (all_granted io fm fuel r won r.users m.tables)
          (staged_rewards won m)
          m
          (give_rewards io fm fuel k cs r won u message rooms m)
  unfolding give_rewards in_transaction
  give_rewards-Fulfils won u message rooms m idle = simp idle (
      give_rewards_with-Fulfils (all_granted io fm fuel r won r.users m.tables) u message rooms m _
        (reward_users-Keeps won r.users (opened m)) (reward_users-Leaves won r.users (opened m)))
