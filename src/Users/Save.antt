-- ===== src/Users/Save.antt =====
-- Saving a user (the Save functions of TeamOFYServer/UserManager.cpp): in a file, the lines of the user
-- are written anew from memory and all others are kept.
use bn_bserver.Prelude.{Bool, Option, none, some, List, [], ◌∷◌, ◌++◌, if◌then◌else◌}
use bn_bserver.Prelude.Text.{Text, ◌==◌, before_byte}
use bn_bserver.Prelude.Lines.{split, joined_by}
use bn_bserver.Users.{
  account_path, profile_path, character_path, emote_path, stats_path, balloon_path, icon_path,
  UserAccount, UserProfile, IntRow, Tables, Action, ◌>>=◌, read_csv, write_csv,
}
use bn_bserver.Users.Rows.{FloatText, account_text, profile_text, int_row_text}

module _ {ℓ} {R : Type ℓ} where
  -- std::find_if over the rows
  unfoldable pub find_row : (R → Text) → Text → List R → Option R
  find_row id u [] = none
  find_row id u (r ∷ rs) = let rest = find_row id u rs in if id r == u then some r else rest

  abbrev pub line_of : (R → Text) → Option R → List Text
  line_of text none = []
  line_of text (some r) = text r ∷ []

-- The lines behind the header, where those of the user become the lines `new`.
unfoldable pub renew_lines : Text → List Text → List Text → List Text
renew_lines u new [] = []
renew_lines u new (line ∷ lines) =
    let rest = renew_lines u new lines in
    if before_byte b',' line == u then new ++ rest else line ∷ rest

unfoldable pub renew : Text → List Text → List Text → List Text
renew u new [] = []
renew u new (header ∷ lines) = header ∷ renew_lines u new lines

module _ {ℓ} {E : Type ℓ} where
  -- A Save function: the file is read, renewed and written.
  unfoldable pub save_lines : Text → (Tables E → List Text) → Text → Action E Bool
  save_lines path new u m =
      (read_csv path >>= λ text.
      write_csv path (joined_by 10 (renew u (new m.tables) (split 10 text))))
        m

  unfoldable pub save_user_account : Text → Action E Bool
  save_user_account u =
      save_lines account_path (λ t. line_of account_text (find_row UserAccount.id u t.users)) u

  unfoldable pub save_user_profile : FloatText E → Text → Action E Bool
  save_user_profile io u =
      save_lines profile_path
        (λ t. line_of (profile_text io) (find_row UserProfile.id u t.profiles)) u

  unfoldable pub save_user_characters : Text → Action E Bool
  save_user_characters u =
      save_lines character_path (λ t. line_of int_row_text (find_row IntRow.id u t.characters)) u

  unfoldable pub save_user_emotes : Text → Action E Bool
  save_user_emotes u =
      save_lines emote_path (λ t. line_of int_row_text (find_row IntRow.id u t.emotes)) u

  unfoldable pub save_user_win_loss_stats : Text → Action E Bool
  save_user_win_loss_stats u =
      save_lines stats_path (λ t. line_of int_row_text (find_row IntRow.id u t.stats)) u

  unfoldable pub save_user_ballons : Text → Action E Bool
  save_user_ballons u =
      save_lines balloon_path (λ t. line_of int_row_text (find_row IntRow.id u t.balloons)) u

  unfoldable pub save_user_icons : Text → Action E Bool
  save_user_icons u =
      save_lines icon_path (λ t. line_of int_row_text (find_row IntRow.id u t.icons)) u
