-- ===== src/Users/Register.antt =====
-- Registering a user (the Register functions of TeamOFYServer/UserManager.cpp): a row at the end of each
-- of the seven files and vectors, in one transaction.
use bn_bserver.Prelude.{
  ℕ, Bool, true, false, ◌||◌, Option, none, some, List, [], ◌∷◌, ◌++◌, if◌then◌else◌,
}
use bn_bserver.Prelude.Text.{Text, codes, ◌==◌, has_byte}
use bn_bserver.Prelude.Int.{pos}
use bn_bserver.Users.{
  account_path, profile_path, character_path, emote_path, stats_path, balloon_path, icon_path,
  UserAccount, UserProfile, IntRow, Tables, Action, returned, pure, ◌>>=◌, read_csv, write_csv,
  commit_transaction, in_transaction,
}
use bn_bserver.Users.Rows.{
  FloatText, account_text, profile_text, int_row_text, ones, noughts, new_emotes,
}

-- The records of a new user.
abbrev pub new_profile {ℓ} : {E : Type ℓ} → FloatText E → Text → UserProfile E
new_profile io id = record {
  id = id;
  level = pos 1;
  exp = io.nought;
  icon = pos 0;
  money0 = pos 0;
  money1 = pos 0;
  emo0 = pos 0;
  emo1 = pos 1;
  emo2 = pos 2;
  emo3 = pos 3;
  balloon = pos 0;
}

abbrev pub new_characters : Text → IntRow
new_characters id = record { id = id; values = ones 1 (noughts 6) }

abbrev pub new_user_emotes : Text → IntRow
new_user_emotes id = record { id = id; values = new_emotes }

abbrev pub new_stats : Text → IntRow
new_stats id = record { id = id; values = noughts 16 }

abbrev pub new_ballons : Text → IntRow
new_ballons id = record { id = id; values = ones 1 (noughts 9) }

abbrev pub new_icons : Text → IntRow
new_icons id = record { id = id; values = ones 1 (noughts 9) }

-- id.find_first_of(",\r\n|") != npos
unfoldable pub has_forbidden : Text → Bool
has_forbidden s = has_byte b',' s || (has_byte 13 s || (has_byte 10 s || has_byte b'|' s))

-- The loop over the accounts: the answer for the first that has the id or the nickname.
unfoldable pub duplicate : Text → Text → List UserAccount → Option Text
duplicate id nickname [] = none
duplicate id nickname (u ∷ us) =
    let rest = duplicate id nickname us in
    if u.id == id
    then some (codes "DUPLICATE_ID|\n")
    else if u.nickname == nickname
    then some (codes "DUPLICATE_NICK|\n")
    else rest

abbrev pub is_empty : Text → Bool
is_empty [] = true
is_empty (c ∷ s) = false

module _ {ℓ} {E : Type ℓ} where
  -- The text of a file with a line at its end.
  unfoldable pub append_line : Text → Text → Action E Bool
  append_line path line = read_csv path >>= λ text. write_csv path (text ++ (line ++ 10 ∷ []))

  unfoldable pub register_user_account : UserAccount → Action E Bool
  register_user_account u = append_line account_path (account_text u)

  unfoldable pub register_user_profile : FloatText E → UserProfile E → Action E Bool
  register_user_profile io p = append_line profile_path (profile_text io p)

  unfoldable pub register_user_characters : IntRow → Action E Bool
  register_user_characters r = append_line character_path (int_row_text r)

  unfoldable pub register_user_emotes : IntRow → Action E Bool
  register_user_emotes r = append_line emote_path (int_row_text r)

  unfoldable pub register_user_win_loss_stats : IntRow → Action E Bool
  register_user_win_loss_stats r = append_line stats_path (int_row_text r)

  unfoldable pub register_user_ballons : IntRow → Action E Bool
  register_user_ballons r = append_line balloon_path (int_row_text r)

  unfoldable pub register_user_icons : IntRow → Action E Bool
  register_user_icons r = append_line icon_path (int_row_text r)

  -- The push_back calls.
  unfoldable pub push_user : FloatText E → UserAccount → Tables E → Tables E
  push_user io u t = record {
    users = t.users ++ u ∷ [];
    profiles = t.profiles ++ new_profile io u.id ∷ [];
    characters = t.characters ++ new_characters u.id ∷ [];
    emotes = t.emotes ++ new_user_emotes u.id ∷ [];
    stats = t.stats ++ new_stats u.id ∷ [];
    balloons = t.balloons ++ new_ballons u.id ∷ [];
    icons = t.icons ++ new_icons u.id ∷ [];
  }

  -- The vectors, the commit and the answer, behind the files.
  unfoldable pub store_user : FloatText E → ℕ → UserAccount → Action E Text
  store_user io k u m =
      (commit_transaction k >>= λ ok.
      pure (if ok then codes "REGISTER_SUCCESS|\n" else codes "FILE_WRITE_ERROR|\n"))
        (record m { tables = push_user io u m.tables })

  -- An answer where a file was not written.
  unfoldable pub or_answer : Action E Bool → Text → Action E Text → Action E Text
  or_answer x answer next = x >>= λ ok. if ok then next else pure answer

  -- RegisterUser behind the tests of its arguments.
  unfoldable pub write_user : FloatText E → ℕ → UserAccount → Action E Text
  write_user io k u = or_answer (register_user_account u) (codes "FILE_WRITE_ERROR|\n") (
      or_answer (register_user_profile io (new_profile io u.id))
        (codes "PROFILE_FILE_WRITE_ERROR|\n")
        (or_answer (register_user_characters (new_characters u.id))
          (codes "CHARACTER_FILE_WRITE_ERROR|\n")
          (or_answer (register_user_emotes (new_user_emotes u.id))
            (codes "EMOTE_FILE_WRITE_ERROR|\n")
            (or_answer (register_user_win_loss_stats (new_stats u.id))
              (codes "STATS_FILE_WRITE_ERROR|\n")
              (or_answer (register_user_ballons (new_ballons u.id))
                (codes "BALLOON_FILE_WRITE_ERROR|\n")
                (or_answer (register_user_icons (new_icons u.id)) (codes "ICON_FILE_WRITE_ERROR|\n")
                  (store_user io k u)))))))

  abbrev pub unless_duplicate : Option Text → Action E Text → Action E Text
  unless_duplicate none next = next
  unless_duplicate (some answer) next = pure answer

  unfoldable pub register_body : FloatText E → ℕ → UserAccount → Action E Text
  register_body io k u m =
      if is_empty u.id
        || (is_empty u.nickname
            || (has_forbidden u.id || (has_forbidden u.password || has_forbidden u.nickname)))
      then (returned (codes "REGISTER_ERROR|\n"), m)
      else unless_duplicate (duplicate u.id u.nickname m.tables.users)
          (if is_empty u.password then pure (codes "EMPTY_PASSWORD|\n") else write_user io k u) m

  -- RegisterUser, with the number of file calls of the commit that succeed.
  unfoldable pub register_user : FloatText E → ℕ → UserAccount → Action E Text
  register_user io k u = in_transaction (register_body io k u)
