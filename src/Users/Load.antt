-- ===== src/Users/Load.antt =====
-- Loading the user files at the start (the Load functions of TeamOFYServer/UserManager.cpp). A file is
-- what its stream yields, or `none` if it cannot be opened. The vectors that the functions return
-- are not modelled, only those that they set.
use bn_bserver.Prelude.{Bool, true, false, Option, none, some, List, [], ◌∷◌}
use bn_bserver.Prelude.Text.{Text}
use bn_bserver.Prelude.Lines.{split}
use bn_bserver.Users.{
  account_path, profile_path, character_path, emote_path, stats_path, balloon_path, icon_path,
  ◌>>=◌, Tables, Action, returned, threw,
}
use bn_bserver.Users.Rows.{
  FloatText, Parsed, skipped, bad_number, parsed, account_row, profile_row, strict_row, emote_row,
  balloon_row,
}

module _ {ℓ} {R : Type ℓ} where
  -- `if (line.empty()) continue;`
  unfoldable pub line_parsed : (Text → Parsed R) → Text → Parsed R
  line_parsed row [] = skipped
  line_parsed row (c ∷ line) = row (c ∷ line)

  abbrev pub add_row : Parsed R → Option (List R) → Option (List R)
  add_row bad_number rest = none
  add_row skipped rest = rest
  add_row (parsed r) none = none
  add_row (parsed r) (some rs) = some (r ∷ rs)

  -- The rows of some lines; `none` is an exception.
  unfoldable pub rows_of : (Text → Parsed R) → List Text → Option (List R)
  rows_of row [] = some []
  rows_of row (line ∷ lines) = add_row (line_parsed row line) (rows_of row lines)

-- The lines behind the header; `none` for a file that has no header.
unfoldable pub body : List Text → Option (List Text)
body [] = none
body (header ∷ lines) = some lines

unfoldable pub body_or_empty : List Text → List Text
body_or_empty [] = []
body_or_empty (header ∷ lines) = lines

module _ {ℓ} {E : Type ℓ} where
  -- The assignment at the end of a load, which an exception does not reach.
  abbrev pub set_table {κ} :
      {R : Type κ} → (List R → Tables E → Tables E) → Option (List R) → Action E Bool
  set_table set none m = (threw, m)
  set_table set (some rs) m = (returned true, record m { tables = set rs m.tables })

  abbrev pub load_lines {κ} :
      {R : Type κ}
      → (Text → Parsed R)
      → (List R → Tables E → Tables E)
      → Option (List Text)
      → Action E Bool
  load_lines row set none m = (returned false, m)
  load_lines row set (some lines) m = set_table set (rows_of row lines) m

  -- A loader that returns early if there is no file or no header.
  unfoldable pub load_file {κ} :
      {R : Type κ}
      → (Text → Parsed R)
      → (List R → Tables E → Tables E)
      → Option Text
      → Action E Bool
  load_file row set none m = (returned false, m)
  load_file row set (some s) m = load_lines row set (body (split 10 s)) m

  unfoldable pub load_account_users : Option Text → Action E Bool
  load_account_users = load_file account_row (λ rs t. record t { users = rs })

  unfoldable pub load_user_profiles : FloatText E → Option Text → Action E Bool
  load_user_profiles io = load_file (profile_row io) (λ rs t. record t { profiles = rs })

  unfoldable pub load_user_characters : Option Text → Action E Bool
  load_user_characters = load_file (strict_row 6) (λ rs t. record t { characters = rs })

  unfoldable pub load_user_emotes : Option Text → Action E Bool
  load_user_emotes = load_file emote_row (λ rs t. record t { emotes = rs })

  -- The header of the balloons is not tested.
  unfoldable pub load_user_ballons : Option Text → Action E Bool
  load_user_ballons none m = (returned false, m)
  load_user_ballons (some s) m =
      set_table (λ rs t. record t { balloons = rs })
        (rows_of balloon_row (body_or_empty (split 10 s))) m

  unfoldable pub load_user_win_loss_stats : Option Text → Action E Bool
  load_user_win_loss_stats = load_file (strict_row 15) (λ rs t. record t { stats = rs })

  unfoldable pub load_user_icons : Option Text → Action E Bool
  load_user_icons = load_file (strict_row 9) (λ rs t. record t { icons = rs })

  -- The loads of Server::Run, one after the other.
  unfoldable pub load_users : FloatText E → Action E Bool
  load_users io m =
      (load_account_users (m.files account_path)
          >>= (λ _. load_user_profiles io (m.files profile_path))
          >>= (λ _. load_user_characters (m.files character_path))
          >>= (λ _. load_user_emotes (m.files emote_path))
          >>= (λ _. load_user_win_loss_stats (m.files stats_path))
          >>= (λ _. load_user_ballons (m.files balloon_path))
          >>= (λ _. load_user_icons (m.files icon_path)))
        m
