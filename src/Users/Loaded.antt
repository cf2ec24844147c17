-- ===== src/Users/Loaded.antt =====
-- The loads of the start (TeamOFYServer/UserManager.cpp) on files that hold the tables.
use bn_bserver.Prelude.{
  ℕ, suc, ◌≡◌, refl, true, false, some, List, [], ◌∷◌, ◌++◌, arith, length, All, map,
}
use bn_bserver.Prelude.Text.{Text, has_byte, has_byte-append}
use bn_bserver.Prelude.Lines.{split, joined_by, split-joined_by, Lacks}
use bn_bserver.Prelude.Int.{ℤ, int_string}
use bn_bserver.CsvStore.{Disk}
use bn_bserver.Users.{
  account_path, profile_path, character_path, emote_path, stats_path, balloon_path, icon_path,
  UserAccount, UserProfile, IntRow, Tables, UserManager, returned,
}
use bn_bserver.Users.Rows.{
  FloatText, account_text, int_row_text, profile_text, Parsed, parsed, account_row, profile_row,
  strict_row, emote_row, balloon_row, values_text,
}
use bn_bserver.Users.Load.{
  line_parsed, rows_of, body, body_or_empty, load_file, load_account_users, load_user_profiles,
  load_user_characters, load_user_emotes, load_user_ballons, load_user_win_loss_stats,
  load_user_icons, load_users,
}
use bn_bserver.Users.RowTrip.{
  IsAccountRow, IsIntRow, IsProfileRow, account_row-account_text, profile_row-profile_text,
  strict_row-int_row_text, emote_row-int_row_text, balloon_row-int_row_text, int_row_text-newline,
  has_byte-behind, values_text-newline, int_string-newline,
}

-- A file: a header, and a line for each row.
abbrev pub file_text {ℓ} : {R : Type ℓ} → (R → Text) → Text → List R → Text
file_text text header rs = joined_by 10 (header ∷ map text rs)

abbrev pub HasFile {κ} : {R : Type κ} → Text → (R → Text) → List R → Disk → Type 0
HasFile path text rs files =
    (header : Text) × (has_byte 10 header ≡ false) × (files path ≡ some (file_text text header rs))

-- A row whose line is no blank line, has no line feed, and is read back.
abbrev pub Reads {ℓ} : {R : Type ℓ} → (Text → Parsed R) → (R → Text) → R → Type ℓ
Reads row text r =
    (has_byte b',' (text r) ≡ true) × (has_byte 10 (text r) ≡ false) × (row (text r) ≡ parsed r)

module _ {ℓ} {R : Type ℓ} (row : Text → Parsed R) (text : R → Text) where
  line_parsed-lead : (line : Text) → has_byte b',' line ≡ true → line_parsed row line ≡ row line
  unfolding line_parsed has_byte
  line_parsed-lead [] h = ground arith
  line_parsed-lead (c ∷ line) h = refl

  pub rows_of-text : (rs : List R) → All (Reads row text) rs → rows_of row (map text rs) ≡ some rs
  unfolding rows_of
  rows_of-text [] h = refl
  rows_of-text (r ∷ rs) ((comma, newline, back), h) =
      rw (line_parsed-lead (text r) comma, back, rows_of-text rs h)

  pub lines-Lacks : (rs : List R) → All (Reads row text) rs → All (Lacks 10) (map text rs)
  lines-Lacks [] h = tt
  lines-Lacks (r ∷ rs) ((comma, newline, back), h) = (newline, lines-Lacks rs h)

  pub split-file_text :
      (header : Text) (rs : List R)
      → has_byte 10 header ≡ false
      → All (Reads row text) rs
      → split 10 (file_text text header rs) ≡ header ∷ map text rs
  split-file_text header rs one good =
      split-joined_by 10 (header ∷ map text rs) (one, lines-Lacks rs good)

module _ {ℓ κ} {E : Type ℓ} {R : Type κ} (row : Text → Parsed R) (text : R → Text) where
  load_file-file_text :
      (set : List R → Tables E → Tables E) (header : Text) (rs : List R) (m : UserManager E)
      → has_byte 10 header ≡ false
      → All (Reads row text) rs
      → load_file row set (some (file_text text header rs)) m
        ≡ (returned true, record m { tables = set rs m.tables })
  unfolding load_file body
  load_file-file_text set header rs m one good =
      rw (split-file_text row text header rs one good, rows_of-text row text rs good)

int_row-comma : (n : ℕ) (r : IntRow) → IsIntRow (suc n) r → has_byte b',' (int_row_text r) ≡ true
unfolding int_row_text values_text
int_row-comma n r h = comma_at r.id r.values h.1
  where
    comma_at :
        (id : Text) (vs : List ℤ) → length vs ≡ suc n → has_byte b',' (id ++ values_text vs) ≡ true
    comma_at id [] e = absurd (ground arith)
    comma_at id (v ∷ vs) e = has_byte-behind b',' id (int_string v ++ values_text vs)

pub All-map {ℓ κ μ} :
    {A : Type ℓ} {P : A → Type κ} {Q : A → Type μ}
    → ((a : A) → P a → Q a)
    → (xs : List A) → All P xs
    → All Q xs
All-map f [] h = tt
All-map f (x ∷ xs) (p, h) = (f x p, All-map f xs h)

strict-Reads : (n : ℕ) (r : IntRow) → IsIntRow (suc n) r → Reads (strict_row n) int_row_text r
strict-Reads n r h =
    (int_row-comma n r h, int_row_text-newline (suc n) r h, strict_row-int_row_text n r h)

emote-Reads : (r : IntRow) → IsIntRow 36 r → Reads emote_row int_row_text r
emote-Reads r h = (int_row-comma 35 r h, int_row_text-newline 36 r h, emote_row-int_row_text r h)

balloon-Reads : (r : IntRow) → IsIntRow 10 r → Reads balloon_row int_row_text r
balloon-Reads r h = (int_row-comma 9 r h, int_row_text-newline 10 r h, balloon_row-int_row_text r h)

account-Reads : (u : UserAccount) → IsAccountRow u → Reads account_row account_text u
unfolding account_text has_byte
account-Reads u h = (
  has_byte-behind b',' u.id (u.password ++ b',' ∷ u.nickname),
  has_byte-append 10 u.id (b',' ∷ (u.password ++ b',' ∷ u.nickname)) h.0.1
      (has_byte-append 10 u.password (b',' ∷ u.nickname) h.1.1 h.2.1),
  account_row-account_text u (h.0, h.1, h.2, h.3),
)

module _ {ℓ} {E : Type ℓ} (io : FloatText E) where
  pub profile-Reads :
      (p : UserProfile E) → IsProfileRow io p → Reads (profile_row io) (profile_text io) p
  unfolding profile_text has_byte
  profile-Reads p h =
      let numbers =
        p.icon ∷ p.money0 ∷ p.money1 ∷ p.emo0 ∷ p.emo1 ∷ p.emo2 ∷ p.emo3 ∷ p.balloon ∷ [] in
      let tail = io.float_string p.exp ++ values_text numbers in
      let tail' = int_string p.level ++ b',' ∷ tail in
      let free : has_byte 10 tail ≡ false =
        has_byte-append 10 (io.float_string p.exp) (values_text numbers) h.2.0.1
          (values_text-newline numbers) in
      let free' : has_byte 10 tail' ≡ false =
        has_byte-append 10 (int_string p.level) (b',' ∷ tail) (int_string-newline p.level) free in
      (
        has_byte-behind b',' p.id tail',
        has_byte-append 10 p.id (b',' ∷ tail') h.0.1 free',
        profile_row-profile_text io p h,
      )

  -- Tables whose rows are read back from their lines.
  pub record IsStored (t : Tables E) : Type ℓ where
    pub users : All IsAccountRow t.users
    pub profiles : All (IsProfileRow io) t.profiles
    pub characters : All (IsIntRow 7) t.characters
    pub emotes : All (IsIntRow 36) t.emotes
    pub stats : All (IsIntRow 16) t.stats
    pub balloons : All (IsIntRow 10) t.balloons
    pub icons : All (IsIntRow 10) t.icons

  -- Each file is a header and the rows of its table.
  pub record Mirrors (files : Disk) (t : Tables E) : Type 0 where
    pub users : HasFile account_path account_text t.users files
    pub profiles : HasFile profile_path (profile_text io) t.profiles files
    pub characters : HasFile character_path int_row_text t.characters files
    pub emotes : HasFile emote_path int_row_text t.emotes files
    pub stats : HasFile stats_path int_row_text t.stats files
    pub balloons : HasFile balloon_path int_row_text t.balloons files
    pub icons : HasFile icon_path int_row_text t.icons files

  loads_one {κ} :
      {R : Type κ} (row : Text → Parsed R) (text : R → Text) (path : Text)
      (set : List R → Tables E → Tables E) (rs : List R) (files : Disk) (m : UserManager E)
      → HasFile path text rs files
      → All (Reads row text) rs
      → load_file row set (files path) m ≡ (returned true, record m { tables = set rs m.tables })
  loads_one row text path set rs files m (header, one, at) good =
      rw at (load_file-file_text row text set header rs m one good)

  loads_balloons :
      (rs : List IntRow) (files : Disk) (m : UserManager E)
      → HasFile balloon_path int_row_text rs files
      → All (IsIntRow 10) rs
      → load_user_ballons (files balloon_path) m
        ≡ (returned true, record m { tables = record m.tables { balloons = rs } })
  unfolding load_user_ballons body_or_empty
  loads_balloons rs files m (header, one, at) good =
      let reads = All-map balloon-Reads rs good in
      rw (
        at,
        split-file_text balloon_row int_row_text header rs one reads,
        rows_of-text balloon_row int_row_text rs reads,
      )

  -- If the files hold the tables `t`, row by row under any headers, and the rows of `t` can be read back
  -- (texts without commas and line feeds, ints within their limits, floats that their text gives
  -- back), the loads of the start return and the vectors are `t`, whatever they were before.
  pub load_users-Mirrors :
      (t : Tables E) (m : UserManager E)
      → IsStored t
      → Mirrors m.files t
      → load_users io m ≡ (returned true, record m { tables = t })
  unfolding load_users load_account_users load_user_profiles load_user_characters load_user_emotes
      load_user_win_loss_stats load_user_icons
  load_users-Mirrors t m s f = rw (
    loads_one account_row account_text account_path _ t.users m.files m f.users
        (All-map account-Reads t.users s.users),
    loads_one (profile_row io) (profile_text io) profile_path _ t.profiles m.files _ f.profiles
        (All-map profile-Reads t.profiles s.profiles),
    loads_one (strict_row 6) int_row_text character_path _ t.characters m.files _ f.characters
        (All-map (strict-Reads 6) t.characters s.characters),
    loads_one emote_row int_row_text emote_path _ t.emotes m.files _ f.emotes
        (All-map emote-Reads t.emotes s.emotes),
    loads_one (strict_row 15) int_row_text stats_path _ t.stats m.files _ f.stats
        (All-map (strict-Reads 15) t.stats s.stats),
    loads_balloons t.balloons m.files _ f.balloons s.balloons,
    loads_one (strict_row 9) int_row_text icon_path _ t.icons m.files _ f.icons
        (All-map (strict-Reads 9) t.icons s.icons),
  )
