-- ===== src/Shop/Laws.antt =====
-- What the four kinds of things have in common: their vector and their file.
use bn_bserver.Prelude.{ℕ, suc, ◌≡◌, refl, ◌∙◌, true, false, List, All}
use bn_bserver.Prelude.Text.{Text, ◌==◌, text_lt}
use bn_bserver.CsvStore.{Disk, allowed, journal}
use bn_bserver.Users.{
  account_path, profile_path, character_path, emote_path, stats_path, balloon_path, icon_path,
  UserProfile, IntRow, Tables,
}
use bn_bserver.Users.Rows.{FloatText, int_row_text, profile_text}
use bn_bserver.Users.RowTrip.{IsIntRow}
use bn_bserver.Users.Save.{
  find_row, line_of, save_lines, save_user_characters, save_user_emotes, save_user_ballons,
  save_user_icons,
}
use bn_bserver.Users.Loaded.{HasFile, IsStored, Mirrors}
use bn_bserver.Shop.{Stock, characters, balloons, emotes, icons}

-- The tables with other rows for the profiles and for the things.
abbrev pub with_rows {ℓ} :
    {E : Type ℓ} → Stock E → List (UserProfile E) → List IntRow → Tables E → Tables E
with_rows s ps rs t = s.set_rows rs (record t { profiles = ps })

pub record StockLaws {ℓ} {E : Type ℓ} (io : FloatText E) (s : Stock E) : Type ℓ where
  -- The file is one of the store's and comes before the file of the profiles.
  pub path : Text
  pub path-allowed : allowed path ≡ true
  pub path_before : text_lt path profile_path ≡ true
  pub path_journal : (journal == path) ≡ false
  pub path_other : (path == profile_path) ≡ false
  pub path_other' : (profile_path == path) ≡ false
  -- The vector.
  pub rows_there :
      (ps : List (UserProfile E)) (rs : List IntRow) (t : Tables E)
      → s.rows (with_rows s ps rs t) ≡ rs
  pub profiles_there :
      (ps : List (UserProfile E)) (rs : List IntRow) (t : Tables E)
      → (with_rows s ps rs t).profiles ≡ ps
  pub same_rows : (t : Tables E) → s.set_rows (s.rows t) t ≡ t
  pub new_id : (u : Text) → (s.new_row u).id ≡ u
  -- What is saved and stored.
  pub saves :
      (u : Text)
      → s.save u ≡ save_lines path (λ t. line_of int_row_text (find_row IntRow.id u (s.rows t))) u
  pub width : ℕ
  pub stored : (t : Tables E) → IsStored io t → All (IsIntRow (suc width)) (s.rows t)
  pub file : (d : Disk) (t : Tables E) → Mirrors io d t → HasFile path int_row_text (s.rows t) d
  pub mirrors :
      (d d' : Disk) (ps : List (UserProfile E)) (rs : List IntRow) (t : Tables E)
      → Mirrors io d t
      → ((p : Text)
          → (journal == p) ≡ false
          → (path == p) ≡ false
          → (profile_path == p) ≡ false
          → d' p ≡ d p)
      → HasFile profile_path (profile_text io) ps d'
      → HasFile path int_row_text rs d'
      → Mirrors io d' (with_rows s ps rs t)

module _ {ℓ} {E : Type ℓ} (io : FloatText E) where
  abbrev pub kept_file {κ} :
      {R : Type κ} {path : Text} (text : R → Text) (rs : List R) (d d' : Disk)
      → d' path ≡ d path
      → HasFile path text rs d
      → HasFile path text rs d'
  kept_file text rs d d' same (header, one, at) = (header, one, same ∙ at)

  unfoldable pub characters-StockLaws : StockLaws io characters
  unfolding allowed text_lt ◌==◌ save_user_characters
  characters-StockLaws = record {
    path = character_path;
    path-allowed = refl;
    path_before = refl;
    path_journal = refl;
    path_other = refl;
    path_other' = refl;
    rows_there = λ ps rs t. refl;
    profiles_there = λ ps rs t. refl;
    same_rows = λ t. refl;
    new_id = λ u. refl;
    saves = λ u. refl;
    width = 6;
    stored = λ t h. h.characters;
    file = λ d t h. h.characters;
    mirrors = λ d d' ps rs t h same p r. record {
      users = kept_file _ _ d d' (same account_path refl refl refl) h.users;
      profiles = p;
      characters = r;
      emotes = kept_file _ _ d d' (same emote_path refl refl refl) h.emotes;
      stats = kept_file _ _ d d' (same stats_path refl refl refl) h.stats;
      balloons = kept_file _ _ d d' (same balloon_path refl refl refl) h.balloons;
      icons = kept_file _ _ d d' (same icon_path refl refl refl) h.icons;
    };
  }

  unfoldable pub balloons-StockLaws : StockLaws io balloons
  unfolding allowed text_lt ◌==◌ save_user_ballons
  balloons-StockLaws = record {
    path = balloon_path;
    path-allowed = refl;
    path_before = refl;
    path_journal = refl;
    path_other = refl;
    path_other' = refl;
    rows_there = λ ps rs t. refl;
    profiles_there = λ ps rs t. refl;
    same_rows = λ t. refl;
    new_id = λ u. refl;
    saves = λ u. refl;
    width = 9;
    stored = λ t h. h.balloons;
    file = λ d t h. h.balloons;
    mirrors = λ d d' ps rs t h same p r. record {
      users = kept_file _ _ d d' (same account_path refl refl refl) h.users;
      profiles = p;
      characters = kept_file _ _ d d' (same character_path refl refl refl) h.characters;
      emotes = kept_file _ _ d d' (same emote_path refl refl refl) h.emotes;
      stats = kept_file _ _ d d' (same stats_path refl refl refl) h.stats;
      balloons = r;
      icons = kept_file _ _ d d' (same icon_path refl refl refl) h.icons;
    };
  }

  unfoldable pub emotes-StockLaws : StockLaws io emotes
  unfolding allowed text_lt ◌==◌ save_user_emotes
  emotes-StockLaws = record {
    path = emote_path;
    path-allowed = refl;
    path_before = refl;
    path_journal = refl;
    path_other = refl;
    path_other' = refl;
    rows_there = λ ps rs t. refl;
    profiles_there = λ ps rs t. refl;
    same_rows = λ t. refl;
    new_id = λ u. refl;
    saves = λ u. refl;
    width = 35;
    stored = λ t h. h.emotes;
    file = λ d t h. h.emotes;
    mirrors = λ d d' ps rs t h same p r. record {
      users = kept_file _ _ d d' (same account_path refl refl refl) h.users;
      profiles = p;
      characters = kept_file _ _ d d' (same character_path refl refl refl) h.characters;
      emotes = r;
      stats = kept_file _ _ d d' (same stats_path refl refl refl) h.stats;
      balloons = kept_file _ _ d d' (same balloon_path refl refl refl) h.balloons;
      icons = kept_file _ _ d d' (same icon_path refl refl refl) h.icons;
    };
  }

  unfoldable pub icons-StockLaws : StockLaws io icons
  unfolding allowed text_lt ◌==◌ save_user_icons
  icons-StockLaws = record {
    path = icon_path;
    path-allowed = refl;
    path_before = refl;
    path_journal = refl;
    path_other = refl;
    path_other' = refl;
    rows_there = λ ps rs t. refl;
    profiles_there = λ ps rs t. refl;
    same_rows = λ t. refl;
    new_id = λ u. refl;
    saves = λ u. refl;
    width = 9;
    stored = λ t h. h.icons;
    file = λ d t h. h.icons;
    mirrors = λ d d' ps rs t h same p r. record {
      users = kept_file _ _ d d' (same account_path refl refl refl) h.users;
      profiles = p;
      characters = kept_file _ _ d d' (same character_path refl refl refl) h.characters;
      emotes = kept_file _ _ d d' (same emote_path refl refl refl) h.emotes;
      stats = kept_file _ _ d d' (same stats_path refl refl refl) h.stats;
      balloons = kept_file _ _ d d' (same balloon_path refl refl refl) h.balloons;
      icons = r;
    };
  }
