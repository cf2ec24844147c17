-- ===== src/Users/Registered.antt =====
-- RegisterUser (TeamOFYServer/UserManager.cpp) on files that hold the tables.
use bn_bserver.Prelude.{
  append_assoc, ℕ, ◌<◌, ◌≤◌, ◌≡◌, refl, ◌∙◌, ap, true, false, none, List, [], ◌∷◌, ◌++◌,
  if◌then◌else◌, All, map, length,
}
use bn_bserver.Prelude.Text.{Text, codes, ◌==◌, text_lt}
use bn_bserver.Prelude.Lines.{joined_by}
use bn_bserver.Prelude.Assoc.{lookup}
use bn_bserver.CsvStore.{Images, Disk, allowed, max_image, accepted, commit}
use bn_bserver.CsvStore.RoundTrip.{IsSorted, IsImage}
use bn_bserver.CsvStore.Recovery.{commit-accepted}
use bn_bserver.CsvStore.Redo.{Applied}
use bn_bserver.Users.{
  account_path, profile_path, character_path, emote_path, stats_path, balloon_path, icon_path,
  UserAccount, Tables, UserManager, returned, run_then, pure, read_csv, write_csv, put_image,
  commit_answer, commit_transaction, end_transaction, in_transaction, leave,
}
use bn_bserver.Users.Rows.{FloatText, account_text, int_row_text, profile_text}
use bn_bserver.Users.Register.{
  new_profile, new_characters, new_user_emotes, new_stats, new_ballons, new_icons, duplicate,
  is_empty, append_line, register_user_account, register_user_profile, register_user_characters,
  register_user_emotes, register_user_win_loss_stats, register_user_ballons, register_user_icons,
  push_user, store_user, or_answer, write_user, register_body, register_user,
}
use bn_bserver.Users.Loaded.{file_text, HasFile, Mirrors}
use bn_bserver.Users.Saved.{file_text-nonempty}
use bn_bserver.Users.Atomic.{success, is_refused}

module _ {ℓ} {R : Type ℓ} (text : R → Text) where
  joined_by-snoc :
      (rs : List R) (r : R)
      → joined_by 10 (map text rs) ++ (text r ++ 10 ∷ []) ≡ joined_by 10 (map text (rs ++ r ∷ []))
  unfolding joined_by
  joined_by-snoc [] r = refl
  joined_by-snoc (q ∷ rs) r =
      append_assoc (text q) (10 ∷ joined_by 10 (map text rs)) (text r ++ 10 ∷ [])
      ∙ ap (λ s. text q ++ 10 ∷ s) (joined_by-snoc rs r)

  file_text-snoc :
      (header : Text) (rs : List R) (r : R)
      → file_text text header rs ++ (text r ++ 10 ∷ []) ≡ file_text text header (rs ++ r ∷ [])
  unfolding joined_by
  file_text-snoc header rs r =
      append_assoc header (10 ∷ joined_by 10 (map text rs)) (text r ++ 10 ∷ [])
      ∙ ap (λ s. header ++ 10 ∷ s) (joined_by-snoc rs r)

  append_line-file_text {κ} :
      {E : Type κ} (path : Text) (rs : List R) (r : R) (m : UserManager E)
      (f : HasFile path text rs m.files)
      → m.active ≡ true
      → lookup path m.pending ≡ none
      → append_line path (text r) m ≡ (
        returned true,
        record m { pending = put_image path (file_text text f.0 (rs ++ r ∷ [])) m.pending },
      )
  unfolding append_line read_csv write_csv
  append_line-file_text path rs r m (header, one, at) active fresh =
      rw (fresh, at, active, file_text-snoc header rs r)

module _ {ℓ} {E : Type ℓ} (io : FloatText E) (u : UserAccount) (t : Tables E) (d : Disk)
    (f : Mirrors io d t) where
  -- The files behind the registration, under their headers.
  abbrev account_file : Text
  account_file = file_text account_text f.users.0 (push_user io u t).users

  abbrev profile_file : Text
  profile_file = file_text (profile_text io) f.profiles.0 (push_user io u t).profiles

  abbrev character_file : Text
  character_file = file_text int_row_text f.characters.0 (push_user io u t).characters

  abbrev emote_file : Text
  emote_file = file_text int_row_text f.emotes.0 (push_user io u t).emotes

  abbrev stats_file : Text
  stats_file = file_text int_row_text f.stats.0 (push_user io u t).stats

  abbrev balloon_file : Text
  balloon_file = file_text int_row_text f.balloons.0 (push_user io u t).balloons

  abbrev icon_file : Text
  icon_file = file_text int_row_text f.icons.0 (push_user io u t).icons

  -- The batch of a registration.
  abbrev pub batch : Images
  batch =
      (balloon_path, balloon_file)
      ∷ (character_path, character_file)
      ∷ (emote_path, emote_file)
      ∷ (icon_path, icon_file)
      ∷ (profile_path, profile_file)
      ∷ (stats_path, stats_file)
      ∷ (account_path, account_file)
      ∷ []

  abbrev during : Tables E → Images → UserManager E
  during t' pending = record {
    tables = t';
    pending = pending;
    active = true;
    committed = false;
    files = d;
  }

  writes_all : (k : ℕ) → write_user io k u (during t []) ≡ store_user io k u (during t batch)
  unfolding write_user or_answer register_user_account register_user_profile
      register_user_characters register_user_emotes register_user_win_loss_stats
      register_user_ballons register_user_icons push_user lookup put_image text_lt ◌==◌
  writes_all k =
      let p1 : Images = (account_path, account_file) ∷ [] in
      let p2 : Images = put_image profile_path profile_file p1 in
      let p3 : Images = put_image character_path character_file p2 in
      let p4 : Images = put_image emote_path emote_file p3 in
      let p5 : Images = put_image stats_path stats_file p4 in
      let p6 : Images = put_image balloon_path balloon_file p5 in
      rw (
        append_line-file_text account_text account_path t.users u (during t []) f.users refl refl,
        append_line-file_text (profile_text io) profile_path t.profiles (new_profile io u.id)
            (during t p1) f.profiles refl refl,
        append_line-file_text int_row_text character_path t.characters (new_characters u.id)
            (during t p2) f.characters refl refl,
        append_line-file_text int_row_text emote_path t.emotes (new_user_emotes u.id) (during t p3)
            f.emotes refl refl,
        append_line-file_text int_row_text stats_path t.stats (new_stats u.id) (during t p4) f.stats
            refl refl,
        append_line-file_text int_row_text balloon_path t.balloons (new_ballons u.id) (during t p5)
            f.balloons refl refl,
        append_line-file_text int_row_text icon_path t.icons (new_icons u.id) (during t p6) f.icons
            refl refl,
      )

  batch-IsSorted : IsSorted batch
  unfolding text_lt
  batch-IsSorted = (
    (refl, (refl, (refl, (refl, (refl, (refl, tt)))))),
    (
      (refl, (refl, (refl, (refl, (refl, tt))))),
      (
        (refl, (refl, (refl, (refl, tt)))),
        ((refl, (refl, (refl, tt))), ((refl, (refl, tt)), ((refl, tt), (tt, tt)))),
      ),
    ),
  )

  module _ (k : ℕ) (enough : 8 < k) (small : All (λ e. length e.1 ≤ max_image) batch) where
    batch-IsImage : All IsImage batch
    unfolding allowed ◌==◌
    batch-IsImage = (
      (refl, file_text-nonempty int_row_text _ _, small.0),
      (
        (refl, file_text-nonempty int_row_text _ _, small.1.0),
        (
          (refl, file_text-nonempty int_row_text _ _, small.1.1.0),
          (
            (refl, file_text-nonempty int_row_text _ _, small.1.1.1.0),
            (
              (refl, file_text-nonempty (profile_text io) _ _, small.1.1.1.1.0),
              (
                (refl, file_text-nonempty int_row_text _ _, small.1.1.1.1.1.0),
                ((refl, file_text-nonempty account_text _ _, small.1.1.1.1.1.1.0), tt),
              ),
            ),
          ),
        ),
      ),
    )

    accepts : ((commit k batch d).1 ≡ accepted) × Applied batch d (commit k batch d).0
    accepts = commit-accepted (balloon_path, _) _ d k batch-IsSorted batch-IsImage enough

    after-Mirrors : Mirrors io (commit k batch d).0 (push_user io u t)
    unfolding lookup ◌==◌
    after-Mirrors = record {
      users = (f.users.0, f.users.1, accepts.1 account_path);
      profiles = (f.profiles.0, f.profiles.1, accepts.1 profile_path);
      characters = (f.characters.0, f.characters.1, accepts.1 character_path);
      emotes = (f.emotes.0, f.emotes.1, accepts.1 emote_path);
      stats = (f.stats.0, f.stats.1, accepts.1 stats_path);
      balloons = (f.balloons.0, f.balloons.1, accepts.1 balloon_path);
      icons = (f.icons.0, f.icons.1, accepts.1 icon_path);
    }

    stores : store_user io k u (during t batch) ≡ (
      returned success,
      record {
        tables = push_user io u t;
        pending = batch;
        active = true;
        committed = true;
        files = (commit k batch d).0;
      },
    )
    unfolding store_user commit_transaction
    stores =
        ap
          (λ a.
            run_then (commit_answer (during (push_user io u t) batch) ((commit k batch d).0, a))
              (λ ok. pure (if ok then success else codes "FILE_WRITE_ERROR|\n")))
          accepts.0

-- A registration of a user with an id, a nickname and a password without separators, whose id and
-- nickname nobody has, outside of a transaction and on files that hold the tables: if no file call
-- fails and no new file is over the limit, the answer is the success, the tables have the
-- rows of the user, and the files hold these tables.
pub register_user-Mirrors {ℓ} :
    {E : Type ℓ} (io : FloatText E) (k : ℕ) (u : UserAccount) (m : UserManager E)
    (f : Mirrors io m.files m.tables)
    → m.active ≡ false
    → is_refused u ≡ false
    → is_empty u.password ≡ false
    → duplicate u.id u.nickname m.tables.users ≡ none
    → 8 < k
    → All (λ e. length e.1 ≤ max_image) (batch io u m.tables m.files f)
    → (register_user io k u m ≡ (
      returned success,
      record {
        tables = push_user io u m.tables;
        pending = [];
        active = false;
        committed = false;
        files = (commit k (batch io u m.tables m.files f) m.files).0;
      },
    ))
      × Mirrors io (commit k (batch io u m.tables m.files f) m.files).0 (push_user io u m.tables)
unfolding register_user register_body in_transaction leave end_transaction
register_user-Mirrors io k u m f idle good some_password new enough small = (
  rw (
    idle,
    good,
    new,
    some_password,
    writes_all io u m.tables m.files f k,
    stores io u m.tables m.files f k enough small,
  ),
  after-Mirrors io u m.tables m.files f k enough small,
)
