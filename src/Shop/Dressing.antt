-- ===== src/Shop/Dressing.antt =====
-- EMO_CHANGE (TeamOFYServer/ClientHandler.cpp) on files that hold the tables.
use bn_bserver.Prelude.{
  ℕ, ◌<◌, ◌≤◌, ◌≡◌, refl, ap, ◌∙◌, map, true, false, some, List, [], ◌∷◌, All, length,
}
use bn_bserver.Prelude.Text.{Text, ◌==◌}
use bn_bserver.Prelude.Assoc.{lookup}
use bn_bserver.Prelude.Int.{ℤ}
use bn_bserver.CsvStore.{Images, Disk, allowed, max_image, accepted, commit}
use bn_bserver.CsvStore.RoundTrip.{IsImage}
use bn_bserver.CsvStore.Recovery.{commit-accepted}
use bn_bserver.CsvStore.Redo.{Applied}
use bn_bserver.Store.{same_int}
use bn_bserver.Rooms.Clients.{Client, Clients}
use bn_bserver.Users.{
  account_path, profile_path, character_path, emote_path, stats_path, balloon_path, icon_path,
  UserProfile, IntRow, Tables, UserManager, returned, put_image, commit_answer, commit_transaction,
  end_transaction, in_transaction, leave,
}
use bn_bserver.Users.Rows.{FloatText, profile_text}
use bn_bserver.Users.Save.{find_row, save_user_profile}
use bn_bserver.Users.Query.{
  get_user_profile_by_id, get_user_emotes_by_id, row_by_id, change_row, value_at,
}
use bn_bserver.Users.Loaded.{file_text, IsStored, Mirrors, All-map}
use bn_bserver.Users.Saved.{
  file_text-nonempty, rows_with, profile-IsKeyed, save_lines-change_row, find_row-change_row,
}
use bn_bserver.Shop.{user_of, is_owned, emotes}
use bn_bserver.Shop.Laws.{kept_file, emotes-StockLaws}
use bn_bserver.Shop.Purchase.{IsCustomer}
use bn_bserver.Shop.Exchanged.{AreApart, exchange, wear-exchange}
use bn_bserver.Shop.Equip.{
  wear, slots_of, set_slots, send_set_info, change_profile, change_emote, with_numbers,
}

module _ {ℓ} {E : Type ℓ} (io : FloatText E) where
  -- The tables and the batch behind a change of a profile.
  abbrev pub with_profile : Text → (UserProfile E → UserProfile E) → Tables E → Tables E
  with_profile u f t = record t { profiles = change_row UserProfile.id u f t.profiles }

  abbrev pub profile_batch : Text → Text → (UserProfile E → UserProfile E) → Tables E → Images
  profile_batch header u f t =
      (profile_path, file_text (profile_text io) header (change_row UserProfile.id u f t.profiles))
      ∷ []

  module _ (u : Text) (f : UserProfile E → UserProfile E) (t : Tables E) (d : Disk)
      (p : UserProfile E) (keeps : (q : UserProfile E) → (f q).id ≡ q.id) (stored : IsStored io t)
      (mirrors : Mirrors io d t) (one_profile : rows_with UserProfile.id u t.profiles ≤ 1)
      (profile : find_row UserProfile.id u t.profiles ≡ some p) (k : ℕ) (enough : 2 < k)
      (small : length (
          file_text (profile_text io) mirrors.profiles.0 (change_row UserProfile.id u f t.profiles))
        ≤ max_image) where
    abbrev batch : Images
    batch = profile_batch mirrors.profiles.0 u f t

    abbrev during : Images → UserManager E
    during pending = record {
      tables = with_profile u f t;
      pending = pending;
      active = true;
      committed = false;
      files = d;
    }

    saves : save_user_profile io u (during []) ≡ (returned true, during batch)
    unfolding save_user_profile lookup put_image
    saves =
        save_lines-change_row UserProfile.id (profile_text io) profile_path u mirrors.profiles.0
          Tables.profiles f t.profiles p (during []) keeps mirrors.profiles.1
          (All-map (profile-IsKeyed io) t.profiles stored.profiles) one_profile profile refl refl
          mirrors.profiles.2 refl

    batch-IsImage : All IsImage batch
    unfolding allowed ◌==◌
    batch-IsImage = ((refl, file_text-nonempty (profile_text io) _ _, small), tt)

    accepts : ((commit k batch d).1 ≡ accepted) × Applied batch d (commit k batch d).0
    accepts = commit-accepted (profile_path, _) [] d k (tt, tt) batch-IsImage enough

    commits :
        commit_transaction k (during batch)
        ≡ (returned true, record (during batch) { committed = true; files = (commit k batch d).0 })
    unfolding commit_transaction
    commits = ap (λ a. commit_answer (during batch) ((commit k batch d).0, a)) accepts.0

    after-Mirrors : Mirrors io (commit k batch d).0 (with_profile u f t)
    unfolding lookup ◌==◌
    after-Mirrors = record {
      users = kept_file io _ _ d (commit k batch d).0 (accepts.1 account_path) mirrors.users;
      profiles = (mirrors.profiles.0, mirrors.profiles.1, accepts.1 profile_path);
      characters =
          kept_file io _ _ d (commit k batch d).0 (accepts.1 character_path) mirrors.characters;
      emotes = kept_file io _ _ d (commit k batch d).0 (accepts.1 emote_path) mirrors.emotes;
      stats = kept_file io _ _ d (commit k batch d).0 (accepts.1 stats_path) mirrors.stats;
      balloons = kept_file io _ _ d (commit k batch d).0 (accepts.1 balloon_path) mirrors.balloons;
      icons = kept_file io _ _ d (commit k batch d).0 (accepts.1 icon_path) mirrors.icons;
    }

  -- The change, by the functions that make it.
  worn-Mirrors :
      (cs : Clients) (c : Client) (nickname : Text) (a b : ℤ) (slots : List ℤ) (m : UserManager E)
      (p : UserProfile E) (r : IntRow) (k : ℕ)
      (customer : IsCustomer io emotes (emotes-StockLaws io) m (user_of cs nickname) p r)
      → same_int a b ≡ false
      → is_owned b r.values ≡ true
      → wear a b (slots_of p) ≡ some slots
      → 2 < k
      → length (
          file_text
            (profile_text io)
            customer.mirrors.profiles.0
            (change_row UserProfile.id (user_of cs nickname) (set_slots slots) m.tables.profiles))
        ≤ max_image
      → let batch =
          profile_batch customer.mirrors.profiles.0
            (user_of cs nickname)
            (set_slots slots)
            m.tables in
        let after = with_profile (user_of cs nickname) (set_slots slots) m.tables in
        (in_transaction
            (with_numbers (λ cs' name. change_emote io k cs' c name) cs nickname (some a) (some b))
            m
          ≡ (
            returned (send_set_info io c nickname (set_slots slots p)),
            record {
              tables = after;
              pending = [];
              active = false;
              committed = false;
              files = (commit k batch m.files).0;
            },
          ))
        × Mirrors io (commit k batch m.files).0 after
  unfolding in_transaction leave end_transaction change_emote change_profile get_user_profile_by_id
      get_user_emotes_by_id row_by_id
  worn-Mirrors cs c nickname a b slots m p r k customer different owned worn enough small =
      let u = user_of cs nickname in
      let f : UserProfile E → UserProfile E = set_slots slots in
      let keeps : (q : UserProfile E) → (f q).id ≡ q.id = λ q. refl in
      let saved =
        saves u f m.tables m.files p keeps customer.stored customer.mirrors customer.one_profile
          customer.profile k enough small in
      let stores =
        commits u f m.tables m.files p keeps customer.stored customer.mirrors customer.one_profile
          customer.profile k enough small in
      (
        rw (
          customer.idle, different, customer.some_name, customer.profile, customer.row, owned, worn,
          saved, stores,
        ),
        after-Mirrors u f m.tables m.files p keeps customer.stored customer.mirrors
            customer.one_profile customer.profile k enough small,
      )

  -- A profile with two emotes exchanged in its slots.
  abbrev pub dressed : ℤ → ℤ → UserProfile E → UserProfile E
  dressed a b p = record {
    id = p.id;
    level = p.level;
    exp = p.exp;
    icon = p.icon;
    money0 = p.money0;
    money1 = p.money1;
    emo0 = exchange a b p.emo0;
    emo1 = exchange a b p.emo1;
    emo2 = exchange a b p.emo2;
    emo3 = exchange a b p.emo3;
    balloon = p.balloon;
  }

  set_slots-dressed :
      (a b : ℤ) (p : UserProfile E) → set_slots (map (exchange a b) (slots_of p)) p ≡ dressed a b p
  unfolding value_at
  set_slots-dressed a b p = refl

  -- A user with a profile and a row of emotes, each once, whose slots hold different emotes, changes an emote in
  -- a slot for another one that is owned, on files that hold the tables: if no file call fails and the new file is
  -- within the limit, its profile has the new emote in the slot, and the old one in the slot of the new
  -- one if it was in one, with all else as before; the files hold the tables again, no
  -- transaction is open, and the client gets the changed profile.
  pub change_emote-Mirrors :
      (cs : Clients) (c : Client) (nickname : Text) (a b : ℤ) (m : UserManager E)
      (p : UserProfile E) (r : IntRow) (k i : ℕ)
      (customer : IsCustomer io emotes (emotes-StockLaws io) m (user_of cs nickname) p r)
      → AreApart (slots_of p)
      → i < 4
      → value_at i (slots_of p) ≡ a
      → same_int a b ≡ false
      → is_owned b r.values ≡ true
      → 2 < k
      → length (
          file_text (profile_text io) customer.mirrors.profiles.0 (
            change_row UserProfile.id
              (user_of cs nickname)
              (set_slots (map (exchange a b) (slots_of p)))
              m.tables.profiles))
        ≤ max_image
      → let slots = map (exchange a b) (slots_of p) in
        let batch =
          profile_batch customer.mirrors.profiles.0
            (user_of cs nickname)
            (set_slots slots)
            m.tables in
        let after = with_profile (user_of cs nickname) (set_slots slots) m.tables in
        (in_transaction
            (with_numbers (λ cs' name. change_emote io k cs' c name) cs nickname (some a) (some b))
            m
          ≡ (
            returned (send_set_info io c nickname (dressed a b p)),
            record {
              tables = after;
              pending = [];
              active = false;
              committed = false;
              files = (commit k batch m.files).0;
            },
          ))
        × (find_row UserProfile.id (user_of cs nickname) after.profiles ≡ some (dressed a b p))
        × Mirrors io (commit k batch m.files).0 after
  unfolding value_at
  change_emote-Mirrors cs c nickname a b m p r k i customer distinct inside worn different owned
        enough small =
      let slots = map (exchange a b) (slots_of p) in
      let (run, mirrors) =
        worn-Mirrors cs c nickname a b slots m p r k customer different owned
          (wear-exchange a b different (slots_of p) distinct i inside worn) enough small in
      (
        run,
        find_row-change_row UserProfile.id (user_of cs nickname) (set_slots slots) m.tables.profiles
              p (λ q. refl) customer.profile
            ∙ ap some (set_slots-dressed a b p),
        mirrors,
      )
