-- ===== src/Shop/Batch.antt =====
-- The files that a purchase (TeamOFYServer/ClientHandler.cpp) saves and commits.
use bn_bserver.Prelude.{
  ℕ, ◌<◌, ◌≤◌, ◌≡◌, refl, ◌∙◌, ap, true, false, some, List, [], ◌∷◌, All, length,
}
use bn_bserver.Prelude.Text.{Text, ◌==◌, eq_refl}
use bn_bserver.Prelude.Assoc.{lookup}
use bn_bserver.Prelude.Int.{ℤ}
use bn_bserver.CsvStore.{Images, Disk, allowed, max_image, accepted, commit}
use bn_bserver.CsvStore.RoundTrip.{IsSorted, IsImage}
use bn_bserver.CsvStore.Recovery.{commit-accepted}
use bn_bserver.CsvStore.Redo.{Applied}
use bn_bserver.Store.{coin, cash, Price}
use bn_bserver.Users.{
  profile_path, UserProfile, IntRow, Tables, UserManager, returned, put_image, commit_answer,
  commit_transaction,
}
use bn_bserver.Users.Rows.{FloatText, int_row_text, profile_text}
use bn_bserver.Users.Save.{find_row, save_user_profile}
use bn_bserver.Users.Query.{change_row}
use bn_bserver.Users.Loaded.{file_text, IsStored, Mirrors, All-map}
use bn_bserver.Users.Saved.{
  file_text-nonempty, rows_with, int_row-IsKeyed, profile-IsKeyed, save_lines-change_row,
}
use bn_bserver.Shop.{Stock, own, pay}
use bn_bserver.Shop.Buy.{paid}
use bn_bserver.Shop.Laws.{StockLaws}

pub pay-id {ℓ} : {E : Type ℓ} (price : Price) (p : UserProfile E) → (pay price p).id ≡ p.id
unfolding pay
pay-id price p =
    elim price.price_type
      as (λ k. (pay (record { price = price.price; price_type = k }) p).id ≡ p.id) [
        | coin ↦ refl
        | cash ↦ refl
      ]

module _ {ℓ} {E : Type ℓ} (io : FloatText E) (s : Stock E) (laws : StockLaws io s) where
  -- The rows behind a purchase.
  abbrev pub new_profiles : Text → Price → Tables E → List (UserProfile E)
  new_profiles u price t = change_row UserProfile.id u (pay price) t.profiles

  abbrev pub new_rows : Text → ℤ → Tables E → List IntRow
  new_rows u i t = change_row IntRow.id u (λ r. record r { values = own i r.values }) (s.rows t)

  -- The images that a purchase commits, under the headers of the files.
  abbrev pub images : Text → Text → Text → ℤ → Price → Tables E → Images
  images header header' u i price t =
      (laws.path, file_text int_row_text header' (new_rows u i t))
      ∷ (profile_path, file_text (profile_text io) header (new_profiles u price t))
      ∷ []

  abbrev pub during : Disk → Tables E → Images → UserManager E
  during d t pending = record {
    tables = t;
    pending = pending;
    active = true;
    committed = false;
    files = d;
  }

  module _ (u : Text) (i : ℤ) (price : Price) (t : Tables E) (d : Disk) (p : UserProfile E)
      (r : IntRow) (stored : IsStored io t) (mirrors : Mirrors io d t)
      (one_profile : rows_with UserProfile.id u t.profiles ≤ 1)
      (one_row : rows_with IntRow.id u (s.rows t) ≤ 1)
      (profile : find_row UserProfile.id u t.profiles ≡ some p)
      (row : find_row IntRow.id u (s.rows t) ≡ some r) where
    abbrev pub both : Images
    both = images mirrors.profiles.0 (laws.file d t mirrors).0 u i price t

    abbrev pub first_image : Images
    first_image =
        (profile_path, file_text (profile_text io) mirrors.profiles.0 (new_profiles u price t)) ∷ []

    pub save_profile :
        save_user_profile io u (during d (paid s u i price t) [])
        ≡ (returned true, during d (paid s u i price t) first_image)
    unfolding save_user_profile paid lookup put_image
    save_profile =
        save_lines-change_row UserProfile.id (profile_text io) profile_path u mirrors.profiles.0
          Tables.profiles (pay price) t.profiles p (during d (paid s u i price t) []) (pay-id price)
          mirrors.profiles.1 (All-map (profile-IsKeyed io) t.profiles stored.profiles) one_profile
          profile refl refl mirrors.profiles.2 (laws.profiles_there _ _ t)

    pub save_row :
        s.save u (during d (paid s u i price t) first_image)
        ≡ (returned true, during d (paid s u i price t) both)
    unfolding paid lookup put_image
    save_row =
        let f = laws.file d t mirrors in
        let saved =
          save_lines-change_row IntRow.id int_row_text laws.path u f.0 s.rows
            (λ r. record r { values = own i r.values }) (s.rows t) r
            (during d (paid s u i price t) first_image) (λ q. refl) f.1
            (All-map (int_row-IsKeyed laws.width) (s.rows t) (laws.stored t stored)) one_row row
            refl (rw laws.path_other' refl) f.2 (laws.rows_there _ _ t) in
        rw (laws.saves u) (saved ∙ rw laws.path_before refl)

    both-IsSorted : IsSorted both
    both-IsSorted = ((laws.path_before, tt), (tt, tt))

    module _ (k : ℕ) (enough : 3 < k)
        (small_rows : length (file_text int_row_text (laws.file d t mirrors).0 (new_rows u i t))
          ≤ max_image)
        (small_profiles : length
            (file_text (profile_text io) mirrors.profiles.0 (new_profiles u price t))
          ≤ max_image) where
      both-IsImage : All IsImage both
      unfolding allowed ◌==◌
      both-IsImage = (
        (laws.path-allowed, file_text-nonempty int_row_text _ _, small_rows),
        ((refl, file_text-nonempty (profile_text io) _ _, small_profiles), tt),
      )

      accepts : ((commit k both d).1 ≡ accepted) × Applied both d (commit k both d).0
      accepts = commit-accepted (laws.path, _) first_image d k both-IsSorted both-IsImage enough

      abbrev pub files_after : Disk
      files_after = (commit k both d).0

      abbrev pub done : UserManager E
      done = record {
        tables = paid s u i price t;
        pending = both;
        active = true;
        committed = true;
        files = files_after;
      }

      pub commits :
          commit_transaction k (during d (paid s u i price t) both) ≡ (returned true, done)
      unfolding commit_transaction
      commits =
          ap (λ a. commit_answer (during d (paid s u i price t) both) (files_after, a)) accepts.0

      -- The files mirror the tables again.
      pub after-Mirrors : Mirrors io files_after (paid s u i price t)
      unfolding paid lookup ◌==◌
      after-Mirrors =
          let f = laws.file d t mirrors in
          laws.mirrors d files_after (new_profiles u price t) (new_rows u i t) t mirrors
            (λ q j a b. accepts.1 q ∙ rw (j, a, b) refl)
            (
              mirrors.profiles.0,
              mirrors.profiles.1,
              accepts.1 profile_path ∙ rw laws.path_other refl,
            )
            (f.0, f.1, accepts.1 laws.path ∙ rw (laws.path_journal, eq_refl laws.path) refl)
