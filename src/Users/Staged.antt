-- ===== src/Users/Staged.antt =====
-- Saves in a transaction that has written files already (TeamOFYServer/UserManager.cpp).
use bn_bserver.Prelude.{
  ◌≤◌, ◌≡◌, refl, true, false, Option, none, some, List, [], ◌∷◌, if◌then◌else◌, arith, All, inl,
  inr, Option-cases,
}
use bn_bserver.Prelude.Text.{Text, ◌==◌, has_byte, eq_iff}
use bn_bserver.Prelude.Assoc.{lookup}
use bn_bserver.CsvStore.{Images}
use bn_bserver.Users.{Tables, UserManager, returned, read_csv, write_csv, put_image}
use bn_bserver.Users.Save.{find_row, line_of, save_lines}
use bn_bserver.Users.Query.{change_row}
use bn_bserver.Users.Loaded.{file_text}
use bn_bserver.Users.Saved.{IsKeyed, rows_with, renew-change_row}

-- A staged file is read back, and every other one as before.
pub lookup-put_image :
    (k q v : Text) (m : Images)
    → lookup q (put_image k v m) ≡ (if k == q then some v else lookup q m)
unfolding lookup put_image
lookup-put_image k q v [] = refl
lookup-put_image k q v ((j, w) ∷ m) =
    ground (arith, lookup-put_image k q v m, eq_iff j k, eq_iff j q, eq_iff k q)

or_else : Option Text → Option Text → Option Text
or_else none other = other
or_else (some text) other = some text

module _ {ℓ} {E : Type ℓ} where
  -- What ReadCsv finds: the text that was staged, or the file.
  unfoldable pub viewed : Text → UserManager E → Option Text
  unfolding or_else
  viewed path m = or_else (lookup path m.pending) (m.files path)

  read_csv-viewed :
      (path text : Text) (m : UserManager E)
      → viewed path m ≡ some text
      → read_csv path m ≡ (returned text, m)
  unfolding viewed read_csv
  read_csv-viewed path text m h = elim (Option-cases (lookup path m.pending)) [
    | inr (staged, there) ↦ rw there (ground arith)
    | inl out ↦ elim (Option-cases (m.files path)) [
      | inr (stored, there) ↦ rw (out, there) (ground arith)
      | inl gone ↦ absurd (ground arith)
    ]
  ]

  pub viewed-put_image :
      (k q v : Text) (m : UserManager E)
      → viewed q (record m { pending = put_image k v m.pending })
        ≡ (if k == q then some v else viewed q m)
  unfolding viewed
  viewed-put_image k q v m = rw (lookup-put_image k q v m.pending) (ground arith)

module _ {ℓ κ} {R : Type ℓ} {E : Type κ} (id : R → Text) (text : R → Text) where
  -- A Save behind a change of a row, when the file reads as the table before the change.
  pub save_lines-viewed :
      (path u header : Text) (table : Tables E → List R) (f : R → R) (rs : List R) (r : R)
      (m : UserManager E)
      → ((s : R) → id (f s) ≡ id s)
      → has_byte 10 header ≡ false
      → All (IsKeyed id text) rs
      → rows_with id u rs ≤ 1
      → find_row id u rs ≡ some r
      → m.active ≡ true
      → viewed path m ≡ some (file_text text header rs)
      → table m.tables ≡ change_row id u f rs
      → save_lines path (λ t. line_of text (find_row id u (table t))) u m ≡ (
        returned true,
        record m {
          pending = put_image path (file_text text header (change_row id u f rs)) m.pending;
        },
      )
  unfolding save_lines write_csv
  save_lines-viewed path u header table f rs r m keeps one_line keyed one h active at now =
      rw (read_csv-viewed path _ m at, now, active)
        (rw (renew-change_row id text u header f rs r keeps one_line keyed one h))
