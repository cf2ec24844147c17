-- ===== src/Users/Untouched.antt =====
-- Actions of the user manager (TeamOFYServer/UserManager.cpp) that leave the tables alone.
use bn_bserver.Prelude.{ℕ, ◌≡◌, refl, ◌∙◌, inl, inr, List, Bool-cases, Option-cases}
use bn_bserver.Prelude.Text.{Text}
use bn_bserver.Prelude.Assoc.{lookup}
use bn_bserver.CsvStore.{Disk, Committed, accepted, refused, thrown, died, commit}
use bn_bserver.Users.{
  Tables, UserManager, Action, Outcome, returned, threw, terminated, run_then, read_csv, write_csv,
  commit_transaction, commit_answer,
}
use bn_bserver.Users.Save.{save_lines}

module _ {ℓ} {E : Type ℓ} where
  -- Actions that do not touch the tables.
  abbrev pub Same : {A : Type 0} → Action E A → Type ℓ
  Same x = (m : UserManager E) → (x m).1.tables ≡ m.tables

  pub run_then-Same :
      {A B : Type 0} (f : A → Action E B) (m : UserManager E) (x : Outcome A × UserManager E)
      → x.1.tables ≡ m.tables
      → ((a : A) → Same (f a))
      → (run_then x f).1.tables ≡ m.tables
  run_then-Same f m (returned a, n) e same = same a n ∙ e
  run_then-Same f m (threw, n) e same = e
  run_then-Same f m (terminated, n) e same = e

  read_csv-Same : (path : Text) → Same (read_csv path)
  unfolding read_csv
  read_csv-Same path m = elim (Option-cases (lookup path m.pending)) [
    | inr (text, there) ↦ rw there refl
    | inl out ↦ elim (Option-cases (m.files path)) [
      | inl gone ↦ rw (out, gone) refl
      | inr (text, there) ↦ rw (out, there) refl
    ]
  ]

  write_csv-Same : (path text : Text) → Same (write_csv path text)
  unfolding write_csv
  write_csv-Same path text m = elim (Bool-cases m.active) [
    | inl active ↦ rw active refl
    | inr idle ↦ rw idle refl
  ]

  pub save_lines-Same :
      (path : Text) (new : Tables E → List Text) (u : Text) → Same (save_lines path new u)
  unfolding save_lines
  save_lines-Same path new u m =
      run_then-Same _ m (read_csv path m) (read_csv-Same path m) (λ text. write_csv-Same path _)

  commit_answer-Same :
      (m : UserManager E) (r : Disk × Committed) → (commit_answer m r).1.tables ≡ m.tables
  commit_answer-Same m (d, accepted) = refl
  commit_answer-Same m (d, refused) = refl
  commit_answer-Same m (d, thrown) = refl
  commit_answer-Same m (d, died) = refl

  pub commit-Same : (k : ℕ) → Same (commit_transaction k)
  unfolding commit_transaction
  commit-Same k m = elim (Bool-cases m.committed) [
    | inl done ↦ rw done refl
    | inr idle ↦ simp idle (commit_answer-Same m (commit k m.pending m.files))
  ]
