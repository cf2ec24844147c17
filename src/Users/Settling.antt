-- ===== src/Users/Settling.antt =====
-- What an action of the user manager (TeamOFYServer/UserManager.cpp) does to the files and to the open
-- transaction, and how a transaction ends.
use bn_bserver.Prelude.{
  ◌≡◌, ◌⊎◌, inl, inr, refl, ◌∙◌, Bool, true, false, List, arith, Bool-cases, Option-cases,
}
use bn_bserver.Prelude.Text.{Text}
use bn_bserver.Prelude.Assoc.{lookup}
use bn_bserver.Users.{
  Tables, UserManager, Action, Outcome, returned, threw, terminated, run_then, read_csv, write_csv,
  put_image,
}
use bn_bserver.Prelude.Lines.{split, joined_by}
use bn_bserver.Users.Save.{save_lines, renew}

abbrev pub has_stopped {ℓ} : {A : Type ℓ} → Outcome A → Bool
has_stopped (returned a) = false
has_stopped threw = false
has_stopped terminated = true

module _ {ℓ} {E : Type ℓ} where
  -- The process was stopped, or the action has done nothing to the files and to the commit.
  abbrev pub Kept : {A : Type 0} → UserManager E → Outcome A × UserManager E → Type 0
  Kept m (o, n) = (has_stopped o ≡ true) ⊎ ((n.files ≡ m.files) × (n.committed ≡ m.committed))

  abbrev pub Keeps : {A : Type 0} → Action E A → Type ℓ
  Keeps x = (m : UserManager E) → Kept m (x m)

  module _ {A B : Type 0} (f : A → Action E B) where
    pub run_then-Kept :
        (m : UserManager E) (r : Outcome A × UserManager E)
        → Kept m r
        → ((a : A) → Keeps (f a))
        → Kept m (run_then r f)
    run_then-Kept m (returned a, n) (inl stop) keeps = absurd (ground arith)
    run_then-Kept m (returned a, n) (inr (files, done)) keeps = elim (keeps a n) [
      | inl stop ↦ inl stop
      | inr (files', done') ↦ inr (files' ∙ files, done' ∙ done)
    ]
    run_then-Kept m (threw, n) h keeps = h
    run_then-Kept m (terminated, n) h keeps = inl refl

  write_csv-Keeps : (path text : Text) → Keeps (write_csv path text)
  unfolding write_csv
  write_csv-Keeps path text m = elim (Bool-cases m.active) [
    | inl active ↦ rw active (inr (refl, refl))
    | inr idle ↦ rw idle (inr (refl, refl))
  ]

  read_csv-Keeps : (path : Text) → Keeps (read_csv path)
  unfolding read_csv
  read_csv-Keeps path m = elim (Option-cases (lookup path m.pending)) [
    | inr (text, there) ↦ rw there (inr (refl, refl))
    | inl out ↦ elim (Option-cases (m.files path)) [
      | inl gone ↦ rw (out, gone) (inr (refl, refl))
      | inr (text, there) ↦ rw (out, there) (inr (refl, refl))
    ]
  ]

  pub save_lines-Keeps :
      (path : Text) (new : Tables E → List Text) (u : Text) → Keeps (save_lines path new u)
  unfolding save_lines
  save_lines-Keeps path new u m =
      run_then-Kept _ m (read_csv path m) (read_csv-Keeps path m) (λ text. write_csv-Keeps path _)

  -- Inside a transaction, a Save throws and changes nothing, or stages the file.
  pub save_lines-Stages :
      (path : Text) (new : Tables E → List Text) (u : Text) (m : UserManager E)
      → m.active ≡ true
      → (save_lines path new u m ≡ (threw, m))
        ⊎ ((text : Text) × (save_lines path new u m
              ≡ (returned true, record m { pending = put_image path text m.pending })))
  unfolding save_lines read_csv write_csv
  save_lines-Stages path new u m active = elim (Option-cases (lookup path m.pending)) [
    | inr (text, there) ↦
        inr (joined_by 10 (renew u (new m.tables) (split 10 text)), rw (there, active) refl)
    | inl out ↦ elim (Option-cases (m.files path)) [
      | inl gone ↦ inl (rw (out, gone) refl)
      | inr (text, there) ↦
          inr (joined_by 10 (renew u (new m.tables) (split 10 text)), rw (out, there, active) refl)
    ]
  ]

  -- Behind an action that has some tables, and one that keeps them.
  pub run_then-tables :
      {A B : Type 0} (t : Tables E) (x : Outcome A × UserManager E) (f : A → Action E B)
      → x.1.tables ≡ t
      → ((a : A) (n : UserManager E) → n.tables ≡ t → (f a n).1.tables ≡ t)
      → (run_then x f).1.tables ≡ t
  run_then-tables t (returned a, n) f e keeps = keeps a n e
  run_then-tables t (threw, n) f e keeps = e
  run_then-tables t (terminated, n) f e keeps = e
