-- ===== src/Users/Saved.antt =====
-- The Save functions of TeamOFYServer/UserManager.cpp on files that hold their table.
use bn_bserver.Prelude.{
  ℕ, ◌+◌, ◌≤◌, ◌≡◌, refl, ap, true, false, none, some, List, [], ◌∷◌, ◌++◌, if◌then◌else◌, arith,
  All, map, Bool-cases, inl, inr,
}
use bn_bserver.Prelude.Text.{Text, ◌==◌, has_byte, before_byte, before_byte-append}
use bn_bserver.Prelude.Lines.{split, joined_by, split-joined_by, Lacks}
use bn_bserver.Prelude.Assoc.{lookup}
use bn_bserver.Users.{Tables, UserManager, returned, read_csv, write_csv, put_image}
use bn_bserver.Users.Save.{find_row, line_of, renew_lines, renew, save_lines}
use bn_bserver.Users.Query.{change_row}
use bn_bserver.Users.Loaded.{file_text, profile-Reads}
use bn_bserver.Prelude.{length, suc, ◌<◌, length-append}
use bn_bserver.Prelude.Int.{ℤ, int_string}
use bn_bserver.Users.{UserProfile, IntRow}
use bn_bserver.Users.Rows.{FloatText, values_text, int_row_text, profile_text}
use bn_bserver.Users.RowTrip.{IsIntRow, IsProfileRow, int_row_text-newline}

module _ {ℓ} {R : Type ℓ} (id : R → Text) where
  -- The number of rows of a user.
  unfoldable pub rows_with : Text → List R → ℕ
  rows_with u [] = 0
  rows_with u (r ∷ rs) = let rest = rows_with u rs in if id r == u then 1 + rest else rest

  find_row-none : (u : Text) (rs : List R) → rows_with u rs ≡ 0 → find_row id u rs ≡ none
  unfolding rows_with find_row
  find_row-none u [] h = refl
  find_row-none u (r ∷ rs) h = ground (arith, find_row-none u rs)

  change_row-none :
      (u : Text) (f : R → R) (rs : List R) → rows_with u rs ≡ 0 → change_row id u f rs ≡ rs
  unfolding rows_with change_row
  change_row-none u f [] h = refl
  change_row-none u f (r ∷ rs) h = elim (Bool-cases (id r == u)) [
    | inl same ↦ absurd (ground arith)
    | inr other ↦ rw other (ap (λ qs. r ∷ qs) (change_row-none u f rs (ground arith)))
  ]

  pub find_row-change_row :
      (u : Text) (f : R → R) (rs : List R) (r : R)
      → ((s : R) → id (f s) ≡ id s)
      → find_row id u rs ≡ some r
      → find_row id u (change_row id u f rs) ≡ some (f r)
  unfolding find_row change_row
  find_row-change_row u f [] r keeps h = absurd (ground arith)
  find_row-change_row u f (s ∷ rs) r keeps h = elim (Bool-cases (id s == u)) [
    | inl same ↦
        let there : some s ≡ some r = rw (← h) (rw same refl) in
        rw (same, keeps s, same) (ap (λ o. elim o [ none ↦ none | some q ↦ some (f q) ]) there)
    | inr other ↦ rw (other, other) (find_row-change_row u f rs r keeps (rw (← h) (rw other refl)))
  ]

module _ {ℓ} {R : Type ℓ} (id : R → Text) (text : R → Text) where
  -- A row whose line begins with its id, and is one line.
  abbrev pub IsKeyed : R → Type 0
  IsKeyed r = (before_byte b',' (text r) ≡ id r) × (has_byte 10 (text r) ≡ false)

  renew_lines-none :
      (u : Text) (new : List Text) (rs : List R)
      → All IsKeyed rs
      → rows_with id u rs ≡ 0
      → renew_lines u new (map text rs) ≡ map text rs
  unfolding renew_lines rows_with
  renew_lines-none u new [] keyed h = refl
  renew_lines-none u new (r ∷ rs) ((key, _), keyed) h = elim (Bool-cases (id r == u)) [
    | inl same ↦ absurd (ground arith)
    | inr other ↦
        rw (key, other) (ap (λ ls. text r ∷ ls) (renew_lines-none u new rs keyed (ground arith)))
  ]

  -- The line of the user's only row becomes that of the changed row.
  renew_lines-some :
      (u : Text) (f : R → R) (rs : List R) (r : R)
      → All IsKeyed rs
      → rows_with id u rs ≤ 1
      → find_row id u rs ≡ some r
      → renew_lines u (text (f r) ∷ []) (map text rs) ≡ map text (change_row id u f rs)
  unfolding renew_lines rows_with find_row change_row
  renew_lines-some u f [] r keyed one h = absurd (ground arith)
  renew_lines-some u f (s ∷ rs) r ((key, _), keyed) one h = elim (Bool-cases (id s == u)) [
    | inl same ↦
        let there : some s ≡ some r = rw (← h) (rw same refl) in
        let is : s ≡ r = ap (λ o. elim o [ none ↦ s | some q ↦ q ]) there in
        let rest = renew_lines-none u (text (f r) ∷ []) rs keyed (ground arith) in
        rw (key, same, is) (ap (λ ls. text (f r) ∷ ls) rest)
    | inr other ↦
        rw (key, other)
          (ap (λ ls. text s ∷ ls) (renew_lines-some u f rs r keyed (ground arith) (ground arith)))
  ]

  keyed-Lacks : (rs : List R) → All IsKeyed rs → All (Lacks 10) (map text rs)
  keyed-Lacks [] h = tt
  keyed-Lacks (r ∷ rs) ((_, free), h) = (free, keyed-Lacks rs h)

  -- A file of a table, renewed from the table after a change of a user's only row, is the file of
  -- the changed table.
  pub renew-change_row :
      (u header : Text) (f : R → R) (rs : List R) (r : R)
      → ((s : R) → id (f s) ≡ id s)
      → has_byte 10 header ≡ false
      → All IsKeyed rs
      → rows_with id u rs ≤ 1
      → find_row id u rs ≡ some r
      → joined_by 10 (
          renew u
            (line_of text (find_row id u (change_row id u f rs)))
            (split 10 (file_text text header rs)))
        ≡ file_text text header (change_row id u f rs)
  unfolding renew
  renew-change_row u header f rs r keeps one_line keyed one h =
      rw
        (
          split-joined_by 10 (header ∷ map text rs) (one_line, keyed-Lacks rs keyed),
          find_row-change_row id u f rs r keeps h,
        )
        (ap (λ ls. joined_by 10 (header ∷ ls)) (renew_lines-some u f rs r keyed one h))

  -- A Save behind a change of a row, in a transaction that has not written the file yet.
  pub save_lines-change_row {κ} :
      {E : Type κ} (path u header : Text) (table : Tables E → List R) (f : R → R) (rs : List R)
      (r : R) (m : UserManager E)
      → ((s : R) → id (f s) ≡ id s)
      → has_byte 10 header ≡ false
      → All IsKeyed rs
      → rows_with id u rs ≤ 1
      → find_row id u rs ≡ some r
      → m.active ≡ true
      → lookup path m.pending ≡ none
      → m.files path ≡ some (file_text text header rs)
      → table m.tables ≡ change_row id u f rs
      → save_lines path (λ t. line_of text (find_row id u (table t))) u m ≡ (
        returned true,
        record m {
          pending = put_image path (file_text text header (change_row id u f rs)) m.pending;
        },
      )
  unfolding save_lines read_csv write_csv
  save_lines-change_row path u header table f rs r m keeps one_line keyed one h active fresh at
        now =
      rw (fresh, at, now, active) (rw (renew-change_row u header f rs r keeps one_line keyed one h))

keyed_at :
    (id : Text) (vs : List ℤ) (n : ℕ)
    → has_byte b',' id ≡ false
    → length vs ≡ suc n
    → before_byte b',' (id ++ values_text vs) ≡ id
unfolding values_text
keyed_at id [] n h e = absurd (ground arith)
keyed_at id (v ∷ vs) n h e = before_byte-append b',' id (int_string v ++ values_text vs) h

pub int_row-IsKeyed : (n : ℕ) (r : IntRow) → IsIntRow (suc n) r → IsKeyed IntRow.id int_row_text r
unfolding int_row_text
int_row-IsKeyed n r h = (keyed_at r.id r.values n h.0.0 h.1, int_row_text-newline (suc n) r h)

pub profile-IsKeyed {ℓ} :
    {E : Type ℓ} (io : FloatText E) (p : UserProfile E)
    → IsProfileRow io p
    → IsKeyed UserProfile.id (profile_text io) p
unfolding profile_text
profile-IsKeyed io p h = (before_byte-append b',' p.id _ h.0.0, (profile-Reads io p h).1)

-- A file has a byte at least.
pub file_text-nonempty {ℓ} :
    {R : Type ℓ} (text : R → Text) (header : Text) (rs : List R)
    → 0 < length (file_text text header rs)
unfolding joined_by
file_text-nonempty text header rs =
    omega (arith, length-append header (10 ∷ joined_by 10 (map text rs)))
