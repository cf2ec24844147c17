-- ===== src/Users/Others.antt =====
-- The rows of the other users behind a change of a row (TeamOFYServer/UserManager.cpp).
use bn_bserver.Prelude.{
  arith, Option-cases, All-append, ◌≡◌, refl, ap, inl, inr, false, none, some, List, [], ◌∷◌, ◌++◌,
  All, Bool-cases,
}
use bn_bserver.Prelude.Text.{Text, ◌==◌, eq_sound, eq_refl}
use bn_bserver.Users.Save.{find_row}
use bn_bserver.Users.Query.{change_row, row_by_id}
use bn_bserver.Users.Saved.{rows_with}

module _ {ℓ} {R : Type ℓ} (id : R → Text) (u : Text) (f : R → R)
    (keeps : (s : R) → id (f s) ≡ id s) where
  pub find_row-change_row_other :
      (v : Text) (rs : List R)
      → (u == v) ≡ false
      → find_row id v (change_row id u f rs) ≡ find_row id v rs
  unfolding find_row change_row
  find_row-change_row_other v [] other = refl
  find_row-change_row_other v (s ∷ rs) other = elim (Bool-cases (id s == u)) [
    | inl same ↦ let is_u = eq_sound (id s) u same in rw (same, keeps s) (rw (is_u, other) refl)
    | inr not_u ↦ rw (not_u, find_row-change_row_other v rs other) refl
  ]

  pub rows_with-change_row :
      (v : Text) (rs : List R) → rows_with id v (change_row id u f rs) ≡ rows_with id v rs
  unfolding rows_with change_row
  rows_with-change_row v [] = refl
  rows_with-change_row v (s ∷ rs) = elim (Bool-cases (id s == u)) [
    | inl same ↦ rw (same, keeps s) refl
    | inr not_u ↦ rw (not_u, rows_with-change_row v rs) refl
  ]

  -- A predicate of all rows, when the changed row of the user has it too.
  pub change_row-All_found {κ} :
      (P : R → Type κ) (rs : List R) (r : R)
      → find_row id u rs ≡ some r
      → All P rs
      → P (f r)
      → All P (change_row id u f rs)
  unfolding find_row change_row
  change_row-All_found P [] r there all new = tt
  change_row-All_found P (s ∷ rs) r there (p, all) new = elim (Bool-cases (id s == u)) [
    | inl same ↦
        let found : some s ≡ some r = rw (← there) (rw same refl) in
        let is : s ≡ r = ap (λ o. elim o [ none ↦ s | some q ↦ q ]) found in
        rw (same, is) (new, all)
    | inr not_u ↦ rw not_u (p, change_row-All_found P rs r (rw (← there) (rw not_u refl)) all new)
  ]

pub row_by_id-All {ℓ κ} :
    {R : Type ℓ} (P : R → Type κ) (id : R → Text) (u : Text) (new : R) (rs : List R)
    → P new
    → All P rs
    → All P (row_by_id id u new rs).1
unfolding row_by_id
row_by_id-All P id u new rs fits h = elim (Option-cases (find_row id u rs)) [
  | inl gone ↦ rw gone (All-append P rs (new ∷ []) h (fits, tt))
  | inr (r, there) ↦ rw there h
]

pub find_row-All {ℓ κ} :
    {R : Type ℓ} (P : R → Type κ) (id : R → Text) (u : Text) (rs : List R) (r : R)
    → All P rs
    → find_row id u rs ≡ some r
    → P r
unfolding find_row
find_row-All P id u [] r h there = absurd (ground arith)
find_row-All P id u (s ∷ rs) r (p, h) there = elim (Bool-cases (id s == u)) [
  | inl same ↦
      let found : some s ≡ some r = rw (← there) (rw same refl) in
      let is : s ≡ r = ap (λ o. elim o [ none ↦ s | some q ↦ q ]) found in rw (← is) p
  | inr other ↦ find_row-All P id u rs r h (rw (← there) (rw other refl))
]

find_row-append {ℓ} :
    {R : Type ℓ} (id : R → Text) (u : Text) (rs : List R) (new : R)
    → id new ≡ u
    → find_row id u rs ≡ none
    → find_row id u (rs ++ new ∷ []) ≡ some new
unfolding find_row
find_row-append id u [] new e gone = rw (e, eq_refl u) refl
find_row-append id u (r ∷ rs) new e gone = elim (Bool-cases (id r == u)) [
  | inl same ↦ let clash : some r ≡ none = rw (← gone) (rw same refl) in absurd (ground arith)
  | inr other ↦ rw other (find_row-append id u rs new e (rw (← gone) (rw other refl)))
]

-- The row of a user is in the vector behind a lookup.
pub row_by_id-there {ℓ} :
    {R : Type ℓ} (id : R → Text) (u : Text) (new : R) (rs : List R)
    → id new ≡ u
    → find_row id u (row_by_id id u new rs).1 ≡ some (row_by_id id u new rs).0
unfolding row_by_id
row_by_id-there id u new rs e = elim (Option-cases (find_row id u rs)) [
  | inl gone ↦ rw gone (find_row-append id u rs new e gone)
  | inr (r, there) ↦ rw there there
]

-- A lookup of a row that is there leaves the vector.
pub row_by_id-same {ℓ} :
    {R : Type ℓ} (id : R → Text) (u : Text) (new r : R) (rs : List R)
    → find_row id u rs ≡ some r
    → (row_by_id id u new rs).1 ≡ rs
unfolding row_by_id
row_by_id-same id u new r rs there = rw there refl

pub change_row-All {ℓ κ} :
    {R : Type ℓ} (P : R → Type κ) (id : R → Text) (u : Text) (f : R → R) (rs : List R)
    → ((r : R) → P r → P (f r))
    → All P rs
    → All P (change_row id u f rs)
unfolding change_row
change_row-All P id u f [] keeps h = tt
change_row-All P id u f (r ∷ rs) keeps (p, h) = elim (Bool-cases (id r == u)) [
  | inl same ↦ rw same (keeps r p, h)
  | inr other ↦ rw other (p, change_row-All P id u f rs keeps h)
]
