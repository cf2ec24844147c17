-- ===== src/Users/Unique.antt =====
-- The accounts behind RegisterUser and CheckLogin (TeamOFYServer/UserManager.cpp).
use bn_bserver.Prelude.{
  ℕ, ◌≡◌, inl, inr, refl, sym, subst, true, false, some, List, [], ◌∷◌, ◌++◌, if◌then◌else◌, arith,
  All, Bool-cases,
}
use bn_bserver.Prelude.Text.{Text, codes, ◌==◌, eq_iff}
use bn_bserver.Users.{UserAccount, UserManager, Outcome, returned, threw, terminated}
use bn_bserver.Users.Rows.{FloatText}
use bn_bserver.Users.Register.{push_user, register_user}
use bn_bserver.Users.Save.{find_row}
use bn_bserver.Users.Query.{check_login}
use bn_bserver.Users.Atomic.{IsNew, told_success, told_failure, register_user-Leaves}

-- Accounts with different ids and different nicknames.
abbrev pub IsDistinct : List UserAccount → Type 0
IsDistinct [] = Unit
IsDistinct (u ∷ us) =
    All (λ v. ((u.id == v.id) ≡ false) × ((u.nickname == v.nickname) ≡ false)) us × IsDistinct us

All-snoc {ℓ κ} :
    {A : Type ℓ} (P : A → Type κ) (xs : List A) (x : A) → All P xs → P x → All P (xs ++ x ∷ [])
All-snoc P [] x h p = (p, tt)
All-snoc P (y ∷ xs) x (q, h) p = (q, All-snoc P xs x h p)

IsDistinct-snoc :
    (us : List UserAccount) (u : UserAccount)
    → IsDistinct us
    → IsNew u us
    → IsDistinct (us ++ u ∷ [])
IsDistinct-snoc [] u h new = (tt, tt)
IsDistinct-snoc (v ∷ us) u (other, h) (new, news) =
    (All-snoc _ us u other new, IsDistinct-snoc us u h news)

-- The account of an id, behind those of other ids.
find_row-snoc :
    (us : List UserAccount) (u : UserAccount) (id : Text)
    → IsNew u us
    → find_row UserAccount.id id (us ++ u ∷ [])
      ≡ (if u.id == id then some u else find_row UserAccount.id id us)
unfolding find_row
find_row-snoc [] u id new = refl
find_row-snoc (v ∷ us) u id ((other, _), news) =
    ground (arith, find_row-snoc us u id news, eq_iff v.id id, eq_iff u.id id, eq_iff v.id u.id)

no_success : (o : Outcome Text) → told_failure o ≡ true → told_success o ≡ true → ⊥
no_success (returned a) bad told = ground (arith, bad, told)
no_success threw bad told = ground arith
no_success terminated bad told = ground arith

module _ {ℓ} {E : Type ℓ} (io : FloatText E) where
  -- Accounts that have different ids and different nicknames have them behind a registration too,
  -- however it ends.
  pub register_user-IsDistinct :
      (k : ℕ) (u : UserAccount) (m : UserManager E)
      → m.active ≡ false
      → IsDistinct m.tables.users
      → IsDistinct (register_user io k u m).1.tables.users
  unfolding push_user
  register_user-IsDistinct k u m idle h = elim (register_user-Leaves io k u m idle) [
    | inl (bad, same) ↦ subst (λ n. IsDistinct n.tables.users) (sym same) h
    | inr (good, some_password, new, at, _) ↦
        subst (λ t. IsDistinct t.users) (sym at) (IsDistinct-snoc m.tables.users u h new)
  ]

  -- Behind a registration that answered with success, the id of the user logs in with its password,
  -- and every other id gets the answer that it got before.
  pub register_user-check_login :
      (k : ℕ) (u : UserAccount) (m : UserManager E) (id pw : Text)
      → m.active ≡ false
      → told_success (register_user io k u m).0 ≡ true
      → check_login id pw (register_user io k u m).1.tables.users ≡ (
          if u.id == id
          then if u.password == pw
            then codes "LOGIN_SUCCESS|"
              ++ (u.id ++ b',' ∷ (u.password ++ b',' ∷ (u.nickname ++ codes "\n")))
            else codes "WRONG_PASSWORD|\n"
          else check_login id pw m.tables.users)
  unfolding check_login push_user find_row
  register_user-check_login k u m id pw idle told = elim (register_user-Leaves io k u m idle) [
    | inl (bad, same) ↦ absurd (no_success (register_user io k u m).0 bad told)
    | inr (good, some_password, new, at, _) ↦
        rw (at, find_row-snoc m.tables.users u id new)
          (elim (Bool-cases (u.id == id)) [ inl same ↦ rw same refl | inr other ↦ rw other refl ])
  ]
