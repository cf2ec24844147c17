-- ===== src/Users/Atomic.antt =====
-- How RegisterUser (TeamOFYServer/UserManager.cpp) ends, on all its branches.
use bn_bserver.Prelude.{
  ℕ, ◌≡◌, ◌⊎◌, inl, inr, refl, sym, ◌∙◌, ap, Bool, true, false, ◌||◌, not, none, some, List, [],
  ◌∷◌, ◌++◌, arith, All, Bool-cases, Option-cases,
}
use bn_bserver.Prelude.Text.{Text, codes, ◌==◌, text_lt}
use bn_bserver.Prelude.Assoc.{lookup}
use bn_bserver.CsvStore.{Images, Disk, accepted, commit}
use bn_bserver.CsvStore.Reports.{commit-Reports}
use bn_bserver.Users.{
  account_path, profile_path, character_path, emote_path, stats_path, balloon_path, icon_path,
  UserAccount, Tables, UserManager, Action, Outcome, returned, threw, terminated, read_csv,
  write_csv, commit_transaction, end_transaction, leave, in_transaction, put_image,
}
use bn_bserver.Users.Rows.{FloatText, account_text, profile_text, int_row_text}
use bn_bserver.Users.Register.{
  new_profile, new_characters, new_user_emotes, new_stats, new_ballons, new_icons, has_forbidden,
  duplicate, is_empty, append_line, register_user_account, register_user_profile,
  register_user_characters, register_user_emotes, register_user_win_loss_stats,
  register_user_ballons, register_user_icons, push_user, store_user, or_answer, write_user,
  register_body, register_user,
}

abbrev pub success : Text
success = codes "REGISTER_SUCCESS|\n"

-- The answer says that the user is registered.
abbrev pub told_success : Outcome Text → Bool
told_success (returned answer) = answer == success
told_success threw = false
told_success terminated = false

-- Another answer, or an exception.
abbrev pub told_failure : Outcome Text → Bool
told_failure (returned answer) = not (answer == success)
told_failure threw = true
told_failure terminated = false

-- An account that no other one shares its id or its nickname with.
abbrev pub IsNew : UserAccount → List UserAccount → Type 0
IsNew u us = All (λ v. ((v.id == u.id) ≡ false) × ((v.nickname == u.nickname) ≡ false)) us

duplicate-none :
    (u : UserAccount) (us : List UserAccount) → duplicate u.id u.nickname us ≡ none → IsNew u us
unfolding duplicate
duplicate-none u [] h = tt
duplicate-none u (v ∷ us) h = elim (Bool-cases (v.id == u.id)) [
  | inl same ↦ absurd (ground arith)
  | inr other ↦ elim (Bool-cases (v.nickname == u.nickname)) [
    | inl same ↦ absurd (ground arith)
    | inr other' ↦ ((other, other'), duplicate-none u us (ground arith))
  ]
]

duplicate-answer :
    (id nickname answer : Text) (us : List UserAccount)
    → duplicate id nickname us ≡ some answer
    → (answer == success) ≡ false
unfolding duplicate ◌==◌
duplicate-answer id nickname answer [] h = absurd (ground arith)
duplicate-answer id nickname answer (v ∷ us) h = elim (Bool-cases (v.id == id)) [
  | inl same ↦
      let there : some (codes "DUPLICATE_ID|\n") ≡ some answer = rw (← h) (rw same refl) in
      let is : codes "DUPLICATE_ID|\n" ≡ answer =
        ap (λ o. elim o [ none ↦ answer | some a ↦ a ]) there in
      rw (← is) refl
  | inr other ↦ elim (Bool-cases (v.nickname == nickname)) [
    | inl same ↦
        let there : some (codes "DUPLICATE_NICK|\n") ≡ some answer =
          rw (← h) (rw (other, same) refl) in
        let is : codes "DUPLICATE_NICK|\n" ≡ answer =
          ap (λ o. elim o [ none ↦ answer | some a ↦ a ]) there in
        rw (← is) refl
    | inr other' ↦ duplicate-answer id nickname answer us (rw (← h) (rw (other, other') refl))
  ]
]

-- The id and the nickname are there and no field breaks a line of a file.
abbrev pub is_refused : UserAccount → Bool
is_refused u =
    is_empty u.id
    || (is_empty u.nickname
        || (has_forbidden u.id || (has_forbidden u.password || has_forbidden u.nickname)))

-- A batch has the file with the line at its end.
abbrev pub IsAppended : Disk → Images → Text × Text → Type 0
IsAppended d batch (path, line) =
    (text : Text) × (d path ≡ some text) × (lookup path batch ≡ some (text ++ (line ++ 10 ∷ [])))

module _ {ℓ} {E : Type ℓ} where
  -- Inside a transaction, a file that is not staged yet: its line is staged behind its text, or it is not there.
  append_line-cases :
      (path line : Text) (m : UserManager E)
      → m.active ≡ true
      → lookup path m.pending ≡ none
      → (append_line path line m ≡ (threw, m))
        ⊎ ((text : Text) × (m.files path ≡ some text)
            × (append_line path line m ≡ (
              returned true,
              record m { pending = put_image path (text ++ (line ++ 10 ∷ [])) m.pending },
            )))
  unfolding append_line read_csv write_csv
  append_line-cases path line m active fresh = elim (Option-cases (m.files path)) [
    | inl gone ↦ inl (rw (fresh, gone) refl)
    | inr (text, there) ↦ inr (text, there, rw (fresh, there, active) refl)
  ]

  -- The lines of a new user and their files.
  abbrev pub user_lines : FloatText E → UserAccount → List (Text × Text)
  user_lines io u =
      (account_path, account_text u)
      ∷ (profile_path, profile_text io (new_profile io u.id))
      ∷ (character_path, int_row_text (new_characters u.id))
      ∷ (emote_path, int_row_text (new_user_emotes u.id))
      ∷ (stats_path, int_row_text (new_stats u.id))
      ∷ (balloon_path, int_row_text (new_ballons u.id))
      ∷ (icon_path, int_row_text (new_icons u.id))
      ∷ []

  -- A batch was committed in which each line of the user stands at the end of its file.
  abbrev pub StoresUser : FloatText E → ℕ → UserAccount → Disk → Disk → Type 0
  StoresUser io k u d now =
      (batch : Images) × All (IsAppended d batch) (user_lines io u)
      × (commit k batch d ≡ (now, accepted))

  -- How a registration in a transaction ends: not stored, stored, or in std::terminate.
  abbrev Ends :
      FloatText E → ℕ → UserAccount → Disk → Tables E → Outcome Text × UserManager E → Type ℓ
  Ends io k u files after (o, m) =
      ((told_failure o ≡ true) × (m.committed ≡ false) × (m.files ≡ files))
      ⊎ (((told_success o ≡ true)
            × (m.committed ≡ true)
            × (m.tables ≡ after)
            × StoresUser io k u files m.files)
          ⊎ ((o ≡ terminated) × (m.tables ≡ after)))

  module _ (io : FloatText E) (k : ℕ) (u : UserAccount) (files : Disk) (t : Tables E) where
    -- An action behind some staged files.
    abbrev Step : Images → Action E Text → Type ℓ
    Step p next =
        (m : UserManager E)
        → m.active ≡ true
        → m.committed ≡ false
        → m.files ≡ files
        → m.tables ≡ t
        → m.pending ≡ p
        → Ends io k u files (push_user io u t) (next m)

    store_user-Ends :
        (p : Images) → All (IsAppended files p) (user_lines io u) → Step p (store_user io k u)
    unfolding store_user commit_transaction ◌==◌
    store_user-Ends p lines m active fresh same at staged =
        elim (commit-Reports k m.pending m.files) [
          | inl (d, e) ↦
              rw (fresh, e)
                (inr
                  (inl (refl, refl, ap (push_user io u) at, (p, lines, rw (← staged, ← same) e))))
          | inr (inl (d, e)) ↦ rw (fresh, e) (inr (inr (refl, ap (push_user io u) at)))
          | inr (inr (inl e)) ↦ rw (fresh, e) (inl (refl, refl, same))
          | inr (inr (inr e)) ↦ rw (fresh, e) (inl (refl, refl, same))
        ]

    or_answer-Ends :
        (p : Images) (path line answer : Text) (next : Action E Text)
        → lookup path p ≡ none
        → ((text : Text)
            → files path ≡ some text
            → Step (put_image path (text ++ (line ++ 10 ∷ [])) p) next)
        → Step p (or_answer (append_line path line) answer next)
    unfolding or_answer
    or_answer-Ends p path line answer next out then m active fresh same at staged =
        elim (append_line-cases path line m active (ap (lookup path) staged ∙ out)) [
          | inl e ↦ rw e (inl (refl, fresh, same))
          | inr (text, there, e) ↦
              let p' = put_image path (text ++ (line ++ 10 ∷ [])) m.pending in
              rw e (
                then text (ap (λ d. d path) (sym same) ∙ there) (record m { pending = p' }) active
                  fresh same at (ap (put_image path (text ++ (line ++ 10 ∷ []))) staged))
        ]

    write_user-Ends : Step [] (write_user io k u)
    unfolding write_user register_user_account register_user_profile register_user_characters
        register_user_emotes register_user_win_loss_stats register_user_ballons register_user_icons
        put_image lookup text_lt ◌==◌
    write_user-Ends = or_answer-Ends [] account_path _ _ _ refl (λ t1 e1.
        or_answer-Ends _ profile_path _ _ _ refl (λ t2 e2.
          or_answer-Ends _ character_path _ _ _ refl (λ t3 e3.
            or_answer-Ends _ emote_path _ _ _ refl (λ t4 e4.
              or_answer-Ends _ stats_path _ _ _ refl (λ t5 e5.
                or_answer-Ends _ balloon_path _ _ _ refl (λ t6 e6.
                  or_answer-Ends _ icon_path _ _ _ refl (λ t7 e7. store_user-Ends _ (
                    (t1, e1, refl),
                    (
                      (t2, e2, refl),
                      (
                        (t3, e3, refl),
                        ((t4, e4, refl), ((t5, e5, refl), ((t6, e6, refl), ((t7, e7, refl), tt)))),
                      ),
                    ),
                  ))))))))

    register_body-Ends :
        (m : UserManager E)
        → m.active ≡ true
        → m.committed ≡ false
        → m.files ≡ files
        → m.tables ≡ t
        → m.pending ≡ []
        → ((told_failure (register_body io k u m).0 ≡ true) × ((register_body io k u m).1 ≡ m))
          ⊎ ((is_refused u ≡ false)
              × (is_empty u.password ≡ false)
              × IsNew u t.users
              × Ends io k u files (push_user io u t) (register_body io k u m))
    unfolding register_body ◌==◌
    register_body-Ends m active fresh same at staged = elim (Bool-cases (is_refused u)) [
      | inl bad ↦ inl (rw bad (refl, refl))
      | inr good ↦ elim (Option-cases (duplicate u.id u.nickname m.tables.users)) [
        | inl new ↦ elim (Bool-cases (is_empty u.password)) [
          | inl empty ↦ inl (rw (good, new, empty) (refl, refl))
          | inr some_password ↦ inr (
            good,
            some_password,
            rw (← at) (duplicate-none u m.tables.users new),
            rw (good, new, some_password) (write_user-Ends m active fresh same at staged),
          )
        ]
        | inr (answer, taken) ↦ inl (
            rw (good, taken, duplicate-answer u.id u.nickname answer m.tables.users taken)
              (refl, refl))
      ]
    ]

  -- How a registration ends behind its transaction.
  abbrev pub Leaves :
      FloatText E → ℕ → UserAccount → UserManager E → Outcome Text × UserManager E → Type ℓ
  Leaves io k u m (o, n) =
      ((told_failure o ≡ true) × (n ≡ record m { pending = []; active = false; committed = false }))
      ⊎ ((is_refused u ≡ false)
          × (is_empty u.password ≡ false)
          × IsNew u m.tables.users
          × (n.tables ≡ push_user io u m.tables)
          × ((o ≡ terminated)
              ⊎ ((told_success o ≡ true) × (n.active ≡ false) × StoresUser io k u m.files n.files)))

  leave-Leaves :
      (io : FloatText E) (k : ℕ) (u : UserAccount) (m n : UserManager E) (o : Outcome Text)
      → is_refused u ≡ false
      → is_empty u.password ≡ false
      → IsNew u m.tables.users
      → Ends io k u m.files (push_user io u m.tables) (o, n)
      → Leaves io k u m (leave m.tables (o, n))
  unfolding leave end_transaction
  leave-Leaves io k u m n (returned a) good some_password new (inl (bad, fresh, same)) =
      inl (bad, rw (fresh, same))
  leave-Leaves io k u m n threw good some_password new (inl (bad, fresh, same)) =
      inl (bad, rw (fresh, same))
  leave-Leaves io k u m n terminated good some_password new (inl (bad, fresh, same)) =
      absurd (ground arith)
  leave-Leaves io k u m n (returned a) good some_password new (inr (inl (told, done, at, batch))) =
      inr (good, some_password, new, rw done at, inr (told, refl, batch))
  leave-Leaves io k u m n threw good some_password new (inr (inl (told, done, at, batch))) =
      absurd (ground arith)
  leave-Leaves io k u m n terminated good some_password new (inr (inl (told, done, at, batch))) =
      absurd (ground arith)
  leave-Leaves io k u m n (returned a) good some_password new (inr (inr (stop, at))) =
      absurd (ground arith)
  leave-Leaves io k u m n threw good some_password new (inr (inr (stop, at))) =
      absurd (ground arith)
  leave-Leaves io k u m n terminated good some_password new (inr (inr (stop, at))) =
      inr (good, some_password, new, at, inl refl)

  leave_failed :
      (io : FloatText E) (k : ℕ) (u : UserAccount) (m n : UserManager E) (o : Outcome Text)
      → told_failure o ≡ true
      → n ≡ record m { pending = []; active = true; committed = false }
      → Leaves io k u m (leave m.tables (o, n))
  unfolding leave end_transaction
  leave_failed io k u m n (returned a) bad same = inl (bad, ap (end_transaction m.tables) same)
  leave_failed io k u m n threw bad same = inl (bad, ap (end_transaction m.tables) same)
  leave_failed io k u m n terminated bad same = absurd (ground arith)

  -- A registration outside of a transaction stores all of a user or nothing. Either its answer is no
  -- success or it throws, and then the tables and the files are as before and no transaction is open. Or
  -- the user has an id, a nickname and a password without separators, no other user has its id or its
  -- nickname, and all seven tables have its rows; then the process was stopped, or the answer is the success and
  -- the commit was accepted of a batch in which each of the seven files has the row of the user at its end,
  -- behind what it held before.
  pub register_user-Leaves :
      (io : FloatText E) (k : ℕ) (u : UserAccount) (m : UserManager E)
      → m.active ≡ false
      → Leaves io k u m (register_user io k u m)
  unfolding register_user in_transaction
  register_user-Leaves io k u m idle =
      let m' = record m { pending = []; active = true; committed = false } in
      rw idle (elim (register_body-Ends io k u m.files m.tables m' refl refl refl refl refl) [
        | inl (bad, same) ↦
            leave_failed io k u m (register_body io k u m').1 (register_body io k u m').0 bad same
        | inr (good, some_password, new, ends) ↦
            leave-Leaves io k u m (register_body io k u m').1 (register_body io k u m').0 good
              some_password new ends
      ])
