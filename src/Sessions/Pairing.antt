-- ===== src/Sessions/Pairing.antt =====
-- The connections with an id and clientsMap, in all interleavings of the threads.
use bn_bserver.Prelude.{
  ℕ, ◌≡◌, inl, inr, refl, sym, ◌∙◌, ap, true, false, none, some, List, [], ◌∷◌, if◌then◌else◌,
  arith, eqb, eqb_iff, subst, Bool-cases, Option-cases,
}
use bn_bserver.Prelude.Text.{Text, codes, ◌==◌, eq_iff, eq_refl, has_byte, before_byte, after_byte}
use bn_bserver.Prelude.Assoc.{lookup, insert, lookup-insert, lookup-erase}
use bn_bserver.Users.{UserAccount}
use bn_bserver.Users.Register.{is_empty}
use bn_bserver.Users.Query.{check_login}
use bn_bserver.Prelude.Text.{getline, line_or_empty}
use bn_bserver.Sessions.{
  starts_with, Sessions, assign, is_in, open_session, login, clear_id, remove_login_session,
  remove_client, Step, logs_in, opens, clears, removes, connects, drops, accept, Run, stays, goes,
}

-- A connection with an id is the one of its id in the map.
abbrev pub Named : Sessions → ℕ → Type 0
Named s c = is_empty (s.objects c).id ≡ false → lookup (s.objects c).id s.clients_map ≡ some c

-- A connection that leaves is still the one of its old id, and has no id.
abbrev pub Left : Sessions → ℕ → Type 0
Left s c = is_empty (s.leaving c) ≡ false → lookup (s.leaving c) s.clients_map ≡ some c

abbrev pub Nameless : Sessions → ℕ → Type 0
Nameless s c = is_empty (s.leaving c) ≡ false → is_empty (s.objects c).id ≡ true

pub record IsPaired (s : Sessions) : Type 0 where
  pub named : (c : ℕ) → Named s c
  pub left : (c : ℕ) → Left s c
  pub nameless : (c : ℕ) → Nameless s c

eqb_same : (c : ℕ) → eqb c c ≡ true
eqb_same c = ground arith

-- A property of `c`, and of the others.
by_number {ℓ} : (P : ℕ → Type ℓ) (c d : ℕ) → P c → (eqb c d ≡ false → P d) → P d
by_number P c d here there = elim (Bool-cases (eqb c d)) [
  | inl same ↦ subst P ((eqb_iff c d).0 same) here
  | inr other ↦ there other
]

empty_not {ℓ} : {A : Type ℓ} (t : Text) → is_empty t ≡ true → is_empty t ≡ false → A
empty_not [] e h = absurd (ground arith)
empty_not (c ∷ t) e h = absurd (ground arith)

clear_id-IsPaired :
    (c : ℕ) (s : Sessions) → is_empty (s.leaving c) ≡ true → IsPaired s → IsPaired (clear_id c s)
unfolding clear_id assign
clear_id-IsPaired c s free p = record {
  named = λ d.
      by_number (Named (clear_id c s)) c d (rw (eqb_same c) (λ h. absurd (ground arith)))
        (λ other. rw other (p.named d));
  left = λ d.
      by_number (Left (clear_id c s)) c d (rw (eqb_same c) (p.named c))
        (λ other. rw other (p.left d));
  nameless = λ d.
      by_number (Nameless (clear_id c s)) c d (rw (eqb_same c) (λ h. refl))
        (λ other. rw other (p.nameless d));
}

-- An id that is not the one that is removed or inserted.
other_id :
    (i j : Text) (c d : ℕ) (m : List (Text × ℕ))
    → lookup i m ≡ some c
    → lookup j m ≡ some d
    → eqb c d ≡ false
    → (i == j) ≡ false
other_id i j c d m at at' other = elim (Bool-cases (i == j)) [
  | inl same ↦
      let is : some c ≡ some d = sym at ∙ ap (λ k. lookup k m) ((eq_iff i j).0 same) ∙ at' in
      let same' : c ≡ d = ap (λ o. elim o [ none ↦ c | some e ↦ e ]) is in
      absurd (ground (arith, eqb_iff c d))
  | inr other' ↦ other'
]

remove-IsPaired : (c : ℕ) (s : Sessions) → IsPaired s → IsPaired (remove_login_session c s)
unfolding remove_login_session assign
remove-IsPaired c s p = elim (Bool-cases (is_empty (s.leaving c))) [
  | inl none_left ↦ record {
    named = λ d. rw none_left (p.named d);
    left = λ d.
        by_number (Left (remove_login_session c s)) c d
          (rw (eqb_same c) (λ h. absurd (ground arith)))
          (λ other. rw (other, none_left) (p.left d));
    nameless = λ d.
        by_number (Nameless (remove_login_session c s)) c d
          (rw (eqb_same c) (λ h. absurd (ground arith))) (λ other. rw other (p.nameless d));
  }
  | inr going ↦ record {
    named = λ d.
        by_number (Named (remove_login_session c s)) c d
          (λ h. empty_not (s.objects c).id (p.nameless c going) h)
          (λ other h.
            rw
              (
                going,
                lookup-erase (s.leaving c) (s.objects d).id s.clients_map,
                other_id (s.leaving c) (s.objects d).id c d s.clients_map (p.left c going)
                    (p.named d h) other,
              )
              (p.named d h));
    left = λ d.
        by_number (Left (remove_login_session c s)) c d
          (rw (eqb_same c) (λ h. absurd (ground arith)))
          (λ other.
            rw (other, going)
              (λ h.
                rw
                  (
                    lookup-erase (s.leaving c) (s.leaving d) s.clients_map,
                    other_id (s.leaving c) (s.leaving d) c d s.clients_map (p.left c going)
                        (p.left d h) other,
                  )
                  (p.left d h)));
    nameless = λ d.
        by_number (Nameless (remove_login_session c s)) c d
          (rw (eqb_same c) (λ h. absurd (ground arith))) (λ other. rw other (p.nameless d));
  }
]

absent_id :
    (i j : Text) (d : ℕ) (m : List (Text × ℕ))
    → lookup i m ≡ none
    → lookup j m ≡ some d
    → (i == j) ≡ false
absent_id i j d m absent at = elim (Bool-cases (i == j)) [
  | inl same ↦
      let is : none ≡ some d = sym absent ∙ ap (λ k. lookup k m) ((eq_iff i j).0 same) ∙ at in
      absurd (ground arith)
  | inr other ↦ other
]

-- A session for an id that the map lacks, of a connection without an id that does not leave.
abbrev inserted : ℕ → Text → Text → Sessions → Sessions
inserted c i nickname s = record s {
  objects = assign c (record { id = i; nickname = nickname }) s.objects;
  clients_map = insert i c s.clients_map;
}

insert-IsPaired :
    (c : ℕ) (i nickname : Text) (s : Sessions)
    → is_empty (s.leaving c) ≡ true
    → lookup i s.clients_map ≡ none
    → IsPaired s
    → IsPaired (inserted c i nickname s)
unfolding assign
insert-IsPaired c i nickname s free absent p = record {
  named = λ d.
      by_number (Named (inserted c i nickname s)) c d
        (rw (eqb_same c) (λ h. rw (lookup-insert i i c s.clients_map, eq_refl i) refl))
        (λ other. rw other (λ h.
          rw
            (
              lookup-insert i (s.objects d).id c s.clients_map,
              absent_id i (s.objects d).id d s.clients_map absent (p.named d h),
            )
            (p.named d h)));
  left = λ d h.
      rw
        (
          lookup-insert i (s.leaving d) c s.clients_map,
          absent_id i (s.leaving d) d s.clients_map absent (p.left d h),
        )
        (p.left d h);
  nameless = λ d.
      by_number (Nameless (inserted c i nickname s)) c d (λ h. empty_not (s.leaving c) free h)
        (λ other. rw other (p.nameless d));
}

remove_client-IsPaired : (c : ℕ) (s : Sessions) → IsPaired s → IsPaired (remove_client c s)
unfolding remove_client
remove_client-IsPaired c s p = record { named = p.named; left = p.left; nameless = p.nameless }

accept-IsPaired : (c : ℕ) (s : Sessions) → IsPaired s → IsPaired (accept c s)
unfolding accept
accept-IsPaired c s p = record { named = p.named; left = p.left; nameless = p.nameless }

open_session-IsPaired :
    (c : ℕ) (response : Text) (s : Sessions)
    → is_empty (s.leaving c) ≡ true
    → IsPaired s
    → IsPaired (open_session c response s).0
unfolding open_session is_in
open_session-IsPaired c response s free p =
    let (id, rest) = line_or_empty (getline b',' (after_byte b'|' response)) in
    elim (Bool-cases (starts_with (codes "LOGIN_SUCCESS|") response)) [
      | inr other ↦ rw other p
      | inl success ↦ elim (Bool-cases (is_empty (s.objects c).id)) [
        | inr named ↦ rw (success, named) p
        | inl unnamed ↦ elim (Option-cases (lookup id s.clients_map)) [
          | inr (d, there) ↦ rw (success, unnamed, there) p
          | inl absent ↦ rw (success, unnamed, absent) (insert-IsPaired c id _ s free absent p)
        ]
      ]
    ]

login-IsPaired :
    (users : List UserAccount) (c : ℕ) (input : Text) (s : Sessions)
    → is_empty (s.leaving c) ≡ true
    → IsPaired s
    → IsPaired (login users c input s).0
unfolding login
login-IsPaired users c input s free p =
    let id = if has_byte b',' input then before_byte b',' input else [] in
    let pw = if has_byte b',' input then after_byte b',' input else [] in
    elim (Bool-cases (is_in (lookup id s.clients_map))) [
      | inl there ↦ rw there p
      | inr absent ↦ rw absent (open_session-IsPaired c (check_login id pw users) s free p)
    ]

Step-IsPaired : (s t : Sessions) → Step s t → IsPaired s → IsPaired t
Step-IsPaired _ _ (logs_in users s c input free) p = login-IsPaired users c input s free p
Step-IsPaired _ _ (opens users s c id pw free) p =
    open_session-IsPaired c (check_login id pw users) s free p
Step-IsPaired _ _ (clears s c free) p = clear_id-IsPaired c s free p
Step-IsPaired _ _ (removes s c) p = remove-IsPaired c s p
Step-IsPaired _ _ (connects s c) p = accept-IsPaired c s p
Step-IsPaired _ _ (drops s c) p = remove_client-IsPaired c s p

Run-IsPaired : (s t : Sessions) → Run s t → IsPaired s → IsPaired t
Run-IsPaired _ _ (stays s) p = p
Run-IsPaired _ _ (goes s t r run step) p = Step-IsPaired t r step (Run-IsPaired s t run p)

-- Connections that nobody has logged in on.
abbrev pub start : List ℕ → Sessions
start connected = record {
  objects = λ c. record { id = []; nickname = [] };
  clients_map = [];
  connected = connected;
  leaving = λ c. [];
}

start-IsPaired : (connected : List ℕ) → IsPaired (start connected)
start-IsPaired connected = record {
  named = λ c h. absurd (ground arith);
  left = λ c h. absurd (ground arith);
  nameless = λ c h. refl;
}

-- Whatever the threads do, in any order of their steps, from connections that nobody has logged in on:
-- two connections with the same id that is not empty are one.
pub Run-one_session :
    (connected : List ℕ) (s : Sessions) (c d : ℕ)
    → Run (start connected) s
    → is_empty (s.objects c).id ≡ false
    → (s.objects c).id ≡ (s.objects d).id
    → c ≡ d
Run-one_session connected s c d run some_id same =
    let p = Run-IsPaired (start connected) s run (start-IsPaired connected) in
    let at = p.named c some_id in
    let at' : lookup (s.objects c).id s.clients_map ≡ some d =
      rw same (p.named d (rw (← same) some_id)) in
    let is : some c ≡ some d = sym at ∙ at' in ap (λ o. elim o [ none ↦ c | some e ↦ e ]) is
