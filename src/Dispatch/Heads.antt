-- ===== src/Dispatch/Heads.antt =====
-- The heads of the messages (TeamOFYServer/ClientHandler.cpp): none begins another, so the order of the
-- tests does not matter.
use bn_bserver.Prelude.{
  ℕ, zero, suc, ◌≡◌, refl, ◌∙◌, ap, Bool, true, false, ◌&&◌, ◌||◌, not, Option, none, some, List,
  [], ◌∷◌, ◌++◌, arith, length, drop, Bool-cases, inl, inr,
}
use bn_bserver.Prelude.Text.{
  Text, eq_sound, has_byte, before_byte, before_byte-append, after_byte-append,
}
use bn_bserver.Users.Register.{is_empty}
use bn_bserver.Dispatch.{
  Ending, passed, returns, bad_argument, run_time_error, Command, Test, tests, has_head, holds_for,
  first_test, command_of, handle, go_on, process_messages, caught, process,
}

has_head_refl : (s : Text) → has_head s s ≡ true
unfolding has_head
has_head_refl [] = refl
has_head_refl (c ∷ s) = ground (arith, has_head_refl s)

-- Of two heads of one text, one begins the other.
heads-comparable :
    (a b s : Text)
    → has_head a s ≡ true
    → has_head b s ≡ true
    → (has_head a b || has_head b a) ≡ true
unfolding has_head
heads-comparable [] b s h k = refl
heads-comparable (c ∷ a) [] s h k = refl
heads-comparable (c ∷ a) (d ∷ b) [] h k = absurd (ground arith)
heads-comparable (c ∷ a) (d ∷ b) (e ∷ s) h k = ground (arith, heads-comparable a b s)

holds_for-head : (t : Test) (s : Text) → holds_for t s ≡ true → has_head t.head s ≡ true
unfolding holds_for
holds_for-head t s h = elim (Bool-cases t.whole) [
  | inl exact ↦ let same = eq_sound s t.head (ground arith) in rw same (has_head_refl t.head)
  | inr begins ↦ ground arith
]

apart : Test → Test → Bool
apart t u = not (has_head t.head u.head || has_head u.head t.head)

apart_from : Test → List Test → Bool
apart_from t [] = true
apart_from t (u ∷ us) = apart t u && apart_from t us

all_apart : List Test → Bool
all_apart [] = true
all_apart (t ∷ ts) = apart_from t ts && all_apart ts

tests_apart : all_apart tests ≡ true
unfolding has_head apart apart_from all_apart
tests_apart = refl

abbrev pub get_elem? {ℓ} : {A : Type ℓ} → List A → ℕ → Option A
get_elem? [] i = none
get_elem? (x ∷ xs) zero = some x
get_elem? (x ∷ xs) (suc i) = get_elem? xs i

-- Tests that are apart do not hold for one message.
apart-holds_for :
    (t u : Test) (s : Text) → apart t u ≡ true → holds_for u s ≡ true → holds_for t s ≡ false
unfolding apart
apart-holds_for t u s h k = elim (Bool-cases (holds_for t s)) [
  | inr out ↦ out
  | inl both ↦
      let clash =
        heads-comparable t.head u.head s (holds_for-head t s both) (holds_for-head u s k) in
      absurd (ground arith)
]

apart_from-get_elem? :
    (t u : Test) (ts : List Test) (i : ℕ)
    → apart_from t ts ≡ true
    → get_elem? ts i ≡ some u
    → apart t u ≡ true
unfolding apart_from
apart_from-get_elem? t u [] i h at = absurd (ground arith)
apart_from-get_elem? t u (v ∷ ts) zero h at =
    let is : v ≡ u = ap (λ o. elim o [ none ↦ v | some w ↦ w ]) at in rw (← is) (ground arith)
apart_from-get_elem? t u (v ∷ ts) (suc i) h at = apart_from-get_elem? t u ts i (ground arith) at

first_test-get_elem? :
    (ts : List Test) (i : ℕ) (t : Test) (s : Text)
    → all_apart ts ≡ true
    → get_elem? ts i ≡ some t
    → holds_for t s ≡ true
    → first_test ts s ≡ some (t.command, drop (length t.head) s)
unfolding first_test all_apart
first_test-get_elem? [] i t s h at holds = absurd (ground arith)
first_test-get_elem? (u ∷ ts) zero t s h at holds =
    let is : u ≡ t = ap (λ o. elim o [ none ↦ u | some w ↦ w ]) at in rw (is, holds) refl
first_test-get_elem? (u ∷ ts) (suc i) t s h at holds =
    let out = apart-holds_for u t s (apart_from-get_elem? u t ts i (ground arith) at) holds in
    rw out (first_test-get_elem? ts i t s (ground arith) at holds)

module _ {ℓ} {S : Type ℓ} (handler : Command → Text → S → S × Ending) (disconnect : S → S)
    (send_error : S → S) where
  has_byte-line : (line rest : Text) → has_byte 10 (line ++ 10 ∷ rest) ≡ true
  unfolding has_byte
  has_byte-line [] rest = refl
  has_byte-line (c ∷ line) rest = ground (arith, has_byte-line line rest)

  process_messages-rest : (fuel : ℕ) (s : S) → process_messages handler fuel [] s ≡ (s, passed)
  unfolding process_messages before_byte
  process_messages-rest zero s = refl
  process_messages-rest (suc fuel) s = refl

  go_on-rest :
      (fuel : ℕ) (x : S × Ending) → go_on handler (process_messages handler fuel []) true x ≡ x
  unfolding go_on
  go_on-rest fuel (s, passed) = process_messages-rest fuel s
  go_on-rest fuel (s, returns) = refl
  go_on-rest fuel (s, bad_argument) = refl
  go_on-rest fuel (s, run_time_error) = refl

  -- A line is one message.
  process_messages-line :
      (fuel : ℕ) (line : Text) (s : S)
      → has_byte 10 line ≡ false
      → is_empty line ≡ false
      → process_messages handler (suc fuel) (line ++ 10 ∷ []) s ≡ handle handler (command_of line) s
  unfolding process_messages
  process_messages-line fuel line s one_line full =
      simp
        (
          before_byte-append 10 line [] one_line,
          after_byte-append 10 line [] one_line,
          has_byte-line line [],
          full,
        )
        (go_on-rest fuel (handle handler (command_of line) s))

  -- A line for which one of the tests holds, the i-th in the chain, goes to the handler of this test, and to no
  -- other one, with what stands behind the head; then nothing of the line is left, and an exception of the handler
  -- is caught.
  pub process-line :
      (i : ℕ) (t : Test) (line : Text) (s : S)
      → get_elem? tests i ≡ some t
      → holds_for t line ≡ true
      → has_byte 10 line ≡ false
      → is_empty line ≡ false
      → process handler disconnect send_error (line ++ 10 ∷ []) s
        ≡ caught handler disconnect send_error (handler t.command (drop (length t.head) line) s)
  unfolding process command_of handle
  process-line i t line s at holds one_line full = ap (caught handler disconnect send_error) (
      process_messages-line (length (line ++ 10 ∷ [])) line s one_line full
      ∙ ap (λ o. handle handler o s) (first_test-get_elem? tests i t line tests_apart at holds))
