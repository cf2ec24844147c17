-- ===== src/CsvStore/Order.antt =====
-- The order of names, and appending a name above all others.
use bn_bserver.Prelude.{
  ◌≡◌, refl, true, false, none, List, [], ◌∷◌, ◌++◌, arith, All, Bool-cases, inl, inr,
}
use bn_bserver.Prelude.Text.{Text, ◌==◌, text_lt, eq_iff}
use bn_bserver.Prelude.Assoc.{lookup}
use bn_bserver.CsvStore.{Images, emplace, name_in}

pub text_lt-asymm : (s t : Text) → text_lt s t ≡ true → text_lt t s ≡ false
unfolding text_lt
text_lt-asymm s [] h = ground arith
text_lt-asymm [] (d ∷ t) h = refl
text_lt-asymm (c ∷ s) (d ∷ t) h = ground (arith, text_lt-asymm s t)

pub text_lt-ne : (s t : Text) → text_lt s t ≡ true → (s == t) ≡ false
unfolding text_lt ◌==◌
text_lt-ne s [] h = ground arith
text_lt-ne [] (d ∷ t) h = refl
text_lt-ne (c ∷ s) (d ∷ t) h = ground (arith, text_lt-ne s t)

-- Every name of `m` comes before `k`.
abbrev pub Below : Text → Images → Type 0
Below k m = All (λ e. text_lt e.0 k ≡ true) m

pub emplace-Below : (k v : Text) (m : Images) → Below k m → emplace k v m ≡ m ++ (k, v) ∷ []
unfolding emplace
emplace-Below k v [] b = refl
emplace-Below k v ((j, w) ∷ m) b =
    ground (arith, text_lt-asymm j k, text_lt-ne j k, emplace-Below k v m b.1)

pub lookup-Below : (k : Text) (m : Images) → Below k m → lookup k m ≡ none
unfolding lookup
lookup-Below k [] b = refl
lookup-Below k ((j, w) ∷ m) b = ground (arith, text_lt-ne j k, lookup-Below k m b.1)

-- What holds for every listed name holds for a name of the list.
pub All-name_in {κ} :
    (P : Text → Type κ) (ns : List Text) (n : Text) → All P ns → name_in n ns ≡ true → P n
unfolding name_in
All-name_in P [] n h e = absurd (ground arith)
All-name_in P (m ∷ ns) n h e = elim (Bool-cases (n == m)) [
  | inl same ↦ rw ((eq_iff n m).0 same) h.0
  | inr other ↦ All-name_in P ns n h.1 (rw other at e)
]
