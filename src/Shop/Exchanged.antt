-- ===== src/Shop/Exchanged.antt =====
-- A change of an emote is an exchange of two emotes (EMO_CHANGE, TeamOFYServer/ClientHandler.cpp).
use bn_bserver.Prelude.{
  ℕ, zero, suc, ◌<◌, ◌≡◌, refl, sym, ◌∙◌, ap, inl, inr, false, some, List, [], ◌∷◌, if◌then◌else◌,
  arith, eqb, eqb_iff, length, map, Bool-cases, Option-cases,
}
use bn_bserver.Prelude.Int.{ℤ}
use bn_bserver.Store.{same_int}
use bn_bserver.Users.Query.{value_at, change_at}
use bn_bserver.Shop.Equip.{last_place, wear_at, wear}
use bn_bserver.Shop.Worn.{
  same_int_refl, same_int_sound, value_at-change_at, length-change_at, last_place-some,
  last_place-none, swapped, length-swapped, value_at-swapped,
}

-- No two places hold the same emote.
abbrev pub AreApart : List ℤ → Type 0
AreApart slots =
    (m n : ℕ) → m < length slots → n < length slots → value_at m slots ≡ value_at n slots → m ≡ n

-- One emote in place of the other.
abbrev pub exchange : ℤ → ℤ → ℤ → ℤ
exchange a b v = if same_int v a then b else if same_int v b then a else v

value_at-map :
    (f : ℤ → ℤ) (n : ℕ) (vs : List ℤ) → n < length vs → value_at n (map f vs) ≡ f (value_at n vs)
unfolding value_at
value_at-map f n [] h = absurd (omega (arith, h))
value_at-map f zero (v ∷ vs) h = refl
value_at-map f (suc n) (v ∷ vs) h = value_at-map f n vs (omega (arith, h))

length-map : (f : ℤ → ℤ) (vs : List ℤ) → length (map f vs) ≡ length vs
length-map f [] = refl
length-map f (v ∷ vs) = ap suc (length-map f vs)

value_at_ext :
    (vs ws : List ℤ)
    → length vs ≡ length ws
    → ((n : ℕ) → n < length ws → value_at n vs ≡ value_at n ws)
    → vs ≡ ws
unfolding value_at
value_at_ext [] [] e same = refl
value_at_ext [] (w ∷ ws) e same = absurd (omega (arith, e))
value_at_ext (v ∷ vs) [] e same = absurd (omega (arith, e))
value_at_ext (v ∷ vs) (w ∷ ws) e same =
    let first : v ≡ w = same 0 (omega arith) in
    let rest : vs ≡ ws =
      value_at_ext vs ws (omega (arith, e)) (λ n h. same (suc n) (omega (arith, h))) in
    ap (λ x. x ∷ vs) first ∙ ap (λ xs. w ∷ xs) rest

module _ (a b : ℤ) (different : same_int a b ≡ false) where
  exchange-first : exchange a b a ≡ b
  exchange-first = rw (same_int_refl a) refl

  other-way : same_int b a ≡ false
  other-way = elim (Bool-cases (same_int b a)) [
    | inl same ↦
        let is = same_int_sound b a same in
        let clash : same_int a a ≡ false = ap (λ x. same_int a x) (sym is) ∙ different in
        absurd (ground (arith, same_int_refl a, clash))
    | inr out ↦ out
  ]

  exchange-second : exchange a b b ≡ a
  exchange-second = rw (other-way, same_int_refl b) refl

  exchange-neither : (v : ℤ) → ¬ (v ≡ a) → ¬ (v ≡ b) → exchange a b v ≡ v
  exchange-neither v not_a not_b = elim (Bool-cases (same_int v a)) [
    | inl same ↦ absurd (not_a (same_int_sound v a same))
    | inr out ↦ elim (Bool-cases (same_int v b)) [
      | inl same ↦ absurd (not_b (same_int_sound v b same))
      | inr out' ↦ rw (out, out') refl
    ]
  ]

  module _ (slots : List ℤ) (distinct : AreApart slots) (i : ℕ) (inside : i < length slots)
      (worn : value_at i slots ≡ a) where
    -- Another place holds another emote.
    apart : (n : ℕ) → n < length slots → eqb i n ≡ false → ¬ (value_at n slots ≡ a)
    apart n h out e =
        let same : i ≡ n = distinct i n inside h (worn ∙ sym e) in
        absurd (ground (arith, out, same))

    replaced :
        ((n : ℕ) → n < length slots → ¬ (value_at n slots ≡ b))
        → change_at i (λ v. b) slots ≡ map (exchange a b) slots
    replaced absent =
        value_at_ext _ _ (length-change_at i (λ v. b) slots ∙ sym (length-map (exchange a b) slots))
          (λ n h.
            let below : n < length slots = omega (arith, h, length-map (exchange a b) slots) in
            value_at-change_at i n (λ v. b) slots below
            ∙ here_or_there n below
            ∙ sym (value_at-map (exchange a b) n slots below))
      where
        here_or_there :
            (n : ℕ)
            → n < length slots
            → (if eqb i n then b else value_at n slots) ≡ exchange a b (value_at n slots)
        here_or_there n h = elim (Bool-cases (eqb i n)) [
          | inl here ↦
              let same : i ≡ n = (eqb_iff i n).0 here in
              rw here (
                sym (
                  ap (exchange a b) (ap (λ k. value_at k slots) (sym same) ∙ worn)
                  ∙ exchange-first))
          | inr there ↦
              rw there (sym (exchange-neither (value_at n slots) (apart n h there) (absent n h)))
        ]

    exchanged :
        (j : ℕ)
        → j < length slots
        → value_at j slots ≡ b
        → swapped slots i j ≡ map (exchange a b) slots
    exchanged j below' also =
        value_at_ext _ _ (length-swapped slots i j ∙ sym (length-map (exchange a b) slots)) (λ n h.
          let below : n < length slots = omega (arith, h, length-map (exchange a b) slots) in
          value_at-swapped slots i j n below
          ∙ one_of_three n below
          ∙ sym (value_at-map (exchange a b) n slots below))
      where
        one_of_three :
            (n : ℕ)
            → n < length slots
            → (if eqb i n
                then value_at j slots
                else if eqb j n
                then value_at i slots
                else value_at n slots)
              ≡ exchange a b (value_at n slots)
        one_of_three n h = elim (Bool-cases (eqb i n)) [
          | inl here ↦
              let same : i ≡ n = (eqb_iff i n).0 here in
              rw here (
                also
                ∙ sym (
                    ap (exchange a b) (ap (λ k. value_at k slots) (sym same) ∙ worn)
                    ∙ exchange-first))
          | inr there ↦ elim (Bool-cases (eqb j n)) [
            | inl here ↦
                let same : j ≡ n = (eqb_iff j n).0 here in
                rw (there, here)
                  (worn
                    ∙ sym (
                        ap (exchange a b) (ap (λ k. value_at k slots) (sym same) ∙ also)
                        ∙ exchange-second))
            | inr there' ↦
                rw (there, there')
                  (sym (
                    exchange-neither (value_at n slots) (apart n h there) (λ e.
                      let same : j ≡ n = distinct j n below' h (also ∙ sym e) in
                      absurd (ground (arith, there', same)))))
          ]
        ]

    -- The first emote stands in a slot, and no emote in two: then the change exchanges it for the other one, and the other
    -- one, if it stands in a slot, for it.
    pub wear-exchange : wear a b slots ≡ some (map (exchange a b) slots)
    unfolding wear wear_at
    wear-exchange = elim (Option-cases (last_place a 0 slots)) [
      | inl nowhere ↦ absurd (last_place-none a 0 i slots nowhere inside worn)
      | inr (k, there) ↦
          let (k', at, below, value) = last_place-some a 0 k slots there in
          let same : i ≡ k' = distinct i k' inside below (worn ∙ sym value) in
          let is : k ≡ i = omega (arith, at, same) in
          elim (Option-cases (last_place b 0 slots)) [
            | inl new ↦
                rw (there, new, is) (ap some (replaced (λ n h. last_place-none b 0 n slots new h)))
            | inr (j, also) ↦
                let (j', at', below', value') = last_place-some b 0 j slots also in
                let is' : j ≡ j' = omega (arith, at') in
                rw (there, also, is, is') (ap some (exchanged j' below' value'))
          ]
    ]
