-- ===== src/Shop/Worn.antt =====
-- The four emotes in the slots of a profile (EMO_CHANGE, TeamOFYServer/ClientHandler.cpp).
use bn_bserver.Prelude.{
  ℕ, zero, suc, ◌+◌, ◌<◌, ◌≡◌, inl, inr, refl, sym, ◌∙◌, ap, subst, true, false, none, some, List,
  [], ◌∷◌, if◌then◌else◌, arith, eqb, eqb_iff, length, Bool-cases, Option-cases,
}
use bn_bserver.Prelude.Int.{ℤ, pos, negsuc}
use bn_bserver.Store.{same_int}
use bn_bserver.Users.Query.{value_at, change_at}
use bn_bserver.Shop.{is_owned}
use bn_bserver.Shop.Equip.{last_place, wear_at, wear}

pub same_int_sound : (a b : ℤ) → same_int a b ≡ true → a ≡ b
unfolding same_int
same_int_sound (pos a) (pos b) h = ap pos ((eqb_iff a b).0 h)
same_int_sound (pos a) (negsuc b) h = absurd (ground arith)
same_int_sound (negsuc a) (pos b) h = absurd (ground arith)
same_int_sound (negsuc a) (negsuc b) h = ap negsuc ((eqb_iff a b).0 h)

pub same_int_refl : (a : ℤ) → same_int a a ≡ true
unfolding same_int
same_int_refl (pos a) = ground arith
same_int_refl (negsuc a) = ground arith

pub value_at-change_at :
    (i n : ℕ) (f : ℤ → ℤ) (vs : List ℤ)
    → n < length vs
    → value_at n (change_at i f vs) ≡ (if eqb i n then f (value_at n vs) else value_at n vs)
unfolding value_at change_at
value_at-change_at i n f [] h = absurd (omega arith)
value_at-change_at zero zero f (v ∷ vs) h = refl
value_at-change_at zero (suc n) f (v ∷ vs) h = ground arith
value_at-change_at (suc i) zero f (v ∷ vs) h = ground arith
value_at-change_at (suc i) (suc n) f (v ∷ vs) h =
    ground (arith, value_at-change_at i n f vs (omega arith))

pub length-change_at : (i : ℕ) (f : ℤ → ℤ) (vs : List ℤ) → length (change_at i f vs) ≡ length vs
unfolding change_at
length-change_at i f [] = refl
length-change_at zero f (v ∷ vs) = refl
length-change_at (suc i) f (v ∷ vs) = ap suc (length-change_at i f vs)

-- A place that was found is within the slots and holds the value.
pub last_place-some :
    (v : ℤ) (i j : ℕ) (slots : List ℤ)
    → last_place v i slots ≡ some j
    → (n : ℕ) × (j ≡ i + n) × (n < length slots) × (value_at n slots ≡ v)
unfolding last_place value_at
last_place-some v i j [] h = absurd (ground arith)
last_place-some v i j (w ∷ slots) h = elim (Option-cases (last_place v (i + 1) slots)) [
  | inr (k, there) ↦
      let is : some k ≡ some j = rw (← h) (rw there refl) in
      let same : k ≡ j = ap (λ o. elim o [ none ↦ k | some e ↦ e ]) is in
      let (n, at, below, value) = last_place-some v (i + 1) k slots there in
      (suc n, omega (arith, same, at), omega (arith, below), value)
  | inl nowhere ↦ elim (Bool-cases (same_int w v)) [
    | inl same ↦
        let is : some i ≡ some j = rw (← h) (rw (nowhere, same) refl) in
        let same' : i ≡ j = ap (λ o. elim o [ none ↦ i | some e ↦ e ]) is in
        (0, omega (arith, same'), omega arith, same_int_sound w v same)
    | inr other ↦
        let is : none ≡ some j = rw (← h) (rw (nowhere, other) refl) in absurd (ground arith)
  ]
]

last_place_nowhere :
    (v w : ℤ) (i : ℕ) (slots : List ℤ)
    → last_place v i (w ∷ slots) ≡ none
    → (last_place v (i + 1) slots ≡ none) × (same_int w v ≡ false)
unfolding last_place
last_place_nowhere v w i slots h = elim (Option-cases (last_place v (i + 1) slots)) [
  | inr (k, there) ↦ let is : some k ≡ none = rw (← h) (rw there refl) in absurd (ground arith)
  | inl nowhere ↦ elim (Bool-cases (same_int w v)) [
    | inl same ↦
        let is : some i ≡ none = rw (← h) (rw (nowhere, same) refl) in absurd (ground arith)
    | inr other ↦ (nowhere, other)
  ]
]

pub last_place-none :
    (v : ℤ) (i n : ℕ) (slots : List ℤ)
    → last_place v i slots ≡ none
    → n < length slots
    → ¬ (value_at n slots ≡ v)
unfolding value_at
last_place-none v i n [] h below e = absurd (omega arith)
last_place-none v i zero (w ∷ slots) h below e =
    let same : same_int w v ≡ true = rw e (same_int_refl v) in
    let other = (last_place_nowhere v w i slots h).1 in absurd (ground arith)
last_place-none v i (suc n) (w ∷ slots) h below e =
    last_place-none v (i + 1) n slots (last_place_nowhere v w i slots h).0 (omega (arith, below)) e

-- Slots with different emotes that are owned.
pub record IsOutfit (owned slots : List ℤ) : Type 0 where
  pub has : (n : ℕ) → n < length slots → is_owned (value_at n slots) owned ≡ true
  pub distinct :
      (m n : ℕ) → m < length slots → n < length slots → value_at m slots ≡ value_at n slots → m ≡ n

module _ (slots : List ℤ) where
  -- What stands at a place behind the swap of two.
  abbrev pub swapped : ℕ → ℕ → List ℤ
  swapped i j = change_at i (λ v. value_at j slots) (change_at j (λ v. value_at i slots) slots)

  pub length-swapped : (i j : ℕ) → length (swapped i j) ≡ length slots
  length-swapped i j = length-change_at i _ (change_at j _ slots) ∙ length-change_at j _ slots

  pub value_at-swapped :
      (i j n : ℕ)
      → n < length slots
      → value_at n (swapped i j) ≡ (
          if eqb i n
          then value_at j slots
          else if eqb j n
          then value_at i slots
          else value_at n slots)
  value_at-swapped i j n h = rw (
    value_at-change_at i n (λ v. value_at j slots) (change_at j (λ v. value_at i slots) slots)
        (omega (arith, h, length-change_at j (λ v. value_at i slots) slots)),
    value_at-change_at j n (λ v. value_at i slots) slots h,
  )

module _ (owned slots : List ℤ) (outfit : IsOutfit owned slots) (b : ℤ)
    (owns : is_owned b owned ≡ true) where
  replace-IsOutfit :
      (i : ℕ)
      → ((n : ℕ) → n < length slots → ¬ (value_at n slots ≡ b))
      → IsOutfit owned (change_at i (λ v. b) slots)
  replace-IsOutfit i absent = record {
    has = λ n h.
        let below : n < length slots = omega (arith, h, length-change_at i (λ v. b) slots) in
        rw (value_at-change_at i n (λ v. b) slots below) (elim (Bool-cases (eqb i n)) [
          | inl here ↦ rw here owns
          | inr there ↦ rw there (outfit.has n below)
        ]);
    distinct = λ m n h k e.
        let l = length-change_at i (λ v. b) slots in
        let below : m < length slots = omega (arith, h, l) in
        let below' : n < length slots = omega (arith, k, l) in
        let e' =
          sym (value_at-change_at i m (λ v. b) slots below)
          ∙ e
          ∙ value_at-change_at i n (λ v. b) slots below' in
        ground (arith, e', absent m below, absent n below', outfit.distinct m n below below');
  }

  swap-IsOutfit :
      (i j : ℕ) → i < length slots → j < length slots → IsOutfit owned (swapped slots i j)
  swap-IsOutfit i j hi hj = record {
    has = λ n h.
        let below : n < length slots = omega (arith, h, length-swapped slots i j) in
        rw (value_at-swapped slots i j n below) (elim (Bool-cases (eqb i n)) [
          | inl here ↦ rw here (outfit.has j hj)
          | inr there ↦ elim (Bool-cases (eqb j n)) [
            | inl here ↦ rw (there, here) (outfit.has i hi)
            | inr there' ↦ rw (there, there') (outfit.has n below)
          ]
        ]);
    distinct = λ m n h k e.
        let l = length-swapped slots i j in
        let below : m < length slots = omega (arith, h, l) in
        let below' : n < length slots = omega (arith, k, l) in
        let e' =
          sym (value_at-swapped slots i j m below) ∙ e ∙ value_at-swapped slots i j n below' in
        ground (
          arith,
          e',
          outfit.distinct m n below below',
          outfit.distinct m i below hi,
          outfit.distinct m j below hj,
          outfit.distinct i n hi below',
          outfit.distinct j n hj below',
          outfit.distinct i j hi hj,
          outfit.distinct j i hj hi,
        );
  }

  -- If the slots hold different emotes that are all owned, and the new emote is owned, then what a
  -- change of emotes leaves in the slots are again different emotes that are all owned.
  pub wear-IsOutfit :
      (a : ℤ) (slots' : List ℤ) → wear a b slots ≡ some slots' → IsOutfit owned slots'
  unfolding wear wear_at
  wear-IsOutfit a slots' h = elim (Option-cases (last_place a 0 slots)) [
    | inl nowhere ↦
        let is : none ≡ some slots' = rw (← h) (rw nowhere refl) in absurd (ground arith)
    | inr (i, there) ↦
        let (i', at, below, _) = last_place-some a 0 i slots there in
        elim (Option-cases (last_place b 0 slots)) [
          | inl new ↦
              let is : some (change_at i (λ v. b) slots) ≡ some slots' =
                rw (← h) (rw (there, new) refl) in
              subst (IsOutfit owned) (ap (λ o. elim o [ none ↦ slots' | some vs ↦ vs ]) is ∙ refl)
                (replace-IsOutfit i (λ n k. last_place-none b 0 n slots new k))
          | inr (j, worn) ↦
              let (j', at', below', _) = last_place-some b 0 j slots worn in
              let is : some (swapped slots i j) ≡ some slots' = rw (← h) (rw (there, worn) refl) in
              subst (IsOutfit owned) (ap (λ o. elim o [ none ↦ slots' | some vs ↦ vs ]) is)
                (swap-IsOutfit i j (omega (arith, at, below)) (omega (arith, at', below')))
        ]
  ]
