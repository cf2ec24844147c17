-- ===== src/Play/Forwarding.antt =====
-- The text that WEAPON_ATTACK (TeamOFYServer/ClientHandler.cpp) forwards, and the ends of the messages.
use bn_bserver.Prelude.{
  ◌≡◌, ◌⊎◌, inl, inr, refl, sym, ◌∙◌, ap, true, Option, none, some, [], ◌∷◌, ◌++◌, arith, eqb,
  eqb_iff, append_assoc, Bool-cases, Option-cases,
}
use bn_bserver.Prelude.Text.{Text, codes, has_byte, before_byte, after_byte}
use bn_bserver.Play.{cut, rotation, attack_text}

halves_join :
    (t : Text) → has_byte b'|' t ≡ true → t ≡ before_byte b'|' t ++ b'|' ∷ after_byte b'|' t
unfolding has_byte before_byte after_byte
halves_join [] h = absurd (ground arith)
halves_join (c ∷ t) h = elim (Bool-cases (eqb c b'|')) [
  | inl same ↦ rw same (ap (λ d. d ∷ t) ((eqb_iff c b'|').0 same))
  | inr other ↦ rw other (ap (λ u. c ∷ u) (halves_join t (ground arith)))
]

-- A text that is cut is its two parts with the bar between them.
cut_join : (s before after : Text) → cut s ≡ some (before, after) → s ≡ before ++ b'|' ∷ after
unfolding cut
cut_join s before after h = elim (Bool-cases (has_byte b'|' s)) [
  | inr lacks ↦
      let nothing : Option (Text × Text) = none in
      let is : nothing ≡ some (before, after) = rw (← h) (rw lacks refl) in absurd (ground arith)
  | inl has ↦
      let is : some (before_byte b'|' s, after_byte b'|' s) ≡ some (before, after) =
        rw (← h) (rw has refl) in
      let parts : Text × Text = (before_byte b'|' s, after_byte b'|' s) in
      let same : parts ≡ (before, after) =
        ap (λ o. elim o [ none ↦ (before, after) | some p ↦ p ]) is in
      halves_join s has ∙ ap (λ p. p.0 ++ b'|' ∷ p.1) same
]

some_same : (s t : Text) → some s ≡ some t → s ≡ t
some_same s t h = ap (λ o. elim o [ none ↦ s | some u ↦ u ]) h

-- Three fields with bars behind them, and a rest.
abbrev pub fields_join : Text → Text → Text → Text → Text
fields_join a b c rest = a ++ b'|' ∷ (b ++ b'|' ∷ (c ++ b'|' ∷ rest))

fields_join_assoc :
    (a b c rest end : Text) → fields_join a b c rest ++ end ≡ fields_join a b c (rest ++ end)
fields_join_assoc a b c rest end =
    append_assoc a (b'|' ∷ (b ++ b'|' ∷ (c ++ b'|' ∷ rest))) end
    ∙ ap (λ s. a ++ b'|' ∷ s)
        (append_assoc b (b'|' ∷ (c ++ b'|' ∷ rest)) end
          ∙ ap (λ s. b ++ b'|' ∷ s) (append_assoc c (b'|' ∷ rest) end))

-- The end of a request, and what is forwarded of it.
rotation-cases :
    (rest : Text)
    → (rotation (cut rest) rest ≡ rest) ⊎ (rest ≡ rotation (cut rest) rest ++ codes "|")
rotation-cases rest = elim (Option-cases (cut rest)) [
  | inl lacks ↦ inl (rw lacks refl)
  | inr ((y, laser), has) ↦ with_laser y laser has
]
  where
    with_laser :
        (y laser : Text)
        → cut rest ≡ some (y, laser)
        → (rotation (cut rest) rest ≡ rest) ⊎ (rest ≡ rotation (cut rest) rest ++ codes "|")
    with_laser y [] has = inr (rw has (cut_join rest y [] has))
    with_laser y (c ∷ laser) has = inl (rw has (sym (cut_join rest y (c ∷ laser) has)))

-- Three bars in a request are enough to forward it.
pub attack_text-fields :
    (input t : Text)
    → attack_text input ≡ some t
    → (a b c rest : Text) × (input ≡ fields_join a b c rest)
      × (t ≡ codes "WEAPON_ATTACK|" ++ fields_join a b c (rotation (cut rest) rest ++ codes "\n"))
unfolding attack_text
attack_text-fields input t h = elim (Option-cases (cut input)) [
  | inl lacks ↦ let is : none ≡ some t = rw (← h) (rw lacks refl) in absurd (ground arith)
  | inr ((a, r1), c1) ↦ elim (Option-cases (cut r1)) [
    | inl lacks ↦ let is : none ≡ some t = rw (← h) (rw (c1, lacks) refl) in absurd (ground arith)
    | inr ((b, r2), c2) ↦ elim (Option-cases (cut r2)) [
      | inl lacks ↦
          let is : none ≡ some t = rw (← h) (rw (c1, c2, lacks) refl) in absurd (ground arith)
      | inr ((c, rest), c3) ↦
          let is : some (
                codes "WEAPON_ATTACK|"
                ++ fields_join a b c (rotation (cut rest) rest ++ codes "\n"))
              ≡ some t =
            rw (← h) (rw (c1, c2, c3) refl) in
          (
            a,
            b,
            c,
            rest,
            cut_join input a r1 c1
                ∙ ap (λ s. a ++ b'|' ∷ s)
                    (cut_join r1 b r2 c2 ∙ ap (λ s. b ++ b'|' ∷ s) (cut_join r2 c rest c3)),
            sym (some_same _ t is),
          )
    ]
  ]
]

-- What WEAPON_ATTACK forwards is the request itself with a line feed behind it, whatever its fields
-- are, except that a bar at its end can be left out.
pub attack_text-forwards :
    (input t : Text)
    → attack_text input ≡ some t
    → (t ≡ codes "WEAPON_ATTACK|" ++ (input ++ codes "\n"))
      ⊎ ((front : Text) × (input ≡ front ++ codes "|")
          × (t ≡ codes "WEAPON_ATTACK|" ++ (front ++ codes "\n")))
attack_text-forwards input t h =
    let (a, b, c, rest, parts, made) = attack_text-fields input t h in
    elim (rotation-cases rest) [
      | inl whole ↦ inl (
          made
          ∙ ap (λ s. codes "WEAPON_ATTACK|" ++ s)
              (ap (λ r. fields_join a b c (r ++ codes "\n")) whole
                ∙ sym (fields_join_assoc a b c rest (codes "\n"))
                ∙ ap (λ s. s ++ codes "\n") (sym parts)))
      | inr bar ↦
          let y = rotation (cut rest) rest in
          inr (
            fields_join a b c y,
            parts ∙ ap (fields_join a b c) bar ∙ sym (fields_join_assoc a b c y (codes "|")),
            made
                ∙ ap (λ s. codes "WEAPON_ATTACK|" ++ s)
                    (sym (fields_join_assoc a b c y (codes "\n"))),
          )
    ]
