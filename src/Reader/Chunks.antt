-- ===== src/Reader/Chunks.antt =====
-- How the bytes of a connection are cut by recv makes no difference.
use bn_bserver.Prelude.{
  ℕ, zero, suc, ◌≤◌, ◌<◌, ◌≡◌, refl, sym, ◌∙◌, Bool, true, false, List, [], ◌∷◌, ◌++◌, append_assoc,
  append-nil, length, length-append, ltb, arith, Bool-cases, inl, inr,
}
use bn_bserver.Prelude.Text.{Text, has_byte, before_byte, after_byte}
use bn_bserver.Reader.{
  max_line_bytes, Reader, reading, ended, take_lines, next_round, receive, receive_all,
}

-- The first line of bytes that have a line feed does not depend on what follows.
before_byte-more :
    (b : ℕ) (s t : Text) → has_byte b s ≡ true → before_byte b (s ++ t) ≡ before_byte b s
unfolding has_byte before_byte
before_byte-more b [] t h = ground arith
before_byte-more b (c ∷ s) t h = ground (arith, before_byte-more b s t)

after_byte-more :
    (b : ℕ) (s t : Text) → has_byte b s ≡ true → after_byte b (s ++ t) ≡ after_byte b s ++ t
unfolding has_byte after_byte
after_byte-more b [] t h = ground arith
after_byte-more b (c ∷ s) t h = ground (arith, after_byte-more b s t)

has_byte-more : (b : ℕ) (s t : Text) → has_byte b s ≡ true → has_byte b (s ++ t) ≡ true
unfolding has_byte
has_byte-more b [] t h = ground arith
has_byte-more b (c ∷ s) t h = ground (arith, has_byte-more b s t)

before_byte-long :
    (b : ℕ) (s t : Text) → has_byte b s ≡ false → length s ≤ length (before_byte b (s ++ t))
unfolding has_byte before_byte
before_byte-long b [] t h = omega arith
before_byte-long b (c ∷ s) t h = ground (arith, before_byte-long b s t)

length-after_byte : (b : ℕ) (s : Text) → has_byte b s ≡ true → length (after_byte b s) < length s
unfolding has_byte after_byte
length-after_byte b [] h = ground arith
length-after_byte b (c ∷ s) h = ground (arith, length-after_byte b s)

-- The bytes of all chunks.
abbrev pub bytes : List Text → Text
bytes [] = []
bytes (c ∷ cs) = c ++ bytes cs

module _ {ℓ} {S : Type ℓ} (process : Text → S → S) (closing : S → Bool) where
  -- Any fuel above the number of bytes gives the same.
  take_lines-fuel :
      (f g : ℕ) (p : Text) (s : S)
      → length p < f
      → length p < g
      → take_lines process closing f p s ≡ take_lines process closing g p s
  unfolding take_lines
  take_lines-fuel zero g p s h k = absurd (omega arith)
  take_lines-fuel (suc f) zero p s h k = absurd (omega arith)
  take_lines-fuel (suc f) (suc g) p s h k = elim (Bool-cases (has_byte 10 p)) [
    | inl has ↦
        let less = length-after_byte 10 p has in
        rw (
          has,
          take_lines-fuel f g (after_byte 10 p) (process (before_byte 10 p ++ 10 ∷ []) s)
              (omega arith) (omega arith),
        )
    | inr hasnt ↦ rw hasnt
  ]

  -- Too many pending bytes end the loop, whether a line feed follows or not.
  overlong :
      (f : ℕ) (p d : Text) (s : S)
      → has_byte 10 p ≡ false
      → ltb max_line_bytes (length p) ≡ true
      → next_round (take_lines process closing (suc f) (p ++ d) s) ≡ ended s
  unfolding next_round take_lines
  overlong f p d s none long = elim (Bool-cases (has_byte 10 (p ++ d))) [
    | inl has ↦
        let more : ltb max_line_bytes (length (before_byte 10 (p ++ d))) ≡ true =
          ground (arith, before_byte-long 10 p d none) in
        rw (has, more)
    | inr hasnt ↦
        let more : ltb max_line_bytes (length (p ++ d)) ≡ true =
          ground (arith, length-append p d) in
        rw (hasnt, more)
  ]

  take_lines-none :
      (f : ℕ) (p : Text) (s : S)
      → has_byte 10 p ≡ false
      → take_lines process closing (suc f) p s ≡ (p, s, false)
  unfolding take_lines
  take_lines-none f p s none = rw none

  -- The rest of the bytes, behind the pending ones that have no line feed.
  receive-rest :
      (f : ℕ) (p d : Text) (s : S)
      → closing s ≡ false
      → has_byte 10 p ≡ false
      → length (p ++ d) < f
      → next_round (take_lines process closing f (p ++ d) s)
        ≡ receive process closing d (next_round (p, s, false))
  unfolding next_round receive
  receive-rest zero p d s going none enough = absurd (omega arith)
  receive-rest (suc f) p d s going none enough = elim (Bool-cases (ltb max_line_bytes (length p))) [
    | inl long ↦ rw long (overlong f p d s none long)
    | inr short ↦ rw (
      short,
      going,
      take_lines-fuel (suc f) (suc (length (p ++ d))) (p ++ d) s enough (omega arith),
    )
  ]

  receive-lines :
      (f g : ℕ) (p d : Text) (s : S)
      → closing s ≡ false
      → length (p ++ d) < f
      → length p < g
      → next_round (take_lines process closing f (p ++ d) s)
        ≡ receive process closing d (next_round (take_lines process closing g p s))
  unfolding take_lines next_round receive
  receive-lines f zero p d s going enough many = absurd (omega arith)
  receive-lines zero (suc g) p d s going enough many = absurd (omega arith)
  receive-lines (suc f) (suc g) p d s going enough many = elim (Bool-cases (has_byte 10 p)) [
    | inr hasnt ↦ rw (take_lines-none g p s hasnt) (receive-rest (suc f) p d s going hasnt enough)
    | inl has ↦
        rw (has, has_byte-more 10 p d has, before_byte-more 10 p d has, after_byte-more 10 p d has)
          (elim (Bool-cases (ltb max_line_bytes (length (before_byte 10 p)))) [
            | inl long ↦ rw long
            | inr short ↦
                let s' : S = process (before_byte 10 p ++ 10 ∷ []) s in
                elim (Bool-cases (closing s')) [
                  | inl stopped ↦ rw (short, stopped)
                  | inr goes ↦
                      let less = length-after_byte 10 p has in
                      rw (short, goes)
                        (receive-lines f g (after_byte 10 p) d s' goes
                          (omega (arith, length-append p d, length-append (after_byte 10 p) d))
                          (omega arith))
                ]
          ])
  ]

  -- A chunk that arrives in two parts.
  receive-append :
      (c d : Text) (r : Reader S)
      → receive process closing (c ++ d) r ≡ receive process closing d (receive process closing c r)
  unfolding receive
  receive-append c d (ended s) = refl
  receive-append c d (reading p s) = elim (Bool-cases (closing s)) [
    | inl stopped ↦ rw stopped
    | inr going ↦
        rw (going, sym (append_assoc p c d))
          (receive-lines (suc (length ((p ++ c) ++ d))) (suc (length (p ++ c))) (p ++ c) d s going
            (omega arith) (omega arith))
  ]

  receive_all-bytes :
      (c : Text) (cs : List Text) (r : Reader S)
      → receive_all process closing (c ∷ cs) r ≡ receive process closing (bytes (c ∷ cs)) r
  unfolding receive_all
  receive_all-bytes c [] r = rw (append-nil c)
  receive_all-bytes c (e ∷ cs) r =
      receive_all-bytes e cs (receive process closing c r)
      ∙ sym (receive-append c (bytes (e ∷ cs)) r)

  -- Two ways to cut the same bytes into chunks, neither of them without a chunk, lead to the same: the lines
  -- that are processed, the state, the pending bytes, and whether the loop has ended.
  pub receive_all-cut :
      (c e : Text) (cs es : List Text) (r : Reader S)
      → bytes (c ∷ cs) ≡ bytes (e ∷ es)
      → receive_all process closing (c ∷ cs) r ≡ receive_all process closing (e ∷ es) r
  receive_all-cut c e cs es r same =
      receive_all-bytes c cs r ∙ (rw same refl ∙ sym (receive_all-bytes e es r))
