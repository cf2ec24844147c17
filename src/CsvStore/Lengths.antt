-- ===== src/CsvStore/Lengths.antt =====
-- Batches that Encode writes and Decode refuses: an image above the limit, and an empty image behind
-- one with contents. The process stops on such a batch, and so does every later start.
use bn_bserver.Prelude.{
  ℕ, zero, suc, ◌<◌, ◌-◌, ◌^◌, ◌≡◌, refl, ap, true, false, some, List, [], ◌∷◌, ◌++◌, arith, All,
  length, Option-cases, inl, inr, eqb, leb, append-nil, append_assoc,
}
use bn_bserver.Prelude.Text.{Text, eq_refl, getline-append}
use bn_bserver.Prelude.Decimal.RoundTrip.{stoull-to_string}
use bn_bserver.CsvStore.{
  Images, err, DecodeError, incomplete, invalid_length, allowed, entry_text, encode_entries, encode,
  decode_entry, decode_entries, decode, gcount_after, max_image, magic, Disk, journal, write,
  recover, died, finish, commit_journal, commit, restarts,
}
use bn_bserver.CsvStore.Order.{Below}
use bn_bserver.CsvStore.RoundTrip.{
  IsSorted, IsImage, Before, Before-append, Before-nil, body_text, size_line, has_key-Below,
  allowed-has_byte, encode_entries-cons, length-entry_text, decode_entries-entry_text, decode-magic,
}

-- An entry that makes the round fail makes the loop fail.
decode_entries-err :
    (f count : ℕ) (done : Images) (n c rest : Text) (e : DecodeError)
    → allowed n ≡ true
    → decode_entry count done n (body_text c rest) ≡ err e
    → decode_entries (suc f) count done (entry_text n c rest) ≡ err e
unfolding decode_entries entry_text
decode_entries-err f count done n c rest e ok_name h =
    rw (getline-append 10 n (body_text c rest) (allowed-has_byte n ok_name), decode_entries, h)

decode_entry_oversized :
    (count : ℕ) (done : Images) (n c rest : Text)
    → allowed n ≡ true
    → Below n done
    → max_image < length c
    → length c < 2 ^ 64
    → decode_entry count done n (body_text c rest) ≡ err invalid_length
unfolding decode_entry
decode_entry_oversized count done n c rest h b big small =
    let over : leb (length c) max_image ≡ false = ground arith in
    rw (h, has_key-Below n done b, size_line c rest, stoull-to_string (length c) small, over)

decode_entry_empty :
    (count : ℕ) (done : Images) (n rest : Text)
    → allowed n ≡ true
    → Below n done
    → 0 < count
    → decode_entry count done n (body_text [] rest) ≡ err incomplete
unfolding decode_entry gcount_after
decode_entry_empty count done n rest h b pos =
    let stale : eqb count 0 ≡ false = ground arith in
    rw (h, has_key-Below n done b, size_line [] rest, stoull-to_string 0 (omega arith), stale)

-- The loop over good images in front of `ys` comes to `ys`.
decode_entries-prefix :
    (f count : ℕ) (done xs ys : Images) (s : Text)
    → IsSorted (xs ++ ys)
    → All IsImage xs
    → Before done (xs ++ ys)
    → encode_entries (xs ++ ys) ≡ some s
    → length s < f
    → (f' : ℕ) × (count' : ℕ) × (rest : Text) × (encode_entries ys ≡ some rest)
      × (length rest < f')
      × IsSorted ys
      × Before (done ++ xs) ys
      × (decode_entries f count done s ≡ decode_entries f' count' (done ++ xs) rest)
decode_entries-prefix f count done [] ys s so im b e enough =
    rw append-nil (f, count, s, e, enough, so, b, refl)
decode_entries-prefix zero count done ((n, c) ∷ xs) ys s so im b e enough = absurd (omega arith)
decode_entries-prefix (suc f) count done ((n, c) ∷ xs) ys s so im b e enough =
    let (rest, p, q) = encode_entries-cons n c s (xs ++ ys) e in
    let (f', count', rest', p', enough', so', b', go) =
      decode_entries-prefix f (length c) (done ++ (n, c) ∷ []) xs ys rest so.1 im.1
        (Before-append n c done (xs ++ ys) b.1 so.0) p
        (omega (arith, ap length q, length-entry_text n c rest)) in
    let b'' : Before (done ++ (n, c) ∷ xs) ys = rw (append_assoc done ((n, c) ∷ []) xs) at b' in
    let go' : decode_entries f (length c) (done ++ (n, c) ∷ []) rest
        ≡ decode_entries f' count' (done ++ (n, c) ∷ xs) rest' =
      rw (append_assoc done ((n, c) ∷ []) xs) at go in
    (
      f',
      count',
      rest',
      p',
      enough',
      so',
      b'',
      rw (q, decode_entries-entry_text f count done n c rest im.0 b.0) go',
    )

decode-err :
    (e : Text × Text) (m : Images) (bytes : Text) (d : DecodeError)
    → encode (e ∷ m) ≡ some bytes
    → ((s : Text)
        → encode_entries (e ∷ m) ≡ some s
        → decode_entries (suc (length s)) 0 [] s ≡ err d)
    → decode bytes ≡ err d
unfolding encode
decode-err e m bytes d h loop = elim (Option-cases (encode_entries (e ∷ m))) [
  | inl nothing ↦ absurd (ground arith)
  | inr (s, p) ↦
      let q : magic ++ 10 ∷ s ≡ bytes = ground arith in rw (← q, decode-magic s, loop s p)
]

loop_oversized :
    (xs ys : Images) (n c s : Text)
    → IsSorted (xs ++ (n, c) ∷ ys)
    → All IsImage xs
    → allowed n ≡ true
    → max_image < length c
    → length c < 2 ^ 64
    → encode_entries (xs ++ (n, c) ∷ ys) ≡ some s
    → decode_entries (suc (length s)) 0 [] s ≡ err invalid_length
loop_oversized xs ys n c s so im h big small e =
    let (f, count, rest, p, enough, so', b, go) =
      decode_entries-prefix (suc (length s)) 0 [] xs ((n, c) ∷ ys) s so im
        (Before-nil (xs ++ (n, c) ∷ ys)) e (omega arith) in
    let (rest', p', q) = encode_entries-cons n c rest ys p in
    let more : f ≡ suc (f - 1) = omega arith in
    rw (go, q, more)
      (decode_entries-err (f - 1) count xs n c rest' invalid_length h
        (decode_entry_oversized count xs n c rest' h b.0 big small))

loop_empty :
    (xs ys : Images) (k v n s : Text)
    → IsSorted (xs ++ (k, v) ∷ (n, []) ∷ ys)
    → All IsImage xs
    → IsImage (k, v)
    → allowed n ≡ true
    → encode_entries (xs ++ (k, v) ∷ (n, []) ∷ ys) ≡ some s
    → decode_entries (suc (length s)) 0 [] s ≡ err incomplete
loop_empty xs ys k v n s so im image h e =
    let (f, count, rest, p, enough, so', b, go) =
      decode_entries-prefix (suc (length s)) 0 [] xs ((k, v) ∷ (n, []) ∷ ys) s so im
        (Before-nil (xs ++ (k, v) ∷ (n, []) ∷ ys)) e (omega arith) in
    let (rest', p', q) = encode_entries-cons k v rest ((n, []) ∷ ys) p in
    let (rest'', p'', q') = encode_entries-cons n [] rest' ys p' in
    let b' = Before-append k v xs ((n, []) ∷ ys) b.1 so'.0 in
    let more : f ≡ suc (suc (f - 2)) = omega (
      arith,
      ap length q,
      length-entry_text k v rest',
      ap length q',
      length-entry_text n [] rest'',
    ) in
    rw (go, q, more, decode_entries-entry_text (suc (f - 2)) count xs k v rest' image b.0, q')
      (decode_entries-err (f - 2) (length v) (xs ++ (k, v) ∷ []) n [] rest'' incomplete h
        (decode_entry_empty (length v) (xs ++ (k, v) ∷ []) n rest'' h b'.0 image.1))

-- A batch whose journal cannot be read again: the commit stops the process, and every later start
-- stops too and changes nothing, however many calls would succeed.
abbrev pub Bricks : Images → Disk → Type 0
Bricks m d =
    (k : ℕ) (ks : List ℕ) (last : ℕ)
    → ((commit (suc k) m d).1 ≡ died)
      × (restarts ks (commit (suc k) m d).0 ≡ (commit (suc k) m d).0)
      × ((recover last (commit (suc k) m d).0).1 ≡ false)

module _ (bytes : Text) (d : Disk) (x : DecodeError) (bad : decode bytes ≡ err x) where
  stuck : (k : ℕ) → recover k (write journal bytes d) ≡ (write journal bytes d, false)
  unfolding recover write
  stuck k = rw (eq_refl journal, bad)

  restarts_stuck : (ks : List ℕ) → restarts ks (write journal bytes d) ≡ write journal bytes d
  unfolding restarts
  restarts_stuck [] = refl
  restarts_stuck (k ∷ ks) = rw (stuck k) (restarts_stuck ks)

Bricks-err :
    (e : Text × Text) (m : Images) (d : Disk) (bytes : Text) (x : DecodeError)
    → encode (e ∷ m) ≡ some bytes
    → decode bytes ≡ err x
    → Bricks (e ∷ m) d
unfolding commit commit_journal finish
Bricks-err e m d bytes x h bad k ks last =
    rw (h, commit_journal, stuck bytes d x bad k)
      (refl, restarts_stuck bytes d x bad ks, rw (stuck bytes d x bad last))

-- A name that Encode accepts.
abbrev pub IsNamed : Text × Text → Type 0
IsNamed e = allowed e.0 ≡ true

encode_entries_named : (m : Images) → All IsNamed m → (s : Text) × (encode_entries m ≡ some s)
unfolding encode_entries
encode_entries_named [] h = ([], refl)
encode_entries_named ((n, c) ∷ m) h =
    let (rest, p) = encode_entries_named m h.1 in (entry_text n c rest, rw (p, h.0))

encode_named : (m : Images) → All IsNamed m → (bytes : Text) × (encode m ≡ some bytes)
unfolding encode
encode_named m h = let (s, p) = encode_entries_named m h in (magic ++ 10 ∷ s, rw p)

Bricks-loop :
    (xs : Images) (e : Text × Text) (ys : Images) (d : Disk) (x : DecodeError)
    → All IsNamed (xs ++ e ∷ ys)
    → ((s : Text)
        → encode_entries (xs ++ e ∷ ys) ≡ some s
        → decode_entries (suc (length s)) 0 [] s ≡ err x)
    → Bricks (xs ++ e ∷ ys) d
Bricks-loop [] e ys d x h loop =
    let (bytes, p) = encode_named (e ∷ ys) h in
    Bricks-err e ys d bytes x p (decode-err e ys bytes x p loop)
Bricks-loop (k ∷ xs) e ys d x h loop =
    let (bytes, p) = encode_named (k ∷ xs ++ e ∷ ys) h in
    Bricks-err k (xs ++ e ∷ ys) d bytes x p (decode-err k (xs ++ e ∷ ys) bytes x p loop)

IsNamed-at : (xs : Images) (e : Text × Text) (ys : Images) → All IsNamed (xs ++ e ∷ ys) → IsNamed e
IsNamed-at [] e ys h = h.0
IsNamed-at (x ∷ xs) e ys h = IsNamed-at xs e ys h.1

-- For a batch of allowed names in order, with an image of more than 64 MiB behind good images, in
-- files of any contents: once the journal is written, the commit stops the process, and every later
-- start stops too and changes no file.
pub commit_oversized :
    (xs ys : Images) (n c : Text) (d : Disk)
    → IsSorted (xs ++ (n, c) ∷ ys)
    → All IsNamed (xs ++ (n, c) ∷ ys)
    → All IsImage xs
    → max_image < length c
    → length c < 2 ^ 64
    → Bricks (xs ++ (n, c) ∷ ys) d
commit_oversized xs ys n c d so names im big small =
    Bricks-loop xs (n, c) ys d invalid_length names
      λ s p. loop_oversized xs ys n c s so im (IsNamed-at xs (n, c) ys names) big small p

-- For a batch of allowed names in order, with an empty image directly behind an image with contents,
-- in files of any contents: once the journal is written, the commit stops the process, and every
-- later start stops too and changes no file.
pub commit_empty :
    (xs ys : Images) (k v n : Text) (d : Disk)
    → IsSorted (xs ++ (k, v) ∷ (n, []) ∷ ys)
    → All IsNamed (xs ++ (k, v) ∷ (n, []) ∷ ys)
    → All IsImage xs
    → IsImage (k, v)
    → Bricks (xs ++ (k, v) ∷ (n, []) ∷ ys) d
commit_empty xs ys k v n d so names im image =
    Bricks-loop xs (k, v) ((n, []) ∷ ys) d incomplete names
      λ s p. loop_empty xs ys k v n s so im image (second xs names) p
  where
    second : (zs : Images) → All IsNamed (zs ++ (k, v) ∷ (n, []) ∷ ys) → allowed n ≡ true
    second [] h = h.1.0
    second (z ∷ zs) h = second zs h.1
