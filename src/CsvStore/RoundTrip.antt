-- ===== src/CsvStore/RoundTrip.antt =====
-- Decode of what Encode wrote.
use bn_bserver.Prelude.{
  ℕ, zero, suc, ◌+◌, ◌≤◌, ◌<◌, ◌≡◌, refl, ap, ◌∙◌, sym, Bool, true, false, ◌&&◌, Option, none, some,
  List, [], ◌∷◌, ◌++◌, arith, All, All-append, eqb_iff, length, take, drop, min, length-append,
  take-length-append, drop-length-append, append_assoc, append-nil, eqb, leb, Bool-cases,
  Option-cases, inl, inr, if◌then◌else◌, ◌⊎◌, le→leb,
}
use bn_bserver.Prelude.Text.{Text, ◌==◌, text_lt, getline, getline-append, has_byte}
use bn_bserver.Prelude.Decimal.{to_string, stoull}
use bn_bserver.Prelude.Decimal.RoundTrip.{stoull-to_string, has_byte-to_string}
use bn_bserver.CsvStore.{
  Images, ok, allowed, csv_names, entry_text, encode_entries, encode, decode_entry, decode_entries,
  decode, gcount_after, max_image, magic, has_key, ◌>>=◌, refuse_empty,
}
use bn_bserver.CsvStore.Order.{Below, All-name_in, emplace-Below, lookup-Below}

-- Sorted by name, each name once, as a std::map is.
abbrev pub IsSorted : Images → Type 0
IsSorted [] = Unit
IsSorted (e ∷ m) = All (λ f. text_lt e.0 f.0 ≡ true) m × IsSorted m

-- A file that may be replaced, with contents within the limit and not empty.
abbrev pub IsImage : Text × Text → Type 0
IsImage (name, contents) =
    (allowed name ≡ true) × (0 < length contents) × (length contents ≤ max_image)

-- The name of an image holds no line feed.
pub allowed-has_byte : (n : Text) → allowed n ≡ true → has_byte 10 n ≡ false
unfolding allowed has_byte
allowed-has_byte n e =
    All-name_in (λ m. has_byte 10 m ≡ false) csv_names n
      (refl, (refl, (refl, (refl, (refl, (refl, (refl, tt))))))) e

-- The line with the size and the contents behind a name.
abbrev pub body_text : Text → Text → Text
body_text contents rest = to_string (length contents) ++ 10 ∷ (contents ++ rest)

pub size_line :
    (contents rest : Text)
    → getline 10 (body_text contents rest) ≡ some (to_string (length contents), contents ++ rest)
size_line contents rest =
    getline-append 10 (to_string (length contents)) (contents ++ rest)
      (has_byte-to_string 10 (length contents) (unfold bn_bserver.Prelude.Decimal.is_digit in refl))

gcount_fits :
    (count : ℕ) (contents rest : Text)
    → 0 < length contents
    → gcount_after count (length contents) (length (contents ++ rest)) ≡ length contents
unfolding gcount_after
gcount_fits count contents rest h = ground (arith, length-append contents rest)

pub has_key-Below : (n : Text) (done : Images) → Below n done → has_key n done ≡ false
has_key-Below n done b = rw (lookup-Below n done b, has_key)

-- An image is read back, behind images with smaller names and whatever the last count was.
pub decode_entry-body_text :
    (count : ℕ) (done : Images) (n c rest : Text)
    → IsImage (n, c)
    → Below n done
    → decode_entry count done n (body_text c rest) ≡ ok (length c, done ++ (n, c) ∷ [], rest)
unfolding decode_entry
decode_entry-body_text count done n c rest h b = rw (
  h.0,
  has_key-Below n done b,
  size_line c rest,
  stoull-to_string (length c) (omega arith),
  le→leb (length c) max_image h.2,
  gcount_fits count c rest h.1,
  (eqb_iff (length c) (length c)).1 refl,
  emplace-Below n (take (length c) (c ++ rest)) done b,
  take-length-append c rest,
  drop-length-append c rest,
)

Below-append :
    (k n c : Text) (done : Images)
    → Below k done
    → text_lt n k ≡ true
    → Below k (done ++ (n, c) ∷ [])
Below-append k n c done b h = All-append (λ e. text_lt e.0 k ≡ true) done ((n, c) ∷ []) b (h, tt)

-- `done` stands before every name of `m`.
abbrev pub Before : Images → Images → Type 0
Before done m = All (λ e. Below e.0 done) m

pub Before-append :
    (n c : Text) (done m : Images)
    → Before done m
    → All (λ f. text_lt n f.0 ≡ true) m
    → Before (done ++ (n, c) ∷ []) m
Before-append n c done [] b s = tt
Before-append n c done ((k, v) ∷ m) b s =
    (Below-append k n c done b.0 s.0, Before-append n c done m b.1 s.1)

pub encode_entries-cons :
    (n c s : Text) (m : Images)
    → encode_entries ((n, c) ∷ m) ≡ some s
    → (rest : Text) × (encode_entries m ≡ some rest) × (s ≡ entry_text n c rest)
unfolding encode_entries
encode_entries-cons n c s m e = elim (Option-cases (encode_entries m)) [
  | inl nothing ↦ absurd (ground arith)
  | inr (rest, p) ↦ (rest, p, ground arith)
]

pub length-entry_text : (n c rest : Text) → length rest < length (entry_text n c rest)
unfolding entry_text
length-entry_text n c rest = omega (
  arith,
  length-append n (10 ∷ body_text c rest),
  length-append (to_string (length c)) (10 ∷ (c ++ rest)),
  length-append c rest,
)

-- One round of the loop over one entry.
pub decode_entries-entry_text :
    (f count : ℕ) (done : Images) (n c rest : Text)
    → IsImage (n, c)
    → Below n done
    → decode_entries (suc f) count done (entry_text n c rest)
      ≡ decode_entries f (length c) (done ++ (n, c) ∷ []) rest
unfolding decode_entries entry_text
decode_entries-entry_text f count done n c rest h b = rw (
  getline-append 10 n (body_text c rest) (allowed-has_byte n h.0),
  decode_entries,
  decode_entry-body_text count done n c rest h b,
)

decode_entries-nil : (f count : ℕ) (done : Images) → decode_entries (suc f) count done [] ≡ ok done
unfolding decode_entries getline
decode_entries-nil f count done = refl

-- The loop reads back what was written, behind what it has read.
decode-encode_entries :
    (f count : ℕ) (done m : Images) (s : Text)
    → IsSorted m
    → All IsImage m
    → Before done m
    → encode_entries m ≡ some s
    → length s < f
    → decode_entries f count done s ≡ ok (done ++ m)
decode-encode_entries zero count done m s so im b e enough = absurd (omega arith)
decode-encode_entries (suc f) count done [] s so im b e enough =
    let p : [] ≡ s = unfold encode_entries in ground arith in
    rw (← p, append-nil) (decode_entries-nil f count done)
decode-encode_entries (suc f) count done ((n, c) ∷ m) s so im b e enough =
    let (rest, p, q) = encode_entries-cons n c s m e in
    let again : decode_entries f (length c) (done ++ (n, c) ∷ []) rest
        ≡ ok ((done ++ (n, c) ∷ []) ++ m) =
      decode-encode_entries f (length c) (done ++ (n, c) ∷ []) m rest so.1 im.1
        (Before-append n c done m b.1 so.0) p
        (omega (arith, ap length q, length-entry_text n c rest)) in
    rw (q, decode_entries-entry_text f count done n c rest im.0 b.0, again, append_assoc)

pub Before-nil : (m : Images) → Before [] m
Before-nil [] = tt
Before-nil (e ∷ m) = (tt, Before-nil m)

pub decode-magic :
    (s : Text)
    → decode (magic ++ 10 ∷ s) ≡ (decode_entries (suc (length s)) 0 [] s >>= refuse_empty)
unfolding decode has_byte ◌==◌
decode-magic s = rw (getline-append 10 magic s refl)

-- Decode gives back a sorted map of images that is not empty.
pub decode-encode :
    (e : Text × Text) (m : Images) (bytes : Text)
    → IsSorted (e ∷ m)
    → All IsImage (e ∷ m)
    → encode (e ∷ m) ≡ some bytes
    → decode bytes ≡ ok (e ∷ m)
unfolding encode
decode-encode e m bytes so im h = elim (Option-cases (encode_entries (e ∷ m))) [
  | inl nothing ↦ absurd (ground arith)
  | inr (s, p) ↦
      let q : magic ++ 10 ∷ s ≡ bytes = ground arith in
      let loop : decode_entries (suc (length s)) 0 [] s ≡ ok (e ∷ m) =
        decode-encode_entries (suc (length s)) 0 [] (e ∷ m) s so im (Before-nil (e ∷ m)) p
          (omega arith) in
      rw (← q, decode-magic s, loop)
]

encode_entries-total : (m : Images) → All IsImage m → (s : Text) × (encode_entries m ≡ some s)
unfolding encode_entries
encode_entries-total [] im = ([], refl)
encode_entries-total ((n, c) ∷ m) im =
    let (rest, p) = encode_entries-total m im.1 in (entry_text n c rest, rw (p, im.0.0))

-- Encode throws for no map of images.
pub encode-total : (m : Images) → All IsImage m → (bytes : Text) × (encode m ≡ some bytes)
unfolding encode
encode-total m im = let (s, p) = encode_entries-total m im in (magic ++ 10 ∷ s, rw p)
