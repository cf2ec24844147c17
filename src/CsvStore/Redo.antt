-- ===== src/CsvStore/Redo.antt =====
-- Working off a journal (TeamOFYServer/CsvStore.h).
use bn_bserver.Prelude.{
  ℕ, zero, suc, ◌<◌, ◌≡◌, refl, ◌∙◌, true, false, Option, none, some, [], ◌∷◌, arith, All, length,
  Bool-cases, Option-cases, inl, inr, if◌then◌else◌, ◌⊎◌,
}
use bn_bserver.Prelude.Text.{Text, ◌==◌, text_lt, eq_iff}
use bn_bserver.Prelude.Assoc.{lookup}
use bn_bserver.CsvStore.{
  Images, ok, allowed, csv_names, decode, Disk, journal, write, remove, replace_all, retire,
  recover,
}
use bn_bserver.CsvStore.Order.{text_lt-ne, All-name_in}
use bn_bserver.CsvStore.RoundTrip.{IsSorted, IsImage}

-- The files after a batch: a name of the batch has its new contents, the journal is gone, and every
-- other file is as it was.
abbrev or_else : Option Text → Option Text → Option Text
or_else none o = o
or_else (some b) o = some b

abbrev pub after : Images → Disk → Disk
after m d p = if journal == p then none else or_else (lookup p m) (d p)

allowed-ne-journal : (n : Text) → allowed n ≡ true → (n == journal) ≡ false
unfolding allowed ◌==◌
allowed-ne-journal n h =
    All-name_in (λ m. (m == journal) ≡ false) csv_names n
      (refl, (refl, (refl, (refl, (refl, (refl, (refl, tt))))))) h

-- What a run of the loop leaves of the files.
replace_all-keeps :
    (k : ℕ) (m : Images) (d : Disk) (p : Text) → lookup p m ≡ none → (replace_all k m d).0 p ≡ d p
unfolding replace_all write lookup
replace_all-keeps k [] d p h = refl
replace_all-keeps zero (e ∷ m) d p h = refl
replace_all-keeps (suc k) ((n, c) ∷ m) d p h = ground (arith, replace_all-keeps k m (write n c d) p)

lookup-above : (n : Text) (m : Images) → All (λ f. text_lt n f.0 ≡ true) m → lookup n m ≡ none
unfolding lookup
lookup-above n [] h = refl
lookup-above n ((k, v) ∷ m) h =
    ground (arith, text_lt-ne n k h.0, eq_iff n k, eq_iff k n, lookup-above n m h.1)

replace_all-sets :
    (k : ℕ) (m : Images) (d : Disk) (p : Text) (left : ℕ)
    → IsSorted m
    → (replace_all k m d).1 ≡ some left
    → (replace_all k m d).0 p ≡ or_else (lookup p m) (d p)
unfolding replace_all lookup write
replace_all-sets k [] d p left so h = refl
replace_all-sets zero (e ∷ m) d p left so h = ground arith
replace_all-sets (suc k) ((n, c) ∷ m) d p left so h =
    let rest = replace_all-sets k m (write n c d) p left so.1 h in
    elim (Bool-cases (n == p)) [
      | inl same ↦
          let above : lookup p m ≡ none = rw (← (eq_iff n p).0 same) (lookup-above n m so.0) in
          ground (arith, above, rest)
      | inr other ↦ ground (arith, rest)
    ]

-- With a call for each file and one for the journal the loop comes to its end.
replace_all-finishes :
    (k : ℕ) (m : Images) (d : Disk)
    → length m < k
    → (left : ℕ) × ((replace_all k m d).1 ≡ some (suc left))
unfolding replace_all
replace_all-finishes zero m d h = absurd (omega arith)
replace_all-finishes (suc k) [] d h = (k, refl)
replace_all-finishes (suc k) ((n, c) ∷ m) d h = replace_all-finishes k m (write n c d) (omega arith)

-- A journal that was not worked off yet: `d` before the commit and `now` agree on all other files.
pub record Pending (m : Images) (d now : Disk) : Type 0 where
  pub logged : (bytes : Text) × (now journal ≡ some bytes) × (decode bytes ≡ ok m)
  pub others : (p : Text) → (journal == p) ≡ false → lookup p m ≡ none → now p ≡ d p

-- A commit that came to its end.
abbrev pub Applied : Images → Disk → Disk → Type 0
Applied m d now = (p : Text) → now p ≡ after m d p

lookup-journal : (m : Images) → All IsImage m → lookup journal m ≡ none
unfolding lookup
lookup-journal [] h = refl
lookup-journal ((n, c) ∷ m) h = ground (arith, allowed-ne-journal n h.0.0, lookup-journal m h.1)

recover-journal :
    (k : ℕ) (m : Images) (now : Disk) (bytes : Text)
    → now journal ≡ some bytes
    → decode bytes ≡ ok m
    → recover k now ≡ retire (replace_all k m now)
unfolding recover
recover-journal k m now bytes e h = rw (e, h)

retire-cases :
    (r : Disk × Option ℕ)
    → (retire r ≡ (r.0, false))
      ⊎ ((left : ℕ) × (r.1 ≡ some (suc left)) × (retire r ≡ (remove journal r.0, true)))
unfolding retire
retire-cases (d, none) = inl refl
retire-cases (d, some zero) = inl refl
retire-cases (d, some (suc left)) = inr (left, refl, refl)

retire-some :
    (r : Disk × Option ℕ) (left : ℕ) → r.1 ≡ some (suc left) → retire r ≡ (remove journal r.0, true)
unfolding retire
retire-some (d, none) left h = absurd (ground arith)
retire-some (d, some zero) left h = absurd (ground arith)
retire-some (d, some (suc n)) left h = refl

replace_all-Pending :
    (k : ℕ) (m : Images) (d now : Disk)
    → All IsImage m
    → Pending m d now
    → Pending m d (replace_all k m now).0
replace_all-Pending k m d now im pend = record {
  logged =
      let (bytes, e, h) = pend.logged in
      (bytes, replace_all-keeps k m now journal (lookup-journal m im) ∙ e, h);
  others = λ p ne out. replace_all-keeps k m now p out ∙ pend.others p ne out;
}

remove-Applied :
    (k left : ℕ) (m : Images) (d now : Disk)
    → IsSorted m
    → Pending m d now
    → (replace_all k m now).1 ≡ some left
    → Applied m d (remove journal (replace_all k m now).0)
unfolding remove
remove-Applied k left m d now so pend e p = elim (Bool-cases (journal == p)) [
  | inl same ↦ rw same
  | inr other ↦ rw other (elim (Option-cases (lookup p m)) [
    | inl out ↦ rw out (replace_all-keeps k m now p out ∙ pend.others p other out)
    | inr (b, held) ↦ rw held (replace_all-sets k m now p left so e ∙ rw held)
  ])
]

-- One recovery, however far it gets: the journal stays, or everything was applied.
pub recover-Pending :
    (k : ℕ) (m : Images) (d now : Disk)
    → IsSorted m
    → All IsImage m
    → Pending m d now
    → (Pending m d (recover k now).0 × ((recover k now).1 ≡ false))
      ⊎ (Applied m d (recover k now).0 × ((recover k now).1 ≡ true))
recover-Pending k m d now so im pend =
    let (bytes, e, h) = pend.logged in
    elim (retire-cases (replace_all k m now)) [
      | inl stays ↦
          rw (recover-journal k m now bytes e h, stays)
            (inl (replace_all-Pending k m d now im pend, refl))
      | inr (left, all, gone) ↦
          rw (recover-journal k m now bytes e h, gone)
            (inr (remove-Applied k (suc left) m d now so pend all, refl))
    ]

-- With calls enough a recovery comes to its end.
pub recover-finishes :
    (k : ℕ) (m : Images) (d now : Disk)
    → IsSorted m
    → Pending m d now
    → length m < k
    → Applied m d (recover k now).0 × ((recover k now).1 ≡ true)
recover-finishes k m d now so pend enough =
    let (bytes, e, h) = pend.logged in
    let (left, all) = replace_all-finishes k m now enough in
    rw (recover-journal k m now bytes e h, retire-some (replace_all k m now) left all)
      (remove-Applied k (suc left) m d now so pend all, refl)
