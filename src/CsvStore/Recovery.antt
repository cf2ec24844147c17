-- ===== src/CsvStore/Recovery.antt =====
-- The commit protocol under crashes: all of a batch or nothing of it.
use bn_bserver.Prelude.{
  ℕ, zero, suc, ◌<◌, ◌≡◌, refl, ◌∙◌, Bool, true, false, none, some, List, [], ◌∷◌, arith, All,
  length, inl, inr,
}
use bn_bserver.Prelude.Text.{Text, eq_refl}
use bn_bserver.CsvStore.{
  Images, ok, encode, decode, Disk, journal, write, recover, Committed, accepted, refused, thrown,
  died, finish, commit_journal, commit, restarts,
}
use bn_bserver.CsvStore.RoundTrip.{IsSorted, IsImage, decode-encode, encode-total}
use bn_bserver.CsvStore.Redo.{Applied, Pending, recover-Pending, recover-finishes}

-- Without a journal a recovery does nothing.
recover-none : (k : ℕ) (now : Disk) → now journal ≡ none → recover k now ≡ (now, true)
unfolding recover
recover-none k now e = rw e

Applied-journal : (m : Images) (d now : Disk) → Applied m d now → now journal ≡ none
Applied-journal m d now h = h journal ∙ rw (eq_refl journal)

restarts-none : (ks : List ℕ) (now : Disk) → now journal ≡ none → restarts ks now ≡ now
unfolding restarts
restarts-none [] now e = refl
restarts-none (k ∷ ks) now e = rw (recover-none k now e) (restarts-none ks now e)

-- Any number of starts, each broken off anywhere, and then one that is not.
restarts-Applied :
    (ks : List ℕ) (last : ℕ) (m : Images) (d now : Disk)
    → IsSorted m
    → All IsImage m
    → length m < last
    → Pending m d now
    → Applied m d (recover last (restarts ks now)).0
unfolding restarts
restarts-Applied [] last m d now so im enough pend =
    (recover-finishes last m d now so pend enough).0
restarts-Applied (k ∷ ks) last m d now so im enough pend =
    elim (recover-Pending k m d now so im pend) [
      | inl (still, _) ↦ restarts-Applied ks last m d (recover k now).0 so im enough still
      | inr (applied, _) ↦
          let gone = Applied-journal m d (recover k now).0 applied in
          rw (restarts-none ks (recover k now).0 gone, recover-none last (recover k now).0 gone)
            applied
    ]

-- The journal that a commit writes.
write-Pending :
    (m : Images) (bytes : Text) (d : Disk)
    → decode bytes ≡ ok m
    → Pending m d (write journal bytes d)
unfolding write
write-Pending m bytes d h = record {
  logged = (bytes, rw (eq_refl journal), h);
  others = λ p ne out. rw ne;
}

-- What the files must be in the end, by what the commit reported.
abbrev pub Settled : Committed → Images → Disk → Disk → Type 0
Settled accepted m d now = Applied m d now
Settled died m d now = Applied m d now
Settled refused m d now = (p : Text) → now p ≡ d p
Settled thrown m d now = ⊥

module _ (e : Text × Text) (m : Images) (d : Disk) where
  commit-bytes :
      (k : ℕ) (bytes : Text)
      → encode (e ∷ m) ≡ some bytes
      → commit k (e ∷ m) d ≡ commit_journal k bytes d
  unfolding commit
  commit-bytes k bytes h = rw h

  finish-Settled :
      (r : Disk × Bool) (now : Disk) → Applied (e ∷ m) d now → Settled (finish r).1 (e ∷ m) d now
  unfolding finish
  finish-Settled (now', true) now h = h
  finish-Settled (now', false) now h = h

  finish-disk : (r : Disk × Bool) → (finish r).0 ≡ r.0
  unfolding finish
  finish-disk (now, true) = refl
  finish-disk (now, false) = refl

  commit_journal-Settled :
      (k : ℕ) (bytes : Text) (ks : List ℕ) (last : ℕ)
      → IsSorted (e ∷ m)
      → All IsImage (e ∷ m)
      → decode bytes ≡ ok (e ∷ m)
      → d journal ≡ none
      → suc (length m) < last
      → Settled
          (commit_journal k bytes d).1
          (e ∷ m)
          d
          (recover last (restarts ks (commit_journal k bytes d).0)).0
  unfolding commit_journal restarts
  commit_journal-Settled zero bytes ks last so im h clean enough =
      λ p. rw (restarts-none ks d clean, recover-none last d clean)
  commit_journal-Settled (suc k) bytes ks last so im h clean enough =
      let r = recover k (write journal bytes d) in
      rw (finish-disk r) (
        finish-Settled r _ (
          restarts-Applied (k ∷ ks) last (e ∷ m) d (write journal bytes d) so im enough
            (write-Pending (e ∷ m) bytes d h)))

  -- A commit of a sorted batch of images into files without a journal, broken off at any call, then
  -- any number of starts, each broken off at any call, then one start that is not: if the commit
  -- returned false, every file is as before; otherwise every file of the batch has its new contents,
  -- the journal is gone and every other file is as before. The commit does not throw.
  pub commit-Settled :
      (k : ℕ) (ks : List ℕ) (last : ℕ)
      → IsSorted (e ∷ m)
      → All IsImage (e ∷ m)
      → d journal ≡ none
      → suc (length m) < last
      → Settled
          (commit k (e ∷ m) d).1
          (e ∷ m)
          d
          (recover last (restarts ks (commit k (e ∷ m) d).0)).0
  commit-Settled k ks last so im clean enough =
      let (bytes, h) = encode-total (e ∷ m) im in
      rw (commit-bytes k bytes h) (
        commit_journal-Settled k bytes ks last so im (decode-encode e m bytes so im h) clean enough)

  accepted-true : (r : Disk × Bool) → (finish r).1 ≡ accepted → r.1 ≡ true
  unfolding finish
  accepted-true (now, true) h = refl
  accepted-true (now, false) h = absurd (ground arith)

  true-accepted : (r : Disk × Bool) → r.1 ≡ true → finish r ≡ (r.0, accepted)
  unfolding finish
  true-accepted (now, true) h = refl
  true-accepted (now, false) h = absurd (ground arith)

  -- When the files of a batch are sorted and allowed, none is empty and none is over 64 MiB, and there is a call for
  -- the journal, one for each file and one to remove the journal, then a commit of the batch is accepted, and the
  -- files are already the new ones.
  pub commit-accepted :
      (k : ℕ)
      → IsSorted (e ∷ m)
      → All IsImage (e ∷ m)
      → suc (suc (length m)) < k
      → ((commit k (e ∷ m) d).1 ≡ accepted) × Applied (e ∷ m) d (commit k (e ∷ m) d).0
  unfolding commit_journal restarts
  commit-accepted zero so im enough = absurd (omega arith)
  commit-accepted (suc k) so im enough =
      let (bytes, h) = encode-total (e ∷ m) im in
      let (applied, well) =
        recover-finishes k (e ∷ m) d (write journal bytes d) so
          (write-Pending (e ∷ m) bytes d (decode-encode e m bytes so im h)) (omega arith) in
      rw
        (
          commit-bytes (suc k) bytes h,
          commit_journal,
          true-accepted (recover k (write journal bytes d)) well,
        )
        (refl, applied)
