-- ===== src/CsvStore/Reports.antt =====
-- The answers of Commit (TeamOFYServer/CsvStore.h) and the files behind them.
use bn_bserver.Prelude.{
  ℕ, zero, suc, ◌≡◌, ◌⊎◌, inl, inr, refl, Bool, true, false, [], ◌∷◌, Option-cases,
}
use bn_bserver.Prelude.Text.{Text}
use bn_bserver.CsvStore.{
  Images, Disk, Committed, accepted, refused, thrown, died, commit, commit_journal, finish, encode,
  recover, write, journal,
}

-- A new disk where the commit was accepted or died, or the old one.
abbrev pub Reports : Disk → Disk × Committed → Type 0
Reports d r =
    ((d' : Disk) × (r ≡ (d', accepted)))
    ⊎ (((d' : Disk) × (r ≡ (d', died))) ⊎ ((r ≡ (d, refused)) ⊎ (r ≡ (d, thrown))))

finish-Reports : (d : Disk) (r : Disk × Bool) → Reports d (finish r)
unfolding finish
finish-Reports d (d', true) = inl (d', refl)
finish-Reports d (d', false) = inr (inl (d', refl))

commit_journal-Reports : (k : ℕ) (bytes : Text) (d : Disk) → Reports d (commit_journal k bytes d)
unfolding commit_journal
commit_journal-Reports zero bytes d = inr (inr (inl refl))
commit_journal-Reports (suc k) bytes d = finish-Reports d (recover k (write journal bytes d))

pub commit-Reports : (k : ℕ) (batch : Images) (d : Disk) → Reports d (commit k batch d)
unfolding commit
commit-Reports k [] d = inl (d, refl)
commit-Reports k (e ∷ batch) d = elim (Option-cases (encode (e ∷ batch))) [
  | inl none_left ↦ rw none_left (inr (inr (inr refl)))
  | inr (bytes, h) ↦ rw h (commit_journal-Reports k bytes d)
]
