-- ===== src/CsvStore/Tests.antt =====
-- Runs of the journal code at concrete files.
use bn_bserver.Prelude.{
  ℕ, ◌⊎◌, false, ◌≤◌, ◌<◌, ◌^◌, ◌≡◌, refl, true, none, some, [], ◌∷◌, ◌++◌, arith, All, length,
  List, replicate, length-replicate,
}
use bn_bserver.Prelude.Text.{Text, codes, ◌==◌, text_lt}
use bn_bserver.CsvStore.{
  write, Images, ok, allowed, encode, decode, Disk, recover, accepted, commit, restarts, entry_text,
  encode_entries,
}
use bn_bserver.CsvStore.RoundTrip.{IsSorted, IsImage, decode-encode}
use bn_bserver.CsvStore.Recovery.{Settled, commit-Settled, commit-accepted}
use bn_bserver.CsvStore.Redo.{Applied}
use bn_bserver.CsvStore.Lengths.{Bricks, commit_empty, commit_oversized}
use bn_bserver.CsvStore.Staging.{Answers, replace, replace-cases, replace-succeeds}

abbrev balloons : Text × Text
balloons = (codes "UserBalloon.csv", codes "id,balloon0\nann,1\n")

abbrev profiles : Text × Text
profiles = (codes "UserProfile.csv", codes "id,level\nann,3\n")

abbrev batch : Images
batch = balloons ∷ profiles ∷ []

abbrev bare : Disk
bare = λ p. none

batch-IsSorted : IsSorted batch
unfolding text_lt
batch-IsSorted = ((refl, tt), (tt, tt))

batch-IsImage : All IsImage batch
unfolding allowed ◌==◌
batch-IsImage = ((refl, omega arith, omega arith), ((refl, omega arith, omega arith), tt))

-- The journal of one small file, byte by byte.
encode_one :
    encode ((codes "UserIcon.csv", codes "id\n") ∷ [])
    ≡ some (codes "BNBCSV1\nUserIcon.csv\n3\nid\n")
unfolding encode encode_entries entry_text allowed ◌==◌ bn_bserver.Prelude.Decimal.to_string
encode_one = refl

abbrev batch_journal : Text
batch_journal =
    codes "BNBCSV1\nUserBalloon.csv\n18\nid,balloon0\nann,1\nUserProfile.csv\n15\nid,level\nann,3\n"

encode-batch : encode batch ≡ some batch_journal
unfolding encode encode_entries entry_text allowed ◌==◌ bn_bserver.Prelude.Decimal.to_string
encode-batch = refl

decode-encode_example : decode batch_journal ≡ ok batch
decode-encode_example =
    decode-encode balloons (profiles ∷ []) batch_journal batch-IsSorted batch-IsImage encode-batch

commit-Settled_example :
    Settled
      (commit 2 batch bare).1
      batch
      bare
      (recover 9 (restarts (0 ∷ 1 ∷ []) (commit 2 batch bare).0)).0
commit-Settled_example =
    commit-Settled balloons (profiles ∷ []) bare 2 (0 ∷ 1 ∷ []) 9 batch-IsSorted batch-IsImage refl
      (omega arith)

commit-accepted_example :
    ((commit 4 batch bare).1 ≡ accepted) × Applied batch bare (commit 4 batch bare).0
commit-accepted_example =
    commit-accepted balloons (profiles ∷ []) bare 4 batch-IsSorted batch-IsImage (omega arith)

commit_empty_example : Bricks (balloons ∷ (codes "UserProfile.csv", []) ∷ []) bare
unfolding text_lt allowed ◌==◌
commit_empty_example =
    commit_empty [] [] (codes "UserBalloon.csv") (codes "id,balloon0\nann,1\n")
      (codes "UserProfile.csv") bare ((refl, tt), (tt, tt)) (refl, (refl, tt)) tt
      (refl, omega arith, omega arith)

abbrev huge : Text
huge = replicate 67108865 b'0'

commit_oversized_example : Bricks ((codes "UserProfile.csv", huge) ∷ []) bare
unfolding allowed ◌==◌
commit_oversized_example =
    commit_oversized [] [] (codes "UserProfile.csv") huge bare (tt, tt) (refl, tt) tt
      (omega (arith, length-replicate {A = ℕ} 67108865 b'0'))
      (omega (arith, length-replicate {A = ℕ} 67108865 b'0'))

abbrev answers : Answers
answers = record {
  created = true;
  written = 2 ∷ 1 ∷ 5 ∷ [];
  flushed = true;
  closed = true;
  moved = true;
}

replace-succeeds_example : (replace answers (codes "UserIcon.csv") (codes "id\n") bare).1 ≡ true
replace-succeeds_example =
    replace-succeeds answers (codes "UserIcon.csv") (codes "id\n") bare (refl, refl, refl, refl)
      (omega arith, (omega arith, (omega arith, tt))) (omega arith)

replace-cases_example :
    (replace answers (codes "UserIcon.csv") (codes "id\n") bare ≡ (bare, false))
    ⊎ (replace answers (codes "UserIcon.csv") (codes "id\n") bare
        ≡ (write (codes "UserIcon.csv") (codes "id\n") bare, true))
replace-cases_example = replace-cases answers (codes "UserIcon.csv") (codes "id\n") bare
