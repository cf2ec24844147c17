-- ===== src/CsvStore.antt =====
-- CsvStore (TeamOFYServer/CsvStore.h): the journal format and the commit protocol. The proofs are
-- in the modules below.
--
-- A std::map of images is a list that `emplace` keeps sorted by name. An exception is an error
-- value. Windows file calls are not modelled: a call succeeds, or it fails and the process goes no
-- further with the commit, and `k` counts the calls that succeed. So `k` also covers a process that
-- dies between two calls. MoveFileExA replaces a file at once.
pub mod Order
pub mod RoundTrip
pub mod Lengths
pub mod Redo
pub mod Recovery
pub mod Reports
pub mod Staging
pub mod Tests
use bn_bserver.Prelude.{
  ℕ, zero, suc, ◌-◌, ◌*◌, Bool, true, false, not, ◌&&◌, ◌||◌, Option, none, some, List, [], ◌∷◌,
  ◌++◌, eqb, leb, if◌then◌else◌, length, take, drop, min,
}
use bn_bserver.Prelude.Text.{Text, codes, ◌==◌, text_lt, getline}
use bn_bserver.Prelude.Assoc.{lookup}
use bn_bserver.Prelude.Decimal.{to_string, stoull}

abbrev pub Images : Type 0
Images = List (Text × Text)

-- The seven files that a journal may replace.
abbrev pub csv_names : List Text
csv_names =
    codes "UsersAccount.csv"
    ∷ codes "UserProfile.csv"
    ∷ codes "UserCharacters.csv"
    ∷ codes "UserEmotes.csv"
    ∷ codes "UserWinLossStats.csv"
    ∷ codes "UserBalloon.csv"
    ∷ codes "UserIcon.csv"
    ∷ []

pub name_in : Text → List Text → Bool
name_in n [] = false
name_in n (m ∷ ms) = n == m || name_in n ms

unfoldable pub allowed : Text → Bool
unfolding name_in
allowed n = name_in n csv_names

-- result.emplace(name, contents): a name that is there keeps its contents.
pub emplace : Text → Text → Images → Images
emplace k v [] = (k, v) ∷ []
emplace k v ((j, w) ∷ m) =
    if text_lt k j
    then (k, v) ∷ (j, w) ∷ m
    else if j == k
    then (j, w) ∷ m
    else (j, w) ∷ emplace k v m

abbrev pub magic : Text
magic = codes "BNBCSV1"

-- One entry of a journal, and what follows it.
pub entry_text : Text → Text → Text → Text
entry_text name contents rest =
    name ++ 10 ∷ (to_string (length contents) ++ 10 ∷ (contents ++ rest))

abbrev map_entry : Text → Text → Option Text → Option Text
map_entry name contents none = none
map_entry name contents (some rest) = some (entry_text name contents rest)

pub encode_entries : Images → Option Text
encode_entries [] = some []
encode_entries ((name, contents) ∷ m) =
    let rest = encode_entries m in if allowed name then map_entry name contents rest else none

abbrev with_magic : Option Text → Option Text
with_magic none = none
with_magic (some s) = some (magic ++ 10 ∷ s)

-- `none` is the exception "Invalid CSV target".
pub encode : Images → Option Text
encode m = with_magic (encode_entries m)

-- The exceptions of Decode. `bad_number` is thrown by std::stoull. `fuel_out` never happens.
pub data DecodeError : Type 0 where
  invalid_journal invalid_target bad_number invalid_length incomplete empty_journal : DecodeError
  fuel_out : DecodeError

pub data Result (A : Type 0) : Type 0 where
  ok : A → Result A
  err : DecodeError → Result A

infixl 5 ◌>>=◌ ◌>>◌
abbrev pub ◌>>=◌ : {A B : Type 0} → Result A → (A → Result B) → Result B
ok a >>= f = f a
err e >>= f = err e

abbrev pub ◌>>◌ : {B : Type 0} → Result (Unit {0}) → Result B → Result B
m >> k = m >>= λ _. k

abbrev pub guard : Bool → DecodeError → Result (Unit {0})
guard true e = ok tt
guard false e = err e

abbrev pub or_throw : {A : Type 0} → Option A → DecodeError → Result A
or_throw none e = err e
or_throw (some a) e = ok a

abbrev pub has_key : Text → Images → Bool
has_key k m = elim (lookup k m) [ none ↦ false | some v ↦ true ]

-- 64 * 1024 * 1024
abbrev pub max_image : ℕ
max_image = 67108864

abbrev pub is_empty : Text → Bool
is_empty [] = true
is_empty (c ∷ s) = false

-- in.gcount() after the contents were read: it is the count of the last `in.read`, and an empty
-- entry reads nothing, so the count of an earlier entry stays. std::getline does not change it.
pub gcount_after : ℕ → ℕ → ℕ → ℕ
gcount_after count size available = if eqb size 0 then count else min size available

-- One round of the loop, behind the line with the name: the count, the map and what is left.
pub decode_entry : ℕ → Images → Text → Text → Result (ℕ × Images × Text)
decode_entry count m name rest = do
  guard (allowed name && not (has_key name m)) invalid_target
  (line, body) ← or_throw (getline 10 rest) invalid_target
  (size, unused) ← or_throw (stoull line) bad_number
  guard (is_empty unused && leb size max_image) invalid_length
  let count' = gcount_after count size (length body)
  guard (eqb count' size) incomplete
  ok (count', emplace name (take size body) m, drop size body)

pub decode_entries : ℕ → ℕ → Images → Text → Result Images
decode_entries zero count m s = err fuel_out
decode_entries (suc f) count m s = elim (getline 10 s) [
  | none ↦ ok m
  | some (name, rest) ↦ decode_entry count m name rest >>= λ r. decode_entries f r.0 r.1 r.2
]

abbrev pub refuse_empty : Images → Result Images
refuse_empty [] = err empty_journal
refuse_empty (e ∷ m) = ok (e ∷ m)

-- Each round reads a character at least, so one more round than there are bytes is enough.
pub decode : Text → Result Images
decode bytes = do
  (line, rest) ← or_throw (getline 10 bytes) invalid_journal
  guard (line == magic) invalid_journal
  m ← decode_entries (suc (length rest)) 0 [] rest
  refuse_empty m

-- The files by name, the journal among them.
abbrev pub Disk : Type 0
Disk = Text → Option Text

abbrev pub journal : Text
journal = codes "users.redo"

pub write : Text → Text → Disk → Disk
write path bytes d = λ p. if path == p then some bytes else d p

pub remove : Text → Disk → Disk
remove path d = λ p. if path == p then none else d p

-- The loop of Recover: `none` when a Replace failed, otherwise the calls that still succeed.
pub replace_all : ℕ → Images → Disk → Disk × Option ℕ
replace_all k [] d = (d, some k)
replace_all zero (e ∷ m) d = (d, none)
replace_all (suc k) ((name, contents) ∷ m) d = replace_all k m (write name contents d)

pub retire : Disk × Option ℕ → Disk × Bool
retire (d, none) = (d, false)
retire (d, some zero) = (d, false)
retire (d, some (suc k)) = (remove journal d, true)

abbrev recover_images : ℕ → Disk → Result Images → Disk × Bool
recover_images k d (err e) = (d, false)
recover_images k d (ok m) = retire (replace_all k m d)

abbrev recover_journal : ℕ → Disk → Option Text → Disk × Bool
recover_journal k d none = (d, true)
recover_journal k d (some bytes) = recover_images k d (decode bytes)

-- Recover; `false` when it throws.
pub recover : ℕ → Disk → Disk × Bool
recover k d = recover_journal k d (d journal)

-- `refused`: Commit returns false. `thrown`: Encode throws. `died`: std::terminate.
pub data Committed : Type 0 where
  accepted refused thrown died : Committed

pub finish : Disk × Bool → Disk × Committed
finish (d, true) = (d, accepted)
finish (d, false) = (d, died)

pub commit_journal : ℕ → Text → Disk → Disk × Committed
unfolding finish
commit_journal zero bytes d = (d, refused)
commit_journal (suc k) bytes d = finish (recover k (write journal bytes d))

abbrev commit_encoded : ℕ → Option Text → Disk → Disk × Committed
commit_encoded k none d = (d, thrown)
commit_encoded k (some bytes) d = commit_journal k bytes d

pub commit : ℕ → Images → Disk → Disk × Committed
commit k [] d = (d, accepted)
commit k (e ∷ m) d = commit_encoded k (encode (e ∷ m)) d

-- The server starts again and again, and each start gets `k` calls further.
pub restarts : List ℕ → Disk → Disk
restarts [] d = d
restarts (k ∷ ks) d = restarts ks (recover k d).0
