-- ===== src/Users.antt =====
-- UserManager (TeamOFYServer/UserManager.h and .cpp, UserAccount.h): the accounts and what the users
-- own, in memory and in CSV files. The operations and the proofs are in the modules below.
--
-- A class of an id and int fields is an `IntRow`, which holds the fields in the order of their
-- declaration, so that the field with number i of a switch is the value at place i. The float of a
-- profile is of any type `E`. An operation is a function on the state that can throw: what was
-- written before stays written. `usersMutex` is recursive and held all the while.
pub mod Rows
pub mod Load
pub mod Register
pub mod Save
pub mod Query
pub mod Lookup
pub mod RowTrip
pub mod Loaded
pub mod Saved
pub mod Atomic
pub mod Settling
pub mod Untouched
pub mod Staged
pub mod Others
pub mod Registered
pub mod Unique
pub mod Tally
pub mod Sample
pub mod Tests
use bn_bserver.Prelude.{
  ℕ, zero, suc, Bool, true, false, Option, none, some, List, [], ◌∷◌, ◌++◌, if◌then◌else◌,
}
use bn_bserver.Prelude.Text.{Text, codes, ◌==◌, text_lt}
use bn_bserver.Prelude.Assoc.{lookup}
use bn_bserver.Prelude.Int.{ℤ, pos}
use bn_bserver.CsvStore.{Images, Disk, Committed, accepted, refused, thrown, died, commit}

-- The files of the tables.
abbrev pub account_path : Text
account_path = codes "UsersAccount.csv"

abbrev pub profile_path : Text
profile_path = codes "UserProfile.csv"

abbrev pub character_path : Text
character_path = codes "UserCharacters.csv"

abbrev pub emote_path : Text
emote_path = codes "UserEmotes.csv"

abbrev pub stats_path : Text
stats_path = codes "UserWinLossStats.csv"

abbrev pub balloon_path : Text
balloon_path = codes "UserBalloon.csv"

abbrev pub icon_path : Text
icon_path = codes "UserIcon.csv"

pub record UserAccount : Type 0 where
  pub id : Text
  pub password : Text
  pub nickname : Text

pub record UserProfile {ℓ} (E : Type ℓ) : Type ℓ where
  pub id : Text
  pub level : ℤ
  pub exp : E
  pub icon : ℤ
  pub money0 : ℤ
  pub money1 : ℤ
  pub emo0 : ℤ
  pub emo1 : ℤ
  pub emo2 : ℤ
  pub emo3 : ℤ
  pub balloon : ℤ

-- UserCharacters (7 values), UserCharacterEmotes (36), UserWinLossStats (16), UserBallons (10) and
-- UserIcons (10)
pub record IntRow : Type 0 where
  pub id : Text
  pub values : List ℤ

-- The vectors of the user manager, which a Transaction copies.
pub record Tables {ℓ} (E : Type ℓ) : Type ℓ where
  pub users : List UserAccount
  pub profiles : List (UserProfile E)
  pub characters : List IntRow
  pub emotes : List IntRow
  pub stats : List IntRow
  pub balloons : List IntRow
  pub icons : List IntRow

-- The files as they are stored, `pending_`, `transactionActive_`, and `committed_` of the transaction.
pub record UserManager {ℓ} (E : Type ℓ) : Type ℓ where
  pub tables : Tables E
  pub pending : Images
  pub active : Bool
  pub committed : Bool
  pub files : Disk

-- A returned value, an exception, or a process that does not go on: std::terminate, or a loop without
-- end.
pub data Outcome {ℓ} (A : Type ℓ) : Type ℓ where
  returned : A → Outcome A
  threw : Outcome A
  terminated : Outcome A

abbrev pub Action {ℓ} : Type ℓ → Type 0 → Type ℓ
Action E A = UserManager E → Outcome A × UserManager E

module _ {ℓ} {E : Type ℓ} where
  abbrev pub pure : {A : Type 0} → A → Action E A
  pure a m = (returned a, m)

  abbrev pub throw : {A : Type 0} → Action E A
  throw m = (threw, m)

  abbrev pub run_then :
      {A B : Type 0} → Outcome A × UserManager E → (A → Action E B) → Outcome B × UserManager E
  run_then (returned a, m) f = f a m
  run_then (threw, m) f = (threw, m)
  run_then (terminated, m) f = (terminated, m)

infixl 5 ◌>>=◌
abbrev pub ◌>>=◌ {ℓ} : {E : Type ℓ} {A B : Type 0} → Action E A → (A → Action E B) → Action E B
◌>>=◌ x f m = run_then (x m) f

-- pending_[path] = data
unfoldable pub put_image : Text → Text → Images → Images
put_image k v [] = (k, v) ∷ []
put_image k v ((j, w) ∷ m) =
    let rest = put_image k v m in
    if text_lt k j then (k, v) ∷ (j, w) ∷ m else if j == k then (k, v) ∷ m else (j, w) ∷ rest

module _ {ℓ} {E : Type ℓ} where
  -- CsvStore::Read throws for a file that cannot be read.
  abbrev or_file : Option Text → Option Text → Action E Text
  or_file (some text) file = pure text
  or_file none (some text) = pure text
  or_file none none = throw

  -- ReadCsv: what the transaction has written, or the file.
  unfoldable pub read_csv : Text → Action E Text
  read_csv path m = or_file (lookup path m.pending) (m.files path) m

  -- WriteCsv
  unfoldable pub write_csv : Text → Text → Action E Bool
  write_csv path text m =
      if m.active
      then (returned true, record m { pending = put_image path text m.pending })
      else (threw, m)

  -- The answer of CsvStore::Commit, with the number of file calls that still succeed.
  abbrev pub commit_answer : UserManager E → Disk × Committed → Outcome Bool × UserManager E
  commit_answer m (d, accepted) = (returned true, record m { committed = true; files = d })
  commit_answer m (d, refused) = (returned false, record m { files = d })
  commit_answer m (d, thrown) = (threw, record m { files = d })
  commit_answer m (d, died) = (terminated, record m { files = d })

  -- Transaction::Commit
  unfoldable pub commit_transaction : ℕ → Action E Bool
  commit_transaction k m =
      if m.committed then (returned true, m) else commit_answer m (commit k m.pending m.files)

  -- Transaction::~Transaction, with the copies that were made.
  unfoldable pub end_transaction : Tables E → UserManager E → UserManager E
  end_transaction copies m = record m {
    tables = if m.committed then m.tables else copies;
    pending = [];
    active = false;
    committed = false;
  }

  -- Leaving the scope of a Transaction; a process that does not go on runs no destructor.
  unfoldable pub leave :
      {A : Type 0} → Tables E → Outcome A × UserManager E → Outcome A × UserManager E
  leave copies (returned a, m) = (returned a, end_transaction copies m)
  leave copies (threw, m) = (threw, end_transaction copies m)
  leave copies (terminated, m) = (terminated, m)

  -- A scope that opens with a Transaction: it throws inside another one.
  unfoldable pub in_transaction : {A : Type 0} → Action E A → Action E A
  in_transaction body m =
      if m.active
      then (threw, m)
      else leave m.tables (body (record m { pending = []; active = true; committed = false }))
