-- ===== src/Users/Rows.antt =====
-- Rows of the user files: how a record is written, and the fields that a line is read as.
use bn_bserver.Prelude.{
  ℕ, zero, suc, Bool, true, false, not, Option, none, some, List, [], ◌∷◌, ◌++◌,
}
use bn_bserver.Prelude.Text.{Text, has_byte, before_byte, after_byte, getline}
use bn_bserver.Prelude.Int.{ℤ, pos, int_string, stoi}
use bn_bserver.Users.{UserAccount, UserProfile, IntRow}

-- What the code uses of a float: `out << x`, std::to_string(x), std::stof and 0.0f.
pub record FloatText {ℓ} (E : Type ℓ) : Type ℓ where
  pub float_string : E → Text
  pub fixed_string : E → Text
  pub stof : Text → Option E
  pub nought : E

-- Values, each behind a comma.
unfoldable pub values_text : List ℤ → Text
values_text [] = []
values_text (v ∷ vs) = b',' ∷ (int_string v ++ values_text vs)

-- A line of a file, without its line feed.
unfoldable pub account_text : UserAccount → Text
account_text u = u.id ++ b',' ∷ (u.password ++ b',' ∷ u.nickname)

unfoldable pub int_row_text : IntRow → Text
int_row_text r = r.id ++ values_text r.values

unfoldable pub profile_text {ℓ} : {E : Type ℓ} → FloatText E → UserProfile E → Text
profile_text io p =
    p.id
    ++ b','
      ∷ (int_string p.level
          ++ b','
            ∷ (io.float_string p.exp
                ++ values_text (
                    p.icon ∷ p.money0 ∷ p.money1 ∷ p.emo0 ∷ p.emo1 ∷ p.emo2 ∷ p.emo3 ∷ p.balloon
                    ∷ [])))

-- What reading gives: nothing, an exception of std::stoi or std::stof, or a value.
pub data Parsed {ℓ} (A : Type ℓ) : Type ℓ where
  skipped : Parsed A
  bad_number : Parsed A
  parsed : A → Parsed A

infixl 5 ◌>>=◌
abbrev pub ◌>>=◌ {ℓ κ} : {A : Type ℓ} {B : Type κ} → Parsed A → (A → Parsed B) → Parsed B
skipped >>= f = skipped
bad_number >>= f = bad_number
parsed a >>= f = f a

-- A field that has to be there, and a number that has to be one.
abbrev pub field : Option (Text × Text) → Parsed (Text × Text)
field none = skipped
field (some x) = parsed x

abbrev pub number {ℓ} : {A : Type ℓ} → Option A → Parsed A
number none = bad_number
number (some n) = parsed n

-- `n` more fields and one that ends the line, all of them ints: a missing one fails the row.
unfoldable pub strict_values : ℕ → Text → Parsed (List ℤ)
strict_values zero s = do (last, _) ← field (getline 10 s); v ← number (stoi last); parsed (v ∷ [])
strict_values (suc n) s = do
  (text, rest) ← field (getline b',' s)
  v ← number (stoi text)
  vs ← strict_values n rest
  parsed (v ∷ vs)

-- A row of `suc n` ints behind an id.
unfoldable pub strict_row : ℕ → Text → Parsed IntRow
strict_row n line = do
  (id, rest) ← field (getline b',' line)
  vs ← strict_values n rest
  parsed (record { id = id; values = vs })

-- The emotes: the first field that is missing ends the loop, and the others keep their defaults.
unfoldable pub loose_values : List ℤ → Text → Parsed (List ℤ)
loose_values [] s = parsed []
loose_values (d ∷ ds) s = elim (getline b',' s) [
  | none ↦ parsed (d ∷ ds)
  | some (text, rest) ↦ number (stoi text) >>= λ v. loose_values ds rest >>= λ vs. parsed (v ∷ vs)
]

-- `emo0` to `emo3` are 1 in a new record, the other 32 are 0.
unfoldable pub ones : ℕ → List ℤ → List ℤ
ones zero vs = vs
ones (suc n) vs = pos 1 ∷ ones n vs

unfoldable pub noughts : ℕ → List ℤ
noughts zero = []
noughts (suc n) = pos 0 ∷ noughts n

abbrev pub new_emotes : List ℤ
new_emotes = ones 4 (noughts 32)

unfoldable pub emote_row : Text → Parsed IntRow
emote_row line = do
  (id, rest) ← field (getline b',' line)
  vs ← loose_values new_emotes rest
  parsed (record { id = id; values = vs })

-- A stream, with its eofbit. Behind the end std::getline does nothing; else it empties its target.
abbrev pub Stream : Type 0
Stream = Text × Bool

unfoldable pub getline_into : ℕ → Text → Stream → Text × Stream
getline_into d target (s, true) = (target, (s, true))
getline_into d target (s, false) = (before_byte d s, (after_byte d s, not (has_byte d s)))

-- The balloons: nothing is tested, so `tmp` keeps its text where a field is missing.
unfoldable pub untested_values : ℕ → Text → Stream → Parsed (List ℤ)
untested_values zero tmp s = number (stoi (getline_into 10 tmp s).0) >>= λ v. parsed (v ∷ [])
untested_values (suc n) tmp s =
    let (tmp', s') = getline_into b',' tmp s in
    number (stoi tmp') >>= λ v. untested_values n tmp' s' >>= λ vs. parsed (v ∷ vs)

unfoldable pub balloon_row : Text → Parsed IntRow
balloon_row line =
    let (id, s) = getline_into b',' [] (line, false) in
    untested_values 9 [] s >>= λ vs. parsed (record { id = id; values = vs })

unfoldable pub account_row : Text → Parsed UserAccount
account_row line = do
  (id, rest) ← field (getline b',' line)
  (password, rest') ← field (getline b',' rest)
  (nickname, _) ← field (getline b',' rest')
  parsed (record { id = id; password = password; nickname = nickname })

-- The last eight fields of a profile.
unfoldable pub profile_of {ℓ} : {E : Type ℓ} → Text → ℤ → E → List ℤ → Parsed (UserProfile E)
profile_of id level exp (icon ∷ money0 ∷ money1 ∷ emo0 ∷ emo1 ∷ emo2 ∷ emo3 ∷ balloon ∷ _) =
    parsed (record {
      id = id;
      level = level;
      exp = exp;
      icon = icon;
      money0 = money0;
      money1 = money1;
      emo0 = emo0;
      emo1 = emo1;
      emo2 = emo2;
      emo3 = emo3;
      balloon = balloon;
    })
profile_of id level exp _ = skipped

unfoldable pub profile_row {ℓ} : {E : Type ℓ} → FloatText E → Text → Parsed (UserProfile E)
profile_row io line = do
  (id, rest) ← field (getline b',' line)
  (level_text, rest') ← field (getline b',' rest)
  level ← number (stoi level_text)
  (exp_text, rest'') ← field (getline b',' rest')
  exp ← number (io.stof exp_text)
  vs ← strict_values 7 rest''
  profile_of id level exp vs
