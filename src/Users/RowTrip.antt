-- ===== src/Users/RowTrip.antt =====
-- A record that is written as a row is read back from it.
use bn_bserver.Prelude.{
  ℕ, suc, ◌≡◌, refl, sym, true, false, some, List, [], ◌∷◌, ◌++◌, append-nil, arith, length, All,
}
use bn_bserver.Prelude.Text.{
  Text, has_byte, before_byte, after_byte, getline, getline-append, before_byte-append,
  after_byte-append, has_byte-append,
}
use bn_bserver.Prelude.Decimal.{is_digit, to_string}
use bn_bserver.Prelude.Decimal.RoundTrip.{Leads, to_string-Leads}
use bn_bserver.Prelude.Int.{ℤ, pos, negsuc, int_string}
use bn_bserver.Prelude.Int.RoundTrip.{IsInt, stoi-int_string, has_byte-int_string}
use bn_bserver.Users.{UserAccount, UserProfile, IntRow}
use bn_bserver.Users.Rows.{
  FloatText, values_text, account_text, int_row_text, profile_text, parsed, strict_values,
  strict_row, loose_values, emote_row, getline_into, untested_values, balloon_row, account_row,
  profile_row, profile_of, ones, noughts,
}

before_byte-lacks : (d : ℕ) (s : Text) → has_byte d s ≡ false → before_byte d s ≡ s
unfolding has_byte before_byte
before_byte-lacks d [] h = refl
before_byte-lacks d (c ∷ s) h = ground (arith, before_byte-lacks d s)

after_byte-lacks : (d : ℕ) (s : Text) → has_byte d s ≡ false → after_byte d s ≡ []
unfolding has_byte after_byte
after_byte-lacks d [] h = refl
after_byte-lacks d (c ∷ s) h = ground (arith, after_byte-lacks d s)

-- A text that is not empty.
abbrev pub Starts : Text → Type 0
Starts s = (c : ℕ) × (t : Text) × (s ≡ c ∷ t)

getline-last : (d : ℕ) (s : Text) → has_byte d s ≡ false → Starts s → getline d s ≡ some (s, [])
unfolding getline
getline-last d [] h (c, t, e) = ground arith
getline-last d (c ∷ s) h _ = rw (before_byte-lacks d (c ∷ s) h, after_byte-lacks d (c ∷ s) h)

Leads-Starts : (s : Text) → Leads s → Starts s
Leads-Starts [] h = absurd h
Leads-Starts (c ∷ s) h = (c, s, refl)

int_string-Starts : (v : ℤ) → Starts (int_string v)
unfolding int_string
int_string-Starts (pos n) = Leads-Starts (to_string n) (to_string-Leads n)
int_string-Starts (negsuc n) = (b'-', to_string (suc n), refl)

int_string-comma : (z : ℤ) → has_byte b',' (int_string z) ≡ false
unfolding is_digit
int_string-comma z = has_byte-int_string b',' z refl refl

pub int_string-newline : (z : ℤ) → has_byte 10 (int_string z) ≡ false
unfolding is_digit
int_string-newline z = has_byte-int_string 10 z refl refl

pub values_text-newline : (vs : List ℤ) → has_byte 10 (values_text vs) ≡ false
unfolding values_text has_byte
values_text-newline [] = refl
values_text-newline (v ∷ vs) =
    has_byte-append 10 (int_string v) (values_text vs) (int_string-newline v)
      (values_text-newline vs)

strict_values-values_text :
    (v : ℤ) (vs : List ℤ)
    → All IsInt (v ∷ vs)
    → strict_values (length vs) (int_string v ++ values_text vs) ≡ parsed (v ∷ vs)
unfolding strict_values values_text
strict_values-values_text v [] h = rw (
  append-nil (int_string v),
  getline-last 10 (int_string v) (int_string-newline v) (int_string-Starts v),
  stoi-int_string v h.0,
)
strict_values-values_text v (w ∷ vs) h = rw (
  getline-append b',' (int_string v) (int_string w ++ values_text vs) (int_string-comma v),
  stoi-int_string v h.0,
  strict_values-values_text w vs h.1,
)

loose_values-values_text :
    (d : ℤ) (ds : List ℤ) (v : ℤ) (vs : List ℤ)
    → length ds ≡ length vs
    → All IsInt (v ∷ vs)
    → loose_values (d ∷ ds) (int_string v ++ values_text vs) ≡ parsed (v ∷ vs)
unfolding loose_values values_text
loose_values-values_text d [] v [] e h = rw (
  append-nil (int_string v),
  loose_values,
  getline-last b',' (int_string v) (int_string-comma v) (int_string-Starts v),
  stoi-int_string v h.0,
)
loose_values-values_text d [] v (w ∷ vs) e h = absurd (ground arith)
loose_values-values_text d (b ∷ ds) v [] e h = absurd (ground arith)
loose_values-values_text d (b ∷ ds) v (w ∷ vs) e h = rw (
  loose_values,
  getline-append b',' (int_string v) (int_string w ++ values_text vs) (int_string-comma v),
  stoi-int_string v h.0,
  loose_values-values_text b ds w vs (omega (arith, e)) h.1,
)

pub has_byte-behind : (d : ℕ) (s t : Text) → has_byte d (s ++ d ∷ t) ≡ true
unfolding has_byte
has_byte-behind d [] t = ground arith
has_byte-behind d (c ∷ s) t = ground (arith, has_byte-behind d s t)

getline_into-append :
    (d : ℕ) (target s t : Text)
    → has_byte d s ≡ false
    → getline_into d target (s ++ d ∷ t, false) ≡ (s, (t, false))
unfolding getline_into
getline_into-append d target s t h =
    rw (before_byte-append d s t h, after_byte-append d s t h, has_byte-behind d s t)

untested_values-values_text :
    (tmp : Text) (v : ℤ) (vs : List ℤ)
    → All IsInt (v ∷ vs)
    → untested_values (length vs) tmp (int_string v ++ values_text vs, false) ≡ parsed (v ∷ vs)
unfolding untested_values values_text
untested_values-values_text tmp v [] h = rw (append-nil (int_string v)) (
    unfold getline_into in
    rw (before_byte-lacks 10 (int_string v) (int_string-newline v), stoi-int_string v h.0))
untested_values-values_text tmp v (w ∷ vs) h = rw (
  getline_into-append b',' tmp (int_string v) (int_string w ++ values_text vs) (int_string-comma v),
  stoi-int_string v h.0,
  untested_values-values_text (int_string v) w vs h.1,
)

-- The rows that are read back: an id and texts without commas and line feeds, numbers that are ints,
-- as many as the record has.
abbrev pub IsField : Text → Type 0
IsField s = (has_byte b',' s ≡ false) × (has_byte 10 s ≡ false)

abbrev pub IsIntRow : ℕ → IntRow → Type 0
IsIntRow n r = IsField r.id × (length r.values ≡ n) × All IsInt r.values

abbrev pub IsAccountRow : UserAccount → Type 0
IsAccountRow u = IsField u.id × IsField u.password × IsField u.nickname × Starts u.nickname

pub int_row_text-newline :
    (n : ℕ) (r : IntRow) → IsIntRow n r → has_byte 10 (int_row_text r) ≡ false
unfolding int_row_text
int_row_text-newline n r h =
    has_byte-append 10 r.id (values_text r.values) h.0.1 (values_text-newline r.values)

strict_row_at :
    (n : ℕ) (id : Text) (vs : List ℤ)
    → IsIntRow (suc n) (record { id = id; values = vs })
    → strict_row n (id ++ values_text vs) ≡ parsed (record { id = id; values = vs })
unfolding strict_row values_text
strict_row_at n id [] h = absurd (ground arith)
strict_row_at n id (v ∷ vs) h =
    let same : n ≡ length vs = omega (arith, h.1) in
    rw (
      getline-append b',' id (int_string v ++ values_text vs) h.0.0,
      same,
      strict_values-values_text v vs h.2,
    )

pub strict_row-int_row_text :
    (n : ℕ) (r : IntRow) → IsIntRow (suc n) r → strict_row n (int_row_text r) ≡ parsed r
unfolding strict_row int_row_text values_text
strict_row-int_row_text n r h = strict_row_at n r.id r.values h

emote_row_at :
    (id : Text) (vs : List ℤ)
    → IsIntRow 36 (record { id = id; values = vs })
    → emote_row (id ++ values_text vs) ≡ parsed (record { id = id; values = vs })
unfolding emote_row values_text ones noughts
emote_row_at id [] h = absurd (ground arith)
emote_row_at id (v ∷ vs) h =
    let rest =
      loose_values-values_text (pos 1) (pos 1 ∷ pos 1 ∷ pos 1 ∷ noughts 32) v vs
        (omega (arith, h.1)) h.2 in
    rw (getline-append b',' id (int_string v ++ values_text vs) h.0.0) (rw rest)

pub emote_row-int_row_text : (r : IntRow) → IsIntRow 36 r → emote_row (int_row_text r) ≡ parsed r
unfolding int_row_text
emote_row-int_row_text r h = emote_row_at r.id r.values h

balloon_row_at :
    (id : Text) (vs : List ℤ)
    → IsIntRow 10 (record { id = id; values = vs })
    → balloon_row (id ++ values_text vs) ≡ parsed (record { id = id; values = vs })
unfolding balloon_row values_text
balloon_row_at id [] h = absurd (ground arith)
balloon_row_at id (v ∷ vs) h =
    let same : length vs ≡ 9 = omega (arith, h.1) in
    let rest = untested_values-values_text [] v vs h.2 in
    rw (getline_into-append b',' [] id (int_string v ++ values_text vs) h.0.0, sym same, rest)

pub balloon_row-int_row_text :
    (r : IntRow) → IsIntRow 10 r → balloon_row (int_row_text r) ≡ parsed r
unfolding int_row_text
balloon_row-int_row_text r h = balloon_row_at r.id r.values h

pub account_row-account_text :
    (u : UserAccount) → IsAccountRow u → account_row (account_text u) ≡ parsed u
unfolding account_row account_text
account_row-account_text u (id, password, nickname, some_name) = rw (
  getline-append b',' u.id (u.password ++ b',' ∷ u.nickname) id.0,
  getline-append b',' u.password u.nickname password.0,
  getline-last b',' u.nickname nickname.0 some_name,
)

module _ {ℓ} {E : Type ℓ} (io : FloatText E) where
  -- A float that its text gives back.
  abbrev pub IsFloat : E → Type ℓ
  IsFloat e = IsField (io.float_string e) × (io.stof (io.float_string e) ≡ some e)

  abbrev pub IsProfileRow : UserProfile E → Type ℓ
  IsProfileRow p =
      IsField p.id
      × IsInt p.level
      × IsFloat p.exp
      × All IsInt
          (p.icon ∷ p.money0 ∷ p.money1 ∷ p.emo0 ∷ p.emo1 ∷ p.emo2 ∷ p.emo3 ∷ p.balloon ∷ [])

  pub profile_row-profile_text :
      (p : UserProfile E) → IsProfileRow p → profile_row io (profile_text io p) ≡ parsed p
  unfolding profile_row profile_text profile_of values_text
  profile_row-profile_text p (id, level, (exp, back), ints) =
      let rest =
        strict_values-values_text p.icon
          (p.money0 ∷ p.money1 ∷ p.emo0 ∷ p.emo1 ∷ p.emo2 ∷ p.emo3 ∷ p.balloon ∷ []) ints in
      rw (
        getline-append b',' p.id _ id.0,
        getline-append b',' (int_string p.level) _ (int_string-comma p.level),
        stoi-int_string p.level level,
        getline-append b',' (io.float_string p.exp) _ exp.0,
        back,
        rest,
      )
