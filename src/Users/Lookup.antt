-- ===== src/Users/Lookup.antt =====
-- What TeamOFYServer/UserManager.cpp looks up in files: the equipment of a user, and the attack values.
pub mod Loading
use bn_bserver.Prelude.{
  ℕ, zero, suc, Bool, true, false, Option, none, some, List, [], ◌∷◌, if◌then◌else◌, map,
}
use bn_bserver.Prelude.Text.{Text, ◌==◌, getline, trim, line_or_empty}
use bn_bserver.Prelude.Lines.{split}
use bn_bserver.Prelude.Int.{ℤ, pos, negsuc, stoi}
use bn_bserver.Store.{same_int}
use bn_bserver.Users.Load.{body, body_or_empty}

-- Some fields of a line, and what is behind them.
unfoldable pub fields : ℕ → Text → Option (List Text × Text)
fields zero s = some ([], s)
fields (suc n) s = elim (getline b',' s) [
  | none ↦ none
  | some (text, rest) ↦ elim (fields n rest) [
    | none ↦ none
    | some (texts, rest') ↦ some (text ∷ texts, rest')
  ]
]

four_ints : Option ℤ → Option ℤ → Option ℤ → Option ℤ → List ℤ
four_ints (some a) (some b) (some c) (some d) = a ∷ b ∷ c ∷ d ∷ []
four_ints _ _ _ _ = []

-- A line that is no row, or a row with an id and what it says of it.
emotions_of : Option (List Text × Text) → Option (Text × List ℤ)
emotions_of (some (id ∷ _ ∷ _ ∷ _ ∷ _ ∷ _ ∷ e0 ∷ e1 ∷ e2 ∷ e3 ∷ _, _)) =
    some (id, four_ints (stoi e0) (stoi e1) (stoi e2) (stoi e3))
emotions_of _ = none

unfoldable pub first_or {ℓ} : {A : Type ℓ} → A → Text → List (Option (Text × A)) → A
first_or default id [] = default
first_or default id (none ∷ rows) = first_or default id rows
first_or default id (some (k, a) ∷ rows) =
    let rest = first_or default id rows in if trim k == id then a else rest

abbrev file_lines : Option Text → List Text
file_lines none = []
file_lines (some s) = body_or_empty (split 10 s)

-- GetEmotionsByUserId, from the file and not from memory; empty also when a number cannot be read.
unfoldable pub get_emotions_by_user_id : Text → Option Text → List ℤ
unfolding emotions_of four_ints
get_emotions_by_user_id u file =
    first_or [] (trim u) (map (λ line. emotions_of (fields 11 line)) (file_lines file))

int_or_minus : Option ℤ → ℤ
int_or_minus none = negsuc 0
int_or_minus (some n) = n

last_field : Text → Option (Text × Text) → Option (Text × ℤ)
last_field id none = none
last_field id (some (text, _)) = some (id, int_or_minus (stoi text))

balloon_of : Option (List Text × Text) → Option (Text × ℤ)
balloon_of (some (id ∷ _, rest)) = last_field id (getline 10 rest)
balloon_of _ = none

-- GetBalloonByUserId: -1 for a user or a number that is not found.
unfoldable pub get_balloon_by_user_id : Text → Option Text → ℤ
unfolding balloon_of last_field int_or_minus
get_balloon_by_user_id u file =
    first_or (negsuc 0) (trim u) (map (λ line. balloon_of (fields 10 line)) (file_lines file))

abbrev add_int : Option ℤ → Option (List ℤ) → Option (List ℤ)
add_int (some v) (some vs) = some (v ∷ vs)
add_int _ _ = none

ints_of : List Text → Option (List ℤ)
ints_of [] = some []
ints_of (text ∷ texts) = add_int (stoi text) (ints_of texts)

-- GetCharactersByUserId; `none` is an exception of std::stoi.
unfoldable pub get_characters_by_user_id : Text → Option Text → Option (List ℤ)
unfolding ints_of
get_characters_by_user_id u file = first_or (some []) u (
    map
      (λ line.
        let (id, rest) = line_or_empty (getline b',' line) in some (id, ints_of (split b',' rest)))
      (file_lines file))

-- attackByIndex_
abbrev pub Attacks : Type 0
Attacks = List (ℤ × ℤ)

unfoldable pub find_attack : ℤ → Attacks → Option ℤ
find_attack i [] = none
find_attack i ((j, a) ∷ t) = let rest = find_attack i t in if same_int j i then some a else rest

-- parsed.emplace: an index that is there keeps its value.
unfoldable pub emplace_attack : ℤ → ℤ → Attacks → Attacks
emplace_attack i a [] = (i, a) ∷ []
emplace_attack i a ((j, b) ∷ t) =
    let rest = emplace_attack i a t in if same_int j i then (j, b) ∷ t else (j, b) ∷ rest

attack_ints : Option ℤ → Option ℤ → Attacks → Option Attacks
attack_ints (some i) (some a) t = some (emplace_attack i a t)
attack_ints _ _ t = none

attack_fields : Option (List Text × Text) → Attacks → Option Attacks
attack_fields (some (index ∷ health ∷ attack ∷ _, _)) t = attack_ints (stoi index) (stoi attack) t
attack_fields _ t = none

abbrev attack_line : Text → Attacks → Option Attacks
attack_line [] t = some t
attack_line (c ∷ line) t = attack_fields (fields 3 (c ∷ line)) t

abbrev attack_next : (Attacks → Option Attacks) → Option Attacks → Option Attacks
attack_next rest none = none
attack_next rest (some t) = rest t

attack_lines : List Text → Attacks → Option Attacks
attack_lines [] t = some t
attack_lines (line ∷ lines) t = attack_next (attack_lines lines) (attack_line line t)

abbrev swap_attacks : Attacks → Option Attacks → Attacks × Bool
swap_attacks old none = (old, false)
swap_attacks old (some []) = (old, false)
swap_attacks old (some (a ∷ t)) = (a ∷ t, true)

abbrev attack_file : Attacks → Option (List Text) → Attacks × Bool
attack_file old none = (old, false)
attack_file old (some lines) = swap_attacks old (attack_lines lines [])

-- LoadAttackStats: all or nothing.
unfoldable pub load_attack_stats : Option Text → Attacks → Attacks × Bool
unfolding attack_lines attack_fields attack_ints
load_attack_stats none old = (old, false)
load_attack_stats (some s) old = attack_file old (body (split 10 s))

or_nought : Option ℤ → ℤ
or_nought none = pos 0
or_nought (some n) = n

-- GetAttackByIndex
unfoldable pub get_attack_by_index : ℤ → Attacks → ℤ
unfolding or_nought
get_attack_by_index i t = or_nought (find_attack i t)
