-- ===== src/Store.antt =====
-- StoreData (TeamOFYServer/StoreData.h and .cpp): the price tables of the store, read from files of
-- comma-separated rows, and the lookup of a price. The proofs are in the modules below.
--
-- A file is what its stream yields, or `none` if it cannot be opened. The four tables are alike; only
-- the rows of the characters skip a short row, and only those of the balloons take an unknown word
-- for CASH.
pub mod Tables
pub mod Tests
use bn_bserver.Prelude.{
  ℕ, zero, suc, Bool, true, false, ◌&&◌, Option, none, some, List, [], ◌∷◌, ◌++◌, eqb,
  if◌then◌else◌, length,
}
use bn_bserver.Prelude.Text.{Text, codes, ◌==◌, getline, line_or_empty}
use bn_bserver.Prelude.Int.{ℤ, pos, negsuc, stoi}

pub data PriceType : Type 0 where
  coin cash : PriceType

-- StoreCharInfo, StoreBalloonInfo, StoreEmoteInfo and StoreIconInfo have the same fields.
pub record Price : Type 0 where
  pub price : ℤ
  pub price_type : PriceType

abbrev pub Table : Type 0
Table = List (ℤ × Price)

pub record StoreData : Type 0 where
  pub characters : Table
  pub balloons : Table
  pub emotes : Table
  pub icons : Table

unfoldable pub same_int : ℤ → ℤ → Bool
same_int (pos a) (pos b) = eqb a b
same_int (pos a) (negsuc b) = false
same_int (negsuc a) (pos b) = false
same_int (negsuc a) (negsuc b) = eqb a b

-- std::unordered_map<int, ...>: find, and m[index] = info
unfoldable pub find_price : ℤ → Table → Option Price
find_price i [] = none
find_price i ((j, p) ∷ t) = let rest = find_price i t in if same_int j i then some p else rest

unfoldable pub put_price : ℤ → Price → Table → Table
put_price i p [] = (i, p) ∷ []
put_price i p ((j, q) ∷ t) =
    let rest = put_price i p t in if same_int j i then (i, p) ∷ t else (j, q) ∷ rest

-- ParsePriceType
unfoldable pub parse_price_type : Text → PriceType
parse_price_type word =
    if word == codes "COIN" then coin else if word == codes "CASH" then cash else coin

-- The test that LoadStoreBalloons has in its place.
unfoldable pub balloon_price_type : Text → PriceType
balloon_price_type word = if word == codes "COIN" then coin else cash

-- What a line gives: nothing, an exception of std::stoi, or an entry.
pub data Row : Type 0 where
  skipped : Row
  threw : Row
  entry : ℤ → Price → Row

abbrev pub row_of : PriceType → Option ℤ → Option ℤ → Row
row_of kind none p = threw
row_of kind (some i) none = threw
row_of kind (some i) (some n) = entry i (record { price = n; price_type = kind })

-- A row of LoadStoreCharacters, which skips a row with less than three fields.
type_field : Text → Text → Option (Text × Text) → Row
type_field idx price none = skipped
type_field idx price (some (word, _)) = row_of (parse_price_type word) (stoi idx) (stoi price)

price_field : Text → Option (Text × Text) → Row
price_field idx none = skipped
price_field idx (some (price, rest)) = type_field idx price (getline b',' rest)

index_field : Option (Text × Text) → Row
index_field none = skipped
index_field (some (idx, rest)) = price_field idx (getline b',' rest)

unfoldable pub character_row : Text → Row
unfolding index_field price_field type_field
character_row line = index_field (getline b',' line)

-- A row of the other loaders, where a missing field is empty.
unfoldable pub plain_row : (Text → PriceType) → Text → Row
plain_row parse line =
    let (idx, rest) = line_or_empty (getline b',' line) in
    let (price, rest') = line_or_empty (getline b',' rest) in
    let (word, _) = line_or_empty (getline b',' rest') in
    row_of (parse word) (stoi idx) (stoi price)

-- How a load ends: it returns true, it returns false, or std::stoi throws. `fuel_out` never happens.
pub data Loading : Type 0 where
  loaded missing thrown fuel_out : Loading

-- `if (line.empty()) continue;`
unfoldable pub line_row : (Text → Row) → Text → Row
line_row row [] = skipped
line_row row (c ∷ line) = row (c ∷ line)

-- The loop over the lines.
unfoldable pub load_rows : ℕ → (Text → Row) → Text → Table → Table × Loading
load_rows zero row s t = (t, fuel_out)
load_rows (suc f) row s t = elim (getline 10 s) [
  | none ↦ (t, loaded)
  | some (line, rest) ↦ elim (line_row row line) [
    | skipped ↦ load_rows f row rest t
    | threw ↦ (t, thrown)
    | entry i p ↦ load_rows f row rest (put_price i p t)
  ]
]

-- A loader: the header line is skipped, and each round of the loop takes a byte at least.
unfoldable pub load_table : (Text → Row) → Option Text → Table → Table × Loading
load_table row none t = (t, missing)
load_table row (some s) t =
    let (_, rest) = line_or_empty (getline 10 s) in load_rows (suc (length rest)) row rest []

-- LoadStoreCharacters, LoadStoreBalloons, LoadStoreEmotes and LoadStoreIcons
unfoldable pub load_store_characters : Option Text → StoreData → StoreData × Loading
load_store_characters file s =
    let (t, r) = load_table character_row file s.characters in (record s { characters = t }, r)

unfoldable pub load_store_balloons : Option Text → StoreData → StoreData × Loading
load_store_balloons file s =
    let (t, r) = load_table (plain_row balloon_price_type) file s.balloons in
    (record s { balloons = t }, r)

unfoldable pub load_store_emotes : Option Text → StoreData → StoreData × Loading
load_store_emotes file s =
    let (t, r) = load_table (plain_row parse_price_type) file s.emotes in
    (record s { emotes = t }, r)

unfoldable pub load_store_icons : Option Text → StoreData → StoreData × Loading
load_store_icons file s =
    let (t, r) = load_table (plain_row parse_price_type) file s.icons in (record s { icons = t }, r)

-- GetStoreCharInfo and the like: `none` for false.
unfoldable pub get_store_char_info : ℤ → StoreData → Option Price
get_store_char_info i s = find_price i s.characters

unfoldable pub get_store_balloon_info : ℤ → StoreData → Option Price
get_store_balloon_info i s = find_price i s.balloons

unfoldable pub get_store_emote_info : ℤ → StoreData → Option Price
get_store_emote_info i s = find_price i s.emotes

unfoldable pub get_store_icon_info : ℤ → StoreData → Option Price
get_store_icon_info i s = find_price i s.icons
