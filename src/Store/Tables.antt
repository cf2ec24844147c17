-- ===== src/Store/Tables.antt =====
-- Loading a table that is written row by row: the price of an index is that of its last row.
use bn_bserver.Prelude.{
  ℕ, zero, suc, ◌<◌, ◌≡◌, refl, true, false, Option, none, some, [], ◌∷◌, ◌++◌, if◌then◌else◌,
  arith, length, length-append, All, ◌↔◌, ◌∙◌,
}
use bn_bserver.Prelude.Text.{
  Text, codes, ◌==◌, has_byte, before_byte, after_byte, getline, getline-append, has_byte-append,
  line_or_empty,
}
use bn_bserver.Prelude.Decimal.{is_digit, to_string}
use bn_bserver.Prelude.Decimal.RoundTrip.{Leads, to_string-Leads}
use bn_bserver.Prelude.Int.{ℤ, pos, negsuc, int_string}
use bn_bserver.Prelude.Int.RoundTrip.{IsInt, stoi-int_string, has_byte-int_string}
use bn_bserver.Store.{
  PriceType, coin, cash, Price, Table, StoreData, same_int, find_price, put_price, parse_price_type,
  balloon_price_type, Row, entry, character_row, plain_row, loaded, line_row, load_rows, load_table,
  load_store_characters, load_store_balloons, load_store_emotes, load_store_icons,
  get_store_char_info, get_store_balloon_info, get_store_emote_info, get_store_icon_info,
  index_field, price_field, type_field,
}

abbrev word : PriceType → Text
word coin = codes "COIN"
word cash = codes "CASH"

-- "index,price,word", the rows with their line feeds, and the file with a header line.
unfoldable row_text : ℤ → Price → Text
row_text i p = int_string i ++ b',' ∷ (int_string p.price ++ b',' ∷ word p.price_type)

unfoldable rows_text : Table → Text
rows_text [] = []
rows_text ((i, p) ∷ rs) = row_text i p ++ 10 ∷ rows_text rs

unfoldable pub table_text : Text → Table → Text
unfolding rows_text row_text
table_text header rs = header ++ 10 ∷ rows_text rs

abbrev pub or_else : Option Price → Option Price → Option Price
or_else none o = o
or_else (some p) o = some p

-- The price of the last row for an index.
unfoldable pub last_price : ℤ → Table → Option Price
last_price i [] = none
last_price i ((j, p) ∷ rs) = or_else (last_price i rs) (if same_int j i then some p else none)

-- A row of numbers that are ints.
abbrev pub IsRow : ℤ × Price → Type 0
IsRow (i, p) = IsInt i × IsInt p.price

getline-word : (k : PriceType) → getline b',' (word k) ≡ some (word k, [])
unfolding getline before_byte after_byte
getline-word coin = refl
getline-word cash = refl

parse_price_type-word : (k : PriceType) → parse_price_type (word k) ≡ k
unfolding parse_price_type ◌==◌
parse_price_type-word coin = refl
parse_price_type-word cash = refl

balloon_price_type-word : (k : PriceType) → balloon_price_type (word k) ≡ k
unfolding balloon_price_type ◌==◌
balloon_price_type-word coin = refl
balloon_price_type-word cash = refl

has_byte-word : (k : PriceType) → has_byte 10 (word k) ≡ false
unfolding has_byte
has_byte-word coin = refl
has_byte-word cash = refl

no_comma : (z : ℤ) → has_byte b',' (int_string z) ≡ false
unfolding is_digit
no_comma z = has_byte-int_string b',' z refl refl

no_newline : (z : ℤ) → has_byte 10 (int_string z) ≡ false
unfolding is_digit
no_newline z = has_byte-int_string 10 z refl refl

character_row-row_text :
    (i : ℤ) (p : Price) → IsRow (i, p) → character_row (row_text i p) ≡ entry i p
unfolding character_row row_text index_field price_field type_field
character_row-row_text i p h = rw (
  getline-append b',' (int_string i) _ (no_comma i),
  getline-append b',' (int_string p.price) _ (no_comma p.price),
  getline-word p.price_type,
  parse_price_type-word p.price_type,
  stoi-int_string i h.0,
  stoi-int_string p.price h.1,
)

plain_row-row_text :
    (parse : Text → PriceType) (i : ℤ) (p : Price)
    → ((k : PriceType) → parse (word k) ≡ k)
    → IsRow (i, p)
    → plain_row parse (row_text i p) ≡ entry i p
unfolding plain_row row_text line_or_empty
plain_row-row_text parse i p back h = rw (
  getline-append b',' (int_string i) _ (no_comma i),
  getline-append b',' (int_string p.price) _ (no_comma p.price),
  getline-word p.price_type,
  back p.price_type,
  stoi-int_string i h.0,
  stoi-int_string p.price h.1,
)

row_text-newline : (i : ℤ) (p : Price) → has_byte 10 (row_text i p) ≡ false
unfolding row_text has_byte
row_text-newline i p = has_byte-append 10 (int_string i) _ (no_newline i) (
    ground (
      arith,
      has_byte-append 10 (int_string p.price) (b',' ∷ word p.price_type) (no_newline p.price)
          (ground (arith, has_byte-word p.price_type)),
    ))

-- The rows one after the other.
stored : Table → Table → Table
stored [] t = t
stored ((i, p) ∷ rs) t = stored rs (put_price i p t)

-- A way to read a row that reads every written row.
abbrev Reads : (Text → Row) → Type 0
Reads row = (i : ℤ) (p : Price) → IsRow (i, p) → row (row_text i p) ≡ entry i p

line_row-Leads : (row : Text → Row) (s t : Text) → Leads s → line_row row (s ++ t) ≡ row (s ++ t)
unfolding line_row
line_row-Leads row [] t h = absurd h
line_row-Leads row (c ∷ s) t h = refl

line_row-row_text :
    (row : Text → Row) (i : ℤ) (p : Price) → line_row row (row_text i p) ≡ row (row_text i p)
unfolding row_text int_string line_row
line_row-row_text row (pos n) p = line_row-Leads row (to_string n) _ (to_string-Leads n)
line_row-row_text row (negsuc n) p = refl

load_rows-entry :
    (f : ℕ) (row : Text → Row) (s line rest : Text) (i : ℤ) (p : Price) (t : Table)
    → getline 10 s ≡ some (line, rest)
    → line_row row line ≡ entry i p
    → load_rows (suc f) row s t ≡ load_rows f row rest (put_price i p t)
unfolding load_rows
load_rows-entry f row s line rest i p t h k = rw (load_rows, h, k)

load_rows-rows_text :
    (f : ℕ) (row : Text → Row) (rs t : Table)
    → Reads row
    → All IsRow rs
    → length (rows_text rs) < f
    → load_rows f row (rows_text rs) t ≡ (stored rs t, loaded)
unfolding load_rows rows_text stored getline
load_rows-rows_text zero row rs t reads good enough = absurd (omega arith)
load_rows-rows_text (suc f) row [] t reads good enough = refl
load_rows-rows_text (suc f) row ((i, p) ∷ rs) t reads (h, good) enough =
    load_rows-entry f row _ (row_text i p) (rows_text rs) i p t
      (getline-append 10 (row_text i p) (rows_text rs) (row_text-newline i p))
      (line_row-row_text row i p ∙ reads i p h)
    ∙ load_rows-rows_text f row rs (put_price i p t) reads good
        (omega (arith, length-append (row_text i p) (10 ∷ rows_text rs)))

same_int_iff : (a b : ℤ) → (same_int a b ≡ true) ↔ (a ≡ b)
unfolding same_int
same_int_iff (pos a) (pos b) = ground arith
same_int_iff (pos a) (negsuc b) = ground arith
same_int_iff (negsuc a) (pos b) = ground arith
same_int_iff (negsuc a) (negsuc b) = ground arith

find_price-put_price :
    (i j : ℤ) (p : Price) (t : Table)
    → find_price i (put_price j p t) ≡ (if same_int j i then some p else find_price i t)
unfolding find_price put_price
find_price-put_price i j p [] = refl
find_price-put_price i j p ((k, q) ∷ t) =
    ground
      (arith, find_price-put_price i j p t, same_int_iff k j, same_int_iff j i, same_int_iff k i)

or_else-put_price :
    (i j : ℤ) (p : Price) (t : Table) (o : Option Price)
    → or_else o (find_price i (put_price j p t))
      ≡ or_else (or_else o (if same_int j i then some p else none)) (find_price i t)
or_else-put_price i j p t none = ground (arith, find_price-put_price i j p t)
or_else-put_price i j p t (some q) = refl

find_price-stored :
    (i : ℤ) (rs t : Table) → find_price i (stored rs t) ≡ or_else (last_price i rs) (find_price i t)
unfolding stored last_price
find_price-stored i [] t = refl
find_price-stored i ((j, p) ∷ rs) t =
    find_price-stored i rs (put_price j p t) ∙ or_else-put_price i j p t (last_price i rs)

-- A loader and its lookup, at one table of the store.
load_table-table_text :
    (row : Text → Row) (header : Text) (rs t : Table)
    → Reads row
    → has_byte 10 header ≡ false
    → All IsRow rs
    → load_table row (some (table_text header rs)) t ≡ (stored rs [], loaded)
unfolding load_table table_text line_or_empty
load_table-table_text row header rs t reads one_line good =
    rw (getline-append 10 header (rows_text rs) one_line)
      (load_rows-rows_text (suc (length (rows_text rs))) row rs [] reads good (omega arith))

or_else-none : (o : Option Price) → or_else o none ≡ o
or_else-none none = refl
or_else-none (some p) = refl

find_price-last : (i : ℤ) (rs : Table) → find_price i (stored rs []) ≡ last_price i rs
unfolding find_price
find_price-last i rs = find_price-stored i rs [] ∙ or_else-none (last_price i rs)

characters-Reads : Reads character_row
characters-Reads i p h = character_row-row_text i p h

plain-Reads : Reads (plain_row parse_price_type)
plain-Reads i p h = plain_row-row_text parse_price_type i p parse_price_type-word h

balloons-Reads : Reads (plain_row balloon_price_type)
balloons-Reads i p h = plain_row-row_text balloon_price_type i p balloon_price_type-word h

-- The answers of the four loaders of a written table: each returns true, whatever the store held, and
-- from then on the lookup of an index gives the price of the last row for it, or none. The header
-- has no line feed and the numbers of the rows are ints.
pub find_price-load_table :
    (header : Text) (rs : Table) (i : ℤ) (s : StoreData)
    → has_byte 10 header ≡ false
    → All IsRow rs
    → let file = some (table_text header rs) in
      ((load_store_characters file s).1 ≡ loaded)
      × (get_store_char_info i (load_store_characters file s).0 ≡ last_price i rs)
      × ((load_store_balloons file s).1 ≡ loaded)
      × (get_store_balloon_info i (load_store_balloons file s).0 ≡ last_price i rs)
      × ((load_store_emotes file s).1 ≡ loaded)
      × (get_store_emote_info i (load_store_emotes file s).0 ≡ last_price i rs)
      × ((load_store_icons file s).1 ≡ loaded)
      × (get_store_icon_info i (load_store_icons file s).0 ≡ last_price i rs)
unfolding load_store_characters load_store_balloons load_store_emotes load_store_icons
    get_store_char_info get_store_balloon_info get_store_emote_info get_store_icon_info
find_price-load_table header rs i s one_line good =
    rw
      (
        load_table-table_text character_row header rs s.characters characters-Reads one_line good,
        load_table-table_text (plain_row balloon_price_type) header rs s.balloons balloons-Reads
            one_line good,
        load_table-table_text (plain_row parse_price_type) header rs s.emotes plain-Reads one_line
            good,
        load_table-table_text (plain_row parse_price_type) header rs s.icons plain-Reads one_line
            good,
      )
      (
        refl,
        find_price-last i rs,
        refl,
        find_price-last i rs,
        refl,
        find_price-last i rs,
        refl,
        find_price-last i rs,
      )
