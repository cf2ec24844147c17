-- ===== src/Store/Tests.antt =====
-- A price table with a repeated index, and rows that the loaders read differently.
use bn_bserver.Prelude.{◌≡◌, refl, some, [], ◌∷◌, arith}
use bn_bserver.Prelude.Text.{codes, has_byte, ◌==◌}
use bn_bserver.Prelude.Int.{pos}
use bn_bserver.Store.{
  coin, cash, Price, Table, StoreData, skipped, entry, loaded, character_row, plain_row,
  parse_price_type, balloon_price_type, load_store_characters, load_store_balloons,
  load_store_emotes, load_store_icons, get_store_char_info, get_store_balloon_info,
  get_store_emote_info, get_store_icon_info,
}
use bn_bserver.Store.Tables.{table_text, last_price, find_price-load_table}

abbrev free : Price
free = record { price = pos 0; price_type = coin }

abbrev dear : Price
dear = record { price = pos 30000; price_type = cash }

abbrev prices : Table
prices = (pos 0, free) ∷ (pos 1, free) ∷ (pos 1, dear) ∷ []

abbrev closed : StoreData
closed = record { characters = []; balloons = []; emotes = (pos 4, free) ∷ []; icons = [] }

find_price-load_table_example :
    let file = some (table_text (codes "index,price,priceType") prices) in
    ((load_store_characters file closed).1 ≡ loaded)
    × (get_store_char_info (pos 1) (load_store_characters file closed).0
        ≡ last_price (pos 1) prices)
    × ((load_store_balloons file closed).1 ≡ loaded)
    × (get_store_balloon_info (pos 1) (load_store_balloons file closed).0
        ≡ last_price (pos 1) prices)
    × ((load_store_emotes file closed).1 ≡ loaded)
    × (get_store_emote_info (pos 1) (load_store_emotes file closed).0 ≡ last_price (pos 1) prices)
    × ((load_store_icons file closed).1 ≡ loaded)
    × (get_store_icon_info (pos 1) (load_store_icons file closed).0 ≡ last_price (pos 1) prices)
unfolding has_byte
find_price-load_table_example =
    find_price-load_table (codes "index,price,priceType") prices (pos 1) closed refl
      ((omega arith, omega arith), ((omega arith, omega arith), ((omega arith, omega arith), tt)))

last_price_one : last_price (pos 1) prices ≡ some dear
unfolding last_price bn_bserver.Store.same_int
last_price_one = refl

-- An unknown word is CASH for a balloon and COIN elsewhere.
balloon_word : balloon_price_type (codes "GOLD") ≡ cash
unfolding balloon_price_type ◌==◌
balloon_word = refl

icon_word : parse_price_type (codes "GOLD") ≡ coin
unfolding parse_price_type ◌==◌
icon_word = refl
