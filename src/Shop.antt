-- ===== src/Shop.antt =====
-- The shop: the BUY handlers of TeamOFYServer/ClientHandler.cpp and what they send. The proofs are in the
-- modules below.
--
-- The four handlers are alike: `Stock` is what differs. A nickname in the request decides whose money
-- is spent. An int that passes its limits is undefined in the source; here it goes on.
pub mod Buy
pub mod Laws
pub mod Equip
pub mod Worn
pub mod Exchanged
pub mod Dressing
pub mod Settling
pub mod Amounts
pub mod Bounds
pub mod Batch
pub mod Purchase
pub mod Tests
pub mod EquipTests
pub mod BoundsTests
use bn_bserver.Prelude.{
  ℕ, zero, suc, ◌+◌, Bool, true, false, not, Option, none, some, List, [], ◌∷◌, ◌++◌, if◌then◌else◌,
}
use bn_bserver.Prelude.Text.{Text, codes, getline, trim, line_or_empty}
use bn_bserver.Prelude.Decimal.{to_string}
use bn_bserver.Prelude.Int.{ℤ, pos, negsuc, int_string, stoi, lt_int, sub_int}
use bn_bserver.Store.{
  PriceType, coin, cash, Price, StoreData, get_store_char_info, get_store_balloon_info,
  get_store_emote_info, get_store_icon_info,
}
use bn_bserver.Rooms.{Send}
use bn_bserver.Rooms.Clients.{Client, Clients, get_id_by_nickname}
use bn_bserver.Users.{
  UserProfile, IntRow, Tables, UserManager, Action, Outcome, returned, threw, pure, ◌>>=◌,
  commit_transaction, in_transaction,
}
use bn_bserver.Users.Rows.{FloatText, noughts}
use bn_bserver.Users.Register.{is_empty, new_characters, new_ballons, new_icons}
use bn_bserver.Users.Save.{
  save_user_profile, save_user_characters, save_user_ballons, save_user_emotes, save_user_icons,
}
use bn_bserver.Users.Query.{get_user_profile_by_id, row_by_id, value_at, change_at, change_row}

-- Trim(GetIdByNickname(nickname))
abbrev pub user_of : Clients → Text → Text
user_of cs nickname = trim (get_id_by_nickname cs nickname)

-- What a handler knows of one kind of things: their vector, a new record, the file, the prices, the
-- head of the list that is sent, the number of things, and whether refusals are told.
pub record Stock {ℓ} (E : Type ℓ) : Type ℓ where
  pub rows : Tables E → List IntRow
  pub set_rows : List IntRow → Tables E → Tables E
  pub new_row : Text → IntRow
  pub save : Text → Action E Bool
  pub price_of : ℤ → StoreData → Option Price
  pub list_head : Text
  pub things : ℕ
  pub tells : Bool

module _ {ℓ} {E : Type ℓ} where
  abbrev pub characters : Stock E
  characters = record {
    rows = Tables.characters;
    set_rows = λ rs t. record t { characters = rs };
    new_row = new_characters;
    save = save_user_characters;
    price_of = get_store_char_info;
    list_head = codes "STORE_CHAR_LIST|";
    things = 7;
    tells = true;
  }

  abbrev pub balloons : Stock E
  balloons = record {
    rows = Tables.balloons;
    set_rows = λ rs t. record t { balloons = rs };
    new_row = new_ballons;
    save = save_user_ballons;
    price_of = get_store_balloon_info;
    list_head = codes "STORE_BALLOON_LIST|";
    things = 10;
    tells = false;
  }

  abbrev pub emotes : Stock E
  emotes = record {
    rows = Tables.emotes;
    set_rows = λ rs t. record t { emotes = rs };
    new_row = λ u. record { id = u; values = noughts 36 };
    save = save_user_emotes;
    price_of = get_store_emote_info;
    list_head = codes "STORE_EMO_LIST|";
    things = 36;
    tells = false;
  }

  abbrev pub icons : Stock E
  icons = record {
    rows = Tables.icons;
    set_rows = λ rs t. record t { icons = rs };
    new_row = new_icons;
    save = save_user_icons;
    price_of = get_store_icon_info;
    list_head = codes "STORE_ICON_LIST|";
    things = 10;
    tells = false;
  }

abbrev is_zero : ℤ → Bool
is_zero (pos zero) = true
is_zero (pos (suc n)) = false
is_zero (negsuc n) = false

-- The switch over the fields: an index that no case has is not owned.
unfoldable pub is_owned : ℤ → List ℤ → Bool
is_owned (pos i) vs = not (is_zero (value_at i vs))
is_owned (negsuc i) vs = false

unfoldable pub own : ℤ → List ℤ → List ℤ
own (pos i) vs = change_at i (λ v. pos 1) vs
own (negsuc i) vs = vs

-- The money that a price is paid in, and a profile that has paid.
unfoldable pub money_for {ℓ} : {E : Type ℓ} → PriceType → UserProfile E → ℤ
money_for coin p = p.money0
money_for cash p = p.money1

unfoldable pub pay {ℓ} : {E : Type ℓ} → Price → UserProfile E → UserProfile E
pay price p = elim price.price_type [
  | coin ↦ record p { money0 = sub_int p.money0 price.price }
  | cash ↦ record p { money1 = sub_int p.money1 price.price }
]

abbrev pub refusal : PriceType → Text
refusal coin = codes "BUY_FAIL|NO_COIN\n"
refusal cash = codes "BUY_FAIL|NO_CASH\n"

abbrev pub to_client : Client → Text → List Send
to_client c message = record { socket = c.socket; message = message } ∷ []

abbrev pub told : Bool → Client → Text → List Send
told tells c message = if tells then to_client c message else []

price_entry : Option Price → Text
price_entry none = codes "0,NONE"
price_entry (some p) =
    int_string p.price ++ b',' ∷ elim p.price_type [ coin ↦ codes "COIN" | cash ↦ codes "CASH" ]

module _ {ℓ} {E : Type ℓ} where
  -- The entries from thing `i` on.
  pub list_entries : Stock E → StoreData → List ℤ → ℕ → ℕ → Text
  list_entries s store vs i zero = []
  list_entries s store vs i (suc n) =
      to_string i
      ++ b','
        ∷ ((if is_owned (pos i) vs
              then codes "1,0,NONE"
              else codes "0," ++ price_entry (s.price_of (pos i) store))
            ++ b'|' ∷ list_entries s store vs (i + 1) n)

  -- SendStoreCharList, SendStoreBalloonList, SendStoreEmoList and SendStoreIconList. A user without a
  -- record gets one.
  unfoldable pub send_store_list :
      Stock E → Clients → StoreData → Client → Text → Action E (List Send)
  unfolding list_entries price_entry
  send_store_list s cs store c nickname m =
      let u = user_of cs nickname in
      let (row, rows) = row_by_id IntRow.id u (s.new_row u) (s.rows m.tables) in
      if is_empty u then (returned [], m) else (
        returned (
            to_client c
              (s.list_head ++ (list_entries s store row.values 0 s.things ++ codes "\n"))),
        record m { tables = s.set_rows rows m.tables },
      )

  coin_info : Client → Text → Option (UserProfile E) → Action E (List Send)
  coin_info c nickname none m = (threw, m)
  coin_info c nickname (some p) m = (
    returned (
        to_client c (
          codes "COIN_INFO|"
          ++ (nickname
              ++ b',' ∷ (int_string p.money0 ++ b',' ∷ (int_string p.money1 ++ codes "\n"))))),
    m,
  )

  -- SendCoinInfo
  unfoldable pub send_coin_info : Clients → Client → Text → Action E (List Send)
  unfolding coin_info
  send_coin_info cs c nickname m =
      let u = user_of cs nickname in
      if is_empty u
      then (returned [], m)
      else coin_info c nickname (get_user_profile_by_id u m.tables) m
