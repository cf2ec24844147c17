-- ===== src/Shop/Tests.antt =====
-- Ann buys a character, and the server starts again.
use bn_bserver.Prelude.{◌≤◌, ◌≡◌, refl, Bool, true, false, some, [], ◌∷◌, arith, All, length}
use bn_bserver.Prelude.Text.{codes, ◌==◌, has_byte, trim}
use bn_bserver.Prelude.Lines.{joined_by}
use bn_bserver.Prelude.Decimal.{to_string}
use bn_bserver.Prelude.Int.{pos, int_string, lt_int, sub_int}
use bn_bserver.CsvStore.{commit, max_image}
use bn_bserver.Store.{coin, cash, Price, StoreData, get_store_char_info}
use bn_bserver.Rooms.Clients.{Client, Clients, get_id_by_nickname, id_in}
use bn_bserver.Users.{UserProfile, IntRow, Tables, UserManager, returned, in_transaction}
use bn_bserver.Users.Rows.{noughts, values_text, int_row_text, profile_text}
use bn_bserver.Users.Save.{find_row}
use bn_bserver.Users.Query.{value_at, change_at, change_row}
use bn_bserver.Users.Load.{load_users}
use bn_bserver.Users.Loaded.{IsStored, Mirrors}
use bn_bserver.Users.Saved.{rows_with}
use bn_bserver.Users.Sample.{
  halves, two_users, two_files, server, profile_with, row, two_users-IsStored, two_mirrors,
}
use bn_bserver.Shop.{characters, user_of, is_owned, own, money_for, pay}
use bn_bserver.Shop.Buy.{paid, buy}
use bn_bserver.Prelude.{Bool}
use bn_bserver.Store.{same_int}
use bn_bserver.Shop.Batch.{images}
use bn_bserver.Shop.Laws.{characters-StockLaws}
use bn_bserver.Shop.Purchase.{
  charged, with_thing, purchase_sends, IsCustomer, buy-Mirrors, buy-load_users,
}

abbrev pub ann_client : Client
ann_client = record { socket = 4; id = codes "ann"; nickname = codes "Ann" }

abbrev pub connected : Clients
connected = record { clients_map = (codes "ann", ann_client) ∷ []; all = ann_client ∷ [] }

abbrev thirty : Price
thirty = record { price = pos 30; price_type = coin }

abbrev prices : StoreData
prices = record { characters = (pos 2, thirty) ∷ []; balloons = []; emotes = []; icons = [] }

ann-IsCustomer :
    IsCustomer halves characters
      (characters-StockLaws halves)
      server
      (user_of connected (codes "Ann"))
      (profile_with (codes "ann") (pos 100))
      (row (codes "ann") 6)
unfolding get_id_by_nickname id_in trim ◌==◌ rows_with find_row
ann-IsCustomer = record {
  idle = refl;
  some_name = refl;
  stored = two_users-IsStored;
  mirrors = two_mirrors;
  one_profile = omega arith;
  one_row = omega arith;
  profile = refl;
  row = refl;
}

third_new : is_owned (pos 2) (row (codes "ann") 6).values ≡ false
unfolding is_owned value_at noughts
third_new = refl

third_priced : get_store_char_info (pos 2) prices ≡ some thirty
unfolding get_store_char_info bn_bserver.Store.find_price bn_bserver.Store.same_int
third_priced = refl

ann_can_pay : lt_int (money_for coin (profile_with (codes "ann") (pos 100))) (pos 30) ≡ false
unfolding money_for
ann_can_pay = refl

-- The name behind the nickname, and the tables behind the purchase.
abbrev ann_buys : Tables Bool
ann_buys = paid characters (user_of connected (codes "Ann")) (pos 2) thirty two_users

ann_batch-fits :
    All
      (λ f. length f.1 ≤ max_image)
      (images halves characters
        (characters-StockLaws halves)
        two_mirrors.profiles.0
        two_mirrors.characters.0
        (user_of connected (codes "Ann"))
        (pos 2)
        thirty
        two_users)
unfolding two_mirrors characters-StockLaws ann-IsCustomer get_id_by_nickname id_in trim ◌==◌
    change_row pay own change_at sub_int joined_by noughts int_row_text profile_text values_text
    int_string to_string
ann_batch-fits = (omega arith, (omega arith, tt))

-- Ann behind the purchase, and Bob beside it.
abbrev ann_charged : UserProfile Bool
ann_charged = charged thirty (profile_with (codes "ann") (pos 100))

abbrev ann_with_third : IntRow
ann_with_third = with_thing 2 (row (codes "ann") 6)

buy-Mirrors_example :
    let after =
      images halves characters
        (characters-StockLaws halves)
        two_mirrors.profiles.0
        two_mirrors.characters.0
        (user_of connected (codes "Ann"))
        (pos 2)
        thirty
        two_users in
    let ann = user_of connected (codes "Ann") in
    (in_transaction
        (buy characters halves 4 connected prices ann_client (codes "Ann") (some (pos 2)))
        server
      ≡ (
        returned (
            purchase_sends halves characters
              (characters-StockLaws halves)
              prices
              ann_client
              (codes "Ann")
              ann_charged
              ann_with_third.values),
        record {
          tables = ann_buys;
          pending = [];
          active = false;
          committed = false;
          files = (commit 4 after two_files).0;
        },
      ))
    × (find_row UserProfile.id ann ann_buys.profiles ≡ some ann_charged)
    × (find_row IntRow.id ann ann_buys.characters ≡ some ann_with_third)
    × (find_row UserProfile.id (codes "bob") ann_buys.profiles
        ≡ find_row UserProfile.id (codes "bob") two_users.profiles)
    × (find_row IntRow.id (codes "bob") ann_buys.characters
        ≡ find_row IntRow.id (codes "bob") two_users.characters)
    × Mirrors halves (commit 4 after two_files).0 ann_buys
unfolding characters-StockLaws ann-IsCustomer get_id_by_nickname id_in trim ◌==◌ noughts
buy-Mirrors_example =
    buy-Mirrors halves characters (characters-StockLaws halves) connected prices ann_client
      (codes "Ann") (pos 2) thirty server (profile_with (codes "ann") (pos 100))
      (row (codes "ann") 6) 4 ann-IsCustomer third_new third_priced ann_can_pay (omega arith)
      ann_batch-fits 2 refl (omega arith) (codes "bob") refl

ann_buys-IsStored : IsStored halves ann_buys
unfolding get_id_by_nickname id_in trim ◌==◌ paid change_row pay own change_at sub_int has_byte
    noughts
ann_buys-IsStored = record {
  users = two_users-IsStored.users;
  profiles =
      let (ann, (bob, _)) = two_users-IsStored.profiles in
      ((ann.0, ann.1, ann.2, (ann.3.0, (omega arith, ann.3.1.1))), (bob, tt));
  characters =
      let (ann, (bob, _)) = two_users-IsStored.characters in
      (
        (
          ann.0,
          ann.1,
          (
            omega arith,
            (
              omega arith,
              (omega arith, (omega arith, (omega arith, (omega arith, (omega arith, tt))))),
            ),
          ),
        ),
        (bob, tt),
      );
  emotes = two_users-IsStored.emotes;
  stats = two_users-IsStored.stats;
  balloons = two_users-IsStored.balloons;
  icons = two_users-IsStored.icons;
}

abbrev restarted : UserManager Bool
restarted = record {
  tables = record {
    users = [];
    profiles = [];
    characters = [];
    emotes = [];
    stats = [];
    balloons = [];
    icons = [];
  };
  pending = [];
  active = false;
  committed = false;
  files =
      (in_transaction
        (buy characters halves 4 connected prices ann_client (codes "Ann") (some (pos 2)))
        server).1.files;
}

buy-load_users_example :
    (load_users halves restarted ≡ (returned true, record restarted { tables = ann_buys }))
    × (find_row UserProfile.id
          (user_of connected (codes "Ann"))
          (load_users halves restarted).1.tables.profiles
        ≡ some ann_charged)
    × (find_row IntRow.id
          (user_of connected (codes "Ann"))
          (load_users halves restarted).1.tables.characters
        ≡ some ann_with_third)
unfolding characters-StockLaws ann-IsCustomer noughts
buy-load_users_example =
    buy-load_users halves characters (characters-StockLaws halves) connected prices ann_client
      (codes "Ann") (pos 2) thirty server (profile_with (codes "ann") (pos 100))
      (row (codes "ann") 6) 4 ann-IsCustomer third_new third_priced ann_can_pay (omega arith)
      ann_batch-fits 2 refl (omega arith) restarted ann_buys-IsStored refl
