-- ===== src/Shop/Purchase.antt =====
-- The tables and the files behind a purchase (TeamOFYServer/ClientHandler.cpp).
use bn_bserver.Prelude.{
  subst, ℕ, zero, suc, arith, take, drop, ◌<◌, ◌≤◌, ◌≡◌, refl, sym, ◌∙◌, ap, true, false, some,
  List, [], ◌∷◌, ◌++◌, All, length,
}
use bn_bserver.Prelude.Text.{Text, ◌==◌, codes}
use bn_bserver.Prelude.Int.{ℤ, pos, lt_int, sub_int, int_string}
use bn_bserver.CsvStore.{Images, max_image, commit}
use bn_bserver.Store.{PriceType, coin, cash, Price, StoreData}
use bn_bserver.Rooms.{Send}
use bn_bserver.Rooms.Clients.{Client, Clients}
use bn_bserver.Users.{
  UserProfile, IntRow, Tables, UserManager, returned, end_transaction, in_transaction, leave,
}
use bn_bserver.Users.Rows.{FloatText}
use bn_bserver.Users.Register.{is_empty}
use bn_bserver.Users.Save.{find_row}
use bn_bserver.Users.Query.{get_user_profile_by_id, row_by_id, change_at}
use bn_bserver.Users.Load.{load_users}
use bn_bserver.Users.Loaded.{IsStored, Mirrors, load_users-Mirrors}
use bn_bserver.Users.Saved.{rows_with, find_row-change_row}
use bn_bserver.Users.Others.{find_row-change_row_other}
use bn_bserver.Shop.{
  Stock, user_of, to_client, is_owned, own, money_for, pay, list_entries, coin_info,
  send_store_list, send_coin_info,
}
use bn_bserver.Shop.Buy.{record_purchase, paid, buy_priced, buy_with, buy}
use bn_bserver.Shop.Laws.{StockLaws}
use bn_bserver.Shop.Batch.{pay-id, images, new_rows, save_profile, save_row, commits, after-Mirrors}

-- What is left of coins and of cash when a price is paid.
abbrev pub coins_left : PriceType → ℤ → ℤ → ℤ
coins_left coin money price = sub_int money price
coins_left cash money price = money

abbrev pub cash_left : PriceType → ℤ → ℤ → ℤ
cash_left coin money price = money
cash_left cash money price = sub_int money price

-- A profile that has paid a price.
abbrev pub charged {ℓ} : {E : Type ℓ} → Price → UserProfile E → UserProfile E
charged price p = record {
  id = p.id;
  level = p.level;
  exp = p.exp;
  icon = p.icon;
  money0 = coins_left price.price_type p.money0 price.price;
  money1 = cash_left price.price_type p.money1 price.price;
  emo0 = p.emo0;
  emo1 = p.emo1;
  emo2 = p.emo2;
  emo3 = p.emo3;
  balloon = p.balloon;
}

pay-charged {ℓ} : {E : Type ℓ} (price : Price) (p : UserProfile E) → pay price p ≡ charged price p
unfolding pay
pay-charged price p =
    elim price.price_type
      as (λ k.
        pay (record { price = price.price; price_type = k }) p
        ≡ charged (record { price = price.price; price_type = k }) p) [ coin ↦ refl | cash ↦ refl ]

-- A row with a 1 for a thing.
abbrev pub with_thing : ℕ → IntRow → IntRow
with_thing n r = record { id = r.id; values = take n r.values ++ pos 1 ∷ drop (suc n) r.values }

own-with_thing :
    (n : ℕ) (vs : List ℤ) → n < length vs → own (pos n) vs ≡ take n vs ++ pos 1 ∷ drop (suc n) vs
unfolding own change_at
own-with_thing n [] h = absurd (omega (arith, h))
own-with_thing zero (v ∷ vs) h = refl
own-with_thing (suc n) (v ∷ vs) h = ap (λ ws. v ∷ ws) (own-with_thing n vs (omega (arith, h)))

module _ {ℓ} {E : Type ℓ} (io : FloatText E) (s : Stock E) (laws : StockLaws io s) where
  -- What a client is sent behind a purchase: its money and its list.
  abbrev pub purchase_sends : StoreData → Client → Text → UserProfile E → List ℤ → List Send
  purchase_sends store c nickname p vs =
      to_client c (
        codes "COIN_INFO|"
        ++ (nickname ++ b',' ∷ (int_string p.money0 ++ b',' ∷ (int_string p.money1 ++ codes "\n"))))
      ++ to_client c (s.list_head ++ (list_entries s store vs 0 s.things ++ codes "\n"))

  -- A user who has a profile and a row, each once, in memory and in the files.
  pub record IsCustomer (m : UserManager E) (u : Text) (p : UserProfile E) (r : IntRow)
      : Type ℓ where
    pub idle : m.active ≡ false
    pub some_name : is_empty u ≡ false
    pub stored : IsStored io m.tables
    pub mirrors : Mirrors io m.files m.tables
    pub one_profile : rows_with UserProfile.id u m.tables.profiles ≤ 1
    pub one_row : rows_with IntRow.id u (s.rows m.tables) ≤ 1
    pub profile : find_row UserProfile.id u m.tables.profiles ≡ some p
    pub row : find_row IntRow.id u (s.rows m.tables) ≡ some r

  module _ (cs : Clients) (store : StoreData) (c : Client) (nickname : Text) (i : ℤ) (price : Price)
      (m : UserManager E) (p : UserProfile E) (r : IntRow) (k : ℕ)
      (customer : IsCustomer m (user_of cs nickname) p r) where
    abbrev pub tables_after : Tables E
    tables_after = paid s (user_of cs nickname) i price m.tables

    abbrev pub both_images : Images
    both_images =
        images io s laws customer.mirrors.profiles.0 (laws.file m.files m.tables customer.mirrors).0
          (user_of cs nickname) i price m.tables

    abbrev end_state : UserManager E
    end_state = record {
      tables = tables_after;
      pending = both_images;
      active = true;
      committed = true;
      files = (commit k both_images m.files).0;
    }

    tells_money : send_coin_info cs c nickname end_state ≡ (
      returned (
          to_client c (
            codes "COIN_INFO|"
            ++ (nickname
                ++ b','
                  ∷ (int_string (pay price p).money0
                      ++ b',' ∷ (int_string (pay price p).money1 ++ codes "\n"))))),
      end_state,
    )
    unfolding send_coin_info get_user_profile_by_id paid coin_info
    tells_money = rw (
      customer.some_name,
      laws.profiles_there _ _ m.tables,
      find_row-change_row UserProfile.id (user_of cs nickname) (pay price) m.tables.profiles p
          (pay-id price) customer.profile,
    )

    tells_list : send_store_list s cs store c nickname end_state ≡ (
      returned (
          to_client c
            (s.list_head ++ (list_entries s store (own i r.values) 0 s.things ++ codes "\n"))),
      end_state,
    )
    unfolding send_store_list row_by_id paid
    tells_list =
        let same_rows : s.set_rows (new_rows io s laws (user_of cs nickname) i m.tables)
              tables_after
            ≡ tables_after =
          ap (λ rs. s.set_rows rs tables_after) (sym (laws.rows_there _ _ m.tables))
          ∙ laws.same_rows tables_after in
        rw
          (
            customer.some_name,
            laws.rows_there _ _ m.tables,
            find_row-change_row IntRow.id (user_of cs nickname)
                (λ q. record q { values = own i q.values }) (s.rows m.tables) r (λ q. refl)
                customer.row,
          )
          (rw same_rows refl)

    module _ (new : is_owned i r.values ≡ false) (priced : s.price_of i store ≡ some price)
        (enough_money : lt_int (money_for price.price_type p) price.price ≡ false) (enough : 3 < k)
        (small : All (λ f. length f.1 ≤ max_image) both_images) where
      -- The purchase, by the functions that make it.
      bought-Mirrors :
          (in_transaction (buy s io k cs store c nickname (some i)) m ≡ (
            returned (purchase_sends store c nickname (pay price p) (own i r.values)),
            record {
              tables = paid s (user_of cs nickname) i price m.tables;
              pending = [];
              active = false;
              committed = false;
              files = (commit k both_images m.files).0;
            },
          ))
          × Mirrors io
              (commit k both_images m.files).0
              (paid s (user_of cs nickname) i price m.tables)
      unfolding in_transaction leave end_transaction buy buy_with buy_priced record_purchase
          get_user_profile_by_id row_by_id
      bought-Mirrors =
          let u = user_of cs nickname in
          let saved =
            save_profile io s laws u i price m.tables m.files p r customer.stored customer.mirrors
              customer.one_profile customer.one_row customer.profile customer.row in
          let saved' =
            save_row io s laws u i price m.tables m.files p r customer.stored customer.mirrors
              customer.one_profile customer.one_row customer.profile customer.row in
          let stores =
            commits io s laws u i price m.tables m.files p r customer.stored customer.mirrors
              customer.one_profile customer.one_row customer.profile customer.row k enough small.0
              small.1.0 in
          (
            rw
                (
                  customer.idle,
                  customer.some_name,
                  customer.profile,
                  customer.row,
                  laws.same_rows m.tables,
                  new,
                  priced,
                  enough_money,
                  saved,
                  saved',
                  stores,
                  tells_money,
                  tells_list,
                )
                refl,
            after-Mirrors io s laws u i price m.tables m.files p r customer.stored customer.mirrors
                customer.one_profile customer.one_row customer.profile customer.row k enough small.0
                small.1.0,
          )

      module _ (n : ℕ) (number : i ≡ pos n) (known : n < length r.values) where
        -- What is behind a purchase, in the tables: the profile of the user has paid, its row has the thing.
        found_profile :
            find_row UserProfile.id (user_of cs nickname) tables_after.profiles
            ≡ some (charged price p)
        unfolding paid
        found_profile =
            ap (find_row UserProfile.id (user_of cs nickname)) (laws.profiles_there _ _ m.tables)
            ∙ find_row-change_row UserProfile.id (user_of cs nickname) (pay price) m.tables.profiles
                p (pay-id price) customer.profile
            ∙ ap some (pay-charged price p)

        found_row :
            find_row IntRow.id (user_of cs nickname) (s.rows tables_after) ≡ some (with_thing n r)
        unfolding paid
        found_row =
            ap (find_row IntRow.id (user_of cs nickname)) (laws.rows_there _ _ m.tables)
            ∙ find_row-change_row IntRow.id (user_of cs nickname)
                (λ q. record q { values = own i q.values }) (s.rows m.tables) r (λ q. refl)
                customer.row
            ∙ ap (λ vs. some (record r { values = vs }))
                (ap (λ j. own j r.values) number ∙ own-with_thing n r.values known)

        -- A user who does not own a thing that the handler has a field for, has a profile and a row, each once, and
        -- has its price, buys it if no file call fails and both files are within the limit: behind it
        -- its profile has the price less in coins or in cash and all else as before, its row has the
        -- thing and all other things as before, and another user has its profile and its row as before; the files
        -- hold these tables again, nothing is pending, and the client gets its money and its list.
        pub buy-Mirrors :
            (v : Text)
            → (user_of cs nickname == v) ≡ false
            → (in_transaction (buy s io k cs store c nickname (some i)) m ≡ (
              returned (purchase_sends store c nickname (charged price p) (with_thing n r).values),
              record {
                tables = tables_after;
                pending = [];
                active = false;
                committed = false;
                files = (commit k both_images m.files).0;
              },
            ))
              × (find_row UserProfile.id (user_of cs nickname) tables_after.profiles
                  ≡ some (charged price p))
              × (find_row IntRow.id (user_of cs nickname) (s.rows tables_after)
                  ≡ some (with_thing n r))
              × (find_row UserProfile.id v tables_after.profiles
                  ≡ find_row UserProfile.id v m.tables.profiles)
              × (find_row IntRow.id v (s.rows tables_after)
                  ≡ find_row IntRow.id v (s.rows m.tables))
              × Mirrors io (commit k both_images m.files).0 tables_after
        unfolding paid
        buy-Mirrors v other =
            let (run, mirrors) = bought-Mirrors in
            (
              run
                  ∙ ap
                      (λ (x : UserProfile E × List ℤ). (
                        returned (purchase_sends store c nickname x.0 x.1),
                        record {
                          tables = tables_after;
                          pending = [];
                          active = false;
                          committed = false;
                          files = (commit k both_images m.files).0;
                        },
                      ))
                      (ap (λ q. (q, own i r.values)) (pay-charged price p)
                        ∙ ap (λ vs. (charged price p, vs))
                            (ap (λ j. own j r.values) number ∙ own-with_thing n r.values known)),
              found_profile,
              found_row,
              ap (find_row UserProfile.id v) (laws.profiles_there _ _ m.tables)
                  ∙ find_row-change_row_other UserProfile.id (user_of cs nickname) (pay price)
                      (pay-id price) v m.tables.profiles other,
              ap (find_row IntRow.id v) (laws.rows_there _ _ m.tables)
                  ∙ find_row-change_row_other IntRow.id (user_of cs nickname)
                      (λ q. record q { values = own i q.values }) (λ q. refl) v (s.rows m.tables)
                      other,
              mirrors,
            )

        -- A purchase survives a restart: with the conditions of a purchase, and if the tables behind it have
        -- rows that can be read back, a server that starts on the files behind it loads these tables, and
        -- finds the profile of the user with the price less in coins or in cash and all else as before,
        -- and its row with the thing and all other things as before.
        pub buy-load_users :
            (start : UserManager E)
            → IsStored io tables_after
            → start.files ≡ (in_transaction (buy s io k cs store c nickname (some i)) m).1.files
            → (load_users io start ≡ (returned true, record start { tables = tables_after }))
              × (find_row UserProfile.id
                    (user_of cs nickname)
                    (load_users io start).1.tables.profiles
                  ≡ some (charged price p))
              × (find_row IntRow.id (user_of cs nickname) (s.rows (load_users io start).1.tables)
                  ≡ some (with_thing n r))
        buy-load_users start readable same =
            let (run, mirrors) = bought-Mirrors in
            let loads = load_users-Mirrors io tables_after start readable (
              subst (λ d. Mirrors io d tables_after) (sym (same ∙ ap (λ x. x.1.files) run))
                mirrors) in
            (
              loads,
              ap (λ x. find_row UserProfile.id (user_of cs nickname) x.1.tables.profiles) loads
                  ∙ found_profile,
              ap (λ x. find_row IntRow.id (user_of cs nickname) (s.rows x.1.tables)) loads
                  ∙ found_row,
            )
