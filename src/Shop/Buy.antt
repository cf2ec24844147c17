-- ===== src/Shop/Buy.antt =====
-- The BUY handlers of TeamOFYServer/ClientHandler.cpp.
use bn_bserver.Prelude.{ℕ, Option, none, some, List, [], ◌++◌, if◌then◌else◌}
use bn_bserver.Prelude.Text.{Text, codes, getline, line_or_empty}
use bn_bserver.Prelude.Int.{ℤ, stoi, lt_int}
use bn_bserver.Store.{Price, StoreData}
use bn_bserver.Rooms.{Send}
use bn_bserver.Rooms.Clients.{Client, Clients}
use bn_bserver.Users.{
  UserProfile, IntRow, Tables, Action, returned, threw, pure, ◌>>=◌, commit_transaction,
  in_transaction,
}
use bn_bserver.Users.Rows.{FloatText}
use bn_bserver.Users.Register.{is_empty}
use bn_bserver.Users.Save.{save_user_profile}
use bn_bserver.Users.Query.{get_user_profile_by_id, row_by_id, change_row}
use bn_bserver.Shop.{
  user_of, Stock, characters, balloons, emotes, icons, is_owned, own, money_for, pay, refusal,
  to_client, told, send_coin_info, send_store_list,
}

module _ {ℓ} {E : Type ℓ} where
  -- Behind the payment: the two files, the commit and the answers.
  unfoldable pub record_purchase :
      Stock E → FloatText E → ℕ → Clients → StoreData → Client → Text → Action E (List Send)
  record_purchase s io k cs store c nickname =
      save_user_profile io (user_of cs nickname)
      >>= (λ _. s.save (user_of cs nickname))
      >>= (λ _. commit_transaction k)
      >>= (λ ok.
          if ok
          then send_coin_info cs c nickname
            >>= (λ a. send_store_list s cs store c nickname >>= (λ b. pure (a ++ b)))
          else pure (to_client c (codes "FILE_WRITE_ERROR|\n")))

  -- The tables behind a payment.
  unfoldable pub paid : Stock E → Text → ℤ → Price → Tables E → Tables E
  paid s u i price t =
      s.set_rows (change_row IntRow.id u (λ r. record r { values = own i r.values }) (s.rows t))
        (record t { profiles = change_row UserProfile.id u (pay price) t.profiles })

  unfoldable pub buy_priced :
      Stock E
      → FloatText E
      → ℕ
      → Clients
      → StoreData
      → Client
      → Text
      → ℤ
      → UserProfile E
      → Option Price
      → Action E (List Send)
  buy_priced s io k cs store c nickname i p none m = (returned [], m)
  buy_priced s io k cs store c nickname i p (some price) m =
      if lt_int (money_for price.price_type p) price.price
      then (returned (told s.tells c (refusal price.price_type)), m)
      else record_purchase s io k cs store c nickname
          (record m { tables = paid s (user_of cs nickname) i price m.tables })

  unfoldable pub buy_with :
      Stock E
      → FloatText E
      → ℕ
      → Clients
      → StoreData
      → Client
      → Text
      → ℤ
      → Option (UserProfile E)
      → Action E (List Send)
  buy_with s io k cs store c nickname i none m = (threw, m)
  buy_with s io k cs store c nickname i (some p) m =
      let u = user_of cs nickname in
      let (row, rows) = row_by_id IntRow.id u (s.new_row u) (s.rows m.tables) in
      let m' = record m { tables = s.set_rows rows m.tables } in
      if is_owned i row.values
      then (returned (told s.tells c (codes "BUY_FAIL|ALREADY_OWNED\n")), m')
      else buy_priced s io k cs store c nickname i p (s.price_of i store) m'

  -- A handler behind its parsing.
  unfoldable pub buy :
      Stock E
      → FloatText E
      → ℕ
      → Clients
      → StoreData
      → Client
      → Text
      → Option ℤ
      → Action E (List Send)
  buy s io k cs store c nickname none m = (threw, m)
  buy s io k cs store c nickname (some i) m =
      let u = user_of cs nickname in
      if is_empty u
      then (returned [], m)
      else buy_with s io k cs store c nickname i (get_user_profile_by_id u m.tables) m

  -- BUY_CHAR does not test its fields.
  unfoldable pub buy_char :
      FloatText E → ℕ → Clients → StoreData → Client → Text → Action E (List Send)
  buy_char io k cs store c input =
      let (nickname, rest) = line_or_empty (getline b',' input) in
      let (index, _) = line_or_empty (getline 10 rest) in
      in_transaction (buy characters io k cs store c nickname (stoi index))

  buy_index :
      Stock E
      → FloatText E
      → ℕ
      → Clients
      → StoreData
      → Client
      → Text
      → Option (Text × Text)
      → Action E (List Send)
  buy_index s io k cs store c nickname none = pure []
  buy_index s io k cs store c nickname (some (index, _)) =
      buy s io k cs store c nickname (stoi index)

  buy_fields :
      Stock E
      → FloatText E
      → ℕ
      → Clients
      → StoreData
      → Client
      → Option (Text × Text)
      → Action E (List Send)
  buy_fields s io k cs store c none = pure []
  buy_fields s io k cs store c (some (nickname, rest)) =
      buy_index s io k cs store c nickname (getline 10 rest)

  unfoldable pub buy_balloon :
      FloatText E → ℕ → Clients → StoreData → Client → Text → Action E (List Send)
  unfolding buy_fields buy_index
  buy_balloon io k cs store c input =
      in_transaction (buy_fields balloons io k cs store c (getline b',' input))

  unfoldable pub buy_emo :
      FloatText E → ℕ → Clients → StoreData → Client → Text → Action E (List Send)
  unfolding buy_fields buy_index
  buy_emo io k cs store c input =
      in_transaction (buy_fields emotes io k cs store c (getline b',' input))

  unfoldable pub buy_icon :
      FloatText E → ℕ → Clients → StoreData → Client → Text → Action E (List Send)
  unfolding buy_fields buy_index
  buy_icon io k cs store c input =
      in_transaction (buy_fields icons io k cs store c (getline b',' input))
