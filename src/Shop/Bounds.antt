-- ===== src/Shop/Bounds.antt =====
-- The numbers of the tables behind a purchase (TeamOFYServer/ClientHandler.cpp).
use bn_bserver.Prelude.{
  ℕ, suc, ◌≡◌, refl, inl, inr, Bool, true, false, Option, none, some, [], ◌++◌, if◌then◌else◌, All,
  Bool-cases,
}
use bn_bserver.Prelude.Text.{Text, codes}
use bn_bserver.Prelude.Int.{ℤ, lt_int}
use bn_bserver.Store.{Price, StoreData}
use bn_bserver.Rooms.Clients.{Client, Clients}
use bn_bserver.Users.{
  UserProfile, IntRow, Tables, UserManager, pure, ◌>>=◌, commit_transaction, in_transaction,
}
use bn_bserver.Users.Rows.{FloatText}
use bn_bserver.Users.RowTrip.{IsField, IsIntRow}
use bn_bserver.Users.Loaded.{All-map}
use bn_bserver.Users.Register.{is_empty}
use bn_bserver.Users.Save.{find_row, save_user_profile}
use bn_bserver.Users.Query.{get_user_profile_by_id, row_by_id, change_row}
use bn_bserver.Users.Others.{change_row-All, change_row-All_found}
use bn_bserver.Shop.{
  Stock, user_of, is_owned, money_for, pay, to_client, send_store_list, send_coin_info,
}
use bn_bserver.Users.Untouched.{run_then-Same, save_lines-Same, commit-Same}
use bn_bserver.Shop.Buy.{record_purchase, paid, buy_priced, buy_with, buy}
use bn_bserver.Shop.Laws.{StockLaws}
use bn_bserver.Shop.Batch.{pay-id}
use bn_bserver.Shop.Amounts.{
  IsAmount, IsSolvent, IsBounded, StockBounds, Preserves, own-IsIntRow, pay-IsSolvent,
  run_then-IsBounded, leave-IsBounded, Same-Preserves, send_coin_info-Same,
}
use bn_bserver.Users.Others.{row_by_id-All, find_row-All}

module _ {ℓ} {E : Type ℓ} (io : FloatText E) (s : Stock E) (laws : StockLaws io s)
    (bounds : StockBounds io s laws) (k : ℕ) (cs : Clients) (store : StoreData) (c : Client)
    (nickname : Text) (some_id : IsField (user_of cs nickname)) where
  with_row-IsBounded :
      (t : Tables E)
      → IsBounded io t
      → IsBounded io (
          s.set_rows
            (row_by_id IntRow.id
              (user_of cs nickname)
              (s.new_row (user_of cs nickname))
              (s.rows t)).1
            t)
  with_row-IsBounded t h = record {
    stored =
        bounds.sets _ t
          (row_by_id-All (IsIntRow (suc laws.width)) IntRow.id _ _ (s.rows t)
            (bounds.fresh _ some_id) (laws.stored t h.stored))
          h.stored;
    solvent = rw (laws.profiles_there t.profiles _ t) h.solvent;
  }

  send_store_list-Preserves : Preserves io (send_store_list s cs store c nickname)
  unfolding send_store_list
  send_store_list-Preserves m h = elim (Bool-cases (is_empty (user_of cs nickname))) [
    | inl nobody ↦ rw nobody h
    | inr somebody ↦ rw somebody (with_row-IsBounded m.tables h)
  ]

  answers-Preserves :
      (ok : Bool)
      → Preserves io (
          if ok
          then send_coin_info cs c nickname
            >>= (λ a. send_store_list s cs store c nickname >>= (λ b. pure (a ++ b)))
          else pure (to_client c (codes "FILE_WRITE_ERROR|\n")))
  answers-Preserves false m h = h
  answers-Preserves true m h =
      run_then-IsBounded io (λ a. send_store_list s cs store c nickname >>= (λ b. pure (a ++ b)))
        (send_coin_info cs c nickname m)
        (Same-Preserves io (send_coin_info cs c nickname) (send_coin_info-Same io cs c nickname) m
          h)
        (λ a n h'.
          run_then-IsBounded io (λ b. pure (a ++ b)) (send_store_list s cs store c nickname n)
            (send_store_list-Preserves n h') (λ b o h''. h''))

  record_purchase-Preserves : Preserves io (record_purchase s io k cs store c nickname)
  unfolding record_purchase save_user_profile
  record_purchase-Preserves m h =
      let u = user_of cs nickname in
      run_then-IsBounded io
        (λ ok.
          if ok
          then send_coin_info cs c nickname
            >>= (λ a. send_store_list s cs store c nickname >>= (λ b. pure (a ++ b)))
          else pure (to_client c (codes "FILE_WRITE_ERROR|\n")))
        ((save_user_profile io u >>= (λ _. s.save u) >>= (λ _. commit_transaction k)) m)
        (Same-Preserves io
          (save_user_profile io u >>= (λ _. s.save u) >>= (λ _. commit_transaction k))
          (λ n.
            run_then-Same _ n _
              (run_then-Same (λ _. s.save u) n (save_user_profile io u n) (save_lines-Same _ _ u n)
                (λ _ o. rw (laws.saves u) (save_lines-Same laws.path _ u o)))
              (λ _. commit-Same k))
          m h)
        answers-Preserves

  -- The prices are amounts.
  module _
      (amounts : (i : ℤ) (price : Price)
        → s.price_of i store ≡ some price
        → IsAmount price.price) where
    paid-IsBounded :
        (i : ℤ) (price : Price) (p : UserProfile E) (t : Tables E)
        → s.price_of i store ≡ some price
        → find_row UserProfile.id (user_of cs nickname) t.profiles ≡ some p
        → lt_int (money_for price.price_type p) price.price ≡ false
        → IsBounded io t
        → IsBounded io (paid s (user_of cs nickname) i price t)
    unfolding paid
    paid-IsBounded i price p t priced there enough h =
        let solvent : All (IsSolvent io)
            (change_row UserProfile.id (user_of cs nickname) (pay price) t.profiles) =
          change_row-All_found UserProfile.id _ (pay price) (pay-id price) (IsSolvent io) t.profiles
            p there h.solvent
            (pay-IsSolvent io price.price_type price.price p (amounts i price priced) enough
              (find_row-All (IsSolvent io) UserProfile.id _ t.profiles p h.solvent there)) in
        record {
          stored =
              bounds.sets _ _
                (change_row-All (IsIntRow (suc laws.width)) IntRow.id _ _ (s.rows t)
                  (own-IsIntRow (suc laws.width) i) (laws.stored t h.stored))
                (record {
                  users = h.stored.users;
                  profiles = All-map (λ (q : UserProfile E) (g : IsSolvent io q). g.0) _ solvent;
                  characters = h.stored.characters;
                  emotes = h.stored.emotes;
                  stats = h.stored.stats;
                  balloons = h.stored.balloons;
                  icons = h.stored.icons;
                });
          solvent = rw (laws.profiles_there _ _ t) solvent;
        }

    buy_priced-IsBounded :
        (i : ℤ) (p : UserProfile E) (price : Option Price) (m : UserManager E)
        → s.price_of i store ≡ price
        → find_row UserProfile.id (user_of cs nickname) m.tables.profiles ≡ some p
        → IsBounded io m.tables
        → IsBounded io (buy_priced s io k cs store c nickname i p price m).1.tables
    unfolding buy_priced
    buy_priced-IsBounded i p none m priced there h = h
    buy_priced-IsBounded i p (some price) m priced there h =
        elim (Bool-cases (lt_int (money_for price.price_type p) price.price)) [
          | inl poor ↦ rw poor h
          | inr rich ↦ rw rich (
              record_purchase-Preserves
                (record m { tables = paid s (user_of cs nickname) i price m.tables })
                (paid-IsBounded i price p m.tables priced there rich h))
        ]

    buy_with-IsBounded :
        (i : ℤ) (p : Option (UserProfile E)) (m : UserManager E)
        → find_row UserProfile.id (user_of cs nickname) m.tables.profiles ≡ p
        → IsBounded io m.tables
        → IsBounded io (buy_with s io k cs store c nickname i p m).1.tables
    unfolding buy_with
    buy_with-IsBounded i none m there h = h
    buy_with-IsBounded i (some p) m there h =
        let found =
          row_by_id IntRow.id (user_of cs nickname) (s.new_row (user_of cs nickname))
            (s.rows m.tables) in
        let h' = with_row-IsBounded m.tables h in
        elim (Bool-cases (is_owned i found.0.values)) [
          | inl owned ↦ rw owned h'
          | inr new ↦ rw new (
              buy_priced-IsBounded i p (s.price_of i store)
                (record m { tables = s.set_rows found.1 m.tables }) refl
                (rw (laws.profiles_there m.tables.profiles found.1 m.tables) there) h')
        ]

    buy-Preserves : (i : Option ℤ) → Preserves io (buy s io k cs store c nickname i)
    unfolding buy get_user_profile_by_id
    buy-Preserves none m h = h
    buy-Preserves (some i) m h = elim (Bool-cases (is_empty (user_of cs nickname))) [
      | inl nobody ↦ rw nobody h
      | inr somebody ↦
          rw somebody
            (buy_with-IsBounded i (get_user_profile_by_id (user_of cs nickname) m.tables) m refl h)
    ]

    -- If every row of the tables can be read back and nobody has less than no money, so it is behind a
    -- purchase, whatever is asked for and however it ends: the id of the buyer has no comma and no line feed,
    -- and no price is negative.
    pub buy-IsBounded :
        (i : Option ℤ) (m : UserManager E)
        → IsBounded io m.tables
        → IsBounded io (in_transaction (buy s io k cs store c nickname i) m).1.tables
    unfolding in_transaction
    buy-IsBounded i m h = elim (Bool-cases m.active) [
      | inl open_already ↦ simp open_already h
      | inr idle ↦ simp idle (
          leave-IsBounded io m.tables _ h
            (buy-Preserves i (record m { pending = []; active = true; committed = false }) h))
    ]
