-- ===== src/Shop/BoundsTests.antt =====
-- The numbers behind a purchase, at a concrete input.
use bn_bserver.Prelude.{◌≡◌, refl, ap, subst, none, some, [], ◌∷◌, arith, Bool-cases, inl, inr}
use bn_bserver.Prelude.Text.{codes, ◌==◌, has_byte, trim}
use bn_bserver.Prelude.Int.{ℤ, pos}
use bn_bserver.Store.{coin, Price, StoreData, get_store_char_info, find_price, same_int}
use bn_bserver.Rooms.Clients.{get_id_by_nickname, id_in}
use bn_bserver.Users.{in_transaction}
use bn_bserver.Users.RowTrip.{IsField}
use bn_bserver.Users.Sample.{halves, two_users, server, two_users-IsStored}
use bn_bserver.Shop.{characters, user_of}
use bn_bserver.Shop.Buy.{buy}
use bn_bserver.Shop.Laws.{characters-StockLaws}
use bn_bserver.Shop.Amounts.{IsAmount, IsBounded, characters-StockBounds}
use bn_bserver.Shop.Bounds.{buy-IsBounded}
use bn_bserver.Shop.Tests.{ann_client, connected}

abbrev twenty : Price
twenty = record { price = pos 20; price_type = coin }

abbrev prices : StoreData
prices = record { characters = (pos 3, twenty) ∷ []; balloons = []; emotes = []; icons = [] }

prices-IsAmount :
    (i : ℤ) (price : Price) → get_store_char_info i prices ≡ some price → IsAmount price.price
unfolding get_store_char_info find_price
prices-IsAmount i price h = elim (Bool-cases (same_int (pos 3) i)) [
  | inl same ↦
      let found : some twenty ≡ some price = rw (← h) (rw same refl) in
      let is : twenty ≡ price = ap (λ o. elim o [ none ↦ twenty | some q ↦ q ]) found in
      subst (λ q. IsAmount q.price) is (omega arith)
  | inr other ↦ absurd (ground arith)
]

ann_named : IsField (user_of connected (codes "Ann"))
unfolding get_id_by_nickname id_in trim ◌==◌ has_byte
ann_named = (refl, refl)

two_users-IsBounded : IsBounded halves two_users
two_users-IsBounded = record {
  stored = two_users-IsStored;
  solvent = (
    (two_users-IsStored.profiles.0, omega arith, omega arith),
    ((two_users-IsStored.profiles.1.0, omega arith, omega arith), tt),
  );
}

buy-IsBounded_example :
    IsBounded halves
      (in_transaction
        (buy characters halves 4 connected prices ann_client (codes "Ann") (some (pos 3)))
        server).1.tables
buy-IsBounded_example =
    buy-IsBounded halves characters (characters-StockLaws halves) (characters-StockBounds halves) 4
      connected prices ann_client (codes "Ann") ann_named prices-IsAmount (some (pos 3)) server
      two_users-IsBounded
