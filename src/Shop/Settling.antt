-- ===== src/Shop/Settling.antt =====
-- How a purchase (TeamOFYServer/ClientHandler.cpp) ends, on all its branches.
use bn_bserver.Prelude.{ℕ, ◌≡◌, ◌⊎◌, Bool, true, false, Option, some, List, [], ◌++◌, if◌then◌else◌}
use bn_bserver.Prelude.Text.{Text, codes}
use bn_bserver.Prelude.Int.{ℤ, lt_int}
use bn_bserver.CsvStore.{Images, Disk, accepted, commit}
use bn_bserver.Store.{Price, StoreData}
use bn_bserver.Rooms.{Send}
use bn_bserver.Rooms.Clients.{Client, Clients}
use bn_bserver.Users.{
  profile_path, UserProfile, IntRow, Tables, UserManager, Action, Outcome, pure, ◌>>=◌, put_image,
}
use bn_bserver.Users.Rows.{FloatText}
use bn_bserver.Users.Save.{find_row}
use bn_bserver.Users.Query.{row_by_id}
use bn_bserver.Users.Settling.{has_stopped}
use bn_bserver.Shop.{
  Stock, user_of, to_client, is_owned, money_for, send_store_list, send_coin_info,
}
use bn_bserver.Shop.Buy.{paid}
use bn_bserver.Shop.Laws.{StockLaws}

module _ {ℓ} {E : Type ℓ} (io : FloatText E) (s : Stock E) (laws : StockLaws io s) (k : ℕ)
    (cs : Clients) (store : StoreData) (c : Client) (nickname : Text) where
  -- The messages behind a commit, or the refusal.
  abbrev answers : Bool → Action E (List Send)
  answers ok =
      if ok
      then send_coin_info cs c nickname
        >>= (λ a. send_store_list s cs store c nickname >>= (λ b. pure (a ++ b)))
      else pure (to_client c (codes "FILE_WRITE_ERROR|\n"))

  -- Two files were staged and committed: that of the things and that of the profiles.
  abbrev pub Stored : Disk → UserManager E → Type 0
  Stored d n =
      (text : Text) × (text' : Text) × (commit k
          (put_image laws.path text (put_image profile_path text' [])) d
        ≡ (n.files, accepted))

  module _ (t : Tables E) (r : IntRow)
      (there : find_row IntRow.id (user_of cs nickname) (s.rows t) ≡ some r) where
    abbrev Ends : Disk → Outcome (List Send) × UserManager E → Type ℓ
    Ends d x =
        (has_stopped x.0 ≡ true)
        ⊎ (((x.1.committed ≡ false) × (x.1.files ≡ d))
            ⊎ ((x.1.committed ≡ true) × (x.1.tables ≡ t) × Stored d x.1))

    abbrev opened : Disk → Images → UserManager E
    opened d pending = record {
      tables = t;
      pending = pending;
      active = true;
      committed = false;
      files = d;
    }

  -- The rows of the things behind the lookup of the user, and the row that was found or made.
  abbrev pub rows_of : Tables E → List IntRow
  rows_of t =
      (row_by_id IntRow.id (user_of cs nickname) (s.new_row (user_of cs nickname)) (s.rows t)).1

  abbrev pub row_of : Tables E → IntRow
  row_of t =
      (row_by_id IntRow.id (user_of cs nickname) (s.new_row (user_of cs nickname)) (s.rows t)).0

  -- The tables behind a purchase of a thing for a price.
  abbrev pub tables_bought : ℤ → Price → Tables E → Tables E
  tables_bought j price t = paid s (user_of cs nickname) j price (s.set_rows (rows_of t) t)

  -- A thing that the user did not own and could pay was bought: the tables are those behind the payment, and two files
  -- were committed.
  abbrev pub Bought : Option ℤ → UserManager E → UserManager E → Type ℓ
  Bought i m n =
      (j : ℤ) × (p : UserProfile E) × (price : Price) × (i ≡ some j)
      × (find_row UserProfile.id (user_of cs nickname) m.tables.profiles ≡ some p)
      × (is_owned j (row_of m.tables).values ≡ false)
      × (s.price_of j store ≡ some price)
      × (lt_int (money_for price.price_type p) price.price ≡ false)
      × (n.tables ≡ tables_bought j price m.tables)
      × Stored m.files n

  abbrev Finishes : Option ℤ → UserManager E → Outcome (List Send) × UserManager E → Type ℓ
  Finishes i m x =
      (has_stopped x.0 ≡ true)
      ⊎ (((x.1.committed ≡ false) × (x.1.files ≡ m.files))
          ⊎ ((x.1.committed ≡ true) × Bought i m x.1))

  -- How a purchase ends: the process was stopped, or all is as before and no transaction is open, or a thing was
  -- bought and no transaction is open.
  abbrev pub Closed : Option ℤ → UserManager E → Outcome (List Send) × UserManager E → Type ℓ
  Closed i m x =
      (has_stopped x.0 ≡ true)
      ⊎ ((x.1 ≡ record m { pending = []; active = false; committed = false })
          ⊎ ((x.1.active ≡ false) × Bought i m x.1))
