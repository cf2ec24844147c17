-- ===== src/Shop/Amounts.antt =====
-- Amounts: numbers of the tables that no purchase makes negative (TeamOFYServer/ClientHandler.cpp).
use bn_bserver.Prelude.{
  ℕ, zero, suc, ◌^◌, ◌<◌, ◌≡◌, refl, ◌∙◌, inl, inr, Bool, true, false, Option, none, some, List, [],
  ◌∷◌, if◌then◌else◌, All, arith, Bool-cases,
}
use bn_bserver.Prelude.Text.{Text}
use bn_bserver.Prelude.Int.{ℤ, pos, negsuc, lt_int, sub_int}
use bn_bserver.Prelude.Int.RoundTrip.{IsInt}
use bn_bserver.Store.{PriceType, coin, cash}
use bn_bserver.Rooms.Clients.{Client, Clients}
use bn_bserver.Users.{
  UserProfile, IntRow, Tables, UserManager, Action, Outcome, returned, threw, terminated, run_then,
  leave, end_transaction,
}
use bn_bserver.Users.Rows.{FloatText}
use bn_bserver.Users.RowTrip.{IsField, IsIntRow, IsProfileRow}
use bn_bserver.Users.Loaded.{IsStored}
use bn_bserver.Users.Register.{is_empty}
use bn_bserver.Users.Query.{get_user_profile_by_id, change_at}
use bn_bserver.Shop.{Stock, user_of, own, money_for, pay, coin_info, send_coin_info}
use bn_bserver.Users.Untouched.{Same}
use bn_bserver.Shop.Worn.{length-change_at}
use bn_bserver.Shop.Laws.{
  StockLaws, characters-StockLaws, balloons-StockLaws, emotes-StockLaws, icons-StockLaws,
}
use bn_bserver.Users.Rows.{ones, noughts}
use bn_bserver.Shop.{characters, balloons, emotes, icons}

-- An int that is not negative.
abbrev pub IsAmount : ℤ → Type 0
IsAmount (pos n) = n < 2 ^ 31
IsAmount (negsuc n) = ⊥

sub_int-IsAmount :
    (money price : ℤ)
    → IsAmount money
    → IsAmount price
    → lt_int money price ≡ false
    → IsAmount (sub_int money price)
unfolding sub_int
sub_int-IsAmount (pos a) (pos b) h k enough = ground arith
sub_int-IsAmount (pos a) (negsuc b) h k enough = absurd k
sub_int-IsAmount (negsuc a) price h k enough = absurd h

IsAmount-IsInt : (n : ℤ) → IsAmount n → IsInt n
IsAmount-IsInt (pos n) h = h
IsAmount-IsInt (negsuc n) h = absurd h

change_at-IsInt :
    (i : ℕ) (f : ℤ → ℤ) (vs : List ℤ)
    → ((v : ℤ) → IsInt (f v))
    → All IsInt vs
    → All IsInt (change_at i f vs)
unfolding change_at
change_at-IsInt i f [] fits h = tt
change_at-IsInt zero f (v ∷ vs) fits (k, h) = (fits v, h)
change_at-IsInt (suc i) f (v ∷ vs) fits (k, h) = (k, change_at-IsInt i f vs fits h)

pub own-IsIntRow :
    (n : ℕ) (i : ℤ) (r : IntRow) → IsIntRow n r → IsIntRow n (record r { values = own i r.values })
unfolding own
own-IsIntRow n (pos i) r (id, long, ints) = (
  id,
  length-change_at i (λ v. pos 1) r.values ∙ long,
  change_at-IsInt i (λ v. pos 1) r.values (λ v. omega arith) ints,
)
own-IsIntRow n (negsuc i) r h = h

module _ {ℓ} {E : Type ℓ} (io : FloatText E) where
  -- A profile that can be read back and has no debts.
  abbrev pub IsSolvent : UserProfile E → Type ℓ
  IsSolvent p = IsProfileRow io p × IsAmount p.money0 × IsAmount p.money1

  pub pay-IsSolvent :
      (kind : PriceType) (n : ℤ) (p : UserProfile E)
      → IsAmount n
      → lt_int (money_for kind p) n ≡ false
      → IsSolvent p
      → IsSolvent (pay (record { price = n; price_type = kind }) p)
  unfolding money_for pay
  pay-IsSolvent coin n p amount enough (row, coins, cash_left) =
      let left = sub_int-IsAmount p.money0 n coins amount enough in
      ((row.0, row.1, row.2, (row.3.0, (IsAmount-IsInt _ left, row.3.1.1))), left, cash_left)
  pay-IsSolvent cash n p amount enough (row, coins, cash_left) =
      let left = sub_int-IsAmount p.money1 n cash_left amount enough in
      (
        (row.0, row.1, row.2, (row.3.0, (row.3.1.0, (IsAmount-IsInt _ left, row.3.1.1.1)))),
        coins,
        left,
      )

  -- Tables that can be read back, in which nobody has debts.
  pub record IsBounded (t : Tables E) : Type ℓ where
    pub stored : IsStored io t
    pub solvent : All IsSolvent t.profiles

  module _ (s : Stock E) (laws : StockLaws io s) where
    -- What the tables need of a kind of things.
    pub record StockBounds : Type ℓ where
      pub sets :
          (rs : List IntRow) (t : Tables E)
          → All (IsIntRow (suc laws.width)) rs
          → IsStored io t
          → IsStored io (s.set_rows rs t)
      pub fresh : (u : Text) → IsField u → IsIntRow (suc laws.width) (s.new_row u)

  abbrev pub Preserves : {A : Type 0} → Action E A → Type ℓ
  Preserves x = (m : UserManager E) → IsBounded m.tables → IsBounded (x m).1.tables

  module _ {A B : Type 0} (f : A → Action E B) where
    pub run_then-IsBounded :
        (x : Outcome A × UserManager E)
        → IsBounded x.1.tables
        → ((a : A) → Preserves (f a))
        → IsBounded (run_then x f).1.tables
    run_then-IsBounded (returned a, n) h keeps = keeps a n h
    run_then-IsBounded (threw, n) h keeps = h
    run_then-IsBounded (terminated, n) h keeps = h

  either-IsBounded :
      (b : Bool) (t copies : Tables E)
      → IsBounded t
      → IsBounded copies
      → IsBounded (if b then t else copies)
  either-IsBounded true t copies h before = h
  either-IsBounded false t copies h before = before

  pub leave-IsBounded :
      {A : Type 0} (copies : Tables E) (x : Outcome A × UserManager E)
      → IsBounded copies
      → IsBounded x.1.tables
      → IsBounded (leave copies x).1.tables
  unfolding leave end_transaction
  leave-IsBounded copies (terminated, n) before h = h
  leave-IsBounded copies (returned a, n) before h =
      either-IsBounded n.committed n.tables copies h before
  leave-IsBounded copies (threw, n) before h = either-IsBounded n.committed n.tables copies h before

  pub Same-Preserves : {A : Type 0} (x : Action E A) → Same x → Preserves x
  Same-Preserves x same m h = rw (same m) h

  coin_info-Same :
      (c : Client) (nickname : Text) (p : Option (UserProfile E)) → Same (coin_info c nickname p)
  unfolding coin_info
  coin_info-Same c nickname none m = refl
  coin_info-Same c nickname (some p) m = refl

  pub send_coin_info-Same :
      (cs : Clients) (c : Client) (nickname : Text) → Same (send_coin_info {E = E} cs c nickname)
  unfolding send_coin_info
  send_coin_info-Same cs c nickname m = elim (Bool-cases (is_empty (user_of cs nickname))) [
    | inl nobody ↦ rw nobody refl
    | inr somebody ↦
        rw somebody
          (coin_info-Same c nickname (get_user_profile_by_id (user_of cs nickname) m.tables) m)
  ]

module _ {ℓ} {E : Type ℓ} (io : FloatText E) where
  pub characters-StockBounds : StockBounds io characters (characters-StockLaws io)
  unfolding characters-StockLaws ones noughts
  characters-StockBounds = record {
    sets = λ rs t h stored. record {
      users = stored.users;
      profiles = stored.profiles;
      characters = h;
      emotes = stored.emotes;
      stats = stored.stats;
      balloons = stored.balloons;
      icons = stored.icons;
    };
    fresh = λ u id. (id, refl, omega arith);
  }

  pub balloons-StockBounds : StockBounds io balloons (balloons-StockLaws io)
  unfolding balloons-StockLaws ones noughts
  balloons-StockBounds = record {
    sets = λ rs t h stored. record {
      users = stored.users;
      profiles = stored.profiles;
      characters = stored.characters;
      emotes = stored.emotes;
      stats = stored.stats;
      balloons = h;
      icons = stored.icons;
    };
    fresh = λ u id. (id, refl, omega arith);
  }

  pub emotes-StockBounds : StockBounds io emotes (emotes-StockLaws io)
  unfolding emotes-StockLaws noughts
  emotes-StockBounds = record {
    sets = λ rs t h stored. record {
      users = stored.users;
      profiles = stored.profiles;
      characters = stored.characters;
      emotes = h;
      stats = stored.stats;
      balloons = stored.balloons;
      icons = stored.icons;
    };
    fresh = λ u id. (id, refl, omega arith);
  }

  pub icons-StockBounds : StockBounds io icons (icons-StockLaws io)
  unfolding icons-StockLaws ones noughts
  icons-StockBounds = record {
    sets = λ rs t h stored. record {
      users = stored.users;
      profiles = stored.profiles;
      characters = stored.characters;
      emotes = stored.emotes;
      stats = stored.stats;
      balloons = stored.balloons;
      icons = h;
    };
    fresh = λ u id. (id, refl, omega arith);
  }
