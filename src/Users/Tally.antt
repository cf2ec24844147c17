-- ===== src/Users/Tally.antt =====
-- The counts of UpdateWinLoss (TeamOFYServer/UserManager.cpp), by character and together.
use bn_bserver.Prelude.{
  ℕ, zero, suc, ◌+◌, ◌*◌, ◌<◌, ◌≤◌, ◌≡◌, ◌⊎◌, ltb, inl, inr, refl, ◌∙◌, ap, Bool, true, false, some,
  List, [], ◌∷◌, if◌then◌else◌, arith, All, length, Bool-cases,
}
use bn_bserver.Prelude.Text.{Text, ◌==◌}
use bn_bserver.Prelude.Int.{ℤ, pos, negsuc}
use bn_bserver.Users.{IntRow, Tables}
use bn_bserver.Users.Query.{next_int, value_at, change_at, count_game, change_row, update_win_loss}
use bn_bserver.Users.Save.{find_row}
use bn_bserver.Users.Saved.{find_row-change_row}
use bn_bserver.Users.Others.{find_row-All}

-- The wins and the losses of the characters in turn, as the fields stand in a row.
abbrev pub Games : Type 0
Games = List (ℕ × ℕ)

unfoldable pub by_character : Games → List ℤ
by_character [] = []
by_character ((w, l) ∷ games) = pos w ∷ pos l ∷ by_character games

unfoldable pub total_wins : Games → ℕ
total_wins [] = 0
total_wins ((w, l) ∷ games) = w + total_wins games

unfoldable pub total_losses : Games → ℕ
total_losses [] = 0
total_losses ((w, l) ∷ games) = l + total_losses games

unfoldable pub count_at : Bool → ℕ → Games → Games
count_at won c [] = []
count_at won zero ((w, l) ∷ games) = (if won then (suc w, l) else (w, suc l)) ∷ games
count_at won (suc c) ((w, l) ∷ games) = (w, l) ∷ count_at won c games

pub change_at-win :
    (c : ℕ) (games : Games)
    → change_at (2 * c) next_int (by_character games) ≡ by_character (count_at true c games)
unfolding change_at by_character count_at next_int
change_at-win zero [] = refl
change_at-win (suc c) [] = refl
change_at-win zero ((w, l) ∷ games) = refl
change_at-win (suc c) ((w, l) ∷ games) =
    let two : 2 * suc c ≡ suc (suc (2 * c)) = omega arith in
    rw two (ap (λ vs. pos w ∷ pos l ∷ vs) (change_at-win c games))

pub change_at-loss :
    (c : ℕ) (games : Games)
    → change_at (2 * c + 1) next_int (by_character games) ≡ by_character (count_at false c games)
unfolding change_at by_character count_at next_int
change_at-loss zero [] = refl
change_at-loss (suc c) [] = refl
change_at-loss zero ((w, l) ∷ games) = refl
change_at-loss (suc c) ((w, l) ∷ games) =
    let two : 2 * suc c + 1 ≡ suc (suc (2 * c + 1)) = omega arith in
    rw two (ap (λ vs. pos w ∷ pos l ∷ vs) (change_at-loss c games))

length-count_at :
    (won : Bool) (c : ℕ) (games : Games) → length (count_at won c games) ≡ length games
unfolding count_at
length-count_at won c [] = refl
length-count_at won zero (g ∷ games) = refl
length-count_at won (suc c) (g ∷ games) = ap suc (length-count_at won c games)

total_wins-count_at :
    (won : Bool) (c : ℕ) (games : Games)
    → c < length games
    → total_wins (count_at won c games) ≡ (if won then suc (total_wins games) else total_wins games)
unfolding count_at total_wins
total_wins-count_at won c [] h = absurd (omega arith)
total_wins-count_at true zero (g ∷ games) h = omega arith
total_wins-count_at false zero (g ∷ games) h = refl
total_wins-count_at won (suc c) (g ∷ games) h =
    ground (arith, total_wins-count_at won c games (omega arith))

total_losses-count_at :
    (won : Bool) (c : ℕ) (games : Games)
    → c < length games
    → total_losses (count_at won c games)
      ≡ (if won then total_losses games else suc (total_losses games))
unfolding count_at total_losses
total_losses-count_at won c [] h = absurd (omega arith)
total_losses-count_at true zero (g ∷ games) h = refl
total_losses-count_at false zero (g ∷ games) h = omega arith
total_losses-count_at won (suc c) (g ∷ games) h =
    ground (arith, total_losses-count_at won c games (omega arith))

-- A row of seven characters whose wins and losses add up to winCount and loseCount.
pub record IsTally (r : IntRow) : Type 0 where
  pub games : Games
  pub seven : length games ≡ 7
  pub values : r.values ≡ pos (total_wins games) ∷ pos (total_losses games) ∷ by_character games

count_game-IsTally :
    (won : Bool) (c : ℕ) (r : IntRow)
    → c < 7
    → IsTally r
    → IsTally (record r { values = count_game won (pos c) r.values })
unfolding count_game next_int
count_game-IsTally true c r h tally = record {
  games = count_at true c tally.games;
  seven = length-count_at true c tally.games ∙ tally.seven;
  values = rw (
    tally.values,
    change_at-win c tally.games,
    total_wins-count_at true c tally.games (rw tally.seven h),
    total_losses-count_at true c tally.games (rw tally.seven h),
  );
}
count_game-IsTally false c r h tally = record {
  games = count_at false c tally.games;
  seven = length-count_at false c tally.games ∙ tally.seven;
  values = rw (
    tally.values,
    change_at-loss c tally.games,
    total_wins-count_at false c tally.games (rw tally.seven h),
    total_losses-count_at false c tally.games (rw tally.seven h),
  );
}

-- The numbers that have fields in a record.
abbrev pub is_character : ℤ → Bool
is_character (pos c) = ltb c 7
is_character (negsuc c) = false

-- A row of seven characters with one win or one loss more in all than by character.
pub record IsAhead (won : Bool) (r : IntRow) : Type 0 where
  pub games : Games
  pub seven : length games ≡ 7
  pub values :
      r.values
      ≡ (if won then pos (suc (total_wins games)) else pos (total_wins games))
        ∷ (if won then pos (total_losses games) else pos (suc (total_losses games)))
        ∷ by_character games

change_at-beyond : (i : ℕ) (f : ℤ → ℤ) (vs : List ℤ) → length vs ≤ i → change_at i f vs ≡ vs
unfolding change_at
change_at-beyond i f [] h = refl
change_at-beyond zero f (v ∷ vs) h = absurd (omega (arith, h))
change_at-beyond (suc i) f (v ∷ vs) h =
    ap (λ ws. v ∷ ws) (change_at-beyond i f vs (omega (arith, h)))

length-by_character : (games : Games) → length (by_character games) ≡ 2 * length games
unfolding by_character
length-by_character [] = refl
length-by_character ((w, l) ∷ games) = let rest = length-by_character games in omega (arith, rest)

count_game-IsAhead :
    (won : Bool) (c : ℤ) (r : IntRow)
    → is_character c ≡ false
    → IsTally r
    → IsAhead won (record r { values = count_game won c r.values })
unfolding count_game next_int
count_game-IsAhead true (pos c) r h tally =
    let fields = length-by_character tally.games in
    let above : 7 ≤ c = ground (arith, h) in
    record {
      games = tally.games;
      seven = tally.seven;
      values = rw (
        tally.values,
        change_at-beyond (2 * c) next_int (by_character tally.games)
            (omega (arith, fields, above, tally.seven)),
      );
    }
count_game-IsAhead false (pos c) r h tally =
    let fields = length-by_character tally.games in
    let above : 7 ≤ c = ground (arith, h) in
    record {
      games = tally.games;
      seven = tally.seven;
      values = rw (
        tally.values,
        change_at-beyond (2 * c + 1) next_int (by_character tally.games)
            (omega (arith, fields, above, tally.seven)),
      );
    }
count_game-IsAhead true (negsuc c) r h tally = record {
  games = tally.games;
  seven = tally.seven;
  values = rw tally.values;
}
count_game-IsAhead false (negsuc c) r h tally = record {
  games = tally.games;
  seven = tally.seven;
  values = rw tally.values;
}

-- A record behind a counted game: a tally, or one ahead because of a number that has no fields.
abbrev pub IsCounted : Bool → ℤ → IntRow → Type 0
IsCounted won c r = IsTally r ⊎ ((is_character c ≡ false) × IsAhead won r)

count_game-IsCounted :
    (won : Bool) (c : ℤ) (r : IntRow)
    → IsTally r
    → IsCounted won c (record r { values = count_game won c r.values })
count_game-IsCounted won (pos c) r tally = elim (Bool-cases (ltb c 7)) [
  | inl known ↦ inl (count_game-IsTally won c r (ground (arith, known)) tally)
  | inr other ↦ inr (other, count_game-IsAhead won (pos c) r other tally)
]
count_game-IsCounted won (negsuc c) r tally =
    inr (refl, count_game-IsAhead won (negsuc c) r refl tally)

rows-IsCounted :
    (u : Text) (won : Bool) (c : ℤ) (rs : List IntRow)
    → All IsTally rs
    → All
        (IsCounted won c)
        (change_row IntRow.id u (λ r. record r { values = count_game won c r.values }) rs)
unfolding change_row
rows-IsCounted u won c [] h = tt
rows-IsCounted u won c (r ∷ rs) (tally, h) = elim (Bool-cases (r.id == u)) [
  | inl same ↦ rw same (count_game-IsCounted won c r tally, all_counted rs h)
  | inr other ↦ rw other (inl tally, rows-IsCounted u won c rs h)
]
  where
    all_counted : (qs : List IntRow) → All IsTally qs → All (IsCounted won c) qs
    all_counted [] k = tt
    all_counted (q ∷ qs) (p, k) = (inl p, all_counted qs k)

count_game-totals :
    (won : Bool) (c : ℤ) (w l : ℤ) (vs : List ℤ)
    → (value_at 0 (count_game won c (w ∷ l ∷ vs)) ≡ (if won then next_int w else w))
      × (value_at 1 (count_game won c (w ∷ l ∷ vs)) ≡ (if won then l else next_int l))
unfolding count_game value_at
count_game-totals true (pos c) w l vs = (refl, refl)
count_game-totals false (pos c) w l vs = (refl, refl)
count_game-totals true (negsuc c) w l vs = (refl, refl)
count_game-totals false (negsuc c) w l vs = (refl, refl)

-- The record of a user with one win or one loss more in all.
abbrev pub CountsGame : Text → Bool → IntRow → List IntRow → Type 0
CountsGame u won r rs =
    (r' : IntRow) × (find_row IntRow.id u rs ≡ some r')
    × (value_at 0 r'.values ≡ (if won then next_int (value_at 0 r.values) else value_at 0 r.values))
    × (value_at 1 r'.values ≡ (if won then value_at 1 r.values else next_int (value_at 1 r.values)))

row-CountsGame :
    (won : Bool) (c : ℤ) (r : IntRow)
    → IsTally r
    → (value_at 0 (count_game won c r.values)
        ≡ (if won then next_int (value_at 0 r.values) else value_at 0 r.values))
      × (value_at 1 (count_game won c r.values)
          ≡ (if won then value_at 1 r.values else next_int (value_at 1 r.values)))
unfolding value_at
row-CountsGame won c r tally = rw tally.values (
    count_game-totals won c (pos (total_wins tally.games)) (pos (total_losses tally.games))
      (by_character tally.games))

-- If in every record of games winCount is the sum of the wins of the seven characters and loseCount that of the
-- losses, and a game of a user with a record is counted, with any number for the character: then the record of the
-- user has one win, or one loss if the game was lost, more in all; and each record has still these sums, or
-- the number is none of the seven and the record is one win, or one loss, ahead of its sum.
pub update_win_loss-IsCounted {ℓ} :
    {E : Type ℓ} (u : Text) (won : Bool) (c : ℤ) (t : Tables E) (r : IntRow)
    → All IsTally t.stats
    → find_row IntRow.id u t.stats ≡ some r
    → CountsGame u won r (update_win_loss u won c t).stats
      × All (IsCounted won c) (update_win_loss u won c t).stats
unfolding update_win_loss
update_win_loss-IsCounted u won c t r tallied there =
    let (wins, losses) =
      row-CountsGame won c r (find_row-All IsTally IntRow.id u t.stats r tallied there) in
    (
      (
        record r { values = count_game won c r.values },
        find_row-change_row IntRow.id u (λ q. record q { values = count_game won c q.values })
            t.stats r (λ q. refl) there,
        wins,
        losses,
      ),
      rows-IsCounted u won c t.stats tallied,
    )
