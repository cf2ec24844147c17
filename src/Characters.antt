-- ===== src/Characters.antt =====
-- CharacterStatsManager (TeamOFYServer/CharacterStatsManager.h and .cpp): the table of the characters' health
-- and attack, and Player (TeamOFYServer/Player.h and .cpp): where the players are. Both tables are maps
-- without an order; a lock of a map is held for one operation.
use bn_bserver.Prelude.{Bool, true, false, Option, none, some, List, [], ◌∷◌, if◌then◌else◌}
use bn_bserver.Prelude.Text.{Text, getline}
use bn_bserver.Prelude.Assoc.{lookup, insert}
use bn_bserver.Prelude.Lines.{split}
use bn_bserver.Prelude.Int.{ℤ, stoi}
use bn_bserver.Store.{same_int}
use bn_bserver.Users.Rows.{Parsed, skipped, bad_number, parsed, ◌>>=◌, field, number}
use bn_bserver.Users.Load.{body_or_empty}

pub record CharStats : Type 0 where
  pub health : ℤ
  pub attack : ℤ

-- charStatsMap_
abbrev pub StatsMap : Type 0
StatsMap = List (ℤ × CharStats)

-- A line: each field is read as a number before the next one is looked for.
unfoldable pub stats_row : Text → Parsed (ℤ × CharStats)
stats_row line = do
  (index_text, rest) ← field (getline b',' line)
  index ← number (stoi index_text)
  (health_text, rest') ← field (getline b',' rest)
  health ← number (stoi health_text)
  (attack_text, _) ← field (getline b',' rest')
  attack ← number (stoi attack_text)
  parsed (index, record { health = health; attack = attack })

-- charStatsMap_[index] = stats
unfoldable pub put_stats : ℤ → CharStats → StatsMap → StatsMap
put_stats i stats [] = (i, stats) ∷ []
put_stats i stats ((j, old) ∷ t) =
    let rest = put_stats i stats t in if same_int j i then (i, stats) ∷ t else (j, old) ∷ rest

-- How a load ends: with its answer, or with an exception of std::stoi.
pub data Loaded : Type 0 where
  answered : Bool → Loaded
  threw : Loaded

stats_next : (StatsMap → StatsMap × Loaded) → Parsed (ℤ × CharStats) → StatsMap → StatsMap × Loaded
stats_next rest skipped t = rest t
stats_next rest bad_number t = (t, threw)
stats_next rest (parsed (i, stats)) t = rest (put_stats i stats t)

unfoldable pub stats_rows : List Text → StatsMap → StatsMap × Loaded
unfolding stats_next
stats_rows [] t = (t, answered true)
stats_rows (line ∷ lines) t = stats_next (stats_rows lines) (stats_row line) t

-- LoadFromCSV: `none` is a file that cannot be opened. The first line is skipped.
unfoldable pub load_from_csv : Option Text → StatsMap → StatsMap × Loaded
load_from_csv none t = (t, answered false)
load_from_csv (some s) t = stats_rows (body_or_empty (split 10 s)) []

-- GetStats
unfoldable pub get_stats : ℤ → StatsMap → Option CharStats
get_stats i [] = none
get_stats i ((j, stats) ∷ t) = let rest = get_stats i t in if same_int j i then some stats else rest

module _ {ℓ} {E : Type ℓ} where
  -- UpdatePlayerPosition
  unfoldable pub update_player_position :
      Text → E → E → List (Text × (E × E)) → List (Text × (E × E))
  update_player_position user x z positions = insert user (x, z) positions

  or_origin : E → Option (E × E) → E × E
  or_origin nought none = (nought, nought)
  or_origin nought (some p) = p

  -- GetPlayerPosition
  unfoldable pub get_player_position : E → Text → List (Text × (E × E)) → E × E
  unfolding or_origin
  get_player_position nought user positions = or_origin nought (lookup user positions)
