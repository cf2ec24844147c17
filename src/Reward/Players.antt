-- ===== src/Reward/Players.antt =====
-- The users of a match that gets its rewards (TeamOFYServer/ClientHandler.cpp), one after the other.
use bn_bserver.Prelude.{
  ℕ, ◌≤◌, ◌≡◌, refl, ap, Bool, true, false, Option, none, some, List, [], ◌∷◌, ◌∙◌, All, arith,
  Bool-cases, inl, inr,
}
use bn_bserver.Prelude.Text.{Text, ◌==◌, eq_iff, eq_sound}
use bn_bserver.Prelude.Int.{ℤ}
use bn_bserver.Rooms.{Room, member}
use bn_bserver.Rooms.Messages.{character_of}
use bn_bserver.Users.{UserProfile, IntRow, Tables}
use bn_bserver.Users.Rows.{FloatText}
use bn_bserver.Users.RowTrip.{IsIntRow, IsProfileRow}
use bn_bserver.Users.Loaded.{IsStored}
use bn_bserver.Users.Save.{find_row}
use bn_bserver.Users.Saved.{rows_with, find_row-change_row}
use bn_bserver.Users.Query.{count_game, update_win_loss}
use bn_bserver.Users.Others.{find_row-change_row_other, rows_with-change_row, change_row-All_found}
use bn_bserver.Reward.{FloatMath, Gains, gains, levels_of, rewarded, rewarded_tables}

-- The game counted in a record.
abbrev pub counted : Bool → ℤ → IntRow → IntRow
counted won c row = record row { values = count_game won c row.values }

-- Each user of the list once.
abbrev pub AreDistinct : List Text → Type 0
AreDistinct [] = Unit
AreDistinct (u ∷ us) = (member u us ≡ false) × AreDistinct us

module _ {ℓ} {E : Type ℓ} (io : FloatText E) (fm : FloatMath E) (fuel : ℕ) (r : Room)
    (won : Text → Bool) where
  -- A user with one profile and one record of games, whose rewarded profile and counted record can be
  -- written and read back, and whose level is reached with the fuel.
  pub record IsPlayer (t : Tables E) (u : Text) : Type ℓ where
    pub profile : UserProfile E
    pub row : IntRow
    pub level : ℤ
    pub exp : E
    pub has_profile : find_row UserProfile.id u t.profiles ≡ some profile
    pub has_row : find_row IntRow.id u t.stats ≡ some row
    pub one_profile : rows_with UserProfile.id u t.profiles ≤ 1
    pub one_row : rows_with IntRow.id u t.stats ≤ 1
    pub levels : levels_of fm fuel (gains (won u)) profile ≡ some (level, exp)
    pub writes : IsProfileRow io (rewarded (gains (won u)) level exp profile)
    pub counts : IsIntRow 16 (counted (won u) (character_of r u) row)

  -- The tables behind the reward of a user, without one if it has no profile or no level is found.
  abbrev granted_levels : Text → Tables E → Option (ℤ × E) → Tables E
  granted_levels u t none = t
  granted_levels u t (some (level, exp)) = rewarded_tables r u (won u) level exp t

  abbrev granted_profile : Text → Tables E → Option (UserProfile E) → Tables E
  granted_profile u t none = t
  granted_profile u t (some p) = granted_levels u t (levels_of fm fuel (gains (won u)) p)

  unfoldable pub granted : Text → Tables E → Tables E
  granted u t = granted_profile u t (find_row UserProfile.id u t.profiles)

  unfoldable pub all_granted : List Text → Tables E → Tables E
  all_granted [] t = t
  all_granted (u ∷ us) t = all_granted us (granted u t)

  pub rewarded-id :
      (g : Gains) (level : ℤ) (exp : E) (p : UserProfile E) → (rewarded g level exp p).id ≡ p.id
  unfolding rewarded
  rewarded-id g level exp p = refl

  pub granted-player :
      (u : Text) (t : Tables E) (p : IsPlayer t u)
      → granted u t ≡ rewarded_tables r u (won u) p.level p.exp t
  unfolding granted
  granted-player u t p = rw (p.has_profile, p.levels) refl

  -- The reward of one user leaves another one what it was.
  IsPlayer-other :
      (u v : Text) (t : Tables E) (level : ℤ) (exp : E)
      → (u == v) ≡ false
      → IsPlayer t v
      → IsPlayer (rewarded_tables r u (won u) level exp t) v
  unfolding rewarded_tables update_win_loss
  IsPlayer-other u v t level exp other p = record {
    profile = p.profile;
    row = p.row;
    level = p.level;
    exp = p.exp;
    has_profile =
        rw
          (find_row-change_row_other UserProfile.id u (rewarded (gains (won u)) level exp)
            (rewarded-id (gains (won u)) level exp) v t.profiles other)
          p.has_profile;
    has_row =
        rw
          (find_row-change_row_other IntRow.id u (counted (won u) (character_of r u)) (λ q. refl) v
            t.stats other)
          p.has_row;
    one_profile =
        rw
          (rows_with-change_row UserProfile.id u (rewarded (gains (won u)) level exp)
            (rewarded-id (gains (won u)) level exp) v t.profiles)
          p.one_profile;
    one_row =
        rw
          (rows_with-change_row IntRow.id u (counted (won u) (character_of r u)) (λ q. refl) v
            t.stats)
          p.one_row;
    levels = p.levels;
    writes = p.writes;
    counts = p.counts;
  }

  pub granted-IsStored :
      (u : Text) (t : Tables E) → IsPlayer t u → IsStored io t → IsStored io (granted u t)
  unfolding rewarded_tables update_win_loss
  granted-IsStored u t p stored = rw (granted-player u t p) (record {
    users = stored.users;
    profiles =
        change_row-All_found UserProfile.id u _ (rewarded-id _ p.level p.exp) (IsProfileRow io)
          t.profiles p.profile p.has_profile stored.profiles p.writes;
    characters = stored.characters;
    emotes = stored.emotes;
    stats =
        change_row-All_found IntRow.id u (counted (won u) (character_of r u)) (λ q. refl)
          (IsIntRow 16) t.stats p.row p.has_row stored.stats p.counts;
    balloons = stored.balloons;
    icons = stored.icons;
  })

  pub not-member-head : (u v : Text) (us : List Text) → member u (v ∷ us) ≡ false → (u == v) ≡ false
  unfolding member
  not-member-head u v us h = ground (arith, eq_iff u v, eq_iff v u)

  pub not-member-tail :
      (u v : Text) (us : List Text) → member u (v ∷ us) ≡ false → member u us ≡ false
  unfolding member
  not-member-tail u v us h = ground arith

  pub granted-IsPlayer :
      (u : Text) (us : List Text) (t : Tables E)
      → member u us ≡ false
      → IsPlayer t u
      → All (IsPlayer t) us
      → All (IsPlayer (granted u t)) us
  granted-IsPlayer u [] t new p all = tt
  granted-IsPlayer u (v ∷ us) t new p (q, all) = (
    rw (granted-player u t p) (IsPlayer-other u v t p.level p.exp (not-member-head u v us new) q),
    granted-IsPlayer u us t (not-member-tail u v us new) p all,
  )

  pub granted-others :
      (u v : Text) (t : Tables E)
      → IsPlayer t u
      → (u == v) ≡ false
      → (find_row UserProfile.id v (granted u t).profiles ≡ find_row UserProfile.id v t.profiles)
        × (find_row IntRow.id v (granted u t).stats ≡ find_row IntRow.id v t.stats)
  unfolding rewarded_tables update_win_loss
  granted-others u v t p other = rw (granted-player u t p) (
    find_row-change_row_other UserProfile.id u _ (rewarded-id (gains (won u)) p.level p.exp) v
        t.profiles other,
    find_row-change_row_other IntRow.id u (counted (won u) (character_of r u)) (λ q. refl) v t.stats
        other,
  )

  granted-own :
      (u : Text) (t : Tables E) (p : UserProfile E) (row : IntRow) (level : ℤ) (exp : E)
      → find_row UserProfile.id u t.profiles ≡ some p
      → find_row IntRow.id u t.stats ≡ some row
      → levels_of fm fuel (gains (won u)) p ≡ some (level, exp)
      → (find_row UserProfile.id u (granted u t).profiles
          ≡ some (rewarded (gains (won u)) level exp p))
        × (find_row IntRow.id u (granted u t).stats ≡ some (counted (won u) (character_of r u) row))
  unfolding granted rewarded_tables update_win_loss
  granted-own u t p row level exp there played levels =
      rw (there, levels)
        (
          find_row-change_row UserProfile.id u _ t.profiles p
              (rewarded-id (gains (won u)) level exp) there,
          find_row-change_row IntRow.id u (counted (won u) (character_of r u)) t.stats row
              (λ q. refl) played,
        )

  -- A user who gets no reward keeps its profile and its record of games.
  pub all_granted-others :
      (us : List Text) (v : Text) (t : Tables E)
      → AreDistinct us
      → All (IsPlayer t) us
      → member v us ≡ false
      → (find_row UserProfile.id v (all_granted us t).profiles
          ≡ find_row UserProfile.id v t.profiles)
        × (find_row IntRow.id v (all_granted us t).stats ≡ find_row IntRow.id v t.stats)
  unfolding all_granted member
  all_granted-others [] v t distinct all out = (refl, refl)
  all_granted-others (u ∷ us) v t (new, distinct) (p, all) out =
      let later =
        all_granted-others us v (granted u t) distinct (granted-IsPlayer u us t new p all)
          (ground arith) in
      let first = granted-others u v t p (ground arith) in (later.0 ∙ first.0, later.1 ∙ first.1)

  -- Every user of the list gets its own reward and its own game, whatever the order of the list is.
  pub all_granted-member :
      (us : List Text) (v : Text) (t : Tables E) (p : UserProfile E) (row : IntRow) (level : ℤ)
      (exp : E)
      → AreDistinct us
      → All (IsPlayer t) us
      → member v us ≡ true
      → find_row UserProfile.id v t.profiles ≡ some p
      → find_row IntRow.id v t.stats ≡ some row
      → levels_of fm fuel (gains (won v)) p ≡ some (level, exp)
      → (find_row UserProfile.id v (all_granted us t).profiles
          ≡ some (rewarded (gains (won v)) level exp p))
        × (find_row IntRow.id v (all_granted us t).stats
            ≡ some (counted (won v) (character_of r v) row))
  unfolding all_granted member
  all_granted-member [] v t p row level exp distinct all inside there played levels =
      absurd (ground arith)
  all_granted-member (u ∷ us) v t p row level exp (new, distinct) (q, all) inside there played
        levels =
      elim (Bool-cases (u == v)) [
        | inl same ↦
            let is = eq_sound u v same in
            let own = granted-own v t p row level exp there played levels in
            let later =
              all_granted-others us v (granted u t) distinct (granted-IsPlayer u us t new q all)
                (rw (← is) new) in
            let now : granted u t ≡ granted v t = ap (λ x. granted x t) is in
            (later.0 ∙ (rw now own.0), later.1 ∙ (rw now own.1))
        | inr other ↦
            let first = granted-others u v t q other in
            all_granted-member us v (granted u t) p row level exp distinct
              (granted-IsPlayer u us t new q all) (ground arith) (first.0 ∙ there)
              (first.1 ∙ played) levels
      ]
