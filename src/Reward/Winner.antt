-- ===== src/Reward/Winner.antt =====
-- RecordDeath (TeamOFYServer/RoomManager.cpp) and the handler DEAD (TeamOFYServer/ClientHandler.cpp) on who
-- has won.
use bn_bserver.Prelude.{
  ◌≡◌, ◌⊎◌, inl, inr, refl, sym, ◌∙◌, ap, true, false, some, List, [], ◌∷◌, ◌++◌, eqb, map,
  append_assoc, append-nil, length, All, arith, Bool-cases,
}
use bn_bserver.Prelude.Text.{Text, eq_refl, eq_sound}
use bn_bserver.Rooms.{Room, member}
use bn_bserver.Rooms.Clients.{Clients}
use bn_bserver.Rooms.Messages.{display_name}
use bn_bserver.Rooms.Match.{survivors, teams_of, decided}
use bn_bserver.Reward.{team_of, push_team, alive_from, alive_teams, solo_winner, team_winner}

module _ (cs : Clients) (r : Room) where
  push_all : List Text → List (Text × List Text) → List (Text × List Text)
  push_all [] teams = teams
  push_all (u ∷ us) teams = push_all us (push_team (team_of r u) (display_name cs u) teams)

  alive_from-survivors :
      (dead us : List Text) (teams : List (Text × List Text))
      → alive_from cs r dead us teams ≡ push_all (survivors dead us) teams
  unfolding alive_from survivors push_all
  alive_from-survivors dead [] teams = refl
  alive_from-survivors dead (u ∷ us) teams = elim (Bool-cases (member u dead)) [
    | inl gone ↦ rw gone (alive_from-survivors dead us teams)
    | inr alive ↦ rw alive (alive_from-survivors dead us _)
  ]

  -- Users of one team stay in one entry, in their order.
  push_all-one :
      (t : Text) (us names : List Text)
      → All (λ v. team_of r v ≡ t) us
      → push_all us ((t, names) ∷ []) ≡ (t, names ++ map (display_name cs) us) ∷ []
  unfolding push_all push_team
  push_all-one t [] names h = ap (λ ns. (t, ns) ∷ []) (sym (append-nil names))
  push_all-one t (u ∷ us) names (e, h) =
      rw (e, eq_refl t)
        (push_all-one t us (names ++ display_name cs u ∷ []) h
          ∙ ap (λ ns. (t, ns) ∷ []) (append_assoc names (display_name cs u ∷ []) _))

  teams_of-none : (us : List Text) → teams_of r us ≡ [] → us ≡ []
  unfolding teams_of member
  teams_of-none [] h = refl
  teams_of-none (u ∷ us) h = absurd (ground arith)

  teams_of-one :
      (t : Text) (us : List Text) → teams_of r us ≡ t ∷ [] → All (λ v. team_of r v ≡ t) us
  unfolding teams_of member
  teams_of-one t [] h = tt
  teams_of-one t (u ∷ us) h = elim (Bool-cases (member (team_of r u) (teams_of r us))) [
    | inl again ↦
        let one : teams_of r us ≡ t ∷ [] = ground arith in
        (sym (eq_sound t (team_of r u) (ground arith)), teams_of-one t us one)
    | inr new ↦
        let none_left : teams_of r us ≡ [] = ground arith in
        (ground arith, rw (teams_of-none us none_left) tt)
  ]

  length-one {ℓ} : {A : Type ℓ} (xs : List A) → eqb (length xs) 1 ≡ true → (x : A) × (xs ≡ x ∷ [])
  length-one [] h = absurd (ground arith)
  length-one (x ∷ []) h = (x, refl)
  length-one (x ∷ y ∷ xs) h = absurd (ground arith)

  team_winner-one :
      (t : Text) (us : List Text)
      → teams_of r us ≡ t ∷ []
      → team_winner (push_all us []) ≡ some (t, map (display_name cs) us)
  unfolding push_all push_team team_winner teams_of
  team_winner-one t [] h = absurd (ground arith)
  team_winner-one t (u ∷ us) h =
      let (e, rest) = teams_of-one t (u ∷ us) h in
      rw (e, push_all-one t us (display_name cs u ∷ []) rest) refl

  solo_winner-one :
      (v : Text) (us : List Text)
      → us ≡ v ∷ []
      → solo_winner (push_all us []) ≡ some (display_name cs v)
  unfolding push_all push_team solo_winner
  solo_winner-one v us one = rw one refl

  -- What decides a match: of the users who are alive one is left, or their teams are one team.
  abbrev pub HasWinner : List Text → Type 0
  HasWinner dead =
      ((r.is_coop_mode ≡ true)
        × ((t : Text) × (All (λ v. team_of r v ≡ t) (survivors dead r.users))
            × (team_winner (alive_teams cs r dead)
                ≡ some (t, map (display_name cs) (survivors dead r.users)))))
      ⊎ ((r.is_coop_mode ≡ false)
          × ((v : Text) × (survivors dead r.users ≡ v ∷ [])
              × (solo_winner (alive_teams cs r dead) ≡ some (display_name cs v))))

  -- When a death decides a match, the handler finds its winner: in a cooperative room the one team of
  -- the users who are alive, with their nicknames in the order of the room; in any other room the one
  -- user who is alive.
  pub decided-HasWinner : (dead : List Text) → decided r dead ≡ true → HasWinner dead
  unfolding decided alive_teams
  decided-HasWinner dead h = elim (Bool-cases r.is_coop_mode) [
    | inl coop ↦
        let (t, one) = length-one (teams_of r (survivors dead r.users)) (ground arith) in
        inl (
          coop,
          (
            t,
            teams_of-one t (survivors dead r.users) one,
            ap team_winner (alive_from-survivors dead r.users [])
                ∙ team_winner-one t (survivors dead r.users) one,
          ),
        )
    | inr solo ↦
        let (v, one) = length-one (survivors dead r.users) (ground arith) in
        inr (
          solo,
          (v, one, ap solo_winner (alive_from-survivors dead r.users []) ∙ solo_winner-one v _ one),
        )
  ]

  -- One team is alive in a cooperative room, or one user in any other room.
  abbrev pub IsOver : List Text → Type 0
  IsOver dead =
      ((r.is_coop_mode ≡ true)
        × ((t : Text) × (u : Text) × (us : List Text) × (survivors dead r.users ≡ u ∷ us)
            × All (λ v. team_of r v ≡ t) (u ∷ us)))
      ⊎ ((r.is_coop_mode ≡ false) × ((v : Text) × (survivors dead r.users ≡ v ∷ [])))

  one-teams_of :
      (t u : Text) (us : List Text)
      → All (λ v. team_of r v ≡ t) (u ∷ us)
      → teams_of r (u ∷ us) ≡ t ∷ []
  unfolding teams_of member
  one-teams_of t u [] (e, _) = rw e refl
  one-teams_of t u (v ∷ us) (e, h) = rw (one-teams_of t v us h, e, eq_refl t) refl

  IsOver-decided : (dead : List Text) → IsOver dead → decided r dead ≡ true
  unfolding decided
  IsOver-decided dead (inl (coop, (t, u, us, alive, one))) =
      rw (coop, alive, one-teams_of t u us one) refl
  IsOver-decided dead (inr (solo, (v, alive))) = rw (solo, alive) refl

  decided-IsOver : (dead : List Text) → decided r dead ≡ true → IsOver dead
  unfolding decided teams_of
  decided-IsOver dead h = elim (Bool-cases r.is_coop_mode) [
    | inl coop ↦
        let (t, one) = length-one (teams_of r (survivors dead r.users)) (ground arith) in
        inl (coop, alive_one t (survivors dead r.users) refl one)
    | inr solo ↦ inr (solo, length-one (survivors dead r.users) (ground arith))
  ]
    where
      alive_one :
          (t : Text) (us : List Text)
          → survivors dead r.users ≡ us
          → teams_of r us ≡ t ∷ []
          → (t : Text) × (u : Text) × (us : List Text) × (survivors dead r.users ≡ u ∷ us)
            × All (λ v. team_of r v ≡ t) (u ∷ us)
      alive_one t [] e one = absurd (ground arith)
      alive_one t (u ∷ us) e one = (t, u, us, e, teams_of-one t (u ∷ us) one)

  -- How RecordDeath and the handler see the dead of a match.
  abbrev pub AgreeOn : List Text → Type 0
  AgreeOn dead =
      ((decided r dead ≡ true) × IsOver dead × HasWinner dead)
      ⊎ ((decided r dead ≡ false) × (¬ IsOver dead))

  -- Whoever is dead: either RecordDeath decides the match, one team is alive in a cooperative room or one user in
  -- any other room, and the handler finds that team with its nicknames, or that user; or RecordDeath does not
  -- decide the match, and the users who are alive are neither one team of a cooperative room nor one user
  -- of any other room.
  pub decided-AgreeOn : (dead : List Text) → AgreeOn dead
  decided-AgreeOn dead = elim (Bool-cases (decided r dead)) [
    | inl over ↦ inl (over, decided-IsOver dead over, decided-HasWinner dead over)
    | inr open_still ↦
        inr (open_still, λ over. let closed = IsOver-decided dead over in absurd (ground arith))
  ]
