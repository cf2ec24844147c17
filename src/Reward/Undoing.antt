-- ===== src/Reward/Undoing.antt =====
-- How a death ends (TeamOFYServer/ClientHandler.cpp, RoomManager.cpp), on all its branches.
use bn_bserver.Prelude.{ℕ, ◌≡◌, ◌⊎◌, Bool, true, false, List, [], ◌∷◌, All}
use bn_bserver.Prelude.Text.{Text, ◌==◌}
use bn_bserver.CsvStore.{accepted, commit}
use bn_bserver.Rooms.{Room, Manager, Send, member}
use bn_bserver.Rooms.Clients.{Clients}
use bn_bserver.Rooms.Match.{record_death, noted}
use bn_bserver.Users.{UserManager, Outcome}
use bn_bserver.Users.Rows.{FloatText}
use bn_bserver.Users.Settling.{has_stopped}
use bn_bserver.Reward.{FloatMath, team_of, Reply}
use bn_bserver.Reward.Settling.{has_thrown, has_returned, closed, Fulfils, staged_rewards}
use bn_bserver.Reward.Players.{all_granted}
use bn_bserver.Rooms.Messages.{display_name}
use bn_bserver.Rooms.Match.{survivors}

module _ {ℓ} {E : Type ℓ} (io : FloatText E) (fm : FloatMath E) (fuel k : ℕ) (cs : Clients) where
  -- The users who have won: those of the one team that is alive in a cooperative room, and those with the nickname
  -- of the one user who is alive in any other room.
  abbrev pub IsWinning : Room → List Text → (Text → Bool) → Type 0
  IsWinning r dead won =
      ((r.is_coop_mode ≡ true)
        × ((t : Text) × (All (λ v. team_of r v ≡ t) (survivors dead r.users))
            × (won ≡ (λ v. team_of r v == t))))
      ⊎ ((r.is_coop_mode ≡ false)
          × ((v : Text) × (survivors dead r.users ≡ v ∷ [])
              × (won ≡ (λ w. display_name cs w == display_name cs v))))

  -- The rewards of a match, with its winners.
  abbrev Rewards : Room → List Text → UserManager E → Outcome (List Send) × UserManager E → Type ℓ
  Rewards r dead m x =
      (won : Text → Bool) × IsWinning r dead won
      × Fulfils k (all_granted io fm fuel r won r.users m.tables)
          (staged_rewards io fm fuel k cs r won m) m x

  -- The winners and the others of the room have their rewards in the tables, and the files that were staged for them
  -- were committed.
  abbrev pub Paid : Room → List Text → UserManager E → UserManager E → Type ℓ
  Paid r dead m n =
      (won : Text → Bool) × IsWinning r dead won
      × (n.tables ≡ all_granted io fm fuel r won r.users m.tables)
      × (commit k (staged_rewards io fm fuel k cs r won m) m.files ≡ (n.files, accepted))

  -- A death in a room, from the rooms and the users as they were: its handler does not go on; or the
  -- death is told, and no match was decided, and the users are as before; or the rewards were committed;
  -- or an exception has left the users as before, and the death was taken back.
  abbrev pub SettlesDeath : Text → Manager → UserManager E → Room → Reply E → Type ℓ
  SettlesDeath u rooms m r reply =
      (has_stopped reply.outcome ≡ true)
      ⊎ (((has_returned reply.outcome ≡ true)
            × ((record_death u rooms).1.resolves_match ≡ false)
            × (reply.users ≡ m))
          ⊎ (((has_returned reply.outcome ≡ true)
                × ((record_death u rooms).1.resolves_match ≡ true)
                × (reply.users.active ≡ false)
                × Paid r (record_death u rooms).1.dead m reply.users)
              ⊎ ((has_thrown reply.outcome ≡ true)
                  × (reply.users ≡ closed m)
                  × (noted r.room_name reply.rooms.dead ≡ noted r.room_name rooms.dead)
                  × (member r.room_name reply.rooms.resolved ≡ false))))
