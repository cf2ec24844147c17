-- ===== src/Rooms/Visits.antt =====
-- Creating, entering and leaving rooms (TeamOFYServer/RoomManager.cpp), and the rooms behind it.
use bn_bserver.Prelude.{
  ◌≤◌, ◌≡◌, refl, Bool, true, false, ◌&&◌, not, Option, none, some, List, [], ◌∷◌, if◌then◌else◌,
  arith, length, length-append, leb,
}
use bn_bserver.Prelude.Text.{Text, ◌==◌, eq_iff}
use bn_bserver.Rooms.{Room, Manager, Send, member, without, find_room, replace_room, named, holds}
use bn_bserver.Rooms.Clients.{Client, Clients}
use bn_bserver.Rooms.Messages.{is_empty}
use bn_bserver.Rooms.Lobby.{
  create_room, is_some, nobody, enter_room, max_users, taken, new_room, joined_room, entered,
  enter_found, exit_found, force_found, expelled, delete_room,
}
use bn_bserver.Rooms.Counting.{count, count-without, length-without, count-append, places-none}
use bn_bserver.Rooms.Membership.{
  AreValid, IsValid, All-find, replace-AreValid, remove-AreValid, taken-none, end-AreValid,
}

-- The answers of operations, each with the state that is left.
abbrev pub SentBool : Type 0
SentBool = Manager × List Send × Bool

abbrev pub state_of : SentBool → Manager
state_of x = x.0

module _ {X : Type 0} where
  -- The state in an answer is valid.
  unfoldable pub LeavesValid : (X → Manager) → X → Type 0
  LeavesValid state x = IsValid (state x)

  pub valid-if :
      (state : X → Manager) (b : Bool) (x y : X)
      → (b ≡ true → LeavesValid state x)
      → (b ≡ false → LeavesValid state y)
      → LeavesValid state (if b then x else y)
  valid-if state true x y f g = f refl
  valid-if state false x y f g = g refl

  pub leaves : (state : X → Manager) (x : X) → IsValid (state x) → LeavesValid state x
  unfolding LeavesValid
  leaves state x v = v

  pub valid : (state : X → Manager) (x : X) → LeavesValid state x → IsValid (state x)
  unfolding LeavesValid
  valid state x v = v

abbrev pub Answer : Type 0
Answer = Manager × List Send × Text × Bool

abbrev pub answer_state : Answer → Manager
answer_state x = x.0

pub create_room-IsValid :
    (cs : Clients) (c : Client) (n map_name password : Text) (coop : Bool) (m : Manager)
    → IsValid m
    → LeavesValid state_of (create_room cs c n map_name password coop m)
unfolding create_room new_room
create_room-IsValid cs c n map_name password coop m v =
    valid-if _ (is_empty c.id) _ _ (λ _. leaves _ _ v)
      (λ _.
        valid-if _ (taken n c.id m.rooms) _ _ (λ _. leaves _ _ v)
          (λ h.
            let (f, g) = taken-none n c.id m.rooms h in
            leaves _ _
              (end-AreValid (new_room c.id n map_name password coop) m.rooms c.id v refl f g)))

enter_found-IsValid :
    (cs : Clients) (c : Client) (n password : Text) (o : Option Room) (m : Manager)
    → find_room (named n) m.rooms ≡ o
    → find_room (holds c.id) m.rooms ≡ none
    → IsValid m
    → LeavesValid answer_state (enter_found cs c n password o m)
unfolding enter_found entered joined_room AreValid count
enter_found-IsValid cs c n password none m e g v = leaves _ _ v
enter_found-IsValid cs c n password (some r) m e g v =
    valid-if _ (not (is_empty r.password) && not (r.password == password)) _ _ (λ _. leaves _ _ v)
      (λ _.
        valid-if _ r.is_in_game _ _ (λ _. leaves _ _ v)
          (λ _.
            valid-if _ (leb max_users (length r.users)) _ _ (λ _. leaves _ _ v)
              (λ room. leaves _ _ (
                replace-AreValid (named n) r (joined_room c.id r) m.rooms v e refl
                  (λ u.
                    rw (count-append u r.users (c.id ∷ []))
                      (ground (arith, eq_iff c.id u, v.0 u, places-none c.id m.rooms g)))
                  (rw (length-append r.users (c.id ∷ [])) (ground (arith, room)))))))

is_some-false : (o : Option Room) → is_some o ≡ false → o ≡ none
is_some-false none h = refl
is_some-false (some r) h = ground arith

pub enter_room-IsValid :
    (cs : Clients) (c : Client) (n password : Text) (m : Manager)
    → IsValid m
    → LeavesValid answer_state (enter_room cs c n password m)
unfolding enter_room
enter_room-IsValid cs c n password m v =
    valid-if _ (is_empty c.id) _ _ (λ _. leaves _ _ v)
      (λ _.
        valid-if _ (is_some (find_room (holds c.id) m.rooms)) _ _ (λ _. leaves _ _ v)
          (λ h. enter_found-IsValid cs c n password _ m refl (is_some-false _ h) v))

abbrev pub Sent : Type 0
Sent = Manager × List Send

abbrev pub sent_state : Sent → Manager
sent_state x = x.0

somebody : (us : List Text) → nobody us ≡ false → 1 ≤ length us
somebody [] h = ground arith
somebody (u ∷ us) h = omega arith

-- The room that is left when a user goes.
left-AreValid :
    (p : Room → Bool) (r r' : Room) (rs : List Room)
    → AreValid rs
    → find_room p rs ≡ some r
    → r'.room_name ≡ r.room_name
    → ((u : Text) → count u r'.users ≤ count u r.users)
    → length r'.users ≤ length r.users
    → 1 ≤ length r'.users
    → AreValid (replace_room p r' rs)
unfolding AreValid
left-AreValid p r r' rs v e name fewer shorter some_left =
    replace-AreValid p r r' rs v e name (λ u. omega (arith, fewer u, v.0 u))
      (some_left, omega (arith, shorter, (All-find p r rs v.2 e).1))

count-without-≤ : (u v : Text) (xs : List Text) → count v (without u xs) ≤ count v xs
count-without-≤ u v xs = ground (arith, count-without u v xs)

pub exit_found-IsValid :
    (cs : Clients) (n u : Text) (o : Option Room) (m : Manager)
    → find_room (named n) m.rooms ≡ o
    → IsValid m
    → LeavesValid sent_state (exit_found cs n u o m)
unfolding exit_found delete_room
exit_found-IsValid cs n u none m e v = leaves _ _ v
exit_found-IsValid cs n u (some r) m e v =
    valid-if _ (member u r.users) _ _
      (λ _.
        valid-if _ (nobody (without u r.users)) _ _
          (λ _. leaves _ _ (remove-AreValid (named n) m.rooms v))
          (λ h. leaves _ _ (
            left-AreValid (named n) r (record r { users = without u r.users }) m.rooms v e refl
              (λ x. count-without-≤ u x r.users) (length-without u r.users) (somebody _ h))))
      (λ _. leaves _ _ v)

pub force_found-IsValid :
    (cs : Clients) (u : Text) (o : Option Room) (m : Manager)
    → find_room (holds u) m.rooms ≡ o
    → IsValid m
    → LeavesValid sent_state (force_found cs u o m)
unfolding force_found delete_room expelled
force_found-IsValid cs u none m e v = leaves _ _ v
force_found-IsValid cs u (some r) m e v =
    valid-if _ (nobody (without u r.users)) _ _
      (λ _. leaves _ _ (remove-AreValid (holds u) m.rooms v))
      (λ h. leaves _ _ (
        left-AreValid (holds u) r (expelled u r) m.rooms v e refl (λ x. count-without-≤ u x r.users)
          (length-without u r.users) (somebody _ h)))
