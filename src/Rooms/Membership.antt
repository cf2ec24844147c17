-- ===== src/Rooms/Membership.antt =====
-- The rooms stay well formed whatever the requests: RoomManager's operations that change them.
use bn_bserver.Prelude.{
  ◌+◌, ◌≤◌, ◌≡◌, refl, Bool, true, false, Option, none, some, List, [], ◌∷◌, ◌++◌, if◌then◌else◌,
  arith, length, All, ◌⊎◌, inl, inr, subst,
}
use bn_bserver.Prelude.Text.{Text, eq_iff}
use bn_bserver.Rooms.{Room, Manager, no_rooms, find_room, replace_room, remove_room, named, holds}
use bn_bserver.Rooms.Lobby.{max_users, taken}
use bn_bserver.Rooms.Counting.{
  count, places, names, places-append, names-append, places-replace, names-replace, places-remove,
  names-remove, places-none, names-none,
}

-- A room has one to four users.
abbrev pub IsFilled : Room → Type 0
IsFilled r = (1 ≤ length r.users) × (length r.users ≤ max_users)

-- A user is in one room at most and once, no two rooms have one name, and rooms are filled.
unfoldable pub AreValid : List Room → Type 0
AreValid rs = ((u : Text) → places u rs ≤ 1) × ((n : Text) → names n rs ≤ 1) × All IsFilled rs

All-if :
    (b : Bool) (rs ss : List Room)
    → All IsFilled rs
    → All IsFilled ss
    → All IsFilled (if b then rs else ss)
All-if true rs ss a c = a
All-if false rs ss a c = c

found-cases :
    (b : Bool) (r s : Room) (o : Option Room)
    → (if b then some s else o) ≡ some r
    → (s ≡ r) ⊎ (o ≡ some r)
found-cases true r s o h = inl (ground arith)
found-cases false r s o h = inr h

All-replace :
    (p : Room → Bool) (r' : Room) (rs : List Room)
    → All IsFilled rs
    → IsFilled r'
    → All IsFilled (replace_room p r' rs)
unfolding replace_room
All-replace p r' [] a f = a
All-replace p r' (r ∷ rs) (b, a) f =
    All-if (p r) (r' ∷ rs) (r ∷ replace_room p r' rs) (f, a) (b, All-replace p r' rs a f)

All-remove : (p : Room → Bool) (rs : List Room) → All IsFilled rs → All IsFilled (remove_room p rs)
unfolding remove_room
All-remove p [] a = a
All-remove p (r ∷ rs) (b, a) = All-if (p r) rs (r ∷ remove_room p rs) a (b, All-remove p rs a)

pub All-find :
    (p : Room → Bool) (r : Room) (rs : List Room)
    → All IsFilled rs
    → find_room p rs ≡ some r
    → IsFilled r
unfolding find_room
All-find p r [] a h = ground arith
All-find p r (s ∷ rs) (b, a) h = elim (found-cases (p s) r s (find_room p rs) h) [
  | inl e ↦ subst IsFilled e b
  | inr e ↦ All-find p r rs a e
]

All-end : (r : Room) (rs : List Room) → All IsFilled rs → IsFilled r → All IsFilled (rs ++ r ∷ [])
All-end r [] a f = (f, a)
All-end r (s ∷ rs) (b, a) f = (b, All-end r rs a f)

pub replace-AreValid :
    (p : Room → Bool) (r r' : Room) (rs : List Room)
    → AreValid rs
    → find_room p rs ≡ some r
    → r'.room_name ≡ r.room_name
    → ((u : Text) → places u rs + count u r'.users ≤ 1 + count u r.users)
    → IsFilled r'
    → AreValid (replace_room p r' rs)
unfolding AreValid
replace-AreValid p r r' rs (once, apart, filled) h e moved f = (
  λ u. omega (arith, places-replace u p r r' rs h, moved u),
  λ n. omega (arith, names-replace n p r r' rs h e, apart n),
  All-replace p r' rs filled f,
)

pub remove-AreValid : (p : Room → Bool) (rs : List Room) → AreValid rs → AreValid (remove_room p rs)
unfolding AreValid
remove-AreValid p rs (once, apart, filled) = (
  λ u. omega (arith, places-remove u p rs, once u),
  λ n. omega (arith, names-remove n p rs, apart n),
  All-remove p rs filled,
)

-- A room whose users stay the same.
pub same-AreValid :
    (p : Room → Bool) (r r' : Room) (rs : List Room)
    → AreValid rs
    → find_room p rs ≡ some r
    → r'.room_name ≡ r.room_name
    → r'.users ≡ r.users
    → AreValid (replace_room p r' rs)
unfolding AreValid
same-AreValid p r r' rs (once, apart, filled) h e s =
    replace-AreValid p r r' rs (once, apart, filled) h e (λ u. rw s (omega (arith, once u)))
      (rw s (All-find p r rs filled h))

abbrev pub IsValid : Manager → Type 0
IsValid m = AreValid m.rooms

pub no_rooms-IsValid : IsValid no_rooms
unfolding AreValid places names
no_rooms-IsValid = (λ u. ground arith, λ n. ground arith, tt)

pub taken-none :
    (n u : Text) (rs : List Room)
    → taken n u rs ≡ false
    → (find_room (named n) rs ≡ none) × (find_room (holds u) rs ≡ none)
unfolding taken find_room
taken-none n u [] h = (refl, refl)
taken-none n u (r ∷ rs) h = (ground (arith, taken-none n u rs), ground (arith, taken-none n u rs))

pub end-AreValid :
    (r : Room) (rs : List Room) (u : Text)
    → AreValid rs
    → r.users ≡ u ∷ []
    → find_room (named r.room_name) rs ≡ none
    → find_room (holds u) rs ≡ none
    → AreValid (rs ++ r ∷ [])
unfolding AreValid places names count
end-AreValid r rs u (once, apart, filled) e f g = (
  λ v. rw (places-append v rs (r ∷ []), e) (ground (arith, eq_iff u v, once v, places-none u rs g)),
  λ n.
      rw (names-append n rs (r ∷ []))
        (ground (arith, eq_iff r.room_name n, apart n, names-none r.room_name rs f)),
  All-end r rs filled (rw e (ground arith)),
)
