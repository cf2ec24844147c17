-- ===== src/Rooms/Counting.antt =====
-- How often a user stands in the rooms, and a name among them, and what a change of one room does
-- to these counts.
use bn_bserver.Prelude.{
  ℕ, ◌+◌, ◌≤◌, ◌≡◌, refl, Bool, true, false, none, some, List, [], ◌∷◌, ◌++◌, if◌then◌else◌, arith,
  length,
}
use bn_bserver.Prelude.Text.{Text, ◌==◌, eq_iff}
use bn_bserver.Rooms.{Room, member, without, find_room, replace_room, remove_room, named, holds}

unfoldable pub count : Text → List Text → ℕ
count u [] = 0
count u (x ∷ xs) = let rest = count u xs in if x == u then 1 + rest else rest

-- The places of a user in all the rooms.
unfoldable pub places : Text → List Room → ℕ
places u [] = 0
places u (r ∷ rs) = count u r.users + places u rs

unfoldable pub names : Text → List Room → ℕ
names n [] = 0
names n (r ∷ rs) = let rest = names n rs in if r.room_name == n then 1 + rest else rest

pub count-append : (u : Text) (xs ys : List Text) → count u (xs ++ ys) ≡ count u xs + count u ys
unfolding count
count-append u [] ys = ground arith
count-append u (x ∷ xs) ys = ground (arith, count-append u xs ys)

pub member-count : (u : Text) (xs : List Text) → member u xs ≡ false → count u xs ≡ 0
unfolding count member
member-count u [] h = refl
member-count u (x ∷ xs) h = ground (arith, member-count u xs)

pub count-member : (u : Text) (xs : List Text) → member u xs ≡ true → 1 ≤ count u xs
unfolding count member
count-member u [] h = ground arith
count-member u (x ∷ xs) h = ground (arith, count-member u xs)

pub count-without :
    (u v : Text) (xs : List Text) → count v (without u xs) ≡ (if u == v then 0 else count v xs)
unfolding count without
count-without u v [] = ground arith
count-without u v (x ∷ xs) =
    ground (arith, eq_iff x u, eq_iff u v, eq_iff x v, count-without u v xs)

pub length-without : (u : Text) (xs : List Text) → length (without u xs) ≤ length xs
unfolding without
length-without u [] = ground arith
length-without u (x ∷ xs) = ground (arith, length-without u xs)

pub places-append : (u : Text) (rs ss : List Room) → places u (rs ++ ss) ≡ places u rs + places u ss
unfolding places
places-append u [] ss = ground arith
places-append u (r ∷ rs) ss = ground (arith, places-append u rs ss)

pub names-append : (n : Text) (rs ss : List Room) → names n (rs ++ ss) ≡ names n rs + names n ss
unfolding names
names-append n [] ss = ground arith
names-append n (r ∷ rs) ss = ground (arith, names-append n rs ss)

pub places-replace :
    (u : Text) (p : Room → Bool) (r r' : Room) (rs : List Room)
    → find_room p rs ≡ some r
    → places u (replace_room p r' rs) + count u r.users ≡ places u rs + count u r'.users
unfolding places find_room replace_room
places-replace u p r r' [] h = ground arith
places-replace u p r r' (s ∷ rs) h = ground (arith, places-replace u p r r' rs)

pub names-replace :
    (n : Text) (p : Room → Bool) (r r' : Room) (rs : List Room)
    → find_room p rs ≡ some r
    → r'.room_name ≡ r.room_name
    → names n (replace_room p r' rs) ≡ names n rs
unfolding names find_room replace_room
names-replace n p r r' [] h e = ground arith
names-replace n p r r' (s ∷ rs) h e = ground (arith, names-replace n p r r' rs)

pub places-remove :
    (u : Text) (p : Room → Bool) (rs : List Room) → places u (remove_room p rs) ≤ places u rs
unfolding places remove_room
places-remove u p [] = ground arith
places-remove u p (s ∷ rs) = ground (arith, places-remove u p rs)

pub names-remove :
    (n : Text) (p : Room → Bool) (rs : List Room) → names n (remove_room p rs) ≤ names n rs
unfolding names remove_room
names-remove n p [] = ground arith
names-remove n p (s ∷ rs) = ground (arith, names-remove n p rs)

-- No room holds a user whom the search does not find.
pub places-none : (u : Text) (rs : List Room) → find_room (holds u) rs ≡ none → places u rs ≡ 0
unfolding places find_room
places-none u [] h = refl
places-none u (r ∷ rs) h = ground (arith, member-count u r.users, places-none u rs)

pub names-none : (n : Text) (rs : List Room) → find_room (named n) rs ≡ none → names n rs ≡ 0
unfolding names find_room
names-none n [] h = refl
names-none n (r ∷ rs) h = ground (arith, names-none n rs)

-- The room that the search gives passes its test.
pub find_room-holds :
    (p : Room → Bool) (r : Room) (rs : List Room) → find_room p rs ≡ some r → p r ≡ true
unfolding find_room
find_room-holds p r [] h = ground arith
find_room-holds p r (s ∷ rs) h = ground (arith, find_room-holds p r rs)
