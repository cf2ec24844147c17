-- ===== src/Play.antt =====
-- Messages inside a match: the handlers EMO_CLICK, WEAPON_ATTACK, MELODY_MOVE, MELODY_DESTROY, HITWALL,
-- DESTROY_SPELL, DESTROY_BLOCK, HIT, MELODY_SPAWN and WATER_HIT of TeamOFYServer/ClientHandler.cpp, each
-- behind the head of its message. An exception of std::stoi sends nothing.
pub mod Forwarding
pub mod Lines
pub mod Positions
pub mod Tests
use bn_bserver.Prelude.{
  ℕ, Bool, true, false, not, ◌&&◌, Option, none, some, List, [], ◌∷◌, ◌++◌, if◌then◌else◌,
}
use bn_bserver.Prelude.Text.{Text, codes, ◌==◌, has_byte, before_byte, after_byte, getline, trim}
use bn_bserver.Prelude.Assoc.{lookup}
use bn_bserver.Prelude.Int.{ℤ, int_string, stoi}
use bn_bserver.Rooms.{Room, Manager, Send, get_room_by_user_id}
use bn_bserver.Rooms.Clients.{Client, Clients, get_id_by_nickname}
use bn_bserver.Rooms.Relay.{broadcast_to_user_room, broadcast_to_room_except}
use bn_bserver.Users.Register.{is_empty}
use bn_bserver.Users.Lookup.{Attacks, get_attack_by_index}

-- The text before and behind the first '|', if there is one.
unfoldable pub cut : Text → Option (Text × Text)
cut s = if has_byte b'|' s then some (before_byte b'|' s, after_byte b'|' s) else none

emo_click_from : Clients → Text → Option (Text × Text) → Manager → List Send
emo_click_from cs nickname none m = []
emo_click_from cs nickname (some (index, _)) m =
    let sender = trim (get_id_by_nickname cs nickname) in
    if is_empty sender
    then []
    else broadcast_to_user_room cs sender
        (codes "EMO_CLICK|" ++ (nickname ++ b'|' ∷ (index ++ codes "\n"))) m

emo_click_fields : Clients → Option (Text × Text) → Manager → List Send
emo_click_fields cs none m = []
emo_click_fields cs (some (nickname, rest)) m = emo_click_from cs nickname (getline 10 rest) m

unfoldable pub emo_click : Clients → Text → Manager → List Send
unfolding emo_click_fields emo_click_from
emo_click cs input m = emo_click_fields cs (getline b'|' input) m

-- The message that WEAPON_ATTACK forwards: an empty fifth field is left out.
abbrev rotation : Option (Text × Text) → Text → Text
rotation none rest = rest
rotation (some (rotation_y, [])) rest = rotation_y
rotation (some (rotation_y, c ∷ laser)) rest = rotation_y ++ b'|' ∷ (c ∷ laser)

abbrev attack_tail : Text → Text → Option (Text × Text) → Option Text
attack_tail nickname index none = none
attack_tail nickname index (some (position, rest)) = some (
    codes "WEAPON_ATTACK|"
    ++ (nickname
        ++ b'|' ∷ (index ++ b'|' ∷ (position ++ b'|' ∷ (rotation (cut rest) rest ++ codes "\n")))))

abbrev attack_index : Text → Option (Text × Text) → Option Text
attack_index nickname none = none
attack_index nickname (some (index, rest)) = attack_tail nickname index (cut rest)

abbrev attack_nickname : Option (Text × Text) → Option Text
attack_nickname none = none
attack_nickname (some (nickname, rest)) = attack_index nickname (cut rest)

unfoldable pub attack_text : Text → Option Text
attack_text input = attack_nickname (cut input)

-- Nothing, or a message to the room of a user.
abbrev to_room : Clients → Text → Option Text → Manager → List Send
to_room cs id none m = []
to_room cs id (some message) m = broadcast_to_user_room cs id message m

unfoldable pub weapon_attack : Clients → Client → Text → Manager → List Send
weapon_attack cs c input m = to_room cs c.id (attack_text input) m

abbrev melody_tail : Text → Option (Text × Text) → Option Text
melody_tail nickname none = none
melody_tail nickname (some (position, rotation_y)) =
    some
      (codes "MELODY_MOVE|" ++ (nickname ++ b'|' ∷ (position ++ b'|' ∷ (rotation_y ++ codes "\n"))))

abbrev melody_nickname : Option (Text × Text) → Option Text
melody_nickname none = none
melody_nickname (some (nickname, rest)) = melody_tail nickname (cut rest)

unfoldable pub melody_text : Text → Option Text
melody_text input = melody_nickname (cut input)

abbrev to_others : Clients → Client → Option Text → Manager → List Send
to_others cs c none m = []
to_others cs c (some message) m = broadcast_to_room_except cs c.id c.socket message m

unfoldable pub melody_move : Clients → Client → Text → Manager → List Send
melody_move cs c input m = to_others cs c (melody_text input) m

unfoldable pub melody_destroy : Clients → Client → Text → Manager → List Send
melody_destroy cs c input m =
    broadcast_to_user_room cs c.id (codes "MELODY_DESTROY|" ++ (input ++ codes "\n")) m

unfoldable pub hit_wall : Clients → Client → Text → Manager → List Send
hit_wall cs c input m =
    broadcast_to_user_room cs c.id (codes "DESTROYWALL|" ++ (input ++ codes "\n")) m

-- The message is passed on as it came, without its line feed.
unfoldable pub destroy_spell : Clients → Client → Text → Manager → List Send
destroy_spell cs c input m = broadcast_to_user_room cs c.id (codes "DESTROY_SPELL|" ++ input) m

-- A user outside of all rooms has nobody to send to.
unfoldable pub destroy_block : Clients → Client → Text → Manager → List Send
destroy_block cs c input m =
    let block = trim input in
    if is_empty block
    then []
    else broadcast_to_user_room cs c.id (codes "DESTROY_BLOCK|" ++ (block ++ codes "\n")) m

abbrev spawn_text : Option (Text × Text) → Option Text
spawn_text none = none
spawn_text (some (nickname, rest)) =
    some (codes "MELODY_SPAWN|" ++ (nickname ++ b'|' ∷ (rest ++ codes "\n")))

unfoldable pub melody_spawn : Clients → Client → Text → Manager → List Send
melody_spawn cs c input m = to_room cs c.id (spawn_text (cut input)) m

hit_by : Clients → Text → Option ℤ → Manager → List Send
hit_by cs nickname none m = []
hit_by cs nickname (some damage) m =
    broadcast_to_user_room cs (trim (get_id_by_nickname cs nickname))
      (codes "PLAYER_HIT|" ++ (nickname ++ b'|' ∷ (int_string damage ++ codes "\n"))) m

water_hit_fields : Clients → Option (Text × Text) → Manager → List Send
water_hit_fields cs none m = []
water_hit_fields cs (some (nickname, damage)) m = hit_by cs nickname (stoi damage) m

unfoldable pub water_hit : Clients → Text → Manager → List Send
unfolding water_hit_fields hit_by
water_hit cs input m = water_hit_fields cs (cut input) m

-- The loop of HIT over the users of a room: the team of a user, "None" for one who is not there or has none.
abbrev team_or_none : Option Text → Text
team_or_none none = codes "None"
team_or_none (some team) = team

unfoldable pub is_among : Text → List Text → Bool
is_among id [] = false
is_among id (u ∷ us) = let rest = is_among id us in if u == id then true else rest

unfoldable pub team_in : Text → Room → Text
team_in id r =
    if is_among id r.users then team_or_none (lookup id r.team_assignments) else codes "None"

-- Two users of a cooperative room on one side.
unfoldable pub is_friendly : Text → Text → Room → Bool
is_friendly attacker target r =
    r.is_coop_mode
    && (not (team_in attacker r == codes "None") && (team_in attacker r == team_in target r))

hit_room : Clients → Attacks → ℤ → Text → Text → Text → Option Room → Manager → List Send
hit_room cs attacks weapon attacker target nickname none m = []
hit_room cs attacks weapon attacker target nickname (some r) m =
    if is_friendly attacker target r
    then []
    else broadcast_to_user_room cs attacker
        (codes "DAMAGE|"
          ++ (nickname ++ b'|' ∷ (int_string (get_attack_by_index weapon attacks) ++ codes "\n")))
        m

hit_users : Clients → Attacks → ℤ → Option (Text × Text) → Manager → List Send
hit_users cs attacks weapon none m = []
hit_users cs attacks weapon (some (attacker_nickname, rest)) m =
    let target_nickname = before_byte b'|' rest in
    let attacker = get_id_by_nickname cs attacker_nickname in
    hit_room cs attacks weapon attacker (get_id_by_nickname cs target_nickname) target_nickname
      (get_room_by_user_id attacker m) m

hit_weapon : Clients → Attacks → Option ℤ → Text → Manager → List Send
hit_weapon cs attacks none rest m = []
hit_weapon cs attacks (some weapon) rest m = hit_users cs attacks weapon (cut rest) m

hit_fields : Clients → Attacks → Option (Text × Text) → Manager → List Send
hit_fields cs attacks none m = []
hit_fields cs attacks (some (weapon, rest)) m = hit_weapon cs attacks (stoi weapon) rest m

unfoldable pub hit : Clients → Attacks → Text → Manager → List Send
unfolding hit_fields hit_weapon hit_users hit_room
hit cs attacks input m = hit_fields cs attacks (cut input) m
