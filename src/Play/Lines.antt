-- ===== src/Play/Lines.antt =====
-- The ends of the messages inside a match (TeamOFYServer/ClientHandler.cpp).
use bn_bserver.Prelude.{
  ℕ, true, eqb, eqb_iff, ◌||◌, not, ◌≡◌, inl, inr, refl, sym, ◌∙◌, ap, subst, Option, none, some,
  List, [], ◌∷◌, ◌++◌, append_assoc, All, All-append, Bool-cases, Option-cases,
}
use bn_bserver.Prelude.Text.{Text, ◌==◌, codes, getline, trim}
use bn_bserver.Prelude.Int.{ℤ, int_string, stoi}
use bn_bserver.Rooms.{Room, Manager, Send, get_room_by_user_id, get_user_room_id}
use bn_bserver.Rooms.Clients.{Client, Clients, client_of, get_id_by_nickname}
use bn_bserver.Rooms.Messages.{send_to_users, framed, ends_in_newline}
use bn_bserver.Rooms.Relay.{
  broadcast_to_user_room, broadcast_to_room_except, send_except, except_send,
}
use bn_bserver.Users.Register.{is_empty}
use bn_bserver.Users.Lookup.{Attacks}
use bn_bserver.Play.{
  cut, emo_click_from, emo_click_fields, emo_click, attack_text, weapon_attack, melody_text,
  melody_move, destroy_spell, melody_destroy, hit_wall, destroy_block, melody_spawn, hit_by,
  water_hit_fields, water_hit, is_friendly, hit_room, hit_users, hit_weapon, hit_fields, hit,
}
use bn_bserver.Play.Positions.{
  Floats, cut_comma, move_to, move_coords, move_fields, move, balloon_at, place_sends,
  place_balloon, remove_sends, remove_balloon, water_spread,
}
use bn_bserver.Play.Forwarding.{attack_text-fields}

-- A text with a line feed at its end.
abbrev pub IsLine : Text → Type 0
IsLine s = (front : Text) × (s ≡ front ++ 10 ∷ [])

abbrev pub AreLines : List Send → Type 0
AreLines sends = All (λ x. IsLine x.message) sends

send_to_users-AreLines :
    (cs : Clients) (message : Text) (us : List Text)
    → IsLine message
    → AreLines (send_to_users cs message us)
unfolding send_to_users
send_to_users-AreLines cs message [] h = tt
send_to_users-AreLines cs message (u ∷ us) h = elim (Option-cases (client_of cs u)) [
  | inl gone ↦ rw gone (send_to_users-AreLines cs message us h)
  | inr (c, there) ↦ rw there (h, send_to_users-AreLines cs message us h)
]

broadcast-AreLines :
    (cs : Clients) (id message : Text) (m : Manager)
    → IsLine message
    → AreLines (broadcast_to_user_room cs id message m)
unfolding broadcast_to_user_room
broadcast-AreLines cs id message m h = send_to_users-AreLines cs message _ h

IsLine-append : (a b : Text) → IsLine b → IsLine (a ++ b)
IsLine-append a b (front, e) =
    (a ++ front, ap (λ s. a ++ s) e ∙ sym (append_assoc a front (10 ∷ [])))

IsLine-byte : (c : ℕ) (b : Text) → IsLine b → IsLine (c ∷ b)
IsLine-byte c b (front, e) = (c ∷ front, ap (λ s. c ∷ s) e)

-- A text with a line feed behind it.
ended : (s : Text) → IsLine (s ++ 10 ∷ [])
ended s = (s, refl)

ends-IsLine : (c : ℕ) (s : Text) → ends_in_newline (c ∷ s) ≡ true → IsLine (c ∷ s)
unfolding ends_in_newline
ends-IsLine c [] h = ([], ap (λ d. d ∷ []) ((eqb_iff c 10).0 h))
ends-IsLine c (d ∷ s) h = IsLine-byte c (d ∷ s) (ends-IsLine d s h)

framed-IsLine : (c : ℕ) (s : Text) → IsLine (framed (c ∷ s))
unfolding framed
framed-IsLine c s = elim (Bool-cases (ends_in_newline (c ∷ s))) [
  | inl already ↦ rw already (ends-IsLine c s already)
  | inr bare ↦ rw bare (ended (c ∷ s))
]

send_except-AreLines :
    (cs : Clients) (except : ℕ) (message : Text) (us : List Text)
    → IsLine message
    → AreLines (send_except cs except message us)
unfolding send_except except_send
send_except-AreLines cs except message [] h = tt
send_except-AreLines cs except message (u ∷ us) h = elim (Option-cases (client_of cs u)) [
  | inl gone ↦ rw gone (send_except-AreLines cs except message us h)
  | inr (c, there) ↦ elim (Bool-cases (eqb c.socket except)) [
    | inl same ↦ rw (there, same) (send_except-AreLines cs except message us h)
    | inr other ↦ rw (there, other) (h, send_except-AreLines cs except message us h)
  ]
]

-- A text that is not empty, to a room less one socket.
except-AreLines :
    (cs : Clients) (id : Text) (except c : ℕ) (s : Text) (m : Manager)
    → AreLines (broadcast_to_room_except cs id except (c ∷ s) m)
unfolding broadcast_to_room_except
except-AreLines cs id except c s m = send_except-AreLines cs except _ _ (framed-IsLine c s)

-- Each message has a text.
abbrev pub AllSay : Text → List Send → Type 0
AllSay text sends = All (λ x. x.message ≡ text) sends

send_to_users-AllSay :
    (cs : Clients) (message : Text) (us : List Text) → AllSay message (send_to_users cs message us)
unfolding send_to_users
send_to_users-AllSay cs message [] = tt
send_to_users-AllSay cs message (u ∷ us) = elim (Option-cases (client_of cs u)) [
  | inl gone ↦ rw gone (send_to_users-AllSay cs message us)
  | inr (c, there) ↦ rw there (refl, send_to_users-AllSay cs message us)
]

module _ (cs : Clients) (m : Manager) where
  emo_click-AreLines : (input : Text) → AreLines (emo_click cs input m)
  unfolding emo_click emo_click_fields emo_click_from
  emo_click-AreLines input = elim (Option-cases (getline b'|' input)) [
    | inl short ↦ rw short tt
    | inr ((nickname, rest), there) ↦ elim (Option-cases (getline 10 rest)) [
      | inl short ↦ rw (there, short) tt
      | inr ((index, more), there') ↦
          elim (Bool-cases (is_empty (trim (get_id_by_nickname cs nickname)))) [
            | inl nobody ↦ rw (there, there', nobody) tt
            | inr somebody ↦
                rw (there, there', somebody)
                  (broadcast-AreLines cs _ _ m (
                    IsLine-append (codes "EMO_CLICK|") _
                      (IsLine-append nickname _ (IsLine-byte b'|' _ (ended index)))))
          ]
    ]
  ]

  weapon_attack-AreLines : (c : Client) (input : Text) → AreLines (weapon_attack cs c input m)
  unfolding weapon_attack
  weapon_attack-AreLines c input = elim (Option-cases (attack_text input)) [
    | inl short ↦ rw short tt
    | inr (t, there) ↦
        let (a, b, d, rest, parts, made) = attack_text-fields input t there in
        rw there (
          broadcast-AreLines cs _ t m (
            subst IsLine (sym made) (
              IsLine-append (codes "WEAPON_ATTACK|") _ (
                IsLine-append a _ (
                  IsLine-byte b'|' _ (
                    IsLine-append b _
                      (IsLine-byte b'|' _ (IsLine-append d _ (IsLine-byte b'|' _ (ended _))))))))))
  ]

  destroy_block-AreLines : (c : Client) (input : Text) → AreLines (destroy_block cs c input m)
  unfolding destroy_block
  destroy_block-AreLines c input = elim (Bool-cases (is_empty (trim input))) [
    | inl nothing ↦ rw nothing tt
    | inr block ↦ rw block (
        broadcast-AreLines cs _ _ m (IsLine-append (codes "DESTROY_BLOCK|") _ (ended (trim input))))
  ]

  melody_spawn-AreLines : (c : Client) (input : Text) → AreLines (melody_spawn cs c input m)
  unfolding melody_spawn
  melody_spawn-AreLines c input = elim (Option-cases (cut input)) [
    | inl short ↦ rw short tt
    | inr ((nickname, rest), there) ↦ rw there (
        broadcast-AreLines cs _ _ m (
          IsLine-append (codes "MELODY_SPAWN|") _
            (IsLine-append nickname _ (IsLine-byte b'|' _ (ended rest)))))
  ]

  water_hit-AreLines : (input : Text) → AreLines (water_hit cs input m)
  unfolding water_hit water_hit_fields hit_by
  water_hit-AreLines input = elim (Option-cases (cut input)) [
    | inl short ↦ rw short tt
    | inr ((nickname, damage), there) ↦ elim (Option-cases (stoi damage)) [
      | inl bad ↦ rw (there, bad) tt
      | inr (n, number) ↦
          rw (there, number)
            (broadcast-AreLines cs _ _ m (
              IsLine-append (codes "PLAYER_HIT|") _
                (IsLine-append nickname _ (IsLine-byte b'|' _ (ended (int_string n))))))
    ]
  ]

  hit_room-AreLines :
      (attacks : Attacks) (weapon : ℤ) (attacker target nickname : Text) (r : Option Room)
      → AreLines (hit_room cs attacks weapon attacker target nickname r m)
  unfolding hit_room
  hit_room-AreLines attacks weapon attacker target nickname none = tt
  hit_room-AreLines attacks weapon attacker target nickname (some r) =
      elim (Bool-cases (is_friendly attacker target r)) [
        | inl friends ↦ rw friends tt
        | inr foes ↦ rw foes (
            broadcast-AreLines cs _ _ m (
              IsLine-append (codes "DAMAGE|") _
                (IsLine-append nickname _ (IsLine-byte b'|' _ (ended _)))))
      ]

  hit-AreLines : (attacks : Attacks) (input : Text) → AreLines (hit cs attacks input m)
  unfolding hit hit_fields hit_weapon hit_users
  hit-AreLines attacks input = elim (Option-cases (cut input)) [
    | inl short ↦ rw short tt
    | inr ((weapon, rest), there) ↦ elim (Option-cases (stoi weapon)) [
      | inl bad ↦ rw (there, bad) tt
      | inr (n, number) ↦ elim (Option-cases (cut rest)) [
        | inl short ↦ rw (there, number, short) tt
        | inr ((attacker, target), there') ↦
            rw (there, number, there')
              (hit_room-AreLines attacks n _ _ _
                (get_room_by_user_id (get_id_by_nickname cs attacker) m))
      ]
    ]
  ]

  module _ {ℓ} {E : Type ℓ} (f : Floats E) where
    place_sends-AreLines : (o : Option (Text × (E × E) × ℤ)) → AreLines (place_sends f cs o m)
    unfolding place_sends
    place_sends-AreLines none = tt
    place_sends-AreLines (some (name, (x, z), type)) = broadcast-AreLines cs _ _ m (
        IsLine-append (codes "PLACE_BALLOON_RESULT|") _ (
          IsLine-append name _ (
            IsLine-byte b'|' _ (IsLine-append _ _ (IsLine-byte b'|' _ (ended (int_string type)))))))

    remove_sends-AreLines : (o : Option (Text × (E × E) × ℤ)) → AreLines (remove_sends f cs o m)
    unfolding remove_sends
    remove_sends-AreLines none = tt
    remove_sends-AreLines (some (name, (x, z), type)) =
        All-append _ _ _
          (broadcast-AreLines cs _ _ m (
            IsLine-append (codes "REMOVE_BALLOON|") _
              (IsLine-append name _ (IsLine-byte b'|' _ (ended _)))))
          (broadcast-AreLines cs _ _ m (
            IsLine-append (codes "WATER_SPREAD|") _ (
              IsLine-append name _ (
                IsLine-byte b'|' _ (
                  IsLine-append _ _ (
                    IsLine-byte b'|' _ (
                      IsLine-append (int_string type) _
                        (IsLine-byte b'|' _ (ended (water_spread f x z))))))))))

  destroy_spell-AllSay :
      (c : Client) (input : Text)
      → AllSay (codes "DESTROY_SPELL|" ++ input) (destroy_spell cs c input m)
  unfolding destroy_spell broadcast_to_user_room
  destroy_spell-AllSay c input = send_to_users-AllSay cs _ _

  melody_move-AreLines : (c : Client) (input : Text) → AreLines (melody_move cs c input m)
  unfolding melody_move melody_text
  melody_move-AreLines c input = elim (Option-cases (cut input)) [
    | inl short ↦ rw short tt
    | inr ((nickname, rest), there) ↦ elim (Option-cases (cut rest)) [
      | inl short ↦ rw (there, short) tt
      | inr ((position, rotation_y), there') ↦
          rw (there, there') (except-AreLines cs c.id c.socket _ _ m)
    ]
  ]

  module _ {ℓ} {E : Type ℓ} (f : Floats E) where
    move_to-AreLines :
        (c : Client) (name : Text) (x z : Option E) (positions : List (Text × (E × E)))
        → AreLines (move_to f cs c name x z positions m).1
    unfolding move_to
    move_to-AreLines c name none z positions = tt
    move_to-AreLines c name (some x) none positions = tt
    move_to-AreLines c name (some x) (some z) positions = except-AreLines cs c.id c.socket _ _ m

    move_coords-AreLines :
        (c : Client) (name : Text) (o : Option (Text × Text)) (positions : List (Text × (E × E)))
        → AreLines (move_coords f cs c name o positions m).1
    unfolding move_coords
    move_coords-AreLines c name none positions = tt
    move_coords-AreLines c name (some (xs, zs)) positions =
        elim (Bool-cases
          (is_empty c.id || not (name == trim c.nickname) || is_empty (get_user_room_id c.id m))) [
            | inl refused ↦ rw refused tt
            | inr known ↦ rw known (move_to-AreLines c name _ _ positions)
          ]

    move-AreLines :
        (c : Client) (input : Text) (positions : List (Text × (E × E)))
        → AreLines (move f cs c input positions m).1
    unfolding move move_fields
    move-AreLines c input positions = elim (Option-cases (cut input)) [
      | inl short ↦ rw short tt
      | inr ((name, coords), there) ↦
          rw there (move_coords-AreLines c name (cut_comma coords) positions)
    ]

    -- Whatever a client sends in a match, and whatever the rooms are, each message that goes out has a line feed at
    -- its end: for an emote, an attack, a hit, a melody, a wall, a block, a move or a balloon. DESTROY_SPELL is the
    -- exception: each of its messages is the request as it came, without a line feed of its own.
    pub play-AreLines :
        (c : Client) (attacks : Attacks) (input : Text) (positions : List (Text × (E × E)))
        → AreLines (emo_click cs input m)
          × AreLines (weapon_attack cs c input m)
          × AreLines (melody_move cs c input m)
          × AreLines (melody_destroy cs c input m)
          × AreLines (hit_wall cs c input m)
          × AreLines (destroy_block cs c input m)
          × AreLines (melody_spawn cs c input m)
          × AreLines (water_hit cs input m)
          × AreLines (hit cs attacks input m)
          × AreLines (move f cs c input positions m).1
          × AreLines (place_balloon f cs input m)
          × AreLines (remove_balloon f cs input m)
          × AllSay (codes "DESTROY_SPELL|" ++ input) (destroy_spell cs c input m)
    unfolding melody_destroy hit_wall place_balloon remove_balloon
    play-AreLines c attacks input positions = (
      emo_click-AreLines input,
      weapon_attack-AreLines c input,
      melody_move-AreLines c input,
      broadcast-AreLines cs _ _ m (IsLine-append (codes "MELODY_DESTROY|") _ (ended input)),
      broadcast-AreLines cs _ _ m (IsLine-append (codes "DESTROYWALL|") _ (ended input)),
      destroy_block-AreLines c input,
      melody_spawn-AreLines c input,
      water_hit-AreLines input,
      hit-AreLines attacks input,
      move-AreLines c input positions,
      place_sends-AreLines f (balloon_at f input),
      remove_sends-AreLines f (balloon_at f input),
      destroy_spell-AllSay c input,
    )
