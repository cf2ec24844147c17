-- ===== src/Play/Tests.antt =====
-- An attack with and without its fifth field, and a spell.
use bn_bserver.Prelude.{◌≡◌, ◌⊎◌, refl, true, false, some, [], ◌∷◌, ◌++◌}
use bn_bserver.Prelude.Text.{Text, codes, has_byte, before_byte, after_byte}
use bn_bserver.Rooms.{Manager, no_rooms}
use bn_bserver.Rooms.Clients.{Client, Clients}
use bn_bserver.Play.{
  cut, attack_text, emo_click, weapon_attack, melody_destroy, hit_wall, destroy_block, melody_spawn,
  water_hit, hit,
}
use bn_bserver.Play.Forwarding.{attack_text-forwards}
use bn_bserver.Play.Positions.{move, place_balloon, remove_balloon}
use bn_bserver.Play.Positions.Tests.{wholes}
use bn_bserver.Play.{melody_move, destroy_spell}
use bn_bserver.Play.Lines.{AreLines, AllSay, play-AreLines}

attack_text_bar : attack_text (codes "Ann|2|1,1|90|") ≡ some (codes "WEAPON_ATTACK|Ann|2|1,1|90\n")
unfolding attack_text cut has_byte before_byte after_byte
attack_text_bar = refl

attack_text-forwards_example :
    (codes "WEAPON_ATTACK|Ann|2|1,1|90\n"
      ≡ codes "WEAPON_ATTACK|" ++ (codes "Ann|2|1,1|90|" ++ codes "\n"))
    ⊎ ((front : Text) × (codes "Ann|2|1,1|90|" ≡ front ++ codes "|")
        × (codes "WEAPON_ATTACK|Ann|2|1,1|90\n" ≡ codes "WEAPON_ATTACK|" ++ (front ++ codes "\n")))
attack_text-forwards_example =
    attack_text-forwards (codes "Ann|2|1,1|90|") (codes "WEAPON_ATTACK|Ann|2|1,1|90\n")
      attack_text_bar

abbrev ann : Client
ann = record { socket = 4; id = codes "ann"; nickname = codes "Ann" }

abbrev connected : Clients
connected = record { clients_map = (codes "ann", ann) ∷ []; all = ann ∷ [] }

abbrev arena : Manager
arena = record no_rooms {
  rooms =
      record {
        room_name = codes "arena";
        map_name = codes "Map1";
        password = [];
        users = codes "ann" ∷ [];
        assigned_spawn_positions = [];
        character_selections = [];
        team_assignments = [];
        match_id = 0;
        is_in_game = true;
        is_coop_mode = false;
      }
      ∷ [];
}

play-AreLines_example :
    AreLines (emo_click connected (codes "Ann|3,4|2") arena)
    × AreLines (weapon_attack connected ann (codes "Ann|3,4|2") arena)
    × AreLines (melody_move connected ann (codes "Ann|3,4|2") arena)
    × AreLines (melody_destroy connected ann (codes "Ann|3,4|2") arena)
    × AreLines (hit_wall connected ann (codes "Ann|3,4|2") arena)
    × AreLines (destroy_block connected ann (codes "Ann|3,4|2") arena)
    × AreLines (melody_spawn connected ann (codes "Ann|3,4|2") arena)
    × AreLines (water_hit connected (codes "Ann|3,4|2") arena)
    × AreLines (hit connected [] (codes "Ann|3,4|2") arena)
    × AreLines (move wholes connected ann (codes "Ann|3,4|2") [] arena).1
    × AreLines (place_balloon wholes connected (codes "Ann|3,4|2") arena)
    × AreLines (remove_balloon wholes connected (codes "Ann|3,4|2") arena)
    × AllSay
        (codes "DESTROY_SPELL|" ++ codes "Ann|3,4|2")
        (destroy_spell connected ann (codes "Ann|3,4|2") arena)
play-AreLines_example = play-AreLines connected arena wholes ann [] (codes "Ann|3,4|2") []
