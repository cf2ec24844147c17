-- ===== src/Play/Positions/Tests.antt =====
-- A balloon of Ann, with whole numbers in place of floats.
use bn_bserver.Prelude.{suc, ◌+◌, ◌-◌, ◌≡◌, refl, true, some, length}
use bn_bserver.Prelude.Text.{codes}
use bn_bserver.Prelude.Int.{ℤ, pos, negsuc, int_string}
use bn_bserver.Prelude.Decimal.{to_string}
use bn_bserver.Rooms.{Room, Manager, no_rooms}
use bn_bserver.Play.Positions.{Floats, water_spread}

abbrev pub shift : ℤ → ℤ → ℤ
shift (pos a) (pos b) = pos (a + b)
shift (pos a) (negsuc b) = pos (a - suc b)
shift (negsuc a) d = negsuc a

-- Whole numbers, each with one byte.
abbrev pub wholes : Floats ℤ
wholes = record {
  stof = λ s. some (pos 5, length s);
  is_finite = λ x. true;
  fixed_string = int_string;
  shown = int_string;
  hundred = pos 1;
  times = λ x y. x;
  over = λ x y. x;
  round = λ x. x;
  plus = shift;
}

spread : water_spread wholes (pos 5) (pos 7) ≡ codes "3,7;4,7;6,7;7,7;5,5;5,6;5,7;5,8;5,9"
unfolding water_spread bn_bserver.Rooms.Messages.joined int_string to_string
spread = refl
