-- ===== src/Users/Tests.antt =====
-- Two users: their files load, one more registers, and games are counted.
use bn_bserver.Prelude.{◌≡◌, refl, Bool, true, false, [], ◌∷◌, arith, All, if◌then◌else◌}
use bn_bserver.Prelude.Text.{codes, ◌==◌, has_byte}
use bn_bserver.Prelude.Int.{pos}
use bn_bserver.CsvStore.{commit}
use bn_bserver.Prelude.Lines.{joined_by}
use bn_bserver.Prelude.Decimal.{to_string}
use bn_bserver.Prelude.Int.{int_string}
use bn_bserver.Users.Rows.{int_row_text, account_text, profile_text, values_text}
use bn_bserver.Users.{UserAccount, Tables, UserManager, returned}
use bn_bserver.Users.Rows.{noughts}
use bn_bserver.Users.Load.{load_users}
use bn_bserver.Users.Register.{register_user, duplicate, has_forbidden, push_user}
use bn_bserver.Users.Query.{check_login, update_win_loss}
use bn_bserver.Users.Loaded.{load_users-Mirrors}
use bn_bserver.Users.Atomic.{Leaves, told_success, register_user-Leaves}
use bn_bserver.Users.Unique.{IsDistinct, register_user-IsDistinct, register_user-check_login}
use bn_bserver.Users.Tally.{
  IsTally, by_character, total_wins, total_losses, IsCounted, CountsGame, update_win_loss-IsCounted,
}
use bn_bserver.Prelude.{none, ap, length, ◌≤◌, ◌++◌}
use bn_bserver.CsvStore.{max_image}
use bn_bserver.Users.Rows.{ones}
use bn_bserver.Users.Atomic.{success, is_refused}
use bn_bserver.Users.Registered.{batch, register_user-Mirrors}
use bn_bserver.Users.Loaded.{Mirrors}
use bn_bserver.Prelude.{some}
use bn_bserver.Users.Save.{find_row}
use bn_bserver.Users.Lookup.{load_attack_stats}
use bn_bserver.Users.Lookup.Loading.{IsLoaded, load_attack_stats-IsLoaded}
use bn_bserver.Users.Sample.{halves, two_users, two_files, server, two_users-IsStored, two_mirrors}

abbrev empty_tables : Tables Bool
empty_tables = record {
  users = [];
  profiles = [];
  characters = [];
  emotes = [];
  stats = [];
  balloons = [];
  icons = [];
}

abbrev booting : UserManager Bool
booting = record server { tables = empty_tables }

load_users-Mirrors_example : load_users halves booting ≡ (returned true, server)
load_users-Mirrors_example =
    load_users-Mirrors halves two_users booting two_users-IsStored two_mirrors

abbrev cleo : UserAccount
cleo = record { id = codes "cleo"; password = codes "pw3"; nickname = codes "Cleo" }

register_user-Leaves_example : Leaves halves 20 cleo server (register_user halves 20 cleo server)
register_user-Leaves_example = register_user-Leaves halves 20 cleo server refl

two_users-IsDistinct : IsDistinct two_users.users
unfolding ◌==◌
two_users-IsDistinct = (((refl, refl), tt), (tt, tt))

register_user-IsDistinct_example : IsDistinct (register_user halves 20 cleo server).1.tables.users
register_user-IsDistinct_example =
    register_user-IsDistinct halves 20 cleo server refl two_users-IsDistinct

tallied-IsTally : All IsTally two_users.stats
unfolding noughts by_character total_wins total_losses
tallied-IsTally = (
  record {
    games = (0, 0) ∷ (0, 0) ∷ (0, 0) ∷ (0, 0) ∷ (0, 0) ∷ (0, 0) ∷ (0, 0) ∷ [];
    seven = refl;
    values = refl;
  },
  tt,
)

update_win_loss-IsCounted_example :
    CountsGame
      (codes "ann")
      true
      (record { id = codes "ann"; values = noughts 16 })
      (update_win_loss (codes "ann") true (pos 3) two_users).stats
    × All (IsCounted true (pos 3)) (update_win_loss (codes "ann") true (pos 3) two_users).stats
unfolding find_row ◌==◌
update_win_loss-IsCounted_example =
    update_win_loss-IsCounted (codes "ann") true (pos 3) two_users
      (record { id = codes "ann"; values = noughts 16 }) tallied-IsTally refl

cleo-fits : All (λ e. length e.1 ≤ max_image) (batch halves cleo two_users two_files two_mirrors)
unfolding two_mirrors push_user joined_by noughts ones int_row_text account_text profile_text
    values_text int_string to_string
cleo-fits = (
  omega arith,
  (omega arith, (omega arith, (omega arith, (omega arith, (omega arith, (omega arith, tt)))))),
)

cleo_new : duplicate cleo.id cleo.nickname two_users.users ≡ none
unfolding duplicate ◌==◌
cleo_new = refl

cleo-is_refused : is_refused cleo ≡ false
unfolding has_forbidden has_byte
cleo-is_refused = refl

register_user-Mirrors_example :
    (register_user halves 9 cleo server ≡ (
      returned success,
      record {
        tables = push_user halves cleo two_users;
        pending = [];
        active = false;
        committed = false;
        files = (commit 9 (batch halves cleo two_users two_files two_mirrors) two_files).0;
      },
    ))
    × Mirrors halves
        (commit 9 (batch halves cleo two_users two_files two_mirrors) two_files).0
        (push_user halves cleo two_users)
register_user-Mirrors_example =
    register_user-Mirrors halves 9 cleo server two_mirrors refl cleo-is_refused refl cleo_new
      (omega arith) cleo-fits

cleo-told : told_success (register_user halves 9 cleo server).0 ≡ true
unfolding ◌==◌
cleo-told =
    ap (λ r. told_success r.0)
      (register_user-Mirrors halves 9 cleo server two_mirrors refl cleo-is_refused refl cleo_new
        (omega arith) cleo-fits).0

register_user-check_login_example :
    check_login (codes "cleo") (codes "pw3") (register_user halves 9 cleo server).1.tables.users ≡ (
      if cleo.id == codes "cleo"
      then if cleo.password == codes "pw3"
        then codes "LOGIN_SUCCESS|"
          ++ (cleo.id ++ b',' ∷ (cleo.password ++ b',' ∷ (cleo.nickname ++ codes "\n")))
        else codes "WRONG_PASSWORD|\n"
      else check_login (codes "cleo") (codes "pw3") two_users.users)
register_user-check_login_example =
    register_user-check_login halves 9 cleo server (codes "cleo") (codes "pw3") refl cleo-told

load_attack_stats-IsLoaded_example :
    IsLoaded
      ((pos 0, pos 9) ∷ [])
      (load_attack_stats (some (codes "i,h,a\n1,100,x\n")) ((pos 0, pos 9) ∷ []))
load_attack_stats-IsLoaded_example =
    load_attack_stats-IsLoaded (some (codes "i,h,a\n1,100,x\n")) ((pos 0, pos 9) ∷ [])
