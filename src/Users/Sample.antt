-- ===== src/Users/Sample.antt =====
-- Two users, for the tests.
use bn_bserver.Prelude.{
  ℕ, zero, suc, refl, Bool, true, false, none, some, [], ◌∷◌, if◌then◌else◌, arith, All,
}
use bn_bserver.Prelude.Text.{Text, codes, ◌==◌, has_byte}
use bn_bserver.Prelude.Int.{ℤ, pos}
use bn_bserver.Prelude.Int.RoundTrip.{IsInt}
use bn_bserver.CsvStore.{Disk}
use bn_bserver.Users.{
  account_path, profile_path, character_path, emote_path, stats_path, balloon_path, icon_path,
  UserAccount, UserProfile, IntRow, Tables, UserManager,
}
use bn_bserver.Users.Rows.{FloatText, account_text, int_row_text, profile_text, noughts}
use bn_bserver.Users.Loaded.{file_text, IsStored, Mirrors}

-- Two floats and their texts.
abbrev pub halves : FloatText Bool
halves = record {
  float_string = λ b. if b then codes "0.5" else codes "0";
  fixed_string = λ b. if b then codes "0.500000" else codes "0.000000";
  stof = λ s. if s == codes "0.5" then some true else if s == codes "0" then some false else none;
  nought = false;
}

abbrev pub ann : UserAccount
ann = record { id = codes "ann"; password = codes "pw1"; nickname = codes "Ann" }

abbrev pub bob : UserAccount
bob = record { id = codes "bob"; password = codes "pw2"; nickname = codes "Bob" }

abbrev pub profile_with : Text → ℤ → UserProfile Bool
profile_with id money = record {
  id = id;
  level = pos 2;
  exp = true;
  icon = pos 0;
  money0 = money;
  money1 = pos 5;
  emo0 = pos 0;
  emo1 = pos 1;
  emo2 = pos 2;
  emo3 = pos 3;
  balloon = pos 0;
}

abbrev pub row : Text → ℕ → IntRow
row id n = record { id = id; values = pos 1 ∷ noughts n }

abbrev pub two_users : Tables Bool
two_users = record {
  users = ann ∷ bob ∷ [];
  profiles = profile_with (codes "ann") (pos 100) ∷ profile_with (codes "bob") (pos 7) ∷ [];
  characters = row (codes "ann") 6 ∷ row (codes "bob") 6 ∷ [];
  emotes = row (codes "ann") 35 ∷ [];
  stats = record { id = codes "ann"; values = noughts 16 } ∷ [];
  balloons = row (codes "ann") 9 ∷ row (codes "bob") 9 ∷ [];
  icons = row (codes "bob") 9 ∷ [];
}

abbrev pub two_files : Disk
two_files p =
    if p == account_path
    then some (file_text account_text (codes "id,pw,nick") two_users.users)
    else if p == profile_path
    then some (file_text (profile_text halves) (codes "id,level") two_users.profiles)
    else if p == character_path
    then some (file_text int_row_text (codes "id,char") two_users.characters)
    else if p == emote_path
    then some (file_text int_row_text (codes "id,emo") two_users.emotes)
    else if p == stats_path
    then some (file_text int_row_text (codes "id,win") two_users.stats)
    else if p == balloon_path
    then some (file_text int_row_text (codes "id,balloon") two_users.balloons)
    else if p == icon_path
    then some (file_text int_row_text (codes "id,icon") two_users.icons)
    else none

abbrev pub server : UserManager Bool
server = record {
  tables = two_users;
  pending = [];
  active = false;
  committed = false;
  files = two_files;
}

pub noughts-IsInt : (n : ℕ) → All IsInt (noughts n)
unfolding noughts
noughts-IsInt zero = tt
noughts-IsInt (suc n) = (omega arith, noughts-IsInt n)

pub two_users-IsStored : IsStored halves two_users
unfolding has_byte noughts ◌==◌
two_users-IsStored = record {
  users = (
    ((refl, refl), (refl, refl), (refl, refl), (_, _, refl)),
    (((refl, refl), (refl, refl), (refl, refl), (_, _, refl)), tt),
  );
  profiles = (
    (
      (refl, refl),
      omega arith,
      ((refl, refl), refl),
      (
        omega arith,
        (
          omega arith,
          (
            omega arith,
            (omega arith, (omega arith, (omega arith, (omega arith, (omega arith, tt))))),
          ),
        ),
      ),
    ),
    (
      (
        (refl, refl),
        omega arith,
        ((refl, refl), refl),
        (
          omega arith,
          (
            omega arith,
            (
              omega arith,
              (omega arith, (omega arith, (omega arith, (omega arith, (omega arith, tt))))),
            ),
          ),
        ),
      ),
      tt,
    ),
  );
  characters = (
    ((refl, refl), refl, (omega arith, noughts-IsInt 6)),
    (((refl, refl), refl, (omega arith, noughts-IsInt 6)), tt),
  );
  emotes = (((refl, refl), refl, (omega arith, noughts-IsInt 35)), tt);
  stats = (((refl, refl), refl, noughts-IsInt 16), tt);
  balloons = (
    ((refl, refl), refl, (omega arith, noughts-IsInt 9)),
    (((refl, refl), refl, (omega arith, noughts-IsInt 9)), tt),
  );
  icons = (((refl, refl), refl, (omega arith, noughts-IsInt 9)), tt);
}

unfoldable pub two_mirrors : Mirrors halves two_files two_users
unfolding has_byte ◌==◌
two_mirrors = record {
  users = (codes "id,pw,nick", refl, refl);
  profiles = (codes "id,level", refl, refl);
  characters = (codes "id,char", refl, refl);
  emotes = (codes "id,emo", refl, refl);
  stats = (codes "id,win", refl, refl);
  balloons = (codes "id,balloon", refl, refl);
  icons = (codes "id,icon", refl, refl);
}
