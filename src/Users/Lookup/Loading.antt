-- ===== src/Users/Lookup/Loading.antt =====
-- What LoadAttackStats (TeamOFYServer/UserManager.cpp) leaves, on all its branches.
use bn_bserver.Prelude.{
  ◌≡◌, ◌⊎◌, inl, inr, refl, Bool, true, false, Option, none, some, List, [], ◌∷◌, arith,
}
use bn_bserver.Prelude.Text.{Text}
use bn_bserver.Prelude.Lines.{split}
use bn_bserver.Prelude.Int.{ℤ, pos, negsuc}
use bn_bserver.Store.{same_int}
use bn_bserver.Users.Load.{body}
use bn_bserver.Users.Lookup.{
  Attacks, find_attack, attack_lines, swap_attacks, attack_file, load_attack_stats,
}

same_int_self : (i : ℤ) → same_int i i ≡ true
unfolding same_int
same_int_self (pos n) = ground arith
same_int_self (negsuc n) = ground arith

-- The values as they were with the answer false, or values with an index with the answer true.
abbrev pub IsLoaded : Attacks → Attacks × Bool → Type 0
IsLoaded old (now, answer) =
    ((answer ≡ false) × (now ≡ old))
    ⊎ ((answer ≡ true) × ((i : ℤ) × (a : ℤ) × (find_attack i now ≡ some a)))

swap_attacks-IsLoaded :
    (old : Attacks) (parsed : Option Attacks) → IsLoaded old (swap_attacks old parsed)
unfolding find_attack
swap_attacks-IsLoaded old none = inl (refl, refl)
swap_attacks-IsLoaded old (some []) = inl (refl, refl)
swap_attacks-IsLoaded old (some ((i, a) ∷ t)) = inr (refl, (i, a, rw (same_int_self i)))

attack_file-IsLoaded :
    (old : Attacks) (lines : Option (List Text)) → IsLoaded old (attack_file old lines)
attack_file-IsLoaded old none = inl (refl, refl)
attack_file-IsLoaded old (some lines) = swap_attacks-IsLoaded old (attack_lines lines [])

-- A load of the attack values, of any file, leaves the values that were there and says no, or leaves
-- values with an index at least and says yes.
pub load_attack_stats-IsLoaded :
    (file : Option Text) (old : Attacks) → IsLoaded old (load_attack_stats file old)
unfolding load_attack_stats
load_attack_stats-IsLoaded none old = inl (refl, refl)
load_attack_stats-IsLoaded (some s) old = attack_file-IsLoaded old (body (split 10 s))
