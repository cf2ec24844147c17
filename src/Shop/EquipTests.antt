-- ===== src/Shop/EquipTests.antt =====
-- Ann changes her emotes.
use bn_bserver.Prelude.{◌≤◌, ◌≡◌, refl, Bool, true, false, some, [], ◌∷◌, arith, length}
use bn_bserver.Prelude.Text.{codes, ◌==◌, trim}
use bn_bserver.Prelude.Lines.{joined_by}
use bn_bserver.Prelude.Decimal.{to_string}
use bn_bserver.Prelude.Int.{pos, int_string}
use bn_bserver.CsvStore.{commit, max_image}
use bn_bserver.Rooms.Clients.{get_id_by_nickname, id_in}
use bn_bserver.Users.{returned, in_transaction}
use bn_bserver.Users.Rows.{values_text, profile_text}
use bn_bserver.Users.Save.{find_row}
use bn_bserver.Users.Query.{value_at, change_at, change_row}
use bn_bserver.Users.Loaded.{Mirrors}
use bn_bserver.Users.Saved.{rows_with}
use bn_bserver.Users.Sample.{
  halves, two_users, two_files, server, profile_with, row, two_users-IsStored, two_mirrors,
}
use bn_bserver.Shop.{user_of, is_owned}
use bn_bserver.Prelude.{ℕ, map, sym, ap, ◌∙◌, zero, suc, Bool, List, ◌<◌}
use bn_bserver.Shop.{emotes}
use bn_bserver.Users.{UserProfile}
use bn_bserver.Users.Loaded.{file_text}
use bn_bserver.Store.{same_int}
use bn_bserver.Prelude.Int.{ℤ, negsuc}
use bn_bserver.Shop.Laws.{emotes-StockLaws}
use bn_bserver.Shop.Equip.{
  last_place, wear_at, wear, slots_of, set_slots, send_set_info, change_emote, with_numbers,
}
use bn_bserver.Shop.Exchanged.{AreApart, exchange}
use bn_bserver.Shop.Dressing.{with_profile, profile_batch, dressed, change_emote-Mirrors}
use bn_bserver.Shop.Worn.{IsOutfit, wear-IsOutfit}
use bn_bserver.Shop.Purchase.{IsCustomer}
use bn_bserver.Shop.Tests.{ann_client, connected}

-- Ann swaps the emotes of her first two slots.
ann_emotes-IsCustomer :
    IsCustomer halves emotes
      (emotes-StockLaws halves)
      server
      (user_of connected (codes "Ann"))
      (profile_with (codes "ann") (pos 100))
      (row (codes "ann") 35)
unfolding get_id_by_nickname id_in trim ◌==◌ rows_with find_row
ann_emotes-IsCustomer = record {
  idle = refl;
  some_name = refl;
  stored = two_users-IsStored;
  mirrors = two_mirrors;
  one_profile = omega arith;
  one_row = omega arith;
  profile = refl;
  row = refl;
}

first_owned : is_owned (pos 0) (row (codes "ann") 35).values ≡ true
unfolding is_owned value_at
first_owned = refl

ann_slot : value_at 1 (slots_of (profile_with (codes "ann") (pos 100))) ≡ pos 1
unfolding value_at
ann_slot = refl

-- The first slots hold their own numbers.
slot_number : (n : ℕ) → n < 4 → value_at n (slots_of (profile_with (codes "ann") (pos 100))) ≡ pos n
unfolding value_at
slot_number zero h = refl
slot_number (suc zero) h = refl
slot_number (suc (suc zero)) h = refl
slot_number (suc (suc (suc zero))) h = refl
slot_number (suc (suc (suc (suc n)))) h = absurd (omega arith)

ann_apart : AreApart (slots_of (profile_with (codes "ann") (pos 100)))
ann_apart m n h k e =
    ap (λ v. elim v [ pos j ↦ j | negsuc j ↦ j ]) (sym (slot_number m h) ∙ e ∙ slot_number n k)

one_zero : same_int (pos 1) (pos 0) ≡ false
unfolding same_int
one_zero = refl

abbrev swapped_slots : UserProfile Bool → UserProfile Bool
swapped_slots =
    set_slots (map (exchange (pos 1) (pos 0)) (slots_of (profile_with (codes "ann") (pos 100))))

ann_profile-fits :
    length (
      file_text (profile_text halves) two_mirrors.profiles.0 (
        change_row UserProfile.id
          (user_of connected (codes "Ann"))
          swapped_slots
          two_users.profiles))
    ≤ max_image
unfolding two_mirrors value_at same_int get_id_by_nickname id_in trim ◌==◌ change_row joined_by
    profile_text values_text int_string to_string
ann_profile-fits = omega arith

change_emote-Mirrors_example :
    let batch =
      profile_batch halves two_mirrors.profiles.0
        (user_of connected (codes "Ann"))
        swapped_slots
        two_users in
    let after = with_profile halves (user_of connected (codes "Ann")) swapped_slots two_users in
    (in_transaction
        (with_numbers
          (λ cs' name. change_emote halves 3 cs' ann_client name)
          connected
          (codes "Ann")
          (some (pos 1))
          (some (pos 0)))
        server
      ≡ (
        returned (
            send_set_info halves ann_client
              (codes "Ann")
              (dressed halves (pos 1) (pos 0) (profile_with (codes "ann") (pos 100)))),
        record {
          tables = after;
          pending = [];
          active = false;
          committed = false;
          files = (commit 3 batch two_files).0;
        },
      ))
    × (find_row UserProfile.id (user_of connected (codes "Ann")) after.profiles
        ≡ some (dressed halves (pos 1) (pos 0) (profile_with (codes "ann") (pos 100))))
    × Mirrors halves (commit 3 batch two_files).0 after
unfolding ann_emotes-IsCustomer
change_emote-Mirrors_example =
    change_emote-Mirrors halves connected ann_client (codes "Ann") (pos 1) (pos 0) server
      (profile_with (codes "ann") (pos 100)) (row (codes "ann") 35) 3 1 ann_emotes-IsCustomer
      ann_apart (omega arith) ann_slot one_zero first_owned (omega arith) ann_profile-fits

abbrev five : List ℤ
five = pos 1 ∷ pos 1 ∷ pos 1 ∷ pos 1 ∷ pos 1 ∷ []

abbrev two : List ℤ
two = pos 0 ∷ pos 1 ∷ []

two_owned : (n : ℕ) → n < length two → is_owned (value_at n two) five ≡ true
unfolding is_owned value_at
two_owned zero h = refl
two_owned (suc zero) h = refl
two_owned (suc (suc n)) h = absurd (omega arith)

two_distinct : (m n : ℕ) → m < length two → n < length two → value_at m two ≡ value_at n two → m ≡ n
unfolding value_at
two_distinct zero zero h k e = refl
two_distinct zero (suc zero) h k e = absurd (ground arith)
two_distinct (suc zero) zero h k e = absurd (ground arith)
two_distinct (suc zero) (suc zero) h k e = refl
two_distinct (suc (suc m)) n h k e = absurd (omega arith)
two_distinct m (suc (suc n)) h k e = absurd (omega arith)

two-IsOutfit : IsOutfit five two
two-IsOutfit = record { has = two_owned; distinct = two_distinct }

fifth_owned : is_owned (pos 4) five ≡ true
unfolding is_owned value_at
fifth_owned = refl

fifth_worn : wear (pos 1) (pos 4) two ≡ some (pos 0 ∷ pos 4 ∷ [])
unfolding wear wear_at last_place change_at value_at same_int
fifth_worn = refl

wear-IsOutfit_example : IsOutfit five (pos 0 ∷ pos 4 ∷ [])
wear-IsOutfit_example =
    wear-IsOutfit five two two-IsOutfit (pos 4) fifth_owned (pos 1) (pos 0 ∷ pos 4 ∷ []) fifth_worn
