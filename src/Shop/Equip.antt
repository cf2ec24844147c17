-- ===== src/Shop/Equip.antt =====
-- What a user wears: EMO_CHANGE, BALLOON_CHANGE and ICON_CHANGE of TeamOFYServer/ClientHandler.cpp, and
-- SendSetInfo, SendUserEmotes, SendUserBallons and SendUserIcons.
use bn_bserver.Prelude.{
  ℕ, ◌+◌, Bool, true, not, ◌||◌, Option, none, some, List, [], ◌∷◌, ◌++◌, if◌then◌else◌, ltb,
}
use bn_bserver.Prelude.Text.{Text, codes, getline}
use bn_bserver.Prelude.Decimal.{to_string}
use bn_bserver.Prelude.Int.{ℤ, pos, negsuc, int_string, stoi}
use bn_bserver.Store.{same_int}
use bn_bserver.Rooms.{Send}
use bn_bserver.Rooms.Clients.{Client, Clients}
use bn_bserver.Users.{
  UserProfile, Action, returned, threw, pure, ◌>>=◌, commit_transaction, in_transaction,
}
use bn_bserver.Users.Rows.{FloatText, values_text}
use bn_bserver.Users.Register.{is_empty}
use bn_bserver.Users.Save.{save_user_profile}
use bn_bserver.Users.Query.{
  get_user_profile_by_id, get_user_emotes_by_id, get_user_ballons_by_id, get_user_icons_by_id,
  value_at, change_at, change_row,
}
use bn_bserver.Shop.{user_of, to_client, is_owned}

-- The last slot that holds an emote, as the loop over `slots` leaves it.
unfoldable pub last_place : ℤ → ℕ → List ℤ → Option ℕ
last_place v i [] = none
last_place v i (w ∷ slots) = elim (last_place v (i + 1) slots) [
  | none ↦ if same_int w v then some i else none
  | some j ↦ some j
]

-- The swap of two slots, or the new emote in the slot of the old one; `none` if the old one is in no slot.
unfoldable pub wear_at : ℤ → List ℤ → Option ℕ → Option ℕ → Option (List ℤ)
wear_at b slots none place = none
wear_at b slots (some i) none = some (change_at i (λ v. b) slots)
wear_at b slots (some i) (some j) =
    some (change_at i (λ v. value_at j slots) (change_at j (λ v. value_at i slots) slots))

unfoldable pub wear : ℤ → ℤ → List ℤ → Option (List ℤ)
wear a b slots = wear_at b slots (last_place a 0 slots) (last_place b 0 slots)

-- toBalloon < 0 || toBalloon >= 10 || values[toBalloon] == 0
abbrev pub is_lacking : ℤ → List ℤ → Bool
is_lacking (pos i) vs = not (ltb i 10) || not (is_owned (pos i) vs)
is_lacking (negsuc i) vs = true

abbrev pub Change {ℓ} : Type ℓ → Type ℓ
Change E = Clients → Text → ℤ → ℤ → Option (UserProfile E) → Action E (List Send)

-- The numbers of the things that are there, from number `i` on.
unfoldable pub listed : (ℤ → Bool) → ℕ → List ℤ → Text
listed shown i [] = []
listed shown i (v ∷ vs) =
    let rest = listed shown (i + 1) vs in if shown v then b',' ∷ (to_string i ++ rest) else rest

module _ {ℓ} {E : Type ℓ} where
  abbrev pub slots_of : UserProfile E → List ℤ
  slots_of p = p.emo0 ∷ p.emo1 ∷ p.emo2 ∷ p.emo3 ∷ []

  abbrev pub set_slots : List ℤ → UserProfile E → UserProfile E
  set_slots vs p = record p {
    emo0 = value_at 0 vs;
    emo1 = value_at 1 vs;
    emo2 = value_at 2 vs;
    emo3 = value_at 3 vs;
  }

  -- SendSetInfo
  unfoldable pub send_set_info : FloatText E → Client → Text → UserProfile E → List Send
  send_set_info io c nickname p = to_client c (
      codes "SETINFO|"
      ++ (nickname
          ++ b','
            ∷ (int_string p.level
                ++ b','
                  ∷ (io.float_string p.exp
                      ++ (values_text (p.icon ∷ p.emo0 ∷ p.emo1 ∷ p.emo2 ∷ p.emo3 ∷ p.balloon ∷ [])
                          ++ codes "\n")))))

  -- A change of the profile, its file, the commit and the answer.
  unfoldable pub change_profile :
      FloatText E
      → ℕ
      → Clients
      → Client
      → Text
      → (UserProfile E → UserProfile E)
      → UserProfile E
      → Action E (List Send)
  change_profile io k cs c nickname f p m =
      (save_user_profile io (user_of cs nickname) >>= (λ _. commit_transaction k) >>= (λ ok. pure (
          if ok
          then send_set_info io c nickname (f p)
          else to_client c (codes "FILE_WRITE_ERROR|\n"))))
        (record m {
          tables = record m.tables {
            profiles = change_row UserProfile.id (user_of cs nickname) f m.tables.profiles;
          };
        })

  abbrev pub wear_emote :
      FloatText E
      → ℕ
      → Clients
      → Client
      → Text
      → UserProfile E
      → Option (List ℤ)
      → Action E (List Send)
  wear_emote io k cs c nickname p none = pure (to_client c (codes "EMO_CHANGE_FAIL|NOT_EQUIPPED\n"))
  wear_emote io k cs c nickname p (some slots) =
      change_profile io k cs c nickname (set_slots slots) p

  -- EMO_CHANGE behind its tests of the fields and of the user.
  unfoldable pub change_emote :
      FloatText E
      → ℕ
      → Clients
      → Client
      → Text
      → ℤ
      → ℤ
      → Option (UserProfile E)
      → Action E (List Send)
  change_emote io k cs c nickname a b none m = (threw, m)
  change_emote io k cs c nickname a b (some p) m =
      let (row, rows) = get_user_emotes_by_id (user_of cs nickname) m.tables.emotes in
      let m' = record m { tables = record m.tables { emotes = rows } } in
      if is_owned b row.values
      then wear_emote io k cs c nickname p (wear a b (slots_of p)) m'
      else (returned (to_client c (codes "EMO_CHANGE_FAIL|NOT_OWNED\n")), m')

  -- BALLOON_CHANGE behind its tests of the fields and of the user.
  unfoldable pub change_balloon :
      FloatText E
      → ℕ
      → Clients
      → Client
      → Text
      → ℤ
      → ℤ
      → Option (UserProfile E)
      → Action E (List Send)
  change_balloon io k cs c nickname a b none m = (threw, m)
  change_balloon io k cs c nickname a b (some p) m =
      let (row, rows) = get_user_ballons_by_id (user_of cs nickname) m.tables.balloons in
      let m' = record m { tables = record m.tables { balloons = rows } } in
      if not (same_int p.balloon a)
      then (returned (to_client c (codes "BALLOON_CHANGE_FAIL|NOT_EQUIPPED\n")), m')
      else if is_lacking b row.values
      then (returned (to_client c (codes "BALLOON_CHANGE_FAIL|NOT_OWNED\n")), m')
      else change_profile io k cs c nickname (λ q. record q { balloon = b }) p m'

  -- ICON_CHANGE behind its tests of the fields and of the user.
  unfoldable pub change_icon :
      FloatText E
      → ℕ
      → Clients
      → Client
      → Text
      → ℤ
      → ℤ
      → Option (UserProfile E)
      → Action E (List Send)
  change_icon io k cs c nickname a b none m = (threw, m)
  change_icon io k cs c nickname a b (some p) m =
      let (row, rows) = get_user_icons_by_id (user_of cs nickname) m.tables.icons in
      let m' = record m { tables = record m.tables { icons = rows } } in
      if not (same_int p.icon a)
      then (returned (to_client c (codes "ICON_CHANGE_FAIL|NOT_EQUIPPED\n")), m')
      else if is_lacking b row.values
      then (returned (to_client c (codes "ICON_CHANGE_FAIL|NOT_OWNED\n")), m')
      else change_profile io k cs c nickname (λ q. record q { icon = b }) p m'

  -- The two numbers of a request, and the user.
  abbrev pub with_numbers : Change E → Clients → Text → Option ℤ → Option ℤ → Action E (List Send)
  with_numbers f cs nickname (some a) (some b) m =
      let u = user_of cs nickname in
      if same_int a b || is_empty u
      then (returned [], m)
      else f cs nickname a b (get_user_profile_by_id u m.tables) m
  with_numbers f cs nickname _ _ m = (threw, m)

  abbrev third_field :
      Change E → Clients → Text → Text → Option (Text × Text) → Action E (List Send)
  third_field f cs nickname first none = pure []
  third_field f cs nickname first (some (second, _)) =
      with_numbers f cs nickname (stoi first) (stoi second)

  abbrev second_field : Change E → Clients → Text → Option (Text × Text) → Action E (List Send)
  second_field f cs nickname none = pure []
  second_field f cs nickname (some (first, rest)) =
      third_field f cs nickname first (getline 10 rest)

  abbrev first_field : Change E → Clients → Option (Text × Text) → Action E (List Send)
  first_field f cs none = pure []
  first_field f cs (some (nickname, rest)) = second_field f cs nickname (getline b',' rest)

  unfoldable pub emo_change : FloatText E → ℕ → Clients → Client → Text → Action E (List Send)
  emo_change io k cs c input =
      in_transaction
        (first_field (λ cs' nickname. change_emote io k cs' c nickname) cs (getline b',' input))

  unfoldable pub balloon_change : FloatText E → ℕ → Clients → Client → Text → Action E (List Send)
  balloon_change io k cs c input =
      in_transaction
        (first_field (λ cs' nickname. change_balloon io k cs' c nickname) cs (getline b',' input))

  unfoldable pub icon_change : FloatText E → ℕ → Clients → Client → Text → Action E (List Send)
  icon_change io k cs c input =
      in_transaction
        (first_field (λ cs' nickname. change_icon io k cs' c nickname) cs (getline b',' input))

  -- SendUserEmotes, SendUserBallons and SendUserIcons
  unfoldable pub send_user_emotes : Clients → Client → Text → Action E (List Send)
  send_user_emotes cs c nickname m =
      let u = user_of cs nickname in
      let (row, rows) = get_user_emotes_by_id u m.tables.emotes in
      if is_empty u then (returned [], m) else (
        returned (
            to_client c (
              codes "GETMYEMO|"
              ++ (nickname ++ (listed (same_int (pos 1)) 0 row.values ++ codes "\n")))),
        record m { tables = record m.tables { emotes = rows } },
      )

  unfoldable pub send_user_ballons : Clients → Client → Text → Action E (List Send)
  send_user_ballons cs c nickname m =
      let u = user_of cs nickname in
      let (row, rows) = get_user_ballons_by_id u m.tables.balloons in
      if is_empty u then (returned [], m) else (
        returned (
            to_client c (
              codes "GETMYBALLOON|"
              ++ (nickname ++ (listed (same_int (pos 1)) 0 row.values ++ codes "\n")))),
        record m { tables = record m.tables { balloons = rows } },
      )

  user_icons : Clients → Client → Text → Option (UserProfile E) → Action E (List Send)
  user_icons cs c nickname none m = (threw, m)
  user_icons cs c nickname (some p) m =
      let (row, rows) = get_user_icons_by_id (user_of cs nickname) m.tables.icons in
      (
        returned (
            to_client c (
              codes "GETMYICON|"
              ++ (nickname
                  ++ (listed (λ v. not (same_int (pos 0) v)) 0 row.values ++ codes "\n")))),
        record m { tables = record m.tables { icons = rows } },
      )

  unfoldable pub send_user_icons : Clients → Client → Text → Action E (List Send)
  unfolding user_icons
  send_user_icons cs c nickname m =
      let u = user_of cs nickname in
      if is_empty u
      then (returned [], m)
      else user_icons cs c nickname (get_user_profile_by_id u m.tables) m
