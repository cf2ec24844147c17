-- ===== src/Sessions/Tests.antt =====
-- Ann logs in, and a second connection is told so.
use bn_bserver.Prelude.{ℕ, ◌≡◌, refl, [], ◌∷◌}
use bn_bserver.Prelude.Text.{
  codes, ◌==◌, has_byte, before_byte, after_byte, getline, line_or_empty, trim,
}
use bn_bserver.Prelude.Assoc.{lookup, insert}
use bn_bserver.Users.Save.{find_row}
use bn_bserver.Users.Query.{check_login}
use bn_bserver.Users.Sample.{ann, bob}
use bn_bserver.Sessions.{
  Sessions, assign, starts_with, is_in, open_session, login, already, logs_in, connects, Run, stays,
  goes, accept,
}
use bn_bserver.Sessions.Pairing.{start, Run-one_session}

abbrev fourth : ℕ
fourth = 4

abbrev joined : Sessions
joined = accept 4 (start [])

abbrev after_login : Sessions
after_login = (login (ann ∷ bob ∷ []) 4 (codes "ann,pw1") joined).0

abbrev logged_in : Run (start []) after_login
unfolding accept
logged_in =
    goes (start []) joined after_login
      (goes (start []) (start []) joined (stays (start [])) (connects (start []) 4))
      (logs_in (ann ∷ bob ∷ []) joined 4 (codes "ann,pw1") refl)

ann_named : (after_login.objects 4).id ≡ codes "ann"
unfolding accept login open_session is_in lookup insert assign starts_with check_login find_row
    has_byte before_byte after_byte getline trim ◌==◌ line_or_empty
ann_named = refl

second_login : (login (ann ∷ bob ∷ []) 5 (codes "ann,pw1") after_login).1 ≡ already
unfolding accept login open_session is_in lookup insert assign starts_with check_login find_row
    has_byte before_byte after_byte getline trim ◌==◌ line_or_empty
second_login = refl

Run-one_session_example : fourth ≡ fourth
Run-one_session_example =
    Run-one_session [] after_login fourth fourth logged_in (rw ann_named refl) refl
