-- ===== src/Reader/Tests.antt =====
-- Two lines that arrive in three chunks and in one.
use bn_bserver.Prelude.{◌≡◌, refl, Bool, false, List, [], ◌∷◌, ◌++◌}
use bn_bserver.Prelude.Text.{Text, codes, has_byte, before_byte, after_byte}
use bn_bserver.Reader.{reading, receive_all, receive, take_lines, next_round}
use bn_bserver.Reader.Chunks.{receive_all-cut}

-- A handler that notes the lines and never closes.
abbrev note : Text → List Text → List Text
note line lines = lines ++ line ∷ []

abbrev never : List Text → Bool
never lines = false

abbrev pieces : List Text
pieces = codes "LO" ∷ codes "GIN|a\nRO" ∷ codes "OM\nEX" ∷ []

abbrev whole : List Text
whole = codes "LOGIN|a\nROOM\nEX" ∷ []

receive_all-cut_example :
    receive_all note never pieces (reading [] []) ≡ receive_all note never whole (reading [] [])
receive_all-cut_example =
    receive_all-cut note never (codes "LO") (codes "LOGIN|a\nROOM\nEX")
      (codes "GIN|a\nRO" ∷ codes "OM\nEX" ∷ []) [] (reading [] []) refl

two_lines :
    receive_all note never pieces (reading [] [])
    ≡ reading (codes "EX") (codes "LOGIN|a\n" ∷ codes "ROOM\n" ∷ [])
unfolding receive_all receive take_lines next_round has_byte before_byte after_byte
two_lines = refl
