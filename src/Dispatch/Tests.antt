-- ===== src/Dispatch/Tests.antt =====
-- Tests of the dispatch, and its theorem at a concrete input.
use bn_bserver.Prelude.{◌≡◌, refl, false, none, some, List, [], ◌∷◌, ◌++◌}
use bn_bserver.Prelude.Text.{Text, codes, has_byte, before_byte, after_byte, ◌==◌}
use bn_bserver.Dispatch.{
  Ending, passed, bad_argument, Command, get_balloon, get_balloon_info, dead, quit, first_test,
  command_of, holds_for, process_messages, process, handle,
}
use bn_bserver.Dispatch.Heads.{process-line}

-- A handler that notes what it gets, and refuses a message without a nickname.
abbrev noting : Command → Text → List (Command × Text) → List (Command × Text) × Ending
noting command [] s = (s, bad_argument)
noting command (c ∷ rest) s = ((command, c ∷ rest) ∷ s, passed)

longer_head : command_of (codes "GET_BALLOON_INFO|Ann") ≡ some (get_balloon_info, codes "Ann")
unfolding command_of first_test holds_for ◌==◌
longer_head = refl

shorter_head : command_of (codes "GET_BALLOON|Ann") ≡ some (get_balloon, codes "Ann")
unfolding command_of first_test holds_for ◌==◌
shorter_head = refl

more_than_quit : command_of (codes "QUIT|now") ≡ none
unfolding command_of first_test holds_for ◌==◌
more_than_quit = refl

-- An exception ends the connection.
refused_line : process noting (λ s. []) (λ s. s) (codes "DEAD|\n") ((quit, codes "x") ∷ []) ≡ []
unfolding process process_messages handle command_of first_test holds_for before_byte after_byte
    has_byte ◌==◌
refused_line = refl

process-line_example :
    process noting (λ s. []) (λ s. s) (codes "DEAD|Ann" ++ 10 ∷ []) [] ≡ (dead, codes "Ann") ∷ []
unfolding process holds_for has_byte
process-line_example =
    process-line noting (λ s. []) (λ s. s) 49
      (record { head = codes "DEAD|"; whole = false; command = dead }) (codes "DEAD|Ann") [] refl
      refl refl refl
