-- ===== src/Reader.antt =====
-- The loop of HandleClient (TeamOFYServer/ClientHandler.cpp): it cuts what the socket yields into
-- lines and hands each to ProcessMessages. The proofs are in the modules below.
--
-- `process` is ProcessMessages with the handlers of its exceptions, on a state of any type, and
-- `closing` is IsClosing. Another thread that closes the connection is not modelled. What follows
-- the loop (leaving the room, logging out) is not modelled.
pub mod Chunks
pub mod Tests
use bn_bserver.Prelude.{
  ℕ, zero, suc, Bool, true, false, ◌||◌, List, [], ◌∷◌, ◌++◌, if◌then◌else◌, length, ltb,
}
use bn_bserver.Prelude.Text.{Text, has_byte, before_byte, after_byte}

-- `maxLineBytes`
abbrev pub max_line_bytes : ℕ
max_line_bytes = 4096

-- In the loop with its pending bytes, or behind it.
pub data Reader {ℓ} (S : Type ℓ) : Type ℓ where
  reading : Text → S → Reader S
  ended : S → Reader S

module _ {ℓ} {S : Type ℓ} where
  -- The test at the end of a round of the outer loop.
  unfoldable pub next_round : Text × S × Bool → Reader S
  next_round (pending, s, invalid) =
      if invalid || ltb max_line_bytes (length pending) then ended s else reading pending s

  module _ (process : Text → S → S) (closing : S → Bool) where
    -- What the inner loop leaves: the pending bytes, the state, and `invalidFrame`. Each round takes a
    -- byte at least; the fuel is never used up.
    unfoldable pub take_lines : ℕ → Text → S → Text × S × Bool
    take_lines zero pending s = (pending, s, true)
    take_lines (suc f) pending s =
        let s' = process (before_byte 10 pending ++ 10 ∷ []) s in
        let rest = take_lines f (after_byte 10 pending) s' in
        if has_byte 10 pending
        then (if ltb max_line_bytes (length (before_byte 10 pending))
            then (pending, s, true)
            else if closing s'
            then (pending, s', true)
            else rest)
        else (pending, s, false)

    -- A round of the outer loop in which recv gives these bytes.
    unfoldable pub receive : Text → Reader S → Reader S
    receive chunk (ended s) = ended s
    receive chunk (reading pending s) =
        if closing s
        then ended s
        else next_round (take_lines (suc (length (pending ++ chunk))) (pending ++ chunk) s)

    unfoldable pub receive_all : List Text → Reader S → Reader S
    receive_all [] r = r
    receive_all (chunk ∷ chunks) r = receive_all chunks (receive chunk r)
