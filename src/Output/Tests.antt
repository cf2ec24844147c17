-- ===== src/Output/Tests.antt =====
-- A connection at work: two frames, a short send, and a stop between two reads of the flag.
use bn_bserver.Prelude.{true, none, some, List, [], ◌∷◌}
use bn_bserver.Prelude.Text.{codes}
use bn_bserver.Output.{calm, Env}
use bn_bserver.Output.Connection.{Event, enqueues, begins, checks, submits, completes, opened, run}
use bn_bserver.Output.Soundness.{opened-IsSound, run-IsSound}
use bn_bserver.Output.Sound.{IsSound}

abbrev short_sends : List Event
short_sends =
    enqueues (codes "HELLO\n") true
    ∷ enqueues (codes "YOU\n") true
    ∷ begins
    ∷ checks calm
    ∷ submits calm
    ∷ completes calm 4 true
    ∷ submits calm
    ∷ completes calm 6 true
    ∷ []

abbrev stopped_late : Env
stopped_late = record { posted = true; first = none; second = none; third = some 1 }

run-IsSound_example : IsSound (run short_sends opened)
run-IsSound_example = run-IsSound short_sends opened opened-IsSound
