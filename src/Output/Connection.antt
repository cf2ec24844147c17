-- ===== src/Output/Connection.antt =====
-- OutputDispatcher (TeamOFYServer/SocketOutput.cpp): what happens to one connection, event by event.
-- An event that the state does not offer changes nothing.
use bn_bserver.Prelude.{
  ℕ, Bool, true, false, ◌&&◌, ◌||◌, List, [], ◌∷◌, ◌++◌, if◌then◌else◌, take, drop, length, leb,
}
use bn_bserver.Prelude.Text.{Text}
use bn_bserver.Output.{
  Output, Stats, Operation, Admission, Env, Verdict, queued, started, start_failed, shut_down,
  overflow, retry, next, finished, fresh, stop, admit, begin_locked, complete_locked, calm,
  add_size,
}

-- Where the operation of the connection stands: posted with key 1 and empty (a new one, or one that
-- Complete has cleared), behind the lock of Begin, on its way to the send call (behind Begin, or
-- posted with key 3), or in the kernel.
pub data Phase : Type 0 where
  idle : Phase
  to_begin : Phase
  begun : Operation → Phase
  to_submit : Operation → Phase
  sending : Operation → Phase

pub record Connection : Type 0 where
  pub output : Output
  pub phase : Phase
  pub wire : Text
  pub accepted : Text

-- A new SocketOutput.
abbrev pub no_stats : Stats
no_stats = record {
  peak_bytes = 0;
  peak_frames = 0;
  accepted_frames = 0;
  completed_frames = 0;
  send_calls = 0;
  batches = 0;
  sent_bytes = 0;
}

abbrev pub opened : Connection
opened = record {
  output = record {
    stopping = false;
    stop_reason = 0;
    queue = [];
    pending_bytes = 0;
    pending_frames = 0;
    active = false;
    stats = no_stats;
  };
  phase = idle;
  wire = [];
  accepted = [];
}

-- When Post fails: Stop(2), and Complete once more, which then has nothing left to post.
unfoldable pub abandon : Operation → Output → Output × Phase
abandon op o = ((complete_locked calm op 0 false (stop 2 o)).0, idle)

-- Complete behind its lock.
unfoldable pub dispatch : Bool → Output × Operation × Verdict → Output × Phase
dispatch posted (o, op, finished) = (o, idle)
dispatch posted (o, op, retry) = if posted then (o, to_submit op) else abandon op o
dispatch posted (o, op, next) = if posted then (o, to_begin) else abandon fresh o

unfoldable pub complete : Env → Operation → ℕ → Bool → Output → Output × Phase
complete env op n success o = dispatch env.posted (complete_locked env op n success o)

pub data Event : Type 0 where
  -- a frame that is not empty reaches the lock of Enqueue; the answer of Start
  enqueues : Text → Bool → Event
  stops : ℕ → Event
  begins : Event
  -- behind the lock of Begin: the test of the stop flag
  checks : Env → Event
  -- Submit up to the send call
  submits : Env → Event
  -- the send call or its completion: how many bytes, and whether it succeeded
  completes : Env → ℕ → Bool → Event

unfoldable pub admitted : Connection → Text → Output × Admission → Connection
admitted c frame (o, queued) = record c { output = o; accepted = c.accepted ++ frame }
admitted c frame (o, started) = record c {
  output = o;
  phase = to_begin;
  accepted = c.accepted ++ frame;
}
admitted c frame (o, start_failed) = record c { output = o; accepted = c.accepted ++ frame }
admitted c frame (o, shut_down) = c
admitted c frame (o, overflow) = c

abbrev with_phase : Connection → Output × Phase → Connection
with_phase c (o, p) = record c { output = o; phase = p }

-- What is still to be sent of a batch.
abbrev pub left : Operation → Text
left op = drop op.offset op.bytes

-- The bytes that a completion confirms: none if it failed, or if it reports more than was asked.
unfoldable pub confirmed : Operation → ℕ → Bool → Text
confirmed op n success = if success && leb n (length (left op)) then take n (left op) else []

unfoldable pub is_empty : Text → Bool
is_empty [] = true
is_empty (b ∷ s) = false

unfoldable pub on_begin : Phase → Connection → Connection
on_begin to_begin c =
    let (o, op') = begin_locked fresh c.output in record c { output = o; phase = begun op' }
on_begin p c = c

unfoldable pub on_check : Env → Phase → Connection → Connection
on_check env (begun op) c =
    if is_empty op.bytes || c.output.stopping
    then with_phase c (complete env op 0 false c.output)
    else record c { phase = to_submit op }
on_check env p c = c

unfoldable pub on_submit : Env → Phase → Connection → Connection
on_submit env (to_submit op) c =
    if c.output.stopping then with_phase c (complete env op 0 false c.output) else record c {
      output = record c.output {
        stats = record c.output.stats { send_calls = add_size c.output.stats.send_calls 1 };
      };
      phase = sending op;
    }
on_submit env p c = c

unfoldable pub on_complete : Env → ℕ → Bool → Phase → Connection → Connection
on_complete env n success (sending op) c =
    with_phase (record c { wire = c.wire ++ confirmed op n success })
      (complete env op n success c.output)
on_complete env n success p c = c

unfoldable pub step : Event → Connection → Connection
step (enqueues [] start) c = c
step (enqueues (b ∷ s) start) c = admitted c (b ∷ s) (admit start (b ∷ s) c.output)
step (stops reason) c = record c { output = stop reason c.output }
step begins c = on_begin c.phase c
step (checks env) c = on_check env c.phase c
step (submits env) c = on_submit env c.phase c
step (completes env n success) c = on_complete env n success c.phase c

unfoldable pub run : List Event → Connection → Connection
run [] c = c
run (e ∷ es) c = run es (step e c)
