-- ===== src/Output.antt =====
-- SocketOutput (TeamOFYServer/SocketOutput.h and .cpp): the bounded output queue of one connection
-- and the operation that the completion port works on. The proofs are in the modules below.
--
-- `Connection` adds to the object what is outside it: where its one operation stands, the bytes that
-- the kernel has confirmed (`wire`), and all bytes that were queued (`accepted`). Each event is one
-- stretch of code that runs under the mutex, or that reads no shared state but the stop flag. `Stop`
-- takes no lock, so it can come between any two reads of the flag: `Env` says where. size_t wraps.
pub mod Connection
pub mod Books
pub mod Interrupts
pub mod Completion
pub mod Sound
pub mod Soundness
pub mod Tests
use bn_bserver.Prelude.{
  ℕ, zero, suc, ◌+◌, ◌-◌, ◌%◌, ◌^◌, Bool, true, false, not, ◌&&◌, ◌||◌, Option, none, some, List,
  [], ◌∷◌, ◌++◌, eqb, leb, ltb, if◌then◌else◌, length, take, max,
}
use bn_bserver.Prelude.Text.{Text}
use bn_bserver.Prelude.Int.{ℤ, pos, negsuc}

-- 256 * 1024, 4096 and 16 * 1024
abbrev pub max_pending_bytes : ℕ
max_pending_bytes = 262144

abbrev pub max_pending_frames : ℕ
max_pending_frames = 4096

abbrev pub batch_bytes : ℕ
batch_bytes = 16384

-- size_t
abbrev pub add_size : ℕ → ℕ → ℕ
add_size a b = (a + b) % 2 ^ 64

abbrev pub sub_size : ℕ → ℕ → ℕ
sub_size a b = (a + 2 ^ 64 - b) % 2 ^ 64

pub record Stats : Type 0 where
  pub peak_bytes : ℕ
  pub peak_frames : ℕ
  pub accepted_frames : ℕ
  pub completed_frames : ℕ
  pub send_calls : ℕ
  pub batches : ℕ
  pub sent_bytes : ℕ

-- stop_reason 1: owner or peer, 2: send failure, 3: queue limit, 0: none yet
pub record Output : Type 0 where
  pub stopping : Bool
  pub stop_reason : ℕ
  pub queue : List Text
  pub pending_bytes : ℕ
  pub pending_frames : ℕ
  pub active : Bool
  pub stats : Stats

-- OutputOperation
pub record Operation : Type 0 where
  pub bytes : Text
  pub offset : ℕ
  pub frames : ℕ

abbrev pub fresh : Operation
fresh = record { bytes = []; offset = 0; frames = 0 }

pub stop : ℕ → Output → Output
stop reason o = record o {
  stopping = true;
  stop_reason = if eqb o.stop_reason 0 then reason else o.stop_reason;
}

pub data Admission : Type 0 where
  queued started start_failed shut_down overflow : Admission

abbrev is_empty : Text → Bool
is_empty [] = true
is_empty (c ∷ s) = false

pub push : Text → Output → Output
push frame o = record o {
  queue = o.queue ++ frame ∷ [];
  pending_bytes = add_size o.pending_bytes (length frame);
  pending_frames = add_size o.pending_frames 1;
  stats = record o.stats {
    accepted_frames = add_size o.stats.accepted_frames 1;
    peak_bytes = max o.stats.peak_bytes (add_size o.pending_bytes (length frame));
    peak_frames = max o.stats.peak_frames (add_size o.pending_frames 1);
  };
}

-- The operation of a connection that has none.
pub start_operation : Bool → Output → Output × Admission
start_operation can_start o =
    if o.active
    then (o, queued)
    else if can_start
    then (record o { active = true }, started)
    else (stop 2 o, start_failed)

pub has_room : Text → Output → Bool
has_room frame o =
    leb (length frame) (sub_size max_pending_bytes o.pending_bytes)
    && ltb o.pending_frames max_pending_frames

-- The part of Enqueue under the lock; `can_start` is the answer of OutputDispatcher::Start.
pub admit : Bool → Text → Output → Output × Admission
admit can_start frame o =
    if o.stopping
    then (o, shut_down)
    else if has_room frame o
    then start_operation can_start (push frame o)
    else (o, overflow)

pub data SocketError : Type 0 where
  invalid shutdown no_buffers not_started : SocketError

pub data Sent : Type 0 where
  sent : ℕ → Sent
  failed : SocketError → Sent

pub answer : ℕ → Output × Admission → Output × Sent
answer n (o, queued) = (o, sent n)
answer n (o, started) = (o, sent n)
answer n (o, start_failed) = (o, failed not_started)
answer n (o, shut_down) = (o, failed shutdown)
answer n (o, overflow) = (stop 3 o, failed no_buffers)

-- Enqueue(bytes, length); `none` is the null pointer.
pub enqueue : Bool → Option Text → ℤ → Output → Output × Sent
enqueue can_start p (negsuc n) o = (o, failed invalid)
enqueue can_start none (pos n) o = if eqb n 0 then (o, sent 0) else (o, failed invalid)
enqueue can_start (some bytes) (pos n) o =
    if eqb n 0 then (o, sent 0) else answer n (admit can_start (take n bytes) o)

-- The loop of Begin behind its first round.
pub fill : Text → ℕ → List Text → Text × ℕ × List Text
fill b n [] = (b, n, [])
fill b n (f ∷ q) =
    let rest = fill (b ++ f) (suc n) q in
    if leb (length b + length f) batch_bytes then rest else (b, n, f ∷ q)

pub take_batch : Operation → List Text → Output → Output × Operation
take_batch op [] o = (o, op)
take_batch op (f ∷ q) o =
    let (b, n, rest) = fill (op.bytes ++ f) (suc op.frames) q in
    (
      record o { queue = rest; stats = record o.stats { batches = add_size o.stats.batches 1 } },
      record op { bytes = b; frames = n },
    )

-- The part of Begin under the lock.
pub begin_locked : Operation → Output → Output × Operation
begin_locked op o = if o.stopping then (o, op) else take_batch op o.queue o

-- What another thread's Stop does before a read of the flag.
pub interrupt : Option ℕ → Output → Output
interrupt none o = o
interrupt (some reason) o = stop reason o

-- `posted` is the answer of OutputDispatcher::Post.
pub record Env : Type 0 where
  pub posted : Bool
  pub first : Option ℕ
  pub second : Option ℕ
  pub third : Option ℕ

abbrev pub calm : Env
calm = record { posted = true; first = none; second = none; third = none }

pub data Verdict : Type 0 where
  retry next finished : Verdict

-- Complete, `if (!retry)`: the batch leaves the accounts,
pub settle : Operation → Output → Output
settle op o =
    let whole = eqb op.offset (length op.bytes) && not (eqb op.frames 0) in
    record o {
      pending_bytes = sub_size o.pending_bytes (length op.bytes);
      pending_frames = sub_size o.pending_frames op.frames;
      stats = record o.stats {
        completed_frames =
            if whole then add_size o.stats.completed_frames op.frames else o.stats.completed_frames;
      };
    }

-- a stopped queue is emptied,
pub flush_stopped : Output → Output
flush_stopped o =
    if o.stopping then record o { queue = []; pending_bytes = 0; pending_frames = 0 } else o

-- and the next batch is due, or none.
pub next_batch : Output → List Text → Output × Verdict
next_batch o [] = (record o { active = false }, finished)
next_batch o (f ∷ q) = if o.stopping then (record o { active = false }, finished) else (o, next)

pub choose_next : Output → Output × Verdict
choose_next o = next_batch o o.queue

pub close_batch : Env → Operation → Output → Output × Verdict
close_batch env op o =
    choose_next (interrupt env.third (flush_stopped (interrupt env.second (settle op o))))

pub close : Env → Operation → Output → Output × Operation × Verdict
close env op o = let (o', v) = close_batch env op o in (o', op, v)

pub count_sent : ℕ → Output → Output
count_sent n o = record o { stats = record o.stats { sent_bytes = add_size o.stats.sent_bytes n } }

pub advance : ℕ → Operation → Operation
advance n op = record op { offset = add_size op.offset n }

-- Complete behind a completion that counts, and behind one that does not.
pub after_success : Env → Operation → Output → Output × Operation × Verdict
after_success env op o =
    if not o.stopping && ltb op.offset (length op.bytes) then (o, op, retry) else close env op o

pub after_failure : Env → Operation → Output → Output × Operation × Verdict
after_failure env op o = close env op (if o.stopping then o else stop 2 o)

pub counts : Operation → ℕ → Bool → Bool
counts op n success = success && (not (eqb n 0) && leb n (sub_size (length op.bytes) op.offset))

-- Complete up to the end of its lock: the new state, the operation and what to do next.
pub complete_locked : Env → Operation → ℕ → Bool → Output → Output × Operation × Verdict
complete_locked env op n success o =
    if counts op n success
    then after_success env (advance n op) (interrupt env.first (count_sent n o))
    else after_failure env op (interrupt env.first o)
