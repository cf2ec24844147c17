-- ===== src/Output/Soundness.antt =====
-- The invariant of a connection, kept by every event.
use bn_bserver.Prelude.{
  ℕ, ◌<◌, ◌≡◌, refl, ap, sym, ◌∙◌, subst, Bool, true, false, ◌||◌, List, [], ◌∷◌, ◌++◌, arith,
  length, drop, append_assoc, append-nil, if◌then◌else◌, Bool-cases, inl, inr,
}
use bn_bserver.Prelude.Text.{Text}
use bn_bserver.Output.{
  Output, Operation, Env, Admission, queued, started, start_failed, shut_down, overflow, fresh,
  stop, admit, begin_locked, push, start_operation, has_room,
}
use bn_bserver.Output.Connection.{
  Connection, Phase, Event, idle, to_begin, begun, to_submit, sending, left, confirmed, opened,
  enqueues, stops, begins, checks, submits, completes, complete, admitted, on_begin, on_check,
  on_submit, on_complete, is_empty, step, run,
}
use bn_bserver.Output.Books.{
  Books, concat, stop-Books, begin_locked-Books, push_room-Books, begin_locked-Stream,
  begin_locked-nothing,
}
use bn_bserver.Output.Sound.{
  IsSound, SoundAt, Stream, complete-Dispatched, complete-SoundAt, concat-append, held, is_busy,
}

stop-SoundAt :
    (reason : ℕ) (o : Output) (p : Phase) (wire accepted : Text)
    → SoundAt o p wire accepted
    → SoundAt (stop reason o) p wire accepted
unfolding stop
stop-SoundAt reason o p wire accepted s = record {
  books = unfold stop in stop-Books reason o (held p) s.books;
  busy = s.busy;
  work = s.work;
  drained = λ _ h. absurd (ground arith);
  stream = (s.stream.0, s.stream.1, λ h. absurd (ground arith));
}

-- The frame is at the end of the stream.
push-Stream :
    (frame : Text) (o : Output) (op : Operation) (wire accepted : Text)
    → Stream o op wire accepted
    → Stream (push frame o) op wire (accepted ++ frame)
unfolding push
push-Stream frame o op wire accepted (rest, parts, runs) = (
  rest ++ frame,
  ap (◌++◌ wire) (sym (append_assoc (left op) rest frame))
      ∙ sym (append_assoc wire (left op ++ rest) frame)
      ∙ ap (λ t. t ++ frame) parts,
  λ h. rw (concat-append o.queue frame) (ap (λ t. t ++ frame) (runs h)),
)

held_idle : (p : Phase) → is_busy p ≡ false → held p ≡ fresh
held_idle idle h = refl
held_idle to_begin h = refl
held_idle (begun op) h = absurd (ground arith)
held_idle (to_submit op) h = absurd (ground arith)
held_idle (sending op) h = absurd (ground arith)

IsSound-if :
    (b : Bool) (x y : Connection)
    → (b ≡ true → IsSound x)
    → (b ≡ false → IsSound y)
    → IsSound (if b then x else y)
IsSound-if true x y h k = h refl
IsSound-if false x y h k = k refl

module _ (c : Connection) (frame : Text) (s : IsSound c) where
  admitted-if :
      (b : Bool) (x y : Output × Admission)
      → (b ≡ true → IsSound (admitted c frame x))
      → (b ≡ false → IsSound (admitted c frame y))
      → IsSound (admitted c frame (if b then x else y))
  admitted-if true x y h k = h refl
  admitted-if false x y h k = k refl

  active-push : (push frame c.output).active ≡ is_busy c.phase
  unfolding push
  active-push = s.busy

  module _ (b : Books (push frame c.output) (held c.phase)) where
    pushed : Stream (push frame c.output) (held c.phase) c.wire (c.accepted ++ frame)
    pushed = push-Stream frame c.output (held c.phase) c.wire c.accepted s.stream

    queued-IsSound :
        (push frame c.output).active ≡ true
        → IsSound (admitted c frame (push frame c.output, queued))
    unfolding admitted
    queued-IsSound busy = record {
      books = b;
      busy = active-push;
      work = s.work;
      drained = λ h. absurd (ground (arith, active-push));
      stream = pushed;
    }

    started-IsSound :
        (push frame c.output).active ≡ false
        → IsSound (admitted c frame (record (push frame c.output) { active = true }, started))
    unfolding admitted
    started-IsSound quiet =
        let e = held_idle c.phase (sym active-push ∙ quiet) in
        let b' = subst (Books (push frame c.output)) e b in
        record {
          books = record {
            bytes = b'.bytes;
            frames = b'.frames;
            few_bytes = b'.few_bytes;
            few_frames = b'.few_frames;
            fits = b'.fits;
          };
          busy = refl;
          work = tt;
          drained = λ h. absurd (ground arith);
          stream =
              subst (λ p. Stream (push frame c.output) p c.wire (c.accepted ++ frame)) e pushed;
        }

    start_failed-IsSound : IsSound (admitted c frame (stop 2 (push frame c.output), start_failed))
    unfolding admitted stop
    start_failed-IsSound = record {
      books = stop-Books 2 (push frame c.output) (held c.phase) b;
      busy = active-push;
      work = s.work;
      drained = λ _ h. absurd (ground arith);
      stream = (pushed.0, pushed.1, λ h. absurd (ground arith));
    }

  admitted-IsSound : (start : Bool) → IsSound (admitted c frame (admit start frame c.output))
  unfolding admit start_operation
  admitted-IsSound start =
      admitted-if c.output.stopping (c.output, shut_down) _ (λ _. unfold admitted in s)
        λ _.
          admitted-if (has_room frame c.output) _ (c.output, overflow)
            (λ room.
              let b = push_room-Books frame c.output (held c.phase) s.books room in
              admitted-if (push frame c.output).active (push frame c.output, queued) _
                (queued-IsSound b)
                λ quiet.
                  admitted-if start _ _ (λ _. started-IsSound b quiet)
                    (λ _. start_failed-IsSound b))
            (λ _. unfold admitted in s)

begin_locked-SoundAt :
    (o : Output) (wire accepted : Text)
    → SoundAt o to_begin wire accepted
    → let r = begin_locked fresh o in SoundAt r.0 (begun r.1) wire accepted
begin_locked-SoundAt o wire accepted s =
    let r = begin_locked fresh o in
    let (active, offset, same, batch) = begin_locked-Stream o in
    let (rest, parts, runs) = s.stream in
    let unsent : left r.1 ≡ r.1.bytes = ap (λ n. drop n r.1.bytes) offset in
    record {
      books = begin_locked-Books o s.books;
      busy = active ∙ s.busy;
      work = offset;
      drained = λ h. absurd (ground arith);
      stream = elim (Bool-cases o.stopping) [
        | inl stopped ↦ (
          rest,
          ap (λ t. wire ++ (t ++ rest)) (unsent ∙ begin_locked-nothing o stopped) ∙ parts,
          λ h. absurd (ground (arith, same)),
        )
        | inr running ↦ (
          concat r.0.queue,
          ap (λ t. wire ++ (t ++ concat r.0.queue)) unsent
              ∙ ap (◌++◌ wire) (batch ∙ sym (runs running))
              ∙ parts,
          λ _. refl,
        )
      ];
    }

on_begin-IsSound : (p : Phase) (c : Connection) → c.phase ≡ p → IsSound c → IsSound (on_begin p c)
unfolding on_begin
on_begin-IsSound to_begin c e s =
    begin_locked-SoundAt c.output c.wire c.accepted
      (subst (λ p. SoundAt c.output p c.wire c.accepted) e s)
on_begin-IsSound _ c e s = s

-- Complete with nothing confirmed.
give_up-SoundAt :
    (env : Env) (op : Operation) (o : Output) (p : Phase) (wire accepted : Text)
    → held p ≡ op
    → is_busy p ≡ true
    → SoundAt o p wire accepted
    → let r = complete env op 0 false o in SoundAt r.0 r.1 wire accepted
unfolding confirmed
give_up-SoundAt env op o p wire accepted h b s =
    let books = subst (Books o) h s.books in
    let stream = subst (λ q. Stream o q wire accepted) h s.stream in
    let r = complete env op 0 false o in
    subst (λ w. SoundAt r.0 r.1 w accepted) (append-nil wire)
      (complete-SoundAt o op wire accepted [] r
        (complete-Dispatched env op 0 false o books (s.busy ∙ b)) stream)

is_empty-length : (b : Text) → is_empty b ≡ false → 0 < length b
unfolding is_empty
is_empty-length [] h = absurd (ground arith)
is_empty-length (c ∷ s) h = omega arith

on_check-IsSound :
    (env : Env) (p : Phase) (c : Connection) → c.phase ≡ p → IsSound c → IsSound (on_check env p c)
unfolding on_check
on_check-IsSound env (begun op) c e s =
    let s' = subst (λ p. SoundAt c.output p c.wire c.accepted) e s in
    IsSound-if (is_empty op.bytes || c.output.stopping) _ _
      (λ _. give_up-SoundAt env op c.output (begun op) c.wire c.accepted refl refl s')
      λ h. record {
        books = s'.books;
        busy = s'.busy;
        work = let full = is_empty-length op.bytes (ground arith) in omega (arith, s'.work);
        drained = s'.drained;
        stream = s'.stream;
      }
on_check-IsSound env _ c e s = s

on_submit-IsSound :
    (env : Env) (p : Phase) (c : Connection) → c.phase ≡ p → IsSound c → IsSound (on_submit env p c)
unfolding on_submit
on_submit-IsSound env (to_submit op) c e s =
    let s' = subst (λ p. SoundAt c.output p c.wire c.accepted) e s in
    IsSound-if c.output.stopping _ _
      (λ _. give_up-SoundAt env op c.output (to_submit op) c.wire c.accepted refl refl s')
      λ h. record {
        books = record {
          bytes = s'.books.bytes;
          frames = s'.books.frames;
          few_bytes = s'.books.few_bytes;
          few_frames = s'.books.few_frames;
          fits = s'.books.fits;
        };
        busy = s'.busy;
        work = s'.work;
        drained = s'.drained;
        stream = s'.stream;
      }
on_submit-IsSound env _ c e s = s

on_complete-IsSound :
    (env : Env) (n : ℕ) (success : Bool) (p : Phase) (c : Connection)
    → c.phase ≡ p
    → IsSound c
    → IsSound (on_complete env n success p c)
unfolding on_complete
on_complete-IsSound env n success (sending op) c e s =
    let s' = subst (λ p. SoundAt c.output p c.wire c.accepted) e s in
    complete-SoundAt c.output op c.wire c.accepted (confirmed op n success)
      (complete env op n success c.output)
      (complete-Dispatched env op n success c.output s'.books s'.busy) s'.stream
on_complete-IsSound env n success _ c e s = s

step-IsSound : (e : Event) (c : Connection) → IsSound c → IsSound (step e c)
unfolding step
step-IsSound (enqueues [] start) c s = s
step-IsSound (enqueues (b ∷ f) start) c s = admitted-IsSound c (b ∷ f) s start
step-IsSound (stops reason) c s = stop-SoundAt reason c.output c.phase c.wire c.accepted s
step-IsSound begins c s = on_begin-IsSound c.phase c refl s
step-IsSound (checks env) c s = on_check-IsSound env c.phase c refl s
step-IsSound (submits env) c s = on_submit-IsSound env c.phase c refl s
step-IsSound (completes env n success) c s = on_complete-IsSound env n success c.phase c refl s

pub opened-IsSound : IsSound opened
opened-IsSound = record {
  books = omega arith;
  busy = refl;
  work = tt;
  drained = λ _ _. refl;
  stream = ([], refl, λ _. refl);
}

-- For every connection that satisfies the invariant and every sequence of events, whatever the
-- system calls answer and wherever another thread stops the connection, the invariant holds after
-- it: the pending counts are what the queue and the operation hold, within 256 KiB and 4096 frames;
-- the connection is active exactly while it has an operation; a connection that is not stopped and
-- not active has an empty queue; and the accepted bytes are those on the wire, then those of the
-- operation that are not sent, then others, which are the queue if the connection is not stopped.
pub run-IsSound : (es : List Event) (c : Connection) → IsSound c → IsSound (run es c)
unfolding run
run-IsSound [] c s = s
run-IsSound (e ∷ es) c s = run-IsSound es (step e c) (step-IsSound e c s)
