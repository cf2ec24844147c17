-- ===== src/Output/Sound.antt =====
-- What holds of a connection, and the state behind a Complete (TeamOFYServer/SocketOutput.cpp).
use bn_bserver.Prelude.{
  ℕ, ◌<◌, ◌≡◌, ap, sym, ◌∙◌, Bool, true, false, List, [], ◌∷◌, ◌++◌, arith, length, append_assoc,
  append-nil, Bool-cases, inl, inr,
}
use bn_bserver.Prelude.Text.{Text}
use bn_bserver.Output.{
  Output, Operation, Env, Verdict, retry, next, finished, fresh, complete_locked,
}
use bn_bserver.Output.Connection.{
  Connection, Phase, idle, to_begin, begun, to_submit, sending, left, confirmed, abandon, dispatch,
  complete,
}
use bn_bserver.Output.Books.{Books, concat}
use bn_bserver.Output.Completion.{complete_locked-Completed, complete_locked-stopped}
use bn_bserver.Output.Interrupts.{Completed}

-- The operation that the phase holds.
abbrev pub held : Phase → Operation
held idle = fresh
held to_begin = fresh
held (begun op) = op
held (to_submit op) = op
held (sending op) = op

abbrev pub is_busy : Phase → Bool
is_busy idle = false
is_busy to_begin = true
is_busy (begun op) = true
is_busy (to_submit op) = true
is_busy (sending op) = true

-- An operation behind the lock of Begin has sent nothing; one on its way has something to send.
abbrev pub HasWork : Phase → Type 0
HasWork idle = Unit
HasWork to_begin = Unit
HasWork (begun op) = op.offset ≡ 0
HasWork (to_submit op) = op.offset < length op.bytes
HasWork (sending op) = op.offset < length op.bytes

-- The bytes that were queued are those on the wire, those of the operation that are not sent, and
-- `rest`, which is the queue as long as the connection runs.
abbrev pub Stream : Output → Operation → Text → Text → Type 0
Stream o op wire accepted =
    (rest : Text) × (wire ++ (left op ++ rest) ≡ accepted)
    × (o.stopping ≡ false → rest ≡ concat o.queue)

pub record SoundAt (o : Output) (p : Phase) (wire accepted : Text) : Type 0 where
  pub books : Books o (held p)
  pub busy : o.active ≡ is_busy p
  pub work : HasWork p
  pub drained : is_busy p ≡ false → o.stopping ≡ false → o.queue ≡ []
  pub stream : Stream o (held p) wire accepted

abbrev pub IsSound : Connection → Type 0
IsSound c = SoundAt c.output c.phase c.wire c.accepted

pub concat-append : (q : List Text) (f : Text) → concat (q ++ f ∷ []) ≡ concat q ++ f
concat-append [] f = append-nil f
concat-append (g ∷ q) f = rw (concat-append q f) (sym (append_assoc g (concat q) f))

-- The state behind a Complete.
pub record Dispatched (o : Output) (op : Operation) (out : Text) (r : Output × Phase) : Type 0 where
  pub books : Books r.0 (held r.1)
  pub busy : r.0.active ≡ is_busy r.1
  pub work : HasWork r.1
  pub drained : is_busy r.1 ≡ false → r.0.stopping ≡ false → r.0.queue ≡ []
  pub bytes :
      (rest : Text) × (out ++ (left (held r.1) ++ rest) ≡ left op)
      × (r.0.stopping ≡ false → (rest ≡ []) × (o.stopping ≡ false) × (r.0.queue ≡ o.queue))

-- Complete after a stop, which ends the operation whatever it held.
abandon-Dispatched :
    (o0 o : Output) (op0 op : Operation) (out rest : Text)
    → Books o op
    → out ++ (left op ++ rest) ≡ left op0
    → Dispatched o0 op0 out (abandon op o)
unfolding abandon
abandon-Dispatched o0 o op0 op out rest b parts =
    let (_, books, quiet, stays) = complete_locked-stopped op o b in
    record {
      books = books;
      busy = quiet;
      work = tt;
      drained = λ _ h. absurd (stays h);
      bytes = (left op ++ rest, parts, λ h. absurd (stays h));
    }

module _ (env : Env) (op : Operation) (out : Text) (o : Output) (busy : o.active ≡ true) where
  dispatch-Dispatched :
      (r : Output × Operation × Verdict)
      → Completed o op out r
      → Dispatched o op out (dispatch env.posted r)
  unfolding dispatch
  dispatch-Dispatched (o', op', finished) c = record {
    books = c.books;
    busy = c.ends.0;
    work = tt;
    drained = λ _. c.ends.1;
    bytes =
        let (rest, parts, runs) = c.bytes in
        (rest, parts, λ h. let (no_rest, q) = runs h in (no_rest, c.before h, q));
  }
  dispatch-Dispatched (o', op', next) c =
      let (rest, parts, runs) = c.bytes in
      elim (Bool-cases env.posted) [
        | inl posted ↦ rw posted (record {
          books = c.books;
          busy = c.ends.0 ∙ busy;
          work = tt;
          drained = λ h. absurd (ground arith);
          bytes = (rest, parts, λ h. let (no_rest, q) = runs h in (no_rest, c.before h, q));
        })
        | inr lost ↦ rw lost (abandon-Dispatched o o' op fresh out rest c.books parts)
      ]
  dispatch-Dispatched (o', op', retry) c =
      let (rest, parts, runs) = c.bytes in
      elim (Bool-cases env.posted) [
        | inl posted ↦ rw posted (record {
          books = c.books;
          busy = c.ends.0 ∙ busy;
          work = c.ends.1;
          drained = λ h. absurd (ground arith);
          bytes = (rest, parts, λ h. let (no_rest, q) = runs h in (no_rest, c.before h, q));
        })
        | inr lost ↦ rw lost (abandon-Dispatched o o' op op' out rest c.books parts)
      ]

pub complete-Dispatched :
    (env : Env) (op : Operation) (n : ℕ) (success : Bool) (o : Output)
    → Books o op
    → o.active ≡ true
    → Dispatched o op (confirmed op n success) (complete env op n success o)
unfolding complete
complete-Dispatched env op n success o b busy =
    dispatch-Dispatched env op (confirmed op n success) o busy (complete_locked env op n success o)
      (complete_locked-Completed env op n success o b)

-- A connection behind a Complete is sound, if it was before.
pub complete-SoundAt :
    (o : Output) (op : Operation) (wire accepted out : Text) (r : Output × Phase)
    → Dispatched o op out r
    → Stream o op wire accepted
    → SoundAt r.0 r.1 (wire ++ out) accepted
complete-SoundAt o op wire accepted out r d (rest, parts, runs) =
    let (more, cut, calm_runs) = d.bytes in
    let whole : out ++ (left (held r.1) ++ (more ++ rest)) ≡ left op ++ rest =
      ap (◌++◌ out) (sym (append_assoc (left (held r.1)) more rest))
      ∙ sym (append_assoc out (left (held r.1) ++ more) rest)
      ∙ ap (λ t. t ++ rest) cut in
    record {
      books = d.books;
      busy = d.busy;
      work = d.work;
      drained = d.drained;
      stream = (
        more ++ rest,
        append_assoc wire out (left (held r.1) ++ (more ++ rest)) ∙ ap (◌++◌ wire) whole ∙ parts,
        λ h. let (none_left, before, q) = calm_runs h in rw (none_left, q) (runs before),
      );
    }
