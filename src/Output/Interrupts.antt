-- ===== src/Output/Interrupts.antt =====
-- Complete (TeamOFYServer/SocketOutput.cpp): what it does to the accounts and the bytes.
use bn_bserver.Prelude.{
  ℕ, ◌<◌, ◌≡◌, refl, ◌∙◌, subst, Bool, false, Option, none, some, List, [], ◌∷◌, ◌++◌, arith,
  length,
}
use bn_bserver.Prelude.Text.{Text}
use bn_bserver.Output.{
  Output, Operation, Env, Verdict, retry, next, finished, fresh, stop, settle, flush_stopped,
  next_batch, choose_next, close_batch, close, interrupt,
}
use bn_bserver.Output.Connection.{left}
use bn_bserver.Output.Books.{Books, close_batch-Books}

-- What the connection still holds of the operation.
abbrev pub remaining : Operation × Verdict → Operation
remaining (op, retry) = op
remaining (op, next) = fresh
remaining (op, finished) = fresh

-- What a verdict says: `a` is the flag `active` before.
abbrev pub Ends : Bool → Output → Operation → Verdict → Type 0
Ends a o op finished = (o.active ≡ false) × (o.stopping ≡ false → o.queue ≡ [])
Ends a o op next = (o.active ≡ a) × (o.stopping ≡ false)
Ends a o op retry = (o.active ≡ a) × (op.offset < length op.bytes)

-- The flag that is not set now was not set before, and nothing but a stop empties the queue.
abbrev pub Follows : Output → Output → Type 0
Follows o o' = o'.stopping ≡ false → (o.stopping ≡ false) × (o'.queue ≡ o.queue)

pub stop-runs : (reason : ℕ) (o : Output) → ¬ ((stop reason o).stopping ≡ false)
unfolding stop
stop-runs reason o h = ground arith

stop-Follows : (reason : ℕ) (o : Output) → Follows o (stop reason o)
stop-Follows reason o h = absurd (stop-runs reason o h)

pub interrupt-Follows : (i : Option ℕ) (o : Output) → Follows o (interrupt i o)
unfolding interrupt
interrupt-Follows none o h = (h, refl)
interrupt-Follows (some reason) o h = stop-Follows reason o h

pub active-interrupt : (i : Option ℕ) (o : Output) → (interrupt i o).active ≡ o.active
unfolding interrupt stop
active-interrupt none o = refl
active-interrupt (some reason) o = refl

flush_stopped-Follows : (o : Output) → Follows o (flush_stopped o)
unfolding flush_stopped
flush_stopped-Follows o h = ground arith

active-flush_stopped : (o : Output) → (flush_stopped o).active ≡ o.active
unfolding flush_stopped
active-flush_stopped o = ground arith

next_batch_lem :
    (o : Output) (op : Operation) (q : List Text)
    → o.queue ≡ q
    → let r = next_batch o q in
      Ends o.active r.0 op r.1 × Follows o r.0 × (remaining (op, r.1) ≡ fresh)
unfolding next_batch
next_batch_lem o op [] e = ((refl, λ h. e), λ h. (h, refl), refl)
next_batch_lem o op (f ∷ q) e = ground arith

-- What Complete does to the accounts and the bytes; `out` are the bytes that it confirms.
pub record Completed (o : Output) (op : Operation) (out : Text) (r : Output × Operation × Verdict)
    : Type 0 where
  pub books : Books r.0 (remaining (r.1, r.2))
  pub ends : Ends o.active r.0 r.1 r.2
  pub before : r.0.stopping ≡ false → o.stopping ≡ false
  pub bytes :
      (rest : Text) × (out ++ (left (remaining (r.1, r.2)) ++ rest) ≡ left op)
      × (r.0.stopping ≡ false → (rest ≡ []) × (r.0.queue ≡ o.queue))

module _ (env : Env) (op : Operation) (o : Output) where
  pub close_lem :
      let r = close env op o in
      Ends o.active r.0 r.1 r.2 × Follows o r.0 × (remaining (r.1, r.2) ≡ fresh) × (r.1 ≡ op)
  unfolding close close_batch choose_next settle
  close_lem =
      let o1 : Output = settle op o in
      let o2 : Output = interrupt env.second o1 in
      let o3 : Output = flush_stopped o2 in
      let o4 : Output = interrupt env.third o3 in
      let (ends, follows, empty) = next_batch_lem o4 op o4.queue refl in
      let same : o4.active ≡ o.active =
        active-interrupt env.third o3 ∙ active-flush_stopped o2 ∙ active-interrupt env.second o1 in
      (
        subst (λ a. Ends a (choose_next o4).0 op (choose_next o4).1) same ends,
        λ h.
            let (h4, q4) = follows h in
            let (h3, q3) = interrupt-Follows env.third o3 h4 in
            let (h2, q2) = flush_stopped-Follows o2 h3 in
            let (h1, q1) = interrupt-Follows env.second o1 h2 in (h1, q4 ∙ q3 ∙ q2 ∙ q1),
        empty,
        refl,
      )

  close-Books :
      Books o op → Books (close env op o).0 (remaining ((close env op o).1, (close env op o).2))
  unfolding close
  close-Books b = rw (close_lem.2) (close_batch-Books env op o b)

pub closed-Completed :
    (env : Env) (o o' : Output) (op op' : Operation) (out rest : Text)
    → Books o' op'
    → o'.active ≡ o.active
    → out ++ rest ≡ left op
    → (o'.stopping ≡ false → (o.stopping ≡ false) × (rest ≡ []) × (o'.queue ≡ o.queue))
    → Completed o op out (close env op' o')
closed-Completed env o o' op op' out rest b same parts runs =
    let (ends, follows, empty, _) = close_lem env op' o' in
    let r = close env op' o' in
    record {
      books = close-Books env op' o' b;
      ends = subst (λ a. Ends a r.0 r.1 r.2) same ends;
      before = λ h. (runs (follows h).0).0;
      bytes = (
        rest,
        rw empty parts,
        λ h. let (h', q) = follows h in let (_, no_rest, q') = runs h' in (no_rest, q ∙ q'),
      );
    }
