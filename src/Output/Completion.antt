-- ===== src/Output/Completion.antt =====
-- Complete: the accounts, the verdict, and what becomes of the bytes.
use bn_bserver.Prelude.{
  ℕ, ◌+◌, ◌%◌, ◌^◌, ◌≤◌, ◌<◌, ◌≡◌, refl, append-nil, sym, ◌∙◌, subst, Bool, true, false, [], ◌++◌,
  arith, length, take, drop, length-drop, drop-drop, drop_past, take-append-drop, if◌then◌else◌,
  ltb, not, ◌&&◌, Bool-cases, inl, inr,
}
use bn_bserver.Prelude.Text.{Text}
use bn_bserver.Output.{
  calm, Output, Operation, Env, Verdict, retry, next, finished, fresh, stop, count_sent, advance,
  after_success, after_failure, counts, complete_locked, interrupt, max_pending_bytes, sub_size,
}
use bn_bserver.Output.Connection.{left, confirmed}
use bn_bserver.Output.Books.{Books, stop-Books, interrupt-Books}
use bn_bserver.Output.Interrupts.{
  Completed, Ends, Follows, active-interrupt, close_lem, closed-Completed, interrupt-Follows,
  remaining, stop-runs,
}

halt : Output → Output
halt o = if o.stopping then o else stop 2 o

halt-Books : (o : Output) (op : Operation) → Books o op → Books (halt o) op
unfolding halt
halt-Books o op b = ground (arith, stop-Books 2 o op b)

halt_lem : (o : Output) → ((halt o).active ≡ o.active) × ((halt o).stopping ≡ true)
unfolding halt stop
halt_lem o = (ground arith, ground arith)

-- A completion that does not count stops the connection.
after_failure-Completed :
    (env : Env) (op : Operation) (o : Output)
    → Books o op
    → Completed o op [] (after_failure env op o)
unfolding after_failure halt
after_failure-Completed env op o b =
    let (same, stopped) = halt_lem o in
    closed-Completed env o (halt o) op op [] (left op) (halt-Books o op b) same refl
      (λ h. absurd (ground (arith, stopped)))

advance-left :
    (n : ℕ) (op : Operation) (o : Output)
    → n ≤ length (left op)
    → Books o op
    → (left (advance n op) ≡ drop n (left op)) × ((advance n op).offset ≡ op.offset + n)
unfolding advance
advance-left n op o few b =
    let small : op.offset + n ≤ max_pending_bytes =
      omega (arith, b, length-drop op.offset op.bytes) in
    let sum : (op.offset + n) % 2 ^ 64 ≡ op.offset + n = omega arith in
    (rw sum (sym (drop-drop op.offset n op.bytes)), sum)

advance-Books :
    (n : ℕ) (op : Operation) (o : Output)
    → n ≤ length (left op)
    → Books o op
    → Books o (advance n op)
unfolding advance
advance-Books n op o few b =
    let (_, sum) = advance-left n op o few b in
    omega (arith, b, sum, length-drop op.offset op.bytes)

count_sent-Books : (n : ℕ) (o : Output) (op : Operation) → Books o op → Books (count_sent n o) op
unfolding count_sent
count_sent-Books n o op b = record {
  bytes = b.bytes;
  frames = b.frames;
  few_bytes = b.few_bytes;
  few_frames = b.few_frames;
  fits = b.fits;
}

count_sent-Follows : (n : ℕ) (o : Output) → Follows o (count_sent n o)
unfolding count_sent
count_sent-Follows n o h = (h, refl)

active-count_sent : (n : ℕ) (o : Output) → (count_sent n o).active ≡ o.active
unfolding count_sent
active-count_sent n o = refl

length-left :
    (o : Output) (op : Operation)
    → Books o op
    → sub_size (length op.bytes) op.offset ≡ length (left op)
length-left o op b = omega (arith, b, length-drop op.offset op.bytes)

counts-true :
    (o : Output) (op : Operation) (n : ℕ) (success : Bool)
    → Books o op
    → counts op n success ≡ true
    → (n ≤ length (left op)) × (confirmed op n success ≡ take n (left op))
unfolding counts confirmed
counts-true o op n success b h = ground (arith, length-left o op b)

counts-false :
    (o : Output) (op : Operation) (n : ℕ) (success : Bool)
    → Books o op
    → counts op n success ≡ false
    → confirmed op n success ≡ []
unfolding counts confirmed
counts-false o op n success b h = ground (arith, length-left o op b)

more_left : (s : Bool) (p q : ℕ) → (not s && ltb p q) ≡ true → p < q
more_left s p q h = ground arith

none_left : (s : Bool) (p q : ℕ) → (not s && ltb p q) ≡ false → s ≡ false → q ≤ p
none_left s p q h k = ground arith

bytes-advance : (n : ℕ) (op : Operation) → length (advance n op).bytes ≡ length op.bytes
unfolding advance
bytes-advance n op = refl

module _ (env : Env) (op : Operation) (n : ℕ) (o : Output) (few : n ≤ length (left op))
    (b : Books o op) where
  after_success-Completed :
      Completed o op
        (take n (left op))
        (after_success env (advance n op) (interrupt env.first (count_sent n o)))
  unfolding after_success
  after_success-Completed =
      let op' : Operation = advance n op in
      let o' : Output = interrupt env.first (count_sent n o) in
      let b' =
        interrupt-Books env.first (count_sent n o) op'
          (count_sent-Books n o op' (advance-Books n op o few b)) in
      let same : o'.active ≡ o.active =
        active-interrupt env.first (count_sent n o) ∙ active-count_sent n o in
      let (tail, sum) = advance-left n op o few b in
      let runs : Follows o o' = λ h.
        let (h', q) = interrupt-Follows env.first (count_sent n o) h in
        let (h'', q') = count_sent-Follows n o h' in (h'', q ∙ q') in
      let parts : take n (left op) ++ drop n (left op) ≡ left op = take-append-drop n (left op) in
      elim (Bool-cases (not o'.stopping && ltb op'.offset (length op'.bytes))) [
        | inl more ↦ rw more (record {
          books = b';
          ends = (same, more_left o'.stopping op'.offset (length op'.bytes) more);
          before = λ h. (runs h).0;
          bytes = ([], rw (tail, append-nil) parts, λ h. (refl, (runs h).1));
        })
        | inr over ↦ rw over (
            closed-Completed env o o' op op' (take n (left op)) (drop n (left op)) b' same parts
              λ h.
                let past = none_left o'.stopping op'.offset (length op'.bytes) over h in
                (
                  (runs h).0,
                  drop_past n (left op) (
                      omega (arith, past, sum, bytes-advance n op, length-drop op.offset op.bytes)),
                  (runs h).1,
                ))
      ]

-- A stop before the first read changes neither the queue nor the flag `active`.
after_first :
    (env : Env) (o : Output) (op : Operation) {out : Text} {r : Output × Operation × Verdict}
    → Completed (interrupt env.first o) op out r
    → Completed o op out r
after_first env o op {out} {r} c = record {
  books = c.books;
  ends = subst (λ a. Ends a r.0 r.1 r.2) (active-interrupt env.first o) c.ends;
  before = λ h. (interrupt-Follows env.first o (c.before h)).0;
  bytes =
      let (rest, parts, runs) = c.bytes in
      (
        rest,
        parts,
        λ h.
            let (no_rest, q) = runs h in
            (no_rest, q ∙ (interrupt-Follows env.first o (c.before h)).1),
      );
}

pub complete_locked-Completed :
    (env : Env) (op : Operation) (n : ℕ) (success : Bool) (o : Output)
    → Books o op
    → Completed o op (confirmed op n success) (complete_locked env op n success o)
unfolding complete_locked
complete_locked-Completed env op n success o b = elim (Bool-cases (counts op n success)) [
  | inl well ↦
      let (few, out) = counts-true o op n success b well in
      rw (well, out) (after_success-Completed env op n o few b)
  | inr ill ↦
      rw (ill, counts-false o op n success b ill)
        (after_first env o op (
          after_failure-Completed env op (interrupt env.first o)
            (interrupt-Books env.first o op b)))
]

-- A verdict on a stopped connection that holds nothing more is the last.
finished-Ends :
    (a : Bool) (o : Output) (op : Operation) (v : Verdict)
    → Ends a o op v
    → remaining (op, v) ≡ fresh
    → (o.stopping ≡ false → ⊥)
    → v ≡ finished
finished-Ends a o op finished e f s = refl
finished-Ends a o op next e f s = absurd (s e.1)
finished-Ends a o op retry e f s =
    let none_left : fresh.offset < length fresh.bytes =
      subst (λ (p : Operation). p.offset < length p.bytes) f e.1 in
    absurd (omega arith)

complete_locked-failure :
    (op : Operation) (o : Output) → complete_locked calm op 0 false o ≡ after_failure calm op o
unfolding complete_locked counts interrupt
complete_locked-failure op o = refl

after_failure-remaining :
    (env : Env) (op : Operation) (o : Output)
    → remaining ((after_failure env op o).1, (after_failure env op o).2) ≡ fresh
unfolding after_failure halt
after_failure-remaining env op o = (close_lem env op (halt o)).2

-- When a Post has failed, the second Complete has nothing left to post: it ends the operation, the
-- connection is stopped and no longer active.
pub complete_locked-stopped :
    (op : Operation) (o : Output)
    → Books o op
    → let r = complete_locked calm op 0 false (stop 2 o) in
      (r.2 ≡ finished) × Books r.0 fresh × (r.0.active ≡ false) × (r.0.stopping ≡ false → ⊥)
complete_locked-stopped op o b =
    let o' : Output = stop 2 o in
    let c = after_failure-Completed calm op o' (stop-Books 2 o op b) in
    let f = after_failure-remaining calm op o' in
    let stays : (after_failure calm op o').0.stopping ≡ false → ⊥ =
      λ h. stop-runs 2 o (c.before h) in
    let last =
      finished-Ends o'.active (after_failure calm op o').0 (after_failure calm op o').1
        (after_failure calm op o').2 c.ends f stays in
    rw (complete_locked-failure op o') (
      last,
      subst (Books (after_failure calm op o').0) f c.books,
      (subst (Ends o'.active (after_failure calm op o').0 (after_failure calm op o').1) last
          c.ends).0,
      stays,
    )
