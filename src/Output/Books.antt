-- ===== src/Output/Books.antt =====
-- The accounts of the queue: the pending counts are what is queued and what the operation holds,
-- and they stay within the limits.
use bn_bserver.Prelude.{
  ℕ, suc, ◌+◌, ◌≤◌, ◌<◌, ◌≡◌, refl, ap, sym, ◌∙◌, append_assoc, Bool, true, Option, none, some,
  List, [], ◌∷◌, ◌++◌, arith, length, length-append, Bool-cases, inl, inr,
}
use bn_bserver.Prelude.Text.{Text}
use bn_bserver.Output.{
  Output, Operation, Env, has_room, start_operation, settle, flush_stopped, next_batch, choose_next,
  fresh, stop, push, admit, fill, take_batch, begin_locked, close_batch, interrupt,
  max_pending_bytes, max_pending_frames,
}

abbrev pub concat : List Text → Text
concat [] = []
concat (f ∷ q) = f ++ concat q

abbrev pub total : List Text → ℕ
total [] = 0
total (f ∷ q) = length f + total q

pub total-append : (q : List Text) (f : Text) → total (q ++ f ∷ []) ≡ total q + length f
total-append [] f = omega arith
total-append (g ∷ q) f = omega (arith, total-append q f)

pub record Books (o : Output) (op : Operation) : Type 0 where
  pub bytes : o.pending_bytes ≡ total o.queue + length op.bytes
  pub frames : o.pending_frames ≡ length o.queue + op.frames
  pub few_bytes : o.pending_bytes ≤ max_pending_bytes
  pub few_frames : o.pending_frames ≤ max_pending_frames
  pub fits : op.offset ≤ length op.bytes

pub stop-Books : (reason : ℕ) (o : Output) (op : Operation) → Books o op → Books (stop reason o) op
unfolding stop
stop-Books reason o op b = record {
  bytes = b.bytes;
  frames = b.frames;
  few_bytes = b.few_bytes;
  few_frames = b.few_frames;
  fits = b.fits;
}

pub interrupt-Books :
    (i : Option ℕ) (o : Output) (op : Operation) → Books o op → Books (interrupt i o) op
unfolding interrupt
interrupt-Books none o op b = b
interrupt-Books (some reason) o op b = stop-Books reason o op b

push-Books :
    (frame : Text) (o : Output) (op : Operation)
    → Books o op
    → o.pending_bytes + length frame ≤ max_pending_bytes
    → o.pending_frames < max_pending_frames
    → Books (push frame o) op
unfolding push
push-Books frame o op b h k =
    omega (arith, b, total-append o.queue frame, length-append o.queue (frame ∷ []))

has_room-fits :
    (frame : Text) (o : Output)
    → o.pending_bytes ≤ max_pending_bytes
    → has_room frame o ≡ true
    → (o.pending_bytes + length frame ≤ max_pending_bytes) × (o.pending_frames < max_pending_frames)
unfolding has_room
has_room-fits frame o few h = ground arith

pub push_room-Books :
    (frame : Text) (o : Output) (op : Operation)
    → Books o op
    → has_room frame o ≡ true
    → Books (push frame o) op
push_room-Books frame o op b room =
    let (h, k) = has_room-fits frame o b.few_bytes room in push-Books frame o op b h k

start_operation-Books :
    (start : Bool) (o : Output) (op : Operation) → Books o op → Books (start_operation start o).0 op
unfolding start_operation
start_operation-Books start o op b = ground (arith, stop-Books 2 o op b)

pub admit-Books :
    (start : Bool) (frame : Text) (o : Output) (op : Operation)
    → Books o op
    → Books (admit start frame o).0 op
unfolding admit
admit-Books start frame o op b = elim (Bool-cases (has_room frame o)) [
  | inl room ↦
      let (h, k) = has_room-fits frame o b.few_bytes room in
      let pushed = start_operation-Books start (push frame o) op (push-Books frame o op b h k) in
      ground (arith, pushed)
  | inr full ↦ ground arith
]

fill-Books :
    (s : Text) (n : ℕ) (q : List Text)
    → let r = fill s n q in
      (length r.0 + total r.2 ≡ length s + total q) × (r.1 + length r.2 ≡ n + length q)
unfolding fill
fill-Books s n [] = (refl, refl)
fill-Books s n (f ∷ q) = ground (arith, fill-Books (s ++ f) (suc n) q, length-append s f)

take_batch-Books :
    (q : List Text) (o : Output)
    → o.queue ≡ q
    → Books o fresh
    → Books (take_batch fresh q o).0 (take_batch fresh q o).1
unfolding take_batch
take_batch-Books [] o e b = b
take_batch-Books (f ∷ q) o e b = omega (arith, b, fill-Books ([] ++ f) 1 q, ap total e, ap length e)

pub begin_locked-Books :
    (o : Output) → Books o fresh → Books (begin_locked fresh o).0 (begin_locked fresh o).1
unfolding begin_locked
begin_locked-Books o b = ground (arith, take_batch-Books o.queue o refl b)

settle-Books : (op : Operation) (o : Output) → Books o op → Books (settle op o) fresh
unfolding settle
settle-Books op o b = omega (arith, b)

flush_stopped-Books : (o : Output) → Books o fresh → Books (flush_stopped o) fresh
unfolding flush_stopped
flush_stopped-Books o b = ground arith

next_batch-Books : (o : Output) (q : List Text) → Books o fresh → Books (next_batch o q).0 fresh
unfolding next_batch
next_batch-Books o [] b = ground arith
next_batch-Books o (f ∷ q) b = ground arith

pub close_batch-Books :
    (env : Env) (op : Operation) (o : Output) → Books o op → Books (close_batch env op o).0 fresh
unfolding close_batch choose_next
close_batch-Books env op o b =
    let o1 : Output = settle op o in
    let o2 : Output = flush_stopped (interrupt env.second o1) in
    let b2 = flush_stopped-Books _ (interrupt-Books env.second o1 fresh (settle-Books op o b)) in
    let b3 = interrupt-Books env.third o2 fresh b2 in next_batch-Books (interrupt env.third o2) _ b3

fill-concat :
    (s : Text) (n : ℕ) (q : List Text) → (fill s n q).0 ++ concat (fill s n q).2 ≡ s ++ concat q
unfolding fill
fill-concat s n [] = refl
fill-concat s n (f ∷ q) =
    ground (arith, fill-concat (s ++ f) (suc n) q, append_assoc s f (concat q))

-- A batch is the front of the queue, in order; nothing is taken from a stopped queue.
take_batch-Stream :
    (q : List Text) (o : Output)
    → o.queue ≡ q
    → let r = take_batch fresh q o in
      (r.0.active ≡ o.active)
      × (r.1.offset ≡ 0)
      × (r.0.stopping ≡ o.stopping)
      × (r.1.bytes ++ concat r.0.queue ≡ concat o.queue)
unfolding take_batch
take_batch-Stream [] o e = (refl, refl, refl, refl)
take_batch-Stream (f ∷ q) o e = (refl, refl, refl, fill-concat ([] ++ f) 1 q ∙ sym (ap concat e))

pub begin_locked-Stream :
    (o : Output)
    → let r = begin_locked fresh o in
      (r.0.active ≡ o.active)
      × (r.1.offset ≡ 0)
      × (r.0.stopping ≡ o.stopping)
      × (r.1.bytes ++ concat r.0.queue ≡ concat o.queue)
unfolding begin_locked
begin_locked-Stream o = ground (arith, take_batch-Stream o.queue o refl)

pub begin_locked-nothing : (o : Output) → o.stopping ≡ true → (begin_locked fresh o).1.bytes ≡ []
unfolding begin_locked
begin_locked-nothing o stopped = ground arith
