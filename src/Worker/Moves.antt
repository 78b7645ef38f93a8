-- ===== src/Worker/Moves.antt =====
-- The steps that leave the in-flight map alone: processes, queues, and callbacks that are called.
use goxo.Base.{
  ℕ, zero, suc, ◌+◌, ◌≡◌, ap, sym, subst, ◌∙◌, inl, inr, arith, Bool, true, false, some, List, [],
  ◌∷◌, nat_Eq, Option-cases,
}
use goxo.Note.{EmitAck}
use goxo.Worker.State.{
  Settle, Supervisor, spawning, backoff, reading, publishing, answering, reaping, settling,
  finished, Worker,
}
use goxo.Worker.Messages.{shutting_down, pick}
use goxo.Worker.Process.{
  request_stop, ack_emit, write, write_head, lose, drop_head, close_stdin, begin_close, kill,
}
use goxo.Worker.Invariant.{
  hit, times, tally, held, owed_sup, owed_disp, process_of, Quiet, Sent, Ended, Inv,
}

-- What one picks from a list, and what is left, make up the list.
pub tally-pick :
    (t n : ℕ) (l : List Settle) (s : Settle) (rest : List Settle)
    → pick n l ≡ some (s, rest)
    → tally t l ≡ hit t s.tag + tally t rest
unfolding pick
tally-pick t n [] s rest h = cc
tally-pick t zero (x ∷ l) s rest h = ground arith
tally-pick t (suc n) (x ∷ l) s rest h = elim (Option-cases (pick n l)) [
  | inl e ↦ ground arith
  | inr ((y, ys), e) ↦ ground (arith, tally-pick t n l y ys)
]

-- A step to `w'` that leaves the map, the ids and the accepted messages as they were: what is owed
-- is only passed on, or called.
pub record Moved (w w' : Worker) : Type 0 where
  pub msgs : w'.msgs ≡ w.msgs
  pub cap : w'.cap ≡ w.cap
  pub next_id : w'.next_id ≡ w.next_id
  pub accepted : w'.accepted ≡ w.accepted
  pub live : w'.cur ≡ process_of w'.sup
  pub quiet : Quiet w'.cur w.msgs
  pub sent : Sent w'.disp w.next_id w.msgs
  pub ended : Ended w'.sup (shutting_down w')
  pub account :
      (t : ℕ)
      → owed_sup t w'.sup + owed_disp t w'.disp + tally t w'.fired + tally t w'.calls
        ≡ owed_sup t w.sup + owed_disp t w.disp + tally t w.fired + tally t w.calls

pub Moved-Inv : {w w' : Worker} → Moved w w' → Inv w → Inv w'
Moved-Inv {w} {w'} m v = record {
  unique = rw m.msgs v.unique;
  below = rw (m.msgs, m.next_id) v.below;
  bounded = rw (m.msgs, m.cap) v.bounded;
  ids = rw (m.next_id, m.accepted) v.ids;
  live = m.live;
  quiet = rw m.msgs m.quiet;
  sent = rw (m.next_id, m.msgs) m.sent;
  ended = m.ended;
  conserved =
      λ t. omega (arith, v.conserved t, m.account t, ap (held t) m.msgs, ap (times t) m.accepted);
}

-- A step that touches processes and queues only, or starts the shutdown.
pub record Kept (w w' : Worker) : Type 0 where
  pub msgs : w'.msgs ≡ w.msgs
  pub cap : w'.cap ≡ w.cap
  pub next_id : w'.next_id ≡ w.next_id
  pub accepted : w'.accepted ≡ w.accepted
  pub cur : w'.cur ≡ w.cur
  pub sup : w'.sup ≡ w.sup
  pub disp : w'.disp ≡ w.disp
  pub fired : w'.fired ≡ w.fired
  pub calls : w'.calls ≡ w.calls
  pub closing : w.closing ≡ true → w'.closing ≡ true
  pub cancelled : w.cancelled ≡ true → w'.cancelled ≡ true

Ended-mono : (s : Supervisor) (b b' : Bool) → (b ≡ true → b' ≡ true) → Ended s b → Ended s b'
Ended-mono (settling stale true) b b' h e = h e
Ended-mono (settling stale false) b b' h e = tt
Ended-mono finished b b' h e = h e
Ended-mono spawning b b' h e = tt
Ended-mono backoff b b' h e = tt
Ended-mono (reading g) b b' h e = tt
Ended-mono (publishing g chain x) b b' h e = tt
Ended-mono (answering g s) b b' h e = tt
Ended-mono (reaping g) b b' h e = tt

still_down : {w w' : Worker} → Kept w w' → shutting_down w ≡ true → shutting_down w' ≡ true
unfolding shutting_down
still_down {w} {w'} k h = ground (arith, k.closing, k.cancelled)

pub Kept-Inv : {w w' : Worker} → Kept w w' → Inv w → Inv w'
Kept-Inv {w} {w'} k v =
    Moved-Inv
      (record {
        msgs = k.msgs;
        cap = k.cap;
        next_id = k.next_id;
        accepted = k.accepted;
        live = k.cur ∙ (v.live ∙ ap process_of (sym k.sup));
        quiet = subst (λ c. Quiet c w.msgs) (sym k.cur) v.quiet;
        sent = subst (λ d. Sent d w.next_id w.msgs) (sym k.disp) v.sent;
        ended =
            subst (λ s. Ended s (shutting_down w')) (sym k.sup)
              (Ended-mono w.sup (shutting_down w) (shutting_down w') (still_down k) v.ended);
        account = λ t. omega (
          arith,
          ap (owed_sup t) k.sup,
          ap (owed_disp t) k.disp,
          ap (tally t) k.fired,
          ap (tally t) k.calls,
        );
      })
      v

pub write-Kept : (g : ℕ) (w : Worker) → Kept w (write g w)
unfolding write write_head
write-Kept g w = ground arith

pub lose-Kept : (g : ℕ) (w : Worker) → Kept w (lose g w)
unfolding lose drop_head
lose-Kept g w = ground arith

pub close_stdin-Kept : (g : ℕ) (w : Worker) → Kept w (close_stdin g w)
unfolding close_stdin
close_stdin-Kept g w = ground arith

pub begin_close-Kept : (w : Worker) → Kept w (begin_close w)
unfolding begin_close request_stop
begin_close-Kept w = ground arith

pub kill-Kept : (w : Worker) → Kept w (kill w)
unfolding kill
kill-Kept w = ground arith

pub cancel-Kept : (w : Worker) → Kept w (record w { cancelled = true })
cancel-Kept w = ground arith

pub ack_emit-Kept : (g : ℕ) (a : EmitAck) (w : Worker) → Kept w (ack_emit g a w)
unfolding ack_emit
ack_emit-Kept g a w = ground arith
