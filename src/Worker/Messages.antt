-- ===== src/Worker/Messages.antt =====
-- internal/worker/worker.go: the sections under `mu` that change the in-flight map, and the callbacks.
use goxo.Base.{
  ℕ, zero, suc, ◌+◌, ◌%◌, ◌^◌, Bool, true, false, ◌||◌, Option, none, some, List, [], ◌∷◌, map,
  length, ltb, if◌then◌else◌, nat_Eq, ◌==◌,
}
use goxo.Base.Int.{pos, ltb_ℤ}
use goxo.Base.Dict.{lookup, insert, delete}
use goxo.Base.Text.{str_Eq}
use goxo.Note.{Done, status_ok}
use goxo.Worker.State.{
  Delivery, Config, Outcome, ack, nack, requeue, Settle, Inflight, answering, settling, spawning,
  finished, ready, sending, returning, Worker,
}

-- w.closing || ctx.Err() != nil
unfoldable pub shutting_down : Worker → Bool
shutting_down w = w.closing || w.cancelled

-- `s.ack()`, `s.nack()`, `s.requeue()`
unfoldable pub call : Settle → Worker → Worker
call s w = record w { calls = s ∷ w.calls }

abbrev pub set_picked : Inflight → Inflight
set_picked m = record m { picked = true }

unfoldable pub on_pickup : ℕ → Worker → Worker
on_pickup id w = elim (lookup id w.msgs) [
  | none ↦ w
  | some m ↦ record w { msgs = insert id (set_picked m) w.msgs }
]

-- ack on "ok", nack on anything else
unfoldable pub outcome_of : Done → Outcome
outcome_of d = if d.status == status_ok then ack else nack

-- onDone up to the callback: a done for an unknown id is ignored.
unfoldable pub on_done : ℕ → Done → Worker → Worker
unfolding outcome_of
on_done g d w = elim (lookup d.id w.msgs) [
  | none ↦ w
  | some m ↦ record w {
    msgs = delete d.id w.msgs;
    sup = answering g (record { tag = m.tag; outcome = outcome_of d });
  }
]

-- The timer of a message fires: the entry goes, and the timer's goroutine owes the Nack.
unfoldable pub on_timeout : ℕ → Worker → Worker
on_timeout id w = elim (lookup id w.msgs) [
  | none ↦ w
  | some m ↦
      if m.timer
      then record w {
        msgs = delete id w.msgs;
        fired = record { tag = m.tag; outcome = nack } ∷ w.fired;
      }
      else w
]

-- A slot is free: `w.cur != nil && len(w.msgs) < w.cap`.
unfoldable pub free_slot : Worker → Option ℕ
free_slot w = elim w.cur [
  | none ↦ none
  | some g ↦ if ltb (length w.msgs) w.cap then some g else none
]

abbrev pub new_inflight : Config → Delivery → Inflight
new_inflight cfg d = record {
  chain = d.chain;
  tag = d.tag;
  picked = false;
  timer = ltb_ℤ (pos 0) cfg.timeout;
}

-- Dispatch up to `p.send`: the message gets the next id (an int64, which wraps) and is registered.
unfoldable pub register : ℕ → Delivery → Worker → Worker
register g d w = record w {
  next_id = (w.next_id + 1) % 2 ^ 64;
  msgs = insert w.next_id (new_inflight w.cfg d) w.msgs;
  disp = sending g w.next_id d;
  accepted = d.tag ∷ w.accepted;
}

-- Dispatch refuses while the worker closes, waits for a free slot, and else registers the message.
unfoldable pub offer : Delivery → Worker → Worker
unfolding shutting_down free_slot register
offer d w = elim w.disp [
  | ready ↦ if shutting_down w then w else elim (free_slot w) [ none ↦ w | some g ↦ register g d w ]
  | _ ↦ w
]

-- The send was given up: the entry is taken back, if it is still there.
unfoldable pub reclaim : ℕ → Delivery → Worker → Worker
reclaim id d w = elim (lookup id w.msgs) [
  | none ↦ record w { disp = ready }
  | some m ↦ record w {
    msgs = delete id w.msgs;
    disp = returning (record { tag = d.tag; outcome = requeue });
  }
]

-- What the supervisor owes a message that was in flight when the process went.
unfoldable pub stale_settle : Inflight → Settle
stale_settle m = record { tag = m.tag; outcome = if m.picked then nack else requeue }

-- run, once the process is reaped: no process, an empty map, and the stale messages to settle.
unfoldable pub reap : Worker → Worker
unfolding stale_settle shutting_down
reap w = record w {
  cur = none;
  msgs = [];
  sup = settling (map (λ e. stale_settle e.1) w.msgs) (shutting_down w);
}

-- The `n`th of a list, and the others.
unfoldable pub pick {ℓ} : {A : Type ℓ} → ℕ → List A → Option (A × List A)
pick n [] = none
pick zero (x ∷ xs) = some (x, xs)
pick (suc n) (x ∷ xs) = elim (pick n xs) [ none ↦ none | some (y, ys) ↦ some (y, x ∷ ys) ]

-- The loop over the stale messages, in any order (that of a Go map is not determined).
unfoldable pub settle_stale : ℕ → List Settle → Bool → Worker → Worker
unfolding call pick
settle_stale n stale last w = elim (pick n stale) [
  | none ↦ w
  | some (s, rest) ↦ call s (record w { sup = settling rest last })
]

-- Behind that loop: the worker stops, or spawns the next process.
unfoldable pub next_round : List Settle → Bool → Worker → Worker
next_round [] last w =
    if last then record w { stopped = true; sup = finished } else record w { sup = spawning }
next_round (s ∷ stale) last w = w

-- The goroutine of a timer calls its Nack.
unfoldable pub call_fired : ℕ → Worker → Worker
unfolding call pick
call_fired n w = elim (pick n w.fired) [
  | none ↦ w
  | some (s, rest) ↦ call s (record w { fired = rest })
]
