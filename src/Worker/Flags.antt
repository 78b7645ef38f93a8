-- ===== src/Worker/Flags.antt =====
-- Only Shutdown sets a worker's closing, and only the context its cancelled.
use goxo.Base.{◌≡◌, refl, arith, true, []}
use goxo.Worker.State.{
  Delivery, Supervisor, spawning, backoff, reading, publishing, answering, reaping, settling,
  Worker,
}
use goxo.Worker.Messages.{offer, register, reclaim, on_timeout, call_fired}
use goxo.Worker.Process.{
  request_stop, send_note, send_abort, write, write_head, lose, drop_head, close_stdin, begin_close,
  kill, ack_emit,
}
use goxo.Worker.Steps.{
  Action, spawns, wakes, reads, publishes, answers, read_ends, reaps, settles, goes_on, offers,
  queues, aborts, returns, times_out, fires, writes, loses, closes_stdin, closing_begins, kills,
  cancels, supervise, return_message, step, own,
}

abbrev pub Flags : Worker → Worker → Type 0
Flags w w' = (w'.cancelled ≡ w.cancelled) × (w'.closing ≡ w.closing)

supervise-Flags : (a : Action) (s : Supervisor) (w : Worker) → Flags w (supervise a s w)
unfolding supervise ack_emit
supervise-Flags (spawns f) spawning w = ground arith
supervise-Flags (wakes b) backoff w = ground arith
supervise-Flags (reads n) (reading g) w = ground arith
supervise-Flags (publishes x) (publishing g chain y) w = ground arith
supervise-Flags answers (answering g s) w = ground arith
supervise-Flags read_ends (reading g) w = ground arith
supervise-Flags reaps (reaping g) w = ground arith
supervise-Flags (settles n) (settling stale last) w = ground arith
supervise-Flags goes_on (settling [] last) w = ground arith
supervise-Flags _ _ w = (refl, refl)

pub offers-Flags : (d : Delivery) (w : Worker) → Flags w (step (offers d) w)
unfolding step
offers-Flags d w = unfold offer register in ground arith

pub own-Flags : (a : Action) (w : Worker) → own a ≡ true → Flags w (step a w)
unfolding step own
own-Flags (offers d) w h = offers-Flags d w
own-Flags queues w h = unfold send_note in ground arith
own-Flags aborts w h = unfold send_abort reclaim in ground arith
own-Flags returns w h = unfold return_message in ground arith
own-Flags (times_out id) w h = unfold on_timeout in ground arith
own-Flags (fires n) w h = unfold call_fired in ground arith
own-Flags (writes g) w h = unfold write write_head in ground arith
own-Flags (loses g) w h = unfold lose drop_head in ground arith
own-Flags (closes_stdin g) w h = unfold close_stdin in ground arith
own-Flags closing_begins w h = absurd (cc h)
own-Flags kills w h = unfold kill in ground arith
own-Flags cancels w h = absurd (cc h)
own-Flags a w h = supervise-Flags a w.sup w

pub begin_close-cancelled : (w : Worker) → (begin_close w).cancelled ≡ w.cancelled
begin_close-cancelled w = unfold begin_close request_stop in ground arith

pub kill-Flags : (w : Worker) → Flags w (kill w)
kill-Flags w = unfold kill in ground arith
