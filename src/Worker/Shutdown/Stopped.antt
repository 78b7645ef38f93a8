-- ===== src/Worker/Shutdown/Stopped.antt =====
-- A worker that has stopped stays so, and its supervisor has returned.
use goxo.Base.{◌≡◌, refl, sym, ◌∙◌, arith, true, List, [], ◌∷◌}
use goxo.Worker.State.{
  Supervisor, spawning, backoff, reading, publishing, answering, reaping, settling, finished,
  Worker,
}
use goxo.Worker.Messages.{offer, register, reclaim, on_timeout, call_fired}
use goxo.Worker.Process.{
  send_note, send_abort, write, write_head, lose, drop_head, close_stdin, begin_close, kill, spawn,
}
use goxo.Worker.Steps.{
  Action, spawns, wakes, reads, publishes, answers, read_ends, reaps, settles, goes_on, offers,
  queues, aborts, returns, times_out, fires, writes, loses, closes_stdin, closing_begins, kills,
  cancels, supervise, return_message, step, run,
}

-- A worker that has stopped has a supervisor that has returned.
unfoldable pub HasEnded : Worker → Type 0
HasEnded w = w.stopped ≡ true → w.sup ≡ finished

abbrev Left : Worker → Worker → Type 0
Left w w' = (w'.sup ≡ w.sup) × (w'.stopped ≡ w.stopped)

Left-HasEnded : (w w' : Worker) → Left w w' → HasEnded w → HasEnded w'
unfolding HasEnded
Left-HasEnded w w' (s, t) e h = s ∙ e (sym t ∙ h)

supervise-HasEnded :
    (a : Action) (s : Supervisor) (w : Worker) → w.sup ≡ s → HasEnded w → HasEnded (supervise a s w)
unfolding supervise HasEnded
supervise-HasEnded (spawns f) spawning w q e = unfold spawn in ground arith
supervise-HasEnded (wakes b) backoff w q e = ground arith
supervise-HasEnded (reads n) (reading g) w q e = ground arith
supervise-HasEnded (publishes x) (publishing g chain y) w q e = ground arith
supervise-HasEnded answers (answering g s) w q e = ground arith
supervise-HasEnded read_ends (reading g) w q e = ground arith
supervise-HasEnded reaps (reaping g) w q e = ground arith
supervise-HasEnded (settles n) (settling stale last) w q e = ground arith
supervise-HasEnded goes_on (settling [] last) w q e = ground arith
supervise-HasEnded _ _ w q e = e

-- The steps that are not the supervisor's.
pub step-HasEnded : (a : Action) (w : Worker) → HasEnded w → HasEnded (step a w)
unfolding step HasEnded
step-HasEnded (offers d) w e = Left-HasEnded w (offer d w) (unfold offer register in ground arith) e
step-HasEnded queues w e = Left-HasEnded w (send_note w) (unfold send_note in ground arith) e
step-HasEnded aborts w e =
    Left-HasEnded w (send_abort w) (unfold send_abort reclaim in ground arith) e
step-HasEnded returns w e =
    Left-HasEnded w (return_message w) (unfold return_message in ground arith) e
step-HasEnded (times_out id) w e =
    Left-HasEnded w (on_timeout id w) (unfold on_timeout in ground arith) e
step-HasEnded (fires n) w e = Left-HasEnded w (call_fired n w) (unfold call_fired in ground arith) e
step-HasEnded (writes g) w e =
    Left-HasEnded w (write g w) (unfold write write_head in ground arith) e
step-HasEnded (loses g) w e = Left-HasEnded w (lose g w) (unfold lose drop_head in ground arith) e
step-HasEnded (closes_stdin g) w e =
    Left-HasEnded w (close_stdin g w) (unfold close_stdin in ground arith) e
step-HasEnded closing_begins w e =
    Left-HasEnded w (begin_close w) (unfold begin_close in ground arith) e
step-HasEnded kills w e = Left-HasEnded w (kill w) (unfold kill in ground arith) e
step-HasEnded cancels w e = e
step-HasEnded a w e = supervise-HasEnded a w.sup w refl e

supervise-stopped :
    (a : Action) (s : Supervisor) (w : Worker) → w.stopped ≡ true → (supervise a s w).stopped ≡ true
unfolding supervise
supervise-stopped a s w e = ground arith

pub step-stopped : (a : Action) (w : Worker) → w.stopped ≡ true → (step a w).stopped ≡ true
unfolding step
step-stopped (offers d) w e = unfold offer register in ground arith
step-stopped queues w e = unfold send_note in ground arith
step-stopped aborts w e = unfold send_abort reclaim in ground arith
step-stopped returns w e = unfold return_message in ground arith
step-stopped (times_out id) w e = unfold on_timeout in ground arith
step-stopped (fires n) w e = unfold call_fired in ground arith
step-stopped (writes g) w e = unfold write write_head in ground arith
step-stopped (loses g) w e = unfold lose drop_head in ground arith
step-stopped (closes_stdin g) w e = unfold close_stdin in ground arith
step-stopped closing_begins w e = unfold begin_close in ground arith
step-stopped kills w e = unfold kill in ground arith
step-stopped cancels w e = e
step-stopped a w e = supervise-stopped a w.sup w e

-- A worker whose supervisor has returned has stopped.
unfoldable pub HasStopped : Worker → Type 0
HasStopped w = w.sup ≡ finished → w.stopped ≡ true

Left-HasStopped : (w w' : Worker) → Left w w' → HasStopped w → HasStopped w'
unfolding HasStopped
Left-HasStopped w w' (s, t) e h = t ∙ e (sym s ∙ h)

supervise-HasStopped :
    (a : Action) (s : Supervisor) (w : Worker)
    → w.sup ≡ s
    → HasStopped w
    → HasStopped (supervise a s w)
unfolding supervise HasStopped
supervise-HasStopped (spawns f) spawning w q e = unfold spawn in ground arith
supervise-HasStopped (wakes b) backoff w q e = ground arith
supervise-HasStopped (reads n) (reading g) w q e = ground arith
supervise-HasStopped (publishes x) (publishing g chain y) w q e = ground arith
supervise-HasStopped answers (answering g s) w q e = ground arith
supervise-HasStopped read_ends (reading g) w q e = ground arith
supervise-HasStopped reaps (reaping g) w q e = ground arith
supervise-HasStopped (settles n) (settling stale last) w q e = ground arith
supervise-HasStopped goes_on (settling [] last) w q e = ground arith
supervise-HasStopped _ _ w q e = e

-- The steps that are not the supervisor's.
step-HasStopped : (a : Action) (w : Worker) → HasStopped w → HasStopped (step a w)
unfolding step HasStopped
step-HasStopped (offers d) w e =
    Left-HasStopped w (offer d w) (unfold offer register in ground arith) e
step-HasStopped queues w e = Left-HasStopped w (send_note w) (unfold send_note in ground arith) e
step-HasStopped aborts w e =
    Left-HasStopped w (send_abort w) (unfold send_abort reclaim in ground arith) e
step-HasStopped returns w e =
    Left-HasStopped w (return_message w) (unfold return_message in ground arith) e
step-HasStopped (times_out id) w e =
    Left-HasStopped w (on_timeout id w) (unfold on_timeout in ground arith) e
step-HasStopped (fires n) w e =
    Left-HasStopped w (call_fired n w) (unfold call_fired in ground arith) e
step-HasStopped (writes g) w e =
    Left-HasStopped w (write g w) (unfold write write_head in ground arith) e
step-HasStopped (loses g) w e =
    Left-HasStopped w (lose g w) (unfold lose drop_head in ground arith) e
step-HasStopped (closes_stdin g) w e =
    Left-HasStopped w (close_stdin g w) (unfold close_stdin in ground arith) e
step-HasStopped closing_begins w e =
    Left-HasStopped w (begin_close w) (unfold begin_close in ground arith) e
step-HasStopped kills w e = Left-HasStopped w (kill w) (unfold kill in ground arith) e
step-HasStopped cancels w e = e
step-HasStopped a w e = supervise-HasStopped a w.sup w refl e

pub run-HasStopped : (acts : List Action) (w : Worker) → HasStopped w → HasStopped (run acts w)
unfolding run
run-HasStopped [] w e = e
run-HasStopped (a ∷ acts) w e = run-HasStopped acts (step a w) (step-HasStopped a w e)
