-- ===== src/Worker/Quiet.antt =====
-- The steps of a worker that are not Dispatch's first: they take no message, and Dispatch stays out.
use goxo.Base.{◌≡◌, ◌≢◌, refl, arith}
use goxo.Worker.State.{Delivery, Supervisor, spawning, ready, Worker}
use goxo.Worker.Messages.{reclaim, on_timeout, call_fired}
use goxo.Worker.Process.{
  send_note, send_abort, write, write_head, lose, drop_head, close_stdin, begin_close, kill, spawn,
}
use goxo.Worker.Steps.{
  Action, spawns, offers, queues, aborts, returns, times_out, fires, writes, loses, closes_stdin,
  closing_begins, kills, cancels, supervise, return_message, step,
}

-- Nothing is accepted, and a Dispatch that is not under way does not begin.
abbrev pub IsQuiet : Worker → Worker → Type 0
IsQuiet w w' = (w'.accepted ≡ w.accepted) × (w.disp ≡ ready → w'.disp ≡ ready)

supervise-IsQuiet : (a : Action) (s : Supervisor) (w : Worker) → IsQuiet w (supervise a s w)
unfolding supervise
supervise-IsQuiet (spawns f) spawning w = unfold spawn in (ground arith, λ h. ground arith)
supervise-IsQuiet a s w = (ground arith, λ h. ground arith)

pub begin_close-IsQuiet : (w : Worker) → IsQuiet w (begin_close w)
unfolding begin_close
begin_close-IsQuiet w = (ground arith, λ h. ground arith)

pub kill-IsQuiet : (w : Worker) → IsQuiet w (kill w)
unfolding kill
kill-IsQuiet w = (ground arith, λ h. ground arith)

-- All steps but Dispatch's first.
pub step-IsQuiet :
    (a : Action) (w : Worker) → ((d : Delivery) → a ≢ offers d) → IsQuiet w (step a w)
unfolding step
step-IsQuiet (offers d) w h = absurd (h d refl)
step-IsQuiet queues w h = unfold send_note in (ground arith, λ e. ground arith)
step-IsQuiet aborts w h = unfold send_abort reclaim in (ground arith, λ e. ground arith)
step-IsQuiet returns w h = unfold return_message in (ground arith, λ e. ground arith)
step-IsQuiet (times_out id) w h = unfold on_timeout in (ground arith, λ e. ground arith)
step-IsQuiet (fires n) w h = unfold call_fired in (ground arith, λ e. ground arith)
step-IsQuiet (writes g) w h = unfold write write_head in (ground arith, λ e. ground arith)
step-IsQuiet (loses g) w h = unfold lose drop_head in (ground arith, λ e. ground arith)
step-IsQuiet (closes_stdin g) w h = unfold close_stdin in (ground arith, λ e. ground arith)
step-IsQuiet closing_begins w h = begin_close-IsQuiet w
step-IsQuiet kills w h = kill-IsQuiet w
step-IsQuiet cancels w h = (refl, λ e. e)
step-IsQuiet a w h = supervise-IsQuiet a w.sup w
