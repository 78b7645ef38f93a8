-- ===== src/Worker/Steps.antt =====
-- internal/worker/worker.go: the worker as a machine. An action is one atomic step of one of its
-- goroutines, or of its environment; a run is any sequence of them. An action that its goroutine
-- cannot take where it stands changes nothing.
use goxo.Base.{ℕ, Bool, true, false, Option, List, [], ◌∷◌, if◌then◌else◌}
use goxo.Base.Text.{Str}
use goxo.Note.Wire.{HandlerNote, emit, done, pickup}
use goxo.Worker.State.{
  Delivery, Supervisor, spawning, backoff, reading, publishing, answering, reaping, settling,
  finished, ready, returning, Worker,
}
use goxo.Worker.Messages.{
  call, on_pickup, on_done, on_timeout, offer, reap, settle_stale, next_round, call_fired,
}
use goxo.Worker.Process.{
  request_stop, send_note, send_abort, on_emit, publish, write, lose, close_stdin, SpawnFault,
  spawn, begin_close, kill,
}

pub data Action : Type 0 where
  spawns : Option SpawnFault → Action  -- supervisor: spawn, which fails or not
  wakes : Bool → Action  -- supervisor: the back-off ends by its timer, or by the context
  reads : HandlerNote → Action  -- supervisor: the read loop gets a note
  publishes : Option Str → Action  -- supervisor: Publish returns
  answers : Action  -- supervisor: onDone calls Ack or Nack
  read_ends : Action  -- supervisor: Read fails, at the end of the process's stdout or before
  reaps : Action  -- supervisor: Wait returns, and the in-flight messages are taken
  settles : ℕ → Action  -- supervisor: a stale message is settled
  goes_on : Action  -- supervisor: the end of the round
  offers : Delivery → Action  -- Dispatch: takes the lock
  queues : Action  -- Dispatch: the note is queued
  aborts : Action  -- Dispatch: the send gives up
  returns : Action  -- Dispatch: Requeue is called
  times_out : ℕ → Action  -- a timer fires
  fires : ℕ → Action  -- a timer's goroutine calls Nack
  writes : ℕ → Action  -- the writer of a process writes a note
  loses : ℕ → Action  -- the writer of a process fails to write a note
  closes_stdin : ℕ → Action  -- the writer of a process ends
  closing_begins : Action  -- Shutdown: beginClose
  kills : Action  -- Shutdown: kill
  cancels : Action  -- the context is cancelled

-- The `switch` of readLoop.
unfoldable pub on_note : ℕ → HandlerNote → Worker → Worker
unfolding on_emit on_done on_pickup
on_note g (emit e) w = on_emit g e w
on_note g (done d) w = on_done g d w
on_note g (pickup p) w = on_pickup p.id w

unfoldable pub wake : Bool → Worker → Worker
wake true w = record w { sup = spawning }
wake false w = if w.cancelled then record w { stopped = true; sup = finished } else w

-- What the supervisor does, where it stands.
unfoldable pub supervise : Action → Supervisor → Worker → Worker
unfolding spawn wake on_note publish call request_stop reap settle_stale next_round
supervise (spawns f) spawning w = spawn f w
supervise (wakes b) backoff w = wake b w
supervise (reads n) (reading g) w = on_note g n w
supervise (publishes answer) (publishing g chain e) w = publish g chain e answer w
supervise answers (answering g s) w = call s (record w { sup = reading g })
supervise read_ends (reading g) w = request_stop g (record w { sup = reaping g })
supervise reaps (reaping g) w = reap w
supervise (settles n) (settling stale last) w = settle_stale n stale last w
supervise goes_on (settling stale last) w = next_round stale last w
supervise _ _ w = w

-- The Requeue of a message that Dispatch has taken back.
unfoldable pub return_message : Worker → Worker
unfolding call
return_message w = elim w.disp [ returning s ↦ call s (record w { disp = ready }) | _ ↦ w ]

unfoldable pub step : Action → Worker → Worker
unfolding supervise
step (offers d) w = offer d w
step queues w = send_note w
step aborts w = send_abort w
step returns w = return_message w
step (times_out id) w = on_timeout id w
step (fires n) w = call_fired n w
step (writes g) w = write g w
step (loses g) w = lose g w
step (closes_stdin g) w = close_stdin g w
step closing_begins w = begin_close w
step kills w = kill w
step cancels w = record w { cancelled = true }
step a w = supervise a w.sup w

unfoldable pub run : List Action → Worker → Worker
unfolding step
run [] w = w
run (a ∷ rest) w = run rest (step a w)

-- The steps of a worker that are its own: not Dispatch's first, Shutdown's or the context's.
unfoldable pub own : Action → Bool
own (offers d) = false
own closing_begins = false
own kills = false
own cancels = false
own _ = true
