-- ===== src/Tests/Workers.antt =====
-- internal/worker at work: a message that is delivered and done, one that is taken back, a shutdown.
use goxo.Base.{
  ℕ, ◌+◌, ◌-◌, ◌^◌, ◌≤◌, ◌<◌, ◌≡◌, refl, ap, ◌≢◌, arith, true, false, none, some, List, [], ◌∷◌,
  length,
}
use goxo.Base.Dict.{lookup, insert, delete}
use goxo.Base.Int.{pos}
use goxo.Worker.Pool.{
  Pool, workers, load_at, NoneBelow, outstanding, least_loaded, least_loaded_lem,
}
use goxo.Base.Text.{bytes}
use goxo.Note.Wire.{done, pickup}
use goxo.Worker.State.{Worker, new_worker, ack, spawning, finished, ready}
use goxo.Worker.Messages.{shutting_down, offer}
use goxo.Worker.Process.{send_note, write, begin_close}
use goxo.Worker.Steps.{
  Action, run, spawns, reads, answers, read_ends, reaps, goes_on, offers, queues, writes,
  closing_begins,
}
use goxo.Worker.Invariant.{times, tally, owing}
use goxo.Worker.Settlement.{
  settled_once, stopped_settled, in_flight_bounded, accepted-shutting_down, begin_close_missed,
}
use goxo.Tests.Samples.{sample_config, sample_delivery}

-- One message: accepted, delivered, picked up and done; then the worker closes and its process ends.
abbrev pub one_message : List Action
one_message =
    spawns none
    ∷ writes 0
    ∷ offers sample_delivery
    ∷ queues
    ∷ writes 0
    ∷ reads (pickup (record { type = bytes "pickup"; id = 1 }))
    ∷ reads (done (record { type = bytes "done"; id = 1; status = bytes "ok"; error = [] }))
    ∷ answers
    ∷ closing_begins
    ∷ read_ends
    ∷ reaps
    ∷ goes_on
    ∷ []

abbrev pub started : Worker
started = new_worker sample_config (pos 2)

abbrev pub ended : Worker
ended = run one_message started

one_message_calls : ended.calls ≡ record { tag = 7; outcome = ack } ∷ []
unfolding run new_worker offer send_note write begin_close lookup insert delete
one_message_calls = refl

one_message_accepted : ended.accepted ≡ 7 ∷ []
unfolding run new_worker offer send_note write begin_close lookup insert delete
one_message_accepted = refl

one_message_sup : ended.sup ≡ finished
unfolding run new_worker offer send_note write begin_close lookup insert delete
one_message_sup = refl

one_message_disp : ended.disp ≡ ready
unfolding run new_worker offer send_note write begin_close lookup insert delete
one_message_disp = refl

one_message_fired : ended.fired ≡ []
unfolding run new_worker offer send_note write begin_close lookup insert delete
one_message_fired = refl

pub one_message_few : length ended.accepted < 2 ^ 64 - 1
one_message_few = omega (arith, ap (λ l. length l) one_message_accepted)

one_message_down : shutting_down ended ≡ true
unfolding run new_worker offer send_note write begin_close lookup insert delete shutting_down
one_message_down = refl

settled_once_example : times 7 ended.accepted ≡ owing 7 ended + tally 7 ended.calls
settled_once_example = settled_once sample_config (pos 2) one_message 7 one_message_few

stopped_settled_example : (ended.msgs ≡ []) × (tally 7 ended.calls ≡ times 7 ended.accepted)
stopped_settled_example =
    stopped_settled sample_config (pos 2) one_message 7 one_message_few one_message_sup
      one_message_disp one_message_fired

in_flight_bounded_example : length ended.msgs ≤ 2
in_flight_bounded_example = in_flight_bounded sample_config (pos 2) one_message one_message_few

-- A message that is offered after the end is not taken.
accepted-shutting_down_example :
    ((run (offers sample_delivery ∷ []) ended).accepted ≡ ended.accepted)
    × (shutting_down (run (offers sample_delivery ∷ []) ended) ≡ true)
accepted-shutting_down_example =
    accepted-shutting_down (offers sample_delivery ∷ []) ended one_message_down

started_sup : started.sup ≡ spawning
unfolding new_worker
started_sup = refl

started_cur : started.cur ≡ none
unfolding new_worker
started_cur = refl

started_command : started.cfg.command ≢ []
unfolding new_worker
started_command e = ground arith

begin_close_missed_example :
    let w' = run (closing_begins ∷ spawns none ∷ []) started in
    (w'.closing ≡ true)
    × (w'.cur ≡ some started.spawned)
    × ((w'.procs started.spawned).stop ≡ false)
begin_close_missed_example = begin_close_missed started started_sup started_cur started_command

-- Of three workers with 1, 0 and 0 messages in flight, the second is picked.
abbrev busy : Worker
busy = run (spawns none ∷ offers sample_delivery ∷ []) started

abbrev three_workers : Pool
three_workers = record { first = busy; others = started ∷ started ∷ [] }

least_loaded_lem_example :
    (n : ℕ) × (load_at (workers three_workers) (least_loaded three_workers) ≡ some n)
    × NoneBelow n (workers three_workers)
    × ((j m : ℕ)
        → j < least_loaded three_workers
        → load_at (workers three_workers) j ≡ some m
        → n < m)
least_loaded_lem_example = least_loaded_lem three_workers

three_workers_pick : least_loaded three_workers ≡ 1
unfolding least_loaded outstanding run new_worker offer lookup insert
three_workers_pick = refl
