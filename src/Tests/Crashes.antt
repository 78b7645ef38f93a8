-- ===== src/Tests/Crashes.antt =====
-- A handler that is killed after it has picked its message up.
use goxo.Base.{nat_Eq, ◌≤◌, ◌≡◌, refl, ap, arith, false, none, some, List, [], ◌∷◌, ◌++◌, length}
use goxo.Base.Dict.{lookup, insert, delete}
use goxo.Base.Int.{pos}
use goxo.Base.Text.{bytes}
use goxo.Note.{Pickup}
use goxo.Note.Wire.{pickup}
use goxo.Worker.State.{Inflight, Worker, new_worker, nack, reading, ready}
use goxo.Worker.Messages.{offer}
use goxo.Worker.Process.{send_note, write, kill}
use goxo.Worker.Steps.{
  Action, run, spawns, reads, read_ends, reaps, settles, goes_on, offers, queues, writes, kills,
}
use goxo.Worker.Invariant.{times, tally}
use goxo.Worker.Picked.{requeues}
use goxo.Worker.Crash.{picked_not_requeued}
use goxo.Tests.Samples.{sample_config, sample_delivery}

abbrev before : List Action
before = spawns none ∷ writes 0 ∷ offers sample_delivery ∷ queues ∷ writes 0 ∷ []

abbrev picked_up : Pickup
picked_up = record { type = bytes "pickup"; id = 1 }

abbrev after : List Action
after = kills ∷ read_ends ∷ reaps ∷ settles 0 ∷ goes_on ∷ []

abbrev at_work : Worker
at_work = run before (new_worker sample_config (pos 2))

abbrev crashed : Worker
crashed = run (before ++ (reads (pickup picked_up) ∷ after)) (new_worker sample_config (pos 2))

abbrev entry : Inflight
entry = record { chain = bytes "up" ∷ []; tag = 7; picked = false; timer = false }

at_work_sup : at_work.sup ≡ reading 0
unfolding run new_worker offer send_note write lookup insert delete
at_work_sup = refl

at_work_msgs : lookup 1 at_work.msgs ≡ some entry
unfolding run new_worker offer send_note write lookup insert delete
at_work_msgs = refl

at_work_disp : at_work.disp ≡ ready
unfolding run new_worker offer send_note write lookup insert delete
at_work_disp = refl

crashed_accepted : crashed.accepted ≡ 7 ∷ []
unfolding run new_worker offer send_note write kill lookup insert delete
crashed_accepted = refl

crashed_calls : crashed.calls ≡ record { tag = 7; outcome = nack } ∷ []
unfolding run new_worker offer send_note write kill lookup insert delete
crashed_calls = refl

picked_not_requeued_example : (requeues 7 crashed.calls ≡ 0) × (tally 7 crashed.calls ≤ 1)
picked_not_requeued_example =
    picked_not_requeued sample_config (pos 2) before after 0 picked_up entry at_work_sup
      at_work_msgs (λ g id d h. cc (at_work_disp, h)) (ap (times 7) crashed_accepted)
      (omega (arith, ap (λ l. length l) crashed_accepted))
