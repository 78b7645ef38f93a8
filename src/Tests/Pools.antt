-- ===== src/Tests/Pools.antt =====
-- A pool that serves one message and is shut down, with a process that overruns the grace period.
use goxo.Base.{ℕ, ◌+◌, ◌≡◌, refl, ap, arith, true, none, some, List, [], ◌∷◌, length, get_elem?}
use goxo.Base.Dict.{lookup, insert, delete}
use goxo.Base.Int.{pos}
use goxo.Base.Text.{bytes}
use goxo.Note.Wire.{done, pickup}
use goxo.Worker.State.{Worker, new_worker, ack}
use goxo.Worker.Messages.{offer}
use goxo.Worker.Process.{send_note, write, begin_close, kill}
use goxo.Worker.Steps.{
  step, spawns, reads, answers, read_ends, reaps, goes_on, offers, queues, writes,
}
use goxo.Worker.Invariant.{times, tally, owed_disp}
use goxo.Worker.Pool.{Pool, new_pool, workers}
use goxo.Worker.Shutdown.{
  PoolAction, acts, shuts_down, asks, expires, awaits, overruns, over, Serving, start, pool_run,
}
use goxo.Worker.Shutdown.Ending.{shutdown_over}
use goxo.Tests.Samples.{sample_config, sample_delivery}

abbrev one_shutdown : List PoolAction
one_shutdown =
    acts 0 (spawns none)
    ∷ acts 0 (writes 0)
    ∷ acts 0 (offers sample_delivery)
    ∷ acts 0 queues
    ∷ acts 0 (writes 0)
    ∷ acts 0 (reads (pickup (record { type = bytes "pickup"; id = 1 })))
    ∷ shuts_down
    ∷ asks
    ∷ asks
    ∷ expires
    ∷ overruns
    ∷ acts 0
        (reads (done (record { type = bytes "done"; id = 1; status = bytes "ok"; error = [] })))
    ∷ acts 0 answers
    ∷ acts 0 read_ends
    ∷ acts 0 reaps
    ∷ acts 0 goes_on
    ∷ awaits
    ∷ awaits
    ∷ []

abbrev small_pool : Pool
small_pool = new_pool sample_config (pos 1) (pos 2)

abbrev left_over : Serving
left_over = pool_run one_shutdown (start small_pool)

left_over_phase : left_over.phase ≡ over
unfolding pool_run start new_pool step offer send_note write begin_close kill lookup insert delete
left_over_phase = refl

abbrev first_of : List Worker → Worker
first_of [] = new_worker sample_config (pos 2)
first_of (w ∷ ws) = w

abbrev only_worker : Worker
only_worker = first_of left_over.workers

only_worker_lem : get_elem? left_over.workers 0 ≡ some only_worker
unfolding pool_run start new_pool step offer send_note write begin_close kill lookup insert delete
only_worker_lem = refl

only_worker_calls : only_worker.calls ≡ record { tag = 7; outcome = ack } ∷ []
unfolding pool_run start new_pool step offer send_note write begin_close kill lookup insert delete
only_worker_calls = refl

only_worker_accepted : only_worker.accepted ≡ 7 ∷ []
unfolding pool_run start new_pool step offer send_note write begin_close kill lookup insert delete
only_worker_accepted = refl

shutdown_over_example :
    (length left_over.workers ≡ length (workers small_pool))
    × (only_worker.closing ≡ true)
    × (only_worker.stopped ≡ true)
    × (only_worker.msgs ≡ [])
    × ((tag : ℕ)
        → times tag only_worker.accepted
          ≡ owed_disp tag only_worker.disp
            + tally tag only_worker.fired
            + tally tag only_worker.calls)
shutdown_over_example =
    shutdown_over sample_config (pos 1) (pos 2) one_shutdown 0 only_worker left_over_phase
      only_worker_lem (omega (arith, ap (λ l. length l) only_worker_accepted))
