-- ===== src/Worker/Settlement.antt =====
-- What every run of a worker guarantees for the messages that it takes.
use goxo.Base.{
  ℕ, ◌+◌, ◌-◌, ◌^◌, ◌≤◌, ◌<◌, ◌≡◌, refl, ap, subst, ◌∙◌, ◌≢◌, arith, true, false, none, some, List,
  [], ◌∷◌, length, if◌then◌else◌,
}
use goxo.Base.Int.{ℤ, pos, ltb_ℤ, pos_part}
use goxo.Worker.State.{Config, Supervisor, finished, ready, Worker, new_worker, Inflight}
use goxo.Worker.Messages.{shutting_down}
use goxo.Worker.Steps.{Action, step, run, closing_begins, spawns}
use goxo.Worker.Process.{begin_close}
use goxo.Worker.Invariant.{
  hit, times, tally, held, owing, owed_sup, owed_disp, process_of, Quiet, Inv,
}
use goxo.Worker.Table.{total-nil}
use goxo.Worker.Runs.{run-Inv, new_worker-Inv, cap_run, shutting_down-step, accepted_step_down}

-- Whatever the handler, the timers, the broker and the shutdown do: at any time each message that
-- Dispatch has accepted is owed by just one party (the in-flight map, the supervisor, Dispatch or a
-- timer) or has had just one of its callbacks called, once. Messages are told apart by their tags; a
-- tag that was accepted several times counts as often. (Ids wrap after 2 ^ 64 - 1 messages.)
pub settled_once :
    (cfg : Config) (capacity : ℤ) (acts : List Action) (tag : ℕ)
    → length (run acts (new_worker cfg capacity)).accepted < 2 ^ 64 - 1
    → times tag (run acts (new_worker cfg capacity)).accepted
      ≡ owing tag (run acts (new_worker cfg capacity))
        + tally tag (run acts (new_worker cfg capacity)).calls
settled_once cfg capacity acts tag few =
    (run-Inv acts few (new_worker-Inv cfg capacity)).conserved tag

-- When the worker has stopped, with Dispatch returned and no timer's goroutine left to run, nothing is
-- in flight and every accepted message has been settled exactly once.
pub stopped_settled :
    (cfg : Config) (capacity : ℤ) (acts : List Action) (tag : ℕ)
    → length (run acts (new_worker cfg capacity)).accepted < 2 ^ 64 - 1
    → (run acts (new_worker cfg capacity)).sup ≡ finished
    → (run acts (new_worker cfg capacity)).disp ≡ ready
    → (run acts (new_worker cfg capacity)).fired ≡ []
    → ((run acts (new_worker cfg capacity)).msgs ≡ [])
      × (tally tag (run acts (new_worker cfg capacity)).calls
          ≡ times tag (run acts (new_worker cfg capacity)).accepted)
stopped_settled cfg capacity acts tag few ended idle none_fired =
    quiet_settled (run acts (new_worker cfg capacity))
      (run-Inv acts few (new_worker-Inv cfg capacity)) ended idle none_fired
  where
    quiet_settled :
        (w : Worker)
        → Inv w
        → w.sup ≡ finished
        → w.disp ≡ ready
        → w.fired ≡ []
        → (w.msgs ≡ []) × (tally tag w.calls ≡ times tag w.accepted)
    quiet_settled w v e d f =
        let empty : w.msgs ≡ [] =
          subst (λ c. Quiet c w.msgs) (v.live ∙ ap (λ s. process_of s) e) v.quiet in
        (
          empty,
          omega (
            arith,
            v.conserved tag,
            ap (held tag) empty,
            total-nil (λ (m : Inflight). hit tag m.tag),
            ap (owed_sup tag) e,
            ap (owed_disp tag) d,
            ap (tally tag) f,
          ),
        )

-- A worker never has more messages in flight than its capacity, which is at least 1.
pub in_flight_bounded :
    (cfg : Config) (capacity : ℤ) (acts : List Action)
    → length (run acts (new_worker cfg capacity)).accepted < 2 ^ 64 - 1
    → length (run acts (new_worker cfg capacity)).msgs
      ≤ (if ltb_ℤ capacity (pos 1) then 1 else pos_part capacity)
in_flight_bounded cfg capacity acts few = omega (
  arith,
  (run-Inv acts few (new_worker-Inv cfg capacity)).bounded,
  cap_run acts (new_worker cfg capacity),
  new_worker_cap,
)
  where
    new_worker_cap :
        (new_worker cfg capacity).cap ≡ (if ltb_ℤ capacity (pos 1) then 1 else pos_part capacity)
    new_worker_cap = unfold new_worker in refl

-- Once a worker shuts down it takes no further message, whatever happens then.
pub accepted-shutting_down :
    (acts : List Action) (w : Worker)
    → shutting_down w ≡ true
    → ((run acts w).accepted ≡ w.accepted) × (shutting_down (run acts w) ≡ true)
unfolding run
accepted-shutting_down [] w h = (refl, h)
accepted-shutting_down (a ∷ acts) w h =
    let (same, down) = accepted-shutting_down acts (step a w) (shutting_down-step a w h) in
    (same ∙ accepted_step_down a w h, down)

-- A close that comes while the worker has no process yet misses the next one: whenever the
-- supervisor is spawning, begin_close followed by a spawn that succeeds leaves a worker that is
-- closing, with a live process that nobody has asked to stop.
pub begin_close_missed :
    (w : Worker)
    → w.sup ≡ Supervisor.spawning
    → w.cur ≡ none
    → w.cfg.command ≢ []
    → let w' = run (closing_begins ∷ spawns none ∷ []) w in
      (w'.closing ≡ true) × (w'.cur ≡ some w.spawned) × ((w'.procs w.spawned).stop ≡ false)
unfolding run begin_close
begin_close_missed w s c h = ground arith
