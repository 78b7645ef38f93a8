-- ===== src/Worker/Shutdown.antt =====
-- internal/worker/pool.go: Shutdown, while the workers go on. An action is an atomic step of a worker
-- or of Shutdown; Dispatch of the pool is an `offers` of the worker that it picks.
pub mod Stopped
pub mod Rounds
pub mod Ending
use goxo.Base.{
  ℕ, suc, Bool, true, false, Option, none, some, List, [], ◌∷◌, if◌then◌else◌, get_elem?,
}
use goxo.Worker.State.{Worker}
use goxo.Worker.Steps.{Action, step}
use goxo.Worker.Process.{begin_close, kill}
use goxo.Worker.Pool.{Pool, workers, set}

-- Where the caller of Shutdown stands.
pub data Phase : Type 0 where
  serving : Phase  -- Shutdown is not called yet
  asking : ℕ → Phase  -- the first loop, at that worker
  waiting : ℕ → Phase  -- the second loop, in the select
  killing : ℕ → Phase  -- the second loop, past the kill, waiting for stoppedCh
  over : Phase  -- Shutdown has returned

-- `expired` is whether the grace period is over.
pub record Serving : Type 0 where
  pub workers : List Worker
  pub phase : Phase
  pub expired : Bool

pub data PoolAction : Type 0 where
  acts : ℕ → Action → PoolAction  -- a worker's own step
  shuts_down : PoolAction  -- Shutdown is called
  asks : PoolAction  -- a round of the first loop, or its end
  expires : PoolAction  -- the grace period ends
  awaits : PoolAction  -- stoppedCh is closed, or the second loop ends
  overruns : PoolAction  -- the select sees that the grace period has ended

-- A round of the first loop.
unfoldable pub ask : ℕ → Serving → Serving
ask i c = elim (get_elem? c.workers i) [
  | none ↦ record c { phase = waiting 0 }
  | some w ↦ record c { workers = set c.workers i begin_close; phase = asking (suc i) }
]

-- `<-w.stoppedCh`, in the select or past the kill, or the end of the loop.
unfoldable pub await : ℕ → Serving → Serving
await i c = elim (get_elem? c.workers i) [
  | none ↦ record c { phase = over }
  | some w ↦ if w.stopped then record c { phase = waiting (suc i) } else c
]

-- `<-ctx.Done()`
unfoldable pub overrun : ℕ → Serving → Serving
overrun i c = elim (get_elem? c.workers i) [
  | none ↦ c
  | some w ↦ if c.expired then record c { workers = set c.workers i kill; phase = killing i } else c
]

-- What Shutdown does, where it stands.
unfoldable pub shutdown : PoolAction → Phase → Serving → Serving
unfolding ask await overrun
shutdown shuts_down serving c = record c { phase = asking 0 }
shutdown asks (asking i) c = ask i c
shutdown expires (waiting i) c = record c { expired = true }
shutdown expires (killing i) c = record c { expired = true }
shutdown awaits (waiting i) c = await i c
shutdown awaits (killing i) c = await i c
shutdown overruns (waiting i) c = overrun i c
shutdown _ _ c = c

unfoldable pub pool_step : PoolAction → Serving → Serving
unfolding shutdown
pool_step (acts i a) c = record c { workers = set c.workers i (step a) }
pool_step a c = shutdown a c.phase c

unfoldable pub pool_run : List PoolAction → Serving → Serving
unfolding pool_step
pool_run [] c = c
pool_run (a ∷ rest) c = pool_run rest (pool_step a c)

unfoldable pub start : Pool → Serving
start p = record { workers = workers p; phase = serving; expired = false }
