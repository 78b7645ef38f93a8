-- ===== src/Engine/System.antt =====
-- The engine at work: internal/engine/engine.go's handler of messages in the consumer of
-- internal/bus/bus.go, over the pool of internal/worker. The consumer is one goroutine: it takes a
-- message, drops it or looks for the least loaded worker, and stays in that worker's Dispatch until
-- Dispatch returns. The workers go on meanwhile; when Consume has returned, Run shuts the pool down.
pub mod Counts
pub mod Quiet
pub mod Sound
pub mod Turns
pub mod Balance
pub mod Account
pub mod Every
pub mod Leaving
pub mod Handed
pub mod Range
pub mod Closing
pub mod Drain
pub mod Published
use goxo.Base.{
  ℕ, zero, suc, Bool, true, false, none, some, List, [], ◌∷◌, length, ltb, if◌then◌else◌, get_elem?,
}
use goxo.Bus.Control.{Base64, Coder}
use goxo.Bus.Transport.{AmqpDelivery, Call}
use goxo.Engine.Handling.{Engine, Handled, dropped, offered, on_message}
use goxo.Worker.State.{Delivery, ready}
use goxo.Worker.Messages.{shutting_down, free_slot}
use goxo.Worker.Pool.{Pool, outstanding}
use goxo.Worker.Steps
use goxo.Worker.Steps.{offers, cancels, own}
use goxo.Worker.Shutdown.{PoolAction, acts, Serving, shutdown, pool_step, start}

-- Where the consumer's goroutine stands.
pub data Consumer : Type 0 where
  selecting : Consumer  -- in the select of Consume
  choosing : (best load next : ℕ) (d : Delivery) → Consumer  -- in the loop of leastLoaded
  placing : (i : ℕ) (d : Delivery) → Consumer  -- in a worker's Dispatch, waiting for a slot
  placed : (i : ℕ) → Consumer  -- in a worker's Dispatch, the message registered
  ended : Consumer  -- Consume has returned

-- `arrived` are the tags of the messages that came, `dropped` the calls that the consumer settled
-- messages by, and `left` the tags of those that Dispatch did not take: they are not settled.
pub record System : Type 0 where
  pub serving : Serving
  pub consumer : Consumer
  pub arrived : List ℕ
  pub dropped : List Call
  pub left : List ℕ

pub data SystemAction : Type 0 where
  comes : AmqpDelivery → SystemAction  -- the select gets a message
  looks : SystemAction  -- leastLoaded asks the next worker, or is through
  places : SystemAction  -- Dispatch takes the worker's lock
  leaves : SystemAction  -- Dispatch returns
  stops : SystemAction  -- Consume returns
  closes : PoolAction → SystemAction  -- a step of Shutdown
  interrupts : SystemAction  -- the context, which all workers share, is cancelled
  works : ℕ → Steps.Action → SystemAction  -- a step of a worker's own goroutines

-- The first read of leastLoaded.
unfoldable pub choose : Delivery → System → System
choose d s = elim (get_elem? s.serving.workers 0) [
  | none ↦ s
  | some w ↦ record s { consumer = choosing 0 (outstanding w) 1 d }
]

-- What dispatch and handle make of a message.
unfoldable pub receive : Handled → ℕ → System → System
unfolding choose
receive (dropped call) tag s = record s { arrived = tag ∷ s.arrived; dropped = call ∷ s.dropped }
receive (offered d) tag s = choose d (record s { arrived = tag ∷ s.arrived })

-- A round of leastLoaded.
unfoldable pub look : ℕ → ℕ → ℕ → Delivery → System → System
unfolding outstanding
look best load next d s = elim (get_elem? s.serving.workers next) [
  | none ↦ record s { consumer = placing best d }
  | some w ↦
      if ltb (outstanding w) load
      then record s { consumer = choosing next (outstanding w) (suc next) d }
      else record s { consumer = choosing best load (suc next) d }
]

-- Dispatch under the lock: it gives up while the worker shuts down, waits while no slot is free, and
-- else registers the message. handle does nothing about a message that was given up.
unfoldable pub place : ℕ → Delivery → System → System
unfolding pool_step
place i d s = elim (get_elem? s.serving.workers i) [
  | none ↦ s
  | some w ↦
      if shutting_down w
      then record s { consumer = selecting; left = d.tag ∷ s.left }
      else elim (free_slot w) [
        | none ↦ s
        | some g ↦ record s {
          serving = pool_step (acts i (offers d)) s.serving;
          consumer = placed i;
        }
      ]
]

unfoldable pub leave : ℕ → System → System
leave i s = elim (get_elem? s.serving.workers i) [
  | none ↦ s
  | some w ↦ elim w.disp [ ready ↦ record s { consumer = selecting } | _ ↦ s ]
]

-- The context of all workers is cancelled: of the `n`th from the last on.
unfoldable pub interrupt : ℕ → Serving → Serving
unfolding pool_step
interrupt zero c = c
interrupt (suc n) c = interrupt n (pool_step (acts n cancels) c)

module _ {E : Type 0} (b : Base64) (c : Coder E) (e : Engine) where
  -- The goroutine of Run.
  unfoldable pub consume : SystemAction → Consumer → System → System
  unfolding receive look place leave on_message shutdown
  consume (comes d) selecting s = receive (on_message b c e d) d.tag s
  consume looks (choosing best load next d) s = look best load next d s
  consume places (placing i d) s = place i d s
  consume leaves (placed i) s = leave i s
  consume stops selecting s = record s { consumer = ended }
  consume (closes a) ended s = record s { serving = shutdown a s.serving.phase s.serving }
  consume _ _ s = s

  unfoldable pub system_step : SystemAction → System → System
  unfolding consume interrupt own
  system_step interrupts s = record s { serving = interrupt (length s.serving.workers) s.serving }
  system_step (works i a) s =
      if own a then record s { serving = pool_step (acts i a) s.serving } else s
  system_step a s = consume a s.consumer s

  unfoldable pub system_run : List SystemAction → System → System
  unfolding system_step
  system_run [] s = s
  system_run (a ∷ rest) s = system_run rest (system_step a s)

unfoldable pub at_start : Pool → System
unfolding start
at_start p = record {
  serving = start p;
  consumer = selecting;
  arrived = [];
  dropped = [];
  left = [];
}
