-- ===== src/Worker/State.antt =====
-- internal/worker/worker.go: the state of one worker, with what its goroutines are about to do.
use goxo.Base.{ℕ, Bool, false, Option, none, List, [], if◌then◌else◌}
use goxo.Base.Int.{ℤ, pos, ltb_ℤ, pos_part}
use goxo.Base.Dict.{Dict}
use goxo.Base.Text.{Str}
use goxo.Json.{Fields}
use goxo.Note.{Identity, Meta, Deliver, EmitAck, Emit}
use goxo.Note.Wire.{EngineNote}

-- A message to hand to a worker. Its callbacks Ack, Nack and Requeue are known by `tag`.
pub record Delivery : Type 0 where
  pub selector : Str
  pub fields : Fields  -- the source's `Data`
  pub chain : List Str
  pub meta : Meta
  pub tag : ℕ

pub record Config : Type 0 where
  pub command : List Str
  pub env : List Str
  pub identity : Identity
  pub config : Fields
  pub inputs : List Str
  pub outputs : List Str
  pub protocol : ℤ
  pub timeout : ℤ

pub data Outcome : Type 0 where
  ack nack requeue : Outcome

-- A callback of a message: what a goroutine owes it, or has called.
pub record Settle : Type 0 where
  pub tag : ℕ
  pub outcome : Outcome

-- `timer` says that a timeout is armed.
pub record Inflight : Type 0 where
  pub chain : List Str
  pub tag : ℕ
  pub picked : Bool
  pub timer : Bool

pub data OutNote : Type 0 where
  deliver : Deliver → OutNote
  emit_ack : EmitAck → OutNote

-- A handler process: the queue of its writer, the `stop` channel, and the notes on its stdin so far.
pub record Proc : Type 0 where
  pub out : List OutNote
  pub stop : Bool
  pub stdin : List EngineNote
  pub stdin_closed : Bool
  pub killed : Bool

-- Where the supervisor goroutine stands in `run`; `g` is its process.
pub data Supervisor : Type 0 where
  spawning : Supervisor
  backoff : Supervisor  -- in sleepCtx
  reading : (g : ℕ) → Supervisor
  publishing : (g : ℕ) (chain : List Str) (e : Emit) → Supervisor  -- in onEmit, the chain looked up
  answering : (g : ℕ) (s : Settle) → Supervisor  -- in onDone, past the lock
  reaping : (g : ℕ) → Supervisor  -- the read loop has returned, and stop is requested
  settling : (stale : List Settle) (last : Bool) → Supervisor  -- `last` is the source's `closing`
  finished : Supervisor

-- Where the one caller of Dispatch stands.
pub data Dispatcher : Type 0 where
  ready : Dispatcher
  sending : (g id : ℕ) (d : Delivery) → Dispatcher  -- registered, in p.send
  returning : (s : Settle) → Dispatcher  -- reclaimed, about to call Requeue

pub record Published : Type 0 where
  pub chain : List Str
  pub selector : Str
  pub fields : Fields

-- `cancelled` is the context's state, `fired` the timers that own a message and have yet to call its
-- Nack. `calls`, `accepted` and `published` record what has happened: the callbacks that were
-- called, the messages that Dispatch has taken, and what was handed to the bus.
pub record Worker : Type 0 where
  pub cfg : Config
  pub cap : ℕ
  pub cur : Option ℕ
  pub msgs : Dict ℕ Inflight
  pub next_id : ℕ
  pub closing : Bool
  pub stopped : Bool
  pub cancelled : Bool
  pub procs : ℕ → Proc
  pub spawned : ℕ
  pub sup : Supervisor
  pub disp : Dispatcher
  pub fired : List Settle
  pub calls : List Settle
  pub accepted : List ℕ
  pub published : List Published

abbrev pub no_proc : Proc
no_proc = record { out = []; stop = false; stdin = []; stdin_closed = false; killed = false }

-- newWorker; the supervisor is about to run.
unfoldable pub new_worker : Config → ℤ → Worker
new_worker cfg capacity = record {
  cfg = cfg;
  cap = if ltb_ℤ capacity (pos 1) then 1 else pos_part capacity;
  cur = none;
  msgs = [];
  next_id = 1;
  closing = false;
  stopped = false;
  cancelled = false;
  procs = λ _. no_proc;
  spawned = 0;
  sup = spawning;
  disp = ready;
  fired = [];
  calls = [];
  accepted = [];
  published = [];
}
