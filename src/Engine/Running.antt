-- ===== src/Engine/Running.antt =====
-- internal/engine/engine.go: loadCodec, and Run with what it opens and closes.
use goxo.Base.{
  Option, none, some, List, [], ◌∷◌, ◌++◌, Result, ok, err, ◌>>=◌, map_err, if◌then◌else◌, ◌==◌,
}
use goxo.Base.Int.{ℤ}
use goxo.Base.Text.{Str, str_Eq}
use goxo.Json.{Value}
use goxo.Go.Files.{FileError}
use goxo.Manifest.{Manifest}
use goxo.Settings.{Settings}
use goxo.Codec.{Protobuf, CodecError, Codec, new_registry, new}
use goxo.Bus.Transport
use goxo.Bus.Transport.{
  Call, AmqpDelivery, Dispatched, ConsumeEnd, cancelled, channel_closed, consume_failed, connect,
  consume,
}
use goxo.Engine.Assembly.{Params, ArgError, in_selectors, bus_config, worker_config}
use goxo.Health.{health_addr}

pub data CodecLoadError : Type 0 where
  read_descriptors : FileError → CodecLoadError
  registry : CodecError → CodecLoadError

unfoldable pub load_codec :
    (p : Protobuf) → (Str → Result FileError Str) → Str → Result CodecLoadError (Codec p)
load_codec p read_file path = do
  fdset ← map_err read_descriptors (read_file path)
  reg ← map_err registry (new_registry p fdset)
  ok (new p reg)

-- What Run holds while it runs.
pub data Resource : Type 0 where
  bus : Resource
  health : (addr : Str) → Resource
  signals : Resource
  pool : (grace : ℤ) → Resource

pub data Event : Type 0 where
  opened : Resource → Event
  closed : Resource → Event
  consuming : List Dispatched → Event  -- what Consume did with the messages that came

pub data RunError : Type 0 where
  no_name no_handler no_descriptors : RunError
  codec : CodecLoadError → RunError
  args : ArgError → RunError
  connecting : (call : Call) (error : Str) → RunError
  listening : Str → RunError
  consumer : ConsumeEnd → RunError

-- Run has returned, or is still in Consume.
pub data Exit : Type 0 where
  returned : Option RunError → Exit
  running : Exit

-- `if errors.Is(err, context.Canceled) { return nil }`
unfoldable pub consume_exit : Option ConsumeEnd → Exit
consume_exit none = running
consume_exit (some cancelled) = returned none
consume_exit (some channel_closed) = returned (some (consumer channel_closed))
consume_exit (some (consume_failed e)) = returned (some (consumer (consume_failed e)))

-- `open …; defer close …`, and what follows. The deferred call waits for the return.
unfoldable pub deferring : Resource → List Event × Exit → List Event × Exit
deferring r (events, running) = (opened r ∷ events, running)
deferring r (events, returned e) = (opened r ∷ (events ++ (closed r ∷ [])), returned e)

-- What the run meets: the codec that was loaded, the answers of the AMQP library, the listener, the
-- message handler, and what comes to the consumer.
pub record World : Type 0 where
  pub unmarshal : Str → Result Str Value
  pub answer : Call → Option Str
  pub listen : Str → Option Str
  pub handle : AmqpDelivery → Dispatched
  pub arriving : List Transport.Event

-- Behind the pool's start.
unfoldable pub consume_inputs : World → Manifest → Settings → Params → List Event × Exit
unfolding consume_exit
consume_inputs world m s p = elim (in_selectors s m) [
  | [] ↦ ([], returned none)
  | _ ∷ _ ↦
      let (done, end) = consume world.answer (bus_config m s p) world.handle world.arriving in
      (consuming done ∷ [], consume_exit end)
]

-- Behind the bus's connection.
unfoldable pub serve : World → Manifest → Settings → Params → List Event × Exit
unfolding consume_inputs deferring
serve world m s p = elim (world.listen (health_addr s)) [
  | some e ↦ ([], returned (some (listening e)))
  | none ↦
      deferring (health (health_addr s))
        (deferring signals (deferring (pool p.shutdown_grace) (consume_inputs world m s p)))
]

unfoldable pub open_bus : World → Manifest → Settings → Params → List Event × Exit
unfolding serve
open_bus world m s p = elim (connect world.answer (bus_config m s p)).1 [
  | some (call, e) ↦ ([], returned (some (connecting call e)))
  | none ↦ deferring bus (serve world m s p)
]

-- The checks at the head of Run, then the codec and the worker's configuration. `loaded` is what
-- loadCodec returned.
unfoldable pub run :
    {C : Type 0}
    → World
    → Result CodecLoadError C
    → Manifest
    → Settings
    → Params
    → List Event × Exit
unfolding open_bus
run world loaded m s p = if m.name == [] then ([], returned (some no_name)) else elim p.handler [
  | [] ↦ ([], returned (some no_handler))
  | _ ∷ _ ↦ if p.fdset_path == [] then ([], returned (some no_descriptors)) else elim loaded [
    | err e ↦ ([], returned (some (codec e)))
    | ok _ ↦ elim (worker_config world.unmarshal m s p) [
      | err e ↦ ([], returned (some (args e)))
      | ok _ ↦ open_bus world m s p
    ]
  ]
]
