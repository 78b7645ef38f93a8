-- ===== src/Tests/Emits.antt =====
-- An emit of a handler in the engine at work.
use goxo.Base.{◌≢◌, ◌≡◌, refl, ◌⊎◌, true, none, some, get_elem?, List, [], ◌∷◌, All, map}
use goxo.Base.Dict.{lookup, insert, delete}
use goxo.Base.Int.{pos}
use goxo.Base.Text.{Str, bytes}
use goxo.Json.{end}
use goxo.Bus.Control.{unwrap, control_dict}
use goxo.Bus.Routing.{selector_from_routing_key, last_index}
use goxo.Bus.Transport.{AmqpDelivery}
use goxo.Note.{Emit}
use goxo.Note.Wire.{emit}
use goxo.Engine.Admit.{admit, accept}
use goxo.Engine.Handling.{Engine}
use goxo.Engine.System.{
  System, SystemAction, comes, looks, places, leaves, works, at_start, system_run,
}
use goxo.Engine.System.Published.{Behind, Relays, published_admitted}
use goxo.Worker.State.{reading, Worker, Published, new_worker}
use goxo.Worker.Messages.{shutting_down, free_slot, offer}
use goxo.Worker.Process.{declared, send_note, publish}
use goxo.Worker.Steps.{step, spawns, reads, publishes, queues}
use goxo.Worker.Pool.{Pool, new_pool}
use goxo.Tests.Samples
use goxo.Tests.Routes.{sample_base64, sample_coder, key}

abbrev engine : Engine
engine = record { agent = bytes "b"; cyclic = 1; depth = 8; accepted = bytes "a" ∷ [] }

abbrev message : AmqpDelivery
message = record { tag = 3; routing_key = key; headers = end; body = bytes "x" }

-- An answer to message 1.
abbrev answer : Emit
answer = record {
  type = bytes "emit";
  id = 1;
  deliver = 1;
  selector = bytes "v3.out";
  fields = end;
}

-- Another, on a selector that is no output.
abbrev stray : Emit
stray = record { type = bytes "emit"; id = 2; deliver = 1; selector = bytes "v3.in"; fields = end }

abbrev afternoon : List SystemAction
afternoon =
    works 0 (spawns none)
    ∷ comes message
    ∷ looks
    ∷ places
    ∷ works 0 queues
    ∷ leaves
    ∷ works 0 (reads (emit answer))
    ∷ works 0 (publishes none)
    ∷ works 0 (reads (emit stray))
    ∷ works 0 (publishes none)
    ∷ []

abbrev small_pool : Pool
small_pool = new_pool Samples.sample_config (pos 1) (pos 2)

abbrev evening : System
evening = system_run sample_base64 sample_coder engine afternoon (at_start small_pool)

abbrev published : List Published
published =
    record { chain = bytes "up" ∷ bytes "a" ∷ []; selector = bytes "v3.out"; fields = end } ∷ []

published_lem : map (λ w. w.published) evening.serving.workers ≡ published ∷ []
unfolding system_run at_start new_pool unwrap control_dict selector_from_routing_key last_index
    admit shutting_down step free_slot send_note offer lookup insert delete publish declared
published_lem = refl

abbrev first_of : List Worker → Worker
first_of [] = new_worker Samples.sample_config (pos 2)
first_of (w ∷ ws) = w

abbrev only_worker : Worker
only_worker = first_of evening.serving.workers

only_worker_lem : get_elem? evening.serving.workers 0 ≡ some only_worker
unfolding system_run at_start new_pool unwrap control_dict selector_from_routing_key last_index
    admit shutting_down step free_slot send_note offer lookup insert delete publish declared
only_worker_lem = refl

published_admitted_example :
    (only_worker.cfg.outputs ≡ Samples.sample_config.outputs)
    × All
        (λ p.
          (declared Samples.sample_config.outputs p.selector ≡ true)
          × (admit p.chain engine.agent engine.cyclic engine.depth engine.accepted ≡ accept))
        only_worker.published
    × ((only_worker.sup ≢ reading 0)
        ⊎ ((chain : List Str) × Behind engine answer only_worker chain
            × Relays only_worker answer none chain))
published_admitted_example =
    published_admitted sample_base64 sample_coder engine Samples.sample_config (pos 1) (pos 2)
      afternoon 0 only_worker 0 answer none only_worker_lem
