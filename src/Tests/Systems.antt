-- ===== src/Tests/Systems.antt =====
-- The engine from the arrival of a message to the end of its pool.
use goxo.Base.{
  ℕ, ◌+◌, ◌-◌, ◌^◌, ◌<◌, ◌≤◌, ◌≡◌, ◌⊎◌, refl, ap, arith, false, none, List, [], ◌∷◌, ◌++◌, length,
}
use goxo.Base.Dict.{lookup, insert, delete}
use goxo.Base.Int.{pos}
use goxo.Base.Text.{bytes}
use goxo.Json.{end}
use goxo.Bus.Control.{unwrap, control_dict}
use goxo.Bus.Routing.{selector_from_routing_key, last_index}
use goxo.Bus.Transport.{AmqpDelivery, ack, settle_call}
use goxo.Note.Wire.{done, pickup}
use goxo.Engine.Admit.{admit}
use goxo.Engine.Handling.{Engine, settlement_of}
use goxo.Engine.System.{
  System, SystemAction, comes, looks, places, leaves, stops, closes, works, at_start, system_run,
}
use goxo.Engine.System.Counts.{settles, in_hand, sum_of, amqp_calls}
use goxo.Engine.System.Drain.{arrived_drains}
use goxo.Engine.System.Leaving.{Cancelled}
use goxo.Engine.System.Account.{arrived_accounted, arrived_settled}
use goxo.Worker.Messages.{shutting_down, free_slot, offer}
use goxo.Worker.Process.{send_note, write, begin_close}
use goxo.Worker.Steps.{step, spawns, reads, answers, read_ends, reaps, goes_on, queues, writes}
use goxo.Worker.Invariant.{times, tally, owing}
use goxo.Worker.Pool.{Pool, new_pool}
use goxo.Worker.Shutdown.{shuts_down, asks, awaits, over}
use goxo.Tests.Samples
use goxo.Tests.Routes.{sample_base64, sample_coder, key}

abbrev engine : Engine
engine = record { agent = bytes "b"; cyclic = 1; depth = 8; accepted = bytes "a" ∷ [] }

abbrev message : ℕ → AmqpDelivery
message tag = record { tag = tag; routing_key = key; headers = end; body = bytes "x" }

abbrev whole_day : List SystemAction
whole_day =
    works 0 (spawns none)
    ∷ works 0 (writes 0)
    ∷ comes (message 3)
    ∷ looks
    ∷ places
    ∷ works 0 queues
    ∷ leaves
    ∷ works 0 (writes 0)
    ∷ works 0 (reads (pickup (record { type = bytes "pickup"; id = 1 })))
    ∷ stops
    ∷ closes shuts_down
    ∷ closes asks
    ∷ closes asks
    ∷ works 0
        (reads (done (record { type = bytes "done"; id = 1; status = bytes "ok"; error = [] })))
    ∷ works 0 answers
    ∷ works 0 read_ends
    ∷ works 0 reaps
    ∷ works 0 goes_on
    ∷ closes awaits
    ∷ closes awaits
    ∷ []

abbrev small_pool : Pool
small_pool = new_pool Samples.sample_config (pos 1) (pos 2)

abbrev evening : System
evening = system_run sample_base64 sample_coder engine whole_day (at_start small_pool)

evening_phase : evening.serving.phase ≡ over
unfolding system_run at_start new_pool unwrap control_dict selector_from_routing_key last_index
    admit shutting_down step write free_slot send_note offer begin_close lookup insert delete
evening_phase = refl

evening_arrived : evening.arrived ≡ 3 ∷ []
unfolding system_run at_start new_pool unwrap control_dict selector_from_routing_key last_index
    admit shutting_down step write free_slot send_note offer begin_close lookup insert delete
evening_arrived = refl

evening_calls : amqp_calls evening ≡ ack 3 false ∷ []
unfolding system_run at_start new_pool unwrap control_dict selector_from_routing_key last_index
    admit shutting_down step write free_slot send_note offer begin_close lookup insert delete
    settle_call settlement_of
evening_calls = refl

evening_few : length evening.arrived < 2 ^ 64 - 1
evening_few = omega (arith, ap (λ l. length l) evening_arrived)

arrived_accounted_example :
    (times 3 evening.arrived
      ≡ settles 3 (amqp_calls evening)
        + in_hand 3 evening.consumer
        + sum_of (λ w. owing 3 w) evening.serving.workers
        + times 3 evening.left)
    × ((evening.left ≡ []) ⊎ Cancelled evening)
arrived_accounted_example =
    arrived_accounted sample_base64 sample_coder engine Samples.sample_config (pos 1) (pos 2)
      whole_day 3 evening_few

arrived_settled_example :
    (times 3 evening.arrived
      ≡ settles 3 (amqp_calls evening)
        + sum_of (λ w. tally 3 w.fired) evening.serving.workers
        + times 3 evening.left)
    × ((evening.left ≡ []) ⊎ Cancelled evening)
arrived_settled_example =
    arrived_settled sample_base64 sample_coder engine Samples.sample_config (pos 1) (pos 2)
      whole_day 3 evening_few evening_phase

-- A message is in the in-flight map, and Dispatch is about to queue its note.
abbrev morning : List SystemAction
morning = works 0 (spawns none) ∷ works 0 (writes 0) ∷ comes (message 3) ∷ looks ∷ places ∷ []

abbrev noon : System
noon = system_run sample_base64 sample_coder engine morning (at_start small_pool)

noon_arrived : noon.arrived ≡ 3 ∷ []
unfolding system_run at_start new_pool unwrap control_dict selector_from_routing_key last_index
    admit shutting_down step write free_slot send_note offer begin_close lookup insert delete
noon_arrived = refl

noon_left : noon.left ≡ []
unfolding system_run at_start new_pool unwrap control_dict selector_from_routing_key last_index
    admit shutting_down step write free_slot send_note offer begin_close lookup insert delete
noon_left = refl

arrived_drains_example :
    (more : List SystemAction) × (let t =
        system_run sample_base64 sample_coder engine (morning ++ more) (at_start small_pool) in
      (t.serving.phase ≡ over)
      × (t.arrived ≡ noon.arrived)
      × ((tag : ℕ) → times tag noon.arrived ≡ settles tag (amqp_calls t) + times tag t.left)
      × ((tag : ℕ) → times tag t.left ≤ times tag noon.left + in_hand tag noon.consumer)
      × ((noon.left ≡ []) ⊎ Cancelled noon))
arrived_drains_example =
    arrived_drains sample_base64 sample_coder engine Samples.sample_config (pos 1) (pos 2) morning
      (omega (arith, ap (λ l. length l) noon_arrived))
