-- ===== src/Tests/Engine.antt =====
-- internal/engine and internal/bus together: one AMQP message, and the window of a pool of 2 by 4.
use goxo.Base.{◌≡◌, refl, ◌≢◌, ◌⊎◌, arith, [], ◌∷◌, false, List, ok}
use goxo.Base.Int.{pos}
use goxo.Base.Text.{bytes, Str}
use goxo.Json.{end, Fields}
use goxo.Manifest.{Manifest}
use goxo.Settings.{Settings}
use goxo.Bus.Routing.{selector_from_routing_key, message_id_from_routing_key}
use goxo.Bus.Transport.{AmqpDelivery, ack, nack}
use goxo.Worker.State
use goxo.Worker.Pool.{new_pool, workers}
use goxo.Engine.Admit.{Reason, accept, reject, admit}
use goxo.Engine.Assembly.{Params, bus_config}
use goxo.Engine.Handling.{
  Engine, dropped, offered, on_message, on_message_cases, total_cap, prefetch-new_pool,
}
use goxo.Bus.Control.{unwrap}
use goxo.Tests.Samples
use goxo.Tests.Routes.{sample_base64, sample_coder, key}

abbrev engine : Engine
engine = record { agent = bytes "b"; cyclic = 1; depth = 8; accepted = [] }

abbrev arrived : AmqpDelivery
arrived = record { tag = 3; routing_key = key; headers = end; body = bytes "x" }

on_message_cases_example :
    ((on_message sample_base64 sample_coder engine arrived ≡ dropped (nack 3 false false))
      × ((agents : List Str) (inner : Str) (fields : Fields)
          → unwrap sample_base64 sample_coder (bytes "x") ≡ ok (agents, inner)
          → sample_coder.decode (selector_from_routing_key key) inner ≢ ok fields))
    ⊎ (((agents : List Str) × (inner : Str) × (fields : Fields) × (r : Reason) × (unwrap
              sample_base64 sample_coder
              (bytes "x")
            ≡ ok (agents, inner))
          × (sample_coder.decode (selector_from_routing_key key) inner ≡ ok fields)
          × (admit agents (bytes "b") 1 8 [] ≡ reject r)
          × (on_message sample_base64 sample_coder engine arrived ≡ dropped (ack 3 false)))
        ⊎ ((agents : List Str) × (inner : Str) × (o : State.Delivery) × (unwrap sample_base64
                sample_coder
                (bytes "x")
              ≡ ok (agents, inner))
            × (sample_coder.decode (selector_from_routing_key key) inner ≡ ok o.fields)
            × (admit agents (bytes "b") 1 8 [] ≡ accept)
            × (on_message sample_base64 sample_coder engine arrived ≡ offered o)
            × (o.tag ≡ 3)
            × (o.chain ≡ agents)
            × (o.selector ≡ selector_from_routing_key key)
            × (o.meta.message_id ≡ message_id_from_routing_key key)))
on_message_cases_example = on_message_cases sample_base64 sample_coder engine arrived

abbrev pub sample_manifest : Manifest
sample_manifest = record { name = bytes "a"; in_selectors = []; out_selectors = []; args = [] }

abbrev pub sample_settings : Settings
sample_settings = record {
  key = bytes "k";
  bus_url = bytes "amqp://bus";
  bus_exchange_topic = bytes "oxo";
  args = [];
  redis_url = [];
  healthcheck_host = [];
  healthcheck_port = 0;
  cyclic_processing_limit = 0;
  depth_processing_limit = 0;
  accepted_agents = [];
  in_selectors = [];
  service_name = [];
}

abbrev pub params : Params
params = record {
  handler = bytes "handler" ∷ [];
  fdset_path = [];
  universe = [];
  timeout = pos 0;
  pool_size = pos 2;
  worker_cap = pos 4;
  shutdown_grace = pos 0;
}

prefetch-new_pool_example :
    (bus_config sample_manifest sample_settings params).prefetch
    ≡ pos (total_cap (workers (new_pool Samples.sample_config (pos 2) (pos 4))))
prefetch-new_pool_example =
    prefetch-new_pool sample_manifest sample_settings params Samples.sample_config 1 3 refl refl
      (omega arith)
