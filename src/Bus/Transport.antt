-- ===== src/Bus/Transport.antt =====
-- internal/bus/bus.go: configuration, set-up, the consumer loop, settlement and publishing. The AMQP
-- channel is seen through the calls made on it; what each call answers is a parameter.
use goxo.Base.{
  ℕ, Bool, true, false, Option, none, some, List, [], ◌∷◌, ◌++◌, map, if◌then◌else◌, ◌==◌, Result,
  ok, err, ◌>>=◌, map_err,
}
use goxo.Base.Int.{ℤ, pos, ltb_ℤ}
use goxo.Base.Text.{Str, str_Eq, bytes}
use goxo.Json.{Fields}
use goxo.Bus.Routing.{selector_from_routing_key, message_id_from_routing_key, new_id}
use goxo.Bus.Control.{
  Coder, Base64, BusError, encode_data, generate_id, publish_failed, wrap, unwrap,
}

pub record Config : Type 0 where
  pub url : Str
  pub exchange : Str
  pub agent : Str
  pub service : Str
  pub inputs : List Str
  pub prefetch : ℤ

unfoldable pub queue_name : Config → Str
queue_name cfg = (if cfg.service == [] then cfg.agent else cfg.service) ++ bytes "_queue"

-- An amqp.Delivery; `tag` stands for the message on its channel, which its settlement names.
pub record AmqpDelivery : Type 0 where
  pub tag : ℕ
  pub routing_key : Str
  pub headers : Fields
  pub body : Str

-- The calls on the AMQP channel and connection.
pub data Call : Type 0 where
  exchange_declare :
      (name kind : Str) (durable auto_delete internal no_wait : Bool) (max_length : ℕ)
      (overflow : Str)
      → Call
  queue_declare : (name : Str) (durable auto_delete exclusive no_wait : Bool) → Call
  qos : (count size : ℤ) (global : Bool) → Call
  queue_bind : (queue key exchange : Str) → Call
  ack : (tag : ℕ) (multiple : Bool) → Call
  nack : (tag : ℕ) (multiple requeue : Bool) → Call
  publish : (exchange key : Str) (mandatory immediate persistent : Bool) (body : Str) → Call
  consume_queue : (queue : Str) → Call
  dial : (url : Str) → Call
  open_channel close_channel close_connection : Call

-- The settlement methods of Bus, and the closures that a Delivery carries.
pub data Settlement : Type 0 where
  acked nacked requeued : Settlement

unfoldable pub settle_call : ℕ → Settlement → Call
settle_call tag acked = ack tag false
settle_call tag nacked = nack tag false false
settle_call tag requeued = nack tag false true

-- The three closures are bound to `tag`.
pub record Delivery : Type 0 where
  pub selector : Str
  pub fields : Fields  -- the source's `Data`
  pub chain : List Str
  pub message_id : Str
  pub headers : Fields
  pub tag : ℕ

-- What dispatch does with one AMQP message: it settles it, or calls `handle`.
pub data Dispatched : Type 0 where
  settled : Call → Dispatched
  handled : Delivery → Dispatched

module _ {E : Type 0} (b : Base64) (c : Coder E) where
  unfoldable pub dispatch : AmqpDelivery → Dispatched
  unfolding settle_call
  dispatch d =
      let selector = selector_from_routing_key d.routing_key in
      elim (unwrap b c d.body) [
        | err _ ↦ settled (settle_call d.tag nacked)
        | ok (agents, inner) ↦ elim (c.decode selector inner) [
          | err _ ↦ settled (settle_call d.tag nacked)
          | ok fields ↦ handled (record {
            selector = selector;
            fields = fields;
            chain = agents;
            message_id = message_id_from_routing_key d.routing_key;
            headers = d.headers;
            tag = d.tag;
          })
        ]
      ]

  -- buildPublishing: the routing key and the message's body. `random` is rand.Read's answer.
  unfoldable pub build_publishing :
      Config → Result Str Str → List Str → Str → Fields → Result (BusError E) (Str × Str)
  build_publishing cfg random chain selector fields = do
    inner ← map_err encode_data (c.encode selector fields)
    body ← wrap b c (chain ++ (cfg.agent ∷ [])) inner
    id ← map_err generate_id (new_id random)
    ok (selector ++ (bytes "." ++ id), body)

  -- Publish: the call made, if any, and the error. `answer` is what the channel answers.
  unfoldable pub publish_emit :
      Config
      → Result Str Str
      → (Call → Option Str)
      → List Str
      → Str
      → Fields
      → List Call × Option (BusError E)
  publish_emit cfg random answer chain selector fields =
      elim (build_publishing cfg random chain selector fields) [
        | err e ↦ ([], some e)
        | ok (key, body) ↦
            let call = publish cfg.exchange key false false true body in
            (call ∷ [], elim (answer call) [ none ↦ none | some e ↦ some (publish_failed e) ])
      ]

-- One round of the `select` in Consume.
pub data Event : Type 0 where
  done : Event
  delivered : AmqpDelivery → Event
  closed : Event

pub data ConsumeEnd : Type 0 where
  cancelled channel_closed : ConsumeEnd
  consume_failed : Str → ConsumeEnd

-- The loop of Consume over what the channel and the context offer. Events behind the one that ends
-- it are not looked at; with none left it waits.
unfoldable pub consume_loop :
    (AmqpDelivery → Dispatched) → List Event → List Dispatched × Option ConsumeEnd
consume_loop handle [] = ([], none)
consume_loop handle (done ∷ es) = ([], some cancelled)
consume_loop handle (closed ∷ es) = ([], some channel_closed)
consume_loop handle (delivered d ∷ es) =
    let rest = consume_loop handle es in (handle d ∷ rest.0, rest.1)

unfoldable pub consume :
    (Call → Option Str)
    → Config
    → (AmqpDelivery → Dispatched)
    → List Event
    → List Dispatched × Option ConsumeEnd
unfolding consume_loop queue_name
consume answer cfg handle es = elim (answer (consume_queue (queue_name cfg))) [
  | some e ↦ ([], some (consume_failed e))
  | none ↦ consume_loop handle es
]

-- `a(); if err != nil { return }; b(); …`: the calls made, and the first error with its call.
unfoldable pub in_turn : (Call → Option Str) → List Call → List Call × Option (Call × Str)
in_turn answer [] = ([], none)
in_turn answer (c ∷ cs) =
    let (made, e) = in_turn answer cs in
    elim (answer c) [ some e' ↦ (c ∷ [], some (c, e')) | none ↦ (c ∷ made, e) ]

unfoldable pub bindings : Config → List Call
bindings cfg = map (λ sel. queue_bind (queue_name cfg) (sel ++ bytes ".#") cfg.exchange) cfg.inputs

unfoldable pub setup_calls : Config → List Call
unfolding bindings queue_name
setup_calls cfg =
    exchange_declare cfg.exchange (bytes "topic") false false false false 10000
      (bytes "reject-publish")
    ∷ queue_declare (queue_name cfg) true false false false
    ∷ qos (if ltb_ℤ cfg.prefetch (pos 1) then pos 1 else cfg.prefetch) (pos 0) false
    ∷ bindings cfg

unfoldable pub setup : (Call → Option Str) → Config → List Call × Option (Call × Str)
unfolding setup_calls in_turn
setup answer cfg = in_turn answer (setup_calls cfg)

-- Close of a bus with both a channel and a connection: the calls, and the first error.
unfoldable pub close : (Call → Option Str) → List Call × Option Str
close answer = (
  close_channel ∷ close_connection ∷ [],
  elim (answer close_channel) [ some e ↦ some e | none ↦ answer close_connection ],
)

-- The end of Connect: a failed set-up closes channel and connection.
unfoldable pub set_up :
    (Call → Option Str) → List Call × Option (Call × Str) → List Call × Option (Call × Str)
unfolding close
set_up answer (made, none) = (made, none)
set_up answer (made, some x) = (made ++ (close answer).0, some x)

unfoldable pub connect : (Call → Option Str) → Config → List Call × Option (Call × Str)
unfolding setup set_up
connect answer cfg = elim (answer (dial cfg.url)) [
  | some e ↦ (dial cfg.url ∷ [], some (dial cfg.url, e))
  | none ↦ elim (answer open_channel) [
    | some e ↦ (dial cfg.url ∷ open_channel ∷ close_connection ∷ [], some (open_channel, e))
    | none ↦ let r = set_up answer (setup answer cfg) in (dial cfg.url ∷ open_channel ∷ r.0, r.1)
  ]
]
