-- ===== src/Tests/Routes.antt =====
-- internal/bus at work: a message that is published and received, and a connection.
use goxo.Base.{
  ◌≡◌, refl, ◌⊎◌, arith, false, Option, none, some, List, [], ◌∷◌, ◌++◌, if◌then◌else◌, Result, ok,
  err, ◌==◌, All, get_elem?,
}
use goxo.Base.Int.{pos}
use goxo.Base.Text.{Str, bytes, str_Eq}
use goxo.Json.{Value, str, Fields, end, field, get}
use goxo.Bus.Routing.{
  dot, hex_digit, new_id, selector_from_routing_key, message_id_from_routing_key,
}
use goxo.Bus.Keys.{DotFree, routing_key_parts, routing_key_whole, IsByte, Group, new_id_shape}
use goxo.Bus.Control.{Coder, Base64, BusError, control_selector, control_dict, wrap, unwrap}
use goxo.Bus.Envelope.{unwrap-wrap}
use goxo.Bus.Transport.{
  Config, AmqpDelivery, Call, dial, open_channel, close_connection, queue_bind, settled, handled,
  nack, dispatch, build_publishing, setup, setup_calls, connect,
}
use goxo.Bus.Deliveries.{dispatch_cases, dispatch-build_publishing}
use goxo.Bus.Setup.{InTurn, setup-InTurn, connect_releases}

abbrev pub sample_base64 : Base64
sample_base64 = record { encode_to_string = λ s. s; decode_string = λ s. ok s }

abbrev text : Option Value → Result Str Str
text (some (str s)) = ok s
text _ = err (bytes "no text")

abbrev agents : List Str
agents = bytes "up" ∷ bytes "a" ∷ []

-- A codec for the envelopes of one chain of agents, and for dicts with one text.
abbrev pub sample_coder : Coder Str
sample_coder = record {
  encode = λ s d.
      if s == control_selector then text (get d (bytes "message")) else text (get d (bytes "p"));
  decode = λ s w.
      if s == control_selector
      then ok (control_dict sample_base64 agents w)
      else ok (field (bytes "p") (str w) end);
}

abbrev sample_config : Config
sample_config = record {
  url = bytes "amqp://bus";
  exchange = bytes "oxo";
  agent = bytes "a";
  service = [];
  inputs = bytes "v3.in" ∷ bytes "v3.out" ∷ [];
  prefetch = pos 4;
}

abbrev selector : Str
selector = bytes "v3.out"

abbrev payload : Fields
payload = field (bytes "p") (str (bytes "x")) end

abbrev random : Result Str Str
random = ok (0 ∷ 1 ∷ 2 ∷ 3 ∷ 4 ∷ 5 ∷ 6 ∷ 7 ∷ 8 ∷ 9 ∷ 10 ∷ 11 ∷ 12 ∷ 13 ∷ 14 ∷ 15 ∷ [])

abbrev pub key : Str
key = bytes "v3.out.00010203-0405-4607-8809-0a0b0c0d0e0f"

published_lem :
    build_publishing sample_base64 sample_coder sample_config random
      (bytes "up" ∷ [])
      selector
      payload
    ≡ ok (key, bytes "x")
unfolding build_publishing get wrap new_id
published_lem = refl

envelope_lem :
    (inner w : Str)
    → sample_coder.encode control_selector (control_dict sample_base64 agents inner) ≡ ok w
    → sample_coder.decode control_selector w ≡ ok (control_dict sample_base64 agents inner)
unfolding control_dict get
envelope_lem inner w h = ground arith

payload_lem :
    (w : Str)
    → sample_coder.encode selector payload ≡ ok w
    → sample_coder.decode selector w ≡ ok payload
unfolding get
payload_lem w h = ground arith

dispatch-build_publishing_example :
    (id : Str) × (key ≡ selector ++ (dot ∷ id))
    × (dispatch sample_base64 sample_coder
          (record { tag = 3; routing_key = key; headers = end; body = bytes "x" })
        ≡ handled (record {
          selector = selector;
          fields = payload;
          chain = agents;
          message_id = id;
          headers = end;
          tag = 3;
        }))
dispatch-build_publishing_example =
    dispatch-build_publishing sample_base64 sample_coder sample_config random (bytes "up" ∷ [])
      selector payload key (bytes "x") 3 end (λ inner. refl) envelope_lem payload_lem published_lem

dispatch_cases_sample :
    let d : AmqpDelivery = record { tag = 3; routing_key = key; headers = end; body = bytes "x" } in
    (((e : BusError Str) × (unwrap sample_base64 sample_coder d.body ≡ err e)
        × (dispatch sample_base64 sample_coder d ≡ settled (nack 3 false false)))
      ⊎ ((agents : List Str) × (inner : Str) × (e : Str) × (unwrap sample_base64 sample_coder d.body
            ≡ ok (agents, inner))
          × (sample_coder.decode (selector_from_routing_key key) inner ≡ err e)
          × (dispatch sample_base64 sample_coder d ≡ settled (nack 3 false false))))
    ⊎ ((agents : List Str) × (inner : Str) × (fields : Fields) × (unwrap sample_base64 sample_coder
            d.body
          ≡ ok (agents, inner))
        × (sample_coder.decode (selector_from_routing_key key) inner ≡ ok fields)
        × (dispatch sample_base64 sample_coder d
            ≡ handled (record {
              selector = selector_from_routing_key key;
              fields = fields;
              chain = agents;
              message_id = message_id_from_routing_key key;
              headers = end;
              tag = 3;
            })))
dispatch_cases_sample =
    dispatch_cases sample_base64 sample_coder
      (record { tag = 3; routing_key = key; headers = end; body = bytes "x" })

wrapped_lem : wrap sample_base64 sample_coder agents (bytes "x") ≡ ok (bytes "x")
unfolding wrap get
wrapped_lem = refl

unwrap-wrap_example : unwrap sample_base64 sample_coder (bytes "x") ≡ ok (agents, bytes "x")
unwrap-wrap_example =
    unwrap-wrap sample_base64 sample_coder agents (bytes "x") (bytes "x") refl
      (envelope_lem (bytes "x")) wrapped_lem

routing_key_parts_example :
    (selector_from_routing_key (bytes "v3.out.id") ≡ bytes "v3.out")
    × (message_id_from_routing_key (bytes "v3.out.id") ≡ bytes "id")
routing_key_parts_example =
    routing_key_parts (bytes "v3.out") (bytes "id") ((λ e. omega arith), ((λ e. omega arith), tt))

routing_key_whole_sample :
    (DotFree key × (selector_from_routing_key key ≡ key) × (message_id_from_routing_key key ≡ []))
    ⊎ ((key ≡ selector_from_routing_key key ++ (dot ∷ message_id_from_routing_key key))
        × DotFree (message_id_from_routing_key key))
routing_key_whole_sample = routing_key_whole key

abbrev below_sixteen : Str
below_sixteen = 0 ∷ 1 ∷ 2 ∷ 3 ∷ 4 ∷ 5 ∷ 6 ∷ 7 ∷ 8 ∷ 9 ∷ 10 ∷ 11 ∷ 12 ∷ 13 ∷ 14 ∷ 15 ∷ []

below_sixteen-IsByte : All IsByte below_sixteen
below_sixteen-IsByte = ground arith

new_id_shape_example :
    (g1 : Str) × (g2 : Str) × (g3 : Str) × (g4 : Str) × (g5 : Str) × (new_id (ok below_sixteen)
      ≡ ok (g1 ++ (b'-' ∷ (g2 ++ (b'-' ∷ (g3 ++ (b'-' ∷ (g4 ++ (b'-' ∷ g5)))))))))
    × Group 8 g1
    × Group 4 g2
    × Group 4 g3
    × Group 4 g4
    × Group 12 g5
    × (get_elem? g3 0 ≡ some b'4')
    × (get_elem? g4 0 ≡ some (hex_digit 8))
new_id_shape_example = new_id_shape 0 1 2 3 4 5 6 7 8 9 10 11 12 13 14 15 below_sixteen-IsByte

-- A broker that refuses the first binding.
abbrev refusing : Call → Option Str
refusing (queue_bind _ _ _) = some (bytes "no such exchange")
refusing _ = none

setup-InTurn_sample : InTurn refusing (setup_calls sample_config) (setup refusing sample_config)
setup-InTurn_sample = setup-InTurn refusing sample_config

connect_releases_example :
    (((connect refusing sample_config).1 ≡ none)
      × ((connect refusing sample_config).0
          ≡ dial (bytes "amqp://bus") ∷ open_channel ∷ setup_calls sample_config)
      × (refusing open_channel ≡ none)
      × All (λ c. refusing c ≡ none) (setup_calls sample_config))
    ⊎ ((made : List Call) × (x : Call × Str) × ((connect refusing sample_config).1 ≡ some x)
        × ((connect refusing sample_config).0 ≡ made ++ (close_connection ∷ [])))
connect_releases_example = connect_releases refusing sample_config refl
