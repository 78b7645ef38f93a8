-- ===== src/Bus/Deliveries.antt =====
-- dispatch and Consume: every message that arrives is settled or handed on, as the broker sent it.
use goxo.Base.{
  ℕ, ◌≡◌, ap, ◌∙◌, ◌⊎◌, inl, inr, List, [], ◌∷◌, ◌++◌, Result, ok, err, map_err, map_err-eq-ok,
  >>=-eq-ok, Result-cases, false,
}
use goxo.Base.Text.{Str}
use goxo.Json.{Fields}
use goxo.Bus.Routing.{selector_from_routing_key, message_id_from_routing_key, new_id, dot}
use goxo.Bus.Keys.{routing_key_parts, new_id-DotFree}
use goxo.Bus.Control.{
  Coder, Base64, BusError, control_selector, control_dict, wrap, unwrap, generate_id, encode_data,
}
use goxo.Bus.Envelope.{unwrap-wrap}
use goxo.Bus.Transport.{Config, AmqpDelivery, settled, handled, nack, dispatch, build_publishing}

module _ {E : Type 0} (b : Base64) (c : Coder E) where
  -- A message whose envelope does not unwrap, or whose inner bytes do not decode, is settled by one
  -- nack that does not requeue; every other one is handed on unsettled, under its own tag, with the
  -- agents and the dict that it carried.
  pub dispatch_cases :
      (d : AmqpDelivery)
      → (((e : BusError E) × (unwrap b c d.body ≡ err e)
            × (dispatch b c d ≡ settled (nack d.tag false false)))
          ⊎ ((agents : List Str) × (inner : Str) × (e : E) × (unwrap b c d.body
                ≡ ok (agents, inner))
              × (c.decode (selector_from_routing_key d.routing_key) inner ≡ err e)
              × (dispatch b c d ≡ settled (nack d.tag false false))))
        ⊎ ((agents : List Str) × (inner : Str) × (fields : Fields) × (unwrap b c d.body
              ≡ ok (agents, inner))
            × (c.decode (selector_from_routing_key d.routing_key) inner ≡ ok fields)
            × (dispatch b c d
                ≡ handled (record {
                  selector = selector_from_routing_key d.routing_key;
                  fields = fields;
                  chain = agents;
                  message_id = message_id_from_routing_key d.routing_key;
                  headers = d.headers;
                  tag = d.tag;
                })))
  unfolding dispatch
  dispatch_cases d = elim (Result-cases (unwrap b c d.body)) [
    | inr (e, h) ↦ inl (inl (e, h, rw (h, dispatch)))
    | inl ((agents, inner), h) ↦
        elim (Result-cases (c.decode (selector_from_routing_key d.routing_key) inner)) [
          | inr (e, h') ↦ inl (inr (agents, inner, e, h, h', rw (h, dispatch) (rw (h', dispatch))))
          | inl (fields, h') ↦
              inr (agents, inner, fields, h, h', rw (h, dispatch) (rw (h', dispatch)))
        ]
  ]

  build_publishing_inv :
      (cfg : Config) (random : Result Str Str) (chain : List Str) (selector : Str) (fields : Fields)
      (key body : Str)
      → build_publishing b c cfg random chain selector fields ≡ ok (key, body)
      → (inner : Str) × (id : Str) × (c.encode selector fields ≡ ok inner)
        × (wrap b c (chain ++ (cfg.agent ∷ [])) inner ≡ ok body)
        × (new_id random ≡ ok id)
        × (key ≡ selector ++ (dot ∷ id))
  unfolding build_publishing
  build_publishing_inv cfg random chain selector fields key body h =
      let (inner, e1, h1) = >>=-eq-ok (map_err encode_data (c.encode selector fields)) _ h in
      let (w, e2, h2) = >>=-eq-ok (wrap b c (chain ++ (cfg.agent ∷ [])) inner) _ h1 in
      let (id, e3, h3) = >>=-eq-ok (map_err generate_id (new_id random)) _ h2 in
      (
        inner,
        id,
        map_err-eq-ok encode_data _ e1,
        cc (e2, h3),
        map_err-eq-ok generate_id _ e3,
        cc h3,
      )

  arrives :
      (key body : Str) (tag : ℕ) (headers fields : Fields) (agents : List Str)
      (inner selector id : Str)
      → unwrap b c body ≡ ok (agents, inner)
      → c.decode (selector_from_routing_key key) inner ≡ ok fields
      → selector_from_routing_key key ≡ selector
      → message_id_from_routing_key key ≡ id
      → dispatch b c (record { tag = tag; routing_key = key; headers = headers; body = body })
        ≡ handled (record {
          selector = selector;
          fields = fields;
          chain = agents;
          message_id = id;
          headers = headers;
          tag = tag;
        })
  unfolding dispatch
  arrives key body tag headers fields agents inner selector id e1 e2 e3 e4 =
      rw (e1, dispatch) (rw (e2, dispatch) (rw (e3, e4)))

  -- An emit that was published on a routing key arrives at whoever consumes it: dispatch hands it on
  -- with the selector and the dict of the emit, the chain with the publisher's agent appended, and
  -- the id that ends the routing key. Needed are base64 and codec undoing themselves on these data.
  pub dispatch-build_publishing :
      (cfg : Config) (random : Result Str Str) (chain : List Str) (selector : Str) (fields : Fields)
      (key body : Str) (tag : ℕ) (headers : Fields)
      → ((inner : Str) → b.decode_string (b.encode_to_string inner) ≡ ok inner)
      → ((inner w : Str)
          → c.encode control_selector (control_dict b (chain ++ (cfg.agent ∷ [])) inner) ≡ ok w
          → c.decode control_selector w ≡ ok (control_dict b (chain ++ (cfg.agent ∷ [])) inner))
      → ((w : Str) → c.encode selector fields ≡ ok w → c.decode selector w ≡ ok fields)
      → build_publishing b c cfg random chain selector fields ≡ ok (key, body)
      → (id : Str) × (key ≡ selector ++ (dot ∷ id))
        × (dispatch b c (record { tag = tag; routing_key = key; headers = headers; body = body })
            ≡ handled (record {
              selector = selector;
              fields = fields;
              chain = chain ++ (cfg.agent ∷ []);
              message_id = id;
              headers = headers;
              tag = tag;
            }))
  dispatch-build_publishing cfg random chain selector fields key body tag headers b64 envelope
        payload h =
      let (inner, id, e1, e2, e3, k) =
        build_publishing_inv cfg random chain selector fields key body h in
      let (sel, mid) = routing_key_parts selector id (new_id-DotFree random id e3) in
      let key_selector : selector_from_routing_key key ≡ selector =
        ap selector_from_routing_key k ∙ sel in
      let opened =
        unwrap-wrap b c (chain ++ (cfg.agent ∷ [])) inner body (b64 inner) (envelope inner) e2 in
      (
        id,
        k,
        arrives key body tag headers fields (chain ++ (cfg.agent ∷ [])) inner selector id opened
            (ap (λ s. c.decode s inner) key_selector ∙ payload inner e1) key_selector
            (ap message_id_from_routing_key k ∙ mid),
      )
