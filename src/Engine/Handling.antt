-- ===== src/Engine/Handling.antt =====
-- internal/engine/engine.go: what the engine does with each delivery, and the address of its
-- healthcheck. A message goes from the bus through admission to a worker.
use goxo.Base.{
  ℕ, zero, suc, ◌+◌, ◌*◌, ◌-◌, ◌^◌, ◌<◌, ◌≡◌, ◌≢◌, refl, ap, sym, ◌∙◌, ◌⊎◌, inl, inr, arith, false,
  ok, List, [], ◌∷◌,
}
use goxo.Base.Int.{pos, mul_int_pos}
use goxo.Base.Text.{Str, str_Eq}
use goxo.Manifest.{Manifest}
use goxo.Settings.{Settings}
use goxo.Engine.Admit.{Verdict, accept, reject, Reason, admit}
use goxo.Engine.Assembly.{Params, bus_config}
use goxo.Bus.Control.{Base64, Coder, unwrap}
use goxo.Json.{Fields}
use goxo.Bus.Transport
use goxo.Bus.Transport.{
  AmqpDelivery, Call, ack, nack, Settlement, acked, nacked, requeued, settle_call, Dispatched,
  settled, handled, dispatch,
}
use goxo.Bus.Routing.{selector_from_routing_key, message_id_from_routing_key}
use goxo.Bus.Deliveries.{dispatch_cases}
use goxo.Worker.State
use goxo.Worker.State.{Outcome, new_worker}
use goxo.Worker.Pool.{new_pool, workers, replicate, at_least_one-suc}

pub record Engine : Type 0 where
  pub agent : Str
  pub cyclic : ℕ
  pub depth : ℕ
  pub accepted : List Str

-- The closures Ack, Nack and Requeue that a worker gets, as calls of the bus.
unfoldable pub settlement_of : Outcome → Settlement
settlement_of Outcome.ack = acked
settlement_of Outcome.nack = nacked
settlement_of Outcome.requeue = requeued

pub data Handled : Type 0 where
  dropped : Call → Handled
  offered : State.Delivery → Handled

unfoldable pub handle : Engine → Transport.Delivery → Handled
unfolding settle_call
handle e d = elim (admit d.chain e.agent e.cyclic e.depth e.accepted) [
  | reject _ ↦ dropped (settle_call d.tag acked)
  | accept ↦ offered (record {
    selector = d.selector;
    fields = d.fields;
    chain = d.chain;
    meta = record { message_id = d.message_id; headers = d.headers };
    tag = d.tag;
  })
]

-- The function that Run gives to Consume, behind the bus's own dispatch.
unfoldable pub on_message : {E : Type 0} → Base64 → Coder E → Engine → AmqpDelivery → Handled
unfolding handle dispatch
on_message b c e d = elim (dispatch b c d) [ settled call ↦ dropped call | handled δ ↦ handle e δ ]

verdict_cases : (v : Verdict) → (v ≡ accept) ⊎ ((r : Reason) × (v ≡ reject r))
verdict_cases accept = inl refl
verdict_cases (reject r) = inr (r, refl)

-- The engine has three answers to an AMQP message, each with the message's own tag: one nack that does
-- not requeue, if its envelope does not unwrap or what is inside does not decode; one ack, if both do
-- and a limit rejects it; or the offer to the pool, if both do and it is admitted. In the last two the
-- limits were applied to the agents that the envelope unwrapped to, and the offer carries just these
-- as its chain, with the decoded dict, the routing key's selector and its message id.
pub on_message_cases :
    {E : Type 0} (b : Base64) (c : Coder E) (e : Engine) (d : AmqpDelivery)
    → ((on_message b c e d ≡ dropped (nack d.tag false false))
        × ((agents : List Str) (inner : Str) (fields : Fields)
            → unwrap b c d.body ≡ ok (agents, inner)
            → c.decode (selector_from_routing_key d.routing_key) inner ≢ ok fields))
      ⊎ (((agents : List Str) × (inner : Str) × (fields : Fields) × (r : Reason) × (unwrap b c
                d.body
              ≡ ok (agents, inner))
            × (c.decode (selector_from_routing_key d.routing_key) inner ≡ ok fields)
            × (admit agents e.agent e.cyclic e.depth e.accepted ≡ reject r)
            × (on_message b c e d ≡ dropped (ack d.tag false)))
          ⊎ ((agents : List Str) × (inner : Str) × (o : State.Delivery) × (unwrap b c d.body
                ≡ ok (agents, inner))
              × (c.decode (selector_from_routing_key d.routing_key) inner ≡ ok o.fields)
              × (admit agents e.agent e.cyclic e.depth e.accepted ≡ accept)
              × (on_message b c e d ≡ offered o)
              × (o.tag ≡ d.tag)
              × (o.chain ≡ agents)
              × (o.selector ≡ selector_from_routing_key d.routing_key)
              × (o.meta.message_id ≡ message_id_from_routing_key d.routing_key)))
unfolding on_message settle_call
on_message_cases b c e d = elim (dispatch_cases b c d) [
  | inl (inl (x, h, q)) ↦ inl (rw (q, on_message), λ agents inner fields same _. cc (h, same))
  | inl (inr (agents, inner, x, h, h', q)) ↦ inl (
    rw (q, on_message),
    λ agents' inner' fields same read.
        let both : ok (agents, inner) ≡ ok (agents', inner') = sym h ∙ same in
        let inside : inner ≡ inner' = cc both in cc (h', inside, read),
  )
  | inr (agents, inner, fields, h, h', q) ↦
      elim (verdict_cases (admit agents e.agent e.cyclic e.depth e.accepted)) [
        | inr (r, v) ↦
            inr (inl (agents, inner, fields, r, h, h', v, rw (q, on_message) (rw (v, handle))))
        | inl v ↦
            let o : State.Delivery = record {
              selector = selector_from_routing_key d.routing_key;
              fields = fields;
              chain = agents;
              meta = record {
                message_id = message_id_from_routing_key d.routing_key;
                headers = d.headers;
              };
              tag = d.tag;
            } in
            inr (
              inr (
                agents,
                inner,
                o,
                h,
                h',
                v,
                rw (q, on_message) (rw (v, handle)),
                refl,
                refl,
                refl,
                refl,
              ))
      ]
]

-- What the workers of a pool can hold together.
abbrev pub total_cap : List State.Worker → ℕ
total_cap [] = 0
total_cap (w ∷ ws) = w.cap + total_cap ws

total_cap-replicate : (n : ℕ) (w : State.Worker) → total_cap (replicate n w) ≡ n * w.cap
total_cap-replicate zero w = ground arith
total_cap-replicate (suc n) w = ground (arith, total_cap-replicate n w)

total_cap-new_pool :
    (cfg : State.Config) (size capacity : ℕ)
    → total_cap (workers (new_pool cfg (pos (suc size)) (pos (suc capacity))))
      ≡ suc size * suc capacity
unfolding new_pool
total_cap-new_pool cfg size capacity =
    let w = new_worker cfg (pos (suc capacity)) in
    let cap_eq : w.cap ≡ suc capacity = unfold new_worker in ground arith in
    let others : total_cap (replicate (suc size - 1) w) ≡ size * suc capacity =
      ap (λ n. total_cap (replicate n w)) (omega arith)
      ∙ total_cap-replicate size w
      ∙ ap (λ x. size * x) cap_eq in
    let whole : w.cap + total_cap (replicate (suc size - 1) w) ≡ suc size * suc capacity =
      ground (arith, cap_eq, others) in
    rw (at_least_one-suc size, at_least_one-suc capacity) whole

-- For a positive pool size and capacity whose product is below 2 ^ 63, the prefetch window that the
-- bus asks for is the sum of the capacities of the pool's workers.
pub prefetch-new_pool :
    (m : Manifest) (s : Settings) (p : Params) (cfg : State.Config) (size capacity : ℕ)
    → p.pool_size ≡ pos (suc size)
    → p.worker_cap ≡ pos (suc capacity)
    → suc size * suc capacity < 2 ^ 63
    → (bus_config m s p).prefetch
      ≡ pos (total_cap (workers (new_pool cfg p.pool_size p.worker_cap)))
unfolding bus_config
prefetch-new_pool m s p cfg size capacity hs hc small =
    rw (hs, hc)
      (mul_int_pos (suc size) (suc capacity) small
        ∙ ap pos (sym (total_cap-new_pool cfg size capacity)))
