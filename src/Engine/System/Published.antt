-- ===== src/Engine/System/Published.antt =====
-- What the engine of internal/engine/engine.go publishes: only on declared outputs, and only behind
-- chains that its limits admitted.
use goxo.Base.{
  ℕ, ◌≡◌, refl, ap, sym, subst, ◌∙◌, ◌⊎◌, inl, inr, true, some, List, [], ◌∷◌, All, length,
  get_elem?, ltb, Option-cases, Bool-cases, ◌≢◌, none, Option, nat_eq, arith, nat_Eq, if◌then◌else◌,
}
use goxo.Base.Int.{ℤ}
use goxo.Base.Text.{Str}
use goxo.Bus.Control.{Base64, Coder}
use goxo.Bus.Transport.{AmqpDelivery}
use goxo.Engine.Admit.{admit, accept}
use goxo.Engine.Handling.{Engine, Handled, dropped, offered, on_message, on_message_cases}
use goxo.Engine.System.{
  Consumer, selecting, choosing, placing, placed, ended, System, SystemAction, comes, looks, places,
  leaves, stops, closes, interrupts, works, at_start, choose, receive, look, place, leave, consume,
  system_step, system_run,
}
use goxo.Engine.System.Account.{fresh}
use goxo.Worker.State.{
  Inflight, Supervisor, reading, publishing, Config, Delivery, Worker, Dispatcher, ready, sending,
  returning, new_worker,
}
use goxo.Worker.Messages.{shutting_down, free_slot}
use goxo.Worker.Process.{on_emit, publish, ack_emit, declared, begin_close, kill}
use goxo.Worker.Pool.{outstanding, new_pool}
use goxo.Worker.Steps.{
  run, reads, publishes, supervise, on_note, Action, offers, closing_begins, kills, cancels, own,
  step,
}
use goxo.Base.Dict.{lookup}
use goxo.Note.{Emit}
use goxo.Note.Wire.{emit}
use goxo.Engine.System.Every.{Every, set-Every, shutdown-Every, interrupt-Every}
use goxo.Worker.Relayed.{Relayed, lookup-Known}
use goxo.Worker.Relayed.Steps.{Offered, step-Relayed}
use goxo.Worker.Shutdown.{pool_step}

-- `P` holds of the empty chain, and `outputs` are those that the agent declares.
module _ (P : List Str → Type 0) (outputs : List Str) (nil : P []) where
  abbrev Relaying : List Worker → Type 0
  Relaying ws = Every (Relayed P outputs) ws

  own-Offered : (a : Action) → own a ≡ true → Offered P outputs a
  unfolding own
  own-Offered (offers d) h = absurd (cc h)
  own-Offered _ h = tt

  begin_close-Relayed : (w : Worker) → Relayed P outputs w → Relayed P outputs (begin_close w)
  begin_close-Relayed w v = unfold step in step-Relayed P outputs closing_begins w nil tt v

  kill-Relayed : (w : Worker) → Relayed P outputs w → Relayed P outputs (kill w)
  kill-Relayed w v = unfold step in step-Relayed P outputs kills w nil tt v

  -- The chain of the message that the consumer has in hand.
  abbrev Carried : Consumer → Type 0
  Carried (choosing best load next d) = P d.chain
  Carried (placing i d) = P d.chain
  Carried _ = Unit

  record Passing (s : System) : Type 0 where
    relaying : Relaying s.serving.workers
    carried : Carried s.consumer

  choose-Passing : (d : Delivery) (s : System) → P d.chain → Passing s → Passing (choose d s)
  unfolding choose
  choose-Passing d s h v = elim (Option-cases (get_elem? s.serving.workers 0)) [
    | inl e ↦ rw (e, choose) v
    | inr (w, e) ↦ rw (e, choose) (record { relaying = v.relaying; carried = h })
  ]

  look-Passing :
      (best load next : ℕ) (d : Delivery) (s : System)
      → P d.chain
      → Passing s
      → Passing (look best load next d s)
  unfolding look
  look-Passing best load next d s h v = elim (Option-cases (get_elem? s.serving.workers next)) [
    | inl e ↦ rw (e, look) (record { relaying = v.relaying; carried = h })
    | inr (w, e) ↦ elim (Bool-cases (ltb (outstanding w) load)) [
      | inl t ↦ rw (e, look) (rw t (record { relaying = v.relaying; carried = h }))
      | inr f ↦ rw (e, look) (rw f (record { relaying = v.relaying; carried = h }))
    ]
  ]

  place-Passing :
      (i : ℕ) (d : Delivery) (s : System) → P d.chain → Passing s → Passing (place i d s)
  unfolding place pool_step
  place-Passing i d s h v = elim (Option-cases (get_elem? s.serving.workers i)) [
    | inl e ↦ rw (e, place) v
    | inr (w, e) ↦ elim (Bool-cases (shutting_down w)) [
      | inl t ↦ rw (e, place) (rw t (record { relaying = v.relaying; carried = tt }))
      | inr f ↦ elim (Option-cases (free_slot w)) [
        | inl g ↦ rw (e, place) (rw f (rw g v))
        | inr (x, g) ↦
            rw (e, place)
              (rw f (
                rw g (record {
                  relaying =
                      set-Every (Relayed P outputs) s.serving.workers i (step (offers d))
                        (λ y. step-Relayed P outputs (offers d) y nil h) v.relaying;
                  carried = tt;
                })))
      ]
    ]
  ]

  leave-Passing :
      (i : ℕ) (s : System) (k : Dispatcher) (w : Worker)
      → get_elem? s.serving.workers i ≡ some w
      → w.disp ≡ k
      → Passing s
      → Passing (leave i s)
  unfolding leave
  leave-Passing i s ready w e q v =
      rw (e, leave) (rw q (record { relaying = v.relaying; carried = tt }))
  leave-Passing i s (sending g id d) w e q v = rw (e, leave) (rw q v)
  leave-Passing i s (returning x) w e q v = rw (e, leave) (rw q v)

  leaves-Passing : (i : ℕ) (s : System) → Passing s → Passing (leave i s)
  leaves-Passing i s v = elim (Option-cases (get_elem? s.serving.workers i)) [
    | inl e ↦ unfold leave in rw (e, leave) v
    | inr (w, e) ↦ leave-Passing i s w.disp w e refl v
  ]

  module _ {E : Type 0} (b : Base64) (c : Coder E) (e : Engine)
      (lets : (d : AmqpDelivery) (o : Delivery) → on_message b c e d ≡ offered o → P o.chain) where
    receive-Passing :
        (d : AmqpDelivery) (what : Handled) (s : System)
        → on_message b c e d ≡ what
        → Passing s
        → Passing (receive what d.tag s)
    unfolding receive
    receive-Passing d (dropped call) s h v = record { relaying = v.relaying; carried = v.carried }
    receive-Passing d (offered o) s h v =
        choose-Passing o (record s { arrived = d.tag ∷ s.arrived }) (lets d o h)
          (record { relaying = v.relaying; carried = v.carried })

    consume-Passing :
        (a : SystemAction) (k : Consumer) (s : System)
        → s.consumer ≡ k
        → Passing s
        → Passing (consume b c e a k s)
    unfolding consume
    consume-Passing (comes d) selecting s q v = receive-Passing d (on_message b c e d) s refl v
    consume-Passing looks (choosing best load next d) s q v =
        look-Passing best load next d s (subst Carried q v.carried) v
    consume-Passing places (placing i d) s q v = place-Passing i d s (subst Carried q v.carried) v
    consume-Passing leaves (placed i) s q v = leaves-Passing i s v
    consume-Passing stops selecting s q v = record { relaying = v.relaying; carried = tt }
    consume-Passing (closes a) ended s q v = record {
      relaying =
          shutdown-Every (Relayed P outputs) begin_close-Relayed kill-Relayed a s.serving.phase
            s.serving v.relaying;
      carried = v.carried;
    }
    consume-Passing _ _ s q v = v

    system_step-Passing :
        (a : SystemAction) (s : System) → Passing s → Passing (system_step b c e a s)
    unfolding system_step pool_step
    system_step-Passing interrupts s v = record {
      relaying =
          interrupt-Every (Relayed P outputs) (λ w k. step-Relayed P outputs cancels w nil tt k)
            (length s.serving.workers) s.serving v.relaying;
      carried = v.carried;
    }
    system_step-Passing (works i a) s v = elim (Bool-cases (own a)) [
      | inr o ↦ rw o v
      | inl o ↦ rw o (record {
        relaying =
            set-Every (Relayed P outputs) s.serving.workers i (step a)
              (λ w. step-Relayed P outputs a w nil (own-Offered a o)) v.relaying;
        carried = v.carried;
      })
    ]
    system_step-Passing a s v = consume-Passing a s.consumer s refl v

    system_run-Passing :
        (actions : List SystemAction) (s : System)
        → Passing s
        → Passing (system_run b c e actions s)
    unfolding system_run
    system_run-Passing [] s v = v
    system_run-Passing (a ∷ rest) s v =
        system_run-Passing rest (system_step b c e a s) (system_step-Passing a s v)

-- What the limits let through; the empty chain is always among it.
abbrev Admitted : Engine → List Str → Type 0
Admitted e chain = admit chain e.agent e.cyclic e.depth e.accepted ≡ accept

nil-Admitted : (e : Engine) → Admitted e []
nil-Admitted e = unfold admit in ground arith

offered-Admitted :
    {E : Type 0} (b : Base64) (c : Coder E) (e : Engine) (d : AmqpDelivery) (o : Delivery)
    → on_message b c e d ≡ offered o
    → Admitted e o.chain
offered-Admitted b c e d o q = elim (on_message_cases b c e d) [
  | inl (h, _) ↦ absurd (cc (q, h))
  | inr (inl (_, _, _, r, _, _, _, h)) ↦ absurd (cc (q, h))
  | inr (inr (agents, _, o', _, _, ok, h, _, chain, _, _)) ↦
      let both : offered o ≡ offered o' = sym q ∙ h in
      let same : o ≡ o' = cc both in
      let came : o.chain ≡ agents = ap (λ (y : Delivery). y.chain) same ∙ chain in
      ap (λ l. admit l e.agent e.cyclic e.depth e.accepted) came ∙ ok
]

-- The chain behind which the emit `x` is to go: that of the message that it names, if that is in
-- flight, which the limits admitted; else none.
abbrev pub Behind : Engine → Emit → Worker → List Str → Type 0
Behind e x w chain =
    ((lookup x.deliver w.msgs ≡ none) × (chain ≡ []))
    ⊎ ((m : Inflight) × (lookup x.deliver w.msgs ≡ some m)
        × (chain ≡ m.chain)
        × (admit m.chain e.agent e.cyclic e.depth e.accepted ≡ accept))

-- What is published once the emit `x` was read and Publish has returned.
abbrev pub Relays : Worker → Emit → Option Str → List Str → Type 0
Relays w x answer chain = (run (reads (emit x) ∷ publishes answer ∷ []) w).published ≡ (
    if declared w.cfg.outputs x.selector
    then record { chain = chain; selector = x.selector; fields = x.fields } ∷ w.published
    else w.published)

reading_cases : (s : Supervisor) (g : ℕ) → (s ≢ reading g) ⊎ (s ≡ reading g)
reading_cases (reading g') g = elim (Bool-cases (nat_eq g' g)) [
  | inl h ↦ inr (ap reading (ground (arith, h)))
  | inr h ↦ inl (λ q. ground (arith, h, q))
]
reading_cases _ g = inl (λ q. cc q)

publish-published :
    (g : ℕ) (chain : List Str) (x : Emit) (answer : Option Str) (w : Worker)
    → (publish g chain x answer w).published ≡ (
        if declared w.cfg.outputs x.selector
        then record { chain = chain; selector = x.selector; fields = x.fields } ∷ w.published
        else w.published)
unfolding publish ack_emit
publish-published g chain x answer w = elim (Bool-cases (declared w.cfg.outputs x.selector)) [
  | inl h ↦ rw (h, publish) (ground arith)
  | inr h ↦ rw (h, publish) (ground arith)
]

read-Relays :
    (g : ℕ) (chain : List Str) (x : Emit) (answer : Option Str) (w : Worker)
    → w.sup ≡ reading g
    → on_emit g x w ≡ record w { sup = publishing g chain x }
    → Relays w x answer chain
unfolding run step supervise on_note
read-Relays g chain x answer w q h =
    rw (q, h) (publish-published g chain x answer (record w { sup = publishing g chain x }))

relays :
    (e : Engine) (outputs : List Str) (g : ℕ) (x : Emit) (answer : Option Str) (w : Worker)
    → w.sup ≡ reading g
    → Relayed (Admitted e) outputs w
    → (chain : List Str) × Behind e x w chain × Relays w x answer chain
relays e outputs g x answer w q v = elim (Option-cases (lookup x.deliver w.msgs)) [
  | inl h ↦
      ([], inl (h, refl), read-Relays g [] x answer w q (unfold on_emit in rw (h, on_emit) refl))
  | inr (m, h) ↦ (
    m.chain,
    inr (m, h, refl, lookup-Known (Admitted e) outputs x.deliver w.msgs m h v.known),
    read-Relays g m.chain x answer w q (unfold on_emit in rw (h, on_emit) refl),
  )
]

-- However the engine's goroutines and the handlers interleave: each emit that a worker of the pool
-- hands to the bus names a selector that the agent declares as an output, and goes behind a chain
-- that the engine's limits admit. When the read loop gets a further emit, it is handed to the bus if
-- and only if its selector is declared, behind the chain of the message in flight that it names, which
-- the limits admitted; an emit that names no message in flight goes behind the empty chain.
pub published_admitted :
    {E : Type 0} (b : Base64) (c : Coder E) (e : Engine) (cfg : Config) (size capacity : ℤ)
    (actions : List SystemAction) (j : ℕ) (w : Worker) (g : ℕ) (x : Emit) (answer : Option Str)
    → get_elem? (system_run b c e actions (at_start (new_pool cfg size capacity))).serving.workers j
      ≡ some w
    → (w.cfg.outputs ≡ cfg.outputs)
      × All
          (λ p.
            (declared cfg.outputs p.selector ≡ true)
            × (admit p.chain e.agent e.cyclic e.depth e.accepted ≡ accept))
          w.published
      × ((w.sup ≢ reading g) ⊎ ((chain : List Str) × Behind e x w chain × Relays w x answer chain))
published_admitted b c e cfg size capacity actions j w g x answer at =
    let begun : Passing (Admitted e) cfg.outputs (nil-Admitted e)
        (at_start (new_pool cfg size capacity)) =
      record {
        relaying = λ i y here.
            subst (Relayed (Admitted e) cfg.outputs) (sym (fresh cfg size capacity i y here))
              (unfold new_worker in record { same = refl; known = tt; due = tt; sent = tt });
        carried = unfold at_start in tt;
      } in
    let passing =
      system_run-Passing (Admitted e) cfg.outputs (nil-Admitted e) b c e (offered-Admitted b c e)
        actions _ begun in
    let v = passing.relaying j w at in
    (
      v.same,
      v.sent,
      elim (reading_cases w.sup g) [
        | inl h ↦ inl h
        | inr h ↦ inr (relays e cfg.outputs g x answer w h v)
      ],
    )
