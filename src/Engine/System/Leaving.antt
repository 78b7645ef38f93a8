-- ===== src/Engine/System/Leaving.antt =====
-- Which messages Dispatch leaves: only those that come to it once the context is cancelled.
use goxo.Base.{
  ℕ, ◌≡◌, refl, sym, subst, ◌∙◌, ◌⊎◌, inl, inr, arith, Bool, true, false, some, List, [], ◌∷◌,
  length, get_elem?, ltb, Option-cases, Bool-cases,
}
use goxo.Bus.Control.{Base64, Coder}
use goxo.Engine.Handling.{Engine, Handled, dropped, offered, on_message}
use goxo.Engine.System.{
  Consumer, selecting, choosing, placing, placed, ended, System, SystemAction, comes, looks, places,
  leaves, stops, closes, interrupts, works, choose, receive, look, place, leave, interrupt, consume,
  system_step, system_run,
}
use goxo.Engine.System.Every.{
  Every, set-Every, shutdown-Every, interrupt-Every, interrupt-cancelled, in_bounds,
}
use goxo.Worker.State.{Delivery, Worker, Dispatcher, ready, sending, returning}
use goxo.Worker.Messages.{shutting_down, free_slot}
use goxo.Worker.Pool.{outstanding, set}
use goxo.Worker.Steps.{offers, own, step}
use goxo.Worker.Flags.{Flags, own-Flags, offers-Flags, begin_close-cancelled, kill-Flags}
use goxo.Worker.Shutdown.{pool_step, shutdown}

-- The context, which all workers share, is cancelled.
abbrev pub Cancelled : System → Type 0
Cancelled s = Every (λ w. w.cancelled ≡ true) s.serving.workers

abbrev Going : List Worker → Type 0
Going ws = Every (λ w. w.cancelled ≡ false) ws

-- The workers agree on the context; none is closing while messages come; and what was left was left
-- under a cancelled context.
pub record Careful (s : System) : Type 0 where
  pub agreed : Going s.serving.workers ⊎ Cancelled s
  pub unclosed : (s.consumer ≡ ended) ⊎ Every (λ w. w.closing ≡ false) s.serving.workers
  pub leaving : (s.left ≡ []) ⊎ Cancelled s

-- The workers keep their flags, and the consumer does not start again.
keep_all :
    (s : System) (i : ℕ) (f : Worker → Worker) (k : Consumer)
    → ((w : Worker) → Flags w (f w))
    → (s.consumer ≡ ended → k ≡ ended)
    → Careful s
    → Careful (record s {
      serving = record s.serving { workers = set s.serving.workers i f };
      consumer = k;
    })
keep_all s i f k same on v = record {
  agreed = elim v.agreed [
    | inl h ↦ inl (set-Every (λ w. w.cancelled ≡ false) _ i f (λ w e. (same w).0 ∙ e) h)
    | inr h ↦ inr (set-Every (λ w. w.cancelled ≡ true) _ i f (λ w e. (same w).0 ∙ e) h)
  ];
  unclosed = elim v.unclosed [
    | inl h ↦ inl (on h)
    | inr h ↦ inr (set-Every (λ w. w.closing ≡ false) _ i f (λ w e. (same w).1 ∙ e) h)
  ];
  leaving = elim v.leaving [
    | inl h ↦ inl h
    | inr h ↦ inr (set-Every (λ w. w.cancelled ≡ true) _ i f (λ w e. (same w).0 ∙ e) h)
  ];
}

-- The consumer goes on, and nothing else changes.
turned :
    (s : System) (k : Consumer)
    → (s.consumer ≡ ended → k ≡ ended)
    → Careful s
    → Careful (record s { consumer = k })
turned s k on v = record {
  agreed = v.agreed;
  unclosed = elim v.unclosed [ inl h ↦ inl (on h) | inr h ↦ inr h ];
  leaving = v.leaving;
}

choose-Careful :
    (d : Delivery) (s : System) → s.consumer ≡ selecting → Careful s → Careful (choose d s)
unfolding choose
choose-Careful d s q v = elim (Option-cases (get_elem? s.serving.workers 0)) [
  | inl e ↦ rw (e, choose) v
  | inr (w, e) ↦ rw (e, choose) (turned s _ (λ h. cc (q, h)) v)
]

receive-Careful :
    (what : Handled) (tag : ℕ) (s : System)
    → s.consumer ≡ selecting
    → Careful s
    → Careful (receive what tag s)
unfolding receive
receive-Careful (dropped call) tag s q v = record {
  agreed = v.agreed;
  unclosed = v.unclosed;
  leaving = v.leaving;
}
receive-Careful (offered d) tag s q v =
    choose-Careful d (record s { arrived = tag ∷ s.arrived }) q
      (record { agreed = v.agreed; unclosed = v.unclosed; leaving = v.leaving })

look-Careful :
    (best load next : ℕ) (d : Delivery) (s : System)
    → s.consumer ≡ choosing best load next d
    → Careful s
    → Careful (look best load next d s)
unfolding look
look-Careful best load next d s q v = elim (Option-cases (get_elem? s.serving.workers next)) [
  | inl e ↦ rw (e, look) (turned s _ (λ h. cc (q, h)) v)
  | inr (w, e) ↦ elim (Bool-cases (ltb (outstanding w) load)) [
    | inl t ↦ rw (e, look) (rw t (turned s _ (λ h. cc (q, h)) v))
    | inr f ↦ rw (e, look) (rw f (turned s _ (λ h. cc (q, h)) v))
  ]
]

-- A worker that shuts down while messages come does so under a cancelled context.
shutting_down-Cancelled :
    (i : ℕ) (d : Delivery) (w : Worker) (s : System)
    → s.consumer ≡ placing i d
    → get_elem? s.serving.workers i ≡ some w
    → shutting_down w ≡ true
    → Careful s
    → Cancelled s
shutting_down-Cancelled i d w s q e t v = elim v.agreed [
  | inr h ↦ h
  | inl h ↦ elim v.unclosed [
    | inl k ↦ absurd (cc (q, k))
    | inr k ↦ absurd (clash (h i w e) (k i w e))
  ]
]
  where
    clash : w.cancelled ≡ false → w.closing ≡ false → ⊥
    clash h k = unfold shutting_down in ground (arith, t, h, k)

place-Careful :
    (i : ℕ) (d : Delivery) (s : System)
    → s.consumer ≡ placing i d
    → Careful s
    → Careful (place i d s)
unfolding place pool_step
place-Careful i d s q v = elim (Option-cases (get_elem? s.serving.workers i)) [
  | inl e ↦ rw (e, place) v
  | inr (w, e) ↦ elim (Bool-cases (shutting_down w)) [
    | inl t ↦
        rw (e, place)
          (rw t (record {
            agreed = v.agreed;
            unclosed = elim v.unclosed [ inl h ↦ absurd (cc (q, h)) | inr h ↦ inr h ];
            leaving = inr (shutting_down-Cancelled i d w s q e t v);
          }))
    | inr f ↦ elim (Option-cases (free_slot w)) [
      | inl g ↦ rw (e, place) (rw f (rw g v))
      | inr (x, g) ↦
          rw (e, place)
            (rw f (
              rw g (keep_all s i (step (offers d)) (placed i) (offers-Flags d) (λ h. cc (q, h)) v)))
    ]
  ]
]

leave-Careful :
    (i : ℕ) (s : System) (k : Dispatcher) (w : Worker)
    → s.consumer ≡ placed i
    → get_elem? s.serving.workers i ≡ some w
    → w.disp ≡ k
    → Careful s
    → Careful (leave i s)
unfolding leave
leave-Careful i s ready w p e q v = rw (e, leave) (rw q (turned s selecting (λ h. cc (p, h)) v))
leave-Careful i s (sending g id d) w p e q v = rw (e, leave) (rw q v)
leave-Careful i s (returning x) w p e q v = rw (e, leave) (rw q v)

leaves-Careful : (i : ℕ) (s : System) → s.consumer ≡ placed i → Careful s → Careful (leave i s)
leaves-Careful i s p v = elim (Option-cases (get_elem? s.serving.workers i)) [
  | inl e ↦ unfold leave in rw (e, leave) v
  | inr (w, e) ↦ leave-Careful i s w.disp w p e refl v
]

module _ {E : Type 0} (b : Base64) (c : Coder E) (e : Engine) where
  consume-Careful :
      (a : SystemAction) (k : Consumer) (s : System)
      → s.consumer ≡ k
      → Careful s
      → Careful (consume b c e a k s)
  unfolding consume
  consume-Careful (comes d) selecting s q v = receive-Careful (on_message b c e d) d.tag s q v
  consume-Careful looks (choosing best load next d) s q v = look-Careful best load next d s q v
  consume-Careful places (placing i d) s q v = place-Careful i d s q v
  consume-Careful leaves (placed i) s q v = leaves-Careful i s q v
  consume-Careful stops selecting s q v = turned s ended (λ _. refl) v
  consume-Careful (closes a) ended s q v = record {
    agreed = elim v.agreed [
      | inl h ↦ inl (flags (λ x. x ≡ false) h)
      | inr h ↦ inr (flags (λ x. x ≡ true) h)
    ];
    unclosed = inl q;
    leaving = elim v.leaving [ inl h ↦ inl h | inr h ↦ inr (flags (λ x. x ≡ true) h) ];
  }
    where
      flags :
          (R : Bool → Type 0)
          → Every (λ w. R w.cancelled) s.serving.workers
          → Every (λ w. R w.cancelled) (shutdown a s.serving.phase s.serving).workers
      flags R =
          shutdown-Every (λ w. R w.cancelled) (λ w h. subst R (sym (begin_close-cancelled w)) h)
            (λ w h. subst R (sym (kill-Flags w).0) h) a s.serving.phase s.serving
  consume-Careful _ _ s q v = v

  system_step-Careful :
      (a : SystemAction) (s : System) → Careful s → Careful (system_step b c e a s)
  unfolding system_step pool_step
  system_step-Careful interrupts s v = record {
    agreed = inr off;
    unclosed = elim v.unclosed [
      | inl h ↦ inl h
      | inr h ↦ inr (
          interrupt-Every (λ w. w.closing ≡ false) (λ w k. unfold step in k)
            (length s.serving.workers) s.serving h)
    ];
    leaving = inr off;
  }
    where
      off : Cancelled (record s { serving = interrupt (length s.serving.workers) s.serving })
      off =
          interrupt-cancelled (length s.serving.workers) s.serving
            (λ i x le here. absurd (omega (arith, le, in_bounds s.serving.workers i x here)))
  system_step-Careful (works i a) s v = elim (Bool-cases (own a)) [
    | inr o ↦ rw o v
    | inl o ↦ rw o (keep_all s i (step a) s.consumer (λ w. own-Flags a w o) (λ h. h) v)
  ]
  system_step-Careful a s v = consume-Careful a s.consumer s refl v

  pub system_run-Careful :
      (actions : List SystemAction) (s : System) → Careful s → Careful (system_run b c e actions s)
  unfolding system_run
  system_run-Careful [] s v = v
  system_run-Careful (a ∷ rest) s v =
      system_run-Careful rest (system_step b c e a s) (system_step-Careful a s v)
