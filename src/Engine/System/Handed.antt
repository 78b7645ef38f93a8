-- ===== src/Engine/System/Handed.antt =====
-- Dispatch leaves no more messages than come to the consumer.
use goxo.Base.{
  ℕ, ◌+◌, ◌≤◌, ◌≡◌, refl, ap, sym, inl, inr, arith, some, List, [], ◌∷◌, get_elem?, ltb,
  Option-cases, Bool-cases,
}
use goxo.Bus.Control.{Base64, Coder}
use goxo.Bus.Transport.{AmqpDelivery}
use goxo.Engine.Handling.{Engine, on_message, on_message_cases}
use goxo.Engine.System.{
  Consumer, selecting, choosing, placing, placed, ended, System, SystemAction, comes, looks, places,
  leaves, stops, closes, interrupts, works, choose, receive, look, place, leave, consume,
  system_step, system_run,
}
use goxo.Engine.System.Counts.{in_hand}
use goxo.Worker.State.{Delivery, Worker, Dispatcher, ready, sending, returning}
use goxo.Worker.Messages.{shutting_down, free_slot}
use goxo.Worker.Invariant.{times}
use goxo.Worker.Pool.{outstanding}
use goxo.Worker.Steps.{own}

module _ (t : ℕ) where
  -- What was left and what is in hand grows by what comes at most.
  abbrev pub Handed : System → System → Type 0
  Handed s s' =
      times t s'.left + in_hand t s'.consumer + times t s.arrived
      ≤ times t s.left + in_hand t s.consumer + times t s'.arrived

  same : (s : System) → Handed s s
  same s = omega arith

  choose-Handed :
      (d : Delivery) (s s' : System)
      → s'.arrived ≡ d.tag ∷ s.arrived
      → s'.left ≡ s.left
      → s'.consumer ≡ s.consumer
      → Handed s (choose d s')
  unfolding choose
  choose-Handed d s s' a l k = elim (Option-cases (get_elem? s'.serving.workers 0)) [
    | inl e ↦ rw (e, choose) (omega (arith, ap (times t) a, ap (times t) l, ap (in_hand t) k))
    | inr (w, e) ↦ rw (e, choose) (omega (arith, ap (times t) a, ap (times t) l))
  ]

  look-Handed :
      (best load next : ℕ) (d : Delivery) (s : System)
      → s.consumer ≡ choosing best load next d
      → Handed s (look best load next d s)
  unfolding look
  look-Handed best load next d s q = elim (Option-cases (get_elem? s.serving.workers next)) [
    | inl e ↦ rw (e, look) (omega (arith, ap (in_hand t) q))
    | inr (w, e) ↦ elim (Bool-cases (ltb (outstanding w) load)) [
      | inl h ↦ rw (e, look) (rw h (omega (arith, ap (in_hand t) q)))
      | inr h ↦ rw (e, look) (rw h (omega (arith, ap (in_hand t) q)))
    ]
  ]

  place-Handed :
      (i : ℕ) (d : Delivery) (s : System) → s.consumer ≡ placing i d → Handed s (place i d s)
  unfolding place
  place-Handed i d s q = elim (Option-cases (get_elem? s.serving.workers i)) [
    | inl e ↦ rw (e, place) (omega arith)
    | inr (w, e) ↦ elim (Bool-cases (shutting_down w)) [
      | inl h ↦ rw (e, place) (rw h (omega (arith, ap (in_hand t) q)))
      | inr h ↦ elim (Option-cases (free_slot w)) [
        | inl g ↦ rw (e, place) (rw h (rw g (omega arith)))
        | inr (x, g) ↦ rw (e, place) (rw h (rw g (omega (arith, ap (in_hand t) q))))
      ]
    ]
  ]

  leave-Handed :
      (i : ℕ) (s : System) (k : Dispatcher) (w : Worker)
      → get_elem? s.serving.workers i ≡ some w
      → w.disp ≡ k
      → Handed s (leave i s)
  unfolding leave
  leave-Handed i s ready w e q = rw (e, leave) (rw q (omega arith))
  leave-Handed i s (sending g id d) w e q = rw (e, leave) (rw q (omega arith))
  leave-Handed i s (returning x) w e q = rw (e, leave) (rw q (omega arith))

  leaves-Handed : (i : ℕ) (s : System) → Handed s (leave i s)
  leaves-Handed i s = elim (Option-cases (get_elem? s.serving.workers i)) [
    | inl e ↦ unfold leave in rw (e, leave) (same s)
    | inr (w, e) ↦ leave-Handed i s w.disp w e refl
  ]

  module _ {E : Type 0} (b : Base64) (c : Coder E) (e : Engine) where
    receive-Handed :
        (d : AmqpDelivery) (s : System) → Handed s (receive (on_message b c e d) d.tag s)
    unfolding receive
    receive-Handed d s = elim (on_message_cases b c e d) [
      | inl (h, _) ↦ rw h (omega arith)
      | inr (inl (_, _, _, r, _, _, _, h)) ↦ rw h (omega arith)
      | inr (inr (_, _, o, _, _, _, h, tag, _, _, _)) ↦ rw h (
          choose-Handed o s (record s { arrived = d.tag ∷ s.arrived })
            (ap (λ x. x ∷ s.arrived) (sym tag)) refl refl)
    ]

    consume-Handed :
        (a : SystemAction) (k : Consumer) (s : System)
        → s.consumer ≡ k
        → Handed s (consume b c e a k s)
    unfolding consume
    consume-Handed (comes d) selecting s q = receive-Handed d s
    consume-Handed looks (choosing best load next d) s q = look-Handed best load next d s q
    consume-Handed places (placing i d) s q = place-Handed i d s q
    consume-Handed leaves (placed i) s q = leaves-Handed i s
    consume-Handed stops selecting s q = omega arith
    consume-Handed (closes a) ended s q = omega arith
    consume-Handed _ _ s q = omega arith

    system_step-Handed : (a : SystemAction) (s : System) → Handed s (system_step b c e a s)
    unfolding system_step
    system_step-Handed interrupts s = omega arith
    system_step-Handed (works i a) s = elim (Bool-cases (own a)) [
      | inl o ↦ rw o (omega arith)
      | inr o ↦ rw o (omega arith)
    ]
    system_step-Handed a s = consume-Handed a s.consumer s refl

    pub system_run-Handed :
        (actions : List SystemAction) (s : System) → Handed s (system_run b c e actions s)
    unfolding system_run
    system_run-Handed [] s = omega arith
    system_run-Handed (a ∷ rest) s =
        omega (arith, system_step-Handed a s, system_run-Handed rest (system_step b c e a s))
