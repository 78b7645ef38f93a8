-- ===== src/Engine/System/Range.antt =====
-- The consumer of internal/engine/engine.go holds on to workers that the pool has.
use goxo.Base.{
  ℕ, suc, ◌<◌, ◌≡◌, refl, sym, subst, inl, inr, arith, some, List, [], ◌∷◌, get_elem?, ltb,
  Option-cases, Bool-cases,
}
use goxo.Bus.Control.{Base64, Coder}
use goxo.Engine.Handling.{Engine, Handled, dropped, offered, on_message}
use goxo.Engine.System.{
  Consumer, selecting, choosing, placing, placed, ended, System, SystemAction, comes, looks, places,
  leaves, stops, closes, interrupts, works, choose, receive, look, place, leave, consume,
  system_step, system_run,
}
use goxo.Engine.System.Every.{in_bounds}
use goxo.Engine.System.Sound.{Sound}
use goxo.Engine.System.Balance.{system_step-Sound}
use goxo.Worker.State.{Delivery, Worker, Dispatcher, ready, sending, returning}
use goxo.Worker.Messages.{shutting_down, free_slot}
use goxo.Worker.Pool.{outstanding}
use goxo.Worker.Steps.{own}

-- The worker that the consumer is about to use is one of the first `n`.
abbrev pub InRange : ℕ → Consumer → Type 0
InRange n selecting = Unit
InRange n (choosing best load next d) = best < n
InRange n (placing i d) = i < n
InRange n (placed i) = i < n
InRange n ended = Unit

module _ (n : ℕ) where
  choose-InRange :
      (d : Delivery) (s : System)
      → InRange (suc n) s.consumer
      → InRange (suc n) (choose d s).consumer
  unfolding choose
  choose-InRange d s h = elim (Option-cases (get_elem? s.serving.workers 0)) [
    | inl e ↦ rw (e, choose) h
    | inr (w, e) ↦ rw (e, choose) (omega arith)
  ]

  receive-InRange :
      (what : Handled) (tag : ℕ) (s : System)
      → InRange (suc n) s.consumer
      → InRange (suc n) (receive what tag s).consumer
  unfolding receive
  receive-InRange (dropped call) tag s h = h
  receive-InRange (offered d) tag s h = choose-InRange d (record s { arrived = tag ∷ s.arrived }) h

  look-InRange :
      {first : Worker} (best load next : ℕ) (d : Delivery) (s : System)
      → Sound first n s
      → best < suc n
      → InRange (suc n) s.consumer
      → InRange (suc n) (look best load next d s).consumer
  unfolding look
  look-InRange best load next d s v small h =
      elim (Option-cases (get_elem? s.serving.workers next)) [
        | inl e ↦ rw (e, look) small
        | inr (w, e) ↦
            let inside : next < suc n =
              subst (λ m. next < m) v.held.sized (in_bounds s.serving.workers next w e) in
            elim (Bool-cases (ltb (outstanding w) load)) [
              | inl t ↦ rw (e, look) (rw t inside)
              | inr f ↦ rw (e, look) (rw f small)
            ]
      ]

  place-InRange :
      (i : ℕ) (d : Delivery) (s : System)
      → i < suc n
      → InRange (suc n) s.consumer
      → InRange (suc n) (place i d s).consumer
  unfolding place
  place-InRange i d s small h = elim (Option-cases (get_elem? s.serving.workers i)) [
    | inl e ↦ rw (e, place) h
    | inr (w, e) ↦ elim (Bool-cases (shutting_down w)) [
      | inl t ↦ rw (e, place) (rw t tt)
      | inr f ↦ elim (Option-cases (free_slot w)) [
        | inl g ↦ rw (e, place) (rw f (rw g h))
        | inr (x, g) ↦ rw (e, place) (rw f (rw g small))
      ]
    ]
  ]

  leave-InRange :
      (i : ℕ) (s : System) (k : Dispatcher) (w : Worker)
      → get_elem? s.serving.workers i ≡ some w
      → w.disp ≡ k
      → InRange (suc n) s.consumer
      → InRange (suc n) (leave i s).consumer
  unfolding leave
  leave-InRange i s ready w e q h = rw (e, leave) (rw q tt)
  leave-InRange i s (sending g id d) w e q h = rw (e, leave) (rw q h)
  leave-InRange i s (returning x) w e q h = rw (e, leave) (rw q h)

  leaves-InRange :
      (i : ℕ) (s : System) → InRange (suc n) s.consumer → InRange (suc n) (leave i s).consumer
  leaves-InRange i s h = elim (Option-cases (get_elem? s.serving.workers i)) [
    | inl e ↦ unfold leave in rw (e, leave) h
    | inr (w, e) ↦ leave-InRange i s w.disp w e refl h
  ]

  standing :
      (s : System) (k : Consumer) → s.consumer ≡ k → InRange (suc n) k → InRange (suc n) s.consumer
  standing s k q h = subst (InRange (suc n)) (sym q) h

  module _ {E : Type 0} (b : Base64) (c : Coder E) (e : Engine) where
    consume-InRange :
        {first : Worker} (a : SystemAction) (k : Consumer) (s : System)
        → Sound first n s
        → s.consumer ≡ k
        → InRange (suc n) k
        → InRange (suc n) (consume b c e a k s).consumer
    unfolding consume
    consume-InRange (comes d) selecting s v q h =
        receive-InRange (on_message b c e d) d.tag s (standing s selecting q h)
    consume-InRange looks (choosing best load next d) s v q h =
        look-InRange best load next d s v h (standing s (choosing best load next d) q h)
    consume-InRange places (placing i d) s v q h =
        place-InRange i d s h (standing s (placing i d) q h)
    consume-InRange leaves (placed i) s v q h = leaves-InRange i s (standing s (placed i) q h)
    consume-InRange stops selecting s v q h = tt
    consume-InRange (closes a) ended s v q h = standing s ended q h
    consume-InRange _ k s v q h = standing s k q h

    system_step-InRange :
        {first : Worker} (a : SystemAction) (s : System)
        → Sound first n s
        → InRange (suc n) s.consumer
        → InRange (suc n) (system_step b c e a s).consumer
    unfolding system_step
    system_step-InRange interrupts s v h = h
    system_step-InRange (works i a) s v h = elim (Bool-cases (own a)) [
      | inl o ↦ rw o h
      | inr o ↦ rw o h
    ]
    system_step-InRange a s v h = consume-InRange a s.consumer s v refl h

    pub system_run-InRange :
        {first : Worker} (actions : List SystemAction) (s : System)
        → Sound first n s
        → InRange (suc n) s.consumer
        → InRange (suc n) (system_run b c e actions s).consumer
    unfolding system_run
    system_run-InRange [] s v h = h
    system_run-InRange (a ∷ rest) s v h =
        system_run-InRange rest (system_step b c e a s) (system_step-Sound b c e a s v)
          (system_step-InRange a s v h)
