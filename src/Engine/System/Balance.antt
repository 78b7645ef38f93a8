-- ===== src/Engine/System/Balance.antt =====
-- Over any run of the engine, where its messages are.
use goxo.Base.{
  ℕ, zero, suc, ◌≡◌, refl, ap, ◌∙◌, inl, inr, arith, false, List, [], ◌∷◌, length, Bool-cases,
}
use goxo.Bus.Control.{Base64, Coder}
use goxo.Bus.Transport
use goxo.Bus.Transport.{AmqpDelivery}
use goxo.Engine.Handling.{Engine, on_message, on_message_cases}
use goxo.Engine.System.{
  Consumer, selecting, choosing, placing, placed, ended, System, SystemAction, comes, looks, places,
  leaves, stops, closes, interrupts, works, receive, interrupt, consume, system_step, system_run,
}
use goxo.Engine.System.Counts.{in_hand, hands}
use goxo.Engine.System.Quiet.{works-Rested, shutdown-Rested, interrupt-Rested}
use goxo.Worker.State.{Worker}
use goxo.Worker.Steps.{cancels, own}
use goxo.Worker.Shutdown.{Serving, acts, pool_step, shutdown}
use goxo.Worker.Shutdown.Rounds.{Held}
use goxo.Worker.Shutdown.Ending.{pool_step-Held, shutdown-Held}
use goxo.Engine.System.Sound.{Sound, rested}
use goxo.Engine.System.Turns.{receive-dropped, choose-Sound, look-Sound, place-Sound, leave-Sound}

-- What becomes of a message keeps its tag.
receive-Sound :
    {first : Worker} {n : ℕ} {E : Type 0} (b : Base64) (c : Coder E) (e : Engine) (d : AmqpDelivery)
    (s : System)
    → s.consumer ≡ selecting
    → Sound first n s
    → Sound first n (receive (on_message b c e d) d.tag s)
unfolding receive
receive-Sound b c e d s q v = elim (on_message_cases b c e d) [
  | inl (h, _) ↦ rw h (receive-dropped s v (Transport.nack d.tag false false) d.tag (λ t. refl))
  | inr (inl (_, _, _, r, _, _, _, h)) ↦
      rw h (receive-dropped s v (Transport.ack d.tag false) d.tag (λ t. refl))
  | inr (inr (_, _, o, _, _, _, h, same, _, _, _)) ↦ rw h (choose-Sound s v d.tag o q same)
]

interrupt-Held :
    {first : Worker} {n : ℕ} (m : ℕ) (c : Serving) → Held first n c → Held first n (interrupt m c)
unfolding interrupt pool_step
interrupt-Held zero c v = v
interrupt-Held (suc m) c v =
    interrupt-Held m (pool_step (acts m cancels) c) (pool_step-Held (acts m cancels) c v)

interrupt-phase : (m : ℕ) (c : Serving) → (interrupt m c).phase ≡ c.phase
unfolding interrupt pool_step
interrupt-phase zero c = refl
interrupt-phase (suc m) c = interrupt-phase m (pool_step (acts m cancels) c)

module _ {E : Type 0} (b : Base64) (c : Coder E) (e : Engine) where
  consume-Sound :
      {first : Worker} {n : ℕ} (a : SystemAction) (k : Consumer) (s : System)
      → s.consumer ≡ k
      → Sound first n s
      → Sound first n (consume b c e a k s)
  unfolding consume
  consume-Sound (comes d) selecting s q v = receive-Sound b c e d s q v
  consume-Sound looks (choosing best load next d) s q v = look-Sound s v best load next d q
  consume-Sound places (placing i d) s q v = place-Sound s v i d q
  consume-Sound leaves (placed i) s q v = leave-Sound s v i q
  consume-Sound stops selecting s q v = record {
    held = v.held;
    counted = λ t. omega (arith, v.counted t, ap (in_hand t) q);
    sized = omega (arith, v.sized, ap hands q);
    idle = λ j w at. elim (v.idle j w at) [ inl h ↦ inl h | inr h ↦ cc (q, h) ];
    closed = inr refl;
  }
  consume-Sound (closes a) ended s q v =
      rested s (shutdown a s.serving.phase s.serving) v
        (shutdown-Held a s.serving.phase s.serving refl v.held)
        (shutdown-Rested a s.serving.phase s.serving) (inr q)
  consume-Sound _ _ s q v = v

  pub system_step-Sound :
      {first : Worker} {n : ℕ} (a : SystemAction) (s : System)
      → Sound first n s
      → Sound first n (system_step b c e a s)
  unfolding system_step
  system_step-Sound interrupts s v =
      rested s (interrupt (length s.serving.workers) s.serving) v
        (interrupt-Held (length s.serving.workers) s.serving v.held)
        (interrupt-Rested (length s.serving.workers) s.serving)
        (elim v.closed [
          | inl h ↦ inl (interrupt-phase (length s.serving.workers) s.serving ∙ h)
          | inr h ↦ inr h
        ])
  system_step-Sound (works i a) s v = elim (Bool-cases (own a)) [
    | inl h ↦ rw h (
        rested s (pool_step (acts i a) s.serving) v (pool_step-Held (acts i a) s.serving v.held)
          (works-Rested i a s.serving h) (unfold pool_step in v.closed))
    | inr h ↦ rw h v
  ]
  system_step-Sound a s v = consume-Sound a s.consumer s refl v

  pub system_run-Sound :
      {first : Worker} {n : ℕ} (actions : List SystemAction) (s : System)
      → Sound first n s
      → Sound first n (system_run b c e actions s)
  unfolding system_run
  system_run-Sound [] s v = v
  system_run-Sound (a ∷ rest) s v =
      system_run-Sound rest (system_step b c e a s) (system_step-Sound a s v)
