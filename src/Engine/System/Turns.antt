-- ===== src/Engine/System/Turns.antt =====
-- Every turn of the consumer keeps the account.
use goxo.Base.{
  ℕ, suc, ◌≡◌, ◌≢◌, refl, ap, sym, ◌∙◌, inl, inr, arith, false, none, some, List, [], ◌∷◌, length,
  get_elem?, Option-cases, Bool-cases, ltb,
}
use goxo.Bus.Transport
use goxo.Bus.Transport.{AmqpDelivery}
use goxo.Engine.System.{
  Consumer, selecting, choosing, placing, placed, ended, System, choose, look, place, leave,
}
use goxo.Engine.System.Counts.{settles_one, in_hand, hands, sum_of-set}
use goxo.Worker.State.{Delivery, Dispatcher, ready, sending, returning, Worker}
use goxo.Worker.Messages.{shutting_down, free_slot, offer, register}
use goxo.Worker.Invariant.{hit, times}
use goxo.Worker.Pool.{outstanding}
use goxo.Worker.Steps.{offers, step}
use goxo.Worker.Shutdown.{serving, acts, pool_step}
use goxo.Worker.Shutdown.Rounds.{from_set}
use goxo.Worker.Shutdown.Ending.{pool_step-Held}
use goxo.Engine.System.Sound.{Sound}

module _ {first : Worker} {n : ℕ} (s : System) (v : Sound first n s) where
  at_work : (k : Consumer) → s.consumer ≡ k → k ≢ ended → s.serving.phase ≡ serving
  at_work k q h = elim v.closed [ inl e ↦ e | inr e ↦ absurd (h (sym q ∙ e)) ]

  all_ready :
      (k : Consumer)
      → s.consumer ≡ k
      → ((i : ℕ) → k ≢ placed i)
      → (j : ℕ) (w : Worker) → get_elem? s.serving.workers j ≡ some w
      → w.disp ≡ ready
  all_ready k q h j w at = elim (v.idle j w at) [ inl e ↦ e | inr e ↦ absurd (h j (sym q ∙ e)) ]

  -- A message that the consumer settles itself.
  pub receive-dropped :
      (call : Transport.Call) (tag : ℕ)
      → ((t : ℕ) → settles_one t call ≡ hit t tag)
      → Sound first n (record s { arrived = tag ∷ s.arrived; dropped = call ∷ s.dropped })
  receive-dropped call tag h = record {
    held = v.held;
    counted = λ t. omega (arith, v.counted t, h t);
    sized = omega (arith, v.sized);
    idle = v.idle;
    closed = v.closed;
  }

  -- The consumer goes on without a message, or with the one that it had.
  pub move :
      (k k' : Consumer)
      → s.consumer ≡ k
      → k ≢ ended
      → ((i : ℕ) → k ≢ placed i)
      → ((t : ℕ) → in_hand t k' ≡ in_hand t k)
      → hands k' ≡ hands k
      → Sound first n (record s { consumer = k' })
  move k k' q h h' same size = record {
    held = v.held;
    counted = λ t. omega (arith, v.counted t, ap (in_hand t) q, same t);
    sized = omega (arith, v.sized, ap hands q, size);
    idle = λ j w at. inl (all_ready k q h' j w at);
    closed = inl (at_work k q h);
  }

  pub choose-Sound :
      (tag : ℕ) (d : Delivery)
      → s.consumer ≡ selecting
      → d.tag ≡ tag
      → Sound first n (choose d (record s { arrived = tag ∷ s.arrived }))
  unfolding choose
  choose-Sound tag d q same = elim (Option-cases (get_elem? s.serving.workers 0)) [
    | inl e ↦ absurd (someone s.serving.workers v.held.sized e)
    | inr (w, e) ↦
        rw (e, choose)
          (record {
            held = v.held;
            counted = λ t. omega (arith, v.counted t, ap (in_hand t) q, ap (hit t) same);
            sized = omega (arith, v.sized, ap hands q);
            idle = λ j u at. inl (all_ready selecting q (λ i e. cc) j u at);
            closed = inl (at_work selecting q (λ e. cc));
          })
  ]
    where
      someone : (ws : List Worker) → length ws ≡ suc n → get_elem? ws 0 ≢ none
      someone [] h e = absurd (omega (arith, h))
      someone (x ∷ ws) h e = cc

  pub look-Sound :
      (best load next : ℕ) (d : Delivery)
      → s.consumer ≡ choosing best load next d
      → Sound first n (look best load next d s)
  unfolding look
  look-Sound best load next d q = elim (Option-cases (get_elem? s.serving.workers next)) [
    | inl e ↦ rw (e, look) (on_with (placing best d) (λ t. refl) refl)
    | inr (w, e) ↦ elim (Bool-cases (ltb (outstanding w) load)) [
      | inl f ↦
          rw (e, look)
            (rw f (on_with (choosing next (outstanding w) (suc next) d) (λ t. refl) refl))
      | inr f ↦ rw (e, look) (rw f (on_with (choosing best load (suc next) d) (λ t. refl) refl))
    ]
  ]
    where
      on_with :
          (k : Consumer)
          → ((t : ℕ) → in_hand t k ≡ hit t d.tag)
          → hands k ≡ 1
          → Sound first n (record s { consumer = k })
      on_with k = move (choosing best load next d) k q (λ e. cc) (λ i e. cc)

  -- The worker shuts down, and the message is left.
  leave_out :
      (i : ℕ) (d : Delivery)
      → s.consumer ≡ placing i d
      → Sound first n (record s { consumer = selecting; left = d.tag ∷ s.left })
  leave_out i d q = record {
    held = v.held;
    counted = λ t. omega (arith, v.counted t, ap (in_hand t) q);
    sized = omega (arith, v.sized, ap hands q);
    idle = λ j w at. inl (all_ready (placing i d) q (λ i e. cc) j w at);
    closed = inl (at_work (placing i d) q (λ e. cc));
  }

  -- The worker takes the message.
  take_in :
      (i : ℕ) (d : Delivery) (w : Worker)
      → s.consumer ≡ placing i d
      → get_elem? s.serving.workers i ≡ some w
      → (step (offers d) w).accepted ≡ d.tag ∷ w.accepted
      → Sound first n
          (record s { serving = pool_step (acts i (offers d)) s.serving; consumer = placed i })
  unfolding pool_step
  take_in i d w q e taken = record {
    held = pool_step-Held (acts i (offers d)) s.serving v.held;
    counted = λ t. omega (
      arith,
      v.counted t,
      ap (in_hand t) q,
      sum_of-set (λ w. times t w.accepted) s.serving.workers i (step (offers d)) w e,
      ap (times t) taken,
    );
    sized = omega (
      arith,
      v.sized,
      ap hands q,
      sum_of-set (λ w. length w.accepted) s.serving.workers i (step (offers d)) w e,
      ap (λ (l : List ℕ). length l) taken,
    );
    idle = λ j u at.
        let (x, here, which) = from_set s.serving.workers i j (step (offers d)) u at in
        elim which [
          | inl (ne, same) ↦
              inl
                (ap (λ (y : Worker). y.disp) same ∙ all_ready (placing i d) q (λ i e. cc) j x here)
          | inr (eq, same) ↦ inr (ap placed (sym eq))
        ];
    closed = inl (at_work (placing i d) q (λ e. cc));
  }

  pub place-Sound : (i : ℕ) (d : Delivery) → s.consumer ≡ placing i d → Sound first n (place i d s)
  unfolding place
  place-Sound i d q = elim (Option-cases (get_elem? s.serving.workers i)) [
    | inl e ↦ rw (e, place) v
    | inr (w, e) ↦ elim (Bool-cases (shutting_down w)) [
      | inl down ↦ rw (e, place) (rw down (leave_out i d q))
      | inr up ↦ elim (Option-cases (free_slot w)) [
        | inl full ↦ rw (e, place) (rw up (rw full v))
        | inr (g, free) ↦
            rw (e, place)
              (rw up (
                rw free (
                  take_in i d w q e
                    (offered_to w g (all_ready (placing i d) q (λ i e. cc) i w e) up free))))
      ]
    ]
  ]
    where
      offered_to :
          (w : Worker) (g : ℕ)
          → w.disp ≡ ready
          → shutting_down w ≡ false
          → free_slot w ≡ some g
          → (step (offers d) w).accepted ≡ d.tag ∷ w.accepted
      offered_to w g r up free = unfold step offer register in ground (arith, r, up, free)

  pub leave-Sound : (i : ℕ) → s.consumer ≡ placed i → Sound first n (leave i s)
  unfolding leave
  leave-Sound i q = elim (Option-cases (get_elem? s.serving.workers i)) [
    | inl e ↦ rw (e, leave) v
    | inr (w, e) ↦ turn w e w.disp refl
  ]
    where
      gone :
          (w : Worker)
          → get_elem? s.serving.workers i ≡ some w
          → w.disp ≡ ready
          → Sound first n (record s { consumer = selecting })
      gone w e r = record {
        held = v.held;
        counted = λ t. omega (arith, v.counted t, ap (in_hand t) q);
        sized = omega (arith, v.sized, ap hands q);
        idle = λ j u at. elim (v.idle j u at) [
          | inl h ↦ inl h
          | inr h ↦
              let same : i ≡ j = cc (q, h) in
              let found : some w ≡ some u = sym e ∙ (ap (get_elem? s.serving.workers) same ∙ at) in
              let one : w ≡ u = cc found in inl (ap (λ (y : Worker). y.disp) (sym one) ∙ r)
        ];
        closed = inl (at_work (placed i) q (λ h. cc));
      }

      turn :
          (w : Worker)
          → get_elem? s.serving.workers i ≡ some w
          → (x : Dispatcher) → w.disp ≡ x
          → Sound first n (leave i s)
      turn w e ready r = rw (e, leave) (rw r (gone w e r))
      turn w e (sending g id d) r = rw (e, leave) (rw r v)
      turn w e (returning c) r = rw (e, leave) (rw r v)
