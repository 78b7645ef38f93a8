-- ===== src/Engine/System/Closing.antt =====
-- How Run ends once no worker has anything left to do: the consumer's goroutine leaves Consume, and
-- Shutdown goes through its two loops.
use goxo.Base.{
  ℕ, zero, suc, ◌+◌, ◌<◌, ◌≤◌, ◌≡◌, refl, ap, sym, subst, ◌∙◌, ◌⊎◌, inl, inr, arith, true, none,
  some, List, [], ◌∷◌, length, get_elem?, ltb, Option-cases, Bool-cases,
}
use goxo.Bus.Control.{Base64, Coder}
use goxo.Engine.Handling.{Engine}
use goxo.Engine.System.{
  Consumer, selecting, choosing, placing, placed, ended, System, SystemAction, looks, places,
  leaves, stops, closes, look, place, leave, consume, system_step, system_run,
}
use goxo.Engine.System.Every.{in_bounds}
use goxo.Engine.System.Range.{InRange}
use goxo.Worker.State.{Delivery, Worker, ready}
use goxo.Worker.Messages.{shutting_down}
use goxo.Worker.Process.{request_stop, begin_close}
use goxo.Worker.Pool.{outstanding, set}
use goxo.Worker.Shutdown.{
  Phase, serving, asking, waiting, killing, over, PoolAction, shuts_down, asks, awaits, Serving,
  shutdown, ask, await,
}
use goxo.Worker.Shutdown.Rounds.{from_set, length-set}

-- A worker at its end, with Dispatch returned and no timer left to run.
pub record Rest (w : Worker) : Type 0 where
  pub stop : w.cancelled ≡ true
  pub marked : w.stopped ≡ true
  pub idle : w.disp ≡ ready
  pub none_fired : w.fired ≡ []

abbrev Resting : List Worker → Type 0
Resting ws = (j : ℕ) (w : Worker) → get_elem? ws j ≡ some w → Rest w

begin_close-Rest : (w : Worker) → Rest w → Rest (begin_close w)
begin_close-Rest w r = record {
  stop = unfold begin_close request_stop in ground (arith, r.stop);
  marked = unfold begin_close request_stop in ground (arith, r.marked);
  idle = unfold begin_close request_stop in ground (arith, r.idle);
  none_fired = unfold begin_close request_stop in ground (arith, r.none_fired);
}

set-Resting :
    (ws : List Worker) (i : ℕ) (f : Worker → Worker)
    → ((w : Worker) → Rest w → Rest (f w))
    → Resting ws
    → Resting (set ws i f)
set-Resting ws i f keeps r j w' at' =
    let (w, at, which) = from_set ws i j f w' at' in
    elim which [
      | inl (_, q) ↦ subst Rest (sym q) (r j w at)
      | inr (_, q) ↦ subst Rest (sym q) (keeps w (r j w at))
    ]

outside : (ws : List Worker) (i : ℕ) → length ws ≤ i → get_elem? ws i ≡ none
outside [] i h = refl
outside (w ∷ ws) zero h = absurd (omega (arith, h))
outside (w ∷ ws) (suc i) h = outside ws i (omega (arith, h))

pub inside : (ws : List Worker) (i : ℕ) → i < length ws → (w : Worker) × (get_elem? ws i ≡ some w)
inside [] i h = absurd (omega (arith, h))
inside (w ∷ ws) zero h = (w, refl)
inside (w ∷ ws) (suc i) h = inside ws i (omega (arith, h))

-- Everything has ended: Shutdown has returned, no timer is left to run, and `came` are the messages
-- that came.
pub record Closed (came : List ℕ) (s : System) : Type 0 where
  pub at_end : s.serving.phase ≡ over
  pub same : s.arrived ≡ came
  pub none_fired : (j : ℕ) (w : Worker) → get_elem? s.serving.workers j ≡ some w → w.fired ≡ []

module _ {E : Type 0} (b : Base64) (c : Coder E) (e : Engine) (came : List ℕ) where
  -- Some actions end everything.
  abbrev pub Closes : System → Type 0
  Closes s = (acts : List SystemAction) × Closed came (system_run b c e acts s)

  pub Closes-step :
      (a : SystemAction) (s s' : System) → system_step b c e a s ≡ s' → Closes s' → Closes s
  unfolding system_run
  Closes-step a s s' q (acts, h) =
      (a ∷ acts, subst (λ x. Closed came (system_run b c e acts x)) (sym q) h)

  -- The consumer has returned.
  record Still (s : System) : Type 0 where
    off : s.consumer ≡ ended
    same : s.arrived ≡ came
    rest : Resting s.serving.workers

  closing :
      (a : PoolAction) (s : System) (p : Phase) (x : Serving)
      → s.consumer ≡ ended
      → s.serving.phase ≡ p
      → shutdown a p s.serving ≡ x
      → system_step b c e (closes a) s ≡ record s { serving = x }
  unfolding system_step consume
  closing a s p x off q h =
      ap (λ k. consume b c e (closes a) k s) off
      ∙ ap (λ y. record s { serving = shutdown a y s.serving }) q
      ∙ ap (λ y. record s { serving = y }) h

  over-Closes : (s : System) → Still s → s.serving.phase ≡ over → Closes s
  unfolding system_run
  over-Closes s t q =
      ([], record { at_end = q; same = t.same; none_fired = λ j w at. (t.rest j w at).none_fired })

  rephased :
      (p : Phase) (s : System)
      → Still s
      → Still (record s { serving = record s.serving { phase = p } })
  rephased p s t = record { off = t.off; same = t.same; rest = t.rest }

  awaits-step :
      (i : ℕ) (s : System) (x : Serving)
      → s.consumer ≡ ended
      → (s.serving.phase ≡ waiting i) ⊎ (s.serving.phase ≡ killing i)
      → await i s.serving ≡ x
      → system_step b c e (closes awaits) s ≡ record s { serving = x }
  awaits-step i s x off q h = elim q [
    | inl p ↦ closing awaits s (waiting i) x off p (unfold shutdown in h)
    | inr p ↦ closing awaits s (killing i) x off p (unfold shutdown in h)
  ]

  wait-end :
      (i : ℕ) (s : System)
      → Still s
      → (s.serving.phase ≡ waiting i) ⊎ (s.serving.phase ≡ killing i)
      → get_elem? s.serving.workers i ≡ none
      → Closes s
  wait-end i s t q at =
      Closes-step (closes awaits) s (record s { serving = record s.serving { phase = over } })
        (awaits-step i s _ t.off q (unfold await in rw (at, await) refl))
        (over-Closes _ (rephased over s t) refl)

  -- The second loop has `k` rounds left at most.
  waiting-Closes :
      (k i : ℕ) (s : System)
      → Still s
      → (s.serving.phase ≡ waiting i) ⊎ (s.serving.phase ≡ killing i)
      → length s.serving.workers ≤ i + k
      → Closes s
  waiting-Closes zero i s t q few =
      wait-end i s t q (outside s.serving.workers i (omega (arith, few)))
  waiting-Closes (suc k) i s t q few = elim (Option-cases (get_elem? s.serving.workers i)) [
    | inl at ↦ wait-end i s t q at
    | inr (w, at) ↦
        Closes-step (closes awaits) s
          (record s { serving = record s.serving { phase = waiting (suc i) } })
          (awaits-step i s _ t.off q
            (unfold await in rw (at, await) (rw (t.rest i w at).marked refl)))
          (waiting-Closes k (suc i) _ (rephased (waiting (suc i)) s t) (inl refl)
            (omega (arith, few)))
  ]

  ask-end :
      (i : ℕ) (s : System)
      → Still s
      → s.serving.phase ≡ asking i
      → get_elem? s.serving.workers i ≡ none
      → Closes s
  ask-end i s t q at =
      Closes-step (closes asks) s (record s { serving = record s.serving { phase = waiting 0 } })
        (closing asks s (asking i) _ t.off q (unfold shutdown ask in rw (at, ask) refl))
        (waiting-Closes (length s.serving.workers) 0 _ (rephased (waiting 0) s t) (inl refl)
          (omega arith))

  -- The first loop has `k` rounds left at most, and then its end.
  asking-Closes :
      (k i : ℕ) (s : System)
      → Still s
      → s.serving.phase ≡ asking i
      → length s.serving.workers ≤ i + k
      → Closes s
  asking-Closes zero i s t q few =
      ask-end i s t q (outside s.serving.workers i (omega (arith, few)))
  asking-Closes (suc k) i s t q few = elim (Option-cases (get_elem? s.serving.workers i)) [
    | inl at ↦ ask-end i s t q at
    | inr (w, at) ↦
        Closes-step (closes asks) s
          (record s {
            serving = record s.serving {
              workers = set s.serving.workers i begin_close;
              phase = asking (suc i);
            };
          })
          (closing asks s (asking i) _ t.off q (unfold shutdown ask in rw (at, ask) refl))
          (asking-Closes k (suc i) _
            (record {
              off = t.off;
              same = t.same;
              rest = set-Resting s.serving.workers i begin_close begin_close-Rest t.rest;
            })
            refl (omega (arith, few, length-set s.serving.workers i begin_close)))
  ]

  Still-Closes : (p : Phase) (s : System) → Still s → s.serving.phase ≡ p → Closes s
  Still-Closes serving s t q =
      Closes-step (closes shuts_down) s
        (record s { serving = record s.serving { phase = asking 0 } })
        (closing shuts_down s serving _ t.off q (unfold shutdown in refl))
        (asking-Closes (length s.serving.workers) 0 _ (rephased (asking 0) s t) refl (omega arith))
  Still-Closes (asking i) s t q = asking-Closes (length s.serving.workers) i s t q (omega arith)
  Still-Closes (waiting i) s t q =
      waiting-Closes (length s.serving.workers) i s t (inl q) (omega arith)
  Still-Closes (killing i) s t q =
      waiting-Closes (length s.serving.workers) i s t (inr q) (omega arith)
  Still-Closes over s t q = over-Closes s t q

  -- A turn of the consumer.
  turning :
      (a : SystemAction) (k : Consumer) (s x : System)
      → s.consumer ≡ k
      → consume b c e a k s ≡ x
      → consume b c e a s.consumer s ≡ x
  turning a k s x q h = ap (λ y. consume b c e a y s) q ∙ h

  selecting-Closes :
      (s : System)
      → s.arrived ≡ came
      → Resting s.serving.workers
      → s.consumer ≡ selecting
      → Closes s
  selecting-Closes s same r q =
      Closes-step stops s (record s { consumer = ended })
        (unfold system_step in turning stops selecting s _ q (unfold consume in refl))
        (Still-Closes s.serving.phase _ (record { off = refl; same = same; rest = r }) refl)

  placed-Closes :
      (i : ℕ) (s : System)
      → s.arrived ≡ came
      → Resting s.serving.workers
      → s.consumer ≡ placed i
      → i < length s.serving.workers
      → Closes s
  placed-Closes i s same r q small =
      let (w, at) = inside s.serving.workers i small in
      Closes-step leaves s (record s { consumer = selecting })
        (unfold system_step in
          turning leaves (placed i) s _ q
            (unfold consume leave in rw (at, leave) (rw (r i w at).idle refl)))
        (selecting-Closes _ same r refl)

  -- Dispatch gives the message up, since the worker shuts down.
  placing-Closes :
      (i : ℕ) (d : Delivery) (s : System)
      → s.arrived ≡ came
      → Resting s.serving.workers
      → s.consumer ≡ placing i d
      → i < length s.serving.workers
      → Closes s
  placing-Closes i d s same r q small =
      let (w, at) = inside s.serving.workers i small in
      let stop = (r i w at).stop in
      let down : shutting_down w ≡ true = unfold shutting_down in ground (arith, stop) in
      Closes-step places s (record s { consumer = selecting; left = d.tag ∷ s.left })
        (unfold system_step in
          turning places (placing i d) s _ q
            (unfold consume place in rw (at, place) (rw down refl)))
        (selecting-Closes _ same r refl)

  look-end :
      (best load next : ℕ) (d : Delivery) (s : System)
      → s.arrived ≡ came
      → Resting s.serving.workers
      → s.consumer ≡ choosing best load next d
      → best < length s.serving.workers
      → get_elem? s.serving.workers next ≡ none
      → Closes s
  look-end best load next d s same r q small at =
      Closes-step looks s (record s { consumer = placing best d })
        (unfold system_step in
          turning looks (choosing best load next d) s _ q
            (unfold consume look in rw (at, look) refl))
        (placing-Closes best d _ same r refl small)

  -- leastLoaded has `k` rounds left at most, and then its end.
  choosing-Closes :
      (k best load next : ℕ) (d : Delivery) (s : System)
      → s.arrived ≡ came
      → Resting s.serving.workers
      → s.consumer ≡ choosing best load next d
      → best < length s.serving.workers
      → length s.serving.workers ≤ next + k
      → Closes s
  choosing-Closes zero best load next d s same r q small few =
      look-end best load next d s same r q small
        (outside s.serving.workers next (omega (arith, few)))
  choosing-Closes (suc k) best load next d s same r q small few =
      elim (Option-cases (get_elem? s.serving.workers next)) [
        | inl at ↦ look-end best load next d s same r q small at
        | inr (w, at) ↦ elim (Bool-cases (ltb (outstanding w) load)) [
          | inl less ↦
              Closes-step looks s
                (record s { consumer = choosing next (outstanding w) (suc next) d })
                (unfold system_step in
                  turning looks (choosing best load next d) s _ q
                    (unfold consume look in rw (at, look) (rw less refl)))
                (choosing-Closes k next (outstanding w) (suc next) d _ same r refl
                  (in_bounds s.serving.workers next w at) (omega (arith, few)))
          | inr more ↦
              Closes-step looks s (record s { consumer = choosing best load (suc next) d })
                (unfold system_step in
                  turning looks (choosing best load next d) s _ q
                    (unfold consume look in rw (at, look) (rw more refl)))
                (choosing-Closes k best load (suc next) d _ same r refl small (omega (arith, few)))
        ]
      ]

  pub Resting-Closes :
      (k : Consumer) (s : System)
      → s.arrived ≡ came
      → Resting s.serving.workers
      → s.consumer ≡ k
      → InRange (length s.serving.workers) k
      → Closes s
  Resting-Closes selecting s same r q h = selecting-Closes s same r q
  Resting-Closes (choosing best load next d) s same r q h =
      choosing-Closes (length s.serving.workers) best load next d s same r q h (omega arith)
  Resting-Closes (placing i d) s same r q h = placing-Closes i d s same r q h
  Resting-Closes (placed i) s same r q h = placed-Closes i s same r q h
  Resting-Closes ended s same r q h =
      Still-Closes s.serving.phase s (record { off = q; same = same; rest = r }) refl
