-- ===== src/Engine/System/Drain.antt =====
-- internal/engine/engine.go: the engine never gets stuck. From wherever a run has led it, Run's
-- Shutdown can return.
use goxo.Base.{
  ℕ, zero, suc, ◌-◌, ◌^◌, ◌<◌, ◌≤◌, ◌+◌, ◌≡◌, refl, ap, sym, subst, ◌∙◌, ◌⊎◌, inl, inr, arith, true,
  some, List, [], ◌∷◌, ◌++◌, length, get_elem?, Option-cases,
}
use goxo.Base.Int.{ℤ}
use goxo.Bus.Control.{Base64, Coder}
use goxo.Engine.Handling.{Engine}
use goxo.Engine.System.{
  System, SystemAction, interrupts, works, interrupt, at_start, system_step, system_run,
}
use goxo.Engine.System.Counts.{settles, in_hand, amqp_calls, sum_of-eq}
use goxo.Engine.System.Leaving.{Cancelled, system_run-Careful}
use goxo.Engine.System.Handed.{Handed, system_run-Handed}
use goxo.Engine.System.Every.{interrupt-cancelled, in_bounds}
use goxo.Engine.System.Sound.{Sound}
use goxo.Engine.System.Balance.{system_step-Sound, system_run-Sound}
use goxo.Engine.System.Account.{at_start-Sound, at_start-Careful, arrived_settled, sum_of-zero}
use goxo.Engine.System.Range.{InRange, system_run-InRange}
use goxo.Engine.System.Closing.{Rest, Closed, Closes, Closes-step, Resting-Closes}
use goxo.Worker.State.{Config, Worker, new_worker}
use goxo.Worker.Invariant.{times, tally}
use goxo.Worker.Drain.{AllOwn, Ends-stopping}
use goxo.Worker.Steps.{Action, step, run}
use goxo.Worker.Pool.{new_pool, set}
use goxo.Worker.Shutdown.{over, pool_step}
use goxo.Worker.Shutdown.Rounds.{from_set, before_end, length-set}
use goxo.Worker.Shutdown.Stopped.{HasStopped, run-HasStopped}

set-run : (ws : List Worker) (i : ℕ) → set ws i (run []) ≡ ws
unfolding run
set-run [] i = refl
set-run (w ∷ ws) zero = refl
set-run (w ∷ ws) (suc i) = ap (λ us. w ∷ us) (set-run ws i)

set-set :
    (ws : List Worker) (i : ℕ) (a : Action) (turns : List Action)
    → set (set ws i (step a)) i (run turns) ≡ set ws i (run (a ∷ turns))
unfolding run
set-set [] i a turns = refl
set-set (w ∷ ws) zero a turns = refl
set-set (w ∷ ws) (suc i) a turns = ap (λ us. w ∷ us) (set-set ws i a turns)

-- Of the workers, those below `k` are told to stop, and the others have.
abbrev Draining : ℕ → List Worker → Type 0
Draining k ws =
    (j : ℕ) (w : Worker)
    → get_elem? ws j ≡ some w
    → (j < k → (w.cancelled ≡ true) × HasStopped w) × (k ≤ j → Rest w)

drained :
    (k : ℕ) (ws : List Worker) (f : Worker → Worker) (w : Worker)
    → get_elem? ws k ≡ some w
    → Rest (f w)
    → Draining (suc k) ws
    → Draining k (set ws k f)
drained k ws f w at done r j w' at' =
    let (x, here, which) = from_set ws k j f w' at' in
    elim which [
      | inl (ne, q) ↦ (
        λ small.
            subst (λ y. (y.cancelled ≡ true) × HasStopped y) (sym q)
              ((r j x here).0 (omega (arith, small))),
        λ le. subst Rest (sym q) ((r j x here).1 (omega (arith, ne, le))),
      )
      | inr (eq, q) ↦
          let one : some x ≡ some w = sym here ∙ (ap (get_elem? ws) eq ∙ at) in
          let found : x ≡ w = cc one in
          (λ small. absurd (omega (arith, small, eq)), λ le. subst Rest (sym (q ∙ ap f found)) done)
    ]

module _ {E : Type 0} (b : Base64) (c : Coder E) (e : Engine) (came : List ℕ) where
  -- One worker acts on its own.
  driven :
      (i : ℕ) (turns : List Action) (s : System)
      → AllOwn turns
      → Closes b c e came (record s {
        serving = record s.serving { workers = set s.serving.workers i (run turns) };
      })
      → Closes b c e came s
  driven i [] s all h =
      subst (λ ws. Closes b c e came (record s { serving = record s.serving { workers = ws } }))
        (set-run s.serving.workers i) h
  driven i (a ∷ turns) s (o, all) h =
      Closes-step b c e came (works i a) s
        (record s { serving = record s.serving { workers = set s.serving.workers i (step a) } })
        (unfold system_step pool_step in rw o refl)
        (driven i turns _ all (
          subst (λ ws. Closes b c e came (record s { serving = record s.serving { workers = ws } }))
            (sym (set-set s.serving.workers i a turns)) h))

  Draining-Closes :
      (k : ℕ) (s : System)
      → s.arrived ≡ came
      → InRange (length s.serving.workers) s.consumer
      → Draining k s.serving.workers
      → Closes b c e came s
  Draining-Closes zero s same h r =
      Resting-Closes b c e came s.consumer s same (λ j w at. (r j w at).1 (omega arith)) refl h
  Draining-Closes (suc k) s same h r = elim (Option-cases (get_elem? s.serving.workers k)) [
    | inl at ↦ Draining-Closes k s same h (λ j w here. (
      λ small. (r j w here).0 (omega (arith, small)),
      λ le. absurd (omega (arith, le, before_end s.serving.workers k j w at here)),
    ))
    | inr (w, at) ↦
        let (stop, marked) = (r k w at).0 (omega arith) in
        let (turns, all, at_end, idle, none_fired, _, still) = Ends-stopping w stop in
        let done : Rest (run turns w) = record {
          stop = still;
          marked = unfold HasStopped in run-HasStopped turns w marked at_end;
          idle = idle;
          none_fired = none_fired;
        } in
        driven k turns s all (
          Draining-Closes k _ same
            (subst (λ m. InRange m s.consumer) (sym (length-set s.serving.workers k (run turns))) h)
            (drained k s.serving.workers (run turns) w at done r))
  ]

  -- The context is cancelled first.
  stopping-Closes :
      {first : Worker} {n : ℕ} (s : System)
      → Sound first n s
      → HasStopped first
      → InRange (suc n) s.consumer
      → s.arrived ≡ came
      → Closes b c e came s
  stopping-Closes s v new h same =
      let s' : System = record s { serving = interrupt (length s.serving.workers) s.serving } in
      let reached : system_step b c e interrupts s ≡ s' = unfold system_step in refl in
      let v' = subst (Sound _ _) reached (system_step-Sound b c e interrupts s v) in
      Closes-step b c e came interrupts s s' reached (
        Draining-Closes (length s'.serving.workers) s' same
          (subst (λ m. InRange m s.consumer) (sym v'.held.sized) h)
          (λ j w at. (
            λ _. (
              interrupt-cancelled (length s.serving.workers) s.serving
                  (λ i x le here. absurd (omega (arith, le, in_bounds s.serving.workers i x here)))
                  j w at,
              let (ran, q) = (v'.held.pooled j w at).ran in
                  subst HasStopped (sym q) (run-HasStopped ran _ new),
            ),
            λ le. absurd (omega (arith, le, in_bounds s'.serving.workers j w at)),
          )))

  system_run-append :
      (xs ys : List SystemAction) (s : System)
      → system_run b c e (xs ++ ys) s ≡ system_run b c e ys (system_run b c e xs s)
  unfolding system_run
  system_run-append [] ys s = refl
  system_run-append (x ∷ xs) ys s = system_run-append xs ys (system_step b c e x s)

module _ {E : Type 0} (b : Base64) (c : Coder E) (e : Engine) where
  reached-Closes :
      (cfg : Config) (size capacity : ℤ) (actions : List SystemAction)
      → let s = system_run b c e actions (at_start (new_pool cfg size capacity)) in
        Closes b c e s.arrived s
  reached-Closes cfg size capacity actions =
      let begun = at_start-Sound cfg size capacity in
      stopping-Closes b c e _ _ (system_run-Sound b c e actions _ begun)
        (unfold HasStopped new_worker in (λ q. absurd (cc q)))
        (system_run-InRange _ b c e actions _ begun (unfold at_start in tt)) refl

  -- From wherever a run has led the engine, some further actions, with which no further message
  -- comes, let Run's Shutdown of the pool return with no timer left to run, and then each message
  -- that ever came has been settled by just one call on the AMQP channel, or was left by Dispatch.
  -- These actions leave no other message than the one that the consumer has in hand, and before them
  -- none was left unless the context was cancelled. So the engine never gets stuck with a message.
  -- (Fewer than 2 ^ 64 - 1 messages have come. The actions cancel the context and let the handlers'
  -- processes end.)
  pub arrived_drains :
      (cfg : Config) (size capacity : ℤ) (actions : List SystemAction)
      → length (system_run b c e actions (at_start (new_pool cfg size capacity))).arrived
        < 2 ^ 64 - 1
      → (more : List SystemAction) × (let s =
            system_run b c e actions (at_start (new_pool cfg size capacity)) in
          let t = system_run b c e (actions ++ more) (at_start (new_pool cfg size capacity)) in
          (t.serving.phase ≡ over)
          × (t.arrived ≡ s.arrived)
          × ((tag : ℕ) → times tag s.arrived ≡ settles tag (amqp_calls t) + times tag t.left)
          × ((tag : ℕ) → times tag t.left ≤ times tag s.left + in_hand tag s.consumer)
          × ((s.left ≡ []) ⊎ Cancelled s))
  arrived_drains cfg size capacity actions few =
      let s = system_run b c e actions (at_start (new_pool cfg size capacity)) in
      let (more, closed) = reached-Closes cfg size capacity actions in
      let whole =
        system_run-append b c e s.arrived actions more (at_start (new_pool cfg size capacity)) in
      let end : Closed s.arrived
          (system_run b c e (actions ++ more) (at_start (new_pool cfg size capacity))) =
        subst (Closed s.arrived) (sym whole) closed in
      let t = system_run b c e (actions ++ more) (at_start (new_pool cfg size capacity)) in
      let few' : length t.arrived < 2 ^ 64 - 1 = omega (arith, few, ap (length {A = ℕ}) end.same) in
      (
        more,
        (
          end.at_end,
          end.same,
          λ tag. omega (
            arith,
            (arrived_settled b c e cfg size capacity (actions ++ more) tag few' end.at_end).0,
            ap (times tag) end.same,
            sum_of-eq (λ w. tally tag w.fired) (λ w. 0) t.serving.workers
                (λ j w at. ap (tally tag) (end.none_fired j w at)),
            sum_of-zero t.serving.workers,
          ),
          λ tag. omega (
            arith,
            subst (Handed tag s) (sym whole) (system_run-Handed tag b c e more s),
            ap (times tag) end.same,
          ),
          (system_run-Careful b c e actions _ (at_start-Careful cfg size capacity)).leaving,
        ),
      )
