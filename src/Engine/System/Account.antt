-- ===== src/Engine/System/Account.antt =====
-- Every message that the broker delivered, from its arrival to its settlement.
use goxo.Base.{
  ℕ, ◌+◌, ◌-◌, ◌^◌, ◌<◌, ◌≡◌, refl, ap, sym, subst, ◌∙◌, ◌⊎◌, inl, inr, arith, some, List, [], ◌∷◌,
  length, get_elem?,
}
use goxo.Base.Int.{ℤ}
use goxo.Bus.Control.{Base64, Coder}
use goxo.Engine.Handling.{Engine}
use goxo.Engine.System.{ended, System, SystemAction, at_start, system_run}
use goxo.Engine.System.Counts.{
  settles, in_hand, sum_of, amqp_calls, settles-amqp_calls, sum_of-eq, sum_of-add, le-sum_of,
}
use goxo.Engine.System.Sound.{Sound}
use goxo.Engine.System.Balance.{system_run-Sound}
use goxo.Engine.System.Leaving.{Cancelled, Careful, system_run-Careful}
use goxo.Worker.State.{Config, Worker, ready, finished, new_worker}
use goxo.Worker.Invariant.{Inv, times, tally, owing, owed_disp}
use goxo.Worker.Runs.{run-Inv, new_worker-Inv}
use goxo.Worker.Pool.{new_pool, at_least_one}
use goxo.Worker.Shutdown.{over}
use goxo.Worker.Shutdown.Rounds.{Passed}
use goxo.Worker.Shutdown.Stopped.{HasEnded}
use goxo.Worker.Shutdown.Ending.{start-Held, get-replicate, ended_settled}

pub sum_of-zero : (ws : List Worker) → sum_of (λ w. 0) ws ≡ 0
sum_of-zero [] = refl
sum_of-zero (w ∷ ws) = omega (arith, sum_of-zero ws)

-- The workers of a new pool are new.
pub fresh :
    (cfg : Config) (size capacity : ℤ) (j : ℕ) (w : Worker)
    → get_elem? (at_start (new_pool cfg size capacity)).serving.workers j ≡ some w
    → w ≡ new_worker cfg (at_least_one capacity)
unfolding at_start new_pool
fresh cfg size capacity j w at = get-replicate _ j _ w at

fresh_sum :
    (f : List ℕ → ℕ) (cfg : Config) (size capacity : ℤ)
    → f [] ≡ 0
    → sum_of (λ w. f w.accepted) (at_start (new_pool cfg size capacity)).serving.workers ≡ 0
fresh_sum f cfg size capacity h =
    sum_of-eq (λ w. f w.accepted) (λ w. 0) _
      (λ j w at.
        ap (λ (x : Worker). f x.accepted) (fresh cfg size capacity j w at)
        ∙ (unfold new_worker in h))
    ∙ sum_of-zero _

pub at_start-Sound :
    (cfg : Config) (size capacity : ℤ)
    → Sound
        (new_worker cfg (at_least_one capacity))
        (length (new_pool cfg size capacity).others)
        (at_start (new_pool cfg size capacity))
at_start-Sound cfg size capacity = record {
  held = unfold at_start in start-Held cfg size capacity;
  counted = λ t.
      let none_taken = fresh_sum (times t) cfg size capacity refl in
      unfold at_start in omega (arith, none_taken);
  sized =
      let none_taken = fresh_sum (λ l. length l) cfg size capacity refl in
      unfold at_start in omega (arith, none_taken);
  idle = λ j w at.
      inl (
        ap (λ (x : Worker). x.disp) (fresh cfg size capacity j w at) ∙ (unfold new_worker in refl));
  closed = inl (unfold at_start in refl);
}

module _ {first : Worker} {n : ℕ} (s : System) (v : Sound first n s) (new : Inv first)
    (few : length s.arrived < 2 ^ 64 - 1) where
  worker-Inv : (j : ℕ) (w : Worker) → get_elem? s.serving.workers j ≡ some w → Inv w
  worker-Inv j w at =
      let (acts, e) = (v.held.pooled j w at).ran in
      let small : length w.accepted < 2 ^ 64 - 1 =
        omega (arith, v.sized, le-sum_of (λ w. length w.accepted) s.serving.workers j w at) in
      subst Inv (sym e)
        (run-Inv acts (subst (λ (x : Worker). length x.accepted < 2 ^ 64 - 1) e small) new)

  accounted :
      (t : ℕ)
      → times t s.arrived
        ≡ settles t (amqp_calls s)
          + in_hand t s.consumer
          + sum_of (λ w. owing t w) s.serving.workers
          + times t s.left
  accounted t = omega (
    arith,
    v.counted t,
    settles-amqp_calls t s,
    sum_of-eq (λ w. times t w.accepted) (λ w. owing t w + tally t w.calls) s.serving.workers
        (λ j w at. (worker-Inv j w at).conserved t),
    sum_of-add (λ w. owing t w) (λ w. tally t w.calls) s.serving.workers,
  )

  -- A worker of a pool that has been shut down owes what its timers owe.
  over_owing :
      (t : ℕ)
      → s.serving.phase ≡ over
      → (j : ℕ) (w : Worker) → get_elem? s.serving.workers j ≡ some w
      → times t w.accepted ≡ tally t w.fired + tally t w.calls
  over_owing t returned j w at =
      let k = v.held.pooled j w at in
      let stopped = k.passed (subst (λ p. Passed p j) (sym returned) tt) in
      let left : w.sup ≡ finished = unfold HasEnded in k.ended stopped in
      let settled = (ended_settled w (worker-Inv j w at) left).1 t in
      let out : w.disp ≡ ready = elim (v.idle j w at) [
        | inl h ↦ h
        | inr h ↦ elim v.closed [ inl p ↦ cc (returned, p) | inr p ↦ cc (h, p) ]
      ] in
      omega (arith, settled, ap (owed_disp t) out)

  over_settled :
      (t : ℕ)
      → s.serving.phase ≡ over
      → times t s.arrived
        ≡ settles t (amqp_calls s)
          + sum_of (λ w. tally t w.fired) s.serving.workers
          + times t s.left
  over_settled t returned = omega (
    arith,
    v.counted t,
    settles-amqp_calls t s,
    sum_of-eq (λ w. times t w.accepted) (λ w. tally t w.fired + tally t w.calls) s.serving.workers
        (over_owing t returned),
    sum_of-add (λ w. tally t w.fired) (λ w. tally t w.calls) s.serving.workers,
    ap (in_hand t) consumer_ended,
  )
    where
      consumer_ended : s.consumer ≡ ended
      consumer_ended = elim v.closed [ inl p ↦ cc (returned, p) | inr p ↦ p ]

pub at_start-Careful :
    (cfg : Config) (size capacity : ℤ) → Careful (at_start (new_pool cfg size capacity))
at_start-Careful cfg size capacity = record {
  agreed = inl (λ j w at.
      ap (λ (x : Worker). x.cancelled) (fresh cfg size capacity j w at)
      ∙ (unfold new_worker in refl));
  unclosed = inr (λ j w at.
      ap (λ (x : Worker). x.closing) (fresh cfg size capacity j w at)
      ∙ (unfold new_worker in refl));
  leaving = inl (unfold at_start in refl);
}

module _ {E : Type 0} (b : Base64) (c : Coder E) (e : Engine) where
  at_end :
      (cfg : Config) (size capacity : ℤ) (actions : List SystemAction)
      → Sound
          (new_worker cfg (at_least_one capacity))
          (length (new_pool cfg size capacity).others)
          (system_run b c e actions (at_start (new_pool cfg size capacity)))
  at_end cfg size capacity actions =
      system_run-Sound b c e actions _ (at_start-Sound cfg size capacity)

  -- However the broker, the consumer, the handlers, the timers and the shutdown interleave: at any
  -- time each message that came to the consumer has been settled by just one call on the AMQP
  -- channel, or is in the consumer's hands, or is owed by just one party of one worker, or was left
  -- by Dispatch, which leaves none before the context is cancelled. So no message is ever settled
  -- twice, and none is lost while the context lives. (A tag counts as often as it came; fewer than
  -- 2 ^ 64 - 1 messages have come.)
  pub arrived_accounted :
      (cfg : Config) (size capacity : ℤ) (actions : List SystemAction) (tag : ℕ)
      → length (system_run b c e actions (at_start (new_pool cfg size capacity))).arrived
        < 2 ^ 64 - 1
      → let s = system_run b c e actions (at_start (new_pool cfg size capacity)) in
        (times tag s.arrived
          ≡ settles tag (amqp_calls s)
            + in_hand tag s.consumer
            + sum_of (λ w. owing tag w) s.serving.workers
            + times tag s.left)
        × ((s.left ≡ []) ⊎ Cancelled s)
  arrived_accounted cfg size capacity actions tag few = (
    accounted _ (at_end cfg size capacity actions) (new_worker-Inv cfg (at_least_one capacity)) few
        tag,
    (system_run-Careful b c e actions _ (at_start-Careful cfg size capacity)).leaving,
  )

  -- When Run's Shutdown of the pool has returned, each message that ever came to the consumer has
  -- been settled by just one call on the AMQP channel, but for those that Dispatch left, and those
  -- whose timer is about to nack them. Dispatch left none unless the context was cancelled. (Fewer
  -- than 2 ^ 64 - 1 messages have come.)
  pub arrived_settled :
      (cfg : Config) (size capacity : ℤ) (actions : List SystemAction) (tag : ℕ)
      → length (system_run b c e actions (at_start (new_pool cfg size capacity))).arrived
        < 2 ^ 64 - 1
      → (system_run b c e actions (at_start (new_pool cfg size capacity))).serving.phase ≡ over
      → let s = system_run b c e actions (at_start (new_pool cfg size capacity)) in
        (times tag s.arrived
          ≡ settles tag (amqp_calls s)
            + sum_of (λ w. tally tag w.fired) s.serving.workers
            + times tag s.left)
        × ((s.left ≡ []) ⊎ Cancelled s)
  arrived_settled cfg size capacity actions tag few returned = (
    over_settled _ (at_end cfg size capacity actions) (new_worker-Inv cfg (at_least_one capacity))
        few tag returned,
    (system_run-Careful b c e actions _ (at_start-Careful cfg size capacity)).leaving,
  )
