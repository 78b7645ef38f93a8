-- ===== src/Worker/Shutdown/Ending.antt =====
-- How Shutdown ends.
use goxo.Base.{
  ℕ, zero, suc, ◌+◌, ◌-◌, ◌^◌, ◌<◌, ◌≡◌, refl, ap, sym, subst, ◌∙◌, inl, inr, arith, true, some,
  List, [], ◌∷◌, length, get_elem?,
}
use goxo.Base.Int.{ℤ}
use goxo.Worker.State.{Config, Inflight, finished, Worker, new_worker}
use goxo.Worker.Steps.{run}
use goxo.Worker.Invariant.{Inv, Quiet, process_of, times, tally, hit, held, owed_sup, owed_disp}
use goxo.Worker.Runs.{run-Inv, new_worker-Inv}
use goxo.Worker.Table.{total-nil}
use goxo.Worker.Pool.{new_pool, workers, replicate, at_least_one}
use goxo.Worker.Shutdown.{
  Phase, serving, asking, waiting, killing, over, Serving, PoolAction, acts, shuts_down, asks,
  expires, awaits, overruns, shutdown, pool_step, pool_run, start,
}
use goxo.Worker.Shutdown.Stopped.{HasEnded}
use goxo.Worker.Shutdown.Rounds.{
  Asked, Passed, Held, Known-phase, Known-step, rephase, change, ask-Held, await-Held, overrun-Held,
}

expire-Held :
    {first : Worker} {n : ℕ} (c : Serving)
    → Held first n c
    → Held first n (record c { expired = true })
expire-Held c v = record { pooled = v.pooled; sized = v.sized }

pub shutdown-Held :
    {first : Worker} {n : ℕ} (a : PoolAction) (s : Phase) (c : Serving)
    → c.phase ≡ s
    → Held first n c
    → Held first n (shutdown a s c)
unfolding shutdown
shutdown-Held shuts_down serving c q v =
    rephase (asking 0) c v
      (λ j w at k. Known-phase (asking 0) k (λ h. absurd (omega (arith, h))) (λ h. absurd h))
shutdown-Held asks (asking i) c q v = ask-Held i c q v
shutdown-Held expires (waiting i) c q v = expire-Held c v
shutdown-Held expires (killing i) c q v = expire-Held c v
shutdown-Held awaits (waiting i) c q v = await-Held i c (inl q) v
shutdown-Held awaits (killing i) c q v = await-Held i c (inr q) v
shutdown-Held overruns (waiting i) c q v = overrun-Held i c q v
shutdown-Held _ _ c q v = v

pub pool_step-Held :
    {first : Worker} {n : ℕ} (a : PoolAction) (c : Serving)
    → Held first n c
    → Held first n (pool_step a c)
unfolding pool_step
pool_step-Held (acts i a) c v = change c.phase i a c v (λ j w _ k. k) (λ w _ k. Known-step a w k)
pool_step-Held a c v = shutdown-Held a c.phase c refl v

pool_run-Held :
    {first : Worker} {n : ℕ} (actions : List PoolAction) (c : Serving)
    → Held first n c
    → Held first n (pool_run actions c)
unfolding pool_run
pool_run-Held [] c v = v
pool_run-Held (a ∷ rest) c v = pool_run-Held rest (pool_step a c) (pool_step-Held a c v)

pub get-replicate : (n j : ℕ) (w₀ w : Worker) → get_elem? (w₀ ∷ replicate n w₀) j ≡ some w → w ≡ w₀
get-replicate n zero w₀ w e = cc e
get-replicate zero (suc j) w₀ w e = absurd (cc e)
get-replicate (suc n) (suc j) w₀ w e = get-replicate n j w₀ w e

pub start-Held :
    (cfg : Config) (size capacity : ℤ)
    → Held
        (new_worker cfg (at_least_one capacity))
        (length (workers (new_pool cfg size capacity)))
        (start (new_pool cfg size capacity))
unfolding start new_pool
start-Held cfg size capacity = record {
  pooled = λ j w at.
      let fresh : w ≡ new_worker cfg (at_least_one capacity) = get-replicate _ j _ w at in
      record {
        ran = ([], fresh ∙ (unfold run in refl));
        ended = subst HasEnded (sym fresh) (unfold HasEnded new_worker in (λ e. absurd (cc e)));
        asked = λ h. absurd h;
        passed = λ h. absurd h;
      };
  sized = refl;
}

-- What a worker owes that has ended.
pub ended_settled :
    (w : Worker)
    → Inv w
    → w.sup ≡ finished
    → (w.msgs ≡ [])
      × ((tag : ℕ)
          → times tag w.accepted ≡ owed_disp tag w.disp + tally tag w.fired + tally tag w.calls)
ended_settled w v e =
    let empty : w.msgs ≡ [] =
      subst (λ c. Quiet c w.msgs) (v.live ∙ ap (λ s. process_of s) e) v.quiet in
    (
      empty,
      λ tag. omega (
        arith,
        v.conserved tag,
        ap (held tag) empty,
        total-nil (λ (m : Inflight). hit tag m.tag),
        ap (owed_sup tag) e,
      ),
    )

-- When Shutdown returns, whatever the workers and the grace period did before and meanwhile, the pool
-- has the workers that it began with, and every one of them was asked to close, has stopped, and has
-- nothing in flight; each message that it accepted has been settled, once, but for one that Dispatch
-- has taken back and is about to requeue, and those whose timer is about to nack them. (Fewer than
-- 2 ^ 64 - 1 messages are accepted by the worker.)
pub shutdown_over :
    (cfg : Config) (size capacity : ℤ) (actions : List PoolAction) (j : ℕ) (w : Worker)
    → (pool_run actions (start (new_pool cfg size capacity))).phase ≡ over
    → get_elem? (pool_run actions (start (new_pool cfg size capacity))).workers j ≡ some w
    → length w.accepted < 2 ^ 64 - 1
    → (length (pool_run actions (start (new_pool cfg size capacity))).workers
        ≡ length (workers (new_pool cfg size capacity)))
      × (w.closing ≡ true)
      × (w.stopped ≡ true)
      × (w.msgs ≡ [])
      × ((tag : ℕ)
          → times tag w.accepted ≡ owed_disp tag w.disp + tally tag w.fired + tally tag w.calls)
shutdown_over cfg size capacity actions j w returned at few =
    let v = pool_run-Held actions _ (start-Held cfg size capacity) in
    let k = v.pooled j w at in
    let stopped = k.passed (subst (λ s. Passed s j) (sym returned) tt) in
    let (ran, e) = k.ran in
    let i : Inv w = subst Inv (sym e) (
      run-Inv ran (subst (λ (x : Worker). length x.accepted < 2 ^ 64 - 1) e few)
        (new_worker-Inv cfg (at_least_one capacity))) in
    let left : w.sup ≡ finished = unfold HasEnded in k.ended stopped in
    let (empty, settled) = ended_settled w i left in
    (v.sized, k.asked (subst (λ s. Asked s j) (sym returned) tt), stopped, empty, settled)
