-- ===== src/Engine/System/Every.antt =====
-- What holds of every worker of the pool, while Shutdown or the context acts on them.
use goxo.Base.{
  ◌<◌, [], ◌∷◌, length, ℕ, zero, suc, ◌≡◌, ◌≤◌, refl, ap, ◌∙◌, arith, true, subst, sym, inl, inr,
  some, List, get_elem?, Option-cases, Bool-cases,
}
use goxo.Engine.System.{interrupt}
use goxo.Worker.State.{Worker}
use goxo.Worker.Process.{begin_close, kill}
use goxo.Worker.Pool.{set}
use goxo.Worker.Steps.{cancels, step}
use goxo.Worker.Shutdown.{
  PoolAction, acts, Phase, serving, asking, waiting, killing, Serving, shutdown, pool_step, ask,
  await, overrun, shuts_down, asks, expires, awaits, overruns,
}
use goxo.Worker.Shutdown.Rounds.{from_set}

abbrev pub Every : (Worker → Type 0) → List Worker → Type 0
Every Q ws = (j : ℕ) (w : Worker) → get_elem? ws j ≡ some w → Q w

module _ (Q : Worker → Type 0) where
  pub set-Every :
      (ws : List Worker) (i : ℕ) (f : Worker → Worker)
      → ((w : Worker) → Q w → Q (f w))
      → Every Q ws
      → Every Q (set ws i f)
  set-Every ws i f keeps r j w' at' =
      let (w, at, which) = from_set ws i j f w' at' in
      elim which [
        | inl (_, q) ↦ subst Q (sym q) (r j w at)
        | inr (_, q) ↦ subst Q (sym q) (keeps w (r j w at))
      ]

  await-Every : (i : ℕ) (c : Serving) → Every Q c.workers → Every Q (await i c).workers
  unfolding await
  await-Every i c r = elim (Option-cases (get_elem? c.workers i)) [
    | inl e ↦ rw (e, await) r
    | inr (x, e) ↦ elim (Bool-cases x.stopped) [
      | inl t ↦ rw (e, await) (rw t r)
      | inr f ↦ rw (e, await) (rw f r)
    ]
  ]

  pub shutdown-Every :
      ((w : Worker) → Q w → Q (begin_close w))
      → ((w : Worker) → Q w → Q (kill w))
      → (a : PoolAction) (s : Phase) (c : Serving) → Every Q c.workers
      → Every Q (shutdown a s c).workers
  unfolding shutdown ask overrun
  shutdown-Every b k shuts_down serving c r = r
  shutdown-Every b k asks (asking i) c r = elim (Option-cases (get_elem? c.workers i)) [
    | inl e ↦ rw (e, ask) r
    | inr (x, e) ↦ rw (e, ask) (set-Every c.workers i begin_close b r)
  ]
  shutdown-Every b k expires (waiting i) c r = r
  shutdown-Every b k expires (killing i) c r = r
  shutdown-Every b k awaits (waiting i) c r = await-Every i c r
  shutdown-Every b k awaits (killing i) c r = await-Every i c r
  shutdown-Every b k overruns (waiting i) c r = elim (Option-cases (get_elem? c.workers i)) [
    | inl e ↦ rw (e, overrun) r
    | inr (x, e) ↦ elim (Bool-cases c.expired) [
      | inl t ↦ rw (e, overrun) (rw t (set-Every c.workers i kill k r))
      | inr f ↦ rw (e, overrun) (rw f r)
    ]
  ]
  shutdown-Every b k _ _ c r = r

  pub interrupt-Every :
      ((w : Worker) → Q w → Q (step cancels w))
      → (n : ℕ) (c : Serving) → Every Q c.workers
      → Every Q (interrupt n c).workers
  unfolding interrupt pool_step
  interrupt-Every h zero c r = r
  interrupt-Every h (suc n) c r =
      interrupt-Every h n (pool_step (acts n cancels) c) (set-Every c.workers n (step cancels) h r)

-- What interrupt does to the workers that it has not come to is left to show.
pub interrupt-cancelled :
    (n : ℕ) (c : Serving)
    → ((j : ℕ) (w : Worker) → n ≤ j → get_elem? c.workers j ≡ some w → w.cancelled ≡ true)
    → (j : ℕ) (w : Worker) → get_elem? (interrupt n c).workers j ≡ some w
    → w.cancelled ≡ true
unfolding interrupt pool_step
interrupt-cancelled zero c h j w at = h j w (omega arith) at
interrupt-cancelled (suc n) c h j w at =
    interrupt-cancelled n (pool_step (acts n cancels) c) earlier j w at
  where
    earlier :
        (k : ℕ) (x' : Worker)
        → n ≤ k
        → get_elem? (set c.workers n (step cancels)) k ≡ some x'
        → x'.cancelled ≡ true
    earlier k x' le at' =
        let (x, here, which) = from_set c.workers n k (step cancels) x' at' in
        let now : (step cancels x).cancelled ≡ true = unfold step in refl in
        elim which [
          | inl (ne, q) ↦ ap (λ (y : Worker). y.cancelled) q ∙ h k x (omega (arith, le, ne)) here
          | inr (_, q) ↦ ap (λ (y : Worker). y.cancelled) q ∙ now
        ]

pub in_bounds : (ws : List Worker) (j : ℕ) (w : Worker) → get_elem? ws j ≡ some w → j < length ws
in_bounds [] j w e = absurd (cc e)
in_bounds (x ∷ ws) zero w e = omega arith
in_bounds (x ∷ ws) (suc j) w e = omega (arith, in_bounds ws j w e)
