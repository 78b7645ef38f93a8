-- ===== src/Engine/System/Quiet.antt =====
-- What the workers do on their own, and what Shutdown and the context do to them, takes no message.
use goxo.Base.{
  ℕ, zero, suc, ◌≡◌, refl, ap, inl, inr, true, List, get_elem?, Option-cases, Bool-cases,
}
use goxo.Engine.System.{interrupt}
use goxo.Worker.State.{Worker}
use goxo.Worker.Process.{begin_close, kill}
use goxo.Worker.Steps.{Action, cancels, own, step}
use goxo.Worker.Shutdown.{
  PoolAction, acts, Phase, serving, asking, waiting, killing, Serving, shutdown, pool_step, ask,
  await, overrun, shuts_down, asks, expires, awaits, overruns,
}
use goxo.Worker.Pool.{set}
use goxo.Worker.Quiet.{IsQuiet, step-IsQuiet, begin_close-IsQuiet, kill-IsQuiet}

pub own-IsQuiet : (a : Action) (w : Worker) → own a ≡ true → IsQuiet w (step a w)
unfolding own
own-IsQuiet a w h = step-IsQuiet a w (λ d e. cc (ap own e, h))

-- Workers that did what is quiet, each in its place.
pub data Rested (ws : List Worker) : List Worker → Type 0 where
  still : Rested ws ws
  moved :
      {us : List Worker} (i : ℕ) (f : Worker → Worker)
      → Rested ws us
      → ((w : Worker) → IsQuiet w (f w))
      → Rested ws (set us i f)

one :
    (ws : List Worker) (i : ℕ) (f : Worker → Worker)
    → ((w : Worker) → IsQuiet w (f w))
    → Rested ws (set ws i f)
one ws i f q = moved i f still q

pub works-Rested :
    (i : ℕ) (a : Action) (c : Serving)
    → own a ≡ true
    → Rested c.workers (pool_step (acts i a) c).workers
unfolding pool_step
works-Rested i a c h = one c.workers i (step a) (λ w. own-IsQuiet a w h)

await-Rested : (i : ℕ) (c : Serving) → Rested c.workers (await i c).workers
unfolding await
await-Rested i c = elim (Option-cases (get_elem? c.workers i)) [
  | inl e ↦ rw (e, await) still
  | inr (x, e) ↦ elim (Bool-cases x.stopped) [
    | inl t ↦ rw (e, await) (rw t still)
    | inr f ↦ rw (e, await) (rw f still)
  ]
]

pub shutdown-Rested :
    (a : PoolAction) (s : Phase) (c : Serving) → Rested c.workers (shutdown a s c).workers
unfolding shutdown
shutdown-Rested shuts_down serving c = still
shutdown-Rested asks (asking i) c = elim (Option-cases (get_elem? c.workers i)) [
  | inl e ↦ unfold ask in rw (e, ask) still
  | inr (x, e) ↦ unfold ask in rw (e, ask) (one c.workers i begin_close begin_close-IsQuiet)
]
shutdown-Rested expires (waiting i) c = still
shutdown-Rested expires (killing i) c = still
shutdown-Rested awaits (waiting i) c = await-Rested i c
shutdown-Rested awaits (killing i) c = await-Rested i c
shutdown-Rested overruns (waiting i) c = elim (Option-cases (get_elem? c.workers i)) [
  | inl e ↦ unfold overrun in rw (e, overrun) still
  | inr (x, e) ↦ elim (Bool-cases c.expired) [
    | inl t ↦ unfold overrun in rw (e, overrun) (rw t (one c.workers i kill kill-IsQuiet))
    | inr f ↦ unfold overrun in rw (e, overrun) (rw f still)
  ]
]
shutdown-Rested _ _ c = still

interrupt_from :
    (n : ℕ) (ws : List Worker) (c : Serving)
    → Rested ws c.workers
    → Rested ws (interrupt n c).workers
unfolding interrupt pool_step
interrupt_from zero ws c r = r
interrupt_from (suc n) ws c r =
    interrupt_from n ws (pool_step (acts n cancels) c)
      (moved n (step cancels) r (λ w. unfold step in (refl, λ e. e)))

pub interrupt-Rested : (n : ℕ) (c : Serving) → Rested c.workers (interrupt n c).workers
interrupt-Rested n c = interrupt_from n c.workers c still
