-- ===== src/Engine/System/Sound.antt =====
-- Every step of the engine keeps the account of the messages.
use goxo.Base.{
  ℕ, suc, ◌+◌, ◌≤◌, ◌≡◌, refl, ap, ◌∙◌, ◌⊎◌, inl, inr, arith, some, List, length, get_elem?,
}
use goxo.Engine.System.{placed, ended, System}
use goxo.Engine.System.Counts.{settles, in_hand, hands, sum_of, sum_of-set_same}
use goxo.Engine.System.Quiet.{Rested, still, moved}
use goxo.Worker.State.{ready, Worker}
use goxo.Worker.Invariant.{times}
use goxo.Worker.Shutdown.{serving, Serving}
use goxo.Worker.Shutdown.Rounds.{Held, from_set}

Rested-sum :
    (f : List ℕ → ℕ) (ws us : List Worker)
    → Rested ws us
    → sum_of (λ w. f w.accepted) us ≡ sum_of (λ w. f w.accepted) ws
Rested-sum f ws us still = refl
Rested-sum f ws _ (moved {us} i g r q) =
    sum_of-set_same (λ w. f w.accepted) us i g (λ w. ap f (q w).0) ∙ Rested-sum f ws us r

Rested-ready :
    (ws us : List Worker) (j : ℕ) (w' : Worker)
    → Rested ws us
    → get_elem? us j ≡ some w'
    → (w : Worker) × (get_elem? ws j ≡ some w) × (w.disp ≡ ready → w'.disp ≡ ready)
Rested-ready ws us j w' still e = (w', e, λ h. h)
Rested-ready ws _ j w' (moved {us} i g r q) e =
    let (u, at, which) = from_set us i j g w' e in
    let (w, here, keep) = Rested-ready ws us j u r at in
    (
      w,
      here,
      λ h. elim which [
        | inl (n, same) ↦ ap (λ (x : Worker). x.disp) same ∙ keep h
        | inr (n, same) ↦ ap (λ (x : Worker). x.disp) same ∙ (q u).1 (keep h)
      ],
    )

-- The account of the messages, and where the goroutines stand.
pub record Sound (first : Worker) (n : ℕ) (s : System) : Type 0 where
  pub held : Held first (suc n) s.serving
  pub counted :
      (t : ℕ)
      → times t s.arrived
        ≡ settles t s.dropped
          + in_hand t s.consumer
          + sum_of (λ w. times t w.accepted) s.serving.workers
          + times t s.left
  pub sized :
      sum_of (λ w. length w.accepted) s.serving.workers + hands s.consumer ≤ length s.arrived
  pub idle :
      (j : ℕ) (w : Worker)
      → get_elem? s.serving.workers j ≡ some w
      → (w.disp ≡ ready) ⊎ (s.consumer ≡ placed j)
  pub closed : (s.serving.phase ≡ serving) ⊎ (s.consumer ≡ ended)

-- The workers go on, or Shutdown does.
pub rested :
    {first : Worker} {n : ℕ} (s : System) (c : Serving)
    → Sound first n s
    → Held first (suc n) c
    → Rested s.serving.workers c.workers
    → (c.phase ≡ serving) ⊎ (s.consumer ≡ ended)
    → Sound first n (record s { serving = c })
rested s c v h r k = record {
  held = h;
  counted = λ t. omega (arith, v.counted t, Rested-sum (times t) s.serving.workers c.workers r);
  sized = omega (arith, v.sized, Rested-sum (λ l. length l) s.serving.workers c.workers r);
  idle = λ j w at.
      let (u, here, keep) = Rested-ready s.serving.workers c.workers j w r at in
      elim (v.idle j u here) [ inl e ↦ inl (keep e) | inr e ↦ inr e ];
  closed = k;
}
