-- ===== src/Worker/Shutdown/Rounds.antt =====
-- What each round of Shutdown's loops leaves of the workers.
use goxo.Base.{
  ℕ, zero, suc, ◌<◌, ◌≡◌, ◌≢◌, refl, ap, sym, subst, ◌∙◌, ◌⊎◌, inl, inr, arith, true, none, some,
  List, [], ◌∷◌, ◌++◌, length, Option-cases, Bool-cases, get_elem?, nat_eq,
}
use goxo.Worker.State.{Worker}
use goxo.Worker.Process.{begin_close}
use goxo.Worker.Steps.{Action, closing_begins, kills, step, run}
use goxo.Worker.Runs.{Down-step}
use goxo.Worker.Drain.{run-append}
use goxo.Worker.Pool.{set}
use goxo.Worker.Shutdown.{
  Phase, serving, asking, waiting, killing, over, Serving, ask, await, overrun,
}
use goxo.Worker.Shutdown.Stopped.{HasEnded, step-HasEnded, step-stopped}

-- The workers that Shutdown has asked to close, and those that it has seen stop.
abbrev pub Asked : Phase → ℕ → Type 0
Asked serving j = ⊥
Asked (asking i) j = j < i
Asked (waiting i) j = Unit
Asked (killing i) j = Unit
Asked over j = Unit

abbrev pub Passed : Phase → ℕ → Type 0
Passed serving j = ⊥
Passed (asking i) j = ⊥
Passed (waiting i) j = j < i
Passed (killing i) j = j < i
Passed over j = Unit

-- What is known of a worker of the pool, the j-th.
pub record Known (first : Worker) (s : Phase) (j : ℕ) (w : Worker) : Type 0 where
  pub ran : (acts : List Action) × (w ≡ run acts first)
  pub ended : HasEnded w
  pub asked : Asked s j → w.closing ≡ true
  pub passed : Passed s j → w.stopped ≡ true

pub Known-step :
    {first : Worker} {s : Phase} {j : ℕ} (a : Action) (w : Worker)
    → Known first s j w
    → Known first s j (step a w)
Known-step {first} a w k = record {
  ran = (
    k.ran.0 ++ (a ∷ []),
    ap (step a) k.ran.1 ∙ sym (run-append k.ran.0 (a ∷ []) first ∙ unfold run in refl),
  );
  ended = step-HasEnded a w k.ended;
  asked = λ h. (Down-step a w).0 (k.asked h);
  passed = λ h. step-stopped a w (k.passed h);
}

abbrev pub Pooled : Worker → Phase → List Worker → Type 0
Pooled first s ws = (j : ℕ) (w : Worker) → get_elem? ws j ≡ some w → Known first s j w

-- What stands where a list was changed.
pub from_set :
    (ws : List Worker) (i j : ℕ) (f : Worker → Worker) (w' : Worker)
    → get_elem? (set ws i f) j ≡ some w'
    → (w : Worker) × (get_elem? ws j ≡ some w) × (((j ≢ i) × (w' ≡ w)) ⊎ ((j ≡ i) × (w' ≡ f w)))
from_set [] i j f w' e = absurd (cc e)
from_set (w ∷ ws) zero zero f w' e = (w, refl, inr (refl, cc e))
from_set (w ∷ ws) zero (suc j) f w' e = (w', e, inl (omega arith, refl))
from_set (w ∷ ws) (suc i) zero f w' e = (w, refl, inl (omega arith, cc e))
from_set (w ∷ ws) (suc i) (suc j) f w' e =
    let (u, at, which) = from_set ws i j f w' e in
    (u, at, elim which [ inl (n, q) ↦ inl (omega (arith, n), q) | inr (n, q) ↦ inr (ap suc n, q) ])

-- A list without an i-th entry ends before it.
pub before_end :
    (ws : List Worker) (i j : ℕ) (w : Worker)
    → get_elem? ws i ≡ none
    → get_elem? ws j ≡ some w
    → j < i
before_end [] i j w e h = absurd (cc h)
before_end (x ∷ ws) zero j w e h = absurd (cc e)
before_end (x ∷ ws) (suc i) zero w e h = omega arith
before_end (x ∷ ws) (suc i) (suc j) w e h = omega (arith, before_end ws i j w e h)

pub Known-phase :
    {first : Worker} {s : Phase} {j : ℕ} {w : Worker} (s' : Phase)
    → Known first s j w
    → (Asked s' j → w.closing ≡ true)
    → (Passed s' j → w.stopped ≡ true)
    → Known first s' j w
Known-phase s' k a p = record { ran = k.ran; ended = k.ended; asked = a; passed = p }

pub record Held (first : Worker) (size : ℕ) (c : Serving) : Type 0 where
  pub pooled : Pooled first c.phase c.workers
  pub sized : length c.workers ≡ size

pub length-set : (ws : List Worker) (i : ℕ) (f : Worker → Worker) → length (set ws i f) ≡ length ws
length-set [] i f = refl
length-set (w ∷ ws) zero f = refl
length-set (w ∷ ws) (suc i) f = ap suc (length-set ws i f)

-- One worker takes a step, and the phase changes or not.
pub change :
    {first : Worker} {n : ℕ} (s' : Phase) (i : ℕ) (a : Action) (c : Serving)
    → Held first n c
    → ((j : ℕ) (w : Worker) → j ≢ i → Known first c.phase j w → Known first s' j w)
    → ((w : Worker)
        → get_elem? c.workers i ≡ some w
        → Known first c.phase i w
        → Known first s' i (step a w))
    → Held first n (record c { workers = set c.workers i (step a); phase = s' })
change {first} s' i a c v others this = record {
  pooled = λ j w' at'.
      let (w, at, which) = from_set c.workers i j (step a) w' at' in
      elim which [
        | inl (n, q) ↦ subst (Known first s' j) (sym q) (others j w n (v.pooled j w at))
        | inr (n, q) ↦
            subst (λ x. Known first s' j x) (sym q)
              (subst (λ k. Known first s' k (step a w)) (sym n)
                (this w (subst (λ k. get_elem? c.workers k ≡ some w) n at)
                  (subst (λ k. Known first c.phase k w) n (v.pooled j w at))))
      ];
  sized = length-set c.workers i (step a) ∙ v.sized;
}

-- The phase changes, and no worker.
pub rephase :
    {first : Worker} {n : ℕ} (s' : Phase) (c : Serving)
    → Held first n c
    → ((j : ℕ) (w : Worker)
        → get_elem? c.workers j ≡ some w
        → Known first c.phase j w
        → Known first s' j w)
    → Held first n (record c { phase = s' })
rephase s' c v f = record { pooled = λ j w at. f j w at (v.pooled j w at); sized = v.sized }

pub ask-Held :
    {first : Worker} {n : ℕ} (i : ℕ) (c : Serving)
    → c.phase ≡ asking i
    → Held first n c
    → Held first n (ask i c)
unfolding ask step
ask-Held {first} i c q v = elim (Option-cases (get_elem? c.workers i)) [
  | inl e ↦
      rw (e, ask)
        (rephase (waiting 0) c v (λ j w at k.
          Known-phase (waiting 0) k
            (λ _. k.asked (subst (λ s. Asked s j) (sym q) (before_end c.workers i j w e at)))
            (λ h. absurd (omega (arith, h)))))
  | inr (x, e) ↦
      rw (e, ask)
        (change (asking (suc i)) i closing_begins c v
          (λ j w ne k.
            Known-phase (asking (suc i)) k
              (λ h. k.asked (subst (λ s. Asked s j) (sym q) (omega (arith, h, ne))))
              (λ h. absurd h))
          (λ w at k.
            Known-phase (asking (suc i)) (Known-step closing_begins w k)
              (λ _. unfold begin_close in ground arith) (λ h. absurd h)))
]

-- The select of the second loop is at `i` in both phases.
pub await-Held :
    {first : Worker} {n : ℕ} (i : ℕ) (c : Serving)
    → (c.phase ≡ waiting i) ⊎ (c.phase ≡ killing i)
    → Held first n c
    → Held first n (await i c)
unfolding await
await-Held {first} i c q v = elim (Option-cases (get_elem? c.workers i)) [
  | inl e ↦
      rw (e, await)
        (rephase over c v (λ j w at k.
          Known-phase over k (λ _. asked j w k)
            (λ _. passed j w k (before_end c.workers i j w e at))))
  | inr (x, e) ↦ elim (Bool-cases x.stopped) [
    | inr f ↦ rw (e, await) (rw f v)
    | inl t ↦
        rw (e, await)
          (rw t (
            rephase (waiting (suc i)) c v (λ j w at k.
              Known-phase (waiting (suc i)) k (λ _. asked j w k)
                (λ h. elim (Bool-cases (nat_eq j i)) [
                  | inl same ↦
                      let here : j ≡ i = ground arith in
                      let one : some x ≡ some w =
                        sym e ∙ (ap (get_elem? c.workers) (sym here) ∙ at) in
                      let found : x ≡ w = cc one in ap (λ (y : Worker). y.stopped) (sym found) ∙ t
                  | inr other ↦ passed j w k (ground arith)
                ]))))
  ]
]
  where
    asked : (j : ℕ) (w : Worker) → Known first c.phase j w → w.closing ≡ true
    asked j w k = elim q [
      | inl p ↦ k.asked (subst (λ s. Asked s j) (sym p) tt)
      | inr p ↦ k.asked (subst (λ s. Asked s j) (sym p) tt)
    ]

    passed : (j : ℕ) (w : Worker) → Known first c.phase j w → j < i → w.stopped ≡ true
    passed j w k h = elim q [
      | inl p ↦ k.passed (subst (λ s. Passed s j) (sym p) h)
      | inr p ↦ k.passed (subst (λ s. Passed s j) (sym p) h)
    ]

pub overrun-Held :
    {first : Worker} {n : ℕ} (i : ℕ) (c : Serving)
    → c.phase ≡ waiting i
    → Held first n c
    → Held first n (overrun i c)
unfolding overrun step
overrun-Held {first} {n} i c q v = elim (Option-cases (get_elem? c.workers i)) [
  | inl e ↦ rw (e, overrun) v
  | inr (x, e) ↦ elim (Bool-cases c.expired) [
    | inr f ↦ let same : overrun i c ≡ c = ground (arith, e, f) in subst (Held first n) (sym same) v
    | inl t ↦
        let killed : overrun i c
            ≡ record c { workers = set c.workers i (step kills); phase = killing i } =
          ground (arith, e, t) in
        subst (Held first n) (sym killed) (
          change (killing i) i kills c v (λ j w _ k. moved j w k)
            (λ w at k. Known-step kills w (moved i w k)))
  ]
]
  where
    moved : (j : ℕ) (w : Worker) → Known first c.phase j w → Known first (killing i) j w
    moved j w k =
        Known-phase (killing i) k (λ h. k.asked (subst (λ s. Asked s j) (sym q) h))
          (λ h. k.passed (subst (λ s. Passed s j) (sym q) h))
