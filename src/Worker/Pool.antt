-- ===== src/Worker/Pool.antt =====
-- internal/worker/pool.go: the pool, and the choice of the least loaded worker. Dispatch of the pool
-- is Dispatch of the worker that `least_loaded` picks.
use goxo.Base.{
  ℕ, zero, suc, ◌+◌, ◌-◌, ◌≤◌, ◌<◌, ◌≡◌, refl, ap, ◌∙◌, ◌⊎◌, inl, inr, arith, Option, none, some,
  List, [], ◌∷◌, length, ltb, if◌then◌else◌, Bool-cases,
}
use goxo.Base.Int.{ℤ, pos, ltb_ℤ, pos_part}
use goxo.Worker.State.{Delivery, Config, Worker, new_worker}
use goxo.Worker.Messages.{offer}

-- A pool has a first worker.
pub record Pool : Type 0 where
  pub first : Worker
  pub others : List Worker

abbrev pub replicate {ℓ} : {A : Type ℓ} → ℕ → A → List A
replicate zero a = []
replicate (suc n) a = a ∷ replicate n a

abbrev pub at_least_one : ℤ → ℤ
at_least_one n = if ltb_ℤ n (pos 1) then pos 1 else n

unfoldable pub new_pool : Config → ℤ → ℤ → Pool
unfolding new_worker
new_pool cfg size capacity =
    let w = new_worker cfg (at_least_one capacity) in
    record { first = w; others = replicate (pos_part (at_least_one size) - 1) w }

abbrev pub workers : Pool → List Worker
workers p = p.first ∷ p.others

length-replicate : {A : Type 0} (n : ℕ) (a : A) → length (replicate n a) ≡ n
length-replicate zero a = refl
length-replicate (suc n) a = ap suc (length-replicate n a)

pub at_least_one-suc : (n : ℕ) → at_least_one (pos (suc n)) ≡ pos (suc n)
at_least_one-suc n = ground arith

pub new_pool_size :
    (cfg : Config) (n : ℕ) (capacity : ℤ)
    → length (workers (new_pool cfg (pos (suc n)) capacity)) ≡ suc n
unfolding new_pool
new_pool_size cfg n capacity = rw (at_least_one-suc n, length-replicate) (omega arith)

pub new_pool_cap :
    (cfg : Config) (size : ℤ) (n : ℕ) → (new_pool cfg size (pos (suc n))).first.cap ≡ suc n
unfolding new_pool new_worker
new_pool_cap cfg size n = rw (at_least_one-suc n) (ground arith)

unfoldable pub outstanding : Worker → ℕ
outstanding w = length w.msgs

-- The loop of leastLoaded: the index of the best worker so far, its load, and the next index.
unfoldable pub least_from : ℕ → ℕ → ℕ → List Worker → ℕ
unfolding outstanding
least_from best load i [] = best
least_from best load i (w ∷ ws) =
    let fewer = ltb (outstanding w) load in
    least_from (if fewer then i else best) (if fewer then outstanding w else load) (suc i) ws

unfoldable pub least_loaded : Pool → ℕ
unfolding least_from
least_loaded p = least_from 0 (outstanding p.first) 1 p.others

abbrev pub load_at : List Worker → ℕ → Option ℕ
load_at [] i = none
load_at (w ∷ ws) zero = some (length w.msgs)
load_at (w ∷ ws) (suc i) = load_at ws i

abbrev pub set : List Worker → ℕ → (Worker → Worker) → List Worker
set [] i f = []
set (w ∷ ws) zero f = f w ∷ ws
set (w ∷ ws) (suc i) f = w ∷ set ws i f

-- Pool.Dispatch: offered to the worker that is picked.
unfoldable pub dispatch : Delivery → Pool → List Worker
unfolding least_loaded
dispatch d p = set (workers p) (least_loaded p) (offer d)

-- No load in the list is below `n`.
abbrev pub NoneBelow : ℕ → List Worker → Type 0
NoneBelow n [] = Unit
NoneBelow n (w ∷ ws) = (n ≤ length w.msgs) × NoneBelow n ws

NoneBelow-mono : (n m : ℕ) (ws : List Worker) → m ≤ n → NoneBelow n ws → NoneBelow m ws
NoneBelow-mono n m [] h b = tt
NoneBelow-mono n m (w ∷ ws) h (le, b) = (omega arith, NoneBelow-mono n m ws h b)

before :
    (n k : ℕ) (w : Worker) (ws : List Worker)
    → n < length w.msgs
    → ((j m : ℕ) → j < k → load_at ws j ≡ some m → n < m)
    → (j m : ℕ) → j < suc k
    → load_at (w ∷ ws) j ≡ some m
    → n < m
before n k w ws lt first zero m below at = ground arith
before n k w ws lt first (suc j) m below at = first j m (omega arith) at

-- The loop returns what it had, if nothing in the list is below it, or the index of an entry of the
-- list that is below it and is the first with its load; nothing in the list is below the result.
least_from_lem :
    (best load i : ℕ) (ws : List Worker)
    → ((least_from best load i ws ≡ best) × NoneBelow load ws)
      ⊎ ((k : ℕ) × (n : ℕ) × (least_from best load i ws ≡ i + k)
          × (load_at ws k ≡ some n)
          × (n < load)
          × NoneBelow n ws
          × ((j m : ℕ) → j < k → load_at ws j ≡ some m → n < m))
unfolding least_from
least_from_lem best load i [] = inl (refl, tt)
least_from_lem best load i (w ∷ ws) = elim (Bool-cases (ltb (length w.msgs) load)) [
  | inl fewer ↦
      rw (fewer, least_from)
        (elim (least_from_lem i (length w.msgs) (suc i) ws) [
          | inl (e, nb) ↦ inr (
            0,
            length w.msgs,
            e ∙ omega arith,
            refl,
            ground arith,
            (omega arith, nb),
            λ j m lt at. absurd (omega arith),
          )
          | inr (k, n, e, at, lt, nb, first) ↦ inr (
            suc k,
            n,
            e ∙ omega arith,
            at,
            ground arith,
            (omega arith, nb),
            before n k w ws lt first,
          )
        ])
  | inr not_fewer ↦
      rw (not_fewer, least_from)
        (elim (least_from_lem best load (suc i) ws) [
          | inl (e, nb) ↦ inl (e, (ground arith, nb))
          | inr (k, n, e, at, lt, nb, first) ↦ inr (
            suc k,
            n,
            e ∙ omega arith,
            at,
            lt,
            (ground arith, nb),
            before n k w ws (ground arith) first,
          )
        ])
]

-- leastLoaded picks the first of the workers with the fewest messages in flight: no worker has fewer,
-- and every worker before it has more.
pub least_loaded_lem :
    (p : Pool)
    → (n : ℕ) × (load_at (workers p) (least_loaded p) ≡ some n)
      × NoneBelow n (workers p)
      × ((j m : ℕ) → j < least_loaded p → load_at (workers p) j ≡ some m → n < m)
unfolding least_loaded outstanding
least_loaded_lem p = elim (least_from_lem 0 (length p.first.msgs) 1 p.others) [
  | inl (e, nb) ↦
      (length p.first.msgs, rw e refl, (omega arith, nb), λ j m lt at. absurd (omega (arith, e)))
  | inr (k, n, e, at, lt, nb, first) ↦
      let pick : least_loaded p ≡ suc k = e ∙ omega arith in
      (
        n,
        ap (load_at (workers p)) pick ∙ at,
        (omega arith, nb),
        λ j m below at'. before n k p.first p.others lt first j m (omega (arith, pick)) at',
      )
]
