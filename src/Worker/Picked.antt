-- ===== src/Worker/Picked.antt =====
-- A message that the handler has picked up is not requeued.
use goxo.Base.{
  ℕ, zero, suc, ◌+◌, ◌≡◌, ◌≢◌, refl, ap, inl, inr, arith, true, some, List, [], ◌∷◌, map, nat_eq,
  nat_Eq, Option-cases, Bool-cases,
}
use goxo.Base.Dict.{Dict, insert, delete}
use goxo.Worker.State.{
  Outcome, ack, nack, requeue, Settle, Inflight, Supervisor, answering, settling, Dispatcher, ready,
  sending, returning, Worker,
}
use goxo.Worker.Messages.{stale_settle, pick}
use goxo.Worker.Invariant.{hit}

-- How often a message's requeue stands in a list of callbacks.
abbrev pub requeue_of : ℕ → ℕ → Outcome → ℕ
requeue_of t tag requeue = hit t tag
requeue_of t tag ack = 0
requeue_of t tag nack = 0

abbrev pub requeues : ℕ → List Settle → ℕ
requeues t [] = 0
requeues t (s ∷ l) = requeue_of t s.tag s.outcome + requeues t l

pub requeues-pick :
    (t n : ℕ) (l : List Settle) (s : Settle) (rest : List Settle)
    → pick n l ≡ some (s, rest)
    → requeue_of t s.tag s.outcome + requeues t rest ≡ requeues t l
unfolding pick
requeues-pick t n [] s rest e = absurd (cc e)
requeues-pick t zero (x ∷ l) s rest e = ground (arith, e)
requeues-pick t (suc n) (x ∷ l) s rest e = elim (Option-cases (pick n l)) [
  | inl h ↦ absurd (ground (arith, e, h))
  | inr ((y, ys), h) ↦
      let same : s ≡ y = ground (arith, e, h) in
      let others : rest ≡ x ∷ ys = ground (arith, e, h) in
      omega (
        arith,
        requeues-pick t n l y ys h,
        ap (λ (z : Settle). requeue_of t z.tag z.outcome) same,
        ap (requeues t) others,
      )
]

-- The entries of the message have been picked up.
abbrev pub AllPicked : ℕ → Dict ℕ Inflight → Type 0
AllPicked t [] = Unit
AllPicked t ((k, m) ∷ l) = (m.tag ≡ t → m.picked ≡ true) × AllPicked t l

pub AllPicked-insert :
    (t k : ℕ) (m : Inflight) (l : Dict ℕ Inflight)
    → (m.tag ≡ t → m.picked ≡ true)
    → AllPicked t l
    → AllPicked t (insert k m l)
unfolding insert
AllPicked-insert t k m [] h a = (h, tt)
AllPicked-insert t k m ((j, x) ∷ l) h (p, a) = elim (Bool-cases (nat_eq j k)) [
  | inl e ↦ rw (e, insert) (h, a)
  | inr e ↦ rw (e, insert) (p, AllPicked-insert t k m l h a)
]

pub AllPicked-delete : (t k : ℕ) (l : Dict ℕ Inflight) → AllPicked t l → AllPicked t (delete k l)
unfolding delete
AllPicked-delete t k [] a = tt
AllPicked-delete t k ((j, x) ∷ l) (p, a) = elim (Bool-cases (nat_eq j k)) [
  | inl e ↦ rw (e, delete) (AllPicked-delete t k l a)
  | inr e ↦ rw (e, delete) (p, AllPicked-delete t k l a)
]

pub requeues-stale :
    (t : ℕ) (l : Dict ℕ Inflight) → AllPicked t l → requeues t (map (λ e. stale_settle e.1) l) ≡ 0
unfolding stale_settle
requeues-stale t [] a = refl
requeues-stale t ((k, m) ∷ l) (p, a) = elim (Bool-cases m.picked) [
  | inl e ↦ rw e (omega (arith, requeues-stale t l a))
  | inr e ↦ rw e (ground (arith, p, requeues-stale t l a))
]

abbrev pub requeues_sup : ℕ → Supervisor → ℕ
requeues_sup t (answering g s) = requeue_of t s.tag s.outcome
requeues_sup t (settling stale last) = requeues t stale
requeues_sup t _ = 0

-- Dispatch is not about to give the message back.
abbrev pub Leaves : ℕ → Dispatcher → Type 0
Leaves t (sending g id d) = d.tag ≢ t
Leaves t (returning s) = requeue_of t s.tag s.outcome ≡ 0
Leaves t ready = Unit

-- Nothing requeues the message, or has.
pub record Taken (t : ℕ) (w : Worker) : Type 0 where
  pub picked : AllPicked t w.msgs
  pub sup : requeues_sup t w.sup ≡ 0
  pub disp : Leaves t w.disp
  pub fired : requeues t w.fired ≡ 0
  pub calls : requeues t w.calls ≡ 0
