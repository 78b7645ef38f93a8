-- ===== src/Worker/Cases.antt =====
-- internal/worker/worker.go: the branches of Dispatch.
use goxo.Base.{
  ℕ, ◌<◌, ◌≡◌, refl, ◌⊎◌, inl, inr, arith, Bool, true, false, Option, none, some, length,
  Bool-cases, ◌||◌, nat_Eq,
}
use goxo.Worker.State.{Delivery, Dispatcher, ready, sending, returning, Worker}
use goxo.Worker.Messages.{shutting_down, offer, free_slot, register, reclaim}
use goxo.Worker.Process.{send_abort}

-- Dispatch changes nothing, or registers the message with the live process, which has a free slot,
-- while the worker is not shutting down.
pub offer_cases :
    (d : Delivery) (w : Worker)
    → (offer d w ≡ w)
      ⊎ ((g : ℕ) × (offer d w ≡ register g d w)
          × (w.disp ≡ ready)
          × (shutting_down w ≡ false)
          × (w.cur ≡ some g)
          × (length w.msgs < w.cap))
unfolding offer
offer_cases d w = go w.disp refl (shutting_down w) refl (free_slot w) refl
  where
    slot : (g : ℕ) → free_slot w ≡ some g → (w.cur ≡ some g) × (length w.msgs < w.cap)
    slot g e = unfold free_slot in ground arith

    go :
        (x : Dispatcher)
        → w.disp ≡ x
        → (b : Bool) → shutting_down w ≡ b
        → (o : Option ℕ) → free_slot w ≡ o
        → (offer d w ≡ w)
          ⊎ ((g : ℕ) × (offer d w ≡ register g d w)
              × (w.disp ≡ ready)
              × (shutting_down w ≡ false)
              × (w.cur ≡ some g)
              × (length w.msgs < w.cap))
    go (sending g id x) e b eb o eo = inl (ground arith)
    go (returning s) e b eb o eo = inl (ground arith)
    go ready e true eb o eo = inl (ground arith)
    go ready e false eb none eo = inl (ground arith)
    go ready e false eb (some g) eo = inr (g, ground arith, e, eb, (slot g eo).0, (slot g eo).1)

-- A send that gives up takes the message back; there may be nothing to give up.
pub send_abort_cases :
    (w : Worker)
    → (send_abort w ≡ w)
      ⊎ ((g : ℕ) × (id : ℕ) × (d : Delivery) × (w.disp ≡ sending g id d)
          × (send_abort w ≡ reclaim id d w))
unfolding send_abort
send_abort_cases w = turn w.disp refl
  where
    turn :
        (x : Dispatcher)
        → w.disp ≡ x
        → (send_abort w ≡ w)
          ⊎ ((g : ℕ) × (id : ℕ) × (d : Delivery) × (w.disp ≡ sending g id d)
              × (send_abort w ≡ reclaim id d w))
    turn ready e = inl (ground (arith, e))
    turn (returning s) e = inl (ground (arith, e))
    turn (sending g id d) e = elim (Bool-cases ((w.procs g).stop || w.cancelled)) [
      | inr n ↦ inl (ground (arith, e, n))
      | inl y ↦ inr (g, id, d, e, ground (arith, e, y))
    ]
