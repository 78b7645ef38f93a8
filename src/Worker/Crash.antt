-- ===== src/Worker/Crash.antt =====
-- What a message that was picked up meets, whatever becomes of its process.
use goxo.Base.{
  ℕ, ◌-◌, ◌^◌, ◌≤◌, ◌<◌, ◌≡◌, ◌≢◌, refl, ap, sym, subst, ◌∙◌, inl, inr, arith, some, List, [], ◌∷◌,
  ◌++◌, length, nat_eq, nat_Eq, Bool-cases,
}
use goxo.Base.Int.{ℤ}
use goxo.Base.Dict.{Dict, lookup, insert}
use goxo.Worker.State.{
  Delivery, Outcome, ack, nack, requeue, Settle, Inflight, reading, Dispatcher, ready, sending,
  returning, Worker, Config, new_worker,
}
use goxo.Worker.Messages.{offer, register, on_pickup, set_picked}
use goxo.Worker.Invariant.{hit, times, tally, held, owed_disp, Inv}
use goxo.Worker.Table.{total}
use goxo.Note.{Pickup}
use goxo.Note.Wire.{pickup}
use goxo.Worker.Steps.{Action, reads, offers, on_note, supervise, step, run}
use goxo.Worker.Quiet.{step-IsQuiet}
use goxo.Worker.Moves.{}
use goxo.Worker.Drain.{run-append}
use goxo.Worker.Cases.{offer_cases}
use goxo.Worker.Runs.{accepted_run, run-Inv, new_worker-Inv}
use goxo.Worker.Picked.{requeue_of, requeues, AllPicked, requeues_sup, Leaves, Taken}
use goxo.Worker.Taken.{}
use goxo.Worker.Taken.Steps.{step-Taken}

-- What was accepted stays accepted.
times-step : (t : ℕ) (a : Action) (w : Worker) → times t w.accepted ≤ times t (step a w).accepted
times-step t (offers d) w = elim (offer_cases d w) [
  | inl e ↦ omega (arith, ap (λ (x : Worker). times t x.accepted) e, same)
  | inr (g, e, _, _, _, _) ↦
      let taken : (offer d w).accepted ≡ d.tag ∷ w.accepted =
        ap (λ (x : Worker). x.accepted) e ∙ (unfold register in refl) in
      omega (arith, ap (times t) taken, same)
]
  where
    same : times t (step (offers d) w).accepted ≡ times t (offer d w).accepted
    same = unfold step in refl
times-step t a w = omega (arith, ap (times t) (step-IsQuiet a w (λ d e. cc e)).0)

times-run :
    (t : ℕ) (acts : List Action) (w : Worker) → times t w.accepted ≤ times t (run acts w).accepted
unfolding run
times-run t [] w = omega arith
times-run t (a ∷ acts) w = omega (arith, times-step t a w, times-run t acts (step a w))

run-Taken :
    (t : ℕ) (acts : List Action) (w : Worker)
    → times t (run acts w).accepted ≡ times t w.accepted
    → Taken t w
    → Taken t (run acts w)
unfolding run
run-Taken t [] w same v = v
run-Taken t (a ∷ acts) w same v =
    let fixed : times t (step a w).accepted ≡ times t w.accepted =
      omega (arith, same, times-step t a w, times-run t acts (step a w)) in
    run-Taken t acts (step a w) (omega (arith, same, fixed)) (step-Taken t a w fixed v)

requeues-le-tally : (t : ℕ) (l : List Settle) → requeues t l ≤ tally t l
requeues-le-tally t [] = omega arith
requeues-le-tally t (s ∷ l) = omega (arith, requeues-le-tally t l, one s.outcome)
  where
    one : (o : Outcome) → requeue_of t s.tag o ≤ hit t s.tag
    one ack = omega arith
    one nack = omega arith
    one requeue = omega arith

requeue_of-le-hit : (t tag : ℕ) (o : Outcome) → requeue_of t tag o ≤ hit t tag
requeue_of-le-hit t tag ack = omega arith
requeue_of-le-hit t tag nack = omega arith
requeue_of-le-hit t tag requeue = omega arith

held-lookup : (k : ℕ) (m : Inflight) (l : Dict ℕ Inflight) → lookup k l ≡ some m → 1 ≤ held m.tag l
unfolding lookup total
held-lookup k m [] e = absurd (cc e)
held-lookup k m ((j, x) ∷ l) e = elim (Bool-cases (nat_eq j k)) [
  | inl h ↦
      let same : x ≡ m = ground (arith, e, h) in ground (arith, ap (λ (y : Inflight). y.tag) same)
  | inr h ↦ omega (arith, held-lookup k m l (ground (arith, e, h)))
]

-- Where no entry is of the message, all of them are picked.
held-none : (t : ℕ) (l : Dict ℕ Inflight) → held t l ≡ 0 → AllPicked t l
unfolding total
held-none t [] h = tt
held-none t ((j, x) ∷ l) h = (λ e. absurd (ground (arith, h, e)), held-none t l (omega (arith, h)))

-- The one entry of the message is marked.
mark-AllPicked :
    (k : ℕ) (m : Inflight) (l : Dict ℕ Inflight)
    → lookup k l ≡ some m
    → held m.tag l ≤ 1
    → AllPicked m.tag (insert k (set_picked m) l)
unfolding lookup insert total
mark-AllPicked k m [] e h = absurd (cc e)
mark-AllPicked k m ((j, x) ∷ l) e h = elim (Bool-cases (nat_eq j k)) [
  | inl q ↦
      let same : x ≡ m = ground (arith, e, q) in
      rw (q, insert)
        (λ _. refl, held-none m.tag l (ground (arith, h, ap (λ (y : Inflight). y.tag) same)))
  | inr q ↦
      let rest : lookup k l ≡ some m = ground (arith, e, q) in
      rw (q, insert)
        (
          λ t. absurd (ground (arith, h, held-lookup k m l rest, t)),
          mark-AllPicked k m l rest (omega (arith, h)),
        )
]

-- From a pickup on, for a message that was accepted once.
pickup-Taken :
    (g : ℕ) (p : Pickup) (m : Inflight) (w : Worker)
    → Inv w
    → w.sup ≡ reading g
    → lookup p.id w.msgs ≡ some m
    → ((g' id : ℕ) (d : Delivery) → w.disp ≡ sending g' id d → d.tag ≢ m.tag)
    → times m.tag w.accepted ≤ 1
    → Taken m.tag (step (reads (pickup p)) w)
pickup-Taken g p m w v q e out once =
    let there = held-lookup p.id m w.msgs e in
    let all = v.conserved m.tag in
    let marked : step (reads (pickup p)) w ≡ record w { msgs = insert p.id (set_picked m) w.msgs } =
      unfold step supervise on_note on_pickup in ground (arith, q, e) in
    subst (Taken m.tag) (sym marked) (record {
      picked = mark-AllPicked p.id m w.msgs e (omega (arith, all, once));
      sup = ap (requeues_sup m.tag) q;
      disp = leaves w.disp refl (omega (arith, all, once, there));
      fired = omega (arith, all, once, there, requeues-le-tally m.tag w.fired);
      calls = omega (arith, all, once, there, requeues-le-tally m.tag w.calls);
    })
  where
    leaves : (x : Dispatcher) → w.disp ≡ x → owed_disp m.tag w.disp ≡ 0 → Leaves m.tag w.disp
    leaves ready r h = subst (Leaves m.tag) (sym r) tt
    leaves (sending g' id d) r h = subst (Leaves m.tag) (sym r) (out g' id d r)
    leaves (returning s) r h =
        subst (Leaves m.tag) (sym r)
          (omega (arith, requeue_of-le-hit m.tag s.tag s.outcome, ap (owed_disp m.tag) r, h))

-- A message that the broker delivered once, and that the handler has reported to have picked up, is
-- never requeued: not when its process dies or is killed, not by a timeout, not by the shutdown. It
-- gets one callback at most, Ack or Nack. (The pickup came while the message was in flight and
-- Dispatch had handed it over; fewer than 2 ^ 64 - 1 messages are accepted.)
pub picked_not_requeued :
    (cfg : Config) (capacity : ℤ) (before after : List Action) (g : ℕ) (p : Pickup) (m : Inflight)
    → (run before (new_worker cfg capacity)).sup ≡ reading g
    → lookup p.id (run before (new_worker cfg capacity)).msgs ≡ some m
    → ((g' id : ℕ) (d : Delivery)
        → (run before (new_worker cfg capacity)).disp ≡ sending g' id d
        → d.tag ≢ m.tag)
    → times m.tag (run (before ++ (reads (pickup p) ∷ after)) (new_worker cfg capacity)).accepted
      ≡ 1
    → length (run (before ++ (reads (pickup p) ∷ after)) (new_worker cfg capacity)).accepted
      < 2 ^ 64 - 1
    → (requeues m.tag (run (before ++ (reads (pickup p) ∷ after)) (new_worker cfg capacity)).calls
        ≡ 0)
      × (tally m.tag (run (before ++ (reads (pickup p) ∷ after)) (new_worker cfg capacity)).calls
          ≤ 1)
picked_not_requeued cfg capacity before after g p m q e out once few =
    let new = new_worker-Inv cfg capacity in
    let first = run before (new_worker cfg capacity) in
    let next = step (reads (pickup p)) first in
    let split : run (before ++ (reads (pickup p) ∷ after)) (new_worker cfg capacity)
        ≡ run after next =
      run-append before (reads (pickup p) ∷ after) (new_worker cfg capacity)
      ∙ (unfold run in refl) in
    let accepted = ap (λ (x : Worker). times m.tag x.accepted) split in
    let few_first : length first.accepted < 2 ^ 64 - 1 = omega (
      arith,
      few,
      ap (λ (x : Worker). length x.accepted) split,
      accepted_run (reads (pickup p) ∷ after) first,
      ap (λ (x : Worker). length x.accepted) (unfold_run first),
    ) in
    let v : Inv first = run-Inv before few_first new in
    let kept_on : times m.tag (run after next).accepted ≡ times m.tag next.accepted = omega (
      arith,
      once,
      accepted,
      times-run m.tag after next,
      times-step m.tag (reads (pickup p)) first,
      v.conserved m.tag,
      held-lookup p.id m first.msgs e,
    ) in
    let once_first : times m.tag first.accepted ≤ 1 = omega (
      arith,
      once,
      accepted,
      times-run m.tag after next,
      times-step m.tag (reads (pickup p)) first,
    ) in
    let taken =
      run-Taken m.tag after next kept_on (pickup-Taken g p m first v q e out once_first) in
    (
      ap (λ (x : Worker). requeues m.tag x.calls) split ∙ taken.calls,
      omega (arith, once, (run-Inv (before ++ (reads (pickup p) ∷ after)) few new).conserved m.tag),
    )
  where
    unfold_run :
        (w : Worker) → run (reads (pickup p) ∷ after) w ≡ run after (step (reads (pickup p)) w)
    unfold_run w = unfold run in refl
