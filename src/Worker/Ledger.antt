-- ===== src/Worker/Ledger.antt =====
-- What a worker promises about one message, as an abstract ledger, and that the worker keeps to it.
use goxo.Base.{
  ℕ, ◌+◌, ◌-◌, ◌^◌, ◌<◌, ◌≡◌, ◌≢◌, refl, ap, subst, ◌∙◌, ◌⊎◌, inl, inr, arith, Bool, true, false,
  List, [], ◌∷◌, length, nat_eq, if◌then◌else◌, Option-cases, Bool-cases,
}
use goxo.Base.Int.{ℤ}
use goxo.Worker.State.{
  Config, Delivery, Outcome, Settle, Supervisor, spawning, backoff, reading, publishing, answering,
  reaping, settling, Dispatcher, ready, sending, returning, Worker, new_worker,
}
use goxo.Worker.Messages.{register, reclaim, on_timeout, call, call_fired, pick}
use goxo.Worker.Process.{send_note, send_abort, ack_emit}
use goxo.Worker.Steps.{
  Action, spawns, wakes, reads, publishes, answers, read_ends, reaps, settles, goes_on, offers,
  queues, aborts, returns, times_out, fires, writes, loses, closes_stdin, closing_begins, kills,
  cancels, supervise, return_message, step, run,
}
use goxo.Worker.Invariant.{Inv, times, tally, owing}
use goxo.Worker.Table.{total}
use goxo.Worker.Moves.{write-Kept, lose-Kept, close_stdin-Kept, begin_close-Kept, kill-Kept}
use goxo.Worker.Cases.{offer_cases}
use goxo.Worker.Runs.{register_accepted, accepted_run, step-Inv, new_worker-Inv}

-- How often one message was taken, how many of these deliveries are not settled yet, and how the
-- others were, the last first.
pub record Ledger : Type 0 where
  pub taken : ℕ
  pub pending : ℕ
  pub settled : List Outcome

-- The actions that call a callback: of the supervisor, of Dispatch and of a timer's goroutine.
abbrev pub calls_back : Action → Bool
calls_back answers = true
calls_back (settles n) = true
calls_back returns = true
calls_back (fires n) = true
calls_back _ = false

-- What one action may do to the ledger of message `t`: nothing; take a delivery of it, if the action
-- offers it; or settle one delivery that is pending, if it is one of the actions that call back.
pub data Move (t : ℕ) (a : Action) (l l' : Ledger) : Type 0 where
  idle : l' ≡ l → Move t a l l'
  accept :
      (d : Delivery)
      → a ≡ offers d
      → d.tag ≡ t
      → l' ≡ record l { taken = l.taken + 1; pending = l.pending + 1 }
      → Move t a l l'
  settle :
      (o : Outcome)
      → calls_back a ≡ true
      → l'.taken ≡ l.taken
      → l'.pending + 1 ≡ l.pending
      → l'.settled ≡ o ∷ l.settled
      → Move t a l l'

-- One move for each of the actions, in their order.
abbrev pub Moves : ℕ → List Action → Ledger → Ledger → Type 0
Moves t [] l l' = l' ≡ l
Moves t (a ∷ acts) l l' = (m : Ledger) × Move t a l m × Moves t acts m l'

abbrev pub outcomes : ℕ → List Settle → List Outcome
outcomes t [] = []
outcomes t (s ∷ calls) = if nat_eq s.tag t then s.outcome ∷ outcomes t calls else outcomes t calls

abbrev pub ledger : ℕ → Worker → Ledger
ledger t w = record {
  taken = times t w.accepted;
  pending = owing t w;
  settled = outcomes t w.calls;
}

-- What a step does to the record of messages accepted and callbacks called.
abbrev Recorded : Action → Worker → Worker → Type 0
Recorded a w w' =
    ((w'.accepted ≡ w.accepted) × (w'.calls ≡ w.calls))
    ⊎ (((d : Delivery) × (a ≡ offers d) × (w'.accepted ≡ d.tag ∷ w.accepted) × (w'.calls ≡ w.calls))
        ⊎ ((s : Settle) × (calls_back a ≡ true)
            × (w'.accepted ≡ w.accepted)
            × (w'.calls ≡ s ∷ w.calls)))

supervise-Recorded : (a : Action) (s : Supervisor) (w : Worker) → Recorded a w (supervise a s w)
unfolding supervise ack_emit
supervise-Recorded (spawns f) spawning w = inl (ground arith, ground arith)
supervise-Recorded (wakes b) backoff w = inl (ground arith, ground arith)
supervise-Recorded (reads n) (reading g) w = inl (ground arith, ground arith)
supervise-Recorded (publishes x) (publishing g chain e) w = inl (ground arith, ground arith)
supervise-Recorded answers (answering g s) w = inr (inr (s, refl, refl, refl))
supervise-Recorded read_ends (reading g) w = inl (refl, refl)
supervise-Recorded reaps (reaping g) w = inl (refl, refl)
supervise-Recorded (settles n) (settling stale last) w = elim (Option-cases (pick n stale)) [
  | inl h ↦ inl (ground arith, ground arith)
  | inr ((s, rest), h) ↦ inr (inr (s, refl, ground arith, ground arith))
]
supervise-Recorded goes_on (settling [] last) w = inl (ground arith, ground arith)
supervise-Recorded _ _ w = inl (refl, refl)

return_message-Recorded :
    (d : Dispatcher) (w : Worker) → w.disp ≡ d → Recorded returns w (return_message w)
unfolding return_message
return_message-Recorded ready w e = inl (ground arith, ground arith)
return_message-Recorded (sending g id d) w e = inl (ground arith, ground arith)
return_message-Recorded (returning s) w e = inr (inr (s, refl, ground arith, ground arith))

step-Recorded : (a : Action) (w : Worker) → Recorded a w (step a w)
unfolding step
step-Recorded (offers d) w = elim (offer_cases d w) [
  | inl e ↦ inl (ap (λ (x : Worker). x.accepted) e, ap (λ (x : Worker). x.calls) e)
  | inr (g, e, _, _, _, _) ↦ inr (
      inl (
        d,
        refl,
        ap (λ (x : Worker). x.accepted) e ∙ register_accepted g d w,
        ap (λ (x : Worker). x.calls) e ∙ unfold register in refl,
      ))
]
step-Recorded queues w = unfold send_note in inl (ground arith, ground arith)
step-Recorded aborts w = unfold send_abort reclaim in inl (ground arith, ground arith)
step-Recorded returns w = return_message-Recorded w.disp w refl
step-Recorded (times_out id) w = unfold on_timeout in inl (ground arith, ground arith)
step-Recorded (fires n) w = elim (Option-cases (pick n w.fired)) [
  | inl h ↦ unfold call_fired in inl (ground arith, ground arith)
  | inr ((s, rest), h) ↦ unfold call_fired call in inr (inr (s, refl, ground arith, ground arith))
]
step-Recorded (writes g) w = inl ((write-Kept g w).accepted, (write-Kept g w).calls)
step-Recorded (loses g) w = inl ((lose-Kept g w).accepted, (lose-Kept g w).calls)
step-Recorded (closes_stdin g) w =
    inl ((close_stdin-Kept g w).accepted, (close_stdin-Kept g w).calls)
step-Recorded closing_begins w = inl ((begin_close-Kept w).accepted, (begin_close-Kept w).calls)
step-Recorded kills w = inl ((kill-Kept w).accepted, (kill-Kept w).calls)
step-Recorded cancels w = inl (refl, refl)
step-Recorded a w = supervise-Recorded a w.sup w

outcomes-cons :
    (t : ℕ) (s : Settle) (calls : List Settle)
    → ((s.tag ≢ t)
        × (outcomes t (s ∷ calls) ≡ outcomes t calls)
        × (tally t (s ∷ calls) ≡ tally t calls))
      ⊎ ((outcomes t (s ∷ calls) ≡ s.outcome ∷ outcomes t calls)
          × (tally t (s ∷ calls) ≡ tally t calls + 1))
outcomes-cons t s calls = elim (Bool-cases (nat_eq s.tag t)) [
  | inl e ↦ inr (rw e refl, ground arith)
  | inr e ↦ inl (ground arith, rw e refl, ground arith)
]

-- The ledger entry that a record of what happened determines, by the conservation of messages.
Recorded-Move :
    (t : ℕ) (a : Action) (w w' : Worker)
    → ((x : ℕ) → times x w.accepted ≡ owing x w + tally x w.calls)
    → ((x : ℕ) → times x w'.accepted ≡ owing x w' + tally x w'.calls)
    → Recorded a w w'
    → Move t a (ledger t w) (ledger t w')
Recorded-Move t a w w' v v' (inl (e, c)) =
    let same : owing t w' ≡ owing t w = omega (arith, v t, v' t, ap (times t) e, ap (tally t) c) in
    idle (ground (arith, same, ap (times t) e, ap (outcomes t) c))
Recorded-Move t a w w' v v' (inr (inl (d, is, e, c))) = elim (Bool-cases (nat_eq d.tag t)) [
  | inl h ↦
      let more : owing t w' ≡ owing t w + 1 =
        ground (arith, v t, v' t, ap (times t) e, ap (tally t) c, h) in
      let took : times t w'.accepted ≡ times t w.accepted + 1 = ground (arith, ap (times t) e, h) in
      accept d is (ground (arith, h)) (ground (arith, more, took, ap (outcomes t) c))
  | inr h ↦
      let same : owing t w' ≡ owing t w =
        ground (arith, v t, v' t, ap (times t) e, ap (tally t) c, h) in
      let kept : times t w'.accepted ≡ times t w.accepted = ground (arith, ap (times t) e, h) in
      idle (ground (arith, same, kept, ap (outcomes t) c))
]
Recorded-Move t a w w' v v' (inr (inr (s, does, e, c))) = elim (outcomes-cons t s w.calls) [
  | inr (o, n) ↦
      settle s.outcome does (ap (times t) e)
        (omega (arith, v t, v' t, ap (times t) e, ap (tally t) c, n)) (ap (outcomes t) c ∙ o)
  | inl (_, o, n) ↦
      let same : owing t w' ≡ owing t w =
        omega (arith, v t, v' t, ap (times t) e, ap (tally t) c, n) in
      idle (ground (arith, same, ap (times t) e, ap (outcomes t) c ∙ o))
]

Moves-run :
    (t : ℕ) (acts : List Action) {w : Worker}
    → length (run acts w).accepted < 2 ^ 64 - 1
    → Inv w
    → Moves t acts (ledger t w) (ledger t (run acts w))
unfolding run
Moves-run t [] few v = refl
Moves-run t (a ∷ acts) {w} few v =
    let v' = step-Inv a (omega (arith, accepted_run acts (step a w))) v in
    (
      ledger t (step a w),
      Recorded-Move t a w (step a w) v.conserved v'.conserved (step-Recorded a w),
      Moves-run t acts few v',
    )

-- The worker refines the ledger: on every run, whatever the processes, the timers and the shutdown
-- do, each action is one move of the ledger of a message, from the empty one to what the run leaves.
-- Dispatch alone takes a delivery, and adds it to what is pending; only the actions that call back
-- settle one, each a single one that is pending; no other action changes the ledger. So at no action
-- is a callback called that no delivery is owed, or a message that was taken dropped. (Fewer than
-- 2 ^ 64 - 1 messages are accepted.)
pub ledger-run :
    (cfg : Config) (capacity : ℤ) (acts : List Action) (tag : ℕ)
    → length (run acts (new_worker cfg capacity)).accepted < 2 ^ 64 - 1
    → Moves tag acts
        (record { taken = 0; pending = 0; settled = [] })
        (ledger tag (run acts (new_worker cfg capacity)))
ledger-run cfg capacity acts tag few =
    subst (λ l. Moves tag acts l (ledger tag (run acts (new_worker cfg capacity)))) fresh
      (Moves-run tag acts few (new_worker-Inv cfg capacity))
  where
    fresh : ledger tag (new_worker cfg capacity) ≡ record { taken = 0; pending = 0; settled = [] }
    fresh = unfold new_worker total in ground arith
