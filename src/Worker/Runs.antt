-- ===== src/Worker/Runs.antt =====
-- Every run keeps the invariant; what follows for the messages that a worker takes.
use goxo.Base.{
  ℕ, ◌-◌, ◌^◌, ◌≤◌, ◌<◌, ◌≡◌, refl, ap, sym, subst, ◌∙◌, inl, inr, arith, true, List, [], ◌∷◌,
  length,
}
use goxo.Base.Int.{ℤ}
use goxo.Note.Wire.{HandlerNote, emit, done, pickup}
use goxo.Worker.State.{
  Delivery, Config, Supervisor, spawning, backoff, reading, publishing, answering, reaping,
  settling, Worker, new_worker,
}
use goxo.Worker.Messages.{shutting_down, offer, register, reclaim, on_timeout, call_fired}
use goxo.Worker.Process.{send_note, send_abort, ack_emit}
use goxo.Worker.Steps.{
  Action, spawns, wakes, reads, publishes, answers, read_ends, reaps, settles, goes_on, offers,
  queues, aborts, returns, times_out, fires, writes, loses, closes_stdin, closing_begins, kills,
  cancels, on_note, supervise, return_message, step, run,
}
use goxo.Worker.Invariant.{Inv}
use goxo.Worker.Cases.{offer_cases}
use goxo.Worker.Table.{total}
use goxo.Worker.Keeps.{on_done-Inv, on_timeout-Inv, on_pickup-Inv, reap-Inv, register-Inv}
use goxo.Worker.Moves.{
  Kept-Inv, write-Kept, lose-Kept, close_stdin-Kept, begin_close-Kept, kill-Kept, cancel-Kept,
}
use goxo.Worker.Turns.{
  on_emit-Inv, publish-Inv, answer-Inv, read_ends-Inv, settle_stale-Inv, next_round-Inv, wake-Inv,
  spawn-Inv, return_message-Inv, call_fired-Inv, send_note-Inv, send_abort-Inv,
}

on_note-Inv :
    (g : ℕ) (n : HandlerNote) {w : Worker} → w.sup ≡ reading g → Inv w → Inv (on_note g n w)
unfolding on_note
on_note-Inv g (emit e) q v = on_emit-Inv g e q v
on_note-Inv g (done d) q v = on_done-Inv g d q v
on_note-Inv g (pickup p) q v = on_pickup-Inv p.id v

supervise-Inv :
    (a : Action) (s : Supervisor) {w : Worker} → w.sup ≡ s → Inv w → Inv (supervise a s w)
unfolding supervise
supervise-Inv (spawns f) spawning q v = spawn-Inv f q v
supervise-Inv (wakes b) backoff q v = wake-Inv b q v
supervise-Inv (reads n) (reading g) q v = on_note-Inv g n q v
supervise-Inv (publishes x) (publishing g chain e) q v = publish-Inv g chain e x q v
supervise-Inv answers (answering g s) q v = answer-Inv g s q v
supervise-Inv read_ends (reading g) q v = read_ends-Inv g q v
supervise-Inv reaps (reaping g) q v = reap-Inv g q v
supervise-Inv (settles n) (settling stale last) q v = settle_stale-Inv n stale last q v
supervise-Inv goes_on (settling stale last) q v = next_round-Inv stale last q v
supervise-Inv _ _ q v = v

pub register_accepted :
    (g : ℕ) (d : Delivery) (w : Worker) → (register g d w).accepted ≡ d.tag ∷ w.accepted
unfolding register
register_accepted g d w = refl

offer-Inv :
    (d : Delivery) {w : Worker} → length (offer d w).accepted < 2 ^ 64 - 1 → Inv w → Inv (offer d w)
offer-Inv d {w} few v = elim (offer_cases d w) [
  | inl e ↦ subst Inv (sym e) v
  | inr (g, e, r, _, live, room) ↦ subst Inv (sym e) (
      register-Inv g d r live room
        (omega (
          arith,
          ap (λ (x : Worker). length x.accepted) e,
          ap (length {A = ℕ}) (register_accepted g d w),
        ))
        v)
]

pub step-Inv :
    (a : Action) {w : Worker} → length (step a w).accepted < 2 ^ 64 - 1 → Inv w → Inv (step a w)
unfolding step
step-Inv (offers d) few v = offer-Inv d few v
step-Inv queues few v = send_note-Inv v
step-Inv aborts few v = send_abort-Inv v
step-Inv returns few v = return_message-Inv v
step-Inv (times_out id) few v = on_timeout-Inv id v
step-Inv (fires n) few v = call_fired-Inv n v
step-Inv (writes g) {w} few v = Kept-Inv (write-Kept g w) v
step-Inv (loses g) {w} few v = Kept-Inv (lose-Kept g w) v
step-Inv (closes_stdin g) {w} few v = Kept-Inv (close_stdin-Kept g w) v
step-Inv closing_begins {w} few v = Kept-Inv (begin_close-Kept w) v
step-Inv kills {w} few v = Kept-Inv (kill-Kept w) v
step-Inv cancels {w} few v = Kept-Inv (cancel-Kept w) v
step-Inv a {w} few v = supervise-Inv a w.sup refl v

-- No step forgets a message that was accepted.
accepted_supervise :
    (a : Action) (s : Supervisor) (w : Worker) → (supervise a s w).accepted ≡ w.accepted
unfolding supervise ack_emit
accepted_supervise (spawns f) spawning w = ground arith
accepted_supervise (wakes b) backoff w = ground arith
accepted_supervise (reads n) (reading g) w = ground arith
accepted_supervise (publishes x) (publishing g chain e) w = ground arith
accepted_supervise answers (answering g s) w = refl
accepted_supervise read_ends (reading g) w = refl
accepted_supervise reaps (reaping g) w = refl
accepted_supervise (settles n) (settling stale last) w = ground arith
accepted_supervise goes_on (settling [] last) w = ground arith
accepted_supervise _ _ w = refl

pub accepted_step : (a : Action) (w : Worker) → length w.accepted ≤ length (step a w).accepted
unfolding step
accepted_step (offers d) w = elim (offer_cases d w) [
  | inl e ↦ omega (arith, ap (λ (x : Worker). length x.accepted) e)
  | inr (g, e, _, _, _, _) ↦ omega (
    arith,
    ap (λ (x : Worker). length x.accepted) e,
    ap (length {A = ℕ}) (register_accepted g d w),
  )
]
accepted_step queues w = unfold send_note in ground arith
accepted_step aborts w = unfold send_abort reclaim in ground arith
accepted_step returns w = unfold return_message in ground arith
accepted_step (times_out id) w = unfold on_timeout in ground arith
accepted_step (fires n) w = unfold call_fired in ground arith
accepted_step (writes g) w = omega (arith, ap (length {A = ℕ}) (write-Kept g w).accepted)
accepted_step (loses g) w = omega (arith, ap (length {A = ℕ}) (lose-Kept g w).accepted)
accepted_step (closes_stdin g) w =
    omega (arith, ap (length {A = ℕ}) (close_stdin-Kept g w).accepted)
accepted_step closing_begins w = omega (arith, ap (length {A = ℕ}) (begin_close-Kept w).accepted)
accepted_step kills w = omega (arith, ap (length {A = ℕ}) (kill-Kept w).accepted)
accepted_step cancels w = omega arith
accepted_step a w = omega (arith, ap (length {A = ℕ}) (accepted_supervise a w.sup w))

pub accepted_run :
    (acts : List Action) (w : Worker) → length w.accepted ≤ length (run acts w).accepted
unfolding run
accepted_run [] w = omega arith
accepted_run (a ∷ acts) w = omega (arith, accepted_step a w, accepted_run acts (step a w))

-- Every run keeps the invariant, as long as fewer than 2 ^ 64 - 1 messages were accepted (with more,
-- the ids wrap round).
pub run-Inv :
    (acts : List Action) {w : Worker}
    → length (run acts w).accepted < 2 ^ 64 - 1
    → Inv w
    → Inv (run acts w)
unfolding run
run-Inv [] few v = v
run-Inv (a ∷ acts) {w} few v =
    run-Inv acts few (step-Inv a (omega (arith, accepted_run acts (step a w))) v)

pub new_worker-Inv : (cfg : Config) (capacity : ℤ) → Inv (new_worker cfg capacity)
unfolding new_worker total
new_worker-Inv cfg capacity = record {
  unique = tt;
  below = tt;
  bounded = omega arith;
  ids = omega arith;
  live = refl;
  quiet = refl;
  sent = tt;
  ended = tt;
  conserved = λ t. omega arith;
}

cap_supervise : (a : Action) (s : Supervisor) (w : Worker) → (supervise a s w).cap ≡ w.cap
unfolding supervise ack_emit
cap_supervise (spawns f) spawning w = ground arith
cap_supervise (wakes b) backoff w = ground arith
cap_supervise (reads n) (reading g) w = ground arith
cap_supervise (publishes x) (publishing g chain e) w = ground arith
cap_supervise answers (answering g s) w = refl
cap_supervise read_ends (reading g) w = refl
cap_supervise reaps (reaping g) w = refl
cap_supervise (settles n) (settling stale last) w = ground arith
cap_supervise goes_on (settling [] last) w = ground arith
cap_supervise _ _ w = refl

cap_step : (a : Action) (w : Worker) → (step a w).cap ≡ w.cap
unfolding step
cap_step (offers d) w = unfold offer register in ground arith
cap_step queues w = unfold send_note in ground arith
cap_step aborts w = unfold send_abort reclaim in ground arith
cap_step returns w = unfold return_message in ground arith
cap_step (times_out id) w = unfold on_timeout in ground arith
cap_step (fires n) w = unfold call_fired in ground arith
cap_step (writes g) w = (write-Kept g w).cap
cap_step (loses g) w = (lose-Kept g w).cap
cap_step (closes_stdin g) w = (close_stdin-Kept g w).cap
cap_step closing_begins w = (begin_close-Kept w).cap
cap_step kills w = (kill-Kept w).cap
cap_step cancels w = refl
cap_step a w = cap_supervise a w.sup w

-- The capacity stays what it was.
pub cap_run : (acts : List Action) (w : Worker) → (run acts w).cap ≡ w.cap
unfolding run
cap_run [] w = refl
cap_run (a ∷ acts) w = cap_run acts (step a w) ∙ cap_step a w

down_supervise :
    (a : Action) (s : Supervisor) (w : Worker)
    → ((supervise a s w).closing ≡ w.closing) × ((supervise a s w).cancelled ≡ w.cancelled)
unfolding supervise ack_emit
down_supervise (spawns f) spawning w = ground arith
down_supervise (wakes b) backoff w = ground arith
down_supervise (reads n) (reading g) w = ground arith
down_supervise (publishes x) (publishing g chain e) w = ground arith
down_supervise answers (answering g s) w = (refl, refl)
down_supervise read_ends (reading g) w = (refl, refl)
down_supervise reaps (reaping g) w = (refl, refl)
down_supervise (settles n) (settling stale last) w = ground arith
down_supervise goes_on (settling [] last) w = ground arith
down_supervise _ _ w = (refl, refl)

abbrev pub Down : Worker → Worker → Type 0
Down w w' = (w.closing ≡ true → w'.closing ≡ true) × (w.cancelled ≡ true → w'.cancelled ≡ true)

pub Down-step : (a : Action) (w : Worker) → Down w (step a w)
unfolding step
Down-step (offers d) w = unfold offer register in ground arith
Down-step queues w = unfold send_note in ground arith
Down-step aborts w = unfold send_abort reclaim in ground arith
Down-step returns w = unfold return_message in ground arith
Down-step (times_out id) w = unfold on_timeout in ground arith
Down-step (fires n) w = unfold call_fired in ground arith
Down-step (writes g) w = ((write-Kept g w).closing, (write-Kept g w).cancelled)
Down-step (loses g) w = ((lose-Kept g w).closing, (lose-Kept g w).cancelled)
Down-step (closes_stdin g) w = ((close_stdin-Kept g w).closing, (close_stdin-Kept g w).cancelled)
Down-step closing_begins w = ((begin_close-Kept w).closing, (begin_close-Kept w).cancelled)
Down-step kills w = ((kill-Kept w).closing, (kill-Kept w).cancelled)
Down-step cancels w = ((cancel-Kept w).closing, (cancel-Kept w).cancelled)
Down-step a w = let (c, d) = down_supervise a w.sup w in (λ h. c ∙ h, λ h. d ∙ h)

-- A shutdown is never taken back.
pub shutting_down-step :
    (a : Action) (w : Worker) → shutting_down w ≡ true → shutting_down (step a w) ≡ true
unfolding shutting_down
shutting_down-step a w h = let (c, d) = Down-step a w in ground (arith, c, d)

-- While the worker shuts down it accepts nothing.
pub accepted_step_down :
    (a : Action) (w : Worker) → shutting_down w ≡ true → (step a w).accepted ≡ w.accepted
unfolding step
accepted_step_down (offers d) w h = unfold offer shutting_down in ground arith
accepted_step_down queues w h = unfold send_note in ground arith
accepted_step_down aborts w h = unfold send_abort reclaim in ground arith
accepted_step_down returns w h = unfold return_message in ground arith
accepted_step_down (times_out id) w h = unfold on_timeout in ground arith
accepted_step_down (fires n) w h = unfold call_fired in ground arith
accepted_step_down (writes g) w h = (write-Kept g w).accepted
accepted_step_down (loses g) w h = (lose-Kept g w).accepted
accepted_step_down (closes_stdin g) w h = (close_stdin-Kept g w).accepted
accepted_step_down closing_begins w h = (begin_close-Kept w).accepted
accepted_step_down kills w h = (kill-Kept w).accepted
accepted_step_down cancels w h = refl
accepted_step_down a w h = accepted_supervise a w.sup w
