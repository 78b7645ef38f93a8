-- ===== src/Worker/Drain.antt =====
-- A worker never gets stuck: from wherever a run has led, it can be brought to its end.
use goxo.Base.{
  ℕ, ◌-◌, ◌^◌, ◌<◌, ◌≡◌, refl, ap, ◌∙◌, inl, inr, arith, Bool, true, false, none, some, List, [],
  ◌∷◌, ◌++◌, length, Option-cases, nat_Eq,
}
use goxo.Base.Int.{ℤ}
use goxo.Base.Dict.{lookup}
use goxo.Base.Text.{Str}
use goxo.Note.{Emit}
use goxo.Worker.State.{
  Config, Settle, requeue, Supervisor, spawning, backoff, reading, publishing, answering, reaping,
  settling, finished, Dispatcher, ready, sending, returning, Worker, new_worker,
}
use goxo.Worker.Messages.{shutting_down, reclaim, call, call_fired, reap}
use goxo.Worker.Process.{request_stop, send_abort, publish, ack_emit, spawn, start_process}
use goxo.Worker.Steps.{
  Action, spawns, wakes, publishes, answers, read_ends, reaps, settles, goes_on, aborts, returns,
  fires, cancels, wake, return_message, step, run, own,
}
use goxo.Worker.Invariant.{times, tally}
use goxo.Worker.Runs.{accepted_step_down}
use goxo.Worker.Settlement.{stopped_settled}

abbrev pub AllOwn : List Action → Type 0
AllOwn [] = Unit
AllOwn (a ∷ acts) = (own a ≡ true) × AllOwn acts

-- Some actions of its own end the worker, whose context is cancelled, with Dispatch returned and no
-- timer left to run, and take no message.
abbrev Ends : Worker → Type 0
Ends w =
    (acts : List Action) × AllOwn acts
    × ((run acts w).sup ≡ finished)
    × ((run acts w).disp ≡ ready)
    × ((run acts w).fired ≡ [])
    × ((run acts w).accepted ≡ w.accepted)
    × ((run acts w).cancelled ≡ true)

Ends-step :
    (a : Action) (w : Worker)
    → own a ≡ true
    → (step a w).accepted ≡ w.accepted
    → Ends (step a w)
    → Ends w
unfolding run
Ends-step a w o same (acts, all, e1, e2, e3, e4, e5) =
    (a ∷ acts, (o, all), e1, e2, e3, e4 ∙ same, e5)

down : (w : Worker) → w.cancelled ≡ true → shutting_down w ≡ true
unfolding shutting_down
down w h = ground arith

Ends-cancelled :
    (a : Action) (w : Worker) → own a ≡ true → w.cancelled ≡ true → Ends (step a w) → Ends w
Ends-cancelled a w o c h = Ends-step a w o (accepted_step_down a w (down w c)) h

-- Only the supervisor is left to act, and it is to stop.
record Alone (w : Worker) (s : Supervisor) : Type 0 where
  stop : w.cancelled ≡ true
  idle : w.disp ≡ ready
  none_fired : w.fired ≡ []
  at : w.sup ≡ s

Alone-finished : (w : Worker) → Alone w finished → Ends w
unfolding run
Alone-finished w a = ([], tt, a.at, a.idle, a.none_fired, refl, a.stop)

Alone-spawning : (w : Worker) → Alone w spawning → Ends w
Alone-spawning w a =
    Ends-cancelled (spawns (some start_process)) w (unfold own in refl) a.stop
      (Alone-finished _ stopped)
  where
    stopped : Alone (step (spawns (some start_process)) w) finished
    stopped = unfold step spawn in ground (arith, a.stop, a.idle, a.none_fired, a.at)

Alone-backoff : (w : Worker) → Alone w backoff → Ends w
Alone-backoff w a =
    Ends-cancelled (wakes false) w (unfold own in refl) a.stop (Alone-finished _ stopped)
  where
    stopped : Alone (step (wakes false) w) finished
    stopped = unfold step wake in ground (arith, a.stop, a.idle, a.none_fired, a.at)

Alone-settling :
    (stale : List Settle) (last : Bool) (w : Worker) → Alone w (settling stale last) → Ends w
Alone-settling [] true w a =
    Ends-cancelled goes_on w (unfold own in refl) a.stop (Alone-finished _ stopped)
  where
    stopped : Alone (step goes_on w) finished
    stopped = unfold step in ground (arith, a.stop, a.idle, a.none_fired, a.at)
Alone-settling [] false w a =
    Ends-cancelled goes_on w (unfold own in refl) a.stop (Alone-spawning _ again)
  where
    again : Alone (step goes_on w) spawning
    again = unfold step in ground (arith, a.stop, a.idle, a.none_fired, a.at)
Alone-settling (s ∷ stale) last w a =
    Ends-cancelled (settles 0) w (unfold own in refl) a.stop (Alone-settling stale last _ settled)
  where
    settled : Alone (step (settles 0) w) (settling stale last)
    settled = unfold step in ground (arith, a.stop, a.idle, a.none_fired, a.at)

Alone-reaping : (g : ℕ) (w : Worker) → Alone w (reaping g) → Ends w
unfolding reap
Alone-reaping g w a =
    Ends-cancelled reaps w (unfold own in refl) a.stop (Alone-settling _ _ _ reaped)
  where
    reaped : Alone (step reaps w) (reap w).sup
    reaped = unfold step reap in ground (arith, a.stop, a.idle, a.none_fired, a.at)

Alone-reading : (g : ℕ) (w : Worker) → Alone w (reading g) → Ends w
Alone-reading g w a =
    Ends-cancelled read_ends w (unfold own in refl) a.stop (Alone-reaping g _ left)
  where
    left : Alone (step read_ends w) (reaping g)
    left = unfold step request_stop in ground (arith, a.stop, a.idle, a.none_fired, a.at)

Alone-answering : (g : ℕ) (s : Settle) (w : Worker) → Alone w (answering g s) → Ends w
Alone-answering g s w a =
    Ends-cancelled answers w (unfold own in refl) a.stop (Alone-reading g _ answered)
  where
    answered : Alone (step answers w) (reading g)
    answered = unfold step call in ground (arith, a.stop, a.idle, a.none_fired, a.at)

Alone-publishing :
    (g : ℕ) (chain : List Str) (e : Emit) (w : Worker) → Alone w (publishing g chain e) → Ends w
Alone-publishing g chain e w a =
    Ends-cancelled (publishes none) w (unfold own in refl) a.stop (Alone-reading g _ told)
  where
    told : Alone (step (publishes none) w) (reading g)
    told = unfold step publish ack_emit in ground (arith, a.stop, a.idle, a.none_fired, a.at)

Alone-Ends : (s : Supervisor) (w : Worker) → Alone w s → Ends w
Alone-Ends spawning w a = Alone-spawning w a
Alone-Ends backoff w a = Alone-backoff w a
Alone-Ends (reading g) w a = Alone-reading g w a
Alone-Ends (publishing g chain e) w a = Alone-publishing g chain e w a
Alone-Ends (answering g s) w a = Alone-answering g s w a
Alone-Ends (reaping g) w a = Alone-reaping g w a
Alone-Ends (settling stale last) w a = Alone-settling stale last w a
Alone-Ends finished w a = Alone-finished w a

-- The timers' goroutines that are left call their Nack, one by one.
fired-Ends :
    (fired : List Settle) (w : Worker)
    → w.fired ≡ fired
    → w.cancelled ≡ true
    → w.disp ≡ ready
    → Ends w
fired-Ends [] w f c d =
    Alone-Ends w.sup w (record { stop = c; idle = d; none_fired = f; at = refl })
fired-Ends (s ∷ fired) w f c d =
    Ends-cancelled (fires 0) w (unfold own in refl) c
      (fired-Ends fired (step (fires 0) w) left still idle)
  where
    left : (step (fires 0) w).fired ≡ fired
    left = unfold step call_fired in ground (arith, f)

    still : (step (fires 0) w).cancelled ≡ true
    still = unfold step call_fired in ground (arith, f, c)

    idle : (step (fires 0) w).disp ≡ ready
    idle = unfold step call_fired in ground (arith, f, d)

-- Dispatch calls the Requeue that it owes.
returning-Ends : (s : Settle) (w : Worker) → w.disp ≡ returning s → w.cancelled ≡ true → Ends w
returning-Ends s w e c =
    Ends-cancelled returns w (unfold own in refl) c
      (fired-Ends (step returns w).fired (step returns w) refl still idle)
  where
    still : (step returns w).cancelled ≡ true
    still = unfold step return_message in ground (arith, e, c)

    idle : (step returns w).disp ≡ ready
    idle = unfold step return_message in ground (arith, e)

-- Dispatch gives up its send first.
disp-Ends : (d : Dispatcher) (w : Worker) → w.disp ≡ d → w.cancelled ≡ true → Ends w
disp-Ends ready w e c = fired-Ends w.fired w refl c e
disp-Ends (returning s) w e c = returning-Ends s w e c
disp-Ends (sending g id d) w e c = elim (Option-cases (lookup id w.msgs)) [
  | inl h ↦
      let still : (step aborts w).cancelled ≡ true =
        unfold step send_abort reclaim in ground (arith, e, c, h) in
      let idle : (step aborts w).disp ≡ ready =
        unfold step send_abort reclaim in ground (arith, e, c, h) in
      Ends-cancelled aborts w (unfold own in refl) c
        (fired-Ends (step aborts w).fired (step aborts w) refl still idle)
  | inr (m, h) ↦
      let still : (step aborts w).cancelled ≡ true =
        unfold step send_abort reclaim in ground (arith, e, c, h) in
      let owes : (step aborts w).disp ≡ returning (record { tag = d.tag; outcome = requeue }) =
        unfold step send_abort reclaim in ground (arith, e, c, h) in
      Ends-cancelled aborts w (unfold own in refl) c
        (returning-Ends (record { tag = d.tag; outcome = requeue }) (step aborts w) owes still)
]

pub Ends-stopping : (w : Worker) → w.cancelled ≡ true → Ends w
Ends-stopping w c = disp-Ends w.disp w refl c

pub run-append : (xs ys : List Action) (w : Worker) → run (xs ++ ys) w ≡ run ys (run xs w)
unfolding run
run-append [] ys w = refl
run-append (x ∷ xs) ys w = run-append xs ys (step x w)

-- From wherever a run has led the worker, some further actions bring it to its end: it has stopped,
-- Dispatch has returned and no timer is left to run, no further message was taken, and each message
-- that was ever taken has been settled, once for each time that it was. So the worker never gets
-- stuck with a message. (Fewer than 2 ^ 64 - 1 messages are accepted. The actions cancel the context
-- and let the process end.)
pub run-drains :
    (cfg : Config) (capacity : ℤ) (acts : List Action)
    → length (run acts (new_worker cfg capacity)).accepted < 2 ^ 64 - 1
    → (more : List Action) × ((run (acts ++ more) (new_worker cfg capacity)).sup ≡ finished)
      × ((run (acts ++ more) (new_worker cfg capacity)).disp ≡ ready)
      × ((run (acts ++ more) (new_worker cfg capacity)).fired ≡ [])
      × ((run (acts ++ more) (new_worker cfg capacity)).msgs ≡ [])
      × ((run (acts ++ more) (new_worker cfg capacity)).accepted
          ≡ (run acts (new_worker cfg capacity)).accepted)
      × ((tag : ℕ)
          → tally tag (run (acts ++ more) (new_worker cfg capacity)).calls
            ≡ times tag (run acts (new_worker cfg capacity)).accepted)
run-drains cfg capacity acts few =
    let w = run acts (new_worker cfg capacity) in
    let stop : (step cancels w).cancelled ≡ true = unfold step in refl in
    let (rest, _, e1, e2, e3, e4, _) = Ends-stopping (step cancels w) stop in
    let more : List Action = cancels ∷ rest in
    let whole : run (acts ++ more) (new_worker cfg capacity) ≡ run rest (step cancels w) =
      run-append acts more (new_worker cfg capacity) ∙ unfold run in refl in
    let took : (step cancels w).accepted ≡ w.accepted = unfold step in refl in
    let f1 = ap (λ (x : Worker). x.sup) whole ∙ e1 in
    let f2 = ap (λ (x : Worker). x.disp) whole ∙ e2 in
    let f3 = ap (λ (x : Worker). x.fired) whole ∙ e3 in
    let f4 = ap (λ (x : Worker). x.accepted) whole ∙ e4 ∙ took in
    let few' : length (run (acts ++ more) (new_worker cfg capacity)).accepted < 2 ^ 64 - 1 =
      omega (arith, few, ap (length {A = ℕ}) f4) in
    let stopped = λ (tag : ℕ). stopped_settled cfg capacity (acts ++ more) tag few' f1 f2 f3 in
    (more, f1, f2, f3, (stopped 0).0, f4, λ tag. (stopped tag).1 ∙ ap (times tag) f4)
