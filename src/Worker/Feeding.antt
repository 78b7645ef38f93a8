-- ===== src/Worker/Feeding.antt =====
-- Every step keeps the pipes of the processes in order.
use goxo.Base.{
  ℕ, ◌+◌, ◌-◌, ◌^◌, ◌<◌, ◌≡◌, ◌≢◌, refl, ap, sym, subst, ◌⊎◌, inl, inr, arith, Option, some, List,
  [], ◌∷◌, length, nat_eq, nat_Eq, Option-cases, Bool-cases,
}
use goxo.Base.Int.{ℤ}
use goxo.Base.Text.{Str}
use goxo.Note.{Emit}
use goxo.Note.Wire.{init, stamp}
use goxo.Worker.State
use goxo.Worker.State.{
  Config, Delivery, OutNote, Proc, no_proc, Supervisor, spawning, backoff, reading, publishing,
  answering, reaping, settling, Dispatcher, ready, sending, returning, Worker, new_worker,
}
use goxo.Worker.Messages.{on_timeout, call_fired}
use goxo.Worker.Process.{update, declared, publish, SpawnFault, spawn_error, spawn, init_note}
use goxo.Worker.Steps.{
  Action, spawns, wakes, reads, publishes, answers, read_ends, reaps, settles, goes_on, offers,
  queues, aborts, returns, times_out, fires, writes, loses, closes_stdin, closing_begins, kills,
  cancels, supervise, step, run,
}
use goxo.Worker.Invariant.{Inv, process_of}
use goxo.Worker.Stdin.{pipe, Wired, Wired-prefix, limit, receiver, Piped, Flow-Piped}
use goxo.Worker.Runs.{accepted_run, step-Inv, new_worker-Inv}
use goxo.Worker.Flows.{
  pipe-update, write-Flow, close_stdin-Flow, begin_close-Flow, kill-Flow, on_note-Flow, offer-Flow,
  send_abort-Flow, return_message-Flow, Still, Calm-Flow,
}
use goxo.Worker.Queues.{send_note-Piped, ack_emit-Piped, lose-Piped}

publish-Piped :
    {cfg : Config} (g : ℕ) (chain : List Str) (e : Emit) (answer : Option Str) (w : Worker)
    → w.sup ≡ publishing g chain e
    → Piped cfg w
    → Piped cfg (publish g chain e answer w)
publish-Piped {cfg} g chain e answer w q v = elim (Bool-cases (declared w.cfg.outputs e.selector)) [
  | inr d ↦ unfold publish in rw (d, publish) (ack_emit-Piped g _ _ refl (back w.published))
  | inl d ↦ elim (Option-cases answer) [
    | inl a ↦ unfold publish in rw (d, publish) (rw a (ack_emit-Piped g _ _ refl (back _)))
    | inr (x, a) ↦ unfold publish in rw (d, publish) (rw a (ack_emit-Piped g _ _ refl (back _)))
  ]
]
  where
    back : (l : List State.Published) → Piped cfg (record w { sup = reading g; published = l })
    back l =
        Flow-Piped w _
          (Still w (record w { sup = reading g; published = l }) (ground (arith, ap process_of q))
            refl)
          v

spawn-Piped :
    {cfg : Config} (f : Option SpawnFault) (w : Worker)
    → w.sup ≡ spawning
    → Piped cfg w
    → Piped cfg (spawn f w)
unfolding spawn
spawn-Piped {cfg} f w q v = elim (Option-cases (spawn_error w.cfg f)) [
  | inr (x, e) ↦
      Flow-Piped w _ (Still w _ (ground (arith, e, ap process_of q)) (ground (arith, e))) v
  | inl e ↦
      let started : spawn f w ≡ record w {
        procs =
            update w.procs w.spawned
              (record no_proc { stdin = stamp (init (init_note w.cfg)) ∷ [] });
        spawned = w.spawned + 1;
        cur = some w.spawned;
        sup = reading w.spawned;
      } =
        ground (arith, e) in
      subst (Piped cfg) (sym started) (record { same = v.same; wired = wired; fed = fed })
]
  where
    procs' : ℕ → Proc
    procs' =
        update w.procs w.spawned (record no_proc { stdin = stamp (init (init_note w.cfg)) ∷ [] })

    wired : (h : ℕ) → Wired cfg (limit w.disp w.next_id) (pipe (procs' h))
    wired h = elim (Bool-cases (nat_eq w.spawned h)) [
      | inl n ↦ rw n (ap (λ c. stamp (init (init_note c))) v.same, tt)
      | inr n ↦ rw n (v.wired h)
    ]

    fed :
        (h : ℕ)
        → (process_of (reading w.spawned) ≡ some h) ⊎ (receiver w.disp ≡ some h)
        → pipe (procs' h) ≢ []
    fed h x = elim (Bool-cases (nat_eq w.spawned h)) [
      | inl n ↦ rw n (λ e. cc)
      | inr n ↦ elim x [ inl y ↦ absurd (ground (arith, n, y)) | inr y ↦ rw n (v.fed h (inr y)) ]
    ]

supervise-Piped :
    {cfg : Config} (a : Action) (s : Supervisor) (w : Worker)
    → w.sup ≡ s
    → Piped cfg w
    → Piped cfg (supervise a s w)
unfolding supervise
supervise-Piped (spawns f) spawning w q v = spawn-Piped f w q v
supervise-Piped (wakes b) backoff w q v =
    Flow-Piped w _ (Still w _ (ground (arith, ap process_of q)) (ground arith)) v
supervise-Piped (reads n) (reading g) w q v = Flow-Piped w _ (on_note-Flow g n w q) v
supervise-Piped (publishes x) (publishing g chain e) w q v = publish-Piped g chain e x w q v
supervise-Piped answers (answering g s) w q v =
    Flow-Piped w _ (Still w _ (ground (arith, ap process_of q)) (ground arith)) v
supervise-Piped read_ends (reading g) w q v =
    Flow-Piped w _
      (Calm-Flow w _ (ground (arith, ap process_of q)) (λ h. pipe-update w.procs g _ h refl)) v
supervise-Piped reaps (reaping g) w q v =
    Flow-Piped w _ (Still w _ (ground (arith, ap process_of q)) (ground arith)) v
supervise-Piped (settles n) (settling stale last) w q v =
    Flow-Piped w _ (Still w _ (ground (arith, ap process_of q)) (ground arith)) v
supervise-Piped goes_on (settling [] last) w q v =
    Flow-Piped w _ (Still w _ (ground (arith, ap process_of q)) (ground arith)) v
supervise-Piped _ _ w q v = v

step-Piped : {cfg : Config} (a : Action) (w : Worker) → Inv w → Piped cfg w → Piped cfg (step a w)
unfolding step
step-Piped (offers d) w i v = Flow-Piped w _ (offer-Flow d w i) v
step-Piped queues w i v = send_note-Piped w i v
step-Piped aborts w i v = Flow-Piped w _ (send_abort-Flow w i) v
step-Piped returns w i v = Flow-Piped w _ (return_message-Flow w.disp w refl) v
step-Piped (times_out id) w i v =
    Flow-Piped w _ (unfold on_timeout in Still w _ (ground arith) (ground arith)) v
step-Piped (fires n) w i v =
    Flow-Piped w _ (unfold call_fired in Still w _ (ground arith) (ground arith)) v
step-Piped (writes g) w i v = Flow-Piped w _ (write-Flow g w) v
step-Piped (loses g) w i v = lose-Piped g w v
step-Piped (closes_stdin g) w i v = Flow-Piped w _ (close_stdin-Flow g w) v
step-Piped closing_begins w i v = Flow-Piped w _ (begin_close-Flow w) v
step-Piped kills w i v = Flow-Piped w _ (kill-Flow w) v
step-Piped cancels w i v = Flow-Piped w _ (Still w _ (ground arith) refl) v
step-Piped a w i v = supervise-Piped a w.sup w refl v

run-Piped :
    {cfg : Config} (acts : List Action) (w : Worker)
    → length (run acts w).accepted < 2 ^ 64 - 1
    → Inv w
    → Piped cfg w
    → Piped cfg (run acts w)
unfolding run
run-Piped [] w few i v = v
run-Piped (a ∷ acts) w few i v =
    run-Piped acts (step a w) few (step-Inv a (omega (arith, accepted_run acts (step a w))) i)
      (step-Piped a w i v)

-- On every run, the stdin of every handler process is empty or begins with the init note, which has
-- the worker's configuration and comes only once; behind it come deliver notes and answers to emits
-- only, and the ids of the deliver notes rise strictly, so that no message is delivered to a process
-- twice. They stay below the id that Dispatch is sending, or else below the next one. (Fewer than
-- 2 ^ 64 - 1 messages are accepted.)
pub stdin-Wired :
    (cfg : Config) (capacity : ℤ) (acts : List Action) (g : ℕ)
    → length (run acts (new_worker cfg capacity)).accepted < 2 ^ 64 - 1
    → Wired cfg
        (limit
          (run acts (new_worker cfg capacity)).disp
          (run acts (new_worker cfg capacity)).next_id)
        ((run acts (new_worker cfg capacity)).procs g).stdin
stdin-Wired cfg capacity acts g few =
    let v : Piped cfg (run acts (new_worker cfg capacity)) =
      run-Piped acts (new_worker cfg capacity) few (new_worker-Inv cfg capacity) fresh in
    Wired-prefix cfg _ _ _ (v.wired g)
  where
    fresh : Piped cfg (new_worker cfg capacity)
    fresh =
        unfold new_worker in
        (record {
          same = refl;
          wired = λ h. tt;
          fed = λ h x. elim x [ inl e ↦ absurd (cc e) | inr e ↦ absurd (cc e) ];
        })
