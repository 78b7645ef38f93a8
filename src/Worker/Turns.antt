-- ===== src/Worker/Turns.antt =====
-- The turns of the supervisor, of Dispatch and of the timers that leave the in-flight map alone.
use goxo.Base.{
  ℕ, ◌+◌, ◌≡◌, refl, ap, sym, subst, ◌∙◌, inl, inr, arith, Bool, true, false, ◌||◌, Option, List,
  [], ◌∷◌, if◌then◌else◌, nat_Eq, Option-cases, Bool-cases,
}
use goxo.Base.Text.{Str}
use goxo.Note.{Emit}
use goxo.Worker.State.{
  Settle, Supervisor, spawning, backoff, reading, publishing, answering, reaping, settling,
  finished, Dispatcher, ready, sending, returning, Worker,
}
use goxo.Base.Dict.{lookup}
use goxo.Worker.Messages.{shutting_down, call, pick, settle_stale, next_round, call_fired}
use goxo.Worker.Process.{
  request_stop, has_room, send_note, send_abort, ack_emit, on_emit, publish, SpawnFault,
  spawn_error, spawn,
}
use goxo.Worker.Steps.{wake, return_message}
use goxo.Worker.Invariant.{tally, owed_sup, owed_disp, process_of, Sent, Ended, Inv}
use goxo.Worker.Keeps.{reclaim-Inv}
use goxo.Worker.Moves.{Moved-Inv, Kept, Kept-Inv, tally-pick}

-- The supervisor goes on with the same process, and owes what it owed, or has called a callback.
turn :
    (s : Supervisor) (called : List Settle) {w : Worker}
    → process_of s ≡ process_of w.sup
    → Ended s (shutting_down w)
    → ((t : ℕ) → owed_sup t s + tally t called ≡ owed_sup t w.sup + tally t w.calls)
    → Inv w
    → Inv (record w { sup = s; calls = called })
unfolding shutting_down
turn s called {w} same ended account v =
    Moved-Inv
      (record {
        msgs = refl;
        cap = refl;
        next_id = refl;
        accepted = refl;
        live = v.live ∙ sym same;
        quiet = v.quiet;
        sent = v.sent;
        ended = ended;
        account = λ t. omega (arith, account t);
      })
      v

pub on_emit-Inv : (g : ℕ) (e : Emit) {w : Worker} → w.sup ≡ reading g → Inv w → Inv (on_emit g e w)
unfolding on_emit
on_emit-Inv g e {w} q v = elim (Option-cases (lookup e.deliver w.msgs)) [
  | inl h ↦ rw (h, on_emit) (turn _ w.calls (rw q) tt (λ t. rw q) v)
  | inr (m, h) ↦ rw (h, on_emit) (turn _ w.calls (rw q) tt (λ t. rw q) v)
]

publish-Kept :
    (g : ℕ) (chain : List Str) (e : Emit) (answer : Option Str) (w : Worker)
    → Kept (record w { sup = reading g }) (publish g chain e answer w)
unfolding publish ack_emit
publish-Kept g chain e answer w = ground arith

pub publish-Inv :
    (g : ℕ) (chain : List Str) (e : Emit) (answer : Option Str) {w : Worker}
    → w.sup ≡ publishing g chain e
    → Inv w
    → Inv (publish g chain e answer w)
publish-Inv g chain e answer {w} q v =
    Kept-Inv (publish-Kept g chain e answer w) (turn (reading g) w.calls (rw q) tt (λ t. rw q) v)

pub answer-Inv :
    (g : ℕ) (s : Settle) {w : Worker}
    → w.sup ≡ answering g s
    → Inv w
    → Inv (call s (record w { sup = reading g }))
unfolding call
answer-Inv g s {w} q v = turn (reading g) (s ∷ w.calls) (rw q) tt (λ t. rw q (omega arith)) v

pub read_ends-Inv :
    (g : ℕ) {w : Worker}
    → w.sup ≡ reading g
    → Inv w
    → Inv (request_stop g (record w { sup = reaping g }))
unfolding request_stop
read_ends-Inv g {w} q v =
    Kept-Inv {w = record w { sup = reaping g }} (ground arith)
      (turn (reaping g) w.calls (rw q) tt (λ t. rw q) v)

pub settle_stale-Inv :
    (n : ℕ) (stale : List Settle) (last : Bool) {w : Worker}
    → w.sup ≡ settling stale last
    → Inv w
    → Inv (settle_stale n stale last w)
unfolding settle_stale call
settle_stale-Inv n stale last {w} q v = elim (Option-cases (pick n stale)) [
  | inl h ↦ rw (h, settle_stale) v
  | inr ((s, rest), h) ↦
      rw (h, settle_stale)
        (turn (settling rest last) (s ∷ w.calls) (rw q)
          (Ended-rest stale rest last _ (subst (λ x. Ended x (shutting_down w)) q v.ended))
          (λ t. rw q (omega (arith, tally-pick t n stale s rest h))) v)
]
  where
    Ended-rest :
        (l l' : List Settle) (b d : Bool) → Ended (settling l b) d → Ended (settling l' b) d
    Ended-rest l l' true d e = e
    Ended-rest l l' false d e = tt

pub next_round-Inv :
    (stale : List Settle) (last : Bool) {w : Worker}
    → w.sup ≡ settling stale last
    → Inv w
    → Inv (next_round stale last w)
unfolding next_round
next_round-Inv [] true {w} q v =
    Kept-Inv {w = record w { sup = finished }} (ground arith) (
      turn finished w.calls (rw q) (subst (λ x. Ended x (shutting_down w)) q v.ended) (λ t. rw q) v)
next_round-Inv [] false {w} q v = turn spawning w.calls (rw q) tt (λ t. rw q) v
next_round-Inv (s ∷ stale) last q v = v

pub wake-Inv : (b : Bool) {w : Worker} → w.sup ≡ backoff → Inv w → Inv (wake b w)
unfolding wake
wake-Inv true {w} q v = turn spawning w.calls (rw q) tt (λ t. rw q) v
wake-Inv false {w} q v = go w.cancelled refl
  where
    go :
        (b : Bool)
        → w.cancelled ≡ b
        → Inv (if b then record w { stopped = true; sup = finished } else w)
    go true h =
        Kept-Inv {w = record w { sup = finished }} (ground arith) (
          turn finished w.calls {w = w} (rw q) (unfold shutting_down in ground arith) (λ t. rw q) v)
    go false h = v

pub spawn-Inv : (f : Option SpawnFault) {w : Worker} → w.sup ≡ spawning → Inv w → Inv (spawn f w)
unfolding spawn
spawn-Inv f {w} q v = elim (Option-cases (spawn_error w.cfg f)) [
  | inr (x, h) ↦ elim (Bool-cases (shutting_down w)) [
    | inl down ↦
        rw (h, spawn)
          (rw down (
            Kept-Inv {w = record w { sup = finished }} (ground arith)
              (turn finished w.calls (rw q) down (λ t. rw q) v)))
    | inr up ↦ rw (h, spawn) (rw up (turn backoff w.calls (rw q) tt (λ t. rw q) v))
  ]
  | inl h ↦
      rw (h, spawn)
        (Moved-Inv {w = w}
          (record {
            msgs = refl;
            cap = refl;
            next_id = refl;
            accepted = refl;
            live = refl;
            quiet = tt;
            sent = v.sent;
            ended = tt;
            account = λ t. omega (arith, ap (owed_sup t) q);
          })
          v)
]

-- Dispatch goes on, and owes what it owed, or has called a callback.
settled :
    (d : Dispatcher) (called fired : List Settle) {w : Worker}
    → Sent d w.next_id w.msgs
    → ((t : ℕ)
        → owed_disp t d + tally t fired + tally t called
          ≡ owed_disp t w.disp + tally t w.fired + tally t w.calls)
    → Inv w
    → Inv (record w { disp = d; calls = called; fired = fired })
unfolding shutting_down
settled d called fired {w} sent account v =
    Moved-Inv
      (record {
        msgs = refl;
        cap = refl;
        next_id = refl;
        accepted = refl;
        live = v.live;
        quiet = v.quiet;
        sent = sent;
        ended = v.ended;
        account = λ t. omega (arith, account t);
      })
      v

pub return_message-Inv : {w : Worker} → Inv w → Inv (return_message w)
unfolding return_message call
return_message-Inv {w} v = go w.disp refl
  where
    go : (d : Dispatcher) → w.disp ≡ d → Inv (return_message w)
    go ready e = rw (e, return_message) v
    go (sending g id d) e = rw (e, return_message) v
    go (returning s) e =
        rw (e, return_message) (settled ready (s ∷ w.calls) w.fired tt (λ t. rw e (omega arith)) v)

pub call_fired-Inv : (n : ℕ) {w : Worker} → Inv w → Inv (call_fired n w)
unfolding call_fired call
call_fired-Inv n {w} v = elim (Option-cases (pick n w.fired)) [
  | inl h ↦ rw (h, call_fired) v
  | inr ((s, rest), h) ↦
      rw (h, call_fired)
        (settled w.disp (s ∷ w.calls) rest v.sent
          (λ t. omega (arith, tally-pick t n w.fired s rest h)) v)
]

pub send_note-Inv : {w : Worker} → Inv w → Inv (send_note w)
unfolding send_note
send_note-Inv {w} v = go w.disp refl
  where
    go : (d : Dispatcher) → w.disp ≡ d → Inv (send_note w)
    go ready e = rw (e, send_note) v
    go (returning s) e = rw (e, send_note) v
    go (sending g id d) e = elim (Bool-cases (has_room g w)) [
      | inr full ↦ rw (e, send_note) (rw full v)
      | inl room ↦
          rw (e, send_note)
            (rw room (
              Kept-Inv {w = record w { disp = ready }} (ground arith)
                (settled ready w.calls w.fired tt (λ t. rw e) v)))
    ]

pub send_abort-Inv : {w : Worker} → Inv w → Inv (send_abort w)
unfolding send_abort
send_abort-Inv {w} v = go w.disp refl
  where
    go : (d : Dispatcher) → w.disp ≡ d → Inv (send_abort w)
    go ready e = rw (e, send_abort) v
    go (returning s) e = rw (e, send_abort) v
    go (sending g id d) e = elim (Bool-cases ((w.procs g).stop || w.cancelled)) [
      | inl up ↦ rw (e, send_abort) (rw up (reclaim-Inv g id d e v))
      | inr down ↦ rw (e, send_abort) (rw down v)
    ]
