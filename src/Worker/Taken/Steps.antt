-- ===== src/Worker/Taken/Steps.antt =====
-- No step requeues a message that was picked up.
use goxo.Base.{ℕ, ◌≡◌, ◌≢◌, refl, ap, sym, subst, ◌∙◌, inl, inr, arith, [], ◌∷◌, nat_Eq, Bool-cases}
use goxo.Worker.State.{
  Delivery, Supervisor, spawning, backoff, reading, publishing, answering, reaping, settling,
  Dispatcher, ready, sending, returning, Worker, deliver,
}
use goxo.Worker.Messages.{offer, register, call}
use goxo.Worker.Invariant.{times}
use goxo.Note.Wire.{HandlerNote, emit, done, pickup}
use goxo.Worker.Process.{send_note, send_abort, spawn, has_room, enqueue, deliver_note}
use goxo.Worker.Steps.{
  Action, spawns, wakes, reads, publishes, answers, read_ends, reaps, settles, goes_on, offers,
  queues, aborts, returns, times_out, fires, writes, loses, closes_stdin, closing_begins, kills,
  cancels, on_note, supervise, return_message, step,
}
use goxo.Worker.Moves.{
  Kept, write-Kept, lose-Kept, close_stdin-Kept, begin_close-Kept, kill-Kept, cancel-Kept,
}
use goxo.Worker.Cases.{offer_cases, send_abort_cases}
use goxo.Worker.Picked.{requeues_sup, Leaves, Taken}
use goxo.Worker.Taken.{
  resume, on_done-Taken, on_pickup-Taken, on_timeout-Taken, reclaim-Taken, register-Taken,
  reap-Taken, settle_stale-Taken, call_fired-Taken,
}

on_note-Taken :
    (t g : ℕ) (n : HandlerNote) (w : Worker)
    → w.sup ≡ reading g
    → Taken t w
    → Taken t (on_note g n w)
unfolding on_note
on_note-Taken t g (emit e) w q v =
    resume t w _ (ground arith) (ground arith) (ground arith) (ground arith) (ground arith) v
on_note-Taken t g (done d) w q v = on_done-Taken t g d w q v
on_note-Taken t g (pickup p) w q v = on_pickup-Taken t p.id w v

supervise-Taken :
    (t : ℕ) (a : Action) (s : Supervisor) (w : Worker)
    → w.sup ≡ s
    → Taken t w
    → Taken t (supervise a s w)
unfolding supervise
supervise-Taken t (spawns f) spawning w q v =
    unfold spawn in
    resume t w (spawn f w) (ground arith) (ground arith) (ground arith) (ground arith)
      (ground arith) v
supervise-Taken t (wakes b) backoff w q v =
    resume t w _ (ground arith) (ground arith) (ground arith) (ground arith)
      (ground (arith, ap (requeues_sup t) q, v.sup)) v
supervise-Taken t (reads n) (reading g) w q v = on_note-Taken t g n w q v
supervise-Taken t (publishes x) (publishing g chain e) w q v =
    resume t w _ (ground arith) (ground arith) (ground arith) (ground arith) (ground arith) v
supervise-Taken t answers (answering g s) w q v =
    let owes_none = ap (requeues_sup t) (sym q) ∙ v.sup in
    unfold call in
    record {
      picked = v.picked;
      sup = refl;
      disp = v.disp;
      fired = v.fired;
      calls = omega (arith, owes_none, v.calls);
    }
supervise-Taken t read_ends (reading g) w q v =
    resume t w _ (ground arith) (ground arith) (ground arith) (ground arith) (ground arith) v
supervise-Taken t reaps (reaping g) w q v = reap-Taken t w v
supervise-Taken t (settles n) (settling stale last) w q v = settle_stale-Taken t n stale last w q v
supervise-Taken t goes_on (settling [] last) w q v =
    resume t w _ (ground arith) (ground arith) (ground arith) (ground arith) (ground arith) v
supervise-Taken t _ _ w q v = v

-- A step that touches processes and queues only, or starts the shutdown.
kept : (t : ℕ) {w w' : Worker} → Kept w w' → Taken t w → Taken t w'
kept t {w} {w'} k v =
    resume t w w' k.msgs k.disp k.fired k.calls (ap (requeues_sup t) k.sup ∙ v.sup) v

send_note-Taken : (t : ℕ) (w : Worker) → Taken t w → Taken t (send_note w)
send_note-Taken t w v = turn w.disp refl
  where
    unchanged : send_note w ≡ w → Taken t (send_note w)
    unchanged e = subst (Taken t) (sym e) v

    turn : (x : Dispatcher) → w.disp ≡ x → Taken t (send_note w)
    turn ready q = unchanged (unfold send_note in ground (arith, q))
    turn (returning s) q = unchanged (unfold send_note in ground (arith, q))
    turn (sending g id d) q = elim (Bool-cases (has_room g w)) [
      | inr full ↦ unchanged (unfold send_note in ground (arith, q, full))
      | inl room ↦
          let sent : send_note w
              ≡ record (enqueue g (deliver (deliver_note id d)) w) { disp = ready } =
            unfold send_note in ground (arith, q, room) in
          subst (Taken t) (sym sent)
            (record { picked = v.picked; sup = v.sup; disp = tt; fired = v.fired; calls = v.calls })
    ]

send_abort-Taken : (t : ℕ) (w : Worker) → Taken t w → Taken t (send_abort w)
send_abort-Taken t w v = elim (send_abort_cases w) [
  | inl e ↦ subst (Taken t) (sym e) v
  | inr (g, id, d, q, e) ↦ subst (Taken t) (sym e) (reclaim-Taken t g id d w q v)
]

return_message-Taken : (t : ℕ) (w : Worker) → Taken t w → Taken t (return_message w)
return_message-Taken t w v = turn w.disp refl
  where
    unchanged : return_message w ≡ w → Taken t (return_message w)
    unchanged e = subst (Taken t) (sym e) v

    turn : (x : Dispatcher) → w.disp ≡ x → Taken t (return_message w)
    turn ready q = unchanged (unfold return_message in ground (arith, q))
    turn (sending g id d) q = unchanged (unfold return_message in ground (arith, q))
    turn (returning s) q =
        let other = subst (Leaves t) q v.disp in
        let done : return_message w ≡ record w { disp = ready; calls = s ∷ w.calls } =
          unfold return_message call in ground (arith, q) in
        subst (Taken t) (sym done) (record {
          picked = v.picked;
          sup = v.sup;
          disp = tt;
          fired = v.fired;
          calls = omega (arith, other, v.calls);
        })

offer-Taken :
    (t : ℕ) (d : Delivery) (w : Worker)
    → times t (offer d w).accepted ≡ times t w.accepted
    → Taken t w
    → Taken t (offer d w)
offer-Taken t d w same v = elim (offer_cases d w) [
  | inl e ↦ subst (Taken t) (sym e) v
  | inr (g, e, _, _, _, _) ↦
      let taken : (offer d w).accepted ≡ d.tag ∷ w.accepted =
        ap (λ (x : Worker). x.accepted) e ∙ (unfold register in refl) in
      let other : d.tag ≢ t = λ h. absurd (ground (arith, same, ap (times t) taken, h)) in
      subst (Taken t) (sym e) (register-Taken t g d w other v)
]

pub step-Taken :
    (t : ℕ) (a : Action) (w : Worker)
    → times t (step a w).accepted ≡ times t w.accepted
    → Taken t w
    → Taken t (step a w)
unfolding step
step-Taken t (offers d) w same v = offer-Taken t d w same v
step-Taken t queues w same v = send_note-Taken t w v
step-Taken t aborts w same v = send_abort-Taken t w v
step-Taken t returns w same v = return_message-Taken t w v
step-Taken t (times_out id) w same v = on_timeout-Taken t id w v
step-Taken t (fires n) w same v = call_fired-Taken t n w v
step-Taken t (writes g) w same v = kept t (write-Kept g w) v
step-Taken t (loses g) w same v = kept t (lose-Kept g w) v
step-Taken t (closes_stdin g) w same v = kept t (close_stdin-Kept g w) v
step-Taken t closing_begins w same v = kept t (begin_close-Kept w) v
step-Taken t kills w same v = kept t (kill-Kept w) v
step-Taken t cancels w same v = kept t (cancel-Kept w) v
step-Taken t a w same v = supervise-Taken t a w.sup w refl v
