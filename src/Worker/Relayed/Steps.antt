-- ===== src/Worker/Relayed/Steps.antt =====
-- On every step of a worker, what it hands to the bus.
use goxo.Base.{
  ℕ, ◌≡◌, refl, sym, subst, inl, inr, arith, true, Option, List, [], ◌∷◌, Option-cases, Bool-cases,
  nat_Eq,
}
use goxo.Base.Text.{Str}
use goxo.Note.{Emit, EmitAck}
use goxo.Note.Wire.{emit, done, pickup}
use goxo.Worker.State.{
  Delivery, Supervisor, spawning, backoff, reading, publishing, answering, reaping, settling,
  Worker,
}
use goxo.Worker.Messages.{call, offer, reap, settle_stale, next_round, call_fired}
use goxo.Worker.Process.{
  request_stop, send_note, send_abort, ack_emit, declared, publish, write, write_head, lose,
  drop_head, close_stdin, spawn, begin_close, kill,
}
use goxo.Worker.Cases.{offer_cases, send_abort_cases}
use goxo.Worker.Steps.{
  Action, spawns, wakes, reads, publishes, answers, read_ends, reaps, settles, goes_on, offers,
  queues, aborts, returns, times_out, fires, writes, loses, closes_stdin, closing_begins, kills,
  cancels, wake, supervise, return_message, step,
}
use goxo.Worker.Relayed.{
  Due, Relayed, calm, apart, entries, on_done-Relayed, on_pickup-Relayed, on_timeout-Relayed,
  reclaim-Relayed, register-Relayed, on_emit-Relayed,
}

module _ (P : List Str → Type 0) (outputs : List Str) where
  -- The answer to an emit is queued or dropped.
  acked :
      (g : ℕ) (a : EmitAck) (w : Worker) → Relayed P outputs w → Relayed P outputs (ack_emit g a w)
  acked g a w v = apart P outputs w _ (unfold ack_emit in ground arith) v

  publish-Relayed :
      (g : ℕ) (chain : List Str) (e : Emit) (answer : Option Str) (w : Worker)
      → P chain
      → Relayed P outputs w
      → Relayed P outputs (publish g chain e answer w)
  unfolding publish
  publish-Relayed g chain e answer w h v = elim (Bool-cases (declared w.cfg.outputs e.selector)) [
    | inr out ↦ rw (out, publish) (acked g _ _ silenced)
    | inl known ↦ elim (Option-cases answer) [
      | inl n ↦ rw (known, publish) (rw n (acked g _ _ (added known)))
      | inr (x, n) ↦ rw (known, publish) (rw n (acked g _ _ (added known)))
    ]
  ]
    where
      silenced : Relayed P outputs (record w { sup = reading g })
      silenced = record { same = v.same; known = v.known; due = tt; sent = v.sent }

      added :
          declared w.cfg.outputs e.selector ≡ true
          → Relayed P outputs (record w {
            sup = reading g;
            published =
                record { chain = chain; selector = e.selector; fields = e.fields } ∷ w.published;
          })
      added known = record {
        same = v.same;
        known = v.known;
        due = tt;
        sent = ((subst (λ o. declared o e.selector ≡ true) v.same known, h), v.sent);
      }

  supervise-Relayed :
      (a : Action) (s : Supervisor) (w : Worker)
      → P []
      → w.sup ≡ s
      → Relayed P outputs w
      → Relayed P outputs (supervise a s w)
  unfolding supervise
  supervise-Relayed (spawns f) spawning w h q v =
      calm P outputs w (spawn f w) (unfold spawn in ground arith) v
  supervise-Relayed (wakes b) backoff w h q v =
      calm P outputs w (wake b w) (unfold wake in ground (arith, q)) v
  supervise-Relayed (reads (emit x)) (reading g) w h q v = on_emit-Relayed P outputs g x w h v
  supervise-Relayed (reads (done x)) (reading g) w h q v = on_done-Relayed P outputs g x w v
  supervise-Relayed (reads (pickup x)) (reading g) w h q v = on_pickup-Relayed P outputs x.id w v
  supervise-Relayed (publishes x) (publishing g chain y) w h q v =
      publish-Relayed g chain y x w (subst (Due P outputs) q v.due) v
  supervise-Relayed answers (answering g s) w h q v =
      calm P outputs w _ (unfold call in (refl, refl, refl, refl)) v
  supervise-Relayed read_ends (reading g) w h q v =
      calm P outputs w _ (unfold request_stop in (refl, refl, refl, refl)) v
  supervise-Relayed reaps (reaping g) w h q v =
      unfold reap in entries P outputs [] _ w _ (refl, refl, refl, refl) tt tt v
  supervise-Relayed (settles n) (settling stale last) w h q v =
      calm P outputs w (settle_stale n stale last w) (unfold settle_stale call in ground (arith, q))
        v
  supervise-Relayed goes_on (settling [] last) w h q v =
      calm P outputs w (next_round [] last w) (unfold next_round in ground arith) v
  supervise-Relayed _ _ w h q v = v

  -- The chain of a message that is offered.
  abbrev pub Offered : Action → Type 0
  Offered (offers d) = P d.chain
  Offered _ = Unit

  offer-Relayed :
      (d : Delivery) (w : Worker) → P d.chain → Relayed P outputs w → Relayed P outputs (offer d w)
  offer-Relayed d w h v = elim (offer_cases d w) [
    | inl e ↦ subst (Relayed P outputs) (sym e) v
    | inr (g, e, _, _, _, _) ↦
        subst (Relayed P outputs) (sym e) (register-Relayed P outputs g d w h v)
  ]

  send_abort-Relayed : (w : Worker) → Relayed P outputs w → Relayed P outputs (send_abort w)
  send_abort-Relayed w v = elim (send_abort_cases w) [
    | inl e ↦ subst (Relayed P outputs) (sym e) v
    | inr (g, id, d, _, e) ↦ subst (Relayed P outputs) (sym e) (reclaim-Relayed P outputs id d w v)
  ]

  pub step-Relayed :
      (a : Action) (w : Worker)
      → P []
      → Offered a
      → Relayed P outputs w
      → Relayed P outputs (step a w)
  unfolding step
  step-Relayed (offers d) w h o v = offer-Relayed d w o v
  step-Relayed queues w h o v = apart P outputs w (send_note w) (unfold send_note in ground arith) v
  step-Relayed aborts w h o v = send_abort-Relayed w v
  step-Relayed returns w h o v =
      apart P outputs w (return_message w) (unfold return_message call in ground arith) v
  step-Relayed (times_out id) w h o v = on_timeout-Relayed P outputs id w v
  step-Relayed (fires n) w h o v =
      apart P outputs w (call_fired n w) (unfold call_fired call in ground arith) v
  step-Relayed (writes g) w h o v =
      apart P outputs w (write g w) (unfold write write_head in ground arith) v
  step-Relayed (loses g) w h o v =
      apart P outputs w (lose g w) (unfold lose drop_head in ground arith) v
  step-Relayed (closes_stdin g) w h o v =
      apart P outputs w (close_stdin g w) (unfold close_stdin in ground arith) v
  step-Relayed closing_begins w h o v =
      apart P outputs w (begin_close w) (unfold begin_close request_stop in ground arith) v
  step-Relayed kills w h o v = apart P outputs w (kill w) (unfold kill in ground arith) v
  step-Relayed cancels w h o v = apart P outputs w _ (refl, refl, refl, refl) v
  step-Relayed a w h o v = supervise-Relayed a w.sup w h refl v
