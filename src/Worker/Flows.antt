-- ===== src/Worker/Flows.antt =====
-- The steps that add nothing to the pipe of a process.
use goxo.Base.{
  ℕ, ◌≡◌, refl, ap, sym, subst, ◌∙◌, ◌⊎◌, inl, inr, arith, Bool, true, false, none, List, [], ◌∷◌,
  ◌++◌, map, nat_eq, nat_Eq, Option-cases, Bool-cases,
}
use mathlib.Core.List.{append_assoc}
use goxo.Base.Dict.{lookup}
use goxo.Note.Wire.{HandlerNote, emit, done, pickup, stamp}
use goxo.Worker.State.{
  Delivery, OutNote, Proc, reading, Dispatcher, ready, sending, returning, Worker,
}
use goxo.Worker.Messages.{offer, register, reclaim}
use goxo.Worker.Process.{
  update, to_note, request_stop, send_abort, write_head, write, close_stdin, begin_close, kill,
}
use goxo.Worker.Steps.{on_note, return_message}
use goxo.Worker.Invariant.{Inv, Sent, process_of}
use goxo.Worker.Stdin.{pipe, receiver, Flow}
use goxo.Worker.Cases.{offer_cases, send_abort_cases}

pub pipe-update :
    (procs : ℕ → Proc) (g : ℕ) (p : Proc) (h : ℕ)
    → pipe p ≡ pipe (procs g)
    → pipe (update procs g p h) ≡ pipe (procs h)
pipe-update procs g p h e = elim (Bool-cases (nat_eq g h)) [
  | inl q ↦ let same : g ≡ h = ground arith in rw q (e ∙ ap (λ i. pipe (procs i)) same)
  | inr q ↦ rw q refl
]

-- The supervisor, Dispatch and the ids stay, or the supervisor leaves its process.
pub record Calm (w w' : Worker) : Type 0 where
  pub cfg : w'.cfg ≡ w.cfg
  pub disp : w'.disp ≡ w.disp
  pub next_id : w'.next_id ≡ w.next_id
  pub handled : (process_of w'.sup ≡ process_of w.sup) ⊎ (process_of w'.sup ≡ none)

pub Calm-Flow :
    (w w' : Worker) → Calm w w' → ((g : ℕ) → pipe (w'.procs g) ≡ pipe (w.procs g)) → Flow w w'
Calm-Flow w w' c pipes = record {
  cfg = c.cfg;
  limits = rw (c.disp, c.next_id) (omega arith);
  pipes = pipes;
  handled = c.handled;
  received = inr (inl (ap receiver c.disp));
}

-- As before, with the processes left alone.
pub Still : (w w' : Worker) → Calm w w' → w'.procs ≡ w.procs → Flow w w'
Still w w' c e = Calm-Flow w w' c (λ g. ap (λ f. pipe (f g)) e)

pub write-Flow : (g : ℕ) (w : Worker) → Flow w (write g w)
unfolding write write_head
write-Flow g w = elim (Bool-cases (w.procs g).stdin_closed) [
  | inl e ↦ rw e (Still w w (ground arith) refl)
  | inr e ↦ rw (e, write) (head (w.procs g).out refl)
]
  where
    head : (out : List OutNote) → (w.procs g).out ≡ out → Flow w (write_head out g w)
    head [] q = Still w w (ground arith) refl
    head (n ∷ rest) q = Calm-Flow w _ (ground arith) (λ h. pipe-update w.procs g _ h (
        append_assoc (w.procs g).stdin (stamp (to_note n) ∷ []) (map (λ x. stamp (to_note x)) rest)
        ∙ ap (λ l. (w.procs g).stdin ++ map (λ x. stamp (to_note x)) l) (sym q)))

pub request_stop-Flow : (g : ℕ) (w : Worker) → Flow w (request_stop g w)
unfolding request_stop
request_stop-Flow g w = Calm-Flow w _ (ground arith) (λ h. pipe-update w.procs g _ h refl)

close_stdin_cases :
    (g : ℕ) (w : Worker)
    → (close_stdin g w ≡ w)
      ⊎ (close_stdin g w
          ≡ record w { procs = update w.procs g (record (w.procs g) { stdin_closed = true }) })
unfolding close_stdin
close_stdin_cases g w = queue (w.procs g).out refl (w.procs g).stop refl
  where
    queue :
        (out : List OutNote)
        → (w.procs g).out ≡ out
        → (b : Bool) → (w.procs g).stop ≡ b
        → (close_stdin g w ≡ w)
          ⊎ (close_stdin g w
              ≡ record w { procs = update w.procs g (record (w.procs g) { stdin_closed = true }) })
    queue out q false e = inl (ground (arith, e))
    queue [] q true e = inr (ground (arith, e, q))
    queue (n ∷ rest) q true e = inl (ground (arith, e, q))

pub close_stdin-Flow : (g : ℕ) (w : Worker) → Flow w (close_stdin g w)
close_stdin-Flow g w = elim (close_stdin_cases g w) [
  | inl e ↦ subst (Flow w) (sym e) (Still w w (ground arith) refl)
  | inr e ↦
      subst (Flow w) (sym e) (Calm-Flow w _ (ground arith) (λ h. pipe-update w.procs g _ h refl))
]

pub begin_close-Flow : (w : Worker) → Flow w (begin_close w)
unfolding begin_close request_stop
begin_close-Flow w = elim (Option-cases w.cur) [
  | inl e ↦ rw (e, begin_close) (Still _ _ (ground arith) refl)
  | inr (g, e) ↦
      rw (e, begin_close) (Calm-Flow _ _ (ground arith) (λ h. pipe-update w.procs g _ h refl))
]

pub kill-Flow : (w : Worker) → Flow w (kill w)
unfolding kill
kill-Flow w = elim (Option-cases w.cur) [
  | inl e ↦ rw (e, kill) (Still _ _ (ground arith) refl)
  | inr (g, e) ↦ rw (e, kill) (Calm-Flow _ _ (ground arith) (λ h. pipe-update w.procs g _ h refl))
]

-- The turns of the supervisor that add no note and start no process.
pub on_note-Flow :
    (g : ℕ) (n : HandlerNote) (w : Worker) → w.sup ≡ reading g → Flow w (on_note g n w)
unfolding on_note
on_note-Flow g (emit e) w q = Still w _ (ground (arith, ap process_of q)) (ground arith)
on_note-Flow g (done d) w q = Still w _ (ground (arith, ap process_of q)) (ground arith)
on_note-Flow g (pickup p) w q = Still w _ (ground (arith, ap process_of q)) (ground arith)

pub offer-Flow : (d : Delivery) (w : Worker) → Inv w → Flow w (offer d w)
offer-Flow d w v = elim (offer_cases d w) [
  | inl e ↦ subst (Flow w) (sym e) (Still w w (ground arith) refl)
  | inr (g, e, r, _, live, _) ↦ subst (Flow w) (sym e) (
      unfold register in
      (record {
        cfg = refl;
        limits = rw r (omega arith);
        pipes = λ h. refl;
        handled = inl refl;
        received = inr (inr (sym live ∙ v.live));
      }))
]

reclaim-Flow :
    (g id : ℕ) (d : Delivery) (w : Worker)
    → w.disp ≡ sending g id d
    → Inv w
    → Flow w (reclaim id d w)
unfolding reclaim
reclaim-Flow g id d w e v =
    let given = subst (λ x. Sent x w.next_id w.msgs) e v.sent in
    elim (Option-cases (lookup id w.msgs)) [
      | inl h ↦
          let same : (reclaim id d w).procs ≡ w.procs = ground (arith, h) in
          record {
            cfg = ground (arith, h);
            limits = ground (arith, h, e, given.0);
            pipes = λ k. ap (λ f. pipe (f k)) same;
            handled = inl (ground (arith, h));
            received = inl (ground (arith, h));
          }
      | inr (m, h) ↦
          let same : (reclaim id d w).procs ≡ w.procs = ground (arith, h) in
          record {
            cfg = ground (arith, h);
            limits = ground (arith, h, e, given.0);
            pipes = λ k. ap (λ f. pipe (f k)) same;
            handled = inl (ground (arith, h));
            received = inl (ground (arith, h));
          }
    ]

pub send_abort-Flow : (w : Worker) → Inv w → Flow w (send_abort w)
send_abort-Flow w v = elim (send_abort_cases w) [
  | inl e ↦ subst (Flow w) (sym e) (Still w w (ground arith) refl)
  | inr (g, id, d, q, e) ↦ subst (Flow w) (sym e) (reclaim-Flow g id d w q v)
]

pub return_message-Flow : (d : Dispatcher) (w : Worker) → w.disp ≡ d → Flow w (return_message w)
unfolding return_message
return_message-Flow ready w e = Still w _ (ground (arith, e)) (ground (arith, e))
return_message-Flow (sending g id x) w e = Still w _ (ground (arith, e)) (ground (arith, e))
return_message-Flow (returning s) w e =
    let same : (return_message w).procs ≡ w.procs = ground (arith, e) in
    record {
      cfg = ground (arith, e);
      limits = ground (arith, e);
      pipes = λ h. ap (λ f. pipe (f h)) same;
      handled = inl (ground (arith, e));
      received = inl (ground (arith, e));
    }
