-- ===== src/Worker/Queues.antt =====
-- What is queued for a process, and what is lost on the way, leaves its pipe in order.
use goxo.Base.{
  ℕ, ◌≤◌, ◌≡◌, ◌≢◌, refl, ap, sym, subst, ◌∙◌, ◌⊎◌, inl, inr, arith, some, List, [], ◌∷◌, ◌++◌, map,
  nat_eq, nat_Eq, Bool-cases,
}
use mathlib.Core.List.{append_assoc, map-append}
use goxo.Note.{EmitAck}
use goxo.Note.Wire.{EngineNote, stamp}
use goxo.Worker.State.{Config, OutNote, Dispatcher, ready, sending, returning, Worker}
use goxo.Worker.Process.{
  enqueue, to_note, deliver_note, has_room, send_note, ack_emit, lose, drop_head,
}
use goxo.Worker.Steps.{}
use goxo.Worker.Invariant.{Inv, Sent, process_of}
use goxo.Worker.Stdin.{
  pipe, Rising, Wired, Wired-mono, Wired-append, Wired-drop, Wired-begun, append-ne-nil, limit,
  receiver, Piped,
}
use goxo.Worker.Flows.{}

-- A note that is queued for a process in use. `hi` is what the ids stay below from now on.
enqueue-Wired :
    (cfg : Config) (lo hi : ℕ) (g : ℕ) (n : OutNote) (w : Worker)
    → lo ≤ hi
    → ((k : ℕ) → (k ≤ 0) ⊎ (k ≤ lo) → Rising k hi (stamp (to_note n) ∷ []))
    → pipe (w.procs g) ≢ []
    → ((h : ℕ) → Wired cfg lo (pipe (w.procs h)))
    → (h : ℕ) → Wired cfg hi (pipe ((enqueue g n w).procs h))
enqueue-Wired cfg lo hi g n w le ok used v h = elim (Bool-cases (nat_eq g h)) [
  | inr q ↦ rw q (Wired-mono cfg lo hi (pipe (w.procs h)) le (v h))
  | inl q ↦ rw q (
      subst (Wired cfg hi)
        (append_assoc (w.procs g).stdin (map (λ x. stamp (to_note x)) (w.procs g).out)
            (stamp (to_note n) ∷ [])
          ∙ ap (λ l. (w.procs g).stdin ++ l)
              (sym (map-append (λ x. stamp (to_note x)) (w.procs g).out (n ∷ []))))
        (Wired-append cfg lo hi (pipe (w.procs g)) (stamp (to_note n)) le ok used (v g)))
]

queued-ne-nil :
    (xs : List EngineNote) (out : List OutNote) (n : OutNote)
    → xs ++ map (λ x. stamp (to_note x)) (out ++ (n ∷ [])) ≢ []
queued-ne-nil [] [] n e = cc
queued-ne-nil [] (x ∷ out) n e = cc
queued-ne-nil (x ∷ xs) out n e = cc

enqueue-used :
    (g : ℕ) (n : OutNote) (w : Worker) (h : ℕ)
    → pipe (w.procs h) ≢ []
    → pipe ((enqueue g n w).procs h) ≢ []
enqueue-used g n w h used = elim (Bool-cases (nat_eq g h)) [
  | inr q ↦ rw q used
  | inl q ↦ rw q (queued-ne-nil (w.procs g).stdin (w.procs g).out n)
]

pub lose-Piped : {cfg : Config} (g : ℕ) (w : Worker) → Piped cfg w → Piped cfg (lose g w)
lose-Piped {cfg} g w v = queue (w.procs g).out refl
  where
    unchanged : lose g w ≡ w → Piped cfg (lose g w)
    unchanged e = subst (Piped cfg) (sym e) v

    queue : (out : List OutNote) → (w.procs g).out ≡ out → Piped cfg (lose g w)
    queue [] q = unchanged (unfold lose drop_head in ground (arith, q))
    queue (n ∷ rest) q = elim (Bool-cases (w.procs g).stdin_closed) [
      | inl e ↦ unchanged (unfold lose in ground (arith, e))
      | inr e ↦
          let lost : lose g w ≡ drop_head (n ∷ rest) g w = unfold lose in ground (arith, e, q) in
          let full =
            subst
              (λ l.
                Wired cfg (limit w.disp w.next_id)
                  ((w.procs g).stdin ++ map (λ x. stamp (to_note x)) l))
              q (v.wired g) in
          let begun = Wired-begun cfg _ (w.procs g).stdin n rest full in
          subst (Piped cfg) (sym lost) (
            unfold drop_head in
            record {
              same = v.same;
              wired = λ h. elim (Bool-cases (nat_eq g h)) [
                | inl k ↦ rw k (Wired-drop cfg _ (w.procs g).stdin (stamp (to_note n)) _ begun full)
                | inr k ↦ rw k (v.wired h)
              ];
              fed = λ h x. elim (Bool-cases (nat_eq g h)) [
                | inl k ↦ rw k (append-ne-nil (w.procs g).stdin _ begun)
                | inr k ↦ rw k (v.fed h x)
              ];
            })
    ]

-- Dispatch queues the deliver note that it is sending.
pub send_note-Piped : {cfg : Config} (w : Worker) → Inv w → Piped cfg w → Piped cfg (send_note w)
send_note-Piped {cfg} w i v = turn w.disp refl
  where
    unchanged : send_note w ≡ w → Piped cfg (send_note w)
    unchanged e = subst (Piped cfg) (sym e) v

    turn : (d : Dispatcher) → w.disp ≡ d → Piped cfg (send_note w)
    turn ready e = unchanged (unfold send_note in ground (arith, e))
    turn (returning s) e = unchanged (unfold send_note in ground (arith, e))
    turn (sending g id d) e = elim (Bool-cases (has_room g w)) [
      | inr q ↦ unchanged (unfold send_note in ground (arith, e, q))
      | inl q ↦
          let n : OutNote = OutNote.deliver (deliver_note id d) in
          let sent : send_note w ≡ record (enqueue g n w) { disp = ready } =
            unfold send_note in ground (arith, e, q) in
          let given = subst (λ x. Sent x w.next_id w.msgs) e i.sent in
          let wired =
            subst (λ x. (h : ℕ) → Wired cfg (limit x w.next_id) (pipe (w.procs h))) e v.wired in
          subst (Piped cfg) (sym sent) (record {
            same = v.same;
            wired =
                enqueue-Wired cfg id w.next_id g n w (omega (arith, given.0))
                  (λ k h. unfold stamp in (at_most k h, given.0, tt))
                  (v.fed g (inr (ap receiver e))) wired;
            fed = λ h x. elim x [ inl y ↦ enqueue-used g n w h (v.fed h (inl y)) | inr y ↦ cc ];
          })
    ]
      where
        at_most : (k : ℕ) → (k ≤ 0) ⊎ (k ≤ id) → k ≤ id
        at_most k (inl h) = omega arith
        at_most k (inr h) = h

-- An answer to an emit of the process that the supervisor looks after.
pub ack_emit-Piped :
    {cfg : Config} (g : ℕ) (a : EmitAck) (w : Worker)
    → process_of w.sup ≡ some g
    → Piped cfg w
    → Piped cfg (ack_emit g a w)
unfolding ack_emit
ack_emit-Piped {cfg} g a w q v = elim (Bool-cases (has_room g w)) [
  | inr e ↦ rw (e, ack_emit) v
  | inl e ↦
      rw (e, ack_emit)
        (record {
          same = v.same;
          wired =
              enqueue-Wired cfg (limit w.disp w.next_id) (limit w.disp w.next_id) g
                (OutNote.emit_ack a) w (omega arith) (λ k h. unfold stamp in tt) (v.fed g (inl q))
                v.wired;
          fed = λ h x. enqueue-used g (OutNote.emit_ack a) w h (v.fed h x);
        })
]
