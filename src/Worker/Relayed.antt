-- ===== src/Worker/Relayed.antt =====
-- internal/worker/worker.go: what a worker hands to the bus, on any run.
pub mod Steps
use goxo.Base.{
  ℕ, ◌≡◌, refl, sym, subst, ◌∙◌, inl, inr, arith, Bool, true, false, none, some, Option, List, [],
  ◌∷◌, All, Option-cases, Bool-cases, nat_eq, nat_Eq,
}
use goxo.Base.Dict.{Dict, lookup, insert, delete}
use goxo.Base.Text.{Str}
use goxo.Note.{Emit, EmitAck, Done}
use goxo.Note.Wire.{emit, done, pickup}
use goxo.Worker.State.{
  Config, Delivery, Inflight, Supervisor, spawning, backoff, reading, publishing, answering,
  reaping, settling, finished, Published, Worker, ready, sending, returning, Dispatcher,
}
use goxo.Worker.Messages.{
  call, set_picked, on_pickup, on_done, on_timeout, offer, register, new_inflight, reclaim, reap,
  settle_stale, next_round, call_fired, shutting_down, free_slot,
}
use goxo.Worker.Process.{
  request_stop, send_note, send_abort, ack_emit, declared, on_emit, publish, write, write_head,
  lose, drop_head, close_stdin, spawn, begin_close, kill,
}
use goxo.Worker.Cases.{offer_cases, send_abort_cases}
use goxo.Worker.Steps.{
  Action, spawns, wakes, reads, publishes, answers, read_ends, reaps, settles, goes_on, offers,
  queues, aborts, returns, times_out, fires, writes, loses, closes_stdin, closing_begins, kills,
  cancels, on_note, wake, supervise, return_message, step, run,
}

abbrev silent : Supervisor → Bool
silent (publishing g chain e) = false
silent _ = true

-- `P` holds of the chains of the messages that are offered, and of the empty one.
module _ (P : List Str → Type 0) (outputs : List Str) where
  abbrev pub Known : Dict ℕ Inflight → Type 0
  Known [] = Unit
  Known ((k, m) ∷ l) = P m.chain × Known l

  Known-insert :
      (k : ℕ) (m : Inflight) (l : Dict ℕ Inflight) → P m.chain → Known l → Known (insert k m l)
  unfolding insert
  Known-insert k m [] h a = (h, tt)
  Known-insert k m ((j, x) ∷ l) h (p, a) = elim (Bool-cases (nat_eq j k)) [
    | inl e ↦ rw (e, insert) (h, a)
    | inr e ↦ rw (e, insert) (p, Known-insert k m l h a)
  ]

  Known-delete : (k : ℕ) (l : Dict ℕ Inflight) → Known l → Known (delete k l)
  unfolding delete
  Known-delete k [] a = tt
  Known-delete k ((j, x) ∷ l) (p, a) = elim (Bool-cases (nat_eq j k)) [
    | inl e ↦ rw (e, delete) (Known-delete k l a)
    | inr e ↦ rw (e, delete) (p, Known-delete k l a)
  ]

  pub lookup-Known :
      (k : ℕ) (l : Dict ℕ Inflight) (m : Inflight) → lookup k l ≡ some m → Known l → P m.chain
  unfolding lookup
  lookup-Known k [] m e a = absurd (cc e)
  lookup-Known k ((j, x) ∷ l) m e (p, a) = elim (Bool-cases (nat_eq j k)) [
    | inl h ↦ let same : x ≡ m = ground (arith, e, h) in subst (λ (y : Inflight). P y.chain) same p
    | inr h ↦ lookup-Known k l m (ground (arith, e, h)) a
  ]

  abbrev pub Due : Supervisor → Type 0
  Due (publishing g chain e) = P chain
  Due _ = Unit

  silent-Due : (s : Supervisor) → silent s ≡ true → Due s
  silent-Due (publishing g chain e) h = absurd (cc h)
  silent-Due _ h = tt

  -- An emit that was handed to the bus.
  abbrev pub Sent : Published → Type 0
  Sent p = (declared outputs p.selector ≡ true) × P p.chain

  pub record Relayed (w : Worker) : Type 0 where
    pub same : w.cfg.outputs ≡ outputs
    pub known : Known w.msgs
    pub due : Due w.sup
    pub sent : All Sent w.published

  -- Neither the messages nor what is published change, and no emit is taken up.
  abbrev pub Calm : Worker → Worker → Type 0
  Calm w w' =
      (w'.cfg ≡ w.cfg) × (w'.msgs ≡ w.msgs) × (w'.published ≡ w.published) × (silent w'.sup ≡ true)

  pub calm : (w w' : Worker) → Calm w w' → Relayed w → Relayed w'
  calm w w' (c, m, p, s) v = record {
    same = subst (λ (x : Config). x.outputs ≡ outputs) (sym c) v.same;
    known = subst Known (sym m) v.known;
    due = silent-Due w'.sup s;
    sent = subst (All Sent) (sym p) v.sent;
  }

  abbrev Apart : Worker → Worker → Type 0
  Apart w w' =
      (w'.cfg ≡ w.cfg) × (w'.msgs ≡ w.msgs) × (w'.published ≡ w.published) × (w'.sup ≡ w.sup)

  pub apart : (w w' : Worker) → Apart w w' → Relayed w → Relayed w'
  apart w w' (c, m, p, s) v = record {
    same = subst (λ (x : Config). x.outputs ≡ outputs) (sym c) v.same;
    known = subst Known (sym m) v.known;
    due = subst Due (sym s) v.due;
    sent = subst (All Sent) (sym p) v.sent;
  }

  -- The entries change.
  pub entries :
      (msgs : Dict ℕ Inflight) (sup : Supervisor) (w w' : Worker)
      → Apart (record w { msgs = msgs; sup = sup }) w'
      → Known msgs
      → Due sup
      → Relayed w
      → Relayed w'
  entries msgs sup w w' h k d v =
      apart (record w { msgs = msgs; sup = sup }) w' h
        (record { same = v.same; known = k; due = d; sent = v.sent })

  pub on_done-Relayed : (g : ℕ) (d : Done) (w : Worker) → Relayed w → Relayed (on_done g d w)
  unfolding on_done
  on_done-Relayed g d w v = elim (Option-cases (lookup d.id w.msgs)) [
    | inl h ↦ rw (h, on_done) v
    | inr (m, h) ↦
        rw (h, on_done)
          (entries (delete d.id w.msgs) _ w _ (refl, refl, refl, refl)
            (Known-delete d.id w.msgs v.known) tt v)
  ]

  pub on_pickup-Relayed : (id : ℕ) (w : Worker) → Relayed w → Relayed (on_pickup id w)
  unfolding on_pickup
  on_pickup-Relayed id w v = elim (Option-cases (lookup id w.msgs)) [
    | inl h ↦ rw (h, on_pickup) v
    | inr (m, h) ↦
        rw (h, on_pickup)
          (entries (insert id (set_picked m) w.msgs) w.sup w _ (refl, refl, refl, refl)
            (Known-insert id (set_picked m) w.msgs (lookup-Known id w.msgs m h v.known) v.known)
            v.due v)
  ]

  pub on_timeout-Relayed : (id : ℕ) (w : Worker) → Relayed w → Relayed (on_timeout id w)
  unfolding on_timeout
  on_timeout-Relayed id w v = elim (Option-cases (lookup id w.msgs)) [
    | inl h ↦ rw (h, on_timeout) v
    | inr (m, h) ↦ elim (Bool-cases m.timer) [
      | inr off ↦ rw (h, on_timeout) (rw off v)
      | inl on ↦
          rw (h, on_timeout)
            (rw on (
              entries (delete id w.msgs) w.sup w _ (refl, refl, refl, refl)
                (Known-delete id w.msgs v.known) v.due v))
    ]
  ]

  pub reclaim-Relayed : (id : ℕ) (d : Delivery) (w : Worker) → Relayed w → Relayed (reclaim id d w)
  unfolding reclaim
  reclaim-Relayed id d w v = elim (Option-cases (lookup id w.msgs)) [
    | inl h ↦ rw (h, reclaim) (apart w _ (refl, refl, refl, refl) v)
    | inr (m, h) ↦
        rw (h, reclaim)
          (entries (delete id w.msgs) w.sup w _ (refl, refl, refl, refl)
            (Known-delete id w.msgs v.known) v.due v)
  ]

  pub register-Relayed :
      (g : ℕ) (d : Delivery) (w : Worker) → P d.chain → Relayed w → Relayed (register g d w)
  unfolding register
  register-Relayed g d w h v =
      entries (insert w.next_id (new_inflight w.cfg d) w.msgs) w.sup w _ (refl, refl, refl, refl)
        (Known-insert w.next_id (new_inflight w.cfg d) w.msgs h v.known) v.due v

  pub on_emit-Relayed : (g : ℕ) (e : Emit) (w : Worker) → P [] → Relayed w → Relayed (on_emit g e w)
  unfolding on_emit
  on_emit-Relayed g e w h v = elim (Option-cases (lookup e.deliver w.msgs)) [
    | inl n ↦ rw (n, on_emit) (entries w.msgs _ w _ (refl, refl, refl, refl) v.known h v)
    | inr (m, n) ↦
        rw (n, on_emit)
          (entries w.msgs _ w _ (refl, refl, refl, refl) v.known
            (lookup-Known e.deliver w.msgs m n v.known) v)
  ]
