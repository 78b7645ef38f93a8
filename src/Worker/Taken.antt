-- ===== src/Worker/Taken.antt =====
-- The sections under the lock requeue no message that was picked up.
pub mod Steps
use goxo.Base.{
  ℕ, ◌≡◌, ◌≢◌, refl, ap, sym, subst, ◌∙◌, inl, inr, arith, Bool, List, nat_Eq, Option-cases,
  Bool-cases,
}
use goxo.Base.Dict.{lookup, delete}
use goxo.Note.{Done}
use goxo.Worker.State.{
  Delivery, requeue, Settle, Supervisor, reading, answering, settling, Dispatcher, sending,
  returning, Worker,
}
use goxo.Worker.Messages.{
  register, reclaim, on_done, on_pickup, on_timeout, reap, pick, settle_stale, call_fired, call,
  set_picked, new_inflight, outcome_of,
}
use goxo.Worker.Picked.{
  requeue_of, requeues, requeues-pick, requeues-stale, AllPicked, AllPicked-insert,
  AllPicked-delete, requeues_sup, Leaves, Taken,
}

-- The entries stay, or go one by one.
pub delete-Taken :
    (t id : ℕ) (sup : Supervisor) (disp : Dispatcher) (fired : List Settle) (w : Worker)
    → requeues_sup t sup ≡ 0
    → Leaves t disp
    → requeues t fired ≡ 0
    → Taken t w
    → Taken t (record w { msgs = delete id w.msgs; sup = sup; disp = disp; fired = fired })
delete-Taken t id sup disp fired w a b c v = record {
  picked = AllPicked-delete t id w.msgs v.picked;
  sup = a;
  disp = b;
  fired = c;
  calls = v.calls;
}

-- The supervisor goes to a turn that requeues nothing of the message.
pub resume :
    (t : ℕ) (w w' : Worker)
    → w'.msgs ≡ w.msgs
    → w'.disp ≡ w.disp
    → w'.fired ≡ w.fired
    → w'.calls ≡ w.calls
    → requeues_sup t w'.sup ≡ 0
    → Taken t w
    → Taken t w'
resume t w w' m d f c s v = record {
  picked = subst (AllPicked t) (sym m) v.picked;
  sup = s;
  disp = subst (Leaves t) (sym d) v.disp;
  fired = ap (requeues t) f ∙ v.fired;
  calls = ap (requeues t) c ∙ v.calls;
}

pub on_done-Taken :
    (t g : ℕ) (d : Done) (w : Worker) → w.sup ≡ reading g → Taken t w → Taken t (on_done g d w)
unfolding on_done
on_done-Taken t g d w q v = elim (Option-cases (lookup d.id w.msgs)) [
  | inl h ↦ rw (h, on_done) v
  | inr (m, h) ↦
      rw (h, on_done)
        (delete-Taken t d.id (answering g (record { tag = m.tag; outcome = outcome_of d })) w.disp
          w.fired w (no_requeue m.tag) v.disp v.fired v)
]
  where
    no_requeue : (tag : ℕ) → requeue_of t tag (outcome_of d) ≡ 0
    no_requeue tag = unfold outcome_of in ground arith

pub on_pickup-Taken : (t id : ℕ) (w : Worker) → Taken t w → Taken t (on_pickup id w)
unfolding on_pickup
on_pickup-Taken t id w v = elim (Option-cases (lookup id w.msgs)) [
  | inl h ↦ rw (h, on_pickup) v
  | inr (m, h) ↦
      rw (h, on_pickup)
        (record {
          picked = AllPicked-insert t id (set_picked m) w.msgs (λ _. refl) v.picked;
          sup = v.sup;
          disp = v.disp;
          fired = v.fired;
          calls = v.calls;
        })
]

pub on_timeout-Taken : (t id : ℕ) (w : Worker) → Taken t w → Taken t (on_timeout id w)
unfolding on_timeout
on_timeout-Taken t id w v = elim (Option-cases (lookup id w.msgs)) [
  | inl h ↦ rw (h, on_timeout) v
  | inr (m, h) ↦ elim (Bool-cases m.timer) [
    | inr off ↦ rw (h, on_timeout) (rw off v)
    | inl on ↦
        rw (h, on_timeout)
          (rw on (delete-Taken t id w.sup w.disp _ w v.sup v.disp (omega (arith, v.fired)) v))
  ]
]

pub reclaim-Taken :
    (t g id : ℕ) (d : Delivery) (w : Worker)
    → w.disp ≡ sending g id d
    → Taken t w
    → Taken t (reclaim id d w)
unfolding reclaim
reclaim-Taken t g id d w q v =
    let other : d.tag ≢ t = subst (Leaves t) q v.disp in
    elim (Option-cases (lookup id w.msgs)) [
      | inl h ↦
          rw (h, reclaim)
            (record { picked = v.picked; sup = v.sup; disp = tt; fired = v.fired; calls = v.calls })
      | inr (m, h) ↦
          rw (h, reclaim)
            (delete-Taken t id w.sup (returning (record { tag = d.tag; outcome = requeue })) w.fired
              w v.sup (ground (arith, other)) v.fired v)
    ]

pub register-Taken :
    (t g : ℕ) (d : Delivery) (w : Worker) → d.tag ≢ t → Taken t w → Taken t (register g d w)
unfolding register
register-Taken t g d w other v = record {
  picked =
      AllPicked-insert t w.next_id (new_inflight w.cfg d) w.msgs (λ e. absurd (other e)) v.picked;
  sup = v.sup;
  disp = other;
  fired = v.fired;
  calls = v.calls;
}

pub reap-Taken : (t : ℕ) (w : Worker) → Taken t w → Taken t (reap w)
unfolding reap
reap-Taken t w v = record {
  picked = tt;
  sup = requeues-stale t w.msgs v.picked;
  disp = v.disp;
  fired = v.fired;
  calls = v.calls;
}

pub settle_stale-Taken :
    (t n : ℕ) (stale : List Settle) (last : Bool) (w : Worker)
    → w.sup ≡ settling stale last
    → Taken t w
    → Taken t (settle_stale n stale last w)
unfolding settle_stale call
settle_stale-Taken t n stale last w q v = elim (Option-cases (pick n stale)) [
  | inl h ↦ rw (h, settle_stale) v
  | inr ((s, rest), h) ↦
      let none_left = ap (requeues_sup t) (sym q) ∙ v.sup in
      rw (h, settle_stale)
        (record {
          picked = v.picked;
          sup = omega (arith, requeues-pick t n stale s rest h, none_left);
          disp = v.disp;
          fired = v.fired;
          calls = omega (arith, requeues-pick t n stale s rest h, none_left, v.calls);
        })
]

pub call_fired-Taken : (t n : ℕ) (w : Worker) → Taken t w → Taken t (call_fired n w)
unfolding call_fired call
call_fired-Taken t n w v = elim (Option-cases (pick n w.fired)) [
  | inl h ↦ rw (h, call_fired) v
  | inr ((s, rest), h) ↦
      rw (h, call_fired)
        (record {
          picked = v.picked;
          sup = v.sup;
          disp = v.disp;
          fired = omega (arith, requeues-pick t n w.fired s rest h, v.fired);
          calls = omega (arith, requeues-pick t n w.fired s rest h, v.fired, v.calls);
        })
]
