-- ===== src/Worker/Keeps.antt =====
-- Each section under the lock keeps the invariant.
use goxo.Base.{
  ℕ, ◌+◌, ◌-◌, ◌%◌, ◌^◌, ◌<◌, ◌≡◌, refl, ap, sym, subst, ◌∙◌, inl, inr, arith, Bool, true, false,
  Option, none, some, List, [], ◌∷◌, length, nat_Eq, map, Option-cases, Bool-cases,
}
use goxo.Base.Dict.{Dict, lookup, insert, delete, lookup-insert, lookup-delete}
use goxo.Note.{Done}
use goxo.Worker.State.{
  Delivery, Settle, Inflight, Supervisor, reading, reaping, settling, Dispatcher, ready, sending,
  returning, Worker,
}
use goxo.Worker.Messages.{
  shutting_down, set_picked, on_pickup, on_done, on_timeout, new_inflight, register, reclaim,
  stale_settle, reap,
}
use goxo.Worker.Table.{
  IsUnique, total, lookup_above, lookup_below, KeysBelow-mono, KeysBelow-insert, KeysBelow-delete,
  IsUnique-insert, IsUnique-delete, total-insert_new, total-insert_old, total-delete, length-total,
}
use goxo.Worker.Invariant.{
  hit, tally, held, owed_sup, owed_disp, process_of, Quiet, Sent, Ended, Inv,
}

-- What is left when an entry goes: the other entries.
record Removed (id : ℕ) (m : Inflight) (msgs : Dict ℕ Inflight) : Type 0 where
  unique : IsUnique (delete id msgs)
  shorter : length (delete id msgs) + 1 ≡ length msgs
  others : (t : ℕ) → held t (delete id msgs) + hit t m.tag ≡ held t msgs
  found : (k : ℕ) (e : Inflight) → lookup k (delete id msgs) ≡ some e → lookup k msgs ≡ some e

removed :
    (id : ℕ) (m : Inflight) (msgs : Dict ℕ Inflight)
    → IsUnique msgs
    → lookup id msgs ≡ some m
    → Removed id m msgs
removed id m msgs u h = record {
  unique = IsUnique-delete id msgs u;
  shorter = omega (
    arith,
    length-total msgs,
    length-total (delete id msgs),
    total-delete (λ _. 1) id m msgs u h,
  );
  others = λ t. total-delete (λ e. hit t e.tag) id m msgs u h;
  found = λ k e q. ground (arith, lookup-delete k id msgs);
}

Sent-delete :
    (disp : Dispatcher) (n id : ℕ) (msgs : Dict ℕ Inflight)
    → Sent disp n msgs
    → Sent disp n (delete id msgs)
Sent-delete (sending g k d) n id msgs (lt, same) =
    (lt, λ e q. same e (ground (arith, lookup-delete k id msgs)))
Sent-delete ready n id msgs s = tt
Sent-delete (returning x) n id msgs s = tt

Quiet-delete :
    (cur : Option ℕ) (id : ℕ) (msgs : Dict ℕ Inflight) → Quiet cur msgs → Quiet cur (delete id msgs)
Quiet-delete none id msgs e = rw e (unfold delete in refl)
Quiet-delete (some g) id msgs q = tt

-- An entry goes, and its callback is owed elsewhere.
pub taken-Inv :
    (id : ℕ) (m : Inflight) (sup : Supervisor) (disp : Dispatcher) (fired : List Settle)
    {w : Worker}
    → lookup id w.msgs ≡ some m
    → process_of sup ≡ process_of w.sup
    → Ended sup (shutting_down w)
    → Sent disp w.next_id (delete id w.msgs)
    → ((t : ℕ)
        → owed_sup t sup + owed_disp t disp + tally t fired
          ≡ owed_sup t w.sup + owed_disp t w.disp + tally t w.fired + hit t m.tag)
    → Inv w
    → Inv (record w { msgs = delete id w.msgs; sup = sup; disp = disp; fired = fired })
unfolding shutting_down
taken-Inv id m sup disp fired {w} h process ended sent account v =
    let r = removed id m w.msgs v.unique h in
    record {
      unique = r.unique;
      below = KeysBelow-delete w.next_id id w.msgs v.below;
      bounded = omega (arith, r.shorter, v.bounded);
      ids = v.ids;
      live = v.live ∙ sym process;
      quiet = Quiet-delete w.cur id w.msgs v.quiet;
      sent = sent;
      ended = ended;
      conserved = λ t. omega (arith, r.others t, account t, v.conserved t);
    }

pub on_done-Inv : (g : ℕ) (d : Done) {w : Worker} → w.sup ≡ reading g → Inv w → Inv (on_done g d w)
unfolding on_done
on_done-Inv g d {w} e v = elim (Option-cases (lookup d.id w.msgs)) [
  | inl h ↦ rw (h, on_done) v
  | inr (m, h) ↦
      rw (h, on_done)
        (taken-Inv d.id m _ w.disp w.fired h (rw e) tt (Sent-delete w.disp _ d.id _ v.sent)
          (λ t. rw e (omega arith)) v)
]

pub on_timeout-Inv : (id : ℕ) {w : Worker} → Inv w → Inv (on_timeout id w)
unfolding on_timeout
on_timeout-Inv id {w} v = elim (Option-cases (lookup id w.msgs)) [
  | inl h ↦ rw (h, on_timeout) v
  | inr (m, h) ↦ elim (Bool-cases m.timer) [
    | inl armed ↦
        rw (h, on_timeout)
          (rw armed (
            taken-Inv id m w.sup w.disp _ h refl v.ended (Sent-delete w.disp _ id _ v.sent)
              (λ t. omega arith) v))
    | inr unarmed ↦ rw (h, on_timeout) (rw unarmed v)
  ]
]

pub reclaim-Inv :
    (g id : ℕ) (d : Delivery) {w : Worker} → w.disp ≡ sending g id d → Inv w → Inv (reclaim id d w)
unfolding reclaim shutting_down
reclaim-Inv g id d {w} e v = elim (Option-cases (lookup id w.msgs)) [
  | inl h ↦
      rw (h, reclaim)
        (record {
          unique = v.unique;
          below = v.below;
          bounded = v.bounded;
          ids = v.ids;
          live = v.live;
          quiet = v.quiet;
          sent = tt;
          ended = v.ended;
          conserved = λ t. omega (arith, v.conserved t, ap (owed_disp t) e);
        })
  | inr (m, h) ↦
      let same : m.tag ≡ d.tag = (subst (λ x. Sent x w.next_id w.msgs) e v.sent).1 m h in
      rw (h, reclaim)
        (taken-Inv id m w.sup _ w.fired h refl v.ended tt
          (λ t. omega (arith, ap (owed_disp t) e, ap (hit t) same)) v)
]

Sent-insert :
    (disp : Dispatcher) (n id : ℕ) (m : Inflight) (msgs : Dict ℕ Inflight)
    → lookup id msgs ≡ some m
    → Sent disp n msgs
    → Sent disp n (insert id (set_picked m) msgs)
Sent-insert (sending g k d) n id m msgs h (lt, same) =
    (lt, λ e q. ground (arith, lookup-insert k id (set_picked m) msgs, same m, same e))
Sent-insert ready n id m msgs h s = tt
Sent-insert (returning x) n id m msgs h s = tt

Quiet-insert :
    (cur : Option ℕ) (id : ℕ) (m u : Inflight) (msgs : Dict ℕ Inflight)
    → lookup id msgs ≡ some u
    → Quiet cur msgs
    → Quiet cur (insert id m msgs)
unfolding lookup
Quiet-insert none id m u msgs h e = ground arith
Quiet-insert (some g) id m u msgs h q = tt

pub on_pickup-Inv : (id : ℕ) {w : Worker} → Inv w → Inv (on_pickup id w)
unfolding on_pickup shutting_down
on_pickup-Inv id {w} v = elim (Option-cases (lookup id w.msgs)) [
  | inl h ↦ rw (h, on_pickup) v
  | inr (m, h) ↦
      rw (h, on_pickup)
        (record {
          unique = IsUnique-insert id _ w.msgs v.unique;
          below =
              KeysBelow-insert w.next_id id _ w.msgs (lookup_below w.next_id id m w.msgs v.below h)
                v.below;
          bounded = omega (
            arith,
            v.bounded,
            length-total w.msgs,
            length-total (insert id (set_picked m) w.msgs),
            total-insert_old (λ _. 1) id (set_picked m) m w.msgs h,
          );
          ids = v.ids;
          live = v.live;
          ended = v.ended;
          quiet = Quiet-insert w.cur id _ m w.msgs h v.quiet;
          sent = Sent-insert w.disp w.next_id id m w.msgs h v.sent;
          conserved = λ t. omega (
            arith,
            v.conserved t,
            total-insert_old (λ (x : Inflight). hit t x.tag) id (set_picked m) m w.msgs h,
          );
        })
]

tally-stale :
    (t : ℕ) (msgs : Dict ℕ Inflight) → tally t (map (λ e. stale_settle e.1) msgs) ≡ held t msgs
unfolding stale_settle total
tally-stale t [] = refl
tally-stale t ((k, m) ∷ msgs) = omega (arith, tally-stale t msgs)

Sent-nil : (disp : Dispatcher) (n : ℕ) (msgs : Dict ℕ Inflight) → Sent disp n msgs → Sent disp n []
unfolding lookup
Sent-nil (sending g k d) n msgs (lt, same) = (lt, λ e q. cc)
Sent-nil ready n msgs s = tt
Sent-nil (returning x) n msgs s = tt

Ended-settling : (stale : List Settle) (b : Bool) → Ended (settling stale b) b
Ended-settling stale true = refl
Ended-settling stale false = tt

pub reap-Inv : (g : ℕ) {w : Worker} → w.sup ≡ reaping g → Inv w → Inv (reap w)
unfolding reap total shutting_down
reap-Inv g {w} e v = record {
  unique = tt;
  below = tt;
  bounded = omega arith;
  ids = v.ids;
  live = refl;
  quiet = refl;
  sent = Sent-nil w.disp w.next_id w.msgs v.sent;
  ended = Ended-settling (map (λ e. stale_settle e.1) w.msgs) (shutting_down w);
  conserved = λ t. omega (arith, v.conserved t, tally-stale t w.msgs, ap (owed_sup t) e);
}

-- A message is registered: it has an id of its own, and a slot.
pub register-Inv :
    (g : ℕ) (d : Delivery) {w : Worker}
    → w.disp ≡ ready
    → w.cur ≡ some g
    → length w.msgs < w.cap
    → length w.accepted < 2 ^ 64 - 2
    → Inv w
    → Inv (register g d w)
unfolding register shutting_down
register-Inv g d {w} e live room few v =
    let m = new_inflight w.cfg d in
    let new = lookup_above w.next_id w.next_id w.msgs v.below (omega arith) in
    let next : (w.next_id + 1) % 2 ^ 64 ≡ w.next_id + 1 = omega (arith, v.ids) in
    record {
      unique = IsUnique-insert w.next_id m w.msgs v.unique;
      below =
          KeysBelow-insert _ w.next_id m w.msgs (omega (arith, next))
            (KeysBelow-mono w.next_id _ w.msgs (omega (arith, next)) v.below);
      bounded = omega (
        arith,
        length-total w.msgs,
        length-total (insert w.next_id m w.msgs),
        total-insert_new (λ _. 1) w.next_id m w.msgs new,
      );
      ids = omega (arith, next, v.ids);
      live = v.live;
      quiet = subst (λ c. Quiet c (insert w.next_id m w.msgs)) (sym live) tt;
      sent =
          (omega (arith, next), λ x q. ground (arith, lookup-insert w.next_id w.next_id m w.msgs));
      ended = v.ended;
      conserved = λ t. omega (
        arith,
        v.conserved t,
        total-insert_new (λ (x : Inflight). hit t x.tag) w.next_id m w.msgs new,
        ap (owed_disp t) e,
      );
    }
