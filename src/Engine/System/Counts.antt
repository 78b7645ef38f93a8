-- ===== src/Engine/System/Counts.antt =====
-- How often a message stands in what the system records, and sums over the workers.
use goxo.Base.{
  ℕ, zero, suc, ◌+◌, ◌≤◌, ◌≡◌, refl, ap, arith, some, List, [], ◌∷◌, ◌++◌, map, get_elem?,
}
use goxo.Bus.Transport
use goxo.Bus.Transport.{Call, settle_call}
use goxo.Engine.Handling.{settlement_of}
use goxo.Engine.System.{Consumer, choosing, placing, System}
use goxo.Worker.State.{Outcome, Settle, Worker}
use goxo.Worker.Pool.{set}
use goxo.Worker.Invariant.{hit, tally}

-- The calls that settle the message with tag `t`.
abbrev pub settles_one : ℕ → Call → ℕ
settles_one t (Transport.ack tag multiple) = hit t tag
settles_one t (Transport.nack tag multiple requeue) = hit t tag
settles_one t _ = 0

abbrev pub settles : ℕ → List Call → ℕ
settles t [] = 0
settles t (c ∷ cs) = settles_one t c + settles t cs

-- The message in the consumer's hands.
abbrev pub in_hand : ℕ → Consumer → ℕ
in_hand t (choosing best load next d) = hit t d.tag
in_hand t (placing i d) = hit t d.tag
in_hand t _ = 0

abbrev pub hands : Consumer → ℕ
hands (choosing best load next d) = 1
hands (placing i d) = 1
hands _ = 0

abbrev pub sum_of : (Worker → ℕ) → List Worker → ℕ
sum_of f [] = 0
sum_of f (w ∷ ws) = f w + sum_of f ws

-- The call that a worker's callback makes on the AMQP channel.
abbrev pub wire_call : Settle → Call
wire_call s = settle_call s.tag (settlement_of s.outcome)

abbrev pub worker_calls : List Worker → List Call
worker_calls [] = []
worker_calls (w ∷ ws) = map wire_call w.calls ++ worker_calls ws

-- Every settlement that was called on the AMQP channel: the consumer's own, and those of the workers.
abbrev pub amqp_calls : System → List Call
amqp_calls s = s.dropped ++ worker_calls s.serving.workers

settles-append : (t : ℕ) (xs ys : List Call) → settles t (xs ++ ys) ≡ settles t xs + settles t ys
settles-append t [] ys = omega arith
settles-append t (x ∷ xs) ys = omega (arith, settles-append t xs ys)

wire_call_lem : (t : ℕ) (s : Settle) → settles_one t (wire_call s) ≡ hit t s.tag
unfolding settle_call settlement_of
wire_call_lem t s = outcome s.outcome
  where
    outcome : (o : Outcome) → settles_one t (settle_call s.tag (settlement_of o)) ≡ hit t s.tag
    outcome Outcome.ack = refl
    outcome Outcome.nack = refl
    outcome Outcome.requeue = refl

settles-wire_call : (t : ℕ) (l : List Settle) → settles t (map wire_call l) ≡ tally t l
settles-wire_call t [] = refl
settles-wire_call t (s ∷ l) = omega (arith, wire_call_lem t s, settles-wire_call t l)

settles-worker_calls :
    (t : ℕ) (ws : List Worker) → settles t (worker_calls ws) ≡ sum_of (λ w. tally t w.calls) ws
settles-worker_calls t [] = refl
settles-worker_calls t (w ∷ ws) = omega (
  arith,
  settles-append t (map wire_call w.calls) (worker_calls ws),
  settles-wire_call t w.calls,
  settles-worker_calls t ws,
)

pub settles-amqp_calls :
    (t : ℕ) (s : System)
    → settles t (amqp_calls s)
      ≡ settles t s.dropped + sum_of (λ w. tally t w.calls) s.serving.workers
settles-amqp_calls t s = omega (
  arith,
  settles-append t s.dropped (worker_calls s.serving.workers),
  settles-worker_calls t s.serving.workers,
)

-- One worker of the list changes.
pub sum_of-set :
    (f : Worker → ℕ) (ws : List Worker) (i : ℕ) (g : Worker → Worker) (w : Worker)
    → get_elem? ws i ≡ some w
    → sum_of f (set ws i g) + f w ≡ sum_of f ws + f (g w)
sum_of-set f [] i g w e = absurd (cc e)
sum_of-set f (x ∷ ws) zero g w e =
    let same : x ≡ w = cc e in omega (arith, ap f same, ap (λ y. f (g y)) same)
sum_of-set f (x ∷ ws) (suc i) g w e = omega (arith, sum_of-set f ws i g w e)

pub sum_of-set_same :
    (f : Worker → ℕ) (ws : List Worker) (i : ℕ) (g : Worker → Worker)
    → ((w : Worker) → f (g w) ≡ f w)
    → sum_of f (set ws i g) ≡ sum_of f ws
sum_of-set_same f [] i g h = refl
sum_of-set_same f (x ∷ ws) zero g h = omega (arith, h x)
sum_of-set_same f (x ∷ ws) (suc i) g h = omega (arith, sum_of-set_same f ws i g h)

-- A sum of equals over the workers that are there.
pub sum_of-eq :
    (f g : Worker → ℕ) (ws : List Worker)
    → ((j : ℕ) (w : Worker) → get_elem? ws j ≡ some w → f w ≡ g w)
    → sum_of f ws ≡ sum_of g ws
sum_of-eq f g [] h = refl
sum_of-eq f g (x ∷ ws) h = omega (arith, h 0 x refl, sum_of-eq f g ws (λ j w e. h (suc j) w e))

pub sum_of-add :
    (f g : Worker → ℕ) (ws : List Worker) → sum_of (λ w. f w + g w) ws ≡ sum_of f ws + sum_of g ws
sum_of-add f g [] = refl
sum_of-add f g (x ∷ ws) = omega (arith, sum_of-add f g ws)

pub le-sum_of :
    (f : Worker → ℕ) (ws : List Worker) (j : ℕ) (w : Worker)
    → get_elem? ws j ≡ some w
    → f w ≤ sum_of f ws
le-sum_of f [] j w e = absurd (cc e)
le-sum_of f (x ∷ ws) zero w e = let same : x ≡ w = cc e in omega (arith, ap f same)
le-sum_of f (x ∷ ws) (suc j) w e = omega (arith, le-sum_of f ws j w e)
