-- ===== src/Worker/Invariant.antt =====
-- What holds of a worker between two actions.
use goxo.Base.{
  ℕ, ◌+◌, ◌≤◌, ◌<◌, ◌≡◌, Bool, true, nat_Eq, nat_eq, if◌then◌else◌, Option, none, some, List, [],
  ◌∷◌, length,
}
use goxo.Base.Dict.{Dict, lookup}
use goxo.Worker.State.{
  Settle, Inflight, Supervisor, reading, publishing, answering, reaping, settling, finished,
  Dispatcher, sending, returning, Worker,
}
use goxo.Worker.Messages.{shutting_down}
use goxo.Worker.Table.{IsUnique, KeysBelow, total}

-- How often a message's tag stands in a list of tags, or of callbacks.
abbrev pub hit : ℕ → ℕ → ℕ
hit t s = if nat_eq s t then 1 else 0

abbrev pub times : ℕ → List ℕ → ℕ
times t [] = 0
times t (s ∷ l) = hit t s + times t l

abbrev pub tally : ℕ → List Settle → ℕ
tally t [] = 0
tally t (s ∷ l) = hit t s.tag + tally t l

abbrev pub held : ℕ → Dict ℕ Inflight → ℕ
held t = total (λ m. hit t m.tag)

-- Callbacks that the supervisor owes.
abbrev pub owed_sup : ℕ → Supervisor → ℕ
owed_sup t (answering g s) = hit t s.tag
owed_sup t (settling stale last) = tally t stale
owed_sup t _ = 0

abbrev pub owed_disp : ℕ → Dispatcher → ℕ
owed_disp t (returning s) = hit t s.tag
owed_disp t _ = 0

-- The process that the supervisor looks after.
abbrev pub process_of : Supervisor → Option ℕ
process_of (reading g) = some g
process_of (publishing g chain e) = some g
process_of (answering g s) = some g
process_of (reaping g) = some g
process_of _ = none

-- With no process there is no message in flight.
abbrev pub Quiet : Option ℕ → Dict ℕ Inflight → Type 0
Quiet none m = m ≡ []
Quiet (some g) m = Unit

-- A message that Dispatch is sending has an id that was given out, and if its entry is still there,
-- it is the entry of this message.
abbrev pub Sent : Dispatcher → ℕ → Dict ℕ Inflight → Type 0
Sent (sending g id d) n m = (id < n) × ((e : Inflight) → lookup id m ≡ some e → e.tag ≡ d.tag)
Sent _ n m = Unit

-- A supervisor that has ended, or is about to, does so because the worker shuts down.
abbrev pub Ended : Supervisor → Bool → Type 0
Ended (settling stale true) b = b ≡ true
Ended finished b = b ≡ true
Ended _ b = Unit

abbrev pub owing : ℕ → Worker → ℕ
owing t w = held t w.msgs + owed_sup t w.sup + owed_disp t w.disp + tally t w.fired

pub record Inv (w : Worker) : Type 0 where
  pub unique : IsUnique w.msgs
  pub below : KeysBelow w.next_id w.msgs
  pub bounded : length w.msgs ≤ w.cap
  pub ids : w.next_id ≡ length w.accepted + 1
  pub live : w.cur ≡ process_of w.sup
  pub quiet : Quiet w.cur w.msgs
  pub sent : Sent w.disp w.next_id w.msgs
  pub ended : Ended w.sup (shutting_down w)
  pub conserved : (t : ℕ) → times t w.accepted ≡ owing t w + tally t w.calls
