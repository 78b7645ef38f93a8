-- ===== src/Bus/Setup.antt =====
-- Connect and setup: the calls that are made, in which order, and what is released on an error.
use goxo.Base.{
  ◌≡◌, refl, sym, ap, ◌∙◌, ◌⊎◌, inl, inr, Option, none, some, List, [], ◌∷◌, ◌++◌, All,
  Option-cases,
}
use mathlib.Core.List.{append_assoc}
use goxo.Base.Text.{Str}
use goxo.Bus.Transport.{
  Config, Call, dial, open_channel, close_channel, close_connection, in_turn, setup, setup_calls,
  connect, set_up,
}

-- Either every call was made and answered, or the calls stop at the first that failed.
abbrev pub InTurn : (Call → Option Str) → List Call → List Call × Option (Call × Str) → Type 0
InTurn answer calls r =
    ((r ≡ (calls, none)) × All (λ c. answer c ≡ none) calls)
    ⊎ ((front : List Call) × (back : List Call) × (c : Call) × (e : Str) × (calls
          ≡ front ++ (c ∷ back))
        × All (λ c. answer c ≡ none) front
        × (answer c ≡ some e)
        × (r ≡ (front ++ (c ∷ []), some (c, e))))

in_turn-InTurn :
    (answer : Call → Option Str) (calls : List Call) → InTurn answer calls (in_turn answer calls)
unfolding in_turn
in_turn-InTurn answer [] = inl (refl, tt)
in_turn-InTurn answer (c ∷ cs) = elim (Option-cases (answer c)) [
  | inr (e, h) ↦ inr ([], cs, c, e, refl, tt, h, rw (h, in_turn))
  | inl h ↦ elim (in_turn-InTurn answer cs) [
    | inl (r, all) ↦ inl (rw (h, in_turn) (rw r), (h, all))
    | inr (front, back, x, e, split, all, failed, r) ↦
        inr (c ∷ front, back, x, e, ap (◌∷◌ c) split, (h, all), failed, rw (h, in_turn) (rw r))
  ]
]

-- Set-up declares the exchange, then the queue, sets the prefetch window and binds every input
-- selector, in this order. It makes all these calls if each succeeds; otherwise it stops at the first
-- that fails, and reports it.
pub setup-InTurn :
    (answer : Call → Option Str) (cfg : Config) → InTurn answer (setup_calls cfg) (setup answer cfg)
unfolding setup
setup-InTurn answer cfg = in_turn-InTurn answer (setup_calls cfg)

connect_opened :
    (answer : Call → Option Str) (cfg : Config) {r : List Call × Option (Call × Str)}
    → answer (dial cfg.url) ≡ none
    → answer open_channel ≡ none
    → setup answer cfg ≡ r
    → connect answer cfg ≡ (dial cfg.url ∷ open_channel ∷ (set_up answer r).0, (set_up answer r).1)
unfolding connect
connect_opened answer cfg dialled opened e =
    rw (dialled, connect)
      (rw opened
        (ap (λ r. (dial cfg.url ∷ open_channel ∷ (set_up answer r).0, (set_up answer r).1)) e))

connect_unopened :
    (answer : Call → Option Str) (cfg : Config) {e : Str}
    → answer (dial cfg.url) ≡ none
    → answer open_channel ≡ some e
    → connect answer cfg
      ≡ (dial cfg.url ∷ open_channel ∷ close_connection ∷ [], some (open_channel, e))
unfolding connect
connect_unopened answer cfg dialled refused = rw (dialled, connect) (rw refused)

-- A connection that was dialled and then not returned is closed: when Connect fails after the dial,
-- its last call closes the connection; when it succeeds, its calls are the dial, the channel and
-- those of set-up, all answered.
pub connect_releases :
    (answer : Call → Option Str) (cfg : Config)
    → answer (dial cfg.url) ≡ none
    → (((connect answer cfg).1 ≡ none)
        × ((connect answer cfg).0 ≡ dial cfg.url ∷ open_channel ∷ setup_calls cfg)
        × (answer open_channel ≡ none)
        × All (λ c. answer c ≡ none) (setup_calls cfg))
      ⊎ ((made : List Call) × (x : Call × Str) × ((connect answer cfg).1 ≡ some x)
          × ((connect answer cfg).0 ≡ made ++ (close_connection ∷ [])))
unfolding connect
connect_releases answer cfg dialled = elim (Option-cases (answer open_channel)) [
  | inr (e, h) ↦
      let whole = connect_unopened answer cfg dialled h in
      inr (
        dial cfg.url ∷ open_channel ∷ [],
        (open_channel, e),
        ap (λ r. r.1) whole,
        ap (λ r. r.0) whole,
      )
  | inl h ↦ elim (setup-InTurn answer cfg) [
    | inl (r, all) ↦
        let whole = connect_opened answer cfg dialled h r in
        inl (ap (λ r. r.1) whole, ap (λ r. r.0) whole, h, all)
    | inr (front, back, c, e, split, all, failed, r) ↦
        let whole = connect_opened answer cfg dialled h r in
        inr (
          dial cfg.url ∷ open_channel ∷ ((front ++ (c ∷ [])) ++ (close_channel ∷ [])),
          (c, e),
          ap (λ r. r.1) whole,
          ap (λ r. r.0) whole
              ∙ ap (λ l. dial cfg.url ∷ open_channel ∷ l)
                  (sym (append_assoc (front ++ (c ∷ [])) (close_channel ∷ []) _)),
        )
  ]
]
