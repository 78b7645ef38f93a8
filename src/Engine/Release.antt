-- ===== src/Engine/Release.antt =====
-- Run closes what it opens, in reverse order, and says when it ends without an error.
use goxo.Base.{
  ◌≡◌, ◌≢◌, refl, ap, subst, sym, ◌∙◌, ◌⊎◌, ◌↔◌, inl, inr, arith, Option, none, some, List, [], ◌∷◌,
  ◌++◌, Result, ok, err, Result-cases, ◌==◌, ==_iff, Bool-cases, Option-cases,
}
use mathlib.Core.List.{append_assoc, append-nil}
use goxo.Base.Text.{Str, str_Eq}
use goxo.Manifest.{Manifest}
use goxo.Settings.{Settings}
use goxo.Bus.Transport
use goxo.Bus.Transport.{ConsumeEnd, cancelled, channel_closed, consume_failed, connect, consume}
use goxo.Engine.Assembly.{Params, in_selectors, bus_config, worker_config}
use goxo.Engine.Running.{
  CodecLoadError, Resource, bus, health, signals, pool, Event, opened, closed, consuming, RunError,
  Exit, returned, running, consume_exit, deferring, World, consume_inputs, serve, open_bus, run,
  no_name, no_handler, no_descriptors,
}
use goxo.Health.{health_addr}

-- The events close just what is open, `held`, the last opened first.
abbrev pub Shuts : List Event → List Resource → Type 0
Shuts [] [] = Unit
Shuts [] (r ∷ held) = ⊥
Shuts (closed r ∷ es) [] = ⊥
Shuts (closed r ∷ es) (r' ∷ held) = (r ≡ r') × Shuts es held
Shuts (opened r ∷ es) held = ⊥
Shuts (consuming d ∷ es) held = ⊥

-- The events open what they need, consume or not, and then close just what they opened and what was
-- open before them, `held`: nothing is opened or consumed once something is closed.
abbrev pub Closes : List Event → List Resource → Type 0
Closes [] held = Shuts [] held
Closes (opened r ∷ es) held = Closes es (r ∷ held)
Closes (closed r ∷ es) held = Shuts (closed r ∷ es) held
Closes (consuming d ∷ es) held = Closes es held

Shuts-Closes : (es : List Event) (held : List Resource) → Shuts es held → Closes es held
Shuts-Closes [] held h = h
Shuts-Closes (opened r ∷ es) held h = absurd h
Shuts-Closes (closed r ∷ es) held h = h
Shuts-Closes (consuming d ∷ es) held h = absurd h

-- Events that leave open what was open.
abbrev Even : List Event → Type 0
Even es = (rest : List Event) (held : List Resource) → Shuts rest held → Closes (es ++ rest) held

abbrev EvenAt : List Event × Exit → Type 0
EvenAt (es, returned e) = Even es
EvenAt (es, running) = Unit

deferring-EvenAt : (r : Resource) (x : List Event × Exit) → EvenAt x → EvenAt (deferring r x)
unfolding deferring
deferring-EvenAt r (es, running) h = tt
deferring-EvenAt r (es, returned e) h = λ rest held after.
    subst (λ l. Closes l (r ∷ held)) (sym (append_assoc es (closed r ∷ []) rest))
      (h (closed r ∷ rest) (r ∷ held) (refl, after))

consume_exit-EvenAt :
    (d : List Transport.Dispatched) (o : Option ConsumeEnd)
    → EvenAt (consuming d ∷ [], consume_exit o)
unfolding consume_exit
consume_exit-EvenAt d none = tt
consume_exit-EvenAt d (some cancelled) = λ rest held after. Shuts-Closes rest held after
consume_exit-EvenAt d (some channel_closed) = λ rest held after. Shuts-Closes rest held after
consume_exit-EvenAt d (some (consume_failed e)) = λ rest held after. Shuts-Closes rest held after

consume_inputs-EvenAt :
    (world : World) (m : Manifest) (s : Settings) (p : Params) → EvenAt (consume_inputs world m s p)
unfolding consume_inputs
consume_inputs-EvenAt world m s p = selectors (in_selectors s m) refl
  where
    selectors : (l : List Str) → in_selectors s m ≡ l → EvenAt (consume_inputs world m s p)
    selectors [] e = rw (e, consume_inputs) (λ rest held after. Shuts-Closes rest held after)
    selectors (x ∷ xs) e =
        rw (e, consume_inputs)
          (consume_exit-EvenAt
            (consume world.answer (bus_config m s p) world.handle world.arriving).0
            (consume world.answer (bus_config m s p) world.handle world.arriving).1)

serve-EvenAt :
    (world : World) (m : Manifest) (s : Settings) (p : Params) → EvenAt (serve world m s p)
unfolding serve
serve-EvenAt world m s p = elim (Option-cases (world.listen (health_addr s))) [
  | inr (e, h) ↦ rw (h, serve) (λ rest held after. Shuts-Closes rest held after)
  | inl h ↦
      rw (h, serve)
        (deferring-EvenAt _ _
          (deferring-EvenAt _ _ (deferring-EvenAt _ _ (consume_inputs-EvenAt world m s p))))
]

open_bus-EvenAt :
    (world : World) (m : Manifest) (s : Settings) (p : Params) → EvenAt (open_bus world m s p)
unfolding open_bus
open_bus-EvenAt world m s p = elim (Option-cases (connect world.answer (bus_config m s p)).1) [
  | inr ((call, e), h) ↦ rw (h, open_bus) (λ rest held after. Shuts-Closes rest held after)
  | inl h ↦ rw (h, open_bus) (deferring-EvenAt bus _ (serve-EvenAt world m s p))
]

Nil-cases : (xs : List Str) → (xs ≡ []) ⊎ ((y : Str) × (ys : List Str) × (xs ≡ y ∷ ys))
Nil-cases [] = inl refl
Nil-cases (y ∷ ys) = inr (y, ys, refl)

-- Run refuses what it is given, with nothing opened, or goes on to the bus.
run_cases :
    {C : Type 0} (world : World) (loaded : Result CodecLoadError C) (m : Manifest) (s : Settings)
    (p : Params)
    → ((e : RunError) × (run world loaded m s p ≡ ([], returned (some e))))
      ⊎ (run world loaded m s p ≡ open_bus world m s p)
unfolding run
run_cases world loaded m s p = elim (Bool-cases (m.name == [])) [
  | inl e ↦ inl (no_name, rw (e, run))
  | inr e ↦ elim (Nil-cases p.handler) [
    | inl h ↦ inl (no_handler, rw (e, run) (rw (h, run)))
    | inr (x, xs, h) ↦ elim (Bool-cases (p.fdset_path == [])) [
      | inl f ↦ inl (no_descriptors, rw (e, run) (rw (h, run) (rw (f, run))))
      | inr f ↦ elim (Result-cases loaded) [
        | inr (c, l) ↦ inl (RunError.codec c, rw (e, run) (rw (h, run) (rw (f, run) (rw (l, run)))))
        | inl (c, l) ↦ elim (Result-cases (worker_config world.unmarshal m s p)) [
          | inr (a, g) ↦
              inl (
                RunError.args a,
                rw (e, run) (rw (h, run) (rw (f, run) (rw (l, run) (rw (g, run))))),
              )
          | inl (a, g) ↦ inr (ground (arith, e, h, f, l, g))
        ]
      ]
    ]
  ]
]

run-EvenAt :
    {C : Type 0} (world : World) (loaded : Result CodecLoadError C) (m : Manifest) (s : Settings)
    (p : Params)
    → EvenAt (run world loaded m s p)
run-EvenAt world loaded m s p = elim (run_cases world loaded m s p) [
  | inl (e, h) ↦ rw h (λ rest held after. Shuts-Closes rest held after)
  | inr h ↦ rw h (open_bus-EvenAt world m s p)
]

abbrev pub closings : List Event → List Resource
closings [] = []
closings (closed r ∷ es) = r ∷ closings es
closings (opened r ∷ es) = closings es
closings (consuming d ∷ es) = closings es

closings-append : (xs ys : List Event) → closings (xs ++ ys) ≡ closings xs ++ closings ys
closings-append [] ys = refl
closings-append (closed r ∷ xs) ys = ap (◌∷◌ r) (closings-append xs ys)
closings-append (opened r ∷ xs) ys = closings-append xs ys
closings-append (consuming d ∷ xs) ys = closings-append xs ys

-- What was closed is what stands last of `l`.
abbrev Last : List Resource → List Event × Exit → Type 0
Last l (es, running) = Unit
Last l (es, returned e) = (before : List Resource) × (l ≡ before ++ closings es)

deferring-Last :
    (r : Resource) (l : List Resource) (x : List Event × Exit)
    → Last l x
    → Last (l ++ (r ∷ [])) (deferring r x)
unfolding deferring
deferring-Last r l (es, running) h = tt
deferring-Last r l (es, returned e) (before, h) = (
  before,
  ap (λ y. y ++ (r ∷ [])) h
      ∙ append_assoc before (closings es) (r ∷ [])
      ∙ ap (λ y. before ++ y) (sym (closings-append es (closed r ∷ []))),
)

-- Nothing is closed.
none-Last : (l : List Resource) (e : Option RunError) → Last l ([], returned e)
none-Last l e = (l, sym (append-nil l))

consume_inputs-Last :
    (world : World) (m : Manifest) (s : Settings) (p : Params)
    → Last [] (consume_inputs world m s p)
unfolding consume_inputs consume_exit
consume_inputs-Last world m s p = elim (Nil-cases (in_selectors s m)) [
  | inl e ↦ rw (e, consume_inputs) ([], refl)
  | inr (x, xs, e) ↦
      rw (e, consume_inputs)
        (ended (consume world.answer (bus_config m s p) world.handle world.arriving).0
          (consume world.answer (bus_config m s p) world.handle world.arriving).1)
]
  where
    ended :
        (d : List Transport.Dispatched) (o : Option ConsumeEnd)
        → Last [] (consuming d ∷ [], consume_exit o)
    ended d none = tt
    ended d (some cancelled) = ([], refl)
    ended d (some channel_closed) = ([], refl)
    ended d (some (consume_failed e)) = ([], refl)

serve-Last :
    (world : World) (m : Manifest) (s : Settings) (p : Params)
    → Last (pool p.shutdown_grace ∷ signals ∷ health (health_addr s) ∷ []) (serve world m s p)
unfolding serve
serve-Last world m s p = elim (Option-cases (world.listen (health_addr s))) [
  | inr (e, h) ↦ rw (h, serve) (none-Last _ (some (RunError.listening e)))
  | inl h ↦
      rw (h, serve)
        (deferring-Last (health (health_addr s)) _ _ (
          deferring-Last signals _ _
            (deferring-Last (pool p.shutdown_grace) _ _ (consume_inputs-Last world m s p))))
]

open_bus-Last :
    (world : World) (m : Manifest) (s : Settings) (p : Params)
    → Last
        (pool p.shutdown_grace ∷ signals ∷ health (health_addr s) ∷ bus ∷ [])
        (open_bus world m s p)
unfolding open_bus
open_bus-Last world m s p = elim (Option-cases (connect world.answer (bus_config m s p)).1) [
  | inr ((call, e), h) ↦ rw (h, open_bus) (none-Last _ (some (RunError.connecting call e)))
  | inl h ↦ rw (h, open_bus) (deferring-Last bus _ _ (serve-Last world m s p))
]

run-Last :
    {C : Type 0} (world : World) (loaded : Result CodecLoadError C) (m : Manifest) (s : Settings)
    (p : Params)
    → Last
        (pool p.shutdown_grace ∷ signals ∷ health (health_addr s) ∷ bus ∷ [])
        (run world loaded m s p)
run-Last world loaded m s p = elim (run_cases world loaded m s p) [
  | inl (e, h) ↦ rw h (none-Last _ (some e))
  | inr h ↦ rw h (open_bus-Last world m s p)
]

-- However Run returns, it has closed everything that it opened, once, and in reverse order, and it
-- opens and consumes nothing once it has closed something. The order is the pool before the signals,
-- these before the healthcheck, and the bus last: what it closed is the whole of that list, or what
-- is left of it behind those that it never opened.
pub run-Closes :
    {C : Type 0} (world : World) (loaded : Result CodecLoadError C) (m : Manifest) (s : Settings)
    (p : Params) (events : List Event) (e : Option RunError)
    → run world loaded m s p ≡ (events, returned e)
    → Closes events []
      × ((before : List Resource) × ((pool p.shutdown_grace
              ∷ signals
              ∷ health (health_addr s)
              ∷ bus
              ∷ [])
            ≡ before ++ closings events))
run-Closes world loaded m s p events e h = (
  subst (λ l. Closes l []) (append-nil events)
      (subst EvenAt h (run-EvenAt world loaded m s p) [] [] tt),
  subst (Last (pool p.shutdown_grace ∷ signals ∷ health (health_addr s) ∷ bus ∷ [])) h
      (run-Last world loaded m s p),
)

abbrev pub IsOk {ℓ} : {E : Type 0} {A : Type ℓ} → Result E A → Type 0
IsOk (ok a) = Unit
IsOk (err e) = ⊥

deferring_exit : (r : Resource) (x : List Event × Exit) → (deferring r x).1 ≡ x.1
unfolding deferring
deferring_exit r (es, running) = refl
deferring_exit r (es, returned e) = refl

-- Everything that Run needs is there: a name, a handler, a descriptor set that loads, arguments that
-- decode, a bus that connects and an address to listen on.
pub record SetUp {C : Type 0} (world : World) (loaded : Result CodecLoadError C) (m : Manifest)
    (s : Settings) (p : Params) : Type 0 where
  pub name : m.name ≢ []
  pub handler : p.handler ≢ []
  pub descriptors : p.fdset_path ≢ []
  pub codec : IsOk loaded
  pub args : IsOk (worker_config world.unmarshal m s p)
  pub bus : (connect world.answer (bus_config m s p)).1 ≡ none
  pub health : world.listen (health_addr s) ≡ none

serve_clean :
    (world : World) (m : Manifest) (s : Settings) (p : Params)
    → ((serve world m s p).1 ≡ returned none)
      ↔ ((world.listen (health_addr s) ≡ none) × ((consume_inputs world m s p).1 ≡ returned none))
unfolding serve
serve_clean world m s p = ground (
  arith,
  deferring_exit (health (health_addr s))
      (deferring signals (deferring (pool p.shutdown_grace) (consume_inputs world m s p))),
  deferring_exit signals (deferring (pool p.shutdown_grace) (consume_inputs world m s p)),
  deferring_exit (pool p.shutdown_grace) (consume_inputs world m s p),
)

consume_inputs_clean :
    (world : World) (m : Manifest) (s : Settings) (p : Params)
    → ((consume_inputs world m s p).1 ≡ returned none) ↔ (
        (in_selectors s m ≡ [])
        ⊎ ((in_selectors s m ≢ [])
            × ((consume world.answer (bus_config m s p) world.handle world.arriving).1
                ≡ some cancelled)))
unfolding consume_inputs consume_exit
consume_inputs_clean world m s p = ground arith

open_bus_clean :
    (world : World) (m : Manifest) (s : Settings) (p : Params)
    → ((open_bus world m s p).1 ≡ returned none) ↔ (
        ((connect world.answer (bus_config m s p)).1 ≡ none)
        × ((serve world m s p).1 ≡ returned none))
unfolding open_bus
open_bus_clean world m s p = ground (arith, deferring_exit bus (serve world m s p))

checks_clean :
    {C : Type 0} (world : World) (loaded : Result CodecLoadError C) (m : Manifest) (s : Settings)
    (p : Params)
    → ((run world loaded m s p).1 ≡ returned none) ↔ (
        (m.name ≢ [])
        × (p.handler ≢ [])
        × (p.fdset_path ≢ [])
        × IsOk loaded
        × IsOk (worker_config world.unmarshal m s p)
        × ((open_bus world m s p).1 ≡ returned none))
unfolding run
checks_clean world loaded m s p = ground (arith, ==_iff m.name [], ==_iff p.fdset_path [])

-- Run returns without an error exactly when all that it needs is there and then the agent has no
-- input selectors, or the consumer was ended by the cancelled context.
pub run_clean_iff :
    {C : Type 0} (world : World) (loaded : Result CodecLoadError C) (m : Manifest) (s : Settings)
    (p : Params)
    → ((run world loaded m s p).1 ≡ returned none) ↔ (
        SetUp world loaded m s p
        × ((in_selectors s m ≡ [])
            ⊎ ((in_selectors s m ≢ [])
                × ((consume world.answer (bus_config m s p) world.handle world.arriving).1
                    ≡ some cancelled))))
run_clean_iff world loaded m s p = (
  λ h.
      let (name, handler, descriptors, codec, args, on_bus) =
        (checks_clean world loaded m s p).0 h in
      let (connected, served) = (open_bus_clean world m s p).0 on_bus in
      let (listens, consumed) = (serve_clean world m s p).0 served in
      (
        record {
          name = name;
          handler = handler;
          descriptors = descriptors;
          codec = codec;
          args = args;
          bus = connected;
          health = listens;
        },
        (consume_inputs_clean world m s p).0 consumed,
      ),
  λ (up, ended). (checks_clean world loaded m s p).1 (
    up.name,
    up.handler,
    up.descriptors,
    up.codec,
    up.args,
    (open_bus_clean world m s p).1 (
      up.bus,
      (serve_clean world m s p).1 (up.health, (consume_inputs_clean world m s p).1 ended),
    ),
  ),
)
