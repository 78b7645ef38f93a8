-- ===== src/Config/Laws.antt =====
-- Parse field by field, and when it fails.
use goxo.Base.{
  ◌≡◌, ◌≢◌, refl, ap, subst, ◌⊎◌, ◌↔◌, arith, List, [], ◌∷◌, Result, ok, err, map_err,
  if◌then◌else◌, ◌==◌, ==_iff, >>=-eq-ok, map_err-eq-ok,
}
use goxo.Base.Int.{ℤ, pos, int_Eq}
use goxo.Base.Text.{Str, str_Eq}
use goxo.Config.{
  Config, Wire, Yaml, eof, ParseError, default, no_wire, non_empty_or, duration_or, overlay,
  settle_wire, unmarshal_command, decode_wire, parse_file,
}

-- The duration that a text of the file stands for; the empty text stands for none.
abbrev pub Settles : (Str → Result Str ℤ) → Str → ℤ → ℤ → Type 0
Settles parse_duration raw fallback d =
    ((raw ≡ []) × (d ≡ fallback)) ⊎ ((raw ≢ []) × (parse_duration raw ≡ ok d))

-- A number of the file; 0 stands for none.
abbrev pub Counts : ℤ → ℤ → ℤ → Type 0
Counts n fallback m = ((n ≡ pos 0) × (m ≡ fallback)) ⊎ ((n ≢ pos 0) × (m ≡ n))

-- The configuration that a file's document stands for.
pub record FromWire (parse_duration : Str → Result Str ℤ) (w : Wire) (c : Config) : Type 0 where
  pub handler : c.handler ≡ w.handler
  pub fdset : c.fdset ≡ w.fdset
  pub timeout : Settles parse_duration w.timeout (pos 0) c.handler_timeout
  pub pool : Counts w.pool (pos 1) c.worker_pool_size
  pub cap : Counts w.cap (pos 1) c.worker_queue_size
  pub grace : Settles parse_duration w.shutdown_grace (pos 10000000000) c.worker_shutdown_grace

-- The document of a file; that of an empty file has nothing in it.
abbrev pub Reads : Yaml → Str → Wire → Type 0
Reads y text w =
    (y.decode (unmarshal_command y) text ≡ ok w)
    ⊎ ((y.decode (unmarshal_command y) text ≡ err eof) × (w ≡ no_wire))

duration_or_iff :
    (pd : Str → Result Str ℤ) (raw : Str) (fallback d : ℤ)
    → (duration_or pd raw fallback ≡ ok d) ↔ Settles pd raw fallback d
unfolding duration_or
duration_or_iff pd raw fallback d = ground (arith, ==_iff raw [])

count_iff : (n fallback m : ℤ) → ((if n == pos 0 then fallback else n) ≡ m) ↔ Counts n fallback m
count_iff n fallback m = ground (arith, ==_iff n (pos 0))

decode_wire_iff : (y : Yaml) (text : Str) (w : Wire) → (decode_wire y text ≡ ok w) ↔ Reads y text w
unfolding decode_wire
decode_wire_iff y text w = ground arith

non_empty_or-nil : (xs : List Str) → non_empty_or xs [] ≡ xs
non_empty_or-nil [] = refl
non_empty_or-nil (x ∷ xs) = refl

non_empty_text : (s : Str) → (if s == [] then [] else s) ≡ s
non_empty_text [] = refl
non_empty_text (b ∷ s) = refl

settle_wire_inv :
    (pd : Str → Result Str ℤ) (w : Wire) (c : Config)
    → settle_wire pd w ≡ ok c
    → (t : ℤ) × (g : ℤ) × (duration_or pd w.timeout (pos 0) ≡ ok t)
      × (duration_or pd w.shutdown_grace (pos 10000000000) ≡ ok g)
      × (record (overlay w default) { handler_timeout = t; worker_shutdown_grace = g } ≡ c)
unfolding settle_wire
settle_wire_inv pd w c h =
    let (t, e1, h1) =
      >>=-eq-ok (map_err ParseError.timeout (duration_or pd w.timeout (pos 0))) _ h in
    let (g, e2, h2) =
      >>=-eq-ok
        (map_err ParseError.shutdown_grace (duration_or pd w.shutdown_grace (pos 10000000000))) _
        h1 in
    (
      t,
      g,
      map_err-eq-ok ParseError.timeout _ e1,
      map_err-eq-ok ParseError.shutdown_grace _ e2,
      cc h2,
    )

wire-FromWire :
    (pd : Str → Result Str ℤ) (w : Wire) (t g : ℤ)
    → Settles pd w.timeout (pos 0) t
    → Settles pd w.shutdown_grace (pos 10000000000) g
    → FromWire pd w (record (overlay w default) { handler_timeout = t; worker_shutdown_grace = g })
unfolding overlay
wire-FromWire pd w t g st sg = record {
  handler = non_empty_or-nil w.handler;
  fdset = non_empty_text w.fdset;
  timeout = st;
  pool = (count_iff w.pool (pos 1) _).0 refl;
  cap = (count_iff w.cap (pos 1) _).0 refl;
  grace = sg;
}

FromWire-eq :
    (pd : Str → Result Str ℤ) (w : Wire) (c : Config)
    → FromWire pd w c
    → record (overlay w default) {
      handler_timeout = c.handler_timeout;
      worker_shutdown_grace = c.worker_shutdown_grace;
    }
      ≡ c
unfolding overlay
FromWire-eq pd w c f = ground (
  arith,
  non_empty_or-nil w.handler,
  non_empty_text w.fdset,
  f.handler,
  f.fdset,
  (count_iff w.pool (pos 1) c.worker_pool_size).1 f.pool,
  (count_iff w.cap (pos 1) c.worker_queue_size).1 f.cap,
)

settle_wire_iff :
    (pd : Str → Result Str ℤ) (w : Wire) (c : Config) → (settle_wire pd w ≡ ok c) ↔ FromWire pd w c
unfolding settle_wire
settle_wire_iff pd w c = (
  λ h.
      let (t, g, et, eg, same) = settle_wire_inv pd w c h in
      subst (FromWire pd w) same (
        wire-FromWire pd w t g ((duration_or_iff pd w.timeout (pos 0) t).0 et)
          ((duration_or_iff pd w.shutdown_grace (pos 10000000000) g).0 eg)),
  λ f. rw ((duration_or_iff pd w.timeout (pos 0) c.handler_timeout).1 f.timeout) (
      rw ((duration_or_iff pd w.shutdown_grace (pos 10000000000) c.worker_shutdown_grace).1 f.grace)
        (ap ok (FromWire-eq pd w c f))),
)

-- Parse returns a configuration exactly where the text decodes, an empty text being an empty
-- document, and the configuration is the document's, field by field: handler and descriptor set are
-- those of the document; a size is the document's, or 1 for 0; a duration is the parse of the
-- document's text, or, where that text is empty, no timeout and a grace of 10 seconds. Any other text
-- is an error, so that a malformed duration is never passed over.
pub parse_file_iff :
    (y : Yaml) (parse_duration : Str → Result Str ℤ) (text : Str) (c : Config)
    → (parse_file y parse_duration text ≡ ok c)
      ↔ ((w : Wire) × Reads y text w × FromWire parse_duration w c)
unfolding parse_file
parse_file_iff y pd text c = (
  λ h.
      let (w, read, rest) = >>=-eq-ok (decode_wire y text) (λ w. settle_wire pd w) h in
      (w, (decode_wire_iff y text w).0 read, (settle_wire_iff pd w c).0 rest),
  λ found.
      let (w, read, f) = found in
      rw ((decode_wire_iff y text w).1 read) ((settle_wire_iff pd w c).1 f),
)
