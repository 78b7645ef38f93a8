-- ===== src/Overlay/Laws.antt =====
-- Which value each knob of the engine gets: the environment's, else the file's, else the default.
use goxo.Base.{
  ◌≡◌, ◌≢◌, refl, ap, subst, ◌∙◌, ◌⊎◌, inl, inr, arith, none, some, List, [], Result, ok, err,
  map_err, Result-cases, if◌then◌else◌, ◌==◌, ==_iff, Bool-cases, >>=-eq-ok, map_err-eq-ok,
}
use goxo.Base.Int.{ℤ, pos}
use goxo.Base.Text.{Str, str_Eq, bytes}
use goxo.Go.Fields.{fields}
use goxo.Go.Decimal.{atoi}
use goxo.Config.{Config, Wire, Yaml, LoadError, read, parse, default, no_wire, load, parse_file}
use goxo.Go.Files.{FileError, not_exist, unreadable}
use goxo.Config.Laws.{Settles, Counts, FromWire, Reads, parse_file_iff}
use goxo.Engine.Assembly.{Params}
use goxo.Overlay.{
  Env, default_path, handler_or, env_or, duration_or, int_or, or_default, load_config, params,
}

-- A text of the environment, or what stands in the file.
abbrev pub TextOr {ℓ} : {A : Type ℓ} → Str → (Str → A) → A → A → Type ℓ
TextOr v read_text other a = ((v ≡ []) × (a ≡ other)) ⊎ ((v ≢ []) × (a ≡ read_text v))

-- A number of the environment, if it is one, or the file's.
abbrev pub NumberOr : Str → ℤ → ℤ → Type 0
NumberOr v n m = (atoi v ≡ some m) ⊎ ((atoi v ≡ none) × Counts n (pos 1) m)

-- A duration of the environment, if it is one, or the file's.
abbrev pub DurationOr : (Str → Result Str ℤ) → Str → Str → ℤ → ℤ → Type 0
DurationOr pd v raw fallback d =
    ((v ≢ []) × (pd v ≡ ok d))
    ⊎ (((v ≡ []) ⊎ ((e : Str) × (pd v ≡ err e))) × Settles pd raw fallback d)

pub record Chosen (pd : Str → Result Str ℤ) (env : Env) (w : Wire) (p : Params) : Type 0 where
  pub handler : TextOr (env (bytes "GOXO_HANDLER")) fields w.handler p.handler
  pub fdset : TextOr (env (bytes "GOXO_FDSET")) (λ s. s) w.fdset p.fdset_path
  pub universe : p.universe ≡ env (bytes "UNIVERSE")
  pub timeout : DurationOr pd (env (bytes "GOXO_HANDLER_TIMEOUT")) w.timeout (pos 0) p.timeout
  pub pool : NumberOr (env (bytes "GOXO_POOL_SIZE")) w.pool p.pool_size
  pub cap : NumberOr (env (bytes "GOXO_WORKER_CAP")) w.cap p.worker_cap
  pub grace :
      DurationOr pd
        (env (bytes "GOXO_SHUTDOWN_GRACE"))
        w.shutdown_grace
        (pos 10000000000)
        p.shutdown_grace

-- The document that applies: that of the file that GOXO_CONFIG names, or else of the default file,
-- which need not be there.
abbrev pub Source : Yaml → Env → (Str → Result FileError Str) → Wire → Type 0
Source y env read_file w =
    ((env (bytes "GOXO_CONFIG") ≡ []) × (read_file default_path ≡ err not_exist) × (w ≡ no_wire))
    ⊎ ((text : Str) × (read_file
            (if env (bytes "GOXO_CONFIG") == [] then default_path else env (bytes "GOXO_CONFIG"))
          ≡ ok text)
        × Reads y text w)

handler_or-TextOr :
    (env : Env) (k : Str) (xs : List Str) → TextOr (env k) fields xs (handler_or env k xs)
unfolding handler_or
handler_or-TextOr env k xs = ground (arith, ==_iff (env k) [])

env_or-TextOr : (env : Env) (k s : Str) → TextOr (env k) (λ v. v) s (env_or env k s)
unfolding env_or
env_or-TextOr env k s = ground (arith, ==_iff (env k) [])

int_or-NumberOr :
    (env : Env) (k : Str) (n m : ℤ) → Counts n (pos 1) m → NumberOr (env k) n (int_or env k m)
unfolding int_or
int_or-NumberOr env k n m h = elim (Bool-cases (env k == [])) [
  | inl e ↦
      let unset : env k ≡ [] = (==_iff (env k) []).0 e in
      inr (ap atoi unset ∙ atoi-nil, rw (e, int_or) h)
  | inr e ↦ rw (e, int_or) (ground arith)
]
  where
    atoi-nil : atoi [] ≡ none
    atoi-nil = unfold atoi in refl

duration_or-DurationOr :
    (pd : Str → Result Str ℤ) (env : Env) (k raw : Str) (fallback d : ℤ)
    → Settles pd raw fallback d
    → DurationOr pd (env k) raw fallback (duration_or pd env k d)
unfolding duration_or
duration_or-DurationOr pd env k raw fallback d h = elim (Bool-cases (env k == [])) [
  | inl e ↦ inr (inl ((==_iff (env k) []).0 e), rw (e, duration_or) h)
  | inr e ↦
      let set : env k ≢ [] = λ q. cc (e, (==_iff (env k) []).1 q) in
      elim (Result-cases (pd (env k))) [
        | inl (x, q) ↦ inl (set, rw (e, duration_or) (rw (q, duration_or) refl))
        | inr (x, q) ↦ inr (inr (x, q), rw (e, duration_or) (rw (q, duration_or) h))
      ]
]

params-Chosen :
    (pd : Str → Result Str ℤ) (env : Env) (w : Wire) (c : Config)
    → FromWire pd w c
    → Chosen pd env w (params pd env c)
unfolding params
params-Chosen pd env w c f = record {
  handler = rw (← f.handler) (handler_or-TextOr env (bytes "GOXO_HANDLER") c.handler);
  fdset = rw (← f.fdset) (env_or-TextOr env (bytes "GOXO_FDSET") c.fdset);
  universe = refl;
  timeout = duration_or-DurationOr pd env _ w.timeout (pos 0) c.handler_timeout f.timeout;
  pool = int_or-NumberOr env _ w.pool c.worker_pool_size f.pool;
  cap = int_or-NumberOr env _ w.cap c.worker_queue_size f.cap;
  grace =
      duration_or-DurationOr pd env _ w.shutdown_grace (pos 10000000000) c.worker_shutdown_grace
        f.grace;
}

default-FromWire : (pd : Str → Result Str ℤ) → FromWire pd no_wire default
default-FromWire pd = record {
  handler = refl;
  fdset = refl;
  timeout = inl (refl, refl);
  pool = inl (refl, refl);
  cap = inl (refl, refl);
  grace = inl (refl, refl);
}

or_default_inv :
    (r : Result LoadError Config) (c : Config)
    → or_default r ≡ ok c
    → (r ≡ ok c) ⊎ ((path : Str) × (r ≡ err (read path not_exist)) × (default ≡ c))
unfolding or_default
or_default_inv (ok c') c h = inl h
or_default_inv (err (read path not_exist)) c h = inr (path, refl, cc h)
or_default_inv (err (read path (unreadable e))) c h = cc
or_default_inv (err (parse path e)) c h = cc

module _ (y : Yaml) (pd : Str → Result Str ℤ) (read_file : Str → Result FileError Str) where
  load_inv :
      (path : Str) (c : Config)
      → load y pd read_file path ≡ ok c
      → (text : Str) × (read_file path ≡ ok text) × (parse_file y pd text ≡ ok c)
  unfolding load
  load_inv path c h =
      let (text, e1, h1) = >>=-eq-ok (map_err (read path) (read_file path)) _ h in
      (text, map_err-eq-ok (read path) _ e1, map_err-eq-ok (parse path) _ h1)

  load_missing :
      (path asked : Str)
      → load y pd read_file path ≡ err (read asked not_exist)
      → read_file path ≡ err not_exist
  unfolding load
  load_missing path asked h = elim (Result-cases (read_file path)) [
    | inr (e, q) ↦ ground (arith, q)
    | inl (text, q) ↦ elim (Result-cases (parse_file y pd text)) [
      | inr (e, q') ↦ ground (arith, q, q')
      | inl (c, q') ↦ ground (arith, q, q')
    ]
  ]

  from_text :
      (env : Env) (path : Str) (c : Config)
      → (if env (bytes "GOXO_CONFIG") == [] then default_path else env (bytes "GOXO_CONFIG")) ≡ path
      → load y pd read_file path ≡ ok c
      → (w : Wire) × Source y env read_file w × FromWire pd w c
  from_text env path c same h =
      let (text, found, parsed) = load_inv path c h in
      let (w, doc, f) = (parse_file_iff y pd text c).0 parsed in
      (w, inr (text, ap read_file same ∙ found, doc), f)

  load_config-Source :
      (env : Env) (c : Config)
      → load_config y pd env read_file ≡ ok c
      → (w : Wire) × Source y env read_file w × FromWire pd w c
  unfolding load_config
  load_config-Source env c h = elim (Bool-cases (env (bytes "GOXO_CONFIG") == [])) [
    | inr e ↦ from_text env (env (bytes "GOXO_CONFIG")) c (rw e) (ground (arith, e, h))
    | inl e ↦ elim (or_default_inv (load y pd read_file default_path) c (ground (arith, e, h))) [
      | inl q ↦ from_text env default_path c (rw e) q
      | inr (path, q, same) ↦ (
        no_wire,
        inl ((==_iff _ []).0 e, load_missing default_path path q, refl),
        subst (FromWire pd no_wire) same (default-FromWire pd),
      )
    ]
  ]

  -- Where the configuration loads, every knob that the engine gets comes from the environment, if the
  -- variable is set and, for a number or a duration, readable; else from the configuration file, if
  -- it has the key; else it is the default: one process, one message, no timeout, 10 seconds of
  -- grace, no handler, no descriptor set. The file is the one that GOXO_CONFIG names, which must be
  -- there, or /goxo.yaml, which need not.
  pub params-load_config :
      (env : Env) (c : Config)
      → load_config y pd env read_file ≡ ok c
      → (w : Wire) × Source y env read_file w × Chosen pd env w (params pd env c)
  params-load_config env c h =
      let (w, source, f) = load_config-Source env c h in (w, source, params-Chosen pd env w c f)
