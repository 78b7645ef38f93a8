-- ===== src/Config.antt =====
-- internal/config/config.go: the engine's own configuration file. yaml.v3 is the parameter `Yaml`,
-- time.ParseDuration the parameter `parse_duration`, and the file system is `read_file`.
pub mod Laws
use goxo.Base.{
  ℕ, ◌*◌, ◌^◌, Bool, true, false, Option, none, some, List, [], ◌∷◌, Result, ok, err, ◌>>=◌,
  map_err, if◌then◌else◌, ◌==◌,
}
use goxo.Base.Int.{ℤ, pos, int_Eq}
use goxo.Base.Text.{Str, str_Eq, bytes}
use goxo.Go.Fields.{fields}
use goxo.Go.Files.{FileError}

-- Durations are in nanoseconds.
pub record Config : Type 0 where
  pub handler : List Str
  pub fdset : Str
  pub handler_timeout : ℤ
  pub worker_pool_size : ℤ
  pub worker_queue_size : ℤ
  pub worker_shutdown_grace : ℤ

-- Default
abbrev pub default : Config
default = record {
  handler = [];
  fdset = [];
  handler_timeout = pos 0;
  worker_pool_size = pos 1;
  worker_queue_size = pos 1;
  worker_shutdown_grace = pos (10 * 10 ^ 9);
}

pub record Wire : Type 0 where
  pub handler : List Str
  pub fdset : Str
  pub timeout : Str
  pub pool : ℤ
  pub cap : ℤ
  pub shutdown_grace : Str

-- The zero value, which decoding an empty document leaves.
abbrev pub no_wire : Wire
no_wire = record {
  handler = [];
  fdset = [];
  timeout = [];
  pool = pos 0;
  cap = pos 0;
  shutdown_grace = [];
}

pub data DecodeError : Type 0 where
  eof : DecodeError
  failed : Str → DecodeError

-- What the package calls of yaml.v3. `decode` is the Decode of a decoder with KnownFields; it decodes
-- the handler's node by the function that it is given.
pub record Yaml : Type 1 where
  pub Node : Type 0
  pub is_scalar : Node → Bool
  pub to_text : Node → Result Str Str
  pub to_texts : Node → Result Str (List Str)
  pub decode : (Node → Result Str (List Str)) → Str → Result DecodeError Wire

pub data ParseError : Type 0 where
  yaml : Str → ParseError
  timeout : Str → ParseError
  shutdown_grace : Str → ParseError

pub data LoadError : Type 0 where
  read : (path : Str) (e : FileError) → LoadError
  parse : (path : Str) (e : ParseError) → LoadError

-- command.UnmarshalYAML
unfoldable pub unmarshal_command : (y : Yaml) → y.Node → Result Str (List Str)
unmarshal_command y n = if y.is_scalar n then (do s ← y.to_text n; ok (fields s)) else y.to_texts n

-- The decoding at the head of Parse: an empty document is no error.
unfoldable pub decode_wire : Yaml → Str → Result ParseError Wire
unfolding unmarshal_command
decode_wire y text = elim (y.decode (unmarshal_command y) text) [
  | ok w ↦ ok w
  | err eof ↦ ok no_wire
  | err (failed e) ↦ err (yaml e)
]

unfoldable pub duration_or : (Str → Result Str ℤ) → Str → ℤ → Result Str ℤ
duration_or parse_duration raw fallback = if raw == [] then ok fallback else parse_duration raw

-- `len(xs) > 0`
abbrev pub non_empty_or {ℓ} : {A : Type ℓ} → List A → List A → List A
non_empty_or [] other = other
non_empty_or (x ∷ xs) other = x ∷ xs

-- The fields of Parse that are not durations, over `c`.
unfoldable pub overlay : Wire → Config → Config
overlay w c = record c {
  handler = non_empty_or w.handler c.handler;
  fdset = if w.fdset == [] then c.fdset else w.fdset;
  worker_pool_size = if w.pool == pos 0 then c.worker_pool_size else w.pool;
  worker_queue_size = if w.cap == pos 0 then c.worker_queue_size else w.cap;
}

-- Parse behind the decoding.
unfoldable pub settle_wire : (Str → Result Str ℤ) → Wire → Result ParseError Config
unfolding overlay duration_or
settle_wire parse_duration w = do
  let c = overlay w default
  t ← map_err ParseError.timeout (duration_or parse_duration w.timeout c.handler_timeout)
  g ←
      map_err ParseError.shutdown_grace
        (duration_or parse_duration w.shutdown_grace c.worker_shutdown_grace)
  ok (record c { handler_timeout = t; worker_shutdown_grace = g })

module _ (y : Yaml) (parse_duration : Str → Result Str ℤ) where
  unfoldable pub parse_file : Str → Result ParseError Config
  unfolding decode_wire settle_wire
  parse_file text = do w ← decode_wire y text; settle_wire parse_duration w

  unfoldable pub load : (Str → Result FileError Str) → Str → Result LoadError Config
  load read_file path = do
    text ← map_err (read path) (read_file path)
    map_err (parse path) (parse_file text)
