-- ===== src/Engine/Assembly.antt =====
-- internal/engine/config.go: the bus and worker configurations from manifest, settings and Params.
use goxo.Base.{Option, none, some, List, [], ◌∷◌, Result, ok, err, ◌>>=◌}
use goxo.Base.Int.{ℤ, pos, mul_int}
use goxo.Base.Dict.{Dict, insert}
use goxo.Base.Text.{Str, str_Eq}
use goxo.Json.{Value, Fields, end, field}
use goxo.Settings
use goxo.Settings.{Settings, decode_arg}
use goxo.Manifest
use goxo.Manifest.{Manifest}
use goxo.Bus.Transport
use goxo.Worker.State

-- Protocol
abbrev pub protocol_version : ℤ
protocol_version = pos 2

-- Durations are in nanoseconds.
pub record Params : Type 0 where
  pub handler : List Str
  pub fdset_path : Str
  pub universe : Str
  pub timeout : ℤ
  pub pool_size : ℤ
  pub worker_cap : ℤ
  pub shutdown_grace : ℤ

unfoldable pub in_selectors : Settings → Manifest → List Str
in_selectors s m = elim s.in_selectors [ [] ↦ m.in_selectors | x ∷ xs ↦ x ∷ xs ]

unfoldable pub bus_config : Manifest → Settings → Params → Transport.Config
unfolding in_selectors
bus_config m s p = record {
  url = s.bus_url;
  exchange = s.bus_exchange_topic;
  agent = m.name;
  service = s.service_name;
  inputs = in_selectors s m;
  prefetch = mul_int p.pool_size p.worker_cap;
}

-- `fmt.Errorf("engine: decode arg %q: %w", a.Name, err)`
pub data ArgError : Type 0 where
  decode_failed : (name error : Str) → ArgError

unfoldable pub dict_fields : Dict Str Value → Fields
dict_fields [] = end
dict_fields ((k, v) ∷ m) = field k v (dict_fields m)

-- The merged arguments as the handler's config. The nil map is `end`: the merge returns no other
-- empty map.
unfoldable pub fields_of : Option (Dict Str Value) → Fields
unfolding dict_fields
fields_of none = end
fields_of (some m) = dict_fields m

-- for _, d := range defs { out[d.Name] = d.Value }
unfoldable pub put_defaults : List Manifest.Arg → Dict Str Value → Dict Str Value
put_defaults [] out = out
put_defaults (d ∷ defs) out = put_defaults defs (insert d.name d.value out)

module _ (unmarshal : Str → Result Str Value) where
  -- The loop over the settings arguments, which ends at the first that does not decode.
  unfoldable pub put_settings :
      List Settings.Arg → Dict Str Value → Result ArgError (Dict Str Value)
  put_settings [] out = ok out
  put_settings (a ∷ over) out = elim (decode_arg unmarshal a) [
    | err e ↦ err (decode_failed a.name e)
    | ok v ↦ put_settings over (insert a.name v out)
  ]

  -- `none` is the nil map.
  unfoldable pub merge_args :
      List Manifest.Arg → List Settings.Arg → Result ArgError (Option (Dict Str Value))
  unfolding put_defaults put_settings
  merge_args [] [] = ok none
  merge_args (d ∷ defs) over = do
    out ← put_settings over (put_defaults (d ∷ defs) [])
    ok (some out)
  merge_args [] (a ∷ over) = do out ← put_settings (a ∷ over) []; ok (some out)

-- workerConfig
unfoldable pub worker_config :
    (Str → Result Str Value) → Manifest → Settings → Params → Result ArgError State.Config
unfolding in_selectors fields_of
worker_config unmarshal m s p = do
  cfg ← merge_args unmarshal m.args s.args
  ok (record {
    command = p.handler;
    env = [];
    identity = record { agent = m.name; key = s.key; universe = p.universe };
    config = fields_of cfg;
    inputs = in_selectors s m;
    outputs = m.out_selectors;
    protocol = protocol_version;
    timeout = p.timeout;
  })
