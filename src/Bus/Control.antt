-- ===== src/Bus/Control.antt =====
-- internal/bus/control.go: the control envelope. `Coder` is what the package needs of the codec;
-- `Base64` stands for encoding/base64.
use goxo.Base.{Option, some, List, [], ◌∷◌, map, Result, ok, ◌>>=◌, map_err}
use goxo.Base.Text.{Str, bytes}
use goxo.Json.{Value, str, arr, obj, Items, nil, cons, Fields, end, field, get, items}

pub record Coder (E : Type 0) : Type 0 where
  pub encode : Str → Fields → Result E Str
  pub decode : Str → Str → Result E Fields

pub record Base64 : Type 0 where
  pub encode_to_string : Str → Str
  pub decode_string : Str → Result Str Str

pub data BusError (E : Type 0) : Type 0 where
  wrap_control : E → BusError E
  unwrap_control : E → BusError E
  decode_inner : Str → BusError E
  encode_data : E → BusError E
  generate_id : Str → BusError E
  publish_failed : Str → BusError E

abbrev pub control_selector : Str
control_selector = bytes "v3.control"

-- The dict that wrapControl hands to the codec.
unfoldable pub control_dict : Base64 → List Str → Str → Fields
control_dict b agents inner =
    field (bytes "control") (obj (field (bytes "agents") (arr (items (map str agents))) end))
      (field (bytes "message") (str (b.encode_to_string inner)) end)

-- `if s, ok := a.(string); ok { agents = append(agents, s) }`
unfoldable pub strings : Items → List Str
strings nil = []
strings (cons (str s) vs) = s ∷ strings vs
strings (cons _ vs) = strings vs

-- `control["agents"].([]any)`
unfoldable pub agents_of : Option Value → List Str
unfolding strings
agents_of (some (arr raw)) = strings raw
agents_of _ = []

-- `dict["control"].(map[string]any)`
unfoldable pub agents_of_control : Option Value → List Str
unfolding agents_of get
agents_of_control (some (obj control)) = agents_of (get control (bytes "agents"))
agents_of_control _ = []

unfoldable pub agents_from_dict : Fields → List Str
unfolding agents_of_control get
agents_from_dict dict = agents_of_control (get dict (bytes "control"))

module _ {E : Type 0} (b : Base64) (c : Coder E) where
  unfoldable pub wrap : List Str → Str → Result (BusError E) Str
  unfolding control_dict
  wrap agents inner = map_err wrap_control (c.encode control_selector (control_dict b agents inner))

  unfoldable pub inner_of : Option Value → Result (BusError E) Str
  inner_of (some (str s)) = map_err decode_inner (b.decode_string s)
  inner_of _ = ok []

  unfoldable pub inner_from_dict : Fields → Result (BusError E) Str
  unfolding inner_of get
  inner_from_dict dict = inner_of (get dict (bytes "message"))

  unfoldable pub unwrap : Str → Result (BusError E) (List Str × Str)
  unfolding agents_from_dict inner_from_dict
  unwrap body = do
    dict ← map_err unwrap_control (c.decode control_selector body)
    inner ← inner_from_dict dict
    ok (agents_from_dict dict, inner)
