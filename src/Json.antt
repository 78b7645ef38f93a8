-- ===== src/Json.antt =====
-- The values of Go's `any` that the program handles: what encoding/json and yaml.v3 decode, and raw
-- bytes. `Fields` is `map[string]any`.
use goxo.Base.{ℕ, Bool, Option, none, some, List, [], ◌∷◌, ◌==◌, if◌then◌else◌}
use goxo.Base.Int.{ℤ}
use goxo.Base.Text.{Str, str_Eq}

mutual
  pub data Value : Type 0 where
    null : Value
    bool : Bool → Value
    int : ℤ → Value
    float : ℕ → Value  -- the 64 bits of a float64
    str : Str → Value
    bin : Str → Value  -- []byte
    arr : Items → Value
    obj : Fields → Value

  pub data Items : Type 0 where
    nil : Items
    cons : Value → Items → Items

  pub data Fields : Type 0 where
    end : Fields
    field : Str → Value → Fields → Fields

-- `v, ok := dict[k]`
unfoldable pub get : Fields → Str → Option Value
get end k = none
get (field j v d) k = if j == k then some v else get d k

abbrev pub items : List Value → Items
items [] = nil
items (v ∷ vs) = cons v (items vs)
