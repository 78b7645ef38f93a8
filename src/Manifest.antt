-- ===== src/Manifest.antt =====
-- internal/manifest/manifest.go: the agent definition, and its wire form once the YAML is decoded.
use goxo.Base.{List, map, map_err, Result, ok, ◌>>=◌}
use goxo.Base.Text.{Str, bytes}
use goxo.Go.Files.{FileError}
use goxo.Json.{Value}

pub record Arg : Type 0 where
  pub name : Str
  pub value : Value

pub record Manifest : Type 0 where
  pub name : Str
  pub in_selectors : List Str
  pub out_selectors : List Str
  pub args : List Arg

pub record WireArg : Type 0 where
  pub name : Str
  pub value : Value

pub record Wire : Type 0 where
  pub name : Str
  pub in_selectors : List Str
  pub out_selectors : List Str
  pub args : List WireArg

-- Parse; `unmarshal` is yaml.Unmarshal into a Wire.
unfoldable pub parse : (Str → Result Str Wire) → Str → Result Str Manifest
parse unmarshal text = do
  w ← unmarshal text
  ok (record {
    name = w.name;
    in_selectors = w.in_selectors;
    out_selectors = w.out_selectors;
    args = map (λ (a : WireArg). record { name = a.name; value = a.value }) w.args;
  })

pub data LoadError : Type 0 where
  read : (path : Str) (e : FileError) → LoadError
  parsing : Str → LoadError

-- DefaultPath
abbrev pub default_path : Str
default_path = bytes "/tmp/ostorlab.yaml"

unfoldable pub load :
    (Str → Result Str Wire) → (Str → Result FileError Str) → Str → Result LoadError Manifest
unfolding parse
load unmarshal read_file path = do
  text ← map_err (read path) (read_file path)
  map_err parsing (parse unmarshal text)
