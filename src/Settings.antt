-- ===== src/Settings.antt =====
-- internal/settings/settings.go. The protobuf library is the parameter `Proto`, json.Unmarshal the
-- parameter `unmarshal`.
pub mod Parsing
use goxo.Base.{
  ℕ, ◌%◌, ◌^◌, Bool, true, false, Option, none, some, List, map, Result, ok, err, ◌>>=◌, ◌==◌,
  map_err, if◌then◌else◌,
}
use goxo.Base.Text.{Str, str_Eq, bytes}
use goxo.Json.{Value, bin}
use goxo.Go.Files.{FileError}

pub record Arg : Type 0 where
  pub name : Str
  pub type : Str
  pub value : Str

pub record Settings : Type 0 where
  pub key : Str
  pub bus_url : Str
  pub bus_exchange_topic : Str
  pub args : List Arg
  pub redis_url : Str
  pub healthcheck_host : Str
  pub healthcheck_port : ℕ
  pub cyclic_processing_limit : ℕ
  pub depth_processing_limit : ℕ
  pub accepted_agents : List Str
  pub in_selectors : List Str
  pub service_name : Str

unfoldable pub decode_arg : (Str → Result Str Value) → Arg → Result Str Value
decode_arg unmarshal a = if a.type == bytes "binary" then ok (bin a.value) else unmarshal a.value

-- What the package calls of the protobuf library. A read of a field that is not set gives its zero
-- value. `find` is `none` for a descriptor that is not a message. `unmarshal` gets the descriptor as
-- the interface value that it is, which may be nil.
pub record Proto : Type 1 where
  pub FileSet : Type 0
  pub Files : Type 0
  pub MessageDescriptor : Type 0
  pub Message : Type 0
  pub parse_set : Str → Result Str FileSet
  pub new_files : FileSet → Result Str Files
  pub find : Files → Str → Result Str (Option MessageDescriptor)
  pub unmarshal : Option MessageDescriptor → Str → Result Str Message
  pub text : Message → Str → Str
  pub uint : Message → Str → ℕ
  pub texts : Message → Str → List Str
  pub raw : Message → Str → Str
  pub messages : Message → Str → List Message

pub data SettingsError : Type 0 where
  parse_set build_files resolve parse_proto : Str → SettingsError
  not_a_message : SettingsError

pub data LoadError : Type 0 where
  read : (path : Str) (e : FileError) → LoadError
  parsing : SettingsError → LoadError

-- DefaultPath
abbrev pub default_path : Str
default_path = bytes "/tmp/settings.binproto"

abbrev pub settings_message : Str
settings_message = bytes "ostorlab.runtimes.proto.AgentInstanceSettings"

module _ (p : Proto) where
  open p use {MessageDescriptor, Message}

  -- descOnce (has it run?), descMD and descErr. A variable that is nil is `none`.
  pub record Once : Type 0 where
    pub done : Bool
    pub desc_md : Option MessageDescriptor
    pub desc_err : Option SettingsError

  abbrev pub fresh_once : Once
  fresh_once = record { done = false; desc_md = none; desc_err = none }

  -- The function that messageDescriptor runs once, on the embedded descriptor set: what each of its
  -- returns leaves in the variables.
  unfoldable pub resolve_descriptor : Str → Once → Once
  resolve_descriptor fdset once = elim (p.parse_set fdset) [
    | err e ↦ record once { desc_err = some (parse_set e) }
    | ok set ↦ elim (p.new_files set) [
      | err e ↦ record once { desc_err = some (build_files e) }
      | ok files ↦ elim (p.find files settings_message) [
        | err e ↦ record once { desc_err = some (resolve e) }
        | ok none ↦ record once { desc_err = some not_a_message }
        | ok (some md) ↦ record once { desc_md = some md; desc_err = none }
      ]
    ]
  ]

  -- messageDescriptor: what it leaves in the variables. It returns desc_md and desc_err of these.
  unfoldable pub message_descriptor : Str → Once → Once
  unfolding resolve_descriptor
  message_descriptor fdset once =
      if once.done then once else record (resolve_descriptor fdset once) { done = true }

  unfoldable pub get_string : Message → Str → Str
  get_string m name = p.text m name

  unfoldable pub get_bytes : Message → Str → Str
  get_bytes m name = p.raw m name

  -- A nil slice is the empty list.
  unfoldable pub get_strings : Message → Str → List Str
  get_strings m name = p.texts m name

  -- `uint32(…)`
  unfoldable pub get_uint32 : Message → Str → ℕ
  get_uint32 m name = p.uint m name % 2 ^ 32

  unfoldable pub arg_of : Message → Arg
  unfolding get_string get_bytes
  arg_of m = record {
    name = get_string m (bytes "name");
    type = get_string m (bytes "type");
    value = get_bytes m (bytes "value");
  }

  -- getArgs
  unfoldable pub get_args : Message → List Arg
  unfolding arg_of
  get_args m = map arg_of (p.messages m (bytes "args"))

  unfoldable pub settings_of : Message → Settings
  unfolding get_string get_strings get_uint32 get_args
  settings_of m = record {
    key = get_string m (bytes "key");
    bus_url = get_string m (bytes "bus_url");
    bus_exchange_topic = get_string m (bytes "bus_exchange_topic");
    args = get_args m;
    redis_url = get_string m (bytes "redis_url");
    healthcheck_host = get_string m (bytes "healthcheck_host");
    healthcheck_port = get_uint32 m (bytes "healthcheck_port");
    cyclic_processing_limit = get_uint32 m (bytes "cyclic_processing_limit");
    depth_processing_limit = get_uint32 m (bytes "depth_processing_limit");
    accepted_agents = get_strings m (bytes "accepted_agents");
    in_selectors = get_strings m (bytes "in_selectors");
    service_name = get_string m (bytes "service_name");
  }

  -- Parse, with the state of the descriptor variables.
  unfoldable pub parse : Str → Str → Once → Once × Result SettingsError Settings
  unfolding message_descriptor settings_of
  parse fdset text once =
      let once' = message_descriptor fdset once in
      (
        once',
        elim once'.desc_err [
          | some e ↦ err e
          | none ↦ do
            msg ← map_err parse_proto (p.unmarshal once'.desc_md text)
            ok (settings_of msg)
        ],
      )

  -- Load, with the state of the descriptor variables.
  unfoldable pub load :
      Str → (Str → Result FileError Str) → Str → Once → Once × Result LoadError Settings
  unfolding parse
  load fdset read_file path once = elim (read_file path) [
    | err e ↦ (once, err (read path e))
    | ok text ↦ let (once', s) = parse fdset text once in (once', map_err parsing s)
  ]
