-- ===== src/Codec.antt =====
-- internal/codec/registry.go and codec.go: selectors resolve to message descriptors, and a dict goes
-- to wire bytes and back. google.golang.org/protobuf and encoding/json are the parameter `Protobuf`.
pub mod Laws
use goxo.Base.{
  ℕ, Bool, true, false, Option, none, some, List, [], ◌∷◌, ◌++◌, Result, ok, err, ◌>>=◌, map_err,
}
use goxo.Base.Text.{Str, bytes}
use goxo.Json.{Fields}

-- protojson.MarshalOptions, as far as the codec sets them.
pub record MarshalOptions : Type 0 where
  pub use_proto_names : Bool
  pub emit_unpopulated : Bool

-- What the codec calls. `find` looks a full name up among the files; `none` is a descriptor that is
-- not a message.
pub record Protobuf : Type 1 where
  pub FileSet : Type 0
  pub Files : Type 0
  pub MessageDescriptor : Type 0
  pub Message : Type 0
  pub parse_set : Str → Result Str FileSet
  pub new_files : FileSet → Result Str Files
  pub find : Files → Str → Result Str (Option MessageDescriptor)
  pub unmarshal : MessageDescriptor → Str → Result Str Message
  pub marshal : Message → Result Str Str
  pub to_json : Files → MarshalOptions → Message → Result Str Str
  pub from_json : Files → MessageDescriptor → Str → Result Str Message
  pub dict_of_json : Str → Result Str Fields
  pub json_of_dict : Fields → Result Str Str

pub data CodecError : Type 0 where
  parse_descriptors build_files resolve decode marshal_json json_to_dict : Str → CodecError
  dict_to_json unmarshal_json encode : Str → CodecError
  not_a_message : CodecError

abbrev pub oxo_proto_package : Str
oxo_proto_package = bytes "ostorlab.agent.message.proto"

abbrev pub message_name : Str
message_name = bytes "Message"

-- oxoProtoPackage + "." + selector + "." + messageName
unfoldable pub full_name : Str → Str
full_name selector = oxo_proto_package ++ (bytes "." ++ (selector ++ (bytes "." ++ message_name)))

module _ (p : Protobuf) where
  open p use {Files, MessageDescriptor}

  pub record Registry : Type 0 where
    pub files : Files

  pub record Codec : Type 0 where
    pub reg : Registry
    pub options : MarshalOptions

  unfoldable pub new_registry : Str → Result CodecError Registry
  new_registry fdset = do
    set ← map_err parse_descriptors (p.parse_set fdset)
    files ← map_err build_files (p.new_files set)
    ok (record { files = files })

  -- Registry.Message
  unfoldable pub message : Registry → Str → Result CodecError MessageDescriptor
  message r selector = do
    d ← map_err resolve (p.find r.files (full_name selector))
    elim d [ some md ↦ ok md | none ↦ err not_a_message ]

  unfoldable pub has : Registry → Str → Bool
  has r selector = elim (message r selector) [ ok _ ↦ true | err _ ↦ false ]

  unfoldable pub new : Registry → Codec
  new reg = record {
    reg = reg;
    options = record { use_proto_names = true; emit_unpopulated = false };
  }

  unfoldable pub decode_wire : Codec → Str → Str → Result CodecError Fields
  decode_wire c selector wire = do
    md ← message c.reg selector
    msg ← map_err decode (p.unmarshal md wire)
    js ← map_err marshal_json (p.to_json c.reg.files c.options msg)
    map_err json_to_dict (p.dict_of_json js)

  unfoldable pub encode_dict : Codec → Str → Fields → Result CodecError Str
  encode_dict c selector dict = do
    md ← message c.reg selector
    js ← map_err dict_to_json (p.json_of_dict dict)
    msg ← map_err unmarshal_json (p.from_json c.reg.files md js)
    map_err encode (p.marshal msg)
