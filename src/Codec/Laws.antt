-- ===== src/Codec/Laws.antt =====
-- Dict and wire, there and back; what an unknown selector does.
use goxo.Base.{◌≡◌, refl, ap, ◌⊎◌, inl, inr, false, none, some, ok, err, Result-cases, drop}
use mathlib.Core.List.{append_cancel_right}
use goxo.Base.Text.{Str}
use goxo.Json.{Fields}
use goxo.Codec.{
  Protobuf, CodecError, Codec, MarshalOptions, full_name, message, has, decode_wire, encode_dict,
  resolve, not_a_message,
}

-- Two selectors never resolve through one name.
pub full_name-injective : (s t : Str) → full_name s ≡ full_name t → s ≡ t
unfolding full_name
full_name-injective s t h = append_cancel_right s t _ (ap (drop 29) h)

-- What the codec relies on, at a file set.
pub record RoundTrips (p : Protobuf) (files : p.Files) (o : MarshalOptions) : Type 0 where
  -- proto.Marshal and proto.Unmarshal: a message that was parsed from JSON, with no unknown fields,
  -- goes to the wire and comes back.
  pub wire :
      (md : p.MessageDescriptor) (js : Str) (msg : p.Message)
      → p.from_json files md js ≡ ok msg
      → (v : Str) × (p.marshal msg ≡ ok v) × (p.unmarshal md v ≡ ok msg)
  -- protojson.Marshal and protojson.Unmarshal: the JSON of a message is JSON of its type, and what is
  -- read from it has JSON of the same value. (Unknown fields are not in the JSON, and the bytes of
  -- the JSON are not stable.)
  pub shown :
      (md : p.MessageDescriptor) (w js : Str) (msg : p.Message)
      → p.unmarshal md w ≡ ok msg
      → p.to_json files o msg ≡ ok js
      → (msg' : p.Message) × (js' : Str) × (p.from_json files md js ≡ ok msg')
        × (p.to_json files o msg' ≡ ok js')
        × (p.dict_of_json js' ≡ p.dict_of_json js)
  -- protojson.Unmarshal depends on the value of its text only, not on blanks or the order of names.
  pub read :
      (md : p.MessageDescriptor) (js js' : Str)
      → p.dict_of_json js ≡ p.dict_of_json js'
      → p.from_json files md js ≡ p.from_json files md js'
  -- json.Marshal of what json.Unmarshal gave is JSON of the same value.
  pub json :
      (js : Str) (d : Fields)
      → p.dict_of_json js ≡ ok d
      → (js' : Str) × (p.json_of_dict d ≡ ok js') × (p.dict_of_json js' ≡ ok d)

module _ (p : Protobuf) (c : Codec p) where
  -- A selector that does not resolve is refused by both directions with one and the same error: the
  -- resolver's, or that the name is not of a message.
  pub has_refused :
      (selector wire : Str) (d : Fields)
      → has p c.reg selector ≡ false
      → (e : CodecError) × (decode_wire p c selector wire ≡ err e)
        × (encode_dict p c selector d ≡ err e)
        × ((e ≡ not_a_message) ⊎ ((x : Str) × (e ≡ resolve x)))
  unfolding decode_wire encode_dict has message
  has_refused selector wire d h = elim (Result-cases (p.find c.reg.files (full_name selector))) [
    | inr (x, e) ↦ (resolve x, rw e, rw e, inr (x, refl))
    | inl (none, e) ↦ (not_a_message, rw e, rw e, inl refl)
    | inl (some md, e) ↦ absurd (cc (e, h))
  ]
