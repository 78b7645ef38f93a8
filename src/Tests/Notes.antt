-- ===== src/Tests/Notes.antt =====
-- internal/note and internal/codec at work: frames of three bytes, cut frames, a stream of two notes,
-- and a codec over a protobuf library whose messages are strings.
use goxo.Base.{
  zero, suc, ◌+◌, ◌≤◌, ◌<◌, ◌≡◌, refl, ◌⊎◌, ◌↔◌, arith, false, Option, none, some, List, [], ◌∷◌,
  ◌++◌, length, take, if◌then◌else◌, Result, ok, err, ◌==◌,
}
use goxo.Base.Text.{Str, bytes, str_Eq}
use goxo.Json.{str, Fields, end, field}
use goxo.Note.{Pickup, type_pickup, type_deliver}
use goxo.Note.Wire.{
  Json, HandlerNote, pickup, EngineNote, deliver, eof, NoteError, frame_error, frame_too_large,
  unexpected_type, max_frame_size, put_uint32, uint32, write_frame, buffer, read_frame, decode_note,
  read, read_notes, stamp, engine_type,
}
use goxo.Note.Frames.{frame, read_frame-write_frame}
use goxo.Note.Reader.{frames, Decodes, read_notes_total, read_notes-frames, read-engine_note}
use goxo.Note.Truncation.{read_frame-take, read_frame_eof_iff, read_frame_too_large}
use goxo.Codec.{
  Protobuf, CodecError, Codec, new, message, has, full_name, resolve, not_a_message, decode_wire,
  encode_dict,
}
use goxo.Codec.Laws.{has_refused, full_name-injective}

abbrev body : Str
body = 1 ∷ 2 ∷ 3 ∷ []

body_fits : length body ≤ max_frame_size
body_fits = omega arith

read_frame-write_frame_example :
    ((write_frame buffer [] (ok body)).1 ≡ none)
    × (read_frame ((write_frame buffer [] (ok body)).0 ++ (9 ∷ [])) ≡ ok (body, 9 ∷ []))
read_frame-write_frame_example = read_frame-write_frame body (9 ∷ []) body_fits

-- The stream ends behind the length prefix.
read_frame-take_example : read_frame (take 4 (frame body)) ≡ err eof
read_frame-take_example = read_frame-take body 4 body_fits (omega arith)

abbrev prefix : Str
prefix = 0 ∷ 0 ∷ 0 ∷ 3 ∷ []

read_frame_eof_iff_sample : (read_frame prefix ≡ err eof) ↔ (
    (prefix ≡ []) ⊎ ((length prefix ≡ 4) × (0 < uint32 prefix) × (uint32 prefix ≤ max_frame_size)))
read_frame_eof_iff_sample = read_frame_eof_iff prefix

read_frame_too_large_example :
    (read_frame (put_uint32 (max_frame_size + 1) ++ body) ≡ err frame_too_large)
    ↔ (max_frame_size < max_frame_size + 1)
read_frame_too_large_example = read_frame_too_large (max_frame_size + 1) body (omega arith)

-- A JSON of two bytes: 0 and an id make a pickup; 1 begins a deliver.
abbrev sample_type : Str → Result Str Str
sample_type (zero ∷ _) = ok type_pickup
sample_type (suc zero ∷ _) = ok type_deliver
sample_type _ = err (bytes "no type")

abbrev sample_pickup : Str → Result Str Pickup
sample_pickup (zero ∷ id ∷ []) = ok (record { type = type_pickup; id = id })
sample_pickup _ = err (bytes "no id")

abbrev sample_json : Json
sample_json = record {
  type_of = sample_type;
  emit_of = λ _. err (bytes "no emit");
  done_of = λ _. err (bytes "no done");
  pickup_of = sample_pickup;
}

abbrev two_bodies : List Str
two_bodies = (0 ∷ 5 ∷ []) ∷ (0 ∷ 6 ∷ []) ∷ []

abbrev two_notes : List HandlerNote
two_notes =
    pickup (record { type = type_pickup; id = 5 })
    ∷ pickup (record { type = type_pickup; id = 6 })
    ∷ []

two_bodies_decode : Decodes sample_json two_bodies two_notes
unfolding decode_note
two_bodies_decode = (omega arith, refl, (omega arith, refl, tt))

read_notes-frames_example :
    read_notes sample_json 20 (frames two_bodies) ≡ some (two_notes, frame_error eof)
unfolding put_uint32
read_notes-frames_example =
    read_notes-frames sample_json 20 two_bodies two_notes two_bodies_decode (omega arith)

read_notes_total_example :
    (r : List HandlerNote × NoteError) × (read_notes sample_json 10 body ≡ some r)
read_notes_total_example = read_notes_total sample_json 10 body (omega arith)

abbrev one_deliver : EngineNote
one_deliver = deliver (record {
  type = [];
  id = 1;
  selector = bytes "v3.in";
  fields = end;
  meta = record { message_id = bytes "m"; headers = end };
})

one_deliver_type : sample_json.type_of body ≡ ok (engine_type (stamp one_deliver))
unfolding stamp
one_deliver_type = refl

read-engine_note_example :
    read sample_json (frame body ++ []) ≡ err (unexpected_type (engine_type (stamp one_deliver)))
read-engine_note_example =
    read-engine_note sample_json one_deliver body [] body_fits one_deliver_type

-- A message is a string; its dict has it under one name; a file set knows one selector.
abbrev pub sample_find : Str → Result Str (Option (Unit {0}))
sample_find name =
    if name == full_name (bytes "v3.in") then ok (some tt) else err (bytes "not found")

abbrev pub sample_json_of_dict : Fields → Result Str Str
sample_json_of_dict (field k (str s) end) = ok s
sample_json_of_dict _ = err (bytes "no text")

abbrev pub sample_protobuf : Protobuf
sample_protobuf = record {
  FileSet = Unit;
  Files = Unit;
  MessageDescriptor = Unit;
  Message = Str;
  parse_set = λ _. ok tt;
  new_files = λ _. ok tt;
  find = λ _ name. sample_find name;
  unmarshal = λ _ w. ok w;
  marshal = λ m. ok m;
  to_json = λ _ _ m. ok m;
  from_json = λ _ _ js. ok js;
  dict_of_json = λ js. ok (field (bytes "text") (str js) end);
  json_of_dict = sample_json_of_dict;
}

abbrev sample_codec : Codec sample_protobuf
sample_codec = new sample_protobuf (record { files = tt })

unknown_selector : has sample_protobuf sample_codec.reg (bytes "v3.out") ≡ false
unfolding has message full_name new
unknown_selector = refl

has_refused_example :
    (e : CodecError) × (decode_wire sample_protobuf sample_codec (bytes "v3.out") body ≡ err e)
    × (encode_dict sample_protobuf sample_codec (bytes "v3.out") end ≡ err e)
    × ((e ≡ not_a_message) ⊎ ((x : Str) × (e ≡ resolve x)))
has_refused_example =
    has_refused sample_protobuf sample_codec (bytes "v3.out") body end unknown_selector

full_name-injective_sample : bytes "v3.in" ≡ bytes "v3.in"
full_name-injective_sample = full_name-injective (bytes "v3.in") (bytes "v3.in") refl
