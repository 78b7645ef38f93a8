-- ===== src/Note/Wire.antt =====
-- internal/note/wire.go: the framing of notes on a byte stream. A stream that is read is the list of
-- the bytes still to come before end of file. An io.Writer is any state with a `write` that may fail.
use goxo.Base.{
  ℕ, zero, suc, ◌+◌, ◌*◌, ◌/◌, ◌%◌, ◌^◌, leb, Option, none, some, List, [], ◌∷◌, ◌++◌, length, take,
  drop, ltb, nat_eq, if◌then◌else◌, Result, ok, err, ◌>>=◌, map_err, ◌==◌,
}
use goxo.Base.Text.{Str, str_Eq}
use goxo.Note.{
  Init, Deliver, EmitAck, Shutdown, Emit, Done, Pickup, type_init, type_deliver, type_emit_ack,
  type_shutdown, type_emit, type_done, type_pickup,
}

-- 64 << 20
abbrev pub max_frame_size : ℕ
max_frame_size = 64 * 2 ^ 20

pub data WriteError : Type 0 where
  marshal : Str → WriteError
  frame_too_large : WriteError
  io : Str → WriteError

-- binary.BigEndian.PutUint32
unfoldable pub put_uint32 : ℕ → Str
put_uint32 n = (n / 2 ^ 24 % 256) ∷ (n / 2 ^ 16 % 256) ∷ (n / 2 ^ 8 % 256) ∷ (n % 256) ∷ []

-- `w.Write(hdr)`, then `w.Write(body)` unless that failed. `marshalled` is what json.Marshal returned.
unfoldable pub write_frame :
    {W : Type 0} → (W → Str → W × Option Str) → W → Result Str Str → W × Option WriteError
unfolding put_uint32
write_frame write w (err e) = (w, some (marshal e))
write_frame write w (ok body) =
    if ltb max_frame_size (length body)
    then (w, some frame_too_large)
    else (let (w', failed) = write w (put_uint32 (length body % 2 ^ 32)) in
        elim failed [
          | some e ↦ (w', some (io e))
          | none ↦
              let (w'', failed') = write w' body in
              elim failed' [ some e ↦ (w'', some (io e)) | none ↦ (w'', none) ]
        ])

-- A bytes.Buffer: a write appends and never fails.
abbrev pub buffer : Str → Str → Str × Option Str
buffer w p = (w ++ p, none)

pub data ReadError : Type 0 where
  eof unexpected_eof frame_too_large : ReadError

-- io.ReadFull into a buffer of `n` bytes: the bytes and the rest of the stream. It reports `eof` if
-- the stream ends before the first byte, and asks for nothing where `n` is 0.
unfoldable pub read_full : ℕ → Str → Result ReadError (Str × Str)
read_full n s =
    if leb n (length s)
    then ok (take n s, drop n s)
    else (if nat_eq (length s) 0 then err eof else err unexpected_eof)

-- binary.BigEndian.Uint32
unfoldable pub uint32 : Str → ℕ
uint32 (a ∷ b ∷ c ∷ d ∷ _) = a * 2 ^ 24 + b * 2 ^ 16 + c * 2 ^ 8 + d
uint32 _ = 0

-- ReadFrame: the body and the rest of the stream.
unfoldable pub read_frame : Str → Result ReadError (Str × Str)
read_frame s = do
  (hdr, s') ← read_full 4 s
  if ltb max_frame_size (uint32 hdr) then err frame_too_large else read_full (uint32 hdr) s'

-- An engine→handler note, one constructor for each method of Writer.
pub data EngineNote : Type 0 where
  init : Init → EngineNote
  deliver : Deliver → EngineNote
  emit_ack : EmitAck → EngineNote
  shutdown : Shutdown → EngineNote

-- `n.Type = Type…`
unfoldable pub stamp : EngineNote → EngineNote
stamp (init n) = init (record n { type = type_init })
stamp (deliver n) = deliver (record n { type = type_deliver })
stamp (emit_ack n) = emit_ack (record n { type = type_emit_ack })
stamp (shutdown n) = shutdown (record n { type = type_shutdown })

abbrev pub engine_type : EngineNote → Str
engine_type (init n) = n.type
engine_type (deliver n) = n.type
engine_type (emit_ack n) = n.type
engine_type (shutdown n) = n.type

-- Writer.Init, Deliver, EmitAck and Shutdown.
unfoldable pub send :
    {W : Type 0}
    → (W → Str → W × Option Str)
    → (EngineNote → Result Str Str)
    → W
    → EngineNote
    → W × Option WriteError
send write encode w n = write_frame write w (encode (stamp n))

-- A decoded handler→engine note: just one of the source's three pointers is set.
pub data HandlerNote : Type 0 where
  emit : Emit → HandlerNote
  done : Done → HandlerNote
  pickup : Pickup → HandlerNote

-- encoding/json: json.Unmarshal of a body into each of the four targets that Read uses.
pub record Json : Type 0 where
  pub type_of : Str → Result Str Str
  pub emit_of : Str → Result Str Emit
  pub done_of : Str → Result Str Done
  pub pickup_of : Str → Result Str Pickup

pub data NoteError : Type 0 where
  frame_error : ReadError → NoteError
  decode_type decode_emit decode_done decode_pickup : Str → NoteError
  unexpected_type : Str → NoteError

-- The `switch` of Reader.Read.
unfoldable pub decode_as : Json → Str → Str → Result NoteError HandlerNote
decode_as j type body =
    if type == type_emit
    then (do e ← map_err decode_emit (j.emit_of body); ok (emit e))
    else (if type == type_done
        then (do d ← map_err decode_done (j.done_of body); ok (done d))
        else (if type == type_pickup
            then (do pk ← map_err decode_pickup (j.pickup_of body); ok (pickup pk))
            else err (unexpected_type type)))

unfoldable pub decode_note : Json → Str → Result NoteError HandlerNote
unfolding decode_as
decode_note j body = do type ← map_err decode_type (j.type_of body); decode_as j type body

-- Reader.Read: the note and the rest of the stream.
unfoldable pub read : Json → Str → Result NoteError (HandlerNote × Str)
read j s = do (body, s') ← map_err frame_error (read_frame s); n ← decode_note j body; ok (n, s')

-- The notes that worker.readLoop gets from the stream, and the error that ends the loop. Every
-- round takes a frame off the stream; `none` means that the fuel ran out.
unfoldable pub read_notes : Json → ℕ → Str → Option (List HandlerNote × NoteError)
read_notes j zero s = none
read_notes j (suc f) s = elim (read j s) [
  | err e ↦ some ([], e)
  | ok (n, s') ↦ elim (read_notes j f s') [ none ↦ none | some (ns, e) ↦ some (n ∷ ns, e) ]
]
