-- ===== src/Note/Reader.antt =====
-- Reader.Read and the read loop over a whole stream.
use goxo.Base.{
  ℕ, zero, suc, ◌+◌, ◌≤◌, ◌<◌, ◌≡◌, refl, ◌≢◌, inl, inr, arith, some, List, [], ◌∷◌, ◌++◌, length,
  length-drop, ok, err, Result-cases, ==_iff,
}
use goxo.Base.Text.{Str, str_Eq}
use goxo.Note.{type_emit, type_done, type_pickup}
use goxo.Note.Wire.{
  max_frame_size, uint32, eof, read_frame, read_full, EngineNote, init, deliver, emit_ack, shutdown,
  stamp, engine_type, HandlerNote, Json, NoteError, frame_error, unexpected_type, decode_note, read,
  read_notes,
}
use goxo.Note.Frames.{frame, read_frame-frame}

-- A frame that was read came off the stream: at least the prefix is gone.
read_full_shorter :
    (n : ℕ) (s body rest : Str) → read_full n s ≡ ok (body, rest) → length rest + n ≡ length s
unfolding read_full
read_full_shorter n s body rest h = ground (arith, length-drop n s)

read_frame_shorter : (s body rest : Str) → read_frame s ≡ ok (body, rest) → length rest < length s
unfolding read_frame
read_frame_shorter s body rest h = elim (Result-cases (read_full 4 s)) [
  | inl ((hdr, s'), e) ↦
      ground (arith, read_full_shorter 4 s hdr s', read_full_shorter (uint32 hdr) s' body rest)
  | inr (x, e) ↦ ground arith
]

-- A stream of whole frames, one for each body.
abbrev pub frames : List Str → Str
frames [] = []
frames (b ∷ bs) = frame b ++ frames bs

-- Each body fits a frame and decodes to the note beside it.
abbrev pub Decodes : Json → List Str → List HandlerNote → Type 0
Decodes j [] [] = Unit
Decodes j (b ∷ bs) (n ∷ ns) =
    (length b ≤ max_frame_size) × (decode_note j b ≡ ok n) × Decodes j bs ns
Decodes j _ _ = ⊥

-- A note that was read came off the stream.
pub read_shorter :
    (j : Json) (s : Str) (n : HandlerNote) (rest : Str)
    → read j s ≡ ok (n, rest)
    → length rest < length s
unfolding read
read_shorter j s n rest h = elim (Result-cases (read_frame s)) [
  | inl ((body, s'), e) ↦ ground (arith, read_frame_shorter s body s' e)
  | inr (x, e) ↦ ground arith
]

-- The loop ends on every stream: its fuel does not run out where it exceeds the stream's length.
pub read_notes_total :
    (j : Json) (f : ℕ) (s : Str)
    → length s < f
    → (r : List HandlerNote × NoteError) × (read_notes j f s ≡ some r)
unfolding read_notes
read_notes_total j zero s h = absurd (omega arith)
read_notes_total j (suc f) s h = elim (Result-cases (read j s)) [
  | inr (x, e) ↦ (([], x), rw (e, read_notes))
  | inl ((n, s'), e) ↦
      let (r, e') = read_notes_total j f s' (omega (arith, read_shorter j s n s' e)) in
      ((n ∷ r.0, r.1), rw (e, read_notes) (rw (e', read_notes)))
]

read-frame_step :
    (j : Json) (b rest : Str) (n : HandlerNote)
    → length b ≤ max_frame_size
    → decode_note j b ≡ ok n
    → read j (frame b ++ rest) ≡ ok (n, rest)
unfolding read
read-frame_step j b rest n fits h = rw (read_frame-frame b rest fits) (rw h)

-- A stream of frames whose bodies decode to `ns` is read as just these notes, in their order, and
-- then EOF.
pub read_notes-frames :
    (j : Json) (f : ℕ) (bs : List Str) (ns : List HandlerNote)
    → Decodes j bs ns
    → length (frames bs) < f
    → read_notes j f (frames bs) ≡ some (ns, frame_error eof)
unfolding read_notes
read_notes-frames j zero bs ns d h = absurd (omega arith)
read_notes-frames j (suc f) [] [] d h = unfold read read_frame read_full in refl
read_notes-frames j (suc f) [] (n ∷ ns) d h = absurd d
read_notes-frames j (suc f) (b ∷ bs) [] d h = absurd d
read_notes-frames j (suc f) (b ∷ bs) (n ∷ ns) (fits, dec, d) h =
    rw (read-frame_step j b (frames bs) n fits dec, read_notes)
      (rw (
        read_notes-frames j f bs ns d
            (omega (arith, read_shorter j _ n _ (read-frame_step j b (frames bs) n fits dec))),
        read_notes,
      ))

-- The type of a note decides how it is read: only emit, done and pickup are accepted.
pub decode_note_other :
    (j : Json) (body type : Str)
    → j.type_of body ≡ ok type
    → type ≢ type_emit
    → type ≢ type_done
    → type ≢ type_pickup
    → decode_note j body ≡ err (unexpected_type type)
unfolding decode_note
decode_note_other j body type h e d p =
    ground (arith, ==_iff type type_emit, ==_iff type type_done, ==_iff type type_pickup)

engine_types :
    (n : EngineNote)
    → (engine_type (stamp n) ≢ type_emit)
      × (engine_type (stamp n) ≢ type_done)
      × (engine_type (stamp n) ≢ type_pickup)
unfolding stamp
engine_types (init n) = (λ e. ground arith, λ e. ground arith, λ e. ground arith)
engine_types (deliver n) = (λ e. ground arith, λ e. ground arith, λ e. ground arith)
engine_types (emit_ack n) = (λ e. ground arith, λ e. ground arith, λ e. ground arith)
engine_types (shutdown n) = (λ e. ground arith, λ e. ground arith, λ e. ground arith)

-- An engine→handler note is never taken for a handler's: whatever Writer sends, Read refuses its
-- body by the stamped type.
pub read-engine_note :
    (j : Json) (n : EngineNote) (body rest : Str)
    → length body ≤ max_frame_size
    → j.type_of body ≡ ok (engine_type (stamp n))
    → read j (frame body ++ rest) ≡ err (unexpected_type (engine_type (stamp n)))
unfolding read
read-engine_note j n body rest fits h = rw (read_frame-frame body rest fits) (
    let (e, d, p) = engine_types n in rw (decode_note_other j body (engine_type (stamp n)) h e d p))
