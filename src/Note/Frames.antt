-- ===== src/Note/Frames.antt =====
-- What one side writes, the other reads: ReadFrame after WriteFrame, on a buffer.
use goxo.Base.{
  ℕ, ◌/◌, ◌%◌, ◌^◌, ◌≤◌, ◌<◌, ◌≡◌, refl, ◌∙◌, arith, none, [], ◌∷◌, ◌++◌, length, length-append,
  take-length-append, drop-length-append, ltb, ok, err, if◌then◌else◌,
}
use mathlib.Core.List.{append_assoc}
use goxo.Base.Text.{Str}
use goxo.Note.Wire.{
  max_frame_size, put_uint32, uint32, read_full, read_frame, write_frame, buffer, frame_too_large,
}

-- The bytes of one frame.
abbrev pub frame : Str → Str
frame body = put_uint32 (length body % 2 ^ 32) ++ body

pub read_full_prefix : (xs rest : Str) → read_full (length xs) (xs ++ rest) ≡ ok (xs, rest)
unfolding read_full
read_full_prefix xs rest =
    ground (arith, length-append xs rest, take-length-append xs rest, drop-length-append xs rest)

pub uint32-put_uint32 : (n : ℕ) → n < 2 ^ 32 → uint32 (put_uint32 n) ≡ n
unfolding uint32 put_uint32
uint32-put_uint32 n h = omega arith

pub read_header : (n : ℕ) (s : Str) → read_full 4 (put_uint32 n ++ s) ≡ ok (put_uint32 n, s)
unfolding put_uint32
read_header n s =
    read_full_prefix ((n / 2 ^ 24 % 256) ∷ (n / 2 ^ 16 % 256) ∷ (n / 2 ^ 8 % 256) ∷ (n % 256) ∷ [])
      s

-- A header that announces `n` bytes, with `s` behind it.
pub read_frame_header :
    (n : ℕ) (s : Str)
    → n < 2 ^ 32
    → read_frame (put_uint32 n ++ s)
      ≡ (if ltb max_frame_size n then err frame_too_large else read_full n s)
unfolding read_frame
read_frame_header n s h = rw (read_header n s) (rw (uint32-put_uint32 n h))

-- The length of an admissible body fits the prefix.
pub length_fits : (body : Str) → length body ≤ max_frame_size → length body % 2 ^ 32 ≡ length body
length_fits body h = omega arith

-- A frame of an admissible body is read back, and whatever follows it is left.
pub read_frame-frame :
    (body rest : Str)
    → length body ≤ max_frame_size
    → read_frame (frame body ++ rest) ≡ ok (body, rest)
read_frame-frame body rest h =
    rw (length_fits body h, append_assoc)
      (read_frame_header (length body) (body ++ rest) (omega arith)
        ∙ ground (arith, read_full_prefix body rest))

-- A frame that WriteFrame puts into a buffer.
pub write_frame-buffer :
    (w body : Str)
    → length body ≤ max_frame_size
    → write_frame buffer w (ok body) ≡ (w ++ frame body, none)
unfolding write_frame
write_frame-buffer w body h =
    ground (arith, append_assoc w (put_uint32 (length body % 2 ^ 32)) body)

-- Into an empty buffer WriteFrame puts an admissible body with no error, and ReadFrame on that
-- buffer, whatever is written behind it, gives the body back and leaves just what was behind it.
pub read_frame-write_frame :
    (body rest : Str)
    → length body ≤ max_frame_size
    → ((write_frame buffer [] (ok body)).1 ≡ none)
      × (read_frame ((write_frame buffer [] (ok body)).0 ++ rest) ≡ ok (body, rest))
read_frame-write_frame body rest h =
    rw (write_frame-buffer [] body h) (refl, read_frame-frame body rest h)
