-- ===== src/Note/Truncation.antt =====
-- ReadFrame on a stream that ends inside a frame, or whose prefix announces too much.
use goxo.Base.{
  ℕ, zero, suc, ◌+◌, ◌%◌, ◌^◌, ◌≤◌, ◌<◌, ◌≡◌, ◌∙◌, ◌⊎◌, ◌↔◌, arith, ◌||◌, [], ◌∷◌, ◌++◌, length,
  take, length-take, nat_eq, err, if◌then◌else◌,
}
use goxo.Base.Text.{Str}
use goxo.Note.Wire.{
  max_frame_size, put_uint32, uint32, read_full, read_frame, eof, unexpected_eof, frame_too_large,
}
use goxo.Note.Frames.{frame, read_frame_header, length_fits}

pub read_full_short :
    (n : ℕ) (s : Str)
    → length s < n
    → read_full n s ≡ err (if nat_eq (length s) 0 then eof else unexpected_eof)
unfolding read_full
read_full_short n s h = ground arith

read_frame_short :
    (s : Str)
    → length s < 4
    → read_frame s ≡ err (if nat_eq (length s) 0 then eof else unexpected_eof)
unfolding read_frame
read_frame_short s h = rw (read_full_short 4 s h)

-- A frame that is cut after `k` bytes: the answer is EOF at a frame boundary (`k` is 0), and also
-- right behind the length prefix (`k` is 4); anywhere else it is an unexpected EOF.
pub read_frame-take :
    (body : Str) (k : ℕ)
    → length body ≤ max_frame_size
    → k < 4 + length body
    → read_frame (take k (frame body))
      ≡ err (if nat_eq k 0 || nat_eq k 4 then eof else unexpected_eof)
unfolding put_uint32
read_frame-take body zero fits cut = read_frame_short _ (omega arith)
read_frame-take body (suc zero) fits cut = read_frame_short _ (omega arith)
read_frame-take body (suc (suc zero)) fits cut = read_frame_short _ (omega arith)
read_frame-take body (suc (suc (suc zero))) fits cut = read_frame_short _ (omega arith)
read_frame-take body (suc (suc (suc (suc k)))) fits cut =
    let n = length body % 2 ^ 32 in
    read_frame_header n (take k body) (omega arith)
    ∙ ground (
      arith,
      length_fits body fits,
      length-take k body,
      read_full_short n (take k body) (omega (arith, length_fits body fits, length-take k body)),
    )

-- The answer is EOF in just two cases: at the end of the stream, and where the stream ends right
-- behind the prefix of a frame that is admissible and not empty.
pub read_frame_eof_iff :
    (s : Str)
    → (read_frame s ≡ err eof)
      ↔ ((s ≡ []) ⊎ ((length s ≡ 4) × (0 < uint32 s) × (uint32 s ≤ max_frame_size)))
unfolding read_frame read_full uint32
read_frame_eof_iff [] = ground arith
read_frame_eof_iff (a ∷ []) = ground arith
read_frame_eof_iff (a ∷ b ∷ []) = ground arith
read_frame_eof_iff (a ∷ b ∷ c ∷ []) = ground arith
read_frame_eof_iff (a ∷ b ∷ c ∷ d ∷ []) = ground arith
read_frame_eof_iff (a ∷ b ∷ c ∷ d ∷ e ∷ s) = ground arith

-- A prefix above the limit is refused, whatever follows it: nothing of the body is read.
pub read_frame_too_large :
    (n : ℕ) (s : Str)
    → n < 2 ^ 32
    → (read_frame (put_uint32 n ++ s) ≡ err frame_too_large) ↔ (max_frame_size < n)
unfolding read_full
read_frame_too_large n s h = rw (read_frame_header n s h) (ground arith)
