-- ===== src/Note.antt =====
-- internal/note/note.go: the notes that the engine and a handler process exchange. An id is an int64,
-- given by its 64 bits.
pub mod Wire
pub mod Frames
pub mod Truncation
pub mod Reader
use goxo.Base.{ℕ, List}
use goxo.Base.Int.{ℤ}
use goxo.Base.Text.{Str, bytes}
use goxo.Json.{Fields}

abbrev pub type_init : Str
type_init = bytes "init"

abbrev pub type_deliver : Str
type_deliver = bytes "deliver"

abbrev pub type_emit_ack : Str
type_emit_ack = bytes "emit_ack"

abbrev pub type_shutdown : Str
type_shutdown = bytes "shutdown"

abbrev pub type_emit : Str
type_emit = bytes "emit"

abbrev pub type_done : Str
type_done = bytes "done"

abbrev pub type_pickup : Str
type_pickup = bytes "pickup"

abbrev pub status_ok : Str
status_ok = bytes "ok"

abbrev pub status_error : Str
status_error = bytes "error"

pub record Identity : Type 0 where
  pub agent : Str
  pub key : Str
  pub universe : Str

pub record Meta : Type 0 where
  pub message_id : Str
  pub headers : Fields

pub record Init : Type 0 where
  pub type : Str
  pub protocol : ℤ
  pub identity : Identity
  pub config : Fields
  pub inputs : List Str

pub record Deliver : Type 0 where
  pub type : Str
  pub id : ℕ
  pub selector : Str
  pub fields : Fields  -- the source's `Data`
  pub meta : Meta

pub record EmitAck : Type 0 where
  pub type : Str
  pub id : ℕ
  pub status : Str
  pub error : Str

pub record Shutdown : Type 0 where
  pub type : Str
  pub deadline_ms : ℤ

pub record Emit : Type 0 where
  pub type : Str
  pub id : ℕ
  pub deliver : ℕ
  pub selector : Str
  pub fields : Fields  -- the source's `Data`

pub record Done : Type 0 where
  pub type : Str
  pub id : ℕ
  pub status : Str
  pub error : Str

pub record Pickup : Type 0 where
  pub type : Str
  pub id : ℕ
