-- ===== src/Worker/Process.antt =====
-- internal/worker/worker.go: a handler process, the queue to its writer, and the emits it sends.
use goxo.Base.{
  ℕ, ◌+◌, Bool, true, false, ◌||◌, Option, none, some, List, [], ◌∷◌, ◌++◌, length, ltb, nat_eq,
  if◌then◌else◌, nat_Eq, ◌==◌,
}
use goxo.Base.Dict.{lookup}
use goxo.Base.Text.{Str, str_Eq, bytes}
use goxo.Note.{Deliver, EmitAck, Emit, Init, status_ok, status_error}
use goxo.Note.Wire.{EngineNote, stamp}
use goxo.Worker.State.{
  Delivery, Config, OutNote, deliver, emit_ack, backoff, reading, publishing, finished, ready,
  sending, Worker, no_proc,
}
use goxo.Worker.Messages.{shutting_down, reclaim}

abbrev pub update {ℓ} : {A : Type ℓ} → (ℕ → A) → ℕ → A → ℕ → A
update f i a j = if nat_eq i j then a else f j

unfoldable pub request_stop : ℕ → Worker → Worker
request_stop g w = record w { procs = update w.procs g (record (w.procs g) { stop = true }) }

-- `out` has room for cap + 1 notes.
unfoldable pub has_room : ℕ → Worker → Bool
has_room g w = ltb (length (w.procs g).out) (w.cap + 1)

abbrev pub enqueue : ℕ → OutNote → Worker → Worker
enqueue g n w = record w {
  procs = update w.procs g (record (w.procs g) { out = (w.procs g).out ++ (n ∷ []) });
}

abbrev pub deliver_note : ℕ → Delivery → Deliver
deliver_note id d = record {
  type = [];
  id = id;
  selector = d.selector;
  fields = d.fields;
  meta = d.meta;
}

-- p.send, the branch that queues the note; it waits for room.
unfoldable pub send_note : Worker → Worker
unfolding has_room
send_note w = elim w.disp [
  | sending g id d ↦
      if has_room g w
      then record (enqueue g (deliver (deliver_note id d)) w) { disp = ready }
      else w
  | _ ↦ w
]

-- p.send, the branches that give up: the process is stopping, or the context is done.
unfoldable pub send_abort : Worker → Worker
unfolding reclaim
send_abort w = elim w.disp [
  | sending g id d ↦ if (w.procs g).stop || w.cancelled then reclaim id d w else w
  | _ ↦ w
]

-- ackEmit: a full queue drops the ack.
unfoldable pub ack_emit : ℕ → EmitAck → Worker → Worker
unfolding has_room
ack_emit g a w = if has_room g w then enqueue g (emit_ack a) w else w

-- w.outputs[selector]
unfoldable pub declared : List Str → Str → Bool
declared [] s = false
declared (o ∷ os) s = if o == s then true else declared os s

-- onEmit up to Publish: the chain of the message that the emit answers, nil if there is none.
unfoldable pub on_emit : ℕ → Emit → Worker → Worker
on_emit g e w = elim (lookup e.deliver w.msgs) [
  | none ↦ record w { sup = publishing g [] e }
  | some m ↦ record w { sup = publishing g m.chain e }
]

abbrev pub emit_answer : Emit → Str → Str → EmitAck
emit_answer e status error = record { type = []; id = e.id; status = status; error = error }

-- The rest of onEmit. `answer` is the error that Publish returns.
unfoldable pub publish : ℕ → List Str → Emit → Option Str → Worker → Worker
unfolding ack_emit declared
publish g chain e answer w =
    let w' = record w { sup = reading g } in
    if declared w.cfg.outputs e.selector
    then (let sent = record w' {
      published = record { chain = chain; selector = e.selector; fields = e.fields } ∷ w.published;
    } in
        elim answer [
          | none ↦ ack_emit g (emit_answer e status_ok []) sent
          | some x ↦ ack_emit g (emit_answer e status_error x) sent
        ])
    else ack_emit g (emit_answer e status_error (bytes "selector not in declared outputs")) w'

abbrev pub to_note : OutNote → EngineNote
to_note (deliver d) = EngineNote.deliver d
to_note (emit_ack a) = EngineNote.emit_ack a

unfoldable pub write_head : List OutNote → ℕ → Worker → Worker
write_head [] g w = w
write_head (n ∷ rest) g w = record w {
  procs =
      update w.procs g
        (record (w.procs g) { out = rest; stdin = (w.procs g).stdin ++ (stamp (to_note n) ∷ []) });
}

-- writeLoop takes a note off the queue and writes it.
unfoldable pub write : ℕ → Worker → Worker
unfolding write_head
write g w = if (w.procs g).stdin_closed then w else write_head (w.procs g).out g w

unfoldable pub drop_head : List OutNote → ℕ → Worker → Worker
drop_head [] g w = w
drop_head (n ∷ rest) g w = record w { procs = update w.procs g (record (w.procs g) { out = rest }) }

-- writeLoop takes a note off the queue and fails to write it: the note is lost.
unfoldable pub lose : ℕ → Worker → Worker
unfolding drop_head
lose g w = if (w.procs g).stdin_closed then w else drop_head (w.procs g).out g w

-- writeLoop, told to stop and with the queue drained, closes stdin.
unfoldable pub close_stdin : ℕ → Worker → Worker
close_stdin g w =
    if (w.procs g).stop
    then elim (w.procs g).out [
      | [] ↦ record w { procs = update w.procs g (record (w.procs g) { stdin_closed = true }) }
      | _ ∷ _ ↦ w
    ]
    else w

-- The step at which spawning a process fails.
pub data SpawnFault : Type 0 where
  stdin_pipe stdout_pipe start_process write_init : SpawnFault

pub data SpawnError : Type 0 where
  empty_command : SpawnError
  fault : SpawnFault → SpawnError

abbrev pub init_note : Config → Init
init_note cfg = record {
  type = [];
  protocol = cfg.protocol;
  identity = cfg.identity;
  config = cfg.config;
  inputs = cfg.inputs;
}

-- spawn: why it fails, if it does. `f` is what the operating system makes of it.
unfoldable pub spawn_error : Config → Option SpawnFault → Option SpawnError
spawn_error cfg f = elim cfg.command [
  | [] ↦ some empty_command
  | _ ∷ _ ↦ elim f [ none ↦ none | some x ↦ some (fault x) ]
]

-- One round of run up to the read loop. A process that came up has been sent its init note.
unfoldable pub spawn : Option SpawnFault → Worker → Worker
unfolding spawn_error shutting_down
spawn f w = elim (spawn_error w.cfg f) [
  | some _ ↦
      if shutting_down w
      then record w { stopped = true; sup = finished }
      else record w { sup = backoff }
  | none ↦ record w {
    procs =
        update w.procs w.spawned
          (record no_proc { stdin = stamp (EngineNote.init (init_note w.cfg)) ∷ [] });
    spawned = w.spawned + 1;
    cur = some w.spawned;
    sup = reading w.spawned;
  }
]

-- beginClose: `closing` is set, and the live process, if there is one, is asked to stop.
unfoldable pub begin_close : Worker → Worker
unfolding request_stop
begin_close w =
    let w' = record w { closing = true } in elim w.cur [ none ↦ w' | some g ↦ request_stop g w' ]

-- kill: SIGKILL to the live process, if there is one.
unfoldable pub kill : Worker → Worker
kill w = elim w.cur [
  | none ↦ w
  | some g ↦ record w { procs = update w.procs g (record (w.procs g) { killed = true }) }
]
