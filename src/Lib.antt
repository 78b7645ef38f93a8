-- ===== src/Lib.antt =====
-- goxo: a Go engine that hosts agent handlers. It takes messages from a RabbitMQ topic exchange, lets
-- them through flow-control limits, hands each to one of a pool of handler processes over a framed
-- JSON protocol on stdin and stdout, relays what the handlers emit to the exchange, and settles each
-- message when its handler is done with it.
--
-- The parts, and how they interact:
--   Note (internal/note): the notes between engine and handler. Note.antt has the note types of
--     note.go. Note/Wire.antt has WriteFrame, ReadFrame, Writer (`send`) and Reader (`read`) of
--     wire.go, and the worker's read loop over a stream (`read_notes`). A stream is the list of the
--     bytes to come, and a writer is a state with a write that may fail. encoding/json is the record
--     `Json`. Frames, Truncation and Reader have the proofs.
--   Codec (internal/codec): selectors resolve to message descriptors, and a dict goes to wire bytes and
--     back. The protobuf library and encoding/json are the record `Protobuf`, and `RoundTrips` in
--     Codec/Laws.antt is what is relied on.
--   Bus (internal/bus): Bus/Routing.antt and Bus/Control.antt are control.go (routing keys, ids, the
--     control envelope); Bus/Transport.antt is bus.go (set-up, consumer, settlement, publishing, close).
--     The AMQP library is seen through the calls made on it (`Call`); what each call answers is a
--     parameter. The codec is the interface `Coder`, and base64 is `Base64`.
--   Engine (internal/engine): Engine/Admit.antt is admit.go; Engine/Assembly.antt is config.go;
--     Engine/Handling.antt is handle of engine.go, behind the bus's dispatch; Engine/Running.antt is Run
--     of engine.go, as the events of what it opens, does and closes, and loadCodec. What Run meets (the
--     AMQP library, the listener, the messages that come) is the record `World`. Release has the proofs.
--     Engine/System.antt is the engine at work, all parts together: the consumer's goroutine takes a
--     message, drops it or looks for the least loaded worker, and stays in that worker's Dispatch, while
--     the workers go on, the context may be cancelled, and Shutdown comes when Consume has returned.
--     System/Counts has what is counted; System/Quiet, Sound, Turns, Balance, Account, Every,
--     Leaving, Handed, Range, Closing, Drain and Published have the proofs.
--   Settings (internal/settings): Parse and Load over the record `Proto` of the protobuf library, with
--     the descriptor that is resolved once and cached, and Arg.Decode.
--   Manifest (internal/manifest): the records, Parse over yaml.Unmarshal, and Load.
--   Config (internal/config): Config.antt is config.go. yaml.v3 is the record `Yaml`, time.ParseDuration
--     and os.ReadFile are functions.
--   Overlay, Main (main.go): Overlay.antt is the environment over the configuration file, up to the
--     Params of the engine; Main.antt is run and main, from the files to the exit code.
--   Health: healthAddr of internal/engine/engine.go, the server of internal/health/health.go as its
--     answers to requests, and the probe of cmd/healthcheck/main.go.
--   Worker (internal/worker): worker.go is a machine. Worker/State.antt has the state of one worker,
--     with what its goroutines are about to do; Worker/Messages.antt the in-flight map and every way a
--     message is settled; Worker/Process.antt the handler process, its writer, the emits, spawn and
--     close; Worker/Steps.antt the actions and their runs. A run is any sequence of actions of the
--     supervisor, Dispatch, the writers, the timers, Shutdown, the context and the handler, so every
--     interleaving of the goroutines is a run. A section under the worker's lock is one action.
--     A note that the writer takes is written or lost. Worker/Pool.antt is pool.go, and
--     Worker/Shutdown.antt its Shutdown: a machine over the workers' steps. Table, Invariant, Keeps,
--     Moves, Turns, Runs, Settlement, Ledger, Drain, Stdin, Flows, Queues, Feeding, Quiet, Picked, Taken,
--     Crash, Cases, Relayed, Flags and Shutdown/* have the proofs. Ledger.antt is what the worker
--     promises of a message, without processes: what is pending and the outcomes so far.
--   Go: what the code uses of Go's library and the model computes: strings.Fields, strconv.Itoa and
--     Atoi, net.JoinHostPort, and the errors of os.ReadFile.
--   Base, Json: shared helpers; Go's `int`, maps and strings, and the values of `any`.
--   Tests: sample data, and the theorems at work on them.
--
-- Where the model differs in form: a message's callbacks Ack, Nack and Requeue are one tag and an
-- outcome, and `calls` records those that were called. Processes are numbered in the order of their
-- start. A text of an error or a log line is not modelled, but the values it shows are.
--
-- Bounds and fuel: `read_notes` is on fuel; each note takes at least one byte off the stream, so more
-- fuel than the stream has bytes is enough. A note's id is 64 bits and wraps; theorems on runs of a
-- worker take fewer than 2 ^ 64 - 1 accepted messages. The lengths of chains are compared as uint32,
-- so theorems on the limits take chains shorter than 2 ^ 32.
--
-- Not modelled: the HTTP server behind the answers, and its Close; logging and the texts of errors; the
-- reads of settings fields by name, which the protobuf library makes; that the operating system ends a
-- process that was killed.
pub mod Base
pub mod Go
pub mod Json
pub mod Note
pub mod Codec
pub mod Bus
pub mod Config
pub mod Settings
pub mod Manifest
pub mod Engine
pub mod Overlay
pub mod Health
pub mod Main
pub mod Worker
pub mod Tests
