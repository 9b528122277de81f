-- ===== src/Lib.antt =====
-- Models and theorems for the DNS-over-QUIC server shell.
--
-- A QUIC stream carries one length-prefixed DNS message and FIN. The C shell keeps a table of the
-- streams of a connection, takes authenticated fragments in, answers a complete request with a
-- minimal worker, frames the response, hands it to a transport callback and closes the stream
-- when the send is done. Transport events go through a bounded queue. The phases, the framing and
-- the worker are F* code, extracted to C and called by the shell.
--
--   Stream    src/transport/DNS.QUIC.StreamModel.fst and DNS.QUIC.StreamMapping.fst, with the phase
--             codes of src/concurrency/DNS.ShellBoundary.fst. `handle_stream_data` and
--             `handle_stream_fin` are the two operations of a stream.
--   Table     shell/ism_shell.c: `ism_shell_open_stream`, `ism_shell_find_stream`, the data, FIN,
--             reset and completion entry points, and `close_stream` of
--             src/transport/DNS.QUIC.Multiplexer.fst. The prefix `ism_shell_` is dropped.
--   Response  src/transport/DNS.QUIC.ResponseModel.fst and
--             src/concurrency/DNS.ShellResponseBoundary.fst.
--   Worker    src/concurrency/DNS.Worker.Minimal.fst and the ready-stream calls of shell/ism_shell.c.
--   Adapter   shell/msquic_adapter.c, the prefix `ism_msquic_adapter_` dropped where no other
--             function has the name. `Completion`, `Sends`, `Replies` and `Events` go through its
--             calls; `Answers`, `Progress` and `Requests` follow a whole request, fragment by fragment, to
--             the call that sends its response, `Sessions` one request after the other.
--   Queue     shell/ism_event_queue.c, the prefix `ism_shell_event_queue_` dropped. `Dispatch` hands
--             its events to the adapter, `Dispatch/Single` one at a time.
--   Runtime   shell/msquic_runtime.c: one stream's events and its send, over the queue and the
--             adapter. `Steps` has each event as one call of the adapter; `Requests` and `Answers`
--             follow a whole request through the receive events, `Closing` the completion and the
--             shutdown.
--   Connections  shell/msquic_connection_runtime.c: the slots of the streams of a connection, and
--             the listener, connection and stream callbacks. `Reach` has them as the steps of a
--             state machine. `Choices` has the slot that a send and a new stream get. `Opening`, `Requests`, `Landing`, `Aborts` and `Life` follow a stream
--             from its start to its shutdown, `Visits` one stream after the other, and `Leaks` a
--             shutdown that fails.
--   Pulse     the Pulse build: migration/c with the cores of migration/DNS.Migration.Pulse*.fst, the
--             adapters shell/pulse_*_adapter.c, and the calls of shell/ism_shell.c as that build
--             compiles them (`Shell`).
--   Smoke     the test programs shell/link_event_queue_smoke.c, link_msquic_adapter_smoke.c,
--             link_msquic_runtime_smoke.c, link_shell_scaffold_smoke.c, link_proof_audit_smoke.c
--             and msquic_connection_smoke.c, as functions of the model.
--   Tests     concrete runs, those of the test programs among them (`Tests/Smokes`).
--
-- The state is passed explicitly: an operation takes the struct and returns it with its answer. A
-- struct is a record, a pointer to a stream context is the index of its slot, a buffer is a
-- function from the index to the byte, and a pointer that may be NULL is an option. Sums in
-- `uint32_t` wrap as `add_u32`. A scan over an array is a recursion on the number of elements that
-- are left. The scan of a question's name recurses on fuel: each step consumes at least one byte,
-- so the bytes that are left, plus one, are enough.
--
-- The world of a runtime has one queue and one adapter, which its pointers reach, and the state of
-- the adapter's send callback, in which the runtime itself stands: alone, or in a slot of a
-- connection (`Host`). The functions of the MsQuic API are parameters. In the Pulse build an address
-- is a number; where C places the buffers is a `Layout`, with what C guarantees of it as a
-- hypothesis.
--
-- The adapter's send callback is a parameter over a state of its own, the generated question
-- validator a parameter, and the contents of the buffers that events point to are a heap that
-- stays as it is while events are dispatched. Calls with a NULL connection, adapter or queue
-- are left out: they return before they read anything.
--
-- Not modelled: migration/DNS.Migration.PulseSend and the value pilots, which no C code of the shell
-- calls, the DNS parser, resolver and security modules that the shell reaches only through the
-- generated validator, the arithmetic stubs of shell/link_krml_compat_stubs.c, the test programs that
-- run a real transport, only link, or compare the two builds, and the build.
pub mod Prelude
pub mod Stream
pub mod Table
pub mod Response
pub mod Worker
pub mod Adapter
pub mod Queue
pub mod Runtime
pub mod Connections
pub mod Pulse
pub mod Smoke
pub mod Tests
