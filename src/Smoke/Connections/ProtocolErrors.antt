-- ===== src/Smoke/Connections/ProtocolErrors.antt =====
-- `smoke_protocol_errors` of shell/msquic_connection_smoke.c: requests that end too early, have a
-- DNS ID, or go on too long shut the connection down.
use ism.Prelude.{
  ℕ, ◌+◌, Bool, true, false, not, ◌==◌, ◌&&◌, if◌then◌else◌, some, none, Bytes, [], ◌∷◌,
}
use ism.Stream.Phases.{skip}
use ism.Worker.{QuestionCheck}
use ism.Adapter.{adapter_init}
use ism.Queue.{Event, queue_init}
use ism.Runtime.{
  Api, Runtime, World, Status, StreamEvent, receive, single_host, runtime_stream_init,
  bind_msquic_stream, stream_callback,
}
use ism.Connections.{is_success}
use ism.Smoke.{bytes_of, all_hold}

-- MsQuic is the count of the shutdowns.
abbrev smoke_protocol_shutdown : ℕ → ℕ → ℕ → ℕ
smoke_protocol_shutdown count connection error =
    if connection == 99 && error == 2 then count + 1 else count

abbrev shutdown_api : Api ℕ
shutdown_api = record { stream_send = none; connection_shutdown = some smoke_protocol_shutdown }

abbrev pub CountWorld : Type 0
CountWorld = World (Runtime ℕ × ℕ)

-- A scenario begins anew but for the count; `memory` is what the arrays held.
abbrev scenario_world : (ℕ → Event) → Bytes → ℕ → CountWorld
scenario_world events memory count = record {
  heap = λ p. memory;
  queue = queue_init true events 1;
  adapter = adapter_init (some memory) 64 (some memory) 64 false;
  state = (
    record (bind_msquic_stream (runtime_stream_init true true 4 (some 0) 64) (some shutdown_api)
        98) { connection = 99 },
    count,
  );
}

-- The query with this first byte of its DNS ID, and one byte after its end.
abbrev query : ℕ → Bytes
query id_hi =
    bytes_of
      (0 ∷ 17 ∷ id_hi ∷ 0 ∷ 1 ∷ 0 ∷ 0 ∷ 1 ∷ 0 ∷ 0 ∷ 0 ∷ 0 ∷ 0 ∷ 0 ∷ 0 ∷ 0 ∷ 1 ∷ 0 ∷ 1 ∷ 0xff ∷ [])

abbrev received : Bytes → ℕ → Bool → StreamEvent
received bytes len fin = receive (some ((some bytes, len) ∷ [])) fin

-- The callback fails and the connection has been shut down once more.
abbrev fails : CountWorld × Status → ℕ → Bool
fails (w, status) shutdowns = not (is_success status) && w.state.1 == shutdowns

unfoldable pub smoke_protocol_errors : QuestionCheck → (ℕ → Event) → Bytes → Bool
smoke_protocol_errors check_question events memory =
    let early =
      stream_callback single_host check_question (scenario_world events memory 0)
        (received (query 0) 10 true) in
    let identified =
      stream_callback single_host check_question (scenario_world events memory early.0.state.1)
        (received (query 1) 19 true) in
    let long =
      stream_callback single_host check_question (scenario_world events memory identified.0.state.1)
        (received (query 0) 20 true) in
    let (w, status) =
      stream_callback single_host check_question (scenario_world events memory long.0.state.1)
        (received (query 0) 19 false) in
    let trailing =
      stream_callback single_host check_question w (received (skip 19 (query 0)) 1 true) in
    all_hold (
      fails early 1 ∷ fails identified 2 ∷ fails long 3 ∷ is_success status ∷ fails trailing 4 ∷ [])
