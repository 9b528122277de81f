-- ===== src/Smoke/Connections.antt =====
-- shell/msquic_connection_smoke.c. The program's count of the `GetParam` calls is left out: the
-- call is a function of MsQuic's state here. `ProtocolErrors` has its last part.
pub mod ProtocolErrors
use ism.Prelude.{
  ℕ, ◌+◌, Bool, true, false, not, leb, ◌==◌, ◌&&◌, ◌||◌, if◌then◌else◌, Option, some, none, Bytes,
  List, [], ◌∷◌, update,
}
use ism.Worker.{QuestionCheck}
use ism.Adapter.{Adapter, adapter_init}
use ism.Queue.{Event, queue_init}
use ism.Runtime.{
  World, Status, success, invalid_parameter, invalid_state, StreamEvent, receive,
  msquic_send_complete, aborted, shutdown_complete,
}
use ism.Connections.{
  Callback, connection_handler, slot_handler, ConnectionApi, ConnectionRuntime, stream_slot_init,
  connection_runtime_init, is_success, slot_callback, listener_callback, new_connection,
  ConnectionEvent, peer_stream_started, connection_shutdown_complete, connection_callback,
}
use ism.Smoke.{
  exact_a_query, expected_validated_stream_response, zero_bytes, agrees, buffer_agrees, all_hold,
}
use ism.Smoke.Connections.ProtocolErrors.{smoke_protocol_errors}

-- `ism_msquic_connection_smoke_state`; a handler stands for its function and its context, and the
-- sent bytes for the buffer.
pub record SmokeState : Type 0 where
  pub connection : ℕ
  pub configuration : ℕ
  pub stream : ℕ
  pub closed_connections : ℕ → ℕ
  pub closed_streams : ℕ → ℕ
  pub closed_connection_count : ℕ
  pub closed_stream_count : ℕ
  pub set_callback_count : ℕ
  pub set_configuration_count : ℕ
  pub stream_id_len : ℕ
  pub stream_id : ℕ
  pub of_connection : Option Callback
  pub of_stream : Option Callback
  pub sent_bytes : Bytes
  pub sent_length : ℕ
  pub sent_fin : Bool
  pub stream_send_count : ℕ
  pub get_param_should_fail : Bool

abbrev smoke_set_callback_handler : SmokeState → ℕ → Callback → SmokeState
smoke_set_callback_handler t handle callback =
    let counted = record t { set_callback_count = t.set_callback_count + 1 } in
    if handle == t.connection
    then record counted { of_connection = some callback }
    else if handle == t.stream
    then record counted { of_stream = some callback }
    else counted

abbrev smoke_get_param : SmokeState → ℕ → Option (ℕ × ℕ)
smoke_get_param t handle =
    if not (handle == t.stream) || t.get_param_should_fail
    then none
    else some (t.stream_id, t.stream_id_len)

abbrev smoke_connection_set_configuration : SmokeState → ℕ → ℕ → SmokeState × Status
smoke_connection_set_configuration t connection configuration =
    if not (connection == t.connection) || not (configuration == t.configuration)
    then (t, invalid_parameter)
    else (record t { set_configuration_count = t.set_configuration_count + 1 }, success)

abbrev smoke_connection_close : SmokeState → ℕ → SmokeState
smoke_connection_close t connection = if leb 2 t.closed_connection_count then t else record t {
  closed_connections = update t.closed_connections t.closed_connection_count connection;
  closed_connection_count = t.closed_connection_count + 1;
}

abbrev smoke_stream_close : SmokeState → ℕ → SmokeState
smoke_stream_close t stream = if leb 4 t.closed_stream_count then t else record t {
  closed_streams = update t.closed_streams t.closed_stream_count stream;
  closed_stream_count = t.closed_stream_count + 1;
}

abbrev smoke_stream_send : SmokeState → ℕ → Bytes → ℕ → Bool → SmokeState × Bool
smoke_stream_send t stream bytes len fin =
    if not (stream == t.stream) || len == 0 then (t, false) else (
      record t {
        sent_bytes = bytes;
        sent_length = len;
        sent_fin = fin;
        stream_send_count = t.stream_send_count + 1;
      },
      true,
    )

abbrev smoke_api : ConnectionApi SmokeState
smoke_api = record {
  of_streams = record { stream_send = some smoke_stream_send; connection_shutdown = none };
  stream_close = smoke_stream_close;
  get_stream_id = smoke_get_param;
  set_callback_handler = smoke_set_callback_handler;
  set_configuration = smoke_connection_set_configuration;
  connection_close = some smoke_connection_close;
}

abbrev initial_state : SmokeState
initial_state = record {
  connection = 1;
  configuration = 2;
  stream = 3;
  closed_connections = zero_bytes;
  closed_streams = zero_bytes;
  closed_connection_count = 0;
  closed_stream_count = 0;
  set_callback_count = 0;
  set_configuration_count = 0;
  stream_id_len = 8;
  stream_id = 41;
  of_connection = none;
  of_stream = none;
  sent_bytes = zero_bytes;
  sent_length = 0;
  sent_fin = false;
  stream_send_count = 0;
  get_param_should_fail = false;
}

abbrev pub SmokeWorld : Type 0
SmokeWorld = World (ConnectionRuntime SmokeState × SmokeState)

-- The adapter, the queue of two events, and the connection with its one slot.
abbrev initial_world : (ℕ → Event) → SmokeWorld
initial_world events = record {
  heap = λ p. zero_bytes;
  queue = queue_init true events 2;
  adapter = adapter_init (some zero_bytes) 128 (some zero_bytes) 128 true;
  state = (
    connection_runtime_init (some smoke_api) 2 true true true (λ i. stream_slot_init (some 0) 64) 1,
    initial_state,
  );
}

-- The connection's handler and the slot's, which the program calls by the state's pointers.
abbrev on_connection : SmokeWorld → ConnectionEvent → SmokeWorld × Status
on_connection w event =
    let (s, status) = connection_callback w.state w.state.1.connection event in
    (record w { state = s }, status)

abbrev on_slot : QuestionCheck → SmokeWorld → StreamEvent → SmokeWorld × Status
on_slot check_question w event = slot_callback check_question 0 w event

abbrev is_connection_handler : Option Callback → Bool
is_connection_handler (some connection_handler) = true
is_connection_handler _ = false

abbrev is_slot_handler : Option Callback → Bool
is_slot_handler (some (slot_handler i)) = i == 0
is_slot_handler _ = false

abbrev is_api : Option (ConnectionApi SmokeState) → Bool
is_api none = false
is_api (some api) = true

abbrev is_ingress : Option ℕ → Bool
is_ingress none = false
is_ingress (some p) = p == 0

abbrev is_invalid_state : Status → Bool
is_invalid_state invalid_state = true
is_invalid_state _ = false

abbrev query_event : StreamEvent
query_event = receive (some ((some exact_a_query, 35) ∷ [])) true

-- The program's next stream, its ID, and whether the slot is in use.
abbrev next_stream : SmokeWorld → ℕ → ℕ → SmokeWorld
next_stream w stream id = record w {
  state = (w.state.0, record w.state.1 { stream = stream; stream_id = id });
}

abbrev with_in_use : SmokeWorld → Bool → SmokeWorld
with_in_use w b = record w {
  state = (
    record w.state.0 {
      stream_slots =
          update w.state.0.stream_slots 0 (record (w.state.0.stream_slots 0) { in_use = b });
    },
    w.state.1,
  );
}

-- The listener takes the connection, and the connection its stream.
unfoldable pub smoke_accept : (ℕ → Event) → SmokeWorld × Bool
smoke_accept events =
    let w0 = initial_world events in
    let (t1, accepted) = listener_callback w0.state.0 w0.state.1 (new_connection 1) in
    let (w2, started) =
      on_connection (record w0 { state = (w0.state.0, t1) }) (peer_stream_started 3) in
    let slot = w2.state.0.stream_slots 0 in
    (
      w2,
      all_hold (
          is_success accepted
          ∷ (t1.set_callback_count == 1)
          ∷ is_connection_handler t1.of_connection
          ∷ (t1.set_configuration_count == 1)
          ∷ is_success started
          ∷ (w2.state.1.set_callback_count == 2)
          ∷ is_slot_handler w2.state.1.of_stream
          ∷ slot.in_use
          ∷ is_api slot.slot_api
          ∷ (slot.stream == 3)
          ∷ slot.runtime.has_adapter
          ∷ slot.runtime.has_queue
          ∷ (slot.runtime.stream_id == 41)
          ∷ is_ingress slot.runtime.ingress_buffer
          ∷ (slot.runtime.ingress_capacity == 64)
          ∷ []),
    )

-- The query is answered by `StreamSend`, the send completed, and the stream shut down.
unfoldable pub smoke_first_stream : QuestionCheck → SmokeWorld → SmokeWorld × Bool
smoke_first_stream check_question w0 =
    let (w1, received) = on_slot check_question w0 query_event in
    let (w2, completed) = on_slot check_question w1 (msquic_send_complete true false) in
    let (w3, shut) = on_slot check_question w2 shutdown_complete in
    (
      w3,
      all_hold (
          is_success received
          ∷ (w1.state.1.stream_send_count == 1)
          ∷ (w1.state.1.sent_length == 35)
          ∷ agrees w1.state.1.sent_bytes expected_validated_stream_response 35
          ∷ w1.state.1.sent_fin
          ∷ (w1.state.0.stream_slots 0).runtime.send_in_flight
          ∷ w1.adapter.send_in_flight
          ∷ buffer_agrees w1.adapter.send_buffer expected_validated_stream_response 35
          ∷ is_success completed
          ∷ not (w2.state.0.stream_slots 0).runtime.send_in_flight
          ∷ not w2.adapter.send_in_flight
          ∷ (w2.adapter.connection.num == 0)
          ∷ is_success shut
          ∷ not (w3.state.0.stream_slots 0).in_use
          ∷ ((w3.state.0.stream_slots 0).stream == 0)
          ∷ not (is_api (w3.state.0.stream_slots 0).slot_api)
          ∷ (w3.state.1.closed_stream_count == 1)
          ∷ (w3.state.1.closed_streams 0 == 3)
          ∷ []),
    )

-- A second stream is aborted while its response is in flight: the reset waits for the completion.
unfoldable pub smoke_second_stream : QuestionCheck → SmokeWorld → SmokeWorld × Bool
smoke_second_stream check_question w0 =
    let (w1, started) = on_connection (next_stream w0 7 43) (peer_stream_started 7) in
    let (w2, received) = on_slot check_question w1 query_event in
    let (w3, abort) = on_slot check_question w2 aborted in
    let (w4, completed) = on_slot check_question w3 (msquic_send_complete true true) in
    let (w5, shut) = on_slot check_question w4 shutdown_complete in
    (
      w5,
      all_hold (
          is_success started
          ∷ is_success received
          ∷ (w2.state.1.stream_send_count == 2)
          ∷ (w2.state.0.stream_slots 0).runtime.send_in_flight
          ∷ w2.adapter.send_in_flight
          ∷ (w2.adapter.connection.num == 1)
          ∷ is_success abort
          ∷ (w3.state.0.stream_slots 0).runtime.send_in_flight
          ∷ (w3.state.0.stream_slots 0).runtime.reset_pending
          ∷ w3.adapter.send_in_flight
          ∷ (w3.adapter.connection.num == 1)
          ∷ is_success completed
          ∷ not (w4.state.0.stream_slots 0).runtime.send_in_flight
          ∷ not (w4.state.0.stream_slots 0).runtime.reset_pending
          ∷ not w4.adapter.send_in_flight
          ∷ (w4.adapter.connection.num == 0)
          ∷ is_success shut
          ∷ not (w5.state.0.stream_slots 0).in_use
          ∷ (w5.state.1.closed_stream_count == 2)
          ∷ (w5.state.1.closed_streams 1 == 7)
          ∷ []),
    )

-- The connection is closed; a stream without a free slot, and one without an ID, are closed again.
unfoldable pub smoke_refusals : SmokeWorld → Bool
smoke_refusals w0 =
    let (w1, closed) = on_connection w0 connection_shutdown_complete in
    let (w2, full) =
      on_connection (with_in_use (next_stream w1 5 43) true) (peer_stream_started 5) in
    let w3 = with_in_use (next_stream w2 6 43) false in
    let w4 : SmokeWorld = record w3 {
      state = (w3.state.0, record w3.state.1 { get_param_should_fail = true });
    } in
    let (w5, untold) = on_connection w4 (peer_stream_started 6) in
    all_hold (
      is_success closed
      ∷ (w1.state.1.closed_connection_count == 1)
      ∷ (w1.state.1.closed_connections 0 == 1)
      ∷ is_invalid_state full
      ∷ (w2.state.1.closed_stream_count == 3)
      ∷ (w2.state.1.closed_streams 2 == 5)
      ∷ is_invalid_state untold
      ∷ (w5.state.1.closed_stream_count == 4)
      ∷ (w5.state.1.closed_streams 3 == 6)
      ∷ [])

-- `main`; `memory` is what the last part leaves uninitialised.
unfoldable pub smoke_main : QuestionCheck → (ℕ → Event) → Bytes → Bool
smoke_main check_question events memory =
    let (w1, accepted) = smoke_accept events in
    let (w2, answered) = smoke_first_stream check_question w1 in
    let (w3, canceled) = smoke_second_stream check_question w2 in
    all_hold (
      accepted
      ∷ answered
      ∷ canceled
      ∷ smoke_refusals w3
      ∷ smoke_protocol_errors check_question events memory
      ∷ [])
