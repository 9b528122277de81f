-- ===== src/Runtime.antt =====
-- The MsQuic runtime of one stream: shell/msquic_runtime.c over the struct of
-- shell/msquic_runtime.h, with MsQuic enabled. The functions of the API table are parameters over
-- the state `T` of MsQuic. The adapter's send callback may be the runtime's own or that of the
-- connection that the stream belongs to: see `Host`.
pub mod Laws
pub mod Sending
pub mod Errors
pub mod Steps
pub mod Requests
pub mod Answers
pub mod Closing
use ism.Prelude.{
  ℕ, ◌+◌, Bool, true, false, not, ltb, ◌==◌, ◌&&◌, ◌||◌, if◌then◌else◌, Option, none, some, Bytes,
  List, [], ◌∷◌, update, copy_bytes,
}
use ism.Worker.{QuestionCheck}
use ism.Adapter.{Adapter, Send}
use ism.Queue.{
  Queue, enqueue_authenticated_stream_bytes, enqueue_authenticated_stream_fin,
  enqueue_send_complete, enqueue_stream_reset,
}
use ism.Queue.Dispatch.{Heap, dispatch_one}

-- The two functions of `QUIC_API_TABLE` that a stream calls, `none` for NULL: the stream's handle,
-- the bytes, their number and FIN, with the answer whether the status is a success; and the
-- connection's handle and the error code.
pub record Api (T : Type 0) : Type 0 where
  pub stream_send : Option (T → ℕ → Bytes → ℕ → Bool → T × Bool)
  pub connection_shutdown : Option (T → ℕ → ℕ → T)

-- `ism_msquic_runtime_stream`; `response_len` is that of the send context, a handle of 0 is none.
pub record Runtime (T : Type 0) : Type 0 where
  pub has_adapter : Bool
  pub has_queue : Bool
  pub stream_id : ℕ
  pub ingress_buffer : Option ℕ
  pub ingress_capacity : ℕ
  pub received_fin : Bool
  pub api : Option (Api T)
  pub stream : ℕ
  pub connection : ℕ
  pub send_buffer : Option Bytes
  pub send_length : ℕ
  pub response_len : ℕ
  pub send_in_flight : Bool
  pub reset_pending : Bool

-- What the runtime's pointers reach; `state` is what the context of the adapter's send callback
-- points to, in which the runtime stands.
pub record World (S : Type 0) : Type 0 where
  pub heap : Heap
  pub queue : Queue
  pub adapter : Adapter
  pub state : S

-- How a runtime stands in the state of the send callback: alone, or in a slot of a connection.
pub record Host (S T : Type 0) : Type 0 where
  pub send : Send S
  pub get : S → Runtime T
  pub set : S → Runtime T → S
  pub on_msquic : S → (T → T) → S

unfoldable pub runtime_stream_init : {T : Type 0} → Bool → Bool → ℕ → Option ℕ → ℕ → Runtime T
runtime_stream_init has_adapter has_queue stream_id ingress_buffer ingress_capacity = record {
  has_adapter = has_adapter;
  has_queue = has_queue;
  stream_id = stream_id;
  ingress_buffer = ingress_buffer;
  ingress_capacity = ingress_capacity;
  received_fin = false;
  api = none;
  stream = 0;
  connection = 0;
  send_buffer = none;
  send_length = 0;
  response_len = 0;
  send_in_flight = false;
  reset_pending = false;
}

unfoldable pub bind_msquic_stream : {T : Type 0} → Runtime T → Option (Api T) → ℕ → Runtime T
bind_msquic_stream r api stream = record r { api = api; stream = stream }

abbrev pub clear_runtime_send : {T : Type 0} → Runtime T → Runtime T
clear_runtime_send r = record r {
  send_buffer = none;
  send_length = 0;
  response_len = 0;
  send_in_flight = false;
  reset_pending = false;
}

abbrev pub mark_runtime_send : {T : Type 0} → Runtime T → Bytes → ℕ → Runtime T
mark_runtime_send r bytes len = record r {
  send_buffer = some bytes;
  send_length = len;
  response_len = len;
  send_in_flight = true;
  reset_pending = false;
}

-- `StreamSend` of the bound API, where there is one.
abbrev pub stream_send_of :
    {T : Type 0} → Option (Api T) → Option (T → ℕ → Bytes → ℕ → Bool → T × Bool)
stream_send_of none = none
stream_send_of (some api) = api.stream_send

-- A send that MsQuic refuses leaves no trace in the runtime.
abbrev pub sent : {T : Type 0} → Runtime T → T × Bool → (Runtime T × T) × Bool
sent r (t, true) = ((r, t), true)
sent r (t, false) = ((clear_runtime_send r, t), false)

unfoldable pub runtime_send : {T : Type 0} → Send (Runtime T × T)
runtime_send (r, t) id bytes len fin = elim (stream_send_of r.api) [
  | none ↦ ((r, t), false)
  | some stream_send ↦
      if r.stream == 0 || (not (r.stream_id == id) || (len == 0 || r.send_in_flight))
      then ((r, t), false)
      else sent (mark_runtime_send r bytes len) (stream_send t r.stream bytes len fin)
]

-- The runtime of a stream that is bound alone, whose own send is the callback.
abbrev pub single_host : {T : Type 0} → Host (Runtime T × T) T
single_host = record {
  send = runtime_send;
  get = λ s. s.0;
  set = λ s r. (r, s.1);
  on_msquic = λ s f. (s.0, f s.1);
}

abbrev pub runtime_of : {S T : Type 0} → Host S T → World S → Runtime T
runtime_of host w = host.get w.state

abbrev pub with_runtime : {S T : Type 0} → Host S T → World S → Runtime T → World S
with_runtime host w r = record w { state = host.set w.state r }

module _ {S T : Type 0} (host : Host S T) (check_question : QuestionCheck) where
  -- What one dispatch leaves behind.
  abbrev pub settled : World S → Bool × Queue × Adapter × S → World S × Bool
  settled w (ok, q, a, s) = (record w { queue = q; adapter = a; state = s }, ok)

  -- The answer of an enqueue, and the dispatch that follows if it took the event.
  abbrev pub then_dispatch : World S → Queue × Bool → World S × Bool
  then_dispatch w (q, false) = (record w { queue = q }, false)
  then_dispatch w (q, true) =
      if (runtime_of host w).has_adapter
      then settled w (dispatch_one check_question host.send w.heap q w.adapter w.state)
      else (record w { queue = q }, false)

  abbrev pub is_attached : World S → Bool
  is_attached w = (runtime_of host w).has_adapter && (runtime_of host w).has_queue

  unfoldable pub runtime_on_send_complete : World S → ℕ → Bool → World S × Bool
  runtime_on_send_complete w len dropped =
      if is_attached w
      then then_dispatch w (enqueue_send_complete w.queue (runtime_of host w).stream_id len dropped)
      else (w, false)

  unfoldable pub runtime_on_stream_reset : World S → World S × Bool
  runtime_on_stream_reset w =
      if is_attached w
      then then_dispatch w (enqueue_stream_reset w.queue (runtime_of host w).stream_id)
      else (w, false)

  -- The flag that FIN has been received is the answer of its dispatch.
  abbrev pub fin_received : World S × Bool → World S × Bool
  fin_received (w, ok) =
      (with_runtime host w (record (runtime_of host w) { received_fin = ok }), ok)

  unfoldable pub on_fin : World S → World S × Bool
  on_fin w =
      if not (is_attached w)
      then (w, false)
      else if (runtime_of host w).received_fin
      then (w, true)
      else if not (w.queue.count == 0)
      then (w, false)
      else fin_received
          (then_dispatch w (enqueue_authenticated_stream_fin w.queue (runtime_of host w).stream_id))

  -- `memcpy` into the ingress buffer at `p`.
  abbrev pub stored : World S → ℕ → Bytes → ℕ → World S
  stored w p bytes len = record w { heap = update w.heap p (copy_bytes bytes 0 (w.heap p) 0 len) }

  -- Both buffers are there. A NULL queue has no events, and refuses one.
  abbrev pub copy_to : World S → ℕ → Bytes → ℕ → World S × Bool
  copy_to w p bytes len =
      if ltb (runtime_of host w).ingress_capacity len
        || ((runtime_of host w).has_queue && not (w.queue.count == 0)
            || (runtime_of host w).received_fin && ltb 0 len)
      then (w, false)
      else if (runtime_of host w).has_queue
      then then_dispatch (stored w p bytes len)
          (enqueue_authenticated_stream_bytes w.queue (runtime_of host w).stream_id (some p) len)
      else (stored w p bytes len, false)

  abbrev pub copy_input : World S → ℕ → Option Bytes → ℕ → World S × Bool
  copy_input w p none len = (w, false)
  copy_input w p (some bytes) len = copy_to w p bytes len

  unfoldable pub copy_enqueue_and_dispatch : World S → Option Bytes → ℕ → World S × Bool
  copy_enqueue_and_dispatch w input len = elim (runtime_of host w).ingress_buffer [
    | none ↦ (w, false)
    | some p ↦ copy_input w p input len
  ]

  -- The buffers of one receive, in order; the first that fails ends it. An empty one is skipped.
  unfoldable pub receive_buffers : World S → List (Option Bytes × ℕ) → World S × Bool
  receive_buffers w [] = (w, true)
  receive_buffers w ((input, len) ∷ buffers) =
      let (w', ok) = copy_enqueue_and_dispatch w input len in
      let rest = receive_buffers w' buffers in
      let skipped = receive_buffers w buffers in
      if len == 0 then skipped else if ok then rest else (w', false)

  -- `none` is a NULL array with a count above 0.
  unfoldable pub on_receive : World S → Option (List (Option Bytes × ℕ)) → World S × Bool
  on_receive w buffers = elim buffers [
    | none ↦ (w, false)
    | some bs ↦ if is_attached w then receive_buffers w bs else (w, false)
  ]

  abbrev pub with_fin : Bool → World S × Bool → World S × Bool
  with_fin fin (w, false) = (w, false)
  with_fin true (w, true) = on_fin w
  with_fin false (w, true) = (w, true)

  unfoldable pub on_msquic_receive :
      World S → Option (List (Option Bytes × ℕ)) → Bool → World S × Bool
  on_msquic_receive w buffers fin = elim buffers [
    | none ↦ (w, false)
    | some bs ↦ with_fin fin (receive_buffers w bs)
  ]

-- `QUIC_STATUS`: those that the callbacks answer, and any other that MsQuic returns.
pub data Status : Type 0 where
  success invalid_parameter invalid_state : Status
  failed_status : ℕ → Status

-- `QUIC_STREAM_EVENT`: a receive has its buffers and its FIN flag, a completion whether its
-- context is the runtime's own and whether it was cancelled; `aborted` are the two peer aborts.
pub data StreamEvent : Type 0 where
  start_complete : ℕ → StreamEvent
  receive : Option (List (Option Bytes × ℕ)) → Bool → StreamEvent
  peer_send_shutdown : StreamEvent
  msquic_send_complete : Bool → Bool → StreamEvent
  aborted : StreamEvent
  shutdown_complete : StreamEvent
  other_event : StreamEvent

abbrev pub shutdown_of : {T : Type 0} → Option (Api T) → Option (T → ℕ → ℕ → T)
shutdown_of none = none
shutdown_of (some api) = api.connection_shutdown

-- The connection is shut down with `DOQ_PROTOCOL_ERROR`.
unfoldable pub protocol_error : {S T : Type 0} → Host S T → World S → World S × Status
protocol_error host w = elim (shutdown_of (runtime_of host w).api) [
  | none ↦ (w, invalid_state)
  | some shutdown ↦ if (runtime_of host w).connection == 0 then (w, invalid_state) else (
    record w { state = host.on_msquic w.state (λ t. shutdown t (runtime_of host w).connection 2) },
    invalid_state,
  )
]

abbrev pub or_protocol_error : {S T : Type 0} → Host S T → World S × Bool → World S × Status
or_protocol_error host (w, true) = (w, success)
or_protocol_error host (w, false) = protocol_error host w

abbrev pub or_invalid_state : {S : Type 0} → World S × Bool → World S × Status
or_invalid_state (w, true) = (w, success)
or_invalid_state (w, false) = (w, invalid_state)

module _ {S T : Type 0} (host : Host S T) (check_question : QuestionCheck) where
  -- The runtime's send is cleared before the adapter is told.
  abbrev pub finish_send : World S → Bool → World S × Status
  finish_send w canceled =
      let w' = with_runtime host w (clear_runtime_send (runtime_of host w)) in
      if w.adapter.send_in_flight
      then or_invalid_state (
          runtime_on_send_complete host check_question w' (runtime_of host w).response_len
            (canceled || (runtime_of host w).reset_pending))
      else (w', success)

  -- While a send is in flight the reset waits for its completion.
  abbrev pub on_abort : World S → World S × Status
  on_abort w =
      if (runtime_of host w).send_in_flight
      then (with_runtime host w (record (runtime_of host w) { reset_pending = true }), success)
      else or_invalid_state (runtime_on_stream_reset host check_question w)

  -- The source reads the adapter on a completion without a test for NULL.
  unfoldable pub stream_callback : World S → StreamEvent → World S × Status
  stream_callback w (start_complete id) =
      (with_runtime host w (record (runtime_of host w) { stream_id = id }), success)
  stream_callback w (receive buffers fin) =
      or_protocol_error host (on_msquic_receive host check_question w buffers fin)
  stream_callback w peer_send_shutdown = or_protocol_error host (on_fin host check_question w)
  stream_callback w (msquic_send_complete own canceled) =
      if not own || not (runtime_of host w).send_in_flight
      then (w, invalid_parameter)
      else finish_send w canceled
  stream_callback w aborted = on_abort w
  stream_callback w shutdown_complete = on_abort w
  stream_callback w other_event = (w, success)
