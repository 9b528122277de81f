-- ===== src/Connections.antt =====
-- The MsQuic connection runtime: shell/msquic_connection_runtime.c over the structs of
-- shell/msquic_connection_runtime.h. The functions of the API table are parameters over the state
-- `T` of MsQuic. The adapter's send callback is the connection's, and a stream's runtime stands in
-- its slot.
pub mod Slots
pub mod Bound
pub mod Reach
pub mod Choices
pub mod Leaks
pub mod Requests
pub mod Places
pub mod Landing
pub mod Aborts
pub mod Life
pub mod Opening
pub mod Visits
use ism.Prelude.{
  ℕ, zero, suc, ◌+◌, Bool, true, false, not, ltb, ◌==◌, ◌&&◌, ◌||◌, if◌then◌else◌, Option, none,
  some, Bytes, update, first_from,
}
use ism.Worker.{QuestionCheck}
use ism.Runtime.{
  Api, Runtime, World, Host, StreamEvent, shutdown_complete, Status, success, invalid_parameter,
  invalid_state, runtime_stream_init, bind_msquic_stream, runtime_send, stream_callback,
}

-- The callbacks that a handle can be given, with their contexts: the connection runtime, or the
-- slot with this index.
pub data Callback : Type 0 where
  connection_handler : Callback
  slot_handler : ℕ → Callback

-- The functions of `QUIC_API_TABLE` that a connection calls besides those of its streams.
-- `get_stream_id` is `GetParam`: `none` for a failure, else the ID and its reported size. Only
-- `connection_close` is tested for NULL.
pub record ConnectionApi (T : Type 0) : Type 0 where
  pub of_streams : Api T
  pub stream_close : T → ℕ → T
  pub get_stream_id : T → ℕ → Option (ℕ × ℕ)
  pub set_callback_handler : T → ℕ → Callback → T
  pub set_configuration : T → ℕ → ℕ → T × Status
  pub connection_close : Option (T → ℕ → T)

-- `ism_msquic_connection_stream_slot`.
pub record StreamSlot (T : Type 0) : Type 0 where
  pub runtime : Runtime T
  pub slot_api : Option (ConnectionApi T)
  pub ingress_buffer : Option ℕ
  pub ingress_capacity : ℕ
  pub stream : ℕ
  pub in_use : Bool

-- `ism_msquic_connection_runtime`, with the slots that it points to.
pub record ConnectionRuntime (T : Type 0) : Type 0 where
  pub connection_api : Option (ConnectionApi T)
  pub configuration : ℕ
  pub has_adapter : Bool
  pub has_queue : Bool
  pub has_slots : Bool
  pub stream_slots : ℕ → StreamSlot T
  pub stream_slot_count : ℕ

unfoldable pub stream_slot_init : {T : Type 0} → Option ℕ → ℕ → StreamSlot T
stream_slot_init ingress_buffer ingress_capacity = record {
  runtime = runtime_stream_init false false 0 none 0;
  slot_api = none;
  ingress_buffer = ingress_buffer;
  ingress_capacity = ingress_capacity;
  stream = 0;
  in_use = false;
}

unfoldable pub connection_runtime_init :
    {T : Type 0}
    → Option (ConnectionApi T)
    → ℕ
    → Bool
    → Bool
    → Bool
    → (ℕ → StreamSlot T)
    → ℕ
    → ConnectionRuntime T
connection_runtime_init api configuration has_adapter has_queue has_slots slots count = record {
  connection_api = api;
  configuration = configuration;
  has_adapter = has_adapter;
  has_queue = has_queue;
  has_slots = has_slots;
  stream_slots = slots;
  stream_slot_count = count;
}

abbrev pub serves : {T : Type 0} → (ℕ → StreamSlot T) → ℕ → ℕ → Bool
serves slots id i = (slots i).in_use && (slots i).runtime.stream_id == id

abbrev pub slot_sent :
    {T : Type 0}
    → ConnectionRuntime T
    → ℕ
    → (Runtime T × T) × Bool
    → (ConnectionRuntime T × T) × Bool
slot_sent c i ((r, t), ok) = (
  (
    record c { stream_slots = update c.stream_slots i (record (c.stream_slots i) { runtime = r }) },
    t,
  ),
  ok,
)

unfoldable pub connection_runtime_send :
    {T : Type 0} → ConnectionRuntime T × T → ℕ → Bytes → ℕ → Bool → (ConnectionRuntime T × T) × Bool
connection_runtime_send (c, t) id bytes len fin =
    if not c.has_slots
    then ((c, t), false)
    else elim (first_from (serves c.stream_slots id) c.stream_slot_count 0) [
      | none ↦ ((c, t), false)
      | some i ↦ slot_sent c i (runtime_send ((c.stream_slots i).runtime, t) id bytes len fin)
    ]

-- MsQuic after the stream of a slot has been closed, where it has one.
abbrev pub close_slot_stream : {T : Type 0} → StreamSlot T → T → T
close_slot_stream s t = elim s.slot_api [
  | none ↦ t
  | some api ↦ if s.stream == 0 then t else api.stream_close t s.stream
]

unfoldable pub release_slot : {T : Type 0} → StreamSlot T → T → StreamSlot T × T
release_slot s t = (
  record s {
    slot_api = none;
    stream = 0;
    in_use = false;
    runtime = runtime_stream_init false false 0 s.ingress_buffer s.ingress_capacity;
  },
  close_slot_stream s t,
)

abbrev pub is_some : Option ℕ → Bool
is_some none = false
is_some (some p) = true

-- The slot is free and has an ingress buffer.
abbrev pub is_free : {T : Type 0} → (ℕ → StreamSlot T) → ℕ → Bool
is_free slots i =
    not (slots i).in_use && (is_some (slots i).ingress_buffer && ltb 0 (slots i).ingress_capacity)

abbrev pub taken_slot :
    {T : Type 0} → ConnectionRuntime T → ConnectionApi T → ℕ → ℕ → ℕ → ConnectionRuntime T
taken_slot c api stream id i =
    let s = c.stream_slots i in
    record c {
      stream_slots = update c.stream_slots i (record s {
        runtime =
            bind_msquic_stream
              (runtime_stream_init c.has_adapter c.has_queue id s.ingress_buffer s.ingress_capacity)
              (some api.of_streams) stream;
        slot_api = some api;
        stream = stream;
        in_use = true;
      });
    }

abbrev pub allocate_with :
    {T : Type 0}
    → ConnectionRuntime T
    → ConnectionApi T
    → ℕ
    → Option (ℕ × ℕ)
    → ConnectionRuntime T × Option ℕ
allocate_with c api stream none = (c, none)
allocate_with c api stream (some (id, size)) =
    if not (size == 8)
    then (c, none)
    else elim (first_from (is_free c.stream_slots) c.stream_slot_count 0) [
      | none ↦ (c, none)
      | some i ↦ (taken_slot c api stream id i, some i)
    ]

unfoldable pub allocate_slot :
    {T : Type 0} → ConnectionRuntime T → T → ℕ → ConnectionRuntime T × Option ℕ
allocate_slot c t stream = elim c.connection_api [
  | none ↦ (c, none)
  | some api ↦
      if stream == 0 then (c, none) else allocate_with c api stream (api.get_stream_id t stream)
]

-- The runtime in slot `i` of a connection, whose adapter sends by the connection.
abbrev pub put_runtime : {T : Type 0} → ConnectionRuntime T → ℕ → Runtime T → ConnectionRuntime T
put_runtime c i r = record c {
  stream_slots = update c.stream_slots i (record (c.stream_slots i) { runtime = r });
}

abbrev pub slot_host : {T : Type 0} → ℕ → Host (ConnectionRuntime T × T) T
slot_host i = record {
  send = connection_runtime_send;
  get = λ s. (s.0.stream_slots i).runtime;
  set = λ s r. (put_runtime s.0 i r, s.1);
  on_msquic = λ s f. (s.0, f s.1);
}

-- The state after slot `i` has been released.
abbrev pub released : {T : Type 0} → ConnectionRuntime T × T → ℕ → ConnectionRuntime T × T
released (c, t) i =
    let (s, t') = release_slot (c.stream_slots i) t in
    (record c { stream_slots = update c.stream_slots i s }, t')

abbrev pub is_shutdown : StreamEvent → Bool
is_shutdown shutdown_complete = true
is_shutdown _ = false

abbrev pub is_success : Status → Bool
is_success success = true
is_success _ = false

-- A slot whose stream has been shut down is released, unless the runtime's callback failed.
abbrev pub release_after :
    {T : Type 0}
    → ℕ
    → StreamEvent
    → World (ConnectionRuntime T × T) × Status
    → World (ConnectionRuntime T × T) × Status
release_after i event (w, status) =
    if is_success status && is_shutdown event
    then (record w { state = released w.state i }, status)
    else (w, status)

unfoldable pub slot_callback :
    {T : Type 0}
    → QuestionCheck
    → ℕ
    → World (ConnectionRuntime T × T)
    → StreamEvent
    → World (ConnectionRuntime T × T) × Status
slot_callback check_question i w event =
    release_after i event (stream_callback (slot_host i) check_question w event)

unfoldable pub accept_connection : {T : Type 0} → ConnectionRuntime T → T → ℕ → T × Status
accept_connection c t connection = elim c.connection_api [
  | none ↦ (t, invalid_parameter)
  | some api ↦
      if c.configuration == 0 || connection == 0
      then (t, invalid_parameter)
      else api.set_configuration (api.set_callback_handler t connection connection_handler)
          connection c.configuration
]

-- `QUIC_LISTENER_EVENT`.
pub data ListenerEvent : Type 0 where
  new_connection : ℕ → ListenerEvent
  other_listener_event : ListenerEvent

abbrev pub listen : {T : Type 0} → ConnectionRuntime T → T → ListenerEvent → T × Status
listen c t (new_connection connection) = accept_connection c t connection
listen c t other_listener_event = (t, success)

unfoldable pub listener_callback :
    {T : Type 0} → ConnectionRuntime T → T → ListenerEvent → T × Status
listener_callback c t event = elim c.connection_api [
  | none ↦ (t, invalid_parameter)
  | some api ↦ listen c t event
]

-- `QUIC_CONNECTION_EVENT`.
pub data ConnectionEvent : Type 0 where
  peer_stream_started : ℕ → ConnectionEvent
  connection_shutdown_complete : ConnectionEvent
  other_connection_event : ConnectionEvent

-- The stream has its slot, or is closed again without one.
abbrev pub started :
    {T : Type 0}
    → ConnectionApi T
    → T
    → ℕ
    → ℕ
    → ConnectionRuntime T × Option ℕ
    → (ConnectionRuntime T × T) × Status
started api t connection stream (c, none) =
    ((c, if stream == 0 then t else api.stream_close t stream), invalid_state)
started api t connection stream (c, some i) = (
  (
    put_runtime c i (record (c.stream_slots i).runtime { connection = connection }),
    api.set_callback_handler t stream (slot_handler i),
  ),
  success,
)

abbrev pub close_connection : {T : Type 0} → ConnectionApi T → T → ℕ → T
close_connection api t connection = elim api.connection_close [
  | none ↦ t
  | some close ↦ if connection == 0 then t else close t connection
]

abbrev pub on_connection_event :
    {T : Type 0}
    → ConnectionApi T
    → ConnectionRuntime T × T
    → ℕ
    → ConnectionEvent
    → (ConnectionRuntime T × T) × Status
on_connection_event api (c, t) connection (peer_stream_started stream) =
    started api t connection stream (allocate_slot c t stream)
on_connection_event api (c, t) connection connection_shutdown_complete =
    ((c, close_connection api t connection), success)
on_connection_event api (c, t) connection other_connection_event = ((c, t), success)

unfoldable pub connection_callback :
    {T : Type 0}
    → ConnectionRuntime T × T
    → ℕ
    → ConnectionEvent
    → (ConnectionRuntime T × T) × Status
connection_callback s connection event = elim s.0.connection_api [
  | none ↦ (s, invalid_parameter)
  | some api ↦ on_connection_event api s connection event
]
