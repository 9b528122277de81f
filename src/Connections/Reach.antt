-- ===== src/Connections/Reach.antt =====
-- A connection as a state machine: the callbacks of shell/msquic_connection_runtime.c are its
-- steps, in any order that MsQuic chooses, and its invariant holds in every state that they reach.
use ism.Prelude.{ℕ, ◌<◌, Bool, ◌&&◌, if_cases, Option}
use ism.Worker.{QuestionCheck}
use ism.Adapter.{Adapter}
use ism.Adapter.Completion
use ism.Queue.{Queue}
use ism.Queue.Fifo
use ism.Queue.Dispatch.{Heap}
use ism.Runtime.{World, Status, StreamEvent, stream_callback}
use ism.Runtime.Laws.{IsValid, IsOctetsEvent, stream_callback-IsValid}
use ism.Connections.{
  ConnectionApi, ConnectionRuntime, connection_runtime_init, stream_slot_init, slot_host,
  release_after, is_success, is_shutdown, slot_callback, ListenerEvent, listener_callback,
  ConnectionEvent, connection_callback,
}
use ism.Connections.Bound.{
  AllSound, slot_host-Keeps, stream_slot_init-IsSound, released-IsSound,
  connection_callback-IsSound,
}

abbrev pub ConnectionWorld : Type 0 → Type 0
ConnectionWorld T = World (ConnectionRuntime T × T)

-- The queue and the adapter are valid, the heap holds bytes, and every slot is sound.
abbrev pub IsSafe : {T : Type 0} → ConnectionWorld T → Type 0
IsSafe w = IsValid (λ s. AllSound s.0) w

-- One callback: MsQuic calls the listener, the connection or the stream of a slot, with octets in
-- the buffers of a receive.
pub data Step {T : Type 0} (check_question : QuestionCheck) (w : ConnectionWorld T)
    : ConnectionWorld T → Type 0 where
  on_listener :
      (event : ListenerEvent)
      → Step check_question w
          (record w { state = (w.state.0, (listener_callback w.state.0 w.state.1 event).0) })
  on_connection :
      (connection : ℕ) (event : ConnectionEvent)
      → Step check_question w
          (record w { state = (connection_callback w.state connection event).0 })
  on_stream :
      (i : ℕ) (event : StreamEvent)
      → IsOctetsEvent event
      → Step check_question w (slot_callback check_question i w event).0

pub data Reach {T : Type 0} (check_question : QuestionCheck) (w : ConnectionWorld T)
    : ConnectionWorld T → Type 0 where
  here : Reach check_question w w
  next :
      {u v : ConnectionWorld T}
      → Reach check_question w u
      → Step check_question u v
      → Reach check_question w v

release_after-IsSafe :
    {T : Type 0} (i : ℕ) (event : StreamEvent) (r : ConnectionWorld T × Status)
    → IsSafe r.0
    → IsSafe (release_after i event r).0
release_after-IsSafe {T} i event (w, status) v =
    if_cases (λ (r : ConnectionWorld T × Status). IsSafe r.0)
      (is_success status && is_shutdown event)
      (λ e. record {
        held = released-IsSound w.state i v.held;
        queued = v.queued;
        adapted = v.adapted;
        octets = v.octets;
      })
      (λ e. v)

-- The callback of a stream keeps the connection safe, and with it all other streams' slots.
pub slot_callback-IsSafe :
    {T : Type 0} (check_question : QuestionCheck) (i : ℕ) (w : ConnectionWorld T)
    (event : StreamEvent)
    → IsOctetsEvent event
    → IsSafe w
    → IsSafe (slot_callback check_question i w event).0
unfolding slot_callback
slot_callback-IsSafe check_question i w event o v =
    release_after-IsSafe i event (stream_callback (slot_host i) check_question w event) (
      stream_callback-IsValid (slot_host i) check_question (λ s. AllSound s.0) (slot_host-Keeps i) w
        event o v)

Step-IsSafe :
    {T : Type 0} {check_question : QuestionCheck} {w u : ConnectionWorld T}
    → Step check_question w u
    → IsSafe w
    → IsSafe u
Step-IsSafe (on_listener event) v = record {
  held = v.held;
  queued = v.queued;
  adapted = v.adapted;
  octets = v.octets;
}
Step-IsSafe {w = w} (on_connection connection event) v = record {
  held = connection_callback-IsSound w.state connection event v.held;
  queued = v.queued;
  adapted = v.adapted;
  octets = v.octets;
}
Step-IsSafe {check_question = check_question} {w = w} (on_stream i event o) v =
    slot_callback-IsSafe check_question i w event o v

-- Every state that callbacks reach from a safe one, in any order and any number, is safe.
pub Reach-IsSafe :
    {T : Type 0} (check_question : QuestionCheck) (w u : ConnectionWorld T)
    → IsSafe w
    → Reach check_question w u
    → IsSafe u
Reach-IsSafe check_question w u v here = v
Reach-IsSafe check_question w u v (next {u = m} r s) =
    Step-IsSafe s (Reach-IsSafe check_question w m v r)

-- A connection whose slots have just been set up is safe, with a valid queue, a valid adapter and
-- a heap of bytes.
pub connection_runtime_init-IsSafe :
    {T : Type 0} (api : Option (ConnectionApi T)) (configuration : ℕ)
    (has_adapter has_queue has_slots : Bool) (buffers : ℕ → Option ℕ) (capacities : ℕ → ℕ)
    (count : ℕ) (t : T) (heap : Heap) (q : Queue) (a : Adapter)
    → Fifo.IsValid q
    → Completion.IsValid a
    → ((p i : ℕ) → heap p i < 256)
    → IsSafe (record {
      heap = heap;
      queue = q;
      adapter = a;
      state = (
        connection_runtime_init {T = T} api configuration has_adapter has_queue has_slots
            (λ i. stream_slot_init (buffers i) (capacities i))
            count,
        t,
      );
    })
connection_runtime_init-IsSafe {T} api configuration x y z buffers capacities count t heap q a f v
      o =
    record { held = fresh; queued = f; adapted = v; octets = o }
  where
    fresh : AllSound (
        connection_runtime_init {T = T} api configuration x y z
          (λ i. stream_slot_init (buffers i) (capacities i))
          count)
    fresh =
        unfold connection_runtime_init in
        (λ i l. stream_slot_init-IsSound (buffers i) (capacities i))
