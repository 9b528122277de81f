-- ===== src/Tests/Visits.antt =====
-- Whole requests through shell/msquic_runtime.c and shell/msquic_connection_runtime.c.
use ism.Prelude.{
  ℕ, ◌+◌, ◌<◌, ◌≡◌, ◌≢◌, refl, arith, Bool, true, false, none, some, Bytes, Option, List, [], ◌∷◌,
}
use ism.Stream.Phases.{skip}
use ism.Queue.{Queue, queue_init}
use ism.Queue.Dispatch.Single.{IsEmpty}
use ism.Runtime.{
  World, Status, single_host, success, invalid_state, receive, shutdown_complete, stream_callback,
  runtime_stream_init, bind_msquic_stream,
}
use ism.Runtime.Errors.{IsShutDown, late_bytes}
use ism.Runtime.Requests.{IsOpen, Carries}
use ism.Runtime.Answers.{Deliveries, AllCarry, receive_events, IsReplied, receive-IsReplied}
use ism.Runtime.Steps.{IsReady}
use ism.Connections.{
  ConnectionApi, ConnectionRuntime, connection_runtime_init, stream_slot_init, slot_host,
  slot_callback,
}
use ism.Connections.Requests.{CanSend, slot_receives, IsStreamed, slot_receives-IsStreamed}
use ism.Connections.Aborts.{peer_aborts}
use ism.Connections.Landing.{close_send}
use ism.Connections.Life.{IsOver, streamed_now, streamed-IsOver}
use ism.Connections.Opening.{IsVacant, opened, opened-CanSend, opened-IsOpen}
use ism.Connections.Visits.{Visit, IsWhole, IsServing, AreVisited, visit-AreVisited}
use ism.Connections.Leaks.{shutdown_complete-refused}
use ism.Tests.{
  any_question, zeros, framed_zeros, framed_zeros-lt, framed_zeros-IsFramed, idle_adapter,
  idle_adapter-IsValid, busy_adapter, busy_adapter-IsValid, empty_queue, empty_queue-IsValid,
  counting_api, bound_runtime, one_world,
}
use ism.Tests.Requests.{idle_adapter-CanAnswer, idle_adapter-CanOpen, idle_adapter-IsRested}

-- The message in two receive events, the second in two buffers.
abbrev first_event : Deliveries
first_event = ((some framed_zeros, 1) ∷ []) ∷ []

abbrev last_event : List (Option Bytes × ℕ)
last_event = (some (skip 1 framed_zeros), 3) ∷ (some (skip 4 framed_zeros), 10) ∷ []

first_event-AllCarry : AllCarry 64 framed_zeros first_event
first_event-AllCarry = ((omega arith, (λ i l. refl), tt), tt)

last_event-Carries : Carries 64 (skip 1 framed_zeros) last_event
last_event-Carries = (omega arith, (λ i l. refl), (omega arith, (λ i l. ground arith), tt))

empty_queue-IsEmpty : IsEmpty empty_queue
unfolding queue_init
empty_queue-IsEmpty = record { valid = empty_queue-IsValid; no_events = refl }

bound_runtime-IsOpen : IsOpen 4 0 64 bound_runtime
unfolding runtime_stream_init bind_msquic_stream
bound_runtime-IsOpen = record {
  adapter_there = refl;
  queue_there = refl;
  has_id = refl;
  has_ingress = refl;
  has_capacity = refl;
  no_fin = refl;
}

receive-IsReplied_example :
    IsReplied single_host any_question idle_adapter idle_adapter-CanAnswer
      (bound_runtime, 0)
      4
      12
      framed_zeros
      (stream_callback single_host any_question
        (receive_events single_host any_question one_world first_event)
        (receive (some last_event) true))
receive-IsReplied_example =
    receive-IsReplied single_host any_question one_world 4 0 64 12 framed_zeros first_event
      last_event bound_runtime-IsOpen empty_queue-IsEmpty idle_adapter-IsValid
      idle_adapter-CanAnswer idle_adapter-CanOpen framed_zeros-IsFramed framed_zeros-lt refl refl
      first_event-AllCarry last_event-Carries refl

-- The whole message in one receive event, and a byte after it.
abbrev whole_event : List (Option Bytes × ℕ)
whole_event = (some framed_zeros, 14) ∷ []

abbrev late_event : List (Option Bytes × ℕ)
late_event = (some framed_zeros, 0) ∷ (some zeros, 1) ∷ []

whole_event-success :
    (stream_callback single_host any_question one_world (receive (some whole_event) true)).1
    ≡ success
unfolding receive_events
whole_event-success =
    (receive-IsReplied single_host any_question one_world 4 0 64 12 framed_zeros [] whole_event
      bound_runtime-IsOpen empty_queue-IsEmpty idle_adapter-IsValid idle_adapter-CanAnswer
      idle_adapter-CanOpen framed_zeros-IsFramed framed_zeros-lt refl refl tt
      (omega arith, (λ i l. ground arith), tt) refl).status

late_bytes_example :
    IsShutDown single_host any_question
      (stream_callback single_host any_question one_world (receive (some whole_event) true)).0
      (stream_callback single_host any_question
        (stream_callback single_host any_question one_world (receive (some whole_event) true)).0
        (receive (some late_event) false))
late_bytes_example =
    late_bytes single_host any_question (λ s r. refl) one_world (receive (some whole_event) true)
      late_event false refl whole_event-success (omega arith)

-- A transport that gives each stream the ID above its handle.
abbrev next_api : ConnectionApi ℕ
next_api = record {
  of_streams = counting_api;
  stream_close = λ t stream. t;
  get_stream_id = λ t stream. some (stream + 1, 8);
  set_callback_handler = λ t handle callback. t;
  set_configuration = λ t connection configuration. (t, success);
  connection_close = none;
}

abbrev two_slots : ConnectionRuntime ℕ
two_slots =
    connection_runtime_init (some next_api) 1 true true true (λ i. stream_slot_init (some i) 64) 2

two_slots-IsVacant : IsVacant next_api 64 two_slots
unfolding connection_runtime_init stream_slot_init
two_slots-IsVacant = record {
  api_there = refl;
  adapter_there = refl;
  queue_there = refl;
  slots_there = refl;
  some_slots = omega arith;
  unused = λ j l. refl;
  buffers = λ j l. (j, refl);
  roomy = λ j l. refl;
}

two_slots-lt : 0 < two_slots.stream_slot_count
two_slots-lt = unfold connection_runtime_init in omega arith

abbrev resting_world : World (ConnectionRuntime ℕ × ℕ)
resting_world = record {
  heap = λ p. zeros;
  queue = empty_queue;
  adapter = idle_adapter;
  state = (two_slots, 0);
}

resting_world-IsServing : IsServing next_api 64 resting_world
resting_world-IsServing = record {
  vacant = two_slots-IsVacant;
  emptied = empty_queue-IsEmpty;
  rested = idle_adapter-IsRested;
}

abbrev zero_visit : ℕ → Bool → Visit
zero_visit stream canceled = record {
  stream = stream;
  id = stream + 1;
  len = 12;
  input = framed_zeros;
  events = first_event;
  last = last_event;
  aborts = 2;
  canceled = canceled;
}

zero_visit-IsWhole :
    (stream : ℕ) (canceled : Bool) → stream ≢ 0 → IsWhole next_api 64 (zero_visit stream canceled)
zero_visit-IsWhole stream canceled n = record {
  some_stream = n;
  told = λ t. refl;
  framed = framed_zeros-IsFramed;
  octets = framed_zeros-lt;
  id_hi = refl;
  id_lo = refl;
  carried = first_event-AllCarry;
  carried_last = last_event-Carries;
  complete = refl;
}

-- Two streams one after the other, the completion of the second canceled.
visit-AreVisited_example :
    AreVisited any_question next_api 64 9
      (λ t stream bytes len fin. (t + 1, true))
      refl
      resting_world
      (zero_visit 3 false ∷ zero_visit 7 true ∷ [])
visit-AreVisited_example =
    visit-AreVisited any_question next_api 64 9 (λ t stream bytes len fin. (t + 1, true)) refl
      resting_world (zero_visit 3 false ∷ zero_visit 7 true ∷ []) (omega arith)
      resting_world-IsServing
      (zero_visit-IsWhole 3 false (omega arith), (zero_visit-IsWhole 7 true (omega arith), tt))

-- After the peer has started the stream 3 in the slot 0.
abbrev open_world : World (ConnectionRuntime ℕ × ℕ)
open_world = record resting_world { state = (opened next_api 64 two_slots 0 3 4 9 0, 0) }

abbrev open_world-CanSend : CanSend open_world.state.0 0 4
open_world-CanSend =
    opened-CanSend next_api 64 two_slots 0 3 4 9 0 (λ t stream bytes len fin. (t + 1, true))
      two_slots-IsVacant (omega arith) two_slots-lt refl

abbrev open_slot : ℕ
open_slot = (two_slots-IsVacant.buffers 0 two_slots-lt).0

open_world-IsOpen : IsOpen 4 open_slot 64 (open_world.state.0.stream_slots 0).runtime
open_world-IsOpen = opened-IsOpen next_api 64 two_slots 0 3 4 9 0 two_slots-IsVacant two_slots-lt

-- The message in one buffer.
abbrev one_buffer : List (Option Bytes × ℕ)
one_buffer = (some framed_zeros, 14) ∷ []

slot_receives-IsStreamed_example :
    IsStreamed any_question open_world 0 4 12 framed_zeros idle_adapter-CanAnswer open_world-CanSend
      (slot_callback any_question 0
        (slot_receives any_question 0 open_world [])
        (receive (some one_buffer) true))
slot_receives-IsStreamed_example =
    slot_receives-IsStreamed any_question open_world 0 4 open_slot 64 12 framed_zeros [] one_buffer
      open_world-CanSend open_world-IsOpen empty_queue-IsEmpty idle_adapter-IsValid
      idle_adapter-CanAnswer idle_adapter-CanOpen framed_zeros-IsFramed framed_zeros-lt refl refl tt
      (omega arith, (λ i l. ground arith), tt) refl

-- The message in two events.
abbrev asked : World (ConnectionRuntime ℕ × ℕ) × Status
asked =
    slot_callback any_question 0 (slot_receives any_question 0 open_world first_event)
      (receive (some last_event) true)

asked-IsStreamed :
    IsStreamed any_question open_world 0 4 12 framed_zeros idle_adapter-CanAnswer open_world-CanSend
      asked
asked-IsStreamed =
    slot_receives-IsStreamed any_question open_world 0 4 open_slot 64 12 framed_zeros first_event
      last_event open_world-CanSend open_world-IsOpen empty_queue-IsEmpty idle_adapter-IsValid
      idle_adapter-CanAnswer idle_adapter-CanOpen framed_zeros-IsFramed framed_zeros-lt refl refl
      first_event-AllCarry last_event-Carries refl

streamed-IsOver_example :
    IsOver any_question 0 4 idle_adapter.connection open_world.state.0
      (streamed_now any_question open_world 0 4 open_slot 64 12 framed_zeros idle_adapter-CanAnswer
        open_world-CanSend open_world-IsOpen asked asked-IsStreamed).0
      (slot_callback any_question 0
        (close_send any_question 0 true (peer_aborts any_question 0 1 asked.0))
        shutdown_complete)
streamed-IsOver_example =
    streamed-IsOver any_question open_world 0 4 open_slot 64 12 framed_zeros idle_adapter-CanAnswer
      open_world-CanSend open_world-IsOpen asked asked-IsStreamed 1 true

-- The stream 8 is shut down in the slot 1 while the response of the stream 4 is in flight.
abbrev busy_world : World (ConnectionRuntime ℕ × ℕ)
busy_world = record {
  heap = λ p. zeros;
  queue = empty_queue;
  adapter = busy_adapter;
  state = (opened next_api 64 (opened next_api 64 two_slots 0 3 4 9 0) 0 7 8 9 1, 0);
}

busy_world-IsReady : IsReady (slot_host 1) any_question busy_world
unfolding connection_runtime_init runtime_stream_init bind_msquic_stream
busy_world-IsReady = record {
  adapter_there = refl;
  queue_there = refl;
  emptied = empty_queue-IsEmpty;
}

busy_world-apart :
    busy_adapter.send_stream_id ≢ (busy_world.state.0.stream_slots 1).runtime.stream_id
unfolding runtime_stream_init bind_msquic_stream
busy_world-apart = omega arith

busy_world-landed : (busy_world.state.0.stream_slots 1).runtime.send_in_flight ≡ false
unfolding runtime_stream_init bind_msquic_stream
busy_world-landed = refl

shutdown_complete-refused_example :
    (q : Queue) × IsEmpty q
    × (slot_callback any_question 1 busy_world shutdown_complete
        ≡ (record busy_world { queue = q }, invalid_state))
shutdown_complete-refused_example =
    shutdown_complete-refused any_question 1 busy_world busy_world-IsReady busy_adapter-IsValid refl
      busy_world-apart busy_world-landed
