-- ===== src/Tests/Connections.antt =====
-- Witnesses for the runtimes of shell/msquic_runtime.c and shell/msquic_connection_runtime.c.
use ism.Prelude.{ℕ, ◌<◌, ◌≡◌, ◌≢◌, ◌⊎◌, arith, true, false, none, some, [], ◌∷◌}
use ism.Runtime.{
  success, invalid_parameter, StreamEvent, receive, msquic_send_complete, stream_callback,
  single_host, runtime_send,
}
use ism.Runtime.Errors.{IsForeign, stream_callback_refused}
use ism.Connections.{
  ConnectionApi, ConnectionRuntime, connection_runtime_init, stream_slot_init,
  connection_runtime_send, allocate_slot, slot_callback, connection_callback, peer_stream_started,
}
use ism.Connections.Choices.{
  Serves, IsChosen, IsSentOn, IsUnplaceable, Takes, connection_runtime_send_lem, allocate_slot_lem,
}
use ism.Connections.Reach.{
  ConnectionWorld, IsSafe, here, next, on_connection, on_stream, Reach-IsSafe,
  connection_runtime_init-IsSafe,
}
use ism.Tests.{
  any_question, zeros, framed_zeros, framed_zeros-lt, idle_adapter, idle_adapter-IsValid,
  empty_queue, empty_queue-IsValid, counting_api, one_world,
}

-- A transport that gives every stream the ID 4.
abbrev four_api : ConnectionApi ℕ
four_api = record {
  of_streams = counting_api;
  stream_close = λ t stream. t;
  get_stream_id = λ t stream. some (4, 8);
  set_callback_handler = λ t handle callback. t;
  set_configuration = λ t connection configuration. (t, success);
  connection_close = none;
}

abbrev two_slots : ConnectionRuntime ℕ
two_slots =
    connection_runtime_init (some four_api) 1 true true true (λ i. stream_slot_init (some i) 64) 2

abbrev fresh_world : ConnectionWorld ℕ
fresh_world = record {
  heap = λ p. zeros;
  queue = empty_queue;
  adapter = idle_adapter;
  state = (two_slots, 0);
}

fresh_world-IsSafe : IsSafe fresh_world
fresh_world-IsSafe =
    connection_runtime_init-IsSafe (some four_api) 1 true true true (λ i. some i) (λ i. 64) 2 0
      (λ p. zeros) empty_queue idle_adapter empty_queue-IsValid idle_adapter-IsValid
      (λ p i. omega arith)

-- After the peer has started the stream 3.
abbrev started_world : ConnectionWorld ℕ
started_world = record fresh_world {
  state = (connection_callback (two_slots, 0) 9 (peer_stream_started 3)).0;
}

abbrev one_message : StreamEvent
one_message = receive (some ((some framed_zeros, 14) ∷ [])) true

Reach-IsSafe_example : IsSafe (slot_callback any_question 0 started_world one_message).0
Reach-IsSafe_example =
    Reach-IsSafe any_question fresh_world (slot_callback any_question 0 started_world one_message).0
      fresh_world-IsSafe
      (next (next here (on_connection 9 (peer_stream_started 3)))
        (on_stream 0 one_message (framed_zeros-lt, tt)))

connection_runtime_send_lem_example :
    (((two_slots.has_slots ≡ false)
        ⊎ ((i : ℕ) → i < two_slots.stream_slot_count → ¬ Serves 4 (two_slots.stream_slots i)))
      × (connection_runtime_send (two_slots, 0) 4 zeros 14 true ≡ ((two_slots, 0), false)))
    ⊎ ((i : ℕ) × (two_slots.has_slots ≡ true)
        × IsChosen (Serves 4) two_slots i
        × IsSentOn two_slots i
            (runtime_send ((two_slots.stream_slots i).runtime, 0) 4 zeros 14 true)
            (connection_runtime_send (two_slots, 0) 4 zeros 14 true))
connection_runtime_send_lem_example = connection_runtime_send_lem two_slots 0 4 zeros 14 true

allocate_slot_lem_example :
    (IsUnplaceable two_slots 0 3 × (allocate_slot two_slots 0 3 ≡ (two_slots, none)))
    ⊎ Takes two_slots 0 3 (allocate_slot two_slots 0 3)
allocate_slot_lem_example = allocate_slot_lem two_slots 0 3

-- A completion whose context is not the runtime's.
stream_callback_refused_example :
    (IsForeign single_host any_question one_world (msquic_send_complete false true)
      × (stream_callback {T = ℕ} single_host any_question one_world
            (msquic_send_complete false true)
          ≡ (one_world, invalid_parameter)))
    ⊎ (¬ (IsForeign single_host any_question one_world (msquic_send_complete false true))
        × ((stream_callback {T = ℕ} single_host any_question one_world
              (msquic_send_complete false true)).1
            ≢ invalid_parameter))
stream_callback_refused_example =
    stream_callback_refused {T = ℕ} single_host any_question one_world
      (msquic_send_complete false true)
