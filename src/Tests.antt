-- ===== src/Tests.antt =====
-- Concrete runs: the inputs that the tests of the executable definitions and the witnesses of the
-- theorems share.
mod Connections
mod Requests
mod Pulse
mod Streams
mod Tables
mod Responses
mod Adapters
mod Queues
mod Runtimes
mod Visits
mod Smokes
use ism.Prelude.{
  Bool, ℕ, ◌+◌, ◌-◌, ◌^◌, ◌≤◌, ◌<◌, ◌≡◌, ◌≢◌, ◌⊎◌, ◌↔◌, inr, refl, true, false, arith, none, some,
  Bytes, [], ◌∷◌, ◌++◌, ◌==◌, ◌&&◌, if◌then◌else◌,
}
use ism.Stream.{
  Stream, reading_length, reading_message, awaiting_fin, processing, done, message_capacity,
  fragment_phase, finish_doq_phase, fragment_copy_plan, handle_stream_data, handle_stream_fin,
  next_stream_phase, advance_message_checked, u32_from_be_u16_bytes,
}
use ism.Stream.Phases
use ism.Stream.Phases.{
  fragment_phase-IsValid, finish_doq_phase-processing, fragment_phase-split, phase_after, skip,
}
use ism.Stream.Copying.{fragment_copy_plan_bounds}
use ism.Stream.Messages.{IsFramed, feed, feed-awaiting_fin, fin-feed}
use ism.Table.{
  Connection, max_streams, connection_init, find_stream, find_from, open_stream, sync_stream_slots,
  on_authenticated_stream_data, dispatch_authenticated_stream_data, on_authenticated_stream_fin,
  complete_response_send, dispatch_response_send_finished, dispatch_stream_reset,
}
use ism.Table.Find.{Holds, lookup}
use ism.Table.Valid
use ism.Table.Valid.{connection_init-IsValid, sync_stream_slots-IsValid}
use ism.Table.Open.{claimed, claimed-IsValid, IsOpened, open_stream_outcomes}
use ism.Table.Close.{Forgets, Completes, dispatch_stream_reset_lem, response_send_finished_lem}
use ism.Table.Ingress.{
  Handles, dispatch_authenticated_stream_data_lem, on_authenticated_stream_fin_lem,
}
use ism.Response.{prepare_doq_response_send_for_stream}
use ism.Response.Framing.{framed_byte, prepare_doq_response_send_for_stream_lem, framing_roundtrip}
use ism.Worker.{
  answer_ready, QuestionCheck, scan_uncompressed_qname_length,
  validate_minimal_uncompressed_question_request, prepare_worker_validated_minimal_response_send,
}
use ism.Worker.Requests.{
  answer_ready-cases, IsResponse, scan_uncompressed_qname_length-total,
  prepare_worker_validated_minimal_response_send_lem,
}
use ism.Adapter.{
  Adapter, Send, adapter_init, on_send_complete, on_stream_reset, prepare_ready_response,
  on_authenticated_stream_bytes, adapter_on_authenticated_stream_fin,
}
use ism.Adapter.Completion
use ism.Adapter.Completion.{InFlight, IsIdle, IsBusy, IsCompleted, on_send_complete_lem}
use ism.Adapter.Events.{
  adapter_init-IsValid, Resets, on_stream_reset_lem, on_authenticated_stream_bytes-IsValid,
  adapter_on_authenticated_stream_fin-IsValid,
}
use ism.Queue.{queue_init, Queue, Event, stream_reset, tail, enqueue, dequeue}
use ism.Queue.Fifo
use ism.Queue.Fifo.{contents, slot, enqueue_lem, dequeue_lem, queue_init_lem}
use ism.Queue.Wrap.{tail_wrapped}
use ism.Queue.Dispatch.{dispatch_all, dispatch_one}
use ism.Runtime.{
  single_host, Api, Runtime, World, receive, runtime_stream_init, bind_msquic_stream, runtime_send,
  stream_send_of, sent, mark_runtime_send, stream_callback,
}
use ism.Runtime.Laws
use ism.Runtime.Laws.{stream_callback-IsValid}
use ism.Runtime.Sending.{IsBoundTo, single_host-Keeps}

-- A framed message of twelve zero bytes.
abbrev pub framed_zeros : Bytes
framed_zeros i = if i == 1 then 12 else 0

abbrev pub zeros : Bytes
zeros i = 0

abbrev pub fresh_stream : Stream
fresh_stream = record { id = 4; phase = reading_length; message = zeros }

pub framed_zeros-IsFramed : IsFramed framed_zeros 12
framed_zeros-IsFramed = record {
  hi_byte = omega arith;
  lo_byte = omega arith;
  prefix = refl;
  header = omega arith;
}

pub framed_zeros-lt : (i : ℕ) → framed_zeros i < 256
framed_zeros-lt i = ground arith

-- A table that holds the stream 4.
abbrev pub one_stream : Connection
one_stream = claimed connection_init 4

empty_table-absent : find_stream connection_init 4 ≡ none
unfolding find_stream find_from connection_init
empty_table-absent = refl

pub one_stream-IsValid : Valid.IsValid one_stream
one_stream-IsValid =
    claimed-IsValid connection_init 4 connection_init-IsValid.0 room empty_table-absent
  where
    room : connection_init.num < max_streams
    room = unfold connection_init in omega arith

one_stream-lookup : lookup one_stream 4 ≡ some (one_stream.streams 0).ctx
unfolding lookup find_stream find_from connection_init
one_stream-lookup = refl

abbrev pub any_question : QuestionCheck
any_question n bytes len = 1

-- An adapter with nothing in flight, and one that sends the response of the stream 4.
abbrev pub idle_adapter : Adapter
idle_adapter = adapter_init (some zeros) 512 (some zeros) 514 true

pub idle_adapter-IsValid : Completion.IsValid idle_adapter
idle_adapter-IsValid = (adapter_init-IsValid (some zeros) 512 (some zeros) 514 true).0

abbrev pub busy_adapter : Adapter
busy_adapter = record {
  connection = one_stream;
  response_buffer = some zeros;
  response_capacity = 512;
  send_buffer = some zeros;
  send_capacity = 514;
  has_send = true;
  send_in_flight = true;
  send_stream_id = 4;
  send_len = 14;
}

pub busy_adapter-IsValid : Completion.IsValid busy_adapter
busy_adapter-IsValid = record {
  table = one_stream-IsValid;
  state = inr (record {
    flight = record { flying = refl; flying_id = refl; flying_len = refl };
    some_bytes = omega arith;
    fits = omega arith;
    buffer = (zeros, refl);
    stream = ((one_stream.streams 0).ctx, one_stream-lookup);
  });
}

-- A callback that counts what it takes.
abbrev pub counting : Send ℕ
counting s id bytes len fin = (s + 1, true)

-- A queue of two events with one that resets the stream 4.
abbrev pub reset_event : Event
reset_event = record { kind = stream_reset; stream_id = 4; bytes = none; len = 0; dropped = true }

abbrev pub one_event : Queue
one_event = record {
  has_events = true;
  events = λ i. reset_event;
  capacity = 2;
  head = 1;
  count = 1;
}

pub one_event-IsValid : Fifo.IsValid one_event
one_event-IsValid = record {
  stored = refl;
  capacity_pos = omega arith;
  capacity_le = omega arith;
  head_lt = omega arith;
  count_le = omega arith;
}

abbrev pub empty_queue : Queue
empty_queue = queue_init true (λ i. reset_event) 2

pub empty_queue-IsValid : Fifo.IsValid empty_queue
empty_queue-IsValid = (queue_init_lem (λ i. reset_event) 2 (omega arith) (omega arith)).0

-- A transport that counts the sends that it takes.
abbrev pub counting_api : Api ℕ
counting_api = record {
  stream_send = some (λ t stream bytes len fin. (t + 1, true));
  connection_shutdown = none;
}

abbrev pub bound_runtime : Runtime ℕ
bound_runtime =
    bind_msquic_stream (runtime_stream_init true true 4 (some 0) 64) (some counting_api) 9

abbrev pub one_world : World (Runtime ℕ × ℕ)
one_world = record {
  heap = λ p. zeros;
  queue = empty_queue;
  adapter = idle_adapter;
  state = (bound_runtime, 0);
}

pub one_world-IsValid : Laws.IsValid (IsBoundTo (some counting_api) 9) one_world
one_world-IsValid = record {
  held = unfold bind_msquic_stream in (refl, refl);
  queued = empty_queue-IsValid;
  adapted = idle_adapter-IsValid;
  octets = λ p i. omega arith;
}
