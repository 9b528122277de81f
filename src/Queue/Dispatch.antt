-- ===== src/Queue/Dispatch.antt =====
-- The dispatch of queued events to the adapter: `ism_shell_event_queue_dispatch_one` and
-- `_dispatch_all` of shell/ism_event_queue.c. The bytes of an event are read from the heap when
-- the event is dispatched.
pub mod Laws
pub mod Keeps
pub mod Single
use ism.Prelude.{
  ℕ, zero, suc, ◌+◌, Bool, true, false, not, ltb, ◌==◌, if◌then◌else◌, Option, none, some, Bytes,
  add_u32,
}
use ism.Table.{dispatch_authenticated_stream_data}
use ism.Worker.{QuestionCheck}
use ism.Adapter.{
  Adapter, Send, prepare_ready_response, adapter_on_authenticated_stream_fin, on_send_complete,
  on_stream_reset,
}
use ism.Queue.{
  Queue, Event, Kind, authenticated_stream_bytes, authenticated_stream_fin, ready_response,
  send_complete, stream_reset, dequeue,
}

-- Buffers by their pointers.
abbrev pub Heap : Type 0
Heap = ℕ → Bytes

-- A NULL pointer comes with no bytes to read.
abbrev pub bytes_at : Heap → Option ℕ → Bytes
bytes_at heap none = λ i. 0
bytes_at heap (some p) = heap p

module _ {S : Type 0} (check_question : QuestionCheck) (send : Send S) (heap : Heap) where
  -- A message that is ready is answered; another is a success unless it is done.
  abbrev pub ingested : Adapter → S → ℕ → ℕ → Bool × Adapter × S
  ingested a s id phase =
      if phase == 2
      then (let (n, a', s') = prepare_ready_response check_question send a s id in
          (ltb 0 n, a', s'))
      else (not (phase == 3), a, s)

  abbrev pub handle_kind : Kind → Event → Adapter → S → Bool × Adapter × S
  handle_kind authenticated_stream_bytes e a s =
      let (c, phase) =
        dispatch_authenticated_stream_data a.connection e.stream_id (bytes_at heap e.bytes) e.len in
      ingested (record a { connection = c }) s e.stream_id phase
  handle_kind authenticated_stream_fin e a s =
      let (phase, a', s') =
        adapter_on_authenticated_stream_fin check_question send a s e.stream_id in
      (phase == 2, a', s')
  handle_kind ready_response e a s =
      let (n, a', s') = prepare_ready_response check_question send a s e.stream_id in (true, a', s')
  handle_kind send_complete e a s =
      let (a', done) = on_send_complete a e.stream_id e.len e.dropped in (done, a', s)
  handle_kind stream_reset e a s = let (a', done) = on_stream_reset a e.stream_id in (done, a', s)

  unfoldable pub handle_event : Event → Adapter → S → Bool × Adapter × S
  handle_event e a s = handle_kind e.kind e a s

  -- What `dequeue` has left and taken: an event is off the queue before it is handled.
  abbrev pub dispatch_dequeued : Queue × Option Event → Adapter → S → Bool × Queue × Adapter × S
  dispatch_dequeued (q, none) a s = (false, q, a, s)
  dispatch_dequeued (q, some e) a s = let (ok, a', s') = handle_event e a s in (ok, q, a', s')

  unfoldable pub dispatch_one : Queue → Adapter → S → Bool × Queue × Adapter × S
  dispatch_one q a s = dispatch_dequeued (dequeue q) a s

  -- At most `max` more events, with the number of those that were handled before.
  unfoldable pub dispatch_from : ℕ → ℕ → Queue → Adapter → S → ℕ × Queue × Adapter × S
  dispatch_from zero dispatched q a s = (dispatched, q, a, s)
  dispatch_from (suc max) dispatched q a s =
      let (ok, q', a', s') = dispatch_one q a s in
      let rest = dispatch_from max (dispatched + 1) q' a' s' in
      if ltb 0 q.count then if ok then rest else (dispatched, q', a', s') else (dispatched, q, a, s)

  unfoldable pub dispatch_all : Queue → Adapter → S → ℕ → ℕ × Queue × Adapter × S
  dispatch_all q a s max = dispatch_from max 0 q a s
