-- ===== src/Smoke/EventQueue.antt =====
-- shell/link_event_queue_smoke.c.
use ism.Prelude.{ℕ, Bool, true, false, not, ◌==◌, ◌&&◌, Option, none, some, [], ◌∷◌}
use ism.Worker.{QuestionCheck}
use ism.Adapter.{Send, adapter_init}
use ism.Queue.{
  Queue, Event, Kind, authenticated_stream_bytes, ready_response, queue_init, dequeue,
  enqueue_authenticated_stream_bytes, enqueue_authenticated_stream_fin, enqueue_ready_response,
  enqueue_send_complete, enqueue_stream_reset,
}
use ism.Queue.Dispatch.{Heap, dispatch_one}
use ism.Smoke.{exact_a_query, expected_validated_stream_response, buffer_agrees, all_hold}

-- `queue_fake_send`, with what it has captured.
pub record QueueFakeSend : Type 0 where
  pub called : Bool
  pub stream_id : ℕ
  pub len : ℕ
  pub fin : Bool

abbrev pub queue_fake_send_fn : Send QueueFakeSend
queue_fake_send_fn capture id bytes len fin =
    (record { called = true; stream_id = id; len = len; fin = fin }, true)

abbrev pub nothing_sent : QueueFakeSend
nothing_sent = record { called = false; stream_id = 0; len = 0; fin = false }

abbrev holds_bytes : Option Event → Bool
holds_bytes none = false
holds_bytes (some e) = is_bytes e.kind && (e.stream_id == 1 && (is_query e.bytes && e.len == 35))
  where
    is_bytes : Kind → Bool
    is_bytes authenticated_stream_bytes = true
    is_bytes _ = false

    is_query : Option ℕ → Bool
    is_query none = false
    is_query (some p) = p == 0

abbrev holds_ready : Option Event → Bool
holds_ready none = false
holds_ready (some e) = is_ready e.kind && e.stream_id == 2
  where
    is_ready : Kind → Bool
    is_ready ready_response = true
    is_ready _ = false

abbrev holds_none : Option Event → Bool
holds_none none = true
holds_none (some e) = false

-- Two events leave a queue of two in order, and a third is refused.
unfoldable pub smoke_order : (ℕ → Event) → Queue × Bool
smoke_order storage =
    let (q1, bytes_ok) =
      enqueue_authenticated_stream_bytes (queue_init true storage 2) 1 (some 0) 35 in
    let (q2, ready_ok) = enqueue_ready_response q1 2 in
    let (q3, complete_ok) = enqueue_send_complete q2 3 4 false in
    let (q4, first) = dequeue q3 in
    let (q5, second) = dequeue q4 in
    let (q6, third) = dequeue q5 in
    (
      q6,
      all_hold (
          bytes_ok
          ∷ ready_ok
          ∷ not complete_ok
          ∷ (q3.count == 2)
          ∷ holds_bytes first
          ∷ holds_ready second
          ∷ holds_none third
          ∷ []),
    )

-- A request that is dispatched in two events is answered, its send is completed, and a request
-- that has begun is reset. The buffer of every event is the query.
unfoldable pub smoke_dispatch : QuestionCheck → (ℕ → Event) → Bool
smoke_dispatch check_question storage =
    let heap : Heap = λ p. exact_a_query in
    let adapter = adapter_init (some (λ i. 0)) 128 (some (λ i. 0)) 128 true in
    let (q1, bytes_ok) =
      enqueue_authenticated_stream_bytes (queue_init true storage 1) 31 (some 0) 35 in
    let (bytes_done, q2, a2, c2) =
      dispatch_one check_question queue_fake_send_fn heap q1 adapter nothing_sent in
    let (q3, fin_ok) = enqueue_authenticated_stream_fin q2 31 in
    let (fin_done, q4, a4, c4) = dispatch_one check_question queue_fake_send_fn heap q3 a2 c2 in
    let (q5, complete_ok) = enqueue_send_complete q4 31 c4.len false in
    let (complete_done, q6, a6, c6) =
      dispatch_one check_question queue_fake_send_fn heap q5 a4 c4 in
    let (q7, again_ok) = enqueue_authenticated_stream_bytes q6 31 (some 0) 1 in
    let (again_done, q8, a8, c8) = dispatch_one check_question queue_fake_send_fn heap q7 a6 c6 in
    let (q9, reset_ok) = enqueue_stream_reset q8 31 in
    let (reset_done, q10, a10, c10) =
      dispatch_one check_question queue_fake_send_fn heap q9 a8 c8 in
    all_hold (
      bytes_ok
      ∷ bytes_done
      ∷ not c2.called
      ∷ fin_ok
      ∷ fin_done
      ∷ c4.called
      ∷ (c4.stream_id == 31)
      ∷ (c4.len == 35)
      ∷ c4.fin
      ∷ (q4.count == 0)
      ∷ buffer_agrees a4.send_buffer expected_validated_stream_response 35
      ∷ complete_ok
      ∷ complete_done
      ∷ (a6.connection.num == 0)
      ∷ again_ok
      ∷ again_done
      ∷ (a8.connection.num == 1)
      ∷ reset_ok
      ∷ reset_done
      ∷ (a10.connection.num == 0)
      ∷ [])

unfoldable pub ism_smoke_event_queue : QuestionCheck → (ℕ → Event) → Bool
ism_smoke_event_queue check_question storage =
    let (q, order_ok) = smoke_order storage in order_ok && smoke_dispatch check_question q.events
