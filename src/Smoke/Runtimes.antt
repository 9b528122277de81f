-- ===== src/Smoke/Runtimes.antt =====
-- shell/link_msquic_runtime_smoke.c.
use ism.Prelude.{ℕ, Bool, true, false, not, ◌==◌, some, [], ◌∷◌}
use ism.Worker.{QuestionCheck}
use ism.Adapter.{Send, adapter_init}
use ism.Queue.{Event, queue_init}
use ism.Runtime.{
  Runtime, World, Host, runtime_stream_init, on_receive, on_fin, runtime_on_send_complete,
  runtime_on_stream_reset,
}
use ism.Smoke.{
  bytes_of, exact_a_query, expected_validated_stream_response, zero_bytes, agrees, buffer_agrees,
  all_hold,
}

-- `runtime_send_capture`.
pub record RuntimeSendCapture : Type 0 where
  pub called : Bool
  pub stream_id : ℕ
  pub len : ℕ
  pub fin : Bool

abbrev no_capture : RuntimeSendCapture
no_capture = record { called = false; stream_id = 0; len = 0; fin = false }

-- The runtime stands beside the capture, to which the callback's context points.
abbrev pub State : Type 0
State = RuntimeSendCapture × Runtime Unit

abbrev pub runtime_fake_send : Send State
runtime_fake_send (capture, runtime) id bytes len fin =
    ((record { called = true; stream_id = id; len = len; fin = fin }, runtime), true)

abbrev pub capture_host : Host State Unit
capture_host = record {
  send = runtime_fake_send;
  get = λ s. s.1;
  set = λ s r. (s.0, r);
  on_msquic = λ s f. s;
}

-- A fresh adapter, a queue of one event, and a runtime with this stream and ingress buffer.
abbrev fresh : (ℕ → Event) → ℕ → ℕ → World State
fresh events id capacity = record {
  heap = λ p. zero_bytes;
  queue = queue_init true events 1;
  adapter = adapter_init (some zero_bytes) 128 (some zero_bytes) 128 true;
  state = (no_capture, runtime_stream_init true true id (some 0) capacity);
}

-- The query is copied, and answered once FIN has come; its send is completed.
unfoldable pub smoke_answer : QuestionCheck → (ℕ → Event) → World State × Bool
smoke_answer check_question events =
    let (w1, received) =
      on_receive capture_host check_question (fresh events 31 64)
        (some ((some exact_a_query, 35) ∷ [])) in
    let (w2, finished) = on_fin capture_host check_question w1 in
    let (w3, completed) =
      runtime_on_send_complete capture_host check_question w2 w2.state.0.len false in
    (
      w3,
      all_hold (
          received
          ∷ not w1.state.0.called
          ∷ finished
          ∷ w2.state.0.called
          ∷ (w2.state.0.stream_id == 31)
          ∷ (w2.state.0.len == 35)
          ∷ w2.state.0.fin
          ∷ agrees (w2.heap 0) exact_a_query 35
          ∷ buffer_agrees w2.adapter.send_buffer expected_validated_stream_response 35
          ∷ (w2.queue.count == 0)
          ∷ completed
          ∷ (w3.adapter.connection.num == 0)
          ∷ (w3.queue.count == 0)
          ∷ []),
    )

-- One byte of a request, reset twice.
unfoldable pub smoke_reset : QuestionCheck → (ℕ → Event) → World State × Bool
smoke_reset check_question events =
    let (w1, received) =
      on_receive capture_host check_question (fresh events 37 4)
        (some ((some (bytes_of (0 ∷ [])), 1) ∷ [])) in
    let (w2, reset) = runtime_on_stream_reset capture_host check_question w1 in
    let (w3, again) = runtime_on_stream_reset capture_host check_question w2 in
    (
      w3,
      all_hold (
          received
          ∷ not w1.state.0.called
          ∷ (w1.adapter.connection.num == 1)
          ∷ reset
          ∷ (w2.adapter.connection.num == 0)
          ∷ again
          ∷ (w3.queue.count == 0)
          ∷ []),
    )

-- A buffer that is larger than the ingress buffer, whose pointer is 1, is refused. The query has
-- been zeroed by now.
unfoldable pub smoke_undersized : QuestionCheck → World State → Bool
smoke_undersized check_question w =
    let w1 : World State = record w {
      queue = queue_init true w.queue.events 1;
      state = (w.state.0, runtime_stream_init true true 31 (some 1) 1);
    } in
    let (w2, received) =
      on_receive capture_host check_question w1 (some ((some zero_bytes, 35) ∷ [])) in
    all_hold (not received ∷ (w2.queue.count == 0) ∷ [])

unfoldable pub ism_smoke_msquic_runtime : QuestionCheck → (ℕ → Event) → Bool
ism_smoke_msquic_runtime check_question events =
    let (w, answered) = smoke_answer check_question events in
    let (v, ended) = smoke_reset check_question w.queue.events in
    all_hold (answered ∷ ended ∷ smoke_undersized check_question v ∷ [])
