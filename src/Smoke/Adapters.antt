-- ===== src/Smoke/Adapters.antt =====
-- shell/link_msquic_adapter_smoke.c.
use ism.Prelude.{ℕ, Bool, true, false, not, ltb, ◌==◌, if◌then◌else◌, some, Bytes, [], ◌∷◌, add_u32}
use ism.Worker.{QuestionCheck}
use ism.Adapter.{
  Adapter, Send, adapter_init, on_authenticated_stream_bytes, adapter_on_authenticated_stream_fin,
  prepare_ready_response, on_send_complete, on_stream_reset,
}
use ism.Smoke.{
  bytes_of, exact_a_query, expected_validated_stream_response, invalid_header_query,
  expected_formerr_stream, zero_bytes, buffer_agrees, all_hold,
}

-- `fake_msquic_send`.
pub record FakeMsquicSend : Type 0 where
  pub called : Bool
  pub calls : ℕ
  pub stream_id : ℕ
  pub len : ℕ
  pub fin : Bool
  pub first : ℕ
  pub second : ℕ
  pub rcode_low : ℕ
  pub fail : Bool

abbrev pub no_capture : Bool → FakeMsquicSend
no_capture fail = record {
  called = false;
  calls = 0;
  stream_id = 0;
  len = 0;
  fin = false;
  first = 0;
  second = 0;
  rcode_low = 0;
  fail = fail;
}

abbrev pub fake_send : Send FakeMsquicSend
fake_send capture id bytes len fin = (
  record capture {
    called = true;
    calls = add_u32 capture.calls 1;
    stream_id = id;
    len = len;
    fin = fin;
    first = if ltb 0 len then bytes 0 else capture.first;
    second = if ltb 1 len then bytes 1 else capture.second;
    rcode_low = if ltb 5 len then bytes 5 else capture.rcode_low;
  },
  not capture.fail,
)

abbrev pub ingest_with_fin :
    QuestionCheck → Adapter → FakeMsquicSend → ℕ → Bytes → ℕ → ℕ × Adapter × FakeMsquicSend
ingest_with_fin check_question a capture id bytes len =
    let (phase, a', c) =
      on_authenticated_stream_bytes check_question fake_send a capture id (some bytes) len in
    let fin = adapter_on_authenticated_stream_fin check_question fake_send a' c id in
    if phase == 4 then fin else (phase, a', c)

-- The adapter over two zeroed arrays of this size.
abbrev fresh_adapter : ℕ → Adapter
fresh_adapter size = adapter_init (some zero_bytes) size (some zero_bytes) size true

-- The query is answered; then further responses, foreign completions and foreign resets are
-- refused, and resets of its stream end the send and find nothing to do.
unfoldable pub smoke_answer : QuestionCheck → FakeMsquicSend × Bool
smoke_answer check_question =
    let (phase, a1, c1) =
      ingest_with_fin check_question (fresh_adapter 128) (no_capture false) 17 exact_a_query 35 in
    let (prepared, a2, c2) = prepare_ready_response check_question fake_send a1 c1 17 in
    let (a3, other_complete) = on_send_complete a2 18 c2.len false in
    let (a4, other_reset) = on_stream_reset a3 18 in
    let (a5, long_complete) = on_send_complete a4 17 (add_u32 c2.len 1) false in
    let (a6, reset) = on_stream_reset a5 17 in
    let (a7, again) = on_stream_reset a6 17 in
    (
      c2,
      all_hold (
          (phase == 2)
          ∷ c1.called
          ∷ (c1.stream_id == 17)
          ∷ (c1.calls == 1)
          ∷ (c1.len == 35)
          ∷ c1.fin
          ∷ a1.send_in_flight
          ∷ (a1.send_stream_id == 17)
          ∷ (a1.send_len == c1.len)
          ∷ (c1.first == 0)
          ∷ (c1.second == 0x21)
          ∷ (c1.rcode_low == 0)
          ∷ buffer_agrees a1.send_buffer expected_validated_stream_response 35
          ∷ (prepared == 0)
          ∷ (c2.calls == 1)
          ∷ a2.send_in_flight
          ∷ not other_complete
          ∷ a3.send_in_flight
          ∷ not other_reset
          ∷ a4.send_in_flight
          ∷ not long_complete
          ∷ a5.send_in_flight
          ∷ reset
          ∷ not a6.send_in_flight
          ∷ (a6.send_len == 0)
          ∷ (a6.connection.num == 0)
          ∷ again
          ∷ (a7.connection.num == 0)
          ∷ []),
    )

-- A query whose counts are wrong is answered with a format error, and its send completed.
unfoldable pub smoke_invalid : QuestionCheck → Bool
smoke_invalid check_question =
    let (phase, a1, c1) =
      ingest_with_fin check_question (fresh_adapter 128) (no_capture false) 19 invalid_header_query
        14 in
    let (a2, completed) = on_send_complete a1 19 c1.len false in
    all_hold (
      (phase == 2)
      ∷ c1.called
      ∷ (c1.stream_id == 19)
      ∷ (c1.calls == 1)
      ∷ (c1.len == 14)
      ∷ c1.fin
      ∷ a1.send_in_flight
      ∷ (a1.send_stream_id == 19)
      ∷ (a1.send_len == c1.len)
      ∷ (c1.first == 0)
      ∷ (c1.second == 0x0c)
      ∷ (c1.rcode_low == 1)
      ∷ buffer_agrees a1.send_buffer expected_formerr_stream 14
      ∷ completed
      ∷ not a2.send_in_flight
      ∷ (a2.send_len == 0)
      ∷ (a2.connection.num == 0)
      ∷ [])

-- Without capacity nothing is prepared or completed.
unfoldable pub smoke_capped : QuestionCheck → FakeMsquicSend → Bool
smoke_capped check_question capture =
    let a = adapter_init (some zero_bytes) 0 (some zero_bytes) 0 true in
    let (prepared, a1, c1) = prepare_ready_response check_question fake_send a capture 17 in
    let (a2, completed) = on_send_complete a1 17 0 false in
    all_hold ((prepared == 0) ∷ not completed ∷ [])

-- A request that has begun is reset, and reset again.
unfoldable pub smoke_reset : QuestionCheck → Bool
smoke_reset check_question =
    let (phase, a1, c1) =
      ingest_with_fin check_question (fresh_adapter 128) (no_capture false) 23 (bytes_of (0 ∷ []))
        1 in
    let (a2, reset) = on_stream_reset a1 23 in
    let (a3, again) = on_stream_reset a2 23 in
    all_hold (
      (phase == 0)
      ∷ (c1.calls == 0)
      ∷ (a1.connection.num == 1)
      ∷ reset
      ∷ (a2.connection.num == 0)
      ∷ not a2.send_in_flight
      ∷ again
      ∷ (a3.connection.num == 0)
      ∷ [])

-- A response that the callback refuses closes its stream.
unfoldable pub smoke_failed_send : QuestionCheck → Bool
smoke_failed_send check_question =
    let (phase, a, c) =
      ingest_with_fin check_question (fresh_adapter 128) (no_capture true) 17 exact_a_query 35 in
    all_hold (
      (phase == 2)
      ∷ (c.calls == 1)
      ∷ not a.send_in_flight
      ∷ (a.send_stream_id == 0)
      ∷ (a.send_len == 0)
      ∷ (a.connection.num == 0)
      ∷ [])

unfoldable pub ism_smoke_msquic_adapter : QuestionCheck → Bool
ism_smoke_msquic_adapter check_question =
    let (capture, answered) = smoke_answer check_question in
    all_hold (
      answered
      ∷ smoke_invalid check_question
      ∷ smoke_capped check_question capture
      ∷ smoke_reset check_question
      ∷ smoke_failed_send check_question
      ∷ [])
