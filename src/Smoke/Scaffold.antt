-- ===== src/Smoke/Scaffold.antt =====
-- shell/link_shell_scaffold_smoke.c.
use ism.Prelude.{ℕ, Bool, true, false, not, ◌==◌, if◌then◌else◌, Option, some, none, Bytes, [], ◌∷◌}
use ism.Table.{
  Connection, max_streams, connection_init, find_stream, open_stream, on_authenticated_stream_data,
  on_authenticated_stream_fin, dispatch_authenticated_stream_data, complete_response_send,
  dispatch_response_send_finished,
}
use ism.Response.{prepare_response_send, prepare_doq_response_send}
use ism.Worker.{
  QuestionCheck, process_ready_stream, process_ready_stream_empty_response, dispatch_ready_stream,
  dispatch_ready_stream_empty_response, process_ready_stream_validated_minimal_response,
  dispatch_ready_stream_validated_minimal_response,
}
use ism.Smoke.{
  bytes_of, exact_a_query, expected_validated_response, expected_validated_stream_response,
  invalid_header_query, expected_formerr_stream, zero_bytes, agrees, all_hold,
}

abbrev pub ingest_direct_complete : Connection → ℕ → Bytes → ℕ → Connection × ℕ
ingest_direct_complete c id bytes len =
    let (c', phase) = on_authenticated_stream_data c id bytes len in
    let fin = on_authenticated_stream_fin c' id in if phase == 4 then fin else (c', phase)

abbrev pub ingest_scheduler_complete : Connection → ℕ → Bytes → ℕ → Connection × ℕ
ingest_scheduler_complete c id bytes len =
    let (c', phase) = dispatch_authenticated_stream_data c id bytes len in
    let fin = on_authenticated_stream_fin c' id in if phase == 4 then fin else (c', phase)

abbrev is_there : Option ℕ → Bool
is_there none = false
is_there (some p) = true

abbrev header_only_doq_message : Bytes
header_only_doq_message = bytes_of (0 ∷ 12 ∷ [])

-- The headers of an error and of a response without records.
abbrev error_header : Bytes
error_header = bytes_of (0 ∷ 0 ∷ 0x81 ∷ 1 ∷ [])

abbrev empty_header : Bytes
empty_header = bytes_of (0 ∷ 0 ∷ 0x81 ∷ [])

-- Streams are taken in, completed and opened beside one another.
unfoldable pub smoke_table : Bool
smoke_table =
    let c0 = connection_init in
    let (c1, phase) = ingest_direct_complete c0 7 header_only_doq_message 14 in
    let prepared = prepare_response_send c1 7 zero_bytes 0 true in
    let (c2, completed) = complete_response_send c1 7 false in
    let (c3, first) = ingest_direct_complete c2 7 header_only_doq_message 14 in
    let (c4, second) = ingest_direct_complete c3 9 header_only_doq_message 14 in
    let (c5, again) = complete_response_send c4 7 false in
    let (c6, third) = open_stream c5 11 in
    all_hold (
      (c0.num == 0)
      ∷ (c0.capacity == max_streams)
      ∷ (phase == 2)
      ∷ (c1.num == 1)
      ∷ (prepared == 0)
      ∷ (completed == 1)
      ∷ (c2.num == 0)
      ∷ (first == 2)
      ∷ (second == 2)
      ∷ (c4.num == 2)
      ∷ (again == 1)
      ∷ (c5.num == 1)
      ∷ not (is_there (find_stream c5 7))
      ∷ is_there (find_stream c5 9)
      ∷ is_there third
      ∷ (c6.num == 2)
      ∷ is_there (find_stream c6 9)
      ∷ is_there (find_stream c6 11)
      ∷ [])

-- The error worker, directly and by the scheduler, whose send is finished.
unfoldable pub smoke_error_worker : Bool
smoke_error_worker =
    let (c, phase) = ingest_direct_complete connection_init 13 exact_a_query 35 in
    let (len, out) = process_ready_stream c 13 zero_bytes 128 in
    let (d, scheduled) = ingest_scheduler_complete connection_init 15 exact_a_query 35 in
    let (dlen, dout) = dispatch_ready_stream d 15 zero_bytes 128 in
    let (e, finished) = dispatch_response_send_finished d 15 false in
    all_hold (
      (phase == 2)
      ∷ (len == 12)
      ∷ agrees out error_header 12
      ∷ (scheduled == 2)
      ∷ (dlen == 12)
      ∷ agrees dout error_header 12
      ∷ (finished == 1)
      ∷ (e.num == 0)
      ∷ [])

unfoldable pub smoke_empty_worker : Bool
smoke_empty_worker =
    let (c, phase) = ingest_direct_complete connection_init 17 exact_a_query 35 in
    let (len, out) = process_ready_stream_empty_response c 17 zero_bytes 128 in
    let (d, scheduled) = ingest_scheduler_complete connection_init 19 exact_a_query 35 in
    let (dlen, dout) = dispatch_ready_stream_empty_response d 19 zero_bytes 128 in
    let (e, finished) = dispatch_response_send_finished d 19 false in
    all_hold (
      (phase == 2)
      ∷ (len == 12)
      ∷ agrees out empty_header 12
      ∷ (scheduled == 2)
      ∷ (dlen == 12)
      ∷ agrees dout empty_header 12
      ∷ (finished == 1)
      ∷ (e.num == 0)
      ∷ [])

-- The validated worker, directly, and by the scheduler with the framing of its response.
unfoldable pub smoke_validated_worker : QuestionCheck → Bool
smoke_validated_worker check_question =
    let (c, phase) = ingest_direct_complete connection_init 21 exact_a_query 35 in
    let (len, out) =
      process_ready_stream_validated_minimal_response check_question c 21 zero_bytes 128 in
    let (d, scheduled) = ingest_scheduler_complete connection_init 23 exact_a_query 35 in
    let (dlen, dout) =
      dispatch_ready_stream_validated_minimal_response check_question d 23 zero_bytes 128 in
    let (flen, framed) = prepare_doq_response_send d 23 dout dlen zero_bytes 128 true in
    let (e, finished) = dispatch_response_send_finished d 23 false in
    all_hold (
      (phase == 2)
      ∷ (len == 33)
      ∷ agrees out expected_validated_response 33
      ∷ (scheduled == 2)
      ∷ (dlen == 33)
      ∷ agrees dout expected_validated_response 33
      ∷ (flen == 35)
      ∷ agrees framed expected_validated_stream_response 35
      ∷ (finished == 1)
      ∷ (e.num == 0)
      ∷ [])

unfoldable pub smoke_invalid_request : QuestionCheck → Bool
smoke_invalid_request check_question =
    let (d, scheduled) = ingest_scheduler_complete connection_init 25 invalid_header_query 14 in
    let (len, out) =
      dispatch_ready_stream_validated_minimal_response check_question d 25 zero_bytes 128 in
    let (flen, framed) = prepare_doq_response_send d 25 out len zero_bytes 128 true in
    all_hold (
      (scheduled == 2)
      ∷ (len == 12)
      ∷ agrees out error_header 12
      ∷ (flen == 14)
      ∷ agrees framed expected_formerr_stream 14
      ∷ [])

unfoldable pub ism_smoke_shell_scaffold : QuestionCheck → Bool
ism_smoke_shell_scaffold check_question = all_hold (
    smoke_table
    ∷ smoke_error_worker
    ∷ smoke_empty_worker
    ∷ smoke_validated_worker check_question
    ∷ smoke_invalid_request check_question
    ∷ [])
