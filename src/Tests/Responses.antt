-- ===== src/Tests/Responses.antt =====
-- Runs of the response framing and of the worker, src/transport/DNS.QUIC.ResponseModel.fst and
-- src/concurrency/DNS.Worker.Minimal.fst.
use ism.Prelude.{ℕ, ◌+◌, ◌≤◌, ◌<◌, ◌≡◌, ◌≢◌, ◌⊎◌, refl, true, false, arith, none, some, [], ◌∷◌}
use ism.Stream.{awaiting_fin}
use ism.Stream.Messages.{feed}
use ism.Response.{prepare_doq_response_send_for_stream}
use ism.Response.Framing.{framed_byte, prepare_doq_response_send_for_stream_lem, framing_roundtrip}
use ism.Worker.{
  scan_uncompressed_qname_length, validate_minimal_uncompressed_question_request,
  prepare_worker_validated_minimal_response_send,
}
use ism.Worker.Requests.{
  IsResponse, scan_uncompressed_qname_length-total,
  prepare_worker_validated_minimal_response_send_lem,
}
use ism.Tests.{zeros, fresh_stream, any_question}

prepare_doq_response_send_for_stream_lem_example :
    (((65535 < 12) ⊎ (20 < 12 + 2))
      × (prepare_doq_response_send_for_stream fresh_stream zeros 12 zeros 20 true ≡ (0, zeros)))
    ⊎ ((12 ≤ 65535)
        × (12 + 2 ≤ 20)
        × ((prepare_doq_response_send_for_stream fresh_stream zeros 12 zeros 20 true).0 ≡ 12 + 2)
        × ((i : ℕ)
            → (prepare_doq_response_send_for_stream fresh_stream zeros 12 zeros 20 true).1 i
              ≡ framed_byte zeros 12 zeros i))
prepare_doq_response_send_for_stream_lem_example =
    prepare_doq_response_send_for_stream_lem fresh_stream zeros 12 zeros 20 true (omega arith)

framing_roundtrip_example :
    ((feed fresh_stream
        (prepare_doq_response_send_for_stream fresh_stream zeros 12 zeros 20 true).1
        (5 ∷ 9 ∷ [])).phase
      ≡ awaiting_fin 12)
    × ((i : ℕ)
        → i < 12
        → (feed fresh_stream
              (prepare_doq_response_send_for_stream fresh_stream zeros 12 zeros 20 true).1
              (5 ∷ 9 ∷ [])).message
            i
          ≡ zeros i)
framing_roundtrip_example =
    framing_roundtrip fresh_stream zeros 12 zeros 20 true (omega arith) (omega arith) (omega arith)
      fresh_stream (5 ∷ 9 ∷ []) refl refl

scan_uncompressed_qname_length-total_example :
    (scan_uncompressed_qname_length 17 zeros 17 12 0 ≢ none)
    × ((n : ℕ) → scan_uncompressed_qname_length 17 zeros 17 12 0 ≡ some n → n ≤ 255)
scan_uncompressed_qname_length-total_example =
    scan_uncompressed_qname_length-total 17 zeros 17 12 0 (omega arith) (omega arith)

prepare_worker_validated_minimal_response_send_lem_example :
    (prepare_worker_validated_minimal_response_send any_question fresh_stream zeros 512 14
      ≡ (0, zeros))
    ⊎ (IsResponse fresh_stream zeros 512 14
          (prepare_worker_validated_minimal_response_send any_question fresh_stream zeros 512 14)
        × (12 ≤ 14)
        × (fresh_stream.message 0 ≡ 0)
        × (fresh_stream.message 1 ≡ 0)
        × (((validate_minimal_uncompressed_question_request any_question zeros 14 ≡ false)
              × ((prepare_worker_validated_minimal_response_send any_question fresh_stream zeros 512
                    14).0
                  ≡ 12)
              × ((prepare_worker_validated_minimal_response_send any_question fresh_stream zeros 512
                      14).1
                    3
                  ≡ 1))
            ⊎ ((validate_minimal_uncompressed_question_request any_question zeros 14 ≡ true)
                × ((prepare_worker_validated_minimal_response_send any_question fresh_stream zeros
                      512 14).0
                    ≡ 14)
                × (14 ≤ 271)
                × ((i : ℕ)
                    → 12 ≤ i
                    → i < 14
                    → (prepare_worker_validated_minimal_response_send any_question fresh_stream
                          zeros 512 14).1
                        i
                      ≡ zeros i))))
prepare_worker_validated_minimal_response_send_lem_example =
    prepare_worker_validated_minimal_response_send_lem any_question fresh_stream zeros 512 14
