-- ===== src/Tests/Streams.antt =====
-- Runs of the phases and the messages of a stream: src/transport/DNS.QUIC.StreamModel.fst.
use ism.Prelude.{ℕ, ◌+◌, ◌≤◌, ◌<◌, ◌≡◌, refl, arith, [], ◌∷◌, ◌==◌, ◌&&◌, if◌then◌else◌}
use ism.Stream.{
  reading_length, reading_message, awaiting_fin, processing, done, message_capacity, fragment_phase,
  fragment_copy_plan, handle_stream_data, handle_stream_fin, next_stream_phase,
  advance_message_checked, u32_from_be_u16_bytes,
}
use ism.Stream.Phases.{fragment_phase-split, phase_after, skip}
use ism.Stream.Copying.{fragment_copy_plan_bounds}
use ism.Stream.Messages.{feed, feed-awaiting_fin, fin-feed}
use ism.Tests.{framed_zeros-IsFramed, framed_zeros, fresh_stream}

-- A message in two fragments, and FIN.
two_fragments : (feed fresh_stream framed_zeros (1 ∷ 13 ∷ [])).phase ≡ awaiting_fin 12
unfolding feed handle_stream_data next_stream_phase fragment_phase advance_message_checked
    u32_from_be_u16_bytes
two_fragments = refl

fragment_phase-split_example :
    phase_after (phase_after reading_length framed_zeros 1) (skip 1 framed_zeros) 13
    ≡ phase_after reading_length framed_zeros 14
fragment_phase-split_example = fragment_phase-split reading_length framed_zeros 1 13 tt

fragment_copy_plan_bounds_example :
    ((fragment_copy_plan (reading_message 20 4) 30 1 2).source_offset
        + (fragment_copy_plan (reading_message 20 4) 30 1 2).count
      ≤ 30)
    × ((fragment_copy_plan (reading_message 20 4) 30 1 2).destination_offset
          + (fragment_copy_plan (reading_message 20 4) 30 1 2).count
        ≤ message_capacity)
fragment_copy_plan_bounds_example =
    fragment_copy_plan_bounds (reading_message 20 4) 30 1 2 (omega arith) (omega arith)
      (omega arith, omega arith, omega arith)

feed-awaiting_fin_example :
    ((feed fresh_stream framed_zeros (1 ∷ 13 ∷ [])).phase ≡ awaiting_fin 12)
    × ((i : ℕ)
        → i < 12
        → (feed fresh_stream framed_zeros (1 ∷ 13 ∷ [])).message i ≡ framed_zeros (i + 2))
feed-awaiting_fin_example =
    feed-awaiting_fin fresh_stream framed_zeros 12 (1 ∷ 13 ∷ []) framed_zeros-IsFramed refl refl

fin-feed_example :
    (handle_stream_fin (feed fresh_stream framed_zeros (1 ∷ 13 ∷ []))).phase
    ≡ (if framed_zeros 2 == 0 && framed_zeros 3 == 0 then processing 12 else done)
fin-feed_example =
    fin-feed fresh_stream framed_zeros 12 (1 ∷ 13 ∷ []) framed_zeros-IsFramed refl refl
