-- ===== src/Stream/Extents.antt =====
-- `handle_stream_data` of src/transport/DNS.QUIC.StreamMapping.fst reads no byte behind the fragment.
use ism.Prelude.{
  ℕ, ◌+◌, ◌-◌, ◌≤◌, ◌<◌, ◌≡◌, ap, ap₂, ◌∙◌, fun_ext, arith, Bytes, copy_bytes, ltb, if◌then◌else◌,
}
use ism.Stream.{
  Stream, Phase, CopyPlan, byte_or_zero, fragment_copy_plan, next_stream_phase, fragment_phase,
  copy_body_bytes, handle_stream_data,
}

source_le :
    (p : Phase) (len first second : ℕ)
    → let plan = fragment_copy_plan p len first second in plan.source_offset + plan.count ≤ len
unfolding fragment_copy_plan
source_le p len first second = ground arith

module _ (b c : Bytes) (len : ℕ) (agree : (i : ℕ) → i < len → b i ≡ c i) where
  byte_or_zero-agree : (i : ℕ) → byte_or_zero b len i ≡ byte_or_zero c len i
  byte_or_zero-agree i = ground (arith, agree i)

  copy_bytes-agree :
      (plan : CopyPlan) (to : Bytes)
      → plan.source_offset + plan.count ≤ len
      → copy_bytes b plan.source_offset to plan.destination_offset plan.count
        ≡ copy_bytes c plan.source_offset to plan.destination_offset plan.count
  copy_bytes-agree plan to l = fun_ext λ i. at i
    where
      at :
          (i : ℕ)
          → copy_bytes b plan.source_offset to plan.destination_offset plan.count i
            ≡ copy_bytes c plan.source_offset to plan.destination_offset plan.count i
      at i = ground (arith, agree (plan.source_offset + i - plan.destination_offset), l)

  -- Fragments with the same bytes are handled alike, whatever stands behind them in the buffer.
  pub handle_stream_data-agree :
      (s : Stream) → handle_stream_data s b len ≡ handle_stream_data s c len
  unfolding handle_stream_data next_stream_phase copy_body_bytes
  handle_stream_data-agree s =
      ap₂ (λ first second. taken b first second) (byte_or_zero-agree 0) (byte_or_zero-agree 1)
      ∙ copied (byte_or_zero c len 0) (byte_or_zero c len 1)
    where
      taken : Bytes → ℕ → ℕ → Stream
      taken d first second =
          let plan = fragment_copy_plan s.phase len first second in
          record s {
            phase = fragment_phase s.phase len first second;
            message =
                if ltb 0 plan.count
                then copy_bytes d plan.source_offset s.message plan.destination_offset plan.count
                else s.message;
          }

      copied : (first second : ℕ) → taken b first second ≡ taken c first second
      copied first second =
          let plan = fragment_copy_plan s.phase len first second in
          ap
            (λ m. record s {
              phase = fragment_phase s.phase len first second;
              message = if ltb 0 plan.count then m else s.message;
            })
            (copy_bytes-agree plan s.message (source_le s.phase len first second))
