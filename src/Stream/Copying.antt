-- ===== src/Stream/Copying.antt =====
-- Where `copy_body_bytes` of src/transport/DNS.QUIC.StreamMapping.fst writes.
use ism.Prelude.{ℕ, ◌+◌, ◌≤◌, ◌<◌, arith}
use ism.Stream.{Phase, reading_length, reading_length_high, message_capacity, fragment_copy_plan}
use ism.Stream.Phases.{IsValid, u32_from_be_u16_bytes-le}

-- The copy of a fragment reads only bytes of the fragment and writes only inside the message
-- buffer, also where the fragment is then rejected.
pub fragment_copy_plan_bounds :
    (p : Phase) (len first second : ℕ)
    → first < 256
    → second < 256
    → IsValid p
    → let plan = fragment_copy_plan p len first second in
      (plan.source_offset + plan.count ≤ len)
      × (plan.destination_offset + plan.count ≤ message_capacity)
unfolding fragment_copy_plan
fragment_copy_plan_bounds reading_length len first second f s v =
    ground (arith, u32_from_be_u16_bytes-le first second f s)
fragment_copy_plan_bounds (reading_length_high hi) len first second f s v =
    ground (arith, u32_from_be_u16_bytes-le hi first v f)
fragment_copy_plan_bounds _ len first second f s v = ground arith
