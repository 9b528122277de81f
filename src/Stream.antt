-- ===== src/Stream.antt =====
-- The DoQ length framing of one QUIC stream: src/transport/DNS.QUIC.StreamModel.fst with the
-- buffer operations of src/transport/DNS.QUIC.StreamMapping.fst and the phase codes of
-- src/concurrency/DNS.ShellBoundary.fst, which the C shell calls for each authenticated
-- fragment. The two phase types of the source have the same constructors, and are one here.
pub mod Phases
pub mod Copying
pub mod Extents
pub mod Messages
use ism.Prelude.{
  ℕ, zero, suc, ◌+◌, ◌-◌, ◌*◌, ◌%◌, ◌^◌, ltb, leb, ◌==◌, ◌&&◌, ◌||◌, if◌then◌else◌, Bytes,
  copy_bytes, add_u32,
}

-- `stream_phase`.
pub data Phase : Type 0 where
  reading_length : Phase
  reading_length_high : ℕ → Phase
  reading_message : ℕ → ℕ → Phase
  awaiting_fin : ℕ → Phase
  processing : ℕ → Phase
  done : Phase

-- `stream_context`, with the bytes that `sc_buf` points to.
pub record Stream : Type 0 where
  pub id : ℕ
  pub phase : Phase
  pub message : Bytes

abbrev pub message_capacity : ℕ
message_capacity = 65535

unfoldable pub u32_from_be_u16_bytes : ℕ → ℕ → ℕ
u32_from_be_u16_bytes hi lo = add_u32 (hi * 2 ^ 8 % 2 ^ 32) lo

unfoldable pub body_bytes_after_prefix : ℕ → ℕ
body_bytes_after_prefix len = if leb 2 len then len - 2 else 0

unfoldable pub body_bytes_after_stored_prefix : ℕ → ℕ
body_bytes_after_stored_prefix len = if leb 1 len then len - 1 else 0

unfoldable pub advance_message : ℕ → ℕ → ℕ → Phase
advance_message expected current incoming =
    if leb expected (add_u32 current incoming)
    then awaiting_fin expected
    else reading_message expected (add_u32 current incoming)

unfoldable pub remaining_message : ℕ → ℕ → ℕ
remaining_message expected current = if leb expected current then 0 else expected - current

unfoldable pub advance_message_checked : ℕ → ℕ → ℕ → Phase
unfolding advance_message remaining_message
advance_message_checked expected current incoming =
    if ltb expected 12 || ltb expected current || ltb (remaining_message expected current) incoming
    then done
    else advance_message expected current incoming

unfoldable pub advance_body_phase : Phase → ℕ → Phase
advance_body_phase (reading_message expected current) incoming =
    advance_message_checked expected current incoming
advance_body_phase (awaiting_fin expected) incoming =
    if ltb 0 incoming then done else awaiting_fin expected
advance_body_phase (processing expected) incoming =
    if ltb 0 incoming then done else processing expected
advance_body_phase reading_length incoming = done
advance_body_phase (reading_length_high hi) incoming = done
advance_body_phase done incoming = done

-- The phase after `len` bytes that begin with `first` and `second`.
unfoldable pub fragment_phase : Phase → ℕ → ℕ → ℕ → Phase
unfolding body_bytes_after_prefix body_bytes_after_stored_prefix
fragment_phase (reading_length_high hi) len first second =
    if leb 1 len
    then advance_message_checked (u32_from_be_u16_bytes hi first) 0
        (body_bytes_after_stored_prefix len)
    else reading_length_high hi
fragment_phase reading_length len first second =
    if leb 2 len
    then advance_message_checked (u32_from_be_u16_bytes first second) 0
        (body_bytes_after_prefix len)
    else if len == 1
    then reading_length_high first
    else reading_length
fragment_phase (reading_message expected current) len first second =
    advance_body_phase (reading_message expected current) len
fragment_phase (awaiting_fin expected) len first second =
    advance_body_phase (awaiting_fin expected) len
fragment_phase (processing expected) len first second = advance_body_phase (processing expected) len
fragment_phase done len first second = advance_body_phase done len

unfoldable pub finish_stream_phase : Phase → Phase
finish_stream_phase (awaiting_fin expected) = processing expected
finish_stream_phase (processing expected) = processing expected
finish_stream_phase reading_length = done
finish_stream_phase (reading_length_high hi) = done
finish_stream_phase (reading_message expected current) = done
finish_stream_phase done = done

-- A DoQ message has the DNS ID 0.
unfoldable pub finish_doq_phase : Phase → ℕ → ℕ → Phase
unfolding finish_stream_phase
finish_doq_phase phase id_hi id_lo =
    if id_hi == 0 && id_lo == 0 then finish_stream_phase phase else done

unfoldable pub bounded_copy_len : ℕ → ℕ → ℕ
bounded_copy_len available wanted = if ltb available wanted then available else wanted

pub record CopyPlan : Type 0 where
  pub source_offset : ℕ
  pub destination_offset : ℕ
  pub count : ℕ

abbrev empty_plan : CopyPlan
empty_plan = record { source_offset = 0; destination_offset = 0; count = 0 }

-- Which bytes of the fragment go where in the message buffer.
unfoldable pub fragment_copy_plan : Phase → ℕ → ℕ → ℕ → CopyPlan
unfolding bounded_copy_len body_bytes_after_prefix body_bytes_after_stored_prefix remaining_message
fragment_copy_plan (reading_length_high hi) len first second =
    if leb 1 len
    then record {
      source_offset = 1;
      destination_offset = 0;
      count =
          bounded_copy_len (body_bytes_after_stored_prefix len) (u32_from_be_u16_bytes hi first);
    }
    else empty_plan
fragment_copy_plan reading_length len first second =
    if leb 2 len
    then record {
      source_offset = 2;
      destination_offset = 0;
      count = bounded_copy_len (body_bytes_after_prefix len) (u32_from_be_u16_bytes first second);
    }
    else empty_plan
fragment_copy_plan (reading_message expected current) len first second =
    if ltb current expected
    then record {
      source_offset = 0;
      destination_offset = current;
      count = bounded_copy_len len (remaining_message expected current);
    }
    else empty_plan
fragment_copy_plan (awaiting_fin expected) len first second = empty_plan
fragment_copy_plan (processing expected) len first second = empty_plan
fragment_copy_plan done len first second = empty_plan

-- The byte at `i`, where the fragment has one.
abbrev pub byte_or_zero : Bytes → ℕ → ℕ → ℕ
byte_or_zero input len i = if ltb i len then input i else 0

unfoldable pub next_stream_phase : Stream → Bytes → ℕ → Phase
unfolding fragment_phase
next_stream_phase s input len =
    fragment_phase s.phase len (byte_or_zero input len 0) (byte_or_zero input len 1)

-- Without a byte to copy the message stays as it is.
unfoldable pub copy_body_bytes : Stream → Bytes → ℕ → Bytes
unfolding fragment_copy_plan
copy_body_bytes s input len =
    let plan =
      fragment_copy_plan s.phase len (byte_or_zero input len 0) (byte_or_zero input len 1) in
    if ltb 0 plan.count
    then copy_bytes input plan.source_offset s.message plan.destination_offset plan.count
    else s.message

unfoldable pub handle_stream_data : Stream → Bytes → ℕ → Stream
unfolding next_stream_phase copy_body_bytes
handle_stream_data s input len = record s {
  phase = next_stream_phase s input len;
  message = copy_body_bytes s input len;
}

unfoldable pub handle_stream_fin : Stream → Stream
unfolding finish_doq_phase
handle_stream_fin s = record s { phase = finish_doq_phase s.phase (s.message 0) (s.message 1) }

-- The code by which the C shell knows a phase.
unfoldable pub shell_phase_code : Phase → ℕ
shell_phase_code reading_length = 0
shell_phase_code (reading_length_high hi) = 0
shell_phase_code (reading_message expected current) = 1
shell_phase_code (processing expected) = 2
shell_phase_code done = 3
shell_phase_code (awaiting_fin expected) = 4
