-- ===== src/Pulse.antt =====
-- The Pulse build of the ingress: the neutral wire format and entry points of
-- migration/c/ism_pulse_stream.c and migration/c/pulse_phase_decode.h, the verified core of
-- migration/DNS.Migration.PulseStream.fst, and the shell's side of the boundary,
-- shell/pulse_stream_adapter.c. An address is a number, 0 for NULL; arithmetic on addresses is that
-- of `uintptr_t` with 64 bits.
pub mod Codec
pub mod Ingress
pub mod Tables
pub mod Response
pub mod Shell
use ism.Prelude.{
  ℕ, zero, suc, ◌+◌, ◌-◌, ◌%◌, ◌^◌, Bool, true, false, not, ltb, leb, ◌==◌, ◌&&◌, ◌||◌,
  if◌then◌else◌, Option, none, some, Bytes, update,
}
use ism.Stream.{
  Stream, Phase, CopyPlan, reading_length, reading_length_high, reading_message, awaiting_fin,
  processing, done, message_capacity, byte_or_zero, fragment_phase, fragment_copy_plan,
  finish_doq_phase,
}

-- `ism_pulse_phase`.
pub record WirePhase : Type 0 where
  pub expected : ℕ
  pub current : ℕ
  pub tag : ℕ
  pub high : ℕ

abbrev pub tagged : ℕ → WirePhase
tagged tag = record { expected = 0; current = 0; tag = tag; high = 0 }

unfoldable pub phase_to_wire : Phase → WirePhase
phase_to_wire reading_length = tagged 0
phase_to_wire (reading_length_high hi) = record { expected = 0; current = 0; tag = 1; high = hi }
phase_to_wire (reading_message expected current) = record {
  expected = expected;
  current = current;
  tag = 2;
  high = 0;
}
phase_to_wire (awaiting_fin expected) = record {
  expected = expected;
  current = 0;
  tag = 3;
  high = 0;
}
phase_to_wire (processing expected) = record { expected = expected; current = 0; tag = 4; high = 0 }
phase_to_wire done = tagged 5

-- An unknown tag is read as `done`.
unfoldable pub phase_from_wire : WirePhase → Phase
phase_from_wire w =
    if w.tag == 0
    then reading_length
    else if w.tag == 1
    then reading_length_high w.high
    else if w.tag == 2
    then reading_message w.expected w.current
    else if w.tag == 3
    then awaiting_fin w.expected
    else if w.tag == 4
    then processing w.expected
    else done

-- The other side refuses an unknown tag, and a length that no message can have.
unfoldable pub decode_phase : WirePhase → Option Phase
decode_phase w =
    if w.tag == 0
    then some reading_length
    else if w.tag == 1
    then some (reading_length_high w.high)
    else if w.tag == 2
    then if ltb message_capacity w.expected
      then none
      else some (reading_message w.expected w.current)
    else if w.tag == 3
    then if ltb message_capacity w.expected then none else some (awaiting_fin w.expected)
    else if w.tag == 4
    then if ltb message_capacity w.expected then none else some (processing w.expected)
    else if w.tag == 5
    then some done
    else none

-- `ism_pulse_result`: the phase with the shell's code.
abbrev pub rejected : WirePhase × ℕ
rejected = (tagged 5, 3)

unfoldable pub encode : Phase → WirePhase × ℕ
encode reading_length = (tagged 0, 0)
encode (reading_length_high hi) = (record { expected = 0; current = 0; tag = 1; high = hi }, 0)
encode (reading_message expected current) =
    (record { expected = expected; current = current; tag = 2; high = 0 }, 1)
encode (awaiting_fin expected) = (record { expected = expected; current = 0; tag = 3; high = 0 }, 4)
encode (processing expected) = (record { expected = expected; current = 0; tag = 4; high = 0 }, 2)
encode done = rejected

abbrev pub max_address : ℕ
max_address = 2 ^ 64 - 1

abbrev pub add_address : ℕ → ℕ → ℕ
add_address a n = (a + n) % 2 ^ 64

unfoldable pub range_ok : ℕ → ℕ → Bool
range_ok p n = not (p == 0) && leb n (max_address - p)

unfoldable pub disjoint : ℕ → ℕ → ℕ → ℕ → Bool
unfolding range_ok
disjoint a an b bn =
    range_ok a an && (range_ok b bn && (leb (add_address a an) b || leb (add_address b bn) a))

-- The `k` bytes from the `i`-th on.
unfoldable pub copy_range_from : Bytes → Bytes → ℕ → ℕ → ℕ → ℕ → Bytes
copy_range_from src dst source destination zero i = dst
copy_range_from src dst source destination (suc k) i =
    copy_range_from src (update dst (destination + i) (src (source + i))) source destination k
      (i + 1)

unfoldable pub copy_range : Bytes → Bytes → ℕ → ℕ → ℕ → Bytes
copy_range src dst source destination count = copy_range_from src dst source destination count 0

-- The phase that is returned is the phase that is stored.
unfoldable pub pulse_handle_stream_data : Phase → Bytes → Bytes → ℕ → Phase × Bytes
pulse_handle_stream_data phase message input len =
    let first = byte_or_zero input len 0 in
    let second = byte_or_zero input len 1 in
    let plan = fragment_copy_plan phase len first second in
    (
      fragment_phase phase len first second,
      copy_range input message plan.source_offset plan.destination_offset plan.count,
    )

unfoldable pub pulse_handle_stream_fin : Phase → Bytes → Phase
pulse_handle_stream_fin phase message = finish_doq_phase phase (message 0) (message 1)

-- A buffer in memory.
pub record Buffer : Type 0 where
  pub address : ℕ
  pub size : ℕ
  pub bytes : Bytes

-- The result with the message's bytes.
abbrev pub encoded : Phase × Bytes → (WirePhase × ℕ) × Bytes
encoded (phase, message) = (encode phase, message)

abbrev pub empty_input : Bytes
empty_input i = 0

-- With a phase that has been decoded.
abbrev pub stream_data_decoded : Phase → Buffer → Buffer → ℕ → (WirePhase × ℕ) × Bytes
stream_data_decoded phase message input len =
    if ltb message.size message_capacity
      || (not (range_ok message.address message.size) || ltb input.size len)
    then (rejected, message.bytes)
    else if len == 0
    then encoded (pulse_handle_stream_data phase message.bytes empty_input len)
    else if not (disjoint message.address message.size input.address input.size)
    then (rejected, message.bytes)
    else encoded (pulse_handle_stream_data phase message.bytes input.bytes len)

unfoldable pub pulse_stream_data : WirePhase → Buffer → Buffer → ℕ → (WirePhase × ℕ) × Bytes
pulse_stream_data phase message input len = elim (decode_phase phase) [
  | none ↦ (rejected, message.bytes)
  | some p ↦ stream_data_decoded p message input len
]

abbrev pub stream_fin_decoded : Phase → Buffer → WirePhase × ℕ
stream_fin_decoded phase message =
    if ltb message.size 2 || not (range_ok message.address message.size)
    then rejected
    else encode (pulse_handle_stream_fin phase message.bytes)

unfoldable pub pulse_stream_fin : WirePhase → Buffer → WirePhase × ℕ
pulse_stream_fin phase message = elim (decode_phase phase) [
  | none ↦ rejected
  | some p ↦ stream_fin_decoded p message
]

abbrev pub reject : Stream → Stream × ℕ
reject s = (record s { phase = done }, 3)

-- The context's message buffer at this address.
abbrev pub message_buffer : Stream → ℕ → Buffer
message_buffer s address = record { address = address; size = message_capacity; bytes = s.message }

abbrev pub stored_result : Stream → (WirePhase × ℕ) × Bytes → Stream × ℕ
stored_result s ((phase, code), message) =
    (record s { phase = phase_from_wire phase; message = message }, code)

-- The versions of both sides are the same constant, so that test always passes.
unfoldable pub ingress_data : Stream → ℕ → ℕ → ℕ → Bytes → ℕ → Stream × ℕ
ingress_data s message_address id data_address input len =
    if not (s.id == id)
    then reject s
    else stored_result s (
        pulse_stream_data (phase_to_wire s.phase) (message_buffer s message_address)
          (record { address = data_address; size = len; bytes = input }) len)

abbrev pub stored_phase : Stream → WirePhase × ℕ → Stream × ℕ
stored_phase s (phase, code) = (record s { phase = phase_from_wire phase }, code)

unfoldable pub ingress_fin : Stream → ℕ → Stream × ℕ
ingress_fin s message_address =
    stored_phase s (pulse_stream_fin (phase_to_wire s.phase) (message_buffer s message_address))
