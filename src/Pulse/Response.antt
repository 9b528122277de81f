-- ===== src/Pulse/Response.antt =====
-- The Pulse build of the response framing: migration/c/ism_pulse_response.c with the range tests of
-- migration/c/pulse_response_ranges.h, the verified core of migration/DNS.Migration.PulseResponse.fst,
-- and the shell's side, shell/pulse_response_adapter.c.
pub mod Agree
use ism.Prelude.{
  ℕ, ◌+◌, Bool, true, false, not, ltb, leb, ◌==◌, ◌&&◌, ◌||◌, if◌then◌else◌, Bytes, update,
}
use ism.Stream.{Stream}
use ism.Response.{framed_length, prefix_hi, prefix_lo, prepare_response_send_for_stream}
use ism.Pulse.{Buffer, range_ok, add_address, copy_range}

-- Empty ranges carry no bytes and overlap nothing.
unfoldable pub response_disjoint : ℕ → ℕ → ℕ → ℕ → Bool
response_disjoint a an b bn =
    range_ok a an
    && (range_ok b bn
        && (an == 0 || (bn == 0 || (leb (add_address a an) b || leb (add_address b bn) a))))

unfoldable pub frame_response : Bytes → Bytes → ℕ → ℕ → ℕ × Bytes
frame_response response out length capacity =
    if framed_length length capacity == 0 then (0, out) else (
      framed_length length capacity,
      copy_range response (update (update out 0 (prefix_hi length)) 1 (prefix_lo length)) 0 2
          length,
    )

-- An empty response is read from a local byte, which is in memory and of which nothing is read.
abbrev pub source_ok : Buffer → Buffer → Bool
source_ok response out =
    if response.size == 0
    then range_ok out.address out.size
    else response_disjoint response.address response.size out.address out.size

unfoldable pub response_frame : Buffer → ℕ → Buffer → ℕ → ℕ × Bytes
response_frame response length out capacity =
    if ltb response.size length || (ltb out.size capacity || not (range_ok out.address out.size))
    then (0, out.bytes)
    else if not (source_ok response out)
    then (0, out.bytes)
    else frame_response response.bytes out.bytes length capacity

-- The framed bytes are handed on by the descriptor of the stream.
abbrev pub described : Stream → Bool → ℕ × Bytes → ℕ × Bytes
described s fin (framed, out) =
    if framed == 0 then (0, out) else (prepare_response_send_for_stream s out framed fin, out)

-- The context stands at `context`, in `context_size` bytes, and has a message buffer; the versions
-- of both sides are the same constant.
unfoldable pub prepare_doq_response : ℕ → ℕ → Stream → Buffer → Buffer → Bool → ℕ × Bytes
prepare_doq_response context context_size s response out fin =
    if not (response_disjoint context context_size out.address out.size)
    then (0, out.bytes)
    else described s fin (response_frame response response.size out out.size)
