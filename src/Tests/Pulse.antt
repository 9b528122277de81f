-- ===== src/Tests/Pulse.antt =====
-- Witnesses for the Pulse build.
use ism.Prelude.{ℕ, ◌+◌, ◌*◌, ◌<◌, ◌≡◌, ◌⊎◌, ◌≢◌, inr, refl, arith, true, false, none, some}
use ism.Stream.{reading_message, done, message_capacity}
use ism.Table.{
  max_streams, dispatch_authenticated_stream_data, on_authenticated_stream_fin,
  complete_response_send, dispatch_response_send_finished, dispatch_stream_reset,
}
use ism.Response.{prepare_doq_response_send}
use ism.Pulse.{Buffer, phase_to_wire, decode_phase, range_ok, disjoint, ingress_data}
use ism.Pulse.Codec.{IsSendable, decode_phase-phase_to_wire}
use ism.Pulse.Ingress.{IsApart, ingress_data_refused}
use ism.Pulse.Tables.{Layout}
use ism.Pulse.Tables.Snapshot.{IsLaidOut}
use ism.Pulse.Response.{response_disjoint, source_ok}
use ism.Pulse.Shell.{
  pulse_dispatch_data, pulse_on_fin, pulse_prepare_doq_response_send, pulse_complete_response_send,
  pulse_response_send_finished, pulse_stream_reset,
}
use ism.Pulse.Shell.Agree.{pulse_ingress_lem, pulse_prepare_doq_response_send_lem, pulse_close_lem}
use ism.Tests.{framed_zeros, zeros, fresh_stream, one_stream, one_stream-IsValid}

-- The message buffers behind one another, and the wire table before them.
abbrev in_a_row : Layout
in_a_row = record { table_address = 8; message_address = λ i. 65536 * (i + 1) }

in_a_row-IsLaidOut : IsLaidOut in_a_row
unfolding range_ok disjoint
in_a_row-IsLaidOut = record {
  in_memory = refl;
  aligned = refl;
  apart = λ i l. ground arith;
  separate = λ i j l h. ground arith;
}

behind-IsApart : (q : ℕ) → q < max_streams → IsApart (in_a_row.message_address q) 1000000 14
unfolding range_ok disjoint
behind-IsApart q l = inr (ground arith)

pulse_ingress_lem_example :
    (pulse_dispatch_data one_stream in_a_row 4 1000000 framed_zeros 14
      ≡ dispatch_authenticated_stream_data one_stream 4 framed_zeros 14)
    × (pulse_on_fin one_stream in_a_row 4 ≡ on_authenticated_stream_fin one_stream 4)
pulse_ingress_lem_example =
    pulse_ingress_lem one_stream in_a_row one_stream-IsValid in_a_row-IsLaidOut 4 1000000
      framed_zeros 14 behind-IsApart

abbrev response_buffer : Buffer
response_buffer = record { address = 2000000; size = 12; bytes = zeros }

abbrev send_buffer : Buffer
send_buffer = record { address = 3000000; size = 64; bytes = zeros }

contexts_apart :
    (p : ℕ)
    → p < max_streams
    → response_disjoint (65536 * (p + 1)) 32 send_buffer.address send_buffer.size ≡ true
unfolding response_disjoint range_ok
contexts_apart p l = ground arith

buffers_apart : source_ok response_buffer send_buffer ≡ true
unfolding response_disjoint range_ok
buffers_apart = refl

pulse_prepare_doq_response_send_lem_example :
    pulse_prepare_doq_response_send one_stream in_a_row
      (λ p. 65536 * (p + 1))
      32
      4
      response_buffer
      send_buffer
      true
    ≡ prepare_doq_response_send one_stream 4 response_buffer.bytes response_buffer.size
        send_buffer.bytes send_buffer.size true
pulse_prepare_doq_response_send_lem_example =
    pulse_prepare_doq_response_send_lem one_stream in_a_row one_stream-IsValid in_a_row-IsLaidOut
      (λ p. 65536 * (p + 1)) 32 4 response_buffer send_buffer true (omega arith) contexts_apart
      buffers_apart

pulse_close_lem_example :
    (pulse_complete_response_send one_stream in_a_row 4 true
      ≡ complete_response_send one_stream 4 true)
    × (pulse_response_send_finished one_stream in_a_row 4 true
        ≡ dispatch_response_send_finished one_stream 4 true)
    × (pulse_stream_reset one_stream in_a_row 4 ≡ dispatch_stream_reset one_stream 4)
pulse_close_lem_example =
    pulse_close_lem one_stream in_a_row one_stream-IsValid in_a_row-IsLaidOut 4 true

decode_phase-phase_to_wire_example :
    (IsSendable (reading_message 20 4)
      × (decode_phase (phase_to_wire (reading_message 20 4)) ≡ some (reading_message 20 4)))
    ⊎ (¬ (IsSendable (reading_message 20 4))
        × (decode_phase (phase_to_wire (reading_message 20 4)) ≡ none))
decode_phase-phase_to_wire_example = decode_phase-phase_to_wire (reading_message 20 4)

overlapping : disjoint 65536 message_capacity 65540 14 ≡ false
unfolding disjoint range_ok
overlapping = refl

ingress_data_refused_example :
    ingress_data fresh_stream 65536 4 65540 framed_zeros 14
    ≡ (record fresh_stream { phase = done }, 3)
ingress_data_refused_example =
    ingress_data_refused fresh_stream 65536 4 65540 framed_zeros 14
      (inr (inr (inr (fourteen, overlapping))))
  where
    fourteen : ◌≢◌ {A = ℕ} 14 0
    fourteen e = omega arith
