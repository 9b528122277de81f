-- ===== src/Pulse/Codec.antt =====
-- The wire format of phases: both sides of the boundary read what the other writes.
use ism.Prelude.{◌≤◌, ◌≡◌, ◌⊎◌, inl, refl, arith, none, some}
use ism.Stream.{
  Phase, reading_length, reading_length_high, reading_message, awaiting_fin, processing, done,
  message_capacity, shell_phase_code,
}
use ism.Pulse.{phase_to_wire, phase_from_wire, decode_phase, encode}

-- The phase can be told to the other side: its message fits in the buffer.
abbrev pub IsSendable : Phase → Type 0
IsSendable reading_length = Unit {0}
IsSendable (reading_length_high hi) = Unit {0}
IsSendable (reading_message expected current) = expected ≤ message_capacity
IsSendable (awaiting_fin expected) = expected ≤ message_capacity
IsSendable (processing expected) = expected ≤ message_capacity
IsSendable done = Unit {0}

-- What the shell writes is decoded to the same phase exactly if its message fits in the buffer, and
-- refused otherwise.
pub decode_phase-phase_to_wire :
    (p : Phase)
    → (IsSendable p × (decode_phase (phase_to_wire p) ≡ some p))
      ⊎ (¬ (IsSendable p) × (decode_phase (phase_to_wire p) ≡ none))
unfolding decode_phase phase_to_wire
decode_phase-phase_to_wire reading_length = inl (tt, refl)
decode_phase-phase_to_wire (reading_length_high hi) = inl (tt, refl)
decode_phase-phase_to_wire (reading_message expected current) = ground arith
decode_phase-phase_to_wire (awaiting_fin expected) = ground arith
decode_phase-phase_to_wire (processing expected) = ground arith
decode_phase-phase_to_wire done = inl (tt, refl)

-- The shell reads the result as the phase that was encoded, with the shell's own code for it.
pub phase_from_wire-encode :
    (p : Phase) → (phase_from_wire (encode p).0 ≡ p) × ((encode p).1 ≡ shell_phase_code p)
unfolding phase_from_wire encode shell_phase_code
phase_from_wire-encode reading_length = (refl, refl)
phase_from_wire-encode (reading_length_high hi) = (refl, refl)
phase_from_wire-encode (reading_message expected current) = (refl, refl)
phase_from_wire-encode (awaiting_fin expected) = (refl, refl)
phase_from_wire-encode (processing expected) = (refl, refl)
phase_from_wire-encode done = (refl, refl)

-- The shell also reads what it writes itself.
pub phase_from_wire-phase_to_wire : (p : Phase) → phase_from_wire (phase_to_wire p) ≡ p
unfolding phase_from_wire phase_to_wire
phase_from_wire-phase_to_wire reading_length = refl
phase_from_wire-phase_to_wire (reading_length_high hi) = refl
phase_from_wire-phase_to_wire (reading_message expected current) = refl
phase_from_wire-phase_to_wire (awaiting_fin expected) = refl
phase_from_wire-phase_to_wire (processing expected) = refl
phase_from_wire-phase_to_wire done = refl
