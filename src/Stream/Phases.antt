-- ===== src/Stream/Phases.antt =====
-- The phases of src/transport/DNS.QUIC.StreamModel.fst: what `fragment_phase` and
-- `finish_doq_phase` keep and reach, for every fragment.
use ism.Prelude.{ℕ, ◌+◌, ◌-◌, ◌*◌, ◌≤◌, ◌<◌, ◌≡◌, ◌⊎◌, ◌↔◌, Bytes, ◌^◌, arith, refl, inl, zero, suc}
use native.Mathlib.Nat.{zero-add}
use ism.Stream.{
  Phase, reading_length, reading_length_high, reading_message, awaiting_fin, processing, done,
  message_capacity, byte_or_zero, u32_from_be_u16_bytes, fragment_phase, finish_doq_phase,
  advance_message_checked, advance_body_phase,
}

-- `valid_phase`, with the bound that the source keeps in the type of `expected`.
abbrev pub IsValid : Phase → Type 0
IsValid reading_length = Unit {0}
IsValid (reading_length_high hi) = hi < 256
IsValid (reading_message expected current) =
    (12 ≤ expected) × (expected ≤ message_capacity) × (current < expected)
IsValid (awaiting_fin expected) = (12 ≤ expected) × (expected ≤ message_capacity)
IsValid (processing expected) = (12 ≤ expected) × (expected ≤ message_capacity)
IsValid done = Unit {0}

-- Two bytes make a 16-bit length, without wrapping.
pub u32_from_be_u16_bytes_lem :
    (hi lo : ℕ) → hi < 256 → lo < 256 → u32_from_be_u16_bytes hi lo ≡ hi * 256 + lo
unfolding u32_from_be_u16_bytes
u32_from_be_u16_bytes_lem hi lo h l = omega arith

u32_from_be_u16_bytes-lt : (hi lo : ℕ) → u32_from_be_u16_bytes hi lo < 2 ^ 32
unfolding u32_from_be_u16_bytes
u32_from_be_u16_bytes-lt hi lo = omega arith

pub u32_from_be_u16_bytes-le :
    (hi lo : ℕ) → hi < 256 → lo < 256 → u32_from_be_u16_bytes hi lo ≤ message_capacity
unfolding u32_from_be_u16_bytes
u32_from_be_u16_bytes-le hi lo h l = omega arith

-- What a checked step of the body gives, in its three cases.
pub advance_message_checked-cases :
    (e c n : ℕ)
    → e ≤ message_capacity
    → ((e < 12 ⊎ (e < c + n)) × (advance_message_checked e c n ≡ done))
      ⊎ ((12 ≤ e) × (c + n ≡ e) × (advance_message_checked e c n ≡ awaiting_fin e))
      ⊎ ((12 ≤ e) × (c + n < e) × (advance_message_checked e c n ≡ reading_message e (c + n)))
unfolding advance_message_checked
advance_message_checked-cases e c n h = ground arith

advance-IsValid : (e c n : ℕ) → e ≤ message_capacity → IsValid (advance_message_checked e c n)
advance-IsValid e c n h = ground (arith, advance_message_checked-cases e c n h)

-- Every fragment takes a valid phase to a valid phase.
pub fragment_phase-IsValid :
    (p : Phase) (len first second : ℕ)
    → first < 256
    → second < 256
    → IsValid p
    → IsValid (fragment_phase p len first second)
unfolding fragment_phase advance_body_phase
fragment_phase-IsValid reading_length len first second f s v = ground (
  arith,
  u32_from_be_u16_bytes-le first second f s,
  advance-IsValid (u32_from_be_u16_bytes first second) 0 (len - 2),
)
fragment_phase-IsValid (reading_length_high hi) len first second f s v = ground (
  arith,
  u32_from_be_u16_bytes-le hi first v f,
  advance-IsValid (u32_from_be_u16_bytes hi first) 0 (len - 1),
)
fragment_phase-IsValid (reading_message e c) len first second f s v = advance-IsValid e c len v.1
fragment_phase-IsValid _ len first second f s v = ground arith

-- FIN keeps a phase valid, and makes a message ready exactly if it was complete (or ready
-- already) and its DNS ID is 0.
pub finish_doq_phase-processing :
    (p : Phase) (hi lo n : ℕ)
    → IsValid p
    → IsValid (finish_doq_phase p hi lo)
      × ((finish_doq_phase p hi lo ≡ processing n)
          ↔ ((hi ≡ 0) × (lo ≡ 0) × ((p ≡ awaiting_fin n) ⊎ (p ≡ processing n))))
unfolding finish_doq_phase
finish_doq_phase-processing reading_length hi lo n v =
    (ground arith, (λ e. ground arith, λ e. ground arith))
finish_doq_phase-processing _ hi lo n v = (ground arith, (λ e. ground arith, λ e. ground arith))

-- The bytes of a fragment from `a` on.
abbrev pub skip : ℕ → Bytes → Bytes
skip a input i = input (a + i)

abbrev pub phase_after : Phase → Bytes → ℕ → Phase
phase_after p input len = fragment_phase p len (byte_or_zero input len 0) (byte_or_zero input len 1)

-- A fragment that follows a checked step of the body continues that step.
phase_after-checked :
    (e c a b : ℕ) (input : Bytes)
    → e < 2 ^ 32
    → (c < e) ⊎ (e < 12)
    → phase_after (advance_message_checked e c a) input b ≡ advance_message_checked e c (a + b)
unfolding fragment_phase advance_body_phase advance_message_checked
phase_after-checked e c a b input l h = ground arith

split_at :
    (e n b : ℕ) (input : Bytes)
    → e < 2 ^ 32
    → phase_after (advance_message_checked e 0 n) input b ≡ advance_message_checked e 0 (n + b)
split_at e n b input l = phase_after-checked e 0 n b input l (omega arith)

-- Splitting a fragment in two does not change the phase that it leads to.
pub fragment_phase-split :
    (p : Phase) (input : Bytes) (a b : ℕ)
    → IsValid p
    → phase_after (phase_after p input a) (skip a input) b ≡ phase_after p input (a + b)
unfolding fragment_phase advance_body_phase
fragment_phase-split reading_length input zero b v = rw (zero-add b)
fragment_phase-split reading_length input (suc zero) zero v = refl
fragment_phase-split reading_length input (suc zero) (suc b) v = ground arith
fragment_phase-split reading_length input (suc (suc a)) b v = ground (
  arith,
  split_at (u32_from_be_u16_bytes (input 0) (input 1)) a b (skip (suc (suc a)) input),
  u32_from_be_u16_bytes-lt (input 0) (input 1),
)
fragment_phase-split (reading_length_high hi) input zero b v = rw (zero-add b)
fragment_phase-split (reading_length_high hi) input (suc a) b v = ground (
  arith,
  split_at (u32_from_be_u16_bytes hi (input 0)) a b (skip (suc a) input),
  u32_from_be_u16_bytes-lt hi (input 0),
)
fragment_phase-split (reading_message e c) input a b v =
    phase_after-checked e c a b (skip a input) (ground arith) (inl v.2)
fragment_phase-split (awaiting_fin e) input a b v = ground arith
fragment_phase-split (processing e) input a b v = ground arith
fragment_phase-split done input a b v = refl
