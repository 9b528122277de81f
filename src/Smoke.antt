-- ===== src/Smoke.antt =====
-- The test programs of the shell as functions of the model: each runs the calls of its source in
-- their order and answers with its verdict. The generated question validator is a parameter, and
-- so is what the memory holds that the source leaves uninitialised. This file has the messages
-- that the programs share.
pub mod EventQueue
pub mod Adapters
pub mod Runtimes
pub mod Scaffold
pub mod ProofAudit
pub mod Connections
use ism.Prelude.{
  ℕ, zero, suc, Bool, true, false, ◌==◌, ◌&&◌, Option, none, some, Bytes, List, [], ◌∷◌,
}

-- An array of these bytes.
abbrev pub bytes_of : List ℕ → Bytes
bytes_of [] i = 0
bytes_of (x ∷ xs) zero = x
bytes_of (x ∷ xs) (suc i) = bytes_of xs i

-- `memcmp` of `n` bytes is 0.
abbrev pub agrees : Bytes → Bytes → ℕ → Bool
agrees b d zero = true
agrees b d (suc n) = agrees b d n && b n == d n

abbrev pub buffer_agrees : Option Bytes → Bytes → ℕ → Bool
buffer_agrees none d n = false
buffer_agrees (some b) d n = agrees b d n

-- Every check of a program holds.
abbrev pub all_hold : List Bool → Bool
all_hold [] = true
all_hold (b ∷ bs) = b && all_hold bs

abbrev question_bytes : List ℕ
question_bytes =
    3 ∷ 0x77 ∷ 0x77 ∷ 0x77 ∷ 7 ∷ 0x65 ∷ 0x78 ∷ 0x61 ∷ 0x6d ∷ 0x70 ∷ 0x6c ∷ 0x65 ∷ 3 ∷ 0x63 ∷ 0x6f
    ∷ 0x6d ∷ 0 ∷ 0 ∷ 1 ∷ 0 ∷ 1 ∷ []

abbrev pub exact_a_query : Bytes
exact_a_query = bytes_of (0 ∷ 0x21 ∷ 0 ∷ 0 ∷ 1 ∷ 0 ∷ 0 ∷ 1 ∷ 0 ∷ 0 ∷ 0 ∷ 0 ∷ 0 ∷ 0 ∷ question_bytes)

abbrev pub expected_validated_stream_response : Bytes
expected_validated_stream_response =
    bytes_of (0 ∷ 0x21 ∷ 0 ∷ 0 ∷ 0x81 ∷ 0 ∷ 0 ∷ 1 ∷ 0 ∷ 0 ∷ 0 ∷ 0 ∷ 0 ∷ 0 ∷ question_bytes)

abbrev pub invalid_header_query : Bytes
invalid_header_query = bytes_of (0 ∷ 0x0c ∷ 0 ∷ 0 ∷ 1 ∷ [])

abbrev pub expected_formerr_stream : Bytes
expected_formerr_stream = bytes_of (0 ∷ 0x0c ∷ 0 ∷ 0 ∷ 0x81 ∷ 1 ∷ [])

abbrev pub zero_bytes : Bytes
zero_bytes i = 0

abbrev pub expected_validated_response : Bytes
expected_validated_response =
    bytes_of (0 ∷ 0 ∷ 0x81 ∷ 0 ∷ 0 ∷ 1 ∷ 0 ∷ 0 ∷ 0 ∷ 0 ∷ 0 ∷ 0 ∷ question_bytes)
