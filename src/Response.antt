-- ===== src/Response.antt =====
-- DoQ framing of a response: src/transport/DNS.QUIC.ResponseModel.fst and the response calls of
-- src/concurrency/DNS.ShellResponseBoundary.fst, which `ism_shell_prepare_response_send` and
-- `ism_shell_prepare_doq_response_send` of shell/ism_shell.c reach.
pub mod Framing
use ism.Prelude.{
  ℕ, zero, suc, ◌+◌, ◌/◌, ◌%◌, ◌^◌, Bool, true, false, not, ltb, ◌==◌, if◌then◌else◌, Option, none,
  some, Bytes, update, add_u32,
}
use ism.Stream.{Stream}
use ism.Table.{Connection, find_stream}

-- 0 if the response or the buffer does not do.
unfoldable pub framed_length : ℕ → ℕ → ℕ
framed_length length capacity =
    if ltb 65535 length then 0 else if ltb capacity (add_u32 length 2) then 0 else add_u32 length 2

unfoldable pub prefix_hi : ℕ → ℕ
prefix_hi length = length / 2 ^ 8 % 2 ^ 8

unfoldable pub prefix_lo : ℕ → ℕ
prefix_lo length = length % 2 ^ 8

-- The `k` bytes of the response from `idx` on, copied behind the prefix.
unfoldable pub copy_response_from : Bytes → Bytes → ℕ → ℕ → Bytes
copy_response_from response out zero idx = out
copy_response_from response out (suc k) idx =
    copy_response_from response (update out (add_u32 2 idx) (response idx)) k (idx + 1)

-- The length of the response, from the descriptor; the FIN flag has no effect on it.
unfoldable pub prepare_response_send_for_stream : Stream → Bytes → ℕ → Bool → ℕ
prepare_response_send_for_stream s response length fin = length

unfoldable pub prepare_doq_response_send_for_stream :
    Stream → Bytes → ℕ → Bytes → ℕ → Bool → ℕ × Bytes
prepare_doq_response_send_for_stream s response length out capacity fin =
    if framed_length length capacity == 0 then (0, out) else (
      framed_length length capacity,
      copy_response_from response (update (update out 0 (prefix_hi length)) 1 (prefix_lo length))
          length 0,
    )

unfoldable pub prepare_response_send : Connection → ℕ → Bytes → ℕ → Bool → ℕ
prepare_response_send c id response length fin = elim (find_stream c id) [
  | none ↦ 0
  | some p ↦ prepare_response_send_for_stream (c.streams p).ctx response length fin
]

unfoldable pub prepare_doq_response_send : Connection → ℕ → Bytes → ℕ → Bytes → ℕ → Bool → ℕ × Bytes
prepare_doq_response_send c id response length out capacity fin = elim (find_stream c id) [
  | none ↦ (0, out)
  | some p ↦ prepare_doq_response_send_for_stream (c.streams p).ctx response length out capacity fin
]
