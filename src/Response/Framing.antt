-- ===== src/Response/Framing.antt =====
-- The framing of src/concurrency/DNS.ShellResponseBoundary.fst byte by byte, and against the
-- length framing by which a stream takes a message in.
use ism.Prelude.{
  ℕ, zero, suc, ◌+◌, ◌-◌, ◌*◌, ◌^◌, ◌≤◌, ◌<◌, ◌≡◌, ◌∙◌, ap, refl, Bool, arith, Bytes, inl, inr, ◌⊎◌,
  none, some, Option-cases, ◌==◌, ltb, leb, ◌&&◌, if◌then◌else◌, update, add_u32, List,
}
use ism.Stream.{Stream, reading_length, awaiting_fin}
use ism.Stream.Messages.{IsFramed, feed, total, feed-awaiting_fin}
use ism.Table.{Connection, find_stream}
use ism.Response.{
  framed_length, prefix_hi, prefix_lo, copy_response_from, prepare_doq_response_send_for_stream,
  prepare_doq_response_send,
}

-- The framed length is 0 exactly if the response is too long or does not fit, and two bytes more
-- than the response otherwise.
pub framed_length_lem :
    (length capacity : ℕ)
    → length < 2 ^ 32
    → ((framed_length length capacity ≡ 0) × ((65535 < length) ⊎ (capacity < length + 2)))
      ⊎ ((framed_length length capacity ≡ length + 2) × (length ≤ 65535) × (length + 2 ≤ capacity))
unfolding framed_length
framed_length_lem length capacity h = ground arith

-- The copy writes `k` bytes behind the prefix, from `idx` on, and no other.
pub copy_response_from_lem :
    (response out : Bytes) (k idx i : ℕ)
    → idx + k + 2 < 2 ^ 32
    → copy_response_from response out k idx i
      ≡ (if leb (idx + 2) i && ltb i (idx + 2 + k) then response (i - 2) else out i)
unfolding copy_response_from
copy_response_from_lem response out zero idx i h = ground arith
copy_response_from_lem response out (suc k) idx i h = ground (
  arith,
  copy_response_from_lem response (update out (add_u32 2 idx) (response idx)) k (idx + 1) i,
  ap response {x = idx} {y = i - 2},
)

-- The framed bytes: the length, then the response, then what stood in the buffer before.
abbrev pub framed_byte : Bytes → ℕ → Bytes → ℕ → ℕ
framed_byte response length out i =
    if i == 0
    then prefix_hi length
    else if i == 1
    then prefix_lo length
    else if ltb i (length + 2)
    then response (i - 2)
    else out i

-- Either the call returns 0 and writes nothing, because the response is too long or does not fit,
-- or it returns the framed length and writes exactly the framed bytes.
pub prepare_doq_response_send_for_stream_lem :
    (s : Stream) (response : Bytes) (length : ℕ) (out : Bytes) (capacity : ℕ) (fin : Bool)
    → length < 2 ^ 32
    → let r = prepare_doq_response_send_for_stream s response length out capacity fin in
      (((65535 < length) ⊎ (capacity < length + 2)) × (r ≡ (0, out)))
      ⊎ ((length ≤ 65535)
          × (length + 2 ≤ capacity)
          × (r.0 ≡ length + 2)
          × ((i : ℕ) → r.1 i ≡ framed_byte response length out i))
unfolding prepare_doq_response_send_for_stream
prepare_doq_response_send_for_stream_lem s response length out capacity fin h =
    elim (framed_length_lem length capacity h) [
      | inl (e, w) ↦ inl (w, rw e refl)
      | inr (e, l, c) ↦ inr (l, c, ground arith, bytes e l)
    ]
  where
    bytes :
        framed_length length capacity ≡ length + 2
        → length ≤ 65535
        → (i : ℕ)
        → (prepare_doq_response_send_for_stream s response length out capacity fin).1 i
          ≡ framed_byte response length out i
    bytes e l i = ground (
      arith,
      copy_response_from_lem response
          (update (update out 0 (prefix_hi length)) 1 (prefix_lo length)) length 0 i,
    )

prefix_lem :
    (length : ℕ)
    → length ≤ 65535
    → (prefix_hi length < 256)
      × (prefix_lo length < 256)
      × (prefix_hi length * 256 + prefix_lo length ≡ length)
unfolding prefix_hi prefix_lo
prefix_lem length l = omega arith

-- A response that is framed here and taken in by a stream there, in fragments of any size, is the
-- same response.
pub framing_roundtrip :
    (s : Stream) (response : Bytes) (length : ℕ) (out : Bytes) (capacity : ℕ) (fin : Bool)
    → 12 ≤ length
    → length ≤ 65535
    → length + 2 ≤ capacity
    → (receiver : Stream) (lens : List ℕ) → receiver.phase ≡ reading_length
    → total lens ≡ length + 2
    → let r = prepare_doq_response_send_for_stream s response length out capacity fin in
      ((feed receiver r.1 lens).phase ≡ awaiting_fin length)
      × ((i : ℕ) → i < length → (feed receiver r.1 lens).message i ≡ response i)
framing_roundtrip s response length out capacity fin a l c receiver lens e t =
    elim (prepare_doq_response_send_for_stream_lem s response length out capacity fin
      (omega arith)) [
        | inl (w, q) ↦ absurd (omega arith)
        | inr (l', c', q, b) ↦
            let taken = feed-awaiting_fin receiver _ length lens (framed b) e t in
            (taken.0, λ i h. taken.1 i h ∙ b (i + 2) ∙ payload i h)
      ]
  where
    payload : (i : ℕ) → i < length → framed_byte response length out (i + 2) ≡ response i
    payload i h = ground (arith, ap response {x = i + 2 - 2} {y = i})

    framed :
        {bytes : Bytes}
        → ((i : ℕ) → bytes i ≡ framed_byte response length out i)
        → IsFramed bytes length
    framed {bytes} b =
        let p = prefix_lem length l in
        let b0 = b 0 in
        let b1 = b 1 in
        record { hi_byte = omega arith; lo_byte = omega arith; prefix = omega arith; header = a }

-- The call for a connection: 0 without the stream, and else as for its context.
pub prepare_doq_response_send-cases :
    (c : Connection) (id : ℕ) (response : Bytes) (length : ℕ) (out : Bytes) (capacity : ℕ)
    (fin : Bool)
    → ((find_stream c id ≡ none)
        × (prepare_doq_response_send c id response length out capacity fin ≡ (0, out)))
      ⊎ ((p : ℕ) × (find_stream c id ≡ some p)
          × (prepare_doq_response_send c id response length out capacity fin
              ≡ prepare_doq_response_send_for_stream
                  (c.streams p).ctx
                  response
                  length
                  out
                  capacity
                  fin))
unfolding prepare_doq_response_send
prepare_doq_response_send-cases c id response length out capacity fin =
    elim (Option-cases (find_stream c id)) [
      | inl e ↦ inl (e, rw (e, prepare_doq_response_send) refl)
      | inr (p, e) ↦ inr (p, e, rw (e, prepare_doq_response_send) refl)
    ]
