-- ===== src/Pulse/Response/Agree.antt =====
-- The Pulse framing against the legacy one.
use ism.Prelude.{
  ℕ, ◌+◌, ◌-◌, ◌^◌, ◌<◌, ◌≤◌, ◌≡◌, ◌⊎◌, ◌∙◌, inl, inr, refl, ap, fun_ext, arith, Bool, true, false,
  not, ltb, ◌==◌, ◌||◌, if_cases, if◌then◌else◌, Bytes, update, copy_bytes, Bool-cases,
}
use ism.Stream.{Stream}
use ism.Response.{
  framed_length, prefix_hi, prefix_lo, copy_response_from, prepare_response_send_for_stream,
  prepare_doq_response_send_for_stream,
}
use ism.Response.Framing.{copy_response_from_lem, framed_length_lem}
use ism.Pulse.{Buffer, range_ok, copy_range}
use ism.Pulse.Ingress.{copy_range-copy_bytes}
use ism.Pulse.Response.{
  response_disjoint, frame_response, source_ok, response_frame, described, prepare_doq_response,
}

copies_agree :
    (response out : Bytes) (length : ℕ)
    → length ≤ 65535
    → copy_range response out 0 2 length ≡ copy_response_from response out length 0
copies_agree response out length l =
    copy_range-copy_bytes response out 0 2 length ∙ (fun_ext λ i. at i)
  where
    at : (i : ℕ) → copy_bytes response 0 out 2 length i ≡ copy_response_from response out length 0 i
    at i = ground (
      arith,
      copy_response_from_lem response out length 0 i,
      ap response {x = 0 + i - 2} {y = i - 2},
    )

-- Both cores frame a response alike.
frame_response_lem :
    (s : Stream) (response : Bytes) (length : ℕ) (out : Bytes) (capacity : ℕ) (fin : Bool)
    → length < 2 ^ 32
    → frame_response response out length capacity
      ≡ prepare_doq_response_send_for_stream s response length out capacity fin
unfolding frame_response prepare_doq_response_send_for_stream
frame_response_lem s response length out capacity fin l =
    elim (framed_length_lem length capacity l) [
      | inl (e, w) ↦ rw e refl
      | inr (e, b, c) ↦
          ap
            (λ (o : Bytes).
              if framed_length length capacity == 0
              then (0, out)
              else (framed_length length capacity, o))
            (copies_agree response (update (update out 0 (prefix_hi length)) 1 (prefix_lo length))
              length b)
    ]

described_lem :
    (s : Stream) (fin : Bool) (response : Bytes) (length : ℕ) (out : Bytes) (capacity : ℕ)
    → described s fin (prepare_doq_response_send_for_stream s response length out capacity fin)
      ≡ prepare_doq_response_send_for_stream s response length out capacity fin
unfolding prepare_doq_response_send_for_stream prepare_response_send_for_stream
described_lem s fin response length out capacity =
    elim (Bool-cases (framed_length length capacity == 0)) [
      | inl e ↦ rw e refl
      | inr e ↦ rw (e, e) refl
    ]

-- With the context, the response and the send buffer apart, the Pulse framing of a response is the
-- legacy one: the same length and the same bytes.
pub prepare_doq_response_lem :
    (context context_size : ℕ) (s : Stream) (response out : Buffer) (fin : Bool)
    → response.size < 2 ^ 32
    → response_disjoint context context_size out.address out.size ≡ true
    → source_ok response out ≡ true
    → prepare_doq_response context context_size s response out fin
      ≡ prepare_doq_response_send_for_stream s response.bytes response.size out.bytes out.size fin
unfolding prepare_doq_response
prepare_doq_response_lem context context_size s response out fin l d o =
    if_cases (λ x. x ≡ legacy) (not (response_disjoint context context_size out.address out.size))
      (λ e. absurd (ground (arith, d, e)))
      (λ e.
        ap (described s fin)
          (framed ∙ frame_response_lem s response.bytes response.size out.bytes out.size fin l)
        ∙ described_lem s fin response.bytes response.size out.bytes out.size)
  where
    legacy : ℕ × Bytes
    legacy =
        prepare_doq_response_send_for_stream s response.bytes response.size out.bytes out.size fin

    in_memory : range_ok out.address out.size ≡ true
    in_memory = unfold response_disjoint in ground (arith, d)

    framed :
        response_frame response response.size out out.size
        ≡ frame_response response.bytes out.bytes response.size out.size
    framed =
        unfold response_frame in
        if_cases (λ x. x ≡ frame_response response.bytes out.bytes response.size out.size)
          (ltb response.size response.size
            || (ltb out.size out.size || not (range_ok out.address out.size)))
          (λ e. absurd (ground (arith, in_memory, e)))
          (λ e.
            if_cases (λ x. x ≡ frame_response response.bytes out.bytes response.size out.size)
              (not (source_ok response out)) (λ f. absurd (ground (arith, o, f))) (λ f. refl))

-- A send buffer that overlaps the context or the response, or lies nowhere, gets no byte.
pub prepare_doq_response_refused :
    (context context_size : ℕ) (s : Stream) (response out : Buffer) (fin : Bool)
    → (response_disjoint context context_size out.address out.size ≡ false)
      ⊎ (source_ok response out ≡ false)
    → prepare_doq_response context context_size s response out fin ≡ (0, out.bytes)
unfolding prepare_doq_response response_frame
prepare_doq_response_refused context context_size s response out fin (inl d) = simp d
prepare_doq_response_refused context context_size s response out fin (inr o) =
    if_cases (λ (x : ℕ × Bytes). x ≡ (0, out.bytes))
      (not (response_disjoint context context_size out.address out.size)) (λ e. refl)
      (λ e. ap (described s fin) (
        if_cases (λ (x : ℕ × Bytes). x ≡ (0, out.bytes))
          (ltb response.size response.size
            || (ltb out.size out.size || not (range_ok out.address out.size)))
          (λ f. refl)
          (λ f.
            if_cases (λ (x : ℕ × Bytes). x ≡ (0, out.bytes)) (not (source_ok response out))
              (λ g. refl) (λ g. absurd (ground (arith, o, g))))))
