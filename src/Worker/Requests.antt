-- ===== src/Worker/Requests.antt =====
-- What the minimal worker of src/concurrency/DNS.Worker.Minimal.fst answers: the scan of the
-- question's name ends, and a response stays within its buffer and repeats the request.
use ism.Prelude.{
  ℕ, zero, suc, ◌+◌, ◌-◌, ◌≤◌, ◌<◌, ◌≡◌, ◌≢◌, ap, refl, true, false, arith, Bytes, inl, inr, ◌⊎◌,
  none, some, Option-cases, Bool-cases, ltb, leb, ◌&&◌, ◌||◌, if◌then◌else◌, update,
}
use ism.Stream.{Stream, Phase, processing}
use ism.Table.{Connection, find_stream}
use ism.Worker.{
  scan_uncompressed_qname_length, valid_doq_request_id, copy_question_from, Worker, answer,
  answer_ready, QuestionCheck, validate_minimal_uncompressed_question_request,
  prepare_worker_minimal_error_response_send, prepare_worker_question_noerror_response_send,
  prepare_worker_validated_minimal_response_send, dispatch_ready_stream_validated_minimal_response,
}

-- Fuel for the bytes that are left is enough for the scan, and its length is that of a DNS name.
pub scan_uncompressed_qname_length-total :
    (fuel : ℕ) (request : Bytes) (len pos consumed : ℕ)
    → 0 < fuel
    → len < pos + fuel
    → (scan_uncompressed_qname_length fuel request len pos consumed ≢ none)
      × ((n : ℕ) → scan_uncompressed_qname_length fuel request len pos consumed ≡ some n → n ≤ 255)
unfolding scan_uncompressed_qname_length
scan_uncompressed_qname_length-total zero request len pos consumed z h = absurd (omega arith)
scan_uncompressed_qname_length-total (suc fuel) request len pos consumed z h =
    let ih =
      scan_uncompressed_qname_length-total fuel request len (pos + (1 + request pos))
        (consumed + (1 + request pos)) in
    (
      ground (arith, λ (p : 0 < fuel) (q : len < pos + (1 + request pos) + fuel). (ih p q).0),
      λ n.
          ground (arith, λ (p : 0 < fuel) (q : len < pos + (1 + request pos) + fuel). (ih p q).1 n),
    )

-- The copy repeats `k` bytes of the question, from `idx` on, and writes no other byte.
copy_question_from_lem :
    (request out : Bytes) (k idx i : ℕ)
    → copy_question_from request out k idx i
      ≡ (if leb (12 + idx) i && ltb i (12 + idx + k) then request i else out i)
unfolding copy_question_from
copy_question_from_lem request out zero idx i = ground arith
copy_question_from_lem request out (suc k) idx i = ground (
  arith,
  copy_question_from_lem request (update out (12 + idx) (request (12 + idx))) k (idx + 1) i,
  ap request {x = 12 + idx} {y = i},
)

-- What is common to every response: it fits, it answers the request's ID, and the rest of the
-- buffer stays as it was.
pub record IsResponse (s : Stream) (out : Bytes) (capacity len : ℕ) (r : ℕ × Bytes) : Type 0 where
  pub header : 12 ≤ r.0
  pub fits : r.0 ≤ capacity
  pub bounded : r.0 ≤ len
  pub id_hi : r.1 0 ≡ s.message 0
  pub id_lo : r.1 1 ≡ s.message 1
  pub beyond : (i : ℕ) → r.0 ≤ i → r.1 i ≡ out i

error-IsResponse :
    (s : Stream) (out : Bytes) (capacity len : ℕ)
    → let r = prepare_worker_minimal_error_response_send s out capacity len in
      (r ≡ (0, out)) ⊎ (IsResponse s out capacity len r × (r.0 ≡ 12) × (r.1 3 ≡ 1))
unfolding prepare_worker_minimal_error_response_send
error-IsResponse s out capacity len = elim (Bool-cases (ltb len 12 || ltb capacity 12)) [
  | inl e ↦ inl (rw e refl)
  | inr e ↦ inr (
    record {
      header = ground arith;
      fits = ground arith;
      bounded = ground arith;
      id_hi = ground arith;
      id_lo = ground arith;
      beyond = λ i h. ground arith;
    },
    ground arith,
    ground arith,
  )
]

question-IsResponse :
    (s : Stream) (out : Bytes) (capacity len : ℕ)
    → let r = prepare_worker_question_noerror_response_send s out capacity len in
      (r ≡ (0, out))
      ⊎ (IsResponse s out capacity len r
          × (r.0 ≡ len)
          × (len ≤ 271)
          × ((i : ℕ) → 12 ≤ i → i < len → r.1 i ≡ s.message i))
unfolding prepare_worker_question_noerror_response_send
question-IsResponse s out capacity len =
    elim (Bool-cases (ltb len 17 || (ltb 271 len || ltb capacity len))) [
      | inl e ↦ inl (rw e refl)
      | inr e ↦ inr (
        record {
          header = ground arith;
          fits = ground arith;
          bounded = ground arith;
          id_hi = ground arith;
          id_lo = ground arith;
          beyond = λ i h. ground (arith, copy_question_from_lem s.message out (len - 12) 0 i);
        },
        ground arith,
        ground arith,
        λ i a b. ground (arith, copy_question_from_lem s.message out (len - 12) 0 i),
      )
    ]

-- The worker answers only requests with the DNS ID 0 and at least a header. It answers a
-- validated question with that question, and any other request with the header of a format error
-- (flag byte 1), within the bounds of `IsResponse`; or else it writes nothing.
pub prepare_worker_validated_minimal_response_send_lem :
    (check_question : QuestionCheck) (s : Stream) (out : Bytes) (capacity len : ℕ)
    → let r = prepare_worker_validated_minimal_response_send check_question s out capacity len in
      (r ≡ (0, out))
      ⊎ (IsResponse s out capacity len r
          × (12 ≤ len)
          × (s.message 0 ≡ 0)
          × (s.message 1 ≡ 0)
          × (((validate_minimal_uncompressed_question_request check_question s.message len ≡ false)
                × (r.0 ≡ 12)
                × (r.1 3 ≡ 1))
              ⊎ ((validate_minimal_uncompressed_question_request check_question s.message len
                    ≡ true)
                  × (r.0 ≡ len)
                  × (len ≤ 271)
                  × ((i : ℕ) → 12 ≤ i → i < len → r.1 i ≡ s.message i))))
unfolding prepare_worker_validated_minimal_response_send
prepare_worker_validated_minimal_response_send_lem check_question s out capacity len =
    elim (Bool-cases (valid_doq_request_id s.message len)) [
      | inr e ↦ inl (rw e refl)
      | inl e ↦
          let k = id_checked e in
          elim (Bool-cases
            (validate_minimal_uncompressed_question_request check_question s.message len)) [
              | inl v ↦
                  rw (e, v)
                    (elim (question-IsResponse s out capacity len) [
                      | inl n ↦ inl n
                      | inr (r, l, m, q) ↦ inr (r, k.0, k.1, k.2, inr (refl, l, m, q))
                    ])
              | inr v ↦
                  rw (e, v)
                    (elim (error-IsResponse s out capacity len) [
                      | inl n ↦ inl n
                      | inr (r, l, m) ↦ inr (r, k.0, k.1, k.2, inl (refl, l, m))
                    ])
            ]
    ]
  where
    id_checked :
        valid_doq_request_id s.message len ≡ true
        → (12 ≤ len) × (s.message 0 ≡ 0) × (s.message 1 ≡ 0)
    id_checked e = unfold valid_doq_request_id in ground arith

answer-cases :
    (worker : Worker) (s : Stream) (out : Bytes) (capacity : ℕ) (p : Phase)
    → (answer worker s out capacity p ≡ (0, out))
      ⊎ ((len : ℕ) × (p ≡ processing len)
          × (answer worker s out capacity p ≡ worker s out capacity len))
answer-cases worker s out capacity (processing len) = inr (len, refl, refl)
answer-cases worker s out capacity _ = inl refl

-- A response is made only for a stream of the table whose message is ready.
pub answer_ready-cases :
    (worker : Worker) (c : Connection) (out : Bytes) (capacity id : ℕ)
    → (answer_ready worker c out capacity id ≡ (0, out))
      ⊎ ((p len : ℕ) × (find_stream c id ≡ some p)
          × ((c.streams p).phase ≡ processing len)
          × (answer_ready worker c out capacity id ≡ worker (c.streams p).ctx out capacity len))
unfolding answer_ready
answer_ready-cases worker c out capacity id = elim (Option-cases (find_stream c id)) [
  | inl e ↦ inl (rw (e, answer_ready) refl)
  | inr (p, e) ↦ elim (answer-cases worker (c.streams p).ctx out capacity (c.streams p).phase) [
    | inl q ↦ inl (rw (e, answer_ready) q)
    | inr (len, f, q) ↦ inr (p, len, e, f, rw (e, answer_ready) q)
  ]
]

worker-le :
    (check_question : QuestionCheck) (s : Stream) (out : Bytes) (capacity len : ℕ)
    → (prepare_worker_validated_minimal_response_send check_question s out capacity len).0 ≤ 271
worker-le check_question s out capacity len =
    elim (prepare_worker_validated_minimal_response_send_lem check_question s out capacity len) [
      | inl e ↦ omega (arith, ap (λ r. r.0) e)
      | inr (r, a, b, c, inl (v, l, m)) ↦ omega arith
      | inr (r, a, b, c, inr (v, l, m, q)) ↦ omega arith
    ]

-- No response is longer than the longest question.
pub response-le :
    (check_question : QuestionCheck) (c : Connection) (id : ℕ) (out : Bytes) (capacity : ℕ)
    → (dispatch_ready_stream_validated_minimal_response check_question c id out capacity).0 ≤ 271
unfolding dispatch_ready_stream_validated_minimal_response
response-le check_question c id out capacity =
    elim (answer_ready-cases (prepare_worker_validated_minimal_response_send check_question) c out
      capacity id) [
        | inl e ↦ omega (arith, ap (λ r. r.0) e)
        | inr (p, len, e, f, q) ↦
            omega
              (arith, ap (λ r. r.0) q, worker-le check_question (c.streams p).ctx out capacity len)
      ]
