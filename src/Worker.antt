-- ===== src/Worker.antt =====
-- The minimal DNS worker of src/concurrency/DNS.Worker.Minimal.fst, which answers the request in
-- a stream's message buffer, and the entry points of src/concurrency/DNS.ShellBoundary.fst and
-- shell/ism_shell.c that reach it. The generated question validator is the parameter
-- `check_question`.
pub mod Requests
use Prim.Native.Nat.{bit_and, bit_or}
use ism.Prelude.{
  ℕ, zero, suc, ◌+◌, ◌-◌, Bool, true, false, not, ltb, leb, ◌==◌, ◌&&◌, ◌||◌, if◌then◌else◌, Option,
  none, some, Bytes, update,
}
use ism.Stream.{
  Stream, Phase, processing, reading_length, reading_length_high, reading_message, awaiting_fin,
  done,
}
use ism.Table.{Connection, find_stream}

unfoldable pub noerror_response_flags_hi : ℕ → ℕ
noerror_response_flags_hi flags = bit_or 0x80 (bit_and flags 0x79)

unfoldable pub noerror_response_flags_lo : ℕ → ℕ
noerror_response_flags_lo flags = bit_and flags 0x10

-- The length of the name that starts at `pos`, 0 for a name that is refused. `none` means that
-- the fuel ran out.
unfoldable pub scan_uncompressed_qname_length : ℕ → Bytes → ℕ → ℕ → ℕ → Option ℕ
scan_uncompressed_qname_length zero request len pos consumed = none
scan_uncompressed_qname_length (suc fuel) request len pos consumed =
    let label_len = request pos in
    let next_pos = pos + (1 + label_len) in
    let next_consumed = consumed + (1 + label_len) in
    let rest = scan_uncompressed_qname_length fuel request len next_pos next_consumed in
    if leb len pos
    then some 0
    else if label_len == 0
    then if ltb consumed 255 then some (consumed + 1) else some 0
    else if ltb 63 label_len
    then some 0
    else if ltb len next_pos || ltb 255 next_consumed
    then some 0
    else rest

-- The name of a request of `len` bytes.
unfoldable pub qname_length : Bytes → ℕ → ℕ
qname_length request len = elim (scan_uncompressed_qname_length len request len 12 0) [
  | none ↦ 0
  | some n ↦ n
]

unfoldable pub valid_doq_request_id : Bytes → ℕ → Bool
valid_doq_request_id request len = if ltb len 12 then false else request 0 == 0 && request 1 == 0

-- One question, no other record.
abbrev pub counts_ok : Bytes → Bool
counts_ok r =
    r 4 == 0
    && (r 5 == 1
        && (r 6 == 0 && (r 7 == 0 && (r 8 == 0 && (r 9 == 0 && (r 10 == 0 && r 11 == 0))))))

-- The header of an error response without records, in which only the ID comes from the request.
unfoldable pub prepare_worker_minimal_error_response_send : Stream → Bytes → ℕ → ℕ → ℕ × Bytes
prepare_worker_minimal_error_response_send s out capacity len =
    if ltb len 12 || ltb capacity 12 then (0, out) else (12, error_header s.message out)
  where
    error_header : Bytes → Bytes → Bytes
    error_header r o =
        let a = update (update (update o 0 (r 0)) 1 (r 1)) 2 0x81 in
        let b = update (update (update (update a 4 0) 5 0) 6 0) 7 0 in
        update (update (update (update (update b 8 0) 9 0) 10 0) 11 0) 3 1

unfoldable pub prepare_worker_empty_noerror_response_send : Stream → Bytes → ℕ → ℕ → ℕ × Bytes
prepare_worker_empty_noerror_response_send s out capacity len =
    if ltb len 12 || ltb capacity 12 then (0, out) else (12, empty_header s.message out)
  where
    empty_header : Bytes → Bytes → Bytes
    empty_header r o =
        let a = update (update o 0 (r 0)) 1 (r 1) in
        let b =
          update (update a 2 (noerror_response_flags_hi (r 2))) 3
            (noerror_response_flags_lo (r 3)) in
        let c = update (update (update (update b 4 0) 5 0) 6 0) 7 0 in
        update (update (update (update c 8 0) 9 0) 10 0) 11 0

-- The `k` bytes of the question from `idx` on, which stand behind the header in both buffers.
unfoldable pub copy_question_from : Bytes → Bytes → ℕ → ℕ → Bytes
copy_question_from request out zero idx = out
copy_question_from request out (suc k) idx =
    copy_question_from request (update out (12 + idx) (request (12 + idx))) k (idx + 1)

abbrev pub question_header : Bytes → Bytes → Bytes
question_header r o =
    let a = update (update o 0 (r 0)) 1 (r 1) in
    let b =
      update (update a 2 (noerror_response_flags_hi (r 2))) 3 (noerror_response_flags_lo (r 3)) in
    let c = update (update (update (update b 4 0) 5 1) 6 0) 7 0 in
    update (update (update (update c 8 0) 9 0) 10 0) 11 0

unfoldable pub prepare_worker_question_noerror_response_send : Stream → Bytes → ℕ → ℕ → ℕ × Bytes
prepare_worker_question_noerror_response_send s out capacity len =
    if ltb len 17 || (ltb 271 len || ltb capacity len)
    then (0, out)
    else (len, question_header s.message (copy_question_from s.message out (len - 12) 0))

-- What a worker does for a ready stream: the length of its response and the response buffer.
abbrev pub Worker : Type 0
Worker = Stream → Bytes → ℕ → ℕ → ℕ × Bytes

-- The worker is run on a stream whose message is ready, and on no other.
abbrev pub answer : Worker → Stream → Bytes → ℕ → Phase → ℕ × Bytes
answer worker s out capacity (processing len) = worker s out capacity len
answer worker s out capacity reading_length = (0, out)
answer worker s out capacity (reading_length_high hi) = (0, out)
answer worker s out capacity (reading_message expected current) = (0, out)
answer worker s out capacity (awaiting_fin expected) = (0, out)
answer worker s out capacity done = (0, out)

unfoldable pub answer_ready : Worker → Connection → Bytes → ℕ → ℕ → ℕ × Bytes
answer_ready worker c out capacity id = elim (find_stream c id) [
  | none ↦ (0, out)
  | some p ↦ answer worker (c.streams p).ctx out capacity (c.streams p).phase
]

-- Each entry point of the shell, with or without the scheduler, takes the worker by name.
unfoldable pub process_ready_stream : Connection → ℕ → Bytes → ℕ → ℕ × Bytes
process_ready_stream c id out capacity =
    answer_ready prepare_worker_minimal_error_response_send c out capacity id

unfoldable pub process_ready_stream_empty_response : Connection → ℕ → Bytes → ℕ → ℕ × Bytes
process_ready_stream_empty_response c id out capacity =
    answer_ready prepare_worker_empty_noerror_response_send c out capacity id

unfoldable pub dispatch_ready_stream : Connection → ℕ → Bytes → ℕ → ℕ × Bytes
dispatch_ready_stream c id out capacity =
    answer_ready prepare_worker_minimal_error_response_send c out capacity id

unfoldable pub dispatch_ready_stream_empty_response : Connection → ℕ → Bytes → ℕ → ℕ × Bytes
dispatch_ready_stream_empty_response c id out capacity =
    answer_ready prepare_worker_empty_noerror_response_send c out capacity id

-- The generated validator's code for a question: the length of its name, its bytes, its length.
abbrev pub QuestionCheck : Type 0
QuestionCheck = ℕ → Bytes → ℕ → ℕ

module _ (check_question : QuestionCheck) where
  unfoldable pub validate_minimal_uncompressed_question_request : Bytes → ℕ → Bool
  validate_minimal_uncompressed_question_request r len =
      if not (valid_doq_request_id r len) || (ltb len 17 || ltb 271 len)
      then false
      else if counts_ok r
      then if qname_length r len == 0 || not (qname_length r len + 16 == len)
        then false
        else not (check_question (qname_length r len) (λ i. r (12 + i)) (len - 12) == 0)
      else false

  unfoldable pub prepare_worker_validated_minimal_response_send : Worker
  prepare_worker_validated_minimal_response_send s out capacity len =
      if not (valid_doq_request_id s.message len)
      then (0, out)
      else if validate_minimal_uncompressed_question_request s.message len
      then prepare_worker_question_noerror_response_send s out capacity len
      else prepare_worker_minimal_error_response_send s out capacity len

  unfoldable pub process_ready_stream_validated_minimal_response :
      Connection → ℕ → Bytes → ℕ → ℕ × Bytes
  process_ready_stream_validated_minimal_response c id out capacity =
      answer_ready prepare_worker_validated_minimal_response_send c out capacity id

  unfoldable pub dispatch_ready_stream_validated_minimal_response :
      Connection → ℕ → Bytes → ℕ → ℕ × Bytes
  dispatch_ready_stream_validated_minimal_response c id out capacity =
      answer_ready prepare_worker_validated_minimal_response_send c out capacity id
