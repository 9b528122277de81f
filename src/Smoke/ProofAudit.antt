-- ===== src/Smoke/ProofAudit.antt =====
-- shell/link_proof_audit_smoke.c, but for its last checks, which are of the generated packet
-- validator alone. A request goes into a fresh connection for every split; `memory` is what the
-- response buffer held.
use ism.Prelude.{
  ℕ, zero, suc, ◌-◌, Bool, true, false, not, ◌==◌, ◌&&◌, Option, some, none, Bytes, [], ◌∷◌,
}
use ism.Stream.Phases.{skip}
use ism.Table.{
  Connection, connection_init, find_stream, open_stream, dispatch_authenticated_stream_data,
  on_authenticated_stream_fin, dispatch_stream_reset,
}
use ism.Worker.{QuestionCheck, process_ready_stream_validated_minimal_response}
use ism.Smoke.{bytes_of, agrees, all_hold}

-- Every index below `n` passes.
abbrev for_all : ℕ → (ℕ → Bool) → Bool
for_all zero test = true
for_all (suc n) test = for_all n test && test n

-- The root A query with these two bytes of its DNS ID, and one byte after its end.
abbrev query : ℕ → ℕ → Bytes
query hi lo =
    bytes_of
      (0 ∷ 17 ∷ hi ∷ lo ∷ 1 ∷ 0 ∷ 0 ∷ 1 ∷ 0 ∷ 0 ∷ 0 ∷ 0 ∷ 0 ∷ 0 ∷ 0 ∷ 0 ∷ 1 ∷ 0 ∷ 1 ∷ 0xff ∷ [])

abbrev begun : Bytes → ℕ → Connection
begun bytes len = (dispatch_authenticated_stream_data connection_init 4 bytes len).0

-- The message buffer of the stream holds the query without its prefix.
abbrev has_body : Connection → Option ℕ → Bool
has_body c none = false
has_body c (some p) = agrees (c.streams p).message (skip 2 (query 0 0)) 17

unfoldable pub smoke_split : QuestionCheck → Bytes → ℕ → Bool
smoke_split check_question memory split =
    let (c, phase) =
      dispatch_authenticated_stream_data (begun (query 0 0) split) 4 (skip split (query 0 0))
        (19 - split) in
    let (early, out) =
      process_ready_stream_validated_minimal_response check_question c 4 memory 64 in
    let (d, fin) = on_authenticated_stream_fin c 4 in
    let (len, response) =
      process_ready_stream_validated_minimal_response check_question d 4 out 64 in
    all_hold (
      (phase == 4)
      ∷ (early == 0)
      ∷ has_body c (find_stream c 4)
      ∷ (fin == 2)
      ∷ (len == 17)
      ∷ (response 0 == 0)
      ∷ (response 1 == 0)
      ∷ (response 3 == 0)
      ∷ [])

-- One byte too many ends the stream, wherever it is split.
unfoldable pub smoke_excess : ℕ → Bool
smoke_excess split =
    let (c, phase) =
      dispatch_authenticated_stream_data (begun (query 0 0) split) 4 (skip split (query 0 0))
        (20 - split) in
    phase == 3 && (on_authenticated_stream_fin c 4).1 == 3

-- A request that FIN cuts short ends the stream, and so does the length of less than a header.
unfoldable pub smoke_cut : ℕ → Bool
smoke_cut cut = (on_authenticated_stream_fin (begun (query 0 0) cut) 4).1 == 3

unfoldable pub smoke_short_length : ℕ → Bool
smoke_short_length size =
    (dispatch_authenticated_stream_data connection_init 4 (bytes_of (0 ∷ size ∷ [])) 2).1 == 3

unfoldable pub smoke_request_id : QuestionCheck → Bytes → Bool
smoke_request_id check_question memory =
    let (c, phase) = dispatch_authenticated_stream_data connection_init 4 (query 0x12 0x34) 19 in
    let (d, fin) = on_authenticated_stream_fin c 4 in
    let (len, out) = process_ready_stream_validated_minimal_response check_question d 4 memory 64 in
    all_hold ((phase == 4) ∷ (fin == 3) ∷ (len == 0) ∷ [])

abbrev same : Option ℕ → Option ℕ → Bool
same (some p) (some q) = p == q
same _ _ = false

-- The pointers to the four streams are different.
abbrev distinct : Connection → Bool
distinct c = for_all 4 (λ j. for_all j (λ i. not (c.order i == c.order j)))

-- A stream that is closed gives its context to the next one and leaves the other alone.
unfoldable pub smoke_reopen : Bool
smoke_reopen =
    let (c1, a) = open_stream connection_init 0 in
    let (c2, b) = open_stream c1 4 in
    let (c3, reset) = dispatch_stream_reset c2 0 in
    let (c4, third) = open_stream c3 8 in
    let (c5, again) = open_stream c4 8 in
    all_hold (
      same a a
      ∷ same b b
      ∷ not (same a b)
      ∷ (reset == 1)
      ∷ (c3.num == 1)
      ∷ same (some (c3.order 0)) b
      ∷ same (some (c3.order 1)) a
      ∷ same third a
      ∷ has_id c4 b
      ∷ same again a
      ∷ (c5.num == 2)
      ∷ distinct c5
      ∷ [])
  where
    has_id : Connection → Option ℕ → Bool
    has_id c none = false
    has_id c (some p) = (c.streams p).id == 4

unfoldable pub ism_smoke_proof_audit : QuestionCheck → Bytes → Bool
ism_smoke_proof_audit check_question memory = all_hold (
    for_all 20 (smoke_split check_question memory)
    ∷ for_all 21 smoke_excess
    ∷ for_all 19 smoke_cut
    ∷ for_all 12 smoke_short_length
    ∷ smoke_request_id check_question memory
    ∷ smoke_reopen
    ∷ [])
