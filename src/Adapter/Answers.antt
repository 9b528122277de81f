-- ===== src/Adapter/Answers.antt =====
-- The answer of the transport adapter of shell/msquic_adapter.c to a complete request: the worker's
-- response, framed and handed to the send callback.
use ism.Prelude.{
  ℕ, ◌+◌, ◌≤◌, ◌≡◌, ◌∙◌, inl, inr, refl, sym, ap, subst, arith, true, false, not, ltb, ◌==◌, ◌||◌,
  if_cases, Option, none, some, Option-cases, Bytes,
}
use ism.Stream.{Stream, Phase, processing}
use ism.Table.{Connection, find_stream}
use ism.Table.Find.{lookup}
use ism.Response.{prepare_doq_response_send}
use ism.Response.Framing.{
  framed_byte, prepare_doq_response_send-cases, prepare_doq_response_send_for_stream_lem,
}
use ism.Worker.{
  QuestionCheck, valid_doq_request_id, validate_minimal_uncompressed_question_request, answer,
  answer_ready, prepare_worker_minimal_error_response_send,
  prepare_worker_question_noerror_response_send, prepare_worker_validated_minimal_response_send,
  dispatch_ready_stream_validated_minimal_response,
}
use ism.Worker.Requests.{response-le}
use ism.Adapter.{Adapter, Send, frame_response, respond, refuses_response, prepare_ready_response}
use ism.Adapter.Rooms.{HasRoom, elsewhere}
use ism.Adapter.Completion.{IsValid}
use ism.Adapter.Sends.{handed_over, with_buffers, HandsOver}

-- The adapter can answer: nothing is in flight, and the buffers hold any response of the worker.
pub record CanAnswer (a : Adapter) : Type 0 where
  pub landed : a.send_in_flight ≡ false
  pub room : HasRoom a
  pub open room use *

-- That does not depend on the table.
abbrev pub still_answers :
    (a : Adapter) → CanAnswer a → (c : Connection) → CanAnswer (record a { connection = c })
still_answers a k c = record {
  landed = k.landed;
  room = elsewhere a c a.send_in_flight a.send_stream_id a.send_len k.room;
}

-- The table holds the stream, with a message in this phase whose DNS ID is 0.
pub record HasMessage (c : Connection) (id : ℕ) (phase : Phase) : Type 0 where
  pub stream : Stream
  pub held : lookup c id ≡ some stream
  pub at_phase : stream.phase ≡ phase
  pub id_hi : stream.message 0 ≡ 0
  pub id_lo : stream.message 1 ≡ 0

-- The bytes are the framed response, in a buffer that was `out`.
pub record Frames (response : ℕ × Bytes) (out : Bytes) (r : ℕ × Bytes) : Type 0 where
  pub sent_len : r.0 ≡ response.0 + 2
  pub sent_byte : (i : ℕ) → r.1 i ≡ framed_byte response.1 response.0 out i

-- With room for any response, the worker has one for every request of a header and the DNS ID 0.
pub worker_answers :
    (check_question : QuestionCheck) (s : Stream) (out : Bytes) (capacity len : ℕ)
    → s.message 0 ≡ 0
    → s.message 1 ≡ 0
    → 12 ≤ len
    → 271 ≤ capacity
    → 12 ≤ (prepare_worker_validated_minimal_response_send check_question s out capacity len).0
unfolding prepare_worker_validated_minimal_response_send
worker_answers check_question s out capacity len h l n c =
    if_cases (λ (r : ℕ × Bytes). 12 ≤ r.0) (not (valid_doq_request_id s.message len))
      (λ e. absurd (refused e))
      (λ e.
        if_cases (λ (r : ℕ × Bytes). 12 ≤ r.0)
          (validate_minimal_uncompressed_question_request check_question s.message len)
          (λ q. question q) (λ q. error))
  where
    refused : not (valid_doq_request_id s.message len) ≡ true → ⊥
    refused e = unfold valid_doq_request_id in ground (arith, e)

    error : 12 ≤ (prepare_worker_minimal_error_response_send s out capacity len).0
    error = unfold prepare_worker_minimal_error_response_send in ground arith

    question :
        validate_minimal_uncompressed_question_request check_question s.message len ≡ true
        → 12 ≤ (prepare_worker_question_noerror_response_send s out capacity len).0
    question q = unfold prepare_worker_question_noerror_response_send in ground (arith, bounds q)
      where
        bounds :
            validate_minimal_uncompressed_question_request check_question s.message len ≡ true
            → (17 ≤ len) × (len ≤ 271)
        bounds q =
            unfold validate_minimal_uncompressed_question_request in
            if_cases (λ b. b ≡ true → (17 ≤ len) × (len ≤ 271))
              (not (valid_doq_request_id s.message len) || (ltb len 17 || ltb 271 len)) (λ e f. cc)
              (λ e f. ground (arith, e)) q

-- What the table holds is what the search finds.
lookup-find_stream :
    (c : Connection) (id : ℕ) (t : Stream)
    → lookup c id ≡ some t
    → (p : ℕ) × (find_stream c id ≡ some p) × ((c.streams p).ctx ≡ t)
unfolding lookup
lookup-find_stream c id t e = elim (Option-cases (find_stream c id)) [
  | inl n ↦ absurd (clash (held none n))
  | inr (p, q) ↦ (p, q, same p (held (some p) q))
]
  where
    clash : lookup c id ≡ none → ⊥
    clash n = cc

    same : (p : ℕ) → lookup c id ≡ some (c.streams p).ctx → (c.streams p).ctx ≡ t
    same p q = cc

    held :
        (r : Option ℕ)
        → find_stream c id ≡ r
        → lookup c id ≡ elim r [ none ↦ none | some p ↦ some (c.streams p).ctx ]
    held r q = ap (λ r. elim r [ none ↦ none | some p ↦ some (c.streams p).ctx ]) q

-- The scheduler passes on what the worker answers to the message of a stream.
pub ready-dispatched :
    (check_question : QuestionCheck) (c : Connection) (id len : ℕ) (t : Stream)
    → lookup c id ≡ some t
    → t.phase ≡ processing len
    → (out : Bytes) (capacity : ℕ)
    → dispatch_ready_stream_validated_minimal_response check_question c id out capacity
      ≡ prepare_worker_validated_minimal_response_send check_question t out capacity len
unfolding dispatch_ready_stream_validated_minimal_response answer_ready
ready-dispatched check_question c id len t held ready out capacity =
    let (p, found, q) = lookup-find_stream c id t held in
    ap
      (λ r. elim r [
        | none ↦ (0, out)
        | some p ↦
            answer (prepare_worker_validated_minimal_response_send check_question) (c.streams p).ctx
              out capacity (c.streams p).phase
      ])
      found
    ∙ ap
        (λ t.
          answer (prepare_worker_validated_minimal_response_send check_question) t out capacity
            t.phase)
        q
    ∙ ap (answer (prepare_worker_validated_minimal_response_send check_question) t out capacity)
        ready

module _ (check_question : QuestionCheck) (c : Connection) (id len : ℕ)
    (m : HasMessage c id (processing len)) (enough : 12 ≤ len) where
  dispatched :
      (out : Bytes) (capacity : ℕ)
      → dispatch_ready_stream_validated_minimal_response check_question c id out capacity
        ≡ prepare_worker_validated_minimal_response_send check_question m.stream out capacity len
  dispatched = ready-dispatched check_question c id len m.stream m.held m.at_phase

  -- With room for any, there is one.
  response_ge :
      (out : Bytes) (capacity : ℕ)
      → 271 ≤ capacity
      → 12 ≤ (dispatch_ready_stream_validated_minimal_response check_question c id out capacity).0
  response_ge out capacity h =
      subst (λ r. 12 ≤ r.0) (sym (dispatched out capacity))
        (worker_answers check_question m.stream out capacity len m.id_hi m.id_lo enough h)

  -- Framing a response of the worker takes it and its prefix.
  prepare_doq_response_send-Frames :
      (n : ℕ) (response out : Bytes) (capacity : ℕ)
      → n ≤ 271
      → 273 ≤ capacity
      → Frames (n, response) out (prepare_doq_response_send c id response n out capacity true)
  prepare_doq_response_send-Frames n response out capacity l h =
      elim (prepare_doq_response_send-cases c id response n out capacity true) [
        | inl (e, q) ↦ let (p, found, r) = lookup-find_stream c id m.stream m.held in absurd cc
        | inr (p, e, q) ↦
            elim (prepare_doq_response_send_for_stream_lem (c.streams p).ctx response n out capacity
              true (omega arith)) [
                | inl (inl w, r) ↦ absurd (omega arith)
                | inl (inr w, r) ↦ absurd (omega arith)
                | inr (k, b, r, x) ↦ record {
                  sent_len = ap (λ r. r.0) q ∙ r;
                  sent_byte = λ i. ap (λ r. r.1 i) q ∙ x i;
                }
              ]
      ]

module _ {S : Type 0} (check_question : QuestionCheck) (send : Send S) (a : Adapter) (s : S)
    (id : ℕ) (v : IsValid a) (k : CanAnswer a) where
  -- The response, framed, went to the callback, which took it or refused it.
  abbrev pub Answered : ℕ × Bytes → ℕ × Adapter × S → Type 0
  Answered response r =
      (b : ℕ × Bytes) × Frames response k.out b × HandsOver check_question send a s id v b.0 b.1 r

module _ {S : Type 0} (check_question : QuestionCheck) (send : Send S) (a : Adapter) (s : S)
    (id : ℕ) (v : IsValid a) (k : CanAnswer a) (len : ℕ)
    (m : HasMessage a.connection id (processing len)) (enough : 12 ≤ len) where
  abbrev Answers : ℕ × Bytes → ℕ × Adapter × S → Type 0
  Answers = Answered check_question send a s id v k

  frame_response-Answered :
      (n : ℕ) (response : Bytes)
      → 12 ≤ n
      → n ≤ 271
      → Answers (n, response) (frame_response check_question send a s id n response k.out)
  unfolding frame_response
  frame_response-Answered n response l h =
      if_cases (Answers (n, response)) (n == 0) (λ e. absurd (ground arith))
        (λ e. (
          prepare_doq_response_send a.connection id response n k.out a.send_capacity true,
          framed,
          handed_over check_question send a s id v (record a { response_buffer = some response })
              (prepare_doq_response_send a.connection id response n k.out a.send_capacity true).0
              (prepare_doq_response_send a.connection id response n k.out a.send_capacity true).1
              refl refl (omega (arith, framed.sent_len))
              (omega (arith, framed.sent_len, k.send_room)) (m.stream, m.held),
        ))
    where
      framed :
          Frames
            (n, response)
            k.out
            (prepare_doq_response_send a.connection id response n k.out a.send_capacity true)
      framed =
          prepare_doq_response_send-Frames check_question a.connection id len m enough n response
            k.out a.send_capacity h k.send_room

  abbrev ready : ℕ × Bytes
  ready =
      dispatch_ready_stream_validated_minimal_response check_question a.connection id k.response
        a.response_capacity

  respond-Answered : Answers ready (respond check_question send a s id k.response k.out)
  unfolding respond
  respond-Answered =
      if_cases (Answers ready) (refuses_response a)
        (λ e. absurd (ground (arith, e, k.landed, k.response_room, k.send_room, k.callback)))
        (λ e.
          frame_response-Answered ready.0 ready.1
            (response_ge check_question a.connection id len m enough k.response a.response_capacity
              k.response_room)
            (response-le check_question a.connection id k.response a.response_capacity))

  -- An adapter that can answer hands the worker's response to the callback.
  pub prepare_ready_response-Answered :
      Answers
        (prepare_worker_validated_minimal_response_send check_question m.stream k.response
          a.response_capacity len)
        (prepare_ready_response check_question send a s id)
  unfolding prepare_ready_response
  prepare_ready_response-Answered =
      subst (λ p. Answers p (prepare_ready_response check_question send a s id))
        (dispatched check_question a.connection id len m enough k.response a.response_capacity)
        (subst (λ r. Answers ready (with_buffers check_question send a s id v r a.send_buffer))
          (sym k.has_response)
          (subst
            (λ t. Answers ready (with_buffers check_question send a s id v (some k.response) t))
            (sym k.has_out) respond-Answered))
