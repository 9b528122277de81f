-- ===== src/Adapter/Progress.antt =====
-- Progress of the transport adapter of shell/msquic_adapter.c: a complete request that FIN ends is
-- answered, by a call of the send callback.
use ism.Prelude.{
  ℕ, ◌≤◌, ◌≡◌, ◌≢◌, ◌⊎◌, ◌∙◌, inl, inr, refl, sym, ap, subst, arith, Bool, true, false, not, ◌==◌,
  ◌&&◌, none, some, Bytes,
}
use ism.Stream.{
  Stream, Phase, processing, awaiting_fin, handle_stream_fin, finish_doq_phase, finish_stream_phase,
  shell_phase_code,
}
use ism.Table.{Connection, on_authenticated_stream_fin}
use ism.Table.Find.{lookup}
use ism.Table.Valid
use ism.Table.Valid.{IsLinked-IsSearchable}
use ism.Table.Ingress.{on_authenticated_stream_fin_lem}
use ism.Worker.{QuestionCheck, prepare_worker_validated_minimal_response_send}
use ism.Adapter.{
  Adapter, Send, prepare_ready_response, answer_if, adapter_on_authenticated_stream_fin,
}
use ism.Adapter.Completion.{IsValid, IsIdle, InFlight}
use ism.Adapter.Events.{with_connection-IsValid}
use ism.Adapter.Rooms.{HasRoom, prepare_ready_response-HasRoom}
use ism.Adapter.Answers.{
  CanAnswer, still_answers, HasMessage, Frames, Answered, prepare_ready_response-Answered,
}

-- The stream was answered: the response, framed, went to the send callback with FIN, and either it
-- took the bytes, and they are the send in flight, or it refused them, and the table has forgotten
-- the stream. Of the other streams the table holds what it held in `c`.
pub record IsAnswered {S : Type 0} (send : Send S) (s : S) (id : ℕ) (c : Connection)
    (response : ℕ × Bytes) (out : Bytes) (r : ℕ × Adapter × S) : Type 0 where
  pub code : r.0 ≡ 2
  pub valid : IsValid r.1
  pub room : HasRoom r.1
  pub others : (other : ℕ) → other ≢ id → lookup r.1.connection other ≡ lookup c other
  pub bytes : ℕ × Bytes
  pub framed : Frames response out bytes
  pub taken : Bool
  pub called : send s id bytes.1 bytes.0 true ≡ (r.2, taken)
  pub outcome :
      ((taken ≡ true) × InFlight r.1 id bytes.0)
      ⊎ ((taken ≡ false) × IsIdle r.1 × (lookup r.1.connection id ≡ none))

module _ {S : Type 0} (check_question : QuestionCheck) (send : Send S) (a : Adapter) (s : S)
    (id : ℕ) (v : IsValid a) (k : CanAnswer a) (response : ℕ × Bytes) (r : ℕ × Adapter × S)
    (c : Connection)
    (h : (other : ℕ) → other ≢ id → lookup a.connection other ≡ lookup c other) where
  same_call :
      {bytes : Bytes} {len : ℕ} (b : ℕ × Bytes) (taken : Bool)
      → bytes ≡ b.1
      → len ≡ b.0
      → send s id bytes len true ≡ (r.2, taken)
      → send s id b.1 b.0 true ≡ (r.2, taken)
  same_call {bytes = bytes} b taken e n q =
      ap (λ x. send s id x b.0 true) (sym e) ∙ ap (λ x. send s id bytes x true) (sym n) ∙ q

  answered :
      HasRoom r.1
      → Answered check_question send a s id v k response r
      → IsAnswered send s id c response k.out (2, r.1, r.2)
  answered m (b, f, inl (q, e, n)) = record {
    code = refl;
    valid = q.valid;
    room = m;
    others = λ x ne. ap (λ d. lookup d x) q.same_table ∙ h x ne;
    bytes = b;
    framed = f;
    taken = true;
    called = same_call b true e n q.called;
    outcome = inl (refl, subst (InFlight r.1 id) n q.in_flight);
  }
  answered m (b, f, inr (q, e, n)) = record {
    code = refl;
    valid = q.valid;
    room = m;
    others = λ x ne. ground (arith, q.closed x, h x ne);
    bytes = b;
    framed = f;
    taken = false;
    called = same_call b false e n q.called;
    outcome = inr (refl, q.idle, ground (arith, q.closed id));
  }

-- What a table agrees with another on may be told of either.
pub IsAnswered-trans :
    {S : Type 0} {send : Send S} {s : S} {id : ℕ} {c d : Connection} {response : ℕ × Bytes}
    {out : Bytes} {r : ℕ × Adapter × S}
    → ((other : ℕ) → other ≢ id → lookup c other ≡ lookup d other)
    → IsAnswered send s id c response out r
    → IsAnswered send s id d response out r
IsAnswered-trans h q = record {
  code = q.code;
  valid = q.valid;
  room = q.room;
  others = λ x ne. q.others x ne ∙ h x ne;
  bytes = q.bytes;
  framed = q.framed;
  taken = q.taken;
  called = q.called;
  outcome = q.outcome;
}

fin_processing :
    {phase : Phase} {hi lo : ℕ} (len : ℕ)
    → phase ≡ awaiting_fin len
    → hi ≡ 0
    → lo ≡ 0
    → finish_doq_phase phase hi lo ≡ processing len
unfolding finish_doq_phase finish_stream_phase
fin_processing len e h l = rw (e, h, l) refl

-- FIN for a stream that awaits it turns its message into a request.
on_authenticated_stream_fin-HasMessage :
    (c : Connection) (id len : ℕ)
    → Valid.IsValid c
    → (m : HasMessage c id (awaiting_fin len))
    → ((on_authenticated_stream_fin c id).1 ≡ 2)
      × ((n : HasMessage (on_authenticated_stream_fin c id).0 id (processing len)) × (n.stream
            ≡ handle_stream_fin m.stream))
      × ((other : ℕ)
          → other ≢ id
          → lookup (on_authenticated_stream_fin c id).0 other ≡ lookup c other)
unfolding shell_phase_code
on_authenticated_stream_fin-HasMessage c id len v m =
    elim (on_authenticated_stream_fin_lem c id v).1 [
      | inl (e, n, r) ↦ absurd cc
      | inr (t, inr (e, n, i, q), code, self, others) ↦ absurd cc
      | inr (t, inl e, code, self, others) ↦ (
        code ∙ ap shell_phase_code (finished t (same t e)),
        (
          record {
            stream = handle_stream_fin t;
            held = self;
            at_phase = finished t (same t e);
            id_hi = unfold handle_stream_fin in ap (λ u. u.message 0) (same t e) ∙ m.id_hi;
            id_lo = unfold handle_stream_fin in ap (λ u. u.message 1) (same t e) ∙ m.id_lo;
          },
          ap handle_stream_fin (same t e),
        ),
        others,
      )
    ]
  where
    same : (t : Stream) → lookup c id ≡ some t → t ≡ m.stream
    same t e = cc

    finished : (t : Stream) → t ≡ m.stream → (handle_stream_fin t).phase ≡ processing len
    finished t e =
        unfold handle_stream_fin in
        fin_processing len (ap (λ u. u.phase) e ∙ m.at_phase) (ap (λ u. u.message 0) e ∙ m.id_hi)
          (ap (λ u. u.message 1) e ∙ m.id_lo)

-- FIN answers: while nothing is in flight and the buffers hold any response of the worker, FIN
-- for a stream whose message of at least a DNS header and of DNS ID 0 awaits it hands the worker's
-- response to that message, framed, to the send callback, whatever the request asks and whatever
-- the callback does; the code is that of a ready request, and the response is in flight or the
-- stream forgotten as the callback answers; the adapter stays valid and no other stream is touched.
pub fin_answers :
    {S : Type 0} (check_question : QuestionCheck) (send : Send S) (a : Adapter) (s : S) (id len : ℕ)
    → IsValid a
    → (k : CanAnswer a) → (m : HasMessage a.connection id (awaiting_fin len)) → 12 ≤ len
    → IsAnswered send s id a.connection
        (prepare_worker_validated_minimal_response_send check_question
          (handle_stream_fin m.stream)
          k.response
          a.response_capacity
          len)
        k.out
        (adapter_on_authenticated_stream_fin check_question send a s id)
unfolding adapter_on_authenticated_stream_fin
fin_answers {S = S} check_question send a s id len v k m enough =
    let d = on_authenticated_stream_fin_lem a.connection id v.table in
    let w =
      with_connection-IsValid a id handle_stream_fin (on_authenticated_stream_fin a.connection id) v
        d.0 d.1 in
    let (code, (n, e), others) =
      on_authenticated_stream_fin-HasMessage a.connection id len v.table m in
    subst
      (λ t.
        IsAnswered send s id a.connection
          (prepare_worker_validated_minimal_response_send check_question t k.response
            a.response_capacity len)
          k.out (adapter_on_authenticated_stream_fin check_question send a s id))
      e
      (subst
        (IsAnswered send s id a.connection
          (prepare_worker_validated_minimal_response_send check_question n.stream k.response
            a.response_capacity len)
          k.out)
        (sym (reached code))
        (answered check_question send after s id w (still_answers a k after.connection)
          (prepare_worker_validated_minimal_response_send check_question n.stream k.response
            a.response_capacity len)
          (prepare_ready_response check_question send after s id) a.connection others
          (prepare_ready_response-HasRoom check_question send after s id
            (still_answers a k after.connection).room)
          (prepare_ready_response-Answered check_question send after s id w
            (still_answers a k after.connection) len n enough)))
  where
    after : Adapter
    after = record a { connection = (on_authenticated_stream_fin a.connection id).0 }

    reached :
        (on_authenticated_stream_fin a.connection id).1 ≡ 2
        → adapter_on_authenticated_stream_fin check_question send a s id ≡ (
          2,
          (prepare_ready_response check_question send after s id).1,
          (prepare_ready_response check_question send after s id).2,
        )
    reached e =
        ap
          (λ code.
            answer_if check_question send (code == 2 && not a.send_in_flight) after s id code)
          e
        ∙ ap (λ b. answer_if check_question send (not b) after s id 2) k.landed
