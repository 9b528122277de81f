-- ===== src/Adapter/Replies.antt =====
-- What `ism_msquic_adapter_prepare_ready_response` of shell/msquic_adapter.c sends, and when it sends
-- nothing.
use ism.Prelude.{
  ℕ, ◌+◌, ◌≤◌, ◌<◌, ◌≡◌, ◌≢◌, ◌∙◌, sym, ap, subst, refl, true, false, arith, Bytes, inl, inr, ◌⊎◌,
  Option, none, some, if_cases, ◌==◌,
}
use ism.Stream.{Stream, processing}
use ism.Table.{find_stream}
use ism.Table.Find.{lookup}
use ism.Response.{prepare_doq_response_send}
use ism.Response.Framing.{prepare_doq_response_send-cases, prepare_doq_response_send_for_stream_lem}
use ism.Worker.Requests.{response-le, answer_ready-cases}
use ism.Worker.{
  QuestionCheck, prepare_worker_validated_minimal_response_send,
  dispatch_ready_stream_validated_minimal_response,
}
use ism.Adapter.{
  Adapter, Send, submit_send, frame_response, respond, refuses_response, prepare_ready_response,
}
use ism.Adapter.Completion.{IsIdle, IsBusy, IsValid}
use ism.Adapter.Sends.{
  IsQuiet, HandsOver, handed_over, submit_nothing, quiet, busy_respond, with_buffers,
}
use ism.Adapter.Answers.{Frames, ready-dispatched}

module _ {S : Type 0} (check_question : QuestionCheck) (send : Send S) (a : Adapter) (s : S)
    (id : ℕ) (v : IsValid a) where
  -- The worker's response to the request, in the response buffer.
  abbrev pub answer_to : Stream → ℕ → Bytes → ℕ × Bytes
  answer_to request len buffer =
      prepare_worker_validated_minimal_response_send check_question request buffer
        a.response_capacity len

  -- Nothing can be sent: a capacity is 0, there is no callback, or the table holds no ready message
  -- of the stream whose response is not empty and fits in the send buffer with its prefix.
  abbrev pub IsUnanswerable : Bytes → Type 0
  IsUnanswerable buffer =
      (a.response_capacity ≡ 0)
      ⊎ (a.send_capacity ≡ 0)
      ⊎ (a.has_send ≡ false)
      ⊎ ((request : Stream) (len : ℕ)
          → lookup a.connection id ≡ some request
          → request.phase ≡ processing len
          → ((answer_to request len buffer).0 ≡ 0)
            ⊎ (a.send_capacity < (answer_to request len buffer).0 + 2))

  -- There is a callback and some room, and the callback got exactly the framed response of the
  -- worker to the stream's ready message, which is not empty and fits. It took it, so that it is in
  -- flight, or refused it, so that the stream is closed.
  pub record IsReply (buffer out : Bytes) (r : ℕ × Adapter × S) : Type 0 where
    pub callback : a.has_send ≡ true
    pub some_room : a.response_capacity ≢ 0
    pub request : Stream
    pub len : ℕ
    pub held : lookup a.connection id ≡ some request
    pub ready : request.phase ≡ processing len
    pub some_response : (answer_to request len buffer).0 ≢ 0
    pub framed : ℕ × Bytes
    pub frames : Frames (answer_to request len buffer) out framed
    pub fits : framed.0 ≤ a.send_capacity
    pub handed : HandsOver check_question send a s id v framed.0 framed.1 r

  abbrev pub Replies : Bytes → Bytes → ℕ × Adapter × S → Type 0
  Replies buffer out r =
      (IsUnanswerable buffer × IsQuiet check_question send a s id v r) ⊎ IsReply buffer out r

  module _ (buffer out : Bytes) (i : IsIdle a) where
    abbrev response : ℕ × Bytes
    response =
        dispatch_ready_stream_validated_minimal_response check_question a.connection id buffer
          a.response_capacity

    -- A response of which nothing can be sent.
    unanswerable : (response.0 ≡ 0) ⊎ (a.send_capacity < response.0 + 2) → IsUnanswerable buffer
    unanswerable w = inr (
        inr (
          inr (λ request len held ready.
            subst (λ (r : ℕ × Bytes). (r.0 ≡ 0) ⊎ (a.send_capacity < r.0 + 2))
              (ready-dispatched check_question a.connection id len request held ready buffer
                a.response_capacity)
              w)))

    -- A response that is not empty is the worker's to a ready message.
    answered :
        response.0 ≢ 0
        → (p len : ℕ) × (find_stream a.connection id ≡ some p)
          × ((a.connection.streams p).ctx.phase ≡ processing len)
    unfolding dispatch_ready_stream_validated_minimal_response
    answered n =
        elim (answer_ready-cases (prepare_worker_validated_minimal_response_send check_question)
          a.connection buffer a.response_capacity id) [
            | inl e ↦ absurd (n (ap (λ r. r.0) e))
            | inr (p, len, found, ready, q) ↦ (p, len, found, ready)
          ]

    found-lookup :
        (p : ℕ)
        → find_stream a.connection id ≡ some p
        → lookup a.connection id ≡ some (a.connection.streams p).ctx
    unfolding lookup
    found-lookup p found =
        ap (λ r. elim r [ none ↦ none | some p ↦ some (a.connection.streams p).ctx ]) found

    abbrev there : Adapter
    there = record a { response_buffer = some response.1 }

    abbrev framed_now : ℕ × Bytes
    framed_now =
        prepare_doq_response_send a.connection id response.1 response.0 out a.send_capacity true

    -- Framing it gives nothing, since it does not fit, or it and its prefix.
    framed_now-cases :
        response.0 ≢ 0
        → ((framed_now.0 ≡ 0) × (a.send_capacity < response.0 + 2))
          ⊎ (Frames response out framed_now × (response.0 + 2 ≤ a.send_capacity))
    framed_now-cases n =
        let (p, len, found, ready) = answered n in
        elim (prepare_doq_response_send-cases a.connection id response.1 response.0 out
          a.send_capacity true) [
            | inl (e, q) ↦ absurd cc
            | inr (p, e, q) ↦
                elim (prepare_doq_response_send_for_stream_lem (a.connection.streams p).ctx
                  response.1 response.0 out a.send_capacity true (omega (arith, short))) [
                    | inl (inl w, r) ↦ absurd (omega (arith, short))
                    | inl (inr w, r) ↦ inl (ap (λ r. r.0) (q ∙ r), w)
                    | inr (k, c, r, b) ↦ inr (
                      record {
                        sent_len = ap (λ r. r.0) q ∙ r;
                        sent_byte = λ i. ap (λ r. r.1 i) q ∙ b i;
                      },
                      c,
                    )
                  ]
          ]
      where
        short : response.0 ≤ 271
        short = response-le check_question a.connection id buffer a.response_capacity

    abbrev submitted : ℕ × Adapter × S
    submitted = submit_send check_question send there s id framed_now.0 framed_now.1

    submitted-Replies : refuses_response a ≡ false → response.0 ≢ 0 → Replies buffer out submitted
    submitted-Replies able n = elim (framed_now-cases n) [
      | inl (e, w) ↦ inl (
        unanswerable (inr w),
        subst
            (λ m.
              IsQuiet check_question send a s id v
                (submit_send check_question send there s id m framed_now.1))
            (sym e)
            (submit_nothing check_question send a s id v there framed_now.1 refl
              (record { landed = i.landed; no_id = i.no_id; no_len = i.no_len })),
      )
      | inr (f, w) ↦
          let (p, len, found, ready) = answered n in
          let held = found-lookup p found in
          inr (record {
            callback = ground (arith, able);
            some_room = λ z. ground (arith, able, z);
            request = (a.connection.streams p).ctx;
            len = len;
            held = held;
            ready = ready;
            some_response = subst (λ (r : ℕ × Bytes). r.0 ≢ 0) (same p len held ready) n;
            framed = framed_now;
            frames = subst (λ r. Frames r out framed_now) (same p len held ready) f;
            fits = omega (arith, f.sent_len);
            handed =
                handed_over check_question send a s id v there framed_now.0 framed_now.1 refl refl
                  (omega (arith, f.sent_len)) (omega (arith, f.sent_len))
                  ((a.connection.streams p).ctx, held);
          })
    ]
      where
        same :
            (p len : ℕ)
            → lookup a.connection id ≡ some (a.connection.streams p).ctx
            → (a.connection.streams p).ctx.phase ≡ processing len
            → response ≡ answer_to (a.connection.streams p).ctx len buffer
        same p len held ready =
            ready-dispatched check_question a.connection id len (a.connection.streams p).ctx held
              ready buffer a.response_capacity

    respond-Replies : Replies buffer out (respond check_question send a s id buffer out)
    unfolding respond frame_response
    respond-Replies =
        if_cases (Replies buffer out) (refuses_response a)
          (λ e. inl (refused e, quiet check_question send a s id v i))
          (λ e.
            if_cases (Replies buffer out) (response.0 == 0)
              (λ z. inl (
                unanswerable (inl (ground (arith, z))),
                record {
                  nothing = refl;
                  same_state = refl;
                  same_table = refl;
                  still_idle = record { landed = i.landed; no_id = i.no_id; no_len = i.no_len };
                },
              ))
              (λ z. submitted-Replies e (λ x. ground (arith, z, x))))
      where
        reason :
            refuses_response a ≡ true
            → (a.response_capacity ≡ 0) ⊎ (a.send_capacity ≡ 0) ⊎ (a.has_send ≡ false)
        reason e = ground (arith, e, i.landed)

        refused : refuses_response a ≡ true → IsUnanswerable buffer
        refused e = elim (reason e) [
          | inl p ↦ inl p
          | inr (inl p) ↦ inr (inl p)
          | inr (inr p) ↦ inr (inr (inl p))
        ]

  -- With nothing in flight: a buffer is missing and nothing changes, or both are there.
  abbrev pub FromIdle : Option Bytes → Option Bytes → ℕ × Adapter × S → Type 0
  FromIdle r t x =
      (((r ≡ none) ⊎ (t ≡ none)) × (x ≡ (0, a, s)))
      ⊎ ((buffer out : Bytes) × (r ≡ some buffer) × (t ≡ some out) × Replies buffer out x)

  idle-FromIdle :
      IsIdle a → (r t : Option Bytes) → FromIdle r t (with_buffers check_question send a s id v r t)
  idle-FromIdle i none t = inl (inl refl, refl)
  idle-FromIdle i (some buffer) none = inl (inr refl, refl)
  idle-FromIdle i (some buffer) (some out) =
      inr (buffer, out, refl, refl, respond-Replies buffer out i)

  busy_with :
      IsBusy a → (r t : Option Bytes) → with_buffers check_question send a s id v r t ≡ (0, a, s)
  busy_with b none t = refl
  busy_with b (some buffer) none = refl
  busy_with b (some buffer) (some out) = busy_respond check_question send a s id v buffer out b

  -- While a send is in flight or without one of the two buffers nothing changes. Otherwise either
  -- the callback is not called, the table and the record of the send stay, and this only if a
  -- capacity is 0, there is no callback, or the response of the worker to the ready message that
  -- the table may hold of the stream is empty or does not fit in the send buffer with its prefix;
  -- or none of these holds, and the callback gets exactly the framed response of the worker to that
  -- message, which is then in flight if the callback took it, and else exactly the stream is
  -- closed; the adapter is then valid.
  pub prepare_ready_response_lem :
      let r = prepare_ready_response check_question send a s id in
      (IsBusy a × (r ≡ (0, a, s))) ⊎ (IsIdle a × FromIdle a.response_buffer a.send_buffer r)
  unfolding prepare_ready_response
  prepare_ready_response_lem = elim v.state [
    | inl i ↦ inr (i, idle-FromIdle i a.response_buffer a.send_buffer)
    | inr b ↦ inl (b, busy_with b a.response_buffer a.send_buffer)
  ]
