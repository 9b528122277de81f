-- ===== src/Adapter/Sends.antt =====
-- `ism_msquic_adapter_prepare_ready_response` of shell/msquic_adapter.c: a response is sent only
-- while nothing is in flight, and what becomes of it.
use ism.Prelude.{
  ℕ, ◌+◌, ◌≤◌, ◌<◌, ◌≡◌, ◌∙◌, sym, ap, subst, refl, Bool, true, false, arith, Bytes, inl, inr, ◌⊎◌,
  Option, none, some, if_cases, ◌==◌, ltb, if◌then◌else◌,
}
use ism.Stream.{Stream}
use ism.Table.{dispatch_response_send_finished}
use ism.Table.Find.{lookup, find_stream-some, lookup-Holds}
use ism.Table.Valid
use ism.Table.Valid.{IsLinked-IsSearchable}
use ism.Table.Close.{Completes, Forgets, response_send_finished_lem}
use ism.Response.{prepare_doq_response_send}
use ism.Response.Framing.{prepare_doq_response_send-cases, prepare_doq_response_send_for_stream_lem}
use ism.Worker.Requests.{response-le}
use ism.Worker.{QuestionCheck, dispatch_ready_stream_validated_minimal_response}
use ism.Adapter.{
  Adapter, Send, settle_send, submit_send, frame_response, respond, refuses_response,
  prepare_ready_response,
}
use ism.Adapter.Completion.{InFlight, IsIdle, IsBusy, IsValid}

module _ {S : Type 0} (check_question : QuestionCheck) (send : Send S) (a : Adapter) (s : S)
    (id : ℕ) (v : IsValid a) where
  -- Nothing was sent: the callback was not called, and the table and the record of the send are
  -- as before.
  pub record IsQuiet (r : ℕ × Adapter × S) : Type 0 where
    pub nothing : r.0 ≡ 0
    pub same_state : r.2 ≡ s
    pub same_table : r.1.connection ≡ a.connection
    pub still_idle : IsIdle r.1

  -- The callback took these bytes, which are now in flight.
  pub record IsSent (r : ℕ × Adapter × S) : Type 0 where
    pub bytes : Bytes
    pub called : send s id bytes r.0 true ≡ (r.2, true)
    pub same_table : r.1.connection ≡ a.connection
    pub in_flight : InFlight r.1 id r.0
    pub valid : IsValid r.1

  -- The callback refused it, and the stream is closed.
  pub record IsRefused (r : ℕ × Adapter × S) : Type 0 where
    pub bytes : Bytes
    pub len : ℕ
    pub called : send s id bytes len true ≡ (r.2, false)
    pub nothing : r.0 ≡ 0
    pub idle : IsIdle r.1
    pub valid : IsValid r.1
    pub closed : Forgets a.connection id r.1.connection

  abbrev pub Outcome : ℕ × Adapter × S → Type 0
  Outcome r = IsQuiet r ⊎ IsSent r ⊎ IsRefused r

  pub submit_nothing :
      (b : Adapter) (framed : Bytes)
      → b.connection ≡ a.connection
      → IsIdle b
      → IsQuiet (submit_send check_question send b s id 0 framed)
  unfolding submit_send
  submit_nothing b framed c i = record {
    nothing = refl;
    same_state = refl;
    same_table = c;
    still_idle = record { landed = i.landed; no_id = i.no_id; no_len = i.no_len };
  }

  abbrev marked : Adapter → Bytes → ℕ → Adapter
  marked b framed len = record b {
    send_buffer = some framed;
    send_in_flight = true;
    send_stream_id = id;
    send_len = len;
  }

  -- These bytes went to the callback, which took them or refused them.
  abbrev pub HandsOver : ℕ → Bytes → ℕ × Adapter × S → Type 0
  HandsOver n framed r =
      ((q : IsSent r) × (q.bytes ≡ framed) × (r.0 ≡ n))
      ⊎ ((q : IsRefused r) × (q.bytes ≡ framed) × (q.len ≡ n))

  settled :
      (b : Adapter) (framed : Bytes) (len : ℕ) (taken : S × Bool)
      → b.connection ≡ a.connection
      → 0 < len
      → len ≤ b.send_capacity
      → ((t : Stream) × (lookup a.connection id ≡ some t))
      → send s id framed len true ≡ taken
      → HandsOver len framed (settle_send check_question send (marked b framed len) id len taken)
  unfolding settle_send
  settled b framed len (s', true) c p q (t, h) e = inl (
    record {
      bytes = framed;
      called = e;
      same_table = c;
      in_flight = record { flying = refl; flying_id = refl; flying_len = refl };
      valid = record {
        table = subst Valid.IsValid (sym c) v.table;
        state = inr (record {
          flight = record { flying = refl; flying_id = refl; flying_len = refl };
          some_bytes = p;
          fits = q;
          buffer = (framed, refl);
          stream = (t, ap (λ d. lookup d id) c ∙ h);
        });
      };
    },
    refl,
    refl,
  )
  settled b framed len (s', false) c p q (t, h) e = inr (
    record {
      bytes = framed;
      len = len;
      called = e;
      nothing = refl;
      idle = record { landed = refl; no_id = refl; no_len = refl };
      valid = record {
        table = finished.0;
        state = inl (record { landed = refl; no_id = refl; no_len = refl });
      };
      closed = λ other. finished.2 other ∙ ap (λ d. if other == id then none else lookup d other) c;
    },
    refl,
    refl,
  )
    where
      finished : Completes b.connection id (dispatch_response_send_finished b.connection id true)
      finished =
          (response_send_finished_lem b.connection id true (subst Valid.IsValid (sym c) v.table)).0

  -- What is submitted: nothing, or bytes that fit for a stream of the table.
  abbrev Submits : ℕ × Bytes → Type 0
  Submits r =
      (r.0 ≡ 0)
      ⊎ ((0 < r.0) × (r.0 ≤ a.send_capacity) × ((t : Stream) × (lookup a.connection id ≡ some t)))

  framed_Submits :
      (n : ℕ) (response out : Bytes)
      → n ≤ 271
      → Submits (prepare_doq_response_send a.connection id response n out a.send_capacity true)
  framed_Submits n response out l =
      elim (prepare_doq_response_send-cases a.connection id response n out a.send_capacity true) [
        | inl (e, q) ↦ inl (ap (λ r. r.0) q)
        | inr (p, e, q) ↦
            let (j, g) = find_stream-some a.connection id p e in
            elim (prepare_doq_response_send_for_stream_lem (a.connection.streams p).ctx response n
              out a.send_capacity true (omega arith)) [
                | inl (w, r) ↦ inl (ap (λ r. r.0) (q ∙ r))
                | inr (k, c, r, b) ↦ inr (
                  positive (ap (λ r. r.0) q ∙ r),
                  fitting (ap (λ r. r.0) q ∙ r) c,
                  (
                    (a.connection.streams p).ctx,
                    lookup-Holds a.connection id p j (IsLinked-IsSearchable v.table.linked) g,
                  ),
                )
              ]
      ]
    where
      positive : {m : ℕ} → m ≡ n + 2 → 0 < m
      positive e = omega arith

      fitting : {m : ℕ} → m ≡ n + 2 → n + 2 ≤ a.send_capacity → m ≤ a.send_capacity
      fitting e h = omega arith

  -- Bytes that fit are handed to the callback, which takes them or refuses them.
  pub handed_over :
      (b : Adapter) (n : ℕ) (framed : Bytes)
      → b.connection ≡ a.connection
      → b.send_capacity ≡ a.send_capacity
      → 0 < n
      → n ≤ a.send_capacity
      → ((t : Stream) × (lookup a.connection id ≡ some t))
      → HandsOver n framed (submit_send check_question send b s id n framed)
  unfolding submit_send
  handed_over b n framed c k p q t =
      if_cases (HandsOver n framed) (ltb 0 n)
        (λ e.
          settled b framed n (send s id framed n true) c p (subst (λ m. n ≤ m) (sym k) q) t refl)
        (λ e. absurd (ground arith))

  submitted :
      (b : Adapter) (r : ℕ × Bytes)
      → b.connection ≡ a.connection
      → b.send_capacity ≡ a.send_capacity
      → IsIdle b
      → Submits r
      → Outcome (submit_send check_question send b s id r.0 r.1)
  submitted b (n, framed) c k i (inl e) = inl (
      subst (λ m. IsQuiet (submit_send check_question send b s id m framed)) (sym e)
        (submit_nothing b framed c i))
  submitted b (n, framed) c k i (inr (p, q, t)) = elim (handed_over b n framed c k p q t) [
    | inl (h, e, l) ↦ inr (inl h)
    | inr (h, e, l) ↦ inr (inr h)
  ]

  -- Bytes that are submitted end in one of the three outcomes.
  framed-Outcome :
      (n : ℕ) (response out : Bytes)
      → IsIdle a
      → n ≤ 271
      → Outcome (frame_response check_question send a s id n response out)
  unfolding frame_response
  framed-Outcome n response out i l =
      if_cases Outcome (n == 0)
        (λ e. inl (record {
          nothing = refl;
          same_state = refl;
          same_table = refl;
          still_idle = record { landed = i.landed; no_id = i.no_id; no_len = i.no_len };
        }))
        (λ e.
          submitted (record a { response_buffer = some response })
            (prepare_doq_response_send a.connection id response n out a.send_capacity true) refl
            refl (record { landed = i.landed; no_id = i.no_id; no_len = i.no_len })
            (framed_Submits n response out l))

  pub quiet : IsIdle a → IsQuiet (0, a, s)
  quiet i = record { nothing = refl; same_state = refl; same_table = refl; still_idle = i }

  respond-Outcome :
      (buffer out : Bytes) → IsIdle a → Outcome (respond check_question send a s id buffer out)
  unfolding respond
  respond-Outcome buffer out i =
      if_cases Outcome (refuses_response a) (λ e. inl (quiet i))
        (λ e.
          framed-Outcome
            (dispatch_ready_stream_validated_minimal_response check_question a.connection id buffer
              a.response_capacity).0
            (dispatch_ready_stream_validated_minimal_response check_question a.connection id buffer
              a.response_capacity).1
            out i (response-le check_question a.connection id buffer a.response_capacity))

  pub busy_respond :
      (buffer out : Bytes) → IsBusy a → respond check_question send a s id buffer out ≡ (0, a, s)
  unfolding respond
  busy_respond buffer out b =
      if_cases (λ r. r ≡ (0, a, s)) (refuses_response a) (λ e. refl)
        (λ e. absurd (ground (arith, b.flight.flying)))

  -- The answer with these buffers, of which either may be NULL.
  abbrev pub with_buffers : Option Bytes → Option Bytes → ℕ × Adapter × S
  with_buffers r t = elim r [
    | none ↦ (0, a, s)
    | some buffer ↦ elim t [
      | none ↦ (0, a, s)
      | some out ↦ respond check_question send a s id buffer out
    ]
  ]

  -- While a send is in flight nothing changes. Otherwise nothing is sent, or some bytes are in
  -- flight, or the callback refused them and their stream is closed.
  pub prepare_ready_response-cases :
      let r = prepare_ready_response check_question send a s id in
      (IsBusy a × (r ≡ (0, a, s))) ⊎ (IsIdle a × Outcome r)
  unfolding prepare_ready_response
  prepare_ready_response-cases = elim v.state [
    | inl i ↦ inr (i, answered i a.response_buffer a.send_buffer)
    | inr b ↦ inl (b, unanswered b a.response_buffer a.send_buffer)
  ]
    where
      unanswered : IsBusy a → (r t : Option Bytes) → with_buffers r t ≡ (0, a, s)
      unanswered b none t = refl
      unanswered b (some buffer) none = refl
      unanswered b (some buffer) (some out) = busy_respond buffer out b

      answered : IsIdle a → (r t : Option Bytes) → Outcome (with_buffers r t)
      answered i none t = inl (quiet i)
      answered i (some buffer) none = inl (quiet i)
      answered i (some buffer) (some out) = respond-Outcome buffer out i
