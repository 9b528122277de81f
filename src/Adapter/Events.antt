-- ===== src/Adapter/Events.antt =====
-- Bytes, FIN and reset for a stream, as shell/msquic_adapter.c handles them.
use ism.Prelude.{
  ℕ, ◌<◌, ◌≡◌, ◌≢◌, ◌∙◌, sym, ap, subst, refl, Bool, true, false, not, arith, Bytes, inl, inr, ◌⊎◌,
  Option, none, some, if_cases, ℕ_discrete, ◌==◌, ◌&&◌,
}
use ism.Stream.{Stream, handle_stream_data, handle_stream_fin}
use ism.Table.{Connection, dispatch_authenticated_stream_data, on_authenticated_stream_fin}
use ism.Table.Find.{lookup}
use ism.Table.Valid
use ism.Table.Valid.{connection_init-IsValid}
use ism.Table.Close.{Forgets, dispatch_stream_reset_lem}
use ism.Table.Ingress.{
  Handles, dispatch_authenticated_stream_data_lem, on_authenticated_stream_fin_lem,
}
use ism.Worker.{QuestionCheck}
use ism.Adapter.{
  Adapter, Send, adapter_init, on_send_complete, on_stream_reset, prepare_ready_response, answer_if,
  on_authenticated_stream_bytes, adapter_on_authenticated_stream_fin,
}
use ism.Adapter.Completion.{IsValid, IsBusy, IsIdle, IsCompleted, on_send_complete_lem}
use ism.Adapter.Sends.{prepare_ready_response-cases}

-- A fresh adapter is valid, and nothing is in flight.
pub adapter_init-IsValid :
    (response_buffer : Option Bytes) (response_capacity : ℕ) (send_buffer : Option Bytes)
    (send_capacity : ℕ) (has_send : Bool)
    → let a = adapter_init response_buffer response_capacity send_buffer send_capacity has_send in
      IsValid a × IsIdle a
unfolding adapter_init
adapter_init-IsValid r m t n h =
    (record { table = connection_init-IsValid.0; state = inl blank }, blank)
  where
    blank : IsIdle (adapter_init r m t n h)
    blank = record { landed = refl; no_id = refl; no_len = refl }

-- A handled stream stays in the table, so a send in flight keeps its stream.
pub with_connection-IsValid :
    (a : Adapter) (id : ℕ) (f : Stream → Stream) (r : Connection × ℕ)
    → IsValid a
    → Valid.IsValid r.0
    → Handles a.connection id f r
    → IsValid (record a { connection = r.0 })
with_connection-IsValid a id f r v t h = record {
  table = t;
  state = elim v.state [
    | inl i ↦ inl (record { landed = i.landed; no_id = i.no_id; no_len = i.no_len })
    | inr b ↦ inr (record {
      flight = record { flying = b.flight.flying; flying_id = refl; flying_len = refl };
      some_bytes = b.some_bytes;
      fits = b.fits;
      buffer = b.buffer;
      stream = still b h;
    })
  ];
}
  where
    still :
        IsBusy a
        → Handles a.connection id f r
        → (s : Stream) × (lookup r.0 a.send_stream_id ≡ some s)
    still b (inl (n, l, e)) = (b.stream.0, ap (λ q. lookup q.0 a.send_stream_id) e ∙ b.stream.1)
    still b (inr (s, serves, code, self, others)) = elim (ℕ_discrete a.send_stream_id id) [
      | yes e ↦ (f s, ap (lookup r.0) e ∙ self)
      | no n ↦ (b.stream.0, others a.send_stream_id n ∙ b.stream.1)
    ]

module _ {S : Type 0} (check_question : QuestionCheck) (send : Send S) where
  -- Whatever becomes of a response, the adapter stays valid.
  pub prepare_ready_response-IsValid :
      (a : Adapter) (s : S) (id : ℕ)
      → IsValid a
      → IsValid (prepare_ready_response check_question send a s id).1
  prepare_ready_response-IsValid a s id v =
      elim (prepare_ready_response-cases check_question send a s id v) [
        | inl (b, e) ↦ subst (λ r. IsValid r.1) (sym e) v
        | inr (i, inl q) ↦ record {
          table = subst Valid.IsValid (sym q.same_table) v.table;
          state = inl q.still_idle;
        }
        | inr (i, inr (inl q)) ↦ q.valid
        | inr (i, inr (inr q)) ↦ q.valid
      ]

  answer_if-IsValid :
      (b : Bool) (a : Adapter) (s : S) (id phase : ℕ)
      → IsValid a
      → IsValid (answer_if check_question send b a s id phase).1
        × ((answer_if check_question send b a s id phase).0 ≡ phase)
  answer_if-IsValid true a s id phase v = (prepare_ready_response-IsValid a s id v, refl)
  answer_if-IsValid false a s id phase v = (v, refl)

  -- Bytes for a stream keep the adapter valid; the code is the one that the table gives, and a
  -- NULL fragment is refused untouched.
  pub on_authenticated_stream_bytes-IsValid :
      (a : Adapter) (s : S) (id : ℕ) (input : Option Bytes) (len : ℕ)
      → ((bytes : Bytes) → input ≡ some bytes → (i : ℕ) → bytes i < 256)
      → IsValid a
      → let r = on_authenticated_stream_bytes check_question send a s id input len in
        IsValid r.1
        × (((input ≡ none) × (r ≡ (3, a, s)))
            ⊎ ((bytes : Bytes) × (input ≡ some bytes)
                × (r.0 ≡ (dispatch_authenticated_stream_data a.connection id bytes len).1)))
  unfolding on_authenticated_stream_bytes
  on_authenticated_stream_bytes-IsValid a s id none len b v = (v, inl (refl, refl))
  on_authenticated_stream_bytes-IsValid a s id (some bytes) len b v =
      let d =
        dispatch_authenticated_stream_data_lem a.connection id bytes len (b bytes refl) v.table in
      let r =
        answer_if-IsValid ((dispatch_authenticated_stream_data a.connection id bytes len).1 == 2)
          (record a {
            connection = (dispatch_authenticated_stream_data a.connection id bytes len).0;
          })
          s id (dispatch_authenticated_stream_data a.connection id bytes len).1
          (with_connection-IsValid a id (λ t. handle_stream_data t bytes len)
            (dispatch_authenticated_stream_data a.connection id bytes len) v d.0 d.1) in
      (r.0, inr (bytes, refl, r.1))

  -- FIN for a stream keeps the adapter valid, and the code is the one that the table gives.
  pub adapter_on_authenticated_stream_fin-IsValid :
      (a : Adapter) (s : S) (id : ℕ)
      → IsValid a
      → let r = adapter_on_authenticated_stream_fin check_question send a s id in
        IsValid r.1 × (r.0 ≡ (on_authenticated_stream_fin a.connection id).1)
  unfolding adapter_on_authenticated_stream_fin
  adapter_on_authenticated_stream_fin-IsValid a s id v =
      let d = on_authenticated_stream_fin_lem a.connection id v.table in
      answer_if-IsValid
        ((on_authenticated_stream_fin a.connection id).1 == 2 && not a.send_in_flight)
        (record a { connection = (on_authenticated_stream_fin a.connection id).0 }) s id
        (on_authenticated_stream_fin a.connection id).1
        (with_connection-IsValid a id handle_stream_fin
          (on_authenticated_stream_fin a.connection id) v d.0 d.1)

pub on_send_complete-IsValid :
    (a : Adapter) (id len : ℕ) (dropped : Bool)
    → IsValid a
    → IsValid (on_send_complete a id len dropped).0
on_send_complete-IsValid a id len dropped v = elim (on_send_complete_lem a id len dropped v) [
  | inl (n, e) ↦ subst (λ r. IsValid r.0) (sym e) v
  | inr (f, c) ↦ record { table = c.valid; state = inl c.idle }
]

-- What a reset promises of the adapter and answer that it returns.
abbrev pub Resets : Adapter → ℕ → Adapter × Bool → Type 0
Resets a id r =
    IsValid r.0
    × ((IsIdle a × (r.1 ≡ true) × Forgets a.connection id r.0.connection)
        ⊎ (IsBusy a × (a.send_stream_id ≡ id) × IsCompleted a id r)
        ⊎ (IsBusy a × (a.send_stream_id ≢ id) × (r ≡ (a, false))))

busy : {a : Adapter} → IsIdle a ⊎ IsBusy a → a.send_in_flight ≡ true → IsBusy a
busy (inl i) e = absurd (ground (arith, i.landed))
busy (inr b) e = b

idle : {a : Adapter} → IsIdle a ⊎ IsBusy a → a.send_in_flight ≡ false → IsIdle a
idle (inl i) e = i
idle (inr b) e = absurd (ground (arith, b.flight.flying))

-- A reset while nothing is in flight forgets exactly its stream. While a send is in flight, one
-- of its own stream completes the send as dropped, and one of any other stream is refused and
-- changes nothing: that stream keeps its slot.
pub on_stream_reset_lem : (a : Adapter) (id : ℕ) → IsValid a → Resets a id (on_stream_reset a id)
unfolding on_stream_reset
on_stream_reset_lem a id v =
    if_cases (Resets a id) a.send_in_flight
      (λ e.
        if_cases (Resets a id) (not (a.send_stream_id == id))
          (λ n. (v, inr (inr (busy v.state e, ground arith, refl))))
          (λ n.
            let b = busy v.state e in
            let q = same n in
            (on_send_complete-IsValid a id a.send_len true v, inr (inl (b, q, completes b q)))))
      (λ e.
        let d = dispatch_stream_reset_lem a.connection id v.table in
        let i = idle v.state e in
        (
          record {
            table = d.0;
            state = inl (record { landed = i.landed; no_id = i.no_id; no_len = i.no_len });
          },
          inl (i, ground (arith, d.1), d.2),
        ))
  where
    same : not (a.send_stream_id == id) ≡ false → a.send_stream_id ≡ id
    same n = ground arith

    completes :
        IsBusy a → a.send_stream_id ≡ id → IsCompleted a id (on_send_complete a id a.send_len true)
    completes b q = elim (on_send_complete_lem a id a.send_len true v) [
      | inl (n, e) ↦
          absurd (n (record { flying = b.flight.flying; flying_id = q; flying_len = refl }))
      | inr (f, c) ↦ c
    ]
