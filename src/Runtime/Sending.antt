-- ===== src/Runtime/Sending.antt =====
-- `ism_msquic_runtime_send` of shell/msquic_runtime.c.
use ism.Prelude.{
  ℕ, ◌≡◌, ◌≢◌, ◌⊎◌, ◌∙◌, inl, inr, subst, sym, refl, Bool, true, false, arith, not, ◌||◌, ◌==◌,
  Option, none, some, Option-cases, Bool-cases, Bytes,
}
use ism.Runtime.{Api, Runtime, runtime_send, stream_send_of, sent, mark_runtime_send, single_host}
use ism.Runtime.Laws.{Keeps}

-- Whether MsQuic takes the bytes is whether a send is in flight.
sent-in_flight :
    {T : Type 0} (r : Runtime T) (bytes : Bytes) (len : ℕ) (x : T × Bool)
    → (sent (mark_runtime_send r bytes len) x).1
      ≡ (sent (mark_runtime_send r bytes len) x).0.0.send_in_flight
sent-in_flight r bytes len (t, true) = refl
sent-in_flight r bytes len (t, false) = refl

-- A send is refused without effect, or is a call of `StreamSend`.
pub runtime_send-cases :
    {T : Type 0} (r : Runtime T) (t : T) (id : ℕ) (bytes : Bytes) (len : ℕ) (fin : Bool)
    → let x = runtime_send (r, t) id bytes len fin in
      (x ≡ ((r, t), false))
      ⊎ ((stream_send : T → ℕ → Bytes → ℕ → Bool → T × Bool) × (stream_send_of r.api
            ≡ some stream_send)
          × (r.stream_id ≡ id)
          × (len ≢ 0)
          × (r.send_in_flight ≡ false)
          × (x ≡ sent (mark_runtime_send r bytes len) (stream_send t r.stream bytes len fin))
          × (x.1 ≡ x.0.0.send_in_flight))
unfolding runtime_send
runtime_send-cases r t id bytes len fin = elim (Option-cases (stream_send_of r.api)) [
  | inl e ↦ inl (rw (e, runtime_send) refl)
  | inr (f, e) ↦ elim (Bool-cases refused) [
    | inl q ↦ inl (rw (e, q, runtime_send) refl)
    | inr q ↦ inr (
      f,
      e,
      ground (arith, q),
      ground (arith, q),
      ground (arith, q),
      rw (e, q, runtime_send) refl,
      rw (e, q, runtime_send) (sent-in_flight r bytes len (f t r.stream bytes len fin)),
    )
  ]
]
  where
    refused : Bool
    refused = r.stream == 0 || (not (r.stream_id == id) || (len == 0 || r.send_in_flight))

-- Nothing can be sent: there is no `StreamSend` or no stream, the ID is another stream's, there are
-- no bytes, or a send is in flight.
abbrev pub IsUnsendable : {T : Type 0} → Runtime T → ℕ → ℕ → Type 0
IsUnsendable r id len =
    (stream_send_of r.api ≡ none)
    ⊎ (r.stream ≡ 0)
    ⊎ (r.stream_id ≢ id)
    ⊎ (len ≡ 0)
    ⊎ (r.send_in_flight ≡ true)

-- What becomes of the bytes after the answer `y` of `StreamSend`. If MsQuic took them, the send is
-- in flight with its buffer and both lengths, no reset is pending, and every other send is refused
-- as long as that is so; if not, the runtime holds no send.
abbrev pub Settles :
    {T : Type 0} → Runtime T → Bytes → ℕ → T × Bool → (Runtime T × T) × Bool → Type 0
Settles r bytes len y x =
    ((y.1 ≡ true)
      × (x ≡ (
        (
          record r {
            send_buffer = some bytes;
            send_length = len;
            response_len = len;
            send_in_flight = true;
            reset_pending = false;
          },
          y.0,
        ),
        true,
      ))
      × ((id : ℕ) (b : Bytes) (n : ℕ) (f : Bool) → runtime_send x.0 id b n f ≡ (x.0, false)))
    ⊎ ((y.1 ≡ false)
        × (x ≡ (
          (
            record r {
              send_buffer = none;
              send_length = 0;
              response_len = 0;
              send_in_flight = false;
              reset_pending = false;
            },
            y.0,
          ),
          false,
        )))

-- The bytes went to `StreamSend` for the runtime's stream.
pub record IsSubmitted {T : Type 0} (r : Runtime T) (t : T) (id : ℕ) (bytes : Bytes) (len : ℕ)
    (fin : Bool) (x : (Runtime T × T) × Bool) : Type 0 where
  pub stream_send : T → ℕ → Bytes → ℕ → Bool → T × Bool
  pub has_send : stream_send_of r.api ≡ some stream_send
  pub some_stream : r.stream ≢ 0
  pub has_id : r.stream_id ≡ id
  pub some_bytes : len ≢ 0
  pub landed : r.send_in_flight ≡ false
  pub outcome : Settles r bytes len (stream_send t r.stream bytes len fin) x

-- A second send waits for the first.
busy_runtime :
    {T : Type 0} (r : Runtime T) (t : T) (id : ℕ) (bytes : Bytes) (len : ℕ) (fin : Bool)
    → r.send_in_flight ≡ true
    → runtime_send (r, t) id bytes len fin ≡ ((r, t), false)
busy_runtime r t id bytes len fin b = elim (runtime_send-cases r t id bytes len fin) [
  | inl e ↦ e
  | inr (f, e, i, n, l, x, y) ↦ absurd cc
]

settled-Settles :
    {T : Type 0} (r : Runtime T) (bytes : Bytes) (len : ℕ) (y : T × Bool)
    (x : (Runtime T × T) × Bool)
    → x ≡ sent (mark_runtime_send r bytes len) y
    → Settles r bytes len y x
settled-Settles r bytes len (t, true) x e = inl (
  refl,
  e,
  λ id b n f.
      subst (λ x. runtime_send x.0 id b n f ≡ (x.0, false)) (sym e)
        (busy_runtime (mark_runtime_send r bytes len) t id b n f refl),
)
settled-Settles r bytes len (t, false) x e = inr (refl, e)

-- A send is refused without effect if nothing can be sent. Otherwise it goes to the `StreamSend` of
-- the bound API for the stream of the runtime. If MsQuic takes the bytes, the runtime is as before
-- but for the send, which is in flight with its buffer and lengths and no reset pending, and every
-- further send is refused without effect; if not, the runtime is as before but holds no send.
pub runtime_send_lem :
    {T : Type 0} (r : Runtime T) (t : T) (id : ℕ) (bytes : Bytes) (len : ℕ) (fin : Bool)
    → let x = runtime_send (r, t) id bytes len fin in
      (IsUnsendable r id len × (x ≡ ((r, t), false))) ⊎ IsSubmitted r t id bytes len fin x
unfolding runtime_send
runtime_send_lem {T = T} r t id bytes len fin = elim (Option-cases (stream_send_of r.api)) [
  | inl e ↦ inl (inl e, rw (e, runtime_send) refl)
  | inr (f, e) ↦ elim (Bool-cases refused) [
    | inl q ↦ inl (inr (reason q), rw (e, q, runtime_send) refl)
    | inr q ↦ inr (submitted f e q)
  ]
]
  where
    refused : Bool
    refused = r.stream == 0 || (not (r.stream_id == id) || (len == 0 || r.send_in_flight))

    reason :
        refused ≡ true → (r.stream ≡ 0) ⊎ (r.stream_id ≢ id) ⊎ (len ≡ 0) ⊎ (r.send_in_flight ≡ true)
    reason q = ground (arith, q)

    submitted :
        (f : T → ℕ → Bytes → ℕ → Bool → T × Bool)
        → stream_send_of r.api ≡ some f
        → refused ≡ false
        → IsSubmitted r t id bytes len fin (runtime_send (r, t) id bytes len fin)
    submitted f e q = record {
      stream_send = f;
      has_send = e;
      some_stream = ground (arith, q);
      has_id = ground (arith, q);
      some_bytes = ground (arith, q);
      landed = ground (arith, q);
      outcome =
          settled-Settles r bytes len (f t r.stream bytes len fin) _ (rw (e, q, runtime_send) refl);
    }

-- The runtime is bound to this stream of this API.
abbrev pub IsBoundTo : {T : Type 0} → Option (Api T) → ℕ → Runtime T × T → Type 0
IsBoundTo api stream (r, t) = (r.api ≡ api) × (r.stream ≡ stream)

pub sent-IsBoundTo :
    {T : Type 0} (r : Runtime T) (x : T × Bool) → IsBoundTo r.api r.stream (sent r x).0
sent-IsBoundTo r (t, true) = (refl, refl)
sent-IsBoundTo r (t, false) = (refl, refl)

-- A stream that stands alone stays bound to its stream, whatever is sent on it.
pub single_host-Keeps :
    {T : Type 0} (api : Option (Api T)) (stream : ℕ)
    → Keeps {T = T} single_host (IsBoundTo api stream)
single_host-Keeps api stream = record {
  send_keeps = λ s id bytes len fin h. elim (runtime_send-cases s.0 s.1 id bytes len fin) [
    | inl e ↦ subst (λ x. IsBoundTo api stream x.0) (sym e) h
    | inr (f, a, b, c, d, e, g) ↦
        let m = sent-IsBoundTo (mark_runtime_send s.0 bytes len) (f s.1 s.0.stream bytes len fin) in
        subst (λ x. IsBoundTo api stream x.0) (sym e) (m.0 ∙ h.0, m.1 ∙ h.1)
  ];
  set_keeps = λ s r a b h. (a ∙ h.0, b ∙ h.1);
  msquic_keeps = λ s f h. h;
}

-- A bound runtime with nothing in flight hands the bytes for its stream to `StreamSend`.
pub runtime_send-sent :
    {T : Type 0} (r : Runtime T) (t : T) (bytes : Bytes) (len : ℕ) (fin : Bool)
    (stream_send : T → ℕ → Bytes → ℕ → Bool → T × Bool)
    → stream_send_of r.api ≡ some stream_send
    → r.stream ≢ 0
    → r.send_in_flight ≡ false
    → len ≢ 0
    → runtime_send (r, t) r.stream_id bytes len fin
      ≡ sent (mark_runtime_send r bytes len) (stream_send t r.stream bytes len fin)
unfolding runtime_send
runtime_send-sent r t bytes len fin stream_send e s l n = rw (e, passes, runtime_send) refl
  where
    passes :
        (r.stream == 0 || (not (r.stream_id == r.stream_id) || (len == 0 || r.send_in_flight)))
        ≡ false
    passes = ground (arith, s, l, n)
