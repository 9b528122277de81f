-- ===== src/Connections/Bound.antt =====
-- The binding of slots to streams: every slot of a connection is bound to a stream of its API or
-- blank, and no callback breaks that.
use ism.Prelude.{
  ℕ, ◌<◌, ◌≡◌, ◌≢◌, ◌⊎◌, ◌∙◌, subst, sym, inl, inr, refl, Bool, true, false, ◌==◌, arith, if_cases,
  Option, Option-cases, none, some, Bytes, update,
}
use ism.Runtime.{
  runtime_stream_init, bind_msquic_stream, invalid_parameter, Runtime, runtime_send,
  mark_runtime_send,
}
use ism.Runtime.Laws.{Keeps}
use ism.Runtime.Sending.{runtime_send-cases, sent-IsBoundTo, IsBoundTo}
use ism.Connections.{
  ConnectionApi, StreamSlot, ConnectionRuntime, stream_slot_init, slot_sent,
  connection_runtime_send, release_slot, taken_slot, allocate_slot, put_runtime, slot_host,
  released, started, on_connection_event, ConnectionEvent, peer_stream_started,
  connection_shutdown_complete, other_connection_event, connection_callback,
}
use ism.Connections.Slots.{connection_runtime_send-cases, allocate_slot-cases}

-- The slot is in use for a stream, to which its runtime is bound.
pub record IsBound {T : Type 0} (s : StreamSlot T) : Type 0 where
  pub used : s.in_use ≡ true
  pub some_stream : s.stream ≢ 0
  pub api : ConnectionApi T
  pub has_api : s.slot_api ≡ some api
  pub runtime_api : s.runtime.api ≡ some api.of_streams
  pub runtime_stream : s.runtime.stream ≡ s.stream

-- The slot is free, and its runtime is bound to nothing.
pub record IsBlank {T : Type 0} (s : StreamSlot T) : Type 0 where
  pub unused : s.in_use ≡ false
  pub no_stream : s.stream ≡ 0
  pub no_api : s.slot_api ≡ none
  pub runtime_free : s.runtime.api ≡ none
  pub runtime_idle : s.runtime.stream ≡ 0

abbrev pub IsSound : {T : Type 0} → StreamSlot T → Type 0
IsSound s = IsBound s ⊎ IsBlank s

-- Every slot that the count covers is sound.
abbrev pub AllSound : {T : Type 0} → ConnectionRuntime T → Type 0
AllSound c = (i : ℕ) → i < c.stream_slot_count → IsSound (c.stream_slots i)

-- A new slot is sound, and so are the others, in the table that holds it.
update-IsSound :
    {T : Type 0} (c : ConnectionRuntime T) (i : ℕ) (s : StreamSlot T)
    → AllSound c
    → IsSound s
    → AllSound (record c { stream_slots = update c.stream_slots i s })
update-IsSound c i s h b j l = if_cases IsSound (j == i) (λ e. b) (λ e. h j l)

-- A runtime that is bound alike keeps its slot sound.
with_runtime-IsSound :
    {T : Type 0} (s : StreamSlot T) (r : Runtime T)
    → r.api ≡ s.runtime.api
    → r.stream ≡ s.runtime.stream
    → IsSound s
    → IsSound (record s { runtime = r })
with_runtime-IsSound s r a b (inl v) = inl (record {
  used = v.used;
  some_stream = v.some_stream;
  api = v.api;
  has_api = v.has_api;
  runtime_api = a ∙ v.runtime_api;
  runtime_stream = b ∙ v.runtime_stream;
})
with_runtime-IsSound s r a b (inr v) = inr (record {
  unused = v.unused;
  no_stream = v.no_stream;
  no_api = v.no_api;
  runtime_free = a ∙ v.runtime_free;
  runtime_idle = b ∙ v.runtime_idle;
})

put_runtime-IsSound :
    {T : Type 0} (c : ConnectionRuntime T) (i : ℕ) (r : Runtime T)
    → r.api ≡ (c.stream_slots i).runtime.api
    → r.stream ≡ (c.stream_slots i).runtime.stream
    → AllSound c
    → AllSound (put_runtime c i r)
put_runtime-IsSound c i r a b h j l =
    if_cases IsSound (j == i)
      (λ e.
        with_runtime-IsSound (c.stream_slots i) r a b
          (subst (λ k. IsSound (c.stream_slots k)) (same e) (h j l)))
      (λ e. h j l)
  where
    same : (j == i) ≡ true → j ≡ i
    same e = ground (arith, e)

-- A send keeps the runtime of its slot bound.
slot_sent-IsSound :
    {T : Type 0} (c : ConnectionRuntime T) (i : ℕ) (x : (Runtime T × T) × Bool)
    → IsBoundTo (c.stream_slots i).runtime.api (c.stream_slots i).runtime.stream x.0
    → AllSound c
    → AllSound (slot_sent c i x).0.0
slot_sent-IsSound c i ((r, t), ok) b h = put_runtime-IsSound c i r b.0 b.1 h

runtime_send-IsBoundTo :
    {T : Type 0} (r : Runtime T) (t : T) (id : ℕ) (bytes : Bytes) (len : ℕ) (fin : Bool)
    → IsBoundTo r.api r.stream (runtime_send (r, t) id bytes len fin).0
runtime_send-IsBoundTo r t id bytes len fin = elim (runtime_send-cases r t id bytes len fin) [
  | inl e ↦ subst (λ x. IsBoundTo r.api r.stream x.0) (sym e) (refl, refl)
  | inr (f, a, b, c, d, e, g) ↦
      subst (λ x. IsBoundTo r.api r.stream x.0) (sym e)
        (sent-IsBoundTo (mark_runtime_send r bytes len) (f t r.stream bytes len fin))
]

connection_runtime_send-IsSound :
    {T : Type 0} (s : ConnectionRuntime T × T) (id : ℕ) (bytes : Bytes) (len : ℕ) (fin : Bool)
    → AllSound s.0
    → AllSound (connection_runtime_send s id bytes len fin).0.0
connection_runtime_send-IsSound (c, t) id bytes len fin h =
    elim (connection_runtime_send-cases c t id bytes len fin) [
      | inl (e, n) ↦ subst (λ x. AllSound x.0.0) (sym e) h
      | inr (i, h', f, e) ↦
          subst (λ x. AllSound x.0.0) (sym e)
            (slot_sent-IsSound c i (runtime_send ((c.stream_slots i).runtime, t) id bytes len fin)
              (runtime_send-IsBoundTo (c.stream_slots i).runtime t id bytes len fin) h)
    ]

-- Neither a send by the connection nor a change of a runtime that leaves it bound as it is breaks
-- the soundness of the slots.
pub slot_host-Keeps : {T : Type 0} (i : ℕ) → Keeps {T = T} (slot_host i) (λ s. AllSound s.0)
slot_host-Keeps i = record {
  send_keeps = connection_runtime_send-IsSound;
  set_keeps = λ s r a b h. put_runtime-IsSound s.0 i r a b h;
  msquic_keeps = λ s f h. h;
}

-- A slot that has been released is blank.
pub released-IsSound :
    {T : Type 0} (s : ConnectionRuntime T × T) (i : ℕ) → AllSound s.0 → AllSound (released s i).0
unfolding release_slot
released-IsSound (c, t) i h = update-IsSound c i _ h (
    inr (record {
      unused = refl;
      no_stream = refl;
      no_api = refl;
      runtime_free = unfold runtime_stream_init in refl;
      runtime_idle = unfold runtime_stream_init in refl;
    }))

taken_slot-IsSound :
    {T : Type 0} (c : ConnectionRuntime T) (api : ConnectionApi T) (stream id i : ℕ)
    → stream ≢ 0
    → AllSound c
    → AllSound (taken_slot c api stream id i)
taken_slot-IsSound c api stream id i n h = update-IsSound c i _ h (
    inl (record {
      used = refl;
      some_stream = n;
      api = api;
      has_api = refl;
      runtime_api = unfold bind_msquic_stream in refl;
      runtime_stream = unfold bind_msquic_stream in refl;
    }))

started-IsSound :
    {T : Type 0} (api : ConnectionApi T) (t : T) (connection stream : ℕ)
    (r : ConnectionRuntime T × Option ℕ)
    → AllSound r.0
    → AllSound (started api t connection stream r).0.0
started-IsSound api t connection stream (c, none) h = h
started-IsSound api t connection stream (c, some i) h = put_runtime-IsSound c i _ refl refl h

allocate_slot-IsSound :
    {T : Type 0} (c : ConnectionRuntime T) (t : T) (stream : ℕ)
    → AllSound c
    → AllSound (allocate_slot c t stream).0
allocate_slot-IsSound c t stream h = elim (allocate_slot-cases c t stream) [
  | inl (n, e) ↦ subst (λ r. AllSound r.0) (sym e) h
  | inr (i, a) ↦
      subst (λ r. AllSound r.0) (sym a.taken)
        (taken_slot-IsSound c a.api stream a.id i a.some_stream h)
]

on_connection_event-IsSound :
    {T : Type 0} (api : ConnectionApi T) (s : ConnectionRuntime T × T) (connection : ℕ)
    (event : ConnectionEvent)
    → AllSound s.0
    → AllSound (on_connection_event api s connection event).0.0
on_connection_event-IsSound api (c, t) connection (peer_stream_started stream) h =
    started-IsSound api t connection stream (allocate_slot c t stream)
      (allocate_slot-IsSound c t stream h)
on_connection_event-IsSound api (c, t) connection connection_shutdown_complete h = h
on_connection_event-IsSound api (c, t) connection other_connection_event h = h

-- Whatever happens to a connection, its slots stay sound.
pub connection_callback-IsSound :
    {T : Type 0} (s : ConnectionRuntime T × T) (connection : ℕ) (event : ConnectionEvent)
    → AllSound s.0
    → AllSound (connection_callback s connection event).0.0
unfolding connection_callback
connection_callback-IsSound {T} s connection event h = elim (Option-cases s.0.connection_api) [
  | inl e ↦ subst (λ r. AllSound r.0.0) (sym (unbound e)) h
  | inr (api, e) ↦
      subst (λ r. AllSound r.0.0) (sym (bound e))
        (on_connection_event-IsSound api s connection event h)
]
  where
    unbound :
        s.0.connection_api ≡ none → connection_callback s connection event ≡ (s, invalid_parameter)
    unbound e = simp (e, connection_callback)

    bound :
        {api : ConnectionApi T}
        → s.0.connection_api ≡ some api
        → connection_callback s connection event ≡ on_connection_event api s connection event
    bound e = simp (e, connection_callback)

pub stream_slot_init-IsSound :
    {T : Type 0} (buffer : Option ℕ) (capacity : ℕ)
    → IsSound {T = T} (stream_slot_init buffer capacity)
unfolding stream_slot_init runtime_stream_init
stream_slot_init-IsSound buffer capacity = inr (record {
  unused = refl;
  no_stream = refl;
  no_api = refl;
  runtime_free = refl;
  runtime_idle = refl;
})
