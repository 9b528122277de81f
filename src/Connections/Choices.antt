-- ===== src/Connections/Choices.antt =====
-- Which slot of shell/msquic_connection_runtime.c a send and a new stream get, with all that changes.
use ism.Prelude.{
  ℕ, ◌<◌, ◌≡◌, ◌≢◌, ◌⊎◌, inl, inr, ap, sym, subst, refl, Bool, true, false, arith, Option,
  Option-cases, none, some, Bytes, IsFirst,
}
use ism.Runtime.{Runtime, runtime_send, runtime_stream_init, bind_msquic_stream}
use ism.Connections.{
  ConnectionApi, ConnectionRuntime, StreamSlot, serves, is_free, is_some, slot_sent,
  connection_runtime_send, taken_slot, allocate_slot,
}
use ism.Connections.Slots.{connection_runtime_send-cases, allocate_slot-cases}
use ism.Connections.Places.{update-at}

-- The slot is in use for the stream.
abbrev pub Serves : {T : Type 0} → ℕ → StreamSlot T → Type 0
Serves id s = (s.in_use ≡ true) × (s.runtime.stream_id ≡ id)

-- The slot is not in use and has an ingress buffer with some room.
abbrev pub IsFree : {T : Type 0} → StreamSlot T → Type 0
IsFree s = (s.in_use ≡ false) × ((p : ℕ) × (s.ingress_buffer ≡ some p)) × (0 < s.ingress_capacity)

-- The first slot that satisfies the predicate.
pub record IsChosen {T : Type 0} (P : StreamSlot T → Type 0) (c : ConnectionRuntime T) (i : ℕ)
    : Type 0 where
  pub below : i < c.stream_slot_count
  pub passes : P (c.stream_slots i)
  pub before : (j : ℕ) → j < i → ¬ P (c.stream_slots j)

-- The two connections differ in slot `i` at most.
pub record OnlySlot {T : Type 0} (c : ConnectionRuntime T) (i : ℕ) (d : ConnectionRuntime T)
    : Type 0 where
  pub same : d ≡ record c { stream_slots = d.stream_slots }
  pub others : (j : ℕ) → j ≢ i → d.stream_slots j ≡ c.stream_slots j

-- A test that decides the predicate finds the first slot.
first-IsChosen :
    {T : Type 0} (P : StreamSlot T → Type 0) (c : ConnectionRuntime T) (test : ℕ → Bool) (i : ℕ)
    → ((j : ℕ) → test j ≡ true → P (c.stream_slots j))
    → ((j : ℕ) → test j ≡ false → ¬ P (c.stream_slots j))
    → IsFirst test c.stream_slot_count 0 i
    → IsChosen P c i
first-IsChosen P c test i found missed f = record {
  below = omega (arith, f.below);
  passes = found i f.passes;
  before = λ j l. missed j (f.before j (omega arith) l);
}

module _ {T : Type 0} (c : ConnectionRuntime T) (id : ℕ) where
  serves-Serves : (j : ℕ) → serves c.stream_slots id j ≡ true → Serves id (c.stream_slots j)
  serves-Serves j e = (ground (arith, e), ground (arith, e))

  serves-not : (j : ℕ) → serves c.stream_slots id j ≡ false → ¬ Serves id (c.stream_slots j)
  serves-not j e (u, i) = ground (arith, e, u, i)

is_free-IsFree :
    {T : Type 0} (c : ConnectionRuntime T) (j : ℕ)
    → is_free c.stream_slots j ≡ true
    → IsFree (c.stream_slots j)
is_free-IsFree c j e = (ground (arith, e), buffer (Option-cases b), ground (arith, e))
  where
    b : Option ℕ
    b = (c.stream_slots j).ingress_buffer

    buffer : (b ≡ none) ⊎ ((p : ℕ) × (b ≡ some p)) → (p : ℕ) × (b ≡ some p)
    buffer (inl n) = absurd (ground (arith, e, ap is_some n))
    buffer (inr q) = q

is_free-not :
    {T : Type 0} (c : ConnectionRuntime T) (j : ℕ)
    → is_free c.stream_slots j ≡ false
    → ¬ IsFree (c.stream_slots j)
is_free-not c j e (u, (p, b), l) = ground (arith, e, u, ap is_some b, l)

-- What a send leaves that is one of slot `i`'s runtime with the result `x`: that runtime, the
-- transport and the answer are those of `x`, and no other slot and no other field has changed.
pub record IsSentOn {T : Type 0} (c : ConnectionRuntime T) (i : ℕ) (x : (Runtime T × T) × Bool)
    (r : (ConnectionRuntime T × T) × Bool) : Type 0 where
  pub answer : r.1 ≡ x.1
  pub transport : r.0.1 ≡ x.0.1
  pub in_slot : r.0.0.stream_slots i ≡ record (c.stream_slots i) { runtime = x.0.0 }
  pub only : OnlySlot c i r.0.0

slot_sent-IsSentOn :
    {T : Type 0} (c : ConnectionRuntime T) (i : ℕ) (x : (Runtime T × T) × Bool)
    → IsSentOn c i x (slot_sent c i x)
slot_sent-IsSentOn c i ((q, t), ok) = record {
  answer = refl;
  transport = refl;
  in_slot = update-at c.stream_slots i (record (c.stream_slots i) { runtime = q });
  only = record { same = refl; others = λ j n. ground (arith, n) };
}

-- A send by the connection is one of the runtime in the first slot that is in use for the stream's
-- ID, and of no other; that runtime is all that it changes. Without slots, or without such a slot,
-- it is refused and changes nothing.
pub connection_runtime_send_lem :
    {T : Type 0} (c : ConnectionRuntime T) (t : T) (id : ℕ) (bytes : Bytes) (len : ℕ) (fin : Bool)
    → let r = connection_runtime_send (c, t) id bytes len fin in
      (((c.has_slots ≡ false)
          ⊎ ((i : ℕ) → i < c.stream_slot_count → ¬ Serves id (c.stream_slots i)))
        × (r ≡ ((c, t), false)))
      ⊎ ((i : ℕ) × (c.has_slots ≡ true)
          × IsChosen (Serves id) c i
          × IsSentOn c i (runtime_send ((c.stream_slots i).runtime, t) id bytes len fin) r)
connection_runtime_send_lem c t id bytes len fin =
    elim (connection_runtime_send-cases c t id bytes len fin) [
      | inl (e, inl h) ↦ inl (inl h, e)
      | inl (e, inr n) ↦ inl (inr (λ i l. serves-not c id i (n i l)), e)
      | inr (i, h, f, e) ↦ inr (
        i,
        h,
        first-IsChosen (Serves id) c (serves c.stream_slots id) i (serves-Serves c id)
            (serves-not c id) f,
        subst (IsSentOn c i (runtime_send ((c.stream_slots i).runtime, t) id bytes len fin)) (sym e)
            (slot_sent-IsSentOn c i
              (runtime_send ((c.stream_slots i).runtime, t) id bytes len fin)),
      )
    ]

-- The slot belongs to the stream, with a fresh runtime over the ingress buffer that it had.
pub record IsBoundSlot {T : Type 0} (c : ConnectionRuntime T) (api : ConnectionApi T)
    (stream id : ℕ) (old s : StreamSlot T) : Type 0 where
  pub used : s.in_use ≡ true
  pub slot_api : s.slot_api ≡ some api
  pub slot_stream : s.stream ≡ stream
  pub buffer : s.ingress_buffer ≡ old.ingress_buffer
  pub capacity : s.ingress_capacity ≡ old.ingress_capacity
  pub fresh : s.runtime ≡ record {
    has_adapter = c.has_adapter;
    has_queue = c.has_queue;
    stream_id = id;
    ingress_buffer = old.ingress_buffer;
    ingress_capacity = old.ingress_capacity;
    received_fin = false;
    api = some api.of_streams;
    stream = stream;
    connection = 0;
    send_buffer = none;
    send_length = 0;
    response_len = 0;
    send_in_flight = false;
    reset_pending = false;
  }

-- The allocation took the first free slot for the stream, whose ID MsQuic told.
pub record Takes {T : Type 0} (c : ConnectionRuntime T) (t : T) (stream : ℕ)
    (r : ConnectionRuntime T × Option ℕ) : Type 0 where
  pub api : ConnectionApi T
  pub bound_api : c.connection_api ≡ some api
  pub id : ℕ
  pub told : api.get_stream_id t stream ≡ some (id, 8)
  pub some_stream : stream ≢ 0
  pub index : ℕ
  pub chosen : IsChosen IsFree c index
  pub answer : r.1 ≡ some index
  pub in_slot : IsBoundSlot c api stream id (c.stream_slots index) (r.0.stream_slots index)
  pub only : OnlySlot c index r.0

-- There is no API or no stream, MsQuic does not tell the ID in eight bytes, or no slot is free.
abbrev pub IsUnplaceable : {T : Type 0} → ConnectionRuntime T → T → ℕ → Type 0
IsUnplaceable {T} c t stream =
    (c.connection_api ≡ none)
    ⊎ (stream ≡ 0)
    ⊎ ((api : ConnectionApi T) × (c.connection_api ≡ some api)
        × ((id : ℕ) → api.get_stream_id t stream ≢ some (id, 8)))
    ⊎ ((i : ℕ) → i < c.stream_slot_count → ¬ IsFree (c.stream_slots i))

taken_slot-IsBoundSlot :
    {T : Type 0} (c : ConnectionRuntime T) (api : ConnectionApi T) (stream id i : ℕ)
    → IsBoundSlot c api stream id (c.stream_slots i) ((taken_slot c api stream id i).stream_slots i)
unfolding runtime_stream_init bind_msquic_stream
taken_slot-IsBoundSlot c api stream id i =
    subst (IsBoundSlot c api stream id (c.stream_slots i)) (sym (update-at c.stream_slots i _))
      (record {
        used = refl;
        slot_api = refl;
        slot_stream = refl;
        buffer = refl;
        capacity = refl;
        fresh = refl;
      })

-- A new stream gets the first slot that is not in use and has an ingress buffer, which is then
-- bound to it and its ID with a fresh runtime, and is all that changes. The allocation fails,
-- without effect, only without an API or a stream, without an ID of eight bytes, or without such a
-- slot.
pub allocate_slot_lem :
    {T : Type 0} (c : ConnectionRuntime T) (t : T) (stream : ℕ)
    → let r = allocate_slot c t stream in
      (IsUnplaceable c t stream × (r ≡ (c, none))) ⊎ Takes c t stream r
allocate_slot_lem {T} c t stream = elim (allocate_slot-cases c t stream) [
  | inl (inl e, q) ↦ inl (inl e, q)
  | inl (inr (inl e), q) ↦ inl (inr (inl e), q)
  | inl (inr (inr (api, e, inl h)), q) ↦ inl (inr (inr (inl (api, e, h))), q)
  | inl (inr (inr (api, e, inr h)), q) ↦ inl (inr (inr (inr (λ i l. is_free-not c i (h i l)))), q)
  | inr (i, a) ↦ inr (record {
    api = a.api;
    bound_api = a.bound_api;
    id = a.id;
    told = a.known;
    some_stream = a.some_stream;
    index = i;
    chosen =
        first-IsChosen IsFree c (is_free c.stream_slots) i (is_free-IsFree c) (is_free-not c)
          a.first_free;
    answer = ap (λ r. r.1) a.taken;
    in_slot =
        subst
          (λ (r : ConnectionRuntime T × Option ℕ).
            IsBoundSlot c a.api stream a.id (c.stream_slots i) (r.0.stream_slots i))
          (sym a.taken) (taken_slot-IsBoundSlot c a.api stream a.id i);
    only =
        subst (λ (r : ConnectionRuntime T × Option ℕ). OnlySlot c i r.0) (sym a.taken)
          (record { same = refl; others = λ j n. ground (arith, n) });
  })
]
