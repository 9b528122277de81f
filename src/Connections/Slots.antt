-- ===== src/Connections/Slots.antt =====
-- The scans over the slots of shell/msquic_connection_runtime.c: which slot a send goes to, and
-- which one a new stream gets.
use ism.Prelude.{
  ℕ, ◌<◌, ◌≡◌, ◌≢◌, ◌⊎◌, ◌∙◌, inl, inr, refl, Bool, true, false, not, ◌==◌, arith, Option,
  Option-cases, none, some, Bool-cases, Bytes, first_from-cases, IsFirst,
}
use ism.Runtime.{runtime_send}
use ism.Connections.{
  ConnectionApi, ConnectionRuntime, serves, is_free, slot_sent, connection_runtime_send, taken_slot,
  allocate_with, allocate_slot,
}

-- A send by the connection goes to the first slot in use that has the stream's ID, as a send of
-- that slot's runtime, which is all that it changes; without such a slot it is refused and changes
-- nothing.
pub connection_runtime_send-cases :
    {T : Type 0} (c : ConnectionRuntime T) (t : T) (id : ℕ) (bytes : Bytes) (len : ℕ) (fin : Bool)
    → let r = connection_runtime_send (c, t) id bytes len fin in
      ((r ≡ ((c, t), false))
        × ((c.has_slots ≡ false)
            ⊎ ((i : ℕ) → i < c.stream_slot_count → serves c.stream_slots id i ≡ false)))
      ⊎ ((i : ℕ) × (c.has_slots ≡ true)
          × IsFirst (serves c.stream_slots id) c.stream_slot_count 0 i
          × (r ≡ slot_sent c i (runtime_send ((c.stream_slots i).runtime, t) id bytes len fin)))
unfolding connection_runtime_send
connection_runtime_send-cases c t id bytes len fin = elim (Bool-cases c.has_slots) [
  | inr h ↦ inl (simp h, inl h)
  | inl h ↦ elim (first_from-cases (serves c.stream_slots id) c.stream_slot_count 0) [
    | inl (e, n) ↦ inl (simp (h, e), inr (λ i l. n i (omega arith) (omega arith)))
    | inr (i, e, f) ↦ inr (i, h, f, simp (h, e))
  ]
]

-- What an allocation for a stream gives: the first free slot, bound to the stream and its ID, or
-- nothing.
pub record IsAllocated {T : Type 0} (c : ConnectionRuntime T) (t : T) (stream i : ℕ)
    (r : ConnectionRuntime T × Option ℕ) : Type 0 where
  pub api : ConnectionApi T
  pub bound_api : c.connection_api ≡ some api
  pub id : ℕ
  pub known : api.get_stream_id t stream ≡ some (id, 8)
  pub some_stream : stream ≢ 0
  pub first_free : IsFirst (is_free c.stream_slots) c.stream_slot_count 0 i
  pub taken : r ≡ (taken_slot c api stream id i, some i)

-- Why an API that is there gives no slot: MsQuic does not tell the ID, or no slot is free.
abbrev pub IsHopeless : {T : Type 0} → ConnectionRuntime T → Option (ℕ × ℕ) → Type 0
IsHopeless c o =
    ((id : ℕ) → o ≢ some (id, 8))
    ⊎ ((i : ℕ) → i < c.stream_slot_count → is_free c.stream_slots i ≡ false)

-- The allocation with an API that is there.
allocate_with-cases :
    {T : Type 0} (c : ConnectionRuntime T) (api : ConnectionApi T) (stream : ℕ) (o : Option (ℕ × ℕ))
    → (IsHopeless c o × (allocate_with c api stream o ≡ (c, none)))
      ⊎ ((i id : ℕ) × (o ≡ some (id, 8))
          × IsFirst (is_free c.stream_slots) c.stream_slot_count 0 i
          × (allocate_with c api stream o ≡ (taken_slot c api stream id i, some i)))
allocate_with-cases c api stream none = inl (inl (λ id e. cc), refl)
allocate_with-cases c api stream (some (id, size)) = elim (Bool-cases (not (size == 8))) [
  | inl h ↦ inl (inl (λ id' e. ground (arith, h, e)), rw h refl)
  | inr h ↦ elim (first_from-cases (is_free c.stream_slots) c.stream_slot_count 0) [
    | inl (e, n) ↦ inl (inr (λ i l. n i (omega arith) (omega arith)), rw (h, e) refl)
    | inr (i, e, f) ↦ inr (i, id, ground (arith, h), f, rw (h, e) refl)
  ]
]

-- A new stream whose ID MsQuic tells gets the first free slot that has an ingress buffer; otherwise
-- the allocation fails and changes nothing.
pub allocate_slot-cases :
    {T : Type 0} (c : ConnectionRuntime T) (t : T) (stream : ℕ)
    → (((c.connection_api ≡ none)
          ⊎ (stream ≡ 0)
          ⊎ ((api : ConnectionApi T) × (c.connection_api ≡ some api)
              × IsHopeless c (api.get_stream_id t stream)))
        × (allocate_slot c t stream ≡ (c, none)))
      ⊎ ((i : ℕ) × IsAllocated c t stream i (allocate_slot c t stream))
unfolding allocate_slot
allocate_slot-cases c t stream = elim (Option-cases c.connection_api) [
  | inl e ↦ inl (inl e, simp (e, allocate_slot))
  | inr (api, e) ↦ elim (Bool-cases (stream == 0)) [
    | inl z ↦ inl (inr (inl (ground (arith, z))), simp (e, z, allocate_slot))
    | inr z ↦ elim (allocate_with-cases c api stream (api.get_stream_id t stream)) [
      | inl (h, q) ↦ inl (inr (inr (api, e, h)), (simp (e, z, allocate_slot)) ∙ q)
      | inr (i, id, k, f, q) ↦ inr (
        i,
        record {
          api = api;
          bound_api = e;
          id = id;
          known = k;
          some_stream = ground (arith, z);
          first_free = f;
          taken = (simp (e, z, allocate_slot)) ∙ q;
        },
      )
    ]
  ]
]
