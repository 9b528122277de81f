-- ===== src/Connections/Opening.antt =====
-- A stream that the peer starts on a connection at rest, in shell/msquic_connection_runtime.c.
use ism.Prelude.{
  ℕ, ◌<◌, ◌≡◌, ◌≢◌, ◌∙◌, sym, ap, subst, refl, arith, inl, inr, Bool, true, false, ◌&&◌, ◌==◌,
  if◌then◌else◌, if_cases, none, some, Bytes, Option, update, first_from, first_from-cases,
}
use ism.Runtime.{
  runtime_stream_init, bind_msquic_stream, Status, success, invalid_parameter, stream_send_of,
}
use ism.Runtime.Requests.{IsOpen}
use ism.Connections.{
  ConnectionApi, ConnectionRuntime, StreamSlot, is_free, taken_slot, allocate_with, allocate_slot,
  put_runtime, slot_handler, peer_stream_started, started, on_connection_event, connection_callback,
  released, release_slot,
}
use ism.Connections.Requests.{CanSend}
use ism.Connections.Places.{update-at, update-update}

module _ {T : Type 0} (api : ConnectionApi T) (capacity : ℕ) where
  -- No stream is on the connection, and each of its slots has an ingress buffer.
  pub record IsVacant (c : ConnectionRuntime T) : Type 0 where
    pub api_there : c.connection_api ≡ some api
    pub adapter_there : c.has_adapter ≡ true
    pub queue_there : c.has_queue ≡ true
    pub slots_there : c.has_slots ≡ true
    pub some_slots : 0 < c.stream_slot_count
    pub unused : (j : ℕ) → j < c.stream_slot_count → (c.stream_slots j).in_use ≡ false
    pub buffers :
        (j : ℕ) → j < c.stream_slot_count → (p : ℕ) × ((c.stream_slots j).ingress_buffer ≡ some p)
    pub roomy : (j : ℕ) → j < c.stream_slot_count → (c.stream_slots j).ingress_capacity ≡ capacity

  module _ (c : ConnectionRuntime T) (t : T) (stream id connection i : ℕ) where
    -- The slot that the stream gets.
    abbrev pub opened_slot : StreamSlot T
    opened_slot =
        let s = c.stream_slots i in
        record s {
          runtime =
              record (bind_msquic_stream
                (runtime_stream_init c.has_adapter c.has_queue id s.ingress_buffer
                  s.ingress_capacity)
                (some api.of_streams) stream) { connection = connection };
          slot_api = some api;
          stream = stream;
          in_use = true;
        }

    abbrev pub opened : ConnectionRuntime T
    opened = record c { stream_slots = update c.stream_slots i opened_slot }

    opened-taken_slot :
        put_runtime
          (taken_slot c api stream id i)
          i
          (record ((taken_slot c api stream id i).stream_slots i).runtime {
            connection = connection;
          })
        ≡ opened
    opened-taken_slot =
        ap
          (λ (s : StreamSlot T). record c {
            stream_slots =
                update (taken_slot c api stream id i).stream_slots i
                  (record s { runtime = record s.runtime { connection = connection } });
          })
          (update-at c.stream_slots i _)
        ∙ ap (λ slots. record c { stream_slots = slots })
            (update-update c.stream_slots i _ opened_slot)

    opened_at : opened.stream_slots i ≡ opened_slot
    opened_at = update-at c.stream_slots i opened_slot

    allocate_slot-taken_slot :
        c.connection_api ≡ some api
        → (stream == 0) ≡ false
        → api.get_stream_id t stream ≡ some (id, 8)
        → first_from (is_free c.stream_slots) c.stream_slot_count 0 ≡ some i
        → allocate_slot c t stream ≡ (taken_slot c api stream id i, some i)
    unfolding allocate_slot
    allocate_slot-taken_slot a n e x =
        ap found a
        ∙ ap (λ b. if b then (c, none) else allocate_with c api stream (api.get_stream_id t stream))
            n
        ∙ ap (allocate_with c api stream) e
        ∙ ap taken x
      where
        found : Option (ConnectionApi T) → ConnectionRuntime T × Option ℕ
        found o = elim o [
          | none ↦ (c, none)
          | some f ↦
              if stream == 0 then (c, none) else allocate_with c f stream (f.get_stream_id t stream)
        ]

        taken : Option ℕ → ConnectionRuntime T × Option ℕ
        taken o = elim o [ none ↦ (c, none) | some j ↦ (taken_slot c api stream id j, some j) ]

  -- A stream whose ID MsQuic tells gets a slot.
  pub peer_stream_started-opened :
      (c : ConnectionRuntime T) (t : T) (stream id connection : ℕ)
      → IsVacant c
      → 0 < capacity
      → (stream == 0) ≡ false
      → api.get_stream_id t stream ≡ some (id, 8)
      → (i : ℕ) × (i < c.stream_slot_count)
        × ((allocate_slot c t stream).1 ≡ some i)
        × (connection_callback (c, t) connection (peer_stream_started stream) ≡ (
          (opened c t stream id connection i, api.set_callback_handler t stream (slot_handler i)),
          success,
        ))
  unfolding allocate_slot connection_callback
  peer_stream_started-opened c t stream id connection v l n e =
      elim (first_from-cases (is_free c.stream_slots) c.stream_slot_count 0) [
        | inl (_, h) ↦
            absurd (let x = h 0 (omega arith) (omega (arith, v.some_slots)) in let y = free in cc)
        | inr (i, x, f) ↦
            let a = allocate_slot-taken_slot c t stream id connection i v.api_there n e x in
            (
              i,
              omega (arith, f.below),
              ap (λ r. r.1) a,
              ap called v.api_there
                  ∙ ap (started api t connection stream) a
                  ∙ ap (λ d. ((d, api.set_callback_handler t stream (slot_handler i)), success))
                      (opened-taken_slot c t stream id connection i),
            )
      ]
    where
      called : Option (ConnectionApi T) → (ConnectionRuntime T × T) × Status
      called o = elim o [
        | none ↦ ((c, t), invalid_parameter)
        | some f ↦ on_connection_event f (c, t) connection (peer_stream_started stream)
      ]

      free : is_free c.stream_slots 0 ≡ true
      free =
          let (p, b) = v.buffers 0 v.some_slots in
          ground (arith, v.unused 0 v.some_slots, b, v.roomy 0 v.some_slots, l)

  -- The slot can send and takes requests.
  pub opened-CanSend :
      (c : ConnectionRuntime T) (t : T) (stream id connection i : ℕ)
      (stream_send : T → ℕ → Bytes → ℕ → Bool → T × Bool)
      → IsVacant c
      → stream ≢ 0
      → i < c.stream_slot_count
      → api.of_streams.stream_send ≡ some stream_send
      → CanSend (opened c t stream id connection i) i id
  unfolding runtime_stream_init bind_msquic_stream
  opened-CanSend c t stream id connection i stream_send v n l e = record {
    slots_there = v.slots_there;
    first = record {
      from = omega arith;
      below = omega (arith, l);
      passes = ap (λ (s : StreamSlot T). s.in_use && s.runtime.stream_id == id) at ∙ ground arith;
      before = λ j a b.
          ap (λ (s : StreamSlot T). s.in_use && s.runtime.stream_id == id) (other j b)
          ∙ ap (λ x. x && (c.stream_slots j).runtime.stream_id == id)
              (v.unused j (omega (arith, b, l)));
    };
    has_id = ap (λ (s : StreamSlot T). s.runtime.stream_id) at;
    some_stream = λ z. n (sym (ap (λ (s : StreamSlot T). s.runtime.stream) at) ∙ z);
    landed = ap (λ (s : StreamSlot T). s.runtime.send_in_flight) at;
    stream_send = stream_send;
    has_send = ap (λ (s : StreamSlot T). stream_send_of s.runtime.api) at ∙ e;
  }
    where
      at :
          (opened c t stream id connection i).stream_slots i
          ≡ opened_slot c t stream id connection i
      at = opened_at c t stream id connection i

      other :
          (j : ℕ) → j < i → (opened c t stream id connection i).stream_slots j ≡ c.stream_slots j
      other j b = ground (arith, b)

  pub opened-IsOpen :
      (c : ConnectionRuntime T) (t : T) (stream id connection i : ℕ) (v : IsVacant c)
      (l : i < c.stream_slot_count)
      → IsOpen id
          (v.buffers i l).0
          capacity
          ((opened c t stream id connection i).stream_slots i).runtime
  unfolding runtime_stream_init bind_msquic_stream
  opened-IsOpen c t stream id connection i v l =
      subst (λ (s : StreamSlot T). IsOpen id (v.buffers i l).0 capacity s.runtime)
        (sym (opened_at c t stream id connection i))
        (record {
          adapter_there = v.adapter_there;
          queue_there = v.queue_there;
          has_id = refl;
          has_ingress = (v.buffers i l).1;
          has_capacity = v.roomy i l;
          no_fin = refl;
        })

  -- Once the slot is released the connection is at rest again.
  pub released-IsVacant :
      (c : ConnectionRuntime T) (t u : T) (stream id connection i : ℕ)
      → IsVacant c
      → IsVacant (released (opened c t stream id connection i, u) i).0
  released-IsVacant c t u stream id connection i v = subst IsVacant (sym path) (record {
    api_there = v.api_there;
    adapter_there = v.adapter_there;
    queue_there = v.queue_there;
    slots_there = v.slots_there;
    some_slots = v.some_slots;
    unused = λ j l. (each j l).0;
    buffers = λ j l. (each j l).1;
    roomy = λ j l. (each j l).2;
  })
    where
      blank : StreamSlot T
      blank = (release_slot (opened_slot c t stream id connection i) u).0

      Unused : StreamSlot T → Type 0
      Unused s =
          (s.in_use ≡ false)
          × ((p : ℕ) × (s.ingress_buffer ≡ some p))
          × (s.ingress_capacity ≡ capacity)

      each : (j : ℕ) → j < c.stream_slot_count → Unused (update c.stream_slots i blank j)
      each j l =
          if_cases Unused (j == i)
            (λ e.
              let q : i ≡ j = ground (arith, e) in
              unfold release_slot in
              (
                refl,
                subst (λ x. (p : ℕ) × ((c.stream_slots x).ingress_buffer ≡ some p)) (sym q)
                    (v.buffers j l),
                ap (λ x. (c.stream_slots x).ingress_capacity) q ∙ v.roomy j l,
              ))
            (λ e. (v.unused j l, v.buffers j l, v.roomy j l))

      path :
          (released (opened c t stream id connection i, u) i).0
          ≡ record c { stream_slots = update c.stream_slots i blank }
      path =
          ap
            (λ (s : StreamSlot T). record c {
              stream_slots =
                  update (opened c t stream id connection i).stream_slots i (release_slot s u).0;
            })
            (opened_at c t stream id connection i)
          ∙ ap (λ slots. record c { stream_slots = slots })
              (update-update c.stream_slots i (opened_slot c t stream id connection i) blank)
