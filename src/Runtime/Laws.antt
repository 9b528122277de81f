-- ===== src/Runtime/Laws.antt =====
-- What the events of a stream do to the queue and the adapter, and what the runtime's send does.
use ism.Prelude.{
  ℕ, ◌+◌, ◌<◌, ◌≡◌, inl, inr, sym, subst, refl, Bool, true, false, not, ◌&&◌, ◌||◌, leb, ltb, ◌==◌,
  if_cases, Option, none, some, Option-cases, Bytes, List, [], ◌∷◌, update, copy_bytes,
}
use ism.Worker.{QuestionCheck}
use ism.Adapter.Completion
use ism.Queue.{
  Queue, Event, enqueue, enqueue_authenticated_stream_bytes, enqueue_authenticated_stream_fin,
  enqueue_send_complete, enqueue_stream_reset,
}
use ism.Queue.Fifo
use ism.Queue.Fifo.{enqueue_lem}
use ism.Queue.Dispatch.Laws.{dispatch_one_lem}
use ism.Queue.Dispatch.Keeps.{dispatch_one_keeps}
use ism.Runtime.{
  Runtime, World, Host, runtime_of, with_runtime, on_abort, shutdown_of, clear_runtime_send,
  then_dispatch, is_attached, runtime_on_send_complete, runtime_on_stream_reset, on_fin, stored,
  copy_to, copy_input, copy_enqueue_and_dispatch, receive_buffers, with_fin, on_msquic_receive,
  Status, StreamEvent, start_complete, receive, peer_send_shutdown, msquic_send_complete, aborted,
  shutdown_complete, other_event, protocol_error, or_protocol_error, or_invalid_state,
  stream_callback,
}

-- A property of the state of the send callback that a stream's runtime cannot break: sends keep it,
-- and so do changes of the runtime that leave the stream bound as it is.
pub record Keeps {S T : Type 0} (host : Host S T) (P : S → Type 0) : Type 0 where
  pub send_keeps :
      (s : S) (id : ℕ) (bytes : Bytes) (len : ℕ) (fin : Bool)
      → P s
      → P (host.send s id bytes len fin).0
  pub set_keeps :
      (s : S) (r : Runtime T)
      → r.api ≡ (host.get s).api
      → r.stream ≡ (host.get s).stream
      → P s
      → P (host.set s r)
  pub msquic_keeps : (s : S) (f : T → T) → P s → P (host.on_msquic s f)

-- The queue and the adapter are valid, the heap holds bytes, and the state has the property.
pub record IsValid {S : Type 0} (P : S → Type 0) (w : World S) : Type 0 where
  pub held : P w.state
  pub queued : Fifo.IsValid w.queue
  pub adapted : Completion.IsValid w.adapter
  pub octets : (p i : ℕ) → w.heap p i < 256

enqueue-IsValid : (q : Queue) (e : Event) → Fifo.IsValid q → Fifo.IsValid (enqueue q e).0
enqueue-IsValid q e v = elim (enqueue_lem q e v) [
  | inl (f, x) ↦ subst (λ r. Fifo.IsValid r.0) (sym x) v
  | inr (l, o, k, c) ↦ k
]

enqueue_bytes-IsValid :
    (q : Queue) (id p len : ℕ)
    → Fifo.IsValid q
    → Fifo.IsValid (enqueue_authenticated_stream_bytes q id (some p) len).0
unfolding enqueue_authenticated_stream_bytes
enqueue_bytes-IsValid q id p len v = enqueue-IsValid q _ v

-- The bytes of a receive.
abbrev pub IsOctets : List (Option Bytes × ℕ) → Type 0
IsOctets [] = Unit {0}
IsOctets ((none, len) ∷ buffers) = IsOctets buffers
IsOctets ((some bytes, len) ∷ buffers) = ((i : ℕ) → bytes i < 256) × IsOctets buffers

-- The bytes that an event brings are bytes.
abbrev pub IsOctetsEvent : StreamEvent → Type 0
IsOctetsEvent (receive (some buffers) fin) = IsOctets buffers
IsOctetsEvent (receive none fin) = Unit {0}
IsOctetsEvent (start_complete id) = Unit {0}
IsOctetsEvent peer_send_shutdown = Unit {0}
IsOctetsEvent (msquic_send_complete own canceled) = Unit {0}
IsOctetsEvent aborted = Unit {0}
IsOctetsEvent shutdown_complete = Unit {0}
IsOctetsEvent other_event = Unit {0}

module _ {S T : Type 0} (host : Host S T) (check_question : QuestionCheck) (P : S → Type 0)
    (k : Keeps host P) where
  with_runtime-IsValid :
      (w : World S) (r : Runtime T)
      → IsValid P w
      → P (host.set w.state r)
      → IsValid P (with_runtime host w r)
  with_runtime-IsValid w r v h = record {
    held = h;
    queued = v.queued;
    adapted = v.adapted;
    octets = v.octets;
  }

  then_dispatch-IsValid :
      (w : World S) (r : Queue × Bool)
      → IsValid P w
      → Fifo.IsValid r.0
      → IsValid P (then_dispatch host check_question w r).0
  then_dispatch-IsValid w (q, false) v f = record {
    held = v.held;
    queued = f;
    adapted = v.adapted;
    octets = v.octets;
  }
  then_dispatch-IsValid w (q, true) v f =
      if_cases (λ (r : World S × Bool). IsValid P r.0) (runtime_of host w).has_adapter
        (λ e.
          let d =
            dispatch_one_lem check_question host.send w.heap v.octets q w.adapter w.state f
              v.adapted in
          let kept =
            dispatch_one_keeps check_question host.send P k.send_keeps w.heap v.octets q w.adapter
              w.state f v.adapted v.held in
          record { held = kept; queued = d.0; adapted = d.1; octets = v.octets })
        (λ e. record { held = v.held; queued = f; adapted = v.adapted; octets = v.octets })

  runtime_on_send_complete-IsValid :
      (w : World S) (len : ℕ) (dropped : Bool)
      → IsValid P w
      → IsValid P (runtime_on_send_complete host check_question w len dropped).0
  unfolding runtime_on_send_complete enqueue_send_complete
  runtime_on_send_complete-IsValid w len dropped v =
      if_cases (λ (r : World S × Bool). IsValid P r.0) (is_attached host check_question w)
        (λ e. then_dispatch-IsValid w _ v (enqueue-IsValid w.queue _ v.queued)) (λ e. v)

  runtime_on_stream_reset-IsValid :
      (w : World S) → IsValid P w → IsValid P (runtime_on_stream_reset host check_question w).0
  unfolding runtime_on_stream_reset enqueue_stream_reset
  runtime_on_stream_reset-IsValid w v =
      if_cases (λ (r : World S × Bool). IsValid P r.0) (is_attached host check_question w)
        (λ e. then_dispatch-IsValid w _ v (enqueue-IsValid w.queue _ v.queued)) (λ e. v)

  on_fin-IsValid : (w : World S) → IsValid P w → IsValid P (on_fin host check_question w).0
  unfolding on_fin enqueue_authenticated_stream_fin
  on_fin-IsValid w v =
      if_cases (λ (r : World S × Bool). IsValid P r.0) (not (is_attached host check_question w))
        (λ e. v)
        (λ e.
          if_cases (λ (r : World S × Bool). IsValid P r.0) (runtime_of host w).received_fin (λ e. v)
            (λ e.
              if_cases (λ (r : World S × Bool). IsValid P r.0) (not (w.queue.count == 0)) (λ e. v)
                (λ e.
                  let d = then_dispatch-IsValid w _ v (enqueue-IsValid w.queue _ v.queued) in
                  with_runtime-IsValid _ _ d (k.set_keeps _ _ refl refl d.held))))

  stored-IsValid :
      (w : World S) (p : ℕ) (bytes : Bytes) (len : ℕ)
      → ((i : ℕ) → bytes i < 256)
      → IsValid P w
      → IsValid P (stored host check_question w p bytes len)
  stored-IsValid w p bytes len b v = record {
    held = v.held;
    queued = v.queued;
    adapted = v.adapted;
    octets = λ k i. at k i;
  }
    where
      at : (k i : ℕ) → update w.heap p (copy_bytes bytes 0 (w.heap p) 0 len) k i < 256
      at k i =
          if_cases (λ (h : Bytes). h i < 256) (k == p)
            (λ e.
              if_cases (λ (x : ℕ). x < 256) (leb 0 i && ltb i (0 + len)) (λ e. b _)
                (λ e. v.octets p i))
            (λ e. v.octets k i)

  copy_to-IsValid :
      (w : World S) (p : ℕ) (bytes : Bytes) (len : ℕ)
      → ((i : ℕ) → bytes i < 256)
      → IsValid P w
      → IsValid P (copy_to host check_question w p bytes len).0
  copy_to-IsValid w p bytes len b v =
      if_cases (λ (r : World S × Bool). IsValid P r.0)
        (ltb (runtime_of host w).ingress_capacity len
          || ((runtime_of host w).has_queue && not (w.queue.count == 0)
              || (runtime_of host w).received_fin && ltb 0 len))
        (λ e. v)
        (λ e.
          if_cases (λ (r : World S × Bool). IsValid P r.0) (runtime_of host w).has_queue
            (λ e.
              then_dispatch-IsValid (stored host check_question w p bytes len) _
                (stored-IsValid w p bytes len b v)
                (enqueue_bytes-IsValid w.queue (runtime_of host w).stream_id p len v.queued))
            (λ e. stored-IsValid w p bytes len b v))

  copy_enqueue_and_dispatch-IsValid :
      (w : World S) (input : Option Bytes) (len : ℕ)
      → IsOctets ((input, len) ∷ [])
      → IsValid P w
      → IsValid P (copy_enqueue_and_dispatch host check_question w input len).0
  unfolding copy_enqueue_and_dispatch
  copy_enqueue_and_dispatch-IsValid w input len b v =
      elim (Option-cases (runtime_of host w).ingress_buffer) [
        | inl e ↦ rw (e, copy_enqueue_and_dispatch) v
        | inr (p, e) ↦ rw (e, copy_enqueue_and_dispatch) (there p input b)
      ]
    where
      there :
          (p : ℕ) (input : Option Bytes)
          → IsOctets ((input, len) ∷ [])
          → IsValid P (copy_input host check_question w p input len).0
      there p none b = v
      there p (some bytes) b = copy_to-IsValid w p bytes len b.0 v

  receive_buffers-IsValid :
      (buffers : List (Option Bytes × ℕ)) (w : World S)
      → IsOctets buffers
      → IsValid P w
      → IsValid P (receive_buffers host check_question w buffers).0
  unfolding receive_buffers
  receive_buffers-IsValid [] w b v = v
  receive_buffers-IsValid ((input, len) ∷ buffers) w b v =
      if_cases (λ (r : World S × Bool). IsValid P r.0) (len == 0)
        (λ e. receive_buffers-IsValid buffers w (others input b) v)
        (λ e.
          if_cases (λ (r : World S × Bool). IsValid P r.0)
            (copy_enqueue_and_dispatch host check_question w input len).1
            (λ e.
              receive_buffers-IsValid buffers
                (copy_enqueue_and_dispatch host check_question w input len).0 (others input b)
                (first input b))
            (λ e. first input b))
    where
      others : (input : Option Bytes) → IsOctets ((input, len) ∷ buffers) → IsOctets buffers
      others none b = b
      others (some bytes) b = b.1

      first :
          (input : Option Bytes)
          → IsOctets ((input, len) ∷ buffers)
          → IsValid P (copy_enqueue_and_dispatch host check_question w input len).0
      first none b = copy_enqueue_and_dispatch-IsValid w none len tt v
      first (some bytes) b = copy_enqueue_and_dispatch-IsValid w (some bytes) len (b.0, tt) v

  with_fin-IsValid :
      (fin : Bool) (r : World S × Bool)
      → IsValid P r.0
      → IsValid P (with_fin host check_question fin r).0
  with_fin-IsValid fin (w, false) v = v
  with_fin-IsValid true (w, true) v = on_fin-IsValid w v
  with_fin-IsValid false (w, true) v = v

  protocol_error-IsValid : (w : World S) → IsValid P w → IsValid P (protocol_error host w).0
  unfolding protocol_error
  protocol_error-IsValid w v = elim (Option-cases (shutdown_of (runtime_of host w).api)) [
    | inl e ↦ rw (e, protocol_error) v
    | inr (f, e) ↦
        rw (e, protocol_error)
          (if_cases (λ (r : World S × Status). IsValid P r.0) ((runtime_of host w).connection == 0)
            (λ x. v)
            (λ x. record {
              held = k.msquic_keeps w.state _ v.held;
              queued = v.queued;
              adapted = v.adapted;
              octets = v.octets;
            }))
  ]

  or_protocol_error-IsValid :
      (r : World S × Bool) → IsValid P r.0 → IsValid P (or_protocol_error host r).0
  or_protocol_error-IsValid (w, true) v = v
  or_protocol_error-IsValid (w, false) v = protocol_error-IsValid w v

  or_invalid_state-IsValid : (r : World S × Bool) → IsValid P r.0 → IsValid P (or_invalid_state r).0
  or_invalid_state-IsValid (w, true) v = v
  or_invalid_state-IsValid (w, false) v = v

  on_abort-IsValid : (w : World S) → IsValid P w → IsValid P (on_abort host check_question w).0
  on_abort-IsValid w v =
      if_cases (λ (r : World S × Status). IsValid P r.0) (runtime_of host w).send_in_flight
        (λ e. with_runtime-IsValid w _ v (k.set_keeps w.state _ refl refl v.held))
        (λ e. or_invalid_state-IsValid _ (runtime_on_stream_reset-IsValid w v))

  -- Whatever event MsQuic reports for a stream, with octets in its buffers, a valid queue, a valid
  -- adapter and a heap of octets stay so, and so does a property of the state that sends, changes
  -- of the runtime other than its binding, and MsQuic's own calls keep.
  pub stream_callback-IsValid :
      (w : World S) (event : StreamEvent)
      → IsOctetsEvent event
      → IsValid P w
      → IsValid P (stream_callback host check_question w event).0
  unfolding stream_callback on_msquic_receive
  stream_callback-IsValid w (start_complete id) b v =
      with_runtime-IsValid w _ v (k.set_keeps w.state _ refl refl v.held)
  stream_callback-IsValid w (receive none fin) b v = protocol_error-IsValid w v
  stream_callback-IsValid w (receive (some buffers) fin) b v =
      or_protocol_error-IsValid _ (with_fin-IsValid fin _ (receive_buffers-IsValid buffers w b v))
  stream_callback-IsValid w peer_send_shutdown b v =
      or_protocol_error-IsValid _ (on_fin-IsValid w v)
  stream_callback-IsValid w (msquic_send_complete own canceled) b v =
      if_cases (λ (r : World S × Status). IsValid P r.0)
        (not own || not (runtime_of host w).send_in_flight) (λ e. v)
        (λ e.
          if_cases (λ (r : World S × Status). IsValid P r.0) w.adapter.send_in_flight
            (λ e.
              or_invalid_state-IsValid _ (runtime_on_send_complete-IsValid _ _ _ (cleared_world v)))
            (λ e. cleared_world v))
    where
      cleared_world :
          IsValid P w → IsValid P (with_runtime host w (clear_runtime_send (runtime_of host w)))
      cleared_world v = with_runtime-IsValid w _ v (k.set_keeps w.state _ refl refl v.held)
  stream_callback-IsValid w aborted b v = on_abort-IsValid w v
  stream_callback-IsValid w shutdown_complete b v = on_abort-IsValid w v
  stream_callback-IsValid w other_event b v = v
