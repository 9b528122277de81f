-- ===== src/Connections/Landing.antt =====
-- The completion of a response's send on a stream of a connection, in
-- shell/msquic_connection_runtime.c and shell/msquic_runtime.c.
use ism.Prelude.{
  ℕ, ◌≡◌, ◌≢◌, ◌∙◌, sym, ap, subst, refl, arith, Bool, true, false, if◌then◌else◌, none, Bytes,
}
use ism.Worker.{QuestionCheck}
use ism.Table.{Connection}
use ism.Table.Find.{lookup}
use ism.Adapter.Completion.{IsValid, IsIdle, InFlight}
use ism.Adapter.Rooms.{HasRoom}
use ism.Queue.Dispatch.Single.{IsEmpty}
use ism.Runtime.{
  Runtime, World, Status, runtime_of, sent, mark_runtime_send, clear_runtime_send,
  msquic_send_complete, shutdown_complete, stream_callback,
}
use ism.Runtime.Closing.{IsEnded, send_complete-IsEnded, shutdown_complete-IsEnded}
use ism.Connections.{ConnectionRuntime, put_runtime, slot_host, slot_callback}
use ism.Connections.Requests.{slot_callback-stream_callback}
use ism.Connections.Places.{slot_host-get-set, put_runtime-put_runtime}

-- The completion of the send in flight, where there is one.
abbrev pub close_send :
    {T : Type 0}
    → QuestionCheck
    → ℕ
    → Bool
    → World (ConnectionRuntime T × T)
    → World (ConnectionRuntime T × T)
close_send check_question i canceled w =
    if w.adapter.send_in_flight
    then (slot_callback check_question i w (msquic_send_complete true canceled)).0
    else w

-- A send leaves the runtime attached as it was, and in flight as MsQuic took the bytes.
pub record IsSent {T : Type 0} (r q : Runtime T) (len : ℕ) (taken : Bool) : Type 0 where
  pub same_adapter : q.has_adapter ≡ r.has_adapter
  pub same_queue : q.has_queue ≡ r.has_queue
  pub same_id : q.stream_id ≡ r.stream_id
  pub flight : q.send_in_flight ≡ taken
  pub flight_len : taken ≡ true → q.response_len ≡ len

pub sent-IsSent :
    {T : Type 0} (r : Runtime T) (bytes : Bytes) (len : ℕ) (x : T × Bool)
    → IsSent r (record (sent (mark_runtime_send r bytes len) x).0.0 { received_fin = true }) len x.1
sent-IsSent r bytes len (t, true) = record {
  same_adapter = refl;
  same_queue = refl;
  same_id = refl;
  flight = refl;
  flight_len = λ e. refl;
}
sent-IsSent r bytes len (t, false) = record {
  same_adapter = refl;
  same_queue = refl;
  same_id = refl;
  flight = refl;
  flight_len = λ e. absurd cc;
}

pub sent-state : {T : Type 0} (r : Runtime T) (x : T × Bool) → (sent r x).0.1 ≡ x.0
sent-state r (t, true) = refl
sent-state r (t, false) = refl

module _ {T : Type 0} (check_question : QuestionCheck) (i id : ℕ) (before : Connection)
    (c : ConnectionRuntime T) (t : T) where
  -- Nothing is in flight any more: the slot's runtime is attached to an empty queue and to a valid
  -- adapter with room, and the table has forgotten the stream and no other.
  pub record HasLanded (w : World (ConnectionRuntime T × T)) : Type 0 where
    pub runtime : Runtime T
    pub placed : w.state ≡ (put_runtime c i runtime, t)
    pub adapter_there : runtime.has_adapter ≡ true
    pub queue_there : runtime.has_queue ≡ true
    pub has_id : runtime.stream_id ≡ id
    pub landed : runtime.send_in_flight ≡ false
    pub emptied : IsEmpty w.queue
    pub valid : IsValid w.adapter
    pub idle : IsIdle w.adapter
    pub room : HasRoom w.adapter
    pub forgotten : lookup w.adapter.connection id ≡ none
    pub others : (other : ℕ) → other ≢ id → lookup w.adapter.connection other ≡ lookup before other

  -- The answer is in flight, in the slot's runtime and in the adapter, `r` being the runtime that
  -- sent it.
  pub record IsAwaiting (r : Runtime T) (len : ℕ) (w : World (ConnectionRuntime T × T))
      : Type 0 where
    pub runtime : Runtime T
    pub placed : w.state ≡ (put_runtime c i runtime, t)
    pub sent : IsSent r runtime len true
    pub adapter_there : r.has_adapter ≡ true
    pub queue_there : r.has_queue ≡ true
    pub has_id : r.stream_id ≡ id
    pub emptied : IsEmpty w.queue
    pub valid : IsValid w.adapter
    pub room : HasRoom w.adapter
    pub flight : InFlight w.adapter id len
    pub others : (other : ℕ) → other ≢ id → lookup w.adapter.connection other ≡ lookup before other

  pub placed_runtime :
      (w : World (ConnectionRuntime T × T)) (q : Runtime T)
      → w.state ≡ (put_runtime c i q, t)
      → runtime_of (slot_host i) w ≡ q
  placed_runtime w q e = ap (slot_host i).get e ∙ slot_host-get-set i (c, t) q

  -- A reset of a stream that has landed, as its shutdown brings it.
  pub reset-IsEnded :
      (w : World (ConnectionRuntime T × T))
      → HasLanded w
      → IsEnded w
          (runtime_of (slot_host i) w).stream_id
          w.state
          (stream_callback (slot_host i) check_question w shutdown_complete)
  reset-IsEnded w h =
      shutdown_complete-IsEnded (slot_host i) check_question (slot_host-get-set i) w
        (record {
          adapter_there = ap (λ r. r.has_adapter) same ∙ h.adapter_there;
          queue_there = ap (λ r. r.has_queue) same ∙ h.queue_there;
          emptied = h.emptied;
        })
        h.valid h.idle (ap (λ r. r.send_in_flight) same ∙ h.landed)
    where
      same : runtime_of (slot_host i) w ≡ h.runtime
      same = placed_runtime w h.runtime h.placed

  -- The completion of the send lands it.
  pub completed-HasLanded :
      (w : World (ConnectionRuntime T × T)) (r : Runtime T) (canceled : Bool) (len : ℕ)
      → IsAwaiting r len w
      → HasLanded (slot_callback check_question i w (msquic_send_complete true canceled)).0
  completed-HasLanded w r canceled len a =
      subst (λ (r : World (ConnectionRuntime T × T) × Status). HasLanded r.0)
        (sym (
          slot_callback-stream_callback check_question i w (msquic_send_complete true canceled) refl
          ∙ e.result))
        (record {
          runtime = clear_runtime_send now;
          placed =
              ap (λ s. (put_runtime s.0 i (clear_runtime_send now), s.1)) a.placed
              ∙ ap (λ c. (c, t)) (put_runtime-put_runtime i c a.runtime (clear_runtime_send now));
          adapter_there = adapter_now;
          queue_there = queue_now;
          has_id = id_now;
          landed = refl;
          emptied = e.emptied;
          valid = e.valid;
          idle = e.idle;
          room = e.room a.room;
          forgotten = ground (arith, e.closed id, id_now);
          others = λ x ne. ground (arith, e.closed x, id_now, a.others x ne);
        })
    where
      now : Runtime T
      now = runtime_of (slot_host i) w

      same : now ≡ a.runtime
      same = placed_runtime w a.runtime a.placed

      adapter_now : now.has_adapter ≡ true
      adapter_now = ap (λ r. r.has_adapter) same ∙ a.sent.same_adapter ∙ a.adapter_there

      queue_now : now.has_queue ≡ true
      queue_now = ap (λ r. r.has_queue) same ∙ a.sent.same_queue ∙ a.queue_there

      id_now : now.stream_id ≡ id
      id_now = ap (λ r. r.stream_id) same ∙ a.sent.same_id ∙ a.has_id

      len_now : now.response_len ≡ len
      len_now = ap (λ r. r.response_len) same ∙ a.sent.flight_len refl

      e :
          IsEnded w now.stream_id
            ((slot_host i).set w.state (clear_runtime_send now))
            (stream_callback (slot_host i) check_question w (msquic_send_complete true canceled))
      e =
          send_complete-IsEnded (slot_host i) check_question (slot_host-get-set i) w canceled
            (record { adapter_there = adapter_now; queue_there = queue_now; emptied = a.emptied })
            a.valid
            (record {
              flying = a.flight.flying;
              flying_id = a.flight.flying_id ∙ sym id_now;
              flying_len = a.flight.flying_len ∙ sym len_now;
            })
            (ap (λ r. r.send_in_flight) same ∙ a.sent.flight)
