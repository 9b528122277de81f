-- ===== src/Connections/Life.antt =====
-- The life of a stream in its slot, from its request to its shutdown, through the callbacks of
-- shell/msquic_connection_runtime.c and shell/msquic_runtime.c.
use ism.Prelude.{
  ℕ, ◌≡◌, ◌≢◌, ◌∙◌, sym, ap, subst, refl, arith, inl, inr, ◌⊎◌, Bool, true, false, none, Bytes,
}
use ism.Worker.{QuestionCheck}
use ism.Table.{Connection}
use ism.Table.Find.{lookup}
use ism.Adapter.Completion.{IsValid, IsIdle, InFlight}
use ism.Adapter.Rooms.{HasRoom}
use ism.Adapter.Answers.{CanAnswer}
use ism.Queue.Dispatch.Single.{IsEmpty}
use ism.Runtime.{
  Runtime, World, Status, success, runtime_of, sent, mark_runtime_send, shutdown_complete,
  stream_callback,
}
use ism.Runtime.Closing.{IsEnded}
use ism.Runtime.Requests.{IsOpen}
use ism.Connections.{
  ConnectionRuntime, put_runtime, slot_host, slot_callback, released, release_after, release_slot,
}
use ism.Connections.Requests.{CanSend, streamed, IsStreamed}
use ism.Connections.Places.{
  update-at, slot_host-get-set, put_runtime-put_runtime, released-put_runtime,
}
use ism.Connections.Aborts.{peer_aborts, IsSettled, peer_aborts-IsSettled, close_send-HasLanded}
use ism.Connections.Landing.{
  reset-IsEnded, close_send, IsSent, sent-IsSent, sent-state, HasLanded, placed_runtime,
}

-- The slot is in no use and has no stream.
abbrev pub IsUnused : {T : Type 0} → ConnectionRuntime T → ℕ → Type 0
IsUnused c i = ((c.stream_slots i).in_use ≡ false) × ((c.stream_slots i).stream ≡ 0)

released-IsUnused :
    {T : Type 0} (c : ConnectionRuntime T) (t : T) (i : ℕ) → IsUnused (released (c, t) i).0 i
unfolding release_slot
released-IsUnused c t i =
    let at = update-at c.stream_slots i (release_slot (c.stream_slots i) t).0 in
    (ap (λ s. s.in_use) at, ap (λ s. s.stream) at)

module _ {T : Type 0} (check_question : QuestionCheck) (i id : ℕ) (before : Connection)
    (c : ConnectionRuntime T) (t : T) where
  -- The stream's life is over: the slot is released and free again, MsQuic has closed the handle, and the rest is
  -- as for a stream that has landed.
  pub record IsOver (r : World (ConnectionRuntime T × T) × Status) : Type 0 where
    pub status : r.1 ≡ success
    pub state : r.0.state ≡ released (c, t) i
    pub free_again : IsUnused r.0.state.0 i
    pub emptied : IsEmpty r.0.queue
    pub valid : IsValid r.0.adapter
    pub idle : IsIdle r.0.adapter
    pub room : HasRoom r.0.adapter
    pub forgotten : lookup r.0.adapter.connection id ≡ none
    pub others :
        (other : ℕ) → other ≢ id → lookup r.0.adapter.connection other ≡ lookup before other

  -- The shutdown of a stream that has landed releases its slot.
  shutdown-IsOver :
      (w : World (ConnectionRuntime T × T))
      → HasLanded check_question i id before c t w
      → IsOver (slot_callback check_question i w shutdown_complete)
  unfolding slot_callback
  shutdown-IsOver w h =
      subst IsOver (sym (ap (release_after i shutdown_complete) e.result)) (record {
        status = refl;
        state = now_released;
        free_again = subst (λ s. IsUnused s.0 i) (sym now_released) (released-IsUnused c t i);
        emptied = e.emptied;
        valid = e.valid;
        idle = e.idle;
        room = e.room h.room;
        forgotten = ground (arith, e.closed id, same_id);
        others = λ x ne. ground (arith, e.closed x, same_id, h.others x ne);
      })
    where
      now_released : released w.state i ≡ released (c, t) i
      now_released = ap (λ s. released s i) h.placed ∙ released-put_runtime i c h.runtime t

      same : runtime_of (slot_host i) w ≡ h.runtime
      same = placed_runtime check_question i id before c t w h.runtime h.placed

      same_id : (runtime_of (slot_host i) w).stream_id ≡ id
      same_id = ap (λ r. r.stream_id) same ∙ h.has_id

      e :
          IsEnded w
            (runtime_of (slot_host i) w).stream_id
            w.state
            (stream_callback (slot_host i) check_question w shutdown_complete)
      e = reset-IsEnded check_question i id before c t w h

module _ {T : Type 0} (check_question : QuestionCheck) (w : World (ConnectionRuntime T × T))
    (i id p capacity n : ℕ) (input : Bytes) (k : CanAnswer w.adapter) (h : CanSend w.state.0 i id)
    (o : IsOpen id p capacity (w.state.0.stream_slots i).runtime)
    (r : World (ConnectionRuntime T × T) × Status)
    (g : IsStreamed check_question w i id n input k h r) where
  abbrev sent_bytes : ℕ × Bytes
  sent_bytes = g.reply.answer.2.bytes

  -- What `StreamSend` has answered.
  abbrev pub streamed_now : T × Bool
  streamed_now = streamed check_question w i id n input k h sent_bytes

  abbrev runtime_now : Runtime T
  runtime_now =
      record (sent (mark_runtime_send (w.state.0.stream_slots i).runtime sent_bytes.1 sent_bytes.0)
        streamed_now).0.0 { received_fin = true }

  streamed-placed : r.0.state ≡ (put_runtime w.state.0 i runtime_now, streamed_now.0)
  streamed-placed =
      g.reply.fin_noted
      ∙ ap (λ s. (slot_host i).set s (record ((slot_host i).get s) { received_fin = true }))
          g.by_stream_send
      ∙ ap
          (λ (q : Runtime T). (
            put_runtime (put_runtime w.state.0 i now.0) i (record q { received_fin = true }),
            now.1,
          ))
          (slot_host-get-set i w.state now.0)
      ∙ ap (λ c. (c, now.1)) (put_runtime-put_runtime i w.state.0 now.0 runtime_now)
      ∙ ap (λ t. (put_runtime w.state.0 i runtime_now, t)) (sent-state _ streamed_now)
    where
      now : Runtime T × T
      now =
          (sent (mark_runtime_send (w.state.0.stream_slots i).runtime sent_bytes.1 sent_bytes.0)
            streamed_now).0

  -- A reply that MsQuic took is awaited, and one that it refused has landed.
  streamed-IsSettled :
      IsSettled check_question i id w.adapter.connection w.state.0 streamed_now.0
        (w.state.0.stream_slots i).runtime
        sent_bytes.0
        r.0
  streamed-IsSettled = settled g.reply.answer.2.outcome
    where
      sent_now :
          (taken : Bool)
          → g.reply.answer.2.taken ≡ taken
          → IsSent (w.state.0.stream_slots i).runtime runtime_now sent_bytes.0 taken
      sent_now taken e =
          subst (IsSent (w.state.0.stream_slots i).runtime runtime_now sent_bytes.0)
            (sym g.as_taken ∙ e) (sent-IsSent _ sent_bytes.1 sent_bytes.0 streamed_now)

      settled :
          ((g.reply.answer.2.taken ≡ true) × InFlight r.0.adapter id sent_bytes.0)
            ⊎ ((g.reply.answer.2.taken ≡ false)
                × IsIdle r.0.adapter
                × (lookup r.0.adapter.connection id ≡ none))
          → IsSettled check_question i id w.adapter.connection w.state.0 streamed_now.0
              (w.state.0.stream_slots i).runtime
              sent_bytes.0
              r.0
      settled (inl (e, q)) = inl (record {
        runtime = runtime_now;
        placed = streamed-placed;
        sent = sent_now true e;
        adapter_there = o.adapter_there;
        queue_there = o.queue_there;
        has_id = o.has_id;
        emptied = g.reply.emptied;
        valid = g.reply.answer.2.valid;
        room = g.reply.answer.2.room;
        flight = q;
        others = g.reply.answer.2.others;
      })
      settled (inr (e, q, z)) =
          let s = sent_now false e in
          inr (record {
            runtime = runtime_now;
            placed = streamed-placed;
            adapter_there = s.same_adapter ∙ o.adapter_there;
            queue_there = s.same_queue ∙ o.queue_there;
            has_id = s.same_id ∙ o.has_id;
            landed = s.flight;
            emptied = g.reply.emptied;
            valid = g.reply.answer.2.valid;
            idle = q;
            room = g.reply.answer.2.room;
            forgotten = z;
            others = g.reply.answer.2.others;
          })

  -- Completion and shutdown end the life of a stream whose request was answered, whether MsQuic
  -- took the answer or refused it, and however often the peer aborts the stream before: the slot is
  -- released and not in use, the table forgets the stream and no other, the queue is empty, and the adapter is
  -- valid with nothing in flight and room for any response.
  pub streamed-IsOver :
      (aborts : ℕ) (canceled : Bool)
      → IsOver check_question i id w.adapter.connection w.state.0 streamed_now.0 (
          slot_callback check_question i
            (close_send check_question i canceled (peer_aborts check_question i aborts r.0))
            shutdown_complete)
  streamed-IsOver aborts canceled =
      shutdown-IsOver check_question i id w.adapter.connection w.state.0 streamed_now.0
        (close_send check_question i canceled (peer_aborts check_question i aborts r.0))
        (close_send-HasLanded check_question i id w.adapter.connection w.state.0 streamed_now.0
          (w.state.0.stream_slots i).runtime sent_bytes.0 (peer_aborts check_question i aborts r.0)
          canceled
          (peer_aborts-IsSettled check_question i id w.adapter.connection w.state.0 streamed_now.0
            (w.state.0.stream_slots i).runtime sent_bytes.0 aborts r.0 streamed-IsSettled))
