-- ===== src/Connections/Aborts.antt =====
-- A stream that its peer aborts while the response is in flight, or after that, in
-- shell/msquic_connection_runtime.c and shell/msquic_runtime.c: the reset waits for the completion.
use ism.Prelude.{
  ℕ, zero, suc, ◌≡◌, ◌∙◌, sym, ap, subst, refl, arith, inl, inr, ◌⊎◌, Bool, true, if_cases,
  if◌then◌else◌,
}
use ism.Worker.{QuestionCheck}
use ism.Table.{Connection}
use ism.Runtime.{
  Runtime, World, Status, success, runtime_of, with_runtime, or_invalid_state,
  runtime_on_stream_reset, aborted, shutdown_complete, stream_callback,
}
use ism.Runtime.Closing.{IsEnded}
use ism.Connections.{ConnectionRuntime, put_runtime, slot_host, slot_callback}
use ism.Connections.Requests.{slot_callback-stream_callback}
use ism.Connections.Places.{put_runtime-put_runtime}
use ism.Connections.Landing.{
  close_send, IsSent, HasLanded, IsAwaiting, placed_runtime, reset-IsEnded, completed-HasLanded,
}

-- The peer aborts the stream this many times.
unfoldable pub peer_aborts :
    {T : Type 0}
    → QuestionCheck
    → ℕ
    → ℕ
    → World (ConnectionRuntime T × T)
    → World (ConnectionRuntime T × T)
peer_aborts check_question i zero w = w
peer_aborts check_question i (suc n) w =
    peer_aborts check_question i n (slot_callback check_question i w aborted).0

module _ {T : Type 0} (check_question : QuestionCheck) (i id : ℕ) (before : Connection)
    (c : ConnectionRuntime T) (t : T) where
  -- The reset of a stream that has landed finds nothing to do.
  aborted-HasLanded :
      (w : World (ConnectionRuntime T × T))
      → HasLanded check_question i id before c t w
      → HasLanded check_question i id before c t (slot_callback check_question i w aborted).0
  unfolding stream_callback
  aborted-HasLanded w h =
      subst
        (λ (r : World (ConnectionRuntime T × T) × Status).
          HasLanded check_question i id before c t r.0)
        (sym (slot_callback-stream_callback check_question i w aborted refl ∙ e.result))
        (record {
          runtime = h.runtime;
          placed = h.placed;
          adapter_there = h.adapter_there;
          queue_there = h.queue_there;
          has_id = h.has_id;
          landed = h.landed;
          emptied = e.emptied;
          valid = e.valid;
          idle = e.idle;
          room = e.room h.room;
          forgotten = ground (arith, e.closed id, same_id);
          others = λ x ne. ground (arith, e.closed x, same_id, h.others x ne);
        })
    where
      same_id : (runtime_of (slot_host i) w).stream_id ≡ id
      same_id =
          ap (λ r. r.stream_id) (placed_runtime check_question i id before c t w h.runtime h.placed)
          ∙ h.has_id

      e :
          IsEnded w
            (runtime_of (slot_host i) w).stream_id
            w.state
            (stream_callback (slot_host i) check_question w shutdown_complete)
      e = reset-IsEnded check_question i id before c t w h

  -- While the response is in flight the abort only notes the reset.
  aborted-IsAwaiting :
      (r : Runtime T) (len : ℕ) (w : World (ConnectionRuntime T × T))
      → IsAwaiting check_question i id before c t r len w
      → IsAwaiting check_question i id before c t r len (slot_callback check_question i w aborted).0
  unfolding stream_callback
  aborted-IsAwaiting r len w a =
      subst
        (λ (x : World (ConnectionRuntime T × T) × Status).
          IsAwaiting check_question i id before c t r len x.0)
        (sym (slot_callback-stream_callback check_question i w aborted refl ∙ waits))
        (record {
          runtime = noted;
          placed =
              ap (λ s. (put_runtime s.0 i noted, s.1)) a.placed
              ∙ ap (λ c. (c, t)) (put_runtime-put_runtime i c a.runtime noted);
          sent = record {
            same_adapter = sent_now.same_adapter;
            same_queue = sent_now.same_queue;
            same_id = sent_now.same_id;
            flight = sent_now.flight;
            flight_len = sent_now.flight_len;
          };
          adapter_there = a.adapter_there;
          queue_there = a.queue_there;
          has_id = a.has_id;
          emptied = a.emptied;
          valid = a.valid;
          room = a.room;
          flight = a.flight;
          others = a.others;
        })
    where
      now : Runtime T
      now = runtime_of (slot_host i) w

      noted : Runtime T
      noted = record now { reset_pending = true }

      sent_now : IsSent r now len true
      sent_now =
          subst (λ q. IsSent r q len true)
            (sym (placed_runtime check_question i id before c t w a.runtime a.placed)) a.sent

      waits :
          stream_callback (slot_host i) check_question w aborted
          ≡ (with_runtime (slot_host i) w noted, success)
      waits =
          ap
            (λ b.
              if b
              then (with_runtime (slot_host i) w noted, success)
              else or_invalid_state (runtime_on_stream_reset (slot_host i) check_question w))
            sent_now.flight

  module _ (r : Runtime T) (len : ℕ) where
    -- The response is in flight, or the stream has landed.
    abbrev pub IsSettled : World (ConnectionRuntime T × T) → Type 0
    IsSettled w =
        IsAwaiting check_question i id before c t r len w
        ⊎ HasLanded check_question i id before c t w

    -- Aborts leave it so.
    pub peer_aborts-IsSettled :
        (n : ℕ) (w : World (ConnectionRuntime T × T))
        → IsSettled w
        → IsSettled (peer_aborts check_question i n w)
    unfolding peer_aborts
    peer_aborts-IsSettled zero w h = h
    peer_aborts-IsSettled (suc n) w (inl a) =
        peer_aborts-IsSettled n (slot_callback check_question i w aborted).0
          (inl (aborted-IsAwaiting r len w a))
    peer_aborts-IsSettled (suc n) w (inr h) =
        peer_aborts-IsSettled n (slot_callback check_question i w aborted).0
          (inr (aborted-HasLanded w h))

    -- Then the completion of the send, where one is in flight, lands the stream.
    pub close_send-HasLanded :
        (w : World (ConnectionRuntime T × T)) (canceled : Bool)
        → IsSettled w
        → HasLanded check_question i id before c t (close_send check_question i canceled w)
    close_send-HasLanded w canceled (inl a) =
        if_cases (HasLanded check_question i id before c t) w.adapter.send_in_flight
          (λ b. completed-HasLanded check_question i id before c t w r canceled len a)
          (λ b. absurd (let x = a.flight.flying in cc))
    close_send-HasLanded w canceled (inr h) =
        if_cases (HasLanded check_question i id before c t) w.adapter.send_in_flight
          (λ b. absurd (let x = h.idle.landed in cc)) (λ b. h)
