-- ===== src/Runtime/Closing.antt =====
-- The end of a request in the callback of shell/msquic_runtime.c: the completion of its send, and
-- the shutdown of its stream.
use ism.Prelude.{
  ℕ, ◌≡◌, ◌∙◌, sym, ap, subst, inl, inr, Bool, true, false, not, ◌||◌, ◌==◌, if◌then◌else◌,
}
use ism.Worker.{QuestionCheck}
use ism.Table.{dispatch_stream_reset}
use ism.Table.Close.{Forgets}
use ism.Adapter.{Adapter, on_send_complete, on_stream_reset}
use ism.Adapter.Completion.{IsValid, IsIdle, IsBusy, InFlight, on_send_complete_lem}
use ism.Adapter.Events.{on_stream_reset_lem}
use ism.Adapter.Rooms.{HasRoom, on_send_complete-HasRoom, on_stream_reset-HasRoom}
use ism.Queue.{Queue, Event, enqueue, dequeue}
use ism.Queue.Dispatch.{handle_event}
use ism.Queue.Dispatch.Single.{IsEmpty, enqueue-dequeue}
use ism.Runtime.{
  Runtime, World, Host, Status, success, invalid_parameter, msquic_send_complete, shutdown_complete,
  runtime_of, with_runtime, clear_runtime_send, or_invalid_state, finish_send,
  runtime_on_send_complete, runtime_on_stream_reset, stream_callback,
}
use ism.Runtime.Steps.{
  IsReady, handled, complete_event, reset_of, runtime_on_send_complete-handled,
  runtime_on_stream_reset-handled,
}

-- What an event leaves that ends the stream: the queue is empty, the adapter is valid with nothing
-- in flight and the buffers it had, the table has forgotten the stream and no other, and the
-- callback has answered with a success.
pub record IsEnded {S : Type 0} (w : World S) (id : ℕ) (state : S) (r : World S × Status)
    : Type 0 where
  pub queue : Queue
  pub adapter : Adapter
  pub emptied : IsEmpty queue
  pub valid : IsValid adapter
  pub idle : IsIdle adapter
  pub room : HasRoom w.adapter → HasRoom adapter
  pub closed : Forgets w.adapter.connection id adapter.connection
  pub result : r ≡ (record w { queue = queue; adapter = adapter; state = state }, success)

-- A reset while nothing is in flight leaves it so.
IsIdle-reset : (a : Adapter) (id : ℕ) → IsIdle a → IsIdle (on_stream_reset a id).0
unfolding on_stream_reset
IsIdle-reset a id i =
    subst (λ (r : Adapter × Bool). IsIdle r.0)
      (sym (
        ap
          (λ b.
            if b
            then if not (a.send_stream_id == id)
              then (a, false)
              else on_send_complete a id a.send_len true
            else (
              record a { connection = (dispatch_stream_reset a.connection id).0 },
              (dispatch_stream_reset a.connection id).1 == 1,
            ))
          i.landed))
      (record { landed = i.landed; no_id = i.no_id; no_len = i.no_len })

module _ {S T : Type 0} (host : Host S T) (check_question : QuestionCheck)
    (get-set : (s : S) (r : Runtime T) → host.get (host.set s r) ≡ r) where
  -- The completion of the send in flight, whether it was cancelled or not, ends the stream.
  pub send_complete-IsEnded :
      (w : World S) (canceled : Bool)
      → IsReady host check_question w
      → IsValid w.adapter
      → InFlight w.adapter (runtime_of host w).stream_id (runtime_of host w).response_len
      → (runtime_of host w).send_in_flight ≡ true
      → IsEnded w
          (runtime_of host w).stream_id
          (host.set w.state (clear_runtime_send (runtime_of host w)))
          (stream_callback host check_question w (msquic_send_complete true canceled))
  unfolding stream_callback handle_event
  send_complete-IsEnded w canceled h v f g =
      elim (on_send_complete_lem w.adapter id len dropped v) [
        | inl (n, _) ↦ absurd (n f)
        | inr (_, d) ↦ record {
          queue = (dequeue (enqueue w.queue event).0).0;
          adapter = (on_send_complete w.adapter id len dropped).0;
          emptied = (enqueue-dequeue w.queue event h.emptied).2;
          valid = record { table = d.valid; state = inl d.idle };
          idle = d.idle;
          room = on_send_complete-HasRoom w.adapter id len dropped;
          closed = d.closed;
          result =
              reached
              ∙ ap
                  (λ ok. or_invalid_state (
                    record cleared {
                      queue = (dequeue (enqueue w.queue event).0).0;
                      adapter = (on_send_complete w.adapter id len dropped).0;
                    },
                    ok,
                  ))
                  d.accepted;
        }
      ]
    where
      r : Runtime T
      r = runtime_of host w

      id : ℕ
      id = r.stream_id

      len : ℕ
      len = r.response_len

      dropped : Bool
      dropped = canceled || r.reset_pending

      event : Event
      event = complete_event id len dropped

      cleared : World S
      cleared = with_runtime host w (clear_runtime_send r)

      there : runtime_of host cleared ≡ clear_runtime_send r
      there = get-set w.state (clear_runtime_send r)

      ready : IsReady host check_question cleared
      ready = record {
        adapter_there = ap (λ r. r.has_adapter) there ∙ h.adapter_there;
        queue_there = ap (λ r. r.has_queue) there ∙ h.queue_there;
        emptied = h.emptied;
      }

      reached :
          stream_callback host check_question w (msquic_send_complete true canceled)
          ≡ or_invalid_state (handled host check_question cleared event)
      reached =
          ap
            (λ b.
              if not b then (w, invalid_parameter) else finish_send host check_question w canceled)
            g
          ∙ ap
              (λ b.
                if b
                then or_invalid_state
                    (runtime_on_send_complete host check_question cleared len dropped)
                else (cleared, success))
              f.flying
          ∙ ap or_invalid_state (
              runtime_on_send_complete-handled host check_question cleared len dropped ready
              ∙ ap
                  (λ r.
                    handled host check_question cleared (complete_event r.stream_id len dropped))
                  there)

  -- The shutdown of a stream while nothing is in flight ends it.
  pub shutdown_complete-IsEnded :
      (w : World S)
      → IsReady host check_question w
      → IsValid w.adapter
      → IsIdle w.adapter
      → (runtime_of host w).send_in_flight ≡ false
      → IsEnded w
          (runtime_of host w).stream_id
          w.state
          (stream_callback host check_question w shutdown_complete)
  unfolding stream_callback handle_event
  shutdown_complete-IsEnded w h v i g =
      let (x, c) = on_stream_reset_lem w.adapter id v in
      elim c [
        | inl (_, ok, forgets) ↦ record {
          queue = (dequeue (enqueue w.queue (reset_of id)).0).0;
          adapter = (on_stream_reset w.adapter id).0;
          emptied = (enqueue-dequeue w.queue (reset_of id) h.emptied).2;
          valid = x;
          idle = IsIdle-reset w.adapter id i;
          room = on_stream_reset-HasRoom w.adapter id;
          closed = forgets;
          result =
              ap
                (λ b.
                  if b
                  then (
                    with_runtime host w (record (runtime_of host w) { reset_pending = true }),
                    success,
                  )
                  else or_invalid_state (runtime_on_stream_reset host check_question w))
                g
              ∙ ap or_invalid_state (runtime_on_stream_reset-handled host check_question w h)
              ∙ ap
                  (λ ok. or_invalid_state (
                    record w {
                      queue = (dequeue (enqueue w.queue (reset_of id)).0).0;
                      adapter = (on_stream_reset w.adapter id).0;
                    },
                    ok,
                  ))
                  ok;
        }
        | inr (inl (b, _, _)) ↦ absurd (busy b)
        | inr (inr (b, _, _)) ↦ absurd (busy b)
      ]
    where
      id : ℕ
      id = (runtime_of host w).stream_id

      busy : IsBusy w.adapter → ⊥
      busy b = let x = b.flight.flying in let y = i.landed in cc
