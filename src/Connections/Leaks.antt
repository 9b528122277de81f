-- ===== src/Connections/Leaks.antt =====
-- A stream that shuts down while the response of another is in flight, in
-- `ism_msquic_connection_runtime_stream_callback` of shell/msquic_connection_runtime.c.
use ism.Prelude.{ℕ, ◌≡◌, ◌≢◌, ◌∙◌, ap, inl, inr, Bool, true, false, if◌then◌else◌}
use ism.Worker.{QuestionCheck}
use ism.Adapter.{Adapter, on_stream_reset}
use ism.Adapter.Completion.{IsValid}
use ism.Adapter.Events.{on_stream_reset_lem}
use ism.Queue.{Queue, enqueue, dequeue}
use ism.Queue.Dispatch.{handle_event}
use ism.Queue.Dispatch.Single.{IsEmpty, enqueue-dequeue}
use ism.Runtime.{
  World, invalid_state, success, shutdown_complete, or_invalid_state, runtime_of,
  runtime_on_stream_reset, stream_callback,
}
use ism.Runtime.Steps.{IsReady, reset_of, runtime_on_stream_reset-handled}
use ism.Connections.{ConnectionRuntime, slot_host, slot_callback, release_after}

-- A reset of a stream other than that of the send in flight is refused.
refused_reset :
    (a : Adapter) (id : ℕ)
    → IsValid a
    → a.send_in_flight ≡ true
    → a.send_stream_id ≢ id
    → on_stream_reset a id ≡ (a, false)
refused_reset a id v f n = elim (on_stream_reset_lem a id v).1 [
  | inl (i, _, _) ↦ absurd (let x = i.landed in cc)
  | inr (inl (b, e, _)) ↦ absurd (n e)
  | inr (inr (b, e, q)) ↦ q
]

-- The slot of a stream that MsQuic shuts down while the send of another stream is in flight is not
-- released: the callback answers with QUIC_STATUS_INVALID_STATE, and apart from the queue, which
-- is empty again, nothing changes, neither the slots, nor the stream's place in the table, nor
-- MsQuic, whose handle of the stream is not closed.
pub shutdown_complete-refused :
    {T : Type 0} (check_question : QuestionCheck) (i : ℕ) (w : World (ConnectionRuntime T × T))
    → IsReady (slot_host i) check_question w
    → IsValid w.adapter
    → w.adapter.send_in_flight ≡ true
    → w.adapter.send_stream_id ≢ (runtime_of (slot_host i) w).stream_id
    → (runtime_of (slot_host i) w).send_in_flight ≡ false
    → (q : Queue) × IsEmpty q
      × (slot_callback check_question i w shutdown_complete
          ≡ (record w { queue = q }, invalid_state))
unfolding slot_callback stream_callback handle_event
shutdown_complete-refused check_question i w h v f n l =
    let id = (runtime_of (slot_host i) w).stream_id in
    let q = (dequeue (enqueue w.queue (reset_of id)).0).0 in
    (
      q,
      (enqueue-dequeue w.queue (reset_of id) h.emptied).2,
      ap
            (λ b. release_after i shutdown_complete (
              if b
              then (
                record w {
                  state =
                      (slot_host i).set w.state
                        (record (runtime_of (slot_host i) w) { reset_pending = true });
                },
                success,
              )
              else or_invalid_state (runtime_on_stream_reset (slot_host i) check_question w)))
            l
          ∙ ap (λ r. release_after i shutdown_complete (or_invalid_state r))
              (runtime_on_stream_reset-handled (slot_host i) check_question w h)
          ∙ ap
              (λ (r : Adapter × Bool).
                release_after i shutdown_complete
                  (or_invalid_state (record w { queue = q; adapter = r.0 }, r.1)))
              (refused_reset w.adapter id v f n),
    )
