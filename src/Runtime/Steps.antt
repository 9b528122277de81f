-- ===== src/Runtime/Steps.antt =====
-- The calls of shell/msquic_runtime.c while the queue is empty, as it is between two callbacks:
-- each takes its event through the queue to the adapter.
use ism.Prelude.{
  ℕ, ◌≤◌, ◌≡◌, ◌∙◌, ap, arith, Bool, true, false, not, ltb, ◌==◌, ◌&&◌, ◌||◌, none, some, Bytes,
  if◌then◌else◌,
}
use ism.Worker.{QuestionCheck}
use ism.Queue.{
  Event, enqueue, dequeue, enqueue_authenticated_stream_bytes, enqueue_authenticated_stream_fin,
  enqueue_stream_reset, enqueue_send_complete, authenticated_stream_bytes, send_complete,
  authenticated_stream_fin, stream_reset,
}
use ism.Queue.Dispatch.{handle_event, dispatch_one}
use ism.Queue.Dispatch.Single.{IsEmpty, enqueue-dequeue, enqueue-dispatch_one}
use ism.Runtime.{
  World, Host, runtime_of, then_dispatch, settled, is_attached, runtime_on_stream_reset,
  runtime_on_send_complete, on_fin, fin_received, stored, copy_input, copy_enqueue_and_dispatch,
}

-- The event of a reset.
abbrev pub reset_of : ℕ → Event
reset_of id = record { kind = stream_reset; stream_id = id; bytes = none; len = 0; dropped = true }

-- The event of the bytes at `p`.
abbrev pub bytes_of : ℕ → ℕ → ℕ → Event
bytes_of id p len = record {
  kind = authenticated_stream_bytes;
  stream_id = id;
  bytes = some p;
  len = len;
  dropped = false;
}

-- The event of FIN.
abbrev pub fin_event : ℕ → Event
fin_event id = record {
  kind = authenticated_stream_fin;
  stream_id = id;
  bytes = none;
  len = 0;
  dropped = false;
}

-- The event of a finished send.
abbrev pub complete_event : ℕ → ℕ → Bool → Event
complete_event id len dropped = record {
  kind = send_complete;
  stream_id = id;
  bytes = none;
  len = len;
  dropped = dropped;
}

module _ {S T : Type 0} (host : Host S T) (check_question : QuestionCheck) where
  -- The runtime has its adapter and its queue, which is empty.
  pub record IsReady (w : World S) : Type 0 where
    pub adapter_there : (runtime_of host w).has_adapter ≡ true
    pub queue_there : (runtime_of host w).has_queue ≡ true
    pub emptied : IsEmpty w.queue

  -- The world after an event is handled, with its answer.
  abbrev pub handled : World S → Event → World S × Bool
  handled w e =
      let (ok, a, s) = handle_event check_question host.send w.heap e w.adapter w.state in
      (record w { queue = (dequeue (enqueue w.queue e).0).0; adapter = a; state = s }, ok)

  pub enqueue-then_dispatch :
      (w : World S) (e : Event)
      → IsReady w
      → then_dispatch host check_question w (enqueue w.queue e) ≡ handled w e
  enqueue-then_dispatch w e h =
      ap (λ b. then_dispatch host check_question w ((enqueue w.queue e).0, b))
        (enqueue-dequeue w.queue e h.emptied).0
      ∙ ap
          (λ b.
            if b
            then settled host check_question w (
                dispatch_one check_question host.send w.heap (enqueue w.queue e).0 w.adapter
                  w.state)
            else (record w { queue = (enqueue w.queue e).0 }, false))
          h.adapter_there
      ∙ ap (settled host check_question w) (
          enqueue-dispatch_one check_question host.send w.heap w.queue e w.adapter w.state
            h.emptied)

  attached : (w : World S) → IsReady w → is_attached host check_question w ≡ true
  attached w h = ground (arith, h.adapter_there, h.queue_there)

  pub runtime_on_stream_reset-handled :
      (w : World S)
      → IsReady w
      → runtime_on_stream_reset host check_question w
        ≡ handled w (reset_of (runtime_of host w).stream_id)
  unfolding runtime_on_stream_reset enqueue_stream_reset
  runtime_on_stream_reset-handled w h =
      ap
        (λ b.
          if b
          then then_dispatch host check_question w
              (enqueue w.queue (reset_of (runtime_of host w).stream_id))
          else (w, false))
        (attached w h)
      ∙ enqueue-then_dispatch w (reset_of (runtime_of host w).stream_id) h

  -- Bytes that fit, while FIN has not come, go by the ingress buffer.
  pub copy_enqueue_and_dispatch-handled :
      (w : World S) (p : ℕ) (bytes : Bytes) (len : ℕ)
      → IsReady w
      → (runtime_of host w).ingress_buffer ≡ some p
      → len ≤ (runtime_of host w).ingress_capacity
      → (runtime_of host w).received_fin ≡ false
      → copy_enqueue_and_dispatch host check_question w (some bytes) len
        ≡ handled
            (stored host check_question w p bytes len)
            (bytes_of (runtime_of host w).stream_id p len)
  unfolding copy_enqueue_and_dispatch enqueue_authenticated_stream_bytes
  copy_enqueue_and_dispatch-handled w p bytes len h i l f =
      ap
        (λ x. elim x as (λ x. World S × Bool) [
          | none ↦ (w, false)
          | some p ↦ copy_input host check_question w p (some bytes) len
        ])
        i
      ∙ ap
          (λ b.
            if b
            then (w, false)
            else if (runtime_of host w).has_queue
            then taken
            else (stored host check_question w p bytes len, false))
          passes
      ∙ ap (λ b. if b then taken else (stored host check_question w p bytes len, false))
          h.queue_there
      ∙ enqueue-then_dispatch (stored host check_question w p bytes len)
          (bytes_of (runtime_of host w).stream_id p len)
          (record {
            adapter_there = h.adapter_there;
            queue_there = h.queue_there;
            emptied = h.emptied;
          })
    where
      taken : World S × Bool
      taken =
          then_dispatch host check_question (stored host check_question w p bytes len)
            (enqueue_authenticated_stream_bytes w.queue (runtime_of host w).stream_id (some p) len)

      passes :
          (ltb (runtime_of host w).ingress_capacity len
            || ((runtime_of host w).has_queue && not (w.queue.count == 0)
                || (runtime_of host w).received_fin && ltb 0 len))
          ≡ false
      passes = ground (arith, h.emptied.no_events, f, l)

  pub on_fin-handled :
      (w : World S)
      → IsReady w
      → (runtime_of host w).received_fin ≡ false
      → on_fin host check_question w
        ≡ fin_received host check_question (handled w (fin_event (runtime_of host w).stream_id))
  unfolding on_fin enqueue_authenticated_stream_fin
  on_fin-handled w h f =
      ap
        (λ b.
          if not b
          then (w, false)
          else if (runtime_of host w).received_fin
          then (w, true)
          else first)
        (attached w h)
      ∙ ap (λ b. if b then (w, true) else first) f
      ∙ ap (λ n. if not (n == 0) then (w, false) else fin_received host check_question taken)
          h.emptied.no_events
      ∙ ap (fin_received host check_question)
          (enqueue-then_dispatch w (fin_event (runtime_of host w).stream_id) h)
    where
      taken : World S × Bool
      taken =
          then_dispatch host check_question w
            (enqueue_authenticated_stream_fin w.queue (runtime_of host w).stream_id)

      first : World S × Bool
      first =
          if not (w.queue.count == 0) then (w, false) else fin_received host check_question taken

  pub runtime_on_send_complete-handled :
      (w : World S) (len : ℕ) (dropped : Bool)
      → IsReady w
      → runtime_on_send_complete host check_question w len dropped
        ≡ handled w (complete_event (runtime_of host w).stream_id len dropped)
  unfolding runtime_on_send_complete enqueue_send_complete
  runtime_on_send_complete-handled w len dropped h =
      ap
        (λ b.
          if b
          then then_dispatch host check_question w
              (enqueue w.queue (complete_event (runtime_of host w).stream_id len dropped))
          else (w, false))
        (attached w h)
      ∙ enqueue-then_dispatch w (complete_event (runtime_of host w).stream_id len dropped) h
