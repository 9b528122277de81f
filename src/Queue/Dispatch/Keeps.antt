-- ===== src/Queue/Dispatch/Keeps.antt =====
-- What a dispatch does to the state of the send callback: it changes only by sends.
use ism.Prelude.{ℕ, ◌==◌, ◌&&◌, Bool, true, false, not, ◌<◌, inl, inr, sym, subst, if_cases, Bytes}
use ism.Table.{dispatch_authenticated_stream_data, on_authenticated_stream_fin}
use ism.Table.Ingress.{dispatch_authenticated_stream_data_lem, on_authenticated_stream_fin_lem}
use ism.Stream.{handle_stream_data, handle_stream_fin}
use ism.Worker.{QuestionCheck}
use ism.Adapter.{
  Adapter, Send, prepare_ready_response, answer_if, adapter_on_authenticated_stream_fin,
}
use ism.Adapter.Completion
use ism.Adapter.Sends.{prepare_ready_response-cases}
use ism.Adapter.Events.{with_connection-IsValid}
use ism.Queue.{
  Queue, Event, Kind, authenticated_stream_bytes, authenticated_stream_fin, ready_response,
  send_complete, stream_reset, dequeue,
}
use ism.Queue.Fifo.{IsValid, dequeue_lem}
use ism.Queue.Dispatch.{Heap, bytes_at, handle_kind, handle_event, dispatch_dequeued, dispatch_one}
use ism.Queue.Dispatch.Laws.{bytes_at-lt}

module _ {S : Type 0} (check_question : QuestionCheck) (send : Send S) (P : S → Type 0)
    (keeps : (s : S) (id : ℕ) (bytes : Bytes) (len : ℕ) (fin : Bool)
      → P s
      → P (send s id bytes len fin).0) where
  prepare_ready_response_keeps :
      (a : Adapter) (s : S) (id : ℕ)
      → Completion.IsValid a
      → P s
      → P (prepare_ready_response check_question send a s id).2
  prepare_ready_response_keeps a s id v h =
      elim (prepare_ready_response-cases check_question send a s id v) [
        | inl (b, e) ↦ subst (λ r. P r.2) (sym e) h
        | inr (i, inl q) ↦ subst P (sym q.same_state) h
        | inr (i, inr (inl q)) ↦ subst (λ x. P x.0) q.called (keeps s id q.bytes _ true h)
        | inr (i, inr (inr q)) ↦ subst (λ x. P x.0) q.called (keeps s id q.bytes q.len true h)
      ]

  answer_if_keeps :
      (b : Bool) (a : Adapter) (s : S) (id phase : ℕ)
      → Completion.IsValid a
      → P s
      → P (answer_if check_question send b a s id phase).2
  answer_if_keeps true a s id phase v h = prepare_ready_response_keeps a s id v h
  answer_if_keeps false a s id phase v h = h

  fin_keeps :
      (a : Adapter) (s : S) (id : ℕ)
      → Completion.IsValid a
      → P s
      → P (adapter_on_authenticated_stream_fin check_question send a s id).2
  unfolding adapter_on_authenticated_stream_fin
  fin_keeps a s id v h =
      let d = on_authenticated_stream_fin_lem a.connection id v.table in
      answer_if_keeps ((on_authenticated_stream_fin a.connection id).1 == 2 && not a.send_in_flight)
        (record a { connection = (on_authenticated_stream_fin a.connection id).0 }) s id
        (on_authenticated_stream_fin a.connection id).1
        (with_connection-IsValid a id handle_stream_fin
          (on_authenticated_stream_fin a.connection id) v d.0 d.1)
        h

  handle_kind_keeps :
      (heap : Heap)
      → ((p i : ℕ) → heap p i < 256)
      → (k : Kind) (e : Event) (a : Adapter) (s : S) → Completion.IsValid a
      → P s
      → P (handle_kind check_question send heap k e a s).2
  handle_kind_keeps heap o authenticated_stream_bytes e a s v h =
      let d =
        dispatch_authenticated_stream_data_lem a.connection e.stream_id (bytes_at heap e.bytes)
          e.len (bytes_at-lt check_question send heap o e.bytes) v.table in
      let b =
        with_connection-IsValid a e.stream_id
          (λ t. handle_stream_data t (bytes_at heap e.bytes) e.len)
          (dispatch_authenticated_stream_data a.connection e.stream_id (bytes_at heap e.bytes)
            e.len)
          v d.0 d.1 in
      if_cases {A = Bool × Adapter × S} (λ r. P r.2)
        ((dispatch_authenticated_stream_data a.connection e.stream_id (bytes_at heap e.bytes)
            e.len).1
          == 2)
        (λ x. prepare_ready_response_keeps _ s e.stream_id b h) (λ x. h)
  handle_kind_keeps heap o authenticated_stream_fin e a s v h = fin_keeps a s e.stream_id v h
  handle_kind_keeps heap o ready_response e a s v h =
      prepare_ready_response_keeps a s e.stream_id v h
  handle_kind_keeps heap o send_complete e a s v h = h
  handle_kind_keeps heap o stream_reset e a s v h = h

  handle_event_keeps :
      (heap : Heap)
      → ((p i : ℕ) → heap p i < 256)
      → (e : Event) (a : Adapter) (s : S) → Completion.IsValid a
      → P s
      → P (handle_event check_question send heap e a s).2
  unfolding handle_event
  handle_event_keeps heap o e a s v h = handle_kind_keeps heap o e.kind e a s v h

  -- A property of the state that sends keep is kept by a dispatch.
  pub dispatch_one_keeps :
      (heap : Heap)
      → ((p i : ℕ) → heap p i < 256)
      → (q : Queue) (a : Adapter) (s : S) → IsValid q
      → Completion.IsValid a
      → P s
      → P (dispatch_one check_question send heap q a s).3
  unfolding dispatch_one
  dispatch_one_keeps heap o q a s f v h = elim (dequeue_lem q f) [
    | inl (e, d) ↦ subst (λ r. P (dispatch_dequeued check_question send heap r a s).3) (sym d) h
    | inr (e, d, x, y) ↦
        subst (λ r. P (dispatch_dequeued check_question send heap ((dequeue q).0, r) a s).3) (sym d)
          (handle_event_keeps heap o e a s v h)
  ]
