-- ===== src/Queue/Dispatch/Laws.antt =====
-- What the dispatch does to the queue and to the adapter's invariant.
use ism.Prelude.{
  zero, suc, ◌+◌, ◌∙◌, ap, arith, ltb, List, ℕ, ◌<◌, ◌≡◌, ◌⊎◌, inl, inr, sym, subst, refl, Bool,
  false, arith, ◌==◌, if_cases, if◌then◌else◌, tabulate, true, Option, none, some, [], ◌∷◌,
}
use ism.Stream.{handle_stream_data}
use ism.Table.{dispatch_authenticated_stream_data}
use ism.Table.Ingress.{dispatch_authenticated_stream_data_lem}
use ism.Worker.{QuestionCheck}
use ism.Adapter.{Adapter, Send}
use ism.Adapter.Completion
use ism.Adapter.Events.{
  with_connection-IsValid, prepare_ready_response-IsValid,
  adapter_on_authenticated_stream_fin-IsValid, on_send_complete-IsValid, on_stream_reset_lem,
}
use ism.Queue.{
  Queue, Event, Kind, authenticated_stream_bytes, authenticated_stream_fin, ready_response,
  send_complete, stream_reset, dequeue,
}
use ism.Queue.Fifo.{IsValid, contents, slot, dequeue_lem}
use ism.Queue.Dispatch.{
  Heap, bytes_at, handle_kind, handle_event, dispatch_dequeued, dispatch_one, dispatch_from,
  dispatch_all,
}

-- A queue without contents has no events.
contents-empty : (q : Queue) → contents q ≡ [] → q.count ≡ 0
contents-empty q e = counted q.count (λ k. q.events (slot q k)) e
  where
    counted : (n : ℕ) (a : ℕ → Event) → tabulate n a ≡ [] → n ≡ 0
    counted zero a e = refl
    counted (suc n) a e = cc

module _ {S : Type 0} (check_question : QuestionCheck) (send : Send S) (heap : Heap)
    (octets : (p i : ℕ) → heap p i < 256) where
  pub bytes_at-lt : (p : Option ℕ) (i : ℕ) → bytes_at heap p i < 256
  bytes_at-lt none i = omega arith
  bytes_at-lt (some p) i = octets p i

  -- Handling any event keeps the adapter valid.
  handle_kind-IsValid :
      (k : Kind) (e : Event) (a : Adapter) (s : S)
      → Completion.IsValid a
      → Completion.IsValid (handle_kind check_question send heap k e a s).1
  handle_kind-IsValid authenticated_stream_bytes e a s v =
      let d =
        dispatch_authenticated_stream_data_lem a.connection e.stream_id (bytes_at heap e.bytes)
          e.len (bytes_at-lt e.bytes) v.table in
      let b =
        with_connection-IsValid a e.stream_id
          (λ t. handle_stream_data t (bytes_at heap e.bytes) e.len)
          (dispatch_authenticated_stream_data a.connection e.stream_id (bytes_at heap e.bytes)
            e.len)
          v d.0 d.1 in
      if_cases {A = Bool × Adapter × S} (λ r. Completion.IsValid r.1)
        ((dispatch_authenticated_stream_data a.connection e.stream_id (bytes_at heap e.bytes)
            e.len).1
          == 2)
        (λ x. prepare_ready_response-IsValid check_question send _ s e.stream_id b) (λ x. b)
  handle_kind-IsValid authenticated_stream_fin e a s v =
      (adapter_on_authenticated_stream_fin-IsValid check_question send a s e.stream_id v).0
  handle_kind-IsValid ready_response e a s v =
      prepare_ready_response-IsValid check_question send a s e.stream_id v
  handle_kind-IsValid send_complete e a s v =
      on_send_complete-IsValid a e.stream_id e.len e.dropped v
  handle_kind-IsValid stream_reset e a s v = (on_stream_reset_lem a e.stream_id v).0

  handle_event-IsValid :
      (e : Event) (a : Adapter) (s : S)
      → Completion.IsValid a
      → Completion.IsValid (handle_event check_question send heap e a s).1
  unfolding handle_event
  handle_event-IsValid e a s w = handle_kind-IsValid e.kind e a s w

  -- What one dispatch promises of what it returns.
  abbrev pub Dispatches : Queue → Adapter → S → Bool × Queue × Adapter × S → Type 0
  Dispatches q a s r =
      IsValid r.1
      × Completion.IsValid r.2
      × (((contents q ≡ []) × (r ≡ (false, q, a, s)))
          ⊎ ((e : Event) × (contents q ≡ e ∷ contents r.1)
              × (◌≡◌ {A = Bool × Adapter × S} (r.0, r.2, r.3)
                  (handle_event check_question send heap e a s))))

  -- One dispatch of an empty queue does nothing and fails. Otherwise it takes the oldest event,
  -- and no other, off the queue, and hands it to its handler, whose answer it returns. The queue
  -- and the adapter stay valid.
  pub dispatch_one_lem :
      (q : Queue) (a : Adapter) (s : S)
      → IsValid q
      → Completion.IsValid a
      → Dispatches q a s (dispatch_one check_question send heap q a s)
  unfolding dispatch_one
  dispatch_one_lem q a s v w = elim (dequeue_lem q v) [
    | inl (e, d) ↦
        subst (λ r. Dispatches q a s (dispatch_dequeued check_question send heap r a s)) (sym d)
          (v, w, inl (e, refl))
    | inr (e, d, x, y) ↦
        subst
          (λ o.
            Dispatches q a s (dispatch_dequeued check_question send heap ((dequeue q).0, o) a s))
          (sym d) (x, handle_event-IsValid e a s w, inr (e, y, refl))
  ]

  -- The reference: the events of a list are handled in order, at most `max` of them, until one
  -- fails, which is gone all the same but not counted. The count starts at `handled`.
  abbrev pub drain : ℕ → ℕ → List Event → Adapter → S → ℕ × List Event × Adapter × S
  drain zero handled es a s = (handled, es, a, s)
  drain (suc max) handled [] a s = (handled, [], a, s)
  drain (suc max) handled (e ∷ es) a s =
      let (ok, a', s') = handle_event check_question send heap e a s in
      let rest = drain max (handled + 1) es a' s' in if ok then rest else (handled, es, a', s')

  -- What a run of dispatches promises of what it returns: it does what the reference does with the
  -- contents of the queue.
  abbrev pub Drains : ℕ → ℕ → Queue → Adapter → S → ℕ × Queue × Adapter × S → Type 0
  Drains max handled q a s r =
      IsValid r.1
      × Completion.IsValid r.2
      × (◌≡◌ {A = ℕ × List Event × Adapter × S} (r.0, contents r.1, r.2, r.3)
          (drain max handled (contents q) a s))

  empty-drain :
      (max handled : ℕ) (es : List Event) (a : Adapter) (s : S)
      → es ≡ []
      → drain max handled es a s ≡ (handled, es, a, s)
  empty-drain zero handled es a s e = refl
  empty-drain (suc max) handled es a s e =
      subst (λ es. drain (suc max) handled es a s ≡ (handled, es, a, s)) (sym e) refl

  dispatch_from-Drains :
      (max handled : ℕ) (q : Queue) (a : Adapter) (s : S)
      → IsValid q
      → Completion.IsValid a
      → Drains max handled q a s (dispatch_from check_question send heap max handled q a s)
  unfolding dispatch_from
  dispatch_from-Drains zero handled q a s v w = (v, w, refl)
  dispatch_from-Drains (suc max) handled q a s v w =
      if_cases (Drains (suc max) handled q a s) (ltb 0 q.count)
        (λ e.
          some_events (λ x y. dispatch_from-Drains max (handled + 1) one.1 one.2 one.3 x y)
            (dispatch_one_lem q a s v w) e)
        (λ e. (v, w, sym (empty-drain (suc max) handled (contents q) a s (none_there e))))
    where
      none_there : ltb 0 q.count ≡ false → contents q ≡ []
      none_there e = ap (λ n. tabulate n (λ k. q.events (slot q k))) (no_events e)
        where
          no_events : ltb 0 q.count ≡ false → q.count ≡ 0
          no_events e = ground (arith, e)

      one : Bool × Queue × Adapter × S
      one = dispatch_one check_question send heap q a s

      rest : ℕ × Queue × Adapter × S
      rest = dispatch_from check_question send heap max (handled + 1) one.1 one.2 one.3

      some_events :
          (IsValid one.1
            → Completion.IsValid one.2
            → Drains max (handled + 1) one.1 one.2 one.3 rest)
          → Dispatches q a s one
          → ltb 0 q.count ≡ true
          → Drains (suc max) handled q a s (if one.0 then rest else (handled, one.1, one.2, one.3))
      some_events next (x, y, inl (c, e)) l =
          absurd (let n = contents-empty q c in ground (arith, l, n))
      some_events next (x, y, inr (e, c, h)) l =
          if_cases (Drains (suc max) handled q a s) one.0
            (λ ok.
              let (p, t, r) = next x y in
              (
                p,
                t,
                r
                    ∙ sym (ap chosen (sym h) ∙ ap (λ b. if b then after else stopped) ok)
                    ∙ sym unfolded,
              ))
            (λ no. (
              x,
              y,
              sym (ap chosen (sym h) ∙ ap (λ b. if b then after else stopped) no) ∙ sym unfolded,
            ))
        where
          after : ℕ × List Event × Adapter × S
          after = drain max (handled + 1) (contents one.1) one.2 one.3

          stopped : ℕ × List Event × Adapter × S
          stopped = (handled, contents one.1, one.2, one.3)

          chosen : Bool × Adapter × S → ℕ × List Event × Adapter × S
          chosen (ok, a', s') =
              if ok
              then drain max (handled + 1) (contents one.1) a' s'
              else (handled, contents one.1, a', s')

          unfolded :
              drain (suc max) handled (contents q) a s
              ≡ chosen (handle_event check_question send heap e a s)
          unfolded = ap (λ es. drain (suc max) handled es a s) c

  -- Dispatching up to `max` events does what the reference does with the list of the queue's
  -- contents: the oldest events are handled in order, at most `max`, until one fails, which is off
  -- the queue as well but not counted; the number of those that succeeded is returned, and the other
  -- events stay in their order. The queue and the adapter stay valid.
  pub dispatch_all_lem :
      (q : Queue) (a : Adapter) (s : S) (max : ℕ)
      → IsValid q
      → Completion.IsValid a
      → Drains max 0 q a s (dispatch_all check_question send heap q a s max)
  unfolding dispatch_all
  dispatch_all_lem q a s max v w = dispatch_from-Drains max 0 q a s v w
