-- ===== src/Queue/Dispatch/Single.antt =====
-- An event that is enqueued into an empty queue and dispatched at once, as the runtimes use
-- shell/ism_event_queue.c: it is handled, and the queue is empty again.
use ism.Prelude.{
  ℕ, zero, suc, ◌≡◌, ◌∙◌, ap, refl, arith, inl, inr, true, some, [], ◌∷◌, ◌++◌, tabulate,
}
use ism.Worker.{QuestionCheck}
use ism.Adapter.{Adapter, Send}
use ism.Queue.{Queue, Event, enqueue, dequeue}
use ism.Queue.Fifo.{IsValid, contents, slot, enqueue_lem, dequeue_lem}
use ism.Queue.Dispatch.{Heap, handle_event, dispatch_dequeued, dispatch_one}

-- The queue is valid and holds no event.
pub record IsEmpty (q : Queue) : Type 0 where
  pub valid : IsValid q
  pub no_events : q.count ≡ 0

IsEmpty-contents : (q : Queue) → IsEmpty q → contents q ≡ []
IsEmpty-contents q h = ap (λ n. tabulate n (λ k. q.events (slot q k))) h.no_events

contents-count : (q : Queue) → contents q ≡ [] → q.count ≡ 0
contents-count q e = go q.count e
  where
    go : (n : ℕ) → tabulate n (λ k. q.events (slot q k)) ≡ [] → n ≡ 0
    go zero e = refl
    go (suc n) e = absurd cc

-- What is enqueued into an empty queue is what comes off it.
pub enqueue-dequeue :
    (q : Queue) (e : Event)
    → IsEmpty q
    → ((enqueue q e).1 ≡ true)
      × ((dequeue (enqueue q e).0).1 ≡ some e)
      × IsEmpty (dequeue (enqueue q e).0).0
enqueue-dequeue q e h = elim (enqueue_lem q e h.valid) [
  | inl (full, x) ↦ absurd (omega (arith, h.no_events, h.valid.capacity_pos))
  | inr (l, taken, v, c) ↦
      let (x, y) = off v (c ∙ ap (λ l. l ++ (e ∷ [])) (IsEmpty-contents q h)) in (taken, x, y)
]
  where
    off :
        IsValid (enqueue q e).0
        → contents (enqueue q e).0 ≡ e ∷ []
        → ((dequeue (enqueue q e).0).1 ≡ some e) × IsEmpty (dequeue (enqueue q e).0).0
    off v c = elim (dequeue_lem (enqueue q e).0 v) [
      | inl (n, x) ↦ absurd cc
      | inr (f, t, k, d) ↦
          (t ∙ cc, record { valid = k; no_events = contents-count (dequeue (enqueue q e).0).0 cc })
    ]

-- It is handled by the dispatch that follows.
pub enqueue-dispatch_one :
    {S : Type 0} (check_question : QuestionCheck) (send : Send S) (heap : Heap) (q : Queue)
    (e : Event) (a : Adapter) (s : S)
    → IsEmpty q
    → dispatch_one check_question send heap (enqueue q e).0 a s ≡ (
        let (ok, a', s') = handle_event check_question send heap e a s in
        (ok, (dequeue (enqueue q e).0).0, a', s'))
unfolding dispatch_one
enqueue-dispatch_one check_question send heap q e a s h =
    ap (λ x. dispatch_dequeued check_question send heap ((dequeue (enqueue q e).0).0, x) a s)
      (enqueue-dequeue q e h).1
