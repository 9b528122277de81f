-- ===== src/Tests/Queues.antt =====
-- Runs of shell/ism_event_queue.c.
use ism.Prelude.{◌-◌, ◌^◌, ◌<◌, ◌≡◌, ◌⊎◌, true, false, arith, none, some, [], ◌∷◌, ◌++◌}
use ism.Queue.{Queue, Event, tail, enqueue, dequeue}
use ism.Queue.Fifo
use ism.Queue.Fifo.{contents, slot, enqueue_lem, dequeue_lem, queue_init_lem}
use ism.Queue.Wrap.{tail_wrapped}
use ism.Queue.Dispatch.{dispatch_all, dispatch_one}
use ism.Queue.Dispatch.Laws.{Drains, dispatch_all_lem, Dispatches, dispatch_one_lem}
use ism.Tests.{
  zeros, any_question, busy_adapter, busy_adapter-IsValid, counting, reset_event, one_event,
  one_event-IsValid,
}

enqueue_lem_example :
    ((one_event.count ≡ one_event.capacity) × (enqueue one_event reset_event ≡ (one_event, false)))
    ⊎ ((one_event.count < one_event.capacity)
        × ((enqueue one_event reset_event).1 ≡ true)
        × Fifo.IsValid (enqueue one_event reset_event).0
        × (contents (enqueue one_event reset_event).0 ≡ contents one_event ++ (reset_event ∷ [])))
enqueue_lem_example = enqueue_lem one_event reset_event one_event-IsValid

dequeue_lem_example :
    ((contents one_event ≡ []) × (dequeue one_event ≡ (one_event, none)))
    ⊎ ((e : Event) × ((dequeue one_event).1 ≡ some e)
        × Fifo.IsValid (dequeue one_event).0
        × (contents one_event ≡ e ∷ contents (dequeue one_event).0))
dequeue_lem_example = dequeue_lem one_event one_event-IsValid

-- The largest capacity, of whose queue all but three places are taken.
abbrev huge_queue : Queue
huge_queue = record {
  has_events = true;
  events = λ i. reset_event;
  capacity = 2 ^ 32 - 1;
  head = 2 ^ 32 - 2;
  count = 2 ^ 32 - 4;
}

tail_wrapped_example :
    (huge_queue.count - (2 ^ 32 - huge_queue.capacity) < huge_queue.count)
    × (tail huge_queue ≡ slot huge_queue (huge_queue.count - (2 ^ 32 - huge_queue.capacity)))
tail_wrapped_example =
    tail_wrapped huge_queue (omega arith) (omega arith) (omega arith) (omega arith)

dispatch_one_lem_example :
    Dispatches any_question counting
      (λ p. zeros)
      (λ p i. omega arith)
      one_event
      busy_adapter
      0
      (dispatch_one any_question counting (λ p. zeros) one_event busy_adapter 0)
dispatch_one_lem_example =
    dispatch_one_lem any_question counting (λ p. zeros) (λ p i. omega arith) one_event busy_adapter
      0 one_event-IsValid busy_adapter-IsValid

dispatch_all_lem_example :
    Drains any_question counting
      (λ p. zeros)
      (λ p i. omega arith)
      3
      0
      one_event
      busy_adapter
      0
      (dispatch_all any_question counting (λ p. zeros) one_event busy_adapter 0 3)
dispatch_all_lem_example =
    dispatch_all_lem any_question counting (λ p. zeros) (λ p i. omega arith) one_event busy_adapter
      0 3 one_event-IsValid busy_adapter-IsValid
