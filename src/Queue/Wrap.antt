-- ===== src/Queue/Wrap.antt =====
-- Capacities above 2^31: there the sum in `ism_shell_event_queue_enqueue` of
-- shell/ism_event_queue.c can wrap in `uint32_t`, before the capacity is taken off.
use ism.Prelude.{◌+◌, ◌-◌, ◌^◌, ◌≤◌, ◌<◌, ◌≡◌, arith}
use ism.Queue.{Queue, tail}
use ism.Queue.Fifo.{slot}

-- Where `head + count` wraps, the next event is written over one that is still queued.
pub tail_wrapped :
    (q : Queue)
    → q.capacity < 2 ^ 32
    → q.head < q.capacity
    → q.count < q.capacity
    → 2 ^ 32 ≤ q.head + q.count
    → (q.count - (2 ^ 32 - q.capacity) < q.count)
      × (tail q ≡ slot q (q.count - (2 ^ 32 - q.capacity)))
unfolding tail
tail_wrapped q c h n w = (omega arith, ground arith)
