-- ===== src/Queue.antt =====
-- The event queue of the shell: the ring of shell/ism_event_queue.c over the structs of
-- shell/ism_event_queue.h. The ring is modelled apart from its dispatch, which `Dispatch` has.
pub mod Fifo
pub mod Wrap
pub mod Dispatch
use ism.Prelude.{
  ℕ, zero, suc, ◌+◌, ◌-◌, Bool, true, false, not, ltb, leb, ◌==◌, ◌&&◌, ◌||◌, if◌then◌else◌, Option,
  none, some, update, add_u32,
}

-- `ism_shell_event_kind`.
pub data Kind : Type 0 where
  authenticated_stream_bytes ready_response send_complete stream_reset : Kind
  authenticated_stream_fin : Kind

-- `ism_shell_event`; `bytes` is the pointer `data`, the number of a buffer of the heap or NULL.
pub record Event : Type 0 where
  pub kind : Kind
  pub stream_id : ℕ
  pub bytes : Option ℕ
  pub len : ℕ
  pub dropped : Bool

-- `ism_shell_event_queue`; `has_events` says that the pointer `events` is not NULL.
pub record Queue : Type 0 where
  pub has_events : Bool
  pub events : ℕ → Event
  pub capacity : ℕ
  pub head : ℕ
  pub count : ℕ

unfoldable pub has_storage : Queue → Bool
has_storage q = q.has_events && ltb 0 q.capacity

-- The index behind the last event, in `uint32_t`.
unfoldable pub tail : Queue → ℕ
tail q =
    if leb q.capacity (add_u32 q.head q.count)
    then add_u32 q.head q.count - q.capacity
    else add_u32 q.head q.count

unfoldable pub enqueue : Queue → Event → Queue × Bool
unfolding has_storage
enqueue q e =
    if not (has_storage q) || leb q.capacity q.count
    then (q, false)
    else (record q { events = update q.events (tail q) e; count = add_u32 q.count 1 }, true)

unfoldable pub queue_init : Bool → (ℕ → Event) → ℕ → Queue
queue_init has_events events capacity = record {
  has_events = has_events;
  events = events;
  capacity = capacity;
  head = 0;
  count = 0;
}

abbrev is_null : Option ℕ → Bool
is_null none = true
is_null (some p) = false

unfoldable pub enqueue_authenticated_stream_bytes : Queue → ℕ → Option ℕ → ℕ → Queue × Bool
enqueue_authenticated_stream_bytes q id bytes len =
    if is_null bytes && ltb 0 len
    then (q, false)
    else enqueue q (record {
      kind = authenticated_stream_bytes;
      stream_id = id;
      bytes = bytes;
      len = len;
      dropped = false;
    })

unfoldable pub enqueue_authenticated_stream_fin : Queue → ℕ → Queue × Bool
enqueue_authenticated_stream_fin q id = enqueue q (record {
  kind = authenticated_stream_fin;
  stream_id = id;
  bytes = none;
  len = 0;
  dropped = false;
})

unfoldable pub enqueue_ready_response : Queue → ℕ → Queue × Bool
enqueue_ready_response q id =
    enqueue q
      (record { kind = ready_response; stream_id = id; bytes = none; len = 0; dropped = false })

unfoldable pub enqueue_send_complete : Queue → ℕ → ℕ → Bool → Queue × Bool
enqueue_send_complete q id response_len dropped = enqueue q (record {
  kind = send_complete;
  stream_id = id;
  bytes = none;
  len = response_len;
  dropped = dropped;
})

unfoldable pub enqueue_stream_reset : Queue → ℕ → Queue × Bool
enqueue_stream_reset q id =
    enqueue q
      (record { kind = stream_reset; stream_id = id; bytes = none; len = 0; dropped = true })

unfoldable pub dequeue : Queue → Queue × Option Event
unfolding has_storage
dequeue q = if not (has_storage q) || q.count == 0 then (q, none) else (
  record q {
    head = if leb q.capacity (add_u32 q.head 1) then 0 else add_u32 q.head 1;
    count = q.count - 1;
  },
  some (q.events q.head),
)
