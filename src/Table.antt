-- ===== src/Table.antt =====
-- The stream table of one connection: shell/ism_shell.c over the slots of shell/ism_shell.h,
-- with `close_stream` of src/transport/DNS.QUIC.Multiplexer.fst, which it calls.
-- A pointer to a stream context is the index of the slot that the context stands in; a number
-- of `max_streams` or more stands for a pointer to none of them, such as NULL. `sc_buf` always
-- points to the slot's own message buffer, so a context holds those bytes.
pub mod Find
pub mod Valid
pub mod Open
pub mod Close
pub mod Ingress
use ism.Prelude.{
  ℕ, zero, suc, ◌+◌, ◌-◌, ◌≡◌, Bool, true, false, not, ltb, leb, ◌==◌, ◌&&◌, ◌||◌, if◌then◌else◌,
  Option, none, some, Bytes, update, add_u32,
}
use ism.Stream.{
  Stream, Phase, reading_length, done, handle_stream_data, handle_stream_fin, shell_phase_code,
}

abbrev pub max_streams : ℕ
max_streams = 4

-- `ism_shell_stream`.
pub record Slot : Type 0 where
  pub ctx : Stream
  pub open ctx use *
  pub active : Bool

-- `ism_shell_connection`: `order` is `active`, to which `cc_active` always points.
pub record Connection : Type 0 where
  pub order : ℕ → ℕ
  pub num : ℕ
  pub capacity : ℕ
  pub streams : ℕ → Slot

unfoldable pub reset_stream : Slot → Slot
reset_stream s = record s { ctx = record s.ctx { id = 0; phase = reading_length }; active = false }

-- `cc_active[i] == stream` for one of the `k` indices from `i` on.
unfoldable pub active_ptr_from : Connection → ℕ → ℕ → ℕ → Bool
active_ptr_from c stream zero i = false
active_ptr_from c stream (suc k) i =
    let rest = active_ptr_from c stream k (i + 1) in if c.order i == stream then true else rest

unfoldable pub stream_is_active_ptr : Connection → ℕ → Bool
stream_is_active_ptr c stream = active_ptr_from c stream c.num 0

unfoldable pub sync_slot : Connection → ℕ → Connection
sync_slot c i = record c {
  streams = update c.streams i (
      if stream_is_active_ptr c i
      then record (c.streams i) { active = true }
      else reset_stream (c.streams i));
}

unfoldable pub sync_from : Connection → ℕ → ℕ → Connection
sync_from c zero i = c
sync_from c (suc k) i = sync_from (sync_slot c i) k (i + 1)

unfoldable pub sync_stream_slots : Connection → Connection
sync_stream_slots c = sync_from c max_streams 0

-- The memory of a connection after `memset(conn, 0, sizeof *conn)`.
abbrev pub zero_slot : Slot
zero_slot = record {
  ctx = record { id = 0; phase = reading_length; message = λ i. 0 };
  active = false;
}

unfoldable pub init_from : Connection → ℕ → ℕ → Connection
init_from c zero i = c
init_from c (suc k) i =
    init_from
      (record c {
        streams = update c.streams i (reset_stream (c.streams i));
        order = update c.order i i;
      })
      k (i + 1)

-- `max_streams` in `order` is NULL.
unfoldable pub connection_init : Connection
unfolding init_from
connection_init =
    init_from
      (record {
        order = λ i. max_streams;
        num = 0;
        capacity = max_streams;
        streams = λ i. zero_slot;
      })
      max_streams 0

-- The first context with this ID among the `k` pointers from `i` on.
unfoldable pub find_from : Connection → ℕ → ℕ → ℕ → Option ℕ
find_from c id zero i = none
find_from c id (suc k) i =
    let rest = find_from c id k (i + 1) in
    if ltb (c.order i) max_streams && (c.streams (c.order i)).id == id
    then some (c.order i)
    else rest

unfoldable pub find_stream : Connection → ℕ → Option ℕ
find_stream c id = find_from c id c.num 0

-- The slot that the next pointer of the table points to, if it is not in use.
unfoldable pub claim_from : Connection → ℕ → ℕ → ℕ → Connection × Option ℕ
claim_from c id zero i = (c, none)
claim_from c id (suc k) i =
    let rest = claim_from c id k (i + 1) in
    let slot = c.streams i in
    if i == c.order c.num && not slot.active
    then (
      record c {
        streams = update c.streams i (record slot {
          ctx = record slot.ctx { id = id; phase = reading_length };
          active = true;
        });
        num = add_u32 c.num 1;
      },
      some i,
    )
    else rest

abbrev open_new : Connection → ℕ → Connection × Option ℕ
open_new c id =
    if leb c.capacity c.num || leb max_streams c.num
    then (c, none)
    else claim_from c id max_streams 0

unfoldable pub open_stream : Connection → ℕ → Connection × Option ℕ
open_stream c id = elim (find_stream c id) [ some p ↦ (c, some p) | none ↦ open_new c id ]

unfoldable pub on_stream : Connection → ℕ → (Stream → Stream) → Connection
on_stream c p f = record c {
  streams = update c.streams p (record (c.streams p) { ctx = f (c.streams p).ctx });
}

-- The boundary's handler run on a context, with the phase code that it returns.
abbrev pub dispatch : Connection → ℕ → (Stream → Stream) → Connection × ℕ
dispatch c p f = (on_stream c p f, shell_phase_code (f (c.streams p).ctx).phase)

unfoldable pub on_authenticated_stream_fin : Connection → ℕ → Connection × ℕ
on_authenticated_stream_fin c id =
    let (c', stream) = open_stream c id in
    elim stream [ none ↦ (c', 3) | some p ↦ dispatch c' p handle_stream_fin ]

-- The scheduler passes the fragment on with its FIN flag unset.
unfoldable pub dispatch_authenticated_stream_data : Connection → ℕ → Bytes → ℕ → Connection × ℕ
dispatch_authenticated_stream_data c id input len =
    let (c', stream) = open_stream c id in
    elim stream [
      | none ↦ (c', shell_phase_code done)
      | some p ↦ dispatch c' p (λ s. handle_stream_data s input len)
    ]

-- `ism_shell_on_authenticated_stream_data` calls the boundary without the scheduler.
unfoldable pub on_authenticated_stream_data : Connection → ℕ → Bytes → ℕ → Connection × ℕ
on_authenticated_stream_data c id input len =
    let (c', stream) = open_stream c id in
    elim stream [
      | none ↦ (c', shell_phase_code done)
      | some p ↦ dispatch c' p (λ s. handle_stream_data s input len)
    ]

abbrev pub swap : (ℕ → ℕ) → ℕ → ℕ → ℕ → ℕ
swap a i j = update (update a j (a i)) i (a j)

-- The pointers after the first one with this ID has changed places with the last in use.
unfoldable pub close_stream_from : Connection → ℕ → ℕ → ℕ → Option (ℕ → ℕ)
close_stream_from c id zero i = none
close_stream_from c id (suc k) i =
    let rest = close_stream_from c id k (i + 1) in
    if (c.streams (c.order i)).id == id then some (swap c.order i (c.num - 1)) else rest

unfoldable pub close_stream : Connection → ℕ → Connection
close_stream c id = elim (close_stream_from c id c.num 0) [
  | none ↦ c
  | some order ↦ record c { order = order; num = c.num - 1 }
]

-- An active slot with this ID among the `k` slots from `i` on.
unfoldable pub active_slot_from : Connection → ℕ → ℕ → ℕ → Bool
active_slot_from c id zero i = false
active_slot_from c id (suc k) i =
    let rest = active_slot_from c id k (i + 1) in
    if (c.streams i).active && (c.streams i).id == id then true else rest

-- Sent or dropped, a response closes its stream; its bytes are not read.
unfoldable pub complete_response_send : Connection → ℕ → Bool → Connection × ℕ
complete_response_send c id dropped =
    let c' = close_stream c id in
    if active_slot_from c' id max_streams 0 then (sync_stream_slots c', 1) else (c', 1)

unfoldable pub dispatch_response_send_finished : Connection → ℕ → Bool → Connection × ℕ
dispatch_response_send_finished c id dropped =
    let c' = close_stream c id in
    if active_slot_from c' id max_streams 0 then (sync_stream_slots c', 1) else (c', 1)

unfoldable pub dispatch_stream_reset : Connection → ℕ → Connection × ℕ
dispatch_stream_reset c id = (sync_stream_slots (close_stream c id), 1)
