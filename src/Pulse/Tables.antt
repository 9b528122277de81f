-- ===== src/Pulse/Tables.antt =====
-- The Pulse build of the stream table: the wire table and `ism_pulse_table_apply` of
-- migration/c/ism_pulse_table.c, the verified core of migration/DNS.Migration.PulseMultiplexer.fst,
-- the shell's side, shell/pulse_table_adapter.c, and the calls of shell/ism_shell.c that use it.
-- The core's contexts are kept without the message pointer, which it never reads.
pub mod Snapshot
pub mod Agree
use ism.Prelude.{
  ℕ, zero, suc, ◌+◌, ◌-◌, ◌%◌, ◌^◌, Bool, true, false, not, ltb, leb, ◌==◌, ◌&&◌, ◌||◌,
  if◌then◌else◌, Option, none, some, Bytes, update, add_u32, first_from,
}
use ism.Stream.{Phase, Stream, reading_length, done, message_capacity, shell_phase_code}
use ism.Table.{Connection, Slot, max_streams, swap}
use ism.Pulse.{WirePhase, phase_to_wire, phase_from_wire, decode_phase, tagged, range_ok, disjoint}

-- `ism_pulse_table_slot`, with the address of the message, and `ism_pulse_table`.
pub record WireSlot : Type 0 where
  pub id : ℕ
  pub phase : WirePhase
  pub message : ℕ
  pub size : ℕ

pub record WireTable : Type 0 where
  pub slots : ℕ → WireSlot
  pub order : ℕ → ℕ
  pub count : ℕ
  pub capacity : ℕ

-- The core's contexts, and its table of pointers to them.
pub record Context : Type 0 where
  pub id : ℕ
  pub phase : Phase

pub record Multiplexer : Type 0 where
  pub contexts : ℕ → Context
  pub order : ℕ → ℕ
  pub num : ℕ
  pub capacity : ℕ

abbrev pub has_id : Multiplexer → ℕ → ℕ → Bool
has_id c id i = (c.contexts (c.order i)).id == id

abbrev pub index_or : ℕ → Option ℕ → ℕ
index_or count none = count
index_or count (some i) = i

-- The count if no context in use has the ID.
unfoldable pub find_index : Multiplexer → ℕ → ℕ
find_index c id = index_or c.num (first_from (has_id c id) c.num 0)

-- The capacity if the stream cannot be allocated.
unfoldable pub allocate_stream : Multiplexer → ℕ → Multiplexer × ℕ
allocate_stream c id =
    if ltb (find_index c id) c.num || not (ltb c.num c.capacity) then (c, c.capacity) else (
      record c {
        contexts = update c.contexts (c.order c.num) (record { id = id; phase = reading_length });
        num = add_u32 c.num 1;
      },
      c.num,
    )

unfoldable pub close_multiplexer : Multiplexer → ℕ → Multiplexer × Bool
close_multiplexer c id =
    if ltb (find_index c id) c.num
    then (record c { order = swap c.order (find_index c id) (c.num - 1); num = c.num - 1 }, true)
    else (c, false)

-- The operations, and the answer to an invalid descriptor.
pub data Operation : Type 0 where
  find allocate close : Operation

abbrev pub invalid : ℕ
invalid = 2 ^ 32 - 1

abbrev pub table_size : ℕ
table_size = 184

abbrev pub all_below : (ℕ → Bool) → ℕ → Bool
all_below test zero = true
all_below test (suc n) = all_below test n && test n

abbrev pub has_phase : Option Phase → Bool
has_phase none = false
has_phase (some p) = true

abbrev pub is_decodable : WirePhase → Bool
is_decodable w = has_phase (decode_phase w)

-- What the loop tests for slot `i` alone, and with each slot before it.
unfoldable pub slot_ok : WireTable → ℕ → ℕ → Bool
slot_ok wire address i =
    ltb (wire.order i) max_streams
    && (not (ltb (wire.slots i).size message_capacity)
        && (disjoint address table_size (wire.slots i).message (wire.slots i).size
            && is_decodable (wire.slots i).phase))

unfoldable pub pair_ok : WireTable → ℕ → ℕ → Bool
pair_ok wire i j =
    not (wire.order i == wire.order j)
    && disjoint (wire.slots i).message (wire.slots i).size (wire.slots j).message
        (wire.slots j).size

unfoldable pub descriptor_ok : WireTable → ℕ → Bool
descriptor_ok wire address =
    range_ok address table_size
    && (address % 8 == 0
        && (leb wire.count wire.capacity
            && (leb wire.capacity max_streams
                && all_below (λ i. slot_ok wire address i && all_below (pair_ok wire i) i)
                    max_streams)))

abbrev pub decoded_or_done : WirePhase → Phase
decoded_or_done w = elim (decode_phase w) [ none ↦ done | some p ↦ p ]

unfoldable pub multiplexer_of : WireTable → Multiplexer
multiplexer_of wire = record {
  contexts = λ i. record { id = (wire.slots i).id; phase = decoded_or_done (wire.slots i).phase };
  order = wire.order;
  num = wire.count;
  capacity = wire.capacity;
}

-- The wire table takes over what the core has changed.
abbrev pub allocated : WireTable → Multiplexer × ℕ → WireTable × ℕ
allocated wire (c, result) =
    if ltb result wire.capacity
    then (
      record wire {
        slots = update wire.slots (wire.order result) (record (wire.slots (wire.order result)) {
          id = (c.contexts (wire.order result)).id;
          phase = tagged 0;
        });
        count = c.num;
      },
      result,
    )
    else (wire, result)

abbrev pub closed : WireTable → Multiplexer × Bool → WireTable × ℕ
closed wire (c, true) = (record wire { order = c.order; count = c.num }, 1)
closed wire (c, false) = (wire, 0)

abbrev pub run : WireTable → Operation → ℕ → WireTable × ℕ
run wire find id = (wire, find_index (multiplexer_of wire) id)
run wire allocate id = allocated wire (allocate_stream (multiplexer_of wire) id)
run wire close id = closed wire (close_multiplexer (multiplexer_of wire) id)

unfoldable pub table_apply : WireTable → ℕ → Operation → ℕ → WireTable × ℕ
table_apply wire address operation id =
    if descriptor_ok wire address then run wire operation id else (wire, invalid)

-- Where the local wire table and the message buffers of a connection stand.
pub record Layout : Type 0 where
  pub table_address : ℕ
  pub message_address : ℕ → ℕ

-- `active[physical] = i < count` for the `k` pointers from `i` on.
unfoldable pub flags_from : Connection → (ℕ → Bool) → ℕ → ℕ → ℕ → Bool
flags_from c active zero i = active
flags_from c active (suc k) i = flags_from c (update active (c.order i) (ltb i c.num)) k (i + 1)

-- The pointer at `i` points to a slot that no pointer before it points to.
unfoldable pub pointer_ok : Connection → ℕ → Bool
pointer_ok c i = ltb (c.order i) max_streams && all_below (λ j. not (c.order j == c.order i)) i

abbrev pub same_flag : Bool → Bool → Bool
same_flag true b = b
same_flag false b = not b

unfoldable pub snapshot_ok : Connection → Bool
snapshot_ok c =
    leb c.num c.capacity
    && (leb c.capacity max_streams
        && (all_below (pointer_ok c) max_streams
            && all_below
                (λ p. same_flag (c.streams p).active (flags_from c (λ q. false) max_streams 0 p))
                max_streams))

unfoldable pub wire_of : Connection → Layout → WireTable
wire_of c layout = record {
  slots = λ p. record {
    id = (c.streams p).id;
    phase = phase_to_wire (c.streams p).phase;
    message = layout.message_address p;
    size = message_capacity;
  };
  order = c.order;
  count = c.num;
  capacity = c.capacity;
}

unfoldable pub snapshot : Connection → Layout → Option WireTable
snapshot c layout = if snapshot_ok c then some (wire_of c layout) else none

abbrev pub found_slot : WireTable × ℕ → Option ℕ
found_slot (wire, index) = if ltb index wire.count then some (wire.order index) else none

abbrev pub find_in : Layout → ℕ → Option WireTable → Option ℕ
find_in layout id none = none
find_in layout id (some wire) = found_slot (table_apply wire layout.table_address find id)

unfoldable pub table_find : Connection → Layout → ℕ → Option ℕ
table_find c layout id = find_in layout id (snapshot c layout)

-- The slot takes the ID and the phase from the wire; it keeps its buffer.
abbrev pub opened_slot : Connection → WireTable × ℕ → Connection × Option ℕ
opened_slot c (wire, index) = if not (ltb index wire.capacity) then (c, none) else (
  record c {
    streams = update c.streams (wire.order index) (record (c.streams (wire.order index)) {
      ctx = record (c.streams (wire.order index)).ctx {
        id = (wire.slots (wire.order index)).id;
        phase = phase_from_wire (wire.slots (wire.order index)).phase;
      };
      active = true;
    });
    num = wire.count;
  },
  some (wire.order index),
)

-- Opening is idempotent, which the allocation is not.
abbrev pub open_found : Connection → Layout → ℕ → WireTable × ℕ → Connection × Option ℕ
open_found c layout id (wire, index) =
    if index == invalid
    then (c, none)
    else if ltb index wire.count
    then (c, some (wire.order index))
    else opened_slot c (table_apply wire layout.table_address allocate id)

abbrev pub open_in : Connection → Layout → ℕ → Option WireTable → Connection × Option ℕ
open_in c layout id none = (c, none)
open_in c layout id (some wire) =
    open_found c layout id (table_apply wire layout.table_address find id)

unfoldable pub table_open : Connection → Layout → ℕ → Connection × Option ℕ
table_open c layout id = open_in c layout id (snapshot c layout)

-- The pointers are taken from the wire, for every slot.
abbrev pub closed_table : Connection → WireTable × ℕ → Connection × ℕ
closed_table c (wire, result) =
    if result == invalid
    then (c, 0)
    else if result == 1
    then (
      record c {
        order = λ i. if ltb i max_streams then wire.order i else c.order i;
        num = wire.count;
      },
      1,
    )
    else (c, 1)

abbrev pub close_in : Connection → Layout → ℕ → Option WireTable → Connection × ℕ
close_in c layout id none = (c, 0)
close_in c layout id (some wire) = closed_table c (table_apply wire layout.table_address close id)

unfoldable pub table_close : Connection → Layout → ℕ → Connection × ℕ
table_close c layout id = close_in c layout id (snapshot c layout)
