-- ===== src/Pulse/Shell.antt =====
-- The calls of shell/ism_shell.c as the Pulse build compiles them, with `ISM_USE_PULSE_STREAM`,
-- `ISM_USE_PULSE_TABLE` and `ISM_USE_PULSE_RESPONSE` set.
pub mod Agree
use ism.Prelude.{ℕ, Bool, true, false, not, ◌==◌, if◌then◌else◌, Option, none, some, Bytes, update}
use ism.Stream.{Stream}
use ism.Table.{Connection, max_streams, active_slot_from, sync_stream_slots}
use ism.Pulse.{Buffer, ingress_data, ingress_fin}
use ism.Pulse.Tables.{Layout, table_find, table_open, table_close}
use ism.Pulse.Response.{prepare_doq_response}

-- A context is written back, and the code returned.
abbrev pub put_stream : Connection → ℕ → Stream × ℕ → Connection × ℕ
put_stream c p (s, code) =
    (record c { streams = update c.streams p (record (c.streams p) { ctx = s }) }, code)

abbrev pub data_opened : Layout → ℕ → ℕ → Bytes → ℕ → Connection × Option ℕ → Connection × ℕ
data_opened layout id data_address input len (c, none) = (c, 3)
data_opened layout id data_address input len (c, some p) =
    put_stream c p
      (ingress_data (c.streams p).ctx (layout.message_address p) id data_address input len)

unfoldable pub pulse_dispatch_data : Connection → Layout → ℕ → ℕ → Bytes → ℕ → Connection × ℕ
pulse_dispatch_data c layout id data_address input len =
    data_opened layout id data_address input len (table_open c layout id)

abbrev pub fin_opened : Layout → Connection × Option ℕ → Connection × ℕ
fin_opened layout (c, none) = (c, 3)
fin_opened layout (c, some p) =
    put_stream c p (ingress_fin (c.streams p).ctx (layout.message_address p))

unfoldable pub pulse_on_fin : Connection → Layout → ℕ → Connection × ℕ
pulse_on_fin c layout id = fin_opened layout (table_open c layout id)

abbrev pub respond_found : Connection → (ℕ → ℕ) → ℕ → Buffer → Buffer → Bool → Option ℕ → ℕ × Bytes
respond_found c context_address context_size response out fin none = (0, out.bytes)
respond_found c context_address context_size response out fin (some p) =
    prepare_doq_response (context_address p) context_size (c.streams p).ctx response out fin

unfoldable pub pulse_prepare_doq_response_send :
    Connection → Layout → (ℕ → ℕ) → ℕ → ℕ → Buffer → Buffer → Bool → ℕ × Bytes
pulse_prepare_doq_response_send c layout context_address context_size id response out fin =
    respond_found c context_address context_size response out fin (table_find c layout id)

-- The slots are put in order if one of them still has the closed stream.
abbrev pub noticed : ℕ → Connection × ℕ → Connection × ℕ
noticed id (c, result) =
    if not (result == 1)
    then (c, result)
    else if active_slot_from c id max_streams 0
    then (sync_stream_slots c, result)
    else (c, result)

unfoldable pub pulse_complete_response_send : Connection → Layout → ℕ → Bool → Connection × ℕ
pulse_complete_response_send c layout id dropped = noticed id (table_close c layout id)

unfoldable pub pulse_response_send_finished : Connection → Layout → ℕ → Bool → Connection × ℕ
pulse_response_send_finished c layout id dropped = noticed id (table_close c layout id)

abbrev pub sync_closed : Connection × ℕ → Connection × ℕ
sync_closed (c, result) = if result == 1 then (sync_stream_slots c, result) else (c, result)

unfoldable pub pulse_stream_reset : Connection → Layout → ℕ → Connection × ℕ
pulse_stream_reset c layout id = sync_closed (table_close c layout id)
