-- ===== src/Tests/Adapters.antt =====
-- Runs of shell/msquic_adapter.c.
use ism.Prelude.{ℕ, ◌<◌, ◌≡◌, ◌⊎◌, false, arith, some, Bytes}
use ism.Adapter.{on_send_complete, on_stream_reset, prepare_ready_response}
use ism.Adapter.Completion.{InFlight, IsIdle, IsBusy, IsCompleted, on_send_complete_lem}
use ism.Adapter.Replies.{FromIdle, prepare_ready_response_lem}
use ism.Adapter.Events.{Resets, on_stream_reset_lem}
use ism.Tests.{
  framed_zeros, framed_zeros-lt, any_question, idle_adapter, idle_adapter-IsValid, busy_adapter,
  busy_adapter-IsValid, counting,
}

on_send_complete_lem_example :
    (¬ (InFlight busy_adapter 4 14)
      × (on_send_complete busy_adapter 4 14 false ≡ (busy_adapter, false)))
    ⊎ (InFlight busy_adapter 4 14
        × IsCompleted busy_adapter 4 (on_send_complete busy_adapter 4 14 false))
on_send_complete_lem_example = on_send_complete_lem busy_adapter 4 14 false busy_adapter-IsValid

on_stream_reset_lem_example : Resets busy_adapter 4 (on_stream_reset busy_adapter 4)
on_stream_reset_lem_example = on_stream_reset_lem busy_adapter 4 busy_adapter-IsValid

prepare_ready_response_lem_example :
    (IsBusy idle_adapter
      × (prepare_ready_response any_question counting idle_adapter 0 4 ≡ (0, idle_adapter, 0)))
    ⊎ (IsIdle idle_adapter
        × FromIdle any_question counting idle_adapter 0 4 idle_adapter-IsValid
            idle_adapter.response_buffer idle_adapter.send_buffer
            (prepare_ready_response any_question counting idle_adapter 0 4))
prepare_ready_response_lem_example =
    prepare_ready_response_lem any_question counting idle_adapter 0 4 idle_adapter-IsValid

given_bytes-lt : (bytes : Bytes) → some framed_zeros ≡ some bytes → (i : ℕ) → bytes i < 256
given_bytes-lt bytes e i = cc_lt bytes e i (framed_zeros-lt i)
  where
    cc_lt :
        (bytes : Bytes)
        → some framed_zeros ≡ some bytes
        → (i : ℕ) → framed_zeros i < 256
        → bytes i < 256
    cc_lt bytes e i h = ground (arith, e)
