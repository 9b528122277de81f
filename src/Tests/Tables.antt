-- ===== src/Tests/Tables.antt =====
-- Runs of the stream table of shell/ism_shell.c.
use ism.Prelude.{ℕ, ◌<◌, ◌≡◌, ◌⊎◌, true, none, some}
use ism.Stream.{handle_stream_data, handle_stream_fin}
use ism.Table.{
  Connection, max_streams, open_stream, on_authenticated_stream_data,
  dispatch_authenticated_stream_data, on_authenticated_stream_fin, complete_response_send,
  dispatch_response_send_finished, dispatch_stream_reset,
}
use ism.Table.Find.{Holds, lookup}
use ism.Table.Valid
use ism.Table.Valid.{connection_init-IsValid, sync_stream_slots-IsValid}
use ism.Table.Open.{IsOpened, open_stream_outcomes}
use ism.Table.Close.{Forgets, Completes, dispatch_stream_reset_lem, response_send_finished_lem}
use ism.Table.Ingress.{
  Handles, dispatch_authenticated_stream_data_lem, on_authenticated_stream_fin_lem,
}
use ism.Tests.{framed_zeros, framed_zeros-lt, one_stream, one_stream-IsValid}

open_stream_outcomes_example :
    ((p : ℕ) × (open_stream one_stream 8 ≡ (one_stream, some p))
      × ((j : ℕ) × Holds one_stream 8 p j)
      × (lookup one_stream 8 ≡ some (one_stream.streams p).ctx))
    ⊎ ((lookup one_stream 8 ≡ none)
        × (one_stream.num ≡ max_streams)
        × (open_stream one_stream 8 ≡ (one_stream, none)))
    ⊎ ((lookup one_stream 8 ≡ none)
        × (one_stream.num < max_streams)
        × ((d : Connection) × (p : ℕ) × (open_stream one_stream 8 ≡ (d, some p))
            × IsOpened one_stream 8 p d))
open_stream_outcomes_example = open_stream_outcomes one_stream 8 one_stream-IsValid

dispatch_stream_reset_lem_example :
    Valid.IsValid (dispatch_stream_reset one_stream 4).0
    × ((dispatch_stream_reset one_stream 4).1 ≡ 1)
    × Forgets one_stream 4 (dispatch_stream_reset one_stream 4).0
dispatch_stream_reset_lem_example = dispatch_stream_reset_lem one_stream 4 one_stream-IsValid

response_send_finished_lem_example :
    Completes one_stream 4 (dispatch_response_send_finished one_stream 4 true)
    × Completes one_stream 4 (complete_response_send one_stream 4 true)
response_send_finished_lem_example = response_send_finished_lem one_stream 4 true one_stream-IsValid

dispatch_authenticated_stream_data_lem_example :
    Valid.IsValid (dispatch_authenticated_stream_data one_stream 4 framed_zeros 14).0
    × Handles one_stream 4
        (λ s. handle_stream_data s framed_zeros 14)
        (dispatch_authenticated_stream_data one_stream 4 framed_zeros 14)
    × (on_authenticated_stream_data one_stream 4 framed_zeros 14
        ≡ dispatch_authenticated_stream_data one_stream 4 framed_zeros 14)
dispatch_authenticated_stream_data_lem_example =
    dispatch_authenticated_stream_data_lem one_stream 4 framed_zeros 14 framed_zeros-lt
      one_stream-IsValid

on_authenticated_stream_fin_lem_example :
    Valid.IsValid (on_authenticated_stream_fin one_stream 4).0
    × Handles one_stream 4 handle_stream_fin (on_authenticated_stream_fin one_stream 4)
on_authenticated_stream_fin_lem_example =
    on_authenticated_stream_fin_lem one_stream 4 one_stream-IsValid
