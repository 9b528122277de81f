-- ===== src/Tests/Requests.antt =====
-- A request in two fragments, and FIN, through shell/msquic_adapter.c.
use ism.Prelude.{ℕ, ◌+◌, ◌<◌, ◌≡◌, refl, arith, Bool, false, true, [], ◌∷◌}
use ism.Stream.{Stream}
use ism.Table.{connection_init, find_stream, find_from}
use ism.Table.Find.{lookup}
use ism.Worker.{prepare_worker_validated_minimal_response_send}
use ism.Adapter.{adapter_init, adapter_on_authenticated_stream_fin}
use ism.Adapter.Answers.{CanAnswer}
use ism.Adapter.Rooms.{HasRoom}
use ism.Adapter.Progress.{IsAnswered}
use ism.Adapter.Requests.{CanOpen, deliver, deliver-IsAnswered}
use ism.Adapter.Sessions.{Request, IsWhole, IsRested, Serves, serve-Serves}
use ism.Tests.{
  any_question, zeros, framed_zeros, framed_zeros-IsFramed, framed_zeros-lt, idle_adapter,
  idle_adapter-IsValid, counting,
}

pub idle_adapter-HasRoom : HasRoom idle_adapter
unfolding adapter_init
idle_adapter-HasRoom = record {
  response = zeros;
  has_response = refl;
  out = zeros;
  has_out = refl;
  response_room = omega arith;
  send_room = omega arith;
  callback = refl;
}

pub idle_adapter-landed : idle_adapter.send_in_flight ≡ false
unfolding adapter_init
idle_adapter-landed = refl

abbrev pub idle_adapter-CanAnswer : CanAnswer idle_adapter
idle_adapter-CanAnswer = record { landed = idle_adapter-landed; room = idle_adapter-HasRoom }

pub idle_adapter-CanOpen : CanOpen idle_adapter.connection 4
unfolding adapter_init lookup find_stream find_from connection_init
idle_adapter-CanOpen = record { room = λ e. omega arith; new = λ t e. absurd cc }

deliver-IsAnswered_example :
    let r = deliver any_question counting 4 framed_zeros idle_adapter 0 (1 ∷ 13 ∷ []) in
    (request : Stream) × ((i : ℕ) → i < 12 → request.message i ≡ framed_zeros (i + 2))
    × IsAnswered counting 0 4 idle_adapter.connection
        (prepare_worker_validated_minimal_response_send any_question request
          idle_adapter-HasRoom.response idle_adapter.response_capacity 12)
        idle_adapter-HasRoom.out
        (adapter_on_authenticated_stream_fin any_question counting r.0 r.1 4)
deliver-IsAnswered_example =
    deliver-IsAnswered any_question counting idle_adapter 0 4 12 framed_zeros (1 ∷ 13 ∷ [])
      idle_adapter-IsValid idle_adapter-CanAnswer idle_adapter-CanOpen framed_zeros-IsFramed
      framed_zeros-lt refl refl refl

pub idle_adapter-IsRested : IsRested idle_adapter
unfolding adapter_init lookup find_stream find_from connection_init
idle_adapter-IsRested = record {
  valid = idle_adapter-IsValid;
  idle = record { landed = refl; no_id = refl; no_len = refl };
  room = idle_adapter-HasRoom;
  empty = λ id. refl;
}

-- The same request on the streams 4 and 8, with one send completed and one dropped.
abbrev zero_request : ℕ → Bool → Request
zero_request id dropped = record {
  id = id;
  len = 12;
  input = framed_zeros;
  lens = 1 ∷ 13 ∷ [];
  dropped = dropped;
}

zero_request-IsWhole : (id : ℕ) (dropped : Bool) → IsWhole (zero_request id dropped)
zero_request-IsWhole id dropped = record {
  framed = framed_zeros-IsFramed;
  octets = framed_zeros-lt;
  id_hi = refl;
  id_lo = refl;
  complete = refl;
}

serve-Serves_example :
    Serves any_question counting idle_adapter 0 (zero_request 4 false ∷ zero_request 8 true ∷ [])
serve-Serves_example =
    serve-Serves any_question counting idle_adapter 0
      (zero_request 4 false ∷ zero_request 8 true ∷ []) idle_adapter-IsRested
      (zero_request-IsWhole 4 false, (zero_request-IsWhole 8 true, tt))
