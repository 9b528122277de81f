-- ===== src/Tests/Runtimes.antt =====
-- Runs of shell/msquic_runtime.c.
use ism.Prelude.{◌≡◌, ◌⊎◌, true, false, some, [], ◌∷◌}
use ism.Runtime.{single_host, receive, runtime_send, stream_callback}
use ism.Runtime.Laws
use ism.Runtime.Laws.{stream_callback-IsValid}
use ism.Runtime.Sending.{IsUnsendable, IsSubmitted, runtime_send_lem, IsBoundTo, single_host-Keeps}
use ism.Tests.{
  framed_zeros, zeros, framed_zeros-lt, any_question, counting_api, bound_runtime, one_world,
  one_world-IsValid,
}

stream_callback-IsValid_example :
    Laws.IsValid
      (IsBoundTo (some counting_api) 9)
      (stream_callback single_host any_question one_world
        (receive (some ((some framed_zeros, 14) ∷ [])) true)).0
stream_callback-IsValid_example =
    stream_callback-IsValid single_host any_question (IsBoundTo (some counting_api) 9)
      (single_host-Keeps (some counting_api) 9) one_world
      (receive (some ((some framed_zeros, 14) ∷ [])) true) (framed_zeros-lt, tt) one_world-IsValid

runtime_send_lem_example :
    (IsUnsendable bound_runtime 4 14
      × (runtime_send (bound_runtime, 0) 4 zeros 14 true ≡ ((bound_runtime, 0), false)))
    ⊎ IsSubmitted bound_runtime 0 4 zeros 14 true (runtime_send (bound_runtime, 0) 4 zeros 14 true)
runtime_send_lem_example = runtime_send_lem bound_runtime 0 4 zeros 14 true
