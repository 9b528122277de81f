-- ===== src/Adapter.antt =====
-- The transport adapter of one connection: shell/msquic_adapter.c over the struct of
-- shell/msquic_adapter.h. It owns the stream table, the response and send buffers and the one
-- send that may be in flight. The send callback is a parameter over a state `S` of its own, which
-- stands for what its context pointer reaches; the generated question validator is another. The
-- functions are stated for an adapter that is there: a call with a NULL adapter returns before it
-- reads anything, and is written out where the runtime can make it.
pub mod Completion
pub mod Sends
pub mod Events
pub mod Rooms
pub mod Answers
pub mod Replies
pub mod Progress
pub mod Requests
pub mod Sessions
use ism.Prelude.{
  ℕ, Bool, true, false, not, ltb, leb, ◌==◌, ◌&&◌, ◌||◌, if◌then◌else◌, Option, none, some, Bytes,
}
use ism.Table.{
  Connection, connection_init, dispatch_authenticated_stream_data, on_authenticated_stream_fin,
  dispatch_response_send_finished, dispatch_stream_reset,
}
use ism.Response.{prepare_doq_response_send}
use ism.Worker.{QuestionCheck, dispatch_ready_stream_validated_minimal_response}

-- `ism_msquic_adapter`. A buffer is `none` for NULL and else the bytes behind the pointer;
-- `has_send` says that the callback is not NULL.
pub record Adapter : Type 0 where
  pub connection : Connection
  pub response_buffer : Option Bytes
  pub response_capacity : ℕ
  pub send_buffer : Option Bytes
  pub send_capacity : ℕ
  pub has_send : Bool
  pub send_in_flight : Bool
  pub send_stream_id : ℕ
  pub send_len : ℕ

-- `ism_msquic_send_fn`: the context, the stream, the bytes, their number and FIN.
abbrev pub Send : Type 0 → Type 0
Send S = S → ℕ → Bytes → ℕ → Bool → S × Bool

unfoldable pub adapter_init : Option Bytes → ℕ → Option Bytes → ℕ → Bool → Adapter
adapter_init response_buffer response_capacity send_buffer send_capacity has_send = record {
  connection = connection_init;
  response_buffer = response_buffer;
  response_capacity = response_capacity;
  send_buffer = send_buffer;
  send_capacity = send_capacity;
  has_send = has_send;
  send_in_flight = false;
  send_stream_id = 0;
  send_len = 0;
}

abbrev pub clear_send : Adapter → Adapter
clear_send a = record a { send_in_flight = false; send_stream_id = 0; send_len = 0 }

-- The part of the guard that reads the send in flight and the capacity.
abbrev pub refuses_completion : Adapter → ℕ → ℕ → Bool
refuses_completion a id len =
    a.send_capacity == 0
    || (ltb a.send_capacity len
        || (not a.send_in_flight || (not (a.send_stream_id == id) || not (a.send_len == len))))

abbrev pub after_completion : Adapter → Connection × ℕ → Adapter × Bool
after_completion a (c, code) =
    if code == 1
    then (clear_send (record a { connection = c }), true)
    else (record a { connection = c }, false)

unfoldable pub on_send_complete : Adapter → ℕ → ℕ → Bool → Adapter × Bool
on_send_complete a id len dropped = elim a.send_buffer [
  | none ↦ (a, false)
  | some buffer ↦
      if refuses_completion a id len
      then (a, false)
      else after_completion a (dispatch_response_send_finished a.connection id dropped)
]

unfoldable pub on_stream_reset : Adapter → ℕ → Adapter × Bool
on_stream_reset a id =
    if a.send_in_flight
    then if not (a.send_stream_id == id) then (a, false) else on_send_complete a id a.send_len true
    else let (c, code) = dispatch_stream_reset a.connection id in
      (record a { connection = c }, code == 1)

-- The part of the guard of a response that reads no buffer.
abbrev pub refuses_response : Adapter → Bool
refuses_response a =
    a.response_capacity == 0 || (a.send_capacity == 0 || (not a.has_send || a.send_in_flight))

module _ {S : Type 0} (check_question : QuestionCheck) (send : Send S) where
  -- The callback's answer: a refused send is finished at once, as dropped.
  unfoldable pub settle_send : Adapter → ℕ → ℕ → S × Bool → ℕ × Adapter × S
  settle_send a id len (s, true) = (len, a, s)
  settle_send a id len (s, false) = (
    0,
    clear_send (record a { connection = (dispatch_response_send_finished a.connection id true).0 }),
    s,
  )

  -- The framed response is handed to the callback, with the send marked as in flight before.
  unfoldable pub submit_send : Adapter → S → ℕ → ℕ → Bytes → ℕ × Adapter × S
  submit_send a s id len framed =
      if ltb 0 len
      then settle_send
          (record a {
            send_buffer = some framed;
            send_in_flight = true;
            send_stream_id = id;
            send_len = len;
          })
          id len (send s id framed len true)
      else (len, record a { send_buffer = some framed }, s)

  unfoldable pub frame_response : Adapter → S → ℕ → ℕ → Bytes → Bytes → ℕ × Adapter × S
  frame_response a s id response_len response out =
      if response_len == 0
      then (0, record a { response_buffer = some response }, s)
      else let (len, framed) =
          prepare_doq_response_send a.connection id response response_len out a.send_capacity
            true in
        submit_send (record a { response_buffer = some response }) s id len framed

  -- Both buffers are there.
  unfoldable pub respond : Adapter → S → ℕ → Bytes → Bytes → ℕ × Adapter × S
  respond a s id buffer out =
      if refuses_response a
      then (0, a, s)
      else let (response_len, response) =
          dispatch_ready_stream_validated_minimal_response check_question a.connection id buffer
            a.response_capacity in
        frame_response a s id response_len response out

  unfoldable pub prepare_ready_response : Adapter → S → ℕ → ℕ × Adapter × S
  prepare_ready_response a s id = elim a.response_buffer [
    | none ↦ (0, a, s)
    | some buffer ↦ elim a.send_buffer [ none ↦ (0, a, s) | some out ↦ respond a s id buffer out ]
  ]

  abbrev pub answer_if : Bool → Adapter → S → ℕ → ℕ → ℕ × Adapter × S
  answer_if true a s id phase = let (n, a', s') = prepare_ready_response a s id in (phase, a', s')
  answer_if false a s id phase = (phase, a, s)

  -- `none` is a NULL `data`.
  unfoldable pub on_authenticated_stream_bytes :
      Adapter → S → ℕ → Option Bytes → ℕ → ℕ × Adapter × S
  on_authenticated_stream_bytes a s id input len = elim input [
    | none ↦ (3, a, s)
    | some bytes ↦
        let (c, phase) = dispatch_authenticated_stream_data a.connection id bytes len in
        answer_if (phase == 2) (record a { connection = c }) s id phase
  ]

  unfoldable pub adapter_on_authenticated_stream_fin : Adapter → S → ℕ → ℕ × Adapter × S
  adapter_on_authenticated_stream_fin a s id =
      let (c, phase) = on_authenticated_stream_fin a.connection id in
      answer_if (phase == 2 && not a.send_in_flight) (record a { connection = c }) s id phase
