-- ===== src/Adapter/Rooms.antt =====
-- The buffers and the callback of an adapter of shell/msquic_adapter.c, which no call takes away.
use ism.Prelude.{
  ℕ, ◌≤◌, ◌≡◌, refl, Bool, not, true, false, ltb, ◌==◌, if_cases, if◌then◌else◌, Option, none, some,
  Bytes,
}
use ism.Table.{Connection, dispatch_response_send_finished, dispatch_stream_reset}
use ism.Response.{prepare_doq_response_send}
use ism.Worker.{QuestionCheck, dispatch_ready_stream_validated_minimal_response}
use ism.Adapter.{
  Adapter, Send, refuses_completion, after_completion, on_send_complete, on_stream_reset,
  settle_send, submit_send, frame_response, respond, refuses_response, prepare_ready_response,
}

-- The buffers hold any response of the worker, and the callback is there.
pub record HasRoom (a : Adapter) : Type 0 where
  pub response : Bytes
  pub has_response : a.response_buffer ≡ some response
  pub out : Bytes
  pub has_out : a.send_buffer ≡ some out
  pub response_room : 271 ≤ a.response_capacity
  pub send_room : 273 ≤ a.send_capacity
  pub callback : a.has_send ≡ true

-- The table and the send in flight have no part in it.
abbrev pub elsewhere :
    (a : Adapter) (c : Connection) (flying : Bool) (id len : ℕ)
    → HasRoom a
    → HasRoom
        (record a { connection = c; send_in_flight = flying; send_stream_id = id; send_len = len })
elsewhere a c flying id len h = record {
  response = h.response;
  has_response = h.has_response;
  out = h.out;
  has_out = h.has_out;
  response_room = h.response_room;
  send_room = h.send_room;
  callback = h.callback;
}

-- New bytes in a buffer change nothing of it.
written_response :
    (a : Adapter) (b : Bytes) → HasRoom a → HasRoom (record a { response_buffer = some b })
written_response a b h = record {
  response = b;
  has_response = refl;
  out = h.out;
  has_out = h.has_out;
  response_room = h.response_room;
  send_room = h.send_room;
  callback = h.callback;
}

written_send : (a : Adapter) (b : Bytes) → HasRoom a → HasRoom (record a { send_buffer = some b })
written_send a b h = record {
  response = h.response;
  has_response = h.has_response;
  out = b;
  has_out = refl;
  response_room = h.response_room;
  send_room = h.send_room;
  callback = h.callback;
}

module _ {S : Type 0} (check_question : QuestionCheck) (send : Send S) where
  settle_send-HasRoom :
      (a : Adapter) (id len : ℕ) (r : S × Bool)
      → HasRoom a
      → HasRoom (settle_send check_question send a id len r).1
  unfolding settle_send
  settle_send-HasRoom a id len (s, true) h = h
  settle_send-HasRoom a id len (s, false) h =
      elsewhere a (dispatch_response_send_finished a.connection id true).0 false 0 0 h

  submit_send-HasRoom :
      (a : Adapter) (s : S) (id len : ℕ) (b : Bytes)
      → HasRoom a
      → HasRoom (submit_send check_question send a s id len b).1
  unfolding submit_send
  submit_send-HasRoom a s id len b h =
      let w = written_send a b h in
      if_cases (λ (r : ℕ × Adapter × S). HasRoom r.1) (ltb 0 len)
        (λ e.
          settle_send-HasRoom
            (record a {
              send_buffer = some b;
              send_in_flight = true;
              send_stream_id = id;
              send_len = len;
            })
            id len (send s id b len true)
            (elsewhere (record a { send_buffer = some b }) a.connection true id len w))
        (λ e. w)

  respond-HasRoom :
      (a : Adapter) (s : S) (id : ℕ) (buffer out : Bytes)
      → HasRoom a
      → HasRoom (respond check_question send a s id buffer out).1
  unfolding respond frame_response
  respond-HasRoom a s id buffer out h =
      let r =
        dispatch_ready_stream_validated_minimal_response check_question a.connection id buffer
          a.response_capacity in
      let w = written_response a r.1 h in
      let q = prepare_doq_response_send a.connection id r.1 r.0 out a.send_capacity true in
      if_cases (λ (r : ℕ × Adapter × S). HasRoom r.1) (refuses_response a) (λ e. h)
        (λ e.
          if_cases (λ (r : ℕ × Adapter × S). HasRoom r.1) (r.0 == 0) (λ e. w)
            (λ e. submit_send-HasRoom (record a { response_buffer = some r.1 }) s id q.0 q.1 w))

  pub prepare_ready_response-HasRoom :
      (a : Adapter) (s : S) (id : ℕ)
      → HasRoom a
      → HasRoom (prepare_ready_response check_question send a s id).1
  unfolding prepare_ready_response
  prepare_ready_response-HasRoom a s id h = with_buffers a.response_buffer a.send_buffer
    where
      with_buffers :
          (r t : Option Bytes)
          → HasRoom
              (elim r as (λ r. ℕ × Adapter × S) [
                | none ↦ (0, a, s)
                | some buffer ↦ elim t as (λ t. ℕ × Adapter × S) [
                  | none ↦ (0, a, s)
                  | some out ↦ respond check_question send a s id buffer out
                ]
              ]).1
      with_buffers none t = h
      with_buffers (some buffer) none = h
      with_buffers (some buffer) (some out) = respond-HasRoom a s id buffer out h

after_completion-HasRoom :
    (a : Adapter) (r : Connection × ℕ) → HasRoom a → HasRoom (after_completion a r).0
after_completion-HasRoom a (c, code) h =
    if_cases (λ (r : Adapter × Bool). HasRoom r.0) (code == 1) (λ e. elsewhere a c false 0 0 h)
      (λ e. elsewhere a c a.send_in_flight a.send_stream_id a.send_len h)

pub on_send_complete-HasRoom :
    (a : Adapter) (id len : ℕ) (dropped : Bool)
    → HasRoom a
    → HasRoom (on_send_complete a id len dropped).0
unfolding on_send_complete
on_send_complete-HasRoom a id len dropped h = with_buffer a.send_buffer
  where
    with_buffer :
        (t : Option Bytes)
        → HasRoom
            (elim t as (λ t. Adapter × Bool) [
              | none ↦ (a, false)
              | some buffer ↦
                  if refuses_completion a id len
                  then (a, false)
                  else after_completion a (dispatch_response_send_finished a.connection id dropped)
            ]).0
    with_buffer none = h
    with_buffer (some b) =
        if_cases (λ (r : Adapter × Bool). HasRoom r.0) (refuses_completion a id len) (λ e. h)
          (λ e.
            after_completion-HasRoom a (dispatch_response_send_finished a.connection id dropped) h)

pub on_stream_reset-HasRoom : (a : Adapter) (id : ℕ) → HasRoom a → HasRoom (on_stream_reset a id).0
unfolding on_stream_reset
on_stream_reset-HasRoom a id h =
    if_cases (λ (r : Adapter × Bool). HasRoom r.0) a.send_in_flight
      (λ e.
        if_cases (λ (r : Adapter × Bool). HasRoom r.0) (not (a.send_stream_id == id)) (λ n. h)
          (λ n. on_send_complete-HasRoom a id a.send_len true h))
      (λ e.
        elsewhere a (dispatch_stream_reset a.connection id).0 a.send_in_flight a.send_stream_id
          a.send_len h)
