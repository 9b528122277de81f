-- ===== src/Connections/Requests.antt =====
-- A whole request on a stream of a connection, through the callbacks of
-- shell/msquic_connection_runtime.c and shell/msquic_runtime.c to MsQuic's `StreamSend`.
use ism.Prelude.{
  ℕ, ◌+◌, ◌<◌, ◌≡◌, ◌≢◌, ◌∙◌, sym, ap, subst, refl, arith, Bool, true, false, inl, inr, Option,
  some, Bytes, List, [], ◌∷◌, IsFirst, dec_lt,
}
use ism.Stream.Phases.{skip}
use ism.Stream.Messages.{IsFramed}
use ism.Worker.{QuestionCheck}
use ism.Adapter.Completion.{IsValid}
use ism.Adapter.Answers.{CanAnswer}
use ism.Adapter.Requests.{CanOpen}
use ism.Queue.Dispatch.Single.{IsEmpty}
use ism.Runtime.{
  Runtime, World, Status, StreamEvent, receive, runtime_send, stream_send_of, sent,
  mark_runtime_send, stream_callback,
}
use ism.Runtime.Requests.{IsOpen, Carries, total_len}
use ism.Runtime.Answers.{
  Deliveries, total_delivered, AllCarry, receive_events, IsReplied, receive-IsReplied,
}
use ism.Runtime.Sending.{runtime_send-sent}
use ism.Connections.Slots.{connection_runtime_send-cases}
use ism.Connections.{
  ConnectionRuntime, serves, slot_sent, connection_runtime_send, slot_host, slot_callback,
  release_after, is_shutdown,
}

-- The slot serves the stream: it is the first in use with the stream's ID, and its runtime can send.
pub record CanSend {T : Type 0} (c : ConnectionRuntime T) (i id : ℕ) : Type 0 where
  pub slots_there : c.has_slots ≡ true
  pub first : IsFirst (serves c.stream_slots id) c.stream_slot_count 0 i
  pub has_id : (c.stream_slots i).runtime.stream_id ≡ id
  pub some_stream : (c.stream_slots i).runtime.stream ≢ 0
  pub landed : (c.stream_slots i).runtime.send_in_flight ≡ false
  pub stream_send : T → ℕ → Bytes → ℕ → Bool → T × Bool
  pub has_send : stream_send_of (c.stream_slots i).runtime.api ≡ some stream_send

IsFirst-unique : (test : ℕ → Bool) (k i p q : ℕ) → IsFirst test k i p → IsFirst test k i q → p ≡ q
IsFirst-unique test k i p q f g = elim (dec_lt q p) [
  | yes l ↦ absurd (let x = f.before q g.from l in let y = g.passes in cc)
  | no n ↦ elim (dec_lt p q) [
    | yes l ↦ absurd (let x = g.before p f.from l in let y = f.passes in cc)
    | no m ↦ omega arith
  ]
]

-- A send for the stream is a call of `StreamSend` for the slot's stream.
connection_runtime_send-CanSend :
    {T : Type 0} (c : ConnectionRuntime T) (t : T) (i id : ℕ) (bytes : Bytes) (len : ℕ) (fin : Bool)
    (h : CanSend c i id)
    → len ≢ 0
    → connection_runtime_send (c, t) id bytes len fin
      ≡ slot_sent c i (
          sent
            (mark_runtime_send (c.stream_slots i).runtime bytes len)
            (h.stream_send t (c.stream_slots i).runtime.stream bytes len fin))
connection_runtime_send-CanSend c t i id bytes len fin h n =
    elim (connection_runtime_send-cases c t id bytes len fin) [
      | inl (_, inl e) ↦ absurd (let x = h.slots_there in cc)
      | inl (_, inr e) ↦
          absurd (let x = e i (omega (arith, h.first.below)) in let y = h.first.passes in cc)
      | inr (j, h', g, e) ↦
          e
          ∙ ap (λ j. slot_sent c j (runtime_send ((c.stream_slots j).runtime, t) id bytes len fin))
              (IsFirst-unique _ _ _ _ _ g h.first)
          ∙ ap (λ id. slot_sent c i (runtime_send ((c.stream_slots i).runtime, t) id bytes len fin))
              (sym h.has_id)
          ∙ ap (slot_sent c i) (
              runtime_send-sent (c.stream_slots i).runtime t bytes len fin h.stream_send h.has_send
                h.some_stream h.landed n)
    ]

-- The callback of a slot for each of the receive events, without FIN.
unfoldable pub slot_receives :
    {T : Type 0}
    → QuestionCheck
    → ℕ
    → World (ConnectionRuntime T × T)
    → Deliveries
    → World (ConnectionRuntime T × T)
slot_receives check_question i w [] = w
slot_receives check_question i w (buffers ∷ events) =
    slot_receives check_question i
      (slot_callback check_question i w (receive (some buffers) false)).0 events

-- Only a shutdown releases a slot.
pub slot_callback-stream_callback :
    {T : Type 0} (check_question : QuestionCheck) (i : ℕ) (w : World (ConnectionRuntime T × T))
    (event : StreamEvent)
    → is_shutdown event ≡ false
    → slot_callback check_question i w event ≡ stream_callback (slot_host i) check_question w event
unfolding slot_callback
slot_callback-stream_callback {T = T} check_question i w event e =
    kept (stream_callback (slot_host i) check_question w event)
  where
    kept : (r : World (ConnectionRuntime T × T) × Status) → release_after i event r ≡ r
    kept (w, status) = ground (arith, e)

slot_receives-receive_events :
    {T : Type 0} (check_question : QuestionCheck) (i : ℕ) (w : World (ConnectionRuntime T × T))
    (events : Deliveries)
    → slot_receives check_question i w events ≡ receive_events (slot_host i) check_question w events
unfolding slot_receives receive_events
slot_receives-receive_events check_question i w [] = refl
slot_receives-receive_events check_question i w (buffers ∷ events) =
    ap (λ r. slot_receives check_question i r.0 events)
      (slot_callback-stream_callback check_question i w (receive (some buffers) false) refl)
    ∙ slot_receives-receive_events check_question i
        (stream_callback (slot_host i) check_question w (receive (some buffers) false)).0 events

module _ {T : Type 0} (check_question : QuestionCheck) (w : World (ConnectionRuntime T × T))
    (i id n : ℕ) (input : Bytes) (k : CanAnswer w.adapter) (h : CanSend w.state.0 i id) where
  -- What `StreamSend` makes of these bytes with FIN.
  abbrev pub streamed : ℕ × Bytes → T × Bool
  streamed b = h.stream_send w.state.1 (w.state.0.stream_slots i).runtime.stream b.1 b.0 true

  -- The reply went to `StreamSend` for the slot's stream, once; it counts as taken as MsQuic says.
  pub record IsStreamed (r : World (ConnectionRuntime T × T) × Status) : Type 0 where
    pub reply : IsReplied (slot_host i) check_question w.adapter k w.state id n input r
    pub by_stream_send :
        reply.after_send
        ≡ (slot_sent w.state.0 i (
            sent
              (mark_runtime_send
                (w.state.0.stream_slots i).runtime
                reply.answer.2.bytes.1
                reply.answer.2.bytes.0)
              (streamed reply.answer.2.bytes))).0
    pub as_taken : reply.answer.2.taken ≡ (streamed reply.answer.2.bytes).1

  streamed-IsStreamed :
      (r : World (ConnectionRuntime T × T) × Status)
      → IsReplied (slot_host i) check_question w.adapter k w.state id n input r
      → IsStreamed r
  streamed-IsStreamed r q =
      let a = q.answer.2 in
      let e =
        sym a.called
        ∙ connection_runtime_send-CanSend w.state.0 w.state.1 i id a.bytes.1 a.bytes.0 true h
            (omega (arith, a.framed.sent_len)) in
      record {
        reply = q;
        by_stream_send = ap (λ x. x.0) e;
        as_taken = ap (λ x. x.1) e ∙ sent-taken _ (streamed a.bytes);
      }
    where
      sent-taken : (r : Runtime T) (x : T × Bool) → (slot_sent w.state.0 i (sent r x)).1 ≡ x.1
      sent-taken r (t, true) = refl
      sent-taken r (t, false) = refl

-- A whole request on a stream of a connection goes to `StreamSend`: however the framed message of
-- DNS ID 0 is split over receive events and their buffers, with FIN in the last, the callback of
-- the slot that serves the stream calls `StreamSend` for the slot's stream with the framed response
-- of the worker to that message, counts it as in flight if MsQuic takes it and forgets the stream
-- if not, and answers with a success. The conditions are that the slot can send and takes requests,
-- the queue is empty, nothing is in flight, the buffers have room, and the table can take the
-- stream.
pub slot_receives-IsStreamed :
    {T : Type 0} (check_question : QuestionCheck) (w : World (ConnectionRuntime T × T))
    (i id p capacity n : ℕ) (input : Bytes) (events : Deliveries) (last : List (Option Bytes × ℕ))
    → (h : CanSend w.state.0 i id) → IsOpen id p capacity (w.state.0.stream_slots i).runtime
    → IsEmpty w.queue
    → IsValid w.adapter
    → (k : CanAnswer w.adapter) → CanOpen w.adapter.connection id
    → IsFramed input n
    → ((j : ℕ) → input j < 256)
    → input 2 ≡ 0
    → input 3 ≡ 0
    → AllCarry capacity input events
    → Carries capacity (skip (total_delivered events) input) last
    → total_delivered events + total_len last ≡ n + 2
    → IsStreamed check_question w i id n input k h (
        slot_callback check_question i
          (slot_receives check_question i w events)
          (receive (some last) true))
slot_receives-IsStreamed check_question w i id p capacity n input events last h o q v k t f octets
      hi lo c d e =
    subst (IsStreamed check_question w i id n input k h)
      (sym (
        ap (λ w. slot_callback check_question i w (receive (some last) true))
          (slot_receives-receive_events check_question i w events)
        ∙ slot_callback-stream_callback check_question i _ (receive (some last) true) refl))
      (streamed-IsStreamed check_question w i id n input k h _ (
        receive-IsReplied (slot_host i) check_question w id p capacity n input events last o q v k t
          f octets hi lo c d e))
