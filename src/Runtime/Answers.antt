-- ===== src/Runtime/Answers.antt =====
-- The answer to a whole request through the callback of shell/msquic_runtime.c: receive events with
-- the message, and FIN with the last.
use native.Mathlib.Nat.{zero-add, add_assoc, add-zero}
use ism.Prelude.{
  ℕ, ◌+◌, ◌≤◌, ◌<◌, ◌≡◌, ◌∙◌, sym, ap, subst, refl, fun_ext, arith, Bool, true, false, ◌==◌, Option,
  some, Bytes, List, [], ◌∷◌,
}
use ism.Stream.Phases.{skip}
use ism.Stream.Messages.{IsFramed}
use ism.Table.{Connection}
use ism.Worker.{QuestionCheck}
use ism.Adapter.{Adapter, adapter_on_authenticated_stream_fin}
use ism.Adapter.Completion.{IsValid}
use ism.Adapter.Answers.{CanAnswer}
use ism.Adapter.Requests.{Receives, CanOpen, CanOpen-Receives, IsAnswerTo, whole-IsAnswerTo}
use ism.Queue.{enqueue, dequeue}
use ism.Queue.Dispatch.{handle_event}
use ism.Queue.Dispatch.Single.{IsEmpty, enqueue-dequeue}
use ism.Runtime.{
  World, Host, Status, success, receive, runtime_of, fin_received, receive_buffers, with_fin,
  on_msquic_receive, or_protocol_error, stream_callback, on_fin,
}
use ism.Runtime.Steps.{handled, fin_event, on_fin-handled}
use ism.Runtime.Requests.{IsOpen, Carries, total_len, After, received}

-- The buffers of several receive events, one after the other.
abbrev pub Deliveries : Type 0
Deliveries = List (List (Option Bytes × ℕ))

abbrev pub total_delivered : Deliveries → ℕ
total_delivered [] = 0
total_delivered (buffers ∷ events) = total_len buffers + total_delivered events

abbrev pub AllCarry : ℕ → Bytes → Deliveries → Type 0
AllCarry capacity input [] = Unit {0}
AllCarry capacity input (buffers ∷ events) =
    Carries capacity input buffers × AllCarry capacity (skip (total_len buffers) input) events

-- The callback for each of the events, without FIN.
unfoldable pub receive_events :
    {S T : Type 0} → Host S T → QuestionCheck → World S → Deliveries → World S
receive_events host check_question w [] = w
receive_events host check_question w (buffers ∷ events) =
    receive_events host check_question
      (stream_callback host check_question w (receive (some buffers) false)).0 events

module _ {S T : Type 0} (host : Host S T) (check_question : QuestionCheck) (id n : ℕ)
    (input : Bytes) (f : IsFramed input n) (octets : (i : ℕ) → input i < 256)
    (before : Connection) where
  abbrev Reaches : World S → ℕ → World S × Bool → Type 0
  Reaches = After host check_question id n input f octets before

  one_event :
      (buffers : List (Option Bytes × ℕ)) (w : World S) (p capacity k : ℕ)
      → IsOpen id p capacity (runtime_of host w)
      → IsEmpty w.queue
      → IsValid w.adapter
      → Receives id input n f octets before k w.adapter.connection
      → k + total_len buffers ≤ n + 2
      → Carries capacity (skip k input) buffers
      → Reaches w
          (k + total_len buffers)
          ((stream_callback host check_question w (receive (some buffers) false)).0, true)
  unfolding stream_callback on_msquic_receive
  one_event buffers w p capacity k o q v h l c =
      let (heap, queue, t, x, eq, u, g) =
        received host check_question id n input f octets before buffers w p capacity k o q v h l
          c in
      (
        heap,
        queue,
        t,
        x,
        ap (λ r. ((or_protocol_error host (with_fin host check_question false r)).0, true)) eq,
        u,
        g,
      )

  all_events :
      (events : Deliveries) (w : World S) (p capacity k : ℕ)
      → IsOpen id p capacity (runtime_of host w)
      → IsEmpty w.queue
      → IsValid w.adapter
      → Receives id input n f octets before k w.adapter.connection
      → k + total_delivered events ≤ n + 2
      → AllCarry capacity (skip k input) events
      → Reaches w (k + total_delivered events) (receive_events host check_question w events, true)
  unfolding receive_events
  all_events [] w p capacity k o q v h l c = (
    w.heap,
    w.queue,
    w.adapter.connection,
    q,
    refl,
    v,
    subst (λ j. Receives id input n f octets before j w.adapter.connection) (sym (add-zero k)) h,
  )
  all_events (buffers ∷ events) w p capacity k o q v h l (c, d) =
      let (heap, queue, t, x, eq, u, g) =
        one_event buffers w p capacity k o q v h (omega (arith, l)) c in
      let w' : World S = record w {
        heap = heap;
        queue = queue;
        adapter = record w.adapter { connection = t };
      } in
      subst
        (λ (r : World S × Bool).
          Reaches w (k + (total_len buffers + total_delivered events))
            (receive_events host check_question r.0 events, true))
        (sym eq)
        (subst (λ j. Reaches w j (receive_events host check_question w' events, true))
          (add_assoc k (total_len buffers) (total_delivered events))
          (all_events events w' p capacity (k + total_len buffers) o x u g (omega (arith, l)) (
            subst (λ b. AllCarry capacity b events)
              (fun_ext λ i. ap input (sym (add_assoc k (total_len buffers) i))) d)))

-- What a whole request leaves: the answer by the send callback, the runtime with FIN received, an
-- empty queue, and a success for MsQuic.
pub record IsReplied {S T : Type 0} (host : Host S T) (check_question : QuestionCheck) (a : Adapter)
    (k : CanAnswer a) (s : S) (id n : ℕ) (input : Bytes) (r : World S × Status) : Type 0 where
  pub after_send : S
  pub answer : IsAnswerTo check_question host.send a k s id n input (2, r.0.adapter, after_send)
  pub fin_noted :
      r.0.state ≡ host.set after_send (record (host.get after_send) { received_fin = true })
  pub emptied : IsEmpty r.0.queue
  pub status : r.1 ≡ success

-- FIN, once the table has the whole message.
fin-IsReplied :
    {S T : Type 0} (host : Host S T) (check_question : QuestionCheck) (w : World S)
    (id p capacity n : ℕ) (input : Bytes) (f : IsFramed input n) (octets : (i : ℕ) → input i < 256)
    (k : CanAnswer w.adapter) (c : Connection)
    → IsOpen id p capacity (runtime_of host w)
    → IsEmpty w.queue
    → IsValid (record w.adapter { connection = c })
    → Receives id input n f octets w.adapter.connection (n + 2) c
    → input 2 ≡ 0
    → input 3 ≡ 0
    → IsReplied host check_question w.adapter k w.state id n input (
        or_protocol_error host
          (on_fin host check_question (record w { adapter = record w.adapter { connection = c } })))
unfolding handle_event
fin-IsReplied {S = S} host check_question w id p capacity n input f octets k c o q v g hi lo =
    subst (IsReplied host check_question w.adapter k w.state id n input)
      (sym (
        ap (or_protocol_error host) (
          on_fin-handled host check_question there
            (record { adapter_there = o.adapter_there; queue_there = o.queue_there; emptied = q })
            o.no_fin
          ∙ ap
              (λ id.
                fin_received host check_question (handled host check_question there (fin_event id)))
              o.has_id
          ∙ ap (λ code. fin_received host check_question (after, code == 2)) answered.2.code)))
      (record {
        after_send = reply.2;
        answer =
            subst (IsAnswerTo check_question host.send w.adapter k w.state id n input)
              (ap (λ code. (code, reply.1, reply.2)) answered.2.code) answered;
        fin_noted = refl;
        emptied = (enqueue-dequeue w.queue (fin_event id) q).2;
        status = refl;
      })
  where
    there : World S
    there = record w { adapter = record w.adapter { connection = c } }

    reply : ℕ × Adapter × S
    reply = adapter_on_authenticated_stream_fin check_question host.send there.adapter w.state id

    after : World S
    after = record w {
      queue = (dequeue (enqueue w.queue (fin_event id)).0).0;
      adapter = reply.1;
      state = reply.2;
    }

    answered : IsAnswerTo check_question host.send w.adapter k w.state id n input reply
    answered =
        whole-IsAnswerTo check_question host.send w.adapter w.state id n input f octets k c v g hi
          lo

-- A whole request that MsQuic receives is answered: however the framed message of DNS ID 0 is split
-- over receive events and their buffers, each of which fits in the ingress buffer, with FIN in the
-- last event, the callback hands the framed response of the worker to exactly that message to the
-- send of the host, before which nothing is sent, answers MsQuic with a success, and leaves the
-- queue empty, the adapter valid and the other streams untouched. The conditions are that the
-- stream's runtime is bound and FIN has not come, the queue is empty, nothing is in flight, the
-- buffers have room for any response, and the table can take the stream.
pub receive-IsReplied :
    {S T : Type 0} (host : Host S T) (check_question : QuestionCheck) (w : World S)
    (id p capacity n : ℕ) (input : Bytes) (events : Deliveries) (last : List (Option Bytes × ℕ))
    → IsOpen id p capacity (runtime_of host w)
    → IsEmpty w.queue
    → IsValid w.adapter
    → (k : CanAnswer w.adapter) → CanOpen w.adapter.connection id
    → IsFramed input n
    → ((i : ℕ) → input i < 256)
    → input 2 ≡ 0
    → input 3 ≡ 0
    → AllCarry capacity input events
    → Carries capacity (skip (total_delivered events) input) last
    → total_delivered events + total_len last ≡ n + 2
    → IsReplied host check_question w.adapter k w.state id n input (
        stream_callback host check_question
          (receive_events host check_question w events)
          (receive (some last) true))
unfolding stream_callback on_msquic_receive
receive-IsReplied {S = S} host check_question w id p capacity n input events last o q v k t f octets
      hi lo c d e =
    let (heap, queue, x, q', eq, u, g) =
      all_events host check_question id n input f octets w.adapter.connection events w p capacity 0
        o q v (CanOpen-Receives id n input f octets w.adapter.connection t) (omega (arith, e))
        (from c) in
    let w' : World S = record w {
      heap = heap;
      queue = queue;
      adapter = record w.adapter { connection = x };
    } in
    let (heap', queue', y, q'', eq', u', g') =
      received host check_question id n input f octets w.adapter.connection last w' p capacity
        (0 + total_delivered events) o q' u g (omega (arith, e))
        (subst (λ j. Carries capacity (skip j input) last) (sym (zero-add (total_delivered events)))
          d) in
    subst
      (λ (r : World S × Bool). Replied (
        or_protocol_error host
          (with_fin host check_question true (receive_buffers host check_question r.0 last))))
      (sym eq)
      (subst (λ r. Replied (or_protocol_error host (with_fin host check_question true r))) (sym eq')
        (fin-IsReplied host check_question (record w { heap = heap'; queue = queue' }) id p capacity
          n input f octets k y o q'' u'
          (subst (λ j. Receives id input n f octets w.adapter.connection j y) (omega (arith, e)) g')
          hi lo))
  where
    Replied : World S × Status → Type 0
    Replied = IsReplied host check_question w.adapter k w.state id n input

    from : AllCarry capacity input events → AllCarry capacity (skip 0 input) events
    from = subst (λ b. AllCarry capacity b events) (fun_ext λ i. ap input (sym (zero-add i)))
