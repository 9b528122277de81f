-- ===== src/Runtime/Requests.antt =====
-- A whole request through the callback of shell/msquic_runtime.c: the receive events of a stream,
-- by the ingress buffer, the queue and the adapter, to the send of its response.
use native.Mathlib.Nat.{add_assoc, add-zero}
use ism.Prelude.{
  ℕ, ◌+◌, ◌≤◌, ◌<◌, ◌≡◌, ◌∙◌, sym, ap, subst, refl, fun_ext, arith, Bool, true, false, not, ltb,
  ◌==◌, if_cases, if◌then◌else◌, Option, none, some, Bytes, List, [], ◌∷◌,
}
use ism.Stream.{Stream, handle_stream_data, shell_phase_code, done, reading_length}
use ism.Stream.Phases.{skip, phase_after}
use ism.Stream.Messages.{IsFramed}
use ism.Stream.Extents.{handle_stream_data-agree}
use ism.Table.{Connection, open_stream, dispatch, dispatch_authenticated_stream_data}
use ism.Table.Valid
use ism.Table.Ingress.{dispatch_authenticated_stream_data_lem}
use ism.Worker.{QuestionCheck}
use ism.Adapter.{Adapter, prepare_ready_response}
use ism.Adapter.Completion.{IsValid}
use ism.Adapter.Events.{with_connection-IsValid}
use ism.Adapter.Requests.{Receives, table_step, not_ready, not_done}
use ism.Queue.{Queue, Event, enqueue, dequeue}
use ism.Queue.Dispatch.{Heap, ingested, handle_event}
use ism.Queue.Dispatch.Single.{IsEmpty, enqueue-dequeue}
use ism.Runtime.{
  Runtime, World, Host, runtime_of, stored, copy_enqueue_and_dispatch, receive_buffers,
}
use ism.Runtime.Steps.{handled, bytes_of, copy_enqueue_and_dispatch-handled}

-- The runtime of a stream that takes requests: its adapter, queue and ingress buffer are there, and
-- FIN has not come.
pub record IsOpen {T : Type 0} (id p capacity : ℕ) (r : Runtime T) : Type 0 where
  pub adapter_there : r.has_adapter ≡ true
  pub queue_there : r.has_queue ≡ true
  pub has_id : r.stream_id ≡ id
  pub has_ingress : r.ingress_buffer ≡ some p
  pub has_capacity : r.ingress_capacity ≡ capacity
  pub no_fin : r.received_fin ≡ false

-- The buffers carry the bytes at `input`, each within the ingress buffer; an empty one may be NULL.
abbrev pub Carries : ℕ → Bytes → List (Option Bytes × ℕ) → Type 0
Carries capacity input [] = Unit {0}
Carries capacity input ((none, len) ∷ buffers) = (len ≡ 0) × Carries capacity input buffers
Carries capacity input ((some bytes, len) ∷ buffers) =
    (len ≤ capacity)
    × ((i : ℕ) → i < len → bytes i ≡ input i)
    × Carries capacity (skip len input) buffers

abbrev pub total_len : List (Option Bytes × ℕ) → ℕ
total_len [] = 0
total_len ((bytes, len) ∷ buffers) = len + total_len buffers

-- The table reads a fragment only.
dispatch-agree :
    (c : Connection) (id : ℕ) (b d : Bytes) (len : ℕ)
    → ((i : ℕ) → i < len → b i ≡ d i)
    → dispatch_authenticated_stream_data c id b len ≡ dispatch_authenticated_stream_data c id d len
unfolding dispatch_authenticated_stream_data
dispatch-agree c id b d len h =
    ap
      (λ (f : Stream → Stream).
        let (c', stream) = open_stream c id in
        elim stream as (λ x. Connection × ℕ) [
          | none ↦ (c', shell_phase_code done)
          | some p ↦ dispatch c' p f
        ])
      (fun_ext λ s. handle_stream_data-agree b d len h s)

module _ {S T : Type 0} (host : Host S T) (check_question : QuestionCheck) (id n : ℕ)
    (input : Bytes) (f : IsFramed input n) (octets : (i : ℕ) → input i < 256)
    (before : Connection) where
  -- The event of a fragment within the message is handled: the table takes it in.
  bytes-handled :
      (w : World S) (p k m : ℕ)
      → Valid.IsValid w.adapter.connection
      → Receives id input n f octets before k w.adapter.connection
      → k + m ≤ n + 2
      → ((i : ℕ) → i < m → w.heap p i ≡ skip k input i)
      → handle_event check_question host.send w.heap (bytes_of id p m) w.adapter w.state ≡ (
        true,
        record w.adapter {
          connection =
              (dispatch_authenticated_stream_data w.adapter.connection id (skip k input) m).0;
        },
        w.state,
      )
  unfolding handle_event
  bytes-handled w p k m v h l b =
      ap (λ (d : Connection × ℕ). taken (record w.adapter { connection = d.0 }) d.1)
        (dispatch-agree w.adapter.connection id (w.heap p) (skip k input) m b)
      ∙ ap
          (λ b.
            if b
            then (let (n, a, s) =
                  prepare_ready_response check_question host.send after w.state id in
                (ltb 0 n, a, s))
            else (not (read.1 == 3), after, w.state))
          (ap (λ c. c == 2) code ∙ not_ready input n (k + m) f l)
      ∙ ap (λ b. (not b, after, w.state)) (ap (λ c. c == 3) code ∙ not_done input n (k + m) f l)
    where
      taken : Adapter → ℕ → Bool × Adapter × S
      taken a phase = ingested check_question host.send w.heap a w.state id phase

      read : Connection × ℕ
      read = dispatch_authenticated_stream_data w.adapter.connection id (skip k input) m

      after : Adapter
      after = record w.adapter { connection = read.0 }

      code : read.1 ≡ shell_phase_code (phase_after reading_length input (k + m))
      code = (table_step id input n f octets before w.adapter.connection k m v h l).0

  -- The world after `k` bytes of the message: nothing is sent, the queue is empty again and the
  -- table has the bytes.
  abbrev pub After : World S → ℕ → World S × Bool → Type 0
  After w k r =
      (heap : Heap) × (queue : Queue) × (c : Connection) × IsEmpty queue
      × (r ≡ (
        record w { heap = heap; queue = queue; adapter = record w.adapter { connection = c } },
        true,
      ))
      × IsValid (record w.adapter { connection = c })
      × Receives id input n f octets before k c

  -- A buffer with the next bytes of the message goes through to the table.
  copied :
      (w : World S) (p capacity k m : ℕ) (bytes : Bytes)
      → IsOpen id p capacity (runtime_of host w)
      → IsEmpty w.queue
      → IsValid w.adapter
      → Receives id input n f octets before k w.adapter.connection
      → k + m ≤ n + 2
      → m ≤ capacity
      → ((i : ℕ) → i < m → bytes i ≡ skip k input i)
      → After w (k + m) (copy_enqueue_and_dispatch host check_question w (some bytes) m)
  copied w p capacity k m bytes o q v h l c b =
      let d =
        dispatch_authenticated_stream_data_lem w.adapter.connection id (skip k input) m
          (λ i. octets (k + i)) v.table in
      let read = dispatch_authenticated_stream_data w.adapter.connection id (skip k input) m in
      (
        there.heap,
        (dequeue (enqueue w.queue event).0).0,
        read.0,
        (enqueue-dequeue w.queue event q).2,
        copy_enqueue_and_dispatch-handled host check_question w p bytes m
              (record { adapter_there = o.adapter_there; queue_there = o.queue_there; emptied = q })
              o.has_ingress (omega (arith, c, o.has_capacity)) o.no_fin
            ∙ ap (λ id. handled host check_question there (bytes_of id p m)) o.has_id
            ∙ ap
                (λ (r : Bool × Adapter × S). (
                  record there {
                    queue = (dequeue (enqueue w.queue event).0).0;
                    adapter = r.1;
                    state = r.2;
                  },
                  r.0,
                ))
                (bytes-handled there p k m v.table h l (λ i l. ground (arith, b i l))),
        with_connection-IsValid w.adapter id (λ t. handle_stream_data t (skip k input) m) read v d.0
            d.1,
        (table_step id input n f octets before w.adapter.connection k m v.table h l).1,
      )
    where
      there : World S
      there = stored host check_question w p bytes m

      event : Event
      event = bytes_of id p m

  abbrev CarriesFrom : ℕ → ℕ → List (Option Bytes × ℕ) → Type 0
  CarriesFrom capacity k buffers = Carries capacity (skip k input) buffers

  pub received :
      (buffers : List (Option Bytes × ℕ)) (w : World S) (p capacity k : ℕ)
      → IsOpen id p capacity (runtime_of host w)
      → IsEmpty w.queue
      → IsValid w.adapter
      → Receives id input n f octets before k w.adapter.connection
      → k + total_len buffers ≤ n + 2
      → CarriesFrom capacity k buffers
      → After w (k + total_len buffers) (receive_buffers host check_question w buffers)
  unfolding receive_buffers
  received [] w p capacity k o q v h l c = (
    w.heap,
    w.queue,
    w.adapter.connection,
    q,
    refl,
    v,
    subst (λ j. Receives id input n f octets before j w.adapter.connection) (sym (add-zero k)) h,
  )
  received ((none, len) ∷ buffers) w p capacity k o q v h l (z, c) =
      if_cases (After w (k + (len + total_len buffers))) (len == 0)
        (λ e.
          subst (λ j. After w j (receive_buffers host check_question w buffers)) (omega (arith, z))
            (received buffers w p capacity k o q v h (omega (arith, l)) c))
        (λ e. absurd (ground (arith, z)))
  received ((some bytes, len) ∷ buffers) w p capacity k o q v h l (m, b, c) =
      if_cases (After w (k + (len + total_len buffers))) (len == 0)
        (λ e.
          let z : len ≡ 0 = ground (arith, e) in
          subst (λ j. After w j (receive_buffers host check_question w buffers)) (omega (arith, z))
            (received buffers w p capacity k o q v h (omega (arith, l))
              (subst (λ d. Carries capacity d buffers) (fun_ext λ i. ap input (shift z i)) c)))
        (λ e.
          let (heap, queue, t, x, eq, u, g) =
            copied w p capacity k len bytes o q v h (omega (arith, l)) m b in
          let w' : World S = record w {
            heap = heap;
            queue = queue;
            adapter = record w.adapter { connection = t };
          } in
          subst
            (λ (r : World S × Bool).
              After w (k + (len + total_len buffers))
                (if r.1 then receive_buffers host check_question r.0 buffers else (r.0, false)))
            (sym eq)
            (subst (λ j. After w j (receive_buffers host check_question w' buffers))
              (add_assoc k len (total_len buffers))
              (received buffers w' p capacity (k + len) o x u g (omega (arith, l)) (
                subst (λ d. Carries capacity d buffers)
                  (fun_ext λ i. ap input (sym (add_assoc k len i))) c))))
    where
      shift : len ≡ 0 → (i : ℕ) → k + (len + i) ≡ k + i
      shift z i = omega (arith, z)
