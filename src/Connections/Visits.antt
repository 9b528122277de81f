-- ===== src/Connections/Visits.antt =====
-- Streams that come to a connection one after the other, each with a whole request, through the
-- callbacks of shell/msquic_connection_runtime.c from its start to its shutdown.
use ism.Prelude.{
  ℕ, ◌+◌, ◌<◌, ◌≡◌, ◌≢◌, ◌∙◌, sym, ap, subst, arith, Bool, true, Option, none, some, Bytes, List,
  [], ◌∷◌, ℕ_discrete,
}
use ism.Stream.Phases.{skip}
use ism.Stream.Messages.{IsFramed}
use ism.Worker.{QuestionCheck}
use ism.Table.Find.{lookup}
use ism.Adapter.Answers.{CanAnswer}
use ism.Adapter.Sessions.{IsRested, empty-CanOpen}
use ism.Queue.Dispatch.Single.{IsEmpty}
use ism.Runtime.{World, Status, success, receive, shutdown_complete}
use ism.Runtime.Requests.{IsOpen, Carries, total_len}
use ism.Runtime.Answers.{Deliveries, total_delivered, AllCarry}
use ism.Connections.{
  ConnectionApi, ConnectionRuntime, allocate_slot, connection_callback, peer_stream_started,
  slot_callback, slot_handler,
}
use ism.Connections.Requests.{CanSend, slot_receives, IsStreamed, slot_receives-IsStreamed}
use ism.Connections.Aborts.{peer_aborts}
use ism.Connections.Landing.{close_send}
use ism.Connections.Life.{IsOver, streamed_now, streamed-IsOver}
use ism.Connections.Opening.{
  IsVacant, opened, peer_stream_started-opened, opened-CanSend, opened-IsOpen, released-IsVacant,
}

-- A stream with its ID, the bytes that its peer sends, the receive events that bring them, FIN in
-- the last, how often the peer aborts the stream after that, and whether MsQuic reports the
-- completion of the answer as canceled.
pub record Visit : Type 0 where
  pub stream : ℕ
  pub id : ℕ
  pub len : ℕ
  pub input : Bytes
  pub events : Deliveries
  pub last : List (Option Bytes × ℕ)
  pub aborts : ℕ
  pub canceled : Bool

-- The peer starts the stream.
abbrev pub enter :
    {T : Type 0}
    → ℕ
    → Visit
    → World (ConnectionRuntime T × T)
    → World (ConnectionRuntime T × T) × Status
enter connection v w =
    let (s, status) = connection_callback w.state connection (peer_stream_started v.stream) in
    (record w { state = s }, status)

module _ {T : Type 0} (check_question : QuestionCheck) where
  -- Its request comes in, by the callback of its slot.
  abbrev pub request :
      Visit → ℕ → World (ConnectionRuntime T × T) → World (ConnectionRuntime T × T) × Status
  request v i w =
      slot_callback check_question i (slot_receives check_question i w v.events)
        (receive (some v.last) true)

  -- The peer aborts, the answer is completed, where MsQuic took it, and the stream shut down.
  abbrev pub leave :
      Visit → ℕ → World (ConnectionRuntime T × T) → World (ConnectionRuntime T × T) × Status
  leave v i w =
      slot_callback check_question i
        (close_send check_question i v.canceled (peer_aborts check_question i v.aborts w))
        shutdown_complete

  -- The whole visit, in the slot whose handler MsQuic was given.
  abbrev pub visit : ℕ → Visit → World (ConnectionRuntime T × T) → World (ConnectionRuntime T × T)
  visit connection v w = elim (allocate_slot w.state.0 w.state.1 v.stream).1 [
    | none ↦ (enter connection v w).0
    | some i ↦ (leave v i (request v i (enter connection v w).0).0).0
  ]

module _ {T : Type 0} (api : ConnectionApi T) (capacity : ℕ) where
  -- The visit brings a framed message of DNS ID 0, in buffers that fit in the ingress buffers of
  -- the slots, and MsQuic tells the ID of its stream.
  pub record IsWhole (v : Visit) : Type 0 where
    pub some_stream : v.stream ≢ 0
    pub told : (t : T) → api.get_stream_id t v.stream ≡ some (v.id, 8)
    pub framed : IsFramed v.input v.len
    pub octets : (i : ℕ) → v.input i < 256
    pub id_hi : v.input 2 ≡ 0
    pub id_lo : v.input 3 ≡ 0
    pub carried : AllCarry capacity v.input v.events
    pub carried_last : Carries capacity (skip (total_delivered v.events) v.input) v.last
    pub complete : total_delivered v.events + total_len v.last ≡ v.len + 2

  abbrev pub AreWhole : List Visit → Type 0
  AreWhole [] = Unit
  AreWhole (v ∷ vs) = IsWhole v × AreWhole vs

  -- The connection is at rest: no stream, no event, and an adapter at rest.
  pub record IsServing (w : World (ConnectionRuntime T × T)) : Type 0 where
    pub vacant : IsVacant api capacity w.state.0
    pub emptied : IsEmpty w.queue
    pub rested : IsRested w.adapter

-- In slot `i` the visit was answered by `StreamSend`, with the response of the worker to its
-- message, and MsQuic was told of a success at FIN and at the shutdown.
pub record IsAttended {T : Type 0} (check_question : QuestionCheck) (v : Visit) (i : ℕ)
    (w : World (ConnectionRuntime T × T)) : Type 0 where
  pub sends : CanSend w.state.0 i v.id
  pub answers : CanAnswer w.adapter
  pub streamed :
      IsStreamed check_question w i v.id v.len v.input answers sends (request check_question v i w)
  pub left : (leave check_question v i (request check_question v i w).0).1 ≡ success

module _ {T : Type 0} (check_question : QuestionCheck) (api : ConnectionApi T)
    (capacity connection : ℕ) (stream_send : T → ℕ → Bytes → ℕ → Bool → T × Bool)
    (has_send : api.of_streams.stream_send ≡ some stream_send) where
  opened-IsAttended :
      (v : Visit) (w : World (ConnectionRuntime T × T)) (i : ℕ) (t : T)
      → IsServing api capacity w
      → IsWhole api capacity v
      → i < w.state.0.stream_slot_count
      → let now = record w {
        state = (opened api capacity w.state.0 w.state.1 v.stream v.id connection i, t);
      } in
        IsAttended check_question v i now
        × IsServing api capacity (leave check_question v i (request check_question v i now).0).0
  opened-IsAttended v w i t s q l = (
    record { sends = sends; answers = answers; streamed = replied; left = over.status },
    record {
      vacant =
          subst (λ (s : ConnectionRuntime T × T). IsVacant api capacity s.0) (sym over.state)
            (released-IsVacant api capacity w.state.0 w.state.1
              (streamed_now check_question now i v.id p capacity v.len v.input answers sends
                open_now (request check_question v i now) replied).0
              v.stream v.id connection i s.vacant);
      emptied = over.emptied;
      rested = record {
        valid = over.valid;
        idle = over.idle;
        room = over.room;
        empty = λ x. elim (ℕ_discrete x v.id) [
          | yes k ↦ ap (lookup (gone).adapter.connection) k ∙ over.forgotten
          | no k ↦ over.others x k ∙ s.rested.empty x
        ];
      };
    },
  )
    where
      here : ConnectionRuntime T
      here = opened api capacity w.state.0 w.state.1 v.stream v.id connection i

      now : World (ConnectionRuntime T × T)
      now = record w { state = (here, t) }

      p : ℕ
      p = (s.vacant.buffers i l).0

      answers : CanAnswer w.adapter
      answers = record { landed = s.rested.idle.landed; room = s.rested.room }

      sends : CanSend here i v.id
      sends =
          opened-CanSend api capacity w.state.0 w.state.1 v.stream v.id connection i stream_send
            s.vacant q.some_stream l has_send

      open_now : IsOpen v.id p capacity (here.stream_slots i).runtime
      open_now =
          opened-IsOpen api capacity w.state.0 w.state.1 v.stream v.id connection i s.vacant l

      replied :
          IsStreamed check_question now i v.id v.len v.input answers sends
            (request check_question v i now)
      replied =
          slot_receives-IsStreamed check_question now i v.id p capacity v.len v.input v.events
            v.last sends open_now s.emptied s.rested.valid answers
            (empty-CanOpen w.adapter.connection v.id s.rested.valid.table s.rested.empty) q.framed
            q.octets q.id_hi q.id_lo q.carried q.carried_last q.complete

      gone : World (ConnectionRuntime T × T)
      gone = (leave check_question v i (request check_question v i now).0).0

      over :
          IsOver check_question i v.id w.adapter.connection here
            (streamed_now check_question now i v.id p capacity v.len v.input answers sends open_now
              (request check_question v i now)
              replied).0
            (leave check_question v i (request check_question v i now).0)
      over =
          streamed-IsOver check_question now i v.id p capacity v.len v.input answers sends open_now
            (request check_question v i now) replied v.aborts v.canceled

  -- The visit gets a slot, MsQuic hears of a success, and the request is answered in the slot.
  abbrev pub IsVisited : Visit → World (ConnectionRuntime T × T) → Type 0
  IsVisited v w =
      (i : ℕ) × ((allocate_slot w.state.0 w.state.1 v.stream).1 ≡ some i)
      × ((enter connection v w).1 ≡ success)
      × IsAttended check_question v i (enter connection v w).0

  visit-IsVisited :
      (v : Visit) (w : World (ConnectionRuntime T × T))
      → 0 < capacity
      → IsServing api capacity w
      → IsWhole api capacity v
      → IsVisited v w × IsServing api capacity (visit check_question connection v w)
  visit-IsVisited v w z s q =
      let (i, l, a, e) =
        peer_stream_started-opened api capacity w.state.0 w.state.1 v.stream v.id connection
          s.vacant z (ground (arith, q.some_stream)) (q.told w.state.1) in
      let (x, y) =
        subst
          (λ (r : (ConnectionRuntime T × T) × Status).
            let now : World (ConnectionRuntime T × T) = record w { state = r.0 } in
            IsAttended check_question v i now
            × IsServing api capacity
                (leave check_question v i (request check_question v i now).0).0)
          (sym e)
          (opened-IsAttended v w i (api.set_callback_handler w.state.1 v.stream (slot_handler i)) s
            q l) in
      (
        (i, a, ap (λ r. r.1) e, x),
        subst
            (λ (o : Option ℕ). IsServing api capacity (elim o [
              | none ↦ (enter connection v w).0
              | some i ↦
                  (leave check_question v i
                    (request check_question v i (enter connection v w).0).0).0
            ]))
            (sym a) y,
      )

  -- The visits are served one after the other, and the connection is at rest in the end.
  abbrev pub AreVisited : World (ConnectionRuntime T × T) → List Visit → Type 0
  AreVisited w [] = IsServing api capacity w
  AreVisited w (v ∷ vs) = IsVisited v w × AreVisited (visit check_question connection v w) vs

  -- A connection at rest serves any sequence of streams, one after the other: each gets a slot, its
  -- whole request of DNS ID 0, however it is split over receive events and buffers, is answered by
  -- `StreamSend` with the framed response of the worker, and its completion, whether or not
  -- canceled, or MsQuic's refusal of the answer, and its shutdown free the slot and leave the
  -- connection at rest again, however often the peer aborts the stream after the request. The conditions are that the slots have ingress buffers of one positive
  -- size, that the API has `StreamSend`, and that it tells the ID of every such stream.
  pub visit-AreVisited :
      (w : World (ConnectionRuntime T × T)) (vs : List Visit)
      → 0 < capacity
      → IsServing api capacity w
      → AreWhole api capacity vs
      → AreVisited w vs
  visit-AreVisited w [] z s q = s
  visit-AreVisited w (v ∷ vs) z s (q, r) =
      let (x, y) = visit-IsVisited v w z s q in
      (x, visit-AreVisited (visit check_question connection v w) vs z y r)
