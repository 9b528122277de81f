-- ===== src/Adapter/Sessions.antt =====
-- Sessions of shell/msquic_adapter.c: requests one after the other, each delivered, ended by FIN,
-- and its send, if the transport took it, completed.
use ism.Prelude.{
  ℕ, ◌+◌, ◌<◌, ◌≡◌, ◌∙◌, inl, inr, ◌⊎◌, ap, refl, arith, Bool, true, false, if_cases, if◌then◌else◌,
  none, some, Bytes, List, [], ◌∷◌, dec_lt, ℕ_discrete,
}
use ism.Stream.{Stream}
use ism.Stream.Messages.{IsFramed, total}
use ism.Table.{Connection, max_streams}
use ism.Table.Find.{lookup, lookup-Holds}
use ism.Table.Valid
use ism.Table.Valid.{IsLinked-IsSearchable}
use ism.Worker.{QuestionCheck, prepare_worker_validated_minimal_response_send}
use ism.Adapter.{Adapter, Send, adapter_on_authenticated_stream_fin, on_send_complete}
use ism.Adapter.Completion.{IsValid, IsIdle, InFlight, on_send_complete_lem}
use ism.Adapter.Rooms.{HasRoom, on_send_complete-HasRoom}
use ism.Adapter.Progress.{IsAnswered}
use ism.Adapter.Requests.{deliver, CanOpen, deliver-IsAnswered}

-- A stream, the bytes that its peer sends, the lengths of the fragments, and whether the
-- completion of its answer is reported as dropped.
pub record Request : Type 0 where
  pub id : ℕ
  pub len : ℕ
  pub input : Bytes
  pub lens : List ℕ
  pub dropped : Bool

-- The bytes are a framed message of DNS ID 0, and the fragments make it up.
pub record IsWhole (q : Request) : Type 0 where
  pub framed : IsFramed q.input q.len
  pub octets : (i : ℕ) → q.input i < 256
  pub id_hi : q.input 2 ≡ 0
  pub id_lo : q.input 3 ≡ 0
  pub complete : total q.lens ≡ q.len + 2

abbrev pub AreWhole : List Request → Type 0
AreWhole [] = Unit
AreWhole (q ∷ qs) = IsWhole q × AreWhole qs

-- The transport completes a send that is in flight.
abbrev pub finish : Adapter → ℕ → Bool → Adapter
finish a id dropped = if a.send_in_flight then (on_send_complete a id a.send_len dropped).0 else a

module _ {S : Type 0} (check_question : QuestionCheck) (send : Send S) where
  abbrev pub fin_of : Request → Adapter → S → ℕ × Adapter × S
  fin_of q a s =
      let r = deliver check_question send q.id q.input a s q.lens in
      adapter_on_authenticated_stream_fin check_question send r.0 r.1 q.id

  abbrev pub serve : Request → Adapter → S → Adapter × S
  serve q a s = let r = fin_of q a s in (finish r.1 q.id q.dropped, r.2)

-- The adapter is at rest: valid, nothing in flight, no stream in the table, and room for any
-- response.
pub record IsRested (a : Adapter) : Type 0 where
  pub valid : IsValid a
  pub idle : IsIdle a
  pub room : HasRoom a
  pub empty : (id : ℕ) → lookup a.connection id ≡ none

-- A table that holds no stream can open any.
pub empty-CanOpen :
    (c : Connection) (id : ℕ) → Valid.IsValid c → ((id : ℕ) → lookup c id ≡ none) → CanOpen c id
empty-CanOpen c id v e = record {
  room = λ q. room (dec_lt 0 c.num);
  new = λ t q. absurd (clash t q);
}
  where
    clash : (t : Stream) → lookup c id ≡ some t → ⊥
    clash t q = let n = e id in cc

    first : lookup c (c.streams (c.order 0)).id ≡ some (c.streams (c.order 0)).ctx → ⊥
    first q = let n = e (c.streams (c.order 0)).id in cc

    room : Dec (0 < c.num) → c.num < max_streams
    room (no n) = omega arith
    room (yes l) = absurd (
        first (
          lookup-Holds c (c.streams (c.order 0)).id (c.order 0) 0 (IsLinked-IsSearchable v.linked)
            (record { in_use = l; points = refl; has_id = refl })))

module _ {S : Type 0} (check_question : QuestionCheck) (send : Send S) where
  -- Once its send is completed, or refused, an answered request leaves the adapter at rest.
  finish-IsRested :
      {s : S} {id : ℕ} {c : Connection} {response : ℕ × Bytes} {out : Bytes} (r : ℕ × Adapter × S)
      (dropped : Bool)
      → ((other : ℕ) → lookup c other ≡ none)
      → IsAnswered send s id c response out r
      → IsRested (finish r.1 id dropped)
  finish-IsRested {id = id} {c = c} r dropped e q =
      if_cases IsRested r.1.send_in_flight (λ b. flying b q.outcome) (λ b. landed b q.outcome)
    where
      flying :
          r.1.send_in_flight ≡ true
          → ((q.taken ≡ true) × InFlight r.1 id q.bytes.0)
            ⊎ ((q.taken ≡ false) × IsIdle r.1 × (lookup r.1.connection id ≡ none))
          → IsRested (on_send_complete r.1 id r.1.send_len dropped).0
      flying b (inr (t, i, n)) = absurd (let x = i.landed in cc)
      flying b (inl (t, f)) = elim (on_send_complete_lem r.1 id r.1.send_len dropped q.valid) [
        | inl (n, _) ↦
            absurd (n (record { flying = b; flying_id = f.flying_id; flying_len = refl }))
        | inr (_, d) ↦ record {
          valid = record { table = d.valid; state = inl d.idle };
          idle = d.idle;
          room = on_send_complete-HasRoom r.1 id r.1.send_len dropped q.room;
          empty = λ x. elim (ℕ_discrete x id) [
            | yes k ↦ ground (arith, d.closed x, k)
            | no k ↦ ground (arith, d.closed x, q.others x k, e x, k)
          ];
        }
      ]

      landed :
          r.1.send_in_flight ≡ false
          → ((q.taken ≡ true) × InFlight r.1 id q.bytes.0)
            ⊎ ((q.taken ≡ false) × IsIdle r.1 × (lookup r.1.connection id ≡ none))
          → IsRested r.1
      landed b (inl (t, f)) = absurd (let x = f.flying in cc)
      landed b (inr (t, i, n)) = record {
        valid = q.valid;
        idle = i;
        room = q.room;
        empty = λ x. elim (ℕ_discrete x id) [
          | yes k ↦ ap (lookup r.1.connection) k ∙ n
          | no k ↦ q.others x k ∙ e x
        ];
      }

  -- One request of a session was answered: the worker's response to its message.
  pub record IsServed (q : Request) (a : Adapter) (s : S) : Type 0 where
    pub room : HasRoom a
    pub request : Stream
    pub message : (i : ℕ) → i < q.len → request.message i ≡ q.input (i + 2)
    pub answer :
        IsAnswered send s q.id a.connection
          (prepare_worker_validated_minimal_response_send check_question request room.response
            a.response_capacity q.len)
          room.out
          (fin_of check_question send q a s)

  serve-IsServed :
      (q : Request) (a : Adapter) (s : S)
      → IsWhole q
      → IsRested a
      → IsServed q a s × IsRested (serve check_question send q a s).0
  serve-IsServed q a s w h =
      let (request, message, answer) =
        deliver-IsAnswered check_question send a s q.id q.len q.input q.lens h.valid
          (record { landed = h.idle.landed; room = h.room })
          (empty-CanOpen a.connection q.id h.valid.table h.empty) w.framed w.octets w.id_hi w.id_lo
          w.complete in
      (
        record { room = h.room; request = request; message = message; answer = answer },
        finish-IsRested (fin_of check_question send q a s) q.dropped h.empty answer,
      )

  -- The requests are answered one after the other, and the adapter comes to rest at the end.
  abbrev pub Serves : Adapter → S → List Request → Type 0
  Serves a s [] = IsRested a
  Serves a s (q ∷ qs) =
      let r = serve check_question send q a s in IsServed q a s × Serves r.0 r.1 qs

  -- Any number of requests is served: an adapter at rest answers each of a sequence of whole
  -- requests, on whatever streams, each with the framed response of the worker to its message,
  -- whether the callback takes the responses or refuses them and whether or not their completions
  -- report them as dropped, and is at rest again in the end.
  pub serve-Serves :
      (a : Adapter) (s : S) (qs : List Request) → IsRested a → AreWhole qs → Serves a s qs
  serve-Serves a s [] h w = h
  serve-Serves a s (q ∷ qs) h (u, w) =
      let (x, y) = serve-IsServed q a s u h in
      let r = serve check_question send q a s in (x, serve-Serves r.0 r.1 qs y w)
