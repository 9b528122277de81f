-- ===== src/Adapter/Completion.antt =====
-- `ism_msquic_adapter_on_send_complete` of shell/msquic_adapter.c: at most one send is in flight, and
-- the adapter knows which.
use ism.Prelude.{
  ℕ, ◌≤◌, ◌<◌, ◌≡◌, sym, subst, Bool, true, false, arith, Bytes, inl, inr, ◌⊎◌, some, ℕ_discrete,
}
use ism.Stream.{Stream}
use ism.Table.{Connection, dispatch_response_send_finished}
use ism.Table.Find.{lookup}
use ism.Table.Valid
use ism.Table.Valid.{IsLinked-IsSearchable}
use ism.Table.Close.{Completes, Forgets, response_send_finished_lem}
use ism.Adapter.{Adapter, refuses_completion, after_completion, on_send_complete}

-- The send of a stream `id` of `len` bytes is the one in flight.
pub record InFlight (a : Adapter) (id len : ℕ) : Type 0 where
  pub flying : a.send_in_flight ≡ true
  pub flying_id : a.send_stream_id ≡ id
  pub flying_len : a.send_len ≡ len

-- Nothing is in flight, and the record of the send is blank.
pub record IsIdle (a : Adapter) : Type 0 where
  pub landed : a.send_in_flight ≡ false
  pub no_id : a.send_stream_id ≡ 0
  pub no_len : a.send_len ≡ 0

-- The send in flight has its bytes in the send buffer, and belongs to a stream of the table.
pub record IsBusy (a : Adapter) : Type 0 where
  pub flight : InFlight a a.send_stream_id a.send_len
  pub some_bytes : 0 < a.send_len
  pub fits : a.send_len ≤ a.send_capacity
  pub buffer : (b : Bytes) × (a.send_buffer ≡ some b)
  pub stream : (s : Stream) × (lookup a.connection a.send_stream_id ≡ some s)

pub record IsValid (a : Adapter) : Type 0 where
  pub table : Valid.IsValid a.connection
  pub state : IsIdle a ⊎ IsBusy a

after_completion_lem :
    (a : Adapter) (id : ℕ) (r : Connection × ℕ)
    → Completes a.connection id r
    → ((after_completion a r).1 ≡ true)
      × IsIdle (after_completion a r).0
      × ((after_completion a r).0.connection ≡ r.0)
after_completion_lem a id (c, code) h = ground arith

-- What an accepted completion leaves behind.
pub record IsCompleted (a : Adapter) (id : ℕ) (r : Adapter × Bool) : Type 0 where
  pub accepted : r.1 ≡ true
  pub idle : IsIdle r.0
  pub valid : Valid.IsValid r.0.connection
  pub closed : Forgets a.connection id r.0.connection

completed :
    (a : Adapter) (id : ℕ) (dropped : Bool)
    → IsValid a
    → IsCompleted a id
        (after_completion a (dispatch_response_send_finished a.connection id dropped))
completed a id dropped v =
    let h = (response_send_finished_lem a.connection id dropped v.table).0 in
    let r = after_completion_lem a id (dispatch_response_send_finished a.connection id dropped) h in
    record {
      accepted = r.0;
      idle = r.1;
      valid = subst Valid.IsValid (sym r.2) h.0;
      closed = subst (Forgets a.connection id) (sym r.2) h.2;
    }

refuses_completion-InFlight :
    (a : Adapter) (id len : ℕ)
    → IsValid a
    → ((refuses_completion a id len ≡ true) × ¬ (InFlight a id len))
      ⊎ ((refuses_completion a id len ≡ false)
          × InFlight a id len
          × ((b : Bytes) × (a.send_buffer ≡ some b)))
refuses_completion-InFlight a id len v = elim v.state [
  | inl i ↦ inl (ground (arith, i.landed), λ f. ground (arith, i.landed, f.flying))
  | inr b ↦ elim (ℕ_discrete a.send_stream_id id) [
    | no n ↦ inl (ground (arith, b.flight.flying), λ f. n f.flying_id)
    | yes e ↦ elim (ℕ_discrete a.send_len len) [
      | no n ↦ inl (ground (arith, b.flight.flying), λ f. n f.flying_len)
      | yes q ↦ inr (
        ground (arith, b.flight.flying, b.fits, b.some_bytes),
        record { flying = b.flight.flying; flying_id = e; flying_len = q },
        b.buffer,
      )
    ]
  ]
]

-- A completion is accepted exactly for the send in flight, by its stream and its length; it then
-- closes the stream and frees the adapter for the next send. Any other changes nothing.
pub on_send_complete_lem :
    (a : Adapter) (id len : ℕ) (dropped : Bool)
    → IsValid a
    → (¬ (InFlight a id len) × (on_send_complete a id len dropped ≡ (a, false)))
      ⊎ (InFlight a id len × IsCompleted a id (on_send_complete a id len dropped))
unfolding on_send_complete
on_send_complete_lem a id len dropped v = elim (refuses_completion-InFlight a id len v) [
  | inl (e, n) ↦ inl (n, ground (arith, e))
  | inr (e, f, (b, q)) ↦ inr (f, subst (IsCompleted a id) (taken e q) (completed a id dropped v))
]
  where
    taken :
        refuses_completion a id len ≡ false
        → {b : Bytes} → a.send_buffer ≡ some b
        → after_completion a (dispatch_response_send_finished a.connection id dropped)
          ≡ on_send_complete a id len dropped
    taken e {b} q = ground (arith, e, q)
