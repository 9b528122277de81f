-- ===== src/Runtime/Errors.antt =====
-- The errors of the stream callback of shell/msquic_runtime.c.
use ism.Prelude.{
  ℕ, ◌<◌, ◌≡◌, ◌≢◌, ◌⊎◌, ◌∙◌, ap, sym, subst, [], if◌then◌else◌, refl, inl, inr, Bool, true, false,
  not, ◌&&◌, ◌||◌, arith, ltb, ◌==◌, if_cases, Option, Option-cases, none, some, Bytes, List, ◌∷◌,
}
use ism.Worker.{QuestionCheck}
use ism.Runtime.Requests.{total_len}
use ism.Runtime.{
  World, Host, Runtime, success, on_fin, with_fin, is_attached, runtime_of, shutdown_of, copy_input,
  copy_enqueue_and_dispatch, receive_buffers, on_msquic_receive, Status, invalid_parameter,
  invalid_state, StreamEvent, start_complete, receive, peer_send_shutdown, msquic_send_complete,
  aborted, shutdown_complete, other_event, protocol_error, or_protocol_error, or_invalid_state,
  finish_send, on_abort, stream_callback,
}

module _ {S T : Type 0} (host : Host S T) (check_question : QuestionCheck) where
  protocol_error-invalid_state : (w : World S) → (protocol_error host w).1 ≡ invalid_state
  unfolding protocol_error
  protocol_error-invalid_state w = elim (Option-cases (shutdown_of (runtime_of host w).api)) [
    | inl e ↦ rw (e, protocol_error) refl
    | inr (f, e) ↦
        rw (e, protocol_error)
          (if_cases (λ (r : World S × Status). r.1 ≡ invalid_state)
            ((runtime_of host w).connection == 0) (λ x. refl) (λ x. refl))
  ]

  or_protocol_error_lem : (r : World S × Bool) → (or_protocol_error host r).1 ≢ invalid_parameter
  or_protocol_error_lem (w, true) e = cc
  or_protocol_error_lem (w, false) e = cc (protocol_error-invalid_state w, e)

  or_invalid_state_lem : (r : World S × Bool) → (or_invalid_state r).1 ≢ invalid_parameter
  or_invalid_state_lem (w, true) e = cc
  or_invalid_state_lem (w, false) e = cc

  finish_send_lem :
      (w : World S) (canceled : Bool)
      → (finish_send host check_question w canceled).1 ≢ invalid_parameter
  finish_send_lem w canceled =
      if_cases (λ (r : World S × Status). r.1 ≢ invalid_parameter) w.adapter.send_in_flight
        (λ x. or_invalid_state_lem _) (λ x e. cc)

  on_abort_lem : (w : World S) → (on_abort host check_question w).1 ≢ invalid_parameter
  on_abort_lem w =
      if_cases (λ (r : World S × Status). r.1 ≢ invalid_parameter)
        (runtime_of host w).send_in_flight (λ x e. cc) (λ x. or_invalid_state_lem _)

  -- The event is the completion of a send that is not the runtime's own or not in flight.
  abbrev pub IsForeign : World S → StreamEvent → Type 0
  IsForeign w (msquic_send_complete own canceled) =
      (own ≡ false) ⊎ ((runtime_of host w).send_in_flight ≡ false)
  IsForeign w _ = ⊥

  -- The callback answers with `QUIC_STATUS_INVALID_PARAMETER` exactly for the completion of a send
  -- that is not the runtime's own or not in flight, and then changes nothing.
  pub stream_callback_refused :
      (w : World S) (event : StreamEvent)
      → let r = stream_callback host check_question w event in
        (IsForeign w event × (r ≡ (w, invalid_parameter)))
        ⊎ (¬ IsForeign w event × (r.1 ≢ invalid_parameter))
  unfolding stream_callback
  stream_callback_refused w (start_complete id) = inr (λ f. f, λ e. cc)
  stream_callback_refused w (receive buffers fin) = inr (λ f. f, or_protocol_error_lem _)
  stream_callback_refused w peer_send_shutdown = inr (λ f. f, or_protocol_error_lem _)
  stream_callback_refused w (msquic_send_complete own canceled) =
      if_cases
        (λ (r : World S × Status).
          (Foreign × (r ≡ (w, invalid_parameter))) ⊎ (¬ Foreign × (r.1 ≢ invalid_parameter)))
        (not own || not (runtime_of host w).send_in_flight) (λ x. inl (ground (arith, x), refl))
        (λ x. inr (λ f. ground (arith, x, f), finish_send_lem w canceled))
    where
      Foreign : Type 0
      Foreign = (own ≡ false) ⊎ ((runtime_of host w).send_in_flight ≡ false)
  stream_callback_refused w aborted = inr (λ f. f, on_abort_lem w)
  stream_callback_refused w shutdown_complete = inr (λ f. f, on_abort_lem w)
  stream_callback_refused w other_event = inr (λ f. f, λ e. cc)

  late_copy :
      (w : World S) (input : Option Bytes) (len : ℕ)
      → (runtime_of host w).received_fin ≡ true
      → 0 < len
      → copy_enqueue_and_dispatch host check_question w input len ≡ (w, false)
  unfolding copy_enqueue_and_dispatch
  late_copy w input len f l = elim (Option-cases (runtime_of host w).ingress_buffer) [
    | inl e ↦ rw (e, copy_enqueue_and_dispatch) refl
    | inr (p, e) ↦ rw (e, copy_enqueue_and_dispatch) (there p input)
  ]
    where
      late :
          (ltb (runtime_of host w).ingress_capacity len
            || ((runtime_of host w).has_queue && not (w.queue.count == 0)
                || (runtime_of host w).received_fin && ltb 0 len))
          ≡ true
      late = ground (arith, f)

      there :
          (p : ℕ) (input : Option Bytes) → copy_input host check_question w p input len ≡ (w, false)
      there p none = refl
      there p (some bytes) = rw late refl

  -- Of buffers with some bytes the first ends the receive.
  late_buffers :
      (w : World S) (buffers : List (Option Bytes × ℕ))
      → (runtime_of host w).received_fin ≡ true
      → 0 < total_len buffers
      → receive_buffers host check_question w buffers ≡ (w, false)
  unfolding receive_buffers
  late_buffers w [] f l = absurd (omega arith)
  late_buffers w ((input, len) ∷ buffers) f l =
      if_cases (λ (r : World S × Bool). r ≡ (w, false)) (len == 0)
        (λ e. late_buffers w buffers f (rest e))
        (λ e.
          ap
            (λ (r : World S × Bool).
              if r.1 then receive_buffers host check_question r.0 buffers else (r.0, false))
            (late_copy w input len f (ground (arith, e))))
    where
      rest : (len == 0) ≡ true → 0 < total_len buffers
      rest e = ground (arith, e)

  -- The connection is shut down with the protocol error 2, where the API can and the runtime has
  -- its connection; nothing else has happened.
  pub record IsShutDown (w : World S) (r : World S × Status) : Type 0 where
    pub status : r.1 ≡ invalid_state
    pub same : r.0 ≡ record w { state = r.0.state }
    pub state :
        ((r.0.state ≡ w.state)
          × ((shutdown_of (runtime_of host w).api ≡ none) ⊎ ((runtime_of host w).connection ≡ 0)))
        ⊎ ((shutdown : T → ℕ → ℕ → T) × (shutdown_of (runtime_of host w).api ≡ some shutdown)
            × ((runtime_of host w).connection ≢ 0)
            × (r.0.state
                ≡ host.on_msquic w.state (λ t. shutdown t (runtime_of host w).connection 2)))

  protocol_error-IsShutDown : (w : World S) → IsShutDown w (protocol_error host w)
  unfolding protocol_error
  protocol_error-IsShutDown w = elim (Option-cases (shutdown_of (runtime_of host w).api)) [
    | inl e ↦
        subst (IsShutDown w) (sym (ap shut e))
          (record { status = refl; same = refl; state = inl (refl, inl e) })
    | inr (f, e) ↦ subst (IsShutDown w) (sym (ap shut e)) (
        if_cases (IsShutDown w) ((runtime_of host w).connection == 0)
          (λ z. record { status = refl; same = refl; state = inl (refl, inr (ground (arith, z))) })
          (λ z. record { status = refl; same = refl; state = inr (f, e, ground (arith, z), refl) }))
  ]
    where
      shut : Option (T → ℕ → ℕ → T) → World S × Status
      shut o = elim o [
        | none ↦ (w, invalid_state)
        | some shutdown ↦ if (runtime_of host w).connection == 0 then (w, invalid_state) else (
          record w {
            state = host.on_msquic w.state (λ t. shutdown t (runtime_of host w).connection 2);
          },
          invalid_state,
        )
      ]

  -- A FIN that is accepted is noted.
  fin_noted :
      ((s : S) (r : Runtime T) → host.get (host.set s r) ≡ r)
      → (w : World S) → (on_fin host check_question w).1 ≡ true
      → (runtime_of host (on_fin host check_question w).0).received_fin ≡ true
  unfolding on_fin
  fin_noted get-set w =
      if_cases Noted (not (is_attached host check_question w)) (λ e t. absurd cc)
        (λ e.
          if_cases Noted (runtime_of host w).received_fin (λ f t. f)
            (λ f.
              if_cases Noted (not (w.queue.count == 0)) (λ q t. absurd cc)
                (λ q t. ap (λ r. r.received_fin) (get-set _ _) ∙ t)))
    where
      Noted : World S × Bool → Type 0
      Noted r = r.1 ≡ true → (runtime_of host r.0).received_fin ≡ true

  -- A success was no protocol error.
  passed :
      (r : World S × Bool)
      → (r.1 ≡ true → (runtime_of host r.0).received_fin ≡ true)
      → (or_protocol_error host r).1 ≡ success
      → (runtime_of host (or_protocol_error host r).0).received_fin ≡ true
  passed (w, true) f e = f refl
  passed (w, false) f e = absurd (cc (protocol_error-invalid_state w, e))

  ended :
      ((s : S) (r : Runtime T) → host.get (host.set s r) ≡ r)
      → (fin : Bool) (r : World S × Bool) → fin ≡ true
      → (or_protocol_error host (with_fin host check_question fin r)).1 ≡ success
      → (runtime_of host
          (or_protocol_error host (with_fin host check_question fin r)).0).received_fin
        ≡ true
  ended get-set fin (w, false) n e = absurd (cc (protocol_error-invalid_state w, e))
  ended get-set true (w, true) n e = passed (on_fin host check_question w) (fin_noted get-set w) e
  ended get-set false (w, true) n e = absurd cc

  -- The event ends the peer's side of the stream.
  abbrev pub ends_stream : StreamEvent → Bool
  ends_stream (receive buffers fin) = fin
  ends_stream peer_send_shutdown = true
  ends_stream _ = false

  callback_fin_noted :
      ((s : S) (r : Runtime T) → host.get (host.set s r) ≡ r)
      → (w : World S) (event : StreamEvent) → ends_stream event ≡ true
      → (stream_callback host check_question w event).1 ≡ success
      → (runtime_of host (stream_callback host check_question w event).0).received_fin ≡ true
  unfolding stream_callback on_msquic_receive
  callback_fin_noted get-set w (receive none fin) n e =
      absurd (cc (protocol_error-invalid_state w, e))
  callback_fin_noted get-set w (receive (some buffers) fin) n e =
      ended get-set fin (receive_buffers host check_question w buffers) n e
  callback_fin_noted get-set w peer_send_shutdown n e =
      passed (on_fin host check_question w) (fin_noted get-set w) e
  callback_fin_noted get-set w (start_complete id) n e = absurd cc
  callback_fin_noted get-set w (msquic_send_complete own canceled) n e = absurd cc
  callback_fin_noted get-set w aborted n e = absurd cc
  callback_fin_noted get-set w shutdown_complete n e = absurd cc
  callback_fin_noted get-set w other_event n e = absurd cc

  -- After a receive event with FIN or a shutdown of the send side by the peer, answered with a
  -- success, a receive event that comes next and whose buffers hold some bytes does nothing but shut
  -- the connection down with the protocol error, where the API can and the connection is known, and
  -- is answered with `QUIC_STATUS_INVALID_STATE`. The host must read back the runtime that it
  -- stores.
  pub late_bytes :
      ((s : S) (r : Runtime T) → host.get (host.set s r) ≡ r)
      → (w : World S) (event : StreamEvent) (buffers : List (Option Bytes × ℕ)) (fin : Bool)
      → ends_stream event ≡ true
      → (stream_callback host check_question w event).1 ≡ success
      → 0 < total_len buffers
      → let w' = (stream_callback host check_question w event).0 in
        IsShutDown w' (stream_callback host check_question w' (receive (some buffers) fin))
  unfolding stream_callback on_msquic_receive
  late_bytes get-set w event buffers fin n e l =
      let w' = (stream_callback host check_question w event).0 in
      subst (λ r. IsShutDown w' (or_protocol_error host (with_fin host check_question fin r)))
        (sym (late_buffers w' buffers (callback_fin_noted get-set w event n e) l)) (refused fin w')
    where
      refused :
          (fin : Bool) (w : World S)
          → IsShutDown w (or_protocol_error host (with_fin host check_question fin (w, false)))
      refused fin w = protocol_error-IsShutDown w
