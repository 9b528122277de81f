-- ===== src/Pulse/Ingress.antt =====
-- The Pulse ingress of shell/pulse_stream_adapter.c against the legacy one: the same stream and the
-- same code wherever the buffers are apart, and a refusal elsewhere.
use ism.Prelude.{
  ℕ, zero, suc, ◌+◌, ◌-◌, ◌≡◌, ◌≢◌, ◌⊎◌, ◌∙◌, inl, inr, refl, sym, ap, ap₂, subst, fun_ext, arith,
  true, false, not, ltb, leb, ◌==◌, ◌&&◌, ◌||◌, if_cases, if◌then◌else◌, Bytes, update, copy_bytes,
}
use native.Mathlib.Nat.{add-zero}
use ism.Stream.{
  Stream, Phase, reading_length, reading_length_high, reading_message, awaiting_fin, processing,
  done, CopyPlan, message_capacity, byte_or_zero, fragment_phase, fragment_copy_plan,
  next_stream_phase, copy_body_bytes, handle_stream_data, handle_stream_fin, finish_doq_phase,
  shell_phase_code,
}
use ism.Pulse.{
  WirePhase, Buffer, phase_to_wire, phase_from_wire, rejected, encode, range_ok, disjoint,
  copy_range_from, copy_range, pulse_handle_stream_data, pulse_handle_stream_fin, encoded,
  stream_data_decoded, pulse_stream_data, stream_fin_decoded, pulse_stream_fin, reject,
  message_buffer, stored_result, stored_phase, ingress_data, ingress_fin, empty_input,
}
use ism.Pulse.Codec.{IsSendable, decode_phase-phase_to_wire, phase_from_wire-encode}

-- The copy writes the range and no other byte.
copy_range_from-at :
    (src dst : Bytes) (s d k i j : ℕ)
    → copy_range_from src dst s d k i j
      ≡ (if leb (d + i) j && ltb j (d + i + k) then src (s + j - d) else dst j)
unfolding copy_range_from
copy_range_from-at src dst s d zero i j = ground arith
copy_range_from-at src dst s d (suc k) i j = ground (
  arith,
  copy_range_from-at src (update dst (d + i) (src (s + i))) s d k (i + 1) j,
  ap src {x = s + i} {y = s + j - d},
)

-- The loop of the Pulse core is the block copy of the legacy one.
pub copy_range-copy_bytes :
    (src dst : Bytes) (s d n : ℕ) → copy_range src dst s d n ≡ copy_bytes src s dst d n
unfolding copy_range
copy_range-copy_bytes src dst s d n = fun_ext λ j.
    copy_range_from-at src dst s d n 0 j
    ∙ ap (λ m. if leb m j && ltb j (m + n) then src (s + j - d) else dst j) (add-zero d)

copy_nothing : (src dst : Bytes) (s d : ℕ) → copy_bytes src s dst d 0 ≡ dst
copy_nothing src dst s d = fun_ext λ j. ground arith

-- Both cores give the same phase and the same message.
pulse_handle_stream_data_lem :
    (s : Stream) (input : Bytes) (len : ℕ)
    → pulse_handle_stream_data s.phase s.message input len
      ≡ ((handle_stream_data s input len).phase, (handle_stream_data s input len).message)
unfolding pulse_handle_stream_data handle_stream_data next_stream_phase copy_body_bytes
pulse_handle_stream_data_lem s input len =
    ap (λ m. (next_stream_phase s input len, m))
      (if_cases
        (λ (m : Bytes).
          copy_range input s.message plan.source_offset plan.destination_offset plan.count ≡ m)
        (ltb 0 plan.count) (λ e. copied)
        (λ e.
          copied
          ∙ ap (copy_bytes input plan.source_offset s.message plan.destination_offset) (none_left e)
          ∙ copy_nothing input s.message plan.source_offset plan.destination_offset))
  where
    plan : CopyPlan
    plan = fragment_copy_plan s.phase len (byte_or_zero input len 0) (byte_or_zero input len 1)

    copied :
        copy_range input s.message plan.source_offset plan.destination_offset plan.count
        ≡ copy_bytes input plan.source_offset s.message plan.destination_offset plan.count
    copied =
        copy_range-copy_bytes input s.message plan.source_offset plan.destination_offset plan.count

    none_left : ltb 0 plan.count ≡ false → plan.count ≡ 0
    none_left e = ground (arith, e)

-- An empty fragment is not read.
no_bytes-plan : (p : Phase) (a b : ℕ) → (fragment_copy_plan p 0 a b).count ≡ 0
unfolding fragment_copy_plan
no_bytes-plan reading_length a b = refl
no_bytes-plan (reading_length_high hi) a b = refl
no_bytes-plan (reading_message expected current) a b = ground arith
no_bytes-plan (awaiting_fin expected) a b = refl
no_bytes-plan (processing expected) a b = refl
no_bytes-plan done a b = refl

no_bytes :
    (p : Phase) (m input other : Bytes)
    → pulse_handle_stream_data p m input 0 ≡ pulse_handle_stream_data p m other 0
unfolding pulse_handle_stream_data
no_bytes p m input other = ap (λ b. (fragment_phase p 0 0 0, b)) (unread input ∙ sym (unread other))
  where
    unread :
        (src : Bytes)
        → copy_range src m
            (fragment_copy_plan p 0 0 0).source_offset
            (fragment_copy_plan p 0 0 0).destination_offset
            (fragment_copy_plan p 0 0 0).count
          ≡ m
    unread src =
        copy_range-copy_bytes src m _ _ _
        ∙ ap
            (copy_bytes src (fragment_copy_plan p 0 0 0).source_offset m
              (fragment_copy_plan p 0 0 0).destination_offset)
            (no_bytes-plan p 0 0)
        ∙ copy_nothing src m (fragment_copy_plan p 0 0 0).source_offset
            (fragment_copy_plan p 0 0 0).destination_offset

-- The fragment can be taken: it is empty, or it lies apart from the message buffer.
abbrev pub IsApart : ℕ → ℕ → ℕ → Type 0
IsApart m d len = (len ≡ 0) ⊎ (disjoint m message_capacity d len ≡ true)

decoded_lem :
    (s : Stream) (m d : ℕ) (input : Bytes) (len : ℕ)
    → range_ok m message_capacity ≡ true
    → IsApart m d len
    → stream_data_decoded s.phase
        (message_buffer s m)
        (record { address = d; size = len; bytes = input })
        len
      ≡ encoded (pulse_handle_stream_data s.phase s.message input len)
decoded_lem s m d input len r a =
    if_cases (λ x. x ≡ agreed)
      (ltb message_capacity message_capacity || (not (range_ok m message_capacity) || ltb len len))
      (λ e. absurd (bad e))
      (λ e.
        if_cases (λ x. x ≡ agreed) (len == 0) (λ z. ap encoded (empty (zero_len z)))
          (λ z.
            if_cases (λ x. x ≡ agreed) (not (disjoint m message_capacity d len))
              (λ y. absurd (overlaps z y)) (λ y. refl)))
  where
    agreed : (WirePhase × ℕ) × Bytes
    agreed = encoded (pulse_handle_stream_data s.phase s.message input len)

    bad :
        (ltb message_capacity message_capacity
            || (not (range_ok m message_capacity) || ltb len len))
          ≡ true
        → ⊥
    bad e = ground (arith, r, e)

    zero_len : (len == 0) ≡ true → len ≡ 0
    zero_len z = ground (arith, z)

    empty :
        len ≡ 0
        → pulse_handle_stream_data s.phase s.message empty_input len
          ≡ pulse_handle_stream_data s.phase s.message input len
    empty z =
        subst
          (λ n.
            pulse_handle_stream_data s.phase s.message empty_input n
            ≡ pulse_handle_stream_data s.phase s.message input n)
          (sym z) (no_bytes s.phase s.message empty_input input)

    overlaps : (len == 0) ≡ false → not (disjoint m message_capacity d len) ≡ true → ⊥
    overlaps z y = elim a [ inl q ↦ ground (arith, q, z) | inr q ↦ ground (arith, q, y) ]

stored_result_lem :
    (s : Stream) (p : Phase) (message : Bytes)
    → stored_result s (encoded (p, message))
      ≡ (record s { phase = p; message = message }, shell_phase_code p)
stored_result_lem s p message =
    let e = phase_from_wire-encode p in
    ap₂ (λ q code. (record s { phase = q; message = message }, code)) e.0 e.1

decoded_data :
    (s : Stream) (m : ℕ) (input : Buffer) (len : ℕ)
    → IsSendable s.phase
    → pulse_stream_data (phase_to_wire s.phase) (message_buffer s m) input len
      ≡ stream_data_decoded s.phase (message_buffer s m) input len
unfolding pulse_stream_data
decoded_data s m input len v = elim (decode_phase-phase_to_wire s.phase) [
  | inl (w, e) ↦ simp (e, pulse_stream_data)
  | inr (n, e) ↦ absurd (n v)
]

-- A stream with an ID and a message that fits takes a fragment that lies apart from the message
-- buffer exactly as the legacy ingress does, with the legacy code.
pub ingress_data_lem :
    (s : Stream) (m d : ℕ) (input : Bytes) (len : ℕ)
    → IsSendable s.phase
    → range_ok m message_capacity ≡ true
    → IsApart m d len
    → ingress_data s m s.id d input len
      ≡ (handle_stream_data s input len, shell_phase_code (handle_stream_data s input len).phase)
unfolding ingress_data
ingress_data_lem s m d input len v r a =
    if_cases (λ x. x ≡ agreed) (not (s.id == s.id)) (λ e. absurd (ground (arith, e)))
      (λ e.
        ap (stored_result s) (
          decoded_data s m (record { address = d; size = len; bytes = input }) len v
          ∙ decoded_lem s m d input len r a
          ∙ ap encoded (pulse_handle_stream_data_lem s input len))
        ∙ stored_result_lem s (handle_stream_data s input len).phase
            (handle_stream_data s input len).message
        ∙ same)
  where
    agreed : Stream × ℕ
    agreed =
        (handle_stream_data s input len, shell_phase_code (handle_stream_data s input len).phase)

    same :
        (
          record s {
            phase = (handle_stream_data s input len).phase;
            message = (handle_stream_data s input len).message;
          },
          shell_phase_code (handle_stream_data s input len).phase,
        )
        ≡ agreed
    same = unfold handle_stream_data in refl

-- What the ingress refuses: another stream's bytes, a message that cannot fit, a message buffer that
-- is not there, or bytes that overlap it.
abbrev pub IsRefused : Stream → ℕ → ℕ → ℕ → ℕ → Type 0
IsRefused s m id d len =
    (s.id ≢ id)
    ⊎ (¬ (IsSendable s.phase))
    ⊎ (range_ok m message_capacity ≡ false)
    ⊎ ((len ≢ 0) × (disjoint m message_capacity d len ≡ false))

refused_decoded :
    (s : Stream) (m id d : ℕ) (input : Bytes) (len : ℕ)
    → (range_ok m message_capacity ≡ false)
      ⊎ ((len ≢ 0) × (disjoint m message_capacity d len ≡ false))
    → stream_data_decoded s.phase
        (message_buffer s m)
        (record { address = d; size = len; bytes = input })
        len
      ≡ (rejected, s.message)
refused_decoded s m id d input len (inl r) = simp r
refused_decoded s m id d input len (inr (n, r)) =
    if_cases (λ (x : (WirePhase × ℕ) × Bytes). x ≡ (rejected, s.message))
      (ltb message_capacity message_capacity || (not (range_ok m message_capacity) || ltb len len))
      (λ e. refl)
      (λ e.
        if_cases (λ (x : (WirePhase × ℕ) × Bytes). x ≡ (rejected, s.message)) (len == 0)
          (λ z. absurd (n (ground (arith, z))))
          (λ z.
            if_cases (λ (x : (WirePhase × ℕ) × Bytes). x ≡ (rejected, s.message))
              (not (disjoint m message_capacity d len)) (λ y. refl)
              (λ y. absurd (ground (arith, r, y)))))

-- A refused fragment ends the stream with the code of `done`, and no byte of the message changes.
pub ingress_data_refused :
    (s : Stream) (m id d : ℕ) (input : Bytes) (len : ℕ)
    → IsRefused s m id d len
    → ingress_data s m id d input len ≡ (record s { phase = done }, 3)
unfolding ingress_data phase_from_wire
ingress_data_refused s m id d input len h =
    if_cases (λ x. x ≡ reject s) (not (s.id == id)) (λ e. refl)
      (λ e. ap (stored_result s) (elim (decode_phase-phase_to_wire s.phase) [
        | inl (v, q) ↦ decoded_data s m _ len v ∙ refused_decoded s m id d input len (rest e v h)
        | inr (n, q) ↦ unfold pulse_stream_data in simp (q, pulse_stream_data)
      ]))
  where
    rest :
        not (s.id == id) ≡ false
        → IsSendable s.phase
        → IsRefused s m id d len
        → (range_ok m message_capacity ≡ false)
          ⊎ ((len ≢ 0) × (disjoint m message_capacity d len ≡ false))
    rest e v (inl n) = absurd (n (ground (arith, e)))
    rest e v (inr (inl n)) = absurd (n v)
    rest e v (inr (inr r)) = r

-- FIN for a stream whose message fits is the legacy one, with the legacy code.
pub ingress_fin_lem :
    (s : Stream) (m : ℕ)
    → IsSendable s.phase
    → range_ok m message_capacity ≡ true
    → ingress_fin s m ≡ (handle_stream_fin s, shell_phase_code (handle_stream_fin s).phase)
unfolding ingress_fin handle_stream_fin pulse_stream_fin pulse_handle_stream_fin
ingress_fin_lem s m v r =
    ap (stored_phase s) decoded
    ∙ ap₂ (λ q code. (record s { phase = q }, code))
        (phase_from_wire-encode (finish_doq_phase s.phase (s.message 0) (s.message 1))).0
        (phase_from_wire-encode (finish_doq_phase s.phase (s.message 0) (s.message 1))).1
  where
    fits :
        stream_fin_decoded s.phase (message_buffer s m)
        ≡ encode (finish_doq_phase s.phase (s.message 0) (s.message 1))
    fits = simp r

    decoded :
        pulse_stream_fin (phase_to_wire s.phase) (message_buffer s m)
        ≡ encode (finish_doq_phase s.phase (s.message 0) (s.message 1))
    decoded = elim (decode_phase-phase_to_wire s.phase) [
      | inl (w, e) ↦ simp (e, pulse_stream_fin, fits)
      | inr (n, e) ↦ absurd (n v)
    ]
