-- ===== src/Adapter/Requests.antt =====
-- A whole request through shell/msquic_adapter.c: the fragments of a framed message for a stream,
-- as the transport delivers them, and FIN.
use native.Mathlib.Nat.{zero-add, add_assoc, add-zero}
use ism.Prelude.{
  ℕ, zero, suc, ◌+◌, ◌≤◌, ◌<◌, ◌≡◌, ◌≢◌, ◌∙◌, inl, inr, refl, sym, ap, subst, arith, fun_ext, false,
  ◌==◌, none, some, Bytes, List, [], ◌∷◌, dec_lt,
}
use ism.Stream.{
  Stream, reading_length, awaiting_fin, handle_stream_data, handle_stream_fin, shell_phase_code,
}
use ism.Stream.Phases.{skip, phase_after}
use ism.Stream.Messages.{
  IsFramed, Taken, total, Taken-handle_stream_data, phase_after-one, none_yet, phase_after-body,
  phase_after-whole,
}
use ism.Table.{Connection, dispatch_authenticated_stream_data, max_streams}
use ism.Table.Find.{lookup}
use ism.Table.Valid
use ism.Table.Ingress.{
  Serves, Handles, dispatch_authenticated_stream_data_lem, on_authenticated_stream_fin_lem,
}
use ism.Worker.{QuestionCheck, prepare_worker_validated_minimal_response_send}
use ism.Adapter.{
  Adapter, Send, answer_if, on_authenticated_stream_bytes, adapter_on_authenticated_stream_fin,
}
use ism.Adapter.Completion.{IsValid}
use ism.Adapter.Events.{with_connection-IsValid}
use ism.Adapter.Answers.{CanAnswer, still_answers, HasMessage}
use ism.Adapter.Progress.{IsAnswered, IsAnswered-trans, fin_answers}

-- The calls for fragments of the given lengths, one after the other, of the bytes at `input`.
unfoldable pub deliver :
    {S : Type 0} → QuestionCheck → Send S → ℕ → Bytes → Adapter → S → List ℕ → Adapter × S
deliver check_question send id input a s [] = (a, s)
deliver check_question send id input a s (len ∷ lens) =
    let (_, a', s') = on_authenticated_stream_bytes check_question send a s id (some input) len in
    deliver check_question send id (skip len input) a' s' lens

-- The codes on the way through a framed message.
code-cases :
    (P : ℕ → Type 0) (input : Bytes) (n k : ℕ)
    → IsFramed input n
    → k ≤ n + 2
    → P 0
    → P 1
    → P 4
    → P (shell_phase_code (phase_after reading_length input k))
unfolding shell_phase_code
code-cases P input n zero f l a b c = subst (λ p. P (shell_phase_code p)) (sym (none_yet input)) a
code-cases P input n (suc zero) f l a b c =
    subst (λ p. P (shell_phase_code p)) (sym (phase_after-one input)) a
code-cases P input n (suc (suc k)) f l a b c = elim (dec_lt k n) [
  | yes p ↦ subst (λ p. P (shell_phase_code p)) (sym (phase_after-body input n k f p)) b
  | no p ↦
      subst (λ p. P (shell_phase_code p))
        (sym (ap (phase_after reading_length input) (whole p) ∙ phase_after-whole input n f)) c
]
  where
    whole : ¬ (k < n) → suc (suc k) ≡ n + 2
    whole p = omega arith

-- None of them is that of a ready request, for which the adapter would answer, or of a stream that
-- is done.
pub not_ready :
    (input : Bytes) (n k : ℕ)
    → IsFramed input n
    → k ≤ n + 2
    → (shell_phase_code (phase_after reading_length input k) == 2) ≡ false
not_ready input n k f l = code-cases (λ c. (c == 2) ≡ false) input n k f l refl refl refl

pub not_done :
    (input : Bytes) (n k : ℕ)
    → IsFramed input n
    → k ≤ n + 2
    → (shell_phase_code (phase_after reading_length input k) == 3) ≡ false
not_done input n k f l = code-cases (λ c. (c == 3) ≡ false) input n k f l refl refl refl

module _ (id : ℕ) (input : Bytes) (n : ℕ) (f : IsFramed input n) (octets : (i : ℕ) → input i < 256)
    (before : Connection) where
  -- The table has taken `k` bytes of the message in, and of the other streams holds what it held
  -- before; before the first byte, it may have to open the stream, and has room to.
  pub record Receives (k : ℕ) (c : Connection) : Type 0 where
    pub room : lookup c id ≡ none → c.num < max_streams
    pub taken : (t : Stream) → Serves c id t → Taken input k t
    pub others : (other : ℕ) → other ≢ id → lookup c other ≡ lookup before other

  -- One more fragment within the message.
  pub table_step :
      (c : Connection) (k m : ℕ)
      → Valid.IsValid c
      → Receives k c
      → k + m ≤ n + 2
      → let r = dispatch_authenticated_stream_data c id (skip k input) m in
        (r.1 ≡ shell_phase_code (phase_after reading_length input (k + m))) × Receives (k + m) r.0
  table_step c k m v h l =
      step (dispatch_authenticated_stream_data_lem c id (skip k input) m (λ i. octets (k + i)) v).1
    where
      step :
          {r : Connection × ℕ}
          → Handles c id (λ t. handle_stream_data t (skip k input) m) r
          → (r.1 ≡ shell_phase_code (phase_after reading_length input (k + m)))
            × Receives (k + m) r.0
      step {r} (inl (e, q, _)) = absurd (omega (arith, h.room e))
      step {r} (inr (t, serves, code, self, others)) =
          let w : Taken input (k + m) (handle_stream_data t (skip k input) m) =
            Taken-handle_stream_data t input n k m f (h.taken t serves) l in
          (
            code ∙ ap shell_phase_code w.at_phase,
            record {
              room = λ e. absurd cc;
              taken = λ u q. subst (Taken input (k + m)) (same u q) w;
              others = λ x ne. others x ne ∙ h.others x ne;
            },
          )
        where
          same : (u : Stream) → Serves r.0 id u → handle_stream_data t (skip k input) m ≡ u
          same u (inl e) = cc
          same u (inr (e, _, _, _)) = absurd cc

  module _ {S : Type 0} (check_question : QuestionCheck) (send : Send S) where
    -- The adapter only stores the table's new state: nothing is sent.
    adapter_step :
        (a : Adapter) (s : S) (k m : ℕ)
        → Valid.IsValid a.connection
        → Receives k a.connection
        → k + m ≤ n + 2
        → on_authenticated_stream_bytes check_question send a s id (some (skip k input)) m ≡ (
          (dispatch_authenticated_stream_data a.connection id (skip k input) m).1,
          record a {
            connection = (dispatch_authenticated_stream_data a.connection id (skip k input) m).0;
          },
          s,
        )
    unfolding on_authenticated_stream_bytes
    adapter_step a s k m v h l =
        ap
          (λ b.
            answer_if check_question send b
              (record a {
                connection =
                    (dispatch_authenticated_stream_data a.connection id (skip k input) m).0;
              })
              s id (dispatch_authenticated_stream_data a.connection id (skip k input) m).1)
          (ap (λ code. code == 2) (table_step a.connection k m v h l).0
            ∙ not_ready input n (k + m) f l)

    delivered :
        (a : Adapter) (s : S) (k : ℕ) (lens : List ℕ)
        → IsValid a
        → Receives k a.connection
        → k + total lens ≤ n + 2
        → (c : Connection) × (deliver check_question send id (skip k input) a s lens
            ≡ (record a { connection = c }, s))
          × IsValid (record a { connection = c })
          × Receives (k + total lens) c
    unfolding deliver
    delivered a s k [] v h l =
        (a.connection, refl, v, subst (λ j. Receives j a.connection) (sym (add-zero k)) h)
    delivered a s k (m ∷ lens) v h l =
        let d =
          dispatch_authenticated_stream_data_lem a.connection id (skip k input) m
            (λ i. octets (k + i)) v.table in
        let a' : Adapter = record a {
          connection = (dispatch_authenticated_stream_data a.connection id (skip k input) m).0;
        } in
        let (c, e, w, g) =
          delivered a' s (k + m) lens
            (with_connection-IsValid a id (λ t. handle_stream_data t (skip k input) m)
              (dispatch_authenticated_stream_data a.connection id (skip k input) m) v d.0 d.1)
            (table_step a.connection k m v.table h (omega arith)).1 (omega arith) in
        (
          c,
          ap (λ r. deliver check_question send id (skip m (skip k input)) r.1 r.2 lens)
                (adapter_step a s k m v.table h (omega arith))
              ∙ ap (λ b. deliver check_question send id b a' s lens)
                  (fun_ext λ i. ap input (sym (add_assoc k m i)))
              ∙ e,
          w,
          subst (λ j. Receives j c) (add_assoc k m (total lens)) g,
        )

  -- Once the whole message is in, the table holds it and awaits FIN.
  pub whole-HasMessage :
      (c : Connection)
      → Valid.IsValid c
      → Receives (n + 2) c
      → input 2 ≡ 0
      → input 3 ≡ 0
      → (m : HasMessage c id (awaiting_fin n)) × ((i : ℕ)
          → i < n
          → m.stream.message i ≡ input (i + 2))
  whole-HasMessage c v h hi lo = whole (on_authenticated_stream_fin_lem c id v).1
    where
      clash : reading_length ≡ awaiting_fin n → ⊥
      clash e = cc

      whole :
          {r : Connection × ℕ}
          → Handles c id handle_stream_fin r
          → (m : HasMessage c id (awaiting_fin n)) × ((i : ℕ)
              → i < n
              → m.stream.message i ≡ input (i + 2))
      whole (inl (e, q, _)) = absurd (omega (arith, h.room e))
      whole (inr (t, inl e, _, _, _)) =
          let w = h.taken t (inl e) in
          let b : (i : ℕ) → i < n → t.message i ≡ input (i + 2) =
            λ i l. w.at_bytes i (omega arith) in
          (
            record {
              stream = t;
              held = e;
              at_phase = w.at_phase ∙ phase_after-whole input n f;
              id_hi = b 0 (omega (arith, f.header)) ∙ hi;
              id_lo = b 1 (omega (arith, f.header)) ∙ lo;
            },
            b,
          )
      whole (inr (t, inr q, _, _, _)) =
          let w = h.taken t (inr q) in
          absurd (clash (sym q.3 ∙ w.at_phase ∙ phase_after-whole input n f))

-- The table can take a request for the stream: it holds it as new, or has room to open it.
pub record CanOpen (c : Connection) (id : ℕ) : Type 0 where
  pub room : lookup c id ≡ none → c.num < max_streams
  pub new : (t : Stream) → lookup c id ≡ some t → t.phase ≡ reading_length

-- Such a table has taken none of the message in.
pub CanOpen-Receives :
    (id n : ℕ) (input : Bytes) (f : IsFramed input n) (octets : (i : ℕ) → input i < 256)
    (c : Connection)
    → CanOpen c id
    → Receives id input n f octets c 0 c
CanOpen-Receives id n input f octets c o = record {
  room = o.room;
  taken = λ t q. record {
    at_phase = fresh t q ∙ sym (none_yet input);
    at_bytes = λ i h. absurd (omega arith);
  };
  others = λ x ne. refl;
}
  where
    fresh : (t : Stream) → Serves c id t → t.phase ≡ reading_length
    fresh t (inl e) = o.new t e
    fresh t (inr (e, l, i, q)) = q

-- The answer to the message that begins at `input` with `n` bytes, in a state that FIN leaves.
abbrev pub IsAnswerTo :
    {S : Type 0}
    → QuestionCheck
    → Send S
    → (a : Adapter) → CanAnswer a
    → S
    → ℕ
    → ℕ
    → Bytes
    → ℕ × Adapter × S
    → Type 0
IsAnswerTo check_question send a k s id n input r =
    (request : Stream) × ((i : ℕ) → i < n → request.message i ≡ input (i + 2))
    × IsAnswered send s id a.connection
        (prepare_worker_validated_minimal_response_send check_question request k.response
          a.response_capacity n)
        k.out r

-- When the table has the whole message, FIN has it answered.
pub whole-IsAnswerTo :
    {S : Type 0} (check_question : QuestionCheck) (send : Send S) (a : Adapter) (s : S) (id n : ℕ)
    (input : Bytes) (f : IsFramed input n) (octets : (i : ℕ) → input i < 256) (k : CanAnswer a)
    (c : Connection)
    → IsValid (record a { connection = c })
    → Receives id input n f octets a.connection (n + 2) c
    → input 2 ≡ 0
    → input 3 ≡ 0
    → IsAnswerTo check_question send a k s id n input
        (adapter_on_authenticated_stream_fin check_question send (record a { connection = c }) s id)
whole-IsAnswerTo check_question send a s id n input f octets k c u g hi lo =
    let (m, b) = whole-HasMessage id input n f octets a.connection c u.table g hi lo in
    (
      handle_stream_fin m.stream,
      unfold handle_stream_fin in b,
      IsAnswered-trans g.others (
          fin_answers check_question send (record a { connection = c }) s id n u
            (still_answers a k c) m f.header),
    )

-- A whole request is answered: however a framed message of DNS ID 0 is split into fragments, once
-- they are delivered for a stream that the table can take and FIN follows, an adapter with nothing
-- in flight and room for any response hands the callback, which it has not called before, the
-- framed response of the worker to exactly that message. The adapter stays valid, and no other
-- stream is touched.
pub deliver-IsAnswered :
    {S : Type 0} (check_question : QuestionCheck) (send : Send S) (a : Adapter) (s : S) (id n : ℕ)
    (input : Bytes) (lens : List ℕ)
    → IsValid a
    → (k : CanAnswer a) → CanOpen a.connection id
    → IsFramed input n
    → ((i : ℕ) → input i < 256)
    → input 2 ≡ 0
    → input 3 ≡ 0
    → total lens ≡ n + 2
    → let r = deliver check_question send id input a s lens in
      IsAnswerTo check_question send a k s id n input
        (adapter_on_authenticated_stream_fin check_question send r.0 r.1 id)
deliver-IsAnswered check_question send a s id n input lens v k o f octets hi lo w =
    let (c, e, u, g) =
      delivered id input n f octets a.connection check_question send a s 0 lens v
        (CanOpen-Receives id n input f octets a.connection o) (omega (arith, w)) in
    subst
      (λ r.
        IsAnswerTo check_question send a k s id n input
          (adapter_on_authenticated_stream_fin check_question send r.0 r.1 id))
      (sym e
        ∙ ap (λ b. deliver check_question send id b a s lens) (fun_ext λ i. ap input (zero-add i)))
      (whole-IsAnswerTo check_question send a s id n input f octets k c u
        (subst (λ j. Receives id input n f octets a.connection j c) (zero-add (total lens) ∙ w) g)
        hi lo)
