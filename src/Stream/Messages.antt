-- ===== src/Stream/Messages.antt =====
-- A whole DoQ message through `handle_stream_data` and `handle_stream_fin` of
-- src/transport/DNS.QUIC.StreamMapping.fst: two length bytes and the body, however the transport
-- splits them into fragments.
use native.Mathlib.Nat.{zero-add, add_assoc, add-zero}
use ism.Prelude.{
  ℕ, zero, suc, ◌+◌, ◌-◌, ◌*◌, ◌≤◌, ◌<◌, ◌≡◌, ◌∙◌, ap, sym, refl, fun_ext, subst, dec_lt, ◌==◌,
  ◌&&◌, if◌then◌else◌, Bytes, arith, List, [], ◌∷◌,
}
use ism.Stream.{
  Stream, reading_length, reading_length_high, reading_message, awaiting_fin, processing, done,
  fragment_phase, advance_message_checked, fragment_copy_plan, handle_stream_data,
  handle_stream_fin, finish_doq_phase, next_stream_phase, copy_body_bytes,
}
use ism.Stream.Phases.{u32_from_be_u16_bytes_lem, skip, phase_after, fragment_phase-split}

-- The calls for fragments of the given lengths, one after the other, of the bytes at `input`.
unfoldable pub feed : Stream → Bytes → List ℕ → Stream
feed s input [] = s
feed s input (len ∷ lens) = feed (handle_stream_data s input len) (skip len input) lens

abbrev pub total : List ℕ → ℕ
total [] = 0
total (n ∷ ns) = n + total ns

-- The bytes at `input` begin with the 16-bit length `n`, of a body that a DNS header fits in.
pub record IsFramed (input : Bytes) (n : ℕ) : Type 0 where
  pub hi_byte : input 0 < 256
  pub lo_byte : input 1 < 256
  pub prefix : input 0 * 256 + input 1 ≡ n
  pub header : 12 ≤ n

-- `k` bytes of the framed message have been taken in.
pub record Taken (input : Bytes) (k : ℕ) (s : Stream) : Type 0 where
  pub at_phase : s.phase ≡ phase_after reading_length input k
  pub at_bytes : (i : ℕ) → i + 2 < k → s.message i ≡ input (i + 2)

-- The phase after `k` bytes of a framed message.
pub phase_after-one :
    (input : Bytes) → phase_after reading_length input 1 ≡ reading_length_high (input 0)
unfolding fragment_phase
phase_after-one input = refl

pub none_yet : (input : Bytes) → phase_after reading_length input 0 ≡ reading_length
unfolding fragment_phase
none_yet input = refl

pub phase_after-body :
    (input : Bytes) (n k : ℕ)
    → IsFramed input n
    → k < n
    → phase_after reading_length input (suc (suc k)) ≡ reading_message n k
unfolding fragment_phase advance_message_checked
phase_after-body input n k f l =
    ground (arith, u32_from_be_u16_bytes_lem (input 0) (input 1) f.hi_byte f.lo_byte)

pub phase_after-whole :
    (input : Bytes) (n : ℕ)
    → IsFramed input n
    → phase_after reading_length input (n + 2) ≡ awaiting_fin n
unfolding fragment_phase advance_message_checked
phase_after-whole input n f =
    ground (arith, u32_from_be_u16_bytes_lem (input 0) (input 1) f.hi_byte f.lo_byte)

-- The bytes of the message after a fragment, by the phase before it.
copied_at_start :
    (s : Stream) (input : Bytes) (n m i : ℕ)
    → IsFramed input n
    → s.phase ≡ reading_length
    → m ≤ n + 2
    → i + 2 < m
    → copy_body_bytes s input m i ≡ input (i + 2)
unfolding copy_body_bytes fragment_copy_plan
copied_at_start s input n m i f e l h = rw e (
    ground (
      arith,
      u32_from_be_u16_bytes_lem (input 0) (input 1) f.hi_byte f.lo_byte,
      ap input (shift i),
    ))
  where
    shift : (i : ℕ) → 2 + i - 0 ≡ i + 2
    shift i = omega arith

copied_at_one :
    (s : Stream) (input : Bytes) (n m i : ℕ)
    → IsFramed input n
    → s.phase ≡ reading_length_high (input 0)
    → 1 + m ≤ n + 2
    → i + 2 < 1 + m
    → copy_body_bytes s (skip 1 input) m i ≡ input (i + 2)
unfolding copy_body_bytes fragment_copy_plan
copied_at_one s input n m i f e l h = rw e (
    ground (
      arith,
      u32_from_be_u16_bytes_lem (input 0) (input 1) f.hi_byte f.lo_byte,
      ap input (shift i),
    ))
  where
    shift : (i : ℕ) → 1 + (1 + i - 0) ≡ i + 2
    shift i = omega arith

copied_in_body :
    (s : Stream) (input : Bytes) (n k m i : ℕ)
    → s.phase ≡ reading_message n k
    → k < n
    → k + m ≤ n
    → ((j : ℕ) → j < k → s.message j ≡ input (j + 2))
    → i < k + m
    → copy_body_bytes s (skip (suc (suc k)) input) m i ≡ input (i + 2)
unfolding copy_body_bytes fragment_copy_plan
copied_in_body s input n k m i e l w old h =
    rw e (ground (arith, old i, λ (b : k ≤ i). ap input (shift b)))
  where
    shift : k ≤ i → suc (suc k) + (0 + i - k) ≡ i + 2
    shift b = omega arith

-- Once the message is whole an empty fragment copies nothing.
copied_after_whole :
    (s : Stream) (input : Bytes) (n m : ℕ)
    → s.phase ≡ awaiting_fin n
    → copy_body_bytes s input m ≡ s.message
unfolding copy_body_bytes fragment_copy_plan
copied_after_whole s input n m e = rw e refl

-- The bytes after one more fragment that stays within the message.
copied_bytes :
    (s : Stream) (input : Bytes) (n k m i : ℕ)
    → IsFramed input n
    → Taken input k s
    → k + m ≤ n + 2
    → i + 2 < k + m
    → copy_body_bytes s (skip k input) m i ≡ input (i + 2)
copied_bytes s input n zero m i f t l h =
    ap (λ b. copy_body_bytes s b m i) (fun_ext λ j. ap input (zero-add j))
    ∙ copied_at_start s input n m i f (t.at_phase ∙ none_yet input) (omega arith) (omega arith)
copied_bytes s input n (suc zero) m i f t l h =
    copied_at_one s input n m i f (t.at_phase ∙ phase_after-one input) l h
copied_bytes s input n (suc (suc k)) m i f t l h = elim (dec_lt k n) [
  | yes p ↦
      copied_in_body s input n k m i (t.at_phase ∙ phase_after-body input n k f p) p (omega arith)
        (λ j q. t.at_bytes j (omega arith)) (omega arith)
  | no p ↦
      ap (λ b. b i)
        (copied_after_whole s (skip (suc (suc k)) input) n m (
          t.at_phase
          ∙ ap (phase_after reading_length input) (whole p)
          ∙ phase_after-whole input n f))
      ∙ t.at_bytes i (omega arith)
]
  where
    whole : ¬ (k < n) → suc (suc k) ≡ n + 2
    whole p = omega arith

-- A fragment that stays within a framed message takes its bytes in.
pub Taken-handle_stream_data :
    (s : Stream) (input : Bytes) (n k m : ℕ)
    → IsFramed input n
    → Taken input k s
    → k + m ≤ n + 2
    → Taken input (k + m) (handle_stream_data s (skip k input) m)
unfolding handle_stream_data next_stream_phase
Taken-handle_stream_data s input n k m f t l = record {
  at_phase = rw t.at_phase (fragment_phase-split reading_length input k m tt);
  at_bytes = λ i h. copied_bytes s input n k m i f t l h;
}

Taken-feed :
    (s : Stream) (input : Bytes) (n k : ℕ) (lens : List ℕ)
    → IsFramed input n
    → Taken input k s
    → k + total lens ≤ n + 2
    → Taken input (k + total lens) (feed s (skip k input) lens)
unfolding feed
Taken-feed s input n k [] f t l = rw (add-zero k) t
Taken-feed s input n k (m ∷ lens) f t l =
    subst
      (λ b.
        Taken input (k + (m + total lens)) (feed (handle_stream_data s (skip k input) m) b lens))
      (fun_ext λ i. ap input (add_assoc k m i))
      (subst
        (λ j.
          Taken input j (feed (handle_stream_data s (skip k input) m) (skip (k + m) input) lens))
        (add_assoc k m (total lens))
        (Taken-feed (handle_stream_data s (skip k input) m) input n (k + m) lens f
          (Taken-handle_stream_data s input n k m f t (omega arith)) (omega arith)))

-- However a framed message is split into fragments, after the last one the stream awaits FIN
-- with exactly the body in its message buffer.
pub feed-awaiting_fin :
    (s : Stream) (input : Bytes) (n : ℕ) (lens : List ℕ)
    → IsFramed input n
    → s.phase ≡ reading_length
    → total lens ≡ n + 2
    → ((feed s input lens).phase ≡ awaiting_fin n)
      × ((i : ℕ) → i < n → (feed s input lens).message i ≡ input (i + 2))
feed-awaiting_fin s input n lens f e w =
    (whole.at_phase ∙ phase_after-whole input n f, λ i h. whole.at_bytes i (omega arith))
  where
    start : Taken input 0 s
    start = record { at_phase = e ∙ sym (none_yet input); at_bytes = λ i h. absurd (omega arith) }

    whole : Taken input (n + 2) (feed s input lens)
    whole =
        subst (λ b. Taken input (n + 2) (feed s b lens)) (fun_ext λ i. ap input (zero-add i))
          (subst (λ j. Taken input j (feed s (skip 0 input) lens)) (zero-add (total lens) ∙ w)
            (Taken-feed s input n 0 lens f start (omega arith)))

-- After the fragments of a framed message, however it is split, FIN makes the message ready if
-- the two bytes of its DNS ID are 0, and ends the stream otherwise.
pub fin-feed :
    (s : Stream) (input : Bytes) (n : ℕ) (lens : List ℕ)
    → IsFramed input n
    → s.phase ≡ reading_length
    → total lens ≡ n + 2
    → (handle_stream_fin (feed s input lens)).phase
      ≡ (if input 2 == 0 && input 3 == 0 then processing n else done)
unfolding handle_stream_fin finish_doq_phase
fin-feed s input n lens f e w =
    let r = feed-awaiting_fin s input n lens f e w in
    rw (r.0, r.1 0 (omega arith), r.1 1 (omega arith)) refl
