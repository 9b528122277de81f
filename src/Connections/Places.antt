-- ===== src/Connections/Places.antt =====
-- The slots of shell/msquic_connection_runtime.c as the runtimes in them change and they are
-- released.
use ism.Prelude.{ℕ, ◌≡◌, ◌∙◌, ap, fun_ext, arith, update}
use ism.Runtime.{Runtime}
use ism.Connections.{ConnectionRuntime, StreamSlot, put_runtime, slot_host, release_slot, released}

-- Of two writes to an element the second stays.
pub update-update {ℓ} :
    {A : Type ℓ} (a : ℕ → A) (i : ℕ) (x y : A) → update (update a i x) i y ≡ update a i y
update-update a i x y = fun_ext λ j. ground arith

pub update-at {ℓ} : {A : Type ℓ} (a : ℕ → A) (i : ℕ) (x : A) → update a i x i ≡ x
update-at a i x = ground arith

module _ {T : Type 0} (i : ℕ) where
  -- The runtime that is put into the slot is the one that is there.
  pub slot_host-get-set :
      (s : ConnectionRuntime T × T) (r : Runtime T) → (slot_host i).get ((slot_host i).set s r) ≡ r
  slot_host-get-set s r =
      ap (λ (s : StreamSlot T). s.runtime)
        (update-at s.0.stream_slots i (record (s.0.stream_slots i) { runtime = r }))

  pub put_runtime-put_runtime :
      (c : ConnectionRuntime T) (q r : Runtime T)
      → put_runtime (put_runtime c i q) i r ≡ put_runtime c i r
  put_runtime-put_runtime c q r =
      ap (λ slots. record c { stream_slots = slots })
        (ap
            (λ (s : StreamSlot T).
              update (update c.stream_slots i (record (c.stream_slots i) { runtime = q })) i
                (record s { runtime = r }))
            (update-at c.stream_slots i (record (c.stream_slots i) { runtime = q }))
          ∙ update-update c.stream_slots i (record (c.stream_slots i) { runtime = q })
              (record (c.stream_slots i) { runtime = r }))

  -- A release does not depend on the runtime.
  pub released-put_runtime :
      (c : ConnectionRuntime T) (r : Runtime T) (t : T)
      → released (put_runtime c i r, t) i ≡ released (c, t) i
  unfolding release_slot
  released-put_runtime c r t =
      ap
        (λ (s : StreamSlot T). (
          record c {
            stream_slots =
                update (update c.stream_slots i (record (c.stream_slots i) { runtime = r })) i
                  (release_slot s t).0;
          },
          (release_slot s t).1,
        ))
        (update-at c.stream_slots i (record (c.stream_slots i) { runtime = r }))
      ∙ ap (λ slots. (record c { stream_slots = slots }, (release_slot (c.stream_slots i) t).1))
          (update-update c.stream_slots i (record (c.stream_slots i) { runtime = r })
            (release_slot (c.stream_slots i) t).0)
