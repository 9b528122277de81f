-- ===== src/Table/Valid.antt =====
-- The invariant of the stream table of shell/ism_shell.c, and what `ism_shell_sync_stream_slots`
-- makes of a table whose pointers are sound.
use ism.Prelude.{
  ℕ, zero, suc, ◌+◌, ◌≤◌, ◌<◌, ◌≡◌, ◌∙◌, sym, ap, refl, subst, true, false, arith, Bool-cases, inl,
  inr, ◌==◌, ◌≢◌, ℕ_discrete, if◌then◌else◌,
}
use ism.Stream.{reading_length}
use ism.Stream.Phases.{IsValid as IsValidPhase}
use ism.Table.{
  Connection, Slot, zero_slot, max_streams, reset_stream, active_ptr_from, stream_is_active_ptr,
  sync_slot, sync_from, sync_stream_slots, connection_init,
}
use ism.Table.Find.{IsSearchable}

-- The pointers are a permutation of the four slots, and no two streams in use share an ID.
pub record IsLinked (c : Connection) : Type 0 where
  pub full_capacity : c.capacity ≡ max_streams
  pub num_le : c.num ≤ max_streams
  pub order_lt : (i : ℕ) → i < max_streams → c.order i < max_streams
  pub order_distinct : (i j : ℕ) → i < max_streams → j < max_streams → c.order i ≡ c.order j → i ≡ j
  pub ids_distinct :
      (i j : ℕ)
      → i < c.num
      → j < c.num
      → (c.streams (c.order i)).id ≡ (c.streams (c.order j)).id
      → i ≡ j
  pub phases : (i : ℕ) → i < c.num → IsValidPhase (c.streams (c.order i)).phase

-- A slot as `ism_shell_reset_stream` leaves it.
pub record IsFree (s : Slot) : Type 0 where
  pub no_id : s.id ≡ 0
  pub fresh : s.phase ≡ reading_length
  pub inactive : s.active ≡ false

-- And the slots' flags agree with the pointers: those in use are active, the others reset.
pub record IsValid (c : Connection) : Type 0 where
  pub linked : IsLinked c
  pub open linked use *
  pub used : (i : ℕ) → i < c.num → (c.streams (c.order i)).active ≡ true
  pub free : (i : ℕ) → c.num ≤ i → i < max_streams → IsFree (c.streams (c.order i))

pub IsLinked-IsSearchable : {c : Connection} → IsLinked c → IsSearchable c
IsLinked-IsSearchable {c} v = record {
  in_range = λ i l. v.order_lt i (omega (arith, v.num_le));
  unique = v.ids_distinct;
}

init_order : (i : ℕ) → i < max_streams → connection_init.order i ≡ i
unfolding connection_init
init_order i l = ground arith

init_streams : (i : ℕ) → connection_init.streams i ≡ zero_slot
unfolding connection_init reset_stream
init_streams i = ground arith

-- A fresh connection satisfies the invariant, and holds no stream.
pub connection_init-IsValid : IsValid connection_init × (connection_init.num ≡ 0)
unfolding connection_init reset_stream
connection_init-IsValid = (
  record {
    linked = record {
      full_capacity = refl;
      num_le = omega arith;
      order_lt = λ i l. rw (init_order i l) l;
      order_distinct = λ i j a b e. sym (init_order i a) ∙ e ∙ init_order j b;
      ids_distinct = λ i j a b. absurd (omega arith);
      phases = λ i a. absurd (omega arith);
    };
    used = λ i a. absurd (omega arith);
    free = λ i a b.
        rw (init_streams (connection_init.order i))
          (record { no_id = refl; fresh = refl; inactive = refl });
  },
  refl,
)

-- The scan for a pointer reads the pointers only.
active_ptr_from-streams :
    (c : Connection) (f : ℕ → Slot) (p k i : ℕ)
    → active_ptr_from (record c { streams = f }) p k i ≡ active_ptr_from c p k i
unfolding active_ptr_from
active_ptr_from-streams c f p zero i = refl
active_ptr_from-streams c f p (suc k) i = rw (active_ptr_from-streams c f p k (i + 1)) refl

active_ptr_from-hit :
    (c : Connection) (k i j : ℕ) → i ≤ j → j < i + k → active_ptr_from c (c.order j) k i ≡ true
unfolding active_ptr_from
active_ptr_from-hit c zero i j a b = absurd (omega arith)
active_ptr_from-hit c (suc k) i j a b =
    ground (arith, ap c.order {x = i} {y = j}, active_ptr_from-hit c k (i + 1) j)

active_ptr_from-true :
    (c : Connection) (p k i : ℕ)
    → active_ptr_from c p k i ≡ true
    → (j : ℕ) × (i ≤ j) × (j < i + k) × (c.order j ≡ p)
unfolding active_ptr_from
active_ptr_from-true c p zero i e = cc
active_ptr_from-true c p (suc k) i e = elim (Bool-cases (c.order i == p)) [
  | inl h ↦ (i, omega arith, omega arith, ground arith)
  | inr h ↦
      let (j, a, b, q) = active_ptr_from-true c p k (i + 1) (ground arith) in
      (j, omega arith, omega arith, q)
]

-- What the synchronisation leaves in slot `p`.
abbrev pub synced : Connection → ℕ → Slot
synced c p =
    if stream_is_active_ptr c p
    then record (c.streams p) { active = true }
    else reset_stream (c.streams p)

sync_slot_self : (c : Connection) (i : ℕ) → (sync_slot c i).streams i ≡ synced c i
unfolding sync_slot
sync_slot_self c i = ground arith

sync_slot_other : (c : Connection) (i p : ℕ) → p ≢ i → (sync_slot c i).streams p ≡ c.streams p
unfolding sync_slot
sync_slot_other c i p h = ground arith

synced-sync_slot : (c : Connection) (i p : ℕ) → p ≢ i → synced (sync_slot c i) p ≡ synced c p
synced-sync_slot c i p h = rw (sync_slot_other c i p h, same_pointers) refl
  where
    same_pointers : stream_is_active_ptr (sync_slot c i) p ≡ stream_is_active_ptr c p
    same_pointers = unfold stream_is_active_ptr sync_slot in active_ptr_from-streams c _ p c.num 0

sync_from_lem :
    (c : Connection) (k i : ℕ)
    → ((sync_from c k i).order ≡ c.order)
      × ((sync_from c k i).num ≡ c.num)
      × ((sync_from c k i).capacity ≡ c.capacity)
      × ((p : ℕ) → i ≤ p → p < i + k → (sync_from c k i).streams p ≡ synced c p)
      × ((p : ℕ) → p < i → (sync_from c k i).streams p ≡ c.streams p)
unfolding sync_from
sync_from_lem c zero i = (refl, refl, refl, λ p a b. absurd (omega arith), λ p a. refl)
sync_from_lem c (suc k) i =
    let r = sync_from_lem (sync_slot c i) k (i + 1) in
    (
      r.0 ∙ unfold sync_slot in refl,
      r.1 ∙ unfold sync_slot in refl,
      r.2 ∙ unfold sync_slot in refl,
      λ p a b. elim (ℕ_discrete p i) [
        | yes e ↦
            r.4 p (omega arith)
            ∙ ap (sync_slot c i).streams e
            ∙ sync_slot_self c i
            ∙ ap (synced c) (sym e)
        | no n ↦ r.3 p (omega arith) (omega arith) ∙ synced-sync_slot c i p n
      ],
      λ p a. r.4 p (omega arith) ∙ sync_slot_other c i p (omega arith),
    )

-- After the synchronisation exactly the slots that a pointer in use points to are active, with
-- their contexts untouched, and all others are reset.
pub sync_stream_slots_lem :
    (c : Connection)
    → ((sync_stream_slots c).order ≡ c.order)
      × ((sync_stream_slots c).num ≡ c.num)
      × ((sync_stream_slots c).capacity ≡ c.capacity)
      × ((p : ℕ) → p < max_streams → (sync_stream_slots c).streams p ≡ synced c p)
unfolding sync_stream_slots
sync_stream_slots_lem c =
    let r = sync_from_lem c max_streams 0 in (r.0, r.1, r.2, λ p l. r.3 p (omega arith) l)

synced-used :
    (c : Connection) (j : ℕ)
    → j < c.num
    → synced c (c.order j) ≡ record (c.streams (c.order j)) { active = true }
unfolding stream_is_active_ptr
synced-used c j l = rw (active_ptr_from-hit c c.num 0 j (omega arith) (omega arith)) refl

synced-free :
    (c : Connection) (j : ℕ)
    → IsLinked c
    → c.num ≤ j
    → j < max_streams
    → synced c (c.order j) ≡ reset_stream (c.streams (c.order j))
unfolding stream_is_active_ptr
synced-free c j v a b = elim (Bool-cases (active_ptr_from c (c.order j) c.num 0)) [
  | inl e ↦
      let (m, x, y, q) = active_ptr_from-true c (c.order j) c.num 0 e in
      absurd (clash m (omega arith) (v.order_distinct m j (omega (arith, v.num_le)) b q))
  | inr e ↦ rw e refl
]
  where
    clash : (m : ℕ) → m < c.num → m ≡ j → ⊥
    clash m l e = omega arith

-- The links of a table are those of any table with the same pointers and the same contexts in
-- use.
pub IsLinked-agree :
    (c d : Connection)
    → d.order ≡ c.order
    → d.num ≡ c.num
    → d.capacity ≡ c.capacity
    → ((i : ℕ) → i < c.num → (d.streams (c.order i)).ctx ≡ (c.streams (c.order i)).ctx)
    → IsLinked c
    → IsLinked d
IsLinked-agree c d o n k x v = record {
  full_capacity = k ∙ v.full_capacity;
  num_le = omega (arith, v.num_le);
  order_lt = λ i l. subst (λ p. p < max_streams) (sym (at i)) (v.order_lt i l);
  order_distinct = λ i j a b e. v.order_distinct i j a b (sym (at i) ∙ e ∙ at j);
  ids_distinct = λ i j a b e.
      v.ids_distinct i j (below i a) (below j b)
        (sym (ap (λ s. s.id) (same i (below i a))) ∙ e ∙ ap (λ s. s.id) (same j (below j b)));
  phases =
      λ i a. subst (λ s. IsValidPhase s.phase) (sym (same i (below i a))) (v.phases i (below i a));
}
  where
    at : (i : ℕ) → d.order i ≡ c.order i
    at i = ap (λ f. f i) o

    below : (i : ℕ) → i < d.num → i < c.num
    below i l = omega arith

    same : (i : ℕ) → i < c.num → (d.streams (d.order i)).ctx ≡ (c.streams (c.order i)).ctx
    same i l = ap (λ p. (d.streams p).ctx) (at i) ∙ x i l

pub reset_stream-IsFree : (s : Slot) → IsFree (reset_stream s)
unfolding reset_stream
reset_stream-IsFree s = record { no_id = refl; fresh = refl; inactive = refl }

-- Sound pointers are all that the synchronisation needs to restore the invariant, and every
-- context in use stays as it is.
pub sync_stream_slots-IsValid :
    (c : Connection)
    → IsLinked c
    → IsValid (sync_stream_slots c)
      × ((j : ℕ)
          → j < c.num
          → ((sync_stream_slots c).streams (c.order j)).ctx ≡ (c.streams (c.order j)).ctx)
sync_stream_slots-IsValid c v =
    let r = sync_stream_slots_lem c in
    let d = sync_stream_slots c in
    let slot = slot_at d r.0 r.3 in
    (
      record {
        linked = IsLinked-agree c d r.0 r.1 r.2 (kept d r.3) v;
        used = λ i l.
            ap (λ s. s.active)
              (slot i (omega (arith, v.num_le, r.1)) ∙ synced-used c i (omega (arith, r.1)));
        free = λ i a b.
            subst IsFree (sym (slot i b ∙ synced-free c i v (omega (arith, r.1)) b))
              (reset_stream-IsFree (c.streams (c.order i)));
      },
      kept d r.3,
    )
  where
    slot_at :
        (d : Connection)
        → d.order ≡ c.order
        → ((p : ℕ) → p < max_streams → d.streams p ≡ synced c p)
        → (i : ℕ) → i < max_streams
        → d.streams (d.order i) ≡ synced c (c.order i)
    slot_at d o h i l = ap (λ f. d.streams (f i)) o ∙ h (c.order i) (v.order_lt i l)

    kept :
        (d : Connection)
        → ((p : ℕ) → p < max_streams → d.streams p ≡ synced c p)
        → (j : ℕ) → j < c.num
        → (d.streams (c.order j)).ctx ≡ (c.streams (c.order j)).ctx
    kept d h j l =
        ap (λ s. s.ctx) (h (c.order j) (v.order_lt j (omega (arith, v.num_le))) ∙ synced-used c j l)
