-- ===== src/Table/Open.antt =====
-- `ism_shell_open_stream` of shell/ism_shell.c.
use ism.Prelude.{
  ℕ, zero, suc, ◌+◌, ◌≤◌, ◌<◌, ◌≡◌, ◌≢◌, ◌∙◌, sym, ap, subst, refl, true, false, arith, none, some,
  Option-cases, inl, inr, ◌⊎◌, ℕ_discrete, dec_lt, update, add_u32,
}
use ism.Stream.{Stream, reading_length}
use ism.Stream.Phases
use ism.Table.{Connection, Slot, max_streams, find_stream, claim_from, open_stream}
use ism.Table.Find.{Holds, find_stream-some, find_stream-none, lookup, lookup-Holds, lookup-absent}
use ism.Table.Valid.{IsValid, IsFree, IsLinked-IsSearchable}

-- The context of a stream that has just been opened in slot `s`.
abbrev pub opened : Slot → ℕ → Stream
opened s id = record s.ctx { id = id; phase = reading_length }

-- The table after the next free slot has been given to `id`.
abbrev pub claimed : Connection → ℕ → Connection
claimed c id = record c {
  streams = update c.streams (c.order c.num) (record (c.streams (c.order c.num)) {
    ctx = opened (c.streams (c.order c.num)) id;
    active = true;
  });
  num = add_u32 c.num 1;
}

claim_from_lem :
    (c : Connection) (id k i : ℕ)
    → i ≤ c.order c.num
    → c.order c.num < i + k
    → (c.streams (c.order c.num)).active ≡ false
    → claim_from c id k i ≡ (claimed c id, some (c.order c.num))
unfolding claim_from
claim_from_lem c id zero i a b f = absurd (omega arith)
claim_from_lem c id (suc k) i a b f = elim (ℕ_discrete i (c.order c.num)) [
  | yes e ↦ rw e (ground arith)
  | no n ↦ ground (arith, claim_from_lem c id k (i + 1))
]

-- The three outcomes: the stream is there, the table is full, or it gets the next free slot.
pub open_stream-cases :
    (c : Connection) (id : ℕ)
    → IsValid c
    → ((p : ℕ) × (j : ℕ) × Holds c id p j × (open_stream c id ≡ (c, some p)))
      ⊎ ((find_stream c id ≡ none) × (c.num ≡ max_streams) × (open_stream c id ≡ (c, none)))
      ⊎ ((find_stream c id ≡ none)
          × (c.num < max_streams)
          × (open_stream c id ≡ (claimed c id, some (c.order c.num))))
unfolding open_stream
open_stream-cases c id v = elim (Option-cases (find_stream c id)) [
  | inr (p, e) ↦ let (j, g) = find_stream-some c id p e in inl (p, j, g, rw (e, open_stream) refl)
  | inl e ↦ elim (dec_lt c.num max_streams) [
    | yes l ↦
        let w = v.order_lt c.num l in
        let f = v.free c.num (omega arith) l in
        inr (inr (e, l, ground (arith, v.full_capacity, claim_from_lem c id max_streams 0)))
    | no n ↦ inr (inl (e, omega (arith, v.num_le), ground (arith, v.full_capacity, v.num_le)))
  ]
]

module _ (c : Connection) (id : ℕ) (v : IsValid c) (l : c.num < max_streams)
    (new : find_stream c id ≡ none) where
  -- A pointer in use points to another slot than the one that is given out,
  elsewhere : (x : ℕ) → x < c.num → c.order x ≢ c.order c.num
  elsewhere x h e = absurd (clash (v.order_distinct x c.num (omega arith) l e))
    where
      clash : x ≡ c.num → ⊥
      clash q = omega arith

  -- so its slot stays as it is.
  kept : (x : ℕ) → x < c.num → (claimed c id).streams (c.order x) ≡ c.streams (c.order x)
  kept x h = let n = elsewhere x h in ground arith

  abbrev fresh : Slot
  fresh = record { ctx = opened (c.streams (c.order c.num)) id; active = true }

  given : (claimed c id).streams (c.order c.num) ≡ fresh
  given = ground arith

  count : (claimed c id).num ≡ suc c.num
  count = omega arith

  split : (x : ℕ) → x < (claimed c id).num → (x < c.num) ⊎ (x ≡ c.num)
  split x h = omega arith

  id_at : (x : ℕ) → x < c.num → ((claimed c id).streams (c.order x)).id ≢ id
  id_at x h e =
      find_stream-none c id x (IsLinked-IsSearchable v.linked) new h
        (sym (ap (λ s. s.id) (kept x h)) ∙ e)

  id_new : (x : ℕ) → x ≡ c.num → ((claimed c id).streams (c.order x)).id ≡ id
  id_new x e = ap (λ y. ((claimed c id).streams (c.order y)).id) e ∙ ap (λ s. s.id) given

  given_at : (x : ℕ) → x ≡ c.num → (claimed c id).streams (c.order x) ≡ fresh
  given_at x e = ap (λ y. (claimed c id).streams (c.order y)) e ∙ given

  distinct :
      (x y : ℕ)
      → (x < c.num) ⊎ (x ≡ c.num)
      → (y < c.num) ⊎ (y ≡ c.num)
      → ((claimed c id).streams (c.order x)).id ≡ ((claimed c id).streams (c.order y)).id
      → x ≡ y
  distinct x y (inl a) (inl b) e =
      v.ids_distinct x y a b (sym (ap (λ s. s.id) (kept x a)) ∙ e ∙ ap (λ s. s.id) (kept y b))
  distinct x y (inl a) (inr b) e = absurd (id_at x a (e ∙ id_new y b))
  distinct x y (inr a) (inl b) e = absurd (id_at y b (sym e ∙ id_new x a))
  distinct x y (inr a) (inr b) e = a ∙ sym b

  -- A property of every slot in use holds of every slot in use after the opening.
  in_use {ℓ} :
      (P : Slot → Type ℓ)
      → ((x : ℕ) → x < c.num → P (c.streams (c.order x)))
      → P fresh
      → (x : ℕ) → x < (claimed c id).num
      → P ((claimed c id).streams (c.order x))
  in_use P old now x h = elim (split x h) [
    | inl a ↦ subst P (sym (kept x a)) (old x a)
    | inr e ↦ subst P (sym (given_at x e)) now
  ]

  still_free :
      (x : ℕ)
      → c.num < x
      → x < max_streams
      → (claimed c id).streams (c.order x) ≡ c.streams (c.order x)
  still_free x a b = let n = apart in ground arith
    where
      apart : c.order x ≢ c.order c.num
      apart e = absurd (clash (v.order_distinct x c.num b l e))
        where
          clash : x ≡ c.num → ⊥
          clash q = omega arith

  -- Opening keeps the table's invariant.
  pub claimed-IsValid : IsValid (claimed c id)
  claimed-IsValid = record {
    linked = record {
      full_capacity = v.full_capacity;
      num_le = omega arith;
      order_lt = v.order_lt;
      order_distinct = v.order_distinct;
      ids_distinct = λ x y a b. distinct x y (split x a) (split y b);
      phases = in_use (λ s. Phases.IsValid s.phase) v.phases tt;
    };
    used = in_use (λ s. s.active ≡ true) v.used refl;
    free = λ x a b. subst IsFree (sym (still_free x (omega arith) b)) (v.free x (omega arith) b);
  }

  Holds-new : Holds (claimed c id) id (c.order c.num) c.num
  Holds-new = record { in_use = omega arith; points = refl; has_id = id_new c.num refl }

  lookup-claimed_self : lookup (claimed c id) id ≡ some (opened (c.streams (c.order c.num)) id)
  lookup-claimed_self =
      lookup-Holds (claimed c id) id (c.order c.num) c.num
        (IsLinked-IsSearchable claimed-IsValid.linked) Holds-new
      ∙ ap (λ s. some s.ctx) given

  lookup-claimed_other : (other : ℕ) → other ≢ id → lookup (claimed c id) other ≡ lookup c other
  lookup-claimed_other other ne = elim (Option-cases (find_stream c other)) [
    | inl e ↦
        lookup-absent (claimed c id) other (λ x h q. elim (split x h) [
          | inl a ↦
              find_stream-none c other x (IsLinked-IsSearchable v.linked) e a
                (sym (ap (λ s. s.id) (kept x a)) ∙ q)
          | inr a ↦ ne (sym q ∙ id_new x a)
        ])
        ∙ sym (
            lookup-absent c other
              (λ x h. find_stream-none c other x (IsLinked-IsSearchable v.linked) e h))
    | inr (p, e) ↦ let (j, g) = find_stream-some c other p e in found p j g
  ]
    where
      found : (p j : ℕ) → Holds c other p j → lookup (claimed c id) other ≡ lookup c other
      found p j g =
          let same : (claimed c id).streams p ≡ c.streams p =
            subst (λ q. (claimed c id).streams q ≡ c.streams q) g.points (kept j g.in_use) in
          lookup-Holds (claimed c id) other p j (IsLinked-IsSearchable claimed-IsValid.linked)
            (record {
              in_use = omega (arith, g.in_use);
              points = g.points;
              has_id = ap (λ s. s.id) same ∙ g.has_id;
            })
          ∙ ap (λ s. some s.ctx) same
          ∙ sym (lookup-Holds c other p j (IsLinked-IsSearchable v.linked) g)

-- What the pointer that a lookup finds points to is what the lookup answers.
lookup-pointed :
    (c : Connection) (id p j : ℕ)
    → IsValid c
    → Holds c id p j
    → lookup c id ≡ some (c.streams p).ctx
lookup-pointed c id p j v g = lookup-Holds c id p j (IsLinked-IsSearchable v.linked) g

lookup-missing : (c : Connection) (id : ℕ) → find_stream c id ≡ none → lookup c id ≡ none
unfolding lookup
lookup-missing c id e = rw (e, lookup) refl

-- The table after an opening that succeeded: `id` reads as a fresh stream in slot `p`, and
-- every other ID reads as before.
pub record IsOpened (c : Connection) (id p : ℕ) (d : Connection) : Type 0 where
  pub valid : IsValid d
  pub counted : d.num ≡ c.num + 1
  pub held : (j : ℕ) × Holds d id p j
  pub fresh_phase : (d.streams p).phase ≡ reading_length
  pub others : (other : ℕ) → other ≢ id → lookup d other ≡ lookup c other

-- Opening a stream that the table holds changes nothing and returns its context; otherwise a
-- full table refuses and stays as it is, and any other gives the stream a slot of its own.
pub open_stream_outcomes :
    (c : Connection) (id : ℕ)
    → IsValid c
    → ((p : ℕ) × (open_stream c id ≡ (c, some p))
        × ((j : ℕ) × Holds c id p j)
        × (lookup c id ≡ some (c.streams p).ctx))
      ⊎ ((lookup c id ≡ none) × (c.num ≡ max_streams) × (open_stream c id ≡ (c, none)))
      ⊎ ((lookup c id ≡ none)
          × (c.num < max_streams)
          × ((d : Connection) × (p : ℕ) × (open_stream c id ≡ (d, some p)) × IsOpened c id p d))
open_stream_outcomes c id v = elim (open_stream-cases c id v) [
  | inl (p, j, g, e) ↦ inl (p, e, (j, g), lookup-pointed c id p j v g)
  | inr (inl (n, l, e)) ↦ inr (inl (lookup-missing c id n, l, e))
  | inr (inr (n, l, e)) ↦ inr (
      inr (
        lookup-missing c id n,
        l,
        (
          claimed c id,
          c.order c.num,
          e,
          record {
            valid = claimed-IsValid c id v l n;
            counted = omega arith;
            held = (c.num, Holds-new c id v l n);
            fresh_phase = ap (λ s. s.phase) (given c id v l n);
            others = lookup-claimed_other c id v l n;
          },
        ),
      ))
]
