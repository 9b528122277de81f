-- ===== src/Table/Close.antt =====
-- Closing a stream: `close_stream` of src/transport/DNS.QUIC.Multiplexer.fst, and the reset and
-- completion of shell/ism_shell.c that call it and put the slots in order.
use ism.Prelude.{
  ℕ, zero, suc, ◌+◌, ◌-◌, ◌≤◌, ◌<◌, ◌≡◌, ◌≢◌, ◌∙◌, sym, ap, subst, refl, Bool, true, false, arith,
  Bool-cases, none, some, Option-cases, inl, inr, ◌⊎◌, ◌==◌, if◌then◌else◌, ℕ_discrete,
}
use ism.Stream.Phases
use ism.Table.{
  Connection, max_streams, swap, find_stream, close_stream_from, close_stream, active_slot_from,
  sync_stream_slots, complete_response_send, dispatch_response_send_finished, dispatch_stream_reset,
}
use ism.Table.Find.{
  Holds, find_stream-some, find_stream-none, lookup, lookup-Holds, lookup-absent, lookup-agree,
}
use ism.Table.Valid.{
  IsLinked, IsValid, IsLinked-IsSearchable, sync_stream_slots_lem, sync_stream_slots-IsValid,
}

-- The index that a swapped array reads.
abbrev swapped : ℕ → ℕ → ℕ → ℕ
swapped i j x = if x == i then j else if x == j then i else x

swap_lem : (o : ℕ → ℕ) (i j x : ℕ) → swap o i j x ≡ o (swapped i j x)
swap_lem o i j x = ground (arith, ap o {x = x} {y = i}, ap o {x = x} {y = j})

swapped-involutive : (i j x : ℕ) → swapped i j (swapped i j x) ≡ x
swapped-involutive i j x = ground arith

close_stream_from-cases :
    (c : Connection) (id k i : ℕ)
    → ((close_stream_from c id k i ≡ none)
        × ((j : ℕ) → i ≤ j → j < i + k → (c.streams (c.order j)).id ≢ id))
      ⊎ ((j : ℕ) × (j < i + k)
          × ((c.streams (c.order j)).id ≡ id)
          × (close_stream_from c id k i ≡ some (swap c.order j (c.num - 1))))
unfolding close_stream_from
close_stream_from-cases c id zero i = inl (refl, λ j a b. absurd (omega arith))
close_stream_from-cases c id (suc k) i = elim (Bool-cases ((c.streams (c.order i)).id == id)) [
  | inl e ↦ inr (i, omega arith, ground arith, rw e refl)
  | inr e ↦ elim (close_stream_from-cases c id k (i + 1)) [
    | inl (none_left, h) ↦ inl (
      rw e none_left,
      λ j a b. elim (ℕ_discrete j i) [
        | yes q ↦ λ g. ground (arith, ap (λ x. (c.streams (c.order x)).id) q)
        | no q ↦ h j (omega arith) (omega arith)
      ],
    )
    | inr (j, a, b, r) ↦ inr (j, omega arith, b, rw e r)
  ]
]

-- The table after the pointer at `j` has been taken out of use.
abbrev pub without : Connection → ℕ → Connection
without c j = record c { order = swap c.order j (c.num - 1); num = c.num - 1 }

-- Closing an ID that the table does not hold changes nothing; otherwise its pointer changes
-- places with the last one in use, which the count then leaves out.
pub close_stream-cases :
    (c : Connection) (id : ℕ)
    → ((close_stream c id ≡ c) × ((j : ℕ) → j < c.num → (c.streams (c.order j)).id ≢ id))
      ⊎ ((j : ℕ) × (j < c.num)
          × ((c.streams (c.order j)).id ≡ id)
          × (close_stream c id ≡ without c j))
unfolding close_stream
close_stream-cases c id = elim (close_stream_from-cases c id c.num 0) [
  | inl (e, h) ↦ inl (rw (e, close_stream) refl, λ j l. h j (omega arith) (omega arith))
  | inr (j, a, b, e) ↦ inr (j, omega arith, b, rw (e, close_stream) refl)
]

-- Where an index of the table after the removal lies in the table before it.
moved :
    (j n x : ℕ)
    → j < n
    → n ≤ max_streams
    → x < n - 1
    → (swapped j (n - 1) x < n) × (swapped j (n - 1) x ≢ j)
moved j n x l m h = ground arith

moved-lt :
    (j n x : ℕ) → j < n → n ≤ max_streams → x < max_streams → swapped j (n - 1) x < max_streams
moved-lt j n x l m h = ground arith

swapped-injective : (i j x y : ℕ) → swapped i j x ≡ swapped i j y → x ≡ y
swapped-injective i j x y e =
    sym (swapped-involutive i j x) ∙ ap (swapped i j) e ∙ swapped-involutive i j y

module _ (c : Connection) (j : ℕ) (l : j < c.num) (v : IsLinked c) where
  -- The place of an index of the new table in the old one.
  abbrev place : ℕ → ℕ
  place = swapped j (c.num - 1)

  at_place : (x : ℕ) → (without c j).order x ≡ c.order (place x)
  at_place x = swap_lem c.order j (c.num - 1) x

  in_place : (x : ℕ) → x < c.num - 1 → (place x < c.num) × (place x ≢ j)
  in_place x h = moved j c.num x l v.num_le h

  place_lt : (x : ℕ) → x < max_streams → place x < max_streams
  place_lt x h = moved-lt j c.num x l v.num_le h

  -- Taking a pointer out of use keeps the links sound.
  pub without-IsLinked : IsLinked (without c j)
  without-IsLinked = record {
    full_capacity = v.full_capacity;
    num_le = omega (arith, v.num_le);
    order_lt = λ x h.
        subst (λ p. p < max_streams) (sym (at_place x)) (v.order_lt (place x) (place_lt x h));
    order_distinct = λ x y a b e. swapped-injective j (c.num - 1) x y (
        v.order_distinct (place x) (place y) (place_lt x a) (place_lt y b)
          (sym (at_place x) ∙ e ∙ at_place y));
    ids_distinct = λ x y a b e. swapped-injective j (c.num - 1) x y (
        v.ids_distinct (place x) (place y) (in_place x a).0 (in_place y b).0 (
          sym (ap (λ p. (c.streams p).id) (at_place x))
          ∙ e
          ∙ ap (λ p. (c.streams p).id) (at_place y)));
    phases = λ x a.
        subst (λ p. Phases.IsValid (c.streams p).phase) (sym (at_place x))
          (v.phases (place x) (in_place x a).0);
  }

  -- The ID that stood there is gone,
  lookup-without_self : lookup (without c j) (c.streams (c.order j)).id ≡ none
  lookup-without_self = lookup-absent (without c j) (c.streams (c.order j)).id λ x h e.
      (in_place x h).1 (
        v.ids_distinct (place x) j (in_place x h).0 l
          (sym (ap (λ p. (c.streams p).id) (at_place x)) ∙ e))

  -- and every other ID is answered as before.
  lookup-without_other :
      (id : ℕ) → id ≢ (c.streams (c.order j)).id → lookup (without c j) id ≡ lookup c id
  lookup-without_other id ne = elim (Option-cases (find_stream c id)) [
    | inl e ↦
        lookup-absent (without c j) id (λ x h q.
          find_stream-none c id (place x) (IsLinked-IsSearchable v) e (in_place x h).0
            (sym (ap (λ p. (c.streams p).id) (at_place x)) ∙ q))
        ∙ sym (lookup-absent c id (λ x h. find_stream-none c id x (IsLinked-IsSearchable v) e h))
    | inr (p, e) ↦ let (m, g) = find_stream-some c id p e in found p m g
  ]
    where
      found : (p m : ℕ) → Holds c id p m → lookup (without c j) id ≡ lookup c id
      found p m g =
          lookup-Holds (without c j) id p (place m) (IsLinked-IsSearchable without-IsLinked)
            (record {
              in_use = still_used p m g;
              points =
                  at_place (place m) ∙ ap c.order (swapped-involutive j (c.num - 1) m) ∙ g.points;
              has_id = g.has_id;
            })
          ∙ sym (lookup-Holds c id p m (IsLinked-IsSearchable v) g)
        where
          differs : (p m : ℕ) → Holds c id p m → m ≢ j
          differs p m g e = ne (
              sym g.has_id
              ∙ ap (λ q. (c.streams q).id) (sym g.points)
              ∙ ap (λ x. (c.streams (c.order x)).id) e)

          still_used : (p m : ℕ) → Holds c id p m → place m < c.num - 1
          still_used p m g = let n = differs p m g in let u = g.in_use in ground arith

-- The table `d` answers no lookup of `id`, and every other one as `c` does.
abbrev pub Forgets : Connection → ℕ → Connection → Type 0
Forgets c id d = (other : ℕ) → lookup d other ≡ (if other == id then none else lookup c other)

close_stream_lem :
    (c : Connection) (id : ℕ)
    → IsLinked c
    → IsLinked (close_stream c id) × Forgets c id (close_stream c id)
close_stream_lem c id v = elim (close_stream-cases c id) [
  | inl (e, h) ↦ rw e (
    v,
    λ other. elim (ℕ_discrete other id) [
      | yes q ↦ ground (arith, lookup-absent c id h, ap (lookup c) q)
      | no q ↦ ground arith
    ],
  )
  | inr (j, l, e, r) ↦ rw r (
    without-IsLinked c j l v,
    λ other. elim (ℕ_discrete other id) [
      | yes q ↦ ground (
        arith,
        lookup-without_self c j l v,
        ap (lookup (without c j)) q,
        ap (lookup (without c j)) e,
      )
      | no q ↦ ground (arith, lookup-without_other c j l v other (λ h. q (h ∙ e)))
    ],
  )
]

-- A synchronised table answers as before.
pub lookup-sync_stream_slots :
    (c : Connection) (id : ℕ) → IsLinked c → lookup (sync_stream_slots c) id ≡ lookup c id
lookup-sync_stream_slots c id v =
    let r = sync_stream_slots_lem c in
    let w = sync_stream_slots-IsValid c v in
    lookup-agree c (sync_stream_slots c) id (IsLinked-IsSearchable v)
      (IsLinked-IsSearchable w.0.linked) r.0 r.1 w.1

-- A reset keeps the table's invariant, always reports success, and forgets exactly its stream.
pub dispatch_stream_reset_lem :
    (c : Connection) (id : ℕ)
    → IsValid c
    → IsValid (dispatch_stream_reset c id).0
      × ((dispatch_stream_reset c id).1 ≡ 1)
      × Forgets c id (dispatch_stream_reset c id).0
unfolding dispatch_stream_reset
dispatch_stream_reset_lem c id v =
    let closed = close_stream_lem c id v.linked in
    (
      (sync_stream_slots-IsValid (close_stream c id) closed.0).0,
      refl,
      λ other. lookup-sync_stream_slots (close_stream c id) other closed.0 ∙ closed.1 other,
    )

active_slot_from-hit :
    (c : Connection) (id k i p : ℕ)
    → i ≤ p
    → p < i + k
    → (c.streams p).active ≡ true
    → (c.streams p).id ≡ id
    → active_slot_from c id k i ≡ true
unfolding active_slot_from
active_slot_from-hit c id zero i p a b e h = absurd (omega arith)
active_slot_from-hit c id (suc k) i p a b e h =
    ground (arith, ap c.streams {x = i} {y = p}, active_slot_from-hit c id k (i + 1) p)

-- The test before the synchronisation after a completion: it passes, or nothing was closed.
close_stream-noticed :
    (c : Connection) (id : ℕ)
    → IsValid c
    → (active_slot_from (close_stream c id) id max_streams 0 ≡ true) ⊎ (close_stream c id ≡ c)
close_stream-noticed c id v = elim (close_stream-cases c id) [
  | inl (e, h) ↦ inr e
  | inr (j, l, e, r) ↦ inl (
      rw r (
        active_slot_from-hit (without c j) id max_streams 0 (c.order j) (omega arith)
          (v.order_lt j (omega (arith, v.num_le))) (v.used j l) e))
]

-- What a completion promises of the table and code that it returns.
abbrev pub Completes : Connection → ℕ → Connection × ℕ → Type 0
Completes c id r = IsValid r.0 × (r.1 ≡ 1) × Forgets c id r.0

completion :
    (c : Connection) (id : ℕ) (noticed : Bool)
    → IsValid c
    → (noticed ≡ true) ⊎ (close_stream c id ≡ c)
    → Completes c id
        (if noticed then (sync_stream_slots (close_stream c id), 1) else (close_stream c id, 1))
completion c id true v h =
    let closed = close_stream_lem c id v.linked in
    (
      (sync_stream_slots-IsValid (close_stream c id) closed.0).0,
      refl,
      λ other. lookup-sync_stream_slots (close_stream c id) other closed.0 ∙ closed.1 other,
    )
completion c id false v (inl e) = cc
completion c id false v (inr e) =
    (subst IsValid (sym e) v, refl, (close_stream_lem c id v.linked).1)

-- A finished send, completed or dropped, keeps the table's invariant, always reports success,
-- and forgets exactly its stream, whichever of the two entry points reports it.
pub response_send_finished_lem :
    (c : Connection) (id : ℕ) (dropped : Bool)
    → IsValid c
    → Completes c id (dispatch_response_send_finished c id dropped)
      × Completes c id (complete_response_send c id dropped)
unfolding dispatch_response_send_finished complete_response_send
response_send_finished_lem c id dropped v =
    let r =
      completion c id (active_slot_from (close_stream c id) id max_streams 0) v
        (close_stream-noticed c id v) in
    (r, r)
