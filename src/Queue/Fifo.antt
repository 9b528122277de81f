-- ===== src/Queue/Fifo.antt =====
-- The ring of shell/ism_event_queue.c is a bounded first-in first-out queue.
use ism.Prelude.{
  ◌⊎◌, inl, inr, ℕ, zero, suc, ◌+◌, ◌-◌, ◌^◌, ◌≤◌, ◌<◌, ◌≡◌, ◌≢◌, ◌∙◌, sym, ap, ap₂, subst, refl,
  dec_lt, ℕ_discrete, true, false, arith, leb, if◌then◌else◌, none, some, List, [], ◌∷◌, ◌++◌,
  tabulate, tabulate-agree, tabulate-snoc, update, add_u32,
}
use ism.Queue.{Queue, Event, tail, enqueue, dequeue, queue_init}

-- The bound on the capacity is what keeps `head + count` from wrapping.
pub record IsValid (q : Queue) : Type 0 where
  pub stored : q.has_events ≡ true
  pub capacity_pos : 0 < q.capacity
  pub capacity_le : q.capacity ≤ 2 ^ 31
  pub head_lt : q.head < q.capacity
  pub count_le : q.count ≤ q.capacity

-- The index of the `k`-th event from the head.
abbrev pub slot : Queue → ℕ → ℕ
slot q k = if leb q.capacity (q.head + k) then q.head + k - q.capacity else q.head + k

-- The queued events, oldest first.
abbrev pub contents : Queue → List Event
contents q = tabulate q.count (λ k. q.events (slot q k))

tail-slot : (q : Queue) → IsValid q → q.count < q.capacity → tail q ≡ slot q q.count
unfolding tail
tail-slot q v l = ground arith

slot-injective :
    (q : Queue) (i j : ℕ)
    → IsValid q
    → i < q.capacity
    → j < q.capacity
    → slot q i ≡ slot q j
    → i ≡ j
slot-injective q i j v a b e = ground arith

slot-lt : (q : Queue) (i : ℕ) → IsValid q → i < q.capacity → slot q i < q.capacity
slot-lt q i v a = ground arith

-- The queue after an event has been written behind the last.
abbrev pub extended : Queue → Event → Queue
extended q e = record q { events = update q.events (tail q) e; count = add_u32 q.count 1 }

contents-extended :
    (q : Queue) (e : Event)
    → IsValid q
    → q.count < q.capacity
    → contents (extended q e) ≡ contents q ++ (e ∷ [])
contents-extended q e v l =
    ap (λ n. tabulate n written) one_more
    ∙ tabulate-snoc q.count written
    ∙ ap₂ (λ xs y. xs ++ (y ∷ [])) (tabulate-agree q.count written (λ k. q.events (slot q k)) old)
        new
  where
    written : ℕ → Event
    written k = update q.events (tail q) e (slot q k)

    one_more : add_u32 q.count 1 ≡ suc q.count
    one_more = omega arith

    behind : tail q ≡ slot q q.count
    behind = tail-slot q v l

    old : (k : ℕ) → k < q.count → update q.events (tail q) e (slot q k) ≡ q.events (slot q k)
    old k h =
        miss (λ x. before (slot-injective q k q.count v (omega arith) l (x ∙ tail-slot q v l)))
      where
        before : k ≡ q.count → ⊥
        before x = omega arith

        miss : slot q k ≢ tail q → update q.events (tail q) e (slot q k) ≡ q.events (slot q k)
        miss n = ground arith

    new : update q.events (tail q) e (slot q q.count) ≡ e
    new = let b = tail-slot q v l in ground arith

-- An event is taken exactly if there is room; it then stands behind those that were queued. A
-- full queue stays as it is.
pub enqueue_lem :
    (q : Queue) (e : Event)
    → IsValid q
    → ((q.count ≡ q.capacity) × (enqueue q e ≡ (q, false)))
      ⊎ ((q.count < q.capacity)
          × ((enqueue q e).1 ≡ true)
          × IsValid (enqueue q e).0
          × (contents (enqueue q e).0 ≡ contents q ++ (e ∷ [])))
unfolding enqueue
enqueue_lem q e v = elim (dec_lt q.count q.capacity) [
  | no n ↦ inl (omega arith, ground arith)
  | yes l ↦ inr (
    l,
    ground arith,
    subst IsValid (sym (taken l)) (kept l),
    ap contents (taken l) ∙ contents-extended q e v l,
  )
]
  where
    taken : q.count < q.capacity → (enqueue q e).0 ≡ extended q e
    taken l = ground arith

    kept : q.count < q.capacity → IsValid (extended q e)
    kept l = record {
      stored = v.stored;
      capacity_pos = v.capacity_pos;
      capacity_le = v.capacity_le;
      head_lt = v.head_lt;
      count_le = omega arith;
    }

tabulate-cons {ℓ} :
    {A : Type ℓ} (n : ℕ) (a : ℕ → A)
    → n ≢ 0
    → tabulate n a ≡ a 0 ∷ tabulate (n - 1) (λ i. a (suc i))
tabulate-cons zero a h = absurd (h refl)
tabulate-cons (suc n) a h = ap (λ m. a 0 ∷ tabulate m (λ i. a (suc i))) (omega arith)

-- The queue after its oldest event has been taken.
abbrev pub advanced : Queue → Queue
advanced q = record q {
  head = if leb q.capacity (add_u32 q.head 1) then 0 else add_u32 q.head 1;
  count = q.count - 1;
}

contents-advanced :
    (q : Queue) → IsValid q → q.count ≢ 0 → contents q ≡ q.events q.head ∷ contents (advanced q)
contents-advanced q v n =
    tabulate-cons q.count (λ k. q.events (slot q k)) n
    ∙ ap₂ ◌∷◌ (ap q.events first) (
        tabulate-agree (q.count - 1) (λ k. q.events (slot q (suc k)))
          (λ k. q.events (slot (advanced q) k)) (λ k h. ap q.events (next k h)))
  where
    first : slot q 0 ≡ q.head
    first = ground arith

    next : (k : ℕ) → k < q.count - 1 → slot q (suc k) ≡ slot (advanced q) k
    next k h = ground arith

-- The oldest event is taken out, and the others move up; an empty queue gives none.
pub dequeue_lem :
    (q : Queue)
    → IsValid q
    → ((contents q ≡ []) × (dequeue q ≡ (q, none)))
      ⊎ ((e : Event) × ((dequeue q).1 ≡ some e)
          × IsValid (dequeue q).0
          × (contents q ≡ e ∷ contents (dequeue q).0))
unfolding dequeue
dequeue_lem q v = elim (ℕ_discrete q.count 0) [
  | yes z ↦ inl (ap (λ n. tabulate n (λ k. q.events (slot q k))) z, ground arith)
  | no n ↦ inr (
    q.events q.head,
    ground arith,
    subst IsValid (sym (taken n)) (kept n),
    contents-advanced q v n ∙ ap (λ r. q.events q.head ∷ contents r) (sym (taken n)),
  )
]
  where
    taken : q.count ≢ 0 → (dequeue q).0 ≡ advanced q
    taken n = ground arith

    kept : q.count ≢ 0 → IsValid (advanced q)
    kept n = record {
      stored = v.stored;
      capacity_pos = v.capacity_pos;
      capacity_le = v.capacity_le;
      head_lt = ground arith;
      count_le = omega arith;
    }

-- A fresh queue is valid and empty.
pub queue_init_lem :
    (events : ℕ → Event) (capacity : ℕ)
    → 0 < capacity
    → capacity ≤ 2 ^ 31
    → IsValid (queue_init true events capacity) × (contents (queue_init true events capacity) ≡ [])
unfolding queue_init
queue_init_lem events capacity a b = (
  record { stored = refl; capacity_pos = a; capacity_le = b; head_lt = a; count_le = omega arith },
  refl,
)
