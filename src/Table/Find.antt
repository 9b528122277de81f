-- ===== src/Table/Find.antt =====
-- `ism_shell_find_stream` of shell/ism_shell.c: what the scan of the pointers finds.
use ism.Prelude.{
  ℕ, zero, suc, ◌+◌, ◌≤◌, ◌<◌, ◌≡◌, ◌≢◌, ◌∙◌, sym, ap, subst, refl, Option, none, some, arith, inl,
  inr, Option-cases, Bool-cases, ltb, ◌==◌, ◌&&◌, ℕ_discrete,
}
use ism.Stream.{Stream}
use ism.Table.{Connection, max_streams, find_from, find_stream}

-- The pointer at index `j` is in use and points to slot `p`, whose context has this ID.
pub record Holds (c : Connection) (id p j : ℕ) : Type 0 where
  pub in_use : j < c.num
  pub points : c.order j ≡ p
  pub has_id : (c.streams p).id ≡ id

-- What a lookup can rely on: the pointers in use point to slots, with different IDs.
pub record IsSearchable (c : Connection) : Type 0 where
  pub in_range : (i : ℕ) → i < c.num → c.order i < max_streams
  pub unique :
      (i j : ℕ)
      → i < c.num
      → j < c.num
      → (c.streams (c.order i)).id ≡ (c.streams (c.order j)).id
      → i ≡ j

find_from-some :
    (c : Connection) (id k i p : ℕ)
    → find_from c id k i ≡ some p
    → (j : ℕ) × (i ≤ j) × (j < i + k) × (c.order j ≡ p) × ((c.streams p).id ≡ id)
unfolding find_from
find_from-some c id zero i p e = cc
find_from-some c id (suc k) i p e =
    elim (Bool-cases (ltb (c.order i) max_streams && (c.streams (c.order i)).id == id)) [
      | inl h ↦ (i, omega arith, omega arith, ground arith, ground arith)
      | inr h ↦
          let (j, a, b, q, r) = find_from-some c id k (i + 1) p (ground arith) in
          (j, omega arith, omega arith, q, r)
    ]

find_from-head :
    (c : Connection) (id k i : ℕ)
    → find_from c id (suc k) i ≡ none
    → c.order i < max_streams
    → (c.streams (c.order i)).id ≢ id
unfolding find_from
find_from-head c id k i e r h = ground arith

find_from-none :
    (c : Connection) (id k i j : ℕ)
    → find_from c id k i ≡ none
    → i ≤ j
    → j < i + k
    → c.order j < max_streams
    → (c.streams (c.order j)).id ≢ id
unfolding find_from
find_from-none c id zero i j e a b r = absurd (omega arith)
find_from-none c id (suc k) i j e a b r = elim (ℕ_discrete i j) [
  | yes q ↦
      subst (λ x. (c.streams (c.order x)).id ≢ id) q
        (λ h. find_from-head c id k i e (subst (λ x. c.order x < max_streams) (sym q) r) h)
  | no q ↦ find_from-none c id k (i + 1) j (ground arith) (omega arith) (omega arith) r
]

-- A lookup that succeeds found a pointer in use to a context with this ID.
pub find_stream-some :
    (c : Connection) (id p : ℕ) → find_stream c id ≡ some p → (j : ℕ) × Holds c id p j
unfolding find_stream
find_stream-some c id p e =
    let (j, a, b, q, r) = find_from-some c id c.num 0 p e in
    (j, record { in_use = omega arith; points = q; has_id = r })

-- One that fails shows that no context in use has this ID.
pub find_stream-none :
    (c : Connection) (id j : ℕ)
    → IsSearchable c
    → find_stream c id ≡ none
    → j < c.num
    → (c.streams (c.order j)).id ≢ id
unfolding find_stream
find_stream-none c id j v e l =
    find_from-none c id c.num 0 j e (omega arith) (omega arith) (v.in_range j l)

-- The lookup finds the context with this ID wherever the table holds it.
pub find_stream-Holds :
    (c : Connection) (id p j : ℕ) → IsSearchable c → Holds c id p j → find_stream c id ≡ some p
find_stream-Holds c id p j v h = elim (Option-cases (find_stream c id)) [
  | inl e ↦ absurd (find_stream-none c id j v e h.in_use (rw h.points h.has_id))
  | inr (q, e) ↦
      let (m, g) = find_stream-some c id q e in
      e ∙ ap some (sym g.points ∙ ap c.order (same m g) ∙ h.points)
]
  where
    same : {q : ℕ} (m : ℕ) → Holds c id q m → m ≡ j
    same m g = v.unique m j g.in_use h.in_use (rw (g.points, h.points) (g.has_id ∙ sym h.has_id))

-- What a client sees of the table: the context that it holds for an ID.
unfoldable pub lookup : Connection → ℕ → Option Stream
lookup c id = elim (find_stream c id) [ none ↦ none | some p ↦ some (c.streams p).ctx ]

pub lookup-Holds :
    (c : Connection) (id p j : ℕ)
    → IsSearchable c
    → Holds c id p j
    → lookup c id ≡ some (c.streams p).ctx
unfolding lookup
lookup-Holds c id p j v h = rw (find_stream-Holds c id p j v h, lookup) refl

pub lookup-absent :
    (c : Connection) (id : ℕ)
    → ((j : ℕ) → j < c.num → (c.streams (c.order j)).id ≢ id)
    → lookup c id ≡ none
unfolding lookup
lookup-absent c id h = elim (Option-cases (find_stream c id)) [
  | inl e ↦ rw (e, lookup) refl
  | inr (p, e) ↦
      let (j, g) = find_stream-some c id p e in
      absurd (h j g.in_use (ap (λ q. (c.streams q).id) g.points ∙ g.has_id))
]

-- Tables with the same pointers and the same contexts in use answer every lookup alike.
pub lookup-agree :
    (c d : Connection) (id : ℕ)
    → IsSearchable c
    → IsSearchable d
    → d.order ≡ c.order
    → d.num ≡ c.num
    → ((i : ℕ) → i < c.num → (d.streams (c.order i)).ctx ≡ (c.streams (c.order i)).ctx)
    → lookup d id ≡ lookup c id
lookup-agree c d id v w o n x = elim (Option-cases (find_stream c id)) [
  | inl e ↦
      lookup-absent d id (λ j l h.
        find_stream-none c id j v e (omega arith) (sym (ap (λ s. s.id) (same j (omega arith))) ∙ h))
      ∙ sym (lookup-absent c id (λ j l. find_stream-none c id j v e l))
  | inr (p, e) ↦ let (j, g) = find_stream-some c id p e in found p j g
]
  where
    same : (i : ℕ) → i < c.num → (d.streams (d.order i)).ctx ≡ (c.streams (c.order i)).ctx
    same i l = ap (λ f. (d.streams (f i)).ctx) o ∙ x i l

    found : (p j : ℕ) → Holds c id p j → lookup d id ≡ lookup c id
    found p j g =
        let at_p : (d.streams p).ctx ≡ (c.streams p).ctx =
          subst (λ q. (d.streams q).ctx ≡ (c.streams q).ctx) g.points (x j g.in_use) in
        lookup-Holds d id p j w (record {
          in_use = omega (arith, g.in_use, n);
          points = ap (λ f. f j) o ∙ g.points;
          has_id = ap (λ s. s.id) at_p ∙ g.has_id;
        })
        ∙ ap some at_p
        ∙ sym (lookup-Holds c id p j v g)
