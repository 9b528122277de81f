-- ===== src/Table/Ingress.antt =====
-- Bytes and FIN for a stream: `ism_shell_dispatch_authenticated_stream_data`,
-- `ism_shell_on_authenticated_stream_data` and `ism_shell_on_authenticated_stream_fin` of
-- shell/ism_shell.c.
use ism.Prelude.{
  ℕ, ◌≤◌, ◌<◌, ◌≡◌, ◌≢◌, ◌∙◌, sym, ap, subst, refl, true, arith, Bytes, Option, none, some,
  Option-cases, inl, inr, ◌⊎◌, ℕ_discrete,
}
use ism.Stream.{
  Stream, reading_length, byte_or_zero, handle_stream_data, handle_stream_fin, shell_phase_code,
  next_stream_phase,
}
use ism.Stream.Phases
use ism.Table.{
  Connection, Slot, max_streams, find_stream, open_stream, on_stream, dispatch,
  on_authenticated_stream_fin, dispatch_authenticated_stream_data, on_authenticated_stream_data,
}
use ism.Table.Find.{Holds, find_stream-some, find_stream-none, lookup, lookup-Holds, lookup-absent}
use ism.Table.Valid.{IsValid, IsFree, IsLinked-IsSearchable}
use ism.Table.Open.{open_stream_outcomes}

-- A handler of one stream keeps the stream's ID and the validity of its phase.
pub record IsHandler (f : Stream → Stream) : Type 0 where
  pub keeps_id : (s : Stream) → (f s).id ≡ s.id
  pub keeps_phase : (s : Stream) → Phases.IsValid s.phase → Phases.IsValid (f s).phase

module _ (c : Connection) (id p j : ℕ) (v : IsValid c) (g : Holds c id p j) (f : Stream → Stream)
    (h : IsHandler f) where
  at : (on_stream c p f).streams p ≡ record (c.streams p) { ctx = f (c.streams p).ctx }
  unfolding on_stream
  at = ground arith

  off : (x : ℕ) → x ≢ p → (on_stream c p f).streams x ≡ c.streams x
  unfolding on_stream
  off x n = ground arith

  -- What holds of a slot and of the handled slot holds of every slot afterwards.
  slots {ℓ} :
      (P : Slot → Type ℓ)
      → (P (c.streams p) → P (record (c.streams p) { ctx = f (c.streams p).ctx }))
      → (x : ℕ) → P (c.streams x)
      → P ((on_stream c p f).streams x)
  slots P k x a = elim (ℕ_discrete x p) [
    | yes e ↦
        subst (λ y. P ((on_stream c p f).streams y)) (sym e)
          (subst P (sym at) (k (subst (λ y. P (c.streams y)) e a)))
    | no n ↦ subst P (sym (off x n)) a
  ]

  same_id : (x : ℕ) → ((on_stream c p f).streams x).id ≡ (c.streams x).id
  same_id x = slots (λ s. s.id ≡ (c.streams x).id) (λ e. h.keeps_id (c.streams p).ctx ∙ e) x refl

  apart : (x : ℕ) → c.num ≤ x → x < max_streams → c.order x ≢ p
  apart x a b e =
      clash (v.order_distinct x j b (omega (arith, g.in_use, v.num_le)) (e ∙ sym g.points))
    where
      clash : x ≡ j → ⊥
      clash q = omega (arith, g.in_use)

  on_stream-IsValid : IsValid (on_stream c p f)
  unfolding on_stream
  on_stream-IsValid = record {
    linked = record {
      full_capacity = v.full_capacity;
      num_le = v.num_le;
      order_lt = v.order_lt;
      order_distinct = v.order_distinct;
      ids_distinct =
          λ x y a b e. v.ids_distinct x y a b (sym (same_id (c.order x)) ∙ e ∙ same_id (c.order y));
      phases = λ x a.
          slots (λ s. Phases.IsValid s.phase) (h.keeps_phase (c.streams p).ctx) (c.order x)
            (v.phases x a);
    };
    used = λ x a. slots (λ s. s.active ≡ true) (λ e. e) (c.order x) (v.used x a);
    free = λ x a b. subst IsFree (sym (off (c.order x) (apart x a b))) (v.free x a b);
  }

  still_held : (other q m : ℕ) → Holds c other q m → Holds (on_stream c p f) other q m
  unfolding on_stream
  still_held other q m k = record {
    in_use = k.in_use;
    points = k.points;
    has_id = same_id q ∙ k.has_id;
  }

  lookup-on_stream_self : lookup (on_stream c p f) id ≡ some (f (c.streams p).ctx)
  lookup-on_stream_self =
      lookup-Holds (on_stream c p f) id p j (IsLinked-IsSearchable on_stream-IsValid.linked)
        (still_held id p j g)
      ∙ ap (λ s. some s.ctx) at

  lookup-on_stream_other :
      (other : ℕ) → other ≢ id → lookup (on_stream c p f) other ≡ lookup c other
  lookup-on_stream_other other ne = elim (Option-cases (find_stream c other)) [
    | inl e ↦ missing e
    | inr (q, e) ↦ let (m, k) = find_stream-some c other q e in found q m k
  ]
    where
      differs : (q m : ℕ) → Holds c other q m → q ≢ p
      differs q m k e = ne (sym k.has_id ∙ ap (λ y. (c.streams y).id) e ∙ g.has_id)

      found : (q m : ℕ) → Holds c other q m → lookup (on_stream c p f) other ≡ lookup c other
      found q m k =
          lookup-Holds (on_stream c p f) other q m (IsLinked-IsSearchable on_stream-IsValid.linked)
            (still_held other q m k)
          ∙ ap (λ s. some s.ctx) (off q (differs q m k))
          ∙ sym (lookup-Holds c other q m (IsLinked-IsSearchable v.linked) k)

      missing : find_stream c other ≡ none → lookup (on_stream c p f) other ≡ lookup c other
      missing e =
          lookup-absent (on_stream c p f) other (
            unfold on_stream in
            λ x l q.
              find_stream-none c other x (IsLinked-IsSearchable v.linked) e l
                (sym (same_id (c.order x)) ∙ q))
          ∙ sym (
              lookup-absent c other
                (λ x l. find_stream-none c other x (IsLinked-IsSearchable v.linked) e l))

-- The stream that a handler for `id` runs on: the one that the table holds, or a fresh one.
abbrev pub Serves : Connection → ℕ → Stream → Type 0
Serves c id s =
    (lookup c id ≡ some s)
    ⊎ ((lookup c id ≡ none) × (c.num < max_streams) × (s.id ≡ id) × (s.phase ≡ reading_length))

-- What a call promises that runs the handler `f` on the stream `id`.
abbrev pub Handles : Connection → ℕ → (Stream → Stream) → Connection × ℕ → Type 0
Handles c id f r =
    ((lookup c id ≡ none) × (c.num ≡ max_streams) × (r ≡ (c, 3)))
    ⊎ ((s : Stream) × Serves c id s
        × (r.1 ≡ shell_phase_code (f s).phase)
        × (lookup r.0 id ≡ some (f s))
        × ((other : ℕ) → other ≢ id → lookup r.0 other ≡ lookup c other))

-- Opening and handling, as the three calls compose them.
abbrev handled : (Stream → Stream) → Connection × Option ℕ → Connection × ℕ
handled f (c, none) = (c, 3)
handled f (c, some p) = dispatch c p f

handled_lem :
    (c : Connection) (id : ℕ) (f : Stream → Stream)
    → IsHandler f
    → IsValid c
    → IsValid (handled f (open_stream c id)).0 × Handles c id f (handled f (open_stream c id))
handled_lem c id f h v = elim (open_stream_outcomes c id v) [
  | inl (p, e, (j, g), r) ↦ subst Post (sym e) (
    on_stream-IsValid c id p j v g f h,
    inr (
      (c.streams p).ctx,
      inl r,
      refl,
      lookup-on_stream_self c id p j v g f h,
      lookup-on_stream_other c id p j v g f h,
    ),
  )
  | inr (inl (n, l, e)) ↦ subst Post (sym e) (v, inl (n, l, refl))
  | inr (inr (n, l, (d, p, e, o))) ↦
      let (j, g) = o.held in
      subst Post (sym e) (
        on_stream-IsValid d id p j o.valid g f h,
        inr (
          (d.streams p).ctx,
          inr (n, l, g.has_id, o.fresh_phase),
          refl,
          lookup-on_stream_self d id p j o.valid g f h,
          λ other ne. lookup-on_stream_other d id p j o.valid g f h other ne ∙ o.others other ne,
        ),
      )
]
  where
    Post : Connection × Option ℕ → Type 0
    Post r = IsValid (handled f r).0 × Handles c id f (handled f r)

handle_stream_data-IsHandler :
    (input : Bytes) (len : ℕ)
    → ((i : ℕ) → input i < 256)
    → IsHandler (λ s. handle_stream_data s input len)
unfolding handle_stream_data next_stream_phase
handle_stream_data-IsHandler input len b = record {
  keeps_id = λ s. refl;
  keeps_phase = λ s.
      Phases.fragment_phase-IsValid s.phase len (byte_or_zero input len 0)
        (byte_or_zero input len 1) (ground (arith, b 0)) (ground (arith, b 1));
}

handle_stream_fin-IsHandler : IsHandler handle_stream_fin
unfolding handle_stream_fin
handle_stream_fin-IsHandler = record {
  keeps_id = λ s. refl;
  keeps_phase =
      λ s w. (Phases.finish_doq_phase-processing s.phase (s.message 0) (s.message 1) 0 w).0;
}

-- A fragment keeps the table's invariant. A full table that does not hold the stream refuses it
-- with the code of `done` and stays as it is; otherwise the stream, opened if need be, takes the
-- fragment in, its new phase gives the code, and no other stream is touched. The two entry
-- points agree.
pub dispatch_authenticated_stream_data_lem :
    (c : Connection) (id : ℕ) (input : Bytes) (len : ℕ)
    → ((i : ℕ) → input i < 256)
    → IsValid c
    → IsValid (dispatch_authenticated_stream_data c id input len).0
      × Handles c id
          (λ s. handle_stream_data s input len)
          (dispatch_authenticated_stream_data c id input len)
      × (on_authenticated_stream_data c id input len
          ≡ dispatch_authenticated_stream_data c id input len)
unfolding dispatch_authenticated_stream_data on_authenticated_stream_data shell_phase_code
dispatch_authenticated_stream_data_lem c id input len b v =
    let r =
      handled_lem c id (λ s. handle_stream_data s input len)
        (handle_stream_data-IsHandler input len b) v in
    (r.0, r.1, refl)

-- FIN keeps the table's invariant. A full table that does not hold the stream refuses it with the
-- code of `done` and stays as it is; otherwise the stream, opened if need be, is finished, its new
-- phase gives the code, and no other stream is touched.
pub on_authenticated_stream_fin_lem :
    (c : Connection) (id : ℕ)
    → IsValid c
    → IsValid (on_authenticated_stream_fin c id).0
      × Handles c id handle_stream_fin (on_authenticated_stream_fin c id)
unfolding on_authenticated_stream_fin
on_authenticated_stream_fin_lem c id v =
    handled_lem c id handle_stream_fin handle_stream_fin-IsHandler v
