-- ===== src/Pulse/Tables/Agree.antt =====
-- The Pulse build of the table against the legacy one: on a valid connection, wherever C places the
-- buffers, it finds, opens and closes exactly the same.
use ism.Prelude.{
  ℕ, ◌+◌, ◌-◌, ◌≤◌, ◌<◌, ◌≡◌, ◌⊎◌, ◌∙◌, inl, inr, refl, sym, ap, fun_ext, arith, Bool, true, false,
  not, ltb, ◌==◌, ◌||◌, if_cases, if◌then◌else◌, Option, Option-cases, none, some, update, add_u32,
  first_from, first_from-cases,
}
use ism.Stream.{reading_length}
use ism.Table.{Connection, max_streams, swap, find_stream, open_stream, close_stream}
use ism.Table.Find.{Holds, find_stream-some, find_stream-none, find_stream-Holds}
use ism.Table.Valid.{IsValid, IsLinked-IsSearchable}
use ism.Table.Open.{claimed, open_stream-cases}
use ism.Table.Close.{without, close_stream-cases}
use ism.Pulse.{phase_from_wire}
use ism.Pulse.Tables.{
  Layout, WireTable, Multiplexer, Operation, find, allocate, close, invalid, multiplexer_of,
  wire_of, has_id, find_index, index_or, find_in, open_in, close_in, allocate_stream,
  close_multiplexer, run, allocated, closed, table_apply, found_slot, open_found, opened_slot,
  closed_table, snapshot, table_find, table_open, table_close,
}
use ism.Pulse.Tables.Snapshot.{IsLaidOut, snapshot-wire_of, descriptor_ok-wire_of}

module _ (c : Connection) (layout : Layout) (v : IsValid c) (w : IsLaidOut layout) where
  abbrev wire : WireTable
  wire = wire_of c layout

  abbrev core : Multiplexer
  core = multiplexer_of wire

  core_count : core.num ≡ c.num
  core_count = unfold multiplexer_of wire_of in refl

  applied :
      (operation : Operation) (id : ℕ)
      → table_apply wire layout.table_address operation id ≡ run wire operation id
  applied operation id = unfold table_apply in simp (descriptor_ok-wire_of c layout v w)

  -- The index that the core finds is that of the legacy scan.
  found :
      (id : ℕ)
      → ((find_stream c id ≡ none) × (find_index core id ≡ c.num))
        ⊎ ((i : ℕ) × (i < c.num)
            × ((c.streams (c.order i)).id ≡ id)
            × (find_stream c id ≡ some (c.order i))
            × (find_index core id ≡ i))
  found id = elim (first_from-cases (has_id core id) c.num 0) [
    | inl (e, n) ↦ inl (absent n, indexed e)
    | inr (i, e, f) ↦
        let q = matches i f.passes in
        inr (
          i,
          inside i f.below,
          q,
          find_stream-Holds c id (c.order i) i (IsLinked-IsSearchable v.linked)
              (record { in_use = inside i f.below; points = refl; has_id = q }),
          indexed e,
        )
  ]
    where
      inside : (i : ℕ) → i < 0 + c.num → i < c.num
      inside i l = omega arith

      indexed :
          {o : Option ℕ}
          → first_from (has_id core id) c.num 0 ≡ o
          → find_index core id ≡ index_or c.num o
      indexed e = unfold find_index multiplexer_of wire_of in ap (index_or c.num) e

      matches : (i : ℕ) → has_id core id i ≡ true → (c.streams (c.order i)).id ≡ id
      matches i e = unfold multiplexer_of wire_of in ground (arith, e)

      misses : (j : ℕ) → has_id core id j ≡ false → (c.streams (c.order j)).id ≡ id → ⊥
      misses j e q = unfold multiplexer_of wire_of in ground (arith, e, q)

      absent :
          ((j : ℕ) → 0 ≤ j → j < 0 + c.num → has_id core id j ≡ false) → find_stream c id ≡ none
      absent n = elim (Option-cases (find_stream c id)) [
        | inl e ↦ e
        | inr (p, e) ↦
            let (j, h) = find_stream-some c id p e in
            absurd (
              misses j (n j (omega arith) (omega (arith, h.in_use)))
                (ap (λ q. (c.streams q).id) h.points ∙ h.has_id))
      ]

  snapshot_is : snapshot c layout ≡ some wire
  snapshot_is = snapshot-wire_of c layout v

  -- Finding a stream.
  pub table_find-find_stream : (id : ℕ) → table_find c layout id ≡ find_stream c id
  table_find-find_stream id = taken ∙ ap found_slot (applied find id) ∙ (elim (found id) [
    | inl (e, k) ↦ ap (λ x. found_slot (wire, x)) k ∙ missing ∙ sym e
    | inr (i, l, m, e, k) ↦ ap (λ x. found_slot (wire, x)) k ∙ present i l ∙ sym e
  ])
    where
      taken : table_find c layout id ≡ found_slot (table_apply wire layout.table_address find id)
      taken = unfold table_find in ap (find_in layout id) snapshot_is

      missing : found_slot (wire, c.num) ≡ none
      missing = unfold wire_of in ground arith

      present : (i : ℕ) → i < c.num → found_slot (wire, i) ≡ some (c.order i)
      present i l = unfold wire_of in ground arith

  no_stream-open :
      (id : ℕ)
      → find_index core id ≡ c.num
      → open_found c layout id (wire, c.num) ≡ opened_slot c (run wire allocate id)
  no_stream-open id k =
      if_cases (λ x. x ≡ opened_slot c (run wire allocate id)) (c.num == invalid)
        (λ e. absurd (small e))
        (λ e.
          if_cases (λ x. x ≡ opened_slot c (run wire allocate id)) (ltb c.num wire.count)
            (λ f. absurd (last f)) (λ f. ap (opened_slot c) (applied allocate id)))
    where
      small : (c.num == invalid) ≡ true → ⊥
      small e = ground (arith, v.num_le, e)

      last : ltb c.num wire.count ≡ true → ⊥
      last f = unfold wire_of in ground (arith, f)

  full_table :
      (id : ℕ)
      → find_index core id ≡ c.num
      → c.num ≡ max_streams
      → opened_slot c (run wire allocate id) ≡ (c, none)
  full_table id k n =
      ap (λ x. opened_slot c (allocated wire x)) refused
      ∙ (unfold wire_of multiplexer_of in ground arith)
    where
      refused : allocate_stream core id ≡ (core, core.capacity)
      refused =
          unfold allocate_stream in
          if_cases (λ x. x ≡ (core, core.capacity))
            (ltb (find_index core id) core.num || not (ltb core.num core.capacity)) (λ e. refl)
            (λ e. absurd (unfold multiplexer_of wire_of in ground (arith, v.full_capacity, e)))

  -- The core after an allocation.
  abbrev claimed_core : ℕ → Multiplexer
  claimed_core id = record core {
    contexts = update core.contexts (c.order c.num) (record { id = id; phase = reading_length });
    num = add_u32 c.num 1;
  }

  free_table :
      (id : ℕ)
      → find_index core id ≡ c.num
      → c.num < max_streams
      → opened_slot c (run wire allocate id) ≡ (claimed c id, some (c.order c.num))
  free_table id k n = ap (λ x. opened_slot c (allocated wire x)) taken ∙ written
    where
      inside : ltb c.num c.capacity ≡ true
      inside = ground (arith, v.full_capacity)

      same : (c.order c.num == c.order c.num) ≡ true
      same = ground arith

      free : (ltb (find_index core id) core.num || not (ltb core.num core.capacity)) ≡ true → ⊥
      free e = unfold multiplexer_of wire_of in ground (arith, v.full_capacity, e)

      stored :
          ◌≡◌ {A = Multiplexer × ℕ}
            (
              record core {
                contexts =
                    update core.contexts
                      (core.order core.num)
                      (record { id = id; phase = reading_length });
                num = add_u32 core.num 1;
              },
              core.num,
            )
            (claimed_core id, c.num)
      stored = unfold multiplexer_of wire_of in refl

      taken : allocate_stream core id ≡ (claimed_core id, c.num)
      taken =
          unfold allocate_stream in
          if_cases (λ (x : Multiplexer × ℕ). x ≡ (claimed_core id, c.num))
            (ltb (find_index core id) core.num || not (ltb core.num core.capacity))
            (λ e. absurd (free e)) (λ e. stored)

      written :
          opened_slot c (allocated wire (claimed_core id, c.num))
          ≡ (claimed c id, some (c.order c.num))
      written = unfold wire_of multiplexer_of phase_from_wire in simp (inside, same)

  -- Opening one.
  pub table_open-open_stream : (id : ℕ) → table_open c layout id ≡ open_stream c id
  table_open-open_stream id = taken ∙ ap (open_found c layout id) (applied find id) ∙ outcome
    where
      taken :
          table_open c layout id
          ≡ open_found c layout id (table_apply wire layout.table_address find id)
      taken = unfold table_open in ap (open_in c layout id) snapshot_is

      there : (i : ℕ) → i < c.num → open_found c layout id (wire, i) ≡ (c, some (c.order i))
      there i l = unfold wire_of in ground (arith, v.num_le)

      outcome : open_found c layout id (run wire find id) ≡ open_stream c id
      outcome = elim (found id) [
        | inr (i, l, m, e, k) ↦
            ap (λ x. open_found c layout id (wire, x)) k ∙ there i l ∙ sym (known i e)
        | inl (e, k) ↦
            ap (λ x. open_found c layout id (wire, x)) k
            ∙ no_stream-open id k
            ∙ (elim (open_stream-cases c id v) [
              | inl (p, j, g, o) ↦ absurd (held p j g e)
              | inr (inl (_, n, o)) ↦ full_table id k n ∙ sym o
              | inr (inr (_, n, o)) ↦ free_table id k n ∙ sym o
            ])
      ]
        where
          known :
              (i : ℕ)
              → find_stream c id ≡ some (c.order i)
              → open_stream c id ≡ (c, some (c.order i))
          known i e = unfold open_stream in rw (e, open_stream) refl

          held : (p j : ℕ) → Holds c id p j → find_stream c id ≡ none → ⊥
          held p j g e = cc (find_stream-Holds c id p j (IsLinked-IsSearchable v.linked) g, e)

  -- Closing one.
  pub table_close-close_stream : (id : ℕ) → table_close c layout id ≡ (close_stream c id, 1)
  table_close-close_stream id = taken ∙ ap (closed_table c) (applied close id) ∙ outcome
    where
      taken :
          table_close c layout id ≡ closed_table c (table_apply wire layout.table_address close id)
      taken = unfold table_close in ap (close_in c layout id) snapshot_is

      -- The core after the pointer at `i` has been taken out of use.
      shrunk : ℕ → Multiplexer
      shrunk i = record core { order = swap core.order i (core.num - 1); num = core.num - 1 }

      kept : find_index core id ≡ c.num → close_multiplexer core id ≡ (core, false)
      kept k =
          unfold close_multiplexer in
          if_cases (λ (x : Multiplexer × Bool). x ≡ (core, false))
            (ltb (find_index core id) core.num)
            (λ e. absurd (unfold multiplexer_of wire_of in ground (arith, k, e))) (λ e. refl)

      removed :
          (i : ℕ)
          → i < c.num
          → find_index core id ≡ i
          → close_multiplexer core id ≡ (shrunk i, true)
      removed i l k =
          unfold close_multiplexer in
          if_cases (λ (x : Multiplexer × Bool). x ≡ (shrunk i, true))
            (ltb (find_index core id) core.num) (λ e. ap (λ j. (shrunk j, true)) k)
            (λ e. absurd (unfold multiplexer_of wire_of in ground (arith, k, l, e)))

      same_order :
          (i j : ℕ)
          → i < c.num
          → (if ltb j max_streams then swap c.order i (c.num - 1) j else c.order j)
            ≡ swap c.order i (c.num - 1) j
      same_order i j l = ground (arith, v.num_le)

      unlinked :
          (i : ℕ) → i < c.num → closed_table c (closed wire (shrunk i, true)) ≡ (without c i, 1)
      unlinked i l =
          unfold wire_of multiplexer_of in
          ap (λ (f : ℕ → ℕ). (record c { order = f; num = c.num - 1 }, 1))
            (fun_ext λ j. same_order i j l)

      outcome : closed_table c (run wire close id) ≡ (close_stream c id, 1)
      outcome = elim (close_stream-cases c id) [
        | inl (e, h) ↦ elim (found id) [
          | inl (x, k) ↦
              ap (λ y. closed_table c (closed wire y)) (kept k) ∙ ap (λ d. (d, 1)) (sym e)
          | inr (i, l, m, x, k) ↦ absurd (h i l m)
        ]
        | inr (j, l, m, e) ↦ elim (found id) [
          | inl (x, k) ↦ absurd (find_stream-none c id j (IsLinked-IsSearchable v.linked) x l m)
          | inr (i, l', m', x, k) ↦
              ap (λ y. closed_table c (closed wire y)) (removed i l' k)
              ∙ unlinked i l'
              ∙ ap (λ n. (without c n, 1)) (v.ids_distinct i j l' l (m' ∙ sym m))
              ∙ ap (λ d. (d, 1)) (sym e)
        ]
      ]
