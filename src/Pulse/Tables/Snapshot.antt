-- ===== src/Pulse/Tables/Snapshot.antt =====
-- A valid connection passes every test of the boundary: the shell's snapshot of it, in
-- shell/pulse_table_adapter.c, and the descriptor checks of migration/c/ism_pulse_table.c.
use ism.Prelude.{
  ℕ, zero, suc, ◌+◌, ◌%◌, ◌≤◌, ◌<◌, ◌≡◌, ◌≢◌, ◌⊎◌, inl, inr, refl, sym, ap, subst, arith, Bool,
  true, false, not, ltb, leb, ◌==◌, ◌&&◌, ℕ_discrete, dec_lt, some, update,
}
use ism.Stream.{
  Phase, reading_length, reading_length_high, reading_message, awaiting_fin, processing, done,
  message_capacity,
}
use ism.Stream.Phases
use ism.Table.{Connection, max_streams}
use ism.Table.Valid.{IsValid}
use ism.Pulse.{range_ok, disjoint, phase_to_wire}
use ism.Pulse.Codec.{IsSendable, decode_phase-phase_to_wire}
use ism.Pulse.Tables.{
  Layout, all_below, pointer_ok, flags_from, same_flag, snapshot_ok, snapshot, wire_of,
  is_decodable, has_phase, slot_ok, pair_ok, descriptor_ok, table_size,
}

-- Where C places the wire table and the message buffers: in memory, aligned and apart.
pub record IsLaidOut (layout : Layout) : Type 0 where
  pub in_memory : range_ok layout.table_address table_size ≡ true
  pub aligned : layout.table_address % 8 ≡ 0
  pub apart :
      (i : ℕ)
      → i < max_streams
      → disjoint layout.table_address table_size (layout.message_address i) message_capacity ≡ true
  pub separate :
      (i j : ℕ)
      → i < max_streams
      → j < i
      → disjoint
          (layout.message_address i)
          message_capacity
          (layout.message_address j)
          message_capacity
        ≡ true

pub all_below-true :
    (test : ℕ → Bool) (n : ℕ) → ((i : ℕ) → i < n → test i ≡ true) → all_below test n ≡ true
all_below-true test zero h = refl
all_below-true test (suc n) h =
    ground (arith, all_below-true test n (λ i l. h i (omega arith)), h n (omega arith))

-- Four distinct slots below four are all of them.
four_onto :
    (a b c d p : ℕ)
    → a < 4
    → b < 4
    → c < 4
    → d < 4
    → a ≢ b
    → a ≢ c
    → a ≢ d
    → b ≢ c
    → b ≢ d
    → c ≢ d
    → p < 4
    → (p ≡ a) ⊎ (p ≡ b) ⊎ (p ≡ c) ⊎ (p ≡ d)
four_onto a b c d p la lb lc ld ab ac ad bc bd cd lp = omega arith

-- Every slot has a pointer to it.
pub pointed_to :
    {c : Connection}
    → IsValid c
    → (p : ℕ) → p < max_streams
    → (i : ℕ) × (i < max_streams) × (p ≡ c.order i)
pointed_to {c} v p l =
    elim (four_onto (c.order 0) (c.order 1) (c.order 2) (c.order 3) p (lt 0 (omega arith))
      (lt 1 (omega arith)) (lt 2 (omega arith)) (lt 3 (omega arith))
      (ne 0 1 (omega arith) (omega arith)) (ne 0 2 (omega arith) (omega arith))
      (ne 0 3 (omega arith) (omega arith)) (ne 1 2 (omega arith) (omega arith))
      (ne 1 3 (omega arith) (omega arith)) (ne 2 3 (omega arith) (omega arith)) l) [
        | inl e ↦ (0, omega arith, e)
        | inr (inl e) ↦ (1, omega arith, e)
        | inr (inr (inl e)) ↦ (2, omega arith, e)
        | inr (inr (inr e)) ↦ (3, omega arith, e)
      ]
  where
    lt : (i : ℕ) → i < 4 → c.order i < 4
    lt i h = v.order_lt i h

    ne : (i j : ℕ) → i < j → j < 4 → c.order i ≢ c.order j
    ne i j h k e = absurd (before (v.order_distinct i j (omega arith) k e))
      where
        before : i ≡ j → ⊥
        before q = omega arith

-- The flag of a slot is whether the pointer to it is in use.
flags_from-at :
    (c : Connection) (active : ℕ → Bool) (k i j : ℕ)
    → ((x y : ℕ) → x < i + k → y < i + k → c.order x ≡ c.order y → x ≡ y)
    → j < i + k
    → (i ≤ j) ⊎ (active (c.order j) ≡ ltb j c.num)
    → flags_from c active k i (c.order j) ≡ ltb j c.num
unfolding flags_from
flags_from-at c active zero i j d l (inl h) = absurd (omega arith)
flags_from-at c active zero i j d l (inr h) = h
flags_from-at c active (suc k) i j d l h =
    flags_from-at c (update active (c.order i) (ltb i c.num)) k (i + 1) j
      (λ x y a b. d x y (omega arith) (omega arith)) (omega arith) (step h)
  where
    step :
        (i ≤ j) ⊎ (active (c.order j) ≡ ltb j c.num)
        → (i + 1 ≤ j) ⊎ (update active (c.order i) (ltb i c.num) (c.order j) ≡ ltb j c.num)
    step h = elim (ℕ_discrete j i) [
      | yes q ↦ inr (
          subst (λ m. update active (c.order i) (ltb i c.num) (c.order m) ≡ ltb m c.num) (sym q)
            written)
      | no q ↦ elim h [
        | inl b ↦ inl (omega arith)
        | inr b ↦ inr (kept (λ e. q (d j i l (omega arith) e)) b)
      ]
    ]
      where
        written : update active (c.order i) (ltb i c.num) (c.order i) ≡ ltb i c.num
        written = ground arith

        kept :
            c.order j ≢ c.order i
            → active (c.order j) ≡ ltb j c.num
            → update active (c.order i) (ltb i c.num) (c.order j) ≡ ltb j c.num
        kept n b = ground (arith, n, b)

pub Phases-IsSendable : (p : Phase) → Phases.IsValid p → IsSendable p
Phases-IsSendable reading_length v = tt
Phases-IsSendable (reading_length_high hi) v = tt
Phases-IsSendable (reading_message expected current) v = v.1
Phases-IsSendable (awaiting_fin expected) v = v.1
Phases-IsSendable (processing expected) v = v.1
Phases-IsSendable done v = tt

-- Every slot's phase can be told to the other side.
pub slots-IsSendable :
    {c : Connection} → IsValid c → (p : ℕ) → p < max_streams → IsSendable (c.streams p).phase
slots-IsSendable {c} v p l =
    let (i, h, e) = pointed_to v p l in
    subst (λ q. IsSendable (c.streams q).phase) (sym e)
      (elim (dec_lt i c.num) [
        | yes u ↦ Phases-IsSendable (c.streams (c.order i)).phase (v.phases i u)
        | no u ↦ subst IsSendable (sym (v.free i (omega arith) h).fresh) tt
      ])

flags_agree :
    {c : Connection}
    → IsValid c
    → (p : ℕ) → p < max_streams
    → same_flag (c.streams p).active (flags_from c (λ q. false) max_streams 0 p) ≡ true
flags_agree {c} v p l =
    let (i, h, e) = pointed_to v p l in
    subst (λ q. same_flag (c.streams q).active (flags_from c (λ r. false) max_streams 0 q) ≡ true)
      (sym e)
      (agree i h (
        flags_from-at c (λ r. false) max_streams 0 i (λ x y a b. v.order_distinct x y a b) h
          (inl (omega arith))))
  where
    agree :
        (i : ℕ)
        → i < max_streams
        → flags_from c (λ r. false) max_streams 0 (c.order i) ≡ ltb i c.num
        → same_flag
            (c.streams (c.order i)).active
            (flags_from c (λ r. false) max_streams 0 (c.order i))
          ≡ true
    agree i h f = elim (dec_lt i c.num) [
      | yes u ↦ ground (arith, f, v.used i u)
      | no u ↦ ground (arith, f, (v.free i (omega arith) h).inactive)
    ]

pointers_ok : {c : Connection} → IsValid c → (i : ℕ) → i < max_streams → pointer_ok c i ≡ true
unfolding pointer_ok
pointers_ok {c} v i l = ground (
  arith,
  v.order_lt i l,
  all_below-true (λ j. not (c.order j == c.order i)) i
      (λ j h. differ j h (λ e. v.order_distinct j i (omega arith) l e)),
)
  where
    differ : (j : ℕ) → j < i → (c.order j ≡ c.order i → j ≡ i) → not (c.order j == c.order i) ≡ true
    differ j h d = elim (ℕ_discrete (c.order j) (c.order i)) [
      | yes e ↦ absurd (late (d e))
      | no n ↦ ground (arith, n)
    ]
      where
        late : j ≡ i → ⊥
        late q = omega arith

-- The shell can always take a snapshot of a valid connection.
pub snapshot-wire_of :
    (c : Connection) (layout : Layout) → IsValid c → snapshot c layout ≡ some (wire_of c layout)
unfolding snapshot
snapshot-wire_of c layout v = simp ok
  where
    ok : snapshot_ok c ≡ true
    ok =
        unfold snapshot_ok in
        ground (
          arith,
          v.num_le,
          v.full_capacity,
          all_below-true (pointer_ok c) max_streams (pointers_ok v),
          all_below-true
              (λ p. same_flag (c.streams p).active (flags_from c (λ q. false) max_streams 0 p))
              max_streams (flags_agree v),
        )

decodable : (p : Phase) → IsSendable p → is_decodable (phase_to_wire p) ≡ true
decodable p v = elim (decode_phase-phase_to_wire p) [
  | inl (w, e) ↦ ap has_phase e
  | inr (n, e) ↦ absurd (n v)
]

slots_ok :
    {c : Connection} {layout : Layout}
    → IsValid c
    → IsLaidOut layout
    → (i : ℕ) → i < max_streams
    → slot_ok (wire_of c layout) layout.table_address i ≡ true
unfolding slot_ok wire_of
slots_ok {c} {layout} v w i l =
    ground
      (arith, v.order_lt i l, w.apart i l, decodable (c.streams i).phase (slots-IsSendable v i l))

pairs_ok :
    {c : Connection} {layout : Layout}
    → IsValid c
    → IsLaidOut layout
    → (i j : ℕ) → i < max_streams
    → j < i
    → pair_ok (wire_of c layout) i j ≡ true
unfolding pair_ok wire_of
pairs_ok {c} {layout} v w i j l h = elim (ℕ_discrete (c.order i) (c.order j)) [
  | yes e ↦ absurd (late (v.order_distinct i j l (omega arith) e))
  | no n ↦ ground (arith, n, w.separate i j l h)
]
  where
    late : i ≡ j → ⊥
    late q = omega arith

-- And the other side accepts the snapshot, wherever C places the table and the buffers.
pub descriptor_ok-wire_of :
    (c : Connection) (layout : Layout)
    → IsValid c
    → IsLaidOut layout
    → descriptor_ok (wire_of c layout) layout.table_address ≡ true
descriptor_ok-wire_of c layout v w =
    unfold descriptor_ok in
    ground (
      arith,
      w.in_memory,
      w.aligned,
      counts,
      all_below-true
          (λ i.
            slot_ok (wire_of c layout) layout.table_address i
            && all_below (pair_ok (wire_of c layout) i) i)
          max_streams each,
    )
  where
    counts :
        (leb (wire_of c layout).count (wire_of c layout).capacity
          && leb (wire_of c layout).capacity max_streams)
        ≡ true
    counts = unfold wire_of in ground (arith, v.num_le, v.full_capacity)

    each :
        (i : ℕ)
        → i < max_streams
        → (slot_ok (wire_of c layout) layout.table_address i
            && all_below (pair_ok (wire_of c layout) i) i)
          ≡ true
    each i l = ground (
      arith,
      slots_ok v w i l,
      all_below-true (pair_ok (wire_of c layout) i) i (λ j h. pairs_ok v w i j l h),
    )
