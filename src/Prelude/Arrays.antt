-- ===== src/Prelude/Arrays.antt =====
-- C arrays as functions of the index, and C's unsigned words.
use Prim.Native.Nat.{ℕ, zero, suc, ◌+◌, ◌-◌, ◌%◌, ◌^◌, ◌<◌, ◌≤◌}
use mathlib.Core.Path.{◌≡◌, refl, ap, ap₂, subst}
use mathlib.Core.Bool.{Bool, true, false, ◌&&◌}
use mathlib.Core.Logic.{◌⊎◌, inl, inr}
use mathlib.Core.Option.{Option, none, some}
use mathlib.Core.List.{List, [], ◌∷◌, ◌++◌}
use native.Mathlib.Omega.{arith}
use native.Mathlib.Decide.{ℕ_discrete}
use ism.Prelude.Tests.{ltb, leb, ◌==◌, if◌then◌else◌, Bool-cases}

-- Bytes in memory, from the address of the first.
abbrev pub Bytes : Type 0
Bytes = ℕ → ℕ

-- `a[k] = v`.
abbrev pub update {ℓ} : {A : Type ℓ} → (ℕ → A) → ℕ → A → ℕ → A
update a k v i = if i == k then v else a i

-- `memcpy(to + d, from + s, n)`, the two not overlapping.
abbrev pub copy_bytes : Bytes → ℕ → Bytes → ℕ → ℕ → Bytes
copy_bytes from s to d n i = if leb d i && ltb i (d + n) then from (s + i - d) else to i

-- `uint32_t` addition.
abbrev pub add_u32 : ℕ → ℕ → ℕ
add_u32 a b = (a + b) % 2 ^ 32

abbrev pub max_u32 : ℕ
max_u32 = 2 ^ 32 - 1

-- The first `n` elements of an array.
abbrev pub tabulate {ℓ} : {A : Type ℓ} → ℕ → (ℕ → A) → List A
tabulate zero a = []
tabulate (suc n) a = a 0 ∷ tabulate n (λ i. a (suc i))

pub tabulate-agree {ℓ} :
    {A : Type ℓ} (n : ℕ) (a b : ℕ → A) → ((i : ℕ) → i < n → a i ≡ b i) → tabulate n a ≡ tabulate n b
tabulate-agree zero a b h = refl
tabulate-agree (suc n) a b h =
    ap₂ ◌∷◌ (h 0 (omega arith))
      (tabulate-agree n (λ i. a (suc i)) (λ i. b (suc i)) (λ i l. h (suc i) (omega arith)))

pub tabulate-snoc {ℓ} :
    {A : Type ℓ} (n : ℕ) (a : ℕ → A) → tabulate (suc n) a ≡ tabulate n a ++ (a n ∷ [])
tabulate-snoc zero a = refl
tabulate-snoc (suc n) a = ap (◌∷◌ (a 0)) (tabulate-snoc n (λ i. a (suc i)))

-- The first of the `k` indices from `i` on that passes the test.
unfoldable pub first_from : (ℕ → Bool) → ℕ → ℕ → Option ℕ
first_from test zero i = none
first_from test (suc k) i = let rest = first_from test k (i + 1) in if test i then some i else rest

pub record IsFirst (test : ℕ → Bool) (k i p : ℕ) : Type 0 where
  pub from : i ≤ p
  pub below : p < i + k
  pub passes : test p ≡ true
  pub before : (j : ℕ) → i ≤ j → j < p → test j ≡ false

-- The scan gives the first index that passes, if one does.
pub first_from-cases :
    (test : ℕ → Bool) (k i : ℕ)
    → ((first_from test k i ≡ none) × ((j : ℕ) → i ≤ j → j < i + k → test j ≡ false))
      ⊎ ((p : ℕ) × (first_from test k i ≡ some p) × IsFirst test k i p)
unfolding first_from
first_from-cases test zero i = inl (refl, λ j a b. absurd (omega arith))
first_from-cases test (suc k) i = elim (Bool-cases (test i)) [
  | inl e ↦ inr (
    i,
    rw e refl,
    record {
      from = omega arith;
      below = omega arith;
      passes = e;
      before = λ j a b. absurd (omega arith);
    },
  )
  | inr e ↦ elim (first_from-cases test k (i + 1)) [
    | inl (x, h) ↦ inl (rw e x, λ j a b. fails e h j a (omega arith))
    | inr (p, x, f) ↦ inr (
      p,
      rw e x,
      record {
        from = omega (arith, f.from);
        below = omega (arith, f.below);
        passes = f.passes;
        before = λ j a b. fails e (λ m c d. f.before m c (omega (arith, d))) j a b;
      },
    )
  ]
]
  where
    fails :
        {n : ℕ}
        → test i ≡ false
        → ((j : ℕ) → i + 1 ≤ j → j < n → test j ≡ false)
        → (j : ℕ) → i ≤ j
        → j < n
        → test j ≡ false
    fails e h j a b = elim (ℕ_discrete i j) [
      | yes q ↦ subst (λ m. test m ≡ false) q e
      | no q ↦ h j (omega arith) b
    ]
