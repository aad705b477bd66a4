-- ===== src/Base/Family.antt =====
-- Functions on ℕ as stores: update at one index, and sums of a weight over the first indices.
use Prim.Native.Nat.{ℕ, zero, suc, ◌+◌, ◌≤◌, ◌<◌}
use mathlib.Core.Path.{◌≡◌, refl}
use mathlib.Core.Logic.{inl, inr}
use native.Mathlib.Omega.{arith}
use gca.Base.Tests.{◌==◌, if◌then◌else◌, Bool-cases}

-- The store `g` with the value `v` at the index `t`.
abbrev pub update {κ} : {V : Type κ} → (g : ℕ → V) (t : ℕ) (v : V) → ℕ → V
update g t v x = if t == x then v else g x

-- The weights below the bound `k` added up.
unfoldable pub total {κ} : {V : Type κ} → (weight : V → ℕ) (k : ℕ) (g : ℕ → V) → ℕ
total weight zero g = 0
total weight (suc k) g = weight (g k) + total weight k g

-- Stores that weigh the same below the bound have the same sum.
total-ext_below {κ} :
    {V : Type κ} (weight : V → ℕ) (k : ℕ) (g h : ℕ → V)
    → ((x : ℕ) → x < k → weight (g x) ≡ weight (h x))
    → total weight k g ≡ total weight k h
unfolding total
total-ext_below weight zero g h same = refl
total-ext_below weight (suc k) g h same =
    omega (
      arith,
      same k (omega arith),
      total-ext_below weight k g h (λ x lt. same x (omega (arith, lt))),
    )

pub total-ext {κ} :
    {V : Type κ} (weight : V → ℕ) (k : ℕ) (g h : ℕ → V)
    → ((x : ℕ) → weight (g x) ≡ weight (h x))
    → total weight k g ≡ total weight k h
total-ext weight k g h same = total-ext_below weight k g h (λ x lt. same x)

-- An update below the bound exchanges one weight.
pub total-update {κ} :
    {V : Type κ} (weight : V → ℕ) (k : ℕ) (g : ℕ → V) (t : ℕ) (v : V)
    → t < k
    → total weight k (update g t v) + weight (g t) ≡ total weight k g + weight v
unfolding total
total-update weight zero g t v below = absurd (omega arith)
total-update weight (suc k) g t v below = elim (Bool-cases (t == k)) [
  | inl e ↦
      ground (arith, total-ext_below weight k (update g t v) g (λ x lt. ground (arith, e, lt)))
  | inr e ↦ ground (arith, total-update weight k g t v)
]

-- One index weighs no more than the sum.
pub total-ge {κ} :
    {V : Type κ} (weight : V → ℕ) (k : ℕ) (g : ℕ → V) (t : ℕ)
    → t < k
    → weight (g t) ≤ total weight k g
unfolding total
total-ge weight zero g t below = absurd (omega arith)
total-ge weight (suc k) g t below = ground (arith, total-ge weight k g t)

-- Nor do two different ones together.
pub total-ge_two {κ} :
    {V : Type κ} (weight : V → ℕ) (k : ℕ) (g : ℕ → V) (t x : ℕ)
    → t < x
    → x < k
    → weight (g t) + weight (g x) ≤ total weight k g
unfolding total
total-ge_two weight zero g t x order below = absurd (omega arith)
total-ge_two weight (suc k) g t x order below =
    ground (arith, total-ge_two weight k g t x, total-ge weight k g t)

-- Where nothing weighs anything the sum is 0.
pub total-zero {κ} :
    {V : Type κ} (weight : V → ℕ) (k : ℕ) (g : ℕ → V)
    → ((x : ℕ) → weight (g x) ≡ 0)
    → total weight k g ≡ 0
unfolding total
total-zero weight zero g none_weighs = refl
total-zero weight (suc k) g none_weighs =
    omega (arith, none_weighs k, total-zero weight k g none_weighs)
