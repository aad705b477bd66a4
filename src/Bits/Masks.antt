-- ===== src/Bits/Masks.antt =====
-- The masks that `atomic_bit_set` and the flag set build, digit by digit, and what the three
-- operations on masks do to a digit.
use Prim.Native.Nat.{bit_and, bit_or, bit_xor}
use gca.Base.{
  ℕ, zero, suc, ◌+◌, ◌-◌, ◌*◌, ◌^◌, ◌<◌, ◌≡◌, refl, Bool, true, false, ◌&&◌, not, ◌==◌, ==_iff,
  if◌then◌else◌, arith,
}
use gca.Bits.{bit_mask, all_flags, read_mask, clear_mask, enable_mask}
use gca.Bits.Digits.{
  digit, digit-lt, digit-and, digit-or, digit-pow, bit_and-pow, bit_or-pow, pow_pos,
}

-- Checks every number below a bound by evaluation.
unfoldable pub every : ℕ → (ℕ → Bool) → Bool
every zero p = true
every (suc n) p = p n && every n p

pub every_sound : (n : ℕ) (p : ℕ → Bool) (x : ℕ) → every n p ≡ true → x < n → p x ≡ true
unfolding every
every_sound zero p x h lt = absurd (omega arith)
every_sound (suc n) p x h lt = ground (arith, every_sound n p x)

-- A property of two digits positions below a bound, checked by evaluation.
table_sound :
    (n : ℕ) (p : ℕ → ℕ → Bool) (x y : ℕ)
    → every n (λ a. every n (p a)) ≡ true
    → x < n
    → y < n
    → p x y ≡ true
table_sound n p x y h hx hy = every_sound n (p x) y (every_sound n (λ a. every n (p a)) x h hx) hy

pub bit_mask_lem : (k : ℕ) → k < 8 → bit_mask k ≡ 2 ^ k
unfolding every
bit_mask_lem k h = (==_iff _ _).0 (every_sound 8 (λ k. bit_mask k == 2 ^ k) k refl h)

-- `~(1 << k)` in a byte keeps every other digit.
pub digit-clear_bit : (j k : ℕ) → j < 8 → k < 8 → digit j (255 - 2 ^ k) ≡ (if k == j then 0 else 1)
unfolding every digit
digit-clear_bit j k hj hk =
    (==_iff _ _).0
      (table_sound 8 (λ j k. digit j (255 - 2 ^ k) == (if k == j then 0 else 1)) j k refl hj hk)

-- `~flag` keeps every other flag.
pub digit-clear_flag :
    (j k : ℕ) → j < 5 → k < 5 → digit j (bit_xor (2 ^ k) all_flags) ≡ (if k == j then 0 else 1)
unfolding every digit
digit-clear_flag j k hj hk = (==_iff _ _).0 (
    table_sound 5 (λ j k. digit j (bit_xor (2 ^ k) all_flags) == (if k == j then 0 else 1)) j k refl
      hj hk)

pub flag_known : (k : ℕ) → k < 5 → bit_and (2 ^ k) all_flags ≡ 2 ^ k
unfolding every
flag_known k h = (==_iff _ _).0 (every_sound 5 (λ k. bit_and (2 ^ k) 31 == 2 ^ k) k refl h)

nonzero_digit : (d p : ℕ) → d < 2 → 0 < p → not (d * p == 0) ≡ (d == 1)
nonzero_digit zero p h pos = ground arith
nonzero_digit (suc zero) p h pos = ground arith
nonzero_digit (suc (suc d)) p h pos = absurd (omega arith)

same_sum : (v d p : ℕ) → d < 2 → 0 < p → (v == v + (1 - d) * p) ≡ (d == 1)
same_sum v zero p h pos = ground arith
same_sum v (suc zero) p h pos = ground arith
same_sum v (suc (suc d)) p h pos = absurd (omega arith)

pub read_mask-pow : (v k : ℕ) → read_mask v (2 ^ k) ≡ (digit k v == 1)
unfolding read_mask
read_mask-pow v k =
    rw (bit_and-pow k v) (nonzero_digit (digit k v) (2 ^ k) (digit-lt k v) (pow_pos k))

-- The answer of the operation: whether it changed the set.
pub enable_mask-changed : (v k : ℕ) → (enable_mask v (2 ^ k)).1 ≡ not (digit k v == 1)
unfolding enable_mask
enable_mask-changed v k =
    rw (bit_or-pow k v)
      (rw (same_sum v (digit k v) (2 ^ k) (digit-lt k v) (pow_pos k)) (ground arith))

pub enable_mask-value : (v m : ℕ) → (enable_mask v m).0 ≡ bit_or v m
unfolding enable_mask
enable_mask-value v m = ground arith

pub clear_mask-value : (v m : ℕ) → (clear_mask v m).0 ≡ bit_and v m
unfolding clear_mask
clear_mask-value v m = ground arith

pub digit-enable_mask :
    (j v k : ℕ)
    → (digit j (enable_mask v (2 ^ k)).0 == 1) ≡ (if k == j then true else digit j v == 1)
digit-enable_mask j v k =
    rw (enable_mask-value v (2 ^ k), digit-or j v (2 ^ k), digit-pow j k)
      (ground (arith, digit-lt j v))

-- A mask that keeps all digits but one clears that one.
pub digit-clear_mask :
    (j v k m : ℕ)
    → digit j m ≡ (if k == j then 0 else 1)
    → (digit j (clear_mask v m).0 == 1) ≡ (if k == j then false else digit j v == 1)
digit-clear_mask j v k m e =
    rw (clear_mask-value v m, digit-and j v m, e) (ground (arith, digit-lt j v))
