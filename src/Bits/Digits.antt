-- ===== src/Bits/Digits.antt =====
-- Binary digits of `bit_and` and `bit_or`, at every number.
use Prim.Native.Nat.{min, max, digits, bit_and, bit_or, bit_and-bitwise, bit_or-bitwise}
use native.Mathlib.Nat.{pow-suc, one-le-pow}
use gca.Base.{
  ℕ, zero, suc, ◌+◌, ◌-◌, ◌*◌, ◌/◌, ◌%◌, ◌^◌, ◌≤◌, ◌<◌, ◌≡◌, refl, ◌==◌, if◌then◌else◌, arith,
}

module _ (onto : ℕ → ℕ) (op : ℕ → ℕ → ℕ) where
  -- More fuel than the first number changes nothing.
  fuel_irrelevant : (a b n m : ℕ) → a ≤ n → a ≤ m → digits onto op n a b ≡ digits onto op m a b
  fuel_irrelevant zero b zero zero p q = refl
  fuel_irrelevant zero b zero (suc m) p q = refl
  fuel_irrelevant zero b (suc n) zero p q = refl
  fuel_irrelevant zero b (suc n) (suc m) p q = refl
  fuel_irrelevant (suc a) b zero m p q = absurd (omega arith)
  fuel_irrelevant (suc a) b (suc n) zero p q = absurd (omega arith)
  fuel_irrelevant (suc a) b (suc n) (suc m) p q =
      omega (arith, fuel_irrelevant (suc a / 2) (b / 2) n m (omega arith) (omega arith))

and_lowest : (a b : ℕ) → bit_and a b ≡ bit_and (a / 2) (b / 2) * 2 + min (a % 2) (b % 2)
and_lowest zero b = omega (arith, bit_and-bitwise 0 b, bit_and-bitwise 0 (b / 2))
and_lowest (suc a) b = omega (
  arith,
  bit_and-bitwise (suc a) b,
  bit_and-bitwise (suc a / 2) (b / 2),
  fuel_irrelevant (λ _. 0) min (suc a / 2) (b / 2) a (suc a / 2) (omega arith) (omega arith),
)

or_lowest : (a b : ℕ) → bit_or a b ≡ bit_or (a / 2) (b / 2) * 2 + max (a % 2) (b % 2)
or_lowest zero b = omega (arith, bit_or-bitwise 0 b, bit_or-bitwise 0 (b / 2))
or_lowest (suc a) b = omega (
  arith,
  bit_or-bitwise (suc a) b,
  bit_or-bitwise (suc a / 2) (b / 2),
  fuel_irrelevant (λ y. y) max (suc a / 2) (b / 2) a (suc a / 2) (omega arith) (omega arith),
)

-- The digit of weight 2 ^ k.
unfoldable pub digit : ℕ → ℕ → ℕ
digit zero a = a % 2
digit (suc k) a = digit k (a / 2)

pub digit-lt : (k a : ℕ) → digit k a < 2
unfolding digit
digit-lt zero a = omega arith
digit-lt (suc k) a = digit-lt k (a / 2)

pub digit-and : (k a b : ℕ) → digit k (bit_and a b) ≡ min (digit k a) (digit k b)
unfolding digit
digit-and zero a b = omega (arith, and_lowest a b)
digit-and (suc k) a b =
    let e : bit_and a b / 2 ≡ bit_and (a / 2) (b / 2) = omega (arith, and_lowest a b) in
    rw e (digit-and k (a / 2) (b / 2))

pub digit-or : (k a b : ℕ) → digit k (bit_or a b) ≡ max (digit k a) (digit k b)
unfolding digit
digit-or zero a b = omega (arith, or_lowest a b)
digit-or (suc k) a b =
    let e : bit_or a b / 2 ≡ bit_or (a / 2) (b / 2) = omega (arith, or_lowest a b) in
    rw e (digit-or k (a / 2) (b / 2))

half_pow : (k : ℕ) → (2 ^ suc k / 2 ≡ 2 ^ k) × (2 ^ suc k % 2 ≡ 0)
half_pow k = omega (arith, pow-suc 2 k)

digit_zero : (k : ℕ) → digit k 0 ≡ 0
unfolding digit
digit_zero zero = refl
digit_zero (suc k) = digit_zero k

pub digit-pow : (j k : ℕ) → digit j (2 ^ k) ≡ (if k == j then 1 else 0)
unfolding digit
digit-pow zero zero = refl
digit-pow (suc j) zero = rw (digit_zero j) (ground arith)
digit-pow zero (suc k) = ground (arith, half_pow k)
digit-pow (suc j) (suc k) = rw ((half_pow k).0, digit-pow j k) (ground arith)

bit_and_zero : (n a : ℕ) → a ≤ n → bit_and a 0 ≡ 0
bit_and_zero n zero h = refl
bit_and_zero zero (suc a) h = absurd (omega arith)
bit_and_zero (suc n) (suc a) h =
    omega (arith, and_lowest (suc a) 0, bit_and_zero n (suc a / 2) (omega arith))

bit_or_zero : (n a : ℕ) → a ≤ n → bit_or a 0 ≡ a
bit_or_zero n zero h = refl
bit_or_zero zero (suc a) h = absurd (omega arith)
bit_or_zero (suc n) (suc a) h =
    omega (arith, or_lowest (suc a) 0, bit_or_zero n (suc a / 2) (omega arith))

-- The mask of one digit reads it.
pub bit_and-pow : (k a : ℕ) → bit_and a (2 ^ k) ≡ digit k a * 2 ^ k
unfolding digit
bit_and-pow zero a = omega (arith, and_lowest a 1, bit_and_zero (a / 2) (a / 2) (omega arith))
bit_and-pow (suc k) a =
    let e = rw ((half_pow k).0, (half_pow k).1) at (and_lowest a (2 ^ suc k)) in
    rw e (rw (pow-suc 2 k) (omega (arith, bit_and-pow k (a / 2))))

-- The mask of one digit sets it.
pub bit_or-pow : (k a : ℕ) → bit_or a (2 ^ k) ≡ a + (1 - digit k a) * 2 ^ k
unfolding digit
bit_or-pow zero a = omega (arith, or_lowest a 1, bit_or_zero (a / 2) (a / 2) (omega arith))
bit_or-pow (suc k) a =
    let e = rw ((half_pow k).0, (half_pow k).1) at (or_lowest a (2 ^ suc k)) in
    rw e (rw (pow-suc 2 k) (omega (arith, bit_or-pow k (a / 2))))

pub pow_pos : (k : ℕ) → 0 < 2 ^ k
pow_pos k = one-le-pow k 2 (omega arith)
