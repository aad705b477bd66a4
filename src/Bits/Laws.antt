-- ===== src/Bits/Laws.antt =====
-- What a caller of the two bit sets relies on: reads after writes, the answer of a write, and the
-- positions and flags that are refused.
use Prim.Native.Nat.{bit_xor}
use gca.Base.{ℕ, ◌-◌, ◌^◌, ◌<◌, ◌≡◌, refl, Bool, true, false, not, ◌==◌, if◌then◌else◌, arith}
use gca.Base.Result.{ok, throw, out_of_range, and_then, map_ok}
use gca.Bits.{max_pos, clear_mask, enable_mask, read_bit, set_bit, has_flag, set_flag, all_flags}
use gca.Bits.Digits.{digit}
use gca.Bits.Masks.{
  bit_mask_lem, digit-clear_bit, digit-clear_flag, flag_known, read_mask-pow, digit-enable_mask,
  enable_mask-changed, digit-clear_mask,
}

-- A position of the byte reads as its digit.
pub read_bit_lem : (v j : ℕ) → j < 8 → read_bit v j ≡ ok (digit j v == 1)
unfolding read_bit
read_bit_lem v j h = rw (bit_mask_lem j h, read_mask-pow v j) (ground arith)

pub set_bit_lem :
    (v k : ℕ) (value : Bool)
    → k < 8
    → set_bit v k value ≡ ok (if value then enable_mask v (2 ^ k) else clear_mask v (255 - 2 ^ k))
unfolding set_bit
set_bit_lem v k value h = rw (bit_mask_lem k h) (ground arith)

-- A write of a position, and the digits after it.
pub written_digit :
    (v k j : ℕ) (value : Bool)
    → k < 8
    → j < 8
    → (digit j (if value then enable_mask v (2 ^ k) else clear_mask v (255 - 2 ^ k)).0 == 1)
      ≡ (if k == j then value else digit j v == 1)
written_digit v k j true hk hj = digit-enable_mask j v k
written_digit v k j false hk hj = digit-clear_mask j v k (255 - 2 ^ k) (digit-clear_bit j k hj hk)

-- Reading a position after a write of one gives the written value there, and the old value at
-- every other position.
pub read_bit-set_bit :
    (v bit j : ℕ) (value : Bool)
    → bit < 8
    → j < 8
    → and_then (set_bit v bit value) (λ r. read_bit r.0 j)
      ≡ (if bit == j then ok value else read_bit v j)
read_bit-set_bit v bit j value hb hj =
    rw (set_bit_lem v bit value hb, read_bit_lem v j hj)
      (rw (read_bit_lem _ j hj, written_digit v bit j value hb hj) (ground arith))

-- A position beyond the byte is refused by reads and writes alike.
pub set_bit-out_of_range :
    (v bit : ℕ) (value : Bool)
    → max_pos < bit
    → (read_bit v bit ≡ throw out_of_range) × (set_bit v bit value ≡ throw out_of_range)
unfolding read_bit set_bit
set_bit-out_of_range v bit value h = (ground arith, ground arith)

set_flag_lem :
    (v k : ℕ) (value : Bool)
    → k < 5
    → set_flag v (2 ^ k) value
      ≡ ok (if value then enable_mask v (2 ^ k) else clear_mask v (bit_xor (2 ^ k) all_flags))
unfolding set_flag
set_flag_lem v k value h = rw (flag_known k h) (ground arith)

-- A single flag reads as its digit.
pub has_flag_lem : (v j : ℕ) → j < 5 → has_flag v (2 ^ j) ≡ ok (digit j v == 1)
unfolding has_flag
has_flag_lem v j h = rw (flag_known j h) (rw (read_mask-pow v j) (ground arith))

written_flag :
    (v k j : ℕ) (value : Bool)
    → k < 5
    → j < 5
    → (digit j (if value then enable_mask v (2 ^ k) else clear_mask v (bit_xor (2 ^ k) all_flags)).0
        == 1)
      ≡ (if k == j then value else digit j v == 1)
written_flag v k j true hk hj = digit-enable_mask j v k
written_flag v k j false hk hj =
    digit-clear_mask j v k (bit_xor (2 ^ k) all_flags) (digit-clear_flag j k hj hk)

-- Each of the five flags is a switch of its own: after `SetFlag`, `HasFlag` gives the written value
-- for that flag, and what it gave before for every other one.
pub has_flag-set_flag :
    (v k j : ℕ) (value : Bool)
    → k < 5
    → j < 5
    → and_then (set_flag v (2 ^ k) value) (λ r. has_flag r.0 (2 ^ j))
      ≡ (if k == j then ok value else has_flag v (2 ^ j))
has_flag-set_flag v k j value hk hj =
    rw (set_flag_lem v k value hk, has_flag_lem v j hj)
      (rw (has_flag_lem _ j hj, written_flag v k j value hk hj) (ground arith))

-- `SetFlag(flag, true)` answers whether the flag was clear.
pub set_flag-changed :
    (v k : ℕ)
    → k < 5
    → map_ok (λ r. r.1) (set_flag v (2 ^ k) true) ≡ map_ok not (has_flag v (2 ^ k))
set_flag-changed v k h =
    rw (set_flag_lem v k true h, has_flag_lem v k h) (rw (enable_mask-changed v k) refl)
