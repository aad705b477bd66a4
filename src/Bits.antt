-- ===== src/Bits.antt =====
-- `atomic_bit_set` of include/gca/gc-util.h, over one byte, and its specialisation for flag
-- enumerations, at the enumeration `object_flags` of include/gca/gc-internal.h.
-- A set is the byte itself. A read-modify-write is one step: the compare-exchange loop returns
-- when no other thread has written between its load and its exchange.
pub mod Digits
pub mod Masks
pub mod Laws
use Prim.Native.Nat.{bit_and, bit_or, bit_xor}
use gca.Base.{ℕ, ◌-◌, ◌%◌, ◌^◌, Bool, true, false, not, ltb, ◌==◌, if◌then◌else◌}
use gca.Base.Result.{Result, ok, throw, out_of_range, and_then}

-- `max_pos` for a one-byte set
abbrev pub max_pos : ℕ
max_pos = 7

-- `1 << bit`, converted to the byte
abbrev pub bit_mask : ℕ → ℕ
bit_mask bit = 2 ^ bit % 256

pub bounds_check : ℕ → Result (Unit {0})
bounds_check bit = if ltb max_pos bit then throw out_of_range else ok tt

-- `SetAll` and `ReadAll`
abbrev pub set_all : (v value : ℕ) → ℕ
set_all v value = value

abbrev pub read_all : ℕ → ℕ
read_all v = v

unfoldable pub read_mask : ℕ → ℕ → Bool
read_mask v mask = not (bit_and v mask == 0)

unfoldable pub clear_mask : ℕ → ℕ → ℕ × Bool
clear_mask v mask = if v == bit_and v mask then (v, false) else (bit_and v mask, true)

unfoldable pub enable_mask : ℕ → ℕ → ℕ × Bool
enable_mask v mask = if v == bit_or v mask then (v, false) else (bit_or v mask, true)

unfoldable pub read_bit : ℕ → ℕ → Result Bool
unfolding bounds_check read_mask
read_bit v bit = and_then (bounds_check bit) (λ _. ok (read_mask v (bit_mask bit)))

unfoldable pub enable_bit : ℕ → ℕ → Result (ℕ × Bool)
unfolding bounds_check enable_mask
enable_bit v bit = and_then (bounds_check bit) (λ _. ok (enable_mask v (bit_mask bit)))

unfoldable pub clear_bit : ℕ → ℕ → Result (ℕ × Bool)
unfolding bounds_check clear_mask
clear_bit v bit = and_then (bounds_check bit) (λ _. ok (clear_mask v (255 - bit_mask bit)))

unfoldable pub set_bit : ℕ → ℕ → Bool → Result (ℕ × Bool)
unfolding enable_bit clear_bit
set_bit v bit value = if value then enable_bit v bit else clear_bit v bit

-- The values of `object_flags`.
abbrev pub uninitialized : ℕ
uninitialized = 1

abbrev pub garbage : ℕ
garbage = 2

abbrev pub immovable : ℕ
immovable = 4

abbrev pub large : ℕ
large = 8

abbrev pub initialization_failed : ℕ
initialization_failed = 16

abbrev pub all_flags : ℕ
all_flags = 31

unfoldable pub known_flag_check : ℕ → Result (Unit {0})
known_flag_check flag = if flag == bit_and flag all_flags then ok tt else throw out_of_range

unfoldable pub has_flag : ℕ → ℕ → Result Bool
unfolding known_flag_check read_mask
has_flag v flag = and_then (known_flag_check flag) (λ _. ok (read_mask v flag))

-- `~flag` is the exclusive or with `all_flags`.
unfoldable pub set_flag : ℕ → ℕ → Bool → Result (ℕ × Bool)
unfolding known_flag_check enable_mask clear_mask
set_flag v flag value =
    and_then (known_flag_check flag)
      λ _. ok (if value then enable_mask v flag else clear_mask v (bit_xor flag all_flags))
