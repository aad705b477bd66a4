-- ===== src/Tagged.antt =====
-- `tagged_ptr` of include/gca/gc.h: a pointer whose top 16 bits carry a tag. A word is a number
-- below 2 ^ 64; `a << 48 | b` for `b` below 2 ^ 48 is the sum `a * 2 ^ 48 + b`, and `a & mask` for a
-- mask of the low bits is a remainder. The code for x86-64 is modelled.
pub mod Laws
mod Examples
use gca.Base.{ℕ, zero, suc, ◌+◌, ◌-◌, ◌*◌, ◌/◌, ◌%◌, ◌^◌, Bool, not, ◌==◌, if◌then◌else◌}

-- `Pack`
unfoldable pub pack : (ptr tag : ℕ) → ℕ
pack ptr tag = tag % 2 ^ 16 * 2 ^ 48 + ptr % 2 ^ 48

unfoldable pub get_data : (word : ℕ) → ℕ
get_data word = word / 2 ^ 48 % 2 ^ 16

-- `Get`: bit 47 is copied to the bits above it.
unfoldable pub get : (word : ℕ) → ℕ
get word =
    let masked = word % 2 ^ 48 in
    if masked / 2 ^ 47 == 0 then masked else (2 ^ 16 - 1) * 2 ^ 48 + masked

-- `Set`
unfoldable pub set : (word ptr : ℕ) → ℕ
unfolding get_data pack
set word ptr = pack ptr (get_data word)

-- `operator==` of two words, and `operator==(nullptr)`
unfoldable pub equal : (word other : ℕ) → Bool
unfolding get
equal word other = get word == get other

unfoldable pub is_null : (word : ℕ) → Bool
unfolding get
is_null word = get word == 0

-- A 16-bit word read as a signed number and widened to 64 bits
unfoldable pub sign_extend : (tag : ℕ) → ℕ
sign_extend tag = if tag / 2 ^ 15 == 0 then tag else (2 ^ 48 - 1) * 2 ^ 16 + tag
