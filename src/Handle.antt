-- ===== src/Handle.antt =====
-- `internal_handle` of include/gca/gc-internal.h: the header of one allocated object. A pointer to
-- a handle is its number, and the heap gives the header behind each pointer.
-- `std::span` is an address and a size; an atomic member is its value.
pub mod Laws
pub mod Body
use gca.Base.{ℕ, Bool, true, false, List, []}
use gca.Base.Family.{update}
use gca.Base.Result.{Result, ok, throw}
use gca.Bits
use gca.Bits.{has_flag, set_flag}
use gca.RwLock.{RwLock, unlocked}

pub record Handle : Type 0 where
  pub address : ℕ  -- objectAllocation.data()
  pub size : ℕ  -- objectAllocation.size()
  pub referenced_by : List ℕ
  pub root_handle_count : ℕ
  pub object_type : ℕ
  pub mark_bits : ℕ
  pub object_lock : RwLock
  pub flags : ℕ

abbrev pub Heap : Type 0
Heap = ℕ → Handle

abbrev pub on_handle : Heap → ℕ → (Handle → Handle) → Heap
on_handle s h f = update s h (f (s h))

-- The constructor of `internal_handle`.
unfoldable pub new_handle : (address size object_type : ℕ) → Handle
new_handle address size object_type = record {
  address = address;
  size = size;
  referenced_by = [];
  root_handle_count = 1;
  object_type = object_type;
  mark_bits = 0;
  object_lock = unlocked;
  flags = Bits.uninitialized;
}

-- The answer of `HasFlag`, which throws only for an unknown flag.
abbrev pub flag_or : Bool → Result Bool → Bool
flag_or b (ok x) = x
flag_or b (throw e) = b

abbrev pub flags_or : ℕ → Result (ℕ × Bool) → ℕ
flags_or v (ok r) = r.0
flags_or v (throw e) = v

-- `IsMarkedGarbage` and `MarkGarbage`. Both are noexcept: `garbage` is a known flag.
unfoldable pub is_marked_garbage : Handle → Bool
unfolding has_flag
is_marked_garbage h = flag_or false (has_flag h.flags Bits.garbage)

unfoldable pub mark_garbage : Handle → Handle
unfolding set_flag
mark_garbage h = record h { flags = flags_or h.flags (set_flag h.flags Bits.garbage true) }
