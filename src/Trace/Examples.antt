-- ===== src/Trace/Examples.antt =====
-- Runs of the search on small heaps.
use gca.Base.{ℕ, zero, suc, ◌<◌, ◌≡◌, refl, Bool, true, some, List, [], ◌∷◌, In, here, there, arith}
use gca.Base.Family.{total}
use gca.Handle.{Handle, Heap, new_handle, is_marked_garbage}
use gca.Bits.Digits.{digit}
use gca.Trace.{try_find_root_for}
use gca.Trace.Dead.{IsBytes}
use gca.Trace.Unreachable.{RootPath}
use gca.Trace.Fuel.{try_find_root_for-returns}
use gca.Trace.Flaw.{try_find_root_for-flags_live}

abbrev plain : List ℕ → ℕ → Handle
plain refs roots = record (new_handle 0 8 0) {
  referenced_by = refs;
  root_handle_count = roots;
  flags = 0;
}

-- Objects 1 and 2 refer to each other; the others are roots.
abbrev island : Heap
island zero = plain [] 1
island (suc zero) = plain (2 ∷ []) 0
island (suc (suc zero)) = plain (1 ∷ []) 0
island (suc (suc (suc x))) = plain [] 1

island-IsBytes : IsBytes island
unfolding new_handle
island-IsBytes zero = omega arith
island-IsBytes (suc zero) = omega arith
island-IsBytes (suc (suc zero)) = omega arith
island-IsBytes (suc (suc (suc x))) = omega arith

island-inside : (x r : ℕ) → x < 3 → In r (island x).referenced_by → r < 3
unfolding new_handle
island-inside zero r h m = elim m [ ]
island-inside (suc zero) r h here = omega arith
island-inside (suc zero) r h (there m) = elim m [ ]
island-inside (suc (suc zero)) r h here = omega arith
island-inside (suc (suc zero)) r h (there m) = elim m [ ]
island-inside (suc (suc (suc x))) r h m = absurd (omega (arith, h))

try_find_root_for-returns_example :
    (s' : Heap) × (found : Bool) × (try_find_root_for 4 0 0 1 island ≡ some (s', found))
unfolding new_handle total digit
try_find_root_for-returns_example =
    try_find_root_for-returns 4 0 0 3 1 island (omega arith) (omega arith)
      (record { bytes = island-IsBytes; inside = island-inside }) (omega arith)

-- Object 1 is referred to by object 2, which it refers to itself, and by the root 0.
abbrev rooted : Heap
rooted zero = plain [] 1
rooted (suc zero) = plain (2 ∷ 0 ∷ []) 0
rooted (suc (suc zero)) = plain (1 ∷ []) 0
rooted (suc (suc (suc x))) = plain [] 1

rooted-IsBytes : IsBytes rooted
unfolding new_handle
rooted-IsBytes zero = omega arith
rooted-IsBytes (suc zero) = omega arith
rooted-IsBytes (suc (suc zero)) = omega arith
rooted-IsBytes (suc (suc (suc x))) = omega arith

try_find_root_for-flags_live_example :
    RootPath rooted 1
    × ((s' : Heap) × (try_find_root_for 3 0 0 1 rooted ≡ some (s', true))
        × (is_marked_garbage (s' 1) ≡ true))
unfolding new_handle is_marked_garbage digit
try_find_root_for-flags_live_example =
    try_find_root_for-flags_live 0 0 0 1 2 0 [] rooted (omega arith) (omega arith) rooted-IsBytes
      (record { bare = refl; clear = refl; free = omega arith })
      (record { bare = refl; clear = refl; free = omega arith }) refl refl refl refl refl
      (omega arith)
