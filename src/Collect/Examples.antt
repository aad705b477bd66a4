-- ===== src/Collect/Examples.antt =====
-- A page with two objects: one has a root, and no object refers to the other.
use gca.Base.{
  ℕ, ◌+◌, ◌≤◌, ◌≡◌, refl, false, List, [], ◌∷◌, here, ◌==◌, if◌then◌else◌, Bool-cases, inl, inr,
  arith,
}
use gca.Bits.{has_flag}
use gca.Bits.Digits.{digit}
use gca.Handle.{Handle, new_handle, is_marked_garbage}
use gca.Trace.Frame.{marked}
use gca.Trace
use gca.Page.{entry}
use gca.Trace.Dead.{IsBytes}
use gca.Trace.Unreachable.{from_root}
use gca.Roles.{done}
use gca.World.{World, empty_world, pure, wait}
use gca.World.Spares.{IsPlaced, Spares, Spares-refl}
use gca.Destruction.{Env, destroy_object}
use gca.Collect.{collect_on_page, collect_entries, collect_object}
use gca.Collect.Spares.{counted, collect_on_page-Spares}
use gca.Collect.Fuel.{collect_entries-ends}
use gca.Collect.Count.{collect-gc_count}
use gca.LifeCycle.{collect}
use gca.Collect.Live.{collect_object-live}

abbrev env : Env
env = record { thread = 1; fields = λ ty object. []; others = (λ w. w) ∷ []; depth = 3 }

abbrev header : (referenced_by : List ℕ) → ℕ → Handle
header referenced_by n =
    if n == 2
    then record (new_handle 8208 16 0) { root_handle_count = 0; referenced_by = referenced_by }
    else new_handle 8192 16 0

-- The second object is referred to by the given objects.
abbrev two_objects : (referenced_by : List ℕ) → World
two_objects referenced_by = record empty_world {
  heap = header referenced_by;
  lookup = λ a. if a == 8192 then 1 else if a == 8208 then 2 else 0;
  pages = 0 ∷ [];
  page = λ p. record {
    begin = 8192;
    entries = entry 0 16 ∷ entry 16 16 ∷ [];
    allocation_lock = false;
  };
}

-- A run: the object that no root leads to goes, and the other one stays.
collects :
    (((collect_on_page env 0 (two_objects [])).0.page 0).entries ≡ entry 0 16 ∷ [])
    × ((collect_on_page env 0 (two_objects [])).0.lookup 8208 ≡ 0)
    × ((collect_on_page env 0 (two_objects [])).1 ≡ done tt)
unfolding collect_on_page new_handle gca.Trace.read_mark gca.Trace.write_mark gca.Trace.unmark
    gca.Trace.any_of
collects = (refl, refl, refl)

two_objects-IsPlaced : IsPlaced (two_objects [])
unfolding new_handle
two_objects-IsPlaced a known = ground (arith, known)

collect_on_page-Spares_example :
    Spares (counted (two_objects [])) (collect_on_page env 0 (two_objects [])).0
collect_on_page-Spares_example =
    collect_on_page-Spares env 0 (two_objects []) (Spares-refl, tt) two_objects-IsPlaced
      (omega arith)

collect_entries-ends_example :
    collect_entries env 0 0 wait 9 0 (two_objects [])
    ≡ collect_entries env 0 0 (pure tt) 5 0 (two_objects [])
collect_entries-ends_example =
    collect_entries-ends env (Spares-refl, tt) 0 0 wait (pure tt) 9 5 (two_objects [])
      two_objects-IsPlaced (omega arith) (omega arith)

collect-gc_count_example : (0 + 1 ≤ 8) × ((collect env false (two_objects [])).0.gc_count ≡ 0 + 1)
unfolding collect new_handle gca.Trace.read_mark gca.Trace.write_mark gca.Trace.unmark
    gca.Trace.any_of
collect-gc_count_example =
    collect-gc_count env (Spares-refl, tt) (two_objects []) two_objects-IsPlaced (omega arith) refl

header-IsBytes : IsBytes (header (1 ∷ []))
unfolding new_handle
header-IsBytes n = ground arith

header-unmarked : (n : ℕ) → marked 0 (header (1 ∷ []) n) ≡ false
unfolding new_handle digit
header-unmarked n = elim (Bool-cases (n == 2)) [ inl e ↦ rw e refl | inr e ↦ rw e refl ]

collect_object-live_example :
    collect_object env (destroy_object env 0 2) 0 2 (two_objects (1 ∷ []))
    ≡ collect_object env (pure tt) 0 2 (two_objects (1 ∷ []))
unfolding new_handle is_marked_garbage has_flag
collect_object-live_example =
    collect_object-live env 0 2 (omega arith) (destroy_object env 0 2) (pure tt)
      (two_objects (1 ∷ [])) header-IsBytes (λ x. header-unmarked x) refl
      (from_root here (omega arith))
