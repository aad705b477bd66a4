-- ===== src/Allocation/Examples.antt =====
-- Allocation in an empty collector.
use gca.Base.{ℕ, ◌≡◌, refl, [], arith}
use gca.Base.Result.{ok, throw, bad_alloc}
use gca.Types.{ObjectType}
use gca.Roles.{done, waits}
use gca.World.{empty_world}
use gca.Destruction.{Env}
use gca.Page.{get_alignment_correction}
use gca.Allocation.{Memory, page_alignment, try_allocate_on_new_page}
use gca.Allocation.NewPage.{try_allocate_on_new_page-returns}

abbrev pages_only : Memory
pages_only = record {
  page_memory = λ w. ok 8192;
  large_memory = λ w size alignment. throw bad_alloc;
  unreachable = λ w. (w, waits);
}

abbrev env : Env
env = record { thread = 1; fields = λ ty object. []; others = []; depth = 3 }

abbrev sixteen_bytes : ObjectType
sixteen_bytes = record {
  size = 16;
  alignment = 8;
  type = 1;
  destructor = 1;
  get_field_count = 2;
  get_field = 3;
  move = 4;
}

-- A page's memory is aligned.
correction : get_alignment_correction 8192 page_alignment ≡ 0
unfolding get_alignment_correction
correction = refl

try_allocate_on_new_page-returns_example :
    (n : ℕ) × ((try_allocate_on_new_page pages_only 32 sixteen_bytes empty_world).1 ≡ done n)
try_allocate_on_new_page-returns_example =
    try_allocate_on_new_page-returns pages_only 32 sixteen_bytes (512, refl) (omega arith)
      empty_world 8192 (omega arith) (omega arith) refl correction (omega arith) tt refl
