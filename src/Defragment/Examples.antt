-- ===== src/Defragment/Examples.antt =====
-- A page at address 4096 with one object, 64 bytes from its beginning.
use gca.Base.{◌≡◌, refl, none, [], ◌∷◌, ◌==◌, if◌then◌else◌, arith}
use gca.Handle.{new_handle}
use gca.Types.{ObjectType}
use gca.Page.{entry}
use gca.Page.Laws.{IsPage}
use gca.Defragment.{Objects, defragment_on_page}
use gca.Defragment.Laws.{IsCompacted, defragment_on_page-compacts}

abbrev eight_bytes : ObjectType
eight_bytes = record {
  size = 8;
  alignment = 8;
  type = 1;
  destructor = 1;
  get_field_count = 2;
  get_field = 3;
  move = 4;
}

abbrev objects : Objects
objects = record {
  heap = λ n. new_handle 4160 16 0;
  lookup = λ a. if a == 4160 then 1 else 0;
  moved = [];
}

defragment_on_page-compacts_example :
    ((defragment_on_page 5 (λ i. eight_bytes) 4096 (entry 64 16 ∷ []) objects).2 ≡ none)
    × IsPage 4096 (defragment_on_page 5 (λ i. eight_bytes) 4096 (entry 64 16 ∷ []) objects).1
    × IsCompacted
        (entry 64 16 ∷ [])
        (defragment_on_page 5 (λ i. eight_bytes) 4096 (entry 64 16 ∷ []) objects).1
unfolding new_handle
defragment_on_page-compacts_example =
    defragment_on_page-compacts 5 (λ i. eight_bytes) 4096 (entry 64 16 ∷ []) objects
      (omega arith, (omega arith, omega arith))
      (
        record {
          known = omega arith;
          place = refl;
          positive = omega arith;
          small = omega arith;
          aligned = (520, refl);
          extent = omega arith;
        },
        tt,
      )
