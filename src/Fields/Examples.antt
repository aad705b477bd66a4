-- ===== src/Fields/Examples.antt =====
-- Field 1 of object 1 points to object 2, which object 1 alone refers to.
use gca.Base.{ℕ, zero, suc, ◌+◌, ◌≡◌, refl, false, inr, List, [], ◌∷◌, ◌==◌, if◌then◌else◌, arith}
use gca.Base.Family.{update}
use gca.Handle.{Handle, Heap, new_handle, is_marked_garbage}
use gca.Fields.{Store, finished, find_reference, set_field}
use gca.Fields.Laws.{references, references-set_field}
use gca.Fields.Returns.{set_field-finished}

abbrev referred : List ℕ → Handle
referred refs = record (new_handle 4096 8 0) {
  referenced_by = refs;
  root_handle_count = 0;
  flags = 0;
}

abbrev objects : Heap
objects zero = referred []
objects (suc zero) = referred []
objects (suc (suc zero)) = referred (1 ∷ [])
objects (suc (suc (suc x))) = referred []

abbrev store : Store
store = record { heap = objects; field = λ f. if f == 1 then 2 else 0 }

set_field-finished_example : (set_field 5 [] [] 1 1 3 store).1 ≡ finished
unfolding new_handle is_marked_garbage find_reference
set_field-finished_example =
    set_field-finished 5 1 1 3 store (inr (inr refl, omega arith)) (inr (inr refl, refl, refl))

set_field-finished_store : (set_field 5 [] [] 1 1 3 store).1 ≡ finished
unfolding new_handle is_marked_garbage find_reference
set_field-finished_store =
    set_field-finished 5 1 1 3 store (inr (inr refl, omega arith)) (inr (inr refl, refl, refl))

references-set_field_example :
    references (set_field 5 [] [] 1 1 3 store).0 2 1 + 1 ≡ references store 2 1 + 0
references-set_field_example =
    references-set_field 5 [] [] 1 1 3 store 2 1 (omega arith) set_field-finished_store

-- Thread 5 owns the lock of object 2.
abbrev pinned : Store
pinned = record store {
  heap =
      update objects 2
        (record (objects 2) { object_lock = record { word = 129; owner = λ s. s == 5 } });
}

-- Object 3 is read by thread 5.
abbrev read_pinned : Store
read_pinned = record store {
  heap =
      update objects 3
        (record (objects 3) { object_lock = record { word = 1; owner = λ _. false } });
}
