-- ===== src/Handles/Examples.antt =====
-- One object that the variable 10 holds, and a null field at 12.
use gca.Base.{ℕ, ◌≡◌, ◌+◌, refl, true, ◌||◌, [], ◌∷◌, ◌==◌, arith}
use gca.Base.Family.{update, total}
use gca.Handle.{new_handle, is_marked_garbage}
use gca.Roles.{root, done}
use gca.Roles.Counts.{of_root}
use gca.Lookup.{lookup_object_or_get_owning_object}
use gca.World.{World, empty_world, wait}
use gca.World.Lands.{Lands}
use gca.Handles.{Call}
use gca.Handles.RootHandle
use gca.Handles.Field
use gca.Handles.Field.{Scene, FieldAt}
use gca.Handles.Counts.{bit, roots}
use gca.Handles.Invariant.{IsCounted, held}
use gca.Handles.Programs.{
  Program, Variables, AreAllowed, root_of_root, assign_field, assign_null, end_root, run_all,
  live_after_all, run_all-IsCounted,
}
use gca.Handles.Returns.{run_all-returns}
use gca.Handles.Flaws.{copy_assign-leaks}
use gca.Handles.Moves.{move_assign-flags_held}

abbrev world : World
world = record empty_world { heap = λ _. new_handle 4096 24 0; field = update (λ _. 0) 10 1 }

abbrev call : Call
call = record { thread = 5; at_copy = []; at_destroy = [] }

abbrev scene : Scene
scene = record {
  call = call;
  entries = [];
  at_upgrade = [];
  at_new = [];
  at_old = [];
  null_used = wait;
}

abbrev live : Variables
live v = v == 10 || v == 12

-- The object goes from the root at 10 over one at 11 to the field at 12.
abbrev program : Program
program =
    (scene, root_of_root 11 10)
    ∷ (scene, assign_field 12 11 root)
    ∷ (scene, assign_null 10)
    ∷ (scene, end_root 11)
    ∷ []

program-AreAllowed : AreAllowed 16 live program
program-AreAllowed = (
  (omega arith, refl),
  (((omega arith, refl), of_root), ((omega arith, refl), ((omega arith, refl), tt))),
)

run_all-IsCounted_example :
    Lands (λ w' u. IsCounted 16 (live_after_all program live) 1 w') (run_all program world)
unfolding total new_handle
run_all-IsCounted_example =
    run_all-IsCounted 1 16 (omega arith) (omega arith) program live world program-AreAllowed refl

run_all-returns_example :
    (w' : World) × (run_all program world ≡ (w', done tt))
    × IsCounted 16 (live_after_all program live) 1 w'
unfolding total new_handle
run_all-returns_example =
    run_all-returns 1 16 (omega arith) (omega arith) program live world program-AreAllowed
      (tt, refl, (of_root, refl, (tt, refl, (tt, refl, tt))))
      (λ n. (omega arith, λ t. refl, omega arith)) refl

copy_assign-leaks_example :
    (w' : World) × (RootHandle.copy_assign call 10 11 world ≡ (w', done tt))
    × ((v : ℕ) → w'.field v ≡ world.field v)
    × (roots w' (world.field 10) ≡ total (bit (world.field 10)) 16 (held live w'.field) + 1)
unfolding total new_handle
copy_assign-leaks_example =
    copy_assign-leaks call 10 11 16 live world (λ e. omega (arith, e)) (omega arith) (omega arith)
      refl

move_assign-flags_held_example :
    (w' : World) × (Field.move_assign scene scene
        (record { this = 100; slot = 10 })
        (record { this = 101; slot = 12 })
        world
      ≡ (w', done tt))
    × (w'.field 12 ≡ 1)
    × (roots w' 1 ≡ 1)
    × (is_marked_garbage (w'.heap 1) ≡ true)
unfolding new_handle lookup_object_or_get_owning_object
move_assign-flags_held_example =
    move_assign-flags_held scene scene (record { this = 100; slot = 10 })
      (record { this = 101; slot = 12 }) world (λ e. omega (arith, e)) (λ e. omega (arith, e)) refl
      refl refl (omega arith) refl refl refl refl refl
