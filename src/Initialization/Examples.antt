-- ===== src/Initialization/Examples.antt =====
-- A new object with a constructor that throws, and with one that returns.
use gca.Base.{ℕ, ◌≡◌, refl, true, false, ◌||◌, [], arith}
use gca.Base.Result.{bad_alloc}
use gca.Handle.{new_handle, is_marked_garbage}
use gca.Roles.{done, raises, try_acquire_initialize_right}
use gca.World.{World, empty_world, pure, fail}
use gca.Handles.{Call}
use gca.Initialization.{initialize, hold_and_initialize}
use gca.Initialization.Once.{initialize-once, is_failed, raised}
use gca.Initialization.Steps.{IsNew}
use gca.Initialization.Unwinding.{hold_and_initialize-throws}
use gca.Initialization.Holding.{hold_and_initialize-returns}

abbrev world : World
world = record empty_world { heap = λ _. new_handle 4096 64 0 }

initialize-once_example :
    ((initialize 1 (λ _. pure tt) (initialize 1 (λ _. fail bad_alloc) world).0).1 ≡ done false)
    × ((m : ℕ)
        → (initialize 1 (λ _. pure tt) (initialize 1 (λ _. fail bad_alloc) world).0).0.heap m
          ≡ (initialize 1 (λ _. fail bad_alloc) world).0.heap m)
    × (is_failed (initialize 1 (λ _. fail bad_alloc) world).0 1
        ≡ is_failed world 1 || raised (initialize 1 (λ _. fail bad_alloc) world).1)
unfolding new_handle
initialize-once_example =
    initialize-once 1 (λ _. fail bad_alloc) (λ _. pure tt) world (omega arith) (λ a w. refl)

abbrev call : Call
call = record { thread = 5; at_copy = []; at_destroy = [] }

world-IsNew : IsNew (world.heap 1)
unfolding new_handle
world-IsNew = (refl, refl, refl, λ t. refl)

hold_and_initialize-throws_example :
    (w' : World) × (hold_and_initialize call 10 11 1 (λ m. initialize m (λ _. fail bad_alloc)) world
      ≡ (w', raises bad_alloc))
    × ((w'.heap 1).root_handle_count ≡ 0)
    × (is_marked_garbage (w'.heap 1) ≡ true)
unfolding new_handle try_acquire_initialize_right
hold_and_initialize-throws_example =
    hold_and_initialize-throws call 10 11 1 (λ _. fail bad_alloc) bad_alloc world (omega arith)
      (λ e. omega (arith, e)) refl refl world-IsNew refl (λ a v. refl) (λ a w. (refl, refl, refl))

hold_and_initialize-returns_example :
    (w' : World) × (hold_and_initialize call 10 11 1 (λ m. initialize m (λ _. pure tt)) world
      ≡ (w', done tt))
    × (w'.field 10 ≡ 1)
    × (w'.heap 1
        ≡ record (world.heap 1) { flags = (try_acquire_initialize_right (world.heap 1)).0.flags })
unfolding new_handle try_acquire_initialize_right
hold_and_initialize-returns_example =
    hold_and_initialize-returns call 10 11 1 (λ _. pure tt) world (omega arith)
      (λ e. omega (arith, e)) refl refl world-IsNew refl (λ a v. refl) (λ a w. (refl, refl, refl))
