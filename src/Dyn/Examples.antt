-- ===== src/Dyn/Examples.antt =====
-- Handles to an object at 4096, and to another that the handle 2 has.
use gca.Base.{ℕ, ◌+◌, ◌≡◌, ◌^◌, ◌<◌, ◌≤◌, refl, Bool, none, [], inr, ◌==◌, arith}
use gca.Base.Family.{update, total}
use gca.Base.Result.{ok}
use gca.Handle.{new_handle}
use gca.Roles.{root, ro_pin, done}
use gca.Roles.Counts.{of_root}
use gca.World.{World, empty_world, wait}
use gca.Tagged.{get, get_data}
use gca.Handles.{Call}
use gca.Handles.Field.{Scene}
use gca.Handles.Counts.{bit, roots}
use gca.Handles.Invariant.{held}
use gca.Dyn.{address_of, set_to}
use gca.Dyn.RootHandle
use gca.Dyn.Field
use gca.Dyn.Field.{FieldAt}
use gca.Dyn.Casts.{set_to-casts}
use gca.Dyn.Roots.{assign-moves_root, Moved}
use gca.Dyn.Flaws.{assign-leaks}

abbrev world : World
world = record empty_world { heap = λ _. new_handle 4096 64 0; field = update (λ _. 0) 10 1 }

abbrev call : Call
call = record { thread = 5; at_copy = []; at_destroy = [] }

abbrev scene : Scene
scene = record {
  call = call;
  entries = [];
  at_upgrade = [];
  at_new = [];
  at_old = [];
  null_used = wait;
}

abbrev live : ℕ → Bool
live v = v == 10

-- A field outside all objects
abbrev place : FieldAt
place = record { obj = 0; slot = 10; offset = 11 }

-- The handle 1, with the offset 8
abbrev word : ℕ
word = 0x0008_0000_0000_0001

set_to-casts_example :
    (w' : World) × (word' : ℕ) × (set_to call (λ _ address. address + 16) 0 word world
      ≡ (w', done word'))
    × (get word' ≡ get word)
    × (address_of w' word' ro_pin ≡ ok 4120)
    × ((m : ℕ) → w'.heap m ≡ world.heap m)
unfolding get get_data new_handle
set_to-casts_example =
    set_to-casts call (λ _ address. address + 16) 0 word 24 world (omega arith) (omega arith)
      (omega arith) (omega arith) (omega arith) (inr (refl, omega arith, omega arith, refl))
      (λ v. refl)

assign-moves_root_example :
    (w' : World) × (RootHandle.assign call none 10 2 root world ≡ (w', done tt))
    × ((n : ℕ)
        → 0 < n
        → roots world n + 1 < 2 ^ 64
        → bit n (get (world.field 10)) ≤ roots world n
        → Moved 10 2 (world.field 10) n world w' tt)
unfolding new_handle
assign-moves_root_example =
    assign-moves_root call 10 2 world of_root (omega arith) refl
      (λ n. (omega arith, λ t. refl, omega arith))

assign-leaks_example :
    (w' : World) × (Field.assign scene none place 2 root world ≡ (w', done tt))
    × (w'.field 10 ≡ get 2)
    × (roots w' 1 ≡ total (bit 1) 16 (held live w'.field) + 1)
unfolding get total new_handle
assign-leaks_example =
    assign-leaks scene place 2 16 live world of_root refl (omega arith) (omega arith)
      (λ e. omega (arith, e)) (omega arith) refl (omega arith) refl (omega arith) refl
