-- ===== src/Registration/Examples.antt =====
-- Registering an object in an empty collector, and in one whose handles cannot grow.
use gca.Base.{◌^◌, ◌≡◌, refl, none, some, [], ◌∷◌, arith}
use gca.Base.Family.{update}
use gca.Base.Result.{out_of_range}
use gca.Page.{Span}
use gca.World.{World, empty_world}
use gca.Registration.{register_object}
use gca.Registration.Refines.{IsRegistry, objects, register_object-refines}
use gca.Registration.Laws.{Registered, register_object-Registered, register_object-unchanged}

abbrev span : Span
span = record { address = 8192; size = 16 }

register_object-Registered_example :
    (empty_world.lookup 8192 ≡ 0)
    × Registered empty_world (register_object span 0 empty_world).0 span 1
unfolding register_object
register_object-Registered_example = register_object-Registered span 0 empty_world 1 refl

abbrev last_slot_taken : World
last_slot_taken = record empty_world { handles = 2 ^ 63 ∷ [] }

register_object-unchanged_example : (register_object span 0 last_slot_taken).0 ≡ last_slot_taken
unfolding register_object
register_object-unchanged_example =
    register_object-unchanged span 0 last_slot_taken out_of_range refl

empty_world-IsRegistry : IsRegistry empty_world
empty_world-IsRegistry = record {
  filled = tt;
  placed = λ a known. absurd (omega (arith, known));
  taken = λ a known. absurd (omega (arith, known));
}

register_object-refines_example :
    IsRegistry (register_object span 0 empty_world).0
    × (objects empty_world 8192 ≡ none)
    × (objects (register_object span 0 empty_world).0
        ≡ update (objects empty_world) 8192 (some (record { size = 16; roots = 1 })))
unfolding register_object
register_object-refines_example =
    register_object-refines span 0 empty_world empty_world-IsRegistry 1 refl
