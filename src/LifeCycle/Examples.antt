-- ===== src/LifeCycle/Examples.antt =====
-- Two calls of `Init` and one of `Destroy`, and an object with two fields.
use gca.Base.{◌+◌, refl, none, [], ◌∷◌, arith}
use gca.Handle.{new_handle}
use gca.Types.{ObjectType}
use gca.World.{World, empty_world}
use gca.Destruction.{Env}
use gca.LifeCycle.{Globals, init, destroy}
use gca.LifeCycle.Laws.{IsBalanced, start, inits, destroys, Reachable-IsBalanced}

abbrev env : Env
env = record {
  thread = 1;
  fields = λ ty object. object ∷ (object + 8) ∷ [];
  others = [];
  depth = 3;
}

abbrev unused_globals : Globals
unused_globals = record { init_count = 0; impl = none; assertion_failure_handler = 1 }

Reachable-IsBalanced_example : IsBalanced 1 (destroy env (init (init unused_globals).0).0).0
unfolding init destroy
Reachable-IsBalanced_example = Reachable-IsBalanced env (
    destroys refl
      (inits (omega arith) (inits (omega arith) (start {g = unused_globals} refl refl))))

abbrev sixteen_bytes : ObjectType
sixteen_bytes = record {
  size = 16;
  alignment = 8;
  type = 1;
  destructor = 1;
  get_field_count = 2;
  get_field = 3;
  move = 4;
}

-- An array of two elements, all of whose fields point to the object itself.
abbrev array : World
array = record empty_world {
  heap = λ n. record (new_handle 8192 32 0) { referenced_by = 1 ∷ 1 ∷ 1 ∷ 1 ∷ [] };
  field = λ a. 1;
  types = sixteen_bytes ∷ [];
}
