-- ===== src/Types/Examples.antt =====
-- Registering a type where one is registered already.
use gca.Base.{ℕ, ◌≡◌, List, [], ◌∷◌, arith}
use gca.Base.Result.{ok}
use gca.Types.{ObjectType, get_or_register_type}
use gca.Types.Laws.{Registered, get_or_register_type-Registered}

abbrev object_type : ℕ → ObjectType
object_type n = record {
  size = 8;
  alignment = 8;
  type = n;
  destructor = 1;
  get_field_count = 2;
  get_field = 3;
  move = 4;
}

get_or_register_type-Registered_example :
    (types' : List ObjectType) × (i : ℕ) × (get_or_register_type
        (object_type 1 ∷ [])
        (object_type 2)
      ≡ ok (types', i))
    × Registered (object_type 1 ∷ []) types' (object_type 2) i
get_or_register_type-Registered_example =
    get_or_register_type-Registered (object_type 1 ∷ []) (object_type 2) (omega arith)
