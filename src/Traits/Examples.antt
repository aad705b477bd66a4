-- ===== src/Traits/Examples.antt =====
-- A class that may throw when it is moved, with no functions of its own.
use gca.Base.{◌≡◌, refl, false, none, List, [], ◌∷◌}
use gca.Types.{ObjectType}
use gca.Page.{Entry, Span}
use gca.Defragment.{Objects, settle}
use gca.Destruction.{type_at}
use gca.Registration.{registered_handle}
use gca.Traits.{Class, Traits, object_type}
use gca.Traits.Laws.{registered, initialising, settle-object_type}
use gca.Handle.{Handle}
use gca.Roles.{try_acquire_initialize_right}

abbrev class : Class
class = record {
  size = 24;
  alignment = 8;
  type = 7;
  is_nothrow_move_constructible = false;
  default_move_for_movable = 1;
  default_destroy = 2;
  default_get_field_count = 3;
  default_get_field = 4;
}

abbrev no_traits : Traits
no_traits = record { destructor = none; get_field_count = none; get_field = none; move = none }

abbrev types : List ObjectType
types = object_type class no_traits ∷ []

abbrev span : Span
span = record { address = 8240; size = 24 }

abbrev entry : Entry
entry = record { offset = 48; size = 24 }

-- The object after it was initialised
abbrev initialised : Handle
initialised = (try_acquire_initialize_right (registered_handle types span 0)).0

abbrev objects : Objects
objects = record { heap = λ _. initialised; lookup = λ _. 1; moved = [] }

settle-object_type_example : settle 5 (type_at types) 8192 8192 1 entry objects ≡ (objects, entry)
settle-object_type_example =
    settle-object_type class no_traits types 0 span 5 8192 8192 1 entry objects types refl refl refl
      (initialising registered)
