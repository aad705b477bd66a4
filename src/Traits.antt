-- ===== src/Traits.antt =====
-- `gc_object_traits` of include/gca/gc.h with the default functions, and the type that `Allocate` and
-- `AllocateArray` give for an object. Functions are numbers, 0 for `nullptr`.
pub mod Laws
mod Examples
use gca.Base.{ℕ, Bool, Option, none, some, if◌then◌else◌}
use gca.Types.{ObjectType}

-- What the compiler knows of a class, with the instances of the default functions for it
pub record Class : Type 0 where
  pub size : ℕ
  pub alignment : ℕ
  pub type : ℕ
  pub is_nothrow_move_constructible : Bool
  pub default_move_for_movable : ℕ
  pub default_destroy : ℕ
  pub default_get_field_count : ℕ
  pub default_get_field : ℕ

-- What the user's traits define
pub record Traits : Type 0 where
  pub destructor : Option ℕ
  pub get_field_count : Option ℕ
  pub get_field : Option ℕ
  pub move : Option ℕ

-- `GetDefaultMoveFn`
unfoldable pub get_default_move_fn : Class → ℕ
get_default_move_fn c = if c.is_nothrow_move_constructible then c.default_move_for_movable else 0

unfoldable pub choose_get_field_count : Class → Traits → ℕ
choose_get_field_count c t = elim t.get_field_count [
  | none ↦ c.default_get_field_count
  | some f ↦ f
]

unfoldable pub choose_get_field : Class → Traits → ℕ
choose_get_field c t = elim t.get_field [ none ↦ c.default_get_field | some f ↦ f ]

unfoldable pub choose_move : Class → Traits → ℕ
unfolding get_default_move_fn
choose_move c t = elim t.move [ none ↦ get_default_move_fn c | some f ↦ f ]

unfoldable pub choose_destructor : Class → Traits → ℕ
choose_destructor c t = elim t.destructor [ none ↦ c.default_destroy | some f ↦ f ]

-- The type that `Allocate` and `AllocateArray` hand over
unfoldable pub object_type : Class → Traits → ObjectType
unfolding choose_get_field_count choose_get_field choose_move choose_destructor
object_type c t = record {
  size = c.size;
  alignment = c.alignment;
  type = c.type;
  destructor = choose_destructor c t;
  get_field_count = choose_get_field_count c t;
  get_field = choose_get_field c t;
  move = choose_move c t;
}
