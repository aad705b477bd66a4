-- ===== src/Types.antt =====
-- `object_type` of include/gca/gc-internal.h and `gc_impl::GetOrRegisterType` of gc.cpp. Function
-- pointers and `type_info` pointers are numbers, 0 for `nullptr`; an index is a 16-bit word. The
-- second search, after the upgrade of the types lock, gives what the first gave, since no other
-- thread comes between here (RwLock/Threads.antt is about the upgrade itself).
pub mod Laws
mod Examples
use gca.Base.{
  ℕ, zero, suc, ◌+◌, ◌-◌, ◌%◌, ◌^◌, Bool, ◌&&◌, List, [], ◌∷◌, ◌++◌, length, ltb, ◌==◌,
  if◌then◌else◌,
}
use gca.Base.Result.{Result, ok, throw, out_of_range, too_many_types}

pub record ObjectType : Type 0 where
  pub size : ℕ
  pub alignment : ℕ
  pub type : ℕ
  pub destructor : ℕ
  pub get_field_count : ℕ
  pub get_field : ℕ
  pub move : ℕ

-- `operator==`; the size and the alignment are not compared.
unfoldable pub same_type : ObjectType → ObjectType → Bool
same_type a b =
    (a.destructor == b.destructor)
    && (a.move == b.move)
    && (a.get_field_count == b.get_field_count)
    && (a.get_field == b.get_field)
    && (a.type == b.type)

abbrev pub max_type_index : ℕ
max_type_index = 2 ^ 16 - 1

-- `std::ranges::find`: an index, or the length at the end.
unfoldable pub find_type : List ObjectType → ObjectType → ℕ
unfolding same_type
find_type [] ty = 0
find_type (x ∷ xs) ty = if same_type x ty then 0 else suc (find_type xs ty)

unfoldable pub get_or_register_type : List ObjectType → ObjectType → Result (List ObjectType × ℕ)
unfolding find_type
get_or_register_type types ty =
    let found = find_type types ty in
    if found == length types
    then if ltb (max_type_index + 1) (length types)
      then throw too_many_types
      else ok (types ++ ty ∷ [], length types % 2 ^ 16)
    else if ltb max_type_index found
    then throw out_of_range
    else ok (types, found)
