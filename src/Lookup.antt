-- ===== src/Lookup.antt =====
-- `LookupObject`, `GetOwningObject`, `LookupObjectOrGetOwningObject`, `GetMemberCount`, `GetType` and
-- `Equals` of namespace `gc::internal` in gc.cpp. Pointers are numbers, 0 for `nullptr`; `entries` is
-- `allocationToHandleLookup` in the order of its iteration, an address and a handle in each place.
pub mod Laws
use gca.Base.{
  ℕ, ◌+◌, ◌/◌, Bool, true, false, ◌&&◌, Option, none, some, List, [], ◌∷◌, ◌==◌, leb, if◌then◌else◌,
  get_elem?,
}
use gca.Handle.{Handle, Heap}
use gca.Types.{ObjectType}

-- `find` on the map: 0 if the address has no entry.
unfoldable pub find_handle : List (ℕ × ℕ) → ℕ → ℕ
find_handle [] address = 0
find_handle ((a, n) ∷ rest) address =
    let later = find_handle rest address in if a == address then n else later

unfoldable pub lookup_object : List (ℕ × ℕ) → ℕ → ℕ
unfolding find_handle
lookup_object entries obj = if obj == 0 then 0 else find_handle entries obj

-- The test of `GetOwningObject`: both ends of the allocation count.
unfoldable pub owns : Handle → ℕ → Bool
owns h obj = leb h.address obj && leb obj (h.address + h.size)

unfoldable pub get_owning_object : Heap → List (ℕ × ℕ) → ℕ → ℕ
unfolding owns
get_owning_object heap [] obj = 0
get_owning_object heap ((a, n) ∷ rest) obj =
    let later = get_owning_object heap rest obj in if owns (heap n) obj then n else later

unfoldable pub lookup_object_or_get_owning_object : Heap → List (ℕ × ℕ) → ℕ → ℕ
unfolding lookup_object get_owning_object
lookup_object_or_get_owning_object heap entries obj =
    let found = lookup_object entries obj in
    if found == 0 then get_owning_object heap entries obj else found

unfoldable pub get_type : List ObjectType → Option Handle → ℕ
get_type types none = 0
get_type types (some h) = elim (get_elem? types h.object_type) [ none ↦ 0 | some ty ↦ ty.type ]

-- The index of an object's type is one that was registered; 0 stands for an index that was not.
unfoldable pub get_member_count : List ObjectType → Option Handle → ℕ
get_member_count types none = 0
get_member_count types (some h) = elim (get_elem? types h.object_type) [
  | none ↦ 0
  | some ty ↦ h.size / ty.size
]
