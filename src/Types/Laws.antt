-- ===== src/Types/Laws.antt =====
-- Registering types: an index leads back to its type, and is given again.
use gca.Base.{
  ℕ, zero, suc, ◌+◌, ◌≤◌, ◌<◌, ◌≡◌, refl, true, false, some, List, [], ◌∷◌, ◌++◌, length,
  length-append, get_elem?, get_elem?-append_last, ◌==◌, Bool-cases, inl, inr, arith,
}
use gca.Base.Result.{ok}
use gca.Types.{ObjectType, same_type, max_type_index, find_type, get_or_register_type}

same_type_refl : (a : ObjectType) → same_type a a ≡ true
unfolding same_type
same_type_refl a = ground arith

find_type-le : (types : List ObjectType) (ty : ObjectType) → find_type types ty ≤ length types
unfolding find_type
find_type-le [] ty = omega arith
find_type-le (x ∷ xs) ty = ground (arith, find_type-le xs ty)

rest_lt :
    (x : ObjectType) (xs : List ObjectType) (ty : ObjectType)
    → same_type x ty ≡ false
    → find_type (x ∷ xs) ty < length (x ∷ xs)
    → find_type xs ty < length xs
unfolding find_type
rest_lt x xs ty e h = ground arith

-- Where the search ends at an index, a type that compares equal stands there.
find_type-found :
    (types : List ObjectType) (ty : ObjectType)
    → find_type types ty < length types
    → (x : ObjectType) × (get_elem? types (find_type types ty) ≡ some x) × (same_type x ty ≡ true)
unfolding find_type
find_type-found [] ty h = absurd (omega arith)
find_type-found (x ∷ xs) ty h = elim (Bool-cases (same_type x ty)) [
  | inl e ↦ rw e (x, refl, e)
  | inr e ↦
      let (y, at, same) = find_type-found xs ty (omega (arith, rest_lt x xs ty e h)) in
      rw e (y, at, same)
]

find_type-append :
    (types : List ObjectType) (ty : ObjectType)
    → find_type types ty ≡ length types
    → find_type (types ++ ty ∷ []) ty ≡ length types
unfolding find_type
find_type-append [] ty h = rw (same_type_refl ty) refl
find_type-append (x ∷ xs) ty h = ground (arith, find_type-append xs ty)

get_elem?-append :
    {A : Type 0} (xs ys : List A) (i : ℕ) {a : A}
    → get_elem? xs i ≡ some a
    → get_elem? (xs ++ ys) i ≡ some a
get_elem?-append [] ys i h = cc
get_elem?-append (x ∷ xs) ys zero h = h
get_elem?-append (x ∷ xs) ys (suc i) h = get_elem?-append xs ys i h

again_appended :
    (types : List ObjectType) (ty : ObjectType)
    → find_type types ty ≡ length types
    → length types ≤ max_type_index
    → get_or_register_type (types ++ ty ∷ []) ty ≡ ok (types ++ ty ∷ [], length types)
unfolding get_or_register_type
again_appended types ty e h =
    ground (arith, find_type-append types ty e, length-append types (ty ∷ []))

-- What a successful registration leaves.
pub record Registered (types types' : List ObjectType) (ty : ObjectType) (i : ℕ) : Type 0 where
  pub stored : (x : ObjectType) × (get_elem? types' i ≡ some x) × (same_type x ty ≡ true)
  pub kept : (j : ℕ) {x : ObjectType} → get_elem? types j ≡ some x → get_elem? types' j ≡ some x
  pub again : get_or_register_type types' ty ≡ ok (types', i)

-- Below 65536 registered types, registering succeeds, the index leads to a type that compares
-- equal, every index that was given before leads where it did, and registering the type once more
-- gives the same index and no further type.
pub get_or_register_type-Registered :
    (types : List ObjectType) (ty : ObjectType)
    → length types ≤ max_type_index
    → (types' : List ObjectType) × (i : ℕ) × (get_or_register_type types ty ≡ ok (types', i))
      × Registered types types' ty i
unfolding get_or_register_type
get_or_register_type-Registered types ty h =
    elim (Bool-cases (find_type types ty == length types)) [
      | inl e ↦ (
        types ++ ty ∷ [],
        length types,
        ground arith,
        record {
          stored = (ty, get_elem?-append_last types ty, same_type_refl ty);
          kept = λ j p. get_elem?-append types (ty ∷ []) j p;
          again = again_appended types ty (ground arith) h;
        },
      )
      | inr e ↦ (
        types,
        find_type types ty,
        ground (arith, find_type-le types ty),
        record {
          stored = find_type-found types ty (ground (arith, find_type-le types ty));
          kept = λ j p. p;
          again = ground (arith, find_type-le types ty);
        },
      )
    ]

-- With exactly 65536 types registered the limit is not noticed: a new type is appended, and its
-- index wraps to 0.
pub get_or_register_type_wraps :
    (types : List ObjectType) (ty : ObjectType)
    → length types ≡ max_type_index + 1
    → find_type types ty ≡ length types
    → get_or_register_type types ty ≡ ok (types ++ ty ∷ [], 0)
unfolding get_or_register_type
get_or_register_type_wraps types ty h e = ground arith
