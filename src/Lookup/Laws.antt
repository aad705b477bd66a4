-- ===== src/Lookup/Laws.antt =====
-- The owner of an address inside an object, and of the address right behind one.
use gca.Base.{ℕ, ◌+◌, ◌≤◌, ◌<◌, ◌≡◌, refl, subst, ◌⊎◌, inl, inr, List, [], ◌∷◌, All, arith}
use gca.Handle.{Heap}
use gca.Lookup.{
  find_handle, lookup_object, owns, get_owning_object, lookup_object_or_get_owning_object,
}

-- Every handle of the map is not null, is found at its own address, and the objects lie apart,
-- with at least one byte between an object's end and the next object's beginning.
abbrev pub ApartFrom : Heap → ℕ → ℕ × ℕ → Type 0
ApartFrom heap n (a, k) =
    ((heap n).address + (heap n).size < (heap k).address)
    ⊎ ((heap k).address + (heap k).size < (heap n).address)

abbrev pub IsRegistry : Heap → List (ℕ × ℕ) → Type 0
IsRegistry heap [] = Unit {0}
IsRegistry heap ((a, n) ∷ rest) =
    (0 < n) × ((heap n).address ≡ a) × All (ApartFrom heap n) rest × IsRegistry heap rest

abbrev pub IsRegistered : ℕ → List (ℕ × ℕ) → Type 0
IsRegistered n [] = ⊥
IsRegistered n ((a, k) ∷ rest) = (k ≡ n) ⊎ IsRegistered n rest

apart_registered :
    (heap : Heap) (n k : ℕ) (rest : List (ℕ × ℕ))
    → All (ApartFrom heap n) rest
    → IsRegistered k rest
    → ((heap n).address + (heap n).size < (heap k).address)
      ⊎ ((heap k).address + (heap k).size < (heap n).address)
apart_registered heap n k [] h m = absurd m
apart_registered heap n k ((a, l) ∷ rest) h (inl e) = rw (← e) h.0
apart_registered heap n k ((a, l) ∷ rest) h (inr m) = apart_registered heap n k rest h.1 m

owning_lem :
    (heap : Heap) (entries : List (ℕ × ℕ)) (n obj : ℕ)
    → IsRegistry heap entries
    → IsRegistered n entries
    → (heap n).address ≤ obj
    → obj ≤ (heap n).address + (heap n).size
    → get_owning_object heap entries obj ≡ n
unfolding get_owning_object owns
owning_lem heap [] n obj reg m h k = absurd m
owning_lem heap ((a, l) ∷ rest) n obj reg (inl e) h k = rw e (ground arith)
owning_lem heap ((a, l) ∷ rest) n obj reg (inr m) h k =
    ground (arith, apart_registered heap l n rest reg.2 m, owning_lem heap rest n obj reg.3 m h k)

not_found :
    (heap : Heap) (rest : List (ℕ × ℕ)) (n obj : ℕ)
    → IsRegistry heap rest
    → All (ApartFrom heap n) rest
    → (heap n).address ≤ obj
    → obj ≤ (heap n).address + (heap n).size
    → find_handle rest obj ≡ 0
unfolding find_handle
not_found heap [] n obj reg far h k = refl
not_found heap ((a, l) ∷ rest) n obj reg far h k =
    let place = reg.1 in
    let first = far.0 in ground (arith, place, first, not_found heap rest n obj reg.3 far.1 h k)

found_here :
    (heap : Heap) (entries : List (ℕ × ℕ)) (n obj : ℕ)
    → IsRegistry heap entries
    → IsRegistered n entries
    → (heap n).address ≤ obj
    → obj ≤ (heap n).address + (heap n).size
    → (find_handle entries obj ≡ 0) ⊎ (find_handle entries obj ≡ n)
unfolding find_handle
found_here heap [] n obj reg m h k = absurd m
found_here heap ((a, l) ∷ rest) n obj reg (inl e) h k =
    let far : All (ApartFrom heap n) rest = subst (λ x. All (ApartFrom heap x) rest) e reg.2 in
    ground (arith, e, not_found heap rest n obj reg.3 far h k)
found_here heap ((a, l) ∷ rest) n obj reg (inr m) h k =
    let place = reg.1 in
    ground
      (arith, place, apart_registered heap l n rest reg.2 m, found_here heap rest n obj reg.3 m h k)

-- Where the objects lie apart with a byte between them, every address of a registered object, from
-- its first to the one behind its last, leads to that object's handle, whatever order the map
-- has.
pub lookup_object_or_get_owning_object_lem :
    (heap : Heap) (entries : List (ℕ × ℕ)) (n obj : ℕ)
    → IsRegistry heap entries
    → IsRegistered n entries
    → (heap n).address ≤ obj
    → obj ≤ (heap n).address + (heap n).size
    → lookup_object_or_get_owning_object heap entries obj ≡ n
unfolding lookup_object_or_get_owning_object lookup_object
lookup_object_or_get_owning_object_lem heap entries n obj reg m h k =
    ground (arith, owning_lem heap entries n obj reg m h k, found_here heap entries n obj reg m h k)
