-- ===== src/Slots.antt =====
-- `ptr_safe_container` of include/gca/gc-util.h: values at places that never move, in nodes of 64
-- slots. `takenFlags` of a node is a 64-bit word; a place is a node's index and a slot. The value
-- at a place is not modelled, but for whether it has been constructed: `destroyed` tells the places
-- whose destructor ran. Allocation of a node, which may throw, is taken to succeed.
pub mod Laws
pub mod Fresh
use Prim.Native.Nat.{bit_and, bit_or, bit_xor}
use gca.Base.{
  ℕ, zero, suc, ◌+◌, ◌-◌, ◌*◌, ◌/◌, ◌%◌, ◌^◌, Bool, true, false, not, Option, none, some, List, [],
  ◌∷◌, ◌++◌, leb, ltb, ◌==◌, if◌then◌else◌, length, get_elem?, set,
}
use gca.Base.Result.{Result, ok, throw, out_of_range, and_then}

abbrev pub capacity : ℕ
capacity = 64

abbrev pub all_taken : ℕ
all_taken = 2 ^ 64 - 1

abbrev pub has_free_slot : ℕ → Bool
has_free_slot taken = not (taken == all_taken)

-- The number of binary digits of a word below 2 ^ k: `k - countl_zero`.
unfoldable pub bit_width : ℕ → ℕ → ℕ
bit_width zero w = 0
bit_width (suc k) w = if leb (2 ^ k) w then suc k else bit_width k w

-- `64 - std::countl_zero(takenFlags)`
unfoldable pub next_free_slot : ℕ → ℕ
unfolding bit_width
next_free_slot taken = bit_width 64 taken

unfoldable pub set_slot_is_free : ℕ → ℕ → Bool → Result ℕ
set_slot_is_free taken slot is_free =
    if leb capacity slot
    then throw out_of_range
    else if is_free
    then ok (if bit_and taken (2 ^ slot) == 0 then taken else bit_xor taken (2 ^ slot))
    else ok (bit_or taken (2 ^ slot))

unfoldable pub get_slot_is_free : ℕ → ℕ → Result Bool
get_slot_is_free taken slot =
    if leb capacity slot then throw out_of_range else ok (bit_and taken (2 ^ slot) == 0)

-- The container: the `takenFlags` of its nodes, in order.
abbrev pub Nodes : Type 0
Nodes = List ℕ

-- The search from the last node back: the last node with a free slot.
unfoldable pub last_free_node : Nodes → Option ℕ
last_free_node [] = none
last_free_node (n ∷ ns) = elim (last_free_node ns) [
  | some i ↦ some (suc i)
  | none ↦ if has_free_slot n then some 0 else none
]

abbrev pub flags_at : Nodes → ℕ → ℕ
flags_at [] i = 0
flags_at (n ∷ ns) zero = n
flags_at (n ∷ ns) (suc i) = flags_at ns i

-- The rest of `GetNextWritable`, once node `i` is chosen.
unfoldable pub take_slot : Nodes → ℕ → Result (Nodes × ℕ × ℕ)
unfolding next_free_slot set_slot_is_free
take_slot nodes i =
    let slot = next_free_slot (flags_at nodes i) in
    and_then (set_slot_is_free (flags_at nodes i) slot false) (λ n. ok (set nodes i n, i, slot))

-- `GetNextWritable`, and so `GetNextUninitialized`: the place of the value.
unfoldable pub get_next_writable : Nodes → Result (Nodes × ℕ × ℕ)
unfolding last_free_node take_slot
get_next_writable nodes = elim (last_free_node nodes) [
  | some i ↦ take_slot nodes i
  | none ↦ take_slot (nodes ++ 0 ∷ []) (length nodes)
]

-- `RemoveAt`: the nodes, and the place whose value is destroyed. `none` is an access out of range.
unfoldable pub remove_at : Nodes → ℕ → Option (Nodes × Option ℕ)
unfolding get_slot_is_free set_slot_is_free
remove_at nodes pos = elim (get_elem? nodes (pos / capacity)) [
  | none ↦ none
  | some taken ↦ elim (get_slot_is_free taken (pos % capacity)) [
    | throw _ ↦ none
    | ok free ↦
        if free then some (nodes, none) else elim (set_slot_is_free taken (pos % capacity) true) [
          | throw _ ↦ none
          | ok n ↦ some (set nodes (pos / capacity) n, some pos)
        ]
  ]
]

-- `Remove` of a pointer to the value at node `i` and `slot`: it goes on only where the slot is free.
unfoldable pub remove : Nodes → ℕ → ℕ → Result (Nodes × Option (ℕ × ℕ))
unfolding get_slot_is_free set_slot_is_free
remove nodes i slot = and_then (get_slot_is_free (flags_at nodes i) slot) λ free.
    if not free
    then ok (nodes, none)
    else and_then (set_slot_is_free (flags_at nodes i) slot true)
        λ n. ok (set nodes i n, some (i, slot))

-- `GetNextUninitialized`
abbrev pub get_next_uninitialized : Nodes → Result (Nodes × ℕ × ℕ)
get_next_uninitialized = get_next_writable

-- `DestroyNode`: the slots whose values are destroyed, from `slot` on.
unfoldable pub destroy_node : (left slot taken : ℕ) → List ℕ
unfolding get_slot_is_free
destroy_node zero slot taken = []
destroy_node (suc left) slot taken =
    let rest = destroy_node left (suc slot) taken in
    elim (get_slot_is_free taken slot) [ ok true ↦ rest | _ ↦ slot ∷ rest ]

-- `~ptr_safe_container`: the slots that are destroyed, by node
unfoldable pub destroy_container : Nodes → List (List ℕ)
unfolding destroy_node
destroy_container [] = []
destroy_container (n ∷ ns) = destroy_node capacity 0 n ∷ destroy_container ns
