-- ===== src/Defragment.antt =====
-- `gc_impl::DefragmentOnPage`, `RelocateObject`, `GetHandleForObjectAllocation` and
-- `TryGetHandleForObjectAllocation` of gc.cpp: the objects of a page move towards its beginning.
-- `lookup` is `allocationToHandleLookup`, 0 where an address has no handle, and `moved` lists the
-- calls of the types' move functions, the last first. `begin` is the address of the page's memory.
pub mod Laws
mod Examples
use gca.Base.{
  ℕ, zero, suc, ◌+◌, ◌-◌, ◌*◌, ◌/◌, ◌%◌, ◌^◌, Bool, true, false, not, ◌&&◌, Option, none, some,
  List, [], ◌∷◌, ◌++◌, ◌==◌, leb, if◌then◌else◌,
}
use gca.Base.Family.{update}
use gca.Base.Result.{Error, Result, ok, throw, library_bug}
use gca.Bits
use gca.Bits.{has_flag}
use gca.RwLock.{RwLock, try_acquire_write, release}
use gca.Handle.{Handle, Heap, flag_or, on_handle}
use gca.Types.{ObjectType}
use gca.Page.{u16, u64, sub64, Entry, entry, get_alignment_correction}

pub record Objects : Type 0 where
  pub heap : Heap
  pub lookup : ℕ → ℕ
  pub moved : List (ℕ × ℕ)

unfoldable pub try_get_handle : Objects → ℕ → Option ℕ
try_get_handle o address = let found = o.lookup address in if found == 0 then none else some found

unfoldable pub get_handle : Objects → ℕ → Result ℕ
unfolding try_get_handle
get_handle o address = elim (try_get_handle o address) [ none ↦ throw library_bug | some n ↦ ok n ]

-- The calls of `move` for the elements of an array, the last first.
unfoldable pub moves : (from to size count : ℕ) → List (ℕ × ℕ)
moves from to size zero = []
moves from to size (suc i) = (u64 (from + i * size), u64 (to + i * size)) ∷ moves from to size i

-- `erase` of the old address, then `insert` of the new one, which keeps an entry that is there
unfoldable pub rekey : (ℕ → ℕ) → (old new n : ℕ) → ℕ → ℕ
rekey lookup old new n =
    let erased = update lookup old 0 in if erased new == 0 then update erased new n else erased

unfoldable pub relocate_object :
    (begin n : ℕ) (type : ObjectType) (allocation : Entry) (new_location : ℕ)
    → Objects
    → Objects × Entry
unfolding rekey moves has_flag
relocate_object begin n type allocation new_location o =
    let h = o.heap n in
    let skipped =
      flag_or false (has_flag h.flags (Bits.uninitialized + Bits.initialization_failed)) in
    let calls = moves h.address new_location type.size (h.size / type.size) in
    (
      record o {
        heap =
            on_handle o.heap n (λ k. record k { address = new_location; size = allocation.size });
        lookup = rekey o.lookup h.address new_location n;
        moved = if skipped then o.moved else calls ++ o.moved;
      },
      entry (u16 (sub64 new_location begin)) allocation.size,
    )

-- One turn of the loop, for the object with handle `n`: it moves if the gap before it is wide
-- enough and its lock can be taken; the lock is released again.
unfoldable pub settle :
    (t : ℕ) (types : ℕ → ObjectType) (begin last n : ℕ) → Entry → Objects → Objects × Entry
unfolding relocate_object get_alignment_correction has_flag try_acquire_write release
settle t types begin last n e o =
    let h = o.heap n in
    let type = types h.object_type in
    let target = u64 (last + get_alignment_correction last type.alignment) in
    let (l, acquired) = try_acquire_write t h.object_lock in
    let locked = record o { heap = on_handle o.heap n (λ k. record k { object_lock = l }) } in
    let (o', e') = relocate_object begin n type e target locked in
    let unlocked = record o' {
      heap = on_handle o'.heap n (λ k. record k { object_lock = release t k.object_lock });
    } in
    if flag_or false (has_flag h.flags Bits.immovable)
    then (o, e)
    else if not (leb type.size (sub64 h.address target))
    then (o, e)
    else if acquired
    then (unlocked, e')
    else (o, e)

-- The loop of `DefragmentOnPage`; `last` is `lastAllocationEnd`. An error ends it.
unfoldable pub defragment_from :
    (t : ℕ) (types : ℕ → ObjectType) (begin last : ℕ)
    → List Entry
    → Objects
    → Objects × List Entry × Option Error
unfolding get_handle settle
defragment_from t types begin last [] o = (o, [], none)
defragment_from t types begin last (e ∷ es) o = elim (get_handle o (u64 (begin + e.offset))) [
  | throw err ↦ (o, e ∷ es, some err)
  | ok n ↦
      let (o', e') = settle t types begin last n e o in
      let (o'', es', end) =
        defragment_from t types begin (u64 (begin + e'.offset + e'.size)) es o' in
      (o'', e' ∷ es', end)
]

unfoldable pub defragment_on_page :
    (t : ℕ) (types : ℕ → ObjectType) (begin : ℕ)
    → List Entry
    → Objects
    → Objects × List Entry × Option Error
unfolding defragment_from
defragment_on_page t types begin es o = defragment_from t types begin begin es o
