-- ===== src/Trace.antt =====
-- `gc_impl::TryFindRootFor` of gc.cpp: the search, backwards along `referencedBy`, for a root from
-- which an object can be reached. `id` is the mark bit of this collection and `t` the thread.
-- The search is recursive; `none` means that the fuel ran out, or that a bit position was out of
-- range, which ends the program, since the function is noexcept. A weak compare-exchange fails
-- here only where the word differs, and other threads do nothing during the search.
pub mod Frame
pub mod Dead
pub mod Search
pub mod Fuel
pub mod Unreachable
pub mod Flaw
pub mod Bodies
mod Examples
use gca.Base.{
  ℕ, zero, suc, ◌<◌, Bool, true, false, not, Option, none, some, List, [], ◌∷◌, ltb, if◌then◌else◌,
}
use gca.Base.Family.{update}
use gca.Base.Result.{Result, ok, throw}
use gca.Bits.{read_bit, set_bit}
use gca.RwLock.{RwLock, try_acquire_read_for, release}
use gca.RwLock.Laws.{alone}
use gca.Handle.{Handle, Heap, on_handle, is_marked_garbage, mark_garbage}

abbrev pub Outcome : Type 0
Outcome = Option (Heap × Bool)

-- `handle->markBits.ReadBit(id)`
unfoldable pub read_mark : ℕ → Handle → Option Bool
unfolding read_bit
read_mark id h = elim (read_bit h.mark_bits id) [ ok b ↦ some b | throw _ ↦ none ]

-- `handle->markBits.SetBit(id, value)`
unfoldable pub write_mark : ℕ → Bool → Handle → Option Handle
unfolding set_bit
write_mark id value h = elim (set_bit h.mark_bits id value) [
  | ok r ↦ some (record h { mark_bits = r.0 })
  | throw _ ↦ none
]

abbrev pub unlock : ℕ → Handle → Handle
unlock t h = record h { object_lock = release t h.object_lock }

-- The lambda over `referencedBy`, once the search from `r` has returned.
unfoldable pub after_visit : ℕ → ℕ → Outcome → Outcome
after_visit t r none = none
after_visit t r (some (s, found)) =
    let marked = if found then s else on_handle s r mark_garbage in
    some (on_handle marked r (unlock t), found)

-- The lambda over `referencedBy`; `find` is the recursive call.
unfoldable pub visit_referencer : (find : ℕ → Heap → Outcome) → ℕ → ℕ → Heap → Outcome
visit_referencer find t r s =
    let (lock, acquired) = try_acquire_read_for (λ _. false) 1 alone (s r).object_lock in
    if ltb 0 (s r).root_handle_count
    then some (s, true)
    else if is_marked_garbage (s r)
    then some (s, false)
    else if not acquired
    then some (s, true)
    else after_visit t r (find r (on_handle s r (λ h. record h { object_lock = lock })))

-- `std::ranges::any_of`
unfoldable pub any_of : (visit : ℕ → Heap → Outcome) → List ℕ → Heap → Outcome
any_of visit [] s = some (s, false)
any_of visit (r ∷ rs) s = elim (visit r s) [
  | none ↦ none
  | some (s', found) ↦ if found then some (s', true) else any_of visit rs s'
]

-- The mark bit is cleared again.
unfoldable pub unmark : ℕ → ℕ → Outcome → Outcome
unmark id h none = none
unmark id h (some (s, found)) = elim (write_mark id false (s h)) [
  | none ↦ none
  | some h' ↦ some (update s h h', found)
]

unfoldable pub try_find_root_for : ℕ → ℕ → ℕ → ℕ → Heap → Outcome
try_find_root_for zero t id h s = none
try_find_root_for (suc fuel) t id h s = elim (read_mark id (s h)) [
  | none ↦ none
  | some seen ↦
      if seen
      then some (s, false)
      else if ltb 0 (s h).root_handle_count
      then some (s, true)
      else if is_marked_garbage (s h)
      then some (s, false)
      else elim (write_mark id true (s h)) [
        | none ↦ none
        | some h' ↦ unmark id h (
            any_of (visit_referencer (try_find_root_for fuel t id) t) (s h).referenced_by
              (update s h h'))
      ]
]
