-- ===== src/Fields.antt =====
-- `internal_handle::SetField` and `internal::SetField` of gc.cpp: a field of an object is assigned,
-- and the objects it pointed to and points to learn of it in `referencedBy`. A pointer to a handle
-- is its number, 0 for `nullptr`; a pointer to a field is its number, 0 again for `nullptr`.
-- `between_new` and `between_old` are what the others do to the locks of the new and of the old
-- value while the call spins for them. That `referencedBy` grows is taken to succeed.
pub mod References
pub mod Laws
pub mod Returns
pub mod Bodies
pub mod Pinned
mod Examples
use gca.Base.{
  ℕ, zero, suc, Bool, true, false, not, ◌&&◌, Option, none, some, List, [], ◌∷◌, ◌++◌, length, set,
  ◌==◌, if◌then◌else◌,
}
use gca.Base.Family.{update}
use gca.Base.Result.{Error, bad_api_usage, library_bug}
use gca.RwLock.{
  RwLock, Interference, acquire_write, release, upgrade, down_grade,
  does_this_thread_have_rw_access,
}
use gca.Handle.{Handle, Heap, on_handle, is_marked_garbage, mark_garbage}
use gca.Roles.{Role, ro_pin, is_nil}

pub record Store : Type 0 where
  pub heap : Heap
  pub field : ℕ → ℕ

pub data Ended : Type 0 where
  finished : Ended
  raised : Error → Ended
  spinning : Ended

abbrev pub on_object : Store → ℕ → (Handle → Handle) → Store
on_object s x f = record s { heap = on_handle s.heap x f }

-- `std::ranges::find`: an index, or the length at the end.
unfoldable pub find_reference : List ℕ → ℕ → ℕ
find_reference [] x = 0
find_reference (y ∷ ys) x = let rest = find_reference ys x in if y == x then 0 else suc rest

-- `back()`, where the vector begins with the first argument
abbrev pub back : ℕ → List ℕ → ℕ
back x [] = x
back x (y ∷ ys) = back y ys

abbrev pub pop_back : List ℕ → List ℕ
pop_back [] = []
pop_back (x ∷ []) = []
pop_back (x ∷ y ∷ ys) = x ∷ pop_back (y ∷ ys)

-- `std::swap(*it, back()); pop_back()`
unfoldable pub swap_pop : List ℕ → ℕ → List ℕ
swap_pop [] i = []
swap_pop (x ∷ xs) i = pop_back (set (x ∷ xs) i (back x xs))

-- The lock once this thread has write access, which it may have had.
unfoldable pub write_access : ℕ → List Interference → RwLock → Option RwLock
unfolding does_this_thread_have_rw_access acquire_write
write_access t between l =
    let acquired = acquire_write t between l in
    if does_this_thread_have_rw_access t l then some l else acquired

-- The deferred release: only where the access was acquired here.
unfoldable pub release_acquired : ℕ → (before : RwLock) → RwLock → RwLock
unfolding does_this_thread_have_rw_access release
release_acquired t before l = if does_this_thread_have_rw_access t before then l else release t l

-- The block under `newValue != nullptr`, behind its checks.
unfoldable pub add_reference : ℕ → ℕ → RwLock → Handle → Handle
unfolding release_acquired
add_reference t this l new = record new {
  referenced_by = new.referenced_by ++ this ∷ [];
  object_lock = release_acquired t new.object_lock l;
}

-- The block under `oldValue != nullptr`, once `this` is found: the explicit release comes before
-- the deferred one.
unfoldable pub remove_reference : ℕ → ℕ → RwLock → Handle → Handle
unfolding swap_pop find_reference release_acquired mark_garbage release
remove_reference t this l old =
    let rest = swap_pop old.referenced_by (find_reference old.referenced_by this) in
    let flagged = if is_nil rest && (old.root_handle_count == 0) then mark_garbage old else old in
    record flagged {
      referenced_by = rest;
      object_lock = release_acquired t old.object_lock (release t l);
    }

-- From the block under `oldValue != nullptr` to the end.
unfoldable pub leave_old_value :
    ℕ → List Interference → (this field new : ℕ) → Store → Store × Ended
unfolding write_access remove_reference release_acquired
leave_old_value t between_old this field new s =
    let old = s.field field in
    let assign : Store → Store = λ k. record k { field = update k.field field new } in
    if old == 0
    then (assign s, finished)
    else elim (write_access t between_old (s.heap old).object_lock) [
      | none ↦ (s, spinning)
      | some l ↦
          if find_reference (s.heap old).referenced_by this == length (s.heap old).referenced_by
          then (
            on_object s old (λ h. record h { object_lock = release_acquired t h.object_lock l }),
            raised library_bug,
          )
          else (assign (on_object s old (remove_reference t this l)), finished)
    ]

unfoldable pub set_field :
    ℕ → (between_new between_old : List Interference) → (this field new : ℕ) → Store → Store × Ended
unfolding write_access add_reference leave_old_value is_marked_garbage
set_field t between_new between_old this field new s =
    let with_new = write_access t between_new (s.heap new).object_lock in
    if field == 0
    then (s, finished)
    else if s.field field == new
    then (s, finished)
    else if new == 0
    then leave_old_value t between_old this field new s
    else if is_marked_garbage (s.heap this)
    then (s, raised bad_api_usage)
    else if is_marked_garbage (s.heap new)
    then (s, raised bad_api_usage)
    else elim with_new [
      | none ↦ (s, spinning)
      | some l ↦
          leave_old_value t between_old this field new (on_object s new (add_reference t this l))
    ]
