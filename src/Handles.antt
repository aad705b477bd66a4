-- ===== src/Handles.antt =====
-- What the handles of include/gca/gc.h share. A handle is a variable that keeps a pointer to an
-- internal handle; variables are cells of memory, by address, as the fields of objects are. The
-- functions `Copy` and `Destroy` of gc.cpp change the header of the object behind the pointer. Where
-- they throw or still wait the state is given as it was before the call.
pub mod RootHandle
pub mod Pin
pub mod Field
pub mod Counts
pub mod Invariant
pub mod Programs
pub mod Returns
pub mod Flaws
pub mod Moves
mod Examples
use gca.Base.{ℕ, Option, none, some, List, ◌==◌, if◌then◌else◌}
use gca.Base.Family.{update}
use gca.RwLock.{Interference}
use gca.Handle.{Handle}
use gca.Roles.{Role, Answer, done, raises, waits, copy, destroy}
use gca.World.{World, M, ◌>>=◌, modify, on_world, change_handle}

-- A call: its thread, and what others do to an object's lock while a copy or the destruction of a
-- handle spins for it.
pub record Call : Type 0 where
  pub thread : ℕ
  pub at_copy : List Interference
  pub at_destroy : List Interference

abbrev pub read : (variable : ℕ) → M ℕ
read variable w = (w, done (w.field variable))

abbrev pub write : (variable value : ℕ) → M (Unit {0})
write variable value = modify (λ w. record w { field = update w.field variable value })

-- A pointer to an internal handle, null for 0
abbrev pub pointer : World → (handle : ℕ) → Option Handle
pointer w handle = if handle == 0 then none else some (w.heap handle)

abbrev pub with_object : World → (handle : ℕ) → Option Handle → World
with_object w handle none = w
with_object w handle (some h) = change_handle handle (λ _. h) w

abbrev pub after_copy : World → (handle : ℕ) → Answer (Option Handle) → World × Answer ℕ
after_copy w handle (done o) = (with_object w handle o, done handle)
after_copy w handle (raises e) = (w, raises e)
after_copy w handle waits = (w, waits)

abbrev pub after_destroy : World → (handle : ℕ) → Answer (Option Handle) → World × Answer (Unit {0})
after_destroy w handle (done o) = (with_object w handle o, done tt)
after_destroy w handle (raises e) = (w, raises e)
after_destroy w handle waits = (w, waits)

-- `internal::Copy`, which gives the same pointer in another role
unfoldable pub copy_handle : Call → (handle : ℕ) → (src_role dst_role : Role) → M ℕ
unfolding copy
copy_handle c handle src_role dst_role w =
    after_copy w handle (copy c.thread c.at_copy (pointer w handle) src_role dst_role)

-- `internal::Destroy`
unfoldable pub destroy_handle : Call → (handle : ℕ) → Role → M (Unit {0})
unfolding destroy
destroy_handle c handle role w =
    after_destroy w handle (destroy c.thread c.at_destroy (pointer w handle) role)

-- A variable is constructed from a copy of another variable's handle.
unfoldable pub construct_from : Call → (this other : ℕ) → (src_role dst_role : Role) → M (Unit {0})
unfolding copy_handle
construct_from c this other src_role dst_role =
    read other >>= λ handle. copy_handle c handle src_role dst_role >>= write this

-- `if (handle != nullptr) { Destroy(handle, role); }`
unfoldable pub destroy_unless_null : Call → (handle : ℕ) → Role → M (Unit {0})
unfolding destroy_handle
destroy_unless_null c handle role w =
    if handle == 0 then (w, done tt) else destroy_handle c handle role w
