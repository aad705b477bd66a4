-- ===== src/Initialization.antt =====
-- `Initialize`, `InitializeArray`, `New` and `NewArray` of include/gca/gc.h, with `New` of namespace
-- `gc::internal` in gc.cpp. The constructors that users give are arguments, operations that may throw.
-- An instance is the handle of a pin for writing, which is not null.
pub mod Once
pub mod Steps
pub mod Unwinding
pub mod Holding
mod Examples
use gca.Base.{ℕ, zero, suc, ◌+◌, ◌*◌, Bool, true, false, some, if◌then◌else◌}
use gca.Roles.{
  Answer, done, raises, waits, rw_pin, try_acquire_initialize_right, set_initialization_failed,
}
use gca.Types.{ObjectType}
use gca.Lookup.{get_member_count}
use gca.World.{World, M, pure, ◌>>=◌, ◌>>◌, fail, on_world, on_error, change_handle}
use gca.Destruction.{Env}
use gca.Allocation.{Memory, allocate}
use gca.Handles.{Call, read}
use gca.Handles.RootHandle
use gca.Handles.Pin

unfoldable pub acquire_right : (instance : ℕ) → M Bool
unfolding try_acquire_initialize_right
acquire_right n w =
    let (h, right) = try_acquire_initialize_right (w.heap n) in
    (change_handle n (λ _. h) w, done right)

abbrev pub mark_failed : (instance : ℕ) → World → World
unfolding set_initialization_failed
mark_failed n = change_handle n set_initialization_failed

-- What `Initialize` and `InitializeArray` share: the right, and the handler of exceptions.
unfoldable pub with_right : (instance : ℕ) → M (Unit {0}) → M Bool
unfolding acquire_right
with_right n body = acquire_right n >>= λ right.
    λ w. if right then (on_error (mark_failed n) body >> pure true) w else (w, done false)

unfoldable pub initialize : (instance : ℕ) → (construct : ℕ → M (Unit {0})) → M Bool
unfolding with_right
initialize n construct = with_right n (on_world λ w. construct (w.heap n).address)

-- The loop over the members from index `i` on
unfoldable pub for_members :
    (init_member : (member index : ℕ) → M (Unit {0})) → (begin size left i : ℕ) → M (Unit {0})
for_members init_member begin size zero i = pure tt
for_members init_member begin size (suc left) i =
    init_member (begin + i * size) i >> for_members init_member begin size left (suc i)

unfoldable pub initialize_array :
    (instance size : ℕ) → (init_member : (member index : ℕ) → M (Unit {0})) → M Bool
unfolding with_right for_members get_member_count
initialize_array n size init_member = with_right n (
    on_world λ w.
      for_members init_member (w.heap n).address size (get_member_count w.types (some (w.heap n)))
        0)

-- A destructor that runs where the scope is left, and one that runs only where it is left by an
-- exception.
abbrev left_scope : {A : Type 0} → M (Unit {0}) → World → Answer A → World × Answer A
left_scope destruct w (done a) = (destruct >> pure a) w
left_scope destruct w (raises e) = (destruct >> fail e) w
left_scope destruct w waits = (w, waits)

abbrev unwound : {A : Type 0} → M (Unit {0}) → World → Answer A → World × Answer A
unwound destruct w (done a) = (w, done a)
unwound destruct w (raises e) = (destruct >> fail e) w
unwound destruct w waits = (w, waits)

-- The pin that `RWPin` makes for the initialisation, in the variable `pin`
unfoldable pub with_pin : Call → (this pin : ℕ) → (ℕ → M Bool) → M Bool
unfolding Pin.of_root Pin.destruct
with_pin c this pin body = Pin.of_root c pin this rw_pin >> λ w.
    left_scope (Pin.destruct c pin rw_pin) ((read pin >>= body) w).0 ((read pin >>= body) w).1

-- `New` and `NewArray` once the object is allocated: the root handle is in the variable `this`.
unfoldable pub hold_and_initialize : Call → (this pin n : ℕ) → (ℕ → M Bool) → M (Unit {0})
unfolding RootHandle.adopt RootHandle.destruct with_pin
hold_and_initialize c this pin n body = RootHandle.adopt c this n >> λ w.
    unwound (RootHandle.destruct c this) ((with_pin c this pin body >>= λ _. pure tt) w).0
      ((with_pin c this pin body >>= λ _. pure tt) w).1

unfoldable pub new_with :
    Memory → Env → Call → ObjectType → (count this pin : ℕ) → (ℕ → M Bool) → M (Unit {0})
unfolding allocate hold_and_initialize
new_with mem env c ty count this pin body =
    allocate mem env ty count >>= λ n. hold_and_initialize c this pin n body

unfoldable pub new :
    Memory
    → Env
    → Call
    → ObjectType
    → (this pin : ℕ) → (construct : ℕ → M (Unit {0})) → M (Unit {0})
unfolding new_with initialize
new mem env c ty this pin construct = new_with mem env c ty 1 this pin (λ n. initialize n construct)

unfoldable pub new_array :
    Memory
    → Env
    → Call
    → ObjectType
    → (count this pin : ℕ) → (init_member : (member index : ℕ) → M (Unit {0})) → M (Unit {0})
unfolding new_with initialize_array
new_array mem env c ty count this pin init_member =
    new_with mem env c ty count this pin (λ n. initialize_array n ty.size init_member)
