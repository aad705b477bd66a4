-- ===== src/LifeCycle.antt =====
-- `Init`, `Collect`, `Destroy` and `SetAssertionFailureHandler` of gc.cpp, with the constructors of
-- `gc_impl`, `~gc_impl` and `DestroyPage`. `Init` constructs the collector for its first caller, and
-- `Destroy` destroys it for the last one. Allocators are arguments elsewhere (Allocation.antt) and
-- not in the state. What other threads do to a page's lock is left out: a lock that is taken waits.
pub mod Laws
pub mod Detached
mod Examples
use gca.Base.{
  ℕ, zero, suc, ◌+◌, ◌*◌, ◌/◌, Bool, true, false, Option, none, some, List, [], ◌∷◌, length, ◌==◌,
  if◌then◌else◌,
}
use gca.Base.Family.{update}
use gca.Base.Result.{Result, ok, throw, bad_api_usage}
use gca.Mutex.{Mutex, acquire}
use gca.Handle.{Handle, new_handle}
use gca.Types.{ObjectType}
use gca.Page.{Entry, u64, sub64}
use gca.Roles.{Answer, done, raises, waits}
use gca.World.{
  World, empty_world, M, pure, ◌>>=◌, ◌>>◌, wait, modify, on_world, change_handle, change_page,
  finally,
}
use gca.Destruction.{Env, type_of, unlock, lock_for_write, destroy_object, destroy_large_object}
use gca.Collect.{handle_of, collect_on_page}
use gca.Allocation.{with_allocation_lock, release_page, defragment}

-- `scoped_mutex_lock(page.allocationLock)`: waits where the lock is taken.
abbrev pub with_page_lock : {A : Type 0} → (p : ℕ) → M A → World → Option Mutex → World × Answer A
with_page_lock p m w none = (w, waits)
with_page_lock p m w (some l) =
    finally (release_page p) m (change_page p (with_allocation_lock l) w)

unfoldable pub on_page : {A : Type 0} → (p : ℕ) → M A → M A
unfolding acquire
on_page p m w = with_page_lock p m w (acquire [] (w.page p).allocation_lock)

unfoldable pub for_each : (ℕ → M (Unit {0})) → List ℕ → M (Unit {0})
for_each f [] = pure tt
for_each f (x ∷ xs) = f x >> for_each f xs

-- The body of the loop of `Collect`
unfoldable pub visit_page : Env → (defragmenting : Bool) → (p : ℕ) → M (Unit {0})
unfolding on_page collect_on_page defragment
visit_page env defragmenting p =
    on_page p (collect_on_page env p >> (if defragmenting then defragment env p else pure tt))

-- `Collect`
unfoldable pub collect : Env → (defragmenting : Bool) → M (Unit {0})
unfolding for_each visit_page
collect env defragmenting = on_world λ w. for_each (visit_page env defragmenting) w.pages

-- `*field = nullptr`, for the fields there are
unfoldable pub clear_fields : List ℕ → World → World
clear_fields [] w = w
clear_fields (field ∷ fields) w =
    clear_fields fields (if field == 0 then w else record w { field = update w.field field 0 })

-- The elements from index `i` on
unfoldable pub clear_elements : Env → (type : ObjectType) → (begin left i : ℕ) → World → World
unfolding clear_fields
clear_elements env type begin zero i w = w
clear_elements env type begin (suc left) i w =
    clear_elements env type begin left (i + 1)
      (clear_fields (env.fields type (u64 (begin + i * type.size))) w)

abbrev pub without_references : Handle → Handle
without_references h = record h { referenced_by = [] }

-- An object loses its references in both directions, under its lock.
unfoldable pub detach : Env → (n : ℕ) → World → World
unfolding clear_elements
detach env n w =
    let type = type_of w n in
    let h = w.heap n in
    change_handle n without_references (clear_elements env type h.address (h.size / type.size) 0 w)

unfoldable pub detach_object : Env → (n : ℕ) → M (Unit {0})
unfolding lock_for_write detach unlock
detach_object env n =
    lock_for_write env.thread n >> modify (detach env n) >> modify (unlock env.thread n)

unfoldable pub detach_entries : Env → (p : ℕ) → List Entry → M (Unit {0})
unfolding detach_object
detach_entries env p [] = pure tt
detach_entries env p (e ∷ es) =
    on_world (λ w. handle_of (u64 ((w.page p).begin + e.offset)))
    >>= detach_object env
    >> detach_entries env p es

unfoldable pub detach_page : Env → (p : ℕ) → M (Unit {0})
unfolding detach_entries on_page
detach_page env p = on_page p (on_world λ w. detach_entries env p (w.page p).entries)

-- `allocations.back()`
abbrev pub last_entry : List Entry → Option Entry
last_entry [] = none
last_entry (e ∷ es) = elim (last_entry es) [ none ↦ some e | some l ↦ some l ]

-- One turn of the loop that empties a page; the lock of the object is not released.
abbrev pub empty_turn : Env → (p : ℕ) → (again : M (Unit {0})) → Option Entry → M (Unit {0})
empty_turn env p again none = pure tt
empty_turn env p again (some e) =
    on_world (λ w. handle_of (u64 ((w.page p).begin + e.offset)))
    >>= (λ n. lock_for_write env.thread n >> destroy_object env p n)
    >> again

unfoldable pub empty_page : Env → (p fuel : ℕ) → M (Unit {0})
unfolding lock_for_write destroy_object
empty_page env p zero w = wait w
empty_page env p (suc fuel) w =
    empty_turn env p (empty_page env p fuel) (last_entry (w.page p).entries) w

-- `DestroyPage`: the memory of the page is given back.
unfoldable pub destroy_page : (p : ℕ) → World → World
destroy_page p w = record w { freed = (w.page p).begin ∷ w.freed }

unfoldable pub close_page : Env → (p : ℕ) → M (Unit {0})
unfolding empty_page destroy_page on_page
close_page env p =
    on_page p
      ((on_world λ w. empty_page env p (length (w.page p).entries + 1)) >> modify (destroy_page p))

-- `~gc_impl`
unfoldable pub destroy_gc : Env → M (Unit {0})
unfolding for_each detach_page close_page destroy_large_object
destroy_gc env =
    (on_world λ w. for_each (detach_page env) w.pages)
    >> (on_world λ w. for_each (close_page env) w.pages)
    >> (on_world λ w. for_each (destroy_large_object env) w.large_objects)

-- The globals of gc.cpp: `initCount`, `impl` (`none` for a null pointer) and
-- `assertionFailureHandler`, a function pointer.
pub record Globals : Type 0 where
  pub init_count : ℕ
  pub impl : Option World
  pub assertion_failure_handler : ℕ

unfoldable pub init : Globals → Globals × Bool
init g =
    let counted = record g { init_count = u64 (g.init_count + 1) } in
    if g.init_count == 0
    then (record counted { impl = some empty_world }, true)
    else (counted, false)

abbrev pub after_destructor : Globals → World → Answer (Unit {0}) → Globals × Answer (Unit {0})
after_destructor g w (done u) = (record g { impl = none }, done tt)
after_destructor g w (raises e) = (record g { impl = some w }, raises e)
after_destructor g w waits = (record g { impl = some w }, waits)

-- `std::destroy_at(impl)`; a null pointer is not reached after `Init`.
abbrev pub destroy_impl : Env → Globals → Option World → Globals × Answer (Unit {0})
destroy_impl env g none = (g, done tt)
destroy_impl env g (some w) = let r = destroy_gc env w in after_destructor g r.0 r.1

unfoldable pub destroy : Env → Globals → Globals × Answer (Unit {0})
unfolding destroy_gc
destroy env g =
    let counted = record g { init_count = sub64 g.init_count 1 } in
    if counted.init_count == 0 then destroy_impl env counted counted.impl else (counted, done tt)

unfoldable pub set_assertion_failure_handler : (handler : ℕ) → Globals → Result Globals
set_assertion_failure_handler handler g =
    if handler == 0
    then throw bad_api_usage
    else ok (record g { assertion_failure_handler = handler })
