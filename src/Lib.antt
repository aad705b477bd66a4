-- ===== src/Lib.antt =====
-- gca: a garbage collector for C++ objects that runs beside the threads that use them.
--
-- Objects live on pages of 4096 bytes; each has a header, the internal handle, with the objects that
-- refer to it, the number of its root handles, a reader-writer lock, mark bits and flags. Programs
-- reach objects through handles in a role (root, field, pin for reading or writing). The collector
-- looks for objects that no root leads to, destroys them, and moves the others together.
--
-- Base: names shared by all modules, lists under native indices, sums over threads, and the results
--   of calls that may throw.
-- Bits: atomic_bit_set and its form for flags in include/gca/gc-util.h, object_flags in
--   include/gca/gc-internal.h. A word is a number; a write gives the word and its answer.
-- RwLock: rw_lock and scoped_rw_lock in include/gca/gc-util.h. Each compare-exchange is one step; what
--   other threads do between two tries is an argument, and RwLock/Threads lets any number of
--   threads take steps in any order.
-- Mutex: mutex and scoped_mutex_lock in include/gca/gc-util.h, with threads as in RwLock.
-- Handle: internal_handle in include/gca/gc-internal.h; a heap gives the header behind a pointer.
-- Trace: gc_impl::TryFindRootFor in gc.cpp. The recursion is on fuel, and more fuel than there are
--   unmarked objects is enough (Trace/Fuel).
-- Page: page::TryAllocate and page::RemoveAllocation in gc.cpp, page::GetAlignmentCorrection in
--   include/gca/gc-internal.h, with the wrap-around of 16- and 64-bit words.
-- Slots: ptr_safe_container in include/gca/gc-util.h: which slots are taken.
-- Types: object_type in include/gca/gc-internal.h and gc_impl::GetOrRegisterType in gc.cpp.
-- Roles: Copy, Destroy, GetInstance, TemporaryROPin, TemporaryUnpin, IsRWPinnedByThisThread,
--   TryAcquireInitializeRight and SetInitializationFailed of namespace gc::internal in gc.cpp.
-- Fields: internal_handle::SetField and gc::internal::SetField in gc.cpp, on a heap and its fields.
-- Defragment: gc_impl::DefragmentOnPage, RelocateObject, TryGetHandleForObjectAllocation and
--   GetHandleForObjectAllocation in gc.cpp; calls of a type's move function are recorded.
-- Lookup: LookupObject, GetOwningObject, LookupObjectOrGetOwningObject, GetMemberCount and GetType
--   in gc.cpp.
-- World: gc_impl and page of include/gca/gc-internal.h with the memory they manage, as one state, and
--   operations that give the next state with a value, an exception, or the answer that they wait.
--   World/Spares relates states between which what root handles hold was kept.
-- Destruction: CallDestructorForObject, DestroyObject and DestroyLargeObject of gc_impl in gc.cpp. What
--   other threads do while the loop that takes a field's object yields is an argument.
-- Collect: CollectOnPage, CollectLargeObjectsFast and CollectLargeObjectsSlow of gc_impl in gc.cpp. The
--   fuel of the loop over a page's entries is more than twice as many, which is enough (Collect/Fuel),
--   and that of the loops over large objects is one more than there are (Collect/Large for the slow
--   one; a turn of the fast one takes an object off the list or goes on to the next). The loop that
--   retries for the number of a collection is on the list of what others do while it yields.
-- Registration: RegisterObject of gc_impl in gc.cpp. A null entry in the lookup is a number that no
--   handle has, and is there during a registration only. Registration/Refines has the map from addresses
--   to objects that users see.
-- Allocation: Allocate, TryAllocateOnNewPage, NewPage and InitPage of gc_impl in gc.cpp. What memory
--   resources answer is an argument, and so is what code marked as unreachable would do.
-- LifeCycle: Init, Collect, Destroy and SetAssertionFailureHandler in gc.cpp, with the constructor and
--   the destructor of gc_impl. The loop that empties a page has one turn more than there are entries:
--   each makes the lookup forget the address of an entry, or throws.
-- Tagged: tagged_ptr in include/gca/gc.h, on 64-bit words.
-- Handles: root_handle, pin and field in include/gca/gc.h. A handle is a variable, a cell of memory by
--   its address, and operations take addresses; Handles/Programs runs sequences of them.
-- Dyn: polymorphic_handle, root_handle, pin and field of namespace gc::dyn in include/gca/gc.h. What a
--   dynamic_cast finds is an argument.
-- Traits: gc_object_traits and the default functions in include/gca/gc.h, which choose the type that an
--   allocation is given.
-- Initialization: Initialize, InitializeArray, New and NewArray in include/gca/gc.h, and New of
--   gc::internal in gc.cpp.
--
-- Initialization calls Allocation and Handles, Dyn uses Handles and Tagged, and Handles puts Roles,
-- Fields and Lookup on the state of World. LifeCycle calls Allocation's parts and Collect, Allocation
-- calls Registration and Collect, and Collect calls Destruction; all take the state of World and use
-- Trace, Types, Slots, Page, Fields, Defragment and the locks for its parts.
--
-- Modules named Laws and the like hold theorems, modules named Examples hold runs. The default
-- handler of failed assertions throws library_bug; callbacks for debugging only observe and are left
-- out. Destructors and move functions, which users give, are recorded and taken to leave the state
-- alone; what a type says of its fields is an argument. The growth of the collector's own containers
-- is taken to succeed. In World and the modules on top of it one thread allocates or collects at a
-- time, and others act only where an argument says so. Users'
-- constructors and dynamic_cast are arguments. Templates differ in the types only, so that the forms
-- of an operation for several types are one definition. Not modelled are InitializeArray with a
-- default value, the comparisons of handles, which call Equals, and the factories of memory
-- resources.
pub mod Base
pub mod Bits
pub mod RwLock
pub mod Mutex
pub mod Handle
pub mod Trace
pub mod Page
pub mod Slots
pub mod Types
pub mod Roles
pub mod Fields
pub mod Defragment
pub mod Lookup
pub mod World
pub mod Destruction
pub mod Collect
pub mod Registration
pub mod Allocation
pub mod LifeCycle
pub mod Tagged
pub mod Handles
pub mod Dyn
pub mod Initialization
pub mod Traits
