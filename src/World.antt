-- ===== src/World.antt =====
-- The state of `gc_impl` (include/gca/gc-internal.h) together with the memory it manages, and the
-- monad of its operations: each takes the state of the world and gives the next one with a result,
-- an exception, or the answer that the call still waits.
-- The locks `typesLock`, `allocationLookupLock`, `largeObjectsLock`, `pagesLock` and
-- `pageAllocationLock` are held by guards inside one operation only, so they are free between
-- operations and are not in the state.
pub mod Spares
pub mod Lands
use gca.Base.{
  ℕ, ◌+◌, ◌-◌, ◌*◌, ◌/◌, ◌%◌, ◌^◌, Bool, false, Option, none, some, List, [], get_elem?, ◌==◌,
  if◌then◌else◌,
}
use gca.Base.Family.{update}
use gca.Base.Result.{Error, Result, ok, throw, library_bug}
use gca.Mutex.{Mutex}
use gca.Handle.{Handle, Heap, on_handle, new_handle}
use gca.Types.{ObjectType}
use gca.Page.{Entry}
use gca.Slots.{Nodes, remove}
use gca.Roles.{Answer, done, raises, waits}

-- `page`: the address of its memory, its entries, and `allocationLock`.
pub record PageState : Type 0 where
  pub begin : ℕ
  pub entries : List Entry
  pub allocation_lock : Mutex

pub record World : Type 0 where
  pub heap : Heap
  pub field : ℕ → ℕ  -- the fields of the objects, by address
  pub types : List ObjectType
  pub lookup : ℕ → ℕ  -- allocationToHandleLookup, 0 where an address has no entry
  pub handles : Nodes  -- objectHandles
  pub pages : List ℕ  -- the pages in their order
  pub page : ℕ → PageState
  pub large_objects : List ℕ
  pub gc_count : ℕ
  pub moved : List (ℕ × ℕ)  -- calls of move functions, the last first
  pub destroyed : List ℕ  -- objects whose destructor was called, the last first
  pub freed : List ℕ  -- memory that was given back, the last first

-- The collector as `gc_impl` begins; what lies at addresses that hold no handle or page is no
-- matter.
abbrev pub empty_world : World
empty_world = record {
  heap = λ _. new_handle 0 0 0;
  field = λ _. 0;
  types = [];
  lookup = λ _. 0;
  handles = [];
  pages = [];
  page = λ _. record { begin = 0; entries = []; allocation_lock = false };
  large_objects = [];
  gc_count = 0;
  moved = [];
  destroyed = [];
  freed = [];
}

abbrev pub M : Type 0 → Type 0
M A = World → World × Answer A

abbrev pub pure : {A : Type 0} → A → M A
pure a w = (w, done a)

-- What follows an operation that has ended in the given state with the given answer.
abbrev pub resume : {A B : Type 0} → (A → M B) → World → Answer A → World × Answer B
resume f w (done a) = f a w
resume f w (raises e) = (w, raises e)
resume f w waits = (w, waits)

infixl 5 ◌>>=◌ ◌>>◌
abbrev pub ◌>>=◌ : {A B : Type 0} → M A → (A → M B) → M B
◌>>=◌ m f w = resume f (m w).0 (m w).1

abbrev pub ◌>>◌ : {B : Type 0} → M (Unit {0}) → M B → M B
m >> k = m >>= λ _. k

abbrev pub fail : {A : Type 0} → Error → M A
fail e w = (w, raises e)

abbrev pub wait : {A : Type 0} → M A
wait w = (w, waits)

abbrev pub modify : (World → World) → M (Unit {0})
modify f w = (f w, done tt)

abbrev pub on_world : {A : Type 0} → (World → M A) → M A
on_world f w = f w w

-- `GCA_ASSERT` with the default handler
abbrev pub check : Bool → M (Unit {0})
check b w = (w, if b then done tt else raises library_bug)

abbrev pub recover : {A : Type 0} → (World → World) → World → Answer A → World × Answer A
recover cleanup w (done a) = (w, done a)
recover cleanup w (raises e) = (cleanup w, raises e)
recover cleanup w waits = (w, waits)

-- `try { m } catch (...) { cleanup; throw; }`
abbrev pub on_error : {A : Type 0} → (World → World) → M A → M A
on_error cleanup m w = recover cleanup (m w).0 (m w).1

-- A guard that goes out of scope at the end of `m`, or where it throws
abbrev pub release_after : {A : Type 0} → (World → World) → World → Answer A → World × Answer A
release_after cleanup w (done a) = (cleanup w, done a)
release_after cleanup w (raises e) = (cleanup w, raises e)
release_after cleanup w waits = (w, waits)

abbrev pub finally : {A : Type 0} → (World → World) → M A → M A
finally cleanup m w = release_after cleanup (m w).0 (m w).1

abbrev pub of_result : {A : Type 0} → Result A → M A
of_result (ok a) w = (w, done a)
of_result (throw e) w = (w, raises e)

abbrev pub change_handle : ℕ → (Handle → Handle) → World → World
change_handle n f w = record w { heap = on_handle w.heap n f }

abbrev pub change_page : ℕ → (PageState → PageState) → World → World
change_page p f w = record w { page = update w.page p (f (w.page p)) }

-- A pointer to a handle: 0 is null, and the value at a slot of a node has the others.
abbrev pub handle_at : (node slot : ℕ) → ℕ
handle_at node slot = node * 64 + slot + 1

abbrev pub with_nodes : {A : Type 0} → World → Result (Nodes × A) → World × Answer (Unit {0})
with_nodes w (ok (nodes, _)) = (record w { handles = nodes }, done tt)
with_nodes w (throw e) = (w, raises e)

-- `objectHandles.Remove(handle)`: only which slots are taken changes.
unfoldable pub remove_handle : ℕ → M (Unit {0})
unfolding remove
remove_handle n w = with_nodes w (remove w.handles ((n - 1) / 64) ((n - 1) % 64))
