-- ===== src/Allocation.antt =====
-- `Allocate`, `TryAllocateOnNewPage`, `NewPage` and `InitPage` of `gc_impl` in gc.cpp, with
-- `AllocateLargeObject` of its allocator. Memory comes from memory resources that users give, which
-- are arguments. The calling thread is the only one at work, so a lock that is free is taken at the
-- first try. A page is known by its index.
pub mod Pages
pub mod Returns
pub mod Room
pub mod NewPage
mod Examples
use gca.Base.{
  ℕ, ◌-◌, ◌*◌, Bool, true, false, Option, none, some, List, [], ◌∷◌, ◌++◌, length, set, ltb, ◌==◌,
  if◌then◌else◌,
}
use gca.Base.Family.{update}
use gca.Base.Result.{Error, Result, ok, throw, bad_api_usage, bad_alloc}
use gca.Mutex
use gca.Mutex.{Mutex, tries_left}
use gca.Types.{ObjectType}
use gca.Page.{
  Entry, Span, page_size, u64, is_empty, get_alignment_correction, try_allocate, remove_allocation,
}
use gca.Defragment.{Objects, defragment_on_page}
use gca.Fields.{pop_back}
use gca.Roles.{Answer, done, raises, waits}
use gca.World.{PageState, World, M, pure, ◌>>=◌, ◌>>◌, modify, on_error, finally, change_page}
use gca.Registration.{register}
use gca.Destruction.{Env, type_at}
use gca.Collect.{collect_on_page, collect_large_objects_fast, collect_large_objects_slow}

-- What the memory resources answer: the address of the memory of a new page, and of a large
-- allocation of a size and an alignment. `unreachable` is what undefined behaviour does.
pub record Memory : Type 0 where
  pub page_memory : World → Result ℕ
  pub large_memory : World → (size alignment : ℕ) → Result ℕ
  pub unreachable : M ℕ

abbrev pub page_alignment : ℕ
page_alignment = 4096

abbrev pub page_acquire_attempts : ℕ
page_acquire_attempts = 10

abbrev pub with_entries : List Entry → PageState → PageState
with_entries es p = record p { entries = es }

-- `page.TryAllocate`
unfoldable pub try_on_page : (p size alignment : ℕ) → M Span
unfolding try_allocate
try_on_page p size alignment w =
    let q = w.page p in
    let (es, s) = try_allocate q.begin q.entries size alignment in
    (change_page p (with_entries es) w, done s)

-- `page.RemoveAllocation`
unfoldable pub give_back : (p : ℕ) → Span → World → World
unfolding remove_allocation
give_back p s = change_page p (λ q. with_entries (remove_allocation q.begin q.entries s) q)

abbrev pub end_of : Option Error → Answer (Unit {0})
end_of none = done tt
end_of (some e) = raises e

-- `DefragmentOnPage`
unfoldable pub defragment : Env → (p : ℕ) → M (Unit {0})
unfolding defragment_on_page
defragment env p w =
    let o : Objects = record { heap = w.heap; lookup = w.lookup; moved = w.moved } in
    let q = w.page p in
    let (o', es, end) = defragment_on_page env.thread (type_at w.types) q.begin q.entries o in
    let w' = record w { heap = o'.heap; lookup = o'.lookup; moved = o'.moved } in
    (change_page p (with_entries es) w', end_of end)

-- Where the allocation is empty a further step is taken, and it is tried again.
abbrev pub or_after : (step : M (Unit {0})) → (again : M Span) → Span → M Span
or_after step again s w = if is_empty s then (step >> again) w else (w, done s)

-- The three tries on one page
unfoldable pub find_span : Env → (p size alignment : ℕ) → M Span
unfolding try_on_page collect_on_page defragment
find_span env p size alignment =
    try_on_page p size alignment
    >>= or_after (collect_on_page env p) (try_on_page p size alignment)
    >>= or_after (defragment env p) (try_on_page p size alignment)

-- The object on the page's allocation; if registering fails the allocation is given back.
unfoldable pub place_object : (p : ℕ) → Span → ObjectType → M ℕ
unfolding register give_back
place_object p s ty = on_error (give_back p s) (register s ty)

abbrev pub found_span : (p : ℕ) → ObjectType → Span → M (Option ℕ)
found_span p ty s w =
    if is_empty s then (w, done none) else (place_object p s ty >>= λ n. pure (some n)) w

abbrev pub with_allocation_lock : Mutex → PageState → PageState
with_allocation_lock m q = record q { allocation_lock = m }

abbrev pub release_page : (p : ℕ) → World → World
release_page p = change_page p (λ q. with_allocation_lock (Mutex.release q.allocation_lock) q)

-- One turn of the loop over the pages: `none` is `continue`.
unfoldable pub allocate_on_page : Env → (p size : ℕ) → ObjectType → M (Option ℕ)
unfolding tries_left find_span place_object
allocate_on_page env p size ty w =
    let (m, acquired) = tries_left page_acquire_attempts (λ _ m. m) (w.page p).allocation_lock in
    if acquired
    then finally (release_page p) (find_span env p size ty.alignment >>= found_span p ty)
        (change_page p (with_allocation_lock m) w)
    else (w, done none)

abbrev pub or_next : (rest : M (Option ℕ)) → Option ℕ → M (Option ℕ)
or_next rest (some n) = pure (some n)
or_next rest none = rest

unfoldable pub allocate_on_pages : Env → (size : ℕ) → ObjectType → List ℕ → M (Option ℕ)
unfolding allocate_on_page
allocate_on_pages env size ty [] = pure none
allocate_on_pages env size ty (p ∷ ps) =
    allocate_on_page env p size ty >>= or_next (allocate_on_pages env size ty ps)

abbrev pub add_page : (begin : ℕ) → World → World
add_page begin w = record w {
  pages = w.pages ++ length w.pages ∷ [];
  page =
      update w.page (length w.pages)
        (record { begin = begin; entries = []; allocation_lock = false });
}

-- `InitPage` and the end of `NewPage`, which takes the page off the list where `InitPage` throws
abbrev pub with_page_memory : World → Result ℕ → World × Answer ℕ
with_page_memory w (throw e) = (w, raises e)
with_page_memory w (ok begin) =
    if get_alignment_correction begin page_alignment == 0
    then (add_page begin w, done (length w.pages))
    else (w, raises bad_api_usage)

unfoldable pub new_page : Memory → (acquire_lock : Bool) → M ℕ
unfolding get_alignment_correction
new_page mem acquire_lock = (λ w. with_page_memory w (mem.page_memory w)) >>= λ p w.
    (change_page p (with_allocation_lock acquire_lock) w, done p)

abbrev pub span_on_new_page : Memory → (p : ℕ) → ObjectType → Span → M ℕ
span_on_new_page mem p ty s w = if is_empty s then mem.unreachable w else place_object p s ty w

unfoldable pub try_allocate_on_new_page : Memory → (size : ℕ) → ObjectType → M ℕ
unfolding new_page try_on_page place_object
try_allocate_on_new_page mem size ty = new_page mem true >>= λ p.
    finally (release_page p) (try_on_page p size ty.alignment >>= span_on_new_page mem p ty)

abbrev pub with_large_memory : World → (size : ℕ) → Result ℕ → World × Answer Span
with_large_memory w size (throw e) = (w, raises e)
with_large_memory w size (ok a) =
    let s : Span = record { address = a; size = size } in
    (w, if is_empty s then raises bad_alloc else done s)

-- `AllocateLargeObject`, whose answer is tested
unfoldable pub allocate_large_object : Memory → (size : ℕ) → ObjectType → M Span
allocate_large_object mem size ty w =
    with_large_memory w size (mem.large_memory w size ty.alignment)

abbrev pub push_large : World → World
push_large w = record w { large_objects = w.large_objects ++ 0 ∷ [] }

-- The handler of exceptions
abbrev pub forget_large : Span → World → World
forget_large s w = record w {
  large_objects = pop_back w.large_objects;
  freed = s.address ∷ w.freed;
}

abbrev pub assign_large : ℕ → World → World
assign_large n w = record w { large_objects = set w.large_objects (length w.large_objects - 1) n }

unfoldable pub place_large_object : Span → ObjectType → M ℕ
unfolding register
place_large_object s ty = modify push_large >> on_error (forget_large s) (register s ty) >>= λ n w.
    (assign_large n w, done n)

unfoldable pub allocate_large : Memory → Env → (size : ℕ) → ObjectType → M ℕ
unfolding collect_large_objects_fast allocate_large_object place_large_object
allocate_large mem env size ty =
    collect_large_objects_fast env >> allocate_large_object mem size ty >>= λ s.
    place_large_object s ty

abbrev pub or_new_page : Memory → Env → (size : ℕ) → ObjectType → Option ℕ → M ℕ
or_new_page mem env size ty (some n) = pure n
or_new_page mem env size ty none =
    collect_large_objects_slow env >> try_allocate_on_new_page mem size ty

-- `Allocate`: the size of all elements is a 64-bit word.
unfoldable pub allocate : Memory → Env → ObjectType → (count : ℕ) → M ℕ
unfolding allocate_large allocate_on_pages collect_large_objects_slow try_allocate_on_new_page
allocate mem env ty count w =
    let size = u64 (ty.size * count) in
    if ltb page_size size
    then allocate_large mem env size ty w
    else (allocate_on_pages env size ty w.pages >>= or_new_page mem env size ty) w
