-- ===== src/Collect.antt =====
-- `CollectOnPage`, `CollectLargeObjectsFast` and `CollectLargeObjectsSlow` of gc.cpp.
-- `gcCount` is a byte; the number of a collection is its mark bit. A loop over entries or large
-- objects goes on at the same index where the object there was destroyed. The loops are on fuel. What
-- the loop over entries and the slow one over large objects do where their fuel runs out is an
-- argument `out`, so that a loop that is given enough can be told from one that is not; the fast loop
-- over large objects waits there.
pub mod Forgets
pub mod Fuel
pub mod Large
pub mod Count
pub mod Spares
pub mod Live
mod Examples
use gca.Base.{
  ◌*◌, ℕ, zero, suc, ◌+◌, ◌-◌, ◌%◌, ◌^◌, Bool, true, false, not, ◌&&◌, ◌||◌, Option, none, some,
  List, [], ◌∷◌, length, get_elem?, set, ltb, leb, ◌==◌, if◌then◌else◌,
}
use gca.Base.Result.{Error, library_bug, out_of_range}
use gca.RwLock.{RwLock, try_acquire_write, try_acquire_read_for, try_upgrade, release}
use gca.RwLock.Laws.{alone}
use gca.Handle.{Handle, Heap, is_marked_garbage}
use gca.Trace.{Outcome, try_find_root_for}
use gca.Page.{Entry, u64}
use gca.Fields.{swap_pop, back, pop_back}
use gca.Roles.{Answer, done, raises, waits}
use gca.World.{
  PageState, World, M, pure, ◌>>=◌, ◌>>◌, fail, wait, modify, on_world, check, on_error,
  change_handle,
}
use gca.Destruction.{Env, with_lock, unlock, destroy_object, destroy_large_object}

abbrev pub max_collections : ℕ
max_collections = 8

-- `gcCount++` and `--gcCount`, on a byte
abbrev pub raise_count : World → World
raise_count w = record w { gc_count = (w.gc_count + 1) % 256 }

abbrev pub lower_count : World → World
lower_count w = record w { gc_count = (w.gc_count + 255) % 256 }

-- `while ((id = gcCount++) >= max) { --gcCount; yield; }`. The list has what other threads do at each
-- `yield`; where it ends, the loop has not ended yet.
unfoldable pub next_collection : (others : List (World → World)) → M ℕ
next_collection [] w =
    if leb max_collections w.gc_count
    then (lower_count (raise_count w), waits)
    else (raise_count w, done w.gc_count)
next_collection (other ∷ others) w =
    let retried = next_collection others (other (lower_count (raise_count w))) in
    if leb max_collections w.gc_count then retried else (raise_count w, done w.gc_count)

abbrev pub found_root : World → Outcome → World × Answer Bool
found_root w none = (w, waits)
found_root w (some (s, found)) = (record w { heap = s }, done found)

-- `TryFindRootFor`
unfoldable pub find_root : Env → (id n : ℕ) → M Bool
unfolding try_find_root_for
find_root env id n w = found_root w (try_find_root_for env.depth env.thread id n w.heap)

-- `IsMarkedGarbage(handle) || !TryFindRootFor(handle, id)`
unfoldable pub is_dead : Env → (id n : ℕ) → M Bool
unfolding find_root is_marked_garbage
is_dead env id n w =
    if is_marked_garbage (w.heap n)
    then (w, done true)
    else (find_root env id n >>= λ found. pure (not found)) w

-- `TryUpgrade`, which is asserted
unfoldable pub upgrade_lock : ℕ → ℕ → M (Unit {0})
unfolding try_upgrade
upgrade_lock t n w =
    let (l, upgraded) = try_upgrade t (w.heap n).object_lock in
    (change_handle n (with_lock l) w, if upgraded then done tt else raises library_bug)

-- A dead object: its lock is upgraded, and it is destroyed.
unfoldable pub destroy_locked : Env → (destroy : M (Unit {0})) → (n : ℕ) → M (Unit {0})
unfolding upgrade_lock unlock
destroy_locked env destroy n = upgrade_lock env.thread n >> on_error (unlock env.thread n) destroy

-- Whether the object was destroyed
abbrev pub after_test : Env → (destroy : M (Unit {0})) → (n : ℕ) → Bool → M Bool
after_test env destroy n true = destroy_locked env destroy n >> pure true
after_test env destroy n false = modify (unlock env.thread n) >> pure false

-- From `IsMarkedGarbage` on, with the object's lock held for reading.
unfoldable pub collect_locked : Env → (destroy : M (Unit {0})) → (id n : ℕ) → M Bool
unfolding is_dead destroy_locked unlock
collect_locked env destroy id n = is_dead env id n >>= after_test env destroy n

-- One turn of the loop over the objects: a root, and an object whose lock another holds, is alive.
unfoldable pub collect_object : Env → (destroy : M (Unit {0})) → (id n : ℕ) → M Bool
unfolding collect_locked try_acquire_write try_acquire_read_for unlock
collect_object env destroy id n w =
    let h = w.heap n in
    let (written, free) = try_acquire_write env.thread h.object_lock in
    let tried = release env.thread written in
    let (l, acquired) = try_acquire_read_for (λ _. false) 1 alone tried in
    if ltb 0 h.root_handle_count
    then (w, done false)
    else if not free
    then (w, done false)
    else if not acquired
    then (change_handle n (with_lock tried) w, done false)
    else collect_locked env destroy id n (change_handle n (with_lock l) w)

-- `GetHandleForObjectAllocation`
abbrev pub handle_of : ℕ → M ℕ
handle_of address w =
    (w, if w.lookup address == 0 then raises library_bug else done (w.lookup address))

-- The body of the loop over a page's entries
unfoldable pub collect_entry : Env → (id p : ℕ) → Entry → M Bool
unfolding collect_object destroy_object
collect_entry env id p e = on_world (λ w. handle_of (u64 ((w.page p).begin + e.offset))) >>= λ n.
    collect_object env (destroy_object env p n) id n

-- One turn of that loop, where the entry at index `i` is given
abbrev pub entry_turn :
    Env → (id p i : ℕ) → (again : ℕ → M (Unit {0})) → Option Entry → M (Unit {0})
entry_turn env id p i again none = pure tt
entry_turn env id p i again (some e) =
    collect_entry env id p e >>= λ destroyed. again (if destroyed then i else i + 1)

-- The loop from index `i` on
unfoldable pub collect_entries :
    Env → (id p : ℕ) → (out : M (Unit {0})) → (fuel i : ℕ) → M (Unit {0})
unfolding collect_entry
collect_entries env id p out zero i w = out w
collect_entries env id p out (suc fuel) i w =
    entry_turn env id p i (collect_entries env id p out fuel) (get_elem? (w.page p).entries i) w

unfoldable pub collect_on_page : Env → (p : ℕ) → M (Unit {0})
unfolding next_collection collect_entries
collect_on_page env p = next_collection env.others >>= λ id w.
    collect_entries env id p wait (2 * length (w.page p).entries + 1) 0 w

-- `swap(largeObjects[i], largeObjects.back()); largeObjects.pop_back()`
unfoldable pub drop_large : ℕ → World → World
unfolding swap_pop
drop_large i w = record w { large_objects = swap_pop w.large_objects i }

-- One turn of the loop of `CollectLargeObjectsSlow`
abbrev pub large_turn : Env → (id i : ℕ) → (again : ℕ → M (Unit {0})) → Option ℕ → M (Unit {0})
large_turn env id i again none = pure tt
large_turn env id i again (some n) =
    collect_object env (destroy_large_object env n) id n >>= λ destroyed.
    (if destroyed then modify (drop_large i) else pure tt) >> again (if destroyed then i else i + 1)

-- The loop from index `i` on
unfoldable pub collect_large : Env → (id : ℕ) → (out : M (Unit {0})) → (fuel i : ℕ) → M (Unit {0})
unfolding collect_object destroy_large_object drop_large
collect_large env id out zero i w = out w
collect_large env id out (suc fuel) i w =
    large_turn env id i (collect_large env id out fuel) (get_elem? w.large_objects i) w

unfoldable pub collect_large_objects_slow : Env → M (Unit {0})
unfolding next_collection collect_large
collect_large_objects_slow env = next_collection env.others >>= λ id.
    on_world λ w. collect_large env id wait (length w.large_objects + 1) 0

-- `swap(largeObjects[i], largeObjects.back())`
unfoldable pub swap_back : List ℕ → ℕ → List ℕ
swap_back [] i = []
swap_back (x ∷ xs) i = elim (get_elem? (x ∷ xs) i) [
  | none ↦ x ∷ xs
  | some y ↦ set (set (x ∷ xs) i (back x xs)) (length xs) y
]

-- `GCA_ASSERT(largeObjects.back()->objectLock.TryAcquireWrite())`
unfoldable pub lock_dead : ℕ → ℕ → M (Unit {0})
unfolding try_acquire_write
lock_dead t n w =
    let (l, acquired) = try_acquire_write t (w.heap n).object_lock in
    (change_handle n (with_lock l) w, if acquired then done tt else raises library_bug)

abbrev pub pop_large : World → World
pop_large w = record w { large_objects = pop_back w.large_objects }

-- A large object that is flagged: it goes to the back, is locked and destroyed.
unfoldable pub collect_flagged : Env → (i n : ℕ) → M (Unit {0})
unfolding swap_back lock_dead destroy_large_object
collect_flagged env i n =
    modify (λ w. record w { large_objects = swap_back w.large_objects i })
    >> lock_dead env.thread n
    >> destroy_large_object env n
    >> modify pop_large

abbrev pub fast_turn : Env → (i : ℕ) → (again : ℕ → M (Unit {0})) → Option ℕ → M (Unit {0})
fast_turn env i again none w = pure tt w
fast_turn env i again (some n) w =
    let dead = is_marked_garbage (w.heap n) in
    ((if dead then collect_flagged env i n else pure tt) >> again (if dead then i else i + 1)) w

unfoldable pub collect_large_fast : Env → (fuel i : ℕ) → M (Unit {0})
unfolding collect_flagged is_marked_garbage
collect_large_fast env zero i w = wait w
collect_large_fast env (suc fuel) i w =
    fast_turn env i (collect_large_fast env fuel) (get_elem? w.large_objects i) w

unfoldable pub collect_large_objects_fast : Env → M (Unit {0})
unfolding collect_large_fast
collect_large_objects_fast env = on_world λ w. collect_large_fast env (length w.large_objects + 1) 0
