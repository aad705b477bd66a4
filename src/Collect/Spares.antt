-- ===== src/Collect/Spares.antt =====
-- A collection of a page spares every object that has a root handle.
use gca.Base.{
  ◌*◌, ℕ, zero, suc, ◌+◌, ◌<◌, ◌≡◌, refl, ap, sym, ◌∙◌, subst, ◌⊎◌, Bool, true, false, not, Option,
  none, some, length, get_elem?, ltb, leb, ◌==◌, if◌then◌else◌, Bool-cases, inl, inr, arith, List,
  [], ◌∷◌,
}
use gca.RwLock.{try_acquire_write, try_acquire_read_for, try_upgrade, release}
use gca.RwLock.Laws.{alone}
use gca.Handle.{is_marked_garbage}
use gca.Trace.{Outcome, try_find_root_for}
use gca.Trace.Bodies.{KeepsBodies, try_find_root_for-KeepsBodies}
use gca.Page.{Entry, u64}
use gca.Roles.{Answer, done}
use gca.World.{World, M, resume, pure, modify, on_world, on_error, change_handle, wait}
use gca.World.Spares.{
  IsPlaced, Spares, Spares-refl, Spares-trans, IsPlaced-Spares, bind-Spares, then-Spares,
  on_error-Spares, quiet-Spares, change_handle-Spares,
}
use gca.Destruction.{Env, with_lock, unlock, destroy_object}
use gca.Destruction.Spares.{OthersSpare, IsDoomed, unlock-Spares, if-Spares}
use gca.Destruction.Removal.{IsDoomed-Spares, destroy_object-Spares}
use gca.Collect.{
  max_collections, next_collection, found_root, find_root, is_dead, upgrade_lock, destroy_locked,
  after_test, collect_locked, collect_object, handle_of, collect_entry, entry_turn, collect_entries,
  collect_on_page,
}

found_root-Spares : (w : World) (o : Outcome) → KeepsBodies w.heap o → Spares w (found_root w o).0
found_root-Spares w none k = Spares-refl w
found_root-Spares w (some (s, found)) k =
    quiet-Spares w (record w { heap = s }) refl k refl refl refl

module _ (env : Env) (id n : ℕ) where
  find_root-Spares : (w : World) → Spares w (find_root env id n w).0
  unfolding find_root
  find_root-Spares w =
      found_root-Spares w (try_find_root_for env.depth env.thread id n w.heap)
        (try_find_root_for-KeepsBodies env.depth env.thread id n w.heap)

  pub is_dead-Spares : (w : World) → Spares w (is_dead env id n w).0
  unfolding is_dead
  is_dead-Spares w =
      if-Spares w (is_marked_garbage (w.heap n)) (w, done true) _ (Spares-refl w)
        (bind-Spares (find_root env id n) (λ b. pure (not b)) w (find_root-Spares w)
          (λ b e. Spares-refl (find_root env id n w).0))

  upgrade_lock-Spares : (t : ℕ) (w : World) → Spares w (upgrade_lock t n w).0
  unfolding upgrade_lock
  upgrade_lock-Spares t w =
      change_handle-Spares n (with_lock (try_upgrade t (w.heap n).object_lock).0) w (λ h. refl)

  -- What is destroyed is doomed.
  module _ (destroy : M (Unit {0}))
      (spares : (w : World) → IsDoomed w n → Spares w (destroy w).0) where
    destroy_locked-Spares : (w : World) → IsDoomed w n → Spares w (destroy_locked env destroy n w).0
    unfolding destroy_locked
    destroy_locked-Spares w doomed =
        then-Spares (upgrade_lock env.thread n) (on_error (unlock env.thread n) destroy) w
          (upgrade_lock-Spares env.thread w)
          λ v s.
            on_error-Spares (unlock env.thread n) destroy v (spares v (IsDoomed-Spares n s doomed))
              (unlock-Spares env.thread n (destroy v).0)

    after_test-Spares :
        (dead : Bool) (w : World) → IsDoomed w n → Spares w (after_test env destroy n dead w).0
    after_test-Spares true w doomed =
        then-Spares (destroy_locked env destroy n) (pure true) w (destroy_locked-Spares w doomed)
          (λ v s. Spares-refl v)
    after_test-Spares false w doomed =
        then-Spares (modify (unlock env.thread n)) (pure false) w (unlock-Spares env.thread n w)
          (λ v s. Spares-refl v)

    collect_locked-Spares :
        (w : World) → IsDoomed w n → Spares w (collect_locked env destroy id n w).0
    unfolding collect_locked
    collect_locked-Spares w doomed =
        bind-Spares (is_dead env id n) (after_test env destroy n) w (is_dead-Spares w) λ dead e.
          after_test-Spares dead (is_dead env id n w).0
            (IsDoomed-Spares n (is_dead-Spares w) doomed)

    pub collect_object-Spares :
        (w : World)
        → (w.lookup (w.heap n).address ≡ n) ⊎ (w.lookup (w.heap n).address ≡ 0)
        → Spares w (collect_object env destroy id n w).0
    unfolding collect_object
    collect_object-Spares w own = elim (Bool-cases (ltb 0 (w.heap n).root_handle_count)) [
      | inl root ↦ rw (root, collect_object) (Spares-refl w)
      | inr bare ↦
          let h = w.heap n in
          let written = try_acquire_write env.thread h.object_lock in
          let tried = release env.thread written.0 in
          let read = try_acquire_read_for (λ _. false) 1 alone tried in
          let held = change_handle-Spares n (with_lock read.0) w (λ h. refl) in
          rw (bare, collect_object)
            (if-Spares w (not written.1) (w, done false) _ (Spares-refl w)
              (if-Spares w (not read.1) (change_handle n (with_lock tried) w, done false) _
                (change_handle-Spares n (with_lock tried) w (λ h. refl))
                (Spares-trans held (
                  collect_locked-Spares (change_handle n (with_lock read.0) w) (
                    IsDoomed-Spares n held
                      (record { rootless = ground (arith, bare); own = own }))))))
    ]

handle_of_own :
    (a n : ℕ) (w : World)
    → IsPlaced w
    → (handle_of a w).1 ≡ done n
    → w.lookup (w.heap n).address ≡ n
handle_of_own a n w placed e = elim (Bool-cases (w.lookup a == 0)) [
  | inl none_there ↦ cc (rw none_there at e)
  | inr some_there ↦
      let found : w.lookup a ≡ n = ground (arith, e, some_there) in
      let lies : (w.heap (w.lookup a)).address ≡ a = placed a (ground (arith, some_there)) in
      subst (λ x. w.lookup (w.heap x).address ≡ n) found (ap w.lookup lies ∙ found)
]

module _ (env : Env) (calm : OthersSpare env.others) where
  pub collect_entry-Spares :
      (id p : ℕ) (e : Entry) (w : World) → IsPlaced w → Spares w (collect_entry env id p e w).0
  unfolding collect_entry
  collect_entry-Spares id p e w placed =
      let a = u64 ((w.page p).begin + e.offset) in
      bind-Spares (on_world (λ v. handle_of (u64 ((v.page p).begin + e.offset))))
        (λ n. collect_object env (destroy_object env p n) id n) w (Spares-refl w)
        λ n got.
          collect_object-Spares env id n (destroy_object env p n)
            (destroy_object-Spares env calm p n) w (inl (handle_of_own a n w placed got))

  entry_turn-Spares :
      (id p i : ℕ) (again : ℕ → M (Unit {0})) (o : Option Entry) (w : World)
      → ((j : ℕ) (v : World) → IsPlaced v → Spares v (again j v).0)
      → IsPlaced w
      → Spares w (entry_turn env id p i again o w).0
  entry_turn-Spares id p i again none w rest placed = Spares-refl w
  entry_turn-Spares id p i again (some e) w rest placed =
      let first = collect_entry-Spares id p e w placed in
      bind-Spares (collect_entry env id p e) (λ destroyed. again (if destroyed then i else i + 1)) w
        first
        λ destroyed x.
          rest (if destroyed then i else i + 1) (collect_entry env id p e w).0
            (IsPlaced-Spares first placed)

  collect_entries-Spares :
      (id p fuel i : ℕ) (w : World)
      → IsPlaced w
      → Spares w (collect_entries env id p wait fuel i w).0
  unfolding collect_entries
  collect_entries-Spares id p zero i w placed = Spares-refl w
  collect_entries-Spares id p (suc fuel) i w placed =
      entry_turn-Spares id p i (collect_entries env id p wait fuel) (get_elem? (w.page p).entries i)
        w (collect_entries-Spares id p fuel) placed

abbrev pub counted : World → World
counted w = record w { gc_count = w.gc_count + 1 }

next_collection-starts :
    (others : List (World → World)) (w : World)
    → w.gc_count < max_collections
    → next_collection others w ≡ (counted w, done w.gc_count)
unfolding next_collection
next_collection-starts [] w h =
    let room : leb max_collections w.gc_count ≡ false = ground (arith, h) in
    rw room (ap (λ c. (record w { gc_count = c }, done w.gc_count)) (omega (arith, h)))
next_collection-starts (other ∷ others) w h =
    let room : leb max_collections w.gc_count ≡ false = ground (arith, h) in
    rw room (ap (λ c. (record w { gc_count = c }, done w.gc_count)) (omega (arith, h)))

-- A collection that starts runs its loop with its number as mark bit.
collect_on_page-starts :
    (env : Env) (p : ℕ) (w : World)
    → w.gc_count < max_collections
    → collect_on_page env p w
      ≡ collect_entries env w.gc_count p wait (2 * length (w.page p).entries + 1) 0 (counted w)
unfolding collect_on_page
collect_on_page-starts env p w h =
    ap
      (λ (r : World × Answer ℕ).
        resume (λ id v. collect_entries env id p wait (2 * length (v.page p).entries + 1) 0 v) r.0
          r.1)
      (next_collection-starts env.others w h)

-- Where fewer than eight collections were started before, the handles lie where the lookup has them,
-- and other threads spare what has roots while the collection yields, a collection of a page spares
-- every object that has a root handle, even if it throws or does not return: the lookup still gives
-- its handle, its entry stays on its page, no entry is added to a page, and no handle is moved,
-- resized or retyped, nor its roots counted anew. The number of collections under way goes up by
-- one, and it has not come down when the call ends.
pub collect_on_page-Spares :
    (env : Env) (p : ℕ) (w : World)
    → OthersSpare env.others
    → IsPlaced w
    → (w.gc_count < max_collections)
    → Spares (counted w) (collect_on_page env p w).0
collect_on_page-Spares env p w calm placed h =
    subst (λ (r : World × Answer (Unit {0})). Spares (counted w) r.0)
      (sym (collect_on_page-starts env p w h))
      (collect_entries-Spares env calm w.gc_count p (2 * length (w.page p).entries + 1) 0
        (counted w) placed)
