-- ===== src/Collect/Live.antt =====
-- One turn of the loop of a collection, for an object that is not flagged and to which a path leads
-- from a root over objects that are not flagged. What an earlier turn may have flagged is left out:
-- a search can flag a live object in a cycle (Trace/Flaw), which its own turn then destroys.
use gca.Base.{
  ℕ, ◌<◌, ◌≡◌, ◌≢◌, refl, sym, ◌∙◌, subst, Bool, true, false, not, none, some, inl, In, arith,
}
use gca.RwLock.{RwLock, try_acquire_write, try_acquire_read_for, release}
use gca.RwLock.Laws.{alone}
use gca.Handle.{Heap, on_handle, is_marked_garbage}
use gca.Handle.Laws.{on_handle-keeps}
use gca.Trace.{Outcome, try_find_root_for}
use gca.Trace.Frame.{marked, garbage-keeps}
use gca.Trace.Dead.{IsBytes}
use gca.Trace.Unreachable.{RootPath, root, from_root, from_object, try_find_root_for-false}
use gca.Roles.{Answer, done, raises, waits}
use gca.World.{World, M, resume, pure, change_handle}
use gca.Destruction.{Env, with_lock}
use gca.Collect.{found_root, find_root, is_dead, after_test, collect_locked, collect_object}

-- Locks are no part of a path from a root.
RootPath-lock :
    (n : ℕ) (l : RwLock) {s : Heap} {h : ℕ}
    → RootPath s h
    → RootPath (on_handle s n (with_lock l)) h
RootPath-lock n l {s} (root {h} r) = root (
    subst (λ x. 0 < x)
      (sym (on_handle-keeps (λ k. k.root_handle_count) (with_lock l) s n h (λ k. refl))) r)
RootPath-lock n l {s} (from_root {h} {r} m held) =
    from_root
      (subst (In r) (sym (on_handle-keeps (λ k. k.referenced_by) (with_lock l) s n h (λ k. refl)))
        m)
      (subst (λ x. 0 < x)
        (sym (on_handle-keeps (λ k. k.root_handle_count) (with_lock l) s n r (λ k. refl))) held)
RootPath-lock n l {s} (from_object {h} {r} m clear p) =
    from_object
      (subst (In r) (sym (on_handle-keeps (λ k. k.referenced_by) (with_lock l) s n h (λ k. refl)))
        m)
      (garbage-keeps (with_lock l) (λ k. refl) s n r ∙ clear) (RootPath-lock n l p)

not_found :
    (w : World) (o : Outcome)
    → ((s : Heap) → o ≢ some (s, false))
    → ((found_root w o).1 ≢ done false)
not_found w none never e = cc
not_found w (some (s, true)) never e = cc
not_found w (some (s, false)) never e = never s refl

resume-alike :
    (env : Env) (d e : M (Unit {0})) (n : ℕ) (w : World) (answer : Answer Bool)
    → answer ≢ done true
    → resume (after_test env d n) w answer ≡ resume (after_test env e n) w answer
resume-alike env d e n w (done true) never = absurd (never refl)
resume-alike env d e n w (done false) never = refl
resume-alike env d e n w (raises x) never = refl
resume-alike env d e n w waits never = refl

resume-not :
    (w : World) (answer : Answer Bool)
    → answer ≢ done false
    → (resume (λ b. pure (not b)) w answer).1 ≢ done true
resume-not w (done true) never e = cc
resume-not w (done false) never e = never refl
resume-not w (raises x) never e = cc
resume-not w waits never e = cc

module _ (env : Env) (id n : ℕ) (low : id < 8) where
  is_dead-live :
      (w : World)
      → IsBytes w.heap
      → ((x : ℕ) → marked id (w.heap x) ≡ false)
      → is_marked_garbage (w.heap n) ≡ false
      → RootPath w.heap n
      → (is_dead env id n w).1 ≢ done true
  unfolding is_dead find_root
  is_dead-live w bytes off clear path = rw clear (
      resume-not (find_root env id n w).0 (find_root env id n w).1 (
        not_found w (try_find_root_for env.depth env.thread id n w.heap) λ s e.
          try_find_root_for-false env.depth env.thread id n w.heap low bytes off clear e n clear
            (inl refl) path))

  collect_locked-live :
      (d e : M (Unit {0})) (w : World)
      → IsBytes w.heap
      → ((x : ℕ) → marked id (w.heap x) ≡ false)
      → is_marked_garbage (w.heap n) ≡ false
      → RootPath w.heap n
      → collect_locked env d id n w ≡ collect_locked env e id n w
  unfolding collect_locked
  collect_locked-live d e w bytes off clear path =
      resume-alike env d e n (is_dead env id n w).0 (is_dead env id n w).1
        (is_dead-live w bytes off clear path)

  read_word :
      (l : RwLock) → l.word < 256 → (try_acquire_read_for (λ _. false) 1 alone l).0.word < 256
  unfolding try_acquire_read_for
  read_word l h = ground arith

  tried_word :
      (l : RwLock)
      → l.word < 256
      → (release env.thread (try_acquire_write env.thread l).0).word < 256
  unfolding release try_acquire_write
  tried_word l h = ground arith

  -- The turn of an object that is not flagged, and to which a path leads from a root over objects
  -- that are not flagged either, is the same whatever destroying it would do: where no search of this
  -- collection is under way, no destruction is called. An object that was flagged before its turn is
  -- not covered.
  pub collect_object-live :
      (d e : M (Unit {0})) (w : World)
      → IsBytes w.heap
      → ((x : ℕ) → marked id (w.heap x) ≡ false)
      → is_marked_garbage (w.heap n) ≡ false
      → RootPath w.heap n
      → collect_object env d id n w ≡ collect_object env e id n w
  unfolding collect_object
  collect_object-live d e w bytes off clear path =
      let h = w.heap n in
      let tried = release env.thread (try_acquire_write env.thread h.object_lock).0 in
      let l = (try_acquire_read_for (λ _. false) 1 alone tried).0 in
      let small = read_word tried (tried_word h.object_lock (bytes n)) in
      let same =
        collect_locked-live d e (change_handle n (with_lock l) w)
          (λ x. ground (arith, bytes x, small))
          (λ x. on_handle-keeps (marked id) (with_lock l) w.heap n x (λ k. refl) ∙ off x)
          (garbage-keeps (with_lock l) (λ k. refl) w.heap n n ∙ clear) (RootPath-lock n l path) in
      rw same refl
