-- ===== src/Trace/Flaw.antt =====
-- Where the answer is yes the search may still have flagged live objects: an object on the current
-- path answers no to its referencers, which flag it (`MarkGarbage(referencedBy)`) before another
-- referencer leads to a root.
use gca.Base.{
  ℕ, suc, ◌<◌, ◌≡◌, ◌≢◌, refl, Bool, true, false, ◌==◌, some, List, [], ◌∷◌, ltb, if◌then◌else◌,
  lt→ltb, arith, In, here, there, ap, subst, sym, ◌∙◌,
}
use gca.Handle.{Handle, Heap, on_handle, is_marked_garbage}
use gca.Handle.Laws.{is_marked_garbage_lem, on_handle-keeps}
use gca.Trace.{Outcome, after_visit, visit_referencer, any_of, try_find_root_for}
use gca.Trace.Frame.{
  marked, mark_with, read_locked, unmarked_after, marked-mark_with, try_find_root_for_lem,
  visit_referencer_lem, garbage-keeps, Frame,
}
use gca.Trace.Dead.{flagged_heap, flagged_garbage, IsBytes, Frame-IsBytes, Ensures, VisitPost}
use gca.Trace.Search.{find_post, visit_post}
use gca.Trace.Unreachable.{RootPath, from_root}

-- An object that the search goes into: no root, no flag, no writer.
pub record IsOpen (h : Handle) : Type 0 where
  pub bare : ltb 0 h.root_handle_count ≡ false
  pub clear : is_marked_garbage h ≡ false
  pub free : h.object_lock.word < 128

module _ (id t : ℕ) (low : id < 8) where
  round_open :
      (f h : ℕ) (s : Heap)
      → IsOpen (s h)
      → marked id (s h) ≡ false
      → try_find_root_for (suc f) t id h s
        ≡ unmarked_after id h (
            any_of
              (visit_referencer (try_find_root_for f t id) t)
              (s h).referenced_by
              (on_handle s h (mark_with id true)))
  round_open f h s o off = rw (try_find_root_for_lem id low f t h s) (rw (off, o.clear, o.bare))

  round_marked :
      (f h : ℕ) (s : Heap)
      → marked id (s h) ≡ true
      → try_find_root_for (suc f) t id h s ≡ some (s, false)
  round_marked f h s on = rw (try_find_root_for_lem id low f t h s) (rw on)

  visit_open :
      (find : ℕ → Heap → Outcome) (r : ℕ) (s : Heap)
      → IsOpen (s r)
      → visit_referencer find t r s ≡ after_visit t r (find r (on_handle s r read_locked))
  visit_open find r s o =
      rw (visit_referencer_lem find t r s (omega (arith, o.free)))
        (rw (o.clear, o.bare, lt→ltb _ _ o.free))

  visit_root :
      (find : ℕ → Heap → Outcome) (r : ℕ) (s : Heap)
      → (s r).object_lock.word < 256
      → 0 < (s r).root_handle_count
      → visit_referencer find t r s ≡ some (s, true)
  visit_root find r s b h = rw (visit_referencer_lem find t r s b) (rw (lt→ltb _ _ h))

  -- An object on the current path is flagged by whatever it refers to.
  visit_on_path :
      (f r : ℕ) (s : Heap)
      → IsOpen (s r)
      → marked id (s r) ≡ true
      → visit_referencer (try_find_root_for (suc f) t id) t r s
        ≡ some (flagged_heap t r (on_handle s r read_locked), false)
  unfolding after_visit flagged_heap
  visit_on_path f r s o on = rw (visit_open (try_find_root_for (suc f) t id) r s o) (
      rw
        (
          round_marked f r (on_handle s r read_locked)
              (on_handle-keeps (marked id) read_locked s r r (λ h. refl) ∙ on),
          after_visit,
        )
        refl)

other : (s : Heap) (r x : ℕ) (f : Handle → Handle) → r ≢ x → on_handle s r f x ≡ s x
other s r x f ne = ground arith

self : (s : Heap) (r : ℕ) (f : Handle → Handle) → on_handle s r f r ≡ f (s r)
self s r f = ground arith

IsOpen-read_locked : (h : Handle) → h.object_lock.word ≡ 0 → IsOpen h → IsOpen (read_locked h)
IsOpen-read_locked h w o = record {
  bare = o.bare;
  clear = is_marked_garbage_lem (read_locked h) ∙ sym (is_marked_garbage_lem h) ∙ o.clear;
  free = omega arith;
}

IsOpen-mark : (id : ℕ) (v : Bool) (h : Handle) → IsOpen h → IsOpen (mark_with id v h)
IsOpen-mark id v h o = record {
  bare = o.bare;
  clear = is_marked_garbage_lem (mark_with id v h) ∙ sym (is_marked_garbage_lem h) ∙ o.clear;
  free = o.free;
}

marked-read_locked : (id : ℕ) (h : Handle) → marked id (read_locked h) ≡ marked id h
marked-read_locked id h = refl

module _ (id t : ℕ) (low : id < 8) (s : Heap) (a b : ℕ) (ne : a ≢ b)
    (back : (s b).referenced_by ≡ a ∷ []) (oa : IsOpen (s a)) (ob : IsOpen (s b))
    (off_a : marked id (s a) ≡ false) (off_b : marked id (s b) ≡ false)
    (idle : (s b).object_lock.word ≡ 0) where
  marked_a : Heap
  marked_a = on_handle s a (mark_with id true)

  locked_b : Heap
  locked_b = on_handle (on_handle s a (mark_with id true)) b read_locked

  marked_b : Heap
  marked_b =
      on_handle (on_handle (on_handle s a (mark_with id true)) b read_locked) b (mark_with id true)

  -- The heap once `b` has answered no: both `a` and `b` are flagged.
  both_flagged : Heap
  both_flagged =
      flagged_heap t b
        (on_handle (flagged_heap t a (on_handle marked_b a read_locked)) b (mark_with id false))

  at_a : marked_b a ≡ mark_with id true (s a)
  unfolding marked_b
  at_a = ground arith

  at_b : locked_b b ≡ read_locked (s b)
  unfolding locked_b
  at_b = ground arith

  refs_b : (locked_b b).referenced_by ≡ a ∷ []
  refs_b = ap (λ h. h.referenced_by) at_b ∙ back

  any_a :
      (f : ℕ)
      → any_of (visit_referencer (try_find_root_for (suc f) t id) t) (a ∷ []) marked_b
        ≡ some (flagged_heap t a (on_handle marked_b a read_locked), false)
  unfolding any_of
  any_a f =
      rw
        (
          visit_on_path id t low f a marked_b
              (subst IsOpen (sym at_a) (IsOpen-mark id true (s a) oa))
              (ap (marked id) at_a ∙ on_path),
          any_of,
        )
        refl
    where
      on_path : marked id (mark_with id true (s a)) ≡ true
      on_path = marked-mark_with id low true id (s a) low ∙ ground arith

  find_b :
      (f : ℕ)
      → try_find_root_for (suc (suc f)) t id b locked_b
        ≡ some (
          on_handle (flagged_heap t a (on_handle marked_b a read_locked)) b (mark_with id false),
          false,
        )
  unfolding locked_b marked_b
  find_b f =
      round_open id t low (suc f) b locked_b
        (subst IsOpen (sym at_b) (IsOpen-read_locked (s b) idle ob)) (ap (marked id) at_b ∙ off_b)
      ∙ ap (unmarked_after id b) (
          ap (λ rs. any_of (visit_referencer (try_find_root_for (suc f) t id) t) rs marked_b) refs_b
          ∙ any_a f)

  visit_b :
      (f : ℕ)
      → visit_referencer (try_find_root_for (suc (suc f)) t id) t b marked_a
        ≡ some (both_flagged, false)
  unfolding marked_a locked_b both_flagged flagged_heap after_visit
  visit_b f =
      visit_open id t low (try_find_root_for (suc (suc f)) t id) b marked_a
        (subst IsOpen (sym (other s a b (mark_with id true) ne)) ob)
      ∙ ap (after_visit t b) (find_b f)

  -- The visit of `b` keeps the roots and the locks.
  kept : IsBytes s → Frame marked_a both_flagged
  unfolding marked_a
  kept bytes =
      (subst (Ensures (VisitPost id b marked_a)) (visit_b 0) (
        visit_post id t low (try_find_root_for 2 t id) (find_post id t low 2) b marked_a
          (λ x. ground (arith, bytes x)))).0

  still_flagged : is_marked_garbage (both_flagged a) ≡ true
  unfolding both_flagged
  still_flagged =
      flagged_garbage t b a
        (on_handle (flagged_heap t a (on_handle marked_b a read_locked)) b (mark_with id false))
      ∙ ap
          (λ (c : Bool).
            if c
            then true
            else is_marked_garbage (
                on_handle (flagged_heap t a (on_handle marked_b a read_locked)) b
                  (mark_with id false) a))
          other_way
      ∙ garbage-keeps (mark_with id false) (λ h. refl)
          (flagged_heap t a (on_handle marked_b a read_locked)) b a
      ∙ flagged_garbage t a a (on_handle marked_b a read_locked)
      ∙ ground arith
    where
      other_way : (b == a) ≡ false
      other_way = ground arith

  IsBytes-marked : IsBytes s → IsBytes marked_a
  unfolding marked_a
  IsBytes-marked bytes x = ground (arith, bytes x)

  roots_after : (r : ℕ) → IsBytes s → (both_flagged r).root_handle_count ≡ (s r).root_handle_count
  unfolding marked_a
  roots_after r bytes =
      (kept bytes).roots r
      ∙ on_handle-keeps (λ h. h.root_handle_count) (mark_with id true) s a r (λ h. refl)

  -- The list of referencers: `b` answers no, and the root behind it yes.
  any_root :
      (f r : ℕ) (rest : List ℕ)
      → IsBytes s
      → 0 < (s r).root_handle_count
      → any_of (visit_referencer (try_find_root_for (suc (suc f)) t id) t) (b ∷ r ∷ rest) marked_a
        ≡ some (both_flagged, true)
  unfolding any_of
  any_root f r rest bytes root =
      rw (visit_b f, any_of)
        (rw
          (
            visit_root id t low (try_find_root_for (suc (suc f)) t id) r both_flagged
                (Frame-IsBytes (kept bytes) (IsBytes-marked bytes) r)
                (omega (arith, roots_after r bytes)),
            any_of,
          )
          refl)

  round_a :
      (f r : ℕ) (rest : List ℕ)
      → IsBytes s
      → (s a).referenced_by ≡ b ∷ r ∷ rest
      → 0 < (s r).root_handle_count
      → try_find_root_for (suc (suc (suc f))) t id a s
        ≡ some (on_handle both_flagged a (mark_with id false), true)
  unfolding marked_a
  round_a f r rest bytes refs root =
      round_open id t low (suc (suc f)) a s oa off_a
      ∙ ap (unmarked_after id a) (
          ap (λ rs. any_of (visit_referencer (try_find_root_for (suc (suc f)) t id) t) rs marked_a)
            refs
          ∙ any_root f r rest bytes root)

-- An object `a` that a root `r` refers to, and that a plain object `b` refers to earlier in its
-- list, while `a` is the only object that refers to `b`: the search from `a` answers yes, and `a`
-- can indeed be reached from a root, but the search has flagged `a` as garbage. The conditions are
-- that `a` and `b` differ, are no roots, are not flagged, are not being searched and can be
-- locked for reading, `b` being unlocked; the fuel is at least 3.
pub try_find_root_for-flags_live :
    (fuel t id a b r : ℕ) (rest : List ℕ) (s : Heap)
    → id < 8
    → a ≢ b
    → IsBytes s
    → IsOpen (s a)
    → IsOpen (s b)
    → marked id (s a) ≡ false
    → marked id (s b) ≡ false
    → (s b).object_lock.word ≡ 0
    → (s a).referenced_by ≡ b ∷ r ∷ rest
    → (s b).referenced_by ≡ a ∷ []
    → 0 < (s r).root_handle_count
    → RootPath s a
      × ((s' : Heap) × (try_find_root_for (suc (suc (suc fuel))) t id a s ≡ some (s', true))
          × (is_marked_garbage (s' a) ≡ true))
try_find_root_for-flags_live f t id a b r rest s low ne bytes oa ob off_a off_b idle refs back
      root =
    (
      from_root (subst (In r) (sym refs) (there here)) root,
      (
        on_handle (both_flagged id t low s a b ne back oa ob off_a off_b idle) a
            (mark_with id false),
        round_a id t low s a b ne back oa ob off_a off_b idle f r rest bytes refs root,
        garbage-keeps (mark_with id false) (λ h. refl)
              (both_flagged id t low s a b ne back oa ob off_a off_b idle) a a
            ∙ still_flagged id t low s a b ne back oa ob off_a off_b idle,
      ),
    )
