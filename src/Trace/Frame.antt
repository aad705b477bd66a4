-- ===== src/Trace/Frame.antt =====
-- One step of the search in plain terms, and what every step leaves alone.
use gca.Base.{
  ℕ, suc, ◌+◌, ◌-◌, ◌^◌, ◌<◌, ◌≡◌, refl, ◌∙◌, inl, inr, Bool, true, false, ◌==◌, none, some, ltb,
  if◌then◌else◌, Bool-cases, arith,
}
use gca.Bits.{enable_mask, clear_mask}
use gca.Bits.Digits.{digit}
use gca.Bits.Laws.{read_bit_lem, set_bit_lem, written_digit}
use gca.RwLock.{release}
use gca.RwLock.Laws.{try_acquire_read_for_once}
use gca.Handle.{Handle, Heap, on_handle, is_marked_garbage, mark_garbage}
use gca.Handle.Laws.{
  is_marked_garbage_lem, is_marked_garbage-mark_garbage, mark_garbage_lem, on_handle-keeps,
}
use gca.Trace.{
  Outcome, read_mark, write_mark, after_visit, visit_referencer, any_of, unlock, unmark,
  try_find_root_for,
}

-- The mark bit of a collection.
abbrev pub marked : ℕ → Handle → Bool
marked id h = digit id h.mark_bits == 1

abbrev pub mark_with : ℕ → Bool → Handle → Handle
mark_with id value h = record h {
  mark_bits =
      (if value then enable_mask h.mark_bits (2 ^ id) else clear_mask h.mark_bits (255 - 2 ^ id)).0;
}

abbrev pub read_locked : Handle → Handle
read_locked h = record h { object_lock = record h.object_lock { word = h.object_lock.word + 1 } }

abbrev pub unmarked_after : ℕ → ℕ → Outcome → Outcome
unmarked_after id h none = none
unmarked_after id h (some (s, found)) = some (on_handle s h (mark_with id false), found)

module _ (id : ℕ) (low : id < 8) where
  read_mark_lem : (h : Handle) → read_mark id h ≡ some (marked id h)
  unfolding read_mark
  read_mark_lem h = rw (read_bit_lem h.mark_bits id low, read_mark)

  write_mark_lem : (value : Bool) (h : Handle) → write_mark id value h ≡ some (mark_with id value h)
  unfolding write_mark
  write_mark_lem value h = rw (set_bit_lem h.mark_bits id value low, write_mark)

  unmark_lem : (h : ℕ) (o : Outcome) → unmark id h o ≡ unmarked_after id h o
  unfolding unmark
  unmark_lem h none = refl
  unmark_lem h (some (s, found)) = rw (write_mark_lem false (s h), unmark)

  pub marked-mark_with :
      (value : Bool) (j : ℕ) (h : Handle)
      → j < 8
      → marked j (mark_with id value h) ≡ (if id == j then value else marked j h)
  marked-mark_with value j h hj = written_digit h.mark_bits id j value low hj

  -- One round of the search, with the mark bits as tests.
  pub try_find_root_for_lem :
      (fuel t h : ℕ) (s : Heap)
      → try_find_root_for (suc fuel) t id h s ≡ (
          if marked id (s h)
          then some (s, false)
          else if ltb 0 (s h).root_handle_count
          then some (s, true)
          else if is_marked_garbage (s h)
          then some (s, false)
          else unmarked_after id h (
              any_of
                (visit_referencer (try_find_root_for fuel t id) t)
                (s h).referenced_by
                (on_handle s h (mark_with id true))))
  unfolding try_find_root_for
  try_find_root_for_lem fuel t h s =
      rw (read_mark_lem (s h), write_mark_lem true (s h), try_find_root_for)
        (rw (unmark_lem h) refl)

-- One referencer, with the lock as a count of readers.
pub visit_referencer_lem :
    (find : ℕ → Heap → Outcome) (t r : ℕ) (s : Heap)
    → (s r).object_lock.word < 256
    → visit_referencer find t r s ≡ (
        if ltb 0 (s r).root_handle_count
        then some (s, true)
        else if is_marked_garbage (s r)
        then some (s, false)
        else if ltb (s r).object_lock.word 128
        then after_visit t r (find r (on_handle s r read_locked))
        else some (s, true))
unfolding visit_referencer
visit_referencer_lem find t r s h =
    rw (try_acquire_read_for_once (s r).object_lock h)
      (elim (Bool-cases (ltb (s r).object_lock.word 128)) [
        | inl free ↦ rw free refl
        | inr held ↦ rw held refl
      ])

-- Between two heaps the objects, the references, the roots, the mark bits and the readers are the
-- same, and no garbage flag is taken back.
pub record Frame (s s' : Heap) : Type 0 where
  pub refs : (x : ℕ) → (s' x).referenced_by ≡ (s x).referenced_by
  pub roots : (x : ℕ) → (s' x).root_handle_count ≡ (s x).root_handle_count
  pub marks : (x j : ℕ) → j < 8 → marked j (s' x) ≡ marked j (s x)
  pub words : (x : ℕ) → (s' x).object_lock.word ≡ (s x).object_lock.word
  pub grows : (x : ℕ) → is_marked_garbage (s x) ≡ true → is_marked_garbage (s' x) ≡ true

pub Frame-refl : (s : Heap) → Frame s s
Frame-refl s = record {
  refs = λ x. refl;
  roots = λ x. refl;
  marks = λ x j h. refl;
  words = λ x. refl;
  grows = λ x g. g;
}

pub Frame-trans : {s m s' : Heap} → Frame s m → Frame m s' → Frame s s'
Frame-trans p q = record {
  refs = λ x. q.refs x ∙ p.refs x;
  roots = λ x. q.roots x ∙ p.roots x;
  marks = λ x j h. q.marks x j h ∙ p.marks x j h;
  words = λ x. q.words x ∙ p.words x;
  grows = λ x g. q.grows x (p.grows x g);
}

pub garbage-keeps :
    (f : Handle → Handle)
    → ((h : Handle) → (f h).flags ≡ h.flags)
    → (s : Heap) (r x : ℕ) → is_marked_garbage (on_handle s r f x) ≡ is_marked_garbage (s x)
garbage-keeps f keep s r x =
    on_handle-keeps is_marked_garbage f s r x
      (λ h. rw (is_marked_garbage_lem (f h), is_marked_garbage_lem h) (rw (keep h) refl))

pub Frame-mark_garbage : (s : Heap) (r : ℕ) → Frame s (on_handle s r mark_garbage)
Frame-mark_garbage s r = record {
  refs = λ x. on_handle-keeps (λ h. h.referenced_by) mark_garbage s r x (λ h. rw mark_garbage_lem);
  roots =
      λ x. on_handle-keeps (λ h. h.root_handle_count) mark_garbage s r x (λ h. rw mark_garbage_lem);
  marks = λ x j hj. on_handle-keeps (marked j) mark_garbage s r x (λ h. rw mark_garbage_lem);
  words =
      λ x. on_handle-keeps (λ h. h.object_lock.word) mark_garbage s r x (λ h. rw mark_garbage_lem);
  grows = λ x g. ground (arith, is_marked_garbage-mark_garbage (s r));
}

-- A visit takes the referencer's lock for reading, searches, and gives it back.
Frame-unlock :
    (t r : ℕ) (s s' : Heap)
    → (s r).object_lock.word < 128
    → Frame (on_handle s r read_locked) s'
    → Frame s (on_handle s' r (unlock t))
unfolding release
Frame-unlock t r s s' h f = record {
  refs = λ x. ground (arith, f.refs x, f.refs r);
  roots = λ x. ground (arith, f.roots x, f.roots r);
  marks = λ x j hj. ground (arith, f.marks x j hj, f.marks r j hj);
  words = λ x. ground (arith, f.words x, f.words r);
  grows = λ x g.
      rw (garbage-keeps (unlock t) (λ h. refl) s' r x)
        (f.grows x (rw (garbage-keeps read_locked (λ h. refl) s r x) g));
}

pub Frame-visit :
    (t r : ℕ) (s s' : Heap) (found : Bool)
    → (s r).object_lock.word < 128
    → Frame (on_handle s r read_locked) s'
    → Frame s (on_handle (if found then s' else on_handle s' r mark_garbage) r (unlock t))
Frame-visit t r s s' true h f = Frame-unlock t r s s' h f
Frame-visit t r s s' false h f =
    Frame-unlock t r s (on_handle s' r mark_garbage) h (Frame-trans f (Frame-mark_garbage s' r))

-- A round marks the object, searches, and takes the mark back.
pub Frame-round :
    (id h : ℕ) (s s' : Heap)
    → id < 8
    → marked id (s h) ≡ false
    → Frame (on_handle s h (mark_with id true)) s'
    → Frame s (on_handle s' h (mark_with id false))
Frame-round id h s s' low clear f = record {
  refs = λ x. ground (arith, f.refs x, f.refs h);
  roots = λ x. ground (arith, f.roots x, f.roots h);
  marks = λ x j hj. ground (
    arith,
    f.marks x j hj,
    f.marks h j hj,
    marked-mark_with id low false j (s' h) hj,
    marked-mark_with id low true j (s h) hj,
  );
  words = λ x. ground (arith, f.words x, f.words h);
  grows = λ x g.
      rw (garbage-keeps (mark_with id false) (λ h. refl) s' h x)
        (f.grows x (rw (garbage-keeps (mark_with id true) (λ h. refl) s h x) g));
}
