-- ===== src/Trace/Bodies.antt =====
-- The search for a root leaves the bodies of all handles alone.
use gca.Base.{
  ℕ, zero, suc, ◌≡◌, refl, Bool, true, false, not, Option, none, some, List, [], ◌∷◌, ltb,
  if◌then◌else◌, Option-cases, inl, inr, arith,
}
use gca.Base.Family.{update}
use gca.Handle.{Handle, Heap, on_handle, is_marked_garbage, mark_garbage}
use gca.Handle.Body.{body, SameBodies, SameBodies-refl, SameBodies-trans, on_handle-SameBodies}
use gca.Handle.Laws.{mark_garbage_lem}
use gca.RwLock.{try_acquire_read_for}
use gca.RwLock.Laws.{alone}
use gca.Trace.{
  Outcome, read_mark, write_mark, unlock, after_visit, visit_referencer, any_of, unmark,
  try_find_root_for,
}
use gca.Trace.Dead.{Ensures}

-- The outcome of a search from the heap `s`
abbrev pub KeepsBodies : Heap → Outcome → Type 0
KeepsBodies s o = Ensures (λ s' found. SameBodies s s') o

KeepsBodies-trans : (s m : Heap) (o : Outcome) → SameBodies s m → KeepsBodies m o → KeepsBodies s o
KeepsBodies-trans s m none p k = tt
KeepsBodies-trans s m (some (s', found)) p k = SameBodies-trans p k

mark_garbage-body : (h : Handle) → body (mark_garbage h) ≡ body h
mark_garbage-body h = rw mark_garbage_lem

after_visit-KeepsBodies :
    (t r : ℕ) (s : Heap) (o : Outcome) → KeepsBodies s o → KeepsBodies s (after_visit t r o)
unfolding after_visit
after_visit-KeepsBodies t r s none k = tt
after_visit-KeepsBodies t r s (some (s', true)) k =
    SameBodies-trans k (on_handle-SameBodies (unlock t) s' r (λ h. refl))
after_visit-KeepsBodies t r s (some (s', false)) k = SameBodies-trans k (
    SameBodies-trans (on_handle-SameBodies mark_garbage s' r mark_garbage-body)
      (on_handle-SameBodies (unlock t) (on_handle s' r mark_garbage) r (λ h. refl)))

if-KeepsBodies :
    (s : Heap) (b : Bool) (x y : Outcome)
    → KeepsBodies s x
    → KeepsBodies s y
    → KeepsBodies s (if b then x else y)
if-KeepsBodies s true x y p q = p
if-KeepsBodies s false x y p q = q

visit_referencer-KeepsBodies :
    (find : ℕ → Heap → Outcome) (t r : ℕ) (s : Heap)
    → ((h : ℕ) (m : Heap) → KeepsBodies m (find h m))
    → KeepsBodies s (visit_referencer find t r s)
unfolding visit_referencer
visit_referencer-KeepsBodies find t r s keep =
    let lock = (try_acquire_read_for (λ _. false) 1 alone (s r).object_lock).0 in
    let hold : Handle → Handle = λ h. record h { object_lock = lock } in
    if-KeepsBodies s (ltb 0 (s r).root_handle_count) _ _ (SameBodies-refl s) (
      if-KeepsBodies s (is_marked_garbage (s r)) _ _ (SameBodies-refl s) (
        if-KeepsBodies s (not (try_acquire_read_for (λ _. false) 1 alone (s r).object_lock).1) _ _
          (SameBodies-refl s)
          (after_visit-KeepsBodies t r s (find r (on_handle s r hold)) (
            KeepsBodies-trans s (on_handle s r hold) (find r (on_handle s r hold))
              (on_handle-SameBodies hold s r (λ h. refl)) (keep r (on_handle s r hold))))))

any_of-KeepsBodies :
    (visit : ℕ → Heap → Outcome) (rs : List ℕ) (s : Heap)
    → ((r : ℕ) (m : Heap) → KeepsBodies m (visit r m))
    → KeepsBodies s (any_of visit rs s)
unfolding any_of
any_of-KeepsBodies visit [] s keep = SameBodies-refl s
any_of-KeepsBodies visit (r ∷ rs) s keep =
    by_first (visit r s) (keep r s) (λ m. any_of-KeepsBodies visit rs m keep)
  where
    by_first :
        (o : Outcome)
        → KeepsBodies s o
        → ((m : Heap) → KeepsBodies m (any_of visit rs m))
        → KeepsBodies s (elim o [
          | none ↦ none
          | some (s', found) ↦ if found then some (s', true) else any_of visit rs s'
        ])
    by_first none k rest = tt
    by_first (some (s', true)) k rest = k
    by_first (some (s', false)) k rest = KeepsBodies-trans s s' (any_of visit rs s') k (rest s')

write_mark-body :
    (id : ℕ) (value : Bool) (h h' : Handle) → write_mark id value h ≡ some h' → body h' ≡ body h
unfolding write_mark
write_mark-body id value h h' e = ground (arith, e)

update-SameBodies :
    (s : Heap) (n : ℕ) (h' : Handle) → body h' ≡ body (s n) → SameBodies s (update s n h')
update-SameBodies s n h' e = record { same = λ x. ground (arith, e) }

unmark-KeepsBodies :
    (id h : ℕ) (s : Heap) (o : Outcome) → KeepsBodies s o → KeepsBodies s (unmark id h o)
unfolding unmark
unmark-KeepsBodies id h s none k = tt
unmark-KeepsBodies id h s (some (s', found)) k = elim (Option-cases (write_mark id false (s' h))) [
  | inl e ↦ rw (e, unmark) tt
  | inr (h', e) ↦
      rw (e, unmark)
        (SameBodies-trans k (update-SameBodies s' h h' (write_mark-body id false (s' h) h' e)))
]

-- The turn behind the tests: the object is marked, and what refers to it is searched.
marked_round-KeepsBodies :
    (id h : ℕ) (s : Heap) (search : Heap → Outcome)
    → ((m : Heap) → KeepsBodies m (search m))
    → (o : Option Handle) → write_mark id true (s h) ≡ o
    → KeepsBodies s (elim o [ none ↦ none | some h' ↦ unmark id h (search (update s h h')) ])
marked_round-KeepsBodies id h s search keep none e = tt
marked_round-KeepsBodies id h s search keep (some h') e =
    unmark-KeepsBodies id h s (search (update s h h')) (
      KeepsBodies-trans s (update s h h') (search (update s h h'))
        (update-SameBodies s h h' (write_mark-body id true (s h) h' e)) (keep (update s h h')))

pub try_find_root_for-KeepsBodies :
    (fuel t id h : ℕ) (s : Heap) → KeepsBodies s (try_find_root_for fuel t id h s)
unfolding try_find_root_for
try_find_root_for-KeepsBodies zero t id h s = tt
try_find_root_for-KeepsBodies (suc fuel) t id h s = elim (Option-cases (read_mark id (s h))) [
  | inl e ↦ rw (e, try_find_root_for) tt
  | inr (seen, e) ↦
      rw (e, try_find_root_for)
        (if-KeepsBodies s seen _ _ (SameBodies-refl s) (
          if-KeepsBodies s (ltb 0 (s h).root_handle_count) _ _ (SameBodies-refl s) (
            if-KeepsBodies s (is_marked_garbage (s h)) _ _ (SameBodies-refl s) (
              marked_round-KeepsBodies id h s
                (any_of (visit_referencer (try_find_root_for fuel t id) t) (s h).referenced_by)
                (λ m. any_of-KeepsBodies _ (s h).referenced_by m (λ r k.
                  visit_referencer-KeepsBodies _ t r k (try_find_root_for-KeepsBodies fuel t id)))
                (write_mark id true (s h)) refl))))
]
