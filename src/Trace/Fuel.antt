-- ===== src/Trace/Fuel.antt =====
-- The search terminates: each level of the recursion marks one more object, so the number of
-- unmarked objects bounds its depth.
use gca.Base.{
  ℕ, zero, suc, ◌<◌, ◌≡◌, refl, ap, subst, Bool, true, false, inl, inr, none, some, List, [], ◌∷◌,
  ltb, if◌then◌else◌, Bool-cases, Option-cases, arith, In, here, there,
}
use gca.Base.Family.{total, total-update, total-ext}
use gca.Handle.{Handle, Heap, on_handle, is_marked_garbage}
use gca.Handle.Laws.{on_handle-keeps}
use gca.Trace.{Outcome, after_visit, visit_referencer, any_of, try_find_root_for}
use gca.Trace.Frame.{
  marked, mark_with, read_locked, unmarked_after, marked-mark_with, try_find_root_for_lem,
  visit_referencer_lem, Frame, Frame-refl, Frame-trans,
}
use gca.Trace.Dead.{Ensures, IsBytes, Frame-IsBytes, VisitPost}
use gca.Trace.Search.{find_post, visit_post}

abbrev pub Returned : Outcome → Type 0
Returned none = ⊥
Returned (some r) = Unit

abbrev pub is_unmarked : ℕ → Handle → ℕ
is_unmarked id h = if marked id h then 0 else 1

-- The objects are numbered below `n`, and refer to one another only.
pub record IsUniverse (n : ℕ) (s : Heap) : Type 0 where
  pub bytes : IsBytes s
  pub inside : (x r : ℕ) → x < n → In r (s x).referenced_by → r < n

Frame-IsUniverse : {n : ℕ} {s s' : Heap} → Frame s s' → IsUniverse n s → IsUniverse n s'
Frame-IsUniverse f u = record {
  bytes = Frame-IsBytes f u.bytes;
  inside = λ x r h m. u.inside x r h (subst (In r) (f.refs x) m);
}

module _ (id t n : ℕ) (low : id < 8) where
  -- The search with this fuel returns, wherever fewer objects than that are unmarked.
  abbrev Terminates : ℕ → Type 0
  Terminates fuel =
      (h : ℕ) (s : Heap)
      → h < n
      → IsUniverse n s
      → total (is_unmarked id) n s < fuel
      → Returned (try_find_root_for fuel t id h s)

  after_visit-Returned : (r : ℕ) (o : Outcome) → Returned o → Returned (after_visit t r o)
  unfolding after_visit
  after_visit-Returned r none p = p
  after_visit-Returned r (some (s, found)) p = tt

  IsUniverse-locked :
      (r : ℕ) (s : Heap)
      → IsUniverse n s
      → (s r).object_lock.word < 128
      → IsUniverse n (on_handle s r read_locked)
  IsUniverse-locked r s u free = record {
    bytes = λ x. ground (arith, u.bytes x);
    inside = λ x y h m.
        u.inside x y h
          (subst (In y) (on_handle-keeps (λ h. h.referenced_by) read_locked s r x (λ h. refl)) m);
  }

  IsUniverse-marked :
      (h : ℕ) (s : Heap) → IsUniverse n s → IsUniverse n (on_handle s h (mark_with id true))
  IsUniverse-marked h s u = record {
    bytes = λ x. ground (arith, u.bytes x);
    inside = λ x y k m. u.inside x y k (
        subst (In y) (on_handle-keeps (λ h. h.referenced_by) (mark_with id true) s h x (λ h. refl))
          m);
  }

  unmarked-locked :
      (r : ℕ) (s : Heap)
      → total (is_unmarked id) n (on_handle s r read_locked) ≡ total (is_unmarked id) n s
  unmarked-locked r s =
      total-ext (is_unmarked id) n _ s
        (λ x. on_handle-keeps (is_unmarked id) read_locked s r x (λ h. refl))

  visit-Returned :
      (fuel : ℕ)
      → Terminates fuel
      → (r : ℕ) (s : Heap) → r < n
      → IsUniverse n s
      → total (is_unmarked id) n s < fuel
      → Returned (visit_referencer (try_find_root_for fuel t id) t r s)
  visit-Returned fuel ih r s h u room =
      rw (visit_referencer_lem (try_find_root_for fuel t id) t r s (u.bytes r))
        (elim (Bool-cases (ltb 0 (s r).root_handle_count)) [
          | inl root ↦ rw root tt
          | inr bare ↦ rw bare (elim (Bool-cases (is_marked_garbage (s r))) [
            | inl g ↦ rw g tt
            | inr clear ↦ rw clear (elim (Bool-cases (ltb (s r).object_lock.word 128)) [
              | inl free ↦ rw free (
                  after_visit-Returned r _ (
                    ih r (on_handle s r read_locked) h (IsUniverse-locked r s u (ground arith))
                      (omega (arith, unmarked-locked r s))))
              | inr held ↦ rw held tt
            ])
          ])
        ])

  next-Returned :
      (visit : ℕ → Heap → Outcome) (r : ℕ) (rs : List ℕ) (s : Heap) (o : Outcome)
      → Returned o
      → Ensures (VisitPost id r s) o
      → ((m : Heap) → Frame s m → Returned (any_of visit rs m))
      → Returned (elim o [
        | none ↦ none
        | some (s', found) ↦ if found then some (s', true) else any_of visit rs s'
      ])
  next-Returned visit r rs s none ret p rest = absurd ret
  next-Returned visit r rs s (some (m, true)) ret p rest = tt
  next-Returned visit r rs s (some (m, false)) ret p rest = rest m p.0

  any_of-Returned :
      (visit : ℕ → Heap → Outcome)
      → ((r : ℕ) (s : Heap) → IsBytes s → Ensures (VisitPost id r s) (visit r s))
      → (s : Heap) → IsBytes s
      → (rs : List ℕ) → ((r : ℕ) (m : Heap) → In r rs → Frame s m → Returned (visit r m))
      → (m : Heap) → Frame s m
      → Returned (any_of visit rs m)
  unfolding any_of
  any_of-Returned visit ok s b [] ret m f = tt
  any_of-Returned visit ok s b (r ∷ rs) ret m f =
      next-Returned visit r rs m (visit r m) (ret r m here f) (ok r m (Frame-IsBytes f b)) (λ m' g.
        any_of-Returned visit ok s b rs (λ x k mem. ret x k (there mem)) m' (Frame-trans f g))

  -- Marking `h` leaves one unmarked object less.
  unmarked-marked :
      (h : ℕ) (s : Heap)
      → h < n
      → marked id (s h) ≡ false
      → suc (total (is_unmarked id) n (on_handle s h (mark_with id true)))
        ≡ total (is_unmarked id) n s
  unmarked-marked h s hn off = ground (
    arith,
    total-update (is_unmarked id) n s h (mark_with id true (s h)) hn,
    marked-mark_with id low true id (s h) low,
  )

  searched :
      (fuel h : ℕ) (s : Heap)
      → h < n
      → IsUniverse n s
      → total (is_unmarked id) n s < suc fuel
      → marked id (s h) ≡ false
      → Terminates fuel
      → Returned (
          any_of
            (visit_referencer (try_find_root_for fuel t id) t)
            (s h).referenced_by
            (on_handle s h (mark_with id true)))
  searched fuel h s hn u room off ih =
      any_of-Returned (visit_referencer (try_find_root_for fuel t id) t)
        (visit_post id t low (try_find_root_for fuel t id) (find_post id t low fuel))
        (on_handle s h (mark_with id true)) (λ x. ground (arith, u.bytes x)) (s h).referenced_by
        (λ r m mem f.
          visit-Returned fuel ih r m (u.inside h r hn mem)
            (Frame-IsUniverse f (IsUniverse-marked h s u))
            (omega (
              arith,
              unmarked-marked h s hn off,
              total-ext (is_unmarked id) n m (on_handle s h (mark_with id true))
                  (λ x. ap (λ b. if b then 0 else 1) (f.marks x id low)),
            )))
        (on_handle s h (mark_with id true)) (Frame-refl _)

  unmarked-Returned : (h : ℕ) (o : Outcome) → Returned o → Returned (unmarked_after id h o)
  unmarked-Returned h none p = p
  unmarked-Returned h (some (s, found)) p = tt

  terminates : (fuel : ℕ) → Terminates fuel
  terminates zero h s hn u room = absurd (omega arith)
  terminates (suc fuel) h s hn u room =
      rw (try_find_root_for_lem id low fuel t h s) (elim (Bool-cases (marked id (s h))) [
        | inl on ↦ rw on tt
        | inr off ↦ rw off (elim (Bool-cases (ltb 0 (s h).root_handle_count)) [
          | inl root ↦ rw root tt
          | inr bare ↦ rw bare (elim (Bool-cases (is_marked_garbage (s h))) [
            | inl g ↦ rw g tt
            | inr clear ↦
                rw clear (unmarked-Returned h _ (searched fuel h s hn u room off (terminates fuel)))
          ])
        ])
      ])

-- With more fuel than there are unmarked objects the search returns.
pub try_find_root_for-returns :
    (fuel t id n h : ℕ) (s : Heap)
    → id < 8
    → h < n
    → IsUniverse n s
    → total (is_unmarked id) n s < fuel
    → (s' : Heap) × (found : Bool) × (try_find_root_for fuel t id h s ≡ some (s', found))
try_find_root_for-returns fuel t id n h s low hn u room =
    elim (Option-cases (try_find_root_for fuel t id h s)) [
      | inl e ↦ absurd (subst Returned e (terminates id t n low fuel h s hn u room))
      | inr r ↦ ((r.0).0, (r.0).1, r.1)
    ]
