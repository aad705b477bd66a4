-- ===== src/Trace/Search.antt =====
-- The postcondition of the search, by induction on its fuel.
use gca.Base.{
  ℕ, zero, suc, ◌<◌, ◌≡◌, refl, sym, ◌∙◌, subst, ◌⊎◌, inl, inr, Bool, true, false, ◌==◌, ==_iff,
  none, some, List, [], ◌∷◌, ltb, if◌then◌else◌, Bool-cases, arith, In, In-split,
}
use gca.Handle.{Heap, on_handle, is_marked_garbage}
use gca.Handle.Laws.{on_handle-keeps}
use gca.Trace.{Outcome, after_visit, visit_referencer, any_of, try_find_root_for}
use gca.Trace.Frame.{
  marked, mark_with, read_locked, unmarked_after, try_find_root_for_lem, visit_referencer_lem,
  Frame, Frame-refl, Frame-trans, Frame-visit, Frame-round, garbage-keeps,
}
use gca.Trace.Dead.{
  Ensures, Keeps, IsBytes, Dead, Closed, NewDead-trans, NewDead-refl, Frame-Keeps, Keeps-on_handle,
  Dead-mono, Closed-mono, FindPost, VisitPost, AnyPost, Frame-IsBytes, visit_false, zero_of_ltb,
  flagged_heap,
}

pub Ensures-mono :
    (P Q : Heap → Bool → Type 0)
    → ((s : Heap) (found : Bool) → P s found → Q s found)
    → (o : Outcome) → Ensures P o
    → Ensures Q o
Ensures-mono P Q f none p = tt
Ensures-mono P Q f (some (s, found)) p = f s found p

pub no_fuel : (t id h : ℕ) (s : Heap) → try_find_root_for 0 t id h s ≡ none
unfolding try_find_root_for
no_fuel t id h s = refl

module _ (id t : ℕ) (low : id < 8) where
  -- The recursive call meets its postcondition.
  abbrev pub FindOk : (ℕ → Heap → Outcome) → Type 0
  FindOk find = (h : ℕ) (s : Heap) → IsBytes s → Ensures (FindPost id h s) (find h s)

  IsBytes-locked :
      (r : ℕ) (s : Heap)
      → IsBytes s
      → (s r).object_lock.word < 128
      → IsBytes (on_handle s r read_locked)
  IsBytes-locked r s b free x = ground (arith, b x)

  after_visit_post :
      (r : ℕ) (s : Heap)
      → (s r).root_handle_count ≡ 0
      → is_marked_garbage (s r) ≡ false
      → (s r).object_lock.word < 128
      → (o : Outcome) → Ensures (FindPost id r (on_handle s r read_locked)) o
      → Ensures (VisitPost id r s) (after_visit t r o)
  unfolding after_visit flagged_heap
  after_visit_post r s bare clear free none p = tt
  after_visit_post r s bare clear free (some (s2, true)) p =
      (Frame-visit t r s s2 true free p.0, λ e. cc)
  after_visit_post r s bare clear free (some (s2, false)) p =
      visit_false id t r s low bare clear free s2 p

  pub visit_post :
      (find : ℕ → Heap → Outcome)
      → FindOk find
      → (r : ℕ) (s : Heap) → IsBytes s
      → Ensures (VisitPost id r s) (visit_referencer find t r s)
  visit_post find ok r s b =
      rw (visit_referencer_lem find t r s (b r))
        (elim (Bool-cases (ltb 0 (s r).root_handle_count)) [
          | inl root ↦ rw root (Frame-refl s, λ e. cc)
          | inr bare ↦ rw bare (elim (Bool-cases (is_marked_garbage (s r))) [
            | inl g ↦ rw g (
              Frame-refl s,
              λ e. (NewDead-refl id s, record { rootless = zero_of_ltb _ bare; flagged = g }),
            )
            | inr clear ↦ rw clear (elim (Bool-cases (ltb (s r).object_lock.word 128)) [
              | inl free ↦ rw free (
                  after_visit_post r s (zero_of_ltb _ bare) clear (ground arith) _
                    (ok r (on_handle s r read_locked) (IsBytes-locked r s b (ground arith))))
              | inr held ↦ rw held (Frame-refl s, λ e. cc)
            ])
          ])
        ])

  module _ (visit : ℕ → Heap → Outcome)
      (ok : (r : ℕ) (s : Heap) → IsBytes s → Ensures (VisitPost id r s) (visit r s)) where
    next_post :
        (r : ℕ) (rs : List ℕ) (s : Heap)
        → IsBytes s
        → ((m : Heap) → IsBytes m → Ensures (AnyPost id rs m) (any_of visit rs m))
        → (o : Outcome) → Ensures (VisitPost id r s) o
        → Ensures (AnyPost id (r ∷ rs) s) (elim o [
          | none ↦ none
          | some (s', found) ↦ if found then some (s', true) else any_of visit rs s'
        ])
    next_post r rs s b rest none p = tt
    next_post r rs s b rest (some (m, true)) p = (p.0, λ e. cc)
    next_post r rs s b rest (some (m, false)) p =
        Ensures-mono (AnyPost id rs m) (AnyPost id (r ∷ rs) s)
          (λ s' found q. (
            Frame-trans p.0 q.0,
            λ e. (
              NewDead-trans id low p.0 q.0 (p.1 refl).0 (q.1 e).0,
              λ x mem. In-split (Dead s') (Dead-mono (Frame-Keeps q.0) (p.1 refl).1) (q.1 e).1 mem,
            ),
          ))
          (any_of visit rs m) (rest m (Frame-IsBytes p.0 b))

    any_of_post :
        (rs : List ℕ) (s : Heap) → IsBytes s → Ensures (AnyPost id rs s) (any_of visit rs s)
    unfolding any_of
    any_of_post [] s b = (Frame-refl s, λ e. (NewDead-refl id s, λ r m. elim m [ ]))
    any_of_post (r ∷ rs) s b = next_post r rs s b (any_of_post rs) (visit r s) (ok r s b)

  -- The round that marks `h`, searches from its referencers, and unmarks it.
  module _ (h : ℕ) (s : Heap) (off : marked id (s h) ≡ false)
      (bare : (s h).root_handle_count ≡ 0) where
    Keeps-unmark : (s2 : Heap) → Keeps s2 (on_handle s2 h (mark_with id false))
    Keeps-unmark s2 = Keeps-on_handle (mark_with id false) (λ h. refl) (λ h. refl) (λ h. refl) s2 h

    Closed-self :
        (s2 : Heap)
        → Frame (on_handle s h (mark_with id true)) s2
        → ((r : ℕ) → In r (s h).referenced_by → Dead s2 r)
        → Closed (on_handle s2 h (mark_with id false)) h
    Closed-self s2 f dead r m =
        let k = Keeps-unmark s2 in
        let same =
          k.refs h
          ∙ f.refs h
          ∙ on_handle-keeps (λ h. h.referenced_by) (mark_with id true) s h h (λ h. refl) in
        Dead-mono k (dead r (subst (In r) same m))

    -- What the search flagged: `h` itself is no longer marked, but it is closed.
    round_new :
        (s2 : Heap)
        → Closed (on_handle s2 h (mark_with id false)) h
        → (x : ℕ) → (marked id (on_handle s h (mark_with id true) x) ≡ true) ⊎ Closed s2 x
        → (marked id (s x) ≡ true) ⊎ Closed (on_handle s2 h (mark_with id false)) x
    round_new s2 self x (inr c) = inr (Closed-mono x (Keeps-unmark s2) c)
    round_new s2 self x (inl on) = elim (Bool-cases (h == x)) [
      | inl e ↦ inr (subst (Closed (on_handle s2 h (mark_with id false))) ((==_iff h x).0 e) self)
      | inr e ↦ inl (rw e at on)
    ]

    round_post :
        (s2 : Heap) (found : Bool)
        → AnyPost id (s h).referenced_by (on_handle s h (mark_with id true)) s2 found
        → FindPost id h s (on_handle s2 h (mark_with id false)) found
    round_post s2 found (f, dead) = (
      Frame-round id h s s2 low off f,
      λ e.
          let self = Closed-self s2 f (dead e).1 in
          (
            λ x was is.
                let (b, why) =
                  (dead e).0 x (garbage-keeps (mark_with id true) (λ h. refl) s h x ∙ was)
                    (rw (garbage-keeps (mark_with id false) (λ h. refl) s2 h x) at is) in
                (
                  sym (
                        on_handle-keeps (λ h. h.root_handle_count) (mark_with id true) s h x
                          (λ h. refl))
                      ∙ b,
                  round_new s2 self x why,
                ),
            inr (bare, inr self),
          ),
    )

    round_Ensures :
        (o : Outcome)
        → Ensures (AnyPost id (s h).referenced_by (on_handle s h (mark_with id true))) o
        → Ensures (FindPost id h s) (unmarked_after id h o)
    round_Ensures none p = tt
    round_Ensures (some (s2, found)) p = round_post s2 found p

  pub find_post : (fuel : ℕ) → FindOk (try_find_root_for fuel t id)
  find_post zero h s b = rw (no_fuel t id h s) tt
  find_post (suc fuel) h s b =
      rw (try_find_root_for_lem id low fuel t h s) (elim (Bool-cases (marked id (s h))) [
        | inl on ↦ rw on (Frame-refl s, λ e. (NewDead-refl id s, inl on))
        | inr off ↦ rw off (elim (Bool-cases (ltb 0 (s h).root_handle_count)) [
          | inl root ↦ rw root (Frame-refl s, λ e. cc)
          | inr bare ↦ rw bare (elim (Bool-cases (is_marked_garbage (s h))) [
            | inl g ↦ rw g (Frame-refl s, λ e. (NewDead-refl id s, inr (zero_of_ltb _ bare, inl g)))
            | inr clear ↦ rw clear (
                round_Ensures h s off (zero_of_ltb _ bare) _ (
                  any_of_post (visit_referencer (try_find_root_for fuel t id) t)
                    (visit_post (try_find_root_for fuel t id) (find_post fuel)) (s h).referenced_by
                    (on_handle s h (mark_with id true)) (λ x. ground (arith, b x))))
          ])
        ])
      ])
