-- ===== src/Trace/Dead.antt =====
-- What the search has established when it answers no: everything that it flagged, and the object
-- that it started from, is referenced by flagged objects without roots only.
use gca.Base.{
  ℕ, ◌<◌, ◌≡◌, refl, sym, ◌∙◌, subst, ◌⊎◌, inl, inr, Bool, true, false, ◌==◌, none, some, List, ltb,
  if◌then◌else◌, Bool-cases, arith, In,
}
use gca.Handle.{Handle, Heap, on_handle, is_marked_garbage, mark_garbage}
use gca.Handle.Laws.{is_marked_garbage-mark_garbage, on_handle-keeps}
use gca.Trace.{Outcome, unlock}
use gca.Trace.Frame.{marked, read_locked, Frame, Frame-mark_garbage, Frame-visit, garbage-keeps}

-- What a call that returns has to satisfy; nothing, if it does not return.
abbrev pub Ensures : (Heap → Bool → Type 0) → Outcome → Type 0
Ensures P none = Unit
Ensures P (some (s, found)) = P s found

abbrev pub IsBytes : Heap → Type 0
IsBytes s = (x : ℕ) → (s x).object_lock.word < 256

-- Not a root, and flagged.
pub record Dead (s : Heap) (x : ℕ) : Type 0 where
  pub rootless : (s x).root_handle_count ≡ 0
  pub flagged : is_marked_garbage (s x) ≡ true

abbrev pub Closed : Heap → ℕ → Type 0
Closed s x = (r : ℕ) → In r (s x).referenced_by → Dead s r

-- What became garbage between two heaps: rootless objects that are still being searched from, or
-- whose referencers are all dead.
abbrev pub NewDead : ℕ → Heap → Heap → Type 0
NewDead id s s' =
    (x : ℕ)
    → is_marked_garbage (s x) ≡ false
    → is_marked_garbage (s' x) ≡ true
    → ((s x).root_handle_count ≡ 0) × ((marked id (s x) ≡ true) ⊎ Closed s' x)

-- The part of `Frame` on which `Closed` depends.
pub record Keeps (s s' : Heap) : Type 0 where
  pub refs : (x : ℕ) → (s' x).referenced_by ≡ (s x).referenced_by
  pub roots : (x : ℕ) → (s' x).root_handle_count ≡ (s x).root_handle_count
  pub grows : (x : ℕ) → is_marked_garbage (s x) ≡ true → is_marked_garbage (s' x) ≡ true

pub Frame-Keeps : {s s' : Heap} → Frame s s' → Keeps s s'
Frame-Keeps f = record { refs = f.refs; roots = f.roots; grows = f.grows }

Keeps-trans : {s m s' : Heap} → Keeps s m → Keeps m s' → Keeps s s'
Keeps-trans p q = record {
  refs = λ x. q.refs x ∙ p.refs x;
  roots = λ x. q.roots x ∙ p.roots x;
  grows = λ x g. q.grows x (p.grows x g);
}

-- An update that leaves references, roots and flags alone.
pub Keeps-on_handle :
    (f : Handle → Handle)
    → ((h : Handle) → (f h).referenced_by ≡ h.referenced_by)
    → ((h : Handle) → (f h).root_handle_count ≡ h.root_handle_count)
    → ((h : Handle) → (f h).flags ≡ h.flags)
    → (s : Heap) (r : ℕ) → Keeps s (on_handle s r f)
Keeps-on_handle f a b c s r = record {
  refs = λ x. on_handle-keeps (λ h. h.referenced_by) f s r x a;
  roots = λ x. on_handle-keeps (λ h. h.root_handle_count) f s r x b;
  grows = λ x g. rw (garbage-keeps f c s r x) g;
}

pub Dead-mono : {s s' : Heap} {x : ℕ} → Keeps s s' → Dead s x → Dead s' x
Dead-mono {x} k d = record { rootless = k.roots x ∙ d.rootless; flagged = k.grows x d.flagged }

pub Closed-mono : {s s' : Heap} (x : ℕ) → Keeps s s' → Closed s x → Closed s' x
Closed-mono x k c r m = Dead-mono k (c r (subst (In r) (k.refs x) m))

pub NewDead-trans :
    (id : ℕ) {s m s' : Heap}
    → id < 8
    → Frame s m
    → Frame m s'
    → NewDead id s m
    → NewDead id m s'
    → NewDead id s s'
NewDead-trans id {s} {m} {s'} low f g p q x clear set =
    elim (Bool-cases (is_marked_garbage (m x))) [
      | inl early ↦
          let (bare, why) = p x clear early in
          (bare, elim why [ inl on ↦ inl on | inr c ↦ inr (Closed-mono x (Frame-Keeps g) c) ])
      | inr late ↦
          let (bare, why) = q x late set in
          (
            sym (f.roots x) ∙ bare,
            elim why [ inl on ↦ inl (sym (f.marks x id low) ∙ on) | inr c ↦ inr c ],
          )
    ]

pub NewDead-refl : (id : ℕ) (s : Heap) → NewDead id s s
NewDead-refl id s x clear set = cc

-- The object that a search started from, when the answer was no.
abbrev pub Falsified : ℕ → Heap → Heap → ℕ → Type 0
Falsified id s s' h =
    (marked id (s h) ≡ true)
    ⊎ (((s h).root_handle_count ≡ 0) × ((is_marked_garbage (s h) ≡ true) ⊎ Closed s' h))

abbrev pub FindPost : ℕ → ℕ → Heap → Heap → Bool → Type 0
FindPost id h s s' found = Frame s s' × ((found ≡ false) → NewDead id s s' × Falsified id s s' h)

abbrev pub VisitPost : ℕ → ℕ → Heap → Heap → Bool → Type 0
VisitPost id r s s' found = Frame s s' × ((found ≡ false) → NewDead id s s' × Dead s' r)

abbrev pub AnyPost : ℕ → List ℕ → Heap → Heap → Bool → Type 0
AnyPost id rs s s' found =
    Frame s s' × ((found ≡ false) → NewDead id s s' × ((r : ℕ) → In r rs → Dead s' r))

pub Frame-IsBytes : {s s' : Heap} → Frame s s' → IsBytes s → IsBytes s'
Frame-IsBytes f b x = rw (f.words x) (b x)

pub zero_of_ltb : (n : ℕ) → ltb 0 n ≡ false → n ≡ 0
zero_of_ltb n h = ground arith

-- The heap after a visit that found no root: `r` is flagged and its lock is given back.
unfoldable pub flagged_heap : ℕ → ℕ → Heap → Heap
flagged_heap t r s = on_handle (on_handle s r mark_garbage) r (unlock t)

Keeps-flagged : (t r : ℕ) (s : Heap) → Keeps s (flagged_heap t r s)
unfolding flagged_heap
Keeps-flagged t r s =
    Keeps-trans (Frame-Keeps (Frame-mark_garbage s r)) (
      Keeps-on_handle (unlock t) (λ h. refl) (λ h. refl) (λ h. refl) (on_handle s r mark_garbage) r)

pub flagged_garbage :
    (t r x : ℕ) (s : Heap)
    → is_marked_garbage (flagged_heap t r s x) ≡ (if r == x then true else is_marked_garbage (s x))
unfolding flagged_heap
flagged_garbage t r x s =
    rw (garbage-keeps (unlock t) (λ h. refl) (on_handle s r mark_garbage) r x)
      (ground (arith, is_marked_garbage-mark_garbage (s r)))

module _ (id t r : ℕ) (s : Heap) (low : id < 8) (bare : (s r).root_handle_count ≡ 0)
    (clear : is_marked_garbage (s r) ≡ false) (free : (s r).object_lock.word < 128) where
  locked_marks : (x : ℕ) → marked id (on_handle s r read_locked x) ≡ marked id (s x)
  locked_marks x = on_handle-keeps (marked id) read_locked s r x (λ h. refl)

  locked_roots : (x : ℕ) → (on_handle s r read_locked x).root_handle_count ≡ (s x).root_handle_count
  locked_roots x = on_handle-keeps (λ h. h.root_handle_count) read_locked s r x (λ h. refl)

  locked_garbage :
      (x : ℕ) → is_marked_garbage (on_handle s r read_locked x) ≡ is_marked_garbage (s x)
  locked_garbage x = garbage-keeps read_locked (λ h. refl) s r x

  Falsified-self :
      (s2 : Heap)
      → Falsified id (on_handle s r read_locked) s2 r
      → (marked id (s r) ≡ true) ⊎ Closed (flagged_heap t r s2) r
  Falsified-self s2 (inl on) = inl (sym (locked_marks r) ∙ on)
  Falsified-self s2 (inr (b, inl g)) = cc (sym (locked_garbage r) ∙ g)
  Falsified-self s2 (inr (b, inr c)) = inr (Closed-mono r (Keeps-flagged t r s2) c)

  visit_new :
      (s2 : Heap)
      → NewDead id (on_handle s r read_locked) s2
      → Falsified id (on_handle s r read_locked) s2 r
      → NewDead id s (flagged_heap t r s2)
  visit_new s2 new self x was is = elim (Bool-cases (is_marked_garbage (s2 x))) [
    | inl before ↦
        let (b, why) = new x (locked_garbage x ∙ was) before in
        (
          sym (locked_roots x) ∙ b,
          elim why [
            | inl on ↦ inl (sym (locked_marks x) ∙ on)
            | inr c ↦ inr (Closed-mono x (Keeps-flagged t r s2) c)
          ],
        )
    | inr after ↦
        let e : r ≡ x = ground (arith, flagged_garbage t r x s2) in
        subst
          (λ y.
            ((s y).root_handle_count ≡ 0)
            × ((marked id (s y) ≡ true) ⊎ Closed (flagged_heap t r s2) y))
          e (bare, Falsified-self s2 self)
  ]

  pub visit_false :
      (s2 : Heap)
      → FindPost id r (on_handle s r read_locked) s2 false
      → VisitPost id r s (flagged_heap t r s2) false
  unfolding flagged_heap
  visit_false s2 (f, dead) =
      let kept = Frame-visit t r s s2 false free f in
      (
        kept,
        λ e. (
          visit_new s2 (dead refl).0 (dead refl).1,
          record {
            rootless = kept.roots r ∙ bare;
            flagged = ground (arith, flagged_garbage t r r s2);
          },
        ),
      )
