-- ===== src/Trace/Unreachable.antt =====
-- Safety of the search: an object for which it answers no, and every object that it flags on the
-- way, cannot be reached from a root over objects that are not flagged.
use gca.Base.{ℕ, ◌<◌, ◌≡◌, refl, sym, subst, ◌⊎◌, inl, inr, true, false, some, In, arith}
use gca.Handle.{Heap, is_marked_garbage}
use gca.Trace.{try_find_root_for}
use gca.Trace.Frame.{marked, Frame}
use gca.Trace.Dead.{Ensures, IsBytes, Closed, NewDead, Falsified, FindPost}
use gca.Trace.Search.{find_post}

-- A chain of references, read backwards from an object, that ends in a root and passes only
-- objects that are not flagged as garbage.
pub data RootPath (s : Heap) : ℕ → Type 0 where
  root : {h : ℕ} → 0 < (s h).root_handle_count → RootPath s h
  from_root : {h r : ℕ} → In r (s h).referenced_by → 0 < (s r).root_handle_count → RootPath s h
  from_object :
      {h r : ℕ}
      → In r (s h).referenced_by
      → is_marked_garbage (s r) ≡ false
      → RootPath s r
      → RootPath s h

module _ (id : ℕ) {s s' : Heap} (f : Frame s s') (new : NewDead id s s')
    (off : (x : ℕ) → marked id (s x) ≡ false) where
  Closed-no_path : {x : ℕ} → RootPath s x → (s x).root_handle_count ≡ 0 → Closed s' x → ⊥
  Closed-no_path (root p) bare c = absurd (omega arith)
  Closed-no_path (from_root {h} {r} m p) bare c =
      let d = c r (subst (In r) (sym (f.refs h)) m) in absurd (omega (arith, d.rootless, f.roots r))
  Closed-no_path (from_object {h} {r} m clear p) bare c =
      let d = c r (subst (In r) (sym (f.refs h)) m) in
      elim (new r clear d.flagged).1 [
        | inl on ↦ cc (off r)
        | inr c' ↦ Closed-no_path p (new r clear d.flagged).0 c'
      ]

  flagged_no_path :
      {x : ℕ} → is_marked_garbage (s x) ≡ false → is_marked_garbage (s' x) ≡ true → ¬ RootPath s x
  flagged_no_path {x} clear set p = elim (new x clear set).1 [
    | inl on ↦ cc (off x)
    | inr c ↦ Closed-no_path p (new x clear set).0 c
  ]

  Falsified-no_path :
      {h : ℕ} → is_marked_garbage (s h) ≡ false → Falsified id s s' h → ¬ RootPath s h
  Falsified-no_path {h} clear (inl on) p = cc (off h)
  Falsified-no_path {h} clear (inr (bare, inl g)) p = cc
  Falsified-no_path {h} clear (inr (bare, inr c)) p = Closed-no_path p bare c

pub try_find_root_for-false :
    (fuel t id h : ℕ) (s : Heap) {s' : Heap}
    → id < 8
    → IsBytes s
    → ((x : ℕ) → marked id (s x) ≡ false)
    → is_marked_garbage (s h) ≡ false
    → try_find_root_for fuel t id h s ≡ some (s', false)
    → (x : ℕ) → is_marked_garbage (s x) ≡ false
    → (x ≡ h) ⊎ (is_marked_garbage (s' x) ≡ true)
    → ¬ RootPath s x
try_find_root_for-false fuel t id h s {s'} low bytes off clear e x clear_x why = elim why [
  | inl same ↦
      subst (λ y. ¬ RootPath s y) (sym same)
        (Falsified-no_path id f (dead refl).0 off clear (dead refl).1)
  | inr set ↦ flagged_no_path id f (dead refl).0 off clear_x set
]
  where
    post : FindPost id h s s' false
    post = subst (Ensures (FindPost id h s)) e (find_post id t low fuel h s bytes)

    f : Frame s s'
    f = post.0

    dead : (false ≡ false) → NewDead id s s' × Falsified id s s' h
    dead = post.1
