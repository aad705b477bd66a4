-- ===== src/Handles/Returns.antt =====
-- Programs (Handles/Programs) that make and end no pins neither throw nor wait where no thread writes
-- and none interferes.
use gca.Base.{
  ℕ, ◌-◌, ◌^◌, ◌<◌, ◌≡◌, refl, sym, subst, Bool, true, false, [], ◌∷◌, ◌==◌, if◌then◌else◌, inl,
  inr, Bool-cases,
}
use gca.Handle.{Handle}
use gca.Roles.{Role, root, Answer, done, copy, destroy}
use gca.Roles.Counts.{Old, of_root, of_field}
use gca.World.{World, M, resume, ◌>>=◌, change_handle}
use gca.Handles.{Call, copy_handle, destroy_handle, destroy_unless_null, construct_from, write}
use gca.Handles.RootHandle
use gca.Handles.Field
use gca.Handles.Field.{Scene}
use gca.Handles.Invariant.{IsCounted}
use gca.Handles.Programs.{
  Operation, root_of_root, root_of_field, move_root, assign_moved, root_of_pin, pin_of_root,
  pin_of_field, assign_null, end_root, end_pin, assign_field, run, Variables, AreAllowed, Program,
  run_all, live_after_all, run_all-IsCounted,
}
use gca.Roles.Quiet.{IsQuiet, destroy-Settles, copy-Settles}

abbrev pub AllQuiet : World → Type 0
AllQuiet w = (n : ℕ) → IsQuiet (w.heap n)

-- The operation returns, and no thread writes any object then.
abbrev pub Arrives : {A : Type 0} → World × Answer A → Type 0
Arrives {A} r = (a : A) × (r.1 ≡ done a) × AllQuiet r.0

pub bind-Arrives :
    {A B : Type 0} (m : M A) (f : A → M B) (w : World)
    → Arrives (m w)
    → ((a : A) (v : World) → AllQuiet v → Arrives (f a v))
    → Arrives ((m >>= f) w)
bind-Arrives m f w (a, e, q) next =
    subst (λ x. Arrives (resume f (m w).0 x)) (sym e) (next a (m w).0 q)

pub if-Arrives :
    {A : Type 0} (b : Bool) (x y : World × Answer A)
    → Arrives x
    → Arrives y
    → Arrives (if b then x else y)
if-Arrives true x y p q = p
if-Arrives false x y p q = q

quiet_change :
    (w : World) (n : ℕ) (h : Handle)
    → AllQuiet w
    → IsQuiet h
    → AllQuiet (change_handle n (λ _. h) w)
quiet_change w n h all q m = elim (Bool-cases (n == m)) [ inl e ↦ rw e q | inr e ↦ rw e (all m) ]

pub copy_handle-Arrives :
    (c : Call) (handle : ℕ) {src : Role} (w : World)
    → Old src
    → AllQuiet w
    → Arrives (copy_handle c handle src root w)
unfolding copy_handle copy
copy_handle-Arrives c handle w o all = elim (Bool-cases (handle == 0)) [
  | inl e ↦ rw e (handle, refl, all)
  | inr e ↦
      let (h, s, q) = copy-Settles c.thread c.at_copy (w.heap handle) o (all handle) in
      rw (e, s) (handle, refl, quiet_change w handle h all q)
]

pub destroy_handle-Arrives :
    (c : Call) (handle : ℕ) (w : World)
    → c.at_destroy ≡ []
    → AllQuiet w
    → Arrives (destroy_handle c handle root w)
unfolding destroy_handle destroy
destroy_handle-Arrives c handle w alone all = elim (Bool-cases (handle == 0)) [
  | inl e ↦ rw e (tt, refl, all)
  | inr e ↦
      let (h, s, q) = destroy-Settles c.thread (w.heap handle) (all handle) in
      rw (e, alone, s) (tt, refl, quiet_change w handle h all q)
]

destroy_unless_null-Arrives :
    (c : Call) (handle : ℕ) (w : World)
    → c.at_destroy ≡ []
    → AllQuiet w
    → Arrives (destroy_unless_null c handle root w)
unfolding destroy_unless_null
destroy_unless_null-Arrives c handle w alone all =
    if-Arrives (handle == 0) (w, done tt) (destroy_handle c handle root w) (tt, refl, all)
      (destroy_handle-Arrives c handle w alone all)

construct_from-Arrives :
    (c : Call) (this other : ℕ) {src : Role} (w : World)
    → Old src
    → AllQuiet w
    → Arrives (construct_from c this other src root w)
unfolding construct_from
construct_from-Arrives c this other {src} w o all =
    bind-Arrives (copy_handle c (w.field other) src root) (write this) w
      (copy_handle-Arrives c (w.field other) w o all) (λ m v q. (tt, refl, q))

set_unmanaged-Arrives :
    (s : Scene) (slot value : ℕ) {role : Role} (w : World)
    → s.call.at_destroy ≡ []
    → Old role
    → AllQuiet w
    → Arrives (Field.set_unmanaged s slot value role w)
unfolding Field.set_unmanaged
set_unmanaged-Arrives s slot value {role} w alone o all =
    if-Arrives (w.field slot == value) (w, done tt) _ (tt, refl, all)
      (bind-Arrives (copy_handle s.call value role root >>= write slot)
        (λ u. destroy_unless_null s.call (w.field slot) root) w
        (bind-Arrives (copy_handle s.call value role root) (write slot) w
          (copy_handle-Arrives s.call value w o all) (λ m v q. (tt, refl, q)))
        (λ u v q. destroy_unless_null-Arrives s.call (w.field slot) v alone q))

-- Operations on root handles and fields, none of which makes or ends a pin
abbrev pub HasNoPins : Operation → Type 0
HasNoPins (pin_of_root this other role) = ⊥
HasNoPins (pin_of_field this slot role) = ⊥
HasNoPins (end_pin this role) = ⊥
HasNoPins (root_of_pin this pin role) = Old role
HasNoPins (assign_field slot other role) = Old role
HasNoPins (root_of_root this other) = Unit
HasNoPins (root_of_field this slot) = Unit
HasNoPins (move_root this other) = Unit
HasNoPins (assign_moved this other) = Unit
HasNoPins (assign_null this) = Unit
HasNoPins (end_root this) = Unit

run-Arrives :
    (s : Scene) (op : Operation) (w : World)
    → HasNoPins op
    → s.call.at_destroy ≡ []
    → AllQuiet w
    → Arrives (run s op w)
unfolding run RootHandle.copy_construct RootHandle.of_field RootHandle.of_pin RootHandle.destruct
    RootHandle.assign_null RootHandle.move_construct RootHandle.move_assign
run-Arrives s (root_of_root this other) w p alone all =
    construct_from-Arrives s.call this other w of_root all
run-Arrives s (root_of_field this slot) w p alone all =
    construct_from-Arrives s.call this slot w of_field all
run-Arrives s (root_of_pin this pin role) w p alone all =
    construct_from-Arrives s.call this pin w p all
run-Arrives s (move_root this other) w p alone all = (tt, refl, all)
run-Arrives s (assign_moved this other) w p alone all =
    if-Arrives (other == this) (w, done tt) _ (tt, refl, all) (tt, refl, all)
run-Arrives s (assign_null this) w p alone all =
    bind-Arrives (destroy_unless_null s.call (w.field this) root) (λ u. write this 0) w
      (destroy_unless_null-Arrives s.call (w.field this) w alone all) (λ u v q. (tt, refl, q))
run-Arrives s (end_root this) w p alone all =
    destroy_unless_null-Arrives s.call (w.field this) w alone all
run-Arrives s (assign_field slot other role) w p alone all =
    set_unmanaged-Arrives s slot (w.field other) w alone p all
run-Arrives s (pin_of_root this other role) w p alone all = absurd p
run-Arrives s (pin_of_field this slot role) w p alone all = absurd p
run-Arrives s (end_pin this role) w p alone all = absurd p

abbrev pub AreQuiet : Program → Type 0
AreQuiet [] = Unit
AreQuiet ((s, op) ∷ rest) = HasNoPins op × (s.call.at_destroy ≡ []) × AreQuiet rest

run_all-Arrives : (p : Program) (w : World) → AreQuiet p → AllQuiet w → Arrives (run_all p w)
unfolding run_all
run_all-Arrives [] w h all = (tt, refl, all)
run_all-Arrives ((s, op) ∷ rest) w h all =
    bind-Arrives (run s op) (λ u. run_all rest) w (run-Arrives s op w h.0 h.1 all)
      (λ u v q. run_all-Arrives rest v h.2 q)

-- A program that constructs root handles from other handles, moves root handles into new or existing
-- ones, assigns null to them, assigns to fields outside all objects, and ends root handles,
-- each on variables that are live or fresh as it must be, with no thread writing any object and no
-- interference, returns: nothing throws or waits. Then the root count of an object that was the
-- number of live variables which point to it is that number again. Making and ending pins, the copy
-- assignment of root handles, and moves and the destructor of fields, are not among the operations.
pub run_all-returns :
    (n k : ℕ)
    → 0 < n
    → k < 2 ^ 64 - 1
    → (p : Program) (live : Variables) (w : World) → AreAllowed k live p
    → AreQuiet p
    → AllQuiet w
    → IsCounted k live n w
    → (w' : World) × (run_all p w ≡ (w', done tt)) × IsCounted k (live_after_all p live) n w'
run_all-returns n k pos room p live w a h all c =
    let (u, e, q) = run_all-Arrives p w h all in
    ((run_all p w).0, λ i. ((run_all p w).0, e i), run_all-IsCounted n k pos room p live w a c tt e)
