-- ===== src/Handles/Programs.antt =====
-- Programs that work on handles: sequences of operations, each on some of the variables. The copy
-- assignment of `root_handle` is no such operation, for it breaks the count of roots (Handles/Flaws);
-- nor are its conversion for constant objects, and moves and the destructor of `field`.
use gca.Base.{ℕ, ◌-◌, ◌^◌, ◌<◌, ◌≡◌, Bool, true, false, List, [], ◌∷◌}
use gca.Base.Family.{update}
use gca.Roles.{Role}
use gca.Roles.Counts.{Rooted, Old, as_root, of_root, of_field}
use gca.World.{World, M, pure, ◌>>=◌, ◌>>◌}
use gca.World.Lands.{Lands, done-Lands, bind-Lands}
use gca.Handles.{read}
use gca.Handles.RootHandle
use gca.Handles.Pin
use gca.Handles.Field
use gca.Handles.Field.{Scene}
use gca.Handles.Invariant.{
  IsCounted, construct_from-IsCounted, destruct-IsCounted, assign_null-IsCounted,
  move_construct-IsCounted, move_assign-IsCounted, set_unmanaged-IsCounted,
}

-- Constructing a root handle from a root handle, a field or a pin, and a pin from a root handle or a
-- field; moving and move-assigning a root handle; assigning null to it; the destructors of root
-- handles and pins; and assigning to a field outside all objects.
pub data Operation : Type 0 where
  root_of_root root_of_field move_root assign_moved : (this other : ℕ) → Operation
  root_of_pin : (this pin : ℕ) → Role → Operation
  pin_of_root pin_of_field : (this other : ℕ) → Role → Operation
  assign_null end_root : (this : ℕ) → Operation
  end_pin : (this : ℕ) → Role → Operation
  assign_field : (slot other : ℕ) → Role → Operation

unfoldable pub run : Scene → Operation → M (Unit {0})
unfolding RootHandle.copy_construct RootHandle.of_field RootHandle.move_construct
    RootHandle.move_assign RootHandle.of_pin Pin.of_root Pin.of_field RootHandle.assign_null
    RootHandle.destruct Pin.destruct Field.set_unmanaged
run s (root_of_root this other) = RootHandle.copy_construct s.call this other
run s (root_of_field this slot) = RootHandle.of_field s.call this slot
run s (move_root this other) = RootHandle.move_construct this other
run s (assign_moved this other) = RootHandle.move_assign this other
run s (root_of_pin this pin role) = RootHandle.of_pin s.call this pin role
run s (pin_of_root this other role) = Pin.of_root s.call this other role
run s (pin_of_field this slot role) = Pin.of_field s.call this slot role
run s (assign_null this) = RootHandle.assign_null s.call this
run s (end_root this) = RootHandle.destruct s.call this
run s (end_pin this role) = Pin.destruct s.call this role
run s (assign_field slot other role) = read other >>= λ value. Field.set_unmanaged s slot value role

abbrev pub Variables : Type 0
Variables = ℕ → Bool

-- The variables that are live afterwards
abbrev pub live_after : Operation → Variables → Variables
live_after (root_of_root this other) live = update live this true
live_after (root_of_field this slot) live = update live this true
live_after (move_root this other) live = update live this true
live_after (assign_moved this other) live = live
live_after (root_of_pin this pin role) live = update live this true
live_after (pin_of_root this other role) live = update live this true
live_after (pin_of_field this slot role) live = update live this true
live_after (assign_null this) live = live
live_after (end_root this) live = update live this false
live_after (end_pin this role) live = update live this false
live_after (assign_field slot other role) live = live

abbrev IsFresh : (k : ℕ) → Variables → ℕ → Type 0
IsFresh k live v = (v < k) × (live v ≡ false)

abbrev IsLive : (k : ℕ) → Variables → ℕ → Type 0
IsLive k live v = (v < k) × (live v ≡ true)

-- Constructors work on fresh variables, all else on live ones, and roles are as the types say.
abbrev pub IsAllowed : (k : ℕ) → Variables → Operation → Type 0
IsAllowed k live (root_of_root this other) = IsFresh k live this
IsAllowed k live (root_of_field this slot) = IsFresh k live this
IsAllowed k live (move_root this other) = IsFresh k live this × IsLive k live other
IsAllowed k live (assign_moved this other) = IsLive k live this × IsLive k live other
IsAllowed k live (root_of_pin this pin role) = IsFresh k live this × Old role
IsAllowed k live (pin_of_root this other role) = IsFresh k live this × Rooted role
IsAllowed k live (pin_of_field this slot role) = IsFresh k live this × Rooted role
IsAllowed k live (assign_null this) = IsLive k live this
IsAllowed k live (end_root this) = IsLive k live this
IsAllowed k live (end_pin this role) = IsLive k live this × Rooted role
IsAllowed k live (assign_field slot other role) = IsLive k live slot × Old role

abbrev pub Program : Type 0
Program = List (Scene × Operation)

unfoldable pub run_all : Program → M (Unit {0})
unfolding run
run_all [] = pure tt
run_all ((s, op) ∷ rest) = run s op >> run_all rest

abbrev pub live_after_all : Program → Variables → Variables
live_after_all [] live = live
live_after_all ((s, op) ∷ rest) live = live_after_all rest (live_after op live)

abbrev pub AreAllowed : (k : ℕ) → Variables → Program → Type 0
AreAllowed k live [] = Unit
AreAllowed k live ((s, op) ∷ rest) = IsAllowed k live op × AreAllowed k (live_after op live) rest

module _ (n : ℕ) (pos : 0 < n) (k : ℕ) (room : k < 2 ^ 64 - 1) where
  run-IsCounted :
      (s : Scene) (op : Operation) (live : Variables) (w : World)
      → IsAllowed k live op
      → IsCounted k live n w
      → Lands (λ w' u. IsCounted k (live_after op live) n w') (run s op w)
  unfolding run RootHandle.copy_construct RootHandle.of_field RootHandle.of_pin Pin.of_root
      Pin.of_field RootHandle.destruct Pin.destruct
  run-IsCounted s (root_of_root this other) live w a h =
      construct_from-IsCounted n pos k room s.call live this other w a.0 a.1 of_root as_root h
  run-IsCounted s (root_of_field this slot) live w a h =
      construct_from-IsCounted n pos k room s.call live this slot w a.0 a.1 of_field as_root h
  run-IsCounted s (move_root this other) live w a h =
      move_construct-IsCounted n pos k room live this other w a.0.0 a.1.0 a.0.1 a.1.1 h
  run-IsCounted s (assign_moved this other) live w a h =
      move_assign-IsCounted n pos k room live this other w a.0.0 a.1.0 a.0.1 a.1.1 h
  run-IsCounted s (root_of_pin this pin role) live w a h =
      construct_from-IsCounted n pos k room s.call live this pin w a.0.0 a.0.1 a.1 as_root h
  run-IsCounted s (pin_of_root this other role) live w a h =
      construct_from-IsCounted n pos k room s.call live this other w a.0.0 a.0.1 of_root a.1 h
  run-IsCounted s (pin_of_field this slot role) live w a h =
      construct_from-IsCounted n pos k room s.call live this slot w a.0.0 a.0.1 of_field a.1 h
  run-IsCounted s (assign_null this) live w a h =
      assign_null-IsCounted n pos k room s.call live this w a.0 a.1 h
  run-IsCounted s (end_root this) live w a h =
      destruct-IsCounted n pos k room s.call live this w a.0 a.1 as_root h
  run-IsCounted s (end_pin this role) live w a h =
      destruct-IsCounted n pos k room s.call live this w a.0.0 a.0.1 a.1 h
  run-IsCounted s (assign_field slot other role) live w a h =
      set_unmanaged-IsCounted n pos k room s live slot (w.field other) w a.0.0 a.0.1 a.1 h

-- A program that constructs root handles and pins from other handles, moves root handles into new or
-- existing ones, assigns null to them, assigns to fields outside all objects, and ends root handles
-- and pins, each on variables that are live or fresh as it must be and lie below `k`, keeps the root
-- count of an object: if it is the number of live variables that point to the object, it is so where
-- the program returns, whatever other threads do to the locks meanwhile. The copy assignment of root
-- handles, and moves and the destructor of fields, are not among the operations.
pub run_all-IsCounted :
    (n k : ℕ)
    → 0 < n
    → k < 2 ^ 64 - 1
    → (p : Program) (live : Variables) (w : World) → AreAllowed k live p
    → IsCounted k live n w
    → Lands (λ w' u. IsCounted k (live_after_all p live) n w') (run_all p w)
unfolding run_all
run_all-IsCounted n k pos room [] live w a h = done-Lands (λ w' u. IsCounted k live n w') w tt h
run_all-IsCounted n k pos room ((s, op) ∷ rest) live w a h =
    bind-Lands (λ v u. IsCounted k (live_after op live) n v)
      (λ w' u. IsCounted k (live_after_all rest (live_after op live)) n w') (run s op)
      (λ u. run_all rest) w (run-IsCounted n pos k room s op live w a.0 h)
      (λ u v g. run_all-IsCounted n k pos room rest (live_after op live) v a.1 g)
