-- ===== src/Dyn/Flaws.antt =====
-- What the assignment of a polymorphic field outside all objects leaves behind.
use gca.Base.{
  ℕ, ◌+◌, ◌-◌, ◌%◌, ◌^◌, ◌<◌, ◌≡◌, ◌≢◌, refl, ap, ◌∙◌, Bool, true, false, none, some, ◌==◌,
  if◌then◌else◌, inl, inr, Bool-cases, arith,
}
use gca.Base.Family.{update, total}
use gca.Roles.{Role, root, Answer, done, add_root}
use gca.Roles.Counts.{Old}
use gca.World.{World, ◌>>=◌, ◌>>◌, resume, change_handle}
use gca.Tagged.{get, get_data}
use gca.Handles.{copy_handle, write}
use gca.Handles.Field.{Scene, set_managed}
use gca.Handles.Counts.{bit, roots}
use gca.Handles.Invariant.{IsCounted, held, counted_change}
use gca.Handles.Flaws.{copy_root-handle}
use gca.Dyn.{Cast, convert}
use gca.Dyn.Field
use gca.Dyn.Field.{FieldAt}

-- The state after a conversion whose result has the given word
abbrev unmanaged : (f : FieldAt) → (new_value word : ℕ) → World → World
unmanaged f new_value word v = record (change_handle (get new_value) (λ h. add_root h) v) {
  field = update (update v.field f.offset (get_data word)) f.slot (get new_value);
}

assign-unmanaged :
    (s : Scene) (cast : Cast) (f : FieldAt) (new_value word : ℕ) {role : Role} (w v : World)
    → Old role
    → f.obj ≡ 0
    → 0 < get new_value
    → convert s.call cast new_value w ≡ (v, done word)
    → Field.assign s cast f new_value role w ≡ (unmanaged f new_value word v, done tt)
unfolding Field.assign
assign-unmanaged s cast f new_value word {role} w v old free pos e =
    let given : World = record v { field = update v.field f.offset (get_data word) } in
    ap
      (λ (r : World × Answer ℕ).
        resume
          (λ handle. λ u.
            (write f.offset (get_data handle)
                >> (if f.obj == 0
                    then copy_handle s.call (get new_value) role root >>= write f.slot
                    else set_managed s f.obj f.slot (get new_value) role))
              u)
          r.0 r.1)
      e
    ∙ rw (free, copy_root-handle s.call (get new_value) given old pos) refl

-- A field outside all objects holds an object whose root count is the number of variables that
-- point to it. Assigning it a handle of the same type to another object makes the field point to
-- that one, but the old object's root count stays and is one more than that number from then on.
pub assign-leaks :
    (s : Scene) (f : FieldAt) (new_value k : ℕ) (live : ℕ → Bool) {role : Role} (w : World)
    → Old role
    → f.obj ≡ 0
    → 0 < get new_value
    → 0 < w.field f.slot
    → get new_value ≢ w.field f.slot
    → f.slot < k
    → live f.slot ≡ true
    → f.offset < k
    → live f.offset ≡ false
    → k < 2 ^ 64 - 1
    → IsCounted k live (w.field f.slot) w
    → (w' : World) × (Field.assign s none f new_value role w ≡ (w', done tt))
      × (w'.field f.slot ≡ get new_value)
      × (roots w' (w.field f.slot) ≡ total (bit (w.field f.slot)) k (held live w'.field) + 1)
unfolding convert
assign-leaks s f new_value k live w old free pos some_old apart in_k at_slot off_k at_offset room
      h =
    let x = w.field f.slot in
    let w' : World = unmanaged f new_value new_value w in
    let stored : ℕ → ℕ = update w.field f.offset (get_data new_value) in
    let kept : (roots w' x) ≡ roots w x = ground (arith, apart) in
    let offset_written =
      counted_change x some_old k room live live w.field stored f.offset (get_data new_value) false
        off_k (λ v. ground (arith, at_offset)) (λ v. refl) in
    let slot_written =
      counted_change x some_old k room live live stored w'.field f.slot (get new_value) true in_k
        (λ v. ground (arith, at_slot)) (λ v. refl) in
    let differ : (f.offset == f.slot) ≡ false = elim (Bool-cases (f.offset == f.slot)) [
      | inl e ↦ ground (arith, e, at_slot, at_offset)
      | inr e ↦ e
    ] in
    let at_x : held live stored f.slot ≡ x = ground (arith, differ, at_slot) in
    let none_held : held live w.field f.offset ≡ 0 = ground (arith, at_offset) in
    (
      w',
      assign-unmanaged s none f new_value new_value w w old free pos refl,
      ground arith,
      ground (arith, kept, h, offset_written, slot_written, at_x, none_held, apart, some_old),
    )

-- A handle whose cast to the field's type fails is assigned to a field outside all objects: the
-- field points to the handle's object nevertheless, at the offset 0, and the object has a root for
-- it.
pub assign-keeps_failed :
    (s : Scene) (cast : World → ℕ → ℕ) (f : FieldAt) (new_value : ℕ) {role : Role} (w v : World)
    → Old role
    → f.obj ≡ 0
    → f.offset ≢ f.slot
    → 0 < get new_value
    → convert s.call (some cast) new_value w ≡ (v, done 0)
    → (w' : World) × (Field.assign s (some cast) f new_value role w ≡ (w', done tt))
      × (w'.field f.slot ≡ get new_value)
      × (w'.field f.offset ≡ 0)
      × (roots w' (get new_value) ≡ (roots v (get new_value) + 1) % 2 ^ 64)
unfolding get_data
assign-keeps_failed s cast f new_value w v old free apart pos e = (
  unmanaged f new_value 0 v,
  assign-unmanaged s (some cast) f new_value 0 w v old free pos e,
  ground arith,
  ground (arith, apart),
  ground arith,
)
