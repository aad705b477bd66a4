-- ===== src/Handles/Moves.antt =====
-- The move assignment of `field` outside all objects, from a field that is null.
use gca.Base.{
  ℕ, ◌<◌, ◌≡◌, ◌≢◌, refl, ap, ◌∙◌, true, false, ◌&&◌, ==_refl, some, List, [], ◌∷◌, ◌==◌, arith,
}
use gca.Base.Family.{update}
use gca.Handle.Laws.{is_marked_garbage-mark_garbage}
use gca.Handle.{Handle, Heap, mark_garbage, is_marked_garbage}
use gca.Roles.{Role, root, field, done, Answer, add_root, destroy, copy, is_nil}
use gca.Roles.Counts.{Old, of_field}
use gca.Roles.Laws.{destroy-last_root}
use gca.Lookup.{owns, get_owning_object, lookup_object_or_get_owning_object}
use gca.World.{World, resume, change_handle}
use gca.Handles.{copy_handle, destroy_handle, destroy_unless_null}
use gca.Handles.Field
use gca.Handles.Field.{Scene, FieldAt, owner}
use gca.Handles.Counts.{roots}
use gca.Handles.Flaws.{copy_root-handle}

-- Headers of objects at the same places give the same owners.
get_owning_object-ext :
    (heap heap' : Heap) (entries : List (ℕ × ℕ)) (obj : ℕ)
    → ((n : ℕ) → owns (heap' n) obj ≡ owns (heap n) obj)
    → get_owning_object heap' entries obj ≡ get_owning_object heap entries obj
unfolding get_owning_object
get_owning_object-ext heap heap' [] obj same = refl
get_owning_object-ext heap heap' ((a, n) ∷ rest) obj same =
    rw (same n, get_owning_object-ext heap heap' rest obj same) refl

owner-change :
    (s : Scene) (w : World) (f : FieldAt) (x : ℕ) (h : Handle)
    → h.address ≡ (w.heap x).address
    → h.size ≡ (w.heap x).size
    → owner s (change_handle x (λ _. h) w) f ≡ owner s w f
unfolding lookup_object_or_get_owning_object owns
owner-change s w f x h a z =
    let e : get_owning_object (change_handle x (λ _. h) w).heap s.entries f.this
        ≡ get_owning_object w.heap s.entries f.this =
      get_owning_object-ext w.heap (change_handle x (λ _. h) w).heap s.entries f.this
        (λ n. ground (arith, a, z)) in
    rw e refl

-- Setting a field to null destroys its old value.
set_unmanaged-null :
    (s : Scene) (slot : ℕ) (role : Role) (w : World) (h : Handle)
    → 0 < w.field slot
    → destroy s.call.thread s.call.at_destroy (some (w.heap (w.field slot))) root ≡ done (some h)
    → Field.set_unmanaged s slot 0 role w ≡ (
      change_handle (w.field slot) (λ _. h) (record w { field = update w.field slot 0 }),
      done tt,
    )
unfolding Field.set_unmanaged copy_handle copy destroy_unless_null destroy_handle
set_unmanaged-null s slot role w h pos e =
    let apart : (w.field slot == 0) ≡ false = ground arith in rw (apart, e) refl

-- Setting a null field copies the value.
set_unmanaged-fill :
    (s : Scene) (slot value : ℕ) {role : Role} (w : World)
    → Old role
    → w.field slot ≡ 0
    → 0 < value
    → Field.set_unmanaged s slot value role w ≡ (
      record (change_handle value (λ h. add_root h) w) { field = update w.field slot value },
      done tt,
    )
unfolding Field.set_unmanaged destroy_unless_null
set_unmanaged-fill s slot value w o null pos =
    let apart : (0 == value) ≡ false = ground arith in
    rw (null, apart, copy_root-handle s.call value w o pos) refl

set-unmanaged :
    (s : Scene) (f : FieldAt) (value : ℕ) (role : Role) (w : World)
    → owner s w f ≡ 0
    → Field.set s f value role w ≡ Field.set_unmanaged s f.slot value role w
unfolding Field.set
set-unmanaged s f value role w o = rw o refl

-- An object that the last root was taken from
abbrev pub dropped : Handle → Handle
dropped h = record h { root_handle_count = 0; flags = (mark_garbage h).flags }

pub destroy-dropped :
    (t : ℕ) (h : Handle)
    → h.root_handle_count ≡ 1
    → h.object_lock.word ≡ 0
    → h.object_lock.owner t ≡ false
    → is_nil h.referenced_by ≡ true
    → destroy t [] (some h) root ≡ done (some (dropped h))
destroy-dropped t h one free own nil =
    let e : is_nil h.referenced_by && (h.object_lock.word == 0) ≡ true =
      ground (arith, nil, free) in
    destroy-last_root t h one (omega (arith, free)) own ∙ rw e refl

pub dropped-garbage : (h : Handle) → is_marked_garbage (add_root (dropped h)) ≡ true
unfolding is_marked_garbage
dropped-garbage h = is_marked_garbage-mark_garbage h

pub dropped-flagged : (h : Handle) → is_marked_garbage (dropped h) ≡ true
unfolding is_marked_garbage
dropped-flagged h = is_marked_garbage-mark_garbage h

-- A null field is move-assigned to one that is the only holder of an object, both outside all
-- objects. No thread locks the object, none refers to it, and nobody else is at work. Then the move
-- returns and the other field holds the object, whose root count is 1, but it is flagged as garbage.
pub move_assign-flags_held :
    (s s' : Scene) (this other : FieldAt) (w : World)
    → other.this ≢ this.this
    → other.slot ≢ this.slot
    → owner s w this ≡ 0
    → owner s' w other ≡ 0
    → s.call.at_destroy ≡ []
    → 0 < w.field this.slot
    → w.field other.slot ≡ 0
    → (w.heap (w.field this.slot)).root_handle_count ≡ 1
    → (w.heap (w.field this.slot)).object_lock.word ≡ 0
    → (w.heap (w.field this.slot)).object_lock.owner s.call.thread ≡ false
    → is_nil (w.heap (w.field this.slot)).referenced_by ≡ true
    → (w' : World) × (Field.move_assign s s' this other w ≡ (w', done tt))
      × (w'.field other.slot ≡ w.field this.slot)
      × (roots w' (w.field this.slot) ≡ 1)
      × (is_marked_garbage (w'.heap (w.field this.slot)) ≡ true)
unfolding Field.move_assign Field.set_to Field.set
move_assign-flags_held s s' this other w apart slots o o' alone pos null one free own nil =
    let x = w.field this.slot in
    let h' = dropped (w.heap x) in
    let v : World = change_handle x (λ _. h') (record w { field = update w.field this.slot 0 }) in
    let w' : World = record (change_handle x (λ h. add_root h) v) {
      field = update v.field other.slot x;
    } in
    let first : Field.set_unmanaged s this.slot 0 field w ≡ (v, done tt) =
      set_unmanaged-null s this.slot field w h' pos
        (rw alone (destroy-dropped s.call.thread (w.heap x) one free own nil)) in
    let second : Field.set_unmanaged s' other.slot x field v ≡ (w', done tt) =
      set_unmanaged-fill s' other.slot x v of_field (ground (arith, null)) pos in
    let once : (w'.heap x) ≡ add_root h' = rw (==_refl x) refl in
    let e1 : Field.set s this (w.field other.slot) field w ≡ (v, done tt) =
      set-unmanaged s this (w.field other.slot) field w o
      ∙ ap (λ m. Field.set_unmanaged s this.slot m field w) null
      ∙ first in
    let e2 : Field.set s' other x field v ≡ (w', done tt) =
      set-unmanaged s' other x field v (
        owner-change s' (record w { field = update w.field this.slot 0 }) other x h' refl refl ∙ o')
      ∙ second in
    let differ : (other.this == this.this) ≡ false = ground (arith, apart) in
    (
      w',
      rw differ (
          ap (λ (r : World × Answer (Unit {0})). resume (λ u. Field.set s' other x field) r.0 r.1)
            e1
          ∙ e2),
      ground (arith, slots),
      ap (λ (h : Handle). h.root_handle_count) once,
      ap is_marked_garbage once ∙ dropped-garbage (w.heap x),
    )
