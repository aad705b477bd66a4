-- ===== src/Fields/Pinned.antt =====
-- `internal::SetField` of gc.cpp: a new value that comes from a pin for reading is upgraded around the
-- assignment and downgraded after it. `none` is a call that uses a null pointer. The assertion
-- that `obj` is not null is taken to hold.
use gca.Base.{
  ℕ, ◌<◌, ◌≡◌, ap, ◌∙◌, Bool, not, true, false, Option, none, some, List, [], ◌==◌, if◌then◌else◌,
  inl, inr, Option-cases, arith,
}
use gca.RwLock.{RwLock, Interference, try_upgrade, upgrade, down_grade}
use gca.Roles
use gca.Roles.{Role, root, ro_pin, rw_pin, internal_initialization}
use gca.Fields.{
  Store, Ended, spinning, on_object, write_access, release_acquired, add_reference, leave_old_value,
  set_field,
}

abbrev pub is_ro_pin : Role → Bool
is_ro_pin ro_pin = true
is_ro_pin root = false
is_ro_pin Roles.field = false
is_ro_pin rw_pin = false
is_ro_pin internal_initialization = false

abbrev pub with_lock : ℕ → RwLock → Store → Store
with_lock n l s = on_object s n (λ h. record h { object_lock = l })

-- The assignment and the deferred downgrade, once the new value's lock is upgraded.
unfoldable pub set_upgraded :
    ℕ → (between_new between_old : List Interference) → (obj field new : ℕ) → Store → Store × Ended
unfolding set_field down_grade
set_upgraded t between_new between_old obj field new s =
    let (s', end) = set_field t between_new between_old obj field new s in
    (with_lock new (down_grade t (s'.heap new).object_lock) s', end)

unfoldable pub set_field_from :
    ℕ
    → (between_upgrade between_new between_old : List Interference) → (obj field new : ℕ) → Role
    → Store
    → Option (Store × Ended)
unfolding set_upgraded upgrade set_field
set_field_from t between_upgrade between_new between_old obj field new role s =
    let plain = set_field t between_new between_old obj field new s in
    let upgraded = upgrade t between_upgrade (s.heap new).object_lock in
    if not (is_ro_pin role) then some plain else if new == 0 then none else elim upgraded [
      | none ↦ some (s, spinning)
      | some l ↦ some (set_upgraded t between_new between_old obj field new (with_lock new l s))
    ]

lock-leave_old_value :
    (t : ℕ) (between_old : List Interference) (obj field new : ℕ) (s : Store)
    → (s.field field == new) ≡ false
    → ((leave_old_value t between_old obj field new s).0.heap new).object_lock
      ≡ (s.heap new).object_lock
unfolding leave_old_value
lock-leave_old_value t between_old obj field new s apart =
    elim (Option-cases (write_access t between_old (s.heap (s.field field)).object_lock)) [
      | inl w ↦ ground (arith, w, apart)
      | inr (l, w) ↦ ground (arith, w, apart)
    ]

-- A thread that has write access to the new value keeps its lock as it is through an assignment.
lock-set_field :
    (t : ℕ) (between_new between_old : List Interference) (obj field new : ℕ) (s : Store)
    → (s.heap new).object_lock.owner t ≡ true
    → ((set_field t between_new between_old obj field new s).0.heap new).object_lock
      ≡ (s.heap new).object_lock
unfolding set_field write_access add_reference release_acquired
lock-set_field t between_new between_old obj field new s own =
    let l = (s.heap new).object_lock in
    ground (
      arith,
      own,
      lock-leave_old_value t between_old obj field new s,
      lock-leave_old_value t between_old obj field new (on_object s new (add_reference t obj l)),
    )

-- The new value comes from a pin for reading whose thread is the only reader and no writer: the
-- call does not use a null pointer, and it ends with the value's lock held for reading by the same
-- thread again, even where the assignment throws or does not return.
pub set_field_from-keeps_pin :
    (t : ℕ) (between_new between_old : List Interference) (obj field new : ℕ) (s : Store)
    → 0 < new
    → (s.heap new).object_lock.word ≡ 1
    → (s' : Store) × (end : Ended) × (set_field_from t [] between_new between_old obj field new
          ro_pin s
        ≡ some (s', end))
      × ((s'.heap new).object_lock.word ≡ 1)
      × ((s'.heap new).object_lock.owner t ≡ false)
unfolding set_field_from set_upgraded upgrade try_upgrade down_grade
set_field_from-keeps_pin t between_new between_old obj field new s pos w =
    let l : RwLock = (try_upgrade t (s.heap new).object_lock).0 in
    let kept =
      lock-set_field t between_new between_old obj field new (with_lock new l s) (ground arith) in
    let word : ((set_field t between_new between_old obj field new (with_lock new l s)).0.heap
          new).object_lock.word
        ≡ 129 =
      ap (λ (k : RwLock). k.word) kept ∙ ground arith in
    (
      (set_upgraded t between_new between_old obj field new (with_lock new l s)).0,
      (set_upgraded t between_new between_old obj field new (with_lock new l s)).1,
      ground (arith, w),
      ground (arith, word),
      ground (arith, word),
    )
