-- ===== src/Fields/Returns.antt =====
-- When an assignment to a field returns, and what it does to the lock of the old value.
use gca.Base.{
  ℕ, ◌<◌, ◌≡◌, ◌≢◌, subst, true, false, [], length, ◌==◌, Bool-cases, inl, inr, ◌⊎◌, arith,
}
use gca.RwLock.{RwLock, release}
use gca.Handle.{Handle, is_marked_garbage}
use gca.Fields.{
  Store, finished, find_reference, on_object, write_access, release_acquired, add_reference,
  remove_reference, leave_old_value, set_field,
}
use gca.Fields.Laws.{Writable, write_access-Writable}

-- The object is recorded as referring to the value that the field points to.
abbrev pub IsRecorded : Store → (this field : ℕ) → Type 0
IsRecorded s this field =
    find_reference (s.heap (s.field field)).referenced_by this
    ≢ length (s.heap (s.field field)).referenced_by

leave_old_value-finished :
    (t this field new : ℕ) (s : Store)
    → (s.field field ≡ 0)
      ⊎ Writable t (s.heap (s.field field)).object_lock × IsRecorded s this field
    → (leave_old_value t [] this field new s).1 ≡ finished
unfolding leave_old_value
leave_old_value-finished t this field new s (inl n) = ground (arith, n)
leave_old_value-finished t this field new s (inr (w, known)) =
    let (l, got) = write_access-Writable t (s.heap (s.field field)).object_lock w in
    ground (arith, got, known)

-- Telling the new value first changes nothing for another old value.
apart_old :
    (t this field new : ℕ) (l : RwLock) (s : Store)
    → (s.field field == new) ≡ false
    → (s.field field ≡ 0)
      ⊎ Writable t (s.heap (s.field field)).object_lock × IsRecorded s this field
    → (s.field field ≡ 0)
      ⊎ Writable t ((on_object s new (add_reference t this l)).heap (s.field field)).object_lock
        × IsRecorded (on_object s new (add_reference t this l)) this field
apart_old t this field new l s e (inl n) = inl n
apart_old t this field new l s e (inr p) =
    let kept : s.heap (s.field field)
        ≡ (on_object s new (add_reference t this l)).heap (s.field field) =
      ground arith in
    inr (
      subst
        (λ (h : Handle).
          Writable t h.object_lock × (find_reference h.referenced_by this ≢ length h.referenced_by))
        kept p)

-- With nobody else at work, an assignment returns where the thread may write to the old and the new
-- value, neither the object nor the new value is garbage, and the old value knows the object.
pub set_field-finished :
    (t this field new : ℕ) (s : Store)
    → (s.field field ≡ 0)
      ⊎ Writable t (s.heap (s.field field)).object_lock × IsRecorded s this field
    → (new ≡ 0)
      ⊎ Writable t (s.heap new).object_lock
        × (is_marked_garbage (s.heap this) ≡ false)
        × (is_marked_garbage (s.heap new) ≡ false)
    → (set_field t [] [] this field new s).1 ≡ finished
unfolding set_field
set_field-finished t this field new s old (inl n) =
    ground (arith, n, leave_old_value-finished t this field new s old)
set_field-finished t this field new s old (inr (w, alive, fresh)) =
    let (l, got) = write_access-Writable t (s.heap new).object_lock w in
    let s' : Store = on_object s new (add_reference t this l) in
    elim (Bool-cases (s.field field == new)) [
      | inl e ↦ ground (arith, e)
      | inr e ↦ ground (
        arith,
        e,
        got,
        alive,
        fresh,
        leave_old_value-finished t this field new s' (apart_old t this field new l s e old),
      )
    ]

-- A thread that owns the lock of the value that a field points to owns it no more once it has set
-- the field to null: the lock is free.
pub set_field-releases :
    (t this field : ℕ) (s : Store)
    → 0 < field
    → 0 < s.field field
    → (s.heap (s.field field)).object_lock.word ≡ 129
    → (s.heap (s.field field)).object_lock.owner t ≡ true
    → IsRecorded s this field
    → ((set_field t [] [] this field 0 s).0.heap (s.field field)).object_lock.word ≡ 0
unfolding set_field leave_old_value remove_reference write_access release_acquired release
set_field-releases t this field s f o w own known = ground (arith, w, own, known)
