-- ===== src/Fields/Laws.antt =====
-- What an assignment to a field leaves: the field, the references both ways, and the locks.
use gca.Base.{
  ℕ, ◌+◌, ◌<◌, ◌≡◌, ◌≢◌, true, not, ◌&&◌, some, List, [], length, ◌==◌, Bool-cases, Option-cases,
  inl, inr, ◌⊎◌, arith,
}
use gca.Base.Family.{update}
use gca.RwLock.{RwLock, Interference}
use gca.Handle.{Handle}
use gca.Fields.{
  Store, finished, on_object, find_reference, write_access, add_reference, remove_reference,
  leave_old_value, set_field,
}
use gca.Fields.References.{bit, count, count-append, count-swap_pop}

-- How often `r` is recorded as referring to `o`.
abbrev pub references : Store → ℕ → ℕ → ℕ
references s o r = count r (s.heap o).referenced_by

count-remove_reference :
    (t this : ℕ) (l : RwLock) (old : Handle) (r : ℕ)
    → find_reference old.referenced_by this ≢ length old.referenced_by
    → count r (remove_reference t this l old).referenced_by + bit (this == r)
      ≡ count r old.referenced_by
unfolding remove_reference
count-remove_reference t this l old r h = count-swap_pop r this old.referenced_by h

count-add_reference :
    (t this : ℕ) (l : RwLock) (new : Handle) (r : ℕ)
    → count r (add_reference t this l new).referenced_by
      ≡ count r new.referenced_by + bit (this == r)
unfolding add_reference
count-add_reference t this l new r = count-append r this new.referenced_by

-- The parts of a call that ends: an object that is pointed to no more loses one reference.
references-leave_old_value :
    (t : ℕ) (between_old : List Interference) (this field new : ℕ) (s : Store) (o r : ℕ)
    → (leave_old_value t between_old this field new s).1 ≡ finished
    → references (leave_old_value t between_old this field new s).0 o r
        + bit (not (s.field field == 0) && (s.field field == o) && (this == r))
      ≡ references s o r
unfolding leave_old_value
references-leave_old_value t between_old this field new s o r e =
    elim (Option-cases (write_access t between_old (s.heap (s.field field)).object_lock)) [
      | inl w ↦ ground (arith, w, e)
      | inr (l, w) ↦
          ground (arith, w, e, count-remove_reference t this l (s.heap (s.field field)) r)
    ]

-- After an assignment that returns, and for every object `o` and every object `r`: `r` is recorded
-- as referring to `o` as often as before, but once less if the field is one of `r` and pointed to
-- `o`, and once more if it is one of `r` and now points to `o`.
pub references-set_field :
    (t : ℕ) (between_new between_old : List Interference) (this field new : ℕ) (s : Store) (o r : ℕ)
    → 0 < field
    → (set_field t between_new between_old this field new s).1 ≡ finished
    → references (set_field t between_new between_old this field new s).0 o r
        + bit (not (s.field field == 0) && (s.field field == o) && (this == r))
      ≡ references s o r + bit (not (new == 0) && (new == o) && (this == r))
unfolding set_field
references-set_field t between_new between_old this field new s o r f e =
    elim (Option-cases (write_access t between_new (s.heap new).object_lock)) [
      | inl w ↦ ground (arith, w, e, references-leave_old_value t between_old this field new s o r)
      | inr (l, w) ↦
          let s' : Store = on_object s new (add_reference t this l) in
          ground (
            arith,
            w,
            e,
            count-add_reference t this l (s.heap new) r,
            references-leave_old_value t between_old this field new s o r,
            references-leave_old_value t between_old this field new s' o r,
          )
    ]

field-leave_old_value :
    (t : ℕ) (between_old : List Interference) (this field new : ℕ) (s : Store) (f : ℕ)
    → (leave_old_value t between_old this field new s).1 ≡ finished
    → (leave_old_value t between_old this field new s).0.field f ≡ update s.field field new f
unfolding leave_old_value
field-leave_old_value t between_old this field new s f e =
    elim (Option-cases (write_access t between_old (s.heap (s.field field)).object_lock)) [
      | inl w ↦ ground (arith, w, e)
      | inr (l, w) ↦ ground (arith, w, e)
    ]

-- An assignment that returns leaves the new value in its field and every other field as it was.
pub field-set_field :
    (t : ℕ) (between_new between_old : List Interference) (this field new : ℕ) (s : Store) (f : ℕ)
    → 0 < field
    → (set_field t between_new between_old this field new s).1 ≡ finished
    → (set_field t between_new between_old this field new s).0.field f ≡ update s.field field new f
unfolding set_field
field-set_field t between_new between_old this field new s f nonnull e =
    elim (Option-cases (write_access t between_new (s.heap new).object_lock)) [
      | inl w ↦ ground (arith, w, e, field-leave_old_value t between_old this field new s f)
      | inr (l, w) ↦
          let s' : Store = on_object s new (add_reference t this l) in
          ground (
            arith,
            w,
            e,
            field-leave_old_value t between_old this field new s f,
            field-leave_old_value t between_old this field new s' f,
          )
    ]

-- The thread has write access to the lock, or the lock is free.
abbrev pub Writable : ℕ → RwLock → Type 0
Writable t l = (l.owner t ≡ true) ⊎ (l.word ≡ 0)

pub write_access-Writable :
    (t : ℕ) (l : RwLock) → Writable t l → (l' : RwLock) × (write_access t [] l ≡ some l')
unfolding write_access
write_access-Writable t l (inl o) = (l, ground (arith, o))
write_access-Writable t l (inr w) = elim (Bool-cases (l.owner t)) [
  | inl o ↦ (l, ground (arith, o))
  | inr o ↦ (record { word = 129; owner = update l.owner t true }, ground (arith, o, w))
]
