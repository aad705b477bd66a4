-- ===== src/Fields/Bodies.antt =====
-- An assignment to a field leaves the bodies of all handles alone.
use gca.Base.{ℕ, ◌≡◌, List, Option-cases, inl, inr, arith}
use gca.Handle.{Handle}
use gca.Handle.Body.{body, SameBodies}
use gca.Handle.Laws.{mark_garbage_lem}
use gca.RwLock.{RwLock, Interference}
use gca.Fields.{
  Store, on_object, write_access, add_reference, remove_reference, leave_old_value, set_field,
}

remove_reference-body :
    (t this : ℕ) (l : RwLock) (h : Handle) → body (remove_reference t this l h) ≡ body h
unfolding remove_reference
remove_reference-body t this l h = ground (arith, mark_garbage_lem h)

leave_old_value-SameBodies :
    (t : ℕ) (between : List Interference) (this field new : ℕ) (s : Store)
    → SameBodies s.heap (leave_old_value t between this field new s).0.heap
unfolding leave_old_value
leave_old_value-SameBodies t between this field new s = record {
  same = λ x. elim (Option-cases (write_access t between (s.heap (s.field field)).object_lock)) [
    | inl e ↦ ground (arith, e)
    | inr (l, e) ↦ ground (arith, e, remove_reference-body t this l (s.heap (s.field field)))
  ];
}

pub set_field-SameBodies :
    (t : ℕ) (between_new between_old : List Interference) (this field new : ℕ) (s : Store)
    → SameBodies s.heap (set_field t between_new between_old this field new s).0.heap
unfolding set_field add_reference
set_field-SameBodies t between_new between_old this field new s = record {
  same = λ x. elim (Option-cases (write_access t between_new (s.heap new).object_lock)) [
    | inl e ↦ ground (arith, e, (leave_old_value-SameBodies t between_old this field new s).same x)
    | inr (l, e) ↦ ground (
      arith,
      e,
      (leave_old_value-SameBodies t between_old this field new s).same x,
      (leave_old_value-SameBodies t between_old this field new
            (on_object s new (add_reference t this l))).same
          x,
    )
  ];
}
