-- ===== src/Roles/Quiet.antt =====
-- `Copy` and `Destroy` of roots where no thread writes the object: they return, and no thread writes
-- it then.
use gca.Base.{
  ℕ, ◌^◌, ◌<◌, ◌≡◌, refl, sym, ap, ◌∙◌, subst, Bool, true, false, ◌&&◌, Option, some, List, [],
  ◌==◌, inl, inr, Bool-cases, arith,
}
use gca.RwLock.{RwLock, Interference, try_upgrade}
use gca.Handle.{Handle, mark_garbage}
use gca.Roles.{
  Role, root, Answer, done, add_root, drop_root, with_lock, unlock, is_nil, copy, copy_from,
  copy_unpinned, copy_pinned, destroy, destroy_root, drop_and_flag,
}
use gca.Roles.Laws.{reading, read_acquired, released_read, upgraded_back}
use gca.Roles.Counts.{Old, of_root, of_field, of_ro_pin, of_rw_pin}

-- No thread writes the object, and its root count is a word.
abbrev pub IsQuiet : Handle → Type 0
IsQuiet h =
    (h.object_lock.word < 128)
    × ((t : ℕ) → h.object_lock.owner t ≡ false)
    × (h.root_handle_count < 2 ^ 64)

-- The test by which `Destroy` flags an object
abbrev flags_it : ℕ → Handle → Bool
unfolding try_upgrade
flags_it t h =
    (drop_root h).root_handle_count == 0
    && is_nil h.referenced_by
    && (try_upgrade t h.object_lock).1

drop_and_flag-true :
    (t : ℕ) (h : Handle)
    → flags_it t h ≡ true
    → drop_and_flag t h ≡ mark_garbage (with_lock (drop_root h) (try_upgrade t h.object_lock).0)
unfolding drop_and_flag
drop_and_flag-true t h e = rw e refl

drop_and_flag-false : (t : ℕ) (h : Handle) → flags_it t h ≡ false → drop_and_flag t h ≡ drop_root h
unfolding drop_and_flag
drop_and_flag-false t h e = rw e refl

upgraded_from_zero :
    (t : ℕ) (h : Handle)
    → h.object_lock.word < 128
    → flags_it t (reading h) ≡ true
    → h.object_lock.word ≡ 0
unfolding try_upgrade
upgraded_from_zero t h b e = ground (arith, e, b)

dropped_lock :
    (t : ℕ) (h : Handle)
    → IsQuiet h
    → (unlock t (drop_and_flag t (reading h))).object_lock ≡ h.object_lock
unfolding mark_garbage
dropped_lock t h q = elim (Bool-cases (flags_it t (reading h))) [
  | inl e ↦
      ap (λ (k : Handle). (unlock t k).object_lock) (drop_and_flag-true t (reading h) e)
      ∙ upgraded_back t h.object_lock (upgraded_from_zero t h q.0 e) (q.1 t)
  | inr e ↦
      ap (λ (k : Handle). (unlock t k).object_lock) (drop_and_flag-false t (reading h) e)
      ∙ released_read t h.object_lock q.0 (q.1 t)
]

count-bound : (t : ℕ) (h : Handle) → (drop_and_flag t h).root_handle_count < 2 ^ 64
unfolding drop_and_flag mark_garbage
count-bound t h = elim (Bool-cases (flags_it t h)) [
  | inl e ↦ rw e (omega arith)
  | inr e ↦ rw e (omega arith)
]

IsQuiet-lock :
    (h k : Handle)
    → k.object_lock ≡ h.object_lock
    → k.root_handle_count < 2 ^ 64
    → IsQuiet h
    → IsQuiet k
IsQuiet-lock h k e b q = (
  subst (λ (l : RwLock). l.word < 128) (sym e) q.0,
  λ t. subst (λ (l : RwLock). l.owner t ≡ false) (sym e) (q.1 t),
  b,
)

-- What an operation on one header comes to
abbrev pub Settles : Answer (Option Handle) → Type 0
Settles a = (h : Handle) × (a ≡ done (some h)) × IsQuiet h

pub destroy-Settles : (t : ℕ) (h : Handle) → IsQuiet h → Settles (destroy t [] (some h) root)
unfolding destroy destroy_root
destroy-Settles t h q = elim (Bool-cases (h.root_handle_count == 1)) [
  | inl e ↦ (
    unlock t (drop_and_flag t (reading h)),
    rw (e, read_acquired h.object_lock q.0) refl,
    IsQuiet-lock h (unlock t (drop_and_flag t (reading h))) (dropped_lock t h q)
        (count-bound t (reading h)) q,
  )
  | inr e ↦ (
    drop_and_flag t h,
    rw e refl,
    IsQuiet-lock h (drop_and_flag t h)
        (ap (λ (k : Handle). k.object_lock) (drop_and_flag-false t h (ground (arith, e, q.2))))
        (count-bound t h) q,
  )
]

pub copy-Settles :
    (t : ℕ) (between : List Interference) (h : Handle) {src : Role}
    → Old src
    → IsQuiet h
    → Settles (copy t between (some h) src root)
unfolding copy copy_from copy_unpinned copy_pinned
copy-Settles t between h of_root q = (add_root h, refl, (q.0, q.1, omega arith))
copy-Settles t between h of_field q = (add_root h, refl, (q.0, q.1, omega arith))
copy-Settles t between h of_ro_pin q = (add_root h, refl, (q.0, q.1, omega arith))
copy-Settles t between h of_rw_pin q = (add_root h, refl, (q.0, q.1, omega arith))
