-- ===== src/Roles/Counts.antt =====
-- What `Copy` and `Destroy` do to the root count of an object.
use gca.Base.{
  ℕ, ◌+◌, ◌-◌, ◌%◌, ◌^◌, ◌≡◌, refl, Option, none, some, List, ◌==◌, inl, inr, Bool-cases, arith,
}
use gca.RwLock.{RwLock, Interference, acquire_read, acquire_write}
use gca.Handle.{Handle, mark_garbage}
use gca.Roles.{
  Role, root, field, ro_pin, rw_pin, Answer, done, raises, waits, add_root, with_lock, once_locked,
  to_pointer, unlock, copy, copy_from, copy_unpinned, copy_pinned, destroy, destroy_root,
  drop_and_flag,
}

-- The roles that count as roots.
pub data Rooted : Role → Type 0 where
  as_root : Rooted root
  as_ro_pin : Rooted ro_pin
  as_rw_pin : Rooted rw_pin

-- The roles that a handle is copied from when it is not new.
pub data Old : Role → Type 0 where
  of_root : Old root
  of_field : Old field
  of_ro_pin : Old ro_pin
  of_rw_pin : Old rw_pin

-- The object that an operation on its header gives has so many roots.
abbrev pub Counts : (roots : ℕ) → Answer (Option Handle) → Type 0
Counts roots (done none) = ⊥
Counts roots (done (some h)) = h.root_handle_count ≡ roots
Counts roots (raises e) = Unit
Counts roots waits = Unit

once_locked-Counts :
    (o : Option RwLock) (h : Handle) (f : Handle → Handle) (roots : ℕ)
    → ((l : RwLock) → (f (with_lock h l)).root_handle_count ≡ roots)
    → Counts roots (to_pointer (once_locked o h f))
once_locked-Counts none h f roots p = tt
once_locked-Counts (some l) h f roots p = p l

abbrev pub one_more : Handle → ℕ
one_more h = (h.root_handle_count + 1) % 2 ^ 64

pub copy-Counts :
    (t : ℕ) (between : List Interference) (h : Handle) {src dst : Role}
    → Old src
    → Rooted dst
    → Counts (one_more h) (copy t between (some h) src dst)
unfolding copy copy_from copy_unpinned copy_pinned
copy-Counts t between h of_root as_root = refl
copy-Counts t between h of_root as_ro_pin =
    once_locked-Counts (acquire_read between h.object_lock) h add_root (one_more h) (λ l. refl)
copy-Counts t between h of_root as_rw_pin =
    once_locked-Counts (acquire_write t between h.object_lock) h add_root (one_more h) (λ l. refl)
copy-Counts t between h of_field as_root = refl
copy-Counts t between h of_field as_ro_pin =
    once_locked-Counts (acquire_read between h.object_lock) h add_root (one_more h) (λ l. refl)
copy-Counts t between h of_field as_rw_pin =
    once_locked-Counts (acquire_write t between h.object_lock) h add_root (one_more h) (λ l. refl)
copy-Counts t between h of_ro_pin as_root = refl
copy-Counts t between h of_ro_pin as_ro_pin = tt
copy-Counts t between h of_ro_pin as_rw_pin = tt
copy-Counts t between h of_rw_pin as_root = refl
copy-Counts t between h of_rw_pin as_ro_pin = tt
copy-Counts t between h of_rw_pin as_rw_pin = tt

abbrev pub one_less : Handle → ℕ
one_less h = (h.root_handle_count + (2 ^ 64 - 1)) % 2 ^ 64

drop_and_flag-count : (t : ℕ) (h : Handle) → (drop_and_flag t h).root_handle_count ≡ one_less h
unfolding drop_and_flag mark_garbage
drop_and_flag-count t h = ground arith

destroy_root-Counts :
    (t : ℕ) (between : List Interference) (h : Handle)
    → Counts (one_less h) (to_pointer (destroy_root t between h))
unfolding destroy_root
destroy_root-Counts t between h = elim (Bool-cases (h.root_handle_count == 1)) [
  | inl e ↦ rw e (
      once_locked-Counts (acquire_read between h.object_lock) h (λ k. unlock t (drop_and_flag t k))
        (one_less h) (λ l. drop_and_flag-count t (with_lock h l)))
  | inr e ↦ rw e (drop_and_flag-count t h)
]

pub destroy-Counts :
    (t : ℕ) (between : List Interference) (h : Handle) {role : Role}
    → Rooted role
    → Counts (one_less h) (destroy t between (some h) role)
unfolding destroy
destroy-Counts t between h as_root = destroy_root-Counts t between h
destroy-Counts t between h as_ro_pin = destroy_root-Counts t between (unlock t h)
destroy-Counts t between h as_rw_pin = destroy_root-Counts t between (unlock t h)
