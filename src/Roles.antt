-- ===== src/Roles.antt =====
-- The operations of namespace `gc::internal` of gc.cpp on one handle. A handle plays a role for
-- whoever holds it: a root, a field, or a pin for reading or for writing.
-- A pointer is `none` where it is null. `t` is the thread; `between` is what the others do to the
-- object's lock while a call spins for it, and `waits` means that it still spins at its end.
-- The default assertion failure handler throws `library_bug`.
pub mod Laws
pub mod Initialize
pub mod Counts
pub mod Quiet
mod Examples
use gca.Base.{
  ℕ, ◌+◌, ◌-◌, ◌%◌, ◌^◌, Bool, true, false, ◌&&◌, Option, none, some, List, [], ◌∷◌, ◌==◌,
  if◌then◌else◌,
}
use gca.Base.Result.{Error, Result, ok, throw, bad_api_usage, library_bug}
use gca.Bits
use gca.Bits.{set_flag}
use gca.RwLock.{
  RwLock, Interference, acquire_read, acquire_write, try_upgrade, release,
  does_this_thread_have_rw_access,
}
use gca.Handle.{Handle, flags_or, mark_garbage}

pub data Role : Type 0 where
  internal_initialization root field ro_pin rw_pin : Role

pub data Answer (A : Type 0) : Type 0 where
  done : A → Answer A
  raises : Error → Answer A
  waits : Answer A

-- `++rootHandleCount` and `--rootHandleCount` on a `size_t`
abbrev pub add_root : Handle → Handle
add_root h = record h { root_handle_count = (h.root_handle_count + 1) % 2 ^ 64 }

abbrev pub drop_root : Handle → Handle
drop_root h = record h { root_handle_count = (h.root_handle_count + (2 ^ 64 - 1)) % 2 ^ 64 }

abbrev pub with_lock : Handle → RwLock → Handle
with_lock h l = record h { object_lock = l }

-- Goes on with the handle whose lock was acquired.
abbrev pub once_locked : Option RwLock → Handle → (Handle → Handle) → Answer Handle
once_locked none h f = waits
once_locked (some l) h f = done (f (with_lock h l))

-- `Copy`, the cases `root` and `field` of the source's role
unfoldable pub copy_unpinned : ℕ → List Interference → Role → Handle → Answer Handle
unfolding acquire_read acquire_write
copy_unpinned t between ro_pin h = once_locked (acquire_read between h.object_lock) h add_root
copy_unpinned t between rw_pin h = once_locked (acquire_write t between h.object_lock) h add_root
copy_unpinned t between root h = done (add_root h)
copy_unpinned t between field h = done h
copy_unpinned t between internal_initialization h = done h

-- `Copy`, the cases `ro_pin` and `rw_pin`
unfoldable pub copy_pinned : Role → Handle → Answer Handle
copy_pinned root h = done (add_root h)
copy_pinned ro_pin h = raises bad_api_usage
copy_pinned rw_pin h = raises bad_api_usage
copy_pinned field h = done h
copy_pinned internal_initialization h = done h

-- `Copy`, the case `internal_initialization`
unfoldable pub copy_new : Role → Handle → Answer Handle
copy_new root h = if h.root_handle_count == 1 then done h else raises library_bug
copy_new internal_initialization h = raises bad_api_usage
copy_new field h = raises bad_api_usage
copy_new ro_pin h = raises bad_api_usage
copy_new rw_pin h = raises bad_api_usage

unfoldable pub copy_from : ℕ → List Interference → Role → Role → Handle → Answer Handle
unfolding copy_unpinned copy_pinned copy_new
copy_from t between internal_initialization dst h = copy_new dst h
copy_from t between root dst h = copy_unpinned t between dst h
copy_from t between field dst h = copy_unpinned t between dst h
copy_from t between ro_pin dst h = copy_pinned dst h
copy_from t between rw_pin dst h = copy_pinned dst h

abbrev pub to_pointer : Answer Handle → Answer (Option Handle)
to_pointer (done h) = done (some h)
to_pointer (raises e) = raises e
to_pointer waits = waits

unfoldable pub copy :
    ℕ → List Interference → Option Handle → (src_role dst_role : Role) → Answer (Option Handle)
unfolding copy_from
copy t between none src_role dst_role = done none
copy t between (some h) src_role field = raises bad_api_usage
copy t between (some h) src_role root = to_pointer (copy_from t between src_role root h)
copy t between (some h) src_role ro_pin = to_pointer (copy_from t between src_role ro_pin h)
copy t between (some h) src_role rw_pin = to_pointer (copy_from t between src_role rw_pin h)
copy t between (some h) src_role internal_initialization =
    to_pointer (copy_from t between src_role internal_initialization h)

abbrev pub is_nil : List ℕ → Bool
is_nil [] = true
is_nil (x ∷ xs) = false

abbrev pub unlock : ℕ → Handle → Handle
unlock t h = with_lock h (release t h.object_lock)

-- `Destroy`: the count goes down, and an object that nothing holds any more is flagged if the lock
-- can be upgraded.
unfoldable pub drop_and_flag : ℕ → Handle → Handle
unfolding try_upgrade mark_garbage
drop_and_flag t h =
    let (l, upgraded) = try_upgrade t h.object_lock in
    if (drop_root h).root_handle_count == 0 && is_nil h.referenced_by && upgraded
    then mark_garbage (with_lock (drop_root h) l)
    else drop_root h

-- `Destroy`, the case `root`, on which the pins go on
unfoldable pub destroy_root : ℕ → List Interference → Handle → Answer Handle
unfolding drop_and_flag acquire_read release
destroy_root t between h =
    if h.root_handle_count == 1
    then once_locked (acquire_read between h.object_lock) h (λ k. unlock t (drop_and_flag t k))
    else done (drop_and_flag t h)

unfoldable pub destroy : ℕ → List Interference → Option Handle → Role → Answer (Option Handle)
unfolding destroy_root release
destroy t between none role = done none
destroy t between (some h) root = to_pointer (destroy_root t between h)
destroy t between (some h) ro_pin = to_pointer (destroy_root t between (unlock t h))
destroy t between (some h) rw_pin = to_pointer (destroy_root t between (unlock t h))
destroy t between (some h) field = done (some h)
destroy t between (some h) internal_initialization = done (some h)

abbrev instance_of : Option Handle → ℕ
instance_of none = 0
instance_of (some h) = h.address

unfoldable pub get_instance : Option Handle → Role → Result ℕ
get_instance h ro_pin = ok (instance_of h)
get_instance h rw_pin = ok (instance_of h)
get_instance h root = throw bad_api_usage
get_instance h field = throw bad_api_usage
get_instance h internal_initialization = throw bad_api_usage

unfoldable pub temporary_ro_pin : List Interference → Handle → Answer Handle
unfolding acquire_read
temporary_ro_pin between h = once_locked (acquire_read between h.object_lock) h add_root

unfoldable pub temporary_unpin : ℕ → Handle → Handle
unfolding release
temporary_unpin t h = drop_root (unlock t h)

unfoldable pub is_rw_pinned_by_this_thread : ℕ → Handle → Bool
unfolding does_this_thread_have_rw_access
is_rw_pinned_by_this_thread t h = does_this_thread_have_rw_access t h.object_lock

abbrev pub changed : Result (ℕ × Bool) → Bool
changed (ok r) = r.1
changed (throw e) = false

-- The answer says whether this call is the one that clears the flag.
unfoldable pub try_acquire_initialize_right : Handle → Handle × Bool
unfolding set_flag
try_acquire_initialize_right h =
    let r = set_flag h.flags Bits.uninitialized false in
    (record h { flags = flags_or h.flags r }, changed r)

unfoldable pub set_initialization_failed : Handle → Handle
unfolding set_flag
set_initialization_failed h = record h {
  flags = flags_or h.flags (set_flag h.flags Bits.initialization_failed true);
}
