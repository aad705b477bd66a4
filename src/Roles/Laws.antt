-- ===== src/Roles/Laws.antt =====
-- Copying and destroying handles: counts and locks come back, misuse is refused, the last root
-- leaves a flag, and an object is initialised once.
use gca.Base.{
  ℕ, ◌+◌, ◌^◌, ◌<◌, ◌≡◌, refl, ap, sym, ◌∙◌, Bool, true, false, ◌&&◌, ◌||◌, some, [], ◌==◌, ◌⊎◌,
  inl, inr, if◌then◌else◌, Bool-cases, arith,
}
use gca.Base.Result.{bad_api_usage}
use gca.RwLock.{RwLock, acquire_read, acquire_write, try_acquire_write, try_upgrade, release}
use gca.RwLock.Laws.{RwLock_ext}
use gca.Handle.{Handle, mark_garbage}
use gca.Roles.{
  Role, internal_initialization, root, field, ro_pin, rw_pin, done, raises, add_root, drop_root,
  with_lock, is_nil, unlock, drop_and_flag, copy, destroy_root, destroy, to_pointer, once_locked,
}

-- The role that a copy is given.
pub data Copied : Role → Type 0 where
  as_root : Copied root
  as_ro_pin : Copied ro_pin
  as_rw_pin : Copied rw_pin

-- The roles a handle may be copied from to any role but a field.
pub data Unpinned : Role → Type 0 where
  from_root : Unpinned root
  from_field : Unpinned field

-- What the lock must allow.
abbrev pub Grants : Role → Handle → Type 0
Grants internal_initialization h = Unit
Grants root h = Unit
Grants field h = Unit
Grants ro_pin h = h.object_lock.word < 128
Grants rw_pin h = h.object_lock.word ≡ 0

-- The object stays alive without the copy.
abbrev pub IsHeld : Handle → Type 0
IsHeld h = (0 < h.root_handle_count) ⊎ (is_nil h.referenced_by ≡ false)

Handle_lock : (h : Handle) {l : RwLock} → l ≡ h.object_lock → with_lock h l ≡ h
Handle_lock h e = ap (with_lock h) e

pub read_acquired :
    (l : RwLock) → l.word < 128 → acquire_read [] l ≡ some (record l { word = l.word + 1 })
unfolding acquire_read
read_acquired l h = ground arith

pub released_read :
    (t : ℕ) (l : RwLock)
    → l.word < 128
    → l.owner t ≡ false
    → release t (record l { word = l.word + 1 }) ≡ l
unfolding release
released_read t l h o = RwLock_ext (ground arith) (λ s. ground arith)

pub write_acquired :
    (t : ℕ) (l : RwLock) → l.word ≡ 0 → acquire_write t [] l ≡ some (try_acquire_write t l).0
unfolding acquire_write try_acquire_write
write_acquired t l h = ground arith

pub released_write :
    (t : ℕ) (l : RwLock) → l.word ≡ 0 → l.owner t ≡ false → release t (try_acquire_write t l).0 ≡ l
unfolding release try_acquire_write
released_write t l h o = RwLock_ext (ground arith) (λ s. ground arith)

drop-add : (h : Handle) → h.root_handle_count + 1 < 2 ^ 64 → drop_root (add_root h) ≡ h
drop-add h b = ap (λ n. record h { root_handle_count = n }) (omega arith)

kept_while_held :
    (t : ℕ) (h : Handle)
    → h.root_handle_count + 1 < 2 ^ 64
    → IsHeld h
    → drop_and_flag t (add_root h) ≡ h
unfolding drop_and_flag
kept_while_held t h b (inl held) = rw (drop-add h b) (ground arith)
kept_while_held t h b (inr held) = rw (drop-add h b) (ground arith)

pub destroy_root-add_root :
    (t : ℕ) (h : Handle)
    → h.root_handle_count + 1 < 2 ^ 64
    → h.object_lock.word < 128
    → h.object_lock.owner t ≡ false
    → IsHeld h
    → destroy_root t [] (add_root h) ≡ done h
unfolding destroy_root
destroy_root-add_root t h b w o held = rw (read_acquired h.object_lock w) (
    rw
      (
        kept_while_held t h b held,
        kept_while_held t (with_lock h (record h.object_lock { word = h.object_lock.word + 1 })) b
            held,
        released_read t h.object_lock w o,
      )
      (ground arith))

-- A root or a field is copied to a root or a pin, which the lock allows, and the copy is destroyed
-- again by the same thread, which did not own the lock, with nobody else at work: the object is as
-- it was, if it is held otherwise and its count has room, and neither call waits or throws.
pub destroy-copy :
    (t : ℕ) (h : Handle) {src dst : Role}
    → Unpinned src
    → Copied dst
    → Grants dst h
    → h.root_handle_count + 1 < 2 ^ 64
    → h.object_lock.word < 128
    → h.object_lock.owner t ≡ false
    → IsHeld h
    → (h' : Handle) × (copy t [] (some h) src dst ≡ done (some h'))
      × (destroy t [] (some h') dst ≡ done (some h))
unfolding copy destroy
destroy-copy t h from_root as_root g b w o held =
    (add_root h, refl, ap to_pointer (destroy_root-add_root t h b w o held))
destroy-copy t h from_field as_root g b w o held =
    (add_root h, refl, ap to_pointer (destroy_root-add_root t h b w o held))
destroy-copy t h from_root as_ro_pin g b w o held = (
  add_root (with_lock h (record h.object_lock { word = h.object_lock.word + 1 })),
  rw (read_acquired h.object_lock g) refl,
  ap to_pointer (
      ap (λ l. destroy_root t [] (add_root (with_lock h l))) (released_read t h.object_lock w o)
      ∙ destroy_root-add_root t h b w o held),
)
destroy-copy t h from_field as_ro_pin g b w o held = (
  add_root (with_lock h (record h.object_lock { word = h.object_lock.word + 1 })),
  rw (read_acquired h.object_lock g) refl,
  ap to_pointer (
      ap (λ l. destroy_root t [] (add_root (with_lock h l))) (released_read t h.object_lock w o)
      ∙ destroy_root-add_root t h b w o held),
)
destroy-copy t h from_root as_rw_pin g b w o held = (
  add_root (with_lock h (try_acquire_write t h.object_lock).0),
  rw (write_acquired t h.object_lock g) refl,
  ap to_pointer (
      ap (λ l. destroy_root t [] (add_root (with_lock h l))) (released_write t h.object_lock g o)
      ∙ destroy_root-add_root t h b w o held),
)
destroy-copy t h from_field as_rw_pin g b w o held = (
  add_root (with_lock h (try_acquire_write t h.object_lock).0),
  rw (write_acquired t h.object_lock g) refl,
  ap to_pointer (
      ap (λ l. destroy_root t [] (add_root (with_lock h l))) (released_write t h.object_lock g o)
      ∙ destroy_root-add_root t h b w o held),
)

if_true : {A : Type 0} {b : Bool} (x y : A) → b ≡ true → (if b then x else y) ≡ x
if_true x y e = rw e refl

if_false : {A : Type 0} {b : Bool} (x y : A) → b ≡ false → (if b then x else y) ≡ y
if_false x y e = rw e refl

abbrev pub reading : Handle → Handle
reading h = with_lock h (record h.object_lock { word = h.object_lock.word + 1 })

last_root_read :
    (t : ℕ) (h : Handle)
    → h.root_handle_count ≡ 1
    → h.object_lock.word < 128
    → destroy_root t [] h ≡ done (unlock t (drop_and_flag t (reading h)))
unfolding destroy_root
last_root_read t h c w =
    if_true {b = h.root_handle_count == 1} _ _ (ground arith)
    ∙ ap (λ l. once_locked l h (λ k. unlock t (drop_and_flag t k))) (read_acquired h.object_lock w)

pub upgraded_back :
    (t : ℕ) (l : RwLock)
    → l.word ≡ 0
    → l.owner t ≡ false
    → release t (try_upgrade t (record l { word = l.word + 1 })).0 ≡ l
unfolding release try_upgrade
upgraded_back t l h o = RwLock_ext (ground arith) (λ s. ground arith)

-- The last root goes while the calling thread alone reads.
last_root_flagged :
    (t : ℕ) (h : Handle)
    → h.root_handle_count ≡ 1
    → h.object_lock.word ≡ 0
    → h.object_lock.owner t ≡ false
    → is_nil h.referenced_by ≡ true
    → unlock t (drop_and_flag t (reading h))
      ≡ record h { root_handle_count = 0; flags = (mark_garbage h).flags }
unfolding drop_and_flag try_upgrade mark_garbage
last_root_flagged t h c w o n =
    let dropped : (drop_root h).root_handle_count ≡ 0 = omega (arith, c) in
    ap (unlock t) (
      if_true
        {b = (drop_root (reading h)).root_handle_count == 0
          && is_nil (reading h).referenced_by
          && (try_upgrade t (reading h).object_lock).1}
        _ _ (ground arith))
    ∙ (λ i. record h {
      root_handle_count = dropped i;
      flags = (mark_garbage h).flags;
      object_lock = upgraded_back t h.object_lock w o i;
    })

-- The last root goes while the object is referred to, or its lock is held by others too.
last_root_kept :
    (t : ℕ) (h : Handle)
    → h.root_handle_count ≡ 1
    → h.object_lock.word < 128
    → h.object_lock.owner t ≡ false
    → is_nil h.referenced_by && (h.object_lock.word == 0) ≡ false
    → unlock t (drop_and_flag t (reading h)) ≡ record h { root_handle_count = 0 }
unfolding drop_and_flag try_upgrade
last_root_kept t h c w o n =
    let dropped : (drop_root h).root_handle_count ≡ 0 = omega (arith, c) in
    ap (unlock t) (
      if_false
        {b = (drop_root (reading h)).root_handle_count == 0
          && is_nil (reading h).referenced_by
          && (try_upgrade t (reading h).object_lock).1}
        _ _ (ground arith))
    ∙ (λ i. record h {
      root_handle_count = dropped i;
      object_lock = released_read t h.object_lock w o i;
    })

-- Destroying the last root of an object, with nobody else at work, drops the count to 0 and gives
-- the lock back as it was; the garbage flag is set exactly when no object refers to this one and
-- no other thread holds its lock.
pub destroy-last_root :
    (t : ℕ) (h : Handle)
    → h.root_handle_count ≡ 1
    → h.object_lock.word < 128
    → h.object_lock.owner t ≡ false
    → destroy t [] (some h) root
      ≡ done (
          some (record h {
            root_handle_count = 0;
            flags =
                if is_nil h.referenced_by && (h.object_lock.word == 0)
                then (mark_garbage h).flags
                else h.flags;
          }))
unfolding destroy
destroy-last_root t h c w o =
    ap to_pointer (last_root_read t h c w)
    ∙ elim (Bool-cases (is_nil h.referenced_by && (h.object_lock.word == 0))) [
      | inl e ↦
          ap (λ k. done (some k))
            (last_root_flagged t h c (ground arith) o (ground arith)
              ∙ ap (λ v. record h { root_handle_count = 0; flags = v }) (sym (if_true _ _ e)))
      | inr e ↦
          ap (λ k. done (some k))
            (last_root_kept t h c w o e
              ∙ ap (λ v. record h { root_handle_count = 0; flags = v }) (sym (if_false _ _ e)))
    ]

is_field : Role → Bool
is_field field = true
is_field root = false
is_field ro_pin = false
is_field rw_pin = false
is_field internal_initialization = false

pub is_pin : Role → Bool
is_pin ro_pin = true
is_pin rw_pin = true
is_pin root = false
is_pin field = false
is_pin internal_initialization = false

-- The rules for copies: never to a field, from a new handle to a root only, and from a pin to no
-- other pin.
pub misuse : (src dst : Role) → Bool
unfolding is_field is_pin
misuse internal_initialization root = false
misuse internal_initialization dst = true
misuse src dst = is_field dst || is_pin src && is_pin dst

-- With its lock free, an object that has one root is copied exactly when the rules for copies
-- allow it; `bad_api_usage` is thrown otherwise.
pub copy-raises :
    (t : ℕ) (h : Handle) (src dst : Role)
    → h.root_handle_count ≡ 1
    → h.object_lock.word ≡ 0
    → (misuse src dst ≡ true) × (copy t [] (some h) src dst ≡ raises bad_api_usage)
      ⊎ (misuse src dst ≡ false) × ((h' : Handle) × (copy t [] (some h) src dst ≡ done (some h')))
unfolding copy misuse
copy-raises t h internal_initialization internal_initialization c w = inl (refl, refl)
copy-raises t h internal_initialization root c w = inr (refl, (h, rw c refl))
copy-raises t h internal_initialization field c w = inl (refl, refl)
copy-raises t h internal_initialization ro_pin c w = inl (refl, refl)
copy-raises t h internal_initialization rw_pin c w = inl (refl, refl)
copy-raises t h root internal_initialization c w = inr (refl, (h, refl))
copy-raises t h root root c w = inr (refl, (add_root h, refl))
copy-raises t h root field c w = inl (refl, refl)
copy-raises t h root ro_pin c w = inr (
  refl,
  (
    add_root (reading h),
    ap (λ l. to_pointer (once_locked l h add_root))
        (read_acquired h.object_lock (omega (arith, w))),
  ),
)
copy-raises t h root rw_pin c w = inr (
  refl,
  (
    add_root (with_lock h (try_acquire_write t h.object_lock).0),
    ap (λ l. to_pointer (once_locked l h add_root)) (write_acquired t h.object_lock w),
  ),
)
copy-raises t h field internal_initialization c w = inr (refl, (h, refl))
copy-raises t h field root c w = inr (refl, (add_root h, refl))
copy-raises t h field field c w = inl (refl, refl)
copy-raises t h field ro_pin c w = inr (
  refl,
  (
    add_root (reading h),
    ap (λ l. to_pointer (once_locked l h add_root))
        (read_acquired h.object_lock (omega (arith, w))),
  ),
)
copy-raises t h field rw_pin c w = inr (
  refl,
  (
    add_root (with_lock h (try_acquire_write t h.object_lock).0),
    ap (λ l. to_pointer (once_locked l h add_root)) (write_acquired t h.object_lock w),
  ),
)
copy-raises t h ro_pin internal_initialization c w = inr (refl, (h, refl))
copy-raises t h ro_pin root c w = inr (refl, (add_root h, refl))
copy-raises t h ro_pin field c w = inl (refl, refl)
copy-raises t h ro_pin ro_pin c w = inl (refl, refl)
copy-raises t h ro_pin rw_pin c w = inl (refl, refl)
copy-raises t h rw_pin internal_initialization c w = inr (refl, (h, refl))
copy-raises t h rw_pin root c w = inr (refl, (add_root h, refl))
copy-raises t h rw_pin field c w = inl (refl, refl)
copy-raises t h rw_pin ro_pin c w = inl (refl, refl)
copy-raises t h rw_pin rw_pin c w = inl (refl, refl)
