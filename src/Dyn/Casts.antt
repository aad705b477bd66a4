-- ===== src/Dyn/Casts.antt =====
-- What a cast gives.
use gca.Base.{
  ℕ, ◌+◌, ◌-◌, ◌%◌, ◌^◌, ◌<◌, ◌≡◌, refl, ap, true, false, ◌||◌, ==_refl, [], ◌==◌, if◌then◌else◌,
  inl, inr, ◌⊎◌, Bool-cases, arith,
}
use gca.Base.Result.{ok}
use gca.RwLock.{does_this_thread_have_rw_access}
use gca.Handle.{Handle}
use gca.Roles.{
  ro_pin, done, add_root, drop_root, get_instance, temporary_ro_pin, temporary_unpin,
  is_rw_pinned_by_this_thread,
}
use gca.Roles.Laws.{read_acquired, released_read, reading}
use gca.World.{World, change_handle}
use gca.Tagged.{pack, get_data, get, is_null, sign_extend}
use gca.Tagged.Laws.{get-pack, get_data-pack, get-canonical}
use gca.Handles.{Call}
use gca.Dyn.{minus, less, address_of, set_to, pin_for_cast, unpin_after_cast}

sign_extend-forward : (tag : ℕ) → tag < 2 ^ 15 → sign_extend tag ≡ tag
unfolding sign_extend
sign_extend-forward tag t = ground arith

offset_back :
    (base tag offset : ℕ)
    → base < 2 ^ 62
    → tag < 2 ^ 15
    → offset < 2 ^ 15
    → (minus (base + offset) (base + tag) + tag) % 2 ^ 64 ≡ offset
offset_back base tag offset b t o = omega arith

no_underflow :
    (base tag offset : ℕ)
    → base < 2 ^ 62
    → tag < 2 ^ 15
    → offset < 2 ^ 15
    → less (base + offset) (minus (base + offset) (base + tag)) ≡ false
no_underflow base tag offset b t o = ground arith

no_overflow :
    (base tag offset : ℕ)
    → base < 2 ^ 62
    → tag < 2 ^ 15
    → offset < 2 ^ 15
    → less offset (minus (base + offset) (base + tag)) ≡ false
no_overflow base tag offset b t o = ground arith

in_range :
    (offset : ℕ)
    → offset < 2 ^ 15
    → less offset (2 ^ 64 - 2 ^ 15) || less (2 ^ 15 - 1) offset ≡ false
in_range offset o = ground arith

abbrev pinned_for_cast : Handle → Handle
pinned_for_cast h = add_root (reading h)

unpinned :
    (t : ℕ) (h : Handle)
    → h.object_lock.word < 128
    → h.object_lock.owner t ≡ false
    → h.root_handle_count < 2 ^ 64
    → temporary_unpin t (pinned_for_cast h) ≡ h
unfolding temporary_unpin
unpinned t h b own r = λ i. record h {
  object_lock = released_read t h.object_lock b own i;
  root_handle_count =
      (let e : (drop_root (add_root h)).root_handle_count ≡ h.root_handle_count =
            omega (arith, r) in
          e)
        i;
}

-- The thread has write access to the object, or it can take a pin for reading at once.
abbrev pub CanCast : Call → Handle → Type 0
CanCast c h =
    (h.object_lock.owner c.thread ≡ true)
    ⊎ ((h.object_lock.owner c.thread ≡ false)
        × (h.object_lock.word < 128)
        × (h.root_handle_count < 2 ^ 64)
        × (c.at_copy ≡ []))

abbrev during : Call → (n : ℕ) → World → World
during c n w =
    if (w.heap n).object_lock.owner c.thread
    then w
    else change_handle n (λ _. pinned_for_cast (w.heap n)) w

pin_for_cast_lem :
    (c : Call) (n : ℕ) (w : World)
    → CanCast c (w.heap n)
    → pin_for_cast c n w ≡ (during c n w, done tt)
unfolding pin_for_cast is_rw_pinned_by_this_thread does_this_thread_have_rw_access temporary_ro_pin
pin_for_cast_lem c n w (inl own) = rw own refl
pin_for_cast_lem c n w (inr q) = rw (q.0, q.3, read_acquired (w.heap n).object_lock q.1) refl

unpin_after_cast_lem :
    (c : Call) (n m : ℕ) (w : World)
    → CanCast c (w.heap n)
    → (unpin_after_cast c (is_rw_pinned_by_this_thread c.thread (w.heap n)) n (during c n w)).heap m
      ≡ w.heap m
unfolding unpin_after_cast is_rw_pinned_by_this_thread does_this_thread_have_rw_access
unpin_after_cast_lem c n m w (inl own) = rw own refl
unpin_after_cast_lem c n m w (inr q) = elim (Bool-cases (n == m)) [
  | inl e ↦
      let same : n ≡ m = ground (arith, e) in
      rw (q.0, e, ==_refl n, unpinned c.thread (w.heap n) q.1 q.0 q.2) (ap w.heap same)
  | inr e ↦ rw (q.0, e) refl
]

during-address :
    (c : Call) (n : ℕ) (w : World) → ((during c n w).heap n).address ≡ (w.heap n).address
during-address c n w = ground arith

-- The address of a word whose pointer is to an object.
address_of-pack :
    (w : World) (n base offset : ℕ)
    → get (pack n offset) ≡ n
    → 0 < n
    → (w.heap n).address ≡ base
    → base < 2 ^ 62
    → offset < 2 ^ 15
    → address_of w (pack n offset) ro_pin ≡ ok (base + offset)
unfolding address_of is_null get_instance
address_of-pack w n base offset e pos a b o =
    let apart : (n == 0) ≡ false = ground arith in
    let whole : (base + offset) % 2 ^ 64 ≡ base + offset = omega arith in
    rw (e, apart, get_data-pack n offset (omega (arith, o)), sign_extend-forward offset o, a, whole)
      refl

-- A handle to a part of an object that does not lie before the object is cast to a type that the
-- object has a part of, at an offset that 15 bits hold; the calling thread has write access or can
-- read at once. Then the cast ends, the new handle is to the same object, its address is that of
-- the part, and no header of an object is left changed.
pub set_to-casts :
    (c : Call) (cast : World → ℕ → ℕ) (word other offset : ℕ) (w : World)
    → 0 < get other
    → get_data other < 2 ^ 15
    → offset < 2 ^ 15
    → 0 < (w.heap (get other)).address
    → (w.heap (get other)).address < 2 ^ 62
    → CanCast c (w.heap (get other))
    → ((v : World)
        → cast v ((w.heap (get other)).address + get_data other)
          ≡ (w.heap (get other)).address + offset)
    → (w' : World) × (word' : ℕ) × (set_to c cast word other w ≡ (w', done word'))
      × (get word' ≡ get other)
      × (address_of w' word' ro_pin ≡ ok ((w.heap (get other)).address + offset))
      × ((m : ℕ) → w'.heap m ≡ w.heap m)
unfolding set_to
set_to-casts c cast word other offset w pos t o some_address b can part =
    let n = get other in
    let base = (w.heap n).address in
    let v : World = during c n w in
    let w' : World = unpin_after_cast c (is_rw_pinned_by_this_thread c.thread (w.heap n)) n v in
    let kept : (m : ℕ) → w'.heap m ≡ w.heap m = λ m. unpin_after_cast_lem c n m w can in
    let back : get (pack n offset) ≡ n = get-pack n offset (get-canonical other) in
    let whole : (base + get_data other) % 2 ^ 64 ≡ base + get_data other = omega arith in
    let found : (base + offset == 0) ≡ false = ground arith in
    let small : offset % 2 ^ 16 % 2 ^ 16 ≡ offset % 2 ^ 16 = omega arith in
    (
      w',
      pack n offset,
      rw
          (
            pin_for_cast_lem c n w can,
            during-address c n w,
            sign_extend-forward (get_data other) t,
            whole,
            part v,
            found,
            offset_back base (get_data other) offset b t o,
            no_underflow base (get_data other) offset b t o,
            no_overflow base (get_data other) offset b t o,
            in_range offset o,
            small,
          )
          refl,
      back,
      address_of-pack w' n base offset back pos (ap (λ (h : Handle). h.address) (kept n)) b o,
      kept,
    )
