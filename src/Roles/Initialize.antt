-- ===== src/Roles/Initialize.antt =====
-- The right to initialise an object: the flag is cleared by one caller.
use gca.Base.{ℕ, ◌<◌, ◌≡◌, refl, sym, Bool, true, false, not, ◌&&◌, if◌then◌else◌, arith}
use gca.Bits
use gca.Bits.{has_flag, set_flag}
use gca.Bits.Masks.{every, every_sound}
use gca.Handle.{Handle, flag_or, flags_or, is_marked_garbage}
use gca.Roles.{changed, try_acquire_initialize_right}

same : Bool → Bool → Bool
same a b = if a then b else not b

same_sound : (a b : Bool) → same a b ≡ true → a ≡ b
unfolding same
same_sound true true h = refl
same_sound true false h = sym h
same_sound false true h = h
same_sound false false h = refl

-- What `SetFlag(uninitialized, false)` leaves.
cleared : ℕ → ℕ
unfolding set_flag
cleared v = flags_or v (set_flag v Bits.uninitialized false)

right_once : ℕ → Bool
unfolding same cleared has_flag
right_once v =
    same (changed (set_flag v Bits.uninitialized false))
      (flag_or false (has_flag v Bits.uninitialized))
    && not (changed (set_flag (cleared v) Bits.uninitialized false))
    && same (flag_or false (has_flag (cleared v) Bits.garbage))
        (flag_or false (has_flag v Bits.garbage))

-- For flags of an object, the first caller gets the right exactly when the object is not
-- initialised yet, whoever calls after it does not, and the garbage flag stays as it was.
pub try_acquire_initialize_right-once :
    (h : Handle)
    → h.flags < 32
    → ((try_acquire_initialize_right h).1 ≡ flag_or false (has_flag h.flags Bits.uninitialized))
      × ((try_acquire_initialize_right (try_acquire_initialize_right h).0).1 ≡ false)
      × (is_marked_garbage (try_acquire_initialize_right h).0 ≡ is_marked_garbage h)
unfolding try_acquire_initialize_right is_marked_garbage cleared right_once every
try_acquire_initialize_right-once h b =
    let e : right_once h.flags ≡ true = every_sound 32 right_once h.flags refl b in
    (same_sound _ _ (ground arith), ground arith, same_sound _ _ (ground arith))
