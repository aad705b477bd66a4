-- ===== src/Dyn.antt =====
-- `polymorphic_handle` of namespace `gc::dyn` in include/gca/gc.h: a word with a pointer to an internal
-- handle and, as its tag, the offset of the part of the object that is meant. Addresses and offsets
-- are 64-bit words. `dynamic_cast` is an argument: where the part of the target's type lies, 0 if
-- there is none. A conversion to the same type is a plain copy.
pub mod Casts
pub mod RootHandle
pub mod Field
pub mod Roots
pub mod Flaws
mod Examples
use gca.Base.{ℕ, ◌+◌, ◌-◌, ◌%◌, ◌^◌, Bool, ◌||◌, Option, none, some, ltb, ◌==◌, if◌then◌else◌}
use gca.Base.Result.{Result, ok, throw, library_bug, out_of_range, runtime_error}
use gca.Handle.{Handle}
use gca.Roles.{
  Role, ro_pin, Answer, done, raises, waits, get_instance, temporary_ro_pin, temporary_unpin,
  is_rw_pinned_by_this_thread,
}
use gca.Lookup.{get_type}
use gca.World.{World, M, pure, ◌>>=◌, ◌>>◌, fail, modify, on_world, of_result, change_handle}
use gca.Tagged.{pack, get_data, get, set, is_null, sign_extend}
use gca.Handles.{Call, pointer}

abbrev pub Cast : Type 0
Cast = Option (World → (address : ℕ) → ℕ)

-- `<` on 64-bit words as signed numbers
abbrev pub less : ℕ → ℕ → Bool
less a b = ltb ((a + 2 ^ 63) % 2 ^ 64) ((b + 2 ^ 63) % 2 ^ 64)

abbrev pub minus : ℕ → ℕ → ℕ
minus a b = (a + (2 ^ 64 - b)) % 2 ^ 64

-- The constructor from a handle, which checks its type
unfoldable pub of_handle : (type handle : ℕ) → M ℕ
unfolding get_type pack
of_handle type handle w =
    if handle == 0
    then (w, done 0)
    else if get_type w.types (some (w.heap handle)) == type
    then (w, done (pack handle 0))
    else (w, raises library_bug)

abbrev shifted : (offset : ℕ) → Result ℕ → Result ℕ
shifted offset (ok address) = ok ((address + offset) % 2 ^ 64)
shifted offset (throw e) = throw e

-- `Get`
unfoldable pub address_of : World → (word : ℕ) → Role → Result ℕ
unfolding get get_data is_null sign_extend get_instance
address_of w word role =
    if is_null word
    then ok 0
    else shifted (sign_extend (get_data word)) (get_instance (pointer w (get word)) role)

abbrev type_of : World → (word : ℕ) → ℕ
type_of w word = get_type w.types (pointer w (get word))

abbrev after_pin : (handle : ℕ) → World → Answer Handle → World × Answer (Unit {0})
after_pin handle w (done h) = (change_handle handle (λ _. h) w, done tt)
after_pin handle w (raises e) = (w, raises e)
after_pin handle w waits = (w, waits)

-- The pin for the time of the cast, unless this thread has write access
unfoldable pub pin_for_cast : Call → (handle : ℕ) → M (Unit {0})
unfolding is_rw_pinned_by_this_thread temporary_ro_pin
pin_for_cast c handle w =
    if is_rw_pinned_by_this_thread c.thread (w.heap handle)
    then (w, done tt)
    else after_pin handle w (temporary_ro_pin c.at_copy (w.heap handle))

unfoldable pub unpin_after_cast : Call → (was_pinned : Bool) → (handle : ℕ) → World → World
unfolding temporary_unpin
unpin_after_cast c was_pinned handle w =
    if was_pinned then w else change_handle handle (temporary_unpin c.thread) w

-- The offset of the part at `casted`, with the tests of `SetTo` on it
unfoldable pub offset_of : (original casted tag : ℕ) → Result ℕ
unfolding sign_extend
offset_of original casted tag =
    let d2 = minus casted original in
    let d3 = (d2 + sign_extend tag) % 2 ^ 64 in
    if less casted d2
    then throw runtime_error
    else if less d3 d2
    then throw runtime_error
    else if less d3 (2 ^ 64 - 2 ^ 15) || less (2 ^ 15 - 1) d3
    then throw out_of_range
    else ok d3

abbrev repack : (handle : ℕ) → Result ℕ → Answer ℕ
repack handle (ok d3) = done (pack handle (d3 % 2 ^ 16))
repack handle (throw e) = raises e

-- `SetTo`: the word that takes the place of `word`
unfoldable pub set_to : Call → (World → ℕ → ℕ) → (word other : ℕ) → M ℕ
unfolding get get_data pin_for_cast unpin_after_cast offset_of pack sign_extend
set_to c cast word other w =
    let handle = get other in
    let pinned = is_rw_pinned_by_this_thread c.thread (w.heap handle) in
    (pin_for_cast c handle >>= λ _. on_world λ v.
        let original = ((v.heap handle).address + sign_extend (get_data other)) % 2 ^ 64 in
        let casted = cast v original in
        modify (unpin_after_cast c pinned handle)
        >> (if casted == 0 then pure word else λ u.
            (u, repack handle (offset_of original casted (get_data other)))))
      w

-- The constructor from another handle
unfoldable pub convert : Call → Cast → (other : ℕ) → M ℕ
unfolding is_null set_to
convert c none other = pure other
convert c (some cast) other = if is_null other then pure 0 else set_to c cast 0 other

-- The assignment of another handle
unfoldable pub assign : Call → Cast → (word other : ℕ) → M ℕ
unfolding is_null set set_to
assign c none word other = pure other
assign c (some cast) word other =
    if is_null other then pure (set word 0) else set_to c cast word other

-- The assignment of `nullptr`, which leaves the offset
unfoldable pub assign_null : (word : ℕ) → ℕ
unfolding set
assign_null word = set word 0

-- `operator==`: `Equals` on the handles behind two words
unfoldable pub equals : (word other : ℕ) → Bool
unfolding get
equals word other = get word == get other
