-- ===== src/Dyn/RootHandle.antt =====
-- `root_handle` and `pin` of namespace `gc::dyn` in include/gca/gc.h. `this` and `other` are the
-- addresses of variables, which keep words with a pointer and an offset.
use gca.Base.{ℕ, none, ◌==◌, if◌then◌else◌}
use gca.Base.Result.{Result}
use gca.Roles.{Role, internal_initialization, root}
use gca.Tagged.{get, set}
use gca.World.{World, M, pure, ◌>>=◌, ◌>>◌}
use gca.Handles.{Call, read, write, copy_handle, destroy_handle}
use gca.Dyn.{Cast, of_handle, convert, address_of, equals}
use gca.Dyn

-- `Assign`
unfoldable pub assign : Call → Cast → (this new_value : ℕ) → Role → M (Unit {0})
unfolding get set equals convert copy_handle destroy_handle
assign c cast this new_value role w =
    let value = w.field this in
    if equals new_value value
    then pure tt w
    else (convert c cast new_value >>= λ converted.
          write this converted >> copy_handle c (get converted) role root >>= λ handle.
          write this (set converted handle) >> destroy_handle c (get value) root)
        w

-- A constructor: the variable is null at first.
unfoldable pub construct : Call → Cast → (this new_value : ℕ) → Role → M (Unit {0})
unfolding assign
construct c cast this new_value role = write this 0 >> assign c cast this new_value role

-- From a `gc::root_handle`, a `gc::pin` or a `gc::field` with a pointer to a handle
unfoldable pub construct_from_handle : Call → (type this handle : ℕ) → Role → M (Unit {0})
unfolding of_handle construct
construct_from_handle c type this handle role =
    of_handle type handle >>= λ word. construct c none this word role

-- The assignment of a `gc::root_handle`, a `gc::pin` or a `gc::field`
unfoldable pub assign_handle : Call → (type this handle : ℕ) → Role → M (Unit {0})
unfolding of_handle assign
assign_handle c type this handle role =
    of_handle type handle >>= λ word. assign c none this word role

unfoldable pub copy_construct : Call → Cast → (this other : ℕ) → M (Unit {0})
unfolding construct
copy_construct c cast this other = read other >>= λ word. construct c cast this word root

-- Only handles of the same type can be the same variable.
unfoldable pub copy_assign : Call → Cast → (this other : ℕ) → M (Unit {0})
unfolding assign
copy_assign c cast this other w =
    if other == this then pure tt w else (read other >>= λ word. assign c cast this word root) w

-- The assignment of `nullptr`
unfoldable pub assign_null : Call → (this : ℕ) → M (Unit {0})
unfolding assign
assign_null c this = assign c none this 0 internal_initialization

unfoldable pub move_construct : (c c' : Call) → Cast → (this other : ℕ) → M (Unit {0})
unfolding construct assign
move_construct c c' cast this other =
    (read other >>= λ word. construct c cast this word root) >> assign c' none other 0 root

-- The move assignment has no test for the same variable.
unfoldable pub move_assign : (c c' : Call) → Cast → (this other : ℕ) → M (Unit {0})
unfolding assign
move_assign c c' cast this other =
    (read other >>= λ word. assign c cast this word root) >> assign c' none other 0 root

unfoldable pub destruct : Call → (this : ℕ) → M (Unit {0})
unfolding get destroy_handle
destruct c this = read this >>= λ value. destroy_handle c (get value) root

-- A pin of a word in another role
unfoldable pub pin : Call → Cast → (this word : ℕ) → (src_role role : Role) → M (Unit {0})
unfolding get set copy_handle
pin c cast this word src_role role = Dyn.assign c cast 0 word >>= λ value.
    write this value >> copy_handle c (get value) src_role role >>= λ handle.
    write this (set value handle)

-- A pin of a `gc::root_handle` or a `gc::field` with a pointer to a handle
unfoldable pub pin_handle : Call → (type this handle : ℕ) → (src_role role : Role) → M (Unit {0})
unfolding of_handle pin
pin_handle c type this handle src_role role =
    of_handle type handle >>= λ word. pin c none this word src_role role

-- `Get` of a pin
unfoldable pub pin_get : World → (this : ℕ) → Role → Result ℕ
unfolding address_of
pin_get w this role = address_of w (w.field this) role

unfoldable pub end_pin : Call → (this : ℕ) → Role → M (Unit {0})
unfolding get destroy_handle
end_pin c this role = read this >>= λ value. destroy_handle c (get value) role
