-- ===== src/Handles/RootHandle.antt =====
-- `root_handle` of include/gca/gc.h. `this` and `other` are the addresses of the variables.
use gca.Base.{ℕ, Bool, ◌==◌, if◌then◌else◌}
use gca.Roles.{Role, internal_initialization, root, field}
use gca.World.{World, M, pure, ◌>>=◌, ◌>>◌}
use gca.Handles.{Call, read, write, copy_handle, construct_from, destroy_unless_null}

-- The default constructor, and those from `nullptr`
unfoldable pub construct : (this : ℕ) → M (Unit {0})
construct this = write this 0

-- The constructor from an internal handle
unfoldable pub adopt : Call → (this handle : ℕ) → M (Unit {0})
unfolding copy_handle
adopt c this handle = copy_handle c handle internal_initialization root >>= write this

-- The constructor from a pin in its role
unfoldable pub of_pin : Call → (this pin : ℕ) → Role → M (Unit {0})
unfolding construct_from
of_pin c this pin role = construct_from c this pin role root

-- The constructor from a field, whose pointer is in the variable `slot`
unfoldable pub of_field : Call → (this slot : ℕ) → M (Unit {0})
unfolding construct_from
of_field c this slot = construct_from c this slot field root

unfoldable pub copy_construct : Call → (this other : ℕ) → M (Unit {0})
unfolding construct_from
copy_construct c this other = construct_from c this other root root

-- The copy assignment: what it copies is its own handle.
unfoldable pub copy_assign : Call → (this other : ℕ) → M (Unit {0})
unfolding construct_from
copy_assign c this other w =
    if other == this then pure tt w else construct_from c this this root root w

-- `std::exchange(other.handle, nullptr)`
unfoldable pub move_construct : (this other : ℕ) → M (Unit {0})
move_construct this other = read other >>= λ handle. write other 0 >> write this handle

-- The move assignment: `std::exchange(other.handle, handle)`
unfoldable pub move_assign : (this other : ℕ) → M (Unit {0})
move_assign this other w =
    if other == this
    then pure tt w
    else (read this >>= λ mine. read other >>= λ handle. write other mine >> write this handle) w

-- The assignment of `nullptr`
unfoldable pub assign_null : Call → (this : ℕ) → M (Unit {0})
unfolding destroy_unless_null
assign_null c this = (read this >>= λ handle. destroy_unless_null c handle root) >> write this 0

-- The conversion to a handle for a constant object, in the variable `result`
unfoldable pub to_const : Call → (this result : ℕ) → M (Unit {0})
unfolding construct_from
to_const c this result = write result 0 >> construct_from c result this root root

unfoldable pub is_null : World → (this : ℕ) → Bool
is_null w this = w.field this == 0

unfoldable pub destruct : Call → (this : ℕ) → M (Unit {0})
unfolding destroy_unless_null
destruct c this = read this >>= λ handle. destroy_unless_null c handle root
