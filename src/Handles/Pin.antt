-- ===== src/Handles/Pin.antt =====
-- `pin`, `PinRO`, `PinRW`, `ROPin`, `RWPin` and `ToRootHandle` of include/gca/gc.h. The role is `ro_pin`
-- or `rw_pin`, as the type of the pin says.
use gca.Base.{ℕ, ◌==◌, if◌then◌else◌}
use gca.Base.Result.{Result, ok}
use gca.Roles.{Role, root, field, get_instance}
use gca.Lookup.{get_member_count}
use gca.World.{World, M, ◌>>=◌}
use gca.Handles.{Call, read, pointer, construct_from, destroy_unless_null}

-- The constructor from a `root_handle`
unfoldable pub of_root : Call → (this other : ℕ) → Role → M (Unit {0})
unfolding construct_from
of_root c this other role = construct_from c this other root role

-- The constructor from a `field`
unfoldable pub of_field : Call → (this slot : ℕ) → Role → M (Unit {0})
unfolding construct_from
of_field c this slot role = construct_from c this slot field role

-- `Get`: an address, 0 for `nullptr`
unfoldable pub get : World → (this : ℕ) → Role → Result ℕ
unfolding get_instance
get w this role = if w.field this == 0 then ok 0 else get_instance (pointer w (w.field this)) role

-- `Count` of a pin of an array
unfoldable pub count : World → (this : ℕ) → ℕ
unfolding get_member_count
count w this = get_member_count w.types (pointer w (w.field this))

unfoldable pub destruct : Call → (this : ℕ) → Role → M (Unit {0})
unfolding destroy_unless_null
destruct c this role = read this >>= λ handle. destroy_unless_null c handle role
