-- ===== src/Dyn/Field.antt =====
-- `field` of namespace `gc::dyn` in include/gca/gc.h: the object it belongs to, 0 for none, a pointer to
-- an internal handle in the variable `slot`, and the offset in `offset`.
use gca.Base.{ℕ, none, ◌==◌, if◌then◌else◌}
use gca.Roles.{Role, internal_initialization, root, field}
use gca.Tagged.{pack, get, get_data}
use gca.World.{World, M, pure, ◌>>=◌, ◌>>◌}
use gca.Handles.{write, copy_handle, destroy_handle}
use gca.Handles.Field.{Scene, set_managed}
use gca.Dyn.{Cast, convert, of_handle}

pub record FieldAt : Type 0 where
  pub obj : ℕ
  pub slot : ℕ
  pub offset : ℕ

-- `Assign`
unfoldable pub assign : Scene → Cast → FieldAt → (new_value : ℕ) → Role → M (Unit {0})
unfolding get get_data convert copy_handle set_managed
assign s cast f new_value role = convert s.call cast new_value >>= λ handle.
    write f.offset (get_data handle)
    >> (if f.obj == 0
        then copy_handle s.call (get new_value) role root >>= write f.slot
        else set_managed s f.obj f.slot (get new_value) role)

-- From a `gc::root_handle`, a `gc::pin` or a `gc::field`
unfoldable pub assign_handle : Scene → (type : ℕ) → FieldAt → (handle : ℕ) → Role → M (Unit {0})
unfolding of_handle assign
assign_handle s type f handle role = of_handle type handle >>= λ word. assign s none f word role

-- `GetDynamicHandle`
unfoldable pub dynamic_handle : World → FieldAt → ℕ
unfolding pack
dynamic_handle w f = pack (w.field f.slot) (w.field f.offset)

-- `GetHandleRole`
abbrev pub handle_role : FieldAt → Role
handle_role f = if f.obj == 0 then root else field

-- A copy; the constructors begin with a null field.
unfoldable pub copy_assign : Scene → Cast → (this other : FieldAt) → M (Unit {0})
unfolding assign dynamic_handle
copy_assign s cast this other w =
    if other.slot == this.slot
    then pure tt w
    else assign s cast this (dynamic_handle w other) (handle_role other) w

unfoldable pub copy_construct : Scene → Cast → (this other : FieldAt) → M (Unit {0})
unfolding assign dynamic_handle
copy_construct s cast this other = write this.slot 0 >> write this.offset 0 >> λ w.
    assign s cast this (dynamic_handle w other) (handle_role other) w

unfoldable pub assign_null : Scene → FieldAt → M (Unit {0})
unfolding assign
assign_null s f = assign s none f 0 internal_initialization

unfoldable pub move_assign : (s s' : Scene) → Cast → (this other : FieldAt) → M (Unit {0})
unfolding assign dynamic_handle
move_assign s s' cast this other w =
    if other.slot == this.slot
    then pure tt w
    else (assign s cast this (dynamic_handle w other) (handle_role other)
          >> assign s' none other 0 field)
        w

unfoldable pub move_construct : (s s' : Scene) → Cast → (this other : FieldAt) → M (Unit {0})
unfolding copy_construct assign
move_construct s s' cast this other =
    copy_construct s cast this other >> assign s' none other 0 field

unfoldable pub destruct : Scene → FieldAt → M (Unit {0})
unfolding destroy_handle set_managed
destruct s f w =
    if f.obj == 0
    then destroy_handle s.call (w.field f.slot) root w
    else set_managed s f.obj f.slot 0 field w
