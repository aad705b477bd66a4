-- ===== src/Handles/Field.antt =====
-- `field` of include/gca/gc.h. `this` is the address of the field, which it shares with its object,
-- and `slot` that of the pointer, which `GetField` finds from it. `entries` is
-- `allocationToHandleLookup` in the order of its iteration.
use gca.Base.{ℕ, Option, none, some, List, ◌==◌, if◌then◌else◌}
use gca.RwLock.{Interference}
use gca.Roles.{Role, internal_initialization, root, field, done, raises, waits, Answer}
use gca.Fields.{Store, Ended, finished, raised, spinning}
use gca.Fields.Pinned.{set_field_from}
use gca.Lookup.{lookup_object_or_get_owning_object}
use gca.World.{World, M, pure, ◌>>=◌, ◌>>◌}
use gca.Handles.{Call, read, write, copy_handle, destroy_handle, destroy_unless_null}

-- What an assignment takes besides: the handles' locks, the entries, what others do to the locks
-- of the objects while `SetField` spins for them, and what a use of a null pointer does.
pub record Scene : Type 0 where
  pub call : Call
  pub entries : List (ℕ × ℕ)
  pub at_upgrade : List Interference
  pub at_new : List Interference
  pub at_old : List Interference
  pub null_used : M (Unit {0})

pub record FieldAt : Type 0 where
  pub this : ℕ
  pub slot : ℕ

abbrev end_of : Ended → Answer (Unit {0})
end_of finished = done tt
end_of (raised e) = raises e
end_of spinning = waits

abbrev with_store : Scene → World → Option (Store × Ended) → World × Answer (Unit {0})
with_store s w none = s.null_used w
with_store s w (some (st, end)) = (record w { heap = st.heap; field = st.field }, end_of end)

-- The managed mode: `internal::SetField`
unfoldable pub set_managed : Scene → (obj slot value : ℕ) → Role → M (Unit {0})
unfolding set_field_from
set_managed s obj slot value role w = with_store s w (
    set_field_from s.call.thread s.at_upgrade s.at_new s.at_old obj slot value role
      (record { heap = w.heap; field = w.field }))

-- The unmanaged mode
unfoldable pub set_unmanaged : Scene → (slot value : ℕ) → Role → M (Unit {0})
unfolding copy_handle destroy_unless_null
set_unmanaged s slot value role w =
    let old = w.field slot in
    if old == value
    then pure tt w
    else (copy_handle s.call value role root >>= write slot >> destroy_unless_null s.call old root)
        w

abbrev pub owner : Scene → World → FieldAt → ℕ
owner s w f = lookup_object_or_get_owning_object w.heap s.entries f.this

-- `Set`
unfoldable pub set : Scene → FieldAt → (value : ℕ) → Role → M (Unit {0})
unfolding lookup_object_or_get_owning_object set_managed set_unmanaged
set s f value role w =
    if owner s w f == 0
    then set_unmanaged s f.slot value role w
    else set_managed s (owner s w f) f.slot value role w

-- `Set` with another handle: a root or a pin in its role, or a field.
unfoldable pub set_to : Scene → FieldAt → (other : ℕ) → Role → M (Unit {0})
unfolding set
set_to s f other role = read other >>= λ value. set s f value role

-- The default constructor, and the assignment of `nullptr`
unfoldable pub construct : Scene → FieldAt → M (Unit {0})
unfolding set
construct s f = set s f 0 internal_initialization

unfoldable pub copy_construct : Scene → (this other : FieldAt) → M (Unit {0})
unfolding set_to
copy_construct s this other = set_to s this other.slot field

unfoldable pub copy_assign : Scene → (this other : FieldAt) → M (Unit {0})
unfolding set_to
copy_assign s this other w =
    if other.this == this.this then pure tt w else set_to s this other.slot field w

-- A move is two assignments, each with what others do meanwhile.
unfoldable pub move_construct : (s s' : Scene) → (this other : FieldAt) → M (Unit {0})
unfolding set_to set
move_construct s s' this other = set_to s this other.slot field >> set s' other 0 field

unfoldable pub move_assign : (s s' : Scene) → (this other : FieldAt) → M (Unit {0})
unfolding set_to set
move_assign s s' this other w =
    if other.this == this.this
    then pure tt w
    else (read this.slot >>= λ old. set_to s this other.slot field >> set s' other old field) w

unfoldable pub destruct : Scene → FieldAt → M (Unit {0})
unfolding lookup_object_or_get_owning_object set_managed destroy_handle
destruct s f w =
    if owner s w f == 0
    then destroy_handle s.call (w.field f.slot) root w
    else set_managed s (owner s w f) f.slot 0 internal_initialization w
