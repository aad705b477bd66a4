-- ===== src/Registration.antt =====
-- `RegisterObject` of `gc_impl` in gc.cpp, with `GetOrRegisterType`: an allocation gets its handle.
-- The bytes of an object are not in the state, so that filling them with zeros leaves no trace.
pub mod Laws
pub mod Refines
mod Examples
use gca.Base.{ℕ, ◌^◌, Bool, true, not, List, ltb, ◌==◌, if◌then◌else◌}
use gca.Base.Family.{update}
use gca.Base.Result.{Result, ok, throw, library_bug}
use gca.Bits
use gca.Bits.{set_flag}
use gca.Handle.{Handle, new_handle, flags_or}
use gca.Types.{ObjectType, get_or_register_type}
use gca.Slots.{Nodes, get_next_writable}
use gca.Page.{Span, page_size}
use gca.Roles.{Answer, done, raises}
use gca.World.{World, M, ◌>>=◌, on_error, handle_at}
use gca.Destruction.{type_at}

abbrev pub with_types : World → Result (List ObjectType × ℕ) → World × Answer ℕ
with_types w (ok (types, i)) = (record w { types = types }, done i)
with_types w (throw e) = (w, raises e)

-- `GetOrRegisterType`
unfoldable pub register_type : ObjectType → M ℕ
unfolding get_or_register_type
register_type ty w = with_types w (get_or_register_type w.types ty)

-- `SetFlag(flag, true)` of a known flag, under a condition
abbrev pub flag_if : Bool → ℕ → Handle → Handle
flag_if b flag h =
    if b then record h { flags = flags_or h.flags (set_flag h.flags flag true) } else h

-- The header that `RegisterObject` leaves: the constructor's, with the flags that are set
unfoldable pub registered_handle : (types : List ObjectType) → Span → (type : ℕ) → Handle
unfolding new_handle set_flag
registered_handle types s type =
    flag_if (ltb page_size s.size) Bits.large
      (flag_if ((type_at types type).move == 0) Bits.immovable (new_handle s.address s.size type))

-- From `GetNextUninitialized` on
abbrev pub with_place : World → Span → (type : ℕ) → Result (Nodes × ℕ × ℕ) → World × Answer ℕ
with_place w s type (ok (nodes, node, slot)) = (
  record w {
    handles = nodes;
    heap = update w.heap (handle_at node slot) (registered_handle w.types s type);
    lookup = update w.lookup s.address (handle_at node slot);
  },
  done (handle_at node slot),
)
with_place w s type (throw e) = (w, raises e)

-- The entry of a null pointer, as a number that no handle has. It is there during a registration
-- only: that gives the entry a handle or erases it.
abbrev pub null_entry : ℕ
null_entry = 2 ^ 64

-- `allocationToHandleLookup.insert(std::make_pair(allocation.data(), nullptr))`, where the address
-- has no entry
abbrev pub insert_null : Span → World → World
insert_null s w = record w { lookup = update w.lookup s.address null_entry }

-- The handler of exceptions: `erase`, and `Remove` of a null pointer, which lies in no node.
abbrev pub unregister : Span → World → World
unregister s w = record w { lookup = update w.lookup s.address 0 }

-- `insert` keeps an entry that is there, and `success` is asserted before the `try` begins.
unfoldable pub register_object : Span → (type : ℕ) → M ℕ
unfolding registered_handle get_next_writable
register_object s type w =
    if not (w.lookup s.address == 0)
    then (w, raises library_bug)
    else on_error (unregister s) (λ v. with_place v s type (get_next_writable v.handles))
        (insert_null s w)

-- `RegisterObject(allocation, GetOrRegisterType(type))`
unfoldable pub register : Span → ObjectType → M ℕ
unfolding register_type register_object
register s ty = register_type ty >>= register_object s
