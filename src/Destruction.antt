-- ===== src/Destruction.antt =====
-- `CallDestructorForObject`, `DestroyObject` and `DestroyLargeObject` of gc.cpp. Before its destructor
-- is called the fields of an object are set to null.
-- The types' functions are given by users: where the fields of an object are is an argument, and a
-- call of a destructor is recorded and taken to leave the state alone. The calling thread holds
-- the object's lock for writing. A type index that was never registered reads as a type of zeros.
pub mod Spares
pub mod Removal
pub mod SelfReference
mod Examples
use gca.Base.{
  ℕ, zero, suc, ◌+◌, ◌-◌, ◌*◌, ◌/◌, ◌%◌, ◌^◌, Bool, true, false, not, ◌&&◌, Option, none, some,
  List, [], ◌∷◌, leb, ltb, get_elem?, ◌==◌, if◌then◌else◌,
}
use gca.Base.Family.{update}
use gca.Base.Result.{Error, library_bug}
use gca.Bits
use gca.Bits.{has_flag}
use gca.RwLock.{RwLock, try_acquire_write, acquire_write, release}
use gca.Handle.{Handle, flag_or, mark_garbage}
use gca.Types.{ObjectType}
use gca.Page.{Span, page_size, u64, remove_allocation}
use gca.Roles.{Answer, done, raises, waits}
use gca.Fields.{Store, Ended, finished, raised, spinning, set_field}
use gca.World.{
  PageState, World, M, pure, ◌>>=◌, ◌>>◌, wait, modify, on_world, check, on_error, change_handle,
  change_page, remove_handle,
}

-- The thread that collects, what the types' `getFieldCount` and `getField` say of the object at an
-- address (a field of address 0 is none), what other threads do while this one yields, and the
-- fuel for searching roots.
pub record Env : Type 0 where
  pub thread : ℕ
  pub fields : ObjectType → ℕ → List ℕ
  pub others : List (World → World)
  pub depth : ℕ

abbrev pub no_type : ObjectType
no_type = record {
  size = 0;
  alignment = 0;
  type = 0;
  destructor = 0;
  get_field_count = 0;
  get_field = 0;
  move = 0;
}

abbrev pub type_at : List ObjectType → ℕ → ObjectType
type_at types i = elim (get_elem? types i) [ none ↦ no_type | some ty ↦ ty ]

abbrev pub type_of : World → ℕ → ObjectType
type_of w n = type_at w.types (w.heap n).object_type

abbrev pub span_of : Handle → Span
span_of h = record { address = h.address; size = h.size }

abbrev pub with_lock : RwLock → Handle → Handle
with_lock l h = record h { object_lock = l }

unfoldable pub unlock : ℕ → ℕ → World → World
unfolding release
unlock t n = change_handle n (λ h. with_lock (release t h.object_lock) h)

-- `AcquireWrite`, with nobody else at work
unfoldable pub lock_for_write : ℕ → ℕ → M (Unit {0})
unfolding acquire_write
lock_for_write t n w = elim (acquire_write t [] (w.heap n).object_lock) [
  | none ↦ (w, waits)
  | some l ↦ (change_handle n (with_lock l) w, done tt)
]

-- The loop that takes the lock of a field's object `f`: each round in which it is not free, the
-- lock of `n` is released for a while. `begin` and `end` are where `n` lay before; the new end is
-- computed from the old beginning, as in the source.
unfoldable pub lock_field : ℕ → List (World → World) → (n f begin end : ℕ) → M (Unit {0})
unfolding try_acquire_write unlock lock_for_write
lock_field t [] n f begin end w =
    if (try_acquire_write t (w.heap f).object_lock).1
    then (change_handle f (with_lock (try_acquire_write t (w.heap f).object_lock).0) w, done tt)
    else (w, waits)
lock_field t (other ∷ others) n f begin end w =
    let again : World × Answer (Unit {0}) =
      (lock_for_write t n
          >> on_world
              (λ v. check (((v.heap n).address == begin) && (u64 (begin + (v.heap n).size) == end)))
          >> lock_field t others n f begin end)
        (other (unlock t n w)) in
    if (try_acquire_write t (w.heap f).object_lock).1
    then (change_handle f (with_lock (try_acquire_write t (w.heap f).object_lock).0) w, done tt)
    else again

-- `handle->SetField(field, nullptr)`
unfoldable pub clear_field : ℕ → (n field : ℕ) → M (Unit {0})
unfolding set_field
clear_field t n field w =
    let (s, end) = set_field t [] [] n field 0 (record { heap = w.heap; field = w.field }) in
    let w' = record w { heap = s.heap; field = s.field } in
    elim end [ finished ↦ (w', done tt) | raised e ↦ (w', raises e) | spinning ↦ (w', waits) ]

-- The body of the loop over the fields of one element, where the field points to `f`
unfoldable pub drop_reference : Env → (n begin end field f : ℕ) → M (Unit {0})
unfolding lock_field clear_field unlock
drop_reference env n begin end field f =
    lock_field env.thread env.others n f begin end
    >> on_error (unlock env.thread f) (clear_field env.thread n field)
    >> modify (unlock env.thread f)

unfoldable pub drop_field : Env → (n begin end field : ℕ) → M (Unit {0})
unfolding drop_reference
drop_field env n begin end field w =
    if field == 0
    then (w, done tt)
    else if w.field field == 0
    then (w, done tt)
    else drop_reference env n begin end field (w.field field) w

unfoldable pub drop_fields : Env → (n begin end : ℕ) → List ℕ → M (Unit {0})
unfolding drop_field
drop_fields env n begin end [] = pure tt
drop_fields env n begin end (field ∷ fields) =
    drop_field env n begin end field >> drop_fields env n begin end fields

-- `type->destructor(obj)`
abbrev pub call_destructor : ℕ → World → World
call_destructor obj w = record w { destroyed = obj ∷ w.destroyed }

-- The loop over the elements of an object: `left` of them are left, `i` is the index.
unfoldable pub destroy_elements :
    Env → (n : ℕ) (type : ObjectType) (begin end left i : ℕ) → M (Unit {0})
unfolding drop_fields
destroy_elements env n type begin end zero i = pure tt
destroy_elements env n type begin end (suc left) i =
    let obj = u64 (begin + i * type.size) in
    drop_fields env n begin end (env.fields type obj)
    >> modify (call_destructor obj)
    >> destroy_elements env n type begin end left (i + 1)

abbrev pub is_uninitialized : Handle → Bool
is_uninitialized h = flag_or false (has_flag h.flags Bits.uninitialized)

-- `allocationToHandleLookup.erase`, whose answer is asserted
unfoldable pub erase_lookup : ℕ → M (Unit {0})
erase_lookup address w = (
  record w { lookup = update w.lookup address 0 },
  if w.lookup address == 0 then raises library_bug else done tt,
)

-- From the types on: nothing of an object that was not initialised is destroyed.
unfoldable pub destroy_initialized : Env → ℕ → M (Unit {0})
unfolding destroy_elements has_flag
destroy_initialized env n w =
    let h = w.heap n in
    let type = type_of w n in
    if is_uninitialized h
    then (w, done tt)
    else destroy_elements env n type h.address (u64 (h.address + h.size)) (h.size / type.size) 0 w

unfoldable pub call_destructor_for_object : Env → ℕ → M (Unit {0})
unfolding erase_lookup destroy_initialized
call_destructor_for_object env n =
    on_world (λ w. erase_lookup (w.heap n).address) >> destroy_initialized env n

-- The two assertions of `DestroyObject`
abbrev pub is_on_page : PageState → Handle → Bool
is_on_page p h =
    leb p.begin h.address
    && ltb h.address (u64 (p.begin + page_size))
    && leb (u64 (h.address + h.size)) (u64 (p.begin + page_size))

unfoldable pub remove_from_page : (p n : ℕ) → World → World
unfolding remove_allocation
remove_from_page p n w =
    change_page p
      (λ q. record q { entries = remove_allocation q.begin q.entries (span_of (w.heap n)) }) w

unfoldable pub destroy_object : Env → (p n : ℕ) → M (Unit {0})
unfolding mark_garbage call_destructor_for_object remove_from_page remove_handle
destroy_object env p n = do
  modify (change_handle n mark_garbage)
  on_world λ w. check (is_on_page (w.page p) (w.heap n))
  call_destructor_for_object env n
  modify (remove_from_page p n)
  remove_handle n

-- `DeallocateLargeObject`
abbrev pub free_large : ℕ → World → World
free_large n w = record w { freed = (w.heap n).address ∷ w.freed }

unfoldable pub destroy_large_object : Env → ℕ → M (Unit {0})
unfolding mark_garbage call_destructor_for_object remove_handle
destroy_large_object env n = do
  modify (change_handle n mark_garbage)
  call_destructor_for_object env n
  modify (free_large n)
  remove_handle n
