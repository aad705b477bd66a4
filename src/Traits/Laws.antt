-- ===== src/Traits/Laws.antt =====
-- Objects whose class gives no move function stay where they are in their turn of a defragmentation.
use gca.Base.{
  ℕ, ◌<◌, ◌≡◌, arith, not, ◌&&◌, ◌||◌, refl, ap, ◌∙◌, Bool, true, false, none, List, ltb, inl, inr,
  Bool-cases,
}
use gca.Bits
use gca.Bits.{has_flag, set_flag}
use gca.Bits.Masks.{every, every_sound}
use gca.Handle.{Handle, new_handle, flag_or, flags_or, mark_garbage}
use gca.Roles.{try_acquire_initialize_right, set_initialization_failed}
use gca.Types.{ObjectType}
use gca.Page.{Entry, Span, page_size}
use gca.Defragment.{Objects, settle}
use gca.Destruction.{type_at}
use gca.Registration.{registered_handle}
use gca.Traits.{Class, Traits, choose_move, get_default_move_fn, object_type}

no_move :
    (c : Class) (traits : Traits)
    → c.is_nothrow_move_constructible ≡ false
    → traits.move ≡ none
    → (object_type c traits).move ≡ 0
unfolding object_type choose_move get_default_move_fn
no_move c traits cannot own = rw (own, cannot) refl

-- The flags of a header: below 32, with the one of immovable objects
is_stuck : ℕ → Bool
unfolding has_flag
is_stuck v = ltb v 32 && flag_or false (has_flag v Bits.immovable)

registered_handle-stuck :
    (types : List ObjectType) (s : Span) (i : ℕ)
    → (type_at types i).move ≡ 0
    → is_stuck (registered_handle types s i).flags ≡ true
unfolding is_stuck registered_handle new_handle set_flag has_flag
registered_handle-stuck types s i e = elim (Bool-cases (ltb page_size s.size)) [
  | inl large ↦ rw (large, e) refl
  | inr small ↦ rw (small, e) refl
]

-- The flags after each change of them that there is
initialising_flags : ℕ → ℕ
unfolding set_flag
initialising_flags v = flags_or v (set_flag v Bits.uninitialized false)

failed_flags : ℕ → ℕ
unfolding set_flag
failed_flags v = flags_or v (set_flag v Bits.initialization_failed true)

garbage_flags : ℕ → ℕ
unfolding set_flag
garbage_flags v = flags_or v (set_flag v Bits.garbage true)

all_stuck : ℕ → Bool
unfolding is_stuck initialising_flags failed_flags garbage_flags
all_stuck v =
    is_stuck (initialising_flags v) && is_stuck (failed_flags v) && is_stuck (garbage_flags v)

stays_stuck : (v : ℕ) → is_stuck v ≡ true → all_stuck v ≡ true
unfolding is_stuck all_stuck every initialising_flags failed_flags garbage_flags has_flag set_flag
stays_stuck v h =
    let below : v < 32 = ground (arith, h) in
    let table = every_sound 32 (λ v. not (is_stuck v) || all_stuck v) v refl below in
    ground (arith, h, table)

-- The headers that an object may have after it was registered: its flags change by taking the right
-- to initialise it, by noting that this failed, and by marking it as garbage; all else, such as its
-- address, roots, references and lock, may change in any way.
pub data Later (types : List ObjectType) (s : Span) (i : ℕ) : Handle → Type 0 where
  registered : Later types s i (registered_handle types s i)
  initialising :
      {h : Handle} → Later types s i h → Later types s i (try_acquire_initialize_right h).0
  failed : {h : Handle} → Later types s i h → Later types s i (set_initialization_failed h)
  marked : {h : Handle} → Later types s i h → Later types s i (mark_garbage h)
  changed : {h : Handle} (k : Handle) → k.flags ≡ h.flags → Later types s i h → Later types s i k

Later-stuck :
    (types : List ObjectType) (s : Span) (i : ℕ) {h : Handle}
    → (type_at types i).move ≡ 0
    → Later types s i h
    → is_stuck h.flags ≡ true
unfolding try_acquire_initialize_right set_initialization_failed mark_garbage all_stuck
    initialising_flags failed_flags garbage_flags
Later-stuck types s i e registered = registered_handle-stuck types s i e
Later-stuck types s i e (initialising {h} l) =
    let all = stays_stuck h.flags (Later-stuck types s i e l) in ground (arith, all)
Later-stuck types s i e (failed {h} l) =
    let all = stays_stuck h.flags (Later-stuck types s i e l) in ground (arith, all)
Later-stuck types s i e (marked {h} l) =
    let all = stays_stuck h.flags (Later-stuck types s i e l) in ground (arith, all)
Later-stuck types s i e (changed k same l) = ap is_stuck same ∙ Later-stuck types s i e l

stuck-immovable : (v : ℕ) → is_stuck v ≡ true → flag_or false (has_flag v Bits.immovable) ≡ true
unfolding is_stuck
stuck-immovable v h = ground (arith, h)

-- An object of a class that cannot be moved without exceptions, whose traits define no move
-- function, stays where it is in its turn of a defragmentation, whatever has happened to it since it
-- was registered, be it initialised, marked as garbage, or neither: the turn changes nothing.
pub settle-object_type :
    (c : Class) (traits : Traits) (types : List ObjectType) (i : ℕ) (s : Span) (t begin last n : ℕ)
    (e : Entry) (o : Objects) (later : List ObjectType)
    → c.is_nothrow_move_constructible ≡ false
    → traits.move ≡ none
    → type_at types i ≡ object_type c traits
    → Later types s i (o.heap n)
    → settle t (type_at later) begin last n e o ≡ (o, e)
unfolding settle
settle-object_type c traits types i s t begin last n e o later cannot own known since =
    let no_function = ap (λ (ty : ObjectType). ty.move) known ∙ no_move c traits cannot own in
    rw (stuck-immovable (o.heap n).flags (Later-stuck types s i no_function since)) refl
