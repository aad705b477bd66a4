-- ===== src/Registration/Laws.antt =====
-- What `RegisterObject` leaves where it returns, and where it throws.
use gca.Base.{
  ℕ, ◌-◌, ◌/◌, ◌%◌, ◌<◌, ◌≡◌, ◌≢◌, ◌∙◌, refl, ap, fun_ext, sym, subst, Bool, true, false, [], All,
  ltb, ◌==◌, ==_refl, Bool-cases, inl, inr, arith,
}
use gca.Base.Family.{update}
use gca.Base.Result.{Error, Result, ok, throw}
use gca.RwLock.{unlocked}
use gca.Handle.{Handle, new_handle}
use gca.Slots.{Nodes, flags_at, get_slot_is_free, get_next_writable}
use gca.Slots.Fresh.{Fresh, Gives, get_next_writable-Gives}
use gca.Slots.Laws.{IsFilled, Returns, get_next_writable-Taken}
use gca.Bits
use gca.Bits.{has_flag, set_flag}
use gca.Page.{Span, page_size}
use gca.Roles.{Answer, done, raises}
use gca.World.{World, recover, handle_at}
use gca.Destruction.{is_uninitialized, type_at}
use gca.Registration.{
  flag_if, registered_handle, with_place, null_entry, insert_null, unregister, register_object,
}

-- The header of an object that was just registered.
pub record New (h : Handle) (s : Span) : Type 0 where
  pub at : h.address ≡ s.address
  pub size : h.size ≡ s.size
  pub roots : h.root_handle_count ≡ 1
  pub alone : h.referenced_by ≡ []
  pub idle : h.object_lock ≡ unlocked
  pub raw : is_uninitialized h ≡ true

-- The place of a handle, by its node and slot.
abbrev pub place_is_free : Nodes → ℕ → Result Bool
place_is_free nodes n = get_slot_is_free (flags_at nodes ((n - 1) / 64)) ((n - 1) % 64)

-- The place of the handle `n` was free and is taken now, the handle is the object's, and no other
-- header and no other address is touched.
pub record Registered (w w' : World) (s : Span) (n : ℕ) : Type 0 where
  pub some_handle : 0 < n
  pub was_free : place_is_free w.handles n ≡ ok true
  pub is_taken : place_is_free w'.handles n ≡ ok false
  pub named : w'.lookup s.address ≡ n
  pub header : New (w'.heap n) s
  pub lookups : (a : ℕ) → s.address ≢ a → w'.lookup a ≡ w.lookup a
  pub headers : (m : ℕ) → n ≢ m → w'.heap m ≡ w.heap m

flag_if-New :
    (b c : Bool) (s : Span) (type : ℕ)
    → New (flag_if b Bits.large (flag_if c Bits.immovable (new_handle s.address s.size type))) s
unfolding new_handle set_flag has_flag
flag_if-New true true s type = record {
  at = refl;
  size = refl;
  roots = refl;
  alone = refl;
  idle = refl;
  raw = refl;
}
flag_if-New true false s type = record {
  at = refl;
  size = refl;
  roots = refl;
  alone = refl;
  idle = refl;
  raw = refl;
}
flag_if-New false true s type = record {
  at = refl;
  size = refl;
  roots = refl;
  alone = refl;
  idle = refl;
  raw = refl;
}
flag_if-New false false s type = record {
  at = refl;
  size = refl;
  roots = refl;
  alone = refl;
  idle = refl;
  raw = refl;
}

registered_handle-New : (w : World) (s : Span) (type : ℕ) → New (registered_handle w.types s type) s
unfolding registered_handle
registered_handle-New w s type =
    flag_if-New (ltb page_size s.size) ((type_at w.types type).move == 0) s type

pub update_at {κ} : {V : Type κ} (g : ℕ → V) (t : ℕ) (v : V) → update g t v t ≡ v
update_at g t v = rw (==_refl t) refl

pub update_ne {κ} : {V : Type κ} (g : ℕ → V) (t x : ℕ) (v : V) → t ≢ x → update g t v x ≡ g x
update_ne g t x v ne = let e : (t == x) ≡ false = ground (arith, ne) in rw e refl

update_twice : (f : ℕ → ℕ) (a x y : ℕ) → update (update f a x) a y ≡ update f a y
update_twice f a x y =
    fun_ext λ b. elim (Bool-cases (a == b)) [ inl e ↦ rw e refl | inr e ↦ rw e refl ]

update_back : (f : ℕ → ℕ) (a x : ℕ) → f a ≡ 0 → update (update f a x) a 0 ≡ f
update_back f a x h = fun_ext λ b. elim (Bool-cases (a == b)) [
  | inl e ↦ let here : a ≡ b = ground (arith, e) in rw e (sym h ∙ ap f here)
  | inr e ↦ rw e refl
]

pub with_place-Registered :
    (w : World) (s : Span) (type node slot : ℕ) (nodes : Nodes)
    → Fresh w.handles nodes node slot
    → Registered w (with_place w s type (ok (nodes, node, slot))).0 s (handle_at node slot)
with_place-Registered w s type node slot nodes f =
    let n = handle_at node slot in
    let node_of : (n - 1) / 64 ≡ node = omega (arith, f.in_node) in
    let slot_of : (n - 1) % 64 ≡ slot = omega (arith, f.in_node) in
    record {
      some_handle = omega arith;
      was_free = rw (node_of, slot_of) f.was_free;
      is_taken = rw (node_of, slot_of) f.is_taken;
      named = update_at w.lookup s.address n;
      header =
          subst (λ h. New h s) (sym (update_at w.heap n (registered_handle w.types s type)))
            (registered_handle-New w s type);
      lookups = λ a ne. update_ne w.lookup s.address a n ne;
      headers = λ m ne. update_ne w.heap n m (registered_handle w.types s type) ne;
    }

pub done_recover :
    (cleanup : World → World) (w : World) (answer : Answer ℕ) (n : ℕ)
    → answer ≡ done n
    → (recover cleanup w answer).1 ≡ done n
done_recover cleanup w answer n h = rw h refl

-- Of the entry with a null pointer no trace is left where a place is given.
insert_null-with_place :
    (s : Span) (type : ℕ) (w : World) (x : Nodes × ℕ × ℕ)
    → with_place (insert_null s w) s type (ok x) ≡ with_place w s type (ok x)
insert_null-with_place s type w (nodes, node, slot) =
    let n = handle_at node slot in
    let with_lookup : (ℕ → ℕ) → World × Answer ℕ = λ l. (
      record w {
        handles = nodes;
        heap = update w.heap n (registered_handle w.types s type);
        lookup = l;
      },
      done n,
    ) in
    ap with_lookup (update_twice w.lookup s.address null_entry n)

module _ (s : Span) (type : ℕ) (w : World) where
  -- From the entry with a null pointer on
  abbrev tried : Result (Nodes × ℕ × ℕ) → World × Answer ℕ
  tried r =
      recover (unregister s) (with_place (insert_null s w) s type r).0
        (with_place (insert_null s w) s type r).1

  tried-raises :
      (r : Result (Nodes × ℕ × ℕ)) (e : Error)
      → w.lookup s.address ≡ 0
      → (tried r).1 ≡ raises e
      → (tried r).0 ≡ w
  tried-raises (ok x) e free h = cc
  tried-raises (throw x) e free h =
      ap (λ l. record w { lookup = l }) (update_back w.lookup s.address null_entry free)

  -- Where registering an object throws, the state is as before, the lookup included: the entry with
  -- a null pointer that was made first is gone.
  pub register_object-unchanged :
      (e : Error) → (register_object s type w).1 ≡ raises e → (register_object s type w).0 ≡ w
  unfolding register_object
  register_object-unchanged e h = elim (Bool-cases (w.lookup s.address == 0)) [
    | inl free ↦
        rw free (tried-raises (get_next_writable w.handles) e (ground (arith, free)) (rw free at h))
    | inr taken ↦ rw taken refl
  ]

  place-Registered :
      (r : Result (Nodes × ℕ × ℕ)) (n : ℕ)
      → Gives w.handles r
      → (with_place w s type r).1 ≡ done n
      → Registered w (with_place w s type r).0 s n
  place-Registered (throw e) n f h = cc
  place-Registered (ok (nodes, node, slot)) n f h =
      let e : handle_at node slot ≡ n = cc in
      subst (Registered w (with_place w s type (ok (nodes, node, slot))).0 s) e
        (with_place-Registered w s type node slot nodes f)

  tried-done :
      (r : Result (Nodes × ℕ × ℕ)) (n : ℕ)
      → (tried r).1 ≡ done n
      → ((with_place w s type r).1 ≡ done n) × ((tried r).0 ≡ (with_place w s type r).0)
  tried-done (throw e) n h = cc
  tried-done (ok x) n h =
      let same = insert_null-with_place s type w x in
      (ap (λ y. y.1) (sym same) ∙ h, ap (λ y. y.0) same)

  pub taken_or_free :
      (n : ℕ)
      → (register_object s type w).1 ≡ done n
      → (w.lookup s.address ≡ 0)
        × ((with_place w s type (get_next_writable w.handles)).1 ≡ done n)
        × ((register_object s type w).0 ≡ (with_place w s type (get_next_writable w.handles)).0)
  unfolding register_object
  taken_or_free n h = elim (Bool-cases (w.lookup s.address == 0)) [
    | inl free ↦
        let (end, same) = tried-done (get_next_writable w.handles) n (rw free at h) in
        (ground (arith, free), end, rw free same)
    | inr taken ↦ cc (rw taken at h)
  ]

  -- Where registering an object returns a handle, that is no null pointer, the place of the handle
  -- in the container was free before and is taken afterwards; the header there is unlocked, flagged
  -- as uninitialised, and has one root; the lookup gives the handle for the object's address, which
  -- had none before; and no other address and no other header is touched.
  pub register_object-Registered :
      (n : ℕ)
      → (register_object s type w).1 ≡ done n
      → (w.lookup s.address ≡ 0) × Registered w (register_object s type w).0 s n
  register_object-Registered n h =
      let (free, end, same) = taken_or_free n h in
      let r = get_next_writable w.handles in
      (free, rw same (place-Registered r n (get_next_writable-Gives w.handles) end))

  place-given :
      (r : Result (Nodes × ℕ × ℕ)) (n : ℕ)
      → Gives w.handles r
      → (with_place w s type r).1 ≡ done n
      → r ≡ ok ((with_place w s type r).0.handles, (n - 1) / 64, (n - 1) % 64)
  place-given (throw e) n f h = cc
  place-given (ok (nodes, node, slot)) n f h =
      let e : handle_at node slot ≡ n = cc in
      let node_of : (n - 1) / 64 ≡ node = omega (arith, f.in_node, e) in
      let slot_of : (n - 1) % 64 ≡ slot = omega (arith, f.in_node, e) in rw (node_of, slot_of) refl

  -- The place of the handle is the one that `GetNextUninitialized` gives.
  pub register_object-given :
      (n : ℕ)
      → (register_object s type w).1 ≡ done n
      → get_next_writable w.handles
        ≡ ok ((register_object s type w).0.handles, (n - 1) / 64, (n - 1) % 64)
  register_object-given n h =
      let (free, end, same) = taken_or_free n h in
      rw same (place-given (get_next_writable w.handles) n (get_next_writable-Gives w.handles) end)

  filled-place :
      (r : Result (Nodes × ℕ × ℕ)) → Returns w.handles r → (n : ℕ) × ((tried r).1 ≡ done n)
  filled-place (throw e) h = absurd h
  filled-place (ok (nodes, node, slot)) h = (handle_at node slot, refl)

  -- It does return one where the address is not known, and the places of handles are taken from
  -- below in every node, as they are in a container from which nothing has been taken out.
  pub register_object-returns :
      All IsFilled w.handles
      → w.lookup s.address ≡ 0
      → (n : ℕ) × ((register_object s type w).1 ≡ done n)
  unfolding register_object
  register_object-returns filled free =
      let (n, end) =
        filled-place (get_next_writable w.handles) (get_next_writable-Taken w.handles filled) in
      let none_there : (w.lookup s.address == 0) ≡ true = ground (arith, free) in
      (n, rw none_there end)
