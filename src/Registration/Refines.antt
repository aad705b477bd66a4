-- ===== src/Registration/Refines.antt =====
-- Registering objects as a map sees it: from addresses to objects.
use gca.Base.{
  ℕ, suc, ◌+◌, ◌-◌, ◌/◌, ◌%◌, ◌<◌, ◌≡◌, ◌≢◌, refl, ap, fun_ext, sym, ◌∙◌, subst, true, false,
  Option, none, some, All, ◌==◌, ==_iff, if◌then◌else◌, Bool-cases, inl, inr, arith,
}
use gca.Base.Family.{update}
use gca.Base.Result.{Result, ok, throw}
use gca.Handle.{Handle}
use gca.Slots.{Nodes, flags_at, next_free_slot, get_next_writable}
use gca.Slots.Fresh.{Taken-Fresh}
use gca.Slots.Laws.{IsFilled, Taken, Returns, next_free_slot-first, get_next_writable-Taken}
use gca.Page.{Span}
use gca.Roles.{done}
use gca.World.{World, handle_at}
use gca.World.Spares.{IsPlaced}
use gca.Registration.{with_place, register_object}
use gca.Registration.Laws.{update_at, update_ne, Registered, taken_or_free, with_place-Registered}

-- The place of a handle is taken.
abbrev pub IsTaken : Nodes → ℕ → Type 0
IsTaken nodes n = (n - 1) % 64 < next_free_slot (flags_at nodes ((n - 1) / 64))

-- The handles of the lookup lie where it has them and at places that are taken, and places are taken
-- from below in every node.
pub record IsRegistry (w : World) : Type 0 where
  pub filled : All IsFilled w.handles
  pub placed : IsPlaced w
  pub taken : (a : ℕ) → 0 < w.lookup a → IsTaken w.handles (w.lookup a)

-- What a user sees of an object
pub record Object : Type 0 where
  pub size : ℕ
  pub roots : ℕ

abbrev pub object_of : Handle → Object
object_of h = record { size = h.size; roots = h.root_handle_count }

abbrev pub pick : (n : ℕ) → Handle → Option Object
pick n h = if n == 0 then none else some (object_of h)

-- The objects by their addresses
abbrev pub objects : World → ℕ → Option Object
objects w a = pick (w.lookup a) (w.heap (w.lookup a))

Object-path :
    (h : Handle) (size : ℕ)
    → h.size ≡ size
    → h.root_handle_count ≡ 1
    → object_of h ≡ record { size = size; roots = 1 }
Object-path h size p q =
    let with_size : ℕ → Object = λ x. record { size = x; roots = h.root_handle_count } in
    let with_roots : ℕ → Object = λ y. record { size = size; roots = y } in
    ap with_size p ∙ ap with_roots q

module _ (s : Span) (type : ℕ) (w : World) (registry : IsRegistry w) (free : w.lookup s.address ≡ 0)
    (nodes : Nodes) (node slot : ℕ) (t : Taken w.handles nodes node slot) where
  abbrev n : ℕ
  n = handle_at node slot

  abbrev w' : World
  w' = (with_place w s type (ok (nodes, node, slot))).0

  reg : Registered w w' s n
  reg = with_place-Registered w s type node slot nodes (Taken-Fresh t)

  next_was : next_free_slot (flags_at w.handles node) ≡ slot
  next_was = ap next_free_slot t.was ∙ next_free_slot-first slot (omega (arith, t.in_node))

  next_now : next_free_slot (flags_at nodes node) ≡ slot + 1
  next_now =
      ap next_free_slot t.now
      ∙ next_free_slot-first (suc slot) (omega (arith, t.in_node))
      ∙ (omega arith)

  -- No address had the new handle.
  fresh : (a : ℕ) → w.lookup a ≢ n
  fresh a same =
      let taken = subst (IsTaken w.handles) same (registry.taken a (omega (arith, same))) in
      let slot_of : (n - 1) % 64 ≡ slot = omega (arith, t.in_node) in
      let node_of : (n - 1) / 64 ≡ node = omega (arith, t.in_node) in
      let below = subst (λ j. (n - 1) % 64 < next_free_slot (flags_at w.handles j)) node_of taken in
      omega (arith, below, slot_of, next_was)

  IsTaken-kept : (m : ℕ) → IsTaken w.handles m → IsTaken nodes m
  IsTaken-kept m taken = elim (Bool-cases (node == (m - 1) / 64)) [
    | inl e ↦
        let at : node ≡ (m - 1) / 64 = (==_iff node ((m - 1) / 64)).0 e in
        let below =
          subst (λ j. (m - 1) % 64 < next_free_slot (flags_at w.handles j)) (sym at) taken in
        subst (λ j. (m - 1) % 64 < next_free_slot (flags_at nodes j)) at
          (omega (arith, below, next_was, next_now))
    | inr e ↦
        let same = t.others ((m - 1) / 64) (λ at. cc (e, (==_iff node ((m - 1) / 64)).1 at)) in
        subst (λ flags. (m - 1) % 64 < next_free_slot flags) (sym same) taken
  ]

  new-IsTaken : IsTaken nodes n
  new-IsTaken =
      let slot_of : (n - 1) % 64 ≡ slot = omega (arith, t.in_node) in
      let node_of : (n - 1) / 64 ≡ node = omega (arith, t.in_node) in
      subst (λ j. (n - 1) % 64 < next_free_slot (flags_at nodes j)) (sym node_of)
        (omega (arith, slot_of, next_now))

  -- The handle of another address is as before.
  other_header : (a : ℕ) → s.address ≢ a → w'.heap (w'.lookup a) ≡ w.heap (w.lookup a)
  other_header a ne =
      ap w'.heap (reg.lookups a ne) ∙ reg.headers (w.lookup a) (λ e. fresh a (sym e))

  address_of : (a : ℕ) → (s.address == a) ≡ true → s.address ≡ a
  address_of a = (==_iff s.address a).0

  other_address : (a : ℕ) → (s.address == a) ≡ false → s.address ≢ a
  other_address a e = ground (arith, e)

  was_known : (a : ℕ) → s.address ≢ a → 0 < w'.lookup a → 0 < w.lookup a
  was_known a ne known = omega (arith, known, reg.lookups a ne)

  place-IsRegistry : IsRegistry w'
  place-IsRegistry = record {
    filled = t.filled;
    placed = λ a known. elim (Bool-cases (s.address == a)) [
      | inl e ↦
          subst (λ b. (w'.heap (w'.lookup b)).address ≡ b) (address_of a e)
            (ap (λ m. (w'.heap m).address) reg.named ∙ reg.header.at)
      | inr e ↦
          let ne = other_address a e in
          ap (λ (h : Handle). h.address) (other_header a ne)
          ∙ registry.placed a (was_known a ne known)
    ];
    taken = λ a known. elim (Bool-cases (s.address == a)) [
      | inl e ↦
          subst (λ b. IsTaken nodes (w'.lookup b)) (address_of a e)
            (subst (IsTaken nodes) (sym reg.named) new-IsTaken)
      | inr e ↦
          let ne = other_address a e in
          subst (IsTaken nodes) (sym (reg.lookups a ne))
            (IsTaken-kept (w.lookup a) (registry.taken a (was_known a ne known)))
    ];
  }

  abbrev with_object : ℕ → Option Object
  with_object = update (objects w) s.address (some (record { size = s.size; roots = 1 }))

  new_object : objects w' s.address ≡ some (record { size = s.size; roots = 1 })
  new_object =
      let some_handle : (n == 0) ≡ false = ground arith in
      ap (λ m. pick m (w'.heap m)) reg.named
      ∙ rw some_handle (ap some (Object-path (w'.heap n) s.size reg.header.size reg.header.roots))

  place-objects : objects w' ≡ with_object
  place-objects = fun_ext λ a. elim (Bool-cases (s.address == a)) [
    | inl e ↦
        subst (λ b. objects w' b ≡ with_object b) (address_of a e)
          (new_object
            ∙ sym (update_at (objects w) s.address (some (record { size = s.size; roots = 1 }))))
    | inr e ↦
        let ne = other_address a e in
        ap (λ m. pick m (w'.heap (w'.lookup a))) (reg.lookups a ne)
        ∙ ap (pick (w.lookup a)) (other_header a ne)
        ∙ sym (update_ne (objects w) s.address a (some (record { size = s.size; roots = 1 })) ne)
  ]

module _ (s : Span) (type : ℕ) (w : World) (registry : IsRegistry w) where
  -- What registering an object is for the map
  abbrev pub Adds : World → Type 0
  Adds v =
      IsRegistry v
      × (objects v ≡ update (objects w) s.address (some (record { size = s.size; roots = 1 })))

  place-Adds :
      (r : Result (Nodes × ℕ × ℕ)) (n : ℕ)
      → w.lookup s.address ≡ 0
      → Returns w.handles r
      → (with_place w s type r).1 ≡ done n
      → Adds (with_place w s type r).0
  place-Adds (throw e) n free filled h = absurd filled
  place-Adds (ok (nodes, node, slot)) n free t h = (
    place-IsRegistry s type w registry free nodes node slot t,
    place-objects s type w registry free nodes node slot t,
  )

  -- Registering an object implements adding it to a map from addresses to objects: on a registry,
  -- where it returns a handle, the result is a registry again, its objects are those there were, and
  -- at the allocation's address, where there was none, one of the allocation's size with one root.
  pub register_object-refines :
      (n : ℕ)
      → (register_object s type w).1 ≡ done n
      → IsRegistry (register_object s type w).0
        × (objects w s.address ≡ none)
        × (objects (register_object s type w).0
            ≡ update (objects w) s.address (some (record { size = s.size; roots = 1 })))
  register_object-refines n h =
      let (free, end, same) = taken_or_free s type w n h in
      let adds =
        place-Adds (get_next_writable w.handles) n free
          (get_next_writable-Taken w.handles registry.filled) end in
      let none_there : (w.lookup s.address == 0) ≡ true = ground (arith, free) in
      rw same (adds.0, rw none_there refl, adds.1)
