-- ===== src/Collect/Forgets.antt =====
-- A turn that destroys an object makes the lookup forget the object's address.
use gca.Base.{
  ℕ, ◌-◌, ◌/◌, ◌%◌, ◌<◌, ◌≡◌, refl, ap, ◌∙◌, subst, Bool, true, false, not, ltb, ◌==◌,
  if◌then◌else◌, Bool-cases, inl, inr, arith,
}
use gca.Base.Result.{Result, ok, throw}
use gca.RwLock.{try_acquire_write, try_acquire_read_for, release}
use gca.RwLock.Laws.{alone}
use gca.Slots.{Nodes, remove}
use gca.Handle.{Handle, mark_garbage}
use gca.Handle.Laws.{on_handle-keeps}
use gca.Handle.Body.{Body}
use gca.Page.{Entry}
use gca.Roles.{Answer, done}
use gca.World.{
  World, M, pure, ◌>>◌, modify, on_world, check, on_error, change_handle, remove_handle, with_nodes,
}
use gca.World.Lands.{Lands, done-Lands, bind-Lands, then-Lands, recover-Lands, if-Lands}
use gca.World.Spares.{IsPlaced, place}
use gca.Destruction.{
  Env, with_lock, unlock, is_on_page, remove_from_page, call_destructor_for_object, destroy_object,
}
use gca.Destruction.Spares.{OthersSpare, call_destructor_for_object-forgets}
use gca.Collect.{
  upgrade_lock, destroy_locked, is_dead, after_test, collect_locked, collect_object, collect_entry,
}
use gca.Collect.Spares.{is_dead-Spares}

-- The lookup has no handle for the address.
abbrev IsForgotten : {A : Type 0} → ℕ → World → A → Type 0
IsForgotten a w x = w.lookup a ≡ 0

-- Nor has it, if an object was destroyed.
abbrev IsForgottenIf : ℕ → World → Bool → Type 0
IsForgottenIf a w destroyed = destroyed ≡ true → w.lookup a ≡ 0

not_destroyed : (a : ℕ) (w : World) → Lands (IsForgottenIf a) (w, done false)
not_destroyed a w = done-Lands (IsForgottenIf a) w false (λ e. cc)

remove_handle-lookup : (n : ℕ) (w : World) → (remove_handle n w).0.lookup ≡ w.lookup
unfolding remove_handle
remove_handle-lookup n w = by_result (remove w.handles ((n - 1) / 64) ((n - 1) % 64))
  where
    by_result : {A : Type 0} (r : Result (Nodes × A)) → (with_nodes w r).0.lookup ≡ w.lookup
    by_result (ok (nodes, x)) = refl
    by_result (throw e) = refl

address_kept :
    (n a : ℕ) (f : Handle → Handle) (w : World)
    → ((h : Handle) → (f h).address ≡ h.address)
    → (w.heap n).address ≡ a
    → ((change_handle n f w).heap n).address ≡ a
address_kept n a f w keep at = on_handle-keeps (λ h. h.address) f w.heap n n keep ∙ at

module _ (env : Env) (calm : OthersSpare env.others) (n a : ℕ) where
  destroy_object-forgets :
      (p : ℕ) (w : World)
      → (w.heap n).address ≡ a
      → Lands (IsForgotten a) (destroy_object env p n w)
  unfolding destroy_object remove_from_page
  destroy_object-forgets p w at =
      let rest : M (Unit {0}) = modify (remove_from_page p n) >> remove_handle n in
      bind-Lands (λ v u. (v.heap n).address ≡ a) (IsForgotten a)
        (modify (change_handle n mark_garbage))
        (λ _.
          on_world (λ v. check (is_on_page (v.page p) (v.heap n)))
          >> (call_destructor_for_object env n >> rest))
        w (λ u e. address_kept n a mark_garbage w (λ h. refl) at)
        λ x v at_v.
          bind-Lands (λ v u. (v.heap n).address ≡ a) (IsForgotten a)
            (on_world (λ v. check (is_on_page (v.page p) (v.heap n))))
            (λ _. call_destructor_for_object env n >> rest) v (λ u e. at_v)
            λ y u at_u.
              bind-Lands (IsForgotten a) (IsForgotten a) (call_destructor_for_object env n)
                (λ _. rest) u
                (λ z e.
                  subst (λ b. (call_destructor_for_object env n u).0.lookup b ≡ 0) at_u
                    (call_destructor_for_object-forgets env calm n u))
                λ z t gone o e.
                  ap (λ (l : ℕ → ℕ). l a) (remove_handle-lookup n (remove_from_page p n t)) ∙ gone

module _ (env : Env) (id n a : ℕ) (destroy : M (Unit {0}))
    (forgets : (w : World) → (w.heap n).address ≡ a → Lands (IsForgotten a) (destroy w)) where
  after_test-forgets :
      (dead : Bool) (w : World)
      → (w.heap n).address ≡ a
      → Lands (IsForgottenIf a) (after_test env destroy n dead w)
  unfolding destroy_locked upgrade_lock
  after_test-forgets false w at =
      then-Lands (IsForgottenIf a) (modify (unlock env.thread n)) (λ _. pure false) w
        (λ u v. not_destroyed a v)
  after_test-forgets true w at =
      bind-Lands (IsForgotten a) (IsForgottenIf a) (destroy_locked env destroy n) (λ _. pure true) w
        (bind-Lands (λ v u. (v.heap n).address ≡ a) (IsForgotten a) (upgrade_lock env.thread n)
          (λ _. on_error (unlock env.thread n) destroy) w
          (λ u e. address_kept n a (with_lock _) w (λ h. refl) at)
          λ u v at_v.
            recover-Lands (IsForgotten a) (unlock env.thread n) (destroy v).0 (destroy v).1
              (forgets v at_v))
        λ u v gone. done-Lands (IsForgottenIf a) v true (λ e. gone)

  collect_locked-forgets :
      (w : World)
      → (w.heap n).address ≡ a
      → Lands (IsForgottenIf a) (collect_locked env destroy id n w)
  unfolding collect_locked
  collect_locked-forgets w at =
      bind-Lands (λ v u. (v.heap n).address ≡ a) (IsForgottenIf a) (is_dead env id n)
        (after_test env destroy n) w
        (λ u e. ap (λ (b : Body). b.address) ((is_dead-Spares env id n w).bodies.same n) ∙ at)
        (λ dead v at_v. after_test-forgets dead v at_v)

  collect_object-forgets :
      (w : World)
      → (w.heap n).address ≡ a
      → Lands (IsForgottenIf a) (collect_object env destroy id n w)
  unfolding collect_object
  collect_object-forgets w at =
      let written = try_acquire_write env.thread (w.heap n).object_lock in
      let tried = release env.thread written.0 in
      let read = try_acquire_read_for (λ _. false) 1 alone tried in
      let locked = change_handle n (with_lock read.0) w in
      let skipped = change_handle n (with_lock tried) w in
      let last : World × Answer Bool =
        if not read.1 then (skipped, done false) else collect_locked env destroy id n locked in
      let next : World × Answer Bool = if not written.1 then (w, done false) else last in
      if-Lands (IsForgottenIf a) (ltb 0 (w.heap n).root_handle_count) (w, done false) next
        (λ e. not_destroyed a w)
        λ e.
          if-Lands (IsForgottenIf a) (not written.1) (w, done false) last (λ e. not_destroyed a w)
            λ e.
              if-Lands (IsForgottenIf a) (not read.1) (skipped, done false)
                (collect_locked env destroy id n locked) (λ e. not_destroyed a skipped)
                λ e.
                  collect_locked-forgets locked
                    (address_kept n a (with_lock read.0) w (λ h. refl) at)

-- What a turn that destroys the object of an entry has done
abbrev pub IsForgottenKnown : (known : ℕ) → ℕ → World → Bool → Type 0
IsForgottenKnown known a w destroyed = destroyed ≡ true → (0 < known) × (w.lookup a ≡ 0)

module _ (env : Env) (calm : OthersSpare env.others) (id p : ℕ) where
  pub collect_entry-forgets :
      (e : Entry) (w : World)
      → IsPlaced w
      → Lands
          (IsForgottenKnown (w.lookup (place (w.page p) e)) (place (w.page p) e))
          (collect_entry env id p e w)
  unfolding collect_entry
  collect_entry-forgets e w placed = elim (Bool-cases (w.lookup (place (w.page p) e) == 0)) [
    | inl none_there ↦ λ b h. cc (rw none_there at h)
    | inr some_there ↦
        let a = place (w.page p) e in
        let n = w.lookup a in
        let known : 0 < n = ground (arith, some_there) in
        let turn =
          collect_object-forgets env id n a (destroy_object env p n)
            (destroy_object-forgets env calm n a p) w (placed a known) in
        λ b h destroyed. (known, rw some_there (turn b (rw some_there at h) destroyed))
  ]
