-- ===== src/Destruction/Spares.antt =====
-- Calling the destructors of an object without root handles spares every object that has one.
use gca.Base.{
  ℕ, zero, suc, ◌+◌, ◌*◌, ◌/◌, ◌≡◌, refl, ap, sym, subst, ◌⊎◌, Bool, true, false, ◌&&◌, List, [],
  ◌∷◌, ◌==◌, if◌then◌else◌, Bool-cases, Option-cases, ==_iff, inl, inr, All, arith,
}
use gca.RwLock.{try_acquire_write, acquire_write, release}
use gca.Handle.Body.{SameBodies-refl}
use gca.Types.{ObjectType}
use gca.Page.{u64}
use gca.Roles.{Answer, done, raises, waits}
use gca.Fields.{Store, Ended, finished, raised, spinning, set_field}
use gca.Fields.Bodies.{set_field-SameBodies}
use gca.World.{World, M, ◌>>◌, modify, on_world, check, on_error}
use gca.World.Spares.{
  IsRooted, Spares, Spares-refl, Spares-trans, then-Spares, on_error-Spares, resume-lands,
  quiet-Spares, change_handle-Spares,
}
use gca.Destruction.{
  Env, type_of, with_lock, unlock, lock_for_write, lock_field, clear_field, drop_reference,
  drop_field, call_destructor, drop_fields, destroy_elements, is_uninitialized, erase_lookup,
  destroy_initialized, call_destructor_for_object,
}

-- What other threads do while this one yields
abbrev pub OthersSpare : List (World → World) → Type 0
OthersSpare others = All (λ other. (w : World) → Spares w (other w)) others

pub unlock-Spares : (t n : ℕ) (w : World) → Spares w (unlock t n w)
unfolding unlock
unlock-Spares t n w =
    change_handle-Spares n (λ h. with_lock (release t h.object_lock) h) w (λ h. refl)

lock_for_write-Spares : (t n : ℕ) (w : World) → Spares w (lock_for_write t n w).0
unfolding lock_for_write
lock_for_write-Spares t n w = elim (Option-cases (acquire_write t [] (w.heap n).object_lock)) [
  | inl e ↦ rw (e, lock_for_write) (Spares-refl w)
  | inr (l, e) ↦ rw (e, lock_for_write) (change_handle-Spares n (with_lock l) w (λ h. refl))
]

pub if-Spares :
    {A : Type 0} (w : World) (b : Bool) (x y : World × A)
    → Spares w x.0
    → Spares w y.0
    → Spares w (if b then x else y).0
if-Spares w true x y p q = p
if-Spares w false x y p q = q

lock_field-Spares :
    (t : ℕ) (others : List (World → World)) (n f begin end : ℕ) (w : World)
    → OthersSpare others
    → Spares w (lock_field t others n f begin end w).0
unfolding lock_field
lock_field-Spares t [] n f begin end w h =
    if-Spares w (try_acquire_write t (w.heap f).object_lock).1 _ _
      (change_handle-Spares f (with_lock (try_acquire_write t (w.heap f).object_lock).0) w
        (λ h. refl))
      (Spares-refl w)
lock_field-Spares t (other ∷ others) n f begin end w h =
    if-Spares w (try_acquire_write t (w.heap f).object_lock).1 _ _
      (change_handle-Spares f (with_lock (try_acquire_write t (w.heap f).object_lock).0) w
        (λ h. refl))
      (Spares-trans (Spares-trans (unlock-Spares t n w) (h.0 (unlock t n w))) (
        then-Spares (lock_for_write t n >> on_world still_there) (lock_field t others n f begin end)
          (other (unlock t n w))
          (then-Spares (lock_for_write t n) (on_world still_there) (other (unlock t n w))
            (lock_for_write-Spares t n (other (unlock t n w))) (λ v s. Spares-refl v))
          (λ v s. lock_field-Spares t others n f begin end v h.1)))
  where
    still_there : World → M (Unit {0})
    still_there v = check (((v.heap n).address == begin) && (u64 (begin + (v.heap n).size) == end))

clear_field-Spares : (t n field : ℕ) (w : World) → Spares w (clear_field t n field w).0
unfolding clear_field
clear_field-Spares t n field w = by_end r.1
  where
    r : Store × Ended
    r = set_field t [] [] n field 0 (record { heap = w.heap; field = w.field })

    cleared : World
    cleared = record w { heap = r.0.heap; field = r.0.field }

    spared : Spares w cleared
    spared =
        quiet-Spares w cleared refl
          (set_field-SameBodies t [] [] n field 0 (record { heap = w.heap; field = w.field })) refl
          refl refl

    by_end :
        (end : Ended)
        → Spares w
            (elim end as (λ _. World × Answer (Unit {0})) [
              | finished ↦ (cleared, done tt)
              | raised e ↦ (cleared, raises e)
              | spinning ↦ (cleared, waits)
            ]).0
    by_end finished = spared
    by_end (raised e) = spared
    by_end spinning = spared

-- What may be destroyed
pub record IsDoomed (w : World) (n : ℕ) : Type 0 where
  pub rootless : (w.heap n).root_handle_count ≡ 0
  pub own : (w.lookup (w.heap n).address ≡ n) ⊎ (w.lookup (w.heap n).address ≡ 0)

unrooted : (n : ℕ) (w : World) → IsDoomed w n → ¬ IsRooted w (w.heap n).address
unrooted n w d r =
    let known = r.known in
    let held = r.held in
    elim d.own [
      | inl e ↦
          let same = ap (λ x. (w.heap x).root_handle_count) e in
          absurd (omega (arith, held, same, d.rootless))
      | inr e ↦ absurd (omega (arith, known, e))
    ]

-- Once it is forgotten, an address stays so.
forgotten : {w w' : World} (a : ℕ) → Spares w w' → w.lookup a ≡ 0 → w'.lookup a ≡ 0
forgotten a s e = ground (arith, e, s.forgets a)

module _ (env : Env) (calm : OthersSpare env.others) where
  drop_reference-Spares :
      (n begin end field f : ℕ) (w : World) → Spares w (drop_reference env n begin end field f w).0
  unfolding drop_reference
  drop_reference-Spares n begin end field f w =
      then-Spares
        (lock_field env.thread env.others n f begin end
          >> on_error (unlock env.thread f) (clear_field env.thread n field))
        (modify (unlock env.thread f)) w
        (then-Spares (lock_field env.thread env.others n f begin end)
          (on_error (unlock env.thread f) (clear_field env.thread n field)) w
          (lock_field-Spares env.thread env.others n f begin end w calm)
          (λ v s.
            on_error-Spares (unlock env.thread f) (clear_field env.thread n field) v
              (clear_field-Spares env.thread n field v)
              (unlock-Spares env.thread f (clear_field env.thread n field v).0)))
        (λ v s. unlock-Spares env.thread f v)

  drop_field-Spares :
      (n begin end field : ℕ) (w : World) → Spares w (drop_field env n begin end field w).0
  unfolding drop_field
  drop_field-Spares n begin end field w =
      if-Spares w (field == 0) (w, done tt) _ (Spares-refl w)
        (if-Spares w (w.field field == 0) (w, done tt)
          (drop_reference env n begin end field (w.field field) w) (Spares-refl w)
          (drop_reference-Spares n begin end field (w.field field) w))

  drop_fields-Spares :
      (n begin end : ℕ) (fields : List ℕ) (w : World)
      → Spares w (drop_fields env n begin end fields w).0
  unfolding drop_fields
  drop_fields-Spares n begin end [] w = Spares-refl w
  drop_fields-Spares n begin end (field ∷ fields) w =
      then-Spares (drop_field env n begin end field) (drop_fields env n begin end fields) w
        (drop_field-Spares n begin end field w) (λ v s. drop_fields-Spares n begin end fields v)

  destroy_elements-Spares :
      (n : ℕ) (type : ObjectType) (begin end left i : ℕ) (w : World)
      → Spares w (destroy_elements env n type begin end left i w).0
  unfolding destroy_elements
  destroy_elements-Spares n type begin end zero i w = Spares-refl w
  destroy_elements-Spares n type begin end (suc left) i w =
      let obj = u64 (begin + i * type.size) in
      then-Spares
        (drop_fields env n begin end (env.fields type obj) >> modify (call_destructor obj))
        (destroy_elements env n type begin end left (i + 1)) w
        (then-Spares (drop_fields env n begin end (env.fields type obj))
          (modify (call_destructor obj)) w (drop_fields-Spares n begin end (env.fields type obj) w)
          (λ v s.
            quiet-Spares v (call_destructor obj v) refl (SameBodies-refl v.heap) refl refl refl))
        (λ v s. destroy_elements-Spares n type begin end left (i + 1) v)

  erase_lookup-Spares : (a : ℕ) (w : World) → ¬ IsRooted w a → Spares w (erase_lookup a w).0
  unfolding erase_lookup
  erase_lookup-Spares a w bare = record {
    count = refl;
    large = refl;
    bodies = SameBodies-refl w.heap;
    begins = λ p. refl;
    forgets = λ b. ground arith;
    finds = λ b r. elim (Bool-cases (a == b)) [
      | inl e ↦ absurd (bare (subst (IsRooted w) (sym ((==_iff a b).0 e)) r))
      | inr e ↦ rw e refl
    ];
    keeps = λ p e r m. m;
    thins = λ weight p. omega arith;
  }

  destroy_initialized-Spares : (n : ℕ) (w : World) → Spares w (destroy_initialized env n w).0
  unfolding destroy_initialized
  destroy_initialized-Spares n w =
      let h = w.heap n in
      let type = type_of w n in
      if-Spares w (is_uninitialized h) (w, done tt) _ (Spares-refl w)
        (destroy_elements-Spares n type h.address (u64 (h.address + h.size)) (h.size / type.size) 0
          w)

  pub call_destructor_for_object-Spares :
      (n : ℕ) (w : World) → IsDoomed w n → Spares w (call_destructor_for_object env n w).0
  unfolding call_destructor_for_object
  call_destructor_for_object-Spares n w doomed =
      then-Spares (on_world (λ v. erase_lookup (v.heap n).address)) (destroy_initialized env n) w
        (erase_lookup-Spares (w.heap n).address w (unrooted n w doomed))
        (λ v s. destroy_initialized-Spares n v)

  pub call_destructor_for_object-forgets :
      (n : ℕ) (w : World) → (call_destructor_for_object env n w).0.lookup (w.heap n).address ≡ 0
  unfolding call_destructor_for_object erase_lookup
  call_destructor_for_object-forgets n w =
      let a = (w.heap n).address in
      let erased : (erase_lookup a w).0.lookup a ≡ 0 = ground arith in
      resume-lands (λ v. v.lookup a ≡ 0) (λ _. destroy_initialized env n) (erase_lookup a w).0
        (erase_lookup a w).1 erased
        (λ _. forgotten a (destroy_initialized-Spares n (erase_lookup a w).0) erased)
