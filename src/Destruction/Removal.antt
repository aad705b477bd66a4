-- ===== src/Destruction/Removal.antt =====
-- Destroying an object without root handles spares every object that has one.
use gca.Base.{
  ℕ, ◌-◌, ◌/◌, ◌%◌, ◌≡◌, refl, ap, sym, ◌∙◌, subst, Bool, true, false, List, [], ◌∷◌, ◌==◌,
  Bool-cases, ==_iff, inl, inr, In, here, there, arith, ◌≤◌,
}
use gca.Handle.{mark_garbage}
use gca.Handle.Body.{Body, SameBodies-refl}
use gca.Handle.Laws.{mark_garbage_lem}
use gca.Base.Result.{Result, ok, throw}
use gca.Slots.{Nodes, remove}
use gca.Page.{Entry, entry, equals, u16, sub64, erase_entry, remove_allocation}
use gca.Roles.{done}
use gca.World.{
  PageState, World, ◌>>◌, modify, on_world, check, change_handle, remove_handle, with_nodes,
}
use gca.World.Spares.{
  IsRooted, weigh, place, Spares, Spares-refl, bind-Spares, then-Spares, quiet-Spares,
  change_handle-Spares,
}
use gca.Destruction.{
  Env, call_destructor_for_object, free_large, is_on_page, remove_from_page, destroy_object,
  destroy_large_object,
}
use gca.Destruction.Spares.{
  OthersSpare, IsDoomed, call_destructor_for_object-Spares, call_destructor_for_object-forgets,
}

In-erase_entry :
    (a e : Entry) (es : List Entry) → equals e a ≡ false → In e es → In e (erase_entry a es)
unfolding erase_entry
In-erase_entry a e [] ne m = elim m [ ]
In-erase_entry a e (x ∷ es) ne here = rw (ne, erase_entry) here
In-erase_entry a e (x ∷ es) ne (there m) = elim (Bool-cases (equals x a)) [
  | inl eq ↦ rw (eq, erase_entry) m
  | inr other ↦ rw (other, erase_entry) (there (In-erase_entry a e es ne m))
]

-- A rooted entry is not the one that goes.
other_entry :
    (q : PageState) (e : Entry) (w : World) (n : ℕ)
    → is_on_page q (w.heap n) ≡ true
    → w.lookup (w.heap n).address ≡ 0
    → IsRooted w (place q e)
    → equals e (entry (u16 (sub64 (w.heap n).address q.begin)) (u16 (w.heap n).size)) ≡ false
other_entry q e w n inside gone r =
    let a = (w.heap n).address in
    elim (Bool-cases (equals e (entry (u16 (sub64 a q.begin)) (u16 (w.heap n).size)))) [
      | inl eq ↦
          let there_too : place q e ≡ a = ground (arith, eq, inside) in
          let known = r.known in absurd (omega (arith, known, ap w.lookup there_too, gone))
      | inr ne ↦ ne
    ]

-- The entry of an object that the lookup has forgotten goes.
remove_from_page-keeps :
    (p n : ℕ) (w : World) (q : ℕ) (e : Entry)
    → is_on_page (w.page p) (w.heap n) ≡ true
    → w.lookup (w.heap n).address ≡ 0
    → IsRooted w (place (w.page q) e)
    → In e (w.page q).entries
    → In e ((remove_from_page p n w).page q).entries
unfolding remove_from_page remove_allocation
remove_from_page-keeps p n w q e inside gone r m = elim (Bool-cases (p == q)) [
  | inl eq ↦
      let same : p ≡ q = (==_iff p q).0 eq in
      let at_p = subst (λ x. is_on_page (w.page x) (w.heap n) ≡ true) same inside in
      rw eq (
        subst
          (λ x. In e (
            erase_entry
              (entry (u16 (sub64 (w.heap n).address (w.page x).begin)) (u16 (w.heap n).size))
              (w.page x).entries))
          (sym same)
          (In-erase_entry _ e (w.page q).entries (other_entry (w.page q) e w n at_p gone r) m))
  | inr ne ↦ rw ne m
]

weigh-erase_entry :
    (weight : Entry → ℕ) (a : Entry) (es : List Entry)
    → weigh weight (erase_entry a es) ≤ weigh weight es
unfolding erase_entry weigh
weigh-erase_entry weight a [] = omega arith
weigh-erase_entry weight a (e ∷ es) = ground (arith, weigh-erase_entry weight a es)

remove_from_page-thins :
    (p n : ℕ) (w : World) (weight : Entry → ℕ) (q : ℕ)
    → weigh weight ((remove_from_page p n w).page q).entries ≤ weigh weight (w.page q).entries
unfolding remove_from_page remove_allocation
remove_from_page-thins p n w weight q = elim (Bool-cases (p == q)) [
  | inl e ↦ rw e (
      subst
        (λ x.
          weigh weight (
            erase_entry
              (entry (u16 (sub64 (w.heap n).address (w.page p).begin)) (u16 (w.heap n).size))
              (w.page p).entries)
          ≤ weigh weight (w.page x).entries)
        ((==_iff p q).0 e) (weigh-erase_entry weight _ (w.page p).entries))
  | inr ne ↦ rw ne (omega arith)
]

remove_from_page-Spares :
    (p n : ℕ) (w : World)
    → is_on_page (w.page p) (w.heap n) ≡ true
    → w.lookup (w.heap n).address ≡ 0
    → Spares w (remove_from_page p n w)
unfolding remove_from_page
remove_from_page-Spares p n w inside gone = record {
  count = refl;
  large = refl;
  bodies = SameBodies-refl w.heap;
  begins = λ q. ground arith;
  forgets = λ a. inl refl;
  finds = λ a r. refl;
  keeps = λ q e r m. remove_from_page-keeps p n w q e inside gone r m;
  thins = remove_from_page-thins p n w;
}

with_nodes-Spares : {A : Type 0} (w : World) (r : Result (Nodes × A)) → Spares w (with_nodes w r).0
with_nodes-Spares w (ok (nodes, _)) =
    quiet-Spares w (record w { handles = nodes }) refl (SameBodies-refl w.heap) refl refl refl
with_nodes-Spares w (throw e) = Spares-refl w

remove_handle-Spares : (n : ℕ) (w : World) → Spares w (remove_handle n w).0
unfolding remove_handle
remove_handle-Spares n w = with_nodes-Spares w (remove w.handles ((n - 1) / 64) ((n - 1) % 64))

mark_garbage-Spares : (n : ℕ) (w : World) → Spares w (change_handle n mark_garbage w)
mark_garbage-Spares n w = change_handle-Spares n mark_garbage w (λ h. rw mark_garbage_lem)

pub IsDoomed-Spares : (n : ℕ) {w w' : World} → Spares w w' → IsDoomed w n → IsDoomed w' n
IsDoomed-Spares n {w} {w'} s d =
    let b = s.bodies.same n in
    let at : (w'.heap n).address ≡ (w.heap n).address = ap (λ (x : Body). x.address) b in
    record {
      rootless = ap (λ (x : Body). x.roots) b ∙ d.rootless;
      own = rw at (ground (arith, d.own, s.forgets (w.heap n).address));
    }

is_on_page-Spares :
    (p n : ℕ) {w w' : World}
    → Spares w w'
    → is_on_page (w.page p) (w.heap n) ≡ is_on_page (w'.page p) (w'.heap n)
is_on_page-Spares p n s = ground (arith, s.bodies.same n, s.begins p)

check_passed : (b : Bool) (w : World) (a : Unit {0}) → (check b w).1 ≡ done a → b ≡ true
check_passed true w a e = refl
check_passed false w a e = cc

module _ (env : Env) (calm : OthersSpare env.others) where
  -- The last part of `DestroyObject`
  removal-Spares :
      (p n : ℕ) (w : World)
      → is_on_page (w.page p) (w.heap n) ≡ true
      → w.lookup (w.heap n).address ≡ 0
      → Spares w ((modify (remove_from_page p n) >> remove_handle n) w).0
  removal-Spares p n w inside gone =
      then-Spares (modify (remove_from_page p n)) (remove_handle n) w
        (remove_from_page-Spares p n w inside gone) (λ v s. remove_handle-Spares n v)

  -- From the assertions on
  destruction-Spares :
      (p n : ℕ) (w : World)
      → IsDoomed w n
      → Spares w
          ((on_world (λ v. check (is_on_page (v.page p) (v.heap n)))
              >> (call_destructor_for_object env n
                  >> (modify (remove_from_page p n) >> remove_handle n)))
            w).0
  destruction-Spares p n w doomed =
      bind-Spares (on_world (λ v. check (is_on_page (v.page p) (v.heap n))))
        (λ _.
          call_destructor_for_object env n >> (modify (remove_from_page p n) >> remove_handle n))
        w (Spares-refl w)
        λ x e.
          let inside = check_passed (is_on_page (w.page p) (w.heap n)) w x e in
          let called = call_destructor_for_object-Spares env calm n w doomed in
          let v = (call_destructor_for_object env n w).0 in
          bind-Spares (call_destructor_for_object env n)
            (λ _. modify (remove_from_page p n) >> remove_handle n) w called
            (λ y f.
              removal-Spares p n v
                (subst (λ (b : Bool). b ≡ true) (is_on_page-Spares p n called) inside)
                (subst (λ a. v.lookup a ≡ 0)
                  (ap (λ (b : Body). b.address) (sym (called.bodies.same n)))
                  (call_destructor_for_object-forgets env calm n w)))

  pub destroy_object-Spares :
      (p n : ℕ) (w : World) → IsDoomed w n → Spares w (destroy_object env p n w).0
  unfolding destroy_object
  destroy_object-Spares p n w doomed =
      let marked = mark_garbage-Spares n w in
      bind-Spares (modify (change_handle n mark_garbage))
        (λ _.
          on_world (λ v. check (is_on_page (v.page p) (v.heap n)))
          >> (call_destructor_for_object env n
              >> (modify (remove_from_page p n) >> remove_handle n)))
        w marked
        λ x e.
          destruction-Spares p n (change_handle n mark_garbage w) (IsDoomed-Spares n marked doomed)

  pub destroy_large_object-Spares :
      (n : ℕ) (w : World) → IsDoomed w n → Spares w (destroy_large_object env n w).0
  unfolding destroy_large_object
  destroy_large_object-Spares n w doomed =
      let marked = mark_garbage-Spares n w in
      bind-Spares (modify (change_handle n mark_garbage))
        (λ _. call_destructor_for_object env n >> (modify (free_large n) >> remove_handle n)) w
        marked
        λ x e.
          then-Spares (call_destructor_for_object env n) (modify (free_large n) >> remove_handle n)
            (change_handle n mark_garbage w)
            (call_destructor_for_object-Spares env calm n (change_handle n mark_garbage w)
              (IsDoomed-Spares n marked doomed))
            λ v s.
              then-Spares (modify (free_large n)) (remove_handle n) v
                (quiet-Spares v (free_large n v) refl (SameBodies-refl v.heap) refl refl refl)
                (λ u r. remove_handle-Spares n u)
