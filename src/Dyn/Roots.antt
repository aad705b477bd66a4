-- ===== src/Dyn/Roots.antt =====
-- Assigning a polymorphic root handle moves one root.
use gca.Base.{
  ℕ, ◌+◌, ◌^◌, ◌<◌, ◌≤◌, ◌≡◌, refl, ap, ◌∙◌, true, none, [], inl, inr, Bool-cases, arith,
}
use gca.Base.Family.{update}
use gca.Roles.{Role, root, done}
use gca.Roles.Counts.{Old, as_root}
use gca.World.{World, M, ◌>>=◌, ◌>>◌}
use gca.World.Lands.{Lands, bind-Lands}
use gca.Tagged.{get, set}
use gca.Tagged.Laws.{pack-get}
use gca.Handles.{Call, write, copy_handle, destroy_handle}
use gca.Handles.Counts.{bit, roots, Gains, copy_handle-Lands, destroy_handle-Lands}
use gca.Handles.Returns.{
  AllQuiet, Arrives, bind-Arrives, copy_handle-Arrives, destroy_handle-Arrives,
}
use gca.Dyn.{convert, equals}
use gca.Dyn.RootHandle

set-same : (word : ℕ) → word < 2 ^ 64 → set word (get word) ≡ word
unfolding set
set-same word b = pack-get word b

equals-get : (word other : ℕ) → equals word other ≡ true → get word ≡ get other
unfolding equals
equals-get word other e = ground (arith, e)

-- `Assign` behind its test, where nothing is cast
abbrev assigned : Call → (this new_value : ℕ) → Role → (value : ℕ) → M (Unit {0})
assigned c this new_value role value =
    write this new_value >> copy_handle c (get new_value) role root >>= λ handle.
    write this (set new_value handle) >> destroy_handle c (get value) root

abbrev with_value : World → (this value : ℕ) → World
with_value w this value = record w { field = update w.field this value }

-- The variable has the new pointer, and one root has moved to its object.
abbrev pub Moved : (this new_value value n : ℕ) → World → World → Unit {0} → Type 0
Moved this new_value value n w w' u =
    (get (w'.field this) ≡ get new_value)
    × (roots w' n + bit n (get value) ≡ roots w n + bit n (get new_value))

module _ (c : Call) (this new_value value : ℕ) {role : Role} (old : Old role) where
  assigned-Arrives :
      (w : World)
      → c.at_destroy ≡ []
      → AllQuiet w
      → Arrives (assigned c this new_value role value w)
  assigned-Arrives w alone all =
      bind-Arrives (write this new_value >> copy_handle c (get new_value) role root)
        (λ handle. write this (set new_value handle) >> destroy_handle c (get value) root) w
        (copy_handle-Arrives c (get new_value) (with_value w this new_value) old all)
        (λ m v q.
          destroy_handle-Arrives c (get value) (with_value v this (set new_value m)) alone q)

  assigned-Lands :
      (w : World) (n : ℕ)
      → new_value < 2 ^ 64
      → 0 < n
      → roots w n + 1 < 2 ^ 64
      → bit n (get value) ≤ roots w n
      → Lands (Moved this new_value value n w) (assigned c this new_value role value w)
  assigned-Lands w n word pos b held =
      bind-Lands (Gains n (get new_value) (with_value w this new_value))
        (Moved this new_value value n w)
        (write this new_value >> copy_handle c (get new_value) role root)
        (λ handle. write this (set new_value handle) >> destroy_handle c (get value) root) w
        (copy_handle-Lands n pos c (get new_value) (with_value w this new_value) old as_root b)
        (λ m v g u q.
          let d =
            destroy_handle-Lands n pos c (get value) (with_value v this (set new_value m)) as_root
              (omega (arith, g.2, held)) (ground (arith, g.2, b)) u q in
          let at_this : update v.field this (set new_value m) this ≡ set new_value m =
            ground arith in
          (
            ap get ((λ i. d.0 i this) ∙ at_this ∙ ap (set new_value) g.0 ∙ set-same new_value word),
            omega (arith, d.1, g.2),
          ))

-- A 64-bit word is assigned to a polymorphic root handle of the same type, in the role of a root, a
-- field or a pin, with no thread writing any object and no interference. The assignment returns,
-- the handle points to the object of the word, and the old and the new object of the handle have
-- one root less and one more, or as many as before where they are the same. What is said of an
-- object holds if it counts the handle where that points to it, and its count has room.
pub assign-moves_root :
    (c : Call) (this new_value : ℕ) (w : World) {role : Role}
    → Old role
    → new_value < 2 ^ 64
    → c.at_destroy ≡ []
    → AllQuiet w
    → (w' : World) × (RootHandle.assign c none this new_value role w ≡ (w', done tt))
      × ((n : ℕ)
          → 0 < n
          → roots w n + 1 < 2 ^ 64
          → bit n (get (w.field this)) ≤ roots w n
          → Moved this new_value (w.field this) n w w' tt)
unfolding RootHandle.assign convert
assign-moves_root c this new_value w {role} old word alone all =
    let value = w.field this in
    elim (Bool-cases (equals new_value value)) [
      | inl e ↦
          let same = equals-get new_value value e in
          (w, rw e refl, λ n pos room held. rw same (refl, refl))
      | inr e ↦
          let (u, end, q) = assigned-Arrives c this new_value value old w alone all in
          let w' : World = (assigned c this new_value role value w).0 in
          (
            w',
            rw e (λ i. (w', end i)),
            λ n pos room held.
                assigned-Lands c this new_value value old w n word pos room held u end,
          )
    ]
