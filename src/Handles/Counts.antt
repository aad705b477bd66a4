-- ===== src/Handles/Counts.antt =====
-- What the operations of handles do to the root count of one object and to the variables.
use gca.Base.{
  ℕ, ◌+◌, ◌^◌, ◌<◌, ◌≤◌, ◌≡◌, refl, Option, none, some, ◌==◌, if◌then◌else◌, inl, inr, Bool-cases,
  arith,
}
use gca.Base.Family.{update}
use gca.Handle.{Handle}
use gca.Roles.{Role, Answer, done, raises, waits, copy, destroy}
use gca.Roles.Counts.{Rooted, Old, Counts, one_more, one_less, copy-Counts, destroy-Counts}
use gca.World.{World, change_handle}
use gca.World.Lands.{Lands, done-Lands, bind-Lands, if-Lands}
use gca.Handles.{
  Call, after_copy, after_destroy, copy_handle, destroy_handle, destroy_unless_null, construct_from,
  write,
}

-- One where the pointer is to the object `n`
abbrev pub bit : (n handle : ℕ) → ℕ
bit n handle = if n == handle then 1 else 0

abbrev pub roots : World → ℕ → ℕ
roots w n = (w.heap n).root_handle_count

-- After a copy, and after the destruction, of a handle: variables are as they were, and the object
-- `n` has one root more, or one less, where the handle is to it.
abbrev pub Gains : (n handle : ℕ) → World → World → ℕ → Type 0
Gains n handle w w' m =
    (m ≡ handle) × (w'.field ≡ w.field) × (roots w' n ≡ roots w n + bit n handle)

abbrev pub Loses : (n handle : ℕ) → World → World → Unit {0} → Type 0
Loses n handle w w' u = (w'.field ≡ w.field) × (roots w' n + bit n handle ≡ roots w n)

module _ (n : ℕ) (pos : 0 < n) where
  after_copy-Lands :
      (w : World) (handle : ℕ) (a : Answer (Option Handle))
      → 0 < handle
      → roots w n + 1 < 2 ^ 64
      → Counts (one_more (w.heap handle)) a
      → Lands (Gains n handle w) (after_copy w handle a)
  after_copy-Lands w handle (done none) p b e = absurd e
  after_copy-Lands w handle (done (some h)) p b e =
      done-Lands (Gains n handle w) (change_handle handle (λ _. h) w) handle
        (refl, refl, ground (arith, b, e))
  after_copy-Lands w handle (raises e) p b q = λ m x. cc
  after_copy-Lands w handle waits p b q = λ m x. cc

  pub copy_handle-Lands :
      (c : Call) (handle : ℕ) {src dst : Role} (w : World)
      → Old src
      → Rooted dst
      → roots w n + 1 < 2 ^ 64
      → Lands (Gains n handle w) (copy_handle c handle src dst w)
  unfolding copy_handle copy
  copy_handle-Lands c handle {src} {dst} w s d b = elim (Bool-cases (handle == 0)) [
    | inl e ↦ rw e (done-Lands (Gains n handle w) w handle (refl, refl, ground (arith, pos, e)))
    | inr e ↦ rw e (
        after_copy-Lands w handle _ (ground (arith, e)) b
          (copy-Counts c.thread c.at_copy (w.heap handle) s d))
  ]

  after_destroy-Lands :
      (w : World) (handle : ℕ) (a : Answer (Option Handle))
      → 0 < handle
      → bit n handle ≤ roots w n
      → roots w n < 2 ^ 64
      → Counts (one_less (w.heap handle)) a
      → Lands (Loses n handle w) (after_destroy w handle a)
  after_destroy-Lands w handle (done none) p held b e = absurd e
  after_destroy-Lands w handle (done (some h)) p held b e =
      done-Lands (Loses n handle w) (change_handle handle (λ _. h) w) tt
        (refl, ground (arith, held, b, e))
  after_destroy-Lands w handle (raises e) p held b q = λ m x. cc
  after_destroy-Lands w handle waits p held b q = λ m x. cc

  pub destroy_handle-Lands :
      (c : Call) (handle : ℕ) {role : Role} (w : World)
      → Rooted role
      → bit n handle ≤ roots w n
      → roots w n < 2 ^ 64
      → Lands (Loses n handle w) (destroy_handle c handle role w)
  unfolding destroy_handle destroy
  destroy_handle-Lands c handle {role} w r held b = elim (Bool-cases (handle == 0)) [
    | inl e ↦ rw e (done-Lands (Loses n handle w) w tt (refl, ground (arith, pos, e)))
    | inr e ↦ rw e (
        after_destroy-Lands w handle _ (ground (arith, e)) held b
          (destroy-Counts c.thread c.at_destroy (w.heap handle) r))
  ]

  pub destroy_unless_null-Lands :
      (c : Call) (handle : ℕ) {role : Role} (w : World)
      → Rooted role
      → bit n handle ≤ roots w n
      → roots w n < 2 ^ 64
      → Lands (Loses n handle w) (destroy_unless_null c handle role w)
  unfolding destroy_unless_null
  destroy_unless_null-Lands c handle {role} w r held b =
      if-Lands (Loses n handle w) (handle == 0) (w, done tt) (destroy_handle c handle role w)
        (λ e. done-Lands (Loses n handle w) w tt (refl, ground (arith, pos, e)))
        (λ e. destroy_handle-Lands c handle w r held b)

  pub construct_from-Lands :
      (c : Call) (this other : ℕ) {src dst : Role} (w : World)
      → Old src
      → Rooted dst
      → roots w n + 1 < 2 ^ 64
      → Lands
          (λ w' u.
            (w'.field ≡ update w.field this (w.field other))
            × (roots w' n ≡ roots w n + bit n (w.field other)))
          (construct_from c this other src dst w)
  unfolding construct_from
  construct_from-Lands c this other {src} {dst} w s d b =
      let P : World → Unit {0} → Type 0 = λ w' u.
        (w'.field ≡ update w.field this (w.field other))
        × (roots w' n ≡ roots w n + bit n (w.field other)) in
      bind-Lands (Gains n (w.field other) w) P (copy_handle c (w.field other) src dst) (write this)
        w (copy_handle-Lands c (w.field other) w s d b)
        (λ m v g.
          done-Lands P (record v { field = update v.field this m }) tt
            ((λ i. update (g.1 i) this (g.0 i)), g.2))
