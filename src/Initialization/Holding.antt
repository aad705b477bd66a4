-- ===== src/Initialization/Holding.antt =====
-- What becomes of a new object whose constructor returns.
use gca.Base.{ℕ, ◌<◌, ◌≡◌, ◌≢◌, refl, ap, ◌∙◌, Bool, true, []}
use gca.Handle.{Handle}
use gca.Roles.{done, try_acquire_initialize_right}
use gca.World.{World, M, change_handle}
use gca.Handles.{Call}
use gca.Initialization.{initialize, with_right, acquire_right, hold_and_initialize}
use gca.Initialization.Steps.{
  IsAlone, pinned, with_flags, IsNew, Holds, LeavesAlone, heap-change, adopted, with_pin_made,
  pin-Holds, with_pin-ends, hold-ends,
}

module _ (c : Call) (this pin n : ℕ) (h : Handle) (pos : 0 < n) (apart : this ≢ pin)
    (alone : IsAlone c) where
  module _ (construct : ℕ → M (Unit {0}))
      (returns : (address : ℕ) (w : World) → (construct address w).1 ≡ done tt)
      (leaves : (address : ℕ) → LeavesAlone n this pin (construct address))
      (right : (try_acquire_initialize_right h).1 ≡ true) where
    initialized-step :
        (w : World)
        → Holds n this pin (pinned c h) w
        → (w' : World) × (initialize n construct w ≡ (w', done true))
          × Holds n this pin (pinned c (with_flags h (try_acquire_initialize_right h).0.flags)) w'
    unfolding initialize with_right acquire_right try_acquire_initialize_right
    initialized-step w at_pin =
        let w0 : World = change_handle n (λ _. (try_acquire_initialize_right (w.heap n)).0) w in
        let address = (w0.heap n).address in
        let right' : (try_acquire_initialize_right (w.heap n)).1 ≡ true =
          ap (λ (k : Handle). (try_acquire_initialize_right k).1) at_pin.0 ∙ right in
        (
          (construct address w0).0,
          rw (right', returns address w0) refl,
          (
            (leaves address w0).0
                ∙ heap-change n (λ _. (try_acquire_initialize_right (w.heap n)).0) w
                ∙ ap (λ (k : Handle). (try_acquire_initialize_right k).0) at_pin.0,
            (leaves address w0).1 ∙ at_pin.1,
            (leaves address w0).2 ∙ at_pin.2,
          ),
        )

-- A new object is held by a root handle and initialised by a constructor that returns, and that
-- leaves the object's header and the handles to it alone; nobody else is at work. Then this ends
-- with the handle pointing to the object, whose header is as before but for the flag that the
-- right to initialise has cleared: one root, and a free lock.
pub hold_and_initialize-returns :
    (c : Call) (this pin n : ℕ) (construct : ℕ → M (Unit {0})) (w : World)
    → 0 < n
    → this ≢ pin
    → c.at_copy ≡ []
    → c.at_destroy ≡ []
    → IsNew (w.heap n)
    → (try_acquire_initialize_right (w.heap n)).1 ≡ true
    → ((address : ℕ) (v : World) → (construct address v).1 ≡ done tt)
    → ((address : ℕ) → LeavesAlone n this pin (construct address))
    → (w' : World) × (hold_and_initialize c this pin n (λ m. initialize m construct) w
        ≡ (w', done tt))
      × (w'.field this ≡ n)
      × (w'.heap n
          ≡ record (w.heap n) { flags = (try_acquire_initialize_right (w.heap n)).0.flags })
hold_and_initialize-returns c this pin n construct w pos apart quiet quiet' q right returns leaves =
    let h = w.heap n in
    let alone : IsAlone c = (quiet, quiet') in
    let v = (try_acquire_initialize_right h).0.flags in
    let body : ℕ → M Bool = λ m. initialize m construct in
    let (w3, ran, at_pin) =
      initialized-step c this pin n h pos apart alone construct returns leaves right
        (with_pin_made c this pin n h pos apart alone (adopted c this pin n h pos apart alone w))
        (pin-Holds c this pin n h pos apart alone w) in
    (
      change_handle n (λ _. with_flags h v) w3,
      hold-ends c this pin n pos apart alone body (done true) w
          (change_handle n (λ _. with_flags h v) w3) q
          (with_pin-ends c this pin n h pos apart alone body (done true) v w w3 refl q tt ran
            at_pin),
      at_pin.1,
      heap-change n (λ _. with_flags h v) w3,
    )
