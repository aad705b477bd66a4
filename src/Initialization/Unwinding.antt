-- ===== src/Initialization/Unwinding.antt =====
-- What becomes of a new object whose constructor throws.
use gca.Base.{ℕ, ◌<◌, ◌≡◌, ◌≢◌, refl, ap, ◌∙◌, Bool, true, some, []}
use gca.Base.Result.{Error}
use gca.Handle.{Handle, is_marked_garbage}
use gca.Roles.{
  root, Answer, done, raises, try_acquire_initialize_right, set_initialization_failed, destroy,
}
use gca.World.{World, M, resume, fail, change_handle}
use gca.Handles.{Call}
use gca.Handles.RootHandle
use gca.Handles.Moves.{dropped, destroy-dropped, dropped-flagged}
use gca.Initialization.{initialize, with_right, acquire_right, hold_and_initialize}
use gca.Initialization.Steps.{
  IsAlone, pinned, with_flags, IsNew, Holds, LeavesAlone, heap-change, destroy-step, adopted,
  with_pin_made, pin-Holds, with_pin-ends, hold-ends,
}

module _ (c : Call) (this pin n : ℕ) (h : Handle) (pos : 0 < n) (apart : this ≢ pin)
    (alone : IsAlone c) where
  module _ (construct : ℕ → M (Unit {0})) (e : Error)
      (throws : (address : ℕ) (w : World) → (construct address w).1 ≡ raises e)
      (leaves : (address : ℕ) → LeavesAlone n this pin (construct address))
      (right : (try_acquire_initialize_right h).1 ≡ true) where
    initialize-step :
        (w : World)
        → Holds n this pin (pinned c h) w
        → (w' : World) × (v : ℕ) × (initialize n construct w ≡ (w', raises e))
          × Holds n this pin (pinned c (with_flags h v)) w'
    unfolding initialize with_right acquire_right try_acquire_initialize_right
        set_initialization_failed
    initialize-step w at_pin =
        let cl = (try_acquire_initialize_right h).0.flags in
        let w0 : World = change_handle n (λ _. (try_acquire_initialize_right (w.heap n)).0) w in
        let address = (w0.heap n).address in
        let s : World = (construct address w0).0 in
        let right' : (try_acquire_initialize_right (w.heap n)).1 ≡ true =
          ap (λ (k : Handle). (try_acquire_initialize_right k).1) at_pin.0 ∙ right in
        let here : s.heap n ≡ pinned c (with_flags h cl) =
          (leaves address w0).0
          ∙ heap-change n (λ _. (try_acquire_initialize_right (w.heap n)).0) w
          ∙ ap (λ (k : Handle). (try_acquire_initialize_right k).0) at_pin.0 in
        (
          change_handle n set_initialization_failed s,
          (set_initialization_failed (with_flags h cl)).flags,
          rw (right', throws address w0) refl,
          (
            heap-change n set_initialization_failed s ∙ ap set_initialization_failed here,
            (leaves address w0).1 ∙ at_pin.1,
            (leaves address w0).2 ∙ at_pin.2,
          ),
        )

-- A new object is held by a root handle and initialised by a constructor that throws, and that leaves
-- the object's header and the handles to it alone; nobody else is at work. The exception reaches the
-- caller, no root of the object is left, and it is flagged as garbage.
pub hold_and_initialize-throws :
    (c : Call) (this pin n : ℕ) (construct : ℕ → M (Unit {0})) (e : Error) (w : World)
    → 0 < n
    → this ≢ pin
    → c.at_copy ≡ []
    → c.at_destroy ≡ []
    → IsNew (w.heap n)
    → (try_acquire_initialize_right (w.heap n)).1 ≡ true
    → ((address : ℕ) (v : World) → (construct address v).1 ≡ raises e)
    → ((address : ℕ) → LeavesAlone n this pin (construct address))
    → (w' : World) × (hold_and_initialize c this pin n (λ m. initialize m construct) w
        ≡ (w', raises e))
      × ((w'.heap n).root_handle_count ≡ 0)
      × (is_marked_garbage (w'.heap n) ≡ true)
unfolding RootHandle.destruct
hold_and_initialize-throws c this pin n construct e w pos apart quiet quiet' q right throws leaves =
    let h = w.heap n in
    let alone : IsAlone c = (quiet, quiet') in
    let body : ℕ → M Bool = λ m. initialize m construct in
    let (w3, v, thrown, at_pin) =
      initialize-step c this pin n h pos apart alone construct e throws leaves right
        (with_pin_made c this pin n h pos apart alone (adopted c this pin n h pos apart alone w))
        (pin-Holds c this pin n h pos apart alone w) in
    let w4 : World = change_handle n (λ _. with_flags h v) w3 in
    let last = heap-change n (λ _. dropped (with_flags h v)) w4 in
    let ended : RootHandle.destruct c this w4
        ≡ (change_handle n (λ _. dropped (with_flags h v)) w4, done tt) =
      rw at_pin.1 (
        destroy-step c n root w4 (with_flags h v) (dropped (with_flags h v)) pos
          (heap-change n (λ _. with_flags h v) w3)
          (ap (λ l. destroy c.thread l (some (with_flags h v)) root) quiet'
            ∙ destroy-dropped c.thread (with_flags h v) q.0 q.2 (q.3 c.thread) q.1)) in
    (
      change_handle n (λ _. dropped (with_flags h v)) w4,
      hold-ends c this pin n pos apart alone body (raises e) w w4 q (
            with_pin-ends c this pin n h pos apart alone body (raises e) v w w3 refl q tt thrown
              at_pin)
          ∙ ap (λ (x : World × Answer (Unit {0})). resume (λ u. fail e) x.0 x.1) ended,
      ap (λ (k : Handle). k.root_handle_count) last,
      ap is_marked_garbage last ∙ dropped-flagged (with_flags h v),
    )
