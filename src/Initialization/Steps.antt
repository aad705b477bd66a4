-- ===== src/Initialization/Steps.antt =====
-- The steps by which a new object is held by a root handle, pinned for its initialisation, and
-- given free again.
use gca.Base.{
  ℕ, ◌<◌, ◌≡◌, ◌≢◌, refl, ap, ◌∙◌, Bool, true, false, some, [], ◌==◌, ==_refl, inl, arith,
}
use gca.Base.Family.{update}
use gca.RwLock.{try_acquire_write}
use gca.Handle.{Handle}
use gca.Roles.{
  Role, internal_initialization, root, rw_pin, Answer, done, raises, waits, add_root, with_lock,
  is_nil, copy, copy_from, copy_new, copy_unpinned, destroy, to_pointer, destroy_root,
}
use gca.Roles.Laws.{write_acquired, released_write, destroy_root-add_root}
use gca.World.{World, M, resume, pure, ◌>>=◌, fail, change_handle}
use gca.Handles.{
  Call, read, write, copy_handle, destroy_handle, destroy_unless_null, construct_from,
}
use gca.Handles.RootHandle
use gca.Handles.Pin
use gca.Initialization.{hold_and_initialize, with_pin, left_scope, unwound}

-- Nobody else is at work.
abbrev pub IsAlone : Call → Type 0
IsAlone c = (c.at_copy ≡ []) × (c.at_destroy ≡ [])

-- The header with a pin for writing, and with other flags
abbrev pub pinned : Call → Handle → Handle
pinned c h = add_root (with_lock h (try_acquire_write c.thread h.object_lock).0)

abbrev pub with_flags : Handle → ℕ → Handle
with_flags h v = record h { flags = v }

-- A new object: one root, nothing that refers to it, and a free lock
abbrev pub IsNew : Handle → Type 0
IsNew h =
    (h.root_handle_count ≡ 1)
    × (is_nil h.referenced_by ≡ true)
    × (h.object_lock.word ≡ 0)
    × ((t : ℕ) → h.object_lock.owner t ≡ false)

copy_new-header :
    (c : Call) (h : Handle)
    → IsNew h
    → copy c.thread c.at_copy (some h) internal_initialization root ≡ done (some h)
unfolding copy copy_from copy_new
copy_new-header c h q = rw q.0 refl

copy_pin-header :
    (c : Call) (h : Handle)
    → IsAlone c
    → IsNew h
    → copy c.thread c.at_copy (some h) root rw_pin ≡ done (some (pinned c h))
unfolding copy copy_from copy_unpinned
copy_pin-header c h alone q = rw (alone.0, write_acquired c.thread h.object_lock q.2) refl

pub destroy_pin-header :
    (c : Call) (h : Handle)
    → IsAlone c
    → IsNew h
    → destroy c.thread c.at_destroy (some (pinned c h)) rw_pin ≡ done (some h)
unfolding destroy
destroy_pin-header c h alone q = rw alone.1 (
    ap (λ l. to_pointer (destroy_root c.thread [] (add_root (with_lock h l))))
      (released_write c.thread h.object_lock q.2 (q.3 c.thread))
    ∙ ap to_pointer (
        destroy_root-add_root c.thread h (omega (arith, q.0)) (omega (arith, q.2)) (q.3 c.thread)
          (inl (omega (arith, q.0)))))

pub heap-change :
    (n : ℕ) (f : Handle → Handle) (w : World) → (change_handle n f w).heap n ≡ f (w.heap n)
heap-change n f w = rw (==_refl n) refl

copy_handle-step :
    (c : Call) (n : ℕ) (src dst : Role) (w : World) (h h' : Handle)
    → 0 < n
    → w.heap n ≡ h
    → copy c.thread c.at_copy (some h) src dst ≡ done (some h')
    → copy_handle c n src dst w ≡ (change_handle n (λ _. h') w, done n)
unfolding copy_handle
copy_handle-step c n src dst w h h' pos here e =
    let apart : (n == 0) ≡ false = ground arith in
    let known = ap (λ k. copy c.thread c.at_copy (some k) src dst) here ∙ e in
    rw (apart, known) refl

pub destroy-step :
    (c : Call) (n : ℕ) (role : Role) (w : World) (h h' : Handle)
    → 0 < n
    → w.heap n ≡ h
    → destroy c.thread c.at_destroy (some h) role ≡ done (some h')
    → destroy_unless_null c n role w ≡ (change_handle n (λ _. h') w, done tt)
unfolding destroy_unless_null destroy_handle
destroy-step c n role w h h' pos here e =
    let apart : (n == 0) ≡ false = ground arith in
    let known = ap (λ k. destroy c.thread c.at_destroy (some k) role) here ∙ e in
    rw (apart, known) refl

-- Users' code leaves the new object's header and the handles to it alone.
abbrev pub LeavesAlone : (n this pin : ℕ) → M (Unit {0}) → Type 0
LeavesAlone n this pin body =
    (w : World)
    → ((body w).0.heap n ≡ w.heap n)
      × ((body w).0.field this ≡ w.field this)
      × ((body w).0.field pin ≡ w.field pin)

-- The state where the new object has the header, and both variables point to it.
abbrev pub Holds : (n this pin : ℕ) → Handle → World → Type 0
Holds n this pin h w = (w.heap n ≡ h) × (w.field this ≡ n) × (w.field pin ≡ n)

module _ (c : Call) (this pin n : ℕ) (h : Handle) (pos : 0 < n) (apart : this ≢ pin)
    (alone : IsAlone c) where
  unfoldable pub adopted : World → World
  adopted w = record (change_handle n (λ _. h) w) { field = update w.field this n }

  pub adopt-step :
      (w : World) → w.heap n ≡ h → IsNew h → RootHandle.adopt c this n w ≡ (adopted w, done tt)
  unfolding RootHandle.adopt adopted
  adopt-step w here q =
      ap (λ (r : World × Answer ℕ). resume (write this) r.0 r.1)
        (copy_handle-step c n internal_initialization root w h h pos here (copy_new-header c h q))

  unfoldable pub with_pin_made : World → World
  with_pin_made w = record (change_handle n (λ _. pinned c h) w) { field = update w.field pin n }

  pub pin-step :
      (w : World)
      → w.heap n ≡ h
      → w.field this ≡ n
      → IsNew h
      → Pin.of_root c pin this rw_pin w ≡ (with_pin_made w, done tt)
  unfolding Pin.of_root construct_from with_pin_made
  pin-step w here at_this q = rw at_this (
      ap (λ (r : World × Answer ℕ). resume (write pin) r.0 r.1)
        (copy_handle-step c n root rw_pin w h (pinned c h) pos here (copy_pin-header c h alone q)))

  pub pin-Holds : (w : World) → Holds n this pin (pinned c h) (with_pin_made (adopted w))
  unfolding with_pin_made adopted
  pin-Holds w = (rw (==_refl n) refl, ground (arith, apart), ground arith)

abbrev pub IsOver : Answer Bool → Type 0
IsOver (done b) = Unit
IsOver (raises e) = Unit
IsOver waits = ⊥

left_scope-ends :
    (destruct : M (Unit {0})) (w w' : World) (r : Answer Bool)
    → IsOver r
    → destruct w ≡ (w', done tt)
    → left_scope destruct w r ≡ (w', r)
left_scope-ends destruct w w' (done b) over e =
    ap (λ (r : World × Answer (Unit {0})). resume (λ u. pure b) r.0 r.1) e
left_scope-ends destruct w w' (raises x) over e =
    ap (λ (r : World × Answer (Unit {0})). resume (λ u. fail x) r.0 r.1) e
left_scope-ends destruct w w' waits over e = absurd over

-- The pin goes with whatever answer the initialisation gave.
pub with_pin-ends :
    (c : Call) (this pin n : ℕ) (h : Handle) (pos : 0 < n) (apart : this ≢ pin) (alone : IsAlone c)
    (body : ℕ → M Bool) (r : Answer Bool) (v : ℕ) (w w3 : World)
    → w.heap n ≡ h
    → IsNew h
    → IsOver r
    → body n
        (with_pin_made c this pin n h pos apart alone (adopted c this pin n h pos apart alone w))
      ≡ (w3, r)
    → Holds n this pin (pinned c (with_flags h v)) w3
    → with_pin c this pin body (adopted c this pin n h pos apart alone w)
      ≡ (change_handle n (λ _. with_flags h v) w3, r)
unfolding with_pin Pin.destruct adopted
with_pin-ends c this pin n h pos apart alone body r v w w3 here q over ran at_pin =
    let w1 : World = adopted c this pin n h pos apart alone w in
    let made =
      pin-step c this pin n h pos apart alone w1 (heap-change n (λ _. h) w) (ground arith) q in
    let ran' : ((read pin >>= body) (with_pin_made c this pin n h pos apart alone w1)) ≡ (w3, r) =
      rw ((pin-Holds c this pin n h pos apart alone w).2) ran in
    let ended : Pin.destruct c pin rw_pin w3 ≡ (change_handle n (λ _. with_flags h v) w3, done tt) =
      rw at_pin.2 (
        destroy-step c n rw_pin w3 (pinned c (with_flags h v)) (with_flags h v) pos at_pin.0
          (destroy_pin-header c (with_flags h v) alone q)) in
    ap
      (λ (x : World × Answer (Unit {0})).
        resume
          (λ u. λ y.
            left_scope (Pin.destruct c pin rw_pin) ((read pin >>= body) y).0
              ((read pin >>= body) y).1)
          x.0 x.1)
      made
    ∙ ap (λ (x : World × Answer Bool). left_scope (Pin.destruct c pin rw_pin) x.0 x.1) ran'
    ∙ left_scope-ends (Pin.destruct c pin rw_pin) w3 (change_handle n (λ _. with_flags h v) w3) r
        over ended

-- A new object that a root handle holds, once the initialisation under the pin is over
pub hold-ends :
    (c : Call) (this pin n : ℕ) (pos : 0 < n) (apart : this ≢ pin) (alone : IsAlone c)
    (body : ℕ → M Bool) (r : Answer Bool) (w w4 : World)
    → IsNew (w.heap n)
    → with_pin c this pin body (adopted c this pin n (w.heap n) pos apart alone w) ≡ (w4, r)
    → hold_and_initialize c this pin n body w
      ≡ unwound
          (RootHandle.destruct c this)
          (resume (λ _. pure tt) w4 r).0
          (resume (λ _. pure tt) w4 r).1
unfolding hold_and_initialize
hold-ends c this pin n pos apart alone body r w w4 q ran =
    ap
      (λ (x : World × Answer (Unit {0})).
        resume
          (λ u. λ y.
            unwound (RootHandle.destruct c this) ((with_pin c this pin body >>= λ _. pure tt) y).0
              ((with_pin c this pin body >>= λ _. pure tt) y).1)
          x.0 x.1)
      (adopt-step c this pin n (w.heap n) pos apart alone w refl q)
    ∙ ap
        (λ (x : World × Answer Bool).
          unwound (RootHandle.destruct c this) (resume (λ _. pure tt) x.0 x.1).0
            (resume (λ _. pure tt) x.0 x.1).1)
        ran
