-- ===== src/Destruction/SelfReference.antt =====
-- An object with a field that points to itself: the loop that waits for the field's object waits for
-- the lock that the thread holds itself.
use gca.Base.{
  ℕ, ◌+◌, ◌≡◌, ◌≢◌, refl, ap, ◌∙◌, Bool, true, false, ◌&&◌, some, List, [], ◌∷◌, ◌==◌, All, arith,
}
use gca.RwLock.{RwLock, write_word, try_acquire_write, acquire_write, release}
use gca.Handle.{Handle}
use gca.Handle.Laws.{on_handle-keeps}
use gca.Page.{u64}
use gca.Roles.{Answer, done, waits}
use gca.World.{World, M, resume, ◌>>◌, on_world, check, change_handle}
use gca.Destruction.{Env, with_lock, unlock, lock_for_write, lock_field, drop_reference, drop_field}

-- Other threads leave the world alone.
abbrev pub AllIdle : List (World → World) → Type 0
AllIdle others = All (λ other. (w : World) → other w ≡ w) others

abbrev locked : ℕ → ℕ → World → World
locked t n w = change_handle n (with_lock (try_acquire_write t (w.heap n).object_lock).0) w

lock_for_write-free :
    (t n : ℕ) (w : World)
    → (w.heap n).object_lock.word ≡ 0
    → lock_for_write t n w ≡ (locked t n w, done tt)
unfolding lock_for_write acquire_write try_acquire_write
lock_for_write-free t n w h =
    let won : acquire_write t [] (w.heap n).object_lock
        ≡ some (try_acquire_write t (w.heap n).object_lock).0 =
      ground (arith, h) in
    rw (won, lock_for_write) refl

check-passes : (b : Bool) (w : World) → b ≡ true → check b w ≡ (w, done tt)
check-passes b w e = rw e refl

-- One round of the loop: the lock is taken again, nothing has moved, and the rest follows.
round :
    (t n begin end : ℕ) (rest : M (Unit {0})) (w : World)
    → (w.heap n).object_lock.word ≡ 0
    → (w.heap n).address ≡ begin
    → u64 (begin + (w.heap n).size) ≡ end
    → ((lock_for_write t n
            >> on_world (λ v.
              check (((v.heap n).address == begin) && (u64 (begin + (v.heap n).size) == end))))
          >> rest)
        w
      ≡ rest (locked t n w)
round t n begin end rest w h at to =
    let test : World → M (Unit {0}) =
      λ v. check (((v.heap n).address == begin) && (u64 (begin + (v.heap n).size) == end)) in
    ap
      (λ (r : World × Answer (Unit {0})).
        resume (λ _. rest) (resume (λ _. on_world test) r.0 r.1).0
          (resume (λ _. on_world test) r.0 r.1).1)
      (lock_for_write-free t n w h)
    ∙ ap (λ (r : World × Answer (Unit {0})). resume (λ _. rest) r.0 r.1)
        (check-passes _ (locked t n w) (ground (arith, at, to)))

unlocked_word :
    (t n : ℕ) (w : World)
    → (w.heap n).object_lock.word ≡ write_word
    → ((unlock t n w).heap n).object_lock.word ≡ 0
unfolding unlock release
unlocked_word t n w h = ground (arith, h)

held_fails : (t : ℕ) (l : RwLock) → l.word ≡ write_word → (try_acquire_write t l).1 ≡ false
unfolding try_acquire_write
held_fails t l h = ground (arith, h)

locked_word :
    (t n : ℕ) (w : World)
    → (w.heap n).object_lock.word ≡ 0
    → ((locked t n w).heap n).object_lock.word ≡ write_word
unfolding try_acquire_write
locked_word t n w h = ground (arith, h)

-- Where an object lies is no matter of its lock.
span_locked :
    (w : World) (n : ℕ) (f : Handle → Handle)
    → ((h : Handle) → (f h).address ≡ h.address)
    → ((h : Handle) → (f h).size ≡ h.size)
    → (begin end : ℕ) → (w.heap n).address ≡ begin
    → u64 (begin + (w.heap n).size) ≡ end
    → ((change_handle n f w).heap n).address ≡ begin
      × (u64 (begin + ((change_handle n f w).heap n).size) ≡ end)
span_locked w n f address size begin end at to = (
  on_handle-keeps (λ h. h.address) f w.heap n n address ∙ at,
  ap (λ s. u64 (begin + s)) (on_handle-keeps (λ h. h.size) f w.heap n n size) ∙ to,
)

lock_field-waits :
    (t : ℕ) (others : List (World → World)) (n begin end : ℕ) (w : World)
    → AllIdle others
    → (w.heap n).object_lock.word ≡ write_word
    → (w.heap n).address ≡ begin
    → u64 (begin + (w.heap n).size) ≡ end
    → (lock_field t others n n begin end w).1 ≡ waits
unfolding lock_field unlock
lock_field-waits t [] n begin end w idle h at to =
    let held = held_fails t (w.heap n).object_lock h in rw (held, lock_field) refl
lock_field-waits t (other ∷ others) n begin end w idle h at to =
    let u = unlock t n w in
    let free = unlocked_word t n w h in
    let same : other u ≡ u = idle.0 u in
    let held = held_fails t (w.heap n).object_lock h in
    let v = locked t n u in
    let lies =
      span_locked w n (λ h. with_lock (release t h.object_lock) h) (λ h. refl) (λ h. refl) begin end
        at to in
    let lies' =
      span_locked u n (with_lock (try_acquire_write t (u.heap n).object_lock).0) (λ h. refl)
        (λ h. refl) begin end lies.0 lies.1 in
    let turn = round t n begin end (lock_field t others n n begin end) u free lies.0 lies.1 in
    rw (held, same, turn)
      (lock_field-waits t others n begin end v idle.1 (locked_word t n u free) lies'.0 lies'.1)

drop_reference-waits :
    (env : Env) (n begin end field f : ℕ) (w : World)
    → (lock_field env.thread env.others n f begin end w).1 ≡ waits
    → (drop_reference env n begin end field f w).1 ≡ waits
unfolding drop_reference
drop_reference-waits env n begin end field f w h = rw (h, drop_reference) refl

-- A field of an object that points to the object itself: where the thread holds the object's lock
-- for writing, as it does while it destroys the object, and other threads leave the world alone,
-- the step that clears the field does not return, however often the thread yields to the others. The
-- step is taken for the fields that the type's function for fields gives, and for no others.
pub drop_field-waits :
    (env : Env) (n field : ℕ) (w : World)
    → AllIdle env.others
    → field ≢ 0
    → n ≢ 0
    → w.field field ≡ n
    → (w.heap n).object_lock.word ≡ write_word
    → (drop_field env n (w.heap n).address (u64 ((w.heap n).address + (w.heap n).size)) field w).1
      ≡ waits
unfolding drop_field
drop_field-waits env n field w idle some_field some_object self held =
    let begin = (w.heap n).address in
    let end = u64 (begin + (w.heap n).size) in
    let stuck = lock_field-waits env.thread env.others n begin end w idle held refl refl in
    let at_field : (field == 0) ≡ false = ground (arith, some_field) in
    let at_object : (w.field field == 0) ≡ false = ground (arith, some_object, self) in
    rw (at_field, at_object, self, drop_field)
      (drop_reference-waits env n begin end field n w stuck)
