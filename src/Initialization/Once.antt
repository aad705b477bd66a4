-- ===== src/Initialization/Once.antt =====
-- An object is initialised at most once, and a failure is remembered.
use gca.Base.{
  ℕ, ◌<◌, ◌≡◌, refl, sym, ap, ◌∙◌, Bool, true, false, not, ◌&&◌, ◌||◌, ◌==◌, ==_refl, if◌then◌else◌,
  inl, inr, Bool-cases, arith,
}
use gca.Bits
use gca.Bits.{has_flag, set_flag}
use gca.Bits.Masks.{every, every_sound}
use gca.Handle.{flag_or, flags_or}
use gca.Roles.{
  Answer, done, raises, waits, changed, try_acquire_initialize_right, set_initialization_failed,
}
use gca.World.{World, M, pure, resume, recover}
use gca.Initialization.{initialize, with_right, acquire_right, mark_failed}

-- The flags after the right was asked for, and after a failure
cleared : ℕ → ℕ
unfolding set_flag
cleared v = flags_or v (set_flag v Bits.uninitialized false)

failed : ℕ → ℕ
unfolding set_flag
failed v = flags_or v (set_flag v Bits.initialization_failed true)

has_right : ℕ → Bool
unfolding set_flag
has_right v = changed (set_flag v Bits.uninitialized false)

has_failed : ℕ → Bool
unfolding has_flag
has_failed v = flag_or false (has_flag v Bits.initialization_failed)

same : Bool → Bool → Bool
same a b = if a then b else not b

same_sound : (a b : Bool) → same a b ≡ true → a ≡ b
unfolding same
same_sound true true h = refl
same_sound true false h = sym h
same_sound false true h = h
same_sound false false h = refl

-- What holds of the flags of an object, by evaluation
facts : ℕ → Bool
unfolding cleared failed has_right has_failed same
facts v =
    not (has_right (cleared v))
    && (cleared (cleared v) == cleared v)
    && not (has_right (failed (cleared v)))
    && (cleared (failed (cleared v)) == failed (cleared v))
    && has_failed (failed (cleared v))
    && same (has_failed (cleared v)) (has_failed v)

facts_hold : (v : ℕ) → v < 32 → facts v ≡ true
unfolding facts every cleared failed has_right has_failed same set_flag has_flag
facts_hold v b = every_sound 32 facts v refl b

abbrev pub raised : {A : Type 0} → Answer A → Bool
raised (done a) = false
raised (raises e) = true
raised waits = false

-- The flags of an object, and whether its initialisation has failed
abbrev flags_of : World → ℕ → ℕ
flags_of w n = (w.heap n).flags

pub is_failed : World → ℕ → Bool
unfolding has_failed
is_failed w n = has_failed (flags_of w n)

-- Users' code leaves the flags of an object alone.
abbrev pub KeepsFlags : (n : ℕ) → M (Unit {0}) → Type 0
KeepsFlags n body = (w : World) → ((body w).0.heap n).flags ≡ (w.heap n).flags

attempt : (n : ℕ) → World → Answer (Unit {0}) → World × Answer Bool
attempt n u a =
    resume (λ _. pure true) (recover (mark_failed n) u a).0 (recover (mark_failed n) u a).1

attempt-flags :
    (n : ℕ) (u : World) (a : Answer (Unit {0}))
    → flags_of (attempt n u a).0 n
      ≡ (if raised (attempt n u a).1 then failed (flags_of u n) else flags_of u n)
unfolding attempt failed set_initialization_failed
attempt-flags n u (done a) = refl
attempt-flags n u (raises e) = rw (flags_of, ==_refl n) refl
attempt-flags n u waits = refl

started : (n : ℕ) → World → World
unfolding acquire_right
started n w = (acquire_right n w).0

started-flags : (n : ℕ) (w : World) → flags_of (started n w) n ≡ cleared (flags_of w n)
unfolding started acquire_right try_acquire_initialize_right cleared
started-flags n w = rw (flags_of, ==_refl n) refl

with_right-true :
    (n : ℕ) (body : M (Unit {0})) (w : World)
    → has_right (flags_of w n) ≡ true
    → with_right n body w ≡ attempt n (body (started n w)).0 (body (started n w)).1
unfolding with_right started acquire_right try_acquire_initialize_right has_right attempt
with_right-true n body w e = rw e refl

with_right-false :
    (n : ℕ) (body : M (Unit {0})) (w : World)
    → has_right (flags_of w n) ≡ false
    → with_right n body w ≡ (started n w, done false)
unfolding with_right started acquire_right try_acquire_initialize_right has_right
with_right-false n body w e = rw e refl

-- The flags after an attempt, whatever it comes to
with_right-flags :
    (n : ℕ) (body : M (Unit {0})) (w : World)
    → KeepsFlags n body
    → flags_of (with_right n body w).0 n ≡ (
        if raised (with_right n body w).1
        then failed (cleared (flags_of w n))
        else cleared (flags_of w n))
with_right-flags n body w keeps = elim (Bool-cases (has_right (flags_of w n))) [
  | inl e ↦
      let kept : flags_of (body (started n w)).0 n ≡ cleared (flags_of w n) =
        keeps (started n w) ∙ started-flags n w in
      rw
        (
          with_right-true n body w e,
          attempt-flags n (body (started n w)).0 (body (started n w)).1,
          kept,
        )
        refl
  | inr e ↦ rw (with_right-false n body w e) (started-flags n w)
]

or_false : (b : Bool) → b ≡ b || false
or_false true = refl
or_false false = refl

-- What an attempt leaves of flags below 32
settled :
    (v : ℕ) (b : Bool)
    → v < 32
    → (has_right (if b then failed (cleared v) else cleared v) ≡ false)
      × (cleared (if b then failed (cleared v) else cleared v)
          ≡ (if b then failed (cleared v) else cleared v))
      × (has_failed (if b then failed (cleared v) else cleared v) ≡ has_failed v || b)
unfolding facts
settled v true lt =
    let f : facts v ≡ true = facts_hold v lt in
    (ground (arith, f), ground (arith, f), ground (arith, f))
settled v false lt =
    let f : facts v ≡ true = facts_hold v lt in
    let e : has_failed (cleared v) ≡ has_failed v = same_sound _ _ (ground (arith, f)) in
    (ground (arith, f), ground (arith, f), e ∙ or_false (has_failed v))

again :
    (n : ℕ) (body : M (Unit {0})) (w : World)
    → has_right (flags_of w n) ≡ false
    → cleared (flags_of w n) ≡ flags_of w n
    → ((with_right n body w).1 ≡ done false) × ((m : ℕ) → (with_right n body w).0.heap m ≡ w.heap m)
unfolding started acquire_right try_acquire_initialize_right cleared
again n body w e c = rw (with_right-false n body w e) (
  refl,
  λ m. elim (Bool-cases (n == m)) [
    | inl q ↦
        let here : n ≡ m = ground (arith, q) in
        rw q (ap (λ v. record (w.heap n) { flags = v }) c ∙ ap w.heap here)
    | inr q ↦ rw q refl
  ],
)

-- Whatever an attempt to initialise an object comes to, with flags below 32 and a constructor that
-- leaves them alone: any later attempt answers false and changes no header, and the object is then
-- marked as failed exactly if it was before or this attempt threw.
pub initialize-once :
    (n : ℕ) (construct other : ℕ → M (Unit {0})) (w : World)
    → (w.heap n).flags < 32
    → ((address : ℕ) → KeepsFlags n (construct address))
    → ((initialize n other (initialize n construct w).0).1 ≡ done false)
      × ((m : ℕ)
          → (initialize n other (initialize n construct w).0).0.heap m
            ≡ (initialize n construct w).0.heap m)
      × (is_failed (initialize n construct w).0 n
          ≡ is_failed w n || raised (initialize n construct w).1)
unfolding initialize is_failed
initialize-once n construct other w lt keeps =
    let body : M (Unit {0}) = λ v. construct (v.heap n).address v in
    let w1 : World = (with_right n body w).0 in
    let f = with_right-flags n body w (λ v. keeps (v.heap n).address v) in
    let s = settled (flags_of w n) (raised (with_right n body w).1) lt in
    let second =
      again n (λ v. other (v.heap n).address v) w1 (ap has_right f ∙ s.0)
        (ap cleared f ∙ s.1 ∙ sym f) in
    (second.0, second.1, ap has_failed f ∙ s.2)
