-- ===== src/Mutex/Threads.antt =====
-- Threads that use one mutex as the guards do: each constructs a guard by an attempt, and releases
-- only what its guard holds.
use gca.Base.{ℕ, ◌<◌, ◌≡◌, refl, ◌≢◌, Bool, true, false, arith}
use gca.Base.Family.{update, total, total-update, total-ge, total-ge_two, total-zero}
use gca.Mutex.{Mutex, try_acquire, release, scoped_mutex_release}

pub record Users : Type 0 where
  pub lock : Mutex
  pub acquired : ℕ → Bool

pub data Turn (n : ℕ) (s : Users) : Users → Type 0 where
  construct :
      (t : ℕ)
      → t < n
      → s.acquired t ≡ false
      → Turn n s (record {
        lock = (try_acquire s.lock).0;
        acquired = update s.acquired t (try_acquire s.lock).1;
      })
  destruct :
      (t : ℕ)
      → t < n
      → Turn n s (record {
        lock = scoped_mutex_release (s.acquired t) s.lock;
        acquired = update s.acquired t false;
      })

pub data Run (n : ℕ) : Users → Type 0 where
  free : Run n (record { lock = false; acquired = λ _. false })
  next : {s s' : Users} → Run n s → Turn n s s' → Run n s'

abbrev pub weight : Bool → ℕ
weight true = 1
weight false = 0

-- The mutex is locked while one guard holds it, and free while none does.
abbrev pub CountsGuards : ℕ → Users → Type 0
CountsGuards n s = total weight n s.acquired ≡ weight s.lock

Turn-CountsGuards : {n : ℕ} {s s' : Users} → Turn n s s' → CountsGuards n s → CountsGuards n s'
unfolding try_acquire scoped_mutex_release release
Turn-CountsGuards {n} {s} (construct t h idle) c =
    ground (arith, idle, c, total-update weight n s.acquired t (try_acquire s.lock).1 h)
Turn-CountsGuards {n} {s} (destruct t h) c =
    ground (arith, c, total-update weight n s.acquired t false h, total-ge weight n s.acquired t h)

Run-CountsGuards : {n : ℕ} {s : Users} → Run n s → CountsGuards n s
Run-CountsGuards {n} free = total-zero weight n (λ _. false) (λ x. refl)
Run-CountsGuards (next r turn) = Turn-CountsGuards turn (Run-CountsGuards r)

-- In every reachable state, while the guard of a thread holds the mutex it is locked, and no guard
-- of another thread holds it.
pub mutex_exclusion :
    {n : ℕ} {s : Users}
    → Run n s
    → (i j : ℕ) → i < n
    → j < n
    → i ≢ j
    → s.acquired i ≡ true
    → (s.lock ≡ true) × (s.acquired j ≡ false)
mutex_exclusion {n} {s} r i j hi hj apart holds = (
  ground (arith, Run-CountsGuards r, total-ge weight n s.acquired i hi, holds),
  ground (
    arith,
    Run-CountsGuards r,
    total-ge_two weight n s.acquired i j,
    total-ge_two weight n s.acquired j i,
    holds,
  ),
)
