-- ===== src/Mutex.antt =====
-- `mutex` and `scoped_mutex_lock` of include/gca/gc-util.h. The lock is a Boolean; a strong
-- compare-exchange is one step. `between` gives what the other threads do before each further try,
-- and `none` means that the method still spins when a list of it ends.
pub mod Threads
mod Examples
use gca.Base.{
  ℕ, zero, suc, Bool, true, false, not, Option, none, some, List, [], ◌∷◌, if◌then◌else◌,
}

abbrev pub Mutex : Type 0
Mutex = Bool

unfoldable pub try_acquire : Mutex → Mutex × Bool
try_acquire locked = if locked then (locked, false) else (true, true)

unfoldable pub acquire : List (Mutex → Mutex) → Mutex → Option Mutex
unfolding try_acquire
acquire [] m = if (try_acquire m).1 then some (try_acquire m).0 else none
acquire (others ∷ between) m =
    let rest = acquire between (others m) in
    if (try_acquire m).1 then some (try_acquire m).0 else rest

unfoldable pub release : Mutex → Mutex
release locked = false

pub data LockMode : Type 0 where
  try_only get : LockMode

-- The loop of the constructor under `try_only`
unfoldable pub tries_left : ℕ → (ℕ → Mutex → Mutex) → Mutex → Mutex × Bool
unfolding try_acquire
tries_left zero between m = (m, false)
tries_left (suc tries) between m =
    let rest = tries_left tries between (between tries m) in
    if (try_acquire m).1 then try_acquire m else rest

-- The constructor: the mutex afterwards, and what `Acquired` answers.
unfoldable pub scoped_mutex_lock :
    LockMode
    → (tries : ℕ) → (ℕ → Mutex → Mutex)
    → List (Mutex → Mutex)
    → Mutex
    → Option (Mutex × Bool)
unfolding tries_left acquire
scoped_mutex_lock try_only tries between spinning m = some (tries_left tries between m)
scoped_mutex_lock get tries between spinning m = elim (acquire spinning m) [
  | none ↦ none
  | some m' ↦ some (m', true)
]

-- The destructor
unfoldable pub scoped_mutex_release : (acquired : Bool) → Mutex → Mutex
unfolding release
scoped_mutex_release acquired m = if acquired then release m else m
