-- ===== src/RwLock/Scoped.antt =====
-- `scoped_rw_lock` of include/gca/gc-util.h. The guard holds the lock or, after an attempt that
-- failed, nothing; `none` is a constructor that does not return.
use gca.Base.{ℕ, Bool, true, false, Option, none, some, List, if◌then◌else◌}
use gca.Base.Result.{Result, ok, throw, bad_api_usage}
use gca.RwLock.{
  RwLock, Interference, try_acquire_write_for, try_acquire_read_for, acquire_write, acquire_read,
  try_upgrade_for, upgrade, release,
}

pub data Mode : Type 0 where
  ro rw try_ro try_rw : Mode

-- What happens around the attempts of one call.
pub record Weather : Type 0 where
  pub spurious : ℕ → Bool
  pub between : ℕ → Interference
  pub spinning : List Interference

abbrev held : Option RwLock → Option (RwLock × Bool)
held none = none
held (some l) = some (l, true)

-- The constructor: the lock afterwards, and whether the guard holds it.
unfoldable pub scoped_lock : ℕ → Mode → (attempts : ℕ) → Weather → RwLock → Option (RwLock × Bool)
scoped_lock t ro attempts w l = held (acquire_read w.spinning l)
scoped_lock t rw attempts w l = held (acquire_write t w.spinning l)
scoped_lock t try_ro attempts w l = some (try_acquire_read_for w.spurious attempts w.between l)
scoped_lock t try_rw attempts w l = some (try_acquire_write_for t attempts w.between l)

unfoldable pub scoped_try_upgrade : ℕ → Bool → (attempts : ℕ) → Weather → RwLock → RwLock × Bool
scoped_try_upgrade t acquired attempts w l =
    if acquired then try_upgrade_for t attempts w.between l else (l, false)

unfoldable pub scoped_upgrade : ℕ → Bool → Weather → RwLock → Option (Result RwLock)
scoped_upgrade t acquired w l =
    if acquired
    then elim (upgrade t w.spinning l) [ none ↦ none | some l' ↦ some (ok l') ]
    else some (throw bad_api_usage)

-- The destructor.
unfoldable pub scoped_release : ℕ → Bool → RwLock → RwLock
scoped_release t acquired l = if acquired then release t l else l
