-- ===== src/RwLock.antt =====
-- `rw_lock` and `scoped_rw_lock` of include/gca/gc-util.h: a counter of readers in one byte, whose
-- top bit marks the writer. `owner t` says whether the lock is in the set of write accesses that
-- thread `t` keeps (`GetAcquiredWriteAccessesOnThisThread`).
-- Each compare-exchange is one step. Where a method tries again and again, `between` gives what
-- the other threads do to the lock before each further try; `none` means that the method still
-- spins when this list ends. A weak compare-exchange may fail for no reason: `spurious` says when.
pub mod Scoped
pub mod Laws
pub mod Threads
mod Examples
use gca.Base.{
  ℕ, zero, suc, ◌+◌, ◌-◌, ◌%◌, Bool, true, false, not, ◌&&◌, Option, none, some, List, [], ◌∷◌,
  ◌==◌, if◌then◌else◌,
}
use gca.Base.Family.{update}

pub record RwLock : Type 0 where
  pub word : ℕ
  pub owner : ℕ → Bool

abbrev pub write_mask : ℕ
write_mask = 128

-- `write_mask + 1`, the word of a lock that is held for writing
abbrev pub write_word : ℕ
write_word = 129

abbrev pub max_read_access_count : ℕ
max_read_access_count = write_mask

abbrev pub unlocked : RwLock
unlocked = record { word = 0; owner = λ _. false }

-- `v & ~write_mask` on a byte
abbrev pub clear_write_bit : ℕ → ℕ
clear_write_bit v = v % 128

unfoldable pub does_this_thread_have_rw_access : ℕ → RwLock → Bool
does_this_thread_have_rw_access t l = l.owner t

unfoldable pub try_acquire_write : ℕ → RwLock → RwLock × Bool
try_acquire_write t l =
    if l.word == 0
    then (record l { word = write_word; owner = update l.owner t true }, true)
    else (l, false)

unfoldable pub try_acquire_read : RwLock → RwLock × Bool
try_acquire_read l =
    let v = clear_write_bit l.word in
    if l.word == v then (record l { word = (v + 1) % 256 }, true) else (l, false)

unfoldable pub try_upgrade : ℕ → RwLock → RwLock × Bool
try_upgrade t l =
    if l.word == 1
    then (record l { word = write_word; owner = update l.owner t true }, true)
    else (l, l.word == write_word)

unfoldable pub down_grade : ℕ → RwLock → RwLock
down_grade t l =
    if l.word == write_word then record l { word = 1; owner = update l.owner t false } else l

unfoldable pub release : ℕ → RwLock → RwLock
release t l = record {
  word = if l.word == write_word then 0 else if l.word == 0 then 0 else l.word - 1;
  owner = update l.owner t false;
}

-- What the other threads do to a lock between two tries.
abbrev pub Interference : Type 0
Interference = RwLock → RwLock

-- `TryAcquireWrite(attempts)`
unfoldable pub try_acquire_write_for : ℕ → ℕ → (ℕ → Interference) → RwLock → RwLock × Bool
unfolding try_acquire_write
try_acquire_write_for t zero between l = (l, false)
try_acquire_write_for t (suc attempts) between l =
    let rest = try_acquire_write_for t attempts between (between attempts l) in
    if (try_acquire_write t l).1 then try_acquire_write t l else rest

-- `TryAcquireRead(attempts)`: the word that is expected comes from the last look at the lock, so
-- it may be out of date. `seen` is that look.
read_attempts :
    (spurious : ℕ → Bool) (attempts : ℕ) (between : ℕ → Interference) (seen : ℕ)
    → RwLock
    → RwLock × Bool
read_attempts spurious zero between seen l = (l, false)
read_attempts spurious (suc attempts) between seen l =
    let v = clear_write_bit seen in
    let rest = read_attempts spurious attempts between l.word (between attempts l) in
    if (l.word == v) && not (spurious attempts)
    then (record l { word = (v + 1) % 256 }, true)
    else rest

unfoldable pub try_acquire_read_for :
    (spurious : ℕ → Bool) (attempts : ℕ) (between : ℕ → Interference) → RwLock → RwLock × Bool
unfolding read_attempts
try_acquire_read_for spurious attempts between l = read_attempts spurious attempts between l.word l

-- `TryUpgrade(attempts)`
unfoldable pub try_upgrade_for : ℕ → ℕ → (ℕ → Interference) → RwLock → RwLock × Bool
unfolding try_upgrade
try_upgrade_for t zero between l = (l, false)
try_upgrade_for t (suc attempts) between l =
    let rest = try_upgrade_for t attempts between (between attempts l) in
    if (try_upgrade t l).1 then try_upgrade t l else rest

unfoldable pub acquire_write : ℕ → List Interference → RwLock → Option RwLock
unfolding try_acquire_write
acquire_write t [] l = if (try_acquire_write t l).1 then some (try_acquire_write t l).0 else none
acquire_write t (others ∷ between) l =
    let rest = acquire_write t between (others l) in
    if (try_acquire_write t l).1 then some (try_acquire_write t l).0 else rest

-- `AcquireRead`: as above, the expected word comes from the last look at the lock.
read_tries : (between : List Interference) (seen : ℕ) → RwLock → Option RwLock
read_tries [] seen l =
    let v = clear_write_bit seen in
    if l.word == v then some (record l { word = (v + 1) % 256 }) else none
read_tries (others ∷ between) seen l =
    let v = clear_write_bit seen in
    let rest = read_tries between l.word (others l) in
    if l.word == v then some (record l { word = (v + 1) % 256 }) else rest

unfoldable pub acquire_read : List Interference → RwLock → Option RwLock
unfolding read_tries
acquire_read between l = read_tries between l.word l

unfoldable pub upgrade : ℕ → List Interference → RwLock → Option RwLock
unfolding try_upgrade
upgrade t [] l = if (try_upgrade t l).1 then some (try_upgrade t l).0 else none
upgrade t (others ∷ between) l =
    let rest = upgrade t between (others l) in
    if (try_upgrade t l).1 then some (try_upgrade t l).0 else rest
