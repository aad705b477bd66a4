-- ===== src/RwLock/Laws.antt =====
-- One thread and one `rw_lock`: what each acquisition does to the word, and that a release undoes it.
use gca.Base.{ℕ, zero, suc, ◌+◌, ◌<◌, ◌≡◌, Bool, true, false, not, ◌&&◌, if◌then◌else◌, ltb, arith}
use gca.RwLock.{
  RwLock, Interference, try_acquire_write, try_acquire_read, try_acquire_read_for, try_upgrade,
  down_grade, release,
}

-- Nobody touches the lock between the tries.
abbrev pub alone : ℕ → Interference
alone i l = l

-- One attempt of `TryAcquireRead(1)` with no spurious failure takes the lock exactly when fewer
-- than 128 readers and no writer hold it; it then counts one more reader.
pub try_acquire_read_for_once :
    (l : RwLock)
    → l.word < 256
    → try_acquire_read_for (λ _. false) 1 alone l
      ≡ (if ltb l.word 128 then (record l { word = l.word + 1 }, true) else (l, false))
unfolding try_acquire_read_for
try_acquire_read_for_once l h = ground arith

unfoldable pub all_spurious : ℕ → (ℕ → Bool) → Bool
all_spurious zero spurious = true
all_spurious (suc n) spurious = spurious n && all_spurious n spurious

-- With nobody else at work, `TryAcquireRead(attempts)` succeeds exactly when fewer than 128
-- readers and no writer hold the lock and some attempt does not fail spuriously; it adds one reader
-- then, and changes nothing otherwise.
pub try_acquire_read_for_lem :
    (spurious : ℕ → Bool) (attempts : ℕ) (l : RwLock)
    → l.word < 256
    → try_acquire_read_for spurious attempts alone l ≡ (
        if ltb l.word 128 && not (all_spurious attempts spurious)
        then (record l { word = l.word + 1 }, true)
        else (l, false))
unfolding try_acquire_read_for all_spurious
try_acquire_read_for_lem spurious zero l h = ground arith
try_acquire_read_for_lem spurious (suc n) l h =
    ground (arith, try_acquire_read_for_lem spurious n l h)

pub RwLock_ext : {k l : RwLock} → k.word ≡ l.word → ((s : ℕ) → k.owner s ≡ l.owner s) → k ≡ l
RwLock_ext p q = λ i. record { word = p i; owner = λ s. q s i }

pub data Acquisition : Type 0 where
  for_write for_read : Acquisition

abbrev pub attempt : Acquisition → ℕ → RwLock → RwLock × Bool
attempt for_write t l = try_acquire_write t l
attempt for_read t l = try_acquire_read l

-- After a successful attempt, for writing or for reading, by a thread that does not own the lock,
-- `Release` gives the lock back as it was, the set of owners included.
pub release-attempt :
    (how : Acquisition) (t : ℕ) (l : RwLock)
    → l.word < 256
    → l.owner t ≡ false
    → (attempt how t l).1 ≡ true
    → release t (attempt how t l).0 ≡ l
unfolding release try_acquire_write try_acquire_read
release-attempt for_write t l h o a = RwLock_ext (ground arith) (λ s. ground arith)
release-attempt for_read t l h o a = RwLock_ext (ground arith) (λ s. ground arith)

-- For a thread that does not own the lock and is its only reader, an upgrade succeeds and a
-- downgrade after it gives the lock back as it was.
pub down_grade-try_upgrade :
    (t : ℕ) (l : RwLock)
    → l.word ≡ 1
    → l.owner t ≡ false
    → ((try_upgrade t l).1 ≡ true) × (down_grade t (try_upgrade t l).0 ≡ l)
unfolding down_grade try_upgrade
down_grade-try_upgrade t l h o = (ground arith, RwLock_ext (ground arith) (λ s. ground arith))
