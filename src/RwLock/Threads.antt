-- ===== src/RwLock/Threads.antt =====
-- `n` threads over one `rw_lock`, interleaved in any order. A thread that uses the lock as its
-- guards do acquires it when it holds nothing, upgrades only what it reads, downgrades only what
-- it writes, and releases only what it holds. Each compare-exchange is one step.
use gca.Base.{
  ℕ, ◌+◌, ◌≤◌, ◌<◌, ◌≡◌, refl, sym, ap, ◌≢◌, ◌⊎◌, inl, Bool, true, false, if◌then◌else◌, arith,
}
use gca.Base.Family.{update, total, total-update, total-ge, total-ge_two, total-zero}
use gca.RwLock.{
  RwLock, unlocked, write_word, max_read_access_count, does_this_thread_have_rw_access,
  try_acquire_write, try_acquire_read, try_upgrade, down_grade, release,
}

-- What a thread holds.
pub data Access : Type 0 where
  nothing reading writing : Access

-- One attempt of one thread, successful or not.
pub data Attempt (t : ℕ) (l : RwLock) : Access → RwLock → Access → Type 0 where
  write_won :
      (try_acquire_write t l).1 ≡ true → Attempt t l nothing (try_acquire_write t l).0 writing
  write_lost :
      (try_acquire_write t l).1 ≡ false → Attempt t l nothing (try_acquire_write t l).0 nothing
  read_won : (try_acquire_read l).1 ≡ true → Attempt t l nothing (try_acquire_read l).0 reading
  read_lost : (try_acquire_read l).1 ≡ false → Attempt t l nothing (try_acquire_read l).0 nothing
  upgrade_won : (try_upgrade t l).1 ≡ true → Attempt t l reading (try_upgrade t l).0 writing
  upgrade_lost : (try_upgrade t l).1 ≡ false → Attempt t l reading (try_upgrade t l).0 reading
  downgraded : Attempt t l writing (down_grade t l) reading
  read_released : Attempt t l reading (release t l) nothing
  write_released : Attempt t l writing (release t l) nothing

pub record System : Type 0 where
  pub lock : RwLock
  pub access : ℕ → Access

pub data Step (n : ℕ) (s : System) : System → Type 0 where
  turn :
      (t : ℕ) {l : RwLock} {a : Access}
      → t < n
      → Attempt t s.lock (s.access t) l a
      → Step n s (record { lock = l; access = update s.access t a })

abbrev pub start : System
start = record { lock = unlocked; access = λ _. nothing }

pub data Reach (n : ℕ) : System → Type 0 where
  begin : Reach n start
  later : {s s' : System} → Reach n s → Step n s s' → Reach n s'

abbrev pub reads : Access → ℕ
reads reading = 1
reads _ = 0

abbrev pub writes : Access → ℕ
writes writing = 1
writes _ = 0

abbrev pub owns : Access → Bool
owns writing = true
owns _ = false

-- The word tells who holds the lock: either it counts the readers, or there is one writer.
abbrev pub CountsHolders : (n word : ℕ) → (ℕ → Access) → Type 0
CountsHolders n word access =
    ((word ≡ total reads n access) × (total writes n access ≡ 0) × (word ≤ max_read_access_count))
    ⊎ ((word ≡ write_word) × (total reads n access ≡ 0) × (total writes n access ≡ 1))

pub record IsConsistent (n : ℕ) (s : System) : Type 0 where
  pub word : CountsHolders n s.lock.word s.access
  pub owned : (t : ℕ) → s.lock.owner t ≡ owns (s.access t)

module _ {n t : ℕ} (s : System) (h : t < n) where
  moved :
      (a : Access)
      → (total reads n (update s.access t a) + reads (s.access t)
          ≡ total reads n s.access + reads a)
        × (total writes n (update s.access t a) + writes (s.access t)
            ≡ total writes n s.access + writes a)
  moved a = (total-update reads n s.access t a h, total-update writes n s.access t a h)

  Attempt-word :
      {l : RwLock} {b a : Access}
      → s.access t ≡ b
      → Attempt t s.lock b l a
      → IsConsistent n s
      → CountsHolders n l.word (update s.access t a)
  unfolding try_acquire_write try_acquire_read try_upgrade down_grade release
  Attempt-word e (write_won w) c = ground (arith, moved writing)
  Attempt-word e (write_lost w) c = ground (arith, moved nothing)
  Attempt-word e (read_won w) c = ground (arith, moved reading)
  Attempt-word e (read_lost w) c = ground (arith, moved nothing)
  Attempt-word e (upgrade_won w) c = ground (arith, moved writing)
  Attempt-word e (upgrade_lost w) c = ground (arith, moved reading)
  Attempt-word e downgraded c = ground (arith, moved reading)
  Attempt-word e read_released c = ground (arith, moved nothing)
  Attempt-word e write_released c = ground (arith, moved nothing)

  Attempt-owned :
      {l : RwLock} {b a : Access}
      → s.access t ≡ b
      → Attempt t s.lock b l a
      → IsConsistent n s
      → (r : ℕ) → l.owner r ≡ owns (update s.access t a r)
  unfolding try_acquire_write try_acquire_read try_upgrade down_grade release
  Attempt-owned e (write_won w) c r = ground (arith, c.owned r)
  Attempt-owned e (write_lost w) c r = ground (arith, c.owned r)
  Attempt-owned e (read_won w) c r = ground (arith, c.owned r)
  Attempt-owned e (read_lost w) c r = ground (arith, c.owned r)
  Attempt-owned e (upgrade_won w) c r =
      ground (arith, c.word, c.owned r, total-ge reads n s.access t h)
  Attempt-owned e (upgrade_lost w) c r = ground (arith, c.owned r)
  Attempt-owned e downgraded c r = ground (arith, c.word, c.owned r, total-ge writes n s.access t h)
  Attempt-owned e read_released c r = ground (arith, c.owned r)
  Attempt-owned e write_released c r = ground (arith, c.owned r)

pub Step-IsConsistent : {n : ℕ} {s s' : System} → Step n s s' → IsConsistent n s → IsConsistent n s'
Step-IsConsistent {s} (turn t h st) c = record {
  word = Attempt-word s h refl st c;
  owned = Attempt-owned s h refl st c;
}

pub Reach-IsConsistent : {n : ℕ} {s : System} → Reach n s → IsConsistent n s
Reach-IsConsistent {n} begin = record {
  word =
      inl (sym (total-zero reads n _ (λ _. refl)), total-zero writes n _ (λ _. refl), omega arith);
  owned = λ t. refl;
}
Reach-IsConsistent (later r st) = Step-IsConsistent st (Reach-IsConsistent r)

-- Mutual exclusion: in every reachable state, while a thread writes no other thread reads or writes.
pub mutual_exclusion :
    {n : ℕ} {s : System}
    → Reach n s
    → (i j : ℕ) → i < n
    → j < n
    → i ≢ j
    → s.access i ≡ writing
    → s.access j ≡ nothing
mutual_exclusion {n} {s} r i j hi hj ne w = ground (
  arith,
  (Reach-IsConsistent r).word,
  total-ge reads n s.access j hj,
  total-ge_two writes n s.access i j,
  total-ge_two writes n s.access j i,
  total-ge writes n s.access i hi,
)

-- In every reachable state `DoesThisThreadHaveRWAccess` answers yes exactly to the thread that
-- writes, and the word is either the number of readers, at most 128, or the write word while one
-- thread writes.
pub does_this_thread_have_rw_access_lem :
    {n : ℕ} {s : System}
    → Reach n s
    → (t : ℕ)
    → (does_this_thread_have_rw_access t s.lock ≡ owns (s.access t))
      × CountsHolders n s.lock.word s.access
unfolding does_this_thread_have_rw_access
does_this_thread_have_rw_access_lem r t =
    ((Reach-IsConsistent r).owned t, (Reach-IsConsistent r).word)

-- Steps in which threads `i` and `j` do nothing but try to upgrade, as `Upgrade` does; the other
-- threads do as they like.
pub data UpgradeSteps (n i j : ℕ) (s : System) : System → Type 0 where
  stay : UpgradeSteps n i j s s
  tries :
      (t : ℕ) {m : System}
      → (t ≡ i) ⊎ (t ≡ j)
      → UpgradeSteps n i j s m
      → UpgradeSteps n i j s (record {
        lock = (try_upgrade t m.lock).0;
        access = if (try_upgrade t m.lock).1 then update m.access t writing else m.access;
      })
  others :
      (t : ℕ) {m : System} {l : RwLock} {a : Access}
      → t < n
      → t ≢ i
      → t ≢ j
      → UpgradeSteps n i j s m
      → Attempt t m.lock (m.access t) l a
      → UpgradeSteps n i j s (record { lock = l; access = update m.access t a })

-- With two readers no upgrade succeeds.
two_readers_block :
    {n : ℕ} {s : System}
    → IsConsistent n s
    → (i j : ℕ) → i < j
    → j < n
    → s.access i ≡ reading
    → s.access j ≡ reading
    → (t : ℕ) → try_upgrade t s.lock ≡ (s.lock, false)
unfolding try_upgrade
two_readers_block {n} {s} c i j ij jn ri rj t =
    ground (arith, c.word, total-ge_two reads n s.access i j ij jn)

record BothRead (n i j : ℕ) (s : System) : Type 0 where
  consistent : IsConsistent n s
  first : s.access i ≡ reading
  second : s.access j ≡ reading

UpgradeSteps-BothRead :
    {n i j : ℕ} {s s' : System}
    → i < j
    → j < n
    → BothRead n i j s
    → UpgradeSteps n i j s s'
    → BothRead n i j s'
UpgradeSteps-BothRead ij jn b stay = b
UpgradeSteps-BothRead {i} {j} ij jn b (tries t who r) =
    let b' = UpgradeSteps-BothRead ij jn b r in
    rw (two_readers_block b'.consistent i j ij jn b'.first b'.second t) b'
UpgradeSteps-BothRead ij jn b (others t h ni nj r st) =
    let b' = UpgradeSteps-BothRead ij jn b r in
    record {
      consistent = Step-IsConsistent (turn t h st) b'.consistent;
      first = ground (arith, b'.first);
      second = ground (arith, b'.second);
    }

-- Two threads that both read and both call `Upgrade` wait for each other: whatever the other
-- threads do, however often the two try, both are still readers and the next try of either fails.
pub upgrade_deadlock :
    {n : ℕ} {s s' : System}
    → Reach n s
    → (i j : ℕ) → i < j
    → j < n
    → s.access i ≡ reading
    → s.access j ≡ reading
    → UpgradeSteps n i j s s'
    → (s'.access i ≡ reading)
      × (s'.access j ≡ reading)
      × ((try_upgrade i s'.lock).1 ≡ false)
      × ((try_upgrade j s'.lock).1 ≡ false)
upgrade_deadlock {n} {s'} r i j ij jn ri rj steps =
    (after.first, after.second, ap (λ p. p.1) (blocked i), ap (λ p. p.1) (blocked j))
  where
    after : BothRead n i j s'
    after =
        UpgradeSteps-BothRead ij jn
          (record { consistent = Reach-IsConsistent r; first = ri; second = rj }) steps

    blocked : (t : ℕ) → try_upgrade t s'.lock ≡ (s'.lock, false)
    blocked = two_readers_block after.consistent i j ij jn after.first after.second
