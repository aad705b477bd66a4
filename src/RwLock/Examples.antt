-- ===== src/RwLock/Examples.antt =====
-- Runs of two and three threads over one lock.
use gca.Base.{ℕ, ◌≡◌, refl, true, false, arith}
use gca.Base.Family.{update}
use gca.RwLock.{
  RwLock, unlocked, try_acquire_write, try_acquire_read, try_upgrade,
  does_this_thread_have_rw_access,
}
use gca.RwLock.Threads.{
  nothing, reading, writing, write_won, read_won, System, turn, start, Reach, begin, later,
  CountsHolders, mutual_exclusion, does_this_thread_have_rw_access_lem, stay, upgrade_deadlock,
}

abbrev with_word : ℕ → RwLock
with_word w = record { word = w; owner = λ _. false }

-- Thread 0 writes.
abbrev one_writer : System
one_writer = record {
  lock = (try_acquire_write 0 unlocked).0;
  access = update start.access 0 writing;
}

one_writer-Reach : Reach 2 one_writer
unfolding try_acquire_write
one_writer-Reach = later begin (turn 0 (omega arith) (write_won refl))

mutual_exclusion_example : one_writer.access 1 ≡ nothing
mutual_exclusion_example =
    mutual_exclusion one_writer-Reach 0 1 (omega arith) (omega arith) (omega arith) refl

does_this_thread_have_rw_access_lem_example :
    (does_this_thread_have_rw_access 0 one_writer.lock ≡ true)
    × CountsHolders 2 one_writer.lock.word one_writer.access
does_this_thread_have_rw_access_lem_example = does_this_thread_have_rw_access_lem one_writer-Reach 0

abbrev one_reader : System
one_reader = record { lock = (try_acquire_read unlocked).0; access = update start.access 0 reading }

-- Threads 0 and 1 read.
abbrev two_readers : System
two_readers = record {
  lock = (try_acquire_read one_reader.lock).0;
  access = update one_reader.access 1 reading;
}

two_readers-Reach : Reach 2 two_readers
unfolding try_acquire_read
two_readers-Reach =
    later (later begin (turn 0 (omega arith) (read_won refl)))
      (turn 1 (omega arith) (read_won refl))

upgrade_deadlock_example :
    (two_readers.access 0 ≡ reading)
    × (two_readers.access 1 ≡ reading)
    × ((try_upgrade 0 two_readers.lock).1 ≡ false)
    × ((try_upgrade 1 two_readers.lock).1 ≡ false)
upgrade_deadlock_example =
    upgrade_deadlock two_readers-Reach 0 1 (omega arith) (omega arith) refl refl stay
