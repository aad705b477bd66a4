-- ===== src/Mutex/Examples.antt =====
-- Thread 0 holds the mutex.
use gca.Base.{◌≡◌, refl, true, false, arith}
use gca.Base.Family.{update}
use gca.Mutex.{try_acquire}
use gca.Mutex.Threads.{Users, construct, Run, free, next, mutex_exclusion}

abbrev one_holder : Users
one_holder = record {
  lock = (try_acquire false).0;
  acquired = update (λ _. false) 0 (try_acquire false).1;
}

one_holder-Run : Run 2 one_holder
one_holder-Run = next free (construct 0 (omega arith) refl)

mutex_exclusion_example : (one_holder.lock ≡ true) × (one_holder.acquired 1 ≡ false)
unfolding try_acquire
mutex_exclusion_example =
    mutex_exclusion one_holder-Run 0 1 (omega arith) (omega arith) (omega arith) refl
