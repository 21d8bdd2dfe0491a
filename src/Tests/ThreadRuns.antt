-- ===== src/Tests/ThreadRuns.antt =====
-- Runs of the threads of thread_test/.
use linux_system_programing.Prelude.{◌≡◌, ◌⊎◌, refl, arith}
use linux_system_programing.Semaphores.System.{
  start, missions, System, Reach, started, next, by_producer, by_consumer, sem_wait_empty, write,
  sem_post_full,
}
use linux_system_programing.Semaphores.System
use linux_system_programing.Semaphores.Order.{IsSystem, Reach-IsSystem, upto}
use linux_system_programing.Semaphores.Progress.{IsDone, CanStep, Reach-progress}

-- The producer writes mission 0.
abbrev one_made : System
one_made = record start { full = 1; empty = 9; made = 1; buf = System.produce 0 start.buf }

one_made_run : Reach one_made
one_made_run =
    next
      (next
        (next
          (next (next started (by_producer (sem_wait_empty refl (omega arith) (omega arith))))
            (by_producer (System.Produce.lock refl refl)))
          (by_producer (write refl)))
        (by_producer (System.Produce.unlock refl)))
      (by_producer (sem_post_full refl))

Reach-IsSystem_example : IsSystem one_made
Reach-IsSystem_example = Reach-IsSystem one_made_run

Reach-progress_example : (IsDone one_made × (one_made.printed ≡ upto missions)) ⊎ CanStep one_made
Reach-progress_example = Reach-progress one_made_run
