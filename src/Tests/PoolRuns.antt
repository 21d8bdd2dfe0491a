-- ===== src/Tests/PoolRuns.antt =====
-- Runs of the pool of thread_test/thread_pool.c.
use linux_system_programing.Prelude.{
  ◌≡◌, refl, List, [], ◌∷◌, ◌++◌, length, replicate, length-replicate, arith, some,
}
use linux_system_programing.Rings.{max_task}
use linux_system_programing.ThreadPool.Queue.{Task, no_task, queue_init, push, pop}
use linux_system_programing.ThreadPool.Fifo.{queue_init-IsQueue, Pushed, Popped, bounded_fifo}
use linux_system_programing.ThreadPool.Workers.{
  Pool, threadpool_init, submit, worker_turn, taken, Run, created, submitted, turned, IsPool,
  Run-IsPool,
}

abbrev memory : List Task
memory = replicate max_task no_task

abbrev print : Task
print = record { function = 8; arg = 40 }

memory-length : length memory ≡ max_task
memory-length = length-replicate {A = Task} max_task no_task

bounded_fifo_example :
    Pushed print (queue_init memory) (push print (queue_init memory))
    × Popped (queue_init memory) (pop (queue_init memory))
bounded_fifo_example = bounded_fifo print (queue_init-IsQueue memory memory-length)

-- A worker finds the queue empty and waits.
abbrev idle : Pool
idle = (worker_turn (threadpool_init memory)).1

-- Then a task is submitted, and the worker is woken.
abbrev called : Pool
called = record {
  q = record { queue = print ∷ replicate 99 no_task; front = 0; rear = 1; size = 1; shutdown = 0 };
  ready = 3;
  waiting = 0;
  running = 0;
}

called_by : submit print idle ≡ some called
unfolding worker_turn threadpool_init queue_init pop submit push
called_by = refl

idle_begun :
    Run (threadpool_init memory) [] ([] ++ taken (worker_turn (threadpool_init memory)).0) idle
unfolding threadpool_init
idle_begun = turned created (omega arith)

called_begun :
    Run
      (threadpool_init memory)
      (print ∷ [])
      ([] ++ taken (worker_turn (threadpool_init memory)).0)
      called
called_begun = submitted print idle_begun called_by

Run-IsPool_example :
    IsPool (print ∷ []) ([] ++ taken (worker_turn (threadpool_init memory)).0) called
Run-IsPool_example = Run-IsPool memory memory-length called_begun
