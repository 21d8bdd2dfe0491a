-- ===== src/ThreadPool/Queue.antt =====
-- `Queue`, `queue_init`, `push` and `pop` of thread_test/thread_pool.c. Each call holds the mutex for
-- its whole body, so that it is one step; pthread_cond_wait() gives the mutex up, and its caller is
-- back at the test when it has it again.
use linux_system_programing.Prelude.{
  ℕ, ◌+◌, ◌-◌, ◌%◌, List, get_or, set, Option, none, some, ◌==◌, if◌then◌else◌,
}
use linux_system_programing.Rings.{max_task}

-- Pointers are addresses.
pub record Task : Type 0 where
  pub function : ℕ
  pub arg : ℕ

-- what stands past the end of the array, which nothing reads
abbrev pub no_task : Task
no_task = record { function = 0; arg = 0 }

pub record Queue : Type 0 where
  pub queue : List Task
  pub front : ℕ
  pub rear : ℕ
  pub size : ℕ
  pub shutdown : ℕ

-- `queue_init`; the tasks in the fresh array are what the memory held.
unfoldable pub queue_init : List Task → Queue
queue_init memory = record { queue = memory; front = 0; rear = 0; size = 0; shutdown = 0 }

-- `push`: `none` is -1.
unfoldable pub push : Task → Queue → Option Queue
push task q =
    if q.size == max_task
    then none
    else some (record q {
      queue = set q.queue q.rear task;
      rear = (q.rear + 1) % max_task;
      size = q.size + 1;
    })

-- One test of the loop of `pop`, and what follows it: `none` is the wait.
unfoldable pub pop : Queue → Option (Task × Queue)
pop q =
    if q.size == 0
    then none
    else some (
      get_or q.queue q.front no_task,
      record q { front = (q.front + 1) % max_task; size = q.size - 1 },
    )
