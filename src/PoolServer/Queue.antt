-- ===== src/PoolServer/Queue.antt =====
-- `Task`, `Queue` and `queue_init` of socket_test/server_pthread_pool.c, and the critical sections of
-- `welcome_client` and `worker`. Each holds the mutex from its test to its end; pthread_cond_wait()
-- gives the mutex up, and its caller is back at the test when it has it again.
use linux_system_programing.Prelude.{
  ℕ, ◌+◌, ◌-◌, ◌%◌, List, get_or, set, Option, none, some, ◌==◌, if◌then◌else◌,
}
use linux_system_programing.Rings.{max_task}

pub record Task : Type 0 where
  pub client_fd : ℕ

-- what stands past the end of the array, which nothing reads
abbrev pub no_task : Task
no_task = record { client_fd = 0 }

pub record Queue : Type 0 where
  pub task_queue : List Task
  pub front : ℕ
  pub rear : ℕ
  pub count : ℕ

unfoldable pub queue_init : List Task → Queue
queue_init memory = record { task_queue = memory; front = 0; rear = 0; count = 0 }

-- One test of the loop of `welcome_client`, and what follows it: `none` is the wait for `not_full`.
unfoldable pub put : ℕ → Queue → Option Queue
put fd q =
    if q.count == max_task
    then none
    else some (record q {
      task_queue = set q.task_queue q.rear (record { client_fd = fd });
      rear = (q.rear + 1) % max_task;
      count = q.count + 1;
    })

-- One test of the loop of `worker`, and what follows it: `none` is the wait for `not_empty`.
unfoldable pub take_task : Queue → Option (Task × Queue)
take_task q =
    if q.count == 0
    then none
    else some (
      get_or q.task_queue q.front no_task,
      record q { front = (q.front + 1) % max_task; count = q.count - 1 },
    )
