-- ===== src/PoolServer/Fifo.antt =====
-- The queue of socket_test/server_pthread_pool.c is a bounded first-in first-out queue.
use linux_system_programing.Prelude.{
  ℕ, suc, ◌+◌, ◌%◌, ◌≤◌, ◌<◌, ◌≡◌, refl, ◌∙◌, List, [], ◌∷◌, ◌++◌, length, arith, length-set,
  Option, none, some, ◌==◌, Bool-cases, inl, inr, ==_iff,
}
use linux_system_programing.Rings.{max_task, window, window-pop, window-push}
use linux_system_programing.PoolServer.Queue.{Task, no_task, Queue, queue_init, put, take_task}

-- the connections in the queue, the oldest first
abbrev pub contents : Queue → List Task
contents q = window no_task q.task_queue q.front q.count

pub record IsQueue (q : Queue) : Type 0 where
  pub whole : length q.task_queue ≡ max_task
  pub front_in : q.front < max_task
  pub rear_at : q.rear ≡ (q.front + q.count) % max_task
  pub count_in : q.count ≤ max_task

pub queue_init-IsQueue :
    (memory : List Task) → length memory ≡ max_task → IsQueue (queue_init memory)
unfolding queue_init
queue_init-IsQueue memory h = record {
  whole = h;
  front_in = omega arith;
  rear_at = omega arith;
  count_in = omega arith;
}

abbrev pub Put : ℕ → Queue → Option Queue → Type 0
Put fd q none = q.count ≡ max_task
Put fd q (some q') =
    (q.count < max_task)
    × IsQueue q'
    × (contents q' ≡ contents q ++ record { client_fd = fd } ∷ [])
    × (q'.count ≡ q.count + 1)

pub put-Put : (fd : ℕ) {q : Queue} → IsQueue q → Put fd q (put fd q)
unfolding put
put-Put fd {q} v = elim (Bool-cases (q.count == max_task)) [
  | inl full ↦ rw full ((==_iff _ _).0 full)
  | inr room ↦
      let below : q.count < max_task = ground (arith, v.count_in) in
      let e : q.count + 1 ≡ suc q.count = omega arith in
      rw room (
        below,
        record {
          whole = length-set q.task_queue q.rear (record { client_fd = fd }) ∙ v.whole;
          front_in = v.front_in;
          rear_at = omega (arith, v.rear_at);
          count_in = omega (arith, below);
        },
        rw (v.rear_at, e)
            (window-push no_task q.task_queue q.front q.count (record { client_fd = fd }) v.whole
              below),
        refl,
      )
]

abbrev pub Taken : Queue → Option (Task × Queue) → Type 0
Taken q none = q.count ≡ 0
Taken q (some (task, q')) =
    IsQueue q' × (contents q ≡ task ∷ contents q') × (q.count ≡ q'.count + 1)

pub take_task-Taken : {q : Queue} → IsQueue q → Taken q (take_task q)
unfolding take_task
take_task-Taken {q} v = elim (Bool-cases (q.count == 0)) [
  | inl empty ↦ rw empty ((==_iff _ _).0 empty)
  | inr busy ↦
      let above : 0 < q.count = ground arith in
      rw busy (
        record {
          whole = v.whole;
          front_in = omega (arith, v.front_in);
          rear_at = omega (arith, v.rear_at, above);
          count_in = omega (arith, v.count_in);
        },
        window-pop no_task q.task_queue q.front q.count v.front_in above,
        omega (arith, above),
      )
]
